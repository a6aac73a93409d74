-- ===== src/Shell/Keyboard/Command.antt =====
-- What the return key does in the keyboard's interrupt of ShompOS/src/kernel/kernel.c: the line that
-- was typed is run.
use operating_system.Base.{
  ℕ, zero, suc, ◌%◌, ◌<◌, ◌≡◌, ◌≢◌, ◌⊎◌, inl, inr, refl, ap, false, not, ◌&&◌, List, [], ◌∷◌,
  Option, none, some, arith, ltb, ◌==◌, if◌then◌else◌, Bool-cases, set, get_or, take, length, ◌∉◌,
}
use operating_system.Base.Int.{pos}
use operating_system.Ramfs.{Fs}
use operating_system.Ramfs.Descriptor.{ramfs_write}
use operating_system.Terminal.{putchar}
use operating_system.Shell.{Env, KeyState, Shell, with_fs, tell, text_of, handle_command}
use operating_system.Shell.Keyboard.{
  keyboard_map, Ports, scan_code, modifier, character, printable, echo, enter, press, prompt,
  handle_keyboard_interrupt,
}
use operating_system.Shell.Keyboard.Kept.{
  Each, Each-at, nothing_returned, returned, any, Each-bind, Each-map,
}
use operating_system.Shell.Keyboard.Line.{
  Key, typed, erase, return_key, other_key, plain_key, key_after, key_of, line_of, IsLine, Edited,
  interrupt-Edited,
}

-- The state in which the line is run: the line ends with a 0, and the newline was written.
abbrev pub ended : Fs → Shell → Shell
ended fs s = with_fs fs (record s { cmd_buffer = set s.cmd_buffer s.cmd_pos 0 })

-- The line is run where there is a directory and the line is not empty.
abbrev pub Runs : Env → Shell → Shell → Shell → Type 0
Runs env s u v =
    (((s.current_dir ≡ 0) ⊎ (line_of s ≡ [])) × (v ≡ u))
    ⊎ ((s.current_dir ≢ 0) × (line_of s ≢ []) × (handle_command env u ≡ some v))

-- What the return key leaves: the state behind the command, with the prompt and an empty line.
abbrev pub Ran : Env → Shell → Shell → Type 0
Ran env s t =
    (fs : Fs) × (v : Shell) × (text_of (ended fs s).cmd_buffer ≡ line_of s)
    × Runs env s (ended fs s) v
    × (t ≡ tell prompt (record v { cmd_pos = 0 }))

abbrev pub Done : Env → Key → Shell → Shell → Type 0
Done env return_key s t = Ran env s t
Done env (typed c) s t = Unit
Done env erase s t = Unit
Done env other_key s t = Unit

Each-both :
    {A : Type 0} {P Q : A → Type 0} {m : Option A} → Each P m → Each Q m → Each (λ a. P a × Q a) m
Each-both nothing_returned q = nothing_returned
Each-both {Q = Q} (returned {a = a} p) q = returned (p, Each-at q refl)

itself : {A : Type 0} (m : Option A) → Each (λ a. m ≡ some a) m
itself none = nothing_returned
itself (some a) = returned refl

text_of-set :
    (n : ℕ) (xs : List ℕ) → n < length xs → 0 ∉ take n xs → text_of (set xs n 0) ≡ take n xs
unfolding text_of
text_of-set n [] lt out = absurd (omega (arith, lt))
text_of-set zero (x ∷ xs) lt out = refl
text_of-set (suc n) (x ∷ xs) lt out =
    let nonzero : (x == 0) ≡ false = ground arith in
    rw nonzero (ap (λ ys. x ∷ ys) (text_of-set n xs (omega (arith, lt)) (ground arith)))

echo-with_fs :
    (env : Env) (buf : ℕ) (s : Shell) → Each (λ t. (fs : Fs) × (t ≡ with_fs fs s)) (echo env buf s)
unfolding echo
echo-with_fs env buf s =
    Each-bind (any (ramfs_write env.fuel (pos 0) buf 1 s.system.fs)) (λ (_, fs1) _.
      Each-bind (any (ramfs_write env.fuel (pos 1) buf 1 fs1)) (λ (_, fs2) _. returned (fs2, refl)))

take-some : (n : ℕ) (xs : List ℕ) → 0 < n → 0 < length xs → take n xs ≢ []
take-some zero xs lt some_left e = absurd (omega (arith, lt))
take-some (suc n) [] lt some_left e = absurd (omega (arith, some_left))
take-some (suc n) (x ∷ xs) lt some_left e = cc

module _ (env : Env) (s : Shell) (v : IsLine s) where
  run_line-Runs :
      (fs : Fs)
      → Each (Runs env s (ended fs s)) (
          if not (s.current_dir == 0) && ltb 0 s.cmd_pos
          then handle_command env (ended fs s)
          else some (ended fs s))
  run_line-Runs fs = elim (Bool-cases (s.current_dir == 0)) [
    | inl no_dir ↦
        let null : s.current_dir ≡ 0 = ground arith in rw no_dir (returned (inl (inl null, refl)))
    | inr dir ↦ elim (Bool-cases (ltb 0 s.cmd_pos)) [
      | inl full ↦
          let some_line =
            take-some s.cmd_pos s.cmd_buffer (ground arith) (omega (arith, v.room, v.array)) in
          rw (dir, full)
            (Each-map (itself (handle_command env (ended fs s)))
              (λ t e. inr (ground arith, some_line, e)))
      | inr empty ↦
          let null : s.cmd_pos ≡ 0 = ground arith in
          let no_line : line_of s ≡ [] = ap (λ n. take n s.cmd_buffer) null in
          rw (dir, empty) (returned (inl (inr no_line, refl)))
    ]
  ]

  enter-Ran : Each (Ran env s) (enter env s)
  unfolding enter
  enter-Ran =
      Each-bind
        (echo-with_fs env env.newline (record s { cmd_buffer = set s.cmd_buffer s.cmd_pos 0 }))
        (λ s1 (fs, same).
          let fs' : Fs = record fs { terminal = putchar 10 fs.terminal } in
          rw same (
            Each-bind (run_line-Runs fs') (λ u runs. returned (
              fs',
              u,
              text_of-set s.cmd_pos s.cmd_buffer (omega (arith, v.room, v.array)) v.chars,
              runs,
              refl,
            ))))

  press-Done : (code : ℕ) → Each (Done env (plain_key s.keys code) s) (press env code s)
  unfolding press plain_key
  press-Done code = elim (Bool-cases (ltb 127 code)) [
    | inl release ↦ rw release (any (some s))
    | inr pressed ↦ elim (Bool-cases (get_or keyboard_map code 0 == 10)) [
      | inl ret ↦ rw (pressed, ret) enter-Ran
      | inr not_ret ↦ elim (Bool-cases (code == 0x0E)) [
        | inl back ↦ rw (pressed, not_ret, back) (any _)
        | inr not_back ↦ elim (Bool-cases (printable (character s.keys code))) [
          | inl good ↦ rw (pressed, not_ret, not_back, good) (any _)
          | inr bad ↦ rw (pressed, not_ret, not_back, bad) (any _)
        ]
      ]
    ]
  ]

  modified-Done :
      (code : ℕ) (keys : Option KeyState)
      → Each
          (Done env (key_after s.keys code keys) s)
          (elim keys [ some k ↦ some (record s { keys = k }) | none ↦ press env code s ])
  unfolding key_after
  modified-Done code none = press-Done code
  modified-Done code (some k) = any _

  -- For each key, if `handle_keyboard_interrupt` returns, then the line in the buffer was edited
  -- as the key means: a printable character is appended to a line of less than 63, backspace takes
  -- the last one away, return empties the line, and any other key leaves it. The position stays
  -- inside the buffer of 64, and the line holds no 0. For return, what is left is the state after
  -- `handle_command` on the typed line, ended by a 0, with the prompt printed; without a current
  -- directory or on an empty line no command is run.
  pub handle_keyboard_interrupt-Edited :
      (ports : Ports)
      → ports.status % 2 ≡ 1
      → Each
          (λ t.
            Edited (key_of s.keys (scan_code ports)) s t
            × Done env (key_of s.keys (scan_code ports)) s t)
          (handle_keyboard_interrupt env ports s)
  unfolding handle_keyboard_interrupt key_of
  handle_keyboard_interrupt-Edited ports ready =
      let full : (ports.status % 2 == 0) ≡ false = ground arith in
      Each-both (interrupt-Edited env s v ports ready)
        (rw full (modified-Done (scan_code ports) (modifier (scan_code ports) s.keys)))
