-- ===== src/Shell/Keyboard/Line.antt =====
-- The line that is typed, and what the keyboard's interrupt of ShompOS/src/kernel/kernel.c does to it.
use operating_system.Base.{
  ℕ, zero, suc, ◌+◌, ◌-◌, ◌%◌, ◌≤◌, ◌<◌, ◌≡◌, inl, inr, refl, sym, ap, ◌∙◌, true, false, not, ◌&&◌,
  List, [], ◌∷◌, ◌++◌, Option, none, some, Text, arith, ltb, ◌==◌, if◌then◌else◌, Bool-cases, set,
  get_or, take, length, length-set, length-take, ◌∉◌, has-append,
}
use operating_system.Terminal.{putchar}
use operating_system.Shell.{
  Env, KeyState, Shell, cmd_max_len, with_fs, tell, split_command, split_at, find_space,
  handle_command,
}
use operating_system.Libc.{store}
use operating_system.Shell.Keyboard.{
  keyboard_map, Ports, scan_code, modifier, character, printable, echo, enter, backspace, type_key,
  press, prompt, handle_keyboard_interrupt,
}
use operating_system.Shell.Keyboard.Kept.{
  Each, returned, Each-bind, Each-map, Each-at, run_handler-IsKept, echo-IsKept,
}

-- What a key means to the one who types.
pub data Key : Type 0 where
  typed : ℕ → Key
  erase return_key other_key : Key

unfoldable pub plain_key : KeyState → ℕ → Key
plain_key keys code =
    if ltb 127 code
    then other_key
    else if get_or keyboard_map code 0 == 10
    then return_key
    else if code == 0x0E
    then erase
    else if printable (character keys code)
    then typed (character keys code)
    else other_key

unfoldable pub key_after : KeyState → ℕ → Option KeyState → Key
unfolding plain_key
key_after keys code none = plain_key keys code
key_after keys code (some _) = other_key

unfoldable pub key_of : KeyState → ℕ → Key
unfolding key_after
key_of keys code = key_after keys code (modifier code keys)

-- A line of at most 63 characters.
pub edit : Key → Text → Text
edit (typed c) line = if ltb (length line) (cmd_max_len - 1) then line ++ c ∷ [] else line
edit erase line = take (length line - 1) line
edit return_key line = []
edit other_key line = line

-- The state in which a typed character is written to the files.
abbrev pub stored : Env → ℕ → Shell → Shell
stored env c s =
    let fs = s.system.fs in
    with_fs (record fs { memory = store fs.memory env.local c })
      (record s { cmd_buffer = set s.cmd_buffer s.cmd_pos c; cmd_pos = s.cmd_pos + 1 })

-- A key other than return; for a character, its writes to the standard input and output return.
pub data Settles (env : Env) (s : Shell) : Key → Type 0 where
  erasing : Settles env s erase
  ignored : Settles env s other_key
  echoed :
      (c : ℕ) (u : Shell) → echo env env.local (stored env c s) ≡ some u → Settles env s (typed c)

echo_of :
    {env : Env} {s : Shell} {c : ℕ}
    → Settles env s (typed c)
    → (u : Shell) × (echo env env.local (stored env c s) ≡ some u)
echo_of (echoed c u e) = (u, e)

not_return : {env : Env} {s : Shell} → Settles env s return_key → ⊥
not_return m = elim m [ ]

abbrev pub line_of : Shell → Text
line_of s = take s.cmd_pos s.cmd_buffer

pub record IsLine (s : Shell) : Type 0 where
  pub room : s.cmd_pos < cmd_max_len
  pub array : length s.cmd_buffer ≡ cmd_max_len
  pub chars : 0 ∉ line_of s

take-take : (m n : ℕ) (xs : List ℕ) → m ≤ n → take m (take n xs) ≡ take m xs
take-take zero n xs le = refl
take-take (suc m) zero xs le = absurd (omega (arith, le))
take-take (suc m) (suc n) [] le = refl
take-take (suc m) (suc n) (x ∷ xs) le = ap (λ ys. x ∷ ys) (take-take m n xs (omega (arith, le)))

not_mem-take : (m n : ℕ) (xs : List ℕ) → m ≤ n → 0 ∉ take n xs → 0 ∉ take m xs
not_mem-take zero n xs le out = refl
not_mem-take (suc m) zero xs le out = absurd (omega (arith, le))
not_mem-take (suc m) (suc n) [] le out = refl
not_mem-take (suc m) (suc n) (x ∷ xs) le out =
    ground (arith, not_mem-take m n xs (omega (arith, le)))

take-set :
    (n : ℕ) (xs : List ℕ) (c : ℕ) → n < length xs → take (suc n) (set xs n c) ≡ take n xs ++ c ∷ []
take-set n [] c lt = absurd (omega (arith, lt))
take-set zero (x ∷ xs) c lt = refl
take-set (suc n) (x ∷ xs) c lt = ap (λ ys. x ∷ ys) (take-set n xs c (omega (arith, lt)))

-- What the handler leaves, for what the key means.
pub record Edited (key : Key) (s t : Shell) : Type 0 where
  pub line : line_of t ≡ edit key (line_of s)
  pub valid : IsLine t

module _ (env : Env) (s : Shell) (v : IsLine s) where
  length-line : length (line_of s) ≡ s.cmd_pos
  length-line = omega (arith, length-take s.cmd_pos s.cmd_buffer, v.room, v.array)

  unchanged : Edited other_key s s
  unfolding edit
  unchanged = record { line = refl; valid = v }

  backspace-Edited : Edited erase s (backspace s)
  unfolding backspace edit
  backspace-Edited = elim (Bool-cases (ltb 0 s.cmd_pos)) [
    | inl some_left ↦ rw some_left (record {
      line = rw length-line (sym (take-take (s.cmd_pos - 1) s.cmd_pos s.cmd_buffer (omega arith)));
      valid = record {
        room = omega (arith, v.room);
        array = v.array;
        chars = not_mem-take (s.cmd_pos - 1) s.cmd_pos s.cmd_buffer (omega arith) v.chars;
      };
    })
    | inr none_left ↦
        let null : s.cmd_pos ≡ 0 = ground arith in
        rw none_left (record { line = rw (length-line, null) refl; valid = v })
  ]

  type_key-Edited :
      (code : ℕ)
      → printable (character s.keys code) ≡ true
      → Each (Edited (typed (character s.keys code)) s) (type_key env code s)
  unfolding type_key edit
  type_key-Edited code good = elim (Bool-cases (ltb s.cmd_pos (cmd_max_len - 1))) [
    | inl fits ↦
        let c = character s.keys code in
        let lt : s.cmd_pos < cmd_max_len - 1 = ground arith in
        let next : s.cmd_pos + 1 ≡ suc s.cmd_pos = omega arith in
        rw (fits, good)
          (Each-map (echo-IsKept env env.local _) (λ t k.
            let line : line_of t ≡ line_of s ++ c ∷ [] =
              ap (λ n. take n t.cmd_buffer) (k.position ∙ next)
              ∙ ap (λ xs. take (suc s.cmd_pos) xs) k.buffer
              ∙ take-set s.cmd_pos s.cmd_buffer c (omega (arith, lt, v.array)) in
            record {
              line = line ∙ rw (length-line, fits) refl;
              valid = record {
                room = omega (arith, k.position, lt);
                array = ap length k.buffer ∙ length-set s.cmd_buffer s.cmd_pos c ∙ v.array;
                chars = rw line (ground (arith, has-append 0 (line_of s) (c ∷ []), v.chars));
              };
            }))
    | inr full ↦ rw full (returned (record { line = rw (length-line, full) refl; valid = v }))
  ]

  type_key-other :
      (code : ℕ)
      → printable (character s.keys code) ≡ false
      → Each (Edited other_key s) (type_key env code s)
  unfolding type_key
  type_key-other code bad = elim (Bool-cases (ltb s.cmd_pos (cmd_max_len - 1))) [
    | inl fits ↦ rw (fits, bad) (returned unchanged)
    | inr full ↦ rw full (returned unchanged)
  ]

split_at-length : (cmd : List ℕ) (found : Option ℕ) → length (split_at cmd found).2 ≡ length cmd
unfolding split_at
split_at-length cmd none = refl
split_at-length cmd (some i) = length-set cmd i 0

handle_command-length :
    (env : Env) (s : Shell)
    → Each (λ t. length t.cmd_buffer ≡ length s.cmd_buffer) (handle_command env s)
unfolding handle_command split_command
handle_command-length env s =
    let (name, args, cmd) = split_command s.cmd_buffer in
    Each-map (run_handler-IsKept env name args (record s { cmd_buffer = cmd }))
      (λ t k. ap length k.buffer ∙ split_at-length s.cmd_buffer (find_space 0 s.cmd_buffer))

module _ (env : Env) (s : Shell) (v : IsLine s) where
  enter-Edited : Each (Edited return_key s) (enter env s)
  unfolding enter edit
  enter-Edited =
      Each-bind
        (echo-IsKept env env.newline (record s { cmd_buffer = set s.cmd_buffer s.cmd_pos 0 }))
        (λ s1 k.
          let fs = s1.system.fs in
          let s2 = with_fs (record fs { terminal = putchar 10 fs.terminal }) s1 in
          let array : length s2.cmd_buffer ≡ cmd_max_len =
            ap length k.buffer ∙ length-set s.cmd_buffer s.cmd_pos 0 ∙ v.array in
          let finish : (s3 : Shell)
              → length s3.cmd_buffer ≡ cmd_max_len
              → Each (Edited return_key s) (some (tell prompt (record s3 { cmd_pos = 0 }))) =
            λ s3 e. returned (record {
              line = refl;
              valid = record { room = omega arith; array = e; chars = refl };
            }) in
          elim (Bool-cases (not (s2.current_dir == 0) && ltb 0 s2.cmd_pos)) [
            | inl go ↦
                rw go (Each-bind (handle_command-length env s2) (λ s3 e. finish s3 (e ∙ array)))
            | inr empty ↦ rw empty (Each-bind (returned {a = s2} array) (λ s3 e. finish s3 e))
          ])

  press-Edited : (code : ℕ) → Each (Edited (plain_key s.keys code) s) (press env code s)
  unfolding press plain_key
  press-Edited code = elim (Bool-cases (ltb 127 code)) [
    | inl release ↦ rw release (returned (unchanged env s v))
    | inr pressed ↦ elim (Bool-cases (get_or keyboard_map code 0 == 10)) [
      | inl ret ↦ rw (pressed, ret) enter-Edited
      | inr not_ret ↦ elim (Bool-cases (code == 0x0E)) [
        | inl back ↦ rw (pressed, not_ret, back) (returned (backspace-Edited env s v))
        | inr not_back ↦ elim (Bool-cases (printable (character s.keys code))) [
          | inl good ↦ rw (pressed, not_ret, not_back, good) (type_key-Edited env s v code good)
          | inr bad ↦ rw (pressed, not_ret, not_back, bad) (type_key-other env s v code bad)
        ]
      ]
    ]
  ]

  modified :
      (code : ℕ) (keys : Option KeyState)
      → Each
          (Edited (key_after s.keys code keys) s)
          (elim keys [ some k ↦ some (record s { keys = k }) | none ↦ press env code s ])
  unfolding key_after edit
  modified code none = press-Edited code
  modified code (some k) =
      returned
        (record { line = refl; valid = record { room = v.room; array = v.array; chars = v.chars } })

  pub interrupt-Edited :
      (ports : Ports)
      → ports.status % 2 ≡ 1
      → Each (Edited (key_of s.keys (scan_code ports)) s) (handle_keyboard_interrupt env ports s)
  unfolding handle_keyboard_interrupt key_of
  interrupt-Edited ports ready =
      let full : (ports.status % 2 == 0) ≡ false = ground arith in
      rw full (modified (scan_code ports) (modifier (scan_code ports) s.keys))

  settled :
      (code : ℕ) (keys : Option KeyState)
      → Settles env s (key_after s.keys code keys)
      → (t : Shell) × (elim keys as (λ x. Option Shell) [
        | some k ↦ some (record s { keys = k })
        | none ↦ press env code s
      ]
          ≡ some t)
  unfolding key_after plain_key press type_key
  settled code (some k) means = (record s { keys = k }, refl)
  settled code none means = elim (Bool-cases (ltb 127 code)) [
    | inl release ↦ (s, rw release refl)
    | inr pressed ↦ elim (Bool-cases (get_or keyboard_map code 0 == 10)) [
      | inl ret ↦ absurd (not_return (rw (pressed, ret) at means))
      | inr not_ret ↦ elim (Bool-cases (code == 0x0E)) [
        | inl back ↦ (backspace s, rw (pressed, not_ret, back) refl)
        | inr not_back ↦ elim (Bool-cases (ltb s.cmd_pos (cmd_max_len - 1))) [
          | inr full ↦ (s, rw (pressed, not_ret, not_back, full) refl)
          | inl fits ↦ elim (Bool-cases (printable (character s.keys code))) [
            | inl good ↦
                let (u, e) = echo_of (rw (pressed, not_ret, not_back, good) at means) in
                (u, rw (pressed, not_ret, not_back, fits, good) e)
            | inr bad ↦ (s, rw (pressed, not_ret, not_back, fits, bad) refl)
          ]
        ]
      ]
    ]
  ]

  -- For each key but return, `handle_keyboard_interrupt` returns, with the line edited as the key
  -- means; for a printable character, if its writes to the standard input and output return.
  pub handle_keyboard_interrupt-returns :
      (ports : Ports)
      → ports.status % 2 ≡ 1
      → Settles env s (key_of s.keys (scan_code ports))
      → (t : Shell) × (handle_keyboard_interrupt env ports s ≡ some t)
        × Edited (key_of s.keys (scan_code ports)) s t
  unfolding handle_keyboard_interrupt key_of
  handle_keyboard_interrupt-returns ports ready means =
      let full : (ports.status % 2 == 0) ≡ false = ground arith in
      let (t, e) = settled (scan_code ports) (modifier (scan_code ports) s.keys) means in
      (t, rw full e, Each-at (modified (scan_code ports) (modifier (scan_code ports) s.keys)) e)
