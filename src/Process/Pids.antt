-- ===== src/Process/Pids.antt =====
-- `get_next_PID` of ShompOS/src/process/process.c: its recursion ends, with an unused PID.
use operating_system.Base.{
  ℕ, zero, suc, ◌+◌, ◌-◌, ◌≤◌, ◌<◌, ◌≡◌, ◌≢◌, ◌⊎◌, inl, inr, refl, ◌∙◌, List, [], ◌∷◌, Option, none,
  some, arith, ◌==◌, ltb, if◌then◌else◌, Bool-cases, length, has, ◌∈◌, ◌∉◌,
}
use mathlib.Core.Path.{subst}
use operating_system.Heap.{u32_mod}
use operating_system.Process.{
  ProcessStruct, max_pid, max_process, advance_pid, next_pid_loop, get_next_pid,
}
use operating_system.Process.Table.{live_pids, length-live_pids, get_process-live}

-- The loop over the PIDs in use.
pid_loop : ℕ → List ℕ → ℕ → Option ℕ
pid_loop zero L n = none
pid_loop (suc rounds) L n =
    let again = pid_loop rounds L (advance_pid n) in
    if has (advance_pid n) L then again else some (advance_pid n)

next_pid_loop-live :
    (rounds : ℕ) (table : List ProcessStruct) (n : ℕ)
    → next_pid_loop rounds table n ≡ pid_loop rounds (live_pids table) n
unfolding next_pid_loop pid_loop
next_pid_loop-live zero table n = refl
next_pid_loop-live (suc rounds) table n =
    ground (
      arith,
      get_process-live (advance_pid n) table,
      next_pid_loop-live rounds table (advance_pid n),
    )

erase : ℕ → List ℕ → List ℕ
erase c [] = []
erase c (x ∷ xs) = if c == x then xs else x ∷ erase c xs

has-erase : (a c : ℕ) (L : List ℕ) → a ≢ c → has a (erase c L) ≡ has a L
unfolding erase
has-erase a c [] ne = refl
has-erase a c (x ∷ xs) ne = ground (arith, has-erase a c xs ne)

length-erase : (c : ℕ) (L : List ℕ) → c ∈ L → length (erase c L) + 1 ≡ length L
unfolding erase
length-erase c [] m = cc
length-erase c (x ∷ xs) m = ground (arith, length-erase c xs)

-- A PID that the next rounds do not come to can be left out of those in use.
abbrev ahead : ℕ → ℕ → ℕ
ahead n c = if ltb n c then c - n else c + max_pid - n

pid_loop-erase :
    (rounds n c : ℕ) (L : List ℕ)
    → n ≤ max_pid
    → 1 ≤ c
    → c ≤ max_pid
    → rounds < ahead n c
    → pid_loop rounds L n ≡ pid_loop rounds (erase c L) n
unfolding pid_loop
pid_loop-erase zero n c L small pos le far = refl
pid_loop-erase (suc rounds) n c L small pos le far =
    let ne : advance_pid n ≢ c = ground arith in
    ground (
      arith,
      has-erase (advance_pid n) c L ne,
      pid_loop-erase rounds (advance_pid n) c L (ground arith) pos le (ground arith),
    )

pid_loop-erase_zero :
    (rounds n : ℕ) (L : List ℕ) → n ≤ max_pid → pid_loop rounds L n ≡ pid_loop rounds (erase 0 L) n
unfolding pid_loop
pid_loop-erase_zero zero n L small = refl
pid_loop-erase_zero (suc rounds) n L small =
    let ne : advance_pid n ≢ 0 = ground arith in
    ground (
      arith,
      has-erase (advance_pid n) 0 L ne,
      pid_loop-erase_zero rounds (advance_pid n) L (ground arith),
    )

pid_loop-total :
    (rounds n : ℕ) (L : List ℕ)
    → n ≤ max_pid
    → length L < rounds
    → rounds ≤ max_pid
    → (p : ℕ) × (pid_loop rounds L n ≡ some p)
unfolding pid_loop
pid_loop-total zero n L small room few = absurd (omega arith)
pid_loop-total (suc rounds) n L small room few =
    let m = advance_pid n in
    let range : (1 ≤ m) × (m ≤ max_pid) = ground arith in
    elim (Bool-cases (has m L)) [
      | inl used ↦
          let shorter = length-erase m L used in
          let (p, e) =
            pid_loop-total rounds m (erase m L) range.1 (omega (arith, shorter)) (omega arith) in
          (p, rw used (pid_loop-erase rounds m m L range.1 range.0 range.1 (ground arith) ∙ e))
      | inr unused ↦ (m, rw unused)
    ]

-- What the loop returns is unused and in range; it is 0 only if the first round steps to 0.
pid_loop-unused :
    (rounds n p : ℕ) (L : List ℕ)
    → n < u32_mod
    → pid_loop rounds L n ≡ some p
    → (p ∉ L) × (p ≤ max_pid) × ((1 ≤ p) ⊎ (n + 1 ≡ u32_mod))
unfolding pid_loop
pid_loop-unused zero n p L word e = cc
pid_loop-unused (suc rounds) n p L word e = elim (Bool-cases (has (advance_pid n) L)) [
  | inl used ↦
      let e' : pid_loop rounds L (advance_pid n) ≡ some p = rw used at e in
      let (a, b, c) = pid_loop-unused rounds (advance_pid n) p L (ground arith) e' in
      (a, b, ground (arith, c))
  | inr unused ↦
      let e' : some (advance_pid n) ≡ some p = rw unused at e in
      let at : advance_pid n ≡ p = cc in (subst (λ x. x ∉ L) at unused, ground arith, ground arith)
]

-- The first call of all starts from -1 and tries PID 0.
first_call :
    (rounds : ℕ) (L : List ℕ)
    → length L ≤ rounds
    → rounds ≤ max_pid
    → (p : ℕ) × (pid_loop (suc rounds) L (u32_mod - 1) ≡ some p)
unfolding pid_loop
first_call rounds L room few = elim (Bool-cases (has 0 L)) [
  | inl used ↦
      let shorter = length-erase 0 L used in
      let (p, e) = pid_loop-total rounds 0 (erase 0 L) (omega arith) (omega (arith, shorter)) few in
      (p, rw used (pid_loop-erase_zero rounds 0 L (omega arith) ∙ e))
  | inr unused ↦ (0, rw unused)
]

-- For a table of at most eight entries, and a `next_pid` in [0,MAX_PID] or still -1,
-- `get_next_PID` ends: it returns a PID that no running process has, at most MAX_PID, and 0 only
-- if `next_pid` was -1.
pub get_next_pid-unused :
    (table : List ProcessStruct) (next_pid : ℕ)
    → length table ≤ max_process
    → (next_pid ≤ max_pid) ⊎ (next_pid + 1 ≡ u32_mod)
    → (p : ℕ) × (get_next_pid table next_pid ≡ some p)
      × (p ∉ live_pids table)
      × (p ≤ max_pid)
      × ((1 ≤ p) ⊎ (next_pid + 1 ≡ u32_mod))
unfolding get_next_pid
get_next_pid-unused table n room range =
    let few = length-live_pids table in
    let (p, e) = total range in
    let (a, b, c) = pid_loop-unused 9 n p (live_pids table) (omega (arith, range)) e in
    (p, next_pid_loop-live 9 table n ∙ e, a, b, c)
  where
    total : (n ≤ max_pid) ⊎ (n + 1 ≡ u32_mod) → (p : ℕ) × (pid_loop 9 (live_pids table) n ≡ some p)
    total (inl small) =
        pid_loop-total 9 n (live_pids table) small (omega (arith, length-live_pids table))
          (omega arith)
    total (inr first) =
        let at : u32_mod - 1 ≡ n = omega arith in
        subst (λ m. (p : ℕ) × (pid_loop 9 (live_pids table) m ≡ some p)) at
          (first_call 8 (live_pids table) (omega (arith, length-live_pids table)) (omega arith))
