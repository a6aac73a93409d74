-- ===== src/Process/Table.antt =====
-- The searches of the process table in ShompOS/src/process/process.c, and the PIDs in use.
use operating_system.Base.{
  ℕ, zero, suc, ◌+◌, ◌≤◌, ◌<◌, ◌≡◌, inl, inr, refl, sym, ap, Bool, true, false, not, ◌&&◌, ◌||◌,
  List, [], ◌∷◌, none, some, arith, ◌==◌, if◌then◌else◌, Bool-cases, get_elem?, set, length, has,
  ◌∈◌, ◌∉◌, Distinct, ne_of_mem, ==_iff,
}
use mathlib.Core.Path.{subst}
use operating_system.Process.{
  ProcessStruct, is_stopped, is_some, find_from, get_process, reserve_proc_table_slot,
}

-- `j` is the first index at which the test holds.
pub record IsFirst (test : ProcessStruct → Bool) (table : List ProcessStruct) (j : ℕ) : Type 0 where
  pub entry : ProcessStruct
  pub at : get_elem? table j ≡ some entry
  pub holds : test entry ≡ true
  pub before : (m : ℕ) (q : ProcessStruct) → m < j → get_elem? table m ≡ some q → test q ≡ false

module _ (test : ProcessStruct → Bool) where
  find_from-shift :
      (i : ℕ) (ps : List ProcessStruct) (j : ℕ)
      → find_from test i ps ≡ some j
      → (m : ℕ) × (j ≡ i + m) × IsFirst test ps m
  unfolding find_from
  find_from-shift i [] j e = cc
  find_from-shift i (p ∷ ps) j e = elim (Bool-cases (test p)) [
    | inl yes_p ↦ (
      0,
      ground arith,
      record { entry = p; at = refl; holds = yes_p; before = λ m q lt at. elim lt [ ] },
    )
    | inr no_p ↦
        let e' : find_from test (i + 1) ps ≡ some j = rw no_p at e in
        let (m, at, first) = find_from-shift (i + 1) ps j e' in
        (
          suc m,
          omega (arith, at),
          record {
            entry = first.entry;
            at = first.at;
            holds = first.holds;
            before = λ w q lt at. skip w q lt at no_p first;
          },
        )
  ]
    where
      skip :
          (w : ℕ) (q : ProcessStruct) {m : ℕ}
          → w < suc m
          → get_elem? (p ∷ ps) w ≡ some q
          → test p ≡ false
          → IsFirst test ps m
          → test q ≡ false
      skip zero q lt at no_p first = ground arith
      skip (suc w) q lt at no_p first = first.before w q (omega arith) at

  pub find_from-some :
      (ps : List ProcessStruct) (j : ℕ) → find_from test 0 ps ≡ some j → IsFirst test ps j
  find_from-some ps j e =
      let (m, at, first) = find_from-shift 0 ps j e in
      let at' : j ≡ m = omega (arith, at) in rw at' first

  pub find_from-none :
      (i : ℕ) (ps : List ProcessStruct)
      → find_from test i ps ≡ none
      → (m : ℕ) (q : ProcessStruct) → get_elem? ps m ≡ some q
      → test q ≡ false
  unfolding find_from
  find_from-none i [] e m q at = cc
  find_from-none i (p ∷ ps) e zero q at = ground arith
  find_from-none i (p ∷ ps) e (suc m) q at = find_from-none (i + 1) ps (ground arith) m q at

-- the PIDs of the processes that are not stopped
unfoldable pub live_pids : List ProcessStruct → List ℕ
live_pids [] = []
live_pids (p ∷ ps) = if is_stopped p.status then live_pids ps else p.pid ∷ live_pids ps

pub length-live_pids : (table : List ProcessStruct) → length (live_pids table) ≤ length table
unfolding live_pids
length-live_pids [] = omega arith
length-live_pids (p ∷ ps) = ground (arith, length-live_pids ps)

-- `get_process` finds a process exactly for the PIDs in use.
get_process-from :
    (pid i : ℕ) (table : List ProcessStruct)
    → is_some (find_from (λ p. (p.pid == pid) && not (is_stopped p.status)) i table)
      ≡ has pid (live_pids table)
unfolding find_from live_pids
get_process-from pid i [] = refl
get_process-from pid i (p ∷ ps) = ground (arith, get_process-from pid (i + 1) ps)

pub get_process-live :
    (pid : ℕ) (table : List ProcessStruct)
    → is_some (get_process pid table) ≡ has pid (live_pids table)
unfolding get_process
get_process-live pid table = get_process-from pid 0 table

-- Starting a process in a stopped slot adds its PID to those in use.
pub live_pids-set :
    (table : List ProcessStruct) (i : ℕ) (p old : ProcessStruct)
    → get_elem? table i ≡ some old
    → is_stopped old.status ≡ true
    → is_stopped p.status ≡ false
    → (a : ℕ) → has a (live_pids (set table i p)) ≡ ((a == p.pid) || has a (live_pids table))
unfolding live_pids
live_pids-set [] i p old at dead new a = cc
live_pids-set (q ∷ qs) zero p old at dead new a = ground arith
live_pids-set (q ∷ qs) (suc i) p old at dead new a =
    ground (arith, live_pids-set qs i p old at dead new a)

pub Distinct-set :
    (table : List ProcessStruct) (i : ℕ) (p old : ProcessStruct)
    → get_elem? table i ≡ some old
    → is_stopped old.status ≡ true
    → is_stopped p.status ≡ false
    → p.pid ∉ live_pids table
    → Distinct (live_pids table)
    → Distinct (live_pids (set table i p))
unfolding live_pids
Distinct-set [] i p old at dead new out d = cc
Distinct-set (q ∷ qs) zero p old at dead new out d =
    let off : is_stopped q.status ≡ true = ground arith in
    let d' : Distinct (live_pids qs) = rw off at d in
    let out' : p.pid ∉ live_pids qs = ground arith in rw new (out', d')
Distinct-set (q ∷ qs) (suc i) p old at dead new out d = elim (Bool-cases (is_stopped q.status)) [
  | inl off ↦
      let d' : Distinct (live_pids qs) = rw off at d in
      rw off (Distinct-set qs i p old at dead new (ground arith) d')
  | inr on ↦
      let d' : Distinct (q.pid ∷ live_pids qs) = rw on at d in
      rw on (
        ground (arith, live_pids-set qs i p old at dead new q.pid, d'.0),
        Distinct-set qs i p old at dead new (ground arith) d'.1,
      )
]

pub live_mem :
    (table : List ProcessStruct) (i : ℕ) (q : ProcessStruct)
    → get_elem? table i ≡ some q
    → is_stopped q.status ≡ false
    → q.pid ∈ live_pids table
unfolding live_pids
live_mem [] i q at on = cc
live_mem (p ∷ ps) zero q at on = ground arith
live_mem (p ∷ ps) (suc i) q at on = ground (arith, live_mem ps i q at on)

-- Stopping a process takes its PID out of those in use, and adds none.
pub live_pids-stop :
    (table : List ProcessStruct) (i : ℕ) (p old : ProcessStruct)
    → get_elem? table i ≡ some old
    → is_stopped old.status ≡ false
    → is_stopped p.status ≡ true
    → Distinct (live_pids table)
    → (a : ℕ) → has a (live_pids (set table i p)) ≡ (not (a == old.pid) && has a (live_pids table))
unfolding live_pids
live_pids-stop [] i p old at on new d a = cc
live_pids-stop (q ∷ qs) zero p old at on new d a =
    let live : is_stopped q.status ≡ false = ground arith in
    let d' : Distinct (q.pid ∷ live_pids qs) = rw live at d in
    rw (new, live)
      (elim (Bool-cases (a == q.pid)) [
        | inl same ↦
            let gone : a ∉ live_pids qs =
              subst (λ x. x ∉ live_pids qs) (sym ((==_iff a q.pid).0 same)) d'.0 in
            ground arith
        | inr other ↦ ground arith
      ])
live_pids-stop (q ∷ qs) (suc i) p old at on new d a = elim (Bool-cases (is_stopped q.status)) [
  | inl off ↦
      let d' : Distinct (live_pids qs) = rw off at d in
      rw off (live_pids-stop qs i p old at on new d' a)
  | inr live ↦
      let d' : Distinct (q.pid ∷ live_pids qs) = rw live at d in
      let ne = ne_of_mem (live_pids qs) (live_mem qs i old at on) d'.0 in
      rw live (ground (arith, live_pids-stop qs i p old at on new d'.1 a, ne))
]

full-none :
    (i : ℕ) (table : List ProcessStruct)
    → length (live_pids table) ≡ length table
    → find_from (λ p. is_stopped p.status) i table ≡ none
unfolding find_from live_pids
full-none i [] e = refl
full-none i (p ∷ ps) e = ground (arith, full-none (i + 1) ps, length-live_pids ps)

pub reserve-full :
    (table : List ProcessStruct)
    → length (live_pids table) ≡ length table
    → reserve_proc_table_slot table ≡ none
unfolding reserve_proc_table_slot
reserve-full table e = full-none 0 table e

not_mem-stop :
    (table : List ProcessStruct) (i : ℕ) (p : ProcessStruct) (a : ℕ)
    → is_stopped p.status ≡ true
    → a ∉ live_pids table
    → a ∉ live_pids (set table i p)
unfolding live_pids
not_mem-stop [] i p a new out = refl
not_mem-stop (q ∷ qs) zero p a new out = ground arith
not_mem-stop (q ∷ qs) (suc i) p a new out = ground (arith, not_mem-stop qs i p a new)

pub Distinct-stop :
    (table : List ProcessStruct) (i : ℕ) (p : ProcessStruct)
    → is_stopped p.status ≡ true
    → Distinct (live_pids table)
    → Distinct (live_pids (set table i p))
unfolding live_pids
Distinct-stop [] i p new d = d
Distinct-stop (q ∷ qs) zero p new d = elim (Bool-cases (is_stopped q.status)) [
  | inl off ↦ rw new (rw off at d)
  | inr on ↦ let d' : Distinct (q.pid ∷ live_pids qs) = rw on at d in rw new d'.1
]
Distinct-stop (q ∷ qs) (suc i) p new d = elim (Bool-cases (is_stopped q.status)) [
  | inl off ↦ rw off (Distinct-stop qs i p new (rw off at d))
  | inr on ↦
      let d' : Distinct (q.pid ∷ live_pids qs) = rw on at d in
      rw on (not_mem-stop qs i p q.pid new d'.0, Distinct-stop qs i p new d'.1)
]

pub get_process-IsFirst :
    (pid : ℕ) (table : List ProcessStruct) (i : ℕ)
    → get_process pid table ≡ some i
    → IsFirst (λ p. (p.pid == pid) && not (is_stopped p.status)) table i
unfolding get_process
get_process-IsFirst pid table i e = find_from-some _ table i e

pub live_entry :
    (p : ProcessStruct) (pid : ℕ)
    → ((p.pid == pid) && not (is_stopped p.status)) ≡ true
    → (is_stopped p.status ≡ false) × (p.pid ≡ pid)
live_entry p pid h = ground arith

-- Of two running entries with one PID there is only one.
pub unique :
    (table : List ProcessStruct) (i j : ℕ) (p q : ProcessStruct)
    → Distinct (live_pids table)
    → get_elem? table i ≡ some p
    → is_stopped p.status ≡ false
    → get_elem? table j ≡ some q
    → is_stopped q.status ≡ false
    → p.pid ≡ q.pid
    → i ≡ j
unfolding live_pids
unique [] i j p q d at on at' on' e = cc
unique (r ∷ rs) zero zero p q d at on at' on' e = refl
unique (r ∷ rs) zero (suc j) p q d at on at' on' e =
    let live : is_stopped r.status ≡ false = ground arith in
    let d' : Distinct (r.pid ∷ live_pids rs) = rw live at d in
    let same : q.pid ≡ r.pid = ground arith in
    absurd (ne_of_mem (live_pids rs) (live_mem rs j q at' on') d'.0 same)
unique (r ∷ rs) (suc i) zero p q d at on at' on' e =
    let live : is_stopped r.status ≡ false = ground arith in
    let d' : Distinct (r.pid ∷ live_pids rs) = rw live at d in
    let same : p.pid ≡ r.pid = ground arith in
    absurd (ne_of_mem (live_pids rs) (live_mem rs i p at on) d'.0 same)
unique (r ∷ rs) (suc i) (suc j) p q d at on at' on' e = ap suc (
    unique rs i j p q
      (elim (Bool-cases (is_stopped r.status)) [
        | inl off ↦ rw off at d
        | inr live ↦ let d' : Distinct (r.pid ∷ live_pids rs) = rw live at d in d'.1
      ])
      at on at' on' e)
