-- ===== src/Process/Schedule/Switch.antt =====
-- `switch_process` of ShompOS/src/process/process.c: at most one process is ACTIVE, the one that
-- `active_pid` names.
use operating_system.Base.{
  ℕ, zero, suc, ◌≡◌, ◌≢◌, ◌⊎◌, inl, inr, refl, sym, ◌∙◌, ap, Bool, true, false, not, ◌&&◌, List, [],
  ◌∷◌, Option, none, some, arith, ◌==◌, ==_iff, Bool-cases, Option-cases, get_elem?, ◌∈◌, Distinct,
}
use mathlib.Core.Path.{subst}
use operating_system.Process.{
  Kernel, ProcessStruct, Status, stopped, active, waiting, spawned, is_stopped, is_active, is_some,
  get_process,
}
use operating_system.Process.Table.{
  live_pids, live_mem, get_process-live, IsFirst, unique, get_process-IsFirst, live_entry,
}
use operating_system.Process.Schedule.{
  Switched, no_switch, set_status, has_status, leave, switch_between, switch_found, switch_process,
}

-- Only the process that `active_pid` names is ACTIVE.
abbrev pub OneActive : Kernel → Type 0
OneActive k =
    (j : ℕ) (q : ProcessStruct)
    → get_elem? k.proc_table j ≡ some q
    → is_active q.status ≡ true
    → q.pid ≡ k.active_pid

get_elem?-set_status :
    (i j : ℕ) (s : Status) (table : List ProcessStruct) (q : ProcessStruct)
    → get_elem? (set_status i s table) j ≡ some q
    → ((i ≡ j) × (q.status ≡ s)) ⊎ ((i ≢ j) × (get_elem? table j ≡ some q))
get_elem?-set_status i j s [] q at = cc
get_elem?-set_status zero zero s (p ∷ ps) q at = inl (refl, ground arith)
get_elem?-set_status zero (suc j) s (p ∷ ps) q at = inr (omega arith, at)
get_elem?-set_status (suc i) zero s (p ∷ ps) q at = inr (omega arith, at)
get_elem?-set_status (suc i) (suc j) s (p ∷ ps) q at = elim (get_elem?-set_status i j s ps q at) [
  | inl (e, e') ↦ inl (omega arith, e')
  | inr (ne, at') ↦ inr (omega arith, at')
]

not_active : (p : ProcessStruct) → is_active p.status ≡ true → is_stopped p.status ≡ false
not_active p e = go p.status e
  where
    go : (s : Status) → is_active s ≡ true → is_stopped s ≡ false
    go stopped e = cc
    go active e = refl
    go waiting e = refl
    go spawned e = refl

has_status-at :
    (test : Status → Bool) (i : ℕ) (p : ProcessStruct) (table : List ProcessStruct)
    → get_elem? table i ≡ some p
    → has_status test i table ≡ test p.status
has_status-at test i p [] at = cc
has_status-at test zero p (q ∷ qs) at = let e : q ≡ p = cc in ap (λ x. test x.status) e
has_status-at test (suc i) p (q ∷ qs) at = has_status-at test i p qs at

-- An ACTIVE entry cannot be the only one that has left.
left :
    (table : List ProcessStruct) (old j : ℕ) (q : ProcessStruct)
    → is_active q.status ≡ true
    → (get_elem? table j ≡ some q → old ≡ j)
    → get_elem? (leave (some old) table) j ≡ some q
    → ⊥
left table old j q busy here at = elim (Bool-cases (has_status is_active old table)) [
  | inl was ↦
      let at' : get_elem? (set_status old waiting table) j ≡ some q = rw was at at in
      elim (get_elem?-set_status old j waiting table q at') [
        | inl (_, e) ↦ cc (ap is_active e)
        | inr (ne, at'') ↦ ne (here at'')
      ]
  | inr was ↦
      let at' : get_elem? table j ≡ some q = rw was at at in
      let now = has_status-at is_active j q table at' in
      cc (ap (λ i. has_status is_active i table) (here at'))
]

-- Once the old process has left, nothing is ACTIVE.
leave-idle :
    (k : Kernel)
    → Distinct (live_pids k.proc_table)
    → OneActive k
    → (j : ℕ) (q : ProcessStruct)
    → get_elem? (leave (get_process k.active_pid k.proc_table) k.proc_table) j ≡ some q
    → is_active q.status ≡ false
leave-idle k d one j q at = elim (Bool-cases (is_active q.status)) [
  | inr idle ↦ idle
  | inl busy ↦ elim (Option-cases (get_process k.active_pid k.proc_table)) [
    | inl gone ↦
        let at' : get_elem? k.proc_table j ≡ some q = rw gone at at in
        let m = live_mem k.proc_table j q at' (not_active q busy) in
        let m' : k.active_pid ∈ live_pids k.proc_table =
          subst (λ a. a ∈ live_pids k.proc_table) (one j q at' busy) m in
        absurd (cc (ap is_some gone, get_process-live k.active_pid k.proc_table, m'))
    | inr (old, found) ↦
        let first = get_process-IsFirst k.active_pid k.proc_table old found in
        let (on, named) = live_entry first.entry k.active_pid first.holds in
        let at' : get_elem? (leave (some old) k.proc_table) j ≡ some q = rw found at at in
        let here = λ (at'' : get_elem? k.proc_table j ≡ some q).
          unique k.proc_table old j first.entry q d first.at on at'' (not_active q busy)
            (named ∙ sym (one j q at'' busy)) in
        absurd (left k.proc_table old j q busy here at')
  ]
]

pid-set_status :
    (i j : ℕ) (s : Status) (table : List ProcessStruct) (q : ProcessStruct)
    → get_elem? (set_status i s table) j ≡ some q
    → (p : ProcessStruct) × (get_elem? table j ≡ some p) × (p.pid ≡ q.pid)
pid-set_status i j s [] q at = cc
pid-set_status zero zero s (p ∷ ps) q at = (p, refl, ground arith)
pid-set_status zero (suc j) s (p ∷ ps) q at = (q, at, refl)
pid-set_status (suc i) zero s (p ∷ ps) q at = (q, at, refl)
pid-set_status (suc i) (suc j) s (p ∷ ps) q at = pid-set_status i j s ps q at

pid-leave :
    (old : Option ℕ) (j : ℕ) (table : List ProcessStruct) (q : ProcessStruct)
    → get_elem? (leave old table) j ≡ some q
    → (p : ProcessStruct) × (get_elem? table j ≡ some p) × (p.pid ≡ q.pid)
pid-leave none j table q at = (q, at, refl)
pid-leave (some old) j table q at = elim (Bool-cases (has_status is_active old table)) [
  | inl was ↦ pid-set_status old j waiting table q (rw was at at)
  | inr was ↦ (q, rw was at at, refl)
]

between-OneActive :
    (pid new : ℕ) (old : Option ℕ) (k : Kernel)
    → ((j : ℕ) (q : ProcessStruct)
        → get_elem? (leave old k.proc_table) j ≡ some q
        → is_active q.status ≡ false)
    → IsFirst (λ p. (p.pid == pid) && not (is_stopped p.status)) k.proc_table new
    → OneActive (switch_between pid old new k).kernel
unfolding switch_between
between-OneActive pid new old k idle first j q at busy =
    elim (get_elem?-set_status new j active (leave old k.proc_table) q at) [
      | inl (e, _) ↦
          let (p, atp, same) = pid-set_status new j active (leave old k.proc_table) q at in
          let (r, atr, same') = pid-leave old j k.proc_table p atp in
          let (_, named) = live_entry first.entry pid first.holds in
          let at_new : get_elem? k.proc_table new ≡ some r =
            subst (λ i. get_elem? k.proc_table i ≡ some r) (sym e) atr in
          let entry : first.entry ≡ r = cc (first.at) in
          sym same ∙ sym same' ∙ sym (ap (λ (x : ProcessStruct). x.pid) entry) ∙ named
      | inr (_, at') ↦ absurd (cc (idle j q at'))
    ]

-- In a table where no two running processes share a PID and at most the one of `active_pid` is
-- ACTIVE, `switch_process` to a running process returns, `active_pid` is then the PID asked for,
-- and still no other process is ACTIVE.
pub switch_process-OneActive :
    (pid : ℕ) (k : Kernel)
    → Distinct (live_pids k.proc_table)
    → OneActive k
    → pid ∈ live_pids k.proc_table
    → (s : Switched) × (switch_process pid k ≡ some s)
      × (s.kernel.active_pid ≡ pid)
      × OneActive s.kernel
unfolding switch_process switch_found switch_between
switch_process-OneActive pid k d one m = elim (Option-cases (get_process pid k.proc_table)) [
  | inl gone ↦ absurd (cc (ap is_some gone, get_process-live pid k.proc_table, m))
  | inr (new, found) ↦
      let first = get_process-IsFirst pid k.proc_table new found in
      let (on, named) = live_entry first.entry pid first.holds in
      elim (Option-cases (get_process k.active_pid k.proc_table)) [
        | inl gone ↦
            let idle = λ (j : ℕ) (q : ProcessStruct) (at : get_elem? k.proc_table j ≡ some q).
              leave-idle k d one j q (rw gone at) in
            (
              switch_between pid none new k,
              rw (found, gone),
              refl,
              between-OneActive pid new none k idle first,
            )
        | inr (old, here) ↦ elim (Bool-cases (old == new)) [
          | inl same ↦
              let active_first = get_process-IsFirst k.active_pid k.proc_table old here in
              let (_, active_named) =
                live_entry active_first.entry k.active_pid active_first.holds in
              let e : old ≡ new = (==_iff old new).0 same in
              let at_old : get_elem? k.proc_table old ≡ some first.entry =
                subst (λ i. get_elem? k.proc_table i ≡ some first.entry) (sym e) first.at in
              let entry : active_first.entry ≡ first.entry = cc (active_first.at) in
              (
                no_switch k,
                rw (found, here, same),
                sym active_named ∙ ap (λ (x : ProcessStruct). x.pid) entry ∙ named,
                one,
              )
          | inr other ↦
              let idle =
                λ (j : ℕ) (q : ProcessStruct)
                    (at : get_elem? (leave (some old) k.proc_table) j ≡ some q).
                  leave-idle k d one j q (rw here at) in
              (
                switch_between pid (some old) new k,
                rw (found, here, other),
                refl,
                between-OneActive pid new (some old) k idle first,
              )
        ]
      ]
]
