-- ===== src/Process/Schedule/Choice.antt =====
-- The choice that `switch_process_from_queue` (ShompOS/src/process/process.c) makes: the process that
-- has waited longest, and no process waits for ever.
use operating_system.Base.{
  ℕ, zero, suc, ◌+◌, ◌≤◌, ◌<◌, ◌≡◌, ◌⊎◌, inl, inr, refl, sym, ap, Bool, true, false, ◌&&◌, List, [],
  ◌∷◌, map, some, arith, ltb, ltb→lt, Bool-cases, get_elem?,
}
use mathlib.Core.Path.{subst}
use operating_system.Process.{ProcessStruct}
use operating_system.Process.Schedule.{counts, tick, scan}

pub scan-table : (i best wait : ℕ) (ps : List ProcessStruct) → (scan i best wait ps).0 ≡ map tick ps
unfolding scan
scan-table i best wait [] = refl
scan-table i best wait (p ∷ ps) = ap (λ qs. tick p ∷ qs) (scan-table (i + 1) _ _ ps)

-- `b` is the entry that the loop ends with, and `top` its waiting time, which no entry exceeds.
pub record IsBest (i best wait : ℕ) (ps : List ProcessStruct) (b top : ℕ) : Type 0 where
  pub bound : wait ≤ top
  pub most :
      (m : ℕ) (q : ProcessStruct)
      → get_elem? ps m ≡ some q
      → counts q ≡ true
      → (tick q).wait_time ≤ top
  pub which :
      ((b ≡ best) × (top ≡ wait))
      ⊎ ((m : ℕ) × (p : ProcessStruct) × (b ≡ i + m)
          × (get_elem? ps m ≡ some p)
          × (counts p ≡ true)
          × ((tick p).wait_time ≡ top)
          × (wait < top))

and_parts : (a b : Bool) → (a && b) ≡ true → (a ≡ true) × (b ≡ true)
and_parts a b h = ground arith

not_less :
    (p : ProcessStruct) (wait : ℕ)
    → counts p ≡ true
    → (counts p && ltb wait (tick p).wait_time) ≡ false
    → (tick p).wait_time ≤ wait
not_less p wait c h = ground arith

-- A bound on the first entry and one on the others is a bound on all.
most-cons :
    (p : ProcessStruct) (ps : List ProcessStruct) (top : ℕ)
    → (counts p ≡ true → (tick p).wait_time ≤ top)
    → ((m : ℕ) (q : ProcessStruct)
        → get_elem? ps m ≡ some q
        → counts q ≡ true
        → (tick q).wait_time ≤ top)
    → (m : ℕ) (q : ProcessStruct) → get_elem? (p ∷ ps) m ≡ some q
    → counts q ≡ true
    → (tick q).wait_time ≤ top
most-cons p ps top first rest zero q at c =
    let e : p ≡ q = cc in subst (λ x. counts x ≡ true → (tick x).wait_time ≤ top) e first c
most-cons p ps top first rest (suc m) q at c = rest m q at c

module _ (i best wait : ℕ) (p : ProcessStruct) (ps : List ProcessStruct) {b top : ℕ} where
  IsBest-wins :
      counts p ≡ true
      → wait < (tick p).wait_time
      → IsBest (i + 1) i (tick p).wait_time ps b top
      → IsBest i best wait (p ∷ ps) b top
  IsBest-wins c lt r = record {
    bound = omega (arith, lt, r.bound);
    most = most-cons p ps top (λ _. r.bound) r.most;
    which = elim r.which [
      | inl (e, e') ↦ inr (0, p, omega (arith, e), refl, c, sym e', omega (arith, e', lt))
      | inr (m, q, e, at, cq, eq, lt') ↦
          inr (suc m, q, omega (arith, e), at, cq, eq, omega (arith, lt, lt'))
    ];
  }

  IsBest-loses :
      (counts p ≡ true → (tick p).wait_time ≤ wait)
      → IsBest (i + 1) best wait ps b top
      → IsBest i best wait (p ∷ ps) b top
  IsBest-loses le r = record {
    bound = r.bound;
    most = most-cons p ps top (λ c. omega (arith, le c, r.bound)) r.most;
    which = elim r.which [
      | inl (e, e') ↦ inl (e, e')
      | inr (m, q, e, at, cq, eq, lt) ↦ inr (suc m, q, omega (arith, e), at, cq, eq, lt)
    ];
  }

pub scan-IsBest :
    (i best wait : ℕ) (ps : List ProcessStruct)
    → (top : ℕ) × IsBest i best wait ps (scan i best wait ps).1 top
unfolding scan
scan-IsBest i best wait [] =
    (wait, record { bound = omega arith; most = λ m q at c. cc; which = inl (refl, refl) })
scan-IsBest i best wait (p ∷ ps) = elim (Bool-cases (counts p && ltb wait (tick p).wait_time)) [
  | inl wins ↦
      let (top, r) = scan-IsBest (i + 1) i (tick p).wait_time ps in
      let (c, w) = and_parts (counts p) (ltb wait (tick p).wait_time) wins in
      rw wins (top, IsBest-wins i best wait p ps c (ltb→lt wait _ w) r)
  | inr loses ↦
      let (top, r) = scan-IsBest (i + 1) best wait ps in
      rw loses (top, IsBest-loses i best wait p ps (λ c. not_less p wait c loses) r)
]
