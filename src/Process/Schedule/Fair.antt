-- ===== src/Process/Schedule/Fair.antt =====
-- No process waits for ever: the rounds of `switch_process_from_queue`
-- (ShompOS/src/process/process.c) without other changes of the table.
use operating_system.Base.{
  ℕ, zero, suc, ◌+◌, ◌≤◌, ◌<◌, ◌≡◌, ◌≢◌, ◌⊎◌, inl, inr, refl, ◌∙◌, ap, true, false, ◌&&◌, List, [],
  ◌∷◌, map, some, arith, ◌==◌, leb, if◌then◌else◌, Bool-cases, length, get_elem?, ◌∈◌,
}
use operating_system.Heap.{u32_mod}
use operating_system.Process.{ProcessStruct}
use operating_system.Process.Schedule.{counts, tick, scan, reset_wait, choose}
use operating_system.Process.Schedule.Choice.{scan-table, scan-IsBest}

-- The waiting times are `n` rounds away from overflow.
abbrev pub IsSmall : ℕ → List ProcessStruct → Type 0
IsSmall n [] = Unit
IsSmall n (p ∷ ps) = (p.wait_time + n < u32_mod) × IsSmall n ps

-- The entries chosen in `n` rounds, with the backstop at entry `i`.
pub turns : ℕ → ℕ → ProcessStruct → List ProcessStruct → List ℕ
turns zero i backstop table = []
turns (suc n) i backstop table =
    let found = choose i backstop table in found.1 ∷ turns n i backstop found.0

-- how many processes have waited `w` rounds or longer
rivals : ℕ → List ProcessStruct → ℕ
rivals w [] = 0
rivals w (q ∷ qs) = (if counts q && leb w q.wait_time then 1 else 0) + rivals w qs

rivals-le : (w : ℕ) (ps : List ProcessStruct) → rivals w ps ≤ length ps
unfolding rivals
rivals-le w [] = omega arith
rivals-le w (q ∷ qs) = ground (arith, rivals-le w qs)

rivals-pos :
    (w j : ℕ) (p : ProcessStruct) (ps : List ProcessStruct)
    → get_elem? ps j ≡ some p
    → counts p ≡ true
    → w ≤ p.wait_time
    → 1 ≤ rivals w ps
unfolding rivals
rivals-pos w j p [] at c le = cc
rivals-pos w zero p (q ∷ qs) at c le = ground arith
rivals-pos w (suc j) p (q ∷ qs) at c le = ground (arith, rivals-pos w j p qs at c le)

rivals-tick :
    (w n : ℕ) (ps : List ProcessStruct)
    → IsSmall (suc n) ps
    → rivals (w + 1) (map tick ps) ≡ rivals w ps
unfolding rivals
rivals-tick w n [] s = refl
rivals-tick w n (q ∷ qs) s = ground (arith, rivals-tick w n qs s.1)

rivals-reset :
    (w m : ℕ) (q : ProcessStruct) (ps : List ProcessStruct)
    → 1 ≤ w
    → get_elem? ps m ≡ some q
    → counts q ≡ true
    → w ≤ q.wait_time
    → rivals w (reset_wait m ps) + 1 ≡ rivals w ps
unfolding rivals
rivals-reset w m q [] pos at c le = cc
rivals-reset w zero q (p ∷ ps) pos at c le = ground arith
rivals-reset w (suc m) q (p ∷ ps) pos at c le = ground (arith, rivals-reset w m q ps pos at c le)

get_elem?-reset :
    (m j : ℕ) (ps : List ProcessStruct) → m ≢ j → get_elem? (reset_wait m ps) j ≡ get_elem? ps j
get_elem?-reset m j [] ne = refl
get_elem?-reset zero zero (p ∷ ps) ne = absurd (ne refl)
get_elem?-reset zero (suc j) (p ∷ ps) ne = refl
get_elem?-reset (suc m) zero (p ∷ ps) ne = refl
get_elem?-reset (suc m) (suc j) (p ∷ ps) ne = get_elem?-reset m j ps (λ e. ne (ap suc e))

get_elem?-tick :
    (j : ℕ) (p : ProcessStruct) (ps : List ProcessStruct)
    → get_elem? ps j ≡ some p
    → get_elem? (map tick ps) j ≡ some (tick p)
get_elem?-tick j p [] at = cc
get_elem?-tick zero p (q ∷ qs) at = let e : q ≡ p = cc in ap (λ x. some (tick x)) e
get_elem?-tick (suc j) p (q ∷ qs) at = get_elem?-tick j p qs at

IsSmall-tick : (n : ℕ) (ps : List ProcessStruct) → IsSmall (suc n) ps → IsSmall n (map tick ps)
IsSmall-tick n [] s = s
IsSmall-tick n (q ∷ qs) s = (ground (arith, s.0), IsSmall-tick n qs s.1)

IsSmall-reset :
    (n m : ℕ) (ps : List ProcessStruct) → n < u32_mod → IsSmall n ps → IsSmall n (reset_wait m ps)
IsSmall-reset n m [] lt s = s
IsSmall-reset n zero (p ∷ ps) lt s = (omega arith, s.1)
IsSmall-reset n (suc m) (p ∷ ps) lt s = (s.0, IsSmall-reset n m ps lt s.1)

IsSmall-at :
    (n j : ℕ) (p : ProcessStruct) (ps : List ProcessStruct)
    → IsSmall n ps
    → get_elem? ps j ≡ some p
    → p.wait_time + n < u32_mod
IsSmall-at n j p [] s at = cc
IsSmall-at n zero p (q ∷ qs) s at = ground (arith, s.0)
IsSmall-at n (suc j) p (q ∷ qs) s at = IsSmall-at n j p qs s.1 at

length-reset : (m : ℕ) (ps : List ProcessStruct) → length (reset_wait m ps) ≡ length ps
length-reset m [] = refl
length-reset zero (p ∷ ps) = refl
length-reset (suc m) (p ∷ ps) = ap suc (length-reset m ps)

-- A round that does not choose entry `j` leaves it one rival fewer.
record Passed (w j n : ℕ) (table after : List ProcessStruct) : Type 0 where
  entry : ProcessStruct
  at : get_elem? after j ≡ some entry
  active : counts entry ≡ true
  wait : entry.wait_time ≡ w + 1
  fewer : rivals (w + 1) after + 1 ≡ rivals w table
  small : IsSmall n after

module _ (i : ℕ) (backstop : ProcessStruct) (fresh : backstop.wait_time ≡ 0) where
  round :
      (n j : ℕ) (p : ProcessStruct) (table : List ProcessStruct)
      → n < u32_mod
      → IsSmall (suc n) table
      → get_elem? table j ≡ some p
      → counts p ≡ true
      → ((choose i backstop table).1 ≡ j) ⊎ Passed p.wait_time j n table (choose i backstop table).0
  unfolding choose
  round n j p table lt small at c =
      let (top, best) = scan-IsBest 0 i backstop.wait_time table in
      let b = (scan 0 i backstop.wait_time table).1 in
      let waited : (tick p).wait_time ≡ p.wait_time + 1 =
        ground (arith, IsSmall-at (suc n) j p table small at) in
      let less = best.most j p at c in
      elim best.which [
        | inl (_, e) ↦ absurd (omega (arith, waited, less, e, fresh))
        | inr (m, q, e, atq, cq, eq, _) ↦ elim (Bool-cases (m == j)) [
          | inl same ↦ inl (ground (arith, e))
          | inr other ↦
              let e' : b ≡ m = omega (arith, e) in
              inr (
                rw (scan-table 0 i backstop.wait_time table, e')
                  (record {
                    entry = tick p;
                    at =
                        get_elem?-reset m j (map tick table) (ground arith)
                        ∙ get_elem?-tick j p table at;
                    active = ground arith;
                    wait = waited;
                    fewer =
                        rivals-reset (p.wait_time + 1) m (tick q) (map tick table) (omega arith)
                          (get_elem?-tick m q table atq) (ground arith)
                          (omega (arith, waited, less, eq))
                        ∙ rivals-tick p.wait_time n table small;
                    small = IsSmall-reset n m (map tick table) lt (IsSmall-tick n table small);
                  }))
        ]
      ]

  turn_within :
      (n j : ℕ) (p : ProcessStruct) (table : List ProcessStruct)
      → n < u32_mod
      → IsSmall n table
      → get_elem? table j ≡ some p
      → counts p ≡ true
      → rivals p.wait_time table ≤ n
      → j ∈ turns n i backstop table
  unfolding turns
  turn_within zero j p table lt small at c few =
      absurd (omega (arith, few, rivals-pos p.wait_time j p table at c (omega arith)))
  turn_within (suc n) j p table lt small at c few =
      elim (round n j p table (omega arith) small at c) [
        | inl chosen ↦ ground (arith, chosen)
        | inr later ↦
            let ih =
              turn_within n j later.entry (choose i backstop table).0 (omega arith) later.small
                later.at later.active (rw later.wait (omega arith)) in
            ground (arith, ih)
      ]

-- Every running process other than the backstop is chosen at least once in as many rounds of the
-- queue as the table has entries, where the backstop has not waited and no waiting time reaches 2
-- ^ 32 in these rounds.
pub turns-fair :
    (i j : ℕ) (backstop p : ProcessStruct) (table : List ProcessStruct)
    → backstop.wait_time ≡ 0
    → length table < u32_mod
    → IsSmall (length table) table
    → get_elem? table j ≡ some p
    → counts p ≡ true
    → j ∈ turns (length table) i backstop table
turns-fair i j backstop p table fresh lt small at c =
    turn_within i backstop fresh (length table) j p table lt small at c
      (rivals-le p.wait_time table)

-- Where the backstop has not waited and no waiting time is 2 ^ 32 - 1, one round gives each
-- running process other than the backstop one round of waiting more, and chooses one of them that
-- has waited longest, whose time starts anew; it chooses the backstop only where no other runs.
pub choose-longest :
    (i : ℕ) (backstop : ProcessStruct) (table : List ProcessStruct)
    → backstop.wait_time ≡ 0
    → IsSmall 1 table
    → let found = choose i backstop table in
      (found.0 ≡ reset_wait found.1 (map tick table))
      × (((found.1 ≡ i)
            × ((j : ℕ) (q : ProcessStruct) → get_elem? table j ≡ some q → counts q ≡ false))
          ⊎ ((p : ProcessStruct) × (get_elem? table found.1 ≡ some p)
              × (counts p ≡ true)
              × ((j : ℕ) (q : ProcessStruct)
                  → get_elem? table j ≡ some q
                  → counts q ≡ true
                  → q.wait_time ≤ p.wait_time)))
unfolding choose
choose-longest i backstop table fresh small =
    let (top, best) = scan-IsBest 0 i backstop.wait_time table in
    (
      ap (reset_wait (scan 0 i backstop.wait_time table).1)
          (scan-table 0 i backstop.wait_time table),
      elim best.which [
        | inl (e, e') ↦ inl (
          e,
          λ j q at. idle q (λ c. omega (arith, best.most j q at c, waited j q at c, e', fresh)),
        )
        | inr (m, p, e, at, c, eq, _) ↦
            let e' : (scan 0 i backstop.wait_time table).1 ≡ m = omega (arith, e) in
            inr (
              p,
              rw e' at,
              c,
              λ j q atq cq.
                  omega (arith, best.most j q atq cq, waited j q atq cq, waited m p at c, eq),
            )
      ],
    )
  where
    idle : (q : ProcessStruct) → (counts q ≡ true → ⊥) → counts q ≡ false
    idle q h = elim (Bool-cases (counts q)) [ inl c ↦ absurd (h c) | inr c ↦ c ]

    waited :
        (j : ℕ) (q : ProcessStruct)
        → get_elem? table j ≡ some q
        → counts q ≡ true
        → (tick q).wait_time ≡ q.wait_time + 1
    waited j q at c = ground (arith, IsSmall-at 1 j q table small at)
