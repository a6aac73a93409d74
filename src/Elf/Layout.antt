-- ===== src/Elf/Layout.antt =====
-- The space that the first loop of `init_elf` in ShompOS/src/elf/elf.c computes for the segments.
use operating_system.Base.{
  ◌+◌, ◌-◌, ◌%◌, ◌≤◌, ◌<◌, ◌≡◌, inl, inr, false, List, [], ◌∷◌, arith, ltb, if◌then◌else◌,
  Bool-cases,
}
use operating_system.Heap.{u32_mod}
use operating_system.Elf.{ProgramHeader, Span, skips, lower, raise, span_loop, no_span, span_of}

abbrev pub All {ℓ} : {A : Type ℓ} → (A → Type 0) → List A → Type 0
All P [] = Unit
All P (x ∷ xs) = P x × All P xs

-- A segment does not reach the end of the address space.
abbrev pub IsInside : ProgramHeader → Type 0
IsInside h = h.p_vaddr + h.p_memsz < u32_mod

-- A segment that is loaded, and is not empty, lies in the span.
abbrev pub IsCovered : Span → ProgramHeader → Type 0
IsCovered v h =
    skips h ≡ false
    → 0 < h.p_memsz
    → (v.min_vaddr ≤ h.p_vaddr) × (h.p_vaddr + h.p_memsz ≤ v.min_vaddr + v.size)

-- The span `w` reaches as far as `v` on both sides, unless `v` is empty.
record Extends (v w : Span) : Type 0 where
  bound : w.min_vaddr + w.size < u32_mod
  low : w.min_vaddr ≤ v.min_vaddr
  high : 0 < v.size → v.min_vaddr + v.size ≤ w.min_vaddr + w.size
  filled : 0 < v.size → 0 < w.size

lower-Extends :
    (h : ProgramHeader) (v : Span)
    → IsInside h
    → v.min_vaddr + v.size < u32_mod
    → Extends v (lower h v) × ((lower h v).min_vaddr ≤ h.p_vaddr)
lower-Extends h v inside bound = elim (Bool-cases (ltb h.p_vaddr v.min_vaddr)) [
  | inl below ↦ elim (Bool-cases (ltb 0 v.size)) [
    | inl some_size ↦
        let less : h.p_vaddr < v.min_vaddr = ground arith in
        let wide : (v.size + (v.min_vaddr - h.p_vaddr)) % u32_mod
            ≡ v.size + (v.min_vaddr - h.p_vaddr) =
          omega arith in
        rw (below, some_size, wide)
          (
            record {
              bound = omega arith;
              low = omega arith;
              high = λ pos. omega arith;
              filled = λ pos. omega arith;
            },
            omega arith,
          )
    | inr none_yet ↦
        let less : h.p_vaddr < v.min_vaddr = ground arith in
        let null : v.size ≡ 0 = ground arith in
        rw (below, none_yet)
          (
            record {
              bound = omega arith;
              low = omega arith;
              high = λ pos. absurd (omega (arith, null, pos));
              filled = λ pos. absurd (omega (arith, null, pos));
            },
            omega arith,
          )
  ]
  | inr above ↦
      let le : v.min_vaddr ≤ h.p_vaddr = ground arith in
      rw above (
        record { bound = bound; low = omega arith; high = λ pos. omega arith; filled = λ pos. pos },
        le,
      )
]

raise-Extends :
    (h : ProgramHeader) (v : Span)
    → IsInside h
    → v.min_vaddr + v.size < u32_mod
    → v.min_vaddr ≤ h.p_vaddr
    → Extends v (raise h v) × (h.p_vaddr + h.p_memsz ≤ (raise h v).min_vaddr + (raise h v).size)
raise-Extends h v inside bound le =
    let e : (v.min_vaddr + v.size) % u32_mod ≡ v.min_vaddr + v.size = omega arith in
    let e' : (h.p_vaddr + h.p_memsz) % u32_mod ≡ h.p_vaddr + h.p_memsz = omega arith in
    elim (Bool-cases (ltb ((v.min_vaddr + v.size) % u32_mod) ((h.p_vaddr + h.p_memsz) % u32_mod))) [
      | inl more ↦
          let lt : v.min_vaddr + v.size < h.p_vaddr + h.p_memsz = ground (arith, e, e') in
          let size = ((h.p_vaddr + h.p_memsz) % u32_mod + u32_mod - v.min_vaddr) % u32_mod in
          let end : v.min_vaddr + size ≡ h.p_vaddr + h.p_memsz = omega (arith, e') in
          rw more (
            record {
              bound = omega (arith, end);
              low = omega arith;
              high = λ pos. omega (arith, end);
              filled = λ pos. omega (arith, end);
            },
            omega (arith, end),
          )
      | inr enough ↦ rw enough (
        record { bound = bound; low = omega arith; high = λ pos. omega arith; filled = λ pos. pos },
        ground (arith, e, e'),
      )
    ]

Extends-trans : {u v w : Span} → Extends u v → Extends v w → Extends u w
Extends-trans p q = record {
  bound = q.bound;
  low = omega (arith, p.low, q.low);
  high = λ pos. omega (arith, p.high pos, q.high (p.filled pos));
  filled = λ pos. q.filled (p.filled pos);
}

step : ProgramHeader → Span → Span
step h v = if skips h then v else raise h (lower h v)

step-Extends :
    (h : ProgramHeader) (v : Span)
    → IsInside h
    → v.min_vaddr + v.size < u32_mod
    → Extends v (step h v)
      × (skips h ≡ false
          → 0 < h.p_memsz
          → ((step h v).min_vaddr ≤ h.p_vaddr)
            × (h.p_vaddr + h.p_memsz ≤ (step h v).min_vaddr + (step h v).size))
unfolding step
step-Extends h v inside bound = elim (Bool-cases (skips h)) [
  | inl skipped ↦ rw skipped (
    record { bound = bound; low = omega arith; high = λ pos. omega arith; filled = λ pos. pos },
    λ e. cc,
  )
  | inr loaded ↦
      let (p, le) = lower-Extends h v inside bound in
      let (q, high) = raise-Extends h (lower h v) inside p.bound le in
      rw loaded (Extends-trans p q, λ e pos. (omega (arith, q.low, le), high))
]

-- What was covered, by a span that is not empty, stays so.
span_loop-Extends :
    (hs : List ProgramHeader) (v : Span)
    → All IsInside hs
    → v.min_vaddr + v.size < u32_mod
    → Extends v (span_loop hs v)
unfolding span_loop step
span_loop-Extends [] v inside bound = record {
  bound = bound;
  low = omega arith;
  high = λ pos. omega arith;
  filled = λ pos. pos;
}
span_loop-Extends (h ∷ hs) v (first, rest) bound =
    let (p, _) = step-Extends h v first bound in
    Extends-trans p (span_loop-Extends hs (step h v) rest p.bound)

span_loop-IsCovered :
    (hs : List ProgramHeader) (v : Span)
    → All IsInside hs
    → v.min_vaddr + v.size < u32_mod
    → All (IsCovered (span_loop hs v)) hs
unfolding span_loop step
span_loop-IsCovered [] v inside bound = tt
span_loop-IsCovered (h ∷ hs) v (first, rest) bound =
    let (p, covered) = step-Extends h v first bound in
    let q = span_loop-Extends hs (step h v) rest p.bound in
    (
      λ loaded pos.
          let (low, high) = covered loaded pos in omega (arith, q.low, q.high, low, high, pos),
      span_loop-IsCovered hs (step h v) rest p.bound,
    )

-- Where no segment reaches the end of the address space, the space that `init_elf` computes
-- covers, from its lowest address on, every segment that is loaded and not empty, in whatever
-- order the headers come, and does not reach the end of the address space either.
pub span_of-IsCovered :
    (hs : List ProgramHeader)
    → All IsInside hs
    → All (IsCovered (span_of hs)) hs × ((span_of hs).min_vaddr + (span_of hs).size < u32_mod)
unfolding span_of
span_of-IsCovered hs inside = (
  span_loop-IsCovered hs no_span inside (omega arith),
  (span_loop-Extends hs no_span inside (omega arith)).bound,
)
