-- ===== src/Heap/Api/Refine/Runs.antt =====
-- Runs of the allocator of ShompOS/src/memory/heap.c: any sequence of `allocate` and `free`, in any
-- order, that frees what was given out.
use operating_system.Base.{
  ℕ, ◌+◌, ◌^◌, ◌≤◌, ◌≡◌, ◌⊎◌, inl, inr, sym, ap, ap₂, ◌∙◌, true, Option, some, arith,
}
use mathlib.Core.Path.{subst}
use mathlib.Core.Option.{some-injective}
use operating_system.Heap.{Heap, heap_lower_bound, header_size}
use operating_system.Heap.Api.{allocate, free}
use operating_system.Heap.Api.Refine.{Represents}
use operating_system.Heap.Api.Refine.Allocate.{allocate-IsServed}
use operating_system.Heap.Api.Refine.Free.{free-Represents}
use operating_system.Heap.FreeLists.{HasList}
use operating_system.Heap.Blocks.{Given, give, take_back, Apart}

-- One call, and what it does to the set of the blocks that are given out. The block of an address is
-- the header before it, and its scale stands there.
pub data Call : Heap → Given → Heap → Given → Type 0 where
  refused : {h g : Heap} {A : Given} (size : ℕ) → allocate size h ≡ some (0, g) → Call h A g A
  allocated :
      {h g : Heap} {A : Given} (size b : ℕ)
      → allocate size h ≡ some (b + header_size, g)
      → Call h A g (give b (g.scale b) A)
  released :
      {h g : Heap} {A : Given} (k b status : ℕ)
      → HasList k
      → A k b ≡ true
      → free (b + header_size) h ≡ some (status, g)
      → Call h A g (take_back b k A)

pub data Calls : Heap → Given → Heap → Given → Type 0 where
  done : {h : Heap} {A : Given} → Calls h A h A
  then_call : {h g g' : Heap} {A B C : Given} → Calls h A g B → Call g B g' C → Calls h A g' C

-- A call has one result.
result_of :
    {o : Option (ℕ × Heap)} {p q : ℕ} {g g' : Heap}
    → o ≡ some (p, g)
    → o ≡ some (q, g')
    → (p ≡ q) × (g ≡ g')
result_of {p} {q} {g} {g'} e e' =
    let same : (p, g) ≡ (q, g') = some-injective (p, g) (q, g') (sym e ∙ e') in
    (ap (λ x. x.0) same, ap (λ x. x.1) same)

-- A call keeps the heap a set of blocks that do not overlap.
pub Call-Represents : {h g : Heap} {A B : Given} → Call h A g B → Represents h A → Represents g B
Call-Represents {h} {g} {A} (refused size e) r =
    let (p, g', e', cases) = allocate-IsServed r size in
    let (at, after) = result_of e' e in
    elim cases [
      | inl (_, kept, _) ↦ subst (λ x. Represents x A) (sym kept ∙ after) r
      | inr served ↦ absurd (omega (arith, served.address, at))
    ]
Call-Represents {h} {g} {A} (allocated size b e) r =
    let (p, g', e', cases) = allocate-IsServed r size in
    let (at, after) = result_of e' e in
    elim cases [
      | inl (null, _, _) ↦ absurd (omega (arith, null, at))
      | inr served ↦
          let eb : served.b ≡ b = omega (arith, served.address, at) in
          let es : served.s ≡ g.scale b = sym served.header.0 ∙ ap₂ (λ x y. x.scale y) after eb in
          subst (λ x. Represents x (give b (g.scale b) A)) after
            (subst (λ c. Represents g' (give c (g.scale b) A)) eb
              (subst (λ i. Represents g' (give served.b i A)) es served.state))
    ]
Call-Represents {h} {g} {A} (released k b status hk m e) r =
    let (g', e', freed_state) = free-Represents r k b hk m in
    let (_, after) = result_of e' e in subst (λ x. Represents x (take_back b k A)) after freed_state

pub Calls-Represents : {h g : Heap} {A B : Given} → Calls h A g B → Represents h A → Represents g B
Calls-Represents done r = r
Calls-Represents (then_call cs c) r = Call-Represents c (Calls-Represents cs r)

-- From a heap whose blocks do not overlap, after any sequence of calls of `allocate`, and of
-- `free` on blocks that are given out, two blocks that are given out are the same or share no
-- address, and each lies between the heap's lower bound and the break.
pub Calls-Apart :
    {h g : Heap} {A B : Given}
    → Represents h A
    → Calls h A g B
    → (j k a b : ℕ) → HasList j
    → HasList k
    → B j a ≡ true
    → B k b ≡ true
    → (((j ≡ k) × (a ≡ b)) ⊎ Apart a j b k) × (heap_lower_bound ≤ a) × (a + 2 ^ j ≤ g.current_brk)
Calls-Apart r cs j k a b hj hk m n =
    let t = Calls-Represents cs r in
    (
      t.blocks.apart j k a b hj hk (inr m) (inr n),
      (t.blocks.given j a hj m).above,
      t.blocks.within j a hj (inr m),
    )
