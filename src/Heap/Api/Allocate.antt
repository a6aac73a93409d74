-- ===== src/Heap/Api/Allocate.antt =====
-- `allocate` of ShompOS/src/memory/heap.c, on the free lists: a block that is found, and the growth
-- of the heap where none is.
use operating_system.Base.{
  ℕ, suc, ap, ◌+◌, ◌-◌, ◌^◌, ◌≤◌, ◌<◌, ◌≡◌, ◌≢◌, ◌⊎◌, inl, inr, sym, ◌∙◌, false, List, [], ◌∷◌,
  some, arith, ◌==◌, ltb, ◌||◌, Bool-cases, ◌∈◌,
}
use Prim.Native.Nat.{max}
use mathlib.Core.Path.{subst}
use operating_system.Heap.{
  Heap, max_block_scale, min_block_scale, header_size, u32_mod, size_to_scale,
}
use operating_system.Heap.Api.{split_or_grow, after_split, allocate, allocate_scale, block_size}
use operating_system.Heap.Size.{size_to_scale_bounds}
use operating_system.Heap.FreeLists.{Lists, replace, HasList, FreeLists}
use operating_system.Heap.Fit.{BestFit, find_fit-BestFit}
use operating_system.Heap.Api.Total.{split_loop-total}
use operating_system.Heap.Split.{IsOutside, split_lists, split_loop-Split, pow2_pos}

-- The free blocks lie in the address space and do not overlap.
pub record IsApart (L : Lists) : Type 0 where
  pub inside : (k a : ℕ) → HasList k → a ∈ L k → a + 2 ^ k ≤ u32_mod
  pub disjoint :
      (j k a b : ℕ)
      → HasList j
      → HasList k
      → a ∈ L j
      → b ∈ L k
      → ((j ≡ k) × (a ≡ b)) ⊎ ((a + 2 ^ j ≤ b) ⊎ (b + 2 ^ k ≤ a))

-- A block found: `b` was the first one of the smallest scale that fits. It now has the scale `k`,
-- it is linked to itself and not free, and the lists hold what the splits left over.
pub record Allocated (h : Heap) (L : Lists) (k b : ℕ) (g : Heap) : Type 0 where
  pub s : ℕ
  pub rest : List ℕ
  pub large : k ≤ s
  pub smallest : (j : ℕ) → k ≤ j → j < s → L j ≡ []
  pub first : L s ≡ b ∷ rest
  pub scale : g.scale b ≡ k
  pub lists : FreeLists g (split_lists b k s (replace L s rest))
  pub links : (g.next b ≡ b) × (g.prev b ≡ b) × (g.is_free b ≡ false)

module _ {h : Heap} {L : Lists} (f : FreeLists h L) (apart : IsApart L) where
  fit-IsOutside :
      {k s b : ℕ} {rest : List ℕ} {g : Heap}
      → BestFit h L k s b rest g
      → IsOutside (replace L s rest) b s
  fit-IsOutside {s} {b} {rest} fit j a hj m =
      let hs = fit.has_list in
      let at : b ∈ L s = rw fit.first (ground arith) in
      let old : a ∈ L j = elim (Bool-cases (j == s)) [
        | inl same ↦
            let m' : a ∈ rest = rw same at m in
            let e : j ≡ s = ground arith in
            subst (λ i. a ∈ L i) (sym e) (rw fit.first (ground arith))
        | inr other ↦ rw other at m
      ] in
      let ne : a ≢ b =
        λ e. ground (arith, fit.lists.member j b hj (subst (λ x. x ∈ replace L s rest j) e m)) in
      omega (arith, apart.disjoint j s a b hj hs old at, pow2_pos j, ne)

  -- `allocate` at a scale for which some list has a block.
  allocate_scale-Allocated :
      (k : ℕ)
      → HasList k
      → (some_list : (j : ℕ) × (k ≤ j) × (j ≤ max_block_scale) × (L j ≢ []))
      → (b : ℕ) × (g : Heap) × (allocate_scale k h ≡ some (b + header_size, g))
        × Allocated h L k b g
  unfolding allocate_scale split_or_grow after_split
  allocate_scale-Allocated k hk (j, le, large, full) = elim (find_fit-BestFit f k hk) [
    | inl (_, none_fit) ↦ absurd (full (none_fit j le large))
    | inr (s, b, rest, g, found, fit) ↦
        let start : g.scale b ≡ s = fit.links.3 in
        let (g', runs, _) =
          split_loop-total (g.scale b) b k g (omega (arith, fit.above)) hk.least (omega arith) in
        let split =
          split_loop-Split (suc (g.scale b)) b k s fit.lists (fit-IsOutside fit) fit.above
            (apart.inside s b fit.has_list (rw fit.first (ground arith))) fit.links.3 hk.least
            fit.large fit.has_list.largest (omega (arith, start)) runs in
        let nz : (b == 0) ≡ false = ground (arith, fit.above) in
        (
          b,
          g',
          rw (found, nz) (ap (after_split b) runs),
          record {
            s = s;
            rest = rest;
            large = fit.large;
            smallest = fit.smallest;
            first = fit.first;
            scale = split.scale;
            lists = split.lists;
            links = (split.next ∙ fit.links.0, split.prev ∙ fit.links.1, split.free ∙ fit.links.2);
          },
        )
  ]

  -- On well-formed free lists whose blocks are apart, a request that some free block can serve
  -- gets one: the first block of the smallest scale that fits, split down to the least scale that
  -- holds the request and its header. Afterwards the lists are well-formed: the block is gone from
  -- its list, and each split put one half on the list of its scale. The block is linked to itself
  -- and not free.
  pub allocate-Allocated :
      (size : ℕ)
      → 0 < size
      → size ≤ block_size - header_size
      → (some_list : (j : ℕ) × (size_to_scale size ≤ j) × (j ≤ max_block_scale) × (L j ≢ []))
      → (b : ℕ) × (g : Heap) × (allocate size h ≡ some (b + header_size, g))
        × Allocated h L (size_to_scale size) b g
  unfolding allocate
  allocate-Allocated size pos small has_list =
      let (_, _, least, largest) = size_to_scale_bounds size pos small in
      let ok : (ltb (block_size - header_size) size || (size == 0)) ≡ false = ground arith in
      let m : max (size_to_scale size) min_block_scale ≡ size_to_scale size = omega arith in
      rw (ok, m) (allocate_scale-Allocated (size_to_scale size) (omega arith) has_list)
