-- ===== src/Heap/Api/Grow.antt =====
-- The growth of the heap, `sbrk(1)` of ShompOS/src/memory/heap.c, and `allocate` where it is needed.
use operating_system.Base.{
  ℕ, suc, ◌+◌, ◌-◌, ◌*◌, ◌%◌, ◌^◌, ◌≤◌, ◌<◌, ◌≡◌, inl, inr, ap, sym, ◌∙◌, true, false, List, [],
  ◌∷◌, some, arith, ◌==◌, ltb, ◌||◌, Bool-cases, ◌∉◌,
}
use Prim.Native.Nat.{max}
use mathlib.Core.Path.{subst}
use operating_system.Heap.{
  Heap, heap_lower_bound, max_block_scale, min_block_scale, header_size, u32_mod, size_to_scale,
  set_scale, add_to_free_list,
}
use operating_system.Heap.Api.{
  split_or_grow, return_fit, allocate, allocate_scale, fit_grown, block_size, grow, grow_loop,
  grown, brk_within, brk, sbrk_up,
}
use operating_system.Heap.Size.{size_to_scale_bounds}
use operating_system.Heap.FreeLists.{Lists, replace, HasList, FreeLists}
use operating_system.Heap.FreeLists.Add.{add-FreeLists, brk-add}
use operating_system.Heap.Fit.{find_fit-BestFit}
use operating_system.Heap.Split.{FreeLists-set_scale, FreeLists-ext}

pub brk-grow : (h : Heap) → (grow h).current_brk ≡ (h.current_brk + block_size) % u32_mod
unfolding grow
brk-grow h = rw (brk-add h.current_brk (set_scale h.current_brk max_block_scale h))

-- One round reaches an address one block above the break.
brk_within-grow :
    (rounds : ℕ) (h : Heap)
    → h.current_brk + block_size < u32_mod
    → brk_within (suc (suc rounds)) (h.current_brk + block_size) h ≡ some (true, grow h)
unfolding brk_within grown grow_loop
brk_within-grow rounds h room =
    let more : ltb h.current_brk (h.current_brk + block_size) ≡ true = ground arith in
    let done : ltb (grow h).current_brk (h.current_brk + block_size) ≡ false =
      ground (arith, brk-grow h) in
    rw (more, done)

pub sbrk_up-grow :
    (h : Heap) → h.current_brk + block_size < u32_mod → sbrk_up 1 h ≡ some (true, grow h)
unfolding sbrk_up brk
sbrk_up-grow h room =
    let no_wrap : (h.current_brk + 1 * block_size) % u32_mod ≡ h.current_brk + block_size =
      omega arith in
    rw no_wrap (brk_within-grow (2 ^ 17 - 2) h room)

-- The only block that a search finds after the growth is the new one.
grown_first :
    (L : Lists) (k s b brk : ℕ) (rest : List ℕ)
    → ((j : ℕ) → k ≤ j → j ≤ max_block_scale → L j ≡ [])
    → k ≤ s
    → s ≤ max_block_scale
    → replace L max_block_scale (brk ∷ L max_block_scale) s ≡ b ∷ rest
    → (s ≡ max_block_scale) × (b ≡ brk) × (rest ≡ [])
grown_first L k s b brk rest no_fit le small first =
    ground (arith, no_fit s le small, no_fit max_block_scale)

-- With its first block taken again the list is as before.
grown_lists :
    (L : Lists) (s brk : ℕ) (rest : List ℕ)
    → s ≡ max_block_scale
    → rest ≡ []
    → L max_block_scale ≡ []
    → (k : ℕ) → replace (replace L max_block_scale (brk ∷ L max_block_scale)) s rest k ≡ L k
grown_lists L s brk rest e e' empty k = elim (Bool-cases (k == s)) [
  | inl same ↦
      let at : k ≡ max_block_scale = ground arith in rw same (e' ∙ sym empty ∙ ap L (sym at))
  | inr other ↦ ground arith
]

module _ {h : Heap} {L : Lists} (f : FreeLists h L) (above : heap_lower_bound ≤ h.current_brk)
    (out : (k : ℕ) → HasList k → h.current_brk ∉ L k) where
  pub grow-FreeLists :
      FreeLists (grow h) (replace L max_block_scale (h.current_brk ∷ L max_block_scale))
  unfolding grow
  grow-FreeLists =
      let g = set_scale h.current_brk max_block_scale h in
      let e : g.scale h.current_brk ≡ max_block_scale = ground arith in
      let added : FreeLists (add_to_free_list h.current_brk g)
          (replace L max_block_scale (h.current_brk ∷ L max_block_scale)) =
        subst
          (λ k. FreeLists (add_to_free_list h.current_brk g) (replace L k (h.current_brk ∷ L k))) e
          (add-FreeLists (FreeLists-set_scale h.current_brk max_block_scale out f) h.current_brk
            above (rw e (omega arith)) (rw e (out max_block_scale (omega arith)))) in
      record {
        below = added.below;
        chain = added.chain;
        distinct = added.distinct;
        member = λ k b hk m.
            let i = added.member k b hk m in
            record { above = i.above; scale = i.scale; free = i.free };
      }

  -- On well-formed free lists that do not hold the break, a request that no free block can serve
  -- makes the heap grow by one block of the largest scale, where the address space has room for
  -- it, and returns that block whole: it keeps the largest scale, whatever the size of the
  -- request, and the lists are as before.
  pub allocate-grown :
      (size : ℕ)
      → 0 < size
      → size ≤ block_size - header_size
      → h.current_brk + block_size < u32_mod
      → ((j : ℕ) → size_to_scale size ≤ j → j ≤ max_block_scale → L j ≡ [])
      → (g : Heap) × (allocate size h ≡ some (h.current_brk + header_size, g))
        × (g.scale h.current_brk ≡ max_block_scale)
        × (g.current_brk ≡ h.current_brk + block_size)
        × FreeLists g L
  unfolding allocate allocate_scale split_or_grow fit_grown return_fit
  allocate-grown size pos small room no_fit =
      let (_, _, least, largest) = size_to_scale_bounds size pos small in
      let ok : (ltb (block_size - header_size) size || (size == 0)) ≡ false = ground arith in
      let m : max (size_to_scale size) min_block_scale ≡ size_to_scale size = omega arith in
      let k = size_to_scale size in
      let hk : HasList k = omega arith in
      elim (find_fit-BestFit f k hk) [
        | inl (none_fit, _) ↦ elim (find_fit-BestFit grow-FreeLists k hk) [
          | inl (_, nothing) ↦ absurd (cc (nothing max_block_scale largest (omega arith)))
          | inr (s, b, rest, g, found, fit) ↦
              let (e, eb, er) =
                grown_first L k s b h.current_brk rest no_fit fit.large fit.has_list.largest
                  fit.first in
              (
                g,
                rw (ok, m, none_fit) (rw (sbrk_up-grow h room) (rw (found, eb))),
                subst (λ x. g.scale x ≡ max_block_scale) eb (fit.links.3 ∙ e),
                omega (arith, fit.brk, brk-grow h),
                FreeLists-ext _ L
                    (grown_lists L s h.current_brk rest e er
                      (no_fit max_block_scale largest (omega arith)))
                    fit.lists,
              )
        ]
        | inr (s, b, rest, g, found, fit) ↦
            absurd (cc (fit.first, no_fit s fit.large fit.has_list.largest))
      ]
