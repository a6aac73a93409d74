-- ===== src/Heap/Api/Refine/Free.antt =====
-- `free` of ShompOS/src/memory/heap.c against its promise: the block is given back, and all others
-- stay as they are.
use operating_system.Base.{
  ℕ, suc, ◌+◌, ◌-◌, ◌*◌, ◌%◌, ◌^◌, ◌≤◌, ◌<◌, ◌≡◌, inl, inr, refl, sym, ap, ◌∙◌, true, false, not,
  List, [], ◌∷◌, some, arith, ◌==◌, ltb, ◌||◌, ◌&&◌, Bool-cases,
}
use mathlib.Core.Path.{subst}
use operating_system.Heap.{
  Heap, max_block_scale, header_size, u32_mod, add_to_free_list, remove_from_free_list,
  coalesce_block,
}
use operating_system.Heap.Api.{
  block_size, shrink, last_block, shrink_loop, brk_within, brk, sbrk_down, after_free, release,
  release_merged, free,
}
use operating_system.Heap.Api.Free.{brk-coalesce_loop, brk-shrink}
use operating_system.Heap.Api.Refine.{Represents, Blocks-brk, Hand-last}
use operating_system.Heap.FreeLists.{Lists, replace, HasList}
use operating_system.Heap.FreeLists.Remove.{brk-remove}
use operating_system.Heap.FreeLists.Add.{brk-add, scale-add, is_free-add}
use operating_system.Heap.Blocks.{Given, take_back, Blocks, Hand}
use operating_system.Heap.Blocks.Take.{take-Hand}
use operating_system.Heap.Blocks.Put.{put-Blocks, take_back-Hand}
use operating_system.Heap.Blocks.Merge.{coalesce_loop-Hand}

-- One round of the shrinking loop takes away the last block.
brk_within-shrink :
    (rounds addr : ℕ) (h : Heap)
    → h.current_brk ≡ addr + block_size
    → h.current_brk < u32_mod
    → h.scale addr ≡ max_block_scale
    → h.is_free addr ≡ true
    → brk_within (suc (suc rounds)) addr h ≡ some (true, shrink h)
unfolding brk_within shrink_loop
brk_within-shrink rounds addr h e small scale free =
    let up : ltb h.current_brk addr ≡ false = ground arith in
    let down : ltb addr h.current_brk ≡ true = ground arith in
    let last : last_block h ≡ addr = omega arith in
    let go : (not (h.scale (last_block h) == max_block_scale) || not (h.is_free (last_block h)))
        ≡ false =
      rw last (rw (scale, free) refl) in
    let done : ltb addr (shrink h).current_brk ≡ false = ground (arith, brk-shrink h) in
    rw (up, down) (rw go (rw done refl))

sbrk_down-shrink :
    (h : Heap) (addr : ℕ)
    → h.current_brk ≡ addr + block_size
    → h.current_brk < u32_mod
    → h.scale addr ≡ max_block_scale
    → h.is_free addr ≡ true
    → sbrk_down 1 h ≡ some (true, shrink h)
unfolding sbrk_down brk
sbrk_down-shrink h addr e small scale free =
    let at : (h.current_brk + u32_mod - 1 * block_size % u32_mod) % u32_mod ≡ addr = omega arith in
    ap (λ a. brk_within (2 ^ 17) a h) at ∙ brk_within-shrink (2 ^ 17 - 2) addr h e small scale free

-- A heap that ends with a free block of the largest scale, without that block.
shrink-Represents :
    {h : Heap} {L : Lists} {A : Given} (b : ℕ) (rest : List ℕ)
    → Blocks h L A h.current_brk
    → h.current_brk ≡ b + block_size
    → h.current_brk < u32_mod
    → L max_block_scale ≡ b ∷ rest
    → Represents (shrink h) A
unfolding shrink
shrink-Represents {h} {L} {A} b rest v e small first =
    let last : last_block h ≡ b = omega arith in
    let w = take-Hand v max_block_scale b [] rest (omega arith) first in
    let brk' = ((remove_from_free_list b h).current_brk + u32_mod - block_size) % u32_mod in
    let below : brk' ≡ b = omega (arith, brk-remove b h) in
    rw last (record {
      free_blocks = replace L max_block_scale rest;
      blocks =
          subst
            (λ top.
              Blocks (record (remove_from_free_list b h) { current_brk = brk' })
                (replace L max_block_scale rest) A top)
            (sym below) (Blocks-brk brk' (Hand-last w (sym e)));
      low = omega (arith, below, w.header.above);
      high = omega (arith, below);
    })

-- The end of `free` with a block in hand.
release-Represents :
    {h : Heap} {L : Lists} {A : Given} (b s : ℕ)
    → Hand h L A h.current_brk b s
    → h.current_brk < u32_mod
    → (g : Heap) × (release b h ≡ some (0, g)) × Represents g A
unfolding release after_free
release-Represents {h} {L} {A} b s w small =
    let h' = add_to_free_list b h in
    let same : h'.current_brk ≡ h.current_brk = brk-add b h in
    let v : Blocks h' (replace L s (b ∷ L s)) A h'.current_brk =
      subst (λ top. Blocks h' (replace L s (b ∷ L s)) A top) (sym same) (put-Blocks w) in
    let at : h'.scale b ≡ s = scale-add b h b ∙ w.header.scale in
    elim (Bool-cases
      ((h'.scale b == max_block_scale) && (h'.current_brk == (b + block_size) % u32_mod))) [
        | inl last ↦
            let top : s ≡ max_block_scale = ground arith in
            let room : b + block_size ≤ h.current_brk =
              subst (λ i. b + 2 ^ i ≤ h.current_brk) top w.room in
            let wraps : h'.current_brk ≡ (b + block_size) % u32_mod = ground arith in
            let end : h'.current_brk ≡ b + block_size = omega arith in
            let shrunk =
              sbrk_down-shrink h' b end (omega arith) (omega (arith, at, top))
                (ground (arith, is_free-add b h b)) in
            (
              shrink h',
              rw (last, shrunk),
              shrink-Represents b (L s) v end (omega arith) (ground arith),
            )
        | inr inner ↦ (
          h',
          rw inner,
          record {
            free_blocks = replace L s (b ∷ L s);
            blocks = v;
            low = omega (arith, w.header.above, w.room, same);
            high = omega (arith, same);
          },
        )
      ]

-- Where the heap consists of blocks that do not overlap, `free` of a block that is given out
-- returns 0. The heap consists of such blocks again, and those given out are the others.
pub free-Represents :
    {h : Heap} {A : Given}
    → Represents h A
    → (k b : ℕ) → HasList k
    → A k b ≡ true
    → (g : Heap) × (free (b + header_size) h ≡ some (0, g)) × Represents g (take_back b k A)
unfolding free coalesce_block release_merged
free-Represents {h} {A} r k b hk m =
    let i = r.blocks.given k b hk m in
    let v = take_back-Hand r.blocks k b hk m in
    let at : (b + header_size + u32_mod - header_size) % u32_mod ≡ b =
      omega (arith, v.room, r.high) in
    let real : (b + header_size == 0) ≡ false = ground arith in
    let good : (not (h.next b == b) || not (h.prev b == b)) ≡ false =
      ground (arith, i.next, i.prev) in
    let (m, h', merges, s, L, w, _) = coalesce_loop-Hand 16 b k v r.high (omega (arith, hk)) in
    let same : h'.current_brk ≡ h.current_brk = brk-coalesce_loop 16 b h merges in
    let (g, runs, done) =
      release-Represents m s (subst (λ top. Hand h' L (take_back b k A) top m s) (sym same) w)
        (omega (arith, same, r.high)) in
    (g, rw (real, at) (rw (good, merges) runs), done)
