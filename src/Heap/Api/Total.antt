-- ===== src/Heap/Api/Total.antt =====
-- `allocate` of ShompOS/src/memory/heap.c returns, whatever the free lists hold.
use operating_system.Base.{
  ℕ, zero, suc, ◌≤◌, ◌≢◌, ◌^◌, ◌%◌, false, ◌+◌, ◌-◌, ◌<◌, ◌≡◌, not, ◌&&◌, ◌⊎◌, inl, inr, refl, ap,
  ◌∙◌, some, arith, ◌==◌, ltb, leb, ◌||◌, Bool-cases,
}
use Prim.Native.Nat.{max}
use operating_system.Heap.{
  Heap, max_block_scale, min_block_scale, header_size, u32_mod, size_to_scale, search, take_first,
  take_found, find_fit, split_block, split_loop, set_scale, slot, is_end_of_list,
}
use operating_system.Heap.Api.{
  allocate, allocate_scale, fit_grown, split_or_grow, return_fit, after_split, block_size, grow,
}
use operating_system.Heap.Api.Grow.{brk-grow, sbrk_up-grow}
use operating_system.Heap.FreeLists.Add.{brk-add, scale-add}
use operating_system.Heap.FreeLists.Remove.{brk-remove}

brk-take_first : (k : ℕ) (h : Heap) → (take_first k h).1.current_brk ≡ h.current_brk
unfolding take_first
brk-take_first k h = elim (Bool-cases (not (is_end_of_list h k) && not (h.next k == 0))) [
  | inl e ↦ rw e (brk-remove (h.next k) h)
  | inr n ↦ rw n refl
]

-- The search ends, since each round takes a larger scale.
search-total :
    (rounds k : ℕ) (h : Heap)
    → max_block_scale ≤ rounds + k
    → (s : ℕ) × (search (suc rounds) k h ≡ some s)
unfolding search
search-total zero k h enough =
    let last : (is_end_of_list h (slot h k) && ltb k max_block_scale) ≡ false = ground arith in
    (k, rw last refl)
search-total (suc rounds) k h enough =
    elim (Bool-cases (is_end_of_list h (slot h k) && ltb k max_block_scale)) [
      | inl more ↦ let (s, runs) = search-total rounds (k + 1) h (omega arith) in (s, rw more runs)
      | inr stop ↦ (k, rw stop refl)
    ]

find_fit-total :
    (k : ℕ) (h : Heap)
    → (b : ℕ) × (g : Heap) × (find_fit k h ≡ some (b, g)) × (g.current_brk ≡ h.current_brk)
unfolding find_fit take_found
find_fit-total k h =
    let (s, runs) = search-total max_block_scale k h (omega arith) in
    (
      (take_first (slot h s) h).0,
      (take_first (slot h s) h).1,
      rw runs refl,
      brk-take_first (slot h s) h,
    )

brk-split_block : (b : ℕ) (h : Heap) → (split_block b h).current_brk ≡ h.current_brk
unfolding split_block
brk-split_block b h = elim (Bool-cases ((b == 0) || leb (h.scale b) min_block_scale)) [
  | inl e ↦ rw e refl
  | inr n ↦ rw n (brk-add _ _)
]

-- A header that is given the scale of `b` leaves that of `b` as it was, or cuts it to seven bits.
scale-set_scale_le : (a b : ℕ) (h : Heap) → (set_scale a (h.scale b) h).scale b ≤ h.scale b
scale-set_scale_le a b h = ground arith

-- A split makes the scale of a block above the least one smaller.
scale-split_block :
    (b : ℕ) (h : Heap) → b ≢ 0 → min_block_scale < h.scale b → (split_block b h).scale b < h.scale b
unfolding split_block
scale-split_block b h ne above =
    let real : ((b == 0) || leb (h.scale b) min_block_scale) ≡ false = ground arith in
    let shrunk : Heap = set_scale b (h.scale b - 1) h in
    let half : ℕ = (b + 2 ^ shrunk.scale b) % u32_mod in
    let less : shrunk.scale b < h.scale b = ground arith in
    let kept = scale-add half (set_scale half (shrunk.scale b) shrunk) b in
    rw real (omega (arith, kept, scale-set_scale_le half b shrunk, less))

-- The loop ends, since each round makes the scale smaller.
pub split_loop-total :
    (rounds b r : ℕ) (h : Heap)
    → b ≢ 0
    → min_block_scale ≤ r
    → h.scale b < suc rounds + r
    → (g : Heap) × (split_loop (suc rounds) b r h ≡ some g) × (g.current_brk ≡ h.current_brk)
unfolding split_loop
split_loop-total zero b r h ne least enough =
    let done : ltb r (h.scale b) ≡ false = ground arith in (h, rw done refl, refl)
split_loop-total (suc rounds) b r h ne least enough = elim (Bool-cases (ltb r (h.scale b))) [
  | inr done ↦ (h, rw done refl, refl)
  | inl more ↦
      let less = scale-split_block b h ne (ground arith) in
      let (g, runs, same) = split_loop-total rounds b r (split_block b h) ne least (omega arith) in
      (g, rw more runs, same ∙ brk-split_block b h)
]

-- Where the break is more than one block of the largest scale below the end of the address space,
-- `allocate` returns, whatever the free lists hold, and the break stays or moves up by exactly one
-- block.
pub allocate-total :
    (size : ℕ) (h : Heap)
    → h.current_brk + block_size < u32_mod
    → (p : ℕ) × (g : Heap) × (allocate size h ≡ some (p, g))
      × ((g.current_brk ≡ h.current_brk) ⊎ (g.current_brk ≡ h.current_brk + block_size))
unfolding allocate allocate_scale split_or_grow fit_grown return_fit after_split
allocate-total size h room =
    elim (Bool-cases (ltb (block_size - header_size) size || (size == 0))) [
      | inl refused ↦ (0, h, rw refused refl, inl refl)
      | inr ok ↦
          let k = max (size_to_scale size) min_block_scale in
          let (b, h', fits, same) = find_fit-total k h in
          elim (Bool-cases (b == 0)) [
            | inl nothing ↦
                let (c, g, fits', same') = find_fit-total k (grow h') in
                (
                  c + header_size,
                  g,
                  rw (ok, fits, nothing)
                      (ap (fit_grown k) (sbrk_up-grow h' (omega (arith, same)))
                        ∙ ap return_fit fits'),
                  inr (omega (arith, same', brk-grow h', same, room)),
                )
            | inr found ↦
                let (g, runs, kept) =
                  split_loop-total (h'.scale b) b k h' (ground arith) (omega arith) (omega arith) in
                (b + header_size, g, rw (ok, fits, found, runs) refl, inl (kept ∙ same))
          ]
    ]
