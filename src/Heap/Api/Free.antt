-- ===== src/Heap/Api/Free.antt =====
-- `free` of ShompOS/src/memory/heap.c returns: its loops end, and the heap shrinks by one block at
-- most.
use operating_system.Base.{
  ℕ, zero, suc, ◌+◌, ◌-◌, ◌*◌, ◌%◌, ◌^◌, ◌≤◌, ◌<◌, ◌≡◌, ◌⊎◌, inl, inr, refl, ap, sym, ◌∙◌, true,
  false, not, Bool, some, arith, ◌==◌, ltb, ◌||◌, ◌&&◌, if◌then◌else◌, Bool-cases,
}
use operating_system.Heap.{
  Heap, max_block_scale, header_size, u32_mod, is_upper, buddy_of, set_scale, add_to_free_list,
  remove_from_free_list, coalesce_loop, coalesce_block,
}
use operating_system.Heap.Api.{
  block_size, shrink, last_block, shrink_loop, brk_within, brk, sbrk_down, after_free, corrupted,
  release, release_merged, free,
}
use operating_system.Heap.FreeLists.Add.{brk-add}
use operating_system.Heap.FreeLists.Remove.{brk-remove, scale-remove}
use mathlib.Core.Option.{some-injective}

-- What the loop returns has the break of the heap.
pub brk-coalesce_loop :
    (rounds curr : ℕ) (h : Heap) {b : ℕ} {g : Heap}
    → coalesce_loop rounds curr h ≡ some (b, g)
    → g.current_brk ≡ h.current_brk
unfolding coalesce_loop
brk-coalesce_loop zero curr h runs = cc
brk-coalesce_loop (suc rounds) curr h runs =
    let merged = if is_upper curr h then buddy_of curr h else curr in
    let h' = remove_from_free_list (buddy_of curr h) h in
    let ih = brk-coalesce_loop rounds merged (set_scale merged (h'.scale merged + 1) h') in
    elim (Bool-cases (
      h.is_free (buddy_of curr h)
      && (h.scale (buddy_of curr h) == h.scale curr)
      && ltb (h.scale curr) max_block_scale)) [
        | inl more ↦ ih (rw more at runs) ∙ brk-remove (buddy_of curr h) h
        | inr done ↦ sym (ap (λ (b, g). g.current_brk) (some-injective _ _ (rw done at runs)))
      ]

-- The merged block is one scale larger.
scale-merged :
    (curr : ℕ) (h : Heap)
    → h.scale (buddy_of curr h) ≡ h.scale curr
    → h.scale curr < max_block_scale
    → let merged = if is_upper curr h then buddy_of curr h else curr in
      let h' = remove_from_free_list (buddy_of curr h) h in
      (set_scale merged (h'.scale merged + 1) h').scale merged ≡ h.scale curr + 1
scale-merged curr h same small = elim (Bool-cases (is_upper curr h)) [
  | inl up ↦ rw up (ground (arith, scale-remove (buddy_of curr h) h (buddy_of curr h)))
  | inr low ↦ rw low (ground (arith, scale-remove (buddy_of curr h) h curr))
]

-- The loop ends, since each round makes the scale of the block larger, up to the largest.
coalesce_loop-total :
    (rounds curr : ℕ) (h : Heap)
    → max_block_scale ≤ rounds + h.scale curr
    → (b : ℕ) × (g : Heap) × (coalesce_loop (suc rounds) curr h ≡ some (b, g))
unfolding coalesce_loop
coalesce_loop-total zero curr h enough =
    let done : (h.is_free (buddy_of curr h)
          && (h.scale (buddy_of curr h) == h.scale curr)
          && ltb (h.scale curr) max_block_scale)
        ≡ false =
      ground arith in
    (curr, h, rw done refl)
coalesce_loop-total (suc rounds) curr h enough =
    let merged = if is_upper curr h then buddy_of curr h else curr in
    let h' = remove_from_free_list (buddy_of curr h) h in
    elim (Bool-cases (
      h.is_free (buddy_of curr h)
      && (h.scale (buddy_of curr h) == h.scale curr)
      && ltb (h.scale curr) max_block_scale)) [
        | inr done ↦ (curr, h, rw done refl)
        | inl more ↦
            let larger = scale-merged curr h (ground arith) (ground arith) in
            let (b, g, runs) =
              coalesce_loop-total rounds merged (set_scale merged (h'.scale merged + 1) h')
                (omega (arith, larger)) in
            (b, g, rw more runs)
      ]

pub brk-shrink :
    (h : Heap) → (shrink h).current_brk ≡ (h.current_brk + u32_mod - block_size) % u32_mod
unfolding shrink
brk-shrink h = rw (brk-remove (last_block h) h)

-- Down to an address one block below the break takes two rounds.
shrink_loop-one :
    (rounds addr : ℕ) (h : Heap)
    → h.current_brk ≡ addr + block_size
    → h.current_brk < u32_mod
    → (r : Bool × Heap) × (shrink_loop (suc (suc rounds)) addr h ≡ some r)
      × ((r.1.current_brk ≡ h.current_brk) ⊎ (r.1.current_brk ≡ addr))
unfolding shrink_loop
shrink_loop-one rounds addr h e small =
    let more : ltb addr h.current_brk ≡ true = ground arith in
    let below : (shrink h).current_brk ≡ addr = omega (arith, brk-shrink h) in
    let done : ltb addr (shrink h).current_brk ≡ false = ground arith in
    elim (Bool-cases
      (not (h.scale (last_block h) == max_block_scale) || not (h.is_free (last_block h)))) [
        | inl stop ↦ ((false, h), rw (more, stop), inl refl)
        | inr go ↦ ((true, shrink h), rw (more, go, done), inr below)
      ]

brk_within-down :
    (rounds addr : ℕ) (h : Heap)
    → h.current_brk ≡ addr + block_size
    → h.current_brk < u32_mod
    → (r : Bool × Heap) × (brk_within (suc (suc rounds)) addr h ≡ some r)
      × ((r.1.current_brk ≡ h.current_brk) ⊎ (r.1.current_brk ≡ addr))
unfolding brk_within
brk_within-down rounds addr h e small =
    let down : ltb h.current_brk addr ≡ false = ground arith in
    rw down (shrink_loop-one rounds addr h e small)

-- The break of a heap after it moved by one block at most.
abbrev pub IsBelow : Heap → Heap → Type 0
IsBelow h g = (g.current_brk ≡ h.current_brk) ⊎ (g.current_brk + block_size ≡ h.current_brk)

sbrk_down-total :
    (h : Heap)
    → block_size ≤ h.current_brk
    → h.current_brk < u32_mod
    → (r : Bool × Heap) × (sbrk_down 1 h ≡ some r) × IsBelow h r.1
unfolding sbrk_down brk
sbrk_down-total h large small =
    let addr = h.current_brk - block_size in
    let e : (h.current_brk + u32_mod - 1 * block_size % u32_mod) % u32_mod ≡ addr = omega arith in
    let (r, runs, moved) = brk_within-down (2 ^ 17 - 2) addr h (omega arith) small in
    (r, ap (λ a. brk_within (2 ^ 17) a h) e ∙ runs, omega (arith, moved))

release-total :
    (block : ℕ) (h : Heap)
    → block_size ≤ h.current_brk
    → h.current_brk < u32_mod
    → (g : Heap) × (release block h ≡ some (0, g)) × IsBelow h g
unfolding release after_free
release-total block h large small =
    let h' = add_to_free_list block h in
    let e = brk-add block h in
    elim (Bool-cases
      ((h'.scale block == max_block_scale) && (h'.current_brk == (block + block_size) % u32_mod))) [
        | inl last ↦
            let (r, runs, moved) = sbrk_down-total h' (omega arith) (omega arith) in
            (r.1, rw (last, runs), omega (arith, moved))
        | inr inner ↦ (h', rw inner, inl e)
      ]

-- `free` always returns, 0 or 1, on a heap whose break is an address of at least one block: the
-- merging, the unlinking and the shrinking loop end, and the break stays or moves down by exactly
-- one block.
pub free-total :
    (addr : ℕ) (h : Heap)
    → block_size ≤ h.current_brk
    → h.current_brk < u32_mod
    → (status : ℕ) × (g : Heap) × (free addr h ≡ some (status, g)) × (status ≤ 1) × IsBelow h g
unfolding free coalesce_block release_merged
free-total addr h large small = elim (Bool-cases (addr == 0)) [
  | inl null ↦ (1, h, rw null, omega arith, inl refl)
  | inr real ↦
      let block = (addr + u32_mod - header_size) % u32_mod in
      elim (Bool-cases (not (h.next block == block) || not (h.prev block == block))) [
        | inl bad ↦ (1, corrupted h, rw (real, bad), omega arith, inl refl)
        | inr good ↦
            let (b, m, runs) = coalesce_loop-total 15 block h (omega arith) in
            let e = brk-coalesce_loop 16 block h runs in
            let (g, ends, moved) = release-total b m (omega arith) (omega arith) in
            (0, g, rw (real, good, runs) ends, omega arith, omega (arith, moved))
      ]
]
