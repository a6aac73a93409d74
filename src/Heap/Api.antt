-- ===== src/Heap/Api.antt =====
-- The allocator's entry points in ShompOS/src/memory/heap.c: `brk`, `sbrk`, `init_heap`,
-- `allocate`, `free`. A returned 0 is `true` here, and -1 is `false`.
pub mod Allocate
pub mod Grow
pub mod Free
pub mod Total
pub mod Refine
pub mod Tests
use operating_system.Base.{
  ℕ, zero, suc, ◌+◌, ◌-◌, ◌*◌, ◌/◌, ◌%◌, ◌^◌, Bool, true, false, not, ◌&&◌, ◌||◌, List, [], ◌∷◌,
  ◌++◌, Option, none, some, codes, ltb, ◌==◌, if◌then◌else◌,
}
use Prim.Native.Nat.{max}
use operating_system.Heap.{
  Heap, u32_mod, header_size, max_block_scale, min_block_scale, set_next, set_prev, set_scale, slot,
  size_to_scale, add_to_free_list, remove_from_free_list, find_fit, split_loop, coalesce_block,
}

-- `1<<MAX_BLOCK_SCALE`
abbrev pub block_size : ℕ
block_size = 2 ^ max_block_scale

-- One round of growth: a new block of the largest scale at the break.
pub grow : Heap → Heap
grow h =
    let h' = add_to_free_list h.current_brk (set_scale h.current_brk max_block_scale h) in
    record h' { current_brk = (h'.current_brk + block_size) % u32_mod }

-- `while (addr > current_brk)`; `none` means that the rounds ran out.
pub grow_loop : ℕ → ℕ → Heap → Option Heap
grow_loop zero addr h = none
grow_loop (suc rounds) addr h =
    let rest = grow_loop rounds addr (grow h) in if ltb h.current_brk addr then rest else some h

-- the last block of the heap, if it is of the largest scale
abbrev pub last_block : Heap → ℕ
last_block h = (h.current_brk + u32_mod - block_size) % u32_mod

pub shrink : Heap → Heap
shrink h =
    let h' = remove_from_free_list (last_block h) h in
    record h' { current_brk = (h'.current_brk + u32_mod - block_size) % u32_mod }

-- `while (addr < current_brk)`
pub shrink_loop : ℕ → ℕ → Heap → Option (Bool × Heap)
shrink_loop zero addr h = none
shrink_loop (suc rounds) addr h =
    let rest = shrink_loop rounds addr (shrink h) in
    if ltb addr h.current_brk
    then (if not (h.scale (last_block h) == max_block_scale) || not (h.is_free (last_block h))
        then some (false, h)
        else rest)
    else some (true, h)

pub grown : Option Heap → Option (Bool × Heap)
grown none = none
grown (some h) = some (true, h)

pub brk_within : ℕ → ℕ → Heap → Option (Bool × Heap)
brk_within rounds addr h =
    if ltb h.current_brk addr then grown (grow_loop rounds addr h) else shrink_loop rounds addr h

-- The address space holds `2 ^ 17` blocks of the largest scale.
pub brk : ℕ → Heap → Option (Bool × Heap)
brk addr h = brk_within (2 ^ 17) addr h

-- `sbrk(inc)` at a positive and at a negative increment
pub sbrk_up : ℕ → Heap → Option (Bool × Heap)
sbrk_up inc h =
    if inc == 0 then some (false, h) else brk ((h.current_brk + inc * block_size) % u32_mod) h

pub sbrk_down : ℕ → Heap → Option (Bool × Heap)
sbrk_down dec h =
    if dec == 0
    then some (false, h)
    else brk ((h.current_brk + u32_mod - dec * block_size % u32_mod) % u32_mod) h

-- `for (i = MIN_BLOCK_SCALE; i <= MAX_BLOCK_SCALE; i++)`
pub init_lists : ℕ → ℕ → Heap → Heap
init_lists zero i h = h
init_lists (suc rounds) i h =
    init_lists rounds (i + 1) (set_next (slot h i) (slot h i) (set_prev (slot h i) (slot h i) h))

heap_of : Option (Bool × Heap) → Option Heap
heap_of none = none
heap_of (some (_, h)) = some h

pub init_heap : ℕ → Heap → Option Heap
unfolding init_lists heap_of
init_heap heap_addr h = heap_of (
    sbrk_up 1 (
      init_lists (max_block_scale + 1 - min_block_scale) min_block_scale
        (record h { current_brk = heap_addr })))

-- What `allocate` does with the block that the search gives, 0 if none: split it, or grow the heap
-- and search again.
pub return_fit : Option (ℕ × Heap) → Option (ℕ × Heap)
return_fit none = none
return_fit (some (block, h)) = some (block + header_size, h)

pub fit_grown : ℕ → Option (Bool × Heap) → Option (ℕ × Heap)
unfolding return_fit
fit_grown request_scale none = none
fit_grown request_scale (some (false, h)) = some (0, h)
fit_grown request_scale (some (true, h)) = return_fit (find_fit request_scale h)

-- `return block+1`
pub after_split : ℕ → Option Heap → Option (ℕ × Heap)
after_split block none = none
after_split block (some h) = some (block + header_size, h)

-- Each round of the split makes the scale of the block one less.
pub split_or_grow : ℕ → Option (ℕ × Heap) → Option (ℕ × Heap)
unfolding fit_grown after_split
split_or_grow request_scale none = none
split_or_grow request_scale (some (block, h')) =
    if not (block == 0)
    then after_split block (split_loop (suc (h'.scale block)) block request_scale h')
    else fit_grown request_scale (sbrk_up 1 h')

pub allocate_scale : ℕ → Heap → Option (ℕ × Heap)
unfolding split_or_grow
allocate_scale request_scale h = split_or_grow request_scale (find_fit request_scale h)

-- The returned address is 0 for NULL.
pub allocate : ℕ → Heap → Option (ℕ × Heap)
allocate request_size h =
    if ltb (block_size - header_size) request_size || (request_size == 0)
    then some (0, h)
    else allocate_scale (max (size_to_scale request_size) min_block_scale) h

pub after_free : Option (Bool × Heap) → Option (ℕ × Heap)
after_free none = none
after_free (some (_, h)) = some (0, h)

-- The end of `free`: the merged block goes on its list, and the heap shrinks if it is the last one.
pub release : ℕ → Heap → Option (ℕ × Heap)
unfolding after_free
release block h =
    let h' = add_to_free_list block h in
    if (h'.scale block == max_block_scale) && (h'.current_brk == (block + block_size) % u32_mod)
    then after_free (sbrk_down 1 h')
    else some (0, h')

-- The message about a block that is on a list, or whose links were overwritten.
abbrev pub corrupted : Heap → Heap
corrupted h = record h {
  console = h.console ++ codes "\nBLOCK DATA CORRUPTED. failed to free" ∷ [];
}

pub release_merged : Option (ℕ × Heap) → Option (ℕ × Heap)
unfolding release
release_merged none = none
release_merged (some (block, h)) = release block h

pub free : ℕ → Heap → Option (ℕ × Heap)
unfolding release_merged
free addr h =
    let block = (addr + u32_mod - header_size) % u32_mod in
    if addr == 0
    then some (1, h)
    else (if not (h.next block == block) || not (h.prev block == block)
        then some (1, corrupted h)
        else release_merged (coalesce_block block h))
