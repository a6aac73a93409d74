-- ===== src/Heap.antt =====
-- The buddy allocator, ShompOS/src/memory/heap.c with ShompOS/inc/memory/heap.h, and the list tests
-- of ShompOS/src/fake_libc/fake_libc.c.
--
-- Headers live at addresses. A `list_header` and a `block_header` at one address are one header, as
-- the casts of the source have it: each field is a function of the address. An address is a number,
-- and NULL is 0. Pointer arithmetic wraps at 32 bits.
pub mod Api
pub mod Debug
pub mod Chain
pub mod FreeLists
pub mod Fit
pub mod Split
pub mod Size
pub mod Blocks
use operating_system.Base.{
  ℕ, zero, suc, ◌+◌, ◌-◌, ◌*◌, ◌/◌, ◌%◌, ◌^◌, Bool, true, false, not, ◌&&◌, ◌||◌, List, Option,
  none, some, Text, ltb, leb, ◌==◌, if◌then◌else◌,
}

abbrev pub heap_lower_bound : ℕ
heap_lower_bound = 0x4000000

abbrev pub max_block_scale : ℕ
max_block_scale = 0x0F

abbrev pub min_block_scale : ℕ
min_block_scale = 0x04

-- `sizeof(block_header)`, two pointers and one packed byte
abbrev pub header_size : ℕ
header_size = 9

abbrev pub u32_mod : ℕ
u32_mod = 2 ^ 32

-- `free_list` is where the linker puts the static array of list heads.
pub record Heap : Type 0 where
  pub free_list : ℕ
  pub current_brk : ℕ
  pub next : ℕ → ℕ
  pub prev : ℕ → ℕ
  pub is_free : ℕ → Bool
  pub scale : ℕ → ℕ
  pub console : List Text

abbrev pub update {ℓ} : {A : Type ℓ} → (ℕ → A) → ℕ → A → ℕ → A
update f p v q = if q == p then v else f q

abbrev pub set_next : ℕ → ℕ → Heap → Heap
set_next p q h = record h { next = update h.next p q }

abbrev pub set_prev : ℕ → ℕ → Heap → Heap
set_prev p q h = record h { prev = update h.prev p q }

abbrev pub set_free : ℕ → Bool → Heap → Heap
set_free p b h = record h { is_free = update h.is_free p b }

-- the field has seven bits
abbrev pub set_scale : ℕ → ℕ → Heap → Heap
set_scale p s h = record h { scale = update h.scale p (s % 128) }

-- `&free_list[i]`
abbrev pub slot : Heap → ℕ → ℕ
slot h i = h.free_list + 8 * i

abbrev pub is_end_of_list : Heap → ℕ → Bool
is_end_of_list h node = h.next node == node

-- the number of bits up to the highest one, within 32 bits: 32 less the leading zeros
pub bit_length : ℕ → ℕ → ℕ
bit_length zero n = 0
bit_length (suc f) n = let longer = suc (bit_length f (n / 2)) in if n == 0 then 0 else longer

-- `__builtin_clz`
pub clz : ℕ → ℕ
clz n = 32 - bit_length 32 n

pub size_to_scale : ℕ → ℕ
size_to_scale size = 32 - clz (((size + header_size) % u32_mod + u32_mod - 1) % u32_mod)

pub add_to_free_list : ℕ → Heap → Heap
add_to_free_list block h = set_free block true (set_prev block list (set_next list block linked))
  where
    list : ℕ
    list = slot h (h.scale block)

    linked : Heap
    linked =
        if is_end_of_list h list
        then set_next block block h
        else set_prev (h.next list) block (set_next block (h.next list) h)

pub remove_from_free_list : ℕ → Heap → Heap
remove_from_free_list block h =
    set_free block false (set_next block block (set_prev block block unlinked))
  where
    unlinked : Heap
    unlinked =
        if is_end_of_list h block
        then set_next (h.prev block) (h.prev block) h
        else set_prev (h.next block) (h.prev block) (set_next (h.prev block) (h.next block) h)

-- The first scale from `search_scale` on whose list is not empty, or the largest scale; `none` means
-- that the rounds ran out.
pub search : ℕ → ℕ → Heap → Option ℕ
search zero search_scale h = none
search (suc rounds) search_scale h =
    let further = search rounds (search_scale + 1) h in
    if is_end_of_list h (slot h search_scale) && ltb search_scale max_block_scale
    then further
    else some search_scale

-- The end of the search: `curr` is the head of the list at which it stopped. The best fit is 0 where
-- none is found.
pub take_first : ℕ → Heap → ℕ × Heap
take_first curr h =
    if not (is_end_of_list h curr) && not (h.next curr == 0)
    then (h.next curr, set_free (h.next curr) false (remove_from_free_list (h.next curr) h))
    else (0, h)

pub take_found : Option ℕ → Heap → Option (ℕ × Heap)
take_found none h = none
take_found (some search_scale) h = some (take_first (slot h search_scale) h)

-- The loop is over scales up to `max_block_scale`.
pub find_fit : ℕ → Heap → Option (ℕ × Heap)
unfolding take_found
find_fit request_scale h = take_found (search (max_block_scale + 1) request_scale h) h

pub split_block : ℕ → Heap → Heap
split_block block h =
    if (block == 0) || leb (h.scale block) min_block_scale
    then h
    else add_to_free_list new_block (set_scale new_block (shrunk.scale block) shrunk)
  where
    shrunk : Heap
    shrunk = set_scale block (h.scale block - 1) h

    new_block : ℕ
    new_block = (block + 2 ^ shrunk.scale block) % u32_mod

-- `while (block->scale > request_scale)`; `none` means that the rounds ran out.
pub split_loop : ℕ → ℕ → ℕ → Heap → Option Heap
split_loop zero block request_scale h = none
split_loop (suc rounds) block request_scale h =
    let rest = split_loop rounds block request_scale (split_block block h) in
    if ltb request_scale (h.scale block) then rest else some h

-- the offset of the buddy is negative
abbrev pub is_upper : ℕ → Heap → Bool
is_upper block h =
    not ((block + u32_mod - heap_lower_bound) % u32_mod % 2 ^ (h.scale block + 1) == 0)

pub buddy_of : ℕ → Heap → ℕ
buddy_of block h =
    if is_upper block h
    then (block + u32_mod - 2 ^ h.scale block) % u32_mod
    else (block + 2 ^ h.scale block) % u32_mod

-- `while (buddy->is_free && ...)`. The merged block and the heap; `none` means that the rounds ran
-- out.
pub coalesce_loop : ℕ → ℕ → Heap → Option (ℕ × Heap)
coalesce_loop zero curr h = none
coalesce_loop (suc rounds) curr h =
    let merged = if is_upper curr h then buddy_of curr h else curr in
    let h' = remove_from_free_list (buddy_of curr h) h in
    let rest = coalesce_loop rounds merged (set_scale merged (h'.scale merged + 1) h') in
    if h.is_free (buddy_of curr h)
      && (h.scale (buddy_of curr h) == h.scale curr)
      && ltb (h.scale curr) max_block_scale
    then rest
    else some (curr, h)

-- Each round makes the block one scale larger, up to `max_block_scale`.
pub coalesce_block : ℕ → Heap → Option (ℕ × Heap)
unfolding coalesce_loop
coalesce_block block h = coalesce_loop 16 block h
