-- ===== src/Heap/Api/Refine/Start.antt =====
-- `init_heap` of ShompOS/src/memory/heap.c: the heap starts with one free block and none given out.
use operating_system.Base.{
  ℕ, zero, suc, ◌+◌, ◌-◌, ◌≤◌, ◌<◌, ◌≡◌, inl, inr, refl, false, [], some, arith, ◌==◌, Bool-cases,
}
use operating_system.Heap.{
  Heap, heap_lower_bound, max_block_scale, min_block_scale, u32_mod, slot, set_next, set_prev,
}
use operating_system.Heap.Api.{block_size, grow, init_lists, heap_of, init_heap}
use operating_system.Heap.Api.Grow.{brk-grow, sbrk_up-grow}
use operating_system.Heap.Api.Refine.{Represents, grow-Represents}
use operating_system.Heap.FreeLists.{Lists}
use operating_system.Heap.Blocks.{no_blocks}

pub empty_lists : Lists
empty_lists k = []

abbrev empty_list : ℕ → Heap → Heap
empty_list i h = set_next (slot h i) (slot h i) (set_prev (slot h i) (slot h i) h)

-- The other fields stay.
init_lists_frame :
    (rounds i : ℕ) (h : Heap)
    → ((init_lists rounds i h).current_brk ≡ h.current_brk)
      × ((init_lists rounds i h).free_list ≡ h.free_list)
      × ((init_lists rounds i h).is_free ≡ h.is_free)
unfolding init_lists
init_lists_frame zero i h = (refl, refl, refl)
init_lists_frame (suc rounds) i h = init_lists_frame rounds (i + 1) (empty_list i h)

-- A node that points to itself goes on doing so.
init_lists-kept : (rounds i p : ℕ) (h : Heap) → h.next p ≡ p → (init_lists rounds i h).next p ≡ p
unfolding init_lists
init_lists-kept zero i p h e = e
init_lists-kept (suc rounds) i p h e =
    init_lists-kept rounds (i + 1) p (empty_list i h) (ground arith)

init_lists-empty :
    (rounds i j : ℕ) (h : Heap)
    → i ≤ j
    → j < i + rounds
    → (init_lists rounds i h).next (slot h j) ≡ slot h j
unfolding init_lists
init_lists-empty zero i j h le lt = absurd (omega arith)
init_lists-empty (suc rounds) i j h le lt = elim (Bool-cases (i == j)) [
  | inl same ↦ init_lists-kept rounds (i + 1) (slot h j) (empty_list i h) (ground arith)
  | inr other ↦ init_lists-empty rounds (i + 1) j (empty_list i h) (ground arith) (omega arith)
]

module _ (heap_addr : ℕ) (h : Heap) (below : h.free_list + 128 ≤ heap_lower_bound)
    (low : heap_lower_bound ≤ heap_addr) (room : heap_addr + block_size < u32_mod)
    (unused : (a : ℕ) → h.is_free a ≡ false) where
  abbrev linked : Heap
  linked =
      init_lists (max_block_scale + 1 - min_block_scale) min_block_scale
        (record h { current_brk = heap_addr })

  linked-Represents : Represents linked no_blocks
  linked-Represents =
      let (brk, list, free) =
        init_lists_frame (max_block_scale + 1 - min_block_scale) min_block_scale
          (record h { current_brk = heap_addr }) in
      record {
        free_blocks = λ k. [];
        blocks = record {
          lists = record {
            below = rw list below;
            chain = λ k hk. rw list (
                init_lists-empty (max_block_scale + 1 - min_block_scale) min_block_scale k
                  (record h { current_brk = heap_addr }) hk.least (omega (arith, hk.largest)));
            distinct = λ k hk. tt;
            member = λ k b hk m. cc;
          };
          marked = λ a e. cc (unused a);
          given = λ k b hk m. cc;
          within = λ k a hk m. elim m [ inl x ↦ cc | inr x ↦ cc ];
          apart = λ j k a b hj hk m n. elim m [ inl x ↦ cc | inr x ↦ cc ];
        };
        low = omega (arith, brk);
        high = omega (arith, brk);
      }

  -- On memory that marks no header as free, with the heads of the free lists below the heap's
  -- lower bound, at an address from the heap's lower bound on that leaves room for a block,
  -- `init_heap` returns a heap that consists of blocks, none of them given out, and ends one block
  -- of the largest scale behind that address.
  pub init_heap-Represents :
      (g : Heap) × (init_heap heap_addr h ≡ some g)
      × (g.current_brk ≡ heap_addr + block_size)
      × Represents g no_blocks
  unfolding init_heap heap_of
  init_heap-Represents =
      let r = linked-Represents in
      let (brk, _, _) =
        init_lists_frame (max_block_scale + 1 - min_block_scale) min_block_scale
          (record h { current_brk = heap_addr }) in
      let fits : linked.current_brk + block_size < u32_mod = omega (arith, brk) in
      (
        grow linked,
        rw (sbrk_up-grow linked fits) refl,
        omega (arith, brk-grow linked, brk),
        grow-Represents r fits,
      )
