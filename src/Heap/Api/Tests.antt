-- ===== src/Heap/Api/Tests.antt =====
-- Runs of the allocator of ShompOS/src/memory/heap.c, and its theorems at concrete heaps.
use operating_system.Base.{
  ℕ, ◌+◌, ◌*◌, ◌^◌, ◌≤◌, ◌<◌, ◌≡◌, ◌⊎◌, inl, inr, refl, ◌∙◌, sym, true, false, List, [], ◌∷◌, some,
  arith, ◌∈◌,
}
use mathlib.Core.Path.{subst}
use operating_system.Heap.{
  Heap, size_to_scale, find_fit, heap_lower_bound, max_block_scale, min_block_scale, header_size,
  set_scale,
}
use operating_system.Heap.FreeLists.{Lists, replace, HasList, FreeLists}
use operating_system.Heap.Fit.{BestFit, find_fit-BestFit}
use operating_system.Heap.Size.{size_to_scale_bounds}
use operating_system.Heap.Split.{FreeLists-set_scale}
use operating_system.Heap.Api.{allocate, free, grow, block_size, init_heap}
use operating_system.Heap.Api.Allocate.{IsApart, Allocated, allocate-Allocated}
use operating_system.Heap.Api.Grow.{brk-grow, grow-FreeLists, allocate-grown}
use operating_system.Heap.Api.Total.{allocate-total}
use operating_system.Heap.Api.Free.{free-total, IsBelow}
use operating_system.Heap.Blocks.{Given, no_blocks, give, take_back, Apart}
use operating_system.Heap.Api.Refine.{Represents}
use operating_system.Heap.Api.Refine.Allocate.{MayRefuse, IsServed, allocate-IsServed}
use operating_system.Heap.Api.Refine.Free.{free-Represents}
use operating_system.Heap.Api.Refine.Start.{init_heap-Represents}
use operating_system.Heap.Api.Refine.Runs.{Call, Calls, Calls-Apart}

-- A heap whose lists are all empty.
abbrev pub blank : Heap
blank = record {
  free_list = 0x1000;
  current_brk = heap_lower_bound;
  next = λ a. a;
  prev = λ a. a;
  is_free = λ _. false;
  scale = λ _. 0;
  console = [];
}

abbrev pub no_lists : Lists
no_lists k = []

pub blank-FreeLists : FreeLists blank no_lists
blank-FreeLists = record {
  below = omega arith;
  chain = λ k hk. refl;
  distinct = λ k hk. tt;
  member = λ k b hk m. cc;
}

-- The empty heap after it grew by its first block.
abbrev one_block : Heap
one_block = grow blank

abbrev one_list : Lists
one_list = replace no_lists max_block_scale (heap_lower_bound ∷ [])

one_block-FreeLists : FreeLists one_block one_list
one_block-FreeLists = grow-FreeLists blank-FreeLists (omega arith) (λ k hk. refl)

one_list-first : (k a : ℕ) → a ∈ one_list k → (a ≡ heap_lower_bound) × (k ≡ max_block_scale)
one_list-first k a m = ground arith

one_list-IsApart : IsApart one_list
one_list-IsApart = record {
  inside = λ k a hk m. let (at, e) = one_list-first k a m in omega (arith, at, bound k e);
  disjoint = λ j k a b hj hk m n.
      let (at_a, e) = one_list-first j a m in
      let (at_b, e') = one_list-first k b n in
      inl (omega (arith, e, e'), omega (arith, at_a, at_b));
}
  where
    bound : (k : ℕ) → k ≡ max_block_scale → 2 ^ k ≤ 0x8000
    bound k e = subst (λ i. 2 ^ i ≤ 0x8000) (sym e) (omega arith)

small_scale : size_to_scale 500 ≤ max_block_scale
small_scale =
    let (_, _, _, largest) = size_to_scale_bounds 500 (omega arith) (omega arith) in largest

size_to_scale_bounds_example :
    (500 + header_size ≤ 2 ^ size_to_scale 500)
    × (2 ^ size_to_scale 500 < 2 * (500 + header_size))
    × (min_block_scale ≤ size_to_scale 500)
    × (size_to_scale 500 ≤ max_block_scale)
size_to_scale_bounds_example = size_to_scale_bounds 500 (omega arith) (omega arith)

allocate-Allocated_example :
    (b : ℕ) × (g : Heap) × (allocate 500 one_block ≡ some (b + header_size, g))
    × Allocated one_block one_list (size_to_scale 500) b g
allocate-Allocated_example =
    allocate-Allocated one_block-FreeLists one_list-IsApart 500 (omega arith) (omega arith)
      (max_block_scale, small_scale, omega arith, λ e. cc)

allocate-grown_example :
    (g : Heap) × (allocate 500 blank ≡ some (heap_lower_bound + header_size, g))
    × (g.scale heap_lower_bound ≡ max_block_scale)
    × (g.current_brk ≡ heap_lower_bound + block_size)
    × FreeLists g no_lists
allocate-grown_example =
    allocate-grown blank-FreeLists (omega arith) (λ k hk. refl) 500 (omega arith) (omega arith)
      (omega arith) (λ j le small. refl)

allocate-total_example :
    (p : ℕ) × (g : Heap) × (allocate 500 one_block ≡ some (p, g))
    × ((g.current_brk ≡ one_block.current_brk)
        ⊎ (g.current_brk ≡ one_block.current_brk + block_size))
allocate-total_example = allocate-total 500 one_block (omega (arith, brk-grow blank))

free-total_example :
    (status : ℕ) × (g : Heap) × (free (heap_lower_bound + header_size) one_block ≡ some (status, g))
    × (status ≤ 1)
    × IsBelow one_block g
free-total_example =
    free-total (heap_lower_bound + header_size) one_block (omega (arith, one_block-brk))
      (omega (arith, one_block-brk))
  where
    one_block-brk : one_block.current_brk ≡ heap_lower_bound + block_size
    one_block-brk = brk-grow blank ∙ omega arith

find_fit-BestFit_example :
    ((find_fit 9 one_block ≡ some (0, one_block))
      × ((j : ℕ) → 9 ≤ j → j ≤ max_block_scale → one_list j ≡ []))
    ⊎ ((s : ℕ) × (b : ℕ) × (rest : List ℕ) × (g : Heap) × (find_fit 9 one_block ≡ some (b, g))
        × BestFit one_block one_list 9 s b rest g)
find_fit-BestFit_example =
    find_fit-BestFit one_block-FreeLists 9 (record { least = omega arith; largest = omega arith })

-- A heap with no block at all.
blank-Represents : Represents blank no_blocks
blank-Represents = record {
  free_blocks = no_lists;
  blocks = record {
    lists = blank-FreeLists;
    marked = λ a e. cc;
    given = λ k b hk m. cc;
    within = λ k a hk m. elim m [ inl x ↦ cc | inr x ↦ cc ];
    apart = λ j k a b hj hk m n. elim m [ inl x ↦ cc | inr x ↦ cc ];
  };
  low = omega arith;
  high = omega arith;
}

-- A heap of one block of the largest scale, which is given out.
abbrev one_given : Heap
one_given =
    set_scale heap_lower_bound max_block_scale
      (record blank { current_brk = heap_lower_bound + block_size })

abbrev the_block : Given
the_block = give heap_lower_bound max_block_scale no_blocks

the_block-only : (k a : ℕ) → the_block k a ≡ true → (k ≡ max_block_scale) × (a ≡ heap_lower_bound)
the_block-only k a m = ground arith

one_given-Represents : Represents one_given the_block
one_given-Represents = record {
  free_blocks = no_lists;
  blocks = record {
    lists =
        FreeLists-set_scale heap_lower_bound max_block_scale (λ k hk. refl)
          (record {
            below = omega arith;
            chain = λ k hk. refl;
            distinct = λ k hk. tt;
            member = λ k b hk m. cc;
          });
    marked = λ a e. cc;
    given = λ k b hk m.
        let (e, e') = the_block-only k b m in
        record {
          above = omega (arith, e');
          scale = ground (arith, e, e');
          free = refl;
          next = refl;
          prev = refl;
        };
    within = λ k a hk m. elim m [
      | inl x ↦ cc
      | inr x ↦
          let (e, e') = the_block-only k a x in
          subst (λ i. a + 2 ^ i ≤ heap_lower_bound + block_size) (sym e) (omega (arith, e'))
    ];
    apart = λ j k a b hj hk m n. elim m [
      | inl x ↦ cc
      | inr x ↦ elim n [
        | inl y ↦ cc
        | inr y ↦ inl (
          omega (arith, the_block-only j a x, the_block-only k b y),
          omega (arith, the_block-only j a x, the_block-only k b y),
        )
      ]
    ];
  };
  low = omega arith;
  high = omega arith;
}

largest_scale : HasList max_block_scale
largest_scale = record { least = omega arith; largest = omega arith }

allocate-IsServed_example :
    (p : ℕ) × (g : Heap) × (allocate 500 one_given ≡ some (p, g))
    × (((p ≡ 0) × (g ≡ one_given) × MayRefuse one_given no_lists 500) ⊎ IsServed the_block 500 p g)
unfolding one_given-Represents
allocate-IsServed_example = allocate-IsServed one_given-Represents 500

free-Represents_example :
    (g : Heap) × (free (heap_lower_bound + header_size) one_given ≡ some (0, g))
    × Represents g (take_back heap_lower_bound max_block_scale the_block)
free-Represents_example =
    free-Represents one_given-Represents max_block_scale heap_lower_bound largest_scale refl

init_heap-Represents_example :
    (g : Heap) × (init_heap heap_lower_bound blank ≡ some g)
    × (g.current_brk ≡ heap_lower_bound + block_size)
    × Represents g no_blocks
init_heap-Represents_example =
    init_heap-Represents heap_lower_bound blank (omega arith) (omega arith) (omega arith)
      (λ a. refl)

-- One call of `allocate`, at a heap with no block.
Calls-Apart_example :
    (g : Heap) × ((((max_block_scale ≡ max_block_scale) × (heap_lower_bound ≡ heap_lower_bound))
        ⊎ Apart heap_lower_bound max_block_scale heap_lower_bound max_block_scale)
      × (heap_lower_bound ≤ heap_lower_bound)
      × (heap_lower_bound + 2 ^ max_block_scale ≤ g.current_brk))
Calls-Apart_example =
    let (g, e, scale, _, _) = allocate-grown_example in
    let m : give heap_lower_bound (g.scale heap_lower_bound) no_blocks max_block_scale
          heap_lower_bound
        ≡ true =
      rw scale refl in
    (
      g,
      Calls-Apart blank-Represents
          (Calls.then_call Calls.done (Call.allocated 500 heap_lower_bound e)) max_block_scale
          max_block_scale heap_lower_bound heap_lower_bound largest_scale largest_scale m m,
    )
