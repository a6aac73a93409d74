-- ===== src/Heap/FreeLists.antt =====
-- The invariant of the allocator's free lists (ShompOS/src/memory/heap.c), one for each scale.
pub mod Add
pub mod Remove
use operating_system.Base.{
  ℕ, ◌+◌, ◌*◌, ◌≤◌, ◌<◌, ◌≡◌, ◌≢◌, ◌∙◌, ◌⊎◌, inl, inr, refl, true, false, List, [], ◌∷◌, ◌++◌,
  arith, ◌==◌, has, ◌∈◌, ◌∉◌, Distinct, has-append, ne_of_mem, Bool-cases, if◌then◌else◌,
}
use operating_system.Heap.{
  Heap, slot, heap_lower_bound, max_block_scale, min_block_scale, add_to_free_list,
  remove_from_free_list,
}
use operating_system.Heap.Chain.{
  Chain, Chain-frame, add-Chain, remove-Chain, add_next_frame, add_prev_frame, next-remove,
  prev-remove, remove_next, remove_prev, prev_mem, next_mem,
}

-- The contents of the lists, by scale.
abbrev pub Lists : Type 0
Lists = ℕ → List ℕ

abbrev pub replace : Lists → ℕ → List ℕ → Lists
replace L k xs j = if j == k then xs else L j

-- The scales that have a list.
pub record HasList (k : ℕ) : Type 0 where
  pub least : min_block_scale ≤ k
  pub largest : k ≤ max_block_scale

pub record IsMember (h : Heap) (k b : ℕ) : Type 0 where
  pub above : heap_lower_bound ≤ b
  pub scale : h.scale b ≡ k
  pub free : h.is_free b ≡ true

-- Each list is linked both ways, holds no block twice, and holds free blocks of its scale only.
pub record FreeLists (h : Heap) (L : Lists) : Type 0 where
  pub below : h.free_list + 128 ≤ heap_lower_bound
  pub chain : (k : ℕ) → HasList k → Chain h (slot h k) (L k)
  pub distinct : (k : ℕ) → HasList k → Distinct (L k)
  pub member : (k b : ℕ) → HasList k → b ∈ L k → IsMember h k b

pub not_mem_of : (a : ℕ) (xs : List ℕ) → ((b : ℕ) → b ∈ xs → a ≢ b) → a ∉ xs
not_mem_of a [] h = refl
not_mem_of a (x ∷ xs) h = ground (arith, h x, not_mem_of a xs (λ b m. h b (ground arith)))

module _ {h : Heap} {L : Lists} (f : FreeLists h L) where
  pub slot-not_mem : (j k : ℕ) → HasList j → HasList k → slot h j ∉ L k
  slot-not_mem j k hj hk =
      not_mem_of (slot h j) (L k) λ b m. ground (arith, f.member k b hk m, f.below)

  -- Nodes of different lists differ, the heads included.
  pub ne_of_lists :
      (j k a b : ℕ)
      → HasList j
      → HasList k
      → j ≢ k
      → a ∈ (slot h j ∷ L j)
      → b ∈ (slot h k ∷ L k)
      → a ≢ b
  ne_of_lists j k a b hj hk ne ma mb = ground (arith, f.member j a hj, f.member k b hk, f.below)

  pub first_mem : (k : ℕ) → HasList k → h.next (slot h k) ∈ (slot h k ∷ L k)
  first_mem k hk = go (L k) (f.chain k hk)
    where
      go : (xs : List ℕ) → Chain h (slot h k) xs → h.next (slot h k) ∈ (slot h k ∷ xs)
      go [] c = ground arith
      go (x ∷ xs) c = ground arith
