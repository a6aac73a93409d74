-- ===== src/Heap/FreeLists/Remove.antt =====
-- `__blkmngr_remove_from_free_list` of ShompOS/src/memory/heap.c keeps the free lists.
use operating_system.Base.{
  ℕ, ◌≡◌, ◌≢◌, sym, inl, inr, false, List, [], ◌∷◌, ◌++◌, arith, ◌==◌, ==_iff, ◌∈◌, ◌∉◌, Distinct,
  has-append, ne_of_mem, Bool-cases, if◌then◌else◌,
}
use mathlib.Core.Path.{subst}
use operating_system.Heap.{Heap, slot, remove_from_free_list}
use operating_system.Heap.Chain.{
  Chain, Chain-frame, remove-Chain, next-remove, prev-remove, remove_next, remove_prev, prev_mem,
  next_mem,
}
use operating_system.Heap.FreeLists.{
  Lists, replace, HasList, IsMember, FreeLists, slot-not_mem, ne_of_lists,
}

module _ (b : ℕ) (h : Heap) where
  pub slot-remove : (k : ℕ) → slot (remove_from_free_list b h) k ≡ slot h k
  unfolding remove_from_free_list
  slot-remove k = ground arith

  pub scale-remove : (a : ℕ) → (remove_from_free_list b h).scale a ≡ h.scale a
  unfolding remove_from_free_list
  scale-remove a = ground arith

  pub is_free-remove :
      (a : ℕ) → (remove_from_free_list b h).is_free a ≡ (if a == b then false else h.is_free a)
  unfolding remove_from_free_list
  is_free-remove a = ground arith

  pub free_list-remove : (remove_from_free_list b h).free_list ≡ h.free_list
  unfolding remove_from_free_list
  free_list-remove = ground arith

  pub brk-remove : (remove_from_free_list b h).current_brk ≡ h.current_brk
  unfolding remove_from_free_list
  brk-remove = ground arith

-- A list without one of its members.
Distinct-remove :
    (xs : List ℕ) (b : ℕ) (ys : List ℕ) → Distinct (xs ++ b ∷ ys) → Distinct (xs ++ ys)
Distinct-remove [] b ys d = d.1
Distinct-remove (x ∷ xs) b ys d =
    (ground (arith, has-append x xs ys, has-append x xs (b ∷ ys)), Distinct-remove xs b ys d.1)

pub not_mem-remove : (xs : List ℕ) (b : ℕ) (ys : List ℕ) → Distinct (xs ++ b ∷ ys) → b ∉ (xs ++ ys)
not_mem-remove [] b ys d = d.0
not_mem-remove (x ∷ xs) b ys d =
    ground (arith, has-append x xs (b ∷ ys), not_mem-remove xs b ys d.1)

pub mem-remove : (a : ℕ) (xs : List ℕ) (b : ℕ) (ys : List ℕ) → a ∈ (xs ++ ys) → a ∈ (xs ++ b ∷ ys)
mem-remove a xs b ys m = ground (arith, has-append a xs ys, has-append a xs (b ∷ ys))

mem_middle : (xs : List ℕ) (b : ℕ) (ys : List ℕ) → b ∈ (xs ++ b ∷ ys)
mem_middle xs b ys = ground (arith, has-append b xs (b ∷ ys))

module _ {h : Heap} {L : Lists} (f : FreeLists h L) (k b : ℕ) (xs ys : List ℕ) (hk : HasList k)
    (at : L k ≡ xs ++ b ∷ ys) where
  pub Distinct-at : Distinct (xs ++ b ∷ ys)
  Distinct-at = subst Distinct at (f.distinct k hk)

  Chain-at : Chain h (slot h k) (xs ++ b ∷ ys)
  Chain-at = subst (Chain h (slot h k)) at (f.chain k hk)

  b_mem : b ∈ L k
  b_mem = subst (λ l. b ∈ l) (sym at) (mem_middle xs b ys)

  prev_in : h.prev b ∈ (slot h k ∷ L k)
  prev_in =
      rw at
        (ground (arith, prev_mem h (slot h k) b xs ys Chain-at, has-append (h.prev b) xs (b ∷ ys)))

  next_in : h.next b ∈ (slot h k ∷ L k)
  next_in = rw at (elim (next_mem h (slot h k) b xs ys Chain-at) [
    | inl last ↦
        subst (λ n. n ∈ (slot h k ∷ (xs ++ b ∷ ys))) (sym last) (ground (arith, mem_middle xs b ys))
    | inr later ↦ ground (arith, has-append (h.next b) xs (b ∷ ys))
  ])

  Chain-same : Chain (remove_from_free_list b h) (slot h k) (xs ++ ys)
  Chain-same =
      remove-Chain b h (slot h k) xs ys Chain-at
        (subst (λ l. slot h k ∉ l) at (slot-not_mem f k k hk hk), Distinct-at)

  Chain-other : (j : ℕ) → HasList j → j ≢ k → Chain (remove_from_free_list b h) (slot h j) (L j)
  unfolding remove_next remove_prev
  Chain-other j hj ne =
      Chain-frame h (remove_from_free_list b h) (slot h j) (L j)
        (λ a m. ground (
          arith,
          next-remove b h a,
          ne_of_lists f j k a b hj hk ne m (ground (arith, b_mem)),
          ne_of_lists f j k a (h.prev b) hj hk ne m prev_in,
        ))
        (λ a m.
          let m' : a ∈ (slot h j ∷ L j) = ground arith in
          ground (
            arith,
            prev-remove b h a,
            ne_of_lists f j k a b hj hk ne m' (ground (arith, b_mem)),
            ne_of_lists f j k a (h.next b) hj hk ne m' next_in,
          ))
        (f.chain j hj)

  -- On well-formed free lists `remove_from_free_list` of a block takes it out of its list,
  -- wherever it is in it; the order of the others is kept, no other list changes, and the lists
  -- are well-formed.
  pub remove-FreeLists : FreeLists (remove_from_free_list b h) (replace L k (xs ++ ys))
  remove-FreeLists = record {
    below = rw (free_list-remove b h) f.below;
    chain = λ j hj. rw (slot-remove b h) (elim (Bool-cases (j == k)) [
      | inl same ↦ rw same (
          subst (λ i. Chain (remove_from_free_list b h) (slot h i) (xs ++ ys))
            (sym ((==_iff j k).0 same)) Chain-same)
      | inr other ↦ rw other (Chain-other j hj (ground arith))
    ]);
    distinct = λ j hj. elim (Bool-cases (j == k)) [
      | inl same ↦ rw same (Distinct-remove xs b ys Distinct-at)
      | inr other ↦ rw other (f.distinct j hj)
    ];
    member = λ j a hj m. elim (Bool-cases (j == k)) [
      | inl same ↦
          let m' : a ∈ (xs ++ ys) = rw same at m in
          let old : a ∈ L k = rw at (mem-remove a xs b ys m') in
          kept j a hj (ground (arith, old))
            (ne_of_mem (xs ++ ys) m' (not_mem-remove xs b ys Distinct-at))
      | inr other ↦
          let m' : a ∈ L j = rw other at m in
          kept j a hj m'
            (ne_of_lists f j k a b hj hk (ground arith) (ground arith) (ground (arith, b_mem)))
    ];
  }
    where
      kept : (j a : ℕ) → HasList j → a ∈ L j → a ≢ b → IsMember (remove_from_free_list b h) j a
      kept j a hj m ne = record {
        above = ground (arith, f.member j a hj);
        scale = ground (arith, f.member j a hj, scale-remove b h a);
        free = ground (arith, f.member j a hj, is_free-remove b h a);
      }

  -- Afterwards the block is linked to itself and not free, as `free` expects of an allocated block.
  pub remove_self :
      ((remove_from_free_list b h).next b ≡ b)
      × ((remove_from_free_list b h).prev b ≡ b)
      × ((remove_from_free_list b h).is_free b ≡ false)
      × ((remove_from_free_list b h).scale b ≡ k)
  unfolding remove_next remove_prev
  remove_self = ground (
    arith,
    next-remove b h b,
    prev-remove b h b,
    is_free-remove b h b,
    scale-remove b h b,
    f.member k b hk b_mem,
  )

  -- The links of all that is not in the list, nor its head, are as they were.
  pub remove_frame :
      (a : ℕ)
      → a ≢ b
      → a ∉ (slot h k ∷ L k)
      → ((remove_from_free_list b h).next a ≡ h.next a)
        × ((remove_from_free_list b h).prev a ≡ h.prev a)
  unfolding remove_next remove_prev
  remove_frame a ne out = ground (
    arith,
    next-remove b h a,
    prev-remove b h a,
    ne_of_mem {b = a} (slot h k ∷ L k) prev_in,
    ne_of_mem {b = a} (slot h k ∷ L k) next_in,
  )
