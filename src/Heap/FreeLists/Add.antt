-- ===== src/Heap/FreeLists/Add.antt =====
-- `__blkmngr_add_to_free_list` of ShompOS/src/memory/heap.c keeps the free lists.
use operating_system.Base.{
  ℕ, ◌≤◌, ◌≡◌, ◌≢◌, sym, inl, inr, true, ◌∷◌, arith, ◌==◌, ==_iff, ◌∈◌, ◌∉◌, ne_of_mem, Bool-cases,
  if◌then◌else◌,
}
use mathlib.Core.Path.{subst}
use operating_system.Heap.{Heap, slot, heap_lower_bound, add_to_free_list}
use operating_system.Heap.Chain.{Chain, Chain-frame, add-Chain, add_next_frame, add_prev_frame}
use operating_system.Heap.FreeLists.{
  Lists, replace, HasList, FreeLists, slot-not_mem, ne_of_lists, first_mem,
}

module _ (b : ℕ) (h : Heap) where
  pub slot-add : (k : ℕ) → slot (add_to_free_list b h) k ≡ slot h k
  unfolding add_to_free_list
  slot-add k = ground arith

  pub scale-add : (a : ℕ) → (add_to_free_list b h).scale a ≡ h.scale a
  unfolding add_to_free_list
  scale-add a = ground arith

  pub is_free-add :
      (a : ℕ) → (add_to_free_list b h).is_free a ≡ (if a == b then true else h.is_free a)
  unfolding add_to_free_list
  is_free-add a = ground arith

  pub free_list-add : (add_to_free_list b h).free_list ≡ h.free_list
  unfolding add_to_free_list
  free_list-add = ground arith

  pub brk-add : (add_to_free_list b h).current_brk ≡ h.current_brk
  unfolding add_to_free_list
  brk-add = ground arith

module _ {h : Heap} {L : Lists} (f : FreeLists h L) (b : ℕ) (above : heap_lower_bound ≤ b)
    (hb : HasList (h.scale b)) (out : b ∉ L (h.scale b)) where
  -- the block is on no other list, since the others hold other scales
  b-not_mem : (k a : ℕ) → HasList k → a ∈ L k → a ≢ b
  b-not_mem k a hk m e = elim (Bool-cases (k == h.scale b)) [
    | inl same ↦ ne_of_mem (L k) m (ground (arith, out)) e
    | inr other ↦ ground (arith, f.member k a hk m)
  ]

  off : (k a : ℕ) → HasList k → a ∈ (slot h k ∷ L k) → a ≢ b
  off k a hk m = ground (arith, b-not_mem k a hk, f.below)

  Chain-same : Chain (add_to_free_list b h) (slot h (h.scale b)) (b ∷ L (h.scale b))
  Chain-same = add-Chain b h (L (h.scale b)) (f.chain (h.scale b) hb) (
    ground (arith, f.below),
    (slot-not_mem f (h.scale b) (h.scale b) hb hb, f.distinct (h.scale b) hb),
  )

  Chain-other : (k : ℕ) → HasList k → k ≢ h.scale b → Chain (add_to_free_list b h) (slot h k) (L k)
  Chain-other k hk ne =
      Chain-frame h (add_to_free_list b h) (slot h k) (L k)
        (λ a m.
          add_next_frame b h a (off k a hk m)
            (ne_of_lists f k (h.scale b) a (slot h (h.scale b)) hk hb ne m (ground arith)))
        (λ a m.
          let m' : a ∈ (slot h k ∷ L k) = ground arith in
          add_prev_frame b h a (off k a hk m') (
            ne_of_lists f k (h.scale b) a (h.next (slot h (h.scale b))) hk hb ne m'
              (first_mem f (h.scale b) hb)))
        (f.chain k hk)

  -- On well-formed free lists `add_to_free_list` of a block above the heap's lower bound, whose
  -- scale has a list that does not hold it yet, puts it in front of that list; no other list
  -- changes, and the lists are well-formed.
  pub add-FreeLists : FreeLists (add_to_free_list b h) (replace L (h.scale b) (b ∷ L (h.scale b)))
  add-FreeLists = record {
    below = rw (free_list-add b h) f.below;
    chain = λ k hk. rw (slot-add b h) (elim (Bool-cases (k == h.scale b)) [
      | inl same ↦ rw same (
          subst (λ j. Chain (add_to_free_list b h) (slot h j) (b ∷ L (h.scale b)))
            (sym ((==_iff k (h.scale b)).0 same)) Chain-same)
      | inr other ↦ rw other (Chain-other k hk (ground arith))
    ]);
    distinct = λ k hk. elim (Bool-cases (k == h.scale b)) [
      | inl same ↦ rw same (out, f.distinct (h.scale b) hb)
      | inr other ↦ rw other (f.distinct k hk)
    ];
    member = λ k a hk m. record {
      above = ground (arith, f.member k a hk);
      scale = ground (arith, f.member k a hk, scale-add b h a);
      free = ground (arith, f.member k a hk, is_free-add b h a);
    };
  }

  -- The links of all that is not in the list of its scale, nor its head, are as they were.
  pub add_frame :
      (a : ℕ)
      → a ≢ b
      → a ∉ (slot h (h.scale b) ∷ L (h.scale b))
      → ((add_to_free_list b h).next a ≡ h.next a) × ((add_to_free_list b h).prev a ≡ h.prev a)
  add_frame a ne out = (
    add_next_frame b h a ne (ground (arith, out)),
    add_prev_frame b h a ne (λ e.
        ne_of_mem (slot h (h.scale b) ∷ L (h.scale b)) (first_mem f (h.scale b) hb) out (sym e)),
  )
