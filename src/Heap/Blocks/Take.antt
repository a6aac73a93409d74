-- ===== src/Heap/Blocks/Take.antt =====
-- A block that leaves its free list (ShompOS/src/memory/heap.c) is in hand.
use operating_system.Base.{
  ℕ, ◌≡◌, ◌≢◌, inl, inr, sym, ◌∙◌, true, List, ◌∷◌, ◌++◌, arith, ◌==◌, ==_iff, ◌∈◌, has-append,
  ne_of_mem, Bool-cases,
}
use mathlib.Core.Path.{subst}
use operating_system.Heap.{Heap, remove_from_free_list}
use operating_system.Heap.FreeLists.{Lists, replace, HasList}
use operating_system.Heap.FreeLists.Remove.{
  remove-FreeLists, remove_self, remove_frame, is_free-remove, scale-remove, not_mem-remove,
  mem-remove, Distinct-at,
}
use operating_system.Heap.Blocks.{Given, IsBlock, IsGiven, Blocks, Hand, not_mem-free, not_slot}

module _ {h : Heap} {L : Lists} {A : Given} {top : ℕ} (v : Blocks h L A top) (k b : ℕ)
    (xs ys : List ℕ) (hk : HasList k) (at : L k ≡ xs ++ b ∷ ys) where
  member_b : b ∈ L k
  member_b = rw at (ground (arith, has-append b xs (b ∷ ys)))

  ne-given : (j a : ℕ) → HasList j → A j a ≡ true → a ≢ b
  ne-given j a hj m e = ground (arith, v.given j a hj m, v.lists.member k b hk member_b)

  -- A block of the other lists, or of the rest of this one, was a block and is not the one taken.
  still : (j a : ℕ) → HasList j → a ∈ replace L k (xs ++ ys) j → (a ∈ L j) × (a ≢ b)
  still j a hj m = elim (Bool-cases (j == k)) [
    | inl same ↦
        let m' : a ∈ (xs ++ ys) = rw same at m in
        let here : a ∈ L k = rw at (mem-remove a xs b ys m') in
        (
          subst (λ i. a ∈ L i) (sym ((==_iff j k).0 same)) here,
          ne_of_mem (xs ++ ys) m' (not_mem-remove xs b ys (Distinct-at v.lists k b xs ys hk at)),
        )
    | inr other ↦
        let m' : a ∈ L j = rw other at m in
        (m', λ e. ground (arith, v.lists.member j a hj m', v.lists.member k b hk member_b))
  ]

  kept : (j a : ℕ) → a ∈ L j → a ≢ b → a ∈ replace L k (xs ++ ys) j
  kept j a m ne = elim (Bool-cases (j == k)) [
    | inl same ↦
        let m' : a ∈ (xs ++ b ∷ ys) =
          subst (λ l. a ∈ l) at (subst (λ i. a ∈ L i) ((==_iff j k).0 same) m) in
        rw same (ground (arith, has-append a xs ys, has-append a xs (b ∷ ys)))
    | inr other ↦ rw other m
  ]

  pub IsBlock-still :
      (j a : ℕ) → HasList j → IsBlock (replace L k (xs ++ ys)) A j a → IsBlock L A j a × (a ≢ b)
  IsBlock-still j a hj (inl m) = let (m', ne) = still j a hj m in (inl m', ne)
  IsBlock-still j a hj (inr m) = (inr m, ne-given j a hj m)

  IsGiven-after : (j a : ℕ) → HasList j → A j a ≡ true → IsGiven (remove_from_free_list b h) j a
  IsGiven-after j a hj m =
      let g = v.given j a hj m in
      let (n, p) =
        remove_frame v.lists k b xs ys hk at a (ne-given j a hj m)
          (ground (arith, not_mem-free v.lists a g.free k hk, not_slot v.lists a g.above k hk)) in
      record {
        above = g.above;
        scale = scale-remove b h a ∙ g.scale;
        free = ground (arith, is_free-remove b h a, g.free);
        next = n ∙ g.next;
        prev = p ∙ g.prev;
      }

  marked_after :
      (a : ℕ)
      → (remove_from_free_list b h).is_free a ≡ true
      → HasList ((remove_from_free_list b h).scale a)
        × (a ∈ replace L k (xs ++ ys) ((remove_from_free_list b h).scale a))
  marked_after a e = elim (Bool-cases (a == b)) [
    | inl same ↦ ground (arith, is_free-remove b h a)
    | inr other ↦
        let (hs, m) = v.marked a (ground (arith, is_free-remove b h a)) in
        rw (scale-remove b h a) (hs, kept (h.scale a) a m (ground arith))
  ]

  pub take-Hand : Hand (remove_from_free_list b h) (replace L k (xs ++ ys)) A top b k
  take-Hand = record {
    blocks = record {
      lists = remove-FreeLists v.lists k b xs ys hk at;
      marked = marked_after;
      given = IsGiven-after;
      within = λ j a hj m. v.within j a hj (IsBlock-still j a hj m).0;
      apart = λ i j a c hi hj m n.
          v.apart i j a c hi hj (IsBlock-still i a hi m).0 (IsBlock-still j c hj n).0;
    };
    has_list = hk;
    header =
        let (_, _, f, s) = remove_self v.lists k b xs ys hk at in
        record { above = (v.lists.member k b hk member_b).above; scale = s; free = f };
    room = v.within k b hk (inl member_b);
    off = λ j a hj m.
        let (old, ne) = IsBlock-still j a hj m in
        elim (v.apart j k a b hj hk old (inl member_b)) [
          | inl (_, e) ↦ absurd (ne e)
          | inr off ↦ off
        ];
  }
