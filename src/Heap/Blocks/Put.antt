-- ===== src/Heap/Blocks/Put.antt =====
-- A block in hand goes on the free list of its scale, or is given out; one that was given out comes
-- back (ShompOS/src/memory/heap.c).
use operating_system.Base.{
  ℕ, ◌+◌, ◌^◌, ◌≤◌, ◌≡◌, ◌≢◌, ◌⊎◌, inl, inr, sym, ◌∙◌, true, false, ◌∷◌, arith, ◌==◌, ==_iff, ◌∈◌,
  ◌∉◌, Bool-cases,
}
use mathlib.Core.Path.{subst}
use operating_system.Heap.{Heap, add_to_free_list, set_scale}
use operating_system.Heap.FreeLists.{Lists, replace, HasList, FreeLists}
use operating_system.Heap.FreeLists.Add.{add-FreeLists, add_frame, is_free-add, scale-add}
use operating_system.Heap.Split.{FreeLists-set_scale, pow2_pos}
use operating_system.Heap.Blocks.{
  Given, give, take_back, IsBlock, Apart, IsGiven, IsFresh-of, Blocks, Hand, not_mem-free, not_slot,
}

-- Two blocks that are apart begin at different addresses.
pub ne_of_Apart : (a j b k : ℕ) → Apart a j b k → a ≢ b
ne_of_Apart a j b k off e = omega (arith, off, e, pow2_pos j, pow2_pos k)

pub Apart-sym : (a j b k : ℕ) → Apart a j b k → Apart b k a j
Apart-sym a j b k (inl x) = inr x
Apart-sym a j b k (inr x) = inl x

module _ {h : Heap} {L : Lists} {A : Given} {top b s : ℕ} (v : Hand h L A top b s) where
  hb : HasList (h.scale b)
  hb = subst HasList (sym v.header.scale) v.has_list

  pub Hand-not_mem : (k : ℕ) → HasList k → b ∉ L k
  Hand-not_mem = not_mem-free v.blocks.lists b v.header.free

  added : FreeLists (add_to_free_list b h) (replace L s (b ∷ L s))
  added =
      subst (λ k. FreeLists (add_to_free_list b h) (replace L k (b ∷ L k))) v.header.scale
        (add-FreeLists v.blocks.lists b v.header.above hb (Hand-not_mem (h.scale b) hb))

  -- A block of the new heap is the one that is put, or was one before.
  pub IsBlock-put :
      (k a : ℕ) → IsBlock (replace L s (b ∷ L s)) A k a → ((k ≡ s) × (a ≡ b)) ⊎ IsBlock L A k a
  IsBlock-put k a (inl m) = ground arith
  IsBlock-put k a (inr m) = inr (inr m)

  Apart-put :
      (j k a c : ℕ)
      → HasList j
      → HasList k
      → ((j ≡ s) × (a ≡ b)) ⊎ IsBlock L A j a
      → ((k ≡ s) × (c ≡ b)) ⊎ IsBlock L A k c
      → ((j ≡ k) × (a ≡ c)) ⊎ Apart a j c k
  Apart-put j k a c hj hk (inl (e, e')) (inl (f, f')) = inl (e ∙ sym f, e' ∙ sym f')
  Apart-put j k a c hj hk (inl (e, e')) (inr n) =
      let off : Apart b s c k = Apart-sym c k b s (v.off k c hk n) in
      inr (subst (λ x. Apart x j c k) (sym e') (subst (λ i. Apart b i c k) (sym e) off))
  Apart-put j k a c hj hk (inr m) (inl (f, f')) =
      inr
        (subst (λ x. Apart a j x k) (sym f') (subst (λ i. Apart a j b i) (sym f) (v.off j a hj m)))
  Apart-put j k a c hj hk (inr m) (inr n) = v.blocks.apart j k a c hj hk m n

  within_put : (k a : ℕ) → HasList k → ((k ≡ s) × (a ≡ b)) ⊎ IsBlock L A k a → a + 2 ^ k ≤ top
  within_put k a hk (inl (e, e')) = subst (λ i. a + 2 ^ i ≤ top) (sym e) (omega (arith, v.room, e'))
  within_put k a hk (inr m) = v.blocks.within k a hk m

  IsGiven-put : (k a : ℕ) → HasList k → A k a ≡ true → IsGiven (add_to_free_list b h) k a
  IsGiven-put k a hk m =
      let g = v.blocks.given k a hk m in
      let ne : a ≢ b = ne_of_Apart a k b s (v.off k a hk (inr m)) in
      let (n, p) = add_frame v.blocks.lists b v.header.above hb (Hand-not_mem (h.scale b) hb) a ne (
        ground (
          arith,
          not_mem-free v.blocks.lists a g.free (h.scale b) hb,
          not_slot v.blocks.lists a g.above (h.scale b) hb,
        )) in
      record {
        above = g.above;
        scale = scale-add b h a ∙ g.scale;
        free = ground (arith, is_free-add b h a, g.free);
        next = n ∙ g.next;
        prev = p ∙ g.prev;
      }

  marked_put :
      (a : ℕ)
      → (add_to_free_list b h).is_free a ≡ true
      → HasList ((add_to_free_list b h).scale a)
        × (a ∈ replace L s (b ∷ L s) ((add_to_free_list b h).scale a))
  marked_put a e = elim (Bool-cases (a == b)) [
    | inl same ↦
        let e' : b ≡ a = ground arith in
        rw (scale-add b h a) (
          subst (λ x. HasList (h.scale x) × (x ∈ replace L s (b ∷ L s) (h.scale x))) e'
            (hb, ground (arith, v.header.scale)))
    | inr other ↦
        let (hs, m) = v.blocks.marked a (ground (arith, is_free-add b h a)) in
        rw (scale-add b h a) (hs, put_on (h.scale a) a m)
  ]
    where
      put_on : (k a : ℕ) → a ∈ L k → a ∈ replace L s (b ∷ L s) k
      put_on k a m = elim (Bool-cases (k == s)) [
        | inl same ↦
            let here : a ∈ L s = subst (λ i. a ∈ L i) ((==_iff k s).0 same) m in
            rw same (ground arith)
        | inr other ↦ rw other m
      ]

  pub put-Blocks : Blocks (add_to_free_list b h) (replace L s (b ∷ L s)) A top
  put-Blocks = record {
    lists = added;
    marked = marked_put;
    given = IsGiven-put;
    within = λ k a hk m. within_put k a hk (IsBlock-put k a m);
    apart = λ j k a c hj hk m n. Apart-put j k a c hj hk (IsBlock-put j a m) (IsBlock-put k c n);
  }

  IsBlock-give : (k a : ℕ) → IsBlock L (give b s A) k a → ((k ≡ s) × (a ≡ b)) ⊎ IsBlock L A k a
  IsBlock-give k a (inl m) = inr (inl m)
  IsBlock-give k a (inr m) = ground arith

  given_cases : (k a : ℕ) → give b s A k a ≡ true → ((k ≡ s) × (a ≡ b)) ⊎ (A k a ≡ true)
  given_cases k a m = ground arith

  pub give-Blocks : h.next b ≡ b → h.prev b ≡ b → Blocks h L (give b s A) top
  give-Blocks n p = record {
    lists = v.blocks.lists;
    marked = v.blocks.marked;
    given = λ k a hk m. elim (given_cases k a m) [
      | inl (e, e') ↦
          subst (λ x. IsGiven h k x) (sym e') (subst (λ i. IsGiven h i b) (sym e) header)
      | inr old ↦ v.blocks.given k a hk old
    ];
    within = λ k a hk m. within_put k a hk (IsBlock-give k a m);
    apart = λ j k a c hj hk m n. Apart-put j k a c hj hk (IsBlock-give j a m) (IsBlock-give k c n);
  }
    where
      header : IsGiven h s b
      header = record {
        above = v.header.above;
        scale = v.header.scale;
        free = v.header.free;
        next = n;
        prev = p;
      }

module _ {h : Heap} {L : Lists} {A : Given} {top : ℕ} (v : Blocks h L A top) where
  -- A header that belongs to no block gets a scale.
  pub Blocks-set_scale :
      (c s : ℕ)
      → h.is_free c ≡ false
      → ((k a : ℕ) → HasList k → A k a ≡ true → a ≢ c)
      → Blocks (set_scale c s h) L A top
  Blocks-set_scale c s unmarked out = record {
    lists = FreeLists-set_scale c s (not_mem-free v.lists c unmarked) v.lists;
    marked =
        λ a e. let other : (a == c) ≡ false = ground (arith, unmarked) in rw other (v.marked a e);
    given = λ k a hk m.
        let g = v.given k a hk m in
        record {
          above = g.above;
          scale = ground (arith, g.scale, out k a hk m);
          free = g.free;
          next = g.next;
          prev = g.prev;
        };
    within = v.within;
    apart = v.apart;
  }

  IsBlock-take_back : (k b j a : ℕ) → IsBlock L (take_back b k A) j a → IsBlock L A j a
  IsBlock-take_back k b j a (inl m) = inl m
  IsBlock-take_back k b j a (inr m) = inr (ground arith)

  -- A block that was given out is in hand again.
  pub take_back-Hand : (k b : ℕ) → HasList k → A k b ≡ true → Hand h L (take_back b k A) top b k
  take_back-Hand k b hk m = record {
    blocks = record {
      lists = v.lists;
      marked = v.marked;
      given = λ j a hj n. v.given j a hj (ground arith);
      within = λ j a hj n. v.within j a hj (IsBlock-take_back k b j a n);
      apart = λ i j a c hi hj n n'.
          v.apart i j a c hi hj (IsBlock-take_back k b i a n) (IsBlock-take_back k b j c n');
    };
    has_list = hk;
    header = IsFresh-of (v.given k b hk m);
    room = v.within k b hk (inr m);
    off = λ j a hj n. elim (v.apart j k a b hj hk (IsBlock-take_back k b j a n) (inr m)) [
      | inl (e, e') ↦ absurd (not_itself j a hj n e e')
      | inr off ↦ off
    ];
  }
    where
      not_itself : (j a : ℕ) → HasList j → IsBlock L (take_back b k A) j a → j ≡ k → a ≡ b → ⊥
      not_itself j a hj (inl n) e e' = ground (arith, v.lists.member j a hj n, v.given k b hk m, e')
      not_itself j a hj (inr n) e e' = ground (arith, e, e')

-- A block in hand gets another scale, where the room for it is apart from all blocks.
pub rescale-Hand :
    {h : Heap} {L : Lists} {A : Given} {top b s : ℕ} (v : Hand h L A top b s) (r : ℕ)
    → HasList r
    → b + 2 ^ r ≤ top
    → ((k a : ℕ) → HasList k → IsBlock L A k a → Apart a k b r)
    → Hand (set_scale b r h) L A top b r
rescale-Hand {b = b} {s = s} v r hr room off = record {
  blocks =
      Blocks-set_scale v.blocks b r v.header.free
        (λ k a hk m. ne_of_Apart a k b s (v.off k a hk (inr m)));
  has_list = hr;
  header = record { above = v.header.above; scale = ground (arith, hr); free = v.header.free };
  room = room;
  off = off;
}
