-- ===== src/Heap/Fit.antt =====
-- `__blkmngr_find_fit` of ShompOS/src/memory/heap.c: the search over the free lists.
use operating_system.Base.{
  some, ℕ, zero, suc, ◌+◌, ◌≤◌, ◌<◌, ◌≡◌, ◌≢◌, ◌⊎◌, inl, inr, refl, ap, sym, fun_ext, true, false,
  List, [], ◌∷◌, arith, ◌==◌, Bool-cases, ltb, List-cases, ◌∈◌, ◌∉◌, ==_iff, ne_of_mem, ltb→lt,
}
use mathlib.Core.Path.{subst}
use operating_system.Heap.{
  Heap, take_found, slot, heap_lower_bound, max_block_scale, is_end_of_list, set_free, search,
  remove_from_free_list, take_first, find_fit,
}
use operating_system.Heap.Chain.{Chain}
use operating_system.Heap.FreeLists.{Lists, replace, HasList, FreeLists, slot-not_mem}
use operating_system.Heap.FreeLists.Remove.{remove-FreeLists, remove_self, brk-remove}

-- A second `is_free = 0` changes nothing.
set_free-remove :
    (b : ℕ) (h : Heap) → set_free b false (remove_from_free_list b h) ≡ remove_from_free_list b h
unfolding remove_from_free_list
set_free-remove b h =
    ap (λ f. record (remove_from_free_list b h) { is_free = f }) (fun_ext λ a. ground arith)

-- The search from `k` stops at `s`: the lists in between are empty.
pub record Found (L : Lists) (k s : ℕ) : Type 0 where
  pub least : k ≤ s
  pub largest : s ≤ max_block_scale
  pub skipped : (j : ℕ) → k ≤ j → j < s → L j ≡ []
  pub stop : (L s ≢ []) ⊎ (s ≡ max_block_scale)

-- `b` was the first block of list `s`, the smallest scale from `k` on that has one.
pub record BestFit (h : Heap) (L : Lists) (k s b : ℕ) (rest : List ℕ) (g : Heap) : Type 0 where
  pub has_list : HasList s
  pub large : k ≤ s
  pub smallest : (j : ℕ) → k ≤ j → j < s → L j ≡ []
  pub first : L s ≡ b ∷ rest
  pub above : heap_lower_bound ≤ b
  pub lists : FreeLists g (replace L s rest)
  pub links : (g.next b ≡ b) × (g.prev b ≡ b) × (g.is_free b ≡ false) × (g.scale b ≡ s)
  pub brk : g.current_brk ≡ h.current_brk
  pub heap : g ≡ remove_from_free_list b h

Found-step : {L : Lists} (k s : ℕ) → L k ≡ [] → Found L (k + 1) s → Found L k s
Found-step {L} k s e r = record {
  least = omega arith;
  largest = r.largest;
  skipped = λ j a b. elim (Bool-cases (k == j)) [
    | inl same ↦ subst (λ i. L i ≡ []) ((==_iff k j).0 same) e
    | inr other ↦ r.skipped j (ground arith) b
  ];
  stop = r.stop;
}

-- A search that stops at an empty list has seen empty lists only.
Found-none :
    {L : Lists} {k : ℕ} (s : ℕ)
    → Found L k s
    → L s ≡ []
    → (j : ℕ) → k ≤ j
    → j ≤ max_block_scale
    → L j ≡ []
Found-none {L} s r e j a b = elim r.stop [
  | inl ne ↦ absurd (ne e)
  | inr last ↦ elim (Bool-cases (ltb j s)) [
    | inl before ↦ r.skipped j a (ltb→lt j s before)
    | inr at ↦ subst (λ i. L i ≡ []) (ground arith) e
  ]
]

Found-here :
    {L : Lists} (k : ℕ) → k ≤ max_block_scale → (L k ≢ []) ⊎ (k ≡ max_block_scale) → Found L k k
Found-here k small stop = record {
  least = omega arith;
  largest = small;
  skipped = λ j a b. absurd (omega arith);
  stop = stop;
}

module _ {h : Heap} {L : Lists} (f : FreeLists h L) where
  end-nil : (k : ℕ) → HasList k → L k ≡ [] → is_end_of_list h (slot h k) ≡ true
  end-nil k hk = go (L k) (f.chain k hk)
    where
      go : (xs : List ℕ) → Chain h (slot h k) xs → xs ≡ [] → is_end_of_list h (slot h k) ≡ true
      go [] c e = ground arith
      go (x ∷ xs) c e = cc

  nil-end : (k : ℕ) → HasList k → is_end_of_list h (slot h k) ≡ true → L k ≡ []
  nil-end k hk = go (L k) (f.chain k hk) (slot-not_mem f k k hk hk)
    where
      go :
          (xs : List ℕ)
          → Chain h (slot h k) xs
          → slot h k ∉ xs
          → is_end_of_list h (slot h k) ≡ true
          → xs ≡ []
      go [] c out e = refl
      go (x ∷ xs) c out e = ground arith

  search-Found :
      (rounds k : ℕ)
      → HasList k
      → max_block_scale < rounds + k
      → (s : ℕ) × (search rounds k h ≡ some s) × Found L k s
  unfolding search
  search-Found zero k hk enough = absurd (omega (arith, hk))
  search-Found (suc rounds) k hk enough = elim (Bool-cases (is_end_of_list h (slot h k))) [
    | inl empty ↦ elim (Bool-cases (ltb k max_block_scale)) [
      | inl more ↦
          let (s, runs, found) =
            search-Found rounds (k + 1) (omega (arith, ltb→lt k max_block_scale more))
              (omega arith) in
          (s, rw (empty, more) runs, Found-step k s (nil-end k hk empty) found)
      | inr last ↦ (k, rw (empty, last) refl, Found-here k hk.largest (inr (ground arith)))
    ]
    | inr full ↦ (k, rw full refl, Found-here k hk.largest (inl λ e. cc (end-nil k hk e)))
  ]

  -- The first block of a list that is not empty.
  head_of : (k : ℕ) → HasList k → L k ≢ [] → (rest : List ℕ) × (L k ≡ h.next (slot h k) ∷ rest)
  head_of k hk = go (L k) (f.chain k hk)
    where
      go :
          (xs : List ℕ)
          → Chain h (slot h k) xs
          → xs ≢ []
          → (rest : List ℕ) × (xs ≡ h.next (slot h k) ∷ rest)
      go [] c ne = absurd (ne refl)
      go (x ∷ xs) c ne = (xs, ap (λ y. y ∷ xs) (sym c.0))

  take_first-full :
      (s : ℕ) (rest : List ℕ)
      → HasList s
      → L s ≡ h.next (slot h s) ∷ rest
      → take_first (slot h s) h ≡ (h.next (slot h s), remove_from_free_list (h.next (slot h s)) h)
  unfolding take_first
  take_first-full s rest hs at =
      let m : h.next (slot h s) ∈ L s = rw at (ground arith) in
      rw (set_free-remove (h.next (slot h s)) h) (
        ground (
          arith,
          f.member s (h.next (slot h s)) hs m,
          ne_of_mem (L s) m (slot-not_mem f s s hs hs),
        ))

  take_first-empty : (s : ℕ) → HasList s → L s ≡ [] → take_first (slot h s) h ≡ (0, h)
  unfolding take_first
  take_first-empty s hs e = rw (end-nil s hs e) refl

  -- On well-formed free lists `find_fit` takes the first block of the first list, from the
  -- requested scale on, that has one; it fails, and changes nothing, only where there is none.
  pub find_fit-BestFit :
      (k : ℕ)
      → HasList k
      → ((find_fit k h ≡ some (0, h)) × ((j : ℕ) → k ≤ j → j ≤ max_block_scale → L j ≡ []))
        ⊎ ((s : ℕ) × (b : ℕ) × (rest : List ℕ) × (g : Heap) × (find_fit k h ≡ some (b, g))
            × BestFit h L k s b rest g)
  unfolding find_fit take_found
  find_fit-BestFit k hk =
      let (s, runs, r) = search-Found (max_block_scale + 1) k hk (omega arith) in
      let hs : HasList s = omega (arith, hk) in
      elim (List-cases (L s)) [
        | inl e ↦ inl (rw runs (ap some (take_first-empty s hs e)), λ j a b. Found-none s r e j a b)
        | inr ne ↦
            let (rest, at) = head_of s hs ne in
            let b = h.next (slot h s) in
            inr (
              s,
              b,
              rest,
              remove_from_free_list b h,
              rw runs (ap some (take_first-full s rest hs at)),
              record {
                has_list = hs;
                large = r.least;
                smallest = r.skipped;
                first = at;
                above = ground (arith, f.member s b hs (rw at (ground arith)));
                lists = remove-FreeLists f s b [] rest hs at;
                links = remove_self f s b [] rest hs at;
                brk = brk-remove b h;
                heap = refl;
              },
            )
      ]
