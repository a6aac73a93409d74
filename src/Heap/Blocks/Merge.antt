-- ===== src/Heap/Blocks/Merge.antt =====
-- `__blkmngr_coalesce_block` of ShompOS/src/memory/heap.c on the blocks of the heap: a block in hand
-- takes in its free buddies.
use operating_system.Base.{
  ℕ, zero, suc, ◌+◌, ◌^◌, ◌≤◌, ◌<◌, ◌≡◌, ◌⊎◌, inl, inr, refl, sym, ap, ◌∙◌, Bool, true, false, ◌&&◌,
  List, [], ◌∷◌, ◌++◌, some, arith, ◌==◌, ==_iff, ltb, ◌∈◌, Bool-cases, if◌then◌else◌,
}
use mathlib.Core.Path.{subst}
use native.Mathlib.Nat.{pow-suc, pow-le-pow_right}
use operating_system.Heap.{
  Heap, max_block_scale, u32_mod, remove_from_free_list, set_scale, is_upper, buddy_of,
  coalesce_loop,
}
use operating_system.Heap.FreeLists.{Lists, replace, HasList}
use operating_system.Heap.FreeLists.Remove.{is_free-remove, scale-remove}
use operating_system.Heap.Split.{pow2_pos}
use operating_system.Heap.Blocks.{Given, IsBlock, Apart, IsFresh, Blocks, Hand}
use operating_system.Heap.Blocks.Take.{take-Hand, IsBlock-still}
use operating_system.Heap.Blocks.Put.{Blocks-set_scale, ne_of_Apart}

pub mem_split :
    (a : ℕ) (xs : List ℕ) → a ∈ xs → (front : List ℕ) × (back : List ℕ) × (xs ≡ front ++ a ∷ back)
mem_split a [] m = cc
mem_split a (x ∷ xs) m = elim (Bool-cases (a == x)) [
  | inl same ↦ ([], xs, ap (λ y. y ∷ xs) (sym ((==_iff a x).0 same)))
  | inr other ↦
      let (front, back, e) = mem_split a xs (ground arith) in (x ∷ front, back, ap (λ l. x ∷ l) e)
]

-- The condition of the loop.
abbrev pub merges : ℕ → Heap → Bool
merges curr h =
    h.is_free (buddy_of curr h)
    && (h.scale (buddy_of curr h) == h.scale curr)
    && ltb (h.scale curr) max_block_scale

-- Two adjacent blocks that are both in hand make one of the next scale.
join-Hand :
    {h : Heap} {L : Lists} {A : Given} {top : ℕ} (b s : ℕ)
    → Blocks h L A top
    → IsFresh h s b
    → suc s ≤ max_block_scale
    → HasList s
    → b + 2 ^ suc s ≤ top
    → ((k a : ℕ) → HasList k → IsBlock L A k a → Apart a k b s × Apart a k (b + 2 ^ s) s)
    → Hand (set_scale b (h.scale b + 1) h) L A top b (suc s)
join-Hand {h} b s v fresh small hs room off = record {
  blocks =
      Blocks-set_scale v b (h.scale b + 1) fresh.free
        (λ k a hk m. ne_of_Apart a k b s (off k a hk (inr m)).0);
  has_list = omega (arith, hs);
  header = record { above = fresh.above; scale = ground (arith, fresh.scale); free = fresh.free };
  room = room;
  off = λ k a hk m. omega (arith, off k a hk m, pow-suc 2 s, pow2_pos k);
}

module _ {h : Heap} {L : Lists} {A : Given} {top : ℕ} (curr s : ℕ) (v : Hand h L A top curr s)
    (fits : top < u32_mod) (more : merges curr h ≡ true) where
  -- The buddy is the adjacent block on one side.
  abbrev merged : ℕ
  merged = if is_upper curr h then buddy_of curr h else curr

  same_scale : h.scale (buddy_of curr h) ≡ s
  same_scale = ground (arith, v.header.scale)

  buddy_mem : buddy_of curr h ∈ L s
  buddy_mem =
      let free : h.is_free (buddy_of curr h) ≡ true = ground arith in
      subst (λ k. buddy_of curr h ∈ L k) same_scale (v.blocks.marked (buddy_of curr h) free).1

  buddy_side :
      ((merged ≡ curr) × (buddy_of curr h ≡ curr + 2 ^ s))
      ⊎ ((merged ≡ buddy_of curr h) × (buddy_of curr h + 2 ^ s ≡ curr))
  unfolding buddy_of
  buddy_side = elim (Bool-cases (is_upper curr h)) [
    | inl up ↦
        let small : 2 ^ s ≤ 2 ^ max_block_scale =
          pow-le-pow_right {n = 2} (omega arith) {i = s} {j = max_block_scale} v.has_list.largest in
        rw (up, v.header.scale)
          (inr (refl, omega (arith, small, v.header.above, v.room, fits, pow2_pos s)))
    | inr down ↦ rw (down, v.header.scale) (inl (refl, omega (arith, v.room, fits)))
  ]

  merge-Hand :
      let h' = remove_from_free_list (buddy_of curr h) h in
      (L' : Lists) × Hand (set_scale merged (h'.scale merged + 1) h') L' A top merged (suc s)
  merge-Hand =
      let (xs, ys, at) = mem_split (buddy_of curr h) (L s) buddy_mem in
      let w = take-Hand v.blocks s (buddy_of curr h) xs ys v.has_list at in
      let still = IsBlock-still v.blocks s (buddy_of curr h) xs ys v.has_list at in
      let smaller : s < max_block_scale = ground (arith, v.header.scale) in
      (
        replace L s (xs ++ ys),
        join-Hand merged s w.blocks
            (elim buddy_side [
              | inl (e, e') ↦ rw e (record {
                above = v.header.above;
                scale = scale-remove (buddy_of curr h) h curr ∙ v.header.scale;
                free = ground (arith, is_free-remove (buddy_of curr h) h curr, v.header.free);
              })
              | inr (e, e') ↦ rw e w.header
            ])
            (omega arith) v.has_list (omega (arith, buddy_side, v.room, w.room, pow-suc 2 s))
            (λ k a hk m.
              let one = v.off k a hk (still k a hk m).0 in
              let two = w.off k a hk m in
              elim buddy_side [
                | inl (e, e') ↦ (
                  subst (λ x. Apart a k x s) (sym e) one,
                  subst (λ x. Apart a k x s) (e' ∙ ap (λ x. x + 2 ^ s) (sym e)) two,
                )
                | inr (e, e') ↦ (
                  subst (λ x. Apart a k x s) (sym e) two,
                  subst (λ x. Apart a k x s) (sym e' ∙ ap (λ x. x + 2 ^ s) (sym e)) one,
                )
              ]),
      )

-- The merging of a block in hand ends with one in hand that has no buddy to merge with.
pub coalesce_loop-Hand :
    (rounds curr s : ℕ) {h : Heap} {L : Lists} {A : Given} {top : ℕ}
    → Hand h L A top curr s
    → top < u32_mod
    → max_block_scale < rounds + s
    → (b : ℕ) × (g : Heap) × (coalesce_loop rounds curr h ≡ some (b, g))
      × (s' : ℕ) × (L' : Lists) × Hand g L' A top b s'
      × (merges b g ≡ false)
unfolding coalesce_loop
coalesce_loop-Hand zero curr s v fits enough = absurd (omega (arith, v.has_list))
coalesce_loop-Hand (suc rounds) curr s {h} {L} v fits enough = elim (Bool-cases (merges curr h)) [
  | inl more ↦
      let (L', w) = merge-Hand curr s v fits more in
      let ih = coalesce_loop-Hand rounds (merged curr s v fits more) (suc s) w fits (omega arith) in
      let (b, g, runs, s', L'', w', done) = ih in (b, g, rw more runs, s', L'', w', done)
  | inr done ↦ (curr, h, rw done refl, s, L, v, done)
]
