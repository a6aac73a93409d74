-- ===== src/Heap/Blocks/Split.antt =====
-- The splits of `allocate` (ShompOS/src/memory/heap.c) on the blocks of the heap: the upper halves go
-- on the lists and the lower one stays in hand.
use operating_system.Base.{
  ℕ, zero, suc, ◌+◌, ◌^◌, ◌≤◌, ◌<◌, ◌≡◌, inl, inr, ◌∙◌, false, ◌∷◌, some, arith, ltb, Bool-cases,
}
use mathlib.Core.Option.{some-injective}
use mathlib.Core.Path.{subst}
use native.Mathlib.Nat.{pow-suc}
use operating_system.Heap.{Heap, min_block_scale, u32_mod, set_scale, split_block, split_loop}
use operating_system.Heap.FreeLists.{Lists, replace, HasList}
use operating_system.Heap.FreeLists.Add.{is_free-add, scale-add}
use operating_system.Heap.Split.{IsOutside, pow2_pos, split_block-add}
use operating_system.Heap.Blocks.{Given, Apart, Hand}
use operating_system.Heap.Blocks.Put.{
  put-Blocks, IsBlock-put, rescale-Hand, Blocks-set_scale, ne_of_Apart,
}

-- What begins inside a block in hand is not marked free.
pub unmarked-inside :
    {h : Heap} {L : Lists} {A : Given} {top b s : ℕ}
    → Hand h L A top b s
    → (c : ℕ) → b ≤ c
    → c < b + 2 ^ s
    → h.is_free c ≡ false
unmarked-inside {h} {b} {s} v c lo hi = elim (Bool-cases (h.is_free c)) [
  | inl e ↦
      let (hs, m) = v.blocks.marked c e in
      absurd (omega (arith, v.off (h.scale c) c hs (inl m), pow2_pos (h.scale c)))
  | inr e ↦ e
]

module _ {h : Heap} {L : Lists} {A : Given} {top : ℕ} (b s : ℕ) (v : Hand h L A top b (suc s))
    (fits : top ≤ u32_mod) (hs : HasList s) where
  outside : IsOutside L b (suc s)
  outside k a hk m = omega (arith, v.off k a hk (inl m), pow2_pos k)

  lower_half : Hand (set_scale b s h) L A top b s
  lower_half =
      rescale-Hand v s hs (omega (arith, v.room, pow-suc 2 s))
        (λ k a hk m. omega (arith, v.off k a hk m, pow-suc 2 s))

  upper_half : Hand (set_scale (b + 2 ^ s) s (set_scale b s h)) L A top (b + 2 ^ s) s
  upper_half =
      let inside : h.is_free (b + 2 ^ s) ≡ false =
        unmarked-inside v (b + 2 ^ s) (omega arith) (omega (arith, pow-suc 2 s, pow2_pos s)) in
      record {
        blocks =
            Blocks-set_scale lower_half.blocks (b + 2 ^ s) s inside
              (λ k a hk m. ne_of_Apart a k (b + 2 ^ s) s (halves k a (v.off k a hk (inr m))));
        has_list = hs;
        header = record {
          above = omega (arith, v.header.above);
          scale = ground (arith, hs);
          free = inside;
        };
        room = omega (arith, v.room, pow-suc 2 s);
        off = λ k a hk m. halves k a (v.off k a hk m);
      }
    where
      halves : (k a : ℕ) → Apart a k b (suc s) → Apart a k (b + 2 ^ s) s
      halves k a off = omega (arith, off, pow-suc 2 s)

  split_block-Hand : Hand (split_block b h) (replace L s ((b + 2 ^ s) ∷ L s)) A top b s
  split_block-Hand =
      let e =
        split_block-add b s v.blocks.lists outside v.header.above (omega (arith, v.room, fits))
          v.header.scale hs in
      rw e (record {
        blocks = put-Blocks upper_half;
        has_list = hs;
        header = record {
          above = v.header.above;
          scale = scale-add (b + 2 ^ s) shrunk b ∙ ground (arith, hs);
          free = ground (arith, is_free-add (b + 2 ^ s) shrunk b, v.header.free, pow2_pos s);
        };
        room = omega (arith, v.room, pow-suc 2 s);
        off = λ k a hk m. elim (IsBlock-put upper_half k a m) [
          | inl (e, e') ↦ inr (omega (arith, e'))
          | inr old ↦ omega (arith, v.off k a hk old, pow-suc 2 s)
        ];
      })
    where
      shrunk : Heap
      shrunk = set_scale (b + 2 ^ s) s (set_scale b s h)

-- A block in hand that is split down to the scale `r` is in hand at that scale.
pub split_loop-Hand :
    (rounds b r s : ℕ) {h : Heap} {L : Lists} {A : Given} {top : ℕ}
    → Hand h L A top b s
    → top ≤ u32_mod
    → min_block_scale ≤ r
    → r ≤ s
    → s < rounds + r
    → {g : Heap} → split_loop rounds b r h ≡ some g
    → (L' : Lists) × Hand g L' A top b r
unfolding split_loop
split_loop-Hand zero b r s v fits least le enough runs = absurd (omega arith)
split_loop-Hand (suc rounds) b r zero v fits least le enough runs = absurd (omega arith)
split_loop-Hand (suc rounds) b r (suc s) {h} {L} {A} {top} v fits least le enough runs =
    elim (Bool-cases (ltb r (h.scale b))) [
      | inl more ↦
          let smaller : r < suc s = ground (arith, v.header.scale) in
          let hs : HasList s = omega (arith, v.has_list) in
          split_loop-Hand rounds b r s (split_block-Hand b s v fits hs) fits least (omega arith)
            (omega arith) (rw more at runs)
      | inr done ↦
          let same : suc s ≡ r = ground (arith, v.header.scale) in
          let stopped = some-injective _ _ (rw done at runs) in
          (L, subst (λ g. Hand g L A top b r) stopped (subst (λ i. Hand h L A top b i) same v))
    ]
