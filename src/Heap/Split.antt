-- ===== src/Heap/Split.antt =====
-- `__blkmngr_split_block` of ShompOS/src/memory/heap.c and the loop of `allocate` that calls it.
use operating_system.Base.{
  ℕ, zero, suc, ◌+◌, ◌-◌, ◌%◌, ◌^◌, ◌≤◌, ◌<◌, ◌≡◌, ◌≢◌, ◌⊎◌, inl, inr, refl, ◌∙◌, fun_ext, true,
  false, ◌∷◌, some, arith, ◌==◌, ltb, leb, ◌&&◌, ◌||◌, if◌then◌else◌, Bool-cases, ◌∈◌, ◌∉◌,
  ne_of_mem,
}
use mathlib.Core.Path.{subst}
use mathlib.Core.Option.{some-injective}
use native.Mathlib.Nat.{pow-suc, one-le-pow}
use operating_system.Heap.{
  Heap, slot, heap_lower_bound, max_block_scale, min_block_scale, u32_mod, set_scale, split_block,
  split_loop, add_to_free_list,
}
use operating_system.Heap.Chain.{Chain-frame, add_next_frame, add_prev_frame}
use operating_system.Heap.FreeLists.{Lists, replace, HasList, FreeLists, not_mem_of, first_mem}
use operating_system.Heap.FreeLists.Add.{add-FreeLists, scale-add, is_free-add}

-- No block of the lists lies inside the block at `b` of scale `s`.
abbrev pub IsOutside : Lists → ℕ → ℕ → Type 0
IsOutside L b s = (k a : ℕ) → HasList k → a ∈ L k → (a < b) ⊎ (b + 2 ^ s ≤ a)

-- The lists after a block at `b` of scale `s` is split down to scale `r`: an upper half at each scale.
abbrev pub split_lists : ℕ → ℕ → ℕ → Lists → Lists
split_lists b r s L k = if leb r k && ltb k s then (b + 2 ^ k) ∷ L k else L k

pub FreeLists-ext : {h : Heap} (L M : Lists) → ((k : ℕ) → L k ≡ M k) → FreeLists h L → FreeLists h M
FreeLists-ext {h} L M e f = subst (FreeLists h) (fun_ext e) f

-- A change of the scale of a block that is on no list.
pub FreeLists-set_scale :
    {h : Heap} {L : Lists} (a s : ℕ)
    → ((k : ℕ) → HasList k → a ∉ L k)
    → FreeLists h L
    → FreeLists (set_scale a s h) L
FreeLists-set_scale {h} {L} a s out f = record {
  below = f.below;
  chain = λ k hk.
      Chain-frame h (set_scale a s h) (slot h k) (L k) (λ b m. refl) (λ b m. refl) (f.chain k hk);
  distinct = f.distinct;
  member = λ k b hk m. record {
    above = ground (arith, f.member k b hk);
    scale = ground (arith, f.member k b hk, ne_of_mem (L k) m (out k hk));
    free = ground (arith, f.member k b hk);
  };
}

pub pow2_pos : (s : ℕ) → 0 < 2 ^ s
pow2_pos s = one-le-pow s 2 (omega arith)

not_mem-inside :
    (L : Lists) (b s c : ℕ)
    → IsOutside L b s
    → b ≤ c
    → c < b + 2 ^ s
    → (k : ℕ) → HasList k
    → c ∉ L k
not_mem-inside L b s c out lo hi k hk = not_mem_of c (L k) λ a m. omega (arith, out k a hk m)

module _ {h : Heap} {L : Lists} (b s : ℕ) (f : FreeLists h L) (out : IsOutside L b (suc s))
    (above : heap_lower_bound ≤ b) (room : b + 2 ^ suc s ≤ u32_mod) (at : h.scale b ≡ suc s)
    (hs : HasList s) where
  abbrev half : ℕ
  half = b + 2 ^ s

  shrunk : Heap
  shrunk = set_scale half s (set_scale b s h)

  split_block_lem : split_block b h ≡ add_to_free_list half shrunk
  unfolding split_block shrunk
  split_block_lem =
      let large : ((b == 0) || leb (h.scale b) min_block_scale) ≡ false = ground (arith, hs) in
      let less : h.scale b - 1 ≡ s = omega arith in
      let fits : s % 128 ≡ s = omega (arith, hs) in
      let no_wrap : (b + 2 ^ s) % u32_mod ≡ b + 2 ^ s = omega (arith, pow-suc 2 s, pow2_pos s) in
      let self : (b == b) ≡ true = ground arith in rw (large, less, self, fits, no_wrap, fits)

  pub split_block-add :
      split_block b h ≡ add_to_free_list (b + 2 ^ s) (set_scale (b + 2 ^ s) s (set_scale b s h))
  unfolding shrunk
  split_block-add = split_block_lem

  shrunk-FreeLists : FreeLists shrunk L
  unfolding shrunk
  shrunk-FreeLists =
      FreeLists-set_scale half s
        (not_mem-inside L b (suc s) half out (omega arith) (omega (arith, pow-suc 2 s, pow2_pos s)))
        (FreeLists-set_scale b s
          (not_mem-inside L b (suc s) b out (omega arith) (omega (arith, pow2_pos (suc s)))) f)

  half_range : (b < half) × (half < b + 2 ^ suc s)
  half_range = omega (arith, pow-suc 2 s, pow2_pos s)

  scale-shrunk : (shrunk.scale half ≡ s) × (shrunk.scale b ≡ s)
  unfolding shrunk
  scale-shrunk = ground (arith, half_range, hs)

  half-not_mem : (k : ℕ) → HasList k → half ∉ L k
  half-not_mem = not_mem-inside L b (suc s) half out (omega (arith, half_range)) (half_range.1)

  b-not_mem : (k : ℕ) → HasList k → b ∉ L k
  b-not_mem = not_mem-inside L b (suc s) b out (omega arith) (omega (arith, half_range))

  -- One split: the block shrinks by one scale and its upper half is in front of the list below.
  split_block-FreeLists : FreeLists (split_block b h) (replace L s (half ∷ L s))
  split_block-FreeLists =
      let (e, _) = scale-shrunk in
      rw split_block_lem (
        subst (λ k. FreeLists (add_to_free_list half shrunk) (replace L k (half ∷ L k))) e
          (add-FreeLists shrunk-FreeLists half (omega (arith, half_range)) (rw e hs)
            (rw e (half-not_mem s hs))))

  scale-split_block : (split_block b h).scale b ≡ s
  scale-split_block = rw split_block_lem (scale-add half shrunk b ∙ scale-shrunk.1)

  links-split_block :
      ((split_block b h).next b ≡ h.next b)
      × ((split_block b h).prev b ≡ h.prev b)
      × ((split_block b h).is_free b ≡ h.is_free b)
  unfolding shrunk
  links-split_block =
      let (e, _) = scale-shrunk in
      let apart : b ≢ half = omega (arith, half_range) in
      let ne : b ≢ slot h s = omega (arith, f.below, hs) in
      let m = first_mem f s hs in
      let ne' : b ≢ h.next (slot h s) = ground (arith, ne_of_mem {b = b} (L s), b-not_mem s hs) in
      rw split_block_lem (
        add_next_frame half shrunk b apart (rw e ne),
        add_prev_frame half shrunk b apart (rw e ne'),
        ground (arith, is_free-add half shrunk b),
      )

  IsOutside-split_block : IsOutside (replace L s (half ∷ L s)) b s
  IsOutside-split_block k a hk m = ground (arith, out k a hk, pow-suc 2 s)

-- What the loop of `allocate` leaves: the block at `b` has the requested scale, it is linked as
-- before, and each scale that was halved has one block more.
pub record Split (h : Heap) (L : Lists) (b r s : ℕ) (g : Heap) : Type 0 where
  pub scale : g.scale b ≡ r
  pub lists : FreeLists g (split_lists b r s L)
  pub next : g.next b ≡ h.next b
  pub prev : g.prev b ≡ h.prev b
  pub free : g.is_free b ≡ h.is_free b

split_lists-step :
    (L : Lists) (b r s : ℕ)
    → r ≤ s
    → (k : ℕ) → split_lists b r s (replace L s ((b + 2 ^ s) ∷ L s)) k ≡ split_lists b r (suc s) L k
split_lists-step L b r s h k = ground arith

-- On well-formed free lists with none inside a block at `b` of scale `s`, the loop of `allocate`
-- with rounds enough splits that block down to scale `r`: it keeps its links and its mark, and
-- each scale from `r` to `s - 1` has the upper half of one split in front of its list.
pub split_loop-Split :
    (rounds b r s : ℕ) {h : Heap} {L : Lists}
    → FreeLists h L
    → IsOutside L b s
    → heap_lower_bound ≤ b
    → b + 2 ^ s ≤ u32_mod
    → h.scale b ≡ s
    → min_block_scale ≤ r
    → r ≤ s
    → s ≤ max_block_scale
    → s < rounds + r
    → {g : Heap} → split_loop rounds b r h ≡ some g
    → Split h L b r s g
unfolding split_loop
split_loop-Split zero b r s {h} {L} f out above room at least le small enough runs =
    absurd (omega arith)
split_loop-Split (suc rounds) b r zero {h} {L} f out above room at least le small enough runs =
    absurd (omega arith)
split_loop-Split (suc rounds) b r (suc s) {h} {L} f out above room at least le small enough runs =
    elim (Bool-cases (ltb r (h.scale b))) [
      | inl more ↦
          let hs : HasList s = ground arith in
          let ih =
            split_loop-Split rounds b r s {h = split_block b h}
              {L = replace L s ((b + 2 ^ s) ∷ L s)}
              (split_block-FreeLists b s f out above room at hs)
              (IsOutside-split_block b s f out above room at hs) above (omega (arith, pow-suc 2 s))
              (scale-split_block b s f out above room at hs) least (ground arith) (omega arith)
              (omega arith) (rw more at runs) in
          let links = links-split_block b s f out above room at hs in
          record {
            scale = ih.scale;
            lists = FreeLists-ext _ _ (split_lists-step L b r s (ground arith)) ih.lists;
            next = ih.next ∙ links.0;
            prev = ih.prev ∙ links.1;
            free = ih.free ∙ links.2;
          }
      | inr done ↦ subst (Split h L b r (suc s)) (some-injective _ _ (rw done at runs)) (record {
        scale = ground arith;
        lists = FreeLists-ext L (split_lists b r (suc s) L) (λ k. ground arith) f;
        next = refl;
        prev = refl;
        free = refl;
      })
    ]
