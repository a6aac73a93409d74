-- ===== src/Heap/Size.antt =====
-- `size_to_scale` of ShompOS/src/memory/heap.c: from a request in bytes to a power of two.
use operating_system.Base.{
  ℕ, zero, suc, ◌+◌, ◌-◌, ◌*◌, ◌/◌, ◌%◌, ◌^◌, ◌≤◌, ◌<◌, ◌≡◌, refl, inl, inr, arith, ◌==◌,
  Bool-cases,
}
use native.Mathlib.Nat.{pow-suc, pow-le-pow_right}
use native.Mathlib.Decide.{dec_lt}
use operating_system.Heap.{
  header_size, u32_mod, max_block_scale, min_block_scale, bit_length, clz, size_to_scale,
}

bit_length-zero : (f : ℕ) → bit_length f 0 ≡ 0
unfolding bit_length
bit_length-zero zero = refl
bit_length-zero (suc f) = refl

bit_length-pos : (f n : ℕ) → 0 < n → bit_length (suc f) n ≡ suc (bit_length f (n / 2))
unfolding bit_length
bit_length-pos f n pos = ground arith

-- `n` lies between the powers of two around its highest bit.
bit_length_bounds :
    (f n : ℕ)
    → 0 < n
    → n < 2 ^ f
    → (n < 2 ^ bit_length f n) × (2 ^ bit_length f n ≤ 2 * n) × (bit_length f n ≤ f)
bit_length_bounds zero n pos small = absurd (omega arith)
bit_length_bounds (suc f) n pos small = elim (Bool-cases (n / 2 == 0)) [
  | inl one ↦
      let e : n / 2 ≡ 0 = ground arith in
      rw (bit_length-pos f n pos, e, bit_length-zero f) (omega arith)
  | inr more ↦
      let p : 0 < n / 2 = ground arith in
      let b = bit_length_bounds f (n / 2) p (omega (arith, pow-suc 2 f)) in
      rw (bit_length-pos f n pos) (omega (arith, b, pow-suc 2 (bit_length f (n / 2))))
]

size_to_scale-bit_length :
    (size : ℕ)
    → 0 < size
    → size ≤ 2 ^ max_block_scale - header_size
    → size_to_scale size ≡ bit_length 32 (size + 8)
unfolding size_to_scale clz
size_to_scale-bit_length size pos small =
    let e : ((size + header_size) % u32_mod + u32_mod - 1) % u32_mod ≡ size + 8 = omega arith in
    let b = bit_length_bounds 32 (size + 8) (omega arith) (omega arith) in rw e (omega (arith, b))

-- A smaller power of two has the smaller exponent.
exponent-lt : (n m : ℕ) → 2 ^ n < 2 ^ m → n < m
exponent-lt n m h = elim (dec_lt n m) [
  | yes p ↦ p
  | no p ↦
      absurd (omega (arith, pow-le-pow_right {n = 2} (omega arith) {i = m} {j = n} (omega arith)))
]

-- For every request that `allocate` accepts, the scale is the least one whose power of two holds
-- the request and its header; it is at least 4 and at most 15.
pub size_to_scale_bounds :
    (size : ℕ)
    → 0 < size
    → size ≤ 2 ^ max_block_scale - header_size
    → (size + header_size ≤ 2 ^ size_to_scale size)
      × (2 ^ size_to_scale size < 2 * (size + header_size))
      × (min_block_scale ≤ size_to_scale size)
      × (size_to_scale size ≤ max_block_scale)
size_to_scale_bounds size pos small =
    let (above, below, _) = bit_length_bounds 32 (size + 8) (omega arith) (omega arith) in
    let s = bit_length 32 (size + 8) in
    rw (size_to_scale-bit_length size pos small) (
      omega arith,
      omega arith,
      exponent-lt 3 s (omega arith),
      omega (arith, exponent-lt s 16 (omega arith)),
    )
