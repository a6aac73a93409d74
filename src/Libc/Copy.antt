-- ===== src/Libc/Copy.antt =====
-- `memcpy`, `memmove` and `memset` of ShompOS/src/fake_libc/string.c against what they should do.
use operating_system.Base.{
  ℕ, zero, suc, ◌+◌, ◌-◌, ◌%◌, ◌≤◌, ◌<◌, ◌≡◌, ◌⊎◌, inl, inr, ap, ◌∙◌, ◌&&◌, ◌||◌, arith, ltb, leb,
  ◌==◌, if◌then◌else◌, Bool-cases,
}
use operating_system.Libc.{
  Memory, store, copy_forward, copy_backward, memcpy, memmove, fill, memset,
}

-- `n` bytes at `src`, as they were, are at `dest`; all else is unchanged.
pub copied : Memory → ℕ → ℕ → ℕ → Memory
copied mem dest src n a = if leb dest a && ltb a (dest + n) then mem (src + (a - dest)) else mem a

pub copied-inside :
    (mem : Memory) (dest src : ℕ) {n a : ℕ}
    → a < n
    → copied mem dest src n (dest + a) ≡ mem (src + a)
unfolding copied
copied-inside mem dest src {n = n} {a = a} lt =
    let from : src + (dest + a - dest) ≡ src + a = omega arith in ground (arith, ap mem from)

pub copied-outside :
    (mem : Memory) (dest src n a : ℕ)
    → (a < dest) ⊎ (dest + n ≤ a)
    → copied mem dest src n a ≡ mem a
unfolding copied
copied-outside mem dest src n a out = ground arith

copy_forward-copied :
    (n : ℕ) (mem : Memory) (d s : ℕ)
    → (d ≤ s) ⊎ (s + n ≤ d)
    → (a : ℕ) → copy_forward n mem d s a ≡ copied mem d s n a
unfolding copy_forward copied
copy_forward-copied zero mem d s ok a = ground arith
copy_forward-copied (suc n) mem d s ok a =
    copy_forward-copied n (store mem d (mem s)) (d + 1) (s + 1) (omega arith) a ∙ step
  where
    step : copied (store mem d (mem s)) (d + 1) (s + 1) n a ≡ copied mem d s (suc n) a
    step = elim (Bool-cases (leb (d + 1) a && ltb a (d + 1 + n))) [
      | inl later ↦
          let from : s + 1 + (a - (d + 1)) ≡ s + (a - d) = ground arith in
          ground (arith, ap mem from)
      | inr out ↦ elim (Bool-cases (a == d)) [
        | inl first ↦ let from : s ≡ s + (a - d) = ground arith in ground (arith, ap mem from)
        | inr other ↦ ground arith
      ]
    ]

copy_backward-copied :
    (n : ℕ) (mem : Memory) (d s : ℕ)
    → s ≤ d
    → (a : ℕ) → copy_backward n mem d s a ≡ copied mem d s n a
unfolding copy_backward copied
copy_backward-copied zero mem d s le a = ground arith
copy_backward-copied (suc n) mem d s le a =
    copy_backward-copied n (store mem (d + n) (mem (s + n))) d s le a ∙ step
  where
    step : copied (store mem (d + n) (mem (s + n))) d s n a ≡ copied mem d s (suc n) a
    step = elim (Bool-cases (a == d + n)) [
      | inl last ↦ let from : s + n ≡ s + (a - d) = ground arith in ground (arith, ap mem from)
      | inr other ↦ ground arith
    ]

-- `memmove` copies the bytes as they were before the call, however source and destination overlap,
-- and changes no others.
pub memmove-copied :
    (mem : Memory) (dest src n a : ℕ) → memmove mem dest src n a ≡ copied mem dest src n a
unfolding memmove
memmove-copied mem dest src n a = elim (Bool-cases (ltb dest src || leb (src + n) dest)) [
  | inl forward ↦ rw forward (copy_forward-copied n mem dest src (ground arith) a)
  | inr backward ↦ rw backward (copy_backward-copied n mem dest src (ground arith) a)
]

-- `memcpy` copies the bytes as they were before the call, and changes no others, where the
-- destination does not begin inside the source behind its first byte.
pub memcpy-copied :
    (mem : Memory) (dest src n a : ℕ)
    → (dest ≤ src) ⊎ (src + n ≤ dest)
    → memcpy mem dest src n a ≡ copied mem dest src n a
unfolding memcpy
memcpy-copied mem dest src n a apart = copy_forward-copied n mem dest src apart a

fill_lem :
    (n : ℕ) (mem : Memory) (d c a : ℕ)
    → fill n mem d c a ≡ (if leb d a && ltb a (d + n) then c % 256 else mem a)
unfolding fill
fill_lem zero mem d c a = ground arith
fill_lem (suc n) mem d c a = ground (arith, fill_lem n (store mem d (c % 256)) (d + 1) c a)

-- `memset` writes the low byte of `c` to the `n` bytes from `dest` on, and nowhere else.
memset_lem :
    (mem : Memory) (dest c n a : ℕ)
    → memset mem dest c n a ≡ (if leb dest a && ltb a (dest + n) then c % 256 else mem a)
unfolding memset
memset_lem mem dest c n a = fill_lem n mem dest c a
