-- ===== src/Libc/Text.antt =====
-- The string functions of ShompOS/src/fake_libc/string.c against lists of characters.
use operating_system.Base.{
  ℕ, zero, suc, ◌+◌, ◌<◌, ◌≡◌, ◌≢◌, inl, inr, refl, ◌∙◌, ap, true, false, [], ◌∷◌, some, Text,
  arith, ◌==◌, if◌then◌else◌, Bool-cases, length,
}
use operating_system.Base.Int.{ℤ, pos, sub_ℕ}
use operating_system.Libc.{Memory, strlen_loop, strlen, strcmp}

-- The string at an address is the characters, none of them 0, and a 0 behind them.
abbrev pub IsString : Memory → ℕ → Text → Type 0
IsString mem p [] = mem p ≡ 0
IsString mem p (c ∷ cs) = (mem p ≡ c) × (c ≢ 0) × IsString mem (p + 1) cs

strlen_loop-length :
    (text : Text) (fuel : ℕ) (mem : Memory) (s len : ℕ)
    → IsString mem s text
    → length text < fuel
    → strlen_loop fuel mem s len ≡ some (len + length text)
unfolding strlen_loop
strlen_loop-length text zero mem s len ends enough = absurd (omega (arith, enough))
strlen_loop-length [] (suc fuel) mem s len ends enough = rw ends (ap some (omega arith))
strlen_loop-length (c ∷ cs) (suc fuel) mem s len (first, ne, rest) enough =
    let more : (mem s == 0) ≡ false = ground (arith, first) in
    rw more
      (strlen_loop-length cs fuel mem (s + 1) (len + 1) rest (omega arith) ∙ ap some (omega arith))

-- `strlen` of a string returns its length, given more fuel than that.
strlen-length :
    (text : Text) (fuel : ℕ) (mem : Memory) (s : ℕ)
    → IsString mem s text
    → length text < fuel
    → strlen fuel mem s ≡ some (length text)
unfolding strlen
strlen-length text fuel mem s ends enough =
    strlen_loop-length text fuel mem s 0 ends enough ∙ ap some (omega arith)

-- The order of two strings, by the first place where they differ.
abbrev pub difference : Text → Text → ℤ
difference [] [] = pos 0
difference [] (y ∷ ys) = sub_ℕ 0 y
difference (x ∷ xs) [] = sub_ℕ x 0
difference (x ∷ xs) (y ∷ ys) = if x == y then difference xs ys else sub_ℕ x y

-- `strcmp` of two strings returns the difference of their first characters that differ, the end
-- counting as 0, given more fuel than the first one is long.
strcmp-difference :
    (xs ys : Text) (fuel : ℕ) (mem : Memory) (s1 s2 : ℕ)
    → IsString mem s1 xs
    → IsString mem s2 ys
    → length xs < fuel
    → strcmp fuel mem s1 s2 ≡ some (difference xs ys)
unfolding strcmp
strcmp-difference xs ys zero mem s1 s2 str1 str2 enough = absurd (omega (arith, enough))
strcmp-difference [] [] (suc fuel) mem s1 s2 end1 end2 enough = rw (end1, end2) refl
strcmp-difference [] (y ∷ ys) (suc fuel) mem s1 s2 end1 (first2, ne2, _) enough =
    rw (end1, first2) refl
strcmp-difference (x ∷ xs) [] (suc fuel) mem s1 s2 (first1, ne1, _) end2 enough =
    let differ : (mem s1 == mem s2) ≡ false = ground (arith, first1, end2) in
    let more : (mem s1 == 0) ≡ false = ground (arith, first1) in
    rw (differ, more, first1, end2) refl
strcmp-difference (x ∷ xs) (y ∷ ys) (suc fuel) mem s1 s2 (first1, ne1, rest1) (first2, ne2, rest2)
      enough =
    let more : (mem s1 == 0) ≡ false = ground (arith, first1) in
    let rest = strcmp-difference xs ys fuel mem (s1 + 1) (s2 + 1) rest1 rest2 (omega arith) in
    elim (Bool-cases (x == y)) [
      | inl same ↦
          let same' : (mem s1 == mem s2) ≡ true = ground (arith, first1, first2) in
          rw (more, same', same) rest
      | inr differ ↦
          let differ' : (mem s1 == mem s2) ≡ false = ground (arith, first1, first2) in
          rw (more, differ', differ, first1, first2) refl
    ]
