-- ===== src/Shell/Words.antt =====
-- How `handle_command` of ShompOS/src/kernel/kernel.c takes a line apart.
use operating_system.Base.{
  ℕ, suc, ◌+◌, ◌≡◌, inl, inr, refl, ap, ◌∙◌, sym, false, [], ◌∷◌, ◌++◌, Option, none, some, Text,
  arith, ◌==◌, if◌then◌else◌, Bool-cases, Option-cases, ◌∉◌, set, drop,
}
use mathlib.Core.Option.{some-injective}
use operating_system.Shell.{text_of, find_space, split_at, split_command}

-- The part of a line before its first space, and the part behind it if there is one.
pub before_space : Text → Text
before_space [] = []
before_space (c ∷ cs) = if c == 32 then [] else c ∷ before_space cs

unfoldable pub after_space : Text → Option Text
after_space [] = none
after_space (c ∷ cs) = let rest = after_space cs in if c == 32 then some cs else rest

-- A string in a buffer ends at the first 0.
pub text_of-end : (line rest : Text) → 0 ∉ line → text_of (line ++ 0 ∷ rest) ≡ line
unfolding text_of
text_of-end [] rest out = refl
text_of-end (c ∷ cs) rest out =
    let nonzero : (c == 0) ≡ false = ground arith in
    rw nonzero (ap (λ t. c ∷ t) (text_of-end cs rest (ground arith)))

find_space-none :
    (line rest : Text) (i : ℕ)
    → 0 ∉ line
    → after_space line ≡ none
    → (find_space i (line ++ 0 ∷ rest) ≡ none) × (before_space line ≡ line)
unfolding find_space after_space before_space
find_space-none [] rest i out e = (refl, refl)
find_space-none (c ∷ cs) rest i out e =
    let nonzero : (c == 0) ≡ false = ground arith in
    elim (Bool-cases (c == 32)) [
      | inl space ↦ absurd (cc (rw space at e))
      | inr other ↦
          let (none_left, same) = find_space-none cs rest (i + 1) (ground arith) (rw other at e) in
          rw (nonzero, other) (none_left, ap (λ t. c ∷ t) same)
    ]

find_space-some :
    (line rest args : Text) (i : ℕ)
    → 0 ∉ line
    → after_space line ≡ some args
    → (j : ℕ) × (find_space i (line ++ 0 ∷ rest) ≡ some (i + j))
      × (text_of (set (line ++ 0 ∷ rest) j 0) ≡ before_space line)
      × (drop (suc j) (line ++ 0 ∷ rest) ≡ args ++ 0 ∷ rest)
      × (0 ∉ args)
unfolding find_space after_space before_space text_of
find_space-some [] rest args i out e = cc
find_space-some (c ∷ cs) rest args i out e =
    let nonzero : (c == 0) ≡ false = ground arith in
    elim (Bool-cases (c == 32)) [
      | inl space ↦
          let same : cs ≡ args = some-injective cs args (rw space at e) in
          (
            0,
            rw (nonzero, space) (ap some (omega arith)),
            rw space refl,
            ap (λ t. t ++ 0 ∷ rest) same,
            rw (sym same) (ground arith),
          )
      | inr other ↦
          let (j, found, name, behind, clean) =
            find_space-some cs rest args (i + 1) (ground arith) (rw other at e) in
          (
            suc j,
            rw (nonzero, other) (found ∙ ap some (omega arith)),
            rw (nonzero, other) (ap (λ t. c ∷ t) name),
            behind,
            clean,
          )
    ]

-- `handle_command` takes for the command's name the line before its first space, and for its
-- arguments the rest behind that space; there are none where the line has no space. What is in the
-- buffer behind the end of the line does not matter.
pub split_command-line :
    (line rest : Text)
    → 0 ∉ line
    → ((split_command (line ++ 0 ∷ rest)).0 ≡ before_space line)
      × ((split_command (line ++ 0 ∷ rest)).1 ≡ after_space line)
unfolding split_command split_at
split_command-line line rest out = elim (Option-cases (after_space line)) [
  | inl e ↦
      let (nothing, same) = find_space-none line rest 0 out e in
      rw (nothing, e) (text_of-end line rest out ∙ sym same, refl)
  | inr (args, e) ↦
      let (j, found, name, behind, clean) = find_space-some line rest args 0 out e in
      let next : j + 1 ≡ suc j = omega arith in
      let at : 0 + j ≡ j = omega arith in
      rw (found, e)
        (rw at name, ap some (rw (at, next) (ap text_of behind ∙ text_of-end args rest clean)))
]
