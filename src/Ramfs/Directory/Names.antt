-- ===== src/Ramfs/Directory/Names.antt =====
-- What the searches by name in ShompOS/src/fs/ramfs.c find.
use operating_system.Base.{
  ℕ, zero, suc, ◌+◌, ◌<◌, ◌≡◌, ◌≢◌, inl, inr, refl, ap₂, true, false, List, [], ◌∷◌, Option, none,
  some, Text, ◌==◌, ==_iff, Bool-cases, arith, get_elem?,
}
use mathlib.Core.Path.{subst}
use mathlib.Core.Option.{some-injective}
use operating_system.Ramfs.{Fs, ◌>>=◌, text_eq, find_named, find_file, dir_files}

text_eq-same : (x y : Text) → text_eq x y ≡ true → x ≡ y
text_eq-same [] [] e = refl
text_eq-same [] (y ∷ ys) e = cc
text_eq-same (x ∷ xs) [] e = cc
text_eq-same (x ∷ xs) (y ∷ ys) e =
    let head : (x == y) ≡ true = ground arith in
    let tail : text_eq xs ys ≡ true = ground arith in
    ap₂ (λ c cs. c ∷ cs) ((==_iff x y).0 head) (text_eq-same xs ys tail)

text_eq_self : (x : Text) → text_eq x x ≡ true
text_eq_self [] = refl
text_eq_self (x ∷ xs) = let head : (x == x) ≡ true = ground arith in rw (head, text_eq_self xs) refl

text_eq-differ : (x y : Text) → text_eq x y ≡ false → x ≢ y
text_eq-differ x y e same = cc (text_eq_self y, subst (λ z. text_eq z y ≡ false) same e)

module _ (name_of : ℕ → Text) (name : Text) where
  -- `p` is the first of the pointers whose object has the name, and `i` its index.
  pub record IsFirstOf (ps : List ℕ) (i p : ℕ) : Type 0 where
    pub at : get_elem? ps i ≡ some p
    pub named : name_of p ≡ name
    pub before : (j q : ℕ) → j < i → get_elem? ps j ≡ some q → name_of q ≢ name

  abbrev pub NoneOf : List ℕ → Type 0
  NoneOf ps = (j q : ℕ) → get_elem? ps j ≡ some q → name_of q ≢ name

  abbrev Finds : List ℕ → Option (ℕ × ℕ) → Type 0
  Finds ps none = NoneOf ps
  Finds ps (some (i, p)) = IsFirstOf ps i p

  other-first :
      (x : ℕ) (xs : List ℕ) (q : ℕ)
      → name_of x ≢ name
      → get_elem? (x ∷ xs) 0 ≡ some q
      → name_of q ≢ name
  other-first x xs q ne e = subst (λ y. name_of y ≢ name) (some-injective x q e) ne

  NoneOf-cons : (x : ℕ) (xs : List ℕ) → name_of x ≢ name → NoneOf xs → NoneOf (x ∷ xs)
  NoneOf-cons x xs ne nowhere zero q e = other-first x xs q ne e
  NoneOf-cons x xs ne nowhere (suc j) q e = nowhere j q e

  before-cons :
      (x : ℕ) (xs : List ℕ) (i : ℕ)
      → name_of x ≢ name
      → ((j q : ℕ) → j < i → get_elem? xs j ≡ some q → name_of q ≢ name)
      → (j q : ℕ) → j < suc i
      → get_elem? (x ∷ xs) j ≡ some q
      → name_of q ≢ name
  before-cons x xs i ne before zero q lt e = other-first x xs q ne e
  before-cons x xs i ne before (suc j) q lt e = before j q (omega arith) e

  Finds-cons :
      (x : ℕ) (xs : List ℕ) (found : Option (ℕ × ℕ))
      → name_of x ≢ name
      → Finds xs found
      → Finds (x ∷ xs) (◌>>=◌ {B = ℕ × ℕ} found (λ (j, q). some (j + 1, q)))
  unfolding ◌>>=◌
  Finds-cons x xs none ne nowhere = NoneOf-cons x xs ne nowhere
  Finds-cons x xs (some (i, p)) ne first =
      let next : suc i ≡ i + 1 = omega arith in
      subst (λ k. IsFirstOf (x ∷ xs) k p) next
        (record { at = first.at; named = first.named; before = before-cons x xs i ne first.before })

  find_named-Finds : (ps : List ℕ) → Finds ps (find_named name_of name ps)
  unfolding find_named
  find_named-Finds [] = λ j q e. cc
  find_named-Finds (x ∷ xs) = elim (Bool-cases (text_eq (name_of x) name)) [
    | inl here ↦ rw here (record {
      at = refl;
      named = text_eq-same (name_of x) name here;
      before = λ j q lt. elim lt [ ];
    })
    | inr other ↦ rw other (
        Finds-cons x xs (find_named name_of name xs) (text_eq-differ _ _ other)
          (find_named-Finds xs))
  ]

  pub find_named-first :
      (ps : List ℕ) (i p : ℕ) → find_named name_of name ps ≡ some (i, p) → IsFirstOf ps i p
  find_named-first ps i p e = subst (Finds ps) e (find_named-Finds ps)

  pub find_named-none : (ps : List ℕ) → find_named name_of name ps ≡ none → NoneOf ps
  find_named-none ps e = subst (Finds ps) e (find_named-Finds ps)

-- The files of a directory, by their names.
abbrev pub name_in : Fs → ℕ → Text
name_in s file = s.names (s.files file).name

abbrev pub IsFirstFile : Fs → ℕ → Text → ℕ → ℕ → Type 0
IsFirstFile s dir name i file = IsFirstOf (name_in s) name (dir_files s dir) i file

abbrev pub NoFile : Fs → ℕ → Text → Type 0
NoFile s dir name = NoneOf (name_in s) name (dir_files s dir)

pub find_file-first :
    (s : Fs) (dir : ℕ) (name : Text) (i file : ℕ)
    → find_file s dir name ≡ some (i, file)
    → IsFirstFile s dir name i file
unfolding find_file
find_file-first s dir name i file e = find_named-first (name_in s) name (dir_files s dir) i file e

pub find_file-none :
    (s : Fs) (dir : ℕ) (name : Text) → find_file s dir name ≡ none → NoFile s dir name
unfolding find_file
find_file-none s dir name e = find_named-none (name_in s) name (dir_files s dir) e
