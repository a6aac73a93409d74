-- ===== src/Ramfs/Directory.antt =====
-- The list of a directory's files through `ramfs_delete_file` of ShompOS/src/fs/ramfs.c.
pub mod Create
pub mod Names
pub mod Delete
use operating_system.Base.{
  ℕ, zero, suc, ◌+◌, ◌-◌, ◌*◌, ◌≤◌, ◌<◌, ◌≡◌, ◌≢◌, ◌⊎◌, inl, inr, refl, ◌∙◌, ap, ap₂, sym, true,
  false, ◌||◌, ◌&&◌, List, [], ◌∷◌, ◌++◌, Bool, Option, none, some, Text, ltb, ◌==◌, if◌then◌else◌,
  Bool-cases, arith, length, take, drop, length-append, length-take, length-drop,
}
use mathlib.Core.Path.{subst}
use operating_system.Heap.{Heap}
use operating_system.Ramfs.{
  Dir, Fs, ◌>>=◌, alloc, dealloc, set_array, set_dir, text_eq, find_named, find_file, dir_files,
  remove_at, shrink_array, delete_found, delete_file, pointer_size,
}
use operating_system.Ramfs.Result.{
  Returns, result, Returns-bind, Returns-map, Room, alloc-Returns, dealloc-Returns,
}

pub take-all : {A : Type 0} (n : ℕ) (xs : List A) → length xs ≤ n → take n xs ≡ xs
take-all zero [] le = refl
take-all zero (x ∷ xs) le = absurd (omega (arith, le))
take-all (suc n) [] le = refl
take-all (suc n) (x ∷ xs) le = ap (λ ys. x ∷ ys) (take-all n xs (omega (arith, le)))

length-remove_at : (i : ℕ) (xs : List ℕ) → i < length xs → length (remove_at i xs) + 1 ≡ length xs
length-remove_at i xs lt =
    omega
      (arith, length-append (take i xs) (drop (i + 1) xs), length-take i xs, length-drop (i + 1) xs)

find_named-lt :
    (name_of : ℕ → Text) (name : Text) (xs : List ℕ) (i p : ℕ)
    → find_named name_of name xs ≡ some (i, p)
    → i < length xs
unfolding find_named ◌>>=◌
find_named-lt name_of name [] i p e = cc
find_named-lt name_of name (x ∷ xs) i p e = elim (Bool-cases (text_eq (name_of x) name)) [
  | inl here ↦
      let e' : some (0, x) ≡ some (i, p) = rw here at e in let at : 0 ≡ i = cc in omega (arith, at)
  | inr other ↦ later (find_named name_of name xs) (find_named-lt name_of name xs) (rw other at e)
]
  where
    later :
        (found : Option (ℕ × ℕ))
        → ((j q : ℕ) → found ≡ some (j, q) → j < length xs)
        → ◌>>=◌ {B = ℕ × ℕ} found (λ (j, q). some (j + 1, q)) ≡ some (i, p)
        → i < suc (length xs)
    later none bound e' = cc
    later (some (j, q)) bound e' = let at : j + 1 ≡ i = cc in omega (arith, at, bound j q refl)

find_file-lt :
    (s : Fs) (dir : ℕ) (name : Text) (i file : ℕ)
    → find_file s dir name ≡ some (i, file)
    → i < length (dir_files s dir)
unfolding find_file
find_file-lt s dir name i file e = find_named-lt _ name (dir_files s dir) i file e

-- The allocator changes no directory.
abbrev pub SameDirs : Fs → Fs → Type 0
SameDirs s s' =
    (s'.dirs ≡ s.dirs) × (s'.arrays ≡ s.arrays) × (s'.names ≡ s.names) × (s'.files ≡ s.files)

pub alloc-SameDirs :
    (n a d : ℕ) (s : Fs)
    → Room (suc a) d s
    → Returns (λ (p, s'). SameDirs s s' × Room a d s') (alloc n s)
alloc-SameDirs n a d s room =
    alloc-Returns _ n a d s room (λ p h e room'. ((refl, refl, refl, refl), room'))

pub dealloc-SameDirs :
    (p a d : ℕ) (s : Fs)
    → Room a (suc d) s
    → Returns (λ s'. SameDirs s s' × Room a d s') (dealloc p s)
dealloc-SameDirs p a d s room =
    dealloc-Returns _ p a d s room (λ h room'. ((refl, refl, refl, refl), room'))

-- The directory has the other files, in their order.
abbrev pub Removed : ℕ → ℕ → Fs → Fs → Type 0
Removed dir i s s' =
    (dir_files s' dir ≡ remove_at i (dir_files s dir))
    × ((s'.dirs dir).file_count + 1 ≡ (s.dirs dir).file_count)

set_dir-Removed :
    (dir i : ℕ) (d : Dir) (s s' : Fs)
    → d.file_count + 1 ≡ (s.dirs dir).file_count
    → take d.file_count (s'.arrays d.files) ≡ remove_at i (dir_files s dir)
    → Removed dir i s (set_dir dir d s')
set_dir-Removed dir i d s s' count content =
    let self : (dir == dir) ≡ true = ground arith in (rw self content, rw self count)

shrink_array-Removed :
    (dir i : ℕ) (s : Fs)
    → Room 1 1 s
    → length (dir_files s dir) ≡ (s.dirs dir).file_count
    → i < (s.dirs dir).file_count
    → Returns (Removed dir i s) (shrink_array dir i s)
unfolding shrink_array
shrink_array-Removed dir i s room len lt = elim (Bool-cases (ltb 1 (s.dirs dir).file_count)) [
  | inl more ↦ rw more (
      Returns-bind (alloc-SameDirs _ 0 1 _ room) (λ (files, s2) ((dirs, arrays, _, _), room2).
        let kept = ap (λ f. f old) arrays ∙ rw (same old) refl in
        elim (Bool-cases (files == 0)) [
          | inl null ↦ rw null (result (set_dir-Removed dir i _ s s2 one_less (taken _ kept)))
          | inr ok ↦ rw ok (
              Returns-bind (dealloc-SameDirs old 0 0 _ room2) (λ s3 ((dirs', arrays', _, _), _).
                result (
                  set_dir-Removed dir i _ s s3 one_less
                    (taken _ (ap (λ f. f files) arrays' ∙ rw (same files) kept)))))
        ]))
  | inr only ↦ rw only (
      Returns-bind (dealloc-SameDirs old 1 0 s room) (λ s2 ((dirs, arrays, _, _), _). result (
        set_dir-Removed dir i _ s s2 one_less (
          rw (none_left only)
            (sym (empty removed (omega (arith, shorter, len, none_left only))))))))
]
  where
    old : ℕ
    old = (s.dirs dir).files

    removed : List ℕ
    removed = remove_at i (dir_files s dir)

    same : (p : ℕ) → (p == p) ≡ true
    same p = ground arith

    one_less : (s.dirs dir).file_count - 1 + 1 ≡ (s.dirs dir).file_count
    one_less = omega arith

    shorter : length removed + 1 ≡ length (dir_files s dir)
    shorter = length-remove_at i (dir_files s dir) (omega (arith, len))

    taken : (xs : List ℕ) → xs ≡ removed → take ((s.dirs dir).file_count - 1) xs ≡ removed
    taken xs e =
        ap (take ((s.dirs dir).file_count - 1)) e ∙ take-all _ removed (omega (arith, shorter, len))

    none_left : ltb 1 (s.dirs dir).file_count ≡ false → (s.dirs dir).file_count - 1 ≡ 0
    none_left only = ground arith

    empty : (xs : List ℕ) → length xs ≡ 0 → xs ≡ []
    empty [] e = refl
    empty (x ∷ xs) e = absurd (omega (arith, e))

Removed-after :
    (dir i : ℕ) (s t u : Fs)
    → dir_files t dir ≡ dir_files s dir
    → (t.dirs dir).file_count ≡ (s.dirs dir).file_count
    → Removed dir i t u
    → Removed dir i s u
Removed-after dir i s t u files count (left, less) = (left ∙ ap (remove_at i) files, less ∙ count)

delete_found-Removed :
    (dir i file : ℕ) (s : Fs)
    → Room 1 4 s
    → length (dir_files s dir) ≡ (s.dirs dir).file_count
    → i < (s.dirs dir).file_count
    → Returns (Removed dir i s) (delete_found dir (some (i, file)) s)
unfolding delete_found
delete_found-Removed dir i file s room len lt =
    Returns-bind (dealloc-SameDirs _ 1 3 s room) (λ s1 ((d1, a1, _, _), room1).
      Returns-bind (dealloc-SameDirs _ 1 2 s1 room1) (λ s2 ((d2, a2, _, _), room2).
        Returns-bind (dealloc-SameDirs file 1 1 s2 room2) (λ s3 ((d3, a3, _, _), room3).
          let dirs : s3.dirs ≡ s.dirs = d3 ∙ d2 ∙ d1 in
          let arrays : s3.arrays ≡ s.arrays = a3 ∙ a2 ∙ a1 in
          let same : dir_files s3 dir ≡ dir_files s dir =
            ap₂ (λ (d : ℕ → Dir) (a : ℕ → List ℕ). take (d dir).file_count (a (d dir).files)) dirs
              arrays in
          let count : (s3.dirs dir).file_count ≡ (s.dirs dir).file_count =
            ap (λ d. (d dir).file_count) dirs in
          Returns-map
            (shrink_array-Removed dir i s3 room3 (ap length same ∙ len ∙ sym count)
              (omega (arith, count)))
            (λ u. Removed-after dir i s s3 u same count))))

-- The deletion after the search.
pub delete_file-found :
    (dir : ℕ) (name : Text) (s : Fs)
    → Room 1 4 s
    → dir ≢ 0
    → (s.dirs dir).files ≢ 0
    → length (dir_files s dir) ≡ (s.dirs dir).file_count
    → ((find_file s dir name ≡ none) × (delete_file dir name s ≡ some s))
      ⊎ ((i : ℕ) × (file : ℕ) × (find_file s dir name ≡ some (i, file))
          × Returns (Removed dir i s) (delete_file dir name s))
unfolding delete_file delete_found
delete_file-found dir name s room dir_ne files_ne len = go (find_file s dir name) refl
  where
    go :
        (found : Option (ℕ × ℕ))
        → find_file s dir name ≡ found
        → ((find_file s dir name ≡ none) × (delete_file dir name s ≡ some s))
          ⊎ ((i : ℕ) × (file : ℕ) × (find_file s dir name ≡ some (i, file))
              × Returns (Removed dir i s) (delete_file dir name s))
    go none e = inl (
      e,
      elim (Bool-cases
          ((dir == 0) || ((s.dirs dir).files == 0) || ((s.dirs dir).file_count == 0))) [
            | inl nothing ↦ rw nothing refl
            | inr some_files ↦ rw (some_files, e) refl
          ],
    )
    go (some (i, file)) e =
        let lt : i < (s.dirs dir).file_count =
          omega (arith, find_file-lt s dir name i file e, len) in
        let ok : ((dir == 0) || ((s.dirs dir).files == 0) || ((s.dirs dir).file_count == 0))
            ≡ false =
          ground arith in
        inr (i, file, e, rw (ok, e) (delete_found-Removed dir i file s room len lt))
