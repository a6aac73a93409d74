-- ===== src/Ramfs/Programs/Files.antt =====
-- `ramfs_touch` and `ramfs_rm` of ShompOS/src/fs/ramfs_executables.c on a directory's files.
use operating_system.Base.{
  ap, ◌∙◌, suc, ap₂, ==_iff, [], ◌∷◌, ◌++◌, replicate, ℕ, ◌≡◌, ◌≢◌, ◌⊎◌, inl, inr, refl, false,
  Option, none, some, Text, codes, arith, ◌==◌, if◌then◌else◌, Bool-cases, length,
}
use operating_system.Ramfs.{Fs, ◌>>=◌, find_file, dir_files, create_file}
use operating_system.Ramfs.Result.{Returns, result, Returns-bind, Returns-bind-with, Room}
use operating_system.Ramfs.Directory.{Removed, delete_file-found}
use operating_system.Ramfs.Directory.Names.{IsFirstFile, NoFile, find_file-first, find_file-none}
use operating_system.Ramfs.Directory.Create.{IsDir, Added, create_file-Added}
use operating_system.Ramfs.Programs.{say, say_line, trim, ramfs_touch, ramfs_rm}

-- The directory's list of files is as it was.
abbrev pub Kept : ℕ → Fs → Fs → Type 0
Kept dir s s' =
    (dir_files s' dir ≡ dir_files s dir) × ((s'.dirs dir).file_count ≡ (s.dirs dir).file_count)

-- A text that does not begin with a space.
abbrev pub NoSpace : Text → Type 0
NoSpace [] = Unit
NoSpace (c ∷ cs) = c ≢ 32

-- What a text is behind its leading spaces.
abbrev pub Behind : Text → Text → Type 0
Behind text rest = (n : ℕ) × (text ≡ replicate n 32 ++ rest) × NoSpace rest

pub trim-Behind : (text : Text) → Behind text (trim text)
unfolding trim
trim-Behind [] = (0, refl, tt)
trim-Behind (c ∷ cs) = elim (Bool-cases (c == 32)) [
  | inl space ↦
      let (n, same, behind) = trim-Behind cs in
      rw space (suc n, ap₂ (λ d ds. d ∷ ds) ((==_iff c 32).0 space) same, behind)
  | inr other ↦ rw other (0, refl, ground arith)
]

-- Why no file is made: there is no directory or no name, a file has the name, or `ramfs_create_file`
-- gives none.
pub data Refused (empty dir : ℕ) (name : Text) (s : Fs) : Type 0 where
  no_directory : dir ≡ 0 → Refused empty dir name s
  no_name : name ≡ [] → Refused empty dir name s
  in_use : (i file : ℕ) → IsFirstFile s dir name i file → Refused empty dir name s
  not_created : (t : Fs) → create_file dir name empty 1 s ≡ some (0, t) → Refused empty dir name s

-- The directory after `ramfs_touch` of a name without leading spaces.
abbrev pub Touched : ℕ → ℕ → Text → Fs → Fs → Type 0
Touched empty dir name s s' =
    (Kept dir s s' × Refused empty dir name s)
    ⊎ ((file : ℕ) × NoFile s dir name × Added dir name s file s')

no_length : (text : Text) → length text ≡ 0 → text ≡ []
no_length [] e = refl
no_length (c ∷ cs) e = absurd (omega (arith, e))

module _ (empty dir : ℕ) (name : Text) (s : Fs) (room : Room 4 3 s) (is_dir : IsDir s dir) where
  create_named-Touched :
      NoFile s dir name
      → Returns (Touched empty dir name s) (do
        (file, s1) ← create_file dir name empty 1 s
        if file == 0
            then some (say (codes "Failed to create file\n") s1)
            else some (say_line (codes "Created file: ") name s1))
  create_named-Touched missing =
      Returns-bind-with (create_file-Added dir name empty 1 s room is_dir) (λ (file, s1) e cases.
        elim (Bool-cases (file == 0)) [
          | inl null ↦ rw null (elim cases [
            | inl (_, same, count) ↦
                let none_made : file ≡ 0 = ground arith in
                result (
                  inl
                    ((same, count), Refused.not_created s1 (e ∙ ap (λ p. some (p, s1)) none_made)))
            | inr added ↦ result (inr (file, missing, added))
          ])
          | inr ok ↦ rw ok (elim cases [
            | inl (null, _, _) ↦ absurd (ground arith)
            | inr added ↦ result (inr (file, missing, added))
          ])
        ])

  touch_found-Touched :
      (found : Option (ℕ × ℕ))
      → find_file s dir name ≡ found
      → Returns (Touched empty dir name s) (elim found as (λ x. Option Fs) [
        | some _ ↦ some (say (codes "File already exists\n") s)
        | none ↦ do
          (file, s1) ← create_file dir name empty 1 s
          if file == 0
              then some (say (codes "Failed to create file\n") s1)
              else some (say_line (codes "Created file: ") name s1)
      ])
  touch_found-Touched (some (i, file)) e =
      result (inl ((refl, refl), Refused.in_use i file (find_file-first s dir name i file e)))
  touch_found-Touched none e = create_named-Touched (find_file-none s dir name e)

-- `ramfs_touch` in a directory whose list has as many files as the count says returns, where the
-- heap has room to grow by four blocks and shrink by three. The name is what stands behind the
-- leading spaces. Either no file had that name, and one has it now, behind the others; or the
-- directory has the files it had, because there is no directory or no name, a file has the name
-- already, or `ramfs_create_file` gives none.
pub ramfs_touch-Added :
    (empty dir : ℕ) (filename : Text) (s : Fs)
    → Room 4 3 s
    → IsDir s dir
    → (name : Text) × Behind filename name
      × Returns (Touched empty dir name s) (ramfs_touch empty dir filename s)
unfolding ramfs_touch
ramfs_touch-Added empty dir filename s room is_dir = (
  trim filename,
  trim-Behind filename,
  elim (Bool-cases (dir == 0)) [
    | inl null ↦ rw null (result (inl ((refl, refl), Refused.no_directory (ground arith))))
    | inr real ↦ elim (Bool-cases (length (trim filename) == 0)) [
      | inl no_text ↦
          let short : length (trim filename) ≡ 0 = ground arith in
          let nameless = no_length (trim filename) short in
          rw (real, no_text) (result (inl ((refl, refl), Refused.no_name nameless)))
      | inr named ↦
          rw (real, named)
            (touch_found-Touched empty dir (trim filename) s room is_dir
              (find_file s dir (trim filename)) refl)
    ]
  ],
)

-- `ramfs_rm` in a directory with a list returns, where the heap has room to grow by one block and
-- shrink by four. Either no file has the name, and the directory's files are as they were, or the
-- first one that has it is gone.
ramfs_rm-Removed :
    (dir : ℕ) (filename : Text) (s : Fs)
    → Room 1 4 s
    → dir ≢ 0
    → (s.dirs dir).files ≢ 0
    → length (dir_files s dir) ≡ (s.dirs dir).file_count
    → Returns
        (λ s'.
          (NoFile s dir filename × Kept dir s s')
          ⊎ ((i : ℕ) × (file : ℕ) × IsFirstFile s dir filename i file × Removed dir i s s'))
        (ramfs_rm dir filename s)
unfolding ramfs_rm
ramfs_rm-Removed dir filename s room dir_ne files_ne len =
    let real : (dir == 0) ≡ false = ground arith in
    rw real (elim (delete_file-found dir filename s room dir_ne files_ne len) [
      | inl (missing, _) ↦
          let none_left = find_file-none s dir filename missing in
          rw missing (result (inl (none_left, (refl, refl))))
      | inr (i, file, found, runs) ↦
          let first = find_file-first s dir filename i file found in
          rw found (Returns-bind runs (λ s1 removed. result (inr (i, file, first, removed))))
    ])
