-- ===== src/Ramfs/Directory/Create.antt =====
-- The list of a directory's files through `ramfs_create_file` of ShompOS/src/fs/ramfs.c.
use operating_system.Base.{
  ℕ, suc, ◌+◌, ◌*◌, ◌≡◌, ◌⊎◌, inl, inr, refl, ◌∙◌, ap, ap₂, sym, true, false, ◌||◌, List, [], ◌∷◌,
  ◌++◌, some, Text, ◌==◌, if◌then◌else◌, Bool-cases, arith, length, take, length-append,
}
use operating_system.Ramfs.{
  Dir, File, Fs, ◌>>=◌, alloc, dealloc, set_dir, set_file, strdup, extend_array, dir_files,
  create_file, pointer_size,
}
use operating_system.Libc.{memcpy}
use operating_system.Ramfs.Result.{Returns, result, Returns-bind, Returns-map, Room}
use operating_system.Ramfs.Directory.{take-all, alloc-SameDirs, dealloc-SameDirs}

-- A directory without an array has no files, and any other array has as many as the count says.
pub record IsDir (s : Fs) (dir : ℕ) : Type 0 where
  pub none_left : (s.dirs dir).files ≡ 0 → (s.dirs dir).file_count ≡ 0
  pub filled : length (dir_files s dir) ≡ (s.dirs dir).file_count

-- Directories and arrays are as they were.
abbrev pub SameLists : Fs → Fs → Type 0
SameLists s s' = (s'.dirs ≡ s.dirs) × (s'.arrays ≡ s.arrays)

strdup-SameLists :
    (text : Text) (a d : ℕ) (s : Fs)
    → Room (suc a) d s
    → Returns
        (λ (p, s'). SameLists s s' × Room a d s' × ((p ≡ 0) ⊎ (s'.names p ≡ text)))
        (strdup text s)
unfolding strdup
strdup-SameLists text a d s room =
    Returns-bind (alloc-SameDirs (length text + 1) a d s room) (λ (p, s') ((d1, a1, _, _), room').
      elim (Bool-cases (p == 0)) [
        | inl e ↦ rw e (result ((d1, a1), room', inl (ground arith)))
        | inr n ↦
            let self : (p == p) ≡ true = ground arith in
            rw n (result ((d1, a1), room', inr (rw self refl)))
      ])

extend_array-append :
    (new old count added : ℕ) (s : Fs)
    → Room 0 1 s
    → (old ≡ 0 → count ≡ 0)
    → Returns
        (λ s'.
          (s'.dirs ≡ s.dirs)
          × (s'.names ≡ s.names)
          × (s'.files ≡ s.files)
          × (s'.arrays new ≡ take count (s.arrays old) ++ added ∷ []))
        (extend_array new old count added s)
unfolding extend_array
extend_array-append new old count added s room no_old = elim (Bool-cases (old == 0)) [
  | inl e ↦
      let no_count : count ≡ 0 = no_old (ground arith) in
      rw (e, no_count) (result (refl, refl, refl, rw self refl))
  | inr n ↦ rw n (
      Returns-map (dealloc-SameDirs old 0 0 _ room) (λ s' ((dirs, arrays, names, files), _).
        (dirs, names, files, ap (λ f. f new) arrays ∙ rw self refl)))
]
  where
    self : (new == new) ≡ true
    self = ground arith

-- The new file is the last one of the directory, under its name.
abbrev pub Added : ℕ → Text → Fs → ℕ → Fs → Type 0
Added dir name s file s' =
    (dir_files s' dir ≡ dir_files s dir ++ file ∷ [])
    × ((s'.dirs dir).file_count ≡ (s.dirs dir).file_count + 1)
    × (s'.names (s'.files file).name ≡ name)

last_step :
    (dir files file : ℕ) (name : Text) (s s5 : Fs)
    → IsDir s dir
    → SameLists s s5
    → Room 0 1 s5
    → s5.names (s5.files file).name ≡ name
    → Returns
        (λ (p, s'). Added dir name s p s')
        (let d = s5.dirs dir in
          ◌>>=◌ {B = ℕ × Fs} (extend_array files d.files d.file_count file s5) (λ s6.
            some
              (file, set_dir dir (record d { files = files; file_count = d.file_count + 1 }) s6)))
last_step dir files file name s s5 is_dir (dirs, arrays) room named =
    Returns-bind (extend_array-append files _ _ file s5 room no_old) (λ s6 (d6, n6, f6, a6).
      result (
        rw self (
          ap (take ((s5.dirs dir).file_count + 1)) a6
              ∙ take-all _ _ (omega (arith, full))
              ∙ ap (λ xs. xs ++ file ∷ []) old_files,
          ap (λ d. (d dir).file_count + 1) dirs,
          ap₂ (λ (n : ℕ → Text) (f : ℕ → File). n (f file).name) n6 f6 ∙ named,
        )))
  where
    self : (dir == dir) ≡ true
    self = ground arith

    no_old : (s5.dirs dir).files ≡ 0 → (s5.dirs dir).file_count ≡ 0
    no_old e =
        ap (λ d. (d dir).file_count) dirs
        ∙ is_dir.none_left (sym (ap (λ d. (d dir).files) dirs) ∙ e)

    old_files : dir_files s5 dir ≡ dir_files s dir
    old_files =
        ap₂ (λ (d : ℕ → Dir) (a : ℕ → List ℕ). take (d dir).file_count (a (d dir).files)) dirs
          arrays

    full : length (dir_files s5 dir ++ file ∷ []) ≡ (s5.dirs dir).file_count + 1
    full =
        length-append (dir_files s5 dir) (file ∷ [])
        ∙ omega (arith, ap length old_files, is_dir.filled, ap (λ d. (d dir).file_count) dirs)

-- Nothing was created, and the directory's files are as they were.
abbrev pub NotAdded : ℕ → Fs → ℕ → Fs → Type 0
NotAdded dir s file s' =
    (file ≡ 0)
    × (dir_files s' dir ≡ dir_files s dir)
    × ((s'.dirs dir).file_count ≡ (s.dirs dir).file_count)

SameLists-NotAdded : (dir : ℕ) (s s' : Fs) → SameLists s s' → NotAdded dir s 0 s'
SameLists-NotAdded dir s s' (dirs, arrays) = (
  refl,
  ap₂ (λ (d : ℕ → Dir) (a : ℕ → List ℕ). take (d dir).file_count (a (d dir).files)) dirs arrays,
  ap (λ d. (d dir).file_count) dirs,
)

SameLists-trans : (s t u : Fs) → SameLists s t → SameLists t u → SameLists s u
SameLists-trans s t u (a, b) (c, d) = (c ∙ a, d ∙ b)

-- The file is filled in, and the directory gets an array for it.
create_last :
    (dir : ℕ) (name : Text) (file name_ptr contents data_ptr size : ℕ) (s s3 : Fs)
    → IsDir s dir
    → SameLists s s3
    → Room 1 3 s3
    → s3.names name_ptr ≡ name
    → Returns
        (λ (p, s'). NotAdded dir s p s' ⊎ Added dir name s p s')
        (let s4 =
            set_file file
              (record { name = name_ptr; contents = contents; size = size })
              (record s3 { memory = memcpy s3.memory contents data_ptr size }) in
          ◌>>=◌ {B = ℕ × Fs}
            (alloc (((s4.dirs dir).file_count + 1) * pointer_size) s4)
            (λ (files, s5).
              if files == 0
              then ◌>>=◌ {B = ℕ × Fs} (dealloc contents s5) (λ s6.
                ◌>>=◌ {B = ℕ × Fs}
                  (dealloc name_ptr s6)
                  (λ s7. ◌>>=◌ {B = ℕ × Fs} (dealloc file s7) (λ s8. some (0, s8))))
              else (let d = s5.dirs dir in
                  ◌>>=◌ {B = ℕ × Fs} (extend_array files d.files d.file_count file s5) (λ s6. some (
                    file,
                    set_dir dir (record d { files = files; file_count = d.file_count + 1 }) s6,
                  )))))
create_last dir name file name_ptr contents data_ptr size s s3 is_dir l3 (low, high) named =
    Returns-bind (alloc-SameDirs _ 0 3 _ (low, high))
      (λ (files, s5) ((d5, a5, n5, f5), (low5, high5)).
        let l5 = SameLists-trans s s3 s5 l3 (d5, a5) in
        elim (Bool-cases (files == 0)) [
          | inl e ↦ rw e (
              Returns-bind (dealloc-SameDirs contents 0 2 s5 (low5, high5))
                (λ s6 ((d6, a6, _, _), r6).
                  Returns-bind (dealloc-SameDirs name_ptr 0 1 s6 r6) (λ s7 ((d7, a7, _, _), r7).
                    Returns-bind (dealloc-SameDirs file 0 0 s7 r7) (λ s8 ((d8, a8, _, _), _).
                      result (
                        inl (
                          SameLists-NotAdded dir s s8
                            (SameLists-trans s s5 s8 l5 (d8 ∙ d7 ∙ d6, a8 ∙ a7 ∙ a6))))))))
          | inr n ↦ rw n (
              Returns-map
                (last_step dir files file name s s5 is_dir l5 (omega arith, high5)
                  (ap₂ (λ (m : ℕ → Text) (f : ℕ → File). m (f file).name) n5 f5 ∙ rw self named))
                (λ r. inr))
        ])
  where
    self : (file == file) ≡ true
    self = ground arith

name_at :
    {p : ℕ} {here : Text} {name : Text} → (p == 0) ≡ false → (p ≡ 0) ⊎ (here ≡ name) → here ≡ name
name_at n (inl z) = absurd (ground (arith, n, z))
name_at n (inr e) = e

-- `ramfs_create_file` in a directory whose list has as many files as the count says returns, where
-- the heap has room to grow by four blocks and shrink by three. Either there is no file, and the
-- directory's files and count are as they were; or the new file is behind them, the count is one
-- more, and the file has the name.
pub create_file-Added :
    (dir : ℕ) (name : Text) (data_ptr size : ℕ) (s : Fs)
    → Room 4 3 s
    → IsDir s dir
    → Returns
        (λ (file, s'). NotAdded dir s file s' ⊎ Added dir name s file s')
        (create_file dir name data_ptr size s)
unfolding create_file
create_file-Added dir name data_ptr size s room is_dir =
    elim (Bool-cases ((dir == 0) || (data_ptr == 0))) [
      | inl null ↦ rw null (result (inl (refl, refl, refl)))
      | inr ok ↦ rw ok (
          Returns-bind (alloc-SameDirs _ 3 3 s room) (λ (file, s1) ((d1, a1, _, _), r1).
            elim (Bool-cases (file == 0)) [
              | inl e ↦ rw e (result (inl (SameLists-NotAdded dir s s1 (d1, a1))))
              | inr n ↦ rw n (
                  Returns-bind (strdup-SameLists name 2 3 s1 r1) (λ (name_ptr, s2) (l2, r2, named).
                    let l2' = SameLists-trans s s1 s2 (d1, a1) l2 in
                    elim (Bool-cases (name_ptr == 0)) [
                      | inl e ↦ rw e (
                          Returns-bind (dealloc-SameDirs file 2 2 s2 r2) (λ s3 ((d3, a3, _, _), _).
                            result (
                              inl (
                                SameLists-NotAdded dir s s3
                                  (SameLists-trans s s2 s3 l2' (d3, a3))))))
                      | inr n' ↦ rw n' (
                          Returns-bind (alloc-SameDirs _ 1 3 s2 r2)
                            (λ (contents, s3) ((d3, a3, n3, _), r3).
                              let l3 = SameLists-trans s s2 s3 l2' (d3, a3) in
                              elim (Bool-cases (contents == 0)) [
                                | inl e ↦ rw e (
                                    Returns-bind (dealloc-SameDirs name_ptr 1 2 s3 r3)
                                      (λ s4 ((d4, a4, _, _), r4).
                                        Returns-bind (dealloc-SameDirs file 1 1 s4 r4)
                                          (λ s5 ((d5, a5, _, _), _). result (
                                            inl (
                                              SameLists-NotAdded dir s s5
                                                (SameLists-trans s s3 s5 l3 (d5 ∙ d4, a5 ∙ a4)))))))
                                | inr n'' ↦ rw n'' (
                                    create_last dir name file name_ptr contents data_ptr size s s3
                                      is_dir l3 r3 (ap (λ f. f name_ptr) n3 ∙ name_at n' named))
                              ]))
                    ]))
            ]))
    ]
