-- ===== src/Ramfs.antt =====
-- The files and directories of the file system in memory, ShompOS/src/fs/ramfs.c and
-- ShompOS/inc/fs/ramfs.h.
--
-- A pointer is an address, 0 for NULL; `contents` is the field `data`. The blocks come from the heap of Heap.Api. What a block holds
-- is kept by its address and its type: `names` are the strings, `files` and `dirs` the structures,
-- `arrays` the arrays of pointers, `memory` the bytes of the files. Each stays until it is written
-- again. An operation is `none` where the allocator faults.
pub mod Result
pub mod Directory
pub mod Descriptor
pub mod Programs
pub mod Start
use operating_system.Base.{
  ℕ, zero, suc, ◌+◌, ◌-◌, ◌*◌, Bool, true, false, not, ◌&&◌, ◌||◌, List, [], ◌∷◌, ◌++◌, Option,
  none, some, Text, codes, ltb, ◌==◌, if◌then◌else◌, get_or, set, take, drop, length,
}
use operating_system.Heap.{Heap, update}
use operating_system.Heap.Api.{allocate, free}
use operating_system.Libc.{Memory, memcpy}
use operating_system.Terminal.{Terminal}

pub record File : Type 0 where
  pub name : ℕ
  pub contents : ℕ
  pub size : ℕ

pub record Dir : Type 0 where
  pub name : ℕ
  pub parent : ℕ
  pub files : ℕ
  pub file_count : ℕ
  pub subdirs : ℕ
  pub subdir_count : ℕ

-- An open file: `ramfs_fd_t` without the copy of its index.
pub record Fd : Type 0 where
  pub fd : ℕ
  pub file : ℕ
  pub position : ℕ
  pub flags : ℕ

pub record Fs : Type 0 where
  pub heap : Heap
  pub memory : Memory
  pub names : ℕ → Text
  pub files : ℕ → File
  pub dirs : ℕ → Dir
  pub arrays : ℕ → List ℕ
  pub fds : ℕ → Fd
  pub fd_table : List ℕ
  pub fd_count : ℕ
  pub terminal : Terminal

infixl 5 ◌>>=◌
unfoldable pub ◌>>=◌ {ℓ κ} : {A : Type ℓ} {B : Type κ} → Option A → (A → Option B) → Option B
none >>= f = none
some a >>= f = f a

-- `allocate` and `free`, as operations of the file system's state.
pub alloc : ℕ → Fs → Option (ℕ × Fs)
alloc size s = do (p, h) ← allocate size s.heap; some (p, record s { heap = h })

pub dealloc : ℕ → Fs → Option Fs
dealloc p s = do (_, h) ← free p s.heap; some (record s { heap = h })

abbrev pub set_dir : ℕ → Dir → Fs → Fs
set_dir p d s = record s { dirs = λ a. if a == p then d else s.dirs a }

abbrev pub set_file : ℕ → File → Fs → Fs
set_file p f s = record s { files = λ a. if a == p then f else s.files a }

abbrev pub set_name : ℕ → Text → Fs → Fs
set_name p text s = record s { names = λ a. if a == p then text else s.names a }

abbrev pub set_array : ℕ → List ℕ → Fs → Fs
set_array p xs s = record s { arrays = λ a. if a == p then xs else s.arrays a }

abbrev pub pointer_size : ℕ
pointer_size = 4

abbrev pub dir_size : ℕ
dir_size = 24

abbrev pub file_size : ℕ
file_size = 12

pub strdup : Text → Fs → Option (ℕ × Fs)
strdup text s = do
  (p, s') ← alloc (length text + 1) s
  if p == 0 then some (0, s') else some (p, set_name p text s')

-- `strcmp(a, b) == 0`
abbrev pub text_eq : Text → Text → Bool
text_eq [] [] = true
text_eq (x ∷ xs) (y ∷ ys) = (x == y) && text_eq xs ys
text_eq _ _ = false

pub create_root : Fs → Option (ℕ × Fs)
create_root s = do
  (root, s1) ← alloc dir_size s
  if root == 0 then some (0, s1) else do
    (name, s2) ← strdup (codes "/") s1
    some (
      root,
      set_dir root
          (record {
            name = name;
            parent = 0;
            files = 0;
            file_count = 0;
            subdirs = 0;
            subdir_count = 0;
          })
          s2,
    )

-- The array at `old`, of `count` pointers, moves to `new` with one pointer more, and is freed.
pub extend_array : ℕ → ℕ → ℕ → ℕ → Fs → Option Fs
extend_array new old count added s = do
  let s' = set_array new (take count (s.arrays old) ++ added ∷ []) s
  if old == 0 then some (set_array new (added ∷ []) s) else dealloc old s'

pub create_dir : ℕ → Text → Fs → Option (ℕ × Fs)
create_dir parent name s = if parent == 0 then some (0, s) else do
  (dir, s1) ← alloc dir_size s
  if dir == 0 then some (0, s1) else do
    (name_ptr, s2) ← strdup name s1
    let s3 =
        set_dir dir
          (record {
            name = name_ptr;
            parent = parent;
            files = 0;
            file_count = 0;
            subdirs = 0;
            subdir_count = 0;
          })
          s2
    (subdirs, s4) ← alloc (((s3.dirs parent).subdir_count + 1) * pointer_size) s3
    if subdirs == 0 then (do s5 ← dealloc dir s4; some (0, s5)) else do
      let p = s4.dirs parent
      s5 ← extend_array subdirs p.subdirs p.subdir_count dir s4
      some (
        dir,
        set_dir parent (record p { subdirs = subdirs; subdir_count = p.subdir_count + 1 }) s5,
      )

pub create_file : ℕ → Text → ℕ → ℕ → Fs → Option (ℕ × Fs)
create_file dir name data_ptr size s = if (dir == 0) || (data_ptr == 0) then some (0, s) else do
  (file, s1) ← alloc file_size s
  if file == 0 then some (0, s1) else do
    (name_ptr, s2) ← strdup name s1
    if name_ptr == 0 then (do s3 ← dealloc file s2; some (0, s3)) else do
      (contents, s3) ← alloc (if size == 0 then 1 else size) s2
      if contents == 0
          then (do s4 ← dealloc name_ptr s3; s5 ← dealloc file s4; some (0, s5))
          else do
            let s4 =
                set_file file (record { name = name_ptr; contents = contents; size = size })
                  (record s3 { memory = memcpy s3.memory contents data_ptr size })
            (files, s5) ← alloc (((s4.dirs dir).file_count + 1) * pointer_size) s4
            if files == 0
                then (do
                  s6 ← dealloc contents s5
                  s7 ← dealloc name_ptr s6
                  s8 ← dealloc file s7
                  some (0, s8))
                else do
                  let d = s5.dirs dir
                  s6 ← extend_array files d.files d.file_count file s5
                  some (
                    file,
                    set_dir dir (record d { files = files; file_count = d.file_count + 1 }) s6,
                  )

-- The first of the pointers, as far as they are given, whose object has the name, and its index.
pub find_named : (ℕ → Text) → Text → List ℕ → Option (ℕ × ℕ)
find_named name_of name [] = none
find_named name_of name (p ∷ ps) =
    let rest = find_named name_of name ps in
    if text_eq (name_of p) name then some (0, p) else do (i, q) ← rest; some (i + 1, q)

abbrev pub dir_files : Fs → ℕ → List ℕ
dir_files s dir = take (s.dirs dir).file_count (s.arrays (s.dirs dir).files)

abbrev pub dir_subdirs : Fs → ℕ → List ℕ
dir_subdirs s dir = take (s.dirs dir).subdir_count (s.arrays (s.dirs dir).subdirs)

pub find_file : Fs → ℕ → Text → Option (ℕ × ℕ)
find_file s dir name = find_named (λ f. s.names (s.files f).name) name (dir_files s dir)

pub find_subdir : Fs → ℕ → Text → Option (ℕ × ℕ)
find_subdir s dir name = find_named (λ d. s.names (s.dirs d).name) name (dir_subdirs s dir)

-- The entries behind the `i`-th move one place to the left.
abbrev pub remove_at : ℕ → List ℕ → List ℕ
remove_at i xs = take i xs ++ drop (i + 1) xs

-- The array after the file is freed: a smaller copy of it, itself if there is no memory for one, or
-- no array at all if this was the only file.
pub shrink_array : ℕ → ℕ → Fs → Option Fs
shrink_array dir i s = do
  let d = s.dirs dir
  let s1 = set_array d.files (remove_at i (dir_files s dir)) s
  if ltb 1 d.file_count
      then (do
        (files, s2) ← alloc ((d.file_count - 1) * pointer_size) s1
        if files == 0
            then some (set_dir dir (record d { file_count = d.file_count - 1 }) s2)
            else do
              s3 ← dealloc d.files (set_array files (s2.arrays d.files) s2)
              some (set_dir dir (record d { files = files; file_count = d.file_count - 1 }) s3))
      else do
        s2 ← dealloc d.files s
        some (set_dir dir (record d { files = 0; file_count = d.file_count - 1 }) s2)

delete_found : ℕ → Option (ℕ × ℕ) → Fs → Option Fs
unfolding shrink_array
delete_found dir none s = some s
delete_found dir (some (i, file)) s = do
  s1 ← dealloc (s.files file).name s
  s2 ← dealloc (s.files file).contents s1
  s3 ← dealloc file s2
  shrink_array dir i s3

pub delete_file : ℕ → Text → Fs → Option Fs
delete_file dir name s =
    if (dir == 0) || ((s.dirs dir).files == 0) || ((s.dirs dir).file_count == 0)
    then some s
    else delete_found dir (find_file s dir name) s

-- The tokens that `strtok` gives of a string at the delimiter '/', one call after the other: the
-- parts between slashes that are not empty. `token` is the part that is being read.
pub tokens_from : Text → Text → List Text
tokens_from token [] = if length token == 0 then [] else token ∷ []
tokens_from token (c ∷ cs) =
    if c == 47
    then (if length token == 0 then tokens_from [] cs else token ∷ tokens_from [] cs)
    else tokens_from (token ++ c ∷ []) cs

-- `while (token)` of `ramfs_find_dir`; the result is 0 where a directory is missing.
pub walk : Fs → ℕ → List Text → ℕ
walk s current [] = current
walk s current (token ∷ tokens) = elim (find_subdir s current token) [
  | none ↦ 0
  | some (i, d) ↦ walk s d tokens
]

pub find_dir : ℕ → Text → Fs → Option (ℕ × Fs)
find_dir root path s =
    if root == 0
    then some (0, s)
    else (if text_eq path (codes "/") then some (root, s) else do
      (copy, s1) ← strdup path s
      if copy == 0
          then some (0, s1)
          else do s2 ← dealloc copy s1; some (walk s1 root (tokens_from [] path), s2))
