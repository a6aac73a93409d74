-- ===== src/Ramfs/Programs.antt =====
-- The programs of ShompOS/src/fs/ramfs_executables.c, on the file system and its terminal.
--
-- A name that is passed in is a string. `fuel` bounds the depth of a directory, and the length of a
-- file that is printed: a result is `none` where it does not suffice. `empty` is where the linker
-- puts the string "". `ramfs_run` is in Shell, since it starts a process.
pub mod Path
pub mod Files
mod Tests
use operating_system.Base.{
  ℕ, zero, suc, ◌+◌, ◌-◌, ◌%◌, Bool, true, false, not, ◌&&◌, ◌||◌, List, [], ◌∷◌, ◌++◌, Option,
  none, some, Text, codes, ◌==◌, if◌then◌else◌, length,
}
use operating_system.Heap.{u32_mod}
use operating_system.Libc.{Memory, store}
use operating_system.Terminal
use operating_system.Terminal.{writeint}
use operating_system.Ramfs.{
  File, Fs, ◌>>=◌, alloc, dealloc, find_file, find_subdir, find_dir, dir_files, dir_subdirs,
  create_dir, create_file, delete_file,
}
use operating_system.Ramfs.Descriptor.{signed, string_at}

-- `terminal_writestring`
abbrev pub say : Text → Fs → Fs
say text s = record s { terminal = Terminal.write text s.terminal }

abbrev pub say_line : Text → Text → Fs → Fs
say_line message name s = say (codes "\n") (say name (say message s))

-- The bytes of a name, as `memcpy` puts them.
pub store_text : Memory → ℕ → Text → Memory
store_text mem p [] = mem
store_text mem p (c ∷ cs) = store_text (store mem p c) (p + 1) cs

abbrev pub name_of : ℕ → Fs → Text
name_of dir s = s.names (s.dirs dir).name

-- The first loop of `ramfs_pwd`.
pub path_length : ℕ → ℕ → ℕ → Fs → Option ℕ
path_length zero dir len s = none
path_length (suc fuel) dir len s =
    let rest = path_length fuel (s.dirs dir).parent (len + (length (name_of dir s) + 1)) s in
    if dir == 0 then some len else rest

-- The second one, which writes from the end; the result is `ptr` and the memory.
pub path_loop : ℕ → ℕ → ℕ → Fs → Memory → Option (ℕ × Memory)
path_loop zero dir ptr s mem = none
path_loop (suc fuel) dir ptr s mem =
    let p = (ptr + u32_mod - length (name_of dir s)) % u32_mod in
    let named = store_text mem p (name_of dir s) in
    let q = (p + u32_mod - 1) % u32_mod in
    let rest =
      if (s.dirs dir).parent == 0
      then path_loop fuel (s.dirs dir).parent p s named
      else path_loop fuel (s.dirs dir).parent q s (store named q 47) in
    if dir == 0 then some (ptr, mem) else rest

pub ramfs_pwd : ℕ → ℕ → Fs → Option Fs
ramfs_pwd fuel dir s = if dir == 0 then some s else do
  len ← path_length fuel dir 0 s
  (path, s1) ← alloc (len + 1) s
  if path == 0 then some s1 else do
    (_, mem) ← path_loop fuel dir (path + len) s1 (store s1.memory (path + len) 0)
    text ← string_at (len + 1) mem path
    dealloc path (
        say (codes "}\n")
          (say text (say (codes "The current directory is: {") (record s1 { memory = mem }))))

pub ramfs_mkdir : ℕ → Text → Fs → Option Fs
ramfs_mkdir dir dirname s = if dir == 0 then some s else elim (find_subdir s dir dirname) [
  | some _ ↦ some (say_line (codes "Directory already exists: ") dirname s)
  | none ↦ do
    (newdir, s1) ← create_dir dir dirname s
    if newdir == 0
        then some (say_line (codes "Failed to create directory: ") dirname s1)
        else some (say_line (codes "Created directory: ") dirname s1)
]

pub ramfs_rm : ℕ → Text → Fs → Option Fs
ramfs_rm dir filename s = if dir == 0 then some s else elim (find_file s dir filename) [
  | none ↦ some (say_line (codes "File not found: ") filename s)
  | some _ ↦ do
    s1 ← delete_file dir filename s
    some (say_line (codes "Removed file: ") filename s1)
]

pub list_dirs : List ℕ → Fs → Fs
list_dirs [] s = s
list_dirs (d ∷ ds) s = list_dirs ds (say_line (codes "[DIR]  ") (name_of d s) s)

pub list_files : List ℕ → Fs → Option Fs
list_files [] s = some s
list_files (f ∷ fs) s = do
  let s1 = say (codes "    size:") (say (s.names (s.files f).name) (say (codes "[FILE] ") s))
  t ← writeint (signed (s1.files f).size) s1.terminal
  list_files fs (say (codes "\n") (record s1 { terminal = t }))

pub ramfs_ls : ℕ → ℕ → Fs → Option Fs
ramfs_ls fuel dir s = if dir == 0 then some s else do
  s1 ← ramfs_pwd fuel dir (say (codes "Contents of ") s)
  list_files (dir_files s1 dir) (list_dirs (dir_subdirs s1 dir) s1)

-- `while (*filename == ' ') filename++;`
pub trim : Text → Text
trim [] = []
trim (c ∷ cs) = if c == 32 then trim cs else c ∷ cs

pub ramfs_cat : ℕ → ℕ → Text → Fs → Option Fs
ramfs_cat fuel dir filename s =
    let name = trim filename in
    if dir == 0 then some s else elim (find_file s dir name) [
      | none ↦ some (say_line (codes "File not found: ") name s)
      | some (_, file) ↦ do
        text ← string_at fuel s.memory (s.files file).contents
        some (say (codes "\n") (say text s))
    ]

pub ramfs_touch : ℕ → ℕ → Text → Fs → Option Fs
ramfs_touch empty dir filename s =
    let name = trim filename in
    if dir == 0
    then some s
    else if length name == 0
    then some (say (codes "Usage: touch <filename>\n") s)
    else elim (find_file s dir name) [
      | some _ ↦ some (say (codes "File already exists\n") s)
      | none ↦ do
        (file, s1) ← create_file dir name empty 1 s
        if file == 0
            then some (say (codes "Failed to create file\n") s1)
            else some (say_line (codes "Created file: ") name s1)
    ]

pub ramfs_cd : ℕ → Text → Fs → Option (ℕ × Fs)
ramfs_cd root dir_name s = find_dir root dir_name s
