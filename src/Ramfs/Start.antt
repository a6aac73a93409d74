-- ===== src/Ramfs/Start.antt =====
-- How the kernel fills its file system: `init_fs` and `init_stdio` of ShompOS/src/fs/ramfs.c.
--
-- `init_mnt` is what ShompOS/scripts/mnt_setup_2.awk prints, for a list of directories and files that
-- the build gives.
use operating_system.Base.{
  ℕ, ◌+◌, ◌-◌, ◌%◌, ◌||◌, Text, List, [], ◌∷◌, Option, some, codes, ◌==◌, if◌then◌else◌, length,
}
use operating_system.Base.Int.{ℤ, pos, negsuc}
use operating_system.Heap.{u32_mod}
use operating_system.Libc.{store, memset}
use operating_system.Ramfs.{Fs, ◌>>=◌, text_eq, create_root, create_dir, create_file}
use operating_system.Ramfs.Descriptor.{
  failed, string_at, seek_set, ramfs_open, ramfs_read, ramfs_write, ramfs_seek,
}
use operating_system.Ramfs.Programs.{say}

-- A line of the list that `scripts/mnt_setup.sh` makes of the directory to mount: the C variable of
-- the parent, a name, and the variable of the new directory or the bytes of the file.
pub data Mount : Type 0 where
  mount_dir : Text → Text → Text → Mount
  mount_file : Text → Text → ℕ → ℕ → Mount

-- The C variables that hold directories.
abbrev pub Variables : Type 0
Variables = Text → ℕ

abbrev pub declare : Text → ℕ → Variables → Variables
declare symbol dir vars name = if text_eq name symbol then dir else vars name

-- The calls that `mnt_setup_2.awk` prints, a line each; their results are not tested.
pub mount : List Mount → Variables → Fs → Option Fs
mount [] vars s = some s
mount (mount_dir parent name symbol ∷ rest) vars s = do
  (dir, s') ← create_dir (vars parent) name s
  mount rest (declare symbol dir vars) s'
mount (mount_file parent name start size ∷ rest) vars s = do
  (_, s') ← create_file (vars parent) name start size s
  mount rest vars s'

-- The function that it prints, for the mounted directory's variable and the list.
pub init_mnt : Text → List Mount → ℕ → Fs → Option (ℤ × Fs)
init_mnt symbol mounts mnt s = do
  s' ← mount mounts (declare symbol mnt (λ _. 0)) s
  some (pos 0, s')

-- `if (init_mnt(root)) { return NULL; }`
abbrev mounted : ℕ → ℤ → ℕ
mounted root (pos n) = if n == 0 then root else 0
mounted root (negsuc n) = 0

-- The root, or 0.
pub init_fs : Text → List Mount → Fs → Option (ℕ × Fs)
init_fs symbol mounts s = do
  (root, s1) ← create_root s
  if root == 0
      then some (0, s1)
      else do (status, s2) ← init_mnt symbol mounts root s1; some (mounted root status, s2)

-- `O_WRONLY`, and `O_RDWR | O_APPEND`
abbrev pub o_wronly : ℕ
o_wronly = 2

abbrev pub o_rdwr_append : ℕ
o_rdwr_append = 7

abbrev pub welcome : Text
welcome = codes "Welcome to ShompOS. This message demonstrates read and write capabilities.\n"

-- `&read_data[r]`
abbrev pub index : ℕ → ℤ → ℕ
index array (pos n) = array + n
index array (negsuc n) = (array + u32_mod - (n + 1)) % u32_mod

-- The demonstration behind the streams: a file is written, and read into an array at `local` that is
-- then printed. `message` is where the linker puts the text, `empty` the string "".
pub demonstrate : ℕ → (Fs → Option Fs) → ℕ → ℕ → ℕ → ℕ → Fs → Option Fs
demonstrate fuel keyboard empty message local root s = do
  (_, s1) ← create_file root (codes "FD-test") empty 0 s
  (test_fd, s2) ← ramfs_open root (codes "FD-test") o_rdwr_append s1
  (_, s3) ← ramfs_write fuel test_fd message (length welcome) s2
  let s4 = (ramfs_seek test_fd 0 seek_set s3).1
  (r, s5) ←
      ramfs_read keyboard test_fd local 79 (record s4 { memory = memset s4.memory local 0 80 })
  let s6 = record s5 { memory = store s5.memory (index local r) 0 }
  text ← string_at fuel s6.memory local
  some (say text s6)

pub init_stdio : ℕ → (Fs → Option Fs) → ℕ → ℕ → ℕ → ℕ → Fs → Option (ℤ × Fs)
unfolding demonstrate
init_stdio fuel keyboard empty message local root s = do
  (stdin, s1) ← create_file root (codes "stdin") empty 0 s
  (stdout, s2) ← create_file root (codes "stdout") empty 0 s1
  (stderr, s3) ← create_file root (codes "stderr") empty 0 s2
  if (stdin == 0) || (stdout == 0) || (stderr == 0) then some (failed, s3) else do
    (_, s4) ← ramfs_open root (codes "stdin") o_rdwr_append s3
    (_, s5) ← ramfs_open root (codes "stdout") o_wronly s4
    (_, s6) ← ramfs_open root (codes "stderr") o_wronly s5
    s7 ← demonstrate fuel keyboard empty message local root s6
    some (pos 0, s7)
