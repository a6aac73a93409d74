-- ===== src/Ramfs/Programs/Tests.antt =====
-- The theorems on the programs of ShompOS/src/fs/ramfs_executables.c at concrete directories.
use operating_system.Base.{
  Text, ℕ, ◌+◌, ◌≤◌, ◌≡◌, ◌⊎◌, refl, [], ◌∷◌, some, codes, arith, ◌==◌, if◌then◌else◌, length,
}
use operating_system.Libc.{Memory}
use operating_system.Ramfs.{Fs}
use operating_system.Ramfs.Result.{Returns}
use operating_system.Ramfs.Descriptor.Tests.{fs, fs-IsDir}
use operating_system.Ramfs.Programs.{trim, path_length, path_loop, ramfs_touch}
use operating_system.Ramfs.Programs.Path.{path_text, Holds, path_loop-path_text}
use operating_system.Ramfs.Programs.Files.{Behind, Touched, ramfs_touch-Added}

trim_example : trim (codes "  todo ") ≡ codes "todo "
unfolding trim
trim_example = refl

-- The directory 0x20 is `home` in the root 0x10.
abbrev tree : Fs
tree = record fs {
  names = λ p. if p == 0x30 then codes "/" else codes "home";
  dirs = λ d. record {
    name = if d == 0x10 then 0x30 else 0x40;
    parent = if d == 0x20 then 0x10 else 0;
    files = 0;
    file_count = 0;
    subdirs = 0;
    subdir_count = 0;
  };
}

tree_path : path_text tree (0x20 ∷ 0x10 ∷ []) ≡ codes "//home"
tree_path = refl

path_loop-path_text_example :
    (len : ℕ) × (mem' : Memory) × (path_length 3 0x20 0 tree ≡ some len)
    × (path_loop 3 0x20 (0x9000 + len) tree tree.memory ≡ some (0x9001, mem'))
    × (len ≡ length (path_text tree (0x20 ∷ 0x10 ∷ [])) + 1)
    × Holds mem' 0x9001 (path_text tree (0x20 ∷ 0x10 ∷ []))
    × ((a : ℕ) → (a ≤ 0x9000) ⊎ (0x9000 + len ≤ a) → mem' a ≡ tree.memory a)
path_loop-path_text_example =
    path_loop-path_text 3 tree 0x20 (0x10 ∷ []) 0x9000 tree.memory
      (omega arith, refl, (omega arith, refl, tt)) (omega arith) (omega arith)

ramfs_touch-Added_example :
    (name : Text) × Behind (codes " todo") name
    × Returns (Touched 0x100 0xB000 name fs) (ramfs_touch 0x100 0xB000 (codes " todo") fs)
ramfs_touch-Added_example =
    ramfs_touch-Added 0x100 0xB000 (codes " todo") fs (omega arith, omega arith) fs-IsDir
