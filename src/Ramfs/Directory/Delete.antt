-- ===== src/Ramfs/Directory/Delete.antt =====
-- Which file `ramfs_delete_file` of ShompOS/src/fs/ramfs.c removes.
use operating_system.Base.{ℕ, ◌≡◌, ◌≢◌, ◌⊎◌, inl, inr, some, Text, length}
use operating_system.Ramfs.{Fs, dir_files, delete_file}
use operating_system.Ramfs.Result.{Returns, Room}
use operating_system.Ramfs.Directory.{Removed, delete_file-found}
use operating_system.Ramfs.Directory.Names.{IsFirstFile, NoFile, find_file-first, find_file-none}

-- `ramfs_delete_file` in a directory with a list returns, where the heap has room to grow by one
-- block and shrink by four and the list has as many files as the count says. If no file of the
-- directory has the name, nothing changes. Otherwise the first one that has it leaves the
-- directory, which keeps the others in their order, and the count is one less.
pub delete_file-Removed :
    (dir : ℕ) (name : Text) (s : Fs)
    → Room 1 4 s
    → dir ≢ 0
    → (s.dirs dir).files ≢ 0
    → length (dir_files s dir) ≡ (s.dirs dir).file_count
    → (NoFile s dir name × (delete_file dir name s ≡ some s))
      ⊎ ((i : ℕ) × (file : ℕ) × IsFirstFile s dir name i file
          × Returns (Removed dir i s) (delete_file dir name s))
delete_file-Removed dir name s room dir_ne files_ne len =
    elim (delete_file-found dir name s room dir_ne files_ne len) [
      | inl (missing, same) ↦ inl (find_file-none s dir name missing, same)
      | inr (i, file, found, runs) ↦ inr (i, file, find_file-first s dir name i file found, runs)
    ]
