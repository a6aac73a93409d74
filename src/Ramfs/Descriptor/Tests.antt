-- ===== src/Ramfs/Descriptor/Tests.antt =====
-- The theorems about files and descriptors at a concrete file system.
use operating_system.Base.{
  ℕ, ◌%◌, ◌+◌, ◌≤◌, ◌≡◌, ◌⊎◌, refl, sym, ap, [], ◌∷◌, none, some, codes, arith, set, replicate,
}
use operating_system.Base.Int.{pos}
use operating_system.Heap.{heap_lower_bound, header_size}
use operating_system.Heap.Api.Grow.{allocate-grown}
use operating_system.Heap.Api.Tests.{blank, blank-FreeLists}
use operating_system.Libc.Copy.{copied}
use mathlib.Core.Option.{some-injective}
use operating_system.Ramfs.Descriptor.Again.{ReadsBack, ramfs_read-ramfs_write}
use operating_system.Ramfs.{File, ◌>>=◌, Fs, create_file, delete_file}
use operating_system.Ramfs.Directory.{Removed}
use operating_system.Ramfs.Directory.Names.{IsFirstFile, NoFile}
use operating_system.Ramfs.Directory.Delete.{delete_file-Removed}
use operating_system.Ramfs.Directory.Create.{IsDir, Added, NotAdded, create_file-Added}
use operating_system.Ramfs.Descriptor.{
  entry_of, ramfs_open, ramfs_close, ramfs_read, ramfs_write, write_entry, resize, failed,
}
use operating_system.Ramfs.Result.{Returns}
use operating_system.Ramfs.Descriptor.Table.{Same, Opened, standard, ramfs_open-Opened}
use operating_system.Ramfs.Descriptor.Count.{Counted, used, ramfs_close-Counted}
use operating_system.Ramfs.Descriptor.Read.{file_of, left_of, ramfs_read-bytes}
use operating_system.Ramfs.Descriptor.Write.{Fresh, Written, ramfs_write-Written}

-- Descriptor 3 has the only file open, five bytes long, for reading and writing at byte 2.
abbrev pub fs : Fs
fs = record {
  heap = blank;
  memory = λ a. a % 256;
  names = λ _. codes "notes";
  files = λ _. record { name = 0x7000; contents = 0x8000; size = 5 };
  dirs = λ _. record {
    name = 0x7800;
    parent = 0;
    files = 0xA000;
    file_count = 1;
    subdirs = 0;
    subdir_count = 0;
  };
  arrays = λ _. 0x6000 ∷ [];
  fds = λ _. record { fd = 3; file = 0x6000; position = 2; flags = 3 };
  fd_table = 0 ∷ 0 ∷ 0 ∷ 0x5000 ∷ replicate 60 0;
  fd_count = 1;
  terminal = record {
    terminal_row = 0;
    terminal_column = 0;
    terminal_color = 7;
    terminal_buffer = λ _. 0;
  };
}

fs-entry : entry_of (pos 3) fs.fd_table ≡ 0x5000
unfolding entry_of
fs-entry = refl

fs-Counted : Counted fs
unfolding used
fs-Counted = (refl, refl)

abbrev notes : ℕ → File
notes size = record { name = 0x7000; contents = 0x8000; size = size }

fs-Fresh : (size : ℕ) → size ≤ 8 → Fresh 8 (notes size) 0x9000 6 fs
fs-Fresh size le p h runs =
    let (g, grown, _, _, _) =
      allocate-grown blank-FreeLists (omega arith) (λ k hk. refl) 8 (omega arith) (omega arith)
        (omega arith) (λ j le small. refl) in
    let at : heap_lower_bound + header_size ≡ p = cc (grown, runs) in
    (omega (arith, at), omega (arith, at, le))

ramfs_write-Written_example :
    Returns (λ (r, s'). Written 0x5000 0x9000 6 fs r s') (ramfs_write 100 (pos 3) 0x9000 6 fs)
ramfs_write-Written_example =
    ramfs_write-Written 100 3 0x5000 0x9000 6 fs (omega arith, omega arith) (omega arith)
      (omega arith) fs-entry (omega arith) (omega arith) (omega arith) (fs-Fresh 5 (omega arith))
      (omega arith)

-- The file has eight bytes already, so that its buffer is large enough for six from byte 2 on.
abbrev fs_long : Fs
fs_long = record fs { files = λ _. notes 8 }

fs_long-kept :
    (s' : Fs)
    → ramfs_write 100 (pos 3) 0x9000 6 fs_long ≡ some (pos 6, s')
    → (file_of s' 0x5000).contents ≡ 0x8000
unfolding ramfs_write entry_of write_entry resize ◌>>=◌
fs_long-kept s' e = sym (ap (λ (r, t). (file_of t 0x5000).contents) (some-injective _ _ e))

ramfs_read-ramfs_write_example :
    Returns
      (λ (r, s').
        ((r ≡ failed) × (s'.memory ≡ fs_long.memory) × (s'.files ≡ fs_long.files))
        ⊎ ((r ≡ pos 6) × ReadsBack (λ s. none) 3 0x5000 2 0x9000 0x9800 6 fs_long s'))
      (ramfs_write 100 (pos 3) 0x9000 6 fs_long)
ramfs_read-ramfs_write_example =
    ramfs_read-ramfs_write 100 (λ s. none) 3 0x5000 0x9000 0x9800 6 fs_long
      (omega arith, omega arith) (omega arith) (omega arith) (omega arith) fs-entry (omega arith)
      refl (omega arith) (omega arith) (omega arith) (fs-Fresh 8 (omega arith)) (omega arith)
      (omega arith) (λ s' e. omega (arith, fs_long-kept s' e))

ramfs_read-bytes_example :
    (s' : Fs) × (ramfs_read (λ s. none) (pos 3) 0x9000 10 fs
      ≡ some (pos (left_of fs 0x5000 10), s'))
    × ((a : ℕ) → s'.memory a ≡ copied fs.memory 0x9000 (0x8000 + 2) (left_of fs 0x5000 10) a)
    × ((s'.fds 0x5000).position ≡ 2 + left_of fs 0x5000 10)
    × ((s'.fds 0x5000).position ≤ (file_of s' 0x5000).size)
ramfs_read-bytes_example =
    ramfs_read-bytes (λ s. none) 3 0x5000 0x9000 10 fs (omega arith) fs-entry (omega arith) refl
      (omega arith) (omega arith) (omega arith) (omega arith)

ramfs_open-Opened_example :
    Returns
      (λ (r, s'). ((r ≡ failed) ⊎ (r ≡ standard (codes "notes"))) × Same fs s' ⊎ Opened 1 fs r s')
      (ramfs_open 0xB000 (codes "notes") 1 fs)
ramfs_open-Opened_example = ramfs_open-Opened 0xB000 (codes "notes") 1 fs (omega arith, omega arith)

ramfs_close-Counted_example :
    Returns
      (λ (r, s').
        Counted s'
        × (((entry_of (pos 3) fs.fd_table ≡ 0) × (r ≡ failed) × (s' ≡ fs))
            ⊎ ((i : ℕ) × (pos 3 ≡ pos i)
                × (r ≡ pos 0)
                × (s'.fd_table ≡ set fs.fd_table i 0)
                × (entry_of (pos 3) s'.fd_table ≡ 0))))
      (ramfs_close 0xC000 (pos 3) fs)
ramfs_close-Counted_example =
    ramfs_close-Counted 0xC000 (pos 3) fs (omega arith, omega arith) fs-Counted

delete_file-Removed_example :
    (NoFile fs 0xB000 (codes "notes") × (delete_file 0xB000 (codes "notes") fs ≡ some fs))
    ⊎ ((i : ℕ) × (file : ℕ) × IsFirstFile fs 0xB000 (codes "notes") i file
        × Returns (Removed 0xB000 i fs) (delete_file 0xB000 (codes "notes") fs))
delete_file-Removed_example =
    delete_file-Removed 0xB000 (codes "notes") fs (omega arith, omega arith) (omega arith)
      (omega arith) refl

pub fs-IsDir : IsDir fs 0xB000
fs-IsDir = record { none_left = λ e. absurd (omega (arith, e)); filled = refl }

create_file-Added_example :
    Returns
      (λ (file, s'). NotAdded 0xB000 fs file s' ⊎ Added 0xB000 (codes "todo") fs file s')
      (create_file 0xB000 (codes "todo") 0x9000 6 fs)
create_file-Added_example =
    create_file-Added 0xB000 (codes "todo") 0x9000 6 fs (omega arith, omega arith) fs-IsDir
