-- ===== src/Ramfs/Descriptor/Read.antt =====
-- The bytes that `ramfs_read` of ShompOS/src/fs/ramfs.c moves.
use operating_system.Base.{
  ℕ, ◌+◌, ◌-◌, ◌^◌, ◌%◌, ◌≤◌, ◌<◌, ◌≡◌, ◌≢◌, ◌⊎◌, refl, true, false, Option, some, ltb, ◌==◌,
  if◌then◌else◌, arith,
}
use Prim.Native.Nat.{min}
use operating_system.Base.Int.{pos}
use operating_system.Heap.{u32_mod}
use operating_system.Libc.{memcpy}
use operating_system.Libc.Copy.{copied, memcpy-copied}
use operating_system.Ramfs.{File, Fs}
use operating_system.Ramfs.Descriptor.{
  set_fd, entry_of, readable, available, read_entry, ramfs_read,
}

-- Two ranges of addresses share none.
abbrev pub Apart : ℕ → ℕ → ℕ → ℕ → Type 0
Apart p n q m = (p + n ≤ q) ⊎ (q + m ≤ p)

-- The open file of a descriptor, its entry, and how much of a request is left in it.
abbrev pub file_of : Fs → ℕ → File
file_of s entry = s.files (s.fds entry).file

abbrev pub left_of : Fs → ℕ → ℕ → ℕ
left_of s entry count = min count ((file_of s entry).size - (s.fds entry).position)

-- The state after `n` bytes were read.
moved : ℕ → ℕ → ℕ → Fs → Fs
moved entry buf n s =
    set_fd entry (record (s.fds entry) { position = ((s.fds entry).position + n) % u32_mod })
      (record s {
        memory = memcpy s.memory buf ((file_of s entry).contents + (s.fds entry).position) n;
      })

read_entry-moved :
    (entry buf count n : ℕ) (s : Fs)
    → readable (s.fds entry).flags ≡ true
    → (s.fds entry).file ≢ 0
    → (if ltb (available (file_of s entry) (s.fds entry)) count
        then available (file_of s entry) (s.fds entry)
        else count)
      ≡ n
    → n < 2 ^ 31
    → read_entry entry buf count s ≡ (pos n, moved entry buf n s)
unfolding read_entry moved
read_entry-moved entry buf count n s can_read file_ne amount small =
    let has_file : ((s.fds entry).file == 0) ≡ false = ground arith in
    let positive : ltb n (2 ^ 31) ≡ true = ground arith in
    rw (can_read, has_file, amount, positive) refl

-- `ramfs_read` by a descriptor other than 0 of an open, readable file below 2 ^ 31 bytes, whose
-- position is not behind its end and whose bytes do not overlap the buffer, returns what is asked
-- for, or what is left if that is less: so many bytes from the position on go to the buffer,
-- nothing else in memory changes, and the position moves behind them, at most to the end.
pub ramfs_read-bytes :
    (keyboard : Fs → Option Fs) (i entry buf count : ℕ) (s : Fs)
    → i ≢ 0
    → entry_of (pos i) s.fd_table ≡ entry
    → entry ≢ 0
    → readable (s.fds entry).flags ≡ true
    → (s.fds entry).file ≢ 0
    → (s.fds entry).position ≤ (file_of s entry).size
    → (file_of s entry).size < 2 ^ 31
    → Apart buf
        (left_of s entry count)
        ((file_of s entry).contents + (s.fds entry).position)
        (left_of s entry count)
    → (s' : Fs) × (ramfs_read keyboard (pos i) buf count s ≡ some (pos (left_of s entry count), s'))
      × ((a : ℕ)
          → s'.memory a
            ≡ copied s.memory buf
                ((file_of s entry).contents + (s.fds entry).position)
                (left_of s entry count)
                a)
      × ((s'.fds entry).position ≡ (s.fds entry).position + left_of s entry count)
      × ((s'.fds entry).position ≤ (file_of s' entry).size)
unfolding ramfs_read moved
ramfs_read-bytes keyboard i entry buf count s i_ne at_i ne can_read file_ne in_file small apart =
    let n = left_of s entry count in
    let rest : available (file_of s entry) (s.fds entry)
        ≡ (file_of s entry).size - (s.fds entry).position =
      omega arith in
    let runs =
      read_entry-moved entry buf count n s can_read file_ne (ground (arith, rest)) (omega arith) in
    let in_use : (entry_of (pos i) s.fd_table == 0) ≡ false = ground (arith, at_i) in
    let not_stdin : (i == 0) ≡ false = ground arith in
    let self : (entry == entry) ≡ true = ground arith in
    (
      moved entry buf n s,
      rw (in_use, not_stdin, at_i, runs) refl,
      λ a. memcpy-copied s.memory buf _ n a (omega (arith, apart)),
      rw self (omega arith),
      rw self (omega arith),
    )
