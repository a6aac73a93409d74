-- ===== src/Ramfs/Descriptor/Again.antt =====
-- Bytes that `ramfs_write` of ShompOS/src/fs/ramfs.c wrote, read again after `ramfs_seek`.
use operating_system.Base.{
  ℕ, ◌+◌, ◌^◌, ◌≤◌, ◌<◌, ◌≡◌, ◌≢◌, ◌⊎◌, inl, inr, refl, ap, ◌∙◌, sym, true, false, Option, some,
  leb, ◌==◌, arith,
}
use operating_system.Base.Int.{pos}
use mathlib.Core.Path.{subst, ap₂}
use operating_system.Libc.Copy.{copied, copied-inside}
use operating_system.Ramfs.{Fs}
use operating_system.Ramfs.Descriptor.{
  failed, set_fd, entry_of, readable, start_of, seek_set, seek_to, ramfs_read, ramfs_write,
  ramfs_seek,
}
use operating_system.Ramfs.Result.{Returns, result, Returns-with, Room}
use operating_system.Ramfs.Descriptor.Read.{Apart, file_of, left_of, ramfs_read-bytes}
use operating_system.Ramfs.Descriptor.Write.{Fresh, ramfs_write-Written}

-- A seek to `start` succeeds, and the read of `count` bytes that follows it gives those that are at
-- `buf` in `s`, and leaves the position behind them.
abbrev pub ReadsBack : (Fs → Option Fs) → ℕ → ℕ → ℕ → ℕ → ℕ → ℕ → Fs → Fs → Type 0
ReadsBack keyboard i entry start buf out count s s' =
    ((ramfs_seek (pos i) start seek_set s').0 ≡ pos start)
    × Returns
        (λ (r, s2).
          (r ≡ pos count)
          × ((a : ℕ) → a < count → s2.memory (out + a) ≡ s.memory (buf + a))
          × ((s2.fds entry).position ≡ start + count))
        (ramfs_read keyboard (pos i) out count (ramfs_seek (pos i) start seek_set s').1)

seek_at :
    (i entry start : ℕ) (s : Fs)
    → entry_of (pos i) s.fd_table ≡ entry
    → entry ≢ 0
    → start < 2 ^ 31
    → ramfs_seek (pos i) start seek_set s
      ≡ (pos start, set_fd entry (record (s.fds entry) { position = start }) s)
unfolding ramfs_seek seek_to
seek_at i entry start s at_i ne small =
    let in_use : (entry_of (pos i) s.fd_table == 0) ≡ false = ground (arith, at_i) in
    let positive : leb (2 ^ 31) start ≡ false = ground arith in rw (in_use, positive, at_i) refl

-- A read of bytes that are all in the file, behind the position.
reads_all :
    (keyboard : Fs → Option Fs) (i entry start out count : ℕ) (t : Fs) (value : ℕ → ℕ)
    → i ≢ 0
    → entry_of (pos i) t.fd_table ≡ entry
    → entry ≢ 0
    → readable (t.fds entry).flags ≡ true
    → (t.fds entry).file ≢ 0
    → (t.fds entry).position ≡ start
    → start + count ≤ (file_of t entry).size
    → (file_of t entry).size < 2 ^ 31
    → ((a : ℕ) → a < count → t.memory ((file_of t entry).contents + start + a) ≡ value a)
    → Apart out count ((file_of t entry).contents + start) count
    → Returns
        (λ (r, s2).
          (r ≡ pos count)
          × ((a : ℕ) → a < count → s2.memory (out + a) ≡ value a)
          × ((s2.fds entry).position ≡ start + count))
        (ramfs_read keyboard (pos i) out count t)
reads_all keyboard i entry start out count t value ne0 at_i ne can_read file_ne here within small
      bytes apart =
    let amount : left_of t entry count ≡ count = omega (arith, here) in
    let (s2, runs, memory, at_end, _) =
      ramfs_read-bytes keyboard i entry out count t ne0 at_i ne can_read file_ne
        (omega (arith, here)) small (rw (amount, here) apart) in
    let source : (file_of t entry).contents + (t.fds entry).position
        ≡ (file_of t entry).contents + start =
      ap (λ p. (file_of t entry).contents + p) here in
    subst (Returns _) (sym runs) (
      result (
        ap pos amount,
        λ a lt.
            memory (out + a)
            ∙ ap₂ (λ p n. copied t.memory out p n (out + a)) source amount
            ∙ copied-inside t.memory out _ lt
            ∙ bytes a lt,
        at_end ∙ ap₂ (λ p n. p + n) here amount,
      ))

reads_back :
    (keyboard : Fs → Option Fs) (i entry start buf out count : ℕ) (s s' : Fs)
    → i ≢ 0
    → entry_of (pos i) s'.fd_table ≡ entry
    → entry ≢ 0
    → readable (s'.fds entry).flags ≡ true
    → (s'.fds entry).file ≢ 0
    → start + count ≤ (file_of s' entry).size
    → (file_of s' entry).size < 2 ^ 31
    → ((a : ℕ)
        → a < count
        → s'.memory ((file_of s' entry).contents + start + a) ≡ s.memory (buf + a))
    → Apart out count ((file_of s' entry).contents + start) count
    → ReadsBack keyboard i entry start buf out count s s'
reads_back keyboard i entry start buf out count s s' ne0 at_i ne can_read file_ne within small bytes
      apart =
    let at_start = seek_at i entry start s' at_i ne (omega arith) in
    let self : (entry == entry) ≡ true = ground arith in
    rw at_start (
      refl,
      reads_all keyboard i entry start out count
          (set_fd entry (record (s'.fds entry) { position = start }) s') (λ a. s.memory (buf + a))
          ne0 at_i ne (rw self can_read) (rw self file_ne) (rw self refl) (rw self within)
          (rw self small) (rw self bytes) (rw self apart),
    )

-- Bytes that were written can be read again. For a descriptor in use other than 0, 1 and 2, of a
-- file that is open for both and has a buffer, `ramfs_write` returns, where the heap has room to
-- grow and shrink by a block, the buffer with the bytes is apart from the file's old and new one,
-- and the file and its new end are below 2 ^ 31. It fails and changes neither bytes nor files, or
-- a seek back to where the bytes start succeeds, and a read of as many bytes into a buffer apart
-- from the file's then gives the bytes that were written and leaves the position behind them.
pub ramfs_read-ramfs_write :
    (fuel : ℕ) (keyboard : Fs → Option Fs) (i entry buf out count : ℕ) (s : Fs)
    → Room 1 1 s
    → i ≢ 0
    → i ≢ 1
    → i ≢ 2
    → entry_of (pos i) s.fd_table ≡ entry
    → entry ≢ 0
    → readable (s.fds entry).flags ≡ true
    → (s.fds entry).file ≢ 0
    → (file_of s entry).contents ≢ 0
    → Apart (file_of s entry).contents (file_of s entry).size buf count
    → Fresh (start_of s entry + count) (file_of s entry) buf count s
    → start_of s entry + count < 2 ^ 31
    → (file_of s entry).size < 2 ^ 31
    → ((s' : Fs)
        → ramfs_write fuel (pos i) buf count s ≡ some (pos count, s')
        → Apart out count ((file_of s' entry).contents + start_of s entry) count)
    → Returns
        (λ (r, s').
          ((r ≡ failed) × (s'.memory ≡ s.memory) × (s'.files ≡ s.files))
          ⊎ ((r ≡ pos count) × ReadsBack keyboard i entry (start_of s entry) buf out count s s'))
        (ramfs_write fuel (pos i) buf count s)
ramfs_read-ramfs_write fuel keyboard i entry buf out count s room ne0 ne1 ne2 at_i ne can_read
      file_ne data_ne apart fresh small old_small out_apart =
    Returns-with
      (ramfs_write-Written fuel i entry buf count s room ne1 ne2 at_i ne data_ne apart fresh small)
      (λ (r, s') e written. elim written [
        | inl refused ↦ inl refused
        | inr (success, at_end, table, size, bytes, _) ↦ inr (
          success,
          reads_back keyboard i entry (start_of s entry) buf out count s s' ne0
              (ap (entry_of (pos i)) table ∙ at_i) ne (ap (λ f. readable f.flags) at_end ∙ can_read)
              (λ z. file_ne (sym (ap (λ f. f.file) at_end) ∙ z)) (omega (arith, size))
              (omega (arith, size)) bytes (out_apart s' (e ∙ ap (λ v. some (v, s')) success)),
        )
      ])
