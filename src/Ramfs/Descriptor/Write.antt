-- ===== src/Ramfs/Descriptor/Write.antt =====
-- The bytes that `ramfs_write` of ShompOS/src/fs/ramfs.c moves.
use operating_system.Base.{
  suc, ℕ, ◌+◌, ◌^◌, ◌%◌, ◌≤◌, ◌<◌, ◌≡◌, ◌≢◌, ◌⊎◌, inl, inr, refl, ◌∙◌, ap, true, false, not, ◌||◌,
  some, ltb, ◌==◌, Bool-cases, arith,
}
use Prim.Native.Nat.{max}
use operating_system.Base.Int.{ℤ, pos}
use operating_system.Heap.{Heap, u32_mod}
use operating_system.Heap.Api.{allocate}
use operating_system.Libc.{memcpy}
use operating_system.Libc.Copy.{copied, copied-inside, copied-outside, memcpy-copied}
use operating_system.Ramfs.{File, Fs, alloc, dealloc, set_file}
use operating_system.Ramfs.Descriptor.{
  failed, set_fd, entry_of, writable, resize, start_of, write_entry, ramfs_write,
}
use operating_system.Ramfs.Result.{
  Returns, result, Returns-bind, Room, alloc-Returns, dealloc-Returns,
}
use operating_system.Ramfs.Descriptor.Read.{Apart, file_of}

-- What `ramfs_write` promises of `count` bytes from `buf` on, in the open file of `entry`, that start
-- at the position, or at the end of the file for O_APPEND: it fails and moves no byte, or the bytes
-- are in the file at that place, the file reaches as far as it did or to their end, the other bytes
-- it had are as they were, the position is behind the bytes, and the table of descriptors is the same.
abbrev pub Written : ℕ → ℕ → ℕ → Fs → ℤ → Fs → Type 0
Written entry buf count s r s' =
    let start = start_of s entry in
    let old = file_of s entry in
    let new = file_of s' entry in
    ((r ≡ failed) × (s'.memory ≡ s.memory) × (s'.files ≡ s.files))
    ⊎ ((r ≡ pos count)
        × (s'.fds entry ≡ record (s.fds entry) { position = start + count })
        × (s'.fd_table ≡ s.fd_table)
        × (new.size ≡ max old.size (start + count))
        × ((a : ℕ) → a < count → s'.memory (new.contents + start + a) ≡ s.memory (buf + a))
        × ((a : ℕ)
            → a < old.size
            → (a < start) ⊎ (start + count ≤ a)
            → s'.memory (new.contents + a) ≡ s.memory (old.contents + a)))

-- The file's buffer is large enough, apart from the bytes to be written, and has what the file had.
abbrev pub Ready : ℕ → ℕ → ℕ → ℕ → ℕ → Fs → Fs → Type 0
Ready file p new_size buf count s s' =
    (s'.fds ≡ s.fds)
    × (s'.fd_table ≡ s.fd_table)
    × ((s'.files file).size ≡ max (s.files file).size new_size)
    × ((s'.files file).contents ≡ p)
    × Apart p new_size buf count
    × ((a : ℕ)
        → a < (s.files file).size
        → s'.memory (p + a) ≡ s.memory ((s.files file).contents + a))
    × ((a : ℕ) → a < count → s'.memory (buf + a) ≡ s.memory (buf + a))

-- The allocator changes neither bytes, nor files, nor descriptors.
abbrev pub SameData : Fs → Fs → Type 0
SameData s s' =
    (s'.memory ≡ s.memory) × (s'.files ≡ s.files) × (s'.fds ≡ s.fds) × (s'.fd_table ≡ s.fd_table)

dealloc-SameData :
    (p a d : ℕ) (s : Fs) → Room a (suc d) s → Returns (λ s'. SameData s s') (dealloc p s)
dealloc-SameData p a d s room = dealloc-Returns _ p a d s room (λ h room'. (refl, refl, refl, refl))

alloc-SameData :
    (n a d : ℕ) (s : Fs)
    → Room (suc a) d s
    → Returns
        (λ (p, s'). (h : Heap) × (allocate n s.heap ≡ some (p, h)) × SameData s s' × Room a d s')
        (alloc n s)
alloc-SameData n a d s room =
    alloc-Returns _ n a d s room (λ p h e room'. (h, e, (refl, refl, refl, refl), room'))

-- A new block is apart from the buffer that is written and from the file's own.
abbrev pub Fresh : ℕ → File → ℕ → ℕ → Fs → Type 0
Fresh n f buf count s =
    (p : ℕ) (h : Heap)
    → allocate n s.heap ≡ some (p, h)
    → Apart p n buf count × Apart p n f.contents f.size

grown-Ready :
    (file new new_size buf count : ℕ) (s s1 s2 : Fs)
    → (s.files file).size < new_size
    → Apart new new_size buf count
    → Apart new new_size (s.files file).contents (s.files file).size
    → SameData s s1
    → SameData
        (record s1 { memory = memcpy s1.memory new (s.files file).contents (s.files file).size })
        s2
    → Ready file new new_size buf count s
        (set_file file (record (s.files file) { contents = new; size = new_size }) s2)
grown-Ready file new new_size buf count s s1 s2 grows off_buf off_old (mem, _, fds, table)
      (mem', _, fds', table') =
    (
      fds' ∙ fds,
      table' ∙ table,
      rw self (omega arith),
      rw self refl,
      off_buf,
      λ a lt. kept a lt,
      λ a lt. source a lt,
    )
  where
    self : (file == file) ≡ true
    self = ground arith

    bytes :
        (a : ℕ) → s2.memory a ≡ copied s.memory new (s.files file).contents (s.files file).size a
    bytes a =
        ap (λ m. m a) mem'
        ∙ memcpy-copied _ _ _ _ a (omega (arith, off_old, grows))
        ∙ ap (λ m. copied m new (s.files file).contents (s.files file).size a) mem

    kept :
        (a : ℕ)
        → a < (s.files file).size
        → s2.memory (new + a) ≡ s.memory ((s.files file).contents + a)
    kept a lt = bytes (new + a) ∙ copied-inside s.memory new (s.files file).contents lt

    source : (a : ℕ) → a < count → s2.memory (buf + a) ≡ s.memory (buf + a)
    source a lt =
        bytes (buf + a) ∙ copied-outside s.memory new _ _ _ (omega (arith, lt, off_buf, grows))

resize-Ready :
    (file new_size buf count : ℕ) (s : Fs)
    → Room 1 1 s
    → (s.files file).contents ≢ 0
    → Apart (s.files file).contents (s.files file).size buf count
    → Fresh new_size (s.files file) buf count s
    → Returns
        (λ (done, s').
          ((done ≡ false) × (s'.memory ≡ s.memory) × (s'.files ≡ s.files))
          ⊎ ((done ≡ true) × (p : ℕ) × Ready file p new_size buf count s s'))
        (resize file new_size s)
unfolding resize
resize-Ready file new_size buf count s room data_ne apart fresh =
    elim (Bool-cases (ltb (s.files file).size new_size)) [
      | inr fits ↦ rw fits (
          result (
            inr (
              refl,
              (s.files file).contents,
              (
                refl,
                refl,
                omega (arith, leb_of fits),
                refl,
                omega (arith, apart, leb_of fits),
                λ a _. refl,
                λ a _. refl,
              ),
            )))
      | inl grows ↦ rw grows (
          Returns-bind (alloc-SameData new_size 0 1 s room)
            (λ (new, s1) (h, e, (mem, files, fds, table), room1). elim (Bool-cases (new == 0)) [
              | inl null ↦ rw null (result (inl (refl, mem, files)))
              | inr ok ↦
                  rw (ok, data_test)
                    (Returns-bind (dealloc-SameData _ 0 0 _ room1) (λ s2 same.
                      let (off_buf, off_old) = fresh new h e in
                      result (
                        inr (
                          refl,
                          new,
                          grown-Ready file new new_size buf count s s1 s2 (ltb_of grows) off_buf
                              off_old (mem, files, fds, table) same,
                        ))))
            ]))
    ]
  where
    data_test : ((s.files file).contents == 0) ≡ false
    data_test = ground arith

    ltb_of : ltb (s.files file).size new_size ≡ true → (s.files file).size < new_size
    ltb_of e = ground arith

    leb_of : ltb (s.files file).size new_size ≡ false → new_size ≤ (s.files file).size
    leb_of e = ground arith

write_entry-Written :
    (entry buf count : ℕ) (s : Fs)
    → Room 1 1 s
    → (file_of s entry).contents ≢ 0
    → Apart (file_of s entry).contents (file_of s entry).size buf count
    → Fresh (start_of s entry + count) (file_of s entry) buf count s
    → start_of s entry + count < 2 ^ 31
    → Returns (λ (r, s'). Written entry buf count s r s') (write_entry entry buf count s)
unfolding write_entry
write_entry-Written entry buf count s room data_ne apart fresh small =
    elim (Bool-cases (not (writable (s.fds entry).flags) || ((s.fds entry).file == 0))) [
      | inl refused ↦ rw refused (result (inl (refl, refl, refl)))
      | inr ok ↦
          rw (ok, no_wrap)
            (Returns-bind (resize-Ready file end buf count s1 room data_ne apart fresh)
              (λ (done, s2) cases. elim cases [
                | inl (failure, mem, files) ↦ rw failure (result (inl (refl, mem, files)))
                | inr (success, p, ready) ↦
                    rw (success, positive) (result (inr (done_Written p s2 ready)))
              ]))
    ]
  where
    file : ℕ
    file = (s.fds entry).file

    end : ℕ
    end = start_of s entry + count

    s1 : Fs
    s1 = set_fd entry (record (s.fds entry) { position = start_of s entry }) s

    no_wrap : (start_of s entry + count) % u32_mod ≡ start_of s entry + count
    no_wrap = omega arith

    positive : ltb count (2 ^ 31) ≡ true
    positive = ground arith

    self : (entry == entry) ≡ true
    self = ground arith

    done_Written :
        (p : ℕ) (s2 : Fs)
        → Ready file p end buf count s1 s2
        → let s' : Fs =
            set_fd entry
              (record (s.fds entry) { position = end })
              (record s2 {
                memory = memcpy s2.memory ((s2.files file).contents + start_of s entry) buf count;
              }) in
          let new = file_of s' entry in
          (pos count ≡ pos count)
          × (s'.fds entry ≡ record (s.fds entry) { position = end })
          × (s'.fd_table ≡ s.fd_table)
          × (new.size ≡ max (file_of s entry).size end)
          × ((a : ℕ)
              → a < count
              → s'.memory (new.contents + start_of s entry + a) ≡ s.memory (buf + a))
          × ((a : ℕ)
              → a < (file_of s entry).size
              → (a < start_of s entry) ⊎ (end ≤ a)
              → s'.memory (new.contents + a) ≡ s.memory ((file_of s entry).contents + a))
    done_Written p s2 (_, table, size, at_p, off_buf, kept, source) =
        rw (self, at_p)
          (
            refl,
            refl,
            table,
            size,
            λ a lt.
                memcpy-copied s2.memory (p + start_of s entry) buf count _ (omega (arith, off_buf))
                ∙ copied-inside s2.memory (p + start_of s entry) buf lt
                ∙ source a lt,
            λ a lt out.
                memcpy-copied s2.memory (p + start_of s entry) buf count _ (omega (arith, off_buf))
                ∙ copied-outside s2.memory (p + start_of s entry) buf count (p + a)
                    (omega (arith, out))
                ∙ kept a lt,
          )

-- `ramfs_write` to a descriptor in use other than 1 and 2 returns, where the heap has room to grow
-- and shrink by a block, the file has a buffer, the buffers do not overlap and the new end is
-- below 2 ^ 31. It fails and moves no byte, or the bytes are in the file from the position on (the
-- end, for O_APPEND), the file is as long as it was or up to their end, its other bytes are
-- unchanged, and the position is behind the written ones.
pub ramfs_write-Written :
    (fuel i entry buf count : ℕ) (s : Fs)
    → Room 1 1 s
    → i ≢ 1
    → i ≢ 2
    → entry_of (pos i) s.fd_table ≡ entry
    → entry ≢ 0
    → (file_of s entry).contents ≢ 0
    → Apart (file_of s entry).contents (file_of s entry).size buf count
    → Fresh (start_of s entry + count) (file_of s entry) buf count s
    → start_of s entry + count < 2 ^ 31
    → Returns (λ (r, s'). Written entry buf count s r s') (ramfs_write fuel (pos i) buf count s)
unfolding ramfs_write
ramfs_write-Written fuel i entry buf count s room ne1 ne2 at_i ne data_ne apart fresh small =
    let in_use : (entry_of (pos i) s.fd_table == 0) ≡ false = ground (arith, at_i) in
    let not1 : (i == 1) ≡ false = ground arith in
    let not2 : (i == 2) ≡ false = ground arith in
    rw (in_use, not1, not2, at_i)
      (write_entry-Written entry buf count s room data_ne apart fresh small)
