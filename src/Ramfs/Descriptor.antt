-- ===== src/Ramfs/Descriptor.antt =====
-- The file descriptors of ShompOS/src/fs/ramfs.c: open, read, write, seek and close.
--
-- A `size_t` wraps at 2 ^ 32. `keyboard` is the kernel's `handle_keyboard_interrupt`, which a read of
-- descriptor 0 calls; all that is proved here holds whatever it does. `fuel` bounds the length of a
-- string that is written to the terminal.
pub mod Table
pub mod Count
pub mod Read
pub mod Write
pub mod Again
pub mod Tests
use operating_system.Base.{
  ℕ, zero, suc, ◌+◌, ◌-◌, ◌*◌, ◌/◌, ◌%◌, ◌^◌, ◌≡◌, Bool, true, false, not, ◌&&◌, ◌||◌, List, [],
  ◌∷◌, ◌++◌, Option, none, some, Text, codes, ltb, leb, ◌==◌, if◌then◌else◌, get_or, set, length,
  replicate,
}
use operating_system.Base.Int.{ℤ, pos, negsuc, sub_ℕ}
use operating_system.Heap.{u32_mod}
use operating_system.Libc.{Memory, memcpy}
use operating_system.Terminal
use operating_system.Ramfs.{
  File, Fd, Fs, ◌>>=◌, alloc, dealloc, set_file, set_name, strdup, text_eq, find_dir, find_file,
}

abbrev pub max_fds : ℕ
max_fds = 0x40

abbrev pub fd_size : ℕ
fd_size = 16

-- `return -1`
abbrev pub failed : ℤ
failed = negsuc 0

-- A `size_t` as the `ssize_t` that it is returned as.
abbrev pub signed : ℕ → ℤ
signed n = if ltb n (2 ^ 31) then pos n else negsuc (2 ^ 32 - 1 - n)

abbrev pub set_fd : ℕ → Fd → Fs → Fs
set_fd p e s = record s { fds = λ a. if a == p then e else s.fds a }

unfoldable pub init_fd_system : Fs → Fs
init_fd_system s = record s { fd_table = replicate max_fds 0; fd_count = 0 }

-- The first free place of the table, counted from `i`.
pub first_free : ℕ → List ℕ → Option ℕ
first_free i [] = none
first_free i (p ∷ ps) = let rest = first_free (i + 1) ps in if p == 0 then some i else rest

-- The path before its first slash and behind it, if it has one.
pub split_slash : Text → Option (Text × Text)
split_slash [] = none
split_slash (c ∷ cs) =
    let rest = split_slash cs in
    if c == 47 then some ([], cs) else do (dir, file) ← rest; some (c ∷ dir, file)

-- The directory and the file name that `ramfs_open` takes the path for; the directory is 0 if it is
-- not there.
pub locate : ℕ → Text → Option (Text × Text) → Fs → Option (ℕ × Text × Fs)
locate root path none s = some (root, path, s)
locate root path (some (dir, file)) s =
    if length dir == 0
    then some (root, file, s)
    else do (d, s') ← find_dir root dir s; some (d, file, s')

-- The table with a new entry for the file, if there are a place and memory for it; then the copy of
-- the path is freed.
pub open_entry : ℕ → ℕ → ℕ → Option ℕ → Fs → Option (ℤ × Fs)
open_entry copy file flags none s = do s' ← dealloc copy s; some (failed, s')
open_entry copy file flags (some fd) s = do
  (entry, s1) ← alloc fd_size s
  if entry == 0 then (do s2 ← dealloc copy s1; some (failed, s2)) else do
    let e : Fd = record { fd = fd; file = file; position = 0; flags = flags }
    let s2 = set_fd entry e s1
    s3 ←
        dealloc copy (record s2 { fd_table = set s2.fd_table fd entry; fd_count = s2.fd_count + 1 })
    some (pos fd, s3)

pub open_found : ℕ → ℕ → Option (ℕ × ℕ) → Fs → Option (ℤ × Fs)
open_found copy flags none s = do s' ← dealloc copy s; some (failed, s')
open_found copy flags (some (_, file)) s = open_entry copy file flags (first_free 0 s.fd_table) s

pub open_path : ℕ → Text → ℕ → Fs → Option (ℤ × Fs)
open_path root path flags s = do
  (copy, s1) ← strdup path s
  if copy == 0 then some (failed, s1) else do
    (dir, file, s2) ← locate root path (split_slash path) s1
    if dir == 0
        then (do s3 ← dealloc copy s2; some (failed, s3))
        else open_found copy flags (find_file s2 dir file) s2

pub ramfs_open : ℕ → Text → ℕ → Fs → Option (ℤ × Fs)
ramfs_open root path flags s =
    if (root == 0) || (length path == 0)
    then some (failed, s)
    else if text_eq path (codes "/dev/stdin")
    then some (pos 0, s)
    else if text_eq path (codes "/dev/stdout")
    then some (pos 1, s)
    else if text_eq path (codes "/dev/stderr")
    then some (pos 2, s)
    else open_path root path flags s

-- The entry of a descriptor: 0 where the table has none, or no such place.
unfoldable pub entry_of : ℤ → List ℕ → ℕ
entry_of (negsuc _) table = 0
entry_of (pos fd) table = if leb max_fds fd then 0 else get_or table fd 0

abbrev pub is_fd : ℕ → ℤ → Bool
is_fd n (pos fd) = fd == n
is_fd n (negsuc _) = false

abbrev pub readable : ℕ → Bool
readable flags = not (flags % 2 == 0) || not (flags % 4 == 0)

abbrev pub writable : ℕ → Bool
writable flags = not (flags % 4 == 0)

abbrev pub appends : ℕ → Bool
appends flags = not (flags / 4 % 2 == 0)

-- `size - position` wraps where the position is behind the end.
abbrev pub available : File → Fd → ℕ
available f e = (f.size + u32_mod - e.position) % u32_mod

pub read_entry : ℕ → ℕ → ℕ → Fs → ℤ × Fs
read_entry entry buf count s =
    let e = s.fds entry in
    let f = s.files e.file in
    let n = if ltb (available f e) count then available f e else count in
    if not (readable e.flags) then (failed, s) else if e.file == 0 then (failed, s) else (
      signed n,
      set_fd entry (record e { position = (e.position + n) % u32_mod })
          (record s { memory = memcpy s.memory buf (f.contents + e.position) n }),
    )

pub ramfs_read : (Fs → Option Fs) → ℤ → ℕ → ℕ → Fs → Option (ℤ × Fs)
unfolding entry_of
ramfs_read keyboard fd buf count s =
    if entry_of fd s.fd_table == 0
    then some (failed, s)
    else if is_fd 0 fd
    then (do s' ← keyboard s; some (failed, s'))
    else some (read_entry (entry_of fd s.fd_table) buf count s)

-- The bytes of a string, as far as its end.
unfoldable pub string_at : ℕ → Memory → ℕ → Option Text
string_at zero mem p = none
string_at (suc fuel) mem p =
    let rest = string_at fuel mem (p + 1) in
    if mem p == 0 then some [] else do cs ← rest; some (mem p ∷ cs)

-- The file's buffer, moved to a larger one where `new_size` needs that; `false` if there is no memory.
pub resize : ℕ → ℕ → Fs → Option (Bool × Fs)
resize file new_size s = do
  let f = s.files file
  if ltb f.size new_size
      then (do
        (new, s1) ← alloc new_size s
        if new == 0 then some (false, s1) else do
          s2 ←
              if f.contents == 0
              then some s1
              else dealloc f.contents
                  (record s1 { memory = memcpy s1.memory new f.contents f.size })
          some (true, set_file file (record f { contents = new; size = new_size }) s2))
      else some (true, s)

-- The entry's position after `O_APPEND` is looked at.
abbrev pub start_of : Fs → ℕ → ℕ
start_of s entry =
    let e = s.fds entry in if appends e.flags then (s.files e.file).size else e.position

pub write_entry : ℕ → ℕ → ℕ → Fs → Option (ℤ × Fs)
write_entry entry buf count s = do
  let e = s.fds entry
  if not (writable e.flags) || (e.file == 0) then some (failed, s) else do
    let start = start_of s entry
    let s1 = set_fd entry (record e { position = start }) s
    (done, s2) ← resize e.file ((start + count) % u32_mod) s1
    if not done
        then some (failed, s2)
        else some (
          signed count,
          set_fd entry (record e { position = (start + count) % u32_mod })
              (record s2 {
                memory = memcpy s2.memory ((s2.files e.file).contents + start) buf count;
              }),
        )

-- Descriptors 1 and 2 write the string at `buf`, whatever `count` is.
unfoldable pub ramfs_write : ℕ → ℤ → ℕ → ℕ → Fs → Option (ℤ × Fs)
unfolding entry_of
ramfs_write fuel fd buf count s =
    if entry_of fd s.fd_table == 0
    then some (failed, s)
    else if is_fd 1 fd || is_fd 2 fd
    then (do
      text ← string_at fuel s.memory buf
      some (signed count, record s { terminal = Terminal.write text s.terminal }))
    else write_entry (entry_of fd s.fd_table) buf count s

pub data Origin : Type 0 where
  seek_set seek_cur seek_end seek_other : Origin

-- `size_t + off_t` as the `off_t` it is stored in; `offset` is the 32-bit pattern.
abbrev pub target : Origin → ℕ → File → Fd → Option ℕ
target seek_set offset f e = some offset
target seek_cur offset f e = some ((e.position + offset) % u32_mod)
target seek_end offset f e = some ((f.size + offset) % u32_mod)
target seek_other offset f e = none

pub seek_to : ℕ → Option ℕ → Fs → ℤ × Fs
seek_to entry none s = (failed, s)
seek_to entry (some position) s =
    if leb (2 ^ 31) position
    then (failed, s)
    else (pos position, set_fd entry (record (s.fds entry) { position = position }) s)

pub ramfs_seek : ℤ → ℕ → Origin → Fs → ℤ × Fs
unfolding entry_of
ramfs_seek fd offset origin s =
    let entry = entry_of fd s.fd_table in
    if entry == 0
    then (failed, s)
    else seek_to entry (target origin offset (s.files (s.fds entry).file) (s.fds entry)) s

-- `free(&fd_ptr)` frees the address of a variable on the stack, `local`, and not the entry.
pub ramfs_close : ℕ → ℤ → Fs → Option (ℤ × Fs)
unfolding entry_of
ramfs_close local (negsuc _) s = some (failed, s)
ramfs_close local (pos fd) s = if entry_of (pos fd) s.fd_table == 0 then some (failed, s) else do
  s' ← dealloc local s
  some (pos 0, record s' { fd_table = set s'.fd_table fd 0; fd_count = s'.fd_count - 1 })
