-- ===== src/Elf.antt =====
-- The loader of ShompOS/src/elf/elf.c with ShompOS/inc/elf/elf.h.
--
-- A header is read from the bytes of the file, little-endian, at the offsets that the structures of
-- the source have. The memory of the programs is that of the files; the kernel's processes are those
-- of Process. A result of the loader that is not an error is a PID, as in the source.
pub mod Header
pub mod Layout
mod Tests
use operating_system.Base.{
  ℕ, zero, suc, ◌+◌, ◌-◌, ◌*◌, ◌%◌, ◌^◌, Bool, true, false, not, ◌&&◌, ◌||◌, List, [], ◌∷◌, Option,
  none, some, ltb, ◌==◌, if◌then◌else◌,
}
use operating_system.Heap.{u32_mod}
use operating_system.Libc.{Memory, memcpy, memset}
use operating_system.Process.{Kernel, Symbols, init_process}
use operating_system.Ramfs.{Fs, ◌>>=◌, alloc, dealloc}

-- The file system and the processes, which use one heap: `fs.heap`.
pub record System : Type 0 where
  pub fs : Fs
  pub kernel : Kernel

-- `Elf32_Phdr` and `Elf32_Ehdr`, with the fields that the loader reads.
pub record ProgramHeader : Type 0 where
  pub p_type : ℕ
  pub p_offset : ℕ
  pub p_vaddr : ℕ
  pub p_filesz : ℕ
  pub p_memsz : ℕ

pub record ElfHeader : Type 0 where
  pub e_ident : ℕ → ℕ
  pub e_type : ℕ
  pub e_machine : ℕ
  pub e_entry : ℕ
  pub e_phoff : ℕ
  pub e_phnum : ℕ

abbrev pub half_at : Memory → ℕ → ℕ
half_at mem p = mem p + 256 * mem (p + 1)

abbrev pub word_at : Memory → ℕ → ℕ
word_at mem p = half_at mem p + 2 ^ 16 * half_at mem (p + 2)

pub elf_header : Memory → ℕ → ElfHeader
elf_header mem p = record {
  e_ident = λ i. mem (p + i);
  e_type = half_at mem (p + 16);
  e_machine = half_at mem (p + 18);
  e_entry = word_at mem (p + 24);
  e_phoff = word_at mem (p + 28);
  e_phnum = half_at mem (p + 44);
}

-- `&pHeaders[i]` has 32 bytes.
pub program_header : Memory → ℕ → ProgramHeader
program_header mem p = record {
  p_type = word_at mem p;
  p_offset = word_at mem (p + 4);
  p_vaddr = word_at mem (p + 8);
  p_filesz = word_at mem (p + 16);
  p_memsz = word_at mem (p + 20);
}

pub program_headers : ℕ → Memory → ℕ → List ProgramHeader
program_headers zero mem p = []
program_headers (suc n) mem p = program_header mem p ∷ program_headers n mem (p + 32)

abbrev pub elf_error : ℕ
elf_error = 1

abbrev pub not_elf_file : ℕ
not_elf_file = 2

abbrev pub elf_unreadable : ℕ
elf_unreadable = 3

abbrev pub program_type_load : ℕ
program_type_load = 1

pub is_readable : ElfHeader → ℕ
is_readable e =
    if not (e.e_ident 0 == 0x7F)
      || not (e.e_ident 1 == 69)
      || not (e.e_ident 2 == 76)
      || not (e.e_ident 3 == 70)
    then not_elf_file
    else if not (e.e_ident 4 == 1)
    then elf_unreadable
    else if not (e.e_ident 5 == 1)
    then elf_unreadable
    else if not (e.e_type == 2)
    then elf_unreadable
    else if not (e.e_machine == 3) && not (e.e_machine == 0)
    then elf_unreadable
    else 0

-- `continue`
abbrev pub skips : ProgramHeader → Bool
skips h = not (h.p_type == program_type_load) && ltb 0 h.p_memsz

-- The lowest address so far, and the size from there on.
pub record Span : Type 0 where
  pub min_vaddr : ℕ
  pub size : ℕ

-- The two `if`s of the first loop.
abbrev pub lower : ProgramHeader → Span → Span
lower h v =
    if ltb h.p_vaddr v.min_vaddr
    then record {
      min_vaddr = h.p_vaddr;
      size = if ltb 0 v.size then (v.size + (v.min_vaddr - h.p_vaddr)) % u32_mod else h.p_memsz;
    }
    else v

abbrev pub raise : ProgramHeader → Span → Span
raise h v =
    if ltb ((v.min_vaddr + v.size) % u32_mod) ((h.p_vaddr + h.p_memsz) % u32_mod)
    then record v { size = ((h.p_vaddr + h.p_memsz) % u32_mod + u32_mod - v.min_vaddr) % u32_mod }
    else v

pub span_loop : List ProgramHeader → Span → Span
span_loop [] v = v
span_loop (h ∷ hs) v = span_loop hs (if skips h then v else raise h (lower h v))

abbrev pub no_span : Span
no_span = record { min_vaddr = u32_mod - 1; size = 0 }

pub span_of : List ProgramHeader → Span
unfolding span_loop
span_of hs = span_loop hs no_span

-- The second loop, over the headers from `header` on, which it reads again; every segment goes to the
-- start of the text space.
pub copy_segments : ℕ → ℕ → ℕ → ℕ → Memory → Memory
copy_segments zero header text_space contents mem = mem
copy_segments (suc n) header text_space contents mem =
    let h = program_header mem header in
    let copied = memcpy mem text_space (contents + h.p_offset) h.p_filesz in
    let zeroed =
      memset copied (text_space + h.p_filesz) 0 ((h.p_memsz + u32_mod - h.p_filesz) % u32_mod) in
    copy_segments n (header + 32) text_space contents (if skips h then mem else zeroed)

abbrev pub stack_size_default : ℕ
stack_size_default = 1000

-- `init_process` on the shared heap.
unfoldable pub start : Symbols → ℕ → ℕ → System → Option (ℕ × System)
start symbols entry_point stack_space s = do
  (pid, k) ← init_process symbols entry_point stack_space (record (s.kernel) { heap = s.fs.heap })
  some (pid, record { fs = record (s.fs) { heap = k.heap }; kernel = k })

load : Symbols → ElfHeader → ℕ → System → Option (ℕ × System)
unfolding start
load symbols e contents s = do
  let headers = contents + e.e_phoff
  let span = span_of (program_headers e.e_phnum s.fs.memory headers)
  (text_space, fs1) ← alloc span.size s.fs
  if text_space == 0 then some (elf_error, record s { fs = fs1 }) else do
    let fs2 = record fs1 { memory = copy_segments e.e_phnum headers text_space contents fs1.memory }
    (stack_space, fs3) ← alloc stack_size_default fs2
    let entry = (elf_header fs3.memory contents).e_entry
    if stack_space == 0
        then (do fs4 ← dealloc text_space fs3; some (elf_error, record s { fs = fs4 }))
        else start symbols ((text_space + entry + u32_mod - span.min_vaddr) % u32_mod) stack_space
            (record s { fs = fs3 })

pub init_elf : Symbols → ℕ → System → Option (ℕ × System)
unfolding load
init_elf symbols file s =
    let contents = (s.fs.files file).contents in
    let e = elf_header s.fs.memory contents in
    if not (is_readable e == 0) then some (elf_error, s) else load symbols e contents s
