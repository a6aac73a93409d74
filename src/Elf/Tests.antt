-- ===== src/Elf/Tests.antt =====
-- The theorems on the loader of ShompOS/src/elf/elf.c at concrete files.
use operating_system.Base.{ℕ, ◌+◌, ◌<◌, ◌≡◌, refl, List, [], ◌∷◌, arith}
use operating_system.Heap.{u32_mod}
use operating_system.Elf.{ElfHeader, ProgramHeader, is_readable, not_elf_file, span_of}
use operating_system.Elf.Layout.{All, IsCovered, span_of-IsCovered}

-- A program of two segments, the higher one first.
abbrev segment : ℕ → ℕ → ProgramHeader
segment vaddr memsz = record {
  p_type = 1;
  p_offset = 0x1000;
  p_vaddr = vaddr;
  p_filesz = memsz;
  p_memsz = memsz;
}

abbrev two_segments : List ProgramHeader
two_segments = segment 0x8049000 0x300 ∷ segment 0x8048000 0x120 ∷ []

span_of-IsCovered_example :
    All (IsCovered (span_of two_segments)) two_segments
    × ((span_of two_segments).min_vaddr + (span_of two_segments).size < u32_mod)
span_of-IsCovered_example = span_of-IsCovered two_segments (omega arith, (omega arith, tt))

-- A text file.
abbrev text_header : ElfHeader
text_header = record {
  e_ident = λ i. 65;
  e_type = 0;
  e_machine = 0;
  e_entry = 0;
  e_phoff = 0;
  e_phnum = 0;
}

text_header-unreadable : is_readable text_header ≡ not_elf_file
unfolding is_readable
text_header-unreadable = refl
