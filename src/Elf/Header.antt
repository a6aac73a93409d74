-- ===== src/Elf/Header.antt =====
-- The check of a file's header, `is_readable` of ShompOS/src/elf/elf.c.
use operating_system.Base.{◌≡◌, ◌⊎◌, inl, inr, refl, not, ◌&&◌, ◌||◌, arith, ◌==◌, Bool-cases}
use operating_system.Elf.{ElfHeader, is_readable, not_elf_file, elf_unreadable}

-- The header of a 32-bit little-endian executable for the 386, or for no machine.
record IsSupported (e : ElfHeader) : Type 0 where
  pub class : e.e_ident 4 ≡ 1
  pub endianness : e.e_ident 5 ≡ 1
  pub executable : e.e_type ≡ 2
  pub machine : (e.e_machine ≡ 3) ⊎ (e.e_machine ≡ 0)

-- `\x7FELF`
record HasMagic (e : ElfHeader) : Type 0 where
  pub first : e.e_ident 0 ≡ 0x7F
  pub second : e.e_ident 1 ≡ 69
  pub third : e.e_ident 2 ≡ 76
  pub fourth : e.e_ident 3 ≡ 70

-- `is_readable` returns 0 exactly for the headers that begin with the magic number and are of a
-- 32-bit little-endian executable for the 386 or for no machine, 2 for those without the magic
-- number, and 3 for all others.
is_readable-IsSupported :
    (e : ElfHeader)
    → ((is_readable e ≡ 0) × HasMagic e × IsSupported e)
      ⊎ ((is_readable e ≡ not_elf_file) × (HasMagic e → ⊥))
      ⊎ ((is_readable e ≡ elf_unreadable) × HasMagic e × (IsSupported e → ⊥))
unfolding is_readable
is_readable-IsSupported e =
    elim (Bool-cases (
      not (e.e_ident 0 == 0x7F)
      || not (e.e_ident 1 == 69)
      || not (e.e_ident 2 == 76)
      || not (e.e_ident 3 == 70))) [
        | inl other ↦
            rw other (inr (inl (refl, λ m. ground (arith, m.first, m.second, m.third, m.fourth))))
        | inr magic ↦
            let m : HasMagic e = record {
              first = ground arith;
              second = ground arith;
              third = ground arith;
              fourth = ground arith;
            } in
            elim (Bool-cases (e.e_ident 4 == 1)) [
              | inr wrong ↦ rw (magic, wrong) (inr (inr (refl, m, λ s. ground (arith, s.class))))
              | inl class ↦ elim (Bool-cases (e.e_ident 5 == 1)) [
                | inr wrong ↦
                    rw (magic, class, wrong)
                      (inr (inr (refl, m, λ s. ground (arith, s.endianness))))
                | inl little ↦ elim (Bool-cases (e.e_type == 2)) [
                  | inr wrong ↦
                      rw (magic, class, little, wrong)
                        (inr (inr (refl, m, λ s. ground (arith, s.executable))))
                  | inl exec ↦
                      elim (Bool-cases (not (e.e_machine == 3) && not (e.e_machine == 0))) [
                        | inl wrong ↦
                            rw (magic, class, little, exec, wrong)
                              (inr (inr (refl, m, λ s. ground (arith, s.machine))))
                        | inr machine ↦
                            rw (magic, class, little, exec, machine)
                              (inl (
                                refl,
                                m,
                                record {
                                  class = ground arith;
                                  endianness = ground arith;
                                  executable = ground arith;
                                  machine = ground arith;
                                },
                              ))
                      ]
                ]
              ]
            ]
      ]
