-- ===== src/Terminal/Idt.antt =====
-- The interrupt descriptors that `idt_set_descriptor` of ShompOS/src/kernel/kernel.c builds.
use operating_system.Base.{ℕ, ◌+◌, ◌*◌, ◌^◌, ◌<◌, ◌≡◌, ◌≢◌, arith}
use operating_system.Terminal.{IdtEntry, idt_set_descriptor, kernel_code_segment_offset}

-- The address that the processor calls on the interrupt, from the two halves.
pub handler_of : IdtEntry → ℕ
handler_of e = e.offset_upperbits * 2 ^ 16 + e.offset_lowerbits

-- The descriptor of an interrupt leads to the 32-bit address it was set to, in the kernel's code
-- segment and with the given flags, each half fits its 16 bits, and the other descriptors are as
-- they were.
pub handler_of-idt_set_descriptor :
    (i offset flags : ℕ) (idt : ℕ → IdtEntry)
    → offset < 2 ^ 32
    → let e : IdtEntry = idt_set_descriptor i offset flags idt i in
      (handler_of e ≡ offset)
      × (e.selector ≡ kernel_code_segment_offset)
      × (e.type_attr ≡ flags)
      × (e.offset_lowerbits < 2 ^ 16)
      × (e.offset_upperbits < 2 ^ 16)
      × ((j : ℕ) → j ≢ i → idt_set_descriptor i offset flags idt j ≡ idt j)
unfolding idt_set_descriptor handler_of
handler_of-idt_set_descriptor i offset flags idt bound =
    (ground arith, ground arith, ground arith, ground arith, ground arith, λ j ne. ground arith)
