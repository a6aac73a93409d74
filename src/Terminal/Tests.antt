-- ===== src/Terminal/Tests.antt =====
-- The theorems about the screen and the interrupt descriptors at concrete inputs.
use operating_system.Base.{ℕ, ◌+◌, ◌*◌, ◌^◌, ◌≤◌, ◌<◌, ◌≡◌, ◌≢◌, refl, [], ◌∷◌, some, codes, arith}
use operating_system.Terminal.{
  Terminal, write, digits, digits_loop, IdtEntry, idt_set_descriptor, kernel_code_segment_offset,
}
use operating_system.Terminal.Screen.{Confined, write-Confined}
use operating_system.Terminal.Setup.{
  Handlers, Machine, exceptions_size, trap_gate, interrupt_gate, init_idt, init_pit,
}
use operating_system.Terminal.Setup.Table.{LeadsTo, IsPlaced, init_idt-LeadsTo}
use operating_system.Terminal.Idt.{handler_of, handler_of-idt_set_descriptor}

-- The cursor in the last cell of the screen.
abbrev corner : Terminal
corner = record {
  terminal_row = 24;
  terminal_column = 79;
  terminal_color = 7;
  terminal_buffer = λ a. a;
}

abbrev no_descriptors : ℕ → IdtEntry
no_descriptors i = record {
  offset_lowerbits = 0;
  selector = 0;
  zero_byte = 0;
  type_attr = 0;
  offset_upperbits = 0;
}

digits_run : digits 1203 ≡ some (codes "1203")
unfolding digits digits_loop
digits_run = refl

write-Confined_example : Confined corner (write (codes "ls\n") corner)
write-Confined_example = write-Confined (codes "ls\n") corner (omega arith, omega arith)

handler_of-idt_set_descriptor_example :
    let e : IdtEntry = idt_set_descriptor 0x21 0x101234 0x8E no_descriptors 0x21 in
    (handler_of e ≡ 0x101234)
    × (e.selector ≡ kernel_code_segment_offset)
    × (e.type_attr ≡ 0x8E)
    × (e.offset_lowerbits < 2 ^ 16)
    × (e.offset_upperbits < 2 ^ 16)
    × ((j : ℕ)
        → j ≢ 0x21
        → idt_set_descriptor 0x21 0x101234 0x8E no_descriptors j ≡ no_descriptors j)
handler_of-idt_set_descriptor_example =
    handler_of-idt_set_descriptor 0x21 0x101234 0x8E no_descriptors (omega arith)

abbrev handlers : Handlers
handlers = record {
  isr_stub_table = λ i. 0x100000 + 16 * i;
  syscall_handler = 0x101000;
  keyboard_handler = 0x101100;
  clock_handler = 0x101200;
}

abbrev machine : Machine
machine = record { idt = no_descriptors; idt_pointer = record { limit = 0; base = 0 }; writes = [] }

handlers-IsPlaced : IsPlaced handlers
handlers-IsPlaced = record {
  stubs = λ i lt. omega (arith, lt);
  syscall = omega arith;
  keyboard = omega arith;
  clock = omega arith;
}

init_idt-LeadsTo_example :
    let t = (init_idt handlers 0x8000 machine).idt in
    ((i : ℕ) → i < exceptions_size → LeadsTo (t i) (0x100000 + 16 * i) trap_gate)
    × LeadsTo (t 0x20) 0x101200 trap_gate
    × LeadsTo (t 0x21) 0x101100 interrupt_gate
    × LeadsTo (t 0x80) 0x101000 interrupt_gate
    × ((i : ℕ) → 0x22 ≤ i → i ≢ 0x80 → t i ≡ no_descriptors i)
init_idt-LeadsTo_example = init_idt-LeadsTo handlers 0x8000 machine handlers-IsPlaced

-- The timer gets its divisor in two bytes, and the keyboard's mask stays but for the clock's bit.
pit_writes :
    (init_pit 0xFFF 0xFD machine).writes
    ≡ (0x43, 0x36) ∷ (0x40, 0xFF) ∷ (0x40, 0xF) ∷ (0x21, 0xFC) ∷ []
unfolding init_pit
pit_writes = refl
