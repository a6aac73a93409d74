-- ===== src/Terminal/Setup.antt =====
-- What ShompOS/src/kernel/kernel.c sets up for interrupts: the descriptor table, the two interrupt
-- controllers, the timer and the keyboard.
--
-- A write to a port is recorded, in order; what a port gives when it is read is a parameter, and so
-- are the addresses of the handlers, which are assembly.
pub mod Table
use operating_system.Base.{ℕ, zero, suc, ◌+◌, ◌-◌, ◌*◌, ◌/◌, ◌%◌, List, [], ◌∷◌, ◌++◌}
use operating_system.Terminal.{IdtEntry, idt_set_descriptor}

pub record Handlers : Type 0 where
  pub isr_stub_table : ℕ → ℕ
  pub syscall_handler : ℕ
  pub keyboard_handler : ℕ
  pub clock_handler : ℕ

-- `IDT_pointer`, as it is in the processor after `load_idt`
pub record IdtPointer : Type 0 where
  pub limit : ℕ
  pub base : ℕ

pub record Machine : Type 0 where
  pub idt : ℕ → IdtEntry
  pub idt_pointer : IdtPointer
  pub writes : List (ℕ × ℕ)

abbrev pub idt_size : ℕ
idt_size = 0x100

abbrev pub exceptions_size : ℕ
exceptions_size = 0x20

abbrev pub interrupt_gate : ℕ
interrupt_gate = 0x8E

abbrev pub trap_gate : ℕ
trap_gate = 0x8F

-- `sizeof(IDT_entry)`, packed
abbrev pub idt_entry_size : ℕ
idt_entry_size = 8

abbrev pub ioport_out : ℕ → ℕ → Machine → Machine
ioport_out port value m = record m { writes = m.writes ++ (port, value) ∷ [] }

abbrev pub describe : ℕ → ℕ → ℕ → Machine → Machine
describe interrupt_num offset flags m = record m {
  idt = idt_set_descriptor interrupt_num offset flags m.idt;
}

-- `for (int i = 0; i < EXCEPTIONS_SIZE; i++)`
pub set_exceptions : ℕ → ℕ → (ℕ → ℕ) → Machine → Machine
set_exceptions zero i stubs m = m
set_exceptions (suc rounds) i stubs m =
    set_exceptions rounds (i + 1) stubs (describe i (stubs i) trap_gate m)

-- The descriptors, the initialisation of the controllers, and the load of the table at `idt`.
pub init_pics : Machine → Machine
init_pics m = ioport_out 0xA1 0xFF (
    ioport_out 0x21 0xFF (
      ioport_out 0xA1 0x1 (
        ioport_out 0x21 0x1 (
          ioport_out 0xA1 0x2 (
            ioport_out 0x21 0x4 (
              ioport_out 0xA1 0x28
                (ioport_out 0x21 0x20 (ioport_out 0xA0 0x11 (ioport_out 0x20 0x11 m)))))))))

pub init_idt : Handlers → ℕ → Machine → Machine
init_idt handlers idt m =
    let exceptions = set_exceptions exceptions_size 0 handlers.isr_stub_table m in
    let described = describe 0x20 handlers.clock_handler trap_gate (
      describe 0x21 handlers.keyboard_handler interrupt_gate
        (describe 0x80 handlers.syscall_handler interrupt_gate exceptions)) in
    record (init_pics described) {
      idt_pointer = record { limit = idt_entry_size * idt_size - 1; base = idt };
    }

pub init_kb : Machine → Machine
init_kb m = ioport_out 0x21 0xFD m

-- `mask` is what port 0x21 gives; `& ~(1 << 0)` clears its lowest bit.
unfoldable pub init_pit : ℕ → ℕ → Machine → Machine
init_pit divisor mask m = ioport_out 0x21 (mask - mask % 2) (
    ioport_out 0x40 (divisor / 256 % 256)
      (ioport_out 0x40 (divisor % 256) (ioport_out 0x43 0x36 m)))
