-- ===== src/Terminal.antt =====
-- The text screen and the interrupt descriptors of ShompOS/src/kernel/kernel.c.
--
-- `terminal_buffer` is memory of 16-bit cells, by its index; the screen is cells 0 to 1999. A byte is
-- taken modulo 256, as `unsigned char` does.
pub mod Screen
pub mod Number
pub mod Idt
pub mod Setup
pub mod Syscalls
mod Tests
use operating_system.Base.{
  ℕ, zero, suc, ◌+◌, ◌*◌, ◌/◌, ◌%◌, ◌^◌, List, [], ◌∷◌, Option, none, some, Text, codes, ltb, ◌==◌,
  if◌then◌else◌, length, take,
}
use operating_system.Base.Int.{ℤ, pos, negsuc}

abbrev pub vga_width : ℕ
vga_width = 80

abbrev pub vga_height : ℕ
vga_height = 25

pub record Terminal : Type 0 where
  pub terminal_row : ℕ
  pub terminal_column : ℕ
  pub terminal_color : ℕ
  pub terminal_buffer : ℕ → ℕ

-- The colours 0 to 15; `fg` and `bg << 4` share no bit.
abbrev pub vga_entry_color : ℕ → ℕ → ℕ
vga_entry_color fg bg = fg + bg * 16

abbrev pub vga_entry : ℕ → ℕ → ℕ
vga_entry uc color = uc % 256 + color % 256 * 256

abbrev pub putentryat : ℕ → ℕ → ℕ → ℕ → Terminal → Terminal
putentryat c color x y t = record t {
  terminal_buffer = λ a. if a == y * vga_width + x then vga_entry c color else t.terminal_buffer a;
}

-- The inner loop and the outer loop of `terminal_clear`, with the passes that are left.
pub clear_row : ℕ → ℕ → ℕ → Terminal → Terminal
clear_row zero x y t = t
clear_row (suc n) x y t = clear_row n (x + 1) y (putentryat 32 t.terminal_color x y t)

pub clear_rows : ℕ → ℕ → Terminal → Terminal
clear_rows zero y t = t
clear_rows (suc n) y t = clear_rows n (y + 1) (clear_row vga_width 0 y t)

pub terminal_clear : Terminal → Terminal
terminal_clear t = record (clear_rows vga_height 0 t) { terminal_column = 0; terminal_row = 0 }

pub advance_row : Terminal → Terminal
advance_row t =
    if t.terminal_row + 1 == vga_height
    then record (terminal_clear (record t { terminal_row = 0 })) { terminal_column = 0 }
    else record t { terminal_row = t.terminal_row + 1; terminal_column = 0 }

-- The cursor after a cell is written.
abbrev pub advance_column : Terminal → Terminal
advance_column t =
    if t.terminal_column + 1 == vga_width
    then (if t.terminal_row + 1 == vga_height
        then record t { terminal_column = 0; terminal_row = 0 }
        else record t { terminal_column = 0; terminal_row = t.terminal_row + 1 })
    else record t { terminal_column = t.terminal_column + 1 }

pub setcolor : ℕ → Terminal → Terminal
setcolor color t = record t { terminal_color = color }

pub putchar : ℕ → Terminal → Terminal
putchar c t =
    if c == 10
    then advance_row t
    else advance_column (putentryat c t.terminal_color t.terminal_column t.terminal_row t)

-- `terminal_write` on the bytes of a string; both tests for a newline are the code's.
pub write : Text → Terminal → Terminal
write [] t = t
write (c ∷ cs) t = write cs (if c == 10 then advance_row t else putchar c t)

-- `{ c, 0 }` as a string, for `syscall_exit` and the heap's output
abbrev pub one_char : ℕ → Text
one_char c = if c == 0 then [] else c ∷ []

-- `vga_entry` is given the whole cell and keeps its low byte.
pub refresh_row : ℕ → ℕ → ℕ → Terminal → Terminal
refresh_row zero x y t = t
refresh_row (suc n) x y t =
    refresh_row n (x + 1) y
      (putentryat (t.terminal_buffer (y * vga_width + x)) t.terminal_color x y t)

pub refresh_rows : ℕ → ℕ → Terminal → Terminal
refresh_rows zero y t = t
refresh_rows (suc n) y t = refresh_rows n (y + 1) (refresh_row vga_width 0 y t)

pub terminal_refresh : Terminal → Terminal
terminal_refresh t = refresh_rows vga_height 0 t

pub init_terminal : (ℕ → ℕ) → Terminal
init_terminal memory = write (codes "shompOS>") (
    clear_rows vga_height 0 (record {
      terminal_row = 0;
      terminal_column = 0;
      terminal_color = vga_entry_color 7 0;
      terminal_buffer = memory;
    }))

-- `buffer` of `terminal_writeint` with the last character first, which is the order it is printed in;
-- `none` means that the passes ran out.
pub digits_loop : ℕ → ℕ → Text → Option Text
digits_loop zero num buffer = none
digits_loop (suc passes) num buffer =
    let rest = digits_loop passes (num / 10) ((num % 10 + 48) ∷ buffer) in
    if ltb 0 num then rest else some buffer

-- An `int` is below 2 ^ 31, so it has at most ten digits.
pub digits : ℕ → Option Text
digits num = digits_loop 11 num []

pub printed : Option Text → Terminal → Option Terminal
printed none t = none
printed (some text) t = some (write text t)

-- The most negative number is its own negation, which the loop does not take as positive.
pub writeint : ℤ → Terminal → Option Terminal
writeint (pos n) t = if n == 0 then some (putchar 48 t) else printed (digits n) t
writeint (negsuc n) t = printed (digits (if n + 1 == 2 ^ 31 then 0 else n + 1)) (putchar 45 t)

pub record IdtEntry : Type 0 where
  pub offset_lowerbits : ℕ
  pub selector : ℕ
  pub zero_byte : ℕ
  pub type_attr : ℕ
  pub offset_upperbits : ℕ

abbrev pub kernel_code_segment_offset : ℕ
kernel_code_segment_offset = 0x8

pub idt_set_descriptor : ℕ → ℕ → ℕ → (ℕ → IdtEntry) → ℕ → IdtEntry
idt_set_descriptor interrupt_num offset flags idt i =
    if i == interrupt_num
    then record {
      offset_lowerbits = offset % 2 ^ 16;
      selector = kernel_code_segment_offset;
      zero_byte = 0;
      type_attr = flags;
      offset_upperbits = offset / 2 ^ 16;
    }
    else idt i
