-- ===== src/Heap/Debug.antt =====
-- The debugging output of ShompOS/src/memory/heap.c: `addr_to_string` and `print_free_counts`.
--
-- A `uint32_t` has at most eight hexadecimal digits, which are the rounds of the two loops over them.
-- `fuel` bounds the length of a free list and of a string. `buffer` is the address of an array on the
-- stack.
mod Tests
use operating_system.Base.{
  ℕ, zero, suc, ◌+◌, ◌-◌, ◌/◌, ◌%◌, ◌≡◌, refl, List, [], ◌∷◌, Option, none, some, Text, codes, leb,
  ◌==◌, if◌then◌else◌,
}
use operating_system.Heap.{Heap, slot, min_block_scale, max_block_scale}
use operating_system.Libc.{Memory, store}
use operating_system.Ramfs.{◌>>=◌}
use operating_system.Ramfs.Descriptor.{string_at}
use operating_system.Terminal.{Terminal, write, one_char}

-- `digits` before the least number of two is put in.
pub count_digits : ℕ → ℕ → ℕ
count_digits zero temp = 0
count_digits (suc rounds) temp =
    let rest = count_digits rounds (temp / 16) in if temp == 0 then 0 else suc rest

-- `hex_digits[d]`
abbrev hex_digit : ℕ → ℕ
hex_digit d = if leb d 9 then d + 48 else d + 55

pub put_digits : ℕ → ℕ → ℕ → Memory → Memory
put_digits zero pos addr mem = mem
put_digits (suc rounds) pos addr mem =
    let rest = put_digits rounds (pos - 1) (addr / 16) (store mem pos (hex_digit (addr % 16))) in
    if addr == 0 then mem else rest

pub addr_to_string : ℕ → ℕ → Memory → Memory
unfolding count_digits put_digits
addr_to_string buffer addr mem =
    let prefix = store (store mem buffer 48) (buffer + 1) 120 in
    if addr == 0
    then store (store prefix (buffer + 2) 48) (buffer + 3) 0
    else (let digits = if count_digits 8 addr == 1 then 2 else count_digits 8 addr in
        put_digits 8 (buffer + digits + 1) addr (store prefix (buffer + digits + 2) 0))

-- `while (curr->next != curr)`
count_from : ℕ → ℕ → Heap → Option ℕ
count_from zero curr h = none
count_from (suc fuel) curr h =
    let rest = count_from fuel (h.next curr) h in
    if h.next curr == curr then some 0 else do n ← rest; some (suc n)

-- The lists from scale `i` on.
print_counts : ℕ → ℕ → ℕ → Heap → Terminal → Option Terminal
print_counts fuel zero i h t = some t
print_counts fuel (suc scales) i h t = do
  count ← count_from fuel (slot h i) h
  print_counts fuel scales (i + 1) h (
      write (codes "\n") (
        write (one_char (if leb 10 i then i + 55 else i + 48))
          (write (codes " free blocks of scale ") (write (one_char ((count + 48) % 256)) t))))

pub print_free_counts : ℕ → ℕ → Memory → Heap → Terminal → Option Terminal
unfolding print_counts
print_free_counts fuel buffer mem h t = do
  t' ←
      print_counts fuel (max_block_scale + 1 - min_block_scale) min_block_scale h
        (write (codes "free_block counts:\n") t)
  text ← string_at fuel (addr_to_string buffer h.current_brk mem) buffer
  some (write (codes "\n") (write text (write (codes "brk at ") t')))
