-- ===== src/Libc.antt =====
-- The memory and string functions of ShompOS/src/fake_libc/string.c, over a memory of bytes.
--
-- A pointer is an address, and objects do not wrap around the end of the address space. A loop that
-- runs to the end of a string takes fuel: `none` means that the string did not end within it.
pub mod Copy
pub mod Text
mod Tests
use operating_system.Base.{
  ℕ, zero, suc, ◌+◌, ◌-◌, ◌%◌, ◌^◌, Bool, true, false, not, ◌&&◌, ◌||◌, Option, none, some, ltb,
  leb, ◌==◌, if◌then◌else◌,
}
use operating_system.Base.Int.{ℤ, pos, negsuc, sub_ℕ}

abbrev pub Memory : Type 0
Memory = ℕ → ℕ

abbrev pub store : Memory → ℕ → ℕ → Memory
store mem p v a = if a == p then v else mem a

-- `while (n--) { *d++ = *s++; }`
pub copy_forward : ℕ → Memory → ℕ → ℕ → Memory
copy_forward zero mem d s = mem
copy_forward (suc n) mem d s = copy_forward n (store mem d (mem s)) (d + 1) (s + 1)

-- `while (n--) { *(--d) = *(--s); }`, from the two ends
pub copy_backward : ℕ → Memory → ℕ → ℕ → Memory
copy_backward zero mem d s = mem
copy_backward (suc n) mem d s = copy_backward n (store mem (d + n) (mem (s + n))) d s

pub memcpy : Memory → ℕ → ℕ → ℕ → Memory
memcpy mem dest src n = copy_forward n mem dest src

pub memmove : Memory → ℕ → ℕ → ℕ → Memory
memmove mem dest src n =
    if ltb dest src || leb (src + n) dest
    then copy_forward n mem dest src
    else copy_backward n mem dest src

fill : ℕ → Memory → ℕ → ℕ → Memory
fill zero mem d c = mem
fill (suc n) mem d c = fill n (store mem d (c % 256)) (d + 1) c

pub memset : Memory → ℕ → ℕ → ℕ → Memory
unfolding fill
memset mem dest c n = fill n mem dest c

-- `while (*s++) { len++; }`
strlen_loop : ℕ → Memory → ℕ → ℕ → Option ℕ
strlen_loop zero mem s len = none
strlen_loop (suc fuel) mem s len =
    let rest = strlen_loop fuel mem (s + 1) (len + 1) in if mem s == 0 then some len else rest

pub strlen : ℕ → Memory → ℕ → Option ℕ
unfolding strlen_loop
strlen fuel mem s = strlen_loop fuel mem s 0

pub strcmp : ℕ → Memory → ℕ → ℕ → Option ℤ
strcmp zero mem s1 s2 = none
strcmp (suc fuel) mem s1 s2 =
    let rest = strcmp fuel mem (s1 + 1) (s2 + 1) in
    if not (mem s1 == 0) && (mem s1 == mem s2) then rest else some (sub_ℕ (mem s1) (mem s2))

-- `while ((*dest_ptr++ = *src++))`
pub strcpy : ℕ → Memory → ℕ → ℕ → Option Memory
strcpy zero mem dest src = none
strcpy (suc fuel) mem dest src =
    let rest = strcpy fuel (store mem dest (mem src)) (dest + 1) (src + 1) in
    if mem src == 0 then some (store mem dest 0) else rest

-- `n-- > 0` leaves the largest `size_t` in `n` where `n` was 0.
abbrev pub decrement : ℕ → ℕ
decrement n = (n + 2 ^ 32 - 1) % 2 ^ 32

-- The tests after the loop, with what is left in `n`.
abbrev pub strncmp_end : Memory → ℕ → ℕ → ℕ → ℤ
strncmp_end mem s1 s2 n =
    if ltb 0 n
    then (if not (mem s1 == 0) then pos 1 else (if not (mem s2 == 0) then negsuc 0 else pos 0))
    else pos 0

strncmp_loop : ℕ → Memory → ℕ → ℕ → ℕ → Option ℤ
strncmp_loop zero mem s1 s2 n = none
strncmp_loop (suc fuel) mem s1 s2 n =
    let rest = strncmp_loop fuel mem (s1 + 1) (s2 + 1) (decrement n) in
    if ltb 0 n && not (mem s1 == 0) && not (mem s2 == 0)
    then (if not (mem s1 == mem s2) then some (sub_ℕ (mem s1) (mem s2)) else rest)
    else some (strncmp_end mem s1 s2 (decrement n))

pub strncmp : ℕ → Memory → ℕ → ℕ → ℕ → Option ℤ
unfolding strncmp_loop
strncmp fuel mem s1 s2 n = if n == 0 then some (pos 0) else strncmp_loop fuel mem s1 s2 n

-- The result is 0 for NULL.
strchr_loop : ℕ → Memory → ℕ → ℕ → Option ℕ
strchr_loop zero mem s c = none
strchr_loop (suc fuel) mem s c =
    let rest = strchr_loop fuel mem (s + 1) c in
    if mem s == 0 then some (if c == 0 then s else 0) else (if mem s == c then some s else rest)

pub strchr : ℕ → Memory → ℕ → ℕ → Option ℕ
unfolding strchr_loop
strchr fuel mem s c = strchr_loop fuel mem s (c % 256)
