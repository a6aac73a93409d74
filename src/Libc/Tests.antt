-- ===== src/Libc/Tests.antt =====
-- The theorems about the C library at concrete memories.
use operating_system.Base.{◌||◌, ◌≡◌, refl, some, ◌==◌, if◌then◌else◌}
use operating_system.Base.Int.{pos, negsuc}
use operating_system.Libc.{Memory, memmove, strcmp, strncmp, strncmp_loop}
use operating_system.Libc.Copy.{copied, memmove-copied}

-- The strings "ls" at 100 and "lt" at 200.
abbrev commands : Memory
commands a =
    if (a == 100) || (a == 200) then 108 else if a == 101 then 115 else if a == 201 then 116 else 0

memmove-copied_example : memmove (λ a. a) 12 10 5 14 ≡ copied (λ a. a) 12 10 5 14
memmove-copied_example = memmove-copied (λ a. a) 12 10 5 14

strcmp_run : strcmp 3 commands 100 200 ≡ some (negsuc 0)
unfolding strcmp
strcmp_run = refl

-- "lsx" and "ls" differ behind the two characters that are compared, and yet the result is not 0.
strncmp_run : strncmp 3 (λ a. if a == 102 then 120 else commands a) 100 100 2 ≡ some (pos 1)
unfolding strncmp strncmp_loop
strncmp_run = refl
