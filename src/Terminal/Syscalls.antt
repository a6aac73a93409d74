-- ===== src/Terminal/Syscalls.antt =====
-- The system call of ShompOS/src/syscalls/syscalls.c, which only prints.
use operating_system.Base.{ℕ, ◌+◌, ◌%◌, codes}
use operating_system.Terminal.{Terminal, write, one_char}

-- The result 0 of the source is that of a `void` function. `error_code` is its 32-bit pattern.
pub syscall_exit : ℕ → Terminal → Terminal
syscall_exit error_code t = write (one_char ((error_code + 48) % 256)) (write (codes "exiting!") t)
