-- ===== src/Lib.antt =====
-- A verification library for ShompOS, a small 32-bit kernel in C (ShompOS/src, ShompOS/inc).
--
-- The kernel's parts, and the modules that model them:
--   Base          lists, tests, membership and integers over the native numbers, for all the others
--   Libc          ShompOS/src/fake_libc/string.c: memory of bytes, `memcpy`, `memmove`,
--                 `memset`, the strings
--   Heap          ShompOS/src/memory/heap.c: the block headers, the free lists, search,
--                 split and merge; Heap.Api has `init_heap`, `allocate`, `free`, `brk` and `sbrk`;
--                 Heap.Blocks is the heap as a set of blocks that do not overlap, and
--                 Heap.Api.Refine is the promise of the allocator; Heap.Debug prints
--   Process       ShompOS/src/process/process.c: the table, PIDs, `init_process`, `kill_process`;
--                 Process.Schedule has `switch_process` and `switch_process_from_queue`, and
--                 Process.Start the stack that a new process begins with
--   Terminal      ShompOS/src/kernel/kernel.c: the screen, `terminal_*`, and `idt_set_descriptor`;
--                 Terminal.Setup has `init_idt`, `init_kb` and `init_pit`, and Terminal.Syscalls
--                 the one call of ShompOS/src/syscalls/syscalls.c
--   Ramfs         ShompOS/src/fs/ramfs.c: directories and files, with the lists of files in
--                 Ramfs.Directory; Ramfs.Descriptor has `ramfs_open`,
--                 `ramfs_read`, `ramfs_write`, `ramfs_seek` and `ramfs_close`; Ramfs.Result says
--                 when the heap lets an operation return; Ramfs.Start has `init_fs` and `init_stdio`, and
--                 Ramfs.Programs the programs of
--                 ShompOS/src/fs/ramfs_executables.c
--   Elf           ShompOS/src/elf/elf.c with ShompOS/inc/elf/elf.h: the loader
--   Shell         ShompOS/src/kernel/kernel.c: `handle_command` and its two unused variants;
--                 Shell.Keyboard has `handle_keyboard_interrupt`, with the tables of
--                 ShompOS/inc/IO
--   Boot          ShompOS/src/kernel/kernel.c: `kernel_main`, which calls the initialisers of all the
--                 others and starts the first processes
-- A function keeps its name; the prefixes `__blkmngr_`, `terminal_` and
-- `ramfs_` are dropped where the module says as much. Static variables are the fields of a state
-- record: `Heap`, `Kernel`, `Terminal`, `Fs`, `Shell`, `Machine`, `Computer`. Processes free their
-- stacks on the heap, and the file system takes its structures from it, and prints on the terminal.
-- The loader reads a file, takes its space from the same heap and starts a process; the command line
-- runs the programs and the loader.
--
-- Integers are natural numbers; arithmetic of `uint32_t` and `size_t` is taken modulo 2 ^ 32 where it
-- can leave the range. Pointers are addresses, with 0 for NULL; the kernel has no paging, so that
-- memory at 0 is plain memory. A result `none` is an operation that does not end within its fuel, or
-- that depends on memory that is not modelled.
--
-- Fuel: a merge takes at most 15 scales, and has 16 rounds; a search from scale 4 to 15 has 16; a
-- split has one more than the scale it starts from; `brk` has 2 ^ 17 rounds, the number of the
-- largest blocks in 4 GB; the search for a PID has 9, one more than the table has entries; a
-- number has 11 passes, one more than an `int` has digits. The functions on strings, and the walk
-- from a directory to the root, take their fuel as an argument.
--
-- Not modelled: the assembly (boot, interrupt stubs, the switch of registers); the sample
-- processes, which never return, and the interrupts that come while the kernel starts; the
-- acknowledgements of interrupts to the controllers; the list of files that the build mounts,
-- which is a parameter of the start. The headers of the heap's blocks are apart from the bytes
-- that the blocks hold: what a user of a block writes out of its bounds is not seen.
pub mod Base
pub mod Libc
pub mod Heap
pub mod Process
pub mod Terminal
pub mod Ramfs
pub mod Elf
pub mod Shell
pub mod Boot
