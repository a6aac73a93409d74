-- ===== src/Boot.antt =====
-- The start of the kernel, `kernel_main` of ShompOS/src/kernel/kernel.c, up to the loop it ends in.
--
-- The interrupts that come before that loop are not modelled.
pub mod Processes
mod Tests
use operating_system.Base.{
  ℕ, Bool, List, Text, true, false, Option, some, codes, ◌==◌, if◌then◌else◌,
}
use operating_system.Base.Int.{ℤ}
use operating_system.Heap.{Heap, heap_lower_bound}
use operating_system.Heap.Api.{init_heap}
use operating_system.Terminal.{init_terminal}
use operating_system.Terminal.Setup.{Machine, Handlers, init_idt, init_kb, init_pit}
use operating_system.Ramfs.{Fs, ◌>>=◌, alloc}
use operating_system.Ramfs.Descriptor.{init_fd_system}
use operating_system.Ramfs.Start.{Mount, init_fs, init_stdio}
use operating_system.Elf.{System, start}
use operating_system.Shell.{Env, Shell, with_fs, tell}

-- What the linker and the build give: the handlers, the descriptor table, the four processes, the
-- text of the demonstration, the array it is read to, and the files to mount; and what the
-- controller's port gives.
pub record BootEnv : Type 0 where
  pub shell : Env
  pub handlers : Handlers
  pub idt : ℕ
  pub terminal_backstop : ℕ
  pub sample2 : ℕ
  pub sample3 : ℕ
  pub test_jump : ℕ
  pub message : ℕ
  pub read_data : ℕ
  pub mnt : Text
  pub mounts : List Mount
  pub keyboard : Fs → Option Fs
  pub mask : ℕ

pub record Computer : Type 0 where
  pub shell : Shell
  pub machine : Machine

abbrev pub pit_divisor : ℕ
pit_divisor = 0xFFF

-- `init_terminal`, `init_heap` and `ramfs_init_fd_system`; the screen's memory is at `video`.
pub init_state : (ℕ → ℕ) → Fs → Option Fs
init_state video s = do
  h ← init_heap heap_lower_bound s.heap
  some (init_fd_system (record s { terminal = init_terminal video; heap = h }))

-- The root, which becomes the current directory, and the standard streams in it.
pub init_root : BootEnv → Shell → Option Shell
init_root env s = do
  (root, fs1) ← init_fs env.mnt env.mounts s.system.fs
  (_, fs2) ←
      init_stdio env.shell.fuel env.keyboard env.shell.empty env.message env.read_data root fs1
  some (record (with_fs fs2 s) { system_root = root; current_dir = root })

abbrev pub greeting : Shell → Shell
greeting s = tell (codes "shompOS> ") (
    tell (codes "Type 'help' for available commands\n")
      (tell (codes "ShompOS initialized successfully!\n") s))

abbrev pub stack_size : ℕ
stack_size = 500

pub start_processes : BootEnv → System → Option System
start_processes env y = do
  (ap, fs1) ← alloc stack_size y.fs
  (ap2, fs2) ← alloc stack_size fs1
  (ap3, fs3) ← alloc stack_size fs2
  (_, y1) ← start env.shell.symbols env.terminal_backstop ap (record y { fs = fs3 })
  (_, y2) ← start env.shell.symbols env.sample2 ap2 y1
  (_, y3) ← start env.shell.symbols env.sample3 ap3 y2
  (ap4, fs4) ← alloc stack_size y3.fs
  (_, y4) ← start env.shell.symbols env.test_jump ap4 (record y3 { fs = fs4 })
  some y4

-- `kernel_main` from the test of the current directory on; the Boolean says that it went on to its
-- last loop.
pub go_on : BootEnv → Machine → Shell → Option (Bool × Computer)
go_on env m s =
    if s.current_dir == 0
    then some
        (false, record { shell = tell (codes "Failed to initialize filesystem.") s; machine = m })
    else do
      y ← start_processes env (greeting s).system
      some (
        true,
        record {
          shell = record (greeting s) { system = y };
          machine = init_pit pit_divisor env.mask m;
        },
      )

pub kernel_main : BootEnv → (ℕ → ℕ) → Computer → Option (Bool × Computer)
unfolding init_state init_root go_on
kernel_main env video c = do
  let m = init_kb (init_idt env.handlers env.idt c.machine)
  fs ← init_state video c.shell.system.fs
  s ← init_root env (with_fs fs c.shell)
  go_on env m s
