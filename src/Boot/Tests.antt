-- ===== src/Boot/Tests.antt =====
-- The theorems on the start of ShompOS/src/kernel/kernel.c at concrete states.
use operating_system.Base.{
  codes, ℕ, ◌+◌, ◌*◌, ◌-◌, ◌≡◌, refl, true, false, [], ◌∷◌, some, replicate, arith,
}
use operating_system.Heap.{u32_mod}
use operating_system.Heap.Api.Tests.{blank}
use operating_system.Ramfs.Result.{Returns}
use operating_system.Ramfs.Descriptor.Tests.{fs}
use operating_system.Process.First.{no_process}
use operating_system.Terminal.Setup.{Machine, init_pit}
use operating_system.Shell.{Shell}
use operating_system.Boot.{BootEnv, pit_divisor, go_on}
use operating_system.Ramfs.Start.{mount_dir, mount_file}
use operating_system.Boot.Processes.{Started, go_on-Started}

-- A build that mounts a directory with a file in it.
abbrev env : BootEnv
env = record {
  shell = record {
    symbols = record { switch_process_from_queue = 0x100200; kill_process = 0x100100 };
    empty = 0x100300;
    newline = 0x100400;
    local = 0x9F00;
    fuel = 100;
  };
  handlers = record {
    isr_stub_table = λ i. 0x101000 + 16 * i;
    syscall_handler = 0x102000;
    keyboard_handler = 0x103000;
    clock_handler = 0x104000;
  };
  idt = 0x200000;
  terminal_backstop = 0x105000;
  sample2 = 0x106000;
  sample3 = 0x107000;
  test_jump = 0x108000;
  message = 0x109000;
  read_data = 0x9E00;
  mnt = codes "mnt";
  mounts =
      mount_dir (codes "mnt") (codes "home") (codes "mnt_home")
      ∷ mount_file (codes "mnt_home") (codes "hi") 0x10A000 12
      ∷ [];
  keyboard = some;
  mask = 0xFD;
}

-- The keyboard is free, and no process was started.
abbrev shell : ℕ → Shell
shell dir = record {
  system = record {
    fs = fs;
    kernel = record {
      proc_table = replicate 8 no_process;
      active_pid = u32_mod - 1;
      next_pid = u32_mod - 1;
      stack = λ _. 0;
      heap = blank;
    };
  };
  keys = record { caps = false; alt = false; ctrl = false; shift = false };
  cmd_buffer = replicate 64 0;
  cmd_pos = 0;
  current_dir = dir;
  system_root = dir;
}

abbrev machine : Machine
machine = record {
  idt = λ _. record {
    offset_lowerbits = 0;
    selector = 0;
    zero_byte = 0;
    type_attr = 0;
    offset_upperbits = 0;
  };
  idt_pointer = record { limit = 0; base = 0 };
  writes = [];
}

go_on-Started_example :
    Returns
      (λ (ran, c).
        (ran ≡ true)
        × Started env c.shell.system
        × (c.shell.current_dir ≡ 0xB000)
        × (c.machine ≡ init_pit pit_divisor env.mask machine))
      (go_on env machine (shell 0xB000))
go_on-Started_example =
    go_on-Started env machine (shell 0xB000) (omega arith) (refl, omega arith)
      (omega arith, omega arith)
