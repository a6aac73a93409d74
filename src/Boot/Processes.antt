-- ===== src/Boot/Processes.antt =====
-- The processes that `kernel_main` of ShompOS/src/kernel/kernel.c starts.
use operating_system.Base.{
  ℕ, ◌<◌, ◌≡◌, ◌≢◌, refl, ap, true, false, List, [], ◌∷◌, ◌++◌, arith, length, ◌==◌,
}
use operating_system.Process.{Symbols, max_process}
use operating_system.Process.First.{Start, Holds, init_process-Holds}
use operating_system.Ramfs.{◌>>=◌}
use operating_system.Ramfs.Result.{Returns, result, Returns-bind, Room, alloc-Room}
use operating_system.Elf.{System, start}
use operating_system.Shell.{Shell}
use operating_system.Terminal.Setup.{Machine, init_pit}
use operating_system.Boot.{BootEnv, pit_divisor, start_processes, go_on}

-- The processes and one with this entry point.
abbrev Next : List Start → ℕ → ℕ → System → Type 0
Next ps entry_point a z =
    (p : Start) × (p.entry_point ≡ entry_point) × Holds (ps ++ p ∷ []) z.kernel × Room a 0 z.fs

start-Next :
    (symbols : Symbols) (entry_point stack_space a : ℕ) (y : System) (ps : List Start)
    → Holds ps y.kernel
    → length ps < max_process
    → Room a 0 y.fs
    → Returns (λ (pid, z). Next ps entry_point a z) (start symbols entry_point stack_space y)
unfolding start ◌>>=◌
start-Next symbols entry_point stack_space a y ps holds lt (low, high) =
    let (g, runs, more, heap) =
      init_process-Holds symbols entry_point stack_space (record (y.kernel) { heap = y.fs.heap }) ps
        holds lt in
    let brk : g.heap.current_brk ≡ y.fs.heap.current_brk = ap (λ h. h.current_brk) heap in
    rw runs (result (_, refl, more, (omega arith, omega (arith, brk))))

-- The table holds four processes, with these entry points in this order.
abbrev pub Started : BootEnv → System → Type 0
Started env z =
    (a : Start) × (b : Start) × (c : Start) × (d : Start) × (a.entry_point ≡ env.terminal_backstop)
    × (b.entry_point ≡ env.sample2)
    × (c.entry_point ≡ env.sample3)
    × (d.entry_point ≡ env.test_jump)
    × Holds (a ∷ b ∷ c ∷ d ∷ []) z.kernel

start_processes-Started :
    (env : BootEnv) (y : System)
    → Holds [] y.kernel
    → Room 4 0 y.fs
    → Returns (λ z. Started env z) (start_processes env y)
unfolding start_processes
start_processes-Started env y holds room =
    Returns-bind (alloc-Room _ 3 0 y.fs room) (λ (ap1, fs1) r1.
      Returns-bind (alloc-Room _ 2 0 fs1 r1) (λ (ap2, fs2) r2.
        Returns-bind (alloc-Room _ 1 0 fs2 r2) (λ (ap3, fs3) r3.
          Returns-bind
            (start-Next env.shell.symbols env.terminal_backstop ap1 1 (record y { fs = fs3 }) []
              holds (omega arith) r3)
            (λ (pid1, y1) (a, at_a, h1, room1).
              Returns-bind
                (start-Next env.shell.symbols env.sample2 ap2 1 y1 (a ∷ []) h1 (omega arith) room1)
                (λ (pid2, y2) (b, at_b, h2, room2).
                  Returns-bind
                    (start-Next env.shell.symbols env.sample3 ap3 1 y2 (a ∷ b ∷ []) h2 (omega arith)
                      room2)
                    (λ (pid3, y3) (c, at_c, h3, room3).
                      Returns-bind (alloc-Room _ 0 0 y3.fs room3) (λ (ap4, fs4) room4.
                        Returns-bind
                          (start-Next env.shell.symbols env.test_jump ap4 0 (record y3 { fs = fs4 })
                            (a ∷ b ∷ c ∷ []) h3 (omega arith) room4)
                          (λ (pid4, y4) (d, at_d, h4, room5).
                            result (a, b, c, d, at_a, at_b, at_c, at_d, h4)))))))))

-- From the test of the current directory on, `kernel_main` reaches its last loop, where there is a
-- current directory, the process table is empty, no PID was given yet and the heap has room to
-- grow by four blocks: the table then holds the backstop, the two samples and the test, with the
-- PIDs from 0 to 3 in this order, and the timer is set.
pub go_on-Started :
    (env : BootEnv) (m : Machine) (s : Shell)
    → s.current_dir ≢ 0
    → Holds [] s.system.kernel
    → Room 4 0 s.system.fs
    → Returns
        (λ (ran, c).
          (ran ≡ true)
          × Started env c.shell.system
          × (c.shell.current_dir ≡ s.current_dir)
          × (c.machine ≡ init_pit pit_divisor env.mask m))
        (go_on env m s)
unfolding go_on
go_on-Started env m s dir holds room =
    let there : (s.current_dir == 0) ≡ false = ground arith in
    rw there (
      Returns-bind (start_processes-Started env _ holds room)
        (λ z started. result (refl, started, refl, refl)))
