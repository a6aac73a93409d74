-- ===== src/Process/Tests.antt =====
-- The theorems about processes and the scheduler at concrete tables.
use operating_system.Base.{
  ℕ, ◌+◌, ◌*◌, ◌≤◌, ◌≡◌, ◌⊎◌, inl, refl, true, false, not, ◌&&◌, List, [], ◌∷◌, ◌++◌, some, codes,
  arith, ◌==◌, ◌∈◌, ◌∉◌, has, length, get_elem?, map,
}
use operating_system.Heap.{Heap, heap_lower_bound, header_size, u32_mod}
use operating_system.Heap.Api.{block_size}
use operating_system.Process.{
  Status, stopped, active, waiting, ProcessStruct, Kernel, Symbols, max_pid, max_process, find_from,
  get_next_pid, reserve_proc_table_slot, init_process, kill_process, initial_stack, bytes_below,
}
use operating_system.Process.Table.{live_pids}
use operating_system.Process.Pids.{get_next_pid-unused}
use operating_system.Process.Spawn.{
  IsKernel, Spawned, init_process-Spawned, init_process-full, kill_process-live,
}
use operating_system.Process.Schedule.{Switched, switch_process, counts, tick, choose, reset_wait}
use operating_system.Process.Schedule.Fair.{turns, turns-fair, choose-longest}
use operating_system.Process.Schedule.Switch.{OneActive, switch_process-OneActive}
use operating_system.Process.Start.{resume, started, resume-initial_stack}

-- A heap of one block, of the largest scale and in use.
abbrev heap_one : Heap
heap_one = record {
  free_list = 0x1000;
  current_brk = heap_lower_bound + block_size;
  next = λ a. a;
  prev = λ a. a;
  is_free = λ _. false;
  scale = λ _. 0xF;
  console = [];
}

abbrev process : ℕ → Status → ℕ → ProcessStruct
process pid status wait_time = record {
  context = record { esp = 0; stack_top = 0; stack_bottom = 0 };
  pid = pid;
  status = status;
  entry_point = 0x100000;
  wait_time = wait_time;
}

abbrev kernel : List ProcessStruct → Kernel
kernel table = record {
  proc_table = table;
  active_pid = 1;
  next_pid = 2;
  stack = λ _. 0;
  heap = heap_one;
}

-- Two processes run in the first table, and eight in the second.
abbrev two : List ProcessStruct
two =
    process 1 active 0
    ∷ process 2 waiting 3
    ∷ process 0 stopped 0
    ∷ process 0 stopped 0
    ∷ process 0 stopped 0
    ∷ process 0 stopped 0
    ∷ process 0 stopped 0
    ∷ process 0 stopped 0
    ∷ []

abbrev eight : List ProcessStruct
eight =
    process 1 active 0
    ∷ process 2 waiting 0
    ∷ process 3 waiting 0
    ∷ process 4 waiting 0
    ∷ process 5 waiting 0
    ∷ process 6 waiting 0
    ∷ process 7 waiting 0
    ∷ process 8 waiting 0
    ∷ []

abbrev backstop : ProcessStruct
backstop = process 0 active 0

abbrev symbols : Symbols
symbols = record { switch_process_from_queue = 0x101000; kill_process = 0x102000 }

two-IsKernel : IsKernel (kernel two)
unfolding live_pids
two-IsKernel = record { size = refl; pids = (refl, (refl, tt)); range = inl (omega arith) }

eight-IsKernel : IsKernel (kernel eight)
unfolding live_pids
eight-IsKernel = record {
  size = refl;
  pids = (refl, (refl, (refl, (refl, (refl, (refl, (refl, (refl, tt))))))));
  range = inl (omega arith);
}

two-free : reserve_proc_table_slot two ≡ some 2
unfolding reserve_proc_table_slot find_from
two-free = refl

two-live : live_pids two ≡ 1 ∷ 2 ∷ []
unfolding live_pids
two-live = refl

eight-live : length (live_pids eight) ≡ max_process
unfolding live_pids
eight-live = refl

get_next_pid-unused_example :
    (p : ℕ) × (get_next_pid two max_pid ≡ some p)
    × (p ∉ live_pids two)
    × (p ≤ max_pid)
    × ((1 ≤ p) ⊎ (max_pid + 1 ≡ u32_mod))
get_next_pid-unused_example = get_next_pid-unused two max_pid (omega arith) (inl (omega arith))

init_process-Spawned_example :
    (pid : ℕ) × (g : Kernel) × (init_process symbols 0x100000
        (heap_lower_bound + header_size)
        (kernel two)
      ≡ some (pid, g))
    × Spawned 0x100000 (heap_lower_bound + header_size) (kernel two) pid g
init_process-Spawned_example =
    init_process-Spawned symbols 0x100000 (heap_lower_bound + header_size) 2 (kernel two)
      two-IsKernel two-free

init_process-full_example :
    (pid : ℕ) × (g : Kernel) × (init_process symbols 0x100000
        (heap_lower_bound + header_size)
        (kernel eight)
      ≡ some (pid, g))
    × (pid ∉ live_pids g.proc_table)
    × (g.proc_table ≡ eight)
    × (g.heap.console ≡ [] ++ codes "CANNOT RESERVE PROCESS" ∷ [])
init_process-full_example =
    init_process-full symbols 0x100000 (heap_lower_bound + header_size) (kernel eight)
      eight-IsKernel eight-live

kill_process-live_example :
    (g : Kernel) × (kill_process 2 (kernel two) ≡ some g)
    × ((a : ℕ) → has a (live_pids g.proc_table) ≡ (not (a == 2) && has a (live_pids two)))
    × (g.active_pid ≡ 1)
    × IsKernel g
kill_process-live_example =
    kill_process-live 2 (kernel two) two-IsKernel (rw two-live refl) (omega arith) (omega arith)

turns-fair_example : 1 ∈ turns 8 0 backstop two
turns-fair_example =
    turns-fair 0 1 backstop (process 2 waiting 3) two refl (omega arith)
      (
        omega arith,
        (
          omega arith,
          (
            omega arith,
            (omega arith, (omega arith, (omega arith, (omega arith, (omega arith, tt))))),
          ),
        ),
      )
      refl refl

choose-longest_example :
    ((choose 0 backstop two).0 ≡ reset_wait (choose 0 backstop two).1 (map tick two))
    × ((((choose 0 backstop two).1 ≡ 0)
          × ((j : ℕ) (q : ProcessStruct) → get_elem? two j ≡ some q → counts q ≡ false))
        ⊎ ((p : ProcessStruct) × (get_elem? two (choose 0 backstop two).1 ≡ some p)
            × (counts p ≡ true)
            × ((j : ℕ) (q : ProcessStruct)
                → get_elem? two j ≡ some q
                → counts q ≡ true
                → q.wait_time ≤ p.wait_time)))
choose-longest_example = choose-longest 0 backstop two refl (
  omega arith,
  (
    omega arith,
    (omega arith, (omega arith, (omega arith, (omega arith, (omega arith, (omega arith, tt)))))),
  ),
)

two-OneActive : OneActive (kernel two)
two-OneActive j q at on = go j at
  where
    go : (j : ℕ) → get_elem? two j ≡ some q → q.pid ≡ 1
    go j at = ground (arith, at, on)

switch_process-OneActive_example :
    (s : Switched) × (switch_process 2 (kernel two) ≡ some s)
    × (s.kernel.active_pid ≡ 2)
    × OneActive s.kernel
switch_process-OneActive_example =
    switch_process-OneActive 2 (kernel two) two-IsKernel.pids two-OneActive (rw two-live refl)

resume-initial_stack_example :
    let stack = initial_stack symbols 7 0x100000 0x4000FFC (λ _. 0) in
    let cpu = resume stack (bytes_below 0x4000FFC (4 * 0xD)) in
    (cpu ≡ started 0x100000 0x4000FFC)
    × (stack cpu.esp ≡ 0x102000)
    × (stack (cpu.esp + 4) ≡ 0x101000)
    × (stack (cpu.esp + 8) ≡ 7)
resume-initial_stack_example =
    resume-initial_stack symbols 7 0x100000 0x4000FFC (λ _. 0) (omega arith) (omega arith)
