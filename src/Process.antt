-- ===== src/Process.antt =====
-- The process table and the scheduler, ShompOS/src/process/process.c with its header.
--
-- A `process_struct*` is an index into `proc_table`, and `none` is NULL. The kernel runs without
-- paging, so NULL is address 0 of plain memory: a write through it misses the table. An operation
-- whose result depends on what that memory holds is a fault, `none`. The stacks are words at
-- addresses.
pub mod Table
pub mod Pids
pub mod Schedule
pub mod Spawn
pub mod Start
pub mod First
mod Tests
use operating_system.Base.{
  ℕ, zero, suc, ◌+◌, ◌-◌, ◌*◌, ◌%◌, ◌^◌, Bool, true, false, not, ◌&&◌, List, [], ◌∷◌, ◌++◌, Option,
  none, some, codes, ltb, ◌==◌, if◌then◌else◌, get_elem?, set, map,
}
use operating_system.Heap.{Heap, update, header_size, u32_mod}
use operating_system.Heap.Api.{free}

abbrev pub max_process : ℕ
max_process = 0x8

abbrev pub max_pid : ℕ
max_pid = 0xB10B

pub data Status : Type 0 where
  stopped active waiting spawned : Status

pub record Context : Type 0 where
  pub esp : ℕ
  pub stack_top : ℕ
  pub stack_bottom : ℕ

pub record ProcessStruct : Type 0 where
  pub context : Context
  pub pid : ℕ
  pub status : Status
  pub entry_point : ℕ
  pub wait_time : ℕ

-- `stack` is the memory that the stacks of the processes occupy, word by word.
pub record Kernel : Type 0 where
  pub proc_table : List ProcessStruct
  pub active_pid : ℕ
  pub next_pid : ℕ
  pub stack : ℕ → ℕ
  pub heap : Heap

-- Where the linker puts the two functions whose addresses a new stack holds.
pub record Symbols : Type 0 where
  pub switch_process_from_queue : ℕ
  pub kill_process : ℕ

abbrev pub is_stopped : Status → Bool
is_stopped stopped = true
is_stopped _ = false

abbrev pub is_active : Status → Bool
is_active active = true
is_active _ = false

-- The index of the first entry that passes the test, counted from `i`.
pub find_from : (ProcessStruct → Bool) → ℕ → List ProcessStruct → Option ℕ
find_from test i [] = none
find_from test i (p ∷ ps) = let rest = find_from test (i + 1) ps in if test p then some i else rest

pub reserve_proc_table_slot : List ProcessStruct → Option ℕ
unfolding find_from
reserve_proc_table_slot table = find_from (λ p. is_stopped p.status) 0 table

pub get_process : ℕ → List ProcessStruct → Option ℕ
unfolding find_from
get_process pid table = find_from (λ p. (p.pid == pid) && not (is_stopped p.status)) 0 table

abbrev pub is_some : Option ℕ → Bool
is_some none = false
is_some (some _) = true

-- `++next_pid`, kept in [1,MAX_PID]
abbrev pub advance_pid : ℕ → ℕ
advance_pid next_pid =
    if ltb max_pid ((next_pid + 1) % u32_mod) then 1 else ((next_pid + 1) % u32_mod)

-- The result is the new `next_pid`, which is also returned; `none` means that the rounds ran out.
pub next_pid_loop : ℕ → List ProcessStruct → ℕ → Option ℕ
next_pid_loop zero table next_pid = none
next_pid_loop (suc rounds) table next_pid =
    let again = next_pid_loop rounds table (advance_pid next_pid) in
    if is_some (get_process (advance_pid next_pid) table)
    then again
    else some (advance_pid next_pid)

-- The table has `max_process` entries, so one of `max_process + 1` PIDs in a row is unused.
pub get_next_pid : List ProcessStruct → ℕ → Option ℕ
unfolding next_pid_loop
get_next_pid table next_pid = next_pid_loop (max_process + 1) table next_pid

freed : Kernel → Option (ℕ × Heap) → Option Kernel
freed k none = none
freed k (some (_, h)) = some (record k { heap = h })

stop_at : ℕ → Kernel → Option ProcessStruct → Option Kernel
unfolding freed
stop_at i k none = none
stop_at i k (some p) =
    freed (record k { proc_table = set k.proc_table i (record p { status = stopped }) })
      (free p.context.stack_bottom k.heap)

kill_found : Kernel → Option ℕ → Option Kernel
unfolding stop_at
kill_found k none = some k
kill_found k (some i) = stop_at i k (get_elem? k.proc_table i)

pub kill_process : ℕ → Kernel → Option Kernel
unfolding kill_found get_process
kill_process pid k = kill_found k (get_process pid k.proc_table)

-- `*((uint32_t*)stack_top - i) = value`
abbrev pub push_word : ℕ → ℕ → ℕ → (ℕ → ℕ) → ℕ → ℕ
push_word stack_top i value mem = update mem ((stack_top + u32_mod - 4 * i) % u32_mod) value

-- `(uint32_t)stack_top - n`, in bytes
abbrev pub bytes_below : ℕ → ℕ → ℕ
bytes_below stack_top n = (stack_top + u32_mod - n) % u32_mod

-- The words of a new stack, in the order of the source.
pub initial_stack : Symbols → ℕ → ℕ → ℕ → (ℕ → ℕ) → ℕ → ℕ
initial_stack symbols pid entry_point stack_top mem = push_word stack_top 0xD 0x0202 (
    push_word stack_top 0xC 0x0ED1 (
      push_word stack_top 0xB 0x0E51 (
        push_word stack_top 0xA (bytes_below stack_top 0x10) (
          push_word stack_top 0x9 (bytes_below stack_top 0x10) (
            push_word stack_top 0x8 0xBBBB (
              push_word stack_top 0x7 0xDDDD (
                push_word stack_top 0x6 0xCCCC (
                  push_word stack_top 0x5 0xAAAA (
                    push_word stack_top 0x4 (bytes_below stack_top 0xC) (
                      push_word stack_top 0x3 entry_point (
                        push_word stack_top 0x2 symbols.kill_process (
                          push_word stack_top 0x1 symbols.switch_process_from_queue
                            (push_word stack_top 0x0 pid mem)))))))))))))

-- `((void*)blk) + (1<<blk->scale) - 4`, with `blk` the header below the stack
abbrev pub stack_top_of : Heap → ℕ → ℕ
stack_top_of h stack_bottom =
    let blk = (stack_bottom + u32_mod - header_size) % u32_mod in
    (blk + 2 ^ h.scale blk + u32_mod - 4) % u32_mod

abbrev pub new_process : ℕ → ℕ → ℕ → ℕ → ProcessStruct
new_process pid entry_point stack_top stack_bottom = record {
  context = record {
    esp = bytes_below stack_top (4 * 0xD);
    stack_top = stack_top;
    stack_bottom = stack_bottom;
  };
  pid = pid;
  status = spawned;
  entry_point = entry_point;
  wait_time = 0;
}

-- Without a free slot the source prints a message, and then writes through NULL.
abbrev pub cannot_reserve : Kernel → Kernel
cannot_reserve k = record k {
  heap = record (k.heap) { console = k.heap.console ++ codes "CANNOT RESERVE PROCESS" ∷ [] };
}

fill_slot : ℕ → ℕ → ℕ → Kernel → Option ℕ → Kernel
fill_slot entry_point stack_bottom pid k none = cannot_reserve k
fill_slot entry_point stack_bottom pid k (some i) = record k {
  proc_table =
      set k.proc_table i
        (new_process pid entry_point (stack_top_of k.heap stack_bottom) stack_bottom);
}

spawn : Symbols → ℕ → ℕ → Kernel → Option ℕ → Option (ℕ × Kernel)
unfolding fill_slot
spawn symbols entry_point stack_bottom k none = none
spawn symbols entry_point stack_bottom k (some pid) =
    let top = stack_top_of k.heap stack_bottom in
    let k' = fill_slot entry_point stack_bottom pid k (reserve_proc_table_slot k.proc_table) in
    some (
      pid,
      record k' { next_pid = pid; stack = initial_stack symbols pid entry_point top k'.stack },
    )

-- The PID of the new process, and the kernel.
pub init_process : Symbols → ℕ → ℕ → Kernel → Option (ℕ × Kernel)
unfolding spawn
init_process symbols entry_point stack_bottom k =
    spawn symbols entry_point stack_bottom k (get_next_pid k.proc_table k.next_pid)
