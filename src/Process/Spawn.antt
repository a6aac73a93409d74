-- ===== src/Process/Spawn.antt =====
-- `init_process` and `kill_process` of ShompOS/src/process/process.c.
use operating_system.Base.{
  ℕ, zero, suc, ◌+◌, ◌≤◌, ◌<◌, ◌≡◌, ◌≢◌, ◌⊎◌, inl, inr, refl, sym, ◌∙◌, ap, not, ◌&&◌, ◌||◌, List,
  [], ◌∷◌, some, arith, ◌==◌, length, length-set, get_elem?, set, get_elem?-set_self,
  get_elem?-set_ne, has, ◌∈◌, ◌∉◌, Distinct, Option-cases, ◌++◌, codes,
}
use operating_system.Heap.{u32_mod}
use operating_system.Heap.Api.{block_size}
use operating_system.Heap.Api.Free.{free-total}
use operating_system.Process.{
  Kernel, ProcessStruct, stopped, Symbols, is_stopped, is_some, max_pid, max_process, get_process,
  reserve_proc_table_slot, stack_top_of, new_process, initial_stack, cannot_reserve, init_process,
  kill_process,
}
use operating_system.Process.Table.{
  IsFirst, find_from-some, live_pids, reserve-full, Distinct-stop, live_pids-set, Distinct-set,
  live_pids-stop, get_process-live, get_process-IsFirst, live_entry,
}
use operating_system.Process.Pids.{get_next_pid-unused}

-- The table has its eight entries, no two running processes share a PID, and `next_pid` is -1 or a
-- PID.
pub record IsKernel (k : Kernel) : Type 0 where
  pub size : length k.proc_table ≡ max_process
  pub pids : Distinct (live_pids k.proc_table)
  pub range : (k.next_pid ≤ max_pid) ⊎ (k.next_pid + 1 ≡ u32_mod)

reserve-IsFirst :
    (table : List ProcessStruct) (i : ℕ)
    → reserve_proc_table_slot table ≡ some i
    → IsFirst (λ p. is_stopped p.status) table i
unfolding reserve_proc_table_slot
reserve-IsFirst table i e = find_from-some (λ p. is_stopped p.status) table i e

-- A new process: its PID was unused and is the only one added, and it stands in the first free slot.
pub record Spawned (entry_point stack_bottom : ℕ) (k : Kernel) (pid : ℕ) (g : Kernel) : Type 0 where
  pub slot : ℕ
  pub unused : pid ∉ live_pids k.proc_table
  pub used :
      (a : ℕ) → has a (live_pids g.proc_table) ≡ ((a == pid) || has a (live_pids k.proc_table))
  pub free_slot : IsFirst (λ p. is_stopped p.status) k.proc_table slot
  pub entry :
      get_elem? g.proc_table slot
      ≡ some (new_process pid entry_point (stack_top_of k.heap stack_bottom) stack_bottom)
  pub others : (j : ℕ) → slot ≢ j → get_elem? g.proc_table j ≡ get_elem? k.proc_table j
  pub kernel : IsKernel g

get_elem?-lt :
    (table : List ProcessStruct) (i : ℕ) {p : ProcessStruct}
    → get_elem? table i ≡ some p
    → i < length table
get_elem?-lt [] i e = cc
get_elem?-lt (q ∷ qs) zero e = omega arith
get_elem?-lt (q ∷ qs) (suc i) e = omega (arith, get_elem?-lt qs i e)

-- In a well-formed kernel with a free slot `init_process` returns a PID that was not in use. The
-- first free slot has the new process, with its stack pointers and in status SPAWNED, the other
-- slots are as they were, exactly that PID is in use now besides the others, and the kernel is
-- well-formed.
pub init_process-Spawned :
    (symbols : Symbols) (entry_point stack_bottom slot : ℕ) (k : Kernel)
    → IsKernel k
    → reserve_proc_table_slot k.proc_table ≡ some slot
    → (pid : ℕ) × (g : Kernel) × (init_process symbols entry_point stack_bottom k ≡ some (pid, g))
      × Spawned entry_point stack_bottom k pid g
unfolding init_process
init_process-Spawned symbols entry_point stack_bottom slot k v e =
    let (pid, next, unused, small, pos) =
      get_next_pid-unused k.proc_table k.next_pid (omega (arith, v.size)) v.range in
    let first = reserve-IsFirst k.proc_table slot e in
    let p = new_process pid entry_point (stack_top_of k.heap stack_bottom) stack_bottom in
    let lt = get_elem?-lt k.proc_table slot first.at in
    (
      pid,
      record k {
        proc_table = set k.proc_table slot p;
        next_pid = pid;
        stack = initial_stack symbols pid entry_point (stack_top_of k.heap stack_bottom) k.stack;
      },
      rw next (rw e refl),
      record {
        slot = slot;
        unused = unused;
        used = live_pids-set k.proc_table slot p first.entry first.at first.holds refl;
        free_slot = first;
        entry = get_elem?-set_self k.proc_table slot p lt;
        others = λ j ne. get_elem?-set_ne k.proc_table p ne;
        kernel = record {
          size = length-set k.proc_table slot p ∙ v.size;
          pids =
              Distinct-set k.proc_table slot p first.entry first.at first.holds refl unused v.pids;
          range = inl small;
        };
      },
    )

-- In a well-formed kernel with all eight slots taken `init_process` reports it, but returns a PID
-- all the same: no process has that PID, and the table is as before.
pub init_process-full :
    (symbols : Symbols) (entry_point stack_bottom : ℕ) (k : Kernel)
    → IsKernel k
    → length (live_pids k.proc_table) ≡ max_process
    → (pid : ℕ) × (g : Kernel) × (init_process symbols entry_point stack_bottom k ≡ some (pid, g))
      × (pid ∉ live_pids g.proc_table)
      × (g.proc_table ≡ k.proc_table)
      × (g.heap.console ≡ k.heap.console ++ codes "CANNOT RESERVE PROCESS" ∷ [])
unfolding init_process
init_process-full symbols entry_point stack_bottom k v full =
    let (pid, next, out, _, _) =
      get_next_pid-unused k.proc_table k.next_pid (omega (arith, v.size)) v.range in
    (
      pid,
      record (cannot_reserve k) {
        next_pid = pid;
        stack = initial_stack symbols pid entry_point (stack_top_of k.heap stack_bottom) k.stack;
      },
      rw next (rw (reserve-full k.proc_table (full ∙ sym v.size)) refl),
      out,
      refl,
      refl,
    )

-- In a well-formed kernel, on a heap of at least one block, `kill_process` of a PID in use
-- returns: exactly that PID leaves those in use, `active_pid` stays, and the kernel is well-
-- formed.
pub kill_process-live :
    (pid : ℕ) (k : Kernel)
    → IsKernel k
    → pid ∈ live_pids k.proc_table
    → block_size ≤ k.heap.current_brk
    → k.heap.current_brk < u32_mod
    → (g : Kernel) × (kill_process pid k ≡ some g)
      × ((a : ℕ)
          → has a (live_pids g.proc_table) ≡ (not (a == pid) && has a (live_pids k.proc_table)))
      × (g.active_pid ≡ k.active_pid)
      × IsKernel g
unfolding kill_process
kill_process-live pid k v m large small = elim (Option-cases (get_process pid k.proc_table)) [
  | inl gone ↦ absurd (cc (ap is_some gone, get_process-live pid k.proc_table, m))
  | inr (i, found) ↦
      let first = get_process-IsFirst pid k.proc_table i found in
      let p = first.entry in
      let stopped_p = record p { status = stopped } in
      let (on, same) = live_entry p pid first.holds in
      let (status, h, runs, _, _) = free-total p.context.stack_bottom k.heap large small in
      (
        record k { proc_table = set k.proc_table i stopped_p; heap = h },
        rw (found, first.at) (rw runs refl),
        (λ a. rw (← same) (live_pids-stop k.proc_table i stopped_p p first.at on refl v.pids a)),
        refl,
        record {
          size = length-set k.proc_table i stopped_p ∙ v.size;
          pids = Distinct-stop k.proc_table i stopped_p refl v.pids;
          range = v.range;
        },
      )
]

-- `kill_process` of a PID that no running process has changes nothing.
kill_process-unused :
    (pid : ℕ) (k : Kernel) → pid ∉ live_pids k.proc_table → kill_process pid k ≡ some k
unfolding kill_process
kill_process-unused pid k out = elim (Option-cases (get_process pid k.proc_table)) [
  | inl gone ↦ rw gone refl
  | inr (i, found) ↦ absurd (cc (ap is_some found, get_process-live pid k.proc_table, out))
]
