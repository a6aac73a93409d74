-- ===== src/Process/First.antt =====
-- The first processes that `init_process` of ShompOS/src/process/process.c puts in an empty table.
use operating_system.Base.{
  length-append, zero, not, ◌&&◌, ◌==◌, none, false, inl, inr, Bool-cases, ◌≤◌, ◌<◌, arith, ℕ, suc,
  ◌+◌, ◌-◌, ◌%◌, ◌≡◌, refl, ap, ◌∙◌, List, [], ◌∷◌, ◌++◌, some, replicate, length, set,
}
use operating_system.Heap.{u32_mod}
use operating_system.Process.{
  ProcessStruct, Kernel, Symbols, advance_pid, initial_stack, is_stopped, stopped, max_process,
  find_from, get_process, reserve_proc_table_slot, next_pid_loop, get_next_pid, stack_top_of,
  new_process, fill_slot, spawn, init_process,
}

-- An entry of a static array, all of it 0.
abbrev pub no_process : ProcessStruct
no_process = record {
  context = record { esp = 0; stack_top = 0; stack_bottom = 0 };
  pid = 0;
  status = stopped;
  entry_point = 0;
  wait_time = 0;
}

-- What a new process is given.
pub record Start : Type 0 where
  pub entry_point : ℕ
  pub stack_top : ℕ
  pub stack_bottom : ℕ

-- New processes with their PIDs in order, from `pid` on.
abbrev pub numbered : ℕ → List Start → List ProcessStruct
numbered pid [] = []
numbered pid (p ∷ ps) =
    new_process pid p.entry_point p.stack_top p.stack_bottom ∷ numbered (suc pid) ps

-- The table holds these processes, and nothing else; `next_pid` is the last PID, or -1.
abbrev pub Holds : List Start → Kernel → Type 0
Holds ps k =
    (k.proc_table ≡ numbered 0 ps ++ replicate (max_process - length ps) no_process)
    × (k.next_pid ≡ (u32_mod - 1 + length ps) % u32_mod)

find_from-numbered :
    (i pid n : ℕ) (ps : List Start)
    → find_from (λ p. is_stopped p.status) i (numbered pid ps ++ replicate (suc n) no_process)
      ≡ some (i + length ps)
unfolding find_from
find_from-numbered i pid n [] = ap some (omega arith)
find_from-numbered i pid n (p ∷ ps) =
    find_from-numbered (i + 1) (suc pid) n ps ∙ ap some (omega arith)

-- A PID behind those of the processes is not in use.
find_from-none :
    (i pid q n : ℕ) (ps : List Start)
    → pid + length ps ≤ q
    → find_from
        (λ p. (p.pid == q) && not (is_stopped p.status))
        i
        (numbered pid ps ++ replicate n no_process)
      ≡ none
unfolding find_from
find_from-none i pid q zero [] le = refl
find_from-none i pid q (suc n) [] le = elim (Bool-cases (0 == q)) [
  | inl same ↦ rw same (find_from-none (i + 1) pid q n [] le)
  | inr other ↦ rw other (find_from-none (i + 1) pid q n [] le)
]
find_from-none i pid q n (p ∷ ps) le =
    let other : (pid == q) ≡ false = ground arith in
    rw other (find_from-none (i + 1) (suc pid) q n ps (omega arith))

set-numbered :
    (pid q n : ℕ) (ps : List Start) (p : Start)
    → q ≡ pid + length ps
    → set
        (numbered pid ps ++ replicate (suc n) no_process)
        (length ps)
        (new_process q p.entry_point p.stack_top p.stack_bottom)
      ≡ numbered pid (ps ++ p ∷ []) ++ replicate n no_process
set-numbered pid q n [] p at =
    ap (λ r. new_process r p.entry_point p.stack_top p.stack_bottom ∷ replicate n no_process)
      (omega (arith, at))
set-numbered pid q n (r ∷ ps) p at =
    ap (λ t. new_process pid r.entry_point r.stack_top r.stack_bottom ∷ t)
      (set-numbered (suc pid) q n ps p (omega (arith, at)))

-- The processes and one more.
abbrev pub after : ℕ → ℕ → Kernel → List Start → List Start
after entry_point stack_bottom k ps =
    ps
    ++ record {
      entry_point = entry_point;
      stack_top = stack_top_of k.heap stack_bottom;
      stack_bottom = stack_bottom;
    }
      ∷ []

rest_of :
    (ps : List Start)
    → length ps < max_process
    → max_process - length ps ≡ suc (max_process - 1 - length ps)
rest_of ps lt = omega arith

next-numbered :
    (k : Kernel) (ps : List Start)
    → Holds ps k
    → length ps < max_process
    → get_next_pid k.proc_table k.next_pid ≡ some (length ps)
unfolding get_next_pid next_pid_loop get_process
next-numbered k ps (table, next) lt =
    let advanced : advance_pid k.next_pid ≡ length ps = ground (arith, next) in
    let unused = find_from-none 0 0 (length ps) (max_process - length ps) ps (omega arith) in
    rw (advanced, table, unused) refl

slot-numbered :
    (k : Kernel) (ps : List Start)
    → Holds ps k
    → length ps < max_process
    → reserve_proc_table_slot k.proc_table ≡ some (length ps)
unfolding reserve_proc_table_slot
slot-numbered k ps (table, next) lt =
    rw (table, rest_of ps lt)
      (find_from-numbered 0 0 (max_process - 1 - length ps) ps ∙ ap some (omega arith))

-- In a kernel that holds the first processes and has room for one more, `init_process` gives it the
-- next PID, and leaves the heap as it is.
pub init_process-Holds :
    (symbols : Symbols) (entry_point stack_bottom : ℕ) (k : Kernel) (ps : List Start)
    → Holds ps k
    → length ps < max_process
    → (g : Kernel) × (init_process symbols entry_point stack_bottom k ≡ some (length ps, g))
      × Holds (after entry_point stack_bottom k ps) g
      × (g.heap ≡ k.heap)
unfolding init_process spawn fill_slot
init_process-Holds symbols entry_point stack_bottom k ps holds lt =
    let top = stack_top_of k.heap stack_bottom in
    let p : Start = record {
      entry_point = entry_point;
      stack_top = top;
      stack_bottom = stack_bottom;
    } in
    let size : length (ps ++ p ∷ []) ≡ length ps + 1 = length-append ps (p ∷ []) in
    (
      record k {
        proc_table =
            set k.proc_table (length ps) (new_process (length ps) entry_point top stack_bottom);
        next_pid = length ps;
        stack = initial_stack symbols (length ps) entry_point top k.stack;
      },
      rw (next-numbered k ps holds lt, slot-numbered k ps holds lt) refl,
      (
        rw (holds.0, rest_of ps lt)
            (set-numbered 0 (length ps) (max_process - 1 - length ps) ps p (omega arith)
              ∙ ap (λ n. numbered 0 (ps ++ p ∷ []) ++ replicate n no_process)
                  (omega (arith, size))),
        omega (arith, size),
      ),
      refl,
    )
