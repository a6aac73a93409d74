-- ===== src/Process/Schedule.antt =====
-- The scheduler in ShompOS/src/process/process.c: `switch_process` and `switch_process_from_queue`.
--
-- A switch comes with the two entries whose contexts go to the assembly routine `context_switch`; the
-- old one may be NULL, `none`: then ESP is saved at address 0, outside the table.
pub mod Choice
pub mod Fair
pub mod Switch
use operating_system.Base.{
  ℕ, zero, suc, ◌+◌, ◌-◌, ◌*◌, ◌%◌, ◌^◌, Bool, true, false, not, ◌&&◌, List, [], ◌∷◌, ◌++◌, Option,
  none, some, ltb, ◌==◌, if◌then◌else◌, get_elem?, set,
}
use operating_system.Heap.{u32_mod}
use operating_system.Process.{
  Kernel, ProcessStruct, Status, waiting, active, is_active, is_stopped, get_process,
}

-- The kernel afterwards, and the old and the new entry of a context switch.
pub record Switched : Type 0 where
  pub kernel : Kernel
  pub switch : Option (Option ℕ × ℕ)

abbrev pub no_switch : Kernel → Switched
no_switch k = record { kernel = k; switch = none }

abbrev pub set_status : ℕ → Status → List ProcessStruct → List ProcessStruct
set_status i s [] = []
set_status zero s (p ∷ ps) = record p { status = s } ∷ ps
set_status (suc i) s (p ∷ ps) = p ∷ set_status i s ps

abbrev pub has_status : (Status → Bool) → ℕ → List ProcessStruct → Bool
has_status test i [] = false
has_status test zero (p ∷ ps) = test p.status
has_status test (suc i) (p ∷ ps) = has_status test i ps

-- `if (old_proc->status == ACTIVE) old_proc->status = WAITING`
abbrev pub leave : Option ℕ → List ProcessStruct → List ProcessStruct
leave none table = table
leave (some old) table =
    if has_status is_active old table then set_status old waiting table else table

pub switch_between : ℕ → Option ℕ → ℕ → Kernel → Switched
switch_between pid old new k = record {
  kernel = record k {
    proc_table = set_status new active (leave old k.proc_table);
    active_pid = pid;
  };
  switch = some (old, new);
}

-- The comparison of the two pointers. A switch to NULL loads ESP from address 0, a fault.
pub switch_found : ℕ → Option ℕ → Option ℕ → Kernel → Option Switched
switch_found pid none none k = some (no_switch k)
switch_found pid (some old) none k = none
switch_found pid none (some new) k = some (switch_between pid none new k)
switch_found pid (some old) (some new) k =
    if old == new then some (no_switch k) else some (switch_between pid (some old) new k)

pub switch_process : ℕ → Kernel → Option Switched
switch_process pid k =
    switch_found pid (get_process k.active_pid k.proc_table) (get_process pid k.proc_table) k

-- the entries whose waiting time grows
abbrev pub counts : ProcessStruct → Bool
counts p = not (is_stopped p.status) && not (p.pid == 0)

abbrev pub tick : ProcessStruct → ProcessStruct
tick p = if counts p then record p { wait_time = (p.wait_time + 1) % u32_mod } else p

-- The loop from entry `i` on. `wait` is the waiting time of the entry `best`, which the loop has
-- passed, or which has PID 0 and so is not changed by it.
pub scan : ℕ → ℕ → ℕ → List ProcessStruct → List ProcessStruct × ℕ
scan i best wait [] = ([], best)
scan i best wait (p ∷ ps) =
    let wins = counts p && ltb wait (tick p).wait_time in
    let rest =
      scan (i + 1) (if wins then i else best) (if wins then (tick p).wait_time else wait) ps in
    (tick p ∷ rest.0, rest.1)

-- `proc->wait_time = 0`
abbrev pub reset_wait : ℕ → List ProcessStruct → List ProcessStruct
reset_wait i [] = []
reset_wait zero (p ∷ ps) = record p { wait_time = 0 } ∷ ps
reset_wait (suc i) (p ∷ ps) = p ∷ reset_wait i ps

-- The table after the loop, and the chosen entry, if the backstop is entry `i`.
pub choose : ℕ → ProcessStruct → List ProcessStruct → List ProcessStruct × ℕ
choose i backstop table =
    let found = scan 0 i backstop.wait_time table in (reset_wait found.1 found.0, found.1)

pub switch_to : ℕ → Kernel → Option ProcessStruct → Option Switched
switch_to i k none = none
switch_to i k (some p) =
    if p.pid == k.active_pid then some (no_switch k) else switch_process p.pid k

pub from_backstop : ℕ → Kernel → Option ProcessStruct → Option Switched
from_backstop i k none = none
from_backstop i k (some backstop) =
    let found = choose i backstop k.proc_table in
    switch_to found.1 (record k { proc_table = found.0 }) (get_elem? found.0 found.1)

pub from_found : Kernel → Option ℕ → Option Switched
from_found k none = none
from_found k (some i) = from_backstop i k (get_elem? k.proc_table i)

pub switch_process_from_queue : Kernel → Option Switched
switch_process_from_queue k = from_found k (get_process 0 k.proc_table)
