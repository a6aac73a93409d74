-- ===== src/Process/Start.antt =====
-- How a new process starts: the stack that `init_process` (ShompOS/src/process/process.c) builds, and
-- the end of `context_switch` (ShompOS/src/process/context_switch.S), which pops it.
use operating_system.Base.{ℕ, ◌+◌, ◌-◌, ◌*◌, ◌%◌, ◌^◌, ◌≤◌, ◌<◌, ◌≡◌, ◌⊎◌, ap, ◌∙◌, arith}
use native.Mathlib.Nat.{pow-le-pow_right}
use operating_system.Heap.{Heap, u32_mod, header_size}
use operating_system.Process.{Symbols, bytes_below, initial_stack, stack_top_of}

-- The registers after the switch.
pub record Cpu : Type 0 where
  pub eip : ℕ
  pub esp : ℕ
  pub ebp : ℕ
  pub eflags : ℕ
  pub edi : ℕ
  pub esi : ℕ
  pub ebx : ℕ
  pub edx : ℕ
  pub ecx : ℕ
  pub eax : ℕ

-- `popfl; popal; leave; ret` with the stack pointer at `esp`. `popal` skips the saved ESP; `leave`
-- continues at the EBP that was popped.
pub resume : (ℕ → ℕ) → ℕ → Cpu
resume mem esp =
    let frame = mem (esp + 12) in
    record {
      eip = mem (frame + 4);
      esp = frame + 8;
      ebp = mem frame;
      eflags = mem esp;
      edi = mem (esp + 4);
      esi = mem (esp + 8);
      ebx = mem (esp + 20);
      edx = mem (esp + 24);
      ecx = mem (esp + 28);
      eax = mem (esp + 32);
    }

module _ (symbols : Symbols) (pid entry_point top : ℕ) (mem : ℕ → ℕ) (room : 52 ≤ top)
    (word : top < u32_mod) where
  -- The words of the new stack, from the top down.
  calls :
      (initial_stack symbols pid entry_point top mem top ≡ pid)
      × (initial_stack symbols pid entry_point top mem (top - 4)
          ≡ symbols.switch_process_from_queue)
      × (initial_stack symbols pid entry_point top mem (top - 8) ≡ symbols.kill_process)
      × (initial_stack symbols pid entry_point top mem (top - 12) ≡ entry_point)
      × (initial_stack symbols pid entry_point top mem (top - 16) ≡ top - 12)
  unfolding initial_stack
  calls = (ground arith, ground arith, ground arith, ground arith, ground arith)

  registers :
      (initial_stack symbols pid entry_point top mem (top - 20) ≡ 0xAAAA)
      × (initial_stack symbols pid entry_point top mem (top - 24) ≡ 0xCCCC)
      × (initial_stack symbols pid entry_point top mem (top - 28) ≡ 0xDDDD)
      × (initial_stack symbols pid entry_point top mem (top - 32) ≡ 0xBBBB)
      × (initial_stack symbols pid entry_point top mem (top - 40) ≡ top - 16)
      × (initial_stack symbols pid entry_point top mem (top - 44) ≡ 0x0E51)
      × (initial_stack symbols pid entry_point top mem (top - 48) ≡ 0x0ED1)
      × (initial_stack symbols pid entry_point top mem (top - 52) ≡ 0x0202)
  unfolding initial_stack
  registers = (
    ground arith,
    ground arith,
    ground arith,
    ground arith,
    ground arith,
    ground arith,
    ground arith,
    ground arith,
  )

  -- The words written are those from 52 bytes below the top up to the top: nothing else changes.
  pub initial_stack-frame :
      (a : ℕ) → (a < top - 52) ⊎ (top < a) → initial_stack symbols pid entry_point top mem a ≡ mem a
  unfolding initial_stack
  initial_stack-frame a out = ground arith

-- The register contents that the comments of `init_process` name.
abbrev pub started : ℕ → ℕ → Cpu
started entry_point top = record {
  eip = entry_point;
  esp = top - 8;
  ebp = top - 12;
  eflags = 0x0202;
  edi = 0x0ED1;
  esi = 0x0E51;
  ebx = 0xBBBB;
  edx = 0xDDDD;
  ecx = 0xCCCC;
  eax = 0xAAAA;
}

-- Where 52 bytes fit below the top of a stack, resuming from the words that `init_process` writes
-- gives the register contents that its comments name, with the entry point as the next
-- instruction. The word on top of the stack is then `kill_process`, as return address, above it
-- `switch_process_from_queue`, as the return address of that, and the PID, as its argument.
pub resume-initial_stack :
    (symbols : Symbols) (pid entry_point top : ℕ) (mem : ℕ → ℕ)
    → 52 ≤ top
    → top < u32_mod
    → let stack = initial_stack symbols pid entry_point top mem in
      let cpu = resume stack (bytes_below top (4 * 0xD)) in
      (cpu ≡ started entry_point top)
      × (stack cpu.esp ≡ symbols.kill_process)
      × (stack (cpu.esp + 4) ≡ symbols.switch_process_from_queue)
      × (stack (cpu.esp + 8) ≡ pid)
unfolding resume
resume-initial_stack symbols pid entry_point top mem room word =
    let (w0, w4, w8, w12, w16) = calls symbols pid entry_point top mem room word in
    let (w20, w24, w28, w32, w40, w44, w48, w52) =
      registers symbols pid entry_point top mem room word in
    let stack = initial_stack symbols pid entry_point top mem in
    let at = λ (a b v : ℕ) (e : a ≡ b) (w : stack b ≡ v). ap stack e ∙ w in
    let low = bytes_below top 52 in
    let frame : stack (low + 12) ≡ top - 16 =
      at (low + 12) (top - 40) (top - 16) (omega arith) w40 in
    let ret : stack (low + 12) + 8 ≡ top - 8 = omega (arith, frame) in
    (
      (λ i. record {
        eip = at (stack (low + 12) + 4) (top - 12) entry_point (omega (arith, frame)) w12 i;
        esp = ret i;
        ebp = at (stack (low + 12)) (top - 16) (top - 12) frame w16 i;
        eflags = at low (top - 52) 0x0202 (omega arith) w52 i;
        edi = at (low + 4) (top - 48) 0x0ED1 (omega arith) w48 i;
        esi = at (low + 8) (top - 44) 0x0E51 (omega arith) w44 i;
        ebx = at (low + 20) (top - 32) 0xBBBB (omega arith) w32 i;
        edx = at (low + 24) (top - 28) 0xDDDD (omega arith) w28 i;
        ecx = at (low + 28) (top - 24) 0xCCCC (omega arith) w24 i;
        eax = at (low + 32) (top - 20) 0xAAAA (omega arith) w20 i;
      }),
      at (stack (low + 12) + 8) (top - 8) symbols.kill_process ret w8,
      at (stack (low + 12) + 8 + 4) (top - 4) symbols.switch_process_from_queue
          (omega (arith, frame)) w4,
      at (stack (low + 12) + 8 + 8) top pid (omega (arith, frame)) w0,
    )

-- Where a block of scale 7 or more in the address space was allocated for a stack, the 52 bytes
-- that `init_process` writes lie inside it, and its top word ends with the block.
stack_top_of_bounds :
    (h : Heap) (stack_bottom : ℕ)
    → header_size ≤ stack_bottom
    → 7 ≤ h.scale (stack_bottom - header_size)
    → stack_bottom - header_size + 2 ^ h.scale (stack_bottom - header_size) ≤ u32_mod
    → stack_bottom < u32_mod
    → (stack_bottom ≤ stack_top_of h stack_bottom - 52)
      × (stack_top_of h stack_bottom + 4
          ≡ stack_bottom - header_size + 2 ^ h.scale (stack_bottom - header_size))
stack_top_of_bounds h stack_bottom header large room word =
    let blk : (stack_bottom + u32_mod - header_size) % u32_mod ≡ stack_bottom - header_size =
      omega arith in
    rw blk (omega (arith, pow-le-pow_right {n = 2} (omega arith) large))
