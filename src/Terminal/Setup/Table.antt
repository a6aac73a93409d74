-- ===== src/Terminal/Setup/Table.antt =====
-- The interrupts after `init_idt` of ShompOS/src/kernel/kernel.c.
use operating_system.Base.{
  ℕ, zero, suc, ◌+◌, ◌^◌, ◌≤◌, ◌<◌, ◌≡◌, ◌≢◌, ◌⊎◌, inl, inr, refl, sym, ◌∙◌, arith, ◌==◌,
  Bool-cases,
}
use mathlib.Core.Path.{subst}
use operating_system.Terminal.{IdtEntry}
use operating_system.Terminal.Idt.{handler_of, handler_of-idt_set_descriptor}
use operating_system.Terminal.Setup.{
  Handlers, Machine, exceptions_size, interrupt_gate, trap_gate, describe, set_exceptions,
  init_pics, init_idt,
}

-- The interrupt leads to the handler, through a gate of the given kind.
abbrev pub LeadsTo : IdtEntry → ℕ → ℕ → Type 0
LeadsTo e handler gate = (handler_of e ≡ handler) × (e.type_attr ≡ gate)

-- Handlers are at 32-bit addresses.
pub record IsPlaced (handlers : Handlers) : Type 0 where
  pub stubs : (i : ℕ) → i < exceptions_size → handlers.isr_stub_table i < 2 ^ 32
  pub syscall : handlers.syscall_handler < 2 ^ 32
  pub keyboard : handlers.keyboard_handler < 2 ^ 32
  pub clock : handlers.clock_handler < 2 ^ 32

described :
    (i offset flags : ℕ) (m : Machine)
    → offset < 2 ^ 32
    → LeadsTo ((describe i offset flags m).idt i) offset flags
described i offset flags m small =
    let (at, _, gate, _, _, _) = handler_of-idt_set_descriptor i offset flags m.idt small in
    (at, gate)

others :
    (i offset flags j : ℕ) (m : Machine)
    → offset < 2 ^ 32
    → j ≢ i
    → (describe i offset flags m).idt j ≡ m.idt j
others i offset flags j m small ne =
    let (_, _, _, _, _, kept) = handler_of-idt_set_descriptor i offset flags m.idt small in
    kept j ne

set_exceptions-after :
    (rounds i j : ℕ) (stubs : ℕ → ℕ) (m : Machine)
    → ((k : ℕ) → k < i + rounds → stubs k < 2 ^ 32)
    → (j < i) ⊎ (i + rounds ≤ j)
    → (set_exceptions rounds i stubs m).idt j ≡ m.idt j
unfolding set_exceptions
set_exceptions-after zero i j stubs m small out = refl
set_exceptions-after (suc rounds) i j stubs m small out =
    set_exceptions-after rounds (i + 1) j stubs (describe i (stubs i) trap_gate m)
      (λ k lt. small k (omega (arith, lt))) (omega (arith, out))
    ∙ others i (stubs i) trap_gate j m (small i (omega arith)) (omega (arith, out))

set_exceptions-LeadsTo :
    (rounds i j : ℕ) (stubs : ℕ → ℕ) (m : Machine)
    → ((k : ℕ) → k < i + rounds → stubs k < 2 ^ 32)
    → i ≤ j
    → j < i + rounds
    → LeadsTo ((set_exceptions rounds i stubs m).idt j) (stubs j) trap_gate
unfolding set_exceptions
set_exceptions-LeadsTo zero i j stubs m small le lt = absurd (omega (arith, le, lt))
set_exceptions-LeadsTo (suc rounds) i j stubs m small le lt = elim (Bool-cases (i == j)) [
  | inl same ↦
      let e : i ≡ j = ground arith in
      let set = described i (stubs i) trap_gate m (small i (omega arith)) in
      let kept =
        set_exceptions-after rounds (i + 1) j stubs (describe i (stubs i) trap_gate m)
          (λ k lt. small k (omega (arith, lt))) (omega (arith, e)) in
      rw kept
        (subst (λ x. LeadsTo ((describe i (stubs i) trap_gate m).idt x) (stubs x) trap_gate) e set)
  | inr other ↦
      set_exceptions-LeadsTo rounds (i + 1) j stubs (describe i (stubs i) trap_gate m)
        (λ k lt. small k (omega (arith, lt))) (ground arith) (omega (arith, lt))
]

-- After `init_idt`, with handlers at 32-bit addresses, each of the 32 exceptions leads to its stub
-- and the clock to its handler, through trap gates, and the keyboard and the system calls to
-- theirs, through interrupt gates; the descriptors from 0x22 on, but for that of the system calls,
-- are as before.
pub init_idt-LeadsTo :
    (handlers : Handlers) (idt : ℕ) (m : Machine)
    → IsPlaced handlers
    → let t = (init_idt handlers idt m).idt in
      ((i : ℕ) → i < exceptions_size → LeadsTo (t i) (handlers.isr_stub_table i) trap_gate)
      × LeadsTo (t 0x20) handlers.clock_handler trap_gate
      × LeadsTo (t 0x21) handlers.keyboard_handler interrupt_gate
      × LeadsTo (t 0x80) handlers.syscall_handler interrupt_gate
      × ((i : ℕ) → 0x22 ≤ i → i ≢ 0x80 → t i ≡ m.idt i)
unfolding init_idt init_pics
init_idt-LeadsTo handlers idt m placed =
    let m1 = set_exceptions exceptions_size 0 handlers.isr_stub_table m in
    let m2 = describe 0x80 handlers.syscall_handler interrupt_gate m1 in
    let m3 = describe 0x21 handlers.keyboard_handler interrupt_gate m2 in
    let at1 : (i : ℕ)
        → i ≢ 0x20
        → (describe 0x20 handlers.clock_handler trap_gate m3).idt i ≡ m3.idt i =
      λ i ne. others 0x20 handlers.clock_handler trap_gate i m3 placed.clock ne in
    let at2 : (i : ℕ) → i ≢ 0x21 → m3.idt i ≡ m2.idt i =
      λ i ne. others 0x21 handlers.keyboard_handler interrupt_gate i m2 placed.keyboard ne in
    let at3 : (i : ℕ) → i ≢ 0x80 → m2.idt i ≡ m1.idt i =
      λ i ne. others 0x80 handlers.syscall_handler interrupt_gate i m1 placed.syscall ne in
    let lead : (e e' : IdtEntry) → e ≡ e' → (a g : ℕ) → LeadsTo e' a g → LeadsTo e a g =
      λ e e' p a g l. subst (λ x. LeadsTo x a g) (sym p) l in
    (
      λ i lt.
          lead _ _
            (at1 i (omega (arith, lt)) ∙ at2 i (omega (arith, lt)) ∙ at3 i (omega (arith, lt)))
            (handlers.isr_stub_table i) trap_gate
            (set_exceptions-LeadsTo exceptions_size 0 i handlers.isr_stub_table m
              (λ k lt'. placed.stubs k (omega (arith, lt'))) (omega arith) (omega (arith, lt))),
      described 0x20 handlers.clock_handler trap_gate m3 placed.clock,
      lead _ _ (at1 0x21 (omega arith)) handlers.keyboard_handler interrupt_gate
          (described 0x21 handlers.keyboard_handler interrupt_gate m2 placed.keyboard),
      lead _ _ (at1 0x80 (omega arith) ∙ at2 0x80 (omega arith)) handlers.syscall_handler
          interrupt_gate (described 0x80 handlers.syscall_handler interrupt_gate m1 placed.syscall),
      λ i le ne.
          at1 i (omega (arith, le))
          ∙ at2 i (omega (arith, le))
          ∙ at3 i ne
          ∙ set_exceptions-after exceptions_size 0 i handlers.isr_stub_table m
              (λ k lt'. placed.stubs k (omega (arith, lt'))) (inr (omega (arith, le))),
    )
