-- ===== src/Heap/Blocks.antt =====
-- The blocks that the heap of ShompOS/src/memory/heap.c consists of: the free ones, which are on its
-- lists, and those that `allocate` has given out, of which the source keeps no record.
pub mod Take
pub mod Put
pub mod Split
pub mod Merge
use operating_system.Base.{
  ℕ, ◌+◌, ◌^◌, ◌≤◌, ◌<◌, ◌≡◌, ◌≢◌, ◌⊎◌, inl, inr, Bool, true, false, not, ◌&&◌, ◌||◌, arith, ◌==◌,
  ◌∈◌, ◌∉◌, has, Bool-cases,
}
use operating_system.Heap.{Heap, heap_lower_bound, u32_mod, slot}
use operating_system.Heap.FreeLists.{Lists, HasList, FreeLists}

-- The blocks that are given out, by scale and address.
abbrev pub Given : Type 0
Given = ℕ → ℕ → Bool

abbrev pub no_blocks : Given
no_blocks k a = false

abbrev pub give : ℕ → ℕ → Given → Given
give b s A k a = ((k == s) && (a == b)) || A k a

abbrev pub take_back : ℕ → ℕ → Given → Given
take_back b s A k a = not ((k == s) && (a == b)) && A k a

-- A block of the heap, free or given out.
abbrev pub IsBlock : Lists → Given → ℕ → ℕ → Type 0
IsBlock L A k a = (a ∈ L k) ⊎ (A k a ≡ true)

-- Two blocks share no address.
abbrev pub Apart : ℕ → ℕ → ℕ → ℕ → Type 0
Apart a j b k = (a + 2 ^ j ≤ b) ⊎ (b + 2 ^ k ≤ a)

-- What the header of a block says that was given out.
pub record IsGiven (h : Heap) (k b : ℕ) : Type 0 where
  pub above : heap_lower_bound ≤ b
  pub scale : h.scale b ≡ k
  pub free : h.is_free b ≡ false
  pub next : h.next b ≡ b
  pub prev : h.prev b ≡ b

-- What the header of a block says that is on no list.
pub record IsFresh (h : Heap) (k b : ℕ) : Type 0 where
  pub above : heap_lower_bound ≤ b
  pub scale : h.scale b ≡ k
  pub free : h.is_free b ≡ false

pub IsFresh-of : {h : Heap} {k b : ℕ} → IsGiven h k b → IsFresh h k b
IsFresh-of g = record { above = g.above; scale = g.scale; free = g.free }

-- The invariant of a heap whose blocks end at `top`: the free lists are well-formed, only the blocks
-- on them are marked free, and no two blocks overlap.
pub record Blocks (h : Heap) (L : Lists) (A : Given) (top : ℕ) : Type 0 where
  pub lists : FreeLists h L
  pub marked : (a : ℕ) → h.is_free a ≡ true → HasList (h.scale a) × (a ∈ L (h.scale a))
  pub given : (k b : ℕ) → HasList k → A k b ≡ true → IsGiven h k b
  pub within : (k a : ℕ) → HasList k → IsBlock L A k a → a + 2 ^ k ≤ top
  pub apart :
      (j k a b : ℕ)
      → HasList j
      → HasList k
      → IsBlock L A j a
      → IsBlock L A k b
      → ((j ≡ k) × (a ≡ b)) ⊎ Apart a j b k

-- A block at `b` of scale `s` that is in hand: it was a block, or will be one, and is none now.
pub record Hand (h : Heap) (L : Lists) (A : Given) (top b s : ℕ) : Type 0 where
  pub blocks : Blocks h L A top
  pub has_list : HasList s
  pub header : IsFresh h s b
  pub room : b + 2 ^ s ≤ top
  pub off : (k a : ℕ) → HasList k → IsBlock L A k a → Apart a k b s

-- What is not marked free is on no list.
pub not_mem-free :
    {h : Heap} {L : Lists}
    → FreeLists h L
    → (a : ℕ) → h.is_free a ≡ false
    → (k : ℕ) → HasList k
    → a ∉ L k
not_mem-free {L} f a e k hk = elim (Bool-cases (has a (L k))) [
  | inl m ↦ ground (arith, f.member k a hk m)
  | inr out ↦ out
]

pub not_slot :
    {h : Heap} {L : Lists}
    → FreeLists h L
    → (a : ℕ) → heap_lower_bound ≤ a
    → (k : ℕ) → HasList k
    → a ≢ slot h k
not_slot f a above k hk = omega (arith, f.below, hk, above)
