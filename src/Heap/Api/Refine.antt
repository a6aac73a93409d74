-- ===== src/Heap/Api/Refine.antt =====
-- The abstract view of the allocator of ShompOS/src/memory/heap.c: the set of blocks that are given
-- out. `allocate` adds a block that is apart from all of them, `free` takes one away.
pub mod Allocate
pub mod Free
pub mod Start
pub mod Runs
use operating_system.Base.{
  ℕ, ◌+◌, ◌%◌, ◌^◌, ◌≤◌, ◌<◌, ◌≡◌, ◌≢◌, ◌⊎◌, inl, inr, refl, sym, ◌∙◌, true, false, ◌∷◌, arith,
  Bool-cases,
}
use mathlib.Core.Path.{subst}
use operating_system.Heap.{
  Heap, heap_lower_bound, max_block_scale, u32_mod, add_to_free_list, set_scale,
}
use operating_system.Heap.FreeLists.{Lists, replace, HasList, FreeLists}
use operating_system.Heap.Split.{IsOutside, pow2_pos}
use operating_system.Heap.Api.{block_size, grow}
use operating_system.Heap.Api.Grow.{brk-grow}
use operating_system.Heap.Blocks.{Given, IsBlock, Apart, Blocks, Hand}
use operating_system.Heap.Blocks.Put.{Blocks-set_scale, put-Blocks, ne_of_Apart}

-- The heap consists of blocks that do not overlap, of which those of `A` are given out.
pub record Represents (h : Heap) (A : Given) : Type 0 where
  pub free_blocks : Lists
  pub blocks : Blocks h free_blocks A h.current_brk
  pub low : heap_lower_bound ≤ h.current_brk
  pub high : h.current_brk < u32_mod

-- The break is no part of the blocks.
pub Blocks-brk :
    {h : Heap} {L : Lists} {A : Given} {top : ℕ} (brk : ℕ)
    → Blocks h L A top
    → Blocks (record h { current_brk = brk }) L A top
Blocks-brk brk v = record {
  lists = record {
    below = v.lists.below;
    chain = v.lists.chain;
    distinct = v.lists.distinct;
    member = λ k b hk m.
        let i = v.lists.member k b hk m in
        record { above = i.above; scale = i.scale; free = i.free };
  };
  marked = v.marked;
  given = λ k b hk m.
      let g = v.given k b hk m in
      record { above = g.above; scale = g.scale; free = g.free; next = g.next; prev = g.prev };
  within = v.within;
  apart = v.apart;
}

Blocks-higher :
    {h : Heap} {L : Lists} {A : Given} {top : ℕ} (higher : ℕ)
    → top ≤ higher
    → Blocks h L A top
    → Blocks h L A higher
Blocks-higher higher le v = record {
  lists = v.lists;
  marked = v.marked;
  given = v.given;
  within = λ k a hk m. omega (arith, v.within k a hk m, le);
  apart = v.apart;
}

-- Without the block at its end the heap ends there.
pub Hand-last :
    {h : Heap} {L : Lists} {A : Given} {top b s : ℕ}
    → Hand h L A top b s
    → b + 2 ^ s ≡ top
    → Blocks h L A b
Hand-last v e = record {
  lists = v.blocks.lists;
  marked = v.blocks.marked;
  given = v.blocks.given;
  within = λ k a hk m. omega (arith, v.off k a hk m, v.blocks.within k a hk m, pow2_pos k, e);
  apart = v.blocks.apart;
}

pub IsOutside-of :
    {h : Heap} {L : Lists} {A : Given} {top b s : ℕ} → Hand h L A top b s → IsOutside L b s
IsOutside-of v k a hk m = omega (arith, v.off k a hk (inl m), pow2_pos k)

module _ {h : Heap} {A : Given} (r : Represents h A) where
  largest : HasList max_block_scale
  largest = omega arith

  -- No block begins at the break.
  pub brk-unmarked : h.is_free h.current_brk ≡ false
  brk-unmarked = elim (Bool-cases (h.is_free h.current_brk)) [
    | inl e ↦
        let (hs, m) = r.blocks.marked h.current_brk e in
        absurd (
          omega (
            arith,
            r.blocks.within (h.scale h.current_brk) h.current_brk hs (inl m),
            pow2_pos (h.scale h.current_brk),
          ))
    | inr e ↦ e
  ]

  new_block :
      Hand
        (set_scale h.current_brk max_block_scale h)
        r.free_blocks
        A
        (h.current_brk + block_size)
        h.current_brk
        max_block_scale
  new_block = record {
    blocks =
        Blocks-set_scale (Blocks-higher (h.current_brk + block_size) (omega arith) r.blocks)
          h.current_brk max_block_scale brk-unmarked
          (λ k a hk m.
            ne_of_Apart a k h.current_brk max_block_scale (inl (r.blocks.within k a hk (inr m))));
    has_list = largest;
    header = record { above = r.low; scale = ground arith; free = brk-unmarked };
    room = omega arith;
    off = λ k a hk m. inl (r.blocks.within k a hk m);
  }

  pub grow-Blocks :
      Blocks
        (grow h)
        (replace r.free_blocks max_block_scale (h.current_brk ∷ r.free_blocks max_block_scale))
        A
        (h.current_brk + block_size)
  unfolding grow
  grow-Blocks = Blocks-brk _ (put-Blocks new_block)

  pub grow-Represents : h.current_brk + block_size < u32_mod → Represents (grow h) A
  grow-Represents room =
      let same : (grow h).current_brk ≡ h.current_brk + block_size = omega (arith, brk-grow h) in
      record {
        free_blocks =
            replace r.free_blocks max_block_scale (h.current_brk ∷ r.free_blocks max_block_scale);
        blocks =
            subst
              (λ top.
                Blocks (grow h)
                  (replace r.free_blocks max_block_scale
                    (h.current_brk ∷ r.free_blocks max_block_scale))
                  A top)
              (sym same) grow-Blocks;
        low = omega (arith, same, r.low);
        high = omega (arith, same);
      }
