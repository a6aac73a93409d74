-- ===== src/Heap/Api/Refine/Allocate.antt =====
-- `allocate` of ShompOS/src/memory/heap.c against its promise: a block of its own for each request,
-- or NULL.
use operating_system.Base.{
  ℕ, suc, ◌+◌, ◌-◌, ◌*◌, ◌%◌, ◌^◌, ◌≤◌, ◌<◌, ◌≡◌, ◌⊎◌, inl, inr, refl, ap, sym, ◌∙◌, true, false,
  not, List, [], ◌∷◌, some, arith, ◌==◌, ==_iff, ltb, ◌||◌, ◌∈◌, Bool-cases,
}
use Prim.Native.Nat.{max}
use mathlib.Core.Path.{subst}
use native.Mathlib.Nat.{pow-le-pow_right}
use operating_system.Heap.{
  Heap, max_block_scale, min_block_scale, header_size, u32_mod, size_to_scale, find_fit,
}
use operating_system.Heap.Api.{
  split_or_grow, return_fit, allocate, allocate_scale, after_split, fit_grown, block_size,
  last_block, shrink_loop, brk_within, brk, sbrk_up,
}
use operating_system.Heap.Api.Grow.{brk-grow, sbrk_up-grow}
use operating_system.Heap.Api.Total.{split_loop-total}
use operating_system.Heap.Api.Refine.{Represents, grow-Blocks, IsOutside-of}
use operating_system.Heap.Size.{size_to_scale_bounds}
use operating_system.Heap.FreeLists.{Lists, replace, HasList}
use operating_system.Heap.Fit.{BestFit, find_fit-BestFit}
use operating_system.Heap.Split.{split_loop-Split}
use operating_system.Heap.Blocks.{Given, give, Apart, Blocks, Hand}
use operating_system.Heap.Blocks.Take.{take-Hand}
use operating_system.Heap.Blocks.Put.{give-Blocks}
use operating_system.Heap.Blocks.Split.{split_loop-Hand}

-- Whether the call of `allocate` may fail: no block can hold the request, or none is free and the
-- address space has no room for another one.
pub data MayRefuse (h : Heap) (L : Lists) (size : ℕ) : Type 0 where
  nothing_asked : size ≡ 0 → MayRefuse h L size
  too_large : block_size - header_size < size → MayRefuse h L size
  no_memory :
      ((j : ℕ) → size_to_scale size ≤ j → j ≤ max_block_scale → L j ≡ [])
      → u32_mod ≤ h.current_brk + block_size
      → MayRefuse h L size

-- What a caller gets: the address behind the header of a block that holds the request and shares
-- no address with a block that was given out before.
pub record IsServed (A : Given) (size p : ℕ) (g : Heap) : Type 0 where
  pub b : ℕ
  pub s : ℕ
  pub address : p ≡ b + header_size
  pub header : (g.scale b ≡ s) × HasList s
  pub room : size + header_size ≤ 2 ^ s
  pub apart : (k a : ℕ) → HasList k → A k a ≡ true → Apart a k b s
  pub state : Represents g (give b s A)

module _ {h : Heap} {A : Given} (r : Represents h A) where
  -- A fitting block that the search took out is in hand.
  fit-Hand :
      {k s b top : ℕ} {rest : List ℕ} {f g : Heap} {L : Lists}
      → Blocks f L A top
      → BestFit f L k s b rest g
      → Hand g (replace L s rest) A top b s
  fit-Hand {s} {b} {top} {rest} {L = L} v fit =
      subst (λ x. Hand x (replace L s rest) A top b s) (sym fit.heap)
        (take-Hand v s b [] rest fit.has_list fit.first)

  -- A block in hand that is linked to itself is handed out.
  serve :
      {size k b : ℕ} {g : Heap} {L : Lists}
      → Hand g L A g.current_brk b k
      → g.next b ≡ b
      → g.prev b ≡ b
      → g.current_brk < u32_mod
      → size + header_size ≤ 2 ^ k
      → IsServed A size (b + header_size) g
  serve {k = k} {b} {L = L} w n p high room = record {
    b = b;
    s = k;
    address = refl;
    header = (w.header.scale, w.has_list);
    room = room;
    apart = λ j a hj m. w.off j a hj (inr m);
    state = record {
      free_blocks = L;
      blocks = give-Blocks w n p;
      low = omega (arith, w.header.above, w.room);
      high = high;
    };
  }

  -- The last block is not a free one of the largest scale, so the heap cannot shrink: this is where
  -- a break that wraps around leads to.
  brk_within-stop :
      (rounds addr : ℕ)
      → r.free_blocks max_block_scale ≡ []
      → addr < h.current_brk
      → brk_within (suc rounds) addr h ≡ some (false, h)
  unfolding brk_within shrink_loop
  brk_within-stop rounds addr empty below =
      let up : ltb h.current_brk addr ≡ false = ground arith in
      let down : ltb addr h.current_brk ≡ true = ground arith in
      let stop : (not (h.scale (last_block h) == max_block_scale) || not (h.is_free (last_block h)))
          ≡ true =
        not_last (last_block h) in
      rw (up, down, stop) refl
    where
      not_last : (b : ℕ) → (not (h.scale b == max_block_scale) || not (h.is_free b)) ≡ true
      not_last b = elim (Bool-cases (h.scale b == max_block_scale)) [
        | inl e ↦ elim (Bool-cases (h.is_free b)) [
          | inl f ↦
              let m : b ∈ r.free_blocks max_block_scale =
                subst (λ k. b ∈ r.free_blocks k) ((==_iff (h.scale b) max_block_scale).0 e)
                  (r.blocks.marked b f).1 in
              absurd (cc (subst (λ l. b ∈ l) empty m))
          | inr f ↦ rw (e, f) refl
        ]
        | inr e ↦ rw e refl
      ]

  sbrk_up-stop :
      r.free_blocks max_block_scale ≡ []
      → u32_mod ≤ h.current_brk + block_size
      → sbrk_up 1 h ≡ some (false, h)
  unfolding sbrk_up brk
  sbrk_up-stop empty wraps =
      brk_within-stop (2 ^ 17 - 1) ((h.current_brk + 1 * block_size) % u32_mod) empty
        (omega (arith, r.high))

  module _ (size : ℕ) (pos : 0 < size) (small : size ≤ block_size - header_size) where
    holds : (s : ℕ) → size_to_scale size ≤ s → size + header_size ≤ 2 ^ s
    holds s le =
        let (enough, _, _, _) = size_to_scale_bounds size pos small in
        omega (arith, pow-le-pow_right {n = 2} (omega arith) {i = size_to_scale size} {j = s} le)

    scale-HasList : HasList (size_to_scale size)
    scale-HasList = let (_, _, least, largest) = size_to_scale_bounds size pos small in omega arith

    allocate_scale-found :
        (s b : ℕ) (rest : List ℕ) (g : Heap)
        → find_fit (size_to_scale size) h ≡ some (b, g)
        → BestFit h r.free_blocks (size_to_scale size) s b rest g
        → (p : ℕ) × (g' : Heap) × (allocate_scale (size_to_scale size) h ≡ some (p, g'))
          × IsServed A size p g'
    unfolding allocate_scale split_or_grow after_split
    allocate_scale-found s b rest g found fit =
        let k = size_to_scale size in
        let w = fit-Hand r.blocks fit in
        let hk = scale-HasList in
        let start : g.scale b ≡ s = fit.links.3 in
        let enough : s < suc (g.scale b) + k = omega (arith, start) in
        let (g', runs, brk) =
          split_loop-total (g.scale b) b k g (omega (arith, fit.above)) hk.least (omega arith) in
        let fits : h.current_brk ≤ u32_mod = omega (arith, r.high) in
        let (L', w') =
          split_loop-Hand (suc (g.scale b)) b k s w fits hk.least fit.large enough runs in
        let split =
          split_loop-Split (suc (g.scale b)) b k s fit.lists (IsOutside-of w) fit.above
            (omega (arith, w.room, r.high)) fit.links.3 hk.least fit.large fit.has_list.largest
            enough runs in
        let same : g'.current_brk ≡ h.current_brk = brk ∙ fit.brk in
        let nz : (b == 0) ≡ false = ground (arith, fit.above) in
        (
          b + header_size,
          g',
          rw (found, nz) (ap (after_split b) runs),
          serve (subst (λ top. Hand g' L' A top b k) (sym same) w') (split.next ∙ fit.links.0)
              (split.prev ∙ fit.links.1) (omega (arith, r.high, same)) (holds k (omega arith)),
        )

    allocate_scale-grown :
        find_fit (size_to_scale size) h ≡ some (0, h)
        → ((j : ℕ) → size_to_scale size ≤ j → j ≤ max_block_scale → r.free_blocks j ≡ [])
        → h.current_brk + block_size < u32_mod
        → (p : ℕ) × (g : Heap) × (allocate_scale (size_to_scale size) h ≡ some (p, g))
          × IsServed A size p g
    unfolding allocate_scale split_or_grow fit_grown return_fit
    allocate_scale-grown none_fit nothing room =
        let k = size_to_scale size in
        let L =
          replace r.free_blocks max_block_scale (h.current_brk ∷ r.free_blocks max_block_scale) in
        let v = grow-Blocks r in
        let hk = scale-HasList in
        elim (find_fit-BestFit v.lists k hk) [
          | inl (_, none_grown) ↦ absurd (cc (none_grown max_block_scale hk.largest (omega arith)))
          | inr (s, b, rest, g, found, fit) ↦
              let same : g.current_brk ≡ h.current_brk + block_size =
                omega (arith, fit.brk, brk-grow h) in
              (
                b + header_size,
                g,
                rw none_fit (rw (sbrk_up-grow h room) (rw found refl)),
                serve
                    (subst (λ top. Hand g (replace L s rest) A top b s) (sym same) (fit-Hand v fit))
                    fit.links.0 fit.links.1 (omega (arith, same)) (holds s fit.large),
              )
        ]

    allocate_scale-none :
        find_fit (size_to_scale size) h ≡ some (0, h)
        → r.free_blocks max_block_scale ≡ []
        → u32_mod ≤ h.current_brk + block_size
        → allocate_scale (size_to_scale size) h ≡ some (0, h)
    unfolding allocate_scale split_or_grow fit_grown return_fit
    allocate_scale-none none_fit empty wraps = rw none_fit (rw (sbrk_up-stop empty wraps) refl)

    allocate_scale-cases :
        (p : ℕ) × (g : Heap) × (allocate_scale (size_to_scale size) h ≡ some (p, g))
        × (((p ≡ 0) × (g ≡ h) × MayRefuse h r.free_blocks size) ⊎ IsServed A size p g)
    allocate_scale-cases =
        elim (find_fit-BestFit r.blocks.lists (size_to_scale size) scale-HasList) [
          | inl (none_fit, nothing) ↦ elim (Bool-cases (ltb (h.current_brk + block_size) u32_mod)) [
            | inl room ↦
                let (p, g, e, served) = allocate_scale-grown none_fit nothing (ground arith) in
                (p, g, e, inr served)
            | inr wraps ↦
                let full : u32_mod ≤ h.current_brk + block_size = ground arith in
                let empty = nothing max_block_scale scale-HasList.largest (omega arith) in
                (
                  0,
                  h,
                  allocate_scale-none none_fit empty full,
                  inl (refl, refl, MayRefuse.no_memory nothing full),
                )
          ]
          | inr (s, b, rest, g, found, fit) ↦
              let (p, g', e, served) = allocate_scale-found s b rest g found fit in
              (p, g', e, inr served)
        ]

  -- Where the heap consists of blocks that do not overlap, `allocate` returns for every size.
  -- Either the result is NULL and the heap is unchanged: then the size is 0 or above 2 ^ 15 - 9,
  -- or no free block fits and a new one would reach the end of the address space. Or it is the
  -- address behind the header of a block that holds the request, that shares no address with any
  -- block given out before, and that is given out afterwards, in a heap that again consists of
  -- such blocks.
  pub allocate-IsServed :
      (size : ℕ)
      → (p : ℕ) × (g : Heap) × (allocate size h ≡ some (p, g))
        × (((p ≡ 0) × (g ≡ h) × MayRefuse h r.free_blocks size) ⊎ IsServed A size p g)
  unfolding allocate
  allocate-IsServed size = elim (Bool-cases (size == 0)) [
    | inl zero_size ↦ (0, h, ground arith, inl (refl, refl, MayRefuse.nothing_asked (ground arith)))
    | inr asked ↦ elim (Bool-cases (ltb (block_size - header_size) size)) [
      | inl large ↦ (0, h, ground arith, inl (refl, refl, MayRefuse.too_large (ground arith)))
      | inr small ↦
          let pos : 0 < size = ground arith in
          let fits : size ≤ block_size - header_size = ground arith in
          let least = (scale-HasList size pos fits).least in
          let m : max (size_to_scale size) min_block_scale ≡ size_to_scale size =
            omega (arith, least) in
          rw (small, asked, m) (allocate_scale-cases size pos fits)
    ]
  ]
