-- ===== src/Ramfs/Result.antt =====
-- That the operations of ShompOS/src/fs/ramfs.c return, on a heap that can grow and shrink as often as
-- they ask it to.
use operating_system.Base.{ℕ, suc, ◌+◌, ◌*◌, ◌≤◌, ◌<◌, ◌≡◌, refl, Option, some, arith}
use operating_system.Heap.{Heap, u32_mod}
use operating_system.Heap.Api.{allocate, block_size}
use operating_system.Heap.Api.Total.{allocate-total}
use operating_system.Heap.Api.Free.{free-total}
use operating_system.Ramfs.{Fs, ◌>>=◌, alloc, dealloc}

-- There is a result, and it has the property.
pub data Returns {A : Type 0} (P : A → Type 0) : Option A → Type 0 where
  result : {a : A} → P a → Returns P (some a)

pub Returns-bind :
    {A B : Type 0} {P : A → Type 0} {Q : B → Type 0} {m : Option A} {f : A → Option B}
    → Returns P m
    → ((a : A) → P a → Returns Q (f a))
    → Returns Q (m >>= f)
unfolding ◌>>=◌
Returns-bind (result {a = a} p) k = k a p

pub Returns-bind-with :
    {A B : Type 0} {P : A → Type 0} {Q : B → Type 0} {m : Option A} {f : A → Option B}
    → Returns P m
    → ((a : A) → m ≡ some a → P a → Returns Q (f a))
    → Returns Q (m >>= f)
unfolding ◌>>=◌
Returns-bind-with (result {a = a} p) k = k a refl p

pub Returns-map :
    {A : Type 0} {P Q : A → Type 0} {m : Option A}
    → Returns P m
    → ((a : A) → P a → Q a)
    → Returns Q m
Returns-map (result {a = a} p) k = result (k a p)

pub Returns-with :
    {A : Type 0} {P Q : A → Type 0} {m : Option A}
    → Returns P m
    → ((a : A) → m ≡ some a → P a → Q a)
    → Returns Q m
Returns-with (result {a = a} p) k = result (k a refl p)

-- The heap can grow by `a` blocks of the largest scale, and shrink by `d`.
abbrev pub Room : ℕ → ℕ → Fs → Type 0
Room a d s = (d * block_size ≤ s.heap.current_brk) × (s.heap.current_brk + a * block_size < u32_mod)

pub alloc-Returns :
    (P : ℕ × Fs → Type 0) (n a d : ℕ) (s : Fs)
    → Room (suc a) d s
    → ((p : ℕ) (h : Heap)
        → allocate n s.heap ≡ some (p, h)
        → Room a d (record s { heap = h })
        → P (p, record s { heap = h }))
    → Returns P (alloc n s)
unfolding alloc ◌>>=◌
alloc-Returns P n a d s (low, high) k =
    let (p, h, runs, moved) = allocate-total n s.heap (omega arith) in
    rw runs (result (k p h runs (omega (arith, moved), omega (arith, moved))))

pub alloc-Room :
    (n a d : ℕ) (s : Fs) → Room (suc a) d s → Returns (λ (p, s'). Room a d s') (alloc n s)
alloc-Room n a d s room = alloc-Returns _ n a d s room (λ p h runs room'. room')

pub dealloc-Returns :
    (P : Fs → Type 0) (p a d : ℕ) (s : Fs)
    → Room a (suc d) s
    → ((h : Heap) → Room a d (record s { heap = h }) → P (record s { heap = h }))
    → Returns P (dealloc p s)
unfolding dealloc ◌>>=◌
dealloc-Returns P p a d s (low, high) k =
    let (status, h, runs, _, moved) = free-total p s.heap (omega arith) (omega arith) in
    rw runs (result (k h (omega (arith, moved), omega (arith, moved))))
