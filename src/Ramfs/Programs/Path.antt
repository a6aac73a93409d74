-- ===== src/Ramfs/Programs/Path.antt =====
-- The path that `ramfs_pwd` of ShompOS/src/fs/ramfs_executables.c builds.
use operating_system.Base.{
  ℕ, zero, suc, ◌+◌, ◌-◌, ◌%◌, ◌≤◌, ◌<◌, ◌≡◌, ◌≢◌, ◌⊎◌, inl, inr, refl, ap, sym, ◌∙◌, true, false,
  List, [], ◌∷◌, ◌++◌, some, Text, arith, ◌==◌, length, length-append,
}
use mathlib.Core.Path.{subst}
use operating_system.Heap.{u32_mod}
use operating_system.Libc.{Memory, store}
use operating_system.Ramfs.{Fs}
use operating_system.Ramfs.Programs.{name_of, store_text, path_length, path_loop}

abbrev pub first : List ℕ → ℕ
first [] = 0
first (d ∷ ds) = d

-- The directories from the first one up to the root.
abbrev pub Ancestors : Fs → List ℕ → Type 0
Ancestors s [] = Unit
Ancestors s (d ∷ ds) = (d ≢ 0) × ((s.dirs d).parent ≡ first ds) × Ancestors s ds

-- Their names, the root's first, with a slash between any two.
abbrev pub path_text : Fs → List ℕ → Text
path_text s [] = []
path_text s (d ∷ []) = name_of d s
path_text s (d ∷ e ∷ ds) = path_text s (e ∷ ds) ++ 47 ∷ name_of d s

abbrev pub Holds : Memory → ℕ → Text → Type 0
Holds mem p [] = Unit
Holds mem p (c ∷ cs) = (mem p ≡ c) × Holds mem (p + 1) cs

Holds-frame :
    (text : Text) (mem mem' : Memory) (p : ℕ)
    → ((a : ℕ) → p ≤ a → a < p + length text → mem' a ≡ mem a)
    → Holds mem p text
    → Holds mem' p text
Holds-frame [] mem mem' p same h = tt
Holds-frame (c ∷ cs) mem mem' p same (first, rest) = (
  same p (omega arith) (omega arith) ∙ first,
  Holds-frame cs mem mem' (p + 1) (λ a lo hi. same a (omega (arith, lo)) (omega (arith, hi))) rest,
)

Holds-append :
    (xs ys : Text) (mem : Memory) (p : ℕ)
    → Holds mem p xs
    → Holds mem (p + length xs) ys
    → Holds mem p (xs ++ ys)
Holds-append [] ys mem p h k = subst (λ q. Holds mem q ys) (omega arith) k
Holds-append (x ∷ xs) ys mem p (first, rest) k =
    (first, Holds-append xs ys mem (p + 1) rest (subst (λ q. Holds mem q ys) (omega arith) k))

store_text-outside :
    (text : Text) (mem : Memory) (p a : ℕ)
    → (a < p) ⊎ (p + length text ≤ a)
    → store_text mem p text a ≡ mem a
unfolding store_text
store_text-outside [] mem p a out = refl
store_text-outside (c ∷ cs) mem p a out =
    store_text-outside cs (store mem p c) (p + 1) a (omega (arith, out)) ∙ ground (arith, out)

store_text-Holds : (text : Text) (mem : Memory) (p : ℕ) → Holds (store_text mem p text) p text
unfolding store_text
store_text-Holds [] mem p = tt
store_text-Holds (c ∷ cs) mem p = (
  store_text-outside cs (store mem p c) (p + 1) p (inl (omega arith)) ∙ ground arith,
  store_text-Holds cs (store mem p c) (p + 1),
)

-- The text is in memory, up to `ptr`, and nothing else changed.
record Built (mem mem' : Memory) (ptr start : ℕ) (text : Text) : Type 0 where
  end : start + length text ≡ ptr
  holds : Holds mem' start text
  frame : (a : ℕ) → (a < start) ⊎ (ptr ≤ a) → mem' a ≡ mem a

-- One round at the root, and at another directory.
step_root :
    (fuel : ℕ) (s : Fs) (dir ptr p : ℕ) (mem : Memory)
    → dir ≢ 0
    → (s.dirs dir).parent ≡ 0
    → (ptr + u32_mod - length (name_of dir s)) % u32_mod ≡ p
    → path_loop (suc (suc fuel)) dir ptr s mem ≡ some (p, store_text mem p (name_of dir s))
unfolding path_loop
step_root fuel s dir ptr p mem ne top at =
    let real : (dir == 0) ≡ false = ground arith in
    let root : ((s.dirs dir).parent == 0) ≡ true = ground arith in rw (real, root, at) refl

step_inner :
    (fuel : ℕ) (s : Fs) (dir parent ptr p q : ℕ) (mem : Memory)
    → dir ≢ 0
    → (s.dirs dir).parent ≡ parent
    → parent ≢ 0
    → (ptr + u32_mod - length (name_of dir s)) % u32_mod ≡ p
    → (p + u32_mod - 1) % u32_mod ≡ q
    → path_loop (suc fuel) dir ptr s mem
      ≡ path_loop fuel parent q s (store (store_text mem p (name_of dir s)) q 47)
unfolding path_loop
step_inner fuel s dir parent ptr p q mem ne up inner at before =
    let real : (dir == 0) ≡ false = ground arith in
    let below : ((s.dirs dir).parent == 0) ≡ false = ground arith in
    rw (real, below, at, before, up) refl

-- What the rounds behind built, with the name in front of the end.
Built-step :
    (mem mem' : Memory) (ptr p q start : ℕ) (name text : Text)
    → p + length name ≡ ptr
    → q + 1 ≡ p
    → Built (store (store_text mem p name) q 47) mem' q start text
    → Built mem mem' ptr start (text ++ 47 ∷ name)
Built-step mem mem' ptr p q start name text len next b = record {
  end = omega (arith, length-append text (47 ∷ name), b.end);
  holds = Holds-append text (47 ∷ name) mem' start b.holds (
      subst (λ x. Holds mem' x (47 ∷ name)) (sym b.end)
        (
          b.frame q (inr (omega arith)) ∙ ground arith,
          Holds-frame name (store_text mem p name) mem' (q + 1)
              (λ a lo hi. b.frame a (inr (omega (arith, lo))) ∙ ground (arith, lo))
              (subst (λ x. Holds (store_text mem p name) x name) (sym next)
                (store_text-Holds name mem p)),
        ));
  frame = λ a out.
      b.frame a (omega (arith, out, b.end))
      ∙ ground (arith, out, b.end)
      ∙ store_text-outside name mem p a (omega (arith, out, b.end));
}

path_loop-Built :
    (fuel : ℕ) (s : Fs) (d : ℕ) (ds : List ℕ) (ptr : ℕ) (mem : Memory)
    → Ancestors s (d ∷ ds)
    → length ds + 1 < fuel
    → length (path_text s (d ∷ ds)) ≤ ptr
    → ptr < u32_mod
    → (start : ℕ) × (mem' : Memory) × (path_loop fuel d ptr s mem ≡ some (start, mem'))
      × Built mem mem' ptr start (path_text s (d ∷ ds))
path_loop-Built zero s d ds ptr mem up enough room small = absurd (omega (arith, enough))
path_loop-Built (suc zero) s d ds ptr mem up enough room small = absurd (omega (arith, enough))
path_loop-Built (suc (suc fuel)) s d [] ptr mem (ne, top, _) enough room small =
    let p = ptr - length (name_of d s) in
    (
      p,
      store_text mem p (name_of d s),
      step_root fuel s d ptr p mem ne top (omega (arith, room, small)),
      record {
        end = omega (arith, room);
        holds = store_text-Holds (name_of d s) mem p;
        frame = λ a out. store_text-outside (name_of d s) mem p a (omega (arith, out, room));
      },
    )
path_loop-Built (suc (suc fuel)) s d (g ∷ ds) ptr mem (ne, up, above) enough room small =
    let name = name_of d s in
    let total = length-append (path_text s (g ∷ ds)) (47 ∷ name) in
    let p = ptr - length name in
    let q = p - 1 in
    let (start, mem', runs, b) =
      path_loop-Built (suc fuel) s g ds q (store (store_text mem p name) q 47) above
        (omega (arith, enough)) (omega (arith, room, total)) (omega (arith, small)) in
    (
      start,
      mem',
      step_inner (suc fuel) s d g ptr p q mem ne up above.0 (omega (arith, room, small, total))
            (omega (arith, room, small, total))
          ∙ runs,
      Built-step mem mem' ptr p q start name (path_text s (g ∷ ds)) (omega (arith, room, total))
          (omega (arith, room, total)) b,
    )

path_length-sum :
    (fuel : ℕ) (s : Fs) (d : ℕ) (ds : List ℕ) (len : ℕ)
    → Ancestors s (d ∷ ds)
    → length ds + 1 < fuel
    → path_length fuel d len s ≡ some (len + (length (path_text s (d ∷ ds)) + 1))
unfolding path_length
path_length-sum zero s d ds len up enough = absurd (omega (arith, enough))
path_length-sum (suc zero) s d ds len up enough = absurd (omega (arith, enough))
path_length-sum (suc (suc fuel)) s d [] len (ne, top, _) enough =
    let real : (d == 0) ≡ false = ground arith in
    let root : ((s.dirs d).parent == 0) ≡ true = ground arith in rw (real, root) refl
path_length-sum (suc (suc fuel)) s d (g ∷ ds) len (ne, up, above) enough =
    let real : (d == 0) ≡ false = ground arith in
    let ih =
      path_length-sum (suc fuel) s g ds (len + (length (name_of d s) + 1)) above
        (omega (arith, enough)) in
    rw real (
      ap (λ x. path_length (suc fuel) x (len + (length (name_of d s) + 1)) s) up
      ∙ ih
      ∙ ap some (omega (arith, length-append (path_text s (g ∷ ds)) (47 ∷ name_of d s))))

-- For a directory with its ancestors up to the root, given fuel for them, `ramfs_pwd` finds a
-- length one more than that of the path, which is the names from the root on with a slash between
-- any two. It writes the path from the second byte of the buffer on, and leaves the first byte as
-- it was, and all memory outside.
pub path_loop-path_text :
    (fuel : ℕ) (s : Fs) (d : ℕ) (ds : List ℕ) (path : ℕ) (mem : Memory)
    → Ancestors s (d ∷ ds)
    → length ds + 1 < fuel
    → path + length (path_text s (d ∷ ds)) + 1 < u32_mod
    → (len : ℕ) × (mem' : Memory) × (path_length fuel d 0 s ≡ some len)
      × (path_loop fuel d (path + len) s mem ≡ some (path + 1, mem'))
      × (len ≡ length (path_text s (d ∷ ds)) + 1)
      × Holds mem' (path + 1) (path_text s (d ∷ ds))
      × ((a : ℕ) → (a ≤ path) ⊎ (path + len ≤ a) → mem' a ≡ mem a)
path_loop-path_text fuel s d ds path mem up enough small =
    let len = length (path_text s (d ∷ ds)) + 1 in
    let (start, mem', runs, b) =
      path_loop-Built fuel s d ds (path + len) mem up enough (omega arith) (omega (arith, small)) in
    let at : start ≡ path + 1 = omega (arith, b.end) in
    (
      len,
      mem',
      path_length-sum fuel s d ds 0 up enough ∙ ap some (omega arith),
      runs ∙ ap (λ x. some (x, mem')) at,
      refl,
      subst (λ x. Holds mem' x (path_text s (d ∷ ds))) at b.holds,
      λ a out. b.frame a (omega (arith, out, at)),
    )
