-- ===== src/Ramfs/Descriptor/Table.antt =====
-- The descriptor table of ShompOS/src/fs/ramfs.c through `ramfs_open`.
use operating_system.Base.{
  ℕ, suc, ◌+◌, ◌≡◌, ◌≢◌, ◌⊎◌, inl, inr, refl, ◌∙◌, ap, true, ◌||◌, List, [], ◌∷◌, Option, none,
  some, Text, codes, ◌==◌, if◌then◌else◌, Bool-cases, arith, length, get_elem?, set,
}
use operating_system.Base.Int.{ℤ, pos}
use mathlib.Core.Path.{subst}
use operating_system.Ramfs.{Fs, ◌>>=◌, alloc, dealloc, strdup, text_eq, find_dir, find_file}
use operating_system.Ramfs.Result.{
  Returns, result, Returns-bind, Returns-map, Room, alloc-Returns, dealloc-Returns,
}
use operating_system.Ramfs.Descriptor.{
  fd_size, failed, first_free, split_slash, locate, open_entry, open_found, open_path, ramfs_open,
}

-- The descriptors are as they were.
abbrev pub Same : Fs → Fs → Type 0
Same s s' = (s'.fd_table ≡ s.fd_table) × (s'.fd_count ≡ s.fd_count) × (s'.fds ≡ s.fds)

Same-refl : (s : Fs) → Same s s
Same-refl s = (refl, refl, refl)

Same-trans : (s t u : Fs) → Same s t → Same t u → Same s u
Same-trans s t u (a, b, c) (d, e, f) = (d ∙ a, e ∙ b, f ∙ c)

alloc-Same :
    (n a d : ℕ) (s : Fs)
    → Room (suc a) d s
    → Returns (λ (p, s'). Same s s' × Room a d s') (alloc n s)
alloc-Same n a d s room = alloc-Returns _ n a d s room (λ p h e room'. ((refl, refl, refl), room'))

pub dealloc-Same :
    (p a d : ℕ) (s : Fs) → Room a (suc d) s → Returns (λ s'. Same s s' × Room a d s') (dealloc p s)
dealloc-Same p a d s room = dealloc-Returns _ p a d s room (λ h room'. ((refl, refl, refl), room'))

strdup-Same :
    (text : Text) (a d : ℕ) (s : Fs)
    → Room (suc a) d s
    → Returns (λ (p, s'). Same s s' × Room a d s') (strdup text s)
unfolding strdup
strdup-Same text a d s room =
    Returns-bind (alloc-Same (length text + 1) a d s room) (λ (p, s') same.
      elim (Bool-cases (p == 0)) [ inl e ↦ rw e (result same) | inr n ↦ rw n (result same) ])

Room-less : (a d : ℕ) (s : Fs) → Room (suc a) (suc d) s → Room a d s
Room-less a d s (low, high) = (omega arith, omega arith)

find_dir-Same :
    (root : ℕ) (path : Text) (a d : ℕ) (s : Fs)
    → Room (suc a) (suc d) s
    → Returns (λ (p, s'). Same s s' × Room a d s') (find_dir root path s)
unfolding find_dir
find_dir-Same root path a d s room = elim (Bool-cases (root == 0)) [
  | inl e ↦ rw e (result (Same-refl s, Room-less a d s room))
  | inr n ↦ rw n (elim (Bool-cases (text_eq path (codes "/"))) [
    | inl e ↦ rw e (result (Same-refl s, Room-less a d s room))
    | inr n' ↦ rw n' (
        Returns-bind (strdup-Same path a (suc d) s room) (λ (copy, s1) (same, (low, high)).
          elim (Bool-cases (copy == 0)) [
            | inl e ↦ rw e (result (same, (omega arith, high)))
            | inr n'' ↦ rw n'' (
                Returns-bind (dealloc-Same copy a d s1 (low, high))
                  (λ s2 (same', room'). result (Same-trans s s1 s2 same same', room')))
          ]))
  ])
]

-- What `ramfs_open` returns where it opens nothing.
abbrev pub standard : Text → ℤ
standard path =
    if text_eq path (codes "/dev/stdin")
    then pos 0
    else if text_eq path (codes "/dev/stdout")
    then pos 1
    else if text_eq path (codes "/dev/stderr")
    then pos 2
    else failed

-- A file was opened in the free place `fd` of the table, at its beginning, and nothing else changed
-- in the table.
abbrev pub Opened : ℕ → Fs → ℤ → Fs → Type 0
Opened flags s r s' =
    (fd entry : ℕ) × (r ≡ pos fd)
    × (get_elem? s.fd_table fd ≡ some 0)
    × (entry ≢ 0)
    × (s'.fd_table ≡ set s.fd_table fd entry)
    × (s'.fd_count ≡ s.fd_count + 1)
    × ((s'.fds entry).position ≡ 0)
    × ((s'.fds entry).flags ≡ flags)

first_free_lem :
    (i : ℕ) (table : List ℕ) {k : ℕ}
    → first_free i table ≡ some k
    → (j : ℕ) × (k ≡ i + j) × (get_elem? table j ≡ some 0)
unfolding first_free
first_free_lem i [] e = cc
first_free_lem i (p ∷ ps) {k = k} e = elim (Bool-cases (p == 0)) [
  | inl unused ↦
      let here : p ≡ 0 = ground arith in
      let e' : some i ≡ some k = rw unused at e in
      let i_k : i ≡ k = cc in (0, omega (arith, i_k), ap some here)
  | inr used ↦
      let e' : first_free (i + 1) ps ≡ some k = rw used at e in
      let (j, at_j, is_free) = first_free_lem (i + 1) ps e' in (suc j, omega (arith, at_j), is_free)
]

locate-Same :
    (root : ℕ) (path : Text) (parts : Option (Text × Text)) (a d : ℕ) (s : Fs)
    → Room (suc a) (suc d) s
    → Returns (λ (p, file, s'). Same s s' × Room a d s') (locate root path parts s)
unfolding locate
locate-Same root path none a d s room = result (Same-refl s, Room-less a d s room)
locate-Same root path (some (dir, file)) a d s room = elim (Bool-cases (length dir == 0)) [
  | inl e ↦ rw e (result (Same-refl s, Room-less a d s room))
  | inr n ↦ rw n (Returns-bind (find_dir-Same root dir a d s room) (λ (p, s') same. result same))
]

abbrev pub Tried : ℕ → Fs → ℤ × Fs → Type 0
Tried flags s (r, s') = ((r ≡ failed) × Same s s') ⊎ Opened flags s r s'

Tried-after : (flags : ℕ) (s t : Fs) (r : ℤ × Fs) → Same s t → Tried flags t r → Tried flags s r
Tried-after flags s t (r, s') same (inl (e, same')) = inl (e, Same-trans s t s' same same')
Tried-after flags s t (r, s') (tab, cnt, fds) (inr (fd, entry, e, is_free, ne, tab', cnt', p, f)) =
    inr (
      fd,
      entry,
      e,
      subst (λ x. get_elem? x fd ≡ some 0) tab is_free,
      ne,
      tab' ∙ ap (λ x. set x fd entry) tab,
      cnt' ∙ ap (λ x. x + 1) cnt,
      p,
      f,
    )

Tried-failed :
    (flags copy a : ℕ) (s : Fs)
    → Room a 1 s
    → Returns (Tried flags s) (dealloc copy s >>= λ s'. some (failed, s'))
Tried-failed flags copy a s room =
    Returns-bind (dealloc-Same copy a 0 s room) (λ s' (same, _). result (inl (refl, same)))

open_entry-Tried :
    (copy file flags : ℕ) (s : Fs)
    → Room 1 1 s
    → Returns (Tried flags s) (open_entry copy file flags (first_free 0 s.fd_table) s)
unfolding open_entry
open_entry-Tried copy file flags s room = go (first_free 0 s.fd_table) refl
  where
    go :
        (place : Option ℕ)
        → first_free 0 s.fd_table ≡ place
        → Returns (Tried flags s) (open_entry copy file flags place s)
    go none e = Tried-failed flags copy 1 s room
    go (some fd) e = Returns-bind (alloc-Same fd_size 0 1 s room) (λ (entry, s1) (same, room1).
        elim (Bool-cases (entry == 0)) [
          | inl null ↦ rw null (
              Returns-map (Tried-failed flags copy 0 s1 room1)
                (λ r tried. Tried-after flags s s1 r same tried))
          | inr ok ↦ rw ok (
              Returns-bind (dealloc-Same copy 0 0 _ room1) (λ s3 ((tab, cnt, fds), _).
                let (j, at_j, is_free) = first_free_lem 0 s.fd_table e in
                let (tab1, cnt1, fds1) = same in
                let fd_j : j ≡ fd = omega (arith, at_j) in
                let self : (entry == entry) ≡ true = ground arith in
                result (
                  inr (
                    fd,
                    entry,
                    refl,
                    subst (λ x. get_elem? s.fd_table x ≡ some 0) fd_j is_free,
                    ground arith,
                    tab ∙ ap (λ x. set x fd entry) tab1,
                    cnt ∙ ap (λ x. x + 1) cnt1,
                    ap (λ f. (f entry).position) fds ∙ rw self refl,
                    ap (λ f. (f entry).flags) fds ∙ rw self refl,
                  ))))
        ])

open_found-Tried :
    (copy flags : ℕ) (found : Option (ℕ × ℕ)) (s : Fs)
    → Room 1 1 s
    → Returns (Tried flags s) (open_found copy flags found s)
unfolding open_found
open_found-Tried copy flags none s room = Tried-failed flags copy 1 s room
open_found-Tried copy flags (some (_, file)) s room = open_entry-Tried copy file flags s room

open_path-Tried :
    (root : ℕ) (path : Text) (flags : ℕ) (s : Fs)
    → Room 3 2 s
    → Returns (Tried flags s) (open_path root path flags s)
unfolding open_path
open_path-Tried root path flags s room =
    Returns-bind (strdup-Same path 2 2 s room) (λ (copy, s1) (same, room1).
      elim (Bool-cases (copy == 0)) [
        | inl null ↦ rw null (result (inl (refl, same)))
        | inr ok ↦ rw ok (
            Returns-bind (locate-Same root path (split_slash path) 1 1 s1 room1)
              (λ (dir, file, s2) (same', room2).
                let both : Same s s2 = Same-trans s s1 s2 same same' in
                elim (Bool-cases (dir == 0)) [
                  | inl missing ↦ rw missing (
                      Returns-map (Tried-failed flags copy 1 s2 room2)
                        (λ r. Tried-after flags s s2 r both))
                  | inr here ↦ rw here (
                      Returns-map (open_found-Tried copy flags (find_file s2 dir file) s2 room2)
                        (λ r. Tried-after flags s s2 r both))
                ]))
      ])

-- `ramfs_open` returns, where the heap has room to grow by three blocks and shrink by two. The
-- result is -1, or the number of a standard stream for its path, with the table, the count and the
-- entries as they were; or it is a place of the table that was free and now holds an entry with
-- the flags, at position 0, with the other places as they were and the count one more.
pub ramfs_open-Opened :
    (root : ℕ) (path : Text) (flags : ℕ) (s : Fs)
    → Room 3 2 s
    → Returns
        (λ (r, s'). ((r ≡ failed) ⊎ (r ≡ standard path)) × Same s s' ⊎ Opened flags s r s')
        (ramfs_open root path flags s)
unfolding ramfs_open
ramfs_open-Opened root path flags s room = elim (Bool-cases ((root == 0) || (length path == 0))) [
  | inl null ↦ rw null (result (inl (inl refl, Same-refl s)))
  | inr ok ↦ rw ok (elim (Bool-cases (text_eq path (codes "/dev/stdin"))) [
    | inl e ↦ rw e (result (inl (inr refl, Same-refl s)))
    | inr n ↦ rw n (elim (Bool-cases (text_eq path (codes "/dev/stdout"))) [
      | inl e ↦ rw e (result (inl (inr refl, Same-refl s)))
      | inr n ↦ rw n (elim (Bool-cases (text_eq path (codes "/dev/stderr"))) [
        | inl e ↦ rw e (result (inl (inr refl, Same-refl s)))
        | inr n ↦ rw n (
            Returns-map (open_path-Tried root path flags s room) (λ (r, s') tried. elim tried [
              | inl (e, same) ↦ inl (inl e, same)
              | inr opened ↦ inr opened
            ]))
      ])
    ])
  ])
]
