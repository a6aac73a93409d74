-- ===== src/Ramfs/Descriptor/Count.antt =====
-- The count of the open files of ShompOS/src/fs/ramfs.c through `ramfs_open` and `ramfs_close`.
use operating_system.Base.{
  ℕ, zero, suc, ◌+◌, ◌≡◌, ◌≢◌, ◌⊎◌, inl, inr, refl, ◌∙◌, ap, sym, List, [], ◌∷◌, some, Text, ◌==◌,
  if◌then◌else◌, Bool-cases, arith, length, length-set, get_or, get_elem?, set,
}
use operating_system.Base.Int.{ℤ, pos, negsuc}
use operating_system.Ramfs.{Fs}
use operating_system.Ramfs.Result.{Returns, result, Returns-bind, Returns-map, Room}
use operating_system.Ramfs.Descriptor.{max_fds, failed, ramfs_open, entry_of, ramfs_close}
use operating_system.Ramfs.Descriptor.Table.{dealloc-Same, ramfs_open-Opened}

-- The number of places of a table that are in use.
unfoldable pub used : List ℕ → ℕ
used [] = 0
used (p ∷ ps) = if p == 0 then used ps else suc (used ps)

used-set_free :
    (table : List ℕ) (i entry : ℕ)
    → get_elem? table i ≡ some 0
    → entry ≢ 0
    → used (set table i entry) ≡ used table + 1
unfolding used
used-set_free [] i entry e ne = cc
used-set_free (p ∷ ps) zero entry e ne = let null : p ≡ 0 = cc in ground (arith, null)
used-set_free (p ∷ ps) (suc i) entry e ne = ground (arith, used-set_free ps i entry e ne)

used-clear : (table : List ℕ) (i : ℕ) → get_or table i 0 ≢ 0 → used (set table i 0) + 1 ≡ used table
unfolding used
used-clear [] i ne = absurd (ne refl)
used-clear (p ∷ ps) zero ne = ground (arith, ne)
used-clear (p ∷ ps) (suc i) ne = ground (arith, used-clear ps i ne)

-- The table has all its places, and `fd_count` is the number of those in use.
abbrev pub Counted : Fs → Type 0
Counted s = (length s.fd_table ≡ max_fds) × (s.fd_count ≡ used s.fd_table)

-- Where the table has its 64 places, `fd_count` is the number of those in use and the heap has
-- room to grow by three blocks and shrink by two, `ramfs_open` returns, and the table and the
-- count are so again.
ramfs_open-Counted :
    (root : ℕ) (path : Text) (flags : ℕ) (s : Fs)
    → Room 3 2 s
    → Counted s
    → Returns (λ (r, s'). Counted s') (ramfs_open root path flags s)
ramfs_open-Counted root path flags s room (len, count) =
    Returns-map (ramfs_open-Opened root path flags s room) (λ (r, s') cases. elim cases [
      | inl (_, (tab, cnt, _)) ↦ (ap length tab ∙ len, cnt ∙ count ∙ ap used (sym tab))
      | inr (fd, entry, _, is_free, ne, tab, cnt, _, _) ↦ (
        ap length tab ∙ length-set s.fd_table fd entry ∙ len,
        cnt
            ∙ ap (λ x. x + 1) count
            ∙ sym (used-set_free s.fd_table fd entry is_free ne)
            ∙ ap used (sym tab),
      )
    ])

get_or-set_zero : (table : List ℕ) (i : ℕ) → get_or (set table i 0) i 0 ≡ 0
get_or-set_zero [] i = refl
get_or-set_zero (p ∷ ps) zero = refl
get_or-set_zero (p ∷ ps) (suc i) = get_or-set_zero ps i

-- Where the table has its 64 places, `fd_count` is the number of those in use and the heap has
-- room to shrink by a block, `ramfs_close` returns, and the table and the count are so again. The
-- result for a descriptor without an entry is -1, with nothing changed; for any other it is 0,
-- with that place free, and only that place changed.
pub ramfs_close-Counted :
    (local : ℕ) (fd : ℤ) (s : Fs)
    → Room 0 1 s
    → Counted s
    → Returns
        (λ (r, s').
          Counted s'
          × (((entry_of fd s.fd_table ≡ 0) × (r ≡ failed) × (s' ≡ s))
              ⊎ ((i : ℕ) × (fd ≡ pos i)
                  × (r ≡ pos 0)
                  × (s'.fd_table ≡ set s.fd_table i 0)
                  × (entry_of fd s'.fd_table ≡ 0))))
        (ramfs_close local fd s)
unfolding ramfs_close entry_of
ramfs_close-Counted local (negsuc _) s room counted = result (counted, inl (refl, refl, refl))
ramfs_close-Counted local (pos i) s room (len, count) =
    elim (Bool-cases (entry_of (pos i) s.fd_table == 0)) [
      | inl unused ↦ rw unused (result ((len, count), inl (ground arith, refl, refl)))
      | inr in_use ↦ rw in_use (
          Returns-bind (dealloc-Same local 0 0 s room) (λ s' ((tab, cnt, fds), _).
            let holds_entry : get_or s.fd_table i 0 ≢ 0 = ground arith in
            let cleared : set s'.fd_table i 0 ≡ set s.fd_table i 0 = ap (λ x. set x i 0) tab in
            result (
              (
                length-set s'.fd_table i 0 ∙ ap length tab ∙ len,
                omega (arith, cnt, count, used-clear s.fd_table i holds_entry, ap used cleared),
              ),
              inr (i, refl, refl, cleared, ground (arith, get_or-set_zero s'.fd_table i)),
            )))
    ]
