-- ===== src/Shell/Keyboard/Kept.antt =====
-- That the commands of ShompOS/src/kernel/kernel.c keep the line that is typed.
use operating_system.Base.{
  ℕ, ◌≡◌, inl, inr, refl, Option, none, some, Text, codes, ◌==◌, Bool-cases, length,
}
use mathlib.Core.Path.{subst}
use mathlib.Core.Option.{some-injective}
use operating_system.Base.Int.{pos}
use operating_system.Elf.{init_elf}
use operating_system.Ramfs.{Fs, ◌>>=◌, text_eq, find_file}
use operating_system.Ramfs.Programs.{
  say_line, trim, ramfs_pwd, ramfs_mkdir, ramfs_rm, ramfs_ls, ramfs_cat, ramfs_touch, ramfs_cd,
}
use operating_system.Ramfs.Descriptor.{ramfs_write}
use operating_system.Shell.{
  Env, Shell, with_fs, on_fs, needs, change_dir, ramfs_run, run_handler, help,
}
use operating_system.Shell.Keyboard.{echo}

-- Whatever is returned has the property.
pub data Each {A : Type 0} (P : A → Type 0) : Option A → Type 0 where
  nothing_returned : Each P none
  returned : {a : A} → P a → Each P (some a)

pub Each-bind :
    {A B : Type 0} {P : A → Type 0} {Q : B → Type 0} {m : Option A} {f : A → Option B}
    → Each P m
    → ((a : A) → P a → Each Q (f a))
    → Each Q (m >>= f)
unfolding ◌>>=◌
Each-bind nothing_returned k = nothing_returned
Each-bind (returned {a = a} p) k = k a p

pub Each-map :
    {A : Type 0} {P Q : A → Type 0} {m : Option A} → Each P m → ((a : A) → P a → Q a) → Each Q m
Each-map nothing_returned k = nothing_returned
Each-map (returned {a = a} p) k = returned (k a p)

pub Each-at : {A : Type 0} {P : A → Type 0} {m : Option A} {a : A} → Each P m → m ≡ some a → P a
Each-at nothing_returned e = cc
Each-at {P = P} (returned p) e = subst P (some-injective _ _ e) p

pub any : {A : Type 0} (m : Option A) → Each (λ a. Unit) m
any none = nothing_returned
any (some a) = returned tt

-- The line is as before.
pub record IsKept (s t : Shell) : Type 0 where
  pub buffer : t.cmd_buffer ≡ s.cmd_buffer
  pub position : t.cmd_pos ≡ s.cmd_pos

pub kept : (s : Shell) (fs : Fs) → IsKept s (with_fs fs s)
kept s fs = record { buffer = refl; position = refl }

on_fs-IsKept : (f : Fs → Option Fs) (s : Shell) → Each (IsKept s) (on_fs f s)
on_fs-IsKept f s = Each-bind (any (f s.system.fs)) (λ fs _. returned (kept s fs))

change_dir-IsKept : (args : Text) (s : Shell) → Each (IsKept s) (change_dir args s)
unfolding change_dir
change_dir-IsKept args s = Each-bind (any (ramfs_cd s.system_root args s.system.fs)) (λ (dir, fs) _.
    elim (Bool-cases (dir == 0)) [
      | inl missing ↦ rw missing (returned (record { buffer = refl; position = refl }))
      | inr found ↦ rw found (returned (record { buffer = refl; position = refl }))
    ])

ramfs_run-IsKept :
    (env : Env) (dir : ℕ) (args : Text) (s : Shell) → Each (IsKept s) (ramfs_run env dir args s)
unfolding ramfs_run
ramfs_run-IsKept env dir args s = elim (Bool-cases (dir == 0)) [
  | inl null ↦ rw null (returned (record { buffer = refl; position = refl }))
  | inr real ↦ rw real (go (find_file s.system.fs dir (trim args)))
]
  where
    go :
        (found : Option (ℕ × ℕ))
        → Each (IsKept s) (elim found [
          | none ↦ some (with_fs (say_line (codes "File not found: ") (trim args) s.system.fs) s)
          | some (_, file) ↦ do
            (_, system) ← init_elf env.symbols file s.system
            some (record s { system = system })
        ])
    go none = returned (kept s _)
    go (some (i, file)) =
        Each-bind (any (init_elf env.symbols file s.system))
          (λ (_, system) _. returned (record { buffer = refl; position = refl }))

needs-IsKept :
    (args : Option Text) (usage : Text) (f : Text → Shell → Option Shell) (s : Shell)
    → ((a : Text) → Each (IsKept s) (f a s))
    → Each (IsKept s) (needs args usage f s)
unfolding needs
needs-IsKept none usage f s k = returned (kept s _)
needs-IsKept (some a) usage f s k = k a

pub echo-IsKept : (env : Env) (buf : ℕ) (s : Shell) → Each (IsKept s) (echo env buf s)
unfolding echo
echo-IsKept env buf s =
    Each-bind (any (ramfs_write env.fuel (pos 0) buf 1 s.system.fs)) (λ (_, fs1) _.
      Each-bind (any (ramfs_write env.fuel (pos 1) buf 1 fs1))
        (λ (_, fs2) _. returned (kept s fs2)))

help-IsKept : (s : Shell) → Each (IsKept s) (some (help s))
unfolding help
help-IsKept s = returned (record { buffer = refl; position = refl })

pub run_handler-IsKept :
    (env : Env) (name : Text) (args : Option Text) (s : Shell)
    → Each (IsKept s) (run_handler env name args s)
unfolding run_handler
run_handler-IsKept env name args s = elim (Bool-cases (text_eq name (codes "clear"))) [
  | inl this ↦ rw this (returned (record { buffer = refl; position = refl }))
  | inr other ↦ rw other (elim (Bool-cases (text_eq name (codes "ls"))) [
    | inl this ↦ rw this (on_fs-IsKept (ramfs_ls env.fuel s.current_dir) s)
    | inr other ↦ rw other (elim (Bool-cases (text_eq name (codes "pwd"))) [
      | inl this ↦ rw this (on_fs-IsKept (ramfs_pwd env.fuel s.current_dir) s)
      | inr other ↦ rw other (elim (Bool-cases (text_eq name (codes "cat"))) [
        | inl this ↦
            rw this
              (needs-IsKept args _ _ s (λ a. on_fs-IsKept (ramfs_cat env.fuel s.current_dir a) s))
        | inr other ↦ rw other (elim (Bool-cases (text_eq name (codes "touch"))) [
          | inl this ↦ rw this (
              needs-IsKept args _ _ s (λ a. on_fs-IsKept (ramfs_touch env.empty s.current_dir a) s))
          | inr other ↦ rw other (elim (Bool-cases (text_eq name (codes "mkdir"))) [
            | inl this ↦
                rw this
                  (needs-IsKept args _ _ s (λ a. on_fs-IsKept (ramfs_mkdir s.current_dir a) s))
            | inr other ↦ rw other (elim (Bool-cases (text_eq name (codes "rm"))) [
              | inl this ↦
                  rw this (needs-IsKept args _ _ s (λ a. on_fs-IsKept (ramfs_rm s.current_dir a) s))
              | inr other ↦ rw other (elim (Bool-cases (text_eq name (codes "help"))) [
                | inl this ↦ rw this (help-IsKept s)
                | inr other ↦ rw other (elim (Bool-cases (text_eq name (codes "cd"))) [
                  | inl this ↦ rw this (needs-IsKept args _ _ s (λ a. change_dir-IsKept a s))
                  | inr other ↦ rw other (elim (Bool-cases (text_eq name (codes "run"))) [
                    | inl this ↦
                        rw this
                          (needs-IsKept args _ _ s (λ a. ramfs_run-IsKept env s.current_dir a s))
                    | inr other ↦ rw other (elim (Bool-cases (length name == 0)) [
                      | inl empty ↦ rw empty (returned (record { buffer = refl; position = refl }))
                      | inr unknown ↦
                          rw unknown (returned (record { buffer = refl; position = refl }))
                    ])
                  ])
                ])
              ])
            ])
          ])
        ])
      ])
    ])
  ])
]
