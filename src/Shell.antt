-- ===== src/Shell.antt =====
-- The command line of ShompOS/src/kernel/kernel.c: the state of the keyboard and the commands, with
-- `ramfs_run` of ShompOS/src/fs/ramfs_executables.c.
pub mod Copied
pub mod Parse
pub mod Words
pub mod Keyboard
mod Tests
use operating_system.Base.{
  ℕ, zero, suc, ◌+◌, Bool, true, false, not, ◌&&◌, ◌||◌, List, [], ◌∷◌, Option, none, some, Text,
  codes, ◌==◌, if◌then◌else◌, set, drop, length,
}
use operating_system.Terminal.{terminal_clear}
use operating_system.Process.{Symbols}
use operating_system.Ramfs.{Fs, ◌>>=◌, text_eq, find_file}
use operating_system.Ramfs.Programs.{
  say, say_line, trim, ramfs_pwd, ramfs_mkdir, ramfs_rm, ramfs_ls, ramfs_cat, ramfs_touch, ramfs_cd,
}
use operating_system.Elf.{System, init_elf}

-- What the linker and the compiler choose: the addresses of functions, of the strings "" and "\n",
-- and of the character of the keyboard's handler; and the fuel of the loops over strings.
pub record Env : Type 0 where
  pub symbols : Symbols
  pub empty : ℕ
  pub newline : ℕ
  pub local : ℕ
  pub fuel : ℕ

-- `KEY_state`, a bit for each key
pub record KeyState : Type 0 where
  pub caps : Bool
  pub alt : Bool
  pub ctrl : Bool
  pub shift : Bool

pub record Shell : Type 0 where
  pub system : System
  pub keys : KeyState
  pub cmd_buffer : List ℕ
  pub cmd_pos : ℕ
  pub current_dir : ℕ
  pub system_root : ℕ

abbrev pub cmd_max_len : ℕ
cmd_max_len = 64

abbrev pub with_fs : Fs → Shell → Shell
with_fs fs s = record s { system = record (s.system) { fs = fs } }

-- A program of the file system, as a program of the shell.
abbrev pub on_fs : (Fs → Option Fs) → Shell → Option Shell
on_fs f s = do fs ← f s.system.fs; some (with_fs fs s)

abbrev pub tell : Text → Shell → Shell
tell text s = with_fs (say text s.system.fs) s

pub ramfs_run : Env → ℕ → Text → Shell → Option Shell
ramfs_run env dir filename s =
    let name = trim filename in
    if dir == 0 then some s else elim (find_file s.system.fs dir name) [
      | none ↦ some (with_fs (say_line (codes "File not found: ") name s.system.fs) s)
      | some (_, file) ↦ do
        (_, system) ← init_elf env.symbols file s.system
        some (record s { system = system })
    ]

-- The bytes of a string, up to its end.
pub text_of : List ℕ → Text
text_of [] = []
text_of (c ∷ cs) = if c == 0 then [] else c ∷ text_of cs

-- The place of the first space of a string, counted from `i`.
pub find_space : ℕ → List ℕ → Option ℕ
find_space i [] = none
find_space i (c ∷ cs) =
    let rest = find_space (i + 1) cs in if c == 0 then none else if c == 32 then some i else rest

-- The command's name, its arguments if there is a space, and the buffer with a 0 at that space.
split_at : List ℕ → Option ℕ → Text × Option Text × List ℕ
split_at cmd none = (text_of cmd, none, cmd)
split_at cmd (some i) = (text_of (set cmd i 0), some (text_of (drop (i + 1) cmd)), set cmd i 0)

pub split_command : List ℕ → Text × Option Text × List ℕ
unfolding split_at
split_command cmd = split_at cmd (find_space 0 cmd)

-- `if (!args) { terminal_writestring(usage); return; }`
pub needs : Option Text → Text → (Text → Shell → Option Shell) → Shell → Option Shell
needs none usage f s = some (tell usage s)
needs (some args) usage f s = f args s

pub help : Shell → Shell
help s = tell (codes "  help        Show this help message\n") (
    tell (codes "  rm <file>   Remove file\n") (
      tell (codes "  mkdir <dir> Create directory\n") (
        tell (codes "  touch <file> Create empty file\n") (
          tell (codes "  cat <file>  Display file contents\n") (
            tell (codes "  pwd         Print working directory\n") (
              tell (codes "  ls          List directory contents\n") (
                tell (codes "  clear        Clear the screen\n")
                  (tell (codes "Available commands:\n") s))))))))

abbrev pub clear_screen : Shell → Shell
clear_screen s =
    let fs = s.system.fs in with_fs (record fs { terminal = terminal_clear fs.terminal }) s

pub change_dir : Text → Shell → Option Shell
change_dir args s = do
  (dir, fs) ← ramfs_cd s.system_root args s.system.fs
  if dir == 0
      then some (tell (codes "Failed to find directory\n") (with_fs fs s))
      else some (record (with_fs fs s) { current_dir = dir })

pub run_handler : Env → Text → Option Text → Shell → Option Shell
run_handler env name args s =
    if text_eq name (codes "clear")
    then some (clear_screen s)
    else if text_eq name (codes "ls")
    then on_fs (ramfs_ls env.fuel s.current_dir) s
    else if text_eq name (codes "pwd")
    then on_fs (ramfs_pwd env.fuel s.current_dir) s
    else if text_eq name (codes "cat")
    then needs args (codes "Usage: cat <filename>\n")
        (λ a. on_fs (ramfs_cat env.fuel s.current_dir a)) s
    else if text_eq name (codes "touch")
    then needs args (codes "Usage: touch <filename>\n")
        (λ a. on_fs (ramfs_touch env.empty s.current_dir a)) s
    else if text_eq name (codes "mkdir")
    then needs args (codes "Usage: mkdir <dirname>\n") (λ a. on_fs (ramfs_mkdir s.current_dir a)) s
    else if text_eq name (codes "rm")
    then needs args (codes "Usage: rm <filename>\n") (λ a. on_fs (ramfs_rm s.current_dir a)) s
    else if text_eq name (codes "help")
    then some (help s)
    else if text_eq name (codes "cd")
    then needs args (codes "Usage: rm <filename>\n") change_dir s
    else if text_eq name (codes "run")
    then needs args (codes "Usage: rm <filename>\n") (λ a. ramfs_run env s.current_dir a) s
    else if not (length name == 0)
    then some (with_fs (say_line (codes "Unknown command: ") name s.system.fs) s)
    else some s

-- `handle_command(cmd_buffer)`
pub handle_command : Env → Shell → Option Shell
unfolding run_handler
handle_command env s =
    let (name, args, cmd) = split_command s.cmd_buffer in
    run_handler env name args (record s { cmd_buffer = cmd })
