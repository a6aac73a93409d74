-- ===== src/Shell/Copied.antt =====
-- `void_command` of ShompOS/src/kernel/kernel.c, a copy of `handle_command` that nothing calls.
use operating_system.Base.{
  ℕ, ◌+◌, List, [], ◌∷◌, set, drop, none, not, Option, some, Text, codes, ◌==◌, if◌then◌else◌,
  length,
}
use operating_system.Ramfs.{text_eq, ◌>>=◌}
use operating_system.Ramfs.Programs.{
  say_line, ramfs_pwd, ramfs_mkdir, ramfs_rm, ramfs_ls, ramfs_cat, ramfs_touch, ramfs_cd,
}
use operating_system.Shell.{
  Env, Shell, tell, text_of, with_fs, on_fs, ramfs_run, needs, clear_screen,
}

-- The place of the first space, counted from `i`.
copied_space : ℕ → List ℕ → Option ℕ
copied_space i [] = none
copied_space i (c ∷ cs) =
    let rest = copied_space (i + 1) cs in if c == 0 then none else if c == 32 then some i else rest

copied_at : List ℕ → Option ℕ → Text × Option Text × List ℕ
copied_at cmd none = (text_of cmd, none, cmd)
copied_at cmd (some i) = (text_of (set cmd i 0), some (text_of (drop (i + 1) cmd)), set cmd i 0)

copied_split : List ℕ → Text × Option Text × List ℕ
unfolding copied_at copied_space
copied_split cmd = copied_at cmd (copied_space 0 cmd)

copied_help : Shell → Shell
copied_help s = tell (codes "  help        Show this help message\n") (
    tell (codes "  rm <file>   Remove file\n") (
      tell (codes "  mkdir <dir> Create directory\n") (
        tell (codes "  touch <file> Create empty file\n") (
          tell (codes "  cat <file>  Display file contents\n") (
            tell (codes "  pwd         Print working directory\n") (
              tell (codes "  ls          List directory contents\n") (
                tell (codes "  clear        Clear the screen\n")
                  (tell (codes "Available commands:\n") s))))))))

copied_cd : Text → Shell → Option Shell
copied_cd args s = do
  (dir, fs) ← ramfs_cd s.system_root args s.system.fs
  if dir == 0
      then some (tell (codes "Failed to find directory\n") (with_fs fs s))
      else some (record (with_fs fs s) { current_dir = dir })

pub run_copy : Env → Text → Option Text → Shell → Option Shell
run_copy env name args s =
    if text_eq name (codes "clear")
    then some (clear_screen s)
    else if text_eq name (codes "ls")
    then on_fs (ramfs_ls env.fuel s.current_dir) s
    else if text_eq name (codes "pwd")
    then on_fs (ramfs_pwd env.fuel s.current_dir) s
    else if text_eq name (codes "cat")
    then needs args (codes "Usage: cat <filename>\n")
        (λ a. on_fs (ramfs_cat env.fuel s.current_dir a)) s
    else if text_eq name (codes "touch")
    then needs args (codes "Usage: touch <filename>\n")
        (λ a. on_fs (ramfs_touch env.empty s.current_dir a)) s
    else if text_eq name (codes "mkdir")
    then needs args (codes "Usage: mkdir <dirname>\n") (λ a. on_fs (ramfs_mkdir s.current_dir a)) s
    else if text_eq name (codes "rm")
    then needs args (codes "Usage: rm <filename>\n") (λ a. on_fs (ramfs_rm s.current_dir a)) s
    else if text_eq name (codes "help")
    then some (copied_help s)
    else if text_eq name (codes "cd")
    then needs args (codes "Usage: cd <filename>\n") copied_cd s
    else if text_eq name (codes "run")
    then needs args (codes "Usage: rm <filename>\n") (λ a. ramfs_run env s.current_dir a) s
    else if not (length name == 0)
    then some (with_fs (say_line (codes "Unknown command: ") name s.system.fs) s)
    else some s

pub void_command : Env → Shell → Option Shell
unfolding run_copy copied_split
void_command env s =
    let (name, args, cmd) = copied_split s.cmd_buffer in
    run_copy env name args (record s { cmd_buffer = cmd })
