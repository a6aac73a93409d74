-- ===== src/Shell/Parse.antt =====
-- `parse_command` and `execute_command` of ShompOS/src/kernel/kernel.c, which nothing calls.
--
-- An argument is a pointer into the buffer, here an offset. `argv` has no bound: the source gives it
-- 16 places.
pub mod Arguments
use operating_system.Base.{
  ℕ, zero, suc, ◌+◌, Bool, true, false, not, ◌&&◌, List, [], ◌∷◌, ◌++◌, Option, none, some, Text,
  codes, map, ◌==◌, if◌then◌else◌, set, drop, length,
}
use operating_system.Ramfs.{text_eq}
use operating_system.Ramfs.Programs.{
  ramfs_pwd, ramfs_mkdir, ramfs_rm, ramfs_ls, ramfs_cat, ramfs_touch,
}
use operating_system.Shell.{Env, Shell, on_fs, tell, text_of, clear_screen}

pub record Parse : Type 0 where
  pub buffer : List ℕ
  pub token : ℕ
  pub in_quotes : Bool
  pub was_space : Bool
  pub argv : List ℕ

abbrev pub push : Bool → Parse → Parse
push wanted p = if wanted then record p { argv = p.argv ++ p.token ∷ [] } else p

abbrev pub cut : ℕ → Parse → Parse
cut i p = record p { buffer = set p.buffer i 0; token = i + 1 }

-- The character at `i`.
unfoldable pub parse_char : ℕ → ℕ → Parse → Parse
parse_char i c p =
    if c == 34
    then (let q = record p { in_quotes = not p.in_quotes } in
        cut i (push (not q.in_quotes && not (q.token == i)) q))
    else if (c == 32) && not p.in_quotes
    then record (cut i (push (not p.was_space) p)) { was_space = true }
    else if p.was_space
    then record p { token = i; was_space = false }
    else p

-- The loop reads each character before it changes it.
unfoldable pub parse_loop : ℕ → List ℕ → Parse → Parse
parse_loop i [] p = p
parse_loop i (c ∷ cs) p =
    let rest = parse_loop (i + 1) cs (parse_char i c p) in if c == 0 then p else rest

abbrev pub parse_start : List ℕ → Parse
parse_start cmd = record { buffer = cmd; token = 0; in_quotes = false; was_space = true; argv = [] }

-- The last token, unless it stands where the string now ends.
abbrev pub parse_end : Parse → Parse
parse_end p = push (not p.was_space && not (p.token == length (text_of p.buffer))) p

unfoldable pub parse_command : List ℕ → Parse
unfolding parse_loop
parse_command cmd = parse_end (parse_loop 0 cmd (parse_start cmd))

abbrev pub arguments : Parse → List Text
arguments p = map (λ offset. text_of (drop offset p.buffer)) p.argv

pub short_help : Shell → Shell
short_help s = tell (codes "  rm <file> - Remove file\n") (
    tell (codes "  mkdir <dir> - Create directory\n") (
      tell (codes "  touch <file> - Create empty file\n") (
        tell (codes "  cat <file> - Display file contents\n") (
          tell (codes "  pwd - Print working directory\n") (
            tell (codes "  ls - List directory contents\n") (
              tell (codes "  clear - Clear the screen\n")
                (tell (codes "Available commands:\n") s)))))))

-- `if (argc < 2) { terminal_writestring(usage); }`
pub with_second : List Text → Text → (Text → Shell → Option Shell) → Shell → Option Shell
with_second [] usage f s = some (tell usage s)
with_second (a ∷ _) usage f s = f a s

pub run_arguments : Env → List Text → Shell → Option Shell
run_arguments env [] s = some s
run_arguments env (name ∷ args) s =
    if text_eq name (codes "clear")
    then some (clear_screen s)
    else if text_eq name (codes "ls")
    then on_fs (ramfs_ls env.fuel s.current_dir) s
    else if text_eq name (codes "pwd")
    then on_fs (ramfs_pwd env.fuel s.current_dir) s
    else if text_eq name (codes "cat")
    then with_second args (codes "Usage: cat <filename>\n")
        (λ a. on_fs (ramfs_cat env.fuel s.current_dir a)) s
    else if text_eq name (codes "touch")
    then with_second args (codes "Usage: touch <filename>\n")
        (λ a. on_fs (ramfs_touch env.empty s.current_dir a)) s
    else if text_eq name (codes "mkdir")
    then with_second args (codes "Usage: mkdir <dirname>\n")
        (λ a. on_fs (ramfs_mkdir s.current_dir a)) s
    else if text_eq name (codes "rm")
    then with_second args (codes "Usage: rm <filename>\n") (λ a. on_fs (ramfs_rm s.current_dir a)) s
    else if text_eq name (codes "help")
    then some (short_help s)
    else some (
        tell (codes "\nType 'help' for available commands\n")
          (tell name (tell (codes "Unknown command: ") s)))

pub execute_command : Env → Shell → Option Shell
unfolding parse_command run_arguments
execute_command env s =
    let p = parse_command s.cmd_buffer in
    run_arguments env (arguments p) (record s { cmd_buffer = p.buffer })
