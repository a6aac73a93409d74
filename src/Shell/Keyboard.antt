-- ===== src/Shell/Keyboard.antt =====
-- The keyboard's interrupt in ShompOS/src/kernel/kernel.c, with the tables of
-- ShompOS/inc/IO/keyboard_map.h and ShompOS/inc/IO/keyboard_map_shift.h.
--
-- The acknowledgement that the handler sends to the interrupt controller first is left out.
pub mod Kept
pub mod Line
pub mod Command
use operating_system.Base.{
  ℕ, suc, ◌+◌, ◌-◌, ◌*◌, ◌%◌, Bool, true, false, not, ◌&&◌, ◌||◌, List, [], ◌∷◌, ◌++◌, Option, none,
  some, Text, codes, ltb, leb, ◌==◌, if◌then◌else◌, set, get_or, length, replicate,
}
use operating_system.Base.Int.{ℤ, pos}
use operating_system.Libc.{store}
use operating_system.Terminal.{Terminal, vga_width, vga_entry, putchar, putentryat}
use operating_system.Ramfs.{Fs, ◌>>=◌}
use operating_system.Ramfs.Descriptor.{ramfs_write}
use operating_system.Shell.{Env, KeyState, Shell, cmd_max_len, with_fs, on_fs, tell, handle_command}

abbrev pub keyboard_map : List ℕ
keyboard_map =
    codes "  12345678"
    ++ codes "90-=  qwer"
    ++ codes "tyuiop[]\n "
    ++ codes "asdfghjkl;"
    ++ codes " `  zxcvbn"
    ++ codes "m,./ *    "
    ++ replicate 10 32
    ++ codes " 789-456 1"
    ++ codes "230."
    ++ replicate 44 32

abbrev pub keyboard_map_shift : List ℕ
keyboard_map_shift =
    codes "  !@#$%^&*"
    ++ codes "()_+  QWER"
    ++ codes "TYUIOP{}\n "
    ++ codes "ASDFGHJKL:"
    ++ codes " ~  ZXCVBN"
    ++ codes "M<>? *    "
    ++ replicate 10 32
    ++ codes " 789-456 1"
    ++ codes "230."
    ++ replicate 44 32

-- What the ports give: the status, and the first and second byte of the data port.
pub record Ports : Type 0 where
  pub status : ℕ
  pub keycode : ℕ
  pub second : ℕ

-- The scan code, behind a prefix 0xE0.
abbrev pub scan_code : Ports → ℕ
scan_code p = if p.keycode == 0xE0 then p.second else p.keycode

-- `special_key_state` after the code of a modifier key, of which bit 7 says that it was let go.
unfoldable pub modifier : ℕ → KeyState → Option KeyState
modifier code keys =
    if (code == 0x2A) || (code == 0xAA) || (code == 0x36) || (code == 0xB6)
    then some (record keys { shift = ltb code 128 })
    else if (code == 0x38) || (code == 0xB8)
    then some (record keys { alt = ltb code 128 })
    else if (code == 0x1D) || (code == 0x9D)
    then some (record keys { ctrl = ltb code 128 })
    else if code == 0x3A
    then some (record keys { caps = not keys.caps })
    else none

abbrev pub is_lower : ℕ → Bool
is_lower c = leb 97 c && leb c 122

abbrev pub differ : Bool → Bool → Bool
differ a b = if a then not b else b

-- The character of a key.
unfoldable pub character : KeyState → ℕ → ℕ
character keys code =
    let c = get_or keyboard_map code 0 in
    if is_lower c
    then (if differ keys.shift keys.caps then c - 32 else c)
    else if keys.shift
    then get_or keyboard_map_shift code 0
    else c

abbrev pub printable : ℕ → Bool
printable c = leb 32 c && leb c 126

-- `ramfs_write` of one character at `buf` to the standard input and output.
unfoldable pub echo : Env → ℕ → Shell → Option Shell
echo env buf s = do
  (_, fs1) ← ramfs_write env.fuel (pos 0) buf 1 s.system.fs
  (_, fs2) ← ramfs_write env.fuel (pos 1) buf 1 fs1
  some (with_fs fs2 s)

abbrev pub prompt : Text
prompt = codes "shompOS> "

pub enter : Env → Shell → Option Shell
enter env s = do
  s1 ← echo env env.newline (record s { cmd_buffer = set s.cmd_buffer s.cmd_pos 0 })
  let fs = s1.system.fs
  let s2 = with_fs (record fs { terminal = putchar 10 fs.terminal }) s1
  s3 ← if not (s2.current_dir == 0) && ltb 0 s2.cmd_pos then handle_command env s2 else some s2
  some (tell prompt (record s3 { cmd_pos = 0 }))

-- The cell before the cursor is cleared, as far as the prompt; the source writes it twice.
abbrev pub rub_out : Terminal → Terminal
rub_out t =
    if ltb (length prompt) t.terminal_column
    then (let t1 = record t { terminal_column = t.terminal_column - 1 } in
        let t2 = putentryat 32 t1.terminal_color t1.terminal_column t1.terminal_row t1 in
        record t2 {
          terminal_buffer = λ a.
              if a == t2.terminal_row * vga_width + t2.terminal_column
              then vga_entry 32 t2.terminal_color
              else t2.terminal_buffer a;
        })
    else t

pub backspace : Shell → Shell
backspace s =
    let fs = s.system.fs in
    if ltb 0 s.cmd_pos
    then with_fs (record fs { terminal = rub_out fs.terminal })
        (record s { cmd_pos = s.cmd_pos - 1 })
    else s

-- The character goes to the buffer, and from the handler's variable to the files.
pub type_key : Env → ℕ → Shell → Option Shell
type_key env code s =
    let c = character s.keys code in
    let fs = s.system.fs in
    if ltb s.cmd_pos (cmd_max_len - 1)
    then (if printable c
        then echo env env.local (
            with_fs (record fs { memory = store fs.memory env.local c })
              (record s { cmd_buffer = set s.cmd_buffer s.cmd_pos c; cmd_pos = s.cmd_pos + 1 }))
        else some s)
    else some s

pub press : Env → ℕ → Shell → Option Shell
press env code s =
    if ltb 127 code
    then some s
    else if get_or keyboard_map code 0 == 10
    then enter env s
    else if code == 0x0E
    then some (backspace s)
    else type_key env code s

pub handle_keyboard_interrupt : Env → Ports → Shell → Option Shell
handle_keyboard_interrupt env ports s =
    if ports.status % 2 == 0 then some s else elim (modifier (scan_code ports) s.keys) [
      | some keys ↦ some (record s { keys = keys })
      | none ↦ press env (scan_code ports) s
    ]
