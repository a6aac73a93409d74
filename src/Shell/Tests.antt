-- ===== src/Shell/Tests.antt =====
-- The theorems on the command line of ShompOS/src/kernel/kernel.c at concrete states.
use operating_system.Base.{
  ℕ, ◌≡◌, refl, sym, true, false, List, [], ◌∷◌, ◌++◌, some, codes, arith, replicate, length,
}
use operating_system.Ramfs.Descriptor.Tests.{fs}
use mathlib.Core.Path.{subst}
use operating_system.Ramfs.{◌>>=◌}
use operating_system.Ramfs.Descriptor.{entry_of, ramfs_write}
use operating_system.Shell.{Env, Shell, text_of, split_command}
use operating_system.Shell.Parse.{parse_char, parse_loop, parse_command, arguments}
use operating_system.Shell.Parse.Arguments.{words_from, parse_command-words}
use operating_system.Shell.Words.{before_space, after_space, split_command-line}
use operating_system.Shell.Keyboard.{
  Ports, scan_code, modifier, echo, character, keyboard_map, keyboard_map_shift,
  handle_keyboard_interrupt,
}
use operating_system.Shell.Keyboard.Kept.{Each}
use operating_system.Shell.Keyboard.Command.{Done, handle_keyboard_interrupt-Edited}
use operating_system.Shell.Keyboard.Line.{
  erase, typed, stored, Settles, key_of, plain_key, key_after, IsLine, Edited, return_key,
  handle_keyboard_interrupt-returns,
}

abbrev shell : List ℕ → ℕ → Shell
shell buffer pos = record {
  system = record {
    fs = fs;
    kernel = record {
      proc_table = [];
      active_pid = 1;
      next_pid = 2;
      stack = λ _. 0;
      heap = fs.heap;
    };
  };
  keys = record { caps = true; alt = false; ctrl = false; shift = false };
  cmd_buffer = buffer;
  cmd_pos = pos;
  current_dir = 0xB000;
  system_root = 0xB000;
}

abbrev env : Env
env = record {
  symbols = record { switch_process_from_queue = 0x100200; kill_process = 0x100100 };
  empty = 0x100300;
  newline = 0x100400;
  local = 0x9F00;
  fuel = 100;
}

-- The line `ls` was typed.
abbrev typing : Shell
typing = shell (codes "ls" ++ replicate 62 0) 2

typing-IsLine : IsLine typing
typing-IsLine = record { room = omega arith; array = refl; chars = refl }

maps_length : (length keyboard_map ≡ 128) × (length keyboard_map_shift ≡ 128)
maps_length = (refl, refl)

-- The key A gives A with caps lock, and a with the shift key too; 1 gives 1.
characters :
    (character typing.keys 30 ≡ 65)
    × (character (record (typing.keys) { shift = true }) 30 ≡ 97)
    × (character typing.keys 2 ≡ 49)
unfolding character
characters = (refl, refl, refl)

-- A released key, and the key of backspace.
abbrev key_a : Ports
key_a = record { status = 1; keycode = 30; second = 0 }

abbrev key_back : Ports
key_back = record { status = 0x1D; keycode = 0x0E; second = 0 }

types : key_of typing.keys (scan_code key_a) ≡ typed 65
unfolding key_of key_after plain_key modifier character
types = refl

-- Neither standard stream is open, so that nothing is written.
closed : echo env env.local (stored env 65 typing) ≡ some (stored env 65 typing)
unfolding echo ◌>>=◌ ramfs_write entry_of
closed = refl

erases : key_of typing.keys (scan_code key_back) ≡ erase
unfolding key_of key_after plain_key modifier
erases = refl

abbrev key_enter : Ports
key_enter = record { status = 1; keycode = 0x1C; second = 0 }

enters : key_of typing.keys (scan_code key_enter) ≡ return_key
unfolding key_of key_after plain_key modifier
enters = refl

handle_keyboard_interrupt-Edited_example :
    Each
      (λ t.
        Edited (key_of typing.keys (scan_code key_enter)) typing t
        × Done env (key_of typing.keys (scan_code key_enter)) typing t)
      (handle_keyboard_interrupt env key_enter typing)
handle_keyboard_interrupt-Edited_example =
    handle_keyboard_interrupt-Edited env typing typing-IsLine key_enter refl

handle_keyboard_interrupt-returns_example :
    (t : Shell) × (handle_keyboard_interrupt env key_a typing ≡ some t)
    × Edited (key_of typing.keys (scan_code key_a)) typing t
handle_keyboard_interrupt-returns_example =
    handle_keyboard_interrupt-returns env typing typing-IsLine key_a refl
      (subst (Settles env typing) (sym types) (Settles.echoed 65 _ closed))

split_command-line_example :
    ((split_command (codes "cat notes" ++ 0 ∷ codes "xx")).0 ≡ before_space (codes "cat notes"))
    × ((split_command (codes "cat notes" ++ 0 ∷ codes "xx")).1 ≡ after_space (codes "cat notes"))
split_command-line_example = split_command-line (codes "cat notes") (codes "xx") refl

after_cat : after_space (codes "cat notes") ≡ some (codes "notes")
unfolding after_space
after_cat = refl

parse_command-words_example :
    arguments (parse_command (codes "cat  a b" ++ 0 ∷ codes "xx"))
    ≡ words_from [] (codes "cat  a b")
parse_command-words_example = parse_command-words (codes "cat  a b") (codes "xx") refl refl

three_words : words_from [] (codes "cat  a b") ≡ codes "cat" ∷ codes "a" ∷ codes "b" ∷ []
unfolding words_from
three_words = refl

-- A quoted word at the end of the line gives an empty argument too.
quoted :
    arguments (parse_command (codes "cat " ++ 34 ∷ (codes "a b" ++ 34 ∷ 0 ∷ codes "xx")))
    ≡ codes "cat" ∷ codes "a b" ∷ codes "" ∷ []
unfolding parse_command parse_loop parse_char text_of
quoted = refl
