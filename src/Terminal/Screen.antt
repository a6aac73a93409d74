-- ===== src/Terminal/Screen.antt =====
-- The writes of the terminal functions of ShompOS/src/kernel/kernel.c stay on the screen.
use operating_system.Base.{
  ℕ, zero, suc, ◌+◌, ◌*◌, ◌≤◌, ◌<◌, ◌≡◌, inl, inr, refl, ◌∙◌, [], ◌∷◌, ◌&&◌, Text, arith, ltb, leb,
  ◌==◌, if◌then◌else◌, Bool-cases,
}
use operating_system.Terminal.{
  Terminal, vga_entry, clear_row, clear_rows, terminal_clear, advance_row, putchar, write,
}

-- The size of the screen in cells.
abbrev pub cells : ℕ
cells = 2000

abbrev pub OnScreen : Terminal → Type 0
OnScreen t = (t.terminal_row < 25) × (t.terminal_column < 80)

-- What an operation keeps: the cursor on the screen, the colour, and the memory behind the screen.
abbrev pub Confined : Terminal → Terminal → Type 0
Confined t t' =
    OnScreen t'
    × (t'.terminal_color ≡ t.terminal_color)
    × ((a : ℕ) → cells ≤ a → t'.terminal_buffer a ≡ t.terminal_buffer a)

-- The buffer after the cells from `first` to `last` are blanked.
abbrev pub blanked : ℕ → ℕ → Terminal → ℕ → ℕ
blanked first last t a =
    if leb first a && ltb a last then vga_entry 32 t.terminal_color else t.terminal_buffer a

clear_row-blanked :
    (n x y : ℕ) (t : Terminal)
    → (clear_row n x y t).terminal_color ≡ t.terminal_color
      × ((a : ℕ)
          → (clear_row n x y t).terminal_buffer a ≡ blanked (y * 80 + x) (y * 80 + x + n) t a)
unfolding clear_row
clear_row-blanked zero x y t = (refl, λ a. ground arith)
clear_row-blanked (suc n) x y t =
    let (color, cell) = clear_row-blanked n (x + 1) y _ in (color, λ a. ground (arith, cell a))

clear_rows-blanked :
    (n y : ℕ) (t : Terminal)
    → (clear_rows n y t).terminal_color ≡ t.terminal_color
      × ((a : ℕ) → (clear_rows n y t).terminal_buffer a ≡ blanked (y * 80) ((y + n) * 80) t a)
unfolding clear_rows
clear_rows-blanked zero y t = (refl, λ a. ground arith)
clear_rows-blanked (suc n) y t =
    let (color, cell) = clear_row-blanked 80 0 y t in
    let (colors, cells) = clear_rows-blanked n (y + 1) (clear_row 80 0 y t) in
    (colors ∙ color, λ a. ground (arith, cells a, cell a, color))

-- `terminal_clear` blanks every cell of the screen in the current colour, writes nowhere else, and
-- puts the cursor in the corner.
terminal_clear-blanked :
    (t : Terminal) (a : ℕ)
    → ((terminal_clear t).terminal_buffer a ≡ blanked 0 cells t a)
      × ((terminal_clear t).terminal_color ≡ t.terminal_color)
      × ((terminal_clear t).terminal_row ≡ 0)
      × ((terminal_clear t).terminal_column ≡ 0)
unfolding terminal_clear
terminal_clear-blanked t a =
    let (color, buffer) = clear_rows-blanked 25 0 t in (buffer a, color, refl, refl)

clear-Confined : (t : Terminal) → Confined t (terminal_clear t)
clear-Confined t =
    let (_, color, row, column) = terminal_clear-blanked t 0 in
    (
      (omega (arith, row), omega (arith, column)),
      color,
      λ a out. let (cell, _, _, _) = terminal_clear-blanked t a in ground (arith, cell),
    )

advance_row-Confined : (t : Terminal) → OnScreen t → Confined t (advance_row t)
unfolding advance_row
advance_row-Confined t (row, column) = elim (Bool-cases (t.terminal_row + 1 == 25)) [
  | inl last ↦ rw last (
      let ((r, c), color, out) = clear-Confined (record t { terminal_row = 0 }) in
      ((r, omega arith), color, out))
  | inr more ↦ rw more ((ground arith, omega arith), refl, λ a out. refl)
]

putchar-Confined : (c : ℕ) (t : Terminal) → OnScreen t → Confined t (putchar c t)
unfolding putchar
putchar-Confined c t (row, column) = elim (Bool-cases (c == 10)) [
  | inl newline ↦ rw newline (advance_row-Confined t (row, column))
  | inr other ↦ rw other (elim (Bool-cases (t.terminal_column + 1 == 80)) [
    | inr more ↦ rw more ((row, ground arith), refl, λ a out. ground arith)
    | inl wraps ↦ rw wraps (elim (Bool-cases (t.terminal_row + 1 == 25)) [
      | inr more ↦ rw more ((ground arith, omega arith), refl, λ a out. ground arith)
      | inl last ↦ rw last ((omega arith, omega arith), refl, λ a out. ground arith)
    ])
  ])
]

step-Confined :
    (c : ℕ) (t : Terminal)
    → OnScreen t
    → Confined t (if c == 10 then advance_row t else putchar c t)
step-Confined c t on = elim (Bool-cases (c == 10)) [
  | inl newline ↦ rw newline (advance_row-Confined t on)
  | inr other ↦ rw other (putchar-Confined c t on)
]

after :
    (t t' : Terminal) {u : Terminal} → Confined t t' → (OnScreen t' → Confined t' u) → Confined t u
after t t' (on, color, out) rest =
    let (on', color', out') = rest on in (on', color' ∙ color, λ a le. out' a le ∙ out a le)

-- From a cursor on the screen, a string of any bytes leaves the cursor on the screen, keeps the
-- colour, and changes no memory behind the screen's 2000 cells.
pub write-Confined : (text : Text) (t : Terminal) → OnScreen t → Confined t (write text t)
unfolding write
write-Confined [] t on = (on, refl, λ a out. refl)
write-Confined (c ∷ cs) t on = after t _ (step-Confined c t on) (write-Confined cs _)
