-- ===== src/Shell/Parse/Arguments.antt =====
-- The arguments that `parse_command` of ShompOS/src/kernel/kernel.c finds in a line without quotes.
use operating_system.Base.{
  ℕ, suc, ◌+◌, ◌≡◌, ◌≢◌, inl, inr, refl, ap, ◌∙◌, sym, Bool, true, false, List, [], ◌∷◌, ◌++◌, Text,
  map, arith, ◌==◌, ==_iff, if◌then◌else◌, Bool-cases, ◌∉◌, has-append, set, drop, length,
  length-append,
}
use mathlib.Core.Path.{subst}
use mathlib.Core.List.{append_assoc, append-nil}
use operating_system.Shell.{text_of}
use operating_system.Shell.Words.{text_of-end}
use operating_system.Shell.Parse.{
  Parse, parse_char, parse_loop, parse_end, parse_command, arguments,
}

abbrev pub is_nil : Text → Bool
is_nil [] = true
is_nil (_ ∷ _) = false

-- The words of a line, after the part `w` of one: the runs of characters between spaces.
unfoldable pub words_from : Text → Text → List Text
words_from w [] = if is_nil w then [] else w ∷ []
words_from w (c ∷ cs) =
    if c == 32
    then (if is_nil w then words_from [] cs else w ∷ words_from [] cs)
    else words_from (w ++ c ∷ []) cs

-- A line with a 0 for each space.
abbrev pub blank : Text → Text
blank [] = []
blank (c ∷ cs) = (if c == 32 then 0 else c) ∷ blank cs

map-append : (f : ℕ → Text) (xs ys : List ℕ) → map f (xs ++ ys) ≡ map f xs ++ map f ys
map-append f [] ys = refl
map-append f (x ∷ xs) ys = ap (λ l. f x ∷ l) (map-append f xs ys)

set-at : (xs ys : List ℕ) (c v : ℕ) → set (xs ++ c ∷ ys) (length xs) v ≡ xs ++ v ∷ ys
set-at [] ys c v = refl
set-at (x ∷ xs) ys c v = ap (λ l. x ∷ l) (set-at xs ys c v)

drop-append : (xs ys : List ℕ) → drop (length xs) (xs ++ ys) ≡ ys
drop-append [] ys = refl
drop-append (x ∷ xs) ys = drop-append xs ys

-- The first 0 of a buffer does not stand where another character does.
text_of-inside : (xs ys : List ℕ) (c : ℕ) → c ≢ 0 → length xs ≢ length (text_of (xs ++ c ∷ ys))
unfolding text_of
text_of-inside [] ys c ne e =
    let some_char : (c == 0) ≡ false = ground arith in cc (rw some_char at e)
text_of-inside (x ∷ xs) ys c ne e = elim (Bool-cases (x == 0)) [
  | inl end ↦ cc (rw end at e)
  | inr other ↦
      let e' : suc (length xs) ≡ suc (length (text_of (xs ++ c ∷ ys))) = rw other at e in
      text_of-inside xs ys c ne (omega (arith, e'))
]

-- The string at an offset of the buffer.
abbrev argument : List ℕ → ℕ → Text
argument buffer offset = text_of (drop offset buffer)

argument-word :
    (done w rest : List ℕ) → 0 ∉ w → argument (done ++ (w ++ 0 ∷ rest)) (length done) ≡ w
argument-word done w rest no_end =
    ap text_of (drop-append done (w ++ 0 ∷ rest)) ∙ text_of-end w rest no_end

abbrev state : List ℕ → ℕ → Bool → List ℕ → Parse
state buffer token was_space argv = record {
  buffer = buffer;
  token = token;
  in_quotes = false;
  was_space = was_space;
  argv = argv;
}

-- What the parse leaves: the buffer, and the arguments behind those that were there.
record Outcome (buffer argv : List ℕ) (found : List Text) (q : Parse) : Type 0 where
  same : q.buffer ≡ buffer
  args : map (argument buffer) q.argv ≡ map (argument buffer) argv ++ found

-- A word that ends is one argument more.
Outcome-push :
    {buffer argv : List ℕ} (token : ℕ) {w : Text} {found : List Text} {q : Parse}
    → argument buffer token ≡ w
    → Outcome buffer (argv ++ token ∷ []) found q
    → Outcome buffer argv (w ∷ found) q
Outcome-push {buffer} {argv} token {w} {found} at o = record {
  same = o.same;
  args =
      o.args
      ∙ ap (λ l. l ++ found) (map-append (argument buffer) argv (token ∷ []))
      ∙ append_assoc (map (argument buffer) argv) (argument buffer token ∷ []) found
      ∙ ap (λ t. map (argument buffer) argv ++ t ∷ found) at;
}

-- The rest of the parse, from the character at `i` on.
abbrev parsed : ℕ → List ℕ → Parse → Parse
parsed i cs p = parse_end (parse_loop i cs p)

-- A space behind a word becomes a 0.
shift : (done w ys : List ℕ) → (done ++ (w ++ 0 ∷ [])) ++ ys ≡ done ++ (w ++ 0 ∷ ys)
shift done w ys =
    append_assoc done (w ++ 0 ∷ []) ys ∙ ap (λ l. done ++ l) (append_assoc w (0 ∷ []) ys)

set-space :
    (done w ys : List ℕ) (c i : ℕ)
    → i ≡ length done + length w
    → set (done ++ (w ++ c ∷ ys)) i 0 ≡ (done ++ (w ++ 0 ∷ [])) ++ ys
set-space done w ys c i at =
    ap (λ l. set l i 0) (sym (append_assoc done w (c ∷ ys)))
    ∙ ap (λ n. set ((done ++ w) ++ c ∷ ys) n 0) (at ∙ sym (length-append done w))
    ∙ set-at (done ++ w) ys c 0
    ∙ append_assoc done w (0 ∷ ys)
    ∙ sym (shift done w ys)

abbrev Parses : List ℕ → Type 0
Parses cs =
    (done w rest argv : List ℕ) (token i : ℕ)
    → 32 ∉ w
    → 0 ∉ w
    → (is_nil w ≡ false → token ≡ length done)
    → i ≡ length done + length w
    → Outcome (done ++ (w ++ (blank cs ++ 0 ∷ rest))) argv (words_from w cs)
        (parsed i (cs ++ 0 ∷ rest) (state (done ++ (w ++ (cs ++ 0 ∷ rest))) token (is_nil w) argv))

Parses-end : Parses []
unfolding parse_loop words_from
Parses-end done [] rest argv token i ns ne begins at = record {
  same = refl;
  args = sym (append-nil _);
}
Parses-end done (x ∷ w) rest argv token i ns ne begins at =
    let here : token ≡ length done = begins refl in
    let other : (token == length (text_of (done ++ (x ∷ (w ++ 0 ∷ rest))))) ≡ false =
      ground (arith, text_of-inside done (w ++ 0 ∷ rest) x (ground arith)) in
    rw other (
      Outcome-push token
        (ap (argument (done ++ (x ∷ (w ++ 0 ∷ rest)))) here ∙ argument-word done (x ∷ w) rest ne)
        (record { same = refl; args = sym (append-nil _) }))

-- The state behind a space: the buffer has a 0, and the next word may begin.
Parses-behind :
    (cs done w rest argv : List ℕ) (i : ℕ)
    → Parses cs
    → i ≡ length done + length w
    → Outcome (done ++ (w ++ 0 ∷ (blank cs ++ 0 ∷ rest))) argv (words_from [] cs) (
        parsed
          (i + 1)
          (cs ++ 0 ∷ rest)
          (state (set (done ++ (w ++ 32 ∷ (cs ++ 0 ∷ rest))) i 0) (i + 1) true argv))
Parses-behind cs done w rest argv i ih at =
    subst
      (λ b. Outcome b argv (words_from [] cs) (
        parsed (i + 1) (cs ++ 0 ∷ rest)
          (state (set (done ++ (w ++ 32 ∷ (cs ++ 0 ∷ rest))) i 0) (i + 1) true argv)))
      (shift done w (blank cs ++ 0 ∷ rest))
      (subst
        (λ b.
          Outcome ((done ++ (w ++ 0 ∷ [])) ++ (blank cs ++ 0 ∷ rest)) argv (words_from [] cs)
            (parsed (i + 1) (cs ++ 0 ∷ rest) (state b (i + 1) true argv)))
        (sym (set-space done w (cs ++ 0 ∷ rest) 32 i at))
        (ih (done ++ (w ++ 0 ∷ [])) [] rest argv (i + 1) (i + 1) refl refl (λ e. cc)
          (omega (arith, at, length-append done (w ++ 0 ∷ []), length-append w (0 ∷ [])))))

Parses-space : (cs : List ℕ) → Parses cs → Parses (32 ∷ cs)
unfolding parse_loop parse_char words_from
Parses-space cs ih done [] rest argv token i ns ne begins at =
    Parses-behind cs done [] rest argv i ih at
Parses-space cs ih done (x ∷ w) rest argv token i ns ne begins at =
    let here : token ≡ length done = begins refl in
    let behind = blank cs ++ 0 ∷ rest in
    Outcome-push token
      (ap (argument (done ++ (x ∷ (w ++ 0 ∷ behind)))) here ∙ argument-word done (x ∷ w) behind ne)
      (Parses-behind cs done (x ∷ w) rest (argv ++ token ∷ []) i ih at)

Parses-char : (c : ℕ) (cs : List ℕ) → c ≢ 0 → c ≢ 34 → c ≢ 32 → Parses cs → Parses (c ∷ cs)
unfolding parse_loop parse_char words_from
Parses-char c cs nz nq nsp ih done [] rest argv token i ns ne begins at =
    let nonzero : (c == 0) ≡ false = ground arith in
    let plain : (c == 34) ≡ false = ground arith in
    let other : (c == 32) ≡ false = ground arith in
    rw (nonzero, plain, other)
      (ih done (c ∷ []) rest argv i (i + 1) (ground arith) (ground arith) (λ e. omega (arith, at))
        (omega (arith, at)))
Parses-char c cs nz nq nsp ih done (x ∷ w) rest argv token i ns ne begins at =
    let nonzero : (c == 0) ≡ false = ground arith in
    let plain : (c == 34) ≡ false = ground arith in
    let other : (c == 32) ≡ false = ground arith in
    let word = x ∷ (w ++ c ∷ []) in
    let joined : (ys : List ℕ) → x ∷ ((w ++ c ∷ []) ++ ys) ≡ x ∷ (w ++ c ∷ ys) =
      λ ys. ap (λ l. x ∷ l) (append_assoc w (c ∷ []) ys) in
    rw (nonzero, plain, other)
      (subst
        (λ b.
          Outcome (done ++ (x ∷ (w ++ c ∷ (blank cs ++ 0 ∷ rest)))) argv (words_from word cs)
            (parsed (i + 1) (cs ++ 0 ∷ rest) (state (done ++ b) token false argv)))
        (joined (cs ++ 0 ∷ rest))
        (subst
          (λ b. Outcome (done ++ b) argv (words_from word cs) (
            parsed (i + 1) (cs ++ 0 ∷ rest)
              (state (done ++ (word ++ (cs ++ 0 ∷ rest))) token false argv)))
          (joined (blank cs ++ 0 ∷ rest))
          (ih done word rest argv token (i + 1) (ground (arith, has-append 32 (x ∷ w) (c ∷ [])))
            (ground (arith, has-append 0 (x ∷ w) (c ∷ []))) (λ e. begins refl)
            (omega (arith, at, length-append w (c ∷ []))))))

Parses-all : (cs : List ℕ) → 0 ∉ cs → 34 ∉ cs → Parses cs
Parses-all [] no_end no_quote = Parses-end
Parses-all (c ∷ cs) no_end no_quote =
    let ih : Parses cs = Parses-all cs (ground arith) (ground arith) in
    elim (Bool-cases (c == 32)) [
      | inl space ↦ subst (λ x. Parses (x ∷ cs)) (sym ((==_iff c 32).0 space)) (Parses-space cs ih)
      | inr other ↦ Parses-char c cs (ground arith) (ground arith) (ground arith) ih
    ]

-- On a string without quotes the arguments that `parse_command` finds are the words of the line,
-- the longest runs of characters other than spaces, in their order, whatever is in the buffer
-- behind the end of the string.
pub parse_command-words :
    (line rest : Text)
    → 0 ∉ line
    → 34 ∉ line
    → arguments (parse_command (line ++ 0 ∷ rest)) ≡ words_from [] line
unfolding parse_command
parse_command-words line rest no_end no_quote =
    let o = Parses-all line no_end no_quote [] [] rest [] 0 0 refl refl (λ e. refl) refl in
    ap (λ b. map (argument b) (parse_command (line ++ 0 ∷ rest)).argv) o.same ∙ o.args
