-- ===== src/Terminal/Number.antt =====
-- The decimal numbers that `terminal_writeint` of ShompOS/src/kernel/kernel.c prints.
use operating_system.Base.{ℕ, ◌+◌, ◌*◌, ◌≤◌, ◌<◌, [], ◌∷◌, Text, ◌-◌}
use operating_system.Terminal.{Terminal}

-- The number a text spells, after the digits of `high`.
abbrev pub value_from : ℕ → Text → ℕ
value_from high [] = high
value_from high (c ∷ cs) = value_from (high * 10 + (c - 48)) cs

abbrev pub AllDigits : Text → Type 0
AllDigits [] = Unit
AllDigits (c ∷ cs) = (48 ≤ c) × (c < 58) × AllDigits cs
