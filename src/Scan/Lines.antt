-- ===== src/Scan/Lines.antt =====
-- `strings.Split(content, "\n")`: the lines of a text.
use mathlib.Core.Option.{none, some}
use membrane_ai.Base.{ℕ, zero, suc, Option, List, [], ◌∷◌, Str, eqb, if◌then◌else◌}

-- A byte before the first line.
abbrev onto : ℕ → List Str → List Str
onto c [] = (c ∷ []) ∷ []
onto c (line ∷ lines) = (c ∷ line) ∷ lines

unfoldable pub split_lines : Str → List Str
split_lines [] = [] ∷ []
split_lines (c ∷ s) = let lines = split_lines s in if eqb c 10 then [] ∷ lines else onto c lines

-- `lines[i]`, where there is one.
abbrev pub line_at : List Str → ℕ → Option Str
line_at [] i = none
line_at (line ∷ lines) zero = some line
line_at (line ∷ lines) (suc i) = line_at lines i
