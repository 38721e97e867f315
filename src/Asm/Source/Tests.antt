-- ===== src/Asm/Source/Tests.antt =====
-- A file of three lines, the second one empty.
use riscy_os.Base.{ℕ, suc, ◌≡◌, refl, false, some, List, [], ◌∷◌, ◌++◌, length, take}
use mathlib.Core.List.{map}
use riscy_os.Asm.Source.{read_lines}
use riscy_os.Asm.Source.Lines.{Eol, lf, crlf, spell, read_lines-spell}

abbrev three_lines : List (List ℕ × Eol)
three_lines = (97 ∷ 98 ∷ 99 ∷ [], crlf) ∷ ([], lf) ∷ (100 ∷ [], lf) ∷ []

read_lines-spell_example :
    read_lines
      (suc (suc (length three_lines)))
      2
      (record { rest = spell three_lines; at_end = false })
    ≡ some (map (λ l. take 2 l.0) three_lines ++ ([] ∷ []))
read_lines-spell_example =
    read_lines-spell 2 three_lines ((refl, (refl, (refl, tt))), (tt, ((refl, tt), tt)))
