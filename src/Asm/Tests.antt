-- ===== src/Asm/Tests.antt =====
-- Symbols and numbers of a small program.
use riscy_os.Base.{
  ℕ, ◌+◌, ◌%◌, ◌≡◌, refl, ap, ◌≢◌, Bool, true, none, some, List, [], ◌∷◌, ◌++◌, arith, length,
  u32_mod,
}
use riscy_os.Asm.Symbols.{
  SymName, SymTable, sym_string_copy, sym_find_label, sym_define_label, copy_chars, add_char,
}
use riscy_os.Asm.Symbols.Define.{value_of, sym_define_label-sym_find_label, sym_define_label-other}
use riscy_os.Asm.Lexer.{get_num, digit_value}
use riscy_os.Asm.Lexer.Number.{render, number, blanks, get_num-render}

abbrev no_symbols : SymTable
no_symbols = record { symbol_number = 0; table_flags = 1; lists = λ i. [] }

sym_define_label-sym_find_label_example :
    value_of (sym_find_label (97 ∷ []) (sym_define_label (97 ∷ []) 64 0 no_symbols).1) ≡ some 64
sym_define_label-sym_find_label_example =
    sym_define_label-sym_find_label (97 ∷ []) 64 0 no_symbols (omega arith)

other_name : sym_string_copy (98 ∷ []) 1 ≢ sym_string_copy (97 ∷ []) 1
unfolding sym_string_copy copy_chars add_char
other_name e = (let h = ap (λ (n : SymName). n.hash) e in absurd (omega (arith, h)))

sym_define_label-other_example :
    sym_find_label (98 ∷ []) (sym_define_label (97 ∷ []) 64 0 no_symbols).1
    ≡ sym_find_label (98 ∷ []) no_symbols
sym_define_label-other_example =
    sym_define_label-other (97 ∷ []) (98 ∷ []) 64 0 no_symbols other_name

-- Two blanks, the digits 1 and F in radix 16, and a comma.
abbrev digits : List (Bool × ℕ)
digits = (true, 15) ∷ []

comma : digit_value 16 44 ≡ none
unfolding digit_value
comma = refl

get_num-render_example :
    get_num (blanks 2 ++ (render ((true, 1) ∷ digits) ++ 44 ∷ [])) 16
    ≡ (true, 2 + length ((true, 1) ∷ digits), number 16 0 ((true, 1) ∷ digits) % u32_mod)
get_num-render_example =
    get_num-render 16 2 (true, 1) digits (44 ∷ []) (omega arith) (omega arith, (omega arith, tt))
      (omega arith, comma)
