-- ===== src/Asm/Expression/Tests.antt =====
-- The value of 1+2*(3-1).
use riscy_os.Base.{ℕ, ◌≤◌, ◌≡◌, refl, true, false, some, List, [], ◌∷◌, arith}
use riscy_os.Asm.Symbols.{SymTable}
use riscy_os.Asm.Lexer.{
  skip_spc, drop_chars, get_identifier, take_identifier, alpha_numeric, alphabetic, digit_value,
  num_loop, get_num,
}
use riscy_os.Asm.Operators.{
  plus, multiply, minus, end_op, priority, get_operator, operator_at, single_operator,
  double_operator, symbolic_operator,
}
use riscy_os.Asm.Evaluate.{operate}
use riscy_os.Asm.Variable.{
  EvalScope, keep, unary_at, operand_at, other_operand, number_operand, radix_at, get_variable,
}
use riscy_os.Asm.Expression.{EvalState, evaluate}
use riscy_os.Asm.Expression.Grammar.{
  Expr, leaf, paren, node, expr_value, Spells, operand, bracket, binary, OperatorAt,
}
use riscy_os.Asm.Expression.Correct.{evaluate-Spells}
use riscy_os.Asm.Expression.Total.{evaluate-Returns}

abbrev empty_table : SymTable
empty_table = record { symbol_number = 0; table_flags = 1; lists = λ i. [] }

abbrev small_scope : EvalScope
small_scope = record {
  symbol_table = empty_table;
  csr_table = empty_table;
  operator_table = empty_table;
  labels_before = [];
  labels_after = [];
  own_label_is_local = false;
  assembly_pointer = 4096;
  def_increment = 0;
  assembly_pointer_defined = true;
}

abbrev sum_line : List ℕ
sum_line = 49 ∷ 43 ∷ 50 ∷ 42 ∷ 40 ∷ 51 ∷ 45 ∷ 49 ∷ 41 ∷ []

abbrev sum_tree : Expr
sum_tree =
    node plus (leaf keep 1)
      (node multiply (leaf keep 2) (paren keep (node minus (leaf keep 3) (leaf keep 1))))

spelled : Spells small_scope sum_line sum_tree 0 9
unfolding get_variable unary_at operand_at other_operand number_operand radix_at get_num num_loop
    digit_value skip_spc drop_chars get_identifier take_identifier alpha_numeric alphabetic
    get_operator operator_at single_operator double_operator symbolic_operator priority
spelled =
    binary (operand {u = keep} {v = 1} {p = 0} {q = 1} refl) (1, refl, refl)
      (binary (operand {u = keep} {v = 2} {p = 2} {q = 3} refl) (1, refl, refl)
        (bracket {u = keep} {p = 4} {q = 5} refl
          (binary (operand {u = keep} {v = 3} {p = 5} {q = 6} refl) (1, refl, refl)
            (operand {u = keep} {v = 1} {p = 7} {q = 8} refl))
          (1, refl, refl)))

sum_end : OperatorAt small_scope sum_line end_op 9 9
unfolding get_operator operator_at single_operator priority get_identifier take_identifier
    alphabetic skip_spc drop_chars
sum_end = (0, refl, refl)

evaluate-Spells_example :
    evaluate small_scope sum_line 10 0
    ≡ some (
      0,
      expr_value sum_tree,
      record {
        pos = 9;
        stack = [];
        error = 0;
        first_error = 0;
        undefined_count = 0;
        div_zero = false;
      },
    )
unfolding priority operate expr_value
evaluate-Spells_example =
    evaluate-Spells small_scope sum_line 10 spelled sum_end (tt, (tt, (tt, tt, refl), refl), refl)
      (omega arith) (omega arith) (omega arith)

evaluate-Returns_example :
    (error value : ℕ) × (last : EvalState) × (evaluate small_scope sum_line 10 0
      ≡ some (error, value, last))
    × (0 ≤ last.pos)
evaluate-Returns_example = evaluate-Returns small_scope sum_line 10 0 (omega arith) (omega arith)
