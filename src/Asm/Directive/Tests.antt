-- ===== src/Asm/Directive/Tests.antt =====
-- Runs of directives.
use riscy_os.Base.{
  ℕ, ◌+◌, ◌*◌, ◌%◌, ◌≤◌, ◌<◌, ◌≡◌, refl, true, false, none, some, List, [], ◌∷◌, ◌++◌, arith, ◌==◌,
  if◌then◌else◌, add32,
}
use riscy_os.Asm.Symbols.{SymTable}
use riscy_os.Asm.Lexer.{
  skip_spc, drop_chars, get_identifier, take_identifier, alpha_numeric, alphabetic, digit_value,
  num_loop, get_num, allow_error,
}
use riscy_os.Asm.Operators.{
  priority, get_operator, operator_at, single_operator, double_operator, symbolic_operator,
}
use riscy_os.Asm.Variable.{
  unary_at, operand_at, other_operand, number_operand, radix_at, get_variable,
}
use riscy_os.Asm.Expression.{
  evaluate, returned, eval_inner, operand_round, note_operand, settle, settle_with, reduce,
  after_reduce, check_error, apply_unary, go_on,
}
use riscy_os.Asm.Encode.{AsmContext}
use riscy_os.Asm.Label.{Label, LabelCounts}
use riscy_os.Asm.Passes.{
  PassResult, PassState, first_pass, max_passes, run_passes, IsSound, run_passes-IsSound,
}
use riscy_os.Asm.Directive.{LineState, is_active, after_evaluate, evaluate_at}
use riscy_os.Asm.Directive.Define.{assemble_define}
use riscy_os.Asm.Directive.Align.{do_align}
use riscy_os.Asm.Directive.Aligned.{do_align_correct}
use riscy_os.Asm.Directive.Texts.{text_dumps, assemble_define_text}
use riscy_os.Asm.Directive.Line.{start_if, flip_if, end_if, if_clauses}

abbrev empty_table : SymTable
empty_table = record { symbol_number = 0; table_flags = 1; lists = λ i. [] }

-- A line on the last pass.
abbrev on_line : List ℕ → AsmContext
on_line line = record {
  scope = record {
    symbol_table = empty_table;
    csr_table = empty_table;
    operator_table = empty_table;
    labels_before = [];
    labels_after = [];
    own_label_is_local = false;
    assembly_pointer = 0;
    def_increment = 0;
    assembly_pointer_defined = true;
  };
  register_table = empty_table;
  line = line;
  token = 0xF0000000;
  pass_count = 3;
  last_pass = true;
  if_active = true;
  dump_code = true;
}

abbrev state_at : (assembly_pointer position : ℕ) → LineState
state_at pointer position = record {
  assembly = record {
    assembly_pointer = pointer;
    position = position;
    undefined_count = 0;
    div_zero = false;
    size_records = record { sizes = []; current = 0; size_changed_count = 0 };
    dumps = [];
  };
  label = none;
  counts = record { defined_count = 0; redefined_count = 0 };
  assembly_pointer_defined = true;
  data_pointer = 0;
  entry_address = none;
  if_stack = [];
}

-- The digit 8
abbrev eight : List ℕ
eight = 56 ∷ []

eight_read : evaluate_at (on_line eight) 0 (state_at 4097 0) ≡ (0, 8, state_at 4097 1)
unfolding evaluate_at after_evaluate evaluate returned eval_inner operand_round note_operand settle
    settle_with reduce after_reduce check_error apply_unary go_on allow_error get_variable unary_at
    operand_at other_operand number_operand radix_at get_num num_loop digit_value skip_spc
    drop_chars get_identifier take_identifier alpha_numeric alphabetic get_operator operator_at
    single_operator double_operator symbolic_operator priority
eight_read = refl

do_align_correct_example :
    ((do_align (on_line eight) (state_at 4097 0)).1.assembly.assembly_pointer % 8 ≡ 0)
    × (4097 ≤ (do_align (on_line eight) (state_at 4097 0)).1.assembly.assembly_pointer)
    × ((do_align (on_line eight) (state_at 4097 0)).1.assembly.assembly_pointer < 4097 + 8)
do_align_correct_example =
    do_align_correct (on_line eight) (state_at 4097 0) (state_at 4097 1) 8 eight_read refl refl
      (omega arith) (omega arith) (omega arith)

-- Two letters in quotes
abbrev quoted : List ℕ
quoted = 34 ∷ 79 ∷ 75 ∷ 34 ∷ []

assemble_define_text_example :
    (last : LineState) × (assemble_define (on_line quoted) 1 (state_at 4096 0) ≡ some (0, last))
    × (last.assembly.dumps ≡ [] ++ text_dumps 1 (add32 4096 0) (79 ∷ 75 ∷ []))
    × (last.assembly.assembly_pointer ≡ add32 4096 (1 * 2))
unfolding drop_chars skip_spc
assemble_define_text_example =
    assemble_define_text (on_line quoted) 1 34 (79 ∷ 75 ∷ []) [] (state_at 4096 0) refl refl
      (refl, refl, (refl, refl, tt)) refl refl refl refl

if_clauses_example :
    ((start_if (on_line eight) (state_at 4097 0)).0 ≡ 0)
    × (is_active (start_if (on_line eight) (state_at 4097 0)).1.if_stack ≡ true)
    × (is_active (flip_if (start_if (on_line eight) (state_at 4097 0)).1).1.if_stack ≡ true)
    × ((end_if (start_if (on_line eight) (state_at 4097 0)).1).1.if_stack ≡ [])
    × ((end_if (flip_if (start_if (on_line eight) (state_at 4097 0)).1).1).1.if_stack ≡ [])
if_clauses_example =
    if_clauses (on_line eight) (state_at 4097 0) (state_at 4097 1) 8 eight_read (omega arith)
      (omega arith)

abbrev old_label : Label
old_label = record { value = 64; flags = 256 + 2 }

abbrev no_counts : LabelCounts
no_counts = record { defined_count = 0; redefined_count = 0 }

-- The third pass changes nothing.
abbrev settling : ℕ → PassResult
settling n = record {
  pass_errors = 0;
  defined_count = if n == 0 then 2 else 0;
  redefined_count = if n == 1 then 1 else 0;
  undefined_count = 0;
  div_zero_this_pass = false;
  if_open = false;
}

run_passes-IsSound_example :
    (last : PassState) × (run_passes settling 22 first_pass ≡ some last)
    × (last.finished ≡ true)
    × (last.pass_count ≤ max_passes + 1)
    × IsSound settling last
run_passes-IsSound_example = run_passes-IsSound settling
