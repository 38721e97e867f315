-- ===== src/Asm/Encode/Tests.antt =====
-- Some instructions at address 4096.
use riscy_os.Base.{ℕ, ◌+◌, ◌*◌, ◌≤◌, ◌≡◌, refl, ◌⊎◌, true, false, some, List, [], ◌∷◌, arith, add32}
use riscy_os.Asm.Symbols.{
  SymRecord, SymTable, sym_find_label, sym_find_record, sym_string_copy, copy_chars, add_char,
  find_in, same_name, same_chars,
}
use riscy_os.Asm.Lexer.{
  skip_spc, drop_chars, get_identifier, take_identifier, alpha_numeric, alphabetic, digit_value,
  num_loop, get_num, cmp_next_non_space, allow_error,
}
use riscy_os.Asm.Operators.{
  priority, get_operator, operator_at, single_operator, double_operator, symbolic_operator,
}
use riscy_os.Asm.Variable.{
  unary_at, operand_at, other_operand, number_operand, radix_at, get_variable,
}
use riscy_os.Asm.Expression.{
  evaluate, returned, eval_inner, operand_round, note_operand, settle, settle_with, reduce,
  after_reduce, check_error, apply_unary, go_on,
}
use riscy_os.Asm.Encode.{
  AsmContext, Cursor, parsed, get_thing, get_reg, need_reg, next_is, need, reg_comma,
  after_evaluate, evaluated, sym_bad_reg,
}
use riscy_os.Asm.Encode.Fields.{opcode_of, fits13, fits21}
use riscy_os.Asm.Encode.Decode.{opcode, rd, func3, rs1, rs2, b_imm, j_imm, i_imm}
use riscy_os.Asm.Encode.Formats.{b_type}
use riscy_os.Asm.Encode.Address.{load}
use riscy_os.Asm.Encode.Long.{long_li, long_words, SizeRecords, variable_item_size}
use riscy_os.Asm.Encode.Run.{write_reg, run_word, run_code, long_li-runs}
use riscy_os.Asm.Encode.Targets.{b_type-decodes}
use riscy_os.Asm.Encode.Global.{load-global}
use riscy_os.Asm.Encode.Sizes.{total, changing_passes, changing_passes-total, long_call-tail}
use riscy_os.Asm.Encode.Mnemonic.{Assembly, rv32i_mnemonic}
use riscy_os.Asm.Encode.Layout.{Lays, rv32i_mnemonic-Lays}

abbrev empty_table : SymTable
empty_table = record { symbol_number = 0; table_flags = 1; lists = λ i. [] }

-- A register called a and a digit.
abbrev a_register : (digit value : ℕ) → SymRecord
a_register digit v = record {
  label = sym_string_copy (97 ∷ digit ∷ []) 1;
  value = v;
  flags = 256;
  identifier = 0;
  elf_section = 0;
}

abbrev registers : SymTable
registers = record {
  symbol_number = 2;
  table_flags = 1;
  lists = λ i. a_register 48 10 ∷ a_register 49 11 ∷ [];
}

-- A line of a token, on the last pass.
abbrev at_4096 : (token : ℕ) → List ℕ → AsmContext
at_4096 token line = record {
  scope = record {
    symbol_table = empty_table;
    csr_table = empty_table;
    operator_table = empty_table;
    labels_before = [];
    labels_after = [];
    own_label_is_local = false;
    assembly_pointer = 4096;
    def_increment = 0;
    assembly_pointer_defined = true;
  };
  register_table = registers;
  line = line;
  token = token;
  pass_count = 12;
  last_pass = true;
  if_active = true;
  dump_code = true;
}

abbrev cursor : (position : ℕ) → Cursor
cursor p = record { position = p; prefix = 0; undefined_count = 0; div_zero = false }

-- beq a0,a1,4104
abbrev beq_line : AsmContext
beq_line = at_4096 0x01830000 (97 ∷ 48 ∷ 44 ∷ 97 ∷ 49 ∷ 44 ∷ 52 ∷ 49 ∷ 48 ∷ 52 ∷ [])

first_read : reg_comma beq_line (cursor 0) ≡ parsed 10 (cursor 3)
unfolding reg_comma need_reg need get_reg next_is get_thing cmp_next_non_space skip_spc drop_chars
    get_identifier take_identifier alpha_numeric alphabetic sym_find_label sym_find_record
    sym_string_copy copy_chars add_char find_in same_name same_chars
first_read = refl

second_read : reg_comma beq_line (cursor 3) ≡ parsed 11 (cursor 6)
unfolding reg_comma need_reg need get_reg next_is get_thing cmp_next_non_space skip_spc drop_chars
    get_identifier take_identifier alpha_numeric alphabetic sym_find_label sym_find_record
    sym_string_copy copy_chars add_char find_in same_name same_chars
second_read = refl

target_read : evaluated beq_line (cursor 6) ≡ parsed (0, 4104) (cursor 10)
unfolding evaluated after_evaluate evaluate returned eval_inner operand_round note_operand settle
    settle_with reduce after_reduce check_error apply_unary go_on allow_error get_variable unary_at
    operand_at other_operand number_operand radix_at get_num num_loop digit_value skip_spc
    drop_chars get_identifier take_identifier alpha_numeric alphabetic get_operator operator_at
    single_operator double_operator symbolic_operator priority
target_read = refl

b_type-decodes_example :
    (word : ℕ) × (b_type beq_line (cursor 0) ≡ parsed word (cursor 10))
    × (add32 4096 (b_imm word) ≡ 4104)
    × (opcode word ≡ opcode_of 0x01830000)
    × (func3 word ≡ 0)
    × (rs1 word ≡ 10)
    × (rs2 word ≡ 11)
unfolding fits13
b_type-decodes_example =
    b_type-decodes beq_line (cursor 0) (cursor 3) (cursor 6) (cursor 10) 10 11 4104 first_read
      second_read target_read (omega arith) (omega arith) (omega arith) (omega arith) refl refl

-- jal a0,4104 and lw a0,4104
abbrev jump_line : List ℕ
jump_line = 97 ∷ 48 ∷ 44 ∷ 52 ∷ 49 ∷ 48 ∷ 52 ∷ []

abbrev jal_line : AsmContext
jal_line = at_4096 0x01B10000 jump_line

abbrev lw_line : AsmContext
lw_line = at_4096 0x04058000 jump_line

jal_register : get_reg jal_line (cursor 0) ≡ parsed (some 10) (cursor 2)
unfolding reg_comma need_reg need get_reg next_is get_thing cmp_next_non_space skip_spc drop_chars
    get_identifier take_identifier alpha_numeric alphabetic sym_find_label sym_find_record
    sym_string_copy copy_chars add_char find_in same_name same_chars
jal_register = refl

jal_target : evaluated jal_line (cursor 3) ≡ parsed (0, 4104) (cursor 7)
unfolding evaluated after_evaluate evaluate returned eval_inner operand_round note_operand settle
    settle_with reduce after_reduce check_error apply_unary go_on allow_error get_variable unary_at
    operand_at other_operand number_operand radix_at get_num num_loop digit_value skip_spc
    drop_chars get_identifier take_identifier alpha_numeric alphabetic get_operator operator_at
    single_operator double_operator symbolic_operator priority
jal_target = refl

lw_target : evaluated lw_line (cursor 3) ≡ parsed (0, 4104) (cursor 7)
unfolding evaluated after_evaluate evaluate returned eval_inner operand_round note_operand settle
    settle_with reduce after_reduce check_error apply_unary go_on allow_error get_variable unary_at
    operand_at other_operand number_operand radix_at get_num num_loop digit_value skip_spc
    drop_chars get_identifier take_identifier alpha_numeric alphabetic get_operator operator_at
    single_operator double_operator symbolic_operator priority
lw_target = refl

lw_register : need_reg lw_line sym_bad_reg (cursor 0) ≡ parsed 10 (cursor 2)
unfolding reg_comma need_reg need get_reg next_is get_thing cmp_next_non_space skip_spc drop_chars
    get_identifier take_identifier alpha_numeric alphabetic sym_find_label sym_find_record
    sym_string_copy copy_chars add_char find_in same_name same_chars
lw_register = refl

load-global_example :
    (word : ℕ) × (last : Cursor) × (load lw_line (cursor 0) ≡ parsed word last)
    × (opcode word ≡ opcode_of 0x04058000)
    × (func3 word ≡ 2)
    × (rd word ≡ 10)
    × (add32 (run_word 4096 last.prefix (λ i. 0) (rs1 word)) (i_imm word) ≡ 4104)
unfolding next_is cmp_next_non_space skip_spc drop_chars
load-global_example =
    load-global lw_line (cursor 0) (cursor 2) (cursor 3) (cursor 3) (cursor 7) (cursor 7) 10 4104
      (λ i. 0) lw_register refl refl lw_target refl refl (omega arith) (omega arith) (omega arith)
      (omega arith) (omega arith)

long_li-runs_example :
    run_code true 4096 (long_li 0 10 0x12345FFF) (λ i. 0) 10 ≡ write_reg (λ i. 0) 10 0x12345FFF 10
long_li-runs_example =
    long_li-runs 0 10 0x12345FFF 4096 10 true (λ i. 0) (omega arith) (omega arith) (omega arith)
      (λ h. refl)

long_call-tail_example :
    (opcode (long_words (at_4096 0x006BA000 []) (0, 0, 0) 0 4104).op_code ≡ 0x6F)
    × (rd (long_words (at_4096 0x006BA000 []) (0, 0, 0) 0 4104).op_code ≡ 1)
    × (add32 4096 (j_imm (long_words (at_4096 0x006BA000 []) (0, 0, 0) 0 4104).op_code) ≡ 4104)
    × ((long_words (at_4096 0x006BA000 []) (0, 0, 0) 0 4104).flag ≡ false)
unfolding fits21
long_call-tail_example =
    long_call-tail (at_4096 0x006BA000 []) 0 4104 (0, 0, 0) refl (omega arith) (omega arith) refl
      refl

-- Two records, of which the first has to grow, and two passes that ask for the same.
abbrev two_records : SizeRecords
two_records = record { sizes = 4 ∷ 4 ∷ []; current = 0; size_changed_count = 0 }

changing_passes-total_example :
    changing_passes 10 ((8 ∷ 4 ∷ []) ∷ (8 ∷ 4 ∷ []) ∷ []) two_records + total (4 ∷ 4 ∷ []) ≤ 2 * 8
changing_passes-total_example =
    changing_passes-total 8 10 ((8 ∷ 4 ∷ []) ∷ (8 ∷ 4 ∷ []) ∷ []) two_records (omega arith)
      (omega arith, (omega arith, tt))
      (
        omega arith,
        (omega arith, (omega arith, tt)),
        (omega arith, (omega arith, (omega arith, tt)), tt),
      )

one_changing_pass : changing_passes 10 ((8 ∷ 4 ∷ []) ∷ (8 ∷ 4 ∷ []) ∷ []) two_records ≡ 1
unfolding changing_passes variable_item_size
one_changing_pass = refl

abbrev before_line : Assembly
before_line = record {
  assembly_pointer = 4096;
  position = 0;
  undefined_count = 0;
  div_zero = false;
  size_records = record { sizes = []; current = 0; size_changed_count = 0 };
  dumps = [];
}

rv32i_mnemonic-Lays_example :
    Lays 1 before_line (rv32i_mnemonic lw_line before_line).1
    ⊎ Lays 2 before_line (rv32i_mnemonic lw_line before_line).1
rv32i_mnemonic-Lays_example = rv32i_mnemonic-Lays lw_line refl refl refl before_line
