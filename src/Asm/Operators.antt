-- ===== src/Asm/Operators.antt =====
-- `get_operator` of tools/assembler/rva.c: the next operator of an expression and its priority.
use riscy_os.Base.{ℕ, ◌+◌, ◌||◌, Option, none, some, List, ◌==◌, if◌then◌else◌, length, get_or}
use riscy_os.Asm.Lexer.{skip_spc, drop_chars, first_char, get_identifier}
use riscy_os.Asm.Symbols.{SymTable, sym_find_label, sym_name_max}

-- The operators' codes.
pub data Operator : Type 0 where
  plus : Operator
  minus : Operator
  multiply : Operator
  divide : Operator
  modulus : Operator
  closebr : Operator
  left_shift : Operator
  right_shift : Operator
  and_op : Operator
  or_op : Operator
  xor_op : Operator
  equals : Operator
  not_equal : Operator
  lower_than : Operator
  lower_equal : Operator
  higher_than : Operator
  higher_equal : Operator
  less_than : Operator
  less_equal : Operator
  greater_than : Operator
  greater_equal : Operator
  end_op : Operator

-- The priority "look up"; 0 is for terminators, 1 for brackets.
unfoldable pub priority : Operator → ℕ
priority end_op = 0
priority closebr = 1
priority plus = 3
priority minus = 3
priority multiply = 4
priority divide = 4
priority modulus = 4
priority left_shift = 7
priority right_shift = 7
priority and_op = 6
priority or_op = 5
priority xor_op = 5
priority equals = 2
priority not_equal = 2
priority lower_than = 2
priority lower_equal = 2
priority higher_than = 2
priority higher_equal = 2
priority less_than = 2
priority less_equal = 2
priority greater_than = 2
priority greater_equal = 2

-- The operators of one character.
unfoldable pub single_operator : ℕ → Option Operator
single_operator c =
    if c == 0 || c == 44 || c == 59 || c == 91 || c == 93 || c == 125 || c == 10
    then some end_op
    else if c == 43
    then some plus
    else if c == 45
    then some minus
    else if c == 42
    then some multiply
    else if c == 47
    then some divide
    else if c == 92
    then some modulus
    else if c == 41
    then some closebr
    else if c == 124
    then some or_op
    else if c == 38
    then some and_op
    else if c == 94
    then some xor_op
    else if c == 61
    then some equals
    else none

-- The operators that start with !, < or >, and their lengths.
unfoldable pub double_operator : (c next : ℕ) → Option (Operator × ℕ)
double_operator c next =
    if c == 33
    then (if next == 61 then some (not_equal, 2) else none)
    else if c == 60
    then (if next == 60
        then some (left_shift, 2)
        else if next == 62
        then some (not_equal, 2)
        else if next == 61
        then some (lower_equal, 2)
        else some (lower_than, 1))
    else if c == 62
    then (if next == 62
        then some (right_shift, 2)
        else if next == 61
        then some (higher_equal, 2)
        else some (higher_than, 1))
    else none

-- The operator of a code in `operator_table`, which names these codes alone.
unfoldable pub named_operator : (code : ℕ) → Option Operator
named_operator code =
    if code == 4
    then some divide
    else if code == 5
    then some modulus
    else if code == 7
    then some left_shift
    else if code == 8
    then some right_shift
    else if code == 9
    then some and_op
    else if code == 10
    then some or_op
    else if code == 11
    then some xor_op
    else if code == 12
    then some equals
    else if code == 13
    then some not_equal
    else if code == 14
    then some lower_than
    else if code == 15
    then some lower_equal
    else if code == 16
    then some higher_than
    else if code == 17
    then some higher_equal
    else if code == 18
    then some less_than
    else if code == 19
    then some less_equal
    else if code == 20
    then some greater_than
    else if code == 21
    then some greater_equal
    else none

-- An operator that is written as a name.
unfoldable pub symbolic_operator : List ℕ → SymTable → Option (Operator × ℕ)
unfolding named_operator
symbolic_operator line operator_table =
    let name = get_identifier line sym_name_max in
    if length name == 0 then none else elim (sym_find_label name operator_table) [
      | none ↦ none
      | some r ↦ elim (named_operator r.value) [
        | none ↦ none
        | some operator ↦ some (operator, length name)
      ]
    ]

-- The operator that the line, without its blanks, starts with, and its length; `none` is the status
-- `eval_no_operator`.
unfoldable pub operator_at : List ℕ → SymTable → Option (Operator × ℕ)
unfolding single_operator double_operator symbolic_operator
operator_at line operator_table =
    let c = first_char line in
    elim (single_operator c) [
      | some end_op ↦ some (end_op, 0)
      | some operator ↦ some (operator, 1)
      | none ↦
          if c == 33 || c == 60 || c == 62
          then double_operator c (get_or line 1 0)
          else symbolic_operator line operator_table
    ]

-- `get_operator`: how far the position moves, and the operator with its priority.
unfoldable pub get_operator : List ℕ → SymTable → ℕ × Option (Operator × ℕ)
unfolding operator_at
get_operator line operator_table =
    let blanks = skip_spc line in
    elim (operator_at (drop_chars blanks line) operator_table) [
      | none ↦ (blanks, none)
      | some found ↦ (blanks + found.1, some (found.0, priority found.0))
    ]
