-- ===== src/Asm/Variable.antt =====
-- `get_variable` of tools/assembler/rva.c: the operand that an expression goes on with. Lines are
-- those of Lexer; a position is a number of characters.
pub mod Advance
use Prim.Native.Nat.{bit_and, bit_or}
use riscy_os.Base.{
  ℕ, zero, suc, ◌+◌, ◌-◌, ◌*◌, ◌/◌, ◌%◌, ◌≡◌, Bool, true, false, not, ◌&&◌, ◌||◌, Option, none,
  some, List, [], ◌∷◌, ◌++◌, arith, ltb, leb, ◌==◌, if◌then◌else◌, length, get_or, u32_mod, add32,
  sub32,
}
use riscy_os.Asm.Symbols.{SymRecord, SymTable, sym_find_label, sym_rec_def_flag}
use riscy_os.Asm.Lexer.{skip_spc, drop_chars, get_identifier, c_char_esc, get_num}

abbrev pub line_length : ℕ
line_length = 256

-- The error codes; the bits 16 and 17 say that a pass other than the last goes on.
abbrev pub all_except_last_pass : ℕ
all_except_last_pass = 0x30000

abbrev pub eval_no_operand : ℕ
eval_no_operand = 0x3000

abbrev pub eval_no_operator : ℕ
eval_no_operator = 0x3100

abbrev pub eval_not_closebr : ℕ
eval_not_closebr = 0x3200

abbrev pub eval_not_openbr : ℕ
eval_not_openbr = 0x3300

abbrev pub eval_mathstack_limit : ℕ
eval_mathstack_limit = 0x3400

abbrev pub eval_no_label : ℕ
eval_no_label = 0x13500

abbrev pub eval_label_undef : ℕ
eval_label_undef = 0x33600

abbrev pub eval_out_of_radix : ℕ
eval_out_of_radix = 0x3700

abbrev pub eval_div_by_zero : ℕ
eval_div_by_zero = 0x33800

abbrev pub eval_operand_error : ℕ
eval_operand_error = 0x3900

abbrev pub eval_bad_loc_lab : ℕ
eval_bad_loc_lab = 0x3A00

-- local_label
pub record LocalLabel : Type 0 where
  pub label : ℕ
  pub value : ℕ

-- The variables that `get_variable` reads. The list of local labels is split at `loc_lab_position`:
-- that label and those before it, nearest first, and those behind it. Where the pointer is NULL,
-- the first part is empty.
pub record EvalScope : Type 0 where
  pub symbol_table : SymTable
  pub csr_table : SymTable
  pub operator_table : SymTable
  pub labels_before : List LocalLabel
  pub labels_after : List LocalLabel
  pub own_label_is_local : Bool
  pub assembly_pointer : ℕ
  pub def_increment : ℕ
  pub assembly_pointer_defined : Bool

pub data Unary : Type 0 where
  keep : Unary
  negate : Unary
  complement : Unary
  log_2 : Unary

-- What `get_variable` finds: its status, the value, the unary operator, whether it is an opening
-- bracket, where the line goes on, and whether `undefined_count` is incremented.
pub record Operand : Type 0 where
  pub status : ℕ
  pub value : ℕ
  pub bracket : Bool
  pub next : ℕ
  pub undefined : Bool

abbrev pub char_at : List ℕ → ℕ → ℕ
char_at line i = get_or line i 0

abbrev pub skip_to : List ℕ → ℕ → ℕ
skip_to line i = i + skip_spc (drop_chars i line)

-- The unary operator at a position, and the position behind it.
unfoldable pub unary_at : List ℕ → ℕ → Unary × ℕ
unary_at line i =
    if char_at line i == b'+'
    then (keep, skip_to line (i + 1))
    else if char_at line i == b'-'
    then (negate, skip_to line (i + 1))
    else if char_at line i == b'~'
    then (complement, skip_to line (i + 1))
    else if char_at line i == b'|'
    then (log_2, skip_to line (i + 1))
    else (keep, i)

abbrev pub operand_value : (value next : ℕ) → Operand
operand_value v i = record { status = 0; value = v; bracket = false; next = i; undefined = false }

abbrev pub operand_error : (status next : ℕ) → Operand
operand_error s i = record { status = s; value = 0; bracket = false; next = i; undefined = false }

-- A label, by what the search of the symbol table and of the table of CSRs gives. Its status names
-- the position of the label, and the line goes on `count` characters behind that.
unfoldable pub label_operand : (symbol csr : Option SymRecord) → (i count : ℕ) → Operand
label_operand (some r) csr i count =
    if r.flags / sym_rec_def_flag % 2 == 1
    then operand_value r.value (i + count)
    else record (operand_error (bit_or eval_label_undef i) (i + count)) { undefined = true }
label_operand none (some r) i count = operand_value r.value (i + count)
label_operand none none i count = operand_error (bit_or eval_no_label i) (i + count)

unfoldable pub find_label : List LocalLabel → ℕ → Option ℕ
find_label [] label = none
find_label (l ∷ ls) label = if label == l.label then some l.value else find_label ls label

-- The search for a local label: bit 0 of the directions is backwards, bit 1 forwards. A search that
-- may go backwards, or from a line with a local label of its own, starts at `loc_lab_position`.
unfoldable pub search_labels : EvalScope → (directions label : ℕ) → Option ℕ
unfolding find_label
search_labels sc directions label =
    let ahead =
      if not sc.own_label_is_local && directions % 2 == 0
      then sc.labels_after
      else elim sc.labels_before [ [] ↦ [] | l ∷ ls ↦ l ∷ sc.labels_after ] in
    let forwards = if directions / 2 == 1 then find_label ahead label else none in
    if directions % 2 == 1
    then elim (find_label sc.labels_before label) [ some v ↦ some v | none ↦ forwards ]
    else forwards

-- A reference to a local label, behind the percent sign and the letter of a direction.
unfoldable pub local_operand : EvalScope → List ℕ → (directions i : ℕ) → Operand
local_operand sc line directions i =
    let (found, moved, label) = get_num (drop_chars i line) 10 in
    if not found
    then operand_error eval_bad_loc_lab i
    else elim (search_labels sc directions label) [
      | some v ↦ operand_value v (i + moved)
      | none ↦ operand_error eval_no_label (i + moved)
    ]

-- A character constant, from behind its first quote on.
unfoldable pub char_operand : List ℕ → (i : ℕ) → Operand
char_operand line i =
    let escape = char_at line i == 92 in
    let at = if escape then i + 1 else i in
    let c = char_at line at in
    if not (c == 0) && not (c == 10) && char_at line (at + 1) == 39
    then operand_value (if escape then c_char_esc c else c) (at + 2)
    else operand_error (bit_or eval_operand_error at) at

-- The radix of a number and where its digits are; radix 0 is none.
unfoldable pub radix_at : List ℕ → (i : ℕ) → ℕ × ℕ
radix_at line i =
    let c = char_at line i in
    let letter = bit_and (char_at line (i + 1)) 0xDF in
    if c == b'0' && letter == b'X'
    then (16, i + 2)
    else if c == b'0' && letter == b'B'
    then (2, i + 2)
    else if leb b'0' c && leb c b'9'
    then (10, i)
    else if c == b'$'
    then (16, i + 1)
    else if c == b':'
    then (2, i + 1)
    else if c == b'@'
    then (8, i + 1)
    else (0, i)

unfoldable pub number_operand : List ℕ → (i : ℕ) → Operand
number_operand line i =
    let (radix, at) = radix_at line i in
    let (found, moved, v) = get_num (drop_chars at line) radix in
    if radix == 0
    then operand_error eval_no_operand i
    else if found
    then operand_value v (at + moved)
    else operand_error eval_out_of_radix at

-- What is neither a bracket nor a label.
unfoldable pub other_operand : EvalScope → List ℕ → (i : ℕ) → Operand
other_operand sc line i =
    let letter = bit_and (char_at line (i + 1)) 0xDF in
    if char_at line i == b'%'
    then (if letter == b'B'
        then local_operand sc line 1 (i + 2)
        else if letter == b'F'
        then local_operand sc line 2 (i + 2)
        else local_operand sc line 3 (i + 1))
    else if char_at line i == 39
    then char_operand line (i + 1)
    else if char_at line i == b'.'
    then (if sc.assembly_pointer_defined
        then operand_value (add32 sc.assembly_pointer sc.def_increment) (i + 1)
        else operand_error (bit_or eval_label_undef i) (i + 1))
    else number_operand line i

-- What stands behind the unary operator.
unfoldable pub operand_at : EvalScope → List ℕ → (i : ℕ) → Operand
operand_at sc line i =
    let name = get_identifier (drop_chars i line) line_length in
    if char_at line i == b'('
    then record { status = 0; value = 0; bracket = true; next = i + 1; undefined = false }
    else if not (length name == 0)
    then label_operand (sym_find_label name sc.symbol_table) (sym_find_label name sc.csr_table) i
        (length name)
    else other_operand sc line i

-- Whether a status lets the position move on.
abbrev pub goes_on : ℕ → Bool
goes_on status = status == 0 || not (bit_and status all_except_last_pass == 0)

unfoldable pub get_variable : EvalScope → List ℕ → (pos : ℕ) → Unary × Operand
get_variable sc line pos =
    let start = skip_to line pos in
    let (unary, i) = unary_at line start in
    let found = operand_at sc line i in
    (unary, record found { next = if goes_on found.status then found.next else start })
