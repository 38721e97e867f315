-- ===== src/Asm/Directive/Define.antt =====
-- `assemble_define` of tools/assembler/rva.c: DEFB, DEFH and DEFW with values and texts.
use riscy_os.Base.{
  ℕ, zero, suc, ◌+◌, ◌*◌, Bool, true, false, not, ◌&&◌, ◌||◌, Option, none, some, List, [], ◌∷◌,
  ◌==◌, if◌then◌else◌, length, add32,
}
use riscy_os.Asm.Lexer.{c_char_esc, drop_chars}
use riscy_os.Asm.Variable.{char_at, skip_to}
use riscy_os.Asm.Encode.{AsmContext}
use riscy_os.Asm.Directive.{LineState, evaluate_at, is_allowed, byte_dump, advance, step_over}

abbrev pub sym_endless_string : ℕ
sym_endless_string = 0x900

-- A text behind its first delimiter: its characters, how far the position moves up to the other
-- delimiter, and whether there is one.
pub record Text : Type 0 where
  pub chars : List ℕ
  pub moved : ℕ
  pub closed : Bool

abbrev pub text_char : (char moved : ℕ) → Text → Text
text_char c moved t = record { chars = c ∷ t.chars; moved = moved + t.moved; closed = t.closed }

unfoldable pub read_text : (delimiter : ℕ) → List ℕ → Text
read_text d [] = record { chars = []; moved = 0; closed = false }
read_text d (c ∷ []) =
    if c == d
    then record { chars = []; moved = 0; closed = true }
    else if c == 92
    then record { chars = []; moved = 1; closed = false }
    else record { chars = c ∷ []; moved = 1; closed = false }
read_text d (c ∷ e ∷ es) =
    let plain = text_char c 1 (read_text d (e ∷ es)) in
    let escaped = text_char (c_char_esc e) 2 (read_text d es) in
    if c == d
    then record { chars = []; moved = 0; closed = true }
    else if c == 92
    then escaped
    else plain

-- Characters are dumped one behind the other, `size` bytes each.
unfoldable pub dump_chars : AsmContext → (size address : ℕ) → List ℕ → LineState → LineState
dump_chars ctx size address [] st = st
dump_chars ctx size address (c ∷ cs) st =
    dump_chars ctx size (add32 address size) cs (byte_dump ctx address c size st)

abbrev pub is_delimiter : ℕ → Bool
is_delimiter c = c == 34 || c == 39 || c == 47 || c == 96

abbrev pub at_position : (position : ℕ) → LineState → LineState
at_position p st = record st { assembly = record (st.assembly) { position = p } }

-- What an element does: `def_increment` behind it, the error code, and whether it ends the list.
pub record Element : Type 0 where
  pub increment : ℕ
  pub error : ℕ
  pub terminate : Bool
  pub state : LineState

-- A text as an element, from its delimiter on.
unfoldable pub define_text : AsmContext → (size increment : ℕ) → LineState → Element
define_text ctx size increment st =
    let p = st.assembly.position in
    let t = read_text (char_at ctx.line p) (drop_chars (p + 1) ctx.line) in
    let st' = dump_chars ctx size (add32 st.assembly.assembly_pointer increment) t.chars st in
    let behind = p + 1 + t.moved in
    record {
      increment = increment + size * length t.chars;
      error = if t.closed then 0 else sym_endless_string;
      terminate = not t.closed;
      state = at_position (if t.closed then skip_to ctx.line (behind + 1) else behind) st';
    }

-- A value as an element; the list goes on behind a value that is not known yet.
unfoldable pub define_value : AsmContext → (size increment : ℕ) → LineState → Element
define_value ctx size increment st =
    let (e, v, st') = evaluate_at ctx increment st in
    let at = add32 st.assembly.assembly_pointer increment in
    if e == 0 || is_allowed ctx e
    then record {
      increment = increment + size;
      error = if ctx.last_pass then e else 0;
      terminate = false;
      state = if e == 0 then byte_dump ctx at v size st' else st';
    }
    else record { increment = increment; error = e; terminate = true; state = st' }

unfoldable pub define_element : AsmContext → (size increment : ℕ) → LineState → Element
define_element ctx size increment st =
    let st' = at_position (skip_to ctx.line st.assembly.position) st in
    if is_delimiter (char_at ctx.line st'.assembly.position)
    then define_text ctx size increment st'
    else define_value ctx size increment st'

-- The loop over the elements, then the pointer moves over all of them. `none` is that fuel ran out.
-- A text leaves the error code as it was.
unfoldable pub define_loop :
    AsmContext → (size fuel increment : ℕ) → LineState → Option (ℕ × LineState)
define_loop ctx size zero increment st = none
define_loop ctx size (suc fuel) increment st =
    let d = define_element ctx size increment st in
    let comma = char_at ctx.line d.state.assembly.position == b',' in
    let rest = define_loop ctx size fuel d.increment (step_over d.state) in
    if not d.terminate && comma then rest else some (d.error, advance d.increment d.state)

unfoldable pub assemble_define : AsmContext → (size : ℕ) → LineState → Option (ℕ × LineState)
assemble_define ctx size st = define_loop ctx size (1 + length ctx.line) 0 st
