-- ===== src/Asm/Encode.antt =====
-- What the instructions' parsers of tools/assembler/rva.c share: the nested functions of
-- `assemble_line` read the line and stop at the first error. The fields that the C code joins by `|`
-- do not overlap, and are added.
pub mod Fields
pub mod Decode
pub mod Run
pub mod Targets
pub mod Sizes
pub mod Layout
pub mod Fixed
pub mod Keeps
pub mod Global
pub mod Formats
pub mod Address
pub mod Pseudo
pub mod Long
pub mod Mnemonic
mod Tests
use Prim.Native.Nat.{bit_or}
use riscy_os.Base.{
  ℕ, zero, suc, ◌+◌, ◌-◌, ◌*◌, ◌/◌, ◌%◌, ◌^◌, ◌≤◌, ◌<◌, ◌≡◌, refl, sym, ap, ◌∙◌, ◌≢◌, ◌↔◌, ◌⊎◌, inl,
  inr, Bool, true, false, not, ◌&&◌, ◌||◌, Option, none, some, List, [], ◌∷◌, ◌++◌, arith, ltb, leb,
  ◌==◌, ==_iff, if◌then◌else◌, Bool-cases, some_pair, length, get_or, set, length-append,
  length-set, get_or-set_self, get_or-set_ne, Mem, write, write_self, write_ne, u32_mod, add32,
  sub32,
}
use riscy_os.Asm.Symbols.{SymTable, sym_find_label}
use riscy_os.Asm.Lexer.{skip_spc, drop_chars, cmp_next_non_space, get_identifier, allow_error}
use riscy_os.Asm.Variable.{EvalScope, eval_operand_error}
use riscy_os.Asm.Expression.{EvalState, evaluate}

-- The error codes; the bits 16 and 17 of some say that they are allowed before the last pass.
abbrev pub sym_err_syntax : ℕ
sym_err_syntax = 0x100

abbrev pub sym_bad_reg : ℕ
sym_bad_reg = 0x400

abbrev pub sym_no_comma_lbr : ℕ
sym_no_comma_lbr = 0x600

abbrev pub sym_oorange : ℕ
sym_oorange = 0x30800

abbrev pub sym_no_comma : ℕ
sym_no_comma = 0xB00

abbrev pub sym_no_lbr : ℕ
sym_no_lbr = 0x1100

abbrev pub sym_no_rbr : ℕ
sym_no_rbr = 0x1200

abbrev pub sym_oorange_branch : ℕ
sym_oorange_branch = 0x32000

abbrev pub sym_unaligned_branch : ℕ
sym_unaligned_branch = 0x32100

abbrev pub thing_buffer_length : ℕ
thing_buffer_length = 16

-- What the parsers read and do not change; the assembly pointer is that of `scope`. `if_active` is the
-- top of `if_stack`.
pub record AsmContext : Type 0 where
  pub scope : EvalScope
  pub register_table : SymTable
  pub line : List ℕ
  pub token : ℕ
  pub pass_count : ℕ
  pub last_pass : Bool
  pub if_active : Bool
  pub dump_code : Bool

-- What they change; `prefix` is the additional instruction, and 0 is none.
pub record Cursor : Type 0 where
  pub position : ℕ
  pub prefix : ℕ
  pub undefined_count : ℕ
  pub div_zero : Bool

pub data Parsed {ℓ} (A : Type ℓ) : Type ℓ where
  parsed : A → Cursor → Parsed A
  failed : (error_code : ℕ) → Cursor → Parsed A

abbrev pub Parser {ℓ} : Type ℓ → Type ℓ
Parser A = Cursor → Parsed A

abbrev pub then_parse {ℓ κ} : {A : Type ℓ} {B : Type κ} → Parsed A → (A → Parser B) → Parsed B
then_parse (parsed a c) f = f a c
then_parse (failed e c) f = failed e c

infixl 5 ◌>>=◌ ◌>>◌
abbrev pub ◌>>=◌ {ℓ κ} : {A : Type ℓ} {B : Type κ} → Parser A → (A → Parser B) → Parser B
p >>= f = λ c. then_parse (p c) f

abbrev pub ◌>>◌ {ℓ} : {B : Type ℓ} → Parser (Unit {0}) → Parser B → Parser B
p >> q = p >>= λ _. q

abbrev pub fail {ℓ} : {A : Type ℓ} → (error_code : ℕ) → Parser A
fail e = failed e

-- An error with the position put into its code.
abbrev pub fail_at {ℓ} : {A : Type ℓ} → (error_code : ℕ) → Parser A
fail_at e c = failed (bit_or e c.position) c

-- A value, unless an error was met on the way to it.
abbrev pub checked {ℓ} : {A : Type ℓ} → (error_code : ℕ) → A → Parser A
checked e a c = if e == 0 then parsed a c else failed e c

-- `get_thing`: the value and the position behind it; `none` is -1.
unfoldable pub get_thing : List ℕ → (pos : ℕ) → SymTable → Option ℕ × ℕ
get_thing line pos table =
    let at = pos + skip_spc (drop_chars pos line) in
    let name = get_identifier (drop_chars at line) thing_buffer_length in
    if length name == 0 then (none, at) else elim (sym_find_label name table) [
      | none ↦ (none, at)
      | some r ↦ (some r.value, at + length name)
    ]

module _ (ctx : AsmContext) where
  -- `get_reg`
  unfoldable pub get_reg : Parser (Option ℕ)
  get_reg c =
      let found = get_thing ctx.line c.position ctx.register_table in
      parsed found.0 (record c { position = found.1 })

  -- A register that has to be there.
  unfoldable pub need_reg : (error_code : ℕ) → Parser ℕ
  need_reg e = do found ← get_reg; elim found [ none ↦ fail_at e | some r ↦ parsed r ]

  unfoldable pub next_is : (character : ℕ) → Parser Bool
  next_is character c =
      let found = cmp_next_non_space ctx.line c.position 0 character in
      parsed found.0 (record c { position = found.1 })

  unfoldable pub need : (character error_code : ℕ) → Parser (Unit {0})
  need character e = do found ← next_is character; if found then parsed tt else fail_at e

  -- A register and the comma behind it.
  unfoldable pub reg_comma : Parser ℕ
  reg_comma = do r ← need_reg sym_bad_reg; need b',' sym_no_comma; parsed r

  -- What an evaluation leaves; it returns with this fuel.
  unfoldable pub after_evaluate : Option (ℕ × ℕ × EvalState) → Parser (ℕ × ℕ)
  after_evaluate none c = failed eval_operand_error c
  after_evaluate (some (e, v, last)) c =
      parsed (if allow_error e (ctx.pass_count == 0) ctx.last_pass then 0 else e, v)
        (record c {
          position = last.pos;
          undefined_count = c.undefined_count + last.undefined_count;
          div_zero = c.div_zero || last.div_zero;
        })

  -- `evaluate`: an error that is allowed on this pass is dropped, others are kept with the value.
  unfoldable pub evaluated : Parser (ℕ × ℕ)
  evaluated c = after_evaluate (evaluate ctx.scope ctx.line (1 + length ctx.line) c.position) c
