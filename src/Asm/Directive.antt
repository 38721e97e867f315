-- ===== src/Asm/Directive.antt =====
-- What the directives of `assemble_line`, tools/assembler/rva.c, share: the state of a line, and the
-- calls of `evaluate`, `byte_dump` and `assemble_redef_label`.
pub mod Define
pub mod Align
pub mod Line
pub mod Aligned
pub mod Texts
mod Tests
use riscy_os.Base.{
  ℕ, zero, suc, ◌+◌, ◌-◌, ◌*◌, ◌/◌, ◌%◌, ◌^◌, ◌≤◌, ◌<◌, ◌≡◌, refl, sym, ap, ◌∙◌, ◌≢◌, ◌↔◌, ◌⊎◌, inl,
  inr, Bool, true, false, not, ◌&&◌, ◌||◌, Option, none, some, List, [], ◌∷◌, ◌++◌, arith, ltb, leb,
  ◌==◌, ==_iff, if◌then◌else◌, Bool-cases, some_pair, length, get_or, set, length-append,
  length-set, get_or-set_self, get_or-set_ne, Mem, write, write_self, write_ne, u32_mod, add32,
  sub32,
}
use riscy_os.Asm.Lexer.{allow_error}
use riscy_os.Asm.Variable.{eval_no_operand, eval_operand_error}
use riscy_os.Asm.Expression.{EvalState, evaluate}
use riscy_os.Asm.Encode.{AsmContext}
use riscy_os.Asm.Encode.Mnemonic.{Dump, Assembly}
use riscy_os.Asm.Label.{Label, LabelCounts, assemble_redef_label}

-- The variables that directives change. `label` is that of the line, none for NO_LABEL; the top of
-- `if_stack` comes first, and the entry that is always there is not in the list.
pub record LineState : Type 0 where
  pub assembly : Assembly
  pub label : Option Label
  pub counts : LabelCounts
  pub assembly_pointer_defined : Bool
  pub data_pointer : ℕ
  pub entry_address : Option ℕ
  pub if_stack : List ℕ

-- if_stack[if_SP]
abbrev pub is_active : List ℕ → Bool
is_active [] = true
is_active (c ∷ cs) = not (c == 0)

-- What `evaluate` and the rest read, from the state; `increment` is def_increment.
abbrev pub context_of : AsmContext → (increment : ℕ) → LineState → AsmContext
context_of ctx increment st = record ctx {
  scope = record ctx.scope {
    assembly_pointer = st.assembly.assembly_pointer;
    assembly_pointer_defined = st.assembly_pointer_defined;
    def_increment = increment;
  };
  if_active = is_active st.if_stack;
}

unfoldable pub after_evaluate : Option (ℕ × ℕ × EvalState) → Assembly → ℕ × ℕ × Assembly
after_evaluate none a = (eval_operand_error, 0, a)
after_evaluate (some (e, v, last)) a = (
  e,
  v,
  record a {
    position = last.pos;
    undefined_count = a.undefined_count + last.undefined_count;
    div_zero = a.div_zero || last.div_zero;
  },
)

-- A call of `evaluate`: the error code, the value and what has changed. It returns with this fuel.
unfoldable pub evaluate_at : AsmContext → (increment : ℕ) → LineState → ℕ × ℕ × LineState
evaluate_at ctx increment st =
    let found =
      after_evaluate
        (evaluate (context_of ctx increment st).scope ctx.line (1 + length ctx.line)
          st.assembly.position)
        st.assembly in
    (found.0, found.1, record st { assembly = found.2 })

abbrev pub is_allowed : AsmContext → (error_code : ℕ) → Bool
is_allowed ctx e = allow_error e (ctx.pass_count == 0) ctx.last_pass

-- (error_code & 0xFFFFFF00) == eval_no_operand
abbrev pub is_no_operand : (error_code : ℕ) → Bool
is_no_operand e = e - e % 256 == eval_no_operand

-- `byte_dump` on the last pass
unfoldable pub byte_dump : AsmContext → (address value size : ℕ) → LineState → LineState
byte_dump ctx address v size st =
    if ctx.last_pass && ctx.dump_code && is_active st.if_stack
    then record st {
      assembly = record (st.assembly) {
        dumps = st.assembly.dumps ++ (record { address = address; value = v; size = size } ∷ []);
      };
    }
    else st

-- Moving the assembly pointer where no IF suppresses it.
unfoldable pub advance : (count : ℕ) → LineState → LineState
advance count st =
    if is_active st.if_stack
    then record st {
      assembly = record (st.assembly) {
        assembly_pointer = add32 st.assembly.assembly_pointer count;
      };
    }
    else st

abbrev pub step_over : LineState → LineState
step_over st = record st { assembly = record (st.assembly) { position = st.assembly.position + 1 } }

-- The label of the line, if there is one, gets a value.
unfoldable pub put_label :
    AsmContext
    → (value : ℕ) → (defined : Bool) → (error_code type_change : ℕ) → LineState
    → ℕ × LineState
put_label ctx v defined e type_change st = elim st.label [
  | none ↦ (e, st)
  | some l ↦
      let met =
        assemble_redef_label v defined e type_change ctx.pass_count ctx.last_pass l st.counts in
      (met.0, record st { label = some met.1; counts = met.2 })
]
