-- ===== src/Asm/Directive/Line.antt =====
-- The directives for conditional assembly, entry and EQU, and `assemble_line` of
-- tools/assembler/rva.c. Directives that read files or whole tables (EXPORT, INCLUDE, ARCH, IMPORT, RN)
-- are a parameter.
use Prim.Native.Nat.{bit_or}
use riscy_os.Base.{
  ℕ, ◌+◌, ◌-◌, ◌/◌, ◌%◌, ◌^◌, ◌<◌, ◌≡◌, refl, sym, ap, ◌∙◌, true, false, not, ◌&&◌, ◌||◌, Option,
  none, some, [], ◌∷◌, arith, leb, ◌==◌, if◌then◌else◌, length, u32_mod,
}
use riscy_os.Asm.Lexer.{test_eol}
use riscy_os.Asm.Variable.{char_at, skip_to, eval_no_label}
use riscy_os.Asm.Encode.{AsmContext}
use riscy_os.Asm.Encode.Mnemonic.{rv32i_mnemonic}
use riscy_os.Asm.Directive.{LineState, is_active, context_of, evaluate_at, put_label}
use riscy_os.Asm.Directive.Define.{assemble_define}
use riscy_os.Asm.Directive.Align.{
  do_align, define_space, origin, start_record, align_record, record_element,
}

abbrev pub sym_err_no_equ : ℕ
sym_err_no_equ = 0x300

abbrev pub sym_garbage : ℕ
sym_garbage = 0xD00

abbrev pub sym_double_entry : ℕ
sym_double_entry = 0x1C00

abbrev pub sym_many_ifs : ℕ
sym_many_ifs = 0x2400

abbrev pub sym_many_fis : ℕ
sym_many_fis = 0x2500

abbrev pub sym_lost_else : ℕ
sym_lost_else = 0x2600

abbrev pub eval_no_label_yet : ℕ
eval_no_label_yet = 0x3B00

abbrev pub if_stack_size : ℕ
if_stack_size = 10

-- IF; a condition that cannot be evaluated counts as -1.
unfoldable pub start_if : AsmContext → LineState → ℕ × LineState
start_if ctx st =
    let (e, v, st') = evaluate_at ctx 0 st in
    let error = if e - e % 256 == eval_no_label then eval_no_label_yet + e % 256 else e in
    let condition = if e == 0 then v else u32_mod - 1 in
    if leb if_stack_size (length st.if_stack)
    then (sym_many_ifs, st)
    else (error, record st' { if_stack = condition ∷ st'.if_stack })

-- FI
unfoldable pub end_if : LineState → ℕ × LineState
end_if st = elim st.if_stack [ [] ↦ (sym_many_fis, st) | c ∷ cs ↦ (0, record st { if_stack = cs }) ]

-- ELSE inverts all bits of the condition.
unfoldable pub flip_if : LineState → ℕ × LineState
flip_if st = elim st.if_stack [
  | [] ↦ (sym_lost_else, st)
  | c ∷ cs ↦ (0, record st { if_stack = (u32_mod - 1 - c) ∷ cs })
]

-- ENTRY
unfoldable pub set_entry : LineState → ℕ × LineState
set_entry st = elim st.entry_address [
  | none ↦ (0, record st { entry_address = some st.assembly.assembly_pointer })
  | some a ↦ (sym_double_entry, st)
]

-- EQU and DEF
unfoldable pub equate : AsmContext → (type_change : ℕ) → LineState → ℕ × LineState
equate ctx flag st =
    let (e, v, st') = evaluate_at ctx 0 st in
    elim st'.label [ none ↦ (sym_err_no_equ, st') | some l ↦ put_label ctx v true e flag st' ]

module _ (other : AsmContext → LineState → ℕ × LineState) where
  unfoldable pub directive : AsmContext → LineState → Option (ℕ × LineState)
  directive ctx st =
      let t = ctx.token in
      if t == 0xF0000000
      then assemble_define ctx 1 st
      else if t == 0xF0010000
      then assemble_define ctx 2 st
      else if t == 0xF0020000
      then assemble_define ctx 4 st
      else if t == 0xF0030000
      then some (define_space ctx st)
      else if t == 0xF0080000
      then some (set_entry st)
      else if t == 0xF0090000 || t == 0xF00A0000 || t == 0xF00B0000
      then some (0, st)
      else if t == 0xF00C0000
      then some (start_if ctx st)
      else if t == 0xF00D0000
      then some (end_if st)
      else if t == 0xF00E0000
      then some (flip_if st)
      else if t == 0xF8000000
      then some (equate ctx 0x400 st)
      else if t == 0xF8030000
      then some (equate ctx 0x800 st)
      else if t == 0xF8010000
      then some (origin ctx st)
      else if t == 0xF8020000
      then some (do_align ctx st)
      else if t == 0xF8040000
      then some (start_record ctx st)
      else if t == 0xF8050000
      then some (align_record ctx st)
      else if t / 2 ^ 20 == 0xF81
      then some (record_element ctx st)
      else some (other ctx st)

  -- An instruction on the state of a line.
  unfoldable pub instruction : AsmContext → LineState → ℕ × LineState
  instruction ctx st =
      let done = rv32i_mnemonic (context_of ctx 0 st) st.assembly in
      (done.0, record st { assembly = done.1 })

  -- On the first pass nothing may be left on the line.
  unfoldable pub check_rest : AsmContext → ℕ × LineState → ℕ × LineState
  check_rest ctx (e, st) =
      let at = skip_to ctx.line st.assembly.position in
      let st' = record st { assembly = record (st.assembly) { position = at } } in
      if ctx.pass_count == 0 && e == 0
      then ((if test_eol (char_at ctx.line at) then e else bit_or sym_garbage at), st')
      else (e, st)

  -- `assemble_line`: the label in front, but for the directives that place it themselves, then what
  -- the token stands for.
  unfoldable pub assemble_line : AsmContext → LineState → Option (ℕ × LineState)
  assemble_line ctx st =
      let labelled =
        if ctx.token / 2 ^ 27 == 0x1F
        then (0, st)
        else put_label ctx st.assembly.assembly_pointer st.assembly_pointer_defined 0 0 st in
      let done =
        if not (labelled.0 == 0)
        then some labelled
        else if ctx.token / 2 ^ 28 == 0xF
        then directive ctx labelled.1
        else some (instruction ctx labelled.1) in
      elim done [ none ↦ none | some r ↦ some (check_rest ctx r) ]

evaluate_at-if_stack :
    (ctx : AsmContext) (st : LineState) → (evaluate_at ctx 0 st).2.if_stack ≡ st.if_stack
unfolding evaluate_at
evaluate_at-if_stack ctx st = refl

-- An IF whose condition evaluates, nested less than ten deep: code behind it is assembled exactly
-- where the condition is not 0, also inside another IF that suppresses code; behind an ELSE exactly
-- where the condition is not -1, and behind the FI as in front of the IF.
pub if_clauses :
    (ctx : AsmContext) (st st' : LineState) (condition : ℕ)
    → evaluate_at ctx 0 st ≡ (0, condition, st')
    → length st.if_stack < if_stack_size
    → condition < 2 ^ 32
    → ((start_if ctx st).0 ≡ 0)
      × (is_active (start_if ctx st).1.if_stack ≡ not (condition == 0))
      × (is_active (flip_if (start_if ctx st).1).1.if_stack ≡ not (condition == 2 ^ 32 - 1))
      × ((end_if (start_if ctx st).1).1.if_stack ≡ st.if_stack)
      × ((end_if (flip_if (start_if ctx st).1).1).1.if_stack ≡ st.if_stack)
unfolding start_if flip_if end_if
if_clauses ctx st st' c value room small =
    let fits : leb if_stack_size (length st.if_stack) ≡ false = ground arith in
    let stack : st'.if_stack ≡ st.if_stack =
      sym (ap (λ (r : ℕ × ℕ × LineState). r.2.if_stack) value) ∙ evaluate_at-if_stack ctx st in
    rw (value, fits) (refl, refl, ground arith, stack, stack)
