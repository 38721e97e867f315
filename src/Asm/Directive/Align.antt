-- ===== src/Asm/Directive/Align.antt =====
-- `fill_space` and `do_align` of tools/assembler/rva.c, and DEFS, ORG and the directives of records.
use native.Mathlib.Nat.{div-add-mod, mod-lt, mul-mod_right, mul-add-mod_self_left, mod-eq_of_lt}
use riscy_os.Base.{
  ℕ, zero, suc, ◌+◌, ◌-◌, ◌*◌, ◌/◌, ◌%◌, ◌^◌, ◌<◌, ◌≡◌, ap, ◌∙◌, inl, inr, true, false, not, ◌&&◌,
  ◌||◌, arith, ltb, ◌==◌, if◌then◌else◌, Bool-cases, u32_mod, add32, sub32,
}
use riscy_os.Asm.Variable.{char_at}
use riscy_os.Asm.Encode.{AsmContext}
use riscy_os.Asm.Directive.{
  LineState, evaluate_at, is_allowed, is_no_operand, byte_dump, advance, step_over, put_label,
}

-- The loop of `fill_space` over the bytes.
unfoldable pub fill_bytes : AsmContext → (count address value : ℕ) → LineState → LineState
fill_bytes ctx zero address v st = st
fill_bytes ctx (suc count) address v st =
    fill_bytes ctx count (add32 address 1) v (byte_dump ctx address (v % 256) 1 st)

unfoldable pub fill_space : AsmContext → (count : ℕ) → LineState → ℕ × LineState
fill_space ctx count st =
    let (e, v, st') = evaluate_at ctx 0 (step_over st) in
    let e' = if is_allowed ctx e then 0 else e in
    (
      e',
      (if ctx.last_pass && e' == 0
          then fill_bytes ctx count st'.assembly.assembly_pointer v st'
          else st'),
    )

-- How far it is to the next multiple.
unfoldable pub align_gap : (assembly_pointer operand : ℕ) → ℕ
align_gap pointer operand = if operand == 0 then 0 else operand - (sub32 pointer 1 % operand + 1)

-- `do_align`, from its operand on. With a value for the gap, the label is in front of it.
unfoldable pub align_to : AsmContext → (operand : ℕ) → LineState → ℕ × LineState
align_to ctx operand st =
    let gap = align_gap st.assembly.assembly_pointer operand in
    let fill = char_at ctx.line st.assembly.position == b',' in
    let filled = if fill then fill_space ctx gap st else (0, st) in
    let at = st.assembly.assembly_pointer in
    let labelled =
      put_label ctx (if fill then at else add32 at gap) st.assembly_pointer_defined 0 0 filled.1 in
    if filled.0 == 0 then (labelled.0, advance gap labelled.1) else filled

unfoldable pub do_align : AsmContext → LineState → ℕ × LineState
do_align ctx st =
    let (e, v, st') = evaluate_at ctx 0 st in
    if is_no_operand e then align_to ctx 4 st' else if e == 0 then align_to ctx v st' else (e, st')

-- DEFS
unfoldable pub define_space : AsmContext → LineState → ℕ × LineState
define_space ctx st =
    let (e, v, st') = evaluate_at ctx 0 st in
    let e' = if is_allowed ctx e then 0 else e in
    let filled =
      if char_at ctx.line st'.assembly.position == b',' then fill_space ctx v st' else (0, st') in
    if not (e' == 0) then (e', st') else if filled.0 == 0 then (0, advance v filled.1) else filled

-- ORG; a label is at the new address.
unfoldable pub origin : AsmContext → LineState → ℕ × LineState
origin ctx st =
    let (e, v, st') = evaluate_at ctx 0 st in
    let e' = if is_allowed ctx e then 0 else e in
    put_label ctx v (e == 0) e' 0 (record st' {
      assembly = record (st'.assembly) { assembly_pointer = v };
      assembly_pointer_defined = e == 0;
    })

abbrev pub sym_rec_data_flag : ℕ
sym_rec_data_flag = 0x2000

-- The value of a directive of records, or what stands for a missing or unknown one.
unfoldable pub record_value : AsmContext → (default : ℕ) → LineState → ℕ × ℕ × LineState
record_value ctx default st =
    let (e, v, st') = evaluate_at ctx 0 st in
    if is_no_operand e || is_allowed ctx e then (0, default, st') else (e, v, st')

-- RECORD
unfoldable pub start_record : AsmContext → LineState → ℕ × LineState
start_record ctx st =
    let (e, v, st') = record_value ctx 0 st in
    if e == 0
    then put_label ctx v true 0 sym_rec_data_flag (record st' { data_pointer = v })
    else (e, st')

-- REC_ALIGN, which steps over a pointer that is aligned already.
unfoldable pub align_record : AsmContext → LineState → ℕ × LineState
align_record ctx st =
    let (e, v, st') = record_value ctx 4 st in
    let p = st'.data_pointer in
    let aligned = if v == 0 then p else add32 (p - p % v) v in
    if e == 0
    then put_label ctx aligned true 0 sym_rec_data_flag (record st' { data_pointer = aligned })
    else (e, st')

-- ALIAS, BYTE, HALFWORD, WORD and DOUBLE: elements of a record, whose size the token gives.
unfoldable pub record_element : AsmContext → LineState → ℕ × LineState
record_element ctx st =
    let (e, v, st') = record_value ctx 1 st in
    let labelled = put_label ctx st'.data_pointer true 0 sym_rec_data_flag st' in
    let size = ctx.token / 2 ^ 16 % 16 in
    if e == 0
    then (
      labelled.0,
      record (labelled.1) { data_pointer = (st'.data_pointer + v * size) % u32_mod },
    )
    else (e, st')

-- Behind ALIGN the pointer is a multiple, at the old place or less than one step behind it; an
-- aligned pointer stays. (At address 0 the subtraction of the code wraps around.)
pub align_gap_correct :
    (pointer operand : ℕ)
    → 0 < pointer
    → 0 < operand
    → pointer < 2 ^ 32
    → operand < 2 ^ 32
    → ((pointer + align_gap pointer operand) % operand ≡ 0)
      × (align_gap pointer operand < operand)
      × (pointer % operand ≡ 0 → align_gap pointer operand ≡ 0)
unfolding align_gap
align_gap_correct pointer operand real step small narrow =
    let q = (pointer - 1) / operand in
    let t = (pointer - 1) % operand in
    let whole = div-add-mod (pointer - 1) operand in
    let below : t < operand = mod-lt (pointer - 1) step in
    let no_wrap : sub32 pointer 1 ≡ pointer - 1 = omega arith in
    let some_step : (operand == 0) ≡ false = ground arith in
    let again : operand * (q + 1) ≡ operand * q + operand = omega arith in
    let multiple : pointer + (operand - (t + 1)) ≡ operand * (q + 1) = omega arith in
    let split : pointer ≡ operand * q + (t + 1) = omega arith in
    let same : pointer % operand ≡ (t + 1) % operand =
      ap (λ (k : ℕ). k % operand) split ∙ mul-add-mod_self_left operand q (t + 1) in
    rw (some_step, no_wrap)
      (
        rw multiple (mul-mod_right operand (q + 1)),
        omega arith,
        λ aligned. elim (Bool-cases (ltb (t + 1) operand)) [
          | inl less ↦
              let small_rest : (t + 1) % operand ≡ t + 1 = mod-eq_of_lt (ground arith) in
              absurd (omega arith)
          | inr full ↦ ground arith
        ],
      )
