-- ===== src/Asm/Directive/Aligned.antt =====
-- Where ALIGN puts the assembly pointer and the label of its line.
use riscy_os.Base.{
  ℕ, ◌+◌, ◌%◌, ◌^◌, ◌≤◌, ◌<◌, ◌≡◌, refl, ap, ◌∙◌, inl, inr, Bool, true, false, arith, ◌==◌, add32,
}
use riscy_os.Asm.Variable.{char_at}
use riscy_os.Asm.Encode.{AsmContext}
use riscy_os.Asm.Encode.Mnemonic.{Assembly}
use riscy_os.Asm.Variable.Advance.{Option-cases}
use riscy_os.Asm.Directive.{LineState, is_active, evaluate_at, advance, put_label}
use riscy_os.Asm.Directive.Align.{align_gap, align_to, do_align, align_gap_correct}

put_label-assembly :
    (ctx : AsmContext) (v : ℕ) (defined : Bool) (e t : ℕ) (st : LineState)
    → ((put_label ctx v defined e t st).1.assembly ≡ st.assembly)
      × ((put_label ctx v defined e t st).1.if_stack ≡ st.if_stack)
unfolding put_label
put_label-assembly ctx v defined e t st = elim (Option-cases st.label) [
  | inl h ↦ rw h (refl, refl)
  | inr (l, h) ↦ rw h (refl, refl)
]

advance-pointer :
    (count : ℕ) (st : LineState)
    → is_active st.if_stack ≡ true
    → (advance count st).assembly.assembly_pointer ≡ add32 st.assembly.assembly_pointer count
unfolding advance
advance-pointer count st active = rw active refl

align_to-pointer :
    (ctx : AsmContext) (st : LineState) (step : ℕ)
    → (char_at ctx.line st.assembly.position == b',') ≡ false
    → is_active st.if_stack ≡ true
    → (align_to ctx step st).1.assembly.assembly_pointer
      ≡ add32 st.assembly.assembly_pointer (align_gap st.assembly.assembly_pointer step)
unfolding align_to
align_to-pointer ctx st step no_fill active =
    let at = st.assembly.assembly_pointer in
    let gap = align_gap at step in
    let (same, stack) = put_label-assembly ctx (add32 at gap) st.assembly_pointer_defined 0 0 st in
    let labelled = (put_label ctx (add32 at gap) st.assembly_pointer_defined 0 0 st).1 in
    let moved = advance-pointer gap labelled (ap is_active stack ∙ active) in
    rw no_fill (moved ∙ ap (λ (a : Assembly). add32 a.assembly_pointer gap) same)

-- ALIGN with a number above 0 and no value for the gap, where no IF suppresses it, the pointer is
-- not 0 and pointer and number have a sum below 2 ^ 32: the pointer comes to the next multiple of
-- the number, or stays where it is one.
pub do_align_correct :
    (ctx : AsmContext) (st st' : LineState) (step : ℕ)
    → evaluate_at ctx 0 st ≡ (0, step, st')
    → (char_at ctx.line st'.assembly.position == b',') ≡ false
    → is_active st'.if_stack ≡ true
    → 0 < st'.assembly.assembly_pointer
    → 0 < step
    → st'.assembly.assembly_pointer + step < 2 ^ 32
    → ((do_align ctx st).1.assembly.assembly_pointer % step ≡ 0)
      × (st'.assembly.assembly_pointer ≤ (do_align ctx st).1.assembly.assembly_pointer)
      × ((do_align ctx st).1.assembly.assembly_pointer < st'.assembly.assembly_pointer + step)
unfolding do_align
do_align_correct ctx st st' step value no_fill active real some_step small =
    let p = st'.assembly.assembly_pointer in
    let gap = align_gap p step in
    let (multiple, less, stays) =
      align_gap_correct p step real some_step (omega arith) (omega arith) in
    let there = align_to-pointer ctx st' step no_fill active in
    let sum : add32 p gap ≡ p + gap = omega arith in
    rw value (rw (there, sum) (multiple, omega arith, omega arith))
