-- ===== src/Asm/Expression.antt =====
-- `evaluate` of tools/assembler/rva.c. Its stack holds a marker for each open expression and a frame
-- for each operator that waits for its right operand; in the C code these are one and three cells of
-- an array of 20. The model's stack has no end, so that an unchecked marker is always pushed.
pub mod Grammar
pub mod Correct
pub mod Total
mod Tests
use Prim.Native.Nat.{bit_and, bit_or}
use riscy_os.Base.{
  ℕ, zero, suc, ◌+◌, ◌-◌, ◌*◌, ◌/◌, ◌%◌, ◌≡◌, Bool, true, false, not, ◌&&◌, ◌||◌, Option, none,
  some, List, [], ◌∷◌, ◌++◌, arith, ltb, leb, ◌==◌, if◌then◌else◌, length, get_or, u32_mod, add32,
  sub32,
}
use riscy_os.Asm.Lexer.{drop_chars}
use riscy_os.Asm.Operators.{Operator, priority, get_operator}
use riscy_os.Asm.Evaluate.{operate}
use riscy_os.Asm.Variable.{
  EvalScope, Unary, keep, negate, complement, log_2, Operand, get_variable, all_except_last_pass,
  eval_no_operator, eval_not_closebr, eval_not_openbr, eval_mathstack_limit, eval_div_by_zero,
}

abbrev pub mathstack_size : ℕ
mathstack_size = 20

pub data Entry : Type 0 where
  marker : (priority : ℕ) → Entry
  frame : (left : ℕ) → Operator → (priority : ℕ) → Entry

-- math_SP
abbrev pub cells : List Entry → ℕ
cells [] = 0
cells (marker p ∷ s) = 1 + cells s
cells (frame a op p ∷ s) = 3 + cells s

-- math_stack[math_SP - 1]
abbrev pub top : List Entry → ℕ
top [] = 0
top (marker p ∷ s) = p
top (frame a op p ∷ s) = p

-- The variables that the nested calls share.
pub record EvalState : Type 0 where
  pub pos : ℕ
  pub stack : List Entry
  pub error : ℕ
  pub first_error : ℕ
  pub undefined_count : ℕ
  pub div_zero : Bool

-- The loop of LOG, from -1 on, for the bits that are left.
unfoldable pub log_from : (bits i operand : ℕ) → ℕ
log_from zero i operand = operand
log_from (suc k) i operand =
    let more = log_from k (i / 2) (add32 operand 1) in if i == 0 then operand else more

unfoldable pub apply_unary : Unary → ℕ → ℕ
unfolding log_from
apply_unary keep v = v
apply_unary negate v = sub32 0 v
apply_unary complement v = sub32 (u32_mod - 1) v
apply_unary log_2 v = log_from 32 v (u32_mod - 1)

-- The operators on the stack that bind at least as tightly as the next one are carried out: the
-- operand, the stack, and whether there was a division by zero.
unfoldable pub reduce : (next_priority : ℕ) → List Entry → (operand : ℕ) → ℕ × List Entry × Bool
reduce p [] v = (v, [], false)
reduce p (marker q ∷ s) v = (v, marker q ∷ s, false)
reduce p (frame a op q ∷ s) v =
    let done = operate op a v in
    let rest = reduce p s done.0 in
    if leb p q && ltb 1 q then (rest.0, rest.1, done.1 || rest.2) else (v, frame a op q ∷ s, false)

-- How a round of the loop ends.
pub data Next : Type 0 where
  finish : (value : ℕ) → EvalState → Next
  again : EvalState → Next

-- The end of a round: an error stops the loop, with the position put into its code.
unfoldable pub check_error : (value : ℕ) → EvalState → (done : Bool) → Next
check_error v st done =
    if st.error == 0
    then (if done then finish v st else again st)
    else if st.error == eval_not_openbr
    then finish v (record st { error = bit_or st.error (st.pos - 1) })
    else if st.error == eval_div_by_zero
    then finish v st
    else finish v (record st { error = bit_or st.error st.pos })

-- What is done with the next operator once the stack is reduced: a frame is pushed, or a marker of
-- the same kind of end is taken off.
unfoldable pub after_reduce : Operator → (operand : ℕ) → EvalState → Next
unfolding check_error
after_reduce op v st =
    let p = priority op in
    if leb p 1
    then (if p == top st.stack
        then check_error v (record st { stack = elim st.stack [ [] ↦ [] | e ∷ s ↦ s ] }) true
        else if p == 0
        then check_error v (record st { error = eval_not_closebr }) true
        else check_error v (record st { error = eval_not_openbr }) true)
    else if leb (cells st.stack + 3) mathstack_size
    then check_error v (record st { stack = frame v op p ∷ st.stack }) false
    else check_error v (record st { error = eval_mathstack_limit }) false

-- The round from its operand on: reading the next operator, and reducing the stack. A division by
-- zero is an error if none was noted before.
unfoldable pub settle_with : Option (Operator × ℕ) → (operand : ℕ) → EvalState → Next
unfolding check_error
settle_with none v st = check_error v (record st { error = eval_no_operator }) false
settle_with (some (op, p)) v st =
    let r = reduce p st.stack v in
    let st' = record st {
      stack = r.1;
      error = if r.2 && st.first_error == 0 then eval_div_by_zero else st.error;
      div_zero = st.div_zero || r.2;
    } in
    after_reduce op r.0 st'

-- What follows on the end of a round, where `rounds` goes on with the loop.
unfoldable pub go_on : (rounds : EvalState → Option (ℕ × EvalState)) → Next → Option (ℕ × EvalState)
go_on rounds (finish v st) = some (v, st)
go_on rounds (again st) = rounds st

abbrev pub start_at : (pos : ℕ) → EvalState
start_at pos = record {
  pos = pos;
  stack = marker 0 ∷ [];
  error = 0;
  first_error = 0;
  undefined_count = 0;
  div_zero = false;
}

-- A later error wins over one that was passed over.
unfoldable pub returned : Option (ℕ × EvalState) → Option (ℕ × ℕ × EvalState)
returned none = none
returned (some (v, last)) = some (if last.error == 0 then last.first_error else last.error, v, last)

module _ (sc : EvalScope) (line : List ℕ) where
  unfoldable pub settle : (operand : ℕ) → EvalState → Next
  unfolding settle_with
  settle v st =
      let next = get_operator (drop_chars st.pos line) sc.operator_table in
      settle_with next.1 v (record st { pos = st.pos + next.0 })

  -- The state once an operand is read: an error that is not fatal is noted, and passed over.
  unfoldable pub note_operand : EvalState → Operand → EvalState
  note_operand st found =
      let later = not (bit_and found.status all_except_last_pass == 0) in
      record st {
        pos = found.next;
        error = if later then 0 else found.status;
        first_error = if later && st.first_error == 0 then found.status else st.first_error;
        undefined_count = if found.undefined then st.undefined_count + 1 else st.undefined_count;
      }

  -- What a round does with a bracket, once the nested call has returned.
  unfoldable pub close_bracket : Unary → (value : ℕ) → EvalState → Next
  close_bracket unary v st =
      if st.error == 0 then settle (apply_unary unary v) st else check_error v st true

  unfoldable pub after_bracket :
      (rounds : EvalState → Option (ℕ × EvalState))
      → Unary
      → Option (ℕ × EvalState)
      → Option (ℕ × EvalState)
  after_bracket rounds unary none = none
  after_bracket rounds unary (some (v, st)) = go_on rounds (close_bracket unary v st)

  -- The round, once its operand is read and the state is noted.
  unfoldable pub operand_round :
      (rounds : EvalState → Option (ℕ × EvalState))
      → Unary
      → Operand
      → EvalState
      → Option (ℕ × EvalState)
  operand_round rounds unary found st =
      if not (st.error == 0)
      then go_on rounds (check_error found.value st true)
      else if found.bracket
      then after_bracket rounds unary (rounds (record st { stack = marker 1 ∷ st.stack }))
      else go_on rounds (settle (apply_unary unary found.value) st)

  -- `Eval_inner` on a stack with its marker on top: one unit of fuel for each round. `none` is that
  -- fuel ran out.
  unfoldable pub eval_inner : (fuel : ℕ) → EvalState → Option (ℕ × EvalState)
  unfolding operand_round
  eval_inner zero st = none
  eval_inner (suc fuel) st =
      let (unary, found) = get_variable sc line st.pos in
      operand_round (eval_inner fuel) unary found (note_operand st found)

  -- What `evaluate` returns: the error code, and `*value`, `*pos` with the two global variables.
  unfoldable pub evaluate : (fuel pos : ℕ) → Option (ℕ × ℕ × EvalState)
  unfolding eval_inner returned
  evaluate fuel pos = returned (eval_inner fuel (start_at pos))
