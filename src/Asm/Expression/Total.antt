-- ===== src/Asm/Expression/Total.antt =====
-- Every evaluation ends: a round of `eval_inner` that goes on takes characters from the line.
use riscy_os.Base.{
  ℕ, zero, suc, ◌+◌, ◌≤◌, ◌<◌, ◌≡◌, refl, sym, ◌∙◌, inl, inr, Bool, true, false, ◌&&◌, ◌||◌, Option,
  none, some, List, ◌∷◌, arith, ◌==◌, if◌then◌else◌, Bool-cases, length,
}
use riscy_os.Asm.Lexer.{drop_chars}
use riscy_os.Asm.Operators.{Operator, get_operator}
use riscy_os.Asm.Variable.{
  EvalScope, Unary, Operand, eval_no_operator, eval_div_by_zero, goes_on, get_variable,
}
use riscy_os.Asm.Variable.Advance.{get_variable-moves, get_variable-stays, get_variable-end}
use riscy_os.Asm.Expression.{
  marker, EvalState, apply_unary, reduce, Next, finish, again, check_error, after_reduce,
  settle_with, settle, note_operand, go_on, close_bracket, after_bracket, operand_round, eval_inner,
  evaluate, start_at, returned,
}

abbrev state_of : Next → EvalState
state_of (finish v st) = st
state_of (again st) = st

check_error-pos :
    (v : ℕ) (st : EvalState) (done : Bool) → (state_of (check_error v st done)).pos ≡ st.pos
unfolding check_error
check_error-pos v st done = ground arith

check_error-done :
    (v : ℕ) (st : EvalState)
    → (last : EvalState) × (check_error v st true ≡ finish v last) × (last.pos ≡ st.pos)
unfolding check_error
check_error-done v st = (state_of (check_error v st true), ground arith, check_error-pos v st true)

after_reduce-pos :
    (op : Operator) (v : ℕ) (st : EvalState) → (state_of (after_reduce op v st)).pos ≡ st.pos
unfolding after_reduce check_error
after_reduce-pos op v st = ground arith

settle_with-pos :
    (o : Option (Operator × ℕ)) (v : ℕ) (st : EvalState)
    → (state_of (settle_with o v st)).pos ≡ st.pos
unfolding settle_with
settle_with-pos none v st = check_error-pos v (record st { error = eval_no_operator }) false
settle_with-pos (some (op, p)) v st =
    let r = reduce p st.stack v in
    after_reduce-pos op r.0 (record st {
      stack = r.1;
      error = if r.2 && st.first_error == 0 then eval_div_by_zero else st.error;
      div_zero = st.div_zero || r.2;
    })

settle-moves :
    (sc : EvalScope) (line : List ℕ) (v : ℕ) (st : EvalState)
    → st.pos ≤ (state_of (settle sc line v st)).pos
unfolding settle
settle-moves sc line v st =
    let next = get_operator (drop_chars st.pos line) sc.operator_table in
    omega (arith, settle_with-pos next.1 v (record st { pos = st.pos + next.0 }))

close_bracket-moves :
    (sc : EvalScope) (line : List ℕ) (u : Unary) (v : ℕ) (st : EvalState)
    → st.pos ≤ (state_of (close_bracket sc line u v st)).pos
unfolding close_bracket
close_bracket-moves sc line u v st =
    ground (arith, settle-moves sc line (apply_unary u v) st, check_error-pos v st true)

-- The call returns, at the position or behind it.
abbrev Returns : Option (ℕ × EvalState) → (p : ℕ) → Type 0
Returns r p = (out : ℕ × EvalState) × (r ≡ some out) × (p ≤ out.1.pos)

go_on-Returns :
    (rounds : EvalState → Option (ℕ × EvalState)) (n : Next) (p : ℕ)
    → p ≤ (state_of n).pos
    → ((st : EvalState) → p ≤ st.pos → Returns (rounds st) p)
    → Returns (go_on rounds n) p
unfolding go_on
go_on-Returns rounds (finish v st) p le goes = ((v, st), refl, le)
go_on-Returns rounds (again st) p le goes = goes st le

note_operand-error :
    (sc : EvalScope) (line : List ℕ) (st : EvalState) (found : Operand)
    → ((note_operand sc line st found).error == 0) ≡ goes_on found.status
unfolding note_operand
note_operand-error sc line st found = ground arith

weaken : (r : Option (ℕ × EvalState)) (p q : ℕ) → p ≤ q → Returns r q → Returns r p
weaken r p q le (out, is, at) = (out, is, omega arith)

after_bracket-Returns :
    (sc : EvalScope) (line : List ℕ) (rounds : EvalState → Option (ℕ × EvalState)) (u : Unary)
    (r : Option (ℕ × EvalState)) (p : ℕ)
    → Returns r p
    → ((st : EvalState) → p ≤ st.pos → Returns (rounds st) p)
    → Returns (after_bracket sc line rounds u r) p
unfolding after_bracket
after_bracket-Returns sc line rounds u r p ((v, last), is, at) goes =
    let le = close_bracket-moves sc line u v last in
    rw is (go_on-Returns rounds (close_bracket sc line u v last) p (omega arith) goes)

operand_round-Returns :
    (sc : EvalScope) (line : List ℕ) (rounds : EvalState → Option (ℕ × EvalState)) (u : Unary)
    (found : Operand) (st : EvalState)
    → ((st.error == 0) ≡ true
        → (next : EvalState) → st.pos ≤ next.pos
        → Returns (rounds next) st.pos)
    → Returns (operand_round sc line rounds u found st) st.pos
unfolding operand_round go_on
operand_round-Returns sc line rounds u found st goes =
    let (last, is, at) = check_error-done found.value st in
    let inner = record st { stack = marker 1 ∷ st.stack } in
    let v = apply_unary u found.value in
    elim (Bool-cases (st.error == 0)) [
      | inr bad ↦ rw (bad, is) ((found.value, last), refl, omega arith)
      | inl fine ↦ elim (Bool-cases found.bracket) [
        | inl b ↦
            rw (fine, b)
              (after_bracket-Returns sc line rounds u (rounds inner) st.pos
                (goes fine inner (omega arith)) (goes fine))
        | inr b ↦
            rw (fine, b)
              (go_on-Returns rounds (settle sc line v st) st.pos (settle-moves sc line v st)
                (goes fine))
      ]
    ]

not_at_end :
    (sc : EvalScope) (line : List ℕ) (p : ℕ)
    → goes_on (get_variable sc line p).1.status ≡ true
    → p < length line
not_at_end sc line p goes =
    let s = (get_variable sc line p).1.status in
    let at_end = get_variable-end sc line p in ground arith

eval_inner-Returns :
    (sc : EvalScope) (line : List ℕ) (fuel : ℕ) (st : EvalState)
    → 0 < fuel
    → length line < st.pos + fuel
    → Returns (eval_inner sc line fuel st) st.pos
unfolding eval_inner note_operand
eval_inner-Returns sc line zero st some_fuel enough = absurd (omega arith)
eval_inner-Returns sc line (suc fuel) st some_fuel enough =
    let unary = (get_variable sc line st.pos).0 in
    let found = (get_variable sc line st.pos).1 in
    let stays = get_variable-stays sc line st.pos in
    let noted = note_operand sc line st found in
    weaken (operand_round sc line (eval_inner sc line fuel) unary found noted) st.pos found.next
      stays
      (operand_round-Returns sc line (eval_inner sc line fuel) unary found noted
        (λ (fine : (noted.error == 0) ≡ true) (next : EvalState) (le : found.next ≤ next.pos).
          let goes : goes_on found.status ≡ true =
            sym (note_operand-error sc line st found) ∙ fine in
          let moves = get_variable-moves sc line st.pos goes in
          let inside = not_at_end sc line st.pos goes in
          weaken (eval_inner sc line fuel next) found.next next.pos le
            (eval_inner-Returns sc line fuel next (omega arith) (omega arith))))

-- `evaluate` returns on every line and from every position, with a round for each character that is
-- left and one more as fuel, and the position has not moved back.
pub evaluate-Returns :
    (sc : EvalScope) (line : List ℕ) (fuel pos : ℕ)
    → 0 < fuel
    → length line < pos + fuel
    → (error value : ℕ) × (last : EvalState) × (evaluate sc line fuel pos
        ≡ some (error, value, last))
      × (pos ≤ last.pos)
unfolding evaluate returned
evaluate-Returns sc line fuel pos some_fuel enough =
    let ((v, last), is, le) = eval_inner-Returns sc line fuel (start_at pos) some_fuel enough in
    (if last.error == 0 then last.first_error else last.error, v, last, rw is refl, le)
