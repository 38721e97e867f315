-- ===== src/Asm/Expression/Correct.antt =====
-- Evaluation gives the value of the expression that the line spells.
use riscy_os.Base.{
  ℕ, suc, ◌+◌, ◌-◌, ◌≤◌, ◌<◌, ◌≡◌, refl, Bool, true, false, ◌&&◌, ◌||◌, some, List, [], ◌∷◌, arith,
  ltb, leb,
}
use riscy_os.Asm.Operators.{Operator, closebr, end_op, priority}
use riscy_os.Asm.Evaluate.{operate}
use riscy_os.Asm.Variable.{EvalScope, Unary, get_variable, operand_value}
use riscy_os.Asm.Expression.{
  Entry, marker, frame, cells, top, EvalState, apply_unary, reduce, finish, again, check_error,
  after_reduce, settle_with, mathstack_size, returned, settle, note_operand, go_on, close_bracket,
  after_bracket, operand_round, eval_inner, evaluate,
}
use riscy_os.Asm.Expression.Grammar.{
  Expr, leaf, paren, node, expr_value, NoDivByZero, rank, IsGrouped, depth, rounds, OperatorAt,
  Spells, operand, bracket, binary,
}

reduce_none : (p v : ℕ) (s : List Entry) → top s < p → reduce p s v ≡ (v, s, false)
unfolding reduce
reduce_none p v [] h = refl
reduce_none p v (marker q ∷ s) h = refl
reduce_none p v (frame a op q ∷ s) h = let e : leb p q ≡ false = ground arith in rw e

reduce_one :
    (p a v : ℕ) (op : Operator) (s : List Entry)
    → p ≤ priority op
    → 1 < priority op
    → (operate op a v).1 ≡ false
    → reduce p (frame a op (priority op) ∷ s) v ≡ reduce p s (operate op a v).0
unfolding reduce
reduce_one p a v op s le real fine =
    let e : (leb p (priority op) && ltb 1 (priority op)) ≡ true = ground arith in rw (e, fine)

or-false : (b : Bool) → (b || false) ≡ b
or-false true = refl
or-false false = refl

one_below-rank : (e : Expr) → IsGrouped e → 1 < rank e
one_below-rank (leaf u v) ok = omega arith
one_below-rank (paren u e) ok = omega arith
one_below-rank (node op l r) ok = ok.0

module _ (sc : EvalScope) (line : List ℕ) (noted count : ℕ) (dz : Bool) where
  -- A state with no error.
  abbrev at : (pos : ℕ) → List Entry → EvalState
  at p s = record {
    pos = p;
    stack = s;
    error = 0;
    first_error = noted;
    undefined_count = count;
    div_zero = dz;
  }

  eval-leaf :
      (k p q v : ℕ) (u : Unary) (s : List Entry)
      → get_variable sc line p ≡ (u, operand_value v q)
      → eval_inner sc line (suc k) (at p s)
        ≡ go_on (eval_inner sc line k) (settle sc line (apply_unary u v) (at q s))
  unfolding eval_inner note_operand operand_round
  eval-leaf k p q v u s h = rw h

  eval-bracket :
      (k p q : ℕ) (u : Unary) (s : List Entry)
      → get_variable sc line p ≡ (u, record (operand_value 0 q) { bracket = true })
      → eval_inner sc line (suc k) (at p s)
        ≡ after_bracket sc line
            (eval_inner sc line k)
            u
            (eval_inner sc line k (at q (marker 1 ∷ s)))
  unfolding eval_inner note_operand operand_round
  eval-bracket k p q u s h = rw h

  settle-OperatorAt :
      (o : Operator) (q r v : ℕ) (s : List Entry)
      → OperatorAt sc line o q r
      → settle sc line v (at q s) ≡ settle_with (some (o, priority o)) v (at r s)
  unfolding settle
  settle-OperatorAt o q r v s (moved, read, to) = rw (read, to)

  settle_push :
      (o : Operator) (r v : ℕ) (s : List Entry)
      → 1 < priority o
      → top s < priority o
      → cells s + 3 ≤ 20
      → settle_with (some (o, priority o)) v (at r s) ≡ again (at r (frame v o (priority o) ∷ s))
  unfolding settle_with after_reduce check_error
  settle_push o r v s real higher room =
      let a : leb (priority o) 1 ≡ false = ground arith in
      let b : leb (cells s + 3) 20 ≡ true = ground arith in
      rw (reduce_none (priority o) v s higher, a, b, or-false dz)

  settle_reduce :
      (o op : Operator) (r a v : ℕ) (s : List Entry)
      → priority o ≤ priority op
      → 1 < priority op
      → (operate op a v).1 ≡ false
      → settle_with (some (o, priority o)) v (at r (frame a op (priority op) ∷ s))
        ≡ settle_with (some (o, priority o)) (operate op a v).0 (at r s)
  unfolding settle_with
  settle_reduce o op r a v s le real fine = rw (reduce_one (priority o) a v op s le real fine)

  settle_close :
      (r v : ℕ) (s : List Entry)
      → settle_with (some (closebr, priority closebr)) v (at r (marker 1 ∷ s)) ≡ finish v (at r s)
  unfolding settle_with after_reduce check_error reduce priority
  settle_close r v s = rw (or-false dz)

  settle_end :
      (r v : ℕ)
      → settle_with (some (end_op, priority end_op)) v (at r (marker 0 ∷ [])) ≡ finish v (at r [])
  unfolding settle_with after_reduce check_error reduce priority
  settle_end r v = rw (or-false dz)

  -- `eval_inner` goes on, after the rounds of the expression, at the operator behind it.
  abbrev Reaches : (e : Expr) → (p q k : ℕ) → List Entry → Type 0
  Reaches e p q k s =
      (k' : ℕ) × (k ≤ k')
      × (eval_inner sc line (rounds e + k) (at p s)
          ≡ go_on (eval_inner sc line k') (settle sc line (expr_value e) (at q s)))

  reach-node :
      (op o : Operator) (l r : Expr) (p q t u w k : ℕ) (s : List Entry)
      → 1 < priority op
      → top s < priority op
      → cells s + 3 ≤ 20
      → (operate op (expr_value l) (expr_value r)).1 ≡ false
      → priority o ≤ priority op
      → OperatorAt sc line op q t
      → OperatorAt sc line o u w
      → Reaches l p q (rounds r + k) s
      → ((j : ℕ) → Reaches r t u j (frame (expr_value l) op (priority op) ∷ s))
      → Reaches (node op l r) p u k s
  unfolding expr_value go_on
  reach-node op o l r p q t u w k s real higher room fine le at_op at_o (k1, le1, left) right =
      let (k2, le2, e2) = right (k1 - rounds r) in
      let sum : rounds l + rounds r + k ≡ rounds l + (rounds r + k) = omega arith in
      let back : rounds r + (k1 - rounds r) ≡ k1 = omega arith in
      let step = rw back at e2 in
      let in_left = settle-OperatorAt op q t (expr_value l) s at_op in
      let in_right =
        settle-OperatorAt o u w (expr_value r) (frame (expr_value l) op (priority op) ∷ s) at_o in
      let after = settle-OperatorAt o u w (operate op (expr_value l) (expr_value r)).0 s at_o in
      let pushed = settle_push op t (expr_value l) s real higher room in
      let reduced = settle_reduce o op w (expr_value l) (expr_value r) s le real fine in
      (k2, omega arith, rw (sum, left, in_left, pushed, step, in_right, reduced, after))

  eval-Spells :
      {e : Expr} {p q : ℕ}
      → Spells sc line e p q
      → (s : List Entry) (o : Operator) (r k : ℕ) → NoDivByZero e
      → IsGrouped e
      → top s < rank e
      → cells s + depth e ≤ 20
      → OperatorAt sc line o q r
      → priority o ≤ rank e
      → Reaches e p q k s
  unfolding go_on close_bracket after_bracket expr_value
  eval-Spells (operand {u} {v} {p} {q} read) st o z k fine ok higher room at_o le =
      let one : 1 + k ≡ suc k = omega arith in
      (k, omega arith, rw one (eval-leaf k p q v u st read))
  eval-Spells (bracket {u} {e} {p} {q} {r} {s} read inner close) st o z k fine ok higher room at_o
        le =
      let (k1, le1, ran) =
        eval-Spells inner (marker 1 ∷ st) closebr s k fine ok (one_below-rank e ok) (omega arith)
          close (unfold priority in omega (arith, one_below-rank e ok)) in
      let one : 1 + rounds e + k ≡ suc (rounds e + k) = omega arith in
      let first = eval-bracket (rounds e + k) p q u st read in
      let closed = settle-OperatorAt closebr r s (expr_value e) (marker 1 ∷ st) close in
      let done = settle_close s (expr_value e) st in
      (rounds e + k, omega arith, rw (one, first, ran, closed, done))
  eval-Spells (binary {op} {l} {r} {p} {q} {s} {t} left at_op right) st o z k (fl, fr, fine)
        (real, lel, ltr, okl, okr) higher room at_o le =
      let a : cells st + depth l ≤ 20 = ground arith in
      let b : cells st + 3 + depth r ≤ 20 = ground arith in
      reach-node op o l r p q s t z k st real higher (omega arith) fine le at_op at_o
        (eval-Spells left st op s (rounds r + k) fl okl (omega arith) a at_op lel)
        (λ (j : ℕ).
          eval-Spells right (frame (expr_value l) op (priority op) ∷ st) o z j fr okr ltr
            (omega arith) at_o (omega arith))

-- A line that spells an expression up to an end: where no operator divides by zero, where operators
-- of one priority group to the left and a higher priority binds first, and where the stack is not
-- needed above 20 cells, `evaluate` returns no error, the value of the tree, and the position behind
-- the end; one round for each operand and each bracket is enough.
pub evaluate-Spells :
    (sc : EvalScope) (line : List ℕ) (fuel : ℕ)
    → {e : Expr} {p q r : ℕ} → Spells sc line e p q
    → OperatorAt sc line end_op q r
    → NoDivByZero e
    → IsGrouped e
    → 1 + depth e ≤ mathstack_size
    → rounds e ≤ fuel
    → evaluate sc line fuel p
      ≡ some (
        0,
        expr_value e,
        record {
          pos = r;
          stack = [];
          error = 0;
          first_error = 0;
          undefined_count = 0;
          div_zero = false;
        },
      )
unfolding evaluate go_on returned
evaluate-Spells sc line fuel {e} {p} {q} {r} spelled ends fine ok room enough =
    let (k, le, ran) =
      eval-Spells sc line 0 0 false spelled (marker 0 ∷ []) end_op r (fuel - rounds e) fine ok
        (omega (arith, one_below-rank e ok)) room ends (unfold priority in omega arith) in
    let all : rounds e + (fuel - rounds e) ≡ fuel = omega arith in
    let run = rw all at ran in
    let last = settle-OperatorAt sc line 0 0 false end_op q r (expr_value e) (marker 0 ∷ []) ends in
    rw (run, last, settle_end sc line 0 0 false r (expr_value e))
