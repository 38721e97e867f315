-- ===== src/Asm/Expression/Grammar.antt =====
-- Expressions as trees, the trees that priorities and left association call for, and what it means
-- that a line spells one.
use riscy_os.Base.{ℕ, ◌+◌, ◌≤◌, ◌<◌, ◌≡◌, true, false, some, List, leb, if◌then◌else◌}
use riscy_os.Asm.Lexer.{drop_chars}
use riscy_os.Asm.Operators.{Operator, closebr, priority, get_operator}
use riscy_os.Asm.Evaluate.{operate}
use riscy_os.Asm.Variable.{EvalScope, Unary, get_variable, operand_value}
use riscy_os.Asm.Expression.{apply_unary}

pub data Expr : Type 0 where
  leaf : Unary → (value : ℕ) → Expr
  paren : Unary → Expr → Expr
  node : Operator → Expr → Expr → Expr

unfoldable pub expr_value : Expr → ℕ
expr_value (leaf u v) = apply_unary u v
expr_value (paren u e) = apply_unary u (expr_value e)
expr_value (node op l r) = (operate op (expr_value l) (expr_value r)).0

-- No operator divides by zero.
abbrev pub NoDivByZero : Expr → Type 0
NoDivByZero (leaf u v) = Unit
NoDivByZero (paren u e) = NoDivByZero e
NoDivByZero (node op l r) =
    NoDivByZero l × NoDivByZero r × ((operate op (expr_value l) (expr_value r)).1 ≡ false)

-- How tightly the root binds; 8 is above all priorities.
abbrev pub rank : Expr → ℕ
rank (leaf u v) = 8
rank (paren u e) = 8
rank (node op l r) = priority op

-- The left operand binds at least as tightly as its operator, the right one more tightly.
abbrev pub IsGrouped : Expr → Type 0
IsGrouped (leaf u v) = Unit
IsGrouped (paren u e) = IsGrouped e
IsGrouped (node op l r) =
    (1 < priority op) × (priority op ≤ rank l) × (priority op < rank r) × IsGrouped l × IsGrouped r

abbrev max : ℕ → ℕ → ℕ
max a b = if leb a b then b else a

-- The cells of the stack that evaluation takes.
abbrev pub depth : Expr → ℕ
depth (leaf u v) = 0
depth (paren u e) = 1 + depth e
depth (node op l r) = max (depth l) (3 + depth r)

-- The rounds that evaluation takes.
abbrev pub rounds : Expr → ℕ
rounds (leaf u v) = 1
rounds (paren u e) = 1 + rounds e
rounds (node op l r) = rounds l + rounds r

module _ (sc : EvalScope) (line : List ℕ) where
  -- The operator at a position: it is read, and the line goes on at the second one.
  abbrev pub OperatorAt : Operator → (p q : ℕ) → Type 0
  OperatorAt op p q =
      (moved : ℕ) × (get_operator (drop_chars p line) sc.operator_table
        ≡ (moved, some (op, priority op)))
      × (p + moved ≡ q)

  -- The line spells the expression from a position up to another one.
  pub data Spells : Expr → (p q : ℕ) → Type 0 where
    operand :
        {u : Unary} {v p q : ℕ}
        → get_variable sc line p ≡ (u, operand_value v q)
        → Spells (leaf u v) p q
    bracket :
        {u : Unary} {e : Expr} {p q r s : ℕ}
        → get_variable sc line p ≡ (u, record (operand_value 0 q) { bracket = true })
        → Spells e q r
        → OperatorAt closebr r s
        → Spells (paren u e) p s
    binary :
        {op : Operator} {l r : Expr} {p q s t : ℕ}
        → Spells l p q
        → OperatorAt op q s
        → Spells r s t
        → Spells (node op l r) p t
