-- ===== src/Asm/Encode/Keeps.antt =====
-- Parsers that set up no additional instruction.
use riscy_os.Base.{
  ℕ, ◌+◌, ◌≡◌, refl, ◌∙◌, inl, inr, Bool, true, false, Option, none, some, ◌==◌, if◌then◌else◌,
  Bool-cases, length,
}
use riscy_os.Asm.Encode.{
  AsmContext, Cursor, Parsed, parsed, failed, Parser, then_parse, ◌>>=◌, fail, fail_at, checked,
  get_reg, need_reg, next_is, need, reg_comma, after_evaluate, evaluated,
}
use riscy_os.Asm.Expression.{EvalState, evaluate}

abbrev pub prefix_of {ℓ} : {A : Type ℓ} → Parsed A → ℕ
prefix_of (parsed a c) = c.prefix
prefix_of (failed e c) = c.prefix

pub record Keeps {ℓ} {A : Type ℓ} (p : Parser A) : Type 0 where
  pub kept : (c : Cursor) → prefix_of (p c) ≡ c.prefix

then_parse-Keeps {ℓ κ} :
    {A : Type ℓ} {B : Type κ} (r : Parsed A) (f : A → Parser B)
    → ((a : A) → Keeps (f a))
    → prefix_of (then_parse r f) ≡ prefix_of r
then_parse-Keeps (parsed a c) f keeps = (keeps a).kept c
then_parse-Keeps (failed e c) f keeps = refl

pub bind-Keeps {ℓ κ} :
    {A : Type ℓ} {B : Type κ} {p : Parser A} {f : A → Parser B}
    → Keeps p
    → ((a : A) → Keeps (f a))
    → Keeps (p >>= f)
bind-Keeps {p} {f} first rest = record { kept = λ c. then_parse-Keeps (p c) f rest ∙ first.kept c }

pub parsed-Keeps {ℓ} : {A : Type ℓ} {a : A} → Keeps (parsed a)
parsed-Keeps = record { kept = λ c. refl }

pub if-Keeps {ℓ} :
    {A : Type ℓ} (b : Bool) {p q : Parser A} → Keeps p → Keeps q → Keeps (if b then p else q)
if-Keeps true kp kq = kp
if-Keeps false kp kq = kq

pub fail-Keeps {ℓ} : {A : Type ℓ} (e : ℕ) → Keeps (fail {A = A} e)
fail-Keeps e = record { kept = λ c. refl }

pub fail_at-Keeps {ℓ} : {A : Type ℓ} (e : ℕ) → Keeps (fail_at {A = A} e)
fail_at-Keeps e = record { kept = λ c. refl }

pub checked-Keeps {ℓ} : {A : Type ℓ} (e : ℕ) (a : A) → Keeps (checked e a)
checked-Keeps e a = record {
  kept = λ c. elim (Bool-cases (e == 0)) [ inl h ↦ rw h refl | inr h ↦ rw h refl ];
}

pub get_reg-Keeps : (ctx : AsmContext) → Keeps (get_reg ctx)
unfolding get_reg
get_reg-Keeps ctx = record { kept = λ c. refl }

pub next_is-Keeps : (ctx : AsmContext) (char : ℕ) → Keeps (next_is ctx char)
unfolding next_is
next_is-Keeps ctx char = record { kept = λ c. refl }

after_evaluate-prefix :
    (ctx : AsmContext) (r : Option (ℕ × ℕ × EvalState)) (c : Cursor)
    → prefix_of (after_evaluate ctx r c) ≡ c.prefix
unfolding after_evaluate
after_evaluate-prefix ctx none c = refl
after_evaluate-prefix ctx (some (e, v, last)) c = refl

pub evaluated-Keeps : (ctx : AsmContext) → Keeps (evaluated ctx)
unfolding evaluated
evaluated-Keeps ctx = record {
  kept = λ c.
      after_evaluate-prefix ctx (evaluate ctx.scope ctx.line (1 + length ctx.line) c.position) c;
}

found-Keeps :
    (e : ℕ) (o : Option ℕ)
    → Keeps (elim o as (λ x. Parser ℕ) [ none ↦ fail_at e | some r ↦ parsed r ])
found-Keeps e none = fail_at-Keeps e
found-Keeps e (some r) = parsed-Keeps

pub need_reg-Keeps : (ctx : AsmContext) (e : ℕ) → Keeps (need_reg ctx e)
unfolding need_reg
need_reg-Keeps ctx e = bind-Keeps {p = get_reg ctx} (get_reg-Keeps ctx) (found-Keeps e)

pub need-Keeps : (ctx : AsmContext) (char e : ℕ) → Keeps (need ctx char e)
unfolding need
need-Keeps ctx char e = search (bind-Keeps, parsed-Keeps, if-Keeps, fail_at-Keeps, next_is-Keeps)

pub reg_comma-Keeps : (ctx : AsmContext) → Keeps (reg_comma ctx)
unfolding reg_comma
reg_comma-Keeps ctx = search (bind-Keeps, parsed-Keeps, need_reg-Keeps, need-Keeps)

pub ruleset keeps_rules = (
  bind-Keeps, parsed-Keeps, if-Keeps, fail-Keeps, fail_at-Keeps, checked-Keeps, get_reg-Keeps,
  next_is-Keeps, evaluated-Keeps, need_reg-Keeps, need-Keeps, reg_comma-Keeps,
)
