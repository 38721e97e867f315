-- ===== src/Asm/Variable/Advance.antt =====
-- An operand that is read takes characters from the line, and there is none behind the line's end.
use riscy_os.Base.{
  ℕ, zero, suc, ◌+◌, ◌*◌, ◌%◌, ◌≤◌, ◌<◌, ◌≡◌, refl, ◌⊎◌, inl, inr, Bool, true, false, Option, none,
  some, List, [], ◌∷◌, arith, ◌==◌, Bool-cases, length, get_or, u32_mod,
}
use riscy_os.Asm.Symbols.{SymRecord, sym_find_label}
use riscy_os.Asm.Lexer.{skip_spc, drop_chars, get_identifier, Num, digit_value, num_loop, get_num}
use riscy_os.Asm.Variable.{
  EvalScope, line_length, keep, eval_no_operand, skip_to, unary_at, label_operand, local_operand,
  search_labels, char_operand, radix_at, number_operand, other_operand, operand_at, goes_on,
  get_variable,
}

pub Option-cases {ℓ} : {A : Type ℓ} → (o : Option A) → (o ≡ none) ⊎ (a : A) × (o ≡ some a)
Option-cases none = inl refl
Option-cases (some a) = inr (a, refl)

num_found :
    (radix : ℕ) (cs : List ℕ) (n : Num)
    → (n.found ≡ true → 0 < n.chars_read)
    → (num_loop radix cs n).found ≡ true
    → 0 < (num_loop radix cs n).chars_read
unfolding num_loop
num_found radix [] n ok = ok
num_found radix (c ∷ cs) n ok =
    let step = λ (value : ℕ) (found : Bool).
      num_found radix cs (record { chars_read = n.chars_read + 1; value = value; found = found })
        (λ h. omega arith) in
    elim (Bool-cases (c == 95)) [
      | inl e ↦ rw e (step n.value n.found)
      | inr e ↦ elim (Option-cases (digit_value radix c)) [
        | inl none_there ↦ rw (e, none_there) ok
        | inr (d, there) ↦ rw (e, there) (step ((n.value * radix + d) % u32_mod) true)
      ]
    ]

get_num-moves : (cs : List ℕ) (radix : ℕ) → (get_num cs radix).0 ≡ true → 0 < (get_num cs radix).1
unfolding get_num
get_num-moves cs radix h =
    let blanks = skip_spc cs in
    let start : Num = record { chars_read = blanks; value = 0; found = false } in
    let more = num_found radix (drop_chars blanks cs) start (λ (e : false ≡ true). cc) h in
    rw h more

label_operand-moves :
    (symbol csr : Option SymRecord) (i count : ℕ)
    → 0 < count
    → i < (label_operand symbol csr i count).next
unfolding label_operand
label_operand-moves (some r) csr i count h = ground arith
label_operand-moves none (some r) i count h = omega arith
label_operand-moves none none i count h = omega arith

local_operand-moves :
    (sc : EvalScope) (line : List ℕ) (directions i : ℕ)
    → i ≤ (local_operand sc line directions i).next
unfolding local_operand
local_operand-moves sc line directions i =
    let label = (get_num (drop_chars i line) 10).2 in
    elim (Option-cases (search_labels sc directions label)) [
      | inl e ↦ rw e (ground arith)
      | inr (v, e) ↦ rw e (ground arith)
    ]

char_operand-moves : (line : List ℕ) (i : ℕ) → i ≤ (char_operand line i).next
unfolding char_operand
char_operand-moves line i = ground arith

radix_at-moves : (line : List ℕ) (i : ℕ) → i ≤ (radix_at line i).1
unfolding radix_at
radix_at-moves line i = ground arith

number_operand-moves :
    (line : List ℕ) (i : ℕ)
    → goes_on (number_operand line i).status ≡ true
    → i < (number_operand line i).next
unfolding number_operand
number_operand-moves line i h =
    let at = (radix_at line i).1 in
    let a = get_num-moves (drop_chars at line) (radix_at line i).0 in
    let b = radix_at-moves line i in ground arith

other_operand-moves :
    (sc : EvalScope) (line : List ℕ) (i : ℕ)
    → goes_on (other_operand sc line i).status ≡ true
    → i < (other_operand sc line i).next
unfolding other_operand
other_operand-moves sc line i h = ground (
  arith,
  local_operand-moves sc line 1 (i + 2),
  local_operand-moves sc line 2 (i + 2),
  local_operand-moves sc line 3 (i + 1),
  char_operand-moves line (i + 1),
  number_operand-moves line i,
)

operand_at-moves :
    (sc : EvalScope) (line : List ℕ) (i : ℕ)
    → goes_on (operand_at sc line i).status ≡ true
    → i < (operand_at sc line i).next
unfolding operand_at
operand_at-moves sc line i h =
    let name = get_identifier (drop_chars i line) line_length in
    ground (
      arith,
      other_operand-moves sc line i,
      label_operand-moves (sym_find_label name sc.symbol_table) (sym_find_label name sc.csr_table) i
          (length name),
    )

unary_at-moves : (line : List ℕ) (i : ℕ) → i ≤ (unary_at line i).1
unfolding unary_at
unary_at-moves line i = ground arith

pub get_variable-moves :
    (sc : EvalScope) (line : List ℕ) (pos : ℕ)
    → goes_on (get_variable sc line pos).1.status ≡ true
    → pos < (get_variable sc line pos).1.next
unfolding get_variable
get_variable-moves sc line pos h =
    let start = skip_to line pos in
    let a = unary_at-moves line start in
    let b = operand_at-moves sc line (unary_at line start).1 h in rw h (omega arith)

pub get_variable-stays :
    (sc : EvalScope) (line : List ℕ) (pos : ℕ) → pos ≤ (get_variable sc line pos).1.next
unfolding get_variable
get_variable-stays sc line pos =
    let start = skip_to line pos in
    let i = (unary_at line start).1 in
    let b = operand_at-moves sc line i in
    let a = unary_at-moves line start in
    elim (Bool-cases (goes_on (operand_at sc line i).status)) [
      | inl e ↦ rw e (omega (arith, b e))
      | inr e ↦ rw e (omega arith)
    ]

drop_chars-end : (i : ℕ) (line : List ℕ) → length line ≤ i → drop_chars i line ≡ []
unfolding drop_chars
drop_chars-end zero [] h = refl
drop_chars-end zero (c ∷ cs) h = absurd (omega arith)
drop_chars-end (suc i) [] h = refl
drop_chars-end (suc i) (c ∷ cs) h = drop_chars-end i cs (omega arith)

get_or-end : (i : ℕ) (line : List ℕ) → length line ≤ i → get_or line i 0 ≡ 0
get_or-end i [] h = refl
get_or-end zero (c ∷ cs) h = absurd (omega arith)
get_or-end (suc i) (c ∷ cs) h = get_or-end i cs (omega arith)

unary_at-end : (line : List ℕ) (i : ℕ) → length line ≤ i → unary_at line i ≡ (keep, i)
unfolding unary_at
unary_at-end line i h = rw (get_or-end i line h)

operand_at-end :
    (sc : EvalScope) (line : List ℕ) (i : ℕ)
    → length line ≤ i
    → (operand_at sc line i).status ≡ eval_no_operand
unfolding operand_at other_operand number_operand radix_at get_identifier
operand_at-end sc line i h = rw (drop_chars-end i line h, get_or-end i line h)

-- Behind the line's end there is no operand.
pub get_variable-end :
    (sc : EvalScope) (line : List ℕ) (pos : ℕ)
    → length line ≤ pos
    → (get_variable sc line pos).1.status ≡ eval_no_operand
unfolding get_variable skip_spc
get_variable-end sc line pos h =
    let e : skip_to line pos ≡ pos = rw (drop_chars-end pos line h) (omega arith) in
    rw (e, unary_at-end line pos h) (operand_at-end sc line pos h)
