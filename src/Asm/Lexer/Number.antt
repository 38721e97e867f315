-- ===== src/Asm/Lexer/Number.antt =====
-- Numbers that are written out are read back.
use riscy_os.Base.{
  ℕ, zero, suc, ◌+◌, ◌*◌, ◌/◌, ◌%◌, ◌≤◌, ◌<◌, ◌≡◌, refl, sym, ap, ◌∙◌, ◌≢◌, Bool, true, false, ◌||◌,
  none, some, List, [], ◌∷◌, ◌++◌, arith, ltb, ◌==◌, if◌then◌else◌, length, u32_mod,
}
use mathlib.Core.Path.{subst}
use native.Mathlib.Nat.{mod-add-div, add-mul-mod_self_left}
use riscy_os.Asm.Lexer.{drop_chars, skip_spc, digit_value, Num, num_loop, get_num}

-- The character of a digit, a letter from ten on.
abbrev pub digit_char : (lower_case : Bool) → ℕ → ℕ
digit_char lower d = if ltb d 10 then 48 + d else if lower then 87 + d else 55 + d

digit_value-digit_char :
    (radix d : ℕ) (lower : Bool)
    → radix ≤ 36
    → d < radix
    → digit_value radix (digit_char lower d) ≡ some d
unfolding digit_value
digit_value-digit_char radix d true h l = ground arith
digit_value-digit_char radix d false h l = ground arith

-- Digits as they are written, each with the case of its letter.
abbrev pub render : List (Bool × ℕ) → List ℕ
render [] = []
render (d ∷ ds) = digit_char d.0 d.1 ∷ render ds

-- The number that digits behind a number stand for.
abbrev pub number : (radix start : ℕ) → List (Bool × ℕ) → ℕ
number radix v [] = v
number radix v (d ∷ ds) = number radix (v * radix + d.1) ds

abbrev pub AllBelow : (radix : ℕ) → List (Bool × ℕ) → Type 0
AllBelow radix [] = Unit
AllBelow radix (d ∷ ds) = (d.1 < radix) × AllBelow radix ds

-- The line goes on with no digit and no underscore.
abbrev pub Ends : (radix : ℕ) → List ℕ → Type 0
Ends radix [] = Unit
Ends radix (c ∷ cs) = (c ≢ 95) × (digit_value radix c ≡ none)

abbrev pub blanks : ℕ → List ℕ
blanks zero = []
blanks (suc k) = 32 ∷ blanks k

wraps : (v radix d : ℕ) → (v % u32_mod * radix + d) % u32_mod ≡ (v * radix + d) % u32_mod
wraps v radix d =
    let q = v / u32_mod in
    let w = v % u32_mod in
    let e : w + u32_mod * q ≡ v = mod-add-div v u32_mod in
    let l : (w + u32_mod * q) * radix + d ≡ w * radix + d + u32_mod * (q * radix) = grind arith in
    let back : w * radix + d + u32_mod * (q * radix) ≡ v * radix + d =
      sym l ∙ ap (λ (k : ℕ). k * radix + d) e in
    subst (λ (k : ℕ). (w * radix + d) % u32_mod ≡ k % u32_mod) back
      (sym (add-mul-mod_self_left (w * radix + d) u32_mod (q * radix)))

digit_char-other :
    (radix d : ℕ) (lower : Bool) → radix ≤ 36 → d < radix → digit_char lower d == 95 ≡ false
digit_char-other radix d true h l = ground arith
digit_char-other radix d false h l = ground arith

num_loop-Ends : (radix : ℕ) (rest : List ℕ) (n : Num) → Ends radix rest → num_loop radix rest n ≡ n
unfolding num_loop
num_loop-Ends radix [] n e = refl
num_loop-Ends radix (c ∷ cs) n e =
    let other : (c == 95) ≡ false = ground (arith, e.0) in rw (other, e.1) refl

num_loop-render :
    (radix : ℕ) (ds : List (Bool × ℕ)) (rest : List ℕ) (i v : ℕ)
    → radix ≤ 36
    → AllBelow radix ds
    → Ends radix rest
    → num_loop radix
        (render ds ++ rest)
        (record { chars_read = i; value = v % u32_mod; found = true })
      ≡ record { chars_read = i + length ds; value = number radix v ds % u32_mod; found = true }
unfolding num_loop
num_loop-render radix [] rest i v h a e =
    let at : i + 0 ≡ i = omega arith in rw at (num_loop-Ends radix rest _ e)
num_loop-render radix (d ∷ ds) rest i v h a e =
    let at : i + 1 + length ds ≡ i + suc (length ds) = omega arith in
    rw
      (
        digit_char-other radix d.1 d.0 h a.0,
        digit_value-digit_char radix d.1 d.0 h a.0,
        wraps v radix d.1,
        num_loop-render radix ds rest (i + 1) (v * radix + d.1) h a.1 e,
      )
      (rw at refl)

drop-blanks : (k : ℕ) (cs : List ℕ) → drop_chars k (blanks k ++ cs) ≡ cs
unfolding drop_chars
drop-blanks zero cs = refl
drop-blanks (suc k) cs = drop-blanks k cs

digit_char-blank :
    (radix d : ℕ) (lower : Bool)
    → radix ≤ 36
    → d < radix
    → (digit_char lower d == 32 || digit_char lower d == 9) ≡ false
digit_char-blank radix d true h l = ground arith
digit_char-blank radix d false h l = ground arith

skip_spc-blanks :
    (k c : ℕ) (cs : List ℕ) → (c == 32 || c == 9) ≡ false → skip_spc (blanks k ++ c ∷ cs) ≡ k
unfolding skip_spc
skip_spc-blanks zero c cs h = rw h refl
skip_spc-blanks (suc k) c cs h = rw (skip_spc-blanks k c cs h) (omega arith)

-- A number of any radix up to 36 that is written with at least one digit, behind any blanks and
-- with letters of either case, is read as its value modulo 2 ^ 32, and the position moves behind
-- its last digit, if what follows is no digit of the radix and no underscore.
pub get_num-render :
    (radix k : ℕ) (d : Bool × ℕ) (ds : List (Bool × ℕ)) (rest : List ℕ)
    → radix ≤ 36
    → AllBelow radix (d ∷ ds)
    → Ends radix rest
    → get_num (blanks k ++ (render (d ∷ ds) ++ rest)) radix
      ≡ (true, k + length (d ∷ ds), number radix 0 (d ∷ ds) % u32_mod)
unfolding get_num num_loop
get_num-render radix k d ds rest h a e =
    let cs = render ds ++ rest in
    let value : (0 * radix + d.1) % u32_mod ≡ d.1 % u32_mod = omega arith in
    let at : k + 1 + length ds ≡ k + suc (length ds) = omega arith in
    rw
      (
        skip_spc-blanks k (digit_char d.0 d.1) cs (digit_char-blank radix d.1 d.0 h a.0),
        drop-blanks k (digit_char d.0 d.1 ∷ cs),
        digit_char-other radix d.1 d.0 h a.0,
        digit_value-digit_char radix d.1 d.0 h a.0,
        num_loop-render radix ds rest (k + 1) (0 * radix + d.1) h a.1 e,
      )
      (rw at refl)
