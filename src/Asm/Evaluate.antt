-- ===== src/Asm/Evaluate.antt =====
-- What `evaluate` of tools/assembler/rva.c does with two operands on its stack. Shift counts are
-- below 32, since C leaves others undefined.
use Prim.Native.Nat.{bit_and, bit_or, bit_xor}
use native.Mathlib.Nat.{div-add-mod'}
use riscy_os.Base.{
  ℕ, ◌+◌, ◌-◌, ◌*◌, ◌/◌, ◌%◌, ◌^◌, ◌<◌, ◌≡◌, ◌≢◌, Bool, true, false, not, arith, ltb, leb, ◌==◌,
  u32_mod, add32, sub32, if◌then◌else◌,
}
use riscy_os.Asm.Operators.{
  Operator, plus, minus, multiply, divide, modulus, closebr, left_shift, right_shift, and_op, or_op,
  xor_op, equals, not_equal, lower_than, lower_equal, higher_than, higher_equal, less_than,
  less_equal, greater_than, greater_equal, end_op,
}

-- -1 and 0 for true and false
abbrev pub truth : Bool → ℕ
truth b = if b then u32_mod - 1 else 0

-- Words in the order of the signed numbers that they stand for.
abbrev pub signed_rank : ℕ → ℕ
signed_rank a = add32 a (2 ^ 31)

-- The new operand, and whether it is a division by zero.
unfoldable pub operate : Operator → (left operand : ℕ) → ℕ × Bool
operate plus a b = (add32 a b, false)
operate minus a b = (sub32 a b, false)
operate multiply a b = (a * b % u32_mod, false)
operate divide a b = if b == 0 then (u32_mod - 1, true) else (a / b, false)
operate modulus a b = if b == 0 then (b, false) else (a % b, false)
operate left_shift a b = (a * 2 ^ b % u32_mod, false)
operate right_shift a b = (a / 2 ^ b, false)
operate and_op a b = (bit_and a b, false)
operate or_op a b = (bit_or a b, false)
operate xor_op a b = (bit_xor a b, false)
operate equals a b = (truth (a == b), false)
operate not_equal a b = (truth (not (a == b)), false)
operate lower_than a b = (truth (ltb a b), false)
operate lower_equal a b = (truth (leb a b), false)
operate higher_than a b = (truth (ltb b a), false)
operate higher_equal a b = (truth (leb b a), false)
operate less_than a b = (truth (ltb (signed_rank a) (signed_rank b)), false)
operate less_equal a b = (truth (leb (signed_rank a) (signed_rank b)), false)
operate greater_than a b = (truth (ltb (signed_rank b) (signed_rank a)), false)
operate greater_equal a b = (truth (leb (signed_rank b) (signed_rank a)), false)
operate closebr a b = (b, false)
operate end_op a b = (b, false)

-- On words, MINUS takes back what PLUS added, for any wrap-around, and for a divisor other than 0
-- the DIVIDE of two words times the divisor, plus their MODULUS, is the dividend.
pub operate-operate :
    (a b : ℕ)
    → a < u32_mod
    → b < u32_mod
    → b ≢ 0
    → ((operate minus (operate plus a b).0 b).0 ≡ a)
      × ((operate plus (operate multiply (operate divide a b).0 b).0 (operate modulus a b).0).0 ≡ a)
unfolding operate
operate-operate a b ha hb ne =
    let nonzero : (b == 0) ≡ false = ground arith in
    let whole : a / b * b + a % b ≡ a = div-add-mod' a b in
    (omega arith, rw nonzero (omega (arith, whole)))
