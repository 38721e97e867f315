-- ===== src/Umem/Bits.antt =====
-- What marking bits does to every bit of the bitmap.
use riscy_os.Base.{
  ℕ, zero, suc, ◌+◌, ◌-◌, ◌/◌, ◌%◌, ◌^◌, ◌<◌, ◌≡◌, refl, inl, inr, Bool, true, false, not, ◌&&◌,
  ◌||◌, arith, ltb, leb, ◌==◌, ==_iff, Bool-cases, Mem, write,
}
use Prim.Native.Nat.{bit_and, bit_or}
use riscy_os.Umem.{bit_set, use_bit, free_bit, use_from, free_from, mark_bits_used, mark_bits_free}

abbrev pub IsBytes : Mem → Type 0
IsBytes m = (i : ℕ) → m i < 256

-- A test that is evaluated at each number below a bound.
holds_to : (ℕ → Bool) → (bound : ℕ) → Bool
holds_to test zero = true
holds_to test (suc k) = holds_to test k && test k

holds_to_lem :
    (test : ℕ → Bool) (bound : ℕ) → holds_to test bound ≡ true → (x : ℕ) → x < bound → test x ≡ true
unfolding holds_to
holds_to_lem test zero h x below = absurd (omega arith)
holds_to_lem test (suc k) h x below =
    let lower : holds_to test k ≡ true = ground arith in
    let at_k : test k ≡ true = ground arith in
    elim (Bool-cases (x == k)) [
      | inl e ↦ rw ((==_iff x k).0 e) at_k
      | inr e ↦ holds_to_lem test k lower x (ground arith)
    ]

bit_of : ℕ → ℕ → Bool
bit_of x k = not (bit_and x (2 ^ k) == 0)

-- What a byte's bits are after one of them is set, and after one is cleared.
check_byte : ℕ → ℕ → ℕ → Bool
unfolding bit_of
check_byte k j x =
    same (bit_of (bit_or x (2 ^ k)) j) ((j == k) || bit_of x j)
    && same (bit_of (bit_and x (255 - 2 ^ k)) j) (not (j == k) && bit_of x j)
    && ltb (bit_or x (2 ^ k)) 256
    && ltb (bit_and x (255 - 2 ^ k)) 256
  where
    same : Bool → Bool → Bool
    same a b = (a && b) || (not a && not b)

byte_table : holds_to (λ k. holds_to (λ j. holds_to (check_byte k j) 256) 8) 8 ≡ true
unfolding holds_to check_byte
byte_table = refl

byte_check : (k j x : ℕ) → k < 8 → j < 8 → x < 256 → check_byte k j x ≡ true
byte_check k j x hk hj hx =
    let row =
      holds_to_lem (λ k. holds_to (λ j. holds_to (check_byte k j) 256) 8) 8 byte_table k hk in
    let cell = holds_to_lem (λ j. holds_to (check_byte k j) 256) 8 row j hj in
    holds_to_lem (check_byte k j) 256 cell x hx

byte_or :
    (k j x : ℕ)
    → k < 8
    → j < 8
    → x < 256
    → (bit_of (bit_or x (2 ^ k)) j ≡ ((j == k) || bit_of x j)) × (bit_or x (2 ^ k) < 256)
unfolding check_byte
byte_or k j x hk hj hx = let c = byte_check k j x hk hj hx in (ground (arith, c), ground (arith, c))

byte_and :
    (k j x : ℕ)
    → k < 8
    → j < 8
    → x < 256
    → (bit_of (bit_and x (255 - 2 ^ k)) j ≡ (not (j == k) && bit_of x j))
      × (bit_and x (255 - 2 ^ k) < 256)
unfolding check_byte
byte_and k j x hk hj hx =
    let c = byte_check k j x hk hj hx in (ground (arith, c), ground (arith, c))

module _ (m : Mem) (b : ℕ) (v : IsBytes m) where
  use_bit-IsBytes : IsBytes (use_bit m b)
  unfolding use_bit write
  use_bit-IsBytes i =
      ground (arith, v i, byte_or (b % 8) 0 (m (b / 8)) (omega arith) (omega arith) (v (b / 8)))

  free_bit-IsBytes : IsBytes (free_bit m b)
  unfolding free_bit write
  free_bit-IsBytes i =
      ground (arith, v i, byte_and (b % 8) 0 (m (b / 8)) (omega arith) (omega arith) (v (b / 8)))

  bit_set-use_bit : (j : ℕ) → bit_set (use_bit m b) j ≡ ((j == b) || bit_set m j)
  unfolding use_bit write bit_set bit_of
  bit_set-use_bit j = elim (Bool-cases (j / 8 == b / 8)) [
    | inl here ↦
        let e : j / 8 ≡ b / 8 = ground arith in
        let t : (j % 8 == b % 8) ≡ (j == b) = ground arith in
        rw (
          here,
          (byte_or (b % 8) (j % 8) (m (b / 8)) (omega arith) (omega arith) (v (b / 8))).0,
          t,
          e,
        )
    | inr there ↦ let t : (j == b) ≡ false = ground arith in rw (there, t)
  ]

  bit_set-free_bit : (j : ℕ) → bit_set (free_bit m b) j ≡ (not (j == b) && bit_set m j)
  unfolding free_bit write bit_set bit_of
  bit_set-free_bit j = elim (Bool-cases (j / 8 == b / 8)) [
    | inl here ↦
        let e : j / 8 ≡ b / 8 = ground arith in
        let t : (j % 8 == b % 8) ≡ (j == b) = ground arith in
        rw (
          here,
          (byte_and (b % 8) (j % 8) (m (b / 8)) (omega arith) (omega arith) (v (b / 8))).0,
          t,
          e,
        )
    | inr there ↦ let t : (j == b) ≡ false = ground arith in rw (there, t)
  ]

-- `j` is one of the `n` bits from `s` on.
abbrev pub in_run : (s n j : ℕ) → Bool
in_run s n j = leb s j && ltb j (s + n)

use_from_lem :
    (n s j : ℕ) (m : Mem)
    → IsBytes m
    → IsBytes (use_from n s m) × (bit_set (use_from n s m) j ≡ (in_run s n j || bit_set m j))
unfolding use_from
use_from_lem zero s j m v = (v, ground arith)
use_from_lem (suc n) s j m v =
    let r = use_from_lem n (s + 1) j (use_bit m s) (use_bit-IsBytes m s v) in
    (r.0, ground (arith, r.1, bit_set-use_bit m s v j))

free_from_lem :
    (n s j : ℕ) (m : Mem)
    → IsBytes m
    → IsBytes (free_from n s m)
      × (bit_set (free_from n s m) j ≡ (not (in_run s n j) && bit_set m j))
unfolding free_from
free_from_lem zero s j m v = (v, ground arith)
free_from_lem (suc n) s j m v =
    let r = free_from_lem n (s + 1) j (free_bit m s) (free_bit-IsBytes m s v) in
    (r.0, ground (arith, r.1, bit_set-free_bit m s v j))

-- `mark_bits_used` sets exactly the bits of its range and changes no other bit.
pub bit_set-mark_bits_used :
    (s n j : ℕ) (m : Mem)
    → IsBytes m
    → bit_set (mark_bits_used s n m) j ≡ (in_run s n j || bit_set m j)
unfolding mark_bits_used
bit_set-mark_bits_used s n j m v = (use_from_lem n s j m v).1

-- `mark_bits_free` clears exactly the bits of its range and changes no other bit.
pub bit_set-mark_bits_free :
    (s n j : ℕ) (m : Mem)
    → IsBytes m
    → bit_set (mark_bits_free s n m) j ≡ (not (in_run s n j) && bit_set m j)
unfolding mark_bits_free
bit_set-mark_bits_free s n j m v = (free_from_lem n s j m v).1

pub mark_bits_used-IsBytes : (s n : ℕ) (m : Mem) → IsBytes m → IsBytes (mark_bits_used s n m)
unfolding mark_bits_used
mark_bits_used-IsBytes s n m v = (use_from_lem n s 0 m v).0
