-- ===== src/Asm/Hex/Lines.antt =====
-- Reading a line of the hex file back, from its text and from the buffer.
use riscy_os.Base.{
  ℕ, zero, suc, ◌+◌, ◌-◌, ◌*◌, ◌/◌, ◌%◌, ◌^◌, ◌<◌, ◌≡◌, ◌≢◌, false, Option, none, some, List, [],
  ◌∷◌, arith, ltb, ◌==◌, if◌then◌else◌, Mem, write, u32_mod,
}
use riscy_os.Asm.Hex.{hex_digit, blank_line, start_line, put_byte}

unfoldable pub hex_value : ℕ → ℕ
hex_value c = if ltb c 65 then c - 48 else c - 55

-- A line by its characters, `text i`: the address in front, from the line's first byte on.
abbrev pub line_base : (ℕ → ℕ) → ℕ
line_base text =
    let a =
      hex_value (text 0) * 2 ^ 28
      + hex_value (text 1) * 2 ^ 24
      + hex_value (text 2) * 2 ^ 20
      + hex_value (text 3) * 2 ^ 16
      + hex_value (text 4) * 2 ^ 12
      + hex_value (text 5) * 2 ^ 8
      + hex_value (text 6) * 16
      + hex_value (text 7) in
    a - a % 16

-- The byte in one of the sixteen columns.
unfoldable pub cell : (ℕ → ℕ) → (column : ℕ) → Option ℕ
cell text k =
    if text (10 + 3 * k) == 32
    then none
    else some (hex_value (text (10 + 3 * k)) * 16 + hex_value (text (11 + 3 * k)))

unfoldable pub add_cell : (address : ℕ) → Option ℕ → List (ℕ × ℕ) → List (ℕ × ℕ)
add_cell address none rest = rest
add_cell address (some v) rest = (address, v) ∷ rest

-- The bytes of the columns from `k` on, each with its address.
unfoldable pub shown_cells : (ℕ → ℕ) → (base k count : ℕ) → List (ℕ × ℕ)
unfolding add_cell
shown_cells text base k zero = []
shown_cells text base k (suc n) =
    add_cell (base + k) (cell text k) (shown_cells text base (k + 1) n)

abbrev pub line_cells : (ℕ → ℕ) → List (ℕ × ℕ)
line_cells text = shown_cells text (line_base text) 0 16

hex_value-hex_digit : (d : ℕ) → d < 16 → hex_value (hex_digit d) ≡ d
unfolding hex_value hex_digit
hex_value-hex_digit d small = ground arith

hex_digit-ne-space : (d : ℕ) → d < 16 → (hex_digit d == 32) ≡ false
unfolding hex_digit
hex_digit-ne-space d small = ground arith

pub hex_digit-ne-null : (d : ℕ) → d < 16 → (hex_digit d == 0) ≡ false
unfolding hex_digit
hex_digit-ne-null d small = ground arith

-- Where the two digits of a byte go.
pub put_byte-first :
    (address v : ℕ) (b : Mem)
    → put_byte address v b (10 + 3 * (address % 16)) ≡ hex_digit (v / 16 % 16)
unfolding put_byte write
put_byte-first address v b = ground arith

pub put_byte-second :
    (address v : ℕ) (b : Mem)
    → put_byte address v b (11 + 3 * (address % 16)) ≡ hex_digit (v / 1 % 16)
unfolding put_byte write
put_byte-second address v b = ground arith

pub put_byte-ne :
    (address v i : ℕ) (b : Mem)
    → i ≢ 10 + 3 * (address % 16)
    → i ≢ 11 + 3 * (address % 16)
    → put_byte address v b i ≡ b i
unfolding put_byte write
put_byte-ne address v i b first second = ground arith

-- The column of the byte that has been put into the buffer.
pub cell-put_byte_self :
    (address v : ℕ) (b : Mem) → v < 256 → cell (put_byte address v b) (address % 16) ≡ some v
unfolding cell
cell-put_byte_self address v b small =
    let whole : v / 16 % 16 * 16 + v / 1 % 16 ≡ v = omega arith in
    rw (
      put_byte-first address v b,
      put_byte-second address v b,
      hex_digit-ne-space (v / 16 % 16) (omega arith),
      hex_value-hex_digit (v / 16 % 16) (omega arith),
      hex_value-hex_digit (v / 1 % 16) (omega arith),
      whole,
    )

pub cell-put_byte_other :
    (address v k : ℕ) (b : Mem) → k ≢ address % 16 → cell (put_byte address v b) k ≡ cell b k
unfolding cell
cell-put_byte_other address v k b other = rw (
  put_byte-ne address v (10 + 3 * k) b (omega arith) (omega arith),
  put_byte-ne address v (11 + 3 * k) b (omega arith) (omega arith),
)

put_byte-address : (address v i : ℕ) (b : Mem) → i < 10 → put_byte address v b i ≡ b i
put_byte-address address v i b low = put_byte-ne address v i b (omega arith) (omega arith)

pub line_base-put_byte : (address v : ℕ) (b : Mem) → line_base (put_byte address v b) ≡ line_base b
line_base-put_byte address v b = rw (
  put_byte-address address v 0 b (omega arith),
  put_byte-address address v 1 b (omega arith),
  put_byte-address address v 2 b (omega arith),
  put_byte-address address v 3 b (omega arith),
  put_byte-address address v 4 b (omega arith),
  put_byte-address address v 5 b (omega arith),
  put_byte-address address v 6 b (omega arith),
  put_byte-address address v 7 b (omega arith),
)

pub line_base-start_line :
    (address : ℕ) (b : Mem)
    → address < u32_mod
    → line_base (start_line address b) ≡ address - address % 16
unfolding start_line write
line_base-start_line address b small =
    rw
      (
        hex_value-hex_digit (address / 268435456 % 16) (omega arith),
        hex_value-hex_digit (address / 16777216 % 16) (omega arith),
        hex_value-hex_digit (address / 1048576 % 16) (omega arith),
        hex_value-hex_digit (address / 65536 % 16) (omega arith),
        hex_value-hex_digit (address / 4096 % 16) (omega arith),
        hex_value-hex_digit (address / 256 % 16) (omega arith),
        hex_value-hex_digit (address / 16 % 16) (omega arith),
        hex_value-hex_digit (address / 1 % 16) (omega arith),
      )
      (omega arith)

-- Behind the address and the colon the line is blank up to its terminator.
pub start_line-blank : (address i : ℕ) (b : Mem) → 8 < i → i < 57 → start_line address b i ≡ 32
unfolding start_line blank_line write
start_line-blank address i b high low = ground arith

pub cell-start_line : (address k : ℕ) (b : Mem) → k < 16 → cell (start_line address b) k ≡ none
unfolding cell
cell-start_line address k b low =
    rw (start_line-blank address (10 + 3 * k) b (omega arith) (omega arith))
