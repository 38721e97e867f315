-- ===== src/Asm/Encode/Fields.antt =====
-- The fields of the instructions of tools/assembler/rva.c: where the bits of a token, of a register
-- and of an immediate go.
use riscy_os.Base.{ℕ, ◌+◌, ◌-◌, ◌*◌, ◌/◌, ◌%◌, ◌^◌, Bool, ◌||◌, ◌==◌}

-- (token & 0x01F00000) >> 18 | 3
abbrev pub opcode_of : (token : ℕ) → ℕ
opcode_of token = token / 2 ^ 20 % 32 * 4 + 3

-- (token & 0x0E000000) >> 13
abbrev pub func3_of : (token : ℕ) → ℕ
func3_of token = token / 2 ^ 25 % 8 * 2 ^ 12

-- (token & 0x00007F00) << 17
abbrev pub func7_of : (token : ℕ) → ℕ
func7_of token = token / 2 ^ 8 % 128 * 2 ^ 25

abbrev pub rd_field : ℕ → ℕ
rd_field reg = reg * 2 ^ 7

abbrev pub rs1_field : ℕ → ℕ
rs1_field reg = reg * 2 ^ 15

abbrev pub rs2_field : ℕ → ℕ
rs2_field reg = reg * 2 ^ 20

-- Whether a value is one of the signed numbers of so many bits.
unfoldable pub fits12 : ℕ → Bool
fits12 v = v / 2 ^ 11 == 0 || v / 2 ^ 11 == 2 ^ 21 - 1

unfoldable pub fits13 : ℕ → Bool
fits13 v = v / 2 ^ 12 == 0 || v / 2 ^ 12 == 2 ^ 20 - 1

unfoldable pub fits21 : ℕ → Bool
fits21 v = v / 2 ^ 20 == 0 || v / 2 ^ 20 == 2 ^ 12 - 1

unfoldable pub imm_jal : ℕ → ℕ
imm_jal v =
    v / 2 ^ 20 % 2 * 2 ^ 31
    + v / 2 ^ 12 % 256 * 2 ^ 12
    + v / 2 ^ 11 % 2 * 2 ^ 20
    + v / 2 % 1024 * 2 ^ 21

-- The immediate of a branch, as `b_offset` scrambles it.
unfoldable pub imm_branch : ℕ → ℕ
imm_branch v =
    v / 2 ^ 12 % 2 * 2 ^ 31 + v / 2 ^ 11 % 2 * 2 ^ 7 + v / 2 ^ 5 % 64 * 2 ^ 25 + v / 2 % 16 * 2 ^ 8

-- The immediates of I-type and S-type.
unfoldable pub imm_i : ℕ → ℕ
imm_i v = v % 2 ^ 12 * 2 ^ 20

unfoldable pub imm_s : ℕ → ℕ
imm_s v = v / 2 ^ 5 % 128 * 2 ^ 25 + v % 32 * 2 ^ 7
