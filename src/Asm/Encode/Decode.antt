-- ===== src/Asm/Encode/Decode.antt =====
-- How a processor reads the words: the fields and the signed immediates of the formats of RV32I, as
-- the instruction set's manual defines them.
use riscy_os.Base.{ℕ, ◌+◌, ◌-◌, ◌*◌, ◌/◌, ◌%◌, ◌^◌, ◌<◌, ◌≡◌, true, arith, ltb, if◌then◌else◌}
use riscy_os.Asm.Encode.Fields.{fits12, fits13, fits21, imm_jal, imm_branch, imm_i, imm_s}

abbrev pub opcode : ℕ → ℕ
opcode w = w % 2 ^ 7

abbrev pub rd : ℕ → ℕ
rd w = w / 2 ^ 7 % 32

abbrev pub func3 : ℕ → ℕ
func3 w = w / 2 ^ 12 % 8

abbrev pub rs1 : ℕ → ℕ
rs1 w = w / 2 ^ 15 % 32

abbrev pub rs2 : ℕ → ℕ
rs2 w = w / 2 ^ 20 % 32

-- A number of 12, 13 or 21 bits with its sign, as a word.
unfoldable pub sign12 : ℕ → ℕ
sign12 x = if ltb x (2 ^ 11) then x else x + (2 ^ 32 - 2 ^ 12)

unfoldable pub sign13 : ℕ → ℕ
sign13 x = if ltb x (2 ^ 12) then x else x + (2 ^ 32 - 2 ^ 13)

unfoldable pub sign21 : ℕ → ℕ
sign21 x = if ltb x (2 ^ 20) then x else x + (2 ^ 32 - 2 ^ 21)

abbrev pub i_imm : ℕ → ℕ
i_imm w = sign12 (w / 2 ^ 20)

abbrev pub s_imm : ℕ → ℕ
s_imm w = sign12 (w / 2 ^ 25 * 2 ^ 5 + w / 2 ^ 7 % 32)

abbrev pub b_imm : ℕ → ℕ
b_imm w =
    sign13
      (w / 2 ^ 31 * 2 ^ 12 + w / 2 ^ 7 % 2 * 2 ^ 11 + w / 2 ^ 25 % 64 * 2 ^ 5 + w / 2 ^ 8 % 16 * 2)

abbrev pub j_imm : ℕ → ℕ
j_imm w = sign21 (
    w / 2 ^ 31 * 2 ^ 20
    + w / 2 ^ 12 % 256 * 2 ^ 12
    + w / 2 ^ 20 % 2 * 2 ^ 11
    + w / 2 ^ 21 % 1024 * 2)

pub j_imm-imm_jal :
    (v low : ℕ)
    → v < 2 ^ 32
    → fits21 v ≡ true
    → v % 2 ≡ 0
    → low < 2 ^ 12
    → j_imm (low + imm_jal v) ≡ v
unfolding imm_jal fits21 sign21
j_imm-imm_jal v low small fits even is_low = ground arith

pub b_imm-imm_branch :
    (v op regs : ℕ)
    → v < 2 ^ 32
    → fits13 v ≡ true
    → v % 2 ≡ 0
    → op < 2 ^ 7
    → regs < 2 ^ 13
    → b_imm (op + regs * 2 ^ 12 + imm_branch v) ≡ v
unfolding imm_branch fits13 sign13
b_imm-imm_branch v op regs small fits even is_op is_regs = ground arith

pub i_imm-imm_i :
    (v low : ℕ) → v < 2 ^ 32 → fits12 v ≡ true → low < 2 ^ 20 → i_imm (low + imm_i v) ≡ v
unfolding imm_i fits12 sign12
i_imm-imm_i v low small fits is_low = ground arith

pub s_imm-imm_s :
    (v op regs : ℕ)
    → v < 2 ^ 32
    → fits12 v ≡ true
    → op < 2 ^ 7
    → regs < 2 ^ 13
    → s_imm (op + regs * 2 ^ 12 + imm_s v) ≡ v
unfolding imm_s fits12 sign12
s_imm-imm_s v op regs small fits is_op is_regs = ground arith
