-- ===== src/Asm/Encode/Formats.antt =====
-- The cases of `rv32i_mnemonic` of tools/assembler/rva.c for the formats of RV32I, but for loads and
-- stores.
use riscy_os.Base.{
  Option, none, some, ℕ, ◌+◌, ◌*◌, ◌/◌, ◌%◌, ◌^◌, Bool, none, some, ltb, ◌==◌, if◌then◌else◌, sub32,
}
use riscy_os.Asm.Encode.{
  AsmContext, parsed, Parser, ◌>>=◌, ◌>>◌, fail, checked, get_reg, need_reg, need, reg_comma,
  evaluated, sym_bad_reg, sym_no_comma, sym_oorange, sym_no_lbr, sym_no_rbr, sym_oorange_branch,
  sym_unaligned_branch,
}
use riscy_os.Asm.Encode.Fields.{
  opcode_of, func3_of, func7_of, rd_field, rs1_field, rs2_field, fits12, fits13, fits21, imm_jal,
  imm_branch, imm_i,
}

-- The last check of an operand: of an error and of what evaluation noted, the former wins.
abbrev pub in_range {ℓ} : {A : Type ℓ} → Bool → (out_of_range error_code : ℕ) → A → Parser A
in_range fine out e a = if fine then checked e a else fail out

module _ (ctx : AsmContext) where
  -- U-type
  unfoldable pub u_type : Parser ℕ
  u_type = do
    rd ← reg_comma ctx
    value ← evaluated ctx
    in_range (value.1 % 2 ^ 12 == 0) sym_oorange value.0
        (opcode_of ctx.token + rd_field rd + value.1)

  -- The offset of a jump.
  unfoldable pub jump_offset : (error_code target : ℕ) → Parser ℕ
  jump_offset e target =
      let v = sub32 target ctx.scope.assembly_pointer in
      if v % 2 == 1
      then fail sym_unaligned_branch
      else in_range (fits21 v) sym_oorange_branch e (imm_jal v)

  unfoldable pub link_register : Option ℕ → Parser ℕ
  link_register none = parsed 1
  link_register (some r) = do need ctx b',' sym_no_comma; parsed r

  -- J-type; with no register it links by x1.
  unfoldable pub j_type : Parser ℕ
  j_type = do
    found ← get_reg ctx
    rd ← link_register found
    value ← evaluated ctx
    offset ← jump_offset value.0 value.1
    parsed (opcode_of ctx.token + rd_field rd + offset)

  -- The immediate of an I-type, and where it is a shift, the bits of the second code.
  unfoldable pub i_immediate : (error_code value : ℕ) → Parser ℕ
  i_immediate e value =
      let v = if ctx.token / 2 ^ 28 % 2 == 1 then sub32 0 value else value in
      if ctx.token / 2 ^ 25 % 4 == 1
      then in_range (ltb v 32) sym_oorange e (func7_of ctx.token + rs2_field v)
      else in_range (fits12 v) sym_oorange e (imm_i v)

  -- I-type
  unfoldable pub i_type : Parser ℕ
  i_type = do
    rd ← reg_comma ctx
    rs1 ← reg_comma ctx
    value ← evaluated ctx
    imm ← i_immediate value.0 value.1
    parsed (opcode_of ctx.token + func3_of ctx.token + rd_field rd + rs1_field rs1 + imm)

  unfoldable pub branch_field : (error_code offset : ℕ) → Parser ℕ
  branch_field e v =
      if v % 2 == 1
      then fail sym_unaligned_branch
      else in_range (fits13 v) sym_oorange_branch e (imm_branch v)

  -- `b_offset`
  unfoldable pub b_offset : Parser ℕ
  b_offset = do
    value ← evaluated ctx
    let v = sub32 value.1 ctx.scope.assembly_pointer
    branch_field value.0 v

  -- B-type; the pseudo-instructions swap the registers.
  unfoldable pub b_type : Parser ℕ
  b_type = do
    first ← reg_comma ctx
    second ← reg_comma ctx
    offset ← b_offset
    let rs1 = if ctx.token / 2 ^ 28 == 0 then first else second
    let rs2 = if ctx.token / 2 ^ 28 == 0 then second else first
    parsed (opcode_of ctx.token + func3_of ctx.token + rs1_field rs1 + rs2_field rs2 + offset)

  -- R-type
  unfoldable pub r_type : Parser ℕ
  r_type = do
    rd ← reg_comma ctx
    rs1 ← reg_comma ctx
    rs2 ← need_reg ctx sym_bad_reg
    parsed (
        opcode_of ctx.token
        + func3_of ctx.token
        + func7_of ctx.token
        + rd_field rd
        + rs1_field rs1
        + rs2_field rs2)

  -- Atomics; the variants of LR have no second register.
  unfoldable pub atomic : Parser ℕ
  atomic = do
    rd ← reg_comma ctx
    rs2 ← if ctx.token / 2 ^ 22 % 32 == 2 then parsed 0 else reg_comma ctx
    need ctx b'[' sym_no_lbr
    rs1 ← need_reg ctx sym_bad_reg
    need ctx b']' sym_no_rbr
    parsed (
        ctx.token / 2 ^ 20 % 128 * 2 ^ 25
        + ctx.token / 2 ^ 27 % 2 * 2 ^ 12
        + 0x202F
        + rd_field rd
        + rs2_field rs2
        + rs1_field rs1)
