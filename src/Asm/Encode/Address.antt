-- ===== src/Asm/Encode/Address.antt =====
-- `addr_mode` of tools/assembler/rva.c, and the cases of `rv32i_mnemonic` for stores, loads and JALR.
-- A register that the C code leaves unset behind an error is taken as x0.
use riscy_os.Base.{
  ℕ, ◌+◌, ◌-◌, ◌/◌, ◌%◌, ◌^◌, Bool, true, none, some, ◌==◌, if◌then◌else◌, add32, sub32,
}
use riscy_os.Asm.Encode.{
  AsmContext, parsed, failed, Parser, ◌>>=◌, ◌>>◌, fail_at, checked, get_reg, need_reg, next_is,
  reg_comma, evaluated, sym_err_syntax, sym_bad_reg, sym_no_comma, sym_no_comma_lbr, sym_oorange,
  sym_no_lbr, sym_no_rbr,
}
use riscy_os.Asm.Encode.Fields.{
  opcode_of, func3_of, rd_field, rs1_field, rs2_field, fits12, imm_i, imm_s,
}

-- AUIPC with the upper part of an offset, rounded for the signed lower part.
unfoldable pub auipc_upper : (offset : ℕ) → ℕ
auipc_upper v = if v / 2 ^ 11 % 2 == 0 then v - v % 2 ^ 12 else add32 (v - v % 2 ^ 12) (2 ^ 12)

unfoldable pub auipc : (reg offset : ℕ) → ℕ
auipc reg v = 0x17 + rd_field reg + auipc_upper v

unfoldable pub set_prefix : ℕ → Parser (Unit {0})
set_prefix p c = parsed tt (record c { prefix = p })

module _ (ctx : AsmContext) where
  -- The base register, behind its bracket. A closing bracket is stepped over, and so is the
  -- character behind it.
  unfoldable pub base_register : (offset : ℕ) → (fits : Bool) → Parser (ℕ × ℕ)
  base_register v fits = do
    reg ← need_reg ctx sym_err_syntax
    closed ← next_is ctx b']'
    if closed
        then (λ c.
            if fits
            then parsed (reg, v % 2 ^ 12) (record c { position = c.position + 1 })
            else failed sym_oorange (record c { position = c.position + 1 }))
        else fail_at sym_no_rbr

  -- The base register of an access with no brackets, with an error: a store names it, a load uses its
  -- target.
  unfoldable pub global_register : (target : ℕ) → Parser (ℕ × ℕ)
  global_register target =
      if ctx.token / 2 ^ 16 % 16 == 4
      then (do
        comma ← next_is ctx b','
        if comma
            then (do
              found ← get_reg ctx
              elim found [ none ↦ parsed (0, sym_bad_reg) | some r ↦ parsed (r, 0) ])
            else parsed (0, sym_no_comma_lbr))
      else parsed (target, 0)

  -- An access with no brackets is relative to the PC, by an AUIPC in front. That is set up even where
  -- the register is missing; register -1 fills the bits from 7 on.
  unfoldable pub global_mode : (target value : ℕ) → Parser (ℕ × ℕ)
  global_mode target value = do
    base ← global_register target
    let offset = sub32 value ctx.scope.assembly_pointer
    set_prefix (if base.1 == sym_bad_reg then 0xFFFFFF97 else auipc base.0 offset)
    if base.1 == 0 then parsed (base.0, offset % 2 ^ 12) else fail_at base.1

  -- `addr_mode` where an offset stands first; JALR needs the bracket.
  unfoldable pub addr_offset : (target : ℕ) → Parser (ℕ × ℕ)
  addr_offset target = do
    value ← evaluated ctx
    checked value.0 tt
    open_bracket ← next_is ctx b'['
    if open_bracket
        then base_register value.1 (fits12 value.1)
        else if ctx.token / 2 ^ 16 % 4096 == 0x195
        then fail_at sym_no_lbr
        else global_mode target value.1

  -- `addr_mode`: the base register and the offset's field.
  unfoldable pub addr_mode : (target : ℕ) → Parser (ℕ × ℕ)
  addr_mode target = do
    open_bracket ← next_is ctx b'['
    if open_bracket then base_register 0 true else addr_offset target

  -- S-type
  unfoldable pub s_type : Parser ℕ
  s_type = do
    rs2 ← reg_comma ctx
    at ← addr_mode 0
    parsed (opcode_of ctx.token + func3_of ctx.token + rs2_field rs2 + imm_s at.1 + rs1_field at.0)

  -- Loads and JALR; JALR on a register alone links by x1.
  unfoldable pub load : Parser ℕ
  load = do
    reg ← need_reg ctx sym_bad_reg
    comma ← next_is ctx b','
    let code = opcode_of ctx.token + func3_of ctx.token
    if comma
        then (do at ← addr_mode reg; parsed (code + rd_field reg + imm_i at.1 + rs1_field at.0))
        else if ctx.token / 2 ^ 20 % 256 == 0x19
        then parsed (code + rs1_field reg + rd_field 1)
        else fail_at sym_no_comma
