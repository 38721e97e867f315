-- ===== src/Asm/Encode/Pseudo.antt =====
-- The cases of `rv32i_mnemonic` of tools/assembler/rva.c for FENCE, the environment, the registers of
-- control and status, and the pseudo-instructions of one word.
use Prim.Native.Nat.{bit_and, bit_or}
use riscy_os.Base.{
  ℕ, ◌+◌, ◌*◌, ◌/◌, ◌%◌, ◌^◌, not, ◌||◌, List, [], ◌∷◌, ltb, ◌==◌, if◌then◌else◌, sub32,
}
use riscy_os.Asm.Lexer.{drop_chars}
use riscy_os.Asm.Encode.{
  AsmContext, parsed, Parser, ◌>>=◌, ◌>>◌, fail, fail_at, checked, need_reg, need, next_is,
  reg_comma, evaluated, sym_err_syntax, sym_bad_reg, sym_no_comma, sym_oorange, sym_oorange_branch,
}
use riscy_os.Asm.Encode.Fields.{
  opcode_of, func3_of, rd_field, rs1_field, rs2_field, fits21, imm_jal,
}
use riscy_os.Asm.Encode.Formats.{in_range, b_offset}

-- The bit that a letter of FENCE sets.
unfoldable pub fence_bit : (character : ℕ) → ℕ
fence_bit c =
    let letter = bit_and c 0xDF in
    if letter == b'I'
    then 8
    else if letter == b'O'
    then 4
    else if letter == b'R'
    then 2
    else if letter == b'W'
    then 1
    else 0

-- `hedge`: the fields, and how far the position moves.
unfoldable pub hedge : List ℕ → ℕ × ℕ
unfolding fence_bit
hedge [] = (0, 0)
hedge (c ∷ cs) =
    let rest = hedge cs in
    if c == 32 || c == 9
    then (rest.0, rest.1 + 1)
    else if fence_bit c == 0
    then (0, 0)
    else (bit_or (fence_bit c) rest.0, rest.1 + 1)

-- Pseudo-instructions of two registers, for each value of bits 28 to 31 of the token.
unfoldable pub two_registers : (kind rd rs : ℕ) → ℕ
two_registers kind rd rs =
    let i_form = rd_field rd + rs1_field rs in
    let r_form = rd_field rd + rs2_field rs in
    if kind == 0
    then i_form + 0x13
    else if kind == 1
    then i_form + 0xFFF04013
    else if kind == 2
    then r_form + 0x40000033
    else if kind == 3
    then r_form + 0x4000003B
    else if kind == 4
    then i_form + 0x1B
    else if kind == 5
    then i_form + 0x103013
    else if kind == 6
    then r_form + 0x3033
    else if kind == 7
    then i_form + 0x2033
    else if kind == 8
    then r_form + 0x2033
    else 0x13

module _ (ctx : AsmContext) where
  unfoldable pub fence_fields : Parser ℕ
  fence_fields c =
      let found = hedge (drop_chars c.position ctx.line) in
      parsed found.0 (record c { position = c.position + found.1 })

  -- FENCE and FENCE.I
  unfoldable pub fence : Parser ℕ
  fence = do
    let code = func3_of ctx.token + 0x0F
    if not (ctx.token / 2 ^ 25 % 8 == 0) then parsed code else (do
      before ← fence_fields
      if before == 0 then parsed (code + 0x0FF00000) else (do
        need ctx b',' sym_no_comma
        after ← fence_fields
        if after == 0
            then fail_at sym_err_syntax
            else parsed (code + before * 2 ^ 24 + after * 2 ^ 20)))

  -- ECALL and the like
  abbrev pub environment : ℕ
  environment = ctx.token / 2 ^ 20 % 2 ^ 12 * 2 ^ 20 + 0x73

  -- `parse_csr`
  unfoldable pub parse_csr : Parser ℕ
  parse_csr = do
    value ← evaluated ctx
    checked value.0 tt
    if ltb value.1 (2 ^ 12) then parsed (value.1 * 2 ^ 20) else fail sym_oorange

  -- `parse_csr2`
  unfoldable pub parse_csr2 : Parser ℕ
  parse_csr2 =
      if ctx.token / 2 ^ 28 % 2 == 0
      then (do reg ← need_reg ctx sym_bad_reg; parsed (rs1_field reg))
      else (do
        value ← evaluated ctx
        checked value.0 tt
        if ltb value.1 32 then parsed (rs1_field value.1) else fail sym_oorange)

  -- CSR instructions of three operands
  unfoldable pub csr : Parser ℕ
  csr = do
    rd ← reg_comma ctx
    address ← parse_csr
    need ctx b',' sym_no_comma
    operand ← parse_csr2
    parsed (opcode_of ctx.token + func3_of ctx.token + rd_field rd + address + operand)

  -- CSR pseudo-instructions of two operands
  unfoldable pub csr_pseudo : Parser ℕ
  csr_pseudo = do
    let code = func3_of ctx.token + 0x73
    if ctx.token / 2 ^ 29 % 2 == 1
        then (do rd ← reg_comma ctx; address ← parse_csr; parsed (code + rd_field rd + address))
        else (do
          address ← parse_csr
          need ctx b',' sym_no_comma
          operand ← parse_csr2
          parsed (code + address + operand))

  -- JR
  unfoldable pub jr : Parser ℕ
  jr = do reg ← need_reg ctx sym_bad_reg; parsed (rs1_field reg + 0x67)

  -- J, which does not look at the offset's lowest bit.
  unfoldable pub j_pseudo : Parser ℕ
  j_pseudo = do
    value ← evaluated ctx
    let v = sub32 value.1 ctx.scope.assembly_pointer
    in_range (fits21 v) sym_oorange_branch value.0 (imm_jal v + 0x6F)

  -- MV, NOT and the like
  unfoldable pub two_reg_pseudo : Parser ℕ
  two_reg_pseudo = do
    rd ← reg_comma ctx
    rs ← need_reg ctx sym_bad_reg
    parsed (two_registers (ctx.token / 2 ^ 28) rd rs)

  -- Branches on one register
  unfoldable pub branch_pseudo : Parser ℕ
  branch_pseudo = do
    reg ← reg_comma ctx
    offset ← b_offset ctx
    let field = if ctx.token / 2 ^ 24 % 2 == 1 then rs2_field reg else rs1_field reg
    parsed (0x63 + func3_of ctx.token + offset + field)

  -- Counters and the CSRs that a mnemonic names
  unfoldable pub counter_pseudo : Parser ℕ
  counter_pseudo = do
    let code =
        ctx.token / 2 ^ 24 * 2 ^ 24
        + 0x73
        + ctx.token / 2 ^ 12 % 16 * 2 ^ 20
        + ctx.token / 2 ^ 8 % 8 * 2 ^ 12
    reg ← need_reg ctx sym_bad_reg
    if ctx.token / 2 ^ 8 % 8 == 2 then parsed (code + rd_field reg) else (do
      comma ← next_is ctx b','
      if comma
          then (do rs ← need_reg ctx sym_bad_reg; parsed (code + rd_field reg + rs1_field rs))
          else parsed (code + rs1_field reg))

  -- Pseudo-ops
  unfoldable pub pseudo_op : Parser ℕ
  pseudo_op =
      let group = ctx.token / 2 ^ 20 % 16 in
      let kind = ctx.token / 2 ^ 28 in
      if group == 0
      then parsed (if kind == 1 then 0x8067 else if kind == 2 then 0 else 0x13)
      else if group == 1
      then jr
      else if group == 2
      then j_pseudo
      else if group == 3
      then two_reg_pseudo
      else if group == 4
      then branch_pseudo
      else if group == 5
      then csr_pseudo
      else if group == 6
      then counter_pseudo
      else parsed 0x13
