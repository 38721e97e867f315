-- ===== src/Asm/Encode/Targets.antt =====
-- Where branches and jumps go.
use riscy_os.Base.{
  ℕ, ◌+◌, ◌*◌, ◌/◌, ◌%◌, ◌^◌, ◌<◌, ◌≡◌, refl, true, false, some, arith, ◌==◌, if◌then◌else◌, add32,
  sub32,
}
use riscy_os.Asm.Encode.{
  AsmContext, Cursor, parsed, get_reg, need, reg_comma, evaluated, sym_no_comma,
}
use riscy_os.Asm.Encode.Fields.{
  opcode_of, func3_of, rd_field, rs1_field, rs2_field, fits13, fits21, imm_jal, imm_branch,
}
use riscy_os.Asm.Encode.Decode.{
  opcode, rd, func3, rs1, rs2, b_imm, j_imm, b_imm-imm_branch, j_imm-imm_jal,
}
use riscy_os.Asm.Encode.Formats.{jump_offset, j_type, link_register, branch_field, b_offset, b_type}

-- The code of B-type puts the bits of one number in these places.
b_type_word :
    (token r1 r2 v : ℕ)
    → r1 < 32
    → r2 < 32
    → opcode_of token + func3_of token + rs1_field r1 + rs2_field r2 + imm_branch v
      ≡ opcode_of token + (token / 2 ^ 25 % 8 + r1 * 2 ^ 3 + r2 * 2 ^ 8) * 2 ^ 12 + imm_branch v
b_type_word token r1 r2 v s1 s2 = omega arith

b_type_fields :
    (token r1 r2 v : ℕ)
    → r1 < 32
    → r2 < 32
    → (opcode (opcode_of token + func3_of token + rs1_field r1 + rs2_field r2 + imm_branch v)
        ≡ opcode_of token)
      × (func3 (opcode_of token + func3_of token + rs1_field r1 + rs2_field r2 + imm_branch v)
          ≡ token / 2 ^ 25 % 8)
      × (rs1 (opcode_of token + func3_of token + rs1_field r1 + rs2_field r2 + imm_branch v) ≡ r1)
      × (rs2 (opcode_of token + func3_of token + rs1_field r1 + rs2_field r2 + imm_branch v) ≡ r2)
unfolding imm_branch
b_type_fields token r1 r2 v s1 s2 = (omega arith, omega arith, omega arith, omega arith)

-- A branch whose two registers and target are read and whose target is in reach is encoded: the
-- word's offset leads from the instruction to the target, and its registers are those of the line,
-- in the other order for a pseudo-instruction.
pub b_type-decodes :
    (ctx : AsmContext) (c c1 c2 c3 : Cursor) (first second target : ℕ)
    → reg_comma ctx c ≡ parsed first c1
    → reg_comma ctx c1 ≡ parsed second c2
    → evaluated ctx c2 ≡ parsed (0, target) c3
    → first < 32
    → second < 32
    → target < 2 ^ 32
    → ctx.scope.assembly_pointer < 2 ^ 32
    → sub32 target ctx.scope.assembly_pointer % 2 ≡ 0
    → fits13 (sub32 target ctx.scope.assembly_pointer) ≡ true
    → (word : ℕ) × (b_type ctx c ≡ parsed word c3)
      × (add32 ctx.scope.assembly_pointer (b_imm word) ≡ target)
      × (opcode word ≡ opcode_of ctx.token)
      × (func3 word ≡ ctx.token / 2 ^ 25 % 8)
      × (rs1 word ≡ (if ctx.token / 2 ^ 28 == 0 then first else second))
      × (rs2 word ≡ (if ctx.token / 2 ^ 28 == 0 then second else first))
unfolding b_type b_offset branch_field
b_type-decodes ctx c c1 c2 c3 first second target read1 read2 read3 s1 s2 small pc_small even fits =
    let v = sub32 target ctx.scope.assembly_pointer in
    let r1 = if ctx.token / 2 ^ 28 == 0 then first else second in
    let r2 = if ctx.token / 2 ^ 28 == 0 then second else first in
    let t1 : r1 < 32 = ground arith in
    let t2 : r2 < 32 = ground arith in
    let op = opcode_of ctx.token in
    let regs = ctx.token / 2 ^ 25 % 8 + r1 * 2 ^ 3 + r2 * 2 ^ 8 in
    let (f1, f2, f3, f4) = b_type_fields ctx.token r1 r2 v t1 t2 in
    let word = op + func3_of ctx.token + rs1_field r1 + rs2_field r2 + imm_branch v in
    let odd : (v % 2 == 1) ≡ false = ground arith in
    let offset : b_imm word ≡ v =
      rw (b_type_word ctx.token r1 r2 v t1 t2)
        (b_imm-imm_branch v op regs (omega arith) fits even (omega arith) (omega arith)) in
    (word, rw (read1, read2, read3, odd, fits) refl, rw offset (omega arith), f1, f2, f3, f4)

-- A jump whose register and target are read and whose target is in reach is encoded: the word's
-- offset leads from the instruction to the target, and it links by the register of the line.
pub j_type-decodes :
    (ctx : AsmContext) (c c1 c2 c3 : Cursor) (reg target : ℕ)
    → get_reg ctx c ≡ parsed (some reg) c1
    → need ctx b',' sym_no_comma c1 ≡ parsed tt c2
    → evaluated ctx c2 ≡ parsed (0, target) c3
    → reg < 32
    → target < 2 ^ 32
    → ctx.scope.assembly_pointer < 2 ^ 32
    → sub32 target ctx.scope.assembly_pointer % 2 ≡ 0
    → fits21 (sub32 target ctx.scope.assembly_pointer) ≡ true
    → (word : ℕ) × (j_type ctx c ≡ parsed word c3)
      × (add32 ctx.scope.assembly_pointer (j_imm word) ≡ target)
      × (opcode word ≡ opcode_of ctx.token)
      × (rd word ≡ reg)
unfolding j_type jump_offset link_register
j_type-decodes ctx c c1 c2 c3 reg target read1 read2 read3 s1 small pc_small even fits =
    let v = sub32 target ctx.scope.assembly_pointer in
    let low = opcode_of ctx.token + rd_field reg in
    let odd : (v % 2 == 1) ≡ false = ground arith in
    let offset : j_imm (low + imm_jal v) ≡ v =
      j_imm-imm_jal v low (omega arith) fits even (omega arith) in
    (
      low + imm_jal v,
      rw (read1, read2, read3, odd, fits) refl,
      rw offset (omega arith),
      unfold imm_jal in omega arith,
      unfold imm_jal in omega arith,
    )
