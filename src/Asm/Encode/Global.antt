-- ===== src/Asm/Encode/Global.antt =====
-- A load from an address with no base register.
use riscy_os.Base.{
  ℕ, ◌+◌, ◌/◌, ◌%◌, ◌^◌, ◌<◌, ◌≡◌, refl, ◌∙◌, ◌≢◌, true, false, arith, ◌==◌, add32, sub32,
}
use riscy_os.Asm.Encode.{AsmContext, Cursor, parsed, need_reg, next_is, evaluated, sym_bad_reg}
use riscy_os.Asm.Encode.Fields.{opcode_of, func3_of, rd_field, rs1_field, imm_i}
use riscy_os.Asm.Encode.Decode.{opcode, rd, func3, rs1, i_imm}
use riscy_os.Asm.Encode.Long.{upper_part}
use riscy_os.Asm.Encode.Run.{
  Registers, write_reg, run_word, run_auipc, upper_part_aligned, pc_upper-sign12,
}
use riscy_os.Asm.Encode.Address.{
  auipc_upper, auipc, set_prefix, global_register, global_mode, addr_offset, addr_mode, load,
}

auipc_upper-upper_part : (v : ℕ) → v < 2 ^ 32 → auipc_upper v ≡ upper_part v
unfolding auipc_upper upper_part
auipc_upper-upper_part v small = ground arith

run_auipc_lem :
    (pc r v i : ℕ) (regs : Registers)
    → r < 32
    → v < 2 ^ 32
    → run_word pc (auipc r v) regs i ≡ write_reg regs r (add32 pc (upper_part v)) i
unfolding auipc
run_auipc_lem pc r v i regs small_r small =
    let e : 0x17 + rd_field r + auipc_upper v ≡ rd_field r + upper_part v + 0x17 =
      omega (arith, auipc_upper-upper_part v small) in
    rw e (run_auipc pc r (upper_part v) i regs small_r (upper_part_aligned v))

load_fields :
    (token r v : ℕ)
    → r < 32
    → (opcode (opcode_of token + func3_of token + rd_field r + imm_i v + rs1_field r)
        ≡ opcode_of token)
      × (func3 (opcode_of token + func3_of token + rd_field r + imm_i v + rs1_field r)
          ≡ token / 2 ^ 25 % 8)
      × (rd (opcode_of token + func3_of token + rd_field r + imm_i v + rs1_field r) ≡ r)
      × (rs1 (opcode_of token + func3_of token + rd_field r + imm_i v + rs1_field r) ≡ r)
      × ((opcode_of token + func3_of token + rd_field r + imm_i v + rs1_field r) / 2 ^ 20
          ≡ v % 2 ^ 12)
unfolding imm_i
load_fields token r v small = (omega arith, omega arith, omega arith, omega arith, omega arith)

-- A load of a register other than x0 from an address with no brackets is encoded as two words: once
-- the first has run where it stands, the base register of the second one, which is its target too,
-- together with its offset gives that address. It is no JALR, and the address and the assembly
-- pointer are words.
pub load-global :
    (ctx : AsmContext) (c c1 c2 c3 c4 c5 : Cursor) (reg address : ℕ) (regs : Registers)
    → need_reg ctx sym_bad_reg c ≡ parsed reg c1
    → next_is ctx b',' c1 ≡ parsed true c2
    → next_is ctx b'[' c2 ≡ parsed false c3
    → evaluated ctx c3 ≡ parsed (0, address) c4
    → next_is ctx b'[' c4 ≡ parsed false c5
    → ctx.token / 2 ^ 16 % 16 ≡ 5
    → ctx.token / 2 ^ 16 % 4096 ≢ 0x195
    → 0 < reg
    → reg < 32
    → address < 2 ^ 32
    → ctx.scope.assembly_pointer < 2 ^ 32
    → (word : ℕ) × (last : Cursor) × (load ctx c ≡ parsed word last)
      × (opcode word ≡ opcode_of ctx.token)
      × (func3 word ≡ ctx.token / 2 ^ 25 % 8)
      × (rd word ≡ reg)
      × (add32 (run_word ctx.scope.assembly_pointer last.prefix regs (rs1 word)) (i_imm word)
          ≡ address)
unfolding load addr_mode addr_offset global_mode global_register set_prefix
load-global ctx c c1 c2 c3 c4 c5 reg address regs r1 r2 r3 r4 r5 is_load no_jalr real small_r small
      pc_small =
    let pc = ctx.scope.assembly_pointer in
    let v = sub32 address pc in
    let below : v < 2 ^ 32 = omega arith in
    let code = opcode_of ctx.token + func3_of ctx.token in
    let word = code + rd_field reg + imm_i (v % 2 ^ 12) + rs1_field reg in
    let last : Cursor = record c5 { prefix = auipc reg v } in
    let (f1, f2, f3, f4, f5) = load_fields ctx.token reg (v % 2 ^ 12) small_r in
    let jalr : (ctx.token / 2 ^ 16 % 4096 == 0x195) ≡ false = ground arith in
    let run = run_auipc_lem pc reg v reg regs small_r below in
    let sum = pc_upper-sign12 pc v pc_small below in
    let held : run_word pc (auipc reg v) regs reg ≡ add32 pc (upper_part v) = ground (arith, run) in
    let there : add32 pc v ≡ address = omega arith in
    let same : v % 2 ^ 12 % 2 ^ 12 ≡ v % 2 ^ 12 = omega arith in
    (
      word,
      last,
      rw (r1, r2, r3, r4, r5, is_load, jalr) refl,
      f1,
      f2,
      f3,
      rw (f4, f5, same) (rw held (sum ∙ there)),
    )
