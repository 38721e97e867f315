-- ===== src/Asm/Encode/Run.antt =====
-- What LUI, AUIPC and ADDI do to the registers, as the instruction set's manual defines it, and that
-- the words of LI and LA do what these pseudo-instructions promise.
use riscy_os.Base.{
  ℕ, ◌+◌, ◌*◌, ◌/◌, ◌%◌, ◌^◌, ◌<◌, ◌≡◌, refl, ◌∙◌, inl, inr, Bool, true, ◌&&◌, arith, ◌==◌,
  if◌then◌else◌, Bool-cases, add32, sub32,
}
use riscy_os.Asm.Encode.Fields.{rd_field, rs1_field, imm_i}
use riscy_os.Asm.Encode.Decode.{opcode, rd, func3, rs1, i_imm, sign12}
use riscy_os.Asm.Encode.{AsmContext}
use riscy_os.Asm.Encode.Long.{LongCode, upper_part, long_li, long_la, long_words}

abbrev pub Registers : Type 0
Registers = ℕ → ℕ

abbrev pub read_reg : Registers → ℕ → ℕ
read_reg regs i = if i == 0 then 0 else regs i

-- x0 stays 0.
abbrev pub write_reg : Registers → (reg value : ℕ) → Registers
write_reg regs reg v = λ i. if i == reg then v else read_reg regs i

unfoldable pub run_word : (pc word : ℕ) → Registers → Registers
run_word pc w regs =
    if opcode w == 0x37
    then write_reg regs (rd w) (w / 2 ^ 12 * 2 ^ 12)
    else if opcode w == 0x17
    then write_reg regs (rd w) (add32 pc (w / 2 ^ 12 * 2 ^ 12))
    else if opcode w == 0x13 && func3 w == 0
    then write_reg regs (rd w) (add32 (read_reg regs (rs1 w)) (i_imm w))
    else regs

-- The second word, after the first one where both are there.
unfoldable pub run_code : (both : Bool) → (pc : ℕ) → LongCode → Registers → Registers
run_code both pc code regs =
    if both
    then run_word (pc + 4) code.op_code (run_word pc code.prefix_word regs)
    else run_word pc code.op_code regs

run_lui :
    (pc r upper i : ℕ) (regs : Registers)
    → r < 32
    → upper % 2 ^ 12 ≡ 0
    → run_word pc (rd_field r + upper + 0x37) regs i ≡ write_reg regs r upper i
unfolding run_word
run_lui pc r upper i regs small aligned =
    let a : opcode (rd_field r + upper + 0x37) ≡ 0x37 = omega arith in
    let b : rd (rd_field r + upper + 0x37) ≡ r = omega arith in
    let c : (rd_field r + upper + 0x37) / 2 ^ 12 * 2 ^ 12 ≡ upper = omega arith in rw (a, b, c) refl

run_addi :
    (pc r s v i : ℕ) (regs : Registers)
    → r < 32
    → s < 32
    → run_word pc (rd_field r + rs1_field s + imm_i v + 0x13) regs i
      ≡ write_reg regs r (add32 (read_reg regs s) (sign12 (v % 2 ^ 12))) i
unfolding run_word imm_i
run_addi pc r s v i regs small_r small_s =
    let w = rd_field r + rs1_field s + imm_i v + 0x13 in
    let a : opcode w ≡ 0x13 = unfold imm_i in omega arith in
    let b : rd w ≡ r = unfold imm_i in omega arith in
    let c : func3 w ≡ 0 = unfold imm_i in omega arith in
    let d : rs1 w ≡ s = unfold imm_i in omega arith in
    let e : w / 2 ^ 20 ≡ v % 2 ^ 12 = unfold imm_i in omega arith in rw (a, b, c, d, e) refl

-- The two parts add up to the value.
upper_part-sign12 : (v : ℕ) → v < 2 ^ 32 → add32 (upper_part v) (sign12 (v % 2 ^ 12)) ≡ v
unfolding upper_part sign12
upper_part-sign12 v small = ground arith

pub upper_part_aligned : (v : ℕ) → upper_part v % 2 ^ 12 ≡ 0
unfolding upper_part
upper_part_aligned v = omega arith

addi_alone :
    (pc r v i : ℕ) (regs : Registers)
    → r < 32
    → v < 2 ^ 32
    → upper_part v ≡ 0
    → run_word pc (rd_field r + imm_i v + 0x13) regs i ≡ write_reg regs r v i
addi_alone pc r v i regs small_r small none_up =
    let e : rd_field r + imm_i v + 0x13 ≡ rd_field r + rs1_field 0 + imm_i v + 0x13 = omega arith in
    let sum = rw none_up at (upper_part-sign12 v small) in
    rw (e, run_addi pc r 0 v i regs small_r (omega arith), sum) refl

lui_alone :
    (pc r v i : ℕ) (regs : Registers)
    → r < 32
    → v % 2 ^ 12 ≡ 0
    → run_word pc (rd_field r + 0x37 + v) regs i ≡ write_reg regs r v i
lui_alone pc r v i regs small aligned =
    let e : rd_field r + 0x37 + v ≡ rd_field r + v + 0x37 = omega arith in
    rw e (run_lui pc r v i regs small aligned)

overwrite :
    (r u v i : ℕ) (regs : Registers) (mid : Registers)
    → ((j : ℕ) → mid j ≡ write_reg regs r u j)
    → write_reg mid r v i ≡ write_reg regs r v i
overwrite r u v i regs mid h = ground (arith, h i)

-- However LI was optimised, and also where two words are kept for one that would do, running its
-- words puts the value into the register and changes no other register.
pub long_li-runs :
    (e r v pc i : ℕ) (both : Bool) (regs : Registers)
    → 0 < r
    → r < 32
    → v < 2 ^ 32
    → ((long_li e r v).flag ≡ true → both ≡ true)
    → run_code both pc (long_li e r v) regs i ≡ write_reg regs r v i
unfolding run_code long_li
long_li-runs e r v pc i both regs real small_r small wants =
    let lui = rd_field r + upper_part v + 0x37 in
    let up = λ (j : ℕ). run_lui pc r (upper_part v) j regs small_r (upper_part_aligned v) in
    let mid = run_word pc lui regs in
    let over = overwrite r (upper_part v) v i regs mid up in
    elim (Bool-cases (upper_part v == 0)) [
      | inl a ↦
          let z : upper_part v ≡ 0 = ground arith in
          let alone = addi_alone pc r v i regs small_r small z in
          let after = addi_alone (pc + 4) r v i mid small_r small z in
          elim (Bool-cases both) [
            | inl two ↦ rw (a, two) (after ∙ over)
            | inr one ↦ rw (a, one) alone
          ]
      | inr a ↦ elim (Bool-cases (v % 2 ^ 12 == 0)) [
        | inl b ↦
            let aligned : v % 2 ^ 12 ≡ 0 = ground arith in
            let alone = lui_alone pc r v i regs small_r aligned in
            let after = lui_alone (pc + 4) r v i mid small_r aligned in
            elim (Bool-cases both) [
              | inl two ↦ rw (a, b, two) (after ∙ over)
              | inr one ↦ rw (a, b, one) alone
            ]
        | inr b ↦
            let two = (rw (a, b) at wants) refl in
            let last = run_addi (pc + 4) r r v i mid small_r small_r in
            let held : read_reg mid r ≡ upper_part v = ground (arith, up r) in
            let sum = upper_part-sign12 v small in rw (a, b, two) (last ∙ rw (held, sum) over)
      ]
    ]

pub run_auipc :
    (pc r upper i : ℕ) (regs : Registers)
    → r < 32
    → upper % 2 ^ 12 ≡ 0
    → run_word pc (rd_field r + upper + 0x17) regs i ≡ write_reg regs r (add32 pc upper) i
unfolding run_word
run_auipc pc r upper i regs small aligned =
    let a : opcode (rd_field r + upper + 0x17) ≡ 0x17 = omega arith in
    let b : rd (rd_field r + upper + 0x17) ≡ r = omega arith in
    let c : (rd_field r + upper + 0x17) / 2 ^ 12 * 2 ^ 12 ≡ upper = omega arith in rw (a, b, c) refl

pub pc_upper-sign12 :
    (pc v : ℕ)
    → pc < 2 ^ 32
    → v < 2 ^ 32
    → add32 (add32 pc (upper_part v)) (sign12 (v % 2 ^ 12)) ≡ add32 pc v
unfolding upper_part sign12
pc_upper-sign12 pc v pc_small small = ground arith

-- The two words of LA, run where they stand, put the address into the register and change no other
-- register.
pub long_words-la :
    (ctx : AsmContext) (e r target i : ℕ) (regs : Registers)
    → 0 < r
    → r < 32
    → target < 2 ^ 32
    → ctx.scope.assembly_pointer < 2 ^ 32
    → ctx.token / 2 ^ 12 % 8 ≡ 1
    → run_code true ctx.scope.assembly_pointer
        (long_words ctx (r, rd_field r, rd_field r + rs1_field r) e target)
        regs
        i
      ≡ write_reg regs r target i
unfolding run_code long_words long_la
long_words-la ctx e r target i regs real small_r small pc_small la =
    let pc = ctx.scope.assembly_pointer in
    let v = sub32 target pc in
    let below : v < 2 ^ 32 = omega arith in
    let up = λ (j : ℕ). run_auipc pc r (upper_part v) j regs small_r (upper_part_aligned v) in
    let mid = run_word pc (rd_field r + upper_part v + 0x17) regs in
    let held : read_reg mid r ≡ add32 pc (upper_part v) = ground (arith, up r) in
    let last = run_addi (pc + 4) r r v i mid small_r small_r in
    let sum = pc_upper-sign12 pc v pc_small below in
    let there : add32 pc v ≡ target = omega arith in
    let over = overwrite r (add32 pc (upper_part v)) target i regs mid up in
    rw la (last ∙ rw (held, sum, there) over)
