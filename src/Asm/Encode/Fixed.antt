-- ===== src/Asm/Encode/Fixed.antt =====
-- An instruction whose length does not vary takes 4 bytes on every pass.
use riscy_os.Base.{
  ℕ, ◌+◌, ◌/◌, ◌%◌, ◌^◌, ◌≡◌, refl, ◌≢◌, inl, inr, Bool, true, false, ◌||◌, Option, none, some,
  arith, ◌==◌, if◌then◌else◌, Bool-cases, add32,
}
use riscy_os.Asm.Encode.{AsmContext, Cursor, Parsed, parsed, failed, Parser}
use riscy_os.Asm.Encode.Formats.{
  u_type, j_type, link_register, jump_offset, i_type, i_immediate, b_type, b_offset, branch_field,
  r_type, atomic,
}
use riscy_os.Asm.Encode.Address.{s_type, base_register, addr_offset, addr_mode, load}
use riscy_os.Asm.Encode.Pseudo.{
  fence_fields, fence, parse_csr, parse_csr2, csr, csr_pseudo, jr, j_pseudo, two_reg_pseudo,
  branch_pseudo, counter_pseudo, pseudo_op,
}
use riscy_os.Asm.Encode.Mnemonic.{moved, Assembly, put_word, one_word, put_parsed, rv32i_mnemonic}
use riscy_os.Asm.Encode.Keeps.{Keeps, prefix_of, parsed-Keeps, keeps_rules}

u_type-Keeps : (ctx : AsmContext) → Keeps (u_type ctx)
unfolding u_type
u_type-Keeps ctx = search keeps_rules

jump_offset-Keeps : (ctx : AsmContext) (e target : ℕ) → Keeps (jump_offset ctx e target)
unfolding jump_offset
jump_offset-Keeps ctx e target = search keeps_rules

link_register-Keeps : (ctx : AsmContext) (found : Option ℕ) → Keeps (link_register ctx found)
unfolding link_register
link_register-Keeps ctx none = search keeps_rules
link_register-Keeps ctx (some r) = search keeps_rules

j_type-Keeps : (ctx : AsmContext) → Keeps (j_type ctx)
unfolding j_type
j_type-Keeps ctx = search (keeps_rules, jump_offset-Keeps, link_register-Keeps)

i_immediate-Keeps : (ctx : AsmContext) (e value : ℕ) → Keeps (i_immediate ctx e value)
unfolding i_immediate
i_immediate-Keeps ctx e value = search keeps_rules

i_type-Keeps : (ctx : AsmContext) → Keeps (i_type ctx)
unfolding i_type
i_type-Keeps ctx = search (keeps_rules, i_immediate-Keeps)

branch_field-Keeps : (ctx : AsmContext) (e v : ℕ) → Keeps (branch_field ctx e v)
unfolding branch_field
branch_field-Keeps ctx e v = search keeps_rules

b_offset-Keeps : (ctx : AsmContext) → Keeps (b_offset ctx)
unfolding b_offset
b_offset-Keeps ctx = search (keeps_rules, branch_field-Keeps)

b_type-Keeps : (ctx : AsmContext) → Keeps (b_type ctx)
unfolding b_type
b_type-Keeps ctx = search (keeps_rules, b_offset-Keeps)

r_type-Keeps : (ctx : AsmContext) → Keeps (r_type ctx)
unfolding r_type
r_type-Keeps ctx = search keeps_rules

atomic-Keeps : (ctx : AsmContext) → Keeps (atomic ctx)
unfolding atomic
atomic-Keeps ctx = search keeps_rules depth 12

fence_fields-Keeps : (ctx : AsmContext) → Keeps (fence_fields ctx)
unfolding fence_fields
fence_fields-Keeps ctx = record { kept = λ c. refl }

fence-Keeps : (ctx : AsmContext) → Keeps (fence ctx)
unfolding fence
fence-Keeps ctx = search (keeps_rules, fence_fields-Keeps) depth 12

parse_csr-Keeps : (ctx : AsmContext) → Keeps (parse_csr ctx)
unfolding parse_csr
parse_csr-Keeps ctx = search keeps_rules

parse_csr2-Keeps : (ctx : AsmContext) → Keeps (parse_csr2 ctx)
unfolding parse_csr2
parse_csr2-Keeps ctx = search keeps_rules

csr-Keeps : (ctx : AsmContext) → Keeps (csr ctx)
unfolding csr
csr-Keeps ctx = search (keeps_rules, parse_csr-Keeps, parse_csr2-Keeps)

csr_pseudo-Keeps : (ctx : AsmContext) → Keeps (csr_pseudo ctx)
unfolding csr_pseudo
csr_pseudo-Keeps ctx = search (keeps_rules, parse_csr-Keeps, parse_csr2-Keeps) depth 12

jr-Keeps : (ctx : AsmContext) → Keeps (jr ctx)
unfolding jr
jr-Keeps ctx = search keeps_rules depth 12

j_pseudo-Keeps : (ctx : AsmContext) → Keeps (j_pseudo ctx)
unfolding j_pseudo
j_pseudo-Keeps ctx = search keeps_rules depth 12

two_reg_pseudo-Keeps : (ctx : AsmContext) → Keeps (two_reg_pseudo ctx)
unfolding two_reg_pseudo
two_reg_pseudo-Keeps ctx = search keeps_rules depth 12

branch_pseudo-Keeps : (ctx : AsmContext) → Keeps (branch_pseudo ctx)
unfolding branch_pseudo
branch_pseudo-Keeps ctx = search (keeps_rules, b_offset-Keeps) depth 12

counter_pseudo-Keeps : (ctx : AsmContext) → Keeps (counter_pseudo ctx)
unfolding counter_pseudo
counter_pseudo-Keeps ctx = search keeps_rules depth 12

pseudo_op-Keeps : (ctx : AsmContext) → Keeps (pseudo_op ctx)
unfolding pseudo_op
pseudo_op-Keeps ctx =
    search
      (
        keeps_rules, csr_pseudo-Keeps, jr-Keeps, j_pseudo-Keeps, two_reg_pseudo-Keeps,
        branch_pseudo-Keeps, counter_pseudo-Keeps,
      )
      depth 12

closing-Keeps :
    (reg v : ℕ) (fits : Bool)
    → Keeps {A = ℕ × ℕ} (λ c.
      if fits
      then parsed (reg, v % 2 ^ 12) (record c { position = c.position + 1 })
      else failed 0x30800 (record c { position = c.position + 1 }))
closing-Keeps reg v true = record { kept = λ c. refl }
closing-Keeps reg v false = record { kept = λ c. refl }

base_register-Keeps : (ctx : AsmContext) (v : ℕ) (fits : Bool) → Keeps (base_register ctx v fits)
unfolding base_register
base_register-Keeps ctx v fits = search (keeps_rules, closing-Keeps) depth 8

-- JALR needs a bracket, and so has no additional instruction.
addr_offset-Keeps :
    (ctx : AsmContext) (target : ℕ)
    → (ctx.token / 2 ^ 16 % 4096 == 0x195) ≡ true
    → Keeps (addr_offset ctx target)
unfolding addr_offset
addr_offset-Keeps ctx target jalr =
    rw (jalr, addr_offset) (search (keeps_rules, base_register-Keeps) depth 8)

load-Keeps : (ctx : AsmContext) → (ctx.token / 2 ^ 16 % 4096 == 0x195) ≡ true → Keeps (load ctx)
unfolding load addr_mode
load-Keeps ctx jalr = search (keeps_rules, base_register-Keeps, addr_offset-Keeps) depth 12

choose-Keeps :
    {A : Type 0} {p q : Parser A} (b : Bool)
    → (b ≡ true → Keeps p)
    → (b ≡ false → Keeps q)
    → Keeps (if b then p else q)
choose-Keeps true first _ = first refl
choose-Keeps false _ second = second refl

ruleset word_rules = (
  choose-Keeps, parsed-Keeps, u_type-Keeps, j_type-Keeps, i_type-Keeps, b_type-Keeps, r_type-Keeps,
  atomic-Keeps, fence-Keeps, csr-Keeps, pseudo_op-Keeps,
)

one_word-Keeps :
    (ctx : AsmContext)
    → ctx.token / 2 ^ 16 % 16 ≢ 4
    → (ctx.token / 2 ^ 16 % 16 ≡ 5 → ctx.token / 2 ^ 16 % 4096 ≡ 0x195)
    → Keeps (one_word ctx)
unfolding one_word
one_word-Keeps ctx no_store only_jalr =
    let kind = ctx.token / 2 ^ 16 % 16 in
    let stores : (kind == 4) ≡ true → Keeps (s_type ctx) = λ is_store. ground arith in
    let loads : (kind == 5) ≡ true → Keeps (load ctx) = λ is_load. load-Keeps ctx (ground arith) in
    search (word_rules, stores, loads) depth 30

put_word-pointer :
    (ctx : AsmContext) (e op : ℕ) (a : Assembly)
    → ctx.if_active ≡ true
    → (put_word ctx e op a).1.assembly_pointer ≡ add32 a.assembly_pointer 4
unfolding put_word
put_word-pointer ctx e op a active = rw active refl

put_parsed-pointer :
    (ctx : AsmContext) (r : Parsed ℕ) (a : Assembly)
    → ctx.if_active ≡ true
    → prefix_of r ≡ 0
    → (put_parsed ctx r a).1.assembly_pointer ≡ add32 a.assembly_pointer 4
unfolding put_parsed
put_parsed-pointer ctx (parsed op c) a active no_prefix =
    rw no_prefix (put_word-pointer ctx 0 op (moved ctx c a) active)
put_parsed-pointer ctx (failed e c) a active no_prefix =
    rw no_prefix (put_word-pointer ctx e 0 (moved ctx c a) active)

-- Where no IF suppresses code, an instruction that is no store, no load but JALR, and none of LI, LA,
-- CALL and TAIL moves the assembly pointer by 4, on every pass and also on an error.
rv32i_mnemonic_fixed :
    (ctx : AsmContext) (a : Assembly)
    → ctx.if_active ≡ true
    → ctx.token / 2 ^ 16 % 16 ≢ 4
    → ctx.token / 2 ^ 16 % 16 ≢ 11
    → (ctx.token / 2 ^ 16 % 16 ≡ 5 → ctx.token / 2 ^ 16 % 4096 ≡ 0x195)
    → (rv32i_mnemonic ctx a).1.assembly_pointer ≡ add32 a.assembly_pointer 4
unfolding rv32i_mnemonic
rv32i_mnemonic_fixed ctx a active no_store short only_jalr =
    let c : Cursor = record {
      position = a.position;
      prefix = 0;
      undefined_count = a.undefined_count;
      div_zero = a.div_zero;
    } in
    let one : (ctx.token / 2 ^ 16 % 16 == 11) ≡ false = ground arith in
    let keeps = one_word-Keeps ctx no_store only_jalr in
    elim (Bool-cases (ctx.pass_count == 0 || ctx.last_pass || ctx.token / 2 ^ 15 % 2 == 1)) [
      | inl looks ↦
          rw (looks, one) (put_parsed-pointer ctx (one_word ctx c) a active (keeps.kept c))
      | inr skips ↦ rw skips (put_word-pointer ctx 0 0 a active)
    ]
