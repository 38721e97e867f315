-- ===== src/Asm/Encode/Long.antt =====
-- LI, LA, CALL and TAIL: the pseudo-instructions of one or two words in `rv32i_mnemonic` of
-- tools/assembler/rva.c, and `variable_item_size`.
use riscy_os.Base.{
  ℕ, ◌+◌, ◌*◌, ◌/◌, ◌%◌, ◌^◌, Bool, true, false, ◌||◌, List, [], ◌∷◌, ◌++◌, ltb, ◌==◌,
  if◌then◌else◌, get_or, set, add32, sub32,
}
use riscy_os.Asm.Encode.{
  AsmContext, parsed, Parser, ◌>>=◌, reg_comma, evaluated, sym_unaligned_branch,
}
use riscy_os.Asm.Encode.Fields.{rd_field, rs1_field, imm_jal, imm_i}

-- SHRINK_STOP
abbrev pub shrink_stop : ℕ
shrink_stop = 10

-- The list of sizes, how many of its records the pass is past, and `size_changed_count`.
pub record SizeRecords : Type 0 where
  pub sizes : List ℕ
  pub current : ℕ
  pub size_changed_count : ℕ

-- `variable_item_size`: the size to be used, which is larger than the one that is asked for where a
-- late pass may not shrink it.
unfoldable pub variable_item_size : (pass_count size : ℕ) → SizeRecords → ℕ × SizeRecords
variable_item_size pass_count size st =
    let old = get_or st.sizes st.current 0 in
    let next = st.current + 1 in
    if pass_count == 0
    then (size, record st { sizes = st.sizes ++ (size ∷ []); current = next })
    else if old == size
    then (size, record st { current = next })
    else if ltb pass_count shrink_stop || ltb old size
    then (
      size,
      record {
        sizes = set st.sizes st.current size;
        current = next;
        size_changed_count = st.size_changed_count + 1;
      },
    )
    else (old, record st { current = next })

-- The error code, the two words, and whether both are wanted.
pub record LongCode : Type 0 where
  pub error : ℕ
  pub prefix_word : ℕ
  pub op_code : ℕ
  pub flag : Bool

-- The upper part of a value, rounded for the signed lower part.
unfoldable pub upper_part : ℕ → ℕ
upper_part v = add32 v 0x800 / 2 ^ 12 * 2 ^ 12

-- LI: LUI and ADDI, or one of them where that is enough.
unfoldable pub long_li : (error rd value : ℕ) → LongCode
long_li e rd v =
    let lui = rd_field rd + upper_part v + 0x37 in
    if upper_part v == 0
    then record {
      error = e;
      prefix_word = lui;
      op_code = rd_field rd + imm_i v + 0x13;
      flag = false;
    }
    else if v % 2 ^ 12 == 0
    then record { error = e; prefix_word = lui; op_code = rd_field rd + 0x37 + v; flag = false }
    else record {
      error = e;
      prefix_word = lui;
      op_code = rd_field rd + rs1_field rd + imm_i v + 0x13;
      flag = true;
    }

-- LA: AUIPC and ADDI, with the offset to the value.
unfoldable pub long_la : (error prefix op_code offset : ℕ) → LongCode
long_la e prefix op v = record {
  error = e;
  prefix_word = prefix + upper_part v + 0x17;
  op_code = op + imm_i v + 0x13;
  flag = true;
}

-- CALL and TAIL: AUIPC and JALR, or JAL with x1 in range; the first word of that is left without its
-- code.
unfoldable pub long_call : (error prefix op_code offset : ℕ) → LongCode
long_call e prefix op v =
    let upper = prefix + upper_part v in
    if v % 2 == 1
    then record {
      error = sym_unaligned_branch;
      prefix_word = upper;
      op_code = op + imm_i v;
      flag = true;
    }
    else if add32 v (2 ^ 20) / 2 ^ 21 == 0
    then record { error = e; prefix_word = upper; op_code = 0xEF + imm_jal v; flag = false }
    else record {
      error = e;
      prefix_word = upper + 0x17;
      op_code = op + imm_i v + 0x67;
      flag = true;
    }

module _ (ctx : AsmContext) where
  -- The registers' fields of the two words: from the line, or from the token.
  unfoldable pub long_fields : Parser (ℕ × ℕ × ℕ)
  long_fields =
      if ctx.token / 2 ^ 13 % 2 == 0
      then (do rd ← reg_comma ctx; parsed (rd, rd_field rd, rd_field rd + rs1_field rd))
      else parsed (
        0,
        rd_field (ctx.token / 2 ^ 20 % 32),
        rs1_field (ctx.token / 2 ^ 20 % 32) + rd_field (ctx.token / 2 ^ 25 % 32),
      )

  -- The words for a value.
  unfoldable pub long_words : (fields : ℕ × ℕ × ℕ) → (error value : ℕ) → LongCode
  long_words fields e value =
      let kind = ctx.token / 2 ^ 12 % 8 in
      let v = if kind == 0 then value else sub32 value ctx.scope.assembly_pointer in
      if kind == 0
      then long_li e fields.0 v
      else if kind == 1
      then long_la e fields.1 fields.2 v
      else if kind == 2
      then long_call e fields.1 fields.2 v
      else record {
        error = e;
        prefix_word = fields.1 + upper_part v;
        op_code = fields.2 + imm_i v;
        flag = true;
      }

  unfoldable pub long_pseudo : Parser LongCode
  long_pseudo = do
    fields ← long_fields
    value ← evaluated ctx
    parsed (long_words fields value.0 value.1)
