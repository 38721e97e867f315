-- ===== src/Asm/Encode/Mnemonic.antt =====
-- `rv32i_mnemonic` of tools/assembler/rva.c: one instruction, from its token to the bytes.
use riscy_os.Base.{
  ℕ, ◌/◌, ◌%◌, ◌^◌, Bool, false, not, ◌&&◌, ◌||◌, List, [], ◌∷◌, ◌++◌, ◌==◌, if◌then◌else◌, add32,
}
use riscy_os.Asm.Lexer.{allow_error}
use riscy_os.Asm.Encode.{AsmContext, Cursor, Parsed, parsed, failed, Parser}
use riscy_os.Asm.Encode.Formats.{u_type, j_type, i_type, b_type, r_type, atomic}
use riscy_os.Asm.Encode.Address.{s_type, load}
use riscy_os.Asm.Encode.Pseudo.{fence, environment, csr, pseudo_op}
use riscy_os.Asm.Encode.Long.{SizeRecords, variable_item_size, LongCode, long_pseudo}

-- A call of `byte_dump` that is not suppressed.
pub record Dump : Type 0 where
  pub address : ℕ
  pub value : ℕ
  pub size : ℕ

pub record Assembly : Type 0 where
  pub assembly_pointer : ℕ
  pub position : ℕ
  pub undefined_count : ℕ
  pub div_zero : Bool
  pub size_records : SizeRecords
  pub dumps : List Dump

module _ (ctx : AsmContext) where
  -- A word of code at the assembly pointer, on the last pass.
  unfoldable pub dump_word : (value : ℕ) → Assembly → Assembly
  dump_word v a =
      if ctx.last_pass && ctx.dump_code && ctx.if_active
      then record a {
        dumps = a.dumps ++ (record { address = a.assembly_pointer; value = v; size = 4 } ∷ []);
      }
      else a

  -- `prefix_dump`, which does not ask whether an IF is active for the pointer.
  unfoldable pub prefix_dump : (prefix : ℕ) → Assembly → Assembly
  prefix_dump prefix a = record (dump_word prefix a) {
    assembly_pointer = add32 a.assembly_pointer 4;
  }

  -- The end of `rv32i_mnemonic`: the word, or on an error a placeholder.
  unfoldable pub put_word : (error op_code : ℕ) → Assembly → ℕ × Assembly
  put_word e op a =
      let e' =
        if not ctx.last_pass && allow_error e (ctx.pass_count == 0) ctx.last_pass then 0 else e in
      (
        e',
        record (dump_word (if e == 0 then op else 0) a) {
          assembly_pointer =
              if ctx.if_active then add32 a.assembly_pointer 4 else a.assembly_pointer;
        },
      )

  -- The cases of the classes of tokens, for one word.
  unfoldable pub one_word : Parser ℕ
  one_word =
      let kind = ctx.token / 2 ^ 16 % 16 in
      if kind == 0
      then u_type ctx
      else if kind == 1
      then j_type ctx
      else if kind == 2
      then i_type ctx
      else if kind == 3
      then b_type ctx
      else if kind == 4
      then s_type ctx
      else if kind == 5
      then load ctx
      else if kind == 6
      then r_type ctx
      else if kind == 7
      then parsed (environment ctx)
      else if kind == 8
      then fence ctx
      else if kind == 9
      then pseudo_op ctx
      else if kind == 10
      then csr ctx
      else if kind == 12
      then atomic ctx
      else parsed 0

  -- Where the parsers stopped.
  abbrev pub moved : Cursor → Assembly → Assembly
  moved c a = record a {
    position = c.position;
    undefined_count = c.undefined_count;
    div_zero = c.div_zero;
  }

  unfoldable pub put_parsed : Parsed ℕ → Assembly → ℕ × Assembly
  put_parsed (parsed op c) a =
      put_word 0 op (if c.prefix == 0 then moved c a else prefix_dump c.prefix (moved c a))
  put_parsed (failed e c) a =
      put_word e 0 (if c.prefix == 0 then moved c a else prefix_dump c.prefix (moved c a))

  -- One or two words; a size that an earlier pass has fixed may call for the first one.
  unfoldable pub put_long_code : LongCode → Assembly → ℕ × Assembly
  put_long_code code a =
      let sized = variable_item_size ctx.pass_count (if code.flag then 8 else 4) a.size_records in
      let a' = record a { size_records = sized.1 } in
      put_word code.error code.op_code
        (if code.flag || sized.0 == 8 then prefix_dump code.prefix_word a' else a')

  -- An error before the value leaves the flag unset in C; it is taken to be FALSE.
  unfoldable pub put_long : Parsed LongCode → Assembly → ℕ × Assembly
  put_long (parsed code c) a = put_long_code code (moved c a)
  put_long (failed e c) a =
      put_long_code (record { error = e; prefix_word = 0; op_code = 0; flag = false }) (moved c a)

  -- `rv32i_mnemonic`: the error code and what has changed. Passes between the first and the last one
  -- look only at instructions whose length may vary.
  unfoldable pub rv32i_mnemonic : Assembly → ℕ × Assembly
  rv32i_mnemonic a =
      let c : Cursor = record {
        position = a.position;
        prefix = 0;
        undefined_count = a.undefined_count;
        div_zero = a.div_zero;
      } in
      if ctx.pass_count == 0 || ctx.last_pass || ctx.token / 2 ^ 15 % 2 == 1
      then (if ctx.token / 2 ^ 16 % 16 == 11
          then put_long (long_pseudo ctx c) a
          else put_parsed (one_word c) a)
      else put_word 0 0 a
