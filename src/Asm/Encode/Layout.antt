-- ===== src/Asm/Encode/Layout.antt =====
-- Where `rv32i_mnemonic` puts its words, and how far it moves the assembly pointer.
use riscy_os.Base.{
  ℕ, ◌/◌, ◌%◌, ◌^◌, ◌≡◌, refl, ap, ◌∙◌, ◌⊎◌, inl, inr, true, false, ◌||◌, List, [], ◌∷◌, ◌++◌,
  arith, ◌==◌, if◌then◌else◌, Bool-cases, length, add32,
}
use riscy_os.Asm.Encode.{AsmContext, Cursor, Parsed, parsed, failed}
use riscy_os.Asm.Encode.Long.{variable_item_size, LongCode, long_pseudo}
use riscy_os.Asm.Encode.Mnemonic.{
  Dump, Assembly, dump_word, prefix_dump, put_word, one_word, moved, put_parsed, put_long_code,
  put_long, rv32i_mnemonic,
}

-- Words that stand one behind the other, from an address up to another one.
abbrev pub Covers : (from to : ℕ) → List Dump → Type 0
Covers p q [] = p ≡ q
Covers p q (d ∷ ds) = (d.address ≡ p) × (d.size ≡ 4) × Covers (add32 p 4) q ds

-- What a step has dumped: one or two words, which cover what the pointer has moved over.
abbrev pub Lays : (count : ℕ) → (before after : Assembly) → Type 0
Lays n a b =
    (new : List Dump) × (b.dumps ≡ a.dumps ++ new)
    × (length new ≡ n)
    × Covers a.assembly_pointer b.assembly_pointer new

append_assoc : (xs ys zs : List Dump) → (xs ++ ys) ++ zs ≡ xs ++ (ys ++ zs)
append_assoc [] ys zs = refl
append_assoc (x ∷ xs) ys zs = ap (λ (l : List Dump). x ∷ l) (append_assoc xs ys zs)

module _ (ctx : AsmContext) (last : ctx.last_pass ≡ true) (dumping : ctx.dump_code ≡ true)
    (active : ctx.if_active ≡ true) where
  dump_word-dumps :
      (v : ℕ) (a : Assembly)
      → (dump_word ctx v a).dumps
        ≡ a.dumps ++ (record { address = a.assembly_pointer; value = v; size = 4 } ∷ [])
  unfolding dump_word
  dump_word-dumps v a = rw (last, dumping, active) refl

  put_word-Lays : (e op : ℕ) (a : Assembly) → Lays 1 a (put_word ctx e op a).1
  unfolding put_word
  put_word-Lays e op a =
      let v = if e == 0 then op else 0 in
      (
        record { address = a.assembly_pointer; value = v; size = 4 } ∷ [],
        dump_word-dumps v a,
        refl,
        (refl, refl, rw active refl),
      )

  prefix_dump-Lays :
      (p e op : ℕ) (a : Assembly) → Lays 2 a (put_word ctx e op (prefix_dump ctx p a)).1
  unfolding put_word prefix_dump
  prefix_dump-Lays p e op a =
      let v = if e == 0 then op else 0 in
      let first : Dump = record { address = a.assembly_pointer; value = p; size = 4 } in
      let second : Dump = record { address = add32 a.assembly_pointer 4; value = v; size = 4 } in
      (
        first ∷ second ∷ [],
        dump_word-dumps v (prefix_dump ctx p a)
            ∙ rw (dump_word-dumps p a) (append_assoc a.dumps (first ∷ []) (second ∷ [])),
        refl,
        (refl, refl, (refl, refl, rw active refl)),
      )

  -- One word or two.
  abbrev LaysWords : (before after : Assembly) → Type 0
  LaysWords a b = Lays 1 a b ⊎ Lays 2 a b

  put_parsed-Lays : (r : Parsed ℕ) (a : Assembly) → LaysWords a (put_parsed ctx r a).1
  unfolding put_parsed
  put_parsed-Lays (parsed op c) a = elim (Bool-cases (c.prefix == 0)) [
    | inl none_there ↦ rw none_there (inl (put_word-Lays 0 op (moved ctx c a)))
    | inr there ↦ rw there (inr (prefix_dump-Lays c.prefix 0 op (moved ctx c a)))
  ]
  put_parsed-Lays (failed e c) a = elim (Bool-cases (c.prefix == 0)) [
    | inl none_there ↦ rw none_there (inl (put_word-Lays e 0 (moved ctx c a)))
    | inr there ↦ rw there (inr (prefix_dump-Lays c.prefix e 0 (moved ctx c a)))
  ]

  put_long_code-Lays : (code : LongCode) (a : Assembly) → LaysWords a (put_long_code ctx code a).1
  unfolding put_long_code
  put_long_code-Lays code a =
      let sized = variable_item_size ctx.pass_count (if code.flag then 8 else 4) a.size_records in
      let a' = record a { size_records = sized.1 } in
      elim (Bool-cases (code.flag || sized.0 == 8)) [
        | inl two ↦ rw two (inr (prefix_dump-Lays code.prefix_word code.error code.op_code a'))
        | inr one ↦ rw one (inl (put_word-Lays code.error code.op_code a'))
      ]

  put_long-Lays : (r : Parsed LongCode) (a : Assembly) → LaysWords a (put_long ctx r a).1
  unfolding put_long
  put_long-Lays (parsed code c) a = put_long_code-Lays code (moved ctx c a)
  put_long-Lays (failed e c) a =
      put_long_code-Lays (record { error = e; prefix_word = 0; op_code = 0; flag = false })
        (moved ctx c a)

  -- On the last pass of a dump that no IF suppresses, an instruction dumps one word or two, on an
  -- error too: they stand one behind the other from the assembly pointer to where it is moved, and
  -- what was dumped before is kept.
  pub rv32i_mnemonic-Lays :
      (a : Assembly) → Lays 1 a (rv32i_mnemonic ctx a).1 ⊎ Lays 2 a (rv32i_mnemonic ctx a).1
  unfolding rv32i_mnemonic
  rv32i_mnemonic-Lays a =
      let c : Cursor = record {
        position = a.position;
        prefix = 0;
        undefined_count = a.undefined_count;
        div_zero = a.div_zero;
      } in
      let parse : (ctx.pass_count == 0 || ctx.last_pass || ctx.token / 2 ^ 15 % 2 == 1) ≡ true =
        ground arith in
      elim (Bool-cases (ctx.token / 2 ^ 16 % 16 == 11)) [
        | inl long ↦ rw (parse, long) (put_long-Lays (long_pseudo ctx c) a)
        | inr short ↦ rw (parse, short) (put_parsed-Lays (one_word ctx c) a)
      ]
