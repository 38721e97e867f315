-- ===== src/Asm/Directive/Texts.antt =====
-- What DEFB, DEFH and DEFW dump for a text.
use riscy_os.Base.{
  ℕ, zero, suc, ◌+◌, ◌*◌, ◌≡◌, refl, sym, ap, ◌∙◌, true, false, some, List, [], ◌∷◌, ◌++◌, arith,
  ◌==◌, length, get_or, add32,
}
use riscy_os.Asm.Lexer.{skip_spc, drop_chars}
use riscy_os.Asm.Variable.{char_at, skip_to}
use riscy_os.Asm.Encode.{AsmContext}
use riscy_os.Asm.Encode.Mnemonic.{Dump}
use riscy_os.Asm.Directive.{LineState, is_active, byte_dump, advance}
use riscy_os.Asm.Directive.Define.{
  read_text, dump_chars, is_delimiter, at_position, define_text, define_element, define_loop,
  assemble_define,
}

-- Characters that stand for themselves between the delimiters.
abbrev pub Plain : (delimiter : ℕ) → List ℕ → Type 0
Plain d [] = Unit
Plain d (c ∷ cs) = ((c == d) ≡ false) × ((c == 92) ≡ false) × Plain d cs

read_text-delimiter :
    (d : ℕ) (rest : List ℕ)
    → read_text d (d ∷ rest) ≡ record { chars = []; moved = 0; closed = true }
unfolding read_text
read_text-delimiter d [] = ground arith
read_text-delimiter d (c ∷ cs) = ground arith

read_text-Plain :
    (d : ℕ) (cs rest : List ℕ)
    → Plain d cs
    → read_text d (cs ++ d ∷ rest) ≡ record { chars = cs; moved = length cs; closed = true }
unfolding read_text
read_text-Plain d [] rest plain = read_text-delimiter d rest
read_text-Plain d (c ∷ []) rest (other, no_escape, plain) =
    rw (other, no_escape) (rw (read_text-delimiter d rest) refl)
read_text-Plain d (c ∷ e ∷ es) rest (other, no_escape, plain) =
    let more : 1 + suc (length es) ≡ suc (suc (length es)) = omega arith in
    rw (other, no_escape, read_text-Plain d (e ∷ es) rest plain, more) refl

-- One dump for each character.
abbrev pub text_dumps : (size address : ℕ) → List ℕ → List Dump
text_dumps size address [] = []
text_dumps size address (c ∷ cs) =
    record { address = address; value = c; size = size } ∷ text_dumps size (add32 address size) cs

append_assoc : (xs ys zs : List Dump) → (xs ++ ys) ++ zs ≡ xs ++ (ys ++ zs)
append_assoc [] ys zs = refl
append_assoc (x ∷ xs) ys zs = ap (λ (l : List Dump). x ∷ l) (append_assoc xs ys zs)

append-nil : (xs : List Dump) → xs ++ [] ≡ xs
append-nil [] = refl
append-nil (x ∷ xs) = ap (λ (l : List Dump). x ∷ l) (append-nil xs)

abbrev with_dumps : LineState → List Dump → LineState
with_dumps st ds = record st { assembly = record (st.assembly) { dumps = ds } }

byte_dump-with_dumps :
    (ctx : AsmContext) (size address c : ℕ) (st : LineState)
    → ctx.last_pass ≡ true
    → ctx.dump_code ≡ true
    → is_active st.if_stack ≡ true
    → byte_dump ctx address c size st
      ≡ with_dumps st
          (st.assembly.dumps ++ record { address = address; value = c; size = size } ∷ [])
unfolding byte_dump
byte_dump-with_dumps ctx size address c st last dumping active = rw (last, dumping, active) refl

dump_chars-text_dumps :
    (ctx : AsmContext) (size address : ℕ) (cs : List ℕ) (st : LineState)
    → ctx.last_pass ≡ true
    → ctx.dump_code ≡ true
    → is_active st.if_stack ≡ true
    → dump_chars ctx size address cs st
      ≡ with_dumps st (st.assembly.dumps ++ text_dumps size address cs)
unfolding dump_chars
dump_chars-text_dumps ctx size address [] st last dumping active =
    ap (with_dumps st) (sym (append-nil st.assembly.dumps))
dump_chars-text_dumps ctx size address (c ∷ cs) st last dumping active =
    let first : Dump = record { address = address; value = c; size = size } in
    let rest =
      dump_chars-text_dumps ctx size (add32 address size) cs
        (with_dumps st (st.assembly.dumps ++ first ∷ [])) last dumping active in
    rw (byte_dump-with_dumps ctx size address c st last dumping active) (
      rest
      ∙ ap (with_dumps st)
          (append_assoc st.assembly.dumps (first ∷ []) (text_dumps size (add32 address size) cs)))

char_at-drop_chars :
    (line : List ℕ) (p c : ℕ) (rest : List ℕ)
    → drop_chars p line ≡ c ∷ rest
    → (char_at line p ≡ c) × (drop_chars (suc p) line ≡ rest)
unfolding drop_chars
char_at-drop_chars [] zero c rest h = absurd (omega (arith, ap length h))
char_at-drop_chars [] (suc p) c rest h = absurd (omega (arith, ap length h))
char_at-drop_chars (x ∷ xs) zero c rest h =
    (ap (λ (l : List ℕ). get_or l 0 0) h, ap (drop_chars 1) h)
char_at-drop_chars (x ∷ xs) (suc p) c rest h = char_at-drop_chars xs p c rest h

define_text-Plain :
    (ctx : AsmContext) (size d : ℕ) (cs rest : List ℕ) (st : LineState)
    → drop_chars st.assembly.position ctx.line ≡ d ∷ (cs ++ d ∷ rest)
    → Plain d cs
    → ctx.last_pass ≡ true
    → ctx.dump_code ≡ true
    → is_active st.if_stack ≡ true
    → define_text ctx size 0 st ≡ record {
      increment = 0 + size * length cs;
      error = 0;
      terminate = false;
      state = at_position (skip_to ctx.line (st.assembly.position + 1 + length cs + 1)) (
          with_dumps st
            (st.assembly.dumps ++ text_dumps size (add32 st.assembly.assembly_pointer 0) cs));
    }
unfolding define_text
define_text-Plain ctx size d cs rest st here plain last dumping active =
    let p = st.assembly.position in
    let (first, behind) = char_at-drop_chars ctx.line p d (cs ++ d ∷ rest) here in
    let one : p + 1 ≡ suc p = omega arith in
    let read = read_text-Plain d cs rest plain in
    let dumps =
      dump_chars-text_dumps ctx size (add32 st.assembly.assembly_pointer 0) cs st last dumping
        active in
    let after : drop_chars (p + 1) ctx.line ≡ cs ++ d ∷ rest =
      ap (λ (k : ℕ). drop_chars k ctx.line) one ∙ behind in
    rw (first, after, read, dumps) refl

not_blank : (d : ℕ) (rest : List ℕ) → is_delimiter d ≡ true → skip_spc (d ∷ rest) ≡ 0
unfolding skip_spc
not_blank d rest h = ground arith

define_element-text :
    (ctx : AsmContext) (size d : ℕ) (tail : List ℕ) (st : LineState)
    → drop_chars st.assembly.position ctx.line ≡ d ∷ tail
    → is_delimiter d ≡ true
    → define_element ctx size 0 st ≡ define_text ctx size 0 st
unfolding define_element
define_element-text ctx size d tail st here delimits =
    let p = st.assembly.position in
    let (first, behind) = char_at-drop_chars ctx.line p d tail here in
    let stays : skip_to ctx.line p ≡ p = rw (here, not_blank d tail delimits) (omega arith) in
    rw (stays, first, delimits) refl

-- DEFB of one text, on the last pass of a dump that no IF suppresses: between its delimiters the
-- characters, none of which is a backslash, are dumped one behind the other from the assembly pointer
-- on, `size` bytes each, and the pointer moves behind them.
pub assemble_define_text :
    (ctx : AsmContext) (size d : ℕ) (cs rest : List ℕ) (st : LineState)
    → drop_chars st.assembly.position ctx.line ≡ d ∷ (cs ++ d ∷ rest)
    → is_delimiter d ≡ true
    → Plain d cs
    → (char_at ctx.line (skip_to ctx.line (st.assembly.position + 1 + length cs + 1)) == b',')
      ≡ false
    → ctx.last_pass ≡ true
    → ctx.dump_code ≡ true
    → is_active st.if_stack ≡ true
    → (last : LineState) × (assemble_define ctx size st ≡ some (0, last))
      × (last.assembly.dumps
          ≡ st.assembly.dumps ++ text_dumps size (add32 st.assembly.assembly_pointer 0) cs)
      × (last.assembly.assembly_pointer ≡ add32 st.assembly.assembly_pointer (size * length cs))
unfolding assemble_define define_loop advance
assemble_define_text ctx size d cs rest st here delimits plain no_comma last dumping active =
    let p = st.assembly.position in
    let is_text = define_element-text ctx size d (cs ++ d ∷ rest) st here delimits in
    let element = define_text-Plain ctx size d cs rest st here plain last dumping active in
    let fuel : 1 + length ctx.line ≡ suc (length ctx.line) = omega arith in
    let behind = at_position (skip_to ctx.line (p + 1 + length cs + 1)) (
      with_dumps st
        (st.assembly.dumps ++ text_dumps size (add32 st.assembly.assembly_pointer 0) cs)) in
    let whole : 0 + size * length cs ≡ size * length cs = omega arith in
    (
      advance (0 + size * length cs) behind,
      rw (fuel, is_text, element, no_comma) refl,
      rw active refl,
      rw (active, whole) refl,
    )
