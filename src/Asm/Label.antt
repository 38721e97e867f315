-- ===== src/Asm/Label.antt =====
-- `assemble_redef_label` of tools/assembler/rva.c: the label of a line gets its value. The value and
-- the flags are those of a symbol's record or of a local label; the lowest 8 bits of the flags hold
-- the pass, bit 8 says that the label is defined.
use riscy_os.Base.{
  ℕ, ◌+◌, ◌-◌, ◌/◌, ◌%◌, ◌<◌, ◌≡◌, refl, ap, ◌≢◌, ◌↔◌, inl, inr, Bool, true, false, not, ◌&&◌, ◌||◌,
  arith, ◌==◌, if◌then◌else◌, Bool-cases,
}
use riscy_os.Asm.Lexer.{allow_error}
use riscy_os.Asm.Symbols.{sym_rec_def_flag}

abbrev pub sym_inconsistent : ℕ
sym_inconsistent = 0xF00

pub record Label : Type 0 where
  pub value : ℕ
  pub flags : ℕ

pub record LabelCounts : Type 0 where
  pub defined_count : ℕ
  pub redefined_count : ℕ

abbrev pub has_flag : (flags flag : ℕ) → Bool
has_flag flags flag = flags / flag % 2 == 1

-- flags | flag, for a flag of one bit; 0 is no flag.
abbrev pub add_flag : (flags flag : ℕ) → ℕ
add_flag flags flag = if flag == 0 || has_flag flags flag then flags else flags + flag

abbrev pub remove_flag : (flags flag : ℕ) → ℕ
remove_flag flags flag = if has_flag flags flag then flags - flag else flags

-- (flags & 0xFFFFFF00) | pass_count, and the change of the type
unfoldable pub stamp : (flags pass_count type_change : ℕ) → ℕ
stamp flags pass_count type_change = add_flag (flags - flags % 256 + pass_count) type_change

-- A label that is new to this pass, or was undefined.
unfoldable pub new_encounter :
    (value : ℕ) (value_defined : Bool) (error_code pass_count : ℕ) (last_pass : Bool)
    → Label
    → LabelCounts
    → ℕ × ℕ × LabelCounts
new_encounter v true e pass_count last_pass l n = (
  e,
  add_flag l.flags sym_rec_def_flag,
  (if not (has_flag l.flags sym_rec_def_flag)
      then record n { defined_count = n.defined_count + 1 }
      else if l.value == v
      then n
      else record n { redefined_count = n.redefined_count + 1 }),
)
new_encounter v false e pass_count last_pass l n = (
  if allow_error e (pass_count == 0) last_pass then 0 else e,
  remove_flag l.flags sym_rec_def_flag,
  n,
)

-- What becomes of the error code, of the label and of the counts.
unfoldable pub assemble_redef_label :
    (value : ℕ) (defined : Bool) (error_code type_change pass_count : ℕ) (last_pass : Bool)
    → Label
    → LabelCounts
    → ℕ × Label × LabelCounts
assemble_redef_label v defined e type_change pass_count last_pass l n =
    let value_defined = e == 0 && defined in
    let met = new_encounter v value_defined e pass_count last_pass l n in
    if not (l.flags % 256 == pass_count) || not (has_flag l.flags sym_rec_def_flag)
    then (met.0, record { value = v; flags = stamp met.1 pass_count type_change }, met.2)
    else (
      if value_defined && l.value == v then e else sym_inconsistent,
      record { value = v; flags = stamp l.flags pass_count type_change },
      n,
    )

-- The first definition of a label on a pass gives it its value; the counts stay as they are exactly
-- where the label was defined before with the same value.
pub assemble_redef_label_first :
    (v pass_count : ℕ) (last_pass : Bool) (l : Label) (n : LabelCounts)
    → pass_count < 256
    → l.flags % 256 ≢ pass_count
    → ((assemble_redef_label v true 0 0 pass_count last_pass l n).0 ≡ 0)
      × ((assemble_redef_label v true 0 0 pass_count last_pass l n).1.value ≡ v)
      × ((assemble_redef_label v true 0 0 pass_count last_pass l n).1.flags % 256 ≡ pass_count)
      × (has_flag
            (assemble_redef_label v true 0 0 pass_count last_pass l n).1.flags
            sym_rec_def_flag
          ≡ true)
      × (((assemble_redef_label v true 0 0 pass_count last_pass l n).2 ≡ n)
          ↔ (has_flag l.flags sym_rec_def_flag ≡ true) × (l.value ≡ v))
unfolding assemble_redef_label new_encounter stamp
assemble_redef_label_first v pass_count last_pass l n small fresh =
    let other : (l.flags % 256 == pass_count) ≡ false = ground arith in
    elim (Bool-cases (has_flag l.flags sym_rec_def_flag)) [
      | inl was ↦ elim (Bool-cases (l.value == v)) [
        | inl same ↦
            rw (other, was, same)
              (refl, refl, omega arith, ground arith, (λ e. (refl, ground arith), λ e. refl))
        | inr changed ↦
            rw (other, was, changed)
              (
                refl,
                refl,
                omega arith,
                ground arith,
                (
                  λ e. absurd (omega (arith, ap (λ (k : LabelCounts). k.redefined_count) e)),
                  λ e. absurd (ground (arith, e.1)),
                ),
              )
      ]
      | inr never ↦
          rw (other, never)
            (
              refl,
              refl,
              omega arith,
              ground arith,
              (
                λ e. absurd (omega (arith, ap (λ (k : LabelCounts). k.defined_count) e)),
                λ e. absurd (cc),
              ),
            )
    ]
