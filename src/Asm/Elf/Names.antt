-- ===== src/Asm/Elf/Names.antt =====
-- The symbol table and the string table of the file: what a reader finds for each symbol.
use riscy_os.Base.{
  ℕ, zero, suc, ◌+◌, ◌-◌, ◌*◌, Bool, true, ◌||◌, ◌/◌, ◌%◌, ◌^◌, ◌<◌, ◌≤◌, ◌≡◌, refl, ap, ◌∙◌, false,
  List, [], ◌∷◌, ◌++◌, arith, ◌==◌, if◌then◌else◌, length, length-append, u32_mod, drop,
  drop-length, word_bytes, first_word, word_at,
}
use mathlib.Core.List.{append_assoc}
use riscy_os.Asm.Symbols.{SymRecord, sym_name_max}
use riscy_os.Asm.Elf.File.{
  symbol_entries, symbol_section, beyond_null, all_names, sym_strtab, pad_word, zeros, word_align,
}
use riscy_os.Asm.Elf.Place.{whole_word}

-- The characters up to the terminator.
unfoldable pub c_string : List ℕ → List ℕ
c_string [] = []
c_string (c ∷ cs) = if c == 0 then [] else c ∷ c_string cs

-- What an entry says: the name that st_name points at, st_value, st_size, the binding and the type in
-- st_info, st_other and st_shndx.
pub record SymbolEntry : Type 0 where
  pub name : List ℕ
  pub value : ℕ
  pub size : ℕ
  pub binding : ℕ
  pub type : ℕ
  pub other : ℕ
  pub section : ℕ

unfoldable pub read_entries : (count : ℕ) → (entries strings : List ℕ) → List SymbolEntry
unfolding c_string
read_entries zero entries strings = []
read_entries (suc n) entries strings =
    record {
      name = c_string (drop (word_at entries 0) strings);
      value = word_at entries 4;
      size = word_at entries 8;
      binding = word_at entries 12 / 16 % 16;
      type = word_at entries 12 % 16;
      other = word_at entries 12 / 256 % 256;
      section = word_at entries 12 / 65536;
    }
    ∷ read_entries n (drop 16 entries) strings

-- STB_GLOBAL for an exported symbol, else STB_LOCAL.
abbrev pub binding_of : (flags : ℕ) → ℕ
binding_of flags = if flags / 2 ^ 9 % 2 == 1 then 1 else 0

-- SHN_ABS for a symbol that an EQU or the user has set, else the section it was defined in.
abbrev pub section_of : SymRecord → ℕ
section_of r =
    if r.flags / 2 ^ 10 % 2 == 1
    then 65521
    else if r.flags / 2 ^ 11 % 2 == 1
    then 65521
    else r.elf_section

-- What a reader should find for a symbol.
abbrev entry_of : SymRecord → SymbolEntry
entry_of r = record {
  name = r.label.chars;
  value = r.value % u32_mod;
  size = 0;
  binding = binding_of r.flags;
  type = 0;
  other = 0;
  section = section_of r;
}

unfoldable pub entries_of : List SymRecord → List SymbolEntry
entries_of [] = []
entries_of (r ∷ rs) = entry_of r ∷ entries_of rs

abbrev pub NoNull : List ℕ → Type 0
NoNull [] = Unit {0}
NoNull (c ∷ cs) = ((c == 0) ≡ false) × NoNull cs

-- The record keeps all the characters of its name, none of which is null, and the number of its
-- section fits st_shndx.
abbrev pub Storable : SymRecord → Type 0
Storable r =
    NoNull r.label.chars
    × (r.label.count ≤ sym_name_max)
    × (length r.label.chars ≡ r.label.count)
    × (r.elf_section < 65536)

abbrev pub AllStorable : List SymRecord → Type 0
AllStorable [] = Unit {0}
AllStorable (r ∷ rs) = Storable r × AllStorable rs

c_string-append : (cs rest : List ℕ) → NoNull cs → c_string (cs ++ (0 ∷ rest)) ≡ cs
unfolding c_string
c_string-append [] rest h = refl
c_string-append (c ∷ cs) rest h = rw (h.0) (ap (◌∷◌ c) (c_string-append cs rest h.1))

beyond_null-append :
    (cs rest : List ℕ) (j : ℕ)
    → NoNull cs
    → beyond_null (cs ++ (0 ∷ rest)) j ≡ (j + length cs + 1, rest)
unfolding beyond_null
beyond_null-append [] rest j h = ground arith
beyond_null-append (c ∷ cs) rest j h =
    rw (h.0) (beyond_null-append cs rest (j + 1) h.1 ∙ ground arith)

word_of : (w : ℕ) → first_word (word_bytes w) ≡ w % u32_mod
word_of w = omega arith

abbrev section_by : (equated from_user : Bool) → ℕ → ℕ
section_by equated from_user section =
    if equated then 65521 else if from_user then 65521 else section

section_and_binding :
    (equated from_user exported : Bool) (section : ℕ)
    → section < 65536
    → ((if equated || from_user then 65521 else section) * 65536 + (if exported then 16 else 0)
        ≡ section_by equated from_user section * 65536 + (if exported then 1 else 0) * 16)
      × (section_by equated from_user section < 65536)
      × ((if exported then 1 else 0) ≤ 1)
section_and_binding true from_user true section h = (refl, omega arith, omega arith)
section_and_binding true from_user false section h = (refl, omega arith, omega arith)
section_and_binding false true true section h = (refl, omega arith, omega arith)
section_and_binding false true false section h = (refl, omega arith, omega arith)
section_and_binding false false true section h = (refl, h, omega arith)
section_and_binding false false false section h = (refl, h, omega arith)

symbol_section-fields :
    (r : SymRecord)
    → r.elf_section < 65536
    → (symbol_section r ≡ section_of r * 65536 + binding_of r.flags * 16)
      × (section_of r < 65536)
      × (binding_of r.flags ≤ 1)
unfolding symbol_section
symbol_section-fields r h =
    section_and_binding (r.flags / 2 ^ 10 % 2 == 1) (r.flags / 2 ^ 11 % 2 == 1)
      (r.flags / 2 ^ 9 % 2 == 1) r.elf_section h

-- The last word of an entry, taken apart.
symbol_section-read :
    (r : SymRecord)
    → r.elf_section < 65536
    → let w = first_word (word_bytes (symbol_section r)) in
      (w / 16 % 16 ≡ binding_of r.flags)
      × (w % 16 ≡ 0)
      × (w / 256 % 256 ≡ 0)
      × (w / 65536 ≡ section_of r)
symbol_section-read r h =
    let (value, section, binding) = symbol_section-fields r h in
    let word = word_of (symbol_section r) in
    (
      omega (arith, word, value, section, binding),
      omega (arith, word, value, section, binding),
      omega (arith, word, value, section, binding),
      omega (arith, word, value, section, binding),
    )

regrouped :
    (before passed names : List ℕ)
    → before ++ (passed ++ (0 ∷ names)) ≡ (before ++ (passed ++ (0 ∷ []))) ++ names
regrouped before passed names = simp append_assoc

-- The entries of the symbols whose names stand in the strings behind one that has been passed.
entries-read :
    (rs : List SymRecord) (strings before passed padding rest : List ℕ)
    → strings ≡ before ++ (passed ++ (0 ∷ (all_names rs ++ padding)))
    → length strings < u32_mod
    → NoNull passed
    → AllStorable rs
    → read_entries
        (length rs)
        (symbol_entries (length rs) rs (passed ++ (0 ∷ (all_names rs ++ padding))) (length before)
          ++ rest)
        strings
      ≡ entries_of rs
unfolding read_entries symbol_entries entries_of all_names drop
entries-read [] strings before passed padding rest split small clean all_clean = refl
entries-read (r ∷ rs) strings before passed padding rest split small clean all_clean =
    let before' = before ++ (passed ++ (0 ∷ [])) in
    let names = all_names rs ++ padding in
    let group : (r.label.chars ++ (0 ∷ all_names rs)) ++ padding ≡ r.label.chars ++ (0 ∷ names) =
      append_assoc r.label.chars (0 ∷ all_names rs) padding in
    let at : length before + length passed + 1 ≡ length before' =
      omega (arith, length-append before (passed ++ (0 ∷ [])), length-append passed (0 ∷ [])) in
    let next : strings ≡ before' ++ (r.label.chars ++ (0 ∷ names)) =
      split
      ∙ ap (λ (l : List ℕ). before ++ (passed ++ (0 ∷ l))) group
      ∙ regrouped before passed (r.label.chars ++ (0 ∷ names)) in
    let below : length before' < u32_mod =
      omega (arith, small, ap length next, length-append before' (r.label.chars ++ (0 ∷ names))) in
    let name : c_string (drop (length before') strings) ≡ r.label.chars =
      ap (λ (l : List ℕ). c_string (drop (length before') l)) next
      ∙ ap c_string (drop-length before' (r.label.chars ++ (0 ∷ names)))
      ∙ c_string-append r.label.chars names all_clean.0.0 in
    let (binding, type, other, section) = symbol_section-read r all_clean.0.3 in
    rw
      (
        beyond_null-append passed ((r.label.chars ++ (0 ∷ all_names rs)) ++ padding) (length before)
            clean,
        at,
        whole_word (length before') below,
        name,
        word_of r.value,
        binding,
        type,
        other,
        section,
        group,
      )
      (ap (◌∷◌ (entry_of r)) (
        entries-read rs strings before' r.label.chars padding rest next small all_clean.0.0
          all_clean.1))

-- The entries that `elf_dump_out` writes for symbols are read back with its string table: the name,
-- the value in 32 bits and no size, global binding where the symbol is exported and local binding
-- where it is not, no type, and as its section SHN_ABS for a symbol that an EQU or the user has set
-- and else the section it was defined in. The names have at most 32 characters and no null
-- character, the numbers of the sections are below 2 ^ 16, and the string table has less than 2 ^ 32
-- bytes.
pub symbol_entries-read :
    (rs : List SymRecord) (rest : List ℕ)
    → AllStorable rs
    → length (sym_strtab rs) < u32_mod
    → read_entries
        (length rs)
        (symbol_entries (length rs) rs (sym_strtab rs) 0 ++ rest)
        (sym_strtab rs)
      ≡ entries_of rs
unfolding sym_strtab pad_word
symbol_entries-read rs rest clean small =
    let n = length (0 ∷ all_names rs) in
    entries-read rs ((0 ∷ all_names rs) ++ zeros (word_align n - n)) [] []
      (zeros (word_align n - n)) rest refl small tt clean
