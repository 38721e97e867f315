-- ===== src/Asm/Symbols.antt =====
-- The symbol tables of tools/assembler/rva.c. A record is found by hash, length and characters in
-- one of sixteen lists. `malloc` is taken to succeed; the ELF section of a new record, which the C code
-- leaves unset, is 0.
pub mod Define
pub mod Find
pub mod Sort
pub mod Sorted
mod Tests
use Prim.Native.Nat.{bit_xor}
use riscy_os.Base.{
  ℕ, zero, suc, ◌+◌, ◌-◌, ◌*◌, ◌/◌, ◌%◌, ◌^◌, ◌≤◌, ◌<◌, ◌≡◌, refl, sym, ap, ◌∙◌, ◌≢◌, ◌↔◌, ◌⊎◌, inl,
  inr, Bool, true, false, not, ◌&&◌, ◌||◌, Option, none, some, List, [], ◌∷◌, ◌++◌, arith, ltb, leb,
  ◌==◌, ==_iff, if◌then◌else◌, Bool-cases, some_pair, length, get_or, set, length-append,
  length-set, get_or-set_self, get_or-set_ne, Mem, write, write_self, write_ne, u32_mod, add32,
  sub32,
}

-- SYM_NAME_MAX, SYM_TAB_LIST_COUNT and the bit SYM_REC_DEF_FLAG
abbrev pub sym_name_max : ℕ
sym_name_max = 32

abbrev pub sym_tab_list_count : ℕ
sym_tab_list_count = 16

abbrev pub sym_rec_def_flag : ℕ
sym_rec_def_flag = 256

-- The fields of a record that `sym_string_copy` fills.
pub record SymName : Type 0 where
  pub chars : List ℕ
  pub count : ℕ
  pub hash : ℕ

pub record SymRecord : Type 0 where
  pub label : SymName
  pub value : ℕ
  pub flags : ℕ
  pub identifier : ℕ
  pub elf_section : ℕ

pub record SymTable : Type 0 where
  pub symbol_number : ℕ
  pub table_flags : ℕ
  pub lists : ℕ → List SymRecord

-- What `sym_define_label` did.
pub data DefnReturn : Type 0 where
  added : DefnReturn
  defined : DefnReturn
  redefined : DefnReturn
  unchanged : DefnReturn

-- One character in the loop of `sym_string_copy`.
unfoldable pub add_char : (case_insensitive : Bool) → ℕ → SymName → SymName
add_char insensitive c n =
    let upper = if insensitive && leb 97 c && leb c 122 then c - 32 else c in
    record {
      chars = if ltb n.count sym_name_max then n.chars ++ (upper ∷ []) else n.chars;
      count = n.count + 1;
      hash = (bit_xor (n.hash * 32 % u32_mod) (n.hash / 2048) + upper) % u32_mod;
    }

unfoldable pub copy_chars : (case_insensitive : Bool) → List ℕ → SymName → SymName
unfolding add_char
copy_chars insensitive [] n = n
copy_chars insensitive (c ∷ cs) n = copy_chars insensitive cs (add_char insensitive c n)

-- `sym_string_copy`, where bit 0 of the table's flags is SYM_TAB_CASE_FLAG.
unfoldable pub sym_string_copy : List ℕ → (table_flags : ℕ) → SymName
unfolding copy_chars
sym_string_copy string table_flags =
    copy_chars (table_flags % 2 == 1) string (record { chars = []; count = 0; hash = 0 })

-- `sym_create_record`; the identifier is given when the record is added.
unfoldable pub sym_create_record : List ℕ → (value flags table_flags : ℕ) → SymRecord
unfolding sym_string_copy
sym_create_record string value flags table_flags = record {
  label = sym_string_copy string table_flags;
  value = value;
  flags = flags;
  identifier = 0;
  elf_section = 0;
}

unfoldable pub same_chars : List ℕ → List ℕ → Bool
same_chars [] [] = true
same_chars [] (y ∷ ys) = false
same_chars (x ∷ xs) [] = false
same_chars (x ∷ xs) (y ∷ ys) = x == y && same_chars xs ys

-- The test in the loop of `sym_find_record`, for names of at most 32 characters. For longer ones with
-- the same hash and length the code goes on to what stands in memory behind the two records, which is
-- left out here.
unfoldable pub same_name : SymName → SymName → Bool
unfolding same_chars
same_name a b = a.hash == b.hash && a.count == b.count && same_chars a.chars b.chars

unfoldable pub find_in : SymName → List SymRecord → Option SymRecord
find_in n [] = none
find_in n (r ∷ rs) = if same_name r.label n then some r else find_in n rs

-- Which of a table's lists holds a name.
abbrev pub list_of : SymName → ℕ
list_of n = n.hash % sym_tab_list_count

unfoldable pub sym_find_record : SymTable → SymName → Option SymRecord
unfolding find_in
sym_find_record t n = find_in n (t.lists (list_of n))

unfoldable pub sym_find_label : List ℕ → SymTable → Option SymRecord
unfolding sym_find_record sym_create_record
sym_find_label string t = sym_find_record t (sym_create_record string 0 0 t.table_flags).label

-- `table->pList[list] = records`
unfoldable pub set_list : SymTable → ℕ → List SymRecord → SymTable
set_list t list rs = record {
  symbol_number = t.symbol_number;
  table_flags = t.table_flags;
  lists = λ i. if i == list then rs else t.lists i;
}

unfoldable pub sym_add_to_table : SymTable → SymRecord → SymTable
unfolding set_list
sym_add_to_table t r =
    let list = list_of r.label in
    let numbered : SymRecord = record {
      label = r.label;
      value = r.value;
      flags = r.flags;
      identifier = t.symbol_number;
      elf_section = r.elf_section;
    } in
    let t' = set_list t list (numbered ∷ t.lists list) in
    record {
      symbol_number = (t.symbol_number + 1) % u32_mod;
      table_flags = t'.table_flags;
      lists = t'.lists;
    }

-- `flags | SYM_REC_DEF_FLAG`
unfoldable pub set_defined : (flags : ℕ) → ℕ
set_defined flags = if flags / sym_rec_def_flag % 2 == 1 then flags else flags + sym_rec_def_flag

-- A record that is found is changed where it stands.
unfoldable pub change : SymName → (SymRecord → SymRecord) → List SymRecord → List SymRecord
change n f [] = []
change n f (r ∷ rs) = if same_name r.label n then f r ∷ rs else r ∷ change n f rs

-- The record of a label that gets the value.
unfoldable pub give_value : (value : ℕ) → SymRecord → SymRecord
unfolding set_defined
give_value value r = record {
  label = r.label;
  value = value;
  flags = set_defined r.flags;
  identifier = r.identifier;
  elf_section = r.elf_section;
}

-- What is done with the record that `sym_define_label` finds or does not find: the result, and the
-- table.
unfoldable pub define_record : SymTable → SymRecord → Option SymRecord → DefnReturn × SymTable
unfolding sym_add_to_table change give_value set_list
define_record t new none = (added, sym_add_to_table t new)
define_record t new (some old) =
    let list = list_of new.label in
    let t' = set_list t list (change new.label (give_value new.value) (t.lists list)) in
    if not (old.flags / sym_rec_def_flag % 2 == 1)
    then (defined, t')
    else if not (old.value == new.value)
    then (redefined, t')
    else (unchanged, t)

unfoldable pub sym_define_label : List ℕ → (value flags : ℕ) → SymTable → DefnReturn × SymTable
unfolding sym_create_record set_defined sym_find_record define_record
sym_define_label string value flags t =
    let new = sym_create_record string value (set_defined flags) t.table_flags in
    define_record t new (sym_find_record t new.label)
