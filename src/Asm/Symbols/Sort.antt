-- ===== src/Asm/Symbols/Sort.antt =====
-- `sym_count_symbols` and `sym_sort_symbols` of tools/assembler/rva.c.
use riscy_os.Base.{
  ℕ, zero, suc, ◌+◌, ◌/◌, ◌%◌, Bool, true, not, ◌&&◌, ◌||◌, List, [], ◌∷◌, ◌++◌, ltb, leb, ◌==◌,
  if◌then◌else◌, get_or,
}
use riscy_os.Asm.Evaluate.{signed_rank}
use riscy_os.Asm.Symbols.Find.{sym_rec_export_flag}
use riscy_os.Asm.Symbols.{SymRecord, SymTable, sym_name_max, sym_tab_list_count, sym_rec_def_flag}

-- SYM_TAB_EXPORT_FLAG of a table's flags
abbrev pub sym_tab_export_flag : ℕ
sym_tab_export_flag = 2

pub data LabelCategory : Type 0 where
  all exported defined undefined : LabelCategory

pub data LabelSort : Type 0 where
  alphabetic value definition for_elf : LabelSort

abbrev pub is_exported : SymRecord → Bool
is_exported r = r.flags / sym_rec_export_flag % 2 == 1

abbrev pub is_defined : SymRecord → Bool
is_defined r = r.flags / sym_rec_def_flag % 2 == 1

-- `(flags & flag_mask) == flag_match`, by the class of records.
unfoldable pub is_included : LabelCategory → SymRecord → Bool
is_included all r = true
is_included exported r = is_exported r
is_included defined r = is_defined r
is_included undefined r = not (is_defined r)

-- The records of a table, its first `n` lists in order.
unfoldable pub records_from : (ℕ → List SymRecord) → (i n : ℕ) → List SymRecord
records_from lists i zero = []
records_from lists i (suc n) = lists i ++ records_from lists (i + 1) n

abbrev pub records_of : SymTable → List SymRecord
records_of t = records_from t.lists 0 sym_tab_list_count

unfoldable pub count_in : LabelCategory → List SymRecord → ℕ
count_in exported [] = 0
count_in exported (r ∷ rs) = (if is_exported r then 1 else 0) + count_in exported rs
count_in what [] = 0
count_in what (r ∷ rs) = 1 + count_in what rs

-- `sym_count_symbols`: every category but EXPORTED counts all the records.
unfoldable pub sym_count_symbols : SymTable → LabelCategory → ℕ
unfolding records_from count_in
sym_count_symbols t what = count_in what (records_of t)

-- How many leading characters agree, among the first `min`.
unfoldable pub agreeing : (min : ℕ) → List ℕ → List ℕ → ℕ
agreeing zero xs ys = 0
agreeing (suc n) [] ys = 0
agreeing (suc n) (x ∷ xs) [] = 0
agreeing (suc n) (x ∷ xs) (y ∷ ys) = if x == y then suc (agreeing n xs ys) else 0

-- Whether the new record goes behind one of the list. A name's characters behind its end, which the
-- alphabetic order may look at, are 0.
unfoldable pub is_after : LabelSort → (new old : SymRecord) → Bool
unfolding agreeing
is_after alphabetic new old =
    let shorter =
      if ltb new.label.count old.label.count then new.label.count else old.label.count in
    let min = if ltb sym_name_max shorter then sym_name_max else shorter in
    let j = agreeing min new.label.chars old.label.chars in
    ltb (get_or old.label.chars j 0) (get_or new.label.chars j 0)
    || leb min j && ltb j new.label.count
is_after value new old = ltb (signed_rank old.value) (signed_rank new.value) && is_defined new
is_after definition new old = ltb old.identifier new.identifier
is_after for_elf new old =
    is_exported new && not (is_exported old) || ltb old.identifier new.identifier

-- The place of the insertion sort.
unfoldable pub insert_record : LabelSort → SymRecord → List SymRecord → List SymRecord
unfolding is_after
insert_record how new [] = new ∷ []
insert_record how new (old ∷ rs) =
    let rest = insert_record how new rs in
    if is_after how new old then old ∷ rest else new ∷ old ∷ rs

-- The copy of a record, which takes over the export flag of its table.
unfoldable pub sym_dup_record : (table_flags : ℕ) → SymRecord → SymRecord
sym_dup_record table_flags r =
    if table_flags / sym_tab_export_flag % 2 == 1 && not (is_exported r)
    then record r { flags = r.flags + sym_rec_export_flag }
    else r

-- The loop over the records, with the list sorted so far.
unfoldable pub sort_loop :
    LabelCategory → LabelSort → (table_flags : ℕ) → List SymRecord → List SymRecord → List SymRecord
unfolding insert_record sym_dup_record is_included
sort_loop what how table_flags [] sorted = sorted
sort_loop what how table_flags (r ∷ rs) sorted =
    sort_loop what how table_flags rs (
      if is_included what r
      then insert_record how (sym_dup_record table_flags r) sorted
      else sorted)

unfoldable pub sym_sort_symbols : SymTable → LabelCategory → LabelSort → List SymRecord
unfolding sort_loop records_from
sym_sort_symbols t what how = sort_loop what how t.table_flags (records_of t) []
