-- ===== src/Asm/Symbols/Find.antt =====
-- Searching several symbol tables, locating a label and deleting records, tools/assembler/rva.c.
use riscy_os.Base.{
  ℕ, ◌-◌, ◌/◌, ◌%◌, Bool, true, false, not, ◌||◌, Option, none, some, List, [], ◌∷◌, ◌==◌,
  if◌then◌else◌,
}
use riscy_os.Asm.Symbols.{
  SymRecord, SymTable, sym_find_label, sym_find_record, sym_create_record, sym_rec_def_flag,
}

-- `sym_find_label_list`; a NULL table is `none`.
unfoldable pub sym_find_label_list : List ℕ → List (Option SymTable) → Option SymRecord
sym_find_label_list name [] = none
sym_find_label_list name (none ∷ items) = sym_find_label_list name items
sym_find_label_list name (some table ∷ items) =
    let rest = sym_find_label_list name items in
    elim (sym_find_label name table) [ none ↦ rest | some found ↦ some found ]

-- `flags & ~SYM_REC_DEF_FLAG`
unfoldable pub clear_defined : ℕ → ℕ
clear_defined flags = if flags / sym_rec_def_flag % 2 == 1 then flags - sym_rec_def_flag else flags

-- `sym_locate_label`: whether the label was there, and its record or a new one, which is in no table.
unfoldable pub sym_locate_label : List ℕ → (flags : ℕ) → SymTable → Bool × SymRecord
unfolding clear_defined
sym_locate_label name flags table =
    let new = sym_create_record name 0 (clear_defined flags) table.table_flags in
    elim (sym_find_record table new.label) [ none ↦ (false, new) | some found ↦ (true, found) ]

abbrev pub sym_rec_export_flag : ℕ
sym_rec_export_flag = 512

-- `sym_delete_record_list`: whether records are kept, and these.
unfoldable pub sym_delete_record_list : (export : Bool) → List SymRecord → Bool × List SymRecord
sym_delete_record_list export [] = (false, [])
sym_delete_record_list export (r ∷ rs) =
    let rest = sym_delete_record_list export rs in
    if not export || r.flags / sym_rec_export_flag % 2 == 0 then rest else (true, r ∷ rest.1)
