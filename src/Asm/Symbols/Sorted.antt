-- ===== src/Asm/Symbols/Sorted.antt =====
-- The sorted list of symbols: the records of the table, as many as there are, and their order.
use riscy_os.Base.{
  ℕ, ◌+◌, ◌≤◌, ◌<◌, ◌≡◌, refl, ap, inl, inr, true, false, not, ◌&&◌, List, [], ◌∷◌, ◌++◌, arith,
  ltb, if◌then◌else◌, Bool-cases, length,
}
use mathlib.Core.List.{Perm}
use mathlib.Core.List.Perm
use riscy_os.Asm.Symbols.{SymRecord, SymTable}
use riscy_os.Asm.Symbols.Sort.{
  LabelCategory, all, LabelSort, for_elf, is_exported, is_defined, is_included, is_after,
  insert_record, sym_dup_record, sort_loop, sym_sort_symbols, sym_count_symbols, count_in,
  records_of,
}

abbrev pub All : (SymRecord → Type 0) → List SymRecord → Type 0
All P [] = Unit {0}
All P (r ∷ rs) = P r × All P rs

-- No record belongs behind one that follows it.
abbrev pub Ordered : LabelSort → List SymRecord → Type 0
Ordered how [] = Unit {0}
Ordered how (r ∷ rs) = All (λ q. is_after how r q ≡ false) rs × Ordered how rs

-- The copies of the records of a category, in the order of the table.
unfoldable pub selected : LabelCategory → (table_flags : ℕ) → List SymRecord → List SymRecord
unfolding sym_dup_record is_included
selected what flags [] = []
selected what flags (r ∷ rs) =
    let rest = selected what flags rs in
    if is_included what r then sym_dup_record flags r ∷ rest else rest

length-insert_record :
    (how : LabelSort) (new : SymRecord) (rs : List SymRecord)
    → length (insert_record how new rs) ≡ length rs + 1
unfolding insert_record
length-insert_record how new [] = refl
length-insert_record how new (r ∷ rs) = elim (Bool-cases (is_after how new r)) [
  | inl after ↦ rw after (omega (arith, length-insert_record how new rs))
  | inr here ↦ rw here (omega arith)
]

length-sort_loop :
    (how : LabelSort) (flags : ℕ) (rs sorted : List SymRecord)
    → length (sort_loop all how flags rs sorted) ≡ count_in all rs + length sorted
unfolding sort_loop count_in is_included
length-sort_loop how flags [] sorted = omega arith
length-sort_loop how flags (r ∷ rs) sorted = omega (
  arith,
  length-sort_loop how flags rs (insert_record how (sym_dup_record flags r) sorted),
  length-insert_record how (sym_dup_record flags r) sorted,
)

-- The sorted list of all symbols has as many records as `sym_count_symbols` counts.
pub length-sym_sort_symbols :
    (t : SymTable) (how : LabelSort) → length (sym_sort_symbols t all how) ≡ sym_count_symbols t all
unfolding sym_sort_symbols sym_count_symbols
length-sym_sort_symbols t how = omega (arith, length-sort_loop how t.table_flags (records_of t) [])

-- What an order of records has to do with the order of the list, for records of a kind.
record IsOrder (how : LabelSort) (P : SymRecord → Type 0) : Type 0 where
  asymmetric : (a b : SymRecord) → P a → P b → is_after how a b ≡ true → is_after how b a ≡ false
  transitive :
      (a b c : SymRecord)
      → P a
      → P b
      → P c
      → is_after how a b ≡ false
      → is_after how b c ≡ false
      → is_after how a c ≡ false

-- A field that ascends along the list.
abbrev pub Ascends : (SymRecord → ℕ) → List SymRecord → Type 0
Ascends field [] = Unit {0}
Ascends field (r ∷ rs) = All (λ q. field r ≤ field q) rs × Ascends field rs

abbrev IsDefined : SymRecord → Type 0
IsDefined r = is_defined r ≡ true

-- In the order for ELF a local symbol that is defined after all the symbols of the list goes to the
-- end, behind the exported ones.
pub insert_record-for_elf :
    (new : SymRecord) (rs : List SymRecord)
    → All (λ r. r.identifier < new.identifier) rs
    → insert_record for_elf new rs ≡ rs ++ (new ∷ [])
unfolding insert_record is_after
insert_record-for_elf new [] h = refl
insert_record-for_elf new (r ∷ rs) h =
    let late : ltb r.identifier new.identifier ≡ true = ground (arith, h.0) in
    elim (Bool-cases (is_exported new && not (is_exported r))) [
      | inl both ↦ rw both (ap (◌∷◌ r) (insert_record-for_elf new rs h.1))
      | inr other ↦ rw (other, late) (ap (◌∷◌ r) (insert_record-for_elf new rs h.1))
    ]
