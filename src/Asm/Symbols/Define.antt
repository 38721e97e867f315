-- ===== src/Asm/Symbols/Define.antt =====
-- Defining a label and finding it again.
use riscy_os.Base.{
  ℕ, ◌/◌, ◌%◌, ◌≤◌, ◌≡◌, refl, sym, ap, ◌∙◌, ◌≢◌, inl, inr, true, false, Option, none, some, List,
  [], ◌∷◌, arith, ◌==◌, ==_iff, Bool-cases, length,
}
use riscy_os.Asm.Symbols.{
  SymName, SymRecord, SymTable, same_chars, same_name, find_in, sym_find_record, sym_find_label,
  set_list, sym_add_to_table, set_defined, change, give_value, define_record, sym_define_label,
  sym_create_record, list_of, sym_string_copy, sym_rec_def_flag, sym_name_max,
}

same_chars_refl : (xs : List ℕ) → same_chars xs xs ≡ true
unfolding same_chars
same_chars_refl [] = refl
same_chars_refl (x ∷ xs) = grind (arith, same_chars_refl xs)

same_name_refl : (n : SymName) → same_name n n ≡ true
unfolding same_name
same_name_refl n = grind (arith, same_chars_refl n.chars)

same_chars_sound : (xs ys : List ℕ) → same_chars xs ys ≡ true → xs ≡ ys
unfolding same_chars
same_chars_sound [] [] h = refl
same_chars_sound [] (y ∷ ys) h = grind arith
same_chars_sound (x ∷ xs) [] h = grind arith
same_chars_sound (x ∷ xs) (y ∷ ys) h = elim (Bool-cases (x == y)) [
  | inl e ↦
      (let tail = same_chars_sound xs ys (rw e at h) in
        (let head = (==_iff x y).0 e in cc (tail, head)))
  | inr e ↦ ground (arith, e, h)
]

same_name_sound : (a b : SymName) → same_name a b ≡ true → a ≡ b
unfolding same_name
same_name_sound a b h = ground (arith, h, same_chars_sound a.chars b.chars)

-- In a changed list the record that is found is the changed one.
find_in-change :
    (n : SymName) (f : SymRecord → SymRecord) (rs : List SymRecord) (old : SymRecord)
    → ((r : SymRecord) → (f r).label ≡ r.label)
    → find_in n rs ≡ some old
    → find_in n (change n f rs) ≡ some (f old)
unfolding find_in change
find_in-change n f [] old keeps h = grind arith
find_in-change n f (r ∷ rs) old keeps h = elim (Bool-cases (same_name r.label n)) [
  | inl e ↦
      (let at : some r ≡ some old = rw e at h in
        simp (e, keeps r)
          (ap (λ (o : Option SymRecord). elim o [ none ↦ none | some q ↦ some (f q) ]) at))
  | inr e ↦ rw (e, e) (find_in-change n f rs old keeps (rw e at h))
]

-- The value of the record that a search gives.
abbrev pub value_of : Option SymRecord → Option ℕ
value_of none = none
value_of (some r) = some r.value

==_refl : (n : ℕ) → (n == n) ≡ true
==_refl n = grind arith

set_list_self :
    (t : SymTable) (n : SymName) (rs : List SymRecord)
    → sym_find_record (set_list t (list_of n) rs) n ≡ find_in n rs
unfolding sym_find_record set_list
set_list_self t n rs = rw (==_refl (list_of n)) refl

define_record-found :
    (t : SymTable) (new : SymRecord) (found : Option SymRecord)
    → sym_find_record t new.label ≡ found
    → value_of (sym_find_record (define_record t new found).1 new.label) ≡ some new.value
unfolding define_record sym_add_to_table give_value set_list sym_find_record find_in
define_record-found t new none h = rw (==_refl (list_of new.label), same_name_refl new.label) refl
define_record-found t new (some old) h =
    let keeps : (r : SymRecord) → (give_value new.value r).label ≡ r.label = λ r. refl in
    let list = list_of new.label in
    let t' = set_list t list (change new.label (give_value new.value) (t.lists list)) in
    let found : value_of (sym_find_record t' new.label) ≡ some new.value =
      rw (==_refl (list_of new.label)) (
        ap value_of (
          find_in-change new.label (give_value new.value) (t.lists (list_of new.label)) old keeps
            h)) in
    elim (Bool-cases (old.flags / sym_rec_def_flag % 2 == 1)) [
      | inr e ↦ rw e found
      | inl e ↦ elim (Bool-cases (old.value == new.value)) [
        | inr u ↦ rw (e, u) found
        | inl u ↦ rw (e, u, h) (ap some ((==_iff old.value new.value).0 u))
      ]
    ]

define_record-table_flags :
    (t : SymTable) (new : SymRecord) (found : Option SymRecord)
    → (define_record t new found).1.table_flags ≡ t.table_flags
unfolding define_record sym_add_to_table set_list
define_record-table_flags t new none = refl
define_record-table_flags t new (some old) =
    elim (Bool-cases (old.flags / sym_rec_def_flag % 2 == 1)) [
      | inr e ↦ rw e refl
      | inl e ↦ elim (Bool-cases (old.value == new.value)) [
        | inr u ↦ rw (e, u) refl
        | inl u ↦ rw (e, u) refl
      ]
    ]

not_same_name : (a b : SymName) → b ≢ a → same_name a b ≡ false
not_same_name a b h = elim (Bool-cases (same_name a b)) [
  | inl e ↦ absurd (h (sym (same_name_sound a b e)))
  | inr e ↦ e
]

find_in-change_other :
    (n m : SymName) (f : SymRecord → SymRecord) (rs : List SymRecord)
    → ((r : SymRecord) → (f r).label ≡ r.label)
    → m ≢ n
    → find_in m (change n f rs) ≡ find_in m rs
unfolding find_in change
find_in-change_other n m f [] keeps h = refl
find_in-change_other n m f (r ∷ rs) keeps h = elim (Bool-cases (same_name r.label n)) [
  | inl e ↦
      (let at : r.label ≡ n = same_name_sound r.label n e in
        let differs : same_name r.label m ≡ false = not_same_name r.label m (λ g. h (g ∙ at)) in
        simp (e, keeps r, differs) refl)
  | inr e ↦ rw (e, find_in-change_other n m f rs keeps h) refl
]

-- A list that is set only for names that it answers as before.
set_list_other :
    (t : SymTable) (list : ℕ) (m : SymName) (rs : List SymRecord)
    → find_in m rs ≡ find_in m (t.lists list)
    → sym_find_record (set_list t list rs) m ≡ sym_find_record t m
unfolding sym_find_record set_list
set_list_other t list m rs h = elim (Bool-cases (list_of m == list)) [
  | inl e ↦ rw e (h ∙ ap (λ (k : ℕ). find_in m (t.lists k)) (sym ((==_iff (list_of m) list).0 e)))
  | inr e ↦ rw e refl
]

give_value-label : (value : ℕ) (r : SymRecord) → (give_value value r).label ≡ r.label
unfolding give_value
give_value-label value r = refl

sym_add_to_table-other :
    (t : SymTable) (new : SymRecord) (m : SymName)
    → m ≢ new.label
    → sym_find_record (sym_add_to_table t new) m ≡ sym_find_record t m
unfolding sym_add_to_table find_in sym_find_record
sym_add_to_table-other t new m h =
    let numbered : SymRecord = record {
      label = new.label;
      value = new.value;
      flags = new.flags;
      identifier = t.symbol_number;
      elf_section = new.elf_section;
    } in
    set_list_other t (list_of new.label) m (numbered ∷ t.lists (list_of new.label))
      (rw (not_same_name new.label m h) refl)

define_record-other :
    (t : SymTable) (new : SymRecord) (found : Option SymRecord) (m : SymName)
    → m ≢ new.label
    → sym_find_record (define_record t new found).1 m ≡ sym_find_record t m
unfolding define_record
define_record-other t new none m h = sym_add_to_table-other t new m h
define_record-other t new (some old) m h =
    let list = list_of new.label in
    let keeps : (r : SymRecord) → (give_value new.value r).label ≡ r.label =
      give_value-label new.value in
    let t' = set_list t list (change new.label (give_value new.value) (t.lists list)) in
    let same : sym_find_record t' m ≡ sym_find_record t m =
      set_list_other t list m (change new.label (give_value new.value) (t.lists list))
        (find_in-change_other new.label m (give_value new.value) (t.lists list) keeps h) in
    elim (Bool-cases (old.flags / sym_rec_def_flag % 2 == 1)) [
      | inr e ↦ rw e same
      | inl e ↦ elim (Bool-cases (old.value == new.value)) [
        | inr u ↦ rw (e, u) same
        | inl u ↦ rw (e, u) refl
      ]
    ]

-- Once a label of at most 32 characters is defined with a value, a search for it in the table gives
-- this value, whether the label was new, known without a value, or had another one.
pub sym_define_label-sym_find_label :
    (name : List ℕ) (value flags : ℕ) (t : SymTable)
    → length name ≤ sym_name_max
    → value_of (sym_find_label name (sym_define_label name value flags t).1) ≡ some value
unfolding sym_define_label sym_find_label sym_create_record
sym_define_label-sym_find_label name value flags t short =
    let new = sym_create_record name value (set_defined flags) t.table_flags in
    rw (define_record-table_flags t new (sym_find_record t new.label))
      (define_record-found t new (sym_find_record t new.label) refl)

-- Defining a label changes no search for a label of another name.
pub sym_define_label-other :
    (name other : List ℕ) (value flags : ℕ) (t : SymTable)
    → sym_string_copy other t.table_flags ≢ sym_string_copy name t.table_flags
    → sym_find_label other (sym_define_label name value flags t).1 ≡ sym_find_label other t
unfolding sym_define_label sym_find_label sym_create_record
sym_define_label-other name other value flags t differ =
    let new = sym_create_record name value (set_defined flags) t.table_flags in
    rw (define_record-table_flags t new (sym_find_record t new.label)) (
      define_record-other t new (sym_find_record t new.label) (sym_string_copy other t.table_flags)
        differ)
