-- ===== src/Asm/Encode/Sizes.antt =====
-- The sizes of instructions that may be optimised, over the passes: `variable_item_size`, and the
-- words of CALL and TAIL.
use mathlib.Core.Path.{subst}
use riscy_os.Base.{
  ℕ, zero, suc, ◌+◌, ◌*◌, ◌/◌, ◌%◌, ◌^◌, ◌≤◌, ◌<◌, ◌≡◌, refl, sym, ap, ◌∙◌, ◌⊎◌, inl, inr, true,
  false, List, [], ◌∷◌, arith, ltb, ◌==◌, Bool-cases, if◌then◌else◌, length, get_or, set,
  length-set, add32, sub32,
}
use riscy_os.Asm.Encode.{AsmContext}
use riscy_os.Asm.Encode.Fields.{fits21, imm_jal}
use riscy_os.Asm.Encode.Decode.{opcode, rd, j_imm, j_imm-imm_jal}
use riscy_os.Asm.Encode.Long.{SizeRecords, shrink_stop, variable_item_size, long_call, long_words}

-- What a pass asks for, one size for each record, from the current one on.
unfoldable pub run_sizes : (pass_count : ℕ) → List ℕ → SizeRecords → SizeRecords
run_sizes pass_count [] st = st
run_sizes pass_count (size ∷ more) st =
    run_sizes pass_count more (variable_item_size pass_count size st).1

abbrev pub total : List ℕ → ℕ
total [] = 0
total (x ∷ xs) = x + total xs

total-set :
    (xs : List ℕ) (i v : ℕ) → i < length xs → get_or xs i 0 < v → total xs < total (set xs i v)
total-set [] i v inside larger = absurd (omega arith)
total-set (x ∷ xs) zero v inside larger = omega arith
total-set (x ∷ xs) (suc i) v inside larger = omega (arith, total-set xs i v (omega arith) larger)

-- On a late pass a record is kept, or raised and counted.
late_cases :
    (pass_count size : ℕ) (st : SizeRecords)
    → shrink_stop ≤ pass_count
    → ((variable_item_size pass_count size st).1 ≡ record st { current = st.current + 1 })
      ⊎ ((variable_item_size pass_count size st).1 ≡ record {
        sizes = set st.sizes st.current size;
        current = st.current + 1;
        size_changed_count = st.size_changed_count + 1;
      })
        × (get_or st.sizes st.current 0 < size)
unfolding variable_item_size
late_cases pass_count size st late =
    let old = get_or st.sizes st.current 0 in
    let a : (pass_count == 0) ≡ false = ground arith in
    let b : ltb pass_count shrink_stop ≡ false = ground arith in
    elim (Bool-cases (old == size)) [
      | inl same ↦ rw (a, same) (inl refl)
      | inr other ↦ elim (Bool-cases (ltb old size)) [
        | inl larger ↦ rw (a, b, other, larger) (inr (refl, ground arith))
        | inr smaller ↦ rw (a, b, other, smaller) (inl refl)
      ]
    ]

-- As many records; the sum of the sizes is raised by at least the number of changes that were
-- counted; and where none was counted, nothing has changed.
abbrev pub Grows : (before after : SizeRecords) → Type 0
Grows a b =
    (length b.sizes ≡ length a.sizes)
    × (a.size_changed_count ≤ b.size_changed_count)
    × (total a.sizes + b.size_changed_count ≤ total b.sizes + a.size_changed_count)
    × (b.size_changed_count ≡ a.size_changed_count → b.sizes ≡ a.sizes)

-- Once shrinking is forbidden, a pass only raises sizes.
run_sizes-Grows :
    (pass_count : ℕ) (asked : List ℕ) (st : SizeRecords)
    → shrink_stop ≤ pass_count
    → st.current + length asked ≤ length st.sizes
    → Grows st (run_sizes pass_count asked st)
unfolding run_sizes
run_sizes-Grows pass_count [] st late inside = (refl, omega arith, omega arith, λ same. refl)
run_sizes-Grows pass_count (size ∷ more) st late inside =
    elim (late_cases pass_count size st late) [
      | inl kept ↦
          subst (λ (next : SizeRecords). Grows st (run_sizes pass_count more next)) (sym kept)
            (run_sizes-Grows pass_count more (record st { current = st.current + 1 }) late
              (omega arith))
      | inr (raised, larger) ↦
          let next : SizeRecords = record {
            sizes = set st.sizes st.current size;
            current = st.current + 1;
            size_changed_count = st.size_changed_count + 1;
          } in
          let same = length-set st.sizes st.current size in
          let grown = total-set st.sizes st.current size (omega arith) larger in
          let (len, counted, sum, still) =
            run_sizes-Grows pass_count more next late (omega arith) in
          subst (λ (n : SizeRecords). Grows st (run_sizes pass_count more n)) (sym raised)
            (len ∙ same, omega arith, omega arith, λ unchanged. absurd (omega arith))
    ]

abbrev pub AllWithin : (bound : ℕ) → List ℕ → Type 0
AllWithin bound [] = Unit {0}
AllWithin bound (x ∷ xs) = (x ≤ bound) × AllWithin bound xs

total_within : (bound : ℕ) (xs : List ℕ) → AllWithin bound xs → total xs ≤ length xs * bound
total_within bound [] h = omega arith
total_within bound (x ∷ xs) h = omega (arith, h.0, total_within bound xs h.1)

set-AllWithin :
    (bound i v : ℕ) (xs : List ℕ) → v ≤ bound → AllWithin bound xs → AllWithin bound (set xs i v)
set-AllWithin bound i v [] small h = h
set-AllWithin bound zero v (x ∷ xs) small h = (small, h.1)
set-AllWithin bound (suc i) v (x ∷ xs) small h = (h.0, set-AllWithin bound i v xs small h.1)

run_sizes-AllWithin :
    (bound pass_count : ℕ) (asked : List ℕ) (st : SizeRecords)
    → shrink_stop ≤ pass_count
    → AllWithin bound asked
    → AllWithin bound st.sizes
    → AllWithin bound (run_sizes pass_count asked st).sizes
unfolding run_sizes
run_sizes-AllWithin bound pass_count [] st late small within = within
run_sizes-AllWithin bound pass_count (size ∷ more) st late small within =
    run_sizes-AllWithin bound pass_count more (variable_item_size pass_count size st).1 late small.1
      (elim (late_cases pass_count size st late) [
        | inl kept ↦ rw kept within
        | inr (raised, larger) ↦
            rw raised (set-AllWithin bound st.current size st.sizes small.0 within)
      ])

-- What a pass of `main` begins with: the first size record, and no change counted.
unfoldable pub first_size : SizeRecords → SizeRecords
first_size st = record st { current = 0; size_changed_count = 0 }

-- How many of the passes from `pass_count` on count a change of a size, where each asks for its list
-- of sizes.
unfoldable pub changing_passes : (pass_count : ℕ) → List (List ℕ) → SizeRecords → ℕ
unfolding run_sizes first_size
changing_passes pass_count [] st = 0
changing_passes pass_count (asked ∷ more) st =
    let after = run_sizes pass_count asked (first_size st) in
    (if after.size_changed_count == 0 then 0 else 1) + changing_passes (pass_count + 1) more after

-- No pass asks for more sizes than there are records, nor for one above the bound.
abbrev pub AllAsked : (bound records : ℕ) → List (List ℕ) → Type 0
AllAsked bound records [] = Unit {0}
AllAsked bound records (asked ∷ more) =
    (length asked ≤ records) × AllWithin bound asked × AllAsked bound records more

-- In any sequence of passes from SHRINK_STOP on, each of which asks for one size for each size record
-- at most and for none above a bound, which the sizes at the start are not above either: the number
-- of passes that count a change, with the sum of the sizes at the start, is at most the number of
-- the records times the bound, however many passes there are.
pub changing_passes-total :
    (bound pass_count : ℕ) (passes : List (List ℕ)) (st : SizeRecords)
    → shrink_stop ≤ pass_count
    → AllWithin bound st.sizes
    → AllAsked bound (length st.sizes) passes
    → changing_passes pass_count passes st + total st.sizes ≤ length st.sizes * bound
unfolding changing_passes first_size
changing_passes-total bound pass_count [] st late within asked =
    omega (arith, total_within bound st.sizes within)
changing_passes-total bound pass_count (sizes ∷ more) st late within asked =
    let front = first_size st in
    let after = run_sizes pass_count sizes front in
    let (len, counted, sum, still) =
      run_sizes-Grows pass_count sizes front late (omega (arith, asked.0)) in
    let rest =
      changing_passes-total bound (pass_count + 1) more after (omega arith)
        (run_sizes-AllWithin bound pass_count sizes front late asked.1 within) (rw len asked.2) in
    let once : (if after.size_changed_count == 0 then 0 else 1) ≤ after.size_changed_count =
      ground arith in
    omega (arith, once, rest, sum, len, ap (λ (n : ℕ). n * bound) len)

-- A TAIL in reach of JAL is encoded as a jump that links by x1, where its token names x0: the return
-- address is overwritten.
pub long_call-tail :
    (ctx : AsmContext) (e target : ℕ) (fields : ℕ × ℕ × ℕ)
    → ctx.token ≡ 0x006BA000
    → target < 2 ^ 32
    → ctx.scope.assembly_pointer < 2 ^ 32
    → sub32 target ctx.scope.assembly_pointer % 2 ≡ 0
    → fits21 (sub32 target ctx.scope.assembly_pointer) ≡ true
    → (opcode (long_words ctx fields e target).op_code ≡ 0x6F)
      × (rd (long_words ctx fields e target).op_code ≡ 1)
      × (add32 ctx.scope.assembly_pointer (j_imm (long_words ctx fields e target).op_code) ≡ target)
      × ((long_words ctx fields e target).flag ≡ false)
unfolding long_words long_call
long_call-tail ctx e target fields is_tail small pc_small even fits =
    let v = sub32 target ctx.scope.assembly_pointer in
    let odd : (v % 2 == 1) ≡ false = ground arith in
    let near : (add32 v (2 ^ 20) / 2 ^ 21 == 0) ≡ true = unfold fits21 in ground arith in
    let offset : j_imm (0xEF + imm_jal v) ≡ v =
      j_imm-imm_jal v 0xEF (omega arith) fits even (omega arith) in
    rw (is_tail, odd, near)
      (unfold imm_jal in omega arith, unfold imm_jal in omega arith, rw offset (omega arith), refl)
