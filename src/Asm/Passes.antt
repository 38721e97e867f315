-- ===== src/Asm/Passes.antt =====
-- The loop over the passes in `main` of tools/assembler/rva.c. What a pass over the source finds is a
-- parameter, a function of the pass's number.
use riscy_os.Base.{
  ℕ, zero, suc, ◌+◌, ◌-◌, ◌≤◌, ◌<◌, ◌≡◌, refl, inl, inr, Bool, true, false, not, ◌&&◌, ◌||◌, Option,
  none, some, arith, ltb, ◌==◌, if◌then◌else◌, Bool-cases,
}

abbrev pub max_passes : ℕ
max_passes = 20

-- The counts of a pass; `if_open` is that an IF is open at its end.
pub record PassResult : Type 0 where
  pub pass_errors : ℕ
  pub defined_count : ℕ
  pub redefined_count : ℕ
  pub undefined_count : ℕ
  pub div_zero_this_pass : Bool
  pub if_open : Bool

pub record PassState : Type 0 where
  pub pass_count : ℕ
  pub last_pass : Bool
  pub dump_code : Bool
  pub finished : Bool

abbrev pub first_pass : PassState
first_pass = record { pass_count = 0; last_pass = false; dump_code = false; finished = false }

unfoldable pub is_settled : PassResult → Bool
is_settled r = r.defined_count == 0 && r.redefined_count == 0 && r.undefined_count == 0

-- The end of a pass.
unfoldable pub next_pass : PassResult → PassState → PassState
next_pass r st =
    if not (r.pass_errors == 0)
    then record st { finished = true }
    else if st.last_pass || ltb max_passes st.pass_count
    then record st { finished = true }
    else record {
      pass_count = st.pass_count + 1;
      last_pass = is_settled r;
      dump_code = if is_settled r then not r.div_zero_this_pass else st.dump_code;
      finished = st.finished;
    }

unfoldable pub end_pass : PassResult → PassState → PassState
unfolding next_pass
end_pass r st = let next = next_pass r st in record next { finished = next.finished || r.if_open }

-- The loop; `none` is that fuel ran out.
unfoldable pub run_passes : (results : ℕ → PassResult) (fuel : ℕ) → PassState → Option PassState
run_passes results zero st = none
run_passes results (suc fuel) st =
    let next = end_pass (results st.pass_count) st in
    let rest = run_passes results fuel next in if next.finished then some next else rest

-- Code is dumped only on a last pass behind one with no error, no change of a label and no division
-- by zero.
abbrev pub IsSound : (results : ℕ → PassResult) → PassState → Type 0
IsSound results st =
    (st.last_pass ≡ true
      → (0 < st.pass_count)
        × ((results (st.pass_count - 1)).pass_errors ≡ 0)
        × (is_settled (results (st.pass_count - 1)) ≡ true)
        × (st.dump_code ≡ not (results (st.pass_count - 1)).div_zero_this_pass))
    × (st.last_pass ≡ false → st.dump_code ≡ false)

next_pass-IsSound :
    (results : ℕ → PassResult) (st : PassState)
    → IsSound results st
    → IsSound results (next_pass (results st.pass_count) st)
unfolding next_pass
next_pass-IsSound results st (when_last, else_none) =
    let r = results st.pass_count in
    let back : st.pass_count + 1 - 1 ≡ st.pass_count = omega arith in
    elim (Bool-cases (r.pass_errors == 0)) [
      | inr bad ↦ rw bad (when_last, else_none)
      | inl fine ↦ elim (Bool-cases (st.last_pass || ltb max_passes st.pass_count)) [
        | inl stop ↦ rw (fine, stop) (when_last, else_none)
        | inr more ↦ elim (Bool-cases (is_settled r)) [
          | inl settled ↦
              rw (fine, more, settled, back)
                (λ is_last. (omega arith, ground arith, settled, refl), λ not_last. absurd (cc))
          | inr changed ↦
              rw (fine, more, changed)
                (λ is_last. absurd (cc), λ not_last. else_none (ground arith))
        ]
      ]
    ]

end_pass-IsSound :
    (results : ℕ → PassResult) (st : PassState)
    → IsSound results st
    → IsSound results (end_pass (results st.pass_count) st)
unfolding end_pass
end_pass-IsSound results st sound = next_pass-IsSound results st sound

-- Short of the last one, a pass has another number than the passes before.
end_pass_counts :
    (r : PassResult) (st : PassState)
    → (end_pass r st).finished ≡ false
    → (st.pass_count ≤ max_passes) × ((end_pass r st).pass_count ≡ st.pass_count + 1)
unfolding end_pass next_pass
end_pass_counts r st goes = ground arith

end_pass_bound :
    (r : PassResult) (st : PassState)
    → st.pass_count ≤ max_passes + 1
    → (end_pass r st).pass_count ≤ max_passes + 1
unfolding end_pass next_pass
end_pass_bound r st below = ground arith

run_passes_lem :
    (results : ℕ → PassResult) (fuel : ℕ) (st : PassState)
    → IsSound results st
    → max_passes + 1 < st.pass_count + fuel
    → st.pass_count ≤ max_passes + 1
    → (last : PassState) × (run_passes results fuel st ≡ some last)
      × (last.finished ≡ true)
      × (last.pass_count ≤ max_passes + 1)
      × IsSound results last
unfolding run_passes
run_passes_lem results zero st sound enough below = absurd (omega arith)
run_passes_lem results (suc fuel) st sound enough below =
    let next = end_pass (results st.pass_count) st in
    let after = end_pass-IsSound results st sound in
    elim (Bool-cases next.finished) [
      | inl over ↦ (next, simp over, over, end_pass_bound (results st.pass_count) st below, after)
      | inr goes ↦
          let (low, up) = end_pass_counts (results st.pass_count) st goes in
          let (last, is, done, small, fine) =
            run_passes_lem results fuel next after (omega arith) (omega arith) in
          (last, simp (goes, is), done, small, fine)
    ]

-- Whatever the passes find, the loop ends after 22 of them at most, and where it ends with a last
-- pass, the pass before had no error, defined and changed no label and read no undefined one, and
-- code was dumped unless it divided by zero; without a last pass no code is dumped.
pub run_passes-IsSound :
    (results : ℕ → PassResult)
    → (last : PassState) × (run_passes results 22 first_pass ≡ some last)
      × (last.finished ≡ true)
      × (last.pass_count ≤ max_passes + 1)
      × IsSound results last
run_passes-IsSound results =
    run_passes_lem results 22 first_pass (λ h. absurd (cc), λ h. refl) (omega arith) (omega arith)
