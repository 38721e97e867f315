-- ===== src/Fs/Open/Lookup.antt =====
-- Looking a name up in the sectors of a directory.
use riscy_os.Base.{
  ℕ, zero, suc, ◌+◌, ◌≤◌, ◌<◌, ◌≡◌, refl, inl, inr, true, List, [], ◌∷◌, arith, ◌==◌, Bool-cases,
}
use riscy_os.Fs.{Sector}
use riscy_os.Fs.Open.{
  DirEntry, dir_entry, same_bytes, end_of_directory, match, Round, stop, skip, take, round_of,
  scan_dir,
}

eq_of_same_bytes : (a b : List ℕ) → same_bytes a b ≡ true → a ≡ b
eq_of_same_bytes [] [] h = refl
eq_of_same_bytes [] (d ∷ ds) h = absurd (cc)
eq_of_same_bytes (c ∷ cs) [] h = absurd (cc)
eq_of_same_bytes (c ∷ cs) (d ∷ ds) h = ground (arith, eq_of_same_bytes cs ds)

pub dir_name_of_take : (name : List ℕ) (e : DirEntry) → round_of name e ≡ take → e.dir_name ≡ name
unfolding round_of
dir_name_of_take name e h = ground (arith, eq_of_same_bytes e.dir_name name)

-- The entry that the loop takes is one of the sector's from `i` on; the loop went past all before it.
pub scan_dir-match :
    (k i : ℕ) (name : List ℕ) (s : Sector) (e : DirEntry)
    → scan_dir k i name s ≡ match e
    → (j : ℕ) × (i ≤ j)
      × (j < i + k)
      × (e ≡ dir_entry s j)
      × (round_of name e ≡ take)
      × ((h : ℕ) → i ≤ h → h < j → round_of name (dir_entry s h) ≡ skip)
unfolding scan_dir
scan_dir-match zero i name s e h = absurd (cc)
scan_dir-match (suc k) i name s e h =
    go (round_of name (dir_entry s i)) refl (scan_dir-match k (i + 1) name s e) h
  where
    go :
        (r : Round)
        → round_of name (dir_entry s i) ≡ r
        → (scan_dir k (i + 1) name s ≡ match e
            → (j : ℕ) × (i + 1 ≤ j)
              × (j < i + 1 + k)
              × (e ≡ dir_entry s j)
              × (round_of name e ≡ take)
              × ((h : ℕ) → i + 1 ≤ h → h < j → round_of name (dir_entry s h) ≡ skip))
        → (elim r [
          | stop ↦ end_of_directory
          | skip ↦ scan_dir k (i + 1) name s
          | take ↦ match (dir_entry s i)
        ])
          ≡ match e
        → (j : ℕ) × (i ≤ j)
          × (j < i + suc k)
          × (e ≡ dir_entry s j)
          × (round_of name e ≡ take)
          × ((h : ℕ) → i ≤ h → h < j → round_of name (dir_entry s h) ≡ skip)
    go stop q ih g = absurd (cc)
    go skip q ih g =
        let r = ih g in
        (
          r.0,
          omega (arith, r.1),
          omega (arith, r.2),
          r.3,
          r.4,
          λ x a b. elim (Bool-cases (x == i)) [
            | inl at ↦ let at' : x ≡ i = ground arith in rw at' q
            | inr past ↦ r.5 x (ground arith) b
          ],
        )
    go take q ih g =
        let same : e ≡ dir_entry s i = cc in
        (i, omega arith, omega arith, same, rw same q, λ x a b. absurd (omega arith))
