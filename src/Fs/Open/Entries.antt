-- ===== src/Fs/Open/Entries.antt =====
-- The entries of a directory sector in its bytes, as the FAT format has them, and the loop over a
-- sector against them.
use riscy_os.Base.{
  ℕ, zero, suc, ◌+◌, ◌*◌, ◌%◌, ◌≤◌, ◌<◌, ◌≡◌, refl, sym, ap, ◌∙◌, ◌≢◌, ◌⊎◌, inl, inr, Bool, ◌&&◌,
  true, false, List, [], ◌∷◌, arith, ◌==◌, length, get_or,
}
use riscy_os.Fs.{FileHandle, Sector, word_at}
use riscy_os.Fs.Name.{front}
use riscy_os.Fs.Open.{
  DirEntry, entry_cluster, dir_entry, bytes_at, same_bytes, no_match, match, skip, take, round_of,
  scan_dir, opened,
}

-- The entry at `i` is in use, is no part of a long name and has the name.
abbrev pub Names : List ℕ → Sector → ℕ → Type 0
Names name s i =
    (s (32 * i) ≢ 0)
    × (s (32 * i) ≢ 0xE5)
    × (s (32 * i + 11) % 16 ≢ 15)
    × ((j : ℕ) → j < 11 → s (32 * i + j) ≡ get_or name j 0)

-- The entry at `i` does not end the directory, and is deleted, a part of a long name or one of
-- another name.
abbrev pub PassedOver : List ℕ → Sector → ℕ → Type 0
PassedOver name s i =
    (s (32 * i) ≢ 0)
    × ((s (32 * i) ≡ 0xE5)
        ⊎ ((s (32 * i + 11) % 16 ≡ 15) ⊎ ((j : ℕ) × (j < 11) × (s (32 * i + j) ≢ get_or name j 0))))

-- The little-endian number in the word at a byte.
abbrev pub whole_word : Sector → ℕ → ℕ
whole_word s b = s b + 256 * s (b + 1) + 65536 * s (b + 2) + 16777216 * s (b + 3)

-- The FILE at its beginning that the entry at `i` describes: the cluster's halves are at bytes 26 and
-- 20 and the size at byte 28.
abbrev pub file_at : FileHandle → Sector → ℕ → FileHandle
file_at f s i =
    let low = s (32 * i + 26) + 256 * s (32 * i + 27) in
    let high = s (32 * i + 20) + 256 * s (32 * i + 21) in
    let cluster = low + 65536 * high in
    record f {
      fd = 0;
      first_cluster = cluster;
      current_cluster = cluster;
      current_sector = 0;
      current_byte = 0;
      file_offset = 0;
      file_size = whole_word s (32 * i + 28);
    }

pub opened-file_at :
    (f : FileHandle) (s : Sector) (i : ℕ) → opened f (dir_entry s i) ≡ file_at f s i
unfolding dir_entry
opened-file_at f s i =
    let cluster : entry_cluster (dir_entry s i)
        ≡ s (32 * i + 26)
          + 256 * s (32 * i + 27)
          + 65536 * (s (32 * i + 20) + 256 * s (32 * i + 21)) =
      omega arith in
    let size : word_at s (32 * i + 28) ≡ whole_word s (32 * i + 28) =
      unfold word_at in omega arith in
    rw (cluster, size) refl

same_bytes_refl : (name : List ℕ) → same_bytes name name ≡ true
same_bytes_refl [] = refl
same_bytes_refl (c ∷ cs) = grind (arith, same_bytes_refl cs)

bytes_at-named :
    (s : Sector) (at : ℕ) (name : List ℕ)
    → ((j : ℕ) → j < length name → s (at + j) ≡ get_or name j 0)
    → bytes_at s at (length name) ≡ name
unfolding bytes_at
bytes_at-named s at [] named = refl
bytes_at-named s at (c ∷ cs) named =
    let first : s at ≡ c = ap s (omega arith) ∙ named 0 (omega arith) in
    let rest =
      bytes_at-named s (at + 1) cs (λ j h. ap s (omega arith) ∙ named (suc j) (omega arith)) in
    rw (first, rest) refl

at_zero : (at : ℕ) → at + 0 ≡ at
at_zero at = omega arith

and_false : (b : Bool) → (b && false) ≡ false
and_false true = refl
and_false false = refl

bytes_at-other :
    (s : Sector) (at j : ℕ) (name : List ℕ)
    → j < length name
    → s (at + j) ≢ get_or name j 0
    → same_bytes (bytes_at s at (length name)) name ≡ false
unfolding bytes_at
bytes_at-other s at j [] inside differs = absurd (omega arith)
bytes_at-other s at zero (c ∷ cs) inside differs =
    let here : (s at == c) ≡ false = ground (arith, ap s (at_zero at)) in rw here refl
bytes_at-other s at (suc j) (c ∷ cs) inside differs =
    let later : s (at + 1 + j) ≡ s (at + suc j) = ap s (omega arith) in
    let rest = bytes_at-other s (at + 1) j cs (omega arith) (λ e. differs (sym later ∙ e)) in
    rw rest (and_false (s at == c))

-- The entry of the loop, by what its tests give.
round_take :
    (name : List ℕ) (e : DirEntry)
    → front e.dir_name ≢ 0
    → front e.dir_name ≢ 0xE5
    → e.dir_attr % 16 ≢ 15
    → same_bytes e.dir_name name ≡ true
    → round_of name e ≡ take
unfolding round_of
round_take name e used kept short same = rw same (ground arith)

round_skip :
    (name : List ℕ) (e : DirEntry)
    → front e.dir_name ≢ 0
    → ((front e.dir_name ≡ 0xE5) ⊎ ((e.dir_attr % 16 ≡ 15) ⊎ (same_bytes e.dir_name name ≡ false)))
    → round_of name e ≡ skip
unfolding round_of
round_skip name e used (inl deleted) = ground arith
round_skip name e used (inr (inl long_name)) = ground arith
round_skip name e used (inr (inr other)) = rw other (ground arith)

i_or_later : (i j : ℕ) → i ≤ j → (i ≡ j) ⊎ (i < j)
i_or_later i j h = omega arith

module _ (name : List ℕ) (s : Sector) (full : length name ≡ 11) where
  round_of-Names : (i : ℕ) → Names name s i → round_of name (dir_entry s i) ≡ take
  round_of-Names i (used, kept, short, named) =
      let bytes : bytes_at s (32 * i) 11 ≡ name =
        rw full at (bytes_at-named s (32 * i) name (λ j h. named j (omega arith))) in
      let same : same_bytes (bytes_at s (32 * i) 11) name ≡ true =
        rw bytes (same_bytes_refl name) in
      unfold dir_entry in
      round_take name (dir_entry s i) (unfold bytes_at in used) (unfold bytes_at in kept) short same

  round_of-PassedOver : (i : ℕ) → PassedOver name s i → round_of name (dir_entry s i) ≡ skip
  unfolding dir_entry
  round_of-PassedOver i (used, inl deleted) = round_skip name (dir_entry s i) used (inl deleted)
  round_of-PassedOver i (used, inr (inl long_name)) =
      round_skip name (dir_entry s i) used (inr (inl long_name))
  round_of-PassedOver i (used, inr (inr (j, h, differs))) =
      let other : same_bytes (bytes_at s (32 * i) 11) name ≡ false =
        rw full at (bytes_at-other s (32 * i) j name (omega arith) differs) in
      round_skip name (dir_entry s i) used (inr (inr other))

  pub scan_dir-PassedOver :
      (k i : ℕ)
      → ((h : ℕ) → i ≤ h → h < i + k → PassedOver name s h)
      → scan_dir k i name s ≡ no_match
  unfolding scan_dir
  scan_dir-PassedOver zero i passed = refl
  scan_dir-PassedOver (suc k) i passed =
      rw (scan_dir, round_of-PassedOver i (passed i (omega arith) (omega arith)))
        (scan_dir-PassedOver k (i + 1) (λ h low high. passed h (omega arith) (omega arith)))

  pub scan_dir-Names :
      (k i j : ℕ)
      → i ≤ j
      → j < i + k
      → ((h : ℕ) → i ≤ h → h < j → PassedOver name s h)
      → Names name s j
      → scan_dir k i name s ≡ match (dir_entry s j)
  unfolding scan_dir
  scan_dir-Names zero i j low high passed here = absurd (omega arith)
  scan_dir-Names (suc k) i j low high passed here = elim (i_or_later i j low) [
    | inl at ↦
        let taken : round_of name (dir_entry s i) ≡ take = rw at (round_of-Names j here) in
        rw (scan_dir, taken) (ap (λ (h : ℕ). match (dir_entry s h)) at)
    | inr later ↦
        rw (scan_dir, round_of-PassedOver i (passed i (omega arith) later))
          (scan_dir-Names k (i + 1) j (omega (arith, later)) (omega arith)
            (λ h l u. passed h (omega arith) u) here)
  ]
