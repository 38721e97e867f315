-- ===== src/Fs/Open/Directory.antt =====
-- The entries of a directory sector, include/fat_directory.h, and the loop of kernel/fs/fs_open.c
-- that looks for a name among them.
use riscy_os.Base.{
  ℕ, zero, suc, ◌+◌, ◌*◌, ◌%◌, Bool, true, false, ◌&&◌, List, [], ◌∷◌, ◌==◌, if◌then◌else◌,
}
use riscy_os.Fs.{Sector, word_at}
use riscy_os.Fs.Name.{front}

-- FAT_DIRECTORY: the fields that are used, of the 32 bytes from `at` on.
pub record DirEntry : Type 0 where
  pub dir_name : List ℕ
  pub dir_attr : ℕ
  pub first_cluster_hi : ℕ
  pub first_cluster_lo : ℕ
  pub file_size : ℕ

unfoldable pub bytes_at : Sector → (at count : ℕ) → List ℕ
bytes_at s at zero = []
bytes_at s at (suc k) = s at ∷ bytes_at s (at + 1) k

unfoldable pub dir_entry : Sector → ℕ → DirEntry
unfolding bytes_at word_at
dir_entry s i =
    let at = 32 * i in
    record {
      dir_name = bytes_at s at 11;
      dir_attr = s (at + 11);
      first_cluster_hi = s (at + 20) + 256 * s (at + 21);
      first_cluster_lo = s (at + 26) + 256 * s (at + 27);
      file_size = word_at s (at + 28);
    }

-- memcmp(a, b, 11) == 0
abbrev pub same_bytes : List ℕ → List ℕ → Bool
same_bytes [] [] = true
same_bytes [] (d ∷ ds) = false
same_bytes (c ∷ cs) [] = false
same_bytes (c ∷ cs) (d ∷ ds) = (c == d) && same_bytes cs ds

-- (DIR_FstClusHI << 16) | DIR_FstClusLO
abbrev pub entry_cluster : DirEntry → ℕ
entry_cluster e = e.first_cluster_hi * 65536 + e.first_cluster_lo

-- What the loop over a directory sector finds.
pub data Scan : Type 0 where
  end_of_directory : Scan
  no_match : Scan
  match : DirEntry → Scan

-- One round of that loop: `skip` stands for `continue`.
pub data Round : Type 0 where
  stop skip take : Round

unfoldable pub round_of : List ℕ → DirEntry → Round
round_of name e =
    if front e.dir_name == 0
    then stop
    else if front e.dir_name == 0xE5
    then skip
    else if e.dir_attr % 16 == 0x0F
    then skip
    else if same_bytes e.dir_name name
    then take
    else skip

-- The loop from entry `i` on; a sector holds 16 entries.
unfoldable pub scan_dir : (rounds i : ℕ) → List ℕ → Sector → Scan
scan_dir zero i name s = no_match
scan_dir (suc k) i name s =
    let rest = scan_dir k (i + 1) name s in
    elim (round_of name (dir_entry s i)) [
      | stop ↦ end_of_directory
      | skip ↦ rest
      | take ↦ match (dir_entry s i)
    ]
