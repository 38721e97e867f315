-- ===== src/Fs/Open/Tests.antt =====
-- Names, and a directory whose second sector has the entry that is looked for.
use riscy_os.Base.{
  ◌*◌, List, get_or, sym, ◌∙◌, inr, ℕ, zero, suc, ◌+◌, ◌<◌, ◌≡◌, refl, true, false, none, some, [],
  ◌∷◌, arith, ltb, ◌==◌, if◌then◌else◌,
}
use riscy_os.Fs.{FileHandle, Sector, Volume}
use riscy_os.Fs.Name.{
  PathWalker, get_next_path_component, fat_valid_char, copy_component, skip_slash,
}
use riscy_os.Fs.Name.Laws.{all_valid}
use riscy_os.Fs.Open.{
  DirEntry, dir_entry, entry_cluster, match, scan_dir, parse_dir_sector, done, OpenCtx, posted,
  open_match, open_run,
}
use riscy_os.Fs.Open.Entries.{PassedOver, Names, file_at}
use riscy_os.Fs.Open.Found.{EndsWith, open_run_finds, open_match_last_component}

valid_name : all_valid (97 ∷ 98 ∷ []) ≡ true
unfolding fat_valid_char
valid_name = refl

valid_ext : all_valid (99 ∷ []) ≡ true
unfolding fat_valid_char
valid_ext = refl

abbrev walker : PathWalker
walker = record {
  rest = none;
  component = [];
  component_83 = 65 ∷ 65 ∷ 65 ∷ 65 ∷ 65 ∷ 65 ∷ 65 ∷ 65 ∷ 65 ∷ 65 ∷ 65 ∷ [];
}

-- Sector 20 names no entry AAAAAAAAAAA, the others begin with one.
abbrev disk : ℕ → Sector
disk l i = if l == 20 then 66 else if ltb i 11 then 65 else 32

abbrev volume : Volume
volume = record {
  info = record {
    fat_begin_lba = 0;
    fat_sector_count = 10;
    cluster_begin_lba = 10;
    root_dir_first_cluster = 2;
    sectors_per_cluster = 4;
  };
  cluster_to_lba = λ c. c + 8;
  fat_calculate_lba = λ c. c;
  get_next_cluster = λ s c. s 0;
}

abbrev empty_file : FileHandle
empty_file = record {
  fd = 0;
  first_cluster = 0;
  current_cluster = 0;
  current_sector = 0;
  current_byte = 0;
  file_offset = 0;
  file_size = 0;
  owner_pid = 0;
}

abbrev ctx : OpenCtx
ctx = record {
  state = parse_dir_sector;
  walker = walker;
  current_cluster = 12;
  current_lba = 20;
  sector_in_cluster = 0;
  out_file = empty_file;
  parent = none;
  proc_id = 7;
  has_callback = false;
}

abbrev entry : DirEntry
entry = dir_entry (disk 21) 0

abbrev letters : ℕ → List ℕ
letters zero = []
letters (suc n) = 65 ∷ letters n

get_or-letters : (n j : ℕ) → j < n → get_or (letters n) j 0 ≡ 65
get_or-letters zero j h = absurd (omega arith)
get_or-letters (suc n) zero h = refl
get_or-letters (suc n) (suc j) h = get_or-letters n j (omega arith)

name_byte : (j : ℕ) → j < 11 → disk 21 (32 * 0 + j) ≡ 65
name_byte j h = ground arith

first_entry : Names walker.component_83 (disk 21) 0
first_entry =
    (omega arith, omega arith, omega arith, λ j h. name_byte j h ∙ sym (get_or-letters 11 j h))

other_names : (h : ℕ) → PassedOver walker.component_83 (disk 20) h
other_names h = (omega arith, inr (inr (0, omega arith, omega arith)))

open_run_finds_example :
    EndsWith volume disk done
      (file_at empty_file (disk 21) 0)
      (open_run volume disk 5 (posted 20 ctx))
open_run_finds_example =
    open_run_finds volume disk 1 0 5 ctx refl refl refl (omega arith) (omega arith) (omega arith)
      before (omega arith) (λ h l. absurd (omega arith)) first_entry (omega arith)
  where
    before : (j : ℕ) → j < 1 → (h : ℕ) → h < 16 → PassedOver walker.component_83 (disk (20 + j)) h
    before zero h e l = other_names e
    before (suc j) h e l = absurd (omega arith)

-- The path goes on with /b.
abbrev going_down : OpenCtx
going_down = record ctx { walker = record walker { rest = some (47 ∷ 98 ∷ []) } }

last_part : get_next_path_component (47 ∷ 98 ∷ []) ≡ some (98 ∷ [], [])
unfolding get_next_path_component copy_component skip_slash
last_part = refl

open_match_last_component_example :
    (ctx' : OpenCtx) × (open_match volume going_down entry
      ≡ posted (volume.cluster_to_lba (entry_cluster entry)) ctx')
    × (ctx'.walker.component ≡ 98 ∷ [])
    × (ctx'.walker.rest ≡ none)
    × ((s : Sector) (found : DirEntry)
        → scan_dir 16 0 ctx'.walker.component_83 s ≡ match found
        → found.dir_name ≡ walker.component_83)
open_match_last_component_example =
    open_match_last_component volume going_down entry (47 ∷ 98 ∷ []) (98 ∷ []) refl last_part
