-- ===== src/Fs/Tests.antt =====
-- A volume of one sector per cluster on which each cluster links to the one behind it.
use riscy_os.Base.{ℕ, ◌+◌, ◌≡◌, refl, inl, some, arith, Mem}
use riscy_os.Fs.{FileHandle, Sector, Volume}
use riscy_os.Fs.Seek.{seek_decompose, seek_submit, seek_run}
use riscy_os.Fs.Seek.Walk.{nth, IsChain, Serves, InSync, landed}
use riscy_os.Fs.Seek.Correct.{seek_submit_lands, seek_submit_first_cluster}
use riscy_os.Fs.Read.{read_submit, read_run}
use riscy_os.Fs.Read.Content.{Positioned}
use riscy_os.Fs.Read.Sectors.{Delivered}
use riscy_os.Fs.Read.Deliver.{read_submit_delivers, read_submit_offset}

abbrev next_cluster : ℕ → ℕ
next_cluster c = c + 1

-- Sector `l` holds `l + 1` in each byte; the sectors of the FAT are the first ones.
abbrev disk : ℕ → Sector
disk l i = l + 1

abbrev volume : Volume
volume = record {
  info = record {
    fat_begin_lba = 0;
    fat_sector_count = 100;
    cluster_begin_lba = 100;
    root_dir_first_cluster = 2;
    sectors_per_cluster = 1;
  };
  cluster_to_lba = λ c. c + 98;
  fat_calculate_lba = λ c. c;
  get_next_cluster = λ s c. s 0;
}

volume-Serves : Serves volume disk next_cluster
volume-Serves c = refl

-- A file of three clusters that is open at its start, and the same at offset 1200.
abbrev at_start : FileHandle
at_start = record {
  fd = 3;
  first_cluster = 2;
  current_cluster = 2;
  current_sector = 0;
  current_byte = 0;
  file_offset = 0;
  file_size = 1500;
  owner_pid = 1;
}

abbrev in_third : FileHandle
in_third = record at_start { current_cluster = 4; current_byte = 176; file_offset = 1200 }

at_start-InSync : InSync volume next_cluster at_start
unfolding nth
at_start-InSync = refl

chain : IsChain next_cluster 2 2
chain = (refl, (refl, tt))

seek_submit_lands_example :
    seek_run volume disk 5 (seek_submit volume at_start 1200)
    ≡ some (0, landed at_start (seek_decompose 1 1200) 1200 (nth next_cluster 2 2))
seek_submit_lands_example =
    seek_submit_lands volume disk next_cluster volume-Serves at_start 1200 5 (omega arith)
      (omega arith) at_start-InSync chain (omega arith) (inl (omega arith))

seek_submit_first_cluster_example :
    (g : FileHandle) × (seek_run volume disk 5 (seek_submit volume in_third 100) ≡ some (0, g))
    × (g.file_offset ≡ 100)
    × (g.current_cluster ≡ 4)
    × ¬ InSync volume next_cluster g
seek_submit_first_cluster_example =
    seek_submit_first_cluster volume disk next_cluster volume-Serves in_third 100 5 (omega arith)
      (omega arith) refl (omega arith) (omega arith)

at_start-Positioned : Positioned volume next_cluster at_start
at_start-Positioned = record { cluster = at_start-InSync; sector = refl; byte = refl }

read_submit_delivers_example :
    (f' : FileHandle) × (mem' : Mem) × (read_run volume disk 9
        (read_submit volume at_start 4096 700 (λ x. 0))
      ≡ some (0, f', mem'))
    × Delivered volume disk next_cluster 2 0 4096 700 (λ x. 0) mem'
read_submit_delivers_example =
    read_submit_delivers volume disk next_cluster volume-Serves (omega arith) (omega arith) at_start
      4096 700 9 (λ x. 0) at_start-Positioned (omega arith) (omega arith) chain (omega arith)

read_submit_offset_example :
    (f' : FileHandle) × (mem' : Mem) × (read_run volume disk 9
        (read_submit volume at_start 4096 100 (λ x. 0))
      ≡ some (0, f', mem'))
    × (f'.file_offset ≡ 0)
    × (f'.current_byte ≡ 100)
    × ¬ Positioned volume next_cluster f'
read_submit_offset_example =
    read_submit_offset volume disk next_cluster volume-Serves (omega arith) (omega arith) at_start
      4096 100 8 (λ x. 0) at_start-Positioned (omega arith) (omega arith)
