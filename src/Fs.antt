-- ===== src/Fs.antt =====
-- The file layer of kernel/fs: open files (include/file.h), the parameters of a mounted FAT volume
-- (include/fs_running_info.h) and what the C code calls in kernel/fs/fs.s.
-- The state machines below keep the C contexts as records. `kmalloc` of a context or request is not
-- tested by the source; the machines are those in which it succeeds.
pub mod Seek
pub mod Read
pub mod Name
pub mod Open
pub mod Close
mod Tests
use riscy_os.Base.{
  ℕ, zero, suc, ◌+◌, ◌-◌, ◌*◌, ◌/◌, ◌%◌, ◌^◌, ◌≤◌, ◌<◌, ◌≡◌, refl, sym, ap, ◌∙◌, ◌≢◌, ◌↔◌, ◌⊎◌, inl,
  inr, Bool, true, false, not, ◌&&◌, ◌||◌, Option, none, some, List, [], ◌∷◌, ◌++◌, arith, ltb, leb,
  ◌==◌, ==_iff, if◌then◌else◌, Bool-cases, length, get_or, set, length-append, length-set,
  get_or-set_self, get_or-set_ne, Mem, write, write_self, write_ne, u32_mod, add32, sub32,
}

-- FILE. It is reached by pointer; the machine that works on a file holds its current value.
pub record FileHandle : Type 0 where
  pub fd : ℕ
  pub first_cluster : ℕ
  pub current_cluster : ℕ
  pub current_sector : ℕ
  pub current_byte : ℕ
  pub file_offset : ℕ
  pub file_size : ℕ
  pub owner_pid : ℕ

-- The bytes of the sector buffer at SD_RX_RAM.
abbrev pub Sector : Type 0
Sector = ℕ → ℕ

-- FS_RUN_INFO
pub record FsRunInfo : Type 0 where
  pub fat_begin_lba : ℕ
  pub fat_sector_count : ℕ
  pub cluster_begin_lba : ℕ
  pub root_dir_first_cluster : ℕ
  pub sectors_per_cluster : ℕ

-- What the machines use of the volume: include/io/sd_functions.h.
pub record Volume : Type 0 where
  pub info : FsRunInfo
  pub cluster_to_lba : ℕ → ℕ
  pub fat_calculate_lba : ℕ → ℕ
  pub get_next_cluster : Sector → ℕ → ℕ

-- The int -1 as a 32-bit word: the status that reports a failure.
abbrev pub minus_one : ℕ
minus_one = u32_mod - 1

-- Cluster numbers from here on end a chain.
abbrev pub end_of_chain : ℕ
end_of_chain = 0x0fff_fff8

-- (cluster - 2) * SECTORS_PER_CLUSTER + CLUSTER_BEGIN_LBA, on words
unfoldable pub cluster_to_lba : FsRunInfo → ℕ → ℕ
cluster_to_lba info c =
    add32 (sub32 c 2 * info.sectors_per_cluster % u32_mod) info.cluster_begin_lba

-- `fat_calcualte_lba` ends in a tail call of `sd_start_read`, whose result is then the answer.
unfoldable pub fat_calculate_lba : FsRunInfo → (sd_start_read : ℕ → ℕ) → ℕ → ℕ
fat_calculate_lba info sd_start_read c =
    let lba = add32 (c / 512) info.fat_begin_lba in
    if ltb info.fat_sector_count lba then lba else sd_start_read lba

-- A little-endian word of the sector buffer.
unfoldable pub word_at : Sector → ℕ → ℕ
word_at s i = s i + 256 * (s (i + 1) + 256 * (s (i + 2) + 256 * s (i + 3)))

-- The word at byte `cluster % 512` of the buffer.
unfoldable pub get_next_cluster : Sector → ℕ → ℕ
unfolding word_at
get_next_cluster s c = word_at s (c % 512)

-- The volume as kernel/fs/fs.s has it; the driver's `sd_start_read` is a parameter.
unfoldable pub asm_volume : FsRunInfo → (sd_start_read : ℕ → ℕ) → Volume
unfolding cluster_to_lba fat_calculate_lba get_next_cluster
asm_volume info sd_start_read = record {
  info = info;
  cluster_to_lba = cluster_to_lba info;
  fat_calculate_lba = fat_calculate_lba info sd_start_read;
  get_next_cluster = get_next_cluster;
}
