-- ===== src/Fs/Seek.antt =====
-- The seek machine of kernel/fs/fs_seek.c.
pub mod Position
pub mod Walk
pub mod Correct
use riscy_os.Base.{
  ℕ, zero, suc, ◌+◌, ◌-◌, ◌*◌, ◌/◌, ◌%◌, ◌^◌, ◌≤◌, ◌<◌, ◌≡◌, refl, sym, ap, ◌∙◌, ◌≢◌, ◌↔◌, ◌⊎◌, inl,
  inr, Bool, true, false, not, ◌&&◌, ◌||◌, Option, none, some, List, [], ◌∷◌, ◌++◌, arith, ltb, leb,
  ◌==◌, ==_iff, if◌then◌else◌, Bool-cases, length, get_or, set, length-append, length-set,
  get_or-set_self, get_or-set_ne, Mem, write, write_self, write_ne, u32_mod, add32, sub32,
}
use riscy_os.Fs.{FileHandle, Sector, Volume, minus_one, end_of_chain}

-- seek_position_t: a cluster index, a uint8_t and a uint16_t.
pub record SeekPosition : Type 0 where
  pub cluster_index : ℕ
  pub sector_in_cluster : ℕ
  pub byte_in_sector : ℕ

-- fs_seek_ctx_t
pub data SeekState : Type 0 where
  walk_fat done error : SeekState

pub record SeekCtx : Type 0 where
  pub state : SeekState
  pub file : FileHandle
  pub current_cluster : ℕ
  pub clusters_remaining : ℕ
  pub target : SeekPosition
  pub target_offset : ℕ

-- What a call does last: it calls `on_complete` with a status, or submits a read of a sector.
pub data SeekResult : Type 0 where
  completed : (status : ℕ) (file : FileHandle) → SeekResult
  posted : (lba : ℕ) (ctx : SeekCtx) → SeekResult

unfoldable pub seek_decompose : (sectors_per_cluster offset : ℕ) → SeekPosition
seek_decompose spc offset =
    let off_in_clus = offset % (512 * spc) in
    record {
      cluster_index = offset / (512 * spc);
      sector_in_cluster = off_in_clus / 512 % 256;
      byte_in_sector = off_in_clus % 512 % 65536;
    }

module _ (v : Volume) where
  -- `fs_seek_post_io`
  unfoldable pub seek_post_io : SeekCtx → ℕ → SeekResult
  seek_post_io ctx lba = posted lba ctx

  -- The sub-cluster fields of the file at the target.
  unfoldable pub place : FileHandle → SeekPosition → ℕ → FileHandle
  place file target offset = record file {
    current_sector = target.sector_in_cluster;
    current_byte = target.byte_in_sector;
    file_offset = offset;
  }

  unfoldable pub seek_submit : FileHandle → (target_offset : ℕ) → SeekResult
  unfolding seek_decompose seek_post_io place
  seek_submit file target_offset =
      let spc = v.info.sectors_per_cluster in
      let target = seek_decompose spc target_offset in
      let current = seek_decompose spc file.file_offset in
      let forward = leb current.cluster_index target.cluster_index in
      let start_cluster = if forward then file.current_cluster else file.first_cluster in
      let start_cluster_index = if forward then current.cluster_index else 0 in
      let clusters_to_skip = sub32 target.cluster_index start_cluster_index in
      let ctx : SeekCtx = record {
        state = walk_fat;
        file = file;
        current_cluster = start_cluster;
        clusters_remaining = clusters_to_skip;
        target = target;
        target_offset = target_offset;
      } in
      if ltb file.file_size target_offset
      then completed minus_one file
      else if clusters_to_skip == 0
      then completed 0 (place file target target_offset)
      else seek_post_io ctx (v.fat_calculate_lba start_cluster)

  -- `whence` is SEEK_SET, SEEK_CUR or SEEK_END, that is 0, 1 or 2; the offset is a 32-bit word.
  unfoldable pub seek_whence : FileHandle → (offset whence : ℕ) → SeekResult
  unfolding seek_submit
  seek_whence file offset whence =
      if whence == 0
      then seek_submit file offset
      else if whence == 1
      then seek_submit file (add32 file.file_offset offset)
      else if whence == 2
      then seek_submit file (add32 file.file_size offset)
      else completed minus_one file

  -- `fs_seek_finish`
  unfoldable pub seek_finish : SeekCtx → SeekResult
  seek_finish ctx = elim ctx.state [
    | done ↦ completed 0 ctx.file
    | _ ↦ completed minus_one ctx.file
  ]

  -- `fs_seek_step`, with the sector that was read in the buffer.
  unfoldable pub seek_step : SeekCtx → (status : ℕ) → Sector → SeekResult
  unfolding seek_finish seek_post_io place
  seek_step ctx status buffer =
      let next = v.get_next_cluster buffer ctx.current_cluster in
      let ctx' = record ctx {
        current_cluster = next;
        clusters_remaining = sub32 ctx.clusters_remaining 1;
      } in
      let file' = record (place ctx.file ctx.target ctx.target_offset) { current_cluster = next } in
      if not (status == 0)
      then seek_finish (record ctx { state = error })
      else if leb end_of_chain next || next == 0
      then seek_finish (record ctx { state = error })
      else if sub32 ctx.clusters_remaining 1 == 0
      then seek_finish (record ctx' { state = done; file = file' })
      else seek_post_io ctx' (v.fat_calculate_lba next)

  -- The reads are served from the disk until the machine calls back; `none` when out of fuel.
  unfoldable pub seek_run : (disk : ℕ → Sector) → ℕ → SeekResult → Option (ℕ × FileHandle)
  seek_run disk fuel (completed status file) = some (status, file)
  seek_run disk zero (posted lba ctx) = none
  seek_run disk (suc fuel) (posted lba ctx) = seek_run disk fuel (seek_step ctx 0 (disk lba))
