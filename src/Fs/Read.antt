-- ===== src/Fs/Read.antt =====
-- The read machine of kernel/fs/fs_read.c. Memory is byte-addressed here: the caller's buffer.
-- While a seek of the machine is under way, the file lives in the seek's context.
pub mod Copy
pub mod Content
pub mod Sectors
pub mod Deliver
use riscy_os.Base.{
  ℕ, zero, suc, ◌+◌, ◌-◌, ◌*◌, ◌/◌, ◌%◌, ◌^◌, ◌≤◌, ◌<◌, ◌≡◌, refl, sym, ap, ◌∙◌, ◌≢◌, ◌↔◌, ◌⊎◌, inl,
  inr, Bool, true, false, not, ◌&&◌, ◌||◌, Option, none, some, List, [], ◌∷◌, ◌++◌, arith, ltb, leb,
  ◌==◌, ==_iff, if◌then◌else◌, Bool-cases, length, get_or, set, length-append, length-set,
  get_or-set_self, get_or-set_ne, Mem, write, write_self, write_ne, u32_mod, add32, sub32,
}
use riscy_os.Fs.{FileHandle, Sector, Volume, minus_one}
use riscy_os.Fs.Seek.{SeekCtx, SeekResult, seek_whence, seek_step}
use riscy_os.Fs.Seek

-- fs_read_state_t
pub data ReadState : Type 0 where
  load_contents copy_contents seek_read done error : ReadState

-- fs_read_ctx_t; `bytes_remaining` is not negative.
pub record ReadCtx : Type 0 where
  pub file : FileHandle
  pub buffer : ℕ
  pub state : ReadState
  pub bytes_remaining : ℕ

-- What a call does last: it calls back with a status, submits a read of a sector, waits for a seek
-- that has submitted one, or does nothing. Memory is that after the call.
pub data ReadResult : Type 0 where
  completed : (status : ℕ) (file : FileHandle) (mem : Mem) → ReadResult
  posted : (lba : ℕ) (ctx : ReadCtx) (mem : Mem) → ReadResult
  seeking : (lba : ℕ) (seek : SeekCtx) (ctx : ReadCtx) (mem : Mem) → ReadResult
  ignored : ReadResult

-- `dst[i] = sector_contents[current_byte + i]`, for the rounds left from `i` on
pub copy_from : (rounds i dst current_byte : ℕ) → Sector → Mem → Mem
copy_from zero i dst cb sector mem = mem
copy_from (suc k) i dst cb sector mem =
    copy_from k (i + 1) dst cb sector (write mem (dst + i) (sector (cb + i)))

module _ (v : Volume) where
  -- `fs_read_post_io`
  pub read_post_io : ReadCtx → ℕ → ReadState → Mem → ReadResult
  read_post_io ctx lba next_state mem = posted lba (record ctx { state = next_state }) mem

  -- The sector that the file stands in.
  pub file_lba : FileHandle → ℕ
  file_lba f = add32 (v.cluster_to_lba f.current_cluster) f.current_sector

  pub read_submit : FileHandle → (buffer bytes : ℕ) → Mem → ReadResult
  unfolding read_post_io file_lba
  read_submit file buffer bytes mem =
      let ctx : ReadCtx = record {
        file = file;
        buffer = buffer;
        state = load_contents;
        bytes_remaining = bytes;
      } in
      read_post_io ctx (file_lba file) copy_contents mem

  -- `fs_read_finish`
  pub read_finish : ReadCtx → Mem → ReadResult
  read_finish ctx mem = elim ctx.state [
    | done ↦ completed 0 ctx.file mem
    | _ ↦ completed 1 ctx.file mem
  ]

  -- `fs_read_step` in the state FSREAD_LOAD_CONTENTS, which is how a seek calls it back.
  pub read_resume : ReadCtx → (status : ℕ) → Mem → ReadResult
  unfolding read_finish read_post_io file_lba
  read_resume ctx status mem =
      if not (status == 0)
      then read_finish (record ctx { state = error }) mem
      else read_post_io ctx (file_lba ctx.file) copy_contents mem

  -- What becomes of the machine when its seek calls back, or has submitted a read.
  pub from_seek : SeekResult → ReadCtx → Mem → ReadResult
  unfolding read_resume
  from_seek (Seek.completed status file) ctx mem =
      read_resume (record ctx { file = file }) status mem
  from_seek (Seek.posted lba seek) ctx mem = seeking lba seek ctx mem

  -- How many bytes the state FSREAD_COPY_CONTENTS takes from the sector.
  pub bytes_to_copy : ReadCtx → ℕ
  bytes_to_copy ctx =
      if leb 512 (add32 ctx.file.current_byte ctx.bytes_remaining)
      then 512 - ctx.file.current_byte
      else ctx.bytes_remaining

  -- `fs_read_step` in the state FSREAD_COPY_CONTENTS
  pub read_copy : ReadCtx → Sector → Mem → ReadResult
  unfolding copy_from read_finish from_seek bytes_to_copy
  read_copy ctx sector mem =
      let n = bytes_to_copy ctx in
      let mem' = copy_from n 0 ctx.buffer ctx.file.current_byte sector mem in
      let ctx' = record ctx {
        buffer = ctx.buffer + n;
        bytes_remaining = ctx.bytes_remaining - n;
      } in
      let file' = record (ctx.file) { current_byte = ctx.file.current_byte + n } in
      if ctx.bytes_remaining - n == 0
      then read_finish (record ctx' { file = file'; state = done }) mem'
      else from_seek (seek_whence v ctx.file n 1) (record ctx' { state = load_contents }) mem'

  pub read_step : ReadCtx → (status : ℕ) → Sector → Mem → ReadResult
  unfolding read_finish read_copy read_resume
  read_step ctx status sector mem =
      if not (status == 0) then read_finish (record ctx { state = error }) mem else elim ctx.state [
        | load_contents ↦ read_resume ctx status mem
        | copy_contents ↦ read_copy ctx sector mem
        | _ ↦ ignored
      ]

  -- The reads are served from the disk until the machine calls back.
  pub read_run : (disk : ℕ → Sector) → ℕ → ReadResult → Option (ℕ × FileHandle × Mem)
  unfolding read_step from_seek
  read_run disk fuel (completed status file mem) = some (status, file, mem)
  read_run disk fuel ignored = none
  read_run disk zero (posted lba ctx mem) = none
  read_run disk zero (seeking lba seek ctx mem) = none
  read_run disk (suc fuel) (posted lba ctx mem) =
      read_run disk fuel (read_step ctx 0 (disk lba) mem)
  read_run disk (suc fuel) (seeking lba seek ctx mem) =
      read_run disk fuel (from_seek (seek_step v seek 0 (disk lba)) ctx mem)
