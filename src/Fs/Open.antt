-- ===== src/Fs/Open.antt =====
-- The open machine of kernel/fs/fs_open.c, with directory entries (include/fat_directory.h) decoded
-- from the sector buffer. The calls that the machine makes of the rest of the kernel are a list of
-- actions, in order.
mod Directory
pub mod Entries
pub mod Lookup
pub mod Finish
pub mod Found
mod Tests
unfoldable pub use Directory.*
use riscy_os.Base.{
  ℕ, zero, suc, ◌+◌, ◌-◌, ◌*◌, ◌/◌, ◌%◌, ◌^◌, ◌≤◌, ◌<◌, ◌≡◌, refl, sym, ap, ◌∙◌, ◌≢◌, ◌↔◌, ◌⊎◌, inl,
  inr, Bool, true, false, not, ◌&&◌, ◌||◌, Option, none, some, List, [], ◌∷◌, ◌++◌, arith, ltb, leb,
  ◌==◌, ==_iff, if◌then◌else◌, Bool-cases, some_pair, length, get_or, set, length-append,
  length-set, get_or-set_self, get_or-set_ne, Mem, write, write_self, write_ne, u32_mod, add32,
  sub32,
}
use riscy_os.Fs.{FileHandle, Sector, Volume, minus_one, end_of_chain, word_at}
use riscy_os.Fs.Name.{
  front, make_fat_83_name, PathWalker, path_walker_advance, path_walker_has_next,
}

-- fs_open_state_t
pub data OpenState : Type 0 where
  parse_dir_sector process_fat done not_found error : OpenState

-- fs_open_ctx_t. `parent` is what `parent_cluster_storage` points to, `none` for a NULL pointer;
-- `out_file` is the FILE that is filled in and `has_callback` whether `on_complete` is set.
pub record OpenCtx : Type 0 where
  pub state : OpenState
  pub walker : PathWalker
  pub current_cluster : ℕ
  pub current_lba : ℕ
  pub sector_in_cluster : ℕ
  pub out_file : FileHandle
  pub parent : Option ℕ
  pub proc_id : ℕ
  pub has_callback : Bool

-- The calls that end the machine: the context is freed, register a0 of the process is set (to the
-- FILE pointer or to 0), the process is woken, the callback is called.
pub data Action : Type 0 where
  free_ctx : Action
  set_a0_file : Action
  set_a0_null : Action
  unblock : ℕ → Action
  call_back : ℕ → Action

pub data OpenResult : Type 0 where
  posted : (lba : ℕ) (ctx : OpenCtx) → OpenResult
  finished : (ctx : OpenCtx) → List Action → OpenResult
  ignored : OpenResult

-- `ok` of `fs_open_finish`: 0 for FSOPEN_DONE, else -1
unfoldable pub open_ok : OpenState → ℕ
open_ok done = 0
open_ok _ = minus_one

-- The calls of `fs_open_finish`.
unfoldable pub finish_actions : OpenCtx → List Action
unfolding open_ok
finish_actions ctx =
    let ok = open_ok ctx.state in
    if not (ctx.proc_id == 0)
    then free_ctx ∷ (if not (ok == 0) then set_a0_file else set_a0_null) ∷ unblock ctx.proc_id ∷ []
    else if ctx.has_callback
    then free_ctx ∷ free_ctx ∷ call_back ok ∷ []
    else free_ctx ∷ []

unfoldable pub open_finish : OpenCtx → OpenResult
open_finish ctx = finished ctx (finish_actions ctx)

-- The FILE of a directory entry.
abbrev pub opened : FileHandle → DirEntry → FileHandle
opened f e = record f {
  fd = 0;
  first_cluster = entry_cluster e;
  current_cluster = entry_cluster e;
  current_sector = 0;
  current_byte = 0;
  file_offset = 0;
  file_size = e.file_size;
}

abbrev pub store_parent : Option ℕ → ℕ → Option ℕ
store_parent none c = none
store_parent (some _) c = some c

module _ (v : Volume) where
  -- `fs_open_post_io`
  unfoldable pub open_post_io : OpenCtx → ℕ → OpenState → OpenResult
  open_post_io ctx lba next_state =
      posted lba (record ctx { state = next_state; current_lba = lba })

  -- `set_initial_dir`; `parent_dir` is the directory of the process.
  unfoldable pub initial_dir : (path : List ℕ) → (proc_id parent_dir : ℕ) → ℕ
  initial_dir path proc_id parent_dir =
      if (front path == b'/') || (proc_id == 0) then v.info.root_dir_first_cluster else parent_dir

  -- `fs_open_submit_with_dir_parent`
  unfoldable pub open_submit :
      (path : List ℕ) (out_file : FileHandle) (proc_id parent_dir : ℕ) (has_callback : Bool)
      → Option ℕ
      → OpenResult
  unfolding open_post_io initial_dir path_walker_advance
  open_submit path out_file proc_id parent_dir has_callback parent =
      let dir = initial_dir path proc_id parent_dir in
      let fresh : PathWalker = record { rest = some path; component = []; component_83 = [] } in
      let w = (path_walker_advance fresh path).1 in
      let ctx : OpenCtx = record {
        state = parse_dir_sector;
        walker = record w { component_83 = (make_fat_83_name w.component).1 };
        current_cluster = dir;
        current_lba = 0;
        sector_in_cluster = 0;
        out_file = out_file;
        parent = store_parent parent dir;
        proc_id = proc_id;
        has_callback = has_callback;
      } in
      open_post_io ctx (v.cluster_to_lba dir) parse_dir_sector

  -- What `fs_open_step` does with a matching entry: it is the file, if no path is left.
  unfoldable pub open_component : Option (List ℕ) → OpenCtx → DirEntry → OpenResult
  unfolding open_finish open_post_io
  open_component none ctx e =
      open_finish (record ctx { out_file = opened ctx.out_file e; state = done })
  open_component (some path) ctx e =
      let cluster = entry_cluster e in
      open_post_io
        (record ctx {
          walker = (path_walker_advance ctx.walker path).1;
          current_cluster = cluster;
          parent = store_parent ctx.parent cluster;
          sector_in_cluster = 0;
        })
        (v.cluster_to_lba cluster) parse_dir_sector

  unfoldable pub open_match : OpenCtx → DirEntry → OpenResult
  unfolding open_component
  open_match ctx e = open_component ctx.walker.rest ctx e

  -- ... and with a sector that has none. `sector_in_cluster` is a uint8_t.
  unfoldable pub open_advance : OpenCtx → OpenResult
  unfolding open_post_io
  open_advance ctx =
      let ctx' = record ctx {
        sector_in_cluster = (ctx.sector_in_cluster + 1) % 256;
        current_lba = add32 ctx.current_lba 1;
      } in
      if leb v.info.sectors_per_cluster ((ctx.sector_in_cluster + 1) % 256)
      then open_post_io ctx' (v.fat_calculate_lba ctx.current_cluster) process_fat
      else open_post_io ctx' (add32 ctx.current_lba 1) parse_dir_sector

  -- The state FSOPEN_PROCESS_FAT.
  unfoldable pub open_next_cluster : OpenCtx → Sector → OpenResult
  unfolding open_finish open_post_io
  open_next_cluster ctx buffer =
      let next = v.get_next_cluster buffer ctx.current_cluster in
      if leb end_of_chain next || next == 0
      then open_finish (record ctx { state = not_found })
      else open_post_io (record ctx { current_cluster = next; sector_in_cluster = 0 })
          (v.cluster_to_lba next) parse_dir_sector

  unfoldable pub open_step : OpenCtx → (status : ℕ) → Sector → OpenResult
  unfolding open_finish open_match open_advance open_next_cluster scan_dir
  open_step ctx status buffer =
      if not (status == 0) then open_finish (record ctx { state = error }) else elim ctx.state [
        | parse_dir_sector ↦ elim (scan_dir 16 0 ctx.walker.component_83 buffer) [
          | end_of_directory ↦ open_finish (record ctx { state = not_found })
          | no_match ↦ open_advance ctx
          | match e ↦ open_match ctx e
        ]
        | process_fat ↦ open_next_cluster ctx buffer
        | _ ↦ ignored
      ]

  -- The reads are served from the disk until the machine ends.
  unfoldable pub open_run : (disk : ℕ → Sector) → ℕ → OpenResult → Option (OpenCtx × List Action)
  unfolding open_step
  open_run disk fuel (finished ctx actions) = some (ctx, actions)
  open_run disk fuel ignored = none
  open_run disk zero (posted lba ctx) = none
  open_run disk (suc fuel) (posted lba ctx) = open_run disk fuel (open_step ctx 0 (disk lba))
