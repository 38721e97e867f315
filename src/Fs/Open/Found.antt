-- ===== src/Fs/Open/Found.antt =====
-- What opening finds in a directory, and where the walk along a path goes wrong.
use riscy_os.Base.{
  ℕ, zero, suc, ◌+◌, ◌%◌, ◌<◌, ◌≡◌, refl, false, Option, none, some, List, [], arith, leb, u32_mod,
  add32, length, sym,
}
use mathlib.Core.Path.{subst}
use riscy_os.Fs.{FileHandle, Sector, Volume}
use riscy_os.Fs.Name.{PathWalker, get_next_path_component, path_walker_advance, advance_to}
use riscy_os.Fs.Open.{
  DirEntry, dir_entry, entry_cluster, end_of_directory, no_match, match, scan_dir, OpenState,
  parse_dir_sector, done, not_found, OpenCtx, Action, posted, open_finish, finish_actions, opened,
  store_parent, open_post_io, open_match, open_component, open_advance, open_step, open_run,
}
use riscy_os.Fs.Open.Entries.{
  PassedOver, Names, file_at, opened-file_at, scan_dir-PassedOver, scan_dir-Names,
}
use riscy_os.Fs.Open.Lookup.{scan_dir-match, dir_name_of_take}

module _ (v : Volume) (disk : ℕ → Sector) where
  -- A machine that ends in the state `st` with the FILE `f`.
  abbrev pub EndsWith : OpenState → FileHandle → Option (OpenCtx × List Action) → Type 0
  EndsWith st f r =
      (ctx : OpenCtx) × (acts : List Action) × (r ≡ some (ctx, acts))
      × (ctx.state ≡ st)
      × (ctx.out_file ≡ f)

  run-open_finish :
      (fuel : ℕ) (ctx : OpenCtx)
      → EndsWith ctx.state ctx.out_file (open_run v disk fuel (open_finish ctx))
  unfolding open_run open_finish
  run-open_finish fuel ctx = (ctx, finish_actions ctx, refl, refl, refl)

  -- Sectors of the cluster in which the name is not found are passed over one by one.
  module _ (ctx : OpenCtx) (state : ctx.state ≡ parse_dir_sector) where
    step_over :
        scan_dir 16 0 ctx.walker.component_83 (disk ctx.current_lba) ≡ no_match
        → ctx.sector_in_cluster + 1 < v.info.sectors_per_cluster
        → v.info.sectors_per_cluster < 256
        → open_step v ctx 0 (disk ctx.current_lba)
          ≡ posted (add32 ctx.current_lba 1) (record ctx {
            state = parse_dir_sector;
            sector_in_cluster = ctx.sector_in_cluster + 1;
            current_lba = add32 ctx.current_lba 1;
          })
    unfolding open_step open_advance open_post_io
    step_over none_here within small =
        let more : leb v.info.sectors_per_cluster (ctx.sector_in_cluster + 1) ≡ false =
          ground arith in
        let sector : (ctx.sector_in_cluster + 1) % 256 ≡ ctx.sector_in_cluster + 1 = omega arith in
        simp (state, none_here, more, sector)

    step_end :
        scan_dir 16 0 ctx.walker.component_83 (disk ctx.current_lba) ≡ end_of_directory
        → open_step v ctx 0 (disk ctx.current_lba) ≡ open_finish (record ctx { state = not_found })
    unfolding open_step
    step_end last = simp (state, last)

    step_found :
        (e : DirEntry)
        → scan_dir 16 0 ctx.walker.component_83 (disk ctx.current_lba) ≡ match e
        → ctx.walker.rest ≡ none
        → open_step v ctx 0 (disk ctx.current_lba)
          ≡ open_finish (record ctx { out_file = opened ctx.out_file e; state = done })
    unfolding open_step open_match
    step_found e found last = simp (state, found, last, open_component)

  -- Sectors in which the loop finds nothing are passed over up to the one where it finds an entry.
  open_run-match :
      (k fuel : ℕ) (ctx : OpenCtx) (e : DirEntry)
      → ctx.state ≡ parse_dir_sector
      → ctx.walker.rest ≡ none
      → ctx.sector_in_cluster + k < v.info.sectors_per_cluster
      → v.info.sectors_per_cluster < 256
      → ctx.current_lba + k < u32_mod
      → ((j : ℕ)
          → j < k
          → scan_dir 16 0 ctx.walker.component_83 (disk (ctx.current_lba + j)) ≡ no_match)
      → scan_dir 16 0 ctx.walker.component_83 (disk (ctx.current_lba + k)) ≡ match e
      → k < fuel
      → EndsWith done (opened ctx.out_file e) (open_run v disk fuel (posted ctx.current_lba ctx))
  unfolding open_run
  open_run-match k zero ctx e state rest within small low before here h = absurd (omega arith)
  open_run-match zero (suc fuel) ctx e state rest within small low before here h =
      let at : ctx.current_lba + 0 ≡ ctx.current_lba = omega arith in
      rw (step_found ctx state e (rw at at here) rest, open_run)
        (run-open_finish fuel (record ctx { out_file = opened ctx.out_file e; state = done }))
  open_run-match (suc k) (suc fuel) ctx e state rest within small low before here h =
      let at : ctx.current_lba + 0 ≡ ctx.current_lba = omega arith in
      let next : add32 ctx.current_lba 1 ≡ ctx.current_lba + 1 = omega arith in
      let ctx' = record ctx {
        state = parse_dir_sector;
        sector_in_cluster = ctx.sector_in_cluster + 1;
        current_lba = ctx.current_lba + 1;
      } in
      rw (step_over ctx state (rw at at (before 0 (omega arith))) (omega arith) small, open_run)
        (rw next (
          open_run-match k fuel ctx' e refl rest (omega arith) small (omega arith)
            (λ j hj.
              subst (λ l. scan_dir 16 0 ctx.walker.component_83 (disk l) ≡ no_match) (omega arith)
                (before (suc j) (omega arith)))
            (subst (λ l. scan_dir 16 0 ctx.walker.component_83 (disk l) ≡ match e) (omega arith)
              here)
            (omega arith)))

  -- The machine reads the sectors of a directory's cluster in order. Suppose the entry `i` of the
  -- sector `k`, still in the cluster, is in use, is no part of a long name and has the 11 characters
  -- that are looked for, and that no entry before it, in that sector or the ones before, ends the
  -- directory or does the same. Then an open whose path is used up ends successfully with the FILE,
  -- at its beginning, of the first cluster and the size that the bytes of that entry give, and `k + 1`
  -- reads are enough.
  pub open_run_finds :
      (k i fuel : ℕ) (ctx : OpenCtx)
      → ctx.state ≡ parse_dir_sector
      → ctx.walker.rest ≡ none
      → length ctx.walker.component_83 ≡ 11
      → ctx.sector_in_cluster + k < v.info.sectors_per_cluster
      → v.info.sectors_per_cluster < 256
      → ctx.current_lba + k < u32_mod
      → ((j : ℕ)
          → j < k
          → (h : ℕ) → h < 16
          → PassedOver ctx.walker.component_83 (disk (ctx.current_lba + j)) h)
      → i < 16
      → ((h : ℕ) → h < i → PassedOver ctx.walker.component_83 (disk (ctx.current_lba + k)) h)
      → Names ctx.walker.component_83 (disk (ctx.current_lba + k)) i
      → k < fuel
      → EndsWith done
          (file_at ctx.out_file (disk (ctx.current_lba + k)) i)
          (open_run v disk fuel (posted ctx.current_lba ctx))
  open_run_finds k i fuel ctx state rest full within small low before inside passed here h =
      let name = ctx.walker.component_83 in
      let s = disk (ctx.current_lba + k) in
      rw (sym (opened-file_at ctx.out_file s i)) (
        open_run-match k fuel ctx (dir_entry s i) state rest within small low
          (λ j hj.
            scan_dir-PassedOver name (disk (ctx.current_lba + j)) full 16 0
              (λ e l u. before j hj e (omega arith)))
          (scan_dir-Names name s full 16 0 i (omega arith) (omega arith) (λ e l u. passed e u) here)
          h)

advance_last :
    (w : PathWalker) (path comp : List ℕ)
    → get_next_path_component path ≡ some (comp, [])
    → path_walker_advance w path ≡ (false, record w { rest = none; component = comp })
unfolding path_walker_advance
advance_last w path comp h = rw (h, advance_to)

-- When a directory on the path matches and one component is left behind it, the machine goes down
-- into that directory with the component taken from the path but still the 8.3 name of the
-- directory: every entry that it then takes from a sector has the directory's name.
pub open_match_last_component :
    (v : Volume) (ctx : OpenCtx) (e : DirEntry) (path comp : List ℕ)
    → ctx.walker.rest ≡ some path
    → get_next_path_component path ≡ some (comp, [])
    → (ctx' : OpenCtx) × (open_match v ctx e ≡ posted (v.cluster_to_lba (entry_cluster e)) ctx')
      × (ctx'.walker.component ≡ comp)
      × (ctx'.walker.rest ≡ none)
      × ((s : Sector) (found : DirEntry)
          → scan_dir 16 0 ctx'.walker.component_83 s ≡ match found
          → found.dir_name ≡ ctx.walker.component_83)
unfolding open_match open_post_io
open_match_last_component v ctx e path comp rest last =
    let w : PathWalker = record (ctx.walker) { rest = none; component = comp } in
    (
      record ctx {
        state = parse_dir_sector;
        walker = w;
        current_cluster = entry_cluster e;
        current_lba = v.cluster_to_lba (entry_cluster e);
        parent = store_parent ctx.parent (entry_cluster e);
        sector_in_cluster = 0;
      },
      simp (rest, open_component, advance_last ctx.walker path comp last),
      refl,
      refl,
      λ s found h.
          let m = scan_dir-match 16 0 ctx.walker.component_83 s found h in
          dir_name_of_take ctx.walker.component_83 found m.4,
    )
