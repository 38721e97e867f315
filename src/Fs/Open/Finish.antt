-- ===== src/Fs/Open/Finish.antt =====
-- How the open machine ends.
use riscy_os.Base.{
  ℕ, suc, ◌≡◌, ◌≢◌, Bool, true, false, not, ◌&&◌, List, [], ◌∷◌, arith, ◌==◌, if◌then◌else◌,
}
use riscy_os.Fs.Open.{
  OpenState, done, OpenCtx, Action, free_ctx, set_a0_file, set_a0_null, unblock, call_back,
  OpenResult, posted, finished, ignored, open_finish, finish_actions,
}

-- How often the context is freed.
unfoldable pub frees : List Action → ℕ
frees [] = 0
frees (free_ctx ∷ rest) = suc (frees rest)
frees (set_a0_file ∷ rest) = frees rest
frees (set_a0_null ∷ rest) = frees rest
frees (unblock p ∷ rest) = frees rest
frees (call_back s ∷ rest) = frees rest

unfoldable pub actions_of : OpenResult → List Action
actions_of (finished ctx all) = all
actions_of (posted lba ctx) = []
actions_of ignored = []

-- `fs_open_finish` frees its context once, but twice where it has no process to wake and a callback
-- to call, as for the loader of programs.
pub frees-open_finish :
    (ctx : OpenCtx)
    → frees (actions_of (open_finish ctx))
      ≡ (if (ctx.proc_id == 0) && ctx.has_callback then 2 else 1)
unfolding frees actions_of open_finish finish_actions
frees-open_finish ctx = ground arith

unfoldable pub gives_file : List Action → Bool
gives_file [] = false
gives_file (set_a0_file ∷ rest) = true
gives_file (free_ctx ∷ rest) = gives_file rest
gives_file (set_a0_null ∷ rest) = gives_file rest
gives_file (unblock p ∷ rest) = gives_file rest
gives_file (call_back s ∷ rest) = gives_file rest

unfoldable pub is_done : OpenState → Bool
is_done done = true
is_done _ = false

-- For a waiting process `fs_open_finish` puts the FILE pointer in its register a0 exactly when the
-- open did not succeed.
pub gives_file-open_finish :
    (ctx : OpenCtx)
    → ctx.proc_id ≢ 0
    → gives_file (actions_of (open_finish ctx)) ≡ not (is_done ctx.state)
unfolding gives_file actions_of open_finish finish_actions is_done
gives_file-open_finish ctx h = ground arith
