-- ===== src/Fs/Seek/Walk.antt =====
-- Seeking along the chain of clusters.
use riscy_os.Base.{
  ℕ, zero, suc, ◌+◌, ◌*◌, ◌/◌, ◌≤◌, ◌<◌, ◌≡◌, refl, ap, true, false, ◌||◌, some, arith, leb, ◌==◌,
  u32_mod, sub32,
}
use riscy_os.Fs.{FileHandle, Sector, Volume, end_of_chain}
use riscy_os.Fs.Seek.{
  SeekPosition, SeekCtx, completed, posted, seek_step, seek_finish, seek_post_io, place, seek_run,
}

-- The cluster `k` links behind `c`, where `next` follows a link.
unfoldable pub nth : (ℕ → ℕ) → ℕ → ℕ → ℕ
nth next zero c = c
nth next (suc k) c = nth next k (next c)

-- The `k` links behind `c` lead to clusters: none is zero or ends the chain.
abbrev pub IsChain : (ℕ → ℕ) → ℕ → ℕ → Type 0
IsChain next zero c = Unit
IsChain next (suc k) c =
    ((leb end_of_chain (next c) || next c == 0) ≡ false) × IsChain next k (next c)

pub nth-add : (next : ℕ → ℕ) (j k c : ℕ) → nth next k (nth next j c) ≡ nth next (j + k) c
unfolding nth
nth-add next zero k c = let e : k ≡ 0 + k = omega arith in ap (λ (t : ℕ). nth next t c) e
nth-add next (suc j) k c =
    let e : suc j + k ≡ suc (j + k) = omega arith in rw e (nth-add next j k (next c))

pub IsChain-nth :
    (next : ℕ → ℕ) (j k n c : ℕ) → j + k ≡ n → IsChain next n c → IsChain next k (nth next j c)
unfolding nth
IsChain-nth next zero k n c e h = let e' : n ≡ k = omega arith in rw e' at h
IsChain-nth next (suc j) k zero c e h = absurd (omega arith)
IsChain-nth next (suc j) k (suc n) c e h = IsChain-nth next j k n (next c) (omega arith) h.1

pub IsChain-le : (next : ℕ → ℕ) (k n c : ℕ) → k ≤ n → IsChain next n c → IsChain next k c
IsChain-le next zero n c h chain = tt
IsChain-le next (suc k) zero c h chain = absurd (omega arith)
IsChain-le next (suc k) (suc n) c h chain =
    (chain.0, IsChain-le next k n (next c) (omega arith) chain.1)

-- The disk serves the links: the sector read for a cluster holds its link.
abbrev pub Serves : Volume → (ℕ → Sector) → (ℕ → ℕ) → Type 0
Serves v disk next = (c : ℕ) → v.get_next_cluster (disk (v.fat_calculate_lba c)) c ≡ next c

-- The current cluster is the one that the file's offset lies in.
abbrev pub InSync : Volume → (ℕ → ℕ) → FileHandle → Type 0
InSync v next f =
    f.current_cluster
    ≡ nth next (f.file_offset / (512 * v.info.sectors_per_cluster)) f.first_cluster

-- The file once a seek has put it at cluster `c` and the rest of position `t`.
abbrev pub landed : FileHandle → SeekPosition → (target_offset cluster : ℕ) → FileHandle
landed f t o c = record f {
  current_cluster = c;
  current_sector = t.sector_in_cluster;
  current_byte = t.byte_in_sector;
  file_offset = o;
}

module _ (v : Volume) (disk : ℕ → Sector) (next : ℕ → ℕ) (serves : Serves v disk next) where
  module _ (ctx : SeekCtx)
      (link : (leb end_of_chain (next ctx.current_cluster) || next ctx.current_cluster == 0)
        ≡ false) where
    step_last :
        ctx.clusters_remaining ≡ 1
        → seek_step v ctx 0 (disk (v.fat_calculate_lba ctx.current_cluster))
          ≡ completed 0 (landed ctx.file ctx.target ctx.target_offset (next ctx.current_cluster))
    unfolding seek_step place seek_finish
    step_last r =
        let last : (sub32 ctx.clusters_remaining 1 == 0) ≡ true = ground arith in
        rw (serves ctx.current_cluster, link, last)

    step_more :
        (k : ℕ)
        → ctx.clusters_remaining ≡ suc (suc k)
        → ctx.clusters_remaining < u32_mod
        → seek_step v ctx 0 (disk (v.fat_calculate_lba ctx.current_cluster))
          ≡ posted (v.fat_calculate_lba (next ctx.current_cluster)) (record ctx {
            current_cluster = next ctx.current_cluster;
            clusters_remaining = suc k;
          })
    unfolding seek_step seek_post_io
    step_more k r s =
        let more : (sub32 ctx.clusters_remaining 1 == 0) ≡ false = ground arith in
        let left : sub32 ctx.clusters_remaining 1 ≡ suc k = omega arith in
        rw (serves ctx.current_cluster, link, more, left)

  pub walk_lem :
      (k fuel : ℕ) (ctx : SeekCtx)
      → ctx.clusters_remaining ≡ suc k
      → suc k < u32_mod
      → k < fuel
      → IsChain next (suc k) ctx.current_cluster
      → seek_run v disk fuel (posted (v.fat_calculate_lba ctx.current_cluster) ctx)
        ≡ some
            (0, landed ctx.file ctx.target ctx.target_offset (nth next (suc k) ctx.current_cluster))
  unfolding seek_run nth
  walk_lem k zero ctx r s h chain = absurd (omega arith)
  walk_lem zero (suc fuel) ctx r s h chain = rw (step_last ctx chain.0 r, seek_run)
  walk_lem (suc k) (suc fuel) ctx r s h chain =
      rw (step_more ctx chain.0 k r (omega arith), seek_run)
        (walk_lem k fuel
          (record ctx { current_cluster = next ctx.current_cluster; clusters_remaining = suc k })
          refl (omega arith) (omega arith) chain.1)
