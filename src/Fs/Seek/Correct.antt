-- ===== src/Fs/Seek/Correct.antt =====
-- Where a seek lands, which errors it reports, and the case in which it loses the cluster.
use riscy_os.Base.{
  ℕ, zero, suc, ◌+◌, ◌-◌, ◌*◌, ◌/◌, ◌≤◌, ◌<◌, ◌≡◌, refl, sym, ap, ◌∙◌, ◌≢◌, ◌⊎◌, inl, inr, true,
  false, some, arith, ltb, leb, ◌==◌, if◌then◌else◌, Bool-cases, u32_mod, sub32,
}
use mathlib.Core.Path.{subst}
use riscy_os.Fs.{FileHandle, Sector, Volume, minus_one}
use riscy_os.Fs.Seek.{
  SeekResult, completed, walk_fat, seek_decompose, seek_submit, seek_post_io, place, seek_run,
}
use riscy_os.Fs.Seek.Walk.{nth, nth-add, IsChain, IsChain-nth, Serves, InSync, landed, walk_lem}

module _ (v : Volume) (disk : ℕ → Sector) (next : ℕ → ℕ) (serves : Serves v disk next) where
  abbrev index : ℕ → ℕ
  index o = o / (512 * v.info.sectors_per_cluster)

  -- What `seek_submit` does once it knows where to start and how many links to follow.
  go_on : FileHandle → (t start skip : ℕ) → SeekResult
  go_on f t start skip =
      if skip == 0
      then completed 0 (place v f (seek_decompose v.info.sectors_per_cluster t) t)
      else seek_post_io v
          (record {
            state = walk_fat;
            file = f;
            current_cluster = start;
            clusters_remaining = skip;
            target = seek_decompose v.info.sectors_per_cluster t;
            target_offset = t;
          })
          (v.fat_calculate_lba start)

  go_on-walk :
      (f : FileHandle) (t start skip fuel : ℕ)
      → 0 < skip
      → skip < u32_mod
      → skip ≤ fuel
      → IsChain next skip start
      → seek_run v disk fuel (go_on f t start skip)
        ≡ some (0, landed f (seek_decompose v.info.sectors_per_cluster t) t (nth next skip start))
  unfolding go_on seek_post_io
  go_on-walk f t start zero fuel p s h chain = absurd (omega arith)
  go_on-walk f t start (suc k) fuel p s h chain =
      let nz : (suc k == 0) ≡ false = ground arith in
      rw nz (
        walk_lem v disk next serves k fuel
          (record {
            state = walk_fat;
            file = f;
            current_cluster = start;
            clusters_remaining = suc k;
            target = seek_decompose v.info.sectors_per_cluster t;
            target_offset = t;
          })
          refl s h chain)

  go_on-from :
      (f : FileHandle) (t start base n fuel : ℕ)
      → start ≡ nth next base f.first_cluster
      → base ≤ n
      → n < u32_mod
      → n ≤ fuel
      → IsChain next n f.first_cluster
      → (base ≡ n → start ≡ f.current_cluster)
      → seek_run v disk fuel (go_on f t start (n - base))
        ≡ some (
          0,
          landed f (seek_decompose v.info.sectors_per_cluster t) t (nth next n f.first_cluster),
        )
  go_on-from f t start base n fuel e le s h chain here = elim (Bool-cases (base == n)) [
    | inl at ↦
        let same : base ≡ n = ground arith in
        let none_left : n - base ≡ 0 = omega arith in
        let there : nth next n f.first_cluster ≡ f.current_cluster =
          ap (λ (k : ℕ). nth next k f.first_cluster) (sym same) ∙ sym e ∙ here same in
        unfold go_on seek_run place in rw (none_left, there)
    | inr before ↦
        let left : base + (n - base) ≡ n = ground arith in
        let chain' : IsChain next (n - base) start =
          rw e (IsChain-nth next base (n - base) n f.first_cluster left chain) in
        let end : nth next (n - base) start ≡ nth next n f.first_cluster =
          ap (λ (c : ℕ). nth next (n - base) c) e
          ∙ nth-add next base (n - base) f.first_cluster
          ∙ ap (λ (k : ℕ). nth next k f.first_cluster) left in
        rw (← end)
          (go_on-walk f t start (n - base) fuel (ground arith) (omega arith) (omega arith) chain')
  ]

  forward_lem :
      (f : FileHandle) (t : ℕ)
      → t ≤ f.file_size
      → t < u32_mod
      → index f.file_offset ≤ index t
      → seek_submit v f t ≡ go_on f t f.current_cluster (index t - index f.file_offset)
  unfolding seek_submit seek_decompose go_on
  forward_lem f t h b le =
      let small : index t ≤ t = omega arith in
      let inside : ltb f.file_size t ≡ false = ground arith in
      let forward : leb (index f.file_offset) (index t) ≡ true = ground arith in
      let skip : sub32 (index t) (index f.file_offset) ≡ index t - index f.file_offset =
        omega arith in
      rw (inside, forward, skip)

  backward_lem :
      (f : FileHandle) (t : ℕ)
      → t ≤ f.file_size
      → t < u32_mod
      → index t < index f.file_offset
      → seek_submit v f t ≡ go_on f t f.first_cluster (index t)
  unfolding seek_submit seek_decompose go_on
  backward_lem f t h b lt =
      let small : index t ≤ t = omega arith in
      let inside : ltb f.file_size t ≡ false = ground arith in
      let forward : leb (index f.file_offset) (index t) ≡ false = ground arith in
      let skip : sub32 (index t) 0 ≡ index t = omega arith in rw (inside, forward, skip)

  -- A seek inside the file lands: for a file in sync with the chain, an offset not beyond the size
  -- and below 2 ^ 32,
  -- a chain that is long enough and fuel for its links, `seek_submit` and its FAT reads end with
  -- status 0 and the file at the target's cluster, sector and byte, in sync again. The condition is
  -- that the seek does not go back into the file's first cluster from a later one.
  pub seek_submit_lands :
      (f : FileHandle) (t fuel : ℕ)
      → t ≤ f.file_size
      → t < u32_mod
      → InSync v next f
      → IsChain next (index t) f.first_cluster
      → index t ≤ fuel
      → (index f.file_offset ≤ index t) ⊎ (0 < index t)
      → seek_run v disk fuel (seek_submit v f t)
        ≡ some (
          0,
          landed f
              (seek_decompose v.info.sectors_per_cluster t)
              t
              (nth next (index t) f.first_cluster),
        )
  seek_submit_lands f t fuel h b sync chain enough way =
      elim (Bool-cases (leb (index f.file_offset) (index t))) [
        | inl fwd ↦
            let le : index f.file_offset ≤ index t = ground arith in
            rw (forward_lem f t h b le) (
              go_on-from f t f.current_cluster (index f.file_offset) (index t) fuel sync le
                (omega arith) enough chain (λ e. refl))
        | inr bwd ↦
            let lt : index t < index f.file_offset = ground arith in
            let pos : 0 < index t = omega arith in
            let whole : index t ≡ index t - 0 = omega arith in
            rw (backward_lem f t h b lt) (
              subst
                (λ k.
                  seek_run v disk fuel (go_on f t f.first_cluster k)
                  ≡ some (
                    0,
                    landed f (seek_decompose v.info.sectors_per_cluster t) t
                        (nth next (index t) f.first_cluster),
                  ))
                (sym whole)
                (go_on-from f t f.first_cluster 0 (index t) fuel (unfold nth in refl) (omega arith)
                  (omega arith) enough chain (λ e. absurd (omega arith))))
      ]

  -- The result of `seek_submit_lands` is in sync.
  pub landed-InSync :
      (f : FileHandle) (t : ℕ)
      → InSync v next (
          landed f
            (seek_decompose v.info.sectors_per_cluster t)
            t
            (nth next (index t) f.first_cluster))
  landed-InSync f t = refl

  -- A seek beyond the size fails and leaves the file as it was, with no read at all.
  pub seek_submit_beyond :
      (f : FileHandle) (t : ℕ) → f.file_size < t → seek_submit v f t ≡ completed minus_one f
  unfolding seek_submit
  seek_submit_beyond f t h = let out : ltb f.file_size t ≡ true = ground arith in rw out

  -- A seek from a later cluster back into the first one, not beyond the size and below 2 ^ 32, reports success and sets the offset, but
  -- leaves the current cluster as it was: the file is in sync afterwards only if that later cluster
  -- is the first one.
  pub seek_submit_first_cluster :
      (f : FileHandle) (t fuel : ℕ)
      → t ≤ f.file_size
      → t < u32_mod
      → index t ≡ 0
      → 0 < index f.file_offset
      → f.current_cluster ≢ f.first_cluster
      → (g : FileHandle) × (seek_run v disk fuel (seek_submit v f t) ≡ some (0, g))
        × (g.file_offset ≡ t)
        × (g.current_cluster ≡ f.current_cluster)
        × ¬ InSync v next g
  unfolding go_on seek_run place nth
  seek_submit_first_cluster f t fuel h b z late ne = (
    place v f (seek_decompose v.info.sectors_per_cluster t) t,
    rw (backward_lem f t h b (omega arith), z, go_on),
    refl,
    refl,
    λ sync. ne (rw (z, nth) at sync),
  )
