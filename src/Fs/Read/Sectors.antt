-- ===== src/Fs/Read/Sectors.antt =====
-- One sector of a read: what is copied from it, and the seek to the next.
use riscy_os.Base.{
  ℕ, zero, suc, ◌+◌, ◌-◌, ◌/◌, ◌%◌, ◌≤◌, ◌<◌, ◌≡◌, refl, ◌∙◌, inl, inr, ◌&&◌, some, arith, ltb, leb,
  if◌then◌else◌, Bool-cases, some_pair, Mem, u32_mod, add32,
}
use native.Mathlib.Nat.{mod-lt, div-add-mod}
use riscy_os.Fs.{FileHandle, Sector, Volume}
use riscy_os.Fs.Seek
use riscy_os.Fs.Seek.{
  SeekCtx, SeekResult, seek_whence, seek_step, seek_submit, seek_run, seek_decompose,
}
use riscy_os.Fs.Seek.Walk.{nth, IsChain, Serves, landed, IsChain-le}
use riscy_os.Fs.Seek.Correct.{seek_submit_lands}
use riscy_os.Fs.Read.{ReadCtx, copy_from, file_lba, read_resume, from_seek, read_run}
use riscy_os.Fs.Read.Copy.{copy_from_lem}
use riscy_os.Fs.Read.Content.{cluster_bytes, content, Positioned, content-same_sector, div_mono}

module _ (v : Volume) (disk : ℕ → Sector) where
  -- While the machine waits for a seek it runs as the seek does, and then goes on.
  pub read_run-seek :
      (k fuel : ℕ) (r : SeekResult) (ctx : ReadCtx) (mem : Mem) (status : ℕ) (f : FileHandle)
      → seek_run v disk k r ≡ some (status, f)
      → (j : ℕ) × (fuel ≤ j)
        × (read_run v disk (k + fuel) (from_seek v r ctx mem)
            ≡ read_run v disk j (read_resume v (record ctx { file = f }) status mem))
  unfolding seek_run read_run from_seek
  read_run-seek k fuel (Seek.completed s g) ctx mem status f e =
      let same = some_pair e in (k + fuel, omega arith, rw (same.0, same.1))
  read_run-seek zero fuel (Seek.posted lba seek) ctx mem status f e = absurd (cc)
  read_run-seek (suc k) fuel (Seek.posted lba seek) ctx mem status f e =
      let r = read_run-seek k fuel (seek_step v seek 0 (disk lba)) ctx mem status f e in
      let n : suc k + fuel ≡ suc (k + fuel) = omega arith in (r.0, r.1, rw n r.2)

-- What a finished read leaves: the bytes of the file from offset `o` on in the `n` bytes of memory
-- from `buf` on, and all else of memory as it was.
abbrev pub Delivered : Volume → (ℕ → Sector) → (ℕ → ℕ) → (first o buf n : ℕ) → Mem → Mem → Type 0
Delivered v disk next first o buf n mem mem' =
    (x : ℕ)
    → mem' x
      ≡ (if leb buf x && ltb x (buf + n) then content v disk next first (o + (x - buf)) else mem x)

module _ (v : Volume) (disk : ℕ → Sector) (next : ℕ → ℕ) (serves : Serves v disk next)
    (spc : 0 < v.info.sectors_per_cluster) (uchar : v.info.sectors_per_cluster < 256) where
  pub copy-content :
      (f : FileHandle) (n buf : ℕ) (mem : Mem)
      → Positioned v next f
      → f.current_byte + n ≤ 512
      → Delivered v disk next f.first_cluster f.file_offset buf n mem
          (copy_from n 0 buf f.current_byte (disk (file_lba v f)) mem)
  unfolding file_lba
  copy-content f n buf mem pos room x = elim (Bool-cases (leb buf x && ltb x (buf + n))) [
    | inl here ↦
        let at : content v disk next f.first_cluster (f.file_offset + (x - buf))
            ≡ disk (file_lba v f) (f.current_byte + (x - buf)) =
          content-same_sector v disk next f.first_cluster f.file_offset (x - buf) spc
            (ground (arith, pos.byte))
          ∙ rw (pos.cluster, pos.sector, pos.byte) in
        ground (arith, at, copy_from_lem n 0 buf f.current_byte x (disk (file_lba v f)) mem)
    | inr out ↦ ground (arith, copy_from_lem n 0 buf f.current_byte x (disk (file_lba v f)) mem)
  ]

  -- A seek of the machine to the start of the next sector.
  unfoldable pub next_sector : FileHandle → FileHandle
  next_sector f =
      let t = f.file_offset + (512 - f.current_byte) in
      landed f (seek_decompose v.info.sectors_per_cluster t) t
        (nth next (t / cluster_bytes v) f.first_cluster)

  pub seek-next_sector :
      (f : FileHandle) (fuel : ℕ)
      → Positioned v next f
      → f.file_offset + (512 - f.current_byte) ≤ f.file_size
      → f.file_size < u32_mod
      → IsChain next (f.file_size / cluster_bytes v) f.first_cluster
      → f.file_size / cluster_bytes v ≤ fuel
      → seek_run v disk fuel (seek_whence v f (512 - f.current_byte) 1) ≡ some (0, next_sector f)
  unfolding seek_whence next_sector
  seek-next_sector f fuel pos inside small chain enough =
      let t = f.file_offset + (512 - f.current_byte) in
      let sum : add32 f.file_offset (512 - f.current_byte) ≡ t = omega arith in
      let far : t / cluster_bytes v ≤ f.file_size / cluster_bytes v =
        div_mono t f.file_size (cluster_bytes v) (omega arith) inside in
      let near : f.file_offset / cluster_bytes v ≤ t / cluster_bytes v =
        div_mono f.file_offset t (cluster_bytes v) (omega arith) (omega arith) in
      rw sum (
        seek_submit_lands v disk next serves f t fuel inside (omega arith) pos.cluster
          (IsChain-le next _ _ f.first_cluster far chain) (omega (arith, far)) (inl near))

  pub next_sector-Positioned :
      (f : FileHandle) → Positioned v next f → Positioned v next (next_sector f)
  unfolding next_sector seek_decompose
  next_sector-Positioned f pos = record { cluster = refl; sector = sector; byte = omega arith }
    where
      t : ℕ
      t = f.file_offset + (512 - f.current_byte)

      sector : t % cluster_bytes v / 512 % 256 ≡ t % cluster_bytes v / 512
      sector = omega (arith, mod-lt t {m = cluster_bytes v} (omega arith))

  pub mod_512 : (o : ℕ) → o % cluster_bytes v % 512 ≡ o % 512
  mod_512 o = omega (arith, div-add-mod o (cluster_bytes v))

  pub next_sector_byte : (f : FileHandle) → Positioned v next f → (next_sector f).current_byte ≡ 0
  unfolding next_sector seek_decompose
  next_sector_byte f pos =
      omega
        (arith, pos.byte, mod_512 f.file_offset, mod_512 (f.file_offset + (512 - f.current_byte)))
