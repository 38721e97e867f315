-- ===== src/Fs/Read/Deliver.antt =====
-- What a read delivers.
use riscy_os.Base.{
  ℕ, zero, suc, ◌+◌, ◌-◌, ◌*◌, ◌/◌, ◌≤◌, ◌<◌, ◌≡◌, refl, ap, ◌∙◌, inl, inr, false, Option, some,
  arith, leb, ◌==◌, Bool-cases, Mem, u32_mod,
}
use riscy_os.Fs.{FileHandle, Sector, Volume}
use riscy_os.Fs.Seek.{seek_whence}
use riscy_os.Fs.Seek.Walk.{IsChain, Serves}
use riscy_os.Fs.Read.{
  ReadCtx, completed, posted, load_contents, copy_contents, copy_from, file_lba, read_submit,
  read_post_io, read_finish, read_resume, from_seek, bytes_to_copy, read_copy, read_step, read_run,
}
use riscy_os.Fs.Read.Content.{cluster_bytes, content, Positioned}
use riscy_os.Fs.Read.Sectors.{
  Delivered, read_run-seek, copy-content, next_sector, seek-next_sector, next_sector-Positioned,
  next_sector_byte, mod_512,
}

module _ (v : Volume) (disk : ℕ → Sector) (next : ℕ → ℕ) (serves : Serves v disk next)
    (spc : 0 < v.info.sectors_per_cluster) (uchar : v.info.sectors_per_cluster < 256) where
  abbrev copying : FileHandle → (buf n : ℕ) → ReadCtx
  copying f buf n = record { file = f; buffer = buf; state = copy_contents; bytes_remaining = n }

  -- What a run delivers, in status, file and memory.
  abbrev Runs : FileHandle → (buf n : ℕ) → Mem → Option (ℕ × FileHandle × Mem) → Type 0
  Runs f buf n mem r =
      (f' : FileHandle) × (mem' : Mem) × (r ≡ some (0, f', mem'))
      × Delivered v disk next f.first_cluster f.file_offset buf n mem mem'

  copy_all :
      (f : FileHandle) (buf n : ℕ) (s : Sector) (mem : Mem)
      → f.current_byte + n ≤ 512
      → read_copy v (copying f buf n) s mem
        ≡ completed 0
            (record f { current_byte = f.current_byte + n })
            (copy_from n 0 buf f.current_byte s mem)
  unfolding read_copy read_finish
  copy_all f buf n s mem room =
      let all : bytes_to_copy v (copying f buf n) ≡ n = unfold bytes_to_copy in ground arith in
      let left : n - n ≡ 0 = omega arith in rw (all, left)

  -- The machine once the rest of a sector is copied.
  abbrev rest_of : FileHandle → (buf n : ℕ) → ReadCtx
  rest_of f buf n = record {
    file = f;
    buffer = buf + (512 - f.current_byte);
    state = load_contents;
    bytes_remaining = n - (512 - f.current_byte);
  }

  copy_some :
      (f : FileHandle) (buf n : ℕ) (s : Sector) (mem : Mem)
      → f.current_byte < 512
      → 512 < f.current_byte + n
      → f.current_byte + n < u32_mod
      → read_copy v (copying f buf n) s mem
        ≡ from_seek v
            (seek_whence v f (512 - f.current_byte) 1)
            (rest_of f buf n)
            (copy_from (512 - f.current_byte) 0 buf f.current_byte s mem)
  unfolding read_copy
  copy_some f buf n s mem low over small =
      let part : bytes_to_copy v (copying f buf n) ≡ 512 - f.current_byte =
        unfold bytes_to_copy in ground arith in
      let left : (n - (512 - f.current_byte) == 0) ≡ false = ground arith in rw (part, left)

  -- The last sector of a read.
  last_sector :
      (f : FileHandle) (buf n fuel : ℕ) (mem : Mem)
      → Positioned v next f
      → f.current_byte + n ≤ 512
      → read_run v disk (suc fuel) (posted (file_lba v f) (copying f buf n) mem)
        ≡ some (
          0,
          record f { current_byte = f.current_byte + n },
          copy_from n 0 buf f.current_byte (disk (file_lba v f)) mem,
        )
  unfolding read_run read_step
  last_sector f buf n fuel mem pos room =
      rw (copy_all f buf n (disk (file_lba v f)) mem room, read_run)

  -- Any other sector: its rest is copied, and the machine reads on at the next one.
  full_sector :
      (f : FileHandle) (buf n fuel' : ℕ) (mem : Mem)
      → Positioned v next f
      → 512 < f.current_byte + n
      → f.file_offset + n ≤ f.file_size
      → f.file_size < u32_mod
      → IsChain next (f.file_size / cluster_bytes v) f.first_cluster
      → (j : ℕ) × (fuel' ≤ j)
        × (read_run v disk
              (suc (f.file_size / cluster_bytes v + fuel'))
              (posted (file_lba v f) (copying f buf n) mem)
            ≡ read_run v disk j (
                posted
                  (file_lba v (next_sector v disk next serves spc uchar f))
                  (copying
                    (next_sector v disk next serves spc uchar f)
                    (buf + (512 - f.current_byte))
                    (n - (512 - f.current_byte)))
                  (copy_from
                    (512 - f.current_byte)
                    0
                    buf
                    f.current_byte
                    (disk (file_lba v f))
                    mem)))
  unfolding read_run read_step read_resume read_post_io
  full_sector f buf n fuel' mem pos over inside small chain =
      let c = 512 - f.current_byte in
      let low : f.current_byte < 512 = omega (arith, pos.byte) in
      let k = f.file_size / cluster_bytes v in
      let mem' = copy_from c 0 buf f.current_byte (disk (file_lba v f)) mem in
      let r =
        read_run-seek v disk k fuel' (seek_whence v f c 1) (rest_of f buf n) mem' 0
          (next_sector v disk next serves spc uchar f)
          (seek-next_sector v disk next serves spc uchar f k pos (omega arith) small chain
            (omega arith)) in
      (
        r.0,
        r.1,
        rw
            (
              copy_some f buf n (disk (file_lba v f)) mem low over
                  (omega (arith, pos.byte, mod_512 v disk next serves spc uchar f.file_offset)),
              read_run,
            )
            r.2,
      )

  -- Two deliveries one after the other are one.
  join :
      (f : FileHandle) (buf n c : ℕ) (mem mem' mem'' : Mem)
      → c ≤ n
      → 0 < c
      → Delivered v disk next f.first_cluster f.file_offset buf c mem mem'
      → Delivered v disk next f.first_cluster (f.file_offset + c) (buf + c) (n - c) mem' mem''
      → Delivered v disk next f.first_cluster f.file_offset buf n mem mem''
  join f buf n c mem mem' mem'' h p d d' x = elim (Bool-cases (leb (buf + c) x)) [
    | inl later ↦
        let e : f.file_offset + c + (x - (buf + c)) ≡ f.file_offset + (x - buf) = ground arith in
        ground (arith, d x, d' x, ap (λ (o : ℕ). content v disk next f.first_cluster o) e)
    | inr earlier ↦ ground (arith, d x, d' x)
  ]

  deliver_lem :
      (r fuel : ℕ) (f : FileHandle) (buf n : ℕ) (mem : Mem)
      → Positioned v next f
      → f.current_byte + n ≤ 512 * suc r
      → f.file_offset + n ≤ f.file_size
      → f.file_size < u32_mod
      → IsChain next (f.file_size / cluster_bytes v) f.first_cluster
      → suc r * suc (f.file_size / cluster_bytes v) ≤ fuel
      → Runs f buf n mem (read_run v disk fuel (posted (file_lba v f) (copying f buf n) mem))
  unfolding next_sector
  deliver_lem r zero f buf n mem pos rounds inside small chain enough = absurd (omega arith)
  deliver_lem zero (suc fuel) f buf n mem pos rounds inside small chain enough = (
    record f { current_byte = f.current_byte + n },
    copy_from n 0 buf f.current_byte (disk (file_lba v f)) mem,
    last_sector f buf n fuel mem pos (omega arith),
    copy-content v disk next serves spc uchar f n buf mem pos (omega arith),
  )
  deliver_lem (suc r) (suc fuel) f buf n mem pos rounds inside small chain enough =
      elim (Bool-cases (leb (f.current_byte + n) 512)) [
        | inl last ↦ (
          record f { current_byte = f.current_byte + n },
          copy_from n 0 buf f.current_byte (disk (file_lba v f)) mem,
          last_sector f buf n fuel mem pos (ground arith),
          copy-content v disk next serves spc uchar f n buf mem pos (ground arith),
        )
        | inr more ↦
            let c = 512 - f.current_byte in
            let low : f.current_byte < 512 = omega (arith, pos.byte) in
            let over : 512 < f.current_byte + n = ground arith in
            let k = f.file_size / cluster_bytes v in
            let e : fuel ≡ k + (fuel - k) = omega arith in
            let s = full_sector f buf n (fuel - k) mem pos over inside small chain in
            let mem' = copy_from c 0 buf f.current_byte (disk (file_lba v f)) mem in
            let ih =
              deliver_lem r s.0 (next_sector v disk next serves spc uchar f) (buf + c) (n - c) mem'
                (next_sector-Positioned v disk next serves spc uchar f pos)
                (omega (arith, next_sector_byte v disk next serves spc uchar f pos)) (omega arith)
                small chain (omega (arith, s.1)) in
            (
              ih.0,
              ih.1,
              ap (λ (t : ℕ). read_run v disk (suc t) (posted (file_lba v f) (copying f buf n) mem))
                    e
                  ∙ (s.2 ∙ ih.2),
              join f buf n c mem mem' ih.1 (omega arith) (omega arith)
                  (copy-content v disk next serves spc uchar f c buf mem pos (omega arith)) ih.3,
            )
      ]

  -- A read delivers, on a volume of 1 to 255 sectors in a cluster: for a file below 2 ^ 32 bytes whose position fields are those of its offset, `n` bytes that do not
  -- reach beyond the file, a chain that covers the file and fuel for one visit of each sector with a
  -- walk along the chain, `fs_read_submit` and its reads call back with status 0, the buffer holds
  -- the `n` bytes of the file from its offset on, and no other byte of memory is changed.
  pub read_submit_delivers :
      (f : FileHandle) (buf n fuel : ℕ) (mem : Mem)
      → Positioned v next f
      → f.file_offset + n ≤ f.file_size
      → f.file_size < u32_mod
      → IsChain next (f.file_size / cluster_bytes v) f.first_cluster
      → (n / 512 + 2) * suc (f.file_size / cluster_bytes v) ≤ fuel
      → (f' : FileHandle) × (mem' : Mem) × (read_run v disk fuel (read_submit v f buf n mem)
          ≡ some (0, f', mem'))
        × Delivered v disk next f.first_cluster f.file_offset buf n mem mem'
  unfolding read_submit read_post_io
  read_submit_delivers f buf n fuel mem pos inside small chain enough =
      deliver_lem (n / 512 + 1) fuel f buf n mem pos (omega (arith, pos.byte)) inside small chain
        (omega arith)

  -- On the same volumes a read of at least one byte that stays in its sector ends with status 0, but leaves the file's
  -- offset as it was while the byte position moves on: the file's position fields are then no
  -- longer those of its offset.
  pub read_submit_offset :
      (f : FileHandle) (buf n fuel : ℕ) (mem : Mem)
      → Positioned v next f
      → 0 < n
      → f.current_byte + n ≤ 512
      → (f' : FileHandle) × (mem' : Mem) × (read_run v disk (suc fuel) (read_submit v f buf n mem)
          ≡ some (0, f', mem'))
        × (f'.file_offset ≡ f.file_offset)
        × (f'.current_byte ≡ f.current_byte + n)
        × ¬ Positioned v next f'
  unfolding read_submit read_post_io
  read_submit_offset f buf n fuel mem pos some_bytes room = (
    record f { current_byte = f.current_byte + n },
    copy_from n 0 buf f.current_byte (disk (file_lba v f)) mem,
    last_sector f buf n fuel mem pos room,
    refl,
    refl,
    λ after. omega (arith, after.byte, pos.byte),
  )
