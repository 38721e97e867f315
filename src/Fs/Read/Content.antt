-- ===== src/Fs/Read/Content.antt =====
-- The bytes of a file, by the chain of its clusters.
use riscy_os.Base.{ℕ, ◌+◌, ◌*◌, ◌/◌, ◌%◌, ◌≤◌, ◌<◌, ◌≡◌, arith, add32}
use native.Mathlib.Nat.{
  mod-lt, div-add-mod, mod_def, mul_comm, le-div_iff_mul-le, div-lt_iff_lt-mul, div-mul-le_self,
}
use riscy_os.Fs.{FileHandle, Sector, Volume}
use riscy_os.Fs.Seek.Walk.{nth, InSync}

abbrev pub cluster_bytes : Volume → ℕ
cluster_bytes v = 512 * v.info.sectors_per_cluster

-- The byte at offset `o` of the file whose first cluster is `first`.
unfoldable pub content : Volume → (ℕ → Sector) → (ℕ → ℕ) → (first o : ℕ) → ℕ
content v disk next first o =
    disk
      (add32 (v.cluster_to_lba (nth next (o / cluster_bytes v) first)) (o % cluster_bytes v / 512))
      (o % cluster_bytes v % 512)

-- The position fields of the file are those of its offset.
pub record Positioned (v : Volume) (next : ℕ → ℕ) (f : FileHandle) : Type 0 where
  pub cluster : InSync v next f
  pub sector : f.current_sector ≡ f.file_offset % cluster_bytes v / 512
  pub byte : f.current_byte ≡ f.file_offset % cluster_bytes v % 512

div-mod_unique : (o b q r : ℕ) → r < b → o ≡ b * q + r → (o / b ≡ q) × (o % b ≡ r)
div-mod_unique o b q r h e = (quotient, rw (mod_def o b, quotient) (omega (arith, e)))
  where
    pos : 0 < b
    pos = omega arith

    product : b * q ≡ q * b
    product = mul_comm b q

    next_product : (q + 1) * b ≡ q * b + b
    next_product = omega arith

    low : q ≤ o / b
    low = (le-div_iff_mul-le pos).1 (omega (arith, product, e))

    high : o / b < q + 1
    high = (div-lt_iff_lt-mul pos).1 (omega (arith, product, next_product, e))

    quotient : o / b ≡ q
    quotient = omega (arith, low, high)

pub div_mono : (o t b : ℕ) → 0 < b → o ≤ t → o / b ≤ t / b
div_mono o t b pos h = (le-div_iff_mul-le pos).1 (omega (arith, div-mul-le_self o b, h))

-- Bytes of one sector follow one another.
module _ (v : Volume) (disk : ℕ → Sector) (next : ℕ → ℕ) (first o d : ℕ)
    (spc : 0 < v.info.sectors_per_cluster) (same : o % cluster_bytes v % 512 + d < 512) where
  parts :
      ((o + d) / cluster_bytes v ≡ o / cluster_bytes v)
      × ((o + d) % cluster_bytes v ≡ o % cluster_bytes v + d)
  parts =
      div-mod_unique (o + d) (cluster_bytes v) (o / cluster_bytes v) (o % cluster_bytes v + d)
        (omega (arith, mod-lt o {m = cluster_bytes v} (omega arith)))
        (omega (arith, div-add-mod o (cluster_bytes v)))

  pub content-same_sector :
      content v disk next first (o + d)
      ≡ disk
          (add32
            (v.cluster_to_lba (nth next (o / cluster_bytes v) first))
            (o % cluster_bytes v / 512))
          (o % cluster_bytes v % 512 + d)
  unfolding content
  content-same_sector =
      let p = parts in
      let s : (o % cluster_bytes v + d) / 512 ≡ o % cluster_bytes v / 512 = omega arith in
      let b : (o % cluster_bytes v + d) % 512 ≡ o % cluster_bytes v % 512 + d = omega arith in
      rw (p.0, p.1, s, b)
