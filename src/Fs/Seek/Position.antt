-- ===== src/Fs/Seek/Position.antt =====
-- A byte offset as cluster, sector and byte.
use riscy_os.Base.{ℕ, ◌+◌, ◌*◌, ◌/◌, ◌%◌, ◌<◌, ◌≡◌, arith}
use native.Mathlib.Nat.{div-add-mod}
use riscy_os.Fs.Seek.{seek_decompose}

module _ (spc offset : ℕ) (hs : 0 < spc) where
  below_cluster : offset % (512 * spc) < 512 * spc
  below_cluster = omega arith

  sector_below : offset % (512 * spc) / 512 < spc
  sector_below = omega (arith, below_cluster)

-- The offset is recovered from its position, the sector lies in the cluster and the byte in the
-- sector, for volumes of 1 to 255 sectors in a cluster.
pub seek_decompose_correct :
    (spc offset : ℕ)
    → 0 < spc
    → spc < 256
    → ((seek_decompose spc offset).cluster_index * (512 * spc)
          + (seek_decompose spc offset).sector_in_cluster * 512
          + (seek_decompose spc offset).byte_in_sector
        ≡ offset)
      × ((seek_decompose spc offset).sector_in_cluster < spc)
      × ((seek_decompose spc offset).byte_in_sector < 512)
unfolding seek_decompose
seek_decompose_correct spc offset hs hu =
    let s = sector_below spc offset hs in
    let sec : offset % (512 * spc) / 512 % 256 ≡ offset % (512 * spc) / 512 = omega arith in
    let b : offset % (512 * spc) % 512 % 65536 ≡ offset % (512 * spc) % 512 = omega arith in
    rw (sec, b) (grind (arith, div-add-mod offset (512 * spc)), s, omega arith)
