-- ===== src/Fs/Read/Copy.antt =====
-- The copy loop of the read machine.
use riscy_os.Base.{ℕ, zero, suc, ◌+◌, ◌-◌, ◌≡◌, ◌&&◌, arith, ltb, leb, if◌then◌else◌, Mem, write}
use riscy_os.Fs.{Sector}
use riscy_os.Fs.Read.{copy_from}

-- The loop writes the `n` bytes from `dst + i` on, and nothing else.
pub copy_from_lem :
    (n i dst cb x : ℕ) (s : Sector) (mem : Mem)
    → copy_from n i dst cb s mem x
      ≡ (if leb (dst + i) x && ltb x (dst + i + n) then s (cb + (x - dst)) else mem x)
unfolding copy_from write
copy_from_lem zero i dst cb x s mem = ground arith
copy_from_lem (suc n) i dst cb x s mem =
    ground (arith, copy_from_lem n (i + 1) dst cb x s (write mem (dst + i) (s (cb + i))))
