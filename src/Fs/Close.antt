-- ===== src/Fs/Close.antt =====
-- Closing a file: `fs_close_submit` of kernel/fs/fs_close.c, over the words of the heap as in Kmem.
use riscy_os.Base.{ℕ, ◌+◌, ◌<◌, ◌≡◌, refl, ◌≢◌, Option, none, some, List, length, Mem, u32_mod}
use riscy_os.Kmem.{kmalloc, kfree}
use riscy_os.Kmem.Blocks.{Block, used_at}
use riscy_os.Kmem.Layout.{Layout}
use riscy_os.Kmem.Correct.{kfree-kmalloc}

-- The heap reaches from `lo` to `hi`, and `callback` takes its context, a status and memory.
unfoldable pub fs_close_submit :
    (lo hi fuel : ℕ) → (ℕ → ℕ → Mem → Option Mem) → (file ctx : ℕ) → Mem → Option Mem
fs_close_submit lo hi fuel callback file ctx m = elim (kfree lo hi fuel file m) [
  | none ↦ none
  | some m' ↦ callback ctx 0 m'
]

-- Where the heap is well-formed and the FILE came from `kmalloc`, a close calls back with status 0,
-- and in the memory that the callback sees the blocks in use are those from before the allocation.
fs_close_submit-kmalloc :
    (lo hi size fuel : ℕ) (m : Mem) (bs : List Block) (hb : hi + 4 < u32_mod)
    (enough : length bs + 1 < fuel) (l : Layout m hi lo bs) (callback : ℕ → ℕ → Mem → Option Mem)
    (file ctx : ℕ) (m' : Mem)
    → kmalloc lo hi fuel size m ≡ some (file, m')
    → file ≢ 0
    → (m'' : Mem) × (bs'' : List Block) × (fs_close_submit lo hi fuel callback file ctx m'
        ≡ callback ctx 0 m'')
      × Layout m'' hi lo bs''
      × ((q : ℕ) → used_at q lo bs'' ≡ used_at q lo bs)
unfolding fs_close_submit
fs_close_submit-kmalloc lo hi size fuel m bs hb enough l callback file ctx m' taken some_file =
    let (m'', bs'', freed, links, same, extent_kept, merged) =
      kfree-kmalloc lo hi size fuel m bs hb enough l file m' taken some_file in
    (m'', bs'', rw (fs_close_submit, freed) refl, links, same)
