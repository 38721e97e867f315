-- ===== src/Kmem/Tests.antt =====
-- The heap at concrete blocks: 16 bytes in use and 12 free ones, from address 0 on.
use riscy_os.Base.{
  ℕ, ◌≤◌, ◌≡◌, refl, ◌≢◌, ◌↔◌, true, false, none, some, List, [], ◌∷◌, arith, ◌==◌, if◌then◌else◌,
  Mem,
}
use riscy_os.Kmem.{kmalloc, kmalloc_loop, take_block, kfree}
use riscy_os.Kmem.Blocks.{
  Block, block, first_fit, extent, used_at, no_free_pairs, owns, release, coalesce_all,
}
use riscy_os.Kmem.Layout.{Layout}
use riscy_os.Kmem.Alloc.{kmalloc-first_fit}
use riscy_os.Kmem.Free.{kfree-coalesce}
use riscy_os.Kmem.Correct.{none_fits, kmalloc_correct, kfree-kmalloc}
use riscy_os.Kmem.{align4}

abbrev heap_words : Mem
heap_words a = if a == 0 then 17 else if a == 20 then 40 else 0

abbrev heap_blocks : List Block
heap_blocks = block 16 true ∷ block 40 false ∷ []

heap_words-Layout : Layout heap_words 64 0 heap_blocks
heap_words-Layout = (refl, refl, refl, omega arith, (refl, refl, refl, omega arith, refl))

kmalloc-first_fit_example :
    (m' : Mem) × (kmalloc 0 64 5 10 heap_words ≡ some ((first_fit (align4 10) 0 heap_blocks).0, m'))
    × Layout m' 64 0 (first_fit (align4 10) 0 heap_blocks).1
kmalloc-first_fit_example =
    kmalloc-first_fit 0 64 10 5 heap_words heap_blocks (omega arith) (omega arith) heap_words-Layout

owned : owns 4 0 heap_blocks ≡ true
unfolding owns
owned = refl

kfree-coalesce_example :
    (m' : Mem) × (kfree 0 64 5 4 heap_words ≡ some m')
    × Layout m' 64 0 (coalesce_all (release 4 0 heap_blocks))
kfree-coalesce_example =
    kfree-coalesce 0 64 4 5 heap_words heap_blocks (omega arith) (omega arith) heap_words-Layout
      owned

kmalloc_correct_example :
    (p : ℕ) × (m' : Mem) × (bs' : List Block) × (kmalloc 0 64 5 10 heap_words ≡ some (p, m'))
    × Layout m' 64 0 bs'
    × (extent bs' ≡ extent heap_blocks)
    × ((p ≡ 0) ↔ (none_fits (align4 10) heap_blocks ≡ true))
    × (p ≢ 0
        → (used_at p 0 heap_blocks ≡ none)
          × ((n : ℕ) × (used_at p 0 bs' ≡ some n) × (align4 10 ≤ n))
          × ((q : ℕ) → q ≢ p → used_at q 0 bs' ≡ used_at q 0 heap_blocks))
kmalloc_correct_example =
    kmalloc_correct 0 64 10 5 heap_words heap_blocks (omega arith) (omega arith) heap_words-Layout

taken : kmalloc 0 64 5 10 heap_words ≡ some (24, take_block 12 20 heap_words)
unfolding kmalloc kmalloc_loop align4
taken = refl

kfree-kmalloc_example :
    (m'' : Mem) × (bs'' : List Block) × (kfree 0 64 5 24 (take_block 12 20 heap_words) ≡ some m'')
    × Layout m'' 64 0 bs''
    × ((q : ℕ) → used_at q 0 bs'' ≡ used_at q 0 heap_blocks)
    × (extent bs'' ≡ extent heap_blocks)
    × (no_free_pairs bs'' ≡ true)
kfree-kmalloc_example =
    kfree-kmalloc 0 64 10 5 heap_words heap_blocks (omega arith) (omega arith) heap_words-Layout 24
      (take_block 12 20 heap_words) taken (omega arith)
