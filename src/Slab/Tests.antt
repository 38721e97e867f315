-- ===== src/Slab/Tests.antt =====
-- A slab at address 100 with one free node of two, and a list of two slabs with a node each.
use riscy_os.Base.{
  ℕ, List, Option, none, ◌≤◌, ◌<◌, ◌⊎◌, inr, ◌≢◌, ◌*◌, some, suc, write, ◌-◌, ◌+◌, ◌≡◌, refl, [],
  ◌∷◌, arith, ◌==◌, if◌then◌else◌, Mem,
}
use riscy_os.Slab.{pointer_size}
use riscy_os.Slab.{slab_alloc_new, slab_size, slab_free}
use riscy_os.Slab.Links.{Slabs}
use riscy_os.Slab.Collect.{count_full, Dropped}
use riscy_os.Slab.Freed.{slab_free_collects}
use riscy_os.Slab.Create.{nodes_from, slab_alloc_new_correct}
use riscy_os.Slab.FreeList.{HasFree}

abbrev slab_words : Mem
slab_words a = if a == 104 then 120 else if a == 116 then 1 else 0

slab_words-HasFree : HasFree 100 (120 ∷ []) slab_words
slab_words-HasFree = record {
  chain = (refl, omega arith, refl);
  apart = (omega arith, tt, tt);
  count = refl;
}

-- A `kmalloc` that has a block of 84 bytes at address 400 and no other.
abbrev one_block : ℕ → ℕ
one_block size = if size == 84 then 400 else 0

asked : one_block (slab_size 12 4) ≡ 400
unfolding slab_size
asked = refl

-- Four objects of 12 bytes in a slab at address 400.
slab_alloc_new_correct_example :
    let r = slab_alloc_new one_block 100 12 4 slab_words in
    (slab_size 12 4 ≡ 20 + 4 * 16)
    × (r.0 ≡ 400)
    × (r.1 ≡ 400)
    × HasFree 400 (nodes_from (4 - 1) (400 + 20) (pointer_size + 12)) r.2
    × (r.2 400 ≡ 100)
    × (r.2 408 ≡ 12)
    × (r.2 412 ≡ 4)
slab_alloc_new_correct_example =
    slab_alloc_new_correct one_block 400 100 12 4 slab_words asked (omega arith) (omega arith)
      (omega arith)

-- The slab at 100 is fully free, and the one at 400 behind it is in use.
abbrev two_slabs : Mem
two_slabs a =
    if a == 100
    then 400
    else if a == 104
    then 120
    else if a == 108
    then 12
    else if a == 112
    then 1
    else if a == 116
    then 1
    else if a == 408
    then 12
    else if a == 412
    then 1
    else 0

nothing_free : HasFree 400 [] two_slabs
nothing_free = record { chain = refl; apart = tt; count = refl }

slab_free_collects_example :
    let slabs : List ℕ = 100 ∷ 400 ∷ [] in
    let result = slab_free (1 + suc 1) 100 424 two_slabs in
    (m' : Mem) × HasFree 400 (420 ∷ []) m'
    × ((x : ℕ) → x ≢ 420 → x ≢ 404 → x ≢ 416 → m' x ≡ two_slabs x)
    × Slabs m' 100 slabs
    × (((count_full m' slabs < 2) × (result ≡ some (m', 0)))
        ⊎ ((2 ≤ count_full m' slabs) × Dropped m' 100 slabs result))
slab_free_collects_example =
    slab_free_collects two_slabs 1 100 420 400 (100 ∷ []) [] []
      (refl, omega arith, (refl, omega arith, refl)) ((omega arith, tt), (tt, tt))
      ((omega arith, inr (omega arith)), tt) (omega arith, omega arith, omega arith) nothing_free
      (omega arith, tt, tt) (omega arith) (omega arith, (omega arith, tt))
      (omega arith, (omega arith, tt)) (omega arith, (omega arith, tt)) (omega arith)

-- The slab given to `kfree` and what is then behind the first slab.
abbrev given_and_next : Option (Mem × ℕ) → List ℕ
given_and_next none = []
given_and_next (some r) = r.1 ∷ r.0 100 ∷ []

two_slabs-slab_free : given_and_next (slab_free 3 100 424 two_slabs) ≡ 400 ∷ 0 ∷ []
unfolding slab_free write
two_slabs-slab_free = refl
