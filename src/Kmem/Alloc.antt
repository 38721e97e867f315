-- ===== src/Kmem/Alloc.antt =====
-- `kmalloc` is first fit on the list of blocks.
use riscy_os.Base.{
  ℕ, zero, suc, ◌+◌, ◌%◌, ◌≤◌, ◌<◌, ◌≡◌, refl, ap, inl, inr, true, false, not, ◌&&◌, Option, some,
  List, [], ◌∷◌, arith, ltb, leb, Bool-cases, length, Mem, u32_mod, add32,
}
use riscy_os.Kmem.{get_size, is_used, align4, take_block, kmalloc_loop, kmalloc}
use riscy_os.Kmem.Blocks.{Block, fits, first_fit}
use riscy_os.Kmem.Layout.{Layout, take_block-carve, take_block-below}

align4_aligned : (size : ℕ) → align4 size % 4 ≡ 0
unfolding align4
align4_aligned size = omega arith

-- What a call of the loop leaves: the address that first fit gives, and its blocks in memory.
abbrev pub Allocated : (hi size a : ℕ) → List Block → Mem → Option (ℕ × Mem) → Type 0
Allocated hi size a bs m r =
    (m' : Mem) × (r ≡ some ((first_fit size a bs).0, m'))
    × Layout m' hi a (first_fit size a bs).1
    × ((x : ℕ) → x < a → m' x ≡ m x)

module _ (hi size : ℕ) (hb : hi + 4 < u32_mod) (hs : size % 4 ≡ 0) where
  kmalloc_loop-first_fit :
      (m : Mem) (fuel a : ℕ) (bs : List Block)
      → Layout m hi a bs
      → length bs < fuel
      → Allocated hi size a bs m (kmalloc_loop hi size fuel a m)
  unfolding kmalloc_loop first_fit fits
  kmalloc_loop-first_fit m zero a bs l h = absurd (omega arith)
  kmalloc_loop-first_fit m (suc fuel) a [] l h =
      let stop : ltb a hi ≡ false = ground arith in (m, rw stop, l, λ x k. refl)
  kmalloc_loop-first_fit m (suc fuel) a (b ∷ bs) l h =
      let in_range : ltb a hi ≡ true = ground arith in
      let next : add32 (add32 a 4) (get_size (m a)) ≡ a + 4 + b.size = omega arith in
      let test : (not (is_used (m a)) && leb size (get_size (m a))) ≡ fits size b = rw (l.1, l.0) in
      let rest = kmalloc_loop-first_fit m fuel (a + 4 + b.size) bs l.4 (omega arith) in
      let keep : rest.0 a ≡ m a = rest.3 a (omega arith) in
      elim (Bool-cases (fits size b)) [
        | inl here ↦
            let free : b.used ≡ false = ground arith in
            let room : size ≤ b.size = ground arith in
            rw (in_range, test, here)
              (
                take_block size a m,
                ap some (ap (λ (p : ℕ). (p, take_block size a m)) (omega arith)),
                take_block-carve m hi a size b bs hb hs free room l,
                take_block-below m hi a size b bs hb hs free room l,
              )
        | inr there ↦
            rw (in_range, test, there, next)
              (rest.0, rest.1, rw keep (l.0, l.1, l.2, l.3, rest.2), λ x k. rest.3 x (omega arith))
      ]

-- On a heap whose headers are those of a list of blocks, that ends more than a word below 2 ^ 32,
-- and with more fuel than it has blocks, `kmalloc` returns the address that first
-- fit gives for the rounded size (NULL if no block fits), and leaves the headers of the blocks
-- that first fit leaves.
pub kmalloc-first_fit :
    (lo hi size fuel : ℕ) (m : Mem) (bs : List Block)
    → hi + 4 < u32_mod
    → length bs < fuel
    → Layout m hi lo bs
    → (m' : Mem) × (kmalloc lo hi fuel size m ≡ some ((first_fit (align4 size) lo bs).0, m'))
      × Layout m' hi lo (first_fit (align4 size) lo bs).1
unfolding kmalloc
kmalloc-first_fit lo hi size fuel m bs hb enough l =
    let r =
      kmalloc_loop-first_fit hi (align4 size) hb (align4_aligned size) m fuel lo bs l enough in
    (r.0, r.1, r.2)
