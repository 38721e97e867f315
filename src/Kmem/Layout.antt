-- ===== src/Kmem/Layout.antt =====
-- When memory holds a list of blocks, and what the header macros do to it.
use riscy_os.Base.{
  ℕ, ◌+◌, ◌-◌, ◌%◌, ◌≤◌, ◌<◌, ◌≡◌, ◌∙◌, ◌≢◌, inl, inr, true, false, List, [], ◌∷◌, arith, leb,
  Bool-cases, Mem, write, write_self, write_ne, u32_mod, add32,
}
use mathlib.Core.Path.{subst}
use riscy_os.Kmem.{get_size, is_used, with_used, take_block, split_block}
use riscy_os.Kmem.Blocks.{Block, carve}

-- The headers from address `a` up to `hi` are those of the blocks, whose sizes are word-aligned.
abbrev pub Layout : Mem → ℕ → ℕ → List Block → Type 0
Layout m hi a [] = a ≡ hi
Layout m hi a (b ∷ bs) =
    (get_size (m a) ≡ b.size)
    × (is_used (m a) ≡ b.used)
    × (b.size % 4 ≡ 0)
    × (a + 4 + b.size ≤ hi)
    × Layout m hi (a + 4 + b.size) bs

-- What stands below `a` does not matter from `a` on.
pub Layout-agree :
    {m m' : Mem} (hi a : ℕ) (bs : List Block)
    → ((x : ℕ) → a ≤ x → m' x ≡ m x)
    → Layout m hi a bs
    → Layout m' hi a bs
Layout-agree hi a [] same l = l
Layout-agree hi a (b ∷ bs) same l =
    rw (same a (omega arith))
      (l.0, l.1, l.2, l.3, Layout-agree hi (a + 4 + b.size) bs (λ x h. same x (omega arith)) l.4)

pub Layout-le : (m : Mem) (hi a : ℕ) (bs : List Block) → Layout m hi a bs → a ≤ hi
Layout-le m hi a [] l = omega arith
Layout-le m hi a (b ∷ bs) l = omega arith

module _ (m : Mem) (hi a size : ℕ) (b : Block) (bs : List Block) (hb : hi + 4 < u32_mod)
    (hs : size % 4 ≡ 0) (free : b.used ≡ false) (room : size ≤ b.size)
    (l : Layout m hi a (b ∷ bs)) where
  -- The three words that a split can be asked for.
  split_at :
      size + 8 ≤ b.size
      → (get_size (split_block size a m a) ≡ size)
        × (get_size (split_block size a m (a + 4 + size)) ≡ b.size - size - 4)
        × (is_used (split_block size a m (a + 4 + size)) ≡ false)
  unfolding split_block write
  split_at h = ground arith

  split_other :
      (x : ℕ) → x ≢ a → x ≢ a + 4 + size → size + 8 ≤ b.size → split_block size a m x ≡ m x
  unfolding split_block write
  split_other x h k r = ground arith

  -- The block that is handed out, and the words that stay.
  take_whole :
      b.size < size + 8
      → (get_size (take_block size a m a) ≡ b.size)
        × (is_used (take_block size a m a) ≡ true)
        × ((x : ℕ) → a + 4 ≤ x → take_block size a m x ≡ m x)
  unfolding take_block
  take_whole h =
      let lack : leb (add32 (add32 size 4) 4) (get_size (m a)) ≡ false = ground arith in
      rw lack (
        ground (arith, write_self m a (with_used (m a))),
        ground (arith, write_self m a (with_used (m a))),
        λ x k. write_ne m a _ x (omega arith),
      )

  take_split :
      size + 8 ≤ b.size
      → (get_size (take_block size a m a) ≡ size)
        × (is_used (take_block size a m a) ≡ true)
        × ((x : ℕ) → a + 4 ≤ x → take_block size a m x ≡ split_block size a m x)
  unfolding take_block
  take_split h =
      let enough : leb (add32 (add32 size 4) 4) (get_size (m a)) ≡ true = ground arith in
      let m' = split_block size a m in
      rw enough (
        ground (arith, split_at h, write_self m' a (with_used (m' a))),
        ground (arith, split_at h, write_self m' a (with_used (m' a))),
        λ x k. write_ne m' a _ x (omega arith),
      )

  -- Taking a free block that is large enough carves it.
  pub take_block-carve : Layout (take_block size a m) hi a (carve size b.size bs)
  unfolding carve
  take_block-carve = elim (Bool-cases (leb (size + 8) b.size)) [
    | inl split ↦ rw split (
        let h : size + 8 ≤ b.size = ground arith in
        let t = take_split h in
        let f = split_at h in
        (
          t.0,
          t.1,
          hs,
          omega arith,
          (
            rw (t.2 (a + 4 + size) (omega arith)) f.1,
            rw (t.2 (a + 4 + size) (omega arith)) f.2,
            omega arith,
            omega arith,
            Layout-agree hi (a + 4 + size + 4 + (b.size - size - 4)) bs
                (λ x k. t.2 x (omega arith) ∙ split_other x (omega arith) (omega arith) h)
                (subst (λ y. Layout m hi y bs) (omega arith) l.4),
          ),
        ))
    | inr whole ↦ rw whole (
        let t = take_whole (ground arith) in
        (t.0, t.1, l.2, l.3, Layout-agree hi (a + 4 + b.size) bs (λ x h. t.2 x (omega arith)) l.4))
  ]

  -- Nothing below the block is written.
  pub take_block-below : (x : ℕ) → x < a → take_block size a m x ≡ m x
  unfolding take_block split_block write
  take_block-below x h = ground arith
