-- ===== src/Kmem/Blocks.antt =====
-- The heap as the list of its blocks, and what `kmalloc` and `kfree` do to such a list.
use riscy_os.Base.{
  ℕ, ◌+◌, ◌-◌, Bool, true, false, not, ◌&&◌, ◌==◌, leb, if◌then◌else◌, List, [], ◌∷◌, Option, none,
  some,
}

pub record Block : Type 0 where
  pub size : ℕ
  pub used : Bool

abbrev pub block : ℕ → Bool → Block
block s u = record { size = s; used = u }

-- What is left of a free block when `size` bytes of it are handed out.
unfoldable pub carve : ℕ → ℕ → List Block → List Block
carve size s bs =
    if leb (size + 8) s
    then block size true ∷ block (s - size - 4) false ∷ bs
    else block s true ∷ bs

unfoldable pub fits : ℕ → Block → Bool
fits size b = not b.used && leb size b.size

-- First fit from address `a` on: the address handed out (0 if none fits) and the blocks after it.
unfoldable pub first_fit : ℕ → ℕ → List Block → ℕ × List Block
first_fit size a [] = (0, [])
first_fit size a (b ∷ bs) =
    let (p, rest) = first_fit size (a + 4 + b.size) bs in
    if fits size b then (a + 4, carve size b.size bs) else (p, b ∷ rest)

-- The block whose data begins at `p` is marked free.
unfoldable pub release : ℕ → ℕ → List Block → List Block
release p a [] = []
release p a (b ∷ bs) =
    if p == a + 4 then block b.size false ∷ bs else b ∷ release p (a + 4 + b.size) bs

-- `p` is where the data of some block begins.
unfoldable pub owns : ℕ → ℕ → List Block → Bool
owns p a [] = false
owns p a (b ∷ bs) = let rest = owns p (a + 4 + b.size) bs in if p == a + 4 then true else rest

-- Neighbouring free blocks are merged, a header's bytes included.
unfoldable pub coalesce : Block → List Block → List Block
coalesce b [] = b ∷ []
coalesce b (c ∷ bs) =
    let merged = coalesce (block (b.size + 4 + c.size) false) bs in
    let forward = b ∷ coalesce c bs in if not b.used && not c.used then merged else forward

unfoldable pub coalesce_all : List Block → List Block
unfolding coalesce
coalesce_all [] = []
coalesce_all (b ∷ bs) = coalesce b bs

-- Bytes that the blocks take up, headers included.
unfoldable pub extent : List Block → ℕ
extent [] = 0
extent (b ∷ bs) = 4 + b.size + extent bs

-- The size of the block in use whose data begins at `q`.
unfoldable pub used_at : ℕ → ℕ → List Block → Option ℕ
used_at q a [] = none
used_at q a (b ∷ bs) =
    let rest = used_at q (a + 4 + b.size) bs in
    if q == a + 4 then (if b.used then some b.size else none) else rest

-- No free block is followed by a free block.
unfoldable pub no_free_pair : Block → List Block → Bool
no_free_pair b [] = true
no_free_pair b (c ∷ bs) = not (not b.used && not c.used) && no_free_pair c bs

unfoldable pub no_free_pairs : List Block → Bool
unfolding no_free_pair
no_free_pairs [] = true
no_free_pairs (b ∷ bs) = no_free_pair b bs
