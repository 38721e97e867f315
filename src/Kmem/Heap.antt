-- ===== src/Kmem/Heap.antt =====
-- What first fit and coalescing do to the blocks in use, and to the space of the heap.
use riscy_os.Base.{
  ℕ, ◌+◌, ◌-◌, ◌≤◌, ◌<◌, ◌≡◌, refl, ap, ◌∙◌, ◌≢◌, inl, inr, Bool, true, false, not, ◌&&◌, none,
  some, List, [], ◌∷◌, arith, leb, ◌==◌, if◌then◌else◌, Bool-cases,
}
use riscy_os.Kmem.Blocks.{
  Block, block, carve, fits, first_fit, release, coalesce, coalesce_all, owns, used_at, extent,
  no_free_pair, no_free_pairs,
}

used_at_below : (q a : ℕ) (bs : List Block) → q < a + 4 → used_at q a bs ≡ none
unfolding used_at
used_at_below q a [] h = refl
used_at_below q a (b ∷ bs) h = ground (arith, used_at_below q (a + 4 + b.size) bs)

-- Whether the first block is in use; the end of the heap counts as in use.
head_used : List Block → Bool
head_used [] = true
head_used (b ∷ bs) = b.used

module _ (size : ℕ) where
  pub first_fit-above :
      (a : ℕ) (bs : List Block) → (first_fit size a bs).0 ≢ 0 → a + 4 ≤ (first_fit size a bs).0
  unfolding first_fit
  first_fit-above a [] h = absurd (h refl)
  first_fit-above a (b ∷ bs) h = ground (arith, first_fit-above (a + 4 + b.size) bs)

  -- What is handed out was not in use,
  first_fit-unused :
      (a : ℕ) (bs : List Block)
      → (first_fit size a bs).0 ≢ 0
      → used_at (first_fit size a bs).0 a bs ≡ none
  unfolding first_fit fits used_at
  first_fit-unused a [] h = refl
  first_fit-unused a (b ∷ bs) h =
      ground (arith, first_fit-above (a + 4 + b.size) bs, first_fit-unused (a + 4 + b.size) bs)

  -- holds the bytes asked for,
  first_fit-room :
      (a : ℕ) (bs : List Block)
      → (first_fit size a bs).0 ≢ 0
      → (n : ℕ) × (used_at (first_fit size a bs).0 a (first_fit size a bs).1 ≡ some n) × (size ≤ n)
  unfolding first_fit fits carve used_at
  first_fit-room a [] h = absurd (h refl)
  first_fit-room a (b ∷ bs) h = elim (Bool-cases (fits size b)) [
    | inl here ↦
        rw here ((if leb (size + 8) b.size then size else b.size), ground arith, ground arith)
    | inr there ↦
        let h' : (first_fit size (a + 4 + b.size) bs).0 ≢ 0 = rw there at h in
        let r = first_fit-room (a + 4 + b.size) bs h' in
        rw there (r.0, ground (arith, first_fit-above (a + 4 + b.size) bs h', r.1), r.2)
  ]

  -- and every other block in use stays.
  first_fit-others :
      (q a : ℕ) (bs : List Block)
      → q ≢ (first_fit size a bs).0
      → used_at q a (first_fit size a bs).1 ≡ used_at q a bs
  unfolding first_fit fits carve used_at
  first_fit-others q a [] h = refl
  first_fit-others q a (b ∷ bs) h = elim (Bool-cases (leb (size + 8) b.size)) [
    | inl split ↦
        let e : used_at q (a + 4 + size + 4 + (b.size - size - 4)) bs
            ≡ used_at q (a + 4 + b.size) bs =
          ap (λ (y : ℕ). used_at q y bs) (ground arith) in
        ground
          (arith, e, first_fit-others q (a + 4 + b.size) bs, used_at_below q (a + 4 + b.size) bs)
    | inr whole ↦ ground (arith, first_fit-others q (a + 4 + b.size) bs)
  ]

pub first_fit-extent : (size a : ℕ) (bs : List Block) → extent (first_fit size a bs).1 ≡ extent bs
unfolding first_fit fits carve extent
first_fit-extent size a [] = refl
first_fit-extent size a (b ∷ bs) = ground (arith, first_fit-extent size (a + 4 + b.size) bs)

extent-release : (p a : ℕ) (bs : List Block) → extent (release p a bs) ≡ extent bs
unfolding release extent
extent-release p a [] = refl
extent-release p a (b ∷ bs) = ground (arith, extent-release p (a + 4 + b.size) bs)

extent-coalesce : (b : Block) (bs : List Block) → extent (coalesce b bs) ≡ extent (b ∷ bs)
unfolding coalesce extent
extent-coalesce b [] = refl
extent-coalesce b (c ∷ bs) =
    ground (arith, extent-coalesce (block (b.size + 4 + c.size) false) bs, extent-coalesce c bs)

used_at-release :
    (p q a : ℕ) (bs : List Block)
    → owns p a bs ≡ true
    → used_at q a (release p a bs) ≡ (if q == p then none else used_at q a bs)
unfolding release used_at owns
used_at-release p q a [] h = absurd (cc)
used_at-release p q a (b ∷ bs) h = ground (
  arith,
  used_at-release p q (a + 4 + b.size) bs,
  used_at_below q (a + 4 + b.size) bs,
  used_at_below q (a + 4 + b.size) (release p (a + 4 + b.size) bs),
)

used_at-coalesce :
    (q a : ℕ) (b : Block) (bs : List Block) → used_at q a (coalesce b bs) ≡ used_at q a (b ∷ bs)
unfolding coalesce used_at
used_at-coalesce q a b [] = refl
used_at-coalesce q a b (c ∷ bs) =
    let shift : used_at q (a + 4 + (b.size + 4 + c.size)) bs
        ≡ used_at q (a + 4 + b.size + 4 + c.size) bs =
      ap (λ (y : ℕ). used_at q y bs) (omega arith) in
    ground (
      arith,
      used_at-coalesce q a (block (b.size + 4 + c.size) false) bs,
      used_at-coalesce q (a + 4 + b.size) c bs,
      shift,
      used_at_below q (a + 4 + b.size + 4 + c.size) bs,
    )

-- A block that is in use can stand before anything.
no_free_pair-used :
    (b : Block) (bs : List Block)
    → no_free_pairs bs ≡ true
    → (not b.used && not (head_used bs)) ≡ false
    → no_free_pairs (b ∷ bs) ≡ true
unfolding no_free_pair no_free_pairs head_used
no_free_pair-used b [] h k = refl
no_free_pair-used b (c ∷ bs) h k = ground arith

head_used-coalesce :
    (b : Block) (bs : List Block) → b.used ≡ true → head_used (coalesce b bs) ≡ true
unfolding coalesce head_used
head_used-coalesce b [] h = h
head_used-coalesce b (c ∷ bs) h = ground arith

coalesce-no_free_pair : (b : Block) (bs : List Block) → no_free_pairs (coalesce b bs) ≡ true
unfolding coalesce no_free_pairs
coalesce-no_free_pair b [] = unfold no_free_pair in refl
coalesce-no_free_pair b (c ∷ bs) = elim (Bool-cases (not b.used && not c.used)) [
  | inl both ↦ rw both (coalesce-no_free_pair (block (b.size + 4 + c.size) false) bs)
  | inr apart ↦ rw apart (
      no_free_pair-used b (coalesce c bs) (coalesce-no_free_pair c bs)
        (ground (arith, head_used-coalesce c bs)))
]

-- After the blocks are merged, no free block is followed by a free block.
pub coalesce_all-no_free_pair : (bs : List Block) → no_free_pairs (coalesce_all bs) ≡ true
unfolding coalesce_all no_free_pairs
coalesce_all-no_free_pair [] = refl
coalesce_all-no_free_pair (b ∷ bs) = coalesce-no_free_pair b bs

used_at-coalesce_all : (q a : ℕ) (bs : List Block) → used_at q a (coalesce_all bs) ≡ used_at q a bs
unfolding coalesce_all
used_at-coalesce_all q a [] = refl
used_at-coalesce_all q a (b ∷ bs) = used_at-coalesce q a b bs

extent-coalesce_all : (bs : List Block) → extent (coalesce_all bs) ≡ extent bs
unfolding coalesce_all
extent-coalesce_all [] = refl
extent-coalesce_all (b ∷ bs) = extent-coalesce b bs

-- First fit hands out a block that was not in use and holds at least the bytes asked for, keeps
-- every other block in use where it was with its size, and changes nothing of the heap's extent.
pub first_fit-used_at :
    (size a : ℕ) (bs : List Block)
    → (first_fit size a bs).0 ≢ 0
    → (used_at (first_fit size a bs).0 a bs ≡ none)
      × ((n : ℕ) × (used_at (first_fit size a bs).0 a (first_fit size a bs).1 ≡ some n)
          × (size ≤ n))
      × ((q : ℕ)
          → q ≢ (first_fit size a bs).0
          → used_at q a (first_fit size a bs).1 ≡ used_at q a bs)
      × (extent (first_fit size a bs).1 ≡ extent bs)
first_fit-used_at size a bs h = (
  first_fit-unused size a bs h,
  first_fit-room size a bs h,
  λ q ne. first_fit-others size q a bs ne,
  first_fit-extent size a bs,
)

-- Freeing a block takes that block alone out of use, keeps the heap's extent, and leaves no free
-- block behind a free block.
pub release-used_at :
    (p a : ℕ) (bs : List Block)
    → owns p a bs ≡ true
    → ((q : ℕ)
        → used_at q a (coalesce_all (release p a bs)) ≡ (if q == p then none else used_at q a bs))
      × (extent (coalesce_all (release p a bs)) ≡ extent bs)
      × (no_free_pairs (coalesce_all (release p a bs)) ≡ true)
release-used_at p a bs h = (
  λ q. used_at-coalesce_all q a (release p a bs) ∙ used_at-release p q a bs h,
  extent-coalesce_all (release p a bs) ∙ extent-release p a bs,
  coalesce_all-no_free_pair (release p a bs),
)
