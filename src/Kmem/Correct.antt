-- ===== src/Kmem/Correct.antt =====
-- `kheap_init`, `kmalloc` and `kfree` on memory, in terms of the blocks in use.
use riscy_os.Base.{
  ℕ, ◌+◌, ◌-◌, ◌%◌, ◌≤◌, ◌<◌, ◌≡◌, refl, sym, ap, ◌∙◌, ◌≢◌, ◌↔◌, inl, inr, Bool, true, false, not,
  ◌&&◌, Option, none, some, List, [], ◌∷◌, arith, ◌==◌, ==_iff, if◌then◌else◌, Bool-cases,
  some_pair, length, Mem, write, u32_mod,
}
use riscy_os.Kmem.{align4, kheap_init, kmalloc, kfree}
use riscy_os.Kmem.Blocks.{
  Block, block, carve, fits, first_fit, release, coalesce_all, owns, used_at, extent, no_free_pairs,
}
use riscy_os.Kmem.Layout.{Layout}
use riscy_os.Kmem.Alloc.{kmalloc-first_fit}
use riscy_os.Kmem.Free.{kfree-coalesce}
use riscy_os.Kmem.Heap.{first_fit-used_at, first_fit-extent, release-used_at}

-- For a heap of at least a header, between word-aligned bounds below 2 ^ 32, `kheap_init` leaves one
-- free block over the whole heap, whatever memory held.
pub kheap_init-Layout :
    (lo hi : ℕ) (m : Mem)
    → hi < u32_mod
    → lo + 4 ≤ hi
    → lo % 4 ≡ 0
    → hi % 4 ≡ 0
    → Layout (kheap_init lo hi m) hi lo (block (hi - lo - 4) false ∷ [])
unfolding kheap_init write
kheap_init-Layout lo hi m hb h a b =
    (ground arith, ground arith, omega arith, omega arith, omega arith)

owns_of_used_at : (q n a : ℕ) (bs : List Block) → used_at q a bs ≡ some n → owns q a bs ≡ true
unfolding used_at owns
owns_of_used_at q n a [] h = absurd (cc)
owns_of_used_at q n a (b ∷ bs) h = ground (arith, owns_of_used_at q n (a + 4 + b.size) bs)

length-first_fit : (size a : ℕ) (bs : List Block) → length (first_fit size a bs).1 ≤ length bs + 1
unfolding first_fit carve
length-first_fit size a [] = omega arith
length-first_fit size a (b ∷ bs) = ground (arith, length-first_fit size (a + 4 + b.size) bs)

-- No block is free and large enough.
unfoldable pub none_fits : ℕ → List Block → Bool
unfolding fits
none_fits size [] = true
none_fits size (b ∷ bs) = not (fits size b) && none_fits size bs

first_fit-null :
    (size a : ℕ) (bs : List Block) → (first_fit size a bs).0 ≡ 0 → none_fits size bs ≡ true
unfolding first_fit none_fits
first_fit-null size a [] h = refl
first_fit-null size a (b ∷ bs) h = ground (arith, first_fit-null size (a + 4 + b.size) bs)

first_fit_fits :
    (size a : ℕ) (bs : List Block) → none_fits size bs ≡ true → first_fit size a bs ≡ (0, bs)
unfolding first_fit none_fits
first_fit_fits size a [] h = refl
first_fit_fits size a (b ∷ bs) h = ground (arith, first_fit_fits size (a + 4 + b.size) bs)

put_back :
    (q p : ℕ) (f g : ℕ → Option ℕ)
    → (q ≢ p → f q ≡ g q)
    → g p ≡ none
    → (if q == p then none else f q) ≡ g q
put_back q p f g h z = elim (Bool-cases (q == p)) [
  | inl e ↦ let e' : q ≡ p = (==_iff q p).0 e in rw e (sym (ap g e' ∙ z))
  | inr ne ↦ rw ne (h (λ k. ground (arith, (==_iff q p).1 k)))
]

module _ (lo hi size fuel : ℕ) (m : Mem) (bs : List Block) (hb : hi + 4 < u32_mod)
    (enough : length bs + 1 < fuel) (l : Layout m hi lo bs) where
  -- On a well-formed heap that ends more than a word below 2 ^ 32, with more fuel than one unit for
  -- each block and one, `kmalloc` ends. It answers NULL exactly when no free block holds the
  -- rounded size. Else its answer was not in use, is now the data of a block in use that holds the
  -- rounded size, and no other block in use moves or changes its size. The heap stays well-formed
  -- and its extent stays.
  pub kmalloc_correct :
      (p : ℕ) × (m' : Mem) × (bs' : List Block) × (kmalloc lo hi fuel size m ≡ some (p, m'))
      × Layout m' hi lo bs'
      × (extent bs' ≡ extent bs)
      × ((p ≡ 0) ↔ (none_fits (align4 size) bs ≡ true))
      × (p ≢ 0
          → (used_at p lo bs ≡ none)
            × ((n : ℕ) × (used_at p lo bs' ≡ some n) × (align4 size ≤ n))
            × ((q : ℕ) → q ≢ p → used_at q lo bs' ≡ used_at q lo bs))
  kmalloc_correct =
      let k = align4 size in
      let r = kmalloc-first_fit lo hi size fuel m bs hb (omega arith) l in
      let f = first_fit k lo bs in
      (
        f.0,
        r.0,
        f.1,
        r.1,
        r.2,
        first_fit-extent k lo bs,
        (first_fit-null k lo bs, λ h. ap (λ (t : ℕ × List Block). t.0) (first_fit_fits k lo bs h)),
        λ ne. let g = first_fit-used_at k lo bs ne in (g.0, g.1, g.2),
      )

  -- On a heap like that, with the same fuel, what `kmalloc` handed out can be given back: `kfree` ends, and then the blocks in use are those
  -- from before the call, the heap is well-formed with the same extent, and no free block follows a
  -- free block.
  pub kfree-kmalloc :
      (p : ℕ) (m' : Mem)
      → kmalloc lo hi fuel size m ≡ some (p, m')
      → p ≢ 0
      → (m'' : Mem) × (bs'' : List Block) × (kfree lo hi fuel p m' ≡ some m'')
        × Layout m'' hi lo bs''
        × ((q : ℕ) → used_at q lo bs'' ≡ used_at q lo bs)
        × (extent bs'' ≡ extent bs)
        × (no_free_pairs bs'' ≡ true)
  kfree-kmalloc p m' e ne =
      let k = align4 size in
      let r = kmalloc-first_fit lo hi size fuel m bs hb (omega arith) l in
      let f = first_fit k lo bs in
      let same = some_pair (sym e ∙ r.1) in
      let ep : p ≡ f.0 = same.0 in
      let em : m' ≡ r.0 = same.1 in
      let ne' : f.0 ≢ 0 = λ z. ne (ep ∙ z) in
      let g = first_fit-used_at k lo bs ne' in
      let o = owns_of_used_at f.0 g.1.0 lo f.1 g.1.1 in
      let lf : length f.1 < fuel = omega (arith, length-first_fit k lo bs) in
      let q' = kfree-coalesce lo hi f.0 fuel r.0 f.1 hb lf r.2 o in
      let u = release-used_at f.0 lo f.1 o in
      rw (ep, em)
        (
          q'.0,
          coalesce_all (release f.0 lo f.1),
          q'.1,
          q'.2,
          λ q. u.0 q ∙ put_back q f.0 (λ x. used_at x lo f.1) (λ x. used_at x lo bs) (g.2 q) g.0,
          u.1 ∙ g.3,
          u.2,
        )
