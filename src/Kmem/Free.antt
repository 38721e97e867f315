-- ===== src/Kmem/Free.antt =====
-- `kfree` marks the block free and merges neighbours.
use riscy_os.Base.{
  ℕ, zero, suc, ◌+◌, ◌-◌, ◌≤◌, ◌<◌, ◌≡◌, refl, ◌∙◌, inl, inr, true, false, not, ◌&&◌, Option, some,
  List, [], ◌∷◌, arith, ltb, leb, ◌==◌, Bool-cases, length, Mem, write, write_self, write_ne,
  u32_mod, add32, sub32,
}
use mathlib.Core.Path.{subst}
use riscy_os.Kmem.{get_size, is_used, set_free, coalesce_loop, kfree}
use riscy_os.Kmem.Blocks.{Block, block, release, coalesce, coalesce_all, owns}
use riscy_os.Kmem.Layout.{Layout, Layout-agree}

owns_bounds :
    (m : Mem) (hi p a : ℕ) (bs : List Block)
    → Layout m hi a bs
    → owns p a bs ≡ true
    → (a + 4 ≤ p) × (p ≤ hi)
unfolding owns
owns_bounds m hi p a [] l h = absurd (cc)
owns_bounds m hi p a (b ∷ bs) l h = elim (Bool-cases (p == a + 4)) [
  | inl here ↦ ground arith
  | inr there ↦
      let t = owns_bounds m hi p (a + 4 + b.size) bs l.4 (rw there at h) in (omega arith, t.1)
]

set_free-release :
    (m : Mem) (hi p a : ℕ) (bs : List Block)
    → owns p a bs ≡ true
    → Layout m hi a bs
    → Layout (set_free m (p - 4)) hi a (release p a bs)
unfolding owns release set_free
set_free-release m hi p a [] o l = absurd (cc)
set_free-release m hi p a (b ∷ bs) o l = elim (Bool-cases (p == a + 4)) [
  | inl here ↦
      let e : p - 4 ≡ a = ground arith in
      rw (here, e)
        (
          ground (arith, write_self m a (get_size (m a))),
          ground (arith, write_self m a (get_size (m a))),
          l.2,
          l.3,
          Layout-agree hi (a + 4 + b.size) bs (λ x k. write_ne m (p - 4) _ x (omega arith)) l.4,
        )
  | inr there ↦
      let o' : owns p (a + 4 + b.size) bs ≡ true = rw there at o in
      let k = owns_bounds m hi p (a + 4 + b.size) bs l.4 o' in
      let same : write m (p - 4) (get_size (m (p - 4))) a ≡ m a =
        write_ne m (p - 4) _ a (omega arith) in
      rw (there, same) (l.0, l.1, l.2, l.3, set_free-release m hi p (a + 4 + b.size) bs o' l.4)
]

-- What the traversal leaves.
abbrev Coalesced : (hi a : ℕ) → Block → List Block → Mem → Option Mem → Type 0
Coalesced hi a b bs m r =
    (m' : Mem) × (r ≡ some m') × Layout m' hi a (coalesce b bs) × ((x : ℕ) → x < a → m' x ≡ m x)

merged-Layout :
    (m : Mem) (hi a : ℕ) (b c : Block) (bs : List Block)
    → Layout m hi a (b ∷ c ∷ bs)
    → Layout (write m a (b.size + 4 + c.size)) hi a (block (b.size + 4 + c.size) false ∷ bs)
merged-Layout m hi a b c bs l = rw (write_self m a (b.size + 4 + c.size)) (
  omega arith,
  ground arith,
  omega arith,
  omega arith,
  Layout-agree hi (a + 4 + (b.size + 4 + c.size)) bs (λ x k. write_ne m a _ x (omega arith))
      (subst (λ y. Layout m hi y bs) (omega arith) l.4.4),
)

coalesce_loop-coalesce :
    (hi : ℕ)
    → hi + 4 < u32_mod
    → (bs : List Block) (m : Mem) (fuel a : ℕ) (b : Block) → Layout m hi a (b ∷ bs)
    → length bs < fuel
    → Coalesced hi a b bs m (coalesce_loop hi fuel a m)
unfolding coalesce_loop coalesce
coalesce_loop-coalesce hi hb bs m zero a b l h = absurd (omega arith)
coalesce_loop-coalesce hi hb [] m (suc fuel) a b l h =
    let in_range : ltb a hi ≡ true = ground arith in
    let next : add32 (add32 a 4) (get_size (m a)) ≡ hi = omega arith in
    let stop : leb hi hi ≡ true = ground arith in
    rw (in_range, next, stop) (m, refl, l, λ x k. refl)
coalesce_loop-coalesce hi hb (c ∷ bs) m (suc fuel) a b l h =
    let in_range : ltb a hi ≡ true = ground arith in
    let next : add32 (add32 a 4) (get_size (m a)) ≡ a + 4 + b.size = omega arith in
    let go_on : leb hi (a + 4 + b.size) ≡ false = ground arith in
    let size : add32 (add32 (get_size (m a)) 4) (get_size (m (a + 4 + b.size)))
        ≡ b.size + 4 + c.size =
      omega arith in
    let test : (not (is_used (m a)) && not (is_used (m (a + 4 + b.size))))
        ≡ (not b.used && not c.used) =
      rw (l.1, l.4.1) in
    elim (Bool-cases (not b.used && not c.used)) [
      | inl both ↦
          let m' = write m a (b.size + 4 + c.size) in
          let r =
            coalesce_loop-coalesce hi hb bs m' fuel a (block (b.size + 4 + c.size) false)
              (merged-Layout m hi a b c bs l) (omega arith) in
          rw (in_range, next, go_on, size, test, both)
            (r.0, r.1, r.2, λ x k. r.3 x k ∙ write_ne m a _ x (omega arith))
      | inr apart ↦
          let r = coalesce_loop-coalesce hi hb bs m fuel (a + 4 + b.size) c l.4 (omega arith) in
          let keep : r.0 a ≡ m a = r.3 a (omega arith) in
          rw (in_range, next, go_on, size, test, apart)
            (r.0, r.1, rw keep (l.0, l.1, l.2, l.3, r.2), λ x k. r.3 x (omega arith))
    ]

length-release : (p a : ℕ) (bs : List Block) → length (release p a bs) ≡ length bs
unfolding release
length-release p a [] = refl
length-release p a (b ∷ bs) = ground (arith, length-release p (a + 4 + b.size) bs)

coalesce_all-Layout :
    (hi lo : ℕ)
    → hi + 4 < u32_mod
    → (bs : List Block) (m : Mem) (fuel : ℕ) → Layout m hi lo bs
    → length bs < fuel
    → (m' : Mem) × (coalesce_loop hi fuel lo m ≡ some m') × Layout m' hi lo (coalesce_all bs)
unfolding coalesce_all
coalesce_all-Layout hi lo hb [] m zero l h = absurd (omega arith)
coalesce_all-Layout hi lo hb [] m (suc fuel) l h =
    let stop : ltb lo hi ≡ false = ground arith in (m, unfold coalesce_loop in rw stop, l)
coalesce_all-Layout hi lo hb (b ∷ bs) m fuel l h =
    let r = coalesce_loop-coalesce hi hb bs m fuel lo b l (omega arith) in (r.0, r.1, r.2)

-- For the data address of a block of a heap that ends more than a word below 2 ^ 32, and with more
-- fuel than it has blocks, `kfree` ends, and memory holds the headers of the
-- blocks with that one marked free and every two free neighbours merged.
pub kfree-coalesce :
    (lo hi p fuel : ℕ) (m : Mem) (bs : List Block)
    → hi + 4 < u32_mod
    → length bs < fuel
    → Layout m hi lo bs
    → owns p lo bs ≡ true
    → (m' : Mem) × (kfree lo hi fuel p m ≡ some m')
      × Layout m' hi lo (coalesce_all (release p lo bs))
unfolding kfree
kfree-coalesce lo hi p fuel m bs hb enough l o =
    let k = owns_bounds m hi p lo bs l o in
    let not_null : (p == 0) ≡ false = ground arith in
    let header : sub32 p 4 ≡ p - 4 = omega arith in
    rw (not_null, header)
      (coalesce_all-Layout hi lo hb (release p lo bs) (set_free m (p - 4)) fuel
        (set_free-release m hi p lo bs o l) (omega (arith, length-release p lo bs)))
