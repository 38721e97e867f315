-- ===== src/Slab/Links.antt =====
-- The links from slab to slab in memory, and what is left of them when one is changed.
use riscy_os.Base.{ℕ, ◌≡◌, sym, ◌≢◌, List, [], ◌∷◌, ◌++◌, Mem, write, write_self, write_ne}
use riscy_os.Slab.FreeList.{NotIn}

-- From `p` the links lead through the slabs of the list to NULL.
abbrev pub Slabs : Mem → ℕ → List ℕ → Type 0
Slabs m p [] = p ≡ 0
Slabs m p (x ∷ xs) = (p ≡ x) × (x ≢ 0) × Slabs m (m x) xs

abbrev pub AllApart : List ℕ → Type 0
AllApart [] = Unit {0}
AllApart (x ∷ xs) = NotIn x xs × AllApart xs

pub Slabs-write :
    (m : Mem) (p q v : ℕ) (xs : List ℕ) → NotIn q xs → Slabs m p xs → Slabs (write m q v) p xs
Slabs-write m p q v [] apart slabs = slabs
Slabs-write m p q v (x ∷ xs) apart slabs =
    (slabs.0, slabs.1, rw (write_ne m q v x apart.0) (Slabs-write m (m x) q v xs apart.1 slabs.2))

NotIn-mid : (x q : ℕ) (front bs : List ℕ) → NotIn x (front ++ (q ∷ bs)) → q ≢ x
NotIn-mid x q [] bs apart = apart.0
NotIn-mid x q (y ∷ front) bs apart = NotIn-mid x q front bs apart.1

-- The slab behind `q` is unlinked.
pub Slabs-unlink :
    (m : Mem) (p q t : ℕ) (front bs : List ℕ)
    → AllApart (front ++ (q ∷ t ∷ bs))
    → Slabs m p (front ++ (q ∷ t ∷ bs))
    → Slabs (write m q (m t)) p (front ++ (q ∷ bs))
Slabs-unlink m p q t [] bs apart slabs = (
  slabs.0,
  slabs.1,
  rw (write_self m q (m t)) (Slabs-write m (m t) q (m t) bs apart.0.1 slabs.2.2),
)
Slabs-unlink m p q t (x ∷ front) bs apart slabs = (
  slabs.0,
  slabs.1,
  rw (write_ne m q (m t) x (λ e. NotIn-mid x q front (t ∷ bs) apart.0 (sym e)))
      (Slabs-unlink m (m x) q t front bs apart.1 slabs.2),
)
