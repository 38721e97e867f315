-- ===== src/Slab/FreeList.antt =====
-- The free list of a slab: taking an object and giving one back.
use riscy_os.Base.{
  ℕ, suc, ◌+◌, ◌≤◌, ◌<◌, ◌≡◌, refl, ap, ◌∙◌, ◌≢◌, List, [], ◌∷◌, arith, length, Mem, write,
  write_self, write_ne, u32_mod, add32, sub32,
}
use riscy_os.Slab.{
  free_list_at, free_objects_at, slab_header_size, pointer_size, take_object, put_object,
}

-- From `p` the links lead through the nodes of the list to NULL.
abbrev pub FreeList : Mem → ℕ → List ℕ → Type 0
FreeList m p [] = p ≡ 0
FreeList m p (x ∷ xs) = (p ≡ x) × (x ≢ 0) × FreeList m (m x) xs

-- `x` is none of the nodes.
abbrev pub NotIn : ℕ → List ℕ → Type 0
NotIn x [] = Unit
NotIn x (y ∷ ys) = (y ≢ x) × NotIn x ys

-- The nodes lie behind the header at `slab`, each at another address.
abbrev pub Apart : ℕ → List ℕ → Type 0
Apart slab [] = Unit
Apart slab (x ∷ xs) = (slab + slab_header_size ≤ x) × NotIn x xs × Apart slab xs

-- The slab's free list is the list of nodes, and its count of free objects is their number.
pub record HasFree (slab : ℕ) (xs : List ℕ) (m : Mem) : Type 0 where
  pub chain : FreeList m (m (free_list_at slab)) xs
  pub apart : Apart slab xs
  pub count : m (free_objects_at slab) ≡ length xs

FreeList-write :
    (m : Mem) (p x v : ℕ) (xs : List ℕ) → NotIn x xs → FreeList m p xs → FreeList (write m x v) p xs
FreeList-write m p x v [] h l = l
FreeList-write m p x v (y ∷ ys) h l =
    (l.0, l.1, rw (write_ne m x v y h.0) (FreeList-write m (m y) x v ys h.1 l.2))

header-NotIn :
    (slab k : ℕ) (xs : List ℕ) → k < slab_header_size → Apart slab xs → NotIn (slab + k) xs
header-NotIn slab k [] h a = tt
header-NotIn slab k (x ∷ xs) h a = (omega arith, header-NotIn slab k xs h a.2)

-- The words of a header lie apart.
words_apart : (slab : ℕ) → (slab + 4 ≢ slab + 16) × (slab + 16 ≢ slab + 4)
words_apart slab = (omega arith, omega arith)

-- Setting the head of the free list, then the count of free objects.
header-FreeList :
    (slab p c : ℕ) (xs : List ℕ) (m : Mem)
    → Apart slab xs
    → FreeList m p xs
    → let m' = write (write m (free_list_at slab) p) (free_objects_at slab) c in
      FreeList m' (m' (free_list_at slab)) xs
header-FreeList slab p c xs m a l =
    rw
      (
        write_ne (write m (slab + 4) p) (slab + 16) c (slab + 4) (words_apart slab).0,
        write_self m (slab + 4) p,
      )
      (FreeList-write (write m (slab + 4) p) p (slab + 16) c xs
        (header-NotIn slab 16 xs (omega arith) a)
        (FreeList-write m p (slab + 4) p xs (header-NotIn slab 4 xs (omega arith) a) l))

sub32-suc : (n : ℕ) → suc n < u32_mod → sub32 (suc n) 1 ≡ n
sub32-suc n h = omega arith

add32-suc : (n : ℕ) → suc n < u32_mod → add32 n 1 ≡ suc n
add32-suc n h = omega arith

-- Taking an object off a slab with the free nodes `x ∷ xs` gives the object behind `x` and leaves
-- `xs`.
pub take_object-HasFree :
    (slab x : ℕ) (xs : List ℕ) (m : Mem)
    → length (x ∷ xs) < u32_mod
    → HasFree slab (x ∷ xs) m
    → ((take_object slab m).0 ≡ add32 x pointer_size) × HasFree slab xs (take_object slab m).1
unfolding take_object
take_object-HasFree slab x xs m small f = (
  ap (λ (k : ℕ). add32 k pointer_size) f.chain.0,
  record {
    chain =
        header-FreeList slab (m (m (free_list_at slab))) _ xs m f.apart.2 (rw f.chain.0 f.chain.2);
    apart = f.apart.2;
    count =
        rw
          (
            write_self _ (slab + 16) _,
            write_ne m (slab + 4) (m (m (slab + 4))) (slab + 16) (words_apart slab).1,
            f.count,
          )
          (sub32-suc (length xs) small);
  },
)

-- Giving back an object of the slab whose node is not free puts the node in front.
pub put_object-HasFree :
    (slab node : ℕ) (xs : List ℕ) (m : Mem)
    → length (node ∷ xs) < u32_mod
    → node + pointer_size < u32_mod
    → Apart slab (node ∷ xs)
    → HasFree slab xs m
    → HasFree slab (node ∷ xs) (put_object (node + pointer_size) slab m)
unfolding put_object
put_object-HasFree slab node xs m small below apart f =
    let w = write m node (m (free_list_at slab)) in
    let at : sub32 (node + 4) 4 ≡ node = omega arith in
    rw at (record {
      chain = header-FreeList slab node _ (node ∷ xs) w apart (
        refl,
        omega (arith, apart.0),
        rw (write_self m node (m (slab + 4)))
            (FreeList-write m (m (slab + 4)) node (m (slab + 4)) xs apart.1 f.chain),
      );
      apart = apart;
      count =
          rw
            (
              write_self _ (slab + 16) _,
              write_ne w (slab + 4) node (slab + 16) (words_apart slab).1,
              write_ne m node (m (slab + 4)) (slab + 16) (omega (arith, apart.0)),
              f.count,
            )
            (add32-suc (length xs) small);
    })

-- An object below 2 ^ 32 of the slab that is given back, its node apart from the free ones, is the next one that the slab hands out, and the free nodes are then
-- those from before.
pub take_object-put_object :
    (slab node : ℕ) (xs : List ℕ) (m : Mem)
    → length (node ∷ xs) < u32_mod
    → node + pointer_size < u32_mod
    → Apart slab (node ∷ xs)
    → HasFree slab xs m
    → let r = take_object slab (put_object (node + pointer_size) slab m) in
      (r.0 ≡ node + pointer_size) × HasFree slab xs r.1
take_object-put_object slab node xs m small below apart f =
    let taken =
      take_object-HasFree slab node xs (put_object (node + pointer_size) slab m) small
        (put_object-HasFree slab node xs m small below apart f) in
    let at : add32 node 4 ≡ node + 4 = omega arith in (taken.0 ∙ at, taken.1)
