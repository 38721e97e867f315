-- ===== src/Slab/Create.antt =====
-- A new slab: its header, and the list of all its nodes.
use mathlib.Core.Path.{subst}
use riscy_os.Base.{
  ℕ, zero, suc, ◌+◌, ◌-◌, ◌*◌, ◌≤◌, ◌<◌, ◌≡◌, refl, sym, ap, ◌∙◌, ◌≢◌, List, [], ◌∷◌, arith, ◌==◌,
  length, Mem, write, write_self, write_ne, u32_mod, add32, sub32, false,
}
use riscy_os.Slab.{
  free_list_at, free_objects_at, total_objects_at, object_size_at, next_at, slab_header_size,
  pointer_size, link_nodes, init_header, slab_size, slab_alloc_new,
}
use riscy_os.Slab.FreeList.{FreeList, NotIn, Apart, HasFree}

-- The node at `a` and `k` more, each `size` bytes behind the one before.
abbrev pub nodes_from : (k a size : ℕ) → List ℕ
nodes_from zero a size = a ∷ []
nodes_from (suc k) a size = a ∷ nodes_from k (a + size) size

length-nodes_from : (k a size : ℕ) → length (nodes_from k a size) ≡ suc k
length-nodes_from zero a size = refl
length-nodes_from (suc k) a size = ap suc (length-nodes_from k (a + size) size)

nodes_from-NotIn : (k a size x : ℕ) → x < a → NotIn x (nodes_from k a size)
nodes_from-NotIn zero a size x h = (omega arith, tt)
nodes_from-NotIn (suc k) a size x h =
    (omega arith, nodes_from-NotIn k (a + size) size x (omega arith))

nodes_from-Apart :
    (k a size slab : ℕ) → slab + slab_header_size ≤ a → 0 < size → Apart slab (nodes_from k a size)
nodes_from-Apart zero a size slab h s = (h, tt, tt)
nodes_from-Apart (suc k) a size slab h s = (
  h,
  nodes_from-NotIn k (a + size) size a (omega arith),
  nodes_from-Apart k (a + size) size slab (omega arith) s,
)

-- A round of the loop whose next node lies below 2 ^ 32.
link_nodes-suc :
    (k a size : ℕ) (m : Mem)
    → a + size < u32_mod
    → link_nodes (suc k) a size m ≡ link_nodes k (a + size) size (write m a (a + size))
unfolding link_nodes
link_nodes-suc k a size m fits = let next : add32 a size ≡ a + size = omega arith in rw next refl

link_nodes-below :
    (k a size x : ℕ) (m : Mem) → x < a → a + k * size < u32_mod → link_nodes k a size m x ≡ m x
link_nodes-below zero a size x m h fits = unfold link_nodes in write_ne m a 0 x (omega arith)
link_nodes-below (suc k) a size x m h fits =
    rw
      (
        link_nodes-suc k a size m (omega arith),
        link_nodes-below k (a + size) size x (write m a (a + size)) (omega arith) (omega arith),
      )
      (write_ne m a (a + size) x (omega arith))

link_nodes-FreeList :
    (k a size : ℕ) (m : Mem)
    → a ≢ 0
    → 0 < size
    → a + k * size < u32_mod
    → FreeList (link_nodes k a size m) a (nodes_from k a size)
link_nodes-FreeList zero a size m ne s fits = (refl, ne, unfold link_nodes in write_self m a 0)
link_nodes-FreeList (suc k) a size m ne s fits =
    let w = write m a (a + size) in
    let linked : link_nodes k (a + size) size w a ≡ a + size =
      link_nodes-below k (a + size) size a w (omega arith) (omega arith)
      ∙ write_self m a (a + size) in
    let rest : FreeList (link_nodes k (a + size) size w) (a + size) (nodes_from k (a + size) size) =
      link_nodes-FreeList k (a + size) size w (omega arith) s (omega arith) in
    subst (λ (m' : Mem). FreeList m' a (nodes_from (suc k) a size))
      (sym (link_nodes-suc k a size m (omega arith))) (refl, ne, rw linked rest)

-- What the header of a new slab holds; nothing in front of it is written.
header_words :
    (slab head size n : ℕ) (m : Mem)
    → let m' = init_header slab head size n m in
      (m' (next_at slab) ≡ head)
      × (m' (free_list_at slab) ≡ add32 slab slab_header_size)
      × (m' (object_size_at slab) ≡ size)
      × (m' (total_objects_at slab) ≡ n)
      × (m' (free_objects_at slab) ≡ n)
unfolding init_header write
header_words slab head size n m =
    (ground arith, ground arith, ground arith, ground arith, ground arith)

-- With memory from `kmalloc`, at least one object and a slab that ends below 2 ^ 32, its header and
-- a node's size for each object: `slab_alloc_new` asks `kmalloc` for just that many bytes, answers
-- the slab and makes it the head, with the old head behind it; its header holds the sizes, and all
-- its objects are free: the free list leads through one node for each, from the end of the header
-- on, a node's size apart.
pub slab_alloc_new_correct :
    (kmalloc : ℕ → ℕ) (slab head size n : ℕ) (m : Mem)
    → kmalloc (slab_size size n) ≡ slab
    → slab ≢ 0
    → 0 < n
    → slab + slab_header_size + n * (pointer_size + size) < u32_mod
    → let r = slab_alloc_new kmalloc head size n m in
      (slab_size size n ≡ slab_header_size + n * (pointer_size + size))
      × (r.0 ≡ slab)
      × (r.1 ≡ slab)
      × HasFree slab (nodes_from (n - 1) (slab + slab_header_size) (pointer_size + size)) r.2
      × (r.2 (next_at slab) ≡ head)
      × (r.2 (object_size_at slab) ≡ size)
      × (r.2 (total_objects_at slab) ≡ n)
unfolding slab_alloc_new
slab_alloc_new_correct kmalloc slab head size zero m allocated ne some_objects fits =
    absurd (omega arith)
slab_alloc_new_correct kmalloc slab head size (suc k) m allocated ne some_objects fits =
    let n = suc k in
    let there : (slab == 0) ≡ false = ground arith in
    let count : sub32 n 1 ≡ k = omega arith in
    let pred : n - 1 ≡ k = omega arith in
    let node : add32 4 size ≡ 4 + size = omega arith in
    let start : add32 slab 20 ≡ slab + 20 = omega arith in
    let last : slab + 20 + k * (4 + size) < u32_mod = omega arith in
    let h = header_words slab head size n m in
    let m' = init_header slab head size n m in
    let low : (x : ℕ) → x < slab + 20 → link_nodes k (slab + 20) (4 + size) m' x ≡ m' x =
      λ x l. link_nodes-below k (slab + 20) (4 + size) x m' l last in
    rw (allocated, there, count, pred, node, start)
      (
        unfold slab_size in rw node (omega arith),
        refl,
        refl,
        record {
          chain =
              rw (low (slab + 4) (omega arith), h.1, start)
                (link_nodes-FreeList k (slab + 20) (4 + size) m' (omega arith) (omega arith) last);
          apart = nodes_from-Apart k (slab + 20) (4 + size) slab (omega arith) (omega arith);
          count =
              rw (low (slab + 16) (omega arith), h.4)
                (omega (arith, length-nodes_from k (slab + 20) (4 + size)));
        },
        rw (low slab (omega arith)) h.0,
        rw (low (slab + 8) (omega arith)) h.2,
        rw (low (slab + 12) (omega arith)) h.3,
      )
