-- ===== src/Slab/Freed.antt =====
-- `slab_free`: the slab that the object lies in is found, and the object put back into it.
use riscy_os.Base.{
  ℕ, zero, suc, ◌+◌, ◌*◌, ◌%◌, ◌≤◌, ◌<◌, ◌≡◌, refl, ◌∙◌, ◌≢◌, ◌⊎◌, Bool, true, false, some, List,
  [], ◌∷◌, ◌++◌, arith, ◌==◌, if◌then◌else◌, length, Mem, write, write_ne, add32, sub32, u32_mod,
}
use riscy_os.Slab.{
  slab_header_size, object_size_at, total_objects_at, next_at, free_list_at, free_objects_at,
  pointer_size, belongs, put_object, drop_free_slab, slab_free_loop, slab_free,
}
use riscy_os.Slab.FreeList.{NotIn, Apart, HasFree, put_object-HasFree}
use riscy_os.Slab.Links.{Slabs, AllApart, Slabs-write}
use riscy_os.Slab.Collect.{count_full, Dropped, drop_free_slab_collects}

-- Where the nodes of a slab end.
abbrev pub slab_end : Mem → ℕ → ℕ
slab_end m slab =
    slab + slab_header_size + m (total_objects_at slab) * (pointer_size + m (object_size_at slab))

-- The slab ends below 2 ^ 32, and the object lies among its nodes, or does not.
abbrev pub LiesIn : ℕ → Mem → ℕ → Type 0
LiesIn obj m slab =
    (slab_end m slab < u32_mod) × (slab + slab_header_size ≤ obj) × (obj < slab_end m slab)

abbrev pub LiesOutside : ℕ → Mem → ℕ → Type 0
LiesOutside obj m slab =
    (slab_end m slab < u32_mod) × ((obj < slab + slab_header_size) ⊎ (slab_end m slab ≤ obj))

abbrev pub AllOutside : ℕ → Mem → List ℕ → Type 0
AllOutside obj m [] = Unit {0}
AllOutside obj m (x ∷ xs) = LiesOutside obj m x × AllOutside obj m xs

end_below :
    (slab size n : ℕ)
    → slab + slab_header_size + n * (pointer_size + size) < u32_mod
    → add32 (add32 slab slab_header_size) (add32 pointer_size size * n % u32_mod)
      ≡ slab + slab_header_size + n * (pointer_size + size)
end_below slab size zero fits = omega arith
end_below slab size (suc k) fits =
    let node : add32 4 size ≡ 4 + size = omega arith in rw node (omega arith)

belongs_inside : (obj slab : ℕ) (m : Mem) → LiesIn obj m slab → belongs obj slab m ≡ true
unfolding belongs
belongs_inside obj slab m (fits, low, high) =
    let start : add32 slab 20 ≡ slab + 20 = omega arith in
    let end = end_below slab (m (object_size_at slab)) (m (total_objects_at slab)) fits in
    rw (end, start) (ground arith)

belongs_outside : (obj slab : ℕ) (m : Mem) → LiesOutside obj m slab → belongs obj slab m ≡ false
unfolding belongs
belongs_outside obj slab m (fits, away) =
    let start : add32 slab 20 ≡ slab + 20 = omega arith in
    let end = end_below slab (m (object_size_at slab)) (m (total_objects_at slab)) fits in
    rw (end, start) (ground (arith, away))

==_ne : (a b : ℕ) → a ≢ b → (a == b) ≡ false
==_ne a b ne = ground arith

slab_free_loop-step :
    (m : Mem) (fuel head slab obj : ℕ) (b : Bool)
    → slab ≢ 0
    → belongs obj slab m ≡ b
    → slab_free_loop (suc fuel) head slab obj m ≡ (
        if b
        then drop_free_slab (suc fuel) head (put_object obj slab m)
        else slab_free_loop fuel head (m (next_at slab)) obj m)
unfolding slab_free_loop
slab_free_loop-step m fuel head slab obj b live e = rw (==_ne slab 0 live, e) refl

-- The loop comes to the slab that the object lies in.
slab_free_loop-finds :
    (m : Mem) (fuel search head p obj owner : ℕ) (front bs : List ℕ)
    → search ≡ length front + suc fuel
    → Slabs m p (front ++ (owner ∷ bs))
    → AllOutside obj m front
    → LiesIn obj m owner
    → slab_free_loop search head p obj m ≡ drop_free_slab (suc fuel) head (put_object obj owner m)
slab_free_loop-finds m fuel search head p obj owner [] bs steps links outside inside =
    let one : search ≡ suc fuel = omega (arith, steps) in
    rw (one, links.0)
      (slab_free_loop-step m fuel head owner obj true links.1 (belongs_inside obj owner m inside))
slab_free_loop-finds m fuel search head p obj owner (x ∷ front) bs steps links outside inside =
    let one : search ≡ suc (length front + suc fuel) = omega (arith, steps) in
    rw (one, links.0)
      (slab_free_loop-step m (length front + suc fuel) head x obj false links.1
          (belongs_outside obj x m outside.0)
        ∙ slab_free_loop-finds m fuel (length front + suc fuel) head (m x) obj owner front bs refl
            links.2 outside.1 inside)

put_object-Slabs :
    (m : Mem) (p obj owner : ℕ) (slabs : List ℕ)
    → NotIn (sub32 obj pointer_size) slabs
    → NotIn (free_list_at owner) slabs
    → NotIn (free_objects_at owner) slabs
    → Slabs m p slabs
    → Slabs (put_object obj owner m) p slabs
unfolding put_object
put_object-Slabs m p obj owner slabs node free_list free_objects links =
    let node_at = sub32 obj pointer_size in
    let m₁ = write m node_at (m (free_list_at owner)) in
    let m₂ = write m₁ (free_list_at owner) node_at in
    Slabs-write m₂ p (free_objects_at owner) (add32 (m₂ (free_objects_at owner)) 1) slabs
      free_objects
      (Slabs-write m₁ p (free_list_at owner) node_at slabs free_list
        (Slabs-write m p node_at (m (free_list_at owner)) slabs node links))

put_object-other :
    (m : Mem) (obj owner x : ℕ)
    → x ≢ sub32 obj pointer_size
    → x ≢ free_list_at owner
    → x ≢ free_objects_at owner
    → put_object obj owner m x ≡ m x
unfolding put_object
put_object-other m obj owner x node free_list free_objects =
    let w = write m (sub32 obj 4) (m (owner + 4)) in
    write_ne _ (owner + 16) _ x free_objects
    ∙ write_ne w (owner + 4) (sub32 obj 4) x free_list
    ∙ write_ne m (sub32 obj 4) (m (owner + 4)) x node

-- An object that lies behind `node` is given to `slab_free`, in a list of slabs at different
-- addresses: it lies in the slab `owner` of the list, whose free list is known and does not have the
-- node, and in none before it, where all these end below 2 ^ 32; no slab is at the node or in the
-- words of `owner` that the free list is kept in. With fuel for the list behind the slabs before
-- `owner`, `slab_free` ends. The node is then the first of the free list of `owner`, with the others
-- behind it, and counted; no other word has changed but, where at least two slabs are now fully free,
-- the link to the last of these: the list leads through all slabs but this one, which is given to
-- `kfree`.
pub slab_free_collects :
    (m : Mem) (fuel head node owner : ℕ) (front bs free : List ℕ)
    → Slabs m head (front ++ (owner ∷ bs))
    → AllApart (front ++ (owner ∷ bs))
    → AllOutside (node + pointer_size) m front
    → LiesIn (node + pointer_size) m owner
    → HasFree owner free m
    → Apart owner (node ∷ free)
    → length (node ∷ free) < u32_mod
    → NotIn node (front ++ (owner ∷ bs))
    → NotIn (free_list_at owner) (front ++ (owner ∷ bs))
    → NotIn (free_objects_at owner) (front ++ (owner ∷ bs))
    → length (front ++ (owner ∷ bs)) ≤ suc fuel
    → let slabs = front ++ (owner ∷ bs) in
      let result = slab_free (length front + suc fuel) head (node + pointer_size) m in
      (m' : Mem) × HasFree owner (node ∷ free) m'
      × ((x : ℕ) → x ≢ node → x ≢ free_list_at owner → x ≢ free_objects_at owner → m' x ≡ m x)
      × Slabs m' head slabs
      × (((count_full m' slabs < 2) × (result ≡ some (m', 0)))
          ⊎ ((2 ≤ count_full m' slabs) × Dropped m' head slabs result))
unfolding slab_free
slab_free_collects m fuel head node owner front bs free links apart outside inside kept node_apart
      few node_free list_free count_free enough =
    let slabs = front ++ (owner ∷ bs) in
    let obj = node + pointer_size in
    let at : sub32 obj pointer_size ≡ node = omega (arith, inside.0, inside.2) in
    let m' = put_object obj owner m in
    let linked =
      put_object-Slabs m head obj owner slabs (rw at node_free) list_free count_free links in
    (
      m',
      put_object-HasFree owner node free m few (omega (arith, inside.0, inside.2)) node_apart kept,
      λ x a b c. put_object-other m obj owner x (rw at a) b c,
      linked,
      rw
          (slab_free_loop-finds m fuel (length front + suc fuel) head head obj owner front bs refl
            links outside inside)
          (drop_free_slab_collects m' (suc fuel) head slabs apart linked enough),
    )
