-- ===== src/Slab.antt =====
-- The slab allocator of kernel/slab_allocator.c over words of memory: a slab header is the five words
-- next, free_list, object_size, total_objects and free_objects, a node is the word next_free with the
-- object behind it. Sizes are multiples of four, so that no two words overlap. Sizes and addresses of
-- nodes and objects are computed in 32 bits. `kmalloc` is an argument, a function of the size that it
-- is asked for. `*head` is passed in and returned; 0 is NULL.
pub mod FreeList
pub mod Create
pub mod Links
pub mod Collect
pub mod Freed
mod Tests
use riscy_os.Base.{
  ℕ, zero, suc, ◌+◌, ◌-◌, ◌*◌, ◌/◌, ◌%◌, ◌^◌, ◌≤◌, ◌<◌, ◌≡◌, refl, sym, ap, ◌∙◌, ◌≢◌, ◌↔◌, ◌⊎◌, inl,
  inr, Bool, true, false, not, ◌&&◌, ◌||◌, Option, none, some, List, [], ◌∷◌, ◌++◌, arith, ltb, leb,
  ◌==◌, ==_iff, if◌then◌else◌, Bool-cases, some_pair, length, get_or, set, length-append,
  length-set, get_or-set_self, get_or-set_ne, Mem, write, write_self, write_ne, u32_mod, add32,
  sub32,
}

-- The fields of the header at `slab`, as addresses.
abbrev pub next_at : ℕ → ℕ
next_at slab = slab

abbrev pub free_list_at : ℕ → ℕ
free_list_at slab = slab + 4

abbrev pub object_size_at : ℕ → ℕ
object_size_at slab = slab + 8

abbrev pub total_objects_at : ℕ → ℕ
total_objects_at slab = slab + 12

abbrev pub free_objects_at : ℕ → ℕ
free_objects_at slab = slab + 16

-- sizeof(slab_header_t) and sizeof(slab_node_t*)
abbrev pub slab_header_size : ℕ
slab_header_size = 20

abbrev pub pointer_size : ℕ
pointer_size = 4

-- The loop that links the nodes: `rounds` more links from the current node on, then NULL.
unfoldable pub link_nodes : (rounds current_node node_size : ℕ) → Mem → Mem
link_nodes zero node size m = write m node 0
link_nodes (suc k) node size m =
    let next = add32 node size in link_nodes k next size (write m node next)

-- The writes of `slab_alloc_new` to its header.
unfoldable pub init_header : (slab head object_size num_objects : ℕ) → Mem → Mem
init_header slab head size n m =
    let m₁ = write m (object_size_at slab) size in
    let m₂ = write m₁ (total_objects_at slab) n in
    let m₃ = write m₂ (free_objects_at slab) n in
    let m₄ = write m₃ (next_at slab) head in
    write m₄ (free_list_at slab) (add32 slab slab_header_size)

-- What `slab_alloc_new` asks of `kmalloc`.
unfoldable pub slab_size : (object_size num_objects : ℕ) → ℕ
slab_size size n = add32 slab_header_size (add32 pointer_size size * n % u32_mod)

-- `slab_alloc_new`: the slab, `*head` and memory.
unfoldable pub slab_alloc_new :
    (kmalloc : ℕ → ℕ) → (head object_size num_objects : ℕ) → Mem → ℕ × ℕ × Mem
slab_alloc_new kmalloc head size n m =
    let slab = kmalloc (slab_size size n) in
    if slab == 0 then (0, head, m) else (
      slab,
      slab,
      link_nodes (sub32 n 1) (add32 slab slab_header_size) (add32 pointer_size size)
          (init_header slab head size n m),
    )

-- The first free node is taken off the slab's list: the object, and memory.
unfoldable pub take_object : (slab : ℕ) → Mem → ℕ × Mem
take_object slab m =
    let node = m (free_list_at slab) in
    let m' = write m (free_list_at slab) (m node) in
    (add32 node pointer_size, write m' (free_objects_at slab) (sub32 (m' (free_objects_at slab)) 1))

-- The loop of `slab_get` over the slabs, on fuel: the slab that has a free object, or 0.
unfoldable pub find_free : (fuel slab : ℕ) → Mem → Option ℕ
find_free zero slab m = if slab == 0 then some 0 else none
find_free (suc fuel) slab m =
    let rest = find_free fuel (m (next_at slab)) m in
    if slab == 0 then some 0 else if ltb 0 (m (free_objects_at slab)) then some slab else rest

-- `slab_get`: the object, `*head` and memory.
unfoldable pub slab_get : (kmalloc : ℕ → ℕ) → (fuel head : ℕ) → Mem → Option (ℕ × ℕ × Mem)
unfolding find_free slab_alloc_new take_object
slab_get kmalloc fuel head m =
    let found = find_free fuel head m in
    let new = slab_alloc_new kmalloc head (m (object_size_at head)) (m (total_objects_at head)) m in
    let grown : Option (ℕ × ℕ × Mem) =
      if new.0 == 0
      then some (0, new.1, new.2)
      else (let o = take_object new.0 new.2 in some (o.0, new.1, o.1)) in
    if head == 0 then some (0, head, m) else elim found [
      | none ↦ none
      | some slab ↦
          if slab == 0 then grown else (let o = take_object slab m in some (o.0, head, o.1))
    ]

-- `obj` lies among the nodes of the slab.
unfoldable pub belongs : (obj slab : ℕ) → Mem → Bool
belongs obj slab m =
    let start = add32 slab slab_header_size in
    let node_size = add32 pointer_size (m (object_size_at slab)) in
    let end = add32 start (node_size * m (total_objects_at slab) % u32_mod) in
    leb start obj && ltb obj end

-- The node of `obj` is put in front of the slab's free list.
unfoldable pub put_object : (obj slab : ℕ) → Mem → Mem
put_object obj slab m =
    let node = sub32 obj pointer_size in
    let m' = write (write m node (m (free_list_at slab))) (free_list_at slab) node in
    write m' (free_objects_at slab) (add32 (m' (free_objects_at slab)) 1)

-- The second loop of `slab_free`, on fuel: how many slabs are fully free, and the last of them with
-- the slab before it.
unfoldable pub count_free : (fuel tmp prev count target target_prev : ℕ) → Mem → Option (ℕ × ℕ × ℕ)
count_free zero tmp prev count target target_prev m =
    if tmp == 0 then some (count, target, target_prev) else none
count_free (suc fuel) tmp prev count target target_prev m =
    let full = m (free_objects_at tmp) == m (total_objects_at tmp) in
    let rest =
      count_free fuel (m (next_at tmp)) tmp (if full then count + 1 else count)
        (if full then tmp else target) (if full then prev else target_prev) m in
    if tmp == 0 then some (count, target, target_prev) else rest

-- What `slab_free` does once the object is back: memory, and the slab given to `kfree` (0 if none).
unfoldable pub drop_free_slab : (fuel head : ℕ) → Mem → Option (Mem × ℕ)
unfolding count_free
drop_free_slab fuel head m = elim (count_free fuel head 0 0 0 0 m) [
  | none ↦ none
  | some t ↦ if leb 2 t.0 then some (write m (next_at t.2) (m (next_at t.1)), t.1) else some (m, 0)
]

-- `slab_free`: its loop over the slabs, on fuel.
unfoldable pub slab_free_loop : (fuel head slab obj : ℕ) → Mem → Option (Mem × ℕ)
unfolding belongs put_object drop_free_slab
slab_free_loop zero head slab obj m = if slab == 0 then some (m, 0) else none
slab_free_loop (suc fuel) head slab obj m =
    let rest = slab_free_loop fuel head (m (next_at slab)) obj m in
    if slab == 0
    then some (m, 0)
    else if belongs obj slab m
    then drop_free_slab (suc fuel) head (put_object obj slab m)
    else rest

unfoldable pub slab_free : (fuel head obj : ℕ) → Mem → Option (Mem × ℕ)
unfolding slab_free_loop
slab_free fuel head obj m = slab_free_loop fuel head head obj m
