-- ===== src/Kmem.antt =====
-- The kernel heap of kernel/memory/kmem.c, over the words of memory that hold block headers.
-- `kernel_heap_start` and `kernel_heap_end` are the parameters `lo` and `hi`. A loop takes fuel
-- and answers `none` when it runs out; a pointer is its address, and 0 is NULL.
pub mod Blocks
pub mod Layout
pub mod Alloc
pub mod Free
pub mod Heap
pub mod Correct
mod Tests
use riscy_os.Base.{
  ℕ, zero, suc, ◌+◌, ◌-◌, ◌%◌, Bool, true, false, not, ◌&&◌, ◌||◌, Option, none, some, ltb, leb,
  ◌==◌, if◌then◌else◌, Mem, write, add32, sub32,
}

-- x & ~1 and x & 1, on a header word.
abbrev pub get_size : ℕ → ℕ
get_size w = w - w % 2

abbrev pub is_used : ℕ → Bool
is_used w = w % 2 == 1

-- x | 1
abbrev pub with_used : ℕ → ℕ
with_used w = w - w % 2 + 1

-- ALIGN4, in uint32_t arithmetic
unfoldable pub align4 : ℕ → ℕ
align4 x = let y = add32 x 3 in y - y % 4

-- sizeof(heap_header_t)
abbrev pub header_size : ℕ
header_size = 4

pub set_used : Mem → ℕ → Mem
set_used m p = write m p (with_used (m p))

pub set_free : Mem → ℕ → Mem
set_free m p = write m p (get_size (m p))

-- SET_SIZE(h, s): s | (the flag that h has)
pub set_size : Mem → ℕ → ℕ → Mem
set_size m p s = write m p (if is_used (m p) then with_used s else s)

pub kheap_init : (lo hi : ℕ) → Mem → Mem
unfolding set_free
kheap_init lo hi m = set_free (write m lo (sub32 (sub32 hi lo) header_size)) lo

-- The block at `current` is cut behind `size` bytes; the rest becomes a free block.
pub split_block : (size current : ℕ) → Mem → Mem
unfolding set_free set_size
split_block size current m =
    let next = add32 (add32 current header_size) size in
    let rest = sub32 (sub32 (get_size (m current)) size) header_size in
    set_size (set_free (write m next rest) next) current size

-- The body of `kmalloc` once a block fits: split it if what is left can hold a block, and take it.
pub take_block : (size current : ℕ) → Mem → Mem
unfolding split_block set_used
take_block size current m =
    let room = leb (add32 (add32 size header_size) 4) (get_size (m current)) in
    set_used (if room then split_block size current m else m) current

-- The loop of `kmalloc`: the address that is returned, and memory.
pub kmalloc_loop : (hi size fuel current : ℕ) → Mem → Option (ℕ × Mem)
kmalloc_loop hi size zero current m = none
kmalloc_loop hi size (suc fuel) current m =
    let rest =
      kmalloc_loop hi size fuel (add32 (add32 current header_size) (get_size (m current))) m in
    if not (ltb current hi)
    then some (0, m)
    else if not (is_used (m current)) && leb size (get_size (m current))
    then some (add32 current header_size, take_block size current m)
    else rest

pub kmalloc : (lo hi fuel size : ℕ) → Mem → Option (ℕ × Mem)
unfolding kmalloc_loop
kmalloc lo hi fuel size m = kmalloc_loop hi (align4 size) fuel lo m

-- The traversal of `kfree`.
pub coalesce_loop : (hi fuel current : ℕ) → Mem → Option Mem
coalesce_loop hi zero current m = none
coalesce_loop hi (suc fuel) current m =
    let next = add32 (add32 current header_size) (get_size (m current)) in
    let new_size = add32 (add32 (get_size (m current)) header_size) (get_size (m next)) in
    let merged = coalesce_loop hi fuel current (write m current new_size) in
    let forward = coalesce_loop hi fuel next m in
    if not (ltb current hi)
    then some m
    else if leb hi next
    then some m
    else if not (is_used (m current)) && not (is_used (m next))
    then merged
    else forward

pub kfree : (lo hi fuel ptr : ℕ) → Mem → Option Mem
unfolding coalesce_loop set_free
kfree lo hi fuel ptr m =
    if ptr == 0 then some m else coalesce_loop hi fuel lo (set_free m (sub32 ptr header_size))
