-- ===== src/Umem.antt =====
-- The bitmap allocator of user memory, kernel/memory/umem_alloc.c.
-- `alloc_bitmap` is a function from an index to its byte. Bit numbers and counts are not negative.
pub mod Bits
pub mod Scan
mod Tests
use riscy_os.Base.{
  ℕ, zero, suc, ◌+◌, ◌-◌, ◌*◌, ◌/◌, ◌%◌, ◌^◌, ◌≤◌, ◌<◌, ◌≡◌, refl, sym, ap, ◌∙◌, ◌≢◌, ◌↔◌, ◌⊎◌, inl,
  inr, Bool, true, false, not, ◌&&◌, ◌||◌, Option, none, some, List, [], ◌∷◌, ◌++◌, arith, ltb, leb,
  ◌==◌, ==_iff, if◌then◌else◌, Bool-cases, length, get_or, set, length-append, length-set,
  get_or-set_self, get_or-set_ne, Mem, write, write_self, write_ne, u32_mod, add32, sub32,
}
use Prim.Native.Nat.{bit_and, bit_or}

abbrev pub user_ram_start : ℕ
user_ram_start = 0x4_0000

abbrev pub alloc_array_byte_size : ℕ
alloc_array_byte_size = 512

-- The bytes of user memory behind each bit.
abbrev pub min_block_size : ℕ
min_block_size = 256 * 1024 / (alloc_array_byte_size * 8)

-- `alloc_bitmap[i / 8] & (1 << (i % 8))`, as a test
pub bit_set : Mem → ℕ → Bool
bit_set m i = not (bit_and (m (i / 8)) (2 ^ (i % 8)) == 0)

pub use_bit : Mem → ℕ → Mem
use_bit m bit = write m (bit / 8) (bit_or (m (bit / 8)) (2 ^ (bit % 8)))

-- `~(1 << k)` on a byte
pub free_bit : Mem → ℕ → Mem
free_bit m bit = write m (bit / 8) (bit_and (m (bit / 8)) (255 - 2 ^ (bit % 8)))

-- The loop of `mark_bits_used`, with the rounds that are left.
pub use_from : (rounds bit : ℕ) → Mem → Mem
use_from zero bit m = m
use_from (suc k) bit m = use_from k (bit + 1) (use_bit m bit)

pub mark_bits_used : (start_bit count : ℕ) → Mem → Mem
mark_bits_used start_bit count m = use_from count start_bit m

pub free_from : (rounds bit : ℕ) → Mem → Mem
free_from zero bit m = m
free_from (suc k) bit m = free_from k (bit + 1) (free_bit m bit)

pub mark_bits_free : (start_bit count : ℕ) → Mem → Mem
mark_bits_free start_bit count m = free_from count start_bit m

-- The scan of `ualloc_try_block` from bit `i` on: the address (0 is NULL) and the bitmap.
pub scan : (rounds i consecutive_zeros start_bit num_bits : ℕ) → Mem → ℕ × Mem
scan zero i run start n m = (0, m)
scan (suc k) i run start n m =
    let start' = if run == 0 then i else start in
    let found : ℕ × Mem = (user_ram_start + start' * min_block_size, mark_bits_used start' n m) in
    let longer = scan k (i + 1) (run + 1) start' n m in
    let reset = scan k (i + 1) 0 start n m in
    if not (bit_set m i) then (if run + 1 == n then found else longer) else reset

-- `start_bit` starts as -1, which is never read.
pub ualloc_try_block : (num_bits : ℕ) → Mem → ℕ × Mem
unfolding scan
ualloc_try_block n m = scan (alloc_array_byte_size * 8) 0 0 (u32_mod - 1) n m
