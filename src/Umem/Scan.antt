-- ===== src/Umem/Scan.antt =====
-- First fit over the bitmap.
use riscy_os.Base.{
  ℕ, zero, suc, ◌+◌, ◌-◌, ◌*◌, ◌/◌, ◌≤◌, ◌<◌, ◌≡◌, refl, ◌≢◌, ◌⊎◌, inl, inr, true, false, ◌||◌,
  arith, leb, ◌==◌, if◌then◌else◌, Bool-cases, Mem, u32_mod,
}
use riscy_os.Umem.{user_ram_start, min_block_size, bit_set, mark_bits_free, scan, ualloc_try_block}
use riscy_os.Umem.Bits.{
  IsBytes, in_run, bit_set-mark_bits_used, bit_set-mark_bits_free, mark_bits_used-IsBytes,
}

-- The `n` bits from `s` on are free.
abbrev pub FreeRun : Mem → ℕ → ℕ → Type 0
FreeRun m s n = (j : ℕ) → s ≤ j → j < s + n → bit_set m j ≡ false

-- The `n` bits from `start` on are the first free run below bit `hi`, and these are taken.
pub record Found (hi n : ℕ) (m : Mem) (r : ℕ × Mem) : Type 0 where
  pub start : ℕ
  pub address : r.0 ≡ user_ram_start + start * min_block_size
  pub inside : start + n ≤ hi
  pub free : FreeRun m start n
  pub first : (s : ℕ) → s < start → ¬ FreeRun m s n
  pub marked : (j : ℕ) → bit_set r.1 j ≡ (in_run start n j || bit_set m j)
  pub bytes : IsBytes r.1

-- There is no free run below bit `hi`: nothing is taken.
pub record Missing (hi n : ℕ) (m : Mem) (r : ℕ × Mem) : Type 0 where
  pub null : r.0 ≡ 0
  pub none_free : (s : ℕ) → s + n ≤ hi → ¬ FreeRun m s n
  pub same : r.1 ≡ m

-- What the loop knows at bit `i`, with `run` free bits just before it.
record Scanned (n i run start : ℕ) (m : Mem) : Type 0 where
  short : run < n
  fits : run ≤ i
  begins : 0 < run → start + run ≡ i
  free : (j : ℕ) → i ≤ j + run → j < i → bit_set m j ≡ false
  blocked : (j : ℕ) → j + run + 1 ≡ i → bit_set m j ≡ true
  none_free : (s : ℕ) → s + n ≤ i → ¬ FreeRun m s n

Scanned-used :
    {n i run start : ℕ} {m : Mem}
    → Scanned n i run start m
    → bit_set m i ≡ true
    → Scanned n (i + 1) 0 start m
Scanned-used {n} {i} {run} {start} {m} k u = record {
  short = omega (arith, k.short);
  fits = omega arith;
  begins = λ h. absurd (omega arith);
  free = λ j h g. absurd (omega arith);
  blocked = λ j h. let e : j ≡ i = omega arith in rw e u;
  none_free = λ s h f. elim (Bool-cases (leb (s + n) i)) [
    | inl old ↦ k.none_free s (ground arith) f
    | inr new ↦ let free : bit_set m i ≡ false = f i (ground (arith, k.short)) (ground arith) in cc
  ];
}

free_to :
    {n i run start : ℕ} {m : Mem}
    → Scanned n i run start m
    → bit_set m i ≡ false
    → (j : ℕ) → i ≤ j + run
    → j ≤ i
    → bit_set m j ≡ false
free_to {i} k u j a b = elim (Bool-cases (j == i)) [
  | inl e ↦ let e' : j ≡ i = ground arith in rw e' u
  | inr e ↦ k.free j a (ground arith)
]

Scanned-free :
    {n i run start : ℕ} {m : Mem}
    → Scanned n i run start m
    → bit_set m i ≡ false
    → run + 1 ≢ n
    → Scanned n (i + 1) (run + 1) (if run == 0 then i else start) m
Scanned-free {n} {i} {run} {start} {m} k u ne = record {
  short = omega (arith, k.short);
  fits = omega (arith, k.fits);
  begins = λ h. ground (arith, k.begins);
  free = λ j h g. free_to k u j (omega arith) (omega arith);
  blocked = λ j h. k.blocked j (omega arith);
  none_free = λ s h f. elim (Bool-cases (leb (s + n) i)) [
    | inl old ↦ k.none_free s (ground arith) f
    | inr new ↦
        let e : s + n ≡ i + 1 = ground arith in
        let short = k.short in
        let free : bit_set m (i - run - 1) ≡ false = f (i - run - 1) (omega arith) (omega arith) in
        let used : bit_set m (i - run - 1) ≡ true = k.blocked (i - run - 1) (omega arith) in cc
  ];
}

scan_lem :
    (n hi rounds i run start : ℕ) (m : Mem)
    → IsBytes m
    → Scanned n i run start m
    → i + rounds ≡ hi
    → Found hi n m (scan rounds i run start n m) ⊎ Missing hi n m (scan rounds i run start n m)
unfolding scan
scan_lem n hi zero i run start m v k e =
    inr (record { null = refl; none_free = λ s h. k.none_free s (omega arith); same = refl })
scan_lem n hi (suc rounds) i run start m v k e = elim (Bool-cases (bit_set m i)) [
  | inl u ↦ rw u (scan_lem n hi rounds (i + 1) 0 start m v (Scanned-used k u) (omega arith))
  | inr u ↦ elim (Bool-cases (run + 1 == n)) [
    | inl done ↦
        let start' = if run == 0 then i else start in
        let short = k.short in
        let fits = k.fits in
        let at : start' + run ≡ i = ground (arith, k.begins) in
        let last : run + 1 ≡ n = ground arith in
        rw (u, done)
          (inl (record {
            start = start';
            address = refl;
            inside = omega arith;
            free = λ j a b. free_to k u j (omega arith) (omega arith);
            first = λ s a. k.none_free s (omega arith);
            marked = λ j. bit_set-mark_bits_used start' n j m v;
            bytes = mark_bits_used-IsBytes start' n m v;
          }))
    | inr more ↦
        rw (u, more)
          (scan_lem n hi rounds (i + 1) (run + 1) (if run == 0 then i else start) m v
            (Scanned-free k u (ground arith)) (omega arith))
  ]
]

-- For a count of at least one bit, `ualloc_try_block` finds the lowest run of that many free bits
-- among the 4096 and answers the address that its first bit stands for, with exactly these bits
-- marked besides those that were; if there is no such run, it answers NULL and changes no bit.
pub ualloc_try_block_correct :
    (n : ℕ) (m : Mem)
    → 0 < n
    → IsBytes m
    → Found 4096 n m (ualloc_try_block n m) ⊎ Missing 4096 n m (ualloc_try_block n m)
unfolding ualloc_try_block
ualloc_try_block_correct n m h v =
    scan_lem n 4096 4096 0 0 (u32_mod - 1) m v
      (record {
        short = h;
        fits = omega arith;
        begins = λ a. absurd (omega arith);
        free = λ j a b. absurd (omega arith);
        blocked = λ j a. absurd (omega arith);
        none_free = λ s a. absurd (omega arith);
      })
      refl

free-Found :
    (n : ℕ) (m : Mem) (f : Found 4096 n m (ualloc_try_block n m)) (j : ℕ)
    → bit_set (mark_bits_free f.start n (ualloc_try_block n m).1) j ≡ bit_set m j
free-Found n m f j = ground (
  arith,
  bit_set-mark_bits_free f.start n j (ualloc_try_block n m).1 f.bytes,
  f.marked j,
  f.free j,
)

-- If `ualloc_try_block` answers an address for a count of at least one bit, then `mark_bits_free` of
-- that many bits from the bit of this address on restores every bit of the bitmap.
pub mark_bits_free-ualloc_try_block :
    (n : ℕ) (m : Mem)
    → 0 < n
    → IsBytes m
    → (ualloc_try_block n m).0 ≢ 0
    → (j : ℕ)
    → let r = ualloc_try_block n m in
      bit_set (mark_bits_free ((r.0 - user_ram_start) / min_block_size) n r.1) j ≡ bit_set m j
mark_bits_free-ualloc_try_block n m h v taken j = elim (ualloc_try_block_correct n m h v) [
  | inl f ↦
      (let at : ((ualloc_try_block n m).0 - user_ram_start) / min_block_size ≡ f.start =
          omega (arith, f.address) in
        rw at (free-Found n m f j))
  | inr none_fits ↦ absurd (taken none_fits.null)
]
