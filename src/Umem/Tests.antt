-- ===== src/Umem/Tests.antt =====
-- The bitmap with its first byte marked.
use riscy_os.Base.{◌+◌, ◌-◌, ◌*◌, ◌/◌, ◌≡◌, refl, ◌⊎◌, arith, ◌==◌, if◌then◌else◌, Mem}
use riscy_os.Umem.{bit_set, mark_bits_free, scan, ualloc_try_block, user_ram_start, min_block_size}
use riscy_os.Umem.Bits.{IsBytes}
use riscy_os.Umem.Scan.{Found, Missing, ualloc_try_block_correct, mark_bits_free-ualloc_try_block}

abbrev first_byte : Mem
first_byte i = if i == 0 then 255 else 0

first_byte-IsBytes : IsBytes first_byte
first_byte-IsBytes i = ground arith

ualloc_try_block_correct_example :
    Found 4096 3 first_byte (ualloc_try_block 3 first_byte)
    ⊎ Missing 4096 3 first_byte (ualloc_try_block 3 first_byte)
ualloc_try_block_correct_example =
    ualloc_try_block_correct 3 first_byte (omega arith) first_byte-IsBytes

address : (ualloc_try_block 3 first_byte).0 ≡ user_ram_start + 8 * min_block_size
unfolding ualloc_try_block scan bit_set
address = refl

mark_bits_free-ualloc_try_block_example :
    let r = ualloc_try_block 3 first_byte in
    bit_set (mark_bits_free ((r.0 - user_ram_start) / min_block_size) 3 r.1) 9
    ≡ bit_set first_byte 9
mark_bits_free-ualloc_try_block_example =
    mark_bits_free-ualloc_try_block 3 first_byte (omega arith) first_byte-IsBytes
      (omega (arith, address)) 9
