-- ===== src/Asm/Output/Same.antt =====
-- The hex file, the ELF blocks and the memory image hold the same bytes.
use riscy_os.Base.{
  ℕ, zero, suc, ◌+◌, ◌*◌, ◌/◌, ◌%◌, ◌^◌, ◌≡◌, refl, sym, ap, ◌∙◌, inl, inr, false, not, ◌&&◌, List,
  [], ◌∷◌, ◌++◌, arith, ◌==◌, if◌then◌else◌, Bool-cases, Mem, write, add32,
}
use mathlib.Core.List.{append_assoc, append-nil, map}
use riscy_os.Asm.Encode.Mnemonic.{Dump}
use riscy_os.Asm.Hex.{HexOut, hex_dump_flush}
use riscy_os.Asm.Hex.Read.{file_cells, dump_all, InRange, hex_dump-file_cells}
use riscy_os.Asm.Elf.{
  ElfOut, ElfTemp, elf_start, elf_dump, is_empty, store_byte, open_block, start_block,
}
use riscy_os.Asm.Elf.File.{code_bytes}
use riscy_os.Asm.Elf.Sections.{is_empty-append, is_empty-store_byte}
use riscy_os.Asm.Output.{Outputs, verilog_max, put_output, byte_loop, output_dump, output_dumps}

-- The bytes of a dump, the lowest first, each with its address.
unfoldable pub bytes_from : (address value i count : ℕ) → List (ℕ × ℕ)
bytes_from address value i zero = []
bytes_from address value i (suc n) =
    (add32 address i, value / 2 ^ (8 * i) % 256) ∷ bytes_from address value (i + 1) n

unfoldable pub all_bytes : List Dump → List (ℕ × ℕ)
unfolding bytes_from
all_bytes [] = []
all_bytes (d ∷ ds) = bytes_from d.address d.value 0 d.size ++ all_bytes ds

-- The outputs after the bytes, one after another.
put_all : List (ℕ × ℕ) → Outputs → Outputs
put_all [] o = o
put_all ((address, value) ∷ bs) o = put_all bs (put_output address value o)

put_all-append :
    (bs cs : List (ℕ × ℕ)) (o : Outputs) → put_all (bs ++ cs) o ≡ put_all cs (put_all bs o)
unfolding put_all
put_all-append [] cs o = refl
put_all-append ((address, value) ∷ bs) cs o = put_all-append bs cs (put_output address value o)

byte_loop-put_all :
    (address value i n : ℕ) (o : Outputs)
    → byte_loop address value i n o ≡ put_all (bytes_from address value i n) o
unfolding byte_loop put_all bytes_from
byte_loop-put_all address value i zero o = refl
byte_loop-put_all address value i (suc n) o =
    byte_loop-put_all address value (i + 1) n
      (put_output (add32 address i) (value / 2 ^ (8 * i) % 256) o)

output_dumps-put_all : (ds : List Dump) (o : Outputs) → output_dumps ds o ≡ put_all (all_bytes ds) o
unfolding output_dumps put_all all_bytes output_dump
output_dumps-put_all [] o = refl
output_dumps-put_all (d ∷ ds) o =
    output_dumps-put_all ds (byte_loop d.address d.value 0 d.size o)
    ∙ ap (put_all (all_bytes ds)) (byte_loop-put_all d.address d.value 0 d.size o)
    ∙ sym (put_all-append (bytes_from d.address d.value 0 d.size) (all_bytes ds) o)

put_all-hex : (bs : List (ℕ × ℕ)) (o : Outputs) → (put_all bs o).hex ≡ dump_all bs o.hex
unfolding put_all dump_all put_output
put_all-hex [] o = refl
put_all-hex ((address, value) ∷ bs) o = put_all-hex bs (put_output address value o)

bytes_from-InRange : (address value i n : ℕ) → InRange (bytes_from address value i n)
unfolding bytes_from
bytes_from-InRange address value i zero = tt
bytes_from-InRange address value i (suc n) =
    (omega arith, omega arith, bytes_from-InRange address value (i + 1) n)

InRange-append : (bs cs : List (ℕ × ℕ)) → InRange bs → InRange cs → InRange (bs ++ cs)
InRange-append [] cs hb hc = hc
InRange-append ((a, v) ∷ bs) cs hb hc = (hb.0, hb.1, InRange-append bs cs hb.2 hc)

all_bytes-InRange : (ds : List Dump) → InRange (all_bytes ds)
unfolding all_bytes
all_bytes-InRange [] = tt
all_bytes-InRange (d ∷ ds) =
    InRange-append (bytes_from d.address d.value 0 d.size) (all_bytes ds)
      (bytes_from-InRange d.address d.value 0 d.size) (all_bytes-InRange ds)

code_bytes-store_byte :
    (v : ℕ) (rs : List ElfTemp)
    → is_empty rs ≡ false
    → code_bytes (store_byte v rs) ≡ code_bytes rs ++ (v ∷ [])
unfolding code_bytes store_byte
code_bytes-store_byte v [] some_block = cc
code_bytes-store_byte v (r ∷ []) some_block = simp append-nil
code_bytes-store_byte v (r ∷ r' ∷ rs) some_block =
    ap (λ (l : List ℕ). r.bytes ++ l) (code_bytes-store_byte v (r' ∷ rs) refl)
    ∙ sym (append_assoc r.bytes (code_bytes (r' ∷ rs)) (v ∷ []))

code_bytes-append_block :
    (rs : List ElfTemp) (r : ElfTemp) → r.bytes ≡ [] → code_bytes (rs ++ (r ∷ [])) ≡ code_bytes rs
unfolding code_bytes
code_bytes-append_block [] r empty = append-nil r.bytes ∙ empty
code_bytes-append_block (q ∷ rs) r empty =
    ap (λ (l : List ℕ). q.bytes ++ l) (code_bytes-append_block rs r empty)

-- Without a block there is no room.
abbrev HasBlock : ElfOut → Type 0
HasBlock s = s.elf_new_block ≡ false → is_empty s.elf_record_list ≡ false

open_block_lem :
    (address : ℕ) (s : ElfOut)
    → HasBlock s
    → (code_bytes (open_block address s) ≡ code_bytes s.elf_record_list)
      × (is_empty (open_block address s) ≡ false)
unfolding open_block start_block
open_block_lem address s has =
    let block : ElfTemp = record {
      continuation = s.elf_section == s.elf_section_old && not (is_empty s.elf_record_list);
      section = s.elf_section;
      address = address;
      bytes = [];
    } in
    let blocks = s.elf_record_list ++ (block ∷ []) in
    let new : (code_bytes blocks ≡ code_bytes s.elf_record_list) × (is_empty blocks ≡ false) = (
      code_bytes-append_block s.elf_record_list block refl,
      is_empty-append s.elf_record_list block,
    ) in
    elim (Bool-cases s.elf_new_block) [
      | inl full ↦ rw full new
      | inr room ↦ elim (Bool-cases (s.elf_section == s.elf_section_old)) [
        | inl same ↦ rw (room, same) (refl, has room)
        | inr other ↦ rw (room, other) (rw other at new)
      ]
    ]

put_all-elf :
    (bs : List (ℕ × ℕ)) (o : Outputs)
    → HasBlock o.elf
    → code_bytes (put_all bs o).elf.elf_record_list
      ≡ code_bytes o.elf.elf_record_list ++ map (λ b. b.1) bs
unfolding put_all put_output elf_dump
put_all-elf [] o has = sym (append-nil (code_bytes o.elf.elf_record_list))
put_all-elf ((address, value) ∷ bs) o has =
    let opened = open_block_lem address o.elf has in
    put_all-elf bs (put_output address value o)
      (λ _. is_empty-store_byte value (open_block address o.elf) ∙ opened.1)
    ∙ ap (λ (l : List ℕ). l ++ map (λ b. b.1) bs)
        (code_bytes-store_byte value (open_block address o.elf) opened.1
          ∙ ap (λ (l : List ℕ). l ++ (value ∷ [])) opened.0)
    ∙ append_assoc (code_bytes o.elf.elf_record_list) (value ∷ []) (map (λ b. b.1) bs)

-- The last byte that goes to a place of the image, or what is there without one.
unfoldable pub last_byte : (place : ℕ) → List (ℕ × ℕ) → ℕ → ℕ
last_byte place [] old = old
last_byte place ((address, value) ∷ bs) old =
    last_byte place bs (if place == address % verilog_max then value else old)

put_all-verilog :
    (place : ℕ) (bs : List (ℕ × ℕ)) (o : Outputs)
    → (put_all bs o).verilog_array place ≡ last_byte place bs (o.verilog_array place)
unfolding put_all put_output last_byte write
put_all-verilog place [] o = refl
put_all-verilog place ((address, value) ∷ bs) o =
    put_all-verilog place bs (put_output address value o)

-- What `byte_dump` is given comes out alike in the three outputs: the hex file, once flushed, shows
-- the bytes of the dumps in order, the lowest of each first, with their addresses; the ELF blocks hold
-- the same bytes in order; and each place of the memory image has the last of them whose address
-- belongs there, or what it had.
pub output_dumps_same :
    (ds : List Dump) (address place : ℕ) (buffer image : Mem)
    → let start : Outputs = record {
      hex = record {
        hex_address = address;
        hex_address_defined = false;
        hex_buffer = buffer;
        lines = [];
      };
      elf = elf_start;
      verilog_array = image;
    } in
      let end = output_dumps ds start in
      (file_cells (hex_dump_flush end.hex).lines ≡ all_bytes ds)
      × (code_bytes end.elf.elf_record_list ≡ map (λ b. b.1) (all_bytes ds))
      × (end.verilog_array place ≡ last_byte place (all_bytes ds) (image place))
unfolding code_bytes
output_dumps_same ds address place buffer image =
    let start : Outputs = record {
      hex = record {
        hex_address = address;
        hex_address_defined = false;
        hex_buffer = buffer;
        lines = [];
      };
      elf = elf_start;
      verilog_array = image;
    } in
    let bs = all_bytes ds in
    rw (output_dumps-put_all ds start) (
      ap (λ (h : HexOut). file_cells (hex_dump_flush h).lines) (put_all-hex bs start)
          ∙ hex_dump-file_cells bs address buffer (all_bytes-InRange ds),
      put_all-elf bs start (λ e. cc),
      put_all-verilog place bs start,
    )
