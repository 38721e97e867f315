-- ===== src/Asm/Hex.antt =====
-- The hex file of tools/assembler/rva.c: `list_hex`, `hex_dump` and `hex_dump_flush`. A character
-- buffer is a function of the index; what `fprintf` puts in the file is a list of lines.
pub mod Lines
pub mod Buffer
pub mod Read
use riscy_os.Base.{
  ℕ, zero, suc, ◌+◌, ◌-◌, ◌*◌, ◌/◌, ◌%◌, ◌^◌, Bool, true, false, ◌&&◌, List, [], ◌∷◌, ◌++◌, ltb,
  ◌==◌, if◌then◌else◌, Mem, write, add32,
}

-- HEX_LINE_ADDRESS, HEX_BYTE_COUNT and HEX_LINE_LENGTH
abbrev pub hex_line_address : ℕ
hex_line_address = 10

abbrev pub hex_byte_count : ℕ
hex_byte_count = 16

abbrev pub hex_line_length : ℕ
hex_line_length = 58

unfoldable pub hex_digit : ℕ → ℕ
hex_digit digit = if ltb digit 10 then 48 + digit else 65 + digit - 10

-- `list_hex`, with the digits still to write and where the next one goes.
unfoldable pub list_hex : (number length destination : ℕ) → Mem → Mem
list_hex number zero destination buffer = buffer
list_hex number (suc n) destination buffer =
    list_hex number n (destination + 1)
      (write buffer destination (hex_digit (number / 2 ^ (4 * n) % 16)))

-- What `%s` prints of a buffer with room for so many characters.
unfoldable pub buffer_text : (room : ℕ) → Mem → (i : ℕ) → List ℕ
buffer_text zero buffer i = []
buffer_text (suc n) buffer i =
    let rest = buffer_text n buffer (i + 1) in if buffer i == 0 then [] else buffer i ∷ rest

-- The variables of the hex output, and the lines that are in the file.
pub record HexOut : Type 0 where
  pub hex_address : ℕ
  pub hex_address_defined : Bool
  pub hex_buffer : Mem
  pub lines : List (List ℕ)

-- `fprintf(fHex, "%s\n", hex_buffer)`
unfoldable pub print_line : HexOut → HexOut
unfolding buffer_text
print_line h = record h { lines = h.lines ++ (buffer_text hex_line_length h.hex_buffer 0 ∷ []) }

-- The buffer with spaces but for the terminator: `hex_buffer[i] = '\0'` at the last place.
unfoldable pub blank_line : Mem → Mem
blank_line buffer i =
    if ltb i (hex_line_length - 1) then 32 else if i == hex_line_length - 1 then 0 else buffer i

-- A buffer with the address in front.
unfoldable pub start_line : (address : ℕ) → Mem → Mem
unfolding list_hex blank_line
start_line address buffer = write (list_hex address 8 0 (blank_line buffer)) 8 58

unfoldable pub put_byte : (address value : ℕ) → Mem → Mem
unfolding list_hex
put_byte address value buffer =
    list_hex value 2 (hex_line_address + 3 * (address % hex_byte_count)) buffer

-- A byte in the line that it belongs to.
unfoldable pub place_byte : (address value : ℕ) → HexOut → HexOut
unfolding start_line put_byte print_line
place_byte address value h =
    if h.hex_address_defined && address == h.hex_address
    then record h {
      hex_address = add32 h.hex_address 1;
      hex_buffer = put_byte address value h.hex_buffer;
    }
    else record (if h.hex_address_defined then print_line h else h) {
      hex_address = add32 address 1;
      hex_address_defined = true;
      hex_buffer = put_byte address value (start_line address h.hex_buffer);
    }

unfoldable pub end_line : HexOut → HexOut
unfolding print_line
end_line h =
    if h.hex_address % hex_byte_count == 0
    then record (print_line h) { hex_address_defined = false }
    else h

unfoldable pub hex_dump : (address value : ℕ) → HexOut → HexOut
unfolding place_byte end_line
hex_dump address value h = end_line (place_byte address value h)

unfoldable pub hex_dump_flush : HexOut → HexOut
unfolding print_line
hex_dump_flush h = record (if h.hex_address_defined then print_line h else h) {
  hex_address_defined = false;
}
