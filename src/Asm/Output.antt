-- ===== src/Asm/Output.antt =====
-- `byte_dump` of tools/assembler/rva.c and the three outputs that it feeds, where all their files are
-- open and no IF suppresses code; the listing is left out.
pub mod Same
mod Tests
use riscy_os.Base.{
  ℕ, zero, suc, ◌+◌, ◌*◌, ◌/◌, ◌%◌, ◌^◌, List, [], ◌∷◌, ◌==◌, if◌then◌else◌, Mem, write, add32,
}
use riscy_os.Asm.Encode.Mnemonic.{Dump}
use riscy_os.Asm.Hex.{HexOut, hex_dump}
use riscy_os.Asm.Elf.{ElfOut, elf_dump}

-- VERILOG_MAX
abbrev pub verilog_max : ℕ
verilog_max = 0x10000

pub record Outputs : Type 0 where
  pub hex : HexOut
  pub elf : ElfOut
  pub verilog_array : Mem

-- One round of the loop in `byte_dump`.
unfoldable pub put_output : (address value : ℕ) → Outputs → Outputs
put_output address value o = record {
  hex = hex_dump address value o.hex;
  elf = elf_dump address value o.elf;
  verilog_array = write o.verilog_array (address % verilog_max) value;
}

-- The rounds from `i` on.
unfoldable pub byte_loop : (address value i rounds : ℕ) → Outputs → Outputs
byte_loop address value i zero o = o
byte_loop address value i (suc n) o =
    byte_loop address value (i + 1) n (put_output (add32 address i) (value / 2 ^ (8 * i) % 256) o)

unfoldable pub output_dump : Dump → Outputs → Outputs
unfolding byte_loop put_output
output_dump d o = byte_loop d.address d.value 0 d.size o

unfoldable pub output_dumps : List Dump → Outputs → Outputs
unfolding output_dump
output_dumps [] o = o
output_dumps (d ∷ ds) o = output_dumps ds (output_dump d o)
