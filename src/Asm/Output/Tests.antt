-- ===== src/Asm/Output/Tests.antt =====
-- A word and a byte in the three outputs.
use riscy_os.Base.{◌≡◌, false, List, [], ◌∷◌}
use mathlib.Core.List.{map}
use riscy_os.Asm.Encode.Mnemonic.{Dump}
use riscy_os.Asm.Hex.{hex_dump_flush}
use riscy_os.Asm.Hex.Read.{file_cells}
use riscy_os.Asm.Elf.{elf_start}
use riscy_os.Asm.Elf.File.{code_bytes}
use riscy_os.Asm.Output.{Outputs, output_dumps}
use riscy_os.Asm.Output.Same.{all_bytes, last_byte, output_dumps_same}

abbrev two_dumps : List Dump
two_dumps =
    record { address = 4096; value = 0x00A00513; size = 4 }
    ∷ record { address = 4100; value = 7; size = 1 }
    ∷ []

abbrev no_output : Outputs
no_output = record {
  hex = record { hex_address = 0; hex_address_defined = false; hex_buffer = λ i. 0; lines = [] };
  elf = elf_start;
  verilog_array = λ i. 0;
}

output_dumps_same_example :
    (file_cells (hex_dump_flush (output_dumps two_dumps no_output).hex).lines ≡ all_bytes two_dumps)
    × (code_bytes (output_dumps two_dumps no_output).elf.elf_record_list
        ≡ map (λ b. b.1) (all_bytes two_dumps))
    × ((output_dumps two_dumps no_output).verilog_array 4098
        ≡ last_byte 4098 (all_bytes two_dumps) 0)
output_dumps_same_example = output_dumps_same two_dumps 0 4098 (λ i. 0) (λ i. 0)
