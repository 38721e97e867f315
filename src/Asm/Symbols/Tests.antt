-- ===== src/Asm/Symbols/Tests.antt =====
-- A table with three symbols, sorted.
use riscy_os.Base.{ℕ, [], ◌∷◌, if◌then◌else◌, ◌==◌}
use riscy_os.Asm.Symbols.{SymRecord, SymTable}
use riscy_os.Asm.Symbols.Sort.{value}

abbrev symbol : (letter number place : ℕ) → SymRecord
symbol letter number place = record {
  label = record { chars = letter ∷ []; count = 1; hash = letter };
  value = place;
  flags = 256;
  identifier = number;
  elf_section = 1;
}

abbrev three_symbols : SymTable
three_symbols = record {
  symbol_number = 3;
  table_flags = 0;
  lists = λ i.
      if i == 1
      then symbol 97 2 16 ∷ symbol 113 0 4294967292 ∷ []
      else if i == 2
      then symbol 98 1 8 ∷ []
      else [];
}
