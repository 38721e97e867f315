-- ===== src/Asm/Elf/Tests.antt =====
-- A pass with two sections and the file for it.
use riscy_os.Base.{
  ◌<◌, ◌≡◌, refl, List, [], ◌∷◌, ◌++◌, arith, length, u32_mod, if◌then◌else◌, ◌+◌, ◌==◌,
}
use riscy_os.Asm.Symbols.{SymRecord, SymTable}
use riscy_os.Asm.Symbols.Sort.{
  records_from, count_in, sym_count_symbols, is_included, is_after, insert_record, sym_dup_record,
  sort_loop, sym_sort_symbols,
}
use riscy_os.Asm.Elf.{
  elf_start, elf_dump, elf_new_section_maybe, store_byte, current_count, start_block, open_block,
  grow_last, section_infos,
}
use riscy_os.Asm.Elf.File.{
  dump_words, zeros, pad_word, all_names, sym_strtab, beyond_null, symbol_section, symbol_entries,
  program_headers, elf_dump_sh, code_headers, code_bytes, section_strings, lengths_of, file_header,
  section_headers, file_body, write_file, elf_dump_out,
}
use riscy_os.Asm.Elf.Sections.{
  ElfEvent, byte, new_section, run_events, run_sections, no_sections, extend, gather, Fit,
}
use riscy_os.Asm.Elf.Refine.{elf_dump-sections}
use riscy_os.Asm.Elf.Place.{program_headers_of, Loads, elf_dump_out-Loads}
use riscy_os.Asm.Elf.Names.{read_entries, entries_of, symbol_entries-read}

abbrev two_sections : List ElfEvent
two_sections = byte 4096 1 ∷ byte 4097 2 ∷ new_section ∷ byte 8192 3 ∷ []

elf_dump-sections_example :
    (gather (run_events two_sections elf_start).elf_record_list []
      ≡ (run_sections two_sections no_sections).sections)
    × Fit (run_events two_sections elf_start).elf_record_list
    × ((run_events two_sections elf_start).elf_section
        ≡ length (run_sections two_sections no_sections).sections
          + (if (run_sections two_sections no_sections).fresh then 1 else 0))
elf_dump-sections_example = elf_dump-sections two_sections (omega arith)

sections_found :
    (run_sections two_sections no_sections).sections
    ≡ record { start = 4096; content = 1 ∷ 2 ∷ [] } ∷ record { start = 8192; content = 3 ∷ [] } ∷ []
unfolding run_sections extend
sections_found = refl

-- The symbols f and go.
abbrev two_symbols : List SymRecord
two_symbols =
    record {
      label = record { chars = 102 ∷ []; count = 1; hash = 102 };
      value = 4096;
      flags = 256;
      identifier = 0;
      elf_section = 1;
    }
    ∷ record {
      label = record { chars = 103 ∷ 111 ∷ []; count = 2; hash = 3407 };
      value = 8192;
      flags = 768;
      identifier = 1;
      elf_section = 2;
    }
    ∷ []

abbrev symbols : SymTable
symbols = record {
  symbol_number = 2;
  table_flags = 0;
  lists = λ i. if i == 3 then two_symbols else [];
}

few_sections : length (run_sections two_sections no_sections).sections < 65536
unfolding run_sections extend
few_sections = omega arith

small_file :
    length
      (elf_dump_out 4096 (111 ∷ []) (run_events two_sections elf_start).elf_record_list symbols)
    < u32_mod
unfolding elf_dump_out write_file file_body file_header section_headers section_strings sym_strtab
    lengths_of program_headers code_headers elf_dump_sh code_bytes symbol_entries symbol_section
    beyond_null all_names pad_word zeros dump_words section_infos grow_last run_events elf_dump
    elf_new_section_maybe open_block start_block store_byte current_count sym_sort_symbols sort_loop
    insert_record is_after is_included sym_dup_record sym_count_symbols count_in records_from
small_file = omega arith

elf_dump_out-Loads_example :
    let file =
      elf_dump_out 4096 (111 ∷ []) (run_events two_sections elf_start).elf_record_list symbols in
    Loads file (program_headers_of file) (run_sections two_sections no_sections).sections
elf_dump_out-Loads_example =
    elf_dump_out-Loads 4096 (111 ∷ []) symbols two_sections (omega arith) few_sections small_file

small_names : length (sym_strtab two_symbols) < u32_mod
unfolding sym_strtab pad_word zeros all_names
small_names = omega arith

symbol_entries-read_example :
    read_entries 2
      (symbol_entries 2 two_symbols (sym_strtab two_symbols) 0 ++ [])
      (sym_strtab two_symbols)
    ≡ entries_of two_symbols
symbol_entries-read_example =
    symbol_entries-read two_symbols []
      (
        ((refl, tt), omega arith, refl, omega arith),
        (((refl, (refl, tt)), omega arith, refl, omega arith), tt),
      )
      small_names
