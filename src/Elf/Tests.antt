-- ===== src/Elf/Tests.antt =====
-- The loader at a context with one program header.
use riscy_os.Base.{◌≡◌, refl, none}
use riscy_os.Elf.{
  ProgramHeader, MemoryRegion, Pcb, reading_header, load_pheader, load_pcontent, ElfCtx, seek_to,
  asks, elf_validate_header, elf_load_submit, elf_step,
}
use riscy_os.Elf.Validate.{elf_validate_header_constant}
use riscy_os.Elf.Steps.{Keeps, elf_step-Keeps}

abbrev pcb : Pcb
pcb = record {
  mscratch = 0;
  brk = 0;
  image = record {
    parent_dir_cluster = 2;
    ptext_memory_region = none;
    pdata_memory_region = none;
    pdata_start = 0;
    heap_start = 0;
    mepc = 64;
  };
}

abbrev reading : ElfCtx
reading = record (elf_load_submit pcb) { state = reading_header }

abbrev loading : ElfCtx
loading = record (elf_load_submit pcb) { state = load_pcontent }

elf_validate_header_constant_example :
    (elf_validate_header none ≡ 1)
    × (elf_step reading 0 0 0
        ≡ asks
            (seek_to reading.header.e_phoff)
            (record reading { current_seg = 0; state = load_pheader }))
elf_validate_header_constant_example = elf_validate_header_constant none reading 0 0 refl

elf_step-Keeps_example : Keeps 0 reading_header reading.pcb (elf_step reading 0 4096 8192)
elf_step-Keeps_example = elf_step-Keeps reading 0 4096 8192

abbrev segment : ProgramHeader
segment = record {
  p_type = 1;
  p_offset = 4096;
  p_vaddr = 8192;
  p_paddr = 8192;
  p_filesz = 100;
  p_memsz = 300;
  p_flags = 6;
  p_align = 4096;
}

abbrev placing : ElfCtx
placing = record (elf_load_submit pcb) { pheader = segment }

abbrev region : MemoryRegion
region = record { physical_base = 65536; region_size = 512; reference_count = 1 }
