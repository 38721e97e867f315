-- ===== src/Elf/Types.antt =====
-- The structures of include/elf, of include/process.h and of kernel/fs/fs_elf.c, and what a step of
-- the loader results in.
use riscy_os.Base.{ℕ, Option, List}
use riscy_os.Fs.{FileHandle}

-- Elf32_Ehdr
pub record ElfHeader : Type 0 where
  pub e_ident : List ℕ
  pub e_type : ℕ
  pub e_machine : ℕ
  pub e_version : ℕ
  pub e_entry : ℕ
  pub e_phoff : ℕ
  pub e_shoff : ℕ
  pub e_flags : ℕ
  pub e_ehsize : ℕ
  pub e_phentsize : ℕ
  pub e_phnum : ℕ
  pub e_shentsize : ℕ
  pub e_shnum : ℕ
  pub e_shstrndx : ℕ

-- Elf32_Phdr
pub record ProgramHeader : Type 0 where
  pub p_type : ℕ
  pub p_offset : ℕ
  pub p_vaddr : ℕ
  pub p_paddr : ℕ
  pub p_filesz : ℕ
  pub p_memsz : ℕ
  pub p_flags : ℕ
  pub p_align : ℕ

-- sizeof(Elf32_Ehdr), sizeof(Elf32_Phdr), PT_LOAD, and the values that the header is held against
abbrev pub ehdr_size : ℕ
ehdr_size = 52

abbrev pub phdr_size : ℕ
phdr_size = 32

abbrev pub pt_load : ℕ
pt_load = 1

abbrev pub elf_class_32 : ℕ
elf_class_32 = 1

abbrev pub elf_data_2lsb : ℕ
elf_data_2lsb = 1

abbrev pub elf_machine_riscv : ℕ
elf_machine_riscv = 0xF3

abbrev pub et_exec : ℕ
et_exec = 2

-- memory_region_t
pub record MemoryRegion : Type 0 where
  pub physical_base : ℕ
  pub region_size : ℕ
  pub reference_count : ℕ

-- process_image_t; a NULL region is `none`.
pub record ProcessImage : Type 0 where
  pub parent_dir_cluster : ℕ
  pub ptext_memory_region : Option MemoryRegion
  pub pdata_memory_region : Option MemoryRegion
  pub pdata_start : ℕ
  pub heap_start : ℕ
  pub mepc : ℕ

-- The fields of pcb_t that the loader reads or writes.
pub record Pcb : Type 0 where
  pub mscratch : ℕ
  pub brk : ℕ
  pub image : ProcessImage

-- elf_state_t
pub data ElfState : Type 0 where
  opening reading_header load_pheader read_pheader : ElfState
  seek_pcontent load_pcontent closing done error : ElfState

-- elf_ctx_t
pub record ElfCtx : Type 0 where
  pub state : ElfState
  pub file : FileHandle
  pub header : ElfHeader
  pub pheader : ProgramHeader
  pub current_seg : ℕ
  pub tmp_image : ProcessImage
  pub pcb : Pcb
  pub seg_buf : ℕ

-- What a step asks of the file layer. A header is read into the context.
pub data Request : Type 0 where
  read_header : Request
  read_program_header : Request
  read_segment : (buffer bytes : ℕ) → Request
  seek_to : (offset : ℕ) → Request
  close_file : Request

-- The calls made at the end, in order: `free_new_region` frees the region that has just been
-- allocated and is in no image yet.
pub data ElfAction : Type 0 where
  free_new_region : ElfAction
  free_region : MemoryRegion → ElfAction
  release_region : Option MemoryRegion → ElfAction
  unblock : ElfAction
  free_ctx : ElfAction

-- `faulted` is a read through a NULL pointer.
pub data ElfResult : Type 0 where
  asks : Request → ElfCtx → ElfResult
  finished : ElfCtx → List ElfAction → ElfResult
  faulted : ElfResult
  ignored : ElfResult

-- The macros `true` and `false` of include/types.h.
abbrev pub c_true : ℕ
c_true = 1

abbrev pub c_false : ℕ
c_false = 1
