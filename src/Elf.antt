-- ===== src/Elf.antt =====
-- The program loader of kernel/fs/fs_elf.c, with the ELF structures of include/elf and the parts of
-- include/process.h that it fills in. What a step asks of the file layer is a request; the layer
-- has stored the bytes of a header in the context by the time it calls back.
mod Types
pub mod Validate
pub mod Steps
mod Tests
pub use Types.*
use riscy_os.Base.{
  ℕ, zero, suc, ◌+◌, ◌-◌, ◌*◌, ◌/◌, ◌%◌, ◌^◌, ◌≤◌, ◌<◌, ◌≡◌, refl, sym, ap, ◌∙◌, ◌≢◌, ◌↔◌, ◌⊎◌, inl,
  inr, Bool, true, false, not, ◌&&◌, ◌||◌, Option, none, some, List, [], ◌∷◌, ◌++◌, arith, ltb, leb,
  ◌==◌, ==_iff, if◌then◌else◌, Bool-cases, some_pair, length, get_or, set, length-append,
  length-set, get_or-set_self, get_or-set_ne, Mem, write, write_self, write_ne, u32_mod, add32,
  sub32,
}
use riscy_os.Fs.{FileHandle}

-- `none` for a NULL pointer
unfoldable pub elf_validate_header : Option ElfHeader → ℕ
elf_validate_header none = c_false
elf_validate_header (some hdr) =
    if not (get_or hdr.e_ident 0 0 == 0x7F)
    then c_false
    else if not (get_or hdr.e_ident 1 0 == b'E')
    then c_false
    else if not (get_or hdr.e_ident 2 0 == b'L')
    then c_false
    else if not (get_or hdr.e_ident 3 0 == b'F')
    then c_false
    else if not (get_or hdr.e_ident 4 0 == elf_class_32)
    then c_false
    else if not (get_or hdr.e_ident 5 0 == elf_data_2lsb)
    then c_false
    else if not (hdr.e_machine == elf_machine_riscv)
    then c_false
    else if not (hdr.e_type == et_exec)
    then c_false
    else c_true

-- `elf_read_next_program_header`
unfoldable pub read_next_program_header : ElfCtx → ElfResult
read_next_program_header ctx =
    let seg = ctx.current_seg + 1 in
    if ltb seg ctx.header.e_phnum
    then asks read_program_header (record ctx { current_seg = seg; state = read_pheader })
    else asks close_file (record ctx { current_seg = seg; state = closing })

abbrev pub freed : Option MemoryRegion → List ElfAction
freed none = []
freed (some r) = free_region r ∷ []

-- The process once the image is in place; `text` is the image's text region.
unfoldable pub install : ElfCtx → MemoryRegion → Pcb
install ctx text = record {
  mscratch = add32 ctx.tmp_image.pdata_start text.region_size;
  brk = ctx.tmp_image.heap_start;
  image = ctx.tmp_image;
}

-- The success branch of `elf_finish`, by the text region of the image.
unfoldable pub finish_with : Option MemoryRegion → ElfCtx → ElfResult
unfolding install
finish_with none ctx = faulted
finish_with (some text) ctx =
    finished (record ctx { pcb = install ctx text })
      (release_region ctx.pcb.image.ptext_memory_region
        ∷ release_region ctx.pcb.image.pdata_memory_region
        ∷ unblock
        ∷ free_ctx
        ∷ [])

unfoldable pub finish_in : ElfState → ElfCtx → ElfResult
unfolding finish_with
finish_in error ctx = finished ctx (
    freed ctx.tmp_image.ptext_memory_region
    ++ freed ctx.tmp_image.pdata_memory_region
    ++ unblock ∷ free_ctx ∷ [])
finish_in _ ctx = finish_with ctx.tmp_image.ptext_memory_region ctx

unfoldable pub elf_finish : ElfCtx → ElfResult
unfolding finish_in
elf_finish ctx = finish_in ctx.state ctx

-- (heap + 15) & ~15
unfoldable pub align_16 : ℕ → ℕ
align_16 h = add32 h 15 - add32 h 15 % 16

-- The image with the region of the current segment in it: text if the segment is executable.
unfoldable pub place_segment : ElfCtx → MemoryRegion → ProcessImage
unfolding align_16
place_segment ctx region =
    let ph = ctx.pheader in
    if ph.p_flags % 2 == 1
    then record (ctx.tmp_image) { ptext_memory_region = some region; mepc = ctx.header.e_entry }
    else record (ctx.tmp_image) {
      pdata_memory_region = some region;
      pdata_start = ph.p_vaddr;
      heap_start = align_16 (add32 ph.p_vaddr ph.p_memsz);
    }

abbrev pub first_call : ElfAction → ElfResult → ElfResult
first_call a (finished ctx actions) = finished ctx (a ∷ actions)
first_call a (asks q ctx) = asks q ctx
first_call a faulted = faulted
first_call a ignored = ignored

-- The state ELF_READ_PHEADER; `region` and `mem` are what `kmalloc` and `ualloc` return there.
unfoldable pub load_segment : ElfCtx → (region mem : ℕ) → ElfResult
unfolding elf_finish place_segment
load_segment ctx region mem =
    let loaded : MemoryRegion = record {
      physical_base = mem;
      region_size = ctx.pheader.p_memsz;
      reference_count = 1;
    } in
    if region == 0
    then elf_finish (record ctx { state = error })
    else if mem == 0
    then first_call free_new_region (elf_finish (record ctx { state = error }))
    else asks (seek_to ctx.pheader.p_offset)
        (record ctx { state = seek_pcontent; tmp_image = place_segment ctx loaded; seg_buf = mem })

-- `elf_step` after a request that succeeded, by the state that the context was in.
unfoldable pub step_in : ElfState → ElfCtx → (region mem : ℕ) → ElfResult
unfolding elf_finish read_next_program_header load_segment elf_validate_header
step_in opening ctx region mem = asks read_header (record ctx { state = reading_header })
step_in reading_header ctx region mem =
    if elf_validate_header (some ctx.header) == 0
    then elf_finish (record ctx { state = error })
    else asks (seek_to ctx.header.e_phoff) (record ctx { current_seg = 0; state = load_pheader })
step_in load_pheader ctx region mem = asks read_program_header (record ctx { state = read_pheader })
step_in read_pheader ctx region mem =
    if not (ctx.pheader.p_type == pt_load)
    then read_next_program_header ctx
    else load_segment ctx region mem
step_in seek_pcontent ctx region mem =
    asks (read_segment ctx.seg_buf ctx.pheader.p_filesz) (record ctx { state = load_pcontent })
step_in load_pcontent ctx region mem = read_next_program_header (record ctx { seg_buf = 0 })
step_in closing ctx region mem = elf_finish (record ctx { state = done })
step_in done ctx region mem = ignored
step_in error ctx region mem = ignored

unfoldable pub elf_step : ElfCtx → (status region mem : ℕ) → ElfResult
unfolding step_in
elf_step ctx status region mem =
    if not (status == 0)
    then elf_finish (record ctx { state = error })
    else step_in ctx.state ctx region mem

-- The context that `elf_load_submit` zeroes and fills in before it opens the program's file, with
-- the directory of the file to go to `parent_dir_cluster`.
unfoldable pub elf_load_submit : Pcb → ElfCtx
elf_load_submit pcb_to_fill = record {
  state = opening;
  file = record {
    fd = 0;
    first_cluster = 0;
    current_cluster = 0;
    current_sector = 0;
    current_byte = 0;
    file_offset = 0;
    file_size = 0;
    owner_pid = 0;
  };
  header = record {
    e_ident = 0 ∷ 0 ∷ 0 ∷ 0 ∷ 0 ∷ 0 ∷ 0 ∷ 0 ∷ 0 ∷ 0 ∷ 0 ∷ 0 ∷ 0 ∷ 0 ∷ 0 ∷ 0 ∷ [];
    e_type = 0;
    e_machine = 0;
    e_version = 0;
    e_entry = 0;
    e_phoff = 0;
    e_shoff = 0;
    e_flags = 0;
    e_ehsize = 0;
    e_phentsize = 0;
    e_phnum = 0;
    e_shentsize = 0;
    e_shnum = 0;
    e_shstrndx = 0;
  };
  pheader = record {
    p_type = 0;
    p_offset = 0;
    p_vaddr = 0;
    p_paddr = 0;
    p_filesz = 0;
    p_memsz = 0;
    p_flags = 0;
    p_align = 0;
  };
  current_seg = 0;
  tmp_image = record {
    parent_dir_cluster = 0;
    ptext_memory_region = none;
    pdata_memory_region = none;
    pdata_start = 0;
    heap_start = 0;
    mepc = 0;
  };
  pcb = pcb_to_fill;
  seg_buf = 0;
}
