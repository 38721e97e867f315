-- ===== src/Elf/Steps.antt =====
-- How the loader goes from state to state, and what it leaves of the process.
use riscy_os.Base.{
  ℕ, ◌⊎◌, ◌+◌, ◌%◌, ◌≤◌, ◌<◌, ◌≡◌, refl, ◌≢◌, ◌↔◌, inl, inr, false, not, Option, none, some, arith,
  ltb, ◌==◌, Bool-cases, u32_mod,
}
use riscy_os.Elf.{
  MemoryRegion, Pcb, ElfState, opening, reading_header, load_pheader, read_pheader, seek_pcontent,
  load_pcontent, closing, done, error, ElfCtx, Request, read_program_header, seek_to, close_file,
  ElfResult, asks, finished, faulted, ignored, elf_finish, finish_with, step_in,
  read_next_program_header, load_segment, place_segment, align_16, elf_validate_header, elf_step,
  pt_load,
}

-- The state that a request of the state `a` leads to, where a step can ask for something.
pub data Next : ElfState → ElfState → Type 0 where
  opened : Next opening reading_header
  validated : Next reading_header load_pheader
  positioned : Next load_pheader read_pheader
  skipped : Next read_pheader read_pheader
  skipped_last : Next read_pheader closing
  allocated : Next read_pheader seek_pcontent
  sought : Next seek_pcontent load_pcontent
  loaded : Next load_pcontent read_pheader
  loaded_last : Next load_pcontent closing

-- What holds of the result of a step from a context in state `st` with the process `pcb`, where the
-- last request was answered with `status`: a request goes to a next state and leaves the process
-- alone. An end is one in the error state that leaves it alone as well, or one from closing the file
-- without an error; only this one reads the text region of an image that may have none.
abbrev pub Keeps : (status : ℕ) → ElfState → Pcb → ElfResult → Type 0
Keeps status st pcb (asks q ctx') = (status ≡ 0) × Next st ctx'.state × (ctx'.pcb ≡ pcb)
Keeps status st pcb (finished ctx' actions) =
    ((ctx'.state ≡ error) × (ctx'.pcb ≡ pcb))
    ⊎ ((status ≡ 0) × (st ≡ closing) × (ctx'.state ≡ done))
Keeps status st pcb faulted = (status ≡ 0) × (st ≡ closing)
Keeps status st pcb ignored = (status ≡ 0) × ((st ≡ done) ⊎ (st ≡ error))

finish_error-Keeps :
    (status : ℕ) (st : ElfState) (ctx : ElfCtx)
    → Keeps status st ctx.pcb (elf_finish (record ctx { state = error }))
unfolding elf_finish
finish_error-Keeps status st ctx = inl (refl, refl)

finish_done-Keeps :
    (text : Option MemoryRegion) (ctx : ElfCtx) (pcb : Pcb)
    → ctx.state ≡ done
    → Keeps 0 closing pcb (finish_with text ctx)
unfolding finish_with
finish_done-Keeps none ctx pcb e = (refl, refl)
finish_done-Keeps (some text) ctx pcb e = inr (refl, refl, e)

next_header-Keeps :
    (st : ElfState) (ctx : ElfCtx)
    → Next st read_pheader
    → Next st closing
    → Keeps 0 st ctx.pcb (read_next_program_header ctx)
unfolding read_next_program_header
next_header-Keeps st ctx more last =
    elim (Bool-cases (ltb (ctx.current_seg + 1) ctx.header.e_phnum)) [
      | inl h ↦ rw h (refl, more, refl)
      | inr h ↦ rw h (refl, last, refl)
    ]

load_segment-Keeps :
    (ctx : ElfCtx) (region mem : ℕ) → Keeps 0 read_pheader ctx.pcb (load_segment ctx region mem)
unfolding load_segment
load_segment-Keeps ctx region mem = elim (Bool-cases (region == 0)) [
  | inl h ↦ rw h (finish_error-Keeps 0 read_pheader ctx)
  | inr h ↦ elim (Bool-cases (mem == 0)) [
    | inl k ↦ rw (h, k) (unfold elf_finish in inl (refl, refl))
    | inr k ↦ rw (h, k) (refl, allocated, refl)
  ]
]

step_in-Keeps :
    (st : ElfState) (ctx : ElfCtx) (region mem : ℕ) → Keeps 0 st ctx.pcb (step_in st ctx region mem)
unfolding step_in
step_in-Keeps opening ctx region mem = (refl, opened, refl)
step_in-Keeps reading_header ctx region mem =
    elim (Bool-cases (elf_validate_header (some ctx.header) == 0)) [
      | inl h ↦ rw h (finish_error-Keeps 0 reading_header ctx)
      | inr h ↦ rw h (refl, validated, refl)
    ]
step_in-Keeps load_pheader ctx region mem = (refl, positioned, refl)
step_in-Keeps read_pheader ctx region mem =
    elim (Bool-cases (not (ctx.pheader.p_type == pt_load))) [
      | inl h ↦ rw h (next_header-Keeps read_pheader ctx skipped skipped_last)
      | inr h ↦ rw h (load_segment-Keeps ctx region mem)
    ]
step_in-Keeps seek_pcontent ctx region mem = (refl, sought, refl)
step_in-Keeps load_pcontent ctx region mem =
    next_header-Keeps load_pcontent (record ctx { seg_buf = 0 }) loaded loaded_last
step_in-Keeps closing ctx region mem =
    finish_done-Keeps ctx.tmp_image.ptext_memory_region (record ctx { state = done }) ctx.pcb refl
step_in-Keeps done ctx region mem = (refl, inl refl)
step_in-Keeps error ctx region mem = (refl, inr refl)

-- Each step that asks for something leads along the loader's states after an answer without an
-- error, and leaves the process as it was. A step that ends the loader ends in the error state with
-- the process as it was, or comes from closing the file, without an error: no failure changes the
-- process.
pub elf_step-Keeps :
    (ctx : ElfCtx) (status region mem : ℕ)
    → Keeps status ctx.state ctx.pcb (elf_step ctx status region mem)
unfolding elf_step
elf_step-Keeps ctx status region mem = elim (Bool-cases (not (status == 0))) [
  | inl h ↦ rw h (finish_error-Keeps status ctx.state ctx)
  | inr h ↦
      let ok : status ≡ 0 = ground arith in rw (h, ok) (step_in-Keeps ctx.state ctx region mem)
]

-- After the contents of a segment the loader goes on to the next header, or to closing the file, as
-- the count of headers says, and in neither case seeks: the file is where the contents ended.
pub elf_step-load_pcontent :
    (ctx : ElfCtx) (region mem : ℕ)
    → ctx.state ≡ load_pcontent
    → (q : Request) × (ctx' : ElfCtx) × (elf_step ctx 0 region mem ≡ asks q ctx')
      × (ctx'.file ≡ ctx.file)
      × ((offset : ℕ) → q ≢ seek_to offset)
      × ((q ≡ read_program_header) ↔ (ctx.current_seg + 1 < ctx.header.e_phnum))
unfolding elf_step step_in read_next_program_header
elf_step-load_pcontent ctx region mem st =
    elim (Bool-cases (ltb (ctx.current_seg + 1) ctx.header.e_phnum)) [
      | inl h ↦ (
        read_program_header,
        record ctx { seg_buf = 0; current_seg = ctx.current_seg + 1; state = read_pheader },
        simp (st, h, step_in),
        refl,
        λ o e. cc,
        (λ e. ground arith, λ l. refl),
      )
      | inr h ↦ (
        close_file,
        record ctx { seg_buf = 0; current_seg = ctx.current_seg + 1; state = closing },
        simp (st, h, step_in),
        refl,
        λ o e. cc,
        (λ e. absurd (cc), λ l. absurd (ground arith)),
      )
    ]

-- A data segment's heap starts at the first multiple of 16 not below the segment's end, if these
-- addresses fit a word; the data region is the one loaded, and the text region and the entry point
-- stay.
pub place_segment-data :
    (ctx : ElfCtx) (region : MemoryRegion)
    → ctx.pheader.p_vaddr + ctx.pheader.p_memsz + 15 < u32_mod
    → ctx.pheader.p_flags % 2 ≡ 0
    → let image = place_segment ctx region in
      (image.heap_start % 16 ≡ 0)
      × (ctx.pheader.p_vaddr + ctx.pheader.p_memsz ≤ image.heap_start)
      × (image.heap_start < ctx.pheader.p_vaddr + ctx.pheader.p_memsz + 16)
      × (image.pdata_start ≡ ctx.pheader.p_vaddr)
      × (image.pdata_memory_region ≡ some region)
      × (image.ptext_memory_region ≡ ctx.tmp_image.ptext_memory_region)
      × (image.mepc ≡ ctx.tmp_image.mepc)
unfolding place_segment align_16
place_segment-data ctx region h data_segment =
    let flag : (ctx.pheader.p_flags % 2 == 1) ≡ false = ground arith in
    rw flag (omega arith, omega arith, omega arith, refl, refl, refl, refl)
