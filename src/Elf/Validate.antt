-- ===== src/Elf/Validate.antt =====
-- What the loader accepts as a header.
use riscy_os.Base.{ℕ, ◌≡◌, refl, Option, none, some, arith}
use riscy_os.Elf.{
  ElfHeader, ElfCtx, reading_header, load_pheader, asks, seek_to, elf_validate_header, elf_step,
  step_in,
}

elf_validate_header-one : (h : Option ElfHeader) → elf_validate_header h ≡ 1
unfolding elf_validate_header
elf_validate_header-one none = refl
elf_validate_header-one (some h) = ground arith

-- `elf_validate_header` answers 1 for every header and for NULL, and so no header makes `elf_step`
-- fail: with a header read it goes on to the program headers.
pub elf_validate_header_constant :
    (h : Option ElfHeader) (ctx : ElfCtx) (region mem : ℕ)
    → ctx.state ≡ reading_header
    → (elf_validate_header h ≡ 1)
      × (elf_step ctx 0 region mem
          ≡ asks
              (seek_to ctx.header.e_phoff)
              (record ctx { current_seg = 0; state = load_pheader }))
unfolding elf_step
elf_validate_header_constant h ctx region mem st =
    (elf_validate_header-one h, simp (st, step_in, elf_validate_header-one (some ctx.header)))
