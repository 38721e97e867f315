-- ===== src/Asm/Elf.antt =====
-- The ELF output of tools/assembler/rva.c: `elf_dump` collects the bytes of the last pass in blocks of
-- at most 20, and `elf_dump_out` starts with a list of the code sections that the blocks make up. A
-- linked list of blocks is a list in the order of its links, its last one `current_elf_record`.
pub mod File
pub mod Sections
pub mod Refine
pub mod Infos
pub mod Names
pub mod Place
mod Tests
use riscy_os.Base.{
  ℕ, ◌+◌, Bool, true, false, not, ◌&&◌, ◌||◌, List, [], ◌∷◌, ◌++◌, leb, ◌==◌, if◌then◌else◌, length,
  u32_mod, add32,
}

-- ELF_TEMP_LENGTH
abbrev pub elf_temp_length : ℕ
elf_temp_length = 20

-- elf_temp, where `count` is the length of `bytes`.
pub record ElfTemp : Type 0 where
  pub continuation : Bool
  pub section : ℕ
  pub address : ℕ
  pub bytes : List ℕ

-- The variables of the ELF output.
pub record ElfOut : Type 0 where
  pub elf_section_valid : Bool
  pub elf_section : ℕ
  pub elf_section_old : ℕ
  pub elf_new_block : Bool
  pub elf_record_list : List ElfTemp

-- The variables at the start of a pass of `main`, with nothing dumped so far.
abbrev pub elf_start : ElfOut
elf_start = record {
  elf_section_valid = false;
  elf_section = 1;
  elf_section_old = 0;
  elf_new_block = true;
  elf_record_list = [];
}

abbrev pub is_empty : List ElfTemp → Bool
is_empty [] = true
is_empty (_ ∷ _) = false

-- `current_elf_record->data[(current_elf_record->count)++] = value`
unfoldable pub store_byte : (value : ℕ) → List ElfTemp → List ElfTemp
store_byte value [] = []
store_byte value (r ∷ []) = record r { bytes = r.bytes ++ (value ∷ []) } ∷ []
store_byte value (r ∷ r' ∷ rs) = r ∷ store_byte value (r' ∷ rs)

-- `current_elf_record->count`
unfoldable pub current_count : List ElfTemp → ℕ
current_count [] = 0
current_count (r ∷ []) = length r.bytes
current_count (r ∷ r' ∷ rs) = current_count (r' ∷ rs)

-- The block that a byte at the address starts, behind those there are.
unfoldable pub start_block : (address : ℕ) → ElfOut → List ElfTemp
start_block address s =
    s.elf_record_list
    ++ (record {
      continuation = s.elf_section == s.elf_section_old && not (is_empty s.elf_record_list);
      section = s.elf_section;
      address = address;
      bytes = [];
    }
        ∷ [])

-- The blocks with one that the byte goes to at their end.
unfoldable pub open_block : (address : ℕ) → ElfOut → List ElfTemp
unfolding start_block
open_block address s =
    if s.elf_new_block || not (s.elf_section == s.elf_section_old)
    then start_block address s
    else s.elf_record_list

abbrev pub store_in : (value : ℕ) → (blocks : List ElfTemp) → ElfOut → ElfOut
store_in value blocks s = record {
  elf_section_valid = true;
  elf_section = s.elf_section;
  elf_section_old = s.elf_section;
  elf_new_block = leb elf_temp_length (current_count (store_byte value blocks));
  elf_record_list = store_byte value blocks;
}

unfoldable pub elf_dump : (address value : ℕ) → ElfOut → ElfOut
unfolding store_byte current_count open_block
elf_dump address value s = store_in value (open_block address s) s

unfoldable pub elf_new_section_maybe : ElfOut → ElfOut
elf_new_section_maybe s =
    if s.elf_section_valid
    then record s { elf_section = add32 s.elf_section 1; elf_section_valid = false }
    else s

-- elf_info
pub record ElfInfo : Type 0 where
  pub address : ℕ
  pub position : ℕ
  pub size : ℕ

-- `pInfo->size = pInfo->size + pTemp->count`, where `pInfo` is the last one.
unfoldable pub grow_last : (count : ℕ) → List ElfInfo → List ElfInfo
grow_last count [] = []
grow_last count (i ∷ []) = record i { size = i.size + count } ∷ []
grow_last count (i ∷ i' ∷ is) = i ∷ grow_last count (i' ∷ is)

-- The loop of `elf_dump_out` over the blocks, which makes the list of sections and the total.
unfoldable pub section_infos : List ElfTemp → (total : ℕ) → List ElfInfo → List ElfInfo × ℕ
unfolding grow_last
section_infos [] total infos = (infos, total)
section_infos (r ∷ rs) total infos =
    let infos' =
      if r.continuation
      then infos
      else infos ++ (record { address = r.address; position = total; size = 0 } ∷ []) in
    section_infos rs (total + length r.bytes) (grow_last (length r.bytes) infos')
