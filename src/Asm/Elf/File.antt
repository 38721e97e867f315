-- ===== src/Asm/Elf/File.antt =====
-- The file that `elf_dump_out` of tools/assembler/rva.c writes, byte by byte. The code sums lengths in
-- 32 bits; only the low 32 bits of a sum are written, so that the sums here need no wrap-around.
use riscy_os.Base.{
  ℕ, zero, suc, ◌+◌, ◌-◌, ◌*◌, ◌%◌, ◌||◌, List, [], ◌∷◌, ◌++◌, ◌==◌, if◌then◌else◌, length,
  word_bytes,
}
use riscy_os.Asm.Symbols.{SymRecord, SymTable}
use riscy_os.Asm.Symbols.Sort.{
  is_exported, sym_sort_symbols, sym_count_symbols, all, exported, for_elf,
}
use riscy_os.Asm.Label.{has_flag}
use riscy_os.Asm.Elf.{ElfTemp, ElfInfo, section_infos}

-- ELF_MACHINE, ELF_EHSIZE, ELF_PHENTSIZE, ELF_SHENTSIZE and ELF_SHN_ABS
abbrev pub elf_machine : ℕ
elf_machine = 0xF3

abbrev pub elf_ehsize : ℕ
elf_ehsize = 52

abbrev pub elf_phentsize : ℕ
elf_phentsize = 32

abbrev pub elf_shentsize : ℕ
elf_shentsize = 40

abbrev pub elf_shn_abs : ℕ
elf_shn_abs = 0xFFF1

-- SYM_REC_EQU_FLAG and SYM_REC_USR_FLAG, together SYM_REC_EQUATED
abbrev pub sym_rec_equ_flag : ℕ
sym_rec_equ_flag = 1024

abbrev pub sym_rec_usr_flag : ℕ
sym_rec_usr_flag = 2048

-- `elf_dump_word`
abbrev pub elf_dump_word : ℕ → List ℕ
elf_dump_word word = word_bytes word

unfoldable pub dump_words : List ℕ → List ℕ
dump_words [] = []
dump_words (w ∷ ws) = elf_dump_word w ++ dump_words ws

-- (n + 3) & 0xFFFFFFFC
abbrev pub word_align : ℕ → ℕ
word_align n = n + 3 - (n + 3) % 4

-- `count` zero bytes.
unfoldable pub zeros : (count : ℕ) → List ℕ
zeros zero = []
zeros (suc n) = 0 ∷ zeros n

unfoldable pub pad_word : List ℕ → List ℕ
unfolding zeros
pad_word bs = bs ++ zeros (word_align (length bs) - length bs)

unfoldable pub all_names : List SymRecord → List ℕ
all_names [] = []
all_names (r ∷ rs) = r.label.chars ++ (0 ∷ all_names rs)

-- `sym_strtab`, for names of at most 32 characters: its length is that of the array. For longer ones
-- the code goes on to what stands in memory behind the record, which is left out here.
unfoldable pub sym_strtab : List SymRecord → List ℕ
unfolding pad_word all_names
sym_strtab rs = pad_word (0 ∷ all_names rs)

-- `while (strings[j++] != '\0');` over the strings from `j` on.
unfoldable pub beyond_null : List ℕ → (j : ℕ) → ℕ × List ℕ
beyond_null [] j = (j, [])
beyond_null (c ∷ cs) j = if c == 0 then (j + 1, cs) else beyond_null cs (j + 1)

-- The binding in st_info, and the section: st_shndx.
unfoldable pub symbol_section : SymRecord → ℕ
symbol_section r =
    (if has_flag r.flags sym_rec_equ_flag || has_flag r.flags sym_rec_usr_flag
        then elf_shn_abs
        else r.elf_section)
      * 65536
    + (if is_exported r then 0x10 else 0)

-- The symbol table behind its first entry: `count` entries, with the strings from `j` on. The list has
-- as many records.
unfoldable pub symbol_entries : (count : ℕ) → List SymRecord → (strings : List ℕ) → (j : ℕ) → List ℕ
unfolding beyond_null symbol_section
symbol_entries zero rs strings j = []
symbol_entries (suc n) [] strings j = []
symbol_entries (suc n) (r ∷ rs) strings j =
    let next = beyond_null strings j in
    elf_dump_word next.0
    ++ (elf_dump_word r.value
        ++ (elf_dump_word 0
            ++ (elf_dump_word (symbol_section r) ++ symbol_entries n rs next.1 next.0)))

unfoldable pub program_headers : List ElfInfo → List ℕ
unfolding dump_words
program_headers [] = []
program_headers (i ∷ is) =
    dump_words
      (1 ∷ (elf_ehsize + i.position) ∷ i.address ∷ i.address ∷ i.size ∷ i.size ∷ 0 ∷ 1 ∷ [])
    ++ program_headers is

-- `elf_dump_SH`, with the ten words of a section header.
unfoldable pub elf_dump_sh : (name type flags addr pos size link info align size2 : ℕ) → List ℕ
unfolding dump_words
elf_dump_sh name type flags addr pos size link info align size2 =
    dump_words (name ∷ type ∷ flags ∷ addr ∷ pos ∷ size ∷ link ∷ info ∷ align ∷ size2 ∷ [])

unfoldable pub code_headers : List ElfInfo → List ℕ
unfolding elf_dump_sh
code_headers [] = []
code_headers (i ∷ is) =
    elf_dump_sh 1 1 0x07 i.address (elf_ehsize + i.position) i.size 0 0 0 0 ++ code_headers is

unfoldable pub code_bytes : List ElfTemp → List ℕ
code_bytes [] = []
code_bytes (r ∷ rs) = r.bytes ++ code_bytes rs

-- "symtab", "strtab" and "shstrtab"
abbrev pub sym_sectionname : List ℕ
sym_sectionname = 115 ∷ 121 ∷ 109 ∷ 116 ∷ 97 ∷ 98 ∷ []

abbrev pub str_sectionname : List ℕ
str_sectionname = 115 ∷ 116 ∷ 114 ∷ 116 ∷ 97 ∷ 98 ∷ []

abbrev pub shs_sectionname : List ℕ
shs_sectionname = 115 ∷ 104 ∷ str_sectionname

-- `SHstrings`
unfoldable pub section_strings : (elf_file_name : List ℕ) → List ℕ
unfolding pad_word
section_strings name = pad_word (
    0
    ∷ (name
        ++ (0
            ∷ (sym_sectionname ++ (0 ∷ (str_sectionname ++ (0 ∷ (shs_sectionname ++ (0 ∷ [])))))))))

-- The parts of the file that do not depend on one another: the lengths behind the code.
pub record Lengths : Type 0 where
  pub fragments : ℕ
  pub code : ℕ
  pub symtab : ℕ
  pub strtab : ℕ
  pub shstrtab : ℕ

-- `prog_start + total + symtab_length + strtab_length + shstrtab_length`
abbrev pub program_headers_at : Lengths → ℕ
program_headers_at l = elf_ehsize + l.code + l.symtab + l.strtab + l.shstrtab

unfoldable pub file_header : (entry_address : ℕ) → Lengths → List ℕ
unfolding dump_words
file_header entry_address l = dump_words (
    0x464C457F
    ∷ 0x00010101
    ∷ 0
    ∷ 0
    ∷ (2 + elf_machine * 65536)
    ∷ 1
    ∷ entry_address
    ∷ program_headers_at l
    ∷ (program_headers_at l + elf_phentsize * l.fragments)
    ∷ 0
    ∷ (elf_ehsize + elf_phentsize * 65536)
    ∷ (l.fragments + elf_shentsize * 65536)
    ∷ (l.fragments + 4 + (l.fragments + 3) * 65536)
    ∷ [])

unfoldable pub section_headers :
    (name_length symtab_local_count : ℕ) → Lengths → List ElfInfo → List ℕ
unfolding elf_dump_sh code_headers
section_headers name_length local_count l infos =
    elf_dump_sh 0 0 0 0 0 0 0 0 0 0
    ++ (code_headers infos
        ++ (elf_dump_sh (name_length + 2) 2 0 0 (elf_ehsize + l.code) l.symtab (l.fragments + 2)
              local_count 0 16
            ++ (elf_dump_sh (name_length + 9) 3 0 0 (elf_ehsize + l.code + l.symtab) l.strtab 0 0 0
                  0
                ++ elf_dump_sh (name_length + 16) 3 0 0 (elf_ehsize + l.code + l.symtab + l.strtab)
                    l.shstrtab 0 0 0 0)))

-- `pad_to_align`
abbrev pub pad_to_align : (total : ℕ) → ℕ
pad_to_align total = (4 - total % 4) % 4

-- What the lengths are, for the list of sections and the number of symbols.
unfoldable pub lengths_of :
    (infos : List ElfInfo) → (total symtab_count : ℕ) → (strings section_names : List ℕ) → Lengths
lengths_of infos total symtab_count strings names = record {
  fragments = length infos;
  code = total + pad_to_align total;
  symtab = 16 * symtab_count;
  strtab = word_align (length strings);
  shstrtab = length names;
}

-- The file up to the program headers.
unfoldable pub file_body :
    (entry_address : ℕ)
    → Lengths
    → List ElfTemp
    → (total symtab_count : ℕ) → List SymRecord
    → (strings section_names : List ℕ) → List ℕ
unfolding file_header code_bytes symbol_entries
file_body entry_address l blocks total symtab_count head strings names =
    file_header entry_address l
    ++ (code_bytes blocks
        ++ (zeros (pad_to_align total)
            ++ (dump_words (0 ∷ 0 ∷ 0 ∷ 0 ∷ [])
                ++ (symbol_entries (symtab_count - 1) head strings 0 ++ (strings ++ names)))))

unfoldable pub write_file :
    (entry_address : ℕ)
    → (elf_file_name : List ℕ) → List ElfTemp
    → SymTable
    → List ElfInfo × ℕ
    → List ℕ
write_file entry_address name blocks table (infos, total) =
    let head = sym_sort_symbols table all for_elf in
    let symtab_count = sym_count_symbols table all + 1 in
    let strings = sym_strtab head in
    let names = section_strings name in
    let l = lengths_of infos total symtab_count strings names in
    file_body entry_address l blocks total symtab_count head strings names
    ++ (program_headers infos
        ++ section_headers (length name) (symtab_count - sym_count_symbols table exported) l infos)

-- `elf_dump_out`: the bytes of the file.
unfoldable pub elf_dump_out :
    (entry_address : ℕ) → (elf_file_name : List ℕ) → List ElfTemp → SymTable → List ℕ
elf_dump_out entry_address name blocks table =
    write_file entry_address name blocks table (section_infos blocks 0 [])
