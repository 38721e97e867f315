-- ===== src/Asm/Elf/Place.antt =====
-- Where `elf_dump_out` puts the sections: what a reader of the file finds.
use riscy_os.Base.{
  ℕ, zero, suc, ◌+◌, ◌-◌, ◌*◌, ◌%◌, ◌<◌, ◌≡◌, refl, sym, ap, ◌∙◌, true, List, [], ◌∷◌, ◌++◌, arith,
  length, length-append, u32_mod, drop, drop-length, slice, slice-middle, word_bytes, first_word,
  word_at,
}
use mathlib.Core.List.{append_assoc}
use riscy_os.Asm.Symbols.Sorted.{length-sym_sort_symbols}
use riscy_os.Asm.Elf.Infos.{
  place_sections, contents, section_infos-place_sections, contents-gather, length-place_sections,
}
use riscy_os.Elf.{ProgramHeader}
use riscy_os.Asm.Symbols.{SymRecord, SymTable}
use riscy_os.Asm.Symbols.Sort.{sym_sort_symbols, sym_count_symbols, all, exported, for_elf}
use riscy_os.Asm.Elf.{ElfTemp, ElfInfo, elf_start, section_infos}
use riscy_os.Asm.Elf.File.{
  dump_words, elf_ehsize, program_headers, code_bytes, zeros, pad_to_align, Lengths,
  program_headers_at, file_header, lengths_of, file_body, write_file, beyond_null, pad_word,
  all_names, section_headers, section_strings, sym_strtab, symbol_entries, elf_dump_out, word_align,
}
use riscy_os.Asm.Elf.Sections.{
  ElfEvent, run_events, Section, run_sections, no_sections, gather, first_starts,
}
use riscy_os.Asm.Elf.Refine.{elf_start-Refines, run_events-Refines}

-- What follows a program header's start.
abbrev pub read_program_header : List ℕ → ProgramHeader
read_program_header bs = record {
  p_type = word_at bs 0;
  p_offset = word_at bs 4;
  p_vaddr = word_at bs 8;
  p_paddr = word_at bs 12;
  p_filesz = word_at bs 16;
  p_memsz = word_at bs 20;
  p_flags = word_at bs 24;
  p_align = word_at bs 28;
}

unfoldable pub read_program_headers : (count : ℕ) → List ℕ → List ProgramHeader
read_program_headers zero bs = []
read_program_headers (suc n) bs = read_program_header bs ∷ read_program_headers n (drop 32 bs)

-- The program headers of a file: as many as e_phnum says, from e_phoff on.
abbrev pub program_headers_of : List ℕ → List ProgramHeader
program_headers_of file =
    read_program_headers (word_at file 44 % 65536) (drop (word_at file 28) file)

-- A header for each section, which says where the section goes, and where in the file its bytes are.
abbrev pub Loads : List ℕ → List ProgramHeader → List Section → Type 0
Loads file [] [] = Unit {0}
Loads file [] (_ ∷ _) = ⊥
Loads file (_ ∷ _) [] = ⊥
Loads file (h ∷ hs) (s ∷ ss) =
    (h.p_type ≡ 1)
    × (h.p_vaddr ≡ s.start % u32_mod)
    × (h.p_filesz ≡ length s.content)
    × (h.p_memsz ≡ length s.content)
    × (h.p_flags ≡ 0)
    × (slice h.p_offset h.p_filesz file ≡ s.content)
    × Loads file hs ss

-- A word below 2^32 is read as it was written.
pub whole_word : (w : ℕ) → w < u32_mod → first_word (word_bytes w) ≡ w
whole_word w small = omega arith

-- The headers of sections whose bytes stand in the file from a position on.
place_sections-Loads :
    (ss : List Section) (file pre post rest : List ℕ) (p : ℕ)
    → file ≡ pre ++ (contents ss ++ post)
    → length pre ≡ elf_ehsize + p
    → elf_ehsize + p + length (contents ss) < u32_mod
    → Loads file
        (read_program_headers (length ss) (program_headers (place_sections ss p) ++ rest))
        ss
unfolding place_sections contents read_program_headers program_headers dump_words drop
place_sections-Loads [] file pre post rest p split at small = tt
place_sections-Loads (s ∷ ss) file pre post rest p split at small =
    let both : length (s.content ++ contents ss) ≡ length s.content + length (contents ss) =
      length-append s.content (contents ss) in
    let offset : elf_ehsize + p < u32_mod = omega arith in
    let size : length s.content < u32_mod = omega arith in
    let regroup : file ≡ pre ++ (s.content ++ (contents ss ++ post)) =
      split ∙ ap (λ (l : List ℕ). pre ++ l) (append_assoc s.content (contents ss) post) in
    let next : file ≡ (pre ++ s.content) ++ (contents ss ++ post) =
      regroup ∙ sym (append_assoc pre s.content (contents ss ++ post)) in
    (
      refl,
      omega arith,
      whole_word (length s.content) size,
      whole_word (length s.content) size,
      refl,
      rw (whole_word (elf_ehsize + p) offset, whole_word (length s.content) size, ← at, regroup)
          (slice-middle pre s.content (contents ss ++ post)),
      place_sections-Loads ss file (pre ++ s.content) post rest (p + length s.content) next
          (omega (arith, length-append pre s.content)) (omega arith),
    )

length-zeros : (n : ℕ) → length (zeros n) ≡ n
unfolding zeros
length-zeros zero = refl
length-zeros (suc n) = ap suc (length-zeros n)

length-symbol_entries :
    (n : ℕ) (rs : List SymRecord) (strings : List ℕ) (j : ℕ)
    → length rs ≡ n
    → length (symbol_entries n rs strings j) ≡ 16 * n
unfolding symbol_entries
length-symbol_entries zero rs strings j h = refl
length-symbol_entries (suc n) [] strings j h = absurd (omega arith)
length-symbol_entries (suc n) (r ∷ rs) strings j h =
    let next = beyond_null strings j in
    omega (arith, length-symbol_entries n rs next.1 next.0 (omega arith))

length-pad_word : (bs : List ℕ) → length (pad_word bs) ≡ word_align (length bs)
unfolding pad_word
length-pad_word bs = omega (
  arith,
  length-append bs (zeros (word_align (length bs) - length bs)),
  length-zeros (word_align (length bs) - length bs),
)

length-sym_strtab :
    (rs : List SymRecord) → word_align (length (sym_strtab rs)) ≡ length (sym_strtab rs)
unfolding sym_strtab
length-sym_strtab rs = omega (arith, length-pad_word (0 ∷ all_names rs))

-- The program headers stand behind the body.
length-file_body :
    (entry : ℕ) (infos : List ElfInfo) (blocks : List ElfTemp) (total count : ℕ)
    (head : List SymRecord) (names : List ℕ)
    → length (code_bytes blocks) ≡ total
    → length head ≡ count
    → let strings = sym_strtab head in
      let l = lengths_of infos total (count + 1) strings names in
      length (file_body entry l blocks total (count + 1) head strings names) ≡ program_headers_at l
unfolding file_body lengths_of file_header dump_words
length-file_body entry infos blocks total count head names code symbols =
    let strings = sym_strtab head in
    let pad = zeros (pad_to_align total) in
    let entries = symbol_entries (count + 1 - 1) head strings 0 in
    let tail = entries ++ (strings ++ names) in
    omega (
      arith,
      code,
      length-append strings names,
      length-append entries (strings ++ names),
      length-append pad (dump_words (0 ∷ 0 ∷ 0 ∷ 0 ∷ []) ++ tail),
      length-append (code_bytes blocks) (pad ++ (dump_words (0 ∷ 0 ∷ 0 ∷ 0 ∷ []) ++ tail)),
      length-zeros (pad_to_align total),
      length-sym_strtab head,
      length-symbol_entries (count + 1 - 1) head strings 0 (omega arith),
    )

-- The file in front of the code, the code, and what follows it.
write_file-split :
    (entry : ℕ) (l : Lengths) (blocks : List ElfTemp) (total count : ℕ) (head : List SymRecord)
    (strings names rest : List ℕ)
    → (post : List ℕ) × (file_body entry l blocks total count head strings names ++ rest
        ≡ file_header entry l ++ (code_bytes blocks ++ post))
unfolding file_body
write_file-split entry l blocks total count head strings names rest =
    let more =
      zeros (pad_to_align total)
      ++ (dump_words (0 ∷ 0 ∷ 0 ∷ 0 ∷ [])
          ++ (symbol_entries (count - 1) head strings 0 ++ (strings ++ names))) in
    (
      more ++ rest,
      append_assoc (file_header entry l) (code_bytes blocks ++ more) rest
          ∙ ap (λ (bs : List ℕ). file_header entry l ++ bs)
              (append_assoc (code_bytes blocks) more rest),
    )

-- What the file's header says of the program headers.
header_words :
    (entry : ℕ) (l : Lengths) (rest : List ℕ)
    → program_headers_at l < u32_mod
    → l.fragments < 65536
    → (word_at (file_header entry l ++ rest) 28 ≡ program_headers_at l)
      × (word_at (file_header entry l ++ rest) 44 % 65536 ≡ l.fragments)
unfolding file_header dump_words drop
header_words entry l rest small few = (whole_word (program_headers_at l) small, omega arith)

length-file_header : (entry : ℕ) (l : Lengths) → length (file_header entry l) ≡ elf_ehsize
unfolding file_header dump_words
length-file_header entry l = refl

-- A file with a body of the length that its header says.
file-Loads :
    (entry : ℕ) (l : Lengths) (body rest post : List ℕ) (ss : List Section)
    → let file = body ++ (program_headers (place_sections ss 0) ++ rest) in
      file ≡ file_header entry l ++ (contents ss ++ post)
      → length body ≡ program_headers_at l
      → l.fragments ≡ length ss
      → length ss < 65536
      → length file < u32_mod
      → Loads file (program_headers_of file) ss
file-Loads entry l body rest post ss split at count few small =
    let headers = program_headers (place_sections ss 0) ++ rest in
    let words =
      header_words entry l (contents ss ++ post)
        (omega (arith, at, small, length-append body headers)) (omega arith) in
    let phoff : word_at (body ++ headers) 28 ≡ length body =
      ap (λ f. word_at f 28) split ∙ words.0 ∙ sym at in
    let phnum : word_at (body ++ headers) 44 % 65536 ≡ length ss =
      ap (λ f. word_at f 44 % 65536) split ∙ words.1 ∙ count in
    let room : length (body ++ headers) ≡ elf_ehsize + (length (contents ss) + length post) =
      ap length split
      ∙ length-append (file_header entry l) (contents ss ++ post)
      ∙ omega (arith, length-file_header entry l, length-append (contents ss) post) in
    rw (phoff, phnum, drop-length body headers)
      (place_sections-Loads ss (body ++ headers) (file_header entry l) post rest 0 split
        (length-file_header entry l) (omega arith))

fragments_lem :
    (infos : List ElfInfo) (total count : ℕ) (strings names : List ℕ)
    → (lengths_of infos total count strings names).fragments ≡ length infos
unfolding lengths_of
fragments_lem infos total count strings names = refl

write_file-Loads :
    (entry : ℕ) (name : List ℕ) (blocks : List ElfTemp) (table : SymTable) (ss : List Section)
    → let file = write_file entry name blocks table (place_sections ss 0, length (contents ss)) in
      code_bytes blocks ≡ contents ss
      → length ss < 65536
      → length file < u32_mod
      → Loads file (program_headers_of file) ss
unfolding write_file
write_file-Loads entry name blocks table ss code few small =
    let infos = place_sections ss 0 in
    let total = length (contents ss) in
    let head = sym_sort_symbols table all for_elf in
    let count = sym_count_symbols table all in
    let strings = sym_strtab head in
    let names = section_strings name in
    let l = lengths_of infos total (count + 1) strings names in
    let rest =
      section_headers (length name) (count + 1 - sym_count_symbols table exported) l infos in
    let body = file_body entry l blocks total (count + 1) head strings names in
    let split =
      write_file-split entry l blocks total (count + 1) head strings names
        (program_headers infos ++ rest) in
    file-Loads entry l body rest split.0 ss
      (split.1 ∙ ap (λ (bs : List ℕ). file_header entry l ++ (bs ++ split.0)) code)
      (length-file_body entry infos blocks total count head names (ap length code)
        (length-sym_sort_symbols table for_elf))
      (fragments_lem infos total (count + 1) strings names ∙ length-place_sections ss 0) few small

infos_of :
    (blocks : List ElfTemp) (ss : List Section)
    → first_starts blocks ≡ true
    → gather blocks [] ≡ ss
    → section_infos blocks 0 [] ≡ (place_sections ss 0, length (contents ss))
unfolding place_sections contents
infos_of blocks ss first gathered =
    section_infos-place_sections blocks [] first
    ∙ ap (λ (ts : List Section). (place_sections ts 0, length (contents ts))) gathered

code_of :
    (blocks : List ElfTemp) (ss : List Section)
    → first_starts blocks ≡ true
    → gather blocks [] ≡ ss
    → code_bytes blocks ≡ contents ss
unfolding contents
code_of blocks ss first gathered = sym (contents-gather blocks [] first) ∙ ap contents gathered

-- What a pass dumps is found in the file that `elf_dump_out` writes for it: the header of the file
-- says where the program headers are and how many, and they are one for each section of the pass, in
-- order, of type 1 with the address of its first byte, its length, and the place_sections of its bytes in the
-- file, for fewer than 65,536 sections in a file of less than 2^32 bytes. The flags are 0.
pub elf_dump_out-Loads :
    (entry : ℕ) (name : List ℕ) (table : SymTable) (es : List ElfEvent)
    → let file = elf_dump_out entry name (run_events es elf_start).elf_record_list table in
      let ss = (run_sections es no_sections).sections in
      length es + 1 < u32_mod
      → length ss < 65536
      → length file < u32_mod
      → Loads file (program_headers_of file) ss
unfolding elf_dump_out
elf_dump_out-Loads entry name table es few_events few small =
    let r = run_events-Refines es elf_start no_sections (omega arith) elf_start-Refines in
    let blocks = (run_events es elf_start).elf_record_list in
    let ss = (run_sections es no_sections).sections in
    let infos : section_infos blocks 0 [] ≡ (place_sections ss 0, length (contents ss)) =
      infos_of blocks ss r.first r.gathered in
    let small' = rw infos at small in
    rw infos (
      write_file-Loads entry name blocks table ss (code_of blocks ss r.first r.gathered) few small')
