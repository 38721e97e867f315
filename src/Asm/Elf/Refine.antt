-- ===== src/Asm/Elf/Refine.antt =====
-- `elf_dump` and `elf_new_section_maybe` against the sections that a pass dumps.
use riscy_os.Base.{
  ℕ, ◌+◌, ◌≤◌, ◌<◌, ◌≡◌, refl, ap, ◌∙◌, inl, inr, true, false, not, List, [], ◌∷◌, ◌++◌, arith,
  ◌==◌, if◌then◌else◌, Bool-cases, length, length-append, u32_mod,
}
use riscy_os.Asm.Elf.{
  ElfTemp, ElfOut, elf_start, elf_dump, elf_new_section_maybe, elf_temp_length, is_empty, store_in,
  current_count, start_block, open_block,
}
use riscy_os.Asm.Elf.Sections.{
  ElfEvent, byte, new_section, elf_event, run_events, Section, Sections, extend, section_event,
  run_sections, no_sections, gather, extend-nil, extend-append, length-extend, gather-store_byte,
  gather-append, is_empty-append, is_empty-store_byte, first_starts, first_starts-store_byte,
  first_starts-append, first_starts-append_start, Fit, Fit-store_byte, Fit-append,
  current_count-append,
}

pub record Refines (s : ElfOut) (t : Sections) : Type 0 where
  pub gathered : gather s.elf_record_list [] ≡ t.sections
  pub valid : s.elf_section_valid ≡ not t.fresh
  pub number : s.elf_section ≡ length t.sections + (if t.fresh then 1 else 0)
  pub old : s.elf_section_old ≡ length t.sections
  pub begun : s.elf_new_block ≡ false → is_empty s.elf_record_list ≡ false
  pub started : t.fresh ≡ false → is_empty s.elf_record_list ≡ false
  pub fit : Fit s.elf_record_list
  pub first : first_starts s.elf_record_list ≡ true
  pub room : s.elf_new_block ≡ false → current_count s.elf_record_list < elf_temp_length

-- A byte is stored in blocks that have room for it; their sections get it.
stored :
    (v : ℕ) (blocks : List ElfTemp) (s : ElfOut) (ss : List Section)
    → is_empty blocks ≡ false
    → first_starts blocks ≡ true
    → Fit blocks
    → current_count blocks < elf_temp_length
    → extend (v ∷ []) (gather blocks []) ≡ ss
    → s.elf_section ≡ length ss
    → Refines (store_in v blocks s) (record { sections = ss; fresh = false })
stored v blocks s ss some_block first f room same number = record {
  gathered = gather-store_byte v blocks [] some_block ∙ same;
  valid = refl;
  number = omega arith;
  old = number;
  begun = λ _. is_empty-store_byte v blocks ∙ some_block;
  started = λ _. is_empty-store_byte v blocks ∙ some_block;
  fit = Fit-store_byte v blocks f room;
  first = first_starts-store_byte v blocks ∙ first;
  room = λ more. ground arith;
}

gather-start :
    (r : ElfTemp) (rs : List ElfTemp)
    → r.continuation ≡ false
    → gather (rs ++ (r ∷ [])) []
      ≡ gather rs [] ++ (record { start = r.address; content = r.bytes } ∷ [])
unfolding gather
gather-start r rs starts = rw (gather-append rs (r ∷ []) [], starts)

gather-continue :
    (r : ElfTemp) (rs : List ElfTemp)
    → r.continuation ≡ true
    → gather (rs ++ (r ∷ [])) [] ≡ extend r.bytes (gather rs [])
unfolding gather
gather-continue r rs goes_on = rw (gather-append rs (r ∷ []) [], goes_on)

-- A byte of a fresh section starts a block that starts the section.
open_block-fresh :
    (address : ℕ) (s : ElfOut)
    → (s.elf_section == s.elf_section_old) ≡ false
    → open_block address s
      ≡ s.elf_record_list
        ++ (record { continuation = false; section = s.elf_section; address = address; bytes = [] }
            ∷ [])
unfolding open_block start_block
open_block-fresh address s differ = elim (Bool-cases s.elf_new_block) [
  | inl full ↦ rw (full, differ)
  | inr room ↦ rw (room, differ)
]

-- Any other byte goes on with the section.
open_block-again :
    (address : ℕ) (s : ElfOut)
    → (s.elf_section == s.elf_section_old) ≡ true
    → is_empty s.elf_record_list ≡ false
    → s.elf_new_block ≡ true
    → open_block address s
      ≡ s.elf_record_list
        ++ (record { continuation = true; section = s.elf_section; address = address; bytes = [] }
            ∷ [])
unfolding open_block start_block
open_block-again address s same some_block full = rw (full, same, some_block)

open_block-same :
    (address : ℕ) (s : ElfOut)
    → (s.elf_section == s.elf_section_old) ≡ true
    → s.elf_new_block ≡ false
    → open_block address s ≡ s.elf_record_list
unfolding open_block
open_block-same address s same room = rw (room, same)

elf_dump-fresh :
    (address v : ℕ) (s : ElfOut) (t : Sections)
    → t.fresh ≡ true
    → Refines s t
    → Refines (elf_dump address v s) (section_event (byte address v) t)
unfolding elf_dump
elf_dump-fresh address v s t fresh r =
    let differ : (s.elf_section == s.elf_section_old) ≡ false =
      ground (arith, fresh, r.number, r.old) in
    let number : s.elf_section ≡ length t.sections + 1 = rw fresh at r.number in
    let block : ElfTemp = record {
      continuation = false;
      section = s.elf_section;
      address = address;
      bytes = [];
    } in
    let start : Section = record { start = address; content = [] } in
    let whole : Section = record { start = address; content = v ∷ [] } in
    rw (open_block-fresh address s differ, fresh)
      (stored v (s.elf_record_list ++ (block ∷ [])) s (t.sections ++ (whole ∷ []))
        (is_empty-append s.elf_record_list block)
        (first_starts-append_start s.elf_record_list block r.first refl)
        (Fit-append s.elf_record_list block r.fit (omega arith))
        (omega (arith, current_count-append s.elf_record_list block))
        (ap (extend (v ∷ [])) (gather-start block s.elf_record_list refl)
          ∙ extend-append (v ∷ []) (gather s.elf_record_list []) start
          ∙ ap (λ (ss : List Section). ss ++ (whole ∷ [])) r.gathered)
        (omega (arith, number, length-append t.sections (whole ∷ []))))

elf_dump-again :
    (address v : ℕ) (s : ElfOut) (t : Sections)
    → t.fresh ≡ false
    → Refines s t
    → Refines (elf_dump address v s) (section_event (byte address v) t)
unfolding elf_dump
elf_dump-again address v s t again r =
    let number : s.elf_section ≡ length t.sections + 0 = rw again at r.number in
    let same : (s.elf_section == s.elf_section_old) ≡ true = ground (arith, number, r.old) in
    let some_block = r.started again in
    let block : ElfTemp = record {
      continuation = true;
      section = s.elf_section;
      address = address;
      bytes = [];
    } in
    let longer : length (extend (v ∷ []) t.sections) ≡ length t.sections =
      length-extend (v ∷ []) t.sections in
    let numbered : s.elf_section ≡ length (extend (v ∷ []) t.sections) =
      omega (arith, number, longer) in
    elim (Bool-cases s.elf_new_block) [
      | inl full ↦
          rw (open_block-again address s same some_block full, again)
            (stored v (s.elf_record_list ++ (block ∷ [])) s (extend (v ∷ []) t.sections)
              (is_empty-append s.elf_record_list block)
              (first_starts-append s.elf_record_list block some_block ∙ r.first)
              (Fit-append s.elf_record_list block r.fit (omega arith))
              (omega (arith, current_count-append s.elf_record_list block))
              (ap (extend (v ∷ [])) (
                gather-continue block s.elf_record_list refl
                ∙ extend-nil (gather s.elf_record_list [])
                ∙ r.gathered))
              numbered)
      | inr room ↦
          rw (open_block-same address s same room, again)
            (stored v s.elf_record_list s (extend (v ∷ []) t.sections) some_block r.first r.fit
              (r.room room) (ap (extend (v ∷ [])) r.gathered) numbered)
    ]

new_section-Refines :
    (s : ElfOut) (t : Sections)
    → length t.sections + 1 < u32_mod
    → Refines s t
    → Refines (elf_new_section_maybe s) (section_event new_section t)
unfolding elf_new_section_maybe
new_section-Refines s t small r = elim (Bool-cases t.fresh) [
  | inl fresh ↦
      let unused : s.elf_section_valid ≡ false = rw fresh at r.valid in
      let number : s.elf_section ≡ length t.sections + 1 = rw fresh at r.number in
      rw unused (record {
        gathered = r.gathered;
        valid = refl;
        number = number;
        old = r.old;
        begun = r.begun;
        started = λ e. cc;
        fit = r.fit;
        first = r.first;
        room = r.room;
      })
  | inr again ↦
      let used : s.elf_section_valid ≡ true = rw again at r.valid in
      let number : s.elf_section ≡ length t.sections + 0 = rw again at r.number in
      rw used (record {
        gathered = r.gathered;
        valid = refl;
        number = omega arith;
        old = r.old;
        begun = r.begun;
        started = λ e. cc;
        fit = r.fit;
        first = r.first;
        room = r.room;
      })
]

section_event-length :
    (e : ElfEvent) (t : Sections) → length (section_event e t).sections ≤ length t.sections + 1
section_event-length (byte address v) t = elim (Bool-cases t.fresh) [
  | inl fresh ↦
      rw fresh (
        omega (arith, length-append t.sections (record { start = address; content = v ∷ [] } ∷ [])))
  | inr again ↦ rw again (omega (arith, length-extend (v ∷ []) t.sections))
]
section_event-length new_section t = omega arith

elf_event-Refines :
    (e : ElfEvent) (s : ElfOut) (t : Sections)
    → length t.sections + 1 < u32_mod
    → Refines s t
    → Refines (elf_event e s) (section_event e t)
elf_event-Refines (byte address v) s t small r = elim (Bool-cases t.fresh) [
  | inl fresh ↦ elf_dump-fresh address v s t fresh r
  | inr again ↦ elf_dump-again address v s t again r
]
elf_event-Refines new_section s t small r = new_section-Refines s t small r

pub run_events-Refines :
    (es : List ElfEvent) (s : ElfOut) (t : Sections)
    → length t.sections + length es + 1 < u32_mod
    → Refines s t
    → Refines (run_events es s) (run_sections es t)
unfolding run_events run_sections
run_events-Refines [] s t small r = r
run_events-Refines (e ∷ es) s t small r =
    run_events-Refines es (elf_event e s) (section_event e t)
      (omega (arith, small, section_event-length e t)) (elf_event-Refines e s t (omega arith) r)

pub elf_start-Refines : Refines elf_start no_sections
unfolding gather
elf_start-Refines = record {
  gathered = refl;
  valid = refl;
  number = refl;
  old = refl;
  begun = λ e. cc;
  started = λ e. cc;
  fit = tt;
  first = refl;
  room = λ e. cc;
}

-- The blocks of a pass make up the sections that it dumps: a byte goes behind the last one, and the
-- first byte behind a change of sections starts one at its address. No block is longer than its 20
-- bytes, and the number that labels get is that of the section that the next byte goes to, counted
-- from 1, for passes of less than 2^32 - 1 events.
pub elf_dump-sections :
    (es : List ElfEvent)
    → length es + 1 < u32_mod
    → (gather (run_events es elf_start).elf_record_list [] ≡ (run_sections es no_sections).sections)
      × Fit (run_events es elf_start).elf_record_list
      × ((run_events es elf_start).elf_section
          ≡ length (run_sections es no_sections).sections
            + (if (run_sections es no_sections).fresh then 1 else 0))
elf_dump-sections es small =
    let r = run_events-Refines es elf_start no_sections (omega arith) elf_start-Refines in
    (r.gathered, r.fit, r.number)
