-- ===== src/Asm/Elf/Sections.antt =====
-- The sections that a pass dumps, and the blocks that `elf_dump` makes of them.
use riscy_os.Base.{
  ℕ, suc, ◌≤◌, ◌<◌, ◌≡◌, refl, ap, inl, inr, Bool, true, false, not, List, [], ◌∷◌, ◌++◌, arith,
  if◌then◌else◌, Bool-cases, length, length-append,
}
use mathlib.Core.List.{append_assoc, append-nil}
use riscy_os.Asm.Elf.{
  ElfTemp, ElfOut, elf_dump, elf_new_section_maybe, elf_temp_length, is_empty, store_byte,
  current_count,
}

-- What the pass does to the ELF output.
pub data ElfEvent : Type 0 where
  byte : (address value : ℕ) → ElfEvent
  new_section : ElfEvent

abbrev pub elf_event : ElfEvent → ElfOut → ElfOut
elf_event (byte address value) s = elf_dump address value s
elf_event new_section s = elf_new_section_maybe s

unfoldable pub run_events : List ElfEvent → ElfOut → ElfOut
run_events [] s = s
run_events (e ∷ es) s = run_events es (elf_event e s)

-- The view without blocks: a section is where its first byte goes and all its bytes.
pub record Section : Type 0 where
  pub start : ℕ
  pub content : List ℕ

-- `fresh` says that the next byte starts a section.
pub record Sections : Type 0 where
  pub sections : List Section
  pub fresh : Bool

-- More bytes for the last section.
unfoldable pub extend : List ℕ → List Section → List Section
extend bs [] = []
extend bs (s ∷ []) = record s { content = s.content ++ bs } ∷ []
extend bs (s ∷ s' ∷ ss) = s ∷ extend bs (s' ∷ ss)

abbrev pub section_event : ElfEvent → Sections → Sections
section_event (byte address value) t = record {
  sections =
      if t.fresh
      then t.sections ++ (record { start = address; content = value ∷ [] } ∷ [])
      else extend (value ∷ []) t.sections;
  fresh = false;
}
section_event new_section t = record t { fresh = true }

unfoldable pub run_sections : List ElfEvent → Sections → Sections
run_sections [] t = t
run_sections (e ∷ es) t = run_sections es (section_event e t)

abbrev pub no_sections : Sections
no_sections = record { sections = []; fresh = true }

-- The sections that blocks make up, behind others.
unfoldable pub gather : List ElfTemp → List Section → List Section
unfolding extend
gather [] ss = ss
gather (r ∷ rs) ss = gather rs (
    if r.continuation
    then extend r.bytes ss
    else ss ++ (record { start = r.address; content = r.bytes } ∷ []))

pub extend-nil : (ss : List Section) → extend [] ss ≡ ss
unfolding extend
extend-nil [] = refl
extend-nil (s ∷ []) = rw append-nil
extend-nil (s ∷ s' ∷ ss) = ap (◌∷◌ s) (extend-nil (s' ∷ ss))

extend-extend :
    (bs cs : List ℕ) (ss : List Section) → extend cs (extend bs ss) ≡ extend (bs ++ cs) ss
unfolding extend
extend-extend bs cs [] = refl
extend-extend bs cs (s ∷ []) = rw append_assoc
extend-extend bs cs (s ∷ s' ∷ []) = rw append_assoc
extend-extend bs cs (s ∷ s' ∷ s'' ∷ ss) = ap (◌∷◌ s) (extend-extend bs cs (s' ∷ s'' ∷ ss))

pub extend-append :
    (bs : List ℕ) (ss : List Section) (s : Section)
    → extend bs (ss ++ (s ∷ [])) ≡ ss ++ (record s { content = s.content ++ bs } ∷ [])
unfolding extend
extend-append bs [] s = refl
extend-append bs (x ∷ []) s = refl
extend-append bs (x ∷ y ∷ ss) s = ap (◌∷◌ x) (extend-append bs (y ∷ ss) s)

pub length-extend : (bs : List ℕ) (ss : List Section) → length (extend bs ss) ≡ length ss
unfolding extend
length-extend bs [] = refl
length-extend bs (s ∷ []) = refl
length-extend bs (s ∷ s' ∷ ss) = ap suc (length-extend bs (s' ∷ ss))

pub gather-store_byte :
    (v : ℕ) (rs : List ElfTemp) (ss : List Section)
    → is_empty rs ≡ false
    → gather (store_byte v rs) ss ≡ extend (v ∷ []) (gather rs ss)
unfolding gather store_byte
gather-store_byte v [] ss some_block = cc
gather-store_byte v (r ∷ []) ss some_block = elim (Bool-cases r.continuation) [
  | inl goes_on ↦ rw (goes_on, extend-extend r.bytes (v ∷ []) ss)
  | inr starts ↦
      rw (starts, extend-append (v ∷ []) ss (record { start = r.address; content = r.bytes }))
]
gather-store_byte v (r ∷ r' ∷ rs) ss some_block =
    gather-store_byte v (r' ∷ rs)
      (if r.continuation
        then extend r.bytes ss
        else ss ++ (record { start = r.address; content = r.bytes } ∷ []))
      refl

pub gather-append :
    (rs qs : List ElfTemp) (ss : List Section) → gather (rs ++ qs) ss ≡ gather qs (gather rs ss)
unfolding gather
gather-append [] qs ss = refl
gather-append (r ∷ rs) qs ss = gather-append rs qs (
    if r.continuation
    then extend r.bytes ss
    else ss ++ (record { start = r.address; content = r.bytes } ∷ []))

pub is_empty-append : (rs : List ElfTemp) (r : ElfTemp) → is_empty (rs ++ (r ∷ [])) ≡ false
is_empty-append [] r = refl
is_empty-append (q ∷ rs) r = refl

pub is_empty-store_byte : (v : ℕ) (rs : List ElfTemp) → is_empty (store_byte v rs) ≡ is_empty rs
unfolding store_byte
is_empty-store_byte v [] = refl
is_empty-store_byte v (r ∷ []) = refl
is_empty-store_byte v (r ∷ r' ∷ rs) = refl

-- No block is longer than its array.
abbrev pub Fit : List ElfTemp → Type 0
Fit [] = Unit {0}
Fit (r ∷ rs) = (length r.bytes ≤ elf_temp_length) × Fit rs

pub Fit-store_byte :
    (v : ℕ) (rs : List ElfTemp)
    → Fit rs
    → current_count rs < elf_temp_length
    → Fit (store_byte v rs)
unfolding store_byte current_count
Fit-store_byte v [] f room = tt
Fit-store_byte v (r ∷ []) f room = omega (arith, length-append r.bytes (v ∷ []))
Fit-store_byte v (r ∷ r' ∷ rs) f room = (f.0, Fit-store_byte v (r' ∷ rs) f.1 room)

pub Fit-append :
    (rs : List ElfTemp) (r : ElfTemp)
    → Fit rs
    → length r.bytes ≤ elf_temp_length
    → Fit (rs ++ (r ∷ []))
Fit-append [] r f short = (short, tt)
Fit-append (q ∷ rs) r f short = (f.0, Fit-append rs r f.1 short)

pub current_count-append :
    (rs : List ElfTemp) (r : ElfTemp) → current_count (rs ++ (r ∷ [])) ≡ length r.bytes
unfolding current_count
current_count-append [] r = refl
current_count-append (q ∷ []) r = refl
current_count-append (q ∷ q' ∷ rs) r = current_count-append (q' ∷ rs) r

-- The first block goes on with nothing.
abbrev pub first_starts : List ElfTemp → Bool
first_starts [] = true
first_starts (r ∷ _) = not r.continuation

pub first_starts-store_byte :
    (v : ℕ) (rs : List ElfTemp) → first_starts (store_byte v rs) ≡ first_starts rs
unfolding store_byte
first_starts-store_byte v [] = refl
first_starts-store_byte v (r ∷ []) = refl
first_starts-store_byte v (r ∷ r' ∷ rs) = refl

pub first_starts-append :
    (rs : List ElfTemp) (r : ElfTemp)
    → is_empty rs ≡ false
    → first_starts (rs ++ (r ∷ [])) ≡ first_starts rs
first_starts-append [] r some_block = cc
first_starts-append (q ∷ rs) r some_block = refl

pub first_starts-append_start :
    (rs : List ElfTemp) (r : ElfTemp)
    → first_starts rs ≡ true
    → r.continuation ≡ false
    → first_starts (rs ++ (r ∷ [])) ≡ true
first_starts-append_start [] r first starts = rw starts
first_starts-append_start (q ∷ rs) r first starts = first
