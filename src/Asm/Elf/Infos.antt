-- ===== src/Asm/Elf/Infos.antt =====
-- The sections that `elf_dump_out` finds in the blocks, and their places.
use riscy_os.Base.{
  ℕ, suc, ◌+◌, ◌≡◌, refl, sym, ap, ◌∙◌, inl, inr, true, List, [], ◌∷◌, ◌++◌, arith, Bool-cases,
  length, length-append,
}
use mathlib.Core.List.{append_assoc, append-nil}
use native.Mathlib.Nat.{zero-add}
use riscy_os.Asm.Elf.{ElfTemp, ElfInfo, grow_last, section_infos}
use riscy_os.Asm.Elf.File.{code_bytes}
use riscy_os.Asm.Elf.Sections.{Section, extend, gather, first_starts}

-- The list of `elf_info` records that sections call for, from a position on.
unfoldable pub place_sections : List Section → (position : ℕ) → List ElfInfo
place_sections [] p = []
place_sections (s ∷ ss) p =
    record { address = s.start; position = p; size = length s.content }
    ∷ place_sections ss (p + length s.content)

unfoldable pub contents : List Section → List ℕ
contents [] = []
contents (s ∷ ss) = s.content ++ contents ss

contents-append : (ss ts : List Section) → contents (ss ++ ts) ≡ contents ss ++ contents ts
unfolding contents
contents-append [] ts = refl
contents-append (s ∷ ss) ts =
    ap (λ (l : List ℕ). s.content ++ l) (contents-append ss ts)
    ∙ sym (append_assoc s.content (contents ss) (contents ts))

place_sections-append :
    (ss : List Section) (s : Section) (p : ℕ)
    → place_sections (ss ++ (s ∷ [])) p
      ≡ place_sections ss p
        ++ (record {
          address = s.start;
          position = p + length (contents ss);
          size = length s.content;
        }
            ∷ [])
unfolding place_sections contents
place_sections-append [] s p = ground arith
place_sections-append (x ∷ ss) s p =
    let at : p + length (x.content ++ contents ss) ≡ p + length x.content + length (contents ss) =
      omega (arith, length-append x.content (contents ss)) in
    let head : ElfInfo = record { address = x.start; position = p; size = length x.content } in
    rw at (ap (◌∷◌ head) (place_sections-append ss s (p + length x.content)))

place_sections-extend :
    (bs : List ℕ) (ss : List Section) (p : ℕ)
    → place_sections (extend bs ss) p ≡ grow_last (length bs) (place_sections ss p)
unfolding place_sections extend grow_last
place_sections-extend bs [] p = refl
place_sections-extend bs (s ∷ []) p = rw (length-append s.content bs)
place_sections-extend bs (s ∷ s' ∷ []) p = rw (length-append s'.content bs)
place_sections-extend bs (s ∷ s' ∷ s'' ∷ ss) p =
    let head : ElfInfo = record { address = s.start; position = p; size = length s.content } in
    ap (◌∷◌ head) (place_sections-extend bs (s' ∷ s'' ∷ ss) (p + length s.content))

grow_last-append :
    (n : ℕ) (is : List ElfInfo) (i : ElfInfo)
    → grow_last n (is ++ (i ∷ [])) ≡ is ++ (record i { size = i.size + n } ∷ [])
unfolding grow_last
grow_last-append n [] i = refl
grow_last-append n (x ∷ []) i = refl
grow_last-append n (x ∷ y ∷ is) i = ap (◌∷◌ x) (grow_last-append n (y ∷ is) i)

contents-extend :
    (bs : List ℕ) (ss : List Section) (s : Section)
    → contents (extend bs (s ∷ ss)) ≡ contents (s ∷ ss) ++ bs
unfolding contents extend
contents-extend bs [] s = simp (append_assoc, append-nil)
contents-extend bs (s' ∷ ss) s =
    ap (λ (l : List ℕ). s.content ++ l) (contents-extend bs ss s')
    ∙ sym (append_assoc s.content (contents (s' ∷ ss)) bs)

-- The next block starts a section where there is none.
abbrev pub CanFollow : List Section → List ElfTemp → Type 0
CanFollow [] rs = first_starts rs ≡ true
CanFollow (_ ∷ _) rs = Unit {0}

CanFollow-extend :
    (bs : List ℕ) (s : Section) (ss : List Section) (rs : List ElfTemp)
    → CanFollow (extend bs (s ∷ ss)) rs
unfolding extend
CanFollow-extend bs s [] rs = tt
CanFollow-extend bs s (s' ∷ ss) rs = tt

CanFollow-append :
    (ss : List Section) (s : Section) (rs : List ElfTemp) → CanFollow (ss ++ (s ∷ [])) rs
CanFollow-append [] s rs = tt
CanFollow-append (x ∷ ss) s rs = tt

-- A block that goes on has a section to go on with.
follow-extend :
    (r : ElfTemp) (rs : List ElfTemp) (ss : List Section)
    → CanFollow ss (r ∷ rs)
    → r.continuation ≡ true
    → (contents (extend r.bytes ss) ≡ contents ss ++ r.bytes) × CanFollow (extend r.bytes ss) rs
follow-extend r rs [] can goes_on = absurd (ground (arith, can, goes_on))
follow-extend r rs (s ∷ ss) can goes_on =
    (contents-extend r.bytes ss s, CanFollow-extend r.bytes s ss rs)

follow-append :
    (r : ElfTemp) (ss : List Section)
    → contents (ss ++ (record { start = r.address; content = r.bytes } ∷ []))
      ≡ contents ss ++ r.bytes
unfolding contents
follow-append r ss =
    contents-append ss (record { start = r.address; content = r.bytes } ∷ [])
    ∙ ap (λ (l : List ℕ). contents ss ++ l) (append-nil r.bytes)

pub section_infos-place_sections :
    (rs : List ElfTemp) (ss : List Section)
    → CanFollow ss rs
    → section_infos rs (length (contents ss)) (place_sections ss 0)
      ≡ (place_sections (gather rs ss) 0, length (contents (gather rs ss)))
unfolding section_infos gather
section_infos-place_sections [] ss can = refl
section_infos-place_sections (r ∷ rs) ss can = elim (Bool-cases r.continuation) [
  | inl goes_on ↦
      let next = follow-extend r rs ss can goes_on in
      let total : length (contents (extend r.bytes ss)) ≡ length (contents ss) + length r.bytes =
        ap length (next.0) ∙ length-append (contents ss) r.bytes in
      rw (goes_on, ← total, ← place_sections-extend r.bytes ss 0)
        (section_infos-place_sections rs (extend r.bytes ss) next.1)
  | inr starts ↦
      let s : Section = record { start = r.address; content = r.bytes } in
      let total : length (contents (ss ++ (s ∷ []))) ≡ length (contents ss) + length r.bytes =
        ap length (follow-append r ss) ∙ length-append (contents ss) r.bytes in
      let placed : grow_last (length r.bytes) (
            place_sections ss 0
            ++ (record { address = r.address; position = length (contents ss); size = 0 } ∷ []))
          ≡ place_sections (ss ++ (s ∷ [])) 0 =
        let started : ElfInfo = record {
          address = r.address;
          position = length (contents ss);
          size = 0;
        } in
        rw (
          place_sections-append ss s 0,
          grow_last-append (length r.bytes) (place_sections ss 0) started,
          zero-add (length r.bytes),
          zero-add (length (contents ss)),
        ) in
      rw (starts, placed, ← total)
        (section_infos-place_sections rs (ss ++ (s ∷ [])) (CanFollow-append ss s rs))
]

pub contents-gather :
    (rs : List ElfTemp) (ss : List Section)
    → CanFollow ss rs
    → contents (gather rs ss) ≡ contents ss ++ code_bytes rs
unfolding code_bytes gather
contents-gather [] ss can = sym (append-nil (contents ss))
contents-gather (r ∷ rs) ss can = elim (Bool-cases r.continuation) [
  | inl goes_on ↦
      let next = follow-extend r rs ss can goes_on in
      rw goes_on (contents-gather rs (extend r.bytes ss) next.1)
      ∙ ap (λ (l : List ℕ). l ++ code_bytes rs) next.0
      ∙ append_assoc (contents ss) r.bytes (code_bytes rs)
  | inr starts ↦
      let s : Section = record { start = r.address; content = r.bytes } in
      rw starts (contents-gather rs (ss ++ (s ∷ [])) (CanFollow-append ss s rs))
      ∙ ap (λ (l : List ℕ). l ++ code_bytes rs) (follow-append r ss)
      ∙ append_assoc (contents ss) r.bytes (code_bytes rs)
]

pub length-place_sections : (ss : List Section) (p : ℕ) → length (place_sections ss p) ≡ length ss
unfolding place_sections
length-place_sections [] p = refl
length-place_sections (s ∷ ss) p = ap suc (length-place_sections ss (p + length s.content))
