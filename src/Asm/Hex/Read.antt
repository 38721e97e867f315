-- ===== src/Asm/Hex/Read.antt =====
-- The hex file read back.
use riscy_os.Base.{
  ℕ, ◌+◌, ◌-◌, ◌%◌, ◌≤◌, ◌<◌, ◌≡◌, refl, sym, ap, ◌∙◌, inl, inr, Bool, true, false, ◌&&◌, none,
  List, [], ◌∷◌, ◌++◌, arith, ◌==◌, ==_iff, if◌then◌else◌, Bool-cases, get_or, Mem, u32_mod, add32,
}
use mathlib.Core.List.{append_assoc, append-nil}
use riscy_os.Asm.Hex.{
  HexOut, buffer_text, print_line, start_line, put_byte, place_byte, end_line, hex_dump,
  hex_dump_flush, hex_line_length,
}
use riscy_os.Asm.Hex.Lines.{
  line_base, cell, line_cells, cell-put_byte_other, line_base-put_byte, line_base-start_line,
  cell-start_line,
}
use riscy_os.Asm.Hex.Buffer.{
  IsLine, put_byte-IsLine, start_line-IsLine, text-buffer, line_cells_ext, shown_cells-blank,
  line_cells-put_byte,
}

-- The bytes of all lines of a file, in order, each with its address.
unfoldable pub file_cells : List (List ℕ) → List (ℕ × ℕ)
file_cells [] = []
file_cells (l ∷ ls) = line_cells (λ i. get_or l i 0) ++ file_cells ls

unfoldable pub dump_all : List (ℕ × ℕ) → HexOut → HexOut
dump_all [] h = h
dump_all ((address, value) ∷ bs) h = dump_all bs (hex_dump address value h)

-- Words and bytes.
abbrev pub InRange : List (ℕ × ℕ) → Type 0
InRange [] = Unit {0}
InRange ((address, value) ∷ bs) = (address < u32_mod) × (value < 256) × InRange bs

file_cells-append :
    (ls : List (List ℕ)) (l : List ℕ)
    → file_cells (ls ++ (l ∷ [])) ≡ file_cells ls ++ line_cells (λ i. get_or l i 0)
unfolding file_cells
file_cells-append [] l = append-nil (line_cells (λ i. get_or l i 0))
file_cells-append (k ∷ ls) l =
    ap (λ (bs : List (ℕ × ℕ)). line_cells (λ i. get_or k i 0) ++ bs) (file_cells-append ls l)
    ∙ sym (
        append_assoc (line_cells (λ i. get_or k i 0)) (file_cells ls)
          (line_cells (λ i. get_or l i 0)))

-- What the buffer holds for the next line.
abbrev pending : HexOut → List (ℕ × ℕ)
pending h = if h.hex_address_defined then line_cells h.hex_buffer else []

-- The line that is being made: the next byte goes into a column with only blank ones from there on.
record IsOpen (b : Mem) (next : ℕ) : Type 0 where
  line : IsLine b
  base : line_base b ≡ next - next % 16
  blank : (k : ℕ) → next % 16 ≤ k → k < 16 → cell b k ≡ none

record Holds (h : HexOut) (bs : List (ℕ × ℕ)) : Type 0 where
  shown : file_cells h.lines ++ pending h ≡ bs
  opened : h.hex_address_defined ≡ true → IsOpen h.hex_buffer h.hex_address

printed :
    (h : HexOut)
    → IsLine h.hex_buffer
    → file_cells (print_line h).lines ≡ file_cells h.lines ++ line_cells h.hex_buffer
unfolding print_line
printed h l =
    file_cells-append h.lines (buffer_text hex_line_length h.hex_buffer 0)
    ∙ ap (λ (bs : List (ℕ × ℕ)). file_cells h.lines ++ bs)
        (line_cells_ext (λ i. get_or (buffer_text hex_line_length h.hex_buffer 0) i 0) h.hex_buffer
          (λ i low. text-buffer h.hex_buffer i l low))

-- The state between `place_byte` and `end_line`.
record Placed (h : HexOut) (address : ℕ) (bs : List (ℕ × ℕ)) : Type 0 where
  shown : file_cells h.lines ++ line_cells h.hex_buffer ≡ bs
  defined : h.hex_address_defined ≡ true
  next : h.hex_address ≡ add32 address 1
  line : IsLine h.hex_buffer
  base : line_base h.hex_buffer ≡ address - address % 16
  blank : (k : ℕ) → address % 16 < k → k < 16 → cell h.hex_buffer k ≡ none

end_line-Holds :
    (h : HexOut) (address : ℕ) (bs : List (ℕ × ℕ))
    → address < u32_mod
    → Placed h address bs
    → Holds (end_line h) bs
unfolding end_line
end_line-Holds h address bs small p = elim (Bool-cases (h.hex_address % 16 == 0)) [
  | inl full ↦ rw full (record {
    shown = append-nil (file_cells (print_line h).lines) ∙ printed h p.line ∙ p.shown;
    opened = λ e. cc;
  })
  | inr room ↦
      let more : h.hex_address ≡ address + 1 = ground (arith, p.next, room) in
      let column : h.hex_address % 16 ≡ address % 16 + 1 = ground (arith, more, room) in
      rw room (record {
        shown = rw (p.defined) (p.shown);
        opened = λ e. record {
          line = p.line;
          base = omega (arith, p.base, more, column);
          blank = λ k high low. p.blank k (omega (arith, column)) low;
        };
      })
]

-- The byte put into a line that is open for it.
put_byte-Placed :
    (address v next : ℕ) (defined : Bool) (b : Mem) (ls : List (List ℕ)) (bs : List (ℕ × ℕ))
    → v < 256
    → next ≡ add32 address 1
    → defined ≡ true
    → file_cells ls ++ line_cells b ≡ bs
    → IsOpen b address
    → Placed
        (record {
          hex_address = next;
          hex_address_defined = defined;
          hex_buffer = put_byte address v b;
          lines = ls;
        })
        address
        (bs ++ ((address, v) ∷ []))
put_byte-Placed address v next defined b ls bs small after is_defined shown o = record {
  shown =
      ap (λ (cs : List (ℕ × ℕ)). file_cells ls ++ cs)
        (line_cells-put_byte address v b small o.base o.blank)
      ∙ sym (append_assoc (file_cells ls) (line_cells b) ((address, v) ∷ []))
      ∙ ap (λ (cs : List (ℕ × ℕ)). cs ++ ((address, v) ∷ [])) shown;
  defined = is_defined;
  next = after;
  line = put_byte-IsLine address v b o.line;
  base = line_base-put_byte address v b ∙ o.base;
  blank =
      λ k high low. cell-put_byte_other address v k b (omega arith) ∙ o.blank k (omega arith) low;
}

start_line-IsOpen :
    (address : ℕ) (b : Mem) → address < u32_mod → IsOpen (start_line address b) address
start_line-IsOpen address b small = record {
  line = start_line-IsLine address b;
  base = line_base-start_line address b small;
  blank = λ k _ low. cell-start_line address k b low;
}

-- A new line shows no byte.
started :
    (address : ℕ) (b : Mem) (ls : List (List ℕ)) (bs : List (ℕ × ℕ))
    → file_cells ls ≡ bs
    → file_cells ls ++ line_cells (start_line address b) ≡ bs
started address b ls bs shown =
    ap (λ (cs : List (ℕ × ℕ)). file_cells ls ++ cs)
      (shown_cells-blank (start_line address b) (line_base (start_line address b)) 0 16
        (λ k _ low. cell-start_line address k b (omega arith)))
    ∙ append-nil (file_cells ls)
    ∙ shown

place_byte-Placed :
    (address v : ℕ) (h : HexOut) (bs : List (ℕ × ℕ))
    → address < u32_mod
    → v < 256
    → Holds h bs
    → Placed (place_byte address v h) address (bs ++ ((address, v) ∷ []))
unfolding place_byte
place_byte-Placed address v h bs low small o = elim (Bool-cases h.hex_address_defined) [
  | inl defined ↦
      let current : file_cells h.lines ++ line_cells h.hex_buffer ≡ bs = rw defined at o.shown in
      let open_line = o.opened defined in
      elim (Bool-cases (address == h.hex_address)) [
        | inl expected ↦
            let at : h.hex_address ≡ address = sym ((==_iff address h.hex_address).0 expected) in
            let after : add32 h.hex_address 1 ≡ add32 address 1 = ap (λ (a : ℕ). add32 a 1) at in
            let both : (h.hex_address_defined && address == h.hex_address) ≡ true =
              ap (λ (d : Bool). d && address == h.hex_address) defined ∙ expected in
            rw both (
              put_byte-Placed address v (add32 h.hex_address 1) h.hex_address_defined h.hex_buffer
                h.lines bs small after defined current (rw at at open_line))
        | inr unexpected ↦
            rw (defined, unexpected)
              (put_byte-Placed address v (add32 address 1) true (start_line address h.hex_buffer)
                (print_line h).lines bs small refl refl
                (started address h.hex_buffer (print_line h).lines bs
                  (printed h open_line.line ∙ current))
                (start_line-IsOpen address h.hex_buffer low))
      ]
  | inr fresh ↦
      let current : file_cells h.lines ≡ bs =
        sym (append-nil (file_cells h.lines)) ∙ rw fresh at o.shown in
      rw fresh (
        put_byte-Placed address v (add32 address 1) true (start_line address h.hex_buffer) h.lines
          bs small refl refl (started address h.hex_buffer h.lines bs current)
          (start_line-IsOpen address h.hex_buffer low))
]

hex_dump-Holds :
    (address v : ℕ) (h : HexOut) (bs : List (ℕ × ℕ))
    → address < u32_mod
    → v < 256
    → Holds h bs
    → Holds (hex_dump address v h) (bs ++ ((address, v) ∷ []))
unfolding hex_dump
hex_dump-Holds address v h bs low small o =
    end_line-Holds (place_byte address v h) address (bs ++ ((address, v) ∷ [])) low
      (place_byte-Placed address v h bs low small o)

dump_all-Holds :
    (cs : List (ℕ × ℕ)) (h : HexOut) (bs : List (ℕ × ℕ))
    → InRange cs
    → Holds h bs
    → Holds (dump_all cs h) (bs ++ cs)
unfolding dump_all
dump_all-Holds [] h bs range o = rw (append-nil bs) o
dump_all-Holds ((address, v) ∷ cs) h bs range o =
    rw (sym (append_assoc bs ((address, v) ∷ []) cs)) (
      dump_all-Holds cs (hex_dump address v h) (bs ++ ((address, v) ∷ [])) range.2
        (hex_dump-Holds address v h bs range.0 range.1 o))

-- The hex file, read back line by line, gives exactly the bytes that were dumped, in their order and
-- with their addresses, whatever order these come in, once the last line has been flushed. The file is
-- empty at the start; addresses are words of 32 bits.
pub hex_dump-file_cells :
    (bs : List (ℕ × ℕ)) (address : ℕ) (buffer : Mem)
    → InRange bs
    → file_cells
        (hex_dump_flush (
          dump_all bs (record {
            hex_address = address;
            hex_address_defined = false;
            hex_buffer = buffer;
            lines = [];
          }))).lines
      ≡ bs
unfolding hex_dump_flush
hex_dump-file_cells bs address buffer range =
    let h : HexOut = record {
      hex_address = address;
      hex_address_defined = false;
      hex_buffer = buffer;
      lines = [];
    } in
    let o =
      dump_all-Holds bs h [] range
        (record { shown = unfold file_cells in refl; opened = λ e. cc }) in
    let end = dump_all bs h in
    elim (Bool-cases end.hex_address_defined) [
      | inl defined ↦ rw defined (printed end (o.opened defined).line ∙ rw defined at o.shown)
      | inr empty ↦ rw empty (sym (append-nil (file_cells end.lines)) ∙ rw empty at o.shown)
    ]
