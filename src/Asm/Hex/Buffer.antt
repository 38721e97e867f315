-- ===== src/Asm/Hex/Buffer.antt =====
-- The line buffer of the hex file: its text, and the bytes in it.
use riscy_os.Base.{
  ℕ, zero, suc, ◌+◌, ◌-◌, ◌*◌, ◌/◌, ◌%◌, ◌≤◌, ◌<◌, ◌≡◌, refl, sym, ap, ◌∙◌, ◌≢◌, inl, inr, false,
  Option, none, some, List, [], ◌∷◌, ◌++◌, arith, ◌==◌, ==_iff, Bool-cases, get_or, Mem, write,
}
use native.Mathlib.Nat.{add-zero, zero-add}
use riscy_os.Asm.Hex.{buffer_text, blank_line, start_line, put_byte}
use riscy_os.Asm.Hex.Lines.{
  line_base, cell, add_cell, shown_cells, line_cells, hex_digit-ne-null, put_byte-first,
  put_byte-second, put_byte-ne, cell-put_byte_self, cell-put_byte_other, line_base-put_byte,
}

-- No character of the line is null, but the last place is.
pub record IsLine (b : Mem) : Type 0 where
  pub filled : (i : ℕ) → i < 57 → (b i == 0) ≡ false
  pub ends : b 57 ≡ 0

put_byte-filled :
    (address v i : ℕ) (b : Mem) → (b i == 0) ≡ false → (put_byte address v b i == 0) ≡ false
put_byte-filled address v i b h = elim (Bool-cases (i == 10 + 3 * (address % 16))) [
  | inl first ↦
      let at = (==_iff i (10 + 3 * (address % 16))).0 first in
      rw (at, put_byte-first address v b) (hex_digit-ne-null (v / 16 % 16) (omega arith))
  | inr other ↦ elim (Bool-cases (i == 11 + 3 * (address % 16))) [
    | inl second ↦
        let at = (==_iff i (11 + 3 * (address % 16))).0 second in
        rw (at, put_byte-second address v b) (hex_digit-ne-null (v / 1 % 16) (omega arith))
    | inr neither ↦ rw (put_byte-ne address v i b (ground arith) (ground arith)) h
  ]
]

pub put_byte-IsLine : (address v : ℕ) (b : Mem) → IsLine b → IsLine (put_byte address v b)
put_byte-IsLine address v b l = record {
  filled = λ i low. put_byte-filled address v i b (l.filled i low);
  ends = put_byte-ne address v 57 b (omega arith) (omega arith) ∙ l.ends;
}

pub start_line-IsLine : (address : ℕ) (b : Mem) → IsLine (start_line address b)
unfolding start_line blank_line write
start_line-IsLine address b = record {
  filled = λ i low. ground (
    arith,
    hex_digit-ne-null (address / 268435456 % 16) (omega arith),
    hex_digit-ne-null (address / 16777216 % 16) (omega arith),
    hex_digit-ne-null (address / 1048576 % 16) (omega arith),
    hex_digit-ne-null (address / 65536 % 16) (omega arith),
    hex_digit-ne-null (address / 4096 % 16) (omega arith),
    hex_digit-ne-null (address / 256 % 16) (omega arith),
    hex_digit-ne-null (address / 16 % 16) (omega arith),
    hex_digit-ne-null (address / 1 % 16) (omega arith),
  );
  ends = refl;
}

buffer_text-get_or :
    (n i j : ℕ) (b : Mem)
    → i < n
    → ((m : ℕ) → m < i → (b (j + m) == 0) ≡ false)
    → get_or (buffer_text n b j) i 0 ≡ b (j + i)
unfolding buffer_text
buffer_text-get_or zero i j b low clean = absurd (omega arith)
buffer_text-get_or (suc n) zero j b low clean = ground arith
buffer_text-get_or (suc n) (suc i) j b low clean =
    let first : (b j == 0) ≡ false = rw (add-zero j) at (clean 0 (omega arith)) in
    let at : j + suc i ≡ j + 1 + i = omega arith in
    rw (first, at)
      (buffer_text-get_or n i (j + 1) b (omega arith) (λ m lower.
        let at' : j + 1 + m ≡ j + suc m = omega arith in rw at' (clean (suc m) (omega arith))))

-- What is printed is the line.
pub text-buffer : (b : Mem) (i : ℕ) → IsLine b → i < 57 → get_or (buffer_text 58 b 0) i 0 ≡ b i
text-buffer b i l low =
    buffer_text-get_or 58 i 0 b (omega arith)
      (λ m lower. rw (zero-add m) (l.filled m (omega arith)))
    ∙ ap b (zero-add i)

shown_cells_ext :
    (f g : ℕ → ℕ) (base k n : ℕ)
    → ((i : ℕ) → i < 57 → f i ≡ g i)
    → k + n ≤ 16
    → shown_cells f base k n ≡ shown_cells g base k n
unfolding shown_cells cell
shown_cells_ext f g base k zero same low = refl
shown_cells_ext f g base k (suc n) same low = rw (
  same (10 + 3 * k) (omega arith),
  same (11 + 3 * k) (omega arith),
  shown_cells_ext f g base (k + 1) n same (omega arith),
)

pub line_cells_ext : (f g : ℕ → ℕ) → ((i : ℕ) → i < 57 → f i ≡ g i) → line_cells f ≡ line_cells g
line_cells_ext f g same =
    let base : line_base f ≡ line_base g = rw (
      same 0 (omega arith),
      same 1 (omega arith),
      same 2 (omega arith),
      same 3 (omega arith),
      same 4 (omega arith),
      same 5 (omega arith),
      same 6 (omega arith),
      same 7 (omega arith),
    ) in
    ap (λ (a : ℕ). shown_cells f a 0 16) base
    ∙ shown_cells_ext f g (line_base g) 0 16 same (omega arith)

add_cell-append :
    (a : ℕ) (o : Option ℕ) (xs ys : List (ℕ × ℕ)) → add_cell a o xs ++ ys ≡ add_cell a o (xs ++ ys)
unfolding add_cell
add_cell-append a none xs ys = refl
add_cell-append a (some v) xs ys = refl

pub shown_cells-blank :
    (f : ℕ → ℕ) (base k n : ℕ)
    → ((j : ℕ) → k ≤ j → j < k + n → cell f j ≡ none)
    → shown_cells f base k n ≡ []
unfolding shown_cells add_cell
shown_cells-blank f base k zero blank = refl
shown_cells-blank f base k (suc n) blank =
    rw (blank k (omega arith) (omega arith))
      (shown_cells-blank f base (k + 1) n (λ j high low. blank j (omega arith) (omega arith)))

-- A byte in a column with only blank ones from there on comes behind the others.
shown_cells-put_byte :
    (address v : ℕ) (b : Mem) (base k n : ℕ)
    → v < 256
    → k ≤ address % 16
    → address % 16 < k + n
    → ((j : ℕ) → address % 16 ≤ j → j < k + n → cell b j ≡ none)
    → shown_cells (put_byte address v b) base k n
      ≡ shown_cells b base k n ++ ((base + address % 16, v) ∷ [])
unfolding shown_cells
shown_cells-put_byte address v b base k zero small from to blank = absurd (omega arith)
shown_cells-put_byte address v b base k (suc n) small from to blank =
    elim (Bool-cases (k == address % 16)) [
      | inl here ↦
          let at : k ≡ address % 16 = (==_iff k (address % 16)).0 here in
          let rest : shown_cells (put_byte address v b) base (k + 1) n ≡ [] =
            shown_cells-blank (put_byte address v b) base (k + 1) n (λ j high low.
              cell-put_byte_other address v j b (omega arith)
              ∙ blank j (omega arith) (omega arith)) in
          let old : shown_cells b base (k + 1) n ≡ [] =
            shown_cells-blank b base (k + 1) n
              (λ j high low. blank j (omega arith) (omega arith)) in
          let self : cell (put_byte address v b) k ≡ some v =
            rw at (cell-put_byte_self address v b small) in
          let gone : cell b k ≡ none = blank k (omega arith) (omega arith) in
          rw (rest, old, self, gone, at) (unfold add_cell in refl)
      | inr later ↦
          let before : k ≢ address % 16 = ground arith in
          rw
            (
              cell-put_byte_other address v k b before,
              shown_cells-put_byte address v b base (k + 1) n small (omega arith) (omega arith)
                  (λ j high low. blank j high (omega arith)),
            )
            (sym (
              add_cell-append (base + k) (cell b k) (shown_cells b base (k + 1) n)
                ((base + address % 16, v) ∷ [])))
    ]

pub line_cells-put_byte :
    (address v : ℕ) (b : Mem)
    → v < 256
    → line_base b ≡ address - address % 16
    → ((j : ℕ) → address % 16 ≤ j → j < 16 → cell b j ≡ none)
    → line_cells (put_byte address v b) ≡ line_cells b ++ ((address, v) ∷ [])
line_cells-put_byte address v b small base blank =
    let whole : line_base b + address % 16 ≡ address = omega (arith, base) in
    ap (λ (a : ℕ). shown_cells (put_byte address v b) a 0 16) (line_base-put_byte address v b)
    ∙ shown_cells-put_byte address v b (line_base b) 0 16 small (omega arith) (omega arith)
        (λ j high low. blank j high (omega arith))
    ∙ ap (λ (a : ℕ). line_cells b ++ ((a, v) ∷ [])) whole
