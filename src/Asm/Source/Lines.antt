-- ===== src/Asm/Source/Lines.antt =====
-- What `input_line` makes of the lines of a file.
use riscy_os.Base.{
  ℕ, zero, suc, ◌-◌, ◌≡◌, refl, ap, Bool, false, some, List, [], ◌∷◌, ◌++◌, arith, length, take,
}
use mathlib.Core.List.{map}
use riscy_os.Asm.Source.{
  File, is_newline, keep_char, take_line, strip_newline, after_line, input_line, read_lines,
}

-- How a line ends.
pub data Eol : Type 0 where
  lf : Eol
  crlf : Eol

abbrev pub eol_chars : Eol → List ℕ
eol_chars lf = 10 ∷ []
eol_chars crlf = 13 ∷ 10 ∷ []

abbrev pub NoNewline : List ℕ → Type 0
NoNewline [] = Unit {0}
NoNewline (c ∷ cs) = (is_newline c ≡ false) × NoNewline cs

abbrev pub AllNoNewline : List (List ℕ × Eol) → Type 0
AllNoNewline [] = Unit {0}
AllNoNewline ((l, _) ∷ ls) = NoNewline l × AllNoNewline ls

-- A file of lines.
unfoldable pub spell : List (List ℕ × Eol) → List ℕ
spell [] = []
spell ((l, e) ∷ ls) = l ++ (eol_chars e ++ spell ls)

-- The newline that the loop stops at, and what it stores of it.
first_of : Eol → ℕ
first_of lf = 10
first_of crlf = 13

rest_of : Eol → List ℕ → List ℕ
rest_of lf cs = cs
rest_of crlf cs = 10 ∷ cs

unfoldable room_left : (room : ℕ) → List ℕ → ℕ
room_left room [] = room
room_left room (c ∷ cs) = room_left (room - 1) cs

take_line-line :
    (l : List ℕ) (e : Eol) (room : ℕ) (cs : List ℕ)
    → NoNewline l
    → take_line room (l ++ (eol_chars e ++ cs)) ≡ record {
      buffer = take room l ++ keep_char (room_left room l) (first_of e) [];
      last = some (first_of e);
      unread = rest_of e cs;
    }
unfolding take_line take room_left first_of rest_of
take_line-line [] lf zero cs clean = refl
take_line-line [] lf (suc room) cs clean = refl
take_line-line [] crlf zero cs clean = refl
take_line-line [] crlf (suc room) cs clean = refl
take_line-line (c ∷ l) e zero cs clean = rw (clean.0, take_line-line l e zero cs clean.1)
take_line-line (c ∷ l) e (suc room) cs clean =
    let back : suc room - 1 ≡ room = omega arith in
    rw (clean.0, back, take_line-line l e room cs clean.1)

strip_newline-append :
    (l : List ℕ) (room : ℕ) (e : Eol)
    → NoNewline l
    → strip_newline (l ++ keep_char room (first_of e) []) ≡ l
unfolding strip_newline first_of
strip_newline-append [] zero e clean = refl
strip_newline-append [] (suc room) lf clean = refl
strip_newline-append [] (suc room) crlf clean = refl
strip_newline-append (c ∷ []) zero e clean = rw (clean.0)
strip_newline-append (c ∷ []) (suc room) lf clean = refl
strip_newline-append (c ∷ []) (suc room) crlf clean = refl
strip_newline-append (c ∷ d ∷ l) room e clean =
    ap (◌∷◌ c) (strip_newline-append (d ∷ l) room e clean.1)

NoNewline-take : (room : ℕ) (l : List ℕ) → NoNewline l → NoNewline (take room l)
unfolding take
NoNewline-take zero l clean = tt
NoNewline-take (suc room) [] clean = tt
NoNewline-take (suc room) (c ∷ l) clean = (clean.0, NoNewline-take room l clean.1)

after_line-rest :
    (e : Eol) (cs : List ℕ)
    → after_line (some (first_of e)) (rest_of e cs) ≡ record { rest = cs; at_end = false }
unfolding after_line first_of rest_of
after_line-rest lf [] = refl
after_line-rest lf (c ∷ cs) = refl
after_line-rest crlf cs = refl

input_line-line :
    (max : ℕ) (l : List ℕ) (e : Eol) (cs : List ℕ) (at_end : Bool)
    → NoNewline l
    → input_line max (record { rest = l ++ (eol_chars e ++ cs); at_end = at_end })
      ≡ (take max l, record { rest = cs; at_end = false })
unfolding input_line
input_line-line max l e cs at_end clean = rw (
  take_line-line l e max cs clean,
  strip_newline-append (take max l) (room_left max l) e (NoNewline-take max l clean),
  after_line-rest e cs,
)

read_lines-next :
    (fuel max : ℕ) (cs : List ℕ) (line : List ℕ) (f : File) (ls : List (List ℕ))
    → input_line max (record { rest = cs; at_end = false }) ≡ (line, f)
    → read_lines fuel max f ≡ some ls
    → read_lines (suc fuel) max (record { rest = cs; at_end = false }) ≡ some (line ∷ ls)
unfolding read_lines
read_lines-next fuel max cs line f ls is rest =
    rw (is, rest) (ap (λ (r : List ℕ × File). some (r.0 ∷ ls)) is)

-- A file of lines that end with LF or with CR and LF, mixed in any way, is read as these lines, each
-- cut to the length of the buffer, and an empty one behind the last of them; as many rounds as there
-- are lines and two more are enough.
pub read_lines-spell :
    (max : ℕ) (ls : List (List ℕ × Eol))
    → AllNoNewline ls
    → read_lines (suc (suc (length ls))) max (record { rest = spell ls; at_end = false })
      ≡ some (map (λ l. take max l.0) ls ++ ([] ∷ []))
unfolding spell
read_lines-spell max [] clean =
    unfold read_lines input_line take_line strip_newline after_line in refl
read_lines-spell max ((l, e) ∷ ls) clean =
    read_lines-next (suc (suc (length ls))) max (l ++ (eol_chars e ++ spell ls)) (take max l)
      (record { rest = spell ls; at_end = false }) (map (λ k. take max k.0) ls ++ ([] ∷ []))
      (input_line-line max l e (spell ls) false clean.0) (read_lines-spell max ls clean.1)
