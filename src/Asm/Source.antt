-- ===== src/Asm/Source.antt =====
-- Reading the source and the file of mnemonics line by line: `input_line` and the loops over a file in
-- tools/assembler/rva.c. A `char` is signed, so that the end of the file is never a character.
pub mod Lines
mod Tests
use riscy_os.Base.{
  ℕ, zero, suc, ◌-◌, Bool, true, false, ◌||◌, Option, none, some, List, [], ◌∷◌, ◌==◌,
  if◌then◌else◌,
}

-- What of a file has not been read, and what `feof` answers.
pub record File : Type 0 where
  pub rest : List ℕ
  pub at_end : Bool

abbrev pub is_newline : ℕ → Bool
is_newline c = c == 10 || c == 13

-- What the loop of `input_line` ends with: the buffer, the last character (none at the end of the
-- file), and what has not been read.
pub record Taken : Type 0 where
  pub buffer : List ℕ
  pub last : Option ℕ
  pub unread : List ℕ

abbrev pub keep_char : (room c : ℕ) → List ℕ → List ℕ
keep_char zero c cs = cs
keep_char (suc room) c cs = c ∷ cs

-- The loop, with room for so many more characters.
unfoldable pub take_line : (room : ℕ) → List ℕ → Taken
take_line room [] = record { buffer = []; last = none; unread = [] }
take_line room (c ∷ cs) =
    let more = take_line (room - 1) cs in
    if is_newline c
    then record { buffer = keep_char room c []; last = some c; unread = cs }
    else record more { buffer = keep_char room c more.buffer }

-- `if (buffer[i-1] is a newline) buffer[i-1] = '\0'`
unfoldable pub strip_newline : List ℕ → List ℕ
strip_newline [] = []
strip_newline (c ∷ []) = if is_newline c then [] else c ∷ []
strip_newline (c ∷ d ∷ cs) = c ∷ strip_newline (d ∷ cs)

-- What is left behind the line: a LF behind a CR goes with it.
unfoldable pub after_line : Option ℕ → List ℕ → File
after_line none cs = record { rest = cs; at_end = true }
after_line (some c) [] = record { rest = []; at_end = c == 13 }
after_line (some c) (d ∷ cs) = record {
  rest = if c == 13 then (if d == 10 then cs else d ∷ cs) else d ∷ cs;
  at_end = false;
}

unfoldable pub input_line : (max : ℕ) → File → List ℕ × File
unfolding take_line strip_newline after_line
input_line max f =
    let t = take_line max f.rest in (strip_newline t.buffer, after_line t.last t.unread)

-- `while (!feof(file)) input_line(...)`: the lines; `none` is that fuel ran out.
unfoldable pub read_lines : (fuel max : ℕ) → File → Option (List (List ℕ))
read_lines zero max f = none
read_lines (suc fuel) max f =
    let (line, f') = input_line max f in
    let rest = read_lines fuel max f' in
    if f.at_end then some [] else elim rest [ none ↦ none | some ls ↦ some (line ∷ ls) ]
