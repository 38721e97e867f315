-- ===== src/Asm/Lexer.antt =====
-- Reading identifiers and numbers from a line, tools/assembler/rva.c. A line is the list of its
-- characters up to the terminator, so that reading behind it gives 0; a function that the C code
-- calls with a position gets the rest of the line from there. Characters are those of ASCII: one
-- above 127 is a negative `char`.
pub mod Number
use riscy_os.Base.{
  ℕ, zero, suc, ◌+◌, ◌-◌, ◌*◌, ◌/◌, ◌%◌, ◌^◌, ◌≤◌, ◌<◌, ◌≡◌, refl, sym, ap, ◌∙◌, ◌≢◌, ◌↔◌, ◌⊎◌, inl,
  inr, Bool, true, false, not, ◌&&◌, ◌||◌, Option, none, some, List, [], ◌∷◌, ◌++◌, arith, ltb, leb,
  ◌==◌, ==_iff, if◌then◌else◌, Bool-cases, some_pair, length, get_or, set, length-append,
  length-set, get_or-set_self, get_or-set_ne, Mem, write, write_self, write_ne, u32_mod, add32,
  sub32,
}

abbrev pub first_char : List ℕ → ℕ
first_char cs = get_or cs 0 0

-- `skip_spc`: how many blanks and tabs the line starts with.
unfoldable pub skip_spc : List ℕ → ℕ
skip_spc [] = 0
skip_spc (c ∷ cs) = if c == 32 || c == 9 then skip_spc cs + 1 else 0

unfoldable pub drop_chars : ℕ → List ℕ → List ℕ
drop_chars zero cs = cs
drop_chars (suc k) [] = []
drop_chars (suc k) (c ∷ cs) = drop_chars k cs

-- `cmp_next_non_space`: whether the character is next, and the position behind it or at what is
-- found in its place.
unfoldable pub cmp_next_non_space : List ℕ → (pos offset character : ℕ) → Bool × ℕ
unfolding skip_spc drop_chars
cmp_next_non_space line pos offset character =
    let at = pos + offset + skip_spc (drop_chars (pos + offset) line) in
    let result = get_or line at 0 == character in (result, if result then at + 1 else at)

unfoldable pub test_eol : ℕ → Bool
test_eol c = c == 0 || c == 59 || c == 10

unfoldable pub alphabetic : ℕ → Bool
alphabetic c = c == 95 || leb 65 c && leb c 90 || leb 97 c && leb c 122

unfoldable pub alpha_numeric : ℕ → Bool
unfolding alphabetic
alpha_numeric c = leb 48 c && leb c 57 || alphabetic c || c == 46

-- The loop of `get_identifier`, with `room` characters left in the buffer.
unfoldable pub take_identifier : (room : ℕ) → List ℕ → List ℕ
unfolding alpha_numeric
take_identifier zero cs = []
take_identifier (suc room) [] = []
take_identifier (suc room) (c ∷ cs) = if alpha_numeric c then c ∷ take_identifier room cs else []

-- `get_identifier`: what it puts in the buffer; its result is the length of that.
unfoldable pub get_identifier : List ℕ → (max_length : ℕ) → List ℕ
unfolding alphabetic take_identifier
get_identifier line max_length =
    if alphabetic (first_char line) then take_identifier (max_length - 1) line else []

-- `c_char_esc`
unfoldable pub c_char_esc : ℕ → ℕ
c_char_esc c =
    if c == 48
    then 0
    else if c == 97
    then 7
    else if c == 98
    then 8
    else if c == 102
    then 12
    else if c == 110
    then 10
    else if c == 114
    then 13
    else if c == 116
    then 9
    else if c == 118
    then 11
    else c

-- The value of a character that is a digit of the radix: `num_char` behind its loop.
unfoldable pub digit_value : (radix c : ℕ) → Option ℕ
digit_value radix c =
    let upper = if leb 97 c then c - 32 else c in
    if ltb c 48 || ltb 127 c
    then none
    else if leb upper 57
    then (if ltb upper (48 + radix) then some (upper - 48) else none)
    else if ltb upper 65
    then none
    else if ltb upper (65 + radix - 10)
    then some (upper - 65 + 10)
    else none

-- What `get_num` has read: how many characters, the value, and whether there was a digit.
pub record Num : Type 0 where
  pub chars_read : ℕ
  pub value : ℕ
  pub found : Bool

-- The loop of `get_num` with the loop of `num_char` over underscores inside.
unfoldable pub num_loop : (radix : ℕ) → List ℕ → Num → Num
num_loop radix [] n = n
num_loop radix (c ∷ cs) n =
    let step = λ (value : ℕ) (found : Bool).
      num_loop radix cs (record { chars_read = n.chars_read + 1; value = value; found = found }) in
    if c == 95 then step n.value n.found else elim (digit_value radix c) [
      | none ↦ n
      | some digit ↦ step ((n.value * radix + digit) % u32_mod) true
    ]

-- `get_num`: whether a number was read, how far the position moves, and the value.
unfoldable pub get_num : List ℕ → (radix : ℕ) → Bool × ℕ × ℕ
unfolding skip_spc drop_chars num_loop
get_num line radix =
    let blanks = skip_spc line in
    let n =
      num_loop radix (drop_chars blanks line)
        (record { chars_read = blanks; value = 0; found = false }) in
    (n.found, if n.found then n.chars_read else 0, n.value)

-- `file_path`: what a file's name has up to its last slash.
unfoldable pub file_path : List ℕ → List ℕ
file_path [] = []
file_path (c ∷ cs) =
    let rest = file_path cs in if not (length rest == 0) || c == 47 then c ∷ rest else []

-- `pathname`
unfoldable pub pathname : List ℕ → List ℕ → List ℕ
pathname name1 name2 = name1 ++ name2

-- `allow_error`; ALLOW_ON_FIRST_PASS and ALLOW_ON_INTER_PASS are bits 16 and 17.
unfoldable pub allow_error : (error_code : ℕ) → (first_pass last_pass : Bool) → Bool
allow_error error_code first_pass last_pass =
    not last_pass && error_code / 2 ^ 17 % 2 == 1 || first_pass && error_code / 2 ^ 16 % 2 == 1
