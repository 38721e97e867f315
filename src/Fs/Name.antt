-- ===== src/Fs/Name.antt =====
-- Names of kernel/fs/fs_open.c: the walk along a path and the 8.3 form of a component. A string is
-- the list of its characters before the NUL, a `char` is an unsigned byte.
pub mod Laws
use riscy_os.Base.{
  ℕ, zero, suc, ◌+◌, ◌-◌, ◌*◌, ◌/◌, ◌%◌, ◌^◌, ◌≤◌, ◌<◌, ◌≡◌, refl, sym, ap, ◌∙◌, ◌≢◌, ◌↔◌, ◌⊎◌, inl,
  inr, Bool, true, false, not, ◌&&◌, ◌||◌, Option, none, some, List, [], ◌∷◌, ◌++◌, arith, ltb, leb,
  ◌==◌, ==_iff, if◌then◌else◌, Bool-cases, some_pair, length, get_or, set, length-append,
  length-set, get_or-set_self, get_or-set_ne, Mem, write, write_self, write_ne, u32_mod, add32,
  sub32,
}

-- The character at the front, NUL at the end of the string.
abbrev pub front : List ℕ → ℕ
front [] = 0
front (c ∷ cs) = c

-- The local `toupper`.
unfoldable pub to_upper : ℕ → ℕ
to_upper chr = if leb b'a' chr && leb chr b'z' then chr - 32 else chr

-- The characters that `fat_valid_char` lists.
abbrev pub is_listed : ℕ → Bool
is_listed c =
    (c == b'"')
    || (c == b'*')
    || (c == b'+')
    || (c == b',')
    || (c == b'/')
    || (c == b':')
    || (c == b';')
    || (c == b'<')
    || (c == b'=')
    || (c == b'>')
    || (c == b'?')
    || (c == b'[')
    || (c == 92)
    || (c == b']')
    || (c == b'|')

unfoldable pub fat_valid_char : ℕ → Bool
fat_valid_char c = if ltb c 0x20 then false else not (is_listed c)

-- The copying loop of `get_next_path_component`: the component, and the path behind it.
unfoldable pub copy_component : List ℕ → List ℕ × List ℕ
copy_component [] = ([], [])
copy_component (c ∷ cs) =
    let (out, rest) = copy_component cs in
    let stop : List ℕ × List ℕ = ([], c ∷ cs) in
    let go : List ℕ × List ℕ = (c ∷ out, rest) in if c == b'/' then stop else go

-- One leading slash is skipped.
unfoldable pub skip_slash : List ℕ → List ℕ
skip_slash path = elim path [ [] ↦ [] | c ∷ cs ↦ if c == b'/' then cs else c ∷ cs ]

-- `none` is the NULL of a path that is used up. `out` has room for 13 characters with the NUL; a
-- longer component is written past it, which the model does not follow.
unfoldable pub get_next_path_component : List ℕ → Option (List ℕ × List ℕ)
unfolding copy_component skip_slash
get_next_path_component path = elim (skip_slash path) [
  | [] ↦ none
  | c ∷ cs ↦ some (copy_component (c ∷ cs))
]

-- The loop that looks for a dot: it looks at the character behind the one that it is at.
unfoldable pub find_dot : List ℕ → ℕ → Option ℕ
find_dot [] i = none
find_dot (c ∷ cs) i =
    let rest = find_dot cs (i + 1) in if front cs == b'.' then some (i + 1) else rest

-- A loop that copies upper-cased characters up to the end of the string or position `stop` (of
-- which `left` are still to come); `none` on a character that is not valid. At most `room`
-- characters are kept.
unfoldable pub copy_upper : (room : ℕ) → (left : Option ℕ) → List ℕ → Option (List ℕ)
copy_upper room left [] = some []
copy_upper room (some zero) (c ∷ cs) = some []
copy_upper room (some (suc k)) (c ∷ cs) =
    let rest = copy_upper (room - 1) (some k) cs in
    if not (fat_valid_char c)
    then none
    else elim rest [ none ↦ none | some out ↦ some (if room == 0 then out else to_upper c ∷ out) ]
copy_upper room none (c ∷ cs) =
    let rest = copy_upper (room - 1) none cs in
    if not (fat_valid_char c)
    then none
    else elim rest [ none ↦ none | some out ↦ some (if room == 0 then out else to_upper c ∷ out) ]

-- The string from character `n` on.
abbrev pub drop : ℕ → List ℕ → List ℕ
drop zero cs = cs
drop (suc n) [] = []
drop (suc n) (c ∷ cs) = drop n cs

-- `out` filled with spaces, and the characters that are copied into it.
abbrev pub pad : ℕ → List ℕ → List ℕ
pad zero cs = []
pad (suc n) [] = b' ' ∷ pad n []
pad (suc n) (c ∷ cs) = c ∷ pad n cs

-- What `make_fat_83_name` returns and leaves in `out`, by what its two loops copied: nothing but
-- spaces where one of them met a character that is not valid.
unfoldable pub fill_out : Option (List ℕ) → Option (List ℕ) → Bool × List ℕ
fill_out none ext = (false, pad 11 [])
fill_out (some name) none = (false, pad 11 [])
fill_out (some name) (some ext) = (true, pad 8 name ++ pad 3 ext)

-- The two loops, by where the dot is.
unfoldable pub split_at_dot : Option ℕ → List ℕ → Bool × List ℕ
unfolding fill_out
split_at_dot none input = fill_out (copy_upper 8 none input) (some [])
split_at_dot (some dot) input =
    fill_out (copy_upper 8 (some dot) input) (copy_upper 3 none (drop (dot + 1) input))

unfoldable pub make_fat_83_name : List ℕ → Bool × List ℕ
unfolding split_at_dot
make_fat_83_name input = split_at_dot (find_dot input 0) input

-- path_walker_t: the path from `offset` on, which is `none` for the offset -1.
pub record PathWalker : Type 0 where
  pub rest : Option (List ℕ)
  pub component : List ℕ
  pub component_83 : List ℕ

-- The walker by what the next component is: only one with a path behind it is put in 8.3 form.
unfoldable pub advance_to : PathWalker → Option (List ℕ × List ℕ) → Bool × PathWalker
advance_to w none = (false, record w { rest = none })
advance_to w (some (component, [])) = (false, record w { rest = none; component = component })
advance_to w (some (component, c ∷ cs)) = (
  true,
  record {
    rest = some (c ∷ cs);
    component = component;
    component_83 = (make_fat_83_name component).1;
  },
)

-- `path_walker_advance` of a walker whose path is `path` from its offset on.
unfoldable pub path_walker_advance : PathWalker → List ℕ → Bool × PathWalker
unfolding advance_to
path_walker_advance w path = advance_to w (get_next_path_component path)

unfoldable pub path_walker_has_next : PathWalker → Bool
path_walker_has_next w = elim w.rest [ none ↦ false | some _ ↦ true ]
