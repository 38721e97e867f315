-- ===== src/Fs/Name/Laws.antt =====
-- Laws of paths and of 8.3 names.
use riscy_os.Base.{
  ℕ, zero, suc, ◌+◌, ◌-◌, ◌≤◌, ◌<◌, ◌≡◌, refl, ap, ◌∙◌, Bool, true, false, not, ◌&&◌, Option, none,
  some, List, [], ◌∷◌, ◌++◌, arith, ◌==◌, length, length-append,
}
use mathlib.Core.List.{map}
use riscy_os.Fs.Name.{
  to_upper, fat_valid_char, copy_component, skip_slash, get_next_path_component, find_dot,
  copy_upper, drop, pad, make_fat_83_name, fill_out, split_at_dot, PathWalker, path_walker_advance,
  advance_to,
}

-- Characters that a short name may hold before and behind its dot.
abbrev pub all_valid : List ℕ → Bool
all_valid [] = true
all_valid (c ∷ cs) = fat_valid_char c && all_valid cs

abbrev pub no_dot : List ℕ → Bool
no_dot [] = true
no_dot (c ∷ cs) = not (c == b'.') && no_dot cs

length-pad : (n : ℕ) (cs : List ℕ) → length (pad n cs) ≡ n
length-pad zero cs = refl
length-pad (suc n) [] = ap suc (length-pad n [])
length-pad (suc n) (c ∷ cs) = ap suc (length-pad n cs)

two_parts : (a b : List ℕ) → length (pad 8 a ++ pad 3 b) ≡ 11
two_parts a b = omega (arith, length-append (pad 8 a) (pad 3 b), length-pad 8 a, length-pad 3 b)

length-fill_out : (a b : Option (List ℕ)) → length (fill_out a b).1 ≡ 11
unfolding fill_out
length-fill_out none b = refl
length-fill_out (some a) none = refl
length-fill_out (some a) (some b) = two_parts a b

length-split_at_dot : (dot : Option ℕ) (input : List ℕ) → length (split_at_dot dot input).1 ≡ 11
unfolding split_at_dot
length-split_at_dot none input = length-fill_out (copy_upper 8 none input) (some [])
length-split_at_dot (some dot) input =
    length-fill_out (copy_upper 8 (some dot) input) (copy_upper 3 none (drop (dot + 1) input))

-- `make_fat_83_name` always leaves eleven bytes.
pub length-make_fat_83_name : (input : List ℕ) → length (make_fat_83_name input).1 ≡ 11
unfolding make_fat_83_name
length-make_fat_83_name input = length-split_at_dot (find_dot input 0) input

find_dot-append :
    (name rest : List ℕ) (i c : ℕ)
    → no_dot name ≡ true
    → find_dot (c ∷ name ++ b'.' ∷ rest) i ≡ some (i + 1 + length name)
unfolding find_dot
find_dot-append [] rest i c h = ground arith
find_dot-append (d ∷ name) rest i c h = ground (arith, find_dot-append name rest (i + 1) d)

copy_upper-all :
    (cs : List ℕ) (room : ℕ)
    → all_valid cs ≡ true
    → length cs ≤ room
    → copy_upper room none cs ≡ some (map to_upper cs)
unfolding copy_upper
copy_upper-all [] room h r = refl
copy_upper-all (c ∷ cs) room h r = ground (arith, copy_upper-all cs (room - 1))

copy_upper-append :
    (cs rest : List ℕ) (room : ℕ)
    → all_valid cs ≡ true
    → length cs ≤ room
    → copy_upper room (some (length cs)) (cs ++ b'.' ∷ rest) ≡ some (map to_upper cs)
unfolding copy_upper
copy_upper-append [] rest room h r = refl
copy_upper-append (c ∷ cs) rest room h r = ground (arith, copy_upper-append cs rest (room - 1))

drop-append : (cs rest : List ℕ) (c : ℕ) → drop (length cs + 1) (cs ++ c ∷ rest) ≡ rest
drop-append [] rest c = refl
drop-append (d ∷ cs) rest c = ground (arith, drop-append cs rest c)

-- A name of one to eight valid characters with no dot among them, a dot, and an extension of at most
-- three valid characters: `make_fat_83_name` accepts it and leaves both parts in upper case, each
-- padded with spaces.
pub make_fat_83_name-dotted :
    (c : ℕ) (name ext : List ℕ)
    → all_valid (c ∷ name) ≡ true
    → no_dot name ≡ true
    → length name < 8
    → all_valid ext ≡ true
    → length ext ≤ 3
    → make_fat_83_name (c ∷ name ++ b'.' ∷ ext)
      ≡ (true, pad 8 (map to_upper (c ∷ name)) ++ pad 3 (map to_upper ext))
unfolding make_fat_83_name
make_fat_83_name-dotted c name ext v d ln ve le =
    let at : find_dot (c ∷ name ++ b'.' ∷ ext) 0 ≡ some (suc (length name)) =
      find_dot-append name ext 0 c d ∙ ap some (omega arith) in
    let dropped : drop (suc (length name) + 1) (c ∷ name ++ b'.' ∷ ext) ≡ ext =
      drop-append (c ∷ name) ext b'.' in
    rw (at, split_at_dot)
      (rw (copy_upper-append (c ∷ name) ext 8 v (omega arith), dropped, copy_upper-all ext 3 ve le))

-- No character is a slash.
abbrev pub no_slash : List ℕ → Bool
no_slash [] = true
no_slash (c ∷ cs) = not (c == b'/') && no_slash cs

copy_component-append :
    (comp rest : List ℕ)
    → no_slash comp ≡ true
    → copy_component (comp ++ b'/' ∷ rest) ≡ (comp, b'/' ∷ rest)
unfolding copy_component
copy_component-append [] rest h = refl
copy_component-append (c ∷ comp) rest h = ground (arith, copy_component-append comp rest)

copy_component-last : (comp : List ℕ) → no_slash comp ≡ true → copy_component comp ≡ (comp, [])
unfolding copy_component
copy_component-last [] h = refl
copy_component-last (c ∷ comp) h = ground (arith, copy_component-last comp)

skip_slash-none : (c : ℕ) (cs : List ℕ) → (c == b'/') ≡ false → skip_slash (c ∷ cs) ≡ c ∷ cs
unfolding skip_slash
skip_slash-none c cs h = rw h

next_component :
    (c : ℕ) (comp rest : List ℕ)
    → no_slash (c ∷ comp) ≡ true
    → get_next_path_component (c ∷ comp ++ b'/' ∷ rest) ≡ some (c ∷ comp, b'/' ∷ rest)
unfolding get_next_path_component
next_component c comp rest h =
    let first : (c == b'/') ≡ false = ground arith in
    rw (skip_slash-none c (comp ++ b'/' ∷ rest) first, get_next_path_component)
      (ap some (copy_component-append (c ∷ comp) rest h))

last_component :
    (c : ℕ) (comp : List ℕ)
    → no_slash (c ∷ comp) ≡ true
    → get_next_path_component (c ∷ comp) ≡ some (c ∷ comp, [])
unfolding get_next_path_component
last_component c comp h =
    let first : (c == b'/') ≡ false = ground arith in
    rw (skip_slash-none c comp first, get_next_path_component)
      (ap some (copy_component-last (c ∷ comp) h))

-- For a component that is not empty and holds no slash: with a slash behind it, the walker moves to
-- that slash, takes the component and its 8.3 form and reports that there is more; at the end of
-- the path it takes the component, keeps the 8.3 form that it had, is used up and reports no more.
pub path_walker_advance_correct :
    (w : PathWalker) (c : ℕ) (comp rest : List ℕ)
    → no_slash (c ∷ comp) ≡ true
    → (path_walker_advance w (c ∷ comp ++ b'/' ∷ rest) ≡ (
      true,
      record {
        rest = some (b'/' ∷ rest);
        component = c ∷ comp;
        component_83 = (make_fat_83_name (c ∷ comp)).1;
      },
    ))
      × (path_walker_advance w (c ∷ comp) ≡ (false, record w { rest = none; component = c ∷ comp }))
unfolding path_walker_advance
path_walker_advance_correct w c comp rest h =
    (rw (next_component c comp rest h, advance_to), rw (last_component c comp h, advance_to))
