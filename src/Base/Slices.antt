-- ===== src/Base/Slices.antt =====
-- Parts of lists, by native numbers, and the bytes of a file.
use Prim.Native.Nat.{ℕ, zero, suc, ◌+◌, ◌*◌, ◌/◌, ◌%◌}
use mathlib.Core.Path.{◌≡◌, refl, ap}
use mathlib.Core.List.{List, [], ◌∷◌, ◌++◌}
use riscy_os.Base.Lists.{length}

module _ {ℓ} {A : Type ℓ} where
  unfoldable pub take : ℕ → List A → List A
  take (suc n) (x ∷ xs) = x ∷ take n xs
  take (suc n) [] = []
  take zero l = []

  unfoldable pub drop : ℕ → List A → List A
  drop (suc n) (x ∷ xs) = drop n xs
  drop (suc n) [] = []
  drop zero l = l

  pub take-length : (xs ys : List A) → take (length xs) (xs ++ ys) ≡ xs
  unfolding take
  take-length [] ys = refl
  take-length (x ∷ xs) ys = ap (◌∷◌ x) (take-length xs ys)

  pub drop-length : (xs ys : List A) → drop (length xs) (xs ++ ys) ≡ ys
  unfolding drop
  drop-length [] ys = refl
  drop-length (x ∷ xs) ys = drop-length xs ys

  -- The part of a list behind `start` others.
  abbrev pub slice : (start size : ℕ) → List A → List A
  slice start size l = take size (drop start l)

  pub slice-middle : (xs ys zs : List A) → slice (length xs) (length ys) (xs ++ (ys ++ zs)) ≡ ys
  slice-middle xs ys zs = rw (drop-length xs (ys ++ zs)) (take-length ys zs)

-- The four bytes of a word, the lowest first.
abbrev pub word_bytes : ℕ → List ℕ
word_bytes w = w % 256 ∷ w / 256 % 256 ∷ w / 65536 % 256 ∷ w / 16777216 % 256 ∷ []

-- The word that the first four bytes of a list are.
abbrev pub first_word : List ℕ → ℕ
first_word (a ∷ b ∷ c ∷ d ∷ _) = a + 256 * b + 65536 * c + 16777216 * d
first_word _ = 0

abbrev pub word_at : (file : List ℕ) (offset : ℕ) → ℕ
word_at file offset = first_word (drop offset file)
