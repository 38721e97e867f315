-- ===== src/Slab/Collect.antt =====
-- `drop_free_slab`: the slabs that are fully free are counted, and where there are two the last goes.
use riscy_os.Base.{
  ℕ, zero, suc, ◌+◌, ◌≤◌, ◌<◌, ◌≡◌, refl, sym, ap, ◌∙◌, ◌≢◌, ◌⊎◌, inl, inr, Bool, true, false,
  Option, none, some, List, [], ◌∷◌, ◌++◌, arith, leb, ◌==◌, if◌then◌else◌, Bool-cases, length, Mem,
  write,
}
use mathlib.Core.List.{append_assoc}
use mathlib.Core.Path.{subst}
use riscy_os.Slab.{next_at, free_objects_at, total_objects_at, count_free, drop_free_slab}
use riscy_os.Slab.Links.{Slabs, AllApart, Slabs-unlink}

abbrev pub is_full : Mem → ℕ → Bool
is_full m slab = m (free_objects_at slab) == m (total_objects_at slab)

unfoldable pub count_full : Mem → List ℕ → ℕ
count_full m [] = 0
count_full m (x ∷ xs) = (if is_full m x then 1 else 0) + count_full m xs

count_full-append :
    (m : Mem) (xs ys : List ℕ) → count_full m (xs ++ ys) ≡ count_full m xs + count_full m ys
unfolding count_full
count_full-append m [] ys = omega arith
count_full-append m (x ∷ xs) ys = omega (arith, count_full-append m xs ys)

-- The last of the slabs, or another one where there is none.
last_or : ℕ → List ℕ → ℕ
last_or p [] = p
last_or p (x ∷ xs) = last_or x xs

last_or-append : (p x : ℕ) (xs : List ℕ) → last_or p (xs ++ (x ∷ [])) ≡ x
unfolding last_or
last_or-append p x [] = refl
last_or-append p x (y ∷ xs) = last_or-append y x xs

-- The target of the second loop is the last full slab among those that have been passed.
record Target (m : Mem) (passed : List ℕ) (target target_prev : ℕ) : Type 0 where
  before : List ℕ
  behind : List ℕ
  split : passed ≡ before ++ (target ∷ behind)
  full : is_full m target ≡ true
  none_full : count_full m behind ≡ 0
  prev : target_prev ≡ last_or 0 before

record Counted (m : Mem) (passed : List ℕ) (t : ℕ × ℕ × ℕ) : Type 0 where
  count : t.0 ≡ count_full m passed
  found : 0 < t.0 → Target m passed t.1 t.2

count_one :
    (m : Mem) (passed : List ℕ) (x : ℕ) (b : Bool)
    → is_full m x ≡ b
    → count_full m (passed ++ (x ∷ [])) ≡ count_full m passed + (if b then 1 else 0)
unfolding count_full
count_one m passed x b e = count_full-append m passed (x ∷ []) ∙ rw e (omega arith)

Counted-full :
    (m : Mem) (passed : List ℕ) (x count target target_prev : ℕ)
    → is_full m x ≡ true
    → Counted m passed (count, target, target_prev)
    → Counted m (passed ++ (x ∷ [])) (count + 1, x, last_or 0 passed)
Counted-full m passed x count target target_prev full c = record {
  count = omega (arith, c.count, count_one m passed x true full);
  found = λ _. record {
    before = passed;
    behind = [];
    split = refl;
    full = full;
    none_full = unfold count_full in refl;
    prev = refl;
  };
}

Counted-partly :
    (m : Mem) (passed : List ℕ) (x count target target_prev : ℕ)
    → is_full m x ≡ false
    → Counted m passed (count, target, target_prev)
    → Counted m (passed ++ (x ∷ [])) (count, target, target_prev)
Counted-partly m passed x count target target_prev partly c = record {
  count = omega (arith, c.count, count_one m passed x false partly);
  found = λ some_full.
      let t = c.found some_full in
      record {
        before = t.before;
        behind = t.behind ++ (x ∷ []);
        split =
            ap (λ (l : List ℕ). l ++ (x ∷ [])) t.split
            ∙ append_assoc t.before (target ∷ t.behind) (x ∷ []);
        full = t.full;
        none_full = omega (arith, t.none_full, count_one m t.behind x false partly);
        prev = t.prev;
      };
}

==_ne : (a b : ℕ) → a ≢ b → (a == b) ≡ false
==_ne a b ne = ground arith

append-nil : (xs : List ℕ) → xs ++ [] ≡ xs
append-nil [] = refl
append-nil (x ∷ xs) = ap (λ (l : List ℕ). x ∷ l) (append-nil xs)

count_free-stop :
    (m : Mem) (fuel prev count target target_prev : ℕ)
    → count_free fuel 0 prev count target target_prev m ≡ some (count, target, target_prev)
unfolding count_free
count_free-stop m zero prev count target target_prev = refl
count_free-stop m (suc fuel) prev count target target_prev = refl

count_free-step :
    (m : Mem) (fuel tmp prev count target target_prev : ℕ) (b : Bool)
    → tmp ≢ 0
    → is_full m tmp ≡ b
    → count_free (suc fuel) tmp prev count target target_prev m
      ≡ count_free fuel
          (m (next_at tmp))
          tmp
          (if b then count + 1 else count)
          (if b then tmp else target)
          (if b then prev else target_prev)
          m
unfolding count_free
count_free-step m fuel tmp prev count target target_prev b live e = rw (==_ne tmp 0 live, e) refl

-- The loop over the slabs that are left.
count_free-Counted :
    (m : Mem) (fuel : ℕ) (xs passed : List ℕ) (tmp count target target_prev : ℕ)
    → Slabs m tmp xs
    → length xs ≤ fuel
    → Counted m passed (count, target, target_prev)
    → (t : ℕ × ℕ × ℕ) × (count_free fuel tmp (last_or 0 passed) count target target_prev m ≡ some t)
      × Counted m (passed ++ xs) t
count_free-Counted m fuel [] passed tmp count target target_prev slabs enough c = (
  (count, target, target_prev),
  rw slabs (count_free-stop m fuel (last_or 0 passed) count target target_prev),
  rw (append-nil passed) c,
)
count_free-Counted m zero (x ∷ xs) passed tmp count target target_prev slabs enough c =
    absurd (omega arith)
count_free-Counted m (suc fuel) (x ∷ xs) passed tmp count target target_prev slabs enough c =
    let (tmp_x, live, links) = slabs in
    elim (Bool-cases (is_full m x)) [
      | inl full ↦
          let r =
            count_free-Counted m fuel xs (passed ++ (x ∷ [])) (m x) (count + 1) x (last_or 0 passed)
              links (omega arith) (Counted-full m passed x count target target_prev full c) in
          let here =
            count_free-step m fuel x (last_or 0 passed) count target target_prev true live full
            ∙ ap (λ (p : ℕ). count_free fuel (m x) p (count + 1) x (last_or 0 passed) m)
                (sym (last_or-append 0 x passed))
            ∙ r.1 in
          (r.0, rw tmp_x here, rw (sym (append_assoc passed (x ∷ []) xs)) r.2)
      | inr partly ↦
          let r =
            count_free-Counted m fuel xs (passed ++ (x ∷ [])) (m x) count target target_prev links
              (omega arith) (Counted-partly m passed x count target target_prev partly c) in
          let here =
            count_free-step m fuel x (last_or 0 passed) count target target_prev false live partly
            ∙ ap (λ (p : ℕ). count_free fuel (m x) p count target target_prev m)
                (sym (last_or-append 0 x passed))
            ∙ r.1 in
          (r.0, rw tmp_x here, rw (sym (append_assoc passed (x ∷ []) xs)) r.2)
    ]

last_split : (x : ℕ) (xs : List ℕ) → (front : List ℕ) × (x ∷ xs ≡ front ++ (last_or x xs ∷ []))
unfolding last_or
last_split x [] = ([], refl)
last_split x (y ∷ xs) = let r = last_split y xs in (x ∷ r.0, ap (λ (l : List ℕ). x ∷ l) r.1)

-- The last full slab `taken` is unlinked from behind `holder` and given to `kfree`.
pub record Dropped (m : Mem) (head : ℕ) (slabs : List ℕ) (result : Option (Mem × ℕ)) : Type 0 where
  front : List ℕ
  holder : ℕ
  taken : ℕ
  behind : List ℕ
  split : slabs ≡ front ++ (holder ∷ taken ∷ behind)
  full : is_full m taken ≡ true
  last : count_full m behind ≡ 0
  given : result ≡ some (write m (next_at holder) (m (next_at taken)), taken)
  linked : Slabs (write m (next_at holder) (m (next_at taken))) head (front ++ (holder ∷ behind))

count_full_one : (m : Mem) (x : ℕ) → count_full m (x ∷ []) ≤ 1
unfolding count_full
count_full_one m x = ground arith

last_some :
    (m : Mem) (xs : List ℕ)
    → 0 < count_full m xs
    → (front : List ℕ) × (xs ≡ front ++ (last_or 0 xs ∷ []))
unfolding count_full last_or
last_some m [] many = absurd (omega arith)
last_some m (x ∷ xs) many = last_split x xs

-- There is a slab before the target where two are full.
before_last_full :
    (m : Mem) (passed : List ℕ) (target target_prev : ℕ) (t : Target m passed target target_prev)
    → 2 ≤ count_full m passed
    → (front : List ℕ) × (t.before ≡ front ++ (target_prev ∷ []))
before_last_full m passed target target_prev t two =
    let many : 0 < count_full m t.before = omega (
      arith,
      two,
      ap (count_full m) t.split,
      count_full-append m t.before (target ∷ t.behind),
      count_full-append m (target ∷ []) t.behind,
      count_full_one m target,
      t.none_full,
    ) in
    rw t.prev (last_some m t.before many)

abbrev given_back : Mem → Option (ℕ × ℕ × ℕ) → Option (Mem × ℕ)
given_back m none = none
given_back m (some t) =
    if leb 2 t.0 then some (write m (next_at t.2) (m (next_at t.1)), t.1) else some (m, 0)

drop_free_slab-when :
    (m : Mem) (fuel head : ℕ) (t : ℕ × ℕ × ℕ) (b : Bool)
    → count_free fuel head 0 0 0 0 m ≡ some t
    → leb 2 t.0 ≡ b
    → drop_free_slab fuel head m
      ≡ (if b then some (write m (next_at t.2) (m (next_at t.1)), t.1) else some (m, 0))
unfolding drop_free_slab
drop_free_slab-when m fuel head t b counted e = ap (given_back m) counted ∙ rw e refl

two_or_fewer : (n : ℕ) → (n < 2) ⊎ (2 ≤ n)
two_or_fewer n = omega arith

pub drop_free_slab_collects :
    (m : Mem) (fuel head : ℕ) (slabs : List ℕ)
    → AllApart slabs
    → Slabs m head slabs
    → length slabs ≤ fuel
    → ((count_full m slabs < 2) × (drop_free_slab fuel head m ≡ some (m, 0)))
      ⊎ ((2 ≤ count_full m slabs) × Dropped m head slabs (drop_free_slab fuel head m))
unfolding last_or
drop_free_slab_collects m fuel head slabs apart links enough =
    let r : (t : ℕ × ℕ × ℕ) × (count_free fuel head 0 0 0 0 m ≡ some t) × Counted m slabs t =
      count_free-Counted m fuel slabs [] head 0 0 0 links enough
        (record { count = unfold count_full in refl; found = λ some_full. absurd (omega arith) }) in
    elim (two_or_fewer (count_full m slabs)) [
      | inl few ↦
          inl (few, drop_free_slab-when m fuel head r.0 false r.1 (ground (arith, few, r.2.count)))
      | inr two ↦
          let t = r.2.found (omega (arith, r.2.count)) in
          let (front, before) = before_last_full m slabs r.0.1 r.0.2 t two in
          let split =
            t.split
            ∙ ap (λ (l : List ℕ). l ++ (r.0.1 ∷ t.behind)) before
            ∙ append_assoc front (r.0.2 ∷ []) (r.0.1 ∷ t.behind) in
          inr (
            two,
            record {
              front = front;
              holder = r.0.2;
              taken = r.0.1;
              behind = t.behind;
              split = split;
              full = t.full;
              last = t.none_full;
              given = drop_free_slab-when m fuel head r.0 true r.1 (ground (arith, two, r.2.count));
              linked =
                  Slabs-unlink m head r.0.2 r.0.1 front t.behind (subst AllApart split apart)
                    (subst (Slabs m head) split links);
            },
          )
    ]
