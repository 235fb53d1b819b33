-- ===== src/Prelude/Order.antt =====
-- Boolean tests on sorted lists, and sorting by a comparison.
use mathlib.Core.Path.{◌≡◌, refl, ap, ◌∙◌}
use mathlib.Core.Bool.{Bool, true, false, not, ◌&&◌, ◌||◌}
use mathlib.Core.List.{List, [], ◌∷◌, ◌++◌}
use native.Mathlib.Omega.{arith}
use Prim.Native.Nat.{ℕ, ◌+◌}
use terragraph.Prelude.Tests.{if◌then◌else◌, if_elim}
use terragraph.Prelude.Lists.{all, is_nil, All}
use terragraph.Prelude.Strings.{Str, str_eq, str_ltb, str_eq_iff, str_ltb_irrefl, str_ltb_trans}
use terragraph.Prelude.Sort.{IsSorted}

module _ {ℓ} {A : Type ℓ} (less : A → A → Bool) where
  -- No entry is smaller than the one before it: slices.IsSorted.
  abbrev pub is_sorted_by : List A → Bool
  is_sorted_by [] = true
  is_sorted_by (x ∷ []) = true
  is_sorted_by (x ∷ y ∷ r) = not (less y x) && is_sorted_by (y ∷ r)

  insert_by : A → List A → List A
  insert_by x [] = x ∷ []
  insert_by x (y ∷ ys) = if less y x then y ∷ insert_by x ys else x ∷ y ∷ ys

  -- sort.Slice with the comparison `less`; entries of which none is smaller keep their order.
  unfoldable pub sort_by : List A → List A
  unfolding insert_by
  sort_by [] = []
  sort_by (x ∷ xs) = insert_by x (sort_by xs)

abbrev pub is_sorted : List Str → Bool
is_sorted = is_sorted_by str_ltb

pub IsSorted-is_sorted : (xs : List Str) → IsSorted xs → is_sorted xs ≡ true
IsSorted-is_sorted [] h = refl
IsSorted-is_sorted (x ∷ []) h = refl
IsSorted-is_sorted (x ∷ y ∷ r) h = ground (arith, h.0.0, IsSorted-is_sorted (y ∷ r) h.1)

-- slices.Compare on lists of strings: a < b
unfoldable pub strs_ltb : List Str → List Str → Bool
strs_ltb [] [] = false
strs_ltb [] (y ∷ ys) = true
strs_ltb (x ∷ xs) [] = false
strs_ltb (x ∷ xs) (y ∷ ys) = str_ltb x y || str_eq x y && strs_ltb xs ys

pub strs_ltb_asym : (a b : List Str) → strs_ltb a b ≡ true → strs_ltb b a ≡ false
unfolding strs_ltb
strs_ltb_asym [] [] h = refl
strs_ltb_asym [] (y ∷ b) h = refl
strs_ltb_asym (x ∷ a) [] h = cc
strs_ltb_asym (x ∷ a) (y ∷ b) h = ground (
  arith,
  strs_ltb_asym a b,
  str_ltb_trans x y x,
  str_ltb_irrefl x,
  str_eq_iff x y,
  str_eq_iff y x,
)

module _ {ℓ} {A : Type ℓ} (less : A → A → Bool)
    (asym : (a b : A) → less a b ≡ true → less b a ≡ false) where
  insert_by-sorted :
      (x : A) (ys : List A)
      → is_sorted_by less ys ≡ true
      → is_sorted_by less (insert_by less x ys) ≡ true
  unfolding insert_by
  insert_by-sorted x [] h = refl
  insert_by-sorted x (y ∷ []) h = ground (arith, asym y x)
  insert_by-sorted x (y ∷ z ∷ r) h = ground (arith, asym y x, insert_by-sorted x (z ∷ r))

  pub sort_by-sorted : (xs : List A) → is_sorted_by less (sort_by less xs) ≡ true
  unfolding sort_by
  sort_by-sorted [] = refl
  sort_by-sorted (x ∷ xs) = insert_by-sorted x (sort_by less xs) (sort_by-sorted xs)

module _ {ℓ} {A : Type ℓ} (less : A → A → Bool) (p : A → Bool) where
  all-insert_by : (x : A) (ys : List A) → all p (insert_by less x ys) ≡ (p x && all p ys)
  unfolding insert_by
  all-insert_by x [] = refl
  all-insert_by x (y ∷ ys) = ground (arith, all-insert_by x ys)

  -- Sorting keeps what holds of every entry.
  pub all-sort_by : (xs : List A) → all p (sort_by less xs) ≡ all p xs
  unfolding sort_by
  all-sort_by [] = refl
  all-sort_by (x ∷ xs) = all-insert_by x (sort_by less xs) ∙ ap (λ b. p x && b) (all-sort_by xs)

module _ {ℓ} {A : Type ℓ} (less : A → A → Bool) where
  is_nil-insert_by : (x : A) (ys : List A) → is_nil (insert_by less x ys) ≡ false
  unfolding insert_by
  is_nil-insert_by x [] = refl
  is_nil-insert_by x (y ∷ ys) = ground (arith)

  -- Sorting leaves nothing out of a list that has entries.
  pub is_nil-sort_by : (xs : List A) → is_nil (sort_by less xs) ≡ is_nil xs
  unfolding sort_by
  is_nil-sort_by [] = refl
  is_nil-sort_by (x ∷ xs) = is_nil-insert_by x (sort_by less xs)

-- How many entries satisfy the test.
abbrev pub tally {ℓ} : {A : Type ℓ} → (A → Bool) → List A → ℕ
tally p [] = 0
tally p (x ∷ xs) = (if p x then 1 else 0) + tally p xs

pub tally-append {ℓ} :
    {A : Type ℓ} (p : A → Bool) (xs ys : List A) → tally p (xs ++ ys) ≡ tally p xs + tally p ys
tally-append p [] ys = omega arith
tally-append p (x ∷ xs) ys = ground (arith, tally-append p xs ys)

module _ {ℓ} {A : Type ℓ} (less : A → A → Bool) (p : A → Bool) where
  tally-insert_by : (x : A) (ys : List A) → tally p (insert_by less x ys) ≡ tally p (x ∷ ys)
  unfolding insert_by
  tally-insert_by x [] = refl
  tally-insert_by x (y ∷ ys) = ground (arith, tally-insert_by x ys)

  -- Sorting keeps how often each entry stands in the list.
  pub tally-sort_by : (xs : List A) → tally p (sort_by less xs) ≡ tally p xs
  unfolding sort_by
  tally-sort_by [] = refl
  tally-sort_by (x ∷ xs) =
      let rest = tally-sort_by xs in
      let here = tally-insert_by x (sort_by less xs) in omega (arith, rest, here)

module _ {ℓ κ} {A : Type ℓ} (less : A → A → Bool) (P : A → Type κ) where
  All-insert_by : (x : A) (ys : List A) → P x → All P ys → All P (insert_by less x ys)
  unfolding insert_by
  All-insert_by x [] h k = (h, tt)
  All-insert_by x (y ∷ ys) h k =
      if_elim (λ l. All P l) (less y x) (λ _. (k.0, All-insert_by x ys h k.1))
        (λ _. (h, (k.0, k.1)))

  -- What holds of all entries holds of them in any order.
  pub All-sort_by : (xs : List A) → All P xs → All P (sort_by less xs)
  unfolding sort_by
  All-sort_by [] h = tt
  All-sort_by (x ∷ xs) h = All-insert_by x (sort_by less xs) h.0 (All-sort_by xs h.1)
