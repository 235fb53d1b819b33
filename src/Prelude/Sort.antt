-- ===== src/Prelude/Sort.antt =====
-- `sort.Strings` as insertion sort: the documented result of the library's sort, the list in
-- increasing order with the same entries. Two sorted lists with the same entries are equal.
use Prim.Native.Nat.{◌≤◌, ◌<◌}
use mathlib.Core.Path.{◌≡◌, refl, ap, ap₂, sym, subst, ◌∙◌}
use mathlib.Core.Logic.{inl, inr}
use mathlib.Core.Bool.{true}
use mathlib.Core.List.{List, [], ◌∷◌}
use native.Mathlib.Omega.{arith}
use terragraph.Prelude.Tests.{if◌then◌else◌, Bool-cases}
use terragraph.Prelude.Lists.{All, All-map}
use terragraph.Prelude.Strings.{
  Str, str_eq, str_ltb, str_leb, str_eq_iff, str_leb_trans, str_leb_total, str_ltb_total,
  str_eq_refl, str_ltb_irrefl, str_ltb_trans, contains, count, contains_iff,
}

insert : Str → List Str → List Str
insert x [] = x ∷ []
insert x (y ∷ ys) = if str_leb x y then x ∷ y ∷ ys else y ∷ insert x ys

unfoldable pub sort : List Str → List Str
unfolding insert
sort [] = []
sort (x ∷ xs) = insert x (sort xs)

-- slices.Compact: adjacent equal entries become one.
compact_after : Str → List Str → List Str
compact_after x [] = []
compact_after x (y ∷ ys) = if str_eq y x then compact_after x ys else y ∷ compact_after y ys

unfoldable pub compact : List Str → List Str
unfolding compact_after
compact [] = []
compact (x ∷ xs) = x ∷ compact_after x xs

abbrev pub IsSorted : List Str → Type 0
IsSorted [] = Unit
IsSorted (x ∷ xs) = All (λ y. str_leb x y ≡ true) xs × IsSorted xs

-- Strictly increasing: sorted, with no entry twice.
abbrev pub IsIncreasing : List Str → Type 0
IsIncreasing [] = Unit
IsIncreasing (x ∷ xs) = All (λ y. str_ltb x y ≡ true) xs × IsIncreasing xs

count-insert : (a x : Str) (xs : List Str) → count a (insert x xs) ≡ count a (x ∷ xs)
unfolding insert count
count-insert a x [] = refl
count-insert a x (y ∷ ys) = ground (arith, count-insert a x ys)

-- Sorting neither adds nor drops an entry.
pub count-sort : (a : Str) (xs : List Str) → count a (sort xs) ≡ count a xs
unfolding sort count
count-sort a [] = refl
count-sort a (x ∷ xs) = ground (arith, count-insert a x (sort xs), count-sort a xs)

-- A predicate that holds for every entry, by membership.
pub All-count {ℓ} :
    {P : Str → Type ℓ} (xs : List Str) → ((a : Str) → 0 < count a xs → P a) → All P xs
unfolding count
All-count [] f = tt
All-count (x ∷ xs) f =
    (f x (ground (arith, str_eq_refl x)), All-count xs (λ a h. f a (ground arith)))

pub All-of_count {ℓ} :
    (P : Str → Type ℓ) (xs : List Str) (a : Str) → All P xs → 0 < count a xs → P a
unfolding count
All-of_count P [] a h k = absurd (omega arith)
All-of_count P (x ∷ xs) a h k = elim (Bool-cases (str_eq x a)) [
  | inl e ↦ subst P ((str_eq_iff x a).0 e) h.0
  | inr n ↦ All-of_count P xs a h.1 (rw (n, count) at k)
]

All-insert {ℓ} : (P : Str → Type ℓ) (x : Str) (xs : List Str) → P x → All P xs → All P (insert x xs)
unfolding insert
All-insert P x [] p h = (p, tt)
All-insert P x (y ∷ ys) p h = elim (Bool-cases (str_leb x y)) [
  | inl e ↦ rw e (p, h)
  | inr n ↦ rw n (h.0, All-insert P x ys p h.1)
]

insert-IsSorted : (x : Str) (xs : List Str) → IsSorted xs → IsSorted (insert x xs)
unfolding insert
insert-IsSorted x [] h = (tt, tt)
insert-IsSorted x (y ∷ ys) h = elim (Bool-cases (str_leb x y)) [
  | inl e ↦ rw e ((e, All-map ys (λ z k. str_leb_trans x y z e k) h.0), h)
  | inr n ↦ rw n (
    All-insert (λ z. str_leb y z ≡ true) x ys (str_leb_total x y n) h.0,
    insert-IsSorted x ys h.1,
  )
]

pub sort-IsSorted : (xs : List Str) → IsSorted (sort xs)
unfolding sort
sort-IsSorted [] = tt
sort-IsSorted (x ∷ xs) = insert-IsSorted x (sort xs) (sort-IsSorted xs)

-- A list whose entries all count zero is empty.
count-zero_nil : (xs : List Str) → ((a : Str) → 0 ≡ count a xs) → [] ≡ xs
unfolding count
count-zero_nil [] h = refl
count-zero_nil (x ∷ xs) h = absurd (let e = h x in ground (arith, str_eq_refl x))

-- A sorted list is determined by how often each entry stands in it.
pub sorted_unique :
    (xs ys : List Str) → IsSorted xs → IsSorted ys → ((a : Str) → count a xs ≡ count a ys) → xs ≡ ys
unfolding count
sorted_unique [] ys h k same = count-zero_nil ys same
sorted_unique (x ∷ xs) [] h k same = sym (count-zero_nil (x ∷ xs) (λ a. sym (same a)))
sorted_unique (x ∷ xs) (y ∷ ys) h k same =
    ap₂ (λ z zs. z ∷ zs) heads (sorted_unique xs ys h.1 k.1 tails)
  where
    x_low : str_leb x y ≡ true
    x_low =
        All-of_count (λ z. str_leb x z ≡ true) (x ∷ xs) y (ground (arith, str_ltb_irrefl x), h.0)
          (let e = same y in ground (arith, str_eq_refl y))

    y_low : str_leb y x ≡ true
    y_low =
        All-of_count (λ z. str_leb y z ≡ true) (y ∷ ys) x (ground (arith, str_ltb_irrefl y), k.0)
          (let e = same x in ground (arith, str_eq_refl x))

    heads : x ≡ y
    heads = str_ltb_total x y (ground (arith, y_low)) (ground (arith, x_low))

    tails : (a : Str) → count a xs ≡ count a ys
    tails a = let e = same a in ground (arith, heads)

-- Sorting forgets the order of its input.
pub sort_eq : (xs ys : List Str) → ((a : Str) → count a xs ≡ count a ys) → sort xs ≡ sort ys
sort_eq xs ys same =
    sorted_unique (sort xs) (sort ys) (sort-IsSorted xs) (sort-IsSorted ys)
      (λ a. count-sort a xs ∙ same a ∙ sym (count-sort a ys))

pub contains-sort : (a : Str) (xs : List Str) → contains a (sort xs) ≡ contains a xs
contains-sort a xs = ground (arith, contains_iff a (sort xs), contains_iff a xs, count-sort a xs)

pub IsIncreasing-IsSorted : (xs : List Str) → IsIncreasing xs → IsSorted xs
IsIncreasing-IsSorted [] h = tt
IsIncreasing-IsSorted (x ∷ xs) h = (
  All-map xs (λ y e. ground (arith, str_ltb_trans x y x, str_ltb_irrefl x)) h.0,
  IsIncreasing-IsSorted xs h.1,
)

-- An increasing list holds no entry twice.
pub count-increasing : (a : Str) (xs : List Str) → IsIncreasing xs → count a xs ≤ 1
unfolding count
count-increasing a [] h = omega arith
count-increasing a (x ∷ xs) h = elim (Bool-cases (str_eq x a)) [
  | inl e ↦ elim (Bool-cases (contains a xs)) [
    | inl m ↦ absurd (
        let low = All-of_count (λ y. str_ltb x y ≡ true) xs a h.0 ((contains_iff a xs).0 m) in
        ground (arith, str_eq_iff x a, str_ltb_irrefl a))
    | inr m ↦ rw e (ground (arith, contains_iff a xs))
  ]
  | inr n ↦ rw n (count-increasing a xs h.1)
]

-- A sorted list with no entry twice is increasing.
pub sorted-IsIncreasing :
    (xs : List Str) → IsSorted xs → ((a : Str) → count a xs ≤ 1) → IsIncreasing xs
unfolding count
sorted-IsIncreasing [] h once = tt
sorted-IsIncreasing (x ∷ xs) h once = (
  All-count xs (λ a m.
      let low = All-of_count (λ y. str_leb x y ≡ true) xs a h.0 m in
      let single = once a in ground (arith, str_ltb_total x a, str_eq_iff x a)),
  sorted-IsIncreasing xs h.1 (λ a. let single = once a in ground arith),
)

contains-compact_after :
    (a x : Str) (xs : List Str) → contains a (x ∷ compact_after x xs) ≡ contains a (x ∷ xs)
unfolding compact_after contains
contains-compact_after a x [] = refl
contains-compact_after a x (y ∷ ys) =
    ground (arith, contains-compact_after a x ys, contains-compact_after a y ys, str_eq_iff y x)

-- Dropping repeated neighbours keeps every entry once.
pub contains-compact : (a : Str) (xs : List Str) → contains a (compact xs) ≡ contains a xs
unfolding compact
contains-compact a [] = refl
contains-compact a (x ∷ xs) = contains-compact_after a x xs

compact_after-IsIncreasing :
    (x : Str) (xs : List Str) → IsSorted (x ∷ xs) → IsIncreasing (x ∷ compact_after x xs)
unfolding compact_after
compact_after-IsIncreasing x [] h = (tt, tt)
compact_after-IsIncreasing x (y ∷ ys) h = elim (Bool-cases (str_eq y x)) [
  | inl e ↦ rw e (compact_after-IsIncreasing x ys (h.0.1, h.1.1))
  | inr n ↦
      let rest = compact_after-IsIncreasing y ys h.1 in
      let first : str_ltb x y ≡ true = ground (arith, str_ltb_total x y, str_eq_iff y x, h.0.0) in
      rw n ((first, All-map (compact_after y ys) (λ z e. str_ltb_trans x y z first e) rest.0), rest)
]

pub compact-IsIncreasing : (xs : List Str) → IsSorted xs → IsIncreasing (compact xs)
unfolding compact
compact-IsIncreasing [] h = tt
compact-IsIncreasing (x ∷ xs) h = compact_after-IsIncreasing x xs h

pub sort-eq_nil : (xs : List Str) → sort xs ≡ [] → xs ≡ []
unfolding count
sort-eq_nil xs e = sym (count-zero_nil xs (λ a. sym (ap (count a) e) ∙ count-sort a xs))
