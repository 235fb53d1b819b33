-- ===== src/Prelude/Counting.antt =====
-- Lengths from counts: a list whose entries all stand at least as often in another is no longer.
use Prim.Native.Nat.{suc, ◌+◌, ◌≤◌, ◌<◌}
use mathlib.Core.Path.{◌≡◌}
use mathlib.Core.List.{List, [], ◌∷◌}
use native.Mathlib.Omega.{arith}
use terragraph.Prelude.Tests.{if◌then◌else◌}
use terragraph.Prelude.Lists.{length}
use terragraph.Prelude.Strings.{Str, str_eq, str_eq_iff, str_eq_refl, count}

-- The list without the first entry that is `a`.
unfoldable pub remove_first : Str → List Str → List Str
remove_first a [] = []
remove_first a (x ∷ xs) = if str_eq x a then xs else x ∷ remove_first a xs

pub length-remove_first :
    (a : Str) (xs : List Str) → 0 < count a xs → suc (length (remove_first a xs)) ≡ length xs
unfolding remove_first count
length-remove_first a [] h = absurd (omega arith)
length-remove_first a (x ∷ xs) h = ground (arith, length-remove_first a xs)

pub count-remove_first :
    (a b : Str) (xs : List Str)
    → 0 < count a xs
    → (if str_eq a b then 1 else 0) + count b (remove_first a xs) ≡ count b xs
unfolding remove_first count
count-remove_first a b [] h = absurd (omega arith)
count-remove_first a b (x ∷ xs) h =
    ground (arith, count-remove_first a b xs, str_eq_iff x a, str_eq_iff a b, str_eq_iff x b)

pub length-le_of_count :
    (xs ys : List Str) → ((a : Str) → count a xs ≤ count a ys) → length xs ≤ length ys
unfolding count
length-le_of_count [] ys h = omega arith
length-le_of_count (x ∷ xs) ys h =
    omega (arith, length-remove_first x ys held, length-le_of_count xs (remove_first x ys) fewer)
  where
    held : 0 < count x ys
    held = let some_held = h x in ground (arith, str_eq_refl x)

    fewer : (a : Str) → count a xs ≤ count a (remove_first x ys)
    fewer a = let enough = h a in ground (arith, count-remove_first x a ys held)

pub length-eq_of_count :
    (xs ys : List Str) → ((a : Str) → count a xs ≡ count a ys) → length xs ≡ length ys
length-eq_of_count xs ys h = omega (
  arith,
  length-le_of_count xs ys (λ a. omega (arith, h a)),
  length-le_of_count ys xs (λ a. omega (arith, h a)),
)
