-- ===== src/Prelude/Strings.antt =====
-- Go strings as lists of bytes: equality, the order of `sort.Strings`, prefixes and suffixes,
-- membership and counting in lists of strings.
use Prim.Native.Nat.{ℕ, suc, ◌+◌, ◌<◌}
use Prim.Native.Char.{code}
use Prim.Native.String.{String}
use mathlib.Core.Path.{◌≡◌, refl}
use mathlib.Core.Logic.{◌↔◌}
use mathlib.Core.Bool.{Bool, true, false, not, ◌&&◌, ◌||◌}
use mathlib.Core.List.{List, [], ◌∷◌, ◌++◌, reverse}
use native.Mathlib.Omega.{arith}
use terragraph.Prelude.Tests.{ltb, ◌==◌, if◌then◌else◌}

abbrev pub Str : Type 0
Str = List ℕ

-- The bytes of an ASCII literal.
abbrev pub bytes : String → Str
bytes String.[] = []
bytes (String.◌∷◌ c s) = code c ∷ bytes s

unfoldable pub str_eq : Str → Str → Bool
str_eq [] [] = true
str_eq [] (y ∷ ys) = false
str_eq (x ∷ xs) [] = false
str_eq (x ∷ xs) (y ∷ ys) = x == y && str_eq xs ys

-- a < b, byte by byte
unfoldable pub str_ltb : Str → Str → Bool
str_ltb [] [] = false
str_ltb [] (y ∷ ys) = true
str_ltb (x ∷ xs) [] = false
str_ltb (x ∷ xs) (y ∷ ys) = ltb x y || x == y && str_ltb xs ys

abbrev pub str_leb : Str → Str → Bool
str_leb a b = not (str_ltb b a)

-- strings.HasPrefix s p
unfoldable pub has_prefix : Str → Str → Bool
has_prefix s [] = true
has_prefix [] (y ∷ p) = false
has_prefix (x ∷ s) (y ∷ p) = x == y && has_prefix s p

unfoldable pub has_suffix : Str → Str → Bool
unfolding has_prefix
has_suffix s p = has_prefix (reverse s) (reverse p)

pub str_eq_iff : (a b : Str) → (str_eq a b ≡ true) ↔ (a ≡ b)
unfolding str_eq
str_eq_iff [] [] = (λ _. refl, λ _. refl)
str_eq_iff [] (y ∷ ys) = (λ h. cc, λ h. cc)
str_eq_iff (x ∷ xs) [] = (λ h. cc, λ h. cc)
str_eq_iff (x ∷ xs) (y ∷ ys) = ground (arith, str_eq_iff xs ys)

pub str_eq_refl : (a : Str) → str_eq a a ≡ true
str_eq_refl a = (str_eq_iff a a).1 refl

pub str_ltb_irrefl : (a : Str) → str_ltb a a ≡ false
unfolding str_ltb
str_ltb_irrefl [] = refl
str_ltb_irrefl (x ∷ xs) = ground (arith, str_ltb_irrefl xs)

pub str_ltb_trans : (a b c : Str) → str_ltb a b ≡ true → str_ltb b c ≡ true → str_ltb a c ≡ true
unfolding str_ltb
str_ltb_trans [] [] c h k = k
str_ltb_trans [] (y ∷ b) [] h k = k
str_ltb_trans [] (y ∷ b) (z ∷ c) h k = refl
str_ltb_trans (x ∷ a) [] c h k = cc
str_ltb_trans (x ∷ a) (y ∷ b) [] h k = k
str_ltb_trans (x ∷ a) (y ∷ b) (z ∷ c) h k = ground (arith, str_ltb_trans a b c)

-- Of two different strings one is smaller.
pub str_ltb_total : (a b : Str) → str_ltb a b ≡ false → str_ltb b a ≡ false → a ≡ b
unfolding str_ltb
str_ltb_total [] [] h k = refl
str_ltb_total [] (y ∷ b) h k = cc
str_ltb_total (x ∷ a) [] h k = cc
str_ltb_total (x ∷ a) (y ∷ b) h k = ground (arith, str_ltb_total a b)

pub str_leb_trans : (a b c : Str) → str_leb a b ≡ true → str_leb b c ≡ true → str_leb a c ≡ true
str_leb_trans a b c h k = ground (
  arith,
  str_ltb_trans c a b,
  str_ltb_trans b c a,
  str_ltb_trans c b a,
  str_ltb_total a b,
  str_ltb_total b c,
  str_ltb_irrefl a,
)

pub str_leb_total : (a b : Str) → str_leb a b ≡ false → str_leb b a ≡ true
str_leb_total a b h = ground (arith, str_ltb_trans a b a, str_ltb_irrefl a)

unfoldable pub contains : Str → List Str → Bool
contains a [] = false
contains a (x ∷ xs) = str_eq x a || contains a xs

unfoldable pub count : Str → List Str → ℕ
count a [] = 0
count a (x ∷ xs) = if str_eq x a then suc (count a xs) else count a xs

pub contains_iff : (a : Str) (xs : List Str) → (contains a xs ≡ true) ↔ (0 < count a xs)
unfolding contains count
contains_iff a [] = ground arith
contains_iff a (x ∷ xs) = ground (arith, contains_iff a xs)

pub count-append : (a : Str) (xs ys : List Str) → count a (xs ++ ys) ≡ count a xs + count a ys
unfolding count
count-append a [] ys = omega arith
count-append a (x ∷ xs) ys = ground (arith, count-append a xs ys)

pub contains-append :
    (a : Str) (xs ys : List Str) → contains a (xs ++ ys) ≡ (contains a xs || contains a ys)
unfolding contains
contains-append a [] ys = refl
contains-append a (x ∷ xs) ys = ground (arith, contains-append a xs ys)
