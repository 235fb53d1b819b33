-- ===== src/Prelude/Maps.antt =====
-- Association lists under byte strings: what a directory of objects or a map holds.
use mathlib.Core.Path.{◌≡◌, refl}
use mathlib.Core.Bool.{false}
use mathlib.Core.List.{List, [], ◌∷◌}
use mathlib.Core.Option.{Option, none, some}
use native.Mathlib.Omega.{arith}
use terragraph.Prelude.Tests.{if◌then◌else◌}
use terragraph.Prelude.Strings.{Str, str_eq, str_eq_iff}

module _ {ℓ} {A : Type ℓ} where
  unfoldable pub lookup : Str → List (Str × A) → Option A
  lookup k [] = none
  lookup k (e ∷ rest) = if str_eq k e.0 then some e.1 else lookup k rest

  unfoldable pub insert : Str → A → List (Str × A) → List (Str × A)
  insert k v [] = (k, v) ∷ []
  insert k v (e ∷ rest) =
      let later = insert k v rest in if str_eq k e.0 then (k, v) ∷ rest else e ∷ later

  unfoldable pub erase : Str → List (Str × A) → List (Str × A)
  erase k [] = []
  erase k (e ∷ rest) = let later = erase k rest in if str_eq k e.0 then later else e ∷ later

  pub lookup-insert : (k : Str) (v : A) (m : List (Str × A)) → lookup k (insert k v m) ≡ some v
  unfolding lookup insert
  lookup-insert k v [] = ground (arith, str_eq_iff k k)
  lookup-insert k v (e ∷ rest) = ground (arith, str_eq_iff k k, lookup-insert k v rest)

  pub lookup-insert_other :
      (k j : Str) (v : A) (m : List (Str × A))
      → str_eq j k ≡ false
      → lookup j (insert k v m) ≡ lookup j m
  unfolding lookup insert
  lookup-insert_other k j v [] h = ground (arith)
  lookup-insert_other k j v (e ∷ rest) h =
      ground (
        arith,
        str_eq_iff j e.0,
        str_eq_iff k e.0,
        str_eq_iff j k,
        lookup-insert_other k j v rest h,
      )

  pub lookup-erase : (k : Str) (m : List (Str × A)) → lookup k (erase k m) ≡ none
  unfolding lookup erase
  lookup-erase k [] = refl
  lookup-erase k (e ∷ rest) = ground (arith, lookup-erase k rest)

  pub lookup-erase_other :
      (k j : Str) (m : List (Str × A)) → str_eq j k ≡ false → lookup j (erase k m) ≡ lookup j m
  unfolding lookup erase
  lookup-erase_other k j [] h = refl
  lookup-erase_other k j (e ∷ rest) h =
      ground
        (arith, str_eq_iff j e.0, str_eq_iff k e.0, str_eq_iff j k, lookup-erase_other k j rest h)
