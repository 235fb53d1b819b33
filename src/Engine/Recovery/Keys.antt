-- ===== src/Engine/Recovery/Keys.antt =====
-- The keys of records and of plans: an identifier with its extension.
use mathlib.Core.List.{reverse-append, reverse-reverse}
use terragraph.Prelude.{
  ◌≡◌, refl, sym, ap, ◌∙◌, subst, arith, true, false, Str, bytes, str_eq, str_eq_iff, [], ◌∷◌, ◌++◌,
  reverse, has_prefix, has_suffix, Bool-cases, inl, inr, ==_iff,
}
use terragraph.Engine.Store.{after_prefix}
use terragraph.Engine.Recovery.{trim_suffix}

prefix-append : (s p : Str) → has_prefix s p ≡ true → p ++ after_prefix p s ≡ s
unfolding has_prefix
prefix-append s [] h = refl
prefix-append [] (y ∷ p) h = absurd (cc)
prefix-append (x ∷ s) (y ∷ p) h =
    let rest = prefix-append s p (ground (arith)) in
    let same = ==_iff x y in
    ap (λ a. a ∷ p ++ after_prefix p s) (sym (same.0 (ground (arith)))) ∙ ap (λ l. x ∷ l) rest

-- TrimSuffix takes off what stood behind.
pub trim_suffix_lem : (s p : Str) → has_suffix s p ≡ true → trim_suffix s p ++ p ≡ s
unfolding has_suffix
trim_suffix_lem s p h = elim (Bool-cases (has_suffix s p)) [
  | inl e ↦ rw e (
      ap (λ l. reverse (after_prefix (reverse p) (reverse s)) ++ l) (sym (reverse-reverse p))
      ∙ sym (reverse-append (reverse p) (after_prefix (reverse p) (reverse s)))
      ∙ ap reverse (prefix-append (reverse s) (reverse p) h)
      ∙ reverse-reverse s)
  | inr e ↦ absurd (cc)
]

-- The key of a record is not that of a plan.
pub json_key-other :
    (j x : Str) → has_suffix j (bytes ".json") ≡ true → str_eq j (x ++ bytes ".bin") ≡ false
unfolding has_suffix has_prefix
json_key-other j x h = elim (Bool-cases (str_eq j (x ++ bytes ".bin"))) [
  | inr e ↦ e
  | inl e ↦ absurd (
      let same = (str_eq_iff j (x ++ bytes ".bin")).0 e in
      let ends = subst (λ s. has_suffix s (bytes ".json") ≡ true) same h in
      let turned =
        subst (λ s. has_prefix s (reverse (bytes ".json")) ≡ true) (reverse-append x (bytes ".bin"))
          ends in
      cc)
]
