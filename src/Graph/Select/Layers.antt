-- ===== src/Graph/Select/Layers.antt =====
-- `SelectedLevels`: the schedule of the whole graph, cut down to the chosen nodes.
use terragraph.Prelude.{
  ◌≡◌, inl, inr, refl, ap, sym, ◌∙◌, arith, Bool, true, false, Str, str_eq_iff, List, [], ◌∷◌, ◌++◌,
  flatten, contains, count, contains_iff, Bool-cases, subst, keep, if◌then◌else◌, some, is_nil, All,
  All-map, contains-append, count-append, Option-cases, List-cases,
}
use terragraph.Graph.{Graph, IsGraph}
use terragraph.Graph.Topo
use terragraph.Graph.Topo.{levels, Outcome}
use terragraph.Graph.Topo.Order.{IsLayered, levels-IsSchedule}
use terragraph.Graph.Select.{selected_levels, restrict, turn, scheduled, first_unknown}

-- Every chosen dependency of a node stands in an earlier layer, or in `seen`.
abbrev pub IsLayeredAmong : Graph → List Str → List Str → List (List Str) → Type 0
IsLayeredAmong g chosen seen [] = Unit
IsLayeredAmong g chosen seen (level ∷ rest) =
    All (λ n. All (λ p. contains p chosen ≡ true → contains p seen ≡ true) (g.ins n)) level
    × IsLayeredAmong g chosen (seen ++ level) rest

abbrev kept : List Str → List Str → List Str
kept chosen = keep (λ name. contains name chosen)

All-keep {ℓ} : (P : Str → Type ℓ) (chosen xs : List Str) → All P xs → All P (kept chosen xs)
All-keep P chosen [] h = tt
All-keep P chosen (x ∷ xs) h = elim (Bool-cases (contains x chosen)) [
  | inl e ↦ rw e (h.0, All-keep P chosen xs h.1)
  | inr e ↦ rw e (All-keep P chosen xs h.1)
]

count-keep :
    (a : Str) (chosen xs : List Str)
    → count a (kept chosen xs) ≡ (if contains a chosen then count a xs else 0)
unfolding count
count-keep a chosen [] = ground arith
count-keep a chosen (x ∷ xs) = ground (arith, count-keep a chosen xs, str_eq_iff x a)

contains-kept :
    (a : Str) (chosen xs : List Str)
    → contains a chosen ≡ true
    → contains a (kept chosen xs) ≡ contains a xs
contains-kept a chosen xs m =
    ground (arith, count-keep a chosen xs, contains_iff a xs, contains_iff a (kept chosen xs))

count-restrict :
    (a : Str) (chosen : List Str) (ls : List (List Str))
    → count a (flatten (restrict chosen ls))
      ≡ (if contains a chosen then count a (flatten ls) else 0)
unfolding restrict flatten count
count-restrict a chosen [] = ground arith
count-restrict a chosen (level ∷ ls) = elim (List-cases (kept chosen level)) [
  | inl e ↦
      rw (e, restrict)
        (ground (
          arith,
          count-restrict a chosen ls,
          count-append a level (flatten ls),
          count-keep a chosen level,
          ap (count a) e,
        ))
  | inr (x, xs, e) ↦
      subst
        (λ k.
          count a (flatten (if is_nil k then restrict chosen ls else k ∷ restrict chosen ls))
          ≡ (if contains a chosen then count a (level ++ flatten ls) else 0))
        (sym e)
        (ground (
          arith,
          count-restrict a chosen ls,
          count-append a level (flatten ls),
          count-append a (x ∷ xs) (flatten (restrict chosen ls)),
          count-keep a chosen level,
          ap (count a) e,
        ))
]

restrict_layered :
    (g : Graph) (chosen seen seen' : List Str) (ls : List (List Str))
    → ((p : Str) → contains p chosen ≡ true → contains p seen ≡ true → contains p seen' ≡ true)
    → IsLayered g seen ls
    → IsLayeredAmong g chosen seen' (restrict chosen ls)
unfolding restrict contains
restrict_layered g chosen seen seen' [] grow h = tt
restrict_layered g chosen seen seen' (level ∷ ls) grow h = elim (List-cases (kept chosen level)) [
  | inl e ↦
      rw (e, restrict)
        (restrict_layered g chosen (seen ++ level) seen' ls
          (λ p m s. ground (
            arith,
            grow p m,
            contains-append p seen level,
            contains-kept p chosen level m,
            ap (contains p) e,
            s,
          ))
          h.1)
  | inr (x, xs, e) ↦
      subst
        (λ k.
          IsLayeredAmong g chosen seen'
            (if is_nil k then restrict chosen ls else k ∷ restrict chosen ls))
        (sym e)
        (
          subst (All λ n. All (λ p. contains p chosen ≡ true → contains p seen' ≡ true) (g.ins n)) e
              (All-keep _ chosen level
                (All-map level (λ n deps. All-map (g.ins n) (λ p s m. grow p m s) deps) h.0)),
          restrict_layered g chosen (seen ++ level) (seen' ++ x ∷ xs) ls
              (λ p m s. ground (
                arith,
                grow p m,
                contains-append p seen level,
                contains-append p seen' (x ∷ xs),
                contains-kept p chosen level m,
                ap (contains p) e,
                s,
              ))
              h.1,
        )
]

filled :
    (chosen : List Str) (ls : List (List Str))
    → All (λ level. is_nil level ≡ false) (restrict chosen ls)
unfolding restrict
filled chosen [] = tt
filled chosen (level ∷ ls) = elim (List-cases (kept chosen level)) [
  | inl e ↦ rw (e, restrict) (filled chosen ls)
  | inr (x, xs, e) ↦ rw (e, restrict) (refl, filled chosen ls)
]

-- What `SelectedLevels` returns for a list of names: the layers of the whole graph cut down to the
-- chosen nodes, turned round for destroy.
pub record IsPart (g : Graph) (chosen : List Str) (ls : List (List Str)) : Type 0 where
  pub layered : IsLayeredAmong g chosen [] ls
  pub complete :
      (a : Str) → count a (flatten ls) ≡ (if contains a chosen then count a g.nodes else 0)
  pub filled : All (λ level. is_nil level ≡ false) ls

-- Every chosen node is scheduled once, behind its chosen dependencies, in a layer that is not
-- empty; destroy takes the same layers from the last to the first.
pub selected_levels-IsPart :
    (g : Graph) (chosen : List Str) (back : Bool) (out : List (List Str))
    → IsGraph g
    → selected_levels g (some chosen) back ≡ scheduled out
    → (ls : List (List Str)) × (out ≡ turn back ls) × IsPart g chosen ls
unfolding selected_levels
selected_levels-IsPart g chosen back out built e = go (levels g) refl
  where
    go :
        (r : Outcome (List (List Str)))
        → levels g ≡ r
        → (ls : List (List Str)) × (out ≡ turn back ls) × IsPart g chosen ls
    go Topo.cyclic h = absurd (ground arith)
    go Topo.out_of_fuel h = absurd (ground arith)
    go (Topo.ok ls) h = elim (Option-cases (first_unknown g chosen)) [
      | inr (name, gone) ↦ absurd (ground arith)
      | inl known ↦
          let schedule = levels-IsSchedule g ls built h in
          (
            restrict chosen ls,
            ground arith,
            record {
              layered = restrict_layered g chosen [] [] ls (λ p m s. s) schedule.layered;
              complete = λ a.
                  count-restrict a chosen ls
                  ∙ ap (λ c. if contains a chosen then c else 0) (schedule.complete a);
              filled = filled chosen ls;
            },
          )
    ]
