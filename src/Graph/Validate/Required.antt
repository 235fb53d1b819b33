-- ===== src/Graph/Validate/Required.antt =====
-- internal/graph/validate.go: the required variables that the fourth loop of `Validate` reads.
use terragraph.Prelude.{
  ◌≡◌, ◌<◌, ◌⊎◌, refl, arith, Bool, true, false, not, ◌&&◌, if◌then◌else◌, Str, List, [], ◌∷◌, ◌++◌,
  map, sort, contains, contains_iff, contains-sort, count, All, All-map, All-of_count, Bool-cases,
  inl, inr, lookup, some, str_eq, str_eq_iff, str_eq_refl, ◌∙◌, subst,
}
use terragraph.Module.{Variable}
use terragraph.Graph.{Graph}
use terragraph.Graph.Validate.{
  Node, Problem, port_key, input_subject, entries, is_required, unwired_inputs, variable_entries,
  wiring, wiring_problems,
}
use terragraph.Graph.Validate.Suppliers.{supplied, wiring-clean}

All-front :
    (P : Str × Str → Type 0) (xs ys : List (Str × Str)) → All P (xs ++ ys) → All P xs × All P ys
All-front P [] ys h = (tt, h)
All-front P (x ∷ xs) ys h = let r = All-front P xs ys h.1 in ((h.0, r.0), r.1)

All-pairs :
    (P : Str × Str → Type 0) (n : Str) (vs : List Str)
    → All P (map (λ v. (n, v)) vs)
    → All (λ v. P (n, v)) vs
All-pairs P n [] h = tt
All-pairs P n (v ∷ vs) h = (h.0, All-pairs P n vs h.1)

-- What holds of all entries holds of each one that stands under a name.
All-entries :
    (P : Str × Str → Type 0) (of : Str → List Str) (ns : List Str) (n : Str)
    → All P (entries of ns)
    → 0 < count n ns
    → All (λ v. P (n, v)) (of n)
unfolding entries count
All-entries P of [] n h m = absurd (omega arith)
All-entries P of (x ∷ ns) n h m =
    let parts = All-front P (map (λ v. (x, v)) (of x)) (entries of ns) h in
    elim (Bool-cases (str_eq x n)) [
      | inl e ↦
          let same = (str_eq_iff x n).0 e in
          subst (λ y. All (λ v. P (y, v)) (of y)) same (All-pairs P x (of x) parts.0)
      | inr d ↦ All-entries P of ns n parts.1 (rw d at m)
    ]

lookup-contains :
    {A : Type 0} (v : Str) (m : List (Str × A)) (x : A)
    → lookup v m ≡ some x
    → contains v (map (λ e. e.0) m) ≡ true
unfolding lookup contains
lookup-contains v [] x e = absurd (cc)
lookup-contains v (f ∷ m) x e =
    ground (arith, str_eq_iff v f.0, str_eq_iff f.0 v, lookup-contains v m x)

-- The subject is among the subjects of the problems.
abbrev pub IsReported : Str → List Problem → Type 0
IsReported subject ps = contains subject (map (λ p. p.subject) ps) ≡ true

later :
    (b : Bool) (s : Str) (w : Problem) (ps : List Problem)
    → IsReported s ps
    → IsReported s (if b then w ∷ ps else ps)
unfolding contains
later true s w ps h = ground (arith, h)
later false s w ps h = h

later-append : (s : Str) (ps qs : List Problem) → IsReported s qs → IsReported s (ps ++ qs)
unfolding contains
later-append s [] qs h = h
later-append s (p ∷ ps) qs h = ground (arith, later-append s ps qs h)

module _ (node_at : Str → Node) where
  abbrev IsCovered : List Str → List (Str × Str) → Str × Str → Type 0
  IsCovered wired ps p =
      is_required node_at p ≡ true
      → contains (port_key p) wired ≡ false
      → IsReported (input_subject p) (unwired_inputs node_at wired ps)

  unwired_inputs-covers : (wired : List Str) (ps : List (Str × Str)) → All (IsCovered wired ps) ps
  unfolding unwired_inputs contains
  unwired_inputs-covers wired [] = tt
  unwired_inputs-covers wired (p ∷ ps) = (
    λ r f. rw (r, f, str_eq_refl (input_subject p)) refl,
    All-map ps
        (λ q h r f.
          later (is_required node_at p && not (contains (port_key p) wired)) (input_subject q) _
            (unwired_inputs node_at wired ps) (h r f))
        (unwired_inputs-covers wired ps),
  )

  -- When `Validate` finds no fault with the supply of inputs, each required variable of each node
  -- has one supplier, or a problem of Validate's names it.
  pub wiring_problems-required :
      (g : Graph) (n v : Str) (x : Variable)
      → (wiring node_at g).problems ≡ []
      → contains n g.nodes ≡ true
      → lookup v (node_at n).schema.variables ≡ some x
      → x.required ≡ true
      → (count (port_key (n, v)) (supplied node_at g) ≡ 1)
        ⊎ IsReported (input_subject (n, v)) (wiring_problems node_at g)
  unfolding wiring_problems variable_entries
  wiring_problems-required g n v x clean here found required =
      let w = wiring node_at g in
      let left = wiring-clean node_at g clean in
      let names = λ (m : Str). sort (map (λ e. e.0) (node_at m).schema.variables) in
      let covers = IsCovered w.wired (variable_entries node_at g) in
      let listed =
        All-entries covers names (sort g.nodes) n
          (unwired_inputs-covers w.wired (variable_entries node_at g))
          ((contains_iff n (sort g.nodes)).0 (contains-sort n g.nodes ∙ here)) in
      let mine =
        All-of_count (λ u. covers (n, u)) (names n) v listed
          ((contains_iff v (names n)).0 (
            contains-sort v (map (λ e. e.0) (node_at n).schema.variables)
            ∙ lookup-contains v (node_at n).schema.variables x found)) in
      elim (Bool-cases (contains (port_key (n, v)) w.wired)) [
        | inl s ↦ inl (
            omega (
              arith,
              left.0.sole (port_key (n, v)),
              left.1 (port_key (n, v)),
              (contains_iff (port_key (n, v)) w.wired).0 s,
            ))
        | inr s ↦ inr (
            later-append (input_subject (n, v)) w.problems
              (unwired_inputs node_at w.wired (variable_entries node_at g))
              (mine (rw (found, is_required) required) s))
      ]
