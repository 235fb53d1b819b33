-- ===== src/Graph/Validate/Steps.antt =====
-- internal/graph/validate.go: what one pass of each of the three loops finds.
use terragraph.Prelude.{
  ◌≡◌, refl, ap, arith, Bool, true, false, not, Str, String, List, [], ◌∷◌, ◌++◌, contains,
  Bool-cases, inl, inr, if_elim,
}
use terragraph.Blueprint.{Edge}
use terragraph.Module.{has_output, has_variable}
use terragraph.Graph.Validate.{
  Node, Problem, Wiring, check_edge, check_var, check_input, edge_key, port_key, not_plain, unless,
}
use terragraph.Graph.Validate.Fold.{IsQuiet, IsCheck}

append-eq_nil : (ps qs : List Problem) → ps ++ qs ≡ [] → (ps ≡ []) × (qs ≡ [])
append-eq_nil [] qs e = (refl, e)
append-eq_nil (p ∷ ps) qs e = absurd (cc)

unless_nil :
    (fine : Bool) (code : String) (subject : Str) → unless fine code subject ≡ [] → fine ≡ true
unfolding unless
unless_nil true code subject e = refl
unless_nil false code subject e = absurd (cc)

module _ (ps : List Problem) {a b c : Bool} (i j k : String) (s t u : Str) where
  -- Three checks that found nothing.
  three :
      ps ++ unless a i s ++ unless b j t ++ unless c k u ≡ []
      → (ps ≡ []) × (a ≡ true) × (b ≡ true) × (c ≡ true)
  three e =
      let x = append-eq_nil (ps ++ unless a i s ++ unless b j t) (unless c k u) e in
      let y = append-eq_nil (ps ++ unless a i s) (unless b j t) x.0 in
      let z = append-eq_nil ps (unless a i s) y.0 in
      (z.0, unless_nil a i s z.1, unless_nil b j t y.1, unless_nil c k u x.1)

  none_of_three :
      ps ≡ []
      → a ≡ true
      → b ≡ true
      → c ≡ true
      → ps ++ unless a i s ++ unless b j t ++ unless c k u ≡ []
  unfolding unless
  none_of_three e f g h = rw (e, f, g, h) refl

module _ (node_at : Str → Node) where
  -- Both ports of the edge exist.
  abbrev pub JoinsPorts : Edge → Type 0
  JoinsPorts e =
      (has_output (node_at e.from.node).schema e.from.name ≡ true)
      × (has_variable (node_at e.to.node).schema e.to.name ≡ true)

  abbrev pub IsDeclared : Str × Str → Type 0
  IsDeclared p = has_variable (node_at p.0).schema p.1 ≡ true

  -- The variable exists and is marked sensitive.
  abbrev pub IsSecret : Str × Str → Type 0
  IsSecret p = (not_plain node_at p ≡ true) × IsDeclared p

  check_edge-clean :
      (e : Edge) (w : Wiring)
      → IsQuiet w
      → (check_edge node_at e w).problems ≡ []
      → (w.problems ≡ []) × JoinsPorts e × (contains (edge_key e) w.wired ≡ false)
  unfolding check_edge contains
  check_edge-clean e w q h =
      let n = three w.problems _ _ _ _ _ _ h in
      let r = ap (contains (edge_key e)) (q n.0) in (n.0, (n.1, n.2), let l = n.3 in ground (arith))

  pub check_edge-IsCheck : IsCheck (check_edge node_at) edge_key JoinsPorts
  unfolding check_edge contains
  check_edge-IsCheck = record {
    quiet = λ e w q h. let c = check_edge-clean e w q h in rw c.2 (q c.0);
    clean = check_edge-clean;
    accept = λ e w q h fine fresh.
        (none_of_three w.problems _ _ _ _ _ _ h fine.0 fine.1 (rw fresh refl), rw fresh refl);
  }

  check_var-clean :
      (p : Str × Str) (w : Wiring)
      → (check_var node_at p w).problems ≡ []
      → (w.problems ≡ []) × IsDeclared p × (contains (port_key p) w.wired ≡ false)
  unfolding check_var unless
  check_var-clean p w = elim (Bool-cases (has_variable (node_at p.0).schema p.1)) [
    | inr n ↦ rw n (λ h. absurd (let e = append-eq_nil w.problems _ h in cc))
    | inl d ↦ elim (Bool-cases (contains (port_key p) w.wired)) [
      | inl t ↦ rw (d, t) (λ h. absurd (let e = append-eq_nil w.problems _ h in cc))
      | inr f ↦ rw (d, f) (λ h. (h, refl, refl))
    ]
  ]

  pub check_var-IsCheck : IsCheck (check_var node_at) port_key IsDeclared
  unfolding check_var unless
  check_var-IsCheck = record {
    quiet = λ p w q.
        if_elim (λ (v : Wiring). IsQuiet v) (not (has_variable (node_at p.0).schema p.1))
          (λ _ e. absurd (let n = append-eq_nil w.problems _ e in cc))
          (λ _.
            if_elim (λ (v : Wiring). IsQuiet v) (contains (port_key p) w.wired)
              (λ _ e. absurd (let n = append-eq_nil w.problems _ e in cc)) (λ _. q));
    clean = λ p w q. check_var-clean p w;
    accept = λ p w q h fine fresh. rw (fine, fresh) (h, refl);
  }

  pub check_input-IsCheck : IsCheck (check_input node_at) port_key IsSecret
  unfolding check_input
  check_input-IsCheck = record {
    quiet = λ p w q h. q (three w.problems _ _ _ _ _ _ h).0;
    clean = λ p w q h.
        let n = three w.problems _ _ _ _ _ _ h in (n.0, (n.1, n.3), let l = n.2 in ground (arith));
    accept = λ p w q h fine fresh.
        (none_of_three w.problems _ _ _ _ _ _ h fine.0 (rw fresh refl) fine.1, refl);
  }
