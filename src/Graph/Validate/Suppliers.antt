-- ===== src/Graph/Validate/Suppliers.antt =====
-- internal/graph/validate.go: the supply of inputs that `Validate` checks, against its
-- description: ports that exist and one supplier for each input.
use terragraph.Prelude.{
  ◌+◌, ◌≡◌, ◌≤◌, ◌↔◌, refl, arith, Str, List, [], ◌++◌, map, count, count-append, All,
}
use terragraph.Graph.{Graph}
use terragraph.Graph.Validate.{
  Node, Wiring, check_edge, check_var, edge_key, port_key, data_edges, var_entries, input_entries,
  wiring, check_each,
}
use terragraph.Graph.Validate.Fold.{
  IsQuiet, check_each-IsQuiet, check_each-clean, check_each-IsPassed, check_each-accepts,
}
use terragraph.Graph.Validate.Steps.{
  JoinsPorts, IsDeclared, IsSecret, check_edge-IsCheck, check_var-IsCheck, check_input-IsCheck,
}

module _ (node_at : Str → Node) where
  -- The keys of all inputs that something supplies, once for each supplier.
  unfoldable pub supplied : Graph → List Str
  supplied g =
      map edge_key (data_edges g)
      ++ map port_key (var_entries node_at g)
      ++ map port_key (input_entries node_at g)

  -- Every port exists, plugin inputs go to sensitive variables, and no input has two suppliers.
  pub record IsSupplied (g : Graph) : Type 0 where
    pub joined : All (JoinsPorts node_at) (data_edges g)
    pub declared : All (IsDeclared node_at) (var_entries node_at g)
    pub secret : All (IsSecret node_at) (input_entries node_at g)
    pub sole : (k : Str) → count k (supplied g) ≤ 1

  abbrev nothing : Wiring
  nothing = record { problems = []; wired = []; reported = [] }

  abbrev after_edges : Graph → Wiring
  after_edges g = check_each (check_edge node_at) (data_edges g) nothing

  abbrev after_vars : Graph → Wiring
  after_vars g = check_each (check_var node_at) (var_entries node_at g) (after_edges g)

  edges-IsQuiet : (g : Graph) → IsQuiet (after_edges g)
  edges-IsQuiet g =
      check_each-IsQuiet (check_edge-IsCheck node_at) (data_edges g) nothing (λ _. refl)

  vars-IsQuiet : (g : Graph) → IsQuiet (after_vars g)
  vars-IsQuiet g =
      check_each-IsQuiet (check_var-IsCheck node_at) (var_entries node_at g) (after_edges g)
        (edges-IsQuiet g)

  count-supplied :
      (g : Graph) (k : Str)
      → count k (supplied g)
        ≡ count k (map edge_key (data_edges g))
          + count k (map port_key (var_entries node_at g))
          + count k (map port_key (input_entries node_at g))
  unfolding supplied
  count-supplied g k = ground (
    arith,
    count-append k (map edge_key (data_edges g) ++ map port_key (var_entries node_at g))
        (map port_key (input_entries node_at g)),
    count-append k (map edge_key (data_edges g)) (map port_key (var_entries node_at g)),
  )

  -- What the three loops leave in `wired` when they find nothing.
  pub wiring-clean :
      (g : Graph)
      → (wiring node_at g).problems ≡ []
      → IsSupplied g × ((k : Str) → count k (wiring node_at g).wired ≡ count k (supplied g))
  unfolding wiring count
  wiring-clean g e =
      let e₂ =
        check_each-clean (check_input-IsCheck node_at) (input_entries node_at g) (after_vars g)
          (vars-IsQuiet g) e in
      let e₁ =
        check_each-clean (check_var-IsCheck node_at) (var_entries node_at g) (after_edges g)
          (edges-IsQuiet g) e₂ in
      let a =
        check_each-IsPassed (check_edge-IsCheck node_at) (data_edges g) nothing (λ _. refl) e₁ in
      let b =
        check_each-IsPassed (check_var-IsCheck node_at) (var_entries node_at g) (after_edges g)
          (edges-IsQuiet g) e₂ in
      let c =
        check_each-IsPassed (check_input-IsCheck node_at) (input_entries node_at g) (after_vars g)
          (vars-IsQuiet g) e in
      let all : (k : Str) → count k (wiring node_at g).wired ≡ count k (supplied g) =
        λ k. omega (arith, a.counted k, b.counted k, c.counted k, count-supplied g k) in
      let once = c.once (b.once (a.once (λ k. omega arith))) in
      (
        record {
          joined = a.fine;
          declared = b.fine;
          secret = c.fine;
          sole = λ k. omega (arith, all k, once k);
        },
        all,
      )

  wiring-accepts : (g : Graph) → IsSupplied g → (wiring node_at g).problems ≡ []
  unfolding wiring count
  wiring-accepts g s =
      let e₁ =
        check_each-accepts (check_edge-IsCheck node_at) (data_edges g) nothing (λ _. refl) refl
          s.joined (λ k. omega (arith, s.sole k, count-supplied g k)) in
      let a =
        check_each-IsPassed (check_edge-IsCheck node_at) (data_edges g) nothing (λ _. refl) e₁ in
      let e₂ =
        check_each-accepts (check_var-IsCheck node_at) (var_entries node_at g) (after_edges g)
          (edges-IsQuiet g) e₁ s.declared
          (λ k. omega (arith, s.sole k, count-supplied g k, a.counted k)) in
      let b =
        check_each-IsPassed (check_var-IsCheck node_at) (var_entries node_at g) (after_edges g)
          (edges-IsQuiet g) e₂ in
      check_each-accepts (check_input-IsCheck node_at) (input_entries node_at g) (after_vars g)
        (vars-IsQuiet g) e₂ s.secret
        (λ k. omega (arith, s.sole k, count-supplied g k, a.counted k, b.counted k))

  -- `Validate` finds no fault with the supply of inputs just when both ports of every data edge
  -- exist, every variable that a node's vars set is declared, every plugin input goes to a
  -- declared variable marked sensitive, and no input is supplied twice, be it by data edges, vars
  -- or plugin inputs.
  pub wiring-nil_iff : (g : Graph) → ((wiring node_at g).problems ≡ []) ↔ IsSupplied g
  wiring-nil_iff g = (λ e. (wiring-clean g e).0, wiring-accepts g)
