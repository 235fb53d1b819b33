-- ===== src/Graph/Group/Vars.antt =====
-- internal/graph/group.go: applyUseVars, which writes the values that a `use` block sets onto the
-- vars of the nodes behind the group's inputs. The maps are association lists; a value is left
-- open.
pub mod Filled
use terragraph.Prelude.{
  ◌≡◌, refl, ap, sym, ◌∙◌, arith, Bool, true, false, ◌&&◌, Str, List, [], ◌∷◌, ◌++◌, map, sort,
  is_nil, lookup, insert, lookup-insert, lookup-insert_other, Option, none, some, if◌then◌else◌,
  if_elim, All, All-map, All-append, str_eq, str_eq_iff, str_eq_refl, Bool-cases, Option-cases, inl,
  inr, subst,
}
use terragraph.Blueprint.{PortRef}
use terragraph.Graph.Group.{
  ExportInput, Resolved, resolved, refused, not_an_input, unknown_node, set_twice, ◌>>=◌,
}

-- `byName`: of two inputs with one name the later counts.
unfoldable pub by_name : List ExportInput → List (Str × List PortRef) → List (Str × List PortRef)
by_name [] m = m
by_name (i ∷ is) m = by_name is (insert i.name i.to m)

-- The vars of each node.
abbrev pub LeafVars : Type 0 → Type 0
LeafVars V = List (Str × List (Str × V))

-- The reference is to that variable of that node.
abbrev pub same_slot : PortRef → Str → Str → Bool
same_slot ref n v = str_eq n ref.node && str_eq v ref.name

module _ {V : Type 0} where
  abbrev pub set_new : PortRef → V → LeafVars V → List (Str × V) → Resolved (LeafVars V)
  set_new ref value nodes vars = elim (lookup ref.name vars) [
    | some x ↦ refused (set_twice ref)
    | none ↦ resolved (insert ref.node (insert ref.name value vars) nodes)
  ]

  -- One target of an input.
  unfoldable pub set_var : PortRef → V → LeafVars V → Resolved (LeafVars V)
  set_var ref value nodes = elim (lookup ref.node nodes) [
    | none ↦ refused (unknown_node ref)
    | some vars ↦ set_new ref value nodes vars
  ]

  unfoldable pub set_targets : List PortRef → V → LeafVars V → Resolved (LeafVars V)
  set_targets [] value nodes = resolved nodes
  set_targets (ref ∷ refs) value nodes = set_var ref value nodes >>= set_targets refs value

  abbrev pub set_input : Option (List PortRef) → Option V → Str → LeafVars V → Resolved (LeafVars V)
  set_input (some targets) (some value) key nodes = set_targets targets value nodes
  set_input _ _ key nodes = refused (not_an_input key)

  -- The loop over the sorted keys.
  unfoldable pub set_inputs :
      List (Str × List PortRef) → List (Str × V) → List Str → LeafVars V → Resolved (LeafVars V)
  set_inputs inputs vars [] nodes = resolved nodes
  set_inputs inputs vars (key ∷ keys) nodes =
      set_input (lookup key inputs) (lookup key vars) key nodes >>= set_inputs inputs vars keys

  -- applyUseVars
  unfoldable pub apply_use_vars :
      List (Str × V) → List ExportInput → LeafVars V → Resolved (LeafVars V)
  apply_use_vars vars inputs nodes =
      if is_nil vars
      then resolved nodes
      else set_inputs (by_name inputs []) vars (sort (map (λ e. e.0) vars)) nodes

  -- What a variable of a node is set to.
  unfoldable pub slot : Str → Str → LeafVars V → Option V
  slot n v nodes = elim (lookup n nodes) [ none ↦ none | some vars ↦ lookup v vars ]

  -- Set or not, a variable reads as it did unless the new vars are for it.
  pub slot-insert :
      (ref : PortRef) (value : V) (nodes : LeafVars V) (vars : List (Str × V)) (n v : Str)
      → lookup ref.node nodes ≡ some vars
      → slot n v (insert ref.node (insert ref.name value vars) nodes)
        ≡ (if same_slot ref n v then some value else slot n v nodes)
  unfolding slot
  slot-insert ref value nodes vars n v e = elim (Bool-cases (str_eq n ref.node)) [
    | inr d ↦ rw (d, slot, lookup-insert_other ref.node n (insert ref.name value vars) nodes d) refl
    | inl s ↦
        let same = (str_eq_iff n ref.node).0 s in
        rw (s, same, slot, lookup-insert ref.node (insert ref.name value vars) nodes, e)
          (elim (Bool-cases (str_eq v ref.name)) [
            | inr d ↦ rw (d, lookup-insert_other ref.name v value vars d) refl
            | inl t ↦
                let also = (str_eq_iff v ref.name).0 t in
                rw (t, also, lookup-insert ref.name value vars) refl
          ])
  ]
