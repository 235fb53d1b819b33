-- ===== src/Graph/Group/Offer.antt =====
-- internal/graph/group.go: synthesizeSchema refuses an export whose ports the modules do not have.
use terragraph.Prelude.{
  ◌≡◌, arith, Bool, true, not, Str, List, All, is_nil, contains, lookup, Option-cases, inl, inr,
  if_elim,
}
use terragraph.Blueprint.{PortRef}
use terragraph.Module.{Variable, has_output, has_variable}
use terragraph.Graph.{Graph}
use terragraph.Graph.Validate.{Node}
use terragraph.Graph.Group.{
  Export, ExportInput, ExportOutput, UseInfo, Resolved, resolved, map_resolved, resolve_export,
  target_required, synthesize_input, synthesize_output, synthesize_schema, use_info,
}
use terragraph.Graph.Group.Success.{
  OnSuccess, on_success, >>=-OnSuccess, any_success, map_resolved-inputs,
}

module _ (node_at : Str → Node) where
  -- Every target of an input is a variable of its node's module, and every output leads to an
  -- output of its node's module.
  pub record IsOffered (x : Export) : Type 0 where
    pub inputs :
        All (λ i. All (λ r. has_variable (node_at r.node).schema r.name ≡ true) i.to) x.inputs
    pub outputs : All (λ o. has_output (node_at o.from.node).schema o.from.name ≡ true) x.outputs

  target_required-declared :
      (g : Graph) (name : Str) (ref : PortRef)
      → OnSuccess
          (λ _. has_variable (node_at ref.node).schema ref.name ≡ true)
          (target_required node_at g name ref)
  unfolding target_required
  target_required-declared g name ref =
      if_elim
        (λ (r : Resolved Bool).
          OnSuccess (λ _. has_variable (node_at ref.node).schema ref.name ≡ true) r)
        (not (contains ref.node g.nodes)) (λ _. tt)
        (λ _. elim (Option-cases (lookup ref.name (node_at ref.node).schema.variables)) [
          | inl n ↦ rw (n, OnSuccess) tt
          | inr (v, e) ↦ rw (e, OnSuccess) (ground (arith, e))
        ])

  synthesize_input-declared :
      (g : Graph) (i : ExportInput)
      → OnSuccess
          (λ _. All (λ r. has_variable (node_at r.node).schema r.name ≡ true) i.to)
          (synthesize_input node_at g i)
  unfolding synthesize_input
  synthesize_input-declared g i =
      let Q = λ (r : PortRef). has_variable (node_at r.node).schema r.name ≡ true in
      if_elim (λ (m : Resolved (Str × Variable)). OnSuccess (λ _. All Q i.to) m) (is_nil i.to)
        (λ _. tt)
        (λ _.
          >>=-OnSuccess (λ _. All Q i.to) (λ _. All Q i.to)
            (map_resolved (target_required node_at g i.name) i.to) _
            (map_resolved-inputs Q (target_required node_at g i.name) i.to
              (target_required-declared g i.name))
            (λ y q. q))

  synthesize_output-declared :
      (g : Graph) (o : ExportOutput)
      → OnSuccess
          (λ _. has_output (node_at o.from.node).schema o.from.name ≡ true)
          (synthesize_output node_at g o)
  unfolding synthesize_output
  synthesize_output-declared g o =
      let Q = λ (m : Resolved Str).
        OnSuccess (λ _. has_output (node_at o.from.node).schema o.from.name ≡ true) m in
      if_elim Q (not (contains o.from.node g.nodes)) (λ _. tt)
        (λ _.
          if_elim Q (not (has_output (node_at o.from.node).schema o.from.name)) (λ _. tt)
            (λ e. ground (arith, e)))

  synthesize_schema-IsOffered :
      (g : Graph) (x : Export) → OnSuccess (λ _. IsOffered x) (synthesize_schema node_at g x)
  unfolding synthesize_schema
  synthesize_schema-IsOffered g x =
      let Q =
        λ (i : ExportInput). All (λ r. has_variable (node_at r.node).schema r.name ≡ true) i.to in
      let R = λ (o : ExportOutput). has_output (node_at o.from.node).schema o.from.name ≡ true in
      >>=-OnSuccess (λ _. All Q x.inputs) (λ _. IsOffered x)
        (map_resolved (synthesize_input node_at g) x.inputs) _
        (map_resolved-inputs Q (synthesize_input node_at g) x.inputs (synthesize_input-declared g))
        (λ y q.
          >>=-OnSuccess (λ _. All R x.outputs) (λ _. IsOffered x)
            (map_resolved (synthesize_output node_at g) x.outputs) _
            (map_resolved-inputs R (synthesize_output node_at g) x.outputs
              (synthesize_output-declared g))
            (λ z r. record { inputs = q; outputs = r }))

  -- What an instance offers exists: once `resolveUse` has resolved an export without an error,
  -- every target of its inputs is a declared variable and every output a declared output.
  pub use_info-IsOffered :
      (g : Graph) (namespace : Str) (uses : List (Str × UseInfo)) (x : Export) (info : UseInfo)
      → use_info node_at g namespace uses x ≡ resolved info
      → IsOffered info.export
  unfolding use_info
  use_info-IsOffered g namespace uses x info e =
      on_success (λ (i : UseInfo). IsOffered i.export) (use_info node_at g namespace uses x) info
        (>>=-OnSuccess (λ _. Unit {0}) (λ (i : UseInfo). IsOffered i.export)
          (resolve_export namespace uses x) _ (any_success (resolve_export namespace uses x))
          (λ y h.
            >>=-OnSuccess (λ _. IsOffered y) (λ (i : UseInfo). IsOffered i.export)
              (synthesize_schema node_at g y) _ (synthesize_schema-IsOffered g y) (λ z k. k)))
        e
