-- ===== src/Graph/Group.antt =====
-- internal/graph/group.go: how references to a group instance become references to its nodes.
-- The map `uses` is an association list; an error is a value that says which check refused.
pub mod Success
pub mod Edges
pub mod Expand
pub mod Vars
pub mod Offer
pub mod Barrier
pub mod Ends
use terragraph.Prelude.{
  ℕ, ◌<◌, ◌==◌, Bool, true, false, not, ◌&&◌, Str, bytes, List, [], ◌∷◌, ◌++◌, map, flatten, keep,
  is_nil, length, ltb, sort, str_eq, lookup, none, some, if◌then◌else◌, insert, contains, any,
}
use terragraph.Blueprint.{Edge, EntityKind, PortKind, PortRef, is_port, is_data_edge}
use terragraph.Module.{Schema, Variable, has_output}
use terragraph.Graph.Validate.{Node}
use terragraph.Graph.{Graph, add_edges, qualify_name}

pub record ExportInput : Type 0 where
  pub name : Str
  pub to : List PortRef

pub record ExportOutput : Type 0 where
  pub name : Str
  pub from : PortRef

pub record Export : Type 0 where
  pub inputs : List ExportInput
  pub outputs : List ExportOutput

pub record UseInfo : Type 0 where
  pub export : Export
  pub roots : List Str
  pub sinks : List Str

pub data Refusal : Type 0 where
  unknown_instance : Str → Refusal
  not_exported : PortRef → Refusal
  not_one_port : Str → Refusal
  both_sides : Refusal
  not_an_input : Str → Refusal
  unknown_node : PortRef → Refusal
  set_twice : PortRef → Refusal
  circular_use : Str → Refusal
  no_group : Str → Str → Refusal
  out_of_fuel : Refusal
  no_targets : Str → Refusal
  no_internal_node : Str → PortRef → Refusal
  no_internal_port : Str → PortRef → Refusal
  not_vendored : Str → Refusal
  not_inspected : Str → Refusal
  address_unknown : Str → Refusal
  invalid_group : Refusal

pub data Resolved (A : Type 0) : Type 0 where
  resolved : A → Resolved A
  refused : Refusal → Resolved A

infixl 5 ◌>>=◌
abbrev pub ◌>>=◌ : {A B : Type 0} → Resolved A → (A → Resolved B) → Resolved B
resolved a >>= f = f a
refused r >>= f = refused r

-- A loop that stops at the first error.
unfoldable pub map_resolved : {A B : Type 0} → (A → Resolved B) → List A → Resolved (List B)
map_resolved f [] = resolved []
map_resolved f (x ∷ xs) = do y ← f x; ys ← map_resolved f xs; resolved (y ∷ ys)

-- The first exported output, or input, of that name.
unfoldable pub output_port : PortRef → List ExportOutput → Resolved (List PortRef)
output_port ref [] = refused (not_exported ref)
output_port ref (o ∷ os) =
    let rest = output_port ref os in if str_eq o.name ref.name then resolved (o.from ∷ []) else rest

unfoldable pub input_ports : PortRef → List ExportInput → Resolved (List PortRef)
input_ports ref [] = refused (not_exported ref)
input_ports ref (i ∷ is) =
    let rest = input_ports ref is in if str_eq i.name ref.name then resolved i.to else rest

-- A port of an instance, through its export; every kind but `output` is looked up as an input.
unfoldable pub exported : PortRef → UseInfo → Resolved (List PortRef)
exported ref info = elim ref.kind [
  | PortKind.output ↦ output_port ref info.export.outputs
  | _ ↦ input_ports ref info.export.inputs
]

abbrev pub qualified : Str → PortRef → PortRef
qualified namespace ref = record ref { node = qualify_name namespace ref.node }

abbrev pub instance_of : PortRef → List (Str × UseInfo) → Resolved UseInfo
instance_of ref uses = elim (lookup ref.node uses) [
  | none ↦ refused (unknown_instance ref.node)
  | some info ↦ resolved info
]

-- resolveExportEndpoint
unfoldable pub resolve_export_endpoint :
    Str → List (Str × UseInfo) → PortRef → Resolved (List PortRef)
resolve_export_endpoint namespace uses ref = elim ref.entity [
  | EntityKind.node ↦ resolved (qualified namespace ref ∷ [])
  | EntityKind.use_instance ↦ instance_of ref uses >>= exported ref
]

abbrev pub resolve_input : Str → List (Str × UseInfo) → ExportInput → Resolved ExportInput
resolve_input namespace uses i = do
  targets ← map_resolved (resolve_export_endpoint namespace uses) i.to
  resolved (record { name = i.name; to = flatten targets })

-- `len(resolved) != 1` is refused.
abbrev pub one_port : ExportOutput → List PortRef → Resolved ExportOutput
one_port o (p ∷ []) = resolved (record { name = o.name; from = p })
one_port o _ = refused (not_one_port o.name)

-- resolveExport
unfoldable pub resolve_export : Str → List (Str × UseInfo) → Export → Resolved Export
resolve_export namespace uses e = do
  inputs ← map_resolved (resolve_input namespace uses) e.inputs
  outputs ←
      map_resolved (λ o. resolve_export_endpoint namespace uses o.from >>= one_port o) e.outputs
  resolved (record { inputs = inputs; outputs = outputs })

-- The zero `PortRef` with a node: a bare reference.
abbrev pub bare_ref : Str → PortRef
bare_ref n = record { entity = EntityKind.node; node = n; kind = PortKind.bare; name = [] }

-- rewriteEndpoint
unfoldable pub rewrite_endpoint :
    Str → List (Str × UseInfo) → Bool → PortRef → Resolved (List PortRef)
unfolding is_port
rewrite_endpoint namespace uses want_roots ref = elim ref.entity [
  | EntityKind.node ↦ resolved (qualified namespace ref ∷ [])
  | EntityKind.use_instance ↦ instance_of ref uses >>= λ info.
      if not (is_port ref)
      then resolved (map bare_ref (if want_roots then info.roots else info.sinks))
      else exported ref info
]

-- Every pair, in the order of the two nested loops.
unfoldable pub product : List PortRef → List PortRef → List Edge
product [] tos = []
product (f ∷ fs) tos = map (λ t. record { from = f; to = t }) tos ++ product fs tos

-- A data edge may fan out on one side only.
unfoldable pub pairs_of : Edge → List PortRef → List PortRef → Resolved (List Edge)
unfolding is_data_edge
pairs_of e froms tos =
    if is_data_edge e && ltb 1 (length froms) && ltb 1 (length tos)
    then refused both_sides
    else resolved (product froms tos)

-- rewriteEdge
unfoldable pub rewrite_edge : Str → List (Str × UseInfo) → Edge → Resolved (List Edge)
rewrite_edge namespace uses e = do
  froms ← rewrite_endpoint namespace uses false e.from
  tos ← rewrite_endpoint namespace uses true e.to
  pairs_of e froms tos

-- The nodes that nothing in the group precedes, and those that nothing in it follows.
unfoldable pub roots : Graph → List Str
roots g = sort (keep (λ n. is_nil (g.ins n)) g.nodes)

unfoldable pub sinks : Graph → List Str
sinks g = sort (keep (λ n. is_nil (g.outs n)) g.nodes)

-- What assigning the entries to a map one by one leaves.
unfoldable pub assign_all : {A : Type 0} → List (Str × A) → List (Str × A) → List (Str × A)
assign_all [] m = m
assign_all (e ∷ es) m = assign_all es (insert e.0 e.1 m)

module _ (node_at : Str → Node) (internal : Graph) where
  -- One target of an exported input: whether its variable is required.
  unfoldable pub target_required : Str → PortRef → Resolved Bool
  target_required name ref =
      if not (contains ref.node internal.nodes)
      then refused (no_internal_node name ref)
      else elim (lookup ref.name (node_at ref.node).schema.variables) [
        | none ↦ refused (no_internal_port name ref)
        | some v ↦ resolved v.required
      ]

  unfoldable pub synthesize_input : ExportInput → Resolved (Str × Variable)
  synthesize_input i =
      if is_nil i.to
      then refused (no_targets i.name)
      else map_resolved (target_required i.name) i.to >>= λ required.
          resolved (i.name, record { sensitive = false; required = any (λ r. r) required })

  unfoldable pub synthesize_output : ExportOutput → Resolved Str
  synthesize_output o =
      if not (contains o.from.node internal.nodes)
      then refused (no_internal_node o.name o.from)
      else if not (has_output (node_at o.from.node).schema o.from.name)
      then refused (no_internal_port o.name o.from)
      else resolved o.name

  -- synthesizeSchema
  unfoldable pub synthesize_schema : Export → Resolved Schema
  synthesize_schema e = do
    variables ← map_resolved synthesize_input e.inputs
    outputs ← map_resolved synthesize_output e.outputs
    resolved (record { variables = assign_all variables []; outputs = outputs })

  -- resolveUse from the export on, apart from the vars of the `use` block: what the instance
  -- offers to the scope that uses it.
  unfoldable pub use_info : Str → List (Str × UseInfo) → Export → Resolved UseInfo
  use_info namespace uses e = do
    export ← resolve_export namespace uses e
    schema ← synthesize_schema export
    resolved (record { export = export; roots = roots internal; sinks = sinks internal })

-- The end of build: the scope's own edges, rewritten and added.
unfoldable pub expand_edges : Str → List (Str × UseInfo) → List Edge → Graph → Resolved Graph
expand_edges namespace uses es g = do
  rewritten ← map_resolved (rewrite_edge namespace uses) es
  resolved (add_edges g (flatten rewritten))
