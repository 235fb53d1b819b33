-- ===== src/Graph/Declared.antt =====
-- internal/blueprint/types.go: what a blueprint or a group declares, as far as Build reads it, and
-- the checks of internal/blueprint/parse.go on the references in it. A value is left open;
-- credentials and the versions of runtimes are left out.
use terragraph.Prelude.{Bool, ◌&&◌, Str, List, Option, all, contains, map, true, false}
use terragraph.Blueprint.{Edge, EntityKind, PortKind, PortRef}
use terragraph.Engine.Approve.{Approve}
use terragraph.Graph.Group.{Export, ExportOutput}
use terragraph.Graph.Source.{SourceNode, Use}

pub record Runtime : Type 0 where
  pub name : Str
  pub binary : Str

-- blueprint.Node. The address is `none` for a nil map; the plugin inputs are read for their keys.
pub record NodeDecl (V : Type 0) : Type 0 where
  pub leaf : SourceNode
  pub backend_address : Option (List (Str × Str))
  pub vars : List (Str × V)
  pub inputs : List Str
  pub runtime : Str
  pub env : List (Str × Str)
  pub approve : Approve

-- blueprint.Use
pub record UseDecl (V : Type 0) : Type 0 where
  pub instance_use : Use
  pub backend_address : Option (List (Str × Str))
  pub vars : List (Str × V)
  pub runtime : Str
  pub env : List (Str × Str)
  pub approve : Approve

-- blueprint.Group, with the runtimes and the vendor directory that its directory declares; also
-- the blueprint itself, which exports nothing.
pub record GroupDecl (V : Type 0) : Type 0 where
  pub nodes : List (NodeDecl V)
  pub edges : List Edge
  pub uses : List (UseDecl V)
  pub export : Export
  pub runtimes : List Runtime
  pub vendor : Str

-- validateEndpointKnown, for the names of the nodes and of the instances.
unfoldable pub validate_endpoint_known : List Str → List Str → PortRef → Bool
validate_endpoint_known nodes uses ref = elim ref.entity [
  | EntityKind.node ↦ contains ref.node nodes
  | EntityKind.use_instance ↦ contains ref.node uses
]

abbrev is_input_port : PortRef → Bool
is_input_port ref = elim ref.kind [ PortKind.input ↦ true | _ ↦ false ]

abbrev is_output_port : PortRef → Bool
is_output_port ref = elim ref.kind [ PortKind.output ↦ true | _ ↦ false ]

module _ {V : Type 0} where
  abbrev pub node_names : GroupDecl V → List Str
  node_names def = map (λ n. n.leaf.name) def.nodes

  abbrev pub use_names : GroupDecl V → List Str
  use_names def = map (λ u. u.instance_use.instance_name) def.uses

  abbrev pub is_known : GroupDecl V → PortRef → Bool
  is_known def = validate_endpoint_known (node_names def) (use_names def)

  -- validateEdges, and the same loop of parseGroupBlock.
  unfoldable pub validate_edges : GroupDecl V → Bool
  validate_edges def = all (λ e. is_known def e.from && is_known def e.to) def.edges

  -- The checks on an export: of parseExportBlock on its ports, of parseGroupBlock on what they
  -- name.
  abbrev pub input_known : GroupDecl V → PortRef → Bool
  input_known def ref = is_input_port ref && is_known def ref

  abbrev pub output_known : GroupDecl V → ExportOutput → Bool
  output_known def o = is_output_port o.from && is_known def o.from

  unfoldable pub validate_export : GroupDecl V → Bool
  validate_export def =
      all (λ i. all (input_known def) i.to) def.export.inputs
      && all (output_known def) def.export.outputs
