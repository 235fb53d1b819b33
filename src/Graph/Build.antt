-- ===== src/Graph/Build.antt =====
-- internal/graph/build.go: Build, the graph of a blueprint with the instances of its groups spliced
-- into it, scope by scope. `load` stands for loadGroupDef, which reads and parses files, and
-- `other_problems` for the checks of Validate apart from those of `wiring_problems`. The map
-- `Nodes` is split: its keys are the nodes of the graph, its values stand under the same names in
-- `nodes`. Contracts, the lock and snapshots of the root, and BuildObservation, are left out.
pub mod Settings
pub mod Splice
pub mod Expanded
pub mod Instances
pub mod Sound
pub mod Listed
pub mod Names
pub mod Ends
pub mod Addresses
use terragraph.Prelude.{
  ℕ, zero, suc, Bool, Str, List, [], ◌∷◌, ◌++◌, Option, none, some, if◌then◌else◌, map, any,
  contains, lookup, insert,
}
use terragraph.Engine.Approve.{unset}
use terragraph.Module.{Schema}
use terragraph.Graph.{Graph, add_edges, unwired, qualify_name}
use terragraph.Graph.Validate.{Node, Problem, is_error, wiring_problems}
use terragraph.Graph.Group.{
  Resolved, resolved, refused, out_of_fuel, invalid_group, no_group, UseInfo, ◌>>=◌, map_resolved,
  assign_all, use_info, expand_edges,
}
use terragraph.Graph.Group.Vars.{LeafVars, apply_use_vars}
use terragraph.Graph.Source.{push}
use terragraph.Graph.Declared.{NodeDecl, UseDecl, GroupDecl, Runtime}
use terragraph.Graph.Build.Settings.{Site, BuiltNode, Ambient, inside_use, resolve_node, or_refused}

pub record Built (V : Type 0) : Type 0 where
  pub graph : Graph
  pub nodes : List (Str × BuiltNode V)

-- What build returns: the graph, and the scope's own instances.
pub record Expansion (V : Type 0) : Type 0 where
  pub built : Built V
  pub uses : List (Str × UseInfo)

-- An instance of a scope: its name, what it offers, and its own graph.
pub record Instance (V : Type 0) : Type 0 where
  pub name : Str
  pub info : UseInfo
  pub internal : Built V

abbrev no_node : Node
no_node = record { schema = record { variables = []; outputs = [] }; vars = []; inputs = [] }

-- The keys of a map behind an assignment.
unfoldable pub put_key : List Str → Str → List Str
put_key ks k = if contains k ks then ks else ks ++ k ∷ []

unfoldable pub put_keys : List Str → List Str → List Str
unfolding put_key
put_keys ks [] = ks
put_keys ks (k ∷ rest) = put_keys (put_key ks k) rest

module _ {V : Type 0} where
  abbrev pub nothing_built : Built V
  nothing_built = record { graph = unwired []; nodes = [] }

  unfoldable pub place_node : Built V → BuiltNode V → Built V
  unfolding put_key
  place_node b n = record {
    graph = record b.graph { nodes = put_key b.graph.nodes n.leaf.name };
    nodes = insert n.leaf.name n b.nodes;
  }

  unfoldable pub place_nodes : Built V → List (BuiltNode V) → Built V
  unfolding place_node
  place_nodes b [] = b
  place_nodes b (n ∷ ns) = place_nodes (place_node b n) ns

  -- The nodes and the edges of an instance join those of the scope that uses it.
  unfoldable pub splice : Built V → Built V → Built V
  splice b internal = record {
    graph =
        add_edges (record b.graph { nodes = put_keys b.graph.nodes internal.graph.nodes })
          internal.graph.edges;
    nodes = assign_all internal.nodes b.nodes;
  }

  unfoldable pub splice_all : Built V → List (Instance V) → Built V
  splice_all b [] = b
  splice_all b (i ∷ is) = splice_all (splice b i.internal) is

  -- The nodes as Validate reads them.
  abbrev pub node_at : Built V → Str → Node
  node_at b name = elim (lookup name b.nodes) [
    | none ↦ no_node
    | some n ↦ record {
      schema = n.inspected.schema;
      vars = map (λ v. v.0) n.vars;
      inputs = n.inputs;
    }
  ]

  -- The vars of the nodes, and the nodes with other vars.
  abbrev pub leaf_vars : List (Str × BuiltNode V) → LeafVars V
  leaf_vars nodes = map (λ n. (n.0, n.1.vars)) nodes

  abbrev with_vars : LeafVars V → List (Str × BuiltNode V) → List (Str × BuiltNode V)
  with_vars filled nodes =
      map
        (λ n. (
          n.0,
          record n.1 { vars = elim (lookup n.0 filled) [ none ↦ n.1.vars | some vars ↦ vars ] },
        ))
        nodes

  abbrev pub instance_infos : List (Instance V) → List (Str × UseInfo)
  instance_infos is = assign_all (map (λ i. (i.name, i.info)) is) []

module _ {V : Type 0} (load : Str → Str → Option (GroupDecl V)) (site : Site)
    (other_problems : Built V → List Problem) where
  -- A group with an error of its own is refused.
  unfoldable pub validated : Built V → Resolved (Built V)
  validated b =
      if any is_error (wiring_problems (node_at b) b.graph ++ other_problems b)
      then refused invalid_group
      else resolved b

  -- resolveUse, around the build of the group's scope.
  unfoldable pub resolve_use :
      (List Str → Str → Str → Ambient → GroupDecl V → Resolved (Expansion V))
      → List Str
      → Str
      → Str
      → Ambient
      → List Runtime
      → UseDecl V
      → Resolved (Instance V)
  resolve_use inner stack dir namespace a runtimes u = do
    let group = u.instance_use.group_name
    let inside = site.join dir u.instance_use.source
    let prefix = qualify_name namespace u.instance_use.instance_name
    next ← push stack inside group
    def ← or_refused (load inside group) (refused (no_group inside group))
    e ← inner next inside prefix (inside_use runtimes a u) def
    b ← validated e.built
    info ← use_info (node_at b) b.graph prefix e.uses def.export
    filled ← apply_use_vars u.vars info.export.inputs (leaf_vars b.nodes)
    resolved (record {
      name = u.instance_use.instance_name;
      info = info;
      internal = record b { nodes = with_vars filled b.nodes };
    })

  -- build, around the build of the scopes inside it.
  unfoldable pub build_scope :
      (List Str → Str → Str → Ambient → GroupDecl V → Resolved (Expansion V))
      → List Str
      → Str
      → Str
      → Ambient
      → GroupDecl V
      → Resolved (Expansion V)
  build_scope inner stack dir namespace a def = do
    nodes ← map_resolved (resolve_node site a dir namespace def) def.nodes
    instances ← map_resolved (resolve_use inner stack dir namespace a def.runtimes) def.uses
    let b = splice_all (place_nodes nothing_built nodes) instances
    graph ← expand_edges namespace (instance_infos instances) def.edges b.graph
    resolved (record { built = record b { graph = graph }; uses = instance_infos instances })

  -- With at most `fuel` scopes inside one another.
  unfoldable pub build : ℕ → List Str → Str → Str → Ambient → GroupDecl V → Resolved (Expansion V)
  build zero stack dir namespace a def = refused out_of_fuel
  build (suc fuel) stack dir namespace a def = build_scope (build fuel) stack dir namespace a def

  abbrev pub no_ambient : Ambient
  no_ambient = record {
    runtime = none;
    env = [];
    backend_config = [];
    backend_address = none;
    approve = unset;
  }

  -- Build, for a blueprint in a directory.
  unfoldable pub build_root : ℕ → Str → GroupDecl V → Resolved (Built V)
  build_root fuel dir def = do e ← build fuel [] dir [] no_ambient def; resolved e.built
