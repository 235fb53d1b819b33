-- ===== src/Tests/Builds.antt =====
-- A blueprint that instantiates a group twice, and one whose group uses itself.
use terragraph.Prelude.{
  ◌≡◌, refl, true, false, Bool-cases, inl, inr, subst, Str, bytes, List, [], ◌∷◌, Option, some,
  none, if◌then◌else◌, str_eq, contains, flatten, insert, lookup, map, All, sort, str_ltb,
  has_prefix,
}
use terragraph.Blueprint.{EntityKind, PortKind, PortRef, is_port, is_data_edge, is_remote}
use terragraph.Engine.Approve.{unset, safe}
use terragraph.Graph.{IsGraph, JoinsNodes, add_edges, unwired, qualify_name, add_edge}
use terragraph.Graph.Group.{
  Resolved, resolved, refused, circular_use, map_resolved, assign_all, use_info, expand_edges,
  rewrite_edge, rewrite_endpoint, product, pairs_of, roots, sinks, resolve_export,
  resolve_export_endpoint, synthesize_schema, synthesize_input, target_required, synthesize_output,
  exported, input_ports, output_port,
}
use terragraph.Graph.Group.Vars.{apply_use_vars, by_name, set_inputs, set_targets, set_var, slot}
use terragraph.Graph.Source.{SourceNode, merge_env, group_key, push, leaf, source_nodes}
use terragraph.Graph.Source.Ends.{HasEnded}
use terragraph.Graph.Validate.{
  Problem, show_ref, unless, check_each, entries, data_edges, check_edge, check_var, check_input,
  var_entries, input_entries, wiring, variable_entries, unwired_inputs, wiring_problems,
}
use terragraph.Graph.Declared.{
  NodeDecl, UseDecl, GroupDecl, validate_endpoint_known, validate_edges, validate_export,
}
use terragraph.Graph.Build.Settings.{
  Site, Inspected, runtime_for, merge_backend_address, address_key, fill_backend_address,
  fill_local_backend_path, module_dir, inside_use, resolve_node,
}
use terragraph.Graph.Build.{
  Built, nothing_built, build_root, build, build_scope, resolve_use, validated, place_nodes,
  splice_all, splice, put_keys, put_key, place_node,
}
use terragraph.Graph.Build.Expanded.{HasKnownRefs}
use terragraph.Graph.Build.Sound.{build_root-IsGraph}
use terragraph.Graph.Build.Listed.{source_load, source_scope}
use terragraph.Graph.Build.Names.{build_root-source_nodes}
use terragraph.Graph.Build.Ends.{build_root-ends}

abbrev lib : Str
lib = bytes "./lib"

abbrev base : Str
base = bytes "base"

abbrev loop : Str
loop = bytes "loop"

abbrev node_ref : Str → PortRef
node_ref n = record { entity = EntityKind.node; node = n; kind = PortKind.bare; name = [] }

abbrev instance_ref : Str → PortRef
instance_ref n = record {
  entity = EntityKind.use_instance;
  node = n;
  kind = PortKind.bare;
  name = [];
}

abbrev pub node_of : Str → NodeDecl Str
node_of n = record {
  leaf = record { name = n; source = bytes "./mod"; backend_config = [] };
  backend_address = none;
  vars = [];
  inputs = [];
  runtime = [];
  env = [];
  approve = unset;
}

abbrev use_of : Str → Str → UseDecl Str
use_of group name = record {
  instance_use = record {
    instance_name = name;
    group_name = group;
    source = lib;
    backend_config = [];
  };
  backend_address = some ((bytes "s3_key_prefix", bytes "env/") ∷ []);
  vars = (bytes "cidr", bytes "10.0.0.0/16") ∷ [];
  runtime = [];
  env = [];
  approve = safe;
}

-- Two nodes, one after the other, and an input of the first one.
abbrev pub base_def : GroupDecl Str
base_def = record {
  nodes = node_of (bytes "vpc") ∷ node_of (bytes "dns") ∷ [];
  edges = record { from = node_ref (bytes "vpc"); to = node_ref (bytes "dns") } ∷ [];
  uses = [];
  export = record {
    inputs =
        record {
          name = bytes "cidr";
          to =
              record {
                entity = EntityKind.node;
                node = bytes "vpc";
                kind = PortKind.input;
                name = bytes "cidr";
              }
              ∷ [];
        }
        ∷ [];
    outputs = [];
  };
  runtimes = [];
  vendor = bytes "vendor";
}

abbrev using : Str → GroupDecl Str
using group = record {
  nodes = node_of (bytes "app") ∷ [];
  edges =
      record { from = instance_ref (bytes "a"); to = instance_ref (bytes "b") }
      ∷ record { from = instance_ref (bytes "b"); to = node_ref (bytes "app") }
      ∷ [];
  uses = use_of group (bytes "a") ∷ use_of group (bytes "b") ∷ [];
  export = record { inputs = []; outputs = [] };
  runtimes = [];
  vendor = bytes "vendor";
}

abbrev load : Str → Str → Option (GroupDecl Str)
load dir name =
    if str_eq name base then some base_def else if str_eq name loop then some (using loop) else none

abbrev pub inspected : Inspected
inspected = record {
  schema = record {
    variables = (bytes "cidr", record { sensitive = false; required = true }) ∷ [];
    outputs = [];
  };
  backend = bytes "s3";
  backend_config = [];
  backend_attributes = some [];
}

abbrev pub site : Site
site = record {
  join = λ dir source. source;
  inspect = λ dir binary. some inspected;
  remote_dir = λ dir vendor name local. none;
  state_path = λ name. name;
  fallback = bytes "terraform";
}

abbrev nothing_else : Built Str → List Problem
nothing_else b = []

abbrev outcome : Resolved (Built Str)
outcome = build_root load site nothing_else 3 [] (using base)

abbrev built_of : Resolved (Built Str) → Built Str
built_of (resolved b) = b
built_of (refused r) = nothing_built

unfoldable pub program : Unit {0}
unfolding add_edge add_edges unwired qualify_name map_resolved output_port input_ports exported
    resolve_export_endpoint resolve_export rewrite_endpoint product pairs_of rewrite_edge roots
    sinks assign_all target_required synthesize_input synthesize_output synthesize_schema use_info
    expand_edges by_name set_var set_targets set_inputs apply_use_vars slot merge_env push leaf
    source_nodes put_key put_keys place_node place_nodes splice splice_all validated resolve_use
    build_scope build build_root runtime_for merge_backend_address address_key fill_backend_address
    fill_local_backend_path module_dir inside_use resolve_node show_ref unless check_each entries
    data_edges check_edge check_var check_input var_entries input_entries wiring variable_entries
    unwired_inputs wiring_problems is_port is_data_edge is_remote validate_endpoint_known
    validate_edges validate_export sort insert lookup contains str_eq has_prefix flatten str_ltb
program = tt

outcome-resolved : outcome ≡ resolved (built_of outcome)
unfolding program
outcome-resolved = refl

nodes_listed :
    (built_of outcome).graph.nodes
    ≡ bytes "app" ∷ bytes "a.vpc" ∷ bytes "a.dns" ∷ bytes "b.vpc" ∷ bytes "b.dns" ∷ []
unfolding program
nodes_listed = refl

-- The key of a state is made from the name of the leaf, under the prefix of its instance.
keys_made :
    map (λ n. n.1.leaf.backend_config) (built_of outcome).nodes
    ≡ []
      ∷ ((bytes "key", bytes "env/a.vpc/terraform.tfstate") ∷ [])
      ∷ ((bytes "key", bytes "env/a.dns/terraform.tfstate") ∷ [])
      ∷ ((bytes "key", bytes "env/b.vpc/terraform.tfstate") ∷ [])
      ∷ ((bytes "key", bytes "env/b.dns/terraform.tfstate") ∷ [])
      ∷ []
unfolding program
keys_made = refl

loop-refused :
    build_root load site nothing_else 3 [] (using loop)
    ≡ refused (circular_use (group_key lib loop))
unfolding program
loop-refused = refl

-- What holds of the two groups holds of every group that is found.
by_load :
    (P : GroupDecl Str → Type 0) (dir name : Str) (def : GroupDecl Str)
    → P base_def
    → P (using loop)
    → load dir name ≡ some def
    → P def
by_load P dir name def one two e = elim (Bool-cases (str_eq name base)) [
  | inl t ↦ let same : base_def ≡ def = (let f = rw t at e in cc) in subst P same one
  | inr n ↦ elim (Bool-cases (str_eq name loop)) [
    | inl t ↦ let same : using loop ≡ def = (let f = rw (n, t) at e in cc) in subst P same two
    | inr m ↦ absurd (let f = rw (n, m) at e in cc)
  ]
]

base-known : HasKnownRefs base_def
unfolding program
base-known = (refl, refl)

loop-known : HasKnownRefs (using loop)
unfolding program
loop-known = (refl, refl)

using-known : HasKnownRefs (using base)
unfolding program
using-known = (refl, refl)

build_root-IsGraph_example :
    IsGraph (built_of outcome).graph
    × All (JoinsNodes (built_of outcome).graph.nodes) (built_of outcome).graph.edges
build_root-IsGraph_example =
    build_root-IsGraph load site nothing_else
      (λ dir name def e. by_load HasKnownRefs dir name def base-known loop-known e) 3 []
      (using base) (built_of outcome) using-known outcome-resolved

build_root-source_nodes_example :
    (leaves : List SourceNode) × (source_nodes
        (source_load load)
        site.join
        3
        []
        []
        []
        []
        (source_scope (using base))
      ≡ resolved leaves)
    × ((n : Str)
        → contains n (built_of outcome).graph.nodes ≡ contains n (map (λ x. x.name) leaves))
build_root-source_nodes_example =
    build_root-source_nodes load site nothing_else 3 [] (using base) (built_of outcome)
      outcome-resolved

abbrev keys : List Str
keys = group_key lib base ∷ group_key lib loop ∷ []

abbrev Known : GroupDecl Str → Type 0
Known def =
    All (λ u. contains (group_key u.instance_use.source u.instance_use.group_name) keys ≡ true)
      def.uses

loop-UsesKnown : Known (using loop)
unfolding program
loop-UsesKnown = (refl, (refl, tt))

build_root-ends_example : HasEnded (build_root load site nothing_else 3 [] (using loop))
build_root-ends_example =
    build_root-ends load site nothing_else keys
      (λ dir name def e. by_load Known dir name def tt loop-UsesKnown e) [] (using loop)
      loop-UsesKnown
