-- ===== src/Tests/Addresses.antt =====
-- One node in two instances of a group, with generated keys, and one whose key is handed down.
use terragraph.Prelude.{
  ◌≡◌, ◌≢◌, refl, arith, inr, Str, bytes, List, [], ◌∷◌, ◌++◌, some, none, lookup, true, false,
  str_eq_iff, count,
}
use terragraph.Engine.Approve.{unset}
use terragraph.Graph.Group.{Resolved, resolved}
use terragraph.Graph.Source.{merge_env}
use terragraph.Graph.Declared.{NodeDecl}
use terragraph.Graph.Build.Settings.{Ambient, BuiltNode, resolve_node}
use terragraph.Graph.Build.Addresses.{resolve_node-kept, resolve_node-apart}
use terragraph.Tests.Builds.{node_of, base_def, inspected, site, program}

abbrev vpc : NodeDecl Str
vpc = node_of (bytes "vpc")

abbrev around : List (Str × Str) → Ambient
around settings = record {
  runtime = none;
  env = [];
  backend_config = settings;
  backend_address = some ((bytes "s3_key_prefix", bytes "env/") ∷ []);
  approve = unset;
}

abbrev shared : List (Str × Str)
shared = (bytes "key", bytes "shared") ∷ []

abbrev node_in : List (Str × Str) → Str → Resolved (BuiltNode Str)
node_in settings namespace = resolve_node site (around settings) [] namespace base_def vpc

abbrev built_node : List (Str × Str) → Str → BuiltNode Str
built_node settings namespace = record {
  leaf = record {
    name = namespace ++ bytes ".vpc";
    source = bytes "./mod";
    backend_config = settings;
  };
  dir = bytes "./mod";
  inspected = inspected;
  runtime = none;
  env = [];
  approve = unset;
  vars = [];
  inputs = [];
}

abbrev keyed : Str → List (Str × Str)
keyed k = (bytes "key", k) ∷ []

abbrev key_a : Str
key_a = bytes "env/a.vpc/terraform.tfstate"

abbrev key_b : Str
key_b = bytes "env/b.vpc/terraform.tfstate"

handed_down : node_in shared (bytes "a") ≡ resolved (built_node shared (bytes "a"))
unfolding program
handed_down = refl

first_resolved : node_in [] (bytes "a") ≡ resolved (built_node (keyed key_a) (bytes "a"))
unfolding program
first_resolved = refl

second_resolved : node_in [] (bytes "b") ≡ resolved (built_node (keyed key_b) (bytes "b"))
unfolding program
second_resolved = refl

names_differ : bytes "a.vpc" ≢ bytes "b.vpc"
unfolding program
names_differ e = let same : false ≡ true = (str_eq_iff (bytes "a.vpc") (bytes "b.vpc")).1 e in cc

nothing_written : lookup (bytes "key") (merge_env [] []) ≡ none
unfolding program
nothing_written = refl

key_here : (k : Str) → lookup (bytes "key") (keyed k) ≡ some k
unfolding program
key_here k = refl

resolve_node-kept_example :
    lookup (bytes "key") (built_node shared (bytes "a")).leaf.backend_config ≡ some (bytes "shared")
unfolding program count
resolve_node-kept_example =
    resolve_node-kept site (around shared) [] (bytes "a") base_def vpc
      (built_node shared (bytes "a")) (bytes "key") (bytes "shared") handed_down (λ j. omega arith)
      (inr (refl, refl)) refl

resolve_node-apart_example : key_a ≢ key_b
unfolding program
resolve_node-apart_example =
    resolve_node-apart site (around []) (around []) [] [] (bytes "a") (bytes "b") base_def base_def
      vpc vpc (built_node (keyed key_a) (bytes "a")) (built_node (keyed key_b) (bytes "b")) key_a
      key_b first_resolved second_resolved names_differ refl nothing_written nothing_written
      (key_here key_a) (key_here key_b)
