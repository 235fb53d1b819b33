-- ===== src/Tests/Validations.antt =====
-- A network and a cluster with their module schemas: what `Validate` finds in their supply.
use terragraph.Prelude.{
  ◌≡◌, ◌⊎◌, ◌↔◌, refl, true, false, Str, bytes, List, [], ◌∷◌, map, count, contains, sort, str_eq,
  str_ltb, lookup, if◌then◌else◌, is_nil, some,
}
use terragraph.Blueprint.{Edge, is_data_edge, is_port}
use terragraph.Module.{Variable}
use terragraph.Graph.{Graph, add_edges, unwired}
use terragraph.Graph.Validate.{
  Node, Problem, wiring, wiring_problems, check_each, check_edge, check_var, check_input,
  data_edges, var_entries, input_entries, entries, unless, show_ref, port_key, input_subject,
}
use terragraph.Graph.Validate.Suppliers.{IsSupplied, supplied, wiring-nil_iff}
use terragraph.Graph.Validate.Required.{wiring_problems-required, IsReported}
use terragraph.Graph.Validate.Backends.{
  Config, config_eq, join_part, partitions, shared, conflicts, all_apart, conflicts-apart,
}
use terragraph.Tests.Graphs.{vpc, eks, wire}

abbrev plain : Variable
plain = record { sensitive = false; required = true }

abbrev network : Node
network = record {
  schema = record { variables = (bytes "cidr", plain) ∷ []; outputs = bytes "vpc_id" ∷ [] };
  vars = bytes "cidr" ∷ [];
  inputs = [];
}

abbrev cluster : Node
cluster = record {
  schema = record {
    variables =
        (bytes "vpc_id", plain)
        ∷ (bytes "region", plain)
        ∷ (bytes "token", record { sensitive = true; required = true })
        ∷ [];
    outputs = [];
  };
  vars = [];
  inputs = bytes "token" ∷ [];
}

-- The map of nodes, with a last node for every other name.
abbrev modules : Str → Node
modules name = if str_eq name vpc then network else cluster

abbrev pair : List Edge → Graph
pair = add_edges (unwired (vpc ∷ eks ∷ []))

abbrev good : Graph
good = pair (wire vpc eks (bytes "vpc_id") ∷ [])

abbrev twice : Graph
twice = pair (wire vpc eks (bytes "vpc_id") ∷ wire vpc eks (bytes "vpc_id") ∷ [])

good-clean : (wiring modules good).problems ≡ []
unfolding wiring check_each check_edge check_var check_input data_edges var_entries input_entries
    entries unless show_ref add_edges unwired is_data_edge is_port str_eq contains sort lookup
    str_ltb
good-clean = refl

abbrev codes : List Problem → List Str
codes = map (λ p. p.code)

twice-codes : codes (wiring modules twice).problems ≡ bytes "input_conflict" ∷ []
unfolding wiring check_each check_edge check_var check_input data_edges var_entries input_entries
    entries unless show_ref add_edges unwired is_data_edge is_port str_eq contains sort lookup
    str_ltb
twice-codes = refl

wiring-nil_iff_example : ((wiring modules good).problems ≡ []) ↔ IsSupplied modules good
wiring-nil_iff_example = wiring-nil_iff modules good

eks_here : contains eks good.nodes ≡ true
unfolding add_edges unwired str_eq contains
eks_here = refl

region_here : lookup (bytes "region") (modules eks).schema.variables ≡ some plain
unfolding str_eq lookup
region_here = refl

wiring_problems-required_example :
    (count (port_key (eks, bytes "region")) (supplied modules good) ≡ 1)
    ⊎ IsReported (input_subject (eks, bytes "region")) (wiring_problems modules good)
wiring_problems-required_example =
    wiring_problems-required modules good eks (bytes "region") plain good-clean eks_here region_here
      refl

-- Two environments of one module with their own keys, and a third that repeats the first.
abbrev settings : Str → Config
settings name =
    if str_eq name (bytes "prod")
    then (bytes "key", bytes "prod.tfstate") ∷ []
    else (bytes "key", bytes "dev.tfstate") ∷ []

abbrev environments : List Str
environments = bytes "copy" ∷ bytes "dev" ∷ bytes "prod" ∷ []

copied :
    conflicts settings environments
    ≡ ((bytes "key", bytes "dev.tfstate") ∷ [], bytes "copy" ∷ bytes "dev" ∷ []) ∷ []
unfolding conflicts shared partitions join_part config_eq str_eq
copied = refl

conflicts-apart_example : is_nil (conflicts settings environments) ≡ all_apart settings environments
conflicts-apart_example = conflicts-apart settings environments
