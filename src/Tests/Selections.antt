-- ===== src/Tests/Selections.antt =====
-- Selections on the sample graph.
use terragraph.Prelude.{
  ◌≡◌, ◌↔◌, inl, inr, refl, arith, true, false, Str, bytes, List, [], ◌∷◌, count, contains, sort,
  str_eq, str_ltb, str_eq_iff, All, flatten, some, none, compact, IsIncreasing, has_prefix,
  strs_ltb, sort_by,
}
use terragraph.Blueprint.{is_data_edge}
use terragraph.Graph.{add_edges, unwired}
use terragraph.Graph.Topo.{
  levels, layers, in_degrees, ready, place_level, place, delete, lower_each, lower,
}
use terragraph.Graph.Select.{
  select, select_seeds, check_seeds, check_seed, closure, spread, offer, mark, describe,
  build_selection, boundary, crosses, edge_ltb, edge_kind, names, selected_levels, first_unknown,
  restrict, turn, scheduled, selected, refused, SelectError, Selection,
}
use terragraph.Graph.Select.Membership.{
  validate_membership, settle, sweep, visit, entries_ok, header_ok, members_ok, seeds_ok, nodes_ok,
  via_ok, boundary_edge_ok,
}
use terragraph.Graph.Select.Spread.{Reach}
use terragraph.Graph.Select.Result.{select_members}
use terragraph.Graph.Select.Record.{select_validates}
use terragraph.Graph.Select.Entries.{IsWired}
use terragraph.Graph.Select.Layers.{selected_levels-IsPart, IsPart}
use terragraph.Tests.Graphs.{vpc, eks, db, app, wire, sample, sample-IsGraph}

program : Unit {0}
unfolding sample add_edges unwired levels layers in_degrees ready place_level place delete
    lower_each lower sort str_eq str_ltb contains count flatten compact has_prefix select
    select_seeds check_seeds check_seed closure spread offer mark describe build_selection boundary
    crosses edge_ltb edge_kind names selected_levels first_unknown restrict validate_membership
    settle sweep visit entries_ok header_ok members_ok seeds_ok nodes_ok via_ok boundary_edge_ok
    is_data_edge strs_ltb sort_by
program = tt

abbrev chosen : Selection
chosen = record {
  schema_version = 1;
  mode = bytes "downstream";
  requested = eks ∷ [];
  nodes = some (
      record { node = app; reason = bytes "downstream"; via = some (eks ∷ []) }
      ∷ record { node = eks; reason = bytes "requested"; via = some [] }
      ∷ []);
  boundary_edges = some (wire db app (bytes "url") ∷ wire vpc eks (bytes "vpc_id") ∷ []);
}

select-eks : select sample (some (eks ∷ eks ∷ [])) true ≡ some (selected chosen)
unfolding program
select-eks = refl

select-unknown :
    (select sample (some (bytes "web" ∷ [])) false
      ≡ some (refused (SelectError.unknown_node (bytes "web"))))
    × (select sample none true ≡ some (refused SelectError.nothing_requested))
unfolding program
select-unknown = (refl, refl)

select_members_example :
    IsIncreasing (names chosen)
    × (true ≡ true
        → (n : Str) → (contains n (names chosen) ≡ true) ↔ Reach sample (eks ∷ eks ∷ []) n)
    × (true ≡ false → (n : Str) → contains n (names chosen) ≡ contains n (eks ∷ eks ∷ []))
select_members_example =
    select_members sample (eks ∷ eks ∷ []) true chosen sample-IsGraph select-eks

loopless : (n : Str) → contains n (sample.ins n) ≡ false
unfolding program
loopless n = ground (arith, str_eq_iff vpc n, str_eq_iff app n, str_eq_iff eks n, str_eq_iff db n)

named_nodes : contains [] sample.nodes ≡ false
unfolding program
named_nodes = refl

wired : All IsWired sample.edges
unfolding program
wired = (
  (refl, refl, inl (refl, refl, refl, refl)),
  (
    (refl, refl, inl (refl, refl, refl, refl)),
    ((refl, refl, inr (refl, refl, refl, refl)), ((refl, refl, inl (refl, refl, refl, refl)), tt)),
  ),
)

select_validates_example : validate_membership chosen (names chosen) ≡ some true
select_validates_example =
    select_validates sample (eks ∷ eks ∷ []) true chosen sample-IsGraph loopless named_nodes wired
      select-eks

-- A record whose names were changed is refused.
validate-chosen : validate_membership chosen (app ∷ db ∷ []) ≡ some false
unfolding program
validate-chosen = refl

selected_levels-sample :
    selected_levels sample (some (app ∷ vpc ∷ [])) true ≡ scheduled ((app ∷ []) ∷ (vpc ∷ []) ∷ [])
unfolding program
selected_levels-sample = refl

selected_levels-IsPart_example :
    (ls : List (List Str)) × (((app ∷ []) ∷ (vpc ∷ []) ∷ []) ≡ turn true ls)
    × IsPart sample (app ∷ vpc ∷ []) ls
selected_levels-IsPart_example =
    selected_levels-IsPart sample (app ∷ vpc ∷ []) true ((app ∷ []) ∷ (vpc ∷ []) ∷ [])
      sample-IsGraph selected_levels-sample
