-- ===== src/Tests/Graphs.antt =====
-- Graphs of three and four nodes, their layers, and the theorems about the order at them.
use terragraph.Prelude.{
  ◌≡◌, ◌≤◌, ◌↔◌, refl, arith, Str, bytes, List, [], ◌∷◌, count, contains, sort, str_eq, str_ltb,
  str_eq_iff, All, flatten,
}
use terragraph.Blueprint.{Edge, EntityKind, PortKind, PortRef}
use terragraph.Graph.{Graph, IsGraph, add_edges, unwired, wired-IsGraph, JoinsNodes}
use terragraph.Graph.Topo.{
  levels, topo_sort, layers, in_degrees, ready, place_level, place, delete, lower_each, lower, ok,
  cyclic,
}
use terragraph.Graph.Topo.Order.{IsSchedule, levels-IsSchedule}
use terragraph.Graph.Topo.Cycles.{Walk, levels_cyclic_iff}
use terragraph.Graph.Topo.Sequence.{IsOrdered, topo_sort-IsOrdered}
use terragraph.Graph.Topo.Stable.{relist, levels-relist}

abbrev pub vpc : Str
vpc = bytes "vpc"

abbrev pub eks : Str
eks = bytes "eks"

abbrev pub db : Str
db = bytes "db"

abbrev pub app : Str
app = bytes "app"

abbrev port : Str → PortKind → Str → PortRef
port node kind name = record { entity = EntityKind.node; node = node; kind = kind; name = name }

-- A data edge from an output to an input.
abbrev pub wire : Str → Str → Str → Edge
wire from to name = record {
  from = port from PortKind.output name;
  to = port to PortKind.input name;
}

-- An ordering edge.
abbrev pub after : Str → Str → Edge
after from to = record { from = port from PortKind.bare []; to = port to PortKind.bare [] }

abbrev pub sample_nodes : List Str
sample_nodes = vpc ∷ app ∷ eks ∷ db ∷ []

abbrev pub sample_edges : List Edge
sample_edges =
    wire vpc eks (bytes "vpc_id")
    ∷ wire vpc db (bytes "vpc_id")
    ∷ after eks app
    ∷ wire db app (bytes "url")
    ∷ []

unfoldable pub sample : Graph
sample = add_edges (unwired sample_nodes) sample_edges

abbrev ring : Graph
ring = add_edges (unwired (vpc ∷ eks ∷ [])) (after vpc eks ∷ after eks vpc ∷ [])

program : Unit {0}
unfolding sample add_edges unwired levels layers in_degrees ready place_level place delete
    lower_each lower sort str_eq str_ltb contains count topo_sort flatten
program = tt

pub once : (a : Str) → count a sample_nodes ≤ 1
unfolding program
once a = ground (arith, str_eq_iff vpc a, str_eq_iff app a, str_eq_iff eks a, str_eq_iff db a)

pub sample_joins : All (JoinsNodes sample_nodes) sample_edges
unfolding program
sample_joins = ((refl, refl), ((refl, refl), ((refl, refl), ((refl, refl), tt))))

pub sample-IsGraph : IsGraph sample
unfolding sample
sample-IsGraph = wired-IsGraph sample_nodes sample_edges once sample_joins

abbrev layered : List (List Str)
layered = (vpc ∷ []) ∷ (db ∷ eks ∷ []) ∷ (app ∷ []) ∷ []

levels-sample : levels sample ≡ ok layered
unfolding program
levels-sample = refl

levels-ring : levels ring ≡ cyclic
unfolding program
levels-ring = refl

ring-IsGraph : IsGraph ring
unfolding program
ring-IsGraph =
    wired-IsGraph (vpc ∷ eks ∷ []) (after vpc eks ∷ after eks vpc ∷ [])
      (λ a. ground (arith, str_eq_iff vpc a, str_eq_iff eks a)) ((refl, refl), ((refl, refl), tt))

levels-IsSchedule_example : IsSchedule sample layered
levels-IsSchedule_example = levels-IsSchedule sample layered sample-IsGraph levels-sample

levels_cyclic_iff_example : (levels ring ≡ cyclic) ↔ ((n : Str) × Walk ring n n)
levels_cyclic_iff_example = levels_cyclic_iff ring ring-IsGraph

-- A walk ends in a later layer than it begins in, so no walk of the sample comes back.
sample_acyclic : (n : Str) → ¬ Walk sample n n
sample_acyclic n w =
    let loops = (levels_cyclic_iff sample sample-IsGraph).1 (n, w) in cc levels-sample

abbrev shuffled : List Str
shuffled = db ∷ eks ∷ app ∷ vpc ∷ []

shuffled_same : (a : Str) → count a shuffled ≡ count a sample.nodes
unfolding program
shuffled_same a =
    ground (arith, str_eq_iff vpc a, str_eq_iff app a, str_eq_iff eks a, str_eq_iff db a)

levels-relist_example : levels (relist sample shuffled) ≡ levels sample
levels-relist_example = levels-relist sample shuffled sample-IsGraph shuffled_same

abbrev flat : List Str
flat = vpc ∷ db ∷ eks ∷ app ∷ []

topo_sort-sample : topo_sort sample ≡ ok flat
unfolding program
topo_sort-sample = refl

topo_sort-IsOrdered_example :
    IsOrdered sample [] flat × ((a : Str) → count a flat ≡ count a sample.nodes)
topo_sort-IsOrdered_example = topo_sort-IsOrdered sample flat sample-IsGraph topo_sort-sample
