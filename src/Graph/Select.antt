-- ===== src/Graph/Select.antt =====
-- internal/graph/selection.go: which nodes a run covers. A nil slice is `none`. Error texts are
-- not modelled: an error is a constructor with the names that its text holds.
pub mod Spread
pub mod Membership
pub mod Settle
pub mod Result
pub mod Entries
pub mod Record
pub mod Layers
use terragraph.Prelude.{
  ℕ, zero, suc, ◌+◌, ◌≡◌, refl, Bool, true, false, not, ◌&&◌, ◌||◌, Str, str_eq, bytes, has_prefix,
  List, [], ◌∷◌, ◌++◌, map, reverse, Option, none, some, sort, compact, length, keep, any, all,
  is_nil, if◌then◌else◌, ◌==◌, contains, bool_eq, strs_ltb, sort_by,
}
use terragraph.Blueprint.{Edge, is_data_edge}
use terragraph.Graph.{Graph}
use terragraph.Graph.Topo
use terragraph.Graph.Topo.{Outcome, levels}

pub record SelectionNode : Type 0 where
  pub node : Str
  pub reason : Str
  pub via : Option (List Str)

pub record Selection : Type 0 where
  pub schema_version : ℕ
  pub mode : Str
  pub requested : List Str
  pub nodes : Option (List SelectionNode)
  pub boundary_edges : Option (List Edge)

pub data SelectError : Type 0 where
  nothing_requested empty_request : SelectError
  group_request : (name example : Str) → SelectError
  unknown_node : (name : Str) → SelectError

pub data SelectResult : Type 0 where
  -- the default: the whole graph
  whole : SelectResult
  selected : Selection → SelectResult
  refused : SelectError → SelectResult

-- The checks on one requested name.
unfoldable pub check_seed : Graph → Str → Option SelectError
check_seed g name =
    let examples = sort (keep (λ leaf. has_prefix leaf (name ++ bytes ".")) g.nodes) in
    if is_nil name
    then some SelectError.empty_request
    else if contains name g.nodes
    then none
    else elim examples [
      | [] ↦ some (SelectError.unknown_node name)
      | leaf ∷ _ ↦ some (SelectError.group_request name leaf)
    ]

-- The loop over the seeds stops at the first refusal.
unfoldable pub check_seeds : Graph → List Str → Option SelectError
check_seeds g [] = none
check_seeds g (name ∷ seeds) = elim (check_seed g name) [
  | none ↦ check_seeds g seeds
  | some e ↦ some e
]

-- `selected` and the part of `queue` that is still to be read.
pub record Search : Type 0 where
  pub marked : List Str
  pub pending : List Str

-- The body of the loop over g.Out[queue[i]].
unfoldable pub mark : Search → Str → Search
mark s name =
    if contains name s.marked
    then s
    else record { marked = s.marked ++ name ∷ []; pending = s.pending ++ name ∷ [] }

unfoldable pub offer : Search → List Str → Search
offer s [] = s
offer s (name ∷ next) = offer (mark s name) next

-- The loop over the queue. `none` means that the fuel ran out.
unfoldable pub spread : Graph → ℕ → Search → Option (List Str)
spread g zero s = none
spread g (suc fuel) s = elim s.pending [
  | [] ↦ some s.marked
  | u ∷ rest ↦ spread g fuel (offer (record { marked = s.marked; pending = rest }) (g.outs u))
]

-- The map `selected`: the seeds, and what lies behind them. One round for each node is enough,
-- and one more to see that the queue is empty.
unfoldable pub closure : Graph → List Str → Bool → Option (List Str)
closure g seeds downstream =
    if downstream
    then spread g (suc (length g.nodes)) (record { marked = seeds; pending = seeds })
    else some seeds

unfoldable pub describe : Graph → List Str → List Str → Str → SelectionNode
describe g seeds members name =
    if contains name seeds
    then record { node = name; reason = bytes "requested"; via = some [] }
    else record {
      node = name;
      reason = bytes "downstream";
      via = some (compact (sort (keep (λ parent. contains parent members) (g.ins name))));
    }

unfoldable pub edge_kind : Edge → Str
edge_kind e = if is_data_edge e then bytes "data" else bytes "ordering"

abbrev edge_key : Edge → List Str
edge_key e = e.from.node ∷ e.from.name ∷ e.to.node ∷ e.to.name ∷ edge_kind e ∷ []

-- compareBoundaryEdges(a, b) < 0
unfoldable pub edge_ltb : Edge → Edge → Bool
edge_ltb a b = strs_ltb (edge_key a) (edge_key b)

-- Whether exactly one end of the edge is a member.
unfoldable pub crosses : List Str → Edge → Bool
crosses members e = not (bool_eq (contains e.from.node members) (contains e.to.node members))

unfoldable pub boundary : Graph → List Str → List Edge
boundary g members = sort_by edge_ltb (keep (crosses members) g.edges)

unfoldable pub build_selection : Graph → List Str → Bool → List Str → Selection
build_selection g seeds downstream members = record {
  schema_version = 1;
  mode = if downstream then bytes "downstream" else bytes "exact";
  requested = seeds;
  nodes = some (map (describe g seeds members) (sort members));
  boundary_edges = some (boundary g members);
}

unfoldable pub select_seeds : Graph → List Str → Bool → Option SelectResult
select_seeds g seeds downstream = elim (check_seeds g seeds) [
  | some e ↦ some (refused e)
  | none ↦ elim (closure g seeds downstream) [
    | none ↦ none
    | some members ↦ some (selected (build_selection g seeds downstream members))
  ]
]

-- `none` means that the fuel ran out.
unfoldable pub select : Graph → Option (List Str) → Bool → Option SelectResult
select g none false = some whole
select g none true = some (refused SelectError.nothing_requested)
select g (some []) downstream = some (refused SelectError.nothing_requested)
select g (some (r ∷ rest)) downstream = select_seeds g (compact (sort (r ∷ rest))) downstream

-- The slice of a value that may be nil.
abbrev pub slice {ℓ} : {A : Type ℓ} → Option (List A) → List A
slice none = []
slice (some xs) = xs

-- (*Selection).Names
unfoldable pub names : Selection → List Str
names s = map (λ n. n.node) (slice s.nodes)

pub data Scheduled : Type 0 where
  scheduled : List (List Str) → Scheduled
  removed : Str → Scheduled
  cycle no_fuel : Scheduled

-- The first name that is no node of the graph.
unfoldable pub first_unknown : Graph → List Str → Option Str
first_unknown g [] = none
first_unknown g (name ∷ rest) = if contains name g.nodes then first_unknown g rest else some name

unfoldable pub restrict : List Str → List (List Str) → List (List Str)
restrict members [] = []
restrict members (level ∷ rest) =
    let kept = keep (λ name. contains name members) level in
    let tail = restrict members rest in if is_nil kept then tail else kept ∷ tail

abbrev pub turn : Bool → List (List Str) → List (List Str)
turn back ls = if back then reverse ls else ls

unfoldable pub selected_levels : Graph → Option (List Str) → Bool → Scheduled
selected_levels g members back = elim (levels g) [
  | Topo.cyclic ↦ cycle
  | Topo.out_of_fuel ↦ no_fuel
  | Topo.ok ls ↦ elim members [
    | none ↦ scheduled (turn back ls)
    | some chosen ↦ elim (first_unknown g chosen) [
      | some name ↦ removed name
      | none ↦ scheduled (turn back (restrict chosen ls))
    ]
  ]
]
