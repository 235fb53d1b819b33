-- ===== src/Graph/Select/Membership.antt =====
-- internal/graph/selection.go, (*Selection).ValidateMembership: the checks on a stored selection.
-- Each `return invalid()` is `false`.
use terragraph.Prelude.{
  ℕ, zero, suc, Bool, true, false, not, ◌&&◌, ◌||◌, Str, str_eq, str_ltb, bytes, List, [], ◌∷◌,
  Option, none, some, length, all, is_nil, if◌then◌else◌, ◌==◌, contains, bool_eq, is_sorted,
  is_sorted_by,
}
use terragraph.Blueprint.{Edge, PortKind, is_data_edge, is_port}
use terragraph.Graph.Select.{SelectionNode, Selection, slice, edge_ltb}

abbrev pub is_none {ℓ} : {A : Type ℓ} → Option A → Bool
is_none none = true
is_none (some _) = false

-- The header of the record.
unfoldable pub header_ok : Selection → Bool
header_ok s =
    s.schema_version == 1
    && (str_eq s.mode (bytes "exact") || str_eq s.mode (bytes "downstream"))
    && not (is_nil s.requested)
    && not (is_none s.nodes)
    && not (is_none s.boundary_edges)

-- The loop that fills `members`: distinct names, none empty.
unfoldable pub members_ok : List Str → List Str → Bool
members_ok seen [] = true
members_ok seen (name ∷ rest) =
    not (contains name seen || is_nil name) && members_ok (name ∷ seen) rest

-- The loop that fills `seeds`: members, each once.
unfoldable pub seeds_ok : List Str → List Str → List Str → Bool
seeds_ok members seen [] = true
seeds_ok members seen (name ∷ rest) =
    not (not (contains name members) || contains name seen) && seeds_ok members (name ∷ seen) rest

-- The loop over `n.Via`: members other than the node, no two neighbours equal.
unfoldable pub via_ok : List Str → Str → Option Str → List Str → Bool
via_ok members node previous [] = true
via_ok members node previous (p ∷ rest) =
    contains p members
    && not (str_eq p node)
    && elim previous [ none ↦ true | some q ↦ not (str_eq q p) ]
    && via_ok members node (some p) rest

abbrev pub seed_entry_ok : SelectionNode → Bool
seed_entry_ok n = str_eq n.reason (bytes "requested") && is_nil (slice n.via)

abbrev pub downstream_entry_ok : Str → List Str → SelectionNode → Bool
downstream_entry_ok mode members n =
    str_eq mode (bytes "downstream")
    && str_eq n.reason (bytes "downstream")
    && not (is_nil (slice n.via))
    && is_sorted (slice n.via)
    && via_ok members n.node none (slice n.via)

-- The loop over `s.Nodes`: `previous` is s.Nodes[i-1].Node.
unfoldable pub nodes_ok :
    Str → List Str → List Str → List Str → Option Str → List SelectionNode → Bool
nodes_ok mode members seeds seen previous [] = true
nodes_ok mode members seeds seen previous (n ∷ rest) =
    contains n.node members
    && not (contains n.node seen)
    && not (is_none n.via)
    && elim previous [ none ↦ true | some q ↦ str_ltb q n.node ]
    && (if contains n.node seeds then seed_entry_ok n else downstream_entry_ok mode members n)
    && nodes_ok mode members seeds (n.node ∷ seen) (some n.node) rest

-- The map `reachable` and the flag `changed`.
pub record Pass : Type 0 where
  pub reached : List Str
  pub changed : Bool

-- The loop over `n.Via`.
unfoldable pub visit : Str → List Str → Pass → Pass
visit node [] st = st
visit node (p ∷ via) st = visit node via (
    if contains p st.reached && not (contains node st.reached)
    then record { reached = node ∷ st.reached; changed = true }
    else st)

-- One pass over `s.Nodes`.
unfoldable pub sweep : List SelectionNode → Pass → Pass
sweep [] st = st
sweep (n ∷ rest) st = sweep rest (visit n.node (slice n.via) st)

-- `for changed := true; changed;`: `none` means that the fuel ran out.
unfoldable pub settle : ℕ → List SelectionNode → List Str → Option (List Str)
settle zero nodes reached = none
settle (suc fuel) nodes reached =
    let after = sweep nodes (record { reached = reached; changed = false }) in
    let rest = settle fuel nodes after.reached in if after.changed then rest else some after.reached

unfoldable pub boundary_edge_ok : List Str → Edge → Bool
boundary_edge_ok members e =
    not (is_nil e.from.node)
    && not (is_nil e.to.node)
    && not (bool_eq (contains e.from.node members) (contains e.to.node members))
    && (if is_data_edge e
        then elim e.from.kind [ PortKind.output ↦ true | _ ↦ false ]
          && elim e.to.kind [ PortKind.input ↦ true | _ ↦ false ]
          && not (is_nil e.from.name)
          && not (is_nil e.to.name)
        else not (is_port e.from) && not (is_port e.to) && is_nil e.from.name && is_nil e.to.name)

-- Every check but that the seeds reach all members.
unfoldable pub entries_ok : Selection → List Str → Bool
entries_ok s members =
    header_ok s
    && members_ok [] members
    && length (slice s.nodes) == length members
    && is_sorted s.requested
    && seeds_ok members [] s.requested
    && nodes_ok s.mode members s.requested [] none (slice s.nodes)
    && is_sorted_by edge_ltb (slice s.boundary_edges)
    && all (boundary_edge_ok members) (slice s.boundary_edges)

-- `none` means that the fuel ran out; one pass more than there are nodes is enough.
unfoldable pub validate_membership : Selection → List Str → Option Bool
validate_membership s members =
    elim (settle (suc (length (slice s.nodes))) (slice s.nodes) s.requested) [
      | none ↦ none
      | some reached ↦ some (entries_ok s members && length reached == length members)
    ]
