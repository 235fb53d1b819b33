-- ===== src/Graph.antt =====
-- internal/graph/build.go: the graph that `Build` returns, as far as the schedulers read it.
-- `nodes` lists the keys of the map `Nodes`; `outs` and `ins` are the maps `Out` and `In`, where a
-- missing key reads as the empty list. The maps are filled by `add_edge` alone.
pub mod Topo
pub mod Select
pub mod Validate
pub mod Group
pub mod Source
pub mod Declared
pub mod Build
use terragraph.Prelude.{
  ℕ, ◌+◌, ◌≡◌, ◌≤◌, ◌<◌, refl, arith, Bool, true, false, Str, str_eq, str_eq_iff, bytes, List, [],
  ◌∷◌, ◌++◌, Bool-cases, inl, inr, All, contains-append, count, count-append, contains,
  if◌then◌else◌, is_nil,
}
use terragraph.Blueprint.{Edge, PortRef}

pub record Graph : Type 0 where
  pub nodes : List Str
  pub edges : List Edge
  pub outs : Str → List Str
  pub ins : Str → List Str

-- A Go map of lists: the value at `k` gets one more entry.
abbrev append_at : Str → Str → (Str → List Str) → Str → List Str
append_at k v m j = if str_eq k j then m j ++ v ∷ [] else m j

-- The three statements that `build` runs for each edge.
unfoldable pub add_edge : Graph → Edge → Graph
add_edge g e = record g {
  edges = g.edges ++ e ∷ [];
  outs = append_at e.from.node e.to.node g.outs;
  ins = append_at e.to.node e.from.node g.ins;
}

unfoldable pub add_edges : Graph → List Edge → Graph
unfolding add_edge
add_edges g [] = g
add_edges g (e ∷ es) = add_edges (add_edge g e) es

-- The graph with its nodes and no edge.
unfoldable pub unwired : List Str → Graph
unwired names = record { nodes = names; edges = []; outs = λ _. []; ins = λ _. [] }

-- Both directions of the adjacency say the same: a stands as often before b as b behind a.
abbrev pub IsConsistent : Graph → Type 0
IsConsistent g = (a b : Str) → count b (g.outs a) ≡ count a (g.ins b)

-- What `Build` gives: map keys are distinct, and an edge joins nodes of the graph.
pub record IsGraph (g : Graph) : Type 0 where
  pub distinct : (a : Str) → count a g.nodes ≤ 1
  pub consistent : IsConsistent g
  pub closed : (a b : Str) → contains a (g.ins b) ≡ true → contains a g.nodes ≡ true
  pub closed_out : (a b : Str) → contains b (g.outs a) ≡ true → contains b g.nodes ≡ true

add_edge-IsConsistent : (g : Graph) (e : Edge) → IsConsistent g → IsConsistent (add_edge g e)
unfolding add_edge count
add_edge-IsConsistent g e h a b = ground (
  arith,
  h a b,
  count-append b (g.outs a) (e.to.node ∷ []),
  count-append a (g.ins b) (e.from.node ∷ []),
)

-- qualifyName
unfoldable pub qualify_name : Str → Str → Str
qualify_name namespace name = if is_nil namespace then name else namespace ++ bytes "." ++ name

-- The edge joins two of the names.
abbrev pub JoinsNodes : List Str → Edge → Type 0
JoinsNodes names e = (contains e.from.node names ≡ true) × (contains e.to.node names ≡ true)

add_edge-closed :
    (g : Graph) (e : Edge)
    → ((a b : Str) → contains a (g.ins b) ≡ true → contains a g.nodes ≡ true)
    → JoinsNodes g.nodes e
    → (a b : Str) → contains a ((add_edge g e).ins b) ≡ true
    → contains a g.nodes ≡ true
unfolding add_edge contains
add_edge-closed g e h joins a b m = elim (Bool-cases (str_eq e.to.node b)) [
  | inl here ↦ ground (
    arith,
    h a b,
    contains-append a (g.ins b) (e.from.node ∷ []),
    rw here at m,
    joins.0,
    str_eq_iff e.from.node a,
  )
  | inr other ↦ h a b (rw other at m)
]

add_edge-closed_out :
    (g : Graph) (e : Edge)
    → ((a b : Str) → contains b (g.outs a) ≡ true → contains b g.nodes ≡ true)
    → JoinsNodes g.nodes e
    → (a b : Str) → contains b ((add_edge g e).outs a) ≡ true
    → contains b g.nodes ≡ true
unfolding add_edge contains
add_edge-closed_out g e h joins a b m = elim (Bool-cases (str_eq e.from.node a)) [
  | inl here ↦ ground (
    arith,
    h a b,
    contains-append b (g.outs a) (e.to.node ∷ []),
    rw here at m,
    joins.1,
    str_eq_iff e.to.node b,
  )
  | inr other ↦ h a b (rw other at m)
]

-- Adding edges between its nodes keeps a graph well formed.
pub add_edges-IsGraph :
    (g : Graph) (es : List Edge)
    → IsGraph g
    → All (JoinsNodes g.nodes) es
    → IsGraph (add_edges g es)
unfolding add_edges add_edge
add_edges-IsGraph g [] h joins = h
add_edges-IsGraph g (e ∷ es) h joins =
    add_edges-IsGraph (add_edge g e) es
      (record {
        distinct = h.distinct;
        consistent = add_edge-IsConsistent g e h.consistent;
        closed = add_edge-closed g e h.closed joins.0;
        closed_out = add_edge-closed_out g e h.closed_out joins.0;
      })
      joins.1

-- The graph that `build` wires from distinct names and from edges between them is well formed.
pub wired-IsGraph :
    (names : List Str) (es : List Edge)
    → ((a : Str) → count a names ≤ 1)
    → All (JoinsNodes names) es
    → IsGraph (add_edges (unwired names) es)
unfolding unwired contains count
wired-IsGraph names es distinct joins =
    add_edges-IsGraph (unwired names) es
      (record {
        distinct = distinct;
        consistent = λ a b. refl;
        closed = λ a b e. cc;
        closed_out = λ a b e. cc;
      })
      joins
