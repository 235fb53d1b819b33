-- ===== src/Graph/Group/Barrier.antt =====
-- internal/graph/group.go: an edge between two instances, which becomes an edge from each sink of
-- the first to each root of the second, against what it is for: all of the first comes before all
-- of the second.
use terragraph.Prelude.{
  ℕ, zero, suc, ◌+◌, ◌≤◌, ◌<◌, ◌≡◌, ◌⊎◌, refl, ap, ◌∙◌, arith, Bool, true, false, Str, List, [],
  ◌∷◌, ◌++◌, map, keep, is_nil, contains, contains_iff, contains-sort, All, All-of_count, All-map,
  Bool-cases, inl, inr, List-cases, lookup, some, none, Option, ap₂, if◌then◌else◌, str_eq,
  str_eq_iff, str_eq_refl, subst,
}
use terragraph.Blueprint.{Edge, EntityKind, PortKind, PortRef, is_port, is_data_edge}
use terragraph.Graph.{Graph, IsGraph}
use terragraph.Graph.Validate.{Node}
use terragraph.Graph.Group.{
  Export, UseInfo, Resolved, resolved, refused, unknown_instance, ◌>>=◌, resolve_export,
  synthesize_schema, bare_ref, rewrite_endpoint, product, pairs_of, rewrite_edge, roots, sinks,
  use_info,
}
use terragraph.Graph.Group.Success.{on_success, >>=-OnSuccess, any_success}

contains-keep :
    (p : Str → Bool) (n : Str) (ns : List Str)
    → contains n ns ≡ true
    → p n ≡ true
    → contains n (keep p ns) ≡ true
unfolding contains
contains-keep p n [] h k = h
contains-keep p n (m ∷ ns) h k = elim (Bool-cases (str_eq m n)) [
  | inl e ↦
      let same = (str_eq_iff m n).0 e in let kept : p m ≡ true = ap p same ∙ k in rw (kept, e) refl
  | inr d ↦ let rest = contains-keep p n ns (rw d at h) k in ground (arith)
]

-- A number that no rank of the names exceeds.
ceiling : (Str → ℕ) → List Str → ℕ
ceiling rank [] = 0
ceiling rank (n ∷ ns) = rank n + ceiling rank ns

ceiling-All : (rank : Str → ℕ) (ns : List Str) → All (λ n. rank n ≤ ceiling rank ns) ns
unfolding ceiling
ceiling-All rank [] = tt
ceiling-All rank (n ∷ ns) =
    (omega arith, All-map ns (λ m h. omega (arith, h)) (ceiling-All rank ns))

-- The ranking goes up along the edges of the graph.
abbrev pub IsRanking : (Str → ℕ) → Graph → Type 0
IsRanking rank g =
    ((n : Str) → All (λ s. rank n < rank s) (g.outs n))
    × ((n : Str) → All (λ p. rank p < rank n) (g.ins n))

-- Each edge goes up.
abbrev pub IsUpward : (Str → ℕ) → List Edge → Type 0
IsUpward rank = All (λ e. rank e.from.node < rank e.to.node)

module _ (rank : Str → ℕ) (g : Graph) (built : IsGraph g) where
  sink_or_next :
      (n : Str)
      → IsRanking rank g
      → contains n g.nodes ≡ true
      → (contains n (sinks g) ≡ true)
        ⊎ ((s : Str) × (contains s g.nodes ≡ true) × (rank n < rank s))
  unfolding sinks contains
  sink_or_next n up here = elim (List-cases (g.outs n)) [
    | inl e ↦ inl (
        contains-sort n (keep (λ m. is_nil (g.outs m)) g.nodes)
        ∙ contains-keep (λ m. is_nil (g.outs m)) n g.nodes here (ap is_nil e))
    | inr (s, rest, e) ↦ inr (
      s,
      built.closed_out n s (rw (e, str_eq_refl s) refl),
      (subst (All (λ s. rank n < rank s)) e (up.0 n)).0,
    )
  ]

  root_or_next :
      (n : Str)
      → IsRanking rank g
      → contains n g.nodes ≡ true
      → (contains n (roots g) ≡ true)
        ⊎ ((p : Str) × (contains p g.nodes ≡ true) × (rank p < rank n))
  unfolding roots contains
  root_or_next n up here = elim (List-cases (g.ins n)) [
    | inl e ↦ inl (
        contains-sort n (keep (λ m. is_nil (g.ins m)) g.nodes)
        ∙ contains-keep (λ m. is_nil (g.ins m)) n g.nodes here (ap is_nil e))
    | inr (p, rest, e) ↦ inr (
      p,
      built.closed p n (rw (e, str_eq_refl p) refl),
      (subst (All (λ p. rank p < rank n)) e (up.1 n)).0,
    )
  ]

  below_ceiling : (n : Str) → contains n g.nodes ≡ true → rank n ≤ ceiling rank g.nodes
  below_ceiling n here =
      All-of_count (λ m. rank m ≤ ceiling rank g.nodes) g.nodes n (ceiling-All rank g.nodes)
        ((contains_iff n g.nodes).0 here)

  -- Behind every node, or at it, stands a sink.
  sink_behind :
      (fuel : ℕ) (n : Str)
      → IsRanking rank g
      → contains n g.nodes ≡ true
      → ceiling rank g.nodes ≤ rank n + fuel
      → (t : Str) × (contains t (sinks g) ≡ true) × (rank n ≤ rank t)
  sink_behind zero n up here far = elim (sink_or_next n up here) [
    | inl sink ↦ (n, sink, omega arith)
    | inr (s, s_here, lt) ↦ absurd (omega (arith, far, lt, below_ceiling s s_here))
  ]
  sink_behind (suc fuel) n up here far = elim (sink_or_next n up here) [
    | inl sink ↦ (n, sink, omega arith)
    | inr (s, s_here, lt) ↦
        let (t, sink, le) = sink_behind fuel s up s_here (omega (arith, far, lt)) in
        (t, sink, omega (arith, lt, le))
  ]

  -- Before every node, or at it, stands a root.
  root_before :
      (fuel : ℕ) (n : Str)
      → IsRanking rank g
      → contains n g.nodes ≡ true
      → rank n ≤ fuel
      → (r : Str) × (contains r (roots g) ≡ true) × (rank r ≤ rank n)
  root_before zero n up here far = elim (root_or_next n up here) [
    | inl root ↦ (n, root, omega arith)
    | inr (p, p_here, lt) ↦ absurd (omega (arith, far, lt))
  ]
  root_before (suc fuel) n up here far = elim (root_or_next n up here) [
    | inl root ↦ (n, root, omega arith)
    | inr (p, p_here, lt) ↦
        let (r, root, le) = root_before fuel p up p_here (omega (arith, far, lt)) in
        (r, root, omega (arith, lt, le))
  ]

module _ {ℓ} (Q : Edge → Type ℓ) where
  row-All :
      (f : PortRef) (ns : List Str) (rest : List Edge)
      → All Q (map (λ t. record { from = f; to = t }) (map bare_ref ns) ++ rest)
      → All (λ n. Q (record { from = f; to = bare_ref n })) ns × All Q rest
  row-All f [] rest h = (tt, h)
  row-All f (n ∷ ns) rest h = let r = row-All f ns rest h.1 in ((h.0, r.0), r.1)

  -- The product joins each of the first with each of the second.
  product-All :
      (ms ns : List Str)
      → All Q (product (map bare_ref ms) (map bare_ref ns))
      → All (λ m. All (λ n. Q (record { from = bare_ref m; to = bare_ref n })) ns) ms
  unfolding product
  product-All [] ns h = tt
  product-All (m ∷ ms) ns h =
      let r = row-All (bare_ref m) ns (product (map bare_ref ms) (map bare_ref ns)) h in
      (r.0, product-All ms ns r.1)

abbrev pub instance_ref : Str → PortRef
instance_ref x = record {
  entity = EntityKind.use_instance;
  node = x;
  kind = PortKind.bare;
  name = [];
}

-- The edge `use.x -> use.y`.
abbrev pub between : Str → Str → Edge
between x y = record { from = instance_ref x; to = instance_ref y }

between-endpoint :
    (namespace : Str) (uses : List (Str × UseInfo)) (want_roots : Bool) (x : Str) (info : UseInfo)
    → lookup x uses ≡ some info
    → rewrite_endpoint namespace uses want_roots (instance_ref x)
      ≡ resolved (map bare_ref (if want_roots then info.roots else info.sinks))
unfolding rewrite_endpoint is_port
between-endpoint namespace uses want_roots x info e =
    ap
      (λ (o : Option UseInfo).
        (elim o [ none ↦ refused (unknown_instance x) | some i ↦ resolved i ]) >>= λ (i : UseInfo).
        resolved (map bare_ref (if want_roots then i.roots else i.sinks)))
      e

-- An edge between two instances joins each sink of the first with each root of the second.
between-rewritten :
    (namespace : Str) (uses : List (Str × UseInfo)) (x y : Str) (a b : UseInfo)
    → lookup x uses ≡ some a
    → lookup y uses ≡ some b
    → rewrite_edge namespace uses (between x y)
      ≡ resolved (product (map bare_ref a.sinks) (map bare_ref b.roots))
unfolding rewrite_edge pairs_of is_port is_data_edge
between-rewritten namespace uses x y a b e f =
    ap₂
      (λ (p q : Resolved (List PortRef)).
        p >>= λ froms. q >>= λ tos. pairs_of (between x y) froms tos)
      (between-endpoint namespace uses false x a e) (between-endpoint namespace uses true y b f)

use_info-ends :
    (nodes : Str → Node) (namespace : Str) (uses : List (Str × UseInfo)) (x : Export) (g : Graph)
    (info : UseInfo)
    → use_info nodes g namespace uses x ≡ resolved info
    → (info.roots ≡ roots g) × (info.sinks ≡ sinks g)
unfolding use_info
use_info-ends nodes namespace uses x g info e =
    on_success (λ i. (i.roots ≡ roots g) × (i.sinks ≡ sinks g)) (use_info nodes g namespace uses x)
      info
      (>>=-OnSuccess (λ _. Unit {0}) (λ i. (i.roots ≡ roots g) × (i.sinks ≡ sinks g))
        (resolve_export namespace uses x) _ (any_success (resolve_export namespace uses x))
        (λ y h.
          >>=-OnSuccess (λ _. Unit {0}) (λ i. (i.roots ≡ roots g) × (i.sinks ≡ sinks g))
            (synthesize_schema nodes g y) _ (any_success (synthesize_schema nodes g y))
            (λ z k. (refl, refl))))
      e

-- An edge `use.x -> use.y` is rewritten without an error, to edges that put all of the first
-- instance before all of the second: a ranking of the nodes that goes up along the edges inside
-- both instances and along the rewritten ones, as the layers of a schedule do, ranks each node of
-- the first below each node of the second.
pub rewrite_edge-barrier :
    (rank : Str → ℕ) (nodes_x nodes_y : Str → Node) (namespace : Str) (uses : List (Str × UseInfo))
    (x y : Str) (a b : Graph) (first second : UseInfo) (inside_x inside_y : Str)
    (uses_x uses_y : List (Str × UseInfo)) (export_x export_y : Export) (n m : Str)
    → IsGraph a
    → IsGraph b
    → use_info nodes_x a inside_x uses_x export_x ≡ resolved first
    → use_info nodes_y b inside_y uses_y export_y ≡ resolved second
    → lookup x uses ≡ some first
    → lookup y uses ≡ some second
    → IsRanking rank a
    → IsRanking rank b
    → IsUpward rank (product (map bare_ref first.sinks) (map bare_ref second.roots))
    → contains n a.nodes ≡ true
    → contains m b.nodes ≡ true
    → (rewrite_edge namespace uses (between x y)
        ≡ resolved (product (map bare_ref first.sinks) (map bare_ref second.roots)))
      × (rank n < rank m)
rewrite_edge-barrier rank nodes_x nodes_y namespace uses x y a b first second inside_x inside_y
      uses_x uses_y export_x export_y n m a_built b_built info_x info_y at_x at_y a_up b_up up
      n_here m_here =
    let (t, sink, le) =
      sink_behind rank a a_built (ceiling rank a.nodes) n a_up n_here (omega arith) in
    let (r, root, ge) = root_before rank b b_built (rank m) m b_up m_here (omega arith) in
    let joined = product-All (λ e. rank e.from.node < rank e.to.node) first.sinks second.roots up in
    let row =
      All-of_count (λ s. All (λ q. rank s < rank q) second.roots) first.sinks t joined
        ((contains_iff t first.sinks).0 (
          ap (contains t) (use_info-ends nodes_x inside_x uses_x export_x a first info_x).1
          ∙ sink)) in
    let edge =
      All-of_count (λ q. rank t < rank q) second.roots r row
        ((contains_iff r second.roots).0 (
          ap (contains r) (use_info-ends nodes_y inside_y uses_y export_y b second info_y).0
          ∙ root)) in
    (between-rewritten namespace uses x y first second at_x at_y, omega (arith, le, edge, ge))
