-- ===== src/Graph/Group/Expand.antt =====
-- internal/graph/build.go and group.go: an expanded scope is a well-formed graph, and what it
-- exports leads to its own nodes, so that the scope around it can build on it in turn.
use terragraph.Prelude.{
  ◌≡◌, refl, Bool, true, Str, List, [], ◌∷◌, flatten, keep, sort, is_nil, contains, contains_iff,
  All, All-map, All-append, All-count, if_elim, count-sort, All-of_count, ◌∙◌, arith,
}
use terragraph.Blueprint.{Edge, PortRef, is_port}
use terragraph.Graph.{Graph, JoinsNodes, add_edges}
use terragraph.Graph.Validate.{Node}
use terragraph.Graph.Group.{
  Export, ExportInput, ExportOutput, UseInfo, resolved, ◌>>=◌, map_resolved, exported, qualified,
  resolve_export_endpoint, resolve_export, instance_of, resolve_input, one_port, rewrite_edge,
  roots, sinks, synthesize_schema, use_info, expand_edges,
}
use terragraph.Graph.Group.Success.{
  OnSuccess, on_success, >>=-OnSuccess, weaken, any_success, map_resolved-OnSuccess,
}
use terragraph.Graph.Group.Edges.{
  entity_elim, IsLeaf, IsInstance, IsKnown, Leaves, exported-Leaves, instance_of-IsInstance,
  qualified-IsLeaf, IsRewritten, IsKnownEdge, rewrite_edge-OnSuccess,
}

All-flatten {ℓ} :
    {A : Type 0} (P : A → Type ℓ) (xss : List (List A)) → All (All P) xss → All P (flatten xss)
unfolding flatten
All-flatten P [] h = tt
All-flatten P (xs ∷ xss) h = All-append P xs (flatten xss) h.0 (All-flatten P xss h.1)

module _ (namespace : Str) (uses : List (Str × UseInfo)) (g : Graph)
    (instances : All (λ u. IsInstance g.nodes u.1) uses) where
  abbrev Joins : Edge → Type 0
  Joins = JoinsNodes g.nodes

  rewrite_edge-Joins :
      (e : Edge)
      → IsKnownEdge g.nodes namespace uses instances e
      → OnSuccess (All Joins) (rewrite_edge namespace uses e)
  rewrite_edge-Joins e known =
      weaken (All (IsRewritten g.nodes namespace uses instances e)) (All Joins)
        (rewrite_edge namespace uses e)
        (rewrite_edge-OnSuccess g.nodes namespace uses instances e known)
        (λ es h. All-map es (λ x r. (r.from.here, r.to.here)) h)

  -- What is added to the graph are edges between its nodes.
  abbrev pub AddsJoined : Graph → Type 0
  AddsJoined expanded = (es : List Edge) × All Joins es × (expanded ≡ add_edges g es)

  pub expand_edges-AddsJoined :
      (es : List Edge)
      → All (IsKnownEdge g.nodes namespace uses instances) es
      → OnSuccess AddsJoined (expand_edges namespace uses es g)
  unfolding expand_edges
  expand_edges-AddsJoined es known =
      >>=-OnSuccess (All (All Joins)) AddsJoined (map_resolved (rewrite_edge namespace uses) es) _
        (map_resolved-OnSuccess (IsKnownEdge g.nodes namespace uses instances) (All Joins)
          (rewrite_edge namespace uses) es rewrite_edge-Joins known)
        (λ rewritten joins. (flatten rewritten, All-flatten Joins rewritten joins, refl))

  resolve_export_endpoint-Leaves :
      (ref : PortRef)
      → IsKnown g.nodes namespace ref × (is_port ref ≡ true)
      → Leaves g.nodes true (resolve_export_endpoint namespace uses ref)
  unfolding resolve_export_endpoint
  resolve_export_endpoint-Leaves ref known =
      entity_elim (Leaves g.nodes true) ref.entity (resolved (qualified namespace ref ∷ []))
        (instance_of ref uses >>= exported ref)
        (λ e.
          let leaf = qualified-IsLeaf g.nodes namespace ref known.0 e in
          (record { entity = leaf.entity; here = leaf.here; kind = leaf.kind ∙ known.1 }, tt))
        (λ _.
          >>=-OnSuccess (IsInstance g.nodes) (All (IsLeaf g.nodes true)) (instance_of ref uses)
            (exported ref) (instance_of-IsInstance g.nodes ref uses instances)
            (λ info h. exported-Leaves g.nodes ref info h))

  -- Each reference of the export is to a port, of an instance or of a node of the graph.
  abbrev pub IsKnownPort : PortRef → Type 0
  IsKnownPort ref = IsKnown g.nodes namespace ref × (is_port ref ≡ true)

  resolve_input-Leaves :
      (i : ExportInput)
      → All IsKnownPort i.to
      → OnSuccess (λ j. All (IsLeaf g.nodes true) j.to) (resolve_input namespace uses i)
  resolve_input-Leaves i known =
      >>=-OnSuccess (All (All (IsLeaf g.nodes true))) (λ j. All (IsLeaf g.nodes true) j.to)
        (map_resolved (resolve_export_endpoint namespace uses) i.to) _
        (map_resolved-OnSuccess IsKnownPort (All (IsLeaf g.nodes true))
          (resolve_export_endpoint namespace uses) i.to resolve_export_endpoint-Leaves known)
        (λ targets h. All-flatten (IsLeaf g.nodes true) targets h)

  one_port-Leaf :
      (o : ExportOutput) (ps : List PortRef)
      → All (IsLeaf g.nodes true) ps
      → OnSuccess (λ q. IsLeaf g.nodes true q.from) (one_port o ps)
  one_port-Leaf o [] h = tt
  one_port-Leaf o (p ∷ []) h = h.0
  one_port-Leaf o (p ∷ q ∷ ps) h = tt

  abbrev Leads : Export → Type 0
  Leads y =
      All (λ o. IsLeaf g.nodes true o.from) y.outputs
      × All (λ i. All (IsLeaf g.nodes true) i.to) y.inputs

  resolve_export-Leads :
      (x : Export)
      → All (λ o. IsKnownPort o.from) x.outputs
      → All (λ i. All IsKnownPort i.to) x.inputs
      → OnSuccess Leads (resolve_export namespace uses x)
  unfolding resolve_export
  resolve_export-Leads x outs ins =
      >>=-OnSuccess (All (λ i. All (IsLeaf g.nodes true) i.to)) Leads
        (map_resolved (resolve_input namespace uses) x.inputs) _
        (map_resolved-OnSuccess (λ i. All IsKnownPort i.to) (λ i. All (IsLeaf g.nodes true) i.to)
          (resolve_input namespace uses) x.inputs resolve_input-Leaves ins)
        (λ inputs hi.
          >>=-OnSuccess (All (λ o. IsLeaf g.nodes true o.from)) Leads
            (map_resolved (λ o. resolve_export_endpoint namespace uses o.from >>= one_port o)
              x.outputs)
            _
            (map_resolved-OnSuccess (λ o. IsKnownPort o.from) (λ o. IsLeaf g.nodes true o.from)
              (λ o. resolve_export_endpoint namespace uses o.from >>= one_port o) x.outputs
              (λ o known.
                >>=-OnSuccess (All (IsLeaf g.nodes true)) (λ q. IsLeaf g.nodes true q.from)
                  (resolve_export_endpoint namespace uses o.from) (one_port o)
                  (resolve_export_endpoint-Leaves o.from known) (one_port-Leaf o))
              outs)
            (λ outputs ho. (ho, hi)))

  keep-here :
      (f : Str → Bool) (ns : List Str)
      → All (λ n. contains n g.nodes ≡ true) ns
      → All (λ n. contains n g.nodes ≡ true) (keep f ns)
  keep-here f [] h = tt
  keep-here f (n ∷ ns) h =
      if_elim (λ (l : List Str). All (λ m. contains m g.nodes ≡ true) l) (f n)
        (λ _. (h.0, keep-here f ns h.1)) (λ _. keep-here f ns h.1)

  all-here : All (λ n. contains n g.nodes ≡ true) g.nodes
  all-here = All-count g.nodes (λ a m. (contains_iff a g.nodes).1 m)

  sorted-here :
      (ns : List Str)
      → All (λ n. contains n g.nodes ≡ true) ns
      → All (λ n. contains n g.nodes ≡ true) (sort ns)
  sorted-here ns h = All-count (sort ns) (λ a m.
      All-of_count (λ n. contains n g.nodes ≡ true) ns a h (omega (arith, m, count-sort a ns)))

  -- What an instance offers leads to the nodes of its graph: outputs and inputs to ports of them,
  -- roots and sinks to them; the export's references are to ports, of nodes of the graph or of
  -- instances that lead to its nodes.
  pub use_info-IsInstance :
      (node_at : Str → Node) (x : Export) (info : UseInfo)
      → All (λ o. IsKnownPort o.from) x.outputs
      → All (λ i. All IsKnownPort i.to) x.inputs
      → use_info node_at g namespace uses x ≡ resolved info
      → IsInstance g.nodes info
  unfolding use_info resolve_export roots sinks
  use_info-IsInstance node_at x info outs ins e =
      on_success (IsInstance g.nodes) (use_info node_at g namespace uses x) info
        (>>=-OnSuccess Leads (IsInstance g.nodes) (resolve_export namespace uses x) _
          (resolve_export-Leads x outs ins)
          (λ y h.
            >>=-OnSuccess (λ _. Unit {0}) (IsInstance g.nodes) (synthesize_schema node_at g y) _
              (any_success (synthesize_schema node_at g y))
              (λ z k. record {
                outputs = h.0;
                inputs = h.1;
                roots = sorted-here _ (keep-here (λ n. is_nil (g.ins n)) g.nodes all-here);
                sinks = sorted-here _ (keep-here (λ n. is_nil (g.outs n)) g.nodes all-here);
              })))
        e
