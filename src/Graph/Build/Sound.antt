-- ===== src/Graph/Build/Sound.antt =====
-- internal/graph/build.go: the graph that Build makes of a blueprint, whatever groups it uses, is
-- well formed.
use terragraph.Prelude.{
  ℕ, zero, suc, ◌≡◌, sym, ap, ◌∙◌, subst, Str, List, [], map, Option, some, contains, All, All-map,
}
use terragraph.Graph.{Graph, IsGraph, JoinsNodes, qualify_name}
use terragraph.Graph.Validate.{Problem}
use terragraph.Graph.Group.{resolved, ◌>>=◌, map_resolved, expand_edges}
use terragraph.Graph.Group.Success.{OnSuccess, on_success, >>=-OnSuccess, map_resolved-OnSuccess}
use terragraph.Graph.Group.Edges.{IsInstance}
use terragraph.Graph.Group.Expand.{expand_edges-AddsJoined, AddsJoined}
use terragraph.Graph.Declared.{GroupDecl}
use terragraph.Graph.Build.Settings.{Site, BuiltNode, Ambient, resolve_node}
use terragraph.Graph.Build.{
  Built, Expansion, Instance, nothing_built, place_nodes, splice_all, instance_infos, resolve_use,
  build_scope, build, build_root, no_ambient,
}
use terragraph.Graph.Build.Splice.{
  IsPlaced, nothing-IsPlaced, place_nodes-IsPlaced, splice_all-IsPlaced, add_edges-nodes,
  add_edges-IsPlaced,
}
use terragraph.Graph.Build.Expanded.{
  map_resolved-names, assign_all-All, edges-IsKnown, resolve_node-named, HasKnownRefs, HasNodes,
  IsOffer, IsExpanded,
}
use terragraph.Graph.Build.Instances.{
  All-units, All-of_map, All-within, splice_all-IsWithin, spliced, placed-IsWithin, Builds,
  BuildsWell, resolve_use-IsOffer,
}

module _ {V : Type 0} (load : Str → Str → Option (GroupDecl V)) (site : Site)
    (other_problems : Built V → List Problem)
    (accepted : (dir name : Str) (def : GroupDecl V)
      → load dir name ≡ some def
      → HasKnownRefs def) where
  scope-IsExpanded :
      (namespace : Str) (def : GroupDecl V) (ns : List (BuiltNode V)) (is : List (Instance V))
      → HasKnownRefs def
      → map (λ n. n.leaf.name) ns ≡ map (λ n. qualify_name namespace n.leaf.name) def.nodes
      → All IsOffer is
      → let b = splice_all (place_nodes nothing_built ns) is in
        OnSuccess (IsExpanded def namespace) (
          expand_edges namespace (instance_infos is) def.edges b.graph >>= λ graph.
          resolved (record { built = record b { graph = graph }; uses = instance_infos is }))
  scope-IsExpanded namespace def ns is known named offers =
      let b0 : Built V = place_nodes nothing_built ns in
      let b : Built V = splice_all b0 is in
      let placed : IsPlaced b.graph =
        splice_all-IsPlaced b0 is (place_nodes-IsPlaced nothing_built ns nothing-IsPlaced)
          (All-map is (λ i o. o.0) offers) in
      let instances : All (λ u. IsInstance b.graph.nodes u.1) (instance_infos is) =
        assign_all-All (IsInstance b.graph.nodes) (map (λ i. (i.name, i.info)) is) []
          (All-of_map (λ u. IsInstance b.graph.nodes u.1) (λ i. (i.name, i.info)) is
            (spliced b0 is offers))
          tt in
      let present : HasNodes def namespace b.graph.nodes =
        All-within (λ n. qualify_name namespace n.leaf.name) def.nodes b.graph.nodes
          (λ n h. splice_all-IsWithin b0 is n (placed-IsWithin ns n (ap (contains n) named ∙ h))) in
      >>=-OnSuccess (AddsJoined namespace (instance_infos is) b.graph instances)
        (IsExpanded def namespace) (expand_edges namespace (instance_infos is) def.edges b.graph) _
        (expand_edges-AddsJoined namespace (instance_infos is) b.graph instances def.edges
          (edges-IsKnown def namespace b.graph.nodes present known.0))
        (λ graph added.
          let (es, joins, same) = added in
          let kept = ap (λ (g : Graph). g.nodes) same ∙ add_edges-nodes b.graph es in
          record {
            placed = subst IsPlaced (sym same) (add_edges-IsPlaced b.graph es placed joins);
            instances =
                subst (λ names. All (λ u. IsInstance names u.1) (instance_infos is)) (sym kept)
                  instances;
            present = subst (HasNodes def namespace) (sym kept) present;
          })

  build_scope-IsExpanded :
      (inner : Builds load site other_problems accepted) (stack : List Str) (dir namespace : Str)
      (a : Ambient) (def : GroupDecl V)
      → BuildsWell load site other_problems accepted inner
      → HasKnownRefs def
      → OnSuccess
          (IsExpanded def namespace)
          (build_scope load site other_problems inner stack dir namespace a def)
  unfolding build_scope
  build_scope-IsExpanded inner stack dir namespace a def well known =
      let Ok : Expansion V → Type 0 = IsExpanded def namespace in
      >>=-OnSuccess
        (λ ns. map (λ n. n.leaf.name) ns ≡ map (λ n. qualify_name namespace n.leaf.name) def.nodes)
        Ok (map_resolved (resolve_node site a dir namespace def) def.nodes) _
        (map_resolved-names (λ n. n.leaf.name) (λ n. qualify_name namespace n.leaf.name)
          (resolve_node site a dir namespace def) def.nodes
          (resolve_node-named site a dir namespace def))
        (λ ns named.
          >>=-OnSuccess (All IsOffer) Ok
            (map_resolved
              (resolve_use load site other_problems inner stack dir namespace a def.runtimes)
              def.uses)
            _
            (map_resolved-OnSuccess (λ u. Unit {0}) IsOffer
              (resolve_use load site other_problems inner stack dir namespace a def.runtimes)
              def.uses
              (λ u _.
                resolve_use-IsOffer load site other_problems accepted inner stack dir namespace a
                  def.runtimes u well)
              (All-units def.uses))
            (λ is offers. scope-IsExpanded namespace def ns is known named offers))

  build-IsExpanded :
      (fuel : ℕ) (stack : List Str) (dir namespace : Str) (a : Ambient) (def : GroupDecl V)
      → HasKnownRefs def
      → OnSuccess
          (IsExpanded def namespace)
          (build load site other_problems fuel stack dir namespace a def)
  unfolding build
  build-IsExpanded zero stack dir namespace a def known = tt
  build-IsExpanded (suc fuel) stack dir namespace a def known =
      build_scope-IsExpanded (build load site other_problems fuel) stack dir namespace a def
        (build-IsExpanded fuel) known

  -- The graph that Build returns is well formed, however its groups are nested: every node stands
  -- in it once, the two directions of its adjacency agree, and every edge joins nodes of it. For
  -- a blueprint and groups whose references the parser has accepted.
  pub build_root-IsGraph :
      (fuel : ℕ) (dir : Str) (def : GroupDecl V) (b : Built V)
      → HasKnownRefs def
      → build_root load site other_problems fuel dir def ≡ resolved b
      → IsGraph b.graph × All (JoinsNodes b.graph.nodes) b.graph.edges
  unfolding build_root
  build_root-IsGraph fuel dir def b known e =
      let Sound : Built V → Type 0 = λ x. IsPlaced x.graph in
      let placed =
        on_success Sound (build_root load site other_problems fuel dir def) b
          (>>=-OnSuccess (IsExpanded def []) Sound
            (build load site other_problems fuel [] dir [] (no_ambient load site other_problems)
              def)
            _ (build-IsExpanded fuel [] dir [] _ def known) (λ x k. k.placed))
          e in
      (placed.built, placed.joined)
