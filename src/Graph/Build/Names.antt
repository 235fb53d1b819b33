-- ===== src/Graph/Build/Names.antt =====
-- internal/graph/build.go and source.go: the leaves that SourceNodes lists are the nodes of the
-- graph that Build makes, though the two read the blueprint on their own.
use terragraph.Prelude.{
  ℕ, zero, suc, ◌≡◌, refl, sym, ap, ap₂, ◌∙◌, ◌||◌, Str, List, [], ◌++◌, map, map-append, flatten,
  contains, contains-append, any, Option,
}
use terragraph.Graph.{Graph, qualify_name}
use terragraph.Graph.Validate.{Problem}
use terragraph.Graph.Group.{resolved, ◌>>=◌, map_resolved, expand_edges}
use terragraph.Graph.Group.Success.{OnSuccess, on_success, >>=-OnSuccess}
use terragraph.Graph.Source.{SourceNode, source_nodes, leaf}
use terragraph.Graph.Declared.{GroupDecl}
use terragraph.Graph.Build.Settings.{Site, BuiltNode, resolve_node}
use terragraph.Graph.Build.{
  Built, Expansion, Instance, nothing_built, place_nodes, splice_all, instance_infos, build,
  build_scope, build_root, no_ambient, resolve_use,
}
use terragraph.Graph.Build.Splice.{contains-splice_all}
use terragraph.Graph.Build.Expanded.{map_resolved-names, resolve_node-named}
use terragraph.Graph.Build.Listed.{
  source_scope, source_load, names_of, >>=-resolved, expand_edges-nodes, names_of-leaf,
  placed-names, Lists, IsListed, BuildsListed, listed_use, uses-Lists,
}

module _ {V : Type 0} (load : Str → Str → Option (GroupDecl V)) (site : Site)
    (other_problems : Built V → List Problem) where
  scope-Lists :
      (fuel : ℕ) (stack : List Str) (dir namespace : Str) (backend : List (Str × Str))
      (def : GroupDecl V) (ns : List (BuiltNode V)) (is : List (Instance V))
      → map (λ n. n.leaf.name) ns ≡ map (λ n. qualify_name namespace n.leaf.name) def.nodes
      → (inside : List (List SourceNode))
      → map_resolved
          (listed_use load site other_problems fuel stack dir namespace backend)
          (map (λ u. u.instance_use) def.uses)
        ≡ resolved inside
      → ((n : Str)
          → any (λ i. contains n i.internal.graph.nodes) is
            ≡ contains n (names_of (flatten inside)))
      → let b = splice_all (place_nodes nothing_built ns) is in
        OnSuccess (IsListed load site other_problems (suc fuel) stack dir namespace backend def) (
          expand_edges namespace (instance_infos is) def.edges b.graph >>= λ graph.
          resolved (record { built = record b { graph = graph }; uses = instance_infos is }))
  unfolding source_nodes
  scope-Lists fuel stack dir namespace backend def ns is named inside others also =
      let own = map (leaf namespace backend) (map (λ n. n.leaf) def.nodes) in
      let b : Built V = splice_all (place_nodes nothing_built ns) is in
      >>=-OnSuccess (λ (x : Graph). x.nodes ≡ b.graph.nodes)
        (IsListed load site other_problems (suc fuel) stack dir namespace backend def)
        (expand_edges namespace (instance_infos is) def.edges b.graph) _
        (expand_edges-nodes namespace (instance_infos is) def.edges b.graph)
        (λ graph kept. (
          own ++ flatten inside,
          >>=-resolved _ _ inside _ others refl,
          λ n.
              ap (contains n) kept
              ∙ contains-splice_all n (place_nodes nothing_built ns) is
              ∙ ap₂ (λ x y. x || y)
                  (placed-names n ns
                    ∙ ap (contains n) (named ∙ sym (names_of-leaf namespace backend def.nodes)))
                  (also n)
              ∙ sym (
                  ap (contains n) (map-append (λ x. x.name) own (flatten inside))
                  ∙ contains-append n (names_of own) (names_of (flatten inside))),
        ))

  build-Listed :
      (fuel : ℕ) → BuildsListed load site other_problems (build load site other_problems fuel) fuel
  unfolding build build_scope
  build-Listed zero stack dir namespace a backend def = tt
  build-Listed (suc fuel) stack dir namespace a backend def =
      let inner = build load site other_problems fuel in
      let Ok : Expansion V → Type 0 =
        IsListed load site other_problems (suc fuel) stack dir namespace backend def in
      >>=-OnSuccess _ Ok (map_resolved (resolve_node site a dir namespace def) def.nodes) _
        (map_resolved-names (λ n. n.leaf.name) (λ n. qualify_name namespace n.leaf.name)
          (resolve_node site a dir namespace def) def.nodes
          (resolve_node-named site a dir namespace def))
        (λ ns named.
          >>=-OnSuccess _ Ok
            (map_resolved
              (resolve_use load site other_problems inner stack dir namespace a def.runtimes)
              def.uses)
            _
            (uses-Lists load site other_problems inner fuel stack dir namespace a backend
              def.runtimes def.uses (build-Listed fuel))
            (λ is inside.
              scope-Lists fuel stack dir namespace backend def ns is named inside.0 inside.1
                inside.2))

  -- SourceNodes lists what Build builds: where Build returns a graph, SourceNodes returns leaves,
  -- and their names are those of the nodes of the graph.
  pub build_root-source_nodes :
      (fuel : ℕ) (dir : Str) (def : GroupDecl V) (b : Built V)
      → build_root load site other_problems fuel dir def ≡ resolved b
      → (leaves : List SourceNode) × (source_nodes
            (source_load load)
            site.join
            fuel
            dir
            []
            []
            []
            (source_scope def)
          ≡ resolved leaves)
        × ((n : Str) → contains n b.graph.nodes ≡ contains n (map (λ x. x.name) leaves))
  unfolding build_root
  build_root-source_nodes fuel dir def b e =
      let listed = source_nodes (source_load load) site.join fuel dir [] [] [] (source_scope def) in
      let Ok : Built V → Type 0 = λ x. Lists load site other_problems listed x.graph.nodes in
      on_success Ok (build_root load site other_problems fuel dir def) b
        (>>=-OnSuccess (IsListed load site other_problems fuel [] dir [] [] def) Ok
          (build load site other_problems fuel [] dir [] (no_ambient load site other_problems) def)
          _ (build-Listed fuel [] dir [] _ [] def) (λ x k. k))
        e
