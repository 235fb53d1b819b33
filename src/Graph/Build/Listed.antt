-- ===== src/Graph/Build/Listed.antt =====
-- internal/graph/build.go and source.go: what SourceNodes lists for a group against the group that
-- resolveUse builds.
use terragraph.Prelude.{
  ℕ, ◌≡◌, refl, sym, ap, ap₂, ◌∙◌, ◌||◌, Str, List, [], ◌∷◌, map, map-append, flatten, contains,
  contains-append, any, Option, none, some,
}
use terragraph.Blueprint.{Edge}
use terragraph.Graph.{Graph, qualify_name, unwired}
use terragraph.Graph.Validate.{Problem}
use terragraph.Graph.Group.{
  Resolved, resolved, refused, no_group, UseInfo, ◌>>=◌, map_resolved, use_info, expand_edges,
  rewrite_edge,
}
use terragraph.Graph.Group.Success.{OnSuccess, >>=-OnSuccess, >>=-after}
use terragraph.Graph.Group.Vars.{apply_use_vars}
use terragraph.Graph.Source.{SourceNode, Use, Scope, source_nodes, push, found, leaf, merge_env}
use terragraph.Graph.Declared.{NodeDecl, GroupDecl, UseDecl, Runtime}
use terragraph.Graph.Build.Settings.{Site, BuiltNode, Ambient, inside_use, or_refused}
use terragraph.Graph.Build.{
  Built, Expansion, Instance, nothing_built, place_nodes, node_at, leaf_vars, validated,
  resolve_use,
}
use terragraph.Graph.Build.Splice.{add_edges-nodes, contains-put_keys, place_nodes-graph}
use terragraph.Graph.Build.Instances.{validated-same, or_refused-some}

module _ {V : Type 0} where
  -- A scope as SourceNodes reads it.
  abbrev pub source_scope : GroupDecl V → Scope
  source_scope def = record {
    nodes = map (λ n. n.leaf) def.nodes;
    uses = map (λ u. u.instance_use) def.uses;
  }

  abbrev loaded_scope : Option (GroupDecl V) → Option Scope
  loaded_scope none = none
  loaded_scope (some def) = some (source_scope def)

  abbrev pub source_load : (Str → Str → Option (GroupDecl V)) → Str → Str → Option Scope
  source_load load dir name = loaded_scope (load dir name)

abbrev pub names_of : List SourceNode → List Str
names_of ns = map (λ n. n.name) ns

pub >>=-resolved :
    {A B : Type 0} (m : Resolved A) (f : A → Resolved B) (a : A) (b : B)
    → m ≡ resolved a
    → f a ≡ resolved b
    → (m >>= f) ≡ resolved b
>>=-resolved m f a b e h = ap (λ x. x >>= f) e ∙ h

pub expand_edges-nodes :
    (namespace : Str) (uses : List (Str × UseInfo)) (es : List Edge) (g : Graph)
    → OnSuccess (λ (x : Graph). x.nodes ≡ g.nodes) (expand_edges namespace uses es g)
unfolding expand_edges
expand_edges-nodes namespace uses es g =
    >>=-after (λ (x : Graph). x.nodes ≡ g.nodes) (map_resolved (rewrite_edge namespace uses) es) _
      (λ rewritten _. add_edges-nodes g (flatten rewritten))

pub names_of-leaf :
    {V : Type 0} (namespace : Str) (backend : List (Str × Str)) (ns : List (NodeDecl V))
    → names_of (map (leaf namespace backend) (map (λ n. n.leaf) ns))
      ≡ map (λ n. qualify_name namespace n.leaf.name) ns
unfolding leaf
names_of-leaf namespace backend [] = refl
names_of-leaf namespace backend (n ∷ ns) =
    ap (λ l. qualify_name namespace n.leaf.name ∷ l) (names_of-leaf namespace backend ns)

pub placed-names :
    {V : Type 0} (n : Str) (ns : List (BuiltNode V))
    → contains n (place_nodes nothing_built ns).graph.nodes ≡ contains n (map (λ x. x.leaf.name) ns)
unfolding unwired contains
placed-names n ns =
    ap (λ (g : Graph). contains n g.nodes) (place_nodes-graph nothing_built ns)
    ∙ contains-put_keys n [] (map (λ x. x.leaf.name) ns)

module _ {V : Type 0} (load : Str → Str → Option (GroupDecl V)) (site : Site)
    (other_problems : Built V → List Problem) where
  -- The leaves have the names of the graph's nodes.
  abbrev pub Lists : Resolved (List SourceNode) → List Str → Type 0
  Lists listed names =
      (leaves : List SourceNode) × (listed ≡ resolved leaves)
      × ((n : Str) → contains n names ≡ contains n (names_of leaves))

  abbrev pub IsListed :
      ℕ → List Str → Str → Str → List (Str × Str) → GroupDecl V → Expansion V → Type 0
  IsListed fuel stack dir namespace backend def e =
      Lists
        (source_nodes (source_load load) site.join fuel dir namespace backend stack
          (source_scope def))
        e.built.graph.nodes

  abbrev pub BuildsListed :
      (List Str → Str → Str → Ambient → GroupDecl V → Resolved (Expansion V)) → ℕ → Type 0
  BuildsListed inner fuel =
      (stack : List Str) (dir namespace : Str) (a : Ambient) (backend : List (Str × Str))
      (def : GroupDecl V)
      → OnSuccess (IsListed fuel stack dir namespace backend def) (inner stack dir namespace a def)

  found-load :
      (dir name : Str) (def : GroupDecl V)
      → load dir name ≡ some def
      → found dir name (source_load load dir name) ≡ resolved (source_scope def)
  found-load dir name def e = ap (λ o. found dir name (loaded_scope o)) e

  -- What SourceNodes lists for a `use`.
  abbrev pub listed_use :
      ℕ → List Str → Str → Str → List (Str × Str) → Use → Resolved (List SourceNode)
  listed_use fuel stack dir namespace backend u =
      push stack (site.join dir u.source) u.group_name >>= λ next.
      found (site.join dir u.source) u.group_name
        (source_load load (site.join dir u.source) u.group_name)
      >>= λ def.
          source_nodes (source_load load) site.join fuel (site.join dir u.source)
            (qualify_name namespace u.instance_name) (merge_env backend u.backend_config) next def

  resolve_use-Lists :
      (inner : List Str → Str → Str → Ambient → GroupDecl V → Resolved (Expansion V)) (fuel : ℕ)
      (stack : List Str) (dir namespace : Str) (a : Ambient) (backend : List (Str × Str))
      (runtimes : List Runtime) (u : UseDecl V)
      → BuildsListed inner fuel
      → OnSuccess
          (λ i.
            Lists
              (listed_use fuel stack dir namespace backend u.instance_use)
              i.internal.graph.nodes)
          (resolve_use load site other_problems inner stack dir namespace a runtimes u)
  unfolding resolve_use
  resolve_use-Lists inner fuel stack dir namespace a backend runtimes u listed =
      let group = u.instance_use.group_name in
      let inside = site.join dir u.instance_use.source in
      let prefix = qualify_name namespace u.instance_use.instance_name in
      let Ok : Instance V → Type 0 = λ i.
        Lists (listed_use fuel stack dir namespace backend u.instance_use) i.internal.graph.nodes in
      >>=-after Ok (push stack inside group) _ (λ next pushed.
        >>=-after Ok (or_refused (load inside group) (refused (no_group inside group))) _
          (λ def there.
            >>=-OnSuccess _ Ok (inner next inside prefix (inside_use runtimes a u) def) _
              (listed next inside prefix (inside_use runtimes a u)
                (merge_env backend u.instance_use.backend_config) def)
              (λ e lists. >>=-after Ok (validated load site other_problems e.built) _ (λ b checked.
                >>=-after Ok (use_info (node_at b) b.graph prefix e.uses def.export) _ (λ info _.
                  >>=-after Ok (apply_use_vars u.vars info.export.inputs (leaf_vars b.nodes)) _
                    (λ filled _.
                      let same = validated-same load site other_problems e.built b checked in
                      let (leaves, from, same_names) = lists in
                      (
                        leaves,
                        >>=-resolved (push stack inside group) _ next leaves pushed (
                            >>=-resolved (found inside group (source_load load inside group)) _
                              (source_scope def) leaves
                              (found-load inside group def (
                                or_refused-some (load inside group) (no_group inside group) def
                                  there))
                              from),
                        λ n. ap (λ (y : Built V). contains n y.graph.nodes) same ∙ same_names n,
                      )))))))

  -- The loop over the uses of a scope.
  pub uses-Lists :
      (inner : List Str → Str → Str → Ambient → GroupDecl V → Resolved (Expansion V)) (fuel : ℕ)
      (stack : List Str) (dir namespace : Str) (a : Ambient) (backend : List (Str × Str))
      (runtimes : List Runtime) (us : List (UseDecl V))
      → BuildsListed inner fuel
      → OnSuccess
          (λ is.
            (inside : List (List SourceNode)) × (map_resolved
                (listed_use fuel stack dir namespace backend)
                (map (λ u. u.instance_use) us)
              ≡ resolved inside)
            × ((n : Str)
                → any (λ i. contains n i.internal.graph.nodes) is
                  ≡ contains n (names_of (flatten inside))))
          (map_resolved
            (resolve_use load site other_problems inner stack dir namespace a runtimes)
            us)
  unfolding map_resolved flatten contains
  uses-Lists inner fuel stack dir namespace a backend runtimes [] listed = ([], refl, λ n. refl)
  uses-Lists inner fuel stack dir namespace a backend runtimes (u ∷ us) listed =
      let step : UseDecl V → Resolved (Instance V) =
        resolve_use load site other_problems inner stack dir namespace a runtimes in
      >>=-OnSuccess _ _ (step u) _
        (resolve_use-Lists inner fuel stack dir namespace a backend runtimes u listed)
        (λ i one.
          >>=-OnSuccess _ _ (map_resolved step us) _
            (uses-Lists inner fuel stack dir namespace a backend runtimes us listed)
            (λ is rest.
              let (leaves, from, same) = one in
              let (inside, others, also) = rest in
              (
                leaves ∷ inside,
                >>=-resolved _ _ leaves _ from (>>=-resolved _ _ inside _ others refl),
                λ n.
                    ap₂ (λ x y. x || y) (same n) (also n)
                    ∙ sym (
                        ap (contains n) (map-append (λ x. x.name) leaves (flatten inside))
                        ∙ contains-append n (names_of leaves) (names_of (flatten inside))),
              )))
