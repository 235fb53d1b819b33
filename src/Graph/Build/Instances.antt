-- ===== src/Graph/Build/Instances.antt =====
-- internal/graph/build.go: what resolveUse returns may be offered to the scope around it.
use terragraph.Prelude.{
  ◌≡◌, sym, ap, ◌∙◌, subst, arith, true, Str, List, [], ◌∷◌, map, Option, none, some, contains, All,
  str_eq_refl,
}
use terragraph.Graph.{Graph, qualify_name}
use terragraph.Graph.Validate.{Problem}
use terragraph.Graph.Group.{Resolved, resolved, refused, UseInfo, Refusal, no_group, use_info}
use terragraph.Graph.Group.Success.{OnSuccess, >>=-OnSuccess, >>=-after}
use terragraph.Graph.Group.Edges.{IsInstance}
use terragraph.Graph.Group.Expand.{use_info-IsInstance}
use terragraph.Graph.Group.Vars.{apply_use_vars}
use terragraph.Graph.Source.{push}
use terragraph.Graph.Declared.{UseDecl, GroupDecl, Runtime}
use terragraph.Graph.Build.Settings.{Site, BuiltNode, Ambient, inside_use, or_refused}
use terragraph.Graph.Build.{
  Built, Expansion, Instance, nothing_built, place_nodes, splice, splice_all, node_at, leaf_vars,
  validated, resolve_use,
}
use terragraph.Graph.Build.Splice.{
  IsPlaced, IsWithin, put_keys-IsWithin, place_nodes-graph, splice-nodes, contains-splice_all,
}
use terragraph.Graph.Build.Expanded.{
  IsInstance-widen, export-IsKnown, HasKnownRefs, IsOffer, IsExpanded,
}

pub All-units : {A : Type 0} (xs : List A) → All (λ _. Unit {0}) xs
All-units [] = tt
All-units (x ∷ xs) = (tt, All-units xs)

pub All-of_map :
    {A B : Type 0} (P : B → Type 0) (f : A → B) (xs : List A)
    → All (λ x. P (f x)) xs
    → All P (map f xs)
All-of_map P f [] h = tt
All-of_map P f (x ∷ xs) h = (h.0, All-of_map P f xs h.1)

-- Each name of a list stands where the list stands.
pub All-within :
    {A : Type 0} (f : A → Str) (xs : List A) (names : List Str)
    → IsWithin (map f xs) names
    → All (λ x. contains (f x) names ≡ true) xs
unfolding contains
All-within f [] names w = tt
All-within f (x ∷ xs) names w = (
  w (f x) (ground (arith, str_eq_refl (f x))),
  All-within f xs names (λ n h. w n (ground (arith))),
)

module _ {V : Type 0} where
  pub splice_all-IsWithin :
      (b : Built V) (is : List (Instance V)) → IsWithin b.graph.nodes (splice_all b is).graph.nodes
  splice_all-IsWithin b is n h = contains-splice_all n b is ∙ ground (arith)

  -- The nodes of an instance stay when it is spliced in.
  pub spliced :
      (b : Built V) (is : List (Instance V))
      → All IsOffer is
      → All (λ i. IsInstance (splice_all b is).graph.nodes i.info) is
  unfolding splice_all
  spliced b [] h = tt
  spliced b (i ∷ is) h = (
    IsInstance-widen i.internal.graph.nodes _ i.info
        (λ n m. splice_all-IsWithin (splice b i.internal) is n (
          ap (contains n) (splice-nodes b i.internal)
          ∙ put_keys-IsWithin b.graph.nodes i.internal.graph.nodes n m))
        h.0.1,
    spliced (splice b i.internal) is h.1,
  )

  pub placed-IsWithin :
      (ns : List (BuiltNode V))
      → IsWithin (map (λ n. n.leaf.name) ns) (place_nodes nothing_built ns).graph.nodes
  placed-IsWithin ns n h =
      ap (λ (g : Graph). contains n g.nodes) (place_nodes-graph nothing_built ns)
      ∙ put_keys-IsWithin _ (map (λ x. x.leaf.name) ns) n h

module _ {V : Type 0} (load : Str → Str → Option (GroupDecl V)) (site : Site)
    (other_problems : Built V → List Problem) where
  pub validated-same :
      (b checked : Built V) → validated load site other_problems b ≡ resolved checked → checked ≡ b
  unfolding validated
  validated-same b checked e = ground (arith)

pub or_refused-some :
    {A : Type 0} (o : Option A) (r : Refusal) (a : A)
    → or_refused o (refused r) ≡ resolved a
    → o ≡ some a
or_refused-some none r a e = absurd (cc)
or_refused-some (some x) r a e = let same : x ≡ a = cc in ap some same

module _ {V : Type 0} (load : Str → Str → Option (GroupDecl V)) (site : Site)
    (other_problems : Built V → List Problem)
    (accepted : (dir name : Str) (def : GroupDecl V)
      → load dir name ≡ some def
      → HasKnownRefs def) where
  abbrev pub Builds : Type 0
  Builds = List Str → Str → Str → Ambient → GroupDecl V → Resolved (Expansion V)

  abbrev pub BuildsWell : Builds → Type 0
  BuildsWell inner =
      (stack : List Str) (dir namespace : Str) (a : Ambient) (def : GroupDecl V)
      → HasKnownRefs def
      → OnSuccess (IsExpanded def namespace) (inner stack dir namespace a def)

  -- What a checked scope exports may be offered; the vars set on its nodes leave its graph alone.
  offer :
      (def : GroupDecl V) (prefix : Str) (e : Expansion V) (b : Built V) (info : UseInfo)
      → HasKnownRefs def
      → IsExpanded def prefix e
      → b ≡ e.built
      → use_info (node_at b) b.graph prefix e.uses def.export ≡ resolved info
      → IsPlaced b.graph × IsInstance b.graph.nodes info
  offer def prefix e b info known x same offered =
      let x2 = subst (λ y. IsExpanded def prefix (record e { built = y })) (sym same) x in
      let (outs, ins) = export-IsKnown def prefix b.graph.nodes x2.present known.1 in
      (
        x2.placed,
        use_info-IsInstance prefix e.uses b.graph x2.instances (node_at b) def.export info outs ins
            offered,
      )

  pub resolve_use-IsOffer :
      (inner : Builds) (stack : List Str) (dir namespace : Str) (a : Ambient)
      (runtimes : List Runtime) (u : UseDecl V)
      → BuildsWell inner
      → OnSuccess IsOffer
          (resolve_use load site other_problems inner stack dir namespace a runtimes u)
  unfolding resolve_use
  resolve_use-IsOffer inner stack dir namespace a runtimes u well =
      let group = u.instance_use.group_name in
      let inside = site.join dir u.instance_use.source in
      let prefix = qualify_name namespace u.instance_use.instance_name in
      >>=-after IsOffer (push stack inside group) _ (λ next _.
        >>=-after IsOffer (or_refused (load inside group) (refused (no_group inside group))) _
          (λ def found.
            let known =
              accepted inside group def
                (or_refused-some (load inside group) (no_group inside group) def found) in
            >>=-OnSuccess (IsExpanded def prefix) IsOffer
              (inner next inside prefix (inside_use runtimes a u) def) _
              (well next inside prefix (inside_use runtimes a u) def known)
              (λ e x. >>=-after IsOffer (validated load site other_problems e.built) _ (λ b checked.
                >>=-after IsOffer (use_info (node_at b) b.graph prefix e.uses def.export) _
                  (λ info offered.
                    >>=-after IsOffer (apply_use_vars u.vars info.export.inputs (leaf_vars b.nodes))
                      _
                      (λ filled _.
                        offer def prefix e b info known x
                          (validated-same load site other_problems e.built b checked) offered))))))
