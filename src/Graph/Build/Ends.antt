-- ===== src/Graph/Build/Ends.antt =====
-- internal/graph/build.go: Build ends on every blueprint, also when a group contains itself.
use terragraph.Prelude.{
  ℕ, zero, suc, ◌+◌, ◌≡◌, arith, true, ◌++◌, if_elim, any, Str, List, [], contains, count, length,
  length-le_of_count, Option, none, some, All,
}
use terragraph.Blueprint.{is_remote}
use terragraph.Graph.{qualify_name}
use terragraph.Graph.Validate.{Problem, is_error, wiring_problems}
use terragraph.Graph.Group.{
  Resolved, refused, no_group, not_inspected, not_vendored, map_resolved, use_info, expand_edges,
}
use terragraph.Graph.Group.Ends.{
  loop-HasEnded, use_info-HasEnded, apply_use_vars-HasEnded, expand_edges-HasEnded,
}
use terragraph.Graph.Group.Vars.{apply_use_vars}
use terragraph.Graph.Source.{group_key, push, SourceNode, merge_env}
use terragraph.Graph.Source.Ends.{
  HasEnded, >>=-HasEnded, map_resolved-HasEnded, push-HasEnded, push-IsStack, IsStack,
}
use terragraph.Graph.Declared.{NodeDecl, UseDecl, GroupDecl, Runtime}
use terragraph.Graph.Build.Settings.{
  Site, Inspected, Ambient, module_dir, resolve_node, inside_use, or_refused, binary_of,
  chosen_runtime, fill_backend_address, or_nil, merge_backend_address,
}
use terragraph.Graph.Build.{
  Built, Expansion, nothing_built, place_nodes, splice_all, instance_infos, node_at, leaf_vars,
  validated, resolve_use, build_scope, build, build_root,
}
use terragraph.Graph.Build.Instances.{or_refused-some}

fill_backend_address-HasEnded :
    (name : Str) (address : List (Str × Str)) (i : Inspected) (cfg : List (Str × Str))
    → HasEnded (fill_backend_address name address i cfg)
unfolding fill_backend_address
fill_backend_address-HasEnded name address i cfg = λ e. ground (arith)

or_refused-HasEnded :
    {A : Type 0} (o : Option A) (r : Resolved A) → HasEnded r → HasEnded (or_refused o r)
or_refused-HasEnded none r h = h
or_refused-HasEnded (some a) r h = λ e. cc

module_dir-HasEnded :
    (site : Site) (dir vendor namespace : Str) (n : SourceNode)
    → HasEnded (module_dir site dir vendor namespace n)
unfolding module_dir
module_dir-HasEnded site dir vendor namespace n =
    if_elim (λ (m : Resolved Str). HasEnded m) (is_remote n.source)
      (λ _.
        or_refused-HasEnded (site.remote_dir dir vendor (qualify_name namespace n.name) n.name)
          (refused (not_vendored (qualify_name namespace n.name))) (λ e. cc))
      (λ _ e. cc)

module _ {V : Type 0} (load : Str → Str → Option (GroupDecl V)) (site : Site)
    (other_problems : Built V → List Problem) where
  resolve_node-HasEnded :
      (a : Ambient) (dir namespace : Str) (def : GroupDecl V) (n : NodeDecl V)
      → HasEnded (resolve_node site a dir namespace def n)
  unfolding resolve_node
  resolve_node-HasEnded a dir namespace def n =
      let name = qualify_name namespace n.leaf.name in
      >>=-HasEnded (module_dir site dir def.vendor namespace n.leaf) _
        (module_dir-HasEnded site dir def.vendor namespace n.leaf)
        (λ files _.
          let found =
            site.inspect files (binary_of site (chosen_runtime def.runtimes a.runtime n.runtime)) in
          >>=-HasEnded (or_refused found (refused (not_inspected name))) _
            (or_refused-HasEnded found (refused (not_inspected name)) (λ e. cc))
            (λ i _.
              let address = or_nil (merge_backend_address a.backend_address n.backend_address) in
              let cfg = merge_env a.backend_config n.leaf.backend_config in
              >>=-HasEnded (fill_backend_address name address i cfg) _
                (fill_backend_address-HasEnded name address i cfg) (λ filled _ e. cc)))

  validated-HasEnded : (b : Built V) → HasEnded (validated load site other_problems b)
  unfolding validated
  validated-HasEnded b =
      if_elim (λ (m : Resolved (Built V)). HasEnded m)
        (any is_error (wiring_problems (node_at b) b.graph ++ other_problems b)) (λ _ e. cc)
        (λ _ e. cc)

  module _ (known : List Str) where
    -- The keys of the groups that a scope in that directory uses are among the known ones.
    abbrev pub UsesKnown : Str → GroupDecl V → Type 0
    UsesKnown dir def =
        All
          (λ u.
            contains (group_key (site.join dir u.instance_use.source) u.instance_use.group_name)
              known
            ≡ true)
          def.uses

    module _
        (closed : (at name : Str) (def : GroupDecl V)
          → load at name ≡ some def
          → UsesKnown at def) where
      -- A scope inside as many others as the stack has entries can be expanded on that fuel.
      abbrev Ends :
          (List Str → Str → Str → Ambient → GroupDecl V → Resolved (Expansion V)) → ℕ → Type 0
      Ends inner fuel =
          (stack : List Str) (dir namespace : Str) (a : Ambient) (def : GroupDecl V)
          → fuel + length stack ≡ suc (length known)
          → IsStack known stack
          → UsesKnown dir def
          → HasEnded (inner stack dir namespace a def)

      resolve_use-HasEnded :
          (inner : List Str → Str → Str → Ambient → GroupDecl V → Resolved (Expansion V)) (fuel : ℕ)
          (stack : List Str) (dir namespace : Str) (a : Ambient) (runtimes : List Runtime)
          (u : UseDecl V)
          → Ends inner fuel
          → suc fuel + length stack ≡ suc (length known)
          → IsStack known stack
          → contains
              (group_key (site.join dir u.instance_use.source) u.instance_use.group_name)
              known
            ≡ true
          → HasEnded (resolve_use load site other_problems inner stack dir namespace a runtimes u)
      unfolding resolve_use
      resolve_use-HasEnded inner fuel stack dir namespace a runtimes u ends enough fits here =
          let group = u.instance_use.group_name in
          let inside = site.join dir u.instance_use.source in
          let prefix = qualify_name namespace u.instance_use.instance_name in
          >>=-HasEnded (push stack inside group) _ (push-HasEnded stack inside group)
            (λ next pushed.
              let grown = push-IsStack known stack inside group next fits here pushed in
              let missing : Resolved (GroupDecl V) = refused (no_group inside group) in
              >>=-HasEnded (or_refused (load inside group) missing) _
                (or_refused-HasEnded (load inside group) missing (λ e. cc))
                (λ def there.
                  let loaded =
                    or_refused-some (load inside group) (no_group inside group) def there in
                  >>=-HasEnded (inner next inside prefix (inside_use runtimes a u) def) _
                    (ends next inside prefix (inside_use runtimes a u) def
                      (omega (arith, enough, grown.1)) grown.0 (closed inside group def loaded))
                    (λ x _.
                      >>=-HasEnded (validated load site other_problems x.built) _
                        (validated-HasEnded x.built)
                        (λ b _.
                          >>=-HasEnded (use_info (node_at b) b.graph prefix x.uses def.export) _
                            (use_info-HasEnded (node_at b) b.graph prefix x.uses def.export)
                            (λ info _.
                              >>=-HasEnded
                                (apply_use_vars u.vars info.export.inputs (leaf_vars b.nodes)) _
                                (apply_use_vars-HasEnded u.vars info.export.inputs
                                  (leaf_vars b.nodes))
                                (λ filled _ e. cc))))))

      build-Ends : (fuel : ℕ) → Ends (build load site other_problems fuel) fuel
      unfolding build build_scope
      build-Ends zero stack dir namespace a def enough fits here =
          absurd (omega (arith, enough, length-le_of_count stack known fits))
      build-Ends (suc fuel) stack dir namespace a def enough fits here =
          let inner = build load site other_problems fuel in
          >>=-HasEnded (map_resolved (resolve_node site a dir namespace def) def.nodes) _
            (loop-HasEnded (resolve_node site a dir namespace def) def.nodes
              (resolve_node-HasEnded a dir namespace def))
            (λ ns _.
              >>=-HasEnded
                (map_resolved
                  (resolve_use load site other_problems inner stack dir namespace a def.runtimes)
                  def.uses)
                _
                (map_resolved-HasEnded
                  (λ u.
                    contains
                      (group_key (site.join dir u.instance_use.source) u.instance_use.group_name)
                      known
                    ≡ true)
                  (resolve_use load site other_problems inner stack dir namespace a def.runtimes)
                  def.uses
                  (λ u k.
                    resolve_use-HasEnded inner fuel stack dir namespace a def.runtimes u
                      (build-Ends fuel) enough fits k)
                  here)
                (λ is _.
                  let b : Built V = splice_all (place_nodes nothing_built ns) is in
                  >>=-HasEnded (expand_edges namespace (instance_infos is) def.edges b.graph) _
                    (expand_edges-HasEnded namespace (instance_infos is) def.edges b.graph)
                    (λ graph _ e. cc)))

      -- Build ends on every blueprint, with a graph or with a refusal of the code's own, also when
      -- a group contains itself: as many scopes inside one another as there are groups to use, and
      -- the blueprint's own, are enough, when the groups that the blueprint and every loaded group
      -- use are among the known ones.
      pub build_root-ends :
          (dir : Str) (def : GroupDecl V)
          → UsesKnown dir def
          → HasEnded (build_root load site other_problems (suc (length known)) dir def)
      unfolding build_root count
      build_root-ends dir def here =
          >>=-HasEnded (build load site other_problems (suc (length known)) [] dir [] _ def) _
            (build-Ends (suc (length known)) [] dir [] _ def (omega arith) (λ k. omega arith) here)
            (λ x _ e. cc)
