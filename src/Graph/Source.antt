-- ===== src/Graph/Source.antt =====
-- internal/graph/source.go and group.go: SourceNodes, the leaves of a blueprint with their names,
-- and `push`, which refuses a group that contains itself. `load` stands for loadGroupDef, which
-- reads and parses files, and `join` for filepath.Join. The copies of a node's other fields and
-- LegacyDir are left out.
pub mod Ends
use terragraph.Prelude.{
  ℕ, zero, suc, Bool, Str, bytes, List, [], ◌∷◌, ◌++◌, map, flatten, contains, Option, none, some,
  if◌then◌else◌,
}
use terragraph.Graph.{qualify_name}
use terragraph.Graph.Group.{
  Resolved, resolved, refused, circular_use, no_group, out_of_fuel, ◌>>=◌, map_resolved, assign_all,
}

-- blueprint.Node, as far as it is read here.
pub record SourceNode : Type 0 where
  pub name : Str
  pub source : Str
  pub backend_config : List (Str × Str)

-- blueprint.Use, as far as it is read here; `instance_name` is its `as`.
pub record Use : Type 0 where
  pub instance_name : Str
  pub group_name : Str
  pub source : Str
  pub backend_config : List (Str × Str)

-- The nodes and the uses of a blueprint or a group.
pub record Scope : Type 0 where
  pub nodes : List SourceNode
  pub uses : List Use

-- mergeEnv; the empty list is its nil.
unfoldable pub merge_env : List (Str × Str) → List (Str × Str) → List (Str × Str)
merge_env base override = assign_all override base

abbrev pub group_key : Str → Str → Str
group_key dir name = dir ++ bytes "::" ++ name

-- (*resolveContext).push
unfoldable pub push : List Str → Str → Str → Resolved (List Str)
push stack dir name =
    if contains (group_key dir name) stack
    then refused (circular_use (group_key dir name))
    else resolved (stack ++ group_key dir name ∷ [])

unfoldable pub leaf : Str → List (Str × Str) → SourceNode → SourceNode
leaf namespace ambient n = record n {
  name = qualify_name namespace n.name;
  backend_config = merge_env ambient n.backend_config;
}

abbrev pub found : Str → Str → Option Scope → Resolved Scope
found dir name none = refused (no_group dir name)
found dir name (some s) = resolved s

module _ (load : Str → Str → Option Scope) (join : Str → Str → Str) where
  -- sourceNodes, with at most `fuel` scopes inside one another.
  unfoldable pub source_nodes :
      ℕ → Str → Str → List (Str × Str) → List Str → Scope → Resolved (List SourceNode)
  source_nodes zero dir namespace ambient stack scope = refused out_of_fuel
  source_nodes (suc fuel) dir namespace ambient stack scope = do
    inner ←
        map_resolved
          (λ u. push stack (join dir u.source) u.group_name >>= λ next.
            found (join dir u.source) u.group_name (load (join dir u.source) u.group_name)
            >>= λ def.
                source_nodes fuel (join dir u.source) (qualify_name namespace u.instance_name)
                  (merge_env ambient u.backend_config) next def)
          scope.uses
    resolved (map (leaf namespace ambient) scope.nodes ++ flatten inner)
