-- ===== src/Graph/Build/Settings.antt =====
-- internal/graph/build.go and backend_address.go: the settings of one node, as they come down from
-- the scopes around it. The files are outside, the record `Site`: `inspect` stands for the
-- inspection of a directory in the file mode of a binary, `remote_dir` for remoteModuleDir, `join`
-- for filepath.Join, and `state_path` for the file that a local state has by default. Maps are
-- association lists.
use terragraph.Prelude.{
  Bool, true, false, not, ◌||◌, Str, bytes, str_eq, List, [], ◌∷◌, ◌++◌, Option, none, some,
  if◌then◌else◌, is_nil, lookup, insert, contains,
}
use terragraph.Blueprint.{is_remote}
use terragraph.Engine.Approve.{Approve, unset}
use terragraph.Module.{Schema}
use terragraph.Graph.{qualify_name}
use terragraph.Graph.Group.{
  Resolved, resolved, refused, not_vendored, not_inspected, address_unknown, ◌>>=◌,
}
use terragraph.Graph.Source.{SourceNode, merge_env}
use terragraph.Graph.Declared.{Runtime, NodeDecl, UseDecl, GroupDecl}

-- module.Schema, with what the module says of its backend; `none` for attributes that could not be
-- read.
pub record Inspected : Type 0 where
  pub schema : Schema
  pub backend : Str
  pub backend_config : List (Str × Str)
  pub backend_attributes : Option (List Str)

-- graph.Node
pub record BuiltNode (V : Type 0) : Type 0 where
  pub leaf : SourceNode
  pub dir : Str
  pub inspected : Inspected
  pub runtime : Option Runtime
  pub env : List (Str × Str)
  pub approve : Approve
  pub vars : List (Str × V)
  pub inputs : List Str

-- What a scope hands down to its nodes and to the scopes inside it.
pub record Ambient : Type 0 where
  pub runtime : Option Runtime
  pub env : List (Str × Str)
  pub backend_config : List (Str × Str)
  pub backend_address : Option (List (Str × Str))
  pub approve : Approve

-- The zero Runtime.
abbrev no_runtime : Runtime
no_runtime = record { name = []; binary = [] }

unfoldable pub runtime_for : List Runtime → Str → Runtime
runtime_for [] name = no_runtime
runtime_for (r ∷ rs) name = let rest = runtime_for rs name in if str_eq r.name name then r else rest

-- A name that is set wins over what is handed down.
abbrev pub chosen_runtime : List Runtime → Option Runtime → Str → Option Runtime
chosen_runtime rs ambient name = if is_nil name then ambient else some (runtime_for rs name)

abbrev chosen_approve : Approve → Approve → Approve
chosen_approve ambient unset = ambient
chosen_approve ambient level = level

abbrev pub or_nil : Option (List (Str × Str)) → List (Str × Str)
or_nil none = []
or_nil (some m) = m

abbrev nil_of_empty : List (Str × Str) → Option (List (Str × Str))
nil_of_empty [] = none
nil_of_empty (e ∷ m) = some (e ∷ m)

-- mergeBackendAddress: an empty map that is not nil stops what is handed down.
unfoldable pub merge_backend_address :
    Option (List (Str × Str)) → Option (List (Str × Str)) → Option (List (Str × Str))
unfolding merge_env
merge_backend_address base (some []) = some []
merge_backend_address base override = nil_of_empty (merge_env (or_nil base) (or_nil override))

-- The value of a map of strings, which is empty where there is none.
abbrev value_at : Str → List (Str × Str) → Str
value_at k m = elim (lookup k m) [ none ↦ [] | some v ↦ v ]

abbrev has_key : Str → List (Str × Str) → Bool
has_key k m = elim (lookup k m) [ none ↦ false | some v ↦ true ]

abbrev has_attribute : Str → Option (List Str) → Bool
has_attribute k none = false
has_attribute k (some ks) = contains k ks

-- strings.TrimSuffix of a slash.
trim_slash : Str → Str
trim_slash [] = []
trim_slash (c ∷ []) = if str_eq (c ∷ []) (bytes "/") then [] else c ∷ []
trim_slash (c ∷ d ∷ rest) = c ∷ trim_slash (d ∷ rest)

-- The key of the state that is generated for a node.
unfoldable pub address_key : Str → List (Str × Str) → Str
unfolding trim_slash
address_key name address =
    let given = value_at (bytes "s3_key_name") address in
    let key = name ++ bytes "/" ++ (if is_nil given then bytes "terraform.tfstate" else given) in
    let prefix = value_at (bytes "s3_key_prefix") address in
    if is_nil prefix then key else trim_slash prefix ++ bytes "/" ++ key

-- fillBackendAddress: what it leaves in the node's backend_config.
unfoldable pub fill_backend_address :
    Str → List (Str × Str) → Inspected → List (Str × Str) → Resolved (List (Str × Str))
fill_backend_address name address i cfg =
    if is_nil address || not (str_eq i.backend (bytes "s3"))
    then resolved cfg
    else if has_key (bytes "key") cfg
    then resolved cfg
    else if has_key (bytes "key") i.backend_config
        || has_attribute (bytes "key") i.backend_attributes
    then resolved cfg
    else elim i.backend_attributes [
      | none ↦ refused (address_unknown name)
      | some ks ↦ resolved (insert (bytes "key") (address_key name address) cfg)
    ]

-- fillLocalBackendPath
unfoldable pub fill_local_backend_path :
    (Str → Str) → Inspected → Str → List (Str × Str) → List (Str × Str)
fill_local_backend_path state_path i name cfg =
    if not (str_eq i.backend (bytes "local"))
    then cfg
    else if not (is_nil (value_at (bytes "path") cfg))
    then cfg
    else insert (bytes "path") (state_path name) cfg

abbrev pub or_refused : {A : Type 0} → Option A → Resolved A → Resolved A
or_refused none r = r
or_refused (some a) r = resolved a

-- What Build meets: the file system, and the binary that is used where no runtime is chosen.
pub record Site : Type 0 where
  pub join : Str → Str → Str
  pub inspect : Str → Str → Option Inspected
  pub remote_dir : Str → Str → Str → Str → Option Str
  pub state_path : Str → Str
  pub fallback : Str

abbrev pub binary_of : Site → Option Runtime → Str
binary_of site none = site.fallback
binary_of site (some r) = r.binary

-- The directory of a node's files.
unfoldable pub module_dir : Site → Str → Str → Str → SourceNode → Resolved Str
module_dir site dir vendor namespace n =
    if is_remote n.source
    then or_refused (site.remote_dir dir vendor (qualify_name namespace n.name) n.name)
        (refused (not_vendored (qualify_name namespace n.name)))
    else resolved (site.join dir n.source)

module _ {V : Type 0} where
  -- What is handed down to the instance of a `use`.
  unfoldable pub inside_use : List Runtime → Ambient → UseDecl V → Ambient
  inside_use runtimes a u = record {
    runtime = chosen_runtime runtimes a.runtime u.runtime;
    env = merge_env a.env u.env;
    backend_config = merge_env a.backend_config u.instance_use.backend_config;
    backend_address = merge_backend_address a.backend_address u.backend_address;
    approve = chosen_approve a.approve u.approve;
  }

  -- One round of the loop of build over the nodes of a scope.
  unfoldable pub resolve_node :
      Site → Ambient → Str → Str → GroupDecl V → NodeDecl V → Resolved (BuiltNode V)
  resolve_node site a dir namespace def n = do
    let name = qualify_name namespace n.leaf.name
    let runtime = chosen_runtime def.runtimes a.runtime n.runtime
    files ← module_dir site dir def.vendor namespace n.leaf
    i ← or_refused (site.inspect files (binary_of site runtime)) (refused (not_inspected name))
    cfg ←
        fill_backend_address name
          (or_nil (merge_backend_address a.backend_address n.backend_address)) i
          (merge_env a.backend_config n.leaf.backend_config)
    resolved (record {
      leaf = record n.leaf {
        name = name;
        backend_config = fill_local_backend_path site.state_path i name cfg;
      };
      dir = files;
      inspected = i;
      runtime = runtime;
      env = merge_env a.env n.env;
      approve = chosen_approve a.approve n.approve;
      vars = n.vars;
      inputs = n.inputs;
    })
