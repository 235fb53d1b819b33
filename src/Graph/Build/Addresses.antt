-- ===== src/Graph/Build/Addresses.antt =====
-- internal/graph/build.go and backend_address.go: the backend settings of a node, the ones that are
-- written and the state keys that are generated.
use mathlib.Core.List.{append_cancel_left, append_cancel_right}
use terragraph.Prelude.{
  ◌≡◌, ◌≢◌, ◌≤◌, refl, sym, ap, ◌∙◌, subst, arith, true, false, ◌⊎◌, inl, inr, Bool, Bool-cases,
  Str, bytes, str_eq, str_eq_iff, List, [], ◌∷◌, ◌++◌, map, count, Option, none, some, is_nil,
  lookup, insert, lookup-insert, lookup-insert_other, if◌then◌else◌,
}
use terragraph.Graph.{qualify_name}
use terragraph.Graph.Group.{resolved, refused, not_inspected, assign_all}
use terragraph.Graph.Group.Success.{on_success, >>=-after}
use terragraph.Graph.Source.{merge_env}
use terragraph.Graph.Declared.{NodeDecl, GroupDecl}
use terragraph.Graph.Build.Settings.{
  Site, Inspected, BuiltNode, Ambient, or_nil, or_refused, binary_of, chosen_runtime, module_dir,
  merge_backend_address, address_key, fill_backend_address, fill_local_backend_path, resolve_node,
}

prefixed-injective :
    (b : Bool) (p x y : Str) → (if b then x else p ++ x) ≡ (if b then y else p ++ y) → x ≡ y
prefixed-injective true p x y e = e
prefixed-injective false p x y e = append_cancel_left p x y e

-- The name of a node can be read off the key of its state.
address_key-injective :
    (n m : Str) (address : List (Str × Str)) → address_key n address ≡ address_key m address → n ≡ m
unfolding address_key
address_key-injective n m address e =
    append_cancel_right n m (bytes "/")
      (append_cancel_right (n ++ bytes "/") (m ++ bytes "/") _ (prefixed-injective _ _ _ _ e))

fill_backend_address-key :
    (name : Str) (address : List (Str × Str)) (i : Inspected) (cfg c : List (Str × Str)) (k : Str)
    → fill_backend_address name address i cfg ≡ resolved c
    → lookup (bytes "key") cfg ≡ none
    → lookup (bytes "key") c ≡ some k
    → k ≡ address_key name address
unfolding fill_backend_address
fill_backend_address-key name address i cfg c k e none_yet there =
    ground (arith, lookup-insert (bytes "key") (address_key name address) cfg)

-- A setting that is there already stays.
fill_backend_address-kept :
    (name : Str) (address : List (Str × Str)) (i : Inspected) (cfg c : List (Str × Str)) (k v : Str)
    → fill_backend_address name address i cfg ≡ resolved c
    → lookup k cfg ≡ some v
    → lookup k c ≡ some v
unfolding fill_backend_address
fill_backend_address-kept name address i cfg c k v e there =
    elim (Bool-cases (str_eq k (bytes "key"))) [
      | inl t ↦
          subst (λ x. lookup x cfg ≡ some v → lookup x c ≡ some v)
            (sym ((str_eq_iff k (bytes "key")).0 t)) (λ h. ground (arith)) there
      | inr f ↦ ground (arith, lookup-insert_other (bytes "key") k (address_key name address) cfg f)
    ]

fill_local_backend_path-other :
    (state_path : Str → Str) (i : Inspected) (name : Str) (cfg : List (Str × Str)) (k : Str)
    → str_eq k (bytes "path") ≡ false
    → lookup k (fill_local_backend_path state_path i name cfg) ≡ lookup k cfg
unfolding fill_local_backend_path
fill_local_backend_path-other state_path i name cfg k f =
    ground (arith, lookup-insert_other (bytes "path") k (state_path name) cfg f)

fill_local_backend_path-kept :
    (state_path : Str → Str) (i : Inspected) (name : Str) (cfg : List (Str × Str)) (k v : Str)
    → lookup k cfg ≡ some v
    → is_nil v ≡ false
    → lookup k (fill_local_backend_path state_path i name cfg) ≡ some v
unfolding fill_local_backend_path
fill_local_backend_path-kept state_path i name cfg k v there full =
    elim (Bool-cases (str_eq k (bytes "path"))) [
      | inl t ↦
          subst
            (λ x.
              lookup x cfg ≡ some v
              → lookup x (fill_local_backend_path state_path i name cfg) ≡ some v)
            (sym ((str_eq_iff k (bytes "path")).0 t)) (λ h. ground (arith)) there
      | inr f ↦ fill_local_backend_path-other state_path i name cfg k f ∙ there
    ]

-- A map holds each key once.
abbrev IsMap : List (Str × Str) → Type 0
IsMap m = (k : Str) → count k (map (λ e. e.0) m) ≤ 1

lookup-assign_all_other :
    (k : Str) (es m : List (Str × Str))
    → lookup k es ≡ none
    → lookup k (assign_all es m) ≡ lookup k m
unfolding assign_all lookup
lookup-assign_all_other k [] m h = refl
lookup-assign_all_other k (e ∷ es) m h =
    lookup-assign_all_other k es (insert e.0 e.1 m) (ground (arith))
    ∙ lookup-insert_other e.0 k e.1 m (ground (arith))

absent : (k : Str) (es : List (Str × Str)) → count k (map (λ e. e.0) es) ≡ 0 → lookup k es ≡ none
unfolding lookup count
absent k [] h = refl
absent k (e ∷ es) h = ground (arith, absent k es, str_eq_iff k e.0, str_eq_iff e.0 k)

lookup-assign_all :
    (k v : Str) (es m : List (Str × Str))
    → IsMap es
    → lookup k es ≡ some v
    → lookup k (assign_all es m) ≡ some v
unfolding assign_all lookup count
lookup-assign_all k v [] m once h = absurd (cc)
lookup-assign_all k v (e ∷ es) m once h = elim (Bool-cases (str_eq k e.0)) [
  | inl t ↦
      lookup-assign_all_other k es (insert e.0 e.1 m)
        (absent k es (let one = once k in ground (arith, str_eq_iff k e.0, str_eq_iff e.0 k)))
      ∙ subst (λ x. lookup x (insert e.0 e.1 m) ≡ some e.1) (sym ((str_eq_iff k e.0).0 t))
          (lookup-insert e.0 e.1 m)
      ∙ ground (arith)
  | inr f ↦
      lookup-assign_all k v es (insert e.0 e.1 m) (λ j. let one = once j in ground (arith))
        (ground (arith))
]

module _ {V : Type 0} (site : Site) (a : Ambient) (dir namespace : Str) (def : GroupDecl V)
    (n : NodeDecl V) where
  -- The settings before a key or a path is made for them.
  abbrev given : List (Str × Str)
  given = merge_env a.backend_config n.leaf.backend_config

  abbrev address : Option (List (Str × Str))
  address = merge_backend_address a.backend_address n.backend_address

  -- A resolved node has the settings that the two steps behind the merge leave.
  abbrev IsFilled : BuiltNode V → Type 0
  IsFilled b =
      (i : Inspected) × (cfg : List (Str × Str)) × (fill_backend_address b.leaf.name
          (or_nil address) i given
        ≡ resolved cfg)
      × (b.leaf.backend_config ≡ fill_local_backend_path site.state_path i b.leaf.name cfg)

  resolve_node-IsFilled :
      (b : BuiltNode V) → resolve_node site a dir namespace def n ≡ resolved b → IsFilled b
  unfolding resolve_node
  resolve_node-IsFilled b e =
      let name = qualify_name namespace n.leaf.name in
      let runtime = chosen_runtime def.runtimes a.runtime n.runtime in
      on_success IsFilled (resolve_node site a dir namespace def n) b
        (>>=-after IsFilled (module_dir site dir def.vendor namespace n.leaf) _ (λ files _.
          >>=-after IsFilled
            (or_refused (site.inspect files (binary_of site runtime))
              (refused (not_inspected name)))
            _
            (λ i _.
              >>=-after IsFilled (fill_backend_address name (or_nil address) i given) _
                (λ cfg filled. (i, cfg, filled, refl)))))
        e

  given-lookup :
      (k v : Str)
      → IsMap n.leaf.backend_config
      → (lookup k n.leaf.backend_config ≡ some v)
        ⊎ ((lookup k n.leaf.backend_config ≡ none) × (lookup k a.backend_config ≡ some v))
      → lookup k given ≡ some v
  unfolding merge_env
  given-lookup k v once (inl own) =
      lookup-assign_all k v n.leaf.backend_config a.backend_config once own
  given-lookup k v once (inr (free, inherited)) =
      lookup-assign_all_other k n.leaf.backend_config a.backend_config free ∙ inherited

  -- A backend setting that is written, and not empty, reaches the node as it is: one that the node
  -- sets, and one that the scopes around it hand down for a key that the node does not set. What
  -- is generated takes the place of neither. The settings of the node name each key once.
  pub resolve_node-kept :
      (b : BuiltNode V) (k v : Str)
      → resolve_node site a dir namespace def n ≡ resolved b
      → IsMap n.leaf.backend_config
      → (lookup k n.leaf.backend_config ≡ some v)
        ⊎ ((lookup k n.leaf.backend_config ≡ none) × (lookup k a.backend_config ≡ some v))
      → is_nil v ≡ false
      → lookup k b.leaf.backend_config ≡ some v
  resolve_node-kept b k v e once written full =
      let (i, cfg, filled, same) = resolve_node-IsFilled b e in
      let kept =
        fill_backend_address-kept b.leaf.name (or_nil address) i given cfg k v filled
          (given-lookup k v once written) in
      ap (lookup k) same
      ∙ fill_local_backend_path-kept site.state_path i b.leaf.name cfg k v kept full

  key-generated :
      (b : BuiltNode V) (k : Str)
      → resolve_node site a dir namespace def n ≡ resolved b
      → lookup (bytes "key") given ≡ none
      → lookup (bytes "key") b.leaf.backend_config ≡ some k
      → k ≡ address_key b.leaf.name (or_nil address)
  unfolding str_eq
  key-generated b k e free there =
      let (i, cfg, filled, same) = resolve_node-IsFilled b e in
      fill_backend_address-key b.leaf.name (or_nil address) i given cfg k filled free (
        sym (fill_local_backend_path-other site.state_path i b.leaf.name cfg (bytes "key") refl)
        ∙ sym (ap (lookup (bytes "key")) same)
        ∙ there)

-- Generated state keys are not shared: two nodes with different names in the graph, of any scopes
-- and groups, under the same address rule and with no key written for them, never get the same
-- key.
pub resolve_node-apart :
    {V : Type 0} (site : Site) (a a2 : Ambient) (dir dir2 namespace namespace2 : Str)
    (def def2 : GroupDecl V) (n n2 : NodeDecl V) (b b2 : BuiltNode V) (k k2 : Str)
    → resolve_node site a dir namespace def n ≡ resolved b
    → resolve_node site a2 dir2 namespace2 def2 n2 ≡ resolved b2
    → b.leaf.name ≢ b2.leaf.name
    → merge_backend_address a.backend_address n.backend_address
      ≡ merge_backend_address a2.backend_address n2.backend_address
    → lookup (bytes "key") (merge_env a.backend_config n.leaf.backend_config) ≡ none
    → lookup (bytes "key") (merge_env a2.backend_config n2.leaf.backend_config) ≡ none
    → lookup (bytes "key") b.leaf.backend_config ≡ some k
    → lookup (bytes "key") b2.leaf.backend_config ≡ some k2
    → k ≢ k2
resolve_node-apart site a a2 dir dir2 namespace namespace2 def def2 n n2 b b2 k k2 e e2 differ rule
      free free2 here here2 same =
    differ (
      address_key-injective b.leaf.name b2.leaf.name _ (
        sym (key-generated site a dir namespace def n b k e free here)
        ∙ same
        ∙ key-generated site a2 dir2 namespace2 def2 n2 b2 k2 e2 free2 here2
        ∙ ap (λ r. address_key b2.leaf.name (or_nil r)) (sym rule)))
