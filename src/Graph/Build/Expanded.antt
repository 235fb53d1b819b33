-- ===== src/Graph/Build/Expanded.antt =====
-- internal/graph/build.go: the references of a scope that the parser has accepted lead to nodes of
-- its graph, and what a well-formed scope is.
use terragraph.Prelude.{
  ◌≡◌, refl, subst, arith, Bool, true, ◌&&◌, if_elim, Bool-cases, inl, inr, Str, List, [], ◌∷◌, map,
  str_eq, str_eq_iff, contains, All, All-map, all, insert,
}
use terragraph.Blueprint.{PortRef, is_port}
use terragraph.Graph.{qualify_name}
use terragraph.Graph.Group.{
  Resolved, refused, UseInfo, not_inspected, ExportOutput, map_resolved, assign_all,
}
use terragraph.Graph.Group.Success.{OnSuccess, >>=-OnSuccess, >>=-after}
use terragraph.Graph.Group.Edges.{IsLeaf, IsInstance, IsKnown}
use terragraph.Graph.Source.{merge_env}
use terragraph.Graph.Declared.{
  NodeDecl, GroupDecl, node_names, use_names, validate_endpoint_known, is_known, input_known,
  output_known, validate_edges, validate_export,
}
use terragraph.Graph.Build.Settings.{
  Site, BuiltNode, Ambient, resolve_node, or_refused, module_dir, chosen_runtime, binary_of,
  fill_backend_address, or_nil, merge_backend_address,
}
use terragraph.Graph.Build.{Expansion, Instance}
use terragraph.Graph.Build.Splice.{IsPlaced, IsWithin}

-- What follows for each entry from a Boolean test that all of them pass.
All-of_all :
    {A : Type 0} (p : A → Bool) (Q : A → Type 0) (xs : List A)
    → ((x : A) → p x ≡ true → Q x)
    → all p xs ≡ true
    → All Q xs
All-of_all p Q [] f h = tt
All-of_all p Q (x ∷ xs) f h = (f x (ground (arith)), All-of_all p Q xs f (ground (arith)))

IsLeaf-within :
    (xs ys : List Str) (port : Bool) (ref : PortRef)
    → IsWithin xs ys
    → IsLeaf xs port ref
    → IsLeaf ys port ref
IsLeaf-within xs ys port ref w l = record {
  entity = l.entity;
  here = w ref.node l.here;
  kind = l.kind;
}

pub IsInstance-widen :
    (xs ys : List Str) (info : UseInfo) → IsWithin xs ys → IsInstance xs info → IsInstance ys info
IsInstance-widen xs ys info w i = record {
  outputs = All-map info.export.outputs (λ o. IsLeaf-within xs ys true o.from w) i.outputs;
  inputs =
      All-map info.export.inputs (λ x. All-map x.to (λ ref. IsLeaf-within xs ys true ref w))
        i.inputs;
  roots = All-map info.roots (λ n. w n) i.roots;
  sinks = All-map info.sinks (λ n. w n) i.sinks;
}

-- The loop over the nodes of a scope gives each the name it was asked for.
pub map_resolved-names :
    {A B : Type 0} (g : B → Str) (h : A → Str) (f : A → Resolved B) (xs : List A)
    → ((x : A) → OnSuccess (λ y. g y ≡ h x) (f x))
    → OnSuccess (λ ys. map g ys ≡ map h xs) (map_resolved f xs)
unfolding map_resolved
map_resolved-names g h f [] step = refl
map_resolved-names g h f (x ∷ xs) step =
    >>=-OnSuccess (λ y. g y ≡ h x) (λ ys. map g ys ≡ map h (x ∷ xs)) (f x) _ (step x)
      (λ y e.
        >>=-OnSuccess (λ ys. map g ys ≡ map h xs) (λ ys. map g ys ≡ map h (x ∷ xs))
          (map_resolved f xs) _ (map_resolved-names g h f xs step)
          (λ ys r. let both : g y ∷ map g ys ≡ h x ∷ map h xs = cc in both))

insert-All :
    {A : Type 0} (P : A → Type 0) (k : Str) (a : A) (m : List (Str × A))
    → P a
    → All (λ e. P e.1) m
    → All (λ e. P e.1) (insert k a m)
unfolding insert
insert-All P k a [] h rest = (h, tt)
insert-All {A} P k a (e ∷ m) h rest =
    if_elim (λ (l : List (Str × A)). All (λ x. P x.1) l) (str_eq k e.0) (λ _. (h, rest.1))
      (λ _. (rest.0, insert-All P k a m h rest.1))

pub assign_all-All :
    {A : Type 0} (P : A → Type 0) (es m : List (Str × A))
    → All (λ e. P e.1) es
    → All (λ e. P e.1) m
    → All (λ e. P e.1) (assign_all es m)
unfolding assign_all
assign_all-All P [] m h k = k
assign_all-All P (e ∷ es) m h k =
    assign_all-All P es (insert e.0 e.1 m) h.1 (insert-All P e.0 e.1 m h.0 k)

-- What holds under the name of each entry holds of every name among them.
contains-map_All :
    {A : Type 0} (g : A → Str) (P : Str → Type 0) (n : Str) (xs : List A)
    → contains n (map g xs) ≡ true
    → All (λ x. P (g x)) xs
    → P n
unfolding contains
contains-map_All g P n [] h k = absurd (cc)
contains-map_All g P n (x ∷ xs) h k = elim (Bool-cases (str_eq (g x) n)) [
  | inl e ↦ subst P ((str_eq_iff (g x) n).0 e) k.0
  | inr e ↦ contains-map_All g P n xs (ground (arith)) k.1
]

-- The reference leads to a port, of a known node where it names a node.
abbrev IsKnownRef : Str → List Str → PortRef → Type 0
IsKnownRef namespace names ref = IsKnown names namespace ref × (is_port ref ≡ true)

module _ {V : Type 0} where
  -- The parser has accepted the references of the scope.
  abbrev pub HasKnownRefs : GroupDecl V → Type 0
  HasKnownRefs def = (validate_edges def ≡ true) × (validate_export def ≡ true)

  -- The scope's own nodes are among the names.
  abbrev pub HasNodes : GroupDecl V → Str → List Str → Type 0
  HasNodes def namespace names =
      All (λ n. contains (qualify_name namespace n.leaf.name) names ≡ true) def.nodes

  endpoint-IsKnown :
      (def : GroupDecl V) (namespace : Str) (names : List Str) (ref : PortRef)
      → HasNodes def namespace names
      → validate_endpoint_known (node_names def) (use_names def) ref ≡ true
      → IsKnown names namespace ref
  unfolding validate_endpoint_known
  endpoint-IsKnown def namespace names ref here h e =
      contains-map_All (λ n. n.leaf.name) (λ x. contains (qualify_name namespace x) names ≡ true)
        ref.node def.nodes (rw e at h) here

  pub edges-IsKnown :
      (def : GroupDecl V) (namespace : Str) (names : List Str)
      → HasNodes def namespace names
      → validate_edges def ≡ true
      → All (λ e. IsKnown names namespace e.from × IsKnown names namespace e.to) def.edges
  unfolding validate_edges
  edges-IsKnown def namespace names here =
      All-of_all (λ e. is_known def e.from && is_known def e.to) _ def.edges
        (λ e k. (
          endpoint-IsKnown def namespace names e.from here (ground (arith)),
          endpoint-IsKnown def namespace names e.to here (ground (arith)),
        ))

  input-known :
      (def : GroupDecl V) (namespace : Str) (names : List Str) (ref : PortRef)
      → HasNodes def namespace names
      → input_known def ref ≡ true
      → IsKnownRef namespace names ref
  unfolding is_port
  input-known def namespace names ref here k =
      (endpoint-IsKnown def namespace names ref here (ground (arith)), ground (arith))

  output-known :
      (def : GroupDecl V) (namespace : Str) (names : List Str) (o : ExportOutput)
      → HasNodes def namespace names
      → output_known def o ≡ true
      → IsKnownRef namespace names o.from
  unfolding is_port
  output-known def namespace names o here k =
      (endpoint-IsKnown def namespace names o.from here (ground (arith)), ground (arith))

  pub export-IsKnown :
      (def : GroupDecl V) (namespace : Str) (names : List Str)
      → HasNodes def namespace names
      → validate_export def ≡ true
      → All (λ o. IsKnownRef namespace names o.from) def.export.outputs
        × All (λ i. All (IsKnownRef namespace names) i.to) def.export.inputs
  unfolding validate_export
  export-IsKnown def namespace names here h = (
    All-of_all (output_known def) _ def.export.outputs
        (λ o. output-known def namespace names o here) (ground (arith)),
    All-of_all (λ i. all (input_known def) i.to) _ def.export.inputs
        (λ i. All-of_all (input_known def) _ i.to (λ ref. input-known def namespace names ref here))
        (ground (arith)),
  )

  -- A scope that has been expanded: its graph, its instances, and its own nodes in it.
  pub record IsExpanded (def : GroupDecl V) (namespace : Str) (e : Expansion V) : Type 0 where
    pub placed : IsPlaced e.built.graph
    pub instances : All (λ u. IsInstance e.built.graph.nodes u.1) e.uses
    pub present : HasNodes def namespace e.built.graph.nodes

  -- An instance that may be spliced in.
  abbrev pub IsOffer : Instance V → Type 0
  IsOffer i = IsPlaced i.internal.graph × IsInstance i.internal.graph.nodes i.info

  pub resolve_node-named :
      (site : Site) (a : Ambient) (dir namespace : Str) (def : GroupDecl V) (n : NodeDecl V)
      → OnSuccess
          (λ b. b.leaf.name ≡ qualify_name namespace n.leaf.name)
          (resolve_node site a dir namespace def n)
  unfolding resolve_node
  resolve_node-named site a dir namespace def n =
      let Named : BuiltNode V → Type 0 = λ b. b.leaf.name ≡ qualify_name namespace n.leaf.name in
      let name = qualify_name namespace n.leaf.name in
      >>=-after Named (module_dir site dir def.vendor namespace n.leaf) _ (λ files _.
        >>=-after Named
          (or_refused
            (site.inspect files (binary_of site (chosen_runtime def.runtimes a.runtime n.runtime)))
            (refused (not_inspected name)))
          _
          (λ i _.
            >>=-after Named
              (fill_backend_address name
                (or_nil (merge_backend_address a.backend_address n.backend_address)) i
                (merge_env a.backend_config n.leaf.backend_config))
              _ (λ cfg _. refl)))
