-- ===== src/Graph/Group/Edges.antt =====
-- internal/graph/group.go: what a rewritten edge joins. References to instances are gone, every
-- end is a node of the expanded graph, and data edges stay data edges.
use terragraph.Prelude.{
  ◌≡◌, refl, Bool, true, false, not, if◌then◌else◌, ◌&&◌, Str, List, [], ◌∷◌, map, length, ltb,
  contains, All, All-append, str_eq, lookup, if_elim, inl, inr, subst, some, Bool-cases,
  Option-cases,
}
use terragraph.Blueprint.{Edge, EntityKind, PortKind, PortRef, is_port, is_data_edge}
use terragraph.Graph.{qualify_name}
use terragraph.Graph.Group.Success.{OnSuccess, on_success, >>=-OnSuccess}
use terragraph.Graph.Group.{
  ExportInput, ExportOutput, UseInfo, Resolved, resolved, ◌>>=◌, output_port, input_ports, exported,
  qualified, bare_ref, instance_of, rewrite_endpoint, product, pairs_of, rewrite_edge,
}

pub entity_elim {ℓ} :
    {A : Type 0} (P : A → Type ℓ) (k : EntityKind) (a b : A)
    → (k ≡ EntityKind.node → P a)
    → (k ≡ EntityKind.use_instance → P b)
    → P (elim k [ EntityKind.node ↦ a | EntityKind.use_instance ↦ b ])
entity_elim P EntityKind.node a b f g = f refl
entity_elim P EntityKind.use_instance a b f g = g refl

-- A reference to a node among the names; `port` says if it names a port.
pub record IsLeaf (names : List Str) (port : Bool) (ref : PortRef) : Type 0 where
  pub entity : ref.entity ≡ EntityKind.node
  pub here : contains ref.node names ≡ true
  pub kind : is_port ref ≡ port

-- Exports lead to ports of nodes, roots and sinks are nodes.
pub record IsInstance (names : List Str) (info : UseInfo) : Type 0 where
  pub outputs : All (λ o. IsLeaf names true o.from) info.export.outputs
  pub inputs : All (λ i. All (IsLeaf names true) i.to) info.export.inputs
  pub roots : All (λ n. contains n names ≡ true) info.roots
  pub sinks : All (λ n. contains n names ≡ true) info.sinks

-- A reference to a node is to one that stands among the names under the namespace.
abbrev pub IsKnown : List Str → Str → PortRef → Type 0
IsKnown names namespace ref =
    ref.entity ≡ EntityKind.node → contains (qualify_name namespace ref.node) names ≡ true

abbrev pub Leaves : List Str → Bool → Resolved (List PortRef) → Type 0
Leaves names port = OnSuccess (All (IsLeaf names port))

output_port-Leaves :
    (names : List Str) (ref : PortRef) (os : List ExportOutput)
    → All (λ o. IsLeaf names true o.from) os
    → Leaves names true (output_port ref os)
unfolding output_port
output_port-Leaves names ref [] h = tt
output_port-Leaves names ref (o ∷ os) h =
    if_elim (λ (r : Resolved (List PortRef)). Leaves names true r) (str_eq o.name ref.name)
      (λ _. (h.0, tt)) (λ _. output_port-Leaves names ref os h.1)

input_ports-Leaves :
    (names : List Str) (ref : PortRef) (is : List ExportInput)
    → All (λ i. All (IsLeaf names true) i.to) is
    → Leaves names true (input_ports ref is)
unfolding input_ports
input_ports-Leaves names ref [] h = tt
input_ports-Leaves names ref (i ∷ is) h =
    if_elim (λ (r : Resolved (List PortRef)). Leaves names true r) (str_eq i.name ref.name)
      (λ _. h.0) (λ _. input_ports-Leaves names ref is h.1)

pub kind_elim {ℓ} :
    {A : Type 0} (P : A → Type ℓ) (k : PortKind) (a b : A)
    → P a
    → P b
    → P (elim k [ PortKind.output ↦ a | _ ↦ b ])
kind_elim P PortKind.output a b f g = f
kind_elim P PortKind.bare a b f g = g
kind_elim P PortKind.input a b f g = g

pub exported-Leaves :
    (names : List Str) (ref : PortRef) (info : UseInfo)
    → IsInstance names info
    → Leaves names true (exported ref info)
unfolding exported
exported-Leaves names ref info h =
    kind_elim (Leaves names true) ref.kind (output_port ref info.export.outputs)
      (input_ports ref info.export.inputs)
      (output_port-Leaves names ref info.export.outputs h.outputs)
      (input_ports-Leaves names ref info.export.inputs h.inputs)

module _ (names : List Str) where
  lookup-IsInstance :
      (k : Str) (uses : List (Str × UseInfo))
      → All (λ u. IsInstance names u.1) uses
      → (info : UseInfo) → lookup k uses ≡ some info
      → IsInstance names info
  unfolding lookup
  lookup-IsInstance k [] h info e = absurd (cc)
  lookup-IsInstance k (u ∷ uses) h info e = elim (Bool-cases (str_eq k u.0)) [
    | inl t ↦
        let found : some u.1 ≡ some info = rw t at e in
        let same : u.1 ≡ info = cc in subst (IsInstance names) same h.0
    | inr f ↦ lookup-IsInstance k uses h.1 info (rw f at e)
  ]

  pub instance_of-IsInstance :
      (ref : PortRef) (uses : List (Str × UseInfo))
      → All (λ u. IsInstance names u.1) uses
      → OnSuccess (IsInstance names) (instance_of ref uses)
  instance_of-IsInstance ref uses h = elim (Option-cases (lookup ref.node uses)) [
    | inl n ↦ rw (n, OnSuccess) tt
    | inr (info, e) ↦ rw (e, OnSuccess) (lookup-IsInstance ref.node uses h info e)
  ]

  pub qualified-IsLeaf :
      (namespace : Str) (ref : PortRef)
      → IsKnown names namespace ref
      → ref.entity ≡ EntityKind.node
      → IsLeaf names (is_port ref) (qualified namespace ref)
  unfolding is_port
  qualified-IsLeaf namespace ref known e = record { entity = e; here = known e; kind = refl }

  bare-leaves :
      (ns : List Str)
      → All (λ n. contains n names ≡ true) ns
      → All (IsLeaf names false) (map bare_ref ns)
  unfolding is_port
  bare-leaves [] h = tt
  bare-leaves (n ∷ ns) h = (record { entity = refl; here = h.0; kind = refl }, bare-leaves ns h.1)

module _ (names : List Str) (namespace : Str) (uses : List (Str × UseInfo))
    (instances : All (λ u. IsInstance names u.1) uses) where
  -- An endpoint is rewritten to nodes' ports, or to nodes when it names no port.
  rewrite_endpoint-Leaves :
      (want_roots : Bool) (ref : PortRef)
      → IsKnown names namespace ref
      → Leaves names (is_port ref) (rewrite_endpoint namespace uses want_roots ref)
  unfolding rewrite_endpoint
  rewrite_endpoint-Leaves want_roots ref known =
      entity_elim (Leaves names (is_port ref)) ref.entity (resolved (qualified namespace ref ∷ []))
        (instance_of ref uses >>= λ info.
          if not (is_port ref)
          then resolved (map bare_ref (if want_roots then info.roots else info.sinks))
          else exported ref info)
        (λ e. (qualified-IsLeaf names namespace ref known e, tt))
        (λ _.
          >>=-OnSuccess (IsInstance names) (All (IsLeaf names (is_port ref))) (instance_of ref uses)
            _ (instance_of-IsInstance names ref uses instances)
            (λ info h. elim (Bool-cases (is_port ref)) [
              | inl p ↦ rw p (exported-Leaves names ref info h)
              | inr b ↦ rw b (
                  bare-leaves names (if want_roots then info.roots else info.sinks) (
                    if_elim (λ (ns : List Str). All (λ n. contains n names ≡ true) ns) want_roots
                      (λ _. h.roots) (λ _. h.sinks)))
            ]))

  -- Both ends of a rewritten edge are nodes, and name ports where the edge did.
  pub record IsRewritten (e x : Edge) : Type 0 where
    pub from : IsLeaf names (is_port e.from) x.from
    pub to : IsLeaf names (is_port e.to) x.to

  abbrev pub IsKnownEdge : Edge → Type 0
  IsKnownEdge e = IsKnown names namespace e.from × IsKnown names namespace e.to

  row-IsRewritten :
      (e : Edge) (f : PortRef) (tos : List PortRef)
      → IsLeaf names (is_port e.from) f
      → All (IsLeaf names (is_port e.to)) tos
      → All (IsRewritten e) (map (λ t. record { from = f; to = t }) tos)
  row-IsRewritten e f [] h k = tt
  row-IsRewritten e f (t ∷ tos) h k = (record { from = h; to = k.0 }, row-IsRewritten e f tos h k.1)

  product-IsRewritten :
      (e : Edge) (froms tos : List PortRef)
      → All (IsLeaf names (is_port e.from)) froms
      → All (IsLeaf names (is_port e.to)) tos
      → All (IsRewritten e) (product froms tos)
  unfolding product
  product-IsRewritten e [] tos h k = tt
  product-IsRewritten e (f ∷ froms) tos h k =
      All-append (IsRewritten e) (map (λ t. record { from = f; to = t }) tos) (product froms tos)
        (row-IsRewritten e f tos h.0 k) (product-IsRewritten e froms tos h.1 k)

  pub rewrite_edge-OnSuccess :
      (e : Edge) → IsKnownEdge e → OnSuccess (All (IsRewritten e)) (rewrite_edge namespace uses e)
  unfolding rewrite_edge pairs_of
  rewrite_edge-OnSuccess e known =
      >>=-OnSuccess (All (IsLeaf names (is_port e.from))) (All (IsRewritten e))
        (rewrite_endpoint namespace uses false e.from) _
        (rewrite_endpoint-Leaves false e.from known.0)
        (λ froms fs.
          >>=-OnSuccess (All (IsLeaf names (is_port e.to))) (All (IsRewritten e))
            (rewrite_endpoint namespace uses true e.to) _
            (rewrite_endpoint-Leaves true e.to known.1)
            (λ tos ts.
              if_elim (λ (r : Resolved (List Edge)). OnSuccess (All (IsRewritten e)) r)
                (is_data_edge e && ltb 1 (length froms) && ltb 1 (length tos)) (λ _. tt)
                (λ _. product-IsRewritten e froms tos fs ts)))

  -- An edge is rewritten to edges between nodes of the expanded graph alone, none of them an
  -- instance, and each end names a port just when that end of the edge did; a reference of the
  -- edge to a node is to one of the names.
  pub rewrite_edge-IsRewritten :
      (e : Edge) (es : List Edge)
      → IsKnownEdge e
      → rewrite_edge namespace uses e ≡ resolved es
      → All (IsRewritten e) es
  rewrite_edge-IsRewritten e es known r =
      on_success (All (IsRewritten e)) (rewrite_edge namespace uses e) es
        (rewrite_edge-OnSuccess e known) r
