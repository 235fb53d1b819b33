-- ===== src/Graph/Group/Ends.antt =====
-- internal/graph/group.go: resolving the references of a scope, and setting the vars of an
-- instance, is never what cuts an expansion short.
use terragraph.Prelude.{
  arith, Bool, true, false, not, ◌&&◌, if_elim, Str, str_eq, List, [], ◌∷◌, map, Option, none, some,
  All, is_nil, length, ltb, lookup, if◌then◌else◌, sort,
}
use terragraph.Blueprint.{Edge, PortRef, is_port, is_data_edge}
use terragraph.Module.{Variable}
use terragraph.Graph.{Graph}
use terragraph.Graph.Validate.{Node}
use terragraph.Graph.Group.{
  Export, ExportInput, ExportOutput, UseInfo, Resolved, resolved, ◌>>=◌, map_resolved, output_port,
  input_ports, exported, qualified, instance_of, resolve_export_endpoint, resolve_export,
  resolve_input, one_port, rewrite_endpoint, pairs_of, rewrite_edge, target_required,
  synthesize_input, synthesize_output, synthesize_schema, use_info, expand_edges, bare_ref,
}
use terragraph.Graph.Group.Edges.{entity_elim, kind_elim}
use terragraph.Graph.Group.Vars.{
  LeafVars, set_new, set_var, set_targets, set_input, set_inputs, apply_use_vars, by_name,
}
use terragraph.Graph.Source.Ends.{HasEnded, >>=-HasEnded, map_resolved-HasEnded}

all-units : {A : Type 0} (xs : List A) → All (λ x. Unit {0}) xs
all-units [] = tt
all-units (x ∷ xs) = (tt, all-units xs)

-- A loop of steps that always end.
pub loop-HasEnded :
    {A B : Type 0} (f : A → Resolved B) (xs : List A)
    → ((x : A) → HasEnded (f x))
    → HasEnded (map_resolved f xs)
loop-HasEnded f xs g = map_resolved-HasEnded (λ x. Unit {0}) f xs (λ x _. g x) (all-units xs)

output_port-HasEnded : (ref : PortRef) (os : List ExportOutput) → HasEnded (output_port ref os)
unfolding output_port
output_port-HasEnded ref [] = λ e. cc
output_port-HasEnded ref (o ∷ os) =
    if_elim (λ (m : Resolved (List PortRef)). HasEnded m) (str_eq o.name ref.name) (λ _ e. cc)
      (λ _. output_port-HasEnded ref os)

input_ports-HasEnded : (ref : PortRef) (is : List ExportInput) → HasEnded (input_ports ref is)
unfolding input_ports
input_ports-HasEnded ref [] = λ e. cc
input_ports-HasEnded ref (i ∷ is) =
    if_elim (λ (m : Resolved (List PortRef)). HasEnded m) (str_eq i.name ref.name) (λ _ e. cc)
      (λ _. input_ports-HasEnded ref is)

exported-HasEnded : (ref : PortRef) (info : UseInfo) → HasEnded (exported ref info)
unfolding exported
exported-HasEnded ref info =
    kind_elim (λ (m : Resolved (List PortRef)). HasEnded m) ref.kind
      (output_port ref info.export.outputs) (input_ports ref info.export.inputs)
      (output_port-HasEnded ref info.export.outputs) (input_ports-HasEnded ref info.export.inputs)

instance_of-HasEnded :
    (ref : PortRef) (uses : List (Str × UseInfo)) → HasEnded (instance_of ref uses)
instance_of-HasEnded ref uses = λ e. ground (arith)

module _ (namespace : Str) (uses : List (Str × UseInfo)) where
  resolve_export_endpoint-HasEnded :
      (ref : PortRef) → HasEnded (resolve_export_endpoint namespace uses ref)
  unfolding resolve_export_endpoint
  resolve_export_endpoint-HasEnded ref =
      entity_elim (λ (m : Resolved (List PortRef)). HasEnded m) ref.entity
        (resolved (qualified namespace ref ∷ [])) (instance_of ref uses >>= exported ref)
        (λ _ e. cc)
        (λ _.
          >>=-HasEnded (instance_of ref uses) (exported ref) (instance_of-HasEnded ref uses)
            (λ info _. exported-HasEnded ref info))

  one_port-HasEnded : (o : ExportOutput) (ps : List PortRef) → HasEnded (one_port o ps)
  one_port-HasEnded o [] = λ e. cc
  one_port-HasEnded o (p ∷ []) = λ e. cc
  one_port-HasEnded o (p ∷ q ∷ ps) = λ e. cc

  resolve_export-HasEnded : (x : Export) → HasEnded (resolve_export namespace uses x)
  unfolding resolve_export
  resolve_export-HasEnded x =
      >>=-HasEnded (map_resolved (resolve_input namespace uses) x.inputs) _
        (loop-HasEnded (resolve_input namespace uses) x.inputs (λ i.
          >>=-HasEnded (map_resolved (resolve_export_endpoint namespace uses) i.to) _
            (loop-HasEnded (resolve_export_endpoint namespace uses) i.to
              resolve_export_endpoint-HasEnded)
            (λ targets _ e. cc)))
        (λ inputs _.
          >>=-HasEnded
            (map_resolved (λ o. resolve_export_endpoint namespace uses o.from >>= one_port o)
              x.outputs)
            _
            (loop-HasEnded (λ o. resolve_export_endpoint namespace uses o.from >>= one_port o)
              x.outputs
              (λ o.
                >>=-HasEnded (resolve_export_endpoint namespace uses o.from) (one_port o)
                  (resolve_export_endpoint-HasEnded o.from) (λ ps _. one_port-HasEnded o ps)))
            (λ outputs _ e. cc))

  rewrite_endpoint-HasEnded :
      (want_roots : Bool) (ref : PortRef)
      → HasEnded (rewrite_endpoint namespace uses want_roots ref)
  unfolding rewrite_endpoint
  rewrite_endpoint-HasEnded want_roots ref =
      entity_elim (λ (m : Resolved (List PortRef)). HasEnded m) ref.entity
        (resolved (qualified namespace ref ∷ []))
        (instance_of ref uses >>= λ info.
          if not (is_port ref)
          then resolved (map bare_ref (if want_roots then info.roots else info.sinks))
          else exported ref info)
        (λ _ e. cc)
        (λ _. >>=-HasEnded (instance_of ref uses) _ (instance_of-HasEnded ref uses) (λ info _.
          if_elim (λ (m : Resolved (List PortRef)). HasEnded m) (not (is_port ref)) (λ _ e. cc)
            (λ _. exported-HasEnded ref info)))

  rewrite_edge-HasEnded : (x : Edge) → HasEnded (rewrite_edge namespace uses x)
  unfolding rewrite_edge pairs_of
  rewrite_edge-HasEnded x =
      >>=-HasEnded (rewrite_endpoint namespace uses false x.from) _
        (rewrite_endpoint-HasEnded false x.from)
        (λ froms _.
          >>=-HasEnded (rewrite_endpoint namespace uses true x.to) _
            (rewrite_endpoint-HasEnded true x.to)
            (λ tos _.
              if_elim (λ (m : Resolved (List Edge)). HasEnded m)
                (is_data_edge x && ltb 1 (length froms) && ltb 1 (length tos)) (λ _ e. cc)
                (λ _ e. cc)))

  pub expand_edges-HasEnded :
      (es : List Edge) (g : Graph) → HasEnded (expand_edges namespace uses es g)
  unfolding expand_edges
  expand_edges-HasEnded es g =
      >>=-HasEnded (map_resolved (rewrite_edge namespace uses) es) _
        (loop-HasEnded (rewrite_edge namespace uses) es rewrite_edge-HasEnded) (λ rewritten _ e. cc)

module _ (node_at : Str → Node) (internal : Graph) where
  target_required-HasEnded :
      (name : Str) (ref : PortRef) → HasEnded (target_required node_at internal name ref)
  unfolding target_required
  target_required-HasEnded name ref = λ e. ground (arith)

  synthesize_input-HasEnded : (i : ExportInput) → HasEnded (synthesize_input node_at internal i)
  unfolding synthesize_input
  synthesize_input-HasEnded i =
      if_elim (λ (m : Resolved (Str × Variable)). HasEnded m) (is_nil i.to) (λ _ e. cc)
        (λ _.
          >>=-HasEnded (map_resolved (target_required node_at internal i.name) i.to) _
            (loop-HasEnded (target_required node_at internal i.name) i.to
              (target_required-HasEnded i.name))
            (λ required _ e. cc))

  synthesize_output-HasEnded : (o : ExportOutput) → HasEnded (synthesize_output node_at internal o)
  unfolding synthesize_output
  synthesize_output-HasEnded o = λ e. ground (arith)

  synthesize_schema-HasEnded : (x : Export) → HasEnded (synthesize_schema node_at internal x)
  unfolding synthesize_schema
  synthesize_schema-HasEnded x =
      >>=-HasEnded (map_resolved (synthesize_input node_at internal) x.inputs) _
        (loop-HasEnded (synthesize_input node_at internal) x.inputs synthesize_input-HasEnded)
        (λ variables _.
          >>=-HasEnded (map_resolved (synthesize_output node_at internal) x.outputs) _
            (loop-HasEnded (synthesize_output node_at internal) x.outputs
              synthesize_output-HasEnded)
            (λ outputs _ e. cc))

  pub use_info-HasEnded :
      (namespace : Str) (uses : List (Str × UseInfo)) (x : Export)
      → HasEnded (use_info node_at internal namespace uses x)
  unfolding use_info
  use_info-HasEnded namespace uses x =
      >>=-HasEnded (resolve_export namespace uses x) _ (resolve_export-HasEnded namespace uses x)
        (λ export _.
          >>=-HasEnded (synthesize_schema node_at internal export) _
            (synthesize_schema-HasEnded export) (λ schema _ e. cc))

module _ {V : Type 0} where
  set_new-HasEnded :
      (ref : PortRef) (value : V) (nodes : LeafVars V) (vars : List (Str × V))
      → HasEnded (set_new ref value nodes vars)
  set_new-HasEnded ref value nodes vars = λ e. ground (arith)

  set_var-HasEnded :
      (ref : PortRef) (value : V) (nodes : LeafVars V) → HasEnded (set_var ref value nodes)
  unfolding set_var
  set_var-HasEnded ref value nodes = λ e. ground (arith)

  set_targets-HasEnded :
      (refs : List PortRef) (value : V) (nodes : LeafVars V)
      → HasEnded (set_targets refs value nodes)
  unfolding set_targets
  set_targets-HasEnded [] value nodes = λ e. cc
  set_targets-HasEnded (ref ∷ refs) value nodes =
      >>=-HasEnded (set_var ref value nodes) _ (set_var-HasEnded ref value nodes)
        (λ next _. set_targets-HasEnded refs value next)

  set_input-HasEnded :
      (targets : Option (List PortRef)) (value : Option V) (key : Str) (nodes : LeafVars V)
      → HasEnded (set_input targets value key nodes)
  set_input-HasEnded (some targets) (some value) key nodes =
      set_targets-HasEnded targets value nodes
  set_input-HasEnded none value key nodes = λ e. cc
  set_input-HasEnded (some targets) none key nodes = λ e. cc

  set_inputs-HasEnded :
      (inputs : List (Str × List PortRef)) (vars : List (Str × V)) (keys : List Str)
      (nodes : LeafVars V)
      → HasEnded (set_inputs inputs vars keys nodes)
  unfolding set_inputs
  set_inputs-HasEnded inputs vars [] nodes = λ e. cc
  set_inputs-HasEnded inputs vars (key ∷ keys) nodes =
      >>=-HasEnded (set_input (lookup key inputs) (lookup key vars) key nodes) _
        (set_input-HasEnded (lookup key inputs) (lookup key vars) key nodes)
        (λ next _. set_inputs-HasEnded inputs vars keys next)

  pub apply_use_vars-HasEnded :
      (vars : List (Str × V)) (inputs : List ExportInput) (nodes : LeafVars V)
      → HasEnded (apply_use_vars vars inputs nodes)
  unfolding apply_use_vars
  apply_use_vars-HasEnded vars inputs nodes =
      if_elim (λ (m : Resolved (LeafVars V)). HasEnded m) (is_nil vars) (λ _ e. cc)
        (λ _. set_inputs-HasEnded (by_name inputs []) vars (sort (map (λ e. e.0) vars)) nodes)
