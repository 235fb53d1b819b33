-- ===== src/Graph/Validate.antt =====
-- internal/graph/validate.go: the part of `Validate` that checks who supplies each input of each
-- module: data edges, a node's own vars, and plugin inputs. A problem is its code, its subject
-- and its severity; the message and the remedy are texts for the reader and are left out.
-- `node_at` is the map `Nodes` of the graph; its keys are `nodes`.
pub mod Fold
pub mod Steps
pub mod Suppliers
pub mod Required
pub mod Backends
use terragraph.Prelude.{
  Bool, true, false, not, ◌&&◌, ◌||◌, Str, bytes, List, [], ◌∷◌, ◌++◌, map, keep, sort, contains,
  lookup, none, some, if◌then◌else◌, String,
}
use terragraph.Blueprint.{Edge, EntityKind, PortKind, PortRef, is_port, is_data_edge}
use terragraph.Module.{Schema, Variable, has_output, has_variable}
use terragraph.Graph.{Graph}

pub data Severity : Type 0 where
  severity_error severity_warning : Severity

pub record Problem : Type 0 where
  pub code : Str
  pub subject : Str
  pub severity : Severity

-- (Problem).IsError
abbrev pub is_error : Problem → Bool
is_error p = elim p.severity [ severity_error ↦ true | severity_warning ↦ false ]

-- graph.Node, with the values of `Vars` and the bindings of `Inputs` left out: both maps are read
-- for their keys alone.
pub record Node : Type 0 where
  pub schema : Schema
  pub vars : List Str
  pub inputs : List Str

abbrev pub dotted : Str → Str → Str
dotted a b = a ++ bytes "." ++ b

-- (PortRef).String
unfoldable pub show_ref : PortRef → Str
unfolding is_port
show_ref p =
    let entity =
      dotted
        (elim p.entity [ EntityKind.node ↦ bytes "node" | EntityKind.use_instance ↦ bytes "use" ])
        p.node in
    elim p.kind [
      | PortKind.bare ↦ entity
      | PortKind.output ↦ dotted entity (dotted (bytes "output") p.name)
      | PortKind.input ↦ dotted entity (dotted (bytes "input") p.name)
    ]

-- The key of the map `wired`.
abbrev pub port_key : Str × Str → Str
port_key p = dotted p.0 p.1

abbrev pub input_subject : Str × Str → Str
input_subject p = bytes "node." ++ p.0 ++ bytes ".input." ++ p.1

-- An error with its code, unless the test holds.
unfoldable pub unless : Bool → String → Str → List Problem
unless fine code subject =
    if fine
    then []
    else record { code = bytes code; subject = subject; severity = severity_error } ∷ []

-- The problems found so far, the maps `wired` and `reportedMulti`.
pub record Wiring : Type 0 where
  pub problems : List Problem
  pub wired : List Str
  pub reported : List Str

-- One pass of a loop over the entries, in their order.
unfoldable pub check_each : {A : Type 0} → (A → Wiring → Wiring) → List A → Wiring → Wiring
check_each step [] w = w
check_each step (x ∷ xs) w = check_each step xs (step x w)

-- The entries of one map of each node: the two nested loops `for name`, `for key`.
unfoldable pub entries : {A : Type 0} → (Str → List A) → List Str → List (Str × A)
entries of [] = []
entries of (n ∷ ns) = map (λ k. (n, k)) (of n) ++ entries of ns

abbrev pub edge_key : Edge → Str
edge_key e = port_key (e.to.node, e.to.name)

unfoldable pub data_edges : Graph → List Edge
data_edges g = keep is_data_edge g.edges

-- `wired[key]` and not `reportedMulti[key]`
abbrev pub is_first : Edge → Wiring → Bool
is_first e w = contains (edge_key e) w.wired && not (contains (edge_key e) w.reported)

module _ (node_at : Str → Node) where
  -- The loop over the data edges.
  unfoldable pub check_edge : Edge → Wiring → Wiring
  check_edge e w =
      let taken = contains (edge_key e) w.wired in
      let first = is_first e w in
      record {
        problems =
            w.problems
            ++ unless (has_output (node_at e.from.node).schema e.from.name) "missing_output"
                (show_ref e.from)
            ++ unless (has_variable (node_at e.to.node).schema e.to.name) "missing_input"
                (show_ref e.to)
            ++ unless (not first) "input_conflict" (input_subject (e.to.node, e.to.name));
        wired = if taken then w.wired else edge_key e ∷ w.wired;
        reported = if first then edge_key e ∷ w.reported else w.reported;
      }

  -- The loop over a node's own vars.
  unfoldable pub check_var : Str × Str → Wiring → Wiring
  check_var p w =
      if not (has_variable (node_at p.0).schema p.1)
      then record w { problems = w.problems ++ unless false "missing_input" (input_subject p) }
      else if contains (port_key p) w.wired
      then record w { problems = w.problems ++ unless false "input_conflict" (input_subject p) }
      else record w { wired = port_key p ∷ w.wired }

  -- `v, exists := Variables[input]; exists && !v.Sensitive`, negated.
  abbrev pub not_plain : Str × Str → Bool
  not_plain p = elim (lookup p.1 (node_at p.0).schema.variables) [
    | none ↦ true
    | some v ↦ v.sensitive
  ]

  -- The loop over a node's plugin inputs.
  unfoldable pub check_input : Str × Str → Wiring → Wiring
  check_input p w = record w {
    problems =
        w.problems
        ++ unless (not_plain p) "plugin_input_not_sensitive" (input_subject p)
        ++ unless (not (contains (port_key p) w.wired)) "input_conflict" (input_subject p)
        ++ unless (has_variable (node_at p.0).schema p.1) "missing_input" (input_subject p);
    wired = port_key p ∷ w.wired;
  }

  unfoldable pub var_entries : Graph → List (Str × Str)
  var_entries g = entries (λ n. sort (node_at n).vars) (sort g.nodes)

  -- A Go map has no order of its own: the bindings come in the order `inputs` gives.
  unfoldable pub input_entries : Graph → List (Str × Str)
  input_entries g = entries (λ n. (node_at n).inputs) (sort g.nodes)

  -- The first three loops of Validate.
  unfoldable pub wiring : Graph → Wiring
  wiring g =
      let edges =
        check_each check_edge (data_edges g)
          (record { problems = []; wired = []; reported = [] }) in
      let vars = check_each check_var (var_entries g) edges in
      check_each check_input (input_entries g) vars

  -- Every variable of every node, in the order of the fourth loop.
  unfoldable pub variable_entries : Graph → List (Str × Str)
  variable_entries g =
      entries (λ n. sort (map (λ e. e.0) (node_at n).schema.variables)) (sort g.nodes)

  abbrev pub is_required : Str × Str → Bool
  is_required p = elim (lookup p.1 (node_at p.0).schema.variables) [
    | none ↦ false
    | some v ↦ v.required
  ]

  -- The fourth loop: required variables that nothing supplies.
  unfoldable pub unwired_inputs : List Str → List (Str × Str) → List Problem
  unwired_inputs wired [] = []
  unwired_inputs wired (p ∷ ps) =
      let rest = unwired_inputs wired ps in
      if is_required p && not (contains (port_key p) wired)
      then record {
        code = bytes "required_input_unwired";
        subject = input_subject p;
        severity = severity_warning;
      }
        ∷ rest
      else rest

  -- The supply of inputs: what the four loops report together.
  unfoldable pub wiring_problems : Graph → List Problem
  wiring_problems g = let w = wiring g in w.problems ++ unwired_inputs w.wired (variable_entries g)
