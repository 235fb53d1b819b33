-- ===== src/Engine/SavedNode.antt =====
-- internal/engine/saved_execution.go and plan_bundle.go: the plan of one node is made and kept, and
-- read back and applied. What the runtime, the plugins and the digests of files answer is the
-- record `Answers`, and `io n` is how the n-th call of the store for the node comes out. The
-- reads that leave everything as it is stand in one field where the source has several in a row.
use terragraph.Prelude.{
  ℕ, suc, leb, Bool, true, false, not, ◌&&◌, ◌||◌, Str, bytes, str_eq, List, [], ◌∷◌, ◌++◌, Option,
  none, some, ◌==◌, if◌then◌else◌, is_nil,
}
use terragraph.Engine.Store.{Io, Object, Store, Reply, ok, read, write}
use terragraph.Engine.Journal.{
  ExecutionNode, Content, journal, plan, PlanBundle, Session, Phase, pending, preparing, planned,
  initializing, indeterminate, completed, is_some, publish, transition, fail,
}
use terragraph.Engine.Apply.{
  Plan, Run, Status, status_applied, status_unchanged, apply_prepared_plan,
}
use terragraph.Engine.Apply

abbrev pub is_pending : Phase → Bool
is_pending pending = true
is_pending _ = false

abbrev pub is_planned : Phase → Bool
is_planned planned = true
is_planned _ = false

abbrev pub is_completed : Phase → Bool
is_completed completed = true
is_completed _ = false

abbrev pub is_preparing : Phase → Bool
is_preparing preparing = true
is_preparing _ = false

-- How initNode ends.
pub data Initialized : Type 0 where
  initialized not_started broken : Initialized

-- The texts are what planBinding gives: before the plan is made, after it, and when it is kept;
-- `none` for an error.
pub record Answers : Type 0 where
  -- The plugins' node.prepare, the inputs, the variables file.
  pub prepared : Bool
  pub init : Initialized
  -- The runtime supports saved plans.
  pub supported : Bool
  pub before : Option Str
  -- prepareNodePlan, with whether the plan changes anything.
  pub made : Option Bool
  pub after : Option Str
  -- The contracts of the plan, its changes, their summary.
  pub inspected : Bool
  pub kept : Option Str
  pub plan_bytes : Str
  pub bundle_id : Str
  pub expires_at : ℕ
  pub review : Str
  -- The plugins' node.finished.
  pub finished : Bool
  -- For the application: executionTarget, the plan's file with the plugins' node.plan.ready.
  pub target : Option Str
  pub written : Bool
  pub plan_for : Plan
  pub applying_answers : Apply.Answers

-- A step that runs only behind one that returned no error.
infixl 5 ◌then_run◌
unfoldable pub ◌then_run◌ : Bool × Session → (Session → Bool × Session) → Bool × Session
(true, s) then_run f = f s
(false, s) then_run f = (false, s)

abbrev pub both_are : Option Str → Option Str → Bool
both_are (some a) (some b) = str_eq a b
both_are _ _ = false

unfoldable pub set_node :
    Str → (ExecutionNode → ExecutionNode) → List ExecutionNode → Option (List ExecutionNode)
set_node name f [] = none
set_node name f (n ∷ rest) =
    let later = set_node name f rest in
    if str_eq n.name name
    then some (f n ∷ rest)
    else elim later [ none ↦ none | some ns ↦ some (n ∷ ns) ]

abbrev pub stored_bundle : Reply Str × Store Content → Session → Bool × Session
stored_bundle (ok revision, store) s = (true, record s { store = store })
stored_bundle (_, store) s = (false, record s { store = store })

abbrev pub bundle_of : Answers → Str → Bool → Str → Session → PlanBundle
bundle_of a name changed binding s = record {
  schema_version = 1;
  id = a.bundle_id;
  execution_id = s.record_of.id;
  node = name;
  binding = binding;
  expires_at = a.expires_at;
  changed = changed;
  plan_bytes = a.plan_bytes;
}

abbrev pub has_succeeded : Status → Bool
has_succeeded status_applied = true
has_succeeded status_unchanged = true
has_succeeded _ = false

abbrev pub session_of : Option Session → Session → Session
session_of none s = s
session_of (some t) s = t

-- The plan is applied as it was saved.
abbrev pub saved_plan : Answers → Str → PlanBundle → Plan
saved_plan a name b = record a.plan_for {
  name = name;
  changed = b.changed;
  verify_unchanged = true;
}

module _ (draw : ℕ → Str) (now : ℕ) where
  abbrev pub publish_nodes : Io → Option (List ExecutionNode) → Session → Bool × Session
  publish_nodes io none s = (false, s)
  publish_nodes io (some nodes) s = publish draw io (record s.record_of { nodes = nodes }) s

  -- (executionSession).setReview
  unfoldable pub set_review : Io → Str → Str → Session → Bool × Session
  set_review io name review s =
      publish_nodes io (set_node name (λ n. record n { review = some review }) s.record_of.nodes) s

  -- (executionSession).noteSavedFailure
  unfoldable pub note_saved_failure : Io → Str → Str → Session → Bool × Session
  note_saved_failure io name code s =
      publish_nodes io (set_node name (λ n. record n { code = code }) s.record_of.nodes) s

  -- retainPlan: the plan is stored before the record points to it.
  unfoldable pub retain_plan :
      (ℕ → Io) → Answers → Str → Bool → Option Str → Session → Bool × Session
  retain_plan io a name changed none s = (false, s)
  retain_plan io a name changed (some binding) s =
      stored_bundle
        (write draw (io 3) s.store (a.bundle_id ++ bytes ".bin")
          (plan (bundle_of a name changed binding s)) [])
        s
      then_run transition draw (io 4) now name planned [] a.bundle_id

  -- From the plan on: the sources are the same before it, behind it and when it is kept.
  unfoldable pub keep_plan : (ℕ → Io) → Answers → Str → Option Bool → Session → Bool × Session
  keep_plan io a name none s = (false, s)
  keep_plan io a name (some changed) s =
      if not (both_are a.before a.after)
      then (false, s)
      else if not a.inspected
      then (false, s)
      else if not (both_are a.kept a.before)
      then (false, s)
      else retain_plan io a name changed a.kept s then_run set_review (io 5) name a.review

  unfoldable pub prepare_plan : (ℕ → Io) → Answers → Str → Session → Bool × Session
  prepare_plan io a name s =
      if not a.supported
      then (false, s)
      else if not (is_some a.before)
      then (false, s)
      else keep_plan io a name a.made s

  -- initNode, with what the journal says where it fails.
  unfoldable pub init_node :
      Io → Initialized → Str → (Session → Bool × Session) → Session → Bool × Session
  init_node io initialized name rest s = rest s
  init_node io not_started name rest s = (false, (fail draw io now name indeterminate true s).1)
  init_node io broken name rest s = (false, (fail draw io now name indeterminate false s).1)

  -- saveFrontierNode
  unfoldable pub save_frontier_node : (ℕ → Io) → Answers → Str → Session → Bool × Session
  save_frontier_node io a name s =
      if not a.prepared
      then (false, s)
      else transition draw (io 0) now name initializing [] [] s
        then_run init_node (io 1) a.init name
            (λ t. transition draw (io 2) now name preparing [] [] t then_run prepare_plan io a name)

  -- The bundle that readPlanBundle accepts.
  unfoldable pub bundle_fits : ExecutionNode → Session → PlanBundle → Bool
  bundle_fits node s b =
      b.schema_version == 1
      && str_eq b.id node.plan_id
      && str_eq b.node node.name
      && str_eq b.execution_id s.record_of.id
      && not (is_nil b.plan_bytes)
      && not (leb b.expires_at now)

  abbrev pub bundle_read : ExecutionNode → Session → Reply (Object Content) → Option PlanBundle
  bundle_read node s (ok o) = elim o.body [
    | plan b ↦ if bundle_fits node s b then some b else none
    | journal r ↦ none
  ]
  bundle_read node s _ = none

  -- readPlanBundle
  unfoldable pub read_plan_bundle : Io → ExecutionNode → Session → Option PlanBundle
  read_plan_bundle io node s = bundle_read node s (read io s.store (node.plan_id ++ bytes ".bin"))

  unfoldable pub apply_bundle : (ℕ → Io) → Answers → Str → PlanBundle → Session → Bool × Session
  apply_bundle io a name b s =
      let out =
        apply_prepared_plan draw (λ n. io (suc (suc (suc (suc n))))) now (saved_plan a name b)
          a.applying_answers (record { session = some s; started_with = none }) in
      (has_succeeded out.0, session_of out.1.session s)

  -- applySavedNode from the bundle on: the target and the sources are still those of the plan.
  unfoldable pub apply_read :
      (ℕ → Io) → Answers → ExecutionNode → Option PlanBundle → Session → Bool × Session
  apply_read io a node none s = (false, s)
  apply_read io a node (some b) s =
      if not (both_are a.target (some node.target))
      then (false, s)
      else if not (both_are a.before (some b.binding))
      then (false, s)
      else transition draw (io 1) now node.name initializing [] [] s
        then_run init_node (io 2) a.init node.name (λ t.
          transition draw (io 3) now node.name planned [] [] t then_run λ u.
          if not (both_are a.after (some b.binding)) || not a.written
          then (false, u)
          else apply_bundle io a node.name b u)

  -- applySavedNode
  unfoldable pub apply_saved_node : (ℕ → Io) → Answers → ExecutionNode → Session → Bool × Session
  apply_saved_node io a node s =
      if not a.prepared then (false, s) else apply_read io a node (read_plan_bundle (io 0) node s) s
