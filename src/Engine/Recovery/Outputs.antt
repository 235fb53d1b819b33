-- ===== src/Engine/Recovery/Outputs.antt =====
-- RecoverExecution of internal/engine/execution_recovery.go without --replan, and
-- recoverNodeOutputs of recovery_outputs.go: the outputs of applied nodes are collected again.
-- `io name n` is how the n-th call of the store for a node comes out; those for the execution
-- come under the empty name.
pub mod Sessions
pub mod Retired
use terragraph.Prelude.{
  ℕ, Bool, true, false, not, ◌&&◌, ◌||◌, Str, bytes, str_eq, List, [], ◌∷◌, ◌++◌, Option, none,
  some, if◌then◌else◌, is_nil,
}
use terragraph.Engine.Store.{Io, Store}
use terragraph.Engine.Journal.{
  ExecutionRecord, ExecutionNode, Content, Session, Phase, initializing, applying, operating,
  indeterminate, applied, completed, publish, record_plugins, transition, recovered_record,
  execution_needs_recovery,
}
use terragraph.Engine.Journal.Calls.{PluginCall, calls_need_recovery}
use terragraph.Engine.Recovery.{
  Verdict, unread, wrong_scope, resolved, plugins_unresolved, unconfirmed, unpublished, issues,
  read_execution_record, opened_session, replan_published,
}
use terragraph.Engine.SavedNode.{both_are, ◌then_run◌}

-- What recoverNodeOutputs meets at a node.
pub record Collected : Type 0 where
  -- executionTarget
  pub target : Option Str
  -- The backend is known, and the credential plugins of the node can be started.
  pub known : Bool
  pub workspace_known : Bool
  -- The backend needs no preparation that writes.
  pub read_only : Bool
  -- --initialize-backend
  pub allow_init : Bool
  -- The private directory is made.
  pub prepared : Bool
  pub initialized : Bool
  -- The outputs are read, valid, and written to the snapshot.
  pub outputs_kept : Bool
  -- What the credential plugins record for the initialization, for the reading of the outputs,
  -- and when they are closed; nothing for a node without credentials.
  pub init_calls : List (Io × PluginCall)
  pub output_calls : List (Io × PluginCall)
  pub close_calls : List (Io × PluginCall)
  pub closed : Bool

-- How the loop over the nodes ends.
pub data Collection : Type 0 where
  -- An error of the journal, which ends the loop.
  stopped : Session → Collection
  -- At the end of the nodes, with a failure on the way or none.
  walked : Bool → Session → Collection

-- The phases whose outcome is unknown.
abbrev pub is_unknown : Phase → Bool
is_unknown initializing = true
is_unknown applying = true
is_unknown operating = true
is_unknown indeterminate = true
is_unknown _ = false

abbrev pub is_applied : Phase → Bool
is_applied applied = true
is_applied _ = false

abbrev pub with_preparation : Str → ExecutionRecord → ExecutionRecord
with_preparation text r = record r { preparation = text }

abbrev pub noted_issue : Collection → Collection
noted_issue (stopped s) = stopped s
noted_issue (walked found s) = walked true s

module _ (draw : ℕ → Str) (now : ℕ) (io : Str → ℕ → Io) (collected : Str → Collected) where
  -- Outputs, behind an initialization with or without an error.
  abbrev pub read_outputs : Collected → Bool × Session → Bool × Session
  read_outputs c (true, s) = (c.outputs_kept, record_plugins draw c.output_calls s)
  read_outputs c (false, s) = (false, s)

  -- From InitRead on; the preparation is on record while a backend that is written to is prepared.
  unfoldable pub collect_outputs : Collected → Str → Session → Bool × Session
  collect_outputs c name s =
      if c.read_only
      then read_outputs c (c.initialized, record_plugins draw c.init_calls s)
      else publish draw (io name 0) (with_preparation (bytes "initializing:" ++ name) s.record_of) s
        then_run λ r.
            let t = record_plugins draw c.init_calls r in
            if not c.initialized
            then (false, t)
            else read_outputs c (publish draw (io name 1) (with_preparation [] t.record_of) t)

  -- Behind the credential plugins: the workspace, and what the backend needs.
  unfoldable pub check_backend : Collected → Str → Session → Bool × Session
  check_backend c name s =
      if not c.workspace_known
      then (false, s)
      else if not c.read_only && not c.allow_init
      then (false, s)
      else if not c.read_only && not (is_nil s.record_of.preparation)
      then (false, s)
      else if not c.prepared
      then (false, s)
      else collect_outputs c name s

  -- The deferred close of the credential plugins.
  abbrev pub close_credentials : Collected → Bool × Session → Bool × Session
  close_credentials c (b, s) = (b && c.closed, record_plugins draw c.close_calls s)

  -- recoverNodeOutputs
  unfoldable pub recover_node_outputs : Collected → Str → Session → Bool × Session
  recover_node_outputs c name s =
      if not c.known then (false, s) else close_credentials c (check_backend c name s)

  abbrev pub completed_or : Bool × Session → (Session → Collection) → Collection
  completed_or (true, s) later = later s
  completed_or (false, s) later = stopped s

  -- An applied node whose outputs came or did not.
  abbrev pub complete_node : Str → Bool × Session → (Session → Collection) → Collection
  complete_node name (true, s) later =
      completed_or (transition draw (io name 2) now name completed (bytes "outputs_recovered") [] s)
        later
  complete_node name (false, s) later = noted_issue (later s)

  -- The loop over the nodes of the record as it was read.
  unfoldable pub collect_nodes : List ExecutionNode → Session → Collection
  collect_nodes [] s = walked false s
  collect_nodes (n ∷ rest) s =
      if is_unknown n.phase
      then noted_issue (collect_nodes rest s)
      else if not (is_applied n.phase)
      then collect_nodes rest s
      else if not (both_are (collected n.name).target (some n.target))
      then noted_issue (collect_nodes rest s)
      else complete_node n.name (recover_node_outputs (collected n.name) n.name s)
          (collect_nodes rest)

  unfoldable pub retire : Bool → Collection → Verdict × Store Content
  retire prepared (stopped s) = (unpublished, s.store)
  retire prepared (walked found s) =
      if prepared || found
      then (issues, s.store)
      else replan_published (publish draw (io [] 1) (recovered_record now s.record_of) s)

  unfoldable pub outputs_found :
      Str → Store Content → Option (ExecutionRecord × Str) → Verdict × Store Content
  outputs_found scope store none = (unread, store)
  outputs_found scope store (some (r, revision)) =
      if not (str_eq r.scope scope)
      then (wrong_scope, store)
      else if not (execution_needs_recovery r)
      then (resolved, store)
      else if calls_need_recovery r.plugin_calls
      then (plugins_unresolved, store)
      else retire (not (is_nil r.preparation))
          (collect_nodes r.nodes (opened_session r revision store))

  -- RecoverExecution without --replan.
  unfoldable pub recover_outputs : Str → Store Content → Str → Bool → Verdict × Store Content
  recover_outputs scope store id confirm_stopped =
      if not confirm_stopped
      then (unconfirmed, store)
      else outputs_found scope store (read_execution_record (io [] 0) store id)
