-- ===== src/Engine/Saved.antt =====
-- internal/engine/saved_execution.go: executions whose plans are saved, reviewed and applied later.
-- `save_plans` and `apply_saved_plans` are SavePlans and ApplySavedPlans between the opening of the
-- session and its end, `finish_saved_session` is that end. Each node has its own answers, and
-- `io name n` is how the store's n-th call for it comes out; the calls for the execution itself
-- come under the empty name. The locks of the run are held.
pub mod Frontier
pub mod Order
pub mod Kept
pub mod Sound
pub mod Applying
pub mod Published
pub mod Unchanged
pub mod Chosen
pub mod Loops
pub mod Clean
pub mod Carried
pub mod Completes
pub mod Saving
pub mod RoundTrip
pub mod Commands
pub mod Pruning
pub mod Started
pub mod Histories
use terragraph.Prelude.{
  ℕ, suc, Bool, true, false, not, ◌&&◌, ◌||◌, Str, bytes, str_eq, List, [], ◌∷◌, Option, none, some,
  if◌then◌else◌, is_nil, any, all, map, keep,
}
use terragraph.Graph.{Graph}
use terragraph.Engine.Store.{Io, Store}
use terragraph.Engine.Journal.{
  ExecutionRecord, ExecutionNode, Content, Session, Phase, pending, preparing, is_some, publish,
  phase_of, execution_needs_recovery,
}
use terragraph.Engine.Recovery.{cleanup_execution}
use terragraph.Engine.SavedNode.{
  Answers, is_pending, is_planned, is_completed, is_preparing, note_saved_failure, both_are,
  save_frontier_node, apply_saved_node, ◌then_run◌,
}

-- What the graph's digest and the plugins answer to the whole execution.
pub record Setting : Type 0 where
  -- savedGraphBinding, `none` for an error.
  pub binding : Option Str
  pub plugins_started : Bool
  -- finishPlugins returns no error.
  pub plugins_finished : Bool

-- An upstream node that is in the record has been completed.
abbrev pub phase_done : Option Phase → Bool
phase_done none = true
phase_done (some p) = is_completed p

-- The readiness of a node, by the phases at the start of the loop.
unfoldable pub is_ready : Graph → List ExecutionNode → Str → Bool
is_ready g nodes name = all (λ u. phase_done (phase_of u nodes)) (g.ins name)

unfoldable pub on_frontier : Graph → List ExecutionNode → ExecutionNode → Bool
on_frontier g nodes n = is_pending n.phase && is_ready g nodes n.name

-- The record of finishSaved, for a run that failed or not.
abbrev pub settle_node : ExecutionNode → ExecutionNode
settle_node n = if is_preparing n.phase then record n { phase = pending } else n

abbrev settle_nodes : ℕ → ExecutionRecord → ExecutionRecord
settle_nodes now r = record r {
  nodes = map settle_node r.nodes;
  updated_at = now;
  finished_at = none;
  status = bytes "ready_for_next_plan";
}

unfoldable pub settled_status : ℕ → Bool → ExecutionRecord → ExecutionRecord
settled_status now run_failed next =
    if execution_needs_recovery next
    then record next { status = bytes "needs_recovery" }
    else if any (λ n. is_planned n.phase) next.nodes
    then record next { status = bytes "waiting_for_apply" }
    else if not (any (λ n. is_pending n.phase) next.nodes)
    then record next {
      status = if run_failed then bytes "failed" else bytes "completed";
      finished_at = some now;
    }
    else next

unfoldable pub settled_record : ℕ → Bool → ExecutionRecord → ExecutionRecord
settled_record now run_failed r = settled_status now run_failed (settle_nodes now r)

-- The record that ApplySavedPlans publishes last.
unfoldable pub applied_record : ℕ → ExecutionRecord → ExecutionRecord
applied_record now r =
    if all (λ n. is_completed n.phase) r.nodes
    then record r { status = bytes "completed"; updated_at = now; finished_at = some now }
    else record r { status = bytes "ready_for_next_plan"; updated_at = now }

module _ (draw : ℕ → Str) (now : ℕ) (io : Str → ℕ → Io) (answers : Str → Answers) where
  -- What a failed node leaves: its code, whatever becomes of that write.
  abbrev noted : Str → Str → Bool × Session → Bool × Session
  noted name code (true, s) = (true, s)
  noted name code (false, s) = (false, (note_saved_failure draw now (io name 9) name code s).1)

  abbrev finished : Str → Bool × Session → Bool × Session
  finished name (true, s) = ((answers name).finished, s)
  finished name (false, s) = (false, s)

  -- The loop of SavePlans.
  unfoldable pub save_nodes : List ExecutionNode → Session → Bool × Session
  save_nodes [] s = (true, s)
  save_nodes (n ∷ rest) s =
      finished n.name (
        noted n.name (bytes "plan_step_failed")
          (save_frontier_node draw now (io n.name) (answers n.name) n.name s))
      then_run save_nodes rest

  -- The loop of ApplySavedPlans.
  unfoldable pub apply_nodes : List ExecutionNode → Session → Bool × Session
  apply_nodes [] s = (true, s)
  apply_nodes (n ∷ rest) s =
      finished n.name (
        noted n.name (bytes "apply_step_failed")
          (apply_saved_node draw now (io n.name) (answers n.name) n s))
      then_run apply_nodes rest

  abbrev waiting_record : ExecutionRecord → ExecutionRecord
  waiting_record r = record r { status = bytes "waiting_for_apply"; updated_at = now }

  -- The end of SavePlans: without a node on the frontier it is an error.
  unfoldable pub save_ended : Bool → Session → Bool × Session
  save_ended found s =
      if found then publish draw (io [] 2) (waiting_record s.record_of) s else (false, s)

  -- The record is bound to the graph, and the nodes of the frontier are planned.
  unfoldable pub save_frontier : Graph → Str → Session → Bool × Session
  save_frontier g binding s =
      publish draw (io [] 1) (record s.record_of { binding = binding }) s then_run λ t.
      let frontier = keep (on_frontier g t.record_of.nodes) t.record_of.nodes in
      save_nodes frontier t then_run save_ended (not (is_nil frontier))

  unfoldable pub save_bound : Graph → Setting → Option Str → Session → Bool × Session
  save_bound g setting none s = (false, s)
  save_bound g setting (some binding) s =
      if not (is_nil s.record_of.binding) && not (str_eq s.record_of.binding binding)
      then (false, s)
      else if not setting.plugins_started
      then (false, s)
      else save_frontier g binding s

  -- SavePlans from the check of the status on; the first Boolean says if its end is recorded.
  unfoldable pub save_plans : Graph → Setting → Session → Bool × (Bool × Session)
  save_plans g setting s =
      if not (str_eq s.record_of.status (bytes "preparing"))
        && not (str_eq s.record_of.status (bytes "ready_for_next_plan"))
      then (false, (false, s))
      else (true, save_bound g setting setting.binding s)

  -- The planned nodes, and the record that says what is left.
  unfoldable pub apply_planned : Session → Bool × Session
  apply_planned s = apply_nodes (keep (λ n. is_planned n.phase) s.record_of.nodes) s then_run λ t.
      publish draw (io [] 2) (applied_record now t.record_of) t

  -- ApplySavedPlans from the check of the status on.
  unfoldable pub apply_saved_plans : Setting → Session → Bool × (Bool × Session)
  apply_saved_plans setting s =
      if not (str_eq s.record_of.status (bytes "waiting_for_apply"))
      then (false, (false, s))
      else if not (both_are setting.binding (some s.record_of.binding))
      then (false, (false, s))
      else if not setting.plugins_started
      then (true, (false, s))
      else (true, apply_planned s)

  -- (executionSession).finishSaved
  unfoldable pub finish_saved : Bool → Session → Bool × Session
  finish_saved run_failed s =
      if is_some s.record_of.finished_at && not (execution_needs_recovery s.record_of)
      then (true, s)
      else publish draw (io [] 3) (settled_record now run_failed s.record_of) s

  abbrev swept : Bool → Session → Bool × Session
  swept result s = (
    result,
    record s { store = (cleanup_execution (io (bytes "cleanup")) 0 s.record_of s.store).1 },
  )

  abbrev settled : Bool → Bool × Session → Bool × Session
  settled result (true, s) = swept result s
  settled result (false, s) = (false, s)

  -- (executionSession).finishSavedSession
  unfoldable pub finish_saved_session : Setting → Bool × (Bool × Session) → Bool × Session
  finish_saved_session setting (finalize, (went, s)) =
      let result = went && setting.plugins_finished in
      if not finalize
      then (result, s)
      else if not result || execution_needs_recovery s.record_of
      then settled result (finish_saved (not result) s)
      else swept result s
