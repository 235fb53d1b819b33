-- ===== src/Engine/Apply.antt =====
-- internal/engine/prepared_plan.go: `apply_prepared_plan` is applyPreparedPlan, from the contracts
-- to the last record. What the runtime, the human, the plugins and the checks of contracts and
-- snapshots answer is the record `Answers`, and `io n` is how the store's n-th call comes out.
pub mod Ahead
pub mod Behind
use terragraph.Prelude.{
  ℕ, suc, ◌+◌, ◌≡◌, inl, inr, refl, sym, ap, ◌∙◌, arith, Bool, true, false, not, ◌&&◌, ◌||◌, Str,
  bytes, List, [], ◌∷◌, Option, none, some, if◌then◌else◌, is_nil, lookup, Bool-cases, Option-cases,
}
use terragraph.Engine.Approve.{
  Approve, ResourceChange, not_permitted, all_permitted, not_permitted-empty,
}
use terragraph.Engine.Store.{Io}
use terragraph.Engine.Journal.{
  Phase, applying, applied, completed, indeterminate, unsuccessful, Session, transition,
  execution_needs_recovery, is_some,
}
use terragraph.Engine.Journal.Steps.{IsStored}
use terragraph.Engine.Journal.Moves.{execution_needs_recovery-phase}

pub data Applied : Type 0 where
  succeeded not_started broken : Applied

pub record Answers : Type 0 where
  pub contracts_hold : Bool
  pub change_set : Option (List ResourceChange)
  -- `none` for an error of the prompt.
  pub human : Option Bool
  pub admitted : Bool
  pub runtime : Applied
  pub outputs_read : Bool
  pub outputs_valid : Bool
  pub snapshot_written : Bool

-- preparedNodePlan and the options of the run, as far as the function reads them; `level` is
-- what approveFor gives.
pub record Plan : Type 0 where
  pub name : Str
  pub changed : Bool
  pub verify_unchanged : Bool
  pub level : Approve
  pub auto_approve : Bool

pub data Status : Type 0 where
  status_unchanged status_applied : Status
  contracts_failed unreadable_plan blocked prompt_failed unapproved not_admitted : Status
  journal_failed runtime_failed outputs_failed : Status

-- The session of the plan where it has one, and, once the runtime was told to apply the plan,
-- the session of that moment.
pub record Run : Type 0 where
  pub session : Option Session
  pub started_with : Option (Option Session)

abbrev keep_session : Run → Bool × Session → Bool × Run
keep_session run (b, s) = (b, record run { session = some s })

abbrev pub is_approved : Option Bool → Bool
is_approved none = false
is_approved (some b) = b

module _ (draw : ℕ → Str) (io : ℕ → Io) (now : ℕ) (plan : Plan) (a : Answers) where
  -- (preparedNodePlan).record
  unfoldable pub record_phase : ℕ → Phase → Run → Option Session → Bool × Run
  record_phase n phase run none = (true, run)
  record_phase n phase run (some s) =
      keep_session run (transition draw (io n) now plan.name phase [] [] s)

  abbrev pub settled : Status → Bool × Run → Status × Run
  settled status (true, run) = (status, run)
  settled status (false, run) = (journal_failed, run)

  -- Reading the outputs up to the record "completed", which both exits share.
  unfoldable pub publish_outputs : ℕ → Status → Run → Status × Run
  publish_outputs n status run =
      if not a.outputs_read || not a.outputs_valid || not a.snapshot_written
      then (outputs_failed, run)
      else settled status (record_phase n completed run run.session)

  abbrev pub after_applied : Bool × Run → Status × Run
  after_applied (true, run) = publish_outputs 2 status_applied run
  after_applied (false, run) = (journal_failed, run)

  -- From the return of ApplyPlan on.
  unfoldable pub after_apply : Applied → Run → Status × Run
  after_apply succeeded run = after_applied (record_phase 1 applied run run.session)
  after_apply not_started run = (runtime_failed, (record_phase 1 unsuccessful run run.session).1)
  after_apply broken run = (runtime_failed, (record_phase 1 indeterminate run run.session).1)

  -- ApplyPlan, once the journal has taken "applying".
  abbrev pub start : Bool × Run → Status × Run
  start (true, run) = after_apply a.runtime (record run { started_with = some run.session })
  start (false, run) = (journal_failed, run)

  unfoldable pub decide : Run → Option (List ResourceChange) → Status × Run
  decide run none = (unreadable_plan, run)
  decide run (some changes) =
      if not (is_nil (not_permitted changes plan.level))
      then (blocked, run)
      else if not plan.auto_approve && not (is_some a.human)
      then (prompt_failed, run)
      else if not plan.auto_approve && not (is_approved a.human)
      then (unapproved, run)
      else if not a.admitted
      then (not_admitted, run)
      else start (record_phase 0 applying run run.session)

  -- (Engine).applyPreparedPlan
  unfoldable pub apply_prepared_plan : Run → Status × Run
  apply_prepared_plan run =
      if not a.contracts_hold
      then (contracts_failed, run)
      else if not plan.changed && not plan.verify_unchanged
      then publish_outputs 0 status_unchanged run
      else decide run a.change_set
