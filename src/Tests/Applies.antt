-- ===== src/Tests/Applies.antt =====
-- A plan that is applied, and one whose outputs cannot be read afterwards.
use terragraph.Prelude.{
  ◌≡◌, refl, true, false, bytes, [], ◌∷◌, none, some, has_prefix, lookup, insert, str_eq, sort_by,
}
use terragraph.Engine.Approve.{safe, not_permitted, blocks, permits}
use terragraph.Engine.Store.{write, write_over, commit, read, valid_key, is_hex_name}
use terragraph.Engine.Journal.{
  announce, record_plugins, record_plugin, applying, publish, transition, transition_to, set_phase,
  phase_of, execution_needs_recovery, is_some,
}
use terragraph.Engine.Journal.Calls.{calls_need_recovery, call_unresolved, released}
use terragraph.Engine.Apply.{
  succeeded, Answers, Plan, Run, status_applied, outputs_failed, record_phase, publish_outputs,
  after_apply, decide, apply_prepared_plan,
}
use terragraph.Engine.Apply.Ahead.{IsAllowed, IsJournaled, apply_prepared_plan-started}
use terragraph.Engine.Apply.Behind.{IsSettled, after_apply-covered}
use terragraph.Tests.Stores.{good, counter, created}
use terragraph.Tests.Journals.{session, step}

program : Unit {0}
unfolding write write_over commit read valid_key is_hex_name has_prefix lookup insert str_eq sort_by
    publish transition transition_to announce record_plugins record_plugin set_phase phase_of
    execution_needs_recovery calls_need_recovery call_unresolved released not_permitted blocks
    permits record_phase publish_outputs after_apply decide apply_prepared_plan
program = tt

abbrev pub plan : Plan
plan = record {
  name = bytes "vpc";
  changed = true;
  verify_unchanged = false;
  level = safe;
  auto_approve = false;
}

abbrev pub answers : Answers
answers = record {
  contracts_hold = true;
  change_set = some (created ∷ []);
  human = some true;
  admitted = true;
  runtime = succeeded;
  outputs_read = true;
  outputs_valid = true;
  snapshot_written = true;
}

abbrev lost : Answers
lost = record answers { outputs_read = false }

abbrev begun : Run
begun = record { session = some session; started_with = none }

applied_well : (apply_prepared_plan counter (λ _. good) 2 plan answers begun).0 ≡ status_applied
unfolding program
applied_well = refl

started_at :
    (apply_prepared_plan counter (λ _. good) 2 plan answers begun).1.started_with
    ≡ some (some (step applying good).1)
unfolding program
started_at = refl

apply_prepared_plan-started_example :
    IsAllowed counter (λ _. good) 2 plan answers
    × IsJournaled counter (λ _. good) 2 plan answers (some (step applying good).1)
apply_prepared_plan-started_example =
    apply_prepared_plan-started counter (λ _. good) 2 plan answers session
      (some (step applying good).1) refl started_at

abbrev applying_run : Run
applying_run = record { session = some (step applying good).1; started_with = none }

step-pending : execution_needs_recovery (step applying good).1.record_of ≡ true
unfolding program
step-pending = refl

step-retired : is_some (step applying good).1.record_of.recovery_at ≡ false
unfolding program
step-retired = refl

lost_outputs :
    (after_apply counter (λ _. good) 2 plan lost succeeded applying_run).0 ≡ outputs_failed
unfolding program
lost_outputs = refl

after_apply-covered_example :
    IsSettled counter
      (λ _. good)
      2
      plan
      answers
      (after_apply counter (λ _. good) 2 plan answers succeeded applying_run)
after_apply-covered_example =
    after_apply-covered counter (λ _. good) 2 plan answers succeeded applying_run
      (step applying good).1 (λ h. cc) refl step-retired step-pending
