-- ===== src/Tests/Journals.antt =====
-- A run of one record: a node is applied, the run ends, the barrier, a recovery.
use terragraph.Prelude.{
  map, Bool, ◌⊎◌, ◌≡◌, refl, Bool, true, false, ◌&&◌, Str, bytes, List, [], ◌∷◌, none, some, str_eq,
  lookup, insert, has_prefix, has_suffix, All, sort,
}
use terragraph.Engine.Store.{
  Io, Store, ok, read, write, write_over, commit, valid_key, is_hex_name, list, new_revision,
}
use terragraph.Engine.Journal.{
  announce, record_plugins, applied, is_told, record_plugin, no_plugins, Phase, pending, applying,
  indeterminate, ExecutionNode, ExecutionRecord, Content, journal, Session, record_key, publish,
  transition, transition_to, set_phase, phase_of, execution_needs_recovery, finished_record,
  recovered_record,
}
use terragraph.Engine.Journal.Calls.{
  PluginCall, with_call, put_call, calls_need_recovery, call_unresolved, released,
}
use terragraph.Engine.Journal.Moves.{IsStep, transition-ok, transition-unresolved}
use terragraph.Engine.Recovery.{
  clear, check_execution_barrier, recovery_required, barrier_of, judge, read_execution_record,
  decoded, acceptable, Verdict, accepted, recover_replan, replan_found, cancel_execution,
  cancel_found,
}
use terragraph.Engine.Recovery.Gate.{
  IsPassed, IsRetired, check_execution_barrier-clear, recover_replan-accepted,
}
use terragraph.Tests.Stores.{good, late, counter}

program : Unit {0}
unfolding write write_over commit read valid_key is_hex_name has_prefix has_suffix lookup insert
    str_eq publish transition transition_to with_call put_call announce record_plugins record_plugin
    set_phase phase_of execution_needs_recovery finished_record recovered_record calls_need_recovery
    call_unresolved released check_execution_barrier barrier_of judge read_execution_record decoded
    acceptable recover_replan replan_found cancel_execution cancel_found list sort
program = tt

abbrev pub vpc : ExecutionNode
vpc = record {
  name = bytes "vpc";
  review = none;
  target = bytes "local";
  phase = pending;
  plan_id = [];
  code = [];
}

abbrev pub id : Str
id = bytes "run-0123456789abcdef0123456789abcdef"

abbrev pub started : ExecutionRecord
started = record {
  plugin_calls = [];
  selection = none;
  schema_version = 1;
  preparation = [];
  backup = false;
  id = id;
  scope = bytes "main";
  binding = [];
  operation = bytes "apply";
  status = bytes "preparing";
  created_at = 1;
  updated_at = 1;
  finished_at = none;
  recovery_at = none;
  nodes = vpc ∷ [];
}

abbrev pub stored : ExecutionRecord → Store Content
stored r = record {
  objects = (record_key r, record { revision = new_revision counter 0; body = journal r }) ∷ [];
  drawn = 1;
}

abbrev pub session : Session
session = record {
  record_of = started;
  revision = new_revision counter 0;
  store = stored started;
  host = no_plugins;
  finished_events = [];
}

abbrev pub observed : Str → PluginCall
observed status = record {
  id = bytes "1";
  alias = bytes "log";
  kind = bytes "observer";
  effect = bytes "pure";
  mode = bytes "enforce";
  node = bytes "vpc";
  phase = bytes "node.mutation.finished";
  status = status;
  lease = none;
}

abbrev pub step : Phase → Io → Bool × Session
step phase io = transition counter io 2 (bytes "vpc") phase [] [] session

step-done : (step applying good).0 ≡ true
unfolding program
step-done = refl

step-late : (step applying late).0 ≡ false
unfolding program
step-late = refl

-- A plugin is told of the end of the mutation and records a call, whose write fails at the end.
abbrev watched : Session
watched = record session {
  record_of = record started { nodes = record vpc { phase = applying } ∷ [] };
  host =
      λ name phase. (good, observed (bytes "pending")) ∷ (late, observed (bytes "completed")) ∷ [];
}

abbrev ended_step : Bool × Session
ended_step = transition counter good 2 (bytes "vpc") applied [] [] watched

ended_step-done : ended_step.0 ≡ true
unfolding program
ended_step-done = refl

ended_step-call : map (λ c. c.status) ended_step.1.record_of.plugin_calls ≡ bytes "pending" ∷ []
unfolding program
ended_step-call = refl

transition-ok_example : IsStep counter (bytes "vpc") applied watched ended_step
transition-ok_example =
    transition-ok counter good 2 (bytes "vpc") applied [] [] watched ended_step-done

transition-unresolved_example :
    (r : ExecutionRecord) × (revision : Str) × (execution_needs_recovery r ≡ true)
    × (lookup (record_key r) (step applying good).1.store.objects
        ≡ some (record { revision = revision; body = journal r }))
    × ((revision ≡ (step applying good).1.revision)
        ⊎ (is_told applying (phase_of (bytes "vpc") (vpc ∷ [])) ≡ true))
transition-unresolved_example =
    transition-unresolved counter good 2 (bytes "vpc") applying [] [] session refl refl step-done

abbrev pub uncertain : ExecutionRecord
uncertain = record started { nodes = record vpc { phase = indeterminate } ∷ [] }

blocked :
    check_execution_barrier (λ _. good) (stored uncertain) (bytes "main") [] false
    ≡ recovery_required id
unfolding program
blocked = refl

open_barrier : check_execution_barrier (λ _. good) (stored started) (bytes "main") [] false ≡ clear
unfolding program
open_barrier = refl

check_execution_barrier-clear_example :
    (keys : List Str) × (list good (stored started) ≡ ok keys)
    × All (IsPassed (λ _. good) (stored started) (bytes "main") [] false) keys
check_execution_barrier-clear_example =
    check_execution_barrier-clear (λ _. good) (stored started) (bytes "main") [] false open_barrier

abbrev replanned : Verdict × Store Content
replanned = recover_replan counter (λ _. good) 5 (bytes "main") (stored uncertain) id true true

replanned_accepted : replanned.0 ≡ accepted
unfolding program
replanned_accepted = refl

recover_replan-accepted_example :
    ((true && true) ≡ true)
    × IsRetired (stored uncertain) (read_execution_record good (stored uncertain) id) replanned.1
recover_replan-accepted_example =
    recover_replan-accepted counter (λ _. good) 5 (bytes "main") (stored uncertain) id true true
      replanned_accepted

abbrev cancelled : Verdict × Store Content
cancelled = cancel_execution counter (λ _. good) 5 (bytes "main") (stored uncertain) id
