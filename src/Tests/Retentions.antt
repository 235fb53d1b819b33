-- ===== src/Tests/Retentions.antt =====
-- Pruning a store with one record, and the recovery of the outputs of an applied node.
use terragraph.Prelude.{
  ◌≡◌, inl, inr, refl, true, false, bytes, str_eq, str_ltb, sort, [], ◌∷◌, some, lookup, insert,
  erase, has_prefix, has_suffix, Str,
}
use terragraph.Engine.Store.{
  Store, read, write, write_over, commit, valid_key, is_hex_name, list, remove, remove_at,
  new_revision,
}
use terragraph.Engine.Journal.{
  announce, record_plugins, record_plugin, ExecutionRecord, Content, journal, record_key, publish,
  applied, transition, transition_to, set_phase, phase_of, recovered_record,
  execution_needs_recovery,
}
use terragraph.Engine.Journal.Calls.{
  PluginCall, with_call, put_call, calls_need_recovery, call_unresolved, released,
}
use terragraph.Engine.Recovery.{
  Verdict, accepted, read_execution_record, decoded, acceptable, cleanup_execution, cleanup_nodes,
}
use terragraph.Engine.Retention.{
  Visit, drop_record, drop_backup, prune_finished, prune_waiting, prune_found, prune_key,
  prune_keys, prune_executions, nodes_expired, plan_expired,
}
use terragraph.Engine.Recovery.Outputs.{
  Collected, collect_outputs, recover_node_outputs, check_backend, collect_nodes, retire,
  outputs_found, recover_outputs,
}
use terragraph.Engine.Recovery.Outputs.Retired.{IsCollected, recover_outputs-accepted}
use terragraph.Engine.SavedNode.{◌then_run◌}
use terragraph.Engine.Retention.Protected.{prune_executions-protected}
use terragraph.Tests.Stores.{good, counter}
use terragraph.Tests.Journals.{id, started, uncertain, stored, vpc}

program : Unit {0}
unfolding write write_over commit read valid_key is_hex_name has_prefix has_suffix lookup insert
    erase str_eq str_ltb sort list remove remove_at publish execution_needs_recovery
    calls_need_recovery call_unresolved released read_execution_record decoded acceptable
    cleanup_execution cleanup_nodes drop_record drop_backup prune_finished prune_waiting prune_found
    prune_key prune_keys prune_executions nodes_expired plan_expired collect_outputs
    recover_node_outputs collect_nodes retire outputs_found recover_outputs ◌then_run◌ transition
    transition_to with_call put_call check_backend announce record_plugins record_plugin set_phase
    phase_of recovered_record
program = tt

abbrev pub visit : Visit
visit = record {
  record_read = good;
  plan_read = λ _. good;
  expiry_write = good;
  cleanup = λ _. good;
  backup_read = good;
  backup_remove = good;
  local_backup = true;
  record_remove = good;
}

abbrev ended : ExecutionRecord
ended = record started { finished_at = some 5; status = bytes "completed" }

pruned_in_time :
    prune_executions counter good (λ _. visit) 50 30 (bytes "main") (stored ended)
    ≡ (true, (id ∷ [], record { objects = []; drawn = 1 }))
unfolding program
pruned_in_time = refl

kept_until_then :
    prune_executions counter good (λ _. visit) 34 30 (bytes "main") (stored ended)
    ≡ (true, ([], stored ended))
unfolding program
kept_until_then = refl

uncertain_key : has_suffix (record_key uncertain) (bytes ".json") ≡ true
unfolding program
uncertain_key = refl

uncertain_there :
    lookup (record_key uncertain) (stored uncertain).objects
    ≡ some (record { revision = new_revision counter 0; body = journal uncertain })
unfolding program
uncertain_there = refl

uncertain_unresolved : execution_needs_recovery uncertain ≡ true
unfolding program
uncertain_unresolved = refl

prune_executions-protected_example :
    lookup
      (record_key uncertain)
      (prune_executions counter good
        (λ _. visit)
        50
        30
        (bytes "main")
        (stored uncertain)).1.1.objects
    ≡ some (record { revision = new_revision counter 0; body = journal uncertain })
prune_executions-protected_example =
    prune_executions-protected counter good (λ _. visit) 50 30 (bytes "main") (record_key uncertain)
      (record { revision = new_revision counter 0; body = journal uncertain }) uncertain
      (stored uncertain) uncertain_key uncertain_there refl (inr (inl uncertain_unresolved))

abbrev half_done : ExecutionRecord
half_done = record started { nodes = record vpc { phase = applied } ∷ [] }

-- A credential that the recovery takes and gives back.
abbrev leased : Str → PluginCall
leased phase = record {
  id = phase;
  alias = bytes "vault";
  kind = bytes "credential_provider";
  effect = bytes "idempotent_external";
  mode = bytes "enforce";
  node = bytes "vpc";
  phase = phase;
  status = bytes "completed";
  lease = some (bytes "7");
}

abbrev readable : Str → Collected
readable name = record {
  target = some (bytes "local");
  known = true;
  read_only = false;
  allow_init = true;
  prepared = true;
  workspace_known = true;
  initialized = true;
  outputs_kept = true;
  init_calls = (good, leased (bytes "credential.acquire")) ∷ [];
  output_calls = [];
  close_calls = (good, leased (bytes "credential.release")) ∷ [];
  closed = true;
}

abbrev recovered : Verdict × Store Content
recovered =
    recover_outputs counter 9 (λ _ _. good) readable (bytes "main") (stored half_done) id true

recovered-accepted : recovered.0 ≡ accepted
unfolding program
recovered-accepted = refl

recover_outputs-accepted_example :
    (true ≡ true)
    × IsCollected counter 9
        (λ _ _. good)
        readable
        (read_execution_record good (stored half_done) id)
        recovered.1
recover_outputs-accepted_example =
    recover_outputs-accepted counter 9 (λ _ _. good) readable (bytes "main") (stored half_done) id
      true recovered-accepted
