-- ===== src/Tests/Saves.antt =====
-- A saved execution of two nodes, of which the second needs the first: the first is planned and
-- applied, then the second.
use terragraph.Prelude.{
  ℕ, All, ◌≡◌, ◌<◌, refl, arith, true, false, Str, bytes, str_eq, str_eq_iff, List, [], ◌∷◌, ◌++◌,
  if◌then◌else◌, Option, none, some, contains, count, lookup, insert, erase, has_prefix, has_suffix,
  is_nil, keep, map, sort, str_ltb, sort_by,
}
use terragraph.Graph.{Graph, unwired, add_edge}
use terragraph.Engine.Approve.{not_permitted, blocks, permits}
use terragraph.Engine.Store.{
  Store, read, write, write_over, commit, valid_key, is_hex_name, list, remove, remove_at,
}
use terragraph.Engine.Journal.{
  announce, record_plugins, record_plugin, no_plugins, ExecutionNode, ExecutionRecord, Content,
  journal, Phase, pending, planned, completed, Session, publish, transition, transition_to,
  set_phase, phase_of, execution_needs_recovery, fail,
}
use terragraph.Engine.Journal.Calls.{calls_need_recovery, call_unresolved, released}
use terragraph.Engine.Journal.Placed.{names_of}
use terragraph.Engine.Recovery.{
  check_execution_barrier, barrier_of, judge, opened_session, read_execution_record, decoded,
  acceptable, cleanup_execution, cleanup_nodes,
}
use terragraph.Engine.Apply.{
  record_phase, publish_outputs, after_apply, decide, apply_prepared_plan,
}
use terragraph.Engine.SavedNode.{
  Answers, initialized, set_node, set_review, note_saved_failure, retain_plan, keep_plan,
  prepare_plan, init_node, save_frontier_node, bundle_fits, read_plan_bundle, apply_bundle,
  apply_read, apply_saved_node, ◌then_run◌,
}
use terragraph.Engine.Saved.{
  is_ready, on_frontier, settled_record, settled_status, applied_record, save_nodes, apply_nodes,
  save_ended, save_frontier, save_bound, save_plans, apply_planned, apply_saved_plans, finish_saved,
  finish_saved_session,
}
use terragraph.Engine.Saved.Commands.{
  Call, Command, save, apply, fresh, fresh_command, saved_apply, opened, open_saved_execution,
  save_command, apply_command, run_command, run_commands,
}
use terragraph.Engine.Saved.Order.{IsOrdered}
use terragraph.Engine.Saved.Kept.{IsStoreOrdered}
use terragraph.Engine.Saved.Histories.{HasDistinctNames, run_commands-IsStoreOrdered}
use terragraph.Engine.Saved.Frontier.{keep-on_frontier}
use terragraph.Tests.Stores.{good, counter}
use terragraph.Tests.Journals.{vpc, id, started, session}
use terragraph.Engine.Retention.{
  prune_executions, prune_keys, prune_key, prune_found, prune_finished,
}
use terragraph.Engine.Begin.{Begin, begin_execution, write_begun, begin_nodes}
use terragraph.Tests.Retentions.{visit}
use terragraph.Tests.Applies.{plan, answers}

program : Unit {0}
unfolding write write_over commit read valid_key is_hex_name has_prefix has_suffix lookup insert
    erase str_eq str_ltb sort_by sort list remove remove_at contains count publish transition
    transition_to announce record_plugins record_plugin set_phase phase_of execution_needs_recovery
    calls_need_recovery call_unresolved released not_permitted blocks permits record_phase
    publish_outputs after_apply decide apply_prepared_plan check_execution_barrier barrier_of judge
    read_execution_record decoded acceptable cleanup_execution cleanup_nodes set_node set_review
    note_saved_failure retain_plan keep_plan prepare_plan init_node save_frontier_node bundle_fits
    read_plan_bundle apply_bundle apply_read apply_saved_node ◌then_run◌ is_ready on_frontier
    settled_record settled_status applied_record save_nodes apply_nodes save_ended save_frontier
    save_bound save_plans apply_planned apply_saved_plans finish_saved finish_saved_session opened
    open_saved_execution save_command fresh_command apply_command run_command run_commands fail
    prune_executions prune_keys prune_key prune_found prune_finished begin_execution write_begun
    begin_nodes unwired add_edge
program = tt

abbrev eks : ExecutionNode
eks = record vpc { name = bytes "eks" }

abbrev both_nodes : Graph
both_nodes = record {
  nodes = bytes "vpc" ∷ bytes "eks" ∷ [];
  edges = [];
  outs = λ a. if str_eq a (bytes "vpc") then bytes "eks" ∷ [] else [];
  ins = λ a. if str_eq a (bytes "eks") then bytes "vpc" ∷ [] else [];
}

abbrev resting : List ExecutionNode
resting = vpc ∷ eks ∷ []

abbrev pub paused : ExecutionRecord
paused = record started { operation = saved_apply; nodes = resting }

abbrev pub plan_key : Str → Str
plan_key name =
    if str_eq name (bytes "vpc")
    then bytes "plan-0123456789abcdef0123456789abcdef"
    else bytes "plan-fedcba9876543210fedcba9876543210"

abbrev pub goes_well : Str → Answers
goes_well name = record {
  prepared = true;
  init = initialized;
  supported = true;
  before = some (bytes "sources");
  made = some true;
  after = some (bytes "sources");
  inspected = true;
  kept = some (bytes "sources");
  plan_bytes = bytes "plan";
  bundle_id = plan_key name;
  expires_at = 100;
  review = bytes "1 to add";
  finished = true;
  target = some (bytes "local");
  written = true;
  plan_for = plan;
  applying_answers = answers;
}

abbrev call : Call
call = record {
  now = 2;
  io = λ _ _. good;
  answers = goes_well;
  setting = record {
    binding = some (bytes "graph");
    plugins_started = true;
    plugins_finished = true;
  };
  selected = true;
  scope = bytes "main";
  id = id;
  host = no_plugins;
}

abbrev pub at_rest : Store Content
at_rest =
    (write counter good (record { objects = []; drawn = 0 }) (id ++ bytes ".json") (journal paused)
      []).1

abbrev phases : List Command → List (Option Phase)
phases cs = elim (read_execution_record good (run_commands counter both_nodes cs at_rest) id) [
  | none ↦ []
  | some (r, revision) ↦ map (λ name. phase_of name r.nodes) (names_of r.nodes)
]

after_save : phases (save call ∷ []) ≡ some planned ∷ some pending ∷ []
unfolding program
after_save = refl

after_two_rounds :
    phases (save call ∷ apply call ∷ save call ∷ apply call ∷ [])
    ≡ some completed ∷ some completed ∷ []
unfolding program
after_two_rounds = refl

resting-IsOrdered : IsOrdered both_nodes resting
unfolding program
resting-IsOrdered = (
  λ n u st c. ground (arith),
  λ a. ground (arith, str_eq_iff (bytes "vpc") a, str_eq_iff (bytes "eks") a),
)

abbrev fixed : ℕ → Str
fixed n = bytes "0123456789abcdef0123456789abcdef"

abbrev begin : Begin
begin = record {
  now = 1;
  scope = bytes "main";
  operation = [];
  names = bytes "vpc" ∷ bytes "eks" ∷ [];
  selection = none;
  read_only = false;
  has_plugins = false;
  target = λ name. some (bytes "local");
  retention = 30;
  barrier = λ _. good;
  listing = good;
  visit = λ _. visit;
  record_write = good;
  host = no_plugins;
  plugins_started = true;
  plugins_finished = true;
  finishing = λ _. good;
}

abbrev nothing : Store Content
nothing = record { objects = []; drawn = 0 }

abbrev history : List Command
history = fresh begin call ∷ apply call ∷ save call ∷ []

after_history :
    (elim (read_execution_record good (run_commands fixed both_nodes history nothing) id) [
      | none ↦ []
      | some (r, revision) ↦ map (λ name. phase_of name r.nodes) (names_of r.nodes)
    ])
    ≡ some completed ∷ some planned ∷ []
unfolding program
after_history = refl

history-HasDistinctNames : All HasDistinctNames history
unfolding program
history-HasDistinctNames = (
  λ a. ground (arith, str_eq_iff (bytes "vpc") a, str_eq_iff (bytes "eks") a),
  (refl, (refl, tt)),
)

nothing-IsStoreOrdered : IsStoreOrdered both_nodes nothing
unfolding lookup
nothing-IsStoreOrdered key o e = absurd (cc)

run_commands-IsStoreOrdered_example :
    IsStoreOrdered both_nodes (run_commands fixed both_nodes history nothing)
run_commands-IsStoreOrdered_example =
    run_commands-IsStoreOrdered both_nodes fixed history nothing history-HasDistinctNames
      nothing-IsStoreOrdered

height : Str → ℕ
height a = if str_eq a (bytes "eks") then 1 else 0

height-up : (a b : Str) → contains a (both_nodes.ins b) ≡ true → height a < height b
unfolding program height
height-up a b c = ground (arith, str_eq_iff a (bytes "eks"), str_eq_iff (bytes "vpc") a)

keep-on_frontier_example : is_nil (keep (on_frontier both_nodes resting) resting) ≡ false
keep-on_frontier_example =
    keep-on_frontier both_nodes height resting height-up resting-IsOrdered.1 refl refl

abbrev pub reviewed : Session
reviewed =
    elim (read_execution_record good (run_commands counter both_nodes (save call ∷ []) at_rest)
      id) [
        | none ↦ session
        | some (r, revision) ↦
            opened_session r revision (run_commands counter both_nodes (save call ∷ []) at_rest)
      ]

abbrev pub vpc_planned : ExecutionNode
vpc_planned = record vpc {
  phase = planned;
  plan_id = plan_key (bytes "vpc");
  review = some (bytes "1 to add");
}

vpc_applied :
    (apply_saved_node counter 2 (λ _. good) (goes_well (bytes "vpc")) vpc_planned reviewed).0 ≡ true
unfolding program
vpc_applied = refl

vpc_expired :
    (apply_saved_node counter 100 (λ _. good) (goes_well (bytes "vpc")) vpc_planned reviewed).0
    ≡ false
unfolding program
vpc_expired = refl
