-- ===== src/Tests/Runs.antt =====
-- Runs of the sample graph in which a node fails.
use terragraph.Prelude.{
  ◌≡◌, refl, true, false, Str, List, [], ◌∷◌, some, map, str_eq, str_ltb, contains, insert, sort_by,
  tally,
}
use terragraph.Graph.{add_edges, unwired}
use terragraph.Engine.Run.{
  Course, NodeRun, NodeStatus, applied, failed, not_run, run_levels, run_from, worker, concluded,
  entries, merge, first_error, halt, mark_level, mark_not_run, node_failed, turned,
}
use terragraph.Engine.Run.Report.{is_at, scheduled, run_levels-scheduled}
use terragraph.Engine.Run.Stop.{IsCut, run_levels-IsCut}
use terragraph.Tests.Graphs.{vpc, eks, db, app, sample}

program : Unit {0}
unfolding sample add_edges unwired run_levels run_from worker concluded entries merge first_error
    halt mark_level mark_not_run sort_by insert str_eq str_ltb contains
program = tt

abbrev layers : List (List Str)
layers = (vpc ∷ []) ∷ (db ∷ eks ∷ []) ∷ (app ∷ []) ∷ []

-- Everything goes well, but the node `eks` fails.
abbrev pub course : Course Str
course = record {
  live_level = λ _. true;
  live = λ _. true;
  prepared = λ _. true;
  action = λ name outputs. record { outputs = some name; status = applied; err = str_eq name eks };
  completed = λ _. true;
  told = λ _. true;
  after_level = λ _. true;
  finish = λ _ level. level;
}

abbrev shown : List NodeRun → List (Str × NodeStatus)
shown = map (λ r. (r.node, r.status))

stopped_run :
    shown (run_levels sample false course false layers).0
    ≡ (vpc, applied) ∷ (db, applied) ∷ (eks, failed) ∷ (app, not_run) ∷ []
unfolding program
stopped_run = refl

first_failure : (run_levels sample true course false layers).1 ≡ some (node_failed eks)
unfolding program
first_failure = refl

run_levels-scheduled_example :
    tally (is_at app 3) (run_levels sample false course false layers).0
    ≡ scheduled app 3 0 (turned false layers)
run_levels-scheduled_example =
    run_levels-scheduled sample false course (λ _ _ _. refl) false layers app 3

run_levels-IsCut_example : IsCut sample true course (run_levels sample true course false layers).0
run_levels-IsCut_example = run_levels-IsCut sample true course (λ _ _ _. refl) false layers
