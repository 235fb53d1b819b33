-- ===== src/Tests/Levels.antt =====
-- Two workers of one level, of which the second one enters its outcome first.
use terragraph.Prelude.{
  ◌+◌, ◌*◌, ◌≤◌, ◌≡◌, ◌⊎◌, refl, true, Str, List, [], ◌∷◌, Option, none, some, length, map, count,
  str_eq, contains, remove_first, insert,
}
use terragraph.Graph.{add_edges, unwired}
use terragraph.Engine.Run.{Progress, parallelism, entry, merge, worker, concluded}
use terragraph.Engine.Run.Level.{
  LevelState, begin_level, start_worker, enter_run, free_token, worker_done, Step, starts, enters,
  frees, leaves, Reach, here, next,
}
use terragraph.Engine.Run.Level.Ends.{HasEnded, Reach-bounded, Reach-ends}
use terragraph.Engine.Run.Level.Merged.{Reach-merged}
use terragraph.Tests.Graphs.{eks, db, sample}
use terragraph.Tests.Runs.{course}

program : Unit {0}
unfolding sample add_edges unwired start_worker enter_run free_token worker_done worker concluded
    merge str_eq contains remove_first insert parallelism
program = tt

abbrev nothing : Progress Str
nothing = record { failed_nodes = []; outputs_of = [] }

abbrev level : List Str
level = db ∷ eks ∷ []

abbrev begun : LevelState Str
begun = begin_level nothing level

abbrev taken : LevelState Str → Option (LevelState Str) → LevelState Str
taken s none = s
taken s (some t) = t

abbrev started : LevelState Str → LevelState Str
started s = taken s (start_worker 2 s)

abbrev entered_by : Str → LevelState Str → LevelState Str
entered_by name s = taken s (enter_run sample true course 0 nothing name s)

abbrev left : LevelState Str → LevelState Str
left s = taken s (free_token s)

abbrev ended : LevelState Str → LevelState Str
ended s = taken s (worker_done s)

abbrev both_started : LevelState Str
both_started = started (started begun)

abbrev first_entered : LevelState Str
first_entered = entered_by eks both_started

abbrev both_entered : LevelState Str
both_entered = entered_by db (left first_entered)

abbrev last : LevelState Str
last = ended (ended (left both_entered))

to_both_started : Reach sample true course 0 nothing (parallelism 2) begun 2 both_started
unfolding program
to_both_started = next (next here (starts refl)) (starts refl)

to_last : Reach sample true course 0 nothing (parallelism 2) begun 8 last
unfolding program
to_last =
    next
      (next
        (next (next (next (next to_both_started (enters eks refl)) (frees refl)) (enters db refl))
          (frees refl))
        (leaves refl))
      (leaves refl)

last_failed : last.progress.failed_nodes ≡ eks ∷ []
unfolding program
last_failed = refl

-- A third worker would have to wait for a token.
no_room : start_worker 2 (record both_started { waiting = eks ∷ [] }) ≡ none
unfolding program
no_room = refl

last-HasEnded : HasEnded last
unfolding program
last-HasEnded = (refl, refl)

Reach-bounded_example : length both_started.running + both_started.entered ≤ parallelism 2
Reach-bounded_example =
    Reach-bounded sample true course 0 nothing 2 level 2 both_started to_both_started

Reach-ends_example :
    (2 ≤ 4 * length level)
    × (HasEnded both_started
        ⊎ ((u : LevelState Str) × Step sample true course 0 nothing (parallelism 2) both_started u))
Reach-ends_example = Reach-ends sample true course 0 nothing 2 level 2 both_started to_both_started

Reach-merged_example :
    (order : List Str) × ((a : Str) → count a order ≡ count a level)
    × (last.runs ≡ map (entry sample true course 0 nothing) order)
    × (last.progress ≡ merge sample true course nothing order nothing)
Reach-merged_example =
    Reach-merged sample true course 0 nothing 2 level 8 last to_last last-HasEnded
