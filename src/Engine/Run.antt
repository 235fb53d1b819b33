-- ===== src/Engine/Run.antt =====
-- internal/engine/run.go: `run_levels` is runLevels, the loop behind plan, apply and destroy.
-- What a worker meets (the context, the plugins, the action of its node) and what is checked
-- between levels are the record `Course`. `finish n` is the order in which the workers of the
-- n-th level end; each of them sees the outputs and the failures from before its level only.
-- Messages, diagnostics and the buffering of output are not modelled.
pub mod Report
pub mod Workers
pub mod Stop
pub mod Level
use terragraph.Prelude.{
  ℕ, zero, suc, ◌+◌, ltb, ◌==◌, Bool, true, false, not, ◌&&◌, ◌||◌, Str, str_eq, str_ltb, List, [],
  ◌∷◌, ◌++◌, Option, none, some, if◌then◌else◌, any, map, contains, insert, lookup, sort_by,
  reverse,
}
use terragraph.Graph.{Graph}

pub data NodeStatus : Type 0 where
  planned applied unchanged destroyed failed not_run : NodeStatus

-- What an action returns; `outputs` is `none` for nil.
pub record Answer (O : Type 0) : Type 0 where
  pub outputs : Option O
  pub status : NodeStatus
  pub err : Bool

pub record NodeRun : Type 0 where
  pub node : Str
  pub level : ℕ
  pub status : NodeStatus
  pub err : Bool

pub data RunError : Type 0 where
  cancelled completion_failed event_failed after_level_failed : RunError
  node_failed : Str → RunError

pub record Course (O : Type 0) : Type 0 where
  -- ctx.Err() is nil before the level, and in the worker.
  pub live_level : ℕ → Bool
  pub live : Str → Bool
  -- Emit of node.prepare returns nil.
  pub prepared : Str → Bool
  pub action : Str → List (Str × O) → Answer O
  -- CompletionError, Emit of level.finished, and afterLevel return nil after the level.
  pub completed : ℕ → Bool
  pub told : ℕ → Bool
  pub after_level : ℕ → Bool
  pub finish : ℕ → List Str → List Str

-- `failed` and `applied` of the loop, as they stand between levels.
pub record Progress (O : Type 0) : Type 0 where
  pub failed_nodes : List Str
  pub outputs_of : List (Str × O)

-- (Options).parallelism, for a setting that may be negative in the source and is then 0 here.
unfoldable pub parallelism : ℕ → ℕ
parallelism zero = 1
parallelism (suc n) = suc n

abbrev is_not_run : NodeStatus → Bool
is_not_run not_run = true
is_not_run _ = false

-- The entries of markNotRun for the levels from the n-th on.
unfoldable pub mark_level : ℕ → List Str → List NodeRun
mark_level n level =
    map (λ name. record { node = name; level = suc n; status = not_run; err = false }) level

unfoldable pub mark_not_run : ℕ → List (List Str) → List NodeRun
mark_not_run n [] = []
mark_not_run n (level ∷ rest) = mark_level n level ++ mark_not_run (suc n) rest

abbrev pub is_named : Option Str → Bool
is_named none = false
is_named (some name) = true

abbrev pub keep_first : Option RunError → Option Str → Option RunError
keep_first none none = none
keep_first none (some name) = some (node_failed name)
keep_first (some e) _ = some e

abbrev pub go_on :
    ℕ
    → List NodeRun
    → List (List Str)
    → Option RunError
    → List NodeRun × Option RunError
    → List NodeRun × Option RunError
go_on n done rest (some e) later = (done ++ mark_not_run (suc n) rest, some e)
go_on n done rest none later = (done ++ later.0, later.1)

module _ {O : Type 0} (g : Graph) (keep_going : Bool) (c : Course O) where
  abbrev pub stopped : Answer O
  stopped = record { outputs = none; status = not_run; err = true }

  -- What the worker makes of an action's answer.
  unfoldable pub concluded : Answer O → Answer O
  concluded a =
      if a.err
      then record {
        outputs = none;
        status = if is_not_run a.status then not_run else failed;
        err = true;
      }
      else a

  -- One goroutine of a level.
  unfoldable pub worker : Progress O → Str → Answer O
  worker p name =
      if not (c.live name)
      then stopped
      else if keep_going && any (λ parent. contains parent p.failed_nodes) (g.ins name)
      then stopped
      else if not (c.prepared name)
      then stopped
      else concluded (c.action name p.outputs_of)

  abbrev pub entry : ℕ → Progress O → Str → NodeRun
  entry n p name =
      let a = worker p name in record { node = name; level = suc n; status = a.status; err = a.err }

  unfoldable pub entries : ℕ → Progress O → List Str → List NodeRun
  entries n p level = map (entry n p) (c.finish n level)

  abbrev pub note_outputs : Str → Answer O → List (Str × O) → List (Str × O)
  note_outputs name a m =
      if a.err then m else elim a.outputs [ none ↦ m | some o ↦ insert name o m ]

  -- What the workers of a level leave behind, in the order in which they end.
  unfoldable pub merge : Progress O → List Str → Progress O → Progress O
  merge before [] p = p
  merge before (name ∷ rest) p = merge before rest (record {
    failed_nodes = if (worker before name).err then name ∷ p.failed_nodes else p.failed_nodes;
    outputs_of = note_outputs name (worker before name) p.outputs_of;
  })

  -- The first error of the level, in the order of the level.
  unfoldable pub first_error : Progress O → List Str → Option Str
  first_error p [] = none
  first_error p (name ∷ rest) =
      let later = first_error p rest in if (worker p name).err then some name else later

  -- What ends the run after a level of which `error` is the first error.
  unfoldable pub halt : ℕ → Option Str → Option RunError
  halt n error =
      if not (c.completed n)
      then some completion_failed
      else if not (c.told n)
      then some event_failed
      else if not keep_going && is_named error
      then keep_first none error
      else if not (c.after_level n)
      then some after_level_failed
      else none

  -- The loop of runLevels, from the n-th level on: the entries it adds and the error it returns.
  unfoldable pub run_from :
      ℕ → List (List Str) → Progress O → Option RunError → List NodeRun × Option RunError
  run_from n [] p first = ([], first)
  run_from n (level ∷ rest) p first =
      let error = first_error p level in
      let later = run_from (suc n) rest (merge p (c.finish n level) p) (keep_first first error) in
      if not (c.live_level n)
      then (mark_not_run n (level ∷ rest), some cancelled)
      else go_on n (entries n p level) rest (halt n error) later

abbrev pub run_ltb : NodeRun → NodeRun → Bool
run_ltb a b = if a.level == b.level then str_ltb a.node b.node else ltb a.level b.level

abbrev pub turned : Bool → List (List Str) → List (List Str)
turned reverse_order levels = if reverse_order then reverse levels else levels

-- (Engine).runLevels, on the levels of the selection.
unfoldable pub run_levels :
    {O : Type 0} → Graph → Bool → Course O → Bool → List (List Str) → List NodeRun × Option RunError
run_levels g keep_going c reverse_order levels =
    let out =
      run_from g keep_going c 0 (turned reverse_order levels)
        (record { failed_nodes = []; outputs_of = [] }) none in
    (sort_by run_ltb out.0, out.1)
