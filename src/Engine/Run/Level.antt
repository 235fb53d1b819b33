-- ===== src/Engine/Run/Level.antt =====
-- internal/engine/run.go: the goroutines of one level, the part of runLevels between the snapshot
-- of the outputs and wg.Wait, one step at a time. The loop starts a worker once the semaphore has
-- room; a worker enters its outcome under the mutex, then takes its token back, then is done.
-- `before` is what the snapshot and `blocked` hold: no worker sees what its level has entered.
pub mod Merged
pub mod Ends
use terragraph.Prelude.{
  ℕ, zero, suc, ◌-◌, ltb, ◌≡◌, Bool, Str, List, [], ◌∷◌, ◌++◌, Option, none, some, if◌then◌else◌,
  contains, remove_first,
}
use terragraph.Graph.{Graph}
use terragraph.Engine.Run.{Course, NodeRun, Progress, entry, merge}

-- Names that the loop has not reached, workers that have not entered an outcome, workers that
-- have and hold their token, and those that are not yet done; the semaphore's tokens, and the
-- counter of the wait group.
pub record LevelState (O : Type 0) : Type 0 where
  pub waiting : List Str
  pub running : List Str
  pub entered : ℕ
  pub leaving : ℕ
  pub tokens : ℕ
  pub wait_count : ℕ
  pub runs : List NodeRun
  pub progress : Progress O

module _ {O : Type 0} where
  abbrev pub begin_level : Progress O → List Str → LevelState O
  begin_level before level = record {
    waiting = level;
    running = [];
    entered = 0;
    leaving = 0;
    tokens = 0;
    wait_count = 0;
    runs = [];
    progress = before;
  }

  -- wg.Add, the send to the semaphore, and the go statement.
  start_next : ℕ → LevelState O → List Str → Option (LevelState O)
  start_next limit s [] = none
  start_next limit s (name ∷ rest) =
      if ltb s.tokens limit
      then some (record s {
        waiting = rest;
        running = name ∷ s.running;
        tokens = suc s.tokens;
        wait_count = suc s.wait_count;
      })
      else none

  unfoldable pub start_worker : ℕ → LevelState O → Option (LevelState O)
  unfolding start_next
  start_worker limit s = start_next limit s s.waiting

  -- The deferred receive from the semaphore.
  free_entered : LevelState O → ℕ → Option (LevelState O)
  free_entered s zero = none
  free_entered s (suc n) =
      some (record s { entered = n; leaving = suc s.leaving; tokens = s.tokens - 1 })

  unfoldable pub free_token : LevelState O → Option (LevelState O)
  unfolding free_entered
  free_token s = free_entered s s.entered

  -- The deferred wg.Done.
  done_leaving : LevelState O → ℕ → Option (LevelState O)
  done_leaving s zero = none
  done_leaving s (suc n) = some (record s { leaving = n; wait_count = s.wait_count - 1 })

  unfoldable pub worker_done : LevelState O → Option (LevelState O)
  unfolding done_leaving
  worker_done s = done_leaving s s.leaving

module _ {O : Type 0} (g : Graph) (keep_going : Bool) (c : Course O) (n : ℕ)
    (before : Progress O) where
  -- What the worker of the name enters while it holds the mutex.
  unfoldable pub enter_run : Str → LevelState O → Option (LevelState O)
  enter_run name s =
      if contains name s.running
      then some (record s {
        running = remove_first name s.running;
        entered = suc s.entered;
        runs = s.runs ++ entry g keep_going c n before name ∷ [];
        progress = merge g keep_going c before (name ∷ []) s.progress;
      })
      else none

  module _ (limit : ℕ) where
    pub data Step (s t : LevelState O) : Type 0 where
      starts : start_worker limit s ≡ some t → Step s t
      enters : (name : Str) → enter_run name s ≡ some t → Step s t
      frees : free_token s ≡ some t → Step s t
      leaves : worker_done s ≡ some t → Step s t

    -- The states that `k` steps can lead to.
    pub data Reach (s : LevelState O) : ℕ → LevelState O → Type 0 where
      here : Reach s 0 s
      next : {k : ℕ} {t u : LevelState O} → Reach s k t → Step t u → Reach s (suc k) u
