-- ===== src/Engine/Saved/Commands.antt =====
-- internal/engine/saved_execution.go: `plan --save`, with `--continue` or for a new execution, and
-- `apply --plan`, on a store. The
-- locks are held; `selected` stands for the checks of storedSelection and of the runtime's files,
-- which change nothing.
use terragraph.Prelude.{
  ℕ, Bool, false, not, ◌&&◌, Str, bytes, str_eq, List, [], ◌∷◌, Option, none, some, if◌then◌else◌,
}
use terragraph.Graph.{Graph}
use terragraph.Engine.Store.{Io, Store}
use terragraph.Engine.Journal.{
  ExecutionRecord, Content, Session, Host, is_some, execution_needs_recovery,
}
use terragraph.Engine.Recovery.{
  read_execution_record, check_execution_barrier, is_clear, opened_session,
}
use terragraph.Engine.Begin.{Begin, begin_execution}
use terragraph.Engine.SavedNode.{Answers}
use terragraph.Engine.Saved.{Setting, save_plans, apply_saved_plans, finish_saved_session}

-- What one call of a command meets.
pub record Call : Type 0 where
  pub now : ℕ
  pub io : Str → ℕ → Io
  pub answers : Str → Answers
  pub setting : Setting
  pub selected : Bool
  pub scope : Str
  pub id : Str
  pub host : Host

abbrev pub saved_apply : Str
saved_apply = bytes "saved_apply"

abbrev pub can_resume : Call → ExecutionRecord → Bool
can_resume c r =
    str_eq r.scope c.scope
    && str_eq r.operation saved_apply
    && not (is_some r.recovery_at)
    && not (execution_needs_recovery r)

-- openSavedExecution
unfoldable pub opened : Call → Store Content → Option (ExecutionRecord × Str) → Option Session
opened c store none = none
opened c store (some (r, revision)) =
    if not (can_resume c r)
    then none
    else if not
        (is_clear (check_execution_barrier (c.io (bytes "barrier")) store c.scope c.id false))
    then none
    else some (record (opened_session r revision store) { host = c.host })

unfoldable pub open_saved_execution : Call → Store Content → Option Session
open_saved_execution c store =
    opened c store (read_execution_record (c.io (bytes "open") 0) store c.id)

-- The call with a session that was opened, or none.
abbrev pub with_session :
    Store Content → Option Session → (Session → Bool × Session) → Bool × Store Content
with_session store none f = (false, store)
with_session store (some s) f = let out = f s in (out.0, out.1.store)

pub data Command : Type 0 where
  save apply : Call → Command
  fresh : Begin → Call → Command

module _ (draw : ℕ → Str) (g : Graph) where
  -- SavePlans with --continue
  unfoldable pub save_command : Call → Store Content → Bool × Store Content
  save_command c store = with_session store (open_saved_execution c store) (λ s.
      finish_saved_session draw c.now c.io c.answers c.setting (
        if c.selected
        then save_plans draw c.now c.io c.answers g c.setting s
        else (false, (false, s))))

  -- SavePlans for a new execution
  unfoldable pub fresh_command : Begin → Call → Store Content → Bool × Store Content
  fresh_command b c store =
      let started = begin_execution draw (record b { operation = saved_apply }) store in
      with_session started.1 started.0 (λ s.
        finish_saved_session draw c.now c.io c.answers c.setting
          (save_plans draw c.now c.io c.answers g c.setting s))

  -- ApplySavedPlans
  unfoldable pub apply_command : Call → Store Content → Bool × Store Content
  apply_command c store = with_session store (open_saved_execution c store) (λ s.
      finish_saved_session draw c.now c.io c.answers c.setting (
        if c.selected
        then apply_saved_plans draw c.now c.io c.answers c.setting s
        else (false, (false, s))))

  unfoldable pub run_command : Command → Store Content → Store Content
  run_command (save c) store = (save_command c store).1
  run_command (apply c) store = (apply_command c store).1
  run_command (fresh b c) store = (fresh_command b c store).1

  -- Any sequence of calls, each with its own answers and failures.
  unfoldable pub run_commands : List Command → Store Content → Store Content
  run_commands [] store = store
  run_commands (c ∷ cs) store = run_commands cs (run_command c store)
