-- ===== src/Engine/Recovery.antt =====
-- internal/engine/execution_journal.go (readExecutionRecord, checkExecutionBarrier, finish),
-- execution_cleanup.go (cleanupExecution, CancelExecution) and execution_recovery.go
-- (RecoverExecution): how an execution ends, and what an unresolved one holds up. The locks of
-- the run are held, and `io n` is how the system answers the n-th call of the store.
pub mod Gate
pub mod Keys
pub mod Outputs
pub mod Reads
pub mod Sweep
use terragraph.Prelude.{
  ℕ, suc, ◌+◌, ◌≡◌, Bool, true, false, not, ◌&&◌, ◌||◌, Str, bytes, str_eq, List, [], ◌∷◌, ◌++◌,
  Option, none, some, ◌==◌, if◌then◌else◌, is_nil, any, all, keep, map, reverse, has_prefix,
  has_suffix, lookup,
}
use terragraph.Graph.Select.{Selection}
use terragraph.Graph.Select.Membership.{validate_membership}
use terragraph.Engine.Store.{
  Io, Object, Store, Reply, ok, missing, conflict, invalid_key, failed, Done, done, read, write,
  remove, list, after_prefix,
}
use terragraph.Engine.Journal.{
  ExecutionRecord, ExecutionNode, Content, journal, plan, Session, Phase, is_some, publish,
  no_plugins, execution_needs_recovery, finished_record, recovered_record, transition, record_key,
}
use terragraph.Engine.Journal.Calls.{calls_need_recovery}

abbrev is_yes : Option Bool → Bool
is_yes none = false
is_yes (some b) = b

abbrev selection_ok : ExecutionRecord → Option Selection → Bool
selection_ok r none = true
selection_ok r (some s) = is_yes (validate_membership s (map (λ n. n.name) r.nodes))

unfoldable pub acceptable : Str → ExecutionRecord → Bool
acceptable id r =
    (r.schema_version == 1 || r.schema_version == 2)
    && str_eq r.id id
    && not (is_nil r.scope)
    && not (is_nil r.status)
    && selection_ok r r.selection

unfoldable pub decoded : Str → Reply (Object Content) → Option (ExecutionRecord × Str)
decoded id (ok o) = elim o.body [
  | journal r ↦ if acceptable id r then some (r, o.revision) else none
  | plan p ↦ none
]
decoded id _ = none

-- readExecutionRecord: the record and its revision, or `none` for an error.
unfoldable pub read_execution_record : Io → Store Content → Str → Option (ExecutionRecord × Str)
read_execution_record io store id =
    if not (has_prefix id (bytes "run-"))
    then none
    else decoded id (read io store (id ++ bytes ".json"))

-- strings.TrimSuffix
abbrev pub trim_suffix : Str → Str → Str
trim_suffix s suffix =
    if has_suffix s suffix then reverse (after_prefix (reverse suffix) (reverse s)) else s

pub data Barrier : Type 0 where
  clear unreadable : Barrier
  foreign_scope recovery_required : Str → Barrier

abbrev pub is_clear : Barrier → Bool
is_clear clear = true
is_clear _ = false

-- What one record does to the barrier; `later` is what the remaining ones do.
unfoldable pub judge : Str → Str → Bool → Option (ExecutionRecord × Str) → Barrier → Barrier
judge scope except read_only none later = unreadable
judge scope except read_only (some (old, revision)) later =
    if not (str_eq old.scope scope)
    then foreign_scope old.id
    else if not (str_eq old.id except) && execution_needs_recovery old && not read_only
    then recovery_required old.id
    else later

abbrev pub is_record_key : Str → Bool
is_record_key key = has_prefix key (bytes "run-") && has_suffix key (bytes ".json")

unfoldable pub barrier_of : (ℕ → Io) → ℕ → Store Content → Str → Str → Bool → List Str → Barrier
barrier_of io n store scope except read_only [] = clear
barrier_of io n store scope except read_only (key ∷ rest) =
    let later = barrier_of io (suc n) store scope except read_only rest in
    if is_record_key key
    then judge scope except read_only
        (read_execution_record (io n) store (trim_suffix key (bytes ".json"))) later
    else later

abbrev pub listed : (ℕ → Io) → Store Content → Str → Str → Bool → Reply (List Str) → Barrier
listed io store scope except read_only (ok keys) = barrier_of io 1 store scope except read_only keys
listed io store scope except read_only _ = unreadable

-- checkExecutionBarrier
unfoldable pub check_execution_barrier : (ℕ → Io) → Store Content → Str → Str → Bool → Barrier
check_execution_barrier io store scope except read_only =
    listed io store scope except read_only (list (io 0) store)

abbrev pub after_removal :
    Reply Done × Store Content → (Store Content → Bool × Store Content) → Bool × Store Content
after_removal (ok d, store) later = later store
after_removal (missing, store) later = later store
after_removal (_, store) later = (false, store)

abbrev pub after_read :
    Io
    → Store Content
    → Str
    → Reply (Object Content)
    → (Store Content → Bool × Store Content)
    → Bool × Store Content
after_read io store key (ok o) later = after_removal (remove io store key o.revision) later
after_read io store key missing later = later store
after_read io store key _ later = (false, store)

-- The loop of cleanupExecution over the plans of the nodes.
unfoldable pub cleanup_nodes :
    (ℕ → Io) → ℕ → List ExecutionNode → Store Content → Bool × Store Content
cleanup_nodes io n [] store = (true, store)
cleanup_nodes io n (node ∷ rest) store =
    let later = cleanup_nodes io (suc (suc n)) rest in
    let key = node.plan_id ++ bytes ".bin" in
    if is_nil node.plan_id
    then later store
    else after_read (io (suc n)) store key (read (io n) store key) later

-- cleanupExecution
unfoldable pub cleanup_execution :
    (ℕ → Io) → ℕ → ExecutionRecord → Store Content → Bool × Store Content
cleanup_execution io n r store =
    if not (is_some r.finished_at) || execution_needs_recovery r
    then (true, store)
    else cleanup_nodes io n r.nodes store

abbrev pub cleaned : (ℕ → Io) → ExecutionRecord → Session → Session
cleaned io r s = record s { store = (cleanup_execution io 1 r s.store).1 }

abbrev pub after_publish : (ℕ → Io) → ExecutionRecord → Bool → Bool × Session → Bool × Session
after_publish io r result (false, s) = (false, s)
after_publish io r result (true, s) = (result, cleaned io r s)

-- How CancelExecution and RecoverExecution answer.
pub data Verdict : Type 0 where
  accepted unread wrong_scope unresolved resolved plugins_unresolved : Verdict
  unpublished uncleaned unconfirmed unreviewed issues : Verdict

abbrev cancelled_record : ℕ → ExecutionRecord → ExecutionRecord
cancelled_record now r = record r {
  status = bytes "cancelled";
  updated_at = now;
  finished_at = some now;
}

abbrev with_cleanup : Bool × Store Content → Verdict × Store Content
with_cleanup (true, store) = (accepted, store)
with_cleanup (false, store) = (uncleaned, store)

abbrev pub opened_session : ExecutionRecord → Str → Store Content → Session
opened_session r revision store = record {
  record_of = r;
  revision = revision;
  store = store;
  host = no_plugins;
  finished_events = [];
}

abbrev pub cancel_published : (ℕ → Io) → ExecutionRecord → Bool × Session → Verdict × Store Content
cancel_published io r (false, s) = (unpublished, s.store)
cancel_published io r (true, s) = with_cleanup (cleanup_execution io 2 r s.store)

abbrev pub replan_published : Bool × Session → Verdict × Store Content
replan_published (false, s) = (unpublished, s.store)
replan_published (true, s) = (accepted, s.store)

module _ (draw : ℕ → Str) where
  -- (executionSession).finish once the plugins have finished, with their error in `plugin_failed`.
  unfoldable pub finish : (ℕ → Io) → ℕ → Bool → Bool → Session → Bool × Session
  finish io now run_failed plugin_failed s =
      let next = finished_record now (run_failed || plugin_failed) s.record_of in
      after_publish io next (not plugin_failed) (publish draw (io 0) next s)

  unfoldable pub cancel_found :
      (ℕ → Io) → ℕ → Str → Store Content → Option (ExecutionRecord × Str) → Verdict × Store Content
  cancel_found io now scope store none = (unread, store)
  cancel_found io now scope store (some (r, revision)) =
      if not (str_eq r.scope scope)
      then (wrong_scope, store)
      else if execution_needs_recovery r
      then (unresolved, store)
      else if is_some r.finished_at
      then with_cleanup (cleanup_execution io 1 r store)
      else cancel_published io (cancelled_record now r)
          (publish draw (io 1) (cancelled_record now r) (opened_session r revision store))

  -- CancelExecution
  unfoldable pub cancel_execution :
      (ℕ → Io) → ℕ → Str → Store Content → Str → Verdict × Store Content
  cancel_execution io now scope store id =
      cancel_found io now scope store (read_execution_record (io 0) store id)

  unfoldable pub replan_found :
      (ℕ → Io) → ℕ → Str → Store Content → Option (ExecutionRecord × Str) → Verdict × Store Content
  replan_found io now scope store none = (unread, store)
  replan_found io now scope store (some (r, revision)) =
      if not (str_eq r.scope scope)
      then (wrong_scope, store)
      else if not (execution_needs_recovery r)
      then (resolved, store)
      else if calls_need_recovery r.plugin_calls
      then (plugins_unresolved, store)
      else replan_published
          (publish draw (io 1) (recovered_record now r) (opened_session r revision store))

  -- RecoverExecution with --replan.
  unfoldable pub recover_replan :
      (ℕ → Io) → ℕ → Str → Store Content → Str → Bool → Bool → Verdict × Store Content
  recover_replan io now scope store id confirm_stopped state_reviewed =
      if not confirm_stopped
      then (unconfirmed, store)
      else if not state_reviewed
      then (unreviewed, store)
      else replan_found io now scope store (read_execution_record (io 0) store id)
