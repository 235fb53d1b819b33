-- ===== src/Engine/Retention.antt =====
-- pruneExecutions and frontierExpired of internal/engine/execution_cleanup.go: what is removed
-- from the store before an execution starts. A record is visited once, and `Visit` says how the
-- calls of the store come out there. A time of 0 is Go's zero time.
pub mod Keeps
pub mod Protected
use terragraph.Prelude.{
  ℕ, suc, ◌+◌, ltb, leb, ◌==◌, Bool, true, false, not, ◌&&◌, ◌||◌, Str, bytes, str_eq, List, [],
  ◌∷◌, ◌++◌, Option, none, some, if◌then◌else◌, is_nil, map,
}
use terragraph.Graph.Select.{Selection}
use terragraph.Engine.Store.{
  Io, Object, Store, Reply, ok, missing, conflict, invalid_key, failed, Done, done, read, write,
  remove, list, spent,
}
use terragraph.Engine.Journal.{
  ExecutionRecord, ExecutionNode, Content, journal, plan, PlanBundle, Session, Phase, pending,
  is_some, publish, execution_needs_recovery, record_key,
}
use terragraph.Engine.Recovery.{
  read_execution_record, trim_suffix, is_record_key, cleanup_execution, opened_session, is_clear,
  check_execution_barrier, finish,
}
use terragraph.Engine.SavedNode.{is_planned}

pub record Visit : Type 0 where
  pub record_read : Io
  pub plan_read : ℕ → Io
  pub expiry_write : Io
  pub cleanup : ℕ → Io
  pub backup_read : Io
  pub backup_remove : Io
  -- The local backup file is gone.
  pub local_backup : Bool
  pub record_remove : Io

-- frontierExpired for one planned node, `none` for an error; `later` is what the others say.
unfoldable pub plan_expired :
    ℕ → ExecutionRecord → ExecutionNode → Reply (Object Content) → Option Bool → Option Bool
plan_expired now r n (ok o) later = elim o.body [
  | plan b ↦
      if not (str_eq b.id n.plan_id) || not (str_eq b.execution_id r.id) || b.expires_at == 0
      then none
      else if leb b.expires_at now
      then some true
      else later
  | journal q ↦ none
]
plan_expired now r n _ later = none

unfoldable pub nodes_expired :
    (ℕ → Io) → ℕ → ℕ → ExecutionRecord → Store Content → List ExecutionNode → Option Bool
nodes_expired io k now r store [] = some false
nodes_expired io k now r store (n ∷ rest) =
    let later = nodes_expired io (suc k) now r store rest in
    if not (is_planned n.phase)
    then later
    else plan_expired now r n (read (io k) store (n.plan_id ++ bytes ".bin")) later

-- frontierExpired
abbrev pub frontier_expired : (ℕ → Io) → ℕ → ExecutionRecord → Store Content → Option Bool
frontier_expired io now r store = nodes_expired io 0 now r store r.nodes

abbrev pub expired_record : ℕ → ExecutionRecord → ExecutionRecord
expired_record now r = record r {
  status = bytes "expired";
  updated_at = now;
  finished_at = some now;
}

-- How the visit of a record ends.
pub data Pruned : Type 0 where
  kept gone stopped : Pruned

-- The retention of a record that finished at `t` is over.
abbrev pub is_due : ℕ → ℕ → Option ℕ → Bool
is_due now retention none = false
is_due now retention (some t) = not (ltb now (t + retention))

abbrev pub gone_from : Reply Done × Store Content → Pruned × Store Content
gone_from (ok d, store) = (gone, store)
gone_from (_, store) = (stopped, store)

-- From the local backup on.
unfoldable pub drop_record : Visit → Str → Str → Store Content → Pruned × Store Content
drop_record v key revision store =
    if not v.local_backup
    then (stopped, store)
    else gone_from (remove v.record_remove store key revision)

abbrev pub after_backup : Visit → Str → Str → Reply Done × Store Content → Pruned × Store Content
after_backup v key revision (ok d, store) = drop_record v key revision store
after_backup v key revision (_, store) = (stopped, store)

unfoldable pub drop_backup :
    Visit → Str → Str → Str → Reply (Object Content) → Store Content → Pruned × Store Content
drop_backup v key revision backup_key (ok o) store =
    after_backup v key revision (remove v.backup_remove store backup_key o.revision)
drop_backup v key revision backup_key missing store = drop_record v key revision store
drop_backup v key revision backup_key _ store = (stopped, store)

abbrev pub after_cleanup :
    Bool × Store Content → (Store Content → Pruned × Store Content) → Pruned × Store Content
after_cleanup (true, store) later = later store
after_cleanup (false, store) later = (stopped, store)

-- From the test of FinishedAt on.
unfoldable pub prune_finished :
    Visit → ℕ → ℕ → Str → ExecutionRecord → Str → Store Content → Pruned × Store Content
prune_finished v now retention key r revision store =
    if not (is_some r.finished_at)
    then (kept, store)
    else after_cleanup (cleanup_execution v.cleanup 0 r store) (λ t.
      if not (is_due now retention r.finished_at)
      then (kept, t)
      else drop_backup v key revision (r.id ++ bytes ".bin")
          (read v.backup_read t (r.id ++ bytes ".bin")) t)

-- What a visit adds to the loop: a record that is gone is named, an error ends the loop.
abbrev pub pruned :
    Str
    → Pruned × Store Content
    → (Store Content → Bool × (List Str × Store Content))
    → Bool × (List Str × Store Content)
pruned key (kept, store) later = later store
pruned key (gone, store) later =
    let out = later store in (out.0, (trim_suffix key (bytes ".json") ∷ out.1.0, out.1.1))
pruned key (stopped, store) later = (false, ([], store))

module _ (draw : ℕ → Str) where
  abbrev pub after_expiry :
      Bool × Session → (Session → Pruned × Store Content) → Pruned × Store Content
  after_expiry (true, s) later = later s
  after_expiry (false, s) later = (stopped, s.store)

  unfoldable pub prune_waiting :
      Visit
      → ℕ
      → ℕ
      → Str
      → ExecutionRecord
      → Str
      → Option Bool
      → Store Content
      → Pruned × Store Content
  prune_waiting v now retention key r revision none store = (stopped, store)
  prune_waiting v now retention key r revision (some expired) store =
      if expired
      then after_expiry
          (publish draw v.expiry_write (expired_record now r) (opened_session r revision store))
          (λ s. prune_finished v now retention key (expired_record now r) s.revision s.store)
      else prune_finished v now retention key r revision store

  unfoldable pub prune_found :
      Visit
      → ℕ
      → ℕ
      → Str
      → Str
      → Option (ExecutionRecord × Str)
      → Store Content
      → Pruned × Store Content
  prune_found v now retention scope key none store = (stopped, store)
  prune_found v now retention scope key (some (r, revision)) store =
      if not (str_eq r.scope scope) || execution_needs_recovery r
      then (kept, store)
      else if str_eq r.status (bytes "waiting_for_apply")
      then prune_waiting v now retention key r revision (frontier_expired v.plan_read now r store)
          store
      else prune_finished v now retention key r revision store

  -- One round of the loop of pruneExecutions.
  unfoldable pub prune_key : Visit → ℕ → ℕ → Str → Str → Store Content → Pruned × Store Content
  prune_key v now retention scope key store =
      if not (is_record_key key)
      then (kept, store)
      else prune_found v now retention scope key
          (read_execution_record v.record_read store (trim_suffix key (bytes ".json"))) store

  -- The loop, with the keys of the records that were removed; true where it returns no error.
  unfoldable pub prune_keys :
      (Str → Visit) → ℕ → ℕ → Str → List Str → Store Content → Bool × (List Str × Store Content)
  prune_keys visit now retention scope [] store = (true, ([], store))
  prune_keys visit now retention scope (key ∷ rest) store =
      pruned key (prune_key (visit key) now retention scope key store)
        (prune_keys visit now retention scope rest)

  abbrev pub pruned_list :
      (Str → Visit)
      → ℕ
      → ℕ
      → Str
      → Store Content
      → Reply (List Str)
      → Bool × (List Str × Store Content)
  pruned_list visit now retention scope store (ok keys) =
      prune_keys visit now retention scope keys store
  pruned_list visit now retention scope store _ = (false, ([], store))

  -- pruneExecutions
  unfoldable pub prune_executions :
      Io → (Str → Visit) → ℕ → ℕ → Str → Store Content → Bool × (List Str × Store Content)
  prune_executions listing visit now retention scope store =
      pruned_list visit now retention scope store (list listing store)
