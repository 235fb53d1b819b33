-- ===== src/Engine/Retention/Keeps.antt =====
-- What the visit of a record keeps: a property of stores that the removal of plans and backups
-- keeps, and the removal of the visited record and its expiry where they are reached.
use terragraph.Prelude.{
  ℕ, ◌≡◌, ◌⊎◌, inl, inr, Bool, true, false, not, ◌||◌, Str, bytes, str_eq, List, ◌++◌, Option, none,
  some, if◌then◌else◌, if_elim,
}
use terragraph.Engine.Store.{
  Io, Object, Store, Reply, ok, missing, conflict, invalid_key, failed, Done, read, remove,
}
use terragraph.Engine.Journal.{
  ExecutionRecord, Content, Session, publish, is_some, execution_needs_recovery,
}
use terragraph.Engine.Recovery.{opened_session}
use terragraph.Engine.Recovery.Sweep.{cleanup_execution-keeps}
use terragraph.Engine.Retention.{
  Visit, Pruned, kept, gone, stopped, is_due, gone_from, drop_record, after_backup, drop_backup,
  after_cleanup, prune_finished, expired_record, after_expiry, prune_waiting, prune_found,
  frontier_expired, pruned,
}

module _ (Q : Store Content → Type 0)
    (closed : (io : Io) (s : Store Content) (name revision : Str)
      → Q s
      → Q (remove io s (name ++ bytes ".bin") revision).1) where
  abbrev QAfter : Pruned × Store Content → Type 0
  QAfter out = Q out.1

  -- Removing the record under the key.
  abbrev pub KeepsWithout : Str → Type 0
  KeepsWithout key =
      (io : Io) (s : Store Content) (revision : Str) → Q s → Q (remove io s key revision).1

  gone_from-keeps : (out : Reply Done × Store Content) → Q out.1 → QAfter (gone_from out)
  gone_from-keeps (ok d, s) h = h
  gone_from-keeps (missing, s) h = h
  gone_from-keeps (conflict, s) h = h
  gone_from-keeps (invalid_key, s) h = h
  gone_from-keeps (failed, s) h = h

  drop_record-keeps :
      (v : Visit) (key revision : Str) (s : Store Content)
      → KeepsWithout key
      → Q s
      → QAfter (drop_record v key revision s)
  unfolding drop_record
  drop_record-keeps v key revision s without h =
      if_elim QAfter (not v.local_backup) (λ e. h)
        (λ e. gone_from-keeps _ (without v.record_remove s revision h))

  after_backup-keeps :
      (v : Visit) (key revision : Str) (out : Reply Done × Store Content)
      → KeepsWithout key
      → Q out.1
      → QAfter (after_backup v key revision out)
  after_backup-keeps v key revision (ok d, s) without h =
      drop_record-keeps v key revision s without h
  after_backup-keeps v key revision (missing, s) without h = h
  after_backup-keeps v key revision (conflict, s) without h = h
  after_backup-keeps v key revision (invalid_key, s) without h = h
  after_backup-keeps v key revision (failed, s) without h = h

  drop_backup-keeps :
      (v : Visit) (key revision name : Str) (found : Reply (Object Content)) (s : Store Content)
      → KeepsWithout key
      → Q s
      → QAfter (drop_backup v key revision (name ++ bytes ".bin") found s)
  unfolding drop_backup
  drop_backup-keeps v key revision name (ok q) s without h =
      after_backup-keeps v key revision _ without (closed v.backup_remove s name q.revision h)
  drop_backup-keeps v key revision name missing s without h =
      drop_record-keeps v key revision s without h
  drop_backup-keeps v key revision name conflict s without h = h
  drop_backup-keeps v key revision name invalid_key s without h = h
  drop_backup-keeps v key revision name failed s without h = h

  after_cleanup-keeps :
      (out : Bool × Store Content) (later : Store Content → Pruned × Store Content)
      → Q out.1
      → ((s : Store Content) → Q s → QAfter (later s))
      → QAfter (after_cleanup out later)
  after_cleanup-keeps (true, s) later h k = k s h
  after_cleanup-keeps (false, s) later h k = h

  -- The record may be removed, or it is not due.
  pub prune_finished-keeps :
      (v : Visit) (now retention : ℕ) (key : Str) (r : ExecutionRecord) (revision : Str)
      (s : Store Content)
      → KeepsWithout key ⊎ (is_due now retention r.finished_at ≡ false)
      → Q s
      → QAfter (prune_finished v now retention key r revision s)
  unfolding prune_finished
  prune_finished-keeps v now retention key r revision s safe h =
      if_elim QAfter (not (is_some r.finished_at)) (λ e. h)
        (λ e.
          after_cleanup-keeps _ _ (cleanup_execution-keeps Q closed v.cleanup 0 r s h)
            (λ t k. behind safe t k))
    where
      behind :
          KeepsWithout key ⊎ (is_due now retention r.finished_at ≡ false)
          → (t : Store Content) → Q t
          → QAfter (
              if not (is_due now retention r.finished_at)
              then (kept, t)
              else drop_backup v key revision
                  (r.id ++ bytes ".bin")
                  (read v.backup_read t (r.id ++ bytes ".bin"))
                  t)
      behind (inl n) t k =
          if_elim QAfter (not (is_due now retention r.finished_at)) (λ f. k)
            (λ f. drop_backup-keeps v key revision r.id _ t n k)
      behind (inr n) t k = rw n k

  pub pruned-keeps :
      (key : Str) (out : Pruned × Store Content)
      (later : Store Content → Bool × (List Str × Store Content))
      → QAfter out
      → ((t : Store Content) → Q t → Q (later t).1.1)
      → Q (pruned key out later).1.1
  pruned-keeps key (kept, t) later h k = k t h
  pruned-keeps key (gone, t) later h k = k t h
  pruned-keeps key (stopped, t) later h k = h

  module _ (draw : ℕ → Str) where
    -- Publishing the record as expired.
    abbrev pub KeepsExpired : ExecutionRecord → Type 0
    KeepsExpired r =
        (io : Io) (now : ℕ) (revision : Str) (s : Store Content)
        → Q s
        → Q (publish draw io (expired_record now r) (opened_session r revision s)).1.store

    after_expiry-keeps :
        (out : Bool × Session) (later : Session → Pruned × Store Content)
        → Q out.1.store
        → ((s : Session) → Q s.store → QAfter (later s))
        → QAfter (after_expiry draw out later)
    after_expiry-keeps (true, s) later h k = k s h
    after_expiry-keeps (false, s) later h k = h

    prune_waiting-keeps :
        (v : Visit) (now retention : ℕ) (key : Str) (r : ExecutionRecord) (revision : Str)
        (expired : Option Bool) (s : Store Content)
        → KeepsWithout key
        → KeepsExpired r
        → Q s
        → QAfter (prune_waiting draw v now retention key r revision expired s)
    unfolding prune_waiting
    prune_waiting-keeps v now retention key r revision none s without expires h = h
    prune_waiting-keeps v now retention key r revision (some expired) s without expires h =
        if_elim QAfter expired
          (λ e. after_expiry-keeps _ _ (expires v.expiry_write now revision s h) (λ t k.
            prune_finished-keeps v now retention key (expired_record now r) t.revision t.store
              (inl without) k))
          (λ e. prune_finished-keeps v now retention key r revision s (inl without) h)

    -- A record that may expire and be removed.
    pub prune_found-keeps :
        (v : Visit) (now retention : ℕ) (scope key : Str) (r : ExecutionRecord) (revision : Str)
        (s : Store Content)
        → KeepsWithout key
        → KeepsExpired r
        → Q s
        → QAfter (prune_found draw v now retention scope key (some (r, revision)) s)
    unfolding prune_found
    prune_found-keeps v now retention scope key r revision s without expires h =
        if_elim QAfter (not (str_eq r.scope scope) || execution_needs_recovery r) (λ e. h)
          (λ e.
            if_elim QAfter (str_eq r.status (bytes "waiting_for_apply"))
              (λ f.
                prune_waiting-keeps v now retention key r revision
                  (frontier_expired v.plan_read now r s) s without expires h)
              (λ f. prune_finished-keeps v now retention key r revision s (inl without) h))
