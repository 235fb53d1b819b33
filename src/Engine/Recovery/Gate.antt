-- ===== src/Engine/Recovery/Gate.antt =====
-- An execution that may have left infrastructure half changed stops every later one, until an
-- operator has looked at it.
use terragraph.Prelude.{
  ℕ, suc, ◌≡◌, ◌≢◌, ◌⊎◌, inl, inr, refl, subst, Bool, true, false, not, ◌&&◌, Str, bytes, str_eq,
  List, [], ◌∷◌, Option, none, some, lookup, Bool-cases, All,
}
use terragraph.Engine.Store.{Io, Store, Reply, ok, missing, conflict, invalid_key, failed, list}
use terragraph.Engine.Journal.{
  ExecutionRecord, Content, journal, Session, record_key, recovered_record,
  execution_needs_recovery,
}
use terragraph.Engine.Journal.Calls.{calls_need_recovery}
use terragraph.Engine.Journal.Steps.{IsStored, publish-ok}
use terragraph.Engine.Recovery.{
  Barrier, clear, barrier_of, check_execution_barrier, judge, listed, opened_session,
  replan_published, read_execution_record, is_record_key, trim_suffix, accepted, recover_replan,
  replan_found, cancel_execution, cancel_found,
}

-- What an open barrier says of a key of the store.
abbrev pub IsPassed : (ℕ → Io) → Store Content → Str → Str → Bool → Str → Type 0
IsPassed io store scope except read_only key =
    is_record_key key ≡ true
    → (n : ℕ) × (old : ExecutionRecord) × (revision : Str) × (read_execution_record (io n) store
          (trim_suffix key (bytes ".json"))
        ≡ some (old, revision))
      × (str_eq old.scope scope ≡ true)
      × ((not (str_eq old.id except) && execution_needs_recovery old && not read_only) ≡ false)

judge-clear :
    (scope except : Str) (read_only : Bool) (found : Option (ExecutionRecord × Str))
    (later : Barrier)
    → judge scope except read_only found later ≡ clear
    → (later ≡ clear)
      × ((old : ExecutionRecord) × (revision : Str) × (found ≡ some (old, revision))
          × (str_eq old.scope scope ≡ true)
          × ((not (str_eq old.id except) && execution_needs_recovery old && not read_only) ≡ false))
unfolding judge
judge-clear scope except read_only none later = λ h. absurd (cc)
judge-clear scope except read_only (some (old, revision)) later =
    elim (Bool-cases (str_eq old.scope scope)) [
      | inr e ↦ rw e (λ h. absurd (cc))
      | inl e ↦
          elim (Bool-cases
            (not (str_eq old.id except) && execution_needs_recovery old && not read_only)) [
              | inl f ↦ rw (e, f) (λ h. absurd (cc))
              | inr f ↦ rw (e, f) (λ h. (h, (old, revision, refl, e, f)))
            ]
    ]

barrier_of-clear :
    (io : ℕ → Io) (n : ℕ) (store : Store Content) (scope except : Str) (read_only : Bool)
    (keys : List Str)
    → barrier_of io n store scope except read_only keys ≡ clear
    → All (IsPassed io store scope except read_only) keys
unfolding barrier_of
barrier_of-clear io n store scope except read_only [] = λ h. tt
barrier_of-clear io n store scope except read_only (key ∷ rest) =
    elim (Bool-cases (is_record_key key)) [
      | inr e ↦
          rw e (λ h.
            (λ k. absurd (cc), barrier_of-clear io (suc n) store scope except read_only rest h))
      | inl e ↦ rw e (λ h.
          let (later, (old, revision, f, same, passed)) =
            judge-clear scope except read_only
              (read_execution_record (io n) store (trim_suffix key (bytes ".json"))) _ h in
          (
            λ k. (n, old, revision, f, same, passed),
            barrier_of-clear io (suc n) store scope except read_only rest later,
          ))
    ]

abbrev IsOpen : (ℕ → Io) → Store Content → Str → Str → Bool → Reply (List Str) → Type 0
IsOpen io store scope except read_only found =
    (keys : List Str) × (found ≡ ok keys) × All (IsPassed io store scope except read_only) keys

listed-clear :
    (io : ℕ → Io) (store : Store Content) (scope except : Str) (read_only : Bool)
    (found : Reply (List Str))
    → listed io store scope except read_only found ≡ clear
    → IsOpen io store scope except read_only found
listed-clear io store scope except read_only (ok keys) h =
    (keys, refl, barrier_of-clear io 1 store scope except read_only keys h)
listed-clear io store scope except read_only missing h = absurd (cc)
listed-clear io store scope except read_only conflict h = absurd (cc)
listed-clear io store scope except read_only invalid_key h = absurd (cc)
listed-clear io store scope except read_only failed h = absurd (cc)

-- The barrier is open only if the store could be listed and every execution record in it could
-- be read, belongs to the same coordination scope, and needs no recovery, the excepted one and
-- the case of a command that only reads aside.
pub check_execution_barrier-clear :
    (io : ℕ → Io) (store : Store Content) (scope except : Str) (read_only : Bool)
    → check_execution_barrier io store scope except read_only ≡ clear
    → IsOpen io store scope except read_only (list (io 0) store)
unfolding check_execution_barrier
check_execution_barrier-clear io store scope except read_only h =
    listed-clear io store scope except read_only _ h

-- The record that an operator's review retires holds up nothing, as far as infrastructure goes.
pub recovered_record-passes :
    (now : ℕ) (r : ExecutionRecord)
    → calls_need_recovery r.plugin_calls ≡ false
    → execution_needs_recovery (recovered_record now r) ≡ false
unfolding recovered_record execution_needs_recovery
recovered_record-passes now r h = rw h refl

pub replan_published-accepted :
    (next : ExecutionRecord) (out : Bool × Session)
    → (out.0 ≡ true → (out.1.record_of ≡ next) × IsStored out.1)
    → (replan_published out).0 ≡ accepted
    → (renewed : Str) × (lookup (record_key next) (replan_published out).1.objects
        ≡ some (record { revision = renewed; body = journal next }))
replan_published-accepted next (false, s) w h = absurd (cc)
replan_published-accepted next (true, s) w h = (
  s.revision,
  subst
      (λ q.
        lookup (record_key q) s.store.objects
        ≡ some (record { revision = s.revision; body = journal q }))
      (w refl).0 (w refl).1,
)

-- How a recovery for a new plan was accepted.
abbrev pub IsRetired : Store Content → Option (ExecutionRecord × Str) → Store Content → Type 0
IsRetired before found after =
    (old : ExecutionRecord) × (revision : Str) × (r : ExecutionRecord) × (renewed : Str) × (found
      ≡ some (old, revision))
    × (execution_needs_recovery old ≡ true)
    × (execution_needs_recovery r ≡ false)
    × (r.nodes ≡ old.nodes)
    × (lookup (record_key old) after.objects
        ≡ some (record { revision = renewed; body = journal r }))

-- What CancelExecution may touch: a record that was read, of the scope, with nothing unresolved.
abbrev pub IsCancellable : Str → Option (ExecutionRecord × Str) → Type 0
IsCancellable scope found =
    (old : ExecutionRecord) × (revision : Str) × (found ≡ some (old, revision))
    × (str_eq old.scope scope ≡ true)
    × (execution_needs_recovery old ≡ false)

module _ (draw : ℕ → Str) where
  replan_found-accepted :
      (io : ℕ → Io) (now : ℕ) (scope : Str) (store : Store Content)
      (found : Option (ExecutionRecord × Str))
      → (replan_found draw io now scope store found).0 ≡ accepted
      → IsRetired store found (replan_found draw io now scope store found).1
  unfolding replan_found recovered_record
  replan_found-accepted io now scope store none = λ h. absurd (cc)
  replan_found-accepted io now scope store (some (r, revision)) =
      elim (Bool-cases (str_eq r.scope scope)) [
        | inr e ↦ rw e (λ h. absurd (cc))
        | inl e ↦ elim (Bool-cases (execution_needs_recovery r)) [
          | inr f ↦ rw (e, f) (λ h. absurd (cc))
          | inl f ↦ elim (Bool-cases (calls_need_recovery r.plugin_calls)) [
            | inl g ↦ rw (e, f, g) (λ h. absurd (cc))
            | inr g ↦
                rw (e, f, g)
                  (λ h.
                    let p = replan_published-accepted next _ (publish-ok draw (io 1) next s) h in
                    (r, revision, next, p.0, refl, f, recovered_record-passes now r g, refl, p.1))
          ]
        ]
      ]
    where
      next : ExecutionRecord
      next = recovered_record now r

      s : Session
      s = opened_session r revision store

  -- A recovery for a new plan is accepted only after both confirmations, for a record that needed
  -- recovery; the store then holds, in its place, a record of the same nodes that needs none.
  pub recover_replan-accepted :
      (io : ℕ → Io) (now : ℕ) (scope : Str) (store : Store Content) (id : Str)
      (confirm_stopped state_reviewed : Bool)
      → (recover_replan draw io now scope store id confirm_stopped state_reviewed).0 ≡ accepted
      → ((confirm_stopped && state_reviewed) ≡ true)
        × IsRetired store
            (read_execution_record (io 0) store id)
            (recover_replan draw io now scope store id confirm_stopped state_reviewed).1
  unfolding recover_replan
  recover_replan-accepted io now scope store id false state_reviewed = λ h. absurd (cc)
  recover_replan-accepted io now scope store id true false = λ h. absurd (cc)
  recover_replan-accepted io now scope store id true true =
      λ h. (refl, replan_found-accepted io now scope store _ h)

  cancel_found-store :
      (io : ℕ → Io) (now : ℕ) (scope : Str) (store : Store Content)
      (found : Option (ExecutionRecord × Str))
      → (((cancel_found draw io now scope store found).0 ≢ accepted)
          × ((cancel_found draw io now scope store found).1 ≡ store))
        ⊎ IsCancellable scope found
  unfolding cancel_found
  cancel_found-store io now scope store none = inl ((λ h. cc), refl)
  cancel_found-store io now scope store (some (r, revision)) =
      elim (Bool-cases (str_eq r.scope scope)) [
        | inr e ↦ rw e (inl ((λ h. cc), refl))
        | inl e ↦ elim (Bool-cases (execution_needs_recovery r)) [
          | inl f ↦ rw (e, f) (inl ((λ h. cc), refl))
          | inr f ↦ inr (r, revision, refl, e, f)
        ]
      ]

  -- CancelExecution accepts, or changes the store, only for a record that it could read, that is
  -- of its coordination scope, and that needs no recovery.
  pub cancel_execution-store :
      (io : ℕ → Io) (now : ℕ) (scope : Str) (store : Store Content) (id : Str)
      → (((cancel_execution draw io now scope store id).0 ≢ accepted)
          × ((cancel_execution draw io now scope store id).1 ≡ store))
        ⊎ IsCancellable scope (read_execution_record (io 0) store id)
  unfolding cancel_execution
  cancel_execution-store io now scope store id = cancel_found-store io now scope store _
