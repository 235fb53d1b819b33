-- ===== src/Engine/Retention/Protected.antt =====
-- What pruneExecutions leaves alone.
use terragraph.Prelude.{
  ℕ, ◌≡◌, ◌⊎◌, inl, inr, refl, sym, ap, ◌∙◌, subst, arith, true, false, not, ◌||◌, Str, bytes,
  str_eq, str_eq_iff, List, [], ◌∷◌, ◌++◌, Option, none, some, if_elim, lookup, has_suffix,
  Bool-cases,
}
use terragraph.Engine.Store.{
  Io, Object, Store, Reply, ok, missing, conflict, invalid_key, failed, remove,
}
use terragraph.Engine.Store.Elsewhere.{remove-elsewhere, write-elsewhere}
use terragraph.Engine.Journal.{
  ExecutionRecord, Content, journal, Session, publish, published, record_key,
  execution_needs_recovery,
}
use terragraph.Engine.Recovery.{trim_suffix, is_record_key, opened_session}
use terragraph.Engine.Recovery.Keys.{trim_suffix_lem, json_key-other}
use terragraph.Engine.Retention.Keeps.{prune_found-keeps, prune_finished-keeps, pruned-keeps}
use terragraph.Engine.Recovery.Reads.{read_execution_record-elim}
use terragraph.Engine.Retention.{
  Visit, Pruned, is_due, expired_record, prune_found, prune_key, prune_keys, pruned_list,
  prune_executions,
}

-- The record is of another scope, or unresolved, or its plans do not wait and it has not
-- finished as long ago as the retention says.
abbrev pub IsProtected : ℕ → ℕ → Str → ExecutionRecord → Type 0
IsProtected now retention scope r =
    (str_eq r.scope scope ≡ false)
    ⊎ (execution_needs_recovery r ≡ true)
    ⊎ ((str_eq r.status (bytes "waiting_for_apply") ≡ false)
        × (is_due now retention r.finished_at ≡ false))

module _ (j : Str) (o : Object Content) (json : has_suffix j (bytes ".json") ≡ true) where
  abbrev Has : Store Content → Type 0
  Has s = lookup j s.objects ≡ some o

  abbrev HasAfter : Pruned × Store Content → Type 0
  HasAfter out = Has out.1

  remove-Has :
      (io : Io) (s : Store Content) (key revision : Str)
      → str_eq j key ≡ false
      → Has s
      → Has (remove io s key revision).1
  remove-Has io s key revision d h = remove-elsewhere io s key revision j d ∙ h

  remove_plan-Has :
      (io : Io) (s : Store Content) (name revision : Str)
      → Has s
      → Has (remove io s (name ++ bytes ".bin") revision).1
  remove_plan-Has io s name revision h =
      remove-Has io s (name ++ bytes ".bin") revision (json_key-other j name json) h

  module _ (draw : ℕ → Str) where
    published-Has :
        (s : Session) (next : ExecutionRecord) (out : Reply Str × Store Content)
        → Has out.1
        → Has (published s next out).1.store
    published-Has s next (ok r, t) h = h
    published-Has s next (missing, t) h = h
    published-Has s next (conflict, t) h = h
    published-Has s next (invalid_key, t) h = h
    published-Has s next (failed, t) h = h

    publish-Has :
        (io : Io) (next : ExecutionRecord) (s : Session)
        → str_eq j (record_key next) ≡ false
        → Has s.store
        → Has (publish draw io next s).1.store
    unfolding publish
    publish-Has io next s n h =
        published-Has s next _
          (write-elsewhere draw io s.store (record_key next) (journal next) s.revision j n ∙ h)

    -- What is read under the key is protected, or the key is another one.
    abbrev IsSafe : ℕ → ℕ → Str → Str → Option (ExecutionRecord × Str) → Type 0
    IsSafe now retention scope key none = true ≡ true
    IsSafe now retention scope key (some (r, revision)) =
        ((str_eq j key ≡ false) × (record_key r ≡ key)) ⊎ IsProtected now retention scope r

    prune_found-Has :
        (v : Visit) (now retention : ℕ) (scope key : Str) (found : Option (ExecutionRecord × Str))
        (s : Store Content)
        → IsSafe now retention scope key found
        → Has s
        → HasAfter (prune_found draw v now retention scope key found s)
    unfolding prune_found
    prune_found-Has v now retention scope key none s safe h = h
    prune_found-Has v now retention scope key (some (r, revision)) s (inl (n, same)) h =
        prune_found-keeps Has remove_plan-Has draw v now retention scope key r revision s
          (λ io t rev k. remove-Has io t key rev n k)
          (λ io at rev t k.
            publish-Has io (expired_record at r) (opened_session r rev t)
              (subst (λ a. str_eq j a ≡ false) (sym same) n) k)
          h
    prune_found-Has v now retention scope key (some (r, revision)) s (inr (inl e)) h =
        if_elim HasAfter (not (str_eq r.scope scope) || execution_needs_recovery r) (λ f. h)
          (λ f. absurd (ground (arith)))
    prune_found-Has v now retention scope key (some (r, revision)) s (inr (inr (inl e))) h =
        if_elim HasAfter (not (str_eq r.scope scope) || execution_needs_recovery r) (λ f. h)
          (λ f. absurd (ground (arith)))
    prune_found-Has v now retention scope key (some (r, revision)) s (inr (inr (inr (e, d)))) h =
        if_elim HasAfter (not (str_eq r.scope scope) || execution_needs_recovery r) (λ f. h)
          (λ f.
            if_elim HasAfter (str_eq r.status (bytes "waiting_for_apply")) (λ k. absurd (cc))
              (λ k.
                prune_finished-keeps Has remove_plan-Has v now retention key r revision s (inr d)
                  h))

    module _ (now retention : ℕ) (scope : Str) where
      found-IsSafe :
          (key : Str) (r : ExecutionRecord) (s : Store Content)
          → has_suffix key (bytes ".json") ≡ true
          → o.body ≡ journal r
          → IsProtected now retention scope r
          → Has s
          → (q : Object Content) (old : ExecutionRecord)
          → lookup (trim_suffix key (bytes ".json") ++ bytes ".json") s.objects ≡ some q
          → q.body ≡ journal old
          → str_eq old.id (trim_suffix key (bytes ".json")) ≡ true
          → IsSafe now retention scope key (some (old, q.revision))
      found-IsSafe key r s ends body safe h q old there old_body named =
          elim (Bool-cases (str_eq j key)) [
            | inr n ↦ inl (
              n,
              ap (λ a. a ++ bytes ".json") ((str_eq_iff old.id _).0 named)
                  ∙ trim_suffix_lem key (bytes ".json") ends,
            )
            | inl e ↦ inr (
                subst (IsProtected now retention scope)
                  (let same = (str_eq_iff j key).0 e in
                    let back = trim_suffix_lem key (bytes ".json") ends in
                    let found = subst (λ a. lookup a s.objects ≡ some q) (back ∙ sym same) there in
                    cc)
                  safe)
          ]

      prune_key-Has :
          (v : Visit) (key : Str) (r : ExecutionRecord) (s : Store Content)
          → o.body ≡ journal r
          → IsProtected now retention scope r
          → Has s
          → HasAfter (prune_key draw v now retention scope key s)
      unfolding prune_key
      prune_key-Has v key r s body safe h =
          if_elim HasAfter (not (is_record_key key)) (λ e. h)
            (λ e.
              prune_found-Has v now retention scope key _ s
                (read_execution_record-elim (IsSafe now retention scope key)
                  (trim_suffix key (bytes ".json")) v.record_read s refl
                  (found-IsSafe key r s (ground (arith)) body safe h))
                h)

      prune_keys-Has :
          (visit : Str → Visit) (keys : List Str) (r : ExecutionRecord) (s : Store Content)
          → o.body ≡ journal r
          → IsProtected now retention scope r
          → Has s
          → Has (prune_keys draw visit now retention scope keys s).1.1
      unfolding prune_keys
      prune_keys-Has visit [] r s body safe h = h
      prune_keys-Has visit (key ∷ rest) r s body safe h =
          pruned-keeps Has remove_plan-Has key _ _ (prune_key-Has (visit key) key r s body safe h)
            (λ t k. prune_keys-Has visit rest r t body safe k)

      pruned_list-Has :
          (visit : Str → Visit) (found : Reply (List Str)) (r : ExecutionRecord) (s : Store Content)
          → o.body ≡ journal r
          → IsProtected now retention scope r
          → Has s
          → Has (pruned_list draw visit now retention scope s found).1.1
      pruned_list-Has visit (ok keys) r s body safe h = prune_keys-Has visit keys r s body safe h
      pruned_list-Has visit missing r s body safe h = h
      pruned_list-Has visit conflict r s body safe h = h
      pruned_list-Has visit invalid_key r s body safe h = h
      pruned_list-Has visit failed r s body safe h = h

-- Whatever fails, pruning leaves a record in the store, under its revision, if it belongs to
-- another scope, or needs recovery, or does not wait for its plans to be applied and has not
-- finished or finished less than the retention ago. The record's key ends in `.json`.
pub prune_executions-protected :
    (draw : ℕ → Str) (listing : Io) (visit : Str → Visit) (now retention : ℕ) (scope j : Str)
    (o : Object Content) (r : ExecutionRecord) (s : Store Content)
    → has_suffix j (bytes ".json") ≡ true
    → lookup j s.objects ≡ some o
    → o.body ≡ journal r
    → IsProtected now retention scope r
    → lookup j (prune_executions draw listing visit now retention scope s).1.1.objects ≡ some o
unfolding prune_executions
prune_executions-protected draw listing visit now retention scope j o r s json here body safe =
    pruned_list-Has j o json draw now retention scope visit _ r s body safe here
