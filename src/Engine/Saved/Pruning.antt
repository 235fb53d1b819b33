-- ===== src/Engine/Saved/Pruning.antt =====
-- Pruning keeps the order of the graph in the records of saved executions.
use terragraph.Prelude.{
  ℕ, ◌≡◌, refl, subst, true, not, Str, bytes, List, [], ◌∷◌, ◌++◌, Option, none, some, if_elim,
}
use terragraph.Graph.{Graph}
use terragraph.Engine.Store.{Io, Store, Reply, ok, missing, conflict, invalid_key, failed, remove}
use terragraph.Engine.Journal.{
  ExecutionRecord, Content, journal, Session, publish, published, record_key,
}
use terragraph.Engine.Recovery.{trim_suffix, is_record_key, opened_session}
use terragraph.Engine.Recovery.Reads.{read_execution_record-elim}
use terragraph.Engine.Retention.{
  Visit, Pruned, prune_found, prune_key, prune_keys, prune_executions, pruned_list, expired_record,
}
use terragraph.Engine.Retention.Keeps.{prune_found-keeps, pruned-keeps}
use terragraph.Engine.Saved.Kept.{
  IsBodyOrdered, IsStoreOrdered, remove-IsStoreOrdered, write-IsStoreOrdered,
}

module _ (g : Graph) where
  remove_plan-IsStoreOrdered :
      (io : Io) (s : Store Content) (name revision : Str)
      → IsStoreOrdered g s
      → IsStoreOrdered g (remove io s (name ++ bytes ".bin") revision).1
  remove_plan-IsStoreOrdered io s name revision h =
      remove-IsStoreOrdered g io s (name ++ bytes ".bin") revision h

  store-published :
      (s : Session) (next : ExecutionRecord) (out : Reply Str × Store Content)
      → IsStoreOrdered g out.1
      → IsStoreOrdered g (published s next out).1.store
  store-published s next (ok r, t) h = h
  store-published s next (missing, t) h = h
  store-published s next (conflict, t) h = h
  store-published s next (invalid_key, t) h = h
  store-published s next (failed, t) h = h

  module _ (draw : ℕ → Str) where
    pub publish-IsStoreOrdered :
        (io : Io) (next : ExecutionRecord) (s : Session)
        → IsBodyOrdered g (journal next)
        → IsStoreOrdered g s.store
        → IsStoreOrdered g (publish draw io next s).1.store
    unfolding publish
    publish-IsStoreOrdered io next s o h =
        store-published s next _
          (write-IsStoreOrdered g draw io s.store (record_key next) (journal next) s.revision h o)

    abbrev IsFound : Option (ExecutionRecord × Str) → Type 0
    IsFound none = true ≡ true
    IsFound (some (r, revision)) = IsBodyOrdered g (journal r)

    prune_found-IsStoreOrdered :
        (v : Visit) (now retention : ℕ) (scope key : Str) (found : Option (ExecutionRecord × Str))
        (s : Store Content)
        → IsFound found
        → IsStoreOrdered g s
        → IsStoreOrdered g (prune_found draw v now retention scope key found s).1
    unfolding prune_found
    prune_found-IsStoreOrdered v now retention scope key none s o h = h
    prune_found-IsStoreOrdered v now retention scope key (some (r, revision)) s o h =
        prune_found-keeps (IsStoreOrdered g) remove_plan-IsStoreOrdered draw v now retention scope
          key r revision s (λ io t rev k. remove-IsStoreOrdered g io t key rev k)
          (λ io at rev t k.
            publish-IsStoreOrdered io (expired_record at r) (opened_session r rev t) o k)
          h

    module _ (now retention : ℕ) (scope : Str) where
      prune_key-IsStoreOrdered :
          (v : Visit) (key : Str) (s : Store Content)
          → IsStoreOrdered g s
          → IsStoreOrdered g (prune_key draw v now retention scope key s).1
      unfolding prune_key
      prune_key-IsStoreOrdered v key s h =
          if_elim (λ (t : Pruned × Store Content). IsStoreOrdered g t.1) (not (is_record_key key))
            (λ e. h)
            (λ e.
              prune_found-IsStoreOrdered v now retention scope key _ s
                (read_execution_record-elim IsFound (trim_suffix key (bytes ".json")) v.record_read
                  s refl (λ o r there body named. subst (IsBodyOrdered g) body (h _ o there)))
                h)

      prune_keys-IsStoreOrdered :
          (visit : Str → Visit) (keys : List Str) (s : Store Content)
          → IsStoreOrdered g s
          → IsStoreOrdered g (prune_keys draw visit now retention scope keys s).1.1
      unfolding prune_keys
      prune_keys-IsStoreOrdered visit [] s h = h
      prune_keys-IsStoreOrdered visit (key ∷ rest) s h =
          pruned-keeps (IsStoreOrdered g) remove_plan-IsStoreOrdered key _ _
            (prune_key-IsStoreOrdered (visit key) key s h) (prune_keys-IsStoreOrdered visit rest)

      pruned_list-IsStoreOrdered :
          (visit : Str → Visit) (found : Reply (List Str)) (s : Store Content)
          → IsStoreOrdered g s
          → IsStoreOrdered g (pruned_list draw visit now retention scope s found).1.1
      pruned_list-IsStoreOrdered visit (ok keys) s h = prune_keys-IsStoreOrdered visit keys s h
      pruned_list-IsStoreOrdered visit missing s h = h
      pruned_list-IsStoreOrdered visit conflict s h = h
      pruned_list-IsStoreOrdered visit invalid_key s h = h
      pruned_list-IsStoreOrdered visit failed s h = h

      pub prune_executions-IsStoreOrdered :
          (listing : Io) (visit : Str → Visit) (s : Store Content)
          → IsStoreOrdered g s
          → IsStoreOrdered g (prune_executions draw listing visit now retention scope s).1.1
      unfolding prune_executions
      prune_executions-IsStoreOrdered listing visit s h = pruned_list-IsStoreOrdered visit _ s h
