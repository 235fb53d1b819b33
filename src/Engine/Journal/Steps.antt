-- ===== src/Engine/Journal/Steps.antt =====
-- What publishing a record and moving a node to a phase do to the session and to the store.
use terragraph.Prelude.{ℕ, ◌≡◌, ◌⊎◌, inl, inr, refl, ap, ◌∙◌, true, false, Str, some, lookup}
use terragraph.Engine.Store.{Io, Store, Reply, ok, missing, conflict, invalid_key, failed, write}
use terragraph.Engine.Store.Replies.{is_ok, write-ok, write-failed}
use terragraph.Engine.Journal.{
  ExecutionRecord, Content, journal, Session, record_key, publish, published,
}

-- The store holds the session's record, under the session's revision.
abbrev pub IsStored : Session → Type 0
IsStored s =
    lookup (record_key s.record_of) s.store.objects
    ≡ some (record { revision = s.revision; body = journal s.record_of })

module _ (draw : ℕ → Str) where
  published-ok :
      (s : Session) (next : ExecutionRecord) (out : Reply Str × Store Content)
      → (published s next out).0 ≡ true
      → ((r : Str)
          → out.0 ≡ ok r
          → lookup (record_key next) out.1.objects
            ≡ some (record { revision = r; body = journal next }))
      → ((published s next out).1.record_of ≡ next) × IsStored (published s next out).1
  published-ok s next (ok r, store) h w = (refl, w r refl)
  published-ok s next (missing, store) h w = absurd (cc)
  published-ok s next (conflict, store) h w = absurd (cc)
  published-ok s next (invalid_key, store) h w = absurd (cc)
  published-ok s next (failed, store) h w = absurd (cc)

  -- After a record is published the session has it, and the store has it under the session's
  -- revision.
  pub publish-ok :
      (io : Io) (next : ExecutionRecord) (s : Session)
      → (publish draw io next s).0 ≡ true
      → ((publish draw io next s).1.record_of ≡ next) × IsStored (publish draw io next s).1
  unfolding publish
  publish-ok io next s h =
      published-ok s next (write draw io s.store (record_key next) (journal next) s.revision) h
        (λ r e. (write-ok draw io s.store (record_key next) (journal next) s.revision r e).1)

  published-failed :
      (s : Session) (next : ExecutionRecord) (out : Reply Str × Store Content)
      → (published s next out).0 ≡ false
      → ((published s next out).1.record_of ≡ s.record_of)
        × ((published s next out).1.revision ≡ s.revision)
        × ((published s next out).1.store ≡ out.1)
        × (is_ok out.0 ≡ false)
  published-failed s next (ok r, store) h = absurd (cc)
  published-failed s next (missing, store) h = (refl, refl, refl, refl)
  published-failed s next (conflict, store) h = (refl, refl, refl, refl)
  published-failed s next (invalid_key, store) h = (refl, refl, refl, refl)
  published-failed s next (failed, store) h = (refl, refl, refl, refl)

  -- Where publishing fails the session keeps the record and the revision it had, and the store
  -- its objects, unless only the sync of the directory failed.
  pub publish-failed :
      (io : Io) (next : ExecutionRecord) (s : Session)
      → (publish draw io next s).0 ≡ false
      → ((publish draw io next s).1.record_of ≡ s.record_of)
        × ((publish draw io next s).1.revision ≡ s.revision)
        × (((publish draw io next s).1.store.objects ≡ s.store.objects) ⊎ (io.synced ≡ false))
  unfolding publish
  publish-failed io next s h =
      let out : Reply Str × Store Content =
        write draw io s.store (record_key next) (journal next) s.revision in
      let kept = published-failed s next out h in
      (
        kept.0,
        kept.1,
        elim (write-failed draw io s.store (record_key next) (journal next) s.revision kept.3) [
          | inl e ↦ inl (ap (λ t. t.objects) kept.2 ∙ e)
          | inr (n, e) ↦ inr n
        ],
      )

  published-events :
      (s : Session) (next : ExecutionRecord) (out : Reply Str × Store Content)
      → (published s next out).1.finished_events ≡ s.finished_events
  published-events s next (ok r, store) = refl
  published-events s next (missing, store) = refl
  published-events s next (conflict, store) = refl
  published-events s next (invalid_key, store) = refl
  published-events s next (failed, store) = refl

  pub publish-events :
      (io : Io) (next : ExecutionRecord) (s : Session)
      → (publish draw io next s).1.finished_events ≡ s.finished_events
  unfolding publish
  publish-events io next s = published-events s next _
