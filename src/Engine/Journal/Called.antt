-- ===== src/Engine/Journal/Called.antt =====
-- recordPlugin of internal/engine/plugins.go, and what stays as it is while the plugins record
-- their calls.
use terragraph.Prelude.{
  ℕ, ◌≡◌, inl, inr, refl, sym, ap, ◌∙◌, subst, Bool, true, false, Str, List, [], ◌∷◌, Option, none,
  some, lookup, lookup-insert, Bool-cases,
}
use terragraph.Engine.Store.{
  Io, Store, Reply, ok, missing, conflict, invalid_key, failed, replaced, write, new_revision,
}
use terragraph.Engine.Store.Replies.{written}
use terragraph.Engine.Journal.{
  ExecutionRecord, Content, journal, Phase, Session, record_key, publish, published, announce,
  is_told, publish_calls, record_plugin, record_plugins,
}
use terragraph.Engine.Journal.Calls.{PluginCall, with_call}

-- The records agree apart from the plugin calls and the version that comes with them.
abbrev pub IsCalled : ExecutionRecord → ExecutionRecord → Type 0
IsCalled r q = q ≡ record r { schema_version = q.schema_version; plugin_calls = q.plugin_calls }

pub IsCalled-trans : (r q p : ExecutionRecord) → IsCalled r q → IsCalled q p → IsCalled r p
IsCalled-trans r q p e f =
    f
    ∙ ap
        (λ (x : ExecutionRecord). record x {
          schema_version = p.schema_version;
          plugin_calls = p.plugin_calls;
        })
        e

module _ (draw : ℕ → Str) where
  module _ {ℓ} (P : Session → Type ℓ) where
    -- Publishing a record with other calls keeps the property.
    abbrev pub KeptByCalls : Type ℓ
    KeptByCalls =
        (io : Io) (next : ExecutionRecord) (s : Session)
        → IsCalled s.record_of next
        → P s
        → P (publish draw io next s).1

    record_plugin-keeps :
        (io : Io) (c : PluginCall) (s : Session)
        → KeptByCalls
        → P s
        → P (record_plugin draw io c s).1
    unfolding record_plugin
    record_plugin-keeps io c s keep h = changed (with_call c s.record_of.plugin_calls)
      where
        changed : (calls : Option (List PluginCall)) → P (publish_calls draw io calls s).1
        changed none = h
        changed (some calls) = keep io _ s refl h

    pub record_plugins-keeps :
        (cs : List (Io × PluginCall)) (s : Session)
        → KeptByCalls
        → P s
        → P (record_plugins draw cs s)
    unfolding record_plugins
    record_plugins-keeps [] s keep h = h
    record_plugins-keeps (c ∷ rest) s keep h =
        record_plugins-keeps rest _ keep (record_plugin-keeps c.0 c.1 s keep h)

    -- The announcement keeps what does not read the events and is kept while calls are recorded.
    pub announce-keeps :
        (name : Str) (phase : Phase) (previous : Option Phase) (out : Bool × Session)
        → KeptByCalls
        → ((s : Session) (es : List (Str × Phase)) → P s → P (record s { finished_events = es }))
        → P out.1
        → P (announce draw name phase previous out).1
    unfolding announce
    announce-keeps name phase previous (false, s) keep note h = h
    announce-keeps name phase previous (true, s) keep note h =
        elim (Bool-cases (is_told phase previous)) [
          | inl e ↦ rw e (record_plugins-keeps (s.host name phase) _ keep (note s _ h))
          | inr e ↦ rw e h
        ]

  -- It does not change whether the transition has succeeded.
  pub announce-ok :
      (name : Str) (phase : Phase) (previous : Option Phase) (out : Bool × Session)
      → (announce draw name phase previous out).0 ≡ out.0
  unfolding announce
  announce-ok name phase previous (false, s) = refl
  announce-ok name phase previous (true, s) = elim (Bool-cases (is_told phase previous)) [
    | inl e ↦ rw e refl
    | inr e ↦ rw e refl
  ]

  pub announce-failed :
      (name : Str) (phase : Phase) (previous : Option Phase) (out : Bool × Session)
      → out.0 ≡ false
      → announce draw name phase previous out ≡ out
  unfolding announce
  announce-failed name phase previous (false, s) e = refl
  announce-failed name phase previous (true, s) e = absurd (cc)

  -- Where nothing is to be announced the session stays as it is.
  pub announce-silent :
      (name : Str) (phase : Phase) (previous : Option Phase) (out : Bool × Session)
      → is_told phase previous ≡ false
      → announce draw name phase previous out ≡ out
  unfolding announce
  announce-silent name phase previous (false, s) e = refl
  announce-silent name phase previous (true, s) e = rw e refl

  published-IsCalled :
      (base next : ExecutionRecord) (s : Session) (out : Reply Str × Store Content)
      → IsCalled s.record_of next
      → IsCalled base s.record_of
      → IsCalled base (published s next out).1.record_of
  published-IsCalled base next s (ok r, t) h k = IsCalled-trans base s.record_of next k h
  published-IsCalled base next s (missing, t) h k = k
  published-IsCalled base next s (conflict, t) h k = k
  published-IsCalled base next s (invalid_key, t) h k = k
  published-IsCalled base next s (failed, t) h k = k

  -- The store has a record under the key that agrees with the other one apart from calls.
  abbrev pub IsOnRecord : ExecutionRecord → Store Content → Type 0
  IsOnRecord base t =
      (r : ExecutionRecord) × (revision : Str) × IsCalled base r
      × (lookup (record_key base) t.objects
          ≡ some (record { revision = revision; body = journal r }))

  abbrev pub IsRecorded : ExecutionRecord → Session → Type 0
  IsRecorded base s = IsCalled base s.record_of × IsOnRecord base s.store

  replaced-IsOnRecord :
      (base next : ExecutionRecord) (t : Store Content)
      → IsCalled base next
      → IsOnRecord base (replaced draw t (record_key next) (journal next))
  replaced-IsOnRecord base next t h = (
    next,
    _,
    h,
    subst
        (λ k.
          lookup k (replaced draw t (record_key next) (journal next)).objects
          ≡ some (record { revision = new_revision draw t.drawn; body = journal next }))
        (ap record_key h) (lookup-insert (record_key next) _ t.objects),
  )

  write-IsOnRecord :
      (io : Io) (base next : ExecutionRecord) (t : Store Content) (revision : Str)
      → IsCalled base next
      → IsOnRecord base t
      → IsOnRecord base (write draw io t (record_key next) (journal next) revision).1
  write-IsOnRecord io base next t revision h k =
      elim (written draw io t (record_key next) (journal next) revision) [
        | inl (n, e) ↦ rw e k
        | inr (m, inl e) ↦ rw e k
        | inr (m, inr (inl (n, e))) ↦ rw e (replaced-IsOnRecord base next t h)
        | inr (m, inr (inr e)) ↦ rw e (replaced-IsOnRecord base next t h)
      ]

  published-store :
      (next : ExecutionRecord) (s : Session) (out : Reply Str × Store Content)
      → (published s next out).1.store ≡ out.1
  published-store next s (ok r, t) = refl
  published-store next s (missing, t) = refl
  published-store next s (conflict, t) = refl
  published-store next s (invalid_key, t) = refl
  published-store next s (failed, t) = refl

  -- What is on record stays there, whatever becomes of the writes.
  pub publish-IsRecorded : (base : ExecutionRecord) → KeptByCalls (IsRecorded base)
  unfolding publish
  publish-IsRecorded base io next s h (k, there) = (
    published-IsCalled base next s _ h k,
    subst (IsOnRecord base) (sym (published-store next s _)) (
        write-IsOnRecord io base next s.store s.revision (IsCalled-trans base s.record_of next k h)
          there),
  )
