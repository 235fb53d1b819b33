-- ===== src/Engine/Journal/Moves.antt =====
-- A transition moves one node of the record to its phase, and nothing is run under a record
-- that does not say so.
use terragraph.Prelude.{
  ℕ, ◌≡◌, ◌⊎◌, inl, inr, refl, sym, ap, subst, ◌∙◌, arith, Bool, true, false, Str, str_eq, List, [],
  ◌∷◌, ◌++◌, Option, none, some, if◌then◌else◌, any, lookup, Bool-cases,
}
use terragraph.Engine.Store.{Io, Object}
use terragraph.Engine.Journal.Calls.{PluginCall, with_call}
use terragraph.Engine.Journal.Called.{
  IsCalled, IsRecorded, announce-keeps, announce-ok, announce-failed, announce-silent,
  publish-IsRecorded,
}
use terragraph.Engine.Journal.{
  Phase, ExecutionNode, ExecutionRecord, journal, Session, record_key, publish, is_unresolved,
  phase_of, transition, transition_to, with_nodes, announce, execution_needs_recovery, is_some,
  is_told, is_outcome, Content, publish_calls, record_plugin, record_plugins,
}
use terragraph.Engine.Journal.Steps.{IsStored, publish-ok, publish-failed, publish-events}
use terragraph.Engine.Journal.Placed.{IsMoved, IsPlaced, set_phase-IsPlaced}

-- The events after a step to the phase.
abbrev pub told : Str → Phase → Option Phase → Session → List (Str × Phase)
told name phase previous s =
    if is_told phase previous then s.finished_events ++ ((name, phase) ∷ []) else s.finished_events

module _ (draw : ℕ → Str) where
  record_plugin-events :
      (io : Io) (c : PluginCall) (s : Session)
      → (record_plugin draw io c s).1.finished_events ≡ s.finished_events
  unfolding record_plugin
  record_plugin-events io c s = changed (with_call c s.record_of.plugin_calls)
    where
      changed :
          (calls : Option (List PluginCall))
          → (publish_calls draw io calls s).1.finished_events ≡ s.finished_events
      changed none = refl
      changed (some calls) = publish-events draw io _ s

  record_plugins-events :
      (cs : List (Io × PluginCall)) (s : Session)
      → (record_plugins draw cs s).finished_events ≡ s.finished_events
  unfolding record_plugins
  record_plugins-events [] s = refl
  record_plugins-events (c ∷ rest) s = record_plugins-events rest _ ∙ record_plugin-events c.0 c.1 s

  announce-told :
      (name : Str) (phase : Phase) (previous : Option Phase) (out : Bool × Session)
      → out.0 ≡ true
      → (announce draw name phase previous out).1.finished_events ≡ told name phase previous out.1
  unfolding announce
  announce-told name phase previous (false, s) h = absurd (cc)
  announce-told name phase previous (true, s) h = elim (Bool-cases (is_told phase previous)) [
    | inl e ↦ rw e (record_plugins-events (s.host name phase) _)
    | inr e ↦ rw e refl
  ]

  -- The node is moved, and the record and the store are as the plugins leave them.
  abbrev pub IsStep : Str → Phase → Session → Bool × Session → Type 0
  IsStep name phase s out =
      (base : ExecutionRecord) × IsMoved name phase s.record_of.nodes base.nodes
      × (base.plugin_calls ≡ s.record_of.plugin_calls)
      × (base.recovery_at ≡ s.record_of.recovery_at)
      × IsRecorded draw base out.1
      × (((out.1.record_of ≡ base) × IsStored out.1)
          ⊎ (is_told phase (phase_of name s.record_of.nodes) ≡ true))
      × (out.1.finished_events ≡ told name phase (phase_of name s.record_of.nodes) s)

  transition_to-IsStep :
      (io : Io) (now : ℕ) (name : Str) (phase : Phase) (nodes : Option (List ExecutionNode))
      (s : Session)
      → IsPlaced name phase s.record_of.nodes nodes
      → (transition_to draw io now name phase nodes s).0 ≡ true
      → IsStep name phase s (transition_to draw io now name phase nodes s)
  unfolding transition_to
  transition_to-IsStep io now name phase none s m h = absurd (cc)
  transition_to-IsStep io now name phase (some nodes) s m h =
      let next : ExecutionRecord = with_nodes s.record_of nodes now in
      let previous : Option Phase = phase_of name s.record_of.nodes in
      let out = publish draw io next s in
      let went : out.0 ≡ true = sym (announce-ok draw name phase previous out) ∙ h in
      let p = publish-ok draw io next s went in
      let here : IsRecorded draw next out.1 = (
        subst (IsCalled next) (sym p.0) refl,
        (
          next,
          out.1.revision,
          refl,
          subst
              (λ q.
                lookup (record_key q) out.1.store.objects
                ≡ some (record { revision = out.1.revision; body = journal q }))
              p.0 p.1,
        ),
      ) in
      (
        next,
        m,
        refl,
        refl,
        announce-keeps draw (IsRecorded draw next) name phase previous out
            (publish-IsRecorded draw next) (λ t es k. k) here,
        elim (Bool-cases (is_told phase previous)) [
          | inl told_now ↦ inr told_now
          | inr silent ↦
              let same = announce-silent draw name phase previous out silent in
              inl (
                ap (λ (t : Bool × Session). t.1.record_of) same ∙ p.0,
                subst (λ (t : Bool × Session). IsStored t.1) (sym same) p.1,
              )
        ],
        announce-told name phase previous out went ∙ rw (publish-events draw io next s) refl,
      )

  -- A transition that returns no error has moved the node of the name in the record, and left
  -- the phase of every other node, the names and the recovery time. The plugins are told of the
  -- end of the mutation exactly if the node was applying or operating and the phase is an
  -- outcome. Where they are not told, the session has that record, with the plugin calls as they
  -- were, and the store has it under the session's revision; where they are, the session and the
  -- store each have it up to the calls that the plugins have recorded, even if the write of a
  -- call fails.
  pub transition-ok :
      (io : Io) (now : ℕ) (name : Str) (phase : Phase) (code plan_id : Str) (s : Session)
      → (transition draw io now name phase code plan_id s).0 ≡ true
      → IsStep name phase s (transition draw io now name phase code plan_id s)
  unfolding transition
  transition-ok io now name phase code plan_id s =
      transition_to-IsStep io now name phase _ s
        (set_phase-IsPlaced name phase code plan_id s.record_of.nodes)

  -- What a transition leaves in the session's record.
  pub transition-moved :
      (io : Io) (now : ℕ) (name : Str) (phase : Phase) (code plan_id : Str) (s : Session)
      → (transition draw io now name phase code plan_id s).0 ≡ true
      → let t = (transition draw io now name phase code plan_id s).1 in
        (phase_of name t.record_of.nodes ≡ some phase)
        × (t.record_of.recovery_at ≡ s.record_of.recovery_at)
  transition-moved io now name phase code plan_id s h =
      let (base, moved, calls, recovery, (same, there), silent, events) =
        transition-ok io now name phase code plan_id s h in
      (
        ap (λ (r : ExecutionRecord). phase_of name r.nodes) same ∙ moved.0,
        ap (λ (r : ExecutionRecord). r.recovery_at) same ∙ recovery,
      )

  -- The store has the session's record, where the phase is no outcome.
  pub transition-IsStored :
      (io : Io) (now : ℕ) (name : Str) (phase : Phase) (code plan_id : Str) (s : Session)
      → is_outcome phase ≡ false
      → (transition draw io now name phase code plan_id s).0 ≡ true
      → IsStored (transition draw io now name phase code plan_id s).1
  transition-IsStored io now name phase code plan_id s quiet h =
      let (base, moved, calls, recovery, recorded, silent, events) =
        transition-ok io now name phase code plan_id s h in
      elim silent [ inl (whole, stored) ↦ stored | inr told_now ↦ absurd (ground (arith)) ]

  -- The store has a record of the execution that says the phase.
  abbrev pub Says : Str → Phase → Session → Type 0
  Says name phase t =
      (r : ExecutionRecord) × (revision : Str) × (phase_of name r.nodes ≡ some phase)
      × (r.id ≡ t.record_of.id)
      × (lookup (record_key r) t.store.objects
          ≡ some (record { revision = revision; body = journal r }))

  pub transition-Says :
      (io : Io) (now : ℕ) (name : Str) (phase : Phase) (code plan_id : Str) (s : Session)
      → (transition draw io now name phase code plan_id s).0 ≡ true
      → Says name phase (transition draw io now name phase code plan_id s).1
  transition-Says io now name phase code plan_id s h =
      let t : Session = (transition draw io now name phase code plan_id s).1 in
      let (base, moved, calls, recovery, (same, (r, revision, called, there)), silent, events) =
        transition-ok io now name phase code plan_id s h in
      (
        r,
        revision,
        ap (λ (q : ExecutionRecord). phase_of name q.nodes) called ∙ moved.0,
        ap (λ (q : ExecutionRecord). q.id) called ∙ sym (ap (λ (q : ExecutionRecord). q.id) same),
        subst
            (λ k.
              lookup k t.store.objects ≡ some (record { revision = revision; body = journal r }))
            (sym (ap record_key called)) there,
      )

unresolved_at : Option Phase → Bool
unresolved_at none = false
unresolved_at (some phase) = is_unresolved phase

any_phase :
    (name : Str) (nodes : List ExecutionNode)
    → unresolved_at (phase_of name nodes) ≡ true
    → any (λ n. is_unresolved n.phase) nodes ≡ true
unfolding phase_of unresolved_at
any_phase name [] = λ h. absurd (cc)
any_phase name (n ∷ rest) = elim (Bool-cases (str_eq n.name name)) [
  | inl e ↦ rw e (λ h. ground (arith))
  | inr e ↦ rw e (λ h. let found = any_phase name rest h in ground (arith))
]

unresolved_at-some :
    (o : Option Phase) (phase : Phase) → o ≡ some phase → unresolved_at o ≡ is_unresolved phase
unfolding unresolved_at
unresolved_at-some o phase e = rw e refl

-- A record with a node in an unresolved phase needs recovery until an operator has retired it.
pub execution_needs_recovery-phase :
    (r : ExecutionRecord) (name : Str) (phase : Phase)
    → phase_of name r.nodes ≡ some phase
    → is_unresolved phase ≡ true
    → is_some r.recovery_at ≡ false
    → execution_needs_recovery r ≡ true
unfolding execution_needs_recovery
execution_needs_recovery-phase r name phase h u n =
    let found = any_phase name r.nodes (unresolved_at-some _ phase h ∙ u) in ground (arith)

-- Before a node is worked on, the store says so: once a transition to an unresolved phase has
-- returned no error, the record in the store is one that needs recovery, if no operator had
-- retired the record before. It stands under the session's revision, except where the plugins
-- have been told since: then it may be under that of a call they have recorded.
pub transition-unresolved :
    (draw : ℕ → Str) (io : Io) (now : ℕ) (name : Str) (phase : Phase) (code plan_id : Str)
    (s : Session)
    → is_unresolved phase ≡ true
    → is_some s.record_of.recovery_at ≡ false
    → (transition draw io now name phase code plan_id s).0 ≡ true
    → (r : ExecutionRecord) × (revision : Str) × (execution_needs_recovery r ≡ true)
      × (lookup (record_key r) (transition draw io now name phase code plan_id s).1.store.objects
          ≡ some (record { revision = revision; body = journal r }))
      × ((revision ≡ (transition draw io now name phase code plan_id s).1.revision)
          ⊎ (is_told phase (phase_of name s.record_of.nodes) ≡ true))
transition-unresolved draw io now name phase code plan_id s u n h =
    let t : Session = (transition draw io now name phase code plan_id s).1 in
    let (base, moved, calls, recovery, (same, (r, revision, called, there)), silent, events) =
      transition-ok draw io now name phase code plan_id s h in
    (
      r,
      revision,
      execution_needs_recovery-phase r name phase
          (ap (λ (q : ExecutionRecord). phase_of name q.nodes) called ∙ moved.0) u
          (ap (λ (q : ExecutionRecord). is_some q.recovery_at) called ∙ ap is_some recovery ∙ n),
      subst
          (λ k. lookup k t.store.objects ≡ some (record { revision = revision; body = journal r }))
          (sym (ap record_key called)) there,
      elim silent [
        | inr told_now ↦ inr told_now
        | inl (whole, stored) ↦
            let here =
              subst
                (λ (q : ExecutionRecord).
                  lookup (record_key q) t.store.objects
                  ≡ some (record { revision = t.revision; body = journal q }))
                whole stored in
            inl (one_revision (sym there ∙ here))
      ],
    )
  where
    one_revision : {o p : Object Content} → some o ≡ some p → o.revision ≡ p.revision
    one_revision e = cc

module _ (draw : ℕ → Str) where
  transition_to-failed :
      (io : Io) (now : ℕ) (name : Str) (phase : Phase) (nodes : Option (List ExecutionNode))
      (s : Session)
      → (transition_to draw io now name phase nodes s).0 ≡ false
      → ((transition_to draw io now name phase nodes s).1.record_of ≡ s.record_of)
        × ((transition_to draw io now name phase nodes s).1.finished_events ≡ s.finished_events)
  unfolding transition_to
  transition_to-failed io now name phase none s h = (refl, refl)
  transition_to-failed io now name phase (some nodes) s h =
      let next : ExecutionRecord = with_nodes s.record_of nodes now in
      let previous : Option Phase = phase_of name s.record_of.nodes in
      let out = publish draw io next s in
      let stopped : out.0 ≡ false = sym (announce-ok draw name phase previous out) ∙ h in
      let same = announce-failed draw name phase previous out stopped in
      (
        ap (λ (t : Bool × Session). t.1.record_of) same ∙ (publish-failed draw io next s stopped).0,
        ap (λ (t : Bool × Session). t.1.finished_events) same ∙ publish-events draw io next s,
      )

  -- A transition that returns an error leaves the session's record as it was, and the plugins
  -- are told nothing.
  pub transition-failed :
      (io : Io) (now : ℕ) (name : Str) (phase : Phase) (code plan_id : Str) (s : Session)
      → (transition draw io now name phase code plan_id s).0 ≡ false
      → ((transition draw io now name phase code plan_id s).1.record_of ≡ s.record_of)
        × ((transition draw io now name phase code plan_id s).1.finished_events ≡ s.finished_events)
  unfolding transition
  transition-failed io now name phase code plan_id s = transition_to-failed io now name phase _ s
