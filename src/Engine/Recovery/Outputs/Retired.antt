-- ===== src/Engine/Recovery/Outputs/Retired.antt =====
-- When the recovery of outputs is accepted, and what is on record then.
use terragraph.Prelude.{
  ℕ, ◌≡◌, inl, inr, refl, ap, ◌∙◌, subst, arith, Bool, true, false, not, Str, bytes, str_eq, List,
  [], ◌∷◌, ◌++◌, ◌⊎◌, Option, none, some, if_elim, is_nil, lookup, All, Bool-cases,
}
use terragraph.Engine.Store.{Io, Store}
use terragraph.Engine.Journal.{
  ExecutionRecord, ExecutionNode, Content, journal, Session, completed, publish, transition,
  record_key, recovered_record, execution_needs_recovery,
}
use terragraph.Engine.Journal.Calls.{calls_need_recovery}
use terragraph.Engine.Journal.Steps.{publish-ok}
use terragraph.Engine.Recovery.{accepted, read_execution_record, opened_session, replan_published}
use terragraph.Engine.Recovery.Gate.{recovered_record-passes, replan_published-accepted}
use terragraph.Engine.Recovery.Outputs.{
  Collected, Collection, stopped, walked, is_unknown, is_applied, noted_issue, completed_or,
  complete_node, collect_nodes, retire, outputs_found, recover_outputs,
}
use terragraph.Engine.SavedNode.{both_are}
use terragraph.Engine.Recovery.Outputs.Sessions.{
  IsTaken, IsSuccessor, Goes, transition_to-Goes, recover_node_outputs-Goes,
}

module _ (draw : ℕ → Str) (now : ℕ) (io : Str → ℕ → Io) (collected : Str → Collected) where
  -- The outcome of the node is known, and an applied one has the target it was applied to.
  abbrev pub IsCollectable : ExecutionNode → Type 0
  IsCollectable n =
      (is_unknown n.phase ≡ false)
      × (is_applied n.phase ≡ true → both_are (collected n.name).target (some n.target) ≡ true)

  module _ (old : ExecutionRecord) where
    -- A walk without a failure has seen nodes that can be collected only.
    abbrev IsClean : List ExecutionNode → Collection → Type 0
    IsClean ns (stopped s) = true ≡ true
    IsClean ns (walked true s) = true ≡ true
    IsClean ns (walked false s) = All IsCollectable ns × IsSuccessor draw now io collected old s

    noted_issue-IsClean :
        (ns : List ExecutionNode) (out : Collection) → IsClean ns (noted_issue out)
    noted_issue-IsClean ns (stopped s) = refl
    noted_issue-IsClean ns (walked found s) = refl

    one_more :
        (n : ExecutionNode) (rest : List ExecutionNode) (out : Collection)
        → IsCollectable n
        → IsClean rest out
        → IsClean (n ∷ rest) out
    one_more n rest (stopped s) c h = refl
    one_more n rest (walked true s) c h = refl
    one_more n rest (walked false s) c (h, k) = ((c, h), k)

    completed_or-IsClean :
        (ns : List ExecutionNode) (out : Bool × Session) (later : Session → Collection)
        → Goes draw now io collected old out
        → ((s : Session) → IsSuccessor draw now io collected old s → IsClean ns (later s))
        → IsClean ns (completed_or draw now io collected out later)
    completed_or-IsClean ns (true, s) later h k = k s h
    completed_or-IsClean ns (false, s) later h k = refl

    complete_node-IsClean :
        (ns : List ExecutionNode) (name : Str) (out : Bool × Session) (later : Session → Collection)
        → Goes draw now io collected old out
        → ((s : Session) → IsSuccessor draw now io collected old s → IsClean ns (later s))
        → IsClean ns (complete_node draw now io collected name out later)
    unfolding transition
    complete_node-IsClean ns name (true, s) later h k =
        completed_or-IsClean ns _ later
          (transition_to-Goes draw now io collected old (io name 2) name completed _ s h) k
    complete_node-IsClean ns name (false, s) later h k = noted_issue-IsClean ns (later s)

    collect_nodes-IsClean :
        (ns : List ExecutionNode) (s : Session)
        → IsSuccessor draw now io collected old s
        → IsClean ns (collect_nodes draw now io collected ns s)
    unfolding collect_nodes
    collect_nodes-IsClean [] s h = (tt, h)
    collect_nodes-IsClean (n ∷ rest) s h =
        if_elim (IsClean (n ∷ rest)) (is_unknown n.phase) (λ e. noted_issue-IsClean (n ∷ rest) _)
          (λ e.
            if_elim (IsClean (n ∷ rest)) (not (is_applied n.phase))
              (λ f.
                one_more n rest _ (e, λ a. absurd (ground (arith)))
                  (collect_nodes-IsClean rest s h))
              (λ f.
                if_elim (IsClean (n ∷ rest))
                  (not (both_are (collected n.name).target (some n.target)))
                  (λ k. noted_issue-IsClean (n ∷ rest) _)
                  (λ k.
                    one_more n rest _ (e, λ a. ground (arith))
                      (complete_node-IsClean rest n.name _ _
                        (recover_node_outputs-Goes draw now io collected old n.name s h)
                        (λ t m. collect_nodes-IsClean rest t m)))))

  -- How a recovery of outputs was accepted.
  abbrev pub IsCollected : Option (ExecutionRecord × Str) → Store Content → Type 0
  IsCollected found after =
      (old : ExecutionRecord) × (revision : Str) × (r : ExecutionRecord) × (renewed : Str) × (found
        ≡ some (old, revision))
      × (execution_needs_recovery old ≡ true)
      × (is_nil old.preparation ≡ true)
      × All IsCollectable old.nodes
      × (execution_needs_recovery r ≡ calls_need_recovery r.plugin_calls)
      × ((execution_needs_recovery r ≡ false) ⊎ IsTaken draw now io collected)
      × (lookup (record_key old) after.objects
          ≡ some (record { revision = renewed; body = journal r }))

  retire-accepted :
      (old : ExecutionRecord) (revision : Str) (prepared : Bool) (out : Collection)
      → IsClean old old.nodes out
      → is_nil old.preparation ≡ not prepared
      → execution_needs_recovery old ≡ true
      → calls_need_recovery old.plugin_calls ≡ false
      → (retire draw now io collected prepared out).0 ≡ accepted
      → IsCollected (some (old, revision)) (retire draw now io collected prepared out).1
  unfolding retire recovered_record execution_needs_recovery
  retire-accepted old revision prepared (stopped s) c e n k h = absurd (cc)
  retire-accepted old revision true (walked found s) c e n k h = absurd (cc)
  retire-accepted old revision false (walked true s) c e n k h = absurd (cc)
  retire-accepted old revision false (walked false s) (c, (id, host, calls)) e n k h =
      let next = recovered_record now s.record_of in
      let p = replan_published-accepted next _ (publish-ok draw (io [] 1) next s) h in
      (
        old,
        revision,
        next,
        p.0,
        refl,
        n,
        e,
        c,
        ground (arith),
        elim calls [
          | inl same ↦
              inl (recovered_record-passes now s.record_of (ap calls_need_recovery same ∙ k))
          | inr taken ↦ inr taken
        ],
        subst
            (λ a.
              lookup (a ++ bytes ".json")
                (replan_published (publish draw (io [] 1) next s)).1.objects
              ≡ some (record { revision = p.0; body = journal next }))
            id p.1,
      )

  outputs_found-accepted :
      (scope : Str) (store : Store Content) (found : Option (ExecutionRecord × Str))
      → (outputs_found draw now io collected scope store found).0 ≡ accepted
      → IsCollected found (outputs_found draw now io collected scope store found).1
  unfolding outputs_found
  outputs_found-accepted scope store none = λ h. absurd (cc)
  outputs_found-accepted scope store (some (r, revision)) =
      elim (Bool-cases (str_eq r.scope scope)) [
        | inr e ↦ rw e (λ h. absurd (cc))
        | inl e ↦ elim (Bool-cases (execution_needs_recovery r)) [
          | inr f ↦ rw (e, f) (λ h. absurd (cc))
          | inl f ↦ elim (Bool-cases (calls_need_recovery r.plugin_calls)) [
            | inl g ↦ rw (e, f, g) (λ h. absurd (cc))
            | inr g ↦
                rw (e, f, g)
                  (retire-accepted r revision (not (is_nil r.preparation)) _
                    (collect_nodes-IsClean r r.nodes (opened_session r revision store)
                      (refl, λ name phase. refl, inl refl))
                    (not_not (is_nil r.preparation)) f g)
          ]
        ]
      ]
    where
      not_not : (b : Bool) → b ≡ not (not b)
      not_not true = refl
      not_not false = refl

  -- A recovery that collects outputs is accepted only after the confirmation, for a record that
  -- needed recovery, with no preparation of a backend left open, whose nodes all have a known
  -- outcome, the applied ones under the target they were applied to; the store then holds, in the
  -- record's place, one that needs recovery only for its plugin calls, and none at all unless
  -- the credential plugins of a node have recorded a call on the way.
  pub recover_outputs-accepted :
      (scope : Str) (store : Store Content) (id : Str) (confirm_stopped : Bool)
      → (recover_outputs draw now io collected scope store id confirm_stopped).0 ≡ accepted
      → (confirm_stopped ≡ true)
        × IsCollected
            (read_execution_record (io [] 0) store id)
            (recover_outputs draw now io collected scope store id confirm_stopped).1
  unfolding recover_outputs
  recover_outputs-accepted scope store id false = λ h. absurd (cc)
  recover_outputs-accepted scope store id true = λ h. (refl, outputs_found-accepted scope store _ h)
