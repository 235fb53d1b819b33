-- ===== src/Engine/Saved/Unchanged.antt =====
-- A saved plan is applied only to what it was made for, and an application that succeeds has
-- completed the node.
use terragraph.Prelude.{ℕ, ◌≡◌, ◌<◌, ◌⊎◌, Bool, true, false, Str, bytes, ◌++◌, some, is_nil, lookup}
use terragraph.Engine.Journal.{ExecutionNode, plan, PlanBundle, Session, completed, phase_of}
use terragraph.Engine.Journal.Moves.{Says}
use terragraph.Engine.SavedNode.{Answers, both_are}

-- The target and the sources that the plan was made for are found again, the sources twice.
abbrev pub IsUnchanged : Answers → ExecutionNode → PlanBundle → Type 0
IsUnchanged a node b =
    (both_are a.target (some node.target) ≡ true)
    × (both_are a.before (some b.binding) ≡ true)
    × (both_are a.after (some b.binding) ≡ true)

module _ (draw : ℕ → Str) (now : ℕ) where
  -- The session's record and the one in the store have the node completed.
  abbrev pub IsCompleted : Str → Session → Type 0
  IsCompleted name t =
      (phase_of name t.record_of.nodes ≡ some completed) × Says draw name completed t

  -- The object in the store under the record's identifier of the plan is a plan of this node of
  -- this execution that has not expired.
  abbrev pub IsPlanFor : ExecutionNode → Session → PlanBundle → Type 0
  IsPlanFor node s b =
      ((revision : Str) × (lookup (node.plan_id ++ bytes ".bin") s.store.objects
          ≡ some (record { revision = revision; body = plan b })))
      × (b.id ≡ node.plan_id)
      × (b.node ≡ node.name)
      × (b.execution_id ≡ s.record_of.id)
      × (is_nil b.plan_bytes ≡ false)
      × (now < b.expires_at)

  -- What a success of the steps behind the guards shows.
  abbrev Ends : Answers → Str → PlanBundle → Bool × Session → Type 0
  Ends a name b out = out.0 ≡ true → (a.after ≡ some b.binding) × IsCompleted name out.1

  -- The session is as before a refusal, or the plan is for the node and what it was made for is
  -- found again, and a success has completed the node.
  abbrev pub IsGuarded : Answers → ExecutionNode → Session → Bool × Session → Type 0
  IsGuarded a node s out =
      (out ≡ (false, s))
      ⊎ ((b : PlanBundle) × IsPlanFor node s b
          × (a.target ≡ some node.target)
          × (a.before ≡ some b.binding)
          × ((out.0 ≡ false) ⊎ ((a.after ≡ some b.binding) × IsCompleted node.name out.1)))
