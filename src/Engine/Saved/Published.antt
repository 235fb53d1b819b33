-- ===== src/Engine/Saved/Published.antt =====
-- applyPreparedPlan succeeds only with outputs that are published and a node that is completed.
use terragraph.Prelude.{
  ℕ, ◌≡◌, inl, inr, refl, sym, subst, Bool, true, false, not, ◌||◌, ◌&&◌, Str, List, [], Option,
  none, some, if_elim, is_nil, Bool-cases, arith,
}
use terragraph.Engine.Approve.{ResourceChange, not_permitted}
use terragraph.Engine.Store.{Io}
use terragraph.Engine.Journal.{Session, Phase, applying, applied, completed, transition, is_some}
use terragraph.Engine.Apply
use terragraph.Engine.Apply.{
  Applied, succeeded, Plan, Run, Status, status_applied, status_unchanged, record_phase, settled,
  publish_outputs, after_applied, after_apply, start, decide, is_approved, apply_prepared_plan,
}
use terragraph.Engine.Apply.Behind.{IsPublished, completed-IsPublished}
use terragraph.Engine.SavedNode.{has_succeeded}

-- The step behind succeeds only with outputs that are published.
module _ (draw : ℕ → Str) (io : ℕ → Io) (now : ℕ) (p : Plan) (c : Apply.Answers) where
  abbrev pub IsGood : Status × Run → Type 0
  IsGood out = has_succeeded out.0 ≡ true → IsPublished draw io now p c out.1

  completed-IsGood :
      (n : ℕ) (status : Status) (run : Run) (s : Session)
      → (c.outputs_read && c.outputs_valid && c.snapshot_written) ≡ true
      → IsGood
          (settled draw io now p c status (record_phase draw io now p c n completed run (some s)))
  unfolding record_phase
  completed-IsGood n status run s read =
      elim (Bool-cases (transition draw (io n) now p.name completed [] [] s).0) [
        | inl e ↦ rw e (λ _. completed-IsPublished draw io now p c n run s read e)
        | inr e ↦ rw e (λ f. absurd (cc))
      ]

  publish_outputs-IsGood :
      (n : ℕ) (status : Status) (run : Run) (s : Session)
      → run.session ≡ some s
      → IsGood (publish_outputs draw io now p c n status run)
  unfolding publish_outputs
  publish_outputs-IsGood n status run s e =
      elim (Bool-cases (not c.outputs_read || not c.outputs_valid || not c.snapshot_written)) [
        | inl f ↦ rw f (λ g. absurd (cc))
        | inr f ↦ rw f (
            subst
              (λ q.
                IsGood
                  (settled draw io now p c status (record_phase draw io now p c n completed run q)))
              (sym e) (completed-IsGood n status run s (ground (arith))))
      ]

  -- A run that has a session keeps having one.
  abbrev HasSession : Run → Type 0
  HasSession run = (s : Session) × (run.session ≡ some s)

  record_phase-HasSession :
      (n : ℕ) (phase : Phase) (run : Run)
      → HasSession run
      → HasSession (record_phase draw io now p c n phase run run.session).1
  unfolding record_phase
  record_phase-HasSession n phase run (s, e) =
      subst (λ q. HasSession (record_phase draw io now p c n phase run q).1) (sym e)
        ((transition draw (io n) now p.name phase [] [] s).1, refl)

  after_applied-IsGood :
      (out : Bool × Run) → HasSession out.1 → IsGood (after_applied draw io now p c out)
  after_applied-IsGood (true, run) (s, e) = publish_outputs-IsGood 2 status_applied run s e
  after_applied-IsGood (false, run) h = λ f. absurd (cc)

  after_apply-IsGood :
      (r : Applied) (run : Run) → HasSession run → IsGood (after_apply draw io now p c r run)
  unfolding after_apply
  after_apply-IsGood succeeded run h =
      after_applied-IsGood _ (record_phase-HasSession 1 applied run h)
  after_apply-IsGood Apply.not_started run h = λ f. absurd (cc)
  after_apply-IsGood Apply.broken run h = λ f. absurd (cc)

  start-IsGood : (out : Bool × Run) → HasSession out.1 → IsGood (start draw io now p c out)
  start-IsGood (true, run) h = after_apply-IsGood c.runtime _ h
  start-IsGood (false, run) h = λ f. absurd (cc)

  decide-IsGood :
      (run : Run) (o : Option (List ResourceChange))
      → HasSession run
      → IsGood (decide draw io now p c run o)
  unfolding decide
  decide-IsGood run none h = λ f. absurd (cc)
  decide-IsGood run (some changes) h =
      if_elim IsGood (not (is_nil (not_permitted changes p.level))) (λ e f. absurd (cc))
        (λ e.
          if_elim IsGood (not p.auto_approve && not (is_some c.human)) (λ e f. absurd (cc))
            (λ e.
              if_elim IsGood (not p.auto_approve && not (is_approved c.human)) (λ e f. absurd (cc))
                (λ e.
                  if_elim IsGood (not c.admitted) (λ e f. absurd (cc))
                    (λ e. start-IsGood _ (record_phase-HasSession 0 applying run h)))))

  pub apply_prepared_plan-IsGood :
      (run : Run) → HasSession run → IsGood (apply_prepared_plan draw io now p c run)
  unfolding apply_prepared_plan
  apply_prepared_plan-IsGood run h =
      if_elim IsGood (not c.contracts_hold) (λ e f. absurd (cc))
        (λ e.
          if_elim IsGood (not p.changed && not p.verify_unchanged)
            (λ e. publish_outputs-IsGood 0 status_unchanged run h.0 h.1)
            (λ e. decide-IsGood run c.change_set h))
