-- ===== src/Engine/Saved/Carried.antt =====
-- A prepared plan is applied to its end where everything goes well, and its node is completed.
use terragraph.Prelude.{
  ℕ, ◌≡◌, refl, sym, subst, arith, Bool, true, false, not, ◌&&◌, ◌||◌, Str, List, [], some,
  if◌then◌else◌, is_nil,
}
use terragraph.Engine.Approve.{ResourceChange, not_permitted}
use terragraph.Engine.Store.{Io}
use terragraph.Engine.Store.Replies.{is_clean}
use terragraph.Engine.Journal.{
  ExecutionNode, Session, Phase, applying, applied, completed, transition, is_some,
}
use terragraph.Engine.Apply.{
  Applied, succeeded, Plan, Run, Status, status_applied, record_phase, settled, publish_outputs,
  after_applied, after_apply, start, decide, apply_prepared_plan, is_approved,
}
use terragraph.Engine.Apply
use terragraph.Engine.SavedNode.{◌then_run◌, has_succeeded}
use terragraph.Engine.Saved.Clean.{IsAt, moved, transition-IsAt}

-- A guard that does not hold.
pub past {ℓ κ} :
    {A : Type ℓ} (P : A → Type κ) (c : Bool) (x : A) {y : A}
    → c ≡ false
    → P y
    → P (if c then x else y)
past P true x n h = absurd (cc)
past P false x n h = h

-- A step that has gone well.
pub then_run-on :
    (P : Bool × Session → Type 0) (out : Bool × Session) (f : Session → Bool × Session)
    → out.0 ≡ true
    → P (f out.1)
    → P (out then_run f)
unfolding ◌then_run◌
then_run-on P (true, s) f e h = h
then_run-on P (false, s) f e h = absurd (cc)

-- What applyPreparedPlan meets if it goes well: nothing is refused, and nothing fails.
pub record GoesWell (p : Plan) (a : Apply.Answers) : Type 0 where
  pub contracts : a.contracts_hold ≡ true
  pub changes : List ResourceChange
  pub read_changes : a.change_set ≡ some changes
  pub permitted : is_nil (not_permitted changes p.level) ≡ true
  pub approved : (p.auto_approve || is_some a.human && is_approved a.human) ≡ true
  pub admitted : a.admitted ≡ true
  pub applied_well : a.runtime ≡ succeeded
  pub outputs : (a.outputs_read && a.outputs_valid && a.snapshot_written) ≡ true

module _ (draw : ℕ → Str) (now : ℕ) (name : Str) (origin : Session) where
  -- The node of the name is in the phase.
  abbrev pub IsIn : Phase → Session → Type 0
  IsIn phase t = (n : ExecutionNode) × (n.phase ≡ phase) × IsAt name n origin t

  pub transition-IsIn :
      (io : Io) (before phase : Phase) (code plan_id : Str) (t : Session)
      → is_clean io ≡ true
      → IsIn before t
      → ((transition draw io now name phase code plan_id t).0 ≡ true)
        × IsIn phase (transition draw io now name phase code plan_id t).1
  transition-IsIn io before phase code plan_id t c (n, p, at) =
      let (went, at2) = transition-IsAt draw now name origin io phase code plan_id n t c at in
      (went, (moved phase code plan_id n, refl, at2))

  module _ (io : ℕ → Io) (p : Plan) (a : Apply.Answers) (named : p.name ≡ name)
      (clean : (k : ℕ) → is_clean (io k) ≡ true) where
    -- The run has a session in which the node is in the phase.
    abbrev pub RunIn : Phase → Run → Type 0
    RunIn phase run = (t : Session) × (run.session ≡ some t) × IsIn phase t

    abbrev pub Ends : Status × Run → Type 0
    Ends out = (has_succeeded out.0 ≡ true) × RunIn completed out.1

    record_phase-RunIn :
        (k : ℕ) (before phase : Phase) (run : Run)
        → RunIn before run
        → ((record_phase draw io now p a k phase run run.session).0 ≡ true)
          × RunIn phase (record_phase draw io now p a k phase run run.session).1
    unfolding record_phase
    record_phase-RunIn k before phase run (t, e, is_in) =
        let (went, after) = transition-IsIn (io k) before phase [] [] t (clean k) is_in in
        rw (e, named) (went, (_, refl, after))

    settled-Ends :
        (out : Bool × Run)
        → out.0 ≡ true
        → RunIn completed out.1
        → Ends (settled draw io now p a status_applied out)
    settled-Ends (true, run) w h = (refl, h)
    settled-Ends (false, run) w h = absurd (cc)

    publish_outputs-Ends :
        (run : Run)
        → (a.outputs_read && a.outputs_valid && a.snapshot_written) ≡ true
        → RunIn applied run
        → Ends (publish_outputs draw io now p a 2 status_applied run)
    unfolding publish_outputs
    publish_outputs-Ends run o h =
        past Ends (not a.outputs_read || not a.outputs_valid || not a.snapshot_written) _
          (ground (arith))
          (let (went, after) = record_phase-RunIn 2 applied completed run h in
            settled-Ends _ went after)

    after_applied-Ends :
        (out : Bool × Run)
        → (a.outputs_read && a.outputs_valid && a.snapshot_written) ≡ true
        → out.0 ≡ true
        → RunIn applied out.1
        → Ends (after_applied draw io now p a out)
    after_applied-Ends (true, run) o w h = publish_outputs-Ends run o h
    after_applied-Ends (false, run) o w h = absurd (cc)

    after_apply-Ends :
        (r : Applied) (run : Run)
        → r ≡ succeeded
        → (a.outputs_read && a.outputs_valid && a.snapshot_written) ≡ true
        → RunIn applying run
        → Ends (after_apply draw io now p a r run)
    unfolding after_apply
    after_apply-Ends r run e o h =
        let (went, after) = record_phase-RunIn 1 applying applied run h in
        subst (λ x. Ends (after_apply draw io now p a x run)) (sym e)
          (after_applied-Ends _ o went after)

    start-Ends :
        (out : Bool × Run)
        → GoesWell p a
        → out.0 ≡ true
        → RunIn applying out.1
        → Ends (start draw io now p a out)
    start-Ends (true, run) well w h = after_apply-Ends a.runtime _ well.applied_well well.outputs h
    start-Ends (false, run) well w h = absurd (cc)

    decide-Ends :
        (run : Run) (before : Phase)
        → GoesWell p a
        → RunIn before run
        → Ends (decide draw io now p a run a.change_set)
    unfolding decide
    decide-Ends run before well h =
        subst (λ x. Ends (decide draw io now p a run x)) (sym well.read_changes)
          (past Ends (not (is_nil (not_permitted well.changes p.level))) _
            (let y = well.permitted in ground (arith))
            (past Ends (not p.auto_approve && not (is_some a.human)) _
              (let y = well.approved in ground (arith))
              (past Ends (not p.auto_approve && not (is_approved a.human)) _
                (let y = well.approved in ground (arith))
                (past Ends (not a.admitted) _ (let y = well.admitted in ground (arith)) (
                  let (went, after) = record_phase-RunIn 0 before applying run h in
                  start-Ends _ well went after)))))

    pub apply_prepared_plan-Ends :
        (run : Run) (before : Phase)
        → p.verify_unchanged ≡ true
        → GoesWell p a
        → RunIn before run
        → Ends (apply_prepared_plan draw io now p a run)
    unfolding apply_prepared_plan
    apply_prepared_plan-Ends run before v well h =
        past Ends (not a.contracts_hold) _ (let y = well.contracts in ground (arith)) (
          past Ends (not p.changed && not p.verify_unchanged) _ (ground (arith))
            (decide-Ends run before well h))
