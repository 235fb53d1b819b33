-- ===== src/Engine/Apply/Ahead.antt =====
-- The runtime is told to apply a plan only behind the gate, the approval and the journal.
use terragraph.Prelude.{
  ℕ, ◌≡◌, inl, inr, refl, sym, ap, subst, ◌∙◌, arith, Bool, true, false, not, ◌&&◌, ◌||◌, Str, List,
  [], Option, none, some, if◌then◌else◌, is_nil, Bool-cases,
}
use terragraph.Engine.Approve.{ResourceChange, not_permitted, all_permitted, not_permitted-empty}
use terragraph.Engine.Store.{Io}
use terragraph.Engine.Journal.{
  Phase, applying, applied, completed, indeterminate, unsuccessful, Session, transition,
  execution_needs_recovery, is_some,
}
use terragraph.Engine.Journal.Steps.{IsStored}
use terragraph.Engine.Journal.Moves.{
  transition-moved, transition-IsStored, execution_needs_recovery-phase,
}
use terragraph.Engine.Apply.{
  Applied, succeeded, not_started, broken, Answers, Plan, Status, Run, record_phase, settled,
  publish_outputs, after_applied, after_apply, start, decide, apply_prepared_plan, is_approved,
  status_applied, status_unchanged,
}

module _ (draw : ℕ → Str) (io : ℕ → Io) (now : ℕ) (plan : Plan) (a : Answers) where
  record_phase-started :
      (n : ℕ) (phase : Phase) (run : Run) (s : Option Session)
      → (record_phase draw io now plan a n phase run s).1.started_with ≡ run.started_with
  unfolding record_phase
  record_phase-started n phase run none = refl
  record_phase-started n phase run (some s) = refl

  settled-started :
      (status : Status) (out : Bool × Run)
      → (settled draw io now plan a status out).1.started_with ≡ out.1.started_with
  settled-started status (true, run) = refl
  settled-started status (false, run) = refl

  publish_outputs-started :
      (n : ℕ) (status : Status) (run : Run)
      → (publish_outputs draw io now plan a n status run).1.started_with ≡ run.started_with
  unfolding publish_outputs
  publish_outputs-started n status run =
      elim (Bool-cases (not a.outputs_read || not a.outputs_valid || not a.snapshot_written)) [
        | inl e ↦ rw e refl
        | inr e ↦ rw e (settled-started status _ ∙ record_phase-started n completed run run.session)
      ]

  after_applied-started :
      (out : Bool × Run)
      → (after_applied draw io now plan a out).1.started_with ≡ out.1.started_with
  after_applied-started (true, run) = publish_outputs-started 2 status_applied run
  after_applied-started (false, run) = refl

  after_apply-started :
      (r : Applied) (run : Run)
      → (after_apply draw io now plan a r run).1.started_with ≡ run.started_with
  unfolding after_apply
  after_apply-started succeeded run =
      after_applied-started _ ∙ record_phase-started 1 applied run run.session
  after_apply-started not_started run = record_phase-started 1 unsuccessful run run.session
  after_apply-started broken run = record_phase-started 1 indeterminate run run.session

  -- The runtime was told to apply the plan, with the session `x` at that moment.
  abbrev IsStarted : Option Session → Status × Run → Type 0
  IsStarted x out = out.1.started_with ≡ some x

  start-IsStarted :
      (x : Option Session) (out : Bool × Run)
      → out.1.started_with ≡ none
      → IsStarted x (start draw io now plan a out)
      → (out.0 ≡ true) × (x ≡ out.1.session)
  start-IsStarted x (true, run) n h = (
    refl,
    some_inj
        (sym h ∙ after_apply-started a.runtime (record run { started_with = some run.session })),
  )
    where
      some_inj : some x ≡ some run.session → x ≡ run.session
      some_inj e = cc
  start-IsStarted x (false, run) n h = absurd (cc)

  -- What the journal says when the runtime starts.
  abbrev pub IsJournaled : Option Session → Type 0
  IsJournaled x =
      (s : Session) × (x ≡ some s) × IsStored s × (execution_needs_recovery s.record_of ≡ true)

  abbrev pub IsAllowed : Type 0
  IsAllowed =
      ((changes : List ResourceChange) × (a.change_set ≡ some changes)
        × (all_permitted plan.level changes ≡ true))
      × ((plan.auto_approve || is_approved a.human) ≡ true)
      × ((a.contracts_hold && a.admitted) ≡ true)

  record_phase-IsJournaled :
      (s : Session) (run : Run)
      → is_some s.record_of.recovery_at ≡ false
      → (record_phase draw io now plan a 0 applying run (some s)).0 ≡ true
      → IsJournaled (record_phase draw io now plan a 0 applying run (some s)).1.session
  unfolding record_phase
  record_phase-IsJournaled s run n h =
      let went = transition-moved draw (io 0) now plan.name applying [] [] s h in
      (
        (transition draw (io 0) now plan.name applying [] [] s).1,
        refl,
        transition-IsStored draw (io 0) now plan.name applying [] [] s refl h,
        execution_needs_recovery-phase _ plan.name applying went.0 refl (ap is_some went.1 ∙ n),
      )

  past_guard :
      (b : Bool) (x : Option Session) (out later : Status × Run)
      → out.1.started_with ≡ none
      → IsStarted x (if b then out else later)
      → (b ≡ false) × IsStarted x later
  past_guard true x out later n h = absurd (cc)
  past_guard false x out later n h = (refl, h)

  approval :
      (not plan.auto_approve && not (is_approved a.human)) ≡ false
      → (plan.auto_approve || is_approved a.human) ≡ true
  approval h = ground (arith)

  admission :
      a.contracts_hold ≡ true → not a.admitted ≡ false → (a.contracts_hold && a.admitted) ≡ true
  admission h k = ground (arith)

  gate :
      (changes : List ResourceChange)
      → not (is_nil (not_permitted changes plan.level)) ≡ false
      → all_permitted plan.level changes ≡ true
  gate changes h = sym (not_permitted-empty changes plan.level) ∙ open_gate
    where
      open_gate : is_nil (not_permitted changes plan.level) ≡ true
      open_gate = ground (arith)

  decide-started :
      (s : Session) (x : Option Session) (found : Option (List ResourceChange))
      → a.change_set ≡ found
      → a.contracts_hold ≡ true
      → is_some s.record_of.recovery_at ≡ false
      → IsStarted x
          (decide draw io now plan a (record { session = some s; started_with = none }) found)
      → IsAllowed × IsJournaled x
  unfolding decide
  decide-started s x none c k n h = absurd (cc)
  decide-started s x (some changes) c k n h =
      let g = past_guard (not (is_nil (not_permitted changes plan.level))) x _ _ refl h in
      let p = past_guard (not plan.auto_approve && not (is_some a.human)) x _ _ refl g.1 in
      let u = past_guard (not plan.auto_approve && not (is_approved a.human)) x _ _ refl p.1 in
      let m = past_guard (not a.admitted) x _ _ refl u.1 in
      let st = start-IsStarted x _ (record_phase-started 0 applying (begun s) (some s)) m.1 in
      (
        ((changes, c, gate changes g.0), approval u.0, admission k m.0),
        subst IsJournaled (sym st.1) (record_phase-IsJournaled s (begun s) n st.0),
      )
    where
      begun : Session → Run
      begun t = record { session = some t; started_with = none }

  -- The runtime is told to apply a plan only if the contracts hold, the approve level permits
  -- every action of the plan, a human approved it or was not to be asked, and the plugins admit
  -- it; and at that moment the store holds a record, as the session has it, that needs recovery,
  -- if no operator had retired the session's record before.
  pub apply_prepared_plan-started :
      (s : Session) (x : Option Session)
      → is_some s.record_of.recovery_at ≡ false
      → (apply_prepared_plan draw io now plan a
          (record { session = some s; started_with = none })).1.started_with
        ≡ some x
      → IsAllowed × IsJournaled x
  unfolding apply_prepared_plan
  apply_prepared_plan-started s x n h =
      let k = past_guard (not a.contracts_hold) x _ _ refl h in
      let c =
        past_guard (not plan.changed && not plan.verify_unchanged) x _ _
          (publish_outputs-started 0 status_unchanged
            (record { session = some s; started_with = none }))
          k.1 in
      decide-started s x a.change_set refl (holds k.0) n c.1
    where
      holds : not a.contracts_hold ≡ false → a.contracts_hold ≡ true
      holds e = ground (arith)
