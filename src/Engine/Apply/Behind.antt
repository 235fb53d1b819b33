-- ===== src/Engine/Apply/Behind.antt =====
-- What is left on record when something goes wrong after the runtime was told to apply a plan.
use terragraph.Prelude.{
  ℕ, ◌≡◌, ◌≢◌, ◌⊎◌, inl, inr, refl, sym, ap, subst, ◌∙◌, Bool, true, false, not, ◌||◌, ◌&&◌, arith,
  Str, [], some, Bool-cases,
}
use terragraph.Engine.Store.{Io}
use terragraph.Engine.Journal.{
  Phase, applied, completed, indeterminate, Session, transition, execution_needs_recovery, is_some,
  phase_of, is_unresolved,
}
use terragraph.Engine.Journal.Moves.{
  transition-moved, transition-Says, Says, transition-failed, execution_needs_recovery-phase,
}
use terragraph.Engine.Apply.{
  Applied, succeeded, not_started, broken, Answers, Plan, Status, Run, record_phase, settled,
  publish_outputs, after_applied, after_apply, status_applied, status_unchanged, contracts_failed,
  unreadable_plan, blocked, prompt_failed, unapproved, not_admitted, journal_failed, runtime_failed,
  outputs_failed,
}

module _ (draw : ℕ → Str) (io : ℕ → Io) (now : ℕ) (plan : Plan) (a : Answers) where
  -- The session's record needs recovery and no operator has retired it.
  abbrev IsPending : Session → Type 0
  IsPending s =
      (is_some s.record_of.recovery_at ≡ false) × (execution_needs_recovery s.record_of ≡ true)

  abbrev pub IsLeft : Run → Type 0
  IsLeft run = (s : Session) × (run.session ≡ some s) × IsPending s

  transition-IsPending :
      (n : ℕ) (phase : Phase) (s : Session)
      → is_unresolved phase ≡ true
      → IsPending s
      → IsPending (transition draw (io n) now plan.name phase [] [] s).1
  transition-IsPending n phase s u (r, p) =
      elim (Bool-cases (transition draw (io n) now plan.name phase [] [] s).0) [
        | inl e ↦
            let went = transition-moved draw (io n) now plan.name phase [] [] s e in
            let left = ap is_some went.1 ∙ r in
            (left, execution_needs_recovery-phase _ plan.name phase went.0 u left)
        | inr e ↦ kept e
      ]
    where
      kept :
          (transition draw (io n) now plan.name phase [] [] s).0 ≡ false
          → IsPending (transition draw (io n) now plan.name phase [] [] s).1
      kept e =
          let same = (transition-failed draw (io n) now plan.name phase [] [] s e).0 in
          (ap (λ q. is_some q.recovery_at) same ∙ r, ap execution_needs_recovery same ∙ p)

  -- A status other than `status_applied` comes with a record that is pending.
  abbrev IsCovered : Status × Run → Type 0
  IsCovered out = (out.0 ≢ status_applied) → IsLeft out.1

  record_phase-IsLeft :
      (n : ℕ) (phase : Phase) (run : Run) (s : Session)
      → is_unresolved phase ≡ true
      → IsPending s
      → IsLeft (record_phase draw io now plan a n phase run (some s)).1
  unfolding record_phase
  record_phase-IsLeft n phase run s u p = (
    (transition draw (io n) now plan.name phase [] [] s).1,
    refl,
    transition-IsPending n phase s u p,
  )

  settled-IsCovered :
      (out : Bool × Run)
      → (out.0 ≡ false → IsLeft out.1)
      → IsCovered (settled draw io now plan a status_applied out)
  settled-IsCovered (true, run) h n = absurd (n refl)
  settled-IsCovered (false, run) h n = h refl

  completed-IsLeft :
      (n : ℕ) (run : Run) (s : Session)
      → IsPending s
      → (record_phase draw io now plan a n completed run (some s)).0 ≡ false
      → IsLeft (record_phase draw io now plan a n completed run (some s)).1
  unfolding record_phase
  completed-IsLeft n run s (r, p) e =
      let same = (transition-failed draw (io n) now plan.name completed [] [] s e).0 in
      (
        (transition draw (io n) now plan.name completed [] [] s).1,
        refl,
        (ap (λ q. is_some q.recovery_at) same ∙ r, ap execution_needs_recovery same ∙ p),
      )

  publish_outputs-IsCovered :
      (n : ℕ) (run : Run)
      → IsLeft run
      → IsCovered (publish_outputs draw io now plan a n status_applied run)
  unfolding publish_outputs
  publish_outputs-IsCovered n run (s, e, p) =
      elim (Bool-cases (not a.outputs_read || not a.outputs_valid || not a.snapshot_written)) [
        | inl f ↦ rw f (λ _. (s, e, p))
        | inr f ↦ rw f (
            subst
              (λ q. IsCovered (
                settled draw io now plan a status_applied
                  (record_phase draw io now plan a n completed run q)))
              (sym e)
              (settled-IsCovered (record_phase draw io now plan a n completed run (some s))
                (completed-IsLeft n run s p)))
      ]

  after_applied-IsCovered :
      (out : Bool × Run) → IsLeft out.1 → IsCovered (after_applied draw io now plan a out)
  after_applied-IsCovered (true, run) h = publish_outputs-IsCovered 2 run h
  after_applied-IsCovered (false, run) h = λ _. h

  -- The outputs were read, valid, and written to the snapshot, and the session and the store
  -- have the node completed.
  abbrev pub IsPublished : Run → Type 0
  IsPublished run =
      ((a.outputs_read && a.outputs_valid && a.snapshot_written) ≡ true)
      × ((t : Session) × (run.session ≡ some t)
          × (phase_of plan.name t.record_of.nodes ≡ some completed)
          × Says draw plan.name completed t)

  -- A status of `status_applied` comes with outputs that are published.
  abbrev IsEnded : Status × Run → Type 0
  IsEnded out = (out.0 ≡ status_applied) → IsPublished out.1

  pub completed-IsPublished :
      (n : ℕ) (run : Run) (s : Session)
      → (a.outputs_read && a.outputs_valid && a.snapshot_written) ≡ true
      → (transition draw (io n) now plan.name completed [] [] s).0 ≡ true
      → IsPublished (record_phase draw io now plan a n completed run (some s)).1
  unfolding record_phase
  completed-IsPublished n run s read e = (
    read,
    (
      (transition draw (io n) now plan.name completed [] [] s).1,
      refl,
      (transition-moved draw (io n) now plan.name completed [] [] s e).0,
      transition-Says draw (io n) now plan.name completed [] [] s e,
    ),
  )

  completed-IsEnded :
      (n : ℕ) (run : Run) (s : Session)
      → (a.outputs_read && a.outputs_valid && a.snapshot_written) ≡ true
      → IsEnded (
          settled draw io now plan a status_applied
            (record_phase draw io now plan a n completed run (some s)))
  unfolding record_phase
  completed-IsEnded n run s read =
      elim (Bool-cases (transition draw (io n) now plan.name completed [] [] s).0) [
        | inl e ↦ rw e (λ _. completed-IsPublished n run s read e)
        | inr e ↦ rw e (λ f. absurd (cc))
      ]

  publish_outputs-IsEnded :
      (n : ℕ) (run : Run) (s : Session)
      → run.session ≡ some s
      → IsEnded (publish_outputs draw io now plan a n status_applied run)
  unfolding publish_outputs
  publish_outputs-IsEnded n run s e =
      elim (Bool-cases (not a.outputs_read || not a.outputs_valid || not a.snapshot_written)) [
        | inl f ↦ rw f (λ g. absurd (cc))
        | inr f ↦ rw f (
            subst
              (λ q. IsEnded (
                settled draw io now plan a status_applied
                  (record_phase draw io now plan a n completed run q)))
              (sym e) (completed-IsEnded n run s (ground (arith))))
      ]

  after_applied-IsEnded :
      (out : Bool × Run) → IsLeft out.1 → IsEnded (after_applied draw io now plan a out)
  after_applied-IsEnded (true, run) (s, e, p) = publish_outputs-IsEnded 2 run s e
  after_applied-IsEnded (false, run) h = λ f. absurd (cc)

  -- One of the two ends.
  abbrev pub IsSettled : Status × Run → Type 0
  IsSettled out =
      ((out.0 ≡ status_applied) × IsPublished out.1) ⊎ ((out.0 ≢ status_applied) × IsLeft out.1)

  status_cases : (status : Status) → (status ≡ status_applied) ⊎ (status ≢ status_applied)
  status_cases status_applied = inl refl
  status_cases status_unchanged = inr (λ h. cc)
  status_cases contracts_failed = inr (λ h. cc)
  status_cases unreadable_plan = inr (λ h. cc)
  status_cases blocked = inr (λ h. cc)
  status_cases prompt_failed = inr (λ h. cc)
  status_cases unapproved = inr (λ h. cc)
  status_cases not_admitted = inr (λ h. cc)
  status_cases journal_failed = inr (λ h. cc)
  status_cases runtime_failed = inr (λ h. cc)
  status_cases outputs_failed = inr (λ h. cc)

  after_apply_ends :
      (r : Applied) (run : Run) (s : Session)
      → r ≢ not_started
      → run.session ≡ some s
      → IsPending s
      → IsEnded (after_apply draw io now plan a r run)
        × IsCovered (after_apply draw io now plan a r run)
  unfolding after_apply
  after_apply_ends succeeded run s d e h =
      subst
        (λ q.
          IsEnded
            (after_applied draw io now plan a (record_phase draw io now plan a 1 applied run q))
          × IsCovered
              (after_applied draw io now plan a (record_phase draw io now plan a 1 applied run q)))
        (sym e)
        (let left = record_phase-IsLeft 1 applied run s refl h in
          (after_applied-IsEnded _ left, after_applied-IsCovered _ left))
  after_apply_ends not_started run s d e h = absurd (d refl)
  after_apply_ends broken run s d e h = (
    λ f. absurd (cc),
    λ _.
        subst (λ q. IsLeft (record_phase draw io now plan a 1 indeterminate run q).1) (sym e)
          (record_phase-IsLeft 1 indeterminate run s refl h),
  )

  -- Once the runtime has been told to apply a plan and did start, there are two ends, whatever
  -- fails: the runtime, its outputs, the snapshot or the journal itself. Either the plan counts
  -- as applied, and then its outputs were read, valid, and written to the snapshot, and the
  -- session's record and the one in the store have the node completed; or the session's record
  -- needs recovery. For a session whose record needs recovery when the runtime starts.
  pub after_apply-covered :
      (r : Applied) (run : Run) (s : Session)
      → r ≢ not_started
      → run.session ≡ some s
      → is_some s.record_of.recovery_at ≡ false
      → execution_needs_recovery s.record_of ≡ true
      → IsSettled (after_apply draw io now plan a r run)
  after_apply-covered r run s d e n p =
      let (ended, covered) = after_apply_ends r run s d e (n, p) in
      elim (status_cases (after_apply draw io now plan a r run).0) [
        | inl same ↦ inl (same, ended same)
        | inr other ↦ inr (other, covered other)
      ]
