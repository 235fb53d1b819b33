-- ===== src/Engine/Saved/Applying.antt =====
-- What applying a saved plan leaves: only its last step completes the node, and until then the
-- node is ready.
use terragraph.Prelude.{
  ℕ, ◌≡◌, refl, Bool, true, false, not, ◌||◌, ◌&&◌, Str, List, [], Option, none, some,
  if◌then◌else◌, if_elim, is_nil,
}
use terragraph.Graph.{Graph}
use terragraph.Engine.Approve.{ResourceChange, not_permitted}
use terragraph.Engine.Store.{Io}
use terragraph.Engine.Journal.{
  ExecutionNode, PlanBundle, Session, Phase, initializing, planned, indeterminate, applying,
  applied, completed, unsuccessful, transition, is_some,
}
use terragraph.Engine.Apply.{
  Applied, succeeded, not_started, broken, Plan, Run, Status, status_unchanged, status_applied,
  record_phase, settled, publish_outputs, after_applied, after_apply, start, decide,
  apply_prepared_plan, is_approved,
}
use terragraph.Engine.Apply
use terragraph.Engine.SavedNode.{
  is_completed, Answers, both_are, session_of, saved_plan, apply_bundle, apply_read,
  apply_saved_node, ◌then_run◌,
}
use terragraph.Engine.Saved.Order.{IsUnderWay, IsBehind}
use terragraph.Engine.Saved.Sound.{
  KeepsUnderWay, KeepsBehind, UnderWay-Behind, transition-UnderWay, transition-Behind,
  then_run-Keeps, init_node-Keeps,
}

module _ (g : Graph) (draw : ℕ → Str) (now : ℕ) (name : Str) (before : List ExecutionNode) where
  abbrev OfSession : (Session → Type 0) → Option Session → Type 0
  OfSession P none = true ≡ true
  OfSession P (some s) = P s

  abbrev UnderWay : Run → Type 0
  UnderWay run = OfSession (KeepsUnderWay g draw now name before) run.session

  abbrev Behind : Run → Type 0
  Behind run = OfSession (KeepsBehind g draw now name before) run.session

  OfSession-weaken :
      (o : Option Session)
      → OfSession (KeepsUnderWay g draw now name before) o
      → OfSession (KeepsBehind g draw now name before) o
  OfSession-weaken none h = h
  OfSession-weaken (some s) h = UnderWay-Behind g draw now name before s h

  weaken : (run : Run) → UnderWay run → Behind run
  weaken run h = OfSession-weaken run.session h

  module _ (io : ℕ → Io) (p : Plan) (a : Apply.Answers) (named : p.name ≡ name) where
    abbrev Ends : Status × Run → Type 0
    Ends t = Behind t.1

    record_phase-UnderWay :
        (n : ℕ) (phase : Phase) (run : Run) (o : Option Session)
        → is_completed phase ≡ false
        → OfSession (KeepsUnderWay g draw now name before) o
        → UnderWay run
        → UnderWay (record_phase draw io now p a n phase run o).1
    unfolding record_phase
    record_phase-UnderWay n phase run none c h k = k
    record_phase-UnderWay n phase run (some s) c h k =
        rw named (transition-UnderWay g draw now name before (io n) phase [] [] s c h)

    record_phase-Behind :
        (n : ℕ) (phase : Phase) (run : Run) (o : Option Session)
        → OfSession (KeepsUnderWay g draw now name before) o
        → UnderWay run
        → Behind (record_phase draw io now p a n phase run o).1
    unfolding record_phase
    record_phase-Behind n phase run none h k = weaken run k
    record_phase-Behind n phase run (some s) h k =
        rw named (transition-Behind g draw now name before (io n) phase [] [] s h)

    settled-Behind :
        (status : Status) (out : Bool × Run)
        → Behind out.1
        → Behind (settled draw io now p a status out).1
    settled-Behind status (true, run) h = h
    settled-Behind status (false, run) h = h

    publish_outputs-Behind :
        (n : ℕ) (status : Status) (run : Run)
        → UnderWay run
        → Behind (publish_outputs draw io now p a n status run).1
    unfolding publish_outputs
    publish_outputs-Behind n status run h =
        if_elim Ends (not a.outputs_read || not a.outputs_valid || not a.snapshot_written)
          (λ e. weaken run h)
          (λ e. settled-Behind status _ (record_phase-Behind n completed run run.session h h))

    after_applied-Behind :
        (out : Bool × Run) → UnderWay out.1 → Behind (after_applied draw io now p a out).1
    after_applied-Behind (true, run) h = publish_outputs-Behind 2 status_applied run h
    after_applied-Behind (false, run) h = weaken run h

    after_apply-Behind :
        (r : Applied) (run : Run) → UnderWay run → Behind (after_apply draw io now p a r run).1
    unfolding after_apply
    after_apply-Behind succeeded run h =
        after_applied-Behind _ (record_phase-UnderWay 1 applied run run.session refl h h)
    after_apply-Behind not_started run h =
        weaken (record_phase draw io now p a 1 unsuccessful run run.session).1
          (record_phase-UnderWay 1 unsuccessful run run.session refl h h)
    after_apply-Behind broken run h =
        weaken (record_phase draw io now p a 1 indeterminate run run.session).1
          (record_phase-UnderWay 1 indeterminate run run.session refl h h)

    start-Behind : (out : Bool × Run) → UnderWay out.1 → Behind (start draw io now p a out).1
    start-Behind (true, run) h = after_apply-Behind a.runtime _ h
    start-Behind (false, run) h = weaken run h

    decide-Behind :
        (run : Run) (changes : Option (List ResourceChange))
        → UnderWay run
        → Behind (decide draw io now p a run changes).1
    unfolding decide
    decide-Behind run none h = weaken run h
    decide-Behind run (some changes) h =
        if_elim Ends (not (is_nil (not_permitted changes p.level))) (λ e. weaken run h)
          (λ e.
            if_elim Ends (not p.auto_approve && not (is_some a.human)) (λ f. weaken run h)
              (λ f.
                if_elim Ends (not p.auto_approve && not (is_approved a.human)) (λ k. weaken run h)
                  (λ k.
                    if_elim Ends (not a.admitted) (λ m. weaken run h)
                      (λ m.
                        start-Behind _
                          (record_phase-UnderWay 0 applying run run.session refl h h)))))

    apply_prepared_plan-Behind :
        (run : Run) → UnderWay run → Behind (apply_prepared_plan draw io now p a run).1
    unfolding apply_prepared_plan
    apply_prepared_plan-Behind run h =
        if_elim Ends (not a.contracts_hold) (λ e. weaken run h)
          (λ e.
            if_elim Ends (not p.changed && not p.verify_unchanged)
              (λ f. publish_outputs-Behind 0 status_unchanged run h)
              (λ f. decide-Behind run a.change_set h))

  session_of-Behind :
      (o : Option Session) (s : Session)
      → OfSession (KeepsBehind g draw now name before) o
      → KeepsBehind g draw now name before s
      → KeepsBehind g draw now name before (session_of o s)
  session_of-Behind none s h k = k
  session_of-Behind (some t) s h k = h

  apply_bundle-Behind :
      (io : ℕ → Io) (a : Answers) (b : PlanBundle) (s : Session)
      → KeepsUnderWay g draw now name before s
      → KeepsBehind g draw now name before (apply_bundle draw now io a name b s).1
  unfolding apply_bundle
  apply_bundle-Behind io a b s k =
      session_of-Behind _ s
        (apply_prepared_plan-Behind _ (saved_plan a name b) a.applying_answers refl _ k)
        (UnderWay-Behind g draw now name before s k)

  abbrev NodeEnds : Bool × Session → Type 0
  NodeEnds out = KeepsBehind g draw now name before out.1

  apply_read-Behind :
      (io : ℕ → Io) (a : Answers) (node : ExecutionNode) (o : Option PlanBundle) (s : Session)
      → node.name ≡ name
      → KeepsUnderWay g draw now name before s
      → NodeEnds (apply_read draw now io a node o s)
  unfolding apply_read
  apply_read-Behind io a node none s e k = UnderWay-Behind g draw now name before s k
  apply_read-Behind io a node (some b) s e k =
      if_elim NodeEnds (not (both_are a.target (some node.target))) (λ f. behind s k)
        (λ f.
          if_elim NodeEnds (not (both_are a.before (some b.binding))) (λ f. behind s k)
            (λ f. rw e (
              then_run-Keeps g (IsUnderWay g name before) (IsBehind g name before) _ _
                (transition-UnderWay g draw now name before (io 1) initializing [] [] s refl k)
                behind
                (λ t m.
                  init_node-Keeps g draw now name before (IsBehind g name before) (io 2) a.init _ t
                    m behind initialized_on))))
    where
      behind :
          (t : Session)
          → KeepsUnderWay g draw now name before t
          → KeepsBehind g draw now name before t
      behind = UnderWay-Behind g draw now name before

      on : Session → Bool × Session
      on u =
          if not (both_are a.after (some b.binding)) || not a.written
          then (false, u)
          else apply_bundle draw now io a name b u

      initialized_on :
          (t : Session)
          → KeepsUnderWay g draw now name before t
          → NodeEnds (transition draw (io 3) now name planned [] [] t then_run on)
      initialized_on t m =
          then_run-Keeps g (IsUnderWay g name before) (IsBehind g name before) _ on
            (transition-UnderWay g draw now name before (io 3) planned [] [] t refl m) behind
            (λ u w.
              if_elim NodeEnds (not (both_are a.after (some b.binding)) || not a.written)
                (λ f. behind u w) (λ f. apply_bundle-Behind io a b u w))

  -- Applying the saved plan of a node that is ready keeps the order, and the other nodes' phases.
  pub apply_saved_node-Behind :
      (io : ℕ → Io) (a : Answers) (node : ExecutionNode) (s : Session)
      → node.name ≡ name
      → KeepsUnderWay g draw now name before s
      → NodeEnds (apply_saved_node draw now io a node s)
  unfolding apply_saved_node
  apply_saved_node-Behind io a node s e k =
      if_elim NodeEnds (not a.prepared) (λ f. UnderWay-Behind g draw now name before s k)
        (λ f. apply_read-Behind io a node _ s e k)
