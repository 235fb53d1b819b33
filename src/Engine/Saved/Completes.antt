-- ===== src/Engine/Saved/Completes.antt =====
-- The application of a saved plan succeeds where everything goes well.
use terragraph.Prelude.{
  ℕ, suc, ◌≡◌, inl, inr, refl, sym, ap, ◌∙◌, subst, arith, Bool, true, false, not, ◌&&◌, ◌||◌, Str,
  bytes, List, [], ◌∷◌, ◌++◌, Option, none, some, if◌then◌else◌, is_nil, lookup, str_eq_refl,
  str_eq, Bool-cases,
}
use terragraph.Engine.Store.{Io, valid_key, opened}
use terragraph.Engine.Store.Replies.{is_clean, read_clean, opened_at}
use terragraph.Engine.Journal.{
  ExecutionNode, plan, PlanBundle, Session, Phase, initializing, planned, completed, phase_of,
}
use terragraph.Engine.SavedNode.{
  Answers, initialized, both_are, init_node, bundle_fits, bundle_read, read_plan_bundle,
  apply_bundle, apply_read, apply_saved_node, saved_plan, session_of,
}
use terragraph.Engine.Saved.Unchanged.{IsUnchanged}
use terragraph.Engine.Saved.Clean.{IsLive, node_of}
use terragraph.Engine.Saved.Carried.{
  past, then_run-on, GoesWell, IsIn, transition-IsIn, apply_prepared_plan-Ends,
}

module _ (draw : ℕ → Str) (now : ℕ) (name : Str) (origin : Session) where
  abbrev Applies : Bool × Session → Type 0
  Applies out = (out.0 ≡ true) × IsIn draw now name origin completed out.1

  session_of-IsIn :
      (o : Option Session) (s t : Session)
      → o ≡ some t
      → IsIn draw now name origin completed t
      → IsIn draw now name origin completed (session_of o s)
  session_of-IsIn none s t e h = absurd (cc)
  session_of-IsIn (some u) s t e h = subst (IsIn draw now name origin completed) (only e) h
    where
      only : some u ≡ some t → t ≡ u
      only h = cc

  module _ (io : ℕ → Io) (a : Answers) (b : PlanBundle) (clean : (k : ℕ) → is_clean (io k) ≡ true)
      (well : GoesWell (saved_plan a name b) a.applying_answers) where
    apply_bundle-Applies :
        (before : Phase) (s : Session)
        → IsIn draw now name origin before s
        → Applies (apply_bundle draw now io a name b s)
    unfolding apply_bundle
    apply_bundle-Applies before s h =
        let (good, (t, e, after)) =
          apply_prepared_plan-Ends draw now name origin (λ k. io (suc (suc (suc (suc k)))))
            (saved_plan a name b) a.applying_answers refl (λ k. clean (suc (suc (suc (suc k)))))
            (record { session = some s; started_with = none }) before refl well (s, refl, h) in
        (good, session_of-IsIn _ s t e after)

    init_node-Applies :
        (rest : Session → Bool × Session) (s : Session)
        → a.init ≡ initialized
        → Applies (rest s)
        → Applies (init_node draw now (io 2) a.init name rest s)
    unfolding init_node
    init_node-Applies rest s e h =
        subst (λ i. Applies (init_node draw now (io 2) i name rest s)) (sym e) h

    apply_read-Applies :
        (node : ExecutionNode) (before : Phase) (s : Session)
        → node.name ≡ name
        → a.init ≡ initialized
        → a.written ≡ true
        → IsUnchanged a node b
        → IsIn draw now name origin before s
        → Applies (apply_read draw now io a node (some b) s)
    unfolding apply_read
    apply_read-Applies node before s same i w (target, first, second) h =
        past Applies (not (both_are a.target (some node.target))) _ (ground (arith)) (
          past Applies (not (both_are a.before (some b.binding))) _ (ground (arith)) (
            rw same (
              let (went, at1) =
                transition-IsIn draw now name origin (io 1) before initializing [] [] s (clean 1)
                  h in
              then_run-on Applies _ _ went (
                init_node-Applies _ _ i (
                  let (went2, at2) =
                    transition-IsIn draw now name origin (io 3) initializing planned [] [] _
                      (clean 3) at1 in
                  then_run-on Applies _ _ went2 (
                    past Applies (not (both_are a.after (some b.binding)) || not a.written) _
                      (ground (arith)) (apply_bundle-Applies planned _ at2)))))))

bundle-found :
    (draw : ℕ → Str) (now : ℕ) (io : Io) (node : ExecutionNode) (b : PlanBundle) (revision : Str)
    (s : Session)
    → is_clean io ≡ true
    → valid_key (node.plan_id ++ bytes ".bin") ≡ true
    → lookup (node.plan_id ++ bytes ".bin") s.store.objects
      ≡ some (record { revision = revision; body = plan b })
    → is_nil revision ≡ false
    → bundle_fits draw now node s b ≡ true
    → read_plan_bundle draw now io node s ≡ some b
unfolding read_plan_bundle
bundle-found draw now io node b revision s c v there n fits =
    ap (bundle_read draw now node s) (
      read_clean draw io s.store (node.plan_id ++ bytes ".bin") c v
      ∙ ap (opened io) there
      ∙ opened_at draw io revision (record { revision = revision; body = plan b }) c
          (ground (arith, str_eq_refl revision)))
    ∙ ap (λ (x : Bool). if x then some b else none) fits

phase_of-node_of :
    (name : Str) (ns : List ExecutionNode) (n : ExecutionNode)
    → node_of name ns ≡ some n
    → phase_of name ns ≡ some n.phase
unfolding node_of phase_of
phase_of-node_of name [] n = λ h. absurd (cc)
phase_of-node_of name (x ∷ rest) n = elim (Bool-cases (str_eq x.name name)) [
  | inl e ↦ rw e (λ h. ap (λ y. some y.phase) (only h))
  | inr e ↦ rw e (λ h. phase_of-node_of name rest n h)
]
  where
    only : some x ≡ some n → x ≡ n
    only h = cc

-- Where the store and the session are as they should be, nothing fails, and nothing has changed,
-- the application of the saved plan of a node succeeds and completes the node.
pub apply_saved_node-completes :
    (draw : ℕ → Str) (now : ℕ) (io : ℕ → Io) (a : Answers) (b : PlanBundle) (node : ExecutionNode)
    (revision : Str) (s : Session)
    → ((k : ℕ) → is_clean (io k) ≡ true)
    → (a.prepared && a.written) ≡ true
    → a.init ≡ initialized
    → IsUnchanged a node b
    → GoesWell (saved_plan a node.name b) a.applying_answers
    → IsLive s
    → node_of node.name s.record_of.nodes ≡ some node
    → valid_key (node.plan_id ++ bytes ".bin") ≡ true
    → lookup (node.plan_id ++ bytes ".bin") s.store.objects
      ≡ some (record { revision = revision; body = plan b })
    → is_nil revision ≡ false
    → bundle_fits draw now node s b ≡ true
    → ((apply_saved_node draw now io a node s).0 ≡ true)
      × (phase_of node.name (apply_saved_node draw now io a node s).1.record_of.nodes
          ≡ some completed)
unfolding apply_saved_node
apply_saved_node-completes draw now io a b node revision s clean ready i same well live found v
      there n fits =
    let (went, (m, p, at)) =
      past (Applies draw now node.name s) (not a.prepared) _ (ground (arith)) (
        subst (λ o. Applies draw now node.name s (apply_read draw now io a node o s))
          (sym (bundle-found draw now (io 0) node b revision s (clean 0) v there n fits))
          (apply_read-Applies draw now node.name s io a b clean well node node.phase s refl i
            (ground (arith)) same (node, refl, (live, found, (refl, λ j d. refl))))) in
    (went, phase_of-node_of node.name _ m at.1 ∙ ap some p)
