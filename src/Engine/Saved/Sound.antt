-- ===== src/Engine/Saved/Sound.antt =====
-- What the steps of one node leave: the order of the graph in the record and in the store.
use terragraph.Prelude.{
  ℕ, ◌≡◌, refl, ap, Bool, true, false, not, Str, bytes, str_eq, List, [], ◌∷◌, ◌++◌, Option, none,
  some, if_elim,
}
use terragraph.Graph.{Graph}
use terragraph.Engine.Store.{Io, Store, Reply, ok, missing, conflict, invalid_key, failed, write}
use terragraph.Engine.Journal.{
  ExecutionNode, Content, plan, Session, Phase, initializing, preparing, planned, indeterminate,
  unsuccessful, transition, fail, is_some, phase_of,
}
use terragraph.Engine.Journal.Placed.{names_of}
use terragraph.Engine.SavedNode.{
  is_completed, Initialized, initialized, not_started, broken, Answers, ◌then_run◌, both_are,
  set_node, publish_nodes, set_review, note_saved_failure, stored_bundle, bundle_of, retain_plan,
  keep_plan, prepare_plan, init_node, save_frontier_node,
}
use terragraph.Engine.Saved.Order.{
  IsSame, IsOrdered, IsUnderWay, IsBehind, moved-IsUnderWay, moved-IsBehind, same-IsUnderWay,
}
use terragraph.Engine.Saved.Kept.{
  Keeps, IsStoreOrdered, publish-Keeps, transition-Keeps, write-IsStoreOrdered,
}

abbrev IsPut : List ExecutionNode → Option (List ExecutionNode) → Type 0
IsPut before none = true ≡ true
IsPut before (some after) = IsSame before after

set_node-IsPut :
    (name : Str) (f : ExecutionNode → ExecutionNode)
    → ((n : ExecutionNode) → ((f n).name ≡ n.name) × ((f n).phase ≡ n.phase))
    → (ns : List ExecutionNode) → IsPut ns (set_node name f ns)
unfolding set_node phase_of
set_node-IsPut name f same [] = refl
set_node-IsPut name f same (n ∷ rest) =
    if_elim (IsPut (n ∷ rest)) (str_eq n.name name)
      (λ e. (λ j. rw ((same n).0, (same n).1) refl, ap (λ a. a ∷ names_of rest) (same n).0))
      (λ e. behind (set_node name f rest) (set_node-IsPut name f same rest))
  where
    behind :
        (later : Option (List ExecutionNode))
        → IsPut rest later
        → IsPut (n ∷ rest) (elim later [ none ↦ none | some ns ↦ some (n ∷ ns) ])
    behind none h = refl
    behind (some ns) (h, k) = (λ j. rw (h j) refl, ap (λ l. n.name ∷ l) k)

module _ (g : Graph) where
  -- Behind a step that keeps the one property, a next one that leads to the other.
  pub then_run-Keeps :
      (P R : List ExecutionNode → Type 0) (out : Bool × Session) (f : Session → Bool × Session)
      → Keeps g P out.1
      → ((s : Session) → Keeps g P s → Keeps g R s)
      → ((s : Session) → Keeps g P s → Keeps g R (f s).1)
      → Keeps g R (out then_run f).1
  unfolding ◌then_run◌
  then_run-Keeps P R (true, s) f k weaker h = h s k
  then_run-Keeps P R (false, s) f k weaker h = weaker s k

  module _ (draw : ℕ → Str) (now : ℕ) where
    publish_nodes-Keeps :
        (P : List ExecutionNode → Type 0) (io : Io) (nodes : Option (List ExecutionNode))
        (s : Session)
        → ((ns : List ExecutionNode) → P ns → IsOrdered g ns)
        → ((before after : List ExecutionNode) → IsSame before after → P before → P after)
        → IsPut s.record_of.nodes nodes
        → Keeps g P s
        → Keeps g P (publish_nodes draw now io nodes s).1
    publish_nodes-Keeps P io none s ordered closed m k = k
    publish_nodes-Keeps P io (some nodes) s ordered closed m k =
        publish-Keeps g draw P io _ s ordered (closed _ nodes m k.0) k

    pub note_saved_failure-Keeps :
        (P : List ExecutionNode → Type 0) (io : Io) (name code : Str) (s : Session)
        → ((ns : List ExecutionNode) → P ns → IsOrdered g ns)
        → ((before after : List ExecutionNode) → IsSame before after → P before → P after)
        → Keeps g P s
        → Keeps g P (note_saved_failure draw now io name code s).1
    unfolding note_saved_failure
    note_saved_failure-Keeps P io name code s ordered closed k =
        publish_nodes-Keeps P io _ s ordered closed (set_node-IsPut name _ (λ n. (refl, refl)) _) k

    module _ (name : Str) (start : List ExecutionNode) where
      abbrev pub KeepsUnderWay : Session → Type 0
      KeepsUnderWay = Keeps g (IsUnderWay g name start)

      abbrev pub KeepsBehind : Session → Type 0
      KeepsBehind = Keeps g (IsBehind g name start)

      pub UnderWay-Behind : (s : Session) → KeepsUnderWay s → KeepsBehind s
      UnderWay-Behind s ((o, r, e), h) = ((o, e), h)

      pub transition-UnderWay :
          (io : Io) (phase : Phase) (code plan_id : Str) (s : Session)
          → is_completed phase ≡ false
          → KeepsUnderWay s
          → KeepsUnderWay (transition draw io now name phase code plan_id s).1
      transition-UnderWay io phase code plan_id s p k =
          transition-Keeps g draw (IsUnderWay g name start) io now name phase code plan_id s
            (λ ns w. w.0) (λ ns m. moved-IsUnderWay g name phase start _ ns k.0 p m) k

      pub transition-Behind :
          (io : Io) (phase : Phase) (code plan_id : Str) (s : Session)
          → KeepsUnderWay s
          → KeepsBehind (transition draw io now name phase code plan_id s).1
      transition-Behind io phase code plan_id s k =
          transition-Keeps g draw (IsBehind g name start) io now name phase code plan_id s
            (λ ns w. w.0) (λ ns m. moved-IsBehind g name phase start _ ns k.0 m)
            (UnderWay-Behind s k)

      fail-UnderWay :
          (io : Io) (began : Bool) (s : Session)
          → KeepsUnderWay s
          → KeepsUnderWay (fail draw io now name indeterminate began s).1
      unfolding fail
      fail-UnderWay io true s k = transition-UnderWay io unsuccessful _ [] s refl k
      fail-UnderWay io false s k = transition-UnderWay io indeterminate _ [] s refl k

      set_review-UnderWay :
          (io : Io) (review : Str) (s : Session)
          → KeepsUnderWay s
          → KeepsUnderWay (set_review draw now io name review s).1
      unfolding set_review
      set_review-UnderWay io review s k =
          publish_nodes-Keeps (IsUnderWay g name start) io _ s (λ ns w. w.0)
            (same-IsUnderWay g name start) (set_node-IsPut name _ (λ n. (refl, refl)) _) k

      stored_bundle-UnderWay :
          (out : Reply Str × Store Content) (s : Session)
          → IsStoreOrdered g out.1
          → KeepsUnderWay s
          → KeepsUnderWay (stored_bundle out s).1
      stored_bundle-UnderWay (ok r, t) s h k = (k.0, h)
      stored_bundle-UnderWay (missing, t) s h k = (k.0, h)
      stored_bundle-UnderWay (conflict, t) s h k = (k.0, h)
      stored_bundle-UnderWay (invalid_key, t) s h k = (k.0, h)
      stored_bundle-UnderWay (failed, t) s h k = (k.0, h)

      -- A next step under way.
      pub then_run-UnderWay :
          (out : Bool × Session) (f : Session → Bool × Session)
          → KeepsUnderWay out.1
          → ((s : Session) → KeepsUnderWay s → KeepsUnderWay (f s).1)
          → KeepsUnderWay (out then_run f).1
      then_run-UnderWay out f k h = then_run-Keeps _ _ out f k (λ s m. m) h

      retain_plan-UnderWay :
          (io : ℕ → Io) (a : Answers) (changed : Bool) (binding : Option Str) (s : Session)
          → KeepsUnderWay s
          → KeepsUnderWay (retain_plan draw now io a name changed binding s).1
      unfolding retain_plan
      retain_plan-UnderWay io a changed none s k = k
      retain_plan-UnderWay io a changed (some binding) s k =
          then_run-UnderWay _ _
            (stored_bundle-UnderWay
              (write draw (io 3) s.store (a.bundle_id ++ bytes ".bin")
                (plan (bundle_of a name changed binding s)) [])
              s (write-IsStoreOrdered g draw (io 3) s.store _ _ [] k.1 refl) k)
            (λ t m. transition-UnderWay (io 4) planned [] a.bundle_id t refl m)

      keep_plan-UnderWay :
          (io : ℕ → Io) (a : Answers) (made : Option Bool) (s : Session)
          → KeepsUnderWay s
          → KeepsUnderWay (keep_plan draw now io a name made s).1
      unfolding keep_plan
      keep_plan-UnderWay io a none s k = k
      keep_plan-UnderWay io a (some changed) s k =
          if_elim (λ (t : Bool × Session). KeepsUnderWay t.1) (not (both_are a.before a.after))
            (λ e. k)
            (λ e.
              if_elim (λ (t : Bool × Session). KeepsUnderWay t.1) (not a.inspected) (λ f. k)
                (λ f.
                  if_elim (λ (t : Bool × Session). KeepsUnderWay t.1)
                    (not (both_are a.kept a.before)) (λ h. k)
                    (λ h.
                      then_run-UnderWay _ _ (retain_plan-UnderWay io a changed a.kept s k)
                        (set_review-UnderWay (io 5) a.review))))

      prepare_plan-UnderWay :
          (io : ℕ → Io) (a : Answers) (s : Session)
          → KeepsUnderWay s
          → KeepsUnderWay (prepare_plan draw now io a name s).1
      unfolding prepare_plan
      prepare_plan-UnderWay io a s k =
          if_elim (λ (t : Bool × Session). KeepsUnderWay t.1) (not a.supported) (λ e. k)
            (λ e.
              if_elim (λ (t : Bool × Session). KeepsUnderWay t.1) (not (is_some a.before)) (λ f. k)
                (λ f. keep_plan-UnderWay io a a.made s k))

      pub init_node-Keeps :
          (P : List ExecutionNode → Type 0) (io : Io) (how : Initialized)
          (rest : Session → Bool × Session) (s : Session)
          → KeepsUnderWay s
          → ((t : Session) → KeepsUnderWay t → Keeps g P t)
          → ((t : Session) → KeepsUnderWay t → Keeps g P (rest t).1)
          → Keeps g P (init_node draw now io how name rest s).1
      unfolding init_node
      init_node-Keeps P io initialized rest s k weaker h = h s k
      init_node-Keeps P io not_started rest s k weaker h =
          weaker (fail draw io now name indeterminate true s).1 (fail-UnderWay io true s k)
      init_node-Keeps P io broken rest s k weaker h =
          weaker (fail draw io now name indeterminate false s).1 (fail-UnderWay io false s k)

      -- Saving the plan of a node leaves the node where it is ready, and the rest as it was.
      pub save_frontier_node-UnderWay :
          (io : ℕ → Io) (a : Answers) (s : Session)
          → KeepsUnderWay s
          → KeepsUnderWay (save_frontier_node draw now io a name s).1
      unfolding save_frontier_node
      save_frontier_node-UnderWay io a s k =
          if_elim (λ (t : Bool × Session). KeepsUnderWay t.1) (not a.prepared) (λ e. k)
            (λ e.
              then_run-UnderWay _ _ (transition-UnderWay (io 0) initializing [] [] s refl k) (λ t m.
                init_node-Keeps (IsUnderWay g name start) (io 1) a.init _ t m (λ _ w. w)
                  (λ u w.
                    then_run-UnderWay _ _ (transition-UnderWay (io 2) preparing [] [] u refl w)
                      (prepare_plan-UnderWay io a))))
