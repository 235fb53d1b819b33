-- ===== src/Engine/Saved/Loops.antt =====
-- What the loops of SavePlans and ApplySavedPlans leave, and the end of their session.
use terragraph.Prelude.{
  ℕ, ◌≡◌, ◌≤◌, refl, sym, subst, arith, Bool, true, false, not, ◌&&◌, ◌||◌, Str, bytes, str_eq,
  List, [], ◌∷◌, Option, none, some, count, if_elim, is_nil, keep, contains, str_eq_refl, all,
}
use terragraph.Graph.{Graph}
use terragraph.Engine.Store.{Io}
use terragraph.Engine.Journal.{
  ExecutionNode, ExecutionRecord, Session, is_some, execution_needs_recovery, publish,
}
use terragraph.Engine.Journal.Placed.{names_of}
use terragraph.Engine.SavedNode.{
  is_planned, is_completed, Answers, ◌then_run◌, both_are, save_frontier_node,
}
use terragraph.Engine.Saved.{
  Setting, settled_record, settled_status, applied_record, noted, finished, save_nodes, apply_nodes,
  save_ended, save_frontier, save_bound, save_plans, apply_planned, apply_saved_plans, finish_saved,
  swept, settled, finish_saved_session, on_frontier,
}
use terragraph.Engine.Saved.Order.{IsOrdered, IsUnderWay, IsBehind, same-IsBehind}
use terragraph.Engine.Saved.Kept.{Keeps, publish-Keeps, cleanup_execution-IsStoreOrdered}
use terragraph.Engine.Saved.Sound.{
  KeepsBehind, UnderWay-Behind, then_run-Keeps, note_saved_failure-Keeps,
  save_frontier_node-UnderWay,
}
use terragraph.Engine.Saved.Applying.{apply_saved_node-Behind}
use terragraph.Engine.Saved.Chosen.{
  AllReady, behind-AllReady, count-keep, frontier-AllReady, planned-AllReady, settle-IsOrdered,
}

module _ (g : Graph) (draw : ℕ → Str) (now : ℕ) (io : Str → ℕ → Io) (answers : Str → Answers) where
  abbrev pub KeepsOrder : Session → Type 0
  KeepsOrder = Keeps g (IsOrdered g)

  -- What a step of the loops leaves, with the code of a failure and the plugins' answer.
  abbrev Ends : Str → List ExecutionNode → Bool × Session → Type 0
  Ends name start out = KeepsBehind g draw now name start out.1

  noted-Ends :
      (name code : Str) (start : List ExecutionNode) (out : Bool × Session)
      → Ends name start out
      → Ends name start (noted draw now io answers name code out)
  noted-Ends name code start (true, s) k = k
  noted-Ends name code start (false, s) k =
      note_saved_failure-Keeps g draw now (IsBehind g name start) (io name 9) name code s
        (λ ns w. w.0) (same-IsBehind g name start) k

  finished-Ends :
      (name : Str) (start : List ExecutionNode) (out : Bool × Session)
      → Ends name start out
      → Ends name start (finished draw now io answers name out)
  finished-Ends name start (true, s) k = k
  finished-Ends name start (false, s) k = k

  -- One round of a loop: the order holds behind it, and the nodes that are left are ready.
  round-Keeps :
      (n : ExecutionNode) (rest : List ExecutionNode) (code : Str) (s : Session)
      (out : Bool × Session) (f : Session → Bool × Session)
      → ((a : Str) → count a (names_of (n ∷ rest)) ≤ 1)
      → Keeps g (AllReady g (n ∷ rest)) s
      → Ends n.name s.record_of.nodes out
      → ((t : Session) → Keeps g (AllReady g rest) t → KeepsOrder (f t).1)
      → KeepsOrder
          (finished draw now io answers n.name (noted draw now io answers n.name code out)
            then_run f).1
  round-Keeps n rest code s out f d k e h =
      then_run-Keeps g (IsBehind g n.name s.record_of.nodes) (IsOrdered g) _ f
        (finished-Ends n.name s.record_of.nodes _ (noted-Ends n.name code s.record_of.nodes out e))
        (λ t b. (b.0.0, b.1))
        (λ t b. h t (behind-AllReady g n rest s.record_of.nodes _ d k.0 b.0, b.1))

  fewer :
      (a : Str) (n : ExecutionNode) (rest : List ExecutionNode)
      → count a (names_of (n ∷ rest)) ≤ 1
      → count a (names_of rest) ≤ 1
  unfolding count
  fewer a n rest h = ground (arith)

  under_way :
      (n : ExecutionNode) (rest : List ExecutionNode) (s : Session)
      → Keeps g (AllReady g (n ∷ rest)) s
      → Keeps g (IsUnderWay g n.name s.record_of.nodes) s
  unfolding contains
  under_way n rest s ((o, r), h) =
      ((o, r n.name (ground (arith, str_eq_refl n.name)), λ j d. refl), h)

  save_nodes-Keeps :
      (chosen : List ExecutionNode) (s : Session)
      → ((a : Str) → count a (names_of chosen) ≤ 1)
      → Keeps g (AllReady g chosen) s
      → KeepsOrder (save_nodes draw now io answers chosen s).1
  unfolding save_nodes
  save_nodes-Keeps [] s d k = (k.0.0, k.1)
  save_nodes-Keeps (n ∷ rest) s d k =
      round-Keeps n rest _ s _ _ d k
        (UnderWay-Behind g draw now n.name s.record_of.nodes
          (save_frontier_node draw now (io n.name) (answers n.name) n.name s).1
          (save_frontier_node-UnderWay g draw now n.name s.record_of.nodes (io n.name)
            (answers n.name) s (under_way n rest s k)))
        (λ t m. save_nodes-Keeps rest t (λ a. fewer a n rest (d a)) m)

  apply_nodes-Keeps :
      (chosen : List ExecutionNode) (s : Session)
      → ((a : Str) → count a (names_of chosen) ≤ 1)
      → Keeps g (AllReady g chosen) s
      → KeepsOrder (apply_nodes draw now io answers chosen s).1
  unfolding apply_nodes
  apply_nodes-Keeps [] s d k = (k.0.0, k.1)
  apply_nodes-Keeps (n ∷ rest) s d k =
      round-Keeps n rest _ s _ _ d k
        (apply_saved_node-Behind g draw now n.name s.record_of.nodes (io n.name) (answers n.name) n
          s refl (under_way n rest s k))
        (λ t m. apply_nodes-Keeps rest t (λ a. fewer a n rest (d a)) m)

  publish-Order :
      (i : Io) (next : ExecutionRecord) (s : Session)
      → IsOrdered g next.nodes
      → KeepsOrder s
      → KeepsOrder (publish draw i next s).1
  publish-Order i next s o k = publish-Keeps g draw (IsOrdered g) i next s (λ ns h. h) o k

  then_run-Order :
      (out : Bool × Session) (f : Session → Bool × Session)
      → KeepsOrder out.1
      → ((s : Session) → KeepsOrder s → KeepsOrder (f s).1)
      → KeepsOrder (out then_run f).1
  then_run-Order out f k h = then_run-Keeps g _ _ out f k (λ s m. m) h

  abbrev Went : Bool × Session → Type 0
  Went out = KeepsOrder out.1

  save_ended-Order :
      (found : Bool) (s : Session) → KeepsOrder s → Went (save_ended draw now io answers found s)
  unfolding save_ended
  save_ended-Order true s k = publish-Order (io [] 2) _ s k.0 k
  save_ended-Order false s k = k

  kept_once :
      (p : ExecutionNode → Bool) (s : Session)
      → KeepsOrder s
      → (a : Str) → count a (names_of (keep p s.record_of.nodes)) ≤ 1
  kept_once p s k a = omega (arith, k.0.1 a, count-keep p a s.record_of.nodes)

  save_frontier-Order :
      (binding : Str) (s : Session)
      → KeepsOrder s
      → Went (save_frontier draw now io answers g binding s)
  unfolding save_frontier
  save_frontier-Order binding s k = then_run-Order _ _ (publish-Order (io [] 1) _ s k.0 k) (λ t m.
      then_run-Order _ _
        (save_nodes-Keeps (keep (on_frontier g t.record_of.nodes) t.record_of.nodes) t
          (kept_once _ t m) (frontier-AllReady g t.record_of.nodes m.0, m.1))
        (save_ended-Order _))

  save_bound-Order :
      (setting : Setting) (binding : Option Str) (s : Session)
      → KeepsOrder s
      → Went (save_bound draw now io answers g setting binding s)
  unfolding save_bound
  save_bound-Order setting none s k = k
  save_bound-Order setting (some binding) s k =
      if_elim Went (not (is_nil s.record_of.binding) && not (str_eq s.record_of.binding binding))
        (λ e. k)
        (λ e.
          if_elim Went (not setting.plugins_started) (λ f. k)
            (λ f. save_frontier-Order binding s k))

  abbrev pub WentOn : Bool × (Bool × Session) → Type 0
  WentOn out = KeepsOrder out.1.1

  pub save_plans-Order :
      (setting : Setting) (s : Session)
      → KeepsOrder s
      → WentOn (save_plans draw now io answers g setting s)
  unfolding save_plans
  save_plans-Order setting s k =
      if_elim WentOn
        (not (str_eq s.record_of.status (bytes "preparing"))
          && not (str_eq s.record_of.status (bytes "ready_for_next_plan")))
        (λ e. k) (λ e. save_bound-Order setting setting.binding s k)

  applied_record-Order :
      (r : ExecutionRecord) → IsOrdered g r.nodes → IsOrdered g (applied_record now r).nodes
  unfolding applied_record
  applied_record-Order r o =
      if_elim (λ (q : ExecutionRecord). IsOrdered g q.nodes)
        (all (λ n. is_completed n.phase) r.nodes) (λ e. o) (λ e. o)

  apply_planned-Order : (s : Session) → KeepsOrder s → Went (apply_planned draw now io answers s)
  unfolding apply_planned
  apply_planned-Order s k =
      then_run-Order _ _
        (apply_nodes-Keeps (keep (λ n. is_planned n.phase) s.record_of.nodes) s (kept_once _ s k)
          (planned-AllReady g s.record_of.nodes k.0, k.1))
        (λ t m. publish-Order (io [] 2) _ t (applied_record-Order t.record_of m.0) m)

  pub apply_saved_plans-Order :
      (setting : Setting) (s : Session)
      → KeepsOrder s
      → WentOn (apply_saved_plans draw now io answers setting s)
  unfolding apply_saved_plans
  apply_saved_plans-Order setting s k =
      if_elim WentOn (not (str_eq s.record_of.status (bytes "waiting_for_apply"))) (λ e. k)
        (λ e.
          if_elim WentOn (not (both_are setting.binding (some s.record_of.binding))) (λ f. k)
            (λ f.
              if_elim WentOn (not setting.plugins_started) (λ h. k) (λ h. apply_planned-Order s k)))

  nodes-settled_status :
      (failed : Bool) (next : ExecutionRecord) → (settled_status now failed next).nodes ≡ next.nodes
  unfolding settled_status
  nodes-settled_status failed next = ground (arith)

  settled_record-Order :
      (failed : Bool) (r : ExecutionRecord)
      → IsOrdered g r.nodes
      → IsOrdered g (settled_record now failed r).nodes
  unfolding settled_record
  settled_record-Order failed r o =
      subst (IsOrdered g) (sym (nodes-settled_status failed _)) (settle-IsOrdered g r.nodes o)

  finish_saved-Order :
      (failed : Bool) (s : Session)
      → KeepsOrder s
      → Went (finish_saved draw now io answers failed s)
  unfolding finish_saved
  finish_saved-Order failed s k =
      if_elim Went (is_some s.record_of.finished_at && not (execution_needs_recovery s.record_of))
        (λ e. k) (λ e. publish-Order (io [] 3) _ s (settled_record-Order failed s.record_of k.0) k)

  swept-Order :
      (result : Bool) (s : Session) → KeepsOrder s → Went (swept draw now io answers result s)
  swept-Order result s (o, h) = (o, cleanup_execution-IsStoreOrdered g _ 0 s.record_of s.store h)

  settled-Order :
      (result : Bool) (out : Bool × Session)
      → Went out
      → Went (settled draw now io answers result out)
  settled-Order result (true, s) k = swept-Order result s k
  settled-Order result (false, s) k = k

  -- The end of a session keeps the order.
  pub finish_saved_session-Order :
      (setting : Setting) (out : Bool × (Bool × Session))
      → WentOn out
      → Went (finish_saved_session draw now io answers setting out)
  unfolding finish_saved_session
  finish_saved_session-Order setting (finalize, (went, s)) k =
      if_elim Went (not finalize) (λ e. k)
        (λ e.
          if_elim Went
            (not (went && setting.plugins_finished) || execution_needs_recovery s.record_of)
            (λ f. settled-Order _ _ (finish_saved-Order _ s k))
            (λ f. swept-Order (went && setting.plugins_finished) s k))
