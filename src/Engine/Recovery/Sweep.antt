-- ===== src/Engine/Recovery/Sweep.antt =====
-- What cleanupExecution leaves alone: it removes objects under the keys of plans and nothing else.
use terragraph.Prelude.{ℕ, suc, not, ◌||◌, Bool, Str, bytes, List, [], ◌∷◌, ◌++◌, if_elim, is_nil}
use terragraph.Engine.Store.{
  Io, Object, Store, Reply, ok, missing, conflict, invalid_key, failed, Done, remove, read,
}
use terragraph.Engine.Journal.{
  ExecutionRecord, ExecutionNode, Content, is_some, execution_needs_recovery,
}
use terragraph.Engine.Recovery.{after_removal, after_read, cleanup_nodes, cleanup_execution}

-- What holds of a store and of every store with one plan less holds after the cleanup.
module _ (Q : Store Content → Type 0)
    (closed : (io : Io) (s : Store Content) (name revision : Str)
      → Q s
      → Q (remove io s (name ++ bytes ".bin") revision).1) where
  removal-keeps :
      (out : Reply Done × Store Content) (later : Store Content → Bool × Store Content)
      → Q out.1
      → ((t : Store Content) → Q t → Q (later t).1)
      → Q (after_removal out later).1
  removal-keeps (ok d, t) later h k = k t h
  removal-keeps (missing, t) later h k = k t h
  removal-keeps (conflict, t) later h k = h
  removal-keeps (invalid_key, t) later h k = h
  removal-keeps (failed, t) later h k = h

  after_read-keeps :
      (io : Io) (s : Store Content) (name : Str) (found : Reply (Object Content))
      (later : Store Content → Bool × Store Content)
      → Q s
      → ((t : Store Content) → Q t → Q (later t).1)
      → Q (after_read io s (name ++ bytes ".bin") found later).1
  after_read-keeps io s name (ok o) later h k =
      removal-keeps (remove io s (name ++ bytes ".bin") o.revision) later
        (closed io s name o.revision h) k
  after_read-keeps io s name missing later h k = k s h
  after_read-keeps io s name conflict later h k = h
  after_read-keeps io s name invalid_key later h k = h
  after_read-keeps io s name failed later h k = h

  cleanup_nodes-keeps :
      (io : ℕ → Io) (n : ℕ) (nodes : List ExecutionNode) (s : Store Content)
      → Q s
      → Q (cleanup_nodes io n nodes s).1
  unfolding cleanup_nodes
  cleanup_nodes-keeps io n [] s h = h
  cleanup_nodes-keeps io n (node ∷ rest) s h =
      if_elim (λ (t : Bool × Store Content). Q t.1) (is_nil node.plan_id)
        (λ e. cleanup_nodes-keeps io (suc (suc n)) rest s h)
        (λ e.
          after_read-keeps (io (suc n)) s node.plan_id
            (read (io n) s (node.plan_id ++ bytes ".bin")) (cleanup_nodes io (suc (suc n)) rest) h
            (cleanup_nodes-keeps io (suc (suc n)) rest))

  pub cleanup_execution-keeps :
      (io : ℕ → Io) (n : ℕ) (r : ExecutionRecord) (s : Store Content)
      → Q s
      → Q (cleanup_execution io n r s).1
  unfolding cleanup_execution
  cleanup_execution-keeps io n r s h =
      if_elim (λ (t : Bool × Store Content). Q t.1)
        (not (is_some r.finished_at) || execution_needs_recovery r) (λ e. h)
        (λ e. cleanup_nodes-keeps io n r.nodes s h)
