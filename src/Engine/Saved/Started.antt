-- ===== src/Engine/Saved/Started.antt =====
-- The start of an execution keeps the order of the graph in the store, and its own record has it.
use terragraph.Prelude.{
  ℕ, ◌≡◌, ◌≤◌, refl, sym, subst, ap, arith, Bool, true, false, not, Str, List, [], ◌∷◌, Option,
  none, some, if_elim, count,
}
use terragraph.Graph.{Graph}
use terragraph.Engine.Store.{Io, Store, Reply, ok, missing, conflict, invalid_key, failed, spent}
use terragraph.Engine.Journal.{
  ExecutionRecord, ExecutionNode, Content, Session, phase_of, finished_record,
}
use terragraph.Engine.Journal.Placed.{names_of}
use terragraph.Engine.Recovery.{
  is_clear, check_execution_barrier, finish, opened_session, after_publish,
}
use terragraph.Engine.Begin.{
  Begin, put_node, begin_nodes, begin_plugins, begun, write_begun, after_prune, begin_execution,
}
use terragraph.Engine.Saved.Order.{IsOrdered, is_started}
use terragraph.Engine.Saved.Kept.{
  IsStoreOrdered, write-IsStoreOrdered, cleanup_execution-IsStoreOrdered,
}
use terragraph.Engine.Saved.Pruning.{publish-IsStoreOrdered, prune_executions-IsStoreOrdered}

-- The nodes of a new record: all pending, under the given names.
abbrev IsPending : List Str → Option (List ExecutionNode) → Type 0
IsPending names none = true ≡ true
IsPending names (some ns) = ((j : Str) → is_started (phase_of j ns) ≡ false) × (names_of ns ≡ names)

put_node-IsPending :
    (name : Str) (rest : List Str) (target : Option Str) (later : Option (List ExecutionNode))
    → IsPending rest later
    → IsPending (name ∷ rest) (put_node name target later)
unfolding phase_of
put_node-IsPending name rest none later h = refl
put_node-IsPending name rest (some target) none h = refl
put_node-IsPending name rest (some target) (some ns) (h, k) =
    (λ j. let p = h j in ground (arith), ap (λ l. name ∷ l) k)

begin_nodes-IsPending :
    (target : Str → Option Str) (names : List Str) → IsPending names (begin_nodes target names)
unfolding begin_nodes phase_of
begin_nodes-IsPending target [] = (λ j. refl, refl)
begin_nodes-IsPending target (name ∷ rest) =
    put_node-IsPending name rest (target name) _ (begin_nodes-IsPending target rest)

module _ (g : Graph) (draw : ℕ → Str) where
  begun-IsOrdered :
      (names : List Str) (ns : List ExecutionNode)
      → ((a : Str) → count a names ≤ 1)
      → IsPending names (some ns)
      → IsOrdered g ns
  begun-IsOrdered names ns once (h, k) =
      (λ n u st c. absurd (let p = h n in cc), λ a. subst (λ l. count a l ≤ 1) (sym k) (once a))

  abbrev pub IsOpened : Option Session × Store Content → Type 0
  IsOpened (none, store) = IsStoreOrdered g store
  IsOpened (some s, store) =
      IsStoreOrdered g store × IsOrdered g s.record_of.nodes × IsStoreOrdered g s.store

  nodes-finished_record :
      (now : ℕ) (bad : Bool) (r : ExecutionRecord) → (finished_record now bad r).nodes ≡ r.nodes
  unfolding finished_record
  nodes-finished_record now bad r = ground (arith)

  after_publish-IsStoreOrdered :
      (io : ℕ → Io) (r : ExecutionRecord) (result : Bool) (out : Bool × Session)
      → IsStoreOrdered g out.1.store
      → IsStoreOrdered g (after_publish io r result out).1.store
  after_publish-IsStoreOrdered io r result (false, s) h = h
  after_publish-IsStoreOrdered io r result (true, s) h =
      cleanup_execution-IsStoreOrdered g io 1 r s.store h

  finish-IsStoreOrdered :
      (io : ℕ → Io) (now : ℕ) (run_failed plugin_failed : Bool) (s : Session)
      → IsOrdered g s.record_of.nodes
      → IsStoreOrdered g s.store
      → IsStoreOrdered g (finish draw io now run_failed plugin_failed s).1.store
  unfolding finish
  finish-IsStoreOrdered io now run_failed plugin_failed s o h =
      after_publish-IsStoreOrdered io _ _ _ (
        publish-IsStoreOrdered g draw (io 0) _ s
          (λ _. subst (IsOrdered g) (sym (nodes-finished_record now _ s.record_of)) o) h)

  begin_plugins-IsOpened :
      (b : Begin) (s : Session)
      → IsOrdered g s.record_of.nodes
      → IsStoreOrdered g s.store
      → IsOpened (begin_plugins draw b s)
  begin_plugins-IsOpened b s o h =
      if_elim IsOpened b.plugins_started (λ e. (h, o, h))
        (λ e. finish-IsStoreOrdered b.finishing b.now true (not b.plugins_finished) s o h)

  begun-IsOpened :
      (b : Begin) (r : ExecutionRecord) (out : Reply Str × Store Content)
      → IsOrdered g r.nodes
      → IsStoreOrdered g out.1
      → IsOpened (begun draw b r out)
  begun-IsOpened b r (ok revision, t) o h =
      begin_plugins-IsOpened b (record (opened_session r revision t) { host = b.host }) o h
  begun-IsOpened b r (missing, t) o h = h
  begun-IsOpened b r (conflict, t) o h = h
  begun-IsOpened b r (invalid_key, t) o h = h
  begun-IsOpened b r (failed, t) o h = h

  write_begun-IsOpened :
      (b : Begin) (nodes : Option (List ExecutionNode)) (s : Store Content)
      → ((a : Str) → count a b.names ≤ 1)
      → IsPending b.names nodes
      → IsStoreOrdered g s
      → IsOpened (write_begun draw b nodes s)
  unfolding write_begun
  write_begun-IsOpened b none s once p h = h
  write_begun-IsOpened b (some ns) s once p h =
      let o = begun-IsOrdered b.names ns once p in
      begun-IsOpened b _ _ o
        (write-IsStoreOrdered g draw b.record_write (spent draw s) _ _ [] h (λ _. o))

  after_prune-IsOpened :
      (b : Begin) (out : Bool × (List Str × Store Content))
      → ((a : Str) → count a b.names ≤ 1)
      → IsStoreOrdered g out.1.1
      → IsOpened (after_prune draw b out)
  after_prune-IsOpened b (true, (removed, s)) once h =
      write_begun-IsOpened b _ s once (begin_nodes-IsPending b.target b.names) h
  after_prune-IsOpened b (false, (removed, s)) once h = h

  -- An execution starts with the order of the graph in its record, as all its nodes are pending,
  -- and keeps it in the store. For names that are distinct.
  pub begin_execution-IsOpened :
      (b : Begin) (s : Store Content)
      → ((a : Str) → count a b.names ≤ 1)
      → IsStoreOrdered g s
      → IsOpened (begin_execution draw b s)
  unfolding begin_execution
  begin_execution-IsOpened b s once h =
      if_elim IsOpened (not (is_clear (check_execution_barrier b.barrier s b.scope [] b.read_only)))
        (λ e. h)
        (λ e.
          after_prune-IsOpened b _ once (
            prune_executions-IsStoreOrdered g draw b.now b.retention b.scope b.listing b.visit s h))
