-- ===== src/Engine/Begin.antt =====
-- beginExecution of internal/engine/execution_journal.go: the barrier is checked, the store is
-- pruned, and the record of the execution is written with all its nodes pending.
use terragraph.Prelude.{
  ℕ, Bool, true, false, not, Str, bytes, List, [], ◌∷◌, ◌++◌, Option, none, some, if◌then◌else◌,
}
use terragraph.Graph.Select.{Selection}
use terragraph.Engine.Store.{Io, Store, Reply, ok, write, spent}
use terragraph.Engine.Journal.{
  ExecutionRecord, ExecutionNode, Content, journal, Session, Host, pending, record_key,
}
use terragraph.Engine.Recovery.{opened_session, is_clear, check_execution_barrier, finish}
use terragraph.Engine.Retention.{Visit, prune_executions}

-- What the start of an execution meets: `target` is executionTarget, `visit` by the key.
pub record Begin : Type 0 where
  pub now : ℕ
  pub scope : Str
  pub operation : Str
  pub names : List Str
  pub selection : Option Selection
  pub read_only : Bool
  pub has_plugins : Bool
  pub target : Str → Option Str
  pub retention : ℕ
  pub barrier : ℕ → Io
  pub listing : Io
  pub visit : Str → Visit
  pub record_write : Io
  pub plugins_started : Bool
  pub host : Host
  pub plugins_finished : Bool
  pub finishing : ℕ → Io

abbrev pub begin_node : Str → Str → ExecutionNode
begin_node name target = record {
  name = name;
  review = none;
  target = target;
  phase = pending;
  plan_id = [];
  code = [];
}

abbrev pub put_node : Str → Option Str → Option (List ExecutionNode) → Option (List ExecutionNode)
put_node name (some target) (some rest) = some (begin_node name target ∷ rest)
put_node name _ _ = none

-- The loop over the names.
unfoldable pub begin_nodes : (Str → Option Str) → List Str → Option (List ExecutionNode)
begin_nodes target [] = some []
begin_nodes target (name ∷ rest) = put_node name (target name) (begin_nodes target rest)

abbrev pub begin_record : Begin → Str → List ExecutionNode → ExecutionRecord
begin_record b id nodes = record {
  plugin_calls = [];
  selection = b.selection;
  schema_version = if b.has_plugins then 2 else 1;
  preparation = [];
  backup = false;
  id = id;
  scope = b.scope;
  binding = [];
  operation = b.operation;
  status = bytes "preparing";
  created_at = b.now;
  updated_at = b.now;
  finished_at = none;
  recovery_at = none;
  nodes = nodes;
}

module _ (draw : ℕ → Str) where
  -- startPlugins; where it fails the execution is finished at once.
  abbrev pub begin_plugins : Begin → Session → Option Session × Store Content
  begin_plugins b s =
      if b.plugins_started
      then (some s, s.store)
      else (none, (finish draw b.finishing b.now true (not b.plugins_finished) s).1.store)

  abbrev pub begun :
      Begin → ExecutionRecord → Reply Str × Store Content → Option Session × Store Content
  begun b r (ok revision, store) =
      begin_plugins b (record (opened_session r revision store) { host = b.host })
  begun b r (_, store) = (none, store)

  unfoldable pub write_begun :
      Begin → Option (List ExecutionNode) → Store Content → Option Session × Store Content
  write_begun b none store = (none, store)
  write_begun b (some nodes) store =
      let r = begin_record b (bytes "run-" ++ draw store.drawn) nodes in
      begun b r (write draw b.record_write (spent draw store) (record_key r) (journal r) [])

  abbrev pub after_prune :
      Begin → Bool × (List Str × Store Content) → Option Session × Store Content
  after_prune b (true, (removed, store)) = write_begun b (begin_nodes b.target b.names) store
  after_prune b (false, (removed, store)) = (none, store)

  -- beginExecution: the session, or none for an error, and the store.
  unfoldable pub begin_execution : Begin → Store Content → Option Session × Store Content
  begin_execution b store =
      if not (is_clear (check_execution_barrier b.barrier store b.scope [] b.read_only))
      then (none, store)
      else after_prune b (prune_executions draw b.listing b.visit b.now b.retention b.scope store)
