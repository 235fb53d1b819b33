-- ===== src/Engine/Journal.antt =====
-- internal/engine/execution_journal.go, with recordPlugin of plugins.go and NeedsRecovery of
-- internal/plugins/lifecycle.go: the record of an execution, and the session that publishes each
-- step of it before it goes on. A record is kept as itself where the source keeps its JSON, and a
-- time is a number. What the plugins do is the field `host` of the session.
pub mod Calls
pub mod Called
pub mod Steps
pub mod Placed
pub mod Moves
use terragraph.Prelude.{
  ℕ, suc, ◌+◌, ◌≡◌, Bool, true, false, not, ◌&&◌, ◌||◌, Str, bytes, str_eq, List, [], ◌∷◌, ◌++◌,
  Option, none, some, if◌then◌else◌, is_nil, any, keep, map, has_prefix, has_suffix, lookup,
  Option-cases,
}
use terragraph.Graph.Select.{Selection}
use terragraph.Engine.Store.{
  Io, Store, Reply, ok, missing, conflict, invalid_key, failed, write, remove, read, Object, Done,
  done,
}
use terragraph.Engine.Journal.Calls.{PluginCall, calls_need_recovery, with_call}

-- The phases that the source names; any other text is `other`.
pub data Phase : Type 0 where
  pending preparing planned initializing applying operating : Phase
  indeterminate applied completed unsuccessful : Phase
  other : Str → Phase

-- The phases of executionNeedsRecovery.
abbrev pub is_unresolved : Phase → Bool
is_unresolved initializing = true
is_unresolved applying = true
is_unresolved operating = true
is_unresolved indeterminate = true
is_unresolved applied = true
is_unresolved _ = false

-- `review` is the text of a plan review.
pub record ExecutionNode : Type 0 where
  pub name : Str
  pub review : Option Str
  pub target : Str
  pub phase : Phase
  pub plan_id : Str
  pub code : Str

pub record ExecutionRecord : Type 0 where
  pub plugin_calls : List PluginCall
  pub selection : Option Selection
  pub schema_version : ℕ
  pub preparation : Str
  pub backup : Bool
  pub id : Str
  pub scope : Str
  pub binding : Str
  pub operation : Str
  pub status : Str
  pub created_at : ℕ
  pub updated_at : ℕ
  pub finished_at : Option ℕ
  pub recovery_at : Option ℕ
  pub nodes : List ExecutionNode

-- planBundle, with the bytes of the plan; the time it was made at is left out.
pub record PlanBundle : Type 0 where
  pub schema_version : ℕ
  pub id : Str
  pub execution_id : Str
  pub node : Str
  pub binding : Str
  pub expires_at : ℕ
  pub changed : Bool
  pub plan_bytes : Str

-- What an object of the store holds.
pub data Content : Type 0 where
  journal : ExecutionRecord → Content
  plan : PlanBundle → Content

abbrev pub is_some : {A : Type 0} → Option A → Bool
is_some none = false
is_some (some a) = true

-- executionNeedsRecovery
unfoldable pub execution_needs_recovery : ExecutionRecord → Bool
execution_needs_recovery r =
    if calls_need_recovery r.plugin_calls
    then true
    else if is_some r.recovery_at
    then false
    else if not (is_nil r.preparation)
    then true
    else any (λ n. is_unresolved n.phase) r.nodes

-- What the plugins record when a mutation of a node has ended in a phase: their calls, each with
-- what comes of the call of the store that publishes it.
abbrev pub Host : Type 0
Host = Str → Phase → List (Io × PluginCall)

abbrev pub no_plugins : Host
no_plugins name phase = []

-- executionSession, with the store behind it, the plugins, and the events handed to them.
pub record Session : Type 0 where
  pub record_of : ExecutionRecord
  pub revision : Str
  pub store : Store Content
  pub host : Host
  pub finished_events : List (Str × Phase)

abbrev pub record_key : ExecutionRecord → Str
record_key r = r.id ++ bytes ".json"

abbrev pub published : Session → ExecutionRecord → Reply Str × Store Content → Bool × Session
published s next (ok revision, store) =
    (true, record s { record_of = next; revision = revision; store = store })
published s next (_, store) = (false, record s { store = store })

abbrev put_before : ExecutionNode → Option (List ExecutionNode) → Option (List ExecutionNode)
put_before n none = none
put_before n (some rest) = some (n ∷ rest)

-- The first node of the name gets the phase, the code, and the plan if one is given.
unfoldable pub set_phase :
    Str → Phase → Str → Str → List ExecutionNode → Option (List ExecutionNode)
set_phase name phase code plan_id [] = none
set_phase name phase code plan_id (n ∷ rest) =
    let later = set_phase name phase code plan_id rest in
    if str_eq n.name name
    then some (
        record n {
          phase = phase;
          code = code;
          plan_id = if is_nil plan_id then n.plan_id else plan_id;
        }
        ∷ rest)
    else put_before n later

-- The phase of the first node of the name.
unfoldable pub phase_of : Str → List ExecutionNode → Option Phase
phase_of name [] = none
phase_of name (n ∷ rest) =
    let later = phase_of name rest in if str_eq n.name name then some n.phase else later

abbrev pub is_mutating : Option Phase → Bool
is_mutating (some applying) = true
is_mutating (some operating) = true
is_mutating _ = false

abbrev pub is_outcome : Phase → Bool
is_outcome applied = true
is_outcome completed = true
is_outcome indeterminate = true
is_outcome _ = false

-- Whether the end of a mutation is to be announced.
abbrev pub is_told : Phase → Option Phase → Bool
is_told phase previous = is_mutating previous && is_outcome phase

-- The record that finish publishes, for a run that failed or not.
unfoldable pub finished_record : ℕ → Bool → ExecutionRecord → ExecutionRecord
finished_record now run_failed r =
    let next : ExecutionRecord = record r {
      updated_at = now;
      status = if run_failed then bytes "failed" else bytes "completed";
    } in
    if execution_needs_recovery next
    then record next { status = bytes "needs_recovery" }
    else record next { finished_at = some now }

-- The record that retires an uncertain attempt.
unfoldable pub recovered_record : ℕ → ExecutionRecord → ExecutionRecord
recovered_record now r = record r {
  status = bytes "recovered_replan_required";
  recovery_at = some now;
  finished_at = some now;
  updated_at = now;
}

abbrev pub with_nodes : ExecutionRecord → List ExecutionNode → ℕ → ExecutionRecord
with_nodes r nodes now = record r { nodes = nodes; updated_at = now }

module _ (draw : ℕ → Str) where
  -- (executionSession).publish; true where it returns nil.
  unfoldable pub publish : Io → ExecutionRecord → Session → Bool × Session
  publish io next s =
      published s next (write draw io s.store (record_key next) (journal next) s.revision)

  abbrev pub publish_calls : Io → Option (List PluginCall) → Session → Bool × Session
  publish_calls io none s = (false, s)
  publish_calls io (some calls) s =
      publish io (record s.record_of { schema_version = 2; plugin_calls = calls }) s

  -- (executionSession).recordPlugin
  unfoldable pub record_plugin : Io → PluginCall → Session → Bool × Session
  record_plugin io c s = publish_calls io (with_call c s.record_of.plugin_calls) s

  -- One after the other; an error goes to the plugin host.
  unfoldable pub record_plugins : List (Io × PluginCall) → Session → Session
  record_plugins [] s = s
  record_plugins (c ∷ rest) s = record_plugins rest (record_plugin c.0 c.1 s).1

  abbrev noted : Str → Phase → Session → Session
  noted name phase s = record s { finished_events = s.finished_events ++ ((name, phase) ∷ []) }

  -- The deferred part of transition: `node.mutation.finished` goes to the plugins, whose calls are
  -- recorded before it returns. Their errors are kept apart from that of the transition.
  unfoldable pub announce : Str → Phase → Option Phase → Bool × Session → Bool × Session
  announce name phase previous (false, s) = (false, s)
  announce name phase previous (true, s) =
      if is_told phase previous
      then (true, record_plugins (s.host name phase) (noted name phase s))
      else (true, s)

  unfoldable pub transition_to :
      Io → ℕ → Str → Phase → Option (List ExecutionNode) → Session → Bool × Session
  transition_to io now name phase none s = (false, s)
  transition_to io now name phase (some nodes) s =
      announce name phase (phase_of name s.record_of.nodes)
        (publish io (with_nodes s.record_of nodes now) s)

  -- (executionSession).transition at the time `now`; true where it returns nil.
  unfoldable pub transition : Io → ℕ → Str → Phase → Str → Str → Session → Bool × Session
  transition io now name phase code plan_id s =
      transition_to io now name phase (set_phase name phase code plan_id s.record_of.nodes) s

  -- (executionSession).fail: a runtime that never started has changed nothing.
  unfoldable pub fail : Io → ℕ → Str → Phase → Bool → Session → Bool × Session
  fail io now name phase not_started s =
      transition io now name (if not_started then unsuccessful else phase) (bytes "runtime_failed")
        [] s
