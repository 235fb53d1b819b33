-- ===== src/Engine/Saved/RoundTrip.antt =====
-- A plan that saveFrontierNode saves is one that applySavedNode can apply.
use terragraph.Prelude.{
  ℕ, ◌≡◌, refl, sym, ap, ◌∙◌, Bool, true, false, ◌&&◌, Str, bytes, str_eq_refl, ◌++◌, none, some,
  is_nil, lookup, leb,
}
use terragraph.Engine.Store.{Io}
use terragraph.Engine.Store.Replies.{is_clean}
use terragraph.Engine.Journal.{ExecutionNode, Session, Host, planned, completed, phase_of}
use terragraph.Engine.Recovery.{opened_session}
use terragraph.Engine.SavedNode.{
  Answers, initialized, bundle_of, save_frontier_node, bundle_fits, apply_saved_node,
}
use terragraph.Engine.Saved.Clean.{IsLive, IsCleanHost, node_of}
use terragraph.Engine.Saved.Carried.{GoesWell}
use terragraph.Engine.Saved.Completes.{apply_saved_node-completes}
use terragraph.Engine.Saved.Saving.{SavesWell, save_frontier_node-Saved}

-- The plan that stands in the store is read back, whole and for its node.
bundle-fits :
    (draw : ℕ → Str) (later : ℕ) (a : Answers) (n : ExecutionNode) (name binding : Str)
    (changed : Bool) (t : Session)
    → n.name ≡ name
    → n.plan_id ≡ a.bundle_id
    → is_nil a.plan_bytes ≡ false
    → leb a.expires_at later ≡ false
    → bundle_fits draw later n t (bundle_of a name changed binding t) ≡ true
unfolding bundle_fits
bundle-fits draw later a n name binding changed t named points some_bytes expires =
    rw
      (
        named,
        points,
        some_bytes,
        expires,
        str_eq_refl a.bundle_id,
        str_eq_refl name,
        str_eq_refl t.record_of.id,
      )
      refl

-- The session that a later call opens from what this one has left.
abbrev reopened : Host → Session → Session
reopened host s = record (opened_session s.record_of s.revision s.store) { host = host }

-- If the node of a session is saved, with every call of the store, also those that record plugin
-- calls, and every answer good, the save succeeds and leaves a planned node, and then, before the
-- plan expires, the application of that node in a session opened again, to an unchanged target
-- and unchanged sources, succeeds and completes it.
pub apply_saved_node-save_frontier_node :
    (draw : ℕ → Str) (now later : ℕ) (io io2 : ℕ → Io) (a a2 : Answers) (node : ExecutionNode)
    (binding : Str) (changed : Bool) (host : Host) (s : Session)
    → IsCleanHost host
    → ((k : ℕ) → is_clean (io k) ≡ true)
    → ((k : ℕ) → is_clean (io2 k) ≡ true)
    → SavesWell a binding changed
    → IsLive s
    → node_of node.name s.record_of.nodes ≡ some node
    → lookup (a.bundle_id ++ bytes ".bin") s.store.objects ≡ none
    → (a2.prepared && a2.written) ≡ true
    → a2.init ≡ initialized
    → a2.target ≡ some node.target
    → a2.before ≡ some binding
    → a2.after ≡ some binding
    → GoesWell
        (record a2.plan_for { name = node.name; changed = changed; verify_unchanged = true })
        a2.applying_answers
    → leb a.expires_at later ≡ false
    → let saved = save_frontier_node draw now io a node.name s in
      (saved.0 ≡ true)
      × ((n : ExecutionNode) × (node_of node.name saved.1.record_of.nodes ≡ some n)
          × (n.phase ≡ planned)
          × ((apply_saved_node draw later io2 a2 n (reopened host saved.1)).0 ≡ true)
          × (phase_of node.name
                (apply_saved_node draw later io2 a2 n (reopened host saved.1)).1.record_of.nodes
              ≡ some completed))
apply_saved_node-save_frontier_node draw now later io io2 a a2 node binding changed host s good_host
      clean clean2 well live found free ready init target before after goes expires =
    let t : Session = (save_frontier_node draw now io a node.name s).1 in
    let (went, (n, revision, live2, found2, named, aimed, phase, points, some_revision, there)) =
      save_frontier_node-Saved draw now io a node binding changed s clean well free live found in
    let (applied, ended) =
      apply_saved_node-completes draw later io2 a2 (bundle_of a node.name changed binding t) n
        revision (reopened host t) clean2 ready init
        (
          rw (target, aimed, str_eq_refl node.target) refl,
          rw (before, str_eq_refl binding) refl,
          rw (after, str_eq_refl binding) refl,
        )
        (rw named goes) (live2.0, live2.1, live2.2, good_host) (rw named found2)
        (rw points well.key) (rw points there) some_revision
        (bundle-fits draw later a n node.name binding changed (reopened host t) named points
          well.has_bytes expires) in
    (
      went,
      (
        n,
        found2,
        phase,
        applied,
        ap
              (λ x.
                phase_of x
                  (apply_saved_node draw later io2 a2 n (reopened host t)).1.record_of.nodes)
              (sym named)
            ∙ ended,
      ),
    )
