-- ===== src/Engine/Saved/Saving.antt =====
-- saveFrontierNode succeeds where everything goes well, and leaves a planned node with its plan.
use mathlib.Core.List.{reverse-append}
use terragraph.Prelude.{
  ℕ, ◌≡◌, refl, sym, ap, ◌∙◌, subst, arith, Bool, true, false, not, Str, bytes, str_eq, str_eq_iff,
  str_eq_refl, ◌++◌, [], ◌∷◌, none, some, if◌then◌else◌, is_nil, lookup, lookup-insert,
  lookup-insert_other, reverse, has_prefix, has_suffix,
}
use terragraph.Engine.Store.{Io, valid_key, write, replaced, new_revision}
use terragraph.Engine.Store.Replies.{is_clean, is_revision, write-replaced}
use terragraph.Engine.Journal.{
  ExecutionNode, plan, Session, initializing, preparing, planned, record_key, transition, is_some,
}
use terragraph.Engine.Recovery.Keys.{json_key-other}
use terragraph.Engine.SavedNode.{
  Answers, initialized, ◌then_run◌, both_are, set_review, bundle_of, stored_bundle, retain_plan,
  keep_plan, prepare_plan, init_node, save_frontier_node,
}
use terragraph.Engine.Saved.Clean.{IsLive, IsAt, node_of, moved, transition-IsAt, set_review-IsAt}
use terragraph.Engine.Saved.Carried.{past, then_run-on}

-- What saveFrontierNode meets if nothing fails and the sources stay as they are.
pub record SavesWell (a : Answers) (binding : Str) (changed : Bool) : Type 0 where
  pub prepared : a.prepared ≡ true
  pub init : a.init ≡ initialized
  pub supported : a.supported ≡ true
  pub before : a.before ≡ some binding
  pub made : a.made ≡ some changed
  pub after : a.after ≡ some binding
  pub inspected : a.inspected ≡ true
  pub kept : a.kept ≡ some binding
  pub has_bytes : is_nil a.plan_bytes ≡ false
  pub key : valid_key (a.bundle_id ++ bytes ".bin") ≡ true

record_key-bundle : (x y : Str) → str_eq (x ++ bytes ".json") (y ++ bytes ".bin") ≡ false
unfolding has_suffix has_prefix
record_key-bundle x y = json_key-other (x ++ bytes ".json") y (
    subst (λ s. has_prefix s (reverse (bytes ".json")) ≡ true)
      (sym (reverse-append x (bytes ".json"))) refl)

bundle-record_key : (x y : Str) → str_eq (y ++ bytes ".bin") (x ++ bytes ".json") ≡ false
bundle-record_key x y = ground (
  arith,
  record_key-bundle x y,
  str_eq_iff (x ++ bytes ".json") (y ++ bytes ".bin"),
  str_eq_iff (y ++ bytes ".bin") (x ++ bytes ".json"),
)

valid_key-bundle : (id : Str) → valid_key (id ++ bytes ".bin") ≡ true → is_nil id ≡ false
unfolding valid_key has_prefix
valid_key-bundle [] h = absurd (cc)
valid_key-bundle (c ∷ id) h = refl

module _ (draw : ℕ → Str) (now : ℕ) (io : ℕ → Io) (a : Answers) (node : ExecutionNode) where
  abbrev pub bundle_key : Str
  bundle_key = a.bundle_id ++ bytes ".bin"

  module _ (binding : Str) (changed : Bool) (origin : Session)
      (clean : (k : ℕ) → is_clean (io k) ≡ true) (well : SavesWell a binding changed)
      (free : lookup bundle_key origin.store.objects ≡ none) where
    -- The session has the planned node, and its store the plan.
    abbrev pub HasPlan : Session → Type 0
    HasPlan t =
        (n : ExecutionNode) × (revision : Str) × IsLive t
        × (node_of node.name t.record_of.nodes ≡ some n)
        × (n.name ≡ node.name)
        × (n.target ≡ node.target)
        × (n.phase ≡ planned)
        × (n.plan_id ≡ a.bundle_id)
        × (is_nil revision ≡ false)
        × (lookup bundle_key t.store.objects
            ≡ some (record {
              revision = revision;
              body = plan (bundle_of a node.name changed binding t);
            }))

    abbrev pub Saved : Bool × Session → Type 0
    Saved out = (out.0 ≡ true) × HasPlan out.1

    -- The session behind the write of the plan.
    abbrev with_bundle : Session → Session
    with_bundle s = record s {
      store = replaced draw s.store bundle_key (plan (bundle_of a node.name changed binding s));
    }

    with_bundle-IsLive : (s : Session) → IsLive s → IsLive (with_bundle s)
    with_bundle-IsLive s (v, n, there, host) = (
      v,
      n,
      lookup-insert_other bundle_key (record_key s.record_of) _ s.store.objects
            (record_key-bundle s.record_of.id a.bundle_id)
          ∙ there,
      host,
    )

    stored :
        (s : Session) (n : ExecutionNode)
        → IsAt node.name n origin s
        → stored_bundle
            (write draw
              (io 3)
              s.store
              bundle_key
              (plan (bundle_of a node.name changed binding s))
              [])
            s
          ≡ (true, with_bundle s)
    stored s n (live, found, (same, touched)) =
        ap (λ w. stored_bundle w s)
          (write-replaced draw (io 3) s.store bundle_key
            (plan (bundle_of a node.name changed binding s)) [] (clean 3) well.key
            (ap (is_revision [])
              (touched bundle_key (bundle-record_key origin.record_of.id a.bundle_id) ∙ free)))

    -- The record points to the plan, which stands in the store since before.
    HasPlan-at :
        (n : ExecutionNode) (s t : Session)
        → n.name ≡ node.name
        → n.target ≡ node.target
        → n.phase ≡ planned
        → n.plan_id ≡ a.bundle_id
        → IsAt node.name n (with_bundle s) t
        → HasPlan t
    HasPlan-at n s t named target phase points (live, found, (same, touched)) = (
      n,
      new_revision draw s.store.drawn,
      live,
      found,
      named,
      target,
      phase,
      points,
      refl,
      touched bundle_key (bundle-record_key s.record_of.id a.bundle_id)
          ∙ lookup-insert bundle_key _ s.store.objects
          ∙ ap
              (λ id. some (record {
                revision = new_revision draw s.store.drawn;
                body =
                    plan (record (bundle_of a node.name changed binding s) { execution_id = id });
              }))
              (sym same),
    )

    set_review-Saved :
        (n : ExecutionNode) (s : Session) (out : Bool × Session)
        → n.name ≡ node.name
        → n.target ≡ node.target
        → n.phase ≡ planned
        → n.plan_id ≡ a.bundle_id
        → out.0 ≡ true
        → IsAt node.name n (with_bundle s) out.1
        → Saved (out then_run set_review draw now (io 5) node.name a.review)
    set_review-Saved n s out named target phase points went at =
        let (went2, at2) =
          set_review-IsAt draw now node.name (with_bundle s) (io 5) a.review n out.1 (clean 5) at in
        then_run-on Saved out _ went (
          went2,
          HasPlan-at (record n { review = some a.review }) s
              (set_review draw now (io 5) node.name a.review out.1).1 named target phase points at2,
        )

    retain_plan-Saved :
        (n : ExecutionNode) (s : Session)
        → IsAt node.name n origin s
        → n.name ≡ node.name
        → n.target ≡ node.target
        → Saved (
            retain_plan draw now io a node.name changed (some binding) s
            then_run set_review draw now (io 5) node.name a.review)
    unfolding retain_plan ◌then_run◌
    retain_plan-Saved n s at named target =
        let (went, at1) =
          transition-IsAt draw now node.name (with_bundle s) (io 4) planned [] a.bundle_id n
            (with_bundle s) (clean 4) (with_bundle-IsLive s at.0, at.1, (refl, λ j d. refl)) in
        subst
          (λ (o : Bool × Session). Saved (
            o
            then_run transition draw (io 4) now node.name planned [] a.bundle_id
            then_run set_review draw now (io 5) node.name a.review))
          (sym (stored s n at))
          (set_review-Saved (moved planned [] a.bundle_id n) s
            (transition draw (io 4) now node.name planned [] a.bundle_id (with_bundle s)) named
            target refl
            (ap (λ (x : Bool). if x then n.plan_id else a.bundle_id)
              (valid_key-bundle a.bundle_id well.key))
            went at1)

    keep_plan-Saved :
        (n : ExecutionNode) (s : Session)
        → IsAt node.name n origin s
        → n.name ≡ node.name
        → n.target ≡ node.target
        → Saved (keep_plan draw now io a node.name (some changed) s)
    unfolding keep_plan
    keep_plan-Saved n s at named target =
        past Saved (not (both_are a.before a.after)) _
          (rw (well.before, well.after, str_eq_refl binding) refl)
          (past Saved (not a.inspected) _ (rw well.inspected refl) (
            past Saved (not (both_are a.kept a.before)) _
              (rw (well.before, well.kept, str_eq_refl binding) refl)
              (subst
                (λ k. Saved (
                  retain_plan draw now io a node.name changed k s
                  then_run set_review draw now (io 5) node.name a.review))
                (sym well.kept) (retain_plan-Saved n s at named target))))

    prepare_plan-Saved :
        (n : ExecutionNode) (s : Session)
        → IsAt node.name n origin s
        → n.name ≡ node.name
        → n.target ≡ node.target
        → Saved (prepare_plan draw now io a node.name s)
    unfolding prepare_plan
    prepare_plan-Saved n s at named target =
        past Saved (not a.supported) _ (rw well.supported refl) (
          past Saved (not (is_some a.before)) _ (rw well.before refl) (
            subst (λ m. Saved (keep_plan draw now io a node.name m s)) (sym well.made)
              (keep_plan-Saved n s at named target)))

    pub save_frontier_node-Saved :
        IsLive origin
        → node_of node.name origin.record_of.nodes ≡ some node
        → Saved (save_frontier_node draw now io a node.name origin)
    unfolding save_frontier_node init_node
    save_frontier_node-Saved live found =
        let (went, at) =
          transition-IsAt draw now node.name origin (io 0) initializing [] [] node origin (clean 0)
            (live, found, (refl, λ j d. refl)) in
        past Saved (not a.prepared) _ (rw well.prepared refl) (
          then_run-on Saved (transition draw (io 0) now node.name initializing [] [] origin) _ went
            (subst
              (λ i. Saved (
                init_node draw now (io 1) i node.name
                  (λ t.
                    transition draw (io 2) now node.name preparing [] [] t
                    then_run prepare_plan draw now io a node.name)
                  (transition draw (io 0) now node.name initializing [] [] origin).1))
              (sym well.init)
              (let (went2, at2) =
                  transition-IsAt draw now node.name origin (io 2) preparing [] []
                    (moved initializing [] [] node)
                    (transition draw (io 0) now node.name initializing [] [] origin).1 (clean 2)
                    at in
                then_run-on Saved
                  (transition draw (io 2) now node.name preparing [] []
                    (transition draw (io 0) now node.name initializing [] [] origin).1)
                  _ went2 (prepare_plan-Saved _ _ at2 refl refl))))
