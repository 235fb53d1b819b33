-- ===== src/Engine/Saved/Clean.antt =====
-- Where every step of the store's calls goes well, a session publishes, and a transition of a
-- node in its record succeeds.
use terragraph.Prelude.{
  ℕ, ◌≡◌, inl, inr, refl, sym, ap, ◌∙◌, subst, arith, Bool, true, false, Str, bytes, str_eq,
  str_eq_refl, List, [], ◌∷◌, ◌++◌, Option, none, some, if◌then◌else◌, is_nil, lookup,
  lookup-insert, lookup-insert_other, Bool-cases, All,
}
use terragraph.Engine.Store.{Io, valid_key, replaced, new_revision}
use terragraph.Engine.Store.Replies.{is_clean, is_revision, write-replaced}
use terragraph.Engine.Journal.{
  ExecutionRecord, ExecutionNode, journal, Session, Phase, record_key, publish, published,
  set_phase, with_nodes, transition, transition_to, phase_of, Host, publish_calls, record_plugin,
  record_plugins, announce, is_told,
}
use terragraph.Engine.Journal.Steps.{IsStored}
use terragraph.Engine.Journal.Calls.{PluginCall, with_call}
use terragraph.Engine.Journal.Called.{announce-ok}
use terragraph.Engine.SavedNode.{set_node, set_review}

-- The first node of the name.
unfoldable pub node_of : Str → List ExecutionNode → Option ExecutionNode
node_of name [] = none
node_of name (n ∷ rest) =
    let later = node_of name rest in if str_eq n.name name then some n else later

-- What the plugins record goes well.
abbrev pub IsCleanHost : Host → Type 0
IsCleanHost host = (name : Str) (phase : Phase) → All (λ c. is_clean c.0 ≡ true) (host name phase)

-- The session has its record in the store, under a key and a revision of their form, and its
-- plugins record well.
abbrev pub IsLive : Session → Type 0
IsLive s =
    (valid_key (record_key s.record_of) ≡ true)
    × (is_nil s.revision ≡ false)
    × IsStored s
    × IsCleanHost s.host

-- The session has gone on in the same execution, and touched its record only.
abbrev pub HasAdvanced : Session → Session → Type 0
HasAdvanced s t =
    (t.record_of.id ≡ s.record_of.id)
    × ((j : Str)
        → str_eq j (record_key s.record_of) ≡ false
        → lookup j t.store.objects ≡ lookup j s.store.objects)

-- The session is live and has the node, and came there from the other one.
abbrev pub IsAt : Str → ExecutionNode → Session → Session → Type 0
IsAt name n s t = IsLive t × (node_of name t.record_of.nodes ≡ some n) × HasAdvanced s t

abbrev pub moved : Phase → Str → Str → ExecutionNode → ExecutionNode
moved phase code plan_id n = record n {
  phase = phase;
  code = code;
  plan_id = if is_nil plan_id then n.plan_id else plan_id;
}

module _ (draw : ℕ → Str) where
  abbrev pub renewed : Session → ExecutionRecord → Session
  renewed s next = record s {
    record_of = next;
    revision = new_revision draw s.store.drawn;
    store = replaced draw s.store (record_key next) (journal next);
  }

  pub publish-renewed :
      (io : Io) (next : ExecutionRecord) (s : Session)
      → is_clean io ≡ true
      → IsLive s
      → next.id ≡ s.record_of.id
      → publish draw io next s ≡ (true, renewed s next)
  unfolding publish
  publish-renewed io next s c (v, n, there, host) same = ap (published s next) (
      write-replaced draw io s.store (record_key next) (journal next) s.revision c
        (subst (λ a. valid_key (a ++ bytes ".json") ≡ true) (sym same) v)
        (ap (is_revision s.revision) (
            subst
              (λ a.
                lookup (a ++ bytes ".json") s.store.objects
                ≡ lookup (record_key s.record_of) s.store.objects)
              (sym same) refl
            ∙ there)
          ∙ ground (arith, str_eq_refl s.revision)))

  renewed-IsLive :
      (s : Session) (next : ExecutionRecord)
      → IsLive s
      → next.id ≡ s.record_of.id
      → IsLive (renewed s next) × HasAdvanced s (renewed s next)
  renewed-IsLive s next (v, n, there, host) same = (
    (
      subst (λ a. valid_key (a ++ bytes ".json") ≡ true) (sym same) v,
      refl,
      lookup-insert (record_key next) _ s.store.objects,
      host,
    ),
    (
      same,
      λ j d.
          lookup-insert_other (record_key next) j _ s.store.objects
            (subst (λ a. str_eq j (a ++ bytes ".json") ≡ false) (sym same) d),
    ),
  )

  -- Publishing a record of the execution that has the node.
  pub publish-IsAt :
      (io : Io) (next : ExecutionRecord) (name : Str) (n m : ExecutionNode) (start s : Session)
      → is_clean io ≡ true
      → IsAt name n start s
      → next.id ≡ s.record_of.id
      → node_of name next.nodes ≡ some m
      → ((publish draw io next s).0 ≡ true) × IsAt name m start (publish draw io next s).1
  publish-IsAt io next name n m start s c (live, there, (id, kept)) same found =
      let e = publish-renewed io next s c live same in
      let (live2, (id2, kept2)) = renewed-IsLive s next live same in
      (
        ap (λ t. t.0) e,
        subst (λ (t : Bool × Session). IsAt name m start t.1) (sym e)
            (
              live2,
              found,
              (
                id2 ∙ id,
                λ j d.
                    kept2 j (subst (λ a. str_eq j (a ++ bytes ".json") ≡ false) (sym id) d)
                    ∙ kept j d,
              ),
            ),
      )

-- A transition puts the node into its phase, as setting it does.
set_phase-set_node :
    (name : Str) (phase : Phase) (code plan_id : Str) (ns : List ExecutionNode)
    → set_phase name phase code plan_id ns ≡ set_node name (moved phase code plan_id) ns
unfolding set_phase set_node
set_phase-set_node name phase code plan_id [] = refl
set_phase-set_node name phase code plan_id (n ∷ rest) =
    rw (set_phase-set_node name phase code plan_id rest) refl

node_here :
    (name : Str) (n : ExecutionNode) (rest : List ExecutionNode)
    → str_eq n.name name ≡ true
    → node_of name (n ∷ rest) ≡ some n
unfolding node_of
node_here name n rest e = rw e refl

set_node-node_of :
    (name : Str) (f : ExecutionNode → ExecutionNode) (n : ExecutionNode)
    → ((x : ExecutionNode) → (f x).name ≡ x.name)
    → (ns : List ExecutionNode) → node_of name ns ≡ some n
    → (ms : List ExecutionNode) × (set_node name f ns ≡ some ms) × (node_of name ms ≡ some (f n))
unfolding set_node node_of
set_node-node_of name f n same [] = λ h. absurd (cc)
set_node-node_of name f n same (x ∷ rest) = elim (Bool-cases (str_eq x.name name)) [
  | inl e ↦ rw e (λ h. (
    f x ∷ rest,
    refl,
    node_here name (f x) rest (ap (λ a. str_eq a name) (same x) ∙ e)
        ∙ ap (λ y. some (f y)) (first x h),
  ))
  | inr e ↦ rw e (λ h.
      let (ms, put, found) = set_node-node_of name f n same rest h in
      (x ∷ ms, rw put refl, rw e found))
]
  where
    first : (x : ExecutionNode) → some x ≡ some n → x ≡ n
    first x h = cc

module _ (draw : ℕ → Str) (now : ℕ) (name : Str) (start : Session) where
  record_plugin-IsAt :
      (io : Io) (c : PluginCall) (n : ExecutionNode) (s : Session)
      → is_clean io ≡ true
      → IsAt name n start s
      → IsAt name n start (record_plugin draw io c s).1
  unfolding record_plugin
  record_plugin-IsAt io c n s clean at = changed (with_call c s.record_of.plugin_calls)
    where
      changed :
          (calls : Option (List PluginCall)) → IsAt name n start (publish_calls draw io calls s).1
      changed none = at
      changed (some calls) = (publish-IsAt draw io _ name n n start s clean at refl at.1).1

  record_plugins-IsAt :
      (cs : List (Io × PluginCall)) (n : ExecutionNode) (s : Session)
      → All (λ c. is_clean c.0 ≡ true) cs
      → IsAt name n start s
      → IsAt name n start (record_plugins draw cs s)
  unfolding record_plugins
  record_plugins-IsAt [] n s clean at = at
  record_plugins-IsAt (c ∷ rest) n s clean at =
      record_plugins-IsAt rest n _ clean.1 (record_plugin-IsAt c.0 c.1 n s clean.0 at)

  announce-IsAt :
      (phase : Phase) (previous : Option Phase) (n : ExecutionNode) (out : Bool × Session)
      → IsAt name n start out.1
      → IsAt name n start (announce draw name phase previous out).1
  unfolding announce
  announce-IsAt phase previous n (false, s) at = at
  announce-IsAt phase previous n (true, s) at = elim (Bool-cases (is_told phase previous)) [
    | inl e ↦ rw e (record_plugins-IsAt (s.host name phase) n _ (at.0.3 name phase) at)
    | inr e ↦ rw e at
  ]

  transition_to-IsAt :
      (io : Io) (phase : Phase) (nodes : Option (List ExecutionNode)) (ms : List ExecutionNode)
      (n m : ExecutionNode) (s : Session)
      → is_clean io ≡ true
      → IsAt name n start s
      → nodes ≡ some ms
      → node_of name ms ≡ some m
      → ((transition_to draw io now name phase nodes s).0 ≡ true)
        × IsAt name m start (transition_to draw io now name phase nodes s).1
  unfolding transition_to
  transition_to-IsAt io phase none ms n m s c at e found = absurd (cc)
  transition_to-IsAt io phase (some ns) ms n m s c at e found =
      let next : ExecutionRecord = with_nodes s.record_of ns now in
      let previous : Option Phase = phase_of name s.record_of.nodes in
      let (went, at2) =
        publish-IsAt draw io next name n m start s c at refl
          (subst (λ l. node_of name l ≡ some m) (sym (only e)) found) in
      (
        announce-ok draw name phase previous (publish draw io next s) ∙ went,
        announce-IsAt phase previous m (publish draw io next s) at2,
      )
    where
      only : some ns ≡ some ms → ns ≡ ms
      only h = cc

  -- A transition of the node succeeds.
  pub transition-IsAt :
      (io : Io) (phase : Phase) (code plan_id : Str) (n : ExecutionNode) (s : Session)
      → is_clean io ≡ true
      → IsAt name n start s
      → ((transition draw io now name phase code plan_id s).0 ≡ true)
        × IsAt name
            (moved phase code plan_id n)
            start
            (transition draw io now name phase code plan_id s).1
  unfolding transition
  transition-IsAt io phase code plan_id n s c at =
      let (ms, put, found) =
        set_node-node_of name (moved phase code plan_id) n (λ x. refl) s.record_of.nodes at.1 in
      transition_to-IsAt io phase _ ms n (moved phase code plan_id n) s c at
        (set_phase-set_node name phase code plan_id s.record_of.nodes ∙ put) found

  -- The node's review is set.
  pub set_review-IsAt :
      (io : Io) (review : Str) (n : ExecutionNode) (s : Session)
      → is_clean io ≡ true
      → IsAt name n start s
      → ((set_review draw now io name review s).0 ≡ true)
        × IsAt name
            (record n { review = some review })
            start
            (set_review draw now io name review s).1
  unfolding set_review
  set_review-IsAt io review n s c at =
      let (ms, put, found) =
        set_node-node_of name (λ x. record x { review = some review }) n (λ x. refl)
          s.record_of.nodes at.1 in
      rw put
        (publish-IsAt draw io (record s.record_of { nodes = ms }) name n _ start s c at refl found)
