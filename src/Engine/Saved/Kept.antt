-- ===== src/Engine/Saved/Kept.antt =====
-- What the store keeps across the calls of a session: every record of a saved execution has its
-- nodes in the order of the graph, also where a call fails half-way.
use terragraph.Prelude.{
  ℕ, ◌≡◌, inl, inr, sym, ap, ◌∙◌, subst, true, Str, bytes, ◌++◌, str_eq, str_eq_iff, List, Option,
  none, some, lookup, erase, lookup-insert, lookup-insert_other, lookup-erase, lookup-erase_other,
  Bool-cases,
}
use terragraph.Graph.{Graph}
use terragraph.Engine.Store.{
  Io, Object, Store, Reply, ok, missing, conflict, invalid_key, failed, write, replaced, remove,
}
use terragraph.Engine.Store.Replies.{written}
use terragraph.Engine.Store.Elsewhere.{remove-IsRemoved}
use terragraph.Engine.Recovery.Sweep.{cleanup_execution-keeps}
use terragraph.Engine.Journal.{
  ExecutionNode, ExecutionRecord, Content, journal, plan, Session, Phase, record_key, publish,
  published, transition, transition_to, with_nodes, phase_of,
}
use terragraph.Engine.Recovery.{cleanup_execution}
use terragraph.Engine.Journal.Placed.{IsMoved, IsPlaced, set_phase-IsPlaced}
use terragraph.Engine.Journal.Called.{announce-keeps}
use terragraph.Engine.Saved.Commands.{saved_apply}
use terragraph.Engine.Saved.Order.{IsOrdered}

module _ (g : Graph) where
  -- Nothing is asked of a plan, nor of the record of another operation.
  abbrev pub IsBodyOrdered : Content → Type 0
  IsBodyOrdered (journal r) = r.operation ≡ saved_apply → IsOrdered g r.nodes
  IsBodyOrdered (plan b) = true ≡ true

  abbrev pub IsStoreOrdered : Store Content → Type 0
  IsStoreOrdered s =
      (key : Str) (o : Object Content) → lookup key s.objects ≡ some o → IsBodyOrdered o.body

  -- The session's nodes have the property, and the store keeps the order.
  abbrev pub Keeps : (List ExecutionNode → Type 0) → Session → Type 0
  Keeps P s = P s.record_of.nodes × IsStoreOrdered s.store

  abbrev IsFound : Option (Object Content) → Type 0
  IsFound none = true ≡ true
  IsFound (some o) = IsBodyOrdered o.body

  erased-IsStoreOrdered :
      (s : Store Content) (key : Str)
      → IsStoreOrdered s
      → IsStoreOrdered (record s { objects = erase key s.objects })
  erased-IsStoreOrdered s key h j o = elim (Bool-cases (str_eq j key)) [
    | inl e ↦ λ found. absurd (
        let gone =
          subst (λ k. lookup k (erase key s.objects) ≡ none) (sym ((str_eq_iff j key).0 e))
            (lookup-erase key s.objects) in
        cc)
    | inr e ↦ λ found. h j o (sym (lookup-erase_other key j s.objects e) ∙ found)
  ]

  -- Removing an object keeps the order of the others.
  pub remove-IsStoreOrdered :
      (io : Io) (s : Store Content) (key revision : Str)
      → IsStoreOrdered s
      → IsStoreOrdered (remove io s key revision).1
  remove-IsStoreOrdered io s key revision h = elim (remove-IsRemoved io s key revision) [
    | inl e ↦ λ j o found. h j o (sym (ap (lookup j) e) ∙ found)
    | inr e ↦ λ j o found. erased-IsStoreOrdered s key h j o (sym (ap (lookup j) e) ∙ found)
  ]

  pub cleanup_execution-IsStoreOrdered :
      (io : ℕ → Io) (n : ℕ) (r : ExecutionRecord) (s : Store Content)
      → IsStoreOrdered s
      → IsStoreOrdered (cleanup_execution io n r s).1
  cleanup_execution-IsStoreOrdered =
      cleanup_execution-keeps IsStoreOrdered
        (λ io s name revision h. remove-IsStoreOrdered io s (name ++ bytes ".bin") revision h)

  replaced-IsStoreOrdered :
      (draw : ℕ → Str) (s : Store Content) (key : Str) (c : Content)
      → IsStoreOrdered s
      → IsBodyOrdered c
      → IsStoreOrdered (replaced draw s key c)
  replaced-IsStoreOrdered draw s key c h b j o = elim (Bool-cases (str_eq j key)) [
    | inl e ↦ λ found.
        subst IsFound
          (sym (lookup-insert key _ s.objects)
            ∙ subst (λ k. lookup k (replaced draw s key c).objects ≡ some o)
                ((str_eq_iff j key).0 e) found)
          b
    | inr e ↦ λ found. h j o (sym (lookup-insert_other key j _ s.objects e) ∙ found)
  ]

  module _ (draw : ℕ → Str) where
    -- A write keeps the order if its contents do, also one that fails after the object was
    -- replaced.
    pub write-IsStoreOrdered :
        (io : Io) (s : Store Content) (key : Str) (c : Content) (revision : Str)
        → IsStoreOrdered s
        → IsBodyOrdered c
        → IsStoreOrdered (write draw io s key c revision).1
    write-IsStoreOrdered io s key c revision h b = elim (written draw io s key c revision) [
      | inl (n, e) ↦ rw e h
      | inr (m, inl e) ↦ rw e h
      | inr (m, inr (inl (n, e))) ↦ rw e (replaced-IsStoreOrdered draw s key c h b)
      | inr (m, inr (inr e)) ↦ rw e (replaced-IsStoreOrdered draw s key c h b)
    ]

    published-Keeps :
        (P : List ExecutionNode → Type 0) (s : Session) (next : ExecutionRecord)
        (out : Reply Str × Store Content)
        → P next.nodes
        → P s.record_of.nodes
        → IsStoreOrdered out.1
        → Keeps P (published s next out).1
    published-Keeps P s next (ok r, store) new old h = (new, h)
    published-Keeps P s next (missing, store) new old h = (old, h)
    published-Keeps P s next (conflict, store) new old h = (old, h)
    published-Keeps P s next (invalid_key, store) new old h = (old, h)
    published-Keeps P s next (failed, store) new old h = (old, h)

    -- Publishing keeps what holds before it and of the record.
    pub publish-Keeps :
        (P : List ExecutionNode → Type 0) (io : Io) (next : ExecutionRecord) (s : Session)
        → ((ns : List ExecutionNode) → P ns → IsOrdered g ns)
        → P next.nodes
        → Keeps P s
        → Keeps P (publish draw io next s).1
    unfolding publish
    publish-Keeps P io next s ordered new (old, h) = published-Keeps P s next _ new old (
        write-IsStoreOrdered io s.store (record_key next) (journal next) s.revision h
          (λ _. ordered next.nodes new))

    transition_to-Keeps :
        (P : List ExecutionNode → Type 0) (io : Io) (now : ℕ) (name : Str) (phase : Phase)
        (nodes : Option (List ExecutionNode)) (s : Session)
        → ((ns : List ExecutionNode) → P ns → IsOrdered g ns)
        → IsPlaced name phase s.record_of.nodes nodes
        → ((ns : List ExecutionNode) → IsMoved name phase s.record_of.nodes ns → P ns)
        → Keeps P s
        → Keeps P (transition_to draw io now name phase nodes s).1
    unfolding transition_to
    transition_to-Keeps P io now name phase none s ordered m new k = k
    transition_to-Keeps P io now name phase (some nodes) s ordered m new k =
        let next : ExecutionRecord = with_nodes s.record_of nodes now in
        announce-keeps draw (Keeps P) name phase (phase_of name s.record_of.nodes)
          (publish draw io next s)
          (λ i q t c h.
            publish-Keeps P i q t ordered
              (subst P (sym (ap (λ (r : ExecutionRecord). r.nodes) c)) h.0) h)
          (λ t es h. h) (publish-Keeps P io next s ordered (new nodes m) k)

    -- So does a transition, if it holds of the nodes it moves to.
    pub transition-Keeps :
        (P : List ExecutionNode → Type 0) (io : Io) (now : ℕ) (name : Str) (phase : Phase)
        (code plan_id : Str) (s : Session)
        → ((ns : List ExecutionNode) → P ns → IsOrdered g ns)
        → ((ns : List ExecutionNode) → IsMoved name phase s.record_of.nodes ns → P ns)
        → Keeps P s
        → Keeps P (transition draw io now name phase code plan_id s).1
    unfolding transition
    transition-Keeps P io now name phase code plan_id s ordered new k =
        transition_to-Keeps P io now name phase _ s ordered
          (set_phase-IsPlaced name phase code plan_id s.record_of.nodes) new k
