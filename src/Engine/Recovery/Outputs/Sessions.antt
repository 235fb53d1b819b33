-- ===== src/Engine/Recovery/Outputs/Sessions.antt =====
-- What the recovery of the outputs of one node does to the session.
use terragraph.Prelude.{
  ℕ, ◌≡◌, inr, refl, arith, Bool, true, false, not, ◌&&◌, Str, List, [], ◌∷◌, ◌++◌, ◌⊎◌, Option,
  none, some, if_elim, is_nil,
}
use terragraph.Engine.Store.{Io, Store, Reply, ok, missing, conflict, invalid_key, failed}
use terragraph.Engine.Journal.{
  ExecutionRecord, ExecutionNode, Content, Session, Phase, publish, published, transition_to,
  publish_calls, record_plugin, record_plugins, announce, is_told, phase_of,
}
use terragraph.Engine.Journal.Calls.{PluginCall, with_call}
use terragraph.Engine.Recovery.Outputs.{
  Collected, read_outputs, check_backend, collect_outputs, recover_node_outputs,
}
use terragraph.Engine.SavedNode.{◌then_run◌}

module _ (draw : ℕ → Str) (now : ℕ) (io : Str → ℕ → Io) (collected : Str → Collected) where
  -- The credential plugins of some node have recorded a call.
  abbrev pub IsTaken : Type 0
  IsTaken =
      (name : Str) × (is_nil (
          (collected name).init_calls
          ++ (collected name).output_calls
          ++ (collected name).close_calls)
        ≡ false)

  module _ (old : ExecutionRecord) where
    -- The same execution, without plugins of a run, and with the same plugin calls unless
    -- credentials are taken.
    abbrev pub IsSuccessor : Session → Type 0
    IsSuccessor s =
        (s.record_of.id ≡ old.id)
        × ((name : Str) (phase : Phase) → s.host name phase ≡ [])
        × ((s.record_of.plugin_calls ≡ old.plugin_calls) ⊎ IsTaken)

    abbrev pub Goes : Bool × Session → Type 0
    Goes out = IsSuccessor out.1

    -- A successor that publishes the record stays one.
    abbrev IsNext : ExecutionRecord → Type 0
    IsNext next = (next.id ≡ old.id) × ((next.plugin_calls ≡ old.plugin_calls) ⊎ IsTaken)

    published-Goes :
        (next : ExecutionRecord) (s : Session) (out : Reply Str × Store Content)
        → IsNext next
        → IsSuccessor s
        → Goes (published s next out)
    published-Goes next s (ok r, t) h k = (h.0, k.1, h.1)
    published-Goes next s (missing, t) h k = k
    published-Goes next s (conflict, t) h k = k
    published-Goes next s (invalid_key, t) h k = k
    published-Goes next s (failed, t) h k = k

    publish-Goes :
        (i : Io) (next : ExecutionRecord) (s : Session)
        → IsNext next
        → IsSuccessor s
        → Goes (publish draw i next s)
    unfolding publish
    publish-Goes i next s h k = published-Goes next s _ h k

    record_plugin-Goes :
        (i : Io) (c : PluginCall) (s : Session)
        → IsTaken
        → IsSuccessor s
        → Goes (record_plugin draw i c s)
    unfolding record_plugin
    record_plugin-Goes i c s taken k = changed (with_call c s.record_of.plugin_calls)
      where
        changed : (calls : Option (List PluginCall)) → Goes (publish_calls draw i calls s)
        changed none = k
        changed (some calls) = publish-Goes i _ s (k.0, inr taken) k

    record_plugins-IsSuccessor :
        (cs : List (Io × PluginCall)) (s : Session)
        → (is_nil cs ≡ false → IsTaken)
        → IsSuccessor s
        → IsSuccessor (record_plugins draw cs s)
    unfolding record_plugins
    record_plugins-IsSuccessor [] s taken h = h
    record_plugins-IsSuccessor (c ∷ rest) s taken h =
        record_plugins-IsSuccessor rest _ (λ e. taken refl)
          (record_plugin-Goes c.0 c.1 s (taken refl) h)

    -- A list that is not empty, in one that it is part of.
    is_nil-part :
        {A : Type 0} (xs ys zs : List A)
        → ((is_nil xs && is_nil ys && is_nil zs) ≡ false)
        → is_nil (xs ++ ys ++ zs) ≡ false
    is_nil-part (x ∷ xs) ys zs h = refl
    is_nil-part [] (y ∷ ys) zs h = refl
    is_nil-part [] [] (z ∷ zs) h = refl
    is_nil-part [] [] [] h = h

    announce-Goes :
        (name : Str) (phase : Phase) (previous : Option Phase) (out : Bool × Session)
        → Goes out
        → Goes (announce draw name phase previous out)
    unfolding announce
    announce-Goes name phase previous (false, s) h = h
    announce-Goes name phase previous (true, s) h =
        if_elim Goes (is_told phase previous)
          (λ e.
            record_plugins-IsSuccessor (s.host name phase) _
              (λ n. absurd (let e = h.1 name phase in let f = rw e at n in cc)) h)
          (λ e. h)

    pub transition_to-Goes :
        (i : Io) (name : Str) (phase : Phase) (nodes : Option (List ExecutionNode)) (s : Session)
        → IsSuccessor s
        → Goes (transition_to draw i now name phase nodes s)
    unfolding transition_to
    transition_to-Goes i name phase none s h = h
    transition_to-Goes i name phase (some nodes) s h =
        announce-Goes name phase (phase_of name s.record_of.nodes) _
          (publish-Goes i _ s (h.0, h.2) h)

    then_run-Goes :
        (out : Bool × Session) (f : Session → Bool × Session)
        → Goes out
        → ((s : Session) → IsSuccessor s → Goes (f s))
        → Goes (out then_run f)
    unfolding ◌then_run◌
    then_run-Goes (true, s) f h k = k s h
    then_run-Goes (false, s) f h k = h

    read_outputs-Goes :
        (name : Str) (out : Bool × Session)
        → Goes out
        → Goes (read_outputs draw now io collected (collected name) out)
    read_outputs-Goes name (true, s) h =
        record_plugins-IsSuccessor (collected name).output_calls s
          (λ n. (
            name,
            is_nil-part (collected name).init_calls (collected name).output_calls
                (collected name).close_calls (ground (arith)),
          ))
          h
    read_outputs-Goes name (false, s) h = h

    collect_outputs-Goes :
        (name : Str) (s : Session)
        → IsSuccessor s
        → Goes (collect_outputs draw now io collected (collected name) name s)
    unfolding collect_outputs
    collect_outputs-Goes name s h =
        let c = collected name in
        let taken : (t : Session)
            → IsSuccessor t
            → IsSuccessor (record_plugins draw c.init_calls t) =
          λ t k.
            record_plugins-IsSuccessor c.init_calls t
              (λ n. (
                name,
                is_nil-part (collected name).init_calls (collected name).output_calls
                    (collected name).close_calls (ground (arith)),
              ))
              k in
        if_elim Goes c.read_only
          (λ e.
            read_outputs-Goes name (c.initialized, record_plugins draw c.init_calls s) (taken s h))
          (λ e. then_run-Goes _ _ (publish-Goes (io name 0) _ s (h.0, h.2) h) (λ r k.
            if_elim Goes (not c.initialized) (λ f. taken r k)
              (λ f.
                read_outputs-Goes name _
                  (let m = taken r k in publish-Goes (io name 1) _ _ (m.0, m.2) m))))

    check_backend-Goes :
        (name : Str) (s : Session)
        → IsSuccessor s
        → Goes (check_backend draw now io collected (collected name) name s)
    unfolding check_backend
    check_backend-Goes name s h =
        let c = collected name in
        if_elim Goes (not c.workspace_known) (λ e. h)
          (λ e.
            if_elim Goes (not c.read_only && not c.allow_init) (λ e. h)
              (λ e.
                if_elim Goes (not c.read_only && not (is_nil s.record_of.preparation)) (λ e. h)
                  (λ e.
                    if_elim Goes (not c.prepared) (λ e. h) (λ e. collect_outputs-Goes name s h))))

    pub recover_node_outputs-Goes :
        (name : Str) (s : Session)
        → IsSuccessor s
        → Goes (recover_node_outputs draw now io collected (collected name) name s)
    unfolding recover_node_outputs
    recover_node_outputs-Goes name s h =
        if_elim Goes (not (collected name).known) (λ e. h)
          (λ e.
            record_plugins-IsSuccessor (collected name).close_calls _
              (λ n. (
                name,
                is_nil-part (collected name).init_calls (collected name).output_calls
                    (collected name).close_calls (ground (arith)),
              ))
              (check_backend-Goes name s h))
