-- ===== src/Engine/Saved/Histories.antt =====
-- What any sequence of calls leaves of the saved executions in a store.
use terragraph.Prelude.{
  ℕ, ◌≡◌, ◌≤◌, refl, subst, Bool, true, false, not, Str, bytes, str_eq_iff, List, [], ◌∷◌, Option,
  none, some, if_elim, arith, All, count,
}
use terragraph.Graph.{Graph}
use terragraph.Engine.Store.{Io, Store}
use terragraph.Engine.Journal.{ExecutionRecord, Content, journal, Session}
use terragraph.Engine.Recovery.{is_clear, read_execution_record, check_execution_barrier}
use terragraph.Engine.Recovery.Reads.{read_execution_record-elim}
use terragraph.Engine.Begin.{begin_execution}
use terragraph.Engine.Saved.Commands.{
  Call, Command, save, apply, fresh, saved_apply, can_resume, opened, open_saved_execution,
  with_session, save_command, fresh_command, apply_command, run_command, run_commands,
}
use terragraph.Engine.Saved.Kept.{IsBodyOrdered, IsStoreOrdered}
use terragraph.Engine.Saved.Loops.{
  KeepsOrder, WentOn, save_plans-Order, apply_saved_plans-Order, finish_saved_session-Order,
}
use terragraph.Engine.Saved.Started.{IsOpened, begin_execution-IsOpened}

-- An execution starts under distinct names.
abbrev pub HasDistinctNames : Command → Type 0
HasDistinctNames (fresh b c) = (a : Str) → count a b.names ≤ 1
HasDistinctNames (save c) = true ≡ true
HasDistinctNames (apply c) = true ≡ true

module _ (g : Graph) where
  abbrev IsRead : Option (ExecutionRecord × Str) → Type 0
  IsRead none = true ≡ true
  IsRead (some (r, revision)) = IsBodyOrdered g (journal r)

  read_execution_record-IsRead :
      (io : Io) (store : Store Content) (id : Str)
      → IsStoreOrdered g store
      → IsRead (read_execution_record io store id)
  read_execution_record-IsRead io store id h =
      read_execution_record-elim IsRead id io store refl
        (λ o r there body named. subst (IsBodyOrdered g) body (h _ o there))

  module _ (draw : ℕ → Str) where
    abbrev IsOpen : Call → Option Session → Type 0
    IsOpen c none = true ≡ true
    IsOpen c (some s) = KeepsOrder g draw c.now c.io c.answers s

    opened-IsOpen :
        (c : Call) (store : Store Content) (found : Option (ExecutionRecord × Str))
        → IsStoreOrdered g store
        → IsRead found
        → IsOpen c (opened c store found)
    unfolding opened
    opened-IsOpen c store none h r = refl
    opened-IsOpen c store (some (r, revision)) h o =
        if_elim (IsOpen c) (not (can_resume c r)) (λ e. refl)
          (λ e.
            if_elim (IsOpen c)
              (not (
                is_clear
                  (check_execution_barrier (c.io (bytes "barrier")) store c.scope c.id false)))
              (λ f. refl) (λ f. (o ((str_eq_iff r.operation saved_apply).0 (ground (arith))), h)))

    with_session-IsStoreOrdered :
        (c : Call) (store : Store Content) (s : Option Session) (f : Session → Bool × Session)
        → IsStoreOrdered g store
        → IsOpen c s
        → ((t : Session)
            → KeepsOrder g draw c.now c.io c.answers t
            → KeepsOrder g draw c.now c.io c.answers (f t).1)
        → IsStoreOrdered g (with_session store s f).1
    with_session-IsStoreOrdered c store none f h o k = h
    with_session-IsStoreOrdered c store (some s) f h o k = (k s o).1

    IsOpened-Open :
        (c : Call) (out : Option Session × Store Content)
        → IsOpened g draw out
        → IsStoreOrdered g out.1 × IsOpen c out.0
    IsOpened-Open c (none, store) h = (h, refl)
    IsOpened-Open c (some s, store) (h, o, k) = (h, (o, k))

    run_command-IsStoreOrdered :
        (c : Command) (store : Store Content)
        → HasDistinctNames c
        → IsStoreOrdered g store
        → IsStoreOrdered g (run_command draw g c store)
    unfolding run_command save_command apply_command fresh_command open_saved_execution
    run_command-IsStoreOrdered (save c) store once h =
        with_session-IsStoreOrdered c store _ _ h
          (opened-IsOpen c store _ h (read_execution_record-IsRead _ store c.id h))
          (λ t k. finish_saved_session-Order g draw c.now c.io c.answers c.setting _ (
            if_elim (WentOn g draw c.now c.io c.answers) c.selected
              (λ e. save_plans-Order g draw c.now c.io c.answers c.setting t k) (λ e. k)))
    run_command-IsStoreOrdered (apply c) store once h =
        with_session-IsStoreOrdered c store _ _ h
          (opened-IsOpen c store _ h (read_execution_record-IsRead _ store c.id h))
          (λ t k. finish_saved_session-Order g draw c.now c.io c.answers c.setting _ (
            if_elim (WentOn g draw c.now c.io c.answers) c.selected
              (λ e. apply_saved_plans-Order g draw c.now c.io c.answers c.setting t k) (λ e. k)))
    run_command-IsStoreOrdered (fresh b c) store once h =
        let out = begin_execution draw (record b { operation = saved_apply }) store in
        let (held, o) =
          IsOpened-Open c out
            (begin_execution-IsOpened g draw (record b { operation = saved_apply }) store once h) in
        with_session-IsStoreOrdered c out.1 out.0 _ held o (λ t k.
          finish_saved_session-Order g draw c.now c.io c.answers c.setting _
            (save_plans-Order g draw c.now c.io c.answers c.setting t k))

    -- Whatever calls start executions, save plans and apply them against a store, in whatever
    -- order, and wherever each of them fails: if in every record of a saved execution a node past
    -- `pending` has only completed nodes upstream, and no two nodes share a name, this holds in
    -- every such record of the store afterwards. The calls are for one graph, and the names that
    -- an execution starts with are distinct.
    pub run_commands-IsStoreOrdered :
        (cs : List Command) (store : Store Content)
        → All HasDistinctNames cs
        → IsStoreOrdered g store
        → IsStoreOrdered g (run_commands draw g cs store)
    unfolding run_commands
    run_commands-IsStoreOrdered [] store once h = h
    run_commands-IsStoreOrdered (c ∷ cs) store once h =
        run_commands-IsStoreOrdered cs (run_command draw g c store) once.1
          (run_command-IsStoreOrdered c store once.0 h)
