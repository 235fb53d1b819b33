-- ===== src/Engine/Recovery/Reads.antt =====
-- What readExecutionRecord answers with.
use terragraph.Prelude.{
  ◌≡◌, inl, inr, refl, arith, true, not, Str, bytes, str_eq, Option, none, some, ◌++◌,
  if◌then◌else◌, if_elim, has_prefix, lookup,
}
use terragraph.Engine.Store.{Io, Object, Store, read}
use terragraph.Engine.Store.Replies.{read_cases}
use terragraph.Engine.Journal.{ExecutionRecord, Content, journal, plan}
use terragraph.Engine.Recovery.{acceptable, decoded, read_execution_record}

-- A property of an error, and of every record under its own identifier in the store, is one of
-- the answer.
module _ (Q : Option (ExecutionRecord × Str) → Type 0) (id : Str) where
  of_body :
      (o : Object Content) (c : Content)
      → Q none
      → ((r : ExecutionRecord) → c ≡ journal r → str_eq r.id id ≡ true → Q (some (r, o.revision)))
      → Q (elim c [
        | journal r ↦ if acceptable id r then some (r, o.revision) else none
        | plan p ↦ none
      ])
  unfolding acceptable
  of_body o (journal r) n h = if_elim Q (acceptable id r) (λ e. h r refl (ground (arith))) (λ e. n)
  of_body o (plan p) n h = n

  abbrev Answers : Store Content → Type 0
  Answers store =
      (o : Object Content) (r : ExecutionRecord)
      → lookup (id ++ bytes ".json") store.objects ≡ some o
      → o.body ≡ journal r
      → str_eq r.id id ≡ true
      → Q (some (r, o.revision))

  decoded_at :
      (io : Io) (store : Store Content)
      → Q none
      → Answers store
      → Q (decoded id (read io store (id ++ bytes ".json")))
  unfolding decoded
  decoded_at io store n h = elim (read_cases io store (id ++ bytes ".json")) [
    | inl (e, m) ↦ rw e n
    | inr (inl (o, e, there)) ↦ rw e (of_body o o.body n (λ r same named. h o r there same named))
    | inr (inr (inl e)) ↦ rw e n
    | inr (inr (inr e)) ↦ rw e n
  ]

  pub read_execution_record-elim :
      (io : Io) (store : Store Content)
      → Q none
      → Answers store
      → Q (read_execution_record io store id)
  unfolding read_execution_record
  read_execution_record-elim io store n h =
      if_elim Q (not (has_prefix id (bytes "run-"))) (λ e. n) (λ e. decoded_at io store n h)
