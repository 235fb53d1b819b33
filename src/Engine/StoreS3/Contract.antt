-- ===== src/Engine/StoreS3/Contract.antt =====
-- The store on S3 keeps the same contract as the local one.
use terragraph.Prelude.{
  ◌≡◌, inl, inr, refl, ap, ◌∙◌, arith, Bool, true, false, not, ==_iff, if_elim, Str, str_eq, [],
  ◌∷◌, ◌++◌, Option, none, some, is_nil,
}
use terragraph.S3.{
  Client, IsS3, Answer, no_such_key, not_found, precondition_failed, conditional_request_conflict,
  other_code, Code, if_none_match, if_match, Nothing, failure, allows, IsPut, IsDelete,
}
use terragraph.Engine.Store.{Object, Reply, Done, valid_key}
use terragraph.Engine.Store.Replies.{is_ok, is_revision}
use terragraph.Engine.Store.Contract.{View, IsElsewhere, IsWrite, IsRemoval}
use terragraph.Engine.StoreS3.{write_s3, written, remove_s3, removed, condition_of, execution_error}

-- A key stands under the prefix as another does exactly if they are equal.
str_eq-append : (p a b : Str) → str_eq (p ++ a) (p ++ b) ≡ str_eq a b
unfolding str_eq
str_eq-append [] a b = refl
str_eq-append (x ∷ p) a b = rw ((==_iff x x).1 refl) (str_eq-append p a b)

execution_error-is_ok : (A : Type 0) (code : Code) → is_ok (execution_error {A = A} code) ≡ false
unfolding execution_error
execution_error-is_ok A no_such_key = refl
execution_error-is_ok A not_found = refl
execution_error-is_ok A precondition_failed = refl
execution_error-is_ok A conditional_request_conflict = refl
execution_error-is_ok A other_code = refl

abbrev object_at : {D : Type 0} → Option (Str × Object D) → Option (Object D)
object_at none = none
object_at (some o) = some (record { revision = o.0; body = o.1.body })

matching-is_revision :
    {D : Type 0} (revision : Str) (found : Option (Str × Object D))
    → is_nil revision ≡ false
    → allows (if_match revision) found ≡ true
    → is_revision revision (object_at found) ≡ true
matching-is_revision revision none n h = absurd (cc)
matching-is_revision revision (some o) n h = ground (arith)

unmatched-is_revision :
    {D : Type 0} (revision : Str) (found : Option (Str × Object D))
    → is_nil revision ≡ true
    → allows if_none_match found ≡ true
    → is_revision revision (object_at found) ≡ true
unmatched-is_revision revision none n h = n
unmatched-is_revision revision (some o) n h = absurd (cc)

condition-is_revision :
    {D : Type 0} (revision : Str) (found : Option (Str × Object D))
    → allows (condition_of revision) found ≡ true
    → is_revision revision (object_at found) ≡ true
condition-is_revision revision found =
    if_elim (λ c. allows c found ≡ true → is_revision revision (object_at found) ≡ true)
      (is_nil revision) {x = if_none_match} {y = if_match revision}
      (unmatched-is_revision revision found) (matching-is_revision revision found)

module _ {D : Type 0} (s3 : Client (Object D)) (prefix : Str) where
  open s3 use {State, at, put, get, delete}

  -- What the store holds under its keys, with the ETag as revision.
  abbrev pub view_s3 : State → View D
  view_s3 s key = object_at (at s (prefix ++ key))

  -- A request that S3 let go through named the revision.
  through :
      (s : State) (key revision : Str)
      → allows (condition_of revision) (at s (prefix ++ key)) ≡ true
      → is_revision revision (view_s3 s key) ≡ true
  through s key revision = condition-is_revision revision (at s (prefix ++ key))

  elsewhere :
      (s t : State) (key : Str)
      → ((j : Str) → str_eq j (prefix ++ key) ≡ false → at t j ≡ at s j)
      → IsElsewhere (view_s3 s) key (view_s3 t)
  elsewhere s t key h j d = ap object_at (h (prefix ++ j) (str_eq-append prefix j key ∙ d))

  written-IsWrite :
      (s : State) (key revision fresh : Str) (c : D) (out : Answer Str × State)
      → IsPut s3 s
          (condition_of revision)
          (prefix ++ key)
          (record { revision = fresh; body = c })
          out
      → IsElsewhere (view_s3 s) key (view_s3 out.1)
      → IsWrite
          (view_s3 s)
          key
          revision
          c
          (written s3 prefix out).0
          (view_s3 (written s3 prefix out).1)
  written-IsWrite s key revision fresh c (failure code, t) (inl kept) far =
      (far, inl (execution_error-is_ok _ code, ap object_at kept))
  written-IsWrite s key revision fresh c (failure code, t) (inr (a, n, (etag, e))) far = (
    far,
    inr (through s key revision a, (etag, ap object_at e, inr (execution_error-is_ok _ code))),
  )
  written-IsWrite s key revision fresh c (Answer.done etag, t) (a, e) far =
      if_elim (λ (r : Reply Str × State). IsWrite (view_s3 s) key revision c r.0 (view_s3 r.1))
        (is_nil etag) (λ _. (far, inr (through s key revision a, (etag, ap object_at e, inr refl))))
        (λ _. (far, inr (through s key revision a, (etag, ap object_at e, inl refl))))

  removed-IsRemoval :
      (s : State) (key revision : Str) (out : Answer Nothing × State)
      → is_nil revision ≡ false
      → IsDelete s3 s (if_match revision) (prefix ++ key) out
      → IsElsewhere (view_s3 s) key (view_s3 out.1)
      → IsRemoval
          (view_s3 s)
          key
          revision
          (removed s3 prefix out).0
          (view_s3 (removed s3 prefix out).1)
  removed-IsRemoval s key revision (failure code, t) n (inl kept) far =
      (far, inl (execution_error-is_ok _ code, ap object_at kept))
  removed-IsRemoval s key revision (failure code, t) n (inr (a, m, e)) far =
      (far, inr (matching-is_revision revision (at s (prefix ++ key)) n a, ap object_at e))
  removed-IsRemoval s key revision (Answer.done d, t) n (a, e) far =
      (far, inr (matching-is_revision revision (at s (prefix ++ key)) n a, ap object_at e))

  -- The store on S3 keeps the contract of a store: each write and each removal, with any failure
  -- of a request, does under its key what the contract allows, and nothing under other keys. For
  -- a bucket that honours conditions.
  pub s3_store-keeps_contract :
      IsS3 s3
      → (fits : Bool) (fresh : Str) (s : State) (key revision : Str) (c : D)
      → IsWrite
          (view_s3 s)
          key
          revision
          c
          (write_s3 s3 prefix fits fresh s key c revision).0
          (view_s3 (write_s3 s3 prefix fits fresh s key c revision).1)
        × IsRemoval
            (view_s3 s)
            key
            revision
            (remove_s3 s3 prefix s key revision).0
            (view_s3 (remove_s3 s3 prefix s key revision).1)
  unfolding write_s3 remove_s3
  s3_store-keeps_contract laws fits fresh s key revision c = (
    if_elim (λ (r : Reply Str × State). IsWrite (view_s3 s) key revision c r.0 (view_s3 r.1))
        (not (valid_key key)) (λ _. ((λ j d. refl), inl (refl, refl)))
        (λ _.
          if_elim (λ (r : Reply Str × State). IsWrite (view_s3 s) key revision c r.0 (view_s3 r.1))
            (not fits) (λ _. ((λ j d. refl), inl (refl, refl)))
            (λ _.
              written-IsWrite s key revision fresh c _
                (laws.puts s (condition_of revision) (prefix ++ key) stored)
                (elsewhere s _ key
                  (laws.puts_elsewhere s (condition_of revision) (prefix ++ key) stored)))),
    if_elim (λ (r : Reply Done × State). IsRemoval (view_s3 s) key revision r.0 (view_s3 r.1))
        (not (valid_key key)) (λ _. ((λ j d. refl), inl (refl, refl)))
        (λ _.
          if_elim (λ (r : Reply Done × State). IsRemoval (view_s3 s) key revision r.0 (view_s3 r.1))
            (is_nil revision) (λ _. ((λ j d. refl), inl (refl, refl)))
            (λ n.
              removed-IsRemoval s key revision _ n
                (laws.deletes s (if_match revision) (prefix ++ key))
                (elsewhere s _ key
                  (laws.deletes_elsewhere s (if_match revision) (prefix ++ key))))),
  )
    where
      stored : Object D
      stored = record { revision = fresh; body = c }
