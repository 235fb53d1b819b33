-- ===== src/GraphLock/Requests.antt =====
-- What one request of the lock does to the object in the bucket.
use terragraph.Prelude.{
  ◌≡◌, ◌⊎◌, inl, inr, refl, ap, subst, ◌∙◌, true, false, if_elim, Str, str_eq, Option, none, some,
  is_nil,
}
use terragraph.S3.{
  Client, IsS3, IsPut, IsDelete, Answer, done, failure, always, if_none_match, if_match, Nothing,
  allows,
}
use terragraph.GraphLock.{
  LockObject, S3Lock, Held, Result, Failure, ok, error, acquired, after_cleanup, is_held,
  is_precondition_failed, close, closing,
}

abbrev pub handle_after : Held → Result Held → Held
handle_after h (ok k) = k
handle_after h (error f) = h

handle_inj :
    {etag : Str} {h : Held} → ok (record { etag = etag; closed = false }) ≡ ok h → etag ≡ h.etag
handle_inj e = cc

done_inj : {a b : Str} → done a ≡ done b → a ≡ b
done_inj e = cc

pub allows-if_none_match :
    {A : Type 0} (found : Option (Str × A)) → allows if_none_match found ≡ true → found ≡ none
allows-if_none_match none h = refl
allows-if_none_match (some o) h = absurd (cc)

module _ (s3 : Client LockObject) (lock : S3Lock) where
  open s3 use {State, at, put, get, delete}

  pub acquired-ok :
      (out : Answer Str × State) (h : Held)
      → (acquired s3 lock out).0 ≡ ok h
      → (out.0 ≡ done h.etag) × ((acquired s3 lock out).1 ≡ out.1)
  unfolding acquired
  acquired-ok (failure code, s) h =
      if_elim (λ (r : Result Held × State). r.0 ≡ ok h → (failure code ≡ done h.etag) × (r.1 ≡ s))
        (is_held code) (λ _ e. absurd (cc)) (λ _ e. absurd (cc))
  acquired-ok (done etag, s) h =
      if_elim (λ (r : Result Held × State). r.0 ≡ ok h → (done etag ≡ done h.etag) × (r.1 ≡ s))
        (is_nil etag) (λ _ e. absurd (after_cleanup-ok (delete s always lock.key) e))
        (λ _ e. (ap done (handle_inj e), refl))
    where
      after_cleanup-ok : (d : Answer Nothing × State) → (after_cleanup s3 d).0 ≡ ok h → ⊥
      after_cleanup-ok (done n, t) e = cc
      after_cleanup-ok (failure code, t) e = cc

  pub put_done :
      (s : State) (payload : LockObject) (etag : Str) (out : Answer Str × State)
      → IsPut s3 s if_none_match lock.key payload out
      → out.0 ≡ done etag
      → (allows if_none_match (at s lock.key) ≡ true) × (at out.1 lock.key ≡ some (etag, payload))
  put_done s payload etag (failure code, t) i e = absurd (cc)
  put_done s payload etag (done given, t) (a, r) e =
      (a, subst (λ k. at t lock.key ≡ some (k, payload)) (done_inj e) r)

  pub acquired-kept :
      (s : State) (payload : LockObject) (f : Failure) (out : Answer Str × State)
      → IsPut s3 s if_none_match lock.key payload out
      → (acquired s3 lock out).0 ≡ error f
      → (at (acquired s3 lock out).1 lock.key ≡ at s lock.key) ⊎ (at s lock.key ≡ none)
  unfolding acquired
  acquired-kept s payload f (failure code, t) (inl kept) =
      if_elim
        (λ (r : Result Held × State).
          r.0 ≡ error f → (at r.1 lock.key ≡ at s lock.key) ⊎ (at s lock.key ≡ none))
        (is_held code) (λ _ _. inl kept) (λ _ _. inl kept)
  acquired-kept s payload f (failure code, t) (inr (a, n, r)) = λ _. inr (allows-if_none_match _ a)
  acquired-kept s payload f (done etag, t) (a, r) = λ _. inr (allows-if_none_match _ a)

  closing-etag :
      (h : Held) (out : Answer Nothing × State)
      → (handle_after h (closing s3 h out).0).etag ≡ h.etag
  closing-etag h (done n, t) = refl
  closing-etag h (failure code, t) =
      if_elim (λ (r : Result Held × State). (handle_after h r.0).etag ≡ h.etag)
        (is_precondition_failed code) (λ _. refl) (λ _. refl)

  pub close-etag : (h : Held) (s : State) → (handle_after h (close s3 lock h s).0).etag ≡ h.etag
  unfolding close
  close-etag h s =
      if_elim (λ (r : Result Held × State). (handle_after h r.0).etag ≡ h.etag) h.closed (λ _. refl)
        (λ _.
          if_elim (λ (r : Result Held × State). (handle_after h r.0).etag ≡ h.etag) (is_nil h.etag)
            (λ _. refl) (λ _. closing-etag h (delete s (if_match h.etag) lock.key)))

  closing-bucket : (h : Held) (out : Answer Nothing × State) → (closing s3 h out).1 ≡ out.1
  closing-bucket h (done n, t) = refl
  closing-bucket h (failure code, t) =
      if_elim (λ (r : Result Held × State). r.1 ≡ t) (is_precondition_failed code) (λ _. refl)
        (λ _. refl)

  deleted-kept :
      (s : State) (h k : Held) (b : LockObject) (out : Answer Nothing × State)
      → IsDelete s3 s (if_match h.etag) lock.key out
      → str_eq h.etag k.etag ≡ false
      → at s lock.key ≡ some (k.etag, b)
      → at out.1 lock.key ≡ at s lock.key
  deleted-kept s h k b (done n, t) (a, r) d o = absurd (refused (at s lock.key) o a)
    where
      refused :
          (found : Option (Str × LockObject))
          → found ≡ some (k.etag, b)
          → allows (if_match h.etag) found ≡ true
          → ⊥
      refused found e = rw e (λ m. cc)
  deleted-kept s h k b (failure code, t) (inl kept) d o = kept
  deleted-kept s h k b (failure code, t) (inr (a, n, r)) d o = absurd (refused (at s lock.key) o a)
    where
      refused :
          (found : Option (Str × LockObject))
          → found ≡ some (k.etag, b)
          → allows (if_match h.etag) found ≡ true
          → ⊥
      refused found e = rw e (λ m. cc)

  module _ (laws : IsS3 s3) where
    -- Closing a handle leaves the object of another ETag.
    pub close-kept :
        (s : State) (h k : Held) (b : LockObject)
        → str_eq h.etag k.etag ≡ false
        → at s lock.key ≡ some (k.etag, b)
        → at (close s3 lock h s).1 lock.key ≡ at s lock.key
    unfolding close
    close-kept s h k b d o =
        if_elim (λ (r : Result Held × State). at r.1 lock.key ≡ at s lock.key) h.closed (λ _. refl)
          (λ _.
            if_elim (λ (r : Result Held × State). at r.1 lock.key ≡ at s lock.key) (is_nil h.etag)
              (λ _. refl)
              (λ _.
                ap (λ t. at t lock.key) (closing-bucket h (delete s (if_match h.etag) lock.key))
                ∙ deleted-kept s h k b (delete s (if_match h.etag) lock.key)
                    (laws.deletes s (if_match h.etag) lock.key) d o))
