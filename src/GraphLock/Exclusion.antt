-- ===== src/GraphLock/Exclusion.antt =====
-- Two runs never hold the graph lock at once, unless someone breaks it.
use terragraph.Prelude.{
  ◌≤◌, ◌≡◌, inl, inr, refl, ap, subst, ◌∙◌, arith, false, str_eq, List, [], ◌∷◌, none, some, length,
  length-append, All, All-map, ◌++◌,
}
use terragraph.S3.{Client, IsS3, if_none_match}
use terragraph.GraphLock.{LockObject, S3Lock, Held, Failure, ok, error, acquire_s3, close}
use terragraph.GraphLock.Requests.{
  handle_after, allows-if_none_match, acquired-ok, put_done, acquired-kept, close-etag, close-kept,
}

-- The bucket, the runs that hold the lock, and the handles on which Close has been called,
-- which may be called again after an error.
pub record World (S : Type 0) : Type 0 where
  pub bucket : S
  pub running : List Held
  pub ended : List Held

nil_of_length : (xs : List Held) → length xs ≤ 0 → xs ≡ []
nil_of_length [] h = refl
nil_of_length (x ∷ xs) h = absurd (omega (arith, h))

alone :
    (before after : List Held) (h : Held)
    → length (before ++ h ∷ after) ≤ 1
    → length (before ++ after) ≤ 0
alone before after h l =
    omega (arith, l, length-append before (h ∷ after), length-append before after)

-- One entry of a list exchanged for one that has the property if the old one has.
All-exchange :
    (P : Held → Type 0) (before after : List Held) (h k : Held)
    → (P h → P k)
    → All P (before ++ h ∷ after)
    → P h × All P (before ++ k ∷ after)
All-exchange P [] after h k f (a, r) = (a, (f a, r))
All-exchange P (x ∷ before) after h k f (a, r) =
    let rest = All-exchange P before after h k f r in (rest.0, (a, rest.1))

module _ (s3 : Client LockObject) (lock : S3Lock) where
  open s3 use {State, at, put, get, delete}

  -- What processes do to the lock, in any order. A payload, of a user, a host and a second, is
  -- new: its ETag is none that a handle in the list of the ended ones has. Nobody breaks the lock.
  pub data Step (w t : World State) : Type 0 where
    acquires :
        (payload : LockObject) (h : Held)
        → (acquire_s3 s3 lock payload w.bucket).0 ≡ ok h
        → All (λ e. str_eq e.etag h.etag ≡ false) w.ended
        → t ≡ record w { bucket = (acquire_s3 s3 lock payload w.bucket).1; running = h ∷ w.running }
        → Step w t
    gives_up :
        (payload : LockObject) (f : Failure)
        → (acquire_s3 s3 lock payload w.bucket).0 ≡ error f
        → t ≡ record w { bucket = (acquire_s3 s3 lock payload w.bucket).1 }
        → Step w t
    closes :
        (before after : List Held) (h : Held)
        → w.running ≡ before ++ h ∷ after
        → t ≡ record {
          bucket = (close s3 lock h w.bucket).1;
          running = before ++ after;
          ended = handle_after h (close s3 lock h w.bucket).0 ∷ w.ended;
        }
        → Step w t
    closes_again :
        (before after : List Held) (h : Held)
        → w.ended ≡ before ++ h ∷ after
        → t ≡ record w {
          bucket = (close s3 lock h w.bucket).1;
          ended = before ++ handle_after h (close s3 lock h w.bucket).0 ∷ after;
        }
        → Step w t

  pub data Reach (w : World State) : World State → Type 0 where
    here : Reach w w
    next : {t u : World State} → Reach w t → Step t u → Reach w u

  -- The object in the bucket is the handle's.
  abbrev Owns : State → Held → Type 0
  Owns s h = (b : LockObject) × (at s lock.key ≡ some (h.etag, b))

  -- One run at most; the object is its own, and no ended handle has its ETag.
  abbrev pub IsExclusive : World State → Type 0
  IsExclusive w =
      (length w.running ≤ 1)
      × All (λ h. Owns w.bucket h × All (λ e. str_eq e.etag h.etag ≡ false) w.ended) w.running

  Owns-none : (w : World State) → IsExclusive w → at w.bucket lock.key ≡ none → w.running ≡ []
  Owns-none w i e = unowned w.running i.1
    where
      unowned :
          (l : List Held)
          → All (λ h. Owns w.bucket h × All (λ k. str_eq k.etag h.etag ≡ false) w.ended) l
          → l ≡ []
      unowned [] a = refl
      unowned (h ∷ l) a = let o = a.0.0.1 in absurd (cc)

  module _ (laws : IsS3 s3) where
    Step-IsExclusive : (w t : World State) → Step w t → IsExclusive w → IsExclusive t
    unfolding acquire_s3
    Step-IsExclusive w t (acquires payload h e fresh u) i =
        let got = acquired-ok s3 lock (put w.bucket if_none_match lock.key payload) h e in
        let (a, o) =
          put_done s3 lock w.bucket payload h.etag (put w.bucket if_none_match lock.key payload)
            (laws.puts w.bucket if_none_match lock.key payload) got.0 in
        let free = Owns-none w i (allows-if_none_match _ a) in
        rw (u, free) ((omega arith, (((payload, ap (λ s. at s lock.key) got.1 ∙ o), fresh), tt)))
    Step-IsExclusive w t (gives_up payload f e u) i =
        elim (acquired-kept s3 lock w.bucket payload f (put w.bucket if_none_match lock.key payload)
          (laws.puts w.bucket if_none_match lock.key payload) e) [
            | inl same ↦ rw u ((i.0, All-map w.running (λ h k. ((k.0.0, same ∙ k.0.1), k.1)) i.1))
            | inr free ↦ let none_held = Owns-none w i free in rw (u, none_held) ((omega arith, tt))
          ]
    Step-IsExclusive w t (closes before after h e u) i =
        let none_left =
          nil_of_length (before ++ after)
            (alone before after h (subst (λ l. length l ≤ 1) e i.0)) in
        rw (u, none_left) ((omega arith, tt))
    Step-IsExclusive w t (closes_again before after h e u) i = rw u (
        (
          i.0,
          All-map w.running
              (λ k o.
                let (d, rest) =
                  All-exchange (λ x. str_eq x.etag k.etag ≡ false) before after h
                    (handle_after h (close s3 lock h w.bucket).0)
                    (λ n. ap (λ x. str_eq x k.etag) (close-etag s3 lock h w.bucket) ∙ n)
                    (subst (λ l. All (λ x. str_eq x.etag k.etag ≡ false) l) e o.1) in
                ((o.0.0, close-kept s3 lock laws w.bucket h k o.0.0 d o.0.1 ∙ o.0.1), rest))
              i.1,
        ))

    -- Whatever processes do, in any order and with any failure of a request: from a world in
    -- which nobody holds the lock, no two runs ever hold it, and the object in the bucket is the
    -- one of the run that does. For a bucket that honours conditions, if nobody breaks the lock
    -- and no payload is written twice.
    pub Reach-IsExclusive : (w t : World State) → w.running ≡ [] → Reach w t → IsExclusive t
    Reach-IsExclusive w t e here = rw e ((omega arith, tt))
    Reach-IsExclusive w t e (next {t = u} r st) =
        Step-IsExclusive u t st (Reach-IsExclusive w u e r)
