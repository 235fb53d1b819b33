-- ===== src/GraphLock.antt =====
-- internal/graphlock: the lock object on S3 that serialises runs across machines. The client is
-- the parameter `s3`; opening it, the clock and the names of user and host are outside.
pub mod Requests
pub mod Exclusion
use terragraph.Prelude.{
  ℕ, Bool, true, false, not, ◌&&◌, ◌||◌, Str, List, [], ◌∷◌, Option, none, some, is_nil,
  if◌then◌else◌,
}
use terragraph.S3.{
  Client, Answer, done, failure, Code, Condition, always, if_none_match, if_match, Nothing, nothing,
  precondition_failed, conditional_request_conflict, is_refusal,
}

-- The payload; `info` is a constant text.
pub record LockObject : Type 0 where
  pub who : Str
  pub created : Str

-- blueprint.S3Lock
pub record S3Lock : Type 0 where
  pub bucket : Str
  pub key : Str
  pub region : Str

-- s3Held, of the bucket and key of the lock.
pub record Held : Type 0 where
  pub etag : Str
  pub closed : Bool

pub data Failure : Type 0 where
  -- ErrHeld, with the holder and the time where they could be read.
  held_by : Str → Str → Failure
  no_etag missing_etag no_backend : Failure
  request_failed : Code → Failure

pub data Result (A : Type 0) : Type 0 where
  ok : A → Result A
  error : Failure → Result A

-- isPreconditionFailed, isHeld
abbrev pub is_precondition_failed : Code → Bool
is_precondition_failed precondition_failed = true
is_precondition_failed _ = false

abbrev pub is_held : Code → Bool
is_held code = is_refusal code

module _ (s3 : Client LockObject) where
  open s3 use {State, put, get, delete}

  abbrev holder_of : Answer (Str × LockObject) → Str × Str
  holder_of (failure code) = ([], [])
  holder_of (done o) = (o.1.who, o.1.created)

  -- readLockHolder
  unfoldable pub read_lock_holder : State → S3Lock → Str × Str
  read_lock_holder s lock = holder_of (get s lock.key)

  -- heldError: a holder is shown only if both texts are known.
  unfoldable pub held_error : State → S3Lock → Failure
  held_error s lock =
      let h = read_lock_holder s lock in
      if not (is_nil h.0) && not (is_nil h.1) then held_by h.0 h.1 else held_by [] []

  abbrev pub after_cleanup : Answer Nothing × State → Result Held × State
  after_cleanup (done n, s) = (error no_etag, s)
  after_cleanup (failure code, s) = (error (request_failed code), s)

  unfoldable pub acquired : S3Lock → Answer Str × State → Result Held × State
  acquired lock (failure code, s) =
      if is_held code then (error (held_error s lock), s) else (error (request_failed code), s)
  acquired lock (done etag, s) =
      if is_nil etag
      then after_cleanup (delete s always lock.key)
      else (ok (record { etag = etag; closed = false }), s)

  -- (s3Backend).Acquire with the payload of this run.
  unfoldable pub acquire_s3 : S3Lock → LockObject → State → Result Held × State
  acquire_s3 lock payload s = acquired lock (put s if_none_match lock.key payload)

  abbrev pub closing : Held → Answer Nothing × State → Result Held × State
  closing h (done n, s) = (ok (record h { closed = true }), s)
  closing h (failure code, s) =
      if is_precondition_failed code
      then (ok (record h { closed = true }), s)
      else (error (request_failed code), s)

  -- (s3Held).Close: the handle after it, or the error and the handle unchanged.
  unfoldable pub close : S3Lock → Held → State → Result Held × State
  close lock h s =
      if h.closed
      then (ok h, s)
      else if is_nil h.etag
      then (error missing_etag, s)
      else closing h (delete s (if_match h.etag) lock.key)

  abbrev released : Answer Nothing × State → Result Nothing × State
  released (done n, s) = (ok nothing, s)
  released (failure code, s) = (error (request_failed code), s)

  -- (s3Backend).Release, behind force-unlock.
  unfoldable pub release_s3 : S3Lock → State → Result Nothing × State
  release_s3 lock s = released (delete s always lock.key)

  abbrev taken : Result Held × State → Result (Option Held) × State
  taken (ok h, t) = (ok (some h), t)
  taken (error f, t) = (error f, t)

  -- Acquire, of a lock block and the s3 block in it: without a lock block nothing is taken.
  unfoldable pub acquire :
      Option (Option S3Lock) → LockObject → State → Result (Option Held) × State
  acquire none payload s = (ok none, s)
  acquire (some none) payload s = (error no_backend, s)
  acquire (some (some lock)) payload s = taken (acquire_s3 lock payload s)

  -- Release
  unfoldable pub release : Option (Option S3Lock) → State → Result Nothing × State
  release none s = (ok nothing, s)
  release (some none) s = (error no_backend, s)
  release (some (some lock)) s = release_s3 lock s

  -- Holder
  unfoldable pub holder : Option (Option S3Lock) → State → Str × Str
  holder none s = ([], [])
  holder (some none) s = ([], [])
  holder (some (some lock)) s = read_lock_holder s lock
