-- ===== src/S3.antt =====
-- The S3 client of aws-sdk-go-v2, which is not part of the repository: its operations are the
-- fields of `Client`, and `IsS3` is what S3 documents of conditional requests, on which
-- internal/engine/execution_store_s3.go and internal/graphlock/s3.go rely.
use terragraph.Prelude.{◌≡◌, ◌⊎◌, Bool, true, false, Str, str_eq, List, Option, none, some}

-- IfNoneMatch "*", IfMatch, or neither.
pub data Condition : Type 0 where
  always if_none_match : Condition
  if_match : Str → Condition

-- The error codes that the code tells apart.
pub data Code : Type 0 where
  no_such_key not_found precondition_failed conditional_request_conflict other_code : Code

pub data Answer (A : Type 0) : Type 0 where
  done : A → Answer A
  failure : Code → Answer A

-- Nothing but success.
pub data Nothing : Type 0 where
  nothing : Nothing

pub record Client (B : Type 0) : Type 1 where
  pub State : Type 0
  -- What the bucket holds under a key: the ETag and the body.
  pub at : State → Str → Option (Str × B)
  pub put : State → Condition → Str → B → Answer Str × State
  pub get : State → Str → Answer (Str × B)
  pub delete : State → Condition → Str → Answer Nothing × State
  -- The keys under a prefix, of all pages.
  pub keys : State → Str → Answer (List Str)

-- Whether a request with the condition may go through.
abbrev pub allows {ℓ} : {A : Type ℓ} → Condition → Option (Str × A) → Bool
allows always found = true
allows if_none_match none = true
allows if_none_match (some o) = false
allows (if_match etag) none = false
allows (if_match etag) (some o) = str_eq etag o.0

-- The request was refused by its condition.
abbrev pub is_refusal : Code → Bool
is_refusal precondition_failed = true
is_refusal conditional_request_conflict = true
is_refusal _ = false

module _ {B : Type 0} (s3 : Client B) where
  open s3 use {State, at, put, get, delete}

  abbrev pub IsElsewhere : State → Str → State → Type 0
  IsElsewhere s key t = (j : Str) → str_eq j key ≡ false → at t j ≡ at s j

  -- Nothing happened under the key.
  abbrev IsKept : State → Str → State → Type 0
  IsKept s key t = at t key ≡ at s key

  abbrev pub IsPut : State → Condition → Str → B → Answer Str × State → Type 0
  IsPut s condition key b (done etag, t) =
      (allows condition (at s key) ≡ true) × (at t key ≡ some (etag, b))
  IsPut s condition key b (failure code, t) =
      IsKept s key t
      ⊎ ((allows condition (at s key) ≡ true)
          × (is_refusal code ≡ false)
          × ((etag : Str) × (at t key ≡ some (etag, b))))

  abbrev pub IsDelete : State → Condition → Str → Answer Nothing × State → Type 0
  IsDelete s condition key (done n, t) = (allows condition (at s key) ≡ true) × (at t key ≡ none)
  IsDelete s condition key (failure code, t) =
      IsKept s key t
      ⊎ ((allows condition (at s key) ≡ true) × (is_refusal code ≡ false) × (at t key ≡ none))

  -- A conditional request goes through only if its condition holds; one that is answered with an
  -- error may have gone through all the same, if the error is not a refusal.
  pub record IsS3 : Type 0 where
    pub puts : (s : State) (c : Condition) (key : Str) (b : B) → IsPut s c key b (put s c key b)
    pub puts_elsewhere :
        (s : State) (c : Condition) (key : Str) (b : B) → IsElsewhere s key (put s c key b).1
    pub deletes : (s : State) (c : Condition) (key : Str) → IsDelete s c key (delete s c key)
    pub deletes_elsewhere :
        (s : State) (c : Condition) (key : Str) → IsElsewhere s key (delete s c key).1
