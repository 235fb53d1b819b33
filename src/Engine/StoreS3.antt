-- ===== src/Engine/StoreS3.antt =====
-- internal/engine/execution_store_s3.go: the execution store on S3. The client is the parameter
-- `s3`; the body of an object there carries a fresh revision, and its ETag is the revision that
-- callers see. The deadline of a context shows in the answers of the client.
pub mod Contract
use terragraph.Prelude.{
  ℕ, Bool, true, false, not, ◌&&◌, ◌||◌, ◌==◌, Str, bytes, str_eq, List, [], ◌∷◌, ◌++◌, Option,
  none, some, is_nil, if◌then◌else◌, keep, map, sort, reverse, has_prefix,
}
use terragraph.S3.{
  Client, Answer, Code, Condition, if_none_match, if_match, Nothing, nothing, failure, no_such_key,
  not_found, precondition_failed, conditional_request_conflict, other_code,
}
use terragraph.Engine.Store.{
  Object, Reply, ok, missing, conflict, invalid_key, failed, Done, done, valid_key, after_prefix,
}

-- strings.Trim of slashes.
unfoldable pub drop_slashes : Str → Str
drop_slashes [] = []
drop_slashes (c ∷ s) = let rest = drop_slashes s in if c == 47 then rest else c ∷ s

abbrev pub trim_slashes : Str → Str
trim_slashes s = reverse (drop_slashes (reverse (drop_slashes s)))

-- openS3ExecutionStore: the prefix of the store's keys, or `none` for an incomplete setting.
unfoldable pub open_prefix : Str → Str → Str → Option Str
open_prefix bucket prefix region =
    if is_nil bucket || is_nil region || is_nil (trim_slashes prefix)
    then none
    else some (trim_slashes prefix ++ bytes "/")

-- executionS3Error, of an error.
unfoldable pub execution_error : {A : Type 0} → Code → Reply A
execution_error no_such_key = missing
execution_error not_found = missing
execution_error precondition_failed = conflict
execution_error conditional_request_conflict = conflict
execution_error other_code = failed

-- strings.TrimPrefix
abbrev trim_prefix : Str → Str → Str
trim_prefix prefix s = if has_prefix s prefix then after_prefix prefix s else s

abbrev pub condition_of : Str → Condition
condition_of revision = if is_nil revision then if_none_match else if_match revision

module _ {D : Type 0} (s3 : Client (Object D)) (prefix : Str) where
  open s3 use {State, put, get, delete, keys}

  abbrev got : Bool → Answer (Str × Object D) → Reply (Object D)
  got readable (failure code) = execution_error code
  got readable (Answer.done o) =
      if not readable
      then failed
      else if is_nil o.1.revision || is_nil o.0
      then failed
      else ok (record { revision = o.0; body = o.1.body })

  -- (s3ExecutionStore).read; `readable` is false for a body that is too large or not decoded.
  unfoldable pub read_s3 : Bool → State → Str → Reply (Object D)
  read_s3 readable s key =
      if not (valid_key key) then invalid_key else got readable (get s (prefix ++ key))

  abbrev pub written : Answer Str × State → Reply Str × State
  written (failure code, s) = (execution_error code, s)
  written (Answer.done etag, s) = if is_nil etag then (failed, s) else (ok etag, s)

  -- (s3ExecutionStore).write; `fits` is false for a body beyond the limit, and `fresh` is the
  -- revision drawn for the body.
  unfoldable pub write_s3 : Bool → Str → State → Str → D → Str → Reply Str × State
  write_s3 fits fresh s key contents revision =
      if not (valid_key key)
      then (invalid_key, s)
      else if not fits
      then (failed, s)
      else written (
          put s (condition_of revision) (prefix ++ key)
            (record { revision = fresh; body = contents }))

  abbrev pub removed : Answer Nothing × State → Reply Done × State
  removed (failure code, s) = (execution_error code, s)
  removed (Answer.done n, s) = (ok done, s)

  -- (s3ExecutionStore).remove
  unfoldable pub remove_s3 : State → Str → Str → Reply Done × State
  remove_s3 s key revision =
      if not (valid_key key)
      then (invalid_key, s)
      else if is_nil revision
      then (conflict, s)
      else removed (delete s (if_match revision) (prefix ++ key))

  abbrev listed : Answer (List Str) → Reply (List Str)
  listed (failure code) = execution_error code
  listed (Answer.done found) = ok (sort (keep valid_key (map (trim_prefix prefix) found)))

  -- (s3ExecutionStore).list
  unfoldable pub list_s3 : State → Reply (List Str)
  list_s3 s = listed (keys s prefix)
