-- ===== src/Engine/Store.antt =====
-- internal/engine/execution_store.go: the protected directory that keeps execution records and
-- plan bytes, each object under a revision that a writer has to name. The files, their
-- encoding and the clock of a context are outside: `Io` says how each of those steps came out.
-- crypto/rand under hex is the parameter `draw`, the n-th text of a process's history.
pub mod Replies
pub mod Elsewhere
pub mod Revisions
pub mod Contract
use terragraph.Prelude.{
  zero, leb, ℕ, suc, ◌+◌, ◌≤◌, Bool, true, false, not, ◌&&◌, ◌||◌, Str, bytes, str_eq, List, [],
  ◌∷◌, ◌++◌, Option, none, some, if◌then◌else◌, is_nil, lookup, insert, erase, has_prefix, keep,
  map, sort,
}

-- What the system answers to the steps of one call.
pub record Io : Type 0 where
  -- ctx.Err() is nil when the call starts.
  pub live : Bool
  -- Lstat answers, be it with "does not exist".
  pub stat : Bool
  -- The object is a regular file of a size within the limit that opens, reads and decodes.
  pub readable : Bool
  -- The new object encodes within the limit, and its temporary file is written, synced, closed.
  pub staged : Bool
  -- ctx.Err() is still nil.
  pub live_after : Bool
  -- Rename or Remove of the object's file.
  pub moved : Bool
  -- The directory is synced.
  pub synced : Bool

pub record Object (D : Type 0) : Type 0 where
  pub revision : Str
  pub body : D

-- `drawn` counts the identifiers drawn so far.
pub record Store (D : Type 0) : Type 0 where
  pub objects : List (Str × Object D)
  pub drawn : ℕ

pub data Reply (A : Type 0) : Type 0 where
  ok : A → Reply A
  missing conflict invalid_key failed : Reply A

-- The nil error of a call that returns nothing else.
pub data Done : Type 0 where
  done : Done

abbrev is_hex : ℕ → Bool
is_hex c =
    str_eq (c ∷ []) (bytes "a")
    || str_eq (c ∷ []) (bytes "b")
    || str_eq (c ∷ []) (bytes "c")
    || str_eq (c ∷ []) (bytes "d")
    || str_eq (c ∷ []) (bytes "e")
    || str_eq (c ∷ []) (bytes "f")
    || leb 48 c && leb c 57

-- [a-f0-9]{n} and then \.(json|bin) to the end.
unfoldable pub is_hex_name : ℕ → Str → Bool
is_hex_name zero s = str_eq s (bytes ".json") || str_eq s (bytes ".bin")
is_hex_name (suc n) [] = false
is_hex_name (suc n) (c ∷ s) = is_hex c && is_hex_name n s

abbrev pub after_prefix : Str → Str → Str
after_prefix [] s = s
after_prefix (p ∷ ps) [] = []
after_prefix (p ∷ ps) (c ∷ s) = after_prefix ps s

-- executionKeyPattern, checkExecutionKey
unfoldable pub valid_key : Str → Bool
valid_key key =
    has_prefix key (bytes "run-") && is_hex_name 32 (after_prefix (bytes "run-") key)
    || has_prefix key (bytes "plan-") && is_hex_name 32 (after_prefix (bytes "plan-") key)

module _ {D : Type 0} where
  abbrev pub opened : Io → Option (Object D) → Reply (Object D)
  opened io none = missing
  opened io (some o) =
      if not io.readable then failed else if is_nil o.revision then failed else ok o

  -- (localExecutionStore).readLocked
  unfoldable pub read : Io → Store D → Str → Reply (Object D)
  read io s key =
      if not io.live
      then failed
      else if not (valid_key key)
      then invalid_key
      else if not io.stat
      then failed
      else opened io (lookup key s.objects)

-- newExecutionID("rev") for the n-th draw.
abbrev pub new_revision : (ℕ → Str) → ℕ → Str
new_revision draw n = bytes "rev-" ++ draw n

module _ {D : Type 0} (draw : ℕ → Str) where
  abbrev pub spent : Store D → Store D
  spent s = record s { drawn = suc s.drawn }

  abbrev pub replaced : Store D → Str → D → Store D
  replaced s key contents = record {
    objects =
        insert key (record { revision = new_revision draw s.drawn; body = contents }) s.objects;
    drawn = suc s.drawn;
  }

  -- The rest of write once the revision is accepted: a directory that fails to sync is reported,
  -- though the object is already in place.
  unfoldable pub commit : Io → Store D → Str → D → Reply Str × Store D
  commit io s key contents =
      if not io.staged || not io.live_after || not io.moved
      then (failed, spent s)
      else if not io.synced
      then (failed, replaced s key contents)
      else (ok (new_revision draw s.drawn), replaced s key contents)

  unfoldable pub write_over : Io → Store D → Str → D → Str → Reply (Object D) → Reply Str × Store D
  write_over io s key contents revision missing =
      if is_nil revision then commit io s key contents else (conflict, s)
  write_over io s key contents revision (ok old) =
      if is_nil revision || not (str_eq revision old.revision)
      then (conflict, s)
      else commit io s key contents
  write_over io s key contents revision invalid_key = (invalid_key, s)
  write_over io s key contents revision conflict = (conflict, s)
  write_over io s key contents revision failed = (failed, s)

  -- (localExecutionStore).write
  unfoldable pub write : Io → Store D → Str → D → Str → Reply Str × Store D
  write io s key contents revision = write_over io s key contents revision (read io s key)

module _ {D : Type 0} where
  unfoldable pub remove_at : Io → Store D → Str → Str → Reply (Object D) → Reply Done × Store D
  remove_at io s key revision (ok old) =
      if is_nil revision || not (str_eq revision old.revision)
      then (conflict, s)
      else if not io.moved
      then (failed, s)
      else let gone : Store D = record s { objects = erase key s.objects } in
        if not io.synced then (failed, gone) else (ok done, gone)
  remove_at io s key revision missing = (missing, s)
  remove_at io s key revision conflict = (conflict, s)
  remove_at io s key revision invalid_key = (invalid_key, s)
  remove_at io s key revision failed = (failed, s)

  -- (localExecutionStore).remove
  unfoldable pub remove : Io → Store D → Str → Str → Reply Done × Store D
  remove io s key revision = remove_at io s key revision (read io s key)

  -- (localExecutionStore).list, in a directory of regular files.
  unfoldable pub list : Io → Store D → Reply (List Str)
  list io s =
      if not io.live || not io.readable
      then failed
      else ok (sort (keep valid_key (map (λ e. e.0) s.objects)))
