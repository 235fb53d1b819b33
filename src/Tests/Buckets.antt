-- ===== src/Tests/Buckets.antt =====
-- A bucket in memory that honours conditions, and the graph lock in it.
use terragraph.Prelude.{
  ℕ, suc, ◌≡◌, inl, refl, false, if_elim, Str, bytes, str_eq, List, [], ◌∷◌, Option, none, some,
  if◌then◌else◌, lookup, insert, erase, keep, map, lookup-insert, lookup-insert_other, lookup-erase,
  lookup-erase_other, has_prefix,
}
use terragraph.S3.{
  Client, IsS3, IsPut, IsDelete, Answer, done, failure, Condition, Nothing, nothing, allows,
  precondition_failed, no_such_key,
}
use terragraph.GraphLock.{
  LockObject, S3Lock, Held, ok, error, acquire_s3, acquired, close, held_error, read_lock_holder,
  held_by,
}
use terragraph.GraphLock.Exclusion.{World, acquires, here, next, IsExclusive, Reach-IsExclusive}

-- `puts` counts the objects written; the ETag is a text of that number.
pub record Bucket (B : Type 0) : Type 0 where
  pub held : List (Str × (Str × B))
  pub puts : ℕ

module _ {B : Type 0} where
  unfoldable pub put_object : Bucket B → Condition → Str → B → Answer Str × Bucket B
  put_object s c key b =
      if allows c (lookup key s.held)
      then (
        done (suc s.puts ∷ []),
        record { held = insert key (suc s.puts ∷ [], b) s.held; puts = suc s.puts },
      )
      else (failure precondition_failed, s)

  abbrev found : Option (Str × B) → Answer (Str × B)
  found none = failure no_such_key
  found (some o) = done o

  unfoldable pub delete_object : Bucket B → Condition → Str → Answer Nothing × Bucket B
  delete_object s c key =
      if allows c (lookup key s.held)
      then (done nothing, record s { held = erase key s.held })
      else (failure precondition_failed, s)

abbrev pub memory : {B : Type 0} → Client B
memory {B = B} = record {
  State = Bucket B;
  at = λ s key. lookup key s.held;
  put = put_object;
  get = λ s key. found (lookup key s.held);
  delete = delete_object;
  keys = λ s prefix. done (keep (λ key. has_prefix key prefix) (map (λ e. e.0) s.held));
}

module _ {B : Type 0} where
  pub memory-IsS3 : IsS3 (memory {B = B})
  unfolding put_object delete_object
  memory-IsS3 = record {
    puts = λ s c key b.
        if_elim (IsPut (memory {B = B}) s c key b) (allows c (lookup key s.held))
          (λ e. (e, lookup-insert key _ s.held)) (λ _. inl refl);
    puts_elsewhere = λ s c key b.
        if_elim
          (λ (r : Answer Str × Bucket B).
            (j : Str) → str_eq j key ≡ false → lookup j r.1.held ≡ lookup j s.held)
          (allows c (lookup key s.held)) (λ e j d. lookup-insert_other key j _ s.held d)
          (λ _ j d. refl);
    deletes = λ s c key.
        if_elim (IsDelete (memory {B = B}) s c key) (allows c (lookup key s.held))
          (λ e. (e, lookup-erase key s.held)) (λ _. inl refl);
    deletes_elsewhere = λ s c key.
        if_elim
          (λ (r : Answer Nothing × Bucket B).
            (j : Str) → str_eq j key ≡ false → lookup j r.1.held ≡ lookup j s.held)
          (allows c (lookup key s.held)) (λ e j d. lookup-erase_other key j s.held d)
          (λ _ j d. refl);
  }

program : Unit {0}
unfolding put_object delete_object acquire_s3 acquired close held_error read_lock_holder lookup
    insert erase str_eq
program = tt

abbrev lock : S3Lock
lock = record { bucket = bytes "state"; key = bytes "graph.lock"; region = bytes "eu-west-1" }

abbrev payload : LockObject
payload = record { who = bytes "ci@runner"; created = bytes "2026-01-01T00:00:00Z" }

abbrev empty : Bucket LockObject
empty = record { held = []; puts = 0 }

abbrev handle : Held
handle = record { etag = 1 ∷ []; closed = false }

abbrev locked : Bucket LockObject
locked = (acquire_s3 memory lock payload empty).1

acquired_first : (acquire_s3 memory lock payload empty).0 ≡ ok handle
unfolding program
acquired_first = refl

refused_second :
    (acquire_s3 memory lock payload locked).0 ≡ error (held_by payload.who payload.created)
unfolding program
refused_second = refl

abbrev start : World (Bucket LockObject)
start = record { bucket = empty; running = []; ended = [] }

abbrev taken : World (Bucket LockObject)
taken = record { bucket = locked; running = handle ∷ []; ended = [] }

Reach-IsExclusive_example : IsExclusive memory lock taken
Reach-IsExclusive_example =
    Reach-IsExclusive memory lock memory-IsS3 start taken refl
      (next here (acquires payload handle acquired_first tt refl))
