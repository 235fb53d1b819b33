-- ===== src/Engine/Store/Contract.antt =====
-- The interface executionStore of internal/engine/execution_store.go, as a contract on what a
-- store holds under each key: the local store keeps it.
use terragraph.Prelude.{
  ℕ, ◌≡◌, ◌⊎◌, inl, inr, refl, arith, true, false, not, ◌||◌, if_elim, Str, str_eq, Option, none,
  some, is_nil, lookup, erase, lookup-insert, lookup-insert_other, lookup-erase, lookup-erase_other,
}
use terragraph.Engine.Store.{
  Io, Object, Store, Reply, ok, missing, conflict, invalid_key, failed, Done, done, write, commit,
  replaced, remove, remove_at, new_revision,
}
use terragraph.Engine.Store.Replies.{is_ok, is_revision, commit_cases, write_cases, read_cases}

-- What each key holds, with its revision.
abbrev pub View : Type 0 → Type 0
View D = Str → Option (Object D)

module _ {D : Type 0} where
  -- Nothing under other keys changes.
  abbrev pub IsElsewhere : View D → Str → View D → Type 0
  IsElsewhere before key after = (j : Str) → str_eq j key ≡ false → after j ≡ before j

  -- A write changes nothing and fails, or replaces the object that had the named revision, or
  -- none for the empty one; the new revision is answered, or an error that hides it.
  abbrev pub IsWrite : View D → Str → Str → D → Reply Str → View D → Type 0
  IsWrite before key revision body reply after =
      IsElsewhere before key after
      × (((is_ok reply ≡ false) × (after key ≡ before key))
          ⊎ ((is_revision revision (before key) ≡ true)
              × ((r : Str) × (after key ≡ some (record { revision = r; body = body }))
                  × ((reply ≡ ok r) ⊎ (is_ok reply ≡ false)))))

  -- A removal changes nothing and fails, or removes the object that had the named revision; then
  -- it succeeds, or an error hides that.
  abbrev pub IsRemoval : View D → Str → Str → Reply Done → View D → Type 0
  IsRemoval before key revision reply after =
      IsElsewhere before key after
      × (((is_ok reply ≡ false) × (after key ≡ before key))
          ⊎ ((is_revision revision (before key) ≡ true) × (after key ≡ none)))

  abbrev pub view : Store D → View D
  view s key = lookup key s.objects

module _ {D : Type 0} (draw : ℕ → Str) where
  abbrev IsWritten : Store D → Str → Str → D → Reply Str × Store D → Type 0
  IsWritten s key revision body out = IsWrite (view s) key revision body out.0 (view out.1)

  commit-IsWrite :
      (io : Io) (s : Store D) (key : Str) (c : D) (revision : Str)
      → is_revision revision (lookup key s.objects) ≡ true
      → IsWritten s key revision c (commit draw io s key c)
  commit-IsWrite io s key c revision m = elim (commit_cases draw io s key c) [
    | inl e ↦ rw e ((λ j d. refl), inl (refl, refl))
    | inr (inl (n, e)) ↦ rw e (new_object failed (inr refl))
    | inr (inr e) ↦ rw e (new_object (ok (new_revision draw s.drawn)) (inl refl))
  ]
    where
      new_object :
          (reply : Reply Str)
          → (reply ≡ ok (new_revision draw s.drawn)) ⊎ (is_ok reply ≡ false)
          → IsWrite (view s) key revision c reply (view (replaced draw s key c))
      new_object reply how = (
        (λ j d. lookup-insert_other key j _ s.objects d),
        inr (m, (new_revision draw s.drawn, lookup-insert key _ s.objects, how)),
      )

  write-IsWrite :
      (io : Io) (s : Store D) (key : Str) (c : D) (revision : Str)
      → IsWritten s key revision c (write draw io s key c revision)
  write-IsWrite io s key c revision = elim (write_cases draw io s key c revision) [
    | inl (n, e) ↦ rw e ((λ j d. refl), inl (n, refl))
    | inr (m, e) ↦ rw e (commit-IsWrite io s key c revision m)
  ]

module _ {D : Type 0} where
  abbrev IsRemoved : Store D → Str → Str → Reply Done × Store D → Type 0
  IsRemoved s key revision out = IsRemoval (view s) key revision out.0 (view out.1)

  remove_at-IsRemoval :
      (io : Io) (s : Store D) (key revision : Str) (o : Object D)
      → lookup key s.objects ≡ some o
      → IsRemoved s key revision (remove_at io s key revision (ok o))
  unfolding remove_at
  remove_at-IsRemoval io s key revision o e =
      if_elim (IsRemoved s key revision) (is_nil revision || not (str_eq revision o.revision))
        (λ _. unchanged conflict refl)
        (λ n.
          if_elim (IsRemoved s key revision) (not io.moved) (λ _. unchanged failed refl)
            (λ _.
              if_elim (IsRemoved s key revision) (not io.synced) (λ _. gone failed n)
                (λ _. gone (ok done) n)))
    where
      unchanged : (r : Reply Done) → is_ok r ≡ false → IsRemoval (view s) key revision r (view s)
      unchanged r h = ((λ j d. refl), inl (h, refl))

      gone :
          (r : Reply Done)
          → (is_nil revision || not (str_eq revision o.revision)) ≡ false
          → IsRemoval (view s) key revision r (λ j. lookup j (erase key s.objects))
      gone r n = (
        (λ j d. lookup-erase_other key j s.objects d),
        inr (rw e (ground (arith)), lookup-erase key s.objects),
      )

  remove-IsRemoval :
      (io : Io) (s : Store D) (key revision : Str)
      → IsRemoved s key revision (remove io s key revision)
  unfolding remove remove_at
  remove-IsRemoval io s key revision = elim (read_cases io s key) [
    | inl (e, n) ↦ rw e (kept missing refl)
    | inr (inl (o, e, there)) ↦ rw e (remove_at-IsRemoval io s key revision o there)
    | inr (inr (inl e)) ↦ rw e (kept invalid_key refl)
    | inr (inr (inr e)) ↦ rw e (kept failed refl)
  ]
    where
      kept : (r : Reply Done) → is_ok r ≡ false → IsRemoval (view s) key revision r (view s)
      kept r h = ((λ j d. refl), inl (h, refl))

-- The local store keeps the contract of a store: each write and each removal, with any failure
-- of the system, does under its key what the contract allows, and nothing under other keys.
pub local_store-keeps_contract :
    {D : Type 0} (draw : ℕ → Str) (io : Io) (s : Store D) (key revision : Str) (c : D)
    → IsWrite
        (view s)
        key
        revision
        c
        (write draw io s key c revision).0
        (view (write draw io s key c revision).1)
      × IsRemoval
          (view s)
          key
          revision
          (remove io s key revision).0
          (view (remove io s key revision).1)
local_store-keeps_contract draw io s key revision c =
    (write-IsWrite draw io s key c revision, remove-IsRemoval io s key revision)
