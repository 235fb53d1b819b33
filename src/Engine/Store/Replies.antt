-- ===== src/Engine/Store/Replies.antt =====
-- What the answers of `write` tell a caller about the object that the store keeps.
use terragraph.Prelude.{
  ℕ, ◌≡◌, ◌⊎◌, inl, inr, refl, ◌∙◌, arith, ap, subst, Bool, true, false, not, ◌&&◌, ◌||◌, Str,
  str_eq, str_eq_iff, Option, none, some, is_nil, lookup, Bool-cases, lookup-insert,
  lookup-insert_other,
}
use terragraph.Engine.Store.{
  Io, Object, Store, Reply, ok, missing, conflict, invalid_key, failed, valid_key, read, opened,
  write, write_over, commit, new_revision, spent, replaced,
}

abbrev pub is_ok : {A : Type 0} → Reply A → Bool
is_ok (ok a) = true
is_ok missing = false
is_ok conflict = false
is_ok invalid_key = false
is_ok failed = false

-- The revision is the one the object has, or empty for an object that is not there.
abbrev pub is_revision : {D : Type 0} → Str → Option (Object D) → Bool
is_revision revision none = is_nil revision
is_revision revision (some o) = not (is_nil revision) && str_eq revision o.revision

-- All the steps of a call go well.
abbrev pub is_clean : Io → Bool
is_clean io =
    io.live && io.stat && io.readable && io.staged && io.live_after && io.moved && io.synced

is_nil-str_eq : (a b : Str) → str_eq a b ≡ true → is_nil a ≡ is_nil b
is_nil-str_eq a b e = ap is_nil ((str_eq_iff a b).0 e)

answer_inj : {a r : Str} → ok a ≡ ok r → a ≡ r
answer_inj h = cc

module _ {D : Type 0} where
  -- How a read ends.
  abbrev pub IsRead : Store D → Str → Reply (Object D) → Type 0
  IsRead s key r =
      ((r ≡ missing) × (lookup key s.objects ≡ none))
      ⊎ ((o : Object D) × (r ≡ ok o) × (lookup key s.objects ≡ some o))
      ⊎ (r ≡ invalid_key)
      ⊎ (r ≡ failed)

  opened_cases :
      (io : Io) (s : Store D) (key : Str) (found : Option (Object D))
      → lookup key s.objects ≡ found
      → IsRead s key (opened io found)
  opened_cases io s key none e = inl (refl, e)
  opened_cases io s key (some o) e = elim (Bool-cases io.readable) [
    | inr n ↦ rw n (inr (inr (inr refl)))
    | inl y ↦ elim (Bool-cases (is_nil o.revision)) [
      | inl n ↦ rw (y, n) (inr (inr (inr refl)))
      | inr n ↦ rw (y, n) (inr (inl (o, refl, e)))
    ]
  ]

  -- A read reports what is there, or an error.
  pub read_cases : (io : Io) (s : Store D) (key : Str) → IsRead s key (read io s key)
  unfolding read
  read_cases io s key = elim (Bool-cases io.live) [
    | inr e ↦ rw e (inr (inr (inr refl)))
    | inl l ↦ elim (Bool-cases (valid_key key)) [
      | inr e ↦ rw (l, e) (inr (inr (inl refl)))
      | inl v ↦ elim (Bool-cases io.stat) [
        | inr e ↦ rw (l, v, e) (inr (inr (inr refl)))
        | inl t ↦ rw (l, v, t) (opened_cases io s key (lookup key s.objects) refl)
      ]
    ]
  ]

module _ {D : Type 0} (draw : ℕ → Str) where
  -- How a commit ends.
  abbrev pub IsEnd : Io → Store D → Str → D → Reply Str × Store D → Type 0
  IsEnd io s key c out =
      (out ≡ (failed, spent draw s))
      ⊎ ((io.synced ≡ false) × (out ≡ (failed, replaced draw s key c)))
      ⊎ (out ≡ (ok (new_revision draw s.drawn), replaced draw s key c))

  pub commit_cases :
      (io : Io) (s : Store D) (key : Str) (c : D) → IsEnd io s key c (commit draw io s key c)
  unfolding commit
  commit_cases io s key c = elim (Bool-cases (not io.staged || not io.live_after || not io.moved)) [
    | inl e ↦ rw e (inl refl)
    | inr e ↦ elim (Bool-cases io.synced) [
      | inl y ↦ rw (e, y) (inr (inr refl))
      | inr n ↦ rw (e, n) (inr (inl (refl, refl)))
    ]
  ]

  abbrev pub IsRefused : Store D → Reply Str × Store D → Type 0
  IsRefused s out = (is_ok out.0 ≡ false) × (out.1 ≡ s)

  write_over-missing :
      (io : Io) (s : Store D) (key : Str) (c : D) (revision : Str)
      → IsRefused s (write_over draw io s key c revision missing)
        ⊎ ((is_nil revision ≡ true)
            × (write_over draw io s key c revision missing ≡ commit draw io s key c))
  unfolding write_over
  write_over-missing io s key c revision = elim (Bool-cases (is_nil revision)) [
    | inl e ↦ rw (e, write_over) (inr (refl, refl))
    | inr e ↦ rw (e, write_over) (inl (refl, refl))
  ]

  write_over-found :
      (io : Io) (s : Store D) (key : Str) (c : D) (revision : Str) (o : Object D)
      → IsRefused s (write_over draw io s key c revision (ok o))
        ⊎ ((is_revision revision (some o) ≡ true)
            × (write_over draw io s key c revision (ok o) ≡ commit draw io s key c))
  unfolding write_over
  write_over-found io s key c revision o = elim (Bool-cases (is_nil revision)) [
    | inl e ↦ rw (e, write_over) (inl (refl, refl))
    | inr e ↦ elim (Bool-cases (str_eq revision o.revision)) [
      | inl f ↦ rw (e, f, write_over) (inr (refl, refl))
      | inr f ↦ rw (e, f, write_over) (inl (refl, refl))
    ]
  ]

  -- A write is refused and leaves the store alone, or is a commit under the revision it names.
  pub write_cases :
      (io : Io) (s : Store D) (key : Str) (c : D) (revision : Str)
      → IsRefused s (write draw io s key c revision)
        ⊎ ((is_revision revision (lookup key s.objects) ≡ true)
            × (write draw io s key c revision ≡ commit draw io s key c))
  unfolding write write_over
  write_cases io s key c revision = elim (read_cases io s key) [
    | inl (e, none_there) ↦ rw (e, none_there) (write_over-missing io s key c revision)
    | inr (inl (o, e, there)) ↦ rw (e, there) (write_over-found io s key c revision o)
    | inr (inr (inl e)) ↦ rw e (inl (refl, refl))
    | inr (inr (inr e)) ↦ rw e (inl (refl, refl))
  ]

  -- How a write that is not refused ends, of which the first changes no object.
  abbrev pub IsWritten : Io → Store D → Str → D → Str → Reply Str × Store D → Type 0
  IsWritten io s key c revision out =
      IsRefused s out
      ⊎ ((is_revision revision (lookup key s.objects) ≡ true) × IsEnd io s key c out)

  pub written :
      (io : Io) (s : Store D) (key : Str) (c : D) (revision : Str)
      → IsWritten io s key c revision (write draw io s key c revision)
  written io s key c revision = elim (write_cases io s key c revision) [
    | inl e ↦ inl e
    | inr (m, e) ↦ rw e (inr (m, commit_cases io s key c))
  ]

  -- A write that answers with a revision named the revision that the object had, or none for an
  -- object that was not there; the store then has the new contents under the answered revision,
  -- and every other object as before.
  pub write-ok :
      (io : Io) (s : Store D) (key : Str) (c : D) (revision r : Str)
      → (write draw io s key c revision).0 ≡ ok r
      → (is_revision revision (lookup key s.objects) ≡ true)
        × (lookup key (write draw io s key c revision).1.objects
            ≡ some (record { revision = r; body = c }))
        × ((j : Str)
            → str_eq j key ≡ false
            → lookup j (write draw io s key c revision).1.objects ≡ lookup j s.objects)
  write-ok io s key c revision r = elim (written io s key c revision) [
    | inl (n, e) ↦ λ h. absurd (cc)
    | inr (m, inl e) ↦ λ h. absurd (cc)
    | inr (m, inr (inl (n, e))) ↦ λ h. absurd (cc)
    | inr (m, inr (inr e)) ↦ rw e (λ h. (
      m,
      subst
          (λ a.
            lookup key (replaced draw s key c).objects ≡ some (record { revision = a; body = c }))
          (answer_inj h) (lookup-insert key _ s.objects),
      λ j n. lookup-insert_other key j _ s.objects n,
    ))
  ]

  -- A write that fails leaves every object as it was, unless all that failed is the sync of the
  -- directory after the object was replaced.
  pub write-failed :
      (io : Io) (s : Store D) (key : Str) (c : D) (revision : Str)
      → is_ok (write draw io s key c revision).0 ≡ false
      → ((write draw io s key c revision).1.objects ≡ s.objects)
        ⊎ ((io.synced ≡ false) × ((write draw io s key c revision).1 ≡ replaced draw s key c))
  write-failed io s key c revision = elim (written io s key c revision) [
    | inl (n, e) ↦ λ h. inl (ap (λ t. t.objects) e)
    | inr (m, inl e) ↦ λ h. inl (ap (λ t. t.1.objects) e)
    | inr (m, inr (inl (n, e))) ↦ λ h. inr (n, ap (λ t. t.1) e)
    | inr (m, inr (inr e)) ↦ λ h. absurd (let y = ap (λ t. is_ok t.0) e in cc)
  ]

module _ {D : Type 0} (draw : ℕ → Str) where
  commit-clean :
      (io : Io) (s : Store D) (key : Str) (c : D)
      → is_clean io ≡ true
      → commit draw io s key c ≡ (ok (new_revision draw s.drawn), replaced draw s key c)
  unfolding commit
  commit-clean io s key c h = ground (arith)

  pub read_clean :
      (io : Io) (s : Store D) (key : Str)
      → is_clean io ≡ true
      → valid_key key ≡ true
      → read io s key ≡ opened io (lookup key s.objects)
  unfolding read
  read_clean io s key h v = ground (arith)

  pub opened_at :
      (io : Io) (revision : Str) (o : Object D)
      → is_clean io ≡ true
      → is_revision revision (some o) ≡ true
      → opened io (some o) ≡ ok o
  opened_at io revision o h m = ground (arith, is_nil-str_eq revision o.revision)

  write_over-clean :
      (io : Io) (s : Store D) (key : Str) (c : D) (revision : Str) (found : Option (Object D))
      → is_clean io ≡ true
      → is_revision revision found ≡ true
      → write_over draw io s key c revision (opened io found) ≡ commit draw io s key c
  unfolding write_over
  write_over-clean io s key c revision none h m = ground (arith)
  write_over-clean io s key c revision (some o) h m =
      rw (opened_at io revision o h m) (ground (arith))

  pub write-replaced :
      (io : Io) (s : Store D) (key : Str) (c : D) (revision : Str)
      → is_clean io ≡ true
      → valid_key key ≡ true
      → is_revision revision (lookup key s.objects) ≡ true
      → write draw io s key c revision ≡ (ok (new_revision draw s.drawn), replaced draw s key c)
  unfolding write
  write-replaced io s key c revision h v m =
      ap (write_over draw io s key c revision) (read_clean io s key h v)
      ∙ write_over-clean io s key c revision (lookup key s.objects) h m
      ∙ commit-clean io s key c h

  -- A write whose every step goes well succeeds if its key is valid and it names the object's
  -- revision, or none for an object that is not there.
  pub write-clean :
      (io : Io) (s : Store D) (key : Str) (c : D) (revision : Str)
      → is_clean io ≡ true
      → valid_key key ≡ true
      → is_revision revision (lookup key s.objects) ≡ true
      → (write draw io s key c revision).0 ≡ ok (new_revision draw s.drawn)
  write-clean io s key c revision h v m = ap (λ t. t.0) (write-replaced io s key c revision h v m)
