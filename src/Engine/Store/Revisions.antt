-- ===== src/Engine/Store/Revisions.antt =====
-- Revisions never come back: over any history of calls, an object under a known revision is
-- the object that was written under it.
use terragraph.Prelude.{
  ℕ, suc, ◌≤◌, ◌<◌, ◌≡◌, ◌⊎◌, inl, inr, refl, sym, ◌∙◌, arith, ap, subst, true, not, ◌||◌, Str,
  bytes, str_eq, str_eq_iff, List, [], ◌∷◌, ◌++◌, none, some, is_nil, lookup, erase, Bool-cases,
  lookup-insert, lookup-insert_other, lookup-erase, lookup-erase_other,
}
use terragraph.Engine.Store.{
  Io, Object, Store, Reply, ok, missing, conflict, invalid_key, failed, read, write, commit,
  new_revision, replaced, remove, remove_at,
}
use terragraph.Engine.Store.Replies.{commit_cases, write_cases, IsEnd}

some_inj : {A : Type 0} {a b : A} → some a ≡ some b → a ≡ b
some_inj h = cc

tail_inj : {a b : Str} → bytes "rev-" ++ a ≡ bytes "rev-" ++ b → a ≡ b
tail_inj h = cc

-- A call that may change a store.
pub data Call (D : Type 0) : Type 0 where
  write_call : Io → Str → D → Str → Call D
  remove_call : Io → Str → Str → Call D

module _ {D : Type 0} (draw : ℕ → Str) where
  unfoldable pub run : List (Call D) → Store D → Store D
  run [] s = s
  run (write_call io key contents revision ∷ rest) s =
      run rest (write draw io s key contents revision).1
  run (remove_call io key revision ∷ rest) s = run rest (remove io s key revision).1

  -- What a call does to the objects: nothing, one replaced under a fresh revision, one erased.
  abbrev IsStep : Store D → Store D → Type 0
  IsStep s t =
      ((t.objects ≡ s.objects) × (s.drawn ≤ t.drawn))
      ⊎ ((key : Str) × (c : D) × (t ≡ replaced draw s key c))
      ⊎ ((key : Str) × (t ≡ record s { objects = erase key s.objects }))

  abbrev IsDrawn : ℕ → ℕ → Object D → Type 0
  IsDrawn m d o = (n : ℕ) × (m ≤ n) × (n < d) × (o.revision ≡ new_revision draw n)

  -- Each object is an old one or has a revision of the draws from `m` on.
  abbrev Kept : (Str → Object D → Type 0) → ℕ → Store D → Type 0
  Kept Old m s =
      (m ≤ s.drawn)
      × ((k : Str) (o : Object D) → lookup k s.objects ≡ some o → Old k o ⊎ IsDrawn m s.drawn o)

  -- Every revision in the store was drawn.
  abbrev pub IsStore : Store D → Type 0
  IsStore s = (k : Str) (o : Object D) → lookup k s.objects ≡ some o → IsDrawn 0 s.drawn o

  write-IsStep :
      (io : Io) (s : Store D) (key : Str) (c : D) (revision : Str)
      → IsStep s (write draw io s key c revision).1
  write-IsStep io s key c revision = elim (write_cases draw io s key c revision) [
    | inl (n, e) ↦ rw e (inl (refl, omega arith))
    | inr (m, e) ↦ rw e (ended (commit_cases draw io s key c))
  ]
    where
      ended : IsEnd draw io s key c (commit draw io s key c) → IsStep s (commit draw io s key c).1
      ended (inl e) = rw e (inl (refl, omega arith))
      ended (inr (inl (n, e))) = rw e (inr (inl (key, c, refl)))
      ended (inr (inr e)) = rw e (inr (inl (key, c, refl)))

  remove_at-IsStep :
      (io : Io) (s : Store D) (key revision : Str) (r : Reply (Object D))
      → IsStep s (remove_at io s key revision r).1
  unfolding remove_at
  remove_at-IsStep io s key revision missing = inl (refl, omega arith)
  remove_at-IsStep io s key revision conflict = inl (refl, omega arith)
  remove_at-IsStep io s key revision invalid_key = inl (refl, omega arith)
  remove_at-IsStep io s key revision failed = inl (refl, omega arith)
  remove_at-IsStep io s key revision (ok old) =
      elim (Bool-cases (is_nil revision || not (str_eq revision old.revision))) [
        | inl e ↦ rw e (inl (refl, omega arith))
        | inr e ↦ elim (Bool-cases io.moved) [
          | inr f ↦ rw (e, f) (inl (refl, omega arith))
          | inl f ↦ elim (Bool-cases io.synced) [
            | inl g ↦ rw (e, f, g) (inr (inr (key, refl)))
            | inr g ↦ rw (e, f, g) (inr (inr (key, refl)))
          ]
        ]
      ]

  lookup-replaced :
      (s : Store D) (key : Str) (c : D) (k : Str) (o : Object D)
      → lookup k (replaced draw s key c).objects ≡ some o
      → (lookup k s.objects ≡ some o) ⊎ IsDrawn s.drawn (suc s.drawn) o
  lookup-replaced s key c k o h = elim (Bool-cases (str_eq k key)) [
    | inr n ↦ inl (sym (lookup-insert_other key k _ s.objects n) ∙ h)
    | inl e ↦ inr (s.drawn, omega arith, omega arith, sym (same e))
  ]
    where
      same : str_eq k key ≡ true → new_revision draw s.drawn ≡ o.revision
      same e =
          let found =
            lookup-insert key (record { revision = new_revision draw s.drawn; body = c })
              s.objects in
          let at =
            subst (λ j. lookup j (replaced draw s key c).objects ≡ some o) ((str_eq_iff k key).0 e)
              h in
          ap (λ q. q.revision) (some_inj (sym found ∙ at))

  lookup-erased :
      (s : Store D) (key k : Str) (o : Object D)
      → lookup k (erase key s.objects) ≡ some o
      → lookup k s.objects ≡ some o
  lookup-erased s key k o h = elim (Bool-cases (str_eq k key)) [
    | inr n ↦ sym (lookup-erase_other key k s.objects n) ∙ h
    | inl e ↦
        let gone =
          subst (λ j. lookup j (erase key s.objects) ≡ none) (sym ((str_eq_iff k key).0 e))
            (lookup-erase key s.objects) in
        absurd (cc)
  ]

  -- The objects of a step come from those before it or from a fresh draw.
  step_object :
      (s t : Store D)
      → IsStep s t
      → (s.drawn ≤ t.drawn)
        × ((k : Str) (o : Object D)
            → lookup k t.objects ≡ some o
            → (lookup k s.objects ≡ some o) ⊎ IsDrawn s.drawn t.drawn o)
  step_object s t (inl (e, d)) = (d, λ k o h. inl (subst (λ m. lookup k m ≡ some o) e h))
  step_object s t (inr (inl (key, c, e))) =
      rw e ((omega arith, λ k o h. lookup-replaced s key c k o h))
  step_object s t (inr (inr (key, e))) =
      rw e ((omega arith, λ k o h. inl (lookup-erased s key k o h)))

  step-Kept :
      (Old : Str → Object D → Type 0) (m : ℕ) (s t : Store D)
      → IsStep s t
      → Kept Old m s
      → Kept Old m t
  step-Kept Old m s t st (b, kept) =
      let grown = step_object s t st in
      let d = grown.0 in
      (
        omega arith,
        λ k o h. elim (grown.1 k o h) [
          | inr (n, p, q, e) ↦ inr (n, omega arith, q, e)
          | inl before ↦ elim (kept k o before) [
            | inl old ↦ inl old
            | inr (n, p, q, e) ↦ inr (n, p, omega arith, e)
          ]
        ],
      )

  run-Kept :
      (Old : Str → Object D → Type 0) (m : ℕ) (calls : List (Call D)) (s : Store D)
      → Kept Old m s
      → Kept Old m (run calls s)
  unfolding run remove
  run-Kept Old m [] s h = h
  run-Kept Old m (write_call io key c revision ∷ rest) s h =
      run-Kept Old m rest _ (step-Kept Old m s _ (write-IsStep io s key c revision) h)
  run-Kept Old m (remove_call io key revision ∷ rest) s h =
      run-Kept Old m rest _
        (step-Kept Old m s _ (remove_at-IsStep io s key revision (read io s key)) h)

  -- Whatever calls run in between, writes and removals of any keys with any outcome: an object
  -- that has the revision which the key's object had before is that object, so a writer that
  -- presents this revision can only replace what it has read. For draws that never repeat.
  pub run-same_object :
      (calls : List (Call D)) (s : Store D) (k : Str) (before after : Object D)
      → ((i j : ℕ) → draw i ≡ draw j → i ≡ j)
      → IsStore s
      → lookup k s.objects ≡ some before
      → lookup k (run calls s).objects ≡ some after
      → after.revision ≡ before.revision
      → after ≡ before
  run-same_object calls s k before after inj store b a same =
      elim ((run-Kept (λ j o. lookup j s.objects ≡ some o) s.drawn calls s
          (omega arith, λ j o h. inl h)).1
        k after a) [
          | inl old ↦ some_inj (sym old ∙ b)
          | inr (n, p, q, e) ↦
              let (i, z, l, f) = store k before b in
              let eq = inj n i (tail_inj (sym e ∙ same ∙ f)) in absurd (omega arith)
        ]
