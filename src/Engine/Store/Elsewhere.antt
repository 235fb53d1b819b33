-- ===== src/Engine/Store/Elsewhere.antt =====
-- What `write` and `remove` do to the objects of other keys, whatever they answer.
use terragraph.Prelude.{
  ◌≡◌, ◌⊎◌, inl, inr, refl, false, not, ◌||◌, Str, str_eq, is_nil, lookup, erase,
  lookup-erase_other, lookup-insert_other, ℕ, if_elim, ap, ◌∙◌,
}
use terragraph.Engine.Store.{
  Io, Object, Store, Reply, ok, missing, conflict, invalid_key, failed, Done, read, remove,
  remove_at, write,
}
use terragraph.Engine.Store.Replies.{written}

module _ {D : Type 0} where
  -- The objects are as before, or without that of the key.
  abbrev pub IsRemoved : Store D → Str → Store D → Type 0
  IsRemoved s key t = (t.objects ≡ s.objects) ⊎ (t.objects ≡ erase key s.objects)

  remove_at-IsRemoved :
      (io : Io) (s : Store D) (key revision : Str) (found : Reply (Object D))
      → IsRemoved s key (remove_at io s key revision found).1
  unfolding remove_at
  remove_at-IsRemoved io s key revision (ok old) =
      if_elim Removes (is_nil revision || not (str_eq revision old.revision)) (λ e. inl refl)
        (λ e.
          if_elim Removes (not io.moved) (λ f. inl refl)
            (λ f. if_elim Removes (not io.synced) (λ k. inr refl) (λ k. inr refl)))
    where
      Removes : Reply Done × Store D → Type 0
      Removes out = IsRemoved s key out.1
  remove_at-IsRemoved io s key revision missing = inl refl
  remove_at-IsRemoved io s key revision conflict = inl refl
  remove_at-IsRemoved io s key revision invalid_key = inl refl
  remove_at-IsRemoved io s key revision failed = inl refl

  pub remove-IsRemoved :
      (io : Io) (s : Store D) (key revision : Str) → IsRemoved s key (remove io s key revision).1
  unfolding remove
  remove-IsRemoved io s key revision = remove_at-IsRemoved io s key revision (read io s key)

  -- A removal leaves the objects of other keys.
  pub remove-elsewhere :
      (io : Io) (s : Store D) (key revision j : Str)
      → str_eq j key ≡ false
      → lookup j (remove io s key revision).1.objects ≡ lookup j s.objects
  remove-elsewhere io s key revision j d = elim (remove-IsRemoved io s key revision) [
    | inl e ↦ ap (lookup j) e
    | inr e ↦ ap (lookup j) e ∙ lookup-erase_other key j s.objects d
  ]

  -- So does a write.
  pub write-elsewhere :
      (draw : ℕ → Str) (io : Io) (s : Store D) (key : Str) (c : D) (revision j : Str)
      → str_eq j key ≡ false
      → lookup j (write draw io s key c revision).1.objects ≡ lookup j s.objects
  write-elsewhere draw io s key c revision j d = elim (written draw io s key c revision) [
    | inl (n, e) ↦ ap (λ (t : Store D). lookup j t.objects) e
    | inr (m, inl e) ↦ ap (λ (t : Reply Str × Store D). lookup j t.1.objects) e
    | inr (m, inr (inl (n, e))) ↦
        ap (λ (t : Reply Str × Store D). lookup j t.1.objects) e
        ∙ lookup-insert_other key j _ s.objects d
    | inr (m, inr (inr e)) ↦
        ap (λ (t : Reply Str × Store D). lookup j t.1.objects) e
        ∙ lookup-insert_other key j _ s.objects d
  ]
