-- ===== src/Engine/Run/Workers.antt =====
-- One level of a run: which workers stop at once, and how the failures of a level are noted.
use terragraph.Prelude.{
  ◌≡◌, ◌⊎◌, inl, inr, refl, arith, Bool, true, not, Bool-cases, if_elim, Str, str_eq, str_eq_iff,
  List, [], ◌∷◌, any, contains,
}
use terragraph.Graph.{Graph}
use terragraph.Engine.Run.{
  NodeRun, not_run, Course, Progress, worker, stopped, merge, first_error, is_named,
}

contains-cons :
    (x y : Str) (xs : List Str) → contains x (y ∷ xs) ≡ true → (y ≡ x) ⊎ (contains x xs ≡ true)
unfolding contains
contains-cons x y xs h = elim (Bool-cases (str_eq y x)) [
  | inl e ↦ inl ((str_eq_iff y x).0 e)
  | inr e ↦ inr (ground (arith))
]

any-contains :
    (x : Str) (xs ys : List Str)
    → contains x xs ≡ true
    → contains x ys ≡ true
    → any (λ y. contains y ys) xs ≡ true
unfolding contains
any-contains x [] ys h k = absurd (cc)
any-contains x (y ∷ xs) ys h k = elim (contains-cons x y xs h) [
  | inl e ↦ rw (e, k) refl
  | inr m ↦ let rest = any-contains x xs ys m k in ground (arith)
]

module _ {O : Type 0} (g : Graph) (keep_going : Bool) (c : Course O) where
  -- A node with a failed predecessor is not run where branches are kept apart.
  abbrev pub IsGuarded : List Str → NodeRun → Type 0
  IsGuarded nodes q =
      (parent : Str)
      → keep_going ≡ true
      → contains parent nodes ≡ true
      → contains parent (g.ins q.node) ≡ true
      → q.status ≡ not_run

  pub worker-stopped :
      (p : Progress O) (name parent : Str)
      → keep_going ≡ true
      → contains parent p.failed_nodes ≡ true
      → contains parent (g.ins name) ≡ true
      → worker g keep_going c p name ≡ stopped g keep_going c
  unfolding worker
  worker-stopped p name parent k f i =
      let blocked = any-contains parent (g.ins name) p.failed_nodes i f in
      if_elim (λ a. a ≡ stopped g keep_going c) (not (c.live name)) (λ _. refl)
        (λ _. rw (k, blocked) refl)

  pub merge-kept :
      (before : Progress O) (x : Str) (names : List Str) (p : Progress O)
      → contains x p.failed_nodes ≡ true
      → contains x (merge g keep_going c before names p).failed_nodes ≡ true
  unfolding merge contains
  merge-kept before x [] p h = h
  merge-kept before x (name ∷ rest) p h = merge-kept before x rest _ (
      if_elim (λ l. contains x l ≡ true) (worker g keep_going c before name).err
        (λ _. ground (arith)) (λ _. h))

  pub merge-failed :
      (before : Progress O) (x : Str) (names : List Str) (p : Progress O)
      → contains x names ≡ true
      → (worker g keep_going c before x).err ≡ true
      → contains x (merge g keep_going c before names p).failed_nodes ≡ true
  unfolding merge contains
  merge-failed before x [] p h e = absurd (cc)
  merge-failed before x (name ∷ rest) p h e = elim (contains-cons x name rest h) [
    | inl same ↦ merge-kept before x rest _ (rw (same, e) (ground (arith, str_eq_iff x x)))
    | inr m ↦ merge-failed before x rest _ m e
  ]

  pub first_error-named :
      (p : Progress O) (x : Str) (level : List Str)
      → contains x level ≡ true
      → (worker g keep_going c p x).err ≡ true
      → is_named (first_error g keep_going c p level) ≡ true
  unfolding first_error contains
  first_error-named p x [] h e = absurd (cc)
  first_error-named p x (name ∷ rest) h e = elim (contains-cons x name rest h) [
    | inl same ↦ rw (same, e) refl
    | inr m ↦
        let later = first_error-named p x rest m e in
        if_elim (λ o. is_named o ≡ true) (worker g keep_going c p name).err (λ _. refl) (λ _. later)
  ]
