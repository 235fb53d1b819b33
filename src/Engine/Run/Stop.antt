-- ===== src/Engine/Run/Stop.antt =====
-- What a failed node holds up: the levels after it, or what depends on it where independent
-- branches go on.
use terragraph.Prelude.{
  ℕ, suc, ◌<◌, ◌≡◌, ◌⊎◌, inl, inr, refl, ap, subst, arith, Bool, true, false, not, Bool-cases,
  if_elim, Str, str_eq_iff, List, [], ◌∷◌, ◌++◌, Option, none, some, map, count, contains,
  contains_iff, All, All-map, All-append, All-sort_by,
}
use terragraph.Graph.{Graph}
use terragraph.Engine.Run.{
  NodeRun, RunError, not_run, cancelled, halt, go_on, Course, Progress, mark_level, mark_not_run,
  entries, entry, worker, run_from, run_levels, run_ltb, turned, merge, first_error, keep_first,
  is_named,
}
use terragraph.Engine.Run.Workers.{
  IsGuarded, worker-stopped, merge-kept, merge-failed, first_error-named,
}

All-mapped :
    (P : NodeRun → Type 0) (f : Str → NodeRun) (names : List Str)
    → ((x : Str) → contains x names ≡ true → P (f x))
    → All P (map f names)
unfolding contains
All-mapped P f [] h = tt
All-mapped P f (x ∷ names) h =
    (h x (ground (arith, str_eq_iff x x)), All-mapped P f names (λ y m. h y (ground (arith))))

All-zip :
    {P Q R : NodeRun → Type 0} (xs : List NodeRun)
    → ((x : NodeRun) → P x → Q x → R x)
    → All P xs
    → All Q xs
    → All R xs
All-zip [] f h k = tt
All-zip (x ∷ xs) f h k = (f x h.0 k.0, All-zip xs f h.1 k.1)

mark_not_run-status :
    (n : ℕ) (levels : List (List Str))
    → All (λ q. (n < q.level) × (q.status ≡ not_run)) (mark_not_run n levels)
unfolding mark_not_run mark_level
mark_not_run-status n [] = tt
mark_not_run-status n (level ∷ rest) =
    All-append _ (mark_level n level) (mark_not_run (suc n) rest)
      (All-mapped _ (λ name. record { node = name; level = suc n; status = not_run; err = false })
        level (λ x m. (omega arith, refl)))
      (All-map (mark_not_run (suc n) rest) (λ q h. (omega (arith, h.0), h.1))
        (mark_not_run-status (suc n) rest))

module _ {O : Type 0} (g : Graph) (keep_going : Bool) (c : Course O) where
  -- The entry `q` was not run, if `r` failed in an earlier level and no branch goes on past it.
  abbrev pub IsHeld : NodeRun → NodeRun → Type 0
  IsHeld q r =
      r.err ≡ true
      → r.level < q.level
      → (keep_going ≡ false) ⊎ (contains r.node (g.ins q.node) ≡ true)
      → q.status ≡ not_run

  abbrev pub IsCut : List NodeRun → Type 0
  IsCut runs = All (λ q. All (IsHeld q) runs) runs

  -- Entries from the n-th level on, guarded by the failures before them.
  abbrev IsTail : ℕ → List Str → List NodeRun → Type 0
  IsTail n nodes runs =
      All (λ q. (n < q.level) × IsGuarded g keep_going c nodes q) runs × IsCut runs

  -- An entry of a later level next to the entries of the level `n`.
  abbrev IsBehind : ℕ → Progress O → List Str → NodeRun → Type 0
  IsBehind n p names q =
      (suc n < q.level)
      × IsGuarded g keep_going c p.failed_nodes q
      × ((x : Str) → contains x names ≡ true → IsHeld q (entry g keep_going c n p x))

  entry-IsGuarded :
      (n : ℕ) (p : Progress O) (x : Str)
      → (n < (entry g keep_going c n p x).level)
        × IsGuarded g keep_going c p.failed_nodes (entry g keep_going c n p x)
  entry-IsGuarded n p x = (
    omega arith,
    λ parent k f i. ap (λ a. a.status) (worker-stopped g keep_going c p x parent k f i),
  )

  -- Put behind a level, such entries keep what is asked of a tail.
  IsTail-append :
      (n : ℕ) (p : Progress O) (level : List Str) (tail : List NodeRun)
      → All (IsBehind n p (c.finish n level)) tail
      → IsCut tail
      → IsTail n p.failed_nodes (entries g keep_going c n p level ++ tail)
  unfolding entries
  IsTail-append n p level tail behind cut =
      (placed, All-append (λ q. All (IsHeld q) (done ++ tail)) done tail first later)
    where
      names : List Str
      names = c.finish n level

      done : List NodeRun
      done = map (entry g keep_going c n p) names

      placed : All (λ q. (n < q.level) × IsGuarded g keep_going c p.failed_nodes q) (done ++ tail)
      placed =
          All-append _ done tail
            (All-mapped _ (entry g keep_going c n p) names (λ x m. entry-IsGuarded n p x))
            (All-map tail (λ q h. (omega (arith, h.0), h.1)) behind)

      first : All (λ q. All (IsHeld q) (done ++ tail)) done
      first =
          All-mapped _ (entry g keep_going c n p) names
            (λ x m. All-map (done ++ tail) (λ r h e l w. absurd (omega (arith, h.0, l))) placed)

      later : All (λ q. All (IsHeld q) (done ++ tail)) tail
      later =
          All-zip tail
            (λ q h k.
              All-append (IsHeld q) done tail
                (All-mapped _ (entry g keep_going c n p) names (λ x m. h.2 x m)) k)
            behind cut

  not_run-IsCut :
      (n : ℕ) (runs : List NodeRun)
      → All (λ q. (n < q.level) × (q.status ≡ not_run)) runs
      → IsCut runs
  not_run-IsCut n runs h = All-map runs (λ q k. All-map runs (λ r _ _ _ _. k.1) h) h

  halted-IsTail :
      (n : ℕ) (p : Progress O) (level : List Str) (rest : List (List Str))
      → IsTail n p.failed_nodes (entries g keep_going c n p level ++ mark_not_run (suc n) rest)
  halted-IsTail n p level rest =
      let marked = mark_not_run-status (suc n) rest in
      IsTail-append n p level (mark_not_run (suc n) rest)
        (All-map (mark_not_run (suc n) rest) (λ q h. (h.0, (λ _ _ _ _. h.1), λ _ _ _ _ _. h.1))
          marked)
        (not_run-IsCut (suc n) (mark_not_run (suc n) rest) marked)

  halt-named :
      (n : ℕ) (error : Option Str)
      → halt g keep_going c n error ≡ none
      → is_named error ≡ true
      → keep_going ≡ false
      → ⊥
  unfolding halt
  halt-named n none h e k = cc
  halt-named n (some name) h e k =
      if_elim (λ o. o ≡ none → ⊥) (not (c.completed n)) (λ _ z. cc)
        (λ _. if_elim (λ o. o ≡ none → ⊥) (not (c.told n)) (λ _ z. cc) (λ _. rw k (λ z. cc))) h

  -- For workers of a level that are those of the level.
  module _
      (ordered : (n : ℕ) (level : List Str) (a : Str)
        → count a (c.finish n level) ≡ count a level) where
    contains-finish :
        (n : ℕ) (level : List Str) (x : Str)
        → contains x (c.finish n level) ≡ true
        → contains x level ≡ true
    contains-finish n level x h =
        (contains_iff x level).1
          (subst (λ k. 0 < k) (ordered n level x) ((contains_iff x (c.finish n level)).0 h))

    go_on-IsTail :
        (n : ℕ) (p : Progress O) (level : List Str) (rest : List (List Str))
        (stop : Option RunError) (later : List NodeRun × Option RunError)
        → halt g keep_going c n (first_error g keep_going c p level) ≡ stop
        → IsTail (suc n) (merge g keep_going c p (c.finish n level) p).failed_nodes later.0
        → IsTail n p.failed_nodes (go_on n (entries g keep_going c n p level) rest stop later).0
    go_on-IsTail n p level rest (some e) later h t = halted-IsTail n p level rest
    go_on-IsTail n p level rest none later h t =
        IsTail-append n p level later.0
          (All-map later.0
            (λ q k. (
              k.0,
              (λ parent kg f i.
                  k.1 parent kg (merge-kept g keep_going c p parent (c.finish n level) p f) i),
              λ x m e l w. held q k.1 x m e w,
            ))
            t.0)
          t.1
      where
        held :
            (q : NodeRun)
            → IsGuarded g keep_going c (merge g keep_going c p (c.finish n level) p).failed_nodes q
            → (x : Str) → contains x (c.finish n level) ≡ true
            → (worker g keep_going c p x).err ≡ true
            → (keep_going ≡ false) ⊎ (contains x (g.ins q.node) ≡ true)
            → q.status ≡ not_run
        held q k x m e w = elim (Bool-cases keep_going) [
          | inl kg ↦ elim w [
            | inl f ↦ absurd (cc)
            | inr i ↦ k x kg (merge-failed g keep_going c p x (c.finish n level) p m e) i
          ]
          | inr kg ↦ absurd (
              halt-named n _ h
                (first_error-named g keep_going c p x level (contains-finish n level x m) e) kg)
        ]

    run_from-IsTail :
        (n : ℕ) (levels : List (List Str)) (p : Progress O) (first : Option RunError)
        → IsTail n p.failed_nodes (run_from g keep_going c n levels p first).0
    unfolding run_from
    run_from-IsTail n [] p first = (tt, tt)
    run_from-IsTail n (level ∷ rest) p first =
        if_elim (λ out. IsTail n p.failed_nodes out.0) (not (c.live_level n))
          {x = (mark_not_run n (level ∷ rest), some cancelled)}
          {y = go_on n (entries g keep_going c n p level) rest (halt g keep_going c n error) later}
          (λ _.
            let marked = mark_not_run-status n (level ∷ rest) in
            (
              All-map (mark_not_run n (level ∷ rest)) (λ q h. (h.0, λ _ _ _ _. h.1)) marked,
              not_run-IsCut n (mark_not_run n (level ∷ rest)) marked,
            ))
          (λ _.
            go_on-IsTail n p level rest _ later refl
              (run_from-IsTail (suc n) rest next (keep_first first error)))
      where
        error : Option Str
        error = first_error g keep_going c p level

        next : Progress O
        next = merge g keep_going c p (c.finish n level) p

        later : List NodeRun × Option RunError
        later = run_from g keep_going c (suc n) rest next (keep_first first error)

    -- When a node fails, what comes in a later level is not run: everything there in a run that
    -- stops at the first failure, and each node with an edge from the failed one in a run that
    -- goes on with independent branches. For workers of a level that are those of the level.
    pub run_levels-IsCut :
        (reverse_order : Bool) (levels : List (List Str))
        → IsCut (run_levels g keep_going c reverse_order levels).0
    unfolding run_levels
    run_levels-IsCut reverse_order levels = All-sort_by run_ltb _ _ (
        All-map _ (λ q h. All-sort_by run_ltb (IsHeld q) _ h)
          (run_from-IsTail 0 (turned reverse_order levels)
            (record { failed_nodes = []; outputs_of = [] }) none).1)
