-- ===== src/Engine/Run/Level/Merged.antt =====
-- Whatever the goroutines of a level do, it leaves what `merge` makes of some order of its nodes.
use terragraph.Prelude.{
  ℕ, zero, suc, ◌+◌, ◌≡◌, refl, ◌∙◌, arith, Bool, Str, List, [], ◌∷◌, ◌++◌, some, map, map-append,
  count, count-append, contains_iff, count-remove_first, length,
}
use terragraph.Graph.{Graph}
use terragraph.Engine.Run.{Course, Progress, entry, merge, parallelism}
use terragraph.Engine.Run.Level.{
  LevelState, begin_level, start_worker, start_next, enter_run, free_token, free_entered,
  worker_done, done_leaving, Step, starts, enters, frees, leaves, Reach, here, next,
}
use terragraph.Engine.Run.Level.Ends.{HasEnded, Reach-IsCounted}

module _ {O : Type 0} (g : Graph) (keep_going : Bool) (c : Course O) (n : ℕ)
    (before : Progress O) where
  merge-append :
      (xs ys : List Str) (p : Progress O)
      → merge g keep_going c before (xs ++ ys) p
        ≡ merge g keep_going c before ys (merge g keep_going c before xs p)
  unfolding merge
  merge-append [] ys p = refl
  merge-append (x ∷ xs) ys p = merge-append xs ys _

  -- The state after the outcomes of `order` have been entered.
  record IsMerged (level order : List Str) (s : LevelState O) : Type 0 where
    pub split : (a : Str) → count a order + count a s.running + count a s.waiting ≡ count a level
    pub reported : s.runs ≡ map (entry g keep_going c n before) order
    pub merged : s.progress ≡ merge g keep_going c before order before

  module _ (limit : ℕ) (level order : List Str) (s t : LevelState O)
      (i : IsMerged level order s) where
    IsMerged-kept :
        ((a : Str) → count a t.running + count a t.waiting ≡ count a s.running + count a s.waiting)
        → t.runs ≡ s.runs
        → t.progress ≡ s.progress
        → IsMerged level order t
    IsMerged-kept same e f = record {
      split = λ a. omega (arith, i.split a, same a);
      reported = e ∙ i.reported;
      merged = f ∙ i.merged;
    }

    start_next-IsMerged :
        (w : List Str) → s.waiting ≡ w → start_next limit s w ≡ some t → IsMerged level order t
    unfolding start_next count
    start_next-IsMerged [] e h = absurd (cc)
    start_next-IsMerged (name ∷ rest) e h =
        IsMerged-kept (λ a. ground (arith)) (ground (arith)) (ground (arith))

    free_entered-IsMerged : (j : ℕ) → free_entered s j ≡ some t → IsMerged level order t
    unfolding free_entered
    free_entered-IsMerged zero h = absurd (cc)
    free_entered-IsMerged (suc j) h = IsMerged-kept (λ a. ground (arith)) (cc) (cc)

    done_leaving-IsMerged : (j : ℕ) → done_leaving s j ≡ some t → IsMerged level order t
    unfolding done_leaving
    done_leaving-IsMerged zero h = absurd (cc)
    done_leaving-IsMerged (suc j) h = IsMerged-kept (λ a. ground (arith)) (cc) (cc)

    enter_run-IsMerged :
        (name : Str)
        → enter_run g keep_going c n before name s ≡ some t
        → IsMerged level (order ++ name ∷ []) t
    unfolding enter_run count
    enter_run-IsMerged name h = record {
      split = λ a.
          let before_step = i.split a in
          ground (
            arith,
            contains_iff name s.running,
            count-remove_first name a s.running,
            count-append a order (name ∷ []),
          );
      reported =
          ground (arith, i.reported, map-append (entry g keep_going c n before) order (name ∷ []));
      merged = ground (arith, i.merged, merge-append order (name ∷ []) before);
    }

  module _ (limit : ℕ) (level : List Str) where
    Step-IsMerged :
        (order : List Str) (s t : LevelState O)
        → IsMerged level order s
        → Step g keep_going c n before limit s t
        → (later : List Str) × IsMerged level later t
    unfolding start_worker free_token worker_done
    Step-IsMerged order s t i (starts h) =
        (order, start_next-IsMerged limit level order s t i s.waiting refl h)
    Step-IsMerged order s t i (enters name h) =
        (order ++ name ∷ [], enter_run-IsMerged limit level order s t i name h)
    Step-IsMerged order s t i (frees h) =
        (order, free_entered-IsMerged limit level order s t i s.entered h)
    Step-IsMerged order s t i (leaves h) =
        (order, done_leaving-IsMerged limit level order s t i s.leaving h)

    Reach-IsMerged :
        (k : ℕ) (t : LevelState O)
        → Reach g keep_going c n before limit (begin_level before level) k t
        → (order : List Str) × IsMerged level order t
    unfolding count merge
    Reach-IsMerged k t here =
        ([], record { split = λ a. omega arith; reported = refl; merged = refl })
    Reach-IsMerged k t (next {k = j} {t = u} r st) =
        let (order, i) = Reach-IsMerged j u r in Step-IsMerged order u t i st

no_running : (xs : List Str) → length xs ≡ 0 → xs ≡ []
no_running [] e = refl
no_running (x ∷ xs) e = absurd (omega (arith, e))

module _ {O : Type 0} (g : Graph) (keep_going : Bool) (c : Course O) (n : ℕ) (before : Progress O)
    (setting : ℕ) (level : List Str) where
  -- When a level has ended, however its goroutines interleaved, its report and what it leaves to
  -- the next level are those of workers that ran one after the other, each on what was known
  -- before the level, in some order in which every node of the level stands as often as in it.
  pub Reach-merged :
      (k : ℕ) (t : LevelState O)
      → Reach g keep_going c n before (parallelism setting) (begin_level before level) k t
      → HasEnded t
      → (order : List Str) × ((a : Str) → count a order ≡ count a level)
        × (t.runs ≡ map (entry g keep_going c n before) order)
        × (t.progress ≡ merge g keep_going c before order before)
  unfolding count
  Reach-merged k t r (none_waiting, none_counted) =
      let (order, i) = Reach-IsMerged g keep_going c n before (parallelism setting) level k t r in
      let counts = Reach-IsCounted g keep_going c n before (parallelism setting) level k t r in
      let idle = no_running t.running (omega (arith, counts.counted, none_counted)) in
      (order, λ a. (let whole = i.split a in ground (arith)), i.reported, i.merged)
