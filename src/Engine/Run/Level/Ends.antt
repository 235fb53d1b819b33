-- ===== src/Engine/Run/Level/Ends.antt =====
-- The semaphore bounds the workers of a level, and the level comes to its end.
use terragraph.Prelude.{
  ℕ, zero, suc, ◌+◌, ◌*◌, ◌≤◌, ◌<◌, ◌≡◌, ◌⊎◌, inl, inr, refl, arith, Bool, Str, List, [], ◌∷◌, some,
  length, contains, contains_iff, length-remove_first, List-cases, Option-cases, str_eq_refl,
}
use terragraph.Graph.{Graph}
use terragraph.Engine.Run.{Course, Progress, parallelism}
use terragraph.Engine.Run.Level.{
  LevelState, begin_level, start_worker, start_next, enter_run, free_token, free_entered,
  worker_done, done_leaving, Step, starts, enters, frees, leaves, Reach, here, next,
}

ℕ-cases : (n : ℕ) → (n ≡ 0) ⊎ ((j : ℕ) × (n ≡ suc j))
ℕ-cases zero = inl refl
ℕ-cases (suc j) = inr (j, refl)

-- What the channel and the wait group count, and the steps that are left of those of `size` nodes.
pub record IsCounted {O : Type 0} (limit size k : ℕ) (s : LevelState O) : Type 0 where
  pub held : s.tokens ≡ length s.running + s.entered
  pub bounded : s.tokens ≤ limit
  pub counted : s.wait_count ≡ length s.running + s.entered + s.leaving
  pub left :
      k + (4 * length s.waiting + 3 * length s.running + 2 * s.entered + s.leaving) ≡ 4 * size

-- wg.Wait returns, and every name has been started.
abbrev pub HasEnded : {O : Type 0} → LevelState O → Type 0
HasEnded s = (s.waiting ≡ []) × (s.wait_count ≡ 0)

module _ {O : Type 0} (limit size k : ℕ) (s t : LevelState O) (i : IsCounted limit size k s) where
  start_next-IsCounted :
      (w : List Str)
      → s.waiting ≡ w
      → start_next limit s w ≡ some t
      → IsCounted limit size (suc k) t
  unfolding start_next
  start_next-IsCounted [] e h = absurd (cc)
  start_next-IsCounted (name ∷ rest) e h = ground (arith, i)

  free_entered-IsCounted :
      (n : ℕ) → s.entered ≡ n → free_entered s n ≡ some t → IsCounted limit size (suc k) t
  unfolding free_entered
  free_entered-IsCounted zero e h = absurd (cc)
  free_entered-IsCounted (suc n) e h = ground (arith, i)

  done_leaving-IsCounted :
      (n : ℕ) → s.leaving ≡ n → done_leaving s n ≡ some t → IsCounted limit size (suc k) t
  unfolding done_leaving
  done_leaving-IsCounted zero e h = absurd (cc)
  done_leaving-IsCounted (suc n) e h = ground (arith, i)

module _ {O : Type 0} (g : Graph) (keep_going : Bool) (c : Course O) (n : ℕ) (before : Progress O)
    (limit : ℕ) where
  enter_run-IsCounted :
      (size k : ℕ) (name : Str) (s t : LevelState O)
      → IsCounted limit size k s
      → enter_run g keep_going c n before name s ≡ some t
      → IsCounted limit size (suc k) t
  unfolding enter_run
  enter_run-IsCounted size k name s t i h =
      ground (arith, i, contains_iff name s.running, length-remove_first name s.running)

  Step-IsCounted :
      (size k : ℕ) (s t : LevelState O)
      → IsCounted limit size k s
      → Step g keep_going c n before limit s t
      → IsCounted limit size (suc k) t
  unfolding start_worker free_token worker_done
  Step-IsCounted size k s t i (starts h) = start_next-IsCounted limit size k s t i s.waiting refl h
  Step-IsCounted size k s t i (enters name h) = enter_run-IsCounted size k name s t i h
  Step-IsCounted size k s t i (frees h) = free_entered-IsCounted limit size k s t i s.entered refl h
  Step-IsCounted size k s t i (leaves h) =
      done_leaving-IsCounted limit size k s t i s.leaving refl h

  pub Reach-IsCounted :
      (level : List Str) (k : ℕ) (t : LevelState O)
      → Reach g keep_going c n before limit (begin_level before level) k t
      → IsCounted limit (length level) k t
  Reach-IsCounted level k t here = omega arith
  Reach-IsCounted level k t (next {k = j} {t = u} r st) =
      Step-IsCounted (length level) j u t (Reach-IsCounted level j u r) st

  module _ (s : LevelState O) where
    abbrev CanGo : Type 0
    CanGo = (t : LevelState O) × Step g keep_going c n before limit s t

    start-CanGo :
        (name : Str) (rest : List Str) → s.waiting ≡ name ∷ rest → s.tokens < limit → CanGo
    unfolding start_worker start_next
    start-CanGo name rest e h = elim (Option-cases (start_worker limit s)) [
      | inl no_start ↦ absurd (ground (arith))
      | inr (t, started) ↦ (t, starts started)
    ]

    enter-CanGo : (name : Str) (rest : List Str) → s.running ≡ name ∷ rest → CanGo
    unfolding enter_run contains
    enter-CanGo name rest e = elim (Option-cases (enter_run g keep_going c n before name s)) [
      | inl no_entry ↦ absurd (ground (arith, str_eq_refl name))
      | inr (t, entry) ↦ (t, enters name entry)
    ]

    free-CanGo : (j : ℕ) → s.entered ≡ suc j → CanGo
    unfolding free_token free_entered
    free-CanGo j e = elim (Option-cases (free_token s)) [
      | inl none_free ↦ absurd (ground (arith))
      | inr (t, freed) ↦ (t, frees freed)
    ]

    leave-CanGo : (j : ℕ) → s.leaving ≡ suc j → CanGo
    unfolding worker_done done_leaving
    leave-CanGo j e = elim (Option-cases (worker_done s)) [
      | inl none_left ↦ absurd (ground (arith))
      | inr (t, left) ↦ (t, leaves left)
    ]

    -- Whoever can go is looked for from the end of a worker's way to its start.
    ended_or-CanGo : (size k : ℕ) → 0 < limit → IsCounted limit size k s → HasEnded s ⊎ CanGo
    ended_or-CanGo size k room i = elim (ℕ-cases s.leaving) [
      | inr (j, e) ↦ inr (leave-CanGo j e)
      | inl no_leaving ↦ elim (ℕ-cases s.entered) [
        | inr (j, e) ↦ inr (free-CanGo j e)
        | inl no_entered ↦ elim (List-cases s.running) [
          | inr (name, rest, e) ↦ inr (enter-CanGo name rest e)
          | inl no_running ↦ elim (List-cases s.waiting) [
            | inr (name, rest, e) ↦ inr (start-CanGo name rest e (ground (arith, i)))
            | inl no_waiting ↦ inl (no_waiting, ground (arith, i))
          ]
        ]
      ]
    ]

parallelism-pos : (setting : ℕ) → 0 < parallelism setting
unfolding parallelism
parallelism-pos zero = omega arith
parallelism-pos (suc j) = omega arith

module _ {O : Type 0} (g : Graph) (keep_going : Bool) (c : Course O) (n : ℕ) (before : Progress O)
    (setting : ℕ) (level : List Str) (k : ℕ) (t : LevelState O)
    (r : Reach g keep_going c n before (parallelism setting) (begin_level before level) k t) where
  -- However the goroutines of a level interleave, no more of them are between their start and the
  -- return of their token than the setting of the parallelism says, and one where it is below one.
  pub Reach-bounded : length t.running + t.entered ≤ parallelism setting
  Reach-bounded =
      let i = Reach-IsCounted g keep_going c n before (parallelism setting) level k t r in
      omega (arith, i.held, i.bounded)

  -- The goroutines of a level cannot block one another: however they interleave, they make at most
  -- four steps for each node, and while the level has not ended one of them can go on.
  pub Reach-ends :
      (k ≤ 4 * length level)
      × (HasEnded t ⊎ ((u : LevelState O) × Step g keep_going c n before (parallelism setting) t u))
  Reach-ends =
      let i = Reach-IsCounted g keep_going c n before (parallelism setting) level k t r in
      (
        omega (arith, i.left),
        ended_or-CanGo g keep_going c n before (parallelism setting) t (length level) k
            (parallelism-pos setting) i,
      )
