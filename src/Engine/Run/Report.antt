-- ===== src/Engine/Run/Report.antt =====
-- The report of a run: every scheduled node has its entry, however the run ends.
use terragraph.Prelude.{
  ℕ, suc, ◌+◌, ◌≡◌, refl, ap, ◌∙◌, arith, Bool, false, not, ◌&&◌, ◌==◌, if_elim, Str, str_eq, List,
  [], ◌∷◌, Option, none, some, if◌then◌else◌, map, count, tally, tally-append, tally-sort_by,
}
use terragraph.Graph.{Graph}
use terragraph.Engine.Run.{
  NodeRun, RunError, not_run, cancelled, halt, go_on, Course, Progress, mark_level, mark_not_run,
  entries, entry, run_from, run_levels, run_ltb, turned, merge, first_error, keep_first,
}

-- The entry is the node's, at the level.
abbrev pub is_at : Str → ℕ → NodeRun → Bool
is_at a m r = str_eq r.node a && r.level == m

-- How often the node stands in the m-th of the levels, which are numbered from `suc n` on.
abbrev pub scheduled : Str → ℕ → ℕ → List (List Str) → ℕ
scheduled a m n [] = 0
scheduled a m n (level ∷ rest) =
    (if suc n == m then count a level else 0) + scheduled a m (suc n) rest

tally-map :
    (a : Str) (m n : ℕ) (f : Str → NodeRun)
    → ((x : Str) → (f x).node ≡ x)
    → ((x : Str) → (f x).level ≡ suc n)
    → (xs : List Str) → tally (is_at a m) (map f xs) ≡ (if suc n == m then count a xs else 0)
unfolding count
tally-map a m n f node level [] = ground (arith)
tally-map a m n f node level (x ∷ xs) =
    let rest = tally-map a m n f node level xs in rw (node x, level x) (ground (arith))

tally-mark_level :
    (a : Str) (m n : ℕ) (level : List Str)
    → tally (is_at a m) (mark_level n level) ≡ (if suc n == m then count a level else 0)
unfolding mark_level
tally-mark_level a m n level =
    tally-map a m n (λ name. record { node = name; level = suc n; status = not_run; err = false })
      (λ _. refl) (λ _. refl) level

tally-mark_not_run :
    (a : Str) (m n : ℕ) (levels : List (List Str))
    → tally (is_at a m) (mark_not_run n levels) ≡ scheduled a m n levels
unfolding mark_not_run
tally-mark_not_run a m n [] = refl
tally-mark_not_run a m n (level ∷ rest) = omega (
  arith,
  tally-append (is_at a m) (mark_level n level) (mark_not_run (suc n) rest),
  tally-mark_level a m n level,
  tally-mark_not_run a m (suc n) rest,
)

module _ {O : Type 0} (g : Graph) (keep_going : Bool) (c : Course O)
    (ordered : (n : ℕ) (level : List Str) (a : Str)
      → count a (c.finish n level) ≡ count a level) where
  tally-entries :
      (a : Str) (m n : ℕ) (p : Progress O) (level : List Str)
      → tally (is_at a m) (entries g keep_going c n p level)
        ≡ (if suc n == m then count a level else 0)
  unfolding entries
  tally-entries a m n p level =
      tally-map a m n (entry g keep_going c n p) (λ _. refl) (λ _. refl) (c.finish n level)
      ∙ ap (λ k. if suc n == m then k else 0) (ordered n level a)

  abbrev IsCovering : Str → ℕ → ℕ → List (List Str) → List NodeRun × Option RunError → Type 0
  IsCovering a m n levels out = tally (is_at a m) out.0 ≡ scheduled a m n levels

  covers-go_on :
      (a : Str) (m n : ℕ) (p : Progress O) (level : List Str) (rest : List (List Str))
      (halted : Option RunError) (later : List NodeRun × Option RunError)
      → IsCovering a m (suc n) rest later
      → IsCovering a m n
          (level ∷ rest)
          (go_on n (entries g keep_going c n p level) rest halted later)
  covers-go_on a m n p level rest (some e) later h = omega (
    arith,
    tally-append (is_at a m) (entries g keep_going c n p level) (mark_not_run (suc n) rest),
    tally-entries a m n p level,
    tally-mark_not_run a m (suc n) rest,
  )
  covers-go_on a m n p level rest none later h = omega (
    arith,
    tally-append (is_at a m) (entries g keep_going c n p level) later.0,
    tally-entries a m n p level,
    h,
  )

  covers-run_from :
      (a : Str) (m n : ℕ) (levels : List (List Str)) (p : Progress O) (first : Option RunError)
      → IsCovering a m n levels (run_from g keep_going c n levels p first)
  unfolding run_from
  covers-run_from a m n [] p first = refl
  covers-run_from a m n (level ∷ rest) p first =
      if_elim (λ out. IsCovering a m n (level ∷ rest) out) (not (c.live_level n))
        {x = (mark_not_run n (level ∷ rest), some cancelled)}
        {y = go_on n (entries g keep_going c n p level) rest (halt g keep_going c n error) later}
        (λ _. tally-mark_not_run a m n (level ∷ rest))
        (λ _.
          covers-go_on a m n p level rest (halt g keep_going c n error) later
            (covers-run_from a m (suc n) rest next (keep_first first error)))
    where
      error : Option Str
      error = first_error g keep_going c p level

      next : Progress O
      next = merge g keep_going c p (c.finish n level) p

      later : List NodeRun × Option RunError
      later = run_from g keep_going c (suc n) rest next (keep_first first error)

  -- However a run ends, its report has each node once for each time it stands in a level, under
  -- the number of that level in the order of execution: nothing scheduled is left out, also what
  -- was never reached, and nothing is added. For workers that end in some order, each once.
  pub run_levels-scheduled :
      (reverse_order : Bool) (levels : List (List Str)) (a : Str) (m : ℕ)
      → tally (is_at a m) (run_levels g keep_going c reverse_order levels).0
        ≡ scheduled a m 0 (turned reverse_order levels)
  unfolding run_levels
  run_levels-scheduled reverse_order levels a m =
      tally-sort_by run_ltb (is_at a m) _
      ∙ covers-run_from a m 0 (turned reverse_order levels) _ none
