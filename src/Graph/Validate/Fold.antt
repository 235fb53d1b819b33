-- ===== src/Graph/Validate/Fold.antt =====
-- internal/graph/validate.go: what the three loops that fill `wired` share. Each entry has a key
-- and a condition of its own; a loop that finds nothing has met every condition and every key once.
use terragraph.Prelude.{
  ◌+◌, ◌≡◌, ◌≤◌, arith, false, Str, List, [], ◌∷◌, map, contains, contains_iff, count, str_eq_iff,
  All,
}
use terragraph.Graph.Validate.{Wiring, check_each}

-- A key is remembered as reported only once a problem is.
abbrev pub IsQuiet : Wiring → Type 0
IsQuiet w = w.problems ≡ [] → w.reported ≡ []

-- One step of a loop: it finds nothing just when the entry is fine and its key is new.
pub record IsCheck {A : Type 0} (step : A → Wiring → Wiring) (key : A → Str) (IsFine : A → Type 0)
    : Type 0 where
  pub quiet : (x : A) (w : Wiring) → IsQuiet w → IsQuiet (step x w)
  pub clean :
      (x : A) (w : Wiring)
      → IsQuiet w
      → (step x w).problems ≡ []
      → (w.problems ≡ []) × IsFine x × (contains (key x) w.wired ≡ false)
  pub accept :
      (x : A) (w : Wiring)
      → IsQuiet w
      → w.problems ≡ []
      → IsFine x
      → contains (key x) w.wired ≡ false
      → ((step x w).problems ≡ []) × ((step x w).wired ≡ key x ∷ w.wired)

-- What a loop that found nothing leaves.
pub record IsPassed {A : Type 0} (key : A → Str) (IsFine : A → Type 0) (xs : List A)
    (start end : Wiring) : Type 0 where
  pub fine : All IsFine xs
  pub counted : (k : Str) → count k end.wired ≡ count k (map key xs) + count k start.wired
  pub once : ((k : Str) → count k start.wired ≤ 1) → (k : Str) → count k end.wired ≤ 1

module _ {A : Type 0} {step : A → Wiring → Wiring} {key : A → Str} {IsFine : A → Type 0}
    (law : IsCheck step key IsFine) where
  open law use {quiet, clean, accept}

  pub check_each-IsQuiet : (xs : List A) (w : Wiring) → IsQuiet w → IsQuiet (check_each step xs w)
  unfolding check_each
  check_each-IsQuiet [] w q = q
  check_each-IsQuiet (x ∷ xs) w q = check_each-IsQuiet xs (step x w) (quiet x w q)

  -- A problem found before the loop is there after it.
  pub check_each-clean :
      (xs : List A) (w : Wiring)
      → IsQuiet w
      → (check_each step xs w).problems ≡ []
      → w.problems ≡ []
  unfolding check_each
  check_each-clean [] w q e = e
  check_each-clean (x ∷ xs) w q e = (clean x w q (check_each-clean xs (step x w) (quiet x w q) e)).0

  one_more :
      (x : A) (w : Wiring) (k : Str)
      → (step x w).wired ≡ key x ∷ w.wired
      → count k (step x w).wired ≡ count k (key x ∷ []) + count k w.wired
  unfolding count
  one_more x w k e = rw e (ground (arith))

  pub check_each-IsPassed :
      (xs : List A) (w : Wiring)
      → IsQuiet w
      → (check_each step xs w).problems ≡ []
      → IsPassed key IsFine xs w (check_each step xs w)
  unfolding check_each count
  check_each-IsPassed [] w q e = record { fine = tt; counted = λ k. omega arith; once = λ h. h }
  check_each-IsPassed (x ∷ xs) w q e =
      let rest = check_each-IsPassed xs (step x w) (quiet x w q) e in
      let here = clean x w q (check_each-clean xs (step x w) (quiet x w q) e) in
      let more = (accept x w q here.0 here.1 here.2).1 in
      record {
        fine = (here.1, rest.fine);
        counted =
            λ k. let tail = rest.counted k in let head = one_more x w k more in ground (arith);
        once = λ h. rest.once (λ k.
            let head = one_more x w k more in
            let old = h k in ground (arith, here.2, contains_iff k w.wired, str_eq_iff (key x) k));
      }

  -- The loop finds nothing when every entry is fine and no key comes twice.
  pub check_each-accepts :
      (xs : List A) (w : Wiring)
      → IsQuiet w
      → w.problems ≡ []
      → All IsFine xs
      → ((k : Str) → count k (map key xs) + count k w.wired ≤ 1)
      → (check_each step xs w).problems ≡ []
  unfolding check_each count
  check_each-accepts [] w q e fine once = e
  check_each-accepts (x ∷ xs) w q e fine once =
      let fresh : contains (key x) w.wired ≡ false =
        let h = once (key x) in
        ground (arith, contains_iff (key x) w.wired, str_eq_iff (key x) (key x)) in
      let next = accept x w q e fine.0 fresh in
      check_each-accepts xs (step x w) (quiet x w q) next.0 fine.1
        (λ k. let head = one_more x w k next.1 in let h = once k in ground (arith))
