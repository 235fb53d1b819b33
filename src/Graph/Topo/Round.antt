-- ===== src/Graph/Topo/Round.antt =====
-- One round of the loop of `Levels`: what placing a node does to the keys and the counters.
use terragraph.Prelude.{
  ℕ, zero, suc, ◌+◌, ◌≡◌, ◌≤◌, ◌<◌, inl, inr, refl, ap, sym, ◌∙◌, arith, true, false, not, ◌||◌,
  Str, str_eq, str_eq_iff, str_eq_refl, List, [], ◌∷◌, length, keep, if◌then◌else◌, ◌==◌, All,
  All-map, contains, count, contains_iff, Bool-cases, length-keep, length-map,
}
use terragraph.Prelude.Int.{ℤ, pos}
use terragraph.Graph.{Graph, IsConsistent}
use terragraph.Graph.Topo.{Degrees, keys, ready, delete, lower, lower_each, place, place_level}

-- How many entries of a list stand in another one.
abbrev pub among : List Str → List Str → ℕ
among ks xs = length (keep (λ x. contains x ks) xs)

-- Each counter says how many dependencies of its node are not placed.
abbrev pub IsCounted : Graph → Degrees → Type 0
IsCounted g deg = All (λ entry. entry.1 ≡ pos (among (keys deg) (g.ins entry.0))) deg

pub count-keys-delete :
    (a n : Str) (deg : Degrees)
    → count a (keys (delete n deg)) ≡ (if str_eq n a then 0 else count a (keys deg))
unfolding delete count
count-keys-delete a n [] = ground arith
count-keys-delete a n ((k, d) ∷ deg) =
    ground (arith, count-keys-delete a n deg, str_eq_iff k n, str_eq_iff n a, str_eq_iff k a)

keys-lower : (m : Str) (deg : Degrees) → keys (lower m deg) ≡ keys deg
unfolding lower
keys-lower m [] = refl
keys-lower m ((k, d) ∷ deg) = ap (λ ks. k ∷ ks) (keys-lower m deg)

pub keys-lower_each : (ms : List Str) (deg : Degrees) → keys (lower_each ms deg) ≡ keys deg
unfolding lower_each
keys-lower_each [] deg = refl
keys-lower_each (m ∷ ms) deg = keys-lower_each ms (lower m deg) ∙ keys-lower m deg

pub count-keys-place :
    (g : Graph) (a n : Str) (deg : Degrees)
    → count a (keys (place g n deg)) ≡ (if str_eq n a then 0 else count a (keys deg))
unfolding place
count-keys-place g a n deg =
    ap (count a) (keys-lower_each (g.outs n) (delete n deg)) ∙ count-keys-delete a n deg

pub count-keys-place_level :
    (g : Graph) (a : Str) (level : List Str) (deg : Degrees)
    → count a (keys (place_level g level deg))
      ≡ (if contains a level then 0 else count a (keys deg))
unfolding place_level contains
count-keys-place_level g a [] deg = refl
count-keys-place_level g a (n ∷ level) deg =
    ground (arith, count-keys-place_level g a level (place g n deg), count-keys-place g a n deg)

lower-counts :
    (f : Str → ℕ) (m : Str) (ms : List Str) (deg : Degrees)
    → All (λ entry. entry.1 ≡ pos (f entry.0 + count entry.0 (m ∷ ms))) deg
    → All (λ entry. entry.1 ≡ pos (f entry.0 + count entry.0 ms)) (lower m deg)
unfolding lower count
lower-counts f m ms [] h = tt
lower-counts f m ms ((k, d) ∷ deg) h =
    (let e = h.0 in ground (arith, str_eq_iff k m, str_eq_iff m k), lower-counts f m ms deg h.1)

lower_each-counts :
    (f : Str → ℕ) (ms : List Str) (deg : Degrees)
    → All (λ entry. entry.1 ≡ pos (f entry.0 + count entry.0 ms)) deg
    → All (λ entry. entry.1 ≡ pos (f entry.0)) (lower_each ms deg)
unfolding lower_each count
lower_each-counts f [] deg h = All-map deg (λ entry e. ground arith) h
lower_each-counts f (m ∷ ms) deg h =
    lower_each-counts f ms (lower m deg) (lower-counts f m ms deg h)

All-delete {ℓ} : (P : Str × ℤ → Type ℓ) (n : Str) (deg : Degrees) → All P deg → All P (delete n deg)
unfolding delete
All-delete P n [] h = tt
All-delete P n ((k, d) ∷ deg) h = elim (Bool-cases (str_eq k n)) [
  | inl e ↦ rw e (All-delete P n deg h.1)
  | inr e ↦ rw e (h.0, All-delete P n deg h.1)
]

-- Taking a name out of a set of names, seen from a list.
among-split :
    (n : Str) (ks ks' xs : List Str)
    → ((x : Str) → contains x ks ≡ (str_eq n x || contains x ks'))
    → contains n ks' ≡ false
    → among ks xs ≡ among ks' xs + count n xs
unfolding count
among-split n ks ks' [] same gone = ground arith
among-split n ks ks' (x ∷ xs) same gone =
    ground (arith, among-split n ks ks' xs same gone, same x, str_eq_iff n x, str_eq_iff x n)

-- Placing a node that was waiting keeps the counters right.
pub place-IsCounted :
    (g : Graph) (n : Str) (deg : Degrees)
    → IsConsistent g
    → contains n (keys deg) ≡ true
    → IsCounted g deg
    → IsCounted g (place g n deg)
unfolding place
place-IsCounted g n deg consistent waits h = rw (keys-lower_each (g.outs n) (delete n deg)) (
    lower_each-counts (λ k. among (keys (delete n deg)) (g.ins k)) (g.outs n) (delete n deg)
      (All-delete _ n deg (
        All-map deg
          (λ entry e.
            e
            ∙ ap pos (
                split (g.ins entry.0)
                ∙ ap (λ c. among (keys (delete n deg)) (g.ins entry.0) + c)
                    (sym (consistent n entry.0))))
          h)))
  where
    others : (x : Str) → contains x (keys deg) ≡ (str_eq n x || contains x (keys (delete n deg)))
    others x = ground (
      arith,
      count-keys-delete x n deg,
      contains_iff x (keys deg),
      contains_iff x (keys (delete n deg)),
      str_eq_iff n x,
    )

    gone : contains n (keys (delete n deg)) ≡ false
    gone =
        ground
          (arith, count-keys-delete n n deg, contains_iff n (keys (delete n deg)), str_eq_refl n)

    split : (xs : List Str) → among (keys deg) xs ≡ among (keys (delete n deg)) xs + count n xs
    split xs = among-split n (keys deg) (keys (delete n deg)) xs others gone

-- A round of the loop, for counters that say `f`.
module _ (f : Str → ℕ) where
  pub count-ready :
      (a : Str) (deg : Degrees)
      → All (λ entry. entry.1 ≡ pos (f entry.0)) deg
      → count a (ready deg) ≡ (if f a == 0 then count a (keys deg) else 0)
  unfolding ready count
  count-ready a [] h = ground arith
  count-ready a ((k, pos zero) ∷ deg) h =
      let e = h.0 in ground (arith, count-ready a deg h.1, str_eq_iff k a)
  count-ready a ((k, pos (suc d)) ∷ deg) h =
      let e = h.0 in ground (arith, count-ready a deg h.1, str_eq_iff k a)
  count-ready a ((k, ℤ.negsuc d) ∷ deg) h = let e = h.0 in cc

-- Distinct waiting names are placed one after the other.
pub place_level-IsCounted :
    (g : Graph) (level : List Str) (deg : Degrees)
    → IsConsistent g
    → ((a : Str) → count a level ≤ 1)
    → ((a : Str) → contains a level ≡ true → contains a (keys deg) ≡ true)
    → IsCounted g deg
    → IsCounted g (place_level g level deg)
unfolding place_level contains count
place_level-IsCounted g [] deg consistent once waits h = h
place_level-IsCounted g (n ∷ level) deg consistent once waits h =
    place_level-IsCounted g level (place g n deg) consistent
      (λ a. let single = once a in ground arith)
      (λ a m.
        let single = once a in
        let waiting = waits a in
        ground (
          arith,
          count-keys-place g a n deg,
          contains_iff a (keys deg),
          contains_iff a (keys (place g n deg)),
          contains_iff a level,
        ))
      (place-IsCounted g n deg consistent (waits n (ground (arith, str_eq_refl n))) h)

pub count-ready-le : (a : Str) (deg : Degrees) → count a (ready deg) ≤ count a (keys deg)
unfolding ready count
count-ready-le a [] = omega arith
count-ready-le a ((k, d) ∷ deg) = ground (arith, count-ready-le a deg)

length-lower : (m : Str) (deg : Degrees) → length (lower m deg) ≡ length deg
unfolding lower
length-lower m deg = length-map _ deg

length-lower_each : (ms : List Str) (deg : Degrees) → length (lower_each ms deg) ≡ length deg
unfolding lower_each
length-lower_each [] deg = refl
length-lower_each (m ∷ ms) deg = length-lower_each ms (lower m deg) ∙ length-lower m deg

length-delete-lt :
    (n : Str) (deg : Degrees) → contains n (keys deg) ≡ true → length (delete n deg) < length deg
unfolding delete contains
length-delete-lt n [] h = cc
length-delete-lt n ((k, d) ∷ deg) h =
    ground
      (arith, length-delete-lt n deg, length-keep (λ (entry : Str × ℤ). not (str_eq entry.0 n)) deg)

length-place-le : (g : Graph) (n : Str) (deg : Degrees) → length (place g n deg) ≤ length deg
unfolding place delete
length-place-le g n deg = omega (
  arith,
  length-lower_each (g.outs n) (delete n deg),
  length-keep (λ (entry : Str × ℤ). not (str_eq entry.0 n)) deg,
)

length-place_level-le :
    (g : Graph) (level : List Str) (deg : Degrees) → length (place_level g level deg) ≤ length deg
unfolding place_level
length-place_level-le g [] deg = omega arith
length-place_level-le g (n ∷ level) deg =
    omega (arith, length-place_level-le g level (place g n deg), length-place-le g n deg)

-- A level that is not empty leaves fewer nodes waiting.
pub length-place_level-lt :
    (g : Graph) (n : Str) (level : List Str) (deg : Degrees)
    → contains n (keys deg) ≡ true
    → length (place_level g (n ∷ level) deg) < length deg
unfolding place_level place
length-place_level-lt g n level deg h = omega (
  arith,
  length-place_level-le g level (place g n deg),
  length-lower_each (g.outs n) (delete n deg),
  length-delete-lt n deg h,
)

pub among-all :
    (ks xs : List Str)
    → ((x : Str) → contains x xs ≡ true → contains x ks ≡ true)
    → among ks xs ≡ length xs
unfolding contains
among-all ks [] h = refl
among-all ks (x ∷ xs) h =
    rw (h x (ground (arith, str_eq_refl x))) (ap suc (among-all ks xs (λ y m. h y (ground arith))))

pub among-none :
    (p : Str) (ks xs : List Str) → among ks xs ≡ 0 → 0 < count p xs → contains p ks ≡ false
unfolding count
among-none p ks [] e h = absurd (omega arith)
among-none p ks (x ∷ xs) e h = ground (arith, among-none p ks xs, str_eq_iff x p)
