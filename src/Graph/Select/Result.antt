-- ===== src/Graph/Select/Result.antt =====
-- What `Select` returns: it always returns, and the selection that it returns comes from checked
-- seeds and the set of `closure`.
use terragraph.Prelude.{
  ◌≡◌, ◌≢◌, ◌≤◌, ◌⊎◌, ◌↔◌, inl, inr, refl, ap, sym, ◌∙◌, arith, Bool, true, false, Str, str_eq,
  str_eq_iff, List, [], ◌∷◌, map, contains, count, Bool-cases, subst, Option, some, none, sort,
  compact, sort-IsSorted, compact-IsIncreasing, IsIncreasing, count-increasing, is_nil,
  Option-cases, contains-sort, contains-compact, count-sort, sorted-IsIncreasing,
}
use terragraph.Graph.{Graph, IsGraph}
use terragraph.Graph.Select.{
  check_seed, check_seeds, select, select_seeds, selected, refused, Selection, build_selection,
  describe, names,
}
use terragraph.Graph.Select.Spread.{IsSelected, closure-IsSelected, Reach, seed, next}

-- The seeds that `Select` works with.
abbrev pub seeds_of : List Str → List Str
seeds_of requested = compact (sort requested)

pub seeds_of-IsIncreasing : (requested : List Str) → IsIncreasing (seeds_of requested)
seeds_of-IsIncreasing requested = compact-IsIncreasing (sort requested) (sort-IsSorted requested)

seeds_of_once : (requested : List Str) (n : Str) → count n (seeds_of requested) ≤ 1
seeds_of_once requested n =
    count-increasing n (seeds_of requested) (seeds_of-IsIncreasing requested)

check_seed_passed :
    (g : Graph) (name : Str)
    → check_seed g name ≡ none
    → (is_nil name ≡ false) × (contains name g.nodes ≡ true)
unfolding check_seed
check_seed_passed g name e = ground arith

pub check_seeds_passed :
    (g : Graph) (seeds : List Str)
    → check_seeds g seeds ≡ none
    → (n : Str) → contains n seeds ≡ true
    → (is_nil n ≡ false) × (contains n g.nodes ≡ true)
unfolding check_seeds contains
check_seeds_passed g [] e n m = absurd (cc)
check_seeds_passed g (name ∷ seeds) e n m = elim (Option-cases (check_seed g name)) [
  | inr (err, failed) ↦ absurd (ground arith)
  | inl passed ↦ elim (Bool-cases (str_eq name n)) [
    | inl same ↦ rw (← (str_eq_iff name n).0 same) (check_seed_passed g name passed)
    | inr other ↦ check_seeds_passed g seeds (ground arith) n (ground arith)
  ]
]

-- A returned selection, taken apart.
pub record Chosen (g : Graph) (requested : List Str) (downstream : Bool) (s : Selection)
    : Type 0 where
  pub checked : check_seeds g (seeds_of requested) ≡ none
  pub members : List Str
  pub is_selected : IsSelected g (seeds_of requested) downstream members
  pub built : s ≡ build_selection g (seeds_of requested) downstream members

module _ (g : Graph) (well : IsGraph g) where
  select_seeds_cases :
      (requested : List Str) (downstream : Bool)
      → ((e : _) × (select_seeds g (seeds_of requested) downstream ≡ some (refused e)))
        ⊎ ((s : Selection) × (select_seeds g (seeds_of requested) downstream ≡ some (selected s))
            × Chosen g requested downstream s)
  unfolding select_seeds
  select_seeds_cases requested downstream =
      let seeds = seeds_of requested in
      elim (Option-cases (check_seeds g seeds)) [
        | inr (e, failed) ↦ inl (e, rw (failed, select_seeds))
        | inl passed ↦
            let (ms, ends, h) =
              closure-IsSelected g seeds downstream well (seeds_of_once requested)
                (λ n m. (check_seeds_passed g seeds passed n m).1) in
            inr (
              build_selection g seeds downstream ms,
              rw (passed, select_seeds) (rw ends),
              record { checked = passed; members = ms; is_selected = h; built = refl },
            )
      ]

  -- `Select` returns for every request.
  pub select-ne-none :
      (requested : Option (List Str)) (downstream : Bool) → select g requested downstream ≢ none
  unfolding select
  select-ne-none none false e = cc
  select-ne-none none true e = cc
  select-ne-none (some []) downstream e = cc
  select-ne-none (some (r ∷ rest)) downstream e = elim (select_seeds_cases (r ∷ rest) downstream) [
    | inl (err, h) ↦ cc
    | inr (s, h, chosen) ↦ cc
  ]

  pub select-Chosen :
      (requested : List Str) (downstream : Bool) (s : Selection)
      → select g (some requested) downstream ≡ some (selected s)
      → Chosen g requested downstream s
  unfolding select
  select-Chosen [] downstream s e = absurd (cc)
  select-Chosen (r ∷ rest) downstream s e = elim (select_seeds_cases (r ∷ rest) downstream) [
    | inl (err, h) ↦ absurd (cc)
    | inr (s', h, chosen) ↦ subst (Chosen g (r ∷ rest) downstream) (cc) chosen
  ]

names-map :
    (g : Graph) (seeds members xs : List Str)
    → map (λ n. n.node) (map (describe g seeds members) xs) ≡ xs
unfolding describe
names-map g seeds members [] = refl
names-map g seeds members (x ∷ xs) = ground (arith, names-map g seeds members xs)

pub names-build_selection :
    (g : Graph) (seeds : List Str) (downstream : Bool) (members : List Str)
    → names (build_selection g seeds downstream members) ≡ sort members
unfolding names build_selection
names-build_selection g seeds downstream members = names-map g seeds members (sort members)

-- The names of a selection are increasing, and they are exactly the chosen members.
pub names-IsIncreasing :
    (g : Graph) (requested : List Str) (downstream : Bool) (s : Selection)
    → Chosen g requested downstream s
    → IsIncreasing (names s)
names-IsIncreasing g requested downstream s h =
    rw (ap names h.built ∙ names-build_selection g _ downstream h.members) (
      sorted-IsIncreasing (sort h.members) (sort-IsSorted h.members)
        (λ a. rw (count-sort a h.members) (h.is_selected.distinct a)))

pub contains-names :
    (g : Graph) (requested : List Str) (downstream : Bool) (s : Selection)
    → (h : Chosen g requested downstream s) → (n : Str)
    → contains n (names s) ≡ contains n h.members
contains-names g requested downstream s h n =
    ap (contains n) (ap names h.built ∙ names-build_selection g _ downstream h.members)
    ∙ contains-sort n h.members

pub contains-seeds_of :
    (requested : List Str) (n : Str) → contains n (seeds_of requested) ≡ contains n requested
contains-seeds_of requested n = contains-compact n (sort requested) ∙ contains-sort n requested

Reach-same :
    (g : Graph) (a b : List Str)
    → ((n : Str) → contains n a ≡ contains n b)
    → (n : Str) → Reach g a n
    → Reach g b n
Reach-same g a b same n (seed m) = seed (sym (same n) ∙ m)
Reach-same g a b same n (next {u} r e) = next (Reach-same g a b same u r) e

-- `Select` covers, in increasing order, the requested nodes and with --downstream everything that
-- an edge path leads to from them, and nothing else.
pub select_members :
    (g : Graph) (requested : List Str) (downstream : Bool) (s : Selection)
    → IsGraph g
    → select g (some requested) downstream ≡ some (selected s)
    → IsIncreasing (names s)
      × (downstream ≡ true → (n : Str) → (contains n (names s) ≡ true) ↔ Reach g requested n)
      × (downstream ≡ false → (n : Str) → contains n (names s) ≡ contains n requested)
select_members g requested downstream s well e =
    let h = select-Chosen g well requested downstream s e in
    let in_names = contains-names g requested downstream s h in
    let seeds = seeds_of requested in
    (
      names-IsIncreasing g requested downstream s h,
      λ all n.
          let reachable = h.is_selected.reachable all n in
          (
            λ m.
                Reach-same g seeds requested (contains-seeds_of requested) n
                  (reachable.0 (sym (in_names n) ∙ m)),
            λ r.
                in_names n
                ∙ reachable.1
                    (Reach-same g requested seeds (λ x. sym (contains-seeds_of requested x)) n r),
          ),
      λ only n.
          in_names n ∙ ap (contains n) (h.is_selected.exact only) ∙ contains-seeds_of requested n,
    )
