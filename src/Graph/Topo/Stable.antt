-- ===== src/Graph/Topo/Stable.antt =====
-- `Levels` ranges over Go maps, whose order changes from run to run. Its result does not: it is
-- the same for every order in which the keys of the map `Nodes` may come.
use terragraph.Prelude.{
  ℕ, zero, suc, ◌+◌, ◌≡◌, ◌≤◌, refl, ap, ap₂, ◌∙◌, arith, Str, List, [], ◌∷◌, ◌++◌, contains, count,
  contains_iff, length, length-eq_of_count, sort, sort_eq, count-sort, is_nil, if◌then◌else◌, some,
}
use terragraph.Graph.{Graph, IsGraph, IsConsistent}
use terragraph.Graph.Topo.{
  Degrees, keys, in_degrees, ready, place, place_level, layers, levels, conclude,
}
use terragraph.Graph.Topo.Round.{
  among, IsCounted, count-ready, count-ready-le, count-keys-place_level, place_level-IsCounted,
}
use terragraph.Graph.Topo.Order.{keys-in_degrees, Inv-start}

-- The graph with the keys of its node map listed in another order.
abbrev pub relist : Graph → List Str → Graph
relist g names = record g { nodes = names }

place_level-relist :
    (g : Graph) (names level : List Str) (deg : Degrees)
    → place_level (relist g names) level deg ≡ place_level g level deg
unfolding place_level place
place_level-relist g names [] deg = refl
place_level-relist g names (n ∷ level) deg = place_level-relist g names level (place g n deg)

layers-relist :
    (g : Graph) (names : List Str) (fuel : ℕ) (deg : Degrees) (ls : List (List Str)) (placed : ℕ)
    → layers (relist g names) fuel deg ls placed ≡ layers g fuel deg ls placed
unfolding layers
layers-relist g names zero deg ls placed = refl
layers-relist g names (suc fuel) deg ls placed =
    let level = sort (ready deg) in
    ap (λ r. if is_nil level then some (ls, placed) else r)
      (layers-relist g names fuel (place_level (relist g names) level deg) (ls ++ level ∷ [])
          (placed + length level)
        ∙ ap (λ d. layers g fuel d (ls ++ level ∷ []) (placed + length level))
            (place_level-relist g names level deg))

abbrev SameKeys : Degrees → Degrees → Type 0
SameKeys d e = (a : Str) → count a (keys d) ≡ count a (keys e)

among-same :
    (ks ks' xs : List Str)
    → ((a : Str) → contains a ks ≡ contains a ks')
    → among ks xs ≡ among ks' xs
among-same ks ks' [] same = refl
among-same ks ks' (x ∷ xs) same = ground (arith, same x, among-same ks ks' xs same)

module _ (g : Graph) (consistent : IsConsistent g) where
  ready-same :
      (d e : Degrees)
      → SameKeys d e
      → IsCounted g d
      → IsCounted g e
      → (a : Str) → count a (ready d) ≡ count a (ready e)
  ready-same d e same cd ce a = ground (
    arith,
    count-ready (λ k. among (keys d) (g.ins k)) a d cd,
    count-ready (λ k. among (keys e) (g.ins k)) a e ce,
    same a,
    among-same (keys d) (keys e) (g.ins a)
        (λ x. ground (arith, contains_iff x (keys d), contains_iff x (keys e), same x)),
  )

  -- Placing a level keeps the counters right, whichever way the level was found.
  round-IsCounted :
      (d : Degrees)
      → ((a : Str) → count a (keys d) ≤ 1)
      → IsCounted g d
      → IsCounted g (place_level g (sort (ready d)) d)
  round-IsCounted d once cd =
      place_level-IsCounted g (sort (ready d)) d consistent
        (λ a. omega (arith, once a, count-sort a (ready d), count-ready-le a d))
        (λ a m. ground (
          arith,
          count-sort a (ready d),
          count-ready-le a d,
          contains_iff a (sort (ready d)),
          contains_iff a (keys d),
        ))
        cd

  layers-same :
      (fuel : ℕ) (d e : Degrees) (ls : List (List Str)) (placed : ℕ)
      → SameKeys d e
      → ((a : Str) → count a (keys d) ≤ 1)
      → IsCounted g d
      → IsCounted g e
      → layers g fuel d ls placed ≡ layers g fuel e ls placed
  unfolding layers
  layers-same zero d e ls placed same once cd ce = refl
  layers-same (suc fuel) d e ls placed same once cd ce =
      let level = sort (ready e) in
      rw (sort_eq (ready d) (ready e) (ready-same d e same cd ce)) (
        ap (λ r. if is_nil level then some (ls, placed) else r)
          (layers-same fuel (place_level g level d) (place_level g level e) (ls ++ level ∷ [])
            (placed + length level)
            (λ a. ground (
              arith,
              count-keys-place_level g a level d,
              count-keys-place_level g a level e,
              same a,
            ))
            (λ a. ground (arith, count-keys-place_level g a level d, once a))
            (rw (sort_eq (ready d) (ready e) (ready-same d e same cd ce)) at
              (round-IsCounted d once cd))
            (round-IsCounted e (λ a. rw (same a) at (once a)) ce)))

-- The layers do not depend on the order in which the map of nodes is read.
pub levels-relist :
    (g : Graph) (names : List Str)
    → IsGraph g
    → ((a : Str) → count a names ≡ count a g.nodes)
    → levels (relist g names) ≡ levels g
unfolding levels
levels-relist g names built same = ap₂ conclude long (
    layers-relist g names _ _ [] 0
    ∙ ap (λ l. layers g (suc l) (in_degrees (relist g names)) [] 0) long
    ∙ layers-same g built.consistent (suc (length g.nodes)) (in_degrees (relist g names))
        (in_degrees g) [] 0 start_same
        (λ a. omega (arith, start_same a, ap (count a) from, built.distinct a))
        ((Inv-start (relist g names) listed.distinct).counted listed)
        ((Inv-start g built.distinct).counted built))
  where
    long : length names ≡ length g.nodes
    long = length-eq_of_count names g.nodes same

    listed : IsGraph (relist g names)
    listed = record {
      distinct = λ a. omega (arith, same a, built.distinct a);
      consistent = built.consistent;
      closed = λ a b e.
          ground (arith, built.closed a b e, contains_iff a g.nodes, contains_iff a names, same a);
      closed_out = λ a b e.
          ground
            (arith, built.closed_out a b e, contains_iff b g.nodes, contains_iff b names, same b);
    }

    from : keys (in_degrees g) ≡ g.nodes
    from = keys-in_degrees g built.distinct

    to : keys (in_degrees (relist g names)) ≡ names
    to = keys-in_degrees (relist g names) listed.distinct

    start_same : SameKeys (in_degrees (relist g names)) (in_degrees g)
    start_same a = omega (arith, ap (count a) from, ap (count a) to, same a)
