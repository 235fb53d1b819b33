-- ===== src/Graph/Topo/Order.antt =====
-- `Levels` ends, places every node once, and places it behind its dependencies.
use terragraph.Prelude.{
  ℕ, zero, suc, ◌+◌, ◌≡◌, ◌≤◌, ◌<◌, ◌≢◌, inl, inr, refl, ap, sym, ◌∙◌, ◌⊎◌, ==_iff, subst, arith,
  true, Str, str_eq_refl, List, [], ◌∷◌, ◌++◌, map, flatten, some, sort, length, is_nil, ◌==◌, All,
  contains, count, contains_iff, length-eq_of_count, Bool-cases, if_false, count-sort,
  sort-IsSorted, sort-eq_nil, IsSorted, length-append, count-append, append_assoc, All-append,
  All-count, append-nil, List-cases, length-map,
}
use terragraph.Prelude.Int.{ℤ, pos}
use terragraph.Graph.{Graph, IsGraph}
use terragraph.Graph.Topo.{
  Degrees, keys, in_degrees, ready, place_level, layers, levels, topo_sort, Outcome, ok, cyclic,
  out_of_fuel,
}
use terragraph.Graph.Topo.Round.{
  among, among-all, among-none, count-ready-le, length-place_level-lt, IsCounted,
  count-keys-place_level, count-ready, place_level-IsCounted,
}

-- Every dependency of a node stands in an earlier layer, or in `seen`.
abbrev pub IsLayered : Graph → List Str → List (List Str) → Type 0
IsLayered g seen [] = Unit
IsLayered g seen (level ∷ rest) =
    All (λ n. All (λ p. contains p seen ≡ true) (g.ins n)) level × IsLayered g (seen ++ level) rest

flatten-snoc : (ls : List (List Str)) (l : List Str) → flatten (ls ++ l ∷ []) ≡ flatten ls ++ l
unfolding flatten
flatten-snoc [] l = append-nil l
flatten-snoc (x ∷ ls) l = ap (λ r. x ++ r) (flatten-snoc ls l) ∙ sym (append_assoc x (flatten ls) l)

IsLayered-snoc :
    (g : Graph) (seen : List Str) (ls : List (List Str)) (l : List Str)
    → IsLayered g seen ls
    → All (λ n. All (λ p. contains p (seen ++ flatten ls) ≡ true) (g.ins n)) l
    → IsLayered g seen (ls ++ l ∷ [])
unfolding flatten
IsLayered-snoc g seen [] l h new = (rw append-nil at new, tt)
IsLayered-snoc g seen (x ∷ ls) l h new =
    (h.0, IsLayered-snoc g (seen ++ x) ls l h.1 (rw append_assoc new))

-- The loop's state: the nodes are split between the layers and the waiting ones.
pub record Inv (g : Graph) (deg : Degrees) (ls : List (List Str)) (placed : ℕ) : Type 0 where
  pub split : (a : Str) → count a g.nodes ≡ count a (flatten ls) + count a (keys deg)
  pub tally : placed ≡ length (flatten ls)
  pub sorted : All IsSorted ls
  pub counted : IsGraph g → IsCounted g deg
  pub layered : IsGraph g → IsLayered g [] ls

module _ (g : Graph) (distinct : (a : Str) → count a g.nodes ≤ 1) where
  pub keys-in_degrees : keys (in_degrees g) ≡ g.nodes
  unfolding in_degrees
  keys-in_degrees = keys-counters g.nodes
    where
      keys-counters :
          (names : List Str) → keys (map (λ name. (name, pos (length (g.ins name)))) names) ≡ names
      keys-counters [] = refl
      keys-counters (n ∷ names) = ap (λ r. n ∷ r) (keys-counters names)

  pub Inv-start : Inv g (in_degrees g) [] 0
  unfolding flatten count in_degrees
  Inv-start = record {
    split = λ a. omega (arith, ap (count a) keys-in_degrees);
    tally = refl;
    sorted = tt;
    counted = λ built. rw keys-in_degrees (counters built g.nodes);
    layered = λ built. tt;
  }
    where
      counters :
          IsGraph g
          → (names : List Str)
          → All {A = Str × ℤ}
              (λ entry. entry.1 ≡ pos (among g.nodes (g.ins entry.0)))
              (map (λ name. (name, pos (length (g.ins name)))) names)
      counters built [] = tt
      counters built (n ∷ names) =
          (ap pos (sym (among-all g.nodes (g.ins n) (λ p. built.closed p n))), counters built names)

  module _ (deg : Degrees) (ls : List (List Str)) (placed : ℕ) (h : Inv g deg ls placed) where
    count-level : (a : Str) → count a (sort (ready deg)) ≤ count a (keys deg)
    count-level a = omega (arith, count-sort a (ready deg), count-ready-le a deg)

    -- A node of the new layer waits for nothing.
    free : IsGraph g → (n : Str) → 0 < count n (sort (ready deg)) → among (keys deg) (g.ins n) ≡ 0
    free built n m = ground (
      arith,
      count-sort n (ready deg),
      count-ready (λ k. among (keys deg) (g.ins k)) n deg (h.counted built),
    )

    placed_before :
        IsGraph g
        → (n p : Str) → 0 < count n (sort (ready deg))
        → 0 < count p (g.ins n)
        → contains p (flatten ls) ≡ true
    placed_before built n p m dep = ground (
      arith,
      h.split p,
      built.closed p n,
      contains_iff p (g.ins n),
      contains_iff p g.nodes,
      contains_iff p (keys deg),
      contains_iff p (flatten ls),
      among-none p (keys deg) (g.ins n) (free built n m) dep,
    )

    Inv-round :
        Inv g
          (place_level g (sort (ready deg)) deg)
          (ls ++ sort (ready deg) ∷ [])
          (placed + length (sort (ready deg)))
    Inv-round =
        let level = sort (ready deg) in
        record {
          split = λ a. rw (flatten-snoc ls level) (
              ground (
                arith,
                h.split a,
                distinct a,
                count-append a (flatten ls) level,
                count-keys-place_level g a level deg,
                contains_iff a level,
                count-level a,
              ));
          tally =
              rw (flatten-snoc ls level) (omega (arith, h.tally, length-append (flatten ls) level));
          sorted = All-append IsSorted ls (level ∷ []) h.sorted (sort-IsSorted (ready deg), tt);
          counted = λ built.
              place_level-IsCounted g level deg built.consistent
                (λ a. omega (arith, count-level a, h.split a, distinct a))
                (λ a m.
                  ground (arith, count-level a, contains_iff a level, contains_iff a (keys deg)))
                (h.counted built);
          layered = λ built. IsLayered-snoc g [] ls level (h.layered built) (
              All-count level
                (λ n m. All-count (g.ins n) (λ p dep. placed_before built n p m dep)));
        }

  -- The loop ends, where no waiting node is ready, in a state that keeps the invariant.
  pub record Final (ls : List (List Str)) (placed : ℕ) : Type 0 where
    pub deg : Degrees
    pub inv : Inv g deg ls placed
    pub stuck : ready deg ≡ []

  shorter :
      (deg : Degrees) (n : Str) (level : List Str)
      → sort (ready deg) ≡ n ∷ level
      → length (place_level g (sort (ready deg)) deg) < length deg
  unfolding count
  shorter deg n level e = rw e (length-place_level-lt g n level deg waits)
    where
      waits : contains n (keys deg) ≡ true
      waits = (contains_iff n (keys deg)).1 (
          ground
            (arith, count-ready-le n deg, count-sort n (ready deg), ap (count n) e, str_eq_refl n))

  layers-Final :
      (fuel : ℕ) (deg : Degrees) (ls : List (List Str)) (placed : ℕ)
      → length deg < fuel
      → Inv g deg ls placed
      → (ls' : List (List Str)) × (placed' : ℕ) × (layers g fuel deg ls placed
          ≡ some (ls', placed'))
        × Final ls' placed'
  unfolding layers
  layers-Final zero deg ls placed bound h = absurd (omega arith)
  layers-Final (suc fuel) deg ls placed bound h =
      let level = sort (ready deg) in
      elim (List-cases level) [
        | inl none_ready ↦
            let final : Final ls placed = record {
              deg = deg;
              inv = h;
              stuck = sort-eq_nil (ready deg) none_ready;
            } in
            (ls, placed, rw none_ready, final)
        | inr (n, rest, e) ↦
            let (ls', placed', ends, final) =
              layers-Final fuel (place_level g level deg) (ls ++ level ∷ []) (placed + length level)
                (omega (arith, shorter deg n rest e)) (Inv-round deg ls placed h) in
            (ls', placed', if_false _ _ _ (ap is_nil e) ∙ ends, final)
      ]

  length-in_degrees : length (in_degrees g) ≡ length g.nodes
  unfolding in_degrees
  length-in_degrees = length-map _ g.nodes

  pub layers-start :
      (ls : List (List Str)) × (placed : ℕ) × (layers g (suc (length g.nodes)) (in_degrees g) [] 0
        ≡ some (ls, placed))
      × Final ls placed
  layers-start =
      layers-Final (suc (length g.nodes)) (in_degrees g) [] 0 (omega (arith, length-in_degrees))
        Inv-start

-- What the result of `Levels` says of the state in which its loop ended.
pub record Ended (g : Graph) (ls : List (List Str)) : Type 0 where
  pub placed : ℕ
  pub deg : Degrees
  pub inv : Inv g deg ls placed
  pub stuck : ready deg ≡ []

module _ (g : Graph) (distinct : (a : Str) → count a g.nodes ≤ 1) where
  -- The two ways in which `Levels` ends.
  pub levels_cases :
      (ls : List (List Str)) × (end : Ended g ls) × ((levels g ≡ ok ls)
          × (end.placed ≡ length g.nodes)
        ⊎ (levels g ≡ cyclic) × (end.placed ≢ length g.nodes))
  unfolding levels
  levels_cases =
      let (ls, placed, e, final) = layers-start g distinct in
      let end : Ended g ls = record {
        placed = placed;
        deg = final.deg;
        inv = final.inv;
        stuck = final.stuck;
      } in
      (
        ls,
        end,
        elim (Bool-cases (placed == length g.nodes)) [
          | inl all ↦ inl (rw e (rw all), (==_iff placed (length g.nodes)).0 all)
          | inr some_left ↦
              inr (rw e (rw some_left), λ same. cc ((==_iff placed (length g.nodes)).1 same))
        ],
      )

-- `Levels` ends on every graph.
pub levels-ne-out_of_fuel : (g : Graph) → ((a : Str) → count a g.nodes ≤ 1) → levels g ≢ out_of_fuel
levels-ne-out_of_fuel g distinct e =
    let (ls, end, ends) = levels_cases g distinct in
    elim ends [ inl (h, all) ↦ cc | inr (h, some_left) ↦ cc ]

module _ (g : Graph) (ls : List (List Str)) (built : IsGraph g) (e : levels g ≡ ok ls) where
  levels-Ended : (end : Ended g ls) × (end.placed ≡ length g.nodes)
  levels-Ended =
      let (ls', end, ends) = levels_cases g built.distinct in
      elim ends [
        | inl (h, all) ↦
            let same : ls' ≡ ls = cc in
            subst (λ l. (end : Ended g l) × (end.placed ≡ length g.nodes)) same (end, all)
        | inr (h, some_left) ↦ absurd (cc)
      ]

-- A layered schedule of the graph: every node once, each behind its dependencies, and in each
-- layer the names in increasing order.
pub record IsSchedule (g : Graph) (ls : List (List Str)) : Type 0 where
  pub complete : (a : Str) → count a (flatten ls) ≡ count a g.nodes
  pub layered : IsLayered g [] ls
  pub sorted : All IsSorted ls

all_placed :
    (g : Graph) (ls : List (List Str)) (end : Ended g ls)
    → end.placed ≡ length g.nodes
    → keys end.deg ≡ []
all_placed g ls end all = elim (List-cases (keys end.deg)) [
  | inl empty ↦ empty
  | inr (k, rest, e) ↦ absurd (
      omega (
        arith,
        all,
        end.inv.tally,
        length-append (flatten ls) (keys end.deg),
        length-eq_of_count g.nodes (flatten ls ++ keys end.deg)
            (λ a. end.inv.split a ∙ sym (count-append a (flatten ls) (keys end.deg))),
        ap length e,
      ))
]

-- When `Levels` succeeds, its layers are a schedule of the graph.
pub levels-IsSchedule :
    (g : Graph) (ls : List (List Str)) → IsGraph g → levels g ≡ ok ls → IsSchedule g ls
unfolding count
levels-IsSchedule g ls built e =
    let (end, all) = levels-Ended g ls built e in
    record {
      complete = λ a. omega (arith, end.inv.split a, ap (count a) (all_placed g ls end all));
      layered = end.inv.layered built;
      sorted = end.inv.sorted;
    }

-- `TopoSort` flattens the layers.
pub topo_sort-eq_ok :
    (g : Graph) (order : List Str)
    → topo_sort g ≡ ok order
    → (ls : List (List Str)) × (levels g ≡ ok ls) × (order ≡ flatten ls)
unfolding topo_sort
topo_sort-eq_ok g order e = go (levels g) refl
  where
    go :
        (r : Outcome (List (List Str)))
        → levels g ≡ r
        → (ls : List (List Str)) × (levels g ≡ ok ls) × (order ≡ flatten ls)
    go (ok ls) h = (ls, h, cc)
    go cyclic h = absurd (cc)
    go out_of_fuel h = absurd (cc)
