-- ===== src/Graph/Topo/Cycles.antt =====
-- `Levels` fails exactly on the graphs with a cycle.
use terragraph.Prelude.{
  ℕ, zero, suc, ◌+◌, ◌≡◌, ◌≤◌, ◌<◌, ◌↔◌, inl, inr, refl, ap, sym, ◌∙◌, arith, true, false, ◌||◌,
  Str, str_eq, str_eq_iff, str_eq_refl, List, [], ◌∷◌, ◌++◌, flatten, All, contains, count,
  contains_iff, Bool-cases, count-append, contains-append, All-of_count, subst, length,
  length-le_of_count, List-cases, length-eq_of_count,
}
use terragraph.Graph.{Graph, IsGraph}
use terragraph.Graph.Topo.{keys, levels, ok, cyclic}
use terragraph.Graph.Topo.Round.{among, count-ready}
use terragraph.Graph.Topo.Order.{IsLayered, IsSchedule, levels-IsSchedule, levels_cases, Ended}

-- The walks from `a` along at least one edge.
pub data Walk (g : Graph) (a : Str) : Str → Type 0 where
  edge : {b : Str} → contains a (g.ins b) ≡ true → Walk g a b
  step : {b c : Str} → Walk g a b → contains b (g.ins c) ≡ true → Walk g a c

pub IsClosed : Graph → List Str → Type 0
IsClosed g seen =
    (p n : Str) → contains n seen ≡ true → contains p (g.ins n) ≡ true → contains p seen ≡ true

-- A set that holds the dependencies of its members holds what leads to them.
Walk-closed :
    (g : Graph) (seen : List Str) (a b : Str)
    → IsClosed g seen
    → Walk g a b
    → contains b seen ≡ true
    → contains a seen ≡ true
unfolding IsClosed
Walk-closed g seen a b closed (edge e) m = closed a b m e
Walk-closed g seen a c closed (step {b} w e) m = Walk-closed g seen a b closed w (closed b c m e)

-- A walk to a node of a layer begins before the layer.
Walk-before :
    (g : Graph) (seen level : List Str) (a b : Str)
    → IsClosed g seen
    → All (λ n. All (λ p. contains p seen ≡ true) (g.ins n)) level
    → Walk g a b
    → contains b level ≡ true
    → contains a seen ≡ true
Walk-before g seen level a b closed h w m = last w m
  where
    dep :
        (p n : Str) → contains n level ≡ true → contains p (g.ins n) ≡ true → contains p seen ≡ true
    dep p n m e =
        All-of_count (λ p. contains p seen ≡ true) (g.ins n) p
          (All-of_count (λ n. All (λ p. contains p seen ≡ true) (g.ins n)) level n h
            ((contains_iff n level).0 m))
          ((contains_iff p (g.ins n)).0 e)

    last : {b : Str} → Walk g a b → contains b level ≡ true → contains a seen ≡ true
    last (edge {b} e) m = dep a b m e
    last (step {b} {c} w e) m = Walk-closed g seen a b closed w (dep b c m e)

no_cycle :
    (g : Graph) (seen : List Str) (ls : List (List Str)) (a : Str)
    → IsClosed g seen
    → IsLayered g seen ls
    → ((x : Str) → count x seen + count x (flatten ls) ≤ 1)
    → Walk g a a
    → contains a (flatten ls) ≡ false
unfolding flatten IsClosed contains
no_cycle g seen [] a closed h once w = refl
no_cycle g seen (level ∷ ls) a closed h once w = elim (Bool-cases (contains a level)) [
  | inl m ↦ absurd (
      omega (
        arith,
        once a,
        (contains_iff a seen).0 (Walk-before g seen level a a closed h.0 w m),
        (contains_iff a level).0 m,
        count-append a level (flatten ls),
      ))
  | inr m ↦ ground (
    arith,
    contains-append a level (flatten ls),
    no_cycle g (seen ++ level) ls a
        (λ p n m e.
          rw (contains-append p seen level) (grown p n (rw (contains-append n seen level) at m) e))
        h.1
        (λ x. omega (arith, once x, count-append x seen level, count-append x level (flatten ls)))
        w,
  )
]
  where
    grown :
        (p n : Str)
        → (contains n seen || contains n level) ≡ true
        → contains p (g.ins n) ≡ true
        → (contains p seen || contains p level) ≡ true
    grown p n m e = elim (Bool-cases (contains n level)) [
      | inl here ↦ rw (
          All-of_count (λ p. contains p seen ≡ true) (g.ins n) p
            (All-of_count (λ n. All (λ p. contains p seen ≡ true) (g.ins n)) level n h.0
              ((contains_iff n level).0 here))
            ((contains_iff p (g.ins n)).0 e))
      | inr other ↦ let old = closed p n in ground arith
    ]

-- A list of nodes, each with an edge to the next.
abbrev IsPath : Graph → List Str → Type 0
IsPath g [] = Unit
IsPath g (x ∷ []) = Unit
IsPath g (x ∷ y ∷ r) = (contains x (g.ins y) ≡ true) × IsPath g (y ∷ r)

-- A walk to the head of a path leads on to each of its nodes.
Walk-along :
    (g : Graph) (x y : Str) (r : List Str) (b : Str)
    → Walk g x y
    → IsPath g (y ∷ r)
    → contains b (y ∷ r) ≡ true
    → Walk g x b
unfolding contains
Walk-along g x y [] b w path m = subst (Walk g x) ((str_eq_iff y b).0 (ground arith)) w
Walk-along g x y (z ∷ r) b w path m = elim (Bool-cases (str_eq y b)) [
  | inl here ↦ subst (Walk g x) ((str_eq_iff y b).0 here) w
  | inr later ↦ Walk-along g x z r b (step w path.0) path.1 (rw (later, contains) at m)
]

-- A set in which each member depends on a member holds a cycle: a path backwards comes back.
module _ (g : Graph) (set : List Str)
    (waits : (n : Str)
      → contains n set ≡ true
      → (p : Str) × (contains p set ≡ true) × (contains p (g.ins n) ≡ true)) where
  grown :
      (x p : Str) (r : List Str)
      → ((a : Str) → count a (x ∷ r) ≤ count a set)
      → contains p set ≡ true
      → contains p (x ∷ r) ≡ false
      → (a : Str) → count a (p ∷ x ∷ r) ≤ count a set
  unfolding count contains
  grown x p r fits member fresh a = elim (Bool-cases (str_eq p a)) [
    | inl e ↦
        let same = (str_eq_iff p a).0 e in
        rw (← same) (rw (str_eq_refl p) (ground (arith, contains_iff p set, contains_iff p r)))
    | inr other ↦ rw other (fits a)
  ]

  member_of_path :
      (x : Str) (r : List Str) → ((a : Str) → count a (x ∷ r) ≤ count a set) → contains x set ≡ true
  unfolding count
  member_of_path x r fits = let enough = fits x in ground (arith, str_eq_refl x, contains_iff x set)

  find-Walk :
      (fuel : ℕ) (x : Str) (r : List Str)
      → IsPath g (x ∷ r)
      → ((a : Str) → count a (x ∷ r) ≤ count a set)
      → length set < length (x ∷ r) + fuel
      → (n : Str) × Walk g n n
  find-Walk zero x r path fits long = absurd (omega (arith, length-le_of_count (x ∷ r) set fits))
  find-Walk (suc fuel) x r path fits long =
      let (p, member, dep) = waits x (member_of_path x r fits) in
      elim (Bool-cases (contains p (x ∷ r))) [
        | inl back ↦ (p, Walk-along g p x r p (edge dep) path back)
        | inr fresh ↦
            find-Walk fuel p (x ∷ r) (dep, path) (grown x p r fits member fresh) (omega arith)
      ]

-- In the state in which the loop is stuck each waiting node waits for a waiting node.
among-pos :
    (ks xs : List Str)
    → 0 < among ks xs
    → (p : Str) × (contains p ks ≡ true) × (contains p xs ≡ true)
unfolding contains
among-pos ks [] h = absurd (omega arith)
among-pos ks (x ∷ xs) h = elim (Bool-cases (contains x ks)) [
  | inl m ↦ (x, m, ground (arith, str_eq_refl x))
  | inr out ↦ let (p, member, there) = among-pos ks xs (rw out at h) in (p, member, ground arith)
]

stuck_waits :
    (g : Graph) (ls : List (List Str)) (end : Ended g ls)
    → IsGraph g
    → (n : Str) → contains n (keys end.deg) ≡ true
    → (p : Str) × (contains p (keys end.deg) ≡ true) × (contains p (g.ins n) ≡ true)
unfolding count
stuck_waits g ls end built n m = among-pos (keys end.deg) (g.ins n) (
    ground (
      arith,
      count-ready (λ k. among (keys end.deg) (g.ins k)) n end.deg (end.inv.counted built),
      ap (count n) end.stuck,
      contains_iff n (keys end.deg),
    ))

nothing_waits :
    (g : Graph) (ls : List (List Str)) (end : Ended g ls)
    → keys end.deg ≡ []
    → end.placed ≡ length g.nodes
unfolding count
nothing_waits g ls end empty =
    end.inv.tally
    ∙ sym (
        length-eq_of_count g.nodes (flatten ls)
          (λ a. omega (arith, end.inv.split a, ap (count a) empty)))

cycle_of_cyclic : (g : Graph) → IsGraph g → levels g ≡ cyclic → (n : Str) × Walk g n n
unfolding count
cycle_of_cyclic g built e =
    let (ls, end, ends) = levels_cases g built.distinct in
    elim (List-cases (keys end.deg)) [
      | inl empty ↦ absurd (elim ends [
        | inl (h, all) ↦ cc
        | inr (h, some_left) ↦ some_left (nothing_waits g ls end empty)
      ])
      | inr (x, rest, waiting) ↦
          let alone : (a : Str) → count a (x ∷ []) ≤ count a (keys end.deg) =
            λ a. rw waiting (ground arith) in
          find-Walk g (keys end.deg) (stuck_waits g ls end built) (length (keys end.deg)) x [] tt
            alone (omega arith)
    ]

Walk-source : (g : Graph) (a b : Str) → IsGraph g → Walk g a b → contains a g.nodes ≡ true
Walk-source g a b built (edge e) = built.closed a b e
Walk-source g a c built (step {b} w e) = Walk-source g a b built w

cyclic_of_cycle : (g : Graph) (n : Str) → IsGraph g → Walk g n n → levels g ≡ cyclic
unfolding IsClosed count contains
cyclic_of_cycle g n built w =
    let (ls, end, ends) = levels_cases g built.distinct in
    elim ends [
      | inr (h, some_left) ↦ h
      | inl (h, all) ↦
          let schedule = levels-IsSchedule g ls built h in
          let outside =
            no_cycle g [] ls n (λ p m in_nil _. in_nil) schedule.layered
              (λ a. omega (arith, schedule.complete a, built.distinct a)) w in
          absurd (
            ground (
              arith,
              outside,
              contains_iff n (flatten ls),
              contains_iff n g.nodes,
              Walk-source g n n built w,
              schedule.complete n,
            ))
    ]

-- `Levels` reports a cycle exactly when some node can be reached from itself along the edges.
pub levels_cyclic_iff : (g : Graph) → IsGraph g → (levels g ≡ cyclic) ↔ ((n : Str) × Walk g n n)
levels_cyclic_iff g built = (cycle_of_cyclic g built, λ (n, w). cyclic_of_cycle g n built w)

-- On a graph without a cycle `Levels` succeeds.
pub levels-acyclic :
    (g : Graph)
    → IsGraph g
    → ((n : Str) → ¬ Walk g n n)
    → (ls : List (List Str)) × (levels g ≡ ok ls) × IsSchedule g ls
levels-acyclic g built acyclic =
    let (ls, end, ends) = levels_cases g built.distinct in
    elim ends [
      | inl (h, all) ↦ (ls, h, levels-IsSchedule g ls built h)
      | inr (h, some_left) ↦ let (n, w) = cycle_of_cyclic g built h in absurd (acyclic n w)
    ]
