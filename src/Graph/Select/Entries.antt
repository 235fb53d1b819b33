-- ===== src/Graph/Select/Entries.antt =====
-- The parts of a fresh selection pass the checks of `ValidateMembership`.
use terragraph.Prelude.{
  ◌+◌, ◌≡◌, ◌≤◌, ◌⊎◌, inl, inr, refl, ap, ◌∙◌, arith, true, false, ◌&&◌, Str, str_eq, str_eq_iff,
  str_eq_refl, List, [], ◌∷◌, map, contains, count, contains_iff, bytes, Bool-cases, both,
  not-false, if◌then◌else◌, Option, some, none, sort, compact, sort-IsSorted, compact-IsIncreasing,
  IsIncreasing, IsIncreasing-IsSorted, IsSorted-is_sorted, is_nil, contains-sort, contains-compact,
  str_ltb, str_ltb_irrefl, keep, List-cases, All, is_sorted_by, all, sort_by-sorted, all-sort_by,
  strs_ltb_asym,
}
use terragraph.Blueprint.{Edge, PortKind, is_data_edge}
use terragraph.Graph.{Graph, IsGraph}
use terragraph.Graph.Select.{describe, edge_ltb, edge_key, crosses, boundary}
use terragraph.Graph.Select.Membership.{
  is_none, seed_entry_ok, downstream_entry_ok, members_ok, seeds_ok, via_ok, nodes_ok,
  boundary_edge_ok,
}

pub members_ok-distinct :
    (seen xs : List Str)
    → ((a : Str) → count a seen + count a xs ≤ 1)
    → contains [] xs ≡ false
    → members_ok seen xs ≡ true
unfolding members_ok count contains
members_ok-distinct seen [] once named = refl
members_ok-distinct seen (x ∷ xs) once named = ground (
  arith,
  fresh,
  filled,
  members_ok-distinct (x ∷ seen) xs (λ a. let single = once a in ground arith) (ground arith),
)
  where
    fresh : contains x seen ≡ false
    fresh = let single = once x in ground (arith, str_eq_refl x, contains_iff x seen)

    filled : is_nil x ≡ false
    filled = elim (List-cases x) [
      | inl e ↦ absurd (let wrong = ap (λ y. str_eq y []) e in ground (arith, str_eq_refl ([])))
      | inr (c, cs, e) ↦ rw e
    ]

pub seeds_ok-distinct :
    (members seen xs : List Str)
    → ((a : Str) → count a seen + count a xs ≤ 1)
    → ((a : Str) → contains a xs ≡ true → contains a members ≡ true)
    → seeds_ok members seen xs ≡ true
unfolding seeds_ok count contains
seeds_ok-distinct members seen [] once known = refl
seeds_ok-distinct members seen (x ∷ xs) once known = ground (
  arith,
  fresh,
  known x (ground (arith, str_eq_refl x)),
  seeds_ok-distinct members (x ∷ seen) xs (λ a. let single = once a in ground arith)
      (λ a m. known a (ground arith)),
)
  where
    fresh : contains x seen ≡ false
    fresh = let single = once x in ground (arith, str_eq_refl x, contains_iff x seen)

-- Every entry is larger than the previous one.
abbrev pub IsBehind : Option Str → List Str → Type 0
IsBehind none xs = Unit
IsBehind (some q) xs = All (λ y. str_ltb q y ≡ true) xs

-- An increasing list of members without the node.
via_ok-increasing :
    (members : List Str) (node : Str) (xs : List Str)
    → ((a : Str) → contains a xs ≡ true → contains a members ≡ true)
    → contains node xs ≡ false
    → (previous : Option Str) → IsIncreasing xs
    → IsBehind previous xs
    → via_ok members node previous xs ≡ true
unfolding via_ok contains
via_ok-increasing members node [] known out previous up after = refl
via_ok-increasing members node (x ∷ xs) known out none up after = ground (
  arith,
  known x (ground (arith, str_eq_refl x)),
  via_ok-increasing members node xs (λ a m. known a (ground arith)) (ground arith) (some x) up.1
      up.0,
)
via_ok-increasing members node (x ∷ xs) known out (some q) up after = ground (
  arith,
  known x (ground (arith, str_eq_refl x)),
  after.0,
  str_eq_iff q x,
  str_ltb_irrefl x,
  via_ok-increasing members node xs (λ a m. known a (ground arith)) (ground arith) (some x) up.1
      up.0,
)

module _ (g : Graph) (built : IsGraph g) (seeds ms : List Str)
    (loopless : (n : Str) → contains n (g.ins n) ≡ false)
    (reached : (n : Str)
      → contains n ms ≡ true
      → contains n seeds ≡ false
      → (p : Str) × (contains p ms ≡ true) × (contains p (g.ins n) ≡ true)) where
  abbrev pub parents : Str → List Str
  parents n = compact (sort (keep (λ p. contains p ms) (g.ins n)))

  contains-keep :
      (p : Str) (xs : List Str)
      → contains p (keep (λ q. contains q ms) xs) ≡ (contains p ms && contains p xs)
  unfolding contains
  contains-keep p [] = ground arith
  contains-keep p (x ∷ xs) = ground (arith, contains-keep p xs, str_eq_iff x p)

  pub contains-parents :
      (p n : Str) → contains p (parents n) ≡ (contains p ms && contains p (g.ins n))
  contains-parents p n = contains-compact p _ ∙ contains-sort p _ ∙ contains-keep p (g.ins n)

  parents-IsIncreasing : (n : Str) → IsIncreasing (parents n)
  parents-IsIncreasing n = compact-IsIncreasing _ (sort-IsSorted _)

  parents_filled :
      (n : Str) → contains n ms ≡ true → contains n seeds ≡ false → is_nil (parents n) ≡ false
  unfolding contains
  parents_filled n m out = elim (List-cases (parents n)) [
    | inr (p, rest, e) ↦ rw e
    | inl e ↦
        let (p, member, dep) = reached n m out in
        absurd (ground (arith, contains-parents p n, ap (contains p) e))
  ]

  pub describe-node : (n : Str) → (describe g seeds ms n).node ≡ n
  unfolding describe
  describe-node n = ground arith

  describe_filled : (n : Str) → is_none (describe g seeds ms n).via ≡ false
  unfolding describe
  describe_filled n = ground arith

  abbrev pub IsModed : Str → Type 0
  IsModed mode =
      (n : Str)
      → contains n ms ≡ true
      → contains n seeds ≡ false
      → str_eq mode (bytes "downstream") ≡ true

  via_passes : (n : Str) → via_ok (sort ms) n none (parents n) ≡ true
  via_passes n =
      via_ok-increasing (sort ms) n (parents n)
        (λ a m. contains-sort a ms ∙ ground (arith, contains-parents a n, m))
        (ground (arith, contains-parents n n, loopless n)) none (parents-IsIncreasing n) tt

  entry_passes :
      (mode : Str) (n : Str)
      → IsModed mode
      → contains n ms ≡ true
      → (if contains n seeds
          then seed_entry_ok (describe g seeds ms n)
          else downstream_entry_ok mode (sort ms) (describe g seeds ms n))
        ≡ true
  unfolding describe
  entry_passes mode n moded m = elim (Bool-cases (contains n seeds)) [
    | inl seed ↦ rw seed (rw (str_eq_refl (bytes "requested")))
    | inr other ↦ rw other (
        rw (
          moded n m other,
          str_eq_refl (bytes "downstream"),
          parents_filled n m other,
          IsSorted-is_sorted (parents n) (IsIncreasing-IsSorted _ (parents-IsIncreasing n)),
          via_passes n,
        ))
  ]

  behind :
      (previous : Option Str) (x : Str) (xs : List Str)
      → IsBehind previous (x ∷ xs)
      → elim previous [ none ↦ true | some q ↦ str_ltb q x ] ≡ true
  behind none x xs h = refl
  behind (some q) x xs h = h.0

  -- The entries of a selection in the mode that `downstream` names, in order.
  pub nodes_ok-entries :
      (mode : Str) (seen : List Str) (previous : Option Str) (xs : List Str)
      → IsModed mode
      → ((n : Str) → contains n xs ≡ true → contains n ms ≡ true)
      → ((n : Str) → count n seen + count n xs ≤ 1)
      → IsIncreasing xs
      → IsBehind previous xs
      → nodes_ok mode (sort ms) seeds seen previous (map (describe g seeds ms) xs) ≡ true
  unfolding nodes_ok count contains
  nodes_ok-entries mode seen previous [] moded known once up after = refl
  nodes_ok-entries mode seen previous (x ∷ xs) moded known once up after =
      let member : contains x ms ≡ true = known x (ground (arith, str_eq_refl x)) in
      let fresh : contains x seen ≡ false =
        let single = once x in ground (arith, str_eq_refl x, contains_iff x seen) in
      let later =
        nodes_ok-entries mode (x ∷ seen) (some x) xs moded (λ n m. known n (ground arith))
          (λ a. let single = once a in ground arith) up.1 up.0 in
      let node = describe-node x in
      both
        (both
          (both
            (both
              (both (ap (λ y. contains y (sort ms)) node ∙ contains-sort x ms ∙ member)
                (not-false (ap (λ y. contains y seen) node ∙ fresh)))
              (not-false (describe_filled x)))
            (ap (λ y. elim previous [ none ↦ true | some q ↦ str_ltb q y ]) node
              ∙ behind previous x xs after))
          (ap
              (λ y.
                if contains y seeds
                then seed_entry_ok (describe g seeds ms x)
                else downstream_entry_ok mode (sort ms) (describe g seeds ms x))
              node
            ∙ entry_passes mode x moded member))
        (ap (λ y. nodes_ok mode (sort ms) seeds (y ∷ seen) (some y) (map (describe g seeds ms) xs))
            node
          ∙ later)

-- An edge as the parser and `rewriteEdge` leave it: an output to an input, both named, or two bare
-- references; and between named nodes.
abbrev pub IsWired : Edge → Type 0
IsWired e =
    (is_nil e.from.node ≡ false)
    × (is_nil e.to.node ≡ false)
    × ((e.from.kind ≡ PortKind.output)
          × (e.to.kind ≡ PortKind.input)
          × (is_nil e.from.name ≡ false)
          × (is_nil e.to.name ≡ false)
        ⊎ (e.from.kind ≡ PortKind.bare)
          × (e.to.kind ≡ PortKind.bare)
          × (is_nil e.from.name ≡ true)
          × (is_nil e.to.name ≡ true))

boundary_edge_ok-wired :
    (members : List Str) (e : Edge)
    → IsWired e
    → crosses members e ≡ true
    → boundary_edge_ok (sort members) e ≡ true
unfolding boundary_edge_ok crosses is_data_edge
boundary_edge_ok-wired members e wired across =
    rw (contains-sort e.from.node members) (rw (contains-sort e.to.node members) (ground arith))

all-keep :
    (members : List Str) (es : List Edge)
    → All IsWired es
    → all (boundary_edge_ok (sort members)) (keep (crosses members) es) ≡ true
all-keep members [] h = refl
all-keep members (e ∷ es) h = elim (Bool-cases (crosses members e)) [
  | inl across ↦
      rw across (both (boundary_edge_ok-wired members e h.0 across) (all-keep members es h.1))
  | inr inside ↦ rw inside (all-keep members es h.1)
]

pub boundary_passes :
    (g : Graph) (members : List Str)
    → All IsWired g.edges
    → (is_sorted_by edge_ltb (boundary g members) ≡ true)
      × (all (boundary_edge_ok (sort members)) (boundary g members) ≡ true)
unfolding boundary edge_ltb
boundary_passes g members wired = (
  sort_by-sorted edge_ltb (λ a b. strs_ltb_asym (edge_key a) (edge_key b))
      (keep (crosses members) g.edges),
  all-sort_by edge_ltb (boundary_edge_ok (sort members)) (keep (crosses members) g.edges)
      ∙ all-keep members g.edges wired,
)
