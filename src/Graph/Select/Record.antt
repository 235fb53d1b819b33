-- ===== src/Graph/Select/Record.antt =====
-- What `Select` writes into an execution record, `ValidateMembership` accepts when it is read back.
use terragraph.Prelude.{
  ◌≡◌, ◌≤◌, inl, inr, refl, ap, ap₂, sym, ◌∙◌, arith, Bool, true, false, ◌&&◌, Str, str_eq,
  str_eq_iff, str_eq_refl, List, [], ◌∷◌, map, contains, count, contains_iff, bytes, Bool-cases,
  Bool_ext, both, subst, length, some, none, sort, IsIncreasing-IsSorted, IsSorted-is_sorted,
  count-increasing, is_nil, contains-sort, All, length-map, length-eq_of_count, count-sort,
  sorted-IsIncreasing, sort-IsSorted, ◌==◌, ==_iff, List-cases,
}
use terragraph.Graph.{Graph, IsGraph}
use terragraph.Graph.Select.{
  describe, SelectionNode, Selection, build_selection, names, select, selected, slice, check_seeds,
}
use terragraph.Graph.Select.Spread.{Reach, seed, next, IsSelected}
use terragraph.Graph.Select.Settle.{IsSettled, Settled, settle_ends, named}
use terragraph.Graph.Select.Result.{
  seeds_of, contains-seeds_of, seeds_of-IsIncreasing, select-Chosen, names-build_selection,
}
use terragraph.Graph.Select.Membership.{header_ok, entries_ok, validate_membership}
use terragraph.Graph.Select.Entries.{
  IsWired, members_ok-distinct, seeds_ok-distinct, nodes_ok-entries, boundary_passes, IsModed,
  contains-parents,
}

named-describe :
    (g : Graph) (seeds ms : List Str) (a : Str) (xs : List Str)
    → named a (map (describe g seeds ms) xs) ≡ contains a xs
unfolding describe contains
named-describe g seeds ms a [] = refl
named-describe g seeds ms a (x ∷ xs) = ground (arith, named-describe g seeds ms a xs)

IsSettled-at :
    (g : Graph) (seeds ms r : List Str) (n : Str) (xs : List Str)
    → All (IsSettled r) (map (describe g seeds ms) xs)
    → contains n xs ≡ true
    → IsSettled r (describe g seeds ms n)
unfolding contains
IsSettled-at g seeds ms r n [] h m = absurd (cc)
IsSettled-at g seeds ms r n (x ∷ xs) h m = elim (Bool-cases (str_eq x n)) [
  | inl e ↦ subst (λ y. IsSettled r (describe g seeds ms y)) ((str_eq_iff x n).0 e) h.0
  | inr other ↦ IsSettled-at g seeds ms r n xs h.1 (ground arith)
]

module _ (g : Graph) (built : IsGraph g) (loopless : (n : Str) → contains n (g.ins n) ≡ false)
    (named_nodes : contains [] g.nodes ≡ false) (wired : All IsWired g.edges) (requested : List Str)
    (downstream : Bool) (ms : List Str) (checked : check_seeds g (seeds_of requested) ≡ none)
    (h : IsSelected g (seeds_of requested) downstream ms)
    (some_seed : is_nil (seeds_of requested) ≡ false) where
  abbrev seeds : List Str
  seeds = seeds_of requested

  parent_of : (u n : Str) → contains n (g.outs u) ≡ true → contains u (g.ins n) ≡ true
  parent_of u n e =
      ground (arith, built.consistent u n, contains_iff n (g.outs u), contains_iff u (g.ins n))

  -- A member that was not requested has a member in front of it.
  preceded :
      (n : Str)
      → contains n ms ≡ true
      → contains n seeds ≡ false
      → (p : Str) × (contains p ms ≡ true) × (contains p (g.ins n) ≡ true)
  preceded n m out = elim (Bool-cases downstream) [
    | inr exact ↦ absurd (let same = ap (contains n) (h.exact exact) in cc)
    | inl all ↦ from ((h.reachable all n).0 m) all out
  ]
    where
      from :
          {n : Str}
          → Reach g (seeds_of requested) n
          → downstream ≡ true
          → contains n (seeds_of requested) ≡ false
          → (p : Str) × (contains p ms ≡ true) × (contains p (g.ins n) ≡ true)
      from (seed m) all out = absurd (cc)
      from (next {u} {n} r e) all out = (u, (h.reachable all u).1 r, parent_of u n e)

  seeds_in : (n : Str) → contains n seeds ≡ true → contains n ms ≡ true
  seeds_in n m = elim (Bool-cases downstream) [
    | inr exact ↦ ap (contains n) (h.exact exact) ∙ m
    | inl all ↦ (h.reachable all n).1 (seed m)
  ]

  abbrev entries : List SelectionNode
  entries = map (describe g seeds ms) (sort ms)

  module _ (r : List Str) (settled : Settled entries seeds r) where
    -- A member behind a reached member is reached.
    follow :
        (u n : Str)
        → contains u ms ≡ true
        → contains n ms ≡ true
        → contains n (g.outs u) ≡ true
        → contains u r ≡ true
        → contains n r ≡ true
    unfolding describe
    follow u n mu mn e before = elim (Bool-cases (contains n seeds)) [
      | inl requested ↦ settled.grown n requested
      | inr other ↦
          let at_n =
            IsSettled-at g seeds ms r n (sort ms) settled.settled (contains-sort n ms ∙ mn) u in
          ground (
            arith,
            at_n,
            other,
            before,
            contains-parents g built seeds ms loopless preceded u n,
            parent_of u n e,
          )
    ]

    Reach-settled : downstream ≡ true → {n : Str} → Reach g seeds n → contains n r ≡ true
    Reach-settled all (seed m) = settled.grown _ m
    Reach-settled all (next {u} {n} w e) =
        follow u n ((h.reachable all u).1 w) ((h.reachable all n).1 (next w e)) e
          (Reach-settled all w)

    contains-settled : (n : Str) → contains n r ≡ contains n ms
    contains-settled n = Bool_ext (contains n r) (contains n ms) inside outside
      where
        inside : contains n r ≡ true → contains n ms ≡ true
        inside m = ground (
          arith,
          settled.only n m,
          seeds_in n,
          named-describe g seeds ms n (sort ms),
          contains-sort n ms,
        )

        outside : contains n ms ≡ true → contains n r ≡ true
        outside m = elim (Bool-cases downstream) [
          | inl all ↦ Reach-settled all ((h.reachable all n).0 m)
          | inr exact ↦ settled.grown n (ap (contains n) (sym (h.exact exact)) ∙ m)
        ]

    length-settled : length r ≡ length (sort ms)
    length-settled = length-eq_of_count r (sort ms) λ a. ground (
      arith,
      settled.once (seeds_once) a,
      h.distinct a,
      count-sort a ms,
      contains-settled a,
      contains_iff a r,
      contains_iff a ms,
    )
      where
        seeds_once : (a : Str) → count a seeds ≤ 1
        seeds_once a = count-increasing a seeds (seeds_of-IsIncreasing requested)

  abbrev stored : Selection
  stored = build_selection g seeds downstream ms

  moded : IsModed g built seeds ms loopless preceded stored.mode
  unfolding build_selection
  moded n m out = elim (Bool-cases downstream) [
    | inl all ↦ rw all (str_eq_refl (bytes "downstream"))
    | inr exact ↦ absurd (let same = ap (contains n) (h.exact exact) in cc)
  ]

  members_once : (a : Str) → count a (sort ms) ≤ 1
  members_once a = rw (count-sort a ms) (h.distinct a)

  header_passes : header_ok stored ≡ true
  unfolding header_ok build_selection
  header_passes = elim (Bool-cases downstream) [
    | inl all ↦ rw all (ground (arith, some_seed, str_eq_refl (bytes "downstream")))
    | inr exact ↦ rw exact (ground (arith, some_seed, str_eq_refl (bytes "exact")))
  ]

  entries_pass : entries_ok stored (sort ms) ≡ true
  unfolding entries_ok build_selection count contains
  entries_pass =
      let edges = boundary_passes g ms wired in
      let up = seeds_of-IsIncreasing requested in
      both
        (both
          (both
            (both
              (both
                (both
                  (both header_passes (
                    members_ok-distinct [] (sort ms) (λ a. omega (arith, members_once a))
                      (contains-sort [] ms ∙ ground (arith, h.known [], named_nodes))))
                  ((==_iff _ _).1 (length-map _ (sort ms))))
                (IsSorted-is_sorted seeds (IsIncreasing-IsSorted seeds up)))
              (seeds_ok-distinct (sort ms) [] seeds
                (λ a. omega (arith, count-increasing a seeds up))
                (λ a m. contains-sort a ms ∙ seeds_in a m)))
            (nodes_ok-entries g built seeds ms loopless preceded stored.mode [] none (sort ms) moded
              (λ n m. sym (contains-sort n ms) ∙ m) (λ n. omega (arith, members_once n))
              (sorted-IsIncreasing (sort ms) (sort-IsSorted ms) members_once) tt))
          edges.0)
        edges.1

  validates : validate_membership stored (sort ms) ≡ some true
  unfolding validate_membership build_selection
  validates =
      let (r, ends, settled) = settle_ends entries seeds in
      rw (ends, validate_membership)
        (ap some (both entries_pass ((==_iff _ _).1 (length-settled r settled))))

seeds_of_filled : (r : Str) (rest : List Str) → is_nil (seeds_of (r ∷ rest)) ≡ false
unfolding contains
seeds_of_filled r rest = elim (List-cases (seeds_of (r ∷ rest))) [
  | inr (x, xs, e) ↦ rw e
  | inl e ↦
      absurd (ground (arith, contains-seeds_of (r ∷ rest) r, ap (contains r) e, str_eq_refl r))
]

request_filled :
    (g : Graph) (requested : List Str) (downstream : Bool) (s : Selection)
    → select g (some requested) downstream ≡ some (selected s)
    → is_nil (seeds_of requested) ≡ false
unfolding select
request_filled g [] downstream s e = absurd (cc)
request_filled g (r ∷ rest) downstream s e = seeds_of_filled r rest

-- A selection that `Select` makes on a graph with named nodes, wired edges and no edge from a node
-- to itself passes `ValidateMembership` against its own names.
pub select_validates :
    (g : Graph) (requested : List Str) (downstream : Bool) (s : Selection)
    → IsGraph g
    → ((n : Str) → contains n (g.ins n) ≡ false)
    → contains [] g.nodes ≡ false
    → All IsWired g.edges
    → select g (some requested) downstream ≡ some (selected s)
    → validate_membership s (names s) ≡ some true
select_validates g requested downstream s built loopless named_nodes wired e =
    let h = select-Chosen g built requested downstream s e in
    let same =
      ap names h.built ∙ names-build_selection g (seeds_of requested) downstream h.members in
    ap₂ validate_membership h.built same
    ∙ validates g built loopless named_nodes wired requested downstream h.members h.checked
        h.is_selected (request_filled g requested downstream s e)

-- `ValidateMembership` ends on every record.
pub validate_membership-ends :
    (s : Selection) (members : List Str) → (b : Bool) × (validate_membership s members ≡ some b)
unfolding validate_membership
validate_membership-ends s members =
    let (r, ends, settled) = settle_ends (slice s.nodes) s.requested in
    (entries_ok s members && length r == length members, rw (ends, validate_membership))
