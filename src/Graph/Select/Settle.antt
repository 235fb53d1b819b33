-- ===== src/Graph/Select/Settle.antt =====
-- The loop of `ValidateMembership` over the recorded predecessors ends, in the smallest set that
-- holds the seeds and every node with a recorded predecessor in it.
use terragraph.Prelude.{
  ℕ, zero, suc, ◌≡◌, ◌≤◌, ◌<◌, ◌⊎◌, inl, inr, refl, ap, sym, ◌∙◌, arith, Bool, true, false, not,
  ◌||◌, Str, str_eq, str_eq_iff, str_eq_refl, List, [], ◌∷◌, contains, count, contains_iff,
  Bool-cases, subst, length, length-keep, keep, some, any, All,
}
use terragraph.Graph.Select.{SelectionNode, slice}
use terragraph.Graph.Select.Membership.{Pass, visit, sweep, settle}

-- How many recorded nodes are not reached.
abbrev unreached : List SelectionNode → List Str → ℕ
unreached nodes r = length (keep (λ n. not (contains n.node r)) nodes)

-- A node is reached as soon as one of its predecessors is.
abbrev pub IsSettled : List Str → SelectionNode → Type 0
IsSettled r n =
    (p : Str) → contains p (slice n.via) ≡ true → contains p r ≡ true → contains n.node r ≡ true

visit_reached :
    (node : Str) (via : List Str) (st : Pass)
    → contains node st.reached ≡ true
    → visit node via st ≡ st
unfolding visit
visit_reached node [] st m = refl
visit_reached node (p ∷ via) st m = rw (m, visit) (ground (arith, visit_reached node via st m))

-- A visit adds the node or does nothing.
visit_cases :
    (node : Str) (via : List Str) (st : Pass)
    → ((visit node via st ≡ st)
        × ((p : Str)
            → contains p via ≡ true
            → contains p st.reached ≡ true
            → contains node st.reached ≡ true))
      ⊎ ((contains node st.reached ≡ false)
          × (visit node via st ≡ record { reached = node ∷ st.reached; changed = true }))
unfolding visit contains
visit_cases node [] st = inl (refl, λ p m. cc)
visit_cases node (p ∷ via) st = elim (Bool-cases (contains node st.reached)) [
  | inl old ↦ inl (rw (old, visit) (ground (arith, visit_reached node via st old)), λ q m e. old)
  | inr fresh ↦ elim (Bool-cases (contains p st.reached)) [
    | inl hit ↦ inr (
      fresh,
      rw (hit, fresh, visit) (visit_reached node via _ (ground (arith, str_eq_refl node))),
    )
    | inr miss ↦ elim (visit_cases node via st) [
      | inl (same, settled) ↦ inl (ground arith, λ q m e. ground (arith, settled q, str_eq_iff p q))
      | inr (new, added) ↦ inr (new, ground arith)
    ]
  ]
]

-- What one entry of the loop may do: the state stays, or the node is new.
module _ (n : SelectionNode) (st : Pass) where
  grow :
      (x : Str)
      → contains x st.reached ≡ true
      → contains x (visit n.node (slice n.via) st).reached ≡ true
  unfolding contains
  grow x m = elim (visit_cases n.node (slice n.via) st) [
    | inl (same, settled) ↦ rw same m
    | inr (new, added) ↦ rw added (ground arith)
  ]

  origin :
      (x : Str)
      → contains x (visit n.node (slice n.via) st).reached ≡ true
      → (contains x st.reached ≡ true)
        ⊎ (str_eq n.node x ≡ true) × (contains n.node st.reached ≡ false)
  unfolding contains
  origin x m = elim (visit_cases n.node (slice n.via) st) [
    | inl (same, settled) ↦ inl (rw same at m)
    | inr (new, added) ↦ ground arith
  ]

  once_more :
      ((a : Str) → count a st.reached ≤ 1)
      → (a : Str) → count a (visit n.node (slice n.via) st).reached ≤ 1
  unfolding count
  once_more once a = elim (visit_cases n.node (slice n.via) st) [
    | inl (same, settled) ↦ rw same (once a)
    | inr (new, added) ↦
        rw added
          (let single = once a in ground (arith, contains_iff a st.reached, str_eq_iff n.node a))
  ]

sweep_grows :
    (x : Str) (ns : List SelectionNode) (st : Pass)
    → contains x st.reached ≡ true
    → contains x (sweep ns st).reached ≡ true
unfolding sweep
sweep_grows x [] st m = m
sweep_grows x (n ∷ ns) st m = sweep_grows x ns (visit n.node (slice n.via) st) (grow n st x m)

sweep_once :
    (ns : List SelectionNode) (st : Pass)
    → ((a : Str) → count a st.reached ≤ 1)
    → (a : Str) → count a (sweep ns st).reached ≤ 1
unfolding sweep
sweep_once [] st once = once
sweep_once (n ∷ ns) st once = sweep_once ns (visit n.node (slice n.via) st) (once_more n st once)

-- The node of some entry.
abbrev pub named : Str → List SelectionNode → Bool
named x = any (λ n. str_eq n.node x)

sweep_only :
    (x : Str) (ns : List SelectionNode) (st : Pass)
    → contains x (sweep ns st).reached ≡ true
    → (contains x st.reached || named x ns) ≡ true
unfolding sweep
sweep_only x [] st m = ground arith
sweep_only x (n ∷ ns) st m =
    let later = sweep_only x ns (visit n.node (slice n.via) st) m in
    elim (Bool-cases (contains x (visit n.node (slice n.via) st).reached)) [
      | inl there ↦ let from = origin n st x there in ground arith
      | inr absent ↦ ground arith
    ]

sweep_changed :
    (ns : List SelectionNode) (st : Pass) → st.changed ≡ true → (sweep ns st).changed ≡ true
unfolding sweep
sweep_changed [] st e = e
sweep_changed (n ∷ ns) st e =
    sweep_changed ns (visit n.node (slice n.via) st) (elim (visit_cases n.node (slice n.via) st) [
      | inl (same, settled) ↦ rw same e
      | inr (new, added) ↦ rw added
    ])

-- A pass that changes nothing has found every node settled.
sweep_quiet :
    (ns : List SelectionNode) (st : Pass)
    → (sweep ns st).changed ≡ false
    → (sweep ns st ≡ st) × All (IsSettled st.reached) ns
unfolding sweep
sweep_quiet [] st e = (refl, tt)
sweep_quiet (n ∷ ns) st e = elim (visit_cases n.node (slice n.via) st) [
  | inl (same, settled) ↦
      let (rest, all_settled) = sweep_quiet ns st (ap (λ t. (sweep ns t).changed) (sym same) ∙ e) in
      (ap (sweep ns) same ∙ rest, (settled, all_settled))
  | inr (new, added) ↦
      let loud = sweep_changed ns (record { reached = n.node ∷ st.reached; changed = true }) refl in
      absurd (cc)
]

unreached-le :
    (ns : List SelectionNode) (r r' : List Str)
    → ((x : Str) → contains x r ≡ true → contains x r' ≡ true)
    → unreached ns r' ≤ unreached ns r
unreached-le [] r r' h = omega arith
unreached-le (n ∷ ns) r r' h = ground (arith, unreached-le ns r r' h, h n.node)

abbrev added_pass : SelectionNode → Pass → Pass
added_pass n st = record { reached = n.node ∷ st.reached; changed = true }

reached_now : (n : SelectionNode) (st : Pass) → contains n.node (added_pass n st).reached ≡ true
unfolding contains
reached_now n st = ground (arith, str_eq_refl n.node)

still :
    (n : SelectionNode) (st : Pass) (x : Str)
    → contains x st.reached ≡ true
    → contains x (added_pass n st).reached ≡ true
unfolding contains
still n st x m = ground arith

-- A pass that changes something leaves fewer nodes unreached.
unreached-sweep :
    (ns : List SelectionNode) (st : Pass)
    → st.changed ≡ false
    → (sweep ns st).changed ≡ true
    → unreached ns (sweep ns st).reached < unreached ns st.reached
unfolding sweep
unreached-sweep [] st e c = absurd (cc)
unreached-sweep (n ∷ ns) st e c = elim (visit_cases n.node (slice n.via) st) [
  | inl (same, settled) ↦
      subst (λ t. unreached (n ∷ ns) (sweep ns t).reached < unreached (n ∷ ns) st.reached)
        (sym same)
        (ground (
          arith,
          unreached-sweep ns st e (ap (λ t. (sweep ns t).changed) (sym same) ∙ c),
          sweep_grows n.node ns st,
        ))
  | inr (new, added) ↦
      subst (λ t. unreached (n ∷ ns) (sweep ns t).reached < unreached (n ∷ ns) st.reached)
        (sym added)
        (ground (
          arith,
          new,
          sweep_grows n.node ns (added_pass n st) (reached_now n st),
          unreached-le ns st.reached (sweep ns (added_pass n st)).reached
              (λ x m. sweep_grows x ns (added_pass n st) (still n st x m)),
        ))
]

-- What the loop returns.
pub record Settled (ns : List SelectionNode) (start r : List Str) : Type 0 where
  pub settled : All (IsSettled r) ns
  pub grown : (x : Str) → contains x start ≡ true → contains x r ≡ true
  pub only : (x : Str) → contains x r ≡ true → (contains x start || named x ns) ≡ true
  pub once : ((x : Str) → count x start ≤ 1) → (x : Str) → count x r ≤ 1

settle_from :
    (ns : List SelectionNode) (fuel : ℕ) (start : List Str)
    → unreached ns start < fuel
    → (r : List Str) × (settle fuel ns start ≡ some r) × Settled ns start r
unfolding settle
settle_from ns zero start bound = absurd (omega arith)
settle_from ns (suc fuel) start bound =
    let st : Pass = record { reached = start; changed = false } in
    let after = sweep ns st in
    elim (Bool-cases after.changed) [
      | inr quiet ↦
          let (same, all_settled) = sweep_quiet ns st quiet in
          (
            after.reached,
            rw quiet,
            record {
              settled = subst (λ t. All (IsSettled t.reached) ns) (sym same) all_settled;
              grown = λ x m. sweep_grows x ns st m;
              only = λ x m. sweep_only x ns st m;
              once = λ once. sweep_once ns st once;
            },
          )
      | inl loud ↦
          let (r, ends, h) =
            settle_from ns fuel after.reached (omega (arith, unreached-sweep ns st refl loud)) in
          (
            r,
            rw loud ends,
            record {
              settled = h.settled;
              grown = λ x m. h.grown x (sweep_grows x ns st m);
              only = λ x m.
                  let before = h.only x m in
                  elim (Bool-cases (contains x after.reached)) [
                    | inl there ↦ sweep_only x ns st there
                    | inr absent ↦ ground arith
                  ];
              once = λ once. h.once (sweep_once ns st once);
            },
          )
    ]

-- One pass more than there are nodes is enough.
pub settle_ends :
    (ns : List SelectionNode) (start : List Str)
    → (r : List Str) × (settle (suc (length ns)) ns start ≡ some r) × Settled ns start r
settle_ends ns start =
    settle_from ns (suc (length ns)) start
      (omega (arith, length-keep (λ (n : SelectionNode). not (contains n.node start)) ns))
