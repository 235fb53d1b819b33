-- ===== src/Engine/Saved/Frontier.antt =====
-- The frontier of SavePlans: the loop of saving and applying does not come to a halt early.
use terragraph.Prelude.{
  ℕ, zero, suc, ◌≡◌, ◌≤◌, ◌<◌, both, Option-cases, inl, inr, sym, ap, subst, arith, Bool, true,
  false, ◌||◌, Str, str_eq, str_eq_iff, str_eq_refl, List, [], ◌∷◌, Option, none, some, contains,
  count, Bool-cases, keep, all, any, is_nil,
}
use terragraph.Graph.{Graph}
use terragraph.Engine.Journal.{ExecutionNode, Phase, phase_of}
use terragraph.Engine.Journal.Placed.{names_of}
use terragraph.Engine.SavedNode.{is_pending, is_completed}
use terragraph.Engine.Saved.{phase_done, is_ready, on_frontier}
use terragraph.Engine.Saved.Chosen.{keep-IsKept}

any-keep :
    (p : ExecutionNode → Bool) (ns : List ExecutionNode)
    → any p ns ≡ true
    → (m : Str) × (contains m (names_of (keep p ns)) ≡ true)
unfolding contains
any-keep p [] = λ h. absurd (cc)
any-keep p (n ∷ rest) = elim (Bool-cases (p n)) [
  | inl e ↦ λ h. (n.name, rw e (ground (arith, str_eq_refl n.name)))
  | inr e ↦ λ h. let (m, c) = any-keep p rest (ground (arith)) in (m, rw e c)
]

all-false :
    (p : Str → Bool) (xs : List Str)
    → all p xs ≡ false
    → (u : Str) × (contains u xs ≡ true) × (p u ≡ false)
unfolding contains
all-false p [] = λ h. absurd (cc)
all-false p (x ∷ xs) = elim (Bool-cases (p x)) [
  | inl e ↦ λ h. let (u, c, f) = all-false p xs (ground (arith)) in (u, ground (arith), f)
  | inr e ↦ λ h. (x, ground (arith, str_eq_refl x), e)
]

-- The node of a name has what every node has.
all-phase_of :
    (q : Phase → Bool) (ns : List ExecutionNode) (j : Str) (p : Phase)
    → all (λ n. q n.phase) ns ≡ true
    → phase_of j ns ≡ some p
    → q p ≡ true
unfolding phase_of
all-phase_of q [] j p h = λ e. absurd (cc)
all-phase_of q (n ∷ rest) j p h = elim (Bool-cases (str_eq n.name j)) [
  | inl e ↦ rw e (λ f. subst (λ o. at o ≡ true) f (ground (arith)))
  | inr e ↦ rw e (λ f. all-phase_of q rest j p (ground (arith)) f)
]
  where
    at : Option Phase → Bool
    at none = true
    at (some x) = q x

-- A node that passes keeps the list from being empty.
keep_at :
    (p : ExecutionNode → Bool) (ns : List ExecutionNode) (j : Str) (phase : Phase)
    → ((n : ExecutionNode) → n.name ≡ j → some n.phase ≡ some phase → p n ≡ true)
    → phase_of j ns ≡ some phase
    → is_nil (keep p ns) ≡ false
unfolding phase_of
keep_at p [] j phase h = λ e. absurd (cc)
keep_at p (n ∷ rest) j phase h = elim (Bool-cases (str_eq n.name j)) [
  | inl e ↦ rw e (λ f. let passes = h n ((str_eq_iff n.name j).0 e) f in ground (arith))
  | inr e ↦ rw e (λ f. let later = keep_at p rest j phase h f in ground (arith))
]

module _ (g : Graph) (rank : Str → ℕ) (ns : List ExecutionNode) where
  -- Below a pending node stands one on the frontier.
  frontier_below :
      (fuel : ℕ) (n : Str) (p : Phase)
      → ((a b : Str) → contains a (g.ins b) ≡ true → rank a < rank b)
      → all (λ m. is_pending m.phase || is_completed m.phase) ns ≡ true
      → rank n < fuel
      → phase_of n ns ≡ some p
      → is_pending p ≡ true
      → is_nil (keep (on_frontier g ns) ns) ≡ false
  unfolding is_ready on_frontier
  frontier_below zero n p up idle far e w = absurd (omega (arith, far))
  frontier_below (suc fuel) n p up idle far e w = elim (Bool-cases (is_ready g ns n)) [
    | inl ready ↦
        keep_at (on_frontier g ns) ns n p
          (λ m same f.
            both (subst (λ o. is_pending_at o ≡ true) (sym f) w)
              (subst (λ a. is_ready g ns a ≡ true) (sym same) ready))
          e
    | inr blocked ↦
        let (u, c, open_still) = all-false _ (g.ins n) blocked in
        elim (Option-cases (phase_of u ns)) [
          | inl e2 ↦ absurd (let d = ap phase_done e2 in cc)
          | inr (q, e2) ↦
              let d = ap phase_done e2 in
              let either = all-phase_of (λ x. is_pending x || is_completed x) ns u q idle e2 in
              frontier_below fuel u q up idle (omega (arith, up u n c, far)) e2 (ground (arith))
        ]
  ]
    where
      is_pending_at : Option Phase → Bool
      is_pending_at none = false
      is_pending_at (some x) = is_pending x

  -- A saved execution whose nodes are all pending or completed, with one that is pending, has a
  -- node whose plan can be saved next: the frontier is not empty, if a rank goes up along the
  -- graph's edges and no two nodes of the record share a name.
  pub keep-on_frontier :
      ((a b : Str) → contains a (g.ins b) ≡ true → rank a < rank b)
      → ((a : Str) → count a (names_of ns) ≤ 1)
      → all (λ m. is_pending m.phase || is_completed m.phase) ns ≡ true
      → any (λ m. is_pending m.phase) ns ≡ true
      → is_nil (keep (on_frontier g ns) ns) ≡ false
  keep-on_frontier up once idle waiting =
      let (m, c) = any-keep (λ n. is_pending n.phase) ns waiting in
      let (n, same, w, e) = keep-IsKept (λ n. is_pending n.phase) ns once m c in
      frontier_below (suc (rank m)) m n.phase up idle (omega (arith)) e w
