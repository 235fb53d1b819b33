-- ===== src/Engine/Saved/Chosen.antt =====
-- The nodes that a run of saved plans takes up: each of them is ready, and stays ready while the
-- others are worked on.
use terragraph.Prelude.{
  ◌≡◌, ◌≤◌, inl, inr, refl, sym, ap, ◌∙◌, subst, arith, Bool, true, false, ◌||◌, Str, str_eq,
  str_eq_iff, List, [], ◌∷◌, Option, none, some, contains, contains_iff, count, Bool-cases, keep,
  all, map, if◌then◌else◌, if_elim, not-false, ap₂,
}
use terragraph.Graph.{Graph}
use terragraph.Engine.Journal.{
  ExecutionNode, Phase, pending, preparing, planned, initializing, applying, operating,
  indeterminate, applied, completed, unsuccessful, other, phase_of,
}
use terragraph.Engine.Journal.Placed.{names_of}
use terragraph.Engine.SavedNode.{is_pending, is_planned, is_completed, is_preparing}
use terragraph.Engine.Saved.{phase_done, is_ready, on_frontier, settle_node}
use terragraph.Engine.Saved.Order.{is_started, IsOrdered, IsReady, IsBehind, ready_apart}

pub count-keep :
    (p : ExecutionNode → Bool) (a : Str) (ns : List ExecutionNode)
    → count a (names_of (keep p ns)) ≤ count a (names_of ns)
unfolding count
count-keep p a [] = omega arith
count-keep p a (n ∷ rest) = ground (arith, count-keep p a rest)

-- A name that is kept is the name of a node that passes, whose phase is the name's.
abbrev pub IsKept : (ExecutionNode → Bool) → List ExecutionNode → Str → Type 0
IsKept p ns m = (n : ExecutionNode) × (n.name ≡ m) × (p n ≡ true) × (phase_of m ns ≡ some n.phase)

pub keep-IsKept :
    (p : ExecutionNode → Bool) (ns : List ExecutionNode)
    → ((a : Str) → count a (names_of ns) ≤ 1)
    → (m : Str) → contains m (names_of (keep p ns)) ≡ true
    → IsKept p ns m
unfolding contains count phase_of
keep-IsKept p [] d m = λ c. absurd (cc)
keep-IsKept p (x ∷ rest) d m = elim (Bool-cases (str_eq x.name m)) [
  | inl e ↦ elim (Bool-cases (p x)) [
    | inl y ↦ λ c. (x, (str_eq_iff x.name m).0 e, y, rw e refl)
    | inr n ↦ λ c. absurd (
        let once = d m in
        let fewer = count-keep p m rest in
        let kept = contains_iff m (names_of (keep p rest)) in ground (arith))
  ]
  | inr e ↦ λ c.
      let (n, same, passes, phase) =
        keep-IsKept p rest (λ a. let most = d a in ground (arith)) m (ground (arith)) in
      (n, same, passes, rw e phase)
]

all_at :
    (p : Str → Bool) (xs : List Str) (u : Str) → all p xs ≡ true → contains u xs ≡ true → p u ≡ true
unfolding contains
all_at p [] u h = λ c. absurd (cc)
all_at p (x ∷ xs) u h = elim (Bool-cases (str_eq x u)) [
  | inl e ↦ λ c. subst (λ a. p a ≡ true) ((str_eq_iff x u).0 e) (ground (arith))
  | inr n ↦ λ c. all_at p xs u (ground (arith)) (ground (arith))
]

-- A node before its plan is applied is not completed, and a planned one is past `pending`.
abbrev IsEarly : Phase → Type 0
IsEarly p =
    ((is_pending p || is_preparing p || is_planned p) ≡ true → is_completed p ≡ false)
    × (is_planned p ≡ true → is_pending p ≡ false)

early : (p : Phase) → IsEarly p
early pending = (λ h. refl, λ h. absurd (cc))
early preparing = (λ h. refl, λ h. refl)
early planned = (λ h. refl, λ h. refl)
early initializing = (λ h. refl, λ h. refl)
early applying = (λ h. refl, λ h. refl)
early operating = (λ h. refl, λ h. refl)
early indeterminate = (λ h. refl, λ h. refl)
early applied = (λ h. refl, λ h. refl)
early completed = (λ h. absurd (cc), λ h. refl)
early unsuccessful = (λ h. refl, λ h. refl)
early (other s) = (λ h. refl, λ h. refl)

-- The record after finishSaved has the names, and is as far.
module _ (g : Graph) where
  settled_phase : Option Phase → Option Phase
  settled_phase none = none
  settled_phase (some p) = some (if is_preparing p then pending else p)

  phase_of-settle :
      (j : Str) (ns : List ExecutionNode)
      → phase_of j (map settle_node ns) ≡ settled_phase (phase_of j ns)
  unfolding phase_of settled_phase
  phase_of-settle j [] = refl
  phase_of-settle j (n ∷ rest) = ground (arith, phase_of-settle j rest)

  -- Every one of the names is ready.
  abbrev pub AllReady : List ExecutionNode → List ExecutionNode → Type 0
  AllReady chosen ns =
      IsOrdered g ns × ((m : Str) → contains m (names_of chosen) ≡ true → IsReady g m ns)

  -- Behind one of them the others still are.
  pub behind-AllReady :
      (n : ExecutionNode) (rest before after : List ExecutionNode)
      → ((a : Str) → count a (names_of (n ∷ rest)) ≤ 1)
      → AllReady (n ∷ rest) before
      → IsBehind g n.name before after
      → AllReady rest after
  unfolding contains count
  behind-AllReady n rest before after d (o, ready) (o2, same) = (
    o2,
    λ m c.
        let r = ready m (ground (arith)) in
        let here = ready n.name (ground (arith, str_eq_iff n.name n.name)) in
        (
          λ u k.
              let done = r.0 u k in
              ap phase_done (same u (ready_apart g n.name u before here done)) ∙ done,
          ap phase_done (
                same m (
                  let once = d m in
                  ground (
                    arith,
                    contains_iff m (names_of rest),
                    str_eq_iff n.name m,
                    str_eq_iff m n.name,
                  )))
              ∙ r.1,
        ),
  )

  pub frontier-AllReady :
      (ns : List ExecutionNode) → IsOrdered g ns → AllReady (keep (on_frontier g ns) ns) ns
  unfolding on_frontier is_ready
  frontier-AllReady ns o = (
    o,
    λ m c.
        let (n, same, passes, phase) = keep-IsKept (on_frontier g ns) ns o.1 m c in
        let first = (early n.phase).0 in
        (
          λ u k. all_at _ (g.ins m) u (subst (λ a. is_ready g ns a ≡ true) same (ground (arith))) k,
          ap phase_done phase ∙ ground (arith),
        ),
  )

  pub planned-AllReady :
      (ns : List ExecutionNode) → IsOrdered g ns → AllReady (keep (λ n. is_planned n.phase) ns) ns
  planned-AllReady ns o = (
    o,
    λ m c.
        let (n, same, passes, phase) = keep-IsKept _ ns o.1 m c in
        let past = (early n.phase).1 passes in
        let first = (early n.phase).0 in
        (
          λ u k. o.0 m u (ap is_started phase ∙ not-false past) k,
          ap phase_done phase ∙ ground (arith),
        ),
  )

  settled_open :
      (o : Option Phase)
      → (phase_done (settled_phase o) ≡ phase_done o)
        × (is_started (settled_phase o) ≡ true → is_started o ≡ true)
  unfolding settled_phase
  settled_open none = (refl, λ h. h)
  settled_open (some p) =
      let first = (early p).0 in
      elim (Bool-cases (is_preparing p)) [
        | inl e ↦ rw e (sym (ground (arith)), λ h. absurd (cc))
        | inr e ↦ rw e (refl, λ h. h)
      ]

  names_of-settle : (ns : List ExecutionNode) → names_of (map settle_node ns) ≡ names_of ns
  names_of-settle [] = refl
  names_of-settle (n ∷ rest) =
      ap₂ ◌∷◌
        (if_elim (λ (m : ExecutionNode). m.name ≡ n.name) (is_preparing n.phase) (λ e. refl)
          (λ e. refl))
        (names_of-settle rest)

  pub settle-IsOrdered :
      (ns : List ExecutionNode) → IsOrdered g ns → IsOrdered g (map settle_node ns)
  settle-IsOrdered ns (o, d) = (
    λ n u st c.
        ap phase_done (phase_of-settle u ns)
        ∙ (settled_open (phase_of u ns)).0
        ∙ o n u ((settled_open (phase_of n ns)).1 (ap is_started (sym (phase_of-settle n ns)) ∙ st))
            c,
    λ a. subst (λ l. count a l ≤ 1) (sym (names_of-settle ns)) (d a),
  )
