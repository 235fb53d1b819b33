-- ===== src/Engine/Saved/Order.antt =====
-- The order of the graph in the nodes of a record, and what a step of one node does to it.
use terragraph.Prelude.{
  ◌≡◌, ◌≤◌, inl, inr, sym, ap, ◌∙◌, subst, Bool, true, false, not, Str, str_eq, str_eq_iff, List,
  Option, none, some, contains, count, Bool-cases,
}
use terragraph.Graph.{Graph}
use terragraph.Engine.Journal.{ExecutionNode, Phase, phase_of}
use terragraph.Engine.Journal.Placed.{names_of, IsMoved}
use terragraph.Engine.SavedNode.{is_pending, is_completed}
use terragraph.Engine.Saved.{phase_done}

abbrev pub is_started : Option Phase → Bool
is_started none = false
is_started (some p) = not (is_pending p)

-- The same phases under the same names.
abbrev pub IsSame : List ExecutionNode → List ExecutionNode → Type 0
IsSame before after =
    ((j : Str) → phase_of j after ≡ phase_of j before) × (names_of after ≡ names_of before)

-- Every node but the one of the name has the phase it had.
abbrev pub IsElsewhereSame : Str → List ExecutionNode → List ExecutionNode → Type 0
IsElsewhereSame name before after =
    (j : Str) → str_eq j name ≡ false → phase_of j after ≡ phase_of j before

module _ (g : Graph) where
  -- A node past `pending` has only completed nodes upstream, and no two nodes share a name.
  abbrev pub IsOrdered : List ExecutionNode → Type 0
  IsOrdered ns =
      ((n u : Str)
        → is_started (phase_of n ns) ≡ true
        → contains u (g.ins n) ≡ true
        → phase_done (phase_of u ns) ≡ true)
      × ((a : Str) → count a (names_of ns) ≤ 1)

  -- The node is not completed, and all that is upstream of it is.
  abbrev pub IsReady : Str → List ExecutionNode → Type 0
  IsReady name ns =
      ((u : Str) → contains u (g.ins name) ≡ true → phase_done (phase_of u ns) ≡ true)
      × (phase_done (phase_of name ns) ≡ false)

  -- Between two steps of a node, and behind the last one.
  abbrev pub IsUnderWay : Str → List ExecutionNode → List ExecutionNode → Type 0
  IsUnderWay name before ns = IsOrdered ns × IsReady name ns × IsElsewhereSame name before ns

  abbrev pub IsBehind : Str → List ExecutionNode → List ExecutionNode → Type 0
  IsBehind name before ns = IsOrdered ns × IsElsewhereSame name before ns

  pub ready_apart :
      (name u : Str) (ns : List ExecutionNode)
      → IsReady name ns
      → phase_done (phase_of u ns) ≡ true
      → str_eq u name ≡ false
  ready_apart name u ns r d = elim (Bool-cases (str_eq u name)) [
    | inl e ↦ absurd (
        let same = (str_eq_iff u name).0 e in
        let stuck = subst (λ a. phase_done (phase_of a ns) ≡ true) same d in
        let open_still = r.1 in cc)
    | inr n ↦ n
  ]

  moved-Order :
      (name : Str) (phase : Phase) (before after : List ExecutionNode)
      → IsOrdered before
      → IsReady name before
      → IsMoved name phase before after
      → (n u : Str) → is_started (phase_of n after) ≡ true
      → contains u (g.ins n) ≡ true
      → phase_done (phase_of u after) ≡ true
  moved-Order name phase before after o r m n u st c = ap phase_done (m.1 u apart) ∙ done_before
    where
      done_before : phase_done (phase_of u before) ≡ true
      done_before = elim (Bool-cases (str_eq n name)) [
        | inl e ↦ r.0 u (subst (λ a. contains u (g.ins a) ≡ true) ((str_eq_iff n name).0 e) c)
        | inr e ↦ o.0 n u (ap is_started (sym (m.1 n e)) ∙ st) c
      ]

      apart : str_eq u name ≡ false
      apart = ready_apart name u before r done_before

  -- A step of a node that is ready keeps the order.
  pub moved-IsBehind :
      (name : Str) (phase : Phase) (start before after : List ExecutionNode)
      → IsUnderWay name start before
      → IsMoved name phase before after
      → IsBehind name start after
  moved-IsBehind name phase start before after (o, r, e) m = (
    (moved-Order name phase before after o r m, λ a. subst (λ l. count a l ≤ 1) (sym m.2) (o.1 a)),
    λ j d. m.1 j d ∙ e j d,
  )

  -- The node stays ready until it is completed.
  pub moved-IsUnderWay :
      (name : Str) (phase : Phase) (start before after : List ExecutionNode)
      → IsUnderWay name start before
      → is_completed phase ≡ false
      → IsMoved name phase before after
      → IsUnderWay name start after
  moved-IsUnderWay name phase start before after w p m =
      let behind = moved-IsBehind name phase start before after w m in
      (
        behind.0,
        (
          λ u c. let d = w.1.0 u c in ap phase_done (m.1 u (ready_apart name u before w.1 d)) ∙ d,
          ap phase_done m.0 ∙ p,
        ),
        behind.1,
      )

  pub same-IsOrdered :
      (before after : List ExecutionNode) → IsSame before after → IsOrdered before → IsOrdered after
  same-IsOrdered before after (s, e) o = (
    λ n u st c. ap phase_done (s u) ∙ o.0 n u (ap is_started (sym (s n)) ∙ st) c,
    λ a. subst (λ l. count a l ≤ 1) (sym e) (o.1 a),
  )

  pub same-IsReady :
      (name : Str) (before after : List ExecutionNode)
      → IsSame before after
      → IsReady name before
      → IsReady name after
  same-IsReady name before after (s, e) r =
      (λ u c. ap phase_done (s u) ∙ r.0 u c, ap phase_done (s name) ∙ r.1)

  pub same-IsBehind :
      (name : Str) (start before after : List ExecutionNode)
      → IsSame before after
      → IsBehind name start before
      → IsBehind name start after
  same-IsBehind name start before after s (o, e) =
      (same-IsOrdered before after s o, λ j d. s.0 j ∙ e j d)

  pub same-IsUnderWay :
      (name : Str) (start before after : List ExecutionNode)
      → IsSame before after
      → IsUnderWay name start before
      → IsUnderWay name start after
  same-IsUnderWay name start before after s (o, r, e) =
      (same-IsOrdered before after s o, same-IsReady name before after s r, λ j d. s.0 j ∙ e j d)
