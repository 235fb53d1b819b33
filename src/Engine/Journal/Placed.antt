-- ===== src/Engine/Journal/Placed.antt =====
-- What setting the phase of a node does to the nodes of a record.
use terragraph.Prelude.{
  ◌≡◌, inl, inr, refl, ap, arith, true, false, Str, str_eq, str_eq_iff, List, [], ◌∷◌, Option, none,
  some, map, Bool-cases,
}
use terragraph.Engine.Journal.{Phase, ExecutionNode, set_phase, phase_of, put_before}

abbrev pub names_of : List ExecutionNode → List Str
names_of = map (λ n. n.name)

-- The node of the name has the phase, and all the others are as before.
abbrev pub IsMoved : Str → Phase → List ExecutionNode → List ExecutionNode → Type 0
IsMoved name phase before after =
    (phase_of name after ≡ some phase)
    × ((j : Str) → str_eq j name ≡ false → phase_of j after ≡ phase_of j before)
    × (names_of after ≡ names_of before)

abbrev pub IsPlaced : Str → Phase → List ExecutionNode → Option (List ExecutionNode) → Type 0
IsPlaced name phase before none = phase_of name before ≡ none
IsPlaced name phase before (some after) = IsMoved name phase before after

set_here :
    (name : Str) (phase : Phase) (n m : ExecutionNode) (rest : List ExecutionNode)
    → str_eq n.name name ≡ true
    → m.name ≡ n.name
    → m.phase ≡ phase
    → IsMoved name phase (n ∷ rest) (m ∷ rest)
unfolding phase_of
set_here name phase n m rest e same moved = (
  rw (same, e, moved) refl,
  λ j d. rw same (ground (arith, str_eq_iff n.name name, str_eq_iff n.name j, str_eq_iff j name)),
  ap (λ a. a ∷ names_of rest) same,
)

set_later :
    (name : Str) (phase : Phase) (n : ExecutionNode) (rest : List ExecutionNode)
    (later : Option (List ExecutionNode))
    → str_eq n.name name ≡ false
    → IsPlaced name phase rest later
    → IsPlaced name phase (n ∷ rest) (put_before n later)
unfolding phase_of
set_later name phase n rest none e h = rw (e, phase_of) h
set_later name phase n rest (some after) e (a, b, c) =
    (rw (e, phase_of) a, λ j d. rw (b j d) refl, ap (λ ns. n.name ∷ ns) c)

phase_of-nil : (name : Str) → phase_of name [] ≡ none
unfolding phase_of
phase_of-nil name = refl

pub set_phase-IsPlaced :
    (name : Str) (phase : Phase) (code plan_id : Str) (nodes : List ExecutionNode)
    → IsPlaced name phase nodes (set_phase name phase code plan_id nodes)
unfolding set_phase
set_phase-IsPlaced name phase code plan_id [] = phase_of-nil name
set_phase-IsPlaced name phase code plan_id (n ∷ rest) = elim (Bool-cases (str_eq n.name name)) [
  | inl e ↦ rw e (set_here name phase n _ rest e refl refl)
  | inr e ↦ rw e (set_later name phase n rest _ e (set_phase-IsPlaced name phase code plan_id rest))
]
