-- ===== src/Graph/Topo.antt =====
-- internal/graph/topo.go: execution layers and the flat order.
pub mod Round
pub mod Order
pub mod Sequence
pub mod Cycles
pub mod Stable
use terragraph.Prelude.{
  ℕ, zero, suc, ◌+◌, ◌≡◌, refl, Bool, true, false, not, Str, str_eq, List, [], ◌∷◌, ◌++◌, map,
  flatten, Option, none, some, sort, length, keep, is_nil, if◌then◌else◌, ◌==◌, bytes,
}
use terragraph.Prelude.Int.{ℤ, pos, decr, is_zero}
use terragraph.Graph.{Graph}

-- The map `inDegree`: the nodes that are not placed, with the edges that they still wait for.
abbrev pub Degrees : Type 0
Degrees = List (Str × ℤ)

abbrev pub keys : Degrees → List Str
keys = map (λ entry. entry.0)

unfoldable pub in_degrees : Graph → Degrees
in_degrees g = map (λ name. (name, pos (length (g.ins name)))) g.nodes

-- The names with d == 0.
unfoldable pub ready : Degrees → List Str
ready deg = map (λ entry. entry.0) (keep (λ entry. is_zero entry.1) deg)

-- delete(inDegree, n)
unfoldable pub delete : Str → Degrees → Degrees
delete n = keep (λ entry. not (str_eq entry.0 n))

-- inDegree[m]-- where the key is there
unfoldable pub lower : Str → Degrees → Degrees
lower m = map (λ entry. (entry.0, if str_eq entry.0 m then decr entry.1 else entry.1))

unfoldable pub lower_each : List Str → Degrees → Degrees
unfolding lower
lower_each [] deg = deg
lower_each (m ∷ next) deg = lower_each next (lower m deg)

-- The body of the loop over a level.
unfoldable pub place : Graph → Str → Degrees → Degrees
unfolding delete lower_each
place g n deg = lower_each (g.outs n) (delete n deg)

unfoldable pub place_level : Graph → List Str → Degrees → Degrees
place_level g [] deg = deg
place_level g (n ∷ level) deg = place_level g level (place g n deg)

-- The outer loop. `none` means that the fuel ran out.
unfoldable pub layers : Graph → ℕ → Degrees → List (List Str) → ℕ → Option (List (List Str) × ℕ)
layers g zero deg levels placed = none
layers g (suc fuel) deg levels placed =
    let level = sort (ready deg) in
    let rest =
      layers g fuel (place_level g level deg) (levels ++ level ∷ []) (placed + length level) in
    if is_nil level then some (levels, placed) else rest

pub data Outcome {ℓ} (A : Type ℓ) : Type ℓ where
  ok : A → Outcome A
  cyclic out_of_fuel : Outcome A

-- The test after the loop.
abbrev pub conclude : ℕ → Option (List (List Str) × ℕ) → Outcome (List (List Str))
conclude total none = out_of_fuel
conclude total (some (ls, placed)) = if placed == total then ok ls else cyclic

-- Every round but the last places a node, so one round more than there are nodes is enough.
unfoldable pub levels : Graph → Outcome (List (List Str))
levels g = conclude (length g.nodes) (layers g (suc (length g.nodes)) (in_degrees g) [] 0)

unfoldable pub topo_sort : Graph → Outcome (List Str)
topo_sort g = elim (levels g) [
  | ok ls ↦ ok (flatten ls)
  | cyclic ↦ cyclic
  | out_of_fuel ↦ out_of_fuel
]
