-- ===== src/Graph/Topo/Sequence.antt =====
-- What a layered schedule promises to the runner: the flat order of `TopoSort`, and layers whose
-- nodes may run at the same time.
use terragraph.Prelude.{
  ◌≡◌, true, Str, List, [], ◌∷◌, ◌++◌, flatten, All, All-map, contains, count, contains-append,
  append_assoc, append-nil, subst,
}
use terragraph.Graph.{Graph, IsGraph}
use terragraph.Graph.Topo.{topo_sort, ok}
use terragraph.Graph.Topo.Order.{IsLayered, levels-IsSchedule, topo_sort-eq_ok}

-- Every dependency of a node stands before it, or in `seen`.
abbrev pub IsOrdered : Graph → List Str → List Str → Type 0
IsOrdered g seen [] = Unit
IsOrdered g seen (n ∷ rest) =
    All (λ p. contains p seen ≡ true) (g.ins n) × IsOrdered g (seen ++ n ∷ []) rest

-- A layer whose dependencies are all in `seen`, in front of an ordered list.
IsOrdered-append :
    (g : Graph) (seen more level rest : List Str)
    → All (λ n. All (λ p. contains p seen ≡ true) (g.ins n)) level
    → IsOrdered g ((seen ++ more) ++ level) rest
    → IsOrdered g (seen ++ more) (level ++ rest)
IsOrdered-append g seen more [] rest h k = rw append-nil at k
IsOrdered-append g seen more (n ∷ level) rest h k = (
  All-map {P = λ p. contains p seen ≡ true} (g.ins n)
      (λ p e. rw (contains-append p seen more) (rw e)) h.0,
  rw append_assoc (
      IsOrdered-append g seen (more ++ n ∷ []) level rest h.1
        (subst (λ s. IsOrdered g s rest) (regroup seen more n level) k)),
)
  where
    regroup :
        (a b : List Str) (x : Str) (c : List Str) → (a ++ b) ++ x ∷ c ≡ (a ++ (b ++ x ∷ [])) ++ c
    regroup a b x c = simp append_assoc

IsLayered-IsOrdered :
    (g : Graph) (seen : List Str) (ls : List (List Str))
    → IsLayered g seen ls
    → IsOrdered g seen (flatten ls)
unfolding flatten
IsLayered-IsOrdered g seen [] h = tt
IsLayered-IsOrdered g seen (level ∷ ls) h = rw (← append-nil seen) (
    IsOrdered-append g seen [] level (flatten ls) h.0
      (rw append-nil (IsLayered-IsOrdered g (seen ++ level) ls h.1)))

-- In the order of `TopoSort` every node stands once and behind everything it depends on.
pub topo_sort-IsOrdered :
    (g : Graph) (order : List Str)
    → IsGraph g
    → topo_sort g ≡ ok order
    → IsOrdered g [] order × ((a : Str) → count a order ≡ count a g.nodes)
topo_sort-IsOrdered g order built e =
    let (ls, h, flat) = topo_sort-eq_ok g order e in
    let schedule = levels-IsSchedule g ls built h in
    rw flat (IsLayered-IsOrdered g [] ls schedule.layered, schedule.complete)
