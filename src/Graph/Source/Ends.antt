-- ===== src/Graph/Source/Ends.antt =====
-- internal/graph/source.go: the expansion of nested groups ends, also for a group that contains
-- itself.
use terragraph.Prelude.{
  ℕ, zero, suc, ◌+◌, ◌≡◌, ◌≢◌, ◌≤◌, refl, ap, subst, arith, true, Str, List, [], ◌∷◌, ◌++◌,
  contains, contains_iff, count, count-append, length, length-append, length-le_of_count,
  Bool-cases, inl, inr, Option, some, none, All, if_elim, str_eq_iff,
}
use terragraph.Graph.{qualify_name}
use terragraph.Graph.Group.{Resolved, resolved, refused, out_of_fuel, ◌>>=◌, map_resolved}
use terragraph.Graph.Source.{Scope, merge_env, group_key, push, found, source_nodes}

-- The computation was not cut short.
abbrev pub HasEnded : {A : Type 0} → Resolved A → Type 0
HasEnded m = m ≢ refused out_of_fuel

pub >>=-HasEnded :
    {A B : Type 0} (m : Resolved A) (f : A → Resolved B)
    → HasEnded m
    → ((a : A) → m ≡ resolved a → HasEnded (f a))
    → HasEnded (m >>= f)
>>=-HasEnded (resolved a) f h g = g a refl
>>=-HasEnded (refused r) f h g = λ e. h (let same : r ≡ out_of_fuel = cc in ap refused same)

pub map_resolved-HasEnded :
    {A B : Type 0} (P : A → Type 0) (f : A → Resolved B) (xs : List A)
    → ((x : A) → P x → HasEnded (f x))
    → All P xs
    → HasEnded (map_resolved f xs)
unfolding map_resolved
map_resolved-HasEnded P f [] g h = λ e. cc
map_resolved-HasEnded P f (x ∷ xs) g h =
    >>=-HasEnded (f x) _ (g x h.0) (λ y _.
      >>=-HasEnded (map_resolved f xs) _ (map_resolved-HasEnded P f xs g h.1) (λ ys _ e. cc))

-- The keys on the stack are among the known ones, each as often at most.
abbrev pub IsStack : List Str → List Str → Type 0
IsStack known stack = (k : Str) → count k stack ≤ count k known

found-HasEnded : (dir name : Str) (o : Option Scope) → HasEnded (found dir name o)
found-HasEnded dir name none = λ e. cc
found-HasEnded dir name (some s) = λ e. cc

pub push-HasEnded : (stack : List Str) (dir name : Str) → HasEnded (push stack dir name)
unfolding push
push-HasEnded stack dir name =
    if_elim (λ (m : Resolved (List Str)). HasEnded m) (contains (group_key dir name) stack)
      (λ _ e. cc) (λ _ e. cc)

found-some :
    (dir name : Str) (o : Option Scope) (def : Scope)
    → found dir name o ≡ resolved def
    → o ≡ some def
found-some dir name none def e = absurd (cc)
found-some dir name (some s) def e = let same : s ≡ def = cc in ap some same

-- The stack after a use is one longer, and its keys are still among the known ones.
pub push-IsStack :
    (known stack : List Str) (dir name : Str) (next : List Str)
    → IsStack known stack
    → contains (group_key dir name) known ≡ true
    → push stack dir name ≡ resolved next
    → IsStack known next × (length next ≡ suc (length stack))
unfolding push count
push-IsStack known stack dir name next h here e =
    elim (Bool-cases (contains (group_key dir name) stack)) [
      | inl t ↦ absurd (let f = rw t at e in cc)
      | inr n ↦
          let same : stack ++ group_key dir name ∷ [] ≡ next = (let f = rw n at e in cc) in
          subst (λ (l : List Str). IsStack known l × (length l ≡ suc (length stack))) same
            (
              λ k. ground (
                arith,
                h k,
                count-append k stack (group_key dir name ∷ []),
                contains_iff (group_key dir name) stack,
                contains_iff (group_key dir name) known,
                str_eq_iff (group_key dir name) k,
                n,
                here,
              ),
              omega (arith, length-append stack (group_key dir name ∷ [])),
            )
    ]

module _ (load : Str → Str → Option Scope) (join : Str → Str → Str) (known : List Str) where
  -- The keys of the groups that a scope in that directory uses are among the known ones.
  abbrev pub UsesKnown : Str → Scope → Type 0
  UsesKnown dir scope =
      All (λ u. contains (group_key (join dir u.source) u.group_name) known ≡ true) scope.uses

  source_nodes-HasEnded :
      (fuel : ℕ) (dir namespace : Str) (ambient : List (Str × Str)) (stack : List Str)
      (scope : Scope)
      → ((at name : Str) (def : Scope) → load at name ≡ some def → UsesKnown at def)
      → fuel + length stack ≡ suc (length known)
      → IsStack known stack
      → UsesKnown dir scope
      → HasEnded (source_nodes load join fuel dir namespace ambient stack scope)
  unfolding source_nodes
  source_nodes-HasEnded zero dir namespace ambient stack scope closed enough fits here =
      absurd (omega (arith, enough, length-le_of_count stack known fits))
  source_nodes-HasEnded (suc fuel) dir namespace ambient stack scope closed enough fits here =
      >>=-HasEnded (map_resolved _ scope.uses) _
        (map_resolved-HasEnded
          (λ u. contains (group_key (join dir u.source) u.group_name) known ≡ true) _ scope.uses
          (λ u k.
            let inside = join dir u.source in
            >>=-HasEnded (push stack inside u.group_name) _
              (push-HasEnded stack inside u.group_name)
              (λ next pushed.
                let grown = push-IsStack known stack inside u.group_name next fits k pushed in
                >>=-HasEnded (found inside u.group_name (load inside u.group_name)) _
                  (found-HasEnded inside u.group_name (load inside u.group_name))
                  (λ def loaded.
                    source_nodes-HasEnded fuel inside (qualify_name namespace u.instance_name)
                      (merge_env ambient u.backend_config) next def closed
                      (omega (arith, enough, grown.1)) grown.0
                      (closed inside u.group_name def
                        (found-some inside u.group_name (load inside u.group_name) def loaded)))))
          here)
        (λ inner _ e. cc)

  -- SourceNodes ends on every blueprint, also when a group contains itself: as many scopes inside
  -- one another as there are groups to use, and the blueprint's own, are enough, when the groups
  -- that the blueprint and every loaded group use are among the known ones.
  pub source_nodes-ends :
      (dir : Str) (scope : Scope)
      → ((at name : Str) (def : Scope) → load at name ≡ some def → UsesKnown at def)
      → UsesKnown dir scope
      → HasEnded (source_nodes load join (suc (length known)) dir [] [] [] scope)
  unfolding count
  source_nodes-ends dir scope closed here =
      source_nodes-HasEnded (suc (length known)) dir [] [] [] scope closed (omega arith)
        (λ k. omega arith) here
