-- ===== src/Graph/Group/Success.antt =====
-- internal/graph/group.go: how a property goes through a chain of steps that may be refused.
use terragraph.Prelude.{◌≡◌, refl, subst, List, [], ◌∷◌, All}
use terragraph.Graph.Group.{Resolved, resolved, refused, ◌>>=◌, map_resolved}

-- What a result satisfies unless it is an error.
abbrev pub OnSuccess {ℓ} : {A : Type 0} → (A → Type ℓ) → Resolved A → Type ℓ
OnSuccess P (resolved a) = P a
OnSuccess P (refused r) = Unit

pub on_success {ℓ} :
    {A : Type 0} (P : A → Type ℓ) (m : Resolved A) (a : A) → OnSuccess P m → m ≡ resolved a → P a
on_success P m a h e = subst (OnSuccess P) e h

pub >>=-OnSuccess {ℓ κ} :
    {A B : Type 0} (Q : A → Type κ) (P : B → Type ℓ) (m : Resolved A) (f : A → Resolved B)
    → OnSuccess Q m
    → ((a : A) → Q a → OnSuccess P (f a))
    → OnSuccess P (m >>= f)
>>=-OnSuccess Q P (resolved a) f h g = g a h
>>=-OnSuccess Q P (refused r) f h g = tt

pub weaken {ℓ κ} :
    {A : Type 0} (P : A → Type ℓ) (Q : A → Type κ) (m : Resolved A)
    → OnSuccess P m
    → ((a : A) → P a → Q a)
    → OnSuccess Q m
weaken P Q (resolved a) h f = f a h
weaken P Q (refused r) h f = tt

pub any_success : {A : Type 0} (m : Resolved A) → OnSuccess (λ _. Unit {0}) m
any_success (resolved a) = tt
any_success (refused r) = tt

pub map_resolved-OnSuccess {ℓ κ} :
    {A B : Type 0} (Q : A → Type κ) (P : B → Type ℓ) (f : A → Resolved B) (xs : List A)
    → ((x : A) → Q x → OnSuccess P (f x))
    → All Q xs
    → OnSuccess (All P) (map_resolved f xs)
unfolding map_resolved
map_resolved-OnSuccess Q P f [] g h = tt
map_resolved-OnSuccess Q P f (x ∷ xs) g h = >>=-OnSuccess P (All P) (f x) _ (g x h.0) (λ y py.
    >>=-OnSuccess (All P) (All P) (map_resolved f xs) _ (map_resolved-OnSuccess Q P f xs g h.1)
      (λ ys pys. (py, pys)))

-- What each entry satisfies when the loop over the entries meets no error.
pub map_resolved-inputs {ℓ} :
    {A B : Type 0} (Q : A → Type ℓ) (f : A → Resolved B) (xs : List A)
    → ((x : A) → OnSuccess (λ _. Q x) (f x))
    → OnSuccess (λ _. All Q xs) (map_resolved f xs)
unfolding map_resolved
map_resolved-inputs Q f [] h = tt
map_resolved-inputs Q f (x ∷ xs) h =
    >>=-OnSuccess (λ _. Q x) (λ _. All Q (x ∷ xs)) (f x) _ (h x)
      (λ y q.
        >>=-OnSuccess (λ _. All Q xs) (λ _. All Q (x ∷ xs)) (map_resolved f xs) _
          (map_resolved-inputs Q f xs h) (λ ys qs. (q, qs)))

-- The second step, after a first one that went well.
pub >>=-after {ℓ} :
    {A B : Type 0} (P : B → Type ℓ) (m : Resolved A) (f : A → Resolved B)
    → ((a : A) → m ≡ resolved a → OnSuccess P (f a))
    → OnSuccess P (m >>= f)
>>=-after P (resolved a) f g = g a refl
>>=-after P (refused r) f g = tt
