-- ===== src/Engine/Approve.antt =====
-- internal/blueprint/approve.go, internal/engine/approve.go and ResourceChange.IsReplace of
-- internal/exec/runner.go: how much of a plan may be applied without a human.
use terragraph.Prelude.{
  ℕ, ◌+◌, ◌≡◌, refl, arith, Bool, true, false, not, ◌&&◌, ◌||◌, Str, bytes, str_eq, str_eq_iff,
  List, [], ◌∷◌, Option, none, some, if◌then◌else◌, any, all, keep, is_nil, sort_by, is_nil-sort_by,
  subst, str_ltb, ◌∙◌, sym,
}

-- `unset` is the empty string: no level was named.
pub data Approve : Type 0 where
  unset : Approve
  none_allowed safe all_allowed : Approve

-- ParseApprove
unfoldable pub parse_approve : Str → Option Approve
parse_approve s =
    if str_eq s (bytes "none")
    then some none_allowed
    else if str_eq s (bytes "safe")
    then some safe
    else if str_eq s (bytes "all")
    then some all_allowed
    else none

abbrev pub is_all : Approve → Bool
is_all all_allowed = true
is_all _ = false

abbrev is_safe : Approve → Bool
is_safe safe = true
is_safe _ = false

-- (Approve).Permits
unfoldable pub permits : Approve → Str → Bool
permits a action =
    if str_eq action (bytes "no-op") || str_eq action (bytes "read")
    then true
    else if str_eq action (bytes "create") || str_eq action (bytes "update")
    then is_safe a || is_all a
    else is_all a

pub record ResourceChange : Type 0 where
  pub address : Str
  pub actions : List Str

-- (ResourceChange).IsReplace
unfoldable pub is_replace : ResourceChange → Bool
is_replace c =
    any (λ a. str_eq a (bytes "create")) c.actions && any (λ a. str_eq a (bytes "delete")) c.actions

-- approveFor, for the level of the node and the level of the run.
unfoldable pub approve_for : Approve → Approve → Approve
approve_for unset unset = safe
approve_for unset run_default = run_default
approve_for level run_default = level

abbrev pub address_ltb : ResourceChange → ResourceChange → Bool
address_ltb a b = str_ltb a.address b.address

unfoldable pub blocks : Approve → ResourceChange → Bool
blocks level c = any (λ a. not (permits level a)) c.actions

-- notPermitted
unfoldable pub not_permitted : List ResourceChange → Approve → List ResourceChange
not_permitted changes level = sort_by address_ltb (keep (blocks level) changes)

pub record Summary : Type 0 where
  pub add : ℕ
  pub change : ℕ
  pub destroy : ℕ

abbrev tally : Summary → Str → Summary
tally t a =
    if str_eq a (bytes "create")
    then record t { add = t.add + 1 }
    else if str_eq a (bytes "update")
    then record t { change = t.change + 1 }
    else if str_eq a (bytes "delete")
    then record t { destroy = t.destroy + 1 }
    else t

unfoldable pub tally_actions : Summary → List Str → Summary
tally_actions t [] = t
tally_actions t (a ∷ rest) = tally_actions (tally t a) rest

-- The counts of summarizeChanges.
unfoldable pub summarize_changes : Summary → List ResourceChange → Summary
summarize_changes t [] = t
summarize_changes t (c ∷ rest) =
    summarize_changes
      (if is_replace c
        then record t { add = t.add + 1; destroy = t.destroy + 1 }
        else tally_actions t c.actions)
      rest

-- describeAction
unfoldable pub first_action : List Str → Str
first_action [] = bytes "no-op"
first_action (a ∷ rest) =
    if str_eq a (bytes "no-op") || str_eq a (bytes "read") then first_action rest else a

unfoldable pub describe_action : ResourceChange → Str
describe_action c = if is_replace c then bytes "replace" else first_action c.actions

-- Whether every action of every change is permitted.
abbrev pub all_permitted : Approve → List ResourceChange → Bool
all_permitted level = all (λ c. all (permits level) c.actions)

blocks_not :
    (level : Approve) (actions : List Str)
    → any (λ a. not (permits level a)) actions ≡ not (all (permits level) actions)
blocks_not level [] = refl
blocks_not level (a ∷ rest) = ground (arith, blocks_not level rest)

is_nil-keep-blocks :
    (level : Approve) (changes : List ResourceChange)
    → is_nil (keep (blocks level) changes) ≡ all_permitted level changes
unfolding blocks
is_nil-keep-blocks level [] = refl
is_nil-keep-blocks level (c ∷ rest) =
    ground (arith, blocks_not level c.actions, is_nil-keep-blocks level rest)

-- The gate names no change exactly if the level permits every action of every change of the plan.
pub not_permitted-empty :
    (changes : List ResourceChange) (level : Approve)
    → is_nil (not_permitted changes level) ≡ all_permitted level changes
unfolding not_permitted
not_permitted-empty changes level =
    is_nil-sort_by address_ltb (keep (blocks level) changes) ∙ is_nil-keep-blocks level changes

abbrev pub is_delete : Str → Bool
is_delete a = str_eq a (bytes "delete")

permits-delete : (level : Approve) (a : Str) → is_delete a ≡ true → permits level a ≡ is_all level
unfolding permits str_eq
permits-delete level a e =
    subst (λ b. permits level b ≡ is_all level) (sym ((str_eq_iff a (bytes "delete")).0 e)) refl

permits-deletes :
    (level : Approve) (actions : List Str)
    → all (permits level) actions ≡ true
    → any is_delete actions ≡ true
    → is_all level ≡ true
permits-deletes level [] h e = absurd (cc)
permits-deletes level (a ∷ rest) h e =
    ground (arith, permits-delete level a, permits-deletes level rest)
