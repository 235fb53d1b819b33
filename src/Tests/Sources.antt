-- ===== src/Tests/Sources.antt =====
-- A group that uses itself, and one that does not.
use terragraph.Prelude.{
  ◌≡◌, refl, true, Str, bytes, List, [], ◌∷◌, Option, some, none, if◌then◌else◌, length, suc,
  str_eq, contains, flatten, insert, subst, All, Bool-cases, inl, inr,
}
use terragraph.Graph.{qualify_name}
use terragraph.Graph.Group.{resolved, refused, circular_use, map_resolved, assign_all}
use terragraph.Graph.Source.{SourceNode, Use, Scope, merge_env, group_key, push, leaf, source_nodes}
use terragraph.Graph.Source.Ends.{HasEnded, source_nodes-ends}

abbrev lib : Str
lib = bytes "lib"

abbrev loop : Str
loop = bytes "loop"

abbrev base : Str
base = bytes "base"

abbrev vpc_node : SourceNode
vpc_node = record { name = bytes "vpc"; source = bytes "./vpc"; backend_config = [] }

abbrev use_of : Str → Use
use_of group = record {
  instance_name = bytes "a";
  group_name = group;
  source = lib;
  backend_config = (bytes "bucket", bytes "state") ∷ [];
}

abbrev using : Str → Scope
using group = record { nodes = vpc_node ∷ []; uses = use_of group ∷ [] }

-- Any directory has the two groups.
abbrev load : Str → Str → Option Scope
load dir name =
    if str_eq name loop
    then some (using loop)
    else if str_eq name base
    then some (record { nodes = vpc_node ∷ []; uses = [] })
    else none

-- Every source is a directory of its own.
abbrev join : Str → Str → Str
join dir source = source

abbrev keys : List Str
keys = group_key lib loop ∷ group_key lib base ∷ []

loop-refused :
    source_nodes load join (suc (length keys)) [] [] [] [] (using loop)
    ≡ refused (circular_use (group_key lib loop))
unfolding source_nodes map_resolved push contains str_eq merge_env assign_all
loop-refused = refl

base-named :
    source_nodes load join (suc (length keys)) [] [] [] [] (using base)
    ≡ resolved (
        vpc_node
        ∷ record {
          name = bytes "a.vpc";
          source = bytes "./vpc";
          backend_config = (bytes "bucket", bytes "state") ∷ [];
        }
        ∷ [])
unfolding source_nodes map_resolved push contains str_eq merge_env assign_all leaf qualify_name
    flatten insert
base-named = refl

loop-known : contains (group_key lib loop) keys ≡ true
unfolding contains str_eq
loop-known = refl

load-known :
    (at name : Str) (def : Scope)
    → load at name ≡ some def
    → All (λ u. contains (group_key u.source u.group_name) keys ≡ true) def.uses
load-known at name def e = elim (Bool-cases (str_eq name loop)) [
  | inl t ↦
      let same : using loop ≡ def = (let f = rw t at e in cc) in
      subst
        (λ (s : Scope). All (λ u. contains (group_key u.source u.group_name) keys ≡ true) s.uses)
        same (loop-known, tt)
  | inr n ↦ elim (Bool-cases (str_eq name base)) [
    | inl t ↦
        let same : record { nodes = vpc_node ∷ []; uses = [] } ≡ def =
          (let f = rw (n, t) at e in cc) in
        subst
          (λ (s : Scope). All (λ u. contains (group_key u.source u.group_name) keys ≡ true) s.uses)
          same tt
    | inr m ↦ absurd (let f = rw (n, m) at e in cc)
  ]
]

source_nodes-ends_example :
    HasEnded (source_nodes load join (suc (length keys)) [] [] [] [] (using loop))
source_nodes-ends_example =
    source_nodes-ends load join keys [] (using loop) load-known (loop-known, tt)
