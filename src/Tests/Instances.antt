-- ===== src/Tests/Instances.antt =====
-- All of one instance before all of another, and the vars that a `use` block sets.
use terragraph.Prelude.{
  ℕ, ◌≡◌, ◌<◌, refl, arith, true, false, Str, List, [], ◌∷◌, map, sort, count, contains, All,
  str_eq, str_eq_iff, str_eq_refl, lookup, insert, some, if◌then◌else◌, if_elim, subst,
}
use terragraph.Blueprint.{EntityKind, PortKind}
use terragraph.Graph.{IsGraph, add_edges, unwired, wired-IsGraph}
use terragraph.Graph.Group.{resolved, bare_ref, product, rewrite_edge, refused, set_twice}
use terragraph.Graph.Group.Barrier.{IsRanking, between, rewrite_edge-barrier}
use terragraph.Graph.Group.Offer.{IsOffered, use_info-IsOffered}
use terragraph.Graph.Group.Vars.{
  LeafVars, by_name, apply_use_vars, set_inputs, set_targets, set_var,
}
use terragraph.Graph.Group.Vars.Filled.{IsFilled, use_writes, apply_use_vars-IsFilled}
use terragraph.Tests.Graphs.{after}
use terragraph.Tests.Groups.{
  net, app, net_a, net_b, app_c, app_d, vpc_id, port, network, application, network_export,
  application_export, network_info, application_info, instances, modules, network_offers,
  application_offers,
}

-- The place of each node in the order of the whole.
abbrev place : Str → ℕ
place name =
    if str_eq name net_a
    then 0
    else if str_eq name net_b
    then 1
    else if str_eq name app_c
    then 2
    else 3

pair-IsGraph :
    (m n : Str) → str_eq m n ≡ false → IsGraph (add_edges (unwired (m ∷ n ∷ [])) (after m n ∷ []))
unfolding contains count
pair-IsGraph m n other =
    wired-IsGraph (m ∷ n ∷ []) (after m n ∷ [])
      (λ a. ground (arith, str_eq_iff m a, str_eq_iff n a, str_eq_iff m n))
      ((rw (str_eq_refl m) refl, rw (other, str_eq_refl n) refl), tt)

network-IsGraph : IsGraph network
unfolding str_eq
network-IsGraph = pair-IsGraph net_a net_b refl

application-IsGraph : IsGraph application
unfolding str_eq
application-IsGraph = pair-IsGraph app_c app_d refl

pair-IsRanking :
    (m n : Str)
    → place m < place n
    → IsRanking place (add_edges (unwired (m ∷ n ∷ [])) (after m n ∷ []))
unfolding add_edges unwired
pair-IsRanking m n up = (
  λ a.
      if_elim (λ (l : List Str). All (λ s. place a < place s) l) (str_eq m a)
        (λ e. (subst (λ b. place b < place n) ((str_eq_iff m a).0 e) up, tt)) (λ _. tt),
  λ a.
      if_elim (λ (l : List Str). All (λ p. place p < place a) l) (str_eq n a)
        (λ e. (subst (λ b. place m < place b) ((str_eq_iff n a).0 e) up, tt)) (λ _. tt),
)

at_net : lookup net instances ≡ some network_info
unfolding lookup str_eq
at_net = refl

at_app : lookup app instances ≡ some application_info
unfolding lookup str_eq
at_app = refl

inside_network : contains net_a network.nodes ≡ true
unfolding add_edges unwired contains str_eq
inside_network = refl

inside_application : contains app_d application.nodes ≡ true
unfolding add_edges unwired contains str_eq
inside_application = refl

net_b-lt-app_c : place net_b < place app_c
unfolding str_eq
net_b-lt-app_c = omega arith

net_a-lt-net_b : place net_a < place net_b
unfolding str_eq
net_a-lt-net_b = omega arith

app_c-lt-app_d : place app_c < place app_d
unfolding str_eq
app_c-lt-app_d = omega arith

rewrite_edge-barrier_example :
    (rewrite_edge [] instances (between net app)
      ≡ resolved (product (map bare_ref (net_b ∷ [])) (map bare_ref (app_c ∷ []))))
    × (place net_a < place app_d)
unfolding product
rewrite_edge-barrier_example =
    rewrite_edge-barrier place modules modules [] instances net app network application network_info
      application_info net app [] [] network_export application_export net_a app_d network-IsGraph
      application-IsGraph network_offers application_offers at_net at_app
      (pair-IsRanking net_a net_b net_a-lt-net_b) (pair-IsRanking app_c app_d app_c-lt-app_d)
      (net_b-lt-app_c, tt) inside_network inside_application

-- `use "application" { as = "app", vars = { vpc_id = 7 } }`
abbrev seven : List (Str × ℕ)
seven = (vpc_id, 7) ∷ []

abbrev empty_leaves : LeafVars ℕ
empty_leaves = (app_c, []) ∷ (app_d, []) ∷ []

abbrev filled_leaves : LeafVars ℕ
filled_leaves = (app_c, (vpc_id, 7) ∷ []) ∷ (app_d, (vpc_id, 7) ∷ []) ∷ []

sevens_written :
    apply_use_vars seven application_info.export.inputs empty_leaves ≡ resolved filled_leaves
unfolding apply_use_vars by_name set_inputs set_targets set_var sort insert lookup str_eq
sevens_written = refl

sevens_refused :
    apply_use_vars seven application_info.export.inputs filled_leaves
    ≡ refused (set_twice (port EntityKind.node app_c PortKind.input))
unfolding apply_use_vars by_name set_inputs set_targets set_var sort insert lookup str_eq
sevens_refused = refl

apply_use_vars-IsFilled_example :
    IsFilled
      (use_writes (by_name application_info.export.inputs []) seven (sort (map (λ e. e.0) seven)))
      empty_leaves
      filled_leaves
apply_use_vars-IsFilled_example =
    apply_use_vars-IsFilled seven application_info.export.inputs empty_leaves filled_leaves
      sevens_written

use_info-IsOffered_example : IsOffered modules application_info.export
use_info-IsOffered_example =
    use_info-IsOffered modules application app [] application_export application_info
      application_offers
