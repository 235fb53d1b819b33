-- ===== src/Tests/RoundTrips.antt =====
-- The plan of a node is saved and then applied, in a store that does what it is asked to.
use terragraph.Prelude.{
  ◌≡◌, refl, true, bytes, str_eq, [], ◌∷◌, ◌++◌, none, some, lookup, insert, has_prefix, has_suffix,
  sort_by,
}
use terragraph.Engine.Approve.{not_permitted, blocks, permits}
use terragraph.Engine.Store.{write, write_over, commit, read, valid_key, is_hex_name, new_revision}
use terragraph.Engine.Journal.{ExecutionNode, Session, Host, planned, completed, phase_of}
use terragraph.Engine.Recovery.{opened_session}
use terragraph.Engine.SavedNode.{bundle_of, saved_plan, save_frontier_node, apply_saved_node}
use terragraph.Engine.Saved.Clean.{IsLive, node_of}
use terragraph.Engine.Saved.Carried.{GoesWell}
use terragraph.Engine.Saved.Saving.{SavesWell}
use terragraph.Engine.Saved.RoundTrip.{apply_saved_node-save_frontier_node}
use terragraph.Tests.Stores.{good, counter, created}
use terragraph.Tests.Journals.{vpc, observed}
use terragraph.Tests.Saves.{goes_well, at_rest, paused, plan_key}

program : Unit {0}
unfolding write write_over commit read valid_key is_hex_name has_prefix has_suffix lookup insert
    str_eq sort_by not_permitted blocks permits node_of
program = tt

abbrev resting : Session
resting = opened_session paused (new_revision counter 0) at_rest

resting-IsLive : IsLive resting
unfolding program
resting-IsLive = (refl, refl, refl, λ name phase. tt)

vpc_saves : SavesWell (goes_well (bytes "vpc")) (bytes "sources") true
unfolding program
vpc_saves = record {
  prepared = refl;
  init = refl;
  supported = refl;
  before = refl;
  made = refl;
  after = refl;
  inspected = refl;
  kept = refl;
  has_bytes = refl;
  key = refl;
}

vpc_applies :
    GoesWell
      (saved_plan
        (goes_well (bytes "vpc"))
        (bytes "vpc")
        (bundle_of (goes_well (bytes "vpc")) (bytes "vpc") true (bytes "sources") resting))
      (goes_well (bytes "vpc")).applying_answers
unfolding program
vpc_applies = record {
  contracts = refl;
  changes = created ∷ [];
  read_changes = refl;
  permitted = refl;
  approved = refl;
  admitted = refl;
  applied_well = refl;
  outputs = refl;
}

vpc_there : node_of (bytes "vpc") resting.record_of.nodes ≡ some vpc
unfolding program
vpc_there = refl

no_plan : lookup (plan_key (bytes "vpc") ++ bytes ".bin") resting.store.objects ≡ none
unfolding program
no_plan = refl

-- A plugin that records a call at the end of each mutation.
abbrev watching : Host
watching name phase = (good, observed (bytes "completed")) ∷ []

apply_saved_node-save_frontier_node_example :
    let saved =
      save_frontier_node counter 2 (λ _. good) (goes_well (bytes "vpc")) (bytes "vpc") resting in
    let again = record (opened_session saved.1.record_of saved.1.revision saved.1.store) {
      host = watching;
    } in
    (saved.0 ≡ true)
    × ((n : ExecutionNode) × (node_of (bytes "vpc") saved.1.record_of.nodes ≡ some n)
        × (n.phase ≡ planned)
        × ((apply_saved_node counter 3 (λ _. good) (goes_well (bytes "vpc")) n again).0 ≡ true)
        × (phase_of
              (bytes "vpc")
              (apply_saved_node counter 3
                (λ _. good)
                (goes_well (bytes "vpc"))
                n
                again).1.record_of.nodes
            ≡ some completed))
apply_saved_node-save_frontier_node_example =
    apply_saved_node-save_frontier_node counter 2 3 (λ _. good) (λ _. good)
      (goes_well (bytes "vpc")) (goes_well (bytes "vpc")) vpc (bytes "sources") true watching
      resting (λ name phase. (refl, tt)) (λ k. refl) (λ k. refl) vpc_saves resting-IsLive vpc_there
      no_plan refl refl refl refl refl vpc_applies refl
