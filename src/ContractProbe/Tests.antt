-- ===== src/ContractProbe/Tests.antt =====
-- A reachable contract, and states with a request in the slot and a snapshot being taken.
use data_product_controller.Prelude.{
  ◌≡◌, true, false, some, [], pos, refl, ap, inl, inr, update_ne, nat_eq, none,
}
use data_product_controller.ContractProbe.{
  Network, fetch, target_result, is_valid_target, response_result, is_identity, sized_result,
}
use data_product_controller.ContractProbe.Fetch.{IsReachable, fetch_iff}
use data_product_controller.ContractProbe.Service.{
  holding, reading, State, acquire, read_lock, gather, gathered, pick, initial, Reach, start, later,
  is_reading, is_writing, Unwritten, Unread,
}
use data_product_controller.ContractProbe.Views.{IsPast}
use data_product_controller.ContractProbe.Snapshot.{Holds, apart_of, Reach-Holds, snapshot-IsPast}
use data_product_controller.ContractProbe.Release.{moved, Ends, slot-Ends}

abbrev network : Network
network = record {
  parse = λ _. some (record {
    scheme = "https";
    hostname = "orders.example";
    has_user = false;
    raw_query = "";
    force_query = false;
    fragment = "";
    opaque = "";
  });
  is_requestable = λ _. true;
  do_request = λ _. some (record {
    status_code = 200;
    encodings = [];
    content_length = pos 512;
    body = record { length = 512; fails = false; fails_with_last = false };
  });
}

contract_reachable : fetch network "https://orders.example/contract" ≡ "ContractReachable"
unfolding fetch target_result is_valid_target response_result is_identity sized_result
contract_reachable = refl

fetch_iff_example : IsReachable network "https://orders.example/contract"
fetch_iff_example = (fetch_iff network "https://orders.example/contract").0 contract_reachable

-- the first request has taken the slot
abbrev held : State
held = moved initial 0 (record initial.memory { slot = true }) holding

held_reached : Reach "https://orders.example/contract" held
held_reached = later start (pick 0 (acquire refl))

held-Unwritten : Unwritten held
held-Unwritten i = elim (apart_of i 0) [
  | inl e ↦ ap (λ x. is_writing (held.threads x)) e
  | inr d ↦ ap is_writing (update_ne initial.threads 0 holding i d)
]

held-Unread : Unread held
held-Unread i = elim (apart_of i 0) [
  | inl e ↦ ap (λ x. is_reading (held.threads x)) e
  | inr d ↦ ap is_reading (update_ne initial.threads 0 holding i d)
]

-- then the second one takes a snapshot
abbrev watched : State
watched = moved held 1 held.memory reading

watched_reached : Reach "https://orders.example/contract" watched
watched_reached = later held_reached (pick 1 (read_lock held-Unwritten))

Reach-Holds_example : Holds watched
Reach-Holds_example = Reach-Holds watched_reached

-- and has taken it
abbrev shown : State
shown = moved watched 1 watched.memory (gathered 0 none)

shown_reached : Reach "https://orders.example/contract" shown
shown_reached = later watched_reached (pick 1 gather)

snapshot-IsPast_example : IsPast shown.memory.history 0 none
snapshot-IsPast_example = snapshot-IsPast 1 0 none shown_reached refl

slot-Ends_example : Ends (some true) network "https://orders.example/contract" held 0
slot-Ends_example = slot-Ends (some true) network held 0 held_reached held-Unread refl
