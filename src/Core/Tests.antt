-- ===== src/Core/Tests.antt =====
-- Concrete sets of records and runs of the event hub.
use th.Base.{
  ◌+◌, ◌-◌, ◌^◌, ◌<◌, ◌≤◌, ◌≡◌, ◌≢◌, ◌↔◌, refl, true, false, List, [], ◌∷◌, none, All, length,
  arith,
}
use th.Base.Text.{codes}
use th.Model.Types.{gre, pending, Tunnel}
use th.Model.Check.{ok}
use th.Model.Validate.Common.{
  valid_id, validate_interface, validate_mtu, addresses_loop, validate_interface_addresses,
  validate_underlay_pair,
}
use th.Model.Validate.Babel.{validate_babel, validate_tunnel_babel, validate_tunnel_mptcp}
use th.Model.Validate.{validate_header, validate_spec_choice, validate_gre, validate_kind, validate}
use th.Model.Ownership.{
  rule_priorities_of, managed_rule_priorities, exclusive_tables_of, exclusive_route_tables,
  route_claims_of, managed_route_claims,
}
use th.Model.Samples.{library, first_tunnel, second_tunnel}
use th.Base.Maps.{lookup, insert}
use th.Core.Outcome.{accept, crash}
use th.Core.Records.{
  Owners, no_owners, claim_found, claim, claim_priorities, claim_interface, claim_number,
  kind_claims, claim_tables, claim_routes, count_claims, after_tables, after_priorities,
  after_req_ids, after_if_ids, after_kind, after_interfaces, after_names, after_ids, claim_record,
  records_loop, validate_record_set,
}
use th.Core.Records.Separate.{Separate, Pairwise, validate_record_set-Separate}
use th.Core.Records.Ends.{validate_record_set-ne-crash}
use th.Core.Events.{Event, EventHub, event_status, new_event_hub, publish, subscribe, receive}
use th.Core.Events.Streams.{sequences, count_from}
use th.Core.Events.Hub.{
  IsHub, Reach, here, next_step, step_publish, step_subscribe, step_receive, Reach-IsHub,
}
use th.Core.Events.Replay.{subscribe-gap}

abbrev records : List Tunnel
records = first_tunnel ∷ second_tunnel ∷ []

abbrev owners : Owners
owners = record no_owners {
  ids = (first_tunnel.id, codes "paris") ∷ (second_tunnel.id, codes "tokyo") ∷ [];
  names = (codes "paris", first_tunnel.id) ∷ (codes "tokyo", second_tunnel.id) ∷ [];
  interfaces = (codes "gre1", codes "paris") ∷ (codes "gre2", codes "tokyo") ∷ [];
}

records-validate_record_set : validate_record_set library records ≡ accept owners
unfolding validate_record_set records_loop claim_record after_ids after_names after_interfaces
    after_kind after_if_ids after_req_ids after_priorities after_tables count_claims claim_routes
    claim_tables kind_claims claim_number claim_interface claim_priorities claim claim_found lookup
    insert managed_rule_priorities managed_route_claims validate validate_header
    validate_spec_choice validate_kind validate_gre valid_id validate_interface validate_mtu
    addresses_loop validate_interface_addresses validate_underlay_pair validate_babel
    validate_tunnel_babel validate_tunnel_mptcp rule_priorities_of exclusive_route_tables
    exclusive_tables_of route_claims_of
records-validate_record_set = refl

validate_record_set-Separate_example :
    (length records ≤ 1024)
    × All (λ t. validate library t ≡ ok) records
    × Pairwise (Separate library) records
validate_record_set-Separate_example =
    validate_record_set-Separate library records owners records-validate_record_set

validate_record_set-ne-crash_example : validate_record_set library records ≢ crash
validate_record_set-ne-crash_example = validate_record_set-ne-crash library records

abbrev event : Event
event = record {
  sequence = 0;
  time = 0;
  event_type = event_status;
  tunnel_id = codes "a";
  tunnel_name = codes "paris";
  tunnel_kind = gre;
  enabled = true;
  generation = 1;
  phase = pending;
  message = [];
  details = [];
  status = none;
}

-- Two events, and one more for a subscriber that came between them.
abbrev hub : EventHub
hub =
    receive 1
      (publish 7 event (subscribe 0 (publish 6 event (publish 5 event (new_event_hub 2)).0).0).0).0

hub-Reach : Reach (new_event_hub 2) hub
unfolding new_event_hub publish subscribe
hub-Reach =
    next_step
      (next_step
        (next_step
          (next_step (next_step here (step_publish 5 event (omega arith)))
            (step_publish 6 event (omega arith)))
          (step_subscribe 0))
        (step_publish 7 event (omega arith)))
      (step_receive 1)

hub-next : (hub.next + 1 < 2 ^ 64) × (1 ≤ hub.next)
unfolding receive new_event_hub publish subscribe
hub-next = (omega arith, omega arith)

Reach-IsHub_example : IsHub hub
Reach-IsHub_example = Reach-IsHub 2 hub hub-Reach

subscribe-gap_example :
    ((subscribe 1 hub).1.gap ≡ false)
    ↔ (sequences (subscribe 1 hub).1.replay ≡ count_from 2 (hub.next - 1))
subscribe-gap_example = subscribe-gap 2 1 hub hub-Reach hub-next.0 (omega arith) hub-next.1
