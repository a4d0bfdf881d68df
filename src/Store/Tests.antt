-- ===== src/Store/Tests.antt =====
-- Concrete calls of internal/store/store.go.
use th.Base.{false, if◌then◌else◌, ◌≡◌, refl, List, [], ◌∷◌, none, some, arith}
use th.Base.Text.{codes}
use th.Model.Types.{Tunnel}
use th.Model.Check.{ok}
use th.Model.Validate.Common.{
  valid_id, validate_interface, validate_mtu, addresses_loop, validate_interface_addresses,
  validate_underlay_pair,
}
use th.Model.Validate.Babel.{validate_babel, validate_tunnel_babel, validate_tunnel_mptcp}
use th.Model.Validate.{validate_header, validate_spec_choice, validate_gre, validate_kind, validate}
use th.Model.Ownership.{
  rule_priorities_of, managed_rule_priorities, exclusive_tables_of, exclusive_route_tables,
  route_claims_of, managed_route_claims,
}
use th.Model.Tests.{renamed as renamed_tunnel, updated, renamed-prepare_update}
use th.Store.Prepared.{update-prepare_update}
use th.Model.Samples.{generator, wireguard_tunnel, library, first_tunnel, second_tunnel}
use th.Store.{
  conflict, done, not_done, collides_static, collides_ike, collides_table, shares_int,
  claims_collide, collides_rule_priority, collides_record, collides_routes, any_other, total_claims,
  check_names, find_record, replace_record, commit, update_found, update,
}
use th.Store.Invariant.{IsStore}
use th.Store.Laws.{Request, create_record, delete_record, run, run-IsStore}
use th.Store.Conflict.{update-conflict}

abbrev requests : List Request
requests =
    create_record done first_tunnel
    ∷ create_record done first_tunnel
    ∷ create_record not_done second_tunnel
    ∷ create_record done second_tunnel
    ∷ delete_record done first_tunnel.id 1
    ∷ []

run-IsStore_example : IsStore library (run library requests [])
run-IsStore_example = run-IsStore library requests

abbrev records : List Tunnel
records = first_tunnel ∷ second_tunnel ∷ []

-- Two administrators change the first record, one its name and one its interface.
abbrev renamed : Tunnel
renamed = record first_tunnel { generation = 2; name = codes "london" }

abbrev moved : Tunnel
moved = record first_tunnel { generation = 2; interface = codes "gre3" }

renamed-update : (update library done renamed 1 records).1 ≡ none
unfolding update update_found find_record replace_record commit check_names total_claims any_other
    collides_record collides_routes collides_rule_priority claims_collide shares_int collides_static
    collides_ike collides_table managed_rule_priorities managed_route_claims validate
    validate_header validate_spec_choice validate_kind validate_gre valid_id validate_interface
    validate_mtu addresses_loop validate_interface_addresses validate_underlay_pair validate_babel
    validate_tunnel_babel validate_tunnel_mptcp rule_priorities_of exclusive_route_tables
    exclusive_tables_of route_claims_of
renamed-update = refl

moved-validate : validate library moved ≡ ok
unfolding validate validate_header validate_spec_choice validate_kind validate_gre valid_id
    validate_interface validate_mtu addresses_loop validate_interface_addresses
    validate_underlay_pair validate_babel validate_tunnel_babel validate_tunnel_mptcp
moved-validate = refl

update-conflict_example :
    (find_record renamed.id (update library done renamed 1 records).0 ≡ some renamed)
    × (update library done moved 1 (update library done renamed 1 records).0
        ≡ ((update library done renamed 1 records).0, some conflict))
update-conflict_example =
    update-conflict library done done renamed moved 1 records (omega arith) renamed-update refl
      moved-validate

stored-find_record : find_record wireguard_tunnel.id (wireguard_tunnel ∷ []) ≡ some wireguard_tunnel
unfolding find_record
stored-find_record = refl

update-prepare_update_example : update library done updated 1 (wireguard_tunnel ∷ []) ≡ (
    if check_names library updated updated.id (wireguard_tunnel ∷ [])
    then (wireguard_tunnel ∷ [], some conflict)
    else commit done (wireguard_tunnel ∷ []) (replace_record updated (wireguard_tunnel ∷ [])))
update-prepare_update_example =
    update-prepare_update generator library false 9 done renamed_tunnel wireguard_tunnel updated
      (wireguard_tunnel ∷ []) stored-find_record renamed-prepare_update
