-- ===== src/Model/Tests.antt =====
-- Concrete records of internal/model.
use th.Base.{List, [], ◌∷◌, false, ◌+◌, ◌%◌, ◌^◌, ◌≡◌, ◌≢◌, refl, some}
use th.Model.Types.{Srv6Source, family_ipv6, Tunnel}
use th.Model.Check.{ok, panic}
use th.Model.Validate.Common.{
  valid_id, validate_interface, validate_mtu, addresses_loop, validate_interface_addresses,
  networks_loop, validate_networks,
}
use th.Model.Validate.Wireguard.{
  count_loop, validate_port, validate_endpoint, validate_peer, peers_loop, validate_key_pair,
  check_wire_guard, validate_wire_guard,
}
use th.Model.Validate.Babel.{
  validate_babel, validate_tunnel_babel, validate_tunnel_mptcp, babel_needs_unicast_fallback,
  needs_fallback,
}
use th.Model.Validate.{validate_header, validate_spec_choice, validate_kind, validate}
use th.Model.Runs.{validate-ne-panic}
use th.Model.Secrets.{
  SecretField, redact_copy, redact, merge_secrets, redact_spec, merge_spec, merge_wire_guard,
  redact_wire_guard, merge_peers, redact_peers, find_peer,
}
use th.Model.Secrets.Laws.{merge_secrets-redact}
use th.Base.Int.{ℤ, pos}
use th.Base.Text.{codes}
use th.Model.Defaults.{kind_defaults, default_wire_guard, apply_defaults}
use th.Proto.Addr.{zero_addr}
use th.Model.Prepare.{
  prepared, ensure_wire_guard_key, parsed_key, prepare_secrets, finish, merged, keep_priority,
  prepare_update,
}
use th.Model.Prepare.Laws.{SameHeader, prepare_update-validate}
use th.Model.Prepare.Secrets.{with_headers, prepare_update-with_headers}
use th.Model.Samples.{generator, no_generator, library, wireguard_tunnel}

wireguard_tunnel-validate : validate library wireguard_tunnel ≡ ok
unfolding validate validate_header validate_spec_choice validate_kind validate_wire_guard
    check_wire_guard peers_loop validate_key_pair validate_peer validate_endpoint validate_port
    count_loop valid_id validate_interface validate_mtu addresses_loop validate_interface_addresses
    networks_loop validate_networks validate_babel validate_tunnel_babel validate_tunnel_mptcp
wireguard_tunnel-validate = refl

-- The copy that a client sees.
abbrev pub redacted : Tunnel × List SecretField
redacted = redact_copy library.trim_space wireguard_tunnel

wireguard_tunnel-redact : redact some library.trim_space wireguard_tunnel ≡ some redacted
unfolding redact
wireguard_tunnel-redact = refl

merge_secrets-redact_example : merge_secrets redacted.0 wireguard_tunnel ≡ wireguard_tunnel
merge_secrets-redact_example =
    merge_secrets-redact library some wireguard_tunnel redacted.0 redacted.1
      wireguard_tunnel-validate refl wireguard_tunnel-redact

validate-ne-panic_example : validate library wireguard_tunnel ≢ panic
validate-ne-panic_example = validate-ne-panic library wireguard_tunnel

-- The client gives the tunnel another name and sends no secrets.
abbrev pub renamed : Tunnel
renamed = record redacted.0 { name = codes "london" }

abbrev pub updated : Tunnel
updated = record wireguard_tunnel { name = codes "london"; generation = 2; updated_at = 9 }

pub renamed-prepare_update :
    prepare_update generator library false 9 renamed wireguard_tunnel ≡ prepared updated
unfolding prepare_update finish merged merge_secrets apply_defaults kind_defaults prepare_secrets
    ensure_wire_guard_key parsed_key validate validate_header validate_spec_choice validate_kind
    validate_wire_guard check_wire_guard peers_loop validate_key_pair validate_peer
    validate_endpoint validate_port count_loop valid_id validate_interface validate_mtu
    addresses_loop validate_interface_addresses networks_loop validate_networks validate_babel
    validate_tunnel_babel validate_tunnel_mptcp redact_spec babel_needs_unicast_fallback
    needs_fallback merge_spec default_wire_guard merge_wire_guard redact_wire_guard keep_priority
    merge_peers redact_peers find_peer
renamed-prepare_update = refl

prepare_update-validate_example :
    SameHeader updated (record renamed {
      schema_version = pos 4;
      id = wireguard_tunnel.id;
      generation = (wireguard_tunnel.generation + 1) % 2 ^ 64;
      created_at = wireguard_tunnel.created_at;
      updated_at = 9;
    })
    × (validate library updated ≡ ok)
prepare_update-validate_example =
    prepare_update-validate generator library false 9 renamed wireguard_tunnel updated
      renamed-prepare_update

prepare_update-with_headers_example :
    prepare_update generator library false 9 renamed wireguard_tunnel
    ≡ prepare_update (with_headers generator no_generator) library false 9 renamed wireguard_tunnel
prepare_update-with_headers_example =
    prepare_update-with_headers generator no_generator library 9 renamed wireguard_tunnel

abbrev source : ℤ → Srv6Source
source priority = record {
  name = [];
  family = family_ipv6;
  prefix_url = [];
  sid = zero_addr;
  priority = priority;
  mtu = pos 1400;
}

-- The second source has no priority yet.
abbrev sources : List Srv6Source
sources = source (pos 7) ∷ source (pos 0) ∷ source (pos 3) ∷ []
