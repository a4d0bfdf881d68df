-- ===== src/Model/Validate/Wireguard.antt =====
-- validateWireGuard, validateAmneziaWG, validateEndpoint and validateMagicHeader of
-- internal/model/validate.go. The loop over the map of magic headers is in the order of its literal; Go
-- leaves the order open, which only changes which header an error names.
use th.Base.{
  ℕ, ◌+◌, Bool, true, false, ◌&&◌, ◌||◌, not, ltb, List, [], ◌∷◌, Option, none, some, length,
  if◌then◌else◌,
}
use th.Base.Int.{below, above, ltb_ℤ}
use th.Base.Text.{Text, text_eq, is_empty, codes, contains_byte}
use th.Model.Types.{WireGuardPeer, WireGuardSpec, AmneziaWgSpec}
use th.Model.Check.{
  Check, ok, err, ◌>>◌, fail_if, wrap, in_field, in_peer, too_many_peers, too_many_allowed_ips,
  too_many_total_allowed_ips, private_key_required, bad_key, public_key_mismatch, bad_listen_port,
  bad_firewall_mark, bad_route_table, duplicate_peer, bad_keepalive, bad_endpoint, host_required,
  bad_port, bad_junk_count, bad_junk_min, bad_junk_max, bad_junk_sizes, bad_magic_header,
  same_magic_headers,
}
use th.Model.Library.{Library}
use th.Model.Validate.Common.{validate_interface_addresses, validate_mtu, validate_networks}

abbrev pub max_wire_guard_peers : ℕ
max_wire_guard_peers = 1024

abbrev pub max_allowed_ips_per_peer : ℕ
max_allowed_ips_per_peer = 4096

abbrev pub max_allowed_ips_per_tunnel : ℕ
max_allowed_ips_per_tunnel = 16384

-- The first loop of `validateWireGuard`; `total` is `totalAllowedIPs`.
unfoldable pub count_loop : ℕ → ℕ → List WireGuardPeer → Check
count_loop i total [] = ok
count_loop i total (peer ∷ peers) =
    fail_if (ltb max_allowed_ips_per_peer (length peer.allowed_ips))
      (in_peer i (codes "allowed_ips") too_many_allowed_ips)
    >> fail_if (ltb max_allowed_ips_per_tunnel (total + length peer.allowed_ips))
        too_many_total_allowed_ips
    >> count_loop (i + 1) (total + length peer.allowed_ips) peers

abbrev pub has_text : List Text → Text → Bool
has_text [] s = false
has_text (t ∷ seen) s = text_eq t s || has_text seen s

abbrev pub is_some {ℓ} : {A : Type ℓ} → Option A → Bool
is_some none = false
is_some (some a) = true

module _ (lib : Library) where
  unfoldable pub validate_port : Text → Check
  validate_port port = elim (lib.atoi port) [
    | none ↦ err bad_port
    | some n ↦ fail_if (below n 1 || above n 65535) bad_port
  ]

  unfoldable pub validate_endpoint : Text → Check
  validate_endpoint endpoint = elim (lib.split_host_port endpoint) [
    | none ↦ err bad_endpoint
    | some (host, port) ↦
        fail_if (is_empty (lib.trim_space host)) host_required >> validate_port port
  ]

  -- One round of the second loop of `validateWireGuard`.
  unfoldable pub validate_peer : ℕ → List Text → WireGuardPeer → Check
  validate_peer i seen peer =
      fail_if (not (is_some (lib.parse_key peer.public_key)))
        (in_peer i (codes "public_key") bad_key)
      >> fail_if (has_text seen peer.public_key) (in_peer i (codes "public_key") duplicate_peer)
      >> fail_if
          (not (is_empty peer.preshared_key) && not (is_some (lib.parse_key peer.preshared_key)))
          (in_peer i (codes "preshared_key") bad_key)
      >> (if is_empty peer.endpoint
          then ok
          else wrap (in_peer i (codes "endpoint")) (validate_endpoint peer.endpoint))
      >> fail_if (below peer.keepalive 0 || above peer.keepalive 65535)
          (in_peer i (codes "keepalive") bad_keepalive)
      >> wrap (in_peer i (codes "allowed_ips")) (validate_networks peer.allowed_ips)

  unfoldable pub peers_loop : ℕ → List Text → List WireGuardPeer → Check
  peers_loop i seen [] = ok
  peers_loop i seen (peer ∷ peers) =
      validate_peer i seen peer >> peers_loop (i + 1) (peer.public_key ∷ seen) peers

  unfoldable pub validate_key_pair : Text → Text → Check
  validate_key_pair private_key public_key =
      fail_if (is_empty private_key) private_key_required >> elim (lib.parse_key private_key) [
        | none ↦ err (in_field (codes "private_key") bad_key)
        | some p ↦ elim (lib.parse_key public_key) [
          | none ↦ err (in_field (codes "public_key") bad_key)
          | some q ↦ fail_if (not (text_eq q (lib.public_key_of p))) public_key_mismatch
        ]
      ]

  -- `validateWireGuard` up to its second loop.
  unfoldable pub check_wire_guard : WireGuardSpec → Check
  check_wire_guard spec =
      fail_if (ltb max_wire_guard_peers (length spec.peers)) too_many_peers
      >> count_loop 0 0 spec.peers
      >> validate_key_pair spec.private_key spec.public_key
      >> fail_if (below spec.listen_port 0 || above spec.listen_port 65535) bad_listen_port
      >> fail_if (below spec.firewall_mark 0 || above spec.firewall_mark 2147483647)
          bad_firewall_mark
      >> validate_interface_addresses spec.addresses
      >> validate_mtu spec.mtu
      >> fail_if (below spec.route_table 0 || above spec.route_table 2147483647) bad_route_table

  unfoldable pub validate_wire_guard : WireGuardSpec → Check
  validate_wire_guard spec = check_wire_guard spec >> peers_loop 0 [] spec.peers

  unfoldable pub validate_magic_header : Text → Check
  validate_magic_header value =
      fail_if (is_empty value || contains_byte 0 value || ltb 255 (length value)) bad_magic_header

  -- `validateAmneziaWG` after `validateWireGuard`.
  unfoldable pub check_amnezia_wg : AmneziaWgSpec → Check
  check_amnezia_wg spec =
      fail_if (below spec.junk_packet_count 1 || above spec.junk_packet_count 128) bad_junk_count
      >> fail_if (below spec.junk_packet_min_size 1 || above spec.junk_packet_min_size 1280)
          bad_junk_min
      >> fail_if
          (ltb_ℤ spec.junk_packet_max_size spec.junk_packet_min_size
            || above spec.junk_packet_max_size 1280)
          bad_junk_max
      >> fail_if
          (below spec.init_packet_junk_size 0
            || above spec.init_packet_junk_size 1280
            || below spec.response_packet_junk_size 0
            || above spec.response_packet_junk_size 1280)
          bad_junk_sizes
      >> wrap (in_field (codes "h1")) (validate_magic_header spec.init_magic_header)
      >> wrap (in_field (codes "h2")) (validate_magic_header spec.response_magic_header)
      >> wrap (in_field (codes "h3")) (validate_magic_header spec.underload_magic_header)
      >> wrap (in_field (codes "h4")) (validate_magic_header spec.transport_magic_header)
      >> fail_if
          (text_eq spec.init_magic_header spec.response_magic_header
            || text_eq spec.init_magic_header spec.underload_magic_header
            || text_eq spec.init_magic_header spec.transport_magic_header
            || text_eq spec.response_magic_header spec.underload_magic_header
            || text_eq spec.response_magic_header spec.transport_magic_header
            || text_eq spec.underload_magic_header spec.transport_magic_header)
          same_magic_headers

  unfoldable pub validate_amnezia_wg : AmneziaWgSpec → Check
  validate_amnezia_wg spec = validate_wire_guard spec.wire_guard_spec >> check_amnezia_wg spec
