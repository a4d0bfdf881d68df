-- ===== src/Model/Validate/Babel.antt =====
-- The Babel and MPTCP sections of a tunnel in internal/model/validate.go.
use th.Base.{
  ℕ, ◌*◌, ◌-◌, ◌^◌, Bool, true, false, ◌&&◌, ◌||◌, not, leb, ltb, List, [], ◌∷◌, Option, none, some,
  length, replicate, ◌++◌,
}
use th.Base.Int.{negsuc, below, above, ltb_ℤ}
use th.Proto.Addr.{Addr, v6, Prefix, addr_eq, is_valid, is_unspecified}
use th.Model.Types.{
  Kind, wireguard, amneziawg, srv6, Float64, nan, infinite, finite, WireGuardPeer, WireGuardSpec,
  AmneziaWgSpec, BabelTunnelConfig, Tunnel,
}
use th.Model.Check.{
  Check, ok, ◌>>◌, fail_if, srv6_babel, bad_balance, bad_bandwidth, too_many_neighbours,
  invalid_neighbour, duplicate_neighbour, multicast_not_covered, srv6_mptcp,
}
use th.Model.Validate.Common.{contains}

abbrev pub max_babel_neighbours : ℕ
max_babel_neighbours = 64

abbrev pub max_babel_bandwidth_mbps : ℕ
max_babel_bandwidth_mbps = 400000

-- ff02::1:6
abbrev pub babel_group : Addr
babel_group = v6 ((0xff ∷ 2 ∷ []) ++ replicate 11 0 ++ (1 ∷ 0 ∷ 6 ∷ []))

abbrev pub is_wireguard : Kind → Bool
is_wireguard wireguard = true
is_wireguard amneziawg = true
is_wireguard _ = false

abbrev pub is_srv6 : Kind → Bool
is_srv6 srv6 = true
is_srv6 _ = false

abbrev pub any_contains : List Prefix → Addr → Bool
any_contains [] a = false
any_contains (p ∷ prefixes) a = contains p a || any_contains prefixes a

unfoldable pub peer_allowed_ips_cover_babel_multicast : List WireGuardPeer → Bool
peer_allowed_ips_cover_babel_multicast [] = false
peer_allowed_ips_cover_babel_multicast (peer ∷ peers) =
    any_contains peer.allowed_ips babel_group || peer_allowed_ips_cover_babel_multicast peers

abbrev pub peers_of : Kind → Option WireGuardSpec → Option AmneziaWgSpec → List WireGuardPeer
peers_of wireguard (some w) a = w.peers
peers_of amneziawg w (some a) = a.wire_guard_spec.peers
peers_of _ _ _ = []

unfoldable pub babel_wire_guard_peers : Tunnel → List WireGuardPeer
babel_wire_guard_peers t = peers_of t.kind t.spec.wireguard_spec t.spec.amneziawg_spec

-- For a tunnel that is no nil pointer.
unfoldable pub needs_fallback : List WireGuardPeer → Option BabelTunnelConfig → Bool
needs_fallback peers none = false
needs_fallback peers (some babel) = elim babel.multicast [
  | none ↦
      babel.enabled && leb (length peers) 1 && not (peer_allowed_ips_cover_babel_multicast peers)
  | some multicast ↦ false
]

unfoldable pub babel_needs_unicast_fallback : Tunnel → Bool
babel_needs_unicast_fallback t = needs_fallback (babel_wire_guard_peers t) t.spec.babel

-- `m / 2 ^ k < -2 || m / 2 ^ k > 2`
abbrev pub out_of_balance : Float64 → Bool
out_of_balance nan = true
out_of_balance (infinite sign) = true
out_of_balance (finite m k) = ltb_ℤ m (negsuc (2 * 2 ^ k - 1)) || above m (2 * 2 ^ k)

abbrev pub has_bad_balance : Option Float64 → Bool
has_bad_balance none = false
has_bad_balance (some b) = out_of_balance b

abbrev pub has_addr : List Addr → Addr → Bool
has_addr [] a = false
has_addr (b ∷ seen) a = addr_eq b a || has_addr seen a

unfoldable pub neighbours_loop : List Addr → List Addr → Check
neighbours_loop seen [] = ok
neighbours_loop seen (a ∷ neighbours) =
    fail_if (not (is_valid a) || is_unspecified a) invalid_neighbour
    >> fail_if (has_addr seen a) duplicate_neighbour
    >> neighbours_loop (a ∷ seen) neighbours

-- `*multicast`, with the choice for a nil pointer.
abbrev pub uses_multicast : Option Bool → Bool → Bool
uses_multicast none otherwise = otherwise
uses_multicast (some multicast) otherwise = multicast

unfoldable pub validate_babel : Tunnel → Option BabelTunnelConfig → Check
validate_babel t none = ok
validate_babel t (some babel) =
    fail_if (is_srv6 t.kind) srv6_babel
    >> fail_if (has_bad_balance babel.balance) bad_balance
    >> fail_if (below babel.bandwidth_mbps 0 || above babel.bandwidth_mbps max_babel_bandwidth_mbps)
        bad_bandwidth
    >> fail_if (ltb max_babel_neighbours (length babel.neighbours)) too_many_neighbours
    >> neighbours_loop [] babel.neighbours
    >> fail_if
        (is_wireguard t.kind
          && uses_multicast babel.multicast
              (leb (length (babel_wire_guard_peers t)) 1 && not (babel_needs_unicast_fallback t))
          && not (peer_allowed_ips_cover_babel_multicast (babel_wire_guard_peers t)))
        multicast_not_covered

unfoldable pub validate_tunnel_babel : Tunnel → Check
validate_tunnel_babel t = validate_babel t t.spec.babel

unfoldable pub validate_tunnel_mptcp : Tunnel → Check
validate_tunnel_mptcp t = elim t.spec.mptcp [
  | none ↦ ok
  | some mptcp ↦ fail_if (is_srv6 t.kind) srv6_mptcp
]
