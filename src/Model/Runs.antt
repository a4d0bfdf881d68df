-- ===== src/Model/Runs.antt =====
-- No check of internal/model/validate.go and validate_xfrm.go reads through a nil pointer.
pub mod Checks
mod Kinds
use th.Base.{
  arith, ℕ, ◌+◌, ◌≡◌, ◌≢◌, refl, inl, inr, Bool, true, false, ◌||◌, not, ◌==◌, List, [], ◌∷◌,
  Option, none, some, if◌then◌else◌, Option-cases, length,
}
use th.Base.Int.{ℤ, below, above}
use th.Base.Text.{Text, is_empty}
use th.Proto.Addr.{Prefix, Addr, masked}
use th.Model.Types.{
  Kind, gre, vxlan, wireguard, amneziawg, xfrm_static, xfrm_ikev2, srv6, other_kind, WireGuardPeer,
  WireGuardSpec, GreSpec, VxlanSpec, AmneziaWgSpec, XfrmAlgorithm, aes_gcm, aes_cbc_sha256,
  other_algorithm, XfrmStaticSpec, IkeAuthMethod, auth_psk, auth_rpk, other_auth, XfrmIkev2Spec,
  Srv6Source, Srv6Spec, BabelTunnelConfig, Spec, Tunnel,
}
use th.Model.Check.{
  Check, Error, ok, err, panic, ◌>>◌, fail_if, wrap, deref, >>-ok, fail_if-ok, bad_port,
  bad_endpoint, private_key_required, public_key_mismatch, key_pair_mismatch, padded_url, bad_url,
  srv6_mptcp, bad_spec_count, spec_mismatch, bad_id,
}
use th.Model.Library.{Library, ecdsa_public, other_public, ecdsa_private, other_private}
use th.Model.Validate.Common.{
  valid_id, validate_interface, validate_mtu, addresses_loop, validate_interface_addresses,
  networks_loop, validate_networks, validate_underlay_pair,
}
use th.Model.Validate.Wireguard.{
  is_some, count_loop, validate_port, validate_endpoint, validate_peer, peers_loop,
  validate_key_pair, check_wire_guard, validate_wire_guard, check_amnezia_wg, validate_magic_header,
  validate_amnezia_wg,
}
use th.Model.Validate.Xfrm.{
  hex_field, validate_hex_bytes, validate_keys, validate_xfrm_static, parse_ecdsa_public_key,
  validate_local_private_key, validate_auth, validate_ike_address, check_ikev2, check_proposals,
  validate_xfrm_ikev2,
}
use th.Model.Validate.Srv6.{
  validate_parsed_url, validate_srv6_feed_url, validate_source, sources_loop, validate_srv6,
}
use th.Model.Validate.Babel.{
  is_srv6, neighbours_loop, validate_babel, validate_tunnel_babel, validate_tunnel_mptcp,
}
use th.Model.Validate.{
  specs_set, count_set, spec_matches, validate_spec_choice, validate_gre, validate_vxlan,
  validate_header, validate_kind, validate,
}
use th.Model.Runs.Checks.{
  Runs, runs_ok, runs_err, then_Runs, validate_babel-Runs, validate_tunnel_mptcp-Runs,
  validate_header-Runs, validate_spec_choice-Runs,
}
use th.Model.Runs.Kinds.{validate_kind-Runs}

not-false : (b : Bool) → not b ≡ false → b ≡ true
not-false true e = refl
not-false false e = cc

pub validate_spec_choice-matches :
    (t : Tunnel) → validate_spec_choice t ≡ ok → spec_matches t.kind t.spec ≡ true
unfolding validate_spec_choice
validate_spec_choice-matches t h =
    let (count, match) =
      >>-ok (fail_if (not (count_set (specs_set t.spec) == 1)) bad_spec_count)
        (fail_if (not (spec_matches t.kind t.spec)) spec_mismatch) h in
    not-false (spec_matches t.kind t.spec)
      (fail_if-ok (not (spec_matches t.kind t.spec)) spec_mismatch match)

then_if : (a b : Check) → Runs a → (a ≡ ok → Runs b) → Runs (a >> b)
then_if ok b p h = h refl
then_if (err e) b p h = runs_err e
then_if panic b p h = elim p [ ]

Runs-ne-panic : {c : Check} → Runs c → c ≢ panic
Runs-ne-panic runs_ok e = cc
Runs-ne-panic (runs_err x) e = cc

pub validate-Runs : (lib : Library) (t : Tunnel) → Runs (validate lib t)
unfolding validate validate_tunnel_babel
validate-Runs lib t =
    let head = then_Runs (validate_header-Runs t) (validate_spec_choice-Runs t) in
    let kind =
      then_if (validate_header t >> validate_spec_choice t) (validate_kind lib t.kind t.spec) head
        (λ e. validate_kind-Runs lib t.kind t.spec (
          validate_spec_choice-matches t
            (>>-ok (validate_header t) (validate_spec_choice t) e).1)) in
    then_Runs (then_Runs kind (validate_babel-Runs t t.spec.babel)) (validate_tunnel_mptcp-Runs t)

-- `Validate` never reads through a nil pointer, whatever the record holds.
pub validate-ne-panic : (lib : Library) (t : Tunnel) → validate lib t ≢ panic
validate-ne-panic lib t = Runs-ne-panic (validate-Runs lib t)

-- A record that passes has the specification of its kind, and that passes.
pub validate-kind :
    (lib : Library) (t : Tunnel)
    → validate lib t ≡ ok
    → (spec_matches t.kind t.spec ≡ true)
      × (count_set (specs_set t.spec) ≡ 1)
      × (validate_kind lib t.kind t.spec ≡ ok)
unfolding validate validate_spec_choice
validate-kind lib t h =
    let head = validate_header t >> validate_spec_choice t in
    let kind = head >> validate_kind lib t.kind t.spec in
    let babel = kind >> validate_tunnel_babel t in
    let (a, _) = >>-ok babel (validate_tunnel_mptcp t) h in
    let (b, _) = >>-ok kind (validate_tunnel_babel t) a in
    let (c, k) = >>-ok head (validate_kind lib t.kind t.spec) b in
    let (_, d) = >>-ok (validate_header t) (validate_spec_choice t) c in
    let (one, _) =
      >>-ok (fail_if (not (count_set (specs_set t.spec) == 1)) bad_spec_count)
        (fail_if (not (spec_matches t.kind t.spec)) spec_mismatch) d in
    let count =
      not-false _ (fail_if-ok (not (count_set (specs_set t.spec) == 1)) bad_spec_count one) in
    (validate_spec_choice-matches t d, ground (arith, count), k)

-- A record that passes has a valid identifier.
pub validate-id : (lib : Library) (t : Tunnel) → validate lib t ≡ ok → valid_id t.id ≡ true
unfolding validate validate_header
validate-id lib t h =
    let (h1, _) = >>-ok _ _ h in
    let (h2, _) = >>-ok _ _ h1 in
    let (h3, _) = >>-ok _ _ h2 in
    let (h4, _) = >>-ok _ _ h3 in
    let (h5, _) = >>-ok _ _ h4 in
    let (h6, _) = >>-ok _ _ h5 in
    let (h7, _) = >>-ok _ _ h6 in
    let (h8, _) = >>-ok _ _ h7 in
    let (_, id) = >>-ok _ _ h8 in
    not-false (valid_id t.id) (fail_if-ok (not (valid_id t.id)) bad_id id)
