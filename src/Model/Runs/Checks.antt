-- ===== src/Model/Runs/Checks.antt =====
-- The checks of internal/model/validate.go that call no parser do not read through a nil pointer.
use th.Base.{
  ℕ, ◌+◌, inl, inr, Bool, true, false, List, [], ◌∷◌, Option, none, some, if◌then◌else◌,
  Option-cases, length,
}
use th.Base.Int.{ℤ}
use th.Base.Text.{Text}
use th.Proto.Addr.{Prefix, Addr, masked}
use th.Model.Types.{
  WireGuardPeer, GreSpec, VxlanSpec, XfrmAlgorithm, aes_gcm, aes_cbc_sha256, other_algorithm,
  XfrmStaticSpec, BabelTunnelConfig, Tunnel,
}
use th.Model.Check.{Check, Error, ok, err, ◌>>◌, fail_if, wrap, srv6_mptcp}
use th.Model.Validate.Common.{
  validate_interface, validate_mtu, addresses_loop, validate_interface_addresses, networks_loop,
  validate_underlay_pair,
}
use th.Model.Validate.Wireguard.{count_loop}
use th.Model.Validate.Xfrm.{hex_field, validate_hex_bytes, validate_keys, validate_xfrm_static}
use th.Model.Validate.Babel.{is_srv6, neighbours_loop, validate_babel, validate_tunnel_mptcp}
use th.Model.Validate.{validate_spec_choice, validate_gre, validate_vxlan, validate_header}

pub data Runs : Check → Type 0 where
  runs_ok : Runs ok
  runs_err : (e : Error) → Runs (err e)

pub then_Runs : {a b : Check} → Runs a → Runs b → Runs (a >> b)
then_Runs runs_ok q = q
then_Runs (runs_err e) q = runs_err e

pub fail_if-Runs : (c : Bool) (e : Error) → Runs (fail_if c e)
fail_if-Runs true e = runs_err e
fail_if-Runs false e = runs_ok

pub wrap-Runs : (f : Error → Error) {a : Check} → Runs a → Runs (wrap f a)
wrap-Runs f runs_ok = runs_ok
wrap-Runs f (runs_err e) = runs_err (f e)

pub if-Runs : (c : Bool) {a b : Check} → Runs a → Runs b → Runs (if c then a else b)
if-Runs true p q = p
if-Runs false p q = q

pub ruleset steps = (then_Runs, fail_if-Runs, wrap-Runs, if-Runs, runs_ok, runs_err)

pub validate_interface-Runs : (name : Text) → Runs (validate_interface name)
unfolding validate_interface
validate_interface-Runs name = search steps

addresses_loop-Runs : (seen addresses : List Prefix) → Runs (addresses_loop seen addresses)
unfolding addresses_loop
addresses_loop-Runs seen [] = runs_ok
addresses_loop-Runs seen (p ∷ addresses) = search (steps, addresses_loop-Runs (p ∷ seen) addresses)

pub validate_mtu-Runs : (mtu : ℤ) → Runs (validate_mtu mtu)
unfolding validate_mtu
validate_mtu-Runs mtu = search steps

pub validate_interface_addresses-Runs :
    (addresses : List Prefix) → Runs (validate_interface_addresses addresses)
unfolding validate_interface_addresses
validate_interface_addresses-Runs addresses = search (steps, addresses_loop-Runs [] addresses)

pub networks_loop-Runs : (seen networks : List Prefix) → Runs (networks_loop seen networks)
unfolding networks_loop
networks_loop-Runs seen [] = runs_ok
networks_loop-Runs seen (p ∷ networks) =
    search (steps, networks_loop-Runs (masked p ∷ seen) networks)

pub validate_underlay_pair-Runs : (local remote : Addr) → Runs (validate_underlay_pair local remote)
unfolding validate_underlay_pair
validate_underlay_pair-Runs local remote = search steps

pub ruleset common = (
  steps, validate_interface-Runs, validate_mtu-Runs, validate_interface_addresses-Runs,
  validate_underlay_pair-Runs,
)

pub validate_gre-Runs : (spec : GreSpec) → Runs (validate_gre spec)
unfolding validate_gre
validate_gre-Runs spec = search common

pub validate_vxlan-Runs : (spec : VxlanSpec) → Runs (validate_vxlan spec)
unfolding validate_vxlan
validate_vxlan-Runs spec = search common depth 24

pub count_loop-Runs : (i total : ℕ) (peers : List WireGuardPeer) → Runs (count_loop i total peers)
unfolding count_loop
count_loop-Runs i total [] = runs_ok
count_loop-Runs i total (p ∷ peers) =
    search (steps, count_loop-Runs (i + 1) (total + length p.allowed_ips) peers)

hex_field-Runs : (name value : Text) (size : ℕ) → Runs (hex_field name value size)
unfolding validate_hex_bytes
hex_field-Runs name value size = search steps

validate_keys-Runs : (spec : XfrmStaticSpec) (a : XfrmAlgorithm) → Runs (validate_keys spec a)
unfolding validate_keys
validate_keys-Runs spec aes_gcm = search (steps, hex_field-Runs)
validate_keys-Runs spec aes_cbc_sha256 = search (steps, hex_field-Runs)
validate_keys-Runs spec (other_algorithm a) = runs_err _

pub validate_xfrm_static-Runs : (spec : XfrmStaticSpec) → Runs (validate_xfrm_static spec)
unfolding validate_xfrm_static
validate_xfrm_static-Runs spec = search (common, validate_keys-Runs spec spec.algorithm) depth 24

neighbours_loop-Runs : (seen neighbours : List Addr) → Runs (neighbours_loop seen neighbours)
unfolding neighbours_loop
neighbours_loop-Runs seen [] = runs_ok
neighbours_loop-Runs seen (a ∷ neighbours) =
    search (steps, neighbours_loop-Runs (a ∷ seen) neighbours)

pub validate_babel-Runs :
    (t : Tunnel) (babel : Option BabelTunnelConfig) → Runs (validate_babel t babel)
unfolding validate_babel
validate_babel-Runs t none = runs_ok
validate_babel-Runs t (some babel) =
    search (steps, neighbours_loop-Runs [] babel.neighbours) depth 24

pub validate_tunnel_mptcp-Runs : (t : Tunnel) → Runs (validate_tunnel_mptcp t)
unfolding validate_tunnel_mptcp
validate_tunnel_mptcp-Runs t = elim (Option-cases t.spec.mptcp) [
  | inl e ↦ rw e runs_ok
  | inr (m, e) ↦ rw e (fail_if-Runs (is_srv6 t.kind) srv6_mptcp)
]

pub validate_header-Runs : (t : Tunnel) → Runs (validate_header t)
unfolding validate_header
validate_header-Runs t = search common depth 24

pub validate_spec_choice-Runs : (t : Tunnel) → Runs (validate_spec_choice t)
unfolding validate_spec_choice
validate_spec_choice-Runs t = search steps
