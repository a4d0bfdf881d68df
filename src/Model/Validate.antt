-- ===== src/Model/Validate.antt =====
-- Validate of internal/model/validate.go: a tunnel record as a whole.
pub mod Common
pub mod Wireguard
pub mod Xfrm
pub mod Srv6
pub mod Babel
use th.Base.{
  ℕ, ◌+◌, Bool, true, false, ◌&&◌, ◌||◌, not, ltb, ◌==◌, List, [], ◌∷◌, Option, none, some, length,
  if◌then◌else◌,
}
use th.Base.Int.{pos, below, above, eq_ℤ}
use th.Base.Text.{Text, is_empty, codes}
use th.Model.Types.{
  Kind, gre, vxlan, wireguard, amneziawg, xfrm_static, xfrm_ikev2, srv6, other_kind, GreSpec,
  VxlanSpec, Spec, Tunnel,
}
use th.Model.Check.{
  Check, Error, ok, err, ◌>>◌, fail_if, wrap, deref, in_field, bad_schema_version, bad_id,
  bad_generation, bad_timestamps, bad_name, srv6_sets_interface, bad_vni, bad_destination_port,
  bad_spec_count, spec_mismatch, unsupported_kind, tunnel_required,
}
use th.Model.Library.{Library}
use th.Model.Validate.Common.{
  schema_version, valid_id, valid_name, validate_interface, validate_mtu,
  validate_interface_addresses, validate_underlay_pair,
}
use th.Model.Validate.Wireguard.{is_some, validate_wire_guard, validate_amnezia_wg}
use th.Model.Validate.Xfrm.{validate_xfrm_static, validate_xfrm_ikev2}
use th.Model.Validate.Srv6.{validate_srv6}
use th.Model.Validate.Babel.{is_srv6, validate_tunnel_babel, validate_tunnel_mptcp}

-- The flags of the loop in `validateSpecChoice`.
abbrev pub specs_set : Spec → List Bool
specs_set s =
    is_some s.gre_spec
    ∷ is_some s.vxlan_spec
    ∷ is_some s.wireguard_spec
    ∷ is_some s.amneziawg_spec
    ∷ is_some s.xfrm_static_spec
    ∷ is_some s.xfrm_ikev2_spec
    ∷ is_some s.srv6_spec
    ∷ []

abbrev pub count_set : List Bool → ℕ
count_set [] = 0
count_set (set ∷ flags) = (if set then 1 else 0) + count_set flags

-- `matches[t.Kind]`
abbrev pub spec_matches : Kind → Spec → Bool
spec_matches gre s = is_some s.gre_spec
spec_matches vxlan s = is_some s.vxlan_spec
spec_matches wireguard s = is_some s.wireguard_spec
spec_matches amneziawg s = is_some s.amneziawg_spec
spec_matches xfrm_static s = is_some s.xfrm_static_spec
spec_matches xfrm_ikev2 s = is_some s.xfrm_ikev2_spec
spec_matches srv6 s = is_some s.srv6_spec
spec_matches (other_kind k) s = false

unfoldable pub validate_spec_choice : Tunnel → Check
validate_spec_choice t =
    fail_if (not (count_set (specs_set t.spec) == 1)) bad_spec_count
    >> fail_if (not (spec_matches t.kind t.spec)) spec_mismatch

unfoldable pub validate_gre : GreSpec → Check
validate_gre spec =
    validate_underlay_pair spec.local spec.remote
    >> validate_interface_addresses spec.addresses
    >> validate_mtu spec.mtu

unfoldable pub validate_vxlan : VxlanSpec → Check
validate_vxlan spec =
    fail_if (below spec.vni 1 || above spec.vni 16777215) bad_vni
    >> wrap (in_field (codes "underlay_interface")) (validate_interface spec.underlay_interface)
    >> validate_underlay_pair spec.local spec.remote
    >> fail_if (below spec.destination_port 1 || above spec.destination_port 65535)
        bad_destination_port
    >> validate_interface_addresses spec.addresses
    >> validate_mtu spec.mtu

-- The head of `Validate`, up to the interface.
unfoldable pub validate_header : Tunnel → Check
validate_header t =
    fail_if (not (eq_ℤ t.schema_version (pos schema_version))) bad_schema_version
    >> fail_if (not (valid_id t.id)) bad_id
    >> fail_if (t.generation == 0) bad_generation
    >> fail_if (t.created_at == 0 || t.updated_at == 0 || ltb t.updated_at t.created_at)
        bad_timestamps
    >> fail_if (not (valid_name t.name)) bad_name
    >> (if is_srv6 t.kind
        then fail_if (not (is_empty t.interface)) srv6_sets_interface
        else validate_interface t.interface)

module _ (lib : Library) where
  unfoldable pub validate_kind : Kind → Spec → Check
  validate_kind gre s = deref s.gre_spec validate_gre
  validate_kind vxlan s = deref s.vxlan_spec validate_vxlan
  validate_kind wireguard s = deref s.wireguard_spec (validate_wire_guard lib)
  validate_kind amneziawg s = deref s.amneziawg_spec (validate_amnezia_wg lib)
  validate_kind xfrm_static s = deref s.xfrm_static_spec validate_xfrm_static
  validate_kind xfrm_ikev2 s = deref s.xfrm_ikev2_spec (validate_xfrm_ikev2 lib)
  validate_kind srv6 s = deref s.srv6_spec (validate_srv6 lib)
  validate_kind (other_kind k) s = err unsupported_kind

  -- `Validate` of a tunnel that is no nil pointer.
  unfoldable pub validate : Tunnel → Check
  validate t =
      validate_header t
      >> validate_spec_choice t
      >> validate_kind t.kind t.spec
      >> validate_tunnel_babel t
      >> validate_tunnel_mptcp t
