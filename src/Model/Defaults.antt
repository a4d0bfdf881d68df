-- ===== src/Model/Defaults.antt =====
-- The defaults of a record: applyDefaults of internal/model/prepare.go. What the random source gives to
-- each call that asks for it is a field of `Generator`; `none` is its error.
use th.Base.{ℕ, ◌%◌, ◌^◌, false, ◌==◌, List, [], ◌∷◌, ◌++◌, Option, none, some, if◌then◌else◌}
use th.Base.Int.{ℤ, pos, is_zero}
use th.Base.Text.{Text, codes}
use th.Model.Types.{
  Kind, gre, vxlan, wireguard, amneziawg, xfrm_static, xfrm_ikev2, srv6, other_kind, GreSpec,
  VxlanSpec, WireGuardSpec, AmneziaWgSpec, XfrmAlgorithm, aes_gcm, other_algorithm, XfrmStaticSpec,
  XfrmIkev2Spec, Srv6Source, Srv6Spec, BabelTunnelConfig, Spec, Tunnel,
}
use th.Model.Library.{Library}
use th.Model.Validate.Babel.{babel_needs_unicast_fallback}
use th.Model.Ownership.{uint32_at, srv6_auto_rule_priority_min, next_srv6_source_priority}
use th.Model.Secrets.{or_else}

pub record Generator : Type 0 where
  pub new_id : Option Text
  pub init_header : Text
  pub response_header : Text
  pub underload_header : Text
  pub transport_header : Text
  pub wire_guard_key : Option Text
  pub spi_in : Option ℕ
  pub spi_out : Option ℕ
  pub encryption_in : ℕ → Option Text
  pub encryption_out : ℕ → Option Text
  pub authentication_in : ℕ → Option Text
  pub authentication_out : ℕ → Option Text
  pub psk : Option Text
  pub key_pair : Option (Text × Text)

-- `if z == 0 { z = n }`
abbrev pub or_default : ℤ → ℕ → ℤ
or_default z n = if is_zero z then pos n else z

-- A `*uint32` field that is 0 is filled from the digest at `i`.
unfoldable pub xfrm_number : Text → ℕ → ℕ → ℕ
xfrm_number digest i n =
    let m = uint32_at digest i % 2 ^ 31 in if n == 0 then (if m == 0 then 1 else m) else n

abbrev pub default_algorithm : XfrmAlgorithm → XfrmAlgorithm
default_algorithm (other_algorithm []) = aes_gcm
default_algorithm a = a

-- The loop over the sources: `before` are those that it has passed.
unfoldable pub default_sources : List Srv6Source → List Srv6Source → List Srv6Source
default_sources before [] = before
default_sources before (s ∷ sources) =
    let next = pos (next_srv6_source_priority (before ++ (s ∷ sources))) in
    default_sources
      (before ++ ((if is_zero s.priority then record s { priority = next } else s) ∷ [])) sources

unfoldable pub default_gre : GreSpec → GreSpec
default_gre s = record s { mtu = or_default s.mtu 1450; ttl = if s.ttl == 0 then 255 else s.ttl }

unfoldable pub default_vxlan : VxlanSpec → VxlanSpec
default_vxlan s = record s {
  mtu = or_default s.mtu 1450;
  destination_port = or_default s.destination_port 4789;
}

unfoldable pub default_wire_guard : WireGuardSpec → WireGuardSpec
default_wire_guard s = record s { mtu = or_default s.mtu 1420 }

unfoldable pub default_amnezia_wg : Generator → AmneziaWgSpec → AmneziaWgSpec
default_amnezia_wg g a = record a {
  wire_guard_spec = default_wire_guard a.wire_guard_spec;
  junk_packet_count = or_default a.junk_packet_count 4;
  junk_packet_min_size = or_default a.junk_packet_min_size 40;
  junk_packet_max_size = or_default a.junk_packet_max_size 1200;
  init_magic_header = or_else a.init_magic_header g.init_header;
  response_magic_header = or_else a.response_magic_header g.response_header;
  underload_magic_header = or_else a.underload_magic_header g.underload_header;
  transport_magic_header = or_else a.transport_magic_header g.transport_header;
}

unfoldable pub default_srv6 : Srv6Spec → Srv6Spec
default_srv6 s = record s {
  rule_priority = or_default s.rule_priority srv6_auto_rule_priority_min;
  refresh_interval_seconds = or_default s.refresh_interval_seconds 3600;
  sources = default_sources [] s.sources;
}

abbrev pub if_set {ℓ} : {A : Type ℓ} → (A → A) → Option A → Option A
if_set f none = none
if_set f (some a) = some (f a)

abbrev pub without_multicast : BabelTunnelConfig → BabelTunnelConfig
without_multicast b = record b { multicast = some false }

module _ (lib : Library) where
  unfoldable pub default_static : Text → XfrmStaticSpec → XfrmStaticSpec
  default_static id s = record s {
    if_id = xfrm_number (lib.sha256 id) 0 s.if_id;
    req_id = xfrm_number (lib.sha256 id) 4 s.req_id;
    mtu = or_default s.mtu 1400;
    algorithm = default_algorithm s.algorithm;
  }

  unfoldable pub default_ikev2 : Text → XfrmIkev2Spec → XfrmIkev2Spec
  default_ikev2 id s = record s {
    if_id = xfrm_number (lib.sha256 id) 0 s.if_id;
    req_id = xfrm_number (lib.sha256 id) 4 s.req_id;
    mtu = or_default s.mtu 1400;
    ike_proposal = or_else s.ike_proposal (codes "aes128gcm16-prfsha256-curve25519");
    esp_proposal = or_else s.esp_proposal (codes "aes128gcm16");
    start_action = or_else s.start_action (codes "trap");
  }

module _ (g : Generator) (lib : Library) where
  -- The `switch` of `applyDefaults`.
  unfoldable pub kind_defaults : Text → Kind → Spec → Spec
  kind_defaults id gre s = record s { gre_spec = if_set default_gre s.gre_spec }
  kind_defaults id vxlan s = record s { vxlan_spec = if_set default_vxlan s.vxlan_spec }
  kind_defaults id wireguard s = record s {
    wireguard_spec = if_set default_wire_guard s.wireguard_spec;
  }
  kind_defaults id amneziawg s = record s {
    amneziawg_spec = if_set (default_amnezia_wg g) s.amneziawg_spec;
  }
  kind_defaults id xfrm_static s = record s {
    xfrm_static_spec = if_set (default_static lib id) s.xfrm_static_spec;
  }
  kind_defaults id xfrm_ikev2 s = record s {
    xfrm_ikev2_spec = if_set (default_ikev2 lib id) s.xfrm_ikev2_spec;
  }
  kind_defaults id srv6 s = record s { srv6_spec = if_set default_srv6 s.srv6_spec }
  kind_defaults id (other_kind k) s = s

  unfoldable pub apply_defaults : Tunnel → Tunnel
  apply_defaults t =
      let t' = record t { spec = kind_defaults t.id t.kind t.spec } in
      if babel_needs_unicast_fallback t'
      then record t' { spec = record t'.spec { babel = if_set without_multicast t'.spec.babel } }
      else t'
