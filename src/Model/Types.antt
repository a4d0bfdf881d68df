-- ===== src/Model/Types.antt =====
-- The records of internal/model/types.go. A pointer that may be nil is an `Option`, a Go `int` an
-- integer, a time the number of nanoseconds since Go's zero time, and a map an association list. A
-- string type with constants is a data type, with a constructor for all other strings.
use th.Base.{ℕ, Bool, List, Option}
use th.Base.Int.{ℤ}
use th.Base.Text.{Text}
use th.Proto.Addr.{Addr, Prefix}

pub data Kind : Type 0 where
  gre vxlan wireguard amneziawg xfrm_static xfrm_ikev2 srv6 : Kind
  other_kind : Text → Kind

pub record GreSpec : Type 0 where
  pub local : Addr
  pub remote : Addr
  pub addresses : List Prefix
  pub mtu : ℤ
  pub ttl : ℕ

pub record VxlanSpec : Type 0 where
  pub vni : ℤ
  pub underlay_interface : Text
  pub local : Addr
  pub remote : Addr
  pub destination_port : ℤ
  pub learning : Bool
  pub addresses : List Prefix
  pub mtu : ℤ

pub record WireGuardPeer : Type 0 where
  pub public_key : Text
  pub preshared_key : Text
  pub endpoint : Text
  pub keepalive : ℤ
  pub allowed_ips : List Prefix

pub record WireGuardSpec : Type 0 where
  pub private_key : Text
  pub public_key : Text
  pub listen_port : ℤ
  pub firewall_mark : ℤ
  pub addresses : List Prefix
  pub mtu : ℤ
  pub route_allowed_ips : Bool
  pub route_table : ℤ
  pub peers : List WireGuardPeer

pub record AmneziaWgSpec : Type 0 where
  pub wire_guard_spec : WireGuardSpec
  pub junk_packet_count : ℤ
  pub junk_packet_min_size : ℤ
  pub junk_packet_max_size : ℤ
  pub init_packet_junk_size : ℤ
  pub response_packet_junk_size : ℤ
  pub init_magic_header : Text
  pub response_magic_header : Text
  pub underload_magic_header : Text
  pub transport_magic_header : Text

pub data XfrmAlgorithm : Type 0 where
  aes_gcm aes_cbc_sha256 : XfrmAlgorithm
  other_algorithm : Text → XfrmAlgorithm

pub record XfrmStaticSpec : Type 0 where
  pub underlay_interface : Text
  pub local : Addr
  pub remote : Addr
  pub addresses : List Prefix
  pub mtu : ℤ
  pub if_id : ℕ
  pub req_id : ℕ
  pub spi_inbound : ℕ
  pub spi_outbound : ℕ
  pub algorithm : XfrmAlgorithm
  pub encryption_key_in : Text
  pub encryption_key_out : Text
  pub authentication_key_in : Text
  pub authentication_key_out : Text

pub data IkeAuthMethod : Type 0 where
  auth_psk auth_rpk : IkeAuthMethod
  other_auth : Text → IkeAuthMethod

pub record XfrmIkev2Spec : Type 0 where
  pub underlay_interface : Text
  pub local_address : Text
  pub remote_address : Text
  pub local_id : Text
  pub remote_id : Text
  pub addresses : List Prefix
  pub mtu : ℤ
  pub if_id : ℕ
  pub req_id : ℕ
  pub auth_method : IkeAuthMethod
  pub psk : Text
  pub rpk_algorithm : Text
  pub local_private_key : Text
  pub local_public_key : Text
  pub remote_public_key : Text
  pub ike_proposal : Text
  pub esp_proposal : Text
  pub encapsulation : Bool
  pub start_action : Text

pub data Srv6AddressFamily : Type 0 where
  family_ipv4 family_ipv6 : Srv6AddressFamily
  other_family : Text → Srv6AddressFamily

pub record Srv6Source : Type 0 where
  pub name : Text
  pub family : Srv6AddressFamily
  pub prefix_url : Text
  pub sid : Addr
  pub priority : ℤ
  pub mtu : ℤ

pub record Srv6Spec : Type 0 where
  pub underlay_interface : Text
  pub table : ℤ
  pub rule_priority : ℤ
  pub refresh_interval_seconds : ℤ
  pub sources : List Srv6Source

-- A float64; `finite m k` is m / 2 ^ k.
pub data Float64 : Type 0 where
  nan : Float64
  infinite : Bool → Float64
  finite : ℤ → ℕ → Float64

pub record BabelTunnelConfig : Type 0 where
  pub enabled : Bool
  pub balance : Option Float64
  pub bandwidth_mbps : ℤ
  pub neighbours : List Addr
  pub multicast : Option Bool

pub record MptcpTunnelConfig : Type 0 where
  pub endpoint : Option Bool

pub record Spec : Type 0 where
  pub gre_spec : Option GreSpec
  pub vxlan_spec : Option VxlanSpec
  pub wireguard_spec : Option WireGuardSpec
  pub amneziawg_spec : Option AmneziaWgSpec
  pub xfrm_static_spec : Option XfrmStaticSpec
  pub xfrm_ikev2_spec : Option XfrmIkev2Spec
  pub srv6_spec : Option Srv6Spec
  pub babel : Option BabelTunnelConfig
  pub mptcp : Option MptcpTunnelConfig

pub record Tunnel : Type 0 where
  pub schema_version : ℤ
  pub id : Text
  pub generation : ℕ
  pub name : Text
  pub kind : Kind
  pub interface : Text
  pub enabled : Bool
  pub spec : Spec
  pub created_at : ℕ
  pub updated_at : ℕ

pub data Phase : Type 0 where
  no_phase pending ready disabled error : Phase

pub record Condition : Type 0 where
  pub condition_type : Text
  pub status : Bool
  pub reason : Text
  pub message : Text
  pub last_transition_time : ℕ

pub record PeerStatus : Type 0 where
  pub protocol : Text
  pub public_key : Text
  pub endpoint : Text
  pub allowed_ips : List Text
  pub keepalive_seconds : ℤ
  pub last_handshake_time : Option ℕ
  pub receive_bytes : ℤ
  pub transmit_bytes : ℤ
  pub rtt_micros : Option ℤ
  pub jitter_micros : Option ℤ
  pub metric_age_millis : Option ℤ
  pub metric_confidence : Option Float64
  pub metric_fresh : Option Bool

pub record Status : Type 0 where
  pub tunnel_id : Text
  pub desired_generation : ℕ
  pub observed_generation : ℕ
  pub phase : Phase
  pub interface_exists : Bool
  pub interface_up : Bool
  pub last_reconcile_time : ℕ
  pub last_observation_time : ℕ
  pub last_successful_time : ℕ
  pub conditions : List Condition
  pub details : List (Text × Text)
  pub peers : List PeerStatus
