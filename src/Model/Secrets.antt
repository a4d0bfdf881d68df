-- ===== src/Model/Secrets.antt =====
-- Secrets of a tunnel: Redact of internal/model/secrets.go and MergeSecrets of internal/model/prepare.go.
-- `clone` is Clone, a round trip through encoding/json; `trim_space` is strings.TrimSpace. The loops over
-- map literals are in the order of the literal; Go leaves the order of the field names open.
mod Peers
mod Ikev2
pub mod Laws
use th.Base.{
  ℕ, ◌+◌, Bool, true, false, ◌&&◌, not, List, [], ◌∷◌, ◌++◌, Option, none, some, if◌then◌else◌,
}
use th.Base.Text.{Text, text_eq, is_empty, codes}
use th.Model.Types.{
  Kind, gre, vxlan, wireguard, amneziawg, xfrm_static, xfrm_ikev2, srv6, other_kind, WireGuardPeer,
  WireGuardSpec, AmneziaWgSpec, XfrmAlgorithm, aes_gcm, aes_cbc_sha256, other_algorithm,
  XfrmStaticSpec, IkeAuthMethod, auth_psk, auth_rpk, other_auth, XfrmIkev2Spec, Spec, Tunnel,
}

-- `"\x00TH_CLEAR_SECRET\x00"` of internal/model/interactive.go
abbrev pub clear_secret_value : Text
clear_secret_value = 0 ∷ codes "TH_CLEAR_SECRET" ++ (0 ∷ [])

-- `peer_field p i` is `p.peers[i].preshared_key`.
pub data SecretField : Type 0 where
  field : Text → SecretField
  peer_field : Text → ℕ → SecretField

-- `if s != "" { fields = append(fields, name) }`
abbrev pub named_if : Bool → Text → List SecretField
named_if true name = field name ∷ []
named_if false name = []

-- `if c { *value = "" }`
abbrev pub blank_if : Bool → Text → Text
blank_if true value = []
blank_if false value = value

unfoldable pub redact_peers : List WireGuardPeer → List WireGuardPeer
redact_peers [] = []
redact_peers (p ∷ peers) = record p { preshared_key = [] } ∷ redact_peers peers

unfoldable pub peer_fields : Text → ℕ → List WireGuardPeer → List SecretField
peer_fields prefix i [] = []
peer_fields prefix i (p ∷ peers) =
    (if is_empty p.preshared_key then [] else peer_field prefix i ∷ [])
    ++ peer_fields prefix (i + 1) peers

unfoldable pub redact_wire_guard : Text → WireGuardSpec → WireGuardSpec × List SecretField
redact_wire_guard prefix w = (
  record w { private_key = []; peers = redact_peers w.peers },
  named_if (not (is_empty w.private_key)) (prefix ++ codes ".private_key")
      ++ peer_fields prefix 0 w.peers,
)

unfoldable pub redact_static : XfrmStaticSpec → XfrmStaticSpec × List SecretField
redact_static s = (
  record s {
    encryption_key_in = [];
    encryption_key_out = [];
    authentication_key_in = [];
    authentication_key_out = [];
  },
  named_if (not (is_empty s.encryption_key_in)) (codes "spec.xfrm_static.encryption_key_in")
      ++ named_if (not (is_empty s.encryption_key_out))
          (codes "spec.xfrm_static.encryption_key_out")
      ++ named_if (not (is_empty s.authentication_key_in))
          (codes "spec.xfrm_static.authentication_key_in")
      ++ named_if (not (is_empty s.authentication_key_out))
          (codes "spec.xfrm_static.authentication_key_out"),
)

unfoldable pub redact_ikev2 : (Text → Text) → XfrmIkev2Spec → XfrmIkev2Spec × List SecretField
redact_ikev2 trim_space s =
    let psk = not (is_empty (trim_space s.psk)) in
    let key = not (is_empty (trim_space s.local_private_key)) in
    (
      record s { psk = blank_if psk s.psk; local_private_key = blank_if key s.local_private_key },
      named_if psk (codes "spec.xfrm_ikev2.psk")
          ++ named_if key (codes "spec.xfrm_ikev2.local_private_key"),
    )

-- A nil specification stays.
abbrev pub redact_if {ℓ} :
    {A : Type ℓ} → (A → A × List SecretField) → Option A → Option A × List SecretField
redact_if f none = (none, [])
redact_if f (some a) = (some (f a).0, (f a).1)

abbrev pub redact_amnezia_wg : AmneziaWgSpec → AmneziaWgSpec × List SecretField
redact_amnezia_wg a =
    let (w, fields) = redact_wire_guard (codes "spec.amneziawg") a.wire_guard_spec in
    (record a { wire_guard_spec = w }, fields)

-- The `switch` of `Redact`.
unfoldable pub redact_spec : (Text → Text) → Kind → Spec → Spec × List SecretField
redact_spec trim_space wireguard s =
    let (w, fields) = redact_if (redact_wire_guard (codes "spec.wireguard")) s.wireguard_spec in
    (record s { wireguard_spec = w }, fields)
redact_spec trim_space amneziawg s =
    let (a, fields) = redact_if redact_amnezia_wg s.amneziawg_spec in
    (record s { amneziawg_spec = a }, fields)
redact_spec trim_space xfrm_static s =
    let (x, fields) = redact_if redact_static s.xfrm_static_spec in
    (record s { xfrm_static_spec = x }, fields)
redact_spec trim_space xfrm_ikev2 s =
    let (x, fields) = redact_if (redact_ikev2 trim_space) s.xfrm_ikev2_spec in
    (record s { xfrm_ikev2_spec = x }, fields)
redact_spec trim_space _ s = (s, [])

abbrev pub redact_copy : (Text → Text) → Tunnel → Tunnel × List SecretField
redact_copy trim_space t =
    let (spec, fields) = redact_spec trim_space t.kind t.spec in (record t { spec = spec }, fields)

-- `none` is the error of `Clone`, for which `Redact` returns an empty record.
unfoldable pub redact :
    (Tunnel → Option Tunnel) → (Text → Text) → Tunnel → Option (Tunnel × List SecretField)
redact clone trim_space t = elim (clone t) [
  | none ↦ none
  | some copy ↦ some (redact_copy trim_space copy)
]

-- `currentPeers[key]`: of peers with the same key the last one is in the map.
unfoldable pub find_peer : Text → List WireGuardPeer → Option WireGuardPeer
find_peer key [] = none
find_peer key (p ∷ peers) = elim (find_peer key peers) [
  | none ↦ if text_eq p.public_key key then some p else none
  | some q ↦ some q
]

abbrev pub psk_or : Text → Option WireGuardPeer → Text
psk_or psk none = psk
psk_or psk (some old) = old.preshared_key

unfoldable pub merge_peers : List WireGuardPeer → List WireGuardPeer → List WireGuardPeer
merge_peers current [] = []
merge_peers current (p ∷ peers) =
    (if text_eq p.preshared_key clear_secret_value
      then record p { preshared_key = [] }
      else if is_empty p.preshared_key
      then record p { preshared_key = psk_or p.preshared_key (find_peer p.public_key current) }
      else p)
    ∷ merge_peers current peers

-- `if n == "" { n = c }`
abbrev pub or_else : Text → Text → Text
or_else n c = if is_empty n then c else n

unfoldable pub merge_wire_guard : WireGuardSpec → WireGuardSpec → WireGuardSpec
merge_wire_guard next current = record next {
  private_key = or_else next.private_key current.private_key;
  peers = merge_peers current.peers next.peers;
}

-- `n.Algorithm == c.Algorithm`
abbrev pub algorithm_eq : XfrmAlgorithm → XfrmAlgorithm → Bool
algorithm_eq aes_gcm aes_gcm = true
algorithm_eq aes_cbc_sha256 aes_cbc_sha256 = true
algorithm_eq (other_algorithm a) (other_algorithm b) = text_eq a b
algorithm_eq _ _ = false

unfoldable pub merge_static : XfrmStaticSpec → XfrmStaticSpec → XfrmStaticSpec
merge_static n c =
    if algorithm_eq n.algorithm c.algorithm
    then record n {
      encryption_key_in = or_else n.encryption_key_in c.encryption_key_in;
      encryption_key_out = or_else n.encryption_key_out c.encryption_key_out;
      authentication_key_in = or_else n.authentication_key_in c.authentication_key_in;
      authentication_key_out = or_else n.authentication_key_out c.authentication_key_out;
    }
    else n

abbrev pub is_psk : IkeAuthMethod → Bool
is_psk auth_psk = true
is_psk _ = false

abbrev pub is_rpk : IkeAuthMethod → Bool
is_rpk auth_rpk = true
is_rpk _ = false

-- The `switch` on `n.AuthMethod`.
unfoldable pub merge_auth : IkeAuthMethod → XfrmIkev2Spec → XfrmIkev2Spec → XfrmIkev2Spec
merge_auth auth_psk n c = record n {
  rpk_algorithm = [];
  local_private_key = [];
  local_public_key = [];
  remote_public_key = [];
  psk = if is_empty n.psk && is_psk c.auth_method then c.psk else n.psk;
}
merge_auth auth_rpk n c =
    if is_rpk c.auth_method
    then record n {
      psk = [];
      local_private_key = or_else n.local_private_key c.local_private_key;
      local_public_key = or_else n.local_public_key c.local_public_key;
      remote_public_key = or_else n.remote_public_key c.remote_public_key;
    }
    else record n { psk = [] }
merge_auth (other_auth a) n c = n

unfoldable pub merge_ikev2 : XfrmIkev2Spec → XfrmIkev2Spec → XfrmIkev2Spec
merge_ikev2 n c = merge_auth n.auth_method n c

-- Merging through two pointers, of which each may be nil.
abbrev pub merge_both {ℓ} : {A : Type ℓ} → (A → A → A) → Option A → Option A → Option A
merge_both f (some n) (some c) = some (f n c)
merge_both f n c = n

abbrev pub merge_amnezia_wg : AmneziaWgSpec → AmneziaWgSpec → AmneziaWgSpec
merge_amnezia_wg n c = record n {
  wire_guard_spec = merge_wire_guard n.wire_guard_spec c.wire_guard_spec;
}

-- The `switch` of `MergeSecrets`.
unfoldable pub merge_spec : Kind → Spec → Spec → Spec
merge_spec wireguard n c = record n {
  wireguard_spec = merge_both merge_wire_guard n.wireguard_spec c.wireguard_spec;
}
merge_spec amneziawg n c = record n {
  amneziawg_spec = merge_both merge_amnezia_wg n.amneziawg_spec c.amneziawg_spec;
}
merge_spec xfrm_static n c = record n {
  xfrm_static_spec = merge_both merge_static n.xfrm_static_spec c.xfrm_static_spec;
}
merge_spec xfrm_ikev2 n c = record n {
  xfrm_ikev2_spec = merge_both merge_ikev2 n.xfrm_ikev2_spec c.xfrm_ikev2_spec;
}
merge_spec _ n c = n

-- `next.Kind == current.Kind`
abbrev pub kind_eq : Kind → Kind → Bool
kind_eq gre gre = true
kind_eq vxlan vxlan = true
kind_eq wireguard wireguard = true
kind_eq amneziawg amneziawg = true
kind_eq xfrm_static xfrm_static = true
kind_eq xfrm_ikev2 xfrm_ikev2 = true
kind_eq srv6 srv6 = true
kind_eq (other_kind a) (other_kind b) = text_eq a b
kind_eq _ _ = false

-- For pointers that are not nil.
unfoldable pub merge_secrets : Tunnel → Tunnel → Tunnel
merge_secrets next current =
    if kind_eq next.kind current.kind
    then record next { spec = merge_spec next.kind next.spec current.spec }
    else next
