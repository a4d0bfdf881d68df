-- ===== src/Model/Runs/Kinds.antt =====
-- The checks of internal/model/validate.go and validate_xfrm.go that call parsers do not read through a nil pointer.
use th.Base.{ℕ, ◌+◌, ◌≡◌, inl, inr, true, ◌||◌, List, [], ◌∷◌, Option, none, some, Option-cases}
use th.Base.Int.{ℤ, below, above}
use th.Base.Text.{Text, is_empty}
use th.Proto.Addr.{Prefix}
use th.Model.Types.{
  Kind, gre, vxlan, wireguard, amneziawg, xfrm_static, xfrm_ikev2, srv6, other_kind, WireGuardPeer,
  WireGuardSpec, AmneziaWgSpec, IkeAuthMethod, auth_psk, auth_rpk, other_auth, XfrmIkev2Spec,
  Srv6Source, Srv6Spec, Spec,
}
use th.Model.Check.{
  Check, Error, deref, bad_port, bad_endpoint, private_key_required, public_key_mismatch,
  key_pair_mismatch, padded_url, bad_url,
}
use th.Model.Library.{Library, ecdsa_public, other_public, ecdsa_private, other_private}
use th.Model.Validate.Common.{validate_networks}
use th.Model.Validate.Wireguard.{
  is_some, validate_port, validate_endpoint, validate_peer, peers_loop, validate_key_pair,
  check_wire_guard, validate_wire_guard, check_amnezia_wg, validate_magic_header,
  validate_amnezia_wg,
}
use th.Model.Validate.Xfrm.{
  validate_xfrm_static, parse_ecdsa_public_key, validate_local_private_key, validate_auth,
  validate_ike_address, check_ikev2, check_proposals, validate_xfrm_ikev2,
}
use th.Model.Validate.Srv6.{
  validate_parsed_url, validate_srv6_feed_url, validate_source, sources_loop, validate_srv6,
}
use th.Model.Validate.{spec_matches, validate_gre, validate_vxlan, validate_kind}
use th.Model.Runs.Checks.{
  steps, common, Runs, runs_ok, runs_err, then_Runs, fail_if-Runs, networks_loop-Runs,
  validate_gre-Runs, validate_vxlan-Runs, count_loop-Runs, validate_xfrm_static-Runs,
}

module _ (lib : Library) where
  validate_port-Runs : (port : Text) → Runs (validate_port lib port)
  unfolding validate_port
  validate_port-Runs port = elim (Option-cases (lib.atoi port)) [
    | inl e ↦ rw (e, validate_port) (runs_err bad_port)
    | inr (n, e) ↦ rw (e, validate_port) (fail_if-Runs (below n 1 || above n 65535) bad_port)
  ]

  validate_endpoint-Runs : (endpoint : Text) → Runs (validate_endpoint lib endpoint)
  unfolding validate_endpoint
  validate_endpoint-Runs endpoint = elim (Option-cases (lib.split_host_port endpoint)) [
    | inl e ↦ rw (e, validate_endpoint) (runs_err bad_endpoint)
    | inr ((host, port), e) ↦ rw (e, validate_endpoint) (search (steps, validate_port-Runs port))
  ]

  validate_networks-Runs : (networks : List Prefix) → Runs (validate_networks networks)
  unfolding validate_networks
  validate_networks-Runs networks = networks_loop-Runs [] networks

  validate_peer-Runs :
      (i : ℕ) (seen : List Text) (peer : WireGuardPeer) → Runs (validate_peer lib i seen peer)
  unfolding validate_peer
  validate_peer-Runs i seen peer =
      search (steps, validate_endpoint-Runs peer.endpoint, validate_networks-Runs peer.allowed_ips)
        depth 24

  peers_loop-Runs :
      (i : ℕ) (seen : List Text) (peers : List WireGuardPeer) → Runs (peers_loop lib i seen peers)
  unfolding peers_loop
  peers_loop-Runs i seen [] = runs_ok
  peers_loop-Runs i seen (p ∷ peers) =
      then_Runs (validate_peer-Runs i seen p) (peers_loop-Runs (i + 1) (p.public_key ∷ seen) peers)

  validate_key_pair-Runs : (k p : Text) → Runs (validate_key_pair lib k p)
  unfolding validate_key_pair
  validate_key_pair-Runs k p =
      then_Runs (fail_if-Runs (is_empty k) private_key_required)
        (elim (Option-cases (lib.parse_key k)) [
          | inl e ↦ rw e (runs_err _)
          | inr (a, e) ↦ rw e (elim (Option-cases (lib.parse_key p)) [
            | inl f ↦ rw f (runs_err _)
            | inr (b, f) ↦ rw f (fail_if-Runs _ public_key_mismatch)
          ])
        ])

  validate_wire_guard-Runs : (spec : WireGuardSpec) → Runs (validate_wire_guard lib spec)
  unfolding validate_wire_guard check_wire_guard
  validate_wire_guard-Runs spec =
      search
        (
          common,
          count_loop-Runs 0 0 spec.peers,
          validate_key_pair-Runs spec.private_key spec.public_key,
          peers_loop-Runs 0 [] spec.peers,
        )
        depth 24

  validate_amnezia_wg-Runs : (spec : AmneziaWgSpec) → Runs (validate_amnezia_wg lib spec)
  unfolding validate_amnezia_wg check_amnezia_wg validate_magic_header
  validate_amnezia_wg-Runs spec =
      search (steps, validate_wire_guard-Runs spec.wire_guard_spec) depth 24

  parse_ecdsa_public_key-Runs :
      (value : Text) (f : Text → Check) (g : Error → Error)
      → ((k : Text) → Runs (f k))
      → Runs (parse_ecdsa_public_key lib value f g)
  unfolding parse_ecdsa_public_key
  parse_ecdsa_public_key-Runs value f g h = elim (Option-cases (lib.decode_base64 value)) [
    | inl e ↦ rw (e, parse_ecdsa_public_key) (runs_err _)
    | inr (der, e) ↦
        rw (e, parse_ecdsa_public_key)
          (elim (Option-cases (lib.parse_pkix_public_key der)) [
            | inl d ↦ rw d (runs_err _)
            | inr (ecdsa_public k, d) ↦ rw d (h k)
            | inr (other_public, d) ↦ rw d (runs_err _)
          ])
  ]

  validate_local_private_key-Runs : (k p : Text) → Runs (validate_local_private_key lib k p)
  unfolding validate_local_private_key
  validate_local_private_key-Runs k p = elim (Option-cases (lib.decode_pem k)) [
    | inl e ↦ rw (e, validate_local_private_key) (runs_err _)
    | inr (block, e) ↦
        rw (e, validate_local_private_key)
          (elim (Option-cases (lib.parse_pkcs8_private_key block)) [
            | inl d ↦ rw d (runs_err _)
            | inr (ecdsa_private q, d) ↦ rw d (fail_if-Runs _ key_pair_mismatch)
            | inr (other_private, d) ↦ rw d (runs_err _)
          ])
  ]

  validate_auth-Runs : (spec : XfrmIkev2Spec) (m : IkeAuthMethod) → Runs (validate_auth lib spec m)
  unfolding validate_auth
  validate_auth-Runs spec auth_psk = search steps
  validate_auth-Runs spec auth_rpk = then_Runs (search steps) (
      parse_ecdsa_public_key-Runs spec.local_public_key _ _ (λ k.
        parse_ecdsa_public_key-Runs spec.remote_public_key _ _
          (λ r. validate_local_private_key-Runs spec.local_private_key k)))
  validate_auth-Runs spec (other_auth a) = runs_err _

  validate_ike_address-Runs : (value : Text) → Runs (validate_ike_address lib value)
  unfolding validate_ike_address
  validate_ike_address-Runs value = search steps

  validate_xfrm_ikev2-Runs : (spec : XfrmIkev2Spec) → Runs (validate_xfrm_ikev2 lib spec)
  unfolding validate_xfrm_ikev2 check_ikev2 check_proposals
  validate_xfrm_ikev2-Runs spec =
      search (common, validate_ike_address-Runs, validate_auth-Runs spec spec.auth_method) depth 24

  url-Runs : (r : Option (Text × Text)) → Runs (validate_parsed_url r)
  unfolding validate_parsed_url
  url-Runs none = runs_err bad_url
  url-Runs (some (scheme, host)) = fail_if-Runs _ bad_url

  validate_srv6_feed_url-Runs : (value : Text) → Runs (validate_srv6_feed_url lib value)
  unfolding validate_srv6_feed_url
  validate_srv6_feed_url-Runs value =
      then_Runs (fail_if-Runs _ padded_url) (url-Runs (lib.parse_url value))

  validate_source-Runs :
      (i : ℕ) (seen : List Text) (priorities : List ℤ) (s : Srv6Source)
      → Runs (validate_source lib i seen priorities s)
  unfolding validate_source
  validate_source-Runs i seen priorities s =
      search (common, validate_srv6_feed_url-Runs s.prefix_url) depth 24

  sources_loop-Runs :
      (i : ℕ) (seen : List Text) (priorities : List ℤ) (sources : List Srv6Source)
      → Runs (sources_loop lib i seen priorities sources)
  unfolding sources_loop
  sources_loop-Runs i seen priorities [] = runs_ok
  sources_loop-Runs i seen priorities (s ∷ sources) =
      then_Runs (validate_source-Runs i seen priorities s)
        (sources_loop-Runs (i + 1) (s.name ∷ seen) (s.priority ∷ priorities) sources)

  validate_srv6-Runs : (spec : Srv6Spec) → Runs (validate_srv6 lib spec)
  unfolding validate_srv6
  validate_srv6-Runs spec = search (common, sources_loop-Runs 0 [] [] spec.sources) depth 24

  deref-Runs {ℓ} :
      {A : Type ℓ} (o : Option A) (f : A → Check)
      → is_some o ≡ true
      → ((a : A) → Runs (f a))
      → Runs (deref o f)
  deref-Runs none f e h = cc
  deref-Runs (some a) f e h = h a

  pub validate_kind-Runs :
      (k : Kind) (s : Spec) → spec_matches k s ≡ true → Runs (validate_kind lib k s)
  unfolding validate_kind
  validate_kind-Runs gre s e = deref-Runs s.gre_spec validate_gre e validate_gre-Runs
  validate_kind-Runs vxlan s e = deref-Runs s.vxlan_spec validate_vxlan e validate_vxlan-Runs
  validate_kind-Runs wireguard s e =
      deref-Runs s.wireguard_spec (validate_wire_guard lib) e validate_wire_guard-Runs
  validate_kind-Runs amneziawg s e =
      deref-Runs s.amneziawg_spec (validate_amnezia_wg lib) e validate_amnezia_wg-Runs
  validate_kind-Runs xfrm_static s e =
      deref-Runs s.xfrm_static_spec validate_xfrm_static e validate_xfrm_static-Runs
  validate_kind-Runs xfrm_ikev2 s e =
      deref-Runs s.xfrm_ikev2_spec (validate_xfrm_ikev2 lib) e validate_xfrm_ikev2-Runs
  validate_kind-Runs srv6 s e = deref-Runs s.srv6_spec (validate_srv6 lib) e validate_srv6-Runs
  validate_kind-Runs (other_kind k) s e = runs_err _
