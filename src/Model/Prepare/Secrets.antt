-- ===== src/Model/Prepare/Secrets.antt =====
-- An update of internal/model/prepare.go takes no secret from the random source.
use th.Base.{◌≡◌, refl, ap, ◌∙◌, ℕ, Bool, true, false, not, ◌==◌, Option, none, some, if◌then◌else◌}
use th.Base.Text.{Text, is_empty}
use th.Model.Types.{
  Kind, gre, vxlan, wireguard, amneziawg, xfrm_static, xfrm_ikev2, srv6, other_kind, WireGuardSpec,
  AmneziaWgSpec, XfrmStaticSpec, XfrmIkev2Spec, IkeAuthMethod, auth_psk, auth_rpk, other_auth, Spec,
  Tunnel,
}
use th.Model.Library.{Library}
use th.Model.Defaults.{
  Generator, default_amnezia_wg, if_set, kind_defaults, without_multicast, apply_defaults,
}
use th.Model.Validate.Babel.{babel_needs_unicast_fallback}
use th.Model.Validate.{validate, validate_spec_choice}
use th.Model.Prepare.{
  Prepared, prepared, ◌>=>◌, checked, required, or_generate, parsed_key, spi_or_new, is_cbc,
  ensure_wire_guard_key, ensure_amnezia_wg_key, ensure_authentication, ensure_static_keys,
  ensure_credentials, ensure_ike_credentials, prepare_secrets, finish, merged, prepare_update,
}

-- The headers of `g`, which are no secrets, and all else from `g'`.
abbrev pub with_headers : Generator → Generator → Generator
with_headers g g' = record g' {
  init_header = g.init_header;
  response_header = g.response_header;
  underload_header = g.underload_header;
  transport_header = g.transport_header;
}

or_generate-false {ℓ} :
    {A : Type ℓ} (given : Bool) (a : A) (o o' : Option A)
    → or_generate given false a o ≡ or_generate given false a o'
or_generate-false true a o o' = refl
or_generate-false false a o o' = refl

spi_or_new-false : (spi : ℕ) (o o' : Option ℕ) → spi_or_new false spi o ≡ spi_or_new false spi o'
spi_or_new-false spi none none = refl
spi_or_new-false spi none (some v) = or_generate-false (not (spi == 0)) spi _ _
spi_or_new-false spi (some v) none = or_generate-false (not (spi == 0)) spi _ _
spi_or_new-false spi (some v) (some w) = or_generate-false (not (spi == 0)) spi _ _

module _ (g g' : Generator) where
  ensure_wire_guard_key-false :
      (lib : Library) (s : WireGuardSpec)
      → ensure_wire_guard_key g lib false s ≡ ensure_wire_guard_key g' lib false s
  unfolding ensure_wire_guard_key
  ensure_wire_guard_key-false lib s =
      ap (λ (m : Prepared Text). m >=> λ key. parsed_key lib s key (lib.parse_key key))
        (or_generate-false (not (is_empty s.private_key)) s.private_key g.wire_guard_key
          g'.wire_guard_key)

  ensure_amnezia_wg_key-false :
      (lib : Library) (a : AmneziaWgSpec)
      → ensure_amnezia_wg_key g lib false a ≡ ensure_amnezia_wg_key g' lib false a
  unfolding ensure_amnezia_wg_key
  ensure_amnezia_wg_key-false lib a =
      ap (λ (m : Prepared WireGuardSpec). m >=> λ w. prepared (record a { wire_guard_spec = w }))
        (ensure_wire_guard_key-false lib a.wire_guard_spec)

  ensure_authentication-false :
      (b : Bool) (s : XfrmStaticSpec)
      → ensure_authentication g false b s ≡ ensure_authentication g' false b s
  unfolding ensure_authentication
  ensure_authentication-false false s = refl
  ensure_authentication-false true s =
      let p =
        or_generate-false (not (is_empty s.authentication_key_in)) s.authentication_key_in
          (g.authentication_in 32) (g'.authentication_in 32) in
      let q =
        or_generate-false (not (is_empty s.authentication_key_out)) s.authentication_key_out
          (g.authentication_out 32) (g'.authentication_out 32) in
      λ i. p i >=> λ a.
      q i >=> λ b. prepared (record s { authentication_key_in = a; authentication_key_out = b })

  ensure_static_keys-false :
      (s : XfrmStaticSpec) → ensure_static_keys g false s ≡ ensure_static_keys g' false s
  unfolding ensure_static_keys
  ensure_static_keys-false s =
      let size = if is_cbc s.algorithm then 32 else 20 in
      let p = spi_or_new-false s.spi_inbound g.spi_in g'.spi_in in
      let q = spi_or_new-false s.spi_outbound g.spi_out g'.spi_out in
      let r =
        or_generate-false (not (is_empty s.encryption_key_in)) s.encryption_key_in
          (g.encryption_in size) (g'.encryption_in size) in
      let t =
        or_generate-false (not (is_empty s.encryption_key_out)) s.encryption_key_out
          (g.encryption_out size) (g'.encryption_out size) in
      λ k. p k >=> λ i. q k >=> λ o. r k >=> λ a. t k >=> λ b.
      ensure_authentication-false (is_cbc s.algorithm)
        (record s {
          spi_inbound = i;
          spi_outbound = o;
          encryption_key_in = a;
          encryption_key_out = b;
        })
        k

  ensure_credentials-false :
      (s : XfrmIkev2Spec) (m : IkeAuthMethod)
      → ensure_credentials g false s m ≡ ensure_credentials g' false s m
  unfolding ensure_credentials
  ensure_credentials-false s auth_psk =
      ap (λ (m : Prepared Text). m >=> λ k. prepared (record s { psk = k }))
        (or_generate-false (not (is_empty s.psk)) s.psk g.psk g'.psk)
  ensure_credentials-false s auth_rpk = refl
  ensure_credentials-false s (other_auth m) = refl

  required-false :
      {A : Type 0} (f f' : A → Prepared A) (o : Option A)
      → ((a : A) → f a ≡ f' a)
      → required f o ≡ required f' o
  required-false f f' none h = refl
  required-false f f' (some a) h = ap (λ m. m >=> λ b. prepared (some b)) (h a)

  prepare_secrets-false :
      (lib : Library) (k : Kind) (s : Spec)
      → prepare_secrets g lib false k s ≡ prepare_secrets g' lib false k s
  unfolding prepare_secrets ensure_ike_credentials
  prepare_secrets-false lib wireguard s =
      ap (λ m. m >=> λ w. prepared (record s { wireguard_spec = w }))
        (required-false _ _ s.wireguard_spec (ensure_wire_guard_key-false lib))
  prepare_secrets-false lib amneziawg s =
      ap (λ m. m >=> λ w. prepared (record s { amneziawg_spec = w }))
        (required-false _ _ s.amneziawg_spec (ensure_amnezia_wg_key-false lib))
  prepare_secrets-false lib xfrm_static s =
      ap (λ m. m >=> λ w. prepared (record s { xfrm_static_spec = w }))
        (required-false _ _ s.xfrm_static_spec ensure_static_keys-false)
  prepare_secrets-false lib xfrm_ikev2 s =
      ap (λ m. m >=> λ w. prepared (record s { xfrm_ikev2_spec = w }))
        (required-false _ _ s.xfrm_ikev2_spec (λ x. ensure_credentials-false x x.auth_method))
  prepare_secrets-false lib gre s = refl
  prepare_secrets-false lib vxlan s = refl
  prepare_secrets-false lib srv6 s = refl
  prepare_secrets-false lib (other_kind k) s = refl

module _ (g g' : Generator) where
  kind_defaults-headers :
      (lib : Library) (id : Text) (k : Kind) (s : Spec)
      → kind_defaults g lib id k s ≡ kind_defaults (with_headers g g') lib id k s
  unfolding kind_defaults default_amnezia_wg
  kind_defaults-headers lib id gre s = refl
  kind_defaults-headers lib id vxlan s = refl
  kind_defaults-headers lib id wireguard s = refl
  kind_defaults-headers lib id amneziawg s = refl
  kind_defaults-headers lib id xfrm_static s = refl
  kind_defaults-headers lib id xfrm_ikev2 s = refl
  kind_defaults-headers lib id srv6 s = refl
  kind_defaults-headers lib id (other_kind k) s = refl

  apply_defaults-headers :
      (lib : Library) (t : Tunnel)
      → apply_defaults g lib t ≡ apply_defaults (with_headers g g') lib t
  unfolding apply_defaults
  apply_defaults-headers lib t =
      ap
        (λ (s : Spec).
          let t' = record t { spec = s } in
          if babel_needs_unicast_fallback t'
          then record t' {
            spec = record t'.spec { babel = if_set without_multicast t'.spec.babel };
          }
          else t')
        (kind_defaults-headers lib t.id t.kind t.spec)

  finish-false :
      (lib : Library) (t : Tunnel) → finish g lib false t ≡ finish (with_headers g g') lib false t
  unfolding finish
  finish-false lib t =
      ap (λ (u : Tunnel). ensured g u) (apply_defaults-headers lib t)
      ∙ ap
          (λ (m : Prepared Spec).
            m >=> λ s. checked_spec (apply_defaults (with_headers g g') lib t) s)
          (prepare_secrets-false g (with_headers g g') lib
            (apply_defaults (with_headers g g') lib t).kind
            (apply_defaults (with_headers g g') lib t).spec)
    where
      checked_spec : Tunnel → Spec → Prepared Tunnel
      checked_spec u s =
          checked (validate lib (record u { spec = s })) (prepared (record u { spec = s }))

      ensured : Generator → Tunnel → Prepared Tunnel
      ensured h u = prepare_secrets h lib false u.kind u.spec >=> λ s. checked_spec u s

-- An update that an API client asks for depends on nothing that the random source gives but the magic
-- headers of AmneziaWG: no secret is generated.
pub prepare_update-with_headers :
    (g g' : Generator) (lib : Library) (now : ℕ) (next current : Tunnel)
    → prepare_update g lib false now next current
      ≡ prepare_update (with_headers g g') lib false now next current
unfolding prepare_update
prepare_update-with_headers g g' lib now next current =
    ap (checked (validate_spec_choice next)) (finish-false g g' lib (merged now next current))
