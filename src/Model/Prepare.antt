-- ===== src/Model/Prepare.antt =====
-- The preparation of new and changed records: internal/model/prepare.go after its defaults.
pub mod Laws
pub mod Secrets
use th.Base.{
  ℕ, ◌+◌, ◌%◌, ◌/◌, ◌^◌, Bool, true, false, ◌&&◌, ◌||◌, not, ◌==◌, List, [], ◌∷◌, ◌++◌, Option,
  none, some, if◌then◌else◌,
}
use th.Base.Int.{ℤ, pos, is_zero}
use th.Base.Text.{Text, is_empty, codes}
use th.Model.Types.{
  Kind, gre, vxlan, wireguard, amneziawg, xfrm_static, xfrm_ikev2, srv6, other_kind, GreSpec,
  VxlanSpec, WireGuardSpec, AmneziaWgSpec, XfrmAlgorithm, aes_gcm, aes_cbc_sha256, other_algorithm,
  XfrmStaticSpec, IkeAuthMethod, auth_psk, auth_rpk, other_auth, XfrmIkev2Spec, Srv6Source,
  Srv6Spec, BabelTunnelConfig, Spec, Tunnel,
}
use th.Model.Check.{Check, Error, ok, err, panic}
use th.Model.Library.{Library}
use th.Model.Validate.Common.{schema_version}
use th.Model.Validate.Babel.{babel_needs_unicast_fallback}
use th.Model.Validate.{validate_spec_choice, validate}
use th.Model.Ownership.{uint32_at, srv6_auto_rule_priority_min, next_srv6_source_priority}
use th.Model.Secrets.{or_else, merge_secrets}
use th.Model.Defaults.{Generator, apply_defaults}

pub data PrepareError : Type 0 where
  secret_required no_random missing_spec bad_private_key half_key_pair : PrepareError
  invalid_record : Error → PrepareError

pub data Prepared {ℓ} (A : Type ℓ) : Type ℓ where
  prepared : A → Prepared A
  failed : PrepareError → Prepared A
  crashed : Prepared A

infixl 5 ◌>=>◌
abbrev pub ◌>=>◌ {ℓ κ} : {A : Type ℓ} {B : Type κ} → Prepared A → (A → Prepared B) → Prepared B
prepared a >=> f = f a
failed e >=> f = failed e
crashed >=> f = crashed

-- `if err := c; err != nil { return err }`
abbrev pub checked {ℓ} : {A : Type ℓ} → Check → Prepared A → Prepared A
checked ok m = m
checked (err e) m = failed (invalid_record e)
checked panic m = crashed

-- `value | 0x100`
abbrev pub or_0x100 : ℕ → ℕ
or_0x100 v = if v / 256 % 2 == 1 then v else v + 256

-- What is there, or else what the random source gives if it may be asked.
abbrev pub or_generate {ℓ} : {A : Type ℓ} → Bool → Bool → A → Option A → Prepared A
or_generate true generate a random = prepared a
or_generate false false a random = failed secret_required
or_generate false true a none = failed no_random
or_generate false true a (some b) = prepared b

-- `if spec == nil { return e }`, and then `f` on what it points to.
abbrev pub required {ℓ} : {A : Type ℓ} → (A → Prepared A) → Option A → Prepared (Option A)
required f none = failed missing_spec
required f (some a) = f a >=> λ b. prepared (some b)

abbrev pub key_or_new : Generator → Bool → Text → Prepared Text
key_or_new g generate key = or_generate (not (is_empty key)) generate key g.wire_guard_key

unfoldable pub parsed_key : Library → WireGuardSpec → Text → Option Text → Prepared WireGuardSpec
parsed_key lib spec key none = failed bad_private_key
parsed_key lib spec key (some k) =
    prepared (record spec { private_key = key; public_key = lib.key_string (lib.public_key_of k) })

unfoldable pub ensure_wire_guard_key :
    Generator → Library → Bool → WireGuardSpec → Prepared WireGuardSpec
ensure_wire_guard_key g lib generate spec =
    key_or_new g generate spec.private_key >=> λ key. parsed_key lib spec key (lib.parse_key key)

-- `AmneziaWGSpec` embeds the specification.
unfoldable pub ensure_amnezia_wg_key :
    Generator → Library → Bool → AmneziaWgSpec → Prepared AmneziaWgSpec
ensure_amnezia_wg_key g lib generate a =
    ensure_wire_guard_key g lib generate a.wire_guard_spec >=> λ w.
    prepared (record a { wire_guard_spec = w })

abbrev pub is_cbc : XfrmAlgorithm → Bool
is_cbc aes_cbc_sha256 = true
is_cbc _ = false

abbrev pub spi_or_new : Bool → ℕ → Option ℕ → Prepared ℕ
spi_or_new generate spi none = or_generate (not (spi == 0)) generate spi none
spi_or_new generate spi (some v) = or_generate (not (spi == 0)) generate spi (some (or_0x100 v))

abbrev pub text_or_new : Bool → Text → Option Text → Prepared Text
text_or_new generate s random = or_generate (not (is_empty s)) generate s random

unfoldable pub ensure_authentication :
    Generator → Bool → Bool → XfrmStaticSpec → Prepared XfrmStaticSpec
ensure_authentication g generate false s = prepared s
ensure_authentication g generate true s =
    text_or_new generate s.authentication_key_in (g.authentication_in 32) >=> λ a.
    text_or_new generate s.authentication_key_out (g.authentication_out 32) >=> λ b.
    prepared (record s { authentication_key_in = a; authentication_key_out = b })

unfoldable pub ensure_static_keys : Generator → Bool → XfrmStaticSpec → Prepared XfrmStaticSpec
ensure_static_keys g generate s =
    let size = if is_cbc s.algorithm then 32 else 20 in
    spi_or_new generate s.spi_inbound g.spi_in >=> λ i.
    spi_or_new generate s.spi_outbound g.spi_out >=> λ o.
    text_or_new generate s.encryption_key_in (g.encryption_in size) >=> λ a.
    text_or_new generate s.encryption_key_out (g.encryption_out size) >=> λ b.
    ensure_authentication g generate (is_cbc s.algorithm) (record s {
      spi_inbound = i;
      spi_outbound = o;
      encryption_key_in = a;
      encryption_key_out = b;
    })

abbrev pub generated_pair : XfrmIkev2Spec → Option (Text × Text) → Prepared XfrmIkev2Spec
generated_pair s none = failed no_random
generated_pair s (some (k, p)) =
    prepared
      (record s { rpk_algorithm = codes "ecdsa"; local_private_key = k; local_public_key = p })

-- The `switch` of `ensureIKECredentials`.
unfoldable pub ensure_credentials :
    Generator → Bool → XfrmIkev2Spec → IkeAuthMethod → Prepared XfrmIkev2Spec
ensure_credentials g generate s auth_psk =
    text_or_new generate s.psk g.psk >=> λ k. prepared (record s { psk = k })
ensure_credentials g generate s auth_rpk =
    if not (is_empty s.local_private_key) || not (is_empty s.local_public_key)
    then (if is_empty s.local_private_key || is_empty s.local_public_key
        then failed half_key_pair
        else prepared s)
    else if not generate
    then failed secret_required
    else generated_pair s g.key_pair
ensure_credentials g generate s (other_auth m) = prepared s

unfoldable pub ensure_ike_credentials : Generator → Bool → XfrmIkev2Spec → Prepared XfrmIkev2Spec
ensure_ike_credentials g generate s = ensure_credentials g generate s s.auth_method

module _ (g : Generator) (lib : Library) (generate : Bool) where
  unfoldable pub prepare_secrets : Kind → Spec → Prepared Spec
  prepare_secrets wireguard s =
      required (ensure_wire_guard_key g lib generate) s.wireguard_spec >=> λ w.
      prepared (record s { wireguard_spec = w })
  prepare_secrets amneziawg s =
      required (ensure_amnezia_wg_key g lib generate) s.amneziawg_spec >=> λ a.
      prepared (record s { amneziawg_spec = a })
  prepare_secrets xfrm_static s =
      required (ensure_static_keys g generate) s.xfrm_static_spec >=> λ x.
      prepared (record s { xfrm_static_spec = x })
  prepare_secrets xfrm_ikev2 s =
      required (ensure_ike_credentials g generate) s.xfrm_ikev2_spec >=> λ x.
      prepared (record s { xfrm_ikev2_spec = x })
  prepare_secrets _ s = prepared s

  -- The end of both functions: defaults, secrets and `Validate`.
  unfoldable pub finish : Tunnel → Prepared Tunnel
  finish t =
      let t' = apply_defaults g lib t in
      prepare_secrets t'.kind t'.spec >=> λ s.
      checked (validate lib (record t' { spec = s })) (prepared (record t' { spec = s }))

unfoldable pub id_or_new : Text → Option Text → Prepared Text
id_or_new [] none = failed no_random
id_or_new [] (some id) = prepared id
id_or_new (b ∷ id) random = prepared (b ∷ id)

unfoldable pub prepare_new : Generator → Library → ℕ → Tunnel → Prepared Tunnel
prepare_new g lib now t = checked (validate_spec_choice t) (id_or_new t.id g.new_id) >=> λ id.
    finish g lib true (record t {
      id = id;
      schema_version = pos schema_version;
      generation = 1;
      created_at = now;
      updated_at = now;
    })

-- `next` takes the rule priority of `current`, if both are SRv6 and `next` has none.
unfoldable pub keep_priority : Kind → Option Srv6Spec → Option Srv6Spec → Option Srv6Spec
keep_priority srv6 (some n) (some c) = some (record n {
  rule_priority = if is_zero n.rule_priority then c.rule_priority else n.rule_priority;
})
keep_priority _ n c = n

-- `next` before its defaults.
unfoldable pub merged : ℕ → Tunnel → Tunnel → Tunnel
merged now next current =
    let t =
      merge_secrets
        (record next {
          id = current.id;
          schema_version = pos schema_version;
          generation = (current.generation + 1) % 2 ^ 64;
          created_at = current.created_at;
          updated_at = now;
        })
        current in
    record t {
      spec = record t.spec {
        srv6_spec = keep_priority t.kind t.spec.srv6_spec current.spec.srv6_spec;
      };
    }

unfoldable pub prepare_update : Generator → Library → Bool → ℕ → Tunnel → Tunnel → Prepared Tunnel
prepare_update g lib generate now next current =
    checked (validate_spec_choice next) (finish g lib generate (merged now next current))
