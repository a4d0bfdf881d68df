-- ===== src/Model/Validate/Xfrm.antt =====
-- validateXFRMStatic, validateXFRMIKEv2 and their helpers of internal/model/validate_xfrm.go. The loops
-- over map literals are in the order of the literal; Go leaves the order open, which only changes which
-- field an error names.
use th.Base.{ℕ, ◌/◌, ◌%◌, Bool, ◌&&◌, ◌||◌, not, ltb, ◌==◌, ◌∷◌, none, some, length, if◌then◌else◌}
use th.Base.Text.{Text, text_eq, is_empty, codes, contains_byte}
use th.Model.Types.{
  XfrmAlgorithm, aes_gcm, aes_cbc_sha256, other_algorithm, XfrmStaticSpec, IkeAuthMethod, auth_psk,
  auth_rpk, other_auth, XfrmIkev2Spec,
}
use th.Model.Check.{
  Check, Error, ok, err, ◌>>◌, fail_if, wrap, in_field, bad_xfrm_ids,
  unexpected_authentication_keys, unsupported_algorithm, not_hexadecimal, bad_key_size,
  bad_ike_address, ike_ids_required, bad_ike_id, short_psk, unexpected_rpk, unexpected_psk,
  rpk_required, bad_rpk_algorithm, bad_base64, bad_der, not_ecdsa, bad_pem, bad_pkcs8,
  key_pair_mismatch, unsupported_auth, proposals_required, bad_proposal, bad_start_action,
}
use th.Model.Library.{Library, ecdsa_public, other_public, ecdsa_private, other_private}
use th.Model.Validate.Common.{
  is_between, all_bytes, validate_interface, validate_underlay_pair, validate_interface_addresses,
  validate_mtu,
}

-- `strings.TrimPrefix(value, "0x")`
abbrev pub trim_0x : Text → Text
trim_0x (c ∷ d ∷ s) = if c == b'0' && d == b'x' then s else c ∷ d ∷ s
trim_0x s = s

abbrev pub is_hex : ℕ → Bool
is_hex c = is_between b'0' b'9' c || is_between b'a' b'f' c || is_between b'A' b'F' c

-- `hex.DecodeString` fails on another byte and on an odd length, and halves the length.
unfoldable pub validate_hex_bytes : Text → ℕ → Check
validate_hex_bytes value size =
    fail_if (not (all_bytes is_hex (trim_0x value)) || not (length (trim_0x value) % 2 == 0))
      not_hexadecimal
    >> fail_if (not (length (trim_0x value) / 2 == size)) bad_key_size

abbrev pub hex_field : Text → Text → ℕ → Check
hex_field name value size = wrap (in_field name) (validate_hex_bytes value size)

unfoldable pub validate_keys : XfrmStaticSpec → XfrmAlgorithm → Check
validate_keys spec aes_gcm =
    hex_field (codes "encryption_key_in") spec.encryption_key_in 20
    >> hex_field (codes "encryption_key_out") spec.encryption_key_out 20
    >> fail_if
        (not (is_empty spec.authentication_key_in) || not (is_empty spec.authentication_key_out))
        unexpected_authentication_keys
validate_keys spec aes_cbc_sha256 =
    hex_field (codes "encryption_key_in") spec.encryption_key_in 32
    >> hex_field (codes "encryption_key_out") spec.encryption_key_out 32
    >> hex_field (codes "authentication_key_in") spec.authentication_key_in 32
    >> hex_field (codes "authentication_key_out") spec.authentication_key_out 32
validate_keys spec (other_algorithm a) = err unsupported_algorithm

unfoldable pub validate_xfrm_static : XfrmStaticSpec → Check
validate_xfrm_static spec =
    wrap (in_field (codes "underlay_interface")) (validate_interface spec.underlay_interface)
    >> validate_underlay_pair spec.local spec.remote
    >> validate_interface_addresses spec.addresses
    >> validate_mtu spec.mtu
    >> fail_if
        (spec.if_id == 0
          || spec.req_id == 0
          || ltb spec.spi_inbound 256
          || ltb spec.spi_outbound 256)
        bad_xfrm_ids
    >> validate_keys spec spec.algorithm

abbrev pub validate_ike_id : Text → Text → Check
validate_ike_id name value =
    fail_if (ltb 255 (length value) || contains_byte 0 value) (in_field name bad_ike_id)

abbrev pub validate_proposal : Text → Text → Check
validate_proposal name value =
    fail_if
      (ltb 512 (length value)
        || contains_byte 0 value
        || contains_byte 13 value
        || contains_byte 10 value)
      (in_field name bad_proposal)

module _ (lib : Library) where
  unfoldable pub parse_ecdsa_public_key : Text → (Text → Check) → (Error → Error) → Check
  parse_ecdsa_public_key value then_do at = elim (lib.decode_base64 value) [
    | none ↦ err (at bad_base64)
    | some der ↦ elim (lib.parse_pkix_public_key der) [
      | none ↦ err (at bad_der)
      | some parsed ↦ elim parsed [ ecdsa_public k ↦ then_do k | other_public ↦ err (at not_ecdsa) ]
    ]
  ]

  -- From `pem.Decode` on.
  unfoldable pub validate_local_private_key : Text → Text → Check
  validate_local_private_key private_key local_public = elim (lib.decode_pem private_key) [
    | none ↦ err bad_pem
    | some block ↦ elim (lib.parse_pkcs8_private_key block) [
      | none ↦ err (in_field (codes "local_private_key") bad_pkcs8)
      | some parsed ↦ elim parsed [
        | ecdsa_private k ↦ fail_if (not (text_eq k local_public)) key_pair_mismatch
        | other_private ↦ err (in_field (codes "local_private_key") not_ecdsa)
      ]
    ]
  ]

  unfoldable pub validate_auth : XfrmIkev2Spec → IkeAuthMethod → Check
  validate_auth spec auth_psk =
      fail_if (ltb (length spec.psk) 16) short_psk
      >> fail_if
          (not (is_empty spec.rpk_algorithm)
            || not (is_empty spec.local_private_key)
            || not (is_empty spec.local_public_key)
            || not (is_empty spec.remote_public_key))
          unexpected_rpk
  validate_auth spec auth_rpk =
      fail_if (not (is_empty spec.psk)) unexpected_psk
      >> fail_if
          (is_empty spec.rpk_algorithm
            || is_empty spec.local_private_key
            || is_empty spec.local_public_key
            || is_empty spec.remote_public_key)
          rpk_required
      >> fail_if (not (text_eq spec.rpk_algorithm (codes "ecdsa"))) bad_rpk_algorithm
      >> parse_ecdsa_public_key spec.local_public_key
          (λ local_public.
            parse_ecdsa_public_key spec.remote_public_key
              (λ remote_public. validate_local_private_key spec.local_private_key local_public)
              (in_field (codes "remote_public_key")))
          (in_field (codes "local_public_key"))
  validate_auth spec (other_auth a) = err unsupported_auth

  unfoldable pub validate_ike_address : Text → Check
  validate_ike_address value =
      let trimmed = lib.trim_space value in
      if text_eq trimmed (codes "%any")
        || text_eq trimmed (codes "%any4")
        || text_eq trimmed (codes "%any6")
      then ok
      else fail_if (not (lib.parses_addr trimmed)) bad_ike_address

  -- `validateXFRMIKEv2` before and after the `switch` on the method.
  unfoldable pub check_ikev2 : XfrmIkev2Spec → Check
  check_ikev2 spec =
      wrap (in_field (codes "underlay_interface")) (validate_interface spec.underlay_interface)
      >> wrap (in_field (codes "local_address")) (validate_ike_address spec.local_address)
      >> wrap (in_field (codes "remote_address")) (validate_ike_address spec.remote_address)
      >> fail_if
          (is_empty (lib.trim_space spec.local_id) || is_empty (lib.trim_space spec.remote_id))
          ike_ids_required
      >> validate_ike_id (codes "local_id") spec.local_id
      >> validate_ike_id (codes "remote_id") spec.remote_id
      >> validate_interface_addresses spec.addresses
      >> validate_mtu spec.mtu
      >> fail_if (spec.if_id == 0 || spec.req_id == 0) bad_xfrm_ids

  unfoldable pub check_proposals : XfrmIkev2Spec → Check
  check_proposals spec =
      fail_if
        (is_empty (lib.trim_space spec.ike_proposal) || is_empty (lib.trim_space spec.esp_proposal))
        proposals_required
      >> validate_proposal (codes "ike_proposal") spec.ike_proposal
      >> validate_proposal (codes "esp_proposal") spec.esp_proposal
      >> fail_if
          (not (text_eq spec.start_action (codes "trap"))
            && not (text_eq spec.start_action (codes "start"))
            && not (text_eq spec.start_action (codes "none")))
          bad_start_action

  unfoldable pub validate_xfrm_ikev2 : XfrmIkev2Spec → Check
  validate_xfrm_ikev2 spec =
      check_ikev2 spec >> validate_auth spec spec.auth_method >> check_proposals spec
