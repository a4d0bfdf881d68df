-- ===== src/Model/Check.antt =====
-- The outcome of the checks in internal/model/validate.go and validate_xfrm.go. An `error` has a
-- constructor for each message; `in_field` and `in_peer` are the wrappers `%s: %w` and
-- `peers[%d].%s: %w`. `panic` is the panic of a nil pointer that is read.
use th.Base.{ℕ, ◌≡◌, refl, Bool, true, false, Option, none, some}
use th.Base.Text.{Text}

pub data Error : Type 0 where
  bad_schema_version bad_id bad_generation bad_timestamps bad_name srv6_sets_interface : Error
  bad_interface bad_mtu bad_vni bad_destination_port bad_spec_count spec_mismatch : Error
  unsupported_kind tunnel_required : Error
  too_many_addresses invalid_prefix duplicate_address duplicate_network : Error
  unspecified_underlay underlay_families : Error
  too_many_peers too_many_allowed_ips too_many_total_allowed_ips : Error
  private_key_required bad_key public_key_mismatch bad_listen_port bad_firewall_mark : Error
  bad_route_table duplicate_peer bad_keepalive bad_endpoint host_required bad_port : Error
  bad_junk_count bad_junk_min bad_junk_max bad_junk_sizes bad_magic_header same_magic_headers :
      Error
  srv6_babel bad_balance bad_bandwidth too_many_neighbours invalid_neighbour : Error
  duplicate_neighbour multicast_not_covered srv6_mptcp : Error
  bad_xfrm_ids unexpected_authentication_keys unsupported_algorithm not_hexadecimal : Error
  bad_key_size bad_ike_address ike_ids_required bad_ike_id short_psk unexpected_rpk : Error
  unexpected_psk rpk_required bad_rpk_algorithm bad_base64 bad_der not_ecdsa bad_pem : Error
  bad_pkcs8 key_pair_mismatch unsupported_auth proposals_required bad_proposal : Error
  bad_start_action too_many_sources bad_table bad_rule_priority bad_refresh sources_required : Error
  bad_source_name duplicate_source_name bad_family padded_url bad_url bad_sid : Error
  bad_source_priority duplicate_source_priority : Error
  in_field : Text → Error → Error
  in_peer : ℕ → Text → Error → Error
  in_source : ℕ → Error → Error

pub data Check : Type 0 where
  ok : Check
  err : Error → Check
  panic : Check

-- `if err := a; err != nil { return err }`, and then `b`.
infixl 5 ◌>>◌
abbrev pub ◌>>◌ : Check → Check → Check
ok >> k = k
err e >> k = err e
panic >> k = panic

-- `if c { return e }`
abbrev pub fail_if : Bool → Error → Check
fail_if true e = err e
fail_if false e = ok

-- `if err := a; err != nil { return wrap(err) }`
abbrev pub wrap : (Error → Error) → Check → Check
wrap f ok = ok
wrap f (err e) = err (f e)
wrap f panic = panic

-- Reading through a pointer.
abbrev pub deref {ℓ} : {A : Type ℓ} → Option A → (A → Check) → Check
deref none f = panic
deref (some a) f = f a

abbrev pub is_ok : Check → Bool
is_ok ok = true
is_ok (err e) = false
is_ok panic = false

pub >>-ok : (a b : Check) → (a >> b) ≡ ok → (a ≡ ok) × (b ≡ ok)
>>-ok ok b h = (refl, h)
>>-ok (err e) b h = cc
>>-ok panic b h = cc

pub fail_if-ok : (c : Bool) (e : Error) → fail_if c e ≡ ok → c ≡ false
fail_if-ok true e h = cc
fail_if-ok false e h = refl

pub wrap-ok : (f : Error → Error) (a : Check) → wrap f a ≡ ok → a ≡ ok
wrap-ok f ok h = refl
wrap-ok f (err e) h = cc
wrap-ok f panic h = cc
