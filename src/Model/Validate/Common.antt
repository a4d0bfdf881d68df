-- ===== src/Model/Validate/Common.antt =====
-- The checks of internal/model/validate.go that the kinds share, and the identifiers of id.go.
use th.Base.{
  ℕ, ◌-◌, Bool, true, false, ◌&&◌, ◌||◌, not, leb, ltb, ◌==◌, List, [], ◌∷◌, ◌++◌, length,
  replicate,
}
use th.Base.Int.{ℤ, below, above}
use th.Base.Text.{Text}
use th.Proto.Addr.{
  Addr, Prefix, is_valid, is_unspecified, bit_len, prefix_eq, addr_eq, masked, mask_addr,
}
use th.Model.Check.{
  Check, ok, ◌>>◌, fail_if, bad_interface, bad_mtu, too_many_addresses, invalid_prefix,
  duplicate_address, duplicate_network, unspecified_underlay, underlay_families,
}

-- The constants of types.go.
abbrev pub schema_version : ℕ
schema_version = 4

abbrev pub max_tunnel_records : ℕ
max_tunnel_records = 1024

abbrev pub max_interface_addresses : ℕ
max_interface_addresses = 256

abbrev pub is_between : ℕ → ℕ → ℕ → Bool
is_between lo hi c = leb lo c && leb c hi

-- `[A-Za-z0-9]`
abbrev pub is_alphanumeric : ℕ → Bool
is_alphanumeric c = is_between b'A' b'Z' c || is_between b'a' b'z' c || is_between b'0' b'9' c

-- `[A-Za-z0-9_.-]`
abbrev pub is_name_byte : ℕ → Bool
is_name_byte c = is_alphanumeric c || c == b'_' || c == b'.' || c == b'-'

abbrev pub all_bytes : (ℕ → Bool) → Text → Bool
all_bytes p [] = true
all_bytes p (c ∷ s) = p c && all_bytes p s

-- `namePattern` and `interfacePattern`
abbrev pub matches_name : Text → Bool
matches_name [] = false
matches_name (c ∷ s) = is_alphanumeric c && all_bytes is_name_byte s

abbrev pub matches_interface : Text → Bool
matches_interface [] = false
matches_interface (c ∷ s) = all_bytes is_name_byte (c ∷ s)

-- `idPattern`: a class for each byte of the text.
abbrev pub matches_classes : List (ℕ → Bool) → Text → Bool
matches_classes [] [] = true
matches_classes (p ∷ classes) (c ∷ s) = p c && matches_classes classes s
matches_classes _ _ = false

abbrev pub is_hex_digit : ℕ → Bool
is_hex_digit c = is_between b'0' b'9' c || is_between b'a' b'f' c

abbrev pub is_dash : ℕ → Bool
is_dash c = c == b'-'

abbrev pub id_classes : List (ℕ → Bool)
id_classes =
    replicate 8 is_hex_digit
    ++ (is_dash ∷ replicate 4 is_hex_digit)
    ++ (is_dash ∷ (λ c. c == b'4') ∷ replicate 3 is_hex_digit)
    ++ (is_dash
        ∷ (λ c. c == b'8' || c == b'9' || c == b'a' || c == b'b')
        ∷ replicate 3 is_hex_digit)
    ++ (is_dash ∷ replicate 12 is_hex_digit)

unfoldable pub valid_id : Text → Bool
valid_id id = matches_classes id_classes id

abbrev pub valid_name : Text → Bool
valid_name name = not (length name == 0) && leb (length name) 64 && matches_name name

unfoldable pub validate_interface : Text → Check
validate_interface name =
    fail_if (length name == 0 || ltb 15 (length name) || not (matches_interface name)) bad_interface

unfoldable pub validate_mtu : ℤ → Check
validate_mtu mtu = fail_if (below mtu 68 || above mtu 65535) bad_mtu

-- `netip.Prefix.IsValid`
abbrev pub prefix_is_valid : Prefix → Bool
prefix_is_valid p = not (p.bits_plus_one == 0)

-- A map that is used as a set: the keys that were put in.
abbrev pub has_prefix : List Prefix → Prefix → Bool
has_prefix [] p = false
has_prefix (q ∷ seen) p = prefix_eq q p || has_prefix seen p

unfoldable pub addresses_loop : List Prefix → List Prefix → Check
addresses_loop seen [] = ok
addresses_loop seen (p ∷ addresses) =
    fail_if (not (prefix_is_valid p)) invalid_prefix
    >> fail_if (has_prefix seen p) duplicate_address
    >> addresses_loop (p ∷ seen) addresses

unfoldable pub validate_interface_addresses : List Prefix → Check
validate_interface_addresses addresses =
    fail_if (ltb max_interface_addresses (length addresses)) too_many_addresses
    >> addresses_loop [] addresses

unfoldable pub networks_loop : List Prefix → List Prefix → Check
networks_loop seen [] = ok
networks_loop seen (p ∷ networks) =
    fail_if (not (prefix_is_valid p)) invalid_prefix
    >> fail_if (has_prefix seen (masked p)) duplicate_network
    >> networks_loop (masked p ∷ seen) networks

unfoldable pub validate_networks : List Prefix → Check
validate_networks networks = networks_loop [] networks

unfoldable pub validate_underlay_pair : Addr → Addr → Check
validate_underlay_pair local remote =
    fail_if
      (not (is_valid local)
        || is_unspecified local
        || not (is_valid remote)
        || is_unspecified remote)
      unspecified_underlay
    >> fail_if (not (bit_len local == bit_len remote)) underlay_families

-- `netip.Prefix.Contains`
abbrev pub contains : Prefix → Addr → Bool
contains p a =
    prefix_is_valid p
    && not (bit_len p.addr == 0)
    && bit_len p.addr == bit_len a
    && addr_eq (mask_addr (p.bits_plus_one - 1) p.addr) (mask_addr (p.bits_plus_one - 1) a)
