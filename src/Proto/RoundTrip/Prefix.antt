-- ===== src/Proto/RoundTrip/Prefix.antt =====
-- `prefix` after `appendPrefix`, internal/babel/proto/parser.go.
use mathlib.Core.List.{append-nil}
use th.Base.{
  ℕ, ◌+◌, ◌-◌, ◌≤◌, ◌≡◌, refl, ◌*◌, ap, List, ◌++◌, true, false, inl, inr, length, length-take,
  take, ltb, [], ◌&&◌, if◌then◌else◌, Bool-cases, arith,
}
use th.Proto.Addr.{Addr, v4, v6, zero_addr, IsAddr, Prefix, is_valid, is_unspecified, is4in6}
use th.Proto.Addr.{is6, is4, is_fe80, bit_len, mask_addr, mask_bytes, as_slice}
use th.Proto.Addr.{ipv6_unspecified}
use th.Proto.Result.{ok}
use th.Proto.Decode.Fields.{Parser, plain_address, address, prefix, real_length}
use th.Proto.Encode.{append_prefix, bits_byte, bytes_for, prefix_length}
use th.Proto.RoundTrip.Address.{plain_address_v4, plain_address_v6}

-- The prefixes that the route table sends: valid, masked, neither IPv4-mapped nor link-local, and a
-- default route if the address is unspecified.
pub record IsSent (pfx : Prefix) : Type 0 where
  pub addr_ok : IsAddr pfx.addr
  pub valid : is_valid pfx.addr ≡ true
  pub bits_lo : 1 ≤ pfx.bits_plus_one
  pub bits_hi : pfx.bits_plus_one ≤ bit_len pfx.addr + 1
  pub is_masked : mask_addr (pfx.bits_plus_one - 1) pfx.addr ≡ pfx.addr
  pub default_only : is_unspecified pfx.addr ≡ true → pfx.bits_plus_one ≡ 1
  pub not_mapped : is4in6 pfx.addr ≡ false
  pub not_local : (is6 pfx.addr && is_fe80 (as_slice pfx.addr)) ≡ false

-- The address encoding that stands in an update or a request with this prefix.
abbrev pub prefix_ae : Prefix → ℕ
prefix_ae pfx = if is_unspecified pfx.addr then 0 else if is4 pfx.addr then 1 else 2

-- An unspecified address, also that of 0.0.0.0/0, is read as the one of IPv6.
abbrev pub on_wire_prefix : Prefix → Prefix
on_wire_prefix pfx = if is_unspecified pfx.addr then record pfx { addr = ipv6_unspecified } else pfx

pub record PrefixCode (pfx : Prefix) : Type 0 where
  pub bytes : List ℕ
  pub ae : ℕ
  pub writes : (b : List ℕ) → append_prefix b pfx ≡ ok (b ++ bytes, ae, pfx.bits_plus_one - 1, 0)
  pub reads :
      (p : Parser) (rest : List ℕ)
      → prefix p ae (pfx.bits_plus_one - 1) 0 (bytes ++ rest) ≡ ok (on_wire_prefix pfx, rest)
  pub reads_v4 :
      is4 pfx.addr ≡ true
      → (p : Parser) (rest : List ℕ)
      → prefix p 1 (pfx.bits_plus_one - 1) 0 (bytes ++ rest) ≡ ok (pfx, rest)
  pub chosen : ae ≡ prefix_ae pfx
  pub counted : prefix_length pfx ≡ length bytes
  pub small : length bytes ≤ 16

-- The pattern of the length is the length.
bits_byte_lem :
    (n : ℕ) (a : Addr)
    → 1 ≤ n
    → n ≤ 129
    → bits_byte (record { addr = a; bits_plus_one = n }) ≡ n - 1
bits_byte_lem n a lo hi = ground arith

-- `prefix` on the wildcard encoding.
read_wildcard :
    (p : Parser) (n : ℕ) (rest : List ℕ)
    → 1 ≤ n
    → n ≤ 129
    → prefix p 0 (n - 1) 0 rest ≡ ok (record { addr = ipv6_unspecified; bits_plus_one = n }, rest)
unfolding prefix address
read_wildcard p n rest lo hi = ground arith

real_length_v4 : (n : ℕ) → n ≤ 33 → real_length 1 (n - 1) ≡ n - 1
real_length_v4 n h = ground arith

real_length_v6 : (n : ℕ) → n ≤ 129 → real_length 2 (n - 1) ≡ n - 1
real_length_v6 n h = ground arith

fits_v6 : (n : ℕ) → n ≤ 129 → ltb 16 (bytes_for (n - 1)) ≡ false
fits_v6 n h = ground arith

read_v4 :
    (p : Parser) (n : ℕ) (bs b rest : List ℕ)
    → 1 ≤ n
    → n ≤ 33
    → plain_address p 1 0 (n - 1) b ≡ ok (v4 bs, rest)
    → prefix p 1 (n - 1) 0 b ≡ ok (record { addr = v4 bs; bits_plus_one = n }, rest)
unfolding prefix address
read_v4 p n bs b rest lo hi e = ground arith

read_v6 :
    (p : Parser) (n : ℕ) (bs b rest : List ℕ)
    → 1 ≤ n
    → n ≤ 129
    → plain_address p 2 0 (n - 1) b ≡ ok (v6 bs, rest)
    → prefix p 2 (n - 1) 0 b ≡ ok (record { addr = v6 bs; bits_plus_one = n }, rest)
unfolding prefix address
read_v6 p n bs b rest lo hi e = ground arith

default_length :
    (a : Addr) (n : ℕ) → n ≡ 1 → prefix_length (record { addr = a; bits_plus_one = n }) ≡ 0
default_length a n e = ground arith

plain_length :
    (a : Addr) (n : ℕ) (bs : List ℕ)
    → 1 ≤ n
    → n ≤ 8 * length bs + 1
    → prefix_length (record { addr = a; bits_plus_one = n }) ≡ length (take (bytes_for (n - 1)) bs)
plain_length a n bs lo hi = ground (arith, length-take (bytes_for (n - 1)) bs)

module _ (bs : List ℕ) (n : ℕ) where
  code_v4 :
      IsSent (record { addr = v4 bs; bits_plus_one = n })
      → PrefixCode (record { addr = v4 bs; bits_plus_one = n })
  unfolding append_prefix prefix address
  code_v4 s =
      let bb = bits_byte_lem n (v4 bs) s.bits_lo (ground arith) in
      let mask : mask_bytes (n - 1) bs ≡ bs = ap as_slice s.is_masked in
      let len = s.addr_ok.0 in
      let hi : n ≤ 33 = s.bits_hi in
      let real : real_length 1 (n - 1) ≡ n - 1 = real_length_v4 n hi in
      elim (Bool-cases (is_unspecified (v4 bs))) [
        | inl u ↦ record {
          bytes = [];
          ae = 0;
          writes = λ b. rw (bb, u, append-nil);
          reads = λ p rest. rw u (read_wildcard p n rest s.bits_lo (ground arith));
          reads_v4 = λ h p rest.
              let e = s.default_only u in
              rw e (
                read_v4 p 1 bs rest rest (omega arith) (omega arith) (
                  plain_address_v4 p 0 0 bs rest s.addr_ok.1 (rw e at mask) len (omega arith)
                    refl));
          chosen = rw u;
          counted = default_length (v4 bs) n (s.default_only u);
          small = omega arith;
        }
        | inr u ↦ record {
          bytes = take (bytes_for (n - 1)) bs;
          ae = 1;
          writes = λ b. rw (bb, u) (ground arith);
          reads = λ p rest. rw u (
              ground (
                arith,
                plain_address_v4 p (n - 1) (n - 1) bs rest s.addr_ok.1 mask len (ground arith)
                    (ground arith),
              ));
          reads_v4 = λ h p rest.
              read_v4 p n bs _ rest s.bits_lo hi (
                plain_address_v4 p (n - 1) (n - 1) bs rest s.addr_ok.1 mask len (omega arith) real);
          chosen = rw u;
          counted = plain_length (v4 bs) n bs s.bits_lo (omega arith);
          small = omega (arith, length-take (bytes_for (n - 1)) bs);
        }
      ]

  code_v6 :
      IsSent (record { addr = v6 bs; bits_plus_one = n })
      → PrefixCode (record { addr = v6 bs; bits_plus_one = n })
  unfolding append_prefix prefix address
  code_v6 s =
      let bb = bits_byte_lem n (v6 bs) s.bits_lo s.bits_hi in
      let mask : mask_bytes (n - 1) bs ≡ bs = ap as_slice s.is_masked in
      let len = s.addr_ok.0 in
      let hi : n ≤ 129 = s.bits_hi in
      let rl = real_length_v6 n hi in
      elim (Bool-cases (is_unspecified (v6 bs))) [
        | inl u ↦ record {
          bytes = [];
          ae = 0;
          writes = λ b. rw (bb, u, append-nil);
          reads = λ p rest. rw u (read_wildcard p n rest s.bits_lo hi);
          reads_v4 = λ h p rest. cc;
          chosen = rw u;
          counted = default_length (v6 bs) n (s.default_only u);
          small = omega arith;
        }
        | inr u ↦ record {
          bytes = take (bytes_for (n - 1)) bs;
          ae = 2;
          writes = λ b. rw (bb, u, s.not_mapped, s.not_local) (rw (rl, len, fits_v6 n hi));
          reads = λ p rest. rw u (
              read_v6 p n bs _ rest s.bits_lo hi
                (plain_address_v6 p (n - 1) (n - 1) bs rest s.addr_ok.1 mask len (omega arith) rl));
          reads_v4 = λ h p rest. cc;
          chosen = rw u;
          counted = plain_length (v6 bs) n bs s.bits_lo (omega arith);
          small = omega (arith, length-take (bytes_for (n - 1)) bs);
        }
      ]

code_of :
    (a : Addr) (n : ℕ)
    → IsSent (record { addr = a; bits_plus_one = n })
    → PrefixCode (record { addr = a; bits_plus_one = n })
code_of zero_addr n s = absurd (ground (arith, s.valid))
code_of (v4 bs) n s = code_v4 bs n s
code_of (v6 bs) n s = code_v6 bs n s

-- Every prefix that is sent has a code.
pub prefix_code : (pfx : Prefix) → IsSent pfx → PrefixCode pfx
prefix_code pfx s = code_of pfx.addr pfx.bits_plus_one s
