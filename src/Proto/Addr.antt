-- ===== src/Proto/Addr.antt =====
-- Go's net/netip values as the package uses them: addresses without zones, and prefixes. The
-- bytes of an address are a list, 4 of them in `v4` and 16 in `v6`.
pub mod Equality
use th.Base.{
  ℕ, ◌+◌, ◌-◌, ◌*◌, ◌/◌, ◌^◌, ◌<◌, ◌≡◌, Bool, true, false, ◌&&◌, List, [], ◌∷◌, ◌++◌, Option, none,
  some, ltb, leb, ◌==◌, if◌then◌else◌, length, get_or, take, drop, replicate, bytes_eq, All,
}

-- `zero_addr` is the zero value `netip.Addr{}`, which is no valid address.
pub data Addr : Type 0 where
  zero_addr : Addr
  v4 : List ℕ → Addr
  v6 : List ℕ → Addr

abbrev pub IsByte : ℕ → Type 0
IsByte b = b < 256

-- What every value that the library builds satisfies.
abbrev pub IsAddr : Addr → Type 0
IsAddr zero_addr = Unit {0}
IsAddr (v4 b) = (length b ≡ 4) × All IsByte b
IsAddr (v6 b) = (length b ≡ 16) × All IsByte b

abbrev pub addr_eq : Addr → Addr → Bool
addr_eq zero_addr zero_addr = true
addr_eq (v4 a) (v4 b) = bytes_eq a b
addr_eq (v6 a) (v6 b) = bytes_eq a b
addr_eq _ _ = false

abbrev pub is4 : Addr → Bool
is4 (v4 b) = true
is4 _ = false

abbrev pub is6 : Addr → Bool
is6 (v6 b) = true
is6 _ = false

-- `::ffff:0:0/96`
abbrev pub mapped_prefix : List ℕ
mapped_prefix = 0 ∷ 0 ∷ 0 ∷ 0 ∷ 0 ∷ 0 ∷ 0 ∷ 0 ∷ 0 ∷ 0 ∷ 0xff ∷ 0xff ∷ []

abbrev pub is4in6 : Addr → Bool
is4in6 (v6 b) = bytes_eq (take 12 b) mapped_prefix
is4in6 _ = false

abbrev pub is_unspecified : Addr → Bool
is_unspecified zero_addr = false
is_unspecified (v4 b) = bytes_eq b (replicate 4 0)
is_unspecified (v6 b) = bytes_eq b (replicate 16 0)

-- fe80::/10
abbrev pub is_fe80 : List ℕ → Bool
is_fe80 b = get_or b 0 0 == 0xfe && leb 0x80 (get_or b 1 0) && ltb (get_or b 1 0) 0xc0

-- 169.254.0.0/16, also in its mapped form, and fe80::/10.
abbrev pub is_link_local_unicast : Addr → Bool
is_link_local_unicast zero_addr = false
is_link_local_unicast (v4 b) = get_or b 0 0 == 169 && get_or b 1 0 == 254
is_link_local_unicast (v6 b) =
    if is4in6 (v6 b) then get_or b 12 0 == 169 && get_or b 13 0 == 254 else is_fe80 b

abbrev pub is_valid : Addr → Bool
is_valid zero_addr = false
is_valid _ = true

abbrev pub as_slice : Addr → List ℕ
as_slice zero_addr = []
as_slice (v4 b) = b
as_slice (v6 b) = b

abbrev pub addr_from_slice : List ℕ → Option Addr
addr_from_slice b =
    if length b == 4 then some (v4 b) else if length b == 16 then some (v6 b) else none

abbrev pub unmap : Addr → Addr
unmap (v6 b) = if is4in6 (v6 b) then v4 (drop 12 b) else v6 b
unmap a = a

abbrev pub bit_len : Addr → ℕ
bit_len zero_addr = 0
bit_len (v4 b) = 32
bit_len (v6 b) = 128

abbrev pub ipv6_unspecified : Addr
ipv6_unspecified = v6 (replicate 16 0)

-- `bits_plus_one` is 0 in an invalid prefix, whose `Bits()` is -1.
pub record Prefix : Type 0 where
  pub addr : Addr
  pub bits_plus_one : ℕ

-- `netip.PrefixFrom`: a length that the address does not have makes the prefix invalid.
abbrev pub prefix_from : Addr → ℕ → Prefix
prefix_from a bits = record {
  addr = a;
  bits_plus_one = if is_valid a && leb bits (bit_len a) then bits + 1 else 0;
}

abbrev pub zero_prefix : Prefix
zero_prefix = record { addr = zero_addr; bits_plus_one = 0 }

abbrev pub prefix_eq : Prefix → Prefix → Bool
prefix_eq p q = addr_eq p.addr q.addr && p.bits_plus_one == q.bits_plus_one

-- The bytes with all bits from position `n` on cleared.
abbrev pub mask_bytes : ℕ → List ℕ → List ℕ
mask_bytes n [] = []
mask_bytes n (x ∷ xs) =
    (if leb 8 n then x else x / 2 ^ (8 - n) * 2 ^ (8 - n)) ∷ mask_bytes (n - 8) xs

abbrev pub mask_addr : ℕ → Addr → Addr
mask_addr n zero_addr = zero_addr
mask_addr n (v4 b) = v4 (mask_bytes n b)
mask_addr n (v6 b) = v6 (mask_bytes n b)

-- `Prefix.Masked()`
abbrev pub masked : Prefix → Prefix
masked p =
    if p.bits_plus_one == 0
    then zero_prefix
    else record p { addr = mask_addr (p.bits_plus_one - 1) p.addr }

-- `RouterIDFromAddr` of internal/babel/proto/types.go; `copy` fills the eight bytes from `i[4:]` or `i[:]`.
unfoldable pub router_id_from_addr : Addr → List ℕ
router_id_from_addr (v4 b) = replicate 4 0 ++ take 4 b
router_id_from_addr (v6 b) =
    if is4in6 (v6 b) then replicate 4 0 ++ take 4 (drop 12 b) else take 8 (drop 8 b)
router_id_from_addr zero_addr = replicate 8 0
