-- ===== src/Proto/Decode/Fields.antt =====
-- Router-ids, addresses and prefixes: `routerID`, `address` and `prefix` of
-- internal/babel/proto/parser.go, with the parser state that they read.
use th.Base.{
  ℕ, ◌+◌, ◌-◌, ◌*◌, ◌/◌, ◌%◌, ◌^◌, ◌||◌, List, [], ◌∷◌, ◌++◌, none, some, ltb, leb, ◌==◌,
  if◌then◌else◌, length, get_or, set, take, drop, replicate, copy, copy_at, bytes_eq,
}
use th.Base.Maps.{lookup}
use th.Proto.Addr.{Addr, v6, as_slice, mapped_prefix, ipv6_unspecified, addr_from_slice}
use th.Proto.Addr.{Prefix, prefix_from, zero_addr}
use th.Proto.Result.{Result, ok, err, panic, stuck, too_short, invalid_router_id, invalid_address}
use th.Proto.Result.{missing_default_prefix}
use th.Proto.Reader.{Reader, ◌>>=◌, pure, uint8}

-- `type Parser struct`. The maps' keys are address encodings and address families.
pub record Parser : Type 0 where
  pub default_prefix : List (ℕ × Addr)
  pub current_next_hop : List (ℕ × Addr)
  pub current_router_id : List ℕ

abbrev pub router_id_unspecified : List ℕ
router_id_unspecified = replicate 8 0

abbrev pub router_id_all_ones : List ℕ
router_id_all_ones = replicate 8 0xff

-- `NewParser` and `Reset`
abbrev pub new_parser : Parser
new_parser = record {
  default_prefix = [];
  current_next_hop = [];
  current_router_id = router_id_unspecified;
}

abbrev pub ae_wildcard : ℕ
ae_wildcard = 0

abbrev pub ae_ipv4 : ℕ
ae_ipv4 = 1

abbrev pub ae_ipv6 : ℕ
ae_ipv6 = 2

abbrev pub ae_ipv6_link_local : ℕ
ae_ipv6_link_local = 3

abbrev pub ae_ipv4_in_ipv6 : ℕ
ae_ipv4_in_ipv6 = 4

abbrev pub af_unspecified : ℕ
af_unspecified = 0

abbrev pub af_ipv4 : ℕ
af_ipv4 = 1

abbrev pub af_ipv6 : ℕ
af_ipv6 = 2

unfoldable pub address_family : ℕ → ℕ
address_family ae =
    if ae == ae_ipv4
    then af_ipv4
    else if ae == ae_ipv6 || ae == ae_ipv6_link_local || ae == ae_ipv4_in_ipv6
    then af_ipv6
    else af_unspecified

unfoldable pub router_id : Reader (List ℕ)
router_id b =
    if ltb (length b) 8
    then err too_short
    else if bytes_eq (take 8 b) router_id_unspecified || bytes_eq (take 8 b) router_id_all_ones
    then err invalid_router_id
    else ok (take 8 b, drop 8 b)

-- `dpfx.AsSlice()[:omitted]`, out of range of a shorter address.
unfoldable pub default_bytes : Parser → ℕ → ℕ → Result (List ℕ)
unfolding lookup
default_bytes p ae omitted =
    if omitted == 0 then ok [] else elim (lookup ◌==◌ ae p.default_prefix) [
      | none ↦ err missing_default_prefix
      | some a ↦ if ltb (length (as_slice a)) omitted then panic else ok (take omitted (as_slice a))
    ]

-- `abuf[rplen/8] &= uint8(math.MaxUint8 << (8 - mod))`, where the length ends inside a byte.
unfoldable pub clear_tail : ℕ → List ℕ → List ℕ
clear_tail rplen abuf =
    if rplen % 8 == 0
    then abuf
    else set abuf (rplen / 8)
        (get_or abuf (rplen / 8) 0 / 2 ^ (8 - rplen % 8) * 2 ^ (8 - rplen % 8))

abbrev pub address_length : ℕ → ℕ
address_length ae = if ae == ae_ipv6 then 16 else 4

-- `plen` is the bit pattern of an int8: from 128 on it is negative, and means the whole address.
abbrev pub real_length : ℕ → ℕ → ℕ
real_length ae plen = if leb 128 plen then address_length ae * 8 else plen

-- `blen`, a uint8: `rplen/8 - omitted` may wrap and come back by the rounding.
abbrev pub buffer_length : ℕ → ℕ → ℕ
buffer_length rplen omitted =
    ((rplen / 8 + 256 - omitted) % 256 + (if rplen % 8 == 0 then 0 else 1)) % 256

-- The buffer `abuf` filled from the default prefix and the TLV, and the address made of it.
unfoldable pub assemble : ℕ → ℕ → ℕ → List ℕ → List ℕ → Addr
assemble ae rplen omitted front body =
    let abuf = copy_at omitted (copy (replicate (address_length ae) 0) front) body in
    let masked = clear_tail rplen abuf in
    let whole = if ae == ae_ipv4_in_ipv6 then mapped_prefix ++ masked else masked in
    elim (addr_from_slice whole) [ some a ↦ a | none ↦ zero_addr ]

-- The case of the encodings IPv4, IPv6 and IPv4inIPv6.
unfoldable pub plain_address : Parser → ℕ → ℕ → ℕ → Reader Addr
plain_address p ae omitted plen b =
    let alen = address_length ae in
    let rplen = real_length ae plen in
    let blen = buffer_length rplen omitted in
    if ltb (alen * 8) rplen || ltb alen omitted || ltb ((rplen + 7) % 256 / 8) omitted
    then err invalid_address
    else if ltb (length b) blen
    then err too_short
    else elim (default_bytes p ae omitted) [
      | ok front ↦ ok (assemble ae rplen omitted front (take blen b), drop blen b)
      | err e ↦ err e
      | panic ↦ panic
      | stuck ↦ stuck
    ]

unfoldable pub link_local_address : ℕ → Reader Addr
link_local_address omitted b =
    if omitted == 0
    then if ltb (length b) 8
      then err too_short
      else ok (v6 (0xfe ∷ 0x80 ∷ replicate 6 0 ++ take 8 b), drop 8 b)
    else err invalid_address

unfoldable pub address : Parser → ℕ → ℕ → ℕ → Reader Addr
address p ae omitted plen b =
    if ae == ae_wildcard
    then ok (ipv6_unspecified, b)
    else if ae == ae_ipv4 || ae == ae_ipv6 || ae == ae_ipv4_in_ipv6
    then plain_address p ae omitted plen b
    else if ae == ae_ipv6_link_local
    then link_local_address omitted b
    else err invalid_address

unfoldable pub prefix : Parser → ℕ → ℕ → ℕ → Reader Prefix
prefix p ae plen omitted = address p ae omitted plen >>= λ a. pure (prefix_from a plen)

unfoldable pub source_prefix : Parser → ℕ → Reader Prefix
unfolding uint8
source_prefix p ae = uint8 >>= λ plen. prefix p ae plen 0
