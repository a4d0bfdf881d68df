-- ===== src/Proto/Types.antt =====
-- internal/babel/proto/types.go and the type numbers of internal/babel/proto/tlv.go: sequence
-- numbers modulo 2 ^ 16 and the classes of TLV types. A uint16 is a number below 2 ^ 16, and an
-- int16 is the integer that its bit pattern stands for.
pub mod Seqno
use Prim.Native.Nat.{bit_and}
use th.Base.{ℕ, suc, ◌+◌, ◌-◌, ◌%◌, ◌^◌, ◌<◌, Bool, ◌||◌, not, ltb, ◌==◌, if◌then◌else◌}
use th.Base.Int.{ℤ, pos, negsuc, ltb_ℤ}

abbrev pub retraction : ℕ
retraction = 0xffff

abbrev pub IsU16 : ℕ → Type 0
IsU16 n = n < 2 ^ 16

abbrev pub signed16 : ℕ → ℤ
signed16 w = if ltb w 32768 then pos w else negsuc (65535 - w)

-- Negation of an int16; the least one is its own negation.
abbrev pub neg16 : ℤ → ℤ
neg16 (pos n) = if n == 0 then pos 0 else negsuc (n - 1)
neg16 (negsuc n) = if n == 32767 then negsuc 32767 else pos (suc n)

unfoldable pub seqno_distance : ℕ → ℕ → ℤ
seqno_distance a b = signed16 ((b + 2 ^ 16 - a) % 2 ^ 16)

unfoldable pub seqno_abs_distance : ℕ → ℕ → ℤ
unfolding seqno_distance
seqno_abs_distance a b = let d = seqno_distance a b in if ltb_ℤ (pos 0) d then d else neg16 d

unfoldable pub seqno_less : ℕ → ℕ → Bool
unfolding seqno_distance
seqno_less a b = ltb_ℤ (pos 0) (seqno_distance a b)

abbrev pub type_pad1 : ℕ
type_pad1 = 0

abbrev pub type_pad_n : ℕ
type_pad_n = 1

abbrev pub type_acknowledgment_request : ℕ
type_acknowledgment_request = 2

abbrev pub type_acknowledgment : ℕ
type_acknowledgment = 3

abbrev pub type_hello : ℕ
type_hello = 4

abbrev pub type_ihu : ℕ
type_ihu = 5

abbrev pub type_router_id : ℕ
type_router_id = 6

abbrev pub type_next_hop : ℕ
type_next_hop = 7

abbrev pub type_update : ℕ
type_update = 8

abbrev pub type_route_request : ℕ
type_route_request = 9

abbrev pub type_seqno_request : ℕ
type_seqno_request = 10

abbrev pub type_mac : ℕ
type_mac = 16

abbrev pub sub_type_pad1 : ℕ
sub_type_pad1 = 0

abbrev pub sub_type_pad_n : ℕ
sub_type_pad_n = 1

abbrev pub sub_type_diversity : ℕ
sub_type_diversity = 2

abbrev pub sub_type_timestamp : ℕ
sub_type_timestamp = 3

abbrev pub sub_type_path_metrics : ℕ
sub_type_path_metrics = 4

abbrev pub sub_type_path_quality : ℕ
sub_type_path_quality = 5

abbrev pub sub_type_source_prefix : ℕ
sub_type_source_prefix = 128

unfoldable pub is_mandatory : ℕ → Bool
is_mandatory t = not (bit_and t 0x80 == 0)

unfoldable pub is_sub_type : ℕ → Bool
is_sub_type t =
    t == sub_type_pad1
    || t == sub_type_pad_n
    || t == sub_type_diversity
    || t == sub_type_timestamp
    || t == sub_type_path_metrics
    || t == sub_type_path_quality
    || t == sub_type_source_prefix

unfoldable pub is_trailer_type : ℕ → Bool
is_trailer_type t = t == type_pad1 || t == type_pad_n || t == type_mac
