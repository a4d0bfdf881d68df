-- ===== src/Proto/Encode.antt =====
-- The encoder of internal/babel/proto/parser.go. Each function appends to a buffer; a placeholder is
-- written first and set once its value is known, as in the source.
use th.Base.{
  ℕ, ◌+◌, ◌-◌, ◌*◌, ◌/◌, ◌%◌, ◌^◌, Bool, ◌&&◌, ◌||◌, not, List, [], ◌∷◌, ◌++◌, Option, none, some,
  ltb, leb, ◌==◌, if◌then◌else◌, length, set, take, drop, replicate, bytes_eq,
}
use th.Base.Int.{ℤ, pos, negsuc, ltb_ℤ}
use th.Proto.Types.{
  type_pad1, type_pad_n, type_acknowledgment_request, type_acknowledgment, type_hello, type_ihu,
  type_router_id, type_next_hop, type_update, type_route_request, type_seqno_request,
  sub_type_timestamp, sub_type_source_prefix, sub_type_path_metrics, sub_type_path_quality,
}
use th.Proto.Addr.{Addr, Prefix, is4, is6, is4in6, is_unspecified, is_link_local_unicast, as_slice}
use th.Proto.Value.{Hello, Ihu, Update, RouteRequest, SeqnoRequest, Value, Packet}
use th.Proto.Value.{
  pad1, pad_n, acknowledgment_request, acknowledgment, hello, ihu, router_id_value,
}
use th.Proto.Value.{next_hop, update, route_request, seqno_request}
use th.Proto.Result.{Result, ok, panic, ◌>>=◌}
use th.Proto.Reader.{append_uint8, append_uint16, append_uint32}
use th.Proto.Interval.{append_interval}
use th.Proto.Decode.Fields.{
  Parser, router_id_unspecified, router_id_all_ones, ae_wildcard, ae_ipv4, ae_ipv6,
  ae_ipv6_link_local, ae_ipv4_in_ipv6, real_length,
}
use th.Proto.Decode.Sub.{path_metrics_unset}
use th.Proto.Decode.Values.{note_update}

-- `addressEncoding` of compress.go; it panics on an invalid address.
unfoldable pub address_encoding : Addr → Result ℕ
address_encoding a =
    if is_unspecified a
    then ok ae_wildcard
    else if is4in6 a
    then ok ae_ipv4
    else if is6 a && is_link_local_unicast a
    then ok ae_ipv6_link_local
    else if is4 a
    then ok ae_ipv4
    else if is6 a
    then ok ae_ipv6
    else panic

-- The first `n` bytes; Go panics where a slice has fewer.
abbrev pub slice_to : List ℕ → ℕ → Result (List ℕ)
slice_to a n = if ltb (length a) n then panic else ok (take n a)

abbrev pub bytes_for : ℕ → ℕ
bytes_for rplen = rplen / 8 + (if rplen % 8 == 0 then 0 else 1)

-- `appendAddress`, with the encoding that it chose. `plen` is the bit pattern of an int8.
unfoldable pub append_address : List ℕ → Addr → ℕ → Result (List ℕ × ℕ)
unfolding address_encoding
append_address b addr plen = do
  ae ← address_encoding addr
  (if ae == ae_ipv6_link_local
      then ok (b ++ drop 8 (as_slice addr), ae)
      else if ae == ae_wildcard
      then ok (b, ae)
      else do
        a ←
            slice_to (if ae == ae_ipv4_in_ipv6 then drop 12 (as_slice addr) else as_slice addr)
              (bytes_for (real_length ae plen))
        ok (b ++ a, ae))

-- `uint8(pfx.Bits())` and `int8(pfx.Bits())`, one bit pattern; -1 for an invalid prefix.
abbrev pub bits_byte : Prefix → ℕ
bits_byte pfx = (pfx.bits_plus_one + 255) % 256

-- The buffer, the encoding, the prefix length and the number of omitted bytes.
unfoldable pub append_prefix : List ℕ → Prefix → Result (List ℕ × ℕ × ℕ × ℕ)
unfolding append_address
append_prefix b pfx = do
  (c, ae) ← append_address b pfx.addr (bits_byte pfx)
  ok (c, ae, bits_byte pfx, 0)

-- `appendValueHeader`: the length byte is set when the payload is there.
unfoldable pub append_value_header : List ℕ → ℕ → (List ℕ → Result (List ℕ)) → Result (List ℕ)
unfolding append_uint8
append_value_header b t callback = do
  c ← callback (append_uint8 (append_uint8 b t) 0)
  ok (set c (length b + 1) ((length c - length b - 2) % 256))

unfoldable pub append_router_id : List ℕ → List ℕ → Result (List ℕ)
append_router_id b rid =
    if bytes_eq rid router_id_unspecified || bytes_eq rid router_id_all_ones
    then panic
    else ok (b ++ rid)

unfoldable pub append_pad_n : List ℕ → ℕ → List ℕ
append_pad_n b n = b ++ replicate n 0

unfoldable pub append_acknowledgment_request : List ℕ → ℕ → ℕ → List ℕ
unfolding append_uint16 append_interval
append_acknowledgment_request b opaque i =
    append_interval (append_uint16 (append_uint16 b 0) opaque) i

unfoldable pub append_hello : List ℕ → Hello → Result (List ℕ)
unfolding append_uint16 append_uint32 append_interval append_value_header
append_hello b v =
    let c = append_interval (append_uint16 (append_uint16 b v.flags) v.seqno) v.interval in
    elim v.timestamp [
      | none ↦ ok c
      | some transmit ↦
          append_value_header c sub_type_timestamp (λ d. ok (append_uint32 d transmit))
    ]

unfoldable pub append_ihu : List ℕ → Ihu → Result (List ℕ)
unfolding append_uint8 append_uint16 append_uint32 append_interval append_value_header
append_ihu b v = do
  let c = append_interval (append_uint16 (append_uint8 (append_uint8 b 0) 0) v.rx_cost) v.interval
  (d, ae) ← append_address c v.address 0xff
  let e = set d (length b) ae
  elim v.timestamp [
    | none ↦ ok e
    | some ts ↦
        append_value_header e sub_type_timestamp
          (λ f. ok (append_uint32 (append_uint32 f ts.origin) ts.receive))
  ]

unfoldable pub append_router_id_value : List ℕ → List ℕ → Result (List ℕ)
unfolding append_uint16 append_router_id
append_router_id_value b rid = append_router_id (append_uint16 b 0) rid

unfoldable pub append_next_hop : List ℕ → Addr → Result (List ℕ)
unfolding append_uint8
append_next_hop b a = do
  (c, ae) ← append_address (append_uint8 (append_uint8 b 0) 0) a 0xff
  ok (set c (length b) ae)

unfoldable pub append_source_prefix : List ℕ → Prefix → Result (List ℕ)
unfolding append_value_header append_uint8
append_source_prefix b pfx = append_value_header b sub_type_source_prefix (λ c. do
  (d, ae, plen, omitted) ← append_prefix (append_uint8 c 0) pfx
  ok (set d (length c) plen))

unfoldable pub append_source_prefix? : List ℕ → Option Prefix → Result (List ℕ)
unfolding append_source_prefix
append_source_prefix? b none = ok b
append_source_prefix? b (some pfx) = append_source_prefix b pfx

-- `uint32(mbps)` keeps the low 32 bits.
unfoldable pub encode_bottleneck : ℤ → ℕ
encode_bottleneck (pos n) = if n == 0 then path_metrics_unset else n % 2 ^ 32
encode_bottleneck (negsuc n) = path_metrics_unset

unfoldable pub encode_path_rtt : ℤ → ℕ
encode_path_rtt (pos n) = if leb path_metrics_unset n then path_metrics_unset - 1 else n
encode_path_rtt (negsuc n) = path_metrics_unset

unfoldable pub encode_path_quality_metric : ℤ → ℕ
encode_path_quality_metric (pos n) = if leb path_metrics_unset n then path_metrics_unset - 1 else n
encode_path_quality_metric (negsuc n) = path_metrics_unset

unfoldable pub append_path_metrics : List ℕ → ℤ → ℤ → Result (List ℕ)
unfolding append_value_header append_uint32 encode_bottleneck encode_path_rtt
append_path_metrics b bottleneck rtt =
    append_value_header b sub_type_path_metrics (λ c.
      ok (append_uint32 (append_uint32 c (encode_bottleneck bottleneck)) (encode_path_rtt rtt)))

unfoldable pub append_path_quality : List ℕ → ℤ → ℤ → ℕ → Result (List ℕ)
unfolding append_value_header append_uint16 append_uint32 encode_path_quality_metric
append_path_quality b jitter age confidence = append_value_header b sub_type_path_quality (λ c.
    let d = append_uint32 c (encode_path_quality_metric jitter) in
    let e = append_uint32 d (encode_path_quality_metric age) in
    ok (append_uint16 (append_uint16 e confidence) 0))

abbrev pub sends_path_metrics : Update → Bool
sends_path_metrics v =
    ltb_ℤ (pos 0) v.path_bottleneck_mbps
    || ltb_ℤ v.path_bottleneck_mbps (pos 0)
    || ltb_ℤ (pos 0) v.path_rtt_micros

abbrev pub sends_path_quality : Update → Bool
sends_path_quality v =
    ltb_ℤ (pos 0) v.path_jitter_micros
    || ltb_ℤ (pos 0) v.path_metric_age_millis
    || not (v.path_metric_confidence == 0)

-- The header of an update with its prefix, and the encoding that stands in it.
unfoldable pub append_update_header : List ℕ → Update → Result (List ℕ × ℕ)
unfolding append_uint8 append_uint16 append_interval
append_update_header b v = do
  let c = append_uint8 (append_uint8 (append_uint8 (append_uint8 b 0) v.flags) 0) 0
  let d = append_uint16 (append_uint16 (append_interval c v.interval) v.seqno) v.metric
  (e, chosen, plen, omitted) ← append_prefix d v.prefix
  let ae = if v.v4_via_v6 then ae_ipv4_in_ipv6 else chosen
  ok (set (set (set e (length b) ae) (length b + 2) plen) (length b + 3) omitted, ae)

unfoldable pub append_update_sub_values : List ℕ → Update → Result (List ℕ)
unfolding append_source_prefix? append_path_metrics append_path_quality
append_update_sub_values b v = do
  c ← append_source_prefix? b v.source_prefix
  d ←
      (if sends_path_metrics v
        then append_path_metrics c v.path_bottleneck_mbps v.path_rtt_micros
        else ok c)
  (if sends_path_quality v
      then append_path_quality d v.path_jitter_micros v.path_metric_age_millis
          v.path_metric_confidence
      else ok d)

unfoldable pub append_update : List ℕ → Update → Result (List ℕ)
unfolding append_update_header append_update_sub_values
append_update b v = do (c, ae) ← append_update_header b v; append_update_sub_values c v

unfoldable pub append_route_request : List ℕ → RouteRequest → Result (List ℕ)
unfolding append_uint8 append_source_prefix?
append_route_request b v = do
  (c, ae, plen, omitted) ← append_prefix (append_uint8 (append_uint8 b 0) 0) v.prefix
  append_source_prefix? (set (set c (length b) ae) (length b + 1) plen) v.source_prefix

unfoldable pub append_seqno_request : List ℕ → SeqnoRequest → Result (List ℕ)
unfolding append_uint8 append_uint16 append_router_id append_source_prefix?
append_seqno_request b v = do
  let c = append_uint16 (append_uint8 (append_uint8 b 0) 0) v.seqno
  d ← append_router_id (append_uint8 (append_uint8 c v.hop_count) 0) v.router_id
  (e, ae, plen, omitted) ← append_prefix d v.prefix
  append_source_prefix? (set (set e (length b) ae) (length b + 1) plen) v.source_prefix

-- The parser that `appendUpdate` leaves: the encoding is the one that the header got.
unfoldable pub parser_after : Parser → Value → Result Parser
unfolding append_update_header note_update
parser_after p (update v) = do
  (c, ae) ← append_update_header [] v
  ok (note_update p ae v.flags v.prefix)
parser_after p v = ok p

unfoldable pub append_value : List ℕ → Value → Result (List ℕ)
unfolding append_uint8 append_uint16 append_value_header append_pad_n append_acknowledgment_request
    append_hello append_ihu append_router_id_value append_next_hop append_update
    append_route_request append_seqno_request
append_value b pad1 = ok (append_uint8 b type_pad1)
append_value b (pad_n n) = append_value_header b type_pad_n (λ c. ok (append_pad_n c n))
append_value b (acknowledgment_request opaque i) =
    append_value_header b type_acknowledgment_request
      (λ c. ok (append_acknowledgment_request c opaque i))
append_value b (acknowledgment opaque) =
    append_value_header b type_acknowledgment (λ c. ok (append_uint16 c opaque))
append_value b (hello v) = append_value_header b type_hello (λ c. append_hello c v)
append_value b (ihu v) = append_value_header b type_ihu (λ c. append_ihu c v)
append_value b (router_id_value rid) =
    append_value_header b type_router_id (λ c. append_router_id_value c rid)
append_value b (next_hop a) = append_value_header b type_next_hop (λ c. append_next_hop c a)
append_value b (update v) = append_value_header b type_update (λ c. append_update c v)
append_value b (route_request v) =
    append_value_header b type_route_request (λ c. append_route_request c v)
append_value b (seqno_request v) =
    append_value_header b type_seqno_request (λ c. append_seqno_request c v)

unfoldable pub append_values : List ℕ → List Value → Result (List ℕ)
unfolding append_value
append_values b [] = ok b
append_values b (v ∷ vs) = append_value b v >>= λ c. append_values c vs

unfoldable pub append_packet_header : List ℕ → List ℕ
unfolding append_uint8 append_uint16
append_packet_header b = append_uint16 (append_uint8 (append_uint8 b 42) 2) 0

-- `binary.BigEndian.PutUint16(b[o:], v)`
abbrev pub put_uint16 : List ℕ → ℕ → ℕ → List ℕ
put_uint16 b o v = set (set b o (v / 256 % 256)) (o + 1) (v % 256)

unfoldable pub append_packet : List ℕ → Packet → Result (List ℕ)
unfolding append_packet_header append_values
append_packet b pkt = do
  c ← append_values (append_packet_header b) pkt.body
  let body_length = length c - length b - 4
  d ← append_values c pkt.trailer
  ok (put_uint16 d (length b + 2) body_length)

-- `StartPacket` resets the parser and empties the buffer, and `FinalizePacket` fills in the length.
unfoldable pub start_packet : List ℕ
unfolding append_packet_header
start_packet = append_packet_header []

unfoldable pub finalize_packet : List ℕ → List ℕ
finalize_packet b = put_uint16 b 2 (length b - 4)

-- `ValueLength`, with the panics of `addressLength`.
abbrev pub prefix_length : Prefix → ℕ
prefix_length pfx = if pfx.bits_plus_one == 0 then 1 else bytes_for (pfx.bits_plus_one - 1)

unfoldable pub encoded_address_length : Addr → Result ℕ
unfolding address_encoding
encoded_address_length a = do
  ae ← address_encoding a
  (if ae == ae_wildcard
      then ok 0
      else if ae == ae_ipv4 || ae == ae_ipv4_in_ipv6
      then ok 4
      else if ae == ae_ipv6
      then ok 16
      else ok 8)

abbrev pub source_prefix_length : Option Prefix → ℕ
source_prefix_length none = 0
source_prefix_length (some pfx) = 2 + 1 + prefix_length pfx

unfoldable pub value_length : Value → Result ℕ
value_length pad1 = ok 1
value_length (pad_n n) = ok (2 + n)
value_length (acknowledgment_request opaque i) = ok (2 + 6)
value_length (acknowledgment opaque) = ok (2 + 2)
value_length (hello v) = ok (2 + 6 + elim v.timestamp [ none ↦ 0 | some t ↦ 2 + 4 ])
value_length (ihu v) = encoded_address_length v.address >>= λ n.
    ok (2 + 6 + n + elim v.timestamp [ none ↦ 0 | some t ↦ 2 + 2 * 4 ])
value_length (router_id_value rid) = ok (2 + 2 + 8)
value_length (next_hop a) = encoded_address_length a >>= λ n. ok (2 + 2 + n)
value_length (update v) = ok (
    2
    + 10
    + prefix_length v.prefix
    + source_prefix_length v.source_prefix
    + (if sends_path_metrics v then 2 + 8 else 0)
    + (if sends_path_quality v then 2 + 12 else 0))
value_length (route_request v) =
    ok (2 + 2 + prefix_length v.prefix + source_prefix_length v.source_prefix)
value_length (seqno_request v) =
    ok (2 + 14 + prefix_length v.prefix + source_prefix_length v.source_prefix)
