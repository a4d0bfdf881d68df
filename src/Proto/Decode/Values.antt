-- ===== src/Proto/Decode/Values.antt =====
-- The decoders of the TLVs and of a packet, internal/babel/proto/parser.go.
use Prim.Native.Nat.{bit_and}
use th.Base.{
  ℕ, Bool, true, false, not, ◌&&◌, ◌||◌, List, [], ◌∷◌, ◌++◌, Option, none, some, ltb, ◌==◌,
  if◌then◌else◌, length, take, drop,
}
use th.Base.Int.{pos, negsuc}
use th.Base.Maps.{lookup, insert}
use th.Proto.Types.{
  type_pad1, type_pad_n, type_acknowledgment_request, type_acknowledgment, type_hello, type_ihu,
  type_router_id, type_next_hop, type_update, type_route_request, type_seqno_request,
  is_trailer_type,
}
use th.Proto.Addr.{Addr, zero_addr, Prefix, router_id_from_addr}
use th.Proto.Value.{TimestampIhu, Update, Value, Packet}
use th.Proto.Value.{
  pad1, pad_n, acknowledgment_request, acknowledgment, hello, ihu, router_id_value,
}
use th.Proto.Value.{next_hop, update, route_request, seqno_request}
use th.Proto.Result.{Result, ok, err, panic, stuck, unsupported_value, invalid_value_for_trailer}
use th.Proto.Result.{invalid_magic, unsupported_version, too_short}
use th.Proto.Reader.{Reader, ◌>>=◌, ◌>>◌, pure, fail, uint8, uint16}
use th.Proto.Interval.{interval}
use th.Proto.Decode.Fields.{Parser, router_id, address, prefix, address_family}
use th.Proto.Decode.Fields.{ae_ipv4, ae_ipv4_in_ipv6, ae_wildcard, af_ipv4, af_ipv6}
use th.Proto.Decode.Loop.{for_each_value, for_each_sub_value}
use th.Proto.Decode.Sub.{hello_sub, ihu_sub, update_sub, request_sub}

-- The sub-TLVs are read into the state `s`; an error of theirs is the TLV's.
abbrev pub sub_values : {S : Type 0} → (S → ℕ → List ℕ → S × Result (List ℕ)) → S → Reader S
sub_values callback s b =
    let (s', r) = for_each_sub_value callback s b in
    elim r [ ok c ↦ ok (s', c) | err e ↦ err e | panic ↦ panic | stuck ↦ stuck ]

unfoldable pub read_acknowledgment_request : Reader Value
unfolding uint16 interval
read_acknowledgment_request = do
  uint16
  opaque ← uint16
  i ← interval
  pure (acknowledgment_request opaque i)

unfoldable pub read_acknowledgment : Reader Value
unfolding uint16
read_acknowledgment = do opaque ← uint16; pure (acknowledgment opaque)

unfoldable pub read_hello : Reader Value
unfolding uint16 interval for_each_sub_value hello_sub
read_hello = do
  flags ← uint16
  seqno ← uint16
  i ← interval
  ts ← sub_values hello_sub none
  pure (hello (record { flags = flags; seqno = seqno; interval = i; timestamp = ts }))

-- The error of the sub-TLVs is assigned and then dropped: the value is returned with no error and
-- with a nil buffer.
abbrev pub ihu_sub_values : Reader (Option TimestampIhu)
ihu_sub_values b =
    let (ts, r) = for_each_sub_value ihu_sub none b in
    elim r [ ok c ↦ ok (ts, c) | err e ↦ ok (ts, []) | panic ↦ panic | stuck ↦ stuck ]

unfoldable pub read_ihu : Parser → Reader Value
unfolding uint8 uint16 interval for_each_sub_value ihu_sub
read_ihu p = do
  ae ← uint8
  uint8
  rx_cost ← uint16
  i ← interval
  a ← address p ae 0 0xff
  ts ← ihu_sub_values
  pure (ihu (record { rx_cost = rx_cost; interval = i; address = a; timestamp = ts }))

unfoldable pub read_router_id_value : Reader (List ℕ)
unfolding uint16
read_router_id_value = uint16 >> router_id

-- The address encoding and the address.
unfoldable pub read_next_hop : Parser → Reader (ℕ × Addr)
unfolding uint8
read_next_hop p = do ae ← uint8; uint8; a ← address p ae 0 0xff; pure (ae, a)

abbrev pub next_hop_family : ℕ → ℕ
next_hop_family ae = if ae == ae_ipv4 || ae == ae_ipv4_in_ipv6 then af_ipv4 else af_ipv6

-- The address encoding and the value, before it is completed from the parser's state.
unfoldable pub read_update : Parser → Reader (ℕ × Update)
unfolding uint8 uint16 interval for_each_sub_value update_sub
read_update p = do
  ae ← uint8
  flags ← uint8
  plen ← uint8
  omitted ← uint8
  i ← interval
  seqno ← uint16
  metric ← uint16
  pfx ← prefix p (if ae == ae_ipv4_in_ipv6 then ae_ipv4 else ae) plen omitted
  v ← sub_values (update_sub p ae) (record {
    flags = flags;
    interval = i;
    seqno = seqno;
    metric = metric;
    prefix = pfx;
    router_id = [];
    next_hop = zero_addr;
    v4_via_v6 = ae == ae_ipv4_in_ipv6;
    path_bottleneck_mbps = pos 0;
    path_rtt_micros = negsuc 0;
    path_jitter_micros = negsuc 0;
    path_metric_age_millis = negsuc 0;
    path_metric_confidence = 0;
    path_metrics_present = false;
    path_quality_present = false;
    source_prefix = none;
  })
  pure (ae, v)

abbrev pub flag_update_prefix : ℕ
flag_update_prefix = 0x80

abbrev pub flag_update_router_id : ℕ
flag_update_router_id = 0x40

-- What the flags of an update do to the parser, reading and writing.
unfoldable pub note_update : Parser → ℕ → ℕ → Prefix → Parser
unfolding insert router_id_from_addr
note_update p ae flags pfx =
    let p' =
      if bit_and flags flag_update_prefix == 0
      then p
      else record p { default_prefix = insert ◌==◌ ae pfx.addr p.default_prefix } in
    if bit_and flags flag_update_router_id == 0
    then p'
    else record p' { current_router_id = router_id_from_addr pfx.addr }

-- A map read with no such key gives the zero value.
abbrev pub next_hop_of : Parser → ℕ → Addr
next_hop_of p af = elim (lookup ◌==◌ af p.current_next_hop) [ some a ↦ a | none ↦ zero_addr ]

unfoldable pub complete_update : Parser → ℕ → Update → Update
unfolding lookup address_family
complete_update p ae v = record v {
  router_id = p.current_router_id;
  next_hop = next_hop_of p (address_family ae);
}

unfoldable pub read_route_request : Parser → Reader Value
unfolding uint8 for_each_sub_value request_sub
read_route_request p = do
  ae ← uint8
  plen ← uint8
  pfx ← prefix p ae plen 0
  s ← sub_values (request_sub p ae) none
  pure (route_request (record { prefix = pfx; wildcard = ae == ae_wildcard; source_prefix = s }))

unfoldable pub read_seqno_request : Parser → Reader Value
unfolding uint8 uint16 for_each_sub_value request_sub
read_seqno_request p = do
  ae ← uint8
  plen ← uint8
  seqno ← uint16
  hops ← uint8
  uint8
  rid ← router_id
  pfx ← prefix p ae plen 0
  s ← sub_values (request_sub p ae) none
  pure (
      seqno_request (record {
        seqno = seqno;
        hop_count = hops;
        router_id = rid;
        prefix = pfx;
        source_prefix = s;
      }))

-- The parser after a successful read and the value read; the parser is unchanged by a failed one.
abbrev pub Reading : Type 0
Reading = Parser × Result (Value × List ℕ)

abbrev pub keeping : Parser → Result (Value × List ℕ) → Reading
keeping p r = (p, r)

abbrev pub noting : {A : Type 0} → Parser → Result (A × List ℕ) → (A → Parser × Value) → Reading
noting p (ok (a, c)) f = let (p', v) = f a in (p', ok (v, c))
noting p (err e) f = (p, err e)
noting p panic f = (p, panic)
noting p stuck f = (p, stuck)

unfoldable pub value_payload : Parser → ℕ → List ℕ → Reading
unfolding read_acknowledgment_request read_acknowledgment read_hello read_ihu read_router_id_value
    read_next_hop read_update note_update complete_update read_route_request read_seqno_request
    insert
value_payload p t b =
    if t == type_pad1
    then keeping p (ok (pad1, b))
    else if t == type_pad_n
    then keeping p (ok (pad_n (length b), []))
    else if t == type_acknowledgment_request
    then keeping p (read_acknowledgment_request b)
    else if t == type_acknowledgment
    then keeping p (read_acknowledgment b)
    else if t == type_hello
    then keeping p (read_hello b)
    else if t == type_ihu
    then keeping p (read_ihu p b)
    else if t == type_router_id
    then noting p (read_router_id_value b)
        (λ rid. (record p { current_router_id = rid }, router_id_value rid))
    else if t == type_next_hop
    then noting p (read_next_hop p b) (λ r. (
      record p { current_next_hop = insert ◌==◌ (next_hop_family r.0) r.1 p.current_next_hop },
      next_hop r.1,
    ))
    else if t == type_update
    then noting p (read_update p b) (λ r.
      let p' = note_update p r.0 r.1.flags r.1.prefix in (p', update (complete_update p' r.0 r.1)))
    else if t == type_route_request
    then keeping p (read_route_request p b)
    else if t == type_seqno_request
    then keeping p (read_seqno_request p b)
    else keeping p (err unsupported_value)

-- `vs = append(vs, v)`
abbrev pub collected : List Value → Reading → (Parser × List Value) × Result (List ℕ)
collected vs (p, ok (v, c)) = ((p, vs ++ (v ∷ [])), ok c)
collected vs (p, err e) = ((p, vs), err e)
collected vs (p, panic) = ((p, vs), panic)
collected vs (p, stuck) = ((p, vs), stuck)

-- The callback of `Values`, on the parser and the values so far.
unfoldable pub values_callback :
    Bool → Parser × List Value → ℕ → List ℕ → (Parser × List Value) × Result (List ℕ)
unfolding is_trailer_type
values_callback trailer (p, vs) t b =
    if trailer && not (is_trailer_type t)
    then ((p, vs), err invalid_value_for_trailer)
    else collected vs (value_payload p t b)

unfoldable pub values : Parser → List ℕ → Bool → Parser × Result (List Value)
unfolding for_each_value values_callback
values p b trailer =
    let ((p', vs), r) = for_each_value (values_callback trailer) (p, []) b in
    elim r [ ok c ↦ (p', ok vs) | err e ↦ (p', err e) | panic ↦ (p', panic) | stuck ↦ (p', stuck) ]

-- The body and the trailer, read in turn with one parser.
unfoldable pub body_and_trailer : Parser → List ℕ → List ℕ → Parser × Result Packet
unfolding values
body_and_trailer p body trailer =
    let (p', r) = values p body false in
    elim r [
      | ok vs ↦
          let (p'', q) = values p' trailer true in
          elim q [
            | ok ws ↦ (p'', ok (record { body = vs; trailer = ws }))
            | err e ↦ (p'', err e)
            | panic ↦ (p'', panic)
            | stuck ↦ (p'', stuck)
          ]
      | err e ↦ (p', err e)
      | panic ↦ (p', panic)
      | stuck ↦ (p', stuck)
    ]

abbrev pub packet_header_magic : ℕ
packet_header_magic = 42

abbrev pub packet_header_version : ℕ
packet_header_version = 2

unfoldable pub packet_header : Reader ℕ
unfolding uint8 uint16
packet_header = do
  magic ← uint8
  (if magic == packet_header_magic then pure tt else fail invalid_magic)
  version ← uint8
  (if version == packet_header_version then pure tt else fail unsupported_version)
  uint16

-- `Packet`: what follows the body is the trailer, and nothing is left over.
unfoldable pub packet : Parser → List ℕ → Parser × Result Packet
unfolding packet_header body_and_trailer
packet p b = elim (packet_header b) [
  | ok (n, c) ↦
      if ltb (length c) n then (p, err too_short) else body_and_trailer p (take n c) (drop n c)
  | err e ↦ (p, err e)
  | panic ↦ (p, panic)
  | stuck ↦ (p, stuck)
]
