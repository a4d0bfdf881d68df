-- ===== src/Proto/RoundTrip/Spec.antt =====
-- What a receiver makes of each TLV, and which TLVs can be sent: the specification of the encoder
-- and decoder of internal/babel/proto/parser.go.
use Prim.Native.Nat.{min}
use th.Base.{
  ℕ, ◌^◌, ◌<◌, ◌≡◌, Bool, true, false, List, ◌++◌, ◌∷◌, Option, none, some, if◌then◌else◌, length,
  bytes_eq, ◌==◌, [],
}
use th.Base.Int.{ℤ, pos, negsuc}
use th.Base.Maps.{insert}
use th.Proto.Types.{IsU16}
use th.Proto.Addr.{Addr, IsAddr, Prefix, is_valid, is4, is_unspecified}
use th.Proto.Value.{TimestampIhu, Update, Value}
use th.Proto.Value.{
  pad1, pad_n, acknowledgment_request, acknowledgment, hello, ihu, router_id_value,
}
use th.Proto.Value.{next_hop, update, route_request, seqno_request}
use th.Proto.Result.{ok}
use th.Proto.Interval.{centiseconds, duration_of}
use th.Proto.Decode.Fields.{Parser, router_id_unspecified, router_id_all_ones, af_ipv4, af_ipv6}
use th.Proto.Decode.Loop.{for_each_value}
use th.Proto.Decode.Values.{note_update, complete_update, values_callback}
use th.Proto.Encode.{append_value, value_length, sends_path_metrics, sends_path_quality}
use th.Proto.Wire.{Appends}
use th.Proto.RoundTrip.Address.{on_wire_addr}
use th.Proto.RoundTrip.Prefix.{IsSent, on_wire_prefix, prefix_ae}

-- A duration comes back in whole centiseconds.
abbrev pub on_wire_interval : ℕ → ℕ
on_wire_interval d = duration_of (centiseconds d)

-- A path metric comes back saturated below 2 ^ 32 - 1; all negative ones as -1.
abbrev pub on_wire_metric : ℤ → ℤ
on_wire_metric (pos n) = pos (min n 0xfffffffe)
on_wire_metric (negsuc n) = negsuc 0

abbrev pub update_ae : Update → ℕ
update_ae v = if v.v4_via_v6 then 4 else prefix_ae v.prefix

-- The prefix is read by the encoding that stands in the TLV: with v4-via-v6 also 0.0.0.0/0 is.
abbrev pub on_wire_update_prefix : Update → Prefix
on_wire_update_prefix v = if v.v4_via_v6 then v.prefix else on_wire_prefix v.prefix

-- The parser after a TLV was read.
abbrev pub parser_after_reading : Parser → Value → Parser
parser_after_reading p (router_id_value rid) = record p { current_router_id = rid }
parser_after_reading p (next_hop a) = record p {
  current_next_hop =
      insert ◌==◌ (if is4 (on_wire_addr a) then af_ipv4 else af_ipv6) (on_wire_addr a)
        p.current_next_hop;
}
parser_after_reading p (update v) = note_update p (update_ae v) v.flags (on_wire_update_prefix v)
parser_after_reading p _ = p

-- The path metrics are sent in two sub-TLVs or not at all; what is not sent is unknown.
abbrev pub on_wire_update_of : Bool → Bool → Update → Update
on_wire_update_of m q v = record v {
  interval = on_wire_interval v.interval;
  prefix = on_wire_update_prefix v;
  path_bottleneck_mbps = if m then v.path_bottleneck_mbps else pos 0;
  path_rtt_micros = if m then on_wire_metric v.path_rtt_micros else negsuc 0;
  path_jitter_micros = if q then on_wire_metric v.path_jitter_micros else negsuc 0;
  path_metric_age_millis = if q then on_wire_metric v.path_metric_age_millis else negsuc 0;
  path_metric_confidence = if q then v.path_metric_confidence else 0;
  path_metrics_present = m;
  path_quality_present = q;
}

abbrev pub on_wire_update : Update → Update
on_wire_update v = on_wire_update_of (sends_path_metrics v) (sends_path_quality v) v

-- The value that is read; an update takes its router-id and next hop from the parser.
abbrev pub on_wire : Parser → Value → Value
on_wire p pad1 = pad1
on_wire p (pad_n n) = pad_n n
on_wire p (acknowledgment_request opaque i) = acknowledgment_request opaque (on_wire_interval i)
on_wire p (acknowledgment opaque) = acknowledgment opaque
on_wire p (hello v) = hello (record v { interval = on_wire_interval v.interval })
on_wire p (ihu v) =
    ihu (record v { interval = on_wire_interval v.interval; address = on_wire_addr v.address })
on_wire p (router_id_value rid) = router_id_value rid
on_wire p (next_hop a) = next_hop (on_wire_addr a)
on_wire p (update v) =
    update (complete_update (parser_after_reading p (update v)) (update_ae v) (on_wire_update v))
on_wire p (route_request v) =
    route_request
      (record v { prefix = on_wire_prefix v.prefix; wildcard = is_unspecified v.prefix.addr })
on_wire p (seqno_request v) = seqno_request (record v { prefix = on_wire_prefix v.prefix })

abbrev pub IsU32Option : Option ℕ → Type 0
IsU32Option none = Unit
IsU32Option (some t) = t < 2 ^ 32

abbrev pub IsTimestampOption : Option TimestampIhu → Type 0
IsTimestampOption none = Unit
IsTimestampOption (some t) = (t.origin < 2 ^ 32) × (t.receive < 2 ^ 32)

abbrev pub IsRouterId : List ℕ → Type 0
IsRouterId rid =
    (length rid ≡ 8)
    × (bytes_eq rid router_id_unspecified ≡ false)
    × (bytes_eq rid router_id_all_ones ≡ false)

-- A valid address.
abbrev pub IsSentAddr : Addr → Type 0
IsSentAddr a = IsAddr a × (is_valid a ≡ true)

pub record IsSentUpdate (v : Update) : Type 0 where
  pub flags_u8 : v.flags < 256
  pub seqno_u16 : IsU16 v.seqno
  pub metric_u16 : IsU16 v.metric
  pub prefix_sent : IsSent v.prefix
  pub via_v4 : v.v4_via_v6 ≡ true → is4 v.prefix.addr ≡ true
  pub no_source : v.source_prefix ≡ none
  pub bottleneck : (n : ℕ) × (v.path_bottleneck_mbps ≡ pos n) × (n < 0xffffffff)
  pub confidence_u16 : IsU16 v.path_metric_confidence

-- The fields fit the wire, addresses and prefixes are valid, and there is no source prefix, which
-- the program never sends.
abbrev pub IsSentValue : Value → Type 0
IsSentValue pad1 = Unit
IsSentValue (pad_n n) = n < 256
IsSentValue (acknowledgment_request opaque i) = IsU16 opaque
IsSentValue (acknowledgment opaque) = IsU16 opaque
IsSentValue (hello v) = IsU16 v.flags × IsU16 v.seqno × IsU32Option v.timestamp
IsSentValue (ihu v) = IsU16 v.rx_cost × IsSentAddr v.address × IsTimestampOption v.timestamp
IsSentValue (router_id_value rid) = IsRouterId rid
IsSentValue (next_hop a) = IsSentAddr a
IsSentValue (update v) = IsSentUpdate v
IsSentValue (route_request v) = IsSent v.prefix × (v.source_prefix ≡ none)
IsSentValue (seqno_request v) =
    IsU16 v.seqno
    × (v.hop_count < 256)
    × IsRouterId v.router_id
    × IsSent v.prefix
    × (v.source_prefix ≡ none)

-- The bytes of a TLV: the encoder appends them, as many as `ValueLength` says, and the loop of the
-- decoder reads the value from them.
pub record ValueCode (v : Value) : Type 0 where
  pub bytes : List ℕ
  pub writes : Appends (λ b. append_value b v) bytes
  pub reads :
      (p : Parser) (vs : List Value) (rest : List ℕ)
      → for_each_value (values_callback false) (p, vs) (bytes ++ rest)
        ≡ for_each_value
            (values_callback false)
            (parser_after_reading p v, vs ++ (on_wire p v ∷ []))
            rest
  pub counted : value_length v ≡ ok (length bytes)
