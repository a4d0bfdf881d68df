-- ===== src/Proto/Value.antt =====
-- The TLV values of internal/babel/proto/tlv_*.go and the packet of proto.go. A duration is a
-- number of nanoseconds; negative ones do not occur in a TLV.
use th.Base.{ℕ, List, Option, Bool}
use th.Base.Int.{ℤ}
use th.Proto.Addr.{Addr, Prefix}

pub record Hello : Type 0 where
  pub flags : ℕ
  pub seqno : ℕ
  pub interval : ℕ
  pub timestamp : Option ℕ

pub record TimestampIhu : Type 0 where
  pub origin : ℕ
  pub receive : ℕ

pub record Ihu : Type 0 where
  pub rx_cost : ℕ
  pub interval : ℕ
  pub address : Addr
  pub timestamp : Option TimestampIhu

pub record Update : Type 0 where
  pub flags : ℕ
  pub interval : ℕ
  pub seqno : ℕ
  pub metric : ℕ
  pub prefix : Prefix
  pub router_id : List ℕ
  pub next_hop : Addr
  pub v4_via_v6 : Bool
  pub path_bottleneck_mbps : ℤ
  pub path_rtt_micros : ℤ
  pub path_jitter_micros : ℤ
  pub path_metric_age_millis : ℤ
  pub path_metric_confidence : ℕ
  pub path_metrics_present : Bool
  pub path_quality_present : Bool
  pub source_prefix : Option Prefix

pub record RouteRequest : Type 0 where
  pub prefix : Prefix
  pub wildcard : Bool
  pub source_prefix : Option Prefix

pub record SeqnoRequest : Type 0 where
  pub seqno : ℕ
  pub hop_count : ℕ
  pub router_id : List ℕ
  pub prefix : Prefix
  pub source_prefix : Option Prefix

-- The interface type `Value`, with the types that `ValuesType` knows.
pub data Value : Type 0 where
  pad1 : Value
  pad_n : ℕ → Value
  acknowledgment_request : ℕ → ℕ → Value
  acknowledgment : ℕ → Value
  hello : Hello → Value
  ihu : Ihu → Value
  router_id_value : List ℕ → Value
  next_hop : Addr → Value
  update : Update → Value
  route_request : RouteRequest → Value
  seqno_request : SeqnoRequest → Value

pub record Packet : Type 0 where
  pub body : List Value
  pub trailer : List Value
