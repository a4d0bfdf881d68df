-- ===== src/Proto/Tests.antt =====
-- Concrete packets of internal/babel/proto.
use th.Base.{
  ℕ, ◌%◌, ◌≤◌, ◌++◌, ◌⊎◌, ◌↔◌, true, ◌*◌, ◌^◌, ◌+◌, ◌<◌, ◌≡◌, List, [], ◌∷◌, none, some, false,
  arith,
}
use th.Base.Int.{pos, negsuc}
use th.Proto.Addr.{Addr, v4, Prefix}
use th.Proto.Value.{hello, ihu, router_id_value, update, Value, Update}
use th.Proto.Result.{Answers, ok}
use th.Proto.Types.{seqno_less}
use th.Proto.Types.Seqno.{seqno_less_steps}
use th.Proto.Interval.Seconds.{interval-append_interval}
use th.Proto.Interval.{interval, append_interval, second}
use th.Proto.Decode.Fields.{new_parser}
use th.Proto.Decode.Values.{packet}
use th.Proto.Safety.Address.{IsParser}
use th.Proto.Safety.Packets.{packet-Safe}

abbrev router : List ℕ
router = 1 ∷ 2 ∷ 3 ∷ 4 ∷ 5 ∷ 6 ∷ 7 ∷ 8 ∷ []

abbrev pfx : Prefix
pfx = record { addr = v4 (10 ∷ 1 ∷ 128 ∷ 0 ∷ []); bits_plus_one = 18 }

abbrev sent_update : Update
sent_update = record {
  flags = 0;
  interval = 16 * second;
  seqno = 9;
  metric = 96;
  prefix = pfx;
  router_id = [];
  next_hop = Addr.zero_addr;
  v4_via_v6 = false;
  path_bottleneck_mbps = pos 100;
  path_rtt_micros = pos 1500;
  path_jitter_micros = negsuc 0;
  path_metric_age_millis = pos 3;
  path_metric_confidence = 0;
  path_metrics_present = false;
  path_quality_present = false;
  source_prefix = none;
}

abbrev sent : List Value
sent =
    hello (record { flags = 0; seqno = 7; interval = 4 * second; timestamp = some 77 })
    ∷ ihu (record {
      rx_cost = 96;
      interval = 12 * second;
      address = v4 (10 ∷ 0 ∷ 0 ∷ 1 ∷ []);
      timestamp = none;
    })
    ∷ router_id_value router
    ∷ update sent_update
    ∷ []

-- The four values as a packet.
abbrev sent_bytes : List ℕ
sent_bytes =
    42 ∷ 2 ∷ 0 ∷ 77 ∷ 4 ∷ 12 ∷ 0 ∷ 0 ∷ 0 ∷ 7 ∷ 1 ∷ 144 ∷ 3 ∷ 4 ∷ 0 ∷ 0 ∷ 0 ∷ 77 ∷ 5 ∷ 10 ∷ 1 ∷ 0 ∷ 0
    ∷ 96 ∷ 4 ∷ 176 ∷ 10 ∷ 0 ∷ 0 ∷ 1 ∷ 6 ∷ 10 ∷ 0 ∷ 0 ∷ 1 ∷ 2 ∷ 3 ∷ 4 ∷ 5 ∷ 6 ∷ 7 ∷ 8 ∷ 8 ∷ 37 ∷ 1
    ∷ 0 ∷ 17 ∷ 0 ∷ 6 ∷ 64 ∷ 0 ∷ 9 ∷ 0 ∷ 96 ∷ 10 ∷ 1 ∷ 128 ∷ 4 ∷ 8 ∷ 0 ∷ 0 ∷ 0 ∷ 100 ∷ 0 ∷ 0 ∷ 5
    ∷ 220 ∷ 5 ∷ 12 ∷ 255 ∷ 255 ∷ 255 ∷ 255 ∷ 0 ∷ 0 ∷ 0 ∷ 3 ∷ 0 ∷ 0 ∷ 0 ∷ 0 ∷ []

-- 70 s come back as 4.464 s.
interval-append_interval_example :
    (d : ℕ) × (interval (append_interval [] (70 * second) ++ []) ≡ ok (d, []))
    × (((70 ≤ 65) × (d ≡ 70 * second)) ⊎ ((65 < 70) × (d < 70 * second)))
interval-append_interval_example = interval-append_interval 70 [] (omega arith)

seqno_less_steps_example :
    seqno_less 65535 3 ≡ true ↔ ((k : ℕ) × (0 < k) × (k < 32768) × (3 ≡ (65535 + k) % 2 ^ 16))
seqno_less_steps_example = seqno_less_steps 65535 3 (omega arith) (omega arith)

-- A packet that ends inside an update.
packet-Safe_example :
    IsParser (packet new_parser (42 ∷ 2 ∷ 0 ∷ 3 ∷ 8 ∷ 9 ∷ 1 ∷ [])).0
    × Answers (packet new_parser (42 ∷ 2 ∷ 0 ∷ 3 ∷ 8 ∷ 9 ∷ 1 ∷ [])).1
packet-Safe_example = packet-Safe new_parser (42 ∷ 2 ∷ 0 ∷ 3 ∷ 8 ∷ 9 ∷ 1 ∷ []) tt
