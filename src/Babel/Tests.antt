-- ===== src/Babel/Tests.antt =====
-- Concrete histories, sources, paths and queues of internal/babel.
use Prim.Native.Nat.{min}
use th.Base.{
  inl, Option, none, ℕ, ◌+◌, ◌*◌, ◌%◌, ◌^◌, ◌<◌, ◌≡◌, ◌⊎◌, refl, true, false, ◌||◌, ◌==◌, List, [],
  ◌∷◌, ◌++◌, some, All, leb, arith, if◌then◌else◌,
}
use th.Proto.Types.{retraction, seqno_less}
use th.Proto.Addr.{zero_prefix, zero_addr, v6}
use th.Proto.Value.{Value, hello, acknowledgment}
use th.Proto.Result.{ok}
use th.Proto.Interval.{
  second, centiseconds, seconds, round53, excess_bits, half_even, quotient_exponent,
}
use th.Proto.Encode.{append_value, value_length, start_packet, finalize_packet}
use th.Proto.Decode.Fields.{new_parser}
use th.Proto.Decode.Values.{packet}
use th.Proto.RoundTrip.Spec.{IsSentValue}
use th.Proto.RoundTrip.Packets.{body_only, parser_after_values, on_wire_values}
use th.Babel.History.{HelloHistory, update, out_of, ones_count}
use th.Babel.History.Window.{out_of-ones_count}
use th.Babel.History.Update.{IsValid, missed_times, update_ahead, update_late, update_opposite}
use th.Babel.Source.{Source, update_feasibility, feasible}
use th.Babel.Source.Distance.{advertise, feasible-update_feasibility, feasible-advertise}
use th.Babel.Cost.{Reception, override_or, default_rx_cost, default_metric, add_metric_penalty}
use th.Babel.Cost.Metric.{
  sum, is_down, path_metric, path_metric-sum, add_metric_penalty-default_metric,
}
use th.Babel.Cost.Hellos.{default_rx_cost-missed, default_rx_cost-received}
use th.Base.Int.{pos, negsuc}
use th.Babel.Routes.{Neighbour, Route, RouteTable, key}
use th.Babel.Delay.{new_window, recent_ordered, PathDelayQuality}
use th.Babel.Delay.Laws.{push_all, recent_ordered-push_all}
use th.Babel.Deadline.{Deadline, new_deadline, reset_timer, stop, close, fire}
use th.Babel.Deadline.Stale.{Reach, here, next_step, step_reset, Has, fire-stop}
use th.Babel.Queue.Drain.{Fits, concat, Carried, run-concat}
use th.Babel.Queue.{run, send}
use th.Babel.Queue.Send.{stamp_all}
use th.Babel.Queue.Packets.{packet-send, send_oversized}

-- Of the last three Hellos, the middle one was missed.
abbrev history : HelloHistory
history = record { expected_seqno = 65535; vector = 5 }

history-IsValid : IsValid history
history-IsValid = record { seqno_u16 = omega arith; vector_u16 = omega arith }

out_of-ones_count_example : out_of history 2 3 ≡ leb 2 (ones_count 3 5)
out_of-ones_count_example = out_of-ones_count history 2 3 (omega arith)

update_ahead_example :
    update history ((65535 + 2) % 2 ^ 16) ≡ update (missed_times 2 history) ((65535 + 2) % 2 ^ 16)
update_ahead_example = update_ahead history 2 history-IsValid (omega arith)

update_late_example : update (missed_times 3 history) 65535 ≡ update history 65535
update_late_example = update_late history 3 history-IsValid (omega arith) (omega arith)

update_opposite_example : update history ((65535 + 32768) % 2 ^ 16) ≡ (
  record { expected_seqno = (65535 + 32769) % 2 ^ 16; vector = (update history 65535).0.vector },
  false,
)
update_opposite_example = update_opposite history history-IsValid

abbrev source : Source
source = record { prefix = zero_prefix; router_id = []; metric = 100; seqno = 65535; gc = 0 }

feasible-update_feasibility_example : feasible (update_feasibility source 3 200).0 3 200 ≡ false
feasible-update_feasibility_example = feasible-update_feasibility source 3 200 (omega arith)

feasible-advertise_example :
    All (λ (a : ℕ × ℕ). (a.0 < 3) ⊎ ((a.0 ≡ 3) × (40 < a.1))) ((0, 90) ∷ (2, 300) ∷ (3, 50) ∷ [])
unfolding feasible seqno_less advertise
feasible-advertise_example =
    feasible-advertise source ((0, 90) ∷ (2, 300) ∷ (3, 50) ∷ []) 3 40 (omega arith)
      (omega arith, (omega arith, (omega arith, tt))) (omega arith) refl

path_metric-sum_example : path_metric (96 ∷ 65000 ∷ 1000 ∷ []) 0 ≡ (
    if is_down (96 ∷ 65000 ∷ 1000 ∷ []) || 0 == retraction
    then retraction
    else min (sum (96 ∷ 65000 ∷ 1000 ∷ []) + 0) 65534)
path_metric-sum_example =
    path_metric-sum (96 ∷ 65000 ∷ 1000 ∷ []) 0 (omega arith, (omega arith, (omega arith, tt)))
      (omega arith)

add_metric_penalty-default_metric_example : add_metric_penalty 96 65534 ≡ default_metric 96 65534
add_metric_penalty-default_metric_example =
    add_metric_penalty-default_metric 96 65534 (omega arith) (omega arith)

abbrev reception : Reception
reception = record { hello_unicast = history; hello_multicast = history; cost_override = some 50 }

default_rx_cost-missed_example :
    default_rx_cost
      (record reception {
        hello_unicast = missed_times 2 history;
        hello_multicast = missed_times 2 history;
      })
      96
    ≡ retraction
default_rx_cost-missed_example = default_rx_cost-missed reception 96 history-IsValid history-IsValid

default_rx_cost-received_example :
    default_rx_cost
      (record reception {
        hello_multicast = (update (update history 65535).0 ((65535 + 1) % 2 ^ 16)).0;
      })
      96
    ≡ override_or (some 50) 96
default_rx_cost-received_example = default_rx_cost-received reception 96 history-IsValid

-- A Hello of 14 bytes and two acknowledgments of 4: with an mtu of 20, the second one waits.
abbrev queued : List Value
queued =
    hello (record { flags = 0; seqno = 1; interval = 4 * second; timestamp = some 0 })
    ∷ acknowledgment 7
    ∷ acknowledgment 8
    ∷ []

queued-IsSent : All IsSentValue queued
queued-IsSent = ((omega arith, omega arith, omega arith), (omega arith, (omega arith, tt)))

abbrev clock : ℕ → ℕ
clock n = 5000000000 + n

send_oversized_example : send 17 clock queued ≡ ok (start_packet, queued, false)
send_oversized_example =
    send_oversized 17 clock
      (hello (record { flags = 0; seqno = 1; interval = 4 * second; timestamp = some 0 }))
      (acknowledgment 7 ∷ acknowledgment 8 ∷ []) 14 (unfold value_length in refl) (omega arith)

-- The packet of the first two values.
abbrev sent_bytes : List ℕ
sent_bytes =
    42 ∷ 2 ∷ 0 ∷ 18 ∷ 4 ∷ 12 ∷ 0 ∷ 0 ∷ 0 ∷ 1 ∷ 1 ∷ 144 ∷ 3 ∷ 4 ∷ 42 ∷ 5 ∷ 242 ∷ 0 ∷ 3 ∷ 2 ∷ 0 ∷ 7
    ∷ []

send_lem : send 22 clock queued ≡ ok (sent_bytes, acknowledgment 8 ∷ [], false)
unfolding send start_packet finalize_packet value_length append_value centiseconds seconds round53
    excess_bits half_even quotient_exponent
send_lem = refl

queued-Fits : All (Fits 22) queued
unfolding value_length
queued-Fits = ((14, refl, omega arith), ((4, refl, omega arith), ((4, refl, omega arith), tt)))

run-concat_example :
    (chunks : List (List Value)) × (packets : List (List ℕ)) × (queued ≡ concat chunks)
    × (run 22 (λ n. clock) 4 queued ≡ ok (packets, []))
    × Carried (λ n. clock) 4 chunks packets
run-concat_example =
    run-concat 22 (λ n. clock) 3 queued (omega arith) queued-IsSent queued-Fits (omega arith)

packet-send_example :
    (taken : List Value) × (queued ≡ taken ++ (acknowledgment 8 ∷ []))
    × (packet new_parser sent_bytes ≡ (
      parser_after_values new_parser (stamp_all clock 0 taken),
      ok (body_only (on_wire_values new_parser (stamp_all clock 0 taken))),
    ))
packet-send_example =
    packet-send new_parser 22 clock queued (acknowledgment 8 ∷ []) sent_bytes false queued-IsSent
      (omega arith) (omega arith) send_lem

abbrev neighbour : Neighbour
neighbour = record {
  id = 1;
  address = v6 (0xfe ∷ 0x80 ∷ 0 ∷ 0 ∷ 0 ∷ 0 ∷ 0 ∷ 0 ∷ 0 ∷ 0 ∷ 0 ∷ 0 ∷ 0 ∷ 0 ∷ 0 ∷ 1 ∷ []);
}

abbrev route : Option Neighbour → Route
route n = record {
  source = source;
  neighbour = n;
  advertised_metric = 0;
  metric = 96;
  smoothed_metric = 96;
  seqno = 1;
  next_hop = zero_addr;
  feasible = true;
  selected = false;
  local = false;
  expiry = none;
  expired = false;
  path_bottleneck_mbps = pos 0;
  path_rtt_micros = negsuc 0;
  path_jitter_micros = negsuc 0;
  path_metric_age_millis = negsuc 0;
  path_metric_confidence = 0;
  path_metrics_received_at = none;
}

-- A local route and one of the neighbour, for the same prefix.
abbrev table : RouteTable
table = (key (route none), route none) ∷ (key (route (some neighbour)), route (some neighbour)) ∷ []

abbrev unmeasured : PathDelayQuality
unmeasured = record {
  rtt_micros = negsuc 0;
  jitter_micros = negsuc 0;
  age_millis = negsuc 0;
  confidence_q16 = 0;
}

abbrev measured : PathDelayQuality
measured = record {
  rtt_micros = pos 900;
  jitter_micros = pos 20;
  age_millis = pos 3;
  confidence_q16 = 60000;
}

recent_ordered-push_all_example :
    recent_ordered (push_all new_window ((5 ∷ 6 ∷ []) ++ (7 ∷ 8 ∷ 9 ∷ []))) ≡ 7 ∷ 8 ∷ 9 ∷ []
recent_ordered-push_all_example = recent_ordered-push_all (5 ∷ 6 ∷ []) 7 8 9

-- The deadline was set twice.
abbrev deadline : Deadline
deadline = reset_timer (reset_timer new_deadline)

deadline-Reach : Reach deadline
unfolding reset_timer
deadline-Reach = next_step (next_step here (step_reset (omega arith))) (step_reset (omega arith))

deadline-timers : (deadline.generation + 1 < 2 ^ 64) × Has 2 deadline.timers
unfolding reset_timer
deadline-timers = (omega arith, inl refl)

fire-stop_example :
    (fire 2 (stop deadline) ≡ stop deadline)
    × (fire 2 (reset_timer deadline) ≡ reset_timer deadline)
    × (fire 2 (close deadline) ≡ close deadline)
fire-stop_example = fire-stop deadline 2 deadline-Reach deadline-timers.0 deadline-timers.1
