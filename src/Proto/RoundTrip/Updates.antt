-- ===== src/Proto/RoundTrip/Updates.antt =====
-- Updates.
use mathlib.Core.List.{append_assoc}
use th.Base.{
  ℕ, ◌+◌, ◌-◌, ◌≤◌, ◌<◌, ◌≡◌, refl, List, [], ◌∷◌, ◌++◌, Bool, true, false, none, length,
  length-append, arith, ap, ◌∙◌, if◌then◌else◌, set, ◌==◌,
}
use th.Base.Int.{ℤ, pos, negsuc}
use th.Proto.Addr.{Prefix, is4, zero_addr}
use th.Proto.Value.{Update, update}
use th.Proto.Result.{ok}
use th.Proto.Interval.{centiseconds}
use th.Proto.Decode.Fields.{Parser, prefix}
use th.Proto.Decode.Loop.{for_each_sub_value}
use th.Proto.Decode.Sub.{update_sub}
use th.Proto.Decode.Values.{value_payload, read_update, complete_update}
use th.Proto.Encode.{
  append_value, append_update, append_update_header, value_length, sends_path_metrics,
  sends_path_quality,
}
use th.Proto.Wire.{Appends, tlv, be16, append_value_header-Appends, set-append}
use th.Proto.RoundTrip.Prefix.{PrefixCode, prefix_code, prefix_ae, on_wire_prefix}
use th.Proto.RoundTrip.Spec.{
  IsSentValue, ValueCode, on_wire, parser_after_reading, IsSentUpdate, update_ae,
  on_wire_update_prefix, on_wire_interval, on_wire_update, on_wire_update_of,
}
use th.Proto.RoundTrip.Simple.{values_callback_reads, be16_value, centiseconds-u16}
use th.Proto.RoundTrip.Metrics.{
  sub_bytes, sub_bytes_of, sub_values_writes, sub_values_reads, with_metrics, with_quality,
}

-- The prefix is read by the encoding in the TLV, and by that of IPv4 for v4-via-v6.
update_prefix_reads :
    (via : Bool) (pfx : Prefix) (code : PrefixCode pfx) (p : Parser) (rest : List ℕ)
    → (via ≡ true → is4 pfx.addr ≡ true)
    → prefix p
        (if via then 1 else if via then 4 else prefix_ae pfx)
        (pfx.bits_plus_one - 1)
        0
        (code.bytes ++ rest)
      ≡ ok (if via then pfx else on_wire_prefix pfx, rest)
update_prefix_reads true pfx code p rest h = code.reads_v4 (h refl) p rest
update_prefix_reads false pfx code p rest h = rw (← code.chosen) (code.reads p rest)

-- The update that is read before its sub-TLVs are.
abbrev read_so_far : Bool → Update → Update
read_so_far via v = record v {
  interval = on_wire_interval v.interval;
  prefix = on_wire_update_prefix v;
  router_id = [];
  next_hop = zero_addr;
  v4_via_v6 = via;
  path_bottleneck_mbps = pos 0;
  path_rtt_micros = negsuc 0;
  path_jitter_micros = negsuc 0;
  path_metric_age_millis = negsuc 0;
  path_metric_confidence = 0;
  path_metrics_present = false;
  path_quality_present = false;
  source_prefix = none;
}

sub_values_complete :
    (m q : Bool) (n : ℕ) (v : Update)
    → v.path_bottleneck_mbps ≡ pos n
    → v.source_prefix ≡ none
    → with_quality q v.path_jitter_micros v.path_metric_age_millis v.path_metric_confidence
        (with_metrics m (pos n) v.path_rtt_micros (read_so_far v.v4_via_v6 v))
      ≡ record (on_wire_update_of m q v) { router_id = []; next_hop = zero_addr }
sub_values_complete true true n v b s = ground (arith, b, s)
sub_values_complete true false n v b s = ground (arith, b, s)
sub_values_complete false true n v b s = ground (arith, b, s)
sub_values_complete false false n v b s = ground (arith, b, s)

length-sub_bytes_of :
    (m q : Bool) (b r j a : ℤ) (c : ℕ)
    → length (sub_bytes_of m q b r j a c) ≡ (if m then 2 + 8 else 0) + (if q then 2 + 12 else 0)
length-sub_bytes_of true true b r j a c = refl
length-sub_bytes_of true false b r j a c = refl
length-sub_bytes_of false true b r j a c = refl
length-sub_bytes_of false false b r j a c = refl

-- The encoding says whether the prefix goes via IPv6.
ae_via : (via : Bool) (pfx : Prefix) → ((if via then 4 else prefix_ae pfx) == 4) ≡ via
ae_via via pfx = ground arith

-- The placeholders for the encoding, the prefix length and the omitted bytes are set.
set_update_heads :
    (b w : List ℕ) (x f y : ℕ)
    → set (set (set (b ++ (0 ∷ f ∷ 0 ∷ 0 ∷ w)) (length b) x) (length b + 2) y) (length b + 3) 0
      ≡ b ++ (x ∷ f ∷ y ∷ 0 ∷ w)
set_update_heads b w x f y =
    rw
      (
        set-append b (0 ∷ f ∷ 0 ∷ 0 ∷ w) (length b) 0 x (omega arith),
        set-append b (x ∷ f ∷ 0 ∷ 0 ∷ w) (length b + 2) 2 y refl,
        set-append b (x ∷ f ∷ y ∷ 0 ∷ w) (length b + 3) 3 0 refl,
      )
      refl

module _ (v : Update) (s : IsSentUpdate v) (code : PrefixCode v.prefix) where
  abbrev numbers : List ℕ
  numbers = be16 (centiseconds v.interval) ++ be16 v.seqno ++ be16 v.metric

  abbrev read_whole : Update
  read_whole = record (on_wire_update v) { router_id = []; next_hop = zero_addr }

  abbrev update_bytes : List ℕ
  update_bytes =
      update_ae v ∷ v.flags ∷ (v.prefix.bits_plus_one - 1) ∷ 0 ∷ numbers
      ++ (code.bytes ++ sub_bytes v)

  sub_values_read :
      (p : Parser)
      → for_each_sub_value (update_sub p (update_ae v)) (read_so_far v.v4_via_v6 v) (sub_bytes v)
        ≡ (read_whole, ok [])
  sub_values_read p =
      let (n, b, hn) = s.bottleneck in
      let m = sends_path_metrics v in
      let q = sends_path_quality v in
      ap
        (λ (z : ℤ). for_each_sub_value (update_sub p (update_ae v)) (read_so_far v.v4_via_v6 v) (
          sub_bytes_of m q z v.path_rtt_micros v.path_jitter_micros v.path_metric_age_millis
            v.path_metric_confidence))
        b
      ∙ sub_values_reads p (update_ae v) m q (read_so_far v.v4_via_v6 v) n v.path_rtt_micros
          v.path_jitter_micros v.path_metric_age_millis v.path_metric_confidence hn s.confidence_u16
      ∙ ap (λ (u : Update). (u, ok [])) (sub_values_complete m q n v b s.no_source)

  update_read : (p : Parser) → read_update p update_bytes ≡ ok ((update_ae v, read_whole), [])
  unfolding read_update
  update_read p =
      let pr = update_prefix_reads v.v4_via_v6 v.prefix code p (sub_bytes v) s.via_v4 in
      let sr = sub_values_read p in
      let via = ae_via v.v4_via_v6 v.prefix in
      let bi = be16_value (centiseconds v.interval) (centiseconds-u16 v.interval) in
      let bs = be16_value v.seqno s.seqno_u16 in
      let bm = be16_value v.metric s.metric_u16 in rw (bi, bs, bm) (rw via (ground (arith, pr, sr)))

  header_writes :
      (b : List ℕ)
      → append_update_header b v
        ≡ ok (
          b ++ (update_ae v ∷ v.flags ∷ (v.prefix.bits_plus_one - 1) ∷ 0 ∷ numbers ++ code.bytes),
          update_ae v,
        )
  unfolding append_update_header
  header_writes b =
      let ae : (if v.v4_via_v6 then 4 else code.ae) ≡ update_ae v = rw code.chosen refl in
      rw (code.writes, ae)
        (simp append_assoc (
          ap (λ (c : List ℕ). ok (c, update_ae v))
            (set_update_heads b (numbers ++ code.bytes) (update_ae v) v.flags
              (v.prefix.bits_plus_one - 1))))

  sub_length :
      length (sub_bytes v)
      ≡ (if sends_path_metrics v then 2 + 8 else 0) + (if sends_path_quality v then 2 + 12 else 0)
  sub_length =
      length-sub_bytes_of (sends_path_metrics v) (sends_path_quality v) v.path_bottleneck_mbps
        v.path_rtt_micros v.path_jitter_micros v.path_metric_age_millis v.path_metric_confidence

  sub_small : length (sub_bytes v) ≤ 24
  sub_small = rw sub_length (ground arith)

  length-update_bytes : length update_bytes ≡ 10 + length code.bytes + length (sub_bytes v)
  length-update_bytes = omega (arith, length-append code.bytes (sub_bytes v))

  update_writes : Appends (λ b. append_update b v) update_bytes
  unfolding append_update
  update_writes b = rw (header_writes b, sub_values_writes v s.no_source) (simp append_assoc refl)

  update_payload :
      (p : Parser)
      → value_payload p 8 update_bytes
        ≡ (parser_after_reading p (update v), ok (on_wire p (update v), []))
  unfolding value_payload complete_update
  update_payload p = rw (update_read p) refl

  update_counted : value_length (update v) ≡ ok (length (tlv 8 update_bytes))
  unfolding value_length
  update_counted =
      rw (s.no_source, code.counted)
        (ap ok (omega (arith, length-append code.bytes (sub_bytes v), sub_length)))

  update_code_of : ValueCode (update v)
  unfolding append_value
  update_code_of =
      let small : length update_bytes < 256 =
        omega (arith, length-update_bytes, sub_small, code.small) in
      record {
        bytes = tlv 8 update_bytes;
        writes =
            append_value_header-Appends 8 (λ c. append_update c v) update_bytes small update_writes;
        reads = λ p vs rest.
            values_callback_reads p (update v) vs 8 update_bytes rest (omega arith)
              (update_payload p);
        counted = update_counted;
      }

pub update_code : (v : Update) → IsSentValue (update v) → ValueCode (update v)
update_code v s = update_code_of v s (prefix_code v.prefix s.prefix_sent)
