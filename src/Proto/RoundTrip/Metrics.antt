-- ===== src/Proto/RoundTrip/Metrics.antt =====
-- The path-metric sub-TLVs of an update.
use mathlib.Core.List.{append-nil, append_assoc}
use th.Base.{
  ℕ, ◌^◌, ◌<◌, ◌≡◌, refl, List, [], ◌++◌, Bool, true, false, none, arith, ap, ◌∙◌, if◌then◌else◌,
}
use th.Base.Int.{ℤ, pos, negsuc}
use th.Proto.Types.{IsU16}
use th.Proto.Value.{Update}
use th.Proto.Result.{Result, ok, ◌>>=◌}
use th.Proto.Reader.{append_uint16, append_uint32}
use th.Proto.Decode.Fields.{Parser}
use th.Proto.Decode.Loop.{for_each_sub_value, for_each_value, sub_answer}
use th.Proto.Decode.Sub.{
  path_metrics_sub, path_quality_sub, update_sub, decode_bottleneck, decode_path_rtt,
  decode_path_quality_metric,
}
use th.Proto.Encode.{
  append_path_metrics, append_path_quality, append_update_sub_values, encode_bottleneck,
  encode_path_rtt, encode_path_quality_metric, sends_path_metrics, sends_path_quality,
}
use th.Proto.Wire.{Appends, tlv, be16, be32, append_value_header-Appends, for_each_value-tlv}
use th.Proto.RoundTrip.Spec.{on_wire_metric}
use th.Proto.RoundTrip.Simple.{be16_value, be32_value}

-- The code of an RTT fits 32 bits, and is read as the RTT that the wire can carry.
pub path_rtt_code :
    (z : ℤ)
    → (encode_path_rtt z < 2 ^ 32) × (decode_path_rtt (encode_path_rtt z) ≡ on_wire_metric z)
unfolding encode_path_rtt decode_path_rtt
path_rtt_code (pos n) = (ground arith, ground arith)
path_rtt_code (negsuc n) = (omega arith, refl)

pub path_quality_code :
    (z : ℤ)
    → (encode_path_quality_metric z < 2 ^ 32)
      × (decode_path_quality_metric (encode_path_quality_metric z) ≡ on_wire_metric z)
unfolding encode_path_quality_metric decode_path_quality_metric
path_quality_code (pos n) = (ground arith, ground arith)
path_quality_code (negsuc n) = (omega arith, refl)

-- A bandwidth below 2 ^ 32 - 1 is read back.
pub bottleneck_code :
    (n : ℕ)
    → n < 0xffffffff
    → (encode_bottleneck (pos n) < 2 ^ 32) × (decode_bottleneck (encode_bottleneck (pos n)) ≡ pos n)
unfolding encode_bottleneck decode_bottleneck
bottleneck_code n h = (ground arith, ground arith)

abbrev pub metrics_payload : ℤ → ℤ → List ℕ
metrics_payload b r = be32 (encode_bottleneck b) ++ be32 (encode_path_rtt r)

abbrev pub quality_payload : ℤ → ℤ → ℕ → List ℕ
quality_payload j a c =
    be32 (encode_path_quality_metric j) ++ be32 (encode_path_quality_metric a) ++ be16 c ++ be16 0

-- The sub-TLVs, each sent or not.
abbrev pub sub_bytes_of : Bool → Bool → ℤ → ℤ → ℤ → ℤ → ℕ → List ℕ
sub_bytes_of m q b r j a c =
    (if m then tlv 4 (metrics_payload b r) else [])
    ++ (if q then tlv 5 (quality_payload j a c) else [])

abbrev pub sub_bytes : Update → List ℕ
sub_bytes v =
    sub_bytes_of (sends_path_metrics v) (sends_path_quality v) v.path_bottleneck_mbps
      v.path_rtt_micros v.path_jitter_micros v.path_metric_age_millis v.path_metric_confidence

path_metrics_writes :
    (b r : ℤ) → Appends (λ c. append_path_metrics c b r) (tlv 4 (metrics_payload b r))
unfolding append_path_metrics
path_metrics_writes b r =
    append_value_header-Appends 4
      (λ c. ok (append_uint32 (append_uint32 c (encode_bottleneck b)) (encode_path_rtt r)))
      (metrics_payload b r) (omega arith) (λ c. simp append_assoc)

path_quality_writes :
    (j a : ℤ) (q : ℕ) → Appends (λ c. append_path_quality c j a q) (tlv 5 (quality_payload j a q))
unfolding append_path_quality
path_quality_writes j a q =
    append_value_header-Appends 5
      (λ c. ok (
        append_uint16
          (append_uint16
            (append_uint32 (append_uint32 c (encode_path_quality_metric j))
              (encode_path_quality_metric a))
            q)
          0))
      (quality_payload j a q) (omega arith) (λ c. simp append_assoc)

metrics_writes :
    (m q : Bool) (b r j a : ℤ) (x : ℕ) (c : List ℕ)
    → ((if m then append_path_metrics c b r else ok c) >>= λ d.
        if q then append_path_quality d j a x else ok d)
      ≡ ok (c ++ sub_bytes_of m q b r j a x)
metrics_writes true true b r j a x c =
    rw (path_metrics_writes b r c, path_quality_writes j a x)
      (ap ok (append_assoc c (tlv 4 (metrics_payload b r)) (tlv 5 (quality_payload j a x))))
metrics_writes true false b r j a x c = rw (path_metrics_writes b r c, append-nil) refl
metrics_writes false true b r j a x c = path_quality_writes j a x c
metrics_writes false false b r j a x c = rw append-nil refl

-- An update without a source prefix appends its sub-TLVs.
pub sub_values_writes :
    (v : Update)
    → v.source_prefix ≡ none
    → Appends (λ c. append_update_sub_values c v) (sub_bytes v)
unfolding append_update_sub_values
sub_values_writes v e c = rw e (
    metrics_writes (sends_path_metrics v) (sends_path_quality v) v.path_bottleneck_mbps
      v.path_rtt_micros v.path_jitter_micros v.path_metric_age_millis v.path_metric_confidence c)

-- What the two sub-TLVs make of the update that holds their absence.
abbrev pub with_metrics : Bool → ℤ → ℤ → Update → Update
with_metrics true b r u = record u {
  path_bottleneck_mbps = b;
  path_rtt_micros = on_wire_metric r;
  path_metrics_present = true;
}
with_metrics false b r u = u

abbrev pub with_quality : Bool → ℤ → ℤ → ℕ → Update → Update
with_quality true j a c u = record u {
  path_jitter_micros = on_wire_metric j;
  path_metric_age_millis = on_wire_metric a;
  path_metric_confidence = c;
  path_quality_present = true;
}
with_quality false j a c u = u

read_metrics :
    (p : Parser) (ae : ℕ) (u : Update) (n : ℕ) (r : ℤ)
    → n < 0xffffffff
    → update_sub p ae u 4 (metrics_payload (pos n) r) ≡ (with_metrics true (pos n) r u, ok [])
unfolding update_sub path_metrics_sub
read_metrics p ae u n r h =
    let cb = bottleneck_code n h in
    let cr = path_rtt_code r in
    rw
      (be32_value (encode_bottleneck (pos n)) cb.0, be32_value (encode_path_rtt r) cr.0, cb.1, cr.1)
      refl

read_quality :
    (p : Parser) (ae : ℕ) (u : Update) (j a : ℤ) (c : ℕ)
    → IsU16 c
    → update_sub p ae u 5 (quality_payload j a c) ≡ (with_quality true j a c u, ok [])
unfolding update_sub path_quality_sub
read_quality p ae u j a c h =
    let cj = path_quality_code j in
    let ca = path_quality_code a in
    rw
      (
        be32_value (encode_path_quality_metric j) cj.0,
        be32_value (encode_path_quality_metric a) ca.0,
        be16_value c h,
        cj.1,
        ca.1,
      )
      refl

module _ (p : Parser) (ae : ℕ) where
  abbrev callback : Update → ℕ → List ℕ → Update × Result (List ℕ)
  callback s t b = sub_answer t (update_sub p ae s t b)

  quality_read :
      (q : Bool) (u : Update) (j a : ℤ) (c : ℕ)
      → IsU16 c
      → for_each_value callback u (if q then tlv 5 (quality_payload j a c) else [])
        ≡ (with_quality q j a c u, ok [])
  unfolding for_each_value
  quality_read false u j a c hc = refl
  quality_read true u j a c hc =
      for_each_value-tlv callback u (with_quality true j a c u) 5 (quality_payload j a c) []
        (omega arith) (rw (read_quality p ae u j a c hc) refl)

  -- The loop over the sub-TLVs of an update.
  pub sub_values_reads :
      (m q : Bool) (u : Update) (n : ℕ) (r j a : ℤ) (c : ℕ)
      → n < 0xffffffff
      → IsU16 c
      → for_each_sub_value (update_sub p ae) u (sub_bytes_of m q (pos n) r j a c)
        ≡ (with_quality q j a c (with_metrics m (pos n) r u), ok [])
  unfolding for_each_sub_value
  sub_values_reads false q u n r j a c hn hc = quality_read q u j a c hc
  sub_values_reads true q u n r j a c hn hc =
      for_each_value-tlv callback u (with_metrics true (pos n) r u) 4 (metrics_payload (pos n) r)
        (if q then tlv 5 (quality_payload j a c) else []) (omega arith)
        (rw (read_metrics p ae u n r hn) refl)
      ∙ quality_read q (with_metrics true (pos n) r u) j a c hc
