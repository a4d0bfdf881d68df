-- ===== src/Proto/Decode/Sub.antt =====
-- The callbacks for sub-TLVs in `hello`, `ihu`, `update`, `routeRequest` and `seqnoRequest` of
-- internal/babel/proto/parser.go, and the codes of the path metrics. A callback that fails half way
-- leaves what it wrote so far: a failed read writes 0.
use th.Base.{ℕ, true, List, Option, some, ◌==◌, if◌then◌else◌}
use th.Base.Int.{ℤ, pos, negsuc}
use th.Proto.Types.{sub_type_timestamp, sub_type_source_prefix}
use th.Proto.Types.{sub_type_path_metrics, sub_type_path_quality}
use th.Proto.Addr.{Prefix}
use th.Proto.Value.{Update, TimestampIhu}
use th.Proto.Result.{Result, ok, err, panic, stuck, unsupported_value}
use th.Proto.Reader.{uint16, uint32}
use th.Proto.Decode.Fields.{Parser, source_prefix}

abbrev pub path_metrics_unset : ℕ
path_metrics_unset = 0xffffffff

-- An `int` has 64 bits, so the second test of the source never holds.
unfoldable pub decode_bottleneck : ℕ → ℤ
decode_bottleneck encoded = if encoded == path_metrics_unset then pos 0 else pos encoded

unfoldable pub decode_path_rtt : ℕ → ℤ
decode_path_rtt encoded = if encoded == path_metrics_unset then negsuc 0 else pos encoded

unfoldable pub decode_path_quality_metric : ℕ → ℤ
decode_path_quality_metric encoded = if encoded == path_metrics_unset then negsuc 0 else pos encoded

-- A read into a variable of the state: the variable's new value, and how to go on.
abbrev pub reading {ℓ κ} :
    {A : Type κ} {S : Type ℓ}
    → Result (A × List ℕ)
    → S
    → (A → List ℕ → S × Result (List ℕ))
    → S × Result (List ℕ)
reading (ok (a, b)) s next = next a b
reading (err e) s next = (s, err e)
reading panic s next = (s, panic)
reading stuck s next = (s, stuck)

unfoldable pub hello_sub : Option ℕ → ℕ → List ℕ → Option ℕ × Result (List ℕ)
unfolding uint32
hello_sub ts t b =
    if t == sub_type_timestamp
    then reading (uint32 b) (some 0) (λ transmit c. (some transmit, ok c))
    else (ts, err unsupported_value)

unfoldable pub ihu_sub : Option TimestampIhu → ℕ → List ℕ → Option TimestampIhu × Result (List ℕ)
unfolding uint32
ihu_sub ts t b =
    if t == sub_type_timestamp
    then reading (uint32 b) (some (record { origin = 0; receive = 0 })) (λ origin c.
      reading (uint32 c) (some (record { origin = origin; receive = 0 }))
        (λ receive d. (some (record { origin = origin; receive = receive }), ok d)))
    else (ts, err unsupported_value)

unfoldable pub path_metrics_sub : Update → List ℕ → Update × Result (List ℕ)
unfolding uint32 decode_bottleneck decode_path_rtt
path_metrics_sub v b =
    let v' = record v { path_metrics_present = true } in
    reading (uint32 b) v' (λ bottleneck c. reading (uint32 c) v' (λ rtt d. (
      record v' {
        path_bottleneck_mbps = decode_bottleneck bottleneck;
        path_rtt_micros = decode_path_rtt rtt;
      },
      ok d,
    )))

unfoldable pub path_quality_sub : Update → List ℕ → Update × Result (List ℕ)
unfolding uint16 uint32 decode_path_quality_metric
path_quality_sub v b =
    let v' = record v { path_quality_present = true } in
    reading (uint32 b) v' (λ jitter c. reading (uint32 c) v' (λ age d.
      reading (uint16 d) (record v' { path_metric_confidence = 0 })
        (λ confidence e.
          let v'' = record v' { path_metric_confidence = confidence } in
          reading (uint16 e) v'' (λ reserved f. (
            record v'' {
              path_jitter_micros = decode_path_quality_metric jitter;
              path_metric_age_millis = decode_path_quality_metric age;
            },
            ok f,
          )))))

unfoldable pub update_sub : Parser → ℕ → Update → ℕ → List ℕ → Update × Result (List ℕ)
unfolding path_metrics_sub path_quality_sub
update_sub p ae v t b =
    if t == sub_type_source_prefix
    then reading (source_prefix p ae b) v (λ pfx c. (record v { source_prefix = some pfx }, ok c))
    else if t == sub_type_path_metrics
    then path_metrics_sub v b
    else if t == sub_type_path_quality
    then path_quality_sub v b
    else (v, err unsupported_value)

-- The callback of `routeRequest` and of `seqnoRequest`.
unfoldable pub request_sub :
    Parser → ℕ → Option Prefix → ℕ → List ℕ → Option Prefix × Result (List ℕ)
request_sub p ae s t b =
    if t == sub_type_source_prefix
    then reading (source_prefix p ae b) s (λ pfx c. (some pfx, ok c))
    else (s, err unsupported_value)
