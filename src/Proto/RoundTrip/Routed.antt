-- ===== src/Proto/RoundTrip/Routed.antt =====
-- Route requests, seqno requests and updates.
use mathlib.Core.List.{append-nil, append_assoc}
use th.Base.{
  ℕ, ◌+◌, ◌-◌, ◌<◌, ◌≡◌, refl, List, [], ◌∷◌, ◌++◌, Bool, none, length, length-append, arith, ap,
  set,
}
use th.Proto.Types.{IsU16}
use th.Proto.Addr.{Prefix}
use th.Proto.Value.{RouteRequest, SeqnoRequest, Value, route_request, seqno_request}
use th.Proto.Result.{ok}
use th.Proto.Decode.Values.{value_payload}
use th.Proto.Encode.{
  append_value, append_route_request, append_seqno_request, append_router_id, value_length,
  append_source_prefix?,
}
use th.Proto.Wire.{Appends, tlv, be16, append_value_header-Appends, set-append}
use th.Proto.RoundTrip.Prefix.{PrefixCode, prefix_code}
use th.Proto.RoundTrip.Spec.{IsSentValue, ValueCode, IsRouterId}
use th.Proto.RoundTrip.Simple.{values_callback_reads, be16_value}
use th.Proto.RoundTrip.Addressed.{read_router_id}

-- The two placeholders at the head of a request are set.
set_heads :
    (b w : List ℕ) (x y u v : ℕ)
    → set (set (b ++ (u ∷ v ∷ w)) (length b) x) (length b + 1) y ≡ b ++ (x ∷ y ∷ w)
set_heads b w x y u v =
    rw
      (
        set-append b (u ∷ v ∷ w) (length b) 0 x (omega arith),
        set-append b (x ∷ v ∷ w) (length b + 1) 1 y refl,
      )
      refl

module _ (pfx : Prefix) (wild : Bool) (code : PrefixCode pfx) where
  request : Value
  request = route_request (record { prefix = pfx; wildcard = wild; source_prefix = none })

  request_bytes : List ℕ
  request_bytes = code.ae ∷ (pfx.bits_plus_one - 1) ∷ code.bytes

  request_code : ValueCode request
  unfolding append_value value_length request request_bytes append_source_prefix?
  request_code = record {
    bytes = tlv 9 request_bytes;
    writes =
        append_value_header-Appends 9
          (λ c.
            append_route_request c (record { prefix = pfx; wildcard = wild; source_prefix = none }))
          request_bytes (omega (arith, code.small))
          (λ b. rw code.writes (
            simp append_assoc
              (ap ok (set_heads b code.bytes code.ae (pfx.bits_plus_one - 1) 0 0))));
    reads = λ p vs rest.
        values_callback_reads p request vs 9 request_bytes rest (omega arith)
          (unfold value_payload in ground (arith, code.chosen, rw append-nil at (code.reads p [])));
    counted = ap ok (omega (arith, code.counted));
  }

pub route_request_code :
    (v : RouteRequest) → IsSentValue (route_request v) → ValueCode (route_request v)
unfolding request
route_request_code v (s, e) = rw e (request_code v.prefix v.wildcard (prefix_code v.prefix s))

pub append_router_id-Appends :
    (rid : List ℕ) → IsRouterId rid → Appends (λ b. append_router_id b rid) rid
unfolding append_router_id
append_router_id-Appends rid (len, zeros, ones) b = rw (zeros, ones) refl

module _ (pfx : Prefix) (n hops : ℕ) (rid : List ℕ) (code : PrefixCode pfx) (hn : IsU16 n)
    (hh : hops < 256) (hr : IsRouterId rid) where
  asked : SeqnoRequest
  asked = record {
    seqno = n;
    hop_count = hops;
    router_id = rid;
    prefix = pfx;
    source_prefix = none;
  }

  seqno_rest : List ℕ
  seqno_rest = be16 n ++ (hops ∷ 0 ∷ rid ++ code.bytes)

  seqno_bytes : List ℕ
  unfolding seqno_rest
  seqno_bytes = code.ae ∷ (pfx.bits_plus_one - 1) ∷ seqno_rest

  seqno_request_code_of : ValueCode (seqno_request asked)
  unfolding append_value value_length asked seqno_bytes append_source_prefix?
  seqno_request_code_of =
      let small : length seqno_bytes ≡ 14 + length code.bytes =
        omega (arith, length-append rid code.bytes, ap (λ (t : ℕ). t) hr.0) in
      record {
        bytes = tlv 10 seqno_bytes;
        writes =
            append_value_header-Appends 10 (λ c. append_seqno_request c asked) seqno_bytes
              (omega (arith, code.small, small))
              (λ b.
                rw (append_router_id-Appends rid hr, code.writes)
                  (simp append_assoc
                    (ap ok (set_heads b seqno_rest code.ae (pfx.bits_plus_one - 1) 0 0))));
        reads = λ p vs rest.
            values_callback_reads p (seqno_request asked) vs 10 seqno_bytes rest
              (omega (arith, code.small, small))
              (unfold value_payload in
                ground (
                  arith,
                  be16_value n hn,
                  read_router_id rid code.bytes hr,
                  code.chosen,
                  rw append-nil at (code.reads p []),
                ));
        counted = ap ok (omega (arith, code.counted, small));
      }

pub seqno_request_code :
    (v : SeqnoRequest) → IsSentValue (seqno_request v) → ValueCode (seqno_request v)
unfolding asked
seqno_request_code v (hn, hh, hr, s, e) = rw e (
    seqno_request_code_of v.prefix v.seqno v.hop_count v.router_id (prefix_code v.prefix s) hn hh
      hr)
