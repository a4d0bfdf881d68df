-- ===== src/Proto/RoundTrip/Addressed.antt =====
-- IHU, router-id and next-hop TLVs.
use mathlib.Core.List.{append-nil, append_assoc}
use th.Base.{
  ℕ, ◌+◌, ◌≡◌, sym, List, [], ◌∷◌, ◌++◌, false, Option, none, some, length, length-append,
  take-length, drop-length, ltb, arith, ap, ◌∙◌, set,
}
use th.Proto.Types.{IsU16}
use th.Proto.Addr.{Addr}
use th.Proto.Value.{Ihu, TimestampIhu, Value, ihu, router_id_value, next_hop}
use th.Proto.Result.{ok}
use th.Proto.Reader.{append_uint8, append_uint16, append_uint32}
use th.Proto.Interval.{centiseconds, append_interval}
use th.Proto.Decode.Fields.{router_id}
use th.Proto.Decode.Values.{value_payload}
use th.Proto.Encode.{
  append_value, append_ihu, append_router_id_value, append_next_hop, value_length,
}
use th.Proto.Wire.{tlv, be16, be32, append_value_header-Appends, set-append}
use th.Proto.RoundTrip.Address.{AddressCode, address_code}
use th.Proto.RoundTrip.Spec.{IsSentValue, ValueCode, IsTimestampOption, IsRouterId}
use th.Proto.RoundTrip.Simple.{values_callback_reads, be16_value, be32_value, centiseconds-u16}

-- The header of an IHU and its address.
module _ (rx interval : ℕ) (a : Addr) (code : AddressCode a) (hr : IsU16 rx) where
  ihu_bytes : List ℕ
  ihu_bytes = code.ae ∷ 0 ∷ be16 rx ++ be16 (centiseconds interval) ++ code.bytes

  ihu_of : Option TimestampIhu → Value
  ihu_of ts = ihu (record { rx_cost = rx; interval = interval; address = a; timestamp = ts })

  -- What stands before the address, and the buffer when the placeholder for the encoding is set.
  ihu_front : List ℕ → List ℕ
  ihu_front b = append_interval (append_uint16 (append_uint8 (append_uint8 b 0) 0) rx) interval

  ihu_header : (b : List ℕ) → set (ihu_front b ++ code.bytes) (length b) code.ae ≡ b ++ ihu_bytes
  unfolding ihu_bytes ihu_front append_uint8 append_uint16 append_interval
  ihu_header b =
      let w : List ℕ = 0 ∷ 0 ∷ be16 rx ++ be16 (centiseconds interval) ++ code.bytes in
      simp append_assoc (set-append b w (length b) 0 code.ae (omega arith))

  ihu_code_of : (ts : Option TimestampIhu) → IsTimestampOption ts → ValueCode (ihu_of ts)
  unfolding append_value value_length ihu_of ihu_bytes
  ihu_code_of none u = record {
    bytes = tlv 5 ihu_bytes;
    writes =
        append_value_header-Appends 5
          (λ c.
            append_ihu c
              (record { rx_cost = rx; interval = interval; address = a; timestamp = none }))
          ihu_bytes (omega (arith, code.small))
          (λ b. unfold ihu_front in rw code.writes (ap ok (ihu_header b)));
    reads = λ p vs rest.
        let at_end = rw append-nil at (code.reads p []) in
        values_callback_reads p (ihu_of none) vs 5 ihu_bytes rest (omega arith) (
          unfold value_payload in
          ground (
            arith,
            at_end,
            be16_value rx hr,
            be16_value (centiseconds interval) (centiseconds-u16 interval),
          ));
    counted = rw code.counted (ap ok (omega arith));
  }
  ihu_code_of (some t) u =
      let stamp : List ℕ = be32 t.origin ++ be32 t.receive in
      let len : length (ihu_bytes ++ tlv 3 stamp) ≡ length ihu_bytes + 10 =
        omega (arith, length-append ihu_bytes (tlv 3 stamp)) in
      record {
        bytes = tlv 5 (ihu_bytes ++ tlv 3 stamp);
        writes =
            append_value_header-Appends 5
              (λ c.
                append_ihu c
                  (record { rx_cost = rx; interval = interval; address = a; timestamp = some t }))
              (ihu_bytes ++ tlv 3 stamp) (omega (arith, code.small))
              (λ b.
                unfold ihu_front in
                rw code.writes (
                  rw (ihu_header b) (
                    append_value_header-Appends 3
                      (λ f. ok (append_uint32 (append_uint32 f t.origin) t.receive)) stamp
                      (omega arith) (λ f. simp append_assoc) (b ++ ihu_bytes)
                    ∙ ap ok (append_assoc b ihu_bytes (tlv 3 stamp)))));
        reads = λ p vs rest.
            values_callback_reads p (ihu_of (some t)) vs 5 (ihu_bytes ++ tlv 3 stamp) rest
              (omega arith)
              (unfold value_payload in
                ground (
                  arith,
                  code.reads p (tlv 3 stamp),
                  be16_value rx hr,
                  be16_value (centiseconds interval) (centiseconds-u16 interval),
                  be32_value t.origin u.0,
                  be32_value t.receive u.1,
                ));
        counted = rw code.counted (ap ok (omega (arith, len)));
      }

pub ihu_code : (v : Ihu) → IsSentValue (ihu v) → ValueCode (ihu v)
unfolding ihu_of
ihu_code v (hr, ha, ht) =
    ihu_code_of v.rx_cost v.interval v.address (address_code v.address ha.0 ha.1) hr v.timestamp ht

-- A router-id is read back with what follows it.
pub read_router_id : (rid rest : List ℕ) → IsRouterId rid → router_id (rid ++ rest) ≡ ok (rid, rest)
unfolding router_id
read_router_id rid rest (len, zeros, ones) =
    let fits : ltb (length (rid ++ rest)) 8 ≡ false = ground (arith, length-append rid rest) in
    rw (fits, take-length rid rest 8 (sym len), drop-length rid rest 8 (sym len)) (rw (zeros, ones))

pub router_id_value_code :
    (rid : List ℕ) → IsSentValue (router_id_value rid) → ValueCode (router_id_value rid)
unfolding append_value value_length
router_id_value_code rid h =
    let w : List ℕ = 0 ∷ 0 ∷ rid in
    record {
      bytes = tlv 6 w;
      writes =
          append_value_header-Appends 6 (λ c. append_router_id_value c rid) w (omega (arith, h.0))
            (λ b. rw (h.1, h.2) (ap ok (append_assoc b (be16 0) rid)));
      reads = λ p vs rest.
          values_callback_reads p (router_id_value rid) vs 6 w rest (omega arith)
            (unfold value_payload in ground (arith, rw append-nil at (read_router_id rid [] h)));
      counted = ap ok (omega (arith, h.0));
    }

pub next_hop_code : (a : Addr) → IsSentValue (next_hop a) → ValueCode (next_hop a)
unfolding append_value value_length
next_hop_code a h =
    let code = address_code a h.0 h.1 in
    let w : List ℕ = code.ae ∷ 0 ∷ code.bytes in
    record {
      bytes = tlv 7 w;
      writes =
          append_value_header-Appends 7 (λ c. append_next_hop c a) w (omega (arith, code.small))
            (λ b. rw code.writes (
              simp append_assoc
                (ap ok (set-append b (0 ∷ 0 ∷ code.bytes) (length b) 0 code.ae (omega arith)))));
      reads = λ p vs rest. values_callback_reads p (next_hop a) vs 7 w rest (omega arith) (
          unfold value_payload in
          rw (← code.family) (ground (arith, rw append-nil at (code.reads p []))));
      counted = rw code.counted (ap ok (omega arith));
    }
