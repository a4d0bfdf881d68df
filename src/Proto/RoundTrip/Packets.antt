-- ===== src/Proto/RoundTrip/Packets.antt =====
-- Lists of TLVs and whole packets: `AppendValues`, `Values`, `AppendPacket` and `Packet` of
-- internal/babel/proto/parser.go.
use mathlib.Core.List.{append-nil, append_assoc}
use mathlib.Core.Path.{fun_ext}
use th.Base.{
  ℕ, suc, ◌+◌, ◌-◌, ◌/◌, ◌%◌, ◌^◌, ◌<◌, ◌≡◌, refl, sym, List, [], ◌∷◌, ◌++◌, Bool, true, false, All,
  length, length-append, arith, ap, ◌∙◌, set, ltb, take-all, drop-all,
}
use th.Proto.Value.{
  Value, Packet, pad1, pad_n, acknowledgment_request, acknowledgment, hello, ihu, router_id_value,
}
use th.Proto.Value.{next_hop, update, route_request, seqno_request}
use th.Proto.Result.{Result, ok, ◌>>=◌}
use th.Proto.Reader.{append_uint8, append_uint16}
use th.Proto.Decode.Fields.{Parser}
use th.Proto.Decode.Loop.{for_each_value}
use th.Proto.Decode.Values.{values_callback, values, packet, packet_header, body_and_trailer}
use th.Proto.Encode.{
  append_values, append_packet, append_packet_header, start_packet, finalize_packet, value_length,
}
use th.Proto.Wire.{Appends, be16}
use th.Proto.RoundTrip.Spec.{IsSentValue, ValueCode, on_wire, parser_after_reading}
use th.Proto.RoundTrip.Simple.{be16_value, pad1_code, pad_n_code, acknowledgment_request_code}
use th.Proto.RoundTrip.Simple.{acknowledgment_code, hello_code}
use th.Proto.RoundTrip.Addressed.{ihu_code, router_id_value_code, next_hop_code}
use th.Proto.RoundTrip.Routed.{route_request_code, seqno_request_code}
use th.Proto.RoundTrip.Updates.{update_code}

-- Every value that can be sent has a code.
pub value_code : (v : Value) → IsSentValue v → ValueCode v
value_code pad1 h = pad1_code
value_code (pad_n n) h = pad_n_code n h
value_code (acknowledgment_request opaque i) h = acknowledgment_request_code opaque i h
value_code (acknowledgment opaque) h = acknowledgment_code opaque h
value_code (hello v) h = hello_code v h
value_code (ihu v) h = ihu_code v h
value_code (router_id_value rid) h = router_id_value_code rid h
value_code (next_hop a) h = next_hop_code a h
value_code (update v) h = update_code v h
value_code (route_request v) h = route_request_code v h
value_code (seqno_request v) h = seqno_request_code v h

-- What a receiver makes of the values, one after the other, and the parser that it is left with.
abbrev pub on_wire_values : Parser → List Value → List Value
on_wire_values p [] = []
on_wire_values p (v ∷ vs) = on_wire p v ∷ on_wire_values (parser_after_reading p v) vs

abbrev pub parser_after_values : Parser → List Value → Parser
parser_after_values p [] = p
parser_after_values p (v ∷ vs) = parser_after_values (parser_after_reading p v) vs

-- The bytes of the values.
pub values_bytes : (vs : List Value) → All IsSentValue vs → List ℕ
values_bytes [] h = []
values_bytes (v ∷ vs) (h, hs) = let code = value_code v h in code.bytes ++ values_bytes vs hs

append_values-Appends :
    (vs : List Value) (hs : All IsSentValue vs)
    → Appends (λ b. append_values b vs) (values_bytes vs hs)
unfolding append_values values_bytes
append_values-Appends [] hs b = rw append-nil refl
append_values-Appends (v ∷ vs) (h, hs) b =
    let code = value_code v h in
    rw (code.writes b, append_values-Appends vs hs (b ++ code.bytes))
      (ap ok (append_assoc b code.bytes (values_bytes vs hs)))

for_each_value-values_bytes :
    (vs : List Value) (hs : All IsSentValue vs) (p : Parser) (ws : List Value)
    → for_each_value (values_callback false) (p, ws) (values_bytes vs hs)
      ≡ ((parser_after_values p vs, ws ++ on_wire_values p vs), ok [])
unfolding for_each_value values_bytes
for_each_value-values_bytes [] hs p ws = rw append-nil refl
for_each_value-values_bytes (v ∷ vs) (h, hs) p ws =
    let code = value_code v h in
    code.reads p ws (values_bytes vs hs)
    ∙ for_each_value-values_bytes vs hs (parser_after_reading p v) (ws ++ (on_wire p v ∷ []))
    ∙ ap (λ (us : List Value). ((parser_after_values p (v ∷ vs), us), ok []))
        (append_assoc ws (on_wire p v ∷ []) (on_wire_values (parser_after_reading p v) vs))

-- `ValueLength` of all the values.
abbrev pub values_length : List Value → Result ℕ
values_length [] = ok 0
values_length (v ∷ vs) = value_length v >>= λ n. values_length vs >>= λ m. ok (n + m)

values_length-values_bytes :
    (vs : List Value) (hs : All IsSentValue vs)
    → values_length vs ≡ ok (length (values_bytes vs hs))
unfolding values_bytes
values_length-values_bytes [] hs = refl
values_length-values_bytes (v ∷ vs) (h, hs) =
    let code = value_code v h in
    rw (code.counted, values_length-values_bytes vs hs)
      (ap ok (sym (length-append code.bytes (values_bytes vs hs))))

abbrev pub body_only : List Value → Packet
body_only vs = record { body = vs; trailer = [] }

-- The bytes of a packet.
packet_bytes : (vs : List Value) → All IsSentValue vs → List ℕ
packet_bytes vs hs = 42 ∷ 2 ∷ be16 (length (values_bytes vs hs)) ++ values_bytes vs hs

append_packet_lem :
    (vs : List Value) (hs : All IsSentValue vs)
    → append_packet [] (body_only vs) ≡ ok (packet_bytes vs hs)
unfolding append_packet append_packet_header append_values packet_bytes append_uint8 append_uint16
append_packet_lem vs hs =
    let e : append_values (42 ∷ 2 ∷ 0 ∷ 0 ∷ []) vs ≡ ok (42 ∷ 2 ∷ 0 ∷ 0 ∷ values_bytes vs hs) =
      append_values-Appends vs hs (42 ∷ 2 ∷ 0 ∷ 0 ∷ []) in
    let n : suc (suc (suc (suc (length (values_bytes vs hs))))) - 0 - 4
        ≡ length (values_bytes vs hs) =
      omega arith in
    rw (e, n) refl

pub append_packet-values_length :
    (vs : List Value)
    → All IsSentValue vs
    → (b : List ℕ) × (append_packet [] (body_only vs) ≡ ok b)
      × ((values_length vs >>= λ n. ok (4 + n)) ≡ ok (length b))
unfolding packet_bytes
append_packet-values_length vs hs = (
  packet_bytes vs hs,
  append_packet_lem vs hs,
  rw (values_length-values_bytes vs hs) (ap ok (omega arith)),
)

values_read :
    (p : Parser) (vs : List Value) (hs : All IsSentValue vs)
    → values p (values_bytes vs hs) false ≡ (parser_after_values p vs, ok (on_wire_values p vs))
unfolding values
values_read p vs hs = let out = for_each_value-values_bytes vs hs p [] in ground (arith, out)

values_empty : (p : Parser) (trailer : Bool) → values p [] trailer ≡ (p, ok [])
unfolding values for_each_value
values_empty p trailer = refl

packet_read :
    (p : Parser) (vs : List Value) (hs : All IsSentValue vs)
    → length (values_bytes vs hs) < 2 ^ 16
    → packet p (packet_bytes vs hs)
      ≡ (parser_after_values p vs, ok (body_only (on_wire_values p vs)))
unfolding packet packet_header body_and_trailer packet_bytes
packet_read p vs hs small =
    let w = values_bytes vs hs in
    let fits : ltb (length w) (length w) ≡ false = ground arith in
    rw
      (
        be16_value (length w) small,
        fits,
        take-all w (length w) (omega arith),
        drop-all w (length w) (omega arith),
      )
      (ground (arith, values_read p vs hs, values_empty (parser_after_values p vs) true))

pub packet-append_packet :
    (p : Parser) (vs : List Value) (b : List ℕ)
    → All IsSentValue vs
    → append_packet [] (body_only vs) ≡ ok b
    → length b < 2 ^ 16 + 4
    → packet p b ≡ (parser_after_values p vs, ok (body_only (on_wire_values p vs)))
packet-append_packet p vs b hs e small =
    let sent = append_packet_lem vs hs in
    let same : packet_bytes vs hs ≡ b = cc in
    rw (← same) (packet_read p vs hs (unfold packet_bytes in omega (arith, ap length same)))

-- `StartPacket`, the values and `FinalizePacket` write what `AppendPacket` writes.
pub finalize_packet-append_values :
    (vs : List Value)
    → (append_values start_packet vs >>= λ b. ok (finalize_packet b))
      ≡ append_packet [] (body_only vs)
unfolding start_packet finalize_packet append_packet append_values append_packet_header
finalize_packet-append_values vs =
    ap (λ (f : List ℕ → Result (List ℕ)). append_values (42 ∷ 2 ∷ 0 ∷ 0 ∷ []) vs >>= f)
      (fun_ext (λ (b : List ℕ).
        ap (λ (n : ℕ). ok (set (set b 2 (n / 256 % 256)) 3 (n % 256))) (omega arith)))
