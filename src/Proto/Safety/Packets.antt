-- ===== src/Proto/Safety/Packets.antt =====
-- `valuePayload`, `Values` and `Packet` of internal/babel/proto/parser.go never panic.
use th.Base.{
  ℕ, inl, inr, Bool, true, false, List, [], ◌∷◌, ◌==◌, ◌&&◌, not, ltb, length, take, drop, arith,
  Bool-cases,
}
use Prim.Native.Nat.{bit_and}
use th.Proto.Addr.{Addr, Prefix}
use th.Proto.Types.{is_trailer_type}
use th.Proto.Value.{Value}
use th.Proto.Result.{Result, ok, err, panic, stuck, Answers, Result-cases}
use th.Proto.Decode.Fields.{Parser}
use th.Proto.Decode.Loop.{for_each_value}
use th.Proto.Decode.Values.{
  Reading, keeping, noting, note_update, value_payload, collected, values_callback, values, packet,
  packet_header, body_and_trailer,
}
use th.Proto.Safety.Address.{Ensures, Fits, IsParser, insert-Fits}
use th.Proto.Safety.Loop.{Safe, for_each_value-Safe}
use th.Proto.Decode.Values.{
  read_acknowledgment_request, read_acknowledgment, read_hello, read_ihu, read_router_id_value,
  read_next_hop, read_update, read_route_request, read_seqno_request,
}
use th.Proto.Safety.Readers.{
  HasFit, read_acknowledgment_request-Ensures, read_acknowledgment-Ensures, read_hello-Ensures,
  read_ihu-Ensures, read_router_id_value-Ensures, read_next_hop-Ensures, read_update-Ensures,
  read_route_request-Ensures, read_seqno_request-Ensures,
}

note_update-IsParser :
    (p : Parser) (ae flags : ℕ) (x : Prefix)
    → IsParser p
    → Fits ae x.addr
    → IsParser (note_update p ae flags x)
unfolding note_update
note_update-IsParser p ae flags x h f = elim (Bool-cases (bit_and flags 0x80 == 0)) [
  | inl a ↦ elim (Bool-cases (bit_and flags 0x40 == 0)) [
    | inl c ↦ rw (a, c) h
    | inr c ↦ rw (a, c) h
  ]
  | inr a ↦ elim (Bool-cases (bit_and flags 0x40 == 0)) [
    | inl c ↦ rw (a, c) (insert-Fits ae x.addr p.default_prefix h f)
    | inr c ↦ rw (a, c) (insert-Fits ae x.addr p.default_prefix h f)
  ]
]

-- The answer of a value's decoder.
abbrev Sound : Reading → Type 0
Sound r = Safe IsParser r

keeping-Sound :
    (p : Parser) (r : Result (Value × List ℕ))
    → IsParser p
    → Ensures (λ (v : Value). Unit) r
    → Sound (keeping p r)
keeping-Sound p (ok (v, c)) h k = (h, tt)
keeping-Sound p (err e) h k = (h, tt)
keeping-Sound p panic h k = (h, k)
keeping-Sound p stuck h k = (h, k)

noting-Sound :
    {A : Type 0} (P : A → Type 0) (p : Parser) (r : Result (A × List ℕ)) (f : A → Parser × Value)
    → IsParser p
    → Ensures P r
    → ((a : A) → P a → IsParser (f a).0)
    → Sound (noting p r f)
noting-Sound P p (ok (a, c)) f h k n = (n a k, tt)
noting-Sound P p (err e) f h k n = (h, tt)
noting-Sound P p panic f h k n = (h, k)
noting-Sound P p stuck f h k n = (h, k)

value_payload-Sound : (p : Parser) (t : ℕ) (b : List ℕ) → IsParser p → Sound (value_payload p t b)
unfolding value_payload
value_payload-Sound p t b h = elim (Bool-cases (t == 0)) [
  | inl e0 ↦ rw e0 (h, tt)
  | inr e0 ↦ elim (Bool-cases (t == 1)) [
    | inl e1 ↦ rw (e0, e1) (h, tt)
    | inr e1 ↦ elim (Bool-cases (t == 2)) [
      | inl e2 ↦
          rw (e0, e1, e2)
            (keeping-Sound p (read_acknowledgment_request b) h
              (read_acknowledgment_request-Ensures b))
      | inr e2 ↦ elim (Bool-cases (t == 3)) [
        | inl e3 ↦
            rw (e0, e1, e2, e3)
              (keeping-Sound p (read_acknowledgment b) h (read_acknowledgment-Ensures b))
        | inr e3 ↦ elim (Bool-cases (t == 4)) [
          | inl e4 ↦
              rw (e0, e1, e2, e3, e4) (keeping-Sound p (read_hello b) h (read_hello-Ensures b))
          | inr e4 ↦ elim (Bool-cases (t == 5)) [
            | inl e5 ↦
                rw (e0, e1, e2, e3, e4, e5)
                  (keeping-Sound p (read_ihu p b) h (read_ihu-Ensures p b h))
            | inr e5 ↦ elim (Bool-cases (t == 6)) [
              | inl e6 ↦
                  rw (e0, e1, e2, e3, e4, e5, e6)
                    (noting-Sound (λ (r : List ℕ). Unit) p (read_router_id_value b) _ h
                      (read_router_id_value-Ensures b) (λ a k. h))
              | inr e6 ↦ elim (Bool-cases (t == 7)) [
                | inl e7 ↦
                    rw (e0, e1, e2, e3, e4, e5, e6, e7)
                      (noting-Sound (λ (r : ℕ × Addr). Unit) p (read_next_hop p b) _ h
                        (read_next_hop-Ensures p b h) (λ a k. h))
                | inr e7 ↦ elim (Bool-cases (t == 8)) [
                  | inl e8 ↦
                      rw (e0, e1, e2, e3, e4, e5, e6, e7, e8)
                        (noting-Sound HasFit p (read_update p b) _ h (read_update-Ensures p b h)
                          (λ r k. note_update-IsParser p r.0 r.1.flags r.1.prefix h k))
                  | inr e8 ↦ elim (Bool-cases (t == 9)) [
                    | inl e9 ↦
                        rw (e0, e1, e2, e3, e4, e5, e6, e7, e8, e9)
                          (keeping-Sound p (read_route_request p b) h
                            (read_route_request-Ensures p b h))
                    | inr e9 ↦ elim (Bool-cases (t == 10)) [
                      | inl e10 ↦
                          rw (e0, e1, e2, e3, e4, e5, e6, e7, e8, e9, e10)
                            (keeping-Sound p (read_seqno_request p b) h
                              (read_seqno_request-Ensures p b h))
                      | inr e10 ↦ rw (e0, e1, e2, e3, e4, e5, e6, e7, e8, e9, e10) (h, tt)
                    ]
                  ]
                ]
              ]
            ]
          ]
        ]
      ]
    ]
  ]
]

abbrev IsReading : Parser × List Value → Type 0
IsReading s = IsParser s.0

collected-Safe : (vs : List Value) (r : Reading) → Sound r → Safe IsReading (collected vs r)
collected-Safe vs (p, ok (v, c)) h = (h.0, tt)
collected-Safe vs (p, err e) h = (h.0, tt)
collected-Safe vs (p, panic) h = h
collected-Safe vs (p, stuck) h = h

values_callback-Safe :
    (trailer : Bool) (s : Parser × List Value) (t : ℕ) (b : List ℕ)
    → IsReading s
    → Safe IsReading (values_callback trailer s t b)
unfolding values_callback
values_callback-Safe trailer (p, vs) t b h =
    elim (Bool-cases (trailer && not (is_trailer_type t))) [
      | inl e ↦ rw e (h, tt)
      | inr e ↦ rw e (collected-Safe vs (value_payload p t b) (value_payload-Sound p t b h))
    ]

-- What `Values` makes of the loop's result.
listed :
    (s : Parser × List Value) (r : Result (List ℕ))
    → IsReading s
    → Answers r
    → Safe {A = List Value} IsParser (elim r [
      | ok c ↦ (s.0, ok s.1)
      | err e ↦ (s.0, err e)
      | panic ↦ (s.0, panic)
      | stuck ↦ (s.0, stuck)
    ])
listed s (ok c) h k = (h, tt)
listed s (err e) h k = (h, tt)
listed s panic h k = (h, k)
listed s stuck h k = (h, k)

values-Safe :
    (p : Parser) (b : List ℕ) (trailer : Bool) → IsParser p → Safe IsParser (values p b trailer)
unfolding values
values-Safe p b trailer h =
    let out =
      for_each_value-Safe IsReading (values_callback trailer) (values_callback-Safe trailer) (p, [])
        b h in
    listed (for_each_value (values_callback trailer) (p, []) b).0
      (for_each_value (values_callback trailer) (p, []) b).1 out.0 out.1

body_and_trailer-Safe :
    (p : Parser) (body trailer : List ℕ)
    → IsParser p
    → Safe IsParser (body_and_trailer p body trailer)
unfolding body_and_trailer
body_and_trailer-Safe p body trailer h =
    let v = values-Safe p body false h in
    let w = values-Safe (values p body false).0 trailer true v.0 in
    elim (Result-cases (values p body false).1) [
      | inl (vs, e) ↦ elim (Result-cases (values (values p body false).0 trailer true).1) [
        | inl (ws, f) ↦ rw (e, body_and_trailer) (rw f (w.0, tt))
        | inr (inl (x, f)) ↦ rw (e, body_and_trailer) (rw f (w.0, tt))
        | inr (inr (inl f)) ↦ absurd (rw f at w.1)
        | inr (inr (inr f)) ↦ absurd (rw f at w.1)
      ]
      | inr (inl (x, e)) ↦ rw (e, body_and_trailer) (v.0, tt)
      | inr (inr (inl e)) ↦ absurd (rw e at v.1)
      | inr (inr (inr e)) ↦ absurd (rw e at v.1)
    ]

packet_header-Answers : (b : List ℕ) → Answers (packet_header b)
unfolding packet_header
packet_header-Answers [] = tt
packet_header-Answers (x ∷ []) = ground arith
packet_header-Answers (x ∷ y ∷ []) = ground arith
packet_header-Answers (x ∷ y ∷ z ∷ []) = ground arith
packet_header-Answers (x ∷ y ∷ z ∷ w ∷ b) = ground arith

-- Whatever the bytes are, `Packet` answers with a packet or an error: it does not panic and does not
-- run for ever, and the parser's default prefixes stay long enough for their encodings.
pub packet-Safe :
    (p : Parser) (b : List ℕ) → IsParser p → IsParser (packet p b).0 × Answers (packet p b).1
unfolding packet
packet-Safe p b h = elim (Result-cases (packet_header b)) [
  | inl ((n, c), e) ↦ elim (Bool-cases (ltb (length c) n)) [
    | inl f ↦ rw (e, packet) (rw f (h, tt))
    | inr f ↦ rw (e, packet) (rw f (body_and_trailer-Safe p (take n c) (drop n c) h))
  ]
  | inr (inl (x, e)) ↦ rw (e, packet) (h, tt)
  | inr (inr (inl e)) ↦ absurd (rw e at (packet_header-Answers b))
  | inr (inr (inr e)) ↦ absurd (rw e at (packet_header-Answers b))
]
