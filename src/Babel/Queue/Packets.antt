-- ===== src/Babel/Queue/Packets.antt =====
-- The packets that the queue of internal/babel/internal/queue/queue.go writes, and what their
-- receiver reads.
use th.Base.{
  ℕ, ◌+◌, ◌-◌, ◌/◌, ◌%◌, ◌^◌, ◌<◌, ◌≤◌, ◌≡◌, refl, sym, ◌∙◌, Bool, false, List, [], ◌∷◌, ◌++◌, All,
  length, length-set, set, arith,
}
use th.Proto.Value.{Value}
use th.Proto.Result.{Result, ok}
use th.Proto.Encode.{append_packet, value_length, start_packet, finalize_packet}
use th.Proto.Decode.Fields.{Parser}
use th.Proto.Decode.Values.{packet}
use th.Proto.RoundTrip.Spec.{IsSentValue}
use th.Proto.RoundTrip.Packets.{
  body_only, finalize_packet-append_values, packet-append_packet, parser_after_values,
  on_wire_values,
}
use th.Babel.Queue.{send, is_empty}
use th.Babel.Queue.Send.{stamp_all, IsStopped, filling, fill_stops}

length-finalize_packet : (b : List ℕ) → length (finalize_packet b) ≡ length b
unfolding finalize_packet
length-finalize_packet b =
    length-set (set b 2 ((length b - 4) / 256 % 256)) 3 ((length b - 4) % 256)
    ∙ length-set b 2 ((length b - 4) / 256 % 256)

still-IsStopped :
    (mtu : ℕ) (c b : List ℕ) (left : List Value)
    → length b ≡ length c
    → IsStopped mtu c left
    → IsStopped mtu b left
still-IsStopped mtu c b [] e h = tt
still-IsStopped mtu c b (v ∷ vs) e (k, counted, over) = (k, counted, omega arith)

pub send-append_packet :
    (mtu : ℕ) (now : ℕ → ℕ) (queued : List Value)
    → All IsSentValue queued
    → 4 ≤ mtu
    → (taken : List Value) × (left : List Value) × (b : List ℕ) × (queued ≡ taken ++ left)
      × (send mtu now queued ≡ ok (b, left, is_empty left))
      × (append_packet [] (body_only (stamp_all now 0 taken)) ≡ ok b)
      × (length b ≤ mtu)
      × IsStopped mtu b left
      × All IsSentValue (stamp_all now 0 taken)
unfolding send start_packet
send-append_packet mtu now queued hs l =
    let f = filling mtu now 0 start_packet queued hs l in
    let len = length-finalize_packet f.buffer in
    (
      f.taken,
      f.left,
      finalize_packet f.buffer,
      f.split,
      rw f.filled refl,
      sym (finalize_packet-append_values (stamp_all now 0 f.taken)) ∙ (rw f.appended refl),
      rw len f.bounded,
      still-IsStopped mtu f.buffer (finalize_packet f.buffer) f.left len f.stopped,
      f.sendable,
    )

sent_once :
    (a b : List ℕ) (vs ws : List Value) (x y : Bool)
    → ◌≡◌ {A = Result (List ℕ × List Value × Bool)} (ok (a, vs, x)) (ok (b, ws, y))
    → (a ≡ b) × (vs ≡ ws)
sent_once a b vs ws x y e = (cc, cc)

within : (n mtu : ℕ) → n ≤ mtu → mtu < 2 ^ 16 + 4 → n < 2 ^ 16 + 4
within n mtu l h = omega arith

-- Any parser reads such a packet as what the wire carries of the values that were taken from the
-- queue, in their order, if the packet's body is below 2 ^ 16 bytes.
pub packet-send :
    (p : Parser) (mtu : ℕ) (now : ℕ → ℕ) (queued left : List Value) (b : List ℕ) (emptied : Bool)
    → All IsSentValue queued
    → 4 ≤ mtu
    → mtu < 2 ^ 16 + 4
    → send mtu now queued ≡ ok (b, left, emptied)
    → (taken : List Value) × (queued ≡ taken ++ left)
      × (let vs = stamp_all now 0 taken in
          packet p b ≡ (parser_after_values p vs, ok (body_only (on_wire_values p vs))))
packet-send p mtu now queued left b emptied hs l hi e =
    let (taken, left', b', split, sent, appended, bounded, stopped, sendable) =
      send-append_packet mtu now queued hs l in
    let same = sent_once b' b left' left (is_empty left') emptied (sym sent ∙ e) in
    (
      taken,
      rw (← same.1) split,
      rw (← same.0) (
          packet-append_packet p (stamp_all now 0 taken) b' sendable appended
            (within (length b') mtu bounded hi)),
    )

-- A value that does not fit an empty packet stays at the front for good: `send` writes a packet
-- without values, leaves the queue as it is and sets the timer to try again.
pub send_oversized :
    (mtu : ℕ) (now : ℕ → ℕ) (v : Value) (queued : List Value) (k : ℕ)
    → value_length v ≡ ok k
    → mtu < 4 + k
    → send mtu now (v ∷ queued) ≡ ok (start_packet, v ∷ queued, false)
unfolding send start_packet finalize_packet
send_oversized mtu now v queued k counted over =
    rw (fill_stops mtu now 0 k start_packet v queued counted (ground arith)) refl
