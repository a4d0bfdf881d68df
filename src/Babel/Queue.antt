-- ===== src/Babel/Queue.antt =====
-- The send queue of internal/babel/internal/queue/queue.go. Each method holds the lock, so it is a
-- function of the queued values; the writer gets the packet that `send` answers with. The buffer has
-- the capacity `mtu` and, since what is appended fits, keeps it.
pub mod Send
pub mod Packets
pub mod Drain
use th.Base.{
  ℕ, zero, suc, ◌+◌, ◌%◌, ◌^◌, Bool, true, false, List, [], ◌∷◌, ◌++◌, Option, none, some, leb,
  if◌then◌else◌, length,
}
use th.Proto.Value.{Hello, Value}
use th.Proto.Value.{
  pad1, pad_n, acknowledgment_request, acknowledgment, hello, ihu, router_id_value, next_hop,
}
use th.Proto.Value.{update, route_request, seqno_request}
use th.Proto.Result.{Result, ok, ◌>>=◌}
use th.Proto.Encode.{append_value, value_length, start_packet, finalize_packet}

unfoldable pub push : List Value → List Value → List Value
push queued vs = queued ++ vs

-- `hello.Timestamp.Transmit = ...` for a Hello that carries a timestamp; `n` clocks were read so far,
-- and the n-th reading is `now n` microseconds.
abbrev pub stamp_hello : (ℕ → ℕ) → ℕ → Hello → Option ℕ → ℕ × Value
stamp_hello now n v none = (n, hello v)
stamp_hello now n v (some t) = (suc n, hello (record v { timestamp = some (now n % 2 ^ 32) }))

unfoldable pub stamp : (ℕ → ℕ) → ℕ → Value → ℕ × Value
stamp now n (hello v) = stamp_hello now n v v.timestamp
stamp now n v = (n, v)

-- `popIf` until the queue is empty or its first value does not fit: the buffer and what is left.
unfoldable pub fill : ℕ → (ℕ → ℕ) → ℕ → List ℕ → List Value → Result (List ℕ × List Value)
unfolding stamp
fill mtu now n b [] = ok (b, [])
fill mtu now n b (v ∷ queued) = do
  len ← value_length v
  elim (leb (length b + len) mtu) [
    | true ↦ (append_value b (stamp now n v).1 >>= λ c. fill mtu now (stamp now n v).0 c queued)
    | false ↦ ok (b, v ∷ queued)
  ]

abbrev pub is_empty : List Value → Bool
is_empty [] = true
is_empty (v ∷ vs) = false

-- The packet that is written, the values left, and whether the queue was emptied; if it was not, the
-- timer is set for the next packet.
unfoldable pub send : ℕ → (ℕ → ℕ) → List Value → Result (List ℕ × List Value × Bool)
unfolding fill
send mtu now queued = do
  (b, left) ← fill mtu now 0 start_packet queued
  ok (finalize_packet b, left, is_empty left)

-- The loop `run` while nothing is pushed, the writer takes every packet and `n` timers may fire: the packets
-- written and what is left. The clock of a round is `now n`.
unfoldable pub run : ℕ → (ℕ → ℕ → ℕ) → ℕ → List Value → Result (List (List ℕ) × List Value)
unfolding send
run mtu now zero queued = ok ([], queued)
run mtu now (suc n) queued = do
  (b, left, emptied) ← send mtu (now n) queued
  elim emptied [
    | true ↦ ok (b ∷ [], left)
    | false ↦ (run mtu now n left >>= λ r. ok (b ∷ r.0, r.1))
  ]
