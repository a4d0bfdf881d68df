-- ===== src/Babel/Queue/Send.antt =====
-- What `send` of internal/babel/internal/queue/queue.go puts into a packet.
use th.Base.{
  ℕ, ◌+◌, ◌<◌, ◌≤◌, ◌≡◌, refl, sym, ap, ◌∙◌, inl, inr, true, false, List, [], ◌∷◌, ◌++◌, Option,
  none, some, All, leb, length, length-append, arith, Bool-cases,
}
use th.Proto.Value.{
  Value, Hello, hello, pad1, pad_n, acknowledgment_request, acknowledgment, ihu, router_id_value,
  next_hop, update, route_request, seqno_request,
}
use th.Proto.Result.{ok, ◌>>=◌}
use th.Proto.Encode.{append_value, append_values, value_length}
use th.Proto.RoundTrip.Spec.{IsSentValue}
use th.Proto.RoundTrip.Packets.{value_code}
use th.Babel.Queue.{stamp, stamp_hello, fill}

-- The values as they leave the queue: a Hello's timestamp is the time of sending.
abbrev pub stamp_all : (ℕ → ℕ) → ℕ → List Value → List Value
stamp_all now n [] = []
stamp_all now n (v ∷ vs) = (stamp now n v).1 ∷ stamp_all now (stamp now n v).0 vs

stamp_hello-IsSent :
    (now : ℕ → ℕ) (n : ℕ) (v : Hello) (ts : Option ℕ)
    → IsSentValue (hello v)
    → IsSentValue (stamp_hello now n v ts).1
stamp_hello-IsSent now n v none h = h
stamp_hello-IsSent now n v (some t) h = (h.0, h.1, omega arith)

value_length-stamp_hello :
    (now : ℕ → ℕ) (n : ℕ) (v : Hello) (ts : Option ℕ)
    → v.timestamp ≡ ts
    → value_length (stamp_hello now n v ts).1 ≡ value_length (hello v)
unfolding value_length
value_length-stamp_hello now n v none e = refl
value_length-stamp_hello now n v (some t) e = rw e refl

stamp-IsSent : (now : ℕ → ℕ) (n : ℕ) (v : Value) → IsSentValue v → IsSentValue (stamp now n v).1
unfolding stamp
stamp-IsSent now n (hello v) h = stamp_hello-IsSent now n v v.timestamp h
stamp-IsSent now n pad1 h = h
stamp-IsSent now n (pad_n k) h = h
stamp-IsSent now n (acknowledgment_request o i) h = h
stamp-IsSent now n (acknowledgment o) h = h
stamp-IsSent now n (ihu v) h = h
stamp-IsSent now n (router_id_value r) h = h
stamp-IsSent now n (next_hop a) h = h
stamp-IsSent now n (update v) h = h
stamp-IsSent now n (route_request v) h = h
stamp-IsSent now n (seqno_request v) h = h

value_length-stamp :
    (now : ℕ → ℕ) (n : ℕ) (v : Value) → value_length (stamp now n v).1 ≡ value_length v
unfolding stamp value_length
value_length-stamp now n (hello v) = value_length-stamp_hello now n v v.timestamp refl
value_length-stamp now n pad1 = refl
value_length-stamp now n (pad_n k) = refl
value_length-stamp now n (acknowledgment_request o i) = refl
value_length-stamp now n (acknowledgment o) = refl
value_length-stamp now n (ihu v) = refl
value_length-stamp now n (router_id_value r) = refl
value_length-stamp now n (next_hop a) = refl
value_length-stamp now n (update v) = refl
value_length-stamp now n (route_request v) = refl
value_length-stamp now n (seqno_request v) = refl

-- The first value that is left, if any, does not fit behind `c`.
abbrev pub IsStopped : ℕ → List ℕ → List Value → Type 0
IsStopped mtu c [] = Unit
IsStopped mtu c (v ∷ vs) = (k : ℕ) × (value_length v ≡ ok k) × (mtu < length c + k)

pub fill_takes :
    (mtu : ℕ) (now : ℕ → ℕ) (n k : ℕ) (b c : List ℕ) (v : Value) (vs : List Value)
    → value_length v ≡ ok k
    → leb (length b + k) mtu ≡ true
    → append_value b (stamp now n v).1 ≡ ok c
    → fill mtu now n b (v ∷ vs) ≡ fill mtu now (stamp now n v).0 c vs
unfolding fill
fill_takes mtu now n k b c v vs counted p w = rw (counted, ◌>>=◌, p) (rw w refl)

pub fill_stops :
    (mtu : ℕ) (now : ℕ → ℕ) (n k : ℕ) (b : List ℕ) (v : Value) (vs : List Value)
    → value_length v ≡ ok k
    → leb (length b + k) mtu ≡ false
    → fill mtu now n b (v ∷ vs) ≡ ok (b, v ∷ vs)
unfolding fill
fill_stops mtu now n k b v vs counted p = rw (counted, ◌>>=◌, p) refl

pub record Filling (mtu : ℕ) (now : ℕ → ℕ) (n : ℕ) (b : List ℕ) (vs : List Value) : Type 0 where
  pub taken : List Value
  pub left : List Value
  pub buffer : List ℕ
  pub split : vs ≡ taken ++ left
  pub filled : fill mtu now n b vs ≡ ok (buffer, left)
  pub appended : append_values b (stamp_all now n taken) ≡ ok buffer
  pub bounded : length buffer ≤ mtu
  pub stopped : IsStopped mtu buffer left
  pub sendable : All IsSentValue (stamp_all now n taken)

pub filling :
    (mtu : ℕ) (now : ℕ → ℕ) (n : ℕ) (b : List ℕ) (vs : List Value)
    → All IsSentValue vs
    → length b ≤ mtu
    → Filling mtu now n b vs
unfolding fill append_values
filling mtu now n b [] hs l = record {
  taken = [];
  left = [];
  buffer = b;
  split = refl;
  filled = refl;
  appended = refl;
  bounded = l;
  stopped = tt;
  sendable = tt;
}
filling mtu now n b (v ∷ vs) (h, hs) l =
    let w = (stamp now n v).1 in
    let code = value_code w (stamp-IsSent now n v h) in
    let len = length code.bytes in
    let counted : value_length v ≡ ok len = sym (value_length-stamp now n v) ∙ code.counted in
    let grown : length (b ++ code.bytes) ≡ length b + len = length-append b code.bytes in
    elim (Bool-cases (leb (length b + len) mtu)) [
      | inl p ↦
          let rest =
            filling mtu now (stamp now n v).0 (b ++ code.bytes) vs hs (ground (arith, grown, p)) in
          record {
            taken = v ∷ rest.taken;
            left = rest.left;
            buffer = rest.buffer;
            split = ap (λ (us : List Value). v ∷ us) rest.split;
            filled =
                fill_takes mtu now n len b (b ++ code.bytes) v vs counted p (code.writes b)
                ∙ rest.filled;
            appended = rw (code.writes b) rest.appended;
            bounded = rest.bounded;
            stopped = rest.stopped;
            sendable = (stamp-IsSent now n v h, rest.sendable);
          }
      | inr p ↦ record {
        taken = [];
        left = v ∷ vs;
        buffer = b;
        split = refl;
        filled = fill_stops mtu now n len b v vs counted p;
        appended = refl;
        bounded = l;
        stopped = (len, counted, ground (arith, p));
        sendable = tt;
      }
    ]
