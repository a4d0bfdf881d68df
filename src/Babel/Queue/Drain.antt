-- ===== src/Babel/Queue/Drain.antt =====
-- The loop `run` of internal/babel/internal/queue/queue.go empties the queue.
use mathlib.Core.Path.{subst}
use th.Base.{
  ℕ, zero, suc, ◌+◌, ◌<◌, ◌≤◌, ◌≡◌, refl, sym, ap, ◌∙◌, true, false, List, [], ◌∷◌, ◌++◌, All,
  length, length-append, arith,
}
use th.Proto.Value.{Value}
use th.Proto.Result.{Result, ok, ◌>>=◌}
use th.Proto.Encode.{append_packet, value_length}
use th.Proto.RoundTrip.Spec.{IsSentValue}
use th.Proto.RoundTrip.Packets.{body_only, append_packet-values_length}
use th.Babel.Queue.{send, is_empty, run}
use th.Babel.Queue.Send.{stamp_all, IsStopped}
use th.Babel.Queue.Packets.{send-append_packet}

-- The value fits a packet of its own.
abbrev pub Fits : ℕ → Value → Type 0
Fits mtu v = (k : ℕ) × (value_length v ≡ ok k) × (4 + k ≤ mtu)

abbrev pub concat : List (List Value) → List Value
concat [] = []
concat (vs ∷ chunks) = vs ++ concat chunks

-- Each packet holds its chunk, with the times of sending. `n` more timers may fire.
abbrev pub Carried : (ℕ → ℕ → ℕ) → ℕ → List (List Value) → List (List ℕ) → Type 0
Carried now n [] [] = Unit
Carried now (suc n) (vs ∷ chunks) (b ∷ packets) =
    (append_packet [] (body_only (stamp_all (now n) 0 vs)) ≡ ok b) × Carried now n chunks packets
Carried now n chunks packets = ⊥

All-right {ℓ κ} : {A : Type ℓ} (P : A → Type κ) (xs ys : List A) → All P (xs ++ ys) → All P ys
All-right P [] ys h = h
All-right P (x ∷ xs) ys (p, h) = All-right P xs ys h

ok-injective {ℓ} : {A : Type ℓ} (a b : A) → ◌≡◌ {A = Result A} (ok a) (ok b) → a ≡ b
ok-injective a b h = cc

empty_packet :
    (now : ℕ → ℕ) (b : List ℕ)
    → append_packet [] (body_only (stamp_all now 0 [])) ≡ ok b
    → length b ≡ 4
empty_packet now b h =
    let (b', e, counted) = append_packet-values_length [] tt in
    ap length (sym (ok-injective b' b (sym e ∙ h))) ∙ sym (ok-injective 4 (length b') counted)

-- A packet that leaves something takes something.
taken-positive :
    (mtu : ℕ) (now : ℕ → ℕ) (taken : List Value) (v : Value) (left : List Value) (b : List ℕ)
    → append_packet [] (body_only (stamp_all now 0 taken)) ≡ ok b
    → IsStopped mtu b (v ∷ left)
    → Fits mtu v
    → 1 ≤ length taken
taken-positive mtu now [] v left b h (k, counted, over) (k', counted', fits) =
    let n = empty_packet now b h in
    let same : k ≡ k' = ok-injective k k' (sym counted ∙ counted') in
    absurd (omega (arith, n, same))
taken-positive mtu now (w ∷ taken) v left b h s f = omega arith

record Drained (mtu : ℕ) (now : ℕ → ℕ → ℕ) (n : ℕ) (queued : List Value) : Type 0 where
  chunks : List (List Value)
  packets : List (List ℕ)
  order : queued ≡ concat chunks
  finished : run mtu now n queued ≡ ok (packets, [])
  carried : Carried now n chunks packets

run_last :
    (mtu : ℕ) (now : ℕ → ℕ → ℕ) (n : ℕ) (queued left : List Value) (b : List ℕ)
    → send mtu (now n) queued ≡ ok (b, left, true)
    → run mtu now (suc n) queued ≡ ok (b ∷ [], left)
unfolding run
run_last mtu now n queued left b h = rw (h, ◌>>=◌) refl

run_next :
    (mtu : ℕ) (now : ℕ → ℕ → ℕ) (n : ℕ) (queued left last : List Value) (b : List ℕ)
    (bs : List (List ℕ))
    → send mtu (now n) queued ≡ ok (b, left, false)
    → run mtu now n left ≡ ok (bs, last)
    → run mtu now (suc n) queued ≡ ok (b ∷ bs, last)
unfolding run
run_next mtu now n queued left last b bs h g = rw (h, ◌>>=◌, g) refl

module _ (mtu : ℕ) (now : ℕ → ℕ → ℕ) (l : 4 ≤ mtu) where
  -- One packet, and then the others, which `rest` drains.
  Drained-cons :
      (n : ℕ) (queued taken left : List Value) (b : List ℕ)
      → ((v : Value) (vs : List Value) → left ≡ v ∷ vs → Drained mtu now n left)
      → queued ≡ taken ++ left
      → send mtu (now n) queued ≡ ok (b, left, is_empty left)
      → append_packet [] (body_only (stamp_all (now n) 0 taken)) ≡ ok b
      → Drained mtu now (suc n) queued
  Drained-cons n queued taken [] b rest split done appended = record {
    chunks = taken ∷ [];
    packets = b ∷ [];
    order = split;
    finished = run_last mtu now n queued [] b done;
    carried = (appended, tt);
  }
  Drained-cons n queued taken (v ∷ left) b rest split done appended =
      let d = rest v left refl in
      record {
        chunks = taken ∷ d.chunks;
        packets = b ∷ d.packets;
        order = split ∙ ap (λ (vs : List Value). taken ++ vs) d.order;
        finished = run_next mtu now n queued (v ∷ left) [] b d.packets done d.finished;
        carried = (appended, d.carried);
      }

  -- What is left is shorter.
  left_shorter :
      (n : ℕ) (queued taken left : List Value) (b : List ℕ) (v : Value) (vs : List Value)
      → left ≡ v ∷ vs
      → queued ≡ taken ++ left
      → append_packet [] (body_only (stamp_all (now n) 0 taken)) ≡ ok b
      → IsStopped mtu b left
      → All (Fits mtu) left
      → length left < length queued
  left_shorter n queued taken left b v vs e split appended stopped fits =
      let f = subst (All (Fits mtu)) e fits in
      let s = subst (IsStopped mtu b) e stopped in
      let some_taken = taken-positive mtu (now n) taken v vs b appended s f.0 in
      let all = ap length split ∙ length-append taken left in omega (arith, some_taken, all)

  Drained-send :
      (n : ℕ) (queued : List Value)
      → All IsSentValue queued
      → All (Fits mtu) queued
      → ((left : List Value)
          → All IsSentValue left
          → All (Fits mtu) left
          → length left < length queued
          → Drained mtu now n left)
      → Drained mtu now (suc n) queued
  Drained-send n queued sent fits rest =
      let (taken, left, b, split, done, appended, bounded, stopped, sendable) =
        send-append_packet mtu (now n) queued sent l in
      let left_sent = All-right IsSentValue taken left (subst (All IsSentValue) split sent) in
      let left_fits = All-right (Fits mtu) taken left (subst (All (Fits mtu)) split fits) in
      Drained-cons n queued taken left b
        (λ v vs e.
          rest left left_sent left_fits
            (left_shorter n queued taken left b v vs e split appended stopped left_fits))
        split done appended

  run-Drained :
      (n : ℕ) (queued : List Value)
      → All IsSentValue queued
      → All (Fits mtu) queued
      → length queued ≤ n
      → Drained mtu now (suc n) queued
  run-Drained zero queued sent fits short =
      Drained-send zero queued sent fits (λ left s f lt. absurd (omega (arith, lt, short)))
  run-Drained (suc n) queued sent fits short =
      Drained-send (suc n) queued sent fits
        (λ left s f lt. run-Drained n left s f (omega (arith, lt, short)))

-- The queue is emptied: where each value can be sent and fits a packet of its own, and the timer may fire
-- once more than there are values, nothing is left, and the packets written are those of consecutive
-- parts of the queue, in order.
pub run-concat :
    (mtu : ℕ) (now : ℕ → ℕ → ℕ) (n : ℕ) (queued : List Value)
    → 4 ≤ mtu
    → All IsSentValue queued
    → All (Fits mtu) queued
    → length queued ≤ n
    → (chunks : List (List Value)) × (packets : List (List ℕ)) × (queued ≡ concat chunks)
      × (run mtu now (suc n) queued ≡ ok (packets, []))
      × Carried now (suc n) chunks packets
run-concat mtu now n queued l sent fits short =
    let d = run-Drained mtu now l n queued sent fits short in
    (d.chunks, d.packets, d.order, d.finished, d.carried)
