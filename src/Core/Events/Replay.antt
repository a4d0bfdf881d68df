-- ===== src/Core/Events/Replay.antt =====
-- What a client of internal/core/events.go gets when it connects again.
use th.Base.{
  ℕ, zero, suc, ◌+◌, ◌-◌, ◌%◌, ◌^◌, ◌<◌, ◌≤◌, ◌≡◌, ◌↔◌, refl, sym, ap, ◌∙◌, inl, inr, true, false,
  ltb, List, [], ◌∷◌, length, Bool-cases, arith,
}
use th.Core.Events.{
  Event, EventHub, new_event_hub, events_after, first_sequence, oldest_of, subscribe,
}
use th.Core.Events.Streams.{sequences, count_from, length-count_from}
use th.Core.Events.Hub.{IsHub, Reach, Reach-IsHub}

events_after-all :
    (x a n : ℕ) (events : List Event)
    → sequences events ≡ count_from a n
    → x < a
    → events_after x events ≡ events
unfolding events_after
events_after-all x a n [] e lt = refl
events_after-all x a zero (y ∷ events) e lt = absurd (ground (arith, e))
events_after-all x a (suc n) (y ∷ events) e lt =
    ground (arith, e, events_after-all x (a + 1) n events)

events_after-count :
    (x a n : ℕ) (events : List Event)
    → sequences events ≡ count_from a n
    → a ≤ x + 1
    → sequences (events_after x events) ≡ count_from (x + 1) (a + n - (x + 1))
unfolding events_after
events_after-count x a zero [] e le = ground arith
events_after-count x a (suc n) [] e le = absurd (ground (arith, e))
events_after-count x a zero (y ∷ events) e le = absurd (ground (arith, e))
events_after-count x a (suc n) (y ∷ events) e le =
    let head : y.sequence ≡ a = ground (arith, e) in
    let tail : sequences events ≡ count_from (a + 1) n = cc in
    elim (Bool-cases (ltb x y.sequence)) [
      | inl first ↦
          let at : a ≡ x + 1 = ground arith in
          let rest = events_after-all x (a + 1) n events tail (omega arith) in
          let size : a + suc n - (x + 1) ≡ suc n = omega arith in
          rw first (
            ap (λ (t : List Event). y.sequence ∷ sequences t) rest
            ∙ e
            ∙ ap (λ (t : ℕ). count_from t (suc n)) at
            ∙ ap (count_from (x + 1)) (sym size))
      | inr before ↦
          let at : a ≤ x = ground arith in
          let size : a + 1 + n - (x + 1) ≡ a + suc n - (x + 1) = omega arith in
          rw before (
            events_after-count x (a + 1) n events tail (omega arith) ∙ ap (count_from (x + 1)) size)
    ]

first_sequence-count :
    (d a n : ℕ) (events : List Event)
    → sequences events ≡ count_from a n
    → d ≡ a + n
    → first_sequence d events ≡ a
unfolding first_sequence
first_sequence-count d a zero [] e q = omega arith
first_sequence-count d a (suc n) [] e q = absurd (ground (arith, e))
first_sequence-count d a zero (y ∷ events) e q = absurd (ground (arith, e))
first_sequence-count d a (suc n) (y ∷ events) e q = ground (arith, e)

true-false : true ≡ false → ⊥
true-false e = cc

-- The sequence number of the oldest event in the history, or of the next event.
oldest-IsHub :
    (h : EventHub) → h.next + 1 < 2 ^ 64 → IsHub h → oldest_of h ≡ h.next + 1 - length h.history
unfolding oldest_of
oldest-IsHub h small v =
    first_sequence-count ((h.next + 1) % 2 ^ 64) (h.next + 1 - length h.history) (length h.history)
      h.history v.history_stream (omega (arith, v.history_length))

-- After a reconnect with the last sequence number `after` that a client has seen, `Gap` is false
-- exactly when the replay holds all events after it, in order.
pub subscribe-gap :
    (capacity after : ℕ) (h : EventHub)
    → Reach (new_event_hub capacity) h
    → h.next + 1 < 2 ^ 64
    → 1 ≤ after
    → after ≤ h.next
    → ((subscribe after h).1.gap ≡ false)
      ↔ (sequences (subscribe after h).1.replay ≡ count_from (after + 1) (h.next - after))
unfolding subscribe
subscribe-gap capacity after h r small p le =
    let v = Reach-IsHub capacity h r in
    let n = length h.history in
    let o = oldest-IsHub h small v in
    let len : n ≤ h.next = omega (arith, v.history_length) in
    elim (Bool-cases (ltb after (h.next - n))) [
      | inl lost ↦
          let gap : (subscribe after h).1.gap ≡ true = ground (arith, o) in
          let all =
            events_after-all after (h.next + 1 - n) n h.history v.history_stream (ground arith) in
          let stream = ap sequences all ∙ v.history_stream in
          (
            (λ q. absurd (true-false (sym gap ∙ q))),
            (λ q.
                let same = ap length (sym stream ∙ q) in
                let short : n ≡ h.next - after =
                  sym (length-count_from (h.next + 1 - n) n)
                  ∙ same
                  ∙ length-count_from (after + 1) (h.next - after) in
                absurd (ground arith)),
          )
      | inr whole ↦
          let gap : (subscribe after h).1.gap ≡ false = ground (arith, o) in
          let stream =
            events_after-count after (h.next + 1 - n) n h.history v.history_stream (ground arith) in
          let size : h.next + 1 - n + n - (after + 1) ≡ h.next - after = omega arith in
          ((λ q. stream ∙ ap (count_from (after + 1)) size), (λ q. gap))
    ]
