-- ===== src/Core/Events/Hub.antt =====
-- The history and the channels of the hub in internal/core/events.go have no gaps.
use Prim.Native.Nat.{min}
use th.Base.{
  All-snoc, ℕ, ◌+◌, ◌-◌, ◌%◌, ◌^◌, ◌<◌, ◌≤◌, ◌≡◌, refl, sym, ap, ◌∙◌, true, false, ◌==◌, List, [],
  ◌∷◌, ◌++◌, none, if◌then◌else◌, length, All, length-append, arith,
}
use mathlib.Core.Path.{subst}
use th.Core.Events.{
  Event, Subscriber, EventHub, new_event_hub, send_all, trim, publish, subscribe, take_event,
  receive, cancel,
}
use th.Core.Events.Streams.{sequences, count_from, count_from-snoc, sequences-append}
use th.Core.Events.Fed.{
  IsFed, send_all-IsFed, at_id-IsFed, take_event-IsFed, trim-sequences, IsFed-new, length-trim,
}

pub record IsHub (h : EventHub) : Type 0 where
  pub history_stream :
      sequences h.history ≡ count_from (h.next + 1 - length h.history) (length h.history)
  pub history_length : length h.history ≡ min h.next h.capacity
  pub capacity_positive : 1 ≤ h.capacity
  pub fed : All (IsFed h.next) h.subscribers

-- What happens to a hub, until the sequence numbers are used up.
pub data Step (h : EventHub) : EventHub → Type 0 where
  step_publish : (now : ℕ) (event : Event) → h.next + 1 < 2 ^ 64 → Step h (publish now event h).0
  step_subscribe : (after : ℕ) → Step h (subscribe after h).0
  step_receive : (id : ℕ) → Step h (receive id h)
  step_cancel : (id : ℕ) → Step h (cancel id h)

pub data Reach (g : EventHub) : EventHub → Type 0 where
  here : Reach g g
  next_step : {h k : EventHub} → Reach g h → Step h k → Reach g k

publish-IsHub :
    (now : ℕ) (event : Event) (h : EventHub)
    → h.next + 1 < 2 ^ 64
    → IsHub h
    → IsHub (publish now event h).0
unfolding publish
publish-IsHub now event h small v =
    let n = length h.history in
    let next : (h.next + 1) % 2 ^ 64 ≡ h.next + 1 = omega arith in
    let new : Event = record event {
      sequence = (h.next + 1) % 2 ^ 64;
      time = if event.time == 0 then now else event.time;
    } in
    let kept : Event = record new { status = none } in
    let all = h.history ++ (kept ∷ []) in
    let grown : length all ≡ n + 1 = length-append h.history (kept ∷ []) in
    let len : length (trim h.capacity all) ≡ min h.capacity (n + 1) =
      length-trim h.capacity all ∙ ap (min h.capacity) grown in
    let hl = v.history_length in
    let cap = v.capacity_positive in
    let stream : sequences all ≡ count_from (h.next + 1 - n) (n + 1) =
      sequences-append h.history (kept ∷ [])
      ∙ ap (λ (t : List ℕ). t ++ (kept.sequence ∷ [])) v.history_stream
      ∙ count_from-snoc (h.next + 1 - n) kept.sequence n (omega arith) in
    let trimmed = trim-sequences (h.next + 1 - n) (n + 1) h.capacity all stream in
    let from : h.next + 1 - n + (n + 1 - h.capacity)
        ≡ (h.next + 1) % 2 ^ 64 + 1 - length (trim h.capacity all) =
      omega arith in
    let many : n + 1 - (n + 1 - h.capacity) ≡ length (trim h.capacity all) = omega arith in
    let sent = send_all-IsFed h.next new h.subscribers next v.fed in
    record {
      history_stream = trimmed ∙ (λ i. count_from (from i) (many i));
      history_length = omega arith;
      capacity_positive = cap;
      fed = subst (λ (t : ℕ). All (IsFed t) (send_all new h.subscribers)) (sym next) sent;
    }

subscribe-IsHub : (after : ℕ) (h : EventHub) → IsHub h → IsHub (subscribe after h).0
unfolding subscribe
subscribe-IsHub after h v =
    let new : Subscriber = record {
      id = (h.next_sub + 1) % 2 ^ 64;
      current = h.next;
      listed = true;
      closed = false;
      buffer = [];
      received = [];
    } in
    record {
      history_stream = v.history_stream;
      history_length = v.history_length;
      capacity_positive = v.capacity_positive;
      fed = All-snoc (IsFed h.next) h.subscribers new v.fed (IsFed-new h.next new.id);
    }

Step-IsHub : {h k : EventHub} → Step h k → IsHub h → IsHub k
unfolding receive cancel
Step-IsHub {h} (step_publish now event small) v = publish-IsHub now event h small v
Step-IsHub {h} (step_subscribe after) v = subscribe-IsHub after h v
Step-IsHub {h} (step_receive id) v = record {
  history_stream = v.history_stream;
  history_length = v.history_length;
  capacity_positive = v.capacity_positive;
  fed = at_id-IsFed h.next id take_event h.subscribers (take_event-IsFed h.next) v.fed;
}
Step-IsHub {h} (step_cancel id) v = record {
  history_stream = v.history_stream;
  history_length = v.history_length;
  capacity_positive = v.capacity_positive;
  fed =
      at_id-IsFed h.next id (λ s. record s { listed = false }) h.subscribers
        (λ s f. record {
          stream = f.stream;
          behind = f.behind;
          complete = λ p. cc;
          unlisted = λ p. refl;
        })
        v.fed;
}

new_event_hub-IsHub : (capacity : ℕ) → IsHub (new_event_hub capacity)
unfolding new_event_hub
new_event_hub-IsHub capacity = record {
  history_stream = refl;
  history_length = omega arith;
  capacity_positive = ground arith;
  fed = tt;
}

-- While fewer than 2 ^ 64 events are published, the history of a hub is the last events that were
-- published, up to its capacity, without a gap; and the events that a subscriber has received and those
-- that wait for it are the events after its `Current` without a gap, all of them up to the last one
-- published unless the hub has dropped the subscriber or the client has cancelled.
pub Reach-IsHub : (capacity : ℕ) (h : EventHub) → Reach (new_event_hub capacity) h → IsHub h
Reach-IsHub capacity h here = new_event_hub-IsHub capacity
Reach-IsHub capacity h (next_step {h = g} r s) = Step-IsHub s (Reach-IsHub capacity g r)
