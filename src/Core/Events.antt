-- ===== src/Core/Events.antt =====
-- The event hub of internal/core/events.go. The mutex makes each method a step. A subscriber is what
-- the two ends of its channel hold: the events in the channel, whether the hub still lists the channel,
-- whether it is closed, and the events that the client has taken out so far.
pub mod Streams
pub mod Fed
pub mod Hub
pub mod Replay
use th.Base.{
  ℕ, ◌+◌, ◌-◌, ◌%◌, ◌^◌, Bool, true, false, ◌&&◌, not, ltb, ◌==◌, List, [], ◌∷◌, ◌++◌, Option, none,
  some, if◌then◌else◌, length, drop,
}
use th.Base.Text.{Text}
use th.Model.Types.{Kind, Phase, Status}

pub data EventType : Type 0 where
  event_connected event_heartbeat event_status event_deleted : EventType

pub record Event : Type 0 where
  pub sequence : ℕ
  pub time : ℕ
  pub event_type : EventType
  pub tunnel_id : Text
  pub tunnel_name : Text
  pub tunnel_kind : Kind
  pub enabled : Bool
  pub generation : ℕ
  pub phase : Phase
  pub message : Text
  pub details : List (Text × Text)
  pub status : Option Status

-- `current` is `EventSubscription.Current`.
pub record Subscriber : Type 0 where
  pub id : ℕ
  pub current : ℕ
  pub listed : Bool
  pub closed : Bool
  pub buffer : List Event
  pub received : List Event

pub record EventHub : Type 0 where
  pub next : ℕ
  pub capacity : ℕ
  pub history : List Event
  pub subscribers : List Subscriber
  pub next_sub : ℕ

pub record EventSubscription : Type 0 where
  pub replay : List Event
  pub current : ℕ
  pub oldest : ℕ
  pub gap : Bool

unfoldable pub new_event_hub : ℕ → EventHub
new_event_hub capacity = record {
  next = 0;
  capacity = if ltb capacity 1 then 1 else capacity;
  history = [];
  subscribers = [];
  next_sub = 0;
}

abbrev pub channel_capacity : ℕ
channel_capacity = 64

-- One round of the loop over the subscribers: the event enters the channel, or the channel is full.
unfoldable pub send : Event → Subscriber → Subscriber
send event s =
    if s.listed
    then (if ltb (length s.buffer) channel_capacity
        then record s { buffer = s.buffer ++ (event ∷ []) }
        else record s { closed = true; listed = false })
    else s

unfoldable pub send_all : Event → List Subscriber → List Subscriber
send_all event [] = []
send_all event (s ∷ subscribers) = send event s ∷ send_all event subscribers

-- The last `n` events.
unfoldable pub trim : ℕ → List Event → List Event
trim n events = drop (length events - n) events

-- `now` is the time of the call.
unfoldable pub publish : ℕ → Event → EventHub → EventHub × Event
publish now event h =
    let next = (h.next + 1) % 2 ^ 64 in
    let event' = record event {
      sequence = next;
      time = if event.time == 0 then now else event.time;
    } in
    let history = h.history ++ (record event' { status = none } ∷ []) in
    (
      record h {
        next = next;
        history = trim h.capacity history;
        subscribers = send_all event' h.subscribers;
      },
      event',
    )

unfoldable pub events_after : ℕ → List Event → List Event
events_after after [] = []
events_after after (e ∷ events) =
    if ltb after e.sequence then e ∷ events_after after events else events_after after events

unfoldable pub first_sequence : ℕ → List Event → ℕ
first_sequence otherwise [] = otherwise
first_sequence otherwise (e ∷ events) = e.sequence

unfoldable pub oldest_of : EventHub → ℕ
oldest_of h = first_sequence ((h.next + 1) % 2 ^ 64) h.history

unfoldable pub subscribe : ℕ → EventHub → EventHub × EventSubscription
subscribe after h =
    let id = (h.next_sub + 1) % 2 ^ 64 in
    let oldest = oldest_of h in
    (
      record h {
        next_sub = id;
        subscribers =
            h.subscribers
            ++ (record {
              id = id;
              current = h.next;
              listed = true;
              closed = false;
              buffer = [];
              received = [];
            }
                ∷ []);
      },
      record {
        replay = events_after after h.history;
        current = h.next;
        oldest = oldest;
        gap = not (after == 0) && ltb 1 oldest && ltb after (oldest - 1);
      },
    )

-- The client takes the event that is first in the channel.
unfoldable pub take_first : Subscriber → List Event → Subscriber
take_first s [] = s
take_first s (e ∷ events) = record s { buffer = events; received = s.received ++ (e ∷ []) }

unfoldable pub take_event : Subscriber → Subscriber
take_event s = take_first s s.buffer

unfoldable pub at_id : ℕ → (Subscriber → Subscriber) → List Subscriber → List Subscriber
at_id id f [] = []
at_id id f (s ∷ subscribers) = (if s.id == id then f s else s) ∷ at_id id f subscribers

unfoldable pub receive : ℕ → EventHub → EventHub
receive id h = record h { subscribers = at_id id take_event h.subscribers }

-- `Cancel`: the hub forgets the channel, and does not close it.
unfoldable pub cancel : ℕ → EventHub → EventHub
cancel id h = record h { subscribers = at_id id (λ s. record s { listed = false }) h.subscribers }
