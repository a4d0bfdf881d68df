-- ===== src/Core/Events/Fed.antt =====
-- What one subscriber of the hub in internal/core/events.go has received and has waiting.
use Prim.Native.Nat.{min}
use th.Base.{
  ℕ, ◌+◌, ◌-◌, ◌≤◌, ◌≡◌, refl, sym, ap, ◌∙◌, inl, inr, true, false, ltb, ◌==◌, List, [], ◌∷◌, ◌++◌,
  length, All, length-append, length-drop, Bool-cases, arith,
}
use mathlib.Core.Path.{subst}
use mathlib.Core.List.{append_assoc}
use th.Core.Events.{Event, Subscriber, send, send_all, trim, take_first, take_event, at_id}
use th.Core.Events.Streams.{
  sequences, count_from, count_from-snoc, count_from-drop, length-count_from, sequences-append,
  sequences-drop, length-sequences,
}

-- The events that the client has taken and those that wait for it are those from `current + 1` on; up
-- to the last one that was published, while the hub lists the channel.
pub record IsFed (next : ℕ) (s : Subscriber) : Type 0 where
  pub stream :
      sequences (s.received ++ s.buffer)
      ≡ count_from (s.current + 1) (length (s.received ++ s.buffer))
  pub behind : s.current + length (s.received ++ s.buffer) ≤ next
  pub complete : s.listed ≡ true → s.current + length (s.received ++ s.buffer) ≡ next
  pub unlisted : s.closed ≡ true → s.listed ≡ false

IsFed-append :
    (next : ℕ) (event : Event) (s : Subscriber)
    → event.sequence ≡ next + 1
    → IsFed next s
    → s.listed ≡ true
    → IsFed (next + 1) (record s { buffer = s.buffer ++ (event ∷ []) })
IsFed-append next event s e f listed =
    let all = s.received ++ s.buffer in
    let regroup : s.received ++ (s.buffer ++ (event ∷ [])) ≡ all ++ (event ∷ []) =
      sym (append_assoc s.received s.buffer (event ∷ [])) in
    let n = length all in
    let now = f.complete listed in
    let len : length (s.received ++ (s.buffer ++ (event ∷ []))) ≡ n + 1 =
      ap length regroup ∙ length-append all (event ∷ []) in
    record {
      stream =
          ap sequences regroup
          ∙ sequences-append all (event ∷ [])
          ∙ ap (λ (t : List ℕ). t ++ (event.sequence ∷ [])) f.stream
          ∙ count_from-snoc (s.current + 1) event.sequence n (omega arith)
          ∙ ap (count_from (s.current + 1)) (sym len);
      behind = omega (arith, len, now);
      complete = λ p. omega (arith, len, now);
      unlisted = f.unlisted;
    }

send-IsFed :
    (next : ℕ) (event : Event) (s : Subscriber)
    → event.sequence ≡ next + 1
    → IsFed next s
    → IsFed (next + 1) (send event s)
unfolding send
send-IsFed next event s e f = elim (Bool-cases s.listed) [
  | inl listed ↦ elim (Bool-cases (ltb (length s.buffer) 64)) [
    | inl room ↦
        let sent : send event s ≡ record s { buffer = s.buffer ++ (event ∷ []) } = ground arith in
        subst (IsFed (next + 1)) (sym sent) (IsFed-append next event s e f listed)
    | inr full ↦
        let sent : send event s ≡ record s { closed = true; listed = false } = ground arith in
        subst (IsFed (next + 1)) (sym sent) (record {
          stream = f.stream;
          behind = omega (arith, f.behind);
          complete = λ p. cc;
          unlisted = λ p. refl;
        })
  ]
  | inr gone ↦
      let sent : send event s ≡ s = ground arith in
      subst (IsFed (next + 1)) (sym sent) (record {
        stream = f.stream;
        behind = omega (arith, f.behind);
        complete = λ p. cc;
        unlisted = f.unlisted;
      })
]

pub send_all-IsFed :
    (next : ℕ) (event : Event) (subscribers : List Subscriber)
    → event.sequence ≡ next + 1
    → All (IsFed next) subscribers
    → All (IsFed (next + 1)) (send_all event subscribers)
unfolding send_all
send_all-IsFed next event [] e f = tt
send_all-IsFed next event (s ∷ subscribers) e (f, g) =
    (send-IsFed next event s e f, send_all-IsFed next event subscribers e g)

pub at_id-IsFed :
    (next id : ℕ) (f : Subscriber → Subscriber) (subscribers : List Subscriber)
    → ((s : Subscriber) → IsFed next s → IsFed next (f s))
    → All (IsFed next) subscribers
    → All (IsFed next) (at_id id f subscribers)
unfolding at_id
at_id-IsFed next id f [] keep fed = tt
at_id-IsFed next id f (s ∷ subscribers) keep (p, q) = elim (Bool-cases (s.id == id)) [
  | inl e ↦ rw e (keep s p, at_id-IsFed next id f subscribers keep q)
  | inr e ↦ rw e (p, at_id-IsFed next id f subscribers keep q)
]

take_first-IsFed :
    (next : ℕ) (s : Subscriber) (buffer : List Event)
    → s.buffer ≡ buffer
    → IsFed next s
    → IsFed next (take_first s buffer)
unfolding take_first
take_first-IsFed next s [] h f = f
take_first-IsFed next s (e ∷ events) h f =
    let regroup : (s.received ++ (e ∷ [])) ++ events ≡ s.received ++ s.buffer =
      append_assoc s.received (e ∷ []) events ∙ ap (λ (t : List Event). s.received ++ t) (sym h) in
    let len = ap length regroup in
    record {
      stream = ap sequences regroup ∙ f.stream ∙ ap (count_from (s.current + 1)) (sym len);
      behind = omega (arith, len, f.behind);
      complete = λ p. omega (arith, len, f.complete p);
      unlisted = f.unlisted;
    }

pub take_event-IsFed : (next : ℕ) (s : Subscriber) → IsFed next s → IsFed next (take_event s)
unfolding take_event
take_event-IsFed next s f = take_first-IsFed next s s.buffer refl f

pub trim-sequences :
    (a n k : ℕ) (events : List Event)
    → sequences events ≡ count_from a n
    → sequences (trim k events) ≡ count_from (a + (n - k)) (n - (n - k))
unfolding trim
trim-sequences a n k events e =
    let l : length events ≡ n =
      sym (length-sequences events) ∙ ap length e ∙ length-count_from a n in
    sequences-drop (length events - k) events ∙ rw e (rw l (count_from-drop (n - k) a n))

pub IsFed-new :
    (next id : ℕ)
    → IsFed next (record {
      id = id;
      current = next;
      listed = true;
      closed = false;
      buffer = [];
      received = [];
    })
IsFed-new next id = record {
  stream = refl;
  behind = omega arith;
  complete = λ p. omega arith;
  unlisted = λ p. cc;
}

pub length-trim : (k : ℕ) (events : List Event) → length (trim k events) ≡ min k (length events)
unfolding trim
length-trim k events = omega (arith, length-drop (length events - k) events)
