-- ===== src/Babel/Deadline.antt =====
-- The timer of internal/babel/internal/deadline/deadline.go. The mutex makes each method, and the function
-- that a timer calls, one step. `timers` are the generations of the timers that were started: stopping a
-- timer may come too late, so each of them may still call its function.
pub mod Stale
use th.Base.{ℕ, ◌+◌, ◌%◌, ◌^◌, Bool, true, false, ◌||◌, not, ◌==◌, List, [], ◌∷◌, if◌then◌else◌}

-- `waiting`: the channel, of capacity 1, holds a value.
pub record Deadline : Type 0 where
  pub waiting : Bool
  pub expired : Bool
  pub generation : ℕ
  pub closed : Bool
  pub timers : List ℕ

abbrev pub new_deadline : Deadline
new_deadline = record {
  waiting = false;
  expired = false;
  generation = 0;
  closed = false;
  timers = [];
}

abbrev pub next_generation : Deadline → ℕ
next_generation d = (d.generation + 1) % 2 ^ 64

unfoldable pub close : Deadline → Deadline
close d = if d.closed then d else record d { closed = true; generation = next_generation d }

unfoldable pub reset_timer : Deadline → Deadline
reset_timer d = if d.closed then d else record d {
  expired = false;
  generation = next_generation d;
  timers = next_generation d ∷ d.timers;
}

-- The function of the timer that was started in generation `g`.
unfoldable pub fire : ℕ → Deadline → Deadline
fire g d =
    if d.closed || not (d.generation == g) then d else record d { expired = true; waiting = true }

unfoldable pub stop : Deadline → Deadline
stop d = record d { generation = next_generation d }

-- A receiver takes the value from the channel.
unfoldable pub take_expiry : Deadline → Deadline
take_expiry d = record d { waiting = false }
