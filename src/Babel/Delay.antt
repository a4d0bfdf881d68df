-- ===== src/Babel/Delay.antt =====
-- The sample window, the median filter and the composition of path delays of internal/babel/delay.go.
-- A sample is a number of nanoseconds; `updated` drops negative ones before they get here.
pub mod Laws
use Prim.Native.Nat.{min}
use th.Base.{
  ℕ, zero, suc, ◌+◌, ◌-◌, ◌%◌, Bool, true, false, ◌&&◌, ◌||◌, List, [], ◌∷◌, ltb, ◌==◌,
  if◌then◌else◌, get_or, set,
}
use th.Base.Int.{ℤ, pos, negsuc}

-- The fields of `DelayStats` that make up the window: `recent` has three elements.
pub record Window : Type 0 where
  pub recent : List ℕ
  pub recent_next : ℕ
  pub recent_len : ℕ

abbrev pub new_window : Window
new_window = record { recent = 0 ∷ 0 ∷ 0 ∷ []; recent_next = 0; recent_len = 0 }

unfoldable pub push_recent : Window → ℕ → Window
push_recent s sample = record {
  recent = set s.recent s.recent_next sample;
  recent_next = (s.recent_next + 1) % 3;
  recent_len = if ltb s.recent_len 3 then s.recent_len + 1 else s.recent_len;
}

-- `values[i] = s.recent[(start+i)%3]` for `i` below `recent_len`; `n` rounds are left.
unfoldable pub recent_loop : ℕ → ℕ → ℕ → List ℕ → List ℕ → List ℕ
recent_loop zero i start recent values = values
recent_loop (suc n) i start recent values =
    recent_loop n (i + 1) start recent (set values i (get_or recent ((start + i) % 3) 0))

unfoldable pub recent_ordered : Window → List ℕ
unfolding recent_loop
recent_ordered s =
    let start = if ltb s.recent_len 3 then 0 else s.recent_next in
    recent_loop s.recent_len 0 start s.recent (0 ∷ 0 ∷ 0 ∷ [])

-- Two compare-and-swaps, and the last test.
unfoldable pub median_duration : ℕ → ℕ → ℕ → ℕ
median_duration a b c =
    let a1 = if ltb b a then b else a in
    let b1 = if ltb b a then a else b in
    let b2 = if ltb c b1 then c else b1 in if ltb b2 a1 then a1 else b2

pub record PathDelayQuality : Type 0 where
  pub rtt_micros : ℤ
  pub jitter_micros : ℤ
  pub age_millis : ℤ
  pub confidence_q16 : ℕ

abbrev pub is_known : ℤ → Bool
is_known (pos n) = true
is_known (negsuc n) = false

-- `max(z, 0)`
abbrev pub at_least_zero : ℤ → ℕ
at_least_zero (pos n) = n
at_least_zero (negsuc n) = 0

-- `max` on int64, where one of the two is not negative.
abbrev pub max_known : ℤ → ℤ → ℤ
max_known (pos a) (pos b) = if ltb a b then pos b else pos a
max_known (pos a) (negsuc b) = pos a
max_known (negsuc a) z = z

abbrev pub sum_if_any : ℤ → ℤ → ℤ
sum_if_any a b =
    if is_known a || is_known b then pos (at_least_zero a + at_least_zero b) else negsuc 0

abbrev pub sum_if_both : ℤ → ℤ → ℤ
sum_if_both a b =
    if is_known a && is_known b then pos (at_least_zero a + at_least_zero b) else negsuc 0

abbrev pub max_if_any : ℤ → ℤ → ℤ
max_if_any a b = if is_known a || is_known b then max_known a b else negsuc 0

abbrev pub min_if_both : ℕ → ℕ → ℕ
min_if_both a b = if ltb 0 a && ltb 0 b then min a b else 0

-- Sums of microseconds stay within int64.
unfoldable pub compose_path_delay : PathDelayQuality → PathDelayQuality → PathDelayQuality
compose_path_delay upstream link = record {
  rtt_micros = sum_if_any upstream.rtt_micros link.rtt_micros;
  jitter_micros = sum_if_both upstream.jitter_micros link.jitter_micros;
  age_millis = max_if_any upstream.age_millis link.age_millis;
  confidence_q16 = min_if_both upstream.confidence_q16 link.confidence_q16;
}
