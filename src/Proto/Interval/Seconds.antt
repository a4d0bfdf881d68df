-- ===== src/Proto/Interval/Seconds.antt =====
-- Whole seconds through `appendInterval` and `interval` of internal/babel/proto/parser.go.
use th.Base.{
  ℕ, suc, ◌+◌, ◌*◌, ◌/◌, ◌%◌, ◌^◌, ◌≤◌, ◌<◌, ◌≡◌, refl, ltb, true, List, [], ◌++◌, arith, ap, ◌∙◌,
  ◌⊎◌, inl, inr, Bool-cases,
}
use th.Proto.Result.{ok}
use th.Proto.Reader.{uint16, append_uint16}
use th.Proto.Interval.{
  half_even, excess_bits, round53, seconds, centiseconds, append_interval, duration_of, interval,
  second, millisecond,
}

no_excess : (fuel n : ℕ) → n < 2 ^ 53 → excess_bits (suc fuel) n 0 ≡ 0
unfolding excess_bits
no_excess fuel n h = let e : ltb n (2 ^ 53 * 2 ^ 0) ≡ true = ground arith in rw e refl

half_even-one : (n : ℕ) → half_even n 1 ≡ n
unfolding half_even
half_even-one n =
    let r : n % 1 ≡ 0 = omega arith in let q : n / 1 ≡ n = omega arith in rw (r, q) refl

half_even-zero : half_even 0 second ≡ 0
unfolding half_even
half_even-zero = refl

-- A number below 2 ^ 53 is a double.
round53-exact : (n : ℕ) → n < 2 ^ 53 → round53 n ≡ n
unfolding round53
round53-exact n h = rw (no_excess 127 n h) (omega (arith, half_even-one n))

seconds-whole : (k : ℕ) → k < 2 ^ 40 → seconds (k * second) ≡ (k, 0)
unfolding seconds
seconds-whole k h =
    let none : k * second % second ≡ 0 = omega arith in
    let whole : k * second / second ≡ k = omega arith in
    let exact : round53 (k * 2 ^ 0 + 0) ≡ k =
      ap round53 {x = k * 2 ^ 0 + 0} (omega arith) ∙ round53-exact k (omega arith) in
    rw (none, whole, half_even-zero, exact) refl

centiseconds-whole : (k : ℕ) → k < 2 ^ 40 → centiseconds (k * second) ≡ 100 * k % 2 ^ 16
unfolding centiseconds
centiseconds-whole k h = rw (seconds-whole k h, round53-exact (100 * k) (omega arith)) (omega arith)

whole_cases :
    (k : ℕ)
    → k ≤ 655
    → ((k ≤ 65) × (k * 1000 % 2 ^ 16 * millisecond ≡ k * second))
      ⊎ ((65 < k) × (k * 1000 % 2 ^ 16 * millisecond < k * second))
whole_cases k h = elim (Bool-cases (ltb 65 k)) [
  | inl l ↦ inr (ground (arith, l))
  | inr l ↦ inl (ground (arith, l))
]

-- A whole number `k` of seconds, up to 655, is sent and read as a duration: the one that was sent up
-- to 65 seconds, and a shorter one from 66 seconds on.
pub interval-append_interval :
    (k : ℕ) (rest : List ℕ)
    → k ≤ 655
    → (d : ℕ) × (interval (append_interval [] (k * second) ++ rest) ≡ ok (d, rest))
      × (((k ≤ 65) × (d ≡ k * second)) ⊎ ((65 < k) × (d < k * second)))
unfolding interval append_interval duration_of uint16 append_uint16
interval-append_interval k rest h =
    let e : 100 * k % 2 ^ 16 ≡ 100 * k = omega arith in
    let d : (100 * k / 256 % 256 * 256 + 100 * k % 256) * 10 ≡ k * 1000 = omega arith in
    (
      k * 1000 % 2 ^ 16 * millisecond,
      rw (centiseconds-whole k (omega arith), e, d) refl,
      whole_cases k h,
    )
