-- ===== src/Proto/Interval.antt =====
-- Durations on the wire: `interval` and `appendInterval` of internal/babel/proto/parser.go. The
-- encoder goes through float64, which is modelled exactly for the values that occur here: a double
-- is a numerator over a power of two, and each operation rounds to 53 significant bits, ties to even.
pub mod Seconds
use th.Base.{ℕ, zero, suc, ◌+◌, ◌*◌, ◌/◌, ◌%◌, ◌^◌, List, ltb, leb, ◌==◌, if◌then◌else◌}
use th.Proto.Reader.{Reader, ◌>>=◌, pure, uint16, append_uint16}

abbrev pub second : ℕ
second = 1000000000

abbrev pub millisecond : ℕ
millisecond = 1000000

-- n / d to the nearest integer, a tie to the even one.
unfoldable pub half_even : ℕ → ℕ → ℕ
half_even n d =
    if ltb (2 * (n % d)) d
    then n / d
    else if ltb d (2 * (n % d))
    then n / d + 1
    else n / d + n / d % 2

-- How many bits of `n` go beyond the first 53. The fuel is above the width of every numerator here.
unfoldable pub excess_bits : ℕ → ℕ → ℕ → ℕ
excess_bits zero n k = k
excess_bits (suc fuel) n k =
    let more = excess_bits fuel n (k + 1) in if ltb n (2 ^ 53 * 2 ^ k) then k else more

unfoldable pub round53 : ℕ → ℕ
round53 n = let k = excess_bits 128 n 0 in half_even n (2 ^ k) * 2 ^ k

-- The exponent that gives the quotient p / q, 0 < p < q, a numerator of 53 bits.
unfoldable pub quotient_exponent : ℕ → ℕ → ℕ → ℕ → ℕ
quotient_exponent zero p q e = e
quotient_exponent (suc fuel) p q e =
    let more = quotient_exponent fuel p q (e + 1) in
    if leb (2 ^ 52 * q) (p * 2 ^ e) then e else more

-- `Duration.Seconds()`: float64(d / Second) + float64(d % Second) / 1e9, as numerator and exponent.
unfoldable pub seconds : ℕ → ℕ × ℕ
seconds d =
    let nsec = d % second in
    let e = if nsec == 0 then 0 else quotient_exponent 64 nsec second 52 in
    (round53 (d / second * 2 ^ e + half_even (nsec * 2 ^ e) second), e)

-- `uint16(100 * i.Seconds())`. Go leaves the conversion of a number beyond uint16 to the
-- implementation; this is the low 16 bits, as on amd64.
unfoldable pub centiseconds : ℕ → ℕ
centiseconds d = let (n, e) = seconds d in round53 (100 * n) / 2 ^ e % 2 ^ 16

unfoldable pub append_interval : List ℕ → ℕ → List ℕ
append_interval b d = append_uint16 b (centiseconds d)

-- `time.Duration(i*10) * time.Millisecond`: the product `i*10` is one of uint16s.
unfoldable pub duration_of : ℕ → ℕ
duration_of i = i * 10 % 2 ^ 16 * millisecond

unfoldable pub interval : Reader ℕ
interval = uint16 >>= λ i. pure (duration_of i)
