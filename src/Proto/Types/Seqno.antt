-- ===== src/Proto/Types/Seqno.antt =====
-- The order of sequence numbers of internal/babel/proto/types.go, in plain arithmetic.
use th.Base.{ℕ, ◌+◌, ◌-◌, ◌%◌, ◌^◌, ◌<◌, ◌≡◌, ◌⊎◌, ◌↔◌, inl, inr, true, false, arith, Bool-cases}
use th.Base.Int.{pos, negsuc}
use th.Proto.Types.{IsU16, seqno_abs_distance, seqno_less}

-- `seqno_less a b` says exactly that `b` is 1 to 32767 steps ahead of `a` on the ring of uint16s.
pub seqno_less_steps :
    (a b : ℕ)
    → IsU16 a
    → IsU16 b
    → seqno_less a b ≡ true ↔ ((k : ℕ) × (0 < k) × (k < 32768) × (b ≡ (a + k) % 2 ^ 16))
unfolding seqno_less
seqno_less_steps a b ha hb = (
  (λ h. ((b + 2 ^ 16 - a) % 2 ^ 16, ground arith, ground arith, omega arith)),
  λ (k, lo, hi, e). ground arith,
)

-- Of two sequence numbers that are neither equal nor half the ring apart, exactly one is less; two
-- that are equal or half the ring apart are not ordered either way.
pub seqno_less_total :
    (a b : ℕ)
    → IsU16 a
    → IsU16 b
    → (((a ≡ b) ⊎ (b ≡ (a + 32768) % 2 ^ 16)) × (seqno_less a b ≡ false) × (seqno_less b a ≡ false))
      ⊎ ((seqno_less a b ≡ true) × (seqno_less b a ≡ false))
      ⊎ ((seqno_less a b ≡ false) × (seqno_less b a ≡ true))
unfolding seqno_less
seqno_less_total a b ha hb = elim (Bool-cases (seqno_less a b)) [
  | inl p ↦ inr (inl (p, ground arith))
  | inr p ↦ elim (Bool-cases (seqno_less b a)) [
    | inl q ↦ inr (inr (p, q))
    | inr q ↦ inl (ground arith, p, q)
  ]
]

-- The distance of two sequence numbers less than half the ring apart is the number of steps on the
-- shorter way round.
pub seqno_abs_distance_steps :
    (a b k : ℕ)
    → IsU16 a
    → IsU16 b
    → k < 32768
    → (b ≡ (a + k) % 2 ^ 16) ⊎ (a ≡ (b + k) % 2 ^ 16)
    → seqno_abs_distance a b ≡ pos k
unfolding seqno_abs_distance
seqno_abs_distance_steps a b k ha hb hi h = ground arith

-- The distance of two sequence numbers half the ring apart comes out as -32768, since its negation
-- does not fit an int16.
pub seqno_abs_distance_opposite :
    (a b : ℕ) → IsU16 a → IsU16 b → b ≡ (a + 32768) % 2 ^ 16 → seqno_abs_distance a b ≡ negsuc 32767
unfolding seqno_abs_distance
seqno_abs_distance_opposite a b ha hb h = ground arith
