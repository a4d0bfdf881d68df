-- ===== src/Babel/History.antt =====
-- The reception history of a neighbour's Hellos: internal/babel/internal/history/history.go. A
-- method that takes the lock runs alone, so each is a function of the state.
pub mod Window
pub mod Update
use th.Base.{
  ℕ, zero, suc, ◌+◌, ◌-◌, ◌*◌, ◌/◌, ◌%◌, ◌^◌, Bool, true, false, List, [], ◌∷◌, ltb, leb, ◌==◌,
  if◌then◌else◌,
}
use th.Base.Int.{ℤ, pos, ltb_ℤ}
use th.Proto.Types.{seqno_abs_distance, seqno_less}

pub record HelloHistory : Type 0 where
  pub expected_seqno : ℕ
  pub vector : ℕ

-- `h.vector <<= n` and `h.vector >>= n` on a uint16.
abbrev pub shift_left : ℕ → ℕ → ℕ
shift_left v n = v * 2 ^ n % 2 ^ 16

abbrev pub shift_right : ℕ → ℕ → ℕ
shift_right v n = v / 2 ^ n

unfoldable pub reset : HelloHistory → HelloHistory
reset h = record { expected_seqno = 0; vector = 0 }

unfoldable pub empty : HelloHistory → Bool
empty h = h.vector == 0

unfoldable pub missed : HelloHistory → HelloHistory × Bool
missed h =
    let v = shift_left h.vector 1 in
    (record { expected_seqno = (h.expected_seqno + 1) % 2 ^ 16; vector = v }, v == 0)

-- What `Update` makes of the vector, before the new bit, and whether it resets it.
unfoldable pub realigned : HelloHistory → ℕ → ℕ × Bool
realigned h seqno =
    if ltb_ℤ (pos 16) (seqno_abs_distance seqno h.expected_seqno)
    then (0, true)
    else if seqno_less seqno h.expected_seqno
    then (shift_right h.vector ((h.expected_seqno + 2 ^ 16 - seqno) % 2 ^ 16), false)
    else if seqno_less h.expected_seqno seqno
    then (shift_left h.vector ((seqno + 2 ^ 16 - h.expected_seqno) % 2 ^ 16), false)
    else (h.vector, false)

-- `h.vector <<= 1; h.vector |= 1`: the lowest bit is clear before it is set.
unfoldable pub update : HelloHistory → ℕ → HelloHistory × Bool
unfolding realigned
update h seqno =
    let (v, fresh) = realigned h seqno in
    (record { expected_seqno = (seqno + 1) % 2 ^ 16; vector = shift_left v 1 + 1 }, fresh)

-- `bits.OnesCount16`, of the lowest `w` bits.
unfoldable pub ones_count : ℕ → ℕ → ℕ
ones_count zero v = 0
ones_count (suc w) v = v % 2 + ones_count w (v / 2)

unfoldable pub out_of : HelloHistory → ℕ → ℕ → Bool
unfolding ones_count
out_of h k j = leb k (ones_count 16 (shift_left h.vector (16 - j)))
