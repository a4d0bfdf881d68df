-- ===== src/Babel/Cost/Hellos.antt =====
-- The 2-out-of-3 strategy of internal/babel/cost.go on the Hello histories.
use th.Base.{ℕ, ◌+◌, ◌*◌, ◌%◌, ◌^◌, ◌≡◌, refl, true, false, arith, inl, inr, Bool-cases}
use th.Proto.Types.{retraction}
use th.Babel.History.{HelloHistory, update, ones_count, out_of}
use th.Babel.History.Window.{out_of-ones_count}
use th.Babel.History.Update.{IsValid, missed_times, missed_times_lem, realigned_same}
use th.Babel.Cost.{Reception, override_or, default_rx_cost}

two_missed : (h : HelloHistory) → IsValid h → out_of (missed_times 2 h) 2 3 ≡ false
two_missed h v = rw (missed_times_lem 2 h v) (
    rw
      (out_of-ones_count
        (record {
          expected_seqno = (h.expected_seqno + 2) % 2 ^ 16;
          vector = h.vector * 2 ^ 2 % 2 ^ 16;
        })
        2 3 (omega arith))
      (unfold ones_count in ground arith))

-- A neighbour of which the last two Hellos were missed, unicast and multicast, is unreachable, also
-- with a configured cost.
pub default_rx_cost-missed :
    (n : Reception) (nominal : ℕ)
    → IsValid n.hello_unicast
    → IsValid n.hello_multicast
    → default_rx_cost
        (record n {
          hello_unicast = missed_times 2 n.hello_unicast;
          hello_multicast = missed_times 2 n.hello_multicast;
        })
        nominal
      ≡ retraction
unfolding default_rx_cost
default_rx_cost-missed n nominal u m =
    rw (two_missed n.hello_unicast u, two_missed n.hello_multicast m) refl

two_received :
    (h : HelloHistory)
    → IsValid h
    → out_of (update (update h h.expected_seqno).0 ((h.expected_seqno + 1) % 2 ^ 16)).0 2 3 ≡ true
unfolding update
two_received h v =
    let e = h.expected_seqno in
    let w = h.vector * 2 % 2 ^ 16 + 1 in
    let f = (e + 1) % 2 ^ 16 in
    rw (realigned_same e h.vector v.seqno_u16) (
      rw (realigned_same f w (omega arith)) (
        rw
          (out_of-ones_count
            (record { expected_seqno = (f + 1) % 2 ^ 16; vector = w * 2 % 2 ^ 16 + 1 }) 2 3
            (omega arith))
          (unfold ones_count in ground arith)))

-- A neighbour of which two multicast Hellos arrived in a row is reachable: its cost is the configured
-- one, or the nominal one.
pub default_rx_cost-received :
    (n : Reception) (nominal : ℕ)
    → IsValid n.hello_multicast
    → let h = n.hello_multicast in
      default_rx_cost
        (record n {
          hello_multicast =
              (update (update h h.expected_seqno).0 ((h.expected_seqno + 1) % 2 ^ 16)).0;
        })
        nominal
      ≡ override_or n.cost_override nominal
unfolding default_rx_cost
default_rx_cost-received n nominal v = elim (Bool-cases (out_of n.hello_unicast 2 3)) [
  | inl p ↦ rw p refl
  | inr p ↦ rw (p, two_received n.hello_multicast v) refl
]
