-- ===== src/Babel/History/Update.antt =====
-- `Update` and `Missed` of internal/babel/internal/history/history.go, related to each other.
use th.Base.{
  ℕ, zero, suc, ◌+◌, ◌-◌, ◌*◌, ◌%◌, ◌^◌, ◌≤◌, ◌<◌, ◌≡◌, ◌⊎◌, refl, true, false, arith, inl, inr,
}
use th.Base.Int.{pos, ltb_ℤ}
use native.Mathlib.Nat.{mul-div_cancel}
use th.Proto.Types.{IsU16, seqno_less}
use th.Proto.Types.Seqno.{seqno_abs_distance_steps, seqno_abs_distance_opposite}
use th.Babel.History.Window.{shift-double, power_pos}
use th.Babel.History.{HelloHistory, shift_left, shift_right, missed, realigned, update}

-- Both fields are uint16s.
pub record IsValid (h : HelloHistory) : Type 0 where
  pub seqno_u16 : IsU16 h.expected_seqno
  pub vector_u16 : IsU16 h.vector

pub missed-IsValid : (h : HelloHistory) → IsValid h → IsValid (missed h).0
unfolding missed
missed-IsValid h v = record { seqno_u16 = omega arith; vector_u16 = omega arith }

-- `k` missed Hellos.
unfoldable pub missed_times : ℕ → HelloHistory → HelloHistory
unfolding missed
missed_times zero h = h
missed_times (suc k) h = (missed (missed_times k h)).0

pub missed_times_lem :
    (k : ℕ) (h : HelloHistory)
    → IsValid h
    → missed_times k h
      ≡ record { expected_seqno = (h.expected_seqno + k) % 2 ^ 16; vector = shift_left h.vector k }
unfolding missed_times missed
missed_times_lem zero h v =
    let e : (h.expected_seqno + 0) % 2 ^ 16 ≡ h.expected_seqno = omega arith in
    let w : h.vector * 2 ^ 0 % 2 ^ 16 ≡ h.vector = omega arith in rw (e, w) refl
missed_times_lem (suc k) h v =
    let e : ((h.expected_seqno + k) % 2 ^ 16 + 1) % 2 ^ 16 ≡ (h.expected_seqno + suc k) % 2 ^ 16 =
      omega arith in
    let w : shift_left (shift_left h.vector k) 1 ≡ shift_left h.vector (suc k) =
      rw (shift-double h.vector k) (omega arith) in
    rw (missed_times_lem k h v, e, w) refl

-- The order of two numbers that are `k` apart, 0 < k < 32768.
less_ahead :
    (a k : ℕ)
    → IsU16 a
    → 0 < k
    → k < 32768
    → (seqno_less a ((a + k) % 2 ^ 16) ≡ true) × (seqno_less ((a + k) % 2 ^ 16) a ≡ false)
unfolding seqno_less
less_ahead a k u lo hi = (ground arith, ground arith)

less_same : (a : ℕ) → IsU16 a → seqno_less a a ≡ false
unfolding seqno_less
less_same a u = ground arith

pub realigned_same :
    (e v : ℕ) → IsU16 e → realigned (record { expected_seqno = e; vector = v }) e ≡ (v, false)
unfolding realigned
realigned_same e v u =
    rw (seqno_abs_distance_steps e e 0 u u (omega arith) (inl (omega arith)), less_same e u) refl

realigned_ahead :
    (e v k : ℕ)
    → IsU16 e
    → 0 < k
    → k ≤ 16
    → realigned (record { expected_seqno = e; vector = v }) ((e + k) % 2 ^ 16)
      ≡ (shift_left v k, false)
unfolding realigned
realigned_ahead e v k u lo hi =
    let s = (e + k) % 2 ^ 16 in
    let o = less_ahead e k u lo (omega arith) in
    let d = seqno_abs_distance_steps s e k (omega arith) u (omega arith) (inr refl) in
    let near : ltb_ℤ (pos 16) (pos k) ≡ false = ground arith in
    let n : ((e + k) % 2 ^ 16 + 2 ^ 16 - e) % 2 ^ 16 ≡ k = omega arith in
    rw (d, o.0, o.1, near, n) refl

realigned_behind :
    (e v k : ℕ)
    → IsU16 e
    → 0 < k
    → k ≤ 16
    → realigned (record { expected_seqno = (e + k) % 2 ^ 16; vector = v }) e
      ≡ (shift_right v k, false)
unfolding realigned
realigned_behind e v k u lo hi =
    let s = (e + k) % 2 ^ 16 in
    let o = less_ahead e k u lo (omega arith) in
    let d = seqno_abs_distance_steps e s k u (omega arith) (omega arith) (inl refl) in
    let near : ltb_ℤ (pos 16) (pos k) ≡ false = ground arith in
    let n : ((e + k) % 2 ^ 16 + 2 ^ 16 - e) % 2 ^ 16 ≡ k = omega arith in rw (d, o.0, near, n) refl

realigned_far :
    (e v s k : ℕ)
    → IsU16 e
    → IsU16 s
    → 16 < k
    → k < 32768
    → (s ≡ (e + k) % 2 ^ 16) ⊎ (e ≡ (s + k) % 2 ^ 16)
    → realigned (record { expected_seqno = e; vector = v }) s ≡ (0, true)
unfolding realigned
realigned_far e v s k u us lo hi far =
    let far' : (e ≡ (s + k) % 2 ^ 16) ⊎ (s ≡ (e + k) % 2 ^ 16) = elim far [
      | inl p ↦ inr p
      | inr p ↦ inl p
    ] in
    let d = seqno_abs_distance_steps s e k us u hi far' in
    let near : ltb_ℤ (pos 16) (pos k) ≡ true = ground arith in rw (d, near) refl

realigned_opposite :
    (e v : ℕ)
    → IsU16 e
    → realigned (record { expected_seqno = e; vector = v }) ((e + 32768) % 2 ^ 16) ≡ (v, false)
unfolding realigned
realigned_opposite e v u =
    let s = (e + 32768) % 2 ^ 16 in
    let d = seqno_abs_distance_opposite s e (omega arith) u (omega arith) in
    let p : seqno_less s e ≡ false = unfold seqno_less in ground arith in
    let q : seqno_less e s ≡ false = unfold seqno_less in ground arith in rw (d, p, q) refl

-- A Hello that is `k` numbers ahead, `k` up to 16, changes the history as `k` missed Hellos and then
-- this one in turn do.
pub update_ahead :
    (h : HelloHistory) (k : ℕ)
    → IsValid h
    → k ≤ 16
    → update h ((h.expected_seqno + k) % 2 ^ 16)
      ≡ update (missed_times k h) ((h.expected_seqno + k) % 2 ^ 16)
unfolding update
update_ahead h zero v l = unfold missed_times in refl
update_ahead h (suc k) v l =
    let e = h.expected_seqno in
    let s = (e + suc k) % 2 ^ 16 in
    rw
      (
        missed_times_lem (suc k) h v,
        realigned_same s (shift_left h.vector (suc k)) (omega arith),
        realigned_ahead e h.vector (suc k) v.seqno_u16 (omega arith) l,
      )
      refl

-- A Hello that arrives after it was counted as missed, and up to 15 more were, changes the history
-- as it would have in time, if no received Hello has left the vector meanwhile.
pub update_late :
    (h : HelloHistory) (k : ℕ)
    → IsValid h
    → k ≤ 16
    → h.vector * 2 ^ k < 2 ^ 16
    → update (missed_times k h) h.expected_seqno ≡ update h h.expected_seqno
unfolding update
update_late h zero v l keep = unfold missed_times in refl
update_late h (suc k) v l keep =
    let e = h.expected_seqno in
    let kept : h.vector * 2 ^ suc k % 2 ^ 16 ≡ h.vector * 2 ^ suc k = omega arith in
    let back : shift_right (shift_left h.vector (suc k)) (suc k) ≡ h.vector =
      rw kept (mul-div_cancel h.vector {n = 2 ^ suc k} (power_pos (suc k))) in
    rw
      (
        missed_times_lem (suc k) h v,
        realigned_behind e (shift_left h.vector (suc k)) (suc k) v.seqno_u16 (omega arith) l,
        back,
        realigned_same e h.vector v.seqno_u16,
      )
      refl

-- A Hello more than 16 and less than 32768 numbers away, either way, starts the history anew.
pub update_far :
    (h : HelloHistory) (seqno k : ℕ)
    → IsValid h
    → IsU16 seqno
    → 16 < k
    → k < 32768
    → (seqno ≡ (h.expected_seqno + k) % 2 ^ 16) ⊎ (h.expected_seqno ≡ (seqno + k) % 2 ^ 16)
    → update h seqno ≡ (record { expected_seqno = (seqno + 1) % 2 ^ 16; vector = 1 }, true)
unfolding update
update_far h seqno k v u lo hi far =
    rw (realigned_far h.expected_seqno h.vector seqno k v.seqno_u16 u lo hi far) refl

-- A Hello 32768 numbers away is taken for the next one: the history is neither shifted nor reset.
pub update_opposite :
    (h : HelloHistory)
    → IsValid h
    → update h ((h.expected_seqno + 32768) % 2 ^ 16) ≡ (
      record {
        expected_seqno = (h.expected_seqno + 32769) % 2 ^ 16;
        vector = (update h h.expected_seqno).0.vector;
      },
      false,
    )
unfolding update
update_opposite h v =
    let e = h.expected_seqno in
    let n : ((e + 32768) % 2 ^ 16 + 1) % 2 ^ 16 ≡ (e + 32769) % 2 ^ 16 = omega arith in
    rw (realigned_opposite e h.vector v.seqno_u16, realigned_same e h.vector v.seqno_u16, n) refl
