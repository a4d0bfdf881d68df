-- ===== src/Babel/History/Window.antt =====
-- `OutOf` of internal/babel/internal/history/history.go counts the newest bits of the vector.
use native.Mathlib.Nat.{mul_assoc, mul_comm}
use native.Mathlib.Numerals.{unary_clauses}
use th.Base.{
  ℕ, zero, suc, ◌+◌, ◌-◌, ◌*◌, ◌/◌, ◌%◌, ◌^◌, ◌≤◌, ◌<◌, ◌≡◌, refl, sym, ap, ◌∙◌, leb, arith,
}
use th.Babel.History.{HelloHistory, ones_count, out_of}

pow-double : (w : ℕ) → 2 ^ suc w ≡ 2 * 2 ^ w
pow-double w = simp unary_clauses (omega arith)

pub shift-double : (x s : ℕ) → x * 2 ^ suc s ≡ 2 * (x * 2 ^ s)
shift-double x s =
    ap (λ (t : ℕ). x * t) (pow-double s)
    ∙ sym (mul_assoc x 2 (2 ^ s))
    ∙ ap (λ (t : ℕ). t * 2 ^ s) (mul_comm x 2)
    ∙ mul_assoc 2 x (2 ^ s)

pub power_pos : (w : ℕ) → 0 < 2 ^ w
power_pos zero = omega arith
power_pos (suc w) = omega (arith, pow-double w, power_pos w)

-- Bits above the first `w` do not count.
ones_count-high : (w r q : ℕ) → ones_count w (r + 2 ^ w * q) ≡ ones_count w r
unfolding ones_count
ones_count-high zero r q = refl
ones_count-high (suc w) r q =
    let e : r + 2 ^ suc w * q ≡ r + 2 * (2 ^ w * q) =
      rw (pow-double w, mul_assoc 2 (2 ^ w) q) refl in
    let low : (r + 2 * (2 ^ w * q)) % 2 ≡ r % 2 = omega arith in
    let high : (r + 2 * (2 ^ w * q)) / 2 ≡ r / 2 + 2 ^ w * q = omega arith in
    rw (e, low, high, ones_count-high w (r / 2) q) refl

-- Nor do the zeros that a shift to the left brings in.
ones_count-shift : (s w n x : ℕ) → n ≡ s + w → ones_count n (x * 2 ^ s) ≡ ones_count w x
unfolding ones_count
ones_count-shift zero w n x e =
    let p : n ≡ w = omega arith in let q : x * 2 ^ 0 ≡ x = omega arith in rw (p, q) refl
ones_count-shift (suc s) w zero x e = absurd (omega arith)
ones_count-shift (suc s) w (suc n) x e =
    let p : x * 2 ^ suc s ≡ 2 * (x * 2 ^ s) = shift-double x s in
    let low : 2 * (x * 2 ^ s) % 2 ≡ 0 = omega arith in
    let high : 2 * (x * 2 ^ s) / 2 ≡ x * 2 ^ s = omega arith in
    rw (p, low, high, ones_count-shift s w n x (omega arith)) (omega arith)

ones_count-wrapped : (x : ℕ) → ones_count 16 (x % 2 ^ 16) ≡ ones_count 16 x
ones_count-wrapped x =
    sym (ones_count-high 16 (x % 2 ^ 16) (x / 2 ^ 16))
    ∙ ap (ones_count 16) {x = x % 2 ^ 16 + 2 ^ 16 * (x / 2 ^ 16)} (omega arith)

-- `OutOf k j` says whether at least `k` of the newest `j` bits are set, for a window of up to 16.
pub out_of-ones_count :
    (h : HelloHistory) (k j : ℕ) → j ≤ 16 → out_of h k j ≡ leb k (ones_count j h.vector)
unfolding out_of
out_of-ones_count h k j l = ap (leb k) (
    ones_count-wrapped (h.vector * 2 ^ (16 - j))
    ∙ ones_count-shift (16 - j) j 16 h.vector (omega arith))
