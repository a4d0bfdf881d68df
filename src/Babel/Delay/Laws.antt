-- ===== src/Babel/Delay/Laws.antt =====
-- The sample window, the median and the composition of internal/babel/delay.go.
use Prim.Native.Nat.{min, max}
use th.Base.{ℕ, zero, suc, ◌≤◌, ◌<◌, ◌≡◌, refl, ◌∙◌, List, [], ◌∷◌, ◌++◌, length, length-set, arith}
use th.Babel.Delay.{Window, new_window, push_recent, recent_ordered, median_duration}

-- The median is one of the three, and stands between the least and the greatest.
pub median_duration-middle : (a b c : ℕ) → median_duration a b c ≡ max (min a b) (min (max a b) c)
unfolding median_duration
median_duration-middle a b c = ground arith

unfoldable pub push_all : Window → List ℕ → Window
unfolding push_recent
push_all s [] = s
push_all s (x ∷ xs) = push_all (push_recent s x) xs

-- Three places, the next one among them, and no more samples than places.
abbrev pub IsWindow : Window → Type 0
IsWindow s = (length s.recent ≡ 3) × (s.recent_next < 3) × (s.recent_len ≤ 3)

push_recent-IsWindow : (s : Window) (x : ℕ) → IsWindow s → IsWindow (push_recent s x)
unfolding push_recent
push_recent-IsWindow s x (l, n, k) =
    (length-set s.recent s.recent_next x ∙ l, omega arith, ground arith)

push_all-IsWindow : (s : Window) (xs : List ℕ) → IsWindow s → IsWindow (push_all s xs)
unfolding push_all
push_all-IsWindow s [] h = h
push_all-IsWindow s (x ∷ xs) h = push_all-IsWindow (push_recent s x) xs (push_recent-IsWindow s x h)

push_all-append :
    (s : Window) (xs ys : List ℕ) → push_all s (xs ++ ys) ≡ push_all (push_all s xs) ys
unfolding push_all
push_all-append s [] ys = refl
push_all-append s (x ∷ xs) ys = push_all-append (push_recent s x) xs ys

pushed_at :
    (x y z next len a b c : ℕ)
    → next < 3
    → len ≤ 3
    → recent_ordered (
        push_all
          (record { recent = x ∷ y ∷ z ∷ []; recent_next = next; recent_len = len })
          (a ∷ b ∷ c ∷ []))
      ≡ a ∷ b ∷ c ∷ []
unfolding recent_ordered push_all push_recent
pushed_at x y z zero zero a b c n k = refl
pushed_at x y z zero (suc zero) a b c n k = refl
pushed_at x y z zero (suc (suc zero)) a b c n k = refl
pushed_at x y z zero (suc (suc (suc zero))) a b c n k = refl
pushed_at x y z zero (suc (suc (suc (suc len)))) a b c n k = absurd (omega arith)
pushed_at x y z (suc zero) zero a b c n k = refl
pushed_at x y z (suc zero) (suc zero) a b c n k = refl
pushed_at x y z (suc zero) (suc (suc zero)) a b c n k = refl
pushed_at x y z (suc zero) (suc (suc (suc zero))) a b c n k = refl
pushed_at x y z (suc zero) (suc (suc (suc (suc len)))) a b c n k = absurd (omega arith)
pushed_at x y z (suc (suc zero)) zero a b c n k = refl
pushed_at x y z (suc (suc zero)) (suc zero) a b c n k = refl
pushed_at x y z (suc (suc zero)) (suc (suc zero)) a b c n k = refl
pushed_at x y z (suc (suc zero)) (suc (suc (suc zero))) a b c n k = refl
pushed_at x y z (suc (suc zero)) (suc (suc (suc (suc len)))) a b c n k = absurd (omega arith)
pushed_at x y z (suc (suc (suc next))) len a b c n k = absurd (omega arith)

three_pushed :
    (recent : List ℕ) (next len a b c : ℕ)
    → length recent ≡ 3
    → next < 3
    → len ≤ 3
    → recent_ordered (
        push_all
          (record { recent = recent; recent_next = next; recent_len = len })
          (a ∷ b ∷ c ∷ []))
      ≡ a ∷ b ∷ c ∷ []
three_pushed [] next len a b c l n k = absurd (omega arith)
three_pushed (x ∷ []) next len a b c l n k = absurd (omega arith)
three_pushed (x ∷ y ∷ []) next len a b c l n k = absurd (omega arith)
three_pushed (x ∷ y ∷ z ∷ []) next len a b c l n k = pushed_at x y z next len a b c n k
three_pushed (x ∷ y ∷ z ∷ w ∷ recent) next len a b c l n k = absurd (omega arith)

-- `recentOrdered` lists the last three samples, the oldest first, whatever came before them.
pub recent_ordered-push_all :
    (xs : List ℕ) (a b c : ℕ)
    → recent_ordered (push_all new_window (xs ++ (a ∷ b ∷ c ∷ []))) ≡ a ∷ b ∷ c ∷ []
recent_ordered-push_all xs a b c =
    let s = push_all new_window xs in
    let w = push_all-IsWindow new_window xs (refl, omega arith, omega arith) in
    rw (push_all-append new_window xs (a ∷ b ∷ c ∷ []))
      (three_pushed s.recent s.recent_next s.recent_len a b c w.0 w.1 w.2)
