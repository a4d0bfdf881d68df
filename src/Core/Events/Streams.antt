-- ===== src/Core/Events/Streams.antt =====
-- Sequence numbers of events in internal/core/events.go.
use th.Base.{ℕ, zero, suc, ◌+◌, ◌-◌, ◌≡◌, refl, ap, List, [], ◌∷◌, ◌++◌, length, drop, arith}
use th.Core.Events.{Event}

abbrev pub sequences : List Event → List ℕ
sequences [] = []
sequences (e ∷ events) = e.sequence ∷ sequences events

abbrev pub count_from : ℕ → ℕ → List ℕ
count_from a zero = []
count_from a (suc n) = a ∷ count_from (a + 1) n

pub count_from-snoc : (a b n : ℕ) → b ≡ a + n → count_from a n ++ (b ∷ []) ≡ count_from a (n + 1)
count_from-snoc a b zero h = ground arith
count_from-snoc a b (suc n) h = ground (arith, count_from-snoc (a + 1) b n)

pub count_from-drop : (k a n : ℕ) → drop k (count_from a n) ≡ count_from (a + k) (n - k)
count_from-drop zero a n = ground arith
count_from-drop (suc k) a zero = ground arith
count_from-drop (suc k) a (suc n) = ground (arith, count_from-drop k (a + 1) n)

pub length-count_from : (a n : ℕ) → length (count_from a n) ≡ n
length-count_from a zero = refl
length-count_from a (suc n) = ap suc (length-count_from (a + 1) n)

pub sequences-append : (xs ys : List Event) → sequences (xs ++ ys) ≡ sequences xs ++ sequences ys
sequences-append [] ys = refl
sequences-append (x ∷ xs) ys = ap (λ t. x.sequence ∷ t) (sequences-append xs ys)

pub sequences-drop : (k : ℕ) (xs : List Event) → sequences (drop k xs) ≡ drop k (sequences xs)
sequences-drop zero xs = refl
sequences-drop (suc k) [] = refl
sequences-drop (suc k) (x ∷ xs) = sequences-drop k xs

pub length-sequences : (xs : List Event) → length (sequences xs) ≡ length xs
length-sequences [] = refl
length-sequences (x ∷ xs) = ap suc (length-sequences xs)
