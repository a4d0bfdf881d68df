-- ===== src/Babel/Source/Distance.antt =====
-- Feasibility distances of internal/babel/source.go against distances whose sequence numbers do not
-- wrap.
use th.Base.{
  ℕ, ◌+◌, ◌%◌, ◌^◌, ◌<◌, ◌≡◌, ◌⊎◌, refl, sym, ◌∙◌, inl, inr, List, [], ◌∷◌, All, Bool, true, false,
  ◌&&◌, ◌||◌, ltb, ◌==◌, arith, Bool-cases,
}
use th.Proto.Types.{IsU16, seqno_less}
use th.Babel.Source.{Source, update_feasibility, feasible}

less_self : (a : ℕ) → IsU16 a → seqno_less a a ≡ false
unfolding seqno_less
less_self a u = ground arith

-- After an update is sent, the same update is not feasible.
pub feasible-update_feasibility :
    (s : Source) (seqno metric : ℕ)
    → IsU16 seqno
    → feasible (update_feasibility s seqno metric).0 seqno metric ≡ false
unfolding update_feasibility feasible
feasible-update_feasibility s seqno metric u = ground (arith, less_self seqno)

-- The numbers that are less than half the ring ahead of a base are ordered as the offsets are.
less_offsets :
    (x k l : ℕ)
    → IsU16 x
    → k < 32768
    → l < 32768
    → seqno_less ((x + k) % 2 ^ 16) ((x + l) % 2 ^ 16) ≡ ltb k l
unfolding seqno_less
less_offsets x k l u hk hl = ground arith

same_offsets :
    (x k l : ℕ)
    → IsU16 x
    → k < 32768
    → l < 32768
    → ((x + k) % 2 ^ 16 == (x + l) % 2 ^ 16) ≡ (k == l)
same_offsets x k l u hk hl = ground arith

-- The source's sequence number is less than half the ring ahead of `x`.
abbrev pub IsNear : ℕ → Source → Type 0
IsNear x s = (l : ℕ) × (l < 32768) × (s.seqno ≡ (x + l) % 2 ^ 16)

update_feasibility-IsNear :
    (x k m : ℕ) (s : Source)
    → k < 32768
    → IsNear x s
    → IsNear x (update_feasibility s ((x + k) % 2 ^ 16) m).0
unfolding update_feasibility
update_feasibility-IsNear x k m s hk (l, hl, e) =
    elim (Bool-cases (seqno_less s.seqno ((x + k) % 2 ^ 16))) [
      | inl p ↦ (k, hk, rw p refl)
      | inr p ↦ (l, hl, rw p (ground (arith, e)))
    ]

-- Feasibility and its update, on offsets.
abbrev better_offset : ℕ → ℕ → ℕ → ℕ → Bool
better_offset k m l n = ltb l k || (l == k && ltb m n)

feasible_offset :
    (x l k m : ℕ) (s : Source)
    → IsU16 x
    → l < 32768
    → k < 32768
    → s.seqno ≡ (x + l) % 2 ^ 16
    → feasible s ((x + k) % 2 ^ 16) m ≡ better_offset k m l s.metric
unfolding feasible
feasible_offset x l k m s u hl hk e =
    rw (e, less_offsets x l k u hl hk, same_offsets x l k u hl hk) refl

update_feasibility_offset :
    (x l k m : ℕ) (s : Source)
    → IsU16 x
    → l < 32768
    → k < 32768
    → s.seqno ≡ (x + l) % 2 ^ 16
    → let t = (update_feasibility s ((x + k) % 2 ^ 16) m).0 in
      ((better_offset k m l s.metric ≡ true) × (t.seqno ≡ (x + k) % 2 ^ 16) × (t.metric ≡ m))
      ⊎ ((better_offset k m l s.metric ≡ false) × (t ≡ s))
unfolding update_feasibility
update_feasibility_offset x l k m s u hl hk e =
    let a = less_offsets x l k u hl hk in
    let b = same_offsets x l k u hl hk in ground (arith, a, b, e)

better_through :
    (k m j n l z : ℕ)
    → better_offset j n l z ≡ true
    → better_offset k m j n ≡ true
    → (better_offset k m l z ≡ true) × ((j < k) ⊎ ((j ≡ k) × (m < n)))
better_through k m j n l z p w = ground (arith, p, w)

better_else :
    (k m j n l z : ℕ)
    → better_offset j n l z ≡ false
    → better_offset k m l z ≡ true
    → (j < k) ⊎ ((j ≡ k) × (m < n))
better_else k m j n l z p w = ground (arith, p, w)

-- What is feasible after an update was feasible before, and is better than the update.
feasible_before :
    (x j n k m : ℕ) (s : Source)
    → IsU16 x
    → j < 32768
    → k < 32768
    → IsNear x s
    → feasible (update_feasibility s ((x + j) % 2 ^ 16) n).0 ((x + k) % 2 ^ 16) m ≡ true
    → (feasible s ((x + k) % 2 ^ 16) m ≡ true) × ((j < k) ⊎ ((j ≡ k) × (m < n)))
feasible_before x j n k m s u hj hk (l, hl, e) h =
    let t = (update_feasibility s ((x + j) % 2 ^ 16) n).0 in
    let before = feasible_offset x l k m s u hl hk e in
    elim (update_feasibility_offset x l j n s u hl hj e) [
      | inl (p, q, r) ↦
          let after = feasible_offset x j k m t u hj hk q in
          let w : better_offset k m j n ≡ true = rw r at (sym after ∙ h) in
          rw before (better_through k m j n l s.metric p w)
      | inr (p, q) ↦
          let w : better_offset k m l s.metric ≡ true = sym before ∙ (rw q at h) in
          rw before (w, better_else k m j n l s.metric p w)
    ]

-- The source after the updates, of sequence numbers `x + k` and metrics `m`, were sent in turn.
unfoldable pub advertise : ℕ → Source → List (ℕ × ℕ) → Source
unfolding update_feasibility
advertise x s [] = s
advertise x s ((k, m) ∷ sent) = advertise x (update_feasibility s ((x + k) % 2 ^ 16) m).0 sent

feasible_advertised :
    (x : ℕ) (s : Source) (sent : List (ℕ × ℕ)) (k m : ℕ)
    → IsU16 x
    → All (λ (a : ℕ × ℕ). a.0 < 32768) sent
    → k < 32768
    → IsNear x s
    → feasible (advertise x s sent) ((x + k) % 2 ^ 16) m ≡ true
    → (feasible s ((x + k) % 2 ^ 16) m ≡ true)
      × All (λ (a : ℕ × ℕ). (a.0 < k) ⊎ ((a.0 ≡ k) × (m < a.1))) sent
unfolding advertise
feasible_advertised x s [] k m u hs hk near h = (h, tt)
feasible_advertised x s ((j, n) ∷ sent) k m u (hj, hs) hk near h =
    let t = (update_feasibility s ((x + j) % 2 ^ 16) n).0 in
    let ih =
      feasible_advertised x t sent k m u hs hk (update_feasibility-IsNear x j n s hj near) h in
    let before = feasible_before x j n k m s u hj hk near ih.0 in (before.0, (before.1, ih.1))

-- Every update that is feasible is better than each update that was sent: it has a later sequence
-- number, or the same one and a smaller metric. The sequence numbers are less than half the ring
-- ahead of the first one's.
pub feasible-advertise :
    (s : Source) (sent : List (ℕ × ℕ)) (k m : ℕ)
    → IsU16 s.seqno
    → All (λ (a : ℕ × ℕ). a.0 < 32768) sent
    → k < 32768
    → feasible (advertise s.seqno s sent) ((s.seqno + k) % 2 ^ 16) m ≡ true
    → All (λ (a : ℕ × ℕ). (a.0 < k) ⊎ ((a.0 ≡ k) × (m < a.1))) sent
feasible-advertise s sent k m u hs hk h =
    (feasible_advertised s.seqno s sent k m u hs hk (0, omega arith, omega arith) h).1
