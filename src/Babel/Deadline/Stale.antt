-- ===== src/Babel/Deadline/Stale.antt =====
-- A timer of internal/babel/internal/deadline/deadline.go that was stopped, reset or closed does nothing.
use mathlib.Core.Path.{subst}
use th.Base.{
  ℕ, ◌+◌, ◌^◌, ◌<◌, ◌≤◌, ◌≡◌, ◌⊎◌, refl, inl, inr, Bool, true, false, ◌||◌, not, ◌==◌, List, [],
  ◌∷◌, All, All-map, if◌then◌else◌, arith,
}
use th.Babel.Deadline.{
  Deadline, new_deadline, next_generation, close, reset_timer, fire, stop, take_expiry,
}

-- What happens to a deadline, until its generations are used up.
pub data Step (d : Deadline) : Deadline → Type 0 where
  step_close : d.generation + 1 < 2 ^ 64 → Step d (close d)
  step_reset : d.generation + 1 < 2 ^ 64 → Step d (reset_timer d)
  step_stop : d.generation + 1 < 2 ^ 64 → Step d (stop d)
  step_fire : (g : ℕ) → Step d (fire g d)
  step_take : Step d (take_expiry d)

pub data Reach : Deadline → Type 0 where
  here : Reach new_deadline
  next_step : {d e : Deadline} → Reach d → Step d e → Reach e

-- No timer is of a later generation.
abbrev Started : Deadline → Type 0
Started d = All (λ g. g ≤ d.generation) d.timers

raised : (n m : ℕ) (timers : List ℕ) → n ≤ m → All (λ g. g ≤ n) timers → All (λ g. g ≤ m) timers
raised n m timers le = All-map (λ g h. omega (arith, h, le)) timers

if-Started : (b : Bool) (x y : Deadline) → Started x → Started y → Started (if b then x else y)
if-Started true x y p q = p
if-Started false x y p q = q

Step-Started : {d e : Deadline} → Step d e → Started d → Started e
unfolding close reset_timer stop fire take_expiry
Step-Started {d} (step_close small) s =
    if-Started d.closed _ _ s
      (raised d.generation (next_generation d) d.timers (omega (arith, small)) s)
Step-Started {d} (step_reset small) s =
    if-Started d.closed _ _ s
      (omega arith, raised d.generation (next_generation d) d.timers (omega (arith, small)) s)
Step-Started {d} (step_stop small) s =
    raised d.generation (next_generation d) d.timers (omega (arith, small)) s
Step-Started {d} (step_fire g) s = if-Started (d.closed || not (d.generation == g)) _ _ s s
Step-Started {d} step_take s = s

Reach-Started : {d : Deadline} → Reach d → Started d
Reach-Started here = tt
Reach-Started (next_step r s) = Step-Started s (Reach-Started r)

-- Membership, by recursion.
abbrev pub Has : ℕ → List ℕ → Type 0
Has g [] = ⊥
Has g (h ∷ timers) = (h ≡ g) ⊎ Has g timers

All-Has : (P : ℕ → Type 0) (g : ℕ) (timers : List ℕ) → All P timers → Has g timers → P g
All-Has P g [] h i = absurd i
All-Has P g (x ∷ timers) (p, h) (inl e) = subst P e p
All-Has P g (x ∷ timers) (p, h) (inr i) = All-Has P g timers h i

fire-later : (g : ℕ) (d : Deadline) → g < d.generation → fire g d ≡ d
unfolding fire
fire-later g d lt =
    let test : (d.closed || not (d.generation == g)) ≡ true = ground (arith, lt) in rw test refl

fire-closed : (g : ℕ) (d : Deadline) → d.closed ≡ true → fire g d ≡ d
unfolding fire
fire-closed g d e = rw e refl

fire-if :
    (g : ℕ) (b : Bool) (x y : Deadline)
    → (b ≡ true → fire g x ≡ x)
    → fire g y ≡ y
    → fire g (if b then x else y) ≡ (if b then x else y)
fire-if g true x y p q = p refl
fire-if g false x y p q = q

-- A timer that was started before the deadline was stopped, reset or closed does nothing when it fires
-- afterwards, while fewer than 2 ^ 64 - 1 of these calls were made.
pub fire-stop :
    (d : Deadline) (g : ℕ)
    → Reach d
    → d.generation + 1 < 2 ^ 64
    → Has g d.timers
    → (fire g (stop d) ≡ stop d)
      × (fire g (reset_timer d) ≡ reset_timer d)
      × (fire g (close d) ≡ close d)
unfolding stop reset_timer close
fire-stop d g r small i =
    let old : g ≤ d.generation = All-Has (λ h. h ≤ d.generation) g d.timers (Reach-Started r) i in
    let lt : g < next_generation d = omega (arith, old, small) in
    (
      fire-later g (stop d) lt,
      fire-if g d.closed d _ (fire-closed g d) (
          fire-later g
            (record d {
              expired = false;
              generation = next_generation d;
              timers = next_generation d ∷ d.timers;
            })
            lt),
      fire-if g d.closed d _ (fire-closed g d)
          (fire-closed g (record d { closed = true; generation = next_generation d }) refl),
    )
