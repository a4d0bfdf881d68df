-- ===== src/Proto/Result.antt =====
-- Go's (value, error) pairs of internal/babel/proto, with the errors of errors.go.
use th.Base.{◌≡◌, refl, ◌⊎◌, inl, inr}

pub data Error : Type 0 where
  invalid_magic unsupported_version invalid_address missing_default_prefix : Error
  invalid_router_id invalid_value_type too_short too_long : Error
  unsupported_value unsupported_but_mandatory_value invalid_value_for_trailer : Error

-- `panic` is a Go panic. `stuck` is no Go value: the fuel of a loop ran out.
pub data Result {ℓ} (A : Type ℓ) : Type ℓ where
  ok : A → Result A
  err : Error → Result A
  panic : Result A
  stuck : Result A

infixl 5 ◌>>=◌
abbrev pub ◌>>=◌ {ℓ κ} : {A : Type ℓ} {B : Type κ} → Result A → (A → Result B) → Result B
ok a >>= f = f a
err e >>= f = err e
panic >>= f = panic
stuck >>= f = stuck

-- Neither a panic nor a loop that did not end.
abbrev pub Answers {ℓ} : {A : Type ℓ} → Result A → Type 0
Answers (ok a) = Unit
Answers (err e) = Unit
Answers panic = ⊥
Answers stuck = ⊥

pub Result-cases {ℓ} :
    {A : Type ℓ} (r : Result A)
    → ((a : A) × (r ≡ ok a)) ⊎ ((e : Error) × (r ≡ err e)) ⊎ (r ≡ panic) ⊎ (r ≡ stuck)
Result-cases (ok a) = inl (a, refl)
Result-cases (err e) = inr (inl (e, refl))
Result-cases panic = inr (inr (inl refl))
Result-cases stuck = inr (inr (inr refl))
