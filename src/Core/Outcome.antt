-- ===== src/Core/Outcome.antt =====
-- The (value, error) pairs of internal/core. `reject` carries which check failed, `crash` is the panic
-- of a nil pointer that is read.
use th.Base.{◌≡◌, refl}
use th.Model.Check.{Check, Error, ok, err, panic}

pub data Rejection : Type 0 where
  too_many_records too_many_claims : Rejection
  shared_id shared_name shared_interface shared_srv6_table shared_if_id shared_req_id : Rejection
  shared_priority colliding_routes : Rejection
  invalid_record : Error → Rejection

pub data Outcome {ℓ} (A : Type ℓ) : Type ℓ where
  accept : A → Outcome A
  reject : Rejection → Outcome A
  crash : Outcome A

infixl 5 ◌>>=◌
abbrev pub ◌>>=◌ {ℓ κ} : {A : Type ℓ} {B : Type κ} → Outcome A → (A → Outcome B) → Outcome B
accept a >>= f = f a
reject e >>= f = reject e
crash >>= f = crash

-- `if err := c; err != nil { return err }`, and then `m`.
abbrev pub after_check {ℓ} : {A : Type ℓ} → Check → Outcome A → Outcome A
after_check ok m = m
after_check (err e) m = reject (invalid_record e)
after_check panic m = crash

pub >>=-accept {ℓ κ} :
    {A : Type ℓ} {B : Type κ} (m : Outcome A) (f : A → Outcome B) {b : B}
    → (m >>= f) ≡ accept b
    → (a : A) × (m ≡ accept a) × (f a ≡ accept b)
>>=-accept (accept a) f h = (a, refl, h)
>>=-accept (reject e) f h = cc
>>=-accept crash f h = cc

pub after_check-accept {ℓ} :
    {A : Type ℓ} (c : Check) (m : Outcome A) {a : A}
    → after_check c m ≡ accept a
    → (c ≡ ok) × (m ≡ accept a)
after_check-accept ok m h = (refl, h)
after_check-accept (err e) m h = cc
after_check-accept panic m h = cc
