-- ===== src/Proto/Safety/Loop.antt =====
-- `forEachValue` and `forEachSubValue` neither panic nor run for ever when their callback does not.
use th.Base.{
  ℕ, zero, suc, ◌≤◌, inl, inr, List, [], ◌∷◌, ltb, length, length-drop, drop, take, arith,
  Bool-cases,
}
use th.Proto.Types.{is_mandatory}
use th.Proto.Result.{Result, ok, err, panic, stuck, Answers, Result-cases}
use th.Proto.Result.{
  invalid_magic, unsupported_version, invalid_address, missing_default_prefix, invalid_router_id,
  invalid_value_type, too_short, too_long,
}
use th.Proto.Result.{unsupported_value, unsupported_but_mandatory_value, invalid_value_for_trailer}
use th.Proto.Decode.Loop.{
  value_header, after_callback, for_each_value_loop, for_each_value, sub_answer, for_each_sub_value,
}
use th.Proto.Wire.{value_header_shorter, value_header-Answers}

-- The state satisfies `P`, and the answer is no panic.
abbrev pub Safe {ℓ} : {S : Type ℓ} {A : Type 0} → (S → Type 0) → S × Result A → Type 0
Safe P (s, r) = P s × Answers r

module _ {ℓ} {S : Type ℓ} (P : S → Type 0) where
  after_callback-Safe :
      (out : S × Result (List ℕ)) (next : S → S × Result (List ℕ))
      → Safe P out
      → ((s : S) → P s → Safe P (next s))
      → Safe P (after_callback out next)
  after_callback-Safe (s, ok []) next h k = k s h.0
  after_callback-Safe (s, ok (x ∷ c)) next h k = h
  after_callback-Safe (s, err e) next h k = h
  after_callback-Safe (s, panic) next h k = h
  after_callback-Safe (s, stuck) next h k = h

  sub_answer-Safe : (t : ℕ) (out : S × Result (List ℕ)) → Safe P out → Safe P (sub_answer t out)
  sub_answer-Safe t (s, ok c) h = h
  sub_answer-Safe t (s, err unsupported_value) h = elim (Bool-cases (is_mandatory t)) [
    | inl p ↦ rw p h
    | inr p ↦ rw p h
  ]
  sub_answer-Safe t (s, err invalid_magic) h = h
  sub_answer-Safe t (s, err unsupported_version) h = h
  sub_answer-Safe t (s, err invalid_address) h = h
  sub_answer-Safe t (s, err missing_default_prefix) h = h
  sub_answer-Safe t (s, err invalid_router_id) h = h
  sub_answer-Safe t (s, err invalid_value_type) h = h
  sub_answer-Safe t (s, err too_short) h = h
  sub_answer-Safe t (s, err too_long) h = h
  sub_answer-Safe t (s, err unsupported_but_mandatory_value) h = h
  sub_answer-Safe t (s, err invalid_value_for_trailer) h = h
  sub_answer-Safe t (s, panic) h = h
  sub_answer-Safe t (s, stuck) h = h

  module _ (callback : S → ℕ → List ℕ → S × Result (List ℕ))
      (safe : (s : S) (t : ℕ) (b : List ℕ) → P s → Safe P (callback s t b)) where
    loop-Safe :
        (fuel : ℕ) (s : S) (b : List ℕ)
        → length b ≤ fuel
        → P s
        → Safe P (for_each_value_loop callback fuel s b)
    unfolding for_each_value_loop
    loop-Safe fuel s [] l h = (h, tt)
    loop-Safe zero s (x ∷ b) l h = absurd (omega arith)
    loop-Safe (suc fuel) s (x ∷ b) l h = elim (Result-cases (value_header (x ∷ b))) [
      | inl (((t, n), c), e) ↦
          let short = value_header_shorter (x ∷ b) t n c e in
          elim (Bool-cases (ltb (length c) n)) [
            | inl p ↦ rw (e, for_each_value_loop) (rw p (h, tt))
            | inr p ↦
                rw (e, for_each_value_loop)
                  (rw p (
                    after_callback-Safe (callback s t (take n c))
                      (λ (s' : S). for_each_value_loop callback fuel s' (drop n c))
                      (safe s t (take n c) h)
                      (λ s' h'. loop-Safe fuel s' (drop n c) (omega (arith, length-drop n c)) h')))
          ]
      | inr (inl (k, e)) ↦ rw (e, for_each_value_loop) (h, tt)
      | inr (inr (inl e)) ↦ absurd (rw e at (value_header-Answers (x ∷ b)))
      | inr (inr (inr e)) ↦ absurd (rw e at (value_header-Answers (x ∷ b)))
    ]

    pub for_each_value-Safe : (s : S) (b : List ℕ) → P s → Safe P (for_each_value callback s b)
    unfolding for_each_value
    for_each_value-Safe s b h = loop-Safe (length b) s b (omega arith) h

module _ {ℓ} {S : Type ℓ} (P : S → Type 0) (callback : S → ℕ → List ℕ → S × Result (List ℕ))
    (safe : (s : S) (t : ℕ) (b : List ℕ) → P s → Safe P (callback s t b)) where
  pub for_each_sub_value-Safe :
      (s : S) (b : List ℕ) → P s → Safe P (for_each_sub_value callback s b)
  unfolding for_each_sub_value
  for_each_sub_value-Safe s b h =
      for_each_value-Safe P (λ (s' : S) (t : ℕ) (c : List ℕ). sub_answer t (callback s' t c))
        (λ s' t c h'. sub_answer-Safe P t (callback s' t c) (safe s' t c h')) s b h
