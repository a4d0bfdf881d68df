-- ===== src/Proto/Decode/Loop.antt =====
-- The loops over TLVs and sub-TLVs: `valueHeader`, `forEachValue` and `forEachSubValue` of
-- internal/babel/proto/parser.go. A callback changes a state and answers with what it left unread.
use th.Base.{ℕ, zero, suc, List, [], ◌∷◌, ltb, ◌==◌, if◌then◌else◌, length, take, drop}
use th.Proto.Types.{type_pad1, is_mandatory}
use th.Proto.Result.{Result, ok, err, panic, stuck, too_short, too_long, unsupported_value}
use th.Proto.Result.{unsupported_but_mandatory_value}
use th.Proto.Reader.{Reader}

-- The type and the length of the payload; `Pad1` has no length byte.
unfoldable pub value_header : Reader (ℕ × ℕ)
value_header [] = err too_short
value_header (t ∷ []) = if t == type_pad1 then ok ((t, 0), []) else err too_short
value_header (t ∷ l ∷ b) = if t == type_pad1 then ok ((t, 0), l ∷ b) else ok ((t, l), b)

-- What `forEachValue` does with a callback's answer; `next` is the rest of the loop.
abbrev pub after_callback {ℓ} :
    {S : Type ℓ} → S × Result (List ℕ) → (S → S × Result (List ℕ)) → S × Result (List ℕ)
after_callback (s, ok []) next = next s
after_callback (s, ok (x ∷ c)) next = (s, err too_long)
after_callback (s, err e) next = (s, err e)
after_callback (s, panic) next = (s, panic)
after_callback (s, stuck) next = (s, stuck)

module _ {ℓ} {S : Type ℓ} (callback : S → ℕ → List ℕ → S × Result (List ℕ)) where
  unfoldable pub for_each_value_loop : ℕ → S → List ℕ → S × Result (List ℕ)
  for_each_value_loop fuel s [] = (s, ok [])
  for_each_value_loop zero s (x ∷ b) = (s, stuck)
  for_each_value_loop (suc fuel) s (x ∷ b) = elim (value_header (x ∷ b)) [
    | ok ((t, l), c) ↦
        if ltb (length c) l
        then (s, err too_short)
        else after_callback (callback s t (take l c)) (λ s'. for_each_value_loop fuel s' (drop l c))
    | err e ↦ (s, err e)
    | panic ↦ (s, panic)
    | stuck ↦ (s, stuck)
  ]

  -- Each round takes a byte at least, so `length b` rounds are enough.
  unfoldable pub for_each_value : S → List ℕ → S × Result (List ℕ)
  unfolding for_each_value_loop value_header
  for_each_value s b = for_each_value_loop (length b) s b

-- An unknown sub-TLV is skipped, unless its type is mandatory.
abbrev pub sub_answer {ℓ} : {S : Type ℓ} → ℕ → S × Result (List ℕ) → S × Result (List ℕ)
sub_answer t (s, ok c) = (s, ok c)
sub_answer t (s, err unsupported_value) =
    if is_mandatory t then (s, err unsupported_but_mandatory_value) else (s, ok [])
sub_answer t (s, err e) = (s, err e)
sub_answer t (s, panic) = (s, panic)
sub_answer t (s, stuck) = (s, stuck)

module _ {ℓ} {S : Type ℓ} (callback : S → ℕ → List ℕ → S × Result (List ℕ)) where
  unfoldable pub for_each_sub_value : S → List ℕ → S × Result (List ℕ)
  unfolding for_each_value is_mandatory
  for_each_sub_value = for_each_value (λ s t b. sub_answer t (callback s t b))
