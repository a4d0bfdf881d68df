-- ===== src/Proto/Wire.antt =====
-- What the writers of internal/babel/proto/parser.go append, and what the readers make of it.
use th.Base.{
  ℕ, zero, suc, ◌+◌, ◌/◌, ◌%◌, ◌^◌, ◌≤◌, ◌<◌, ◌≡◌, ◌≢◌, refl, ap, List, [], ◌∷◌, ◌++◌, length, set,
  take, drop, take-length, drop-length, length-drop, length-append, arith, ltb, if◌then◌else◌,
  false, inl, inr,
}
use mathlib.Core.List.{append_assoc}
use mathlib.Core.Path.{fun_ext}
use th.Proto.Result.{Result, ok, err, too_short, Result-cases, Answers}
use th.Proto.Reader.{uint16, uint32, append_uint8}
use th.Proto.Encode.{append_value_header}
use th.Proto.Decode.Loop.{for_each_value_loop, for_each_value, value_header, after_callback}

abbrev pub be16 : ℕ → List ℕ
be16 v = v / 256 % 256 ∷ v % 256 ∷ []

abbrev pub be32 : ℕ → List ℕ
be32 v = v / 2 ^ 24 % 256 ∷ v / 2 ^ 16 % 256 ∷ v / 2 ^ 8 % 256 ∷ v % 256 ∷ []

pub uint16-be16 : (v : ℕ) (rest : List ℕ) → v < 2 ^ 16 → uint16 (be16 v ++ rest) ≡ ok (v, rest)
unfolding uint16
uint16-be16 v rest h = ground arith

pub uint32-be32 : (v : ℕ) (rest : List ℕ) → v < 2 ^ 32 → uint32 (be32 v ++ rest) ≡ ok (v, rest)
unfolding uint32
uint32-be32 v rest h = ground arith

-- `f` appends `w`, whatever stands in the buffer.
abbrev pub Appends : (List ℕ → Result (List ℕ)) → List ℕ → Type 0
Appends f w = (b : List ℕ) → f b ≡ ok (b ++ w)

-- A TLV: type, length, payload.
abbrev pub tlv : ℕ → List ℕ → List ℕ
tlv t w = t ∷ length w ∷ w

-- A write at position `length b + j` of a buffer goes to position `j` of what follows `b`.
pub set-append : (b w : List ℕ) (i j n : ℕ) → i ≡ length b + j → set (b ++ w) i n ≡ b ++ set w j n
set-append [] w i j n e = ap (λ k. set w k n) (omega arith)
set-append (x ∷ b) w zero j n e = absurd (omega arith)
set-append (x ∷ b) w (suc i) j n e = ap (λ t. x ∷ t) (set-append b w i j n (omega arith))

pub append_value_header-Appends :
    (t : ℕ) (f : List ℕ → Result (List ℕ)) (w : List ℕ)
    → length w < 256
    → Appends f w
    → Appends (λ b. append_value_header b t f) (tlv t w)
unfolding append_value_header append_uint8
append_value_header-Appends t f w h e b = rw (e ((b ++ (t ∷ [])) ++ (0 ∷ []))) (
    rw (append_assoc b (t ∷ []) (0 ∷ []), append_assoc b (t ∷ 0 ∷ []) w)
      (rw (set-append b (t ∷ 0 ∷ w) (length b + 1) 1 _ refl, length-append b (t ∷ 0 ∷ w))
        (ap (λ n. ok (b ++ (t ∷ n ∷ w))) (omega arith))))

-- A header takes at least a byte.
pub value_header_shorter :
    (b : List ℕ) (t l : ℕ) (c : List ℕ) → value_header b ≡ ok ((t, l), c) → length c < length b
unfolding value_header
value_header_shorter [] t l c h = absurd (ground arith)
value_header_shorter (x ∷ []) t l c h = ground arith
value_header_shorter (x ∷ y ∷ b) t l c h = ground arith

pub value_header-Answers : (b : List ℕ) → Answers (value_header b)
unfolding value_header
value_header-Answers [] = tt
value_header-Answers (x ∷ []) = ground arith
value_header-Answers (x ∷ y ∷ b) = ground arith

module _ {ℓ} {S : Type ℓ} (callback : S → ℕ → List ℕ → S × Result (List ℕ)) where
  -- More fuel than bytes changes nothing.
  for_each_value_loop-fuel :
      (f g : ℕ) (s : S) (b : List ℕ)
      → length b ≤ f
      → length b ≤ g
      → for_each_value_loop callback f s b ≡ for_each_value_loop callback g s b
  unfolding for_each_value_loop
  for_each_value_loop-fuel f g s [] hf hg = refl
  for_each_value_loop-fuel zero g s (x ∷ b) hf hg = absurd (omega arith)
  for_each_value_loop-fuel (suc f) zero s (x ∷ b) hf hg = absurd (omega arith)
  for_each_value_loop-fuel (suc f) (suc g) s (x ∷ b) hf hg =
      elim (Result-cases (value_header (x ∷ b))) [
        | inl (((t, l), c), e) ↦
            let short = value_header_shorter (x ∷ b) t l c e in
            let rest = λ (s' : S).
              for_each_value_loop-fuel f g s' (drop l c) (omega (arith, length-drop l c))
                (omega (arith, length-drop l c)) in
            rw (e, for_each_value_loop)
              (ap
                (λ (k : S → S × Result (List ℕ)).
                  if ltb (length c) l
                  then (s, err too_short)
                  else after_callback (callback s t (take l c)) k)
                (fun_ext rest))
        | inr (inl (k, e)) ↦ rw (e, for_each_value_loop)
        | inr (inr (inl e)) ↦ rw (e, for_each_value_loop)
        | inr (inr (inr e)) ↦ rw (e, for_each_value_loop)
      ]

  -- A TLV whose payload the callback takes whole is one round of the loop.
  pub for_each_value-tlv :
      (s s' : S) (t : ℕ) (w rest : List ℕ)
      → t ≢ 0
      → callback s t w ≡ (s', ok [])
      → for_each_value callback s (tlv t w ++ rest) ≡ for_each_value callback s' rest
  unfolding for_each_value for_each_value_loop value_header
  for_each_value-tlv s s' t w rest nz h =
      let out =
        for_each_value_loop-fuel (suc (length (w ++ rest))) (length rest) s' rest
          (omega (arith, length-append w rest)) (omega arith) in
      ground (
        arith,
        take-length w rest (length w) refl,
        drop-length w rest (length w) refl,
        length-append w rest,
        out,
      )

  -- A `Pad1` has no length byte.
  pub for_each_value-pad1 :
      (s s' : S) (rest : List ℕ)
      → callback s 0 [] ≡ (s', ok [])
      → for_each_value callback s (0 ∷ rest) ≡ for_each_value callback s' rest
  unfolding for_each_value for_each_value_loop value_header
  for_each_value-pad1 s s' [] h = rw h
  for_each_value-pad1 s s' (x ∷ rest) h =
      let fits : ltb (suc (length rest)) 0 ≡ false = ground arith in rw (h, fits)
