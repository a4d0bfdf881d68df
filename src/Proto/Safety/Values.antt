-- ===== src/Proto/Safety/Values.antt =====
-- The decoders of the TLVs neither panic nor leave the parser with a short default prefix.
use th.Base.{ℕ, inl, inr, List, [], ◌∷◌, Option, none, some, Bool-cases, ◌==◌, arith}
use th.Proto.Addr.{Prefix}
use th.Proto.Value.{TimestampIhu, Update}
use th.Proto.Result.{Result, ok, err, panic, stuck, Answers}
use th.Proto.Reader.{uint8, uint16, uint32}
use th.Proto.Interval.{interval}
use th.Proto.Decode.Fields.{Parser, router_id, prefix, source_prefix}
use th.Proto.Decode.Loop.{for_each_sub_value}
use th.Proto.Decode.Sub.{
  reading, hello_sub, ihu_sub, update_sub, path_metrics_sub, path_quality_sub, request_sub,
}
use th.Proto.Decode.Values.{sub_values, ihu_sub_values}
use th.Proto.Safety.Address.{Ensures, bind-Ensures, Fits, IsParser, prefix-Ensures}
use th.Proto.Safety.Loop.{Safe, for_each_sub_value-Safe}

pub uint8-Ensures : (b : List ℕ) → Ensures (λ (n : ℕ). Unit) (uint8 b)
unfolding uint8
uint8-Ensures [] = tt
uint8-Ensures (x ∷ b) = tt

pub uint16-Ensures : (b : List ℕ) → Ensures (λ (n : ℕ). Unit) (uint16 b)
unfolding uint16
uint16-Ensures [] = tt
uint16-Ensures (x ∷ []) = tt
uint16-Ensures (x ∷ y ∷ b) = tt

pub uint32-Ensures : (b : List ℕ) → Ensures (λ (n : ℕ). Unit) (uint32 b)
unfolding uint32
uint32-Ensures [] = tt
uint32-Ensures (x ∷ []) = tt
uint32-Ensures (x ∷ y ∷ []) = tt
uint32-Ensures (x ∷ y ∷ z ∷ []) = tt
uint32-Ensures (x ∷ y ∷ z ∷ w ∷ b) = tt

pub interval-Ensures : (b : List ℕ) → Ensures (λ (n : ℕ). Unit) (interval b)
unfolding interval
interval-Ensures b =
    bind-Ensures (λ (n : ℕ). Unit) (λ (n : ℕ). Unit) uint16 _ b (uint16-Ensures b) (λ a c h. tt)

pub router_id-Ensures : (b : List ℕ) → Ensures (λ (r : List ℕ). Unit) (router_id b)
unfolding router_id
router_id-Ensures b = ground arith

pub any-Ensures :
    {A : Type 0} (P : A → Type 0) (r : Result (A × List ℕ))
    → Ensures P r
    → Ensures (λ (a : A). Unit) r
any-Ensures P (ok (a, c)) h = tt
any-Ensures P (err e) h = tt
any-Ensures P panic h = h
any-Ensures P stuck h = h

-- A read into a variable of the callback's state.
reading-Safe :
    {A S : Type 0} (P : S → Type 0) (Q : A → Type 0) (r : Result (A × List ℕ)) (s : S)
    (next : A → List ℕ → S × Result (List ℕ))
    → Ensures Q r
    → P s
    → ((a : A) (c : List ℕ) → Q a → Safe P (next a c))
    → Safe P (reading r s next)
reading-Safe P Q (ok (a, c)) s next h p k = k a c h
reading-Safe P Q (err e) s next h p k = (p, tt)
reading-Safe P Q panic s next h p k = absurd h
reading-Safe P Q stuck s next h p k = absurd h

pub hello_sub-Safe :
    (ts : Option ℕ) (t : ℕ) (b : List ℕ) → Safe (λ (o : Option ℕ). Unit) (hello_sub ts t b)
unfolding hello_sub
hello_sub-Safe ts t b = elim (Bool-cases (t == 3)) [
  | inl e ↦ rw e (
      reading-Safe (λ (o : Option ℕ). Unit) (λ (n : ℕ). Unit) (uint32 b) (some 0)
        (λ transmit c. (some transmit, ok c)) (uint32-Ensures b) tt (λ a c h. (tt, tt)))
  | inr e ↦ rw e (tt, tt)
]

pub ihu_sub-Safe :
    (ts : Option TimestampIhu) (t : ℕ) (b : List ℕ)
    → Safe (λ (o : Option TimestampIhu). Unit) (ihu_sub ts t b)
unfolding ihu_sub
ihu_sub-Safe ts t b =
    let any = λ (o : Option TimestampIhu). Unit {0} in
    elim (Bool-cases (t == 3)) [
      | inl e ↦ rw e (
          reading-Safe any (λ (n : ℕ). Unit) (uint32 b) _ _ (uint32-Ensures b) tt
            (λ origin c h.
              reading-Safe any (λ (n : ℕ). Unit) (uint32 c) _ _ (uint32-Ensures c) tt
                (λ receive d h'. (tt, tt))))
      | inr e ↦ rw e (tt, tt)
    ]

module _ (P : Prefix → Type 0) where
  abbrev OnPrefix : Update → Type 0
  OnPrefix v = P v.prefix

  path_metrics_sub-Safe :
      (v : Update) (b : List ℕ) → P v.prefix → Safe OnPrefix (path_metrics_sub v b)
  unfolding path_metrics_sub
  path_metrics_sub-Safe v b p =
      reading-Safe OnPrefix (λ (n : ℕ). Unit) (uint32 b) _ _ (uint32-Ensures b) p
        (λ x c h.
          reading-Safe OnPrefix (λ (n : ℕ). Unit) (uint32 c) _ _ (uint32-Ensures c) p
            (λ y d h'. (p, tt)))

  path_quality_sub-Safe :
      (v : Update) (b : List ℕ) → P v.prefix → Safe OnPrefix (path_quality_sub v b)
  unfolding path_quality_sub
  path_quality_sub-Safe v b p =
      reading-Safe OnPrefix (λ (n : ℕ). Unit) (uint32 b) _ _ (uint32-Ensures b) p
        (λ x c h.
          reading-Safe OnPrefix (λ (n : ℕ). Unit) (uint32 c) _ _ (uint32-Ensures c) p
            (λ y d h'.
              reading-Safe OnPrefix (λ (n : ℕ). Unit) (uint16 d) _ _ (uint16-Ensures d) p
                (λ z e k.
                  reading-Safe OnPrefix (λ (n : ℕ). Unit) (uint16 e) _ _ (uint16-Ensures e) p
                    (λ w f l. (p, tt)))))

module _ (p : Parser) (parser : IsParser p) where
  source_prefix-Ensures :
      (ae : ℕ) (b : List ℕ) → Ensures (λ (x : Prefix). Unit) (source_prefix p ae b)
  unfolding source_prefix
  source_prefix-Ensures ae b =
      bind-Ensures (λ (n : ℕ). Unit) (λ (x : Prefix). Unit) uint8 _ b (uint8-Ensures b)
        (λ plen c h.
          any-Ensures (λ (x : Prefix). Fits ae x.addr) (prefix p ae plen 0 c)
            (prefix-Ensures p ae plen 0 c parser))

  pub update_sub-Safe :
      (P : Prefix → Type 0) (ae : ℕ) (v : Update) (t : ℕ) (b : List ℕ)
      → P v.prefix
      → Safe (λ (u : Update). P u.prefix) (update_sub p ae v t b)
  unfolding update_sub
  update_sub-Safe P ae v t b h = elim (Bool-cases (t == 128)) [
    | inl e ↦ rw e (
        reading-Safe (λ (u : Update). P u.prefix) (λ (x : Prefix). Unit) (source_prefix p ae b) _ _
          (source_prefix-Ensures ae b) h (λ x c k. (h, tt)))
    | inr e ↦ elim (Bool-cases (t == 4)) [
      | inl f ↦ rw (e, f) (path_metrics_sub-Safe P v b h)
      | inr f ↦ elim (Bool-cases (t == 5)) [
        | inl g ↦ rw (e, f, g) (path_quality_sub-Safe P v b h)
        | inr g ↦ rw (e, f, g) (h, tt)
      ]
    ]
  ]

  pub request_sub-Safe :
      (ae : ℕ) (s : Option Prefix) (t : ℕ) (b : List ℕ)
      → Safe (λ (o : Option Prefix). Unit) (request_sub p ae s t b)
  unfolding request_sub
  request_sub-Safe ae s t b = elim (Bool-cases (t == 128)) [
    | inl e ↦ rw e (
        reading-Safe (λ (o : Option Prefix). Unit) (λ (x : Prefix). Unit) (source_prefix p ae b) _ _
          (source_prefix-Ensures ae b) tt (λ x c k. (tt, tt)))
    | inr e ↦ rw e (tt, tt)
  ]

answered :
    {S : Type 0} (P : S → Type 0) (s : S) (r : Result (List ℕ))
    → P s
    → Answers r
    → Ensures P (elim r [ ok c ↦ ok (s, c) | err e ↦ err e | panic ↦ panic | stuck ↦ stuck ])
answered P s (ok c) p h = p
answered P s (err e) p h = tt
answered P s panic p h = h
answered P s stuck p h = h

dropped :
    {S : Type 0} (P : S → Type 0) (s : S) (r : Result (List ℕ))
    → P s
    → Answers r
    → Ensures P (elim r [ ok c ↦ ok (s, c) | err e ↦ ok (s, []) | panic ↦ panic | stuck ↦ stuck ])
dropped P s (ok c) p h = p
dropped P s (err e) p h = p
dropped P s panic p h = h
dropped P s stuck p h = h

-- The sub-TLVs of a TLV, whose errors are the TLV's or are dropped.
pub sub_values-Ensures :
    {S : Type 0} (P : S → Type 0) (callback : S → ℕ → List ℕ → S × Result (List ℕ)) (s : S)
    (b : List ℕ)
    → ((s' : S) (t : ℕ) (c : List ℕ) → P s' → Safe P (callback s' t c))
    → P s
    → Ensures P (sub_values callback s b)
sub_values-Ensures P callback s b safe h =
    let out = for_each_sub_value-Safe P callback safe s b h in
    answered P (for_each_sub_value callback s b).0 (for_each_sub_value callback s b).1 out.0 out.1

pub ihu_sub_values-Ensures :
    (b : List ℕ) → Ensures (λ (o : Option TimestampIhu). Unit) (ihu_sub_values b)
ihu_sub_values-Ensures b =
    let any = λ (o : Option TimestampIhu). Unit {0} in
    let out = for_each_sub_value-Safe any ihu_sub (λ s t c h. ihu_sub-Safe s t c) none b tt in
    dropped any (for_each_sub_value ihu_sub none b).0 (for_each_sub_value ihu_sub none b).1 out.0
      out.1
