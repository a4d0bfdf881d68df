-- ===== src/Proto/Safety/Address.antt =====
-- Addresses and prefixes are read without a panic when the parser's default prefixes are long enough.
use th.Base.{
  ℕ, zero, suc, ◌+◌, ◌%◌, ◌/◌, ◌≤◌, ◌≡◌, refl, ap, ◌∙◌, inl, inr, Bool, false, List, [], ◌∷◌, ◌++◌,
  none, some, All, ltb, ◌==◌, ◌||◌, ◌*◌, take, length, length-set, length-replicate, copy, copy_at,
  replicate, arith, Bool-cases, if◌then◌else◌, Option-cases,
}
use th.Base.Maps.{lookup, insert}
use th.Proto.Addr.{Addr, zero_addr, Prefix, as_slice, prefix_from, addr_from_slice, mapped_prefix}
use th.Proto.Result.{Result, ok, err, panic, stuck, Answers, Result-cases}
use th.Proto.Reader.{Reader, ◌>>=◌, pure}
use th.Proto.Decode.Fields.{
  Parser, address_length, default_bytes, clear_tail, assemble, plain_address, link_local_address,
  address, prefix, ae_ipv4_in_ipv6, real_length, buffer_length,
}

-- A result that is no panic, and whose value, if any, satisfies `P`.
abbrev pub Ensures : {A : Type 0} → (A → Type 0) → Result (A × List ℕ) → Type 0
Ensures P (ok (a, b)) = P a
Ensures P (err e) = Unit
Ensures P panic = ⊥
Ensures P stuck = ⊥

result-Ensures :
    {A B : Type 0} (P : A → Type 0) (Q : B → Type 0) (r : Result (A × List ℕ)) (f : A → Reader B)
    → Ensures P r
    → ((a : A) (c : List ℕ) → P a → Ensures Q (f a c))
    → Ensures Q (elim r [ ok (a, rest) ↦ f a rest | err e ↦ err e | panic ↦ panic | stuck ↦ stuck ])
result-Ensures P Q (ok (a, c)) f h k = k a c h
result-Ensures P Q (err e) f h k = tt
result-Ensures P Q panic f h k = h
result-Ensures P Q stuck f h k = h

-- One reader after the other.
pub bind-Ensures :
    {A B : Type 0} (P : A → Type 0) (Q : B → Type 0) (m : Reader A) (f : A → Reader B) (b : List ℕ)
    → Ensures P (m b)
    → ((a : A) (c : List ℕ) → P a → Ensures Q (f a c))
    → Ensures Q ((m >>= f) b)
bind-Ensures P Q m f b h k = result-Ensures P Q (m b) f h k

-- A default prefix is as long as an address of its encoding.
abbrev pub Fits : ℕ → Addr → Type 0
Fits ae a = address_length ae ≤ length (as_slice a)

abbrev pub IsParser : Parser → Type 0
IsParser p = All (λ (e : ℕ × Addr). Fits e.0 e.1) p.default_prefix

lookup-Fits :
    (ae : ℕ) (a : Addr) (m : List (ℕ × Addr))
    → All (λ (e : ℕ × Addr). Fits e.0 e.1) m
    → lookup ◌==◌ ae m ≡ some a
    → Fits ae a
unfolding lookup
lookup-Fits ae a [] h e = absurd (ground (arith, e))
lookup-Fits ae a ((j, x) ∷ m) (f, h) e = elim (Bool-cases (j == ae)) [
  | inl p ↦
      let same_key : j ≡ ae = ground (arith, p) in
      let found : some x ≡ some a = rw p at e in let same : x ≡ a = cc in rw (← same_key, ← same) f
  | inr p ↦ lookup-Fits ae a m h (rw p at e)
]

pub insert-Fits :
    (ae : ℕ) (a : Addr) (m : List (ℕ × Addr))
    → All (λ (e : ℕ × Addr). Fits e.0 e.1) m
    → Fits ae a
    → All (λ (e : ℕ × Addr). Fits e.0 e.1) (insert ◌==◌ ae a m)
unfolding insert
insert-Fits ae a [] h f = (f, tt)
insert-Fits ae a ((j, x) ∷ m) (g, h) f = elim (Bool-cases (j == ae)) [
  | inl p ↦ rw p (let same : j ≡ ae = ground (arith, p) in rw same f, h)
  | inr p ↦ rw p (g, insert-Fits ae a m h f)
]

default_bytes-Answers :
    (p : Parser) (ae omitted : ℕ)
    → IsParser p
    → omitted ≤ address_length ae
    → Answers (default_bytes p ae omitted)
unfolding default_bytes
default_bytes-Answers p ae omitted h l = elim (Bool-cases (omitted == 0)) [
  | inl z ↦ rw z tt
  | inr z ↦ elim (Option-cases (lookup ◌==◌ ae p.default_prefix)) [
    | inl e ↦ rw (z, e) tt
    | inr (a, e) ↦
        let f = lookup-Fits ae a p.default_prefix h e in
        let g : ltb (length (as_slice a)) omitted ≡ false = ground (arith, f, l) in rw (z, e, g) tt
  ]
]

length-copy : (ds ss : List ℕ) → length (copy ds ss) ≡ length ds
length-copy [] ss = refl
length-copy (d ∷ ds) [] = refl
length-copy (d ∷ ds) (s ∷ ss) = ap suc (length-copy ds ss)

length-copy_at : (n : ℕ) (ds ss : List ℕ) → length (copy_at n ds ss) ≡ length ds
length-copy_at zero ds ss = length-copy ds ss
length-copy_at (suc n) [] ss = refl
length-copy_at (suc n) (d ∷ ds) ss = ap suc (length-copy_at n ds ss)

length-clear_tail : (n : ℕ) (b : List ℕ) → length (clear_tail n b) ≡ length b
unfolding clear_tail
length-clear_tail n b = elim (Bool-cases (n % 8 == 0)) [
  | inl e ↦ rw e refl
  | inr e ↦ rw e (length-set b _ _)
]

-- The buffer that `assemble` masks has the length of its encoding's addresses.
abbrev assembled : ℕ → ℕ → ℕ → List ℕ → List ℕ → List ℕ
assembled ae rplen omitted front body =
    clear_tail rplen (copy_at omitted (copy (replicate (address_length ae) 0) front) body)

length-assembled :
    (ae rplen omitted : ℕ) (front body : List ℕ)
    → length (assembled ae rplen omitted front body) ≡ address_length ae
length-assembled ae rplen omitted front body =
    length-clear_tail rplen (copy_at omitted (copy (replicate (address_length ae) 0) front) body)
    ∙ length-copy_at omitted (copy (replicate (address_length ae) 0) front) body
    ∙ length-copy (replicate (address_length ae) 0) front
    ∙ length-replicate (address_length ae) 0

-- The address that is made of the buffer.
abbrev made : ℕ → List ℕ → Addr
made ae w = elim (addr_from_slice (if ae == ae_ipv4_in_ipv6 then mapped_prefix ++ w else w)) [
  | some a ↦ a
  | none ↦ zero_addr
]

made-Fits : (ae : ℕ) (w : List ℕ) → length w ≡ address_length ae → Fits ae (made ae w)
made-Fits ae w len = ground (arith, len)

assemble-Fits :
    (ae rplen omitted : ℕ) (front body : List ℕ) → Fits ae (assemble ae rplen omitted front body)
unfolding assemble
assemble-Fits ae rplen omitted front body =
    made-Fits ae (assembled ae rplen omitted front body)
      (length-assembled ae rplen omitted front body)

-- The guard of `address`: with it false, the omitted bytes are no more than an address has.
abbrev is_invalid : ℕ → ℕ → ℕ → Bool
is_invalid ae omitted rplen =
    ltb (address_length ae * 8) rplen
    || ltb (address_length ae) omitted
    || ltb ((rplen + 7) % 256 / 8) omitted

omitted_bound :
    (ae omitted rplen : ℕ) → is_invalid ae omitted rplen ≡ false → omitted ≤ address_length ae
omitted_bound ae omitted rplen e = ground (arith, e)

plain_address-Ensures :
    (p : Parser) (ae omitted plen : ℕ) (b : List ℕ)
    → IsParser p
    → Ensures (λ (a : Addr). Fits ae a) (plain_address p ae omitted plen b)
unfolding plain_address
plain_address-Ensures p ae omitted plen b h =
    let rplen = real_length ae plen in
    let blen = buffer_length rplen omitted in
    elim (Bool-cases (is_invalid ae omitted rplen)) [
      | inl e ↦ rw e tt
      | inr e ↦ elim (Bool-cases (ltb (length b) blen)) [
        | inl f ↦ rw (e, f) tt
        | inr f ↦
            let answers = default_bytes-Answers p ae omitted h (omitted_bound ae omitted rplen e) in
            elim (Result-cases (default_bytes p ae omitted)) [
              | inl (front, d) ↦ rw (e, f, d) (assemble-Fits ae rplen omitted front (take blen b))
              | inr (inl (x, d)) ↦ rw (e, f, d) tt
              | inr (inr (inl d)) ↦ absurd (rw d at answers)
              | inr (inr (inr d)) ↦ absurd (rw d at answers)
            ]
      ]
    ]

link_local_address-Ensures :
    (ae omitted : ℕ) (b : List ℕ)
    → ae ≡ 3
    → Ensures (λ (a : Addr). Fits ae a) (link_local_address omitted b)
unfolding link_local_address
link_local_address-Ensures ae omitted b e = ground (arith, e)

pub address-Ensures :
    (p : Parser) (ae omitted plen : ℕ) (b : List ℕ)
    → IsParser p
    → Ensures (λ (a : Addr). Fits ae a) (address p ae omitted plen b)
unfolding address
address-Ensures p ae omitted plen b h = elim (Bool-cases (ae == 0)) [
  | inl e ↦ rw e (ground (arith, e))
  | inr e ↦ elim (Bool-cases (ae == 1 || ae == 2 || ae == 4)) [
    | inl f ↦ rw (e, f) (plain_address-Ensures p ae omitted plen b h)
    | inr f ↦ elim (Bool-cases (ae == 3)) [
      | inl g ↦ rw (e, f, g) (link_local_address-Ensures ae omitted b (ground (arith, g)))
      | inr g ↦ rw (e, f, g) tt
    ]
  ]
]

pub prefix-Ensures :
    (p : Parser) (ae plen omitted : ℕ) (b : List ℕ)
    → IsParser p
    → Ensures (λ (x : Prefix). Fits ae x.addr) (prefix p ae plen omitted b)
unfolding prefix
prefix-Ensures p ae plen omitted b h =
    bind-Ensures (λ (a : Addr). Fits ae a) (λ (x : Prefix). Fits ae x.addr)
      (address p ae omitted plen) (λ (a : Addr). pure (prefix_from a plen)) b
      (address-Ensures p ae omitted plen b h) (λ a c f. f)
