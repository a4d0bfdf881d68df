-- ===== src/Proto/RoundTrip/Address.antt =====
-- `address` after `appendAddress` and `prefix` after `appendPrefix`, internal/babel/proto/parser.go.
use th.Base.{
  ℕ, zero, suc, ◌-◌, ◌*◌, ◌/◌, ◌%◌, ◌^◌, ◌≤◌, ◌<◌, ◌≡◌, ◌≢◌, refl, sym, ap, ◌∙◌, List, [], ◌∷◌,
  ◌++◌, true, false, ◌&&◌, ◌||◌, inl, inr, length, set, get_or, take, drop, replicate, copy,
  copy_at, All, take-length, drop-length, length-append, length-take, take-all, length-drop, arith,
  leb, if◌then◌else◌, ◌==◌, Bool-cases, bytes_eq→eq,
}
use mathlib.Core.Path.{ap₂}
use th.Proto.Addr.{
  mapped_prefix, Addr, v4, v6, zero_addr, IsAddr, IsByte, mask_bytes, is_valid, as_slice, is6, is4,
  is_unspecified, is4in6, is_link_local_unicast, is_fe80, ipv6_unspecified,
}
use th.Proto.Result.{ok}
use th.Proto.Decode.Fields.{
  default_bytes, Parser, clear_tail, assemble, plain_address, link_local_address, address,
  real_length, buffer_length,
}
use mathlib.Core.List.{append-nil}
use th.Proto.Encode.{append_address, encoded_address_length, bytes_for}

cons_eq : {x y : ℕ} {xs ys : List ℕ} → x ∷ xs ≡ y ∷ ys → (x ≡ y) × (xs ≡ ys)
cons_eq h = ground arith

copy-nil : (n : ℕ) → copy {A = ℕ} (replicate n 0) [] ≡ replicate n 0
copy-nil zero = refl
copy-nil (suc n) = refl

-- Masked bytes are their first `bytes_for n` ones, and zeros.
copy_masked :
    (bs : List ℕ) (n k : ℕ)
    → All IsByte bs
    → mask_bytes n bs ≡ bs
    → k ≡ bytes_for n
    → copy (replicate (length bs) 0) (take k bs) ≡ bs
copy_masked [] n k hb hm hk = refl
copy_masked (x ∷ xs) n zero (hx, hb) hm hk =
    let (e, es) = cons_eq hm in
    let x0 : 0 ≡ x = ground arith in
    let ih = copy_masked xs (n - 8) zero hb es (ground arith) in
    ap₂ ◌∷◌ x0 (sym (copy-nil (length xs)) ∙ ih)
copy_masked (x ∷ xs) n (suc k) (hx, hb) hm hk =
    let (e, es) = cons_eq hm in ap (λ t. x ∷ t) (copy_masked xs (n - 8) k hb es (ground arith))

clear_tail_masked :
    (bs : List ℕ) (n i k : ℕ)
    → mask_bytes n bs ≡ bs
    → n % 8 ≢ 0
    → i ≡ n / 8
    → k ≡ 8 - n % 8
    → set bs i (get_or bs i 0 / 2 ^ k * 2 ^ k) ≡ bs
clear_tail_masked [] n i k hm nz hi hk = refl
clear_tail_masked (x ∷ xs) n zero k hm nz hi hk =
    let (e, es) = cons_eq hm in
    let e' : 8 - n ≡ k = omega arith in
    let below : leb 8 n ≡ false = ground arith in rw (← e') (ap (λ t. t ∷ xs) (rw below at e))
clear_tail_masked (x ∷ xs) n (suc i) k hm nz hi hk =
    let (e, es) = cons_eq hm in
    ap (λ t. x ∷ t) (clear_tail_masked xs (n - 8) i k es (omega arith) (omega arith) (omega arith))

clear_tail-masked : (bs : List ℕ) (n : ℕ) → mask_bytes n bs ≡ bs → clear_tail n bs ≡ bs
unfolding clear_tail
clear_tail-masked bs n hm = elim (Bool-cases (n % 8 == 0)) [
  | inl e ↦ rw e
  | inr e ↦ rw e (clear_tail_masked bs n (n / 8) (8 - n % 8) hm (ground arith) refl refl)
]

-- The buffer that `address` fills from a prefix's bytes holds the prefix's address.
filled :
    (bs : List ℕ) (n len : ℕ)
    → length bs ≡ len
    → All IsByte bs
    → mask_bytes n bs ≡ bs
    → clear_tail n (copy_at 0 (copy (replicate len 0) []) (take (bytes_for n) bs)) ≡ bs
filled bs n len hl hb hm = rw (← hl) (
    rw (copy-nil (length bs), copy_masked bs n (bytes_for n) hb hm refl)
      (clear_tail-masked bs n hm))

assemble_v4 :
    (n : ℕ) (bs : List ℕ)
    → length bs ≡ 4
    → All IsByte bs
    → mask_bytes n bs ≡ bs
    → assemble 1 n 0 [] (take (bytes_for n) bs) ≡ v4 bs
unfolding assemble
assemble_v4 n bs hl hb hm = rw (assemble, filled bs n 4 hl hb hm) (rw hl)

assemble_v6 :
    (n : ℕ) (bs : List ℕ)
    → length bs ≡ 16
    → All IsByte bs
    → mask_bytes n bs ≡ bs
    → assemble 2 n 0 [] (take (bytes_for n) bs) ≡ v6 bs
unfolding assemble
assemble_v6 n bs hl hb hm = rw (assemble, filled bs n 16 hl hb hm) (rw hl)

module _ (p : Parser) (n plen : ℕ) (bs rest : List ℕ) (hb : All IsByte bs)
    (hm : mask_bytes n bs ≡ bs) where
  -- What is written of an IPv4 prefix of `n` bits is read back; `plen` is the pattern for `n`.
  pub plain_address_v4 :
      length bs ≡ 4
      → n ≤ 32
      → real_length 1 plen ≡ n
      → plain_address p 1 0 plen (take (bytes_for n) bs ++ rest) ≡ ok (v4 bs, rest)
  unfolding plain_address default_bytes
  plain_address_v4 hl hn hp =
      let w = take (bytes_for n) bs in
      let len : length w ≡ bytes_for n = ground (arith, length-take (bytes_for n) bs) in
      let len' : bytes_for n ≤ length (w ++ rest) = omega (arith, length-append w rest) in
      let bl : buffer_length n 0 ≡ bytes_for n = ground arith in
      rw hp (
        rw bl (
          ground (
            arith,
            take-length w rest (bytes_for n) (sym len),
            drop-length w rest (bytes_for n) (sym len),
            assemble_v4 n bs hl hb hm,
          )))

  -- The same of an IPv6 prefix.
  pub plain_address_v6 :
      length bs ≡ 16
      → n ≤ 128
      → real_length 2 plen ≡ n
      → plain_address p 2 0 plen (take (bytes_for n) bs ++ rest) ≡ ok (v6 bs, rest)
  unfolding plain_address default_bytes
  plain_address_v6 hl hn hp =
      let w = take (bytes_for n) bs in
      let len : length w ≡ bytes_for n = ground (arith, length-take (bytes_for n) bs) in
      let len' : bytes_for n ≤ length (w ++ rest) = omega (arith, length-append w rest) in
      let bl : buffer_length n 0 ≡ bytes_for n = ground arith in
      rw hp (
        rw bl (
          ground (
            arith,
            take-length w rest (bytes_for n) (sym len),
            drop-length w rest (bytes_for n) (sym len),
            assemble_v6 n bs hl hb hm,
          )))

mask_all : (bs : List ℕ) (n : ℕ) → 8 * length bs ≤ n → mask_bytes n bs ≡ bs
mask_all [] n h = refl
mask_all (x ∷ xs) n h = ground (arith, mask_all xs (n - 8))

take-take : (bs : List ℕ) (m n : ℕ) → m ≤ n → take m (take n bs) ≡ take m bs
take-take bs zero n h = refl
take-take [] (suc m) zero h = absurd (omega arith)
take-take [] (suc m) (suc n) h = refl
take-take (x ∷ bs) (suc m) zero h = absurd (omega arith)
take-take (x ∷ bs) (suc m) (suc n) h = ap (λ t. x ∷ t) (take-take bs m n (omega arith))

-- What a receiver makes of an address: every unspecified one is `::`, a link-local one loses what
-- stands between fe80::/16 and its last eight bytes, and of an IPv4-mapped one the first four bytes
-- are sent, all zeros, in place of the last four.
abbrev pub on_wire_addr : Addr → Addr
on_wire_addr a =
    if is_unspecified a
    then ipv6_unspecified
    else if is4in6 a
    then v4 (replicate 4 0)
    else if is6 a && is_link_local_unicast a
    then v6 (0xfe ∷ 0x80 ∷ replicate 6 0 ++ take 8 (drop 8 (as_slice a)))
    else a

-- The bytes of an address in a TLV.
pub record AddressCode (a : Addr) : Type 0 where
  pub bytes : List ℕ
  pub ae : ℕ
  pub writes : (b : List ℕ) → append_address b a 0xff ≡ ok (b ++ bytes, ae)
  pub reads :
      (p : Parser) (rest : List ℕ) → address p ae 0 0xff (bytes ++ rest) ≡ ok (on_wire_addr a, rest)
  pub small : length bytes ≤ 16
  pub family : (ae == 1 || ae == 4) ≡ is4 (on_wire_addr a)
  pub ae_byte : ae < 256
  pub counted : encoded_address_length a ≡ ok (length bytes)

-- Eight bytes are read as the end of a link-local address.
read_link_local :
    (w rest : List ℕ)
    → length w ≡ 8
    → link_local_address 0 (w ++ rest) ≡ ok (v6 (0xfe ∷ 0x80 ∷ replicate 6 0 ++ take 8 w), rest)
unfolding link_local_address
read_link_local w rest h =
    ground (arith, take-length w rest 8, drop-length w rest 8, length-append w rest, take-all w 8)

-- Every valid address has a code.
pub address_code : (a : Addr) → IsAddr a → is_valid a ≡ true → AddressCode a
unfolding append_address address encoded_address_length
address_code zero_addr h v = absurd (ground arith)
address_code (v4 bs) (hl, hb) v = elim (Bool-cases (is_unspecified (v4 bs))) [
  | inl u ↦ record {
    bytes = [];
    ae = 0;
    writes = λ b. rw (u, append-nil);
    reads = λ p rest. rw u;
    small = omega arith;
    ae_byte = omega arith;
    counted = rw u;
    family = rw u;
  }
  | inr u ↦
      let all4 = take-all bs 4 (omega arith) in
      record {
        bytes = bs;
        ae = 1;
        writes = λ b. rw (u, hl, all4);
        reads = λ p rest. rw u (
            rw all4 at (
              plain_address_v4 p 32 0xff bs rest hb (mask_all bs 32 (omega arith)) hl (omega arith)
                refl));
        small = omega arith;
        ae_byte = omega arith;
        counted = rw (u, hl);
        family = rw u;
      }
]
address_code (v6 bs) (hl, hb) v = elim (Bool-cases (is_unspecified (v6 bs))) [
  | inl u ↦ record {
    bytes = [];
    ae = 0;
    writes = λ b. rw (u, append-nil);
    reads = λ p rest. rw u;
    small = omega arith;
    ae_byte = omega arith;
    counted = rw u;
    family = rw u;
  }
  | inr u ↦ elim (Bool-cases (is4in6 (v6 bs))) [
    | inl m ↦
        let mapped : take 12 bs ≡ mapped_prefix = bytes_eq→eq _ _ m in
        let zeros : take 4 bs ≡ replicate 4 0 = sym (take-take bs 4 12 (omega arith)) ∙ rw mapped in
        record {
          bytes = replicate 4 0;
          ae = 1;
          writes = λ b. rw (u, m, hl, zeros);
          reads = λ p rest.
              rw (u, m)
                (plain_address_v4 p 32 0xff (replicate 4 0) rest (omega arith) refl refl
                  (omega arith) refl);
          small = omega arith;
          ae_byte = omega arith;
          counted = rw (u, m);
          family = rw (u, m);
        }
    | inr m ↦ elim (Bool-cases (is_fe80 bs)) [
      | inl l ↦
          let len8 : length (drop 8 bs) ≡ 8 = omega (arith, length-drop 8 bs) in
          record {
            bytes = drop 8 bs;
            ae = 3;
            writes = λ b. rw (u, m, l);
            reads = λ p rest. rw (u, m, l) (read_link_local (drop 8 bs) rest len8);
            small = omega arith;
            ae_byte = omega arith;
            counted = rw (u, m, l, len8);
            family = rw (u, m, l);
          }
      | inr l ↦
          let all16 = take-all bs 16 (omega arith) in
          record {
            bytes = bs;
            ae = 2;
            writes = λ b. rw (u, m, l) (rw (hl, all16));
            reads = λ p rest.
                rw (u, m, l)
                  (rw all16 at (
                    plain_address_v6 p 128 0xff bs rest hb (mask_all bs 128 (omega arith)) hl
                      (omega arith) refl));
            small = omega arith;
            ae_byte = omega arith;
            counted = rw (u, m, l, hl);
            family = rw (u, m, l);
          }
    ]
  ]
]
