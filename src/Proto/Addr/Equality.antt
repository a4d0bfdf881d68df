-- ===== src/Proto/Addr/Equality.antt =====
-- The equality of Go's addresses and prefixes decides equality.
use th.Base.{◌≡◌, refl, ap, Bool, true, false, ◌&&◌, ◌==◌, bytes_eq→eq, bytes_eq_refl, arith}
use th.Proto.Addr.{Addr, zero_addr, v4, v6, addr_eq, Prefix, prefix_eq}

pub addr_eq_sound : (a b : Addr) → addr_eq a b ≡ true → a ≡ b
addr_eq_sound zero_addr zero_addr h = refl
addr_eq_sound zero_addr (v4 b) h = absurd (ground (arith, h))
addr_eq_sound zero_addr (v6 b) h = absurd (ground (arith, h))
addr_eq_sound (v4 a) zero_addr h = absurd (ground (arith, h))
addr_eq_sound (v4 a) (v4 b) h = ap v4 (bytes_eq→eq a b h)
addr_eq_sound (v4 a) (v6 b) h = absurd (ground (arith, h))
addr_eq_sound (v6 a) zero_addr h = absurd (ground (arith, h))
addr_eq_sound (v6 a) (v4 b) h = absurd (ground (arith, h))
addr_eq_sound (v6 a) (v6 b) h = ap v6 (bytes_eq→eq a b h)

pub addr_eq_refl : (a : Addr) → addr_eq a a ≡ true
addr_eq_refl zero_addr = refl
addr_eq_refl (v4 a) = bytes_eq_refl a
addr_eq_refl (v6 a) = bytes_eq_refl a

pub and_parts : (a b : Bool) → (a && b) ≡ true → (a ≡ true) × (b ≡ true)
and_parts true true h = (refl, refl)
and_parts true false h = absurd (ground (arith, h))
and_parts false b h = absurd (ground (arith, h))

pub and_true : {a b : Bool} → a ≡ true → b ≡ true → (a && b) ≡ true
and_true p q = ground (arith, p, q)

pub prefix_eq_sound : (p q : Prefix) → prefix_eq p q ≡ true → p ≡ q
prefix_eq_sound p q h =
    let (r, s) = and_parts (addr_eq p.addr q.addr) (p.bits_plus_one == q.bits_plus_one) h in
    let a = addr_eq_sound p.addr q.addr r in
    let n : p.bits_plus_one ≡ q.bits_plus_one = ground (arith, s) in
    λ i. record { addr = a i; bits_plus_one = n i }

pub prefix_eq_refl : (p : Prefix) → prefix_eq p p ≡ true
prefix_eq_refl p = and_true (addr_eq_refl p.addr) (ground arith)
