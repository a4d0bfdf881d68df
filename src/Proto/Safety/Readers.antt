-- ===== src/Proto/Safety/Readers.antt =====
-- Each TLV is decoded without a panic.
use th.Base.{ℕ, List, Option, none, ◌==◌, if◌then◌else◌, arith}
use th.Proto.Addr.{Addr, Prefix}
use th.Proto.Value.{TimestampIhu, Update, Value}
use th.Proto.Reader.{Reader, ◌>>=◌, uint8, uint16}
use th.Proto.Interval.{interval}
use th.Proto.Decode.Fields.{Parser, router_id, address, prefix}
use th.Proto.Decode.Sub.{hello_sub, update_sub, request_sub}
use th.Proto.Decode.Values.{
  sub_values, ihu_sub_values, read_acknowledgment_request, read_acknowledgment, read_hello,
  read_ihu, read_router_id_value, read_next_hop, read_update, read_route_request,
  read_seqno_request,
}
use th.Proto.Safety.Address.{Ensures, bind-Ensures, Fits, IsParser, address-Ensures, prefix-Ensures}
use th.Proto.Safety.Values.{
  uint8-Ensures, uint16-Ensures, interval-Ensures, router_id-Ensures, hello_sub-Safe,
  update_sub-Safe, request_sub-Safe, sub_values-Ensures, ihu_sub_values-Ensures,
}

-- A number, then the rest.
module _ {B : Type 0} (Q : B → Type 0) (f : ℕ → Reader B) (b : List ℕ)
    (next : (a : ℕ) (c : List ℕ) → Ensures Q (f a c)) where
  after_uint8 : Ensures Q ((uint8 >>= f) b)
  after_uint8 = bind-Ensures (λ (n : ℕ). Unit) Q uint8 f b (uint8-Ensures b) (λ a c h. next a c)

  after_uint16 : Ensures Q ((uint16 >>= f) b)
  after_uint16 = bind-Ensures (λ (n : ℕ). Unit) Q uint16 f b (uint16-Ensures b) (λ a c h. next a c)

  after_interval : Ensures Q ((interval >>= f) b)
  after_interval =
      bind-Ensures (λ (n : ℕ). Unit) Q interval f b (interval-Ensures b) (λ a c h. next a c)

abbrev IsAny : Value → Type 0
IsAny v = Unit

pub read_acknowledgment_request-Ensures :
    (b : List ℕ) → Ensures (λ (v : Value). Unit) (read_acknowledgment_request b)
unfolding read_acknowledgment_request
read_acknowledgment_request-Ensures b =
    after_uint16 IsAny _ b
      (λ x c. after_uint16 IsAny _ c (λ y d. after_interval IsAny _ d (λ z e. tt)))

pub read_acknowledgment-Ensures :
    (b : List ℕ) → Ensures (λ (v : Value). Unit) (read_acknowledgment b)
unfolding read_acknowledgment
read_acknowledgment-Ensures b = after_uint16 IsAny _ b (λ x c. tt)

pub read_hello-Ensures : (b : List ℕ) → Ensures (λ (v : Value). Unit) (read_hello b)
unfolding read_hello
read_hello-Ensures b = after_uint16 IsAny _ b (λ x c. after_uint16 IsAny _ c (λ y d.
    after_interval IsAny _ d (λ z e.
      bind-Ensures (λ (o : Option ℕ). Unit) IsAny (sub_values hello_sub none) _ e
        (sub_values-Ensures (λ (o : Option ℕ). Unit) hello_sub none e
          (λ s t g h. hello_sub-Safe s t g) tt)
        (λ a g h. tt))))

pub read_ihu-Ensures :
    (p : Parser) (b : List ℕ) → IsParser p → Ensures (λ (v : Value). Unit) (read_ihu p b)
unfolding read_ihu
read_ihu-Ensures p b h = after_uint8 IsAny _ b (λ ae c. after_uint8 IsAny _ c (λ y d.
    after_uint16 IsAny _ d (λ z e. after_interval IsAny _ e (λ i f.
      bind-Ensures (λ (a : Addr). Fits ae a) IsAny (address p ae 0 0xff) _ f
        (address-Ensures p ae 0 0xff f h)
        (λ a g k.
          bind-Ensures (λ (o : Option TimestampIhu). Unit) IsAny ihu_sub_values _ g
            (ihu_sub_values-Ensures g) (λ o l m. tt))))))

pub read_router_id_value-Ensures :
    (b : List ℕ) → Ensures (λ (r : List ℕ). Unit) (read_router_id_value b)
unfolding read_router_id_value
read_router_id_value-Ensures b =
    after_uint16 (λ (r : List ℕ). Unit) _ b (λ x c. router_id-Ensures c)

pub read_next_hop-Ensures :
    (p : Parser) (b : List ℕ) → IsParser p → Ensures (λ (r : ℕ × Addr). Unit) (read_next_hop p b)
unfolding read_next_hop
read_next_hop-Ensures p b h =
    let some_hop = λ (r : ℕ × Addr). Unit {0} in
    after_uint8 some_hop _ b (λ ae c. after_uint8 some_hop _ c (λ y d.
      bind-Ensures (λ (a : Addr). Fits ae a) some_hop (address p ae 0 0xff) _ d
        (address-Ensures p ae 0 0xff d h) (λ a g k. tt)))

-- An update's prefix is long enough to become the default prefix of its encoding.
abbrev pub HasFit : ℕ × Update → Type 0
HasFit r = Fits r.0 r.1.prefix.addr

as_read : (ae : ℕ) (a : Addr) → Fits (if ae == 4 then 1 else ae) a → Fits ae a
as_read ae a h = ground (arith, h)

pub read_update-Ensures : (p : Parser) (b : List ℕ) → IsParser p → Ensures HasFit (read_update p b)
unfolding read_update
read_update-Ensures p b h = after_uint8 HasFit _ b (λ ae c. after_uint8 HasFit _ c (λ flags d.
    after_uint8 HasFit _ d (λ plen e. after_uint8 HasFit _ e (λ omitted f.
      after_interval HasFit _ f (λ i g. after_uint16 HasFit _ g (λ seqno k.
        after_uint16 HasFit _ k (λ metric l.
          let read = if ae == 4 then 1 else ae in
          bind-Ensures (λ (x : Prefix). Fits read x.addr) HasFit (prefix p read plen omitted) _ l
            (prefix-Ensures p read plen omitted l h)
            (λ x m fits.
              let P = λ (y : Prefix). Fits ae y.addr in
              bind-Ensures (λ (v : Update). P v.prefix) HasFit (sub_values (update_sub p ae) _) _ m
                (sub_values-Ensures (λ (v : Update). P v.prefix) (update_sub p ae) _ m
                  (λ v t n q. update_sub-Safe p h P ae v t n q) (as_read ae x.addr fits))
                (λ v n q. q)))))))))

pub read_route_request-Ensures :
    (p : Parser) (b : List ℕ) → IsParser p → Ensures (λ (v : Value). Unit) (read_route_request p b)
unfolding read_route_request
read_route_request-Ensures p b h =
    let is_any = λ (o : Option Prefix). Unit {0} in
    after_uint8 IsAny _ b (λ ae c. after_uint8 IsAny _ c (λ plen d.
      bind-Ensures (λ (x : Prefix). Fits ae x.addr) IsAny (prefix p ae plen 0) _ d
        (prefix-Ensures p ae plen 0 d h)
        (λ x e k.
          bind-Ensures is_any IsAny (sub_values (request_sub p ae) none) _ e
            (sub_values-Ensures is_any (request_sub p ae) none e
              (λ s t f l. request_sub-Safe p h ae s t f) tt)
            (λ s f l. tt))))

pub read_seqno_request-Ensures :
    (p : Parser) (b : List ℕ) → IsParser p → Ensures (λ (v : Value). Unit) (read_seqno_request p b)
unfolding read_seqno_request
read_seqno_request-Ensures p b h =
    let is_any = λ (o : Option Prefix). Unit {0} in
    after_uint8 IsAny _ b (λ ae c. after_uint8 IsAny _ c (λ plen d.
      after_uint16 IsAny _ d (λ seqno e. after_uint8 IsAny _ e (λ hops f.
        after_uint8 IsAny _ f (λ reserved g.
          bind-Ensures (λ (r : List ℕ). Unit) IsAny router_id _ g (router_id-Ensures g)
            (λ rid k l.
              bind-Ensures (λ (x : Prefix). Fits ae x.addr) IsAny (prefix p ae plen 0) _ k
                (prefix-Ensures p ae plen 0 k h)
                (λ x m n.
                  bind-Ensures is_any IsAny (sub_values (request_sub p ae) none) _ m
                    (sub_values-Ensures is_any (request_sub p ae) none m
                      (λ s t q r. request_sub-Safe p h ae s t q) tt)
                    (λ s q r. tt))))))))
