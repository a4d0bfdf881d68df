-- ===== src/Store/Numbers.antt =====
-- The XFRM numbers that two records of internal/store/store.go claim.
use th.Base.{
  ℕ, ◌≡◌, refl, sym, ap, ◌∙◌, inl, inr, Bool, true, false, ◌||◌, ◌==◌, [], ◌∷◌, Option, none, some,
  Option-cases, if◌then◌else◌, arith,
}
use th.Model.Types.{
  Kind, gre, vxlan, wireguard, amneziawg, xfrm_static, xfrm_ikev2, srv6, other_kind, XfrmStaticSpec,
  XfrmIkev2Spec, Spec, Tunnel,
}
use th.Model.Validate.{count_set, specs_set}
use th.Core.Records.Claims.{In, none-some}
use th.Core.Records.Keys.{number_keys, if_id_of, req_id_of}
use th.Store.{collides_ids, collides_static, collides_ike}

pub keys_of_test-In :
    {K : Type 0} (b : Bool) (k n : K) → In k (if b then [] else n ∷ []) → (b ≡ false) × (n ≡ k)
keys_of_test-In true k n i = absurd i
keys_of_test-In false k n (inl e) = (refl, e)
keys_of_test-In false k n (inr i) = absurd i

number_keys-In : (k n : ℕ) → In k (number_keys n) → n ≡ k
number_keys-In k n i = (keys_of_test-In (n == 0) k n i).1

-- A record with the one IKEv2 specification has no static one.
pub one_spec :
    (s : Spec) (i : XfrmIkev2Spec)
    → count_set (specs_set s) ≡ 1
    → s.xfrm_ikev2_spec ≡ some i
    → s.xfrm_static_spec ≡ none
one_spec s i h e = elim (Option-cases s.xfrm_static_spec) [
  | inl free ↦ free
  | inr (x, f) ↦ absurd (ground (arith, (rw (e, f) at h)))
]

collides_left : (k j n m : ℕ) → n ≡ k → (k == n || j == m) ≡ true
collides_left k j n m e = ground (arith, e)

collides_right : (k j n m : ℕ) → m ≡ j → (k == n || j == m) ≡ true
collides_right k j n m e = ground (arith, e)

-- Both numbers of a record are found by a record that claims one of them too.
pub if_id_of-collides :
    (k other : ℕ) (kind : Kind) (s : Option XfrmStaticSpec) (i : Option XfrmIkev2Spec)
    → ((x : XfrmIkev2Spec) → i ≡ some x → s ≡ none)
    → In k (number_keys (if_id_of kind s i))
    → collides_ids k other s i ≡ true
unfolding collides_ids
if_id_of-collides k other xfrm_static (some s) i one h =
    collides_left k other s.if_id s.req_id (number_keys-In k s.if_id h)
if_id_of-collides k other xfrm_static none i one h = absurd h
if_id_of-collides k other xfrm_ikev2 (some s) (some i) one h =
    absurd (none-some s (sym (one i refl)))
if_id_of-collides k other xfrm_ikev2 none (some i) one h =
    collides_left k other i.if_id i.req_id (number_keys-In k i.if_id h)
if_id_of-collides k other xfrm_ikev2 s none one h = absurd h
if_id_of-collides k other gre s i one h = absurd h
if_id_of-collides k other vxlan s i one h = absurd h
if_id_of-collides k other wireguard s i one h = absurd h
if_id_of-collides k other amneziawg s i one h = absurd h
if_id_of-collides k other srv6 s i one h = absurd h
if_id_of-collides k other (other_kind n) s i one h = absurd h

pub req_id_of-collides :
    (k other : ℕ) (kind : Kind) (s : Option XfrmStaticSpec) (i : Option XfrmIkev2Spec)
    → ((x : XfrmIkev2Spec) → i ≡ some x → s ≡ none)
    → In k (number_keys (req_id_of kind s i))
    → collides_ids other k s i ≡ true
unfolding collides_ids
req_id_of-collides k other xfrm_static (some s) i one h =
    collides_right other k s.if_id s.req_id (number_keys-In k s.req_id h)
req_id_of-collides k other xfrm_static none i one h = absurd h
req_id_of-collides k other xfrm_ikev2 (some s) (some i) one h =
    absurd (none-some s (sym (one i refl)))
req_id_of-collides k other xfrm_ikev2 none (some i) one h =
    collides_right other k i.if_id i.req_id (number_keys-In k i.req_id h)
req_id_of-collides k other xfrm_ikev2 s none one h = absurd h
req_id_of-collides k other gre s i one h = absurd h
req_id_of-collides k other vxlan s i one h = absurd h
req_id_of-collides k other wireguard s i one h = absurd h
req_id_of-collides k other amneziawg s i one h = absurd h
req_id_of-collides k other srv6 s i one h = absurd h
req_id_of-collides k other (other_kind n) s i one h = absurd h

-- What a record that collides with no other one was compared with.
pub if_id_of-free :
    (k : ℕ) (kind : Kind) (s : Option XfrmStaticSpec) (i : Option XfrmIkev2Spec) (r : Tunnel)
    → collides_static s r ≡ false
    → collides_ike i r ≡ false
    → In k (number_keys (if_id_of kind s i))
    → (other : ℕ) × (collides_ids k other r.spec.xfrm_static_spec r.spec.xfrm_ikev2_spec ≡ false)
unfolding collides_static collides_ike
if_id_of-free k xfrm_static (some s) i r p q h = (
  s.req_id,
  ap (λ (n : ℕ). collides_ids n s.req_id r.spec.xfrm_static_spec r.spec.xfrm_ikev2_spec)
        (sym (number_keys-In k s.if_id h))
      ∙ p,
)
if_id_of-free k xfrm_static none i r p q h = absurd h
if_id_of-free k xfrm_ikev2 s (some i) r p q h = (
  i.req_id,
  ap (λ (n : ℕ). collides_ids n i.req_id r.spec.xfrm_static_spec r.spec.xfrm_ikev2_spec)
        (sym (number_keys-In k i.if_id h))
      ∙ q,
)
if_id_of-free k xfrm_ikev2 s none r p q h = absurd h
if_id_of-free k gre s i r p q h = absurd h
if_id_of-free k vxlan s i r p q h = absurd h
if_id_of-free k wireguard s i r p q h = absurd h
if_id_of-free k amneziawg s i r p q h = absurd h
if_id_of-free k srv6 s i r p q h = absurd h
if_id_of-free k (other_kind n) s i r p q h = absurd h

pub req_id_of-free :
    (k : ℕ) (kind : Kind) (s : Option XfrmStaticSpec) (i : Option XfrmIkev2Spec) (r : Tunnel)
    → collides_static s r ≡ false
    → collides_ike i r ≡ false
    → In k (number_keys (req_id_of kind s i))
    → (other : ℕ) × (collides_ids other k r.spec.xfrm_static_spec r.spec.xfrm_ikev2_spec ≡ false)
unfolding collides_static collides_ike
req_id_of-free k xfrm_static (some s) i r p q h = (
  s.if_id,
  ap (λ (n : ℕ). collides_ids s.if_id n r.spec.xfrm_static_spec r.spec.xfrm_ikev2_spec)
        (sym (number_keys-In k s.req_id h))
      ∙ p,
)
req_id_of-free k xfrm_static none i r p q h = absurd h
req_id_of-free k xfrm_ikev2 s (some i) r p q h = (
  i.if_id,
  ap (λ (n : ℕ). collides_ids i.if_id n r.spec.xfrm_static_spec r.spec.xfrm_ikev2_spec)
        (sym (number_keys-In k i.req_id h))
      ∙ q,
)
req_id_of-free k xfrm_ikev2 s none r p q h = absurd h
req_id_of-free k gre s i r p q h = absurd h
req_id_of-free k vxlan s i r p q h = absurd h
req_id_of-free k wireguard s i r p q h = absurd h
req_id_of-free k amneziawg s i r p q h = absurd h
req_id_of-free k srv6 s i r p q h = absurd h
req_id_of-free k (other_kind n) s i r p q h = absurd h
