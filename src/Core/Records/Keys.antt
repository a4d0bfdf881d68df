-- ===== src/Core/Records/Keys.antt =====
-- The keys under which a tunnel record claims something in internal/core/batch.go, and their equality.
use th.Base.{ℕ, ◌≡◌, true, ◌==◌, List, [], ◌∷◌, Option, some, if◌then◌else◌, arith}
use th.Base.Int.{ℤ, pos, negsuc, eq_ℤ}
use th.Base.Text.{Text, is_empty}
use th.Proto.Addr.{prefix_eq}
use th.Proto.Addr.Equality.{and_parts, and_true, prefix_eq_sound, prefix_eq_refl}
use th.Model.Types.{Kind, xfrm_static, xfrm_ikev2, XfrmStaticSpec, XfrmIkev2Spec, Tunnel}
use th.Model.Ownership.{RouteClaim}
use th.Core.Records.{claim_eq, nat_eq}

pub eq_ℤ_sound : (a b : ℤ) → eq_ℤ a b ≡ true → a ≡ b
eq_ℤ_sound (pos a) (pos b) h = ground (arith, h)
eq_ℤ_sound (pos a) (negsuc b) h = cc
eq_ℤ_sound (negsuc a) (pos b) h = cc
eq_ℤ_sound (negsuc a) (negsuc b) h = ground (arith, h)

pub eq_ℤ_refl : (a : ℤ) → eq_ℤ a a ≡ true
eq_ℤ_refl (pos a) = ground arith
eq_ℤ_refl (negsuc a) = ground arith

pub nat_eq_sound : (a b : ℕ) → nat_eq a b ≡ true → a ≡ b
nat_eq_sound a b h = ground arith

pub nat_eq_refl : (a : ℕ) → nat_eq a a ≡ true
nat_eq_refl a = ground arith

pub claim_eq_sound : (a b : RouteClaim) → claim_eq a b ≡ true → a ≡ b
claim_eq_sound a b h =
    let (p, q) = and_parts (eq_ℤ a.table b.table) (prefix_eq a.prefix b.prefix) h in
    let t = eq_ℤ_sound a.table b.table p in
    let r = prefix_eq_sound a.prefix b.prefix q in λ i. record { table = t i; prefix = r i }

pub claim_eq_refl : (a : RouteClaim) → claim_eq a a ≡ true
claim_eq_refl a = and_true (eq_ℤ_refl a.table) (prefix_eq_refl a.prefix)

abbrev pub interface_keys : Text → List Text
interface_keys interface = if is_empty interface then [] else interface ∷ []

-- The number 0 is not claimed.
abbrev pub number_keys : ℕ → List ℕ
number_keys n = if n == 0 then [] else n ∷ []

abbrev pub if_id_of : Kind → Option XfrmStaticSpec → Option XfrmIkev2Spec → ℕ
if_id_of xfrm_static (some s) i = s.if_id
if_id_of xfrm_ikev2 s (some i) = i.if_id
if_id_of _ s i = 0

abbrev pub req_id_of : Kind → Option XfrmStaticSpec → Option XfrmIkev2Spec → ℕ
req_id_of xfrm_static (some s) i = s.req_id
req_id_of xfrm_ikev2 s (some i) = i.req_id
req_id_of _ s i = 0

abbrev pub if_ids : Tunnel → List ℕ
if_ids t = number_keys (if_id_of t.kind t.spec.xfrm_static_spec t.spec.xfrm_ikev2_spec)

abbrev pub req_ids : Tunnel → List ℕ
req_ids t = number_keys (req_id_of t.kind t.spec.xfrm_static_spec t.spec.xfrm_ikev2_spec)
