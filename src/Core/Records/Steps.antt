-- ===== src/Core/Records/Steps.antt =====
-- What each part of a round of validateRecordSet in internal/core/batch.go claims.
use mathlib.Core.Path.{subst}
use th.Base.{
  ℕ, ◌≡◌, sym, ap, inl, inr, Bool, ◌==◌, List, [], ◌∷◌, Option, none, some, Bool-cases, bytes_eq→eq,
  bytes_eq_refl,
}
use th.Base.Int.{ℤ, eq_ℤ}
use th.Base.Text.{Text, text_eq, is_empty}
use th.Model.Types.{
  Kind, gre, vxlan, wireguard, amneziawg, xfrm_static, xfrm_ikev2, srv6, other_kind, XfrmStaticSpec,
  XfrmIkev2Spec, Srv6Spec, Tunnel,
}
use th.Model.Ownership.{exclusive_tables_of}
use th.Core.Outcome.{
  Rejection, accept, ◌>>=◌, >>=-accept, shared_interface, shared_priority, shared_srv6_table,
}
use th.Core.Records.{nat_eq, claim, claim_priorities, claim_interface, claim_number, kind_claims}
use th.Core.Records.Claims.{accept-injective, Claims, Claims-none, Claims-cons, claim-Claims}
use th.Core.Records.Keys.{
  eq_ℤ_sound, eq_ℤ_refl, nat_eq_sound, nat_eq_refl, interface_keys, number_keys, if_id_of,
  req_id_of,
}

Claims-same :
    {K : Type 0} (eq : K → K → Bool) (v : Text) (m m' : List (K × Text))
    → accept m ≡ accept m'
    → Claims eq [] v m m'
Claims-same eq v m m' e = subst (Claims eq [] v m) (accept-injective m m' e) (Claims-none eq v m)

pub claim_interface-Claims :
    (t : Tunnel) (m m' : List (Text × Text))
    → claim_interface t m ≡ accept m'
    → Claims text_eq (interface_keys t.interface) t.name m m'
unfolding claim_interface
claim_interface-Claims t m m' h = elim (Bool-cases (is_empty t.interface)) [
  | inl e ↦ rw e (Claims-same text_eq t.name m m' (rw e at h))
  | inr e ↦ rw e (
      claim-Claims text_eq bytes_eq→eq bytes_eq_refl shared_interface t.interface t.name m
        (rw e at h))
]

pub claim_number-Claims :
    (e : Rejection) (n : ℕ) (name : Text) (m m' : List (ℕ × Text))
    → claim_number e n name m ≡ accept m'
    → Claims nat_eq (number_keys n) name m m'
unfolding claim_number
claim_number-Claims e n name m m' h = elim (Bool-cases (n == 0)) [
  | inl z ↦ rw z (Claims-same nat_eq name m m' (rw z at h))
  | inr z ↦ rw z (claim-Claims nat_eq nat_eq_sound nat_eq_refl e n name m (rw z at h))
]

pub claim_priorities-Claims :
    (name : Text) (priorities : List ℤ) (m m' : List (ℤ × Text))
    → claim_priorities name priorities m ≡ accept m'
    → Claims eq_ℤ priorities name m m'
unfolding claim_priorities
claim_priorities-Claims name [] m m' h = Claims-same eq_ℤ name m m' h
claim_priorities-Claims name (p ∷ priorities) m m' h =
    let (m1, first, rest) =
      >>=-accept (claim eq_ℤ shared_priority p name m) (claim_priorities name priorities) h in
    Claims-cons eq_ℤ p priorities name m m1 m'
      (claim-Claims eq_ℤ eq_ℤ_sound eq_ℤ_refl shared_priority p name m first)
      (claim_priorities-Claims name priorities m1 m' rest)

module _ (name : Text) (m : List (ℤ × Text)) (r : ℕ × ℕ × List (ℤ × Text)) where
  no_table :
      (a b : ℕ) → accept (a, b, m) ≡ accept r → (r.0 ≡ a) × (r.1 ≡ b) × Claims eq_ℤ [] name m r.2
  no_table a b h =
      let e = accept-injective (a, b, m) r h in
      (
        ap (λ (t : ℕ × ℕ × List (ℤ × Text)). t.0) (sym e),
        ap (λ (t : ℕ × ℕ × List (ℤ × Text)). t.1) (sym e),
        subst (Claims eq_ℤ [] name m) (ap (λ (t : ℕ × ℕ × List (ℤ × Text)). t.2) e)
            (Claims-none eq_ℤ name m),
      )

  one_table :
      (v : Srv6Spec)
      → (claim eq_ℤ shared_srv6_table v.table name m >>= λ m'. accept (0, 0, m')) ≡ accept r
      → (r.0 ≡ 0) × (r.1 ≡ 0) × Claims eq_ℤ (v.table ∷ []) name m r.2
  one_table v h =
      let (m1, first, rest) =
        >>=-accept (claim eq_ℤ shared_srv6_table v.table name m) (λ m'. accept (0, 0, m')) h in
      let e = accept-injective (0, 0, m1) r rest in
      (
        ap (λ (t : ℕ × ℕ × List (ℤ × Text)). t.0) (sym e),
        ap (λ (t : ℕ × ℕ × List (ℤ × Text)). t.1) (sym e),
        subst (Claims eq_ℤ (v.table ∷ []) name m) (ap (λ (t : ℕ × ℕ × List (ℤ × Text)). t.2) e)
            (claim-Claims eq_ℤ eq_ℤ_sound eq_ℤ_refl shared_srv6_table v.table name m first),
      )

  -- What the `switch` on the kind yields and claims.
  pub kind_claims-Claims :
      (k : Kind) (s : Option XfrmStaticSpec) (i : Option XfrmIkev2Spec) (v : Option Srv6Spec)
      → kind_claims name k s i v m ≡ accept r
      → (r.0 ≡ if_id_of k s i)
        × (r.1 ≡ req_id_of k s i)
        × Claims eq_ℤ (exclusive_tables_of k v) name m r.2
  unfolding kind_claims exclusive_tables_of
  kind_claims-Claims gre s i v h = no_table 0 0 h
  kind_claims-Claims vxlan s i v h = no_table 0 0 h
  kind_claims-Claims wireguard s i v h = no_table 0 0 h
  kind_claims-Claims amneziawg s i v h = no_table 0 0 h
  kind_claims-Claims (other_kind k) s i v h = no_table 0 0 h
  kind_claims-Claims xfrm_static none i v h = cc
  kind_claims-Claims xfrm_static (some s) i v h = no_table s.if_id s.req_id h
  kind_claims-Claims xfrm_ikev2 s none v h = cc
  kind_claims-Claims xfrm_ikev2 s (some i) v h = no_table i.if_id i.req_id h
  kind_claims-Claims srv6 s i none h = cc
  kind_claims-Claims srv6 s i (some v) h = one_table v h
