-- ===== src/Core/Records/Ends.antt =====
-- validateRecordSet of internal/core/batch.go never reads through a nil pointer: `Validate` comes first.
use th.Base.{
  ℕ, ◌≡◌, ◌≢◌, refl, Bool, true, false, ◌==◌, List, [], ◌∷◌, Option, none, some, if◌then◌else◌,
}
use th.Base.Int.{ℤ, eq_ℤ}
use th.Base.Text.{Text, text_eq, is_empty}
use th.Base.Maps.{lookup}
use th.Model.Types.{
  Kind, gre, vxlan, wireguard, amneziawg, xfrm_static, xfrm_ikev2, srv6, other_kind, Spec, Tunnel,
  XfrmStaticSpec, XfrmIkev2Spec, Srv6Spec,
}
use th.Model.Check.{Check, ok, err, panic}
use th.Model.Library.{Library}
use th.Model.Validate.Wireguard.{is_some}
use th.Model.Validate.{spec_matches, validate}
use th.Model.Runs.Checks.{Runs}
use th.Model.Runs.{validate-Runs, validate-kind}
use th.Model.Ownership.{RouteClaim}
use th.Core.Outcome.{
  Outcome, Rejection, accept, reject, crash, ◌>>=◌, after_check, too_many_records, invalid_record,
}
use th.Core.Records.{
  Owners, no_owners, claim_eq, nat_eq, claim_found, claim, check_found, check_owner,
  claim_priorities, claim_interface, claim_number, kind_claims, claim_tables, claim_routes,
  count_claims, after_tables, after_priorities, after_req_ids, after_if_ids, after_kind,
  after_interfaces, after_names, after_ids, claim_record, records_loop, validate_record_set,
}

data Ends {ℓ} {A : Type ℓ} : Outcome A → Type ℓ where
  ends_accept : (a : A) → Ends (accept a)
  ends_reject : (e : Rejection) → Ends (reject e)

bind_Ends {ℓ κ} :
    {A : Type ℓ} {B : Type κ} {m : Outcome A} {f : A → Outcome B}
    → Ends m
    → ((a : A) → Ends (f a))
    → Ends (m >>= f)
bind_Ends (ends_accept a) h = h a
bind_Ends (ends_reject e) h = ends_reject e

if-Ends {ℓ} :
    {A : Type ℓ} (c : Bool) {a b : Outcome A} → Ends a → Ends b → Ends (if c then a else b)
if-Ends true p q = p
if-Ends false p q = q

claim-Ends :
    {K : Type 0} (eq : K → K → Bool) (e : Rejection) (k : K) (v : Text) (m : List (K × Text))
    → Ends (claim eq e k v m)
unfolding claim claim_found
claim-Ends eq e k v m = found (lookup eq k m)
  where
    found : (o : Option Text) → Ends (claim_found eq e k v m o)
    found none = ends_accept _
    found (some w) = ends_reject e

check_found-Ends : (e : Rejection) (v : Text) (o : Option Text) → Ends (check_found e v o)
unfolding check_found
check_found-Ends e v none = ends_accept tt
check_found-Ends e v (some w) = if-Ends (text_eq w v) (ends_accept tt) (ends_reject e)

check_owner-Ends :
    {K : Type 0} (eq : K → K → Bool) (e : Rejection) (k : K) (v : Text) (m : List (K × Text))
    → Ends (check_owner eq e k v m)
unfolding check_owner
check_owner-Ends eq e k v m = check_found-Ends e v (lookup eq k m)

claim_priorities-Ends :
    (name : Text) (priorities : List ℤ) (m : List (ℤ × Text))
    → Ends (claim_priorities name priorities m)
unfolding claim_priorities
claim_priorities-Ends name [] m = ends_accept m
claim_priorities-Ends name (p ∷ priorities) m =
    bind_Ends (claim-Ends eq_ℤ _ p name m) (claim_priorities-Ends name priorities)

claim_interface-Ends : (t : Tunnel) (m : List (Text × Text)) → Ends (claim_interface t m)
unfolding claim_interface
claim_interface-Ends t m =
    if-Ends (is_empty t.interface) (ends_accept m) (claim-Ends text_eq _ t.interface t.name m)

claim_number-Ends :
    (e : Rejection) (n : ℕ) (name : Text) (m : List (ℕ × Text)) → Ends (claim_number e n name m)
unfolding claim_number
claim_number-Ends e n name m = if-Ends (n == 0) (ends_accept m) (claim-Ends nat_eq e n name m)

-- The pointer that the kind reads is set.
abbrev is_set : Kind → Option XfrmStaticSpec → Option XfrmIkev2Spec → Option Srv6Spec → Bool
is_set xfrm_static s i v = is_some s
is_set xfrm_ikev2 s i v = is_some i
is_set srv6 s i v = is_some v
is_set _ s i v = true

kind_claims-Ends :
    (name : Text) (k : Kind) (s : Option XfrmStaticSpec) (i : Option XfrmIkev2Spec)
    (v : Option Srv6Spec) (m : List (ℤ × Text))
    → is_set k s i v ≡ true
    → Ends (kind_claims name k s i v m)
unfolding kind_claims
kind_claims-Ends name gre s i v m h = ends_accept _
kind_claims-Ends name vxlan s i v m h = ends_accept _
kind_claims-Ends name wireguard s i v m h = ends_accept _
kind_claims-Ends name amneziawg s i v m h = ends_accept _
kind_claims-Ends name xfrm_static none i v m h = cc
kind_claims-Ends name xfrm_static (some s) i v m h = ends_accept _
kind_claims-Ends name xfrm_ikev2 s none v m h = cc
kind_claims-Ends name xfrm_ikev2 s (some i) v m h = ends_accept _
kind_claims-Ends name srv6 s i none m h = cc
kind_claims-Ends name srv6 s i (some v) m h =
    bind_Ends (claim-Ends eq_ℤ _ v.table name m) (λ m'. ends_accept _)
kind_claims-Ends name (other_kind k) s i v m h = ends_accept _

spec_matches-is_set :
    (k : Kind) (s : Spec)
    → spec_matches k s ≡ true
    → is_set k s.xfrm_static_spec s.xfrm_ikev2_spec s.srv6_spec ≡ true
spec_matches-is_set gre s h = refl
spec_matches-is_set vxlan s h = refl
spec_matches-is_set wireguard s h = refl
spec_matches-is_set amneziawg s h = refl
spec_matches-is_set xfrm_static s h = h
spec_matches-is_set xfrm_ikev2 s h = h
spec_matches-is_set srv6 s h = h
spec_matches-is_set (other_kind k) s h = refl

claim_tables-Ends : (name : Text) (tables : List ℤ) (o : Owners) → Ends (claim_tables name tables o)
unfolding claim_tables
claim_tables-Ends name [] o = ends_accept o
claim_tables-Ends name (t ∷ tables) o =
    bind_Ends (check_owner-Ends eq_ℤ _ t name o.used_route_tables)
      (λ u. claim_tables-Ends name tables _)

claim_routes-Ends :
    (name : Text) (claims : List RouteClaim) (o : Owners) → Ends (claim_routes name claims o)
unfolding claim_routes
claim_routes-Ends name [] o = ends_accept o
claim_routes-Ends name (c ∷ claims) o =
    bind_Ends (check_owner-Ends eq_ℤ _ c.table name o.exclusive_route_tables) (λ u.
      bind_Ends (check_owner-Ends claim_eq _ c name o.route_claims)
        (λ v. claim_routes-Ends name claims _))

count_claims-Ends : (claims : List RouteClaim) (o : Owners) → Ends (count_claims claims o)
unfolding count_claims
count_claims-Ends claims o = if-Ends _ (ends_reject _) (ends_accept _)

claim_record-Ends :
    (lib : Library) (t : Tunnel) (o : Owners)
    → spec_matches t.kind t.spec ≡ true
    → Ends (claim_record lib t o)
unfolding claim_record after_ids after_names after_interfaces after_kind after_if_ids after_req_ids
    after_priorities after_tables
claim_record-Ends lib t o h = bind_Ends (claim-Ends text_eq _ t.id t.name o.ids) (λ ids.
    bind_Ends (claim-Ends text_eq _ t.name t.id o.names) (λ names.
      bind_Ends (claim_interface-Ends t o.interfaces) (λ interfaces.
        bind_Ends
          (kind_claims-Ends t.name t.kind t.spec.xfrm_static_spec t.spec.xfrm_ikev2_spec
            t.spec.srv6_spec o.srv6_tables (spec_matches-is_set t.kind t.spec h))
          (λ numbers. bind_Ends (claim_number-Ends _ numbers.0 t.name o.xfrm_if_ids) (λ if_ids.
            bind_Ends (claim_number-Ends _ numbers.1 t.name o.xfrm_req_ids) (λ req_ids.
              bind_Ends (claim_priorities-Ends t.name _ o.rule_priorities) (λ priorities.
                bind_Ends (claim_tables-Ends t.name _ _)
                  (λ p. bind_Ends (count_claims-Ends _ p) (claim_routes-Ends t.name _)))))))))

after_check-Ends :
    (c : Check) (m : Outcome Owners) → Runs c → (c ≡ ok → Ends m) → Ends (after_check c m)
after_check-Ends ok m r h = h refl
after_check-Ends (err e) m r h = ends_reject (invalid_record e)
after_check-Ends panic m r h = elim r [ ]

records_loop-Ends :
    (lib : Library) (records : List Tunnel) (o : Owners) → Ends (records_loop lib records o)
unfolding records_loop
records_loop-Ends lib [] o = ends_accept o
records_loop-Ends lib (t ∷ records) o =
    bind_Ends
      (after_check-Ends (validate lib t) (claim_record lib t o) (validate-Runs lib t)
        (λ e. claim_record-Ends lib t o (validate-kind lib t e).0))
      (records_loop-Ends lib records)

Ends-ne-crash {ℓ} : {A : Type ℓ} {m : Outcome A} → Ends m → m ≢ crash
Ends-ne-crash (ends_accept a) e = cc
Ends-ne-crash (ends_reject r) e = cc

-- The check of a set of records never reads through a nil pointer, whatever the records hold.
pub validate_record_set-ne-crash :
    (lib : Library) (records : List Tunnel) → validate_record_set lib records ≢ crash
unfolding validate_record_set
validate_record_set-ne-crash lib records =
    Ends-ne-crash
      (if-Ends _ (ends_reject too_many_records) (records_loop-Ends lib records no_owners))
