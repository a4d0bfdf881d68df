-- ===== src/Store/Separate.antt =====
-- What `checkNamesLocked` of internal/store/store.go tells of two records.
use th.Base.{
  or_parts, true-false, ◌≡◌, ◌≢◌, ◌⊎◌, sym, ap, ◌∙◌, inl, inr, true, false, ◌||◌, List, [], ◌∷◌,
  ◌++◌, none, some, bytes_eq_refl, arith,
}
use th.Base.Int.{ℤ, eq_ℤ}
use th.Base.Text.{Text, text_eq, is_empty}
use th.Model.Types.{XfrmIkev2Spec, Tunnel}
use th.Model.Check.{ok}
use th.Model.Library.{Library}
use th.Model.Validate.Srv6.{has_int}
use th.Model.Validate.{validate}
use th.Model.Runs.{validate-kind}
use th.Model.Ownership.{
  RouteClaim, managed_rule_priorities, exclusive_route_tables, managed_route_claims,
}
use th.Core.Records.{claim_eq}
use th.Core.Records.Claims.{In}
use th.Core.Records.Keys.{eq_ℤ_refl, claim_eq_refl}
use th.Core.Records.Separate.{Disjoint, Separate}
use th.Store.{
  shares_int, has_claim, tables_of, claims_collide, collides_rule_priority, collides_record,
  collides_routes,
}
use th.Store.Numbers.{
  keys_of_test-In, one_spec, if_id_of-collides, req_id_of-collides, if_id_of-free, req_id_of-free,
}

has_int-In : (z : ℤ) (zs : List ℤ) → In z zs → has_int zs z ≡ true
has_int-In z [] i = absurd i
has_int-In z (y ∷ zs) (inl e) =
    let same : eq_ℤ y z ≡ true = ap (λ (x : ℤ). eq_ℤ x z) e ∙ eq_ℤ_refl z in ground (arith, same)
has_int-In z (y ∷ zs) (inr i) = let h = has_int-In z zs i in ground (arith, h)

has_claim-In : (c : RouteClaim) (claims : List RouteClaim) → In c claims → has_claim claims c ≡ true
has_claim-In c [] i = absurd i
has_claim-In c (d ∷ claims) (inl e) =
    let same : claim_eq d c ≡ true = ap (λ (x : RouteClaim). claim_eq x c) e ∙ claim_eq_refl c in
    ground (arith, same)
has_claim-In c (d ∷ claims) (inr i) = let h = has_claim-In c claims i in ground (arith, h)

In-tables_of :
    (c : RouteClaim) (claims : List RouteClaim) → In c claims → In c.table (tables_of claims)
In-tables_of c [] i = absurd i
In-tables_of c (d ∷ claims) (inl e) = inl (ap (λ (x : RouteClaim). x.table) e)
In-tables_of c (d ∷ claims) (inr i) = inr (In-tables_of c claims i)

In-append : {K : Type 0} (k : K) (xs ys : List K) → In k xs ⊎ In k ys → In k (xs ++ ys)
In-append k [] ys (inl i) = absurd i
In-append k [] ys (inr i) = i
In-append k (x ∷ xs) ys (inl (inl e)) = inl e
In-append k (x ∷ xs) ys (inl (inr i)) = inr (In-append k xs ys (inl i))
In-append k (x ∷ xs) ys (inr i) = inr (In-append k xs ys (inr i))

shares_int-Disjoint : (left right : List ℤ) → shares_int left right ≡ false → Disjoint left right
unfolding shares_int
shares_int-Disjoint [] right h k i j = i
shares_int-Disjoint (l ∷ left) right h k (inl e) j =
    let (p, _) = or_parts (has_int right l) (shares_int left right) h in
    true-false (has_int-In k right j) (ap (has_int right) (sym e) ∙ p)
shares_int-Disjoint (l ∷ left) right h k (inr i) j =
    shares_int-Disjoint left right (or_parts (has_int right l) (shares_int left right) h).1 k i j

claims_collide-free :
    (tables : List ℤ) (claims others : List RouteClaim)
    → claims_collide tables claims others ≡ false
    → (c : RouteClaim) → In c others
    → (In c.table tables → ⊥) × (In c claims → ⊥)
unfolding claims_collide
claims_collide-free tables claims [] h c i = absurd i
claims_collide-free tables claims (d ∷ others) h c i =
    let (p, rest) =
      or_parts (has_int tables d.table || has_claim claims d) (claims_collide tables claims others)
        h in
    let (q, r) = or_parts (has_int tables d.table) (has_claim claims d) p in
    elim i [
      | inl e ↦ (
        (λ j.
            true-false (has_int-In c.table tables j)
              (ap (λ (x : RouteClaim). has_int tables x.table) (sym e) ∙ q)),
        (λ j. true-false (has_claim-In c claims j) (ap (has_claim claims) (sym e) ∙ r)),
      )
      | inr j ↦ claims_collide-free tables claims others rest c j
    ]

module _ (lib : Library) (r c : Tunnel) (valid : validate lib r ≡ ok) where
  one : (x : XfrmIkev2Spec) → r.spec.xfrm_ikev2_spec ≡ some x → r.spec.xfrm_static_spec ≡ none
  one x = one_spec r.spec x (validate-kind lib r valid).1

  -- What the two loops of the store compare makes two records separate.
  pub collides-Separate :
      r.id ≢ c.id
      → collides_record lib c r ≡ false
      → collides_routes lib c r ≡ false
      → Separate lib r c
  unfolding collides_record collides_routes collides_rule_priority
  collides-Separate ids h g =
      let (h4, priority) = or_parts _ _ h in
      let (h3, table) = or_parts _ _ h4 in
      let (h2, ike) = or_parts _ _ h3 in
      let (h1, static) = or_parts _ _ h2 in
      let (name, interface) = or_parts _ _ h1 in
      let (used, claims) = or_parts _ _ g in
      let apart =
        shares_int-Disjoint (exclusive_route_tables r)
          (tables_of (managed_route_claims lib c) ++ exclusive_route_tables c) used in
      let free =
        claims_collide-free (exclusive_route_tables c) (managed_route_claims lib c)
          (managed_route_claims lib r) claims in
      record {
        ids = ids;
        names = λ e. true-false (ap (λ (n : Text). text_eq n c.name) e ∙ bytes_eq_refl c.name) name;
        interfaces = λ k i j.
            let (_, e) = keys_of_test-In (is_empty r.interface) k r.interface i in
            let (given, f) = keys_of_test-In (is_empty c.interface) k c.interface j in
            let same : text_eq r.interface c.interface ≡ true =
              ap (λ (n : Text). text_eq n c.interface) (e ∙ sym f) ∙ bytes_eq_refl c.interface in
            true-false same (ground (arith, given, interface));
        if_ids = λ k i j.
            let (other, n) =
              if_id_of-free k c.kind c.spec.xfrm_static_spec c.spec.xfrm_ikev2_spec r static ike
                j in
            true-false
              (if_id_of-collides k other r.kind r.spec.xfrm_static_spec r.spec.xfrm_ikev2_spec one
                i)
              n;
        req_ids = λ k i j.
            let (other, n) =
              req_id_of-free k c.kind c.spec.xfrm_static_spec c.spec.xfrm_ikev2_spec r static ike
                j in
            true-false
              (req_id_of-collides k other r.kind r.spec.xfrm_static_spec r.spec.xfrm_ikev2_spec one
                i)
              n;
        tables = λ k i j. apart k i (
            In-append k (tables_of (managed_route_claims lib c)) (exclusive_route_tables c)
              (inr j));
        priorities = λ k i j.
            shares_int-Disjoint (managed_rule_priorities lib c) (managed_rule_priorities lib r)
              priority k j i;
        routes = λ d i j. (free d i).1 j;
        routes_of_second = λ d j i. apart d.table i (
            In-append d.table (tables_of (managed_route_claims lib c)) (exclusive_route_tables c)
              (inl (In-tables_of d (managed_route_claims lib c) j)));
        routes_of_first = λ d i j. (free d i).0 j;
      }
