-- ===== src/Core/Records/Round.antt =====
-- What one round of validateRecordSet in internal/core/batch.go claims for a record.
use th.Base.{
  ℕ, ◌≡◌, sym, ap, ◌∙◌, inl, inr, ◌+◌, ltb, List, [], ◌∷◌, some, length, Bool-cases, bytes_eq→eq,
  bytes_eq_refl,
}
use mathlib.Core.Path.{subst}
use th.Base.Int.{ℤ, eq_ℤ}
use th.Base.Text.{Text, text_eq}
use th.Base.Maps.{lookup}
use th.Model.Types.{Tunnel}
use th.Model.Library.{Library}
use th.Model.Ownership.{
  RouteClaim, managed_rule_priorities, exclusive_route_tables, managed_route_claims,
}
use th.Core.Outcome.{
  accept, >>=-accept, shared_id, shared_name, shared_if_id, shared_req_id, too_many_claims,
}
use th.Core.Records.{
  Owners, nat_eq, claim_eq, claim, claim_record, after_ids, after_names, after_interfaces,
  after_kind, after_if_ids, after_req_ids, after_priorities, after_tables, claim_interface,
  claim_number, claim_priorities, kind_claims, claim_tables, claim_routes, count_claims,
  max_managed_route_claims,
}
use th.Core.Records.Claims.{
  accept-injective, reject-accept, In, Extends, Claims, IsFree, claim-Claims,
}
use th.Core.Records.Keys.{interface_keys, number_keys, if_ids, req_ids}
use th.Core.Records.Steps.{
  claim_interface-Claims, claim_number-Claims, claim_priorities-Claims, kind_claims-Claims,
}
use th.Core.Records.Routes.{
  ExclusiveUsed, UsedBy, TablesClaimed, claim_tables-TablesClaimed, RoutesClaimed, IsFree-before,
  claim_routes-RoutesClaimed,
}

-- Its part on routes.
pub record RouteRound (lib : Library) (t : Tunnel) (o o' : Owners) : Type 0 where
  pub table_free :
      (table : ℤ)
      → In table (exclusive_route_tables t)
      → IsFree eq_ℤ table t.name o.used_route_tables
  pub table_owned :
      (table : ℤ)
      → In table (exclusive_route_tables t)
      → lookup eq_ℤ table o'.exclusive_route_tables ≡ some t.name
  pub exclusive_extends : Extends eq_ℤ o.exclusive_route_tables o'.exclusive_route_tables
  pub used_extends : Extends eq_ℤ o.used_route_tables o'.used_route_tables
  pub exclusive_used : ExclusiveUsed o'
  pub used_by : UsedBy t.name o o'
  pub claim_table_free :
      (c : RouteClaim)
      → In c (managed_route_claims lib t)
      → IsFree eq_ℤ c.table t.name o.exclusive_route_tables
  pub claim_free :
      (c : RouteClaim) → In c (managed_route_claims lib t) → IsFree claim_eq c t.name o.route_claims
  pub claim_owned :
      (c : RouteClaim)
      → In c (managed_route_claims lib t)
      → lookup claim_eq c o'.route_claims ≡ some t.name
  pub claim_table_used :
      (c : RouteClaim)
      → In c (managed_route_claims lib t)
      → (w : Text) × (lookup eq_ℤ c.table o'.used_route_tables ≡ some w)
  pub claims_extend : Extends claim_eq o.route_claims o'.route_claims

pub record Round (lib : Library) (t : Tunnel) (o o' : Owners) : Type 0 where
  pub ids : Claims text_eq (t.id ∷ []) t.name o.ids o'.ids
  pub names : Claims text_eq (t.name ∷ []) t.id o.names o'.names
  pub interfaces : Claims text_eq (interface_keys t.interface) t.name o.interfaces o'.interfaces
  pub if_ids : Claims nat_eq (if_ids t) t.name o.xfrm_if_ids o'.xfrm_if_ids
  pub req_ids : Claims nat_eq (req_ids t) t.name o.xfrm_req_ids o'.xfrm_req_ids
  pub tables : Claims eq_ℤ (exclusive_route_tables t) t.name o.srv6_tables o'.srv6_tables
  pub priorities :
      Claims eq_ℤ (managed_rule_priorities lib t) t.name o.rule_priorities o'.rule_priorities
  pub routes : RouteRound lib t o o'

count_claims-same :
    (claims : List RouteClaim) (o o' : Owners)
    → count_claims claims o ≡ accept o'
    → o' ≡ record o { total_route_claims = o.total_route_claims + length claims }
unfolding count_claims
count_claims-same claims o o' h =
    elim (Bool-cases (ltb max_managed_route_claims (o.total_route_claims + length claims))) [
      | inl e ↦ absurd (reject-accept too_many_claims o' (rw e at h))
      | inr e ↦ sym (accept-injective _ o' (rw e at h))
    ]

module _ (lib : Library) (t : Tunnel) (o p q : Owners)
    (a : TablesClaimed t.name (exclusive_route_tables t) o p)
    (b : RoutesClaimed t.name
      (managed_route_claims lib t)
      (record p { total_route_claims = p.total_route_claims + length (managed_route_claims lib t) })
      q) where
  same_exclusive : p.exclusive_route_tables ≡ q.exclusive_route_tables
  same_exclusive = ap (λ (x : Owners). x.exclusive_route_tables) (sym b.same)

  same_claims : o.route_claims ≡ p.route_claims
  same_claims = ap (λ (x : Owners). x.route_claims) (sym a.same)

  routes-RouteRound : RouteRound lib t o q
  routes-RouteRound = record {
    table_free = a.free;
    table_owned = λ k i.
        subst (λ (m : List (ℤ × Text)). lookup eq_ℤ k m ≡ some t.name) same_exclusive (a.owned k i);
    exclusive_extends =
        subst (Extends eq_ℤ o.exclusive_route_tables) same_exclusive a.exclusive_extends;
    used_extends = λ k v e. b.used_extends k v (a.used_extends k v e);
    exclusive_used = λ k w e. b.used_extends k w (
        a.exclusive_used k w
          (subst (λ (m : List (ℤ × Text)). lookup eq_ℤ k m ≡ some w) (sym same_exclusive) e));
    used_by = λ k w e. elim (b.used_by k w e) [ inl r ↦ inl r | inr r ↦ a.used_by k w r ];
    claim_table_free = λ c i.
        IsFree-before eq_ℤ c.table t.name o.exclusive_route_tables p.exclusive_route_tables
          a.exclusive_extends (b.table_free c i);
    claim_free = λ c i. subst (IsFree claim_eq c t.name) (sym same_claims) (b.free c i);
    claim_owned = b.owned;
    claim_table_used = b.used;
    claims_extend =
        subst (λ (m : List (RouteClaim × Text)). Extends claim_eq m q.route_claims)
          (sym same_claims) b.claims_extend;
  }

module _ (lib : Library) (t : Tunnel) (o o' : Owners) (ids names interfaces : List (Text × Text))
    (numbers : ℕ × ℕ × List (ℤ × Text)) (if_ids' req_ids' : List (ℕ × Text))
    (priorities : List (ℤ × Text)) (p q : Owners) (x : ExclusiveUsed o)
    (h0 : claim text_eq shared_id t.id t.name o.ids ≡ accept ids)
    (h1 : claim text_eq shared_name t.name t.id o.names ≡ accept names)
    (h2 : claim_interface t o.interfaces ≡ accept interfaces)
    (h3 : kind_claims t.name t.kind t.spec.xfrm_static_spec t.spec.xfrm_ikev2_spec t.spec.srv6_spec
        o.srv6_tables
      ≡ accept numbers)
    (h4 : claim_number shared_if_id numbers.0 t.name o.xfrm_if_ids ≡ accept if_ids')
    (h5 : claim_number shared_req_id numbers.1 t.name o.xfrm_req_ids ≡ accept req_ids')
    (h6 : claim_priorities t.name (managed_rule_priorities lib t) o.rule_priorities
      ≡ accept priorities) where
  abbrev written : Owners
  written = record o {
    ids = ids;
    names = names;
    interfaces = interfaces;
    srv6_tables = numbers.2;
    xfrm_if_ids = if_ids';
    xfrm_req_ids = req_ids';
    rule_priorities = priorities;
  }

  module _ (h7 : claim_tables t.name (exclusive_route_tables t) written ≡ accept p)
      (h8 : count_claims (managed_route_claims lib t) p ≡ accept q)
      (h9 : claim_routes t.name (managed_route_claims lib t) q ≡ accept o') where
    Round-steps : Round lib t o o'
    unfolding exclusive_route_tables
    Round-steps =
        let c = count_claims-same (managed_route_claims lib t) p q h8 in
        let a = claim_tables-TablesClaimed t.name (exclusive_route_tables t) written p x h7 in
        let b =
          subst (λ (y : Owners). RoutesClaimed t.name (managed_route_claims lib t) y o') c
            (claim_routes-RoutesClaimed t.name (managed_route_claims lib t) q o' h9) in
        let total = p.total_route_claims + length (managed_route_claims lib t) in
        let same : o' ≡ record written {
          exclusive_route_tables = p.exclusive_route_tables;
          used_route_tables = o'.used_route_tables;
          route_claims = o'.route_claims;
          total_route_claims = total;
        } =
          b.same ∙ (λ i. record (a.same i) {
            exclusive_route_tables = p.exclusive_route_tables;
            used_route_tables = o'.used_route_tables;
            route_claims = o'.route_claims;
            total_route_claims = total;
          }) in
        let r = routes-RouteRound lib t written p o' a b in
        let (numbers_if, numbers_req, numbers_tables) =
          kind_claims-Claims t.name o.srv6_tables numbers t.kind t.spec.xfrm_static_spec
            t.spec.xfrm_ikev2_spec t.spec.srv6_spec h3 in
        let if_claims =
          claim_number-Claims shared_if_id numbers.0 t.name o.xfrm_if_ids if_ids' h4 in
        let req_claims =
          claim_number-Claims shared_req_id numbers.1 t.name o.xfrm_req_ids req_ids' h5 in
        record {
          ids =
              subst (Claims text_eq (t.id ∷ []) t.name o.ids)
                (ap (λ (y : Owners). y.ids) (sym same))
                (claim-Claims text_eq bytes_eq→eq bytes_eq_refl shared_id t.id t.name o.ids h0);
          names =
              subst (Claims text_eq (t.name ∷ []) t.id o.names)
                (ap (λ (y : Owners). y.names) (sym same))
                (claim-Claims text_eq bytes_eq→eq bytes_eq_refl shared_name t.name t.id o.names h1);
          interfaces =
              subst (Claims text_eq (interface_keys t.interface) t.name o.interfaces)
                (ap (λ (y : Owners). y.interfaces) (sym same))
                (claim_interface-Claims t o.interfaces interfaces h2);
          if_ids =
              subst (Claims nat_eq (if_ids t) t.name o.xfrm_if_ids)
                (ap (λ (y : Owners). y.xfrm_if_ids) (sym same))
                (subst (λ (n : ℕ). Claims nat_eq (number_keys n) t.name o.xfrm_if_ids if_ids')
                  numbers_if if_claims);
          req_ids =
              subst (Claims nat_eq (req_ids t) t.name o.xfrm_req_ids)
                (ap (λ (y : Owners). y.xfrm_req_ids) (sym same))
                (subst (λ (n : ℕ). Claims nat_eq (number_keys n) t.name o.xfrm_req_ids req_ids')
                  numbers_req req_claims);
          tables =
              subst (Claims eq_ℤ (exclusive_route_tables t) t.name o.srv6_tables)
                (ap (λ (y : Owners). y.srv6_tables) (sym same)) numbers_tables;
          priorities =
              subst (Claims eq_ℤ (managed_rule_priorities lib t) t.name o.rule_priorities)
                (ap (λ (y : Owners). y.rule_priorities) (sym same))
                (claim_priorities-Claims t.name (managed_rule_priorities lib t) o.rule_priorities
                  priorities h6);
          routes = record {
            table_free = r.table_free;
            table_owned = r.table_owned;
            exclusive_extends = r.exclusive_extends;
            used_extends = r.used_extends;
            exclusive_used = r.exclusive_used;
            used_by = r.used_by;
            claim_table_free = r.claim_table_free;
            claim_free = r.claim_free;
            claim_owned = r.claim_owned;
            claim_table_used = r.claim_table_used;
            claims_extend = r.claims_extend;
          };
        }

pub claim_record-Round :
    (lib : Library) (t : Tunnel) (o o' : Owners)
    → ExclusiveUsed o
    → claim_record lib t o ≡ accept o'
    → Round lib t o o'
unfolding claim_record after_ids after_names after_interfaces after_kind after_if_ids after_req_ids
    after_priorities after_tables exclusive_route_tables
claim_record-Round lib t o o' x h =
    let (ids, h0, k0) =
      >>=-accept (claim text_eq shared_id t.id t.name o.ids) (after_ids lib t o) h in
    let o1 = record o { ids = ids } in
    let (names, h1, k1) =
      >>=-accept (claim text_eq shared_name t.name t.id o.names) (after_names lib t o1) k0 in
    let o2 = record o1 { names = names } in
    let (interfaces, h2, k2) =
      >>=-accept (claim_interface t o.interfaces) (after_interfaces lib t o2) k1 in
    let o3 = record o2 { interfaces = interfaces } in
    let (numbers, h3, k3) =
      >>=-accept
        (kind_claims t.name t.kind t.spec.xfrm_static_spec t.spec.xfrm_ikev2_spec t.spec.srv6_spec
          o.srv6_tables)
        (after_kind lib t o3) k2 in
    let o4 = record o3 { srv6_tables = numbers.2 } in
    let (if_ids', h4, k4) =
      >>=-accept (claim_number shared_if_id numbers.0 t.name o.xfrm_if_ids)
        (after_if_ids lib t numbers.1 o4) k3 in
    let o5 = record o4 { xfrm_if_ids = if_ids' } in
    let (req_ids', h5, k5) =
      >>=-accept (claim_number shared_req_id numbers.1 t.name o.xfrm_req_ids)
        (after_req_ids lib t o5) k4 in
    let o6 = record o5 { xfrm_req_ids = req_ids' } in
    let (priorities, h6, k6) =
      >>=-accept (claim_priorities t.name (managed_rule_priorities lib t) o.rule_priorities)
        (after_priorities lib t o6) k5 in
    let o7 = record o6 { rule_priorities = priorities } in
    let (o8, h7, k7) =
      >>=-accept (claim_tables t.name (exclusive_route_tables t) o7) (after_tables lib t) k6 in
    let (o9, h8, k8) =
      >>=-accept (count_claims (managed_route_claims lib t) o8)
        (claim_routes t.name (managed_route_claims lib t)) k7 in
    Round-steps lib t o o' ids names interfaces numbers if_ids' req_ids' priorities o8 o9 x h0 h1 h2
      h3 h4 h5 h6 h7 h8 k8
