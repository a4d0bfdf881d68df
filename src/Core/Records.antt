-- ===== src/Core/Records.antt =====
-- The checks on a set of tunnel records: validateRecordSet of internal/core/batch.go. The maps of the
-- function are the fields of `Owners`; the names in its errors are left out.
pub mod Claims
pub mod Keys
pub mod Steps
pub mod Routes
pub mod Round
pub mod Separate
pub mod Ends
use th.Base.{
  ℕ, ◌+◌, Bool, true, false, ◌&&◌, not, ltb, ◌==◌, List, [], ◌∷◌, Option, none, some, length,
  if◌then◌else◌,
}
use th.Base.Int.{ℤ, eq_ℤ}
use th.Base.Text.{Text, text_eq, is_empty}
use th.Base.Maps.{lookup, insert}
use th.Proto.Addr.{prefix_eq}
use th.Model.Types.{
  Kind, gre, vxlan, wireguard, amneziawg, xfrm_static, xfrm_ikev2, srv6, other_kind, XfrmStaticSpec,
  XfrmIkev2Spec, Srv6Spec, Tunnel,
}
use th.Model.Library.{Library}
use th.Model.Validate.Common.{max_tunnel_records}
use th.Model.Validate.{validate}
use th.Model.Ownership.{
  RouteClaim, managed_rule_priorities, exclusive_route_tables, managed_route_claims,
}
use th.Core.Outcome.{
  Rejection, Outcome, accept, reject, crash, ◌>>=◌, after_check, too_many_records, too_many_claims,
  shared_id, shared_name, shared_interface, shared_srv6_table, shared_if_id, shared_req_id,
  shared_priority, colliding_routes,
}

abbrev pub max_managed_route_claims : ℕ
max_managed_route_claims = 262144

-- `routeClaimKey` has the fields of a claim.
abbrev pub claim_eq : RouteClaim → RouteClaim → Bool
claim_eq a b = eq_ℤ a.table b.table && prefix_eq a.prefix b.prefix

abbrev pub nat_eq : ℕ → ℕ → Bool
nat_eq a b = a == b

pub record Owners : Type 0 where
  pub ids : List (Text × Text)
  pub names : List (Text × Text)
  pub interfaces : List (Text × Text)
  pub xfrm_if_ids : List (ℕ × Text)
  pub xfrm_req_ids : List (ℕ × Text)
  pub srv6_tables : List (ℤ × Text)
  pub rule_priorities : List (ℤ × Text)
  pub route_claims : List (RouteClaim × Text)
  pub exclusive_route_tables : List (ℤ × Text)
  pub used_route_tables : List (ℤ × Text)
  pub total_route_claims : ℕ

abbrev pub no_owners : Owners
no_owners = record {
  ids = [];
  names = [];
  interfaces = [];
  xfrm_if_ids = [];
  xfrm_req_ids = [];
  srv6_tables = [];
  rule_priorities = [];
  route_claims = [];
  exclusive_route_tables = [];
  used_route_tables = [];
  total_route_claims = 0;
}

unfoldable pub check_found : Rejection → Text → Option Text → Outcome (Unit {0})
check_found e v none = accept tt
check_found e v (some owner) = if text_eq owner v then accept tt else reject e

module _ {ℓ} {K : Type ℓ} (eq : K → K → Bool) where
  -- `if owner, ok := m[k]; ok { return e }; m[k] = v`, on what `m[k]` gives.
  unfoldable pub claim_found :
      Rejection → K → Text → List (K × Text) → Option Text → Outcome (List (K × Text))
  claim_found e k v m none = accept (insert eq k v m)
  claim_found e k v m (some owner) = reject e

  unfoldable pub claim : Rejection → K → Text → List (K × Text) → Outcome (List (K × Text))
  claim e k v m = claim_found e k v m (lookup eq k m)

  -- `if owner, ok := m[k]; ok && owner != v { return e }`
  unfoldable pub check_owner : Rejection → K → Text → List (K × Text) → Outcome (Unit {0})
  check_owner e k v m = check_found e v (lookup eq k m)

  -- `if _, ok := m[k]; !ok { m[k] = v }`
  unfoldable pub insert_found : K → Text → List (K × Text) → Option Text → List (K × Text)
  insert_found k v m none = insert eq k v m
  insert_found k v m (some owner) = m

  unfoldable pub insert_new : K → Text → List (K × Text) → List (K × Text)
  insert_new k v m = insert_found k v m (lookup eq k m)

unfoldable pub claim_priorities : Text → List ℤ → List (ℤ × Text) → Outcome (List (ℤ × Text))
claim_priorities name [] m = accept m
claim_priorities name (p ∷ priorities) m =
    claim eq_ℤ shared_priority p name m >>= claim_priorities name priorities

unfoldable pub claim_interface : Tunnel → List (Text × Text) → Outcome (List (Text × Text))
claim_interface t m =
    if is_empty t.interface then accept m else claim text_eq shared_interface t.interface t.name m

-- `if ifID != 0 { … }`
unfoldable pub claim_number : Rejection → ℕ → Text → List (ℕ × Text) → Outcome (List (ℕ × Text))
claim_number e n name m = if n == 0 then accept m else claim nat_eq e n name m

-- The `switch` on the kind, with the pointers it may read: `ifID`, `reqID` and the SRv6 tables.
unfoldable pub kind_claims :
    Text
    → Kind
    → Option XfrmStaticSpec
    → Option XfrmIkev2Spec
    → Option Srv6Spec
    → List (ℤ × Text)
    → Outcome (ℕ × ℕ × List (ℤ × Text))
kind_claims name xfrm_static none i v m = crash
kind_claims name xfrm_static (some s) i v m = accept (s.if_id, s.req_id, m)
kind_claims name xfrm_ikev2 s none v m = crash
kind_claims name xfrm_ikev2 s (some i) v m = accept (i.if_id, i.req_id, m)
kind_claims name srv6 s i none m = crash
kind_claims name srv6 s i (some v) m =
    claim eq_ℤ shared_srv6_table v.table name m >>= λ m'. accept (0, 0, m')
kind_claims name _ s i v m = accept (0, 0, m)

unfoldable pub claim_tables : Text → List ℤ → Owners → Outcome Owners
claim_tables name [] o = accept o
claim_tables name (table ∷ tables) o =
    check_owner eq_ℤ colliding_routes table name o.used_route_tables >>= λ _.
    claim_tables name tables (record o {
      exclusive_route_tables = insert eq_ℤ table name o.exclusive_route_tables;
      used_route_tables = insert eq_ℤ table name o.used_route_tables;
    })

unfoldable pub claim_routes : Text → List RouteClaim → Owners → Outcome Owners
claim_routes name [] o = accept o
claim_routes name (c ∷ claims) o =
    check_owner eq_ℤ colliding_routes c.table name o.exclusive_route_tables >>= λ _.
    check_owner claim_eq colliding_routes c name o.route_claims >>= λ _.
    claim_routes name claims (record o {
      route_claims = insert claim_eq c name o.route_claims;
      used_route_tables = insert_new eq_ℤ c.table name o.used_route_tables;
    })

unfoldable pub count_claims : List RouteClaim → Owners → Outcome Owners
count_claims claims o =
    let total = o.total_route_claims + length claims in
    if ltb max_managed_route_claims total
    then reject too_many_claims
    else accept (record o { total_route_claims = total })

module _ (lib : Library) where
  -- One round of the loop, after `Validate`: each function goes on when the map before it is written.
  unfoldable pub after_tables : Tunnel → Owners → Outcome Owners
  after_tables t o =
      count_claims (managed_route_claims lib t) o
      >>= claim_routes t.name (managed_route_claims lib t)

  unfoldable pub after_priorities : Tunnel → Owners → List (ℤ × Text) → Outcome Owners
  after_priorities t o priorities =
      claim_tables t.name (exclusive_route_tables t) (record o { rule_priorities = priorities })
      >>= after_tables t

  unfoldable pub after_req_ids : Tunnel → Owners → List (ℕ × Text) → Outcome Owners
  after_req_ids t o req_ids =
      claim_priorities t.name (managed_rule_priorities lib t) o.rule_priorities
      >>= after_priorities t (record o { xfrm_req_ids = req_ids })

  unfoldable pub after_if_ids : Tunnel → ℕ → Owners → List (ℕ × Text) → Outcome Owners
  after_if_ids t req_id o if_ids =
      claim_number shared_req_id req_id t.name o.xfrm_req_ids
      >>= after_req_ids t (record o { xfrm_if_ids = if_ids })

  unfoldable pub after_kind : Tunnel → Owners → ℕ × ℕ × List (ℤ × Text) → Outcome Owners
  after_kind t o (if_id, req_id, tables) =
      claim_number shared_if_id if_id t.name o.xfrm_if_ids
      >>= after_if_ids t req_id (record o { srv6_tables = tables })

  unfoldable pub after_interfaces : Tunnel → Owners → List (Text × Text) → Outcome Owners
  after_interfaces t o interfaces =
      kind_claims t.name t.kind t.spec.xfrm_static_spec t.spec.xfrm_ikev2_spec t.spec.srv6_spec
        o.srv6_tables
      >>= after_kind t (record o { interfaces = interfaces })

  unfoldable pub after_names : Tunnel → Owners → List (Text × Text) → Outcome Owners
  after_names t o names =
      claim_interface t o.interfaces >>= after_interfaces t (record o { names = names })

  unfoldable pub after_ids : Tunnel → Owners → List (Text × Text) → Outcome Owners
  after_ids t o ids =
      claim text_eq shared_name t.name t.id o.names >>= after_names t (record o { ids = ids })

  unfoldable pub claim_record : Tunnel → Owners → Outcome Owners
  claim_record t o = claim text_eq shared_id t.id t.name o.ids >>= after_ids t o

  unfoldable pub records_loop : List Tunnel → Owners → Outcome Owners
  records_loop [] o = accept o
  records_loop (t ∷ records) o =
      after_check (validate lib t) (claim_record t o) >>= records_loop records

  unfoldable pub validate_record_set : List Tunnel → Outcome Owners
  validate_record_set records =
      if ltb max_tunnel_records (length records)
      then reject too_many_records
      else records_loop records no_owners
