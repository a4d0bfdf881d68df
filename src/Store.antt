-- ===== src/Store.antt =====
-- The record store of internal/store/store.go. The directory of record files is a list of records, in
-- an order on which no result depends; a record file is read as what was written. What the file system
-- answers to a write is an argument. Every error of `checkNamesLocked` is ErrConflict, so the check is a Boolean.
pub mod Numbers
pub mod Separate
pub mod Lists
pub mod Invariant
pub mod Laws
pub mod Conflict
pub mod Prepared
mod Tests
use th.Base.{
  ℕ, ◌+◌, ◌%◌, ◌^◌, Bool, true, false, ◌&&◌, ◌||◌, not, ltb, leb, ◌==◌, List, [], ◌∷◌, ◌++◌, Option,
  none, some, length, if◌then◌else◌,
}
use th.Base.Int.{ℤ, eq_ℤ}
use th.Base.Text.{Text, text_eq, is_empty}
use th.Model.Types.{Tunnel, XfrmStaticSpec, XfrmIkev2Spec, Srv6Spec}
use th.Model.Check.{is_ok}
use th.Model.Library.{Library}
use th.Model.Validate.Common.{valid_id, max_tunnel_records}
use th.Model.Validate.Srv6.{has_int}
use th.Model.Validate.{validate}
use th.Model.Ownership.{
  RouteClaim, managed_rule_priorities, exclusive_route_tables, managed_route_claims,
}
use th.Core.Records.{claim_eq, max_managed_route_claims}

pub data StoreError : Type 0 where
  not_found conflict invalid file_system : StoreError

-- The end of a write or a removal: `not_done` if nothing was changed, `rolled_back` if the directory could
-- not be synced and the former file was put back, `kept` if that failed too and the new state stayed.
pub data Commit : Type 0 where
  done not_done rolled_back kept : Commit

-- `spec.IfID == other.IfID || spec.ReqID == other.ReqID`, with the specifications of the other record.
unfoldable pub collides_ids : ℕ → ℕ → Option XfrmStaticSpec → Option XfrmIkev2Spec → Bool
collides_ids if_id req_id (some s) i = if_id == s.if_id || req_id == s.req_id
collides_ids if_id req_id none (some i) = if_id == i.if_id || req_id == i.req_id
collides_ids if_id req_id none none = false

unfoldable pub collides_static : Option XfrmStaticSpec → Tunnel → Bool
collides_static none r = false
collides_static (some s) r =
    collides_ids s.if_id s.req_id r.spec.xfrm_static_spec r.spec.xfrm_ikev2_spec

unfoldable pub collides_ike : Option XfrmIkev2Spec → Tunnel → Bool
collides_ike none r = false
collides_ike (some i) r =
    collides_ids i.if_id i.req_id r.spec.xfrm_static_spec r.spec.xfrm_ikev2_spec

unfoldable pub collides_table : Option Srv6Spec → Option Srv6Spec → Bool
collides_table (some a) (some b) = eq_ℤ a.table b.table
collides_table a b = false

unfoldable pub shares_int : List ℤ → List ℤ → Bool
shares_int [] right = false
shares_int (l ∷ left) right = has_int right l || shares_int left right

abbrev pub has_claim : List RouteClaim → RouteClaim → Bool
has_claim [] c = false
has_claim (d ∷ claims) c = claim_eq d c || has_claim claims c

-- The tables of claims.
abbrev pub tables_of : List RouteClaim → List ℤ
tables_of [] = []
tables_of (c ∷ claims) = c.table ∷ tables_of claims

-- The loop over the claims of a record: `tables` are the exclusive tables of the candidate.
unfoldable pub claims_collide : List ℤ → List RouteClaim → List RouteClaim → Bool
claims_collide tables claims [] = false
claims_collide tables claims (c ∷ others) =
    has_int tables c.table || has_claim claims c || claims_collide tables claims others

-- The loops over the records whose identifier is not `except`.
unfoldable pub any_other : (Tunnel → Bool) → Text → List Tunnel → Bool
any_other p except [] = false
any_other p except (r ∷ records) = not (text_eq r.id except) && p r || any_other p except records

module _ (lib : Library) where
  unfoldable pub collides_rule_priority : Tunnel → Tunnel → Bool
  collides_rule_priority a b =
      shares_int (managed_rule_priorities lib a) (managed_rule_priorities lib b)

  -- One round of the loop of `checkNamesLocked`.
  unfoldable pub collides_record : Tunnel → Tunnel → Bool
  collides_record c r =
      text_eq r.name c.name
      || (not (is_empty c.interface) && text_eq r.interface c.interface)
      || collides_static c.spec.xfrm_static_spec r
      || collides_ike c.spec.xfrm_ikev2_spec r
      || collides_table c.spec.srv6_spec r.spec.srv6_spec
      || collides_rule_priority c r

  -- One round of the loop of `managedRouteCollision`.
  unfoldable pub collides_routes : Tunnel → Tunnel → Bool
  collides_routes c r =
      shares_int (exclusive_route_tables r)
        (tables_of (managed_route_claims lib c) ++ exclusive_route_tables c)
      || claims_collide (exclusive_route_tables c) (managed_route_claims lib c)
          (managed_route_claims lib r)

  unfoldable pub total_claims : Text → List Tunnel → ℕ
  total_claims except [] = 0
  total_claims except (r ∷ records) =
      (if text_eq r.id except then 0 else length (managed_route_claims lib r))
      + total_claims except records

  -- `checkNamesLocked(candidate, exceptID)` fails.
  unfoldable pub check_names : Tunnel → Text → List Tunnel → Bool
  check_names c except records =
      is_empty except && leb max_tunnel_records (length records)
      || any_other (collides_record c) except records
      || any_other (collides_routes c) except records
      || ltb max_managed_route_claims
          (length (managed_route_claims lib c) + total_claims except records)

-- `readLocked`
unfoldable pub find_record : Text → List Tunnel → Option Tunnel
find_record id [] = none
find_record id (r ∷ records) = if text_eq r.id id then some r else find_record id records

unfoldable pub replace_record : Tunnel → List Tunnel → List Tunnel
replace_record c [] = []
replace_record c (r ∷ records) =
    if text_eq r.id c.id then c ∷ records else r ∷ replace_record c records

unfoldable pub remove_record : Text → List Tunnel → List Tunnel
remove_record id [] = []
remove_record id (r ∷ records) = if text_eq r.id id then records else r ∷ remove_record id records

-- The records after a write or a removal, and its error.
unfoldable pub commit : Commit → List Tunnel → List Tunnel → List Tunnel × Option StoreError
commit done old new = (new, none)
commit not_done old new = (old, some file_system)
commit rolled_back old new = (old, some file_system)
commit kept old new = (new, some file_system)

unfoldable pub update_found :
    Commit → Tunnel → ℕ → Bool → List Tunnel → Option Tunnel → List Tunnel × Option StoreError
update_found io c expected collides records none = (records, some not_found)
update_found io c expected collides records (some current) =
    if not (current.generation == expected) || not (c.generation == (expected + 1) % 2 ^ 64)
    then (records, some conflict)
    else if collides
    then (records, some conflict)
    else commit io records (replace_record c records)

unfoldable pub delete_found :
    Commit → Text → ℕ → List Tunnel → Option Tunnel → List Tunnel × Option StoreError
delete_found io id expected records none = (records, some not_found)
delete_found io id expected records (some current) =
    if not (current.generation == expected)
    then (records, some conflict)
    else commit io records (remove_record id records)

abbrev pub is_none {ℓ} : {A : Type ℓ} → Option A → Bool
is_none none = true
is_none (some a) = false

module _ (lib : Library) where
  unfoldable pub create : Commit → Tunnel → List Tunnel → List Tunnel × Option StoreError
  create io c records =
      if not (is_ok (validate lib c))
      then (records, some invalid)
      else if not (is_none (find_record c.id records))
      then (records, some conflict)
      else if check_names lib c [] records
      then (records, some conflict)
      else commit io records (records ++ (c ∷ []))

  unfoldable pub update : Commit → Tunnel → ℕ → List Tunnel → List Tunnel × Option StoreError
  update io c expected records =
      if not (is_ok (validate lib c))
      then (records, some invalid)
      else update_found io c expected (check_names lib c c.id records) records
          (find_record c.id records)

unfoldable pub delete : Commit → Text → ℕ → List Tunnel → List Tunnel × Option StoreError
delete io id expected records =
    if not (valid_id id)
    then (records, some not_found)
    else delete_found io id expected records (find_record id records)
