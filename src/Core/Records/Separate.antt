-- ===== src/Core/Records/Separate.antt =====
-- What validateRecordSet of internal/core/batch.go promises of the records that it accepts.
use th.Base.{
  All-map, ℕ, ◌≤◌, ◌≡◌, ◌≢◌, refl, sym, ap, ◌∙◌, inl, inr, Bool, ltb, List, [], ◌∷◌, none, some,
  All, length, Bool-cases, arith,
}
use th.Base.Int.{ℤ, eq_ℤ}
use th.Base.Text.{Text, text_eq}
use th.Base.Maps.{lookup}
use th.Model.Types.{Tunnel}
use th.Model.Check.{ok}
use th.Model.Library.{Library}
use th.Model.Validate.{validate}
use th.Model.Ownership.{
  RouteClaim, managed_rule_priorities, exclusive_route_tables, managed_route_claims,
}
use th.Core.Outcome.{accept, >>=-accept, after_check, after_check-accept, too_many_records}
use th.Core.Records.{
  Owners, no_owners, nat_eq, claim_eq, claim_record, records_loop, validate_record_set,
}
use th.Core.Records.Claims.{In, IsFree, some-injective, none-some, reject-accept}
use th.Core.Records.Keys.{interface_keys, if_ids, req_ids}
use th.Core.Records.Routes.{ExclusiveUsed}
use th.Core.Records.Round.{Round, claim_record-Round}

abbrev pub Disjoint : {K : Type 0} → List K → List K → Type 0
Disjoint {K} xs ys = (k : K) → In k xs → In k ys → ⊥

-- Two records share no identifier, no name, no interface, no XFRM number, no rule priority, no SRv6
-- table and no route, and none of them has a route in an SRv6 table of the other.
pub record Separate (lib : Library) (s t : Tunnel) : Type 0 where
  pub ids : s.id ≢ t.id
  pub names : s.name ≢ t.name
  pub interfaces : Disjoint (interface_keys s.interface) (interface_keys t.interface)
  pub if_ids : Disjoint (if_ids s) (if_ids t)
  pub req_ids : Disjoint (req_ids s) (req_ids t)
  pub tables : Disjoint (exclusive_route_tables s) (exclusive_route_tables t)
  pub priorities : Disjoint (managed_rule_priorities lib s) (managed_rule_priorities lib t)
  pub routes : Disjoint (managed_route_claims lib s) (managed_route_claims lib t)
  pub routes_of_second :
      (c : RouteClaim)
      → In c (managed_route_claims lib t)
      → In c.table (exclusive_route_tables s)
      → ⊥
  pub routes_of_first :
      (c : RouteClaim)
      → In c (managed_route_claims lib s)
      → In c.table (exclusive_route_tables t)
      → ⊥

abbrev pub Pairwise {ℓ κ} : {A : Type ℓ} → (A → A → Type κ) → List A → Type κ
Pairwise R [] = Unit
Pairwise R (x ∷ xs) = All (R x) xs × Pairwise R xs

-- The maps have what the record claims.
record Covered (lib : Library) (o : Owners) (s : Tunnel) : Type 0 where
  id : lookup text_eq s.id o.ids ≡ some s.name
  name : lookup text_eq s.name o.names ≡ some s.id
  interfaces :
      (k : Text) → In k (interface_keys s.interface) → lookup text_eq k o.interfaces ≡ some s.name
  if_ids : (k : ℕ) → In k (if_ids s) → lookup nat_eq k o.xfrm_if_ids ≡ some s.name
  req_ids : (k : ℕ) → In k (req_ids s) → lookup nat_eq k o.xfrm_req_ids ≡ some s.name
  tables : (k : ℤ) → In k (exclusive_route_tables s) → lookup eq_ℤ k o.srv6_tables ≡ some s.name
  priorities :
      (k : ℤ) → In k (managed_rule_priorities lib s) → lookup eq_ℤ k o.rule_priorities ≡ some s.name
  exclusive :
      (k : ℤ)
      → In k (exclusive_route_tables s)
      → lookup eq_ℤ k o.exclusive_route_tables ≡ some s.name
  claims :
      (c : RouteClaim)
      → In c (managed_route_claims lib s)
      → lookup claim_eq c o.route_claims ≡ some s.name
  claim_tables :
      (c : RouteClaim)
      → In c (managed_route_claims lib s)
      → (w : Text) × (lookup eq_ℤ c.table o.used_route_tables ≡ some w)

-- Every table is used under the name of a record.
abbrev UsedNamed : Owners → Type 0
UsedNamed o =
    (table : ℤ) (w : Text)
    → lookup eq_ℤ table o.used_route_tables ≡ some w
    → (i : Text) × (lookup text_eq w o.names ≡ some i)

record IsCovering (lib : Library) (records : List Tunnel) (o : Owners) : Type 0 where
  covered : All (Covered lib o) records
  exclusive_used : ExclusiveUsed o
  used_named : UsedNamed o

free-taken :
    {K : Type 0} (eq : K → K → Bool) (k : K) (v : Text) (m : List (K × Text))
    → lookup eq k m ≡ none
    → lookup eq k m ≡ some v
    → ⊥
free-taken eq k v m p q = none-some v (sym p ∙ q)

module _ (lib : Library) (t : Tunnel) (o o' : Owners) (r : Round lib t o o') where
  new-Covered : Covered lib o' t
  new-Covered = record {
    id = r.ids.owned t.id (inl refl);
    name = r.names.owned t.name (inl refl);
    interfaces = r.interfaces.owned;
    if_ids = r.if_ids.owned;
    req_ids = r.req_ids.owned;
    tables = r.tables.owned;
    priorities = r.priorities.owned;
    exclusive = r.routes.table_owned;
    claims = r.routes.claim_owned;
    claim_tables = r.routes.claim_table_used;
  }

  old-Covered : (s : Tunnel) → Covered lib o s → Covered lib o' s
  old-Covered s c = record {
    id = r.ids.extends s.id s.name c.id;
    name = r.names.extends s.name s.id c.name;
    interfaces = λ k i. r.interfaces.extends k s.name (c.interfaces k i);
    if_ids = λ k i. r.if_ids.extends k s.name (c.if_ids k i);
    req_ids = λ k i. r.req_ids.extends k s.name (c.req_ids k i);
    tables = λ k i. r.tables.extends k s.name (c.tables k i);
    priorities = λ k i. r.priorities.extends k s.name (c.priorities k i);
    exclusive = λ k i. r.routes.exclusive_extends k s.name (c.exclusive k i);
    claims = λ k i. r.routes.claims_extend k s.name (c.claims k i);
    claim_tables = λ k i. let (w, e) = c.claim_tables k i in (w, r.routes.used_extends k.table w e);
  }

  round-UsedNamed : UsedNamed o → UsedNamed o'
  round-UsedNamed u table w e = elim (r.routes.used_by table w e) [
    | inl p ↦
        (t.id, ap (λ (n : Text). lookup text_eq n o'.names) p ∙ r.names.owned t.name (inl refl))
    | inr q ↦ let (i, f) = u table w q in (i, r.names.extends w i f)
  ]

  name-ne : (s : Tunnel) → Covered lib o s → s.name ≢ t.name
  name-ne s c e =
      free-taken text_eq t.name s.id o.names (r.names.fresh t.name (inl refl))
        (ap (λ (n : Text). lookup text_eq n o.names) (sym e) ∙ c.name)

  -- What belongs to `s` is not free for `t`.
  not-free :
      {K : Type 0} (eq : K → K → Bool) (k : K) (m : List (K × Text)) (s : Tunnel)
      → Covered lib o s
      → lookup eq k m ≡ some s.name
      → IsFree eq k t.name m
      → ⊥
  not-free eq k m s c owned free = elim free [
    | inl n ↦ free-taken eq k s.name m n owned
    | inr e ↦ name-ne s c (some-injective s.name t.name (sym owned ∙ e))
  ]

  round-Separate : UsedNamed o → (s : Tunnel) → Covered lib o s → Separate lib s t
  round-Separate u s c = record {
    ids = λ e.
        free-taken text_eq t.id s.name o.ids (r.ids.fresh t.id (inl refl))
          (ap (λ (n : Text). lookup text_eq n o.ids) (sym e) ∙ c.id);
    names = name-ne s c;
    interfaces = λ k i j.
        free-taken text_eq k s.name o.interfaces (r.interfaces.fresh k j) (c.interfaces k i);
    if_ids = λ k i j. free-taken nat_eq k s.name o.xfrm_if_ids (r.if_ids.fresh k j) (c.if_ids k i);
    req_ids =
        λ k i j. free-taken nat_eq k s.name o.xfrm_req_ids (r.req_ids.fresh k j) (c.req_ids k i);
    tables = λ k i j. free-taken eq_ℤ k s.name o.srv6_tables (r.tables.fresh k j) (c.tables k i);
    priorities = λ k i j.
        free-taken eq_ℤ k s.name o.rule_priorities (r.priorities.fresh k j) (c.priorities k i);
    routes =
        λ k i j. not-free claim_eq k o.route_claims s c (c.claims k i) (r.routes.claim_free k j);
    routes_of_second = λ d j i.
        not-free eq_ℤ d.table o.exclusive_route_tables s c (c.exclusive d.table i)
          (r.routes.claim_table_free d j);
    routes_of_first = λ d i j.
        let (w, e) = c.claim_tables d i in
        elim (r.routes.table_free d.table j) [
          | inl n ↦ free-taken eq_ℤ d.table w o.used_route_tables n e
          | inr own ↦
              let (n, f) = u d.table t.name own in
              free-taken text_eq t.name n o.names (r.names.fresh t.name (inl refl)) f
        ];
  }

-- What the loop does with the records that are left, after those of `before`.
loop-Separate :
    (lib : Library) (records before : List Tunnel) (o o' : Owners)
    → IsCovering lib before o
    → records_loop lib records o ≡ accept o'
    → Pairwise (Separate lib) records
      × All (λ t. All (λ s. Separate lib s t) before) records
      × All (λ t. validate lib t ≡ ok) records
unfolding records_loop
loop-Separate lib [] before o o' c h = (tt, tt, tt)
loop-Separate lib (t ∷ records) before o o' c h =
    let (p, first, rest) =
      >>=-accept (after_check (validate lib t) (claim_record lib t o)) (records_loop lib records)
        h in
    let (valid, claimed) = after_check-accept (validate lib t) (claim_record lib t o) first in
    let r = claim_record-Round lib t o p c.exclusive_used claimed in
    let next : IsCovering lib (t ∷ before) p = record {
      covered = (new-Covered lib t o p r, All-map (old-Covered lib t o p r) before c.covered);
      exclusive_used = r.routes.exclusive_used;
      used_named = round-UsedNamed lib t o p r c.used_named;
    } in
    let (pairs, all, oks) = loop-Separate lib records (t ∷ before) p o' next rest in
    (
      (All-map (λ u q. q.0) records all, pairs),
      (
        All-map (round-Separate lib t o p r c.used_named) before c.covered,
        All-map (λ u q. q.1) records all,
      ),
      (valid, oks),
    )

-- Records that `validateRecordSet` accepts are at most 1024, each of them passes `Validate`, and any two
-- of them are separate.
pub validate_record_set-Separate :
    (lib : Library) (records : List Tunnel) (o : Owners)
    → validate_record_set lib records ≡ accept o
    → (length records ≤ 1024)
      × All (λ t. validate lib t ≡ ok) records
      × Pairwise (Separate lib) records
unfolding validate_record_set lookup
validate_record_set-Separate lib records o h = elim (Bool-cases (ltb 1024 (length records))) [
  | inl many ↦ absurd (reject-accept too_many_records o (rw many at h))
  | inr few ↦
      let none_before : IsCovering lib [] no_owners = record {
        covered = tt;
        exclusive_used = λ k w e. absurd (none-some w e);
        used_named = λ k w e. absurd (none-some w e);
      } in
      let (pairs, all, oks) = loop-Separate lib records [] no_owners o none_before (rw few at h) in
      (ground arith, oks, pairs)
]
