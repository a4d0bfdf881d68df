-- ===== src/Core/Records/Routes.antt =====
-- The route tables and routes that a record claims in validateRecordSet of internal/core/batch.go.
use mathlib.Core.Path.{subst}
use th.Base.{
  Bool, Bool-cases, ◌≡◌, ◌⊎◌, refl, sym, ◌∙◌, inl, inr, List, [], ◌∷◌, some, Option-cases,
}
use th.Base.Int.{ℤ, eq_ℤ}
use th.Base.Text.{Text}
use th.Base.Maps.{lookup, insert, lookup-insert}
use th.Model.Ownership.{RouteClaim}
use th.Core.Outcome.{accept, ◌>>=◌, >>=-accept, colliding_routes}
use th.Core.Records.{Owners, claim_eq, check_owner, insert_new, claim_tables, claim_routes}
use th.Core.Records.Claims.{
  accept-injective, In, Extends, IsFree, check_owner-IsFree, insert-owned, insert-Extends,
  insert_new-Extends, insert_new-taken, lookup-insert_inv, insert_new-inv, none-some,
}
use th.Core.Records.Keys.{eq_ℤ_sound, eq_ℤ_refl, claim_eq_sound, claim_eq_refl}

-- An exclusive table is a used table of the same owner.
abbrev pub ExclusiveUsed : Owners → Type 0
ExclusiveUsed o =
    (table : ℤ) (w : Text)
    → lookup eq_ℤ table o.exclusive_route_tables ≡ some w
    → lookup eq_ℤ table o.used_route_tables ≡ some w

-- Every used table was used before, or is of `name`.
abbrev pub UsedBy : Text → Owners → Owners → Type 0
UsedBy name o o' =
    (table : ℤ) (w : Text)
    → lookup eq_ℤ table o'.used_route_tables ≡ some w
    → (w ≡ name) ⊎ (lookup eq_ℤ table o.used_route_tables ≡ some w)

-- What `claim_tables` does.
pub record TablesClaimed (name : Text) (tables : List ℤ) (o o' : Owners) : Type 0 where
  pub same : o' ≡ record o {
    exclusive_route_tables = o'.exclusive_route_tables;
    used_route_tables = o'.used_route_tables;
  }
  pub free : (table : ℤ) → In table tables → IsFree eq_ℤ table name o.used_route_tables
  pub owned :
      (table : ℤ) → In table tables → lookup eq_ℤ table o'.exclusive_route_tables ≡ some name
  pub exclusive_extends : Extends eq_ℤ o.exclusive_route_tables o'.exclusive_route_tables
  pub used_extends : Extends eq_ℤ o.used_route_tables o'.used_route_tables
  pub exclusive_used : ExclusiveUsed o'
  pub used_by : UsedBy name o o'

-- A key that is free for `v` after an extension was free for it before.
pub IsFree-before :
    {K : Type 0} (eq : K → K → Bool) (k : K) (v : Text) (m m' : List (K × Text))
    → Extends eq m m'
    → IsFree eq k v m'
    → IsFree eq k v m
IsFree-before eq k v m m' ext free = elim (Option-cases (lookup eq k m)) [
  | inl n ↦ inl n
  | inr (w, taken) ↦ elim free [
    | inl n ↦ absurd (none-some w (sym n ∙ ext k w taken))
    | inr owned ↦ inr (taken ∙ (sym (ext k w taken) ∙ owned))
  ]
]

-- The owners after one round of `claim_tables`.
abbrev with_table : Text → ℤ → Owners → Owners
with_table name table o = record o {
  exclusive_route_tables = insert eq_ℤ table name o.exclusive_route_tables;
  used_route_tables = insert eq_ℤ table name o.used_route_tables;
}

exclusive-IsFree :
    (name : Text) (table : ℤ) (o : Owners)
    → ExclusiveUsed o
    → IsFree eq_ℤ table name o.used_route_tables
    → IsFree eq_ℤ table name o.exclusive_route_tables
exclusive-IsFree name table o x free =
    elim (Option-cases (lookup eq_ℤ table o.exclusive_route_tables)) [
      | inl n ↦ inl n
      | inr (w, taken) ↦ elim free [
        | inl n ↦ absurd (none-some w (sym n ∙ x table w taken))
        | inr owned ↦ inr (taken ∙ sym (x table w taken) ∙ owned)
      ]
    ]

with_table-ExclusiveUsed :
    (name : Text) (table : ℤ) (o : Owners)
    → ExclusiveUsed o
    → IsFree eq_ℤ table name o.used_route_tables
    → ExclusiveUsed (with_table name table o)
with_table-ExclusiveUsed name table o x free j w e =
    let used = lookup-insert eq_ℤ eq_ℤ_sound eq_ℤ_refl j table name o.used_route_tables in
    let exclusive = lookup-insert eq_ℤ eq_ℤ_sound eq_ℤ_refl j table name o.exclusive_route_tables in
    elim (Bool-cases (eq_ℤ table j)) [
      | inl same ↦ let e' : some name ≡ some w = rw same at (sym exclusive ∙ e) in used ∙ rw same e'
      | inr other ↦
          let e' : lookup eq_ℤ j o.exclusive_route_tables ≡ some w =
            rw other at (sym exclusive ∙ e) in
          used ∙ rw other (x j w e')
    ]

pub claim_tables-TablesClaimed :
    (name : Text) (tables : List ℤ) (o o' : Owners)
    → ExclusiveUsed o
    → claim_tables name tables o ≡ accept o'
    → TablesClaimed name tables o o'
unfolding claim_tables
claim_tables-TablesClaimed name [] o o' x h =
    subst (TablesClaimed name [] o) (accept-injective o o' h) (record {
      same = refl;
      free = λ t i. absurd i;
      owned = λ t i. absurd i;
      exclusive_extends = λ k v e. e;
      used_extends = λ k v e. e;
      exclusive_used = x;
      used_by = λ t w e. inr e;
    })
claim_tables-TablesClaimed name (table ∷ tables) o o' x h =
    let o1 = with_table name table o in
    let (u, first, rest) =
      >>=-accept (check_owner eq_ℤ colliding_routes table name o.used_route_tables)
        (λ (u : Unit {0}). claim_tables name tables o1) h in
    let free = check_owner-IsFree eq_ℤ colliding_routes table name o.used_route_tables first in
    let x1 = with_table-ExclusiveUsed name table o x free in
    let r = claim_tables-TablesClaimed name tables o1 o' x1 rest in
    let used1 = insert-Extends eq_ℤ eq_ℤ_sound eq_ℤ_refl table name o.used_route_tables free in
    let excl1 =
      insert-Extends eq_ℤ eq_ℤ_sound eq_ℤ_refl table name o.exclusive_route_tables
        (exclusive-IsFree name table o x free) in
    let here = insert-owned eq_ℤ eq_ℤ_sound eq_ℤ_refl table name o.exclusive_route_tables in
    record {
      same = r.same;
      free = λ t i. elim i [
        | inl e ↦ subst (λ (k : ℤ). IsFree eq_ℤ k name o.used_route_tables) e free
        | inr i' ↦
            IsFree-before eq_ℤ t name o.used_route_tables o1.used_route_tables used1 (r.free t i')
      ];
      owned = λ t i. elim i [
        | inl e ↦
            subst (λ (k : ℤ). lookup eq_ℤ k o'.exclusive_route_tables ≡ some name) e
              (r.exclusive_extends table name here)
        | inr i' ↦ r.owned t i'
      ];
      exclusive_extends = λ k v e. r.exclusive_extends k v (excl1 k v e);
      used_extends = λ k v e. r.used_extends k v (used1 k v e);
      exclusive_used = r.exclusive_used;
      used_by = λ t w e. elim (r.used_by t w e) [
        | inl p ↦ inl p
        | inr q ↦ lookup-insert_inv eq_ℤ eq_ℤ_sound eq_ℤ_refl table t name w o.used_route_tables q
      ];
    }

-- What `claim_routes` does.
pub record RoutesClaimed (name : Text) (claims : List RouteClaim) (o o' : Owners) : Type 0 where
  pub same :
      o' ≡ record o { route_claims = o'.route_claims; used_route_tables = o'.used_route_tables }
  pub table_free :
      (c : RouteClaim) → In c claims → IsFree eq_ℤ c.table name o.exclusive_route_tables
  pub free : (c : RouteClaim) → In c claims → IsFree claim_eq c name o.route_claims
  pub owned : (c : RouteClaim) → In c claims → lookup claim_eq c o'.route_claims ≡ some name
  pub used :
      (c : RouteClaim)
      → In c claims
      → (w : Text) × (lookup eq_ℤ c.table o'.used_route_tables ≡ some w)
  pub claims_extend : Extends claim_eq o.route_claims o'.route_claims
  pub used_extends : Extends eq_ℤ o.used_route_tables o'.used_route_tables
  pub used_by : UsedBy name o o'

abbrev with_route : Text → RouteClaim → Owners → Owners
with_route name c o = record o {
  route_claims = insert claim_eq c name o.route_claims;
  used_route_tables = insert_new eq_ℤ c.table name o.used_route_tables;
}

pub claim_routes-RoutesClaimed :
    (name : Text) (claims : List RouteClaim) (o o' : Owners)
    → claim_routes name claims o ≡ accept o'
    → RoutesClaimed name claims o o'
unfolding claim_routes
claim_routes-RoutesClaimed name [] o o' h =
    subst (RoutesClaimed name [] o) (accept-injective o o' h) (record {
      same = refl;
      table_free = λ c i. absurd i;
      free = λ c i. absurd i;
      owned = λ c i. absurd i;
      used = λ c i. absurd i;
      claims_extend = λ k v e. e;
      used_extends = λ k v e. e;
      used_by = λ t w e. inr e;
    })
claim_routes-RoutesClaimed name (d ∷ claims) o o' h =
    let o1 = with_route name d o in
    let (u, first, h1) =
      >>=-accept (check_owner eq_ℤ colliding_routes d.table name o.exclusive_route_tables)
        (λ (u : Unit {0}).
          check_owner claim_eq colliding_routes d name o.route_claims >>= λ (t : Unit {0}).
          claim_routes name claims o1)
        h in
    let (t, second, rest) =
      >>=-accept (check_owner claim_eq colliding_routes d name o.route_claims)
        (λ (t : Unit {0}). claim_routes name claims o1) h1 in
    let table =
      check_owner-IsFree eq_ℤ colliding_routes d.table name o.exclusive_route_tables first in
    let route = check_owner-IsFree claim_eq colliding_routes d name o.route_claims second in
    let r = claim_routes-RoutesClaimed name claims o1 o' rest in
    let claims1 =
      insert-Extends claim_eq claim_eq_sound claim_eq_refl d name o.route_claims route in
    let used1 = insert_new-Extends eq_ℤ eq_ℤ_sound eq_ℤ_refl d.table name o.used_route_tables in
    let here = insert-owned claim_eq claim_eq_sound claim_eq_refl d name o.route_claims in
    let (w, taken) = insert_new-taken eq_ℤ eq_ℤ_sound eq_ℤ_refl d.table name o.used_route_tables in
    record {
      same = r.same;
      table_free = λ c i. elim i [
        | inl e ↦
            subst (λ (k : RouteClaim). IsFree eq_ℤ k.table name o.exclusive_route_tables) e table
        | inr i' ↦ r.table_free c i'
      ];
      free = λ c i. elim i [
        | inl e ↦ subst (λ (k : RouteClaim). IsFree claim_eq k name o.route_claims) e route
        | inr i' ↦
            IsFree-before claim_eq c name o.route_claims o1.route_claims claims1 (r.free c i')
      ];
      owned = λ c i. elim i [
        | inl e ↦
            subst (λ (k : RouteClaim). lookup claim_eq k o'.route_claims ≡ some name) e
              (r.claims_extend d name here)
        | inr i' ↦ r.owned c i'
      ];
      used = λ c i. elim i [
        | inl e ↦
            subst
              (λ (k : RouteClaim). (w : Text) × (lookup eq_ℤ k.table o'.used_route_tables ≡ some w))
              e (w, r.used_extends d.table w taken)
        | inr i' ↦ r.used c i'
      ];
      claims_extend = λ k v e. r.claims_extend k v (claims1 k v e);
      used_extends = λ k v e. r.used_extends k v (used1 k v e);
      used_by = λ k v e. elim (r.used_by k v e) [
        | inl p ↦ inl p
        | inr q ↦ insert_new-inv eq_ℤ eq_ℤ_sound eq_ℤ_refl d.table k name v o.used_route_tables q
      ];
    }
