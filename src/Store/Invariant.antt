-- ===== src/Store/Invariant.antt =====
-- The set of records that internal/store/store.go keeps, and the parts of its checks.
use th.Base.{
  or_parts, true-false, All-zip, ℕ, ◌+◌, ◌≤◌, ◌≡◌, ◌≢◌, refl, sym, ap, ◌∙◌, inl, inr, true, false,
  ◌&&◌, not, leb, ltb, List, [], ◌∷◌, ◌++◌, none, length, All, Bool-cases, bytes_eq→eq,
  bytes_eq_refl, arith,
}
use th.Base.Text.{Text, text_eq, is_empty}
use th.Model.Types.{Tunnel}
use th.Model.Check.{Check, ok, err, panic, is_ok}
use th.Model.Library.{Library}
use th.Model.Validate.Common.{valid_id}
use th.Model.Validate.{validate}
use th.Model.Ownership.{managed_route_claims}
use th.Core.Records.{max_managed_route_claims}
use th.Core.Records.Separate.{Separate, Pairwise}
use th.Store.{
  Commit, done, not_done, rolled_back, kept, collides_record, collides_routes, any_other,
  total_claims, check_names, find_record, replace_record, remove_record, commit,
}
use th.Core.Records.Claims.{none-some}
use th.Store.Separate.{collides-Separate}

abbrev pub all_claims : Library → List Tunnel → ℕ
all_claims lib [] = 0
all_claims lib (r ∷ records) = length (managed_route_claims lib r) + all_claims lib records

-- The promise of `validateRecordSet` of internal/core/batch.go.
pub record IsStore (lib : Library) (records : List Tunnel) : Type 0 where
  pub size : length records ≤ 1024
  pub valid : All (λ r. validate lib r ≡ ok) records
  pub separate : Pairwise (Separate lib) records
  pub claims : all_claims lib records ≤ 262144

pub is_ok-ok : (c : Check) → not (is_ok c) ≡ false → c ≡ ok
is_ok-ok ok h = refl
is_ok-ok (err e) h = absurd (true-false refl h)
is_ok-ok panic h = absurd (true-false refl h)

pub valid_id-text_eq : (id : Text) → valid_id id ≡ true → text_eq id [] ≡ false
unfolding valid_id
valid_id-text_eq [] h = absurd (true-false h refl)
valid_id-text_eq (b ∷ id) h = refl

pub find_record-none :
    (id : Text) (records : List Tunnel)
    → find_record id records ≡ none
    → All (λ r. r.id ≢ id) records
unfolding find_record
find_record-none id [] h = tt
find_record-none id (r ∷ records) h = elim (Bool-cases (text_eq r.id id)) [
  | inl e ↦ absurd (none-some r (sym (rw e at h)))
  | inr e ↦ (
    (λ q. true-false (ap (λ (x : Text). text_eq x id) q ∙ bytes_eq_refl id) e),
    find_record-none id records (rw e at h),
  )
]

-- The records that the loops pass over.
module _ (lib : Library) (c : Tunnel) (except : Text) where
  pub any_other-Separate :
      (records : List Tunnel)
      → All (λ r. validate lib r ≡ ok) records
      → any_other (collides_record lib c) except records ≡ false
      → any_other (collides_routes lib c) except records ≡ false
      → All (λ r. text_eq r.id except ≡ false → r.id ≢ c.id → Separate lib r c) records
  unfolding any_other
  any_other-Separate [] v h g = tt
  any_other-Separate (r ∷ records) (valid, v) h g =
      let (p, h') =
        or_parts (not (text_eq r.id except) && collides_record lib c r)
          (any_other (collides_record lib c) except records) h in
      let (q, g') =
        or_parts (not (text_eq r.id except) && collides_routes lib c r)
          (any_other (collides_routes lib c) except records) g in
      (
        (λ other ne.
            collides-Separate lib r c valid ne (ground (arith, p, other))
              (ground (arith, q, other))),
        any_other-Separate records v h' g',
      )

pub check_names-parts :
    (lib : Library) (c : Tunnel) (except : Text) (records : List Tunnel)
    → check_names lib c except records ≡ false
    → ((is_empty except && leb 1024 (length records)) ≡ false)
      × (any_other (collides_record lib c) except records ≡ false)
      × (any_other (collides_routes lib c) except records ≡ false)
      × (ltb max_managed_route_claims
            (length (managed_route_claims lib c) + total_claims lib except records)
          ≡ false)
unfolding check_names
check_names-parts lib c except records h =
    let (h2, total) = or_parts _ _ h in
    let (h1, routes) = or_parts _ _ h2 in
    let (full, collides) = or_parts _ _ h1 in (full, collides, routes, total)

pub Separate-sym : (lib : Library) (s t : Tunnel) → Separate lib s t → Separate lib t s
Separate-sym lib s t p = record {
  ids = λ e. p.ids (sym e);
  names = λ e. p.names (sym e);
  interfaces = λ k i j. p.interfaces k j i;
  if_ids = λ k i j. p.if_ids k j i;
  req_ids = λ k i j. p.req_ids k j i;
  tables = λ k i j. p.tables k j i;
  priorities = λ k i j. p.priorities k j i;
  routes = λ k i j. p.routes k j i;
  routes_of_second = λ c i j. p.routes_of_first c i j;
  routes_of_first = λ c i j. p.routes_of_second c i j;
}

pub commit-IsStore :
    (lib : Library) (io : Commit) (old new : List Tunnel)
    → IsStore lib old
    → IsStore lib new
    → IsStore lib (commit io old new).0
unfolding commit
commit-IsStore lib done old new p q = q
commit-IsStore lib not_done old new p q = p
commit-IsStore lib rolled_back old new p q = p
commit-IsStore lib kept old new p q = q

pub eq-false : (a b : Text) → a ≢ b → text_eq a b ≡ false
eq-false a b ne = elim (Bool-cases (text_eq a b)) [
  | inl e ↦ absurd (ne (bytes_eq→eq a b e))
  | inr e ↦ e
]

module _ (lib : Library) where
  pub total_claims-all_claims :
      (except : Text) (rs : List Tunnel)
      → All (λ r. text_eq r.id except ≡ false) rs
      → total_claims lib except rs ≡ all_claims lib rs
  unfolding total_claims
  total_claims-all_claims except [] h = refl
  total_claims-all_claims except (r ∷ rs) (e, h) =
      let p = total_claims-all_claims except rs h in rw e (omega (arith, p))

  pub all_claims-snoc :
      (rs : List Tunnel) (c : Tunnel)
      → all_claims lib (rs ++ (c ∷ [])) ≡ length (managed_route_claims lib c) + all_claims lib rs
  all_claims-snoc [] c = refl
  all_claims-snoc (r ∷ rs) c = let p = all_claims-snoc rs c in omega (arith, p)

  pub all_claims-remove :
      (id : Text) (rs : List Tunnel) → all_claims lib (remove_record id rs) ≤ all_claims lib rs
  unfolding remove_record
  all_claims-remove id [] = omega arith
  all_claims-remove id (r ∷ rs) =
      let h = all_claims-remove id rs in
      elim (Bool-cases (text_eq r.id id)) [
        | inl e ↦ rw e (omega arith)
        | inr e ↦ rw e (omega (arith, h))
      ]

  pub all_claims-replace :
      (c : Tunnel) (rs : List Tunnel)
      → Pairwise (Separate lib) rs
      → all_claims lib (replace_record c rs)
        ≤ length (managed_route_claims lib c) + total_claims lib c.id rs
  unfolding replace_record total_claims
  all_claims-replace c [] h = omega arith
  all_claims-replace c (r ∷ rs) (q, h) = elim (Bool-cases (text_eq r.id c.id)) [
    | inl e ↦
        let same = bytes_eq→eq r.id c.id e in
        let others : All (λ x. text_eq x.id c.id ≡ false) rs =
          All-zip (λ x a _. eq-false x.id c.id (λ w. a.ids (same ∙ sym w))) rs q q in
        let p = total_claims-all_claims c.id rs others in rw e (omega (arith, p))
    | inr e ↦ let p = all_claims-replace c rs h in rw e (omega (arith, p))
  ]
