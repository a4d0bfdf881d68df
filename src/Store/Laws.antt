-- ===== src/Store/Laws.antt =====
-- The set of records that internal/store/store.go keeps, over any sequence of calls.
use th.Base.{
  true-false, All-zip, All-snoc, ℕ, ◌+◌, ◌%◌, ◌^◌, ◌≡◌, ◌≢◌, refl, sym, ap, ◌∙◌, inl, inr, Bool,
  true, false, ◌||◌, not, ◌==◌, List, [], ◌∷◌, ◌++◌, Option, none, some, length-append, All,
  Bool-cases, if◌then◌else◌, bytes_eq→eq, bytes_eq_refl, arith,
}
use th.Base.Text.{Text, text_eq}
use th.Model.Types.{Tunnel}
use th.Model.Check.{ok, is_ok}
use th.Model.Library.{Library}
use th.Model.Validate.Common.{valid_id}
use th.Model.Validate.{validate}
use th.Core.Records.Separate.{Separate, Pairwise}
use th.Store.{
  StoreError, Commit, check_names, find_record, replace_record, remove_record, update_found,
  delete_found, is_none, create, update, delete,
}
use th.Model.Runs.{validate-id}
use th.Store.Lists.{
  Pairwise-snoc, All-replace, All-remove, Pairwise-remove, length-replace, length-remove,
}
use th.Store.Invariant.{
  IsStore, is_ok-ok, valid_id-text_eq, find_record-none, any_other-Separate, check_names-parts,
  Separate-sym, commit-IsStore, eq-false, total_claims-all_claims, all_claims-snoc,
  all_claims-remove, all_claims-replace,
}

pub data Request : Type 0 where
  create_record : Commit → Tunnel → Request
  update_record : Commit → Tunnel → ℕ → Request
  delete_record : Commit → Text → ℕ → Request

abbrev pub perform : Library → Request → List Tunnel → List Tunnel × Option StoreError
perform lib (create_record io c) records = create lib io c records
perform lib (update_record io c expected) records = update lib io c expected records
perform lib (delete_record io id expected) records = delete io id expected records

-- The records after the calls, the first one first.
abbrev pub run : Library → List Request → List Tunnel → List Tunnel
run lib [] records = records
run lib (q ∷ requests) records = run lib requests (perform lib q records).0

module _ (lib : Library) (c : Tunnel) (records : List Tunnel) (s : IsStore lib records)
    (valid : validate lib c ≡ ok) where
  snoc-IsStore :
      find_record c.id records ≡ none
      → check_names lib c [] records ≡ false
      → IsStore lib (records ++ (c ∷ []))
  snoc-IsStore absent h =
      let (full, collides, routes, total) = check_names-parts lib c [] records h in
      let apart = any_other-Separate lib c [] records s.valid collides routes in
      let given : All (λ r. r.id ≢ c.id → Separate lib r c) records =
        All-zip (λ r v f. f (valid_id-text_eq r.id (validate-id lib r v))) records s.valid apart in
      record {
        size = rw (length-append records (c ∷ [])) (ground (arith, full));
        valid = All-snoc _ records c s.valid valid;
        separate =
            Pairwise-snoc _ records c s.separate
              (All-zip (λ r ne f. f ne) records (find_record-none c.id records absent) given);
        claims =
            let n = all_claims-snoc lib records c in
            let given : All (λ r. text_eq r.id [] ≡ false) records =
              All-zip (λ r v _. valid_id-text_eq r.id (validate-id lib r v)) records s.valid
                s.valid in
            let m = total_claims-all_claims lib [] records given in ground (arith, total, n, m);
      }

  replace-Separate :
      (rs : List Tunnel)
      → All (λ r. validate lib r ≡ ok) rs
      → Pairwise (Separate lib) rs
      → All (λ r. text_eq r.id c.id ≡ false → r.id ≢ c.id → Separate lib r c) rs
      → Pairwise (Separate lib) (replace_record c rs)
  unfolding replace_record
  replace-Separate [] v p h = tt
  replace-Separate (r ∷ rs) (_, v) (q, p) (f, h) = elim (Bool-cases (text_eq r.id c.id)) [
    | inl e ↦
        let same = bytes_eq→eq r.id c.id e in
        let other : All (λ x. Separate lib c x) rs =
          All-zip
            (λ x a g.
              let ne : x.id ≢ c.id = λ w. a.ids (same ∙ sym w) in
              Separate-sym lib x c (g (eq-false x.id c.id ne) ne))
            rs q h in
        rw e (other, p)
    | inr e ↦
        let ne : r.id ≢ c.id =
          λ w. true-false (ap (λ (x : Text). text_eq x c.id) w ∙ bytes_eq_refl c.id) e in
        rw e (All-replace _ c rs q (f e ne), replace-Separate rs v p h)
  ]

  replace-IsStore : check_names lib c c.id records ≡ false → IsStore lib (replace_record c records)
  replace-IsStore h =
      let (_, collides, routes, total) = check_names-parts lib c c.id records h in
      record {
        size = rw (length-replace c records) s.size;
        valid = All-replace _ c records s.valid valid;
        separate =
            replace-Separate records s.valid s.separate
              (any_other-Separate lib c c.id records s.valid collides routes);
        claims = let n = all_claims-replace lib c records s.separate in ground (arith, total, n);
      }

remove-IsStore :
    (lib : Library) (id : Text) (records : List Tunnel)
    → IsStore lib records
    → IsStore lib (remove_record id records)
remove-IsStore lib id records s =
    let h = length-remove id records in
    let n = s.size in
    record {
      size = omega (arith, h, n);
      valid = All-remove _ id records s.valid;
      separate = Pairwise-remove _ id records s.separate;
      claims = let m = all_claims-remove lib id records in let k = s.claims in omega (arith, m, k);
    }

is_none-none {ℓ} : {A : Type ℓ} (o : Option A) → not (is_none o) ≡ false → o ≡ none
is_none-none none h = refl
is_none-none (some a) h = absurd (true-false refl h)

if-IsStore :
    (lib : Library) (b : Bool) (x y : List Tunnel × Option StoreError)
    → (b ≡ true → IsStore lib x.0)
    → (b ≡ false → IsStore lib y.0)
    → IsStore lib (if b then x else y).0
if-IsStore lib true x y p q = p refl
if-IsStore lib false x y p q = q refl

module _ (lib : Library) (io : Commit) (records : List Tunnel) (s : IsStore lib records) where
  create-IsStore : (c : Tunnel) → IsStore lib (create lib io c records).0
  unfolding create
  create-IsStore c =
      if-IsStore lib (not (is_ok (validate lib c))) _ _ (λ _. s)
        (λ valid.
          if-IsStore lib (not (is_none (find_record c.id records))) _ _ (λ _. s)
            (λ absent.
              if-IsStore lib (check_names lib c [] records) _ _ (λ _. s)
                (λ free. commit-IsStore lib io records (records ++ (c ∷ [])) s (
                  snoc-IsStore lib c records s (is_ok-ok (validate lib c) valid)
                    (is_none-none (find_record c.id records) absent) free))))

  update_found-IsStore :
      (c : Tunnel) (expected : ℕ) (found : Option Tunnel)
      → validate lib c ≡ ok
      → IsStore lib (update_found io c expected (check_names lib c c.id records) records found).0
  unfolding update_found
  update_found-IsStore c expected none valid = s
  update_found-IsStore c expected (some current) valid =
      if-IsStore lib
        (not (current.generation == expected) || not (c.generation == (expected + 1) % 2 ^ 64)) _ _
        (λ _. s)
        (λ _.
          if-IsStore lib (check_names lib c c.id records) _ _ (λ _. s)
            (λ free.
              commit-IsStore lib io records (replace_record c records) s
                (replace-IsStore lib c records s valid free)))

  update-IsStore : (c : Tunnel) (expected : ℕ) → IsStore lib (update lib io c expected records).0
  unfolding update
  update-IsStore c expected =
      if-IsStore lib (not (is_ok (validate lib c))) _ _ (λ _. s)
        (λ valid.
          update_found-IsStore c expected (find_record c.id records)
            (is_ok-ok (validate lib c) valid))

  delete_found-IsStore :
      (id : Text) (expected : ℕ) (found : Option Tunnel)
      → IsStore lib (delete_found io id expected records found).0
  unfolding delete_found
  delete_found-IsStore id expected none = s
  delete_found-IsStore id expected (some current) =
      if-IsStore lib (not (current.generation == expected)) _ _ (λ _. s)
        (λ _.
          commit-IsStore lib io records (remove_record id records) s
            (remove-IsStore lib id records s))

  delete-IsStore : (id : Text) (expected : ℕ) → IsStore lib (delete io id expected records).0
  unfolding delete
  delete-IsStore id expected =
      if-IsStore lib (not (valid_id id)) _ _ (λ _. s)
        (λ _. delete_found-IsStore id expected (find_record id records))

perform-IsStore :
    (lib : Library) (q : Request) (records : List Tunnel)
    → IsStore lib records
    → IsStore lib (perform lib q records).0
perform-IsStore lib (create_record io c) records s = create-IsStore lib io records s c
perform-IsStore lib (update_record io c expected) records s =
    update-IsStore lib io records s c expected
perform-IsStore lib (delete_record io id expected) records s =
    delete-IsStore lib io records s id expected

run_from-IsStore :
    (lib : Library) (requests : List Request) (records : List Tunnel)
    → IsStore lib records
    → IsStore lib (run lib requests records)
run_from-IsStore lib [] records s = s
run_from-IsStore lib (q ∷ requests) records s =
    run_from-IsStore lib requests (perform lib q records).0 (perform-IsStore lib q records s)

-- Whatever creations, updates and deletions are made on an empty store, and whatever the file system
-- answers to each, the records are at most 1024 with at most 262144 managed routes, each of them passes
-- `Validate`, and any two of them are separate.
pub run-IsStore : (lib : Library) (requests : List Request) → IsStore lib (run lib requests [])
run-IsStore lib requests =
    run_from-IsStore lib requests []
      (record { size = omega arith; valid = tt; separate = tt; claims = omega arith })
