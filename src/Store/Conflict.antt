-- ===== src/Store/Conflict.antt =====
-- Two updates of one record of internal/store/store.go that were made from the same generation.
use th.Base.{
  or_parts, ℕ, ◌+◌, ◌%◌, ◌^◌, ◌<◌, ◌≡◌, ◌≢◌, refl, sym, ap, ◌∙◌, inl, inr, Bool, true, false, ◌||◌,
  not, ◌==◌, List, [], ◌∷◌, Option, none, some, Bool-cases, if◌then◌else◌, bytes_eq_refl, arith,
}
use th.Base.Text.{Text, text_eq}
use th.Model.Types.{Tunnel}
use th.Model.Check.{ok, is_ok}
use th.Model.Library.{Library}
use th.Model.Validate.{validate}
use th.Core.Records.Claims.{none-some}
use th.Store.{
  StoreError, conflict, invalid, not_found, file_system, Commit, done, not_done, rolled_back, kept,
  check_names, find_record, replace_record, commit, update_found, update,
}

find_record-replace_record :
    (c : Tunnel) (records : List Tunnel) (current : Tunnel)
    → find_record c.id records ≡ some current
    → find_record c.id (replace_record c records) ≡ some c
unfolding find_record replace_record
find_record-replace_record c [] current h = absurd (none-some current h)
find_record-replace_record c (r ∷ records) current h = elim (Bool-cases (text_eq r.id c.id)) [
  | inl e ↦ rw (e, bytes_eq_refl c.id) refl
  | inr e ↦ let p = find_record-replace_record c records current (rw e at h) in rw (e, e) p
]

commit-done :
    (io : Commit) (old new : List Tunnel)
    → (commit io old new).1 ≡ none
    → (commit io old new).0 ≡ new
unfolding commit
commit-done done old new h = refl
commit-done not_done old new h = absurd (none-some file_system (sym h))
commit-done rolled_back old new h = absurd (none-some file_system (sym h))
commit-done kept old new h = absurd (none-some file_system (sym h))

-- A test that did not return its error was passed.
if-done :
    (b : Bool) (records : List Tunnel) (e : StoreError) (y : List Tunnel × Option StoreError)
    → (if b then (records, some e) else y).1 ≡ none
    → (b ≡ false) × ((if b then (records, some e) else y) ≡ y)
if-done true records e y h = absurd (none-some e (sym h))
if-done false records e y h = (refl, refl)

update_found-done :
    (io : Commit) (c : Tunnel) (expected : ℕ) (collides : Bool) (records : List Tunnel)
    (found : Option Tunnel)
    → found ≡ find_record c.id records
    → (update_found io c expected collides records found).1 ≡ none
    → (c.generation ≡ (expected + 1) % 2 ^ 64)
      × (find_record c.id (update_found io c expected collides records found).0 ≡ some c)
unfolding update_found
update_found-done io c expected collides records none f h = absurd (none-some not_found (sym h))
update_found-done io c expected collides records (some current) f h =
    let (same, e) =
      if-done
        (not (current.generation == expected) || not (c.generation == (expected + 1) % 2 ^ 64))
        records conflict _ h in
    let (_, e') =
      if-done collides records conflict (commit io records (replace_record c records))
        (sym (ap (λ p. p.1) e) ∙ h) in
    let stored =
      ap (λ p. p.0) (e ∙ e')
      ∙ commit-done io records (replace_record c records) (sym (ap (λ p. p.1) (e ∙ e')) ∙ h) in
    let (_, next) =
      or_parts (not (current.generation == expected))
        (not (c.generation == (expected + 1) % 2 ^ 64)) same in
    (
      ground (arith, next),
      ap (find_record c.id) stored ∙ find_record-replace_record c records current (sym f),
    )

update_found-stale :
    (io : Commit) (c current : Tunnel) (expected : ℕ) (collides : Bool) (records : List Tunnel)
    → current.generation ≢ expected
    → update_found io c expected collides records (some current) ≡ (records, some conflict)
unfolding update_found
update_found-stale io c current expected collides records ne =
    elim (Bool-cases (current.generation == expected)) [
      | inl e ↦ absurd (ne (ground (arith, e)))
      | inr e ↦ rw e refl
    ]

module _ (lib : Library) (io : Commit) (c : Tunnel) (expected : ℕ) (records : List Tunnel) where
  -- An update that succeeded can be read, and has the next generation.
  update_done :
      (update lib io c expected records).1 ≡ none
      → (c.generation ≡ (expected + 1) % 2 ^ 64)
        × (find_record c.id (update lib io c expected records).0 ≡ some c)
  unfolding update
  update_done h =
      let (_, e) = if-done (not (is_ok (validate lib c))) records invalid _ h in
      let (generation, found) =
        update_found-done io c expected (check_names lib c c.id records) records
          (find_record c.id records) refl (sym (ap (λ p. p.1) e) ∙ h) in
      (generation, ap (λ p. find_record c.id p.0) e ∙ found)

update-stale :
    (lib : Library) (io : Commit) (c current : Tunnel) (expected : ℕ) (records : List Tunnel)
    → validate lib c ≡ ok
    → find_record c.id records ≡ some current
    → current.generation ≢ expected
    → update lib io c expected records ≡ (records, some conflict)
unfolding update
update-stale lib io c current expected records valid found ne =
    rw (valid, found)
      (update_found-stale io c current expected (check_names lib c c.id records) records ne)

-- No update is lost: after an update has succeeded, the record is the new one, and an update of the same
-- record that was made from the same generation is a conflict and changes nothing.
pub update-conflict :
    (lib : Library) (io io' : Commit) (c c' : Tunnel) (expected : ℕ) (records : List Tunnel)
    → expected < 2 ^ 64
    → (update lib io c expected records).1 ≡ none
    → c'.id ≡ c.id
    → validate lib c' ≡ ok
    → (find_record c.id (update lib io c expected records).0 ≡ some c)
      × (update lib io' c' expected (update lib io c expected records).0
          ≡ ((update lib io c expected records).0, some conflict))
update-conflict lib io io' c c' expected records small h same valid =
    let (generation, found) = update_done lib io c expected records h in
    (
      found,
      update-stale lib io' c' c expected (update lib io c expected records).0 valid
          (ap (λ (x : Text). find_record x (update lib io c expected records).0) same ∙ found)
          (λ e. absurd (ground (arith, generation, e))),
    )
