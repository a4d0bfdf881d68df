-- ===== src/Store/Prepared.antt =====
-- PrepareUpdate of internal/model/prepare.go, followed by Update of internal/store/store.go.
use th.Base.{
  ℕ, ◌+◌, ◌%◌, ◌^◌, ◌≡◌, refl, ap, ◌∙◌, Bool, true, ◌==◌, List, some, if◌then◌else◌, arith,
}
use th.Base.Text.{Text}
use th.Model.Types.{Tunnel}
use th.Model.Check.{ok}
use th.Model.Library.{Library}
use th.Model.Validate.{validate}
use th.Model.Defaults.{Generator}
use th.Model.Prepare.{prepared, prepare_update}
use th.Model.Prepare.Laws.{prepare_update-validate}
use th.Store.{
  conflict, Commit, check_names, find_record, replace_record, commit, update_found, update,
}

update_found-next :
    (io : Commit) (c current : Tunnel) (collides : Bool) (records : List Tunnel)
    → c.generation ≡ (current.generation + 1) % 2 ^ 64
    → update_found io c current.generation collides records (some current) ≡ (
        if collides then (records, some conflict) else commit io records (replace_record c records))
unfolding update_found
update_found-next io c current collides records next =
    rw
      (
        same_test current.generation,
        next_test c.generation ((current.generation + 1) % 2 ^ 64) next,
      )
      refl
  where
    same_test : (n : ℕ) → (n == n) ≡ true
    same_test n = ground arith

    next_test : (n m : ℕ) → n ≡ m → (n == m) ≡ true
    next_test n m e = ground (arith, e)

update-valid :
    (lib : Library) (io : Commit) (c current : Tunnel) (expected : ℕ) (records : List Tunnel)
    → validate lib c ≡ ok
    → find_record c.id records ≡ some current
    → update lib io c expected records
      ≡ update_found io c expected (check_names lib c c.id records) records (some current)
unfolding update
update-valid lib io c current expected records valid found = rw (valid, found) refl

-- An update that was prepared from a stored record is stored under the generation of that record, unless
-- it shares something with another record: neither its contents nor its generation are refused.
pub update-prepare_update :
    (g : Generator) (lib : Library) (generate : Bool) (now : ℕ) (io : Commit)
    (next current u : Tunnel) (records : List Tunnel)
    → find_record current.id records ≡ some current
    → prepare_update g lib generate now next current ≡ prepared u
    → update lib io u current.generation records ≡ (
        if check_names lib u u.id records
        then (records, some conflict)
        else commit io records (replace_record u records))
update-prepare_update g lib generate now io next current u records found h =
    let (same, valid) = prepare_update-validate g lib generate now next current u h in
    update-valid lib io u current current.generation records valid
      (ap (λ (x : Text). find_record x records) same.id ∙ found)
    ∙ update_found-next io u current (check_names lib u u.id records) records same.generation
