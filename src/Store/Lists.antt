-- ===== src/Store/Lists.antt =====
-- Lists of records of internal/store/store.go after a record is appended, replaced or removed.
use th.Base.{
  All-snoc, suc, ◌≤◌, ◌≡◌, refl, ap, inl, inr, List, [], ◌∷◌, ◌++◌, length, All, Bool-cases, arith,
}
use th.Base.Text.{Text, text_eq}
use th.Model.Types.{Tunnel}
use th.Core.Records.Separate.{Pairwise}
use th.Store.{replace_record, remove_record}

pub Pairwise-snoc {ℓ κ} :
    {A : Type ℓ} (R : A → A → Type κ) (xs : List A) (a : A)
    → Pairwise R xs
    → All (λ x. R x a) xs
    → Pairwise R (xs ++ (a ∷ []))
Pairwise-snoc R [] a h p = (tt, tt)
Pairwise-snoc R (x ∷ xs) a (q, h) (p, ps) = (All-snoc (R x) xs a q p, Pairwise-snoc R xs a h ps)

pub All-replace {κ} :
    (P : Tunnel → Type κ) (c : Tunnel) (xs : List Tunnel)
    → All P xs
    → P c
    → All P (replace_record c xs)
unfolding replace_record
All-replace P c [] h p = tt
All-replace P c (x ∷ xs) (q, h) p = elim (Bool-cases (text_eq x.id c.id)) [
  | inl e ↦ rw e (p, h)
  | inr e ↦ rw e (q, All-replace P c xs h p)
]

pub All-remove {κ} :
    (P : Tunnel → Type κ) (id : Text) (xs : List Tunnel) → All P xs → All P (remove_record id xs)
unfolding remove_record
All-remove P id [] h = tt
All-remove P id (x ∷ xs) (q, h) = elim (Bool-cases (text_eq x.id id)) [
  | inl e ↦ rw e h
  | inr e ↦ rw e (q, All-remove P id xs h)
]

pub Pairwise-remove {κ} :
    (R : Tunnel → Tunnel → Type κ) (id : Text) (xs : List Tunnel)
    → Pairwise R xs
    → Pairwise R (remove_record id xs)
unfolding remove_record
Pairwise-remove R id [] h = tt
Pairwise-remove R id (x ∷ xs) (q, h) = elim (Bool-cases (text_eq x.id id)) [
  | inl e ↦ rw e h
  | inr e ↦ rw e (All-remove (R x) id xs q, Pairwise-remove R id xs h)
]

pub length-replace : (c : Tunnel) (xs : List Tunnel) → length (replace_record c xs) ≡ length xs
unfolding replace_record
length-replace c [] = refl
length-replace c (x ∷ xs) = elim (Bool-cases (text_eq x.id c.id)) [
  | inl e ↦ rw e refl
  | inr e ↦ rw e (ap suc (length-replace c xs))
]

pub length-remove : (id : Text) (xs : List Tunnel) → length (remove_record id xs) ≤ length xs
unfolding remove_record
length-remove id [] = omega arith
length-remove id (x ∷ xs) =
    let h = length-remove id xs in
    elim (Bool-cases (text_eq x.id id)) [
      | inl e ↦ rw e (omega arith)
      | inr e ↦ rw e (omega (arith, h))
    ]
