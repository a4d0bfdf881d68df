-- ===== src/Base/Maps.antt =====
-- Go's maps as association lists over a Boolean key equality. The order of the list stands for the
-- order in which one `range` loop meets the entries, which Go leaves open.
use mathlib.Core.Path.{◌≡◌, refl, sym, ◌∙◌}
use mathlib.Core.Logic.{inl, inr}
use mathlib.Core.Bool.{Bool, true, false}
use mathlib.Core.Option.{Option, none, some}
use mathlib.Core.List.{List, [], ◌∷◌}
use th.Base.Tests.{if◌then◌else◌, Bool-cases}

module _ {ℓ κ} {K : Type ℓ} {V : Type κ} (eq : K → K → Bool) where
  unfoldable pub lookup : K → List (K × V) → Option V
  lookup k [] = none
  lookup k ((j, v) ∷ m) = if eq j k then some v else lookup k m

  unfoldable pub insert : K → V → List (K × V) → List (K × V)
  insert k v [] = (k, v) ∷ []
  insert k v ((j, w) ∷ m) = if eq j k then (j, v) ∷ m else (j, w) ∷ insert k v m

  unfoldable pub remove : K → List (K × V) → List (K × V)
  remove k [] = []
  remove k ((j, w) ∷ m) = if eq j k then remove k m else (j, w) ∷ remove k m

bool_distinct : true ≡ false → ⊥
bool_distinct e = cc

if-twice {ℓ} :
    {A : Type ℓ} (c : Bool) (x y z : A)
    → (if c then x else z) ≡ (if c then x else if c then y else z)
if-twice true x y z = refl
if-twice false x y z = refl

if-swap {ℓ} :
    {A : Type ℓ} (a b : Bool) (x y z : A)
    → (a ≡ true → b ≡ false)
    → (if a then x else if b then y else z) ≡ (if b then y else if a then x else z)
if-swap true true x y z h = absurd (bool_distinct (h refl))
if-swap true false x y z h = refl
if-swap false true x y z h = refl
if-swap false false x y z h = refl

if-same {ℓ} : {A : Type ℓ} (c : Bool) (x : A) → x ≡ (if c then x else x)
if-same true x = refl
if-same false x = refl

-- The laws of maps whose key equality is sound and reflexive.
module _ {ℓ} {K : Type ℓ} (eq : K → K → Bool) (eq_sound : (a b : K) → eq a b ≡ true → a ≡ b)
    (eq_self : (a : K) → eq a a ≡ true) where
  -- Of two different keys, one at most is a third one.
  not_both : (i j k : K) → eq i j ≡ false → eq i k ≡ true → eq j k ≡ false
  not_both i j k e p = elim (Bool-cases (eq j k)) [
    | inl q ↦
        let a = eq_sound i k p in
        let b = eq_sound j k q in
        let c : eq i j ≡ true = rw (a, b) (eq_self k) in absurd (bool_distinct (sym c ∙ e))
    | inr q ↦ q
  ]

  module _ {κ} {V : Type κ} where
    pub lookup-insert :
        (k j : K) (v : V) (m : List (K × V))
        → lookup eq k (insert eq j v m) ≡ (if eq j k then some v else lookup eq k m)
    unfolding lookup insert
    lookup-insert k j v [] = refl
    lookup-insert k j v ((i, w) ∷ m) = elim (Bool-cases (eq i j)) [
      | inl e ↦ rw e (rw (eq_sound i j e) (if-twice (eq j k) (some v) (some w) (lookup eq k m)))
      | inr e ↦ rw e (
          rw (lookup-insert k j v m)
            (if-swap (eq i k) (eq j k) (some w) (some v) (lookup eq k m) (not_both i j k e)))
    ]

    pub lookup-remove :
        (k j : K) (m : List (K × V))
        → lookup eq k (remove eq j m) ≡ (if eq j k then none else lookup eq k m)
    unfolding lookup remove
    lookup-remove k j [] = if-same (eq j k) none
    lookup-remove k j ((i, w) ∷ m) = elim (Bool-cases (eq i j)) [
      | inl e ↦ rw e (
          rw (lookup-remove k j m)
            (rw (eq_sound i j e) (if-twice (eq j k) none (some w) (lookup eq k m))))
      | inr e ↦ rw e (
          rw (lookup-remove k j m)
            (if-swap (eq i k) (eq j k) (some w) none (lookup eq k m) (not_both i j k e)))
    ]
