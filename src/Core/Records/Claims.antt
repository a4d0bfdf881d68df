-- ===== src/Core/Records/Claims.antt =====
-- What the map updates of validateRecordSet in internal/core/batch.go do: a key has one owner, and
-- keeps it.
use th.Base.{
  ◌≡◌, ◌⊎◌, refl, sym, ap, ◌∙◌, inl, inr, Bool, true, List, [], ◌∷◌, Option, none, some, Bool-cases,
  Option-cases, if◌then◌else◌, bytes_eq→eq,
}
use mathlib.Core.Path.{subst}
use th.Base.Text.{Text, text_eq}
use th.Base.Maps.{lookup, insert, lookup-insert}
use th.Core.Outcome.{Outcome, Rejection, accept, reject}
use th.Core.Records.{claim_found, claim, check_found, check_owner, insert_found, insert_new}

-- Membership, by recursion.
abbrev pub In : {K : Type 0} → K → List K → Type 0
In k [] = ⊥
In k (j ∷ ks) = (j ≡ k) ⊎ In k ks

pub some-injective {ℓ} : {A : Type ℓ} (a b : A) → ◌≡◌ {A = Option A} (some a) (some b) → a ≡ b
some-injective a b e = cc

pub none-some {ℓ} : {A : Type ℓ} (a : A) → ◌≡◌ {A = Option A} none (some a) → ⊥
none-some a e = cc

pub accept-injective {ℓ} : {A : Type ℓ} (a b : A) → accept a ≡ accept b → a ≡ b
accept-injective a b e = cc

pub reject-accept {ℓ} :
    {A : Type ℓ} (e : Rejection) (a : A) → ◌≡◌ {A = Outcome A} (reject e) (accept a) → ⊥
reject-accept e a h = cc

check_found-owner :
    (e : Rejection) (v : Text) (o : Option Text) {u : Unit {0}}
    → check_found e v o ≡ accept u
    → (o ≡ none) ⊎ (o ≡ some v)
unfolding check_found
check_found-owner e v none h = inl refl
check_found-owner e v (some w) {u} h = elim (Bool-cases (text_eq w v)) [
  | inl same ↦ inr (ap (λ (t : Text). some t) (bytes_eq→eq w v same))
  | inr other ↦ absurd (reject-accept e u (rw other at h))
]

module _ {K : Type 0} (eq : K → K → Bool) where
  abbrev pub Extends : List (K × Text) → List (K × Text) → Type 0
  Extends m m' = (k : K) (v : Text) → lookup eq k m ≡ some v → lookup eq k m' ≡ some v

  -- No key of `ks` had an owner, and now `v` owns them all.
  pub record Claims (ks : List K) (v : Text) (m m' : List (K × Text)) : Type 0 where
    pub fresh : (k : K) → In k ks → lookup eq k m ≡ none
    pub owned : (k : K) → In k ks → lookup eq k m' ≡ some v
    pub extends : Extends m m'

  -- Nobody but `v` owns the key.
  abbrev pub IsFree : K → Text → List (K × Text) → Type 0
  IsFree k v m = (lookup eq k m ≡ none) ⊎ (lookup eq k m ≡ some v)

  pub Claims-none : (v : Text) (m : List (K × Text)) → Claims [] v m m
  Claims-none v m = record {
    fresh = λ k i. absurd i;
    owned = λ k i. absurd i;
    extends = λ k w e. e;
  }

  -- A claim that is made after another one.
  pub Claims-cons :
      (k : K) (ks : List K) (v : Text) (m m' m'' : List (K × Text))
      → Claims (k ∷ []) v m m'
      → Claims ks v m' m''
      → Claims (k ∷ ks) v m m''
  Claims-cons k ks v m m' m'' p q = record {
    fresh = λ j i. elim i [
      | inl e ↦ p.fresh j (inl e)
      | inr i' ↦ elim (Option-cases (lookup eq j m)) [
        | inl free ↦ free
        | inr (w, taken) ↦ absurd (none-some w (sym (q.fresh j i') ∙ p.extends j w taken))
      ]
    ];
    owned = λ j i. elim i [ inl e ↦ q.extends j v (p.owned j (inl e)) | inr i' ↦ q.owned j i' ];
    extends = λ j w e. q.extends j w (p.extends j w e);
  }

  pub check_owner-IsFree :
      (e : Rejection) (k : K) (v : Text) (m : List (K × Text)) {u : Unit {0}}
      → check_owner eq e k v m ≡ accept u
      → IsFree k v m
  unfolding check_owner
  check_owner-IsFree e k v m h = check_found-owner e v (lookup eq k m) h

  module _ (eq_sound : (a b : K) → eq a b ≡ true → a ≡ b) (eq_self : (a : K) → eq a a ≡ true) where
    pub insert-owned :
        (k : K) (v : Text) (m : List (K × Text)) → lookup eq k (insert eq k v m) ≡ some v
    insert-owned k v m =
        lookup-insert eq eq_sound eq_self k k v m
        ∙ ap (λ (b : Bool). if b then some v else lookup eq k m) (eq_self k)

    pub insert-Extends :
        (k : K) (v : Text) (m : List (K × Text)) → IsFree k v m → Extends m (insert eq k v m)
    insert-Extends k v m free j w e = elim (Bool-cases (eq k j)) [
      | inl same ↦
          let here : lookup eq k m ≡ some w = rw (eq_sound k j same) e in
          let v-w : some v ≡ some w = elim free [
            | inl n ↦ absurd (none-some w (sym n ∙ here))
            | inr o ↦ sym o ∙ here
          ] in
          lookup-insert eq eq_sound eq_self j k v m ∙ rw same v-w
      | inr other ↦ lookup-insert eq eq_sound eq_self j k v m ∙ rw other e
    ]

    claim_found-Claims :
        (e : Rejection) (k : K) (v : Text) (m : List (K × Text)) (o : Option Text)
        {m' : List (K × Text)}
        → lookup eq k m ≡ o
        → claim_found eq e k v m o ≡ accept m'
        → Claims (k ∷ []) v m m'
    unfolding claim_found
    claim_found-Claims e k v m none {m'} found h =
        let same : insert eq k v m ≡ m' = cc in
        let all : Claims (k ∷ []) v m (insert eq k v m) = record {
          fresh = λ j i. elim i [
            | inl p ↦ ap (λ (x : K). lookup eq x m) (sym p) ∙ found
            | inr b ↦ absurd b
          ];
          owned = λ j i. elim i [
            | inl p ↦ ap (λ (x : K). lookup eq x (insert eq k v m)) (sym p) ∙ insert-owned k v m
            | inr b ↦ absurd b
          ];
          extends = insert-Extends k v m (inl found);
        } in
        subst (Claims (k ∷ []) v m) same all
    claim_found-Claims e k v m (some w) {m'} found h = absurd (reject-accept e m' h)

    pub claim-Claims :
        (e : Rejection) (k : K) (v : Text) (m : List (K × Text)) {m' : List (K × Text)}
        → claim eq e k v m ≡ accept m'
        → Claims (k ∷ []) v m m'
    unfolding claim
    claim-Claims e k v m h = claim_found-Claims e k v m (lookup eq k m) refl h

    insert_found-Extends :
        (k : K) (v : Text) (m : List (K × Text)) (o : Option Text)
        → lookup eq k m ≡ o
        → Extends m (insert_found eq k v m o)
    unfolding insert_found
    insert_found-Extends k v m none found = insert-Extends k v m (inl found)
    insert_found-Extends k v m (some w) found = λ j x e. e

    pub insert_new-Extends :
        (k : K) (v : Text) (m : List (K × Text)) → Extends m (insert_new eq k v m)
    unfolding insert_new
    insert_new-Extends k v m = insert_found-Extends k v m (lookup eq k m) refl

    insert_found-taken :
        (k : K) (v : Text) (m : List (K × Text)) (o : Option Text)
        → lookup eq k m ≡ o
        → (w : Text) × (lookup eq k (insert_found eq k v m o) ≡ some w)
    unfolding insert_found
    insert_found-taken k v m none found = (v, insert-owned k v m)
    insert_found-taken k v m (some w) found = (w, found)

    -- The key has an owner afterwards.
    pub insert_new-taken :
        (k : K) (v : Text) (m : List (K × Text))
        → (w : Text) × (lookup eq k (insert_new eq k v m) ≡ some w)
    unfolding insert_new
    insert_new-taken k v m = insert_found-taken k v m (lookup eq k m) refl

    pub lookup-insert_inv :
        (k j : K) (v w : Text) (m : List (K × Text))
        → lookup eq j (insert eq k v m) ≡ some w
        → (w ≡ v) ⊎ (lookup eq j m ≡ some w)
    lookup-insert_inv k j v w m e = elim (Bool-cases (eq k j)) [
      | inl same ↦
          let r = rw same at (sym (lookup-insert eq eq_sound eq_self j k v m) ∙ e) in inl (cc r)
      | inr other ↦ inr (rw other at (sym (lookup-insert eq eq_sound eq_self j k v m) ∙ e))
    ]

    insert_found-inv :
        (k j : K) (v w : Text) (m : List (K × Text)) (o : Option Text)
        → lookup eq j (insert_found eq k v m o) ≡ some w
        → (w ≡ v) ⊎ (lookup eq j m ≡ some w)
    unfolding insert_found
    insert_found-inv k j v w m none e = lookup-insert_inv k j v w m e
    insert_found-inv k j v w m (some x) e = inr e

    -- An owner is the new one or an old one.
    pub insert_new-inv :
        (k j : K) (v w : Text) (m : List (K × Text))
        → lookup eq j (insert_new eq k v m) ≡ some w
        → (w ≡ v) ⊎ (lookup eq j m ≡ some w)
    unfolding insert_new
    insert_new-inv k j v w m e = insert_found-inv k j v w m (lookup eq k m) e
