-- ===== src/Model/Prepare/Laws.antt =====
-- What internal/model/prepare.go keeps of a record, and that an update generates no secret.
use th.Base.{ℕ, ◌+◌, ◌%◌, ◌^◌, ◌≡◌, refl, sym, ap, ◌∙◌, Bool, true, false, if◌then◌else◌}
use mathlib.Core.Path.{subst}
use th.Base.Int.{pos}
use th.Model.Types.{Spec, Tunnel}
use th.Model.Check.{Check, ok, err, panic}
use th.Model.Library.{Library}
use th.Model.Validate.{validate_spec_choice, validate}
use th.Model.Secrets.{kind_eq, merge_secrets}
use th.Model.Defaults.{Generator, apply_defaults}
use th.Model.Prepare.{
  Prepared, prepared, failed, crashed, ◌>=>◌, checked, prepare_secrets, finish, merged,
  prepare_update,
}

>=>-prepared {ℓ κ} :
    {A : Type ℓ} {B : Type κ} (m : Prepared A) (f : A → Prepared B) {b : B}
    → (m >=> f) ≡ prepared b
    → (a : A) × (f a ≡ prepared b)
>=>-prepared (prepared a) f h = (a, h)
>=>-prepared (failed e) f h = cc
>=>-prepared crashed f h = cc

checked-prepared {ℓ} :
    {A : Type ℓ} (c : Check) (m : Prepared A) {a : A}
    → checked c m ≡ prepared a
    → (c ≡ ok) × (m ≡ prepared a)
checked-prepared ok m h = (refl, h)
checked-prepared (err e) m h = cc
checked-prepared panic m h = cc

prepared-injective {ℓ} : {A : Type ℓ} (a b : A) → prepared a ≡ prepared b → a ≡ b
prepared-injective a b h = cc

-- Two records that differ in their specifications at most.
pub record SameHeader (t u : Tunnel) : Type 0 where
  pub schema_version : t.schema_version ≡ u.schema_version
  pub id : t.id ≡ u.id
  pub generation : t.generation ≡ u.generation
  pub name : t.name ≡ u.name
  pub kind : t.kind ≡ u.kind
  pub interface : t.interface ≡ u.interface
  pub enabled : t.enabled ≡ u.enabled
  pub created_at : t.created_at ≡ u.created_at
  pub updated_at : t.updated_at ≡ u.updated_at

same_spec : (t : Tunnel) (s : Spec) → SameHeader (record t { spec = s }) t
same_spec t s = record {
  schema_version = refl;
  id = refl;
  generation = refl;
  name = refl;
  kind = refl;
  interface = refl;
  enabled = refl;
  created_at = refl;
  updated_at = refl;
}

same_trans : {t u v : Tunnel} → SameHeader t u → SameHeader u v → SameHeader t v
same_trans p q = record {
  schema_version = p.schema_version ∙ q.schema_version;
  id = p.id ∙ q.id;
  generation = p.generation ∙ q.generation;
  name = p.name ∙ q.name;
  kind = p.kind ∙ q.kind;
  interface = p.interface ∙ q.interface;
  enabled = p.enabled ∙ q.enabled;
  created_at = p.created_at ∙ q.created_at;
  updated_at = p.updated_at ∙ q.updated_at;
}

if-SameHeader :
    (b : Bool) (x y t : Tunnel)
    → SameHeader x t
    → SameHeader y t
    → SameHeader (if b then x else y) t
if-SameHeader true x y t p q = p
if-SameHeader false x y t p q = q

apply_defaults-SameHeader :
    (g : Generator) (lib : Library) (t : Tunnel) → SameHeader (apply_defaults g lib t) t
unfolding apply_defaults
apply_defaults-SameHeader g lib t = if-SameHeader _ _ _ t (same_spec t _) (same_spec t _)

merge_secrets-SameHeader : (n c : Tunnel) → SameHeader (merge_secrets n c) n
unfolding merge_secrets
merge_secrets-SameHeader n c =
    if-SameHeader (kind_eq n.kind c.kind) _ _ n (same_spec n _) (same_spec n n.spec)

finish-prepared :
    (g : Generator) (lib : Library) (generate : Bool) (t u : Tunnel)
    → finish g lib generate t ≡ prepared u
    → SameHeader u t × (validate lib u ≡ ok)
unfolding finish
finish-prepared g lib generate t u h =
    let t' = apply_defaults g lib t in
    let (s, c) = >=>-prepared (prepare_secrets g lib generate t'.kind t'.spec) _ h in
    let (valid, e) =
      checked-prepared (validate lib (record t' { spec = s })) (prepared (record t' { spec = s }))
        c in
    let same : record t' { spec = s } ≡ u = prepared-injective _ u e in
    (
      subst (λ (x : Tunnel). SameHeader x t) same
          (same_trans (same_spec t' s) (apply_defaults-SameHeader g lib t)),
      ap (validate lib) (sym same) ∙ valid,
    )

-- An update that is prepared passes `Validate`; it is the record that was current, in its next generation
-- and with its time of creation, and has what was asked for of the name, the kind, the interface and the
-- switch.
pub prepare_update-validate :
    (g : Generator) (lib : Library) (generate : Bool) (now : ℕ) (next current u : Tunnel)
    → prepare_update g lib generate now next current ≡ prepared u
    → SameHeader u (record next {
      schema_version = pos 4;
      id = current.id;
      generation = (current.generation + 1) % 2 ^ 64;
      created_at = current.created_at;
      updated_at = now;
    })
      × (validate lib u ≡ ok)
unfolding prepare_update merged
prepare_update-validate g lib generate now next current u h =
    let (_, done) =
      checked-prepared (validate_spec_choice next) (finish g lib generate (merged now next current))
        h in
    let (same, valid) = finish-prepared g lib generate (merged now next current) u done in
    (same_trans same (same_trans (same_spec _ _) (merge_secrets-SameHeader _ current)), valid)
