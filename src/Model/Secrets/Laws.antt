-- ===== src/Model/Secrets/Laws.antt =====
-- MergeSecrets of internal/model/prepare.go puts back what Redact of internal/model/secrets.go took.
use th.Base.{◌≡◌, refl, ap, ◌∙◌, true, List, Option, none, some, bytes_eq_refl}
use th.Base.Text.{Text, codes}
use th.Model.Types.{
  Kind, gre, vxlan, wireguard, amneziawg, xfrm_static, xfrm_ikev2, srv6, other_kind, Spec, Tunnel,
}
use th.Model.Check.{Check, ok, deref}
use th.Model.Library.{Library}
use th.Model.Validate.Wireguard.{validate_wire_guard, validate_amnezia_wg}
use th.Model.Validate.Xfrm.{validate_xfrm_static, validate_xfrm_ikev2}
use th.Model.Validate.{validate, validate_kind}
use th.Model.Runs.{validate-kind}
use th.Model.Secrets.{
  SecretField, redact_wire_guard, redact_static, redact_ikev2, redact_if, redact_amnezia_wg,
  redact_spec, redact_copy, redact, merge_wire_guard, merge_static, merge_ikev2, merge_both,
  merge_amnezia_wg, merge_spec, kind_eq, merge_secrets,
}
use th.Model.Secrets.Peers.{
  merge_wire_guard-redact, merge_static-redact, validate_wire_guard-DistinctKeys,
  merge_amnezia_wg-redact,
}
use th.Model.Secrets.Ikev2.{merge_ikev2-redact}

merge_both-redact {ℓ} :
    {A : Type ℓ} (check : A → Check) (merge : A → A → A) (f : A → A × List SecretField)
    (o : Option A)
    → ((a : A) → check a ≡ ok → merge (f a).0 a ≡ a)
    → deref o check ≡ ok
    → merge_both merge (redact_if f o).0 o ≡ o
merge_both-redact check merge f none keep h = refl
merge_both-redact check merge f (some a) keep h = ap (λ x. some x) (keep a h)

merge_spec-redact :
    (lib : Library) (trim_space : Text → Text) (k : Kind) (s : Spec)
    → validate_kind lib k s ≡ ok
    → merge_spec k (redact_spec trim_space k s).0 s ≡ s
unfolding merge_spec redact_spec validate_kind
merge_spec-redact lib trim_space gre s h = refl
merge_spec-redact lib trim_space vxlan s h = refl
merge_spec-redact lib trim_space srv6 s h = refl
merge_spec-redact lib trim_space (other_kind k) s h = refl
merge_spec-redact lib trim_space wireguard s h =
    let e =
      merge_both-redact (validate_wire_guard lib) merge_wire_guard
        (redact_wire_guard (codes "spec.wireguard")) s.wireguard_spec
        (λ w v.
          merge_wire_guard-redact (codes "spec.wireguard") w
            (validate_wire_guard-DistinctKeys lib w v))
        h in
    λ i. record s { wireguard_spec = e i }
merge_spec-redact lib trim_space amneziawg s h =
    let e =
      merge_both-redact (validate_amnezia_wg lib) merge_amnezia_wg redact_amnezia_wg
        s.amneziawg_spec (merge_amnezia_wg-redact lib) h in
    λ i. record s { amneziawg_spec = e i }
merge_spec-redact lib trim_space xfrm_static s h =
    let e =
      merge_both-redact validate_xfrm_static merge_static redact_static s.xfrm_static_spec
        (λ x v. merge_static-redact x) h in
    λ i. record s { xfrm_static_spec = e i }
merge_spec-redact lib trim_space xfrm_ikev2 s h =
    let e =
      merge_both-redact (validate_xfrm_ikev2 lib) merge_ikev2 (redact_ikev2 trim_space)
        s.xfrm_ikev2_spec (merge_ikev2-redact lib trim_space) h in
    λ i. record s { xfrm_ikev2_spec = e i }

kind_eq_refl : (k : Kind) → kind_eq k k ≡ true
kind_eq_refl gre = refl
kind_eq_refl vxlan = refl
kind_eq_refl wireguard = refl
kind_eq_refl amneziawg = refl
kind_eq_refl xfrm_static = refl
kind_eq_refl xfrm_ikev2 = refl
kind_eq_refl srv6 = refl
kind_eq_refl (other_kind k) = bytes_eq_refl k

-- A client that sends the redacted copy of a record back changes nothing: where the copy that `Clone`
-- makes of a valid record is equal to it, merging the redacted copy with the record is the record.
pub merge_secrets-redact :
    (lib : Library) (clone : Tunnel → Option Tunnel) (t c : Tunnel) (fields : List SecretField)
    → validate lib t ≡ ok
    → clone t ≡ some t
    → redact clone lib.trim_space t ≡ some (c, fields)
    → merge_secrets c t ≡ t
unfolding merge_secrets redact
merge_secrets-redact lib clone t c fields v e h =
    let (_, _, kind) = validate-kind lib t v in
    let r = redact_copy lib.trim_space t in
    let copied : redact clone lib.trim_space t ≡ some r = rw (e, redact) refl in
    let same : c ≡ r.0 = cc in
    let spec = merge_spec-redact lib lib.trim_space t.kind t.spec kind in
    ap (λ (x : Tunnel). merge_secrets x t) same
    ∙ (rw (kind_eq_refl t.kind) (λ i. record t { spec = spec i }))
