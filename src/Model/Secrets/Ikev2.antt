-- ===== src/Model/Secrets/Ikev2.antt =====
-- The secrets of IKEv2 that Redact of internal/model/secrets.go takes and MergeSecrets of prepare.go puts back.
use th.Base.{
  ◌≡◌, refl, sym, ap, ◌∙◌, inl, inr, Bool, true, false, ◌&&◌, ◌||◌, not, ltb, [], ◌∷◌,
  if◌then◌else◌, Bool-cases, length,
}
use th.Base.Text.{Text, is_empty}
use th.Model.Types.{IkeAuthMethod, auth_psk, auth_rpk, other_auth, XfrmIkev2Spec}
use th.Model.Check.{ok, ◌>>◌, fail_if, short_psk, unexpected_rpk, >>-ok, fail_if-ok}
use th.Model.Library.{Library}
use th.Model.Validate.Xfrm.{check_ikev2, check_proposals, validate_xfrm_ikev2, validate_auth}
use th.Model.Secrets.{blank_if, redact_ikev2, or_else, is_psk, is_rpk, merge_auth, merge_ikev2}

empty : (s : Text) → not (is_empty s) ≡ false → s ≡ []
empty [] h = refl
empty (c ∷ s) h = cc

-- A blank that is filled from the value that was blanked.
fill-blank : (b : Bool) (s : Text) → or_else (blank_if b s) s ≡ s
fill-blank true s = refl
fill-blank false [] = refl
fill-blank false (c ∷ s) = refl

fill-same : (s : Text) → or_else s s ≡ s
fill-same [] = refl
fill-same (c ∷ s) = refl

fill-psk : (b : Bool) (s : Text) → (if is_empty (blank_if b s) && true then s else blank_if b s) ≡ s
fill-psk true s = refl
fill-psk false [] = refl
fill-psk false (c ∷ s) = refl

or4-false :
    (a b c d : Bool)
    → (a || b || c || d) ≡ false
    → (a ≡ false) × (b ≡ false) × (c ≡ false) × (d ≡ false)
or4-false true b c d h = cc
or4-false false true c d h = cc
or4-false false false true d h = cc
or4-false false false false true h = cc
or4-false false false false false h = (refl, refl, refl, refl)

-- The key material of the other method is empty.
psk-only :
    (lib : Library) (s : XfrmIkev2Spec)
    → validate_auth lib s auth_psk ≡ ok
    → (s.rpk_algorithm ≡ [])
      × (s.local_private_key ≡ [])
      × (s.local_public_key ≡ [])
      × (s.remote_public_key ≡ [])
unfolding validate_auth
psk-only lib s h =
    let rpk =
      not (is_empty s.rpk_algorithm)
      || not (is_empty s.local_private_key)
      || not (is_empty s.local_public_key)
      || not (is_empty s.remote_public_key) in
    let (_, second) =
      >>-ok (fail_if (ltb (length s.psk) 16) short_psk) (fail_if rpk unexpected_rpk) h in
    let (a, b, c, d) =
      or4-false (not (is_empty s.rpk_algorithm)) (not (is_empty s.local_private_key))
        (not (is_empty s.local_public_key)) (not (is_empty s.remote_public_key))
        (fail_if-ok rpk unexpected_rpk second) in
    (
      empty s.rpk_algorithm a,
      empty s.local_private_key b,
      empty s.local_public_key c,
      empty s.remote_public_key d,
    )

rpk-only : (lib : Library) (s : XfrmIkev2Spec) → validate_auth lib s auth_rpk ≡ ok → s.psk ≡ []
unfolding validate_auth
rpk-only lib s h = elim (Bool-cases (not (is_empty s.psk))) [
  | inl f ↦ cc (rw f at h)
  | inr f ↦ empty s.psk f
]

other_auth-fails :
    (lib : Library) (s : XfrmIkev2Spec) (a : Text) → validate_auth lib s (other_auth a) ≡ ok → ⊥
unfolding validate_auth
other_auth-fails lib s a h = cc

merge_auth-redact :
    (lib : Library) (trim_space : Text → Text) (s : XfrmIkev2Spec) (m : IkeAuthMethod)
    → s.auth_method ≡ m
    → validate_auth lib s m ≡ ok
    → merge_auth m (redact_ikev2 trim_space s).0 s ≡ s
unfolding merge_auth redact_ikev2
merge_auth-redact lib trim_space s auth_psk e h =
    let (algorithm, private, public, remote) = psk-only lib s h in
    let blank = blank_if (not (is_empty (trim_space s.psk))) s.psk in
    let psk : (if is_empty blank && is_psk s.auth_method then s.psk else blank) ≡ s.psk =
      ap (λ (m : Bool). if is_empty blank && m then s.psk else blank) (ap is_psk e)
      ∙ fill-psk (not (is_empty (trim_space s.psk))) s.psk in
    λ i. record s {
      rpk_algorithm = sym algorithm i;
      local_private_key = sym private i;
      local_public_key = sym public i;
      remote_public_key = sym remote i;
      psk = psk i;
    }
merge_auth-redact lib trim_space s auth_rpk e h =
    let n = (redact_ikev2 trim_space s).0 in
    let psk = rpk-only lib s h in
    let key = fill-blank (not (is_empty (trim_space s.local_private_key))) s.local_private_key in
    let public = fill-same s.local_public_key in
    let remote = fill-same s.remote_public_key in
    ap
      (λ (m : Bool).
        if m
        then record n {
          psk = [];
          local_private_key = or_else n.local_private_key s.local_private_key;
          local_public_key = or_else n.local_public_key s.local_public_key;
          remote_public_key = or_else n.remote_public_key s.remote_public_key;
        }
        else record n { psk = [] })
      (ap is_rpk e)
    ∙ (λ i. record s {
      psk = sym psk i;
      local_private_key = key i;
      local_public_key = public i;
      remote_public_key = remote i;
    })
merge_auth-redact lib trim_space s (other_auth a) e h = absurd (other_auth-fails lib s a h)

pub merge_ikev2-redact :
    (lib : Library) (trim_space : Text → Text) (s : XfrmIkev2Spec)
    → validate_xfrm_ikev2 lib s ≡ ok
    → merge_ikev2 (redact_ikev2 trim_space s).0 s ≡ s
unfolding validate_xfrm_ikev2 merge_ikev2 redact_ikev2
merge_ikev2-redact lib trim_space s h =
    let auth = validate_auth lib s s.auth_method in
    let (first, _) = >>-ok (check_ikev2 lib s >> auth) (check_proposals lib s) h in
    let (_, valid) = >>-ok (check_ikev2 lib s) auth first in
    merge_auth-redact lib trim_space s s.auth_method refl valid
