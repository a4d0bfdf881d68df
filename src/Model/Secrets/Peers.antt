-- ===== src/Model/Secrets/Peers.antt =====
-- The secrets of WireGuard peers that Redact of internal/model/secrets.go takes and MergeSecrets of prepare.go puts back.
use th.Base.{
  All-map, or_parts, ℕ, ◌+◌, ◌≡◌, refl, ap, ◌∙◌, inl, inr, true, false, not, List, [], ◌∷◌, none,
  some, All, Bool-cases, bytes_eq→eq, bytes_eq_refl,
}
use th.Base.Text.{Text, text_eq, codes}
use th.Model.Types.{
  WireGuardPeer, WireGuardSpec, AmneziaWgSpec, XfrmAlgorithm, aes_gcm, aes_cbc_sha256,
  other_algorithm, XfrmStaticSpec,
}
use th.Model.Check.{ok, >>-ok}
use th.Model.Library.{Library}
use th.Model.Validate.Wireguard.{
  is_some, has_text, validate_peer, peers_loop, check_wire_guard, validate_wire_guard,
  check_amnezia_wg, validate_amnezia_wg,
}
use th.Model.Secrets.{
  redact_peers, redact_wire_guard, redact_static, redact_amnezia_wg, find_peer, psk_or, merge_peers,
  merge_wire_guard, algorithm_eq, merge_static, merge_amnezia_wg,
}

-- No two peers have the same public key.
abbrev pub DistinctKeys : List WireGuardPeer → Type 0
DistinctKeys [] = Unit
DistinctKeys (p ∷ peers) =
    All (λ (q : WireGuardPeer). text_eq q.public_key p.public_key ≡ false) peers
    × DistinctKeys peers

text_eq_sym : (a b : Text) → text_eq a b ≡ false → text_eq b a ≡ false
text_eq_sym a b h = elim (Bool-cases (text_eq b a)) [
  | inr e ↦ e
  | inl e ↦
      let same : text_eq a b ≡ true =
        ap (λ (x : Text). text_eq a x) (bytes_eq→eq b a e) ∙ bytes_eq_refl a in
      cc
]

find_peer-none :
    (key : Text) (peers : List WireGuardPeer)
    → All (λ (q : WireGuardPeer). text_eq q.public_key key ≡ false) peers
    → find_peer key peers ≡ none
unfolding find_peer
find_peer-none key [] h = refl
find_peer-none key (q ∷ peers) (e, h) = rw (find_peer-none key peers h) (rw e refl)

abbrev IsFound : List WireGuardPeer → WireGuardPeer → Type 0
IsFound current p = find_peer p.public_key current ≡ some p

find_peer-IsFound : (peers : List WireGuardPeer) → DistinctKeys peers → All (IsFound peers) peers
unfolding find_peer
find_peer-IsFound [] h = tt
find_peer-IsFound (p ∷ peers) (others, h) = (
  rw (find_peer-none p.public_key peers others) (rw (bytes_eq_refl p.public_key) refl),
  All-map (λ (q : WireGuardPeer) (e : IsFound peers q). rw e refl) peers
      (find_peer-IsFound peers h),
)

merge_peers-redact_peers :
    (current peers : List WireGuardPeer)
    → All (IsFound current) peers
    → merge_peers current (redact_peers peers) ≡ peers
unfolding merge_peers redact_peers
merge_peers-redact_peers current [] h = refl
merge_peers-redact_peers current (p ∷ peers) (e, h) =
    let rest = merge_peers-redact_peers current peers h in
    let psk : psk_or [] (find_peer p.public_key current) ≡ p.preshared_key = ap (psk_or []) e in
    λ i. record p { preshared_key = psk i } ∷ rest i

pub merge_wire_guard-redact :
    (prefix : Text) (w : WireGuardSpec)
    → DistinctKeys w.peers
    → merge_wire_guard (redact_wire_guard prefix w).0 w ≡ w
unfolding merge_wire_guard redact_wire_guard
merge_wire_guard-redact prefix w h =
    let peers = merge_peers-redact_peers w.peers w.peers (find_peer-IsFound w.peers h) in
    λ i. record w { peers = peers i }

pub merge_static-redact : (s : XfrmStaticSpec) → merge_static (redact_static s).0 s ≡ s
unfolding merge_static redact_static
merge_static-redact s = rw (algorithm_eq_refl s.algorithm) refl
  where
    algorithm_eq_refl : (a : XfrmAlgorithm) → algorithm_eq a a ≡ true
    algorithm_eq_refl aes_gcm = refl
    algorithm_eq_refl aes_cbc_sha256 = refl
    algorithm_eq_refl (other_algorithm a) = bytes_eq_refl a

validate_peer-new :
    (lib : Library) (i : ℕ) (seen : List Text) (p : WireGuardPeer)
    → validate_peer lib i seen p ≡ ok
    → has_text seen p.public_key ≡ false
unfolding validate_peer
validate_peer-new lib i seen p h = elim (Bool-cases (has_text seen p.public_key)) [
  | inr e ↦ e
  | inl e ↦ elim (Bool-cases (not (is_some (lib.parse_key p.public_key)))) [
    | inl f ↦ cc (rw f at h)
    | inr f ↦ cc (rw e at (rw f at h))
  ]
]

peers_loop-DistinctKeys :
    (lib : Library) (i : ℕ) (seen : List Text) (peers : List WireGuardPeer)
    → peers_loop lib i seen peers ≡ ok
    → DistinctKeys peers × All (λ (q : WireGuardPeer). has_text seen q.public_key ≡ false) peers
unfolding peers_loop
peers_loop-DistinctKeys lib i seen [] h = (tt, tt)
peers_loop-DistinctKeys lib i seen (p ∷ peers) h =
    let (first, rest) =
      >>-ok (validate_peer lib i seen p) (peers_loop lib (i + 1) (p.public_key ∷ seen) peers) h in
    let (distinct, new) = peers_loop-DistinctKeys lib (i + 1) (p.public_key ∷ seen) peers rest in
    (
      (
        All-map
            (λ (q : WireGuardPeer) (e : has_text (p.public_key ∷ seen) q.public_key ≡ false).
              text_eq_sym p.public_key q.public_key
                (or_parts (text_eq p.public_key q.public_key) (has_text seen q.public_key) e).0)
            peers new,
        distinct,
      ),
      (
        validate_peer-new lib i seen p first,
        All-map
            (λ (q : WireGuardPeer) (e : has_text (p.public_key ∷ seen) q.public_key ≡ false).
              (or_parts (text_eq p.public_key q.public_key) (has_text seen q.public_key) e).1)
            peers new,
      ),
    )

pub validate_wire_guard-DistinctKeys :
    (lib : Library) (w : WireGuardSpec) → validate_wire_guard lib w ≡ ok → DistinctKeys w.peers
unfolding validate_wire_guard
validate_wire_guard-DistinctKeys lib w h =
    let (_, loop) = >>-ok (check_wire_guard lib w) (peers_loop lib 0 [] w.peers) h in
    (peers_loop-DistinctKeys lib 0 [] w.peers loop).0

pub merge_amnezia_wg-redact :
    (lib : Library) (a : AmneziaWgSpec)
    → validate_amnezia_wg lib a ≡ ok
    → merge_amnezia_wg (redact_amnezia_wg a).0 a ≡ a
unfolding validate_amnezia_wg
merge_amnezia_wg-redact lib a h =
    let (first, _) = >>-ok (validate_wire_guard lib a.wire_guard_spec) (check_amnezia_wg lib a) h in
    let w =
      merge_wire_guard-redact (codes "spec.amneziawg") a.wire_guard_spec
        (validate_wire_guard-DistinctKeys lib a.wire_guard_spec first) in
    λ i. record a { wire_guard_spec = w i }
