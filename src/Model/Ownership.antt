-- ===== src/Model/Ownership.antt =====
-- What a tunnel record owns outside its interface: internal/model/ownership.go. SHA-256 is the
-- `sha256` of the library, a list of bytes.
use Prim.Native.Nat.{max}
pub mod Allocate
use th.Base.{
  ℕ, zero, suc, ◌+◌, ◌*◌, ◌%◌, ◌^◌, Bool, false, ◌&&◌, ◌||◌, not, ltb, ◌==◌, List, [], ◌∷◌, ◌++◌,
  Option, none, some, get_or, if◌then◌else◌,
}
use th.Base.Int.{ℤ, pos, below, above, is_zero}
use th.Base.Text.{Text}
use th.Proto.Addr.{Prefix, masked}
use th.Model.Types.{
  Kind, wireguard, amneziawg, srv6, WireGuardPeer, WireGuardSpec, AmneziaWgSpec, Srv6Source,
  Srv6Spec, Tunnel,
}
use th.Model.Library.{Library}
use th.Model.Validate.Common.{has_prefix}
use th.Model.Validate.Srv6.{srv6_rule_priority_min, srv6_rule_priority_max, has_int}

abbrev pub main_route_table : ℕ
main_route_table = 254

abbrev pub srv6_auto_rule_priority_min : ℕ
srv6_auto_rule_priority_min = 20000

abbrev pub srv6_auto_rule_priority_max : ℕ
srv6_auto_rule_priority_max = 29999

abbrev pub managed_route_realm_prefix : ℕ
managed_route_realm_prefix = 0x40000000

pub record RouteClaim : Type 0 where
  pub table : ℤ
  pub prefix : Prefix

-- `binary.BigEndian.Uint32(digest[i:i+4])` and `Uint16(digest[i:i+2])`
abbrev pub uint32_at : Text → ℕ → ℕ
uint32_at d i =
    ((get_or d i 0 * 256 + get_or d (i + 1) 0) * 256 + get_or d (i + 2) 0) * 256
    + get_or d (i + 3) 0

abbrev pub uint16_at : Text → ℕ → ℕ
uint16_at d i = get_or d i 0 * 256 + get_or d (i + 1) 0

-- The loop of `AllocateSRv6RulePriority` with `n` priorities left from `p` on.
unfoldable pub allocate_loop : List ℤ → ℕ → ℕ → Option ℕ
allocate_loop used p zero = none
allocate_loop used p (suc n) =
    let rest = allocate_loop used (p + 1) n in if has_int used (pos p) then rest else some p

unfoldable pub allocate_srv6_rule_priority : List ℤ → Option ℕ
allocate_srv6_rule_priority used = allocate_loop used srv6_auto_rule_priority_min 10000

abbrev pub is_rule_priority : ℤ → Bool
is_rule_priority z = not (below z srv6_rule_priority_min) && not (above z srv6_rule_priority_max)

abbrev pub nat_of : ℤ → ℕ
nat_of (pos n) = n
nat_of _ = 0

-- The first loop of `NextSRv6SourcePriority`: `used` and `highest`.
unfoldable pub used_priorities : List Srv6Source → List ℤ
used_priorities [] = []
used_priorities (s ∷ sources) =
    if is_rule_priority s.priority
    then s.priority ∷ used_priorities sources
    else used_priorities sources

unfoldable pub highest_priority : ℕ → List Srv6Source → ℕ
highest_priority highest [] = highest
highest_priority highest (s ∷ sources) =
    highest_priority
      (if is_rule_priority s.priority && ltb highest (nat_of s.priority)
        then nat_of s.priority
        else highest)
      sources

abbrev pub or_zero : Option ℕ → ℕ
or_zero none = 0
or_zero (some p) = p

unfoldable pub next_srv6_source_priority : List Srv6Source → ℕ
next_srv6_source_priority sources =
    let highest = highest_priority 0 sources in
    if ltb highest srv6_rule_priority_max
    then max srv6_rule_priority_min (highest + 1)
    else or_zero
        (allocate_loop (used_priorities sources) srv6_rule_priority_min srv6_rule_priority_max)

abbrev pub is_default : Prefix → Bool
is_default p = p.bits_plus_one == 1

abbrev pub any_default : List Prefix → Bool
any_default [] = false
any_default (p ∷ prefixes) = is_default p || any_default prefixes

unfoldable pub wire_guard_has_default_route : List WireGuardPeer → Bool
wire_guard_has_default_route [] = false
wire_guard_has_default_route (peer ∷ peers) =
    any_default peer.allowed_ips || wire_guard_has_default_route peers

-- The loops of `ManagedRouteClaims`: the inner one over the prefixes of all peers, in order.
unfoldable pub claims_of : ℤ → List Prefix → List Prefix → List RouteClaim
claims_of table seen [] = []
claims_of table seen (p ∷ prefixes) =
    let again = claims_of table seen prefixes in
    let first = claims_of table (masked p ∷ seen) prefixes in
    if has_prefix seen (masked p)
    then again
    else record { table = table; prefix = masked p } ∷ first

abbrev pub all_allowed_ips : List WireGuardPeer → List Prefix
all_allowed_ips [] = []
all_allowed_ips (peer ∷ peers) = peer.allowed_ips ++ all_allowed_ips peers

-- The specification that the claims of a tunnel come from.
abbrev pub wire_guard_of : Kind → Option WireGuardSpec → Option AmneziaWgSpec → Option WireGuardSpec
wire_guard_of wireguard w a = w
wire_guard_of amneziawg w (some a) = some a.wire_guard_spec
wire_guard_of _ _ _ = none

unfoldable pub exclusive_tables_of : Kind → Option Srv6Spec → List ℤ
exclusive_tables_of srv6 (some s) = s.table ∷ []
exclusive_tables_of _ _ = []

unfoldable pub exclusive_route_tables : Tunnel → List ℤ
exclusive_route_tables t = exclusive_tables_of t.kind t.spec.srv6_spec

module _ (lib : Library) where
  unfoldable pub managed_route_realm : Tunnel → ℕ
  managed_route_realm t = managed_route_realm_prefix + uint32_at (lib.sha256 t.id) 8 % 2 ^ 30

  abbrev pub rule_base : Tunnel → ℕ
  rule_base t = 100000 + uint32_at (lib.sha256 t.id) 0 % 900000 * 2

  unfoldable pub rule_priorities_of : Tunnel → Kind → Option Srv6Spec → List ℤ
  rule_priorities_of t wireguard s = pos (rule_base t) ∷ pos (rule_base t + 1) ∷ []
  rule_priorities_of t amneziawg s = pos (rule_base t) ∷ pos (rule_base t + 1) ∷ []
  rule_priorities_of t srv6 (some s) = if is_zero s.rule_priority then [] else s.rule_priority ∷ []
  rule_priorities_of t _ _ = []

  unfoldable pub managed_rule_priorities : Tunnel → List ℤ
  managed_rule_priorities t = rule_priorities_of t t.kind t.spec.srv6_spec

  unfoldable pub wire_guard_route_table : Tunnel → WireGuardSpec → ℤ
  wire_guard_route_table t spec =
      if not (is_zero spec.route_table)
      then spec.route_table
      else if wire_guard_has_default_route spec.peers
      then pos (51820 + uint16_at (lib.sha256 t.id) 0 % 10000)
      else pos main_route_table

  unfoldable pub route_claims_of : Tunnel → Option WireGuardSpec → List RouteClaim
  route_claims_of t none = []
  route_claims_of t (some spec) =
      if spec.route_allowed_ips
      then claims_of (wire_guard_route_table t spec) [] (all_allowed_ips spec.peers)
      else []

  unfoldable pub managed_route_claims : Tunnel → List RouteClaim
  managed_route_claims t =
      route_claims_of t (wire_guard_of t.kind t.spec.wireguard_spec t.spec.amneziawg_spec)
