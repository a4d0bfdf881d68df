-- ===== src/Babel/Routes.antt =====
-- The route table: internal/babel/route_table.go over internal/babel/internal/table/table.go, and the
-- routes of internal/babel/route.go. A neighbour is a pointer: `id` tells neighbours apart. A route is
-- the value that its pointer leads to.
pub mod Laws
use th.Base.{
  ℕ, Bool, true, false, ◌&&◌, not, ◌==◌, List, [], ◌∷◌, Option, none, some, if◌then◌else◌, length,
}
use th.Base.Int.{ℤ}
use th.Base.Maps.{lookup, insert, remove}
use th.Proto.Addr.{Addr, zero_addr, addr_eq, Prefix, prefix_eq}
use th.Babel.Source.{Source}

pub record Neighbour : Type 0 where
  pub id : ℕ
  pub address : Addr

pub record Route : Type 0 where
  pub source : Source
  pub neighbour : Option Neighbour
  pub advertised_metric : ℕ
  pub metric : ℕ
  pub smoothed_metric : ℕ
  pub seqno : ℕ
  pub next_hop : Addr
  pub feasible : Bool
  pub selected : Bool
  pub local : Bool
  pub expiry : Option ℕ
  pub expired : Bool
  pub path_bottleneck_mbps : ℤ
  pub path_rtt_micros : ℤ
  pub path_jitter_micros : ℤ
  pub path_metric_age_millis : ℤ
  pub path_metric_confidence : ℕ
  pub path_metrics_received_at : Option ℕ

pub record RouteKey : Type 0 where
  pub prefix : Prefix
  pub neighbour : Addr

abbrev pub key_eq : RouteKey → RouteKey → Bool
key_eq j k = prefix_eq j.prefix k.prefix && addr_eq j.neighbour k.neighbour

-- A local route has the zero address as its neighbour.
abbrev pub neighbour_address : Option Neighbour → Addr
neighbour_address none = zero_addr
neighbour_address (some n) = n.address

abbrev pub key : Route → RouteKey
key r = record { prefix = r.source.prefix; neighbour = neighbour_address r.neighbour }

abbrev pub RouteTable : Type 0
RouteTable = List (RouteKey × Route)

unfoldable pub lookup_route : RouteTable → Prefix → Addr → Option Route
lookup_route t pfx a = lookup key_eq (record { prefix = pfx; neighbour = a }) t

unfoldable pub lookup_by_neighbour : RouteTable → Prefix → Option Neighbour → Option Route
lookup_by_neighbour t pfx n =
    lookup key_eq (record { prefix = pfx; neighbour = neighbour_address n }) t

unfoldable pub insert_route : RouteTable → Route → RouteTable
insert_route t r = insert key_eq (key r) r t

unfoldable pub remove_route : RouteTable → Route → RouteTable
remove_route t r = remove key_eq (key r) t

unfoldable pub all_routes : RouteTable → List Route
all_routes [] = []
all_routes ((k, r) ∷ t) = r ∷ all_routes t

unfoldable pub for_prefix : RouteTable → Prefix → List Route
for_prefix [] pfx = []
for_prefix ((k, r) ∷ t) pfx =
    if prefix_eq k.prefix pfx then r ∷ for_prefix t pfx else for_prefix t pfx

-- `r.Neighbour == n`, for a neighbour `n` that is no nil pointer.
abbrev pub is_from : Neighbour → Route → Bool
is_from n r = elim r.neighbour [ none ↦ false | some m ↦ m.id == n.id ]

unfoldable pub routes_from : RouteTable → Neighbour → List Route
routes_from [] n = []
routes_from ((k, r) ∷ t) n = if is_from n r then r ∷ routes_from t n else routes_from t n

unfoldable pub remove_all : RouteTable → List Route → RouteTable
unfolding remove_route
remove_all t [] = t
remove_all t (r ∷ rs) = remove_all (remove_route t r) rs

unfoldable pub remove_neighbour : RouteTable → Neighbour → RouteTable
unfolding remove_all routes_from
remove_neighbour t n = remove_all t (routes_from t n)
