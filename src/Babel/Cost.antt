-- ===== src/Babel/Cost.antt =====
-- Link costs and route metrics: internal/babel/cost.go.
pub mod Metric
pub mod Hellos
use th.Base.{ℕ, ◌+◌, ◌*◌, ◌/◌, ◌-◌, Bool, ◌||◌, Option, none, some, leb, ◌==◌, if◌then◌else◌}
use th.Proto.Types.{retraction}
use th.Babel.History.{HelloHistory, out_of}

-- The fields of `Neighbour` that the default reception cost reads.
pub record Reception : Type 0 where
  pub hello_unicast : HelloHistory
  pub hello_multicast : HelloHistory
  pub cost_override : Option ℕ

abbrev pub override_or : Option ℕ → ℕ → ℕ
override_or none nominal = nominal
override_or (some override) nominal = override

unfoldable pub default_rx_cost : Reception → ℕ → ℕ
default_rx_cost n nominal =
    if out_of n.hello_unicast 2 3 || out_of n.hello_multicast 2 3
    then override_or n.cost_override nominal
    else retraction

unfoldable pub default_combine : ℕ → ℕ → ℕ
default_combine rxcost txcost = if rxcost == retraction then retraction else txcost

unfoldable pub default_metric : ℕ → ℕ → ℕ
default_metric cost advertised =
    if cost == retraction || advertised == retraction
    then retraction
    else let sum = cost + advertised in if leb retraction sum then retraction - 1 else sum

-- `bps` is a uint64; the product does not leave it.
unfoldable pub bandwidth_cost : ℕ → ℕ
bandwidth_cost bps =
    let kbps = bps / 1000 in
    if kbps == 0
    then retraction
    else let cost = 256 * (1 + 1000000 / kbps) in
      if leb retraction cost then retraction - 1 else cost

unfoldable pub add_metric_penalty : ℕ → ℕ → ℕ
add_metric_penalty metric penalty =
    if metric == retraction
    then retraction
    else if leb retraction (metric + penalty)
    then retraction - 1
    else metric + penalty
