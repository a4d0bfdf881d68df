-- ===== src/Babel/Cost/Metric.antt =====
-- The additive metric of internal/babel/cost.go along a path.
use Prim.Native.Nat.{min}
use th.Base.{
  ℕ, ◌+◌, ◌<◌, ◌≤◌, ◌≡◌, List, [], ◌∷◌, All, Bool, true, false, ◌||◌, ◌==◌, if◌then◌else◌, arith,
}
use th.Proto.Types.{IsU16, retraction}
use th.Babel.Cost.{default_metric, add_metric_penalty}

-- A better advertised metric never makes a worse route.
pub default_metric-monotone :
    (cost a b : ℕ) → IsU16 cost → IsU16 b → a ≤ b → default_metric cost a ≤ default_metric cost b
unfolding default_metric
default_metric-monotone cost a b hc hb l = ground arith

-- The metric at the end of a path of links, and what it should be.
unfoldable pub path_metric : List ℕ → ℕ → ℕ
unfolding default_metric
path_metric [] advertised = advertised
path_metric (c ∷ costs) advertised = default_metric c (path_metric costs advertised)

abbrev pub sum : List ℕ → ℕ
sum [] = 0
sum (c ∷ costs) = c + sum costs

abbrev pub is_down : List ℕ → Bool
is_down [] = false
is_down (c ∷ costs) = c == retraction || is_down costs

metric_step :
    (c s a : ℕ) (down : Bool)
    → IsU16 c
    → IsU16 a
    → default_metric c (if down || a == retraction then retraction else min (s + a) 65534)
      ≡ (if (c == retraction || down) || a == retraction then retraction else min (c + s + a) 65534)
unfolding default_metric
metric_step c s a true hc ha = ground arith
metric_step c s a false hc ha = ground arith

-- Along a path, the metric is infinite if a link is down or the source retracted, else the sum of
-- the costs, saturated at 65534.
pub path_metric-sum :
    (costs : List ℕ) (advertised : ℕ)
    → All IsU16 costs
    → IsU16 advertised
    → path_metric costs advertised ≡ (
        if is_down costs || advertised == retraction
        then retraction
        else min (sum costs + advertised) 65534)
unfolding path_metric
path_metric-sum [] a hs ha = ground arith
path_metric-sum (c ∷ costs) a (h, hs) ha =
    rw (path_metric-sum costs a hs ha) (metric_step c (sum costs) a (is_down costs) h ha)

-- Where the penalty is finite, adding it is the additive metric.
pub add_metric_penalty-default_metric :
    (metric penalty : ℕ)
    → IsU16 metric
    → penalty < 65535
    → add_metric_penalty metric penalty ≡ default_metric metric penalty
unfolding add_metric_penalty default_metric
add_metric_penalty-default_metric m p hm hp = ground arith
