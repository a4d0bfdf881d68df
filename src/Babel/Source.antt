-- ===== src/Babel/Source.antt =====
-- Sources and feasibility: internal/babel/source.go and internal/babel/feasibility.go. The pointer
-- method returns the changed source; the garbage-collection time is a number of nanoseconds.
pub mod Distance
use th.Base.{ℕ, Bool, true, false, List, ◌&&◌, ◌||◌, ltb, ◌==◌, if◌then◌else◌}
use th.Proto.Types.{seqno_less}
use th.Proto.Addr.{Prefix}

pub record Source : Type 0 where
  pub prefix : Prefix
  pub router_id : List ℕ
  pub metric : ℕ
  pub seqno : ℕ
  pub gc : ℕ

unfoldable pub update_feasibility : Source → ℕ → ℕ → Source × Bool
update_feasibility s seqno metric =
    if seqno_less s.seqno seqno
    then (record s { seqno = seqno; metric = metric }, true)
    else if s.seqno == seqno && ltb metric s.metric
    then (record s { metric = metric }, true)
    else (s, false)

unfoldable pub feasible : Source → ℕ → ℕ → Bool
feasible s seqno metric = seqno_less s.seqno seqno || (s.seqno == seqno && ltb metric s.metric)

pub record FeasibilityDistance : Type 0 where
  pub seqno : ℕ
  pub metric : ℕ

unfoldable pub is_better : FeasibilityDistance → FeasibilityDistance → Bool
is_better d o = seqno_less o.seqno d.seqno || (d.seqno == o.seqno && ltb d.metric o.metric)
