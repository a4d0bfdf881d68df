-- ===== src/Babel/Sources/Send.antt =====
-- sourceFeasibilityLocked of internal/babel/speaker.go against the feasibility test of
-- onUpdateReceived.
use th.Base.{ℕ, Option, none, some}
use th.Babel.Source.{Source, update_feasibility}
use th.Babel.Sources.{SourceKey}

-- The source that a sent update leaves.
abbrev pub sent : ℕ → Option Source → SourceKey → ℕ → ℕ → Source
sent gc none k seqno metric = record {
  prefix = k.prefix;
  router_id = k.router_id;
  metric = metric;
  seqno = seqno;
  gc = gc;
}
sent gc (some s) k seqno metric = record (update_feasibility s seqno metric).0 { gc = gc }
