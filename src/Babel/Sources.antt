-- ===== src/Babel/Sources.antt =====
-- The source table: internal/babel/source_table.go over internal/babel/internal/table/table.go, and the
-- code of internal/babel/speaker.go that keeps it: sourceFeasibilityLocked, the feasibility test of
-- onUpdateReceived and the sweep of old sources. The table holds pointers, so a source that is changed
-- in place is changed under the key that led to it. Times are nanoseconds since Go's zero time.
pub mod Keys
pub mod Send
pub mod Sweep
mod Tests
use th.Base.{
  ℕ, ◌+◌, Bool, true, false, ◌&&◌, ◌||◌, not, ltb, ◌==◌, List, [], ◌∷◌, Option, none, some,
  if◌then◌else◌, bytes_eq,
}
use th.Base.Maps.{lookup, insert, remove}
use th.Proto.Types.{retraction}
use th.Proto.Addr.{Prefix, prefix_eq}
use th.Babel.Source.{Source, update_feasibility, feasible}

pub record SourceKey : Type 0 where
  pub prefix : Prefix
  pub router_id : List ℕ

abbrev pub source_key_eq : SourceKey → SourceKey → Bool
source_key_eq j k = prefix_eq j.prefix k.prefix && bytes_eq j.router_id k.router_id

abbrev pub source_key : Source → SourceKey
source_key s = record { prefix = s.prefix; router_id = s.router_id }

abbrev pub SourceTable : Type 0
SourceTable = List (SourceKey × Source)

unfoldable pub lookup_source : SourceTable → Prefix → List ℕ → Option Source
lookup_source t pfx rid = lookup source_key_eq (record { prefix = pfx; router_id = rid }) t

unfoldable pub insert_source : SourceTable → Source → SourceTable
insert_source t s = insert source_key_eq (source_key s) s t

unfoldable pub remove_source : SourceTable → Prefix → List ℕ → SourceTable
remove_source t pfx rid = remove source_key_eq (record { prefix = pfx; router_id = rid }) t

unfoldable pub all_sources : SourceTable → List Source
all_sources [] = []
all_sources ((k, s) ∷ t) = s ∷ all_sources t

-- The two branches of `sourceFeasibilityLocked`, on what `Lookup` found; `gc` is the time from which
-- the source is old.
unfoldable pub update_source :
    ℕ → SourceTable → Prefix → List ℕ → ℕ → ℕ → Option Source → SourceTable
update_source gc t pfx rid seqno metric none =
    insert_source t
      (record { prefix = pfx; router_id = rid; metric = metric; seqno = seqno; gc = gc })
update_source gc t pfx rid seqno metric (some src) =
    insert source_key_eq (record { prefix = pfx; router_id = rid })
      (record (update_feasibility src seqno metric).0 { gc = gc }) t

-- `now` is the time at the call and `source_gc_time` the configured time to keep a source.
unfoldable pub source_feasibility : ℕ → ℕ → SourceTable → Prefix → List ℕ → ℕ → ℕ → SourceTable
source_feasibility now source_gc_time t pfx rid seqno metric =
    update_source (now + source_gc_time) t pfx rid seqno metric (lookup_source t pfx rid)

unfoldable pub is_feasible : SourceTable → Prefix → List ℕ → ℕ → ℕ → Bool
is_feasible t pfx rid seqno metric =
    metric == retraction
    || elim (lookup_source t pfx rid) [ none ↦ true | some src ↦ feasible src seqno metric ]

unfoldable pub is_old : ℕ → Source → Bool
is_old now s = not (s.gc == 0) && ltb s.gc now

unfoldable pub remove_old : ℕ → List Source → SourceTable → SourceTable
remove_old now [] t = t
remove_old now (s ∷ sources) t =
    remove_old now sources (if is_old now s then remove_source t s.prefix s.router_id else t)

unfoldable pub sweep_sources : ℕ → SourceTable → SourceTable
sweep_sources now t = remove_old now (all_sources t) t
