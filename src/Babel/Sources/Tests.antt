-- ===== src/Babel/Sources/Tests.antt =====
-- A concrete source table of internal/babel.
use th.Base.{◌≡◌, refl, [], ◌∷◌}
use th.Proto.Addr.{zero_prefix}
use th.Babel.Source.{Source}
use th.Babel.Sources.{SourceTable, source_key, lookup_source, sweep_sources}
use th.Babel.Sources.Keys.{IsSourceTable}
use th.Babel.Sources.Sweep.{if_not_old, lookup_source-sweep_sources}
use th.Base.Maps.{lookup}

-- An old source and one that is not.
abbrev old_source : Source
old_source = record {
  prefix = zero_prefix;
  router_id = (1 ∷ []);
  metric = 100;
  seqno = 65535;
  gc = 5;
}

abbrev young_source : Source
young_source = record { prefix = zero_prefix; router_id = (2 ∷ []); metric = 7; seqno = 3; gc = 50 }

abbrev sources : SourceTable
sources = (source_key old_source, old_source) ∷ (source_key young_source, young_source) ∷ []

sources-IsSourceTable : IsSourceTable sources
unfolding lookup
sources-IsSourceTable = (refl, refl, (refl, refl, tt))

lookup_source-sweep_sources_example :
    lookup_source (sweep_sources 10 sources) zero_prefix (1 ∷ [])
    ≡ if_not_old 10 (lookup_source sources zero_prefix (1 ∷ []))
lookup_source-sweep_sources_example =
    lookup_source-sweep_sources 10 sources zero_prefix (1 ∷ []) sources-IsSourceTable
