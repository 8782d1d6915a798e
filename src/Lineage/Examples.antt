-- ===== src/Lineage/Examples.antt =====
-- A small graph of versions for the theorems on packages/lineage/src: the symbol `f` of the version a
-- is read by b, and c depends on all of b.
mod Selectors
mod Impact
mod Plans
use arc_db.Base.{String, List, [], ◌∷◌, none, some, false, Option, ok, err}
use arc_db.Contracts.Lineage.{Selector, symbol, Edge, read_from}
use arc_db.Contracts.Errors.{zod}
use arc_db.Lineage.Selectors.{unknown_selector}
use arc_db.Lineage.Impact.{Input, Delta}

abbrev pub symbol_f : Selector
symbol_f = record { kind = symbol; value = "f" }

abbrev pub edge_of : String → String → String → Option Selector → Edge
edge_of id source target selector = record {
  id = id;
  source_version_id = source;
  target_version_id = target;
  edge_type = read_from;
  selector = selector;
  transfer_function = none;
  inferred = false;
  confidence = none;
  created_at = "2026-01-01T00:00:00Z";
}

abbrev pub reads_f : Edge
reads_f = edge_of "e1" "a" "b" (some symbol_f)

abbrev pub reads_all : Edge
reads_all = edge_of "e2" "b" "c" none

abbrev pub sample_input : Input
sample_input = record {
  source_version_id = "a";
  delta = record { selectors = symbol_f ∷ []; before_digest = none; after_digest = none };
  edges = reads_f ∷ reads_all ∷ [];
  transfer_functions = λ name. none;
  current_fingerprints = λ id. none;
  fingerprint_resolver = none;
}
