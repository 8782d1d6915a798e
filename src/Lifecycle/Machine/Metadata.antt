-- ===== src/Lifecycle/Machine/Metadata.antt =====
-- packages/lifecycle/src/output-machine.ts: `updateOutputMetadata`.
use arc_db.Base.{String, false, ◌≡◌, arith, ok}
use arc_db.Host.{Host}
use arc_db.Contracts.Digest.{Fields}
use arc_db.Contracts.Primitives.{parse_iso_date_time}
use arc_db.Contracts.Output.{Output, time_lt}
use arc_db.Lifecycle.Machine.{is_immutable, update_output_metadata}

-- An update that returns was made in a state outside the immutable set, changes the metadata and the
-- time alone, and does not move the time back.
pub update_output_metadata-eq-ok :
    (host : Host) (o q : Output) (m : Fields) (t : String)
    → update_output_metadata host o m t ≡ ok q
    → (is_immutable o.lifecycle_state ≡ false)
      × (q ≡ record o { metadata = m; updated_at = q.updated_at })
      × (time_lt (host.date_parse q.updated_at) (host.date_parse o.updated_at) ≡ false)
unfolding update_output_metadata parse_iso_date_time
update_output_metadata-eq-ok host o q m t h = (ground arith, ground arith, ground arith)
