-- ===== src/Worker/Examples/Receipts.antt =====
-- The theorems on manual receipts and on stored errors, each at one receipt or error.
use arc_db.Base.{none, some, []}
use arc_db.Contracts.Digest.{end}
use arc_db.Contracts.Effect.{prepared, committed}
use arc_db.Worker.World.{Receipt}
use arc_db.Worker.Manual.{record_manual_receipt}
use arc_db.Worker.Manual.Recorded.{Recorded, record_manual_receipt-Recorded}
use arc_db.Worker.Examples.{sample_env, sample_row, world_of}

abbrev sample_receipt : Receipt
sample_receipt = record {
  id = "r1";
  tenant_id = "t1";
  project_id = "p1";
  intent_id = "i1";
  sequence = 0;
  external_transaction_id = none;
  external_status = "posted";
  before_digest = none;
  after_digest = none;
  actual_effects = end;
  raw_response_ref = none;
  compensation_status = none;
  committed_at = none;
  created_at = "";
}

record_manual_receipt-Recorded_example :
    Recorded
      (sample_env.now 1)
      sample_receipt
      prepared
      committed
      (record { intent = some sample_row; receipts = [] })
      (record_manual_receipt sample_env sample_receipt prepared committed (world_of sample_row))
record_manual_receipt-Recorded_example =
    record_manual_receipt-Recorded sample_env sample_receipt prepared committed
      (world_of sample_row)
