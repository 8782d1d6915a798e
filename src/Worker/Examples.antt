-- ===== src/Worker/Examples.antt =====
-- Sample data for apps/worker/src: a connector, the world of one job and an effect.
mod Jobs
mod Queue
mod Delays
mod Receipts
use mathlib.Core.List.{Memᴰ}
use arc_db.Base.{
  true, false, ◌≡◌, refl, sym, subst, All, find, ◌⊎◌, none, some, [], ◌∷◌, append-nil, ok, ◌≤◌, ◌+◌,
  ◌*◌,
}
use arc_db.Base.Sort.{sort}
use arc_db.Contracts.Digest.{
  obj, field, str, end, canonical_digest, canonicalize, canonicalize_value,
}
use arc_db.Contracts.Effect.{
  Capabilities, prepared, executing, committed, compensation_pending, r1, low,
}
use arc_db.Lifecycle.Examples.{sample_host}
use arc_db.Lifecycle.Effects.{can_transition_effect}
use arc_db.Lifecycle.Effects.Graph.{here}
use arc_db.Worker.Connector.{
  Intent, Draft, Connector, automatic_write, ExecuteOutcome, ReconcileOutcome, CompensateOutcome,
  Registry, is_allowed, has_type, resolve_for_intent, resolve, same_capabilities, register,
  check_capabilities,
}
use arc_db.Worker.Connector.Registered.{IsSafe, register-IsSafe, Suits, resolve_for_intent-Suits}
use arc_db.Worker.World.{Env, World, Call, ◌>>=◌, catch}
use arc_db.Worker.Store.{store_transition, begin_external_operation, append_receipt}
use arc_db.Worker.Runtime.{
  Job, transition, begin, resolve_connector_or_mark_reconciliation, assert_external_fence,
  persist_receipt, execution_receipt, compensation_receipt, terminal_status, lease_seconds,
}
use arc_db.Worker.Runtime.Execute.{
  reconcile_intent, reconcile_effect, advance, execute_prepared, check_approval,
  handle_execution_outcome, finalize_execution_receipt,
}
use arc_db.Worker.Runtime.Compensate.{
  compensate_intent, run_compensation, advance_compensation, compensate,
  finalize_compensation_receipt,
}
use arc_db.Worker.Safety.{
  IsFirstExecution, reconcile_intent-IsFirstExecution, compensate_intent-MayUndo, Extends,
  jobs-Extends, jobs-Steps, lease_seconds_lem,
}

abbrev pub sample_capabilities : Capabilities
sample_capabilities = record {
  idempotency_key = true;
  query_by_idempotency_key = true;
  query_by_external_id = false;
  conditional_write = false;
  fencing_token = true;
  compensation = true;
  state_digests = false;
  dry_run = false;
  human_approval = true;
  reversibility = r1;
}

abbrev pub sample_draft : Draft
sample_draft = record {
  external_transaction_id = some "x9";
  external_status = "sent";
  before_digest = none;
  after_digest = none;
  actual_effects = end;
  raw_response_ref = none;
  committed_at = none;
}

-- A connector whose calls all succeed.
abbrev pub sample_connector : Connector
sample_connector = record {
  type = "mail";
  mode = automatic_write;
  capabilities = sample_capabilities;
  execute = λ n i. ok (ExecuteOutcome.succeeded sample_draft);
  reconcile = λ n i. ok (ReconcileOutcome.found sample_draft);
  compensate = some λ n i. ok (CompensateOutcome.succeeded sample_draft);
  reconcile_compensation = none;
}

abbrev pub sample_registry : Registry
sample_registry = record { connectors = sample_connector ∷ []; allowlist = none }

-- No other process is at work, and every fence holds.
abbrev pub sample_env : Env
sample_env = record {
  host = sample_host;
  registry = sample_registry;
  job_fence = λ n. none;
  job_current = λ n. true;
  resource_current = λ n i. true;
  acquired = λ n. "2";
  others = λ n s. s;
  now = λ n. "2026-01-02";
  approval_guard = none;
  after_external_success = λ n. none;
  after_receipt_persisted = λ n. none;
  after_compensation_success = λ n. none;
  receipt_id = λ i marker draft. "r1";
  is_uuid = λ s. true;
}

abbrev pub sample_row : Intent
sample_row = record {
  id = "i1";
  tenant_id = "t1";
  project_id = "p1";
  source_output_version_id = "v1";
  connector_type = "mail";
  connector_capabilities = some sample_capabilities;
  target = "inbox";
  resource_key = "k1";
  arguments_ref = "a1";
  preconditions = end;
  expected_effects = end;
  read_set = [];
  write_set = [];
  base_resource_version = none;
  idempotency_key = "once";
  fencing_token = some "1";
  reversibility = r1;
  compensation_handler = some "recall";
  risk_level = low;
  status = prepared;
  created_at = "2026-01-01";
  updated_at = "2026-01-01";
}

abbrev pub sample_job : Job
sample_job = record {
  id = "j1";
  tenant_id = "t1";
  project_id = some "p1";
  timeout_ms = 60000;
  payload = obj (field "intentId" (str "i1") end);
}

abbrev pub world_of : Intent → World
world_of i = record { moment = 0; store = record { intent = some i; receipts = [] }; calls = [] }

abbrev pub running_row : Intent
running_row = record sample_row { status = executing; fencing_token = some "2" }
