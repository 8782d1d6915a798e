-- ===== src/Lifecycle/Examples.antt =====
-- Sample data for packages/lifecycle: a platform, an output, its evidence and policy, and an effect.
mod Machine
mod Policies
mod Effects
use arc_db.Base.{ℕ, String, Bool, true, false, Option, none, some, List, [], ◌∷◌}
use arc_db.Host.{Host}
use arc_db.Contracts.Digest.{end}
use arc_db.Contracts.Output.{Output, OutputType, OutputState}
use arc_db.Contracts.Evidence.{Evidence, Verdict}
use arc_db.Contracts.Effect.{EffectIntent, EffectReceipt, EffectStatus, r1, low, prepared}
use arc_db.Lifecycle.Policy.Evaluate.{Policy, Requirement}
use arc_db.Lifecycle.Machine.{TransitionInput, ProvenanceClosure, FencingToken, HeadReservation}

-- A platform that trims nothing and takes every text for the same instant and the same digest.
abbrev pub sample_host : Host
sample_host = record {
  trim = λ s. s;
  utf16_length = λ s. 1;
  iso_date_time = λ s. true;
  date_parse = λ s. some 0;
  string_leb = λ a b. true;
  locale_leb = λ a b. true;
  json_string = λ s. s;
  index_text = λ n. "0";
  sha256_hex = λ s. "ab";
}

abbrev pub sample_output : Output
sample_output = record {
  id = "o1";
  tenant_id = "t1";
  project_id = "p1";
  logical_id = "l1";
  version_id = "v1";
  output_type = OutputType.text;
  schema_id = none;
  content_ref = "c1";
  content_digest = "d1";
  producer_run_id = none;
  producer_agent_id = none;
  parent_version_ids = [];
  policy_version = none;
  lifecycle_state = OutputState.created;
  metadata = end;
  created_at = "2026-01-01";
  updated_at = "2026-01-01";
}

abbrev pub sample_evidence : Evidence
sample_evidence = record {
  id = "e1";
  tenant_id = "t1";
  subject_version_id = "v1";
  verifier_type = "tests";
  verifier_version = "1";
  environment_digest = none;
  dependency_digests = [];
  policy_version = some "7";
  verdict = Verdict.pass;
  confidence = none;
  metrics = end;
  payload_ref = none;
  fingerprint = "sha256:ab";
  expires_at = none;
  created_at = "2026-01-01";
}

abbrev pub sample_requirement : Requirement
sample_requirement = record {
  id = "q1";
  verifier_type = "tests";
  verifier_version = none;
  environment_digest = none;
  dependency_digests = none;
  policy_version = none;
  max_age_seconds = none;
  minimum_confidence = none;
}

abbrev pub sample_policy : Policy
sample_policy = record { id = "g1"; version = "7"; required_evidence = sample_requirement ∷ [] }

-- A request that carries all that any state asks for.
abbrev pub request_to : OutputState → TransitionInput
request_to to = record {
  event_id = "x1";
  output = sample_output;
  to = to;
  occurred_at = "2026-01-02";
  reason = none;
  evidence = some (sample_evidence ∷ []);
  evidence_policy = some sample_policy;
  provenance = some (record { complete = true; missing_version_ids = [] });
  head_reservation = some (record { expected_head = some "v0"; current_head = some "v0" });
  fence = some (record { resource_key = "k1"; presented_token = 3; current_token = 3 });
}

abbrev pub sample_intent : EffectIntent
sample_intent = record {
  id = "i1";
  tenant_id = "t1";
  source_output_version_id = "v1";
  connector_type = "mail";
  target = "inbox";
  resource_key = "k1";
  arguments_ref = "a1";
  preconditions = end;
  expected_effects = end;
  read_set = [];
  write_set = [];
  base_resource_version = none;
  idempotency_key = "once";
  reversibility = r1;
  compensation_handler = none;
  risk_level = low;
  status = prepared;
  created_at = "2026-01-01";
}

abbrev pub sample_receipt : EffectReceipt
sample_receipt = record {
  id = "r1";
  intent_id = "i1";
  external_transaction_id = none;
  external_status = "sent";
  before_digest = none;
  after_digest = none;
  actual_effects = end;
  raw_response_ref = none;
  compensation_status = none;
  committed_at = none;
  created_at = "2026-01-01";
}
