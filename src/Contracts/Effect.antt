-- ===== src/Contracts/Effect.antt =====
-- packages/contracts/src/effect.ts: effect intents, their receipts and what a connector can do.
use arc_db.Base.{
  ℕ, String, Bool, true, false, not, ◌&&◌, Option, List, eqb, leb, Result, ok, err, throw_if, ◌>>=◌,
  ◌>>◌, is_some, if◌then◌else◌,
}
use arc_db.Host.{Host}
use arc_db.Contracts.Errors.{Fault, zod}
use arc_db.Contracts.Digest.{Fields}
use arc_db.Contracts.Primitives.{
  has_unique_values, parse_identifier, parse_digest, parse_iso_date_time, parse_option, parse_list,
}

pub data Reversibility : Type 0 where
  r0 r1 r2 r3 : Reversibility

abbrev pub reversibility_index : Reversibility → ℕ
reversibility_index r0 = 0
reversibility_index r1 = 1
reversibility_index r2 = 2
reversibility_index r3 = 3

abbrev pub same_reversibility : Reversibility → Reversibility → Bool
same_reversibility a b = eqb (reversibility_index a) (reversibility_index b)

pub data RiskLevel : Type 0 where
  low medium high critical : RiskLevel

pub data EffectStatus : Type 0 where
  prepared executing committed failed compensation_pending compensated : EffectStatus
  remediation_required irreversible_committed reconciliation_required : EffectStatus

abbrev pub status_index : EffectStatus → ℕ
status_index prepared = 0
status_index executing = 1
status_index committed = 2
status_index failed = 3
status_index compensation_pending = 4
status_index compensated = 5
status_index remediation_required = 6
status_index irreversible_committed = 7
status_index reconciliation_required = 8

abbrev pub same_status : EffectStatus → EffectStatus → Bool
same_status a b = eqb (status_index a) (status_index b)

abbrev pub status_name : EffectStatus → String
status_name prepared = "PREPARED"
status_name executing = "EXECUTING"
status_name committed = "COMMITTED"
status_name failed = "FAILED"
status_name compensation_pending = "COMPENSATION_PENDING"
status_name compensated = "COMPENSATED"
status_name remediation_required = "REMEDIATION_REQUIRED"
status_name irreversible_committed = "IRREVERSIBLE_COMMITTED"
status_name reconciliation_required = "RECONCILIATION_REQUIRED"

pub record EffectIntent : Type 0 where
  pub id : String
  pub tenant_id : String
  pub source_output_version_id : String
  pub connector_type : String
  pub target : String
  pub resource_key : String
  pub arguments_ref : String
  pub preconditions : Fields
  pub expected_effects : Fields
  pub read_set : List String
  pub write_set : List String
  pub base_resource_version : Option String
  pub idempotency_key : String
  pub reversibility : Reversibility
  pub compensation_handler : Option String
  pub risk_level : RiskLevel
  pub status : EffectStatus
  pub created_at : String

pub record EffectReceipt : Type 0 where
  pub id : String
  pub intent_id : String
  pub external_transaction_id : Option String
  pub external_status : String
  pub before_digest : Option String
  pub after_digest : Option String
  pub actual_effects : Fields
  pub raw_response_ref : Option String
  pub compensation_status : Option String
  pub committed_at : Option String
  pub created_at : String

pub record Capabilities : Type 0 where
  pub idempotency_key : Bool
  pub query_by_idempotency_key : Bool
  pub query_by_external_id : Bool
  pub conditional_write : Bool
  pub fencing_token : Bool
  pub compensation : Bool
  pub state_digests : Bool
  pub dry_run : Bool
  pub human_approval : Bool
  pub reversibility : Reversibility

-- `MANUAL_RECEIPT_CONNECTOR_CAPABILITIES`
abbrev pub manual_receipt_capabilities : Capabilities
manual_receipt_capabilities = record {
  idempotency_key = false;
  query_by_idempotency_key = false;
  query_by_external_id = false;
  conditional_write = false;
  fencing_token = false;
  compensation = false;
  state_digests = false;
  dry_run = true;
  human_approval = true;
  reversibility = r3;
}

module _ (host : Host) where
  open host use {trim, utf16_length}

  -- `EffectIntentSchema.parse`
  unfoldable pub parse_intent : EffectIntent → Result Fault EffectIntent
  parse_intent i = do
    id ← parse_identifier host i.id
    tenant_id ← parse_identifier host i.tenant_id
    source_output_version_id ← parse_identifier host i.source_output_version_id
    connector_type ← parse_identifier host i.connector_type
    target ← parse_identifier host i.target
    resource_key ← parse_identifier host i.resource_key
    arguments_ref ← parse_identifier host i.arguments_ref
    read_set ← parse_list (parse_identifier host) i.read_set
    write_set ← parse_list (parse_identifier host) i.write_set
    base_resource_version ← parse_option (parse_identifier host) i.base_resource_version
    idempotency_key ← parse_identifier host i.idempotency_key
    compensation_handler ← parse_option (parse_identifier host) i.compensation_handler
    created_at ← parse_iso_date_time host i.created_at
    throw_if (not (has_unique_values read_set)) zod
    throw_if (not (has_unique_values write_set)) zod
    throw_if (same_reversibility i.reversibility r0 && not (is_some compensation_handler)) zod
    throw_if
        (same_status i.status irreversible_committed && not (same_reversibility i.reversibility r3))
        zod
    ok (record i {
      id = id;
      tenant_id = tenant_id;
      source_output_version_id = source_output_version_id;
      connector_type = connector_type;
      target = target;
      resource_key = resource_key;
      arguments_ref = arguments_ref;
      read_set = read_set;
      write_set = write_set;
      base_resource_version = base_resource_version;
      idempotency_key = idempotency_key;
      compensation_handler = compensation_handler;
      created_at = created_at;
    })

  -- `z.string().trim().min(1).max(512)`
  unfoldable pub parse_status_text : String → Result Fault String
  parse_status_text s =
      let t = trim s in if leb 1 (utf16_length t) && leb (utf16_length t) 512 then ok t else err zod

  -- `EffectReceiptSchema.parse`
  unfoldable pub parse_receipt : EffectReceipt → Result Fault EffectReceipt
  parse_receipt r = do
    id ← parse_identifier host r.id
    intent_id ← parse_identifier host r.intent_id
    external_transaction_id ← parse_option (parse_identifier host) r.external_transaction_id
    external_status ← parse_status_text r.external_status
    before_digest ← parse_option (parse_digest host) r.before_digest
    after_digest ← parse_option (parse_digest host) r.after_digest
    raw_response_ref ← parse_option (parse_identifier host) r.raw_response_ref
    compensation_status ← parse_option parse_status_text r.compensation_status
    committed_at ← parse_option (parse_iso_date_time host) r.committed_at
    created_at ← parse_iso_date_time host r.created_at
    ok (record r {
      id = id;
      intent_id = intent_id;
      external_transaction_id = external_transaction_id;
      external_status = external_status;
      before_digest = before_digest;
      after_digest = after_digest;
      raw_response_ref = raw_response_ref;
      compensation_status = compensation_status;
      committed_at = committed_at;
      created_at = created_at;
    })
