-- ===== src/Worker/Connector.antt =====
-- apps/worker/src/connectors: a connector, and the registry that admits connectors and resolves the
-- one of an intent (types.ts, registry.ts, manual-receipt.ts).
pub mod Registered
use arc_db.Base.{
  ℕ, String, Bool, true, false, not, ◌&&◌, ◌||◌, Option, none, some, List, [], ◌∷◌, find, includes,
  is_some, eqb, Result, ok, err, throw_if, or_throw, ◌>>=◌, ◌>>◌, ◌==◌, eq_option, if◌then◌else◌,
}
use arc_db.Host.{Host}
use arc_db.Contracts.Digest.{Fields, Value, obj, field, bool, str, end, canonical_digest}
use arc_db.Contracts.Primitives.{concat}
use arc_db.Lifecycle.Effects.{reversibility_name}
use arc_db.Contracts.Effect.{
  Capabilities, Reversibility, r0, r3, same_reversibility, RiskLevel, critical, EffectStatus,
  manual_receipt_capabilities,
}
use arc_db.Worker.Errors.{Fault, unsafe_connector, other_error}

-- `EffectIntentRecord`, less its security label. Its capabilities snapshot is given as parsed; none
-- is one that `ConnectorCapabilitiesSchema` refuses.
pub record Intent : Type 0 where
  pub id : String
  pub tenant_id : String
  pub project_id : String
  pub source_output_version_id : String
  pub connector_type : String
  pub connector_capabilities : Option Capabilities
  pub target : String
  pub resource_key : String
  pub arguments_ref : String
  pub preconditions : Fields
  pub expected_effects : Fields
  pub read_set : List String
  pub write_set : List String
  pub base_resource_version : Option String
  pub idempotency_key : String
  pub fencing_token : Option String
  pub reversibility : Reversibility
  pub compensation_handler : Option String
  pub risk_level : RiskLevel
  pub status : EffectStatus
  pub created_at : String
  pub updated_at : String

pub data Mode : Type 0 where
  automatic_write manual_receipt : Mode

pub record Draft : Type 0 where
  pub external_transaction_id : Option String
  pub external_status : String
  pub before_digest : Option String
  pub after_digest : Option String
  pub actual_effects : Fields
  pub raw_response_ref : Option String
  pub committed_at : Option String

pub data ExecuteOutcome : Type 0 where
  succeeded : Draft → ExecuteOutcome
  waiting_for_manual_receipt : String → ExecuteOutcome
  definitive_failure : String → Bool → ExecuteOutcome
  unknown : String → ExecuteOutcome

pub data ReconcileOutcome : Type 0 where
  found : Draft → ReconcileOutcome
  not_found : Bool → ReconcileOutcome
  unknown : ReconcileOutcome

pub data CompensateOutcome : Type 0 where
  succeeded : Draft → CompensateOutcome
  definitive_failure : String → Bool → CompensateOutcome
  unknown : String → CompensateOutcome

-- What a method of a connector does at a moment: it returns an outcome or throws.
abbrev pub Method : Type 0 → Type 0
Method A = ℕ → Intent → Result Fault A

pub record Connector : Type 0 where
  pub type : String
  pub mode : Mode
  pub capabilities : Capabilities
  pub execute : Method ExecuteOutcome
  pub reconcile : Method ReconcileOutcome
  pub compensate : Option (Method CompensateOutcome)
  pub reconcile_compensation : Option (Method ReconcileOutcome)

abbrev pub is_automatic : Connector → Bool
is_automatic c = elim c.mode [ automatic_write ↦ true | manual_receipt ↦ false ]

-- `ManualReceiptConnector`
abbrev pub manual_receipt_connector : Connector
manual_receipt_connector = record {
  type = "manual-receipt";
  mode = manual_receipt;
  capabilities = manual_receipt_capabilities;
  execute = λ moment intent. ok (
      waiting_for_manual_receipt
        "No external write was attempted; an authorized user must record a receipt");
  reconcile = λ moment intent. ok ReconcileOutcome.unknown;
  compensate = none;
  reconcile_compensation = none;
}

pub record Registry : Type 0 where
  pub connectors : List Connector
  pub allowlist : Option (List String)

abbrev pub is_allowed : Option (List String) → String → Bool
is_allowed none type = true
is_allowed (some types) type = includes ◌==◌ types type

abbrev pub capabilities_value : Capabilities → Value
capabilities_value c = obj (
    field "supportsIdempotencyKey" (bool c.idempotency_key) (
      field "supportsQueryByIdempotencyKey" (bool c.query_by_idempotency_key) (
        field "supportsQueryByExternalId" (bool c.query_by_external_id) (
          field "supportsConditionalWrite" (bool c.conditional_write) (
            field "supportsFencingToken" (bool c.fencing_token) (
              field "supportsCompensation" (bool c.compensation) (
                field "supportsStateDigests" (bool c.state_digests) (
                  field "supportsDryRun" (bool c.dry_run) (
                    field "supportsHumanApproval" (bool c.human_approval) (
                      field "reversibility" (str (reversibility_name c.reversibility)) end))))))))))

-- The text of a digest; none where the value is refused, which no value of this kind is.
abbrev pub digest_text {μ} : {E : Type μ} → Result E String → Option String
digest_text (ok s) = some s
digest_text (err e) = none

unfoldable pub same_capabilities : Host → Capabilities → Capabilities → Bool
same_capabilities host left right =
    eq_option ◌==◌
      (digest_text (canonical_digest host (capabilities_value left) "connector-capabilities"))
      (digest_text (canonical_digest host (capabilities_value right) "connector-capabilities"))

abbrev pub is_critical : RiskLevel → Bool
is_critical critical = true
is_critical _ = false

-- The demands on an automatic or a manual connector.
unfoldable pub check_capabilities : Connector → Result Fault (Unit {0})
check_capabilities c =
    if is_automatic c
    then (do
      throw_if (not c.capabilities.idempotency_key)
          (unsafe_connector c.type "idempotency keys are required")
      throw_if (not c.capabilities.query_by_idempotency_key) (
          unsafe_connector c.type
            "query by idempotency key is required for the pre-receipt crash window")
      throw_if (not c.capabilities.fencing_token)
          (unsafe_connector c.type "resource fencing is required")
      throw_if (c.capabilities.compensation && not (is_some c.compensate)) (
          unsafe_connector c.type
            "compensation capability is declared but no handler is implemented"))
    else throw_if (not c.capabilities.human_approval)
        (unsafe_connector c.type "manual connectors require human approval")

abbrev pub has_type : String → Connector → Bool
has_type type c = c.type == type

unfoldable pub register : Registry → Connector → Result Fault Registry
unfolding check_capabilities
register registry c = do
  throw_if (is_some (find (has_type c.type) registry.connectors))
      (other_error (concat ("A connector is already registered for " ∷ c.type ∷ [])))
  throw_if (not (is_allowed registry.allowlist c.type))
      (unsafe_connector c.type "connector type is not on the allowlist")
  check_capabilities c
  ok (record registry { connectors = c ∷ registry.connectors })

unfoldable pub resolve : Registry → String → Result Fault Connector
resolve registry type =
    or_throw (find (has_type type) registry.connectors)
      (unsafe_connector type "connector is not registered")

unfoldable pub resolve_for_intent : Host → Registry → Intent → Result Fault Connector
resolve_for_intent host registry intent = do
  c ← resolve registry intent.connector_type
  snapshot ← or_throw intent.connector_capabilities (other_error "ZodError")
  throw_if (not (same_capabilities host c.capabilities snapshot)) (
      unsafe_connector c.type "registered capabilities differ from the immutable prepared snapshot")
  throw_if (not (same_reversibility c.capabilities.reversibility intent.reversibility)) (
      unsafe_connector c.type (
        concat (
          "declared reversibility "
          ∷ reversibility_name c.capabilities.reversibility
          ∷ " does not match "
          ∷ reversibility_name intent.reversibility
          ∷ [])))
  throw_if (same_reversibility intent.reversibility r0 && not c.capabilities.compensation)
      (unsafe_connector c.type "R0 effects require compensation support")
  throw_if (is_some intent.base_resource_version && not c.capabilities.conditional_write)
      (unsafe_connector c.type "baseResourceVersion requires conditional writes")
  throw_if (is_critical intent.risk_level && not c.capabilities.human_approval)
      (unsafe_connector c.type "critical effects require human approval support")
  throw_if (same_reversibility intent.reversibility r3 && not c.capabilities.human_approval)
      (unsafe_connector c.type "R3 effects require human approval support")
  throw_if (is_automatic c && not (is_some intent.fencing_token))
      (unsafe_connector c.type "the prepared intent has no resource fencing token")
  ok c
