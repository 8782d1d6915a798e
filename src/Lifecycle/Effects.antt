-- ===== src/Lifecycle/Effects.antt =====
-- packages/lifecycle/src/effects.ts: the state machine of an effect intent, the resolution of an
-- idempotency key and the append-only log of receipts.
pub mod Graph
pub mod Receipts
pub mod Idempotency
use arc_db.Base.{
  String, Bool, true, false, not, ◌&&◌, Option, none, some, List, [], ◌∷◌, ◌++◌, includes, find,
  Result, ok, err, throw_if, ◌>>=◌, ◌>>◌, if◌then◌else◌, ◌==◌,
}
use arc_db.Base.Sort.{sort}
use arc_db.Host.{Host}
use arc_db.Contracts.Errors.{Fault, domain, transition, duplicate, receipt, ErrorCode}
use arc_db.Contracts.Digest.{
  Value, Fields, str, obj, arr, field, end, str_or_null, strings, canonical_digest,
}
use arc_db.Contracts.Effect.{
  EffectIntent, EffectReceipt, EffectStatus, prepared, executing, committed, failed,
  compensation_pending, compensated, remediation_required, irreversible_committed,
  reconciliation_required, same_status, status_name, Reversibility, r0, r1, r2, r3,
  same_reversibility, RiskLevel, low, medium, high, critical, parse_intent, parse_receipt,
}

-- `EFFECT_INTENT_TRANSITIONS`
abbrev pub effect_transitions : EffectStatus → List EffectStatus
effect_transitions prepared = executing ∷ failed ∷ reconciliation_required ∷ []
effect_transitions executing =
    committed ∷ failed ∷ irreversible_committed ∷ reconciliation_required ∷ []
effect_transitions committed = compensation_pending ∷ remediation_required ∷ []
effect_transitions failed = executing ∷ reconciliation_required ∷ []
effect_transitions compensation_pending =
    compensated ∷ remediation_required ∷ reconciliation_required ∷ []
effect_transitions compensated = []
effect_transitions remediation_required = compensation_pending ∷ compensated ∷ []
effect_transitions irreversible_committed = remediation_required ∷ []
effect_transitions reconciliation_required =
    executing ∷ committed ∷ failed ∷ compensation_pending ∷ remediation_required
    ∷ irreversible_committed ∷ []

unfoldable pub can_transition_effect : EffectStatus → EffectStatus → Bool
can_transition_effect from to = includes same_status (effect_transitions from) to

abbrev pub reversibility_name : Reversibility → String
reversibility_name r0 = "R0"
reversibility_name r1 = "R1"
reversibility_name r2 = "R2"
reversibility_name r3 = "R3"

abbrev pub risk_name : RiskLevel → String
risk_name low = "LOW"
risk_name medium = "MEDIUM"
risk_name high = "HIGH"
risk_name critical = "CRITICAL"

-- An optional field is left out where it is undefined.
abbrev pub optional_field : String → Option String → Fields → Fields
optional_field key none fields = fields
optional_field key (some s) fields = field key (str s) fields

abbrev pub receipt_value : EffectReceipt → Value
receipt_value r = obj (
    field "id" (str r.id) (
      field "intentId" (str r.intent_id) (
        optional_field "externalTransactionId" r.external_transaction_id (
          field "externalStatus" (str r.external_status) (
            optional_field "beforeDigest" r.before_digest (
              optional_field "afterDigest" r.after_digest (
                field "actualEffects" (obj r.actual_effects) (
                  optional_field "rawResponseRef" r.raw_response_ref (
                    optional_field "compensationStatus" r.compensation_status (
                      optional_field "committedAt" r.committed_at
                        (field "createdAt" (str r.created_at) end)))))))))))

pub data Resolution : Type 0 where
  new : Resolution
  replay : EffectIntent → Resolution

module _ (host : Host) where
  open host use {string_leb}

  unfoldable pub transition_effect_intent : EffectIntent → EffectStatus → Result Fault EffectIntent
  unfolding can_transition_effect
  transition_effect_intent intent to = do
    throw_if (not (can_transition_effect intent.status to))
        (transition "effect" (status_name intent.status) (status_name to))
    throw_if
        (same_status to irreversible_committed && not (same_reversibility intent.reversibility r3))
        (domain ErrorCode.invalid_transition "Only R3 effects may enter IRREVERSIBLE_COMMITTED")
    parse_intent host (record intent { status = to })

  -- What `intentOperationDigest` hashes: all but the id, the status and the time.
  abbrev pub operation_value : EffectIntent → Value
  operation_value i = obj (
      field "tenantId" (str i.tenant_id) (
        field "sourceOutputVersionId" (str i.source_output_version_id) (
          field "connectorType" (str i.connector_type) (
            field "target" (str i.target) (
              field "resourceKey" (str i.resource_key) (
                field "argumentsRef" (str i.arguments_ref) (
                  field "preconditions" (obj i.preconditions) (
                    field "expectedEffects" (obj i.expected_effects) (
                      field "readSet" (arr (strings (sort string_leb i.read_set))) (
                        field "writeSet" (arr (strings (sort string_leb i.write_set))) (
                          field "baseResourceVersion" (str_or_null i.base_resource_version) (
                            field "idempotencyKey" (str i.idempotency_key) (
                              field "reversibility" (str (reversibility_name i.reversibility)) (
                                field "compensationHandler" (str_or_null i.compensation_handler) (
                                  field "riskLevel" (str (risk_name i.risk_level))
                                    end)))))))))))))))

  unfoldable pub intent_operation_digest : EffectIntent → Result Fault String
  intent_operation_digest i = canonical_digest host (operation_value i) "effect-operation"

  abbrev pub has_key : EffectIntent → EffectIntent → Bool
  has_key parsed candidate =
      candidate.tenant_id == parsed.tenant_id && candidate.idempotency_key == parsed.idempotency_key

  abbrev pub resolve_found : EffectIntent → Option EffectIntent → Result Fault Resolution
  resolve_found parsed none = ok new
  resolve_found parsed (some existing) = do
    old ← intent_operation_digest existing
    fresh ← intent_operation_digest parsed
    throw_if (not (old == fresh)) (duplicate parsed.idempotency_key existing.id)
    ok (replay existing)

  unfoldable pub resolve_idempotent_intent :
      EffectIntent → List EffectIntent → Result Fault Resolution
  resolve_idempotent_intent intent existing_intents = do
    parsed ← parse_intent host intent
    resolve_found parsed (find (has_key parsed) existing_intents)

  unfoldable pub receipt_digest : EffectReceipt → Result Fault String
  receipt_digest r = canonical_digest host (receipt_value r) "effect-receipt"

  abbrev pub has_id : EffectReceipt → EffectReceipt → Bool
  has_id parsed existing = existing.id == parsed.id

  abbrev pub append_found :
      List EffectReceipt → EffectReceipt → Option EffectReceipt → Result Fault (List EffectReceipt)
  append_found receipts parsed none = ok (receipts ++ (parsed ∷ []))
  append_found receipts parsed (some same_id) = do
    old ← receipt_digest same_id
    fresh ← receipt_digest parsed
    if old == fresh then ok receipts else err (receipt parsed.id)

  unfoldable pub append_effect_receipt :
      List EffectReceipt → EffectReceipt → EffectIntent → Result Fault (List EffectReceipt)
  append_effect_receipt receipts unparsed intent = do
    parsed ← parse_receipt host unparsed
    throw_if (not (parsed.intent_id == intent.id))
        (domain ErrorCode.validation_error "Receipt does not belong to EffectIntent")
    append_found receipts parsed (find (has_id parsed) receipts)
