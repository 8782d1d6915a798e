-- ===== src/Worker/Runtime.antt =====
-- apps/worker/src/effects.ts: `EffectRuntime`, the steps that both of its jobs share.
pub mod Begun
pub mod Steps
pub mod Execute
pub mod Compensate
use arc_db.Base.{
  ℕ, suc, ◌+◌, ◌/◌, String, Bool, true, false, not, ◌&&◌, ◌||◌, Option, none, some, List, [], ◌∷◌,
  Result, ok, err, ◌==◌, eq_option, if◌then◌else◌, min, max, is_some, or_else,
}
use arc_db.Contracts.Digest.{Fields, end, field, Value, str, obj}
use arc_db.Contracts.Primitives.{concat}
use arc_db.Contracts.Effect.{
  EffectStatus, prepared, executing, committed, failed, compensation_pending, compensated,
  remediation_required, irreversible_committed, reconciliation_required, same_status, status_name,
  r3, same_reversibility,
}
use arc_db.Lifecycle.Effects.{can_transition_effect}
use arc_db.Worker.Errors.{
  Fault, runtime, unsafe_connector, connector_operation, other_error, known, unknown,
}
use arc_db.Worker.Connector.{Intent, Draft, Connector, resolve_for_intent}
use arc_db.Worker.World.{
  Env, World, Receipt, Marker, executed, compensated, marker_text, Call, Action, returned, throw,
  lift, throw_some, throw_after, ◌>>=◌, ◌>>◌,
}
use arc_db.Worker.Store.{
  MutationFence, read, interleave, get_intent, store_transition, begin_external_operation,
  append_receipt, is_resource_fence_current,
}

pub record Job : Type 0 where
  pub id : String
  pub tenant_id : String
  pub project_id : Option String
  pub timeout_ms : ℕ
  pub payload : Value

-- What a JobResult says beside the intent's id and status.
pub data Note : Type 0 where
  recovered : Bool → Note
  idempotent : Note
  waiting : Note
  outcome_unknown : Note
  retry : Bool → Note
  no_compensation no_handler : Note
  plain : Note

pub record JobResult : Type 0 where
  pub intent_id : String
  pub status : EffectStatus
  pub note : Note

abbrev pub report : Intent → Note → JobResult
report i n = record { intent_id = i.id; status = i.status; note = n }

-- `fields[key] === text`
abbrev pub holds_text : Fields → String → String → Bool
holds_text end key text = false
holds_text (field k (str s) fields) key text =
    let rest = holds_text fields key text in if k == key then s == text else rest
holds_text (field k v fields) key text =
    let rest = holds_text fields key text in if k == key then false else rest

-- `{ ...fields, key: text }`
abbrev pub with_text : Fields → String → String → Fields
with_text end key text = field key (str text) end
with_text (field k v fields) key text =
    let rest = with_text fields key text in
    if k == key then field k (str text) fields else field k v rest

unfoldable pub execution_receipt : Receipt → Bool
execution_receipt r = holds_text r.actual_effects "arcdbOutcome" "EXECUTED"

unfoldable pub compensation_receipt : Receipt → Bool
compensation_receipt r =
    holds_text r.actual_effects "arcdbOutcome" "COMPENSATED"
    || eq_option ◌==◌ r.compensation_status (some "COMPENSATED")

unfoldable pub terminal_status : Intent → EffectStatus
terminal_status i =
    if same_reversibility i.reversibility r3 then irreversible_committed else committed

-- `Math.min(3_600, Math.max(30, Math.ceil((timeoutMs + 30_000) / 1_000)))`
unfoldable pub lease_seconds : ℕ → ℕ
lease_seconds timeout_ms = min 3600 (max 30 ((timeout_ms + 30000 + 999) / 1000))

abbrev pub invalid_transition : Intent → EffectStatus → Fault
invalid_transition i next =
    runtime "INVALID_EFFECT_TRANSITION"
      (concat (
        "Effect "
        ∷ i.id
        ∷ " cannot transition from "
        ∷ status_name i.status
        ∷ " to "
        ∷ status_name next
        ∷ []))
      false

abbrev pub conflict : Intent → Fault
conflict i =
    runtime "EFFECT_STATE_CONFLICT"
      (concat ("Effect " ∷ i.id ∷ " changed concurrently from " ∷ status_name i.status ∷ [])) true

abbrev pub updated_or_throw : Intent → Option Intent → Result Fault Intent
updated_or_throw i none = err (conflict i)
updated_or_throw i (some j) = ok j

abbrev pub found_or_throw : String → Option Intent → Result Fault Intent
found_or_throw id none = err (
    runtime "EFFECT_INTENT_NOT_FOUND" (concat ("Effect intent " ∷ id ∷ " was not found" ∷ []))
      false)
found_or_throw id (some i) = ok i

-- `EffectJobPayloadSchema.parse`
abbrev pub parse_payload : Env → Value → Result Fault String
parse_payload env (obj (field key (str id) end)) =
    if key == "intentId" && env.is_uuid id then ok id else err (other_error "ZodError")
parse_payload env _ = err (other_error "ZodError")

abbrev pub require_effect_project : Job → Result Fault String
require_effect_project job = elim job.project_id [
  | none ↦
      err (runtime "EFFECT_SCOPE_MISMATCH" "Effect jobs require an explicit project scope" false)
  | some p ↦ ok p
]

abbrev pub assert_project : Job → Intent → Result Fault (Unit {0})
assert_project job i =
    if job.tenant_id == i.tenant_id && eq_option ◌==◌ job.project_id (some i.project_id)
    then ok tt
    else err (
        runtime "EFFECT_SCOPE_MISMATCH"
          "Effect intent does not belong to the durable job tenant/project" false)

module _ (env : Env) (job : Job) where
  open env use {registry, host, job_fence, now, receipt_id}

  -- `context.assertCurrentFence()`
  abbrev pub assert_current_fence : Action (Unit {0})
  assert_current_fence w = let v = interleave env w in (throw_some (job_fence v.moment), v)

  -- A hook, or an await of foreign code that only may throw.
  abbrev pub hook : (ℕ → Option Fault) → Action (Unit {0})
  hook thrown w = let v = interleave env w in (throw_some (thrown v.moment), v)

  -- A method of a connector is called at once; what it gives, it gives at the next moment.
  abbrev pub call {ℓ} :
      {A : Type ℓ} → (Intent → Call) → (ℕ → Intent → Result Fault A) → Intent → Action A
  call name method i w =
      let v = interleave env (record w { calls = name i ∷ w.calls }) in (method w.moment i, v)

  abbrev pub mutation_fence : Intent → MutationFence
  mutation_fence i = record { tenant_id = i.tenant_id; project_id = i.project_id; job_id = job.id }

  unfoldable pub require_intent : String → String → Action Intent
  require_intent project id = do
    row ← get_intent env job.tenant_id project id
    lift (found_or_throw id row)

  unfoldable pub transition : Intent → EffectStatus → Action Intent
  unfolding can_transition_effect store_transition
  transition i next =
      if same_status i.status next
      then returned i
      else if can_transition_effect i.status next
      then (do
        assert_current_fence
        updated ← store_transition env i.id i.status next (mutation_fence i)
        lift (updated_or_throw i updated))
      else throw (invalid_transition i next)

  -- `#beginExternalOperation`
  unfoldable pub begin : Intent → EffectStatus → Action Intent
  unfolding can_transition_effect begin_external_operation lease_seconds
  begin i next =
      if can_transition_effect i.status next
      then (do
        assert_current_fence
        updated ←
            begin_external_operation env i.id i.status next (mutation_fence i)
              (lease_seconds job.timeout_ms)
        lift (updated_or_throw i updated))
      else throw (invalid_transition i next)

  unfoldable pub move_to_reconciliation : Intent → Action Intent
  unfolding transition
  move_to_reconciliation i =
      if same_status i.status reconciliation_required
      then returned i
      else transition i reconciliation_required

  abbrev pub marks_unknown : EffectStatus → Bool
  marks_unknown s =
      same_status s prepared
      || (same_status s executing || (same_status s failed || same_status s compensation_pending))

  abbrev pub resolved_or_mark : Intent → Result Fault Connector → Action Connector
  resolved_or_mark i (ok c) = returned c
  resolved_or_mark i (err e) =
      if marks_unknown i.status then throw_after (move_to_reconciliation i) e else throw e

  unfoldable pub resolve_connector_or_mark_reconciliation : Intent → Action Connector
  unfolding move_to_reconciliation
  resolve_connector_or_mark_reconciliation i =
      resolved_or_mark i (resolve_for_intent host registry i)

  abbrev pub resource_fence_lost : Intent → Fault
  resource_fence_lost i =
      runtime "RESOURCE_FENCE_LOST"
        (concat ("Effect " ∷ i.id ∷ " lost resource fence " ∷ or_else i.fencing_token "" ∷ [])) true

  abbrev pub still_current : Intent → Bool → Result Fault (Unit {0})
  still_current i true = ok tt
  still_current i false = err (resource_fence_lost i)

  abbrev pub assert_resource_fence : Intent → Option String → Action (Unit {0})
  assert_resource_fence i none =
      throw (unsafe_connector i.connector_type "resource fencing token is absent")
  assert_resource_fence i (some token) = do
    current ← is_resource_fence_current env i
    lift (still_current i current)

  unfoldable pub assert_external_fence : Intent → Action (Unit {0})
  assert_external_fence i = do assert_current_fence; assert_resource_fence i i.fencing_token

  -- The receipt that a connector's draft becomes; the table gives its sequence and its time.
  abbrev pub drafted : Intent → Draft → Marker → ℕ → Receipt
  drafted i draft marker moment = record {
    id = receipt_id i marker draft;
    tenant_id = i.tenant_id;
    project_id = i.project_id;
    intent_id = i.id;
    sequence = 0;
    external_transaction_id = draft.external_transaction_id;
    external_status = draft.external_status;
    before_digest = draft.before_digest;
    after_digest = draft.after_digest;
    actual_effects = with_text draft.actual_effects "arcdbOutcome" (marker_text marker);
    raw_response_ref = draft.raw_response_ref;
    compensation_status = elim marker [ executed ↦ none | compensated ↦ some "COMPENSATED" ];
    committed_at = some (or_else draft.committed_at (now moment));
    created_at = "";
  }

  unfoldable pub persist_receipt : Intent → Draft → Marker → Action Receipt
  unfolding append_receipt
  persist_receipt i draft marker = do
    assert_current_fence
    moment ← λ w. (ok w.moment, w)
    append_receipt env (drafted i draft marker moment) (mutation_fence i)
