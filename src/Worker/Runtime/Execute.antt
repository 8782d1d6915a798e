-- ===== src/Worker/Runtime/Execute.antt =====
-- apps/worker/src/effects.ts: `reconcileEffect`, the job that executes an effect and settles it.
pub mod Keeps
use arc_db.Base.{
  ℕ, String, Bool, true, false, not, ◌&&◌, ◌||◌, Option, none, some, find, Result, ok, err,
  if◌then◌else◌, is_some, List, [], ◌∷◌,
}
use arc_db.Contracts.Effect.{
  EffectStatus, prepared, executing, committed, failed, compensated, remediation_required,
  irreversible_committed, reconciliation_required, same_status, status_name, r3, same_reversibility,
}
use arc_db.Contracts.Primitives.{concat}
use arc_db.Lifecycle.Effects.{can_transition_effect}
use arc_db.Worker.Errors.{Fault, runtime, unsafe_connector, connector_operation, known, unknown}
use arc_db.Worker.Connector.{
  Intent, Draft, Connector, is_automatic, ExecuteOutcome, ReconcileOutcome,
}
use arc_db.Worker.World.{
  Env, World, Receipt, Marker, Call, Action, returned, throw, throw_after, lift, catch, ◌>>=◌, ◌>>◌,
}
use arc_db.Worker.Store.{list_receipts, interleave}
use arc_db.Worker.Runtime.{
  Job, JobResult, Note, recovered, idempotent, waiting, outcome_unknown, retry, report,
  execution_receipt, terminal_status, parse_payload, require_effect_project, assert_project,
  assert_current_fence, hook, call, require_intent, transition, begin, move_to_reconciliation,
  resolve_connector_or_mark_reconciliation, assert_external_fence, persist_receipt,
}

abbrev pub is_connector_operation : Fault → Bool
is_connector_operation (connector_operation type op m r certainty) = true
is_connector_operation _ = false

-- The statuses at which there is nothing to execute.
abbrev pub is_terminal : EffectStatus → Bool
is_terminal s =
    same_status s committed
    || (same_status s irreversible_committed
        || (same_status s compensated || same_status s remediation_required))

abbrev pub is_unknown : EffectStatus → Bool
is_unknown s = same_status s executing || same_status s reconciliation_required

abbrev pub is_executable : EffectStatus → Bool
is_executable s = same_status s prepared || same_status s failed

abbrev pub query_failed : String → String → Fault
query_failed type op = connector_operation type op "query failed" true unknown

module _ (env : Env) (job : Job) where
  open env use {approval_guard, after_external_success, after_receipt_persisted}

  unfoldable pub finalize_execution_receipt : Intent → Action Intent
  unfolding terminal_status can_transition_effect move_to_reconciliation transition
  finalize_execution_receipt i =
      let desired = terminal_status i in
      if same_status i.status desired
      then returned i
      else if can_transition_effect i.status desired
      then transition env job i desired
      else move_to_reconciliation env job i >>= λ j. transition env job j desired

  -- `#handleExecutionOutcome`, by the kind of the outcome
  unfoldable pub handle_execution_outcome : Intent → Connector → ExecuteOutcome → Action JobResult
  unfolding persist_receipt finalize_execution_receipt move_to_reconciliation transition
  handle_execution_outcome i c (ExecuteOutcome.succeeded draft) = do
    hook env job after_external_success
    receipt ← persist_receipt env job i draft Marker.executed
    hook env job after_receipt_persisted
    finalized ← finalize_execution_receipt i
    returned (report finalized (recovered false))
  handle_execution_outcome i c (ExecuteOutcome.waiting_for_manual_receipt reason) = do
    j ← move_to_reconciliation env job i
    returned (report j waiting)
  handle_execution_outcome i c (ExecuteOutcome.unknown reason) = do
    j ← move_to_reconciliation env job i
    returned (report j outcome_unknown)
  handle_execution_outcome i c (ExecuteOutcome.definitive_failure reason retryable) = do
    j ← transition env job i failed
    if retryable
        then throw (
            connector_operation c.type "execute" "connector reported a definitive failure" true
              known)
        else returned (report j (retry false))

  -- The approval of an R3 effect; a guard that is not given approves nothing.
  abbrev pub ask_approval : Intent → Option (ℕ → Intent → Result Fault Bool) → Action Bool
  ask_approval i none = returned false
  ask_approval i (some guard) = λ w. (guard w.moment i, interleave env w)

  abbrev pub require_approval : Intent → Connector → Bool → Action (Unit {0})
  require_approval i c true = returned tt
  require_approval i c false =
      throw_after (move_to_reconciliation env job i)
        (unsafe_connector c.type "R3 automatic execution requires a verified human approval")

  unfoldable pub check_approval : Intent → Connector → Action (Unit {0})
  unfolding move_to_reconciliation
  check_approval i c =
      if same_reversibility i.reversibility r3
      then ask_approval i approval_guard >>= require_approval i c
      else returned tt

  -- What the catch clause does with an error of the call or of what follows it.
  abbrev pub give_up : Intent → Connector → String → Fault → Action JobResult
  give_up i c op e =
      if is_connector_operation e
      then throw e
      else throw_after (move_to_reconciliation env job i)
          (connector_operation c.type op "external outcome is unknown" true unknown)

  unfoldable pub execute_prepared : Intent → Connector → Action JobResult
  unfolding check_approval begin assert_external_fence handle_execution_outcome
  execute_prepared original c = do
    check_approval original c
    i ← begin env job original executing
    catch
        (do
          outcome ← call env job Call.execute c.execute i
          assert_external_fence env job i
          handle_execution_outcome i c outcome)
        (give_up i c "execute")

  -- A query of the connector, with the check of the fence behind it.
  abbrev pub query : String → String → Action ReconcileOutcome → Action ReconcileOutcome
  query type op ask =
      catch (do outcome ← ask; assert_current_fence env job; returned outcome)
        λ e. throw (query_failed type op)

  abbrev pub settle_execution : Intent → Connector → ReconcileOutcome → Action JobResult
  settle_execution i c (ReconcileOutcome.found draft) = do
    receipt ← persist_receipt env job i draft Marker.executed
    j ← finalize_execution_receipt i
    returned (report j (recovered true))
  settle_execution i c (ReconcileOutcome.not_found definitive) =
      if definitive && c.capabilities.idempotency_key
      then throw_after (transition env job i failed)
          (connector_operation c.type "reconcile" "effect was definitively not found" true known)
      else returned (report i outcome_unknown)
  settle_execution i c ReconcileOutcome.unknown = returned (report i outcome_unknown)

  unfoldable pub reconcile_unknown_execution : Intent → Connector → Action JobResult
  unfolding move_to_reconciliation persist_receipt finalize_execution_receipt transition
  reconcile_unknown_execution original c = do
    i ← move_to_reconciliation env job original
    if not c.capabilities.query_by_idempotency_key && not c.capabilities.query_by_external_id
        then returned (report i outcome_unknown)
        else query c.type "reconcile" (call env job Call.reconcile c.reconcile i)
          >>= settle_execution i c

  -- A manual connector waits for the receipt that a user records.
  abbrev pub check_waiting : Connector → ExecuteOutcome → Result Fault (Unit {0})
  check_waiting c (ExecuteOutcome.waiting_for_manual_receipt reason) = ok tt
  check_waiting c _ = err (unsafe_connector c.type "manual connector attempted automatic work")

  unfoldable pub wait_for_receipt : Intent → Connector → Action JobResult
  unfolding move_to_reconciliation
  wait_for_receipt i c =
      if same_status i.status reconciliation_required then returned (report i waiting) else (do
        outcome ← call env job Call.execute c.execute i
        lift (check_waiting c outcome)
        j ← move_to_reconciliation env job i
        returned (report j waiting))

  abbrev pub run_automatic : Intent → Connector → Action JobResult
  run_automatic i c =
      if is_unknown i.status
      then reconcile_unknown_execution i c
      else if is_executable i.status
      then execute_prepared i c
      else throw (
          runtime "EFFECT_STATE_NOT_EXECUTABLE"
            (concat ("Effect " ∷ i.id ∷ " cannot execute from " ∷ status_name i.status ∷ [])) false)

  -- The part of `reconcileEffect` behind the search for a receipt.
  unfoldable pub advance : Intent → Connector → Option Receipt → Action JobResult
  unfolding finalize_execution_receipt wait_for_receipt reconcile_unknown_execution execute_prepared
  advance i c (some receipt) = do
    j ← finalize_execution_receipt i
    returned (report j (recovered true))
  advance i c none =
      if is_terminal i.status
      then returned (report i idempotent)
      else if is_automatic c
      then run_automatic i c
      else wait_for_receipt i c

  -- `reconcileEffect`, once the intent is read
  unfoldable pub reconcile_intent : Intent → Action JobResult
  unfolding resolve_connector_or_mark_reconciliation advance execution_receipt
  reconcile_intent i = do
    lift (assert_project job i)
    c ← resolve_connector_or_mark_reconciliation env job i
    receipts ← list_receipts env
    advance i c (find execution_receipt receipts)

  unfoldable pub reconcile_effect : Action JobResult
  unfolding require_intent reconcile_intent
  reconcile_effect = do
    id ← lift (parse_payload env job.payload)
    project ← lift (require_effect_project job)
    i ← require_intent env job project id
    reconcile_intent i
