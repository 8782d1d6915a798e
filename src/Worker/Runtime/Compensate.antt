-- ===== src/Worker/Runtime/Compensate.antt =====
-- apps/worker/src/effects.ts: `runCompensation`, the job that undoes an effect.
pub mod Keeps
use arc_db.Base.{
  ℕ, String, Bool, true, false, not, ◌&&◌, ◌||◌, Option, none, some, find, Result, ok, err,
  if◌then◌else◌, is_some, List, [], ◌∷◌, ◌⊎◌, inl, inr,
}
use arc_db.Contracts.Effect.{
  EffectStatus, committed, compensated, compensation_pending, remediation_required,
  reconciliation_required, same_status, status_name,
}
use arc_db.Contracts.Primitives.{concat}
use arc_db.Worker.Errors.{Fault, runtime, unsafe_connector, connector_operation, known, unknown}
use arc_db.Worker.Connector.{Intent, Draft, Connector, CompensateOutcome, ReconcileOutcome, Method}
use arc_db.Worker.World.{
  Env, World, Receipt, Marker, Call, Action, returned, throw, throw_after, lift, catch, ◌>>=◌, ◌>>◌,
}
use arc_db.Worker.Store.{list_receipts}
use arc_db.Worker.Runtime.{
  Job, JobResult, Note, recovered, idempotent, outcome_unknown, retry, no_compensation, no_handler,
  plain, report, compensation_receipt, parse_payload, require_effect_project, assert_project, hook,
  call, require_intent, transition, begin, move_to_reconciliation,
  resolve_connector_or_mark_reconciliation, assert_external_fence, persist_receipt,
}
use arc_db.Worker.Runtime.Execute.{give_up, query}

-- The two outcomes of a compensation that did not succeed.
pub data Setback : Type 0 where
  refused : Bool → Setback
  in_doubt : Setback

module _ (env : Env) (job : Job) where
  open env use {after_compensation_success}

  unfoldable pub finalize_compensation_receipt : Intent → Action Intent
  unfolding transition
  finalize_compensation_receipt i =
      if same_status i.status EffectStatus.compensated
      then returned i
      else if same_status i.status reconciliation_required
      then (do
        j ← transition env job i compensation_pending
        transition env job j EffectStatus.compensated)
      else transition env job i EffectStatus.compensated

  unfoldable pub handle_compensation_failure : Intent → Connector → Setback → Action JobResult
  unfolding move_to_reconciliation transition
  handle_compensation_failure i c in_doubt = do
    j ← move_to_reconciliation env job i
    returned (report j outcome_unknown)
  handle_compensation_failure i c (refused retryable) = do
    j ← transition env job i remediation_required
    if retryable
        then throw (
            connector_operation c.type "compensate" "connector reported a definitive failure" true
              known)
        else returned (report j (retry false))

  -- The body of the try block: a result, or the outcome whose handling is returned without being
  -- awaited, so that the catch clause does not see what it throws.
  abbrev pub take_outcome : Intent → CompensateOutcome → Action (JobResult ⊎ Setback)
  take_outcome i (CompensateOutcome.succeeded draft) = do
    hook env job after_compensation_success
    receipt ← persist_receipt env job i draft Marker.compensated
    j ← finalize_compensation_receipt i
    returned (inl (report j plain))
  take_outcome i (CompensateOutcome.definitive_failure reason retryable) =
      returned (inr (refused retryable))
  take_outcome i (CompensateOutcome.unknown reason) = returned (inr in_doubt)

  abbrev pub after_attempt : Intent → Connector → JobResult ⊎ Setback → Action JobResult
  after_attempt i c (inl r) = returned r
  after_attempt i c (inr setback) = handle_compensation_failure i c setback

  abbrev pub attempt : Intent → Connector → Method CompensateOutcome → Action (JobResult ⊎ Setback)
  attempt i c method =
      catch
        (do
          assert_external_fence env job i
          outcome ← call env job Call.compensate method i
          assert_external_fence env job i
          take_outcome i outcome)
        λ e. (do r ← give_up env job i c "compensate" e; returned (inl r))

  unfoldable pub compensate :
      Intent → Connector → Option (Method CompensateOutcome) → Action JobResult
  unfolding assert_external_fence persist_receipt finalize_compensation_receipt
      handle_compensation_failure
  compensate i c none = throw (unsafe_connector c.type "compensation handler is absent")
  compensate i c (some method) = attempt i c method >>= after_attempt i c

  abbrev pub settle_compensation : Intent → Connector → ReconcileOutcome → Action JobResult
  settle_compensation i c (ReconcileOutcome.found draft) = do
    receipt ← persist_receipt env job i draft Marker.compensated
    j ← finalize_compensation_receipt i
    returned (report j (recovered true))
  settle_compensation i c (ReconcileOutcome.not_found definitive) =
      if definitive && c.capabilities.idempotency_key
      then (do j ← begin env job i compensation_pending; compensate j c c.compensate)
      else returned (report i outcome_unknown)
  settle_compensation i c ReconcileOutcome.unknown = returned (report i outcome_unknown)

  abbrev pub query_compensation :
      Intent → Connector → Option (Method ReconcileOutcome) → Action JobResult
  query_compensation i c none = returned (report i outcome_unknown)
  query_compensation i c (some method) =
      query env job c.type "reconcileCompensation"
        (call env job Call.reconcile_compensation method i)
      >>= settle_compensation i c

  unfoldable pub reconcile_unknown_compensation : Intent → Connector → Action JobResult
  unfolding move_to_reconciliation begin compensate
  reconcile_unknown_compensation original c = do
    i ← move_to_reconciliation env job original
    query_compensation i c c.reconcile_compensation

  -- An effect that cannot be undone is left to a person.
  unfoldable pub require_remediation : Intent → Note → Action JobResult
  unfolding transition
  require_remediation i note =
      if same_status i.status remediation_required
      then returned (report i note)
      else transition env job i remediation_required >>= λ j. returned (report j note)

  abbrev pub resume_compensation : Intent → Connector → Action JobResult
  resume_compensation i c =
      if same_status i.status reconciliation_required || same_status i.status compensation_pending
      then reconcile_unknown_compensation i c
      else throw (
          runtime "EFFECT_STATE_NOT_COMPENSATABLE"
            (concat ("Effect " ∷ i.id ∷ " cannot compensate from " ∷ status_name i.status ∷ []))
            false)

  -- The intent that `beginExternalOperation` gave for the first attempt.
  abbrev pub first_attempt : Intent → Connector → Action JobResult
  first_attempt i c =
      if same_status i.status compensation_pending
      then compensate i c c.compensate
      else resume_compensation i c

  -- The part of `runCompensation` behind the search for a receipt.
  unfoldable pub advance_compensation : Intent → Connector → Option Receipt → Action JobResult
  unfolding finalize_compensation_receipt reconcile_unknown_compensation compensate begin
  advance_compensation i c (some receipt) = do
    j ← finalize_compensation_receipt i
    returned (report j (recovered true))
  advance_compensation i c none =
      if same_status i.status EffectStatus.compensated
      then returned (report i idempotent)
      else if same_status i.status committed || same_status i.status remediation_required
      then (do j ← begin env job i compensation_pending; first_attempt j c)
      else resume_compensation i c

  abbrev pub compensate_with : Intent → Connector → Action JobResult
  compensate_with i c =
      if not c.capabilities.compensation || not (is_some c.compensate)
      then require_remediation i no_compensation
      else if not (is_some i.compensation_handler)
      then require_remediation i no_handler
      else list_receipts env >>= λ receipts.
          advance_compensation i c (find compensation_receipt receipts)

  -- `runCompensation`, once the intent is read
  unfoldable pub compensate_intent : Intent → Action JobResult
  unfolding resolve_connector_or_mark_reconciliation require_remediation advance_compensation
      compensation_receipt
  compensate_intent i = do
    lift (assert_project job i)
    c ← resolve_connector_or_mark_reconciliation env job i
    compensate_with i c

  unfoldable pub run_compensation : Action JobResult
  unfolding require_intent compensate_intent
  run_compensation = do
    id ← lift (parse_payload env job.payload)
    project ← lift (require_effect_project job)
    i ← require_intent env job project id
    compensate_intent i
