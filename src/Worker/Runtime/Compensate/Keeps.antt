-- ===== src/Worker/Runtime/Compensate/Keeps.antt =====
-- apps/worker/src/effects.ts: what `runCompensation` keeps, and which calls it may make.
use arc_db.Base.{not, Option, none, some, find, ◌&&◌, ◌||◌, ◌⊎◌, inl, inr, is_some}
use arc_db.Contracts.Effect.{
  EffectStatus, compensation_pending, committed, remediation_required, same_status,
  reconciliation_required,
}
use arc_db.Worker.Connector.{Intent, Connector, CompensateOutcome, ReconcileOutcome, Method}
use arc_db.Worker.World.{Env, World, Receipt, Marker, Call}
use arc_db.Worker.Ensures.{
  Ensures, Any, ensures_returned, ensures_throw, ensures_lift, ensures_bind, ensures_if,
  ensures_catch,
}
use arc_db.Worker.Runtime.{
  Job, JobResult, Note, assert_project, compensation_receipt, no_compensation, no_handler,
}
use arc_db.Worker.Runtime.Begun.{IsBegun}
use arc_db.Worker.Runtime.Steps.{
  IsKept, ensures_read, ensures_hook, ensures_call, ensures_transition, ensures_begin,
  ensures_move_to_reconciliation, ensures_assert_external_fence, ensures_persist_receipt,
  ensures_resolve_connector,
}
use arc_db.Worker.Runtime.Execute.Keeps.{ensures_give_up, ensures_query}
use arc_db.Worker.Runtime.Compensate.{
  finalize_compensation_receipt, handle_compensation_failure, Setback, refused, in_doubt,
  take_outcome, after_attempt, attempt, compensate, settle_compensation, query_compensation,
  reconcile_unknown_compensation, require_remediation, resume_compensation, advance_compensation,
  compensate_with, compensate_intent,
}

-- The intent is one that the store has made COMPENSATION_PENDING, for an intent as it was read.
abbrev pub IsPending : Env → Job → Intent → Type 0
IsPending env job j = (read : Intent) × IsBegun env job read compensation_pending j

module _ (env : Env) (job : Job) (inv : World → Type 0) (May : Call → Type 0)
    (kept : IsKept env inv May) (query : (j : Intent) → May (Call.reconcile_compensation j))
    (undo : (j : Intent) → IsPending env job j → May (Call.compensate j)) where
  ensures_finalize_compensation_receipt :
      (i : Intent) → Ensures inv (finalize_compensation_receipt env job i) Any
  unfolding finalize_compensation_receipt
  ensures_finalize_compensation_receipt i =
      ensures_if inv Any (same_status i.status EffectStatus.compensated) _ _
        (λ over. ensures_returned inv Any i tt)
        λ open_still.
          ensures_if inv Any (same_status i.status reconciliation_required) _ _
            (λ doubt.
              ensures_bind inv Any Any _ _
                (ensures_transition env job inv May kept i compensation_pending)
                λ j _. ensures_transition env job inv May kept j EffectStatus.compensated)
            λ clear. ensures_transition env job inv May kept i EffectStatus.compensated

  ensures_handle_compensation_failure :
      (i : Intent) (c : Connector) (s : Setback)
      → Ensures inv (handle_compensation_failure env job i c s) Any
  unfolding handle_compensation_failure
  ensures_handle_compensation_failure i c in_doubt =
      ensures_bind inv Any Any _ _ (ensures_move_to_reconciliation env job inv May kept i)
        λ j _. ensures_returned inv Any _ tt
  ensures_handle_compensation_failure i c (refused retryable) =
      ensures_bind inv Any Any _ _ (ensures_transition env job inv May kept i remediation_required)
        λ j _.
          ensures_if inv Any retryable _ _ (λ again. ensures_throw inv Any _)
            λ final. ensures_returned inv Any _ tt

  ensures_take_outcome :
      (i : Intent) (o : CompensateOutcome) → Ensures inv (take_outcome env job i o) Any
  ensures_take_outcome i (CompensateOutcome.succeeded draft) =
      ensures_bind inv Any Any _ _
        (ensures_hook env job inv May kept env.after_compensation_success)
        λ _ _.
          ensures_bind inv Any Any _ _
            (ensures_persist_receipt env job inv May kept i draft Marker.compensated)
            λ _ _.
              ensures_bind inv Any Any _ _ (ensures_finalize_compensation_receipt i)
                λ j _. ensures_returned inv Any _ tt
  ensures_take_outcome i (CompensateOutcome.definitive_failure reason retryable) =
      ensures_returned inv Any _ tt
  ensures_take_outcome i (CompensateOutcome.unknown reason) = ensures_returned inv Any _ tt

  ensures_attempt :
      (i : Intent) (c : Connector) (method : Method CompensateOutcome)
      → IsPending env job i
      → Ensures inv (attempt env job i c method) Any
  ensures_attempt i c method begun =
      ensures_catch inv Any _ _
        (ensures_bind inv Any Any _ _ (ensures_assert_external_fence env job inv May kept i) λ _ _.
          ensures_bind inv Any Any _ _
            (ensures_call env job inv May kept Call.compensate method i (undo i begun))
            λ o _.
              ensures_bind inv Any Any _ _ (ensures_assert_external_fence env job inv May kept i)
                λ _ _. ensures_take_outcome i o)
        λ e.
          ensures_bind inv Any Any _ _ (ensures_give_up env job inv May kept i c "compensate" e)
            λ r _. ensures_returned inv Any _ tt

  ensures_compensate :
      (i : Intent) (c : Connector) (o : Option (Method CompensateOutcome))
      → IsPending env job i
      → Ensures inv (compensate env job i c o) Any
  unfolding compensate
  ensures_compensate i c none begun = ensures_throw inv Any _
  ensures_compensate i c (some method) begun =
      ensures_bind inv Any Any _ _ (ensures_attempt i c method begun) λ r _. ends r
    where
      ends : (r : JobResult ⊎ Setback) → Ensures inv (after_attempt env job i c r) Any
      ends (inl r) = ensures_returned inv Any r tt
      ends (inr s) = ensures_handle_compensation_failure i c s

  ensures_settle_compensation :
      (i : Intent) (c : Connector) (o : ReconcileOutcome)
      → Ensures inv (settle_compensation env job i c o) Any
  ensures_settle_compensation i c (ReconcileOutcome.found draft) =
      ensures_bind inv Any Any _ _
        (ensures_persist_receipt env job inv May kept i draft Marker.compensated)
        λ _ _.
          ensures_bind inv Any Any _ _ (ensures_finalize_compensation_receipt i)
            λ j _. ensures_returned inv Any _ tt
  ensures_settle_compensation i c (ReconcileOutcome.not_found definitive) =
      ensures_if inv Any (definitive && c.capabilities.idempotency_key) _ _
        (λ absent.
          ensures_bind inv (IsBegun env job i compensation_pending) Any _ _
            (ensures_begin env job inv May kept i compensation_pending)
            λ j begun. ensures_compensate j c c.compensate (i, begun))
        λ doubt. ensures_returned inv Any _ tt
  ensures_settle_compensation i c ReconcileOutcome.unknown = ensures_returned inv Any _ tt

  ensures_query_compensation :
      (i : Intent) (c : Connector) (o : Option (Method ReconcileOutcome))
      → Ensures inv (query_compensation env job i c o) Any
  ensures_query_compensation i c none = ensures_returned inv Any _ tt
  ensures_query_compensation i c (some method) =
      ensures_bind inv Any Any _ _
        (ensures_query env job inv May kept c.type "reconcileCompensation" _
          (ensures_call env job inv May kept Call.reconcile_compensation method i (query i)))
        λ o _. ensures_settle_compensation i c o

  ensures_reconcile_unknown_compensation :
      (i : Intent) (c : Connector) → Ensures inv (reconcile_unknown_compensation env job i c) Any
  unfolding reconcile_unknown_compensation
  ensures_reconcile_unknown_compensation i c =
      ensures_bind inv Any Any _ _ (ensures_move_to_reconciliation env job inv May kept i)
        λ j _. ensures_query_compensation j c c.reconcile_compensation

  ensures_require_remediation :
      (i : Intent) (n : Note) → Ensures inv (require_remediation env job i n) Any
  unfolding require_remediation
  ensures_require_remediation i n =
      ensures_if inv Any (same_status i.status remediation_required) _ _
        (λ there. ensures_returned inv Any _ tt)
        λ elsewhere.
          ensures_bind inv Any Any _ _
            (ensures_transition env job inv May kept i remediation_required)
            λ j _. ensures_returned inv Any _ tt

  ensures_resume_compensation :
      (i : Intent) (c : Connector) → Ensures inv (resume_compensation env job i c) Any
  ensures_resume_compensation i c =
      ensures_if inv Any
        (same_status i.status reconciliation_required || same_status i.status compensation_pending)
        _ _ (λ doubt. ensures_reconcile_unknown_compensation i c) λ other. ensures_throw inv Any _

  ensures_advance_compensation :
      (i : Intent) (c : Connector) (o : Option Receipt)
      → Ensures inv (advance_compensation env job i c o) Any
  unfolding advance_compensation
  ensures_advance_compensation i c (some receipt) =
      ensures_bind inv Any Any _ _ (ensures_finalize_compensation_receipt i)
        λ j _. ensures_returned inv Any _ tt
  ensures_advance_compensation i c none =
      ensures_if inv Any (same_status i.status EffectStatus.compensated) _ _
        (λ over. ensures_returned inv Any _ tt)
        λ open_still.
          ensures_if inv Any
            (same_status i.status committed || same_status i.status remediation_required) _ _
            (λ first.
              ensures_bind inv (IsBegun env job i compensation_pending) Any _ _
                (ensures_begin env job inv May kept i compensation_pending)
                λ j begun.
                  ensures_if inv Any (same_status j.status compensation_pending) _ _
                    (λ pending. ensures_compensate j c c.compensate (i, begun))
                    λ other. ensures_resume_compensation j c)
            λ later. ensures_resume_compensation i c

  ensures_compensate_with :
      (i : Intent) (c : Connector) → Ensures inv (compensate_with env job i c) Any
  ensures_compensate_with i c =
      ensures_if inv Any (not c.capabilities.compensation || not (is_some c.compensate)) _ _
        (λ unable. ensures_require_remediation i no_compensation)
        λ able.
          ensures_if inv Any (not (is_some i.compensation_handler)) _ _
            (λ unhandled. ensures_require_remediation i no_handler)
            λ handled.
              ensures_bind inv Any Any _ _ (ensures_read env job inv May kept λ w. w.store.receipts)
                λ rs _. ensures_advance_compensation i c (find compensation_receipt rs)

  pub ensures_compensate_intent : (i : Intent) → Ensures inv (compensate_intent env job i) Any
  unfolding compensate_intent
  ensures_compensate_intent i =
      ensures_bind inv Any Any _ _ (ensures_lift inv Any (assert_project job i) λ _ _. tt) λ _ _.
        ensures_bind inv _ Any _ _ (ensures_resolve_connector env job inv May kept i)
          λ c e. ensures_compensate_with i c
