-- ===== src/Worker/Runtime/Execute/Keeps.antt =====
-- apps/worker/src/effects.ts: what `reconcileEffect` keeps, and which calls it may make.
use arc_db.Base.{
  ℕ, String, Bool, true, false, not, ◌≡◌, refl, ◌∙◌, ap, Option, none, some, find, Result, ok,
  arith, ◌&&◌,
}
use arc_db.Contracts.Effect.{
  executing, failed, same_status, reconciliation_required, r3, same_reversibility,
}
use arc_db.Lifecycle.Effects.{can_transition_effect}
use arc_db.Worker.Errors.{Fault}
use arc_db.Worker.Connector.{
  Intent, Connector, is_automatic, ExecuteOutcome, ReconcileOutcome, resolve_for_intent,
}
use arc_db.Worker.World.{Env, World, Receipt, Marker, Call, Action}
use arc_db.Worker.Ensures.{
  Ensures, Any, ensures_returned, ensures_throw, ensures_lift, ensures_bind, ensures_if,
  ensures_catch, ensures_throw_after,
}
use arc_db.Worker.Runtime.{Job, assert_project, execution_receipt, terminal_status}
use arc_db.Worker.Runtime.Begun.{IsBegun}
use arc_db.Worker.Runtime.Steps.{
  IsKept, ensures_read, ensures_assert_current_fence, ensures_hook, ensures_call,
  ensures_transition, ensures_begin, ensures_move_to_reconciliation, ensures_assert_external_fence,
  ensures_persist_receipt, ensures_resolve_connector,
}
use arc_db.Worker.Runtime.Execute.{
  finalize_execution_receipt, handle_execution_outcome, ask_approval, require_approval,
  check_approval, give_up, execute_prepared, query, query_failed, settle_execution,
  reconcile_unknown_execution, is_connector_operation, wait_for_receipt, check_waiting, advance,
  reconcile_intent, is_unknown, is_executable, is_terminal,
}

-- The guard of the runtime has approved the effect.
pub record IsApproved (env : Env) (i : Intent) : Type 0 where
  pub guard : ℕ → Intent → Result Fault Bool
  pub moment : ℕ
  pub given : env.approval_guard ≡ some guard
  pub agreed : guard moment i ≡ ok true

-- An R3 effect is approved.
abbrev pub IsCleared : Env → Intent → Type 0
IsCleared env i = same_reversibility i.reversibility r3 ≡ true → IsApproved env i

module _ (env : Env) (job : Job) (inv : World → Type 0) (May : Call → Type 0)
    (kept : IsKept env inv May) where
  pub ensures_finalize_execution_receipt :
      (i : Intent) → Ensures inv (finalize_execution_receipt env job i) Any
  unfolding finalize_execution_receipt
  ensures_finalize_execution_receipt i =
      ensures_if inv Any (same_status i.status (terminal_status i)) _ _
        (λ same. ensures_returned inv Any i tt)
        λ differs.
          ensures_if inv Any (can_transition_effect i.status (terminal_status i)) _ _
            (λ edge. ensures_transition env job inv May kept i (terminal_status i))
            λ barred.
              ensures_bind inv Any Any _ _ (ensures_move_to_reconciliation env job inv May kept i)
                λ j _. ensures_transition env job inv May kept j (terminal_status i)

  pub ensures_handle_execution_outcome :
      (i : Intent) (c : Connector) (o : ExecuteOutcome)
      → Ensures inv (handle_execution_outcome env job i c o) Any
  unfolding handle_execution_outcome
  ensures_handle_execution_outcome i c (ExecuteOutcome.succeeded draft) =
      ensures_bind inv Any Any _ _ (ensures_hook env job inv May kept env.after_external_success)
        λ _ _.
          ensures_bind inv Any Any _ _
            (ensures_persist_receipt env job inv May kept i draft Marker.executed)
            λ _ _.
              ensures_bind inv Any Any _ _
                (ensures_hook env job inv May kept env.after_receipt_persisted)
                λ _ _.
                  ensures_bind inv Any Any _ _ (ensures_finalize_execution_receipt i)
                    λ j _. ensures_returned inv Any _ tt
  ensures_handle_execution_outcome i c (ExecuteOutcome.waiting_for_manual_receipt reason) =
      ensures_bind inv Any Any _ _ (ensures_move_to_reconciliation env job inv May kept i)
        λ j _. ensures_returned inv Any _ tt
  ensures_handle_execution_outcome i c (ExecuteOutcome.unknown reason) =
      ensures_bind inv Any Any _ _ (ensures_move_to_reconciliation env job inv May kept i)
        λ j _. ensures_returned inv Any _ tt
  ensures_handle_execution_outcome i c (ExecuteOutcome.definitive_failure reason retryable) =
      ensures_bind inv Any Any _ _ (ensures_transition env job inv May kept i failed) λ j _.
        ensures_if inv Any retryable _ _ (λ again. ensures_throw inv Any _)
          λ final. ensures_returned inv Any _ tt

  ensures_ask_approval :
      (i : Intent) (o : Option (ℕ → Intent → Result Fault Bool))
      → env.approval_guard ≡ o
      → Ensures inv (ask_approval env job i o) (λ b. b ≡ true → IsApproved env i)
  unfolding Ensures
  ensures_ask_approval i none e w h = (h, λ b f t. cc)
  ensures_ask_approval i (some guard) e w h = (
    kept.elsewhere w h,
    λ b f t. record { guard = guard; moment = w.moment; given = e; agreed = f ∙ ap ok t },
  )

  ensures_check_approval :
      (i : Intent) (c : Connector) → Ensures inv (check_approval env job i c) (λ _. IsCleared env i)
  unfolding check_approval
  ensures_check_approval i c =
      ensures_if inv (λ _. IsCleared env i) (same_reversibility i.reversibility r3) _ _
        (λ three.
          ensures_bind inv (λ b. b ≡ true → IsApproved env i) (λ _. IsCleared env i) _ _
            (ensures_ask_approval i env.approval_guard refl) λ b p. requires b p)
        λ lower. ensures_returned inv (λ _. IsCleared env i) tt λ three. absurd (ground arith)
    where
      requires :
          (b : Bool)
          → (b ≡ true → IsApproved env i)
          → Ensures inv (require_approval env job i c b) (λ _. IsCleared env i)
      requires true p = ensures_returned inv (λ _. IsCleared env i) tt λ three. p refl
      requires false p =
          ensures_throw_after inv Any (λ _. IsCleared env i) _ _
            (ensures_move_to_reconciliation env job inv May kept i)

  pub ensures_give_up :
      (i : Intent) (c : Connector) (op : String) (e : Fault)
      → Ensures inv (give_up env job i c op e) Any
  ensures_give_up i c op e =
      ensures_if inv Any (is_connector_operation e) _ _ (λ known. ensures_throw inv Any e)
        λ other.
          ensures_throw_after inv Any Any _ _
            (ensures_move_to_reconciliation env job inv May kept i)

  ensures_execute_prepared :
      (i : Intent) (c : Connector)
      → (IsCleared env i → (j : Intent) → IsBegun env job i executing j → May (Call.execute j))
      → Ensures inv (execute_prepared env job i c) Any
  unfolding execute_prepared
  ensures_execute_prepared i c may =
      ensures_bind inv (λ _. IsCleared env i) Any _ _ (ensures_check_approval i c)
        λ _ cleared.
          ensures_bind inv (IsBegun env job i executing) Any _ _
            (ensures_begin env job inv May kept i executing)
            λ j begun.
              ensures_catch inv Any _ _
                (ensures_bind inv Any Any _ _
                  (ensures_call env job inv May kept Call.execute c.execute j (may cleared j begun))
                  λ o _.
                    ensures_bind inv Any Any _ _
                      (ensures_assert_external_fence env job inv May kept j)
                      λ _ _. ensures_handle_execution_outcome j c o)
                (ensures_give_up j c "execute")

  pub ensures_query :
      (type op : String) (ask : Action ReconcileOutcome)
      → Ensures inv ask Any
      → Ensures inv (query env job type op ask) Any
  ensures_query type op ask h =
      ensures_catch inv Any _ _
        (ensures_bind inv Any Any _ _ h λ o _.
          ensures_bind inv Any Any _ _ (ensures_assert_current_fence env job inv May kept)
            λ _ _. ensures_returned inv Any o tt)
        λ e. ensures_throw inv Any (query_failed type op)

  ensures_settle_execution :
      (i : Intent) (c : Connector) (o : ReconcileOutcome)
      → Ensures inv (settle_execution env job i c o) Any
  ensures_settle_execution i c (ReconcileOutcome.found draft) =
      ensures_bind inv Any Any _ _
        (ensures_persist_receipt env job inv May kept i draft Marker.executed)
        λ _ _.
          ensures_bind inv Any Any _ _ (ensures_finalize_execution_receipt i)
            λ j _. ensures_returned inv Any _ tt
  ensures_settle_execution i c (ReconcileOutcome.not_found definitive) =
      ensures_if inv Any (definitive && c.capabilities.idempotency_key) _ _
        (λ absent.
          ensures_throw_after inv Any Any _ _ (ensures_transition env job inv May kept i failed))
        λ doubt. ensures_returned inv Any _ tt
  ensures_settle_execution i c ReconcileOutcome.unknown = ensures_returned inv Any _ tt

  ensures_reconcile_unknown_execution :
      (i : Intent) (c : Connector)
      → ((j : Intent) → May (Call.reconcile j))
      → Ensures inv (reconcile_unknown_execution env job i c) Any
  unfolding reconcile_unknown_execution
  ensures_reconcile_unknown_execution i c may =
      ensures_bind inv Any Any _ _ (ensures_move_to_reconciliation env job inv May kept i) λ j _.
        ensures_if inv Any
          (not c.capabilities.query_by_idempotency_key && not c.capabilities.query_by_external_id) _
          _ (λ blind. ensures_returned inv Any _ tt)
          λ able.
            ensures_bind inv Any Any _ _
              (ensures_query c.type "reconcile" _
                (ensures_call env job inv May kept Call.reconcile c.reconcile j (may j)))
              λ o _. ensures_settle_execution j c o

  ensures_wait_for_receipt :
      (i : Intent) (c : Connector)
      → May (Call.execute i)
      → Ensures inv (wait_for_receipt env job i c) Any
  unfolding wait_for_receipt
  ensures_wait_for_receipt i c may =
      ensures_if inv Any (same_status i.status reconciliation_required) _ _
        (λ there. ensures_returned inv Any _ tt)
        λ elsewhere.
          ensures_bind inv Any Any _ _
            (ensures_call env job inv May kept Call.execute c.execute i may)
            λ o _.
              ensures_bind inv Any Any _ _
                (ensures_lift inv Any (check_waiting env job c o) λ _ _. tt)
                λ _ _.
                  ensures_bind inv Any Any _ _
                    (ensures_move_to_reconciliation env job inv May kept i)
                    λ j _. ensures_returned inv Any _ tt

  -- The calls that `reconcileEffect` makes, of an intent as it was read: it queries; it executes only
  -- an effect whose connector is manual, or one that is PREPARED or FAILED and cleared, with the
  -- intent that the store gave back as EXECUTING.
  pub record MayCall (i : Intent) : Type 0 where
    pub query : (j : Intent) → May (Call.reconcile j)
    pub manual :
        (c : Connector)
        → resolve_for_intent env.host env.registry i ≡ ok c
        → is_automatic c ≡ false
        → May (Call.execute i)
    pub automatic :
        (c : Connector)
        → resolve_for_intent env.host env.registry i ≡ ok c
        → is_automatic c ≡ true
        → is_executable i.status ≡ true
        → IsCleared env i
        → (j : Intent) → IsBegun env job i executing j
        → May (Call.execute j)

  ensures_advance :
      (i : Intent) (c : Connector) (o : Option Receipt)
      → resolve_for_intent env.host env.registry i ≡ ok c
      → MayCall i
      → Ensures inv (advance env job i c o) Any
  unfolding advance
  ensures_advance i c (some receipt) e may =
      ensures_bind inv Any Any _ _ (ensures_finalize_execution_receipt i)
        λ j _. ensures_returned inv Any _ tt
  ensures_advance i c none e may =
      ensures_if inv Any (is_terminal i.status) _ _ (λ over. ensures_returned inv Any _ tt)
        λ open_still.
          ensures_if inv Any (is_automatic c) _ _
            (λ automatic.
              ensures_if inv Any (is_unknown i.status) _ _
                (λ doubt. ensures_reconcile_unknown_execution i c may.query)
                λ clear.
                  ensures_if inv Any (is_executable i.status) _ _
                    (λ ready. ensures_execute_prepared i c (may.automatic c e automatic ready))
                    λ stuck. ensures_throw inv Any _)
            λ manual. ensures_wait_for_receipt i c (may.manual c e manual)

  pub ensures_reconcile_intent :
      (i : Intent) → MayCall i → Ensures inv (reconcile_intent env job i) Any
  unfolding reconcile_intent
  ensures_reconcile_intent i may =
      ensures_bind inv Any Any _ _ (ensures_lift inv Any (assert_project job i) λ _ _. tt) λ _ _.
        ensures_bind inv _ Any _ _ (ensures_resolve_connector env job inv May kept i) λ c e.
          ensures_bind inv Any Any _ _ (ensures_read env job inv May kept λ w. w.store.receipts)
            λ rs _. ensures_advance i c (find execution_receipt rs) e may
