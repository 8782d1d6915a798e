-- ===== src/Worker/Examples/Jobs.antt =====
-- The theorems on effects.ts and registry.ts, each at one job on one effect.
use mathlib.Core.List.{Memᴰ}
use arc_db.Base.{
  min, true, ◌≡◌, refl, sym, subst, All, find, ◌⊎◌, none, some, [], ◌∷◌, append-nil, ok, ◌≤◌, ◌<◌,
  ◌+◌, ◌*◌,
}
use arc_db.Base.Sort.{sort}
use arc_db.Contracts.Digest.{canonical_digest, canonicalize, canonicalize_value}
use arc_db.Contracts.Effect.{committed, compensation_pending}
use arc_db.Lifecycle.Examples.{sample_host}
use arc_db.Lifecycle.Effects.{can_transition_effect}
use arc_db.Worker.Connector.{
  Intent, Registry, is_allowed, has_type, resolve_for_intent, resolve, same_capabilities, register,
  check_capabilities,
}
use arc_db.Worker.Connector.Registered.{IsSafe, register-IsSafe, Suits, resolve_for_intent-Suits}
use arc_db.Worker.World.{Call, ◌>>=◌, catch}
use arc_db.Worker.Store.{store_transition, begin_external_operation, append_receipt}
use arc_db.Worker.Runtime.{
  transition, begin, resolve_connector_or_mark_reconciliation, assert_external_fence,
  persist_receipt, execution_receipt, compensation_receipt, terminal_status, lease_seconds,
}
use arc_db.Worker.Runtime.Execute.{
  reconcile_intent, reconcile_effect, advance, execute_prepared, check_approval,
  handle_execution_outcome, finalize_execution_receipt,
}
use arc_db.Worker.Runtime.Compensate.{
  compensate_intent, run_compensation, advance_compensation, compensate,
  finalize_compensation_receipt,
}
use arc_db.Worker.Runtime.Compensate.Keeps.{IsPending}
use arc_db.Worker.Safety.{
  IsFirstExecution, reconcile_intent-IsFirstExecution, compensate_intent-MayUndo, Extends,
  jobs-Extends, Steps, jobs-Steps, lease_seconds_lem,
}
use arc_db.Worker.Examples.{
  sample_connector, sample_registry, sample_env, sample_row, sample_job, world_of, running_row,
}

resolved : resolve_for_intent sample_host sample_registry sample_row ≡ ok sample_connector
unfolding resolve_for_intent resolve same_capabilities canonical_digest canonicalize
    canonicalize_value sort
resolved = refl

-- The job of a prepared effect calls its connector once.
executed_once :
    (reconcile_intent sample_env sample_job sample_row (world_of sample_row)).1.calls
    ≡ Call.execute running_row ∷ []
unfolding reconcile_intent resolve_connector_or_mark_reconciliation advance execute_prepared
    check_approval begin begin_external_operation can_transition_effect lease_seconds
    assert_external_fence handle_execution_outcome persist_receipt append_receipt
    finalize_execution_receipt terminal_status transition store_transition execution_receipt
    resolve_for_intent resolve same_capabilities canonical_digest canonicalize canonicalize_value
    sort ◌>>=◌ catch
executed_once = refl

reconcile_intent-IsFirstExecution_example :
    IsFirstExecution sample_env sample_job sample_row running_row
reconcile_intent-IsFirstExecution_example =
    reconcile_intent-IsFirstExecution sample_env sample_job sample_row running_row sample_connector
      (world_of sample_row) refl resolved refl
      (subst (λ l. Memᴰ (Call.execute running_row) l) (sym executed_once) (Memᴰ.head refl))

abbrev committed_row : Intent
committed_row = record sample_row { status = committed }

abbrev pending_row : Intent
pending_row = record sample_row { status = compensation_pending; fencing_token = some "2" }

-- The compensation of a committed effect calls its connector once.
compensated_once :
    (compensate_intent sample_env sample_job committed_row (world_of committed_row)).1.calls
    ≡ Call.compensate pending_row ∷ []
unfolding compensate_intent resolve_connector_or_mark_reconciliation advance_compensation compensate
    begin begin_external_operation can_transition_effect lease_seconds assert_external_fence
    persist_receipt append_receipt finalize_compensation_receipt transition store_transition
    compensation_receipt resolve_for_intent resolve same_capabilities canonical_digest canonicalize
    canonicalize_value sort ◌>>=◌ catch
compensated_once = refl

compensate_intent-MayUndo_example :
    ((j : Intent) × (Call.compensate pending_row ≡ Call.reconcile_compensation j))
    ⊎ ((j : Intent) × (Call.compensate pending_row ≡ Call.compensate j)
        × IsPending sample_env sample_job j)
compensate_intent-MayUndo_example =
    compensate_intent-MayUndo sample_env sample_job committed_row (world_of committed_row)
      (Call.compensate pending_row) refl
      (subst (λ l. Memᴰ (Call.compensate pending_row) l) (sym compensated_once) (Memᴰ.head refl))

jobs-Extends_example :
    Extends [] (reconcile_effect sample_env sample_job (world_of sample_row)).1.store.receipts
    × Extends [] (run_compensation sample_env sample_job (world_of sample_row)).1.store.receipts
jobs-Extends_example =
    jobs-Extends sample_env sample_job (world_of sample_row)
      λ n s. ([], sym (append-nil s.receipts))

jobs-Steps_example :
    Steps sample_env
      (world_of sample_row)
      (reconcile_effect sample_env sample_job (world_of sample_row)).1
    × Steps sample_env
        (world_of sample_row)
        (run_compensation sample_env sample_job (world_of sample_row)).1
jobs-Steps_example = jobs-Steps sample_env sample_job (world_of sample_row)

lease_seconds_lem_example :
    (30 ≤ lease_seconds 60000)
    × (lease_seconds 60000 ≤ 3600)
    × (min (60000 + 30000) 3600000 ≤ lease_seconds 60000 * 1000)
    × (lease_seconds 60000 * 1000 < 60000 + 31000)
lease_seconds_lem_example = lease_seconds_lem 60000

resolve_for_intent-Suits_example : Suits sample_host sample_registry sample_row sample_connector
resolve_for_intent-Suits_example =
    resolve_for_intent-Suits sample_host sample_registry sample_row sample_connector resolved

abbrev no_connectors : Registry
no_connectors = record { connectors = []; allowlist = none }

registered : register no_connectors sample_connector ≡ ok sample_registry
unfolding register check_capabilities
registered = refl

register-IsSafe_example :
    All IsSafe (sample_connector ∷ [])
    × ((sample_connector ∷ []) ≡ sample_connector ∷ [])
    × (no_connectors.allowlist ≡ no_connectors.allowlist)
    × (is_allowed no_connectors.allowlist sample_connector.type ≡ true)
    × (find (has_type sample_connector.type) [] ≡ none)
register-IsSafe_example =
    register-IsSafe no_connectors sample_registry sample_connector tt registered
