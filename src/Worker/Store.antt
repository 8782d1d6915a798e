-- ===== src/Worker/Store.antt =====
-- apps/worker/src/effect-store.ts: the operations of `PostgresEffectStore` that the runtime calls,
-- each one transaction. A statement that PostgreSQL itself refuses is not among them.
use arc_db.Base.{
  ℕ, suc, String, Bool, ◌&&◌, Option, none, some, List, [], ◌∷◌, ◌++◌, find, Result, ok, err, ◌==◌,
  eq_option, if◌then◌else◌, leb,
}
use arc_db.Host.{Host}
use arc_db.Contracts.Digest.{obj, canonical_digest}
use arc_db.Contracts.Effect.{EffectStatus, same_status}
use arc_db.Worker.Errors.{Fault, job_fence_lost, other_error}
use arc_db.Worker.Connector.{Intent, digest_text}
use arc_db.Worker.World.{Env, World, Receipt, Action, throw}

-- `EffectMutationFence`, as the runtime fills it: no resource is named. Whether its worker and
-- token are the job's is `job_current`.
pub record MutationFence : Type 0 where
  pub tenant_id : String
  pub project_id : String
  pub job_id : String

-- WHERE tenant_id = $1 AND project_id = $2 AND id = $3
abbrev pub is_row : String → String → String → Intent → Bool
is_row tenant project id i = i.tenant_id == tenant && (i.project_id == project && i.id == id)

abbrev pub select_row : String → String → String → Option Intent → Option Intent
select_row tenant project id none = none
select_row tenant project id (some i) = if is_row tenant project id i then some i else none

-- … AND status = $4
abbrev pub select_expected : MutationFence → String → EffectStatus → Option Intent → Option Intent
select_expected fence id expected none = none
select_expected fence id expected (some i) =
    if is_row fence.tenant_id fence.project_id id i && same_status i.status expected
    then some i
    else none

abbrev pub highest : List Receipt → ℕ
highest [] = 0
highest (r ∷ rs) = let rest = highest rs in if leb r.sequence rest then rest else r.sequence

-- `appendReceipt` finds a receipt of the same id: whether the new one says the same.
abbrev pub same_receipt : Host → Receipt → Receipt → Bool
same_receipt host old new =
    eq_option ◌==◌ old.external_transaction_id new.external_transaction_id
    && (old.external_status == new.external_status
        && (eq_option ◌==◌ old.before_digest new.before_digest
            && (eq_option ◌==◌ old.after_digest new.after_digest
                && (eq_option ◌==◌
                      (digest_text
                        (canonical_digest host (obj old.actual_effects) "receipt-effects"))
                      (digest_text
                        (canonical_digest host (obj new.actual_effects) "receipt-effects"))
                    && (eq_option ◌==◌ old.raw_response_ref new.raw_response_ref
                        && (eq_option ◌==◌ old.compensation_status new.compensation_status
                            && eq_option ◌==◌ old.committed_at new.committed_at))))))

abbrev pub has_receipt_id : Receipt → Receipt → Bool
has_receipt_id new old = old.id == new.id

-- The receipt that stands, or the new one with the sequence and the time that the table gives it.
abbrev pub place_receipt :
    Host → String → List Receipt → Receipt → Option Receipt → Result Fault Receipt × List Receipt
place_receipt host now log new (some old) =
    (if same_receipt host old new then ok old else err (other_error "ReceiptImmutableError"), log)
place_receipt host now log new none =
    let row = record new { sequence = suc (highest log); created_at = now } in
    (ok row, log ++ (row ∷ []))

module _ (env : Env) where
  open env use {host, job_current, resource_current, acquired, others, now}

  -- The world at the next moment, when the others have had their turn.
  abbrev pub interleave : World → World
  interleave w = record w { moment = suc w.moment; store = others w.moment w.store }

  abbrev pub read {ℓ} : {A : Type ℓ} → (World → A) → Action A
  read f w = let v = interleave w in (ok (f v), v)

  abbrev pub get_intent : String → String → String → Action (Option Intent)
  get_intent tenant project id = read λ w. select_row tenant project id w.store.intent

  abbrev pub list_receipts : Action (List Receipt)
  list_receipts = read λ w. w.store.receipts

  abbrev pub is_resource_fence_current : Intent → Action Bool
  is_resource_fence_current i = read λ w. resource_current w.moment i

  -- The row with what `change` makes of it, or null where no row is as expected.
  abbrev pub write_row :
      Option Intent → (Intent → Intent) → World → Result Fault (Option Intent) × World
  write_row none change w = (ok none, w)
  write_row (some i) change w =
      (ok (some (change i)), record w { store = record w.store { intent = some (change i) } })

  abbrev pub update_row :
      MutationFence → String → EffectStatus → (World → Intent → Intent) → Action (Option Intent)
  update_row fence id expected change w =
      let v = interleave w in
      if job_current v.moment
      then write_row (select_expected fence id expected v.store.intent) (change v) v
      else (err (job_fence_lost fence.job_id), v)

  -- `transition`
  unfoldable pub store_transition :
      String → EffectStatus → EffectStatus → MutationFence → Action (Option Intent)
  store_transition id expected next fence =
      update_row fence id expected λ w i. record i { status = next }

  -- `beginExternalOperation`, which takes a new fencing token for the resource
  abbrev pub start : EffectStatus → World → Intent → Intent
  start next w i = record i { status = next; fencing_token = some (acquired w.moment) }

  unfoldable pub begin_external_operation :
      String → EffectStatus → EffectStatus → MutationFence → ℕ → Action (Option Intent)
  begin_external_operation id expected next fence lease =
      if leb 1 lease && leb lease 3600
      then update_row fence id expected (start next)
      else throw (other_error "leaseSeconds must be an integer between 1 and 3600")

  abbrev pub put_receipt :
      Result Fault Receipt × List Receipt → World → Result Fault Receipt × World
  put_receipt (r, log) w = (r, record w { store = record w.store { receipts = log } })

  unfoldable pub append_receipt : Receipt → MutationFence → Action Receipt
  append_receipt new fence w =
      let v = interleave w in
      if new.tenant_id == fence.tenant_id && new.project_id == fence.project_id
      then if job_current v.moment
        then put_receipt
            (place_receipt host (now v.moment) v.store.receipts new
              (find (has_receipt_id new) v.store.receipts))
            v
        else (err (job_fence_lost fence.job_id), v)
      else (err (other_error "Receipt tenant/project does not match job fence"), w)
