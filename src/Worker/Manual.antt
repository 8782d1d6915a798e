-- ===== src/Worker/Manual.antt =====
-- apps/worker/src/manual-receipt-service.ts, and `recordManualReceipt` of effect-store.ts: a user
-- records what came of an effect that no connector executes.
pub mod Recorded
use arc_db.Base.{
  ℕ, suc, String, Bool, true, false, not, ◌&&◌, ◌||◌, Option, none, some, List, [], ◌∷◌, ◌++◌, find,
  Result, ok, err, if◌then◌else◌, ◌==◌, eq_option, or_else,
}
use arc_db.Host.{Host}
use arc_db.Auth.{Principal, authorize, effect_commit}
use arc_db.Contracts.Digest.{Fields, obj, canonical_digest}
use arc_db.Contracts.Effect.{
  EffectStatus, EffectReceipt, prepared, executing, failed, reconciliation_required, same_status,
  status_name, parse_receipt,
}
use arc_db.Contracts.Primitives.{concat}
use arc_db.Worker.Errors.{Fault, runtime, unsafe_connector, other_error}
use arc_db.Worker.Connector.{Intent, Connector, is_automatic, resolve_for_intent, digest_text}
use arc_db.Worker.World.{Env, World, Store, Receipt, Action, lift, ◌>>=◌, ◌>>◌}
use arc_db.Worker.Store.{
  MutationFence, interleave, get_intent, list_receipts, select_expected, highest, has_receipt_id,
}
use arc_db.Worker.Runtime.{terminal_status}

-- `ManualReceiptInput`
pub record Input : Type 0 where
  pub tenant_id : String
  pub project_id : String
  pub intent_id : String
  pub receipt_id : String
  pub external_transaction_id : Option String
  pub external_status : String
  pub before_digest : Option String
  pub after_digest : Option String
  pub actual_effects : Fields
  pub raw_response_ref : Option String
  pub committed_at : Option String

-- The tenant and the project of a row; there is no job here.
abbrev pub scope_of : Receipt → MutationFence
scope_of r = record { tenant_id = r.tenant_id; project_id = r.project_id; job_id = "" }

abbrev pub with_status : EffectStatus → Option Intent → Option Intent
with_status next none = none
with_status next (some i) = some (record i { status = next })

-- `updateStatus`: the row with its new status, or null.
abbrev pub update_status : Receipt → EffectStatus → EffectStatus → Option Intent → Option Intent
update_status new expected next o =
    with_status next (select_expected (scope_of new) new.intent_id expected o)

-- The statuses from which the row goes by RECONCILIATION_REQUIRED.
abbrev pub needs_detour : EffectStatus → Bool
needs_detour s = same_status s prepared || same_status s failed

abbrev pub settle_row : Receipt → EffectStatus → EffectStatus → Option Intent → Option Intent
settle_row new expected terminal o =
    if needs_detour expected
    then update_status new reconciliation_required terminal
        (update_status new expected reconciliation_required o)
    else update_status new expected terminal o

-- The transaction commits the receipt with the row, or throws and leaves both.
abbrev pub commit_receipt : String → Receipt → Option Intent → World → Result Fault Receipt × World
commit_receipt now new none w =
    (err (other_error "Effect status changed while recording receipt"), w)
commit_receipt now new (some i) w =
    let row = record new { sequence = suc (highest w.store.receipts); created_at = now } in
    (
      ok row,
      record w { store = record { intent = some i; receipts = w.store.receipts ++ (row ∷ []) } },
    )

abbrev pub record_or_return :
    String
    → Receipt
    → EffectStatus
    → EffectStatus
    → Option Receipt
    → World
    → Result Fault Receipt × World
record_or_return now new expected terminal (some old) w = (ok old, w)
record_or_return now new expected terminal none w =
    commit_receipt now new (settle_row new expected terminal w.store.intent) w

unfoldable pub record_manual_receipt : Env → Receipt → EffectStatus → EffectStatus → Action Receipt
record_manual_receipt env new expected terminal w =
    let v = interleave env w in
    record_or_return (env.now v.moment) new expected terminal
      (find (has_receipt_id new) v.store.receipts) v

-- Whether a receipt of the same id says the same; the time of the commit is not compared.
abbrev pub says_same : Host → Receipt → EffectReceipt → Bool
says_same host old new =
    eq_option ◌==◌ old.external_transaction_id new.external_transaction_id
    && (old.external_status == new.external_status
        && (eq_option ◌==◌ old.before_digest new.before_digest
            && (eq_option ◌==◌ old.after_digest new.after_digest
                && (eq_option ◌==◌
                      (digest_text
                        (canonical_digest host (obj old.actual_effects) "receipt-effects"))
                      (digest_text
                        (canonical_digest host (obj new.actual_effects) "receipt-effects"))
                    && eq_option ◌==◌ old.raw_response_ref new.raw_response_ref))))

abbrev pub is_receiptable : EffectStatus → Bool
is_receiptable s =
    same_status s prepared
    || (same_status s executing || (same_status s failed || same_status s reconciliation_required))

abbrev pub unreceipted : Input → Intent → String → EffectReceipt
unreceipted input i created_at = record {
  id = input.receipt_id;
  intent_id = i.id;
  external_transaction_id = input.external_transaction_id;
  external_status = input.external_status;
  before_digest = input.before_digest;
  after_digest = input.after_digest;
  actual_effects = input.actual_effects;
  raw_response_ref = input.raw_response_ref;
  compensation_status = none;
  committed_at = some (or_else input.committed_at created_at);
  created_at = created_at;
}

abbrev pub as_input : Input → EffectReceipt → Receipt
as_input input r = record {
  id = r.id;
  tenant_id = input.tenant_id;
  project_id = input.project_id;
  intent_id = r.intent_id;
  sequence = 0;
  external_transaction_id = r.external_transaction_id;
  external_status = r.external_status;
  before_digest = r.before_digest;
  after_digest = r.after_digest;
  actual_effects = r.actual_effects;
  raw_response_ref = r.raw_response_ref;
  compensation_status = none;
  committed_at = r.committed_at;
  created_at = "";
}

-- What a throw of another package is to the worker.
abbrev pub foreign {ℓ κ} : {E : Type κ} {A : Type ℓ} → String → Result E A → Result Fault A
foreign name (ok a) = ok a
foreign name (err e) = err (other_error name)

module _ (env : Env) where
  abbrev pub found_intent : Input → Option Intent → Result Fault Intent
  found_intent input none =
      err (runtime "EFFECT_INTENT_NOT_FOUND" "Effect intent was not found" false)
  found_intent input (some i) =
      if i.project_id == input.project_id
      then ok i
      else err (runtime "EFFECT_INTENT_NOT_FOUND" "Effect intent was not found" false)

  abbrev pub check_manual : Connector → Result Fault (Unit {0})
  check_manual c =
      if is_automatic c
      then err (unsafe_connector c.type "only manual connectors accept user receipts")
      else ok tt

  abbrev pub check_status : Intent → Result Fault (Unit {0})
  check_status i =
      if is_receiptable i.status
      then ok tt
      else err (
          runtime "EFFECT_STATE_NOT_RECEIPTABLE"
            (concat (
              "Effect "
              ∷ i.id
              ∷ " cannot accept a manual receipt from "
              ∷ status_name i.status
              ∷ []))
            false)

  abbrev pub submit : Input → Intent → EffectReceipt → Option Receipt → Action Receipt
  submit input i r (some old) =
      lift (if says_same env.host old r then ok old else err (other_error "ReceiptImmutableError"))
  submit input i r none = do
    lift (check_status i)
    record_manual_receipt env (as_input input r) i.status (terminal_status i)

  -- `ManualReceiptService.record`
  unfoldable pub record_receipt : Principal → Input → Action Receipt
  unfolding record_manual_receipt terminal_status
  record_receipt principal input = do
    lift (
        foreign "AuthorizationError" (
          authorize principal effect_commit
            (some (record { tenant_id = input.tenant_id; project_id = some input.project_id }))))
    row ← get_intent env input.tenant_id input.project_id input.intent_id
    i ← lift (found_intent input row)
    c ← lift (resolve_for_intent env.host env.registry i)
    lift (check_manual c)
    moment ← λ w. (ok w.moment, w)
    r ← lift (foreign "ZodError" (parse_receipt env.host (unreceipted input i (env.now moment))))
    receipts ← list_receipts env
    submit input i r (find (λ old. old.id == r.id) receipts)
