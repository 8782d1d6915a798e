-- ===== src/Worker/Manual/Recorded.antt =====
-- apps/worker/src/effect-store.ts: what `recordManualReceipt` does to the rows.
use arc_db.Base.{
  ℕ, suc, String, List, All, ◌<◌, eq_iff, true, ◌≡◌, refl, inl, inr, ◌&&◌, Option, none, some, [],
  ◌∷◌, ◌++◌, find, Result, ok, err, arith, Bool-cases,
}
use arc_db.Contracts.Effect.{EffectStatus, reconciliation_required, same_status}
use arc_db.Lifecycle.Effects.{can_transition_effect}
use arc_db.Lifecycle.Effects.Graph.{Reaches, here, next}
use arc_db.Worker.Errors.{Fault}
use arc_db.Worker.Connector.{Intent}
use arc_db.Worker.World.{Env, World, Store, Receipt}
use arc_db.Worker.Store.{interleave, has_receipt_id, is_row, highest}
use arc_db.Worker.Runtime.{terminal_status}
use arc_db.Worker.Manual.{
  record_manual_receipt, record_or_return, commit_receipt, settle_row, update_status, with_status,
  needs_detour, is_receiptable,
}

-- The intent is the one that the receipt names.
abbrev pub IsOf : Receipt → Intent → Type 0
IsOf new i =
    (i.tenant_id ≡ new.tenant_id) × (i.project_id ≡ new.project_id) × (i.id ≡ new.intent_id)

below_highest : (n : ℕ) (log : List Receipt) → highest log < n → All (λ r. r.sequence < n) log
below_highest n [] h = tt
below_highest n (r ∷ rs) h = (ground arith, below_highest n rs (ground arith))

-- The rows as the transaction finds them, and what it gives.
pub data Recorded (now : String) (new : Receipt) (expected terminal : EffectStatus) (found : Store)
    (r : Result Fault Receipt × World) : Type 0 where
  refused :
      (e : Fault) → r.0 ≡ err e → r.1.store ≡ found → Recorded now new expected terminal found r
  known :
      (old : Receipt)
      → r.0 ≡ ok old
      → find (has_receipt_id new) found.receipts ≡ some old
      → r.1.store ≡ found
      → Recorded now new expected terminal found r
  settled :
      (i : Intent) (row : Receipt)
      → r.0 ≡ ok row
      → row ≡ record new { sequence = row.sequence; created_at = now }
      → All (λ r. r.sequence < row.sequence) found.receipts
      → find (has_receipt_id new) found.receipts ≡ none
      → found.intent ≡ some i
      → IsOf new i
      → i.status ≡ expected
      → r.1.store ≡ record {
        intent = some (record i { status = terminal });
        receipts = found.receipts ++ (row ∷ []);
      }
      → Recorded now new expected terminal found r

update_status-some :
    (new : Receipt) (expected to : EffectStatus) (o : Option Intent) (j : Intent)
    → update_status new expected to o ≡ some j
    → (i : Intent) × (o ≡ some i)
      × IsOf new i
      × (i.status ≡ expected)
      × (j ≡ record i { status = to })
update_status-some new expected to none j h = cc
update_status-some new expected to (some i) j h =
    elim (Bool-cases
      (is_row new.tenant_id new.project_id new.intent_id i && same_status i.status expected)) [
        | inl fits ↦
            let e : with_status to (some i) ≡ some j = rw fits at h in
            (
              i,
              refl,
              (
                (eq_iff i.tenant_id new.tenant_id).0 (ground arith),
                (eq_iff i.project_id new.project_id).0 (ground arith),
                (eq_iff i.id new.intent_id).0 (ground arith),
              ),
              ground arith,
              moved i j e,
            )
        | inr misses ↦ let e : none ≡ some j = rw misses at h in cc
      ]
  where
    moved : (i j : Intent) → with_status to (some i) ≡ some j → j ≡ record i { status = to }
    moved i j e = cc

status_twice :
    (i j k : Intent) (to mid : EffectStatus)
    → j ≡ record k { status = to }
    → k ≡ record i { status = mid }
    → j ≡ record i { status = to }
status_twice i j k to mid e f = rw (e, f) refl

settle_row-some :
    (new : Receipt) (expected terminal : EffectStatus) (o : Option Intent) (j : Intent)
    → settle_row new expected terminal o ≡ some j
    → (i : Intent) × (o ≡ some i)
      × IsOf new i
      × (i.status ≡ expected)
      × (j ≡ record i { status = terminal })
settle_row-some new expected terminal o j h = elim (Bool-cases (needs_detour expected)) [
  | inl detour ↦
      let (k, ek, _, sk, ej) =
        update_status-some new reconciliation_required terminal
          (update_status new expected reconciliation_required o) j (rw detour at h) in
      let (i, ei, oi, si, ek') = update_status-some new expected reconciliation_required o k ek in
      (i, ei, oi, si, status_twice i j k terminal reconciliation_required ej ek')
  | inr direct ↦ update_status-some new expected terminal o j (rw direct at h)
]

-- Recording a manual receipt either throws and changes nothing, or gives back the receipt that has
-- this id and changes nothing, or, both at once, sets the row of the effect that the receipt names from
-- the expected status to the terminal one and changes nothing else of it, and appends the receipt as
-- it was given, with the time of the database and a sequence above all others.
pub record_manual_receipt-Recorded :
    (env : Env) (new : Receipt) (expected terminal : EffectStatus) (w : World)
    → Recorded
        (env.now (suc w.moment))
        new
        expected
        terminal
        (env.others w.moment w.store)
        (record_manual_receipt env new expected terminal w)
unfolding record_manual_receipt
record_manual_receipt-Recorded env new expected terminal w =
    by_id (find (has_receipt_id new) (interleave env w).store.receipts) refl
  where
    by_row :
        (o : Option Intent)
        → settle_row new expected terminal (interleave env w).store.intent ≡ o
        → find (has_receipt_id new) (interleave env w).store.receipts ≡ none
        → Recorded
            (env.now (suc w.moment))
            new
            expected
            terminal
            (env.others w.moment w.store)
            (commit_receipt (env.now (interleave env w).moment) new o (interleave env w))
    by_row none e f = refused _ refl refl
    by_row (some j) e f =
        let (i, ei, oi, si, ej) =
          settle_row-some new expected terminal (interleave env w).store.intent j e in
        rw ej (
          settled i _ refl refl (below_highest _ (interleave env w).store.receipts (omega arith)) f
            ei oi si refl)

    by_id :
        (o : Option Receipt)
        → find (has_receipt_id new) (interleave env w).store.receipts ≡ o
        → Recorded (env.now (suc w.moment)) new expected terminal (env.others w.moment w.store) (
            record_or_return
              (env.now (interleave env w).moment)
              new
              expected
              terminal
              o
              (interleave env w))
    by_id (some old) e = known old refl e refl
    by_id none e = by_row (settle_row new expected terminal (interleave env w).store.intent) refl e

-- From each status that accepts a manual receipt the table of transitions has a path to the terminal
-- status of the effect.
pub is_receiptable-Reaches :
    (i : Intent) → is_receiptable i.status ≡ true → Reaches i.status (terminal_status i)
unfolding can_transition_effect terminal_status
is_receiptable-Reaches i h =
    elim (Bool-cases (can_transition_effect i.status reconciliation_required)) [
      | inl edge ↦ next edge (next {b = terminal_status i} (ground arith) here)
      | inr stuck ↦ next {b = terminal_status i} (ground arith) here
    ]
