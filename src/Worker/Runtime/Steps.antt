-- ===== src/Worker/Runtime/Steps.antt =====
-- apps/worker/src/effects.ts: an invariant that the single writes and calls keep is kept by the steps
-- that both jobs share.
use arc_db.Base.{
  ℕ, suc, String, true, ◌≡◌, refl, Option, none, some, [], ◌∷◌, ◌++◌, find, Result, ok, err, arith,
  ◌&&◌, Bool-cases, inl, inr, ◌==◌, leb,
}
use arc_db.Contracts.Effect.{EffectStatus, same_status, reconciliation_required}
use arc_db.Lifecycle.Effects.{can_transition_effect}
use arc_db.Worker.Errors.{Fault}
use arc_db.Worker.Connector.{Intent, Draft, Connector, resolve_for_intent}
use arc_db.Worker.World.{Env, World, Receipt, Marker, Call}
use arc_db.Worker.Store.{
  MutationFence, interleave, read, select_expected, write_row, update_row, store_transition,
  begin_external_operation, append_receipt, place_receipt, put_receipt, has_receipt_id, is_row,
  highest, start,
}
use arc_db.Worker.Runtime.Begun.{IsBegun, begin-IsBegun}
use arc_db.Worker.Ensures.{
  Ensures, Any, ensures_returned, ensures_throw, ensures_lift, ensures_bind, ensures_if,
  ensures_throw_after, ensures_here,
}
use arc_db.Worker.Runtime.{
  Job, assert_current_fence, hook, call, transition, begin, move_to_reconciliation, mutation_fence,
  updated_or_throw, lease_seconds, assert_external_fence, assert_resource_fence, still_current,
  persist_receipt, drafted, resolve_connector_or_mark_reconciliation, resolved_or_mark,
  marks_unknown,
}

-- A write moves a row along an edge of the table, and changes its status and fencing token alone.
pub record IsMove (i j : Intent) : Type 0 where
  pub edge : can_transition_effect i.status j.status ≡ true
  pub same : j ≡ record i { status = j.status; fencing_token = j.fencing_token }

-- An invariant kept by every single step: a turn of the other processes, alone, behind a call that is
-- allowed, or before a write of a row along the table or a receipt that is appended.
pub record IsKept (env : Env) (inv : World → Type 0) (May : Call → Type 0) : Type 0 where
  pub elsewhere : (w : World) → inv w → inv (interleave env w)
  pub called :
      (w : World) (c : Call)
      → May c
      → inv w
      → inv (interleave env (record w { calls = c ∷ w.calls }))
  pub written :
      (w : World) (i j : Intent)
      → (interleave env w).store.intent ≡ some i
      → IsMove i j
      → inv w
      → inv (record (interleave env w) {
        store = record (interleave env w).store { intent = some j };
      })
  pub logged :
      (w : World) (r : Receipt)
      → inv w
      → inv (record (interleave env w) {
        store = record (interleave env w).store {
          receipts = (interleave env w).store.receipts ++ (r ∷ []);
        };
      })

eq_of_same_status : (a b : EffectStatus) → same_status a b ≡ true → a ≡ b
eq_of_same_status a b h = ground arith

edge_of :
    {a b c d : EffectStatus}
    → a ≡ c
    → b ≡ d
    → can_transition_effect c d ≡ true
    → can_transition_effect a b ≡ true
edge_of p q t = rw (p, q) t

-- What holds of the row that a write gives back, if there is one.
abbrev pub IfRow : (Intent → Type 0) → Option Intent → Type 0
IfRow P none = Unit
IfRow P (some i) = P i

row_of_write :
    (P : Intent → Type 0) (env : Env) (change : Intent → Intent) (w : World) (o p : Option Intent)
    → ((i : Intent) → P (change i))
    → (write_row env o change w).0 ≡ ok p
    → IfRow P p
row_of_write P env change w none p all h = let e : none ≡ p = cc in rw (← e) tt
row_of_write P env change w (some i) p all h = let e : some (change i) ≡ p = cc in rw (← e) (all i)

row_of_updated :
    (P : Intent → Type 0) (i : Intent) (o : Option Intent) (j : Intent)
    → IfRow P o
    → updated_or_throw i o ≡ ok j
    → P j
row_of_updated P i none j p h = cc
row_of_updated P i (some k) j p h = let e : k ≡ j = cc in rw (← e) p

module _ (env : Env) (job : Job) (inv : World → Type 0) (May : Call → Type 0)
    (kept : IsKept env inv May) where
  open kept use {elsewhere, called, written, logged}

  pub ensures_read {ℓ} : {A : Type ℓ} (f : World → A) → Ensures inv (read env f) Any
  unfolding Ensures
  ensures_read f w i = (elsewhere w i, λ a h. tt)

  pub ensures_assert_current_fence : Ensures inv (assert_current_fence env job) Any
  unfolding Ensures
  ensures_assert_current_fence w i = (elsewhere w i, λ a h. tt)

  pub ensures_hook : (thrown : ℕ → Option Fault) → Ensures inv (hook env job thrown) Any
  unfolding Ensures
  ensures_hook thrown w i = (elsewhere w i, λ a h. tt)

  pub ensures_call {ℓ} :
      {A : Type ℓ} (name : Intent → Call) (method : ℕ → Intent → Result Fault A) (i : Intent)
      → May (name i)
      → Ensures inv (call env job name method i) Any
  unfolding Ensures
  ensures_call name method i may w h = (called w (name i) may h, λ a e. tt)

  -- Where a row is written, it is the row that was expected.
  ensures_write_row :
      (fence : MutationFence) (id : String) (expected next : EffectStatus)
      (change : Intent → Intent) (w : World) (o : Option Intent)
      → (interleave env w).store.intent ≡ o
      → ((i : Intent)
          → ((change i).status ≡ next)
            × (change i ≡ record i {
              status = (change i).status;
              fencing_token = (change i).fencing_token;
            }))
      → can_transition_effect expected next ≡ true
      → inv w
      → inv (write_row env (select_expected fence id expected o) change (interleave env w)).1
  ensures_write_row fence id expected next change w none e c t h = elsewhere w h
  ensures_write_row fence id expected next change w (some i) e c t h =
      elim (Bool-cases
        (is_row fence.tenant_id fence.project_id id i && same_status i.status expected)) [
          | inl fits ↦
              let same : i.status ≡ expected = eq_of_same_status i.status expected (ground arith) in
              let edge : can_transition_effect i.status (change i).status ≡ true =
                edge_of same (c i).0 t in
              rw fits (written w i (change i) e (record { edge = edge; same = (c i).1 }) h)
          | inr misses ↦ rw misses (elsewhere w h)
        ]

  -- An update along an edge of the table, of which the written row satisfies `P`.
  ensures_update_row :
      (P : Intent → Type 0) (fence : MutationFence) (id : String) (expected next : EffectStatus)
      (change : World → Intent → Intent)
      → ((v : World) (i : Intent)
          → ((change v i).status ≡ next)
            × (change v i ≡ record i {
              status = (change v i).status;
              fencing_token = (change v i).fencing_token;
            })
            × P (change v i))
      → can_transition_effect expected next ≡ true
      → Ensures inv (update_row env fence id expected change) (IfRow P)
  unfolding Ensures
  ensures_update_row P fence id expected next change c t w h =
      let v = interleave env w in
      elim (Bool-cases (env.job_current v.moment)) [
        | inl fits ↦ rw fits (
          ensures_write_row fence id expected next (change v) w v.store.intent refl
              (λ i. ((c v i).0, (c v i).1)) t h,
          λ a e.
              row_of_write P env (change v) v (select_expected fence id expected v.store.intent) a
                (λ i. (c v i).2) e,
        )
        | inr misses ↦ rw misses (elsewhere w h, λ a e. cc)
      ]

  ensures_store_transition :
      (i : Intent) (next : EffectStatus)
      → can_transition_effect i.status next ≡ true
      → Ensures inv (store_transition env i.id i.status next (mutation_fence env job i)) (IfRow Any)
  unfolding store_transition
  ensures_store_transition i next edge =
      ensures_update_row Any (mutation_fence env job i) i.id i.status next
        (λ w j. record j { status = next }) (λ v j. (refl, refl, tt)) edge

  pub ensures_transition :
      (i : Intent) (next : EffectStatus) → Ensures inv (transition env job i next) Any
  unfolding transition
  ensures_transition i next =
      ensures_if inv Any (same_status i.status next) _ _ (λ same. ensures_returned inv Any i tt)
        λ differs.
          ensures_if inv Any (can_transition_effect i.status next) _ _
            (λ edge. ensures_bind inv Any Any _ _ ensures_assert_current_fence λ _ _.
              ensures_bind inv (IfRow Any) Any _ _ (ensures_store_transition i next edge)
                λ updated _. ensures_lift inv Any (updated_or_throw i updated) λ _ _. tt)
            λ barred. ensures_throw inv Any _

  ensures_begin_external_operation :
      (i : Intent) (next : EffectStatus) (lease : ℕ)
      → can_transition_effect i.status next ≡ true
      → Ensures inv
          (begin_external_operation env i.id i.status next (mutation_fence env job i) lease)
          (IfRow Any)
  unfolding begin_external_operation
  ensures_begin_external_operation i next lease edge =
      ensures_if inv (IfRow Any) (leb 1 lease && leb lease 3600) _ _
        (λ fits.
          ensures_update_row Any (mutation_fence env job i) i.id i.status next (start env next)
            (λ v j. (refl, refl, tt)) edge)
        λ misses. ensures_throw inv (IfRow Any) _

  ensures_begin-Any : (i : Intent) (next : EffectStatus) → Ensures inv (begin env job i next) Any
  unfolding begin
  ensures_begin-Any i next =
      ensures_if inv Any (can_transition_effect i.status next) _ _
        (λ edge. ensures_bind inv Any Any _ _ ensures_assert_current_fence λ _ _.
          ensures_bind inv (IfRow Any) Any _ _
            (ensures_begin_external_operation i next (lease_seconds job.timeout_ms) edge)
            λ updated p. ensures_lift inv Any (updated_or_throw i updated) λ j h. tt)
        λ barred. ensures_throw inv Any _

  pub ensures_begin :
      (i : Intent) (next : EffectStatus)
      → Ensures inv (begin env job i next) (IsBegun env job i next)
  unfolding Ensures
  ensures_begin i next w h =
      ((ensures_begin-Any i next w h).0, λ j e. begin-IsBegun env job i next w j e)

  pub ensures_move_to_reconciliation :
      (i : Intent) → Ensures inv (move_to_reconciliation env job i) Any
  unfolding move_to_reconciliation
  ensures_move_to_reconciliation i =
      ensures_if inv Any (same_status i.status reconciliation_required) _ _
        (λ same. ensures_returned inv Any i tt)
        λ differs. ensures_transition i reconciliation_required

  pub ensures_assert_external_fence :
      (i : Intent) → Ensures inv (assert_external_fence env job i) Any
  unfolding assert_external_fence
  ensures_assert_external_fence i =
      ensures_bind inv Any Any _ _ ensures_assert_current_fence λ _ _. holds i.fencing_token
    where
      holds : (o : Option String) → Ensures inv (assert_resource_fence env job i o) Any
      holds none = ensures_throw inv Any _
      holds (some token) =
          ensures_bind inv Any Any _ _ (ensures_read λ w. env.resource_current w.moment i)
            λ b _. ensures_lift inv Any (still_current env job i b) λ _ _. tt

  -- The log as it was, or with one receipt more.
  ensures_put_receipt :
      (w : World) (new : Receipt) (now : String) (o : Option Receipt)
      → inv w
      → inv
          (put_receipt env
            (place_receipt env.host now (interleave env w).store.receipts new o)
            (interleave env w)).1
  ensures_put_receipt w new now none h =
      logged w
        (record new {
          sequence = suc (highest (interleave env w).store.receipts);
          created_at = now;
        })
        h
  ensures_put_receipt w new now (some old) h = elsewhere w h

  ensures_append_receipt :
      (new : Receipt) (fence : MutationFence) → Ensures inv (append_receipt env new fence) Any
  unfolding Ensures append_receipt
  ensures_append_receipt new fence w h =
      let v = interleave env w in
      let placed =
        ensures_put_receipt w new (env.now v.moment) (find (has_receipt_id new) v.store.receipts)
          h in
      elim (Bool-cases (new.tenant_id == fence.tenant_id && new.project_id == fence.project_id)) [
        | inr other ↦ rw other (h, λ a e. tt)
        | inl own ↦ elim (Bool-cases (env.job_current v.moment)) [
          | inl fits ↦ rw (own, fits) (placed, λ a e. tt)
          | inr misses ↦ rw (own, misses) (elsewhere w h, λ a e. tt)
        ]
      ]

  pub ensures_persist_receipt :
      (i : Intent) (draft : Draft) (marker : Marker)
      → Ensures inv (persist_receipt env job i draft marker) Any
  unfolding persist_receipt
  ensures_persist_receipt i draft marker =
      ensures_bind inv Any Any _ _ ensures_assert_current_fence λ _ _.
        ensures_bind inv Any Any _ _ ensures_moment λ moment _.
          ensures_append_receipt (drafted env job i draft marker moment) (mutation_fence env job i)
    where
      ensures_moment : Ensures inv (λ w. (ok w.moment, w)) Any
      ensures_moment = ensures_here inv λ w. w.moment

  pub ensures_resolve_connector :
      (i : Intent)
      → Ensures inv
          (resolve_connector_or_mark_reconciliation env job i)
          (λ c. resolve_for_intent env.host env.registry i ≡ ok c)
  unfolding resolve_connector_or_mark_reconciliation
  ensures_resolve_connector i = resolves (resolve_for_intent env.host env.registry i) refl
    where
      resolves :
          (r : Result Fault Connector)
          → resolve_for_intent env.host env.registry i ≡ r
          → Ensures inv
              (resolved_or_mark env job i r)
              (λ c. resolve_for_intent env.host env.registry i ≡ ok c)
      resolves (ok c) e = ensures_returned inv _ c e
      resolves (err f) e =
          ensures_if inv _ (marks_unknown env job i.status) _ _
            (λ marked. ensures_throw_after inv Any _ _ f (ensures_move_to_reconciliation i))
            λ kept. ensures_throw inv _ f
