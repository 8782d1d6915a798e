-- ===== src/Worker/Runtime/Begun.antt =====
-- apps/worker/src/effects.ts: what `#beginExternalOperation` leaves in the store when it returns.
use arc_db.Base.{
  ℕ, suc, String, ◌≡◌, refl, Option, none, some, Result, ok, err, arith, ◌&&◌, Bool-cases, inl, inr,
  leb, eq_iff, ap, ◌∙◌, sym, true,
}
use arc_db.Contracts.Effect.{EffectStatus, same_status}
use arc_db.Lifecycle.Effects.{can_transition_effect}
use arc_db.Worker.Errors.{Fault}
use arc_db.Worker.Connector.{Intent}
use arc_db.Worker.World.{Env, World, Action, ◌>>=◌, resume, lift}
use arc_db.Worker.Store.{
  MutationFence, interleave, select_expected, write_row, update_row, begin_external_operation,
  is_row, start,
}
use arc_db.Worker.Runtime.{
  Job, begin, assert_current_fence, mutation_fence, updated_or_throw, lease_seconds,
}

-- The rows that `begin` meets: the others have had two turns.
abbrev pub met : Env → World → World
met env w = interleave env (interleave env w)

-- The intent is what `begin` returned at some world, and the row that it left: the row of the same
-- effect, found there in the status that was read, with the new status and a new fencing token.
pub record IsBegun (env : Env) (job : Job) (read : Intent) (next : EffectStatus) (given : Intent)
    : Type 0 where
  pub at_world : World
  pub after : World
  pub edge : can_transition_effect read.status next ≡ true
  pub begun : begin env job read next at_world ≡ (ok given, after)
  pub stored : after.store.intent ≡ some given
  pub row : Intent
  pub found : (met env at_world).store.intent ≡ some row
  pub same_effect :
      (row.tenant_id ≡ read.tenant_id) × (row.project_id ≡ read.project_id) × (row.id ≡ read.id)
  pub same_status_as_read : row.status ≡ read.status
  pub written : given ≡ record row {
    status = next;
    fencing_token = some (env.acquired (suc (suc at_world.moment)));
  }

resume_ran {ℓ κ} :
    {A : Type ℓ} {B : Type κ} (next : A → Action B) (r : Result Fault A × World) {b : B} {v : World}
    → resume next r ≡ (ok b, v)
    → (a : A) × (u : World) × (r ≡ (ok a, u)) × (next a u ≡ (ok b, v))
resume_ran next (ok a, u) h = (a, u, refl, h)
resume_ran next (err e, u) {b} {v} h = do
  let failed : err e ≡ ok b = ap (λ (x : Result Fault _ × World). x.0) h
  cc

-- A sequence that returns: its first part has returned.
bind_ran {ℓ κ} :
    {A : Type ℓ} {B : Type κ} (m : Action A) (next : A → Action B) (w : World) {b : B} {v : World}
    → (m >>= next) w ≡ (ok b, v)
    → (a : A) × (u : World) × (m w ≡ (ok a, u)) × (next a u ≡ (ok b, v))
unfolding ◌>>=◌
bind_ran m next w h = resume_ran next (m w) h

written-some :
    (env : Env) (change : Intent → Intent) (u : World) (o : Option Intent) (j : Intent) (v : World)
    → write_row env o change u ≡ (ok (some j), v)
    → (i : Intent) × (o ≡ some i) × (j ≡ change i) × (v.store.intent ≡ some j)
written-some env change u none j v h = do
  let nothing : ok none ≡ ok (some j) = ap (λ (x : Result Fault (Option Intent) × World). x.0) h
  cc
written-some env change u (some i) j v h =
    let value : ok (some (change i)) ≡ ok (some j) =
      ap (λ (x : Result Fault (Option Intent) × World). x.0) h in
    let left : some (change i) ≡ v.store.intent =
      ap (λ (x : Result Fault (Option Intent) × World). x.1.store.intent) h in
    (i, refl, cc, cc)

selected-some :
    (fence : MutationFence) (id : String) (expected : EffectStatus) (o : Option Intent) (i : Intent)
    → select_expected fence id expected o ≡ some i
    → (o ≡ some i)
      × (is_row fence.tenant_id fence.project_id id i && same_status i.status expected ≡ true)
selected-some fence id expected none i h = cc
selected-some fence id expected (some k) i h =
    elim (Bool-cases
      (is_row fence.tenant_id fence.project_id id k && same_status k.status expected)) [
        | inl fits ↦
            let e : some k ≡ some i = rw fits at h in let f : k ≡ i = cc in (e, rw (← f) fits)
        | inr misses ↦ let e : none ≡ some i = rw misses at h in cc
      ]

-- The row that an update gives back is the one found as expected, changed, and it is stored.
update_row-some :
    (env : Env) (fence : MutationFence) (id : String) (expected : EffectStatus)
    (change : World → Intent → Intent) (w : World) (j : Intent) (v : World)
    → update_row env fence id expected change w ≡ (ok (some j), v)
    → (i : Intent) × ((interleave env w).store.intent ≡ some i)
      × (is_row fence.tenant_id fence.project_id id i && same_status i.status expected ≡ true)
      × (j ≡ change (interleave env w) i)
      × (v.store.intent ≡ some j)
update_row-some env fence id expected change w j v h =
    let u = interleave env w in
    elim (Bool-cases (env.job_current u.moment)) [
      | inl fits ↦
          let (i, chosen, made, left) =
            written-some env (change u) u (select_expected fence id expected u.store.intent) j v
              (rw fits at h) in
          let (found, named) = selected-some fence id expected u.store.intent i chosen in
          (i, found, named, made, left)
      | inr misses ↦ cc (ap (λ (x : Result Fault (Option Intent) × World). x.0) (rw misses at h))
    ]

updated-some :
    (read : Intent) (o : Option Intent) (u v : World) (j : Intent)
    → lift (updated_or_throw read o) u ≡ (ok j, v)
    → (o ≡ some j) × (u ≡ v)
updated-some read none u v j h = cc (ap (λ (x : Result Fault Intent × World). x.0) h)
updated-some read (some k) u v j h =
    let value : ok k ≡ ok j = ap (λ (x : Result Fault Intent × World). x.0) h in
    (cc, ap (λ (x : Result Fault Intent × World). x.1) h)

begin_external_operation-some :
    (env : Env) (id : String) (expected next : EffectStatus) (fence : MutationFence) (lease : ℕ)
    (w : World) (j : Intent) (v : World)
    → begin_external_operation env id expected next fence lease w ≡ (ok (some j), v)
    → update_row env fence id expected (start env next) w ≡ (ok (some j), v)
unfolding begin_external_operation
begin_external_operation-some env id expected next fence lease w j v h =
    elim (Bool-cases (leb 1 lease && leb lease 3600)) [
      | inl fits ↦ rw fits at h
      | inr misses ↦ cc (ap (λ (x : Result Fault (Option Intent) × World). x.0) (rw misses at h))
    ]

eq_of_same_status : (a b : EffectStatus) → same_status a b ≡ true → a ≡ b
eq_of_same_status a b h = ground arith

names_row :
    (read row : Intent)
    → is_row read.tenant_id read.project_id read.id row && same_status row.status read.status ≡ true
    → ((row.tenant_id ≡ read.tenant_id) × (row.project_id ≡ read.project_id) × (row.id ≡ read.id))
      × (row.status ≡ read.status)
names_row read row h = (
  (
    (eq_iff row.tenant_id read.tenant_id).0 (ground arith),
    (eq_iff row.project_id read.project_id).0 (ground arith),
    (eq_iff row.id read.id).0 (ground arith),
  ),
  eq_of_same_status row.status read.status (ground arith),
)

ran-IsBegun :
    (env : Env) (job : Job) (read : Intent) (next : EffectStatus) (w v : World) (j : Intent)
    → begin env job read next w ≡ (ok j, v)
    → IsBegun env job read next j
unfolding begin
ran-IsBegun env job read next w v j ran =
    elim (Bool-cases (can_transition_effect read.status next)) [
      | inr barred ↦ cc (ap (λ (x : Result Fault Intent × World). x.0) (rw barred at ran))
      | inl edge ↦
          let (_, u, checked, rest) =
            bind_ran (assert_current_fence env job) _ w (rw edge at ran) in
          let (o, u', updated, last) = bind_ran _ _ u rest in
          let (given, same) = updated-some read o u' v j last in
          let met_u : interleave env w ≡ u = ap (λ (x : Result Fault Unit × World). x.1) checked in
          let (row, found, named, made, left) =
            update_row-some env (mutation_fence env job read) read.id read.status (start env next) u
              j v
              (begin_external_operation-some env read.id read.status next
                (mutation_fence env job read) (lease_seconds job.timeout_ms) u j v
                (updated
                  ∙ ap (λ (a : Option Intent). (ok a, u')) given
                  ∙ ap (λ (b : World). (ok (some j), b)) same)) in
          record {
            at_world = w;
            after = v;
            edge = edge;
            begun = ran;
            stored = left;
            row = row;
            found = ap (λ (x : World). (interleave env x).store.intent) met_u ∙ found;
            same_effect = (names_row read row named).0;
            same_status_as_read = (names_row read row named).1;
            written =
                made
                ∙ ap
                    (λ (x : World). record row {
                      status = next;
                      fencing_token = some (env.acquired (suc x.moment));
                    })
                    (sym met_u);
          }
    ]

pub begin-IsBegun :
    (env : Env) (job : Job) (read : Intent) (next : EffectStatus) (w : World) (j : Intent)
    → (begin env job read next w).0 ≡ ok j
    → IsBegun env job read next j
begin-IsBegun env job read next w j h =
    ran-IsBegun env job read next w (begin env job read next w).1 j
      (ap (λ r. (r, (begin env job read next w).1)) h)
