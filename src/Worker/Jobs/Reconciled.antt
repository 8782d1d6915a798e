-- ===== src/Worker/Jobs/Reconciled.antt =====
-- apps/worker/src/job-store.ts: an effect whose job is given up is left to reconciliation, and a job is
-- enqueued once for its key.
use mathlib.Core.List.{Memᴰ}
use mathlib.Core.List.Memᴰ
use arc_db.Base.{
  ℕ, leb, String, Bool, true, false, Option, none, some, List, [], ◌∷◌, ◌++◌, keep, eq_option, ◌≡◌,
  ◌≢◌, ◌⊎◌, inl, inr, refl, sym, ◌∙◌, ap, subst, ok, ◌>>=◌, >>=-eq-ok, ◌==◌, eq_iff, eq_refl, arith,
  if◌then◌else◌, Bool-cases,
}
use arc_db.Host.{Host}
use arc_db.Contracts.Digest.{Value, obj}
use arc_db.Contracts.Effect.{
  EffectStatus, prepared, executing, compensation_pending, reconciliation_required,
}
use arc_db.Worker.Connector.{Intent}
use arc_db.Worker.Jobs.{
  Job, JobStatus, dead_letter, is_status, Tables, Fence, Resolution, retry_scheduled, dead_lettered,
  first_row, returning, holds, failed_row, buried_row,
}
use arc_db.Worker.Jobs.Store.{
  is_effect_job, intent_of, is_unsettled, is_target, reconcile_where, mark_dead_letter, mark_first,
  resolution_of, fail, fail_with,
}
use arc_db.Worker.Jobs.Enqueue.{
  EnqueueInput, enqueue, validate_enqueue, insert_or_replay, new_job, has_key, check_replay,
  canonical,
}
use arc_db.Worker.Jobs.Fences.{first_of_map}

-- What becomes of the row of an effect whose job is given up: only its status changes, PREPARED,
-- EXECUTING, FAILED and COMPENSATION_PENDING to RECONCILIATION_REQUIRED and no other.
pub data GivenUp (before after : Intent) : Type 0 where
  open_before :
      (before.status ≡ prepared)
        ⊎ (before.status ≡ executing)
        ⊎ (before.status ≡ EffectStatus.failed)
        ⊎ (before.status ≡ compensation_pending)
      → after ≡ record before { status = reconciliation_required }
      → GivenUp before after
  closed_before :
      before.status ≢ prepared
      → before.status ≢ executing
      → before.status ≢ EffectStatus.failed
      → before.status ≢ compensation_pending
      → after ≡ before
      → GivenUp before after

-- The row that `reconcile_where` makes of a row.
abbrev image_of : String → String → String → Intent → Intent
image_of tenant intent project i =
    if is_target tenant intent project i then record i { status = reconciliation_required } else i

unsettled-cases :
    (s : EffectStatus)
    → is_unsettled s ≡ true
    → (s ≡ prepared) ⊎ (s ≡ executing) ⊎ (s ≡ EffectStatus.failed) ⊎ (s ≡ compensation_pending)
unsettled-cases s h = ground arith

image_of-GivenUp :
    (tenant intent project : String) (i : Intent)
    → i.tenant_id ≡ tenant
    → i.id ≡ intent
    → i.project_id ≡ project
    → GivenUp i (image_of tenant intent project i)
image_of-GivenUp tenant intent project i a b c =
    let x = (eq_iff i.tenant_id tenant).1 a in
    let y = (eq_iff i.id intent).1 b in
    let z = (eq_iff i.project_id project).1 c in
    elim (Bool-cases (is_unsettled i.status)) [
      | inl u ↦
          let t : is_target tenant intent project i ≡ true = ground (arith, x, y, z, u) in
          rw t (open_before (unsettled-cases i.status u) refl)
      | inr u ↦
          let t : is_target tenant intent project i ≡ false = ground (arith, x, y, z, u) in
          rw t (
            closed_before (λ e. cc (rw e at u)) (λ e. cc (rw e at u)) (λ e. cc (rw e at u))
              (λ e. cc (rw e at u)) refl)
    ]

-- Every row has its image, and every image its row.
given_up-mem :
    (tenant intent project : String) (effects : List Intent) {i : Intent}
    → Memᴰ i effects
    → Memᴰ (image_of tenant intent project i) (reconcile_where tenant intent project effects)
given_up-mem tenant intent project [] m = elim m [ ]
given_up-mem tenant intent project (e ∷ es) {i} m =
    elim (Bool-cases (is_target tenant intent project e)) [
      | inl t ↦ elim (Memᴰ.cases_cons m) [
        | inl f ↦ rw (f, t) (Memᴰ.head refl)
        | inr k ↦ rw t (Memᴰ.tail (given_up-mem tenant intent project es k))
      ]
      | inr t ↦ elim (Memᴰ.cases_cons m) [
        | inl f ↦ rw (f, t) (Memᴰ.head refl)
        | inr k ↦ rw t (Memᴰ.tail (given_up-mem tenant intent project es k))
      ]
    ]

mem_of_given_up :
    (tenant intent project : String) (effects : List Intent) {k : Intent}
    → Memᴰ k (reconcile_where tenant intent project effects)
    → (i : Intent) × Memᴰ i effects × (k ≡ (image_of tenant intent project i))
mem_of_given_up tenant intent project [] m = elim m [ ]
mem_of_given_up tenant intent project (e ∷ es) {k} m =
    elim (Bool-cases (is_target tenant intent project e)) [
      | inl t ↦ elim (Memᴰ.cases_cons (rw t at m)) [
        | inl f ↦ (e, Memᴰ.head refl, rw t f)
        | inr l ↦ let (i, n, g) = mem_of_given_up tenant intent project es l in (i, Memᴰ.tail n, g)
      ]
      | inr t ↦ elim (Memᴰ.cases_cons (rw t at m)) [
        | inl f ↦ (e, Memᴰ.head refl, rw t f)
        | inr l ↦ let (i, n, g) = mem_of_given_up tenant intent project es l in (i, Memᴰ.tail n, g)
      ]
    ]

-- A row keeps what names it.
mem_of_named :
    (tenant intent project : String) (effects : List Intent) {k : Intent}
    → Memᴰ k (reconcile_where tenant intent project effects)
    → k.tenant_id ≡ tenant
    → k.id ≡ intent
    → k.project_id ≡ project
    → (i : Intent) × Memᴰ i effects × GivenUp i k
mem_of_named tenant intent project effects {k} m a b c =
    let (i, n, g) = mem_of_given_up tenant intent project effects m in
    elim (Bool-cases (is_target tenant intent project i)) [
      | inl t ↦
          let f : k ≡ record i { status = reconciliation_required } = rw t at g in
          (
            i,
            n,
            rw (← g) at (
                image_of-GivenUp tenant intent project i
                  (ap (λ (x : Intent). x.tenant_id) (sym f) ∙ a)
                  (ap (λ (x : Intent). x.id) (sym f) ∙ b)
                  (ap (λ (x : Intent). x.project_id) (sym f) ∙ c)),
          )
      | inr t ↦
          let f : k ≡ i = rw t at g in
          (
            i,
            n,
            rw (← g) at (
                image_of-GivenUp tenant intent project i
                  (ap (λ (x : Intent). x.tenant_id) (sym f) ∙ a)
                  (ap (λ (x : Intent). x.id) (sym f) ∙ b)
                  (ap (λ (x : Intent). x.project_id) (sym f) ∙ c)),
          )
    ]

not_failed :
    (b : Bool) (r job : Job)
    → (if b then retry_scheduled r else dead_lettered r) ≡ dead_lettered job
    → (b ≡ false) × (r ≡ job)
not_failed true r job e = cc
not_failed false r job e = (refl, cc)

-- A row that is set to failed or dead, and is not failed.
ends_dead :
    (o : Option Job) (job : Job)
    → ((r : Job) → o ≡ some r → (r.status ≡ JobStatus.failed) ⊎ (r.status ≡ dead_letter))
    → resolution_of o ≡ dead_lettered job
    → (o ≡ some job) × (job.status ≡ dead_letter)
ends_dead none job h e = cc
ends_dead (some r) job h e =
    let (b, q) = not_failed (is_status r.status JobStatus.failed) r job e in
    elim (h r refl) [
      | inl f ↦ cc (ap (λ s. is_status s JobStatus.failed) f)
      | inr d ↦ (ap some q, ap (λ (x : Job). x.status) (sym q) ∙ d)
    ]

marked :
    (job : Job) (effects : List Intent) (project intent : String)
    → job.status ≡ dead_letter
    → is_effect_job job.job_type ≡ true
    → job.project_id ≡ some project
    → intent_of job.payload ≡ some intent
    → mark_dead_letter job effects ≡ reconcile_where job.tenant_id intent project effects
unfolding mark_dead_letter
marked job effects project intent d e p i = ground (arith, d, e, p, i)

fails_with :
    (set : Job → Job) (fence : Fence) (now : ℕ) (s u : Tables) (job : Job) (project intent : String)
    → ((j : Job) → ((set j).status ≡ JobStatus.failed) ⊎ ((set j).status ≡ dead_letter))
    → fail_with set fence now s ≡ (dead_lettered job, u)
    → is_effect_job job.job_type ≡ true
    → job.project_id ≡ some project
    → intent_of job.payload ≡ some intent
    → u.effects ≡ reconcile_where job.tenant_id intent project s.effects
fails_with set fence now s u job project intent ends h e p i =
    let row = first_row (returning (holds fence now) set s.jobs) in
    let resolved : resolution_of row ≡ dead_lettered job =
      ap (λ (x : Resolution × Tables). x.0) h in
    let (there, dead) =
      ends_dead row job
        (λ r q.
          let (j, m, f) = first_of_map set (keep (holds fence now) s.jobs) q in
          elim (ends j) [
            | inl a ↦ inl (ap (λ (x : Job). x.status) f ∙ a)
            | inr a ↦ inr (ap (λ (x : Job). x.status) f ∙ a)
          ])
        resolved in
    let effects : mark_first row s.effects ≡ u.effects =
      ap (λ (x : Resolution × Tables). x.1.effects) h in
    sym effects
    ∙ ap (λ o. mark_first o s.effects) there
    ∙ marked job s.effects project intent dead e p i

-- The row `i` among the first has become one of the second, and `k` among these was one of the first.
abbrev pub Traced : List Intent → List Intent → Intent → Intent → Type 0
Traced effects effects' i k =
    ((after : Intent) × Memᴰ after effects' × GivenUp i after)
    × ((before : Intent) × Memᴰ before effects × GivenUp before k)

both_ways :
    (tenant intent project : String) (effects effects' : List Intent) (i k : Intent)
    → effects' ≡ reconcile_where tenant intent project effects
    → (i.tenant_id ≡ tenant) × (i.id ≡ intent) × (i.project_id ≡ project)
    → (k.tenant_id ≡ tenant) × (k.id ≡ intent) × (k.project_id ≡ project)
    → Memᴰ i effects
    → Memᴰ k effects'
    → Traced effects effects' i k
both_ways tenant intent project effects effects' i k e (a, b, c) (a', b', c') m m' = (
  (
    image_of tenant intent project i,
    subst (λ l. Memᴰ (image_of tenant intent project i) l) (sym e)
        (given_up-mem tenant intent project effects m),
    image_of-GivenUp tenant intent project i a b c,
  ),
  mem_of_named tenant intent project effects (subst (λ l. Memᴰ k l) e m') a' b' c',
)

-- When a job on an effect becomes a dead letter by a failure, each row of the effect that its payload
-- names is left with one change at most: PREPARED, EXECUTING, FAILED and COMPENSATION_PENDING become
-- RECONCILIATION_REQUIRED, any other status stays; and each row of that effect afterwards comes from
-- one before in this way.
pub fail-reconciled :
    (fence : Fence) (retryable : Bool) (retry_at : Option ℕ) (error : Value) (now : ℕ)
    (s u : Tables) (job : Job) (project intent : String) (i k : Intent)
    → fail fence retryable retry_at error now s ≡ (dead_lettered job, u)
    → is_effect_job job.job_type ≡ true
    → job.project_id ≡ some project
    → intent_of job.payload ≡ some intent
    → (i.tenant_id ≡ job.tenant_id) × (i.id ≡ intent) × (i.project_id ≡ project)
    → (k.tenant_id ≡ job.tenant_id) × (k.id ≡ intent) × (k.project_id ≡ project)
    → Memᴰ i s.effects
    → Memᴰ k u.effects
    → Traced s.effects u.effects i k
unfolding fail
fail-reconciled fence true retry_at error now s u job project intent i k h e p n =
    both_ways job.tenant_id intent project s.effects u.effects i k (
      fails_with (failed_row error retry_at now) fence now s u job project intent
        (λ j. elim (Bool-cases (leb j.max_attempts j.attempt_count)) [
          | inl t ↦ inr (rw t refl)
          | inr t ↦ inl (rw t refl)
        ])
        h e p n)
fail-reconciled fence false retry_at error now s u job project intent i k h e p n =
    both_ways job.tenant_id intent project s.effects u.effects i k
      (fails_with (buried_row error) fence now s u job project intent (λ j. inr refl) h e p n)

module _ (host : Host) where
  first_keep-append :
      (test : Job → Bool) (jobs : List Job) (job : Job)
      → first_row (keep test jobs) ≡ none
      → test job ≡ true
      → first_row (keep test (jobs ++ job ∷ [])) ≡ some job
  first_keep-append test [] job h t = rw t refl
  first_keep-append test (j ∷ js) job h t = elim (Bool-cases (test j)) [
    | inl y ↦ let g : some j ≡ none = rw y at h in cc
    | inr n ↦ rw n (first_keep-append test js job (rw n at h) t)
  ]

  same_project : (o : Option String) → eq_option ◌==◌ o o ≡ true
  same_project none = refl
  same_project (some p) = eq_refl p

  -- A job that was inserted is what a second enqueue of the same input returns, under whatever id and
  -- time, and the tables stay as they are; its payload has a canonical text.
  pub enqueue-again :
      (id id' : String) (now now' : ℕ) (input : EnqueueInput) (s t : Tables) (job : Job)
      (text : String)
      → first_row (keep (has_key host input) s.jobs) ≡ none
      → canonical host (obj input.payload) ≡ ok text
      → enqueue host id now input s ≡ ok (job, t)
      → enqueue host id' now' input t ≡ ok (job, t)
  unfolding enqueue
  enqueue-again id id' now now' input s t job text new c h =
      let (available, p, h1) = >>=-eq-ok (validate_enqueue host input) _ h in
      let made = new_job host id now available input in
      let whole : Tables = record s { jobs = s.jobs ++ made ∷ [] } in
      let inserted : insert_or_replay host id now available input s none ≡ ok (job, t) =
        ap (insert_or_replay host id now available input s) (sym new) ∙ h1 in
      let same_job : made ≡ job = cc in
      let same_tables : whole ≡ t = cc in
      let replays : check_replay host input made ≡ ok made =
        rw (same_project input.project_id, c, eq_refl text) refl in
      let key : has_key host input made ≡ true = ground (
        arith,
        eq_refl input.tenant_id,
        eq_refl input.idempotency_key,
        same_project input.project_id,
      ) in
      let found = first_keep-append (has_key host input) s.jobs made new key in
      let again : insert_or_replay host id' now' available input whole (some made)
          ≡ ok (made, whole) =
        ap (λ m. m >>= λ replay. ok (replay, whole)) replays in
      let run : enqueue host id' now' input whole ≡ ok (made, whole) =
        ap
          (λ m. m >>= λ a.
            insert_or_replay host id' now' a input whole
              (first_row (keep (has_key host input) whole.jobs)))
          p
        ∙ ap (insert_or_replay host id' now' available input whole) found
        ∙ again in
      rw (← same_job, ← same_tables) run
