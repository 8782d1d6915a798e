-- ===== src/Worker/Jobs/Store.antt =====
-- apps/worker/src/job-store.ts: the operations of `PostgresDurableJobStore` on the tables, each with
-- the operation of `JobsRepository` that it calls.
use arc_db.Base.{
  ℕ, ltb, leb, eqb, String, Bool, true, false, not, ◌&&◌, ◌||◌, Option, none, some, is_some, List,
  [], ◌∷◌, any, keep, includes, length, Result, ok, ◌>>◌, ◌==◌, if◌then◌else◌,
}
use arc_db.Base.Sort.{sort}
use arc_db.Contracts.Digest.{Value, str, Fields, field, end}
use arc_db.Contracts.Effect.{
  EffectStatus, same_status, prepared, executing, compensation_pending, reconciliation_required,
}
use arc_db.Worker.Connector.{Intent}
use arc_db.Worker.Jobs.{
  StoreFault, Job, JobType, reconcile_effect, run_compensation, JobStatus, pending, running,
  dead_letter, is_status, Tables, Fence, Resolution, retry_scheduled, dead_lettered, fence_lost,
  first_row, take, update_where, returning, has_expired, holds, seconds_of, check_lease,
  check_seconds, claimed_row, renewed_row, completed_row, failed_row, buried_row, stalled_row,
}

abbrev pub is_effect_job : JobType → Bool
is_effect_job reconcile_effect = true
is_effect_job run_compensation = true
is_effect_job _ = false

-- `payload.intentId`, if it is a string
abbrev pub intent_of : Fields → Option String
intent_of end = none
intent_of (field key (str text) rest) = if key == "intentId" then some text else intent_of rest
intent_of (field key _ rest) = if key == "intentId" then none else intent_of rest

-- status IN ('PREPARED', 'EXECUTING', 'FAILED', 'COMPENSATION_PENDING')
abbrev pub is_unsettled : EffectStatus → Bool
is_unsettled s =
    includes same_status (prepared ∷ executing ∷ EffectStatus.failed ∷ compensation_pending ∷ []) s

abbrev pub is_target : String → String → String → Intent → Bool
is_target tenant intent project i =
    (i.tenant_id == tenant && i.id == intent) && (i.project_id == project && is_unsettled i.status)

abbrev pub reconcile_where : String → String → String → List Intent → List Intent
reconcile_where tenant intent project [] = []
reconcile_where tenant intent project (i ∷ is) =
    let rest = reconcile_where tenant intent project is in
    if is_target tenant intent project i
    then (record i { status = reconciliation_required }) ∷ rest
    else i ∷ rest

abbrev pub mark_named : String → Option String → Option String → List Intent → List Intent
mark_named tenant (some project) (some intent) effects =
    reconcile_where tenant intent project effects
mark_named tenant _ _ effects = effects

-- `markDeadLetterEffectForReconciliation`
unfoldable pub mark_dead_letter : Job → List Intent → List Intent
mark_dead_letter job effects =
    if is_status job.status dead_letter && is_effect_job job.job_type
    then mark_named job.tenant_id job.project_id (intent_of job.payload) effects
    else effects

abbrev pub mark_first : Option Job → List Intent → List Intent
mark_first none effects = effects
mark_first (some job) effects = mark_dead_letter job effects

abbrev pub resolution_of : Option Job → Resolution
resolution_of none = fence_lost
resolution_of (some job) =
    if is_status job.status JobStatus.failed then retry_scheduled job else dead_lettered job

-- WHERE tenant_id = $1 AND status IN ('PENDING', 'FAILED') AND available_at <= now()
-- AND attempt_count < max_attempts
abbrev pub is_runnable : String → ℕ → Job → Bool
is_runnable tenant now j =
    (j.tenant_id == tenant && (is_status j.status pending || is_status j.status JobStatus.failed))
    && (leb j.available_at now && ltb j.attempt_count j.max_attempts)

-- ORDER BY available_at, created_at, id
abbrev pub claim_le : (String → String → Bool) → Job → Job → Bool
claim_le id_leb a b =
    ltb a.available_at b.available_at
    || (eqb a.available_at b.available_at
        && (ltb a.created_at b.created_at || (eqb a.created_at b.created_at && id_leb a.id b.id)))

abbrev pub is_row : Option Job → Job → Bool
is_row none j = false
is_row (some candidate) j = j.id == candidate.id

-- `id_leb` is the database's order of ids; `held` tells the rows that SKIP LOCKED passes over.
module _ (id_leb : String → String → Bool) (held : Job → Bool) where
  abbrev pub candidate : String → ℕ → List Job → Option Job
  candidate tenant now jobs =
      first_row (sort (claim_le id_leb) (keep (λ j. is_runnable tenant now j && not (held j)) jobs))

  -- `claim`
  unfoldable pub claim : String → String → ℕ → ℕ → Tables → Result StoreFault (Option Job × Tables)
  unfolding update_where sort
  claim tenant worker lease_ms now s = do
    check_lease lease_ms
    let seconds = seconds_of lease_ms
    check_seconds "lockSeconds must be an integer between 1 and 3600" seconds
    let chosen = is_row (candidate tenant now s.jobs)
    let set = claimed_row worker seconds now
    ok (first_row (returning chosen set s.jobs), record s { jobs = update_where chosen set s.jobs })

-- `heartbeat`: whether exactly one row was renewed
unfoldable pub heartbeat : Fence → ℕ → ℕ → Tables → Result StoreFault (Bool × Tables)
unfolding update_where holds
heartbeat fence lease_ms now s = do
  check_lease lease_ms
  let seconds = seconds_of lease_ms
  check_seconds "extendSeconds must be an integer between 1 and 3600" seconds
  ok (
    eqb (length (keep (holds fence now) s.jobs)) 1,
    record s { jobs = update_where (holds fence now) (renewed_row seconds now) s.jobs },
  )

-- `isFenceCurrent`
unfoldable pub is_fence_current : Fence → ℕ → Tables → Bool
unfolding holds
is_fence_current fence now s = any (holds fence now) s.jobs

-- `complete`
unfoldable pub complete : Fence → Value → ℕ → Tables → Bool × Tables
unfolding update_where holds
complete fence result now s = (
  is_some (first_row (returning (holds fence now) (completed_row result) s.jobs)),
  record s { jobs = update_where (holds fence now) (completed_row result) s.jobs },
)

-- Both branches of `fail`: the row that is set and the mark on its effect.
abbrev pub fail_with : (Job → Job) → Fence → ℕ → Tables → Resolution × Tables
fail_with set fence now s =
    let row = first_row (returning (holds fence now) set s.jobs) in
    (
      resolution_of row,
      record s {
        jobs = update_where (holds fence now) set s.jobs;
        effects = mark_first row s.effects;
      },
    )

-- `fail`
unfoldable pub fail : Fence → Bool → Option ℕ → Value → ℕ → Tables → Resolution × Tables
unfolding update_where holds mark_dead_letter
fail fence retryable retry_at error now s =
    if retryable
    then fail_with (failed_row error retry_at now) fence now s
    else fail_with (buried_row error) fence now s

abbrev pub is_stalled : String → ℕ → Job → Bool
is_stalled tenant now j =
    j.tenant_id == tenant && (is_status j.status running && has_expired j.lock_expires_at now)

abbrev pub expires_le : Job → Job → Bool
expires_le a b = time_le a.lock_expires_at b.lock_expires_at
  where
    time_le : Option ℕ → Option ℕ → Bool
    time_le (some t) (some u) = leb t u
    time_le _ _ = true

abbrev pub is_among : List Job → Job → Bool
is_among chosen j = any (λ c. c.id == j.id) chosen

abbrev pub mark_all : List Job → List Intent → List Intent
mark_all [] effects = effects
mark_all (j ∷ js) effects = mark_all js (mark_dead_letter j effects)

module _ (held : Job → Bool) (now_text : String) where
  -- `recoverStalled` for one tenant: the jobs that were recovered
  unfoldable pub recover_tenant : ℕ → ℕ → String → Tables → List Job × Tables
  unfolding update_where sort mark_dead_letter
  recover_tenant limit now tenant s =
      let stalled = keep (λ j. is_stalled tenant now j && not (held j)) s.jobs in
      let chosen = is_among (take limit (sort expires_le stalled)) in
      let set = stalled_row now_text now in
      let recovered = returning chosen set s.jobs in
      (
        recovered,
        record s { jobs = update_where chosen set s.jobs; effects = mark_all recovered s.effects },
      )
