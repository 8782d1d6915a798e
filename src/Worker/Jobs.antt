-- ===== src/Worker/Jobs.antt =====
-- apps/worker/src/job-store.ts and `JobsRepository` of packages/db/src/repositories/control.ts: the
-- durable queue of jobs. A transaction is a function of the tables and of its time `now()`, in
-- milliseconds; where it throws it is rolled back, so that a Result has the new tables only if it
-- returns. `held` tells the rows that other transactions have locked, which SKIP LOCKED passes over.
-- A time that is handed over as ISO text is given by its instant.
pub mod Store
pub mod Enqueue
pub mod Rows
pub mod Updates
pub mod Leases
pub mod Fences
pub mod Reconciled
use arc_db.Base.{
  ℕ, zero, suc, ◌+◌, ◌*◌, ◌/◌, ◌^◌, ◌-◌, max, ltb, leb, eqb, String, Bool, true, false, not, ◌&&◌,
  ◌||◌, Option, none, some, is_some, or_else, List, [], ◌∷◌, ◌++◌, map, any, keep, includes,
  eq_option, Result, ok, err, throw_if, ◌>>=◌, ◌>>◌, ◌==◌, if◌then◌else◌,
}
use arc_db.Base.Sort.{sort}
use arc_db.Host.{Host}
use arc_db.Contracts.Digest.{Value, null, bool, num, str, arr, obj, Fields, field, end}
use arc_db.Worker.Connector.{Intent}

pub data StoreFault : Type 0 where
  -- a TypeError, by its message
  type_error : String → StoreFault
  -- RepositoryError(message, code)
  repository_error : String → String → StoreFault

pub data JobType : Type 0 where
  process_ingestion_batch run_verifier evaluate_policy compute_impact : JobType
  propagate_invalidation materialize_dataset_view compact_artifacts : JobType
  garbage_collect_chunks reconcile_effect run_compensation : JobType
  create_remediation_obligation publish_analytics_projection : JobType

abbrev pub job_type_index : JobType → ℕ
job_type_index process_ingestion_batch = 0
job_type_index run_verifier = 1
job_type_index evaluate_policy = 2
job_type_index compute_impact = 3
job_type_index propagate_invalidation = 4
job_type_index materialize_dataset_view = 5
job_type_index compact_artifacts = 6
job_type_index garbage_collect_chunks = 7
job_type_index reconcile_effect = 8
job_type_index run_compensation = 9
job_type_index create_remediation_obligation = 10
job_type_index publish_analytics_projection = 11

pub data JobStatus : Type 0 where
  pending running succeeded failed dead_letter : JobStatus

abbrev pub job_status_index : JobStatus → ℕ
job_status_index pending = 0
job_status_index running = 1
job_status_index succeeded = 2
job_status_index JobStatus.failed = 3
job_status_index dead_letter = 4

abbrev pub is_status : JobStatus → JobStatus → Bool
is_status a b = eqb (job_status_index a) (job_status_index b)

pub record Job : Type 0 where
  pub id : String
  pub tenant_id : String
  pub project_id : Option String
  pub job_type : JobType
  pub idempotency_key : String
  pub status : JobStatus
  pub payload : Fields
  pub result : Option Value
  pub error : Option Value
  pub attempt_count : ℕ
  pub max_attempts : ℕ
  pub timeout_ms : ℕ
  pub available_at : ℕ
  pub locked_by : Option String
  pub lock_expires_at : Option ℕ
  pub fencing_token : ℕ
  pub trace_context : Fields
  pub created_at : ℕ

pub record Tables : Type 0 where
  pub jobs : List Job
  pub effects : List Intent

-- Who holds a job: the worker with the token of its claim.
pub record Fence : Type 0 where
  pub tenant_id : String
  pub job_id : String
  pub worker_id : String
  pub fencing_token : ℕ

pub data Resolution : Type 0 where
  retry_scheduled : Job → Resolution
  dead_lettered : Job → Resolution
  fence_lost : Resolution

-- `rows[0]`
abbrev pub first_row {ℓ} : {A : Type ℓ} → List A → Option A
first_row [] = none
first_row (x ∷ xs) = some x

abbrev pub take {ℓ} : {A : Type ℓ} → ℕ → List A → List A
take zero xs = []
take (suc n) [] = []
take (suc n) (x ∷ xs) = x ∷ take n xs

-- UPDATE … SET … WHERE
unfoldable pub update_where : (Job → Bool) → (Job → Job) → List Job → List Job
update_where test set [] = []
update_where test set (j ∷ js) =
    let rest = update_where test set js in if test j then set j ∷ rest else j ∷ rest

-- RETURNING *
abbrev pub returning : (Job → Bool) → (Job → Job) → List Job → List Job
returning test set jobs = map set (keep test jobs)

-- `lock_expires_at > now()`, which is not true of NULL
abbrev pub expires_after : Option ℕ → ℕ → Bool
expires_after none now = false
expires_after (some t) now = ltb now t

-- `lock_expires_at <= now()`
abbrev pub has_expired : Option ℕ → ℕ → Bool
has_expired none now = false
has_expired (some t) now = leb t now

abbrev pub is_holder : Option String → String → Bool
is_holder none worker = false
is_holder (some w) worker = w == worker

-- WHERE tenant_id = $1 AND id = $2 AND status = 'RUNNING' AND locked_by = $3 AND fencing_token = $4
-- AND lock_expires_at > now()
unfoldable pub holds : Fence → ℕ → Job → Bool
holds fence now j =
    (j.tenant_id == fence.tenant_id && j.id == fence.job_id)
    && ((is_status j.status running && is_holder j.locked_by fence.worker_id)
        && (eqb j.fencing_token fence.fencing_token && expires_after j.lock_expires_at now))

abbrev pub is_safe_positive : ℕ → Bool
is_safe_positive n = leb 1 n && leb n (2 ^ 53 - 1)

-- `Math.max(1, Math.ceil(leaseMs / 1_000))`
abbrev pub seconds_of : ℕ → ℕ
seconds_of lease_ms = max 1 ((lease_ms + 999) / 1000)

abbrev pub check_lease : ℕ → Result StoreFault (Unit {0})
check_lease lease_ms =
    throw_if (not (is_safe_positive lease_ms))
      (type_error "leaseMs must be a positive safe integer")

-- The check of the repository, which allows an hour.
abbrev pub check_seconds : String → ℕ → Result StoreFault (Unit {0})
check_seconds message seconds =
    throw_if (not (leb 1 seconds && leb seconds 3600)) (type_error message)

-- The attempts are used up: the job is dead, else it may be tried again.
abbrev pub after_failure : Job → JobStatus
after_failure j = if leb j.max_attempts j.attempt_count then dead_letter else JobStatus.failed

abbrev pub claimed_row : String → ℕ → ℕ → Job → Job
claimed_row worker seconds now j = record j {
  status = running;
  attempt_count = j.attempt_count + 1;
  locked_by = some worker;
  lock_expires_at = some (now + 1000 * seconds);
  fencing_token = j.fencing_token + 1;
  error = none;
}

abbrev pub renewed_row : ℕ → ℕ → Job → Job
renewed_row seconds now j = record j { lock_expires_at = some (now + 1000 * seconds) }

abbrev pub completed_row : Value → Job → Job
completed_row result j = record j {
  status = succeeded;
  result = some result;
  locked_by = none;
  lock_expires_at = none;
}

abbrev pub failed_row : Value → Option ℕ → ℕ → Job → Job
failed_row error retry_at now j = record j {
  status = after_failure j;
  error = some error;
  available_at =
      if leb j.max_attempts j.attempt_count then j.available_at else or_else retry_at now;
  locked_by = none;
  lock_expires_at = none;
}

abbrev pub buried_row : Value → Job → Job
buried_row error j = record j {
  status = dead_letter;
  error = some error;
  locked_by = none;
  lock_expires_at = none;
}

abbrev pub external_outcome : JobType → String
external_outcome reconcile_effect = "UNKNOWN"
external_outcome run_compensation = "UNKNOWN"
external_outcome _ = "NOT_EXTERNAL"

-- The error of a job whose lease ran out, as the repository and the store write it together.
abbrev pub expired_error : String → Job → Value
expired_error now_text j = obj (
    field "code" (str "WORKER_LEASE_EXPIRED") (
      field "retryable" (bool (ltb j.attempt_count j.max_attempts)) (
        field "message" (str "The worker heartbeat expired before completion") (
          field "externalOutcome" (str (external_outcome j.job_type))
            (field "occurredAt" (str now_text) end)))))

abbrev pub stalled_row : String → ℕ → Job → Job
stalled_row now_text now j = record j {
  status = after_failure j;
  error = some (expired_error now_text j);
  available_at = now;
  locked_by = none;
  lock_expires_at = none;
}
