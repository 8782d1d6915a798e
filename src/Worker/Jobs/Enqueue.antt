-- ===== src/Worker/Jobs/Enqueue.antt =====
-- `enqueue` of apps/worker/src/job-store.ts and packages/db/src/repositories/control.ts: a job is
-- inserted once for its idempotency key. The unique index of the table takes two missing projects for
-- the same. The check constraints on columns that no input reaches are left out.
use arc_db.Base.{
  ℕ, ◌*◌, leb, eqb, String, Bool, true, false, not, ◌&&◌, Option, none, some, is_some, or_else,
  List, [], ◌∷◌, ◌++◌, keep, eq_option, Result, ok, err, throw_if, ◌>>=◌, ◌>>◌, ◌==◌,
}
use arc_db.Base.Sort.{sort}
use arc_db.Host.{Host}
use arc_db.Contracts.Primitives.{concat}
use arc_db.Contracts.Digest.{
  Value, Items, Fields, null, bool, num, non_finite, str, arr, obj, exotic, unsupported, nil, cons,
  gap, field, end, join,
}
use arc_db.Worker.Jobs.{
  StoreFault, type_error, repository_error, Job, JobType, job_type_index, pending, Tables,
  first_row,
}
use arc_db.Worker.Jobs.Store.{is_effect_job}

-- The payload is an object.
pub record EnqueueInput : Type 0 where
  pub tenant_id : String
  pub project_id : Option String
  pub job_type : JobType
  pub idempotency_key : String
  pub payload : Fields
  pub max_attempts : Option ℕ
  pub timeout_ms : Option ℕ
  pub available_at : Option String
  pub trace_context : Fields

abbrev pub Entry : Type 0
Entry = String × Result StoreFault String

abbrev pub entry_texts : List Entry → Result StoreFault (List String)
entry_texts [] = ok []
entry_texts ((k, r) ∷ es) = do s ← r; ss ← entry_texts es; ok (s ∷ ss)

module _ (host : Host) where
  open host use {json_string, locale_leb, utf16_length, date_parse}

  abbrev pub braces : List Entry → Result StoreFault String
  braces es = do
    ss ← entry_texts (sort (λ a b. locale_leb a.0 b.0) es)
    ok (concat ("{" ∷ join ss ∷ "}" ∷ []))

  abbrev pub brackets : Result StoreFault (List String) → Result StoreFault String
  brackets r = do ss ← r; ok (concat ("[" ∷ join ss ∷ "]" ∷ []))

  abbrev pub keyed_text : String → Result StoreFault String → Result StoreFault String
  keyed_text key r = do s ← r; ok (concat (json_string key ∷ ":" ∷ s ∷ []))

  -- `canonical`; an object of JSON is never an exotic one, whose entries are not known here.
  unfoldable mutual
    unfolding sort

    pub canonical : Value → Result StoreFault String
    canonical null = ok "null"
    canonical (bool true) = ok "true"
    canonical (bool false) = ok "false"
    canonical (num text) = ok text
    canonical non_finite = err (type_error "Audit metadata must contain finite numbers")
    canonical (str s) = ok (json_string s)
    canonical (arr items) = brackets (canonical_items items)
    canonical (obj fields) = braces (canonical_fields fields)
    canonical exotic = braces []
    canonical (unsupported type) =
        err (type_error (concat ("Audit metadata cannot contain " ∷ type ∷ [])))

    pub canonical_items : Items → Result StoreFault (List String)
    canonical_items nil = ok []
    canonical_items (cons v rest) = do s ← canonical v; ss ← canonical_items rest; ok (s ∷ ss)
    canonical_items (gap rest) = do ss ← canonical_items rest; ok ("" ∷ ss)

    pub canonical_fields : Fields → List Entry
    canonical_fields end = []
    canonical_fields (field key v rest) =
        (key, keyed_text key (canonical v)) ∷ canonical_fields rest

  -- The instant of an optional text; the outer none is one that `Date.parse` does not read.
  abbrev pub parse_available : Option String → Result StoreFault (Option ℕ)
  parse_available none = ok none
  parse_available (some text) = elim (date_parse text) [
    | none ↦ err (type_error "availableAt must be an ISO timestamp")
    | some instant ↦ ok (some instant)
  ]

  -- `validateEnqueue`: the instant from which the job may run
  unfoldable pub validate_enqueue : EnqueueInput → Result StoreFault (Option ℕ)
  validate_enqueue input = do
    throw_if
        (not (
          leb 1 (utf16_length input.idempotency_key)
          && leb (utf16_length input.idempotency_key) 512))
        (type_error "idempotencyKey must contain between 1 and 512 characters")
    let attempts = or_else input.max_attempts 5
    throw_if (not (leb 1 attempts && leb attempts 100))
        (type_error "maxAttempts must be an integer between 1 and 100")
    let timeout = or_else input.timeout_ms 30000
    throw_if (not (leb 1 timeout && leb timeout (24 * 60 * 60000)))
        (type_error "timeoutMs must be between 1ms and 24h")
    available ← parse_available input.available_at
    throw_if (is_effect_job input.job_type && not (is_some input.project_id))
        (type_error "Effect jobs require an explicit projectId")
    ok available

  abbrev pub new_job : String → ℕ → Option ℕ → EnqueueInput → Job
  new_job id now available input = record {
    id = id;
    tenant_id = input.tenant_id;
    project_id = input.project_id;
    job_type = input.job_type;
    idempotency_key = input.idempotency_key;
    status = pending;
    payload = input.payload;
    result = none;
    error = none;
    attempt_count = 0;
    max_attempts = or_else input.max_attempts 5;
    timeout_ms = or_else input.timeout_ms 30000;
    available_at = or_else available now;
    locked_by = none;
    lock_expires_at = none;
    fencing_token = 0;
    trace_context = input.trace_context;
    created_at = now;
  }

  -- The unique index (tenant_id, project_id, job_type, idempotency_key).
  abbrev pub has_key : EnqueueInput → Job → Bool
  has_key input j =
      (j.tenant_id == input.tenant_id && eq_option ◌==◌ j.project_id input.project_id)
      && (eqb (job_type_index j.job_type) (job_type_index input.job_type)
          && j.idempotency_key == input.idempotency_key)

  abbrev pub check_replay : EnqueueInput → Job → Result StoreFault Job
  check_replay input replay = do
    let conflict =
        repository_error "Job idempotency key was already used with a different payload" "CONFLICT"
    throw_if (not (eq_option ◌==◌ replay.project_id input.project_id)) conflict
    stored ← canonical (obj replay.payload)
    sent ← canonical (obj input.payload)
    throw_if (not (stored == sent)) conflict
    ok replay

  abbrev pub insert_or_replay :
      String → ℕ → Option ℕ → EnqueueInput → Tables → Option Job → Result StoreFault (Job × Tables)
  insert_or_replay id now available input s none =
      let job = new_job id now available input in ok (job, record s { jobs = s.jobs ++ job ∷ [] })
  insert_or_replay id now available input s (some stored) = do
    replay ← check_replay input stored
    ok (replay, s)

  -- `enqueue`, where `id` is what `gen_random_uuid()` gives
  unfoldable pub enqueue : String → ℕ → EnqueueInput → Tables → Result StoreFault (Job × Tables)
  enqueue id now input s = do
    available ← validate_enqueue input
    insert_or_replay id now available input s (first_row (keep (has_key input) s.jobs))
