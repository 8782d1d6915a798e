-- ===== src/Worker/Errors.antt =====
-- apps/worker/src/errors.ts: what the worker throws, and what of it is stored with a job.
pub mod Stored
use arc_db.Base.{String, Bool, true, false, [], ◌∷◌}
use arc_db.Contracts.Primitives.{concat}

pub data Certainty : Type 0 where
  not_external known unknown : Certainty

pub data Fault : Type 0 where
  -- new WorkerRuntimeError(code, message, { retryable })
  runtime : String → String → Bool → Fault
  -- MissingJobHandlerError(jobType)
  missing_handler : String → Fault
  -- JobTimeoutError(jobId, timeoutMs), with the text of the timeout
  job_timeout : String → String → Fault
  -- JobFenceLostError(jobId)
  job_fence_lost : String → Fault
  -- UnsafeConnectorError(connectorType, reason)
  unsafe_connector : String → String → Fault
  -- ConnectorOperationError(connectorType, operation, message, { retryable, externalOutcome })
  connector_operation : String → String → String → Bool → Certainty → Fault
  -- any other Error: a TypeError, a ZodError, a ReceiptImmutableError, one of foreign code
  other_error : String → Fault
  -- a thrown value that is no Error
  thrown_value : String → Fault

pub record PersistedJobError : Type 0 where
  pub code : String
  pub message : String
  pub retryable : Bool
  pub external_outcome : Certainty
  pub occurred_at : String

unfoldable pub persisted_job_error : Fault → String → PersistedJobError
persisted_job_error (runtime c m r) at_time = record {
  code = c;
  message = m;
  retryable = r;
  external_outcome = not_external;
  occurred_at = at_time;
}
persisted_job_error (missing_handler type) at_time = record {
  code = "JOB_HANDLER_NOT_CONFIGURED";
  message = concat ("No handler is configured for job type " ∷ type ∷ []);
  retryable = false;
  external_outcome = not_external;
  occurred_at = at_time;
}
persisted_job_error (job_timeout id timeout) at_time = record {
  code = "JOB_TIMEOUT";
  message = concat ("Job " ∷ id ∷ " exceeded its " ∷ timeout ∷ "ms timeout" ∷ []);
  retryable = true;
  external_outcome = unknown;
  occurred_at = at_time;
}
persisted_job_error (job_fence_lost id) at_time = record {
  code = "JOB_FENCE_LOST";
  message = concat ("Job " ∷ id ∷ " lost its fencing token" ∷ []);
  retryable = true;
  external_outcome = not_external;
  occurred_at = at_time;
}
persisted_job_error (unsafe_connector type reason) at_time = record {
  code = "UNSAFE_CONNECTOR_CAPABILITIES";
  message =
      concat ("Connector " ∷ type ∷ " cannot execute this effect automatically: " ∷ reason ∷ []);
  retryable = false;
  external_outcome = not_external;
  occurred_at = at_time;
}
persisted_job_error (connector_operation type op m r certainty) at_time = record {
  code = "CONNECTOR_OPERATION_FAILED";
  message = concat (type ∷ "." ∷ op ∷ ": " ∷ m ∷ []);
  retryable = r;
  external_outcome = certainty;
  occurred_at = at_time;
}
persisted_job_error (other_error m) at_time = record {
  code = "UNEXPECTED_JOB_ERROR";
  message = "An unexpected job error occurred";
  retryable = false;
  external_outcome = not_external;
  occurred_at = at_time;
}
persisted_job_error (thrown_value v) at_time = record {
  code = "UNEXPECTED_JOB_ERROR";
  message = "A non-Error value was thrown";
  retryable = false;
  external_outcome = not_external;
  occurred_at = at_time;
}

unfoldable pub is_retryable_error : Fault → Bool
is_retryable_error (runtime c m r) = r
is_retryable_error (job_timeout id timeout) = true
is_retryable_error (job_fence_lost id) = true
is_retryable_error (connector_operation type op m r certainty) = r
is_retryable_error _ = false
