-- ===== src/Worker/Errors/Stored.antt =====
-- apps/worker/src/errors.ts: what is stored of an error.
use arc_db.Base.{String, Bool, true, false, ◌≡◌, refl, ◌⊎◌, inl, inr}
use arc_db.Worker.Errors.{
  Fault, runtime, missing_handler, job_timeout, job_fence_lost, unsafe_connector,
  connector_operation, other_error, thrown_value, persisted_job_error, is_retryable_error,
}

-- Whether the error is one of the worker's own classes.
abbrev pub is_runtime_error : Fault → Bool
is_runtime_error (other_error m) = false
is_runtime_error (thrown_value v) = false
is_runtime_error _ = true

-- The stored error says that a retry is allowed exactly if the worker would retry; and of an error that
-- is not of the worker's own classes nothing is stored but that it was an Error, or that it was none.
pub persisted_job_error_lem :
    (f : Fault) (time : String)
    → ((persisted_job_error f time).retryable ≡ is_retryable_error f)
      × ((is_runtime_error f ≡ true)
          ⊎ ((persisted_job_error f time ≡ persisted_job_error (other_error "") time)
              ⊎ (persisted_job_error f time ≡ persisted_job_error (thrown_value "") time)))
unfolding persisted_job_error is_retryable_error
persisted_job_error_lem (runtime c m r) time = (refl, inl refl)
persisted_job_error_lem (missing_handler type) time = (refl, inl refl)
persisted_job_error_lem (job_timeout id t) time = (refl, inl refl)
persisted_job_error_lem (job_fence_lost id) time = (refl, inl refl)
persisted_job_error_lem (unsafe_connector type r) time = (refl, inl refl)
persisted_job_error_lem (connector_operation t o m r c) time = (refl, inl refl)
persisted_job_error_lem (other_error m) time = (refl, inr (inl refl))
persisted_job_error_lem (thrown_value v) time = (refl, inr (inr refl))
