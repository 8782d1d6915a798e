-- ===== src/Worker/Examples/Queue.antt =====
-- The theorems on job-store.ts, each at the queue of one job on one effect.
use mathlib.Core.List.{Memᴰ}
use mathlib.Core.List.Memᴰ
use arc_db.Base.{true, false, none, some, [], ◌∷◌, ◌≡◌, refl, sym, ◌∙◌, ok}
use arc_db.Base.Sort.{sort, insert}
use arc_db.Lifecycle.Examples.{sample_host}
use arc_db.Contracts.Digest.{null, str, field, end}
use arc_db.Contracts.Effect.{reconciliation_required}
use arc_db.Worker.Jobs.{
  Job, reconcile_effect, Tables, Fence, update_where, holds, claimed_row, completed_row, failed_row,
}
use arc_db.Worker.Jobs.Store.{claim, complete, fail, mark_dead_letter, is_fence_current}
use arc_db.Worker.Jobs.Enqueue.{
  EnqueueInput, enqueue, validate_enqueue, new_job, canonical, canonical_fields,
}
use arc_db.Worker.Jobs.Rows.{Step, claimed, completed, IsSound, IsUnique}
use arc_db.Worker.Jobs.Leases.{Runs, stop, after_step, after_enqueue, Runs-IsSound, Runs-done}
use arc_db.Worker.Jobs.Fences.{Claimed, claim-Claimed, IsShut, claim-IsShut}
use arc_db.Worker.Jobs.Reconciled.{Traced, fail-reconciled, enqueue-again}
use arc_db.Worker.Examples.{sample_row}

abbrev input : EnqueueInput
input = record {
  tenant_id = sample_row.tenant_id;
  project_id = some sample_row.project_id;
  job_type = reconcile_effect;
  idempotency_key = "k1";
  payload = field "intentId" (str sample_row.id) end;
  max_attempts = some 1;
  timeout_ms = none;
  available_at = none;
  trace_context = end;
}

abbrev empty : Tables
empty = record { jobs = []; effects = sample_row ∷ [] }

abbrev new : Job
new = new_job sample_host "j1" 5 none input

abbrev queued : Tables
queued = record empty { jobs = new ∷ [] }

abbrev taken : Job
taken = claimed_row "w1" 60 7 new

abbrev started : Tables
started = record empty { jobs = taken ∷ [] }

enqueued : enqueue sample_host "j1" 5 input empty ≡ ok (new, queued)
unfolding enqueue validate_enqueue
enqueued = refl

claimed_it :
    claim (λ a b. true) (λ j. false) sample_row.tenant_id "w1" 60000 7 queued
    ≡ ok (some taken, started)
unfolding claim update_where sort insert
claimed_it = refl

IsUnique-of : (j : Job) → IsUnique (j ∷ [])
IsUnique-of job i j mi mj e = Memᴰ.eq_of_singleton mi ∙ sym (Memᴰ.eq_of_singleton mj)

whole_run : Runs sample_host empty started
whole_run =
    after_step (after_enqueue "j1" 5 input stop (λ j m. elim m [ ]) enqueued)
      (claimed (λ a b. true) (λ j. false) sample_row.tenant_id "w1" 60000 7 claimed_it)

Runs-IsSound_example : IsSound taken
Runs-IsSound_example =
    Runs-IsSound sample_host empty started taken whole_run (λ i j m k e. elim m [ ])
      (λ i m. elim m [ ]) (Memᴰ.head refl)

abbrev the_fence : Fence
the_fence = record {
  tenant_id = sample_row.tenant_id;
  job_id = "j1";
  worker_id = "w1";
  fencing_token = 1;
}

abbrev finished : Job
finished = completed_row null taken

abbrev ended : Tables
ended = record empty { jobs = finished ∷ [] }

Runs-done_example : Memᴰ finished (complete the_fence null 9 ended).1.jobs
Runs-done_example =
    Runs-done sample_host ended (complete the_fence null 9 ended).1 finished
      (after_step stop (completed the_fence null 9)) (IsUnique-of finished) (Memᴰ.head refl) refl

claim-Claimed_example : Claimed (λ j. false) sample_row.tenant_id "w1" 60000 7 queued started taken
claim-Claimed_example =
    claim-Claimed (λ a b. true) (λ j. false) sample_row.tenant_id "w1" 60000 7 queued started taken
      (IsUnique-of new) claimed_it

-- The job with an attempt more: it is claimed, fails, and is claimed again.
abbrev patient : Job
patient = record taken { max_attempts = 2 }

abbrev once_taken : Tables
once_taken = record started { jobs = patient ∷ [] }

abbrev twice_ready : Tables
twice_ready = record started { jobs = failed_row null (some 9) 9 patient ∷ [] }

abbrev twice_taken : Tables
twice_taken = record started {
  jobs = claimed_row "w2" 60 10 (failed_row null (some 9) 9 patient) ∷ [];
}

failed_once : Runs sample_host once_taken twice_ready
unfolding fail update_where holds mark_dead_letter
failed_once = after_step stop (Step.failed the_fence true (some 9) null 9)

claimed_again :
    claim (λ a b. true) (λ j. false) sample_row.tenant_id "w2" 60000 10 twice_ready
    ≡ ok (some (claimed_row "w2" 60 10 (failed_row null (some 9) 9 patient)), twice_taken)
unfolding claim update_where sort insert
claimed_again = refl

current_once : is_fence_current the_fence 8 once_taken ≡ true
unfolding is_fence_current holds
current_once = refl

claim-IsShut_example : IsShut the_fence twice_taken 11 null true none null
claim-IsShut_example =
    claim-IsShut sample_host (λ a b. true) (λ j. false) sample_row.tenant_id "w2" 60000 10
      once_taken twice_ready twice_taken twice_taken
      (claimed_row "w2" 60 10 (failed_row null (some 9) 9 patient)) the_fence 8 11 null true none
      null (IsUnique-of patient) current_once failed_once claimed_again stop refl

abbrev dead : Job
dead = failed_row null none 9 taken

abbrev given_up : Tables
given_up = (fail the_fence true none null 9 started).1

fail-reconciled_example :
    Traced started.effects given_up.effects sample_row
      (record sample_row { status = reconciliation_required })
unfolding fail update_where holds mark_dead_letter
fail-reconciled_example =
    fail-reconciled the_fence true none null 9 started given_up dead sample_row.project_id
      sample_row.id sample_row (record sample_row { status = reconciliation_required }) refl refl
      refl refl (refl, refl, refl) (refl, refl, refl) (Memᴰ.head refl) (Memᴰ.head refl)

enqueue-again_example : enqueue sample_host "j2" 6 input queued ≡ ok (new, queued)
unfolding canonical canonical_fields sort insert
enqueue-again_example =
    enqueue-again sample_host "j1" "j2" 5 6 input empty queued new "{intentId:i1}" refl refl
      enqueued
