-- ===== src/Worker/Jobs/Rows.antt =====
-- What a transaction of apps/worker/src/job-store.ts does to the row of one job.
use mathlib.Core.List.{Memᴰ}
use arc_db.Base.{
  ℕ, ◌≤◌, String, Bool, true, false, ◌||◌, Option, none, some, is_some, List, [], ◌∷◌, ◌≡◌, refl,
  sym, ◌∙◌, ap, ok, >>=-eq-ok, eq_iff, arith,
}
use arc_db.Base.Members.{mem_of_keep, mem_of_sort}
use arc_db.Contracts.Digest.{Value}
use arc_db.Worker.Jobs.{
  Job, JobStatus, running, succeeded, dead_letter, is_status, Tables, Fence, first_row,
  update_where, holds, seconds_of, check_lease, check_seconds, claimed_row, renewed_row,
  completed_row, failed_row, buried_row, stalled_row,
}
use arc_db.Worker.Jobs.Store.{
  claim, candidate, is_runnable, claim_le, is_row, heartbeat, complete, fail, recover_tenant,
  is_stalled,
}

-- One transaction of the store.
pub data Step (s : Tables) : Tables → Type 0 where
  claimed :
      (id_leb : String → String → Bool) (held : Job → Bool) (tenant worker : String) (lease now : ℕ)
      {row : Option Job} {s' : Tables}
      → claim id_leb held tenant worker lease now s ≡ ok (row, s')
      → Step s s'
  renewed :
      (fence : Fence) (lease now : ℕ) {done : Bool} {s' : Tables}
      → heartbeat fence lease now s ≡ ok (done, s')
      → Step s s'
  completed : (fence : Fence) (result : Value) (now : ℕ) → Step s (complete fence result now s).1
  failed :
      (fence : Fence) (retryable : Bool) (retry_at : Option ℕ) (error : Value) (now : ℕ)
      → Step s (fail fence retryable retry_at error now s).1
  recovered :
      (held : Job → Bool) (now_text : String) (limit now : ℕ) (tenant : String)
      → Step s (recover_tenant held now_text limit now tenant s).1

-- No more attempts than allowed, one token for each attempt, and a lease exactly while it runs.
pub record IsSound (j : Job) : Type 0 where
  pub attempts : j.attempt_count ≤ j.max_attempts
  pub tokens : j.fencing_token ≡ j.attempt_count
  pub locked : is_some j.locked_by ≡ is_status j.status running
  pub leased : is_some j.lock_expires_at ≡ is_status j.status running

-- The job will not be tried again.
abbrev pub is_done : JobStatus → Bool
is_done status = is_status status succeeded || is_status status dead_letter

-- A row that was updated: another state of the same job, which was not done.
pub record Moves (j j' : Job) : Type 0 where
  pub id : j'.id ≡ j.id
  pub tenant : j'.tenant_id ≡ j.tenant_id
  pub undone : is_done j.status ≡ false
  pub token : j.fencing_token ≤ j'.fencing_token
  pub sound : IsSound j → IsSound j'

claimed-Moves :
    (worker tenant : String) (seconds now : ℕ) (j : Job)
    → is_runnable tenant now j ≡ true
    → Moves j (claimed_row worker seconds now j)
claimed-Moves worker tenant seconds now j h = record {
  id = refl;
  tenant = refl;
  undone = ground arith;
  token = omega arith;
  sound = λ s. record {
    attempts = ground arith;
    tokens = ground (arith, s.tokens);
    locked = refl;
    leased = refl;
  };
}

pub renewed-Moves :
    (fence : Fence) (seconds now : ℕ) (j : Job)
    → holds fence now j ≡ true
    → Moves j (renewed_row seconds now j)
unfolding holds
renewed-Moves fence seconds now j h = record {
  id = refl;
  tenant = refl;
  undone = ground arith;
  token = omega arith;
  sound = λ s. record {
    attempts = s.attempts;
    tokens = s.tokens;
    locked = s.locked;
    leased = ground arith;
  };
}

-- A row that gives its lease up.
released-Moves :
    (j j' : Job)
    → is_status j.status running ≡ true
    → j'.id ≡ j.id
    → j'.tenant_id ≡ j.tenant_id
    → j'.fencing_token ≡ j.fencing_token
    → j'.attempt_count ≡ j.attempt_count
    → j'.max_attempts ≡ j.max_attempts
    → j'.locked_by ≡ none
    → j'.lock_expires_at ≡ none
    → is_status j'.status running ≡ false
    → Moves j j'
released-Moves j j' h a b c d e f g k = record {
  id = a;
  tenant = b;
  undone = ground arith;
  token = omega (arith, c);
  sound = λ s. record {
    attempts = omega (arith, s.attempts, d, e);
    tokens = c ∙ s.tokens ∙ sym d;
    locked = ap is_some f ∙ sym k;
    leased = ap is_some g ∙ sym k;
  };
}

holds-running :
    (fence : Fence) (now : ℕ) (j : Job)
    → holds fence now j ≡ true
    → is_status j.status running ≡ true
unfolding holds
holds-running fence now j h = ground arith

pub completed-Moves :
    (fence : Fence) (result : Value) (now : ℕ) (j : Job)
    → holds fence now j ≡ true
    → Moves j (completed_row result j)
completed-Moves fence result now j h =
    released-Moves j _ (holds-running fence now j h) refl refl refl refl refl refl refl refl

pub failed-Moves :
    (fence : Fence) (error : Value) (retry_at : Option ℕ) (now : ℕ) (j : Job)
    → holds fence now j ≡ true
    → Moves j (failed_row error retry_at now j)
failed-Moves fence error retry_at now j h =
    released-Moves j _ (holds-running fence now j h) refl refl refl refl refl refl refl
      (ground arith)

pub buried-Moves :
    (fence : Fence) (error : Value) (now : ℕ) (j : Job)
    → holds fence now j ≡ true
    → Moves j (buried_row error j)
buried-Moves fence error now j h =
    released-Moves j _ (holds-running fence now j h) refl refl refl refl refl refl refl refl

pub stalled-Moves :
    (now_text tenant : String) (now : ℕ) (j : Job)
    → is_stalled tenant now j ≡ true
    → Moves j (stalled_row now_text now j)
stalled-Moves now_text tenant now j h =
    released-Moves j _ (ground arith) refl refl refl refl refl refl refl (ground arith)

-- Each id has one row.
abbrev pub IsUnique : List Job → Type 0
IsUnique jobs = (i j : Job) → Memᴰ i jobs → Memᴰ j jobs → i.id ≡ j.id → i ≡ j

-- What a transaction does to the jobs: it updates some rows.
pub record Updates (jobs jobs' : List Job) : Type 0 where
  pub test : Job → Bool
  pub set : Job → Job
  pub eq : jobs' ≡ update_where test set jobs
  pub moves : (j : Job) → Memᴰ j jobs → test j ≡ true → Moves j (set j)

pub first_row-mem : (jobs : List Job) {c : Job} → first_row jobs ≡ some c → Memᴰ c jobs
first_row-mem [] h = cc
first_row-mem (j ∷ js) h = Memᴰ.head cc

pub candidate-runnable :
    (id_leb : String → String → Bool) (held : Job → Bool) (tenant : String) (now : ℕ)
    (jobs : List Job) {c : Job}
    → candidate id_leb held tenant now jobs ≡ some c
    → Memᴰ c jobs × (is_runnable tenant now c ≡ true)
candidate-runnable id_leb held tenant now jobs h =
    let (m, p) = mem_of_keep _ jobs (mem_of_sort (claim_le id_leb) _ (first_row-mem _ h)) in
    (m, ground arith)

pub claim-Updates :
    (id_leb : String → String → Bool) (held : Job → Bool) (tenant worker : String) (lease now : ℕ)
    (s : Tables) {row : Option Job} {s' : Tables}
    → IsUnique s.jobs
    → claim id_leb held tenant worker lease now s ≡ ok (row, s')
    → Updates s.jobs s'.jobs
unfolding claim
claim-Updates id_leb held tenant worker lease now s {row} {s'} unique h =
    let (_, p, h1) = >>=-eq-ok (check_lease lease) _ h in
    let (_, q, h2) =
      >>=-eq-ok
        (check_seconds "lockSeconds must be an integer between 1 and 3600" (seconds_of lease)) _
        h1 in
    let chosen = is_row (candidate id_leb held tenant now s.jobs) in
    let set = claimed_row worker (seconds_of lease) now in
    let e : s' ≡ record s { jobs = update_where chosen set s.jobs } = cc in
    record {
      test = chosen;
      set = set;
      eq = ap (λ (x : Tables). x.jobs) e;
      moves = λ j m t. claimed-Moves worker tenant (seconds_of lease) now j (chosen_runnable j m t);
    }
  where
    chosen_runnable :
        (j : Job)
        → Memᴰ j s.jobs
        → is_row (candidate id_leb held tenant now s.jobs) j ≡ true
        → is_runnable tenant now j ≡ true
    chosen_runnable j m t = go (candidate id_leb held tenant now s.jobs) refl t
      where
        go :
            (o : Option Job)
            → candidate id_leb held tenant now s.jobs ≡ o
            → is_row o j ≡ true
            → is_runnable tenant now j ≡ true
        go none e k = cc
        go (some c) e k =
            let (l, r) = candidate-runnable id_leb held tenant now s.jobs e in
            let f : j ≡ c = unique j c m l ((eq_iff j.id c.id).0 k) in rw f r
