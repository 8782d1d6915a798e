-- ===== src/Worker/Jobs/Fences.antt =====
-- The fences of apps/worker/src/job-store.ts: a claim takes a job that is free, and shuts out for ever
-- whoever held it before.
use mathlib.Core.List.{Memᴰ}
use mathlib.Core.List.Memᴰ
use arc_db.Base.{
  ℕ, ◌+◌, ◌≤◌, ◌<◌, String, Bool, true, false, Option, none, some, List, [], ◌∷◌, map, keep, any,
  ◌≡◌, inl, inr, refl, sym, ◌∙◌, ap, subst, ok, >>=-eq-ok, ◌==◌, eq_iff, arith, if◌then◌else◌,
  Bool-cases, leb, leb→le, ltb→lt, ◌||◌, ◌⊎◌, ◌*◌,
}
use arc_db.Base.Members.{mem_of_keep, mem_of_sort, mem_of_any}
use arc_db.Host.{Host}
use arc_db.Contracts.Digest.{Value}
use arc_db.Worker.Jobs.{
  Job, Tables, Fence, fence_lost, first_row, update_where, returning, holds, seconds_of,
  check_lease, check_seconds, is_safe_positive, claimed_row, JobStatus, pending, running, is_status,
  completed_row, failed_row, buried_row,
}
use arc_db.Worker.Jobs.Store.{
  claim, candidate, is_row, is_runnable, claim_le, is_fence_current, complete, fail, fail_with,
}
use arc_db.Worker.Jobs.Rows.{IsUnique, Updates, claim-Updates, candidate-runnable, first_row-mem}
use arc_db.Worker.Jobs.Updates.{Step-Updates, Updates-IsUnique, mem-update}
use arc_db.Worker.Jobs.Leases.{Runs, after_step, after_enqueue, stop, enqueue-cases, Runs-keep}

pub first_of_map :
    (set : Job → Job) (jobs : List Job) {r : Job}
    → first_row (map set jobs) ≡ some r
    → (j : Job) × Memᴰ j jobs × (r ≡ set j)
first_of_map set [] h = cc
first_of_map set (j ∷ js) h = (j, Memᴰ.head refl, cc)

-- What a claim that returns a job has done: the row that it found, and what it made of it.
pub record Claimed (held : Job → Bool) (tenant worker : String) (lease now : ℕ) (s t : Tables)
    (r : Job) : Type 0 where
  pub before : Job
  pub found : Memᴰ before s.jobs
  pub own : before.tenant_id ≡ tenant
  pub free : held before ≡ false
  pub waiting : (before.status ≡ pending) ⊎ (before.status ≡ JobStatus.failed)
  pub due : before.available_at ≤ now
  pub tries : before.attempt_count < before.max_attempts
  pub expiry : ℕ
  pub row : r ≡ record before {
    status = running;
    attempt_count = before.attempt_count + 1;
    locked_by = some worker;
    lock_expires_at = some expiry;
    fencing_token = before.fencing_token + 1;
    error = none;
  }
  pub lasts : (now + lease ≤ expiry) × (expiry < now + lease + 1000)
  pub stored : Memᴰ r t.jobs

candidate-free :
    (id_leb : String → String → Bool) (held : Job → Bool) (tenant : String) (now : ℕ)
    (jobs : List Job) {c : Job}
    → candidate id_leb held tenant now jobs ≡ some c
    → held c ≡ false
candidate-free id_leb held tenant now jobs h =
    let (m, p) = mem_of_keep _ jobs (mem_of_sort (claim_le id_leb) _ (first_row-mem _ h)) in
    ground arith

waits :
    (s : JobStatus)
    → is_status s pending || is_status s JobStatus.failed ≡ true
    → (s ≡ pending) ⊎ (s ≡ JobStatus.failed)
waits s h = ground arith

lease_lasts :
    (lease now : ℕ) {u : Unit}
    → check_lease lease ≡ ok u
    → (now + lease ≤ now + 1000 * seconds_of lease)
      × (now + 1000 * seconds_of lease < now + lease + 1000)
lease_lasts lease now h = do
  let safe : is_safe_positive lease ≡ true = ground arith
  let positive : leb 1 lease ≡ true = ground arith
  let least = leb→le 1 lease positive
  (omega (arith, least), omega (arith, least))

-- A claim that returns a job has taken one of the tenant that was pending or failed, was due and had
-- attempts left, whose row no other transaction held; the job is stored as running, with one attempt
-- more, the next token and the worker's lease, which lasts as long as it asked for, rounded up to a
-- second.
pub claim-Claimed :
    (id_leb : String → String → Bool) (held : Job → Bool) (tenant worker : String) (lease now : ℕ)
    (s t : Tables) (r : Job)
    → IsUnique s.jobs
    → claim id_leb held tenant worker lease now s ≡ ok (some r, t)
    → Claimed held tenant worker lease now s t r
unfolding claim
claim-Claimed id_leb held tenant worker lease now s t r unique h =
    let (_, checked, h1) = >>=-eq-ok (check_lease lease) _ h in
    let (_, q, h2) =
      >>=-eq-ok
        (check_seconds "lockSeconds must be an integer between 1 and 3600" (seconds_of lease)) _
        h1 in
    let chosen = is_row (candidate id_leb held tenant now s.jobs) in
    let set = claimed_row worker (seconds_of lease) now in
    let taken : first_row (returning chosen set s.jobs) ≡ some r = cc in
    let e : t ≡ record s { jobs = update_where chosen set s.jobs } = cc in
    let (j, k, f) = first_of_map set (keep chosen s.jobs) taken in
    let (m, c) = mem_of_keep chosen s.jobs k in
    let stored : Memᴰ (if chosen j then set j else j) (update_where chosen set s.jobs) =
      mem-update chosen set s.jobs m in
    let there : Memᴰ (set j) (update_where chosen set s.jobs) = rw c at stored in
    let (runs, unheld) = free j m c in
    record {
      before = j;
      found = m;
      own = (eq_iff j.tenant_id tenant).0 (ground arith);
      free = unheld;
      waiting = waits j.status (ground arith);
      due = leb→le j.available_at now (ground arith);
      tries = ltb→lt j.attempt_count j.max_attempts (ground arith);
      expiry = now + 1000 * seconds_of lease;
      row = f;
      lasts = lease_lasts lease now checked;
      stored = subst (λ (x : Tables). Memᴰ r x.jobs) (sym e) (rw f there);
    }
  where
    free :
        (j : Job)
        → Memᴰ j s.jobs
        → is_row (candidate id_leb held tenant now s.jobs) j ≡ true
        → (is_runnable tenant now j ≡ true) × (held j ≡ false)
    free j m c = go (candidate id_leb held tenant now s.jobs) refl c
      where
        go :
            (o : Option Job)
            → candidate id_leb held tenant now s.jobs ≡ o
            → is_row o j ≡ true
            → (is_runnable tenant now j ≡ true) × (held j ≡ false)
        go none e k = cc
        go (some c') e k =
            let (l, q) = candidate-runnable id_leb held tenant now s.jobs e in
            rw (unique j c' m l ((eq_iff j.id c'.id).0 k))
              (q, candidate-free id_leb held tenant now s.jobs e)

-- Every row of the job has at least this token.
abbrev AtLeast : String → ℕ → Job → Type 0
AtLeast id n j = j.id ≡ id → n ≤ j.fencing_token

none_holds :
    (fence : Fence) (now : ℕ) (j : Job)
    → AtLeast fence.job_id (fence.fencing_token + 1) j
    → holds fence now j ≡ false
unfolding holds
none_holds fence now j least = elim (Bool-cases (j.id == fence.job_id)) [
  | inl same ↦
      let n : fence.fencing_token + 1 ≤ j.fencing_token =
        least ((eq_iff j.id fence.job_id).0 same) in
      ground (arith, n)
  | inr other ↦ ground arith
]

holds-Fence :
    (fence : Fence) (now : ℕ) (j : Job)
    → holds fence now j ≡ true
    → (j.id ≡ fence.job_id) × (j.fencing_token ≡ fence.fencing_token)
unfolding holds
holds-Fence fence now j h = ((eq_iff j.id fence.job_id).0 (ground arith), ground arith)

module _ (test : Job → Bool) (set : Job → Job) where
  untouched :
      (jobs : List Job)
      → ((j : Job) → Memᴰ j jobs → test j ≡ false)
      → (update_where test set jobs ≡ jobs) × (keep test jobs ≡ []) × (any test jobs ≡ false)
  unfolding update_where
  untouched [] none' = (refl, refl, refl)
  untouched (j ∷ js) none' =
      let h = none' j (Memᴰ.head refl) in
      let (a, b, c) = untouched js (λ i m. none' i (Memᴰ.tail m)) in
      (rw (h, a), rw (h, b), rw (h, c))

-- A fence that is shut is not current, completes nothing and fails nothing.
pub record IsShut (fence : Fence) (u : Tables) (now : ℕ) (result : Value) (retryable : Bool)
    (retry_at : Option ℕ) (error : Value) : Type 0 where
  pub current : is_fence_current fence now u ≡ false
  pub completes : complete fence result now u ≡ (false, u)
  pub fails : fail fence retryable retry_at error now u ≡ (fence_lost, u)

fails_none :
    (set : Job → Job) (fence : Fence) (now : ℕ) (u : Tables)
    → ((j : Job) → Memᴰ j u.jobs → holds fence now j ≡ false)
    → fail_with set fence now u ≡ (fence_lost, u)
fails_none set fence now u free =
    let (a, b, c) = untouched (holds fence now) set u.jobs free in rw (a, b)

IsShut-of_none :
    (fence : Fence) (u : Tables) (now : ℕ) (result : Value) (retryable : Bool) (retry_at : Option ℕ)
    (error : Value)
    → ((j : Job) → Memᴰ j u.jobs → holds fence now j ≡ false)
    → IsShut fence u now result retryable retry_at error
unfolding is_fence_current complete fail
IsShut-of_none fence u now result retryable retry_at error free = record {
  current = (untouched (holds fence now) (λ j. j) u.jobs free).2;
  completes =
      let (a, b, c) = untouched (holds fence now) (completed_row result) u.jobs free in rw (a, b);
  fails = elim (Bool-cases retryable) [
    | inl yes' ↦ rw yes' (fails_none (failed_row error retry_at now) fence now u free)
    | inr no' ↦ rw no' (fails_none (buried_row error) fence now u free)
  ];
}

-- The job of the id is there.
abbrev Present : String → List Job → Type 0
Present id jobs = (j : Job) × Memᴰ j jobs × (j.id ≡ id)

Updates-Present :
    (id : String) {jobs jobs' : List Job} → Updates jobs jobs' → Present id jobs → Present id jobs'
Updates-Present id {jobs} {jobs'} u (j, m, e) =
    let after_update = if u.test j then u.set j else j in
    let k : Memᴰ after_update jobs' =
      subst (λ l. Memᴰ after_update l) (sym u.eq) (mem-update u.test u.set jobs m) in
    (
      after_update,
      k,
      elim (Bool-cases (u.test j)) [ inl t ↦ rw t ((u.moves j m t).id ∙ e) | inr t ↦ rw t e ],
    )

module _ (host : Host) where
  Runs-Present :
      (id : String) {s u : Tables}
      → Runs host s u
      → IsUnique s.jobs
      → Present id s.jobs
      → Present id u.jobs
  Runs-Present id stop unique present = present
  Runs-Present id (after_step {t} run step) unique present =
      let (unique', _) =
        Runs-keep host (λ i. Unit) (λ i i' k p. tt) run (λ a b c e t' r f. tt) unique (λ i k. tt) in
      Updates-Present id (Step-Updates unique' step) (Runs-Present id run unique present)
  Runs-Present id (after_enqueue {t} i now input run fresh h) unique present =
      let (j, m, e) = Runs-Present id run unique present in
      elim (enqueue-cases host i now input t h) [
        | inl g ↦ (j, subst (λ (x : Tables). Memᴰ j x.jobs) (sym g) m, e)
        | inr (available, g) ↦ (j, subst (λ js. Memᴰ j js) (sym g) (Memᴰ.append_left _ m), e)
      ]

  Runs-AtLeast :
      (id : String) (n : ℕ) {s u : Tables}
      → Runs host s u
      → IsUnique s.jobs
      → Present id s.jobs
      → ((j : Job) → Memᴰ j s.jobs → AtLeast id n j)
      → (j : Job) → Memᴰ j u.jobs
      → AtLeast id n j
  Runs-AtLeast id n run unique present least =
      (Runs-keep host (AtLeast id n)
        (λ i i' moved l e. omega (arith, moved.token, l (sym moved.id ∙ e))) run
        (λ i now available input t r fresh e.
          let (j, m, f) = Runs-Present id r unique present in absurd (fresh j m (f ∙ sym e)))
        unique least).1

  -- A claim shuts out whoever held the job before: a fence that was current at some time, before a run
  -- of transactions and a claim that returned its job, is not current, completes nothing and fails
  -- nothing, in whatever run of transactions follows the claim and at any time. Ids are unique at the
  -- start.
  pub claim-IsShut :
      (id_leb : String → String → Bool) (held : Job → Bool) (tenant worker : String) (lease now : ℕ)
      (first s t u : Tables) (r : Job) (fence : Fence) (once later : ℕ) (result : Value)
      (retryable : Bool) (retry_at : Option ℕ) (error : Value)
      → IsUnique first.jobs
      → is_fence_current fence once first ≡ true
      → Runs host first s
      → claim id_leb held tenant worker lease now s ≡ ok (some r, t)
      → Runs host t u
      → fence.job_id ≡ r.id
      → IsShut fence u later result retryable retry_at error
  unfolding is_fence_current
  claim-IsShut id_leb held tenant worker lease now first s t u r fence once later result retryable
        retry_at error unique0 current earlier h run same =
      let (k, mk, hk) = mem_of_any (holds fence once) first.jobs current in
      let (id_k, token_k) = holds-Fence fence once k hk in
      let (unique, _) =
        Runs-keep host (λ i. Unit) (λ i i' k' p. tt) earlier (λ a b c e t' r' f. tt) unique0
          (λ i k'. tt) in
      let old =
        Runs-AtLeast fence.job_id fence.fencing_token earlier unique0 (k, mk, id_k)
          (λ j m e.
            let f : j ≡ k = unique0 j k m mk (e ∙ sym id_k) in
            omega (arith, ap (λ (x : Job). x.fencing_token) f, token_k)) in
      let taken = claim-Claimed id_leb held tenant worker lease now s t r unique h in
      let less : fence.fencing_token < r.fencing_token =
        let n = old taken.before taken.found (ap (λ (x : Job). x.id) (sym taken.row) ∙ sym same) in
        omega (arith, n, ap (λ (x : Job). x.fencing_token) taken.row) in
      let c = claim-Claimed id_leb held tenant worker lease now s t r unique h in
      let unique' : IsUnique t.jobs =
        Updates-IsUnique (claim-Updates id_leb held tenant worker lease now s unique h) unique in
      let least =
        Runs-AtLeast r.id r.fencing_token run unique' (r, c.stored, refl)
          (λ j m e.
            let f : j ≡ r = unique' j r m c.stored e in
            omega (arith, ap (λ (x : Job). x.fencing_token) f)) in
      IsShut-of_none fence u later result retryable retry_at error (λ j m.
        none_holds fence later j (λ e. let n = least j m (e ∙ same) in omega (arith, less, n)))
