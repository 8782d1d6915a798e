-- ===== src/Worker/Jobs/Updates.antt =====
-- Every transaction of apps/worker/src/job-store.ts updates some rows of the jobs, each as
-- Jobs/Rows.antt allows.
use mathlib.Core.List.{Memᴰ}
use mathlib.Core.List.Memᴰ
use arc_db.Base.{
  ℕ, zero, suc, String, Bool, true, false, not, ◌&&◌, Option, List, [], ◌∷◌, keep, any, ◌≡◌, ◌⊎◌,
  inl, inr, refl, sym, ◌∙◌, ap, subst, ok, >>=-eq-ok, ◌==◌, eq_iff, arith, if◌then◌else◌,
  Bool-cases,
}
use arc_db.Base.Sort.{sort}
use arc_db.Base.Members.{mem_of_keep, mem_of_sort}
use arc_db.Contracts.Digest.{Value}
use arc_db.Worker.Jobs.{
  Job, Tables, Fence, take, update_where, holds, seconds_of, check_lease, check_seconds,
  renewed_row, completed_row, failed_row, buried_row, stalled_row,
}
use arc_db.Worker.Jobs.Store.{
  heartbeat, complete, fail, recover_tenant, is_stalled, expires_le, is_among,
}
use arc_db.Worker.Jobs.Rows.{
  Step, claimed, renewed, completed, failed, recovered, is_done, Moves, IsUnique, Updates,
  claim-Updates, renewed-Moves, completed-Moves, failed-Moves, buried-Moves, stalled-Moves,
}

any-mem : (p : Job → Bool) (js : List Job) → any p js ≡ true → (c : Job) × Memᴰ c js × (p c ≡ true)
any-mem p [] h = cc
any-mem p (j ∷ js) h = elim (Bool-cases (p j)) [
  | inl e ↦ (j, Memᴰ.head refl, e)
  | inr e ↦ let (c, m, q) = any-mem p js (ground arith) in (c, Memᴰ.tail m, q)
]

mem_of_take : (n : ℕ) (js : List Job) {c : Job} → Memᴰ c (take n js) → Memᴰ c js
mem_of_take zero js m = elim m [ ]
mem_of_take (suc n) [] m = m
mem_of_take (suc n) (j ∷ js) m = elim (Memᴰ.cases_cons m) [
  | inl e ↦ Memᴰ.head e
  | inr k ↦ Memᴰ.tail (mem_of_take n js k)
]

recover-Updates :
    (held : Job → Bool) (now_text : String) (limit now : ℕ) (tenant : String) (s : Tables)
    → IsUnique s.jobs
    → Updates s.jobs (recover_tenant held now_text limit now tenant s).1.jobs
unfolding recover_tenant
recover-Updates held now_text limit now tenant s unique =
    let stalled = keep (λ (j : Job). is_stalled tenant now j && not (held j)) s.jobs in
    record {
      test = is_among (take limit (sort expires_le stalled));
      set = stalled_row now_text now;
      eq = refl;
      moves = λ j m t.
          let (c, k, e) = any-mem (λ c. c.id == j.id) (take limit (sort expires_le stalled)) t in
          let (l, q) =
            mem_of_keep (λ (j : Job). is_stalled tenant now j && not (held j)) s.jobs
              (mem_of_sort expires_le stalled (mem_of_take limit (sort expires_le stalled) k)) in
          let f : j ≡ c = unique j c m l (sym ((eq_iff c.id j.id).0 e)) in
          stalled-Moves now_text tenant now j (rw f (ground arith));
    }

heartbeat-Updates :
    (fence : Fence) (lease now : ℕ) (s : Tables) {done : Bool} {s' : Tables}
    → heartbeat fence lease now s ≡ ok (done, s')
    → Updates s.jobs s'.jobs
unfolding heartbeat
heartbeat-Updates fence lease now s {done} {s'} h =
    let (_, p, h1) = >>=-eq-ok (check_lease lease) _ h in
    let (_, q, h2) =
      >>=-eq-ok
        (check_seconds "extendSeconds must be an integer between 1 and 3600" (seconds_of lease)) _
        h1 in
    let e : s' ≡ record s {
      jobs = update_where (holds fence now) (renewed_row (seconds_of lease) now) s.jobs;
    } =
      cc in
    record {
      test = holds fence now;
      set = renewed_row (seconds_of lease) now;
      eq = ap (λ (x : Tables). x.jobs) e;
      moves = λ j m t. renewed-Moves fence (seconds_of lease) now j t;
    }

fail-Updates :
    (fence : Fence) (retryable : Bool) (retry_at : Option ℕ) (error : Value) (now : ℕ) (s : Tables)
    → Updates s.jobs (fail fence retryable retry_at error now s).1.jobs
unfolding fail
fail-Updates fence true retry_at error now s = record {
  test = holds fence now;
  set = failed_row error retry_at now;
  eq = refl;
  moves = λ j m t. failed-Moves fence error retry_at now j t;
}
fail-Updates fence false retry_at error now s = record {
  test = holds fence now;
  set = buried_row error;
  eq = refl;
  moves = λ j m t. buried-Moves fence error now j t;
}

pub Step-Updates : {s s' : Tables} → IsUnique s.jobs → Step s s' → Updates s.jobs s'.jobs
unfolding complete
Step-Updates {s} unique (claimed id_leb held tenant worker lease now h) =
    claim-Updates id_leb held tenant worker lease now s unique h
Step-Updates {s} unique (renewed fence lease now h) = heartbeat-Updates fence lease now s h
Step-Updates {s} unique (completed fence result now) = record {
  test = holds fence now;
  set = completed_row result;
  eq = refl;
  moves = λ j m t. completed-Moves fence result now j t;
}
Step-Updates {s} unique (failed fence retryable retry_at error now) =
    fail-Updates fence retryable retry_at error now s
Step-Updates {s} unique (recovered held now_text limit now tenant) =
    recover-Updates held now_text limit now tenant s unique

-- The rows that an update leaves, each from one that was there.
pub mem_of_update :
    (test : Job → Bool) (set : Job → Job) (jobs : List Job) {j' : Job}
    → Memᴰ j' (update_where test set jobs)
    → (j : Job) × Memᴰ j jobs × (j' ≡ (if test j then set j else j))
unfolding update_where
mem_of_update test set [] m = elim m [ ]
mem_of_update test set (i ∷ is) m = elim (Bool-cases (test i)) [
  | inl t ↦ elim (Memᴰ.cases_cons (rw t at m)) [
    | inl e ↦ (i, Memᴰ.head refl, rw t e)
    | inr k ↦ let (j, l, c) = mem_of_update test set is k in (j, Memᴰ.tail l, c)
  ]
  | inr t ↦ elim (Memᴰ.cases_cons (rw t at m)) [
    | inl e ↦ (i, Memᴰ.head refl, rw t e)
    | inr k ↦ let (j, l, c) = mem_of_update test set is k in (j, Memᴰ.tail l, c)
  ]
]

pub mem-update :
    (test : Job → Bool) (set : Job → Job) (jobs : List Job) {j : Job}
    → Memᴰ j jobs
    → Memᴰ (if test j then set j else j) (update_where test set jobs)
unfolding update_where
mem-update test set [] m = elim m [ ]
mem-update test set (i ∷ is) {j} (Memᴰ.head e) = elim (Bool-cases (test i)) [
  | inl t ↦ let u : test j ≡ true = ap test e ∙ t in rw (u, t) (Memᴰ.head (ap set e))
  | inr t ↦ let u : test j ≡ false = ap test e ∙ t in rw (u, t) (Memᴰ.head e)
]
mem-update test set (i ∷ is) (Memᴰ.tail m) = elim (Bool-cases (test i)) [
  | inl t ↦ rw t (Memᴰ.tail (mem-update test set is m))
  | inr t ↦ rw t (Memᴰ.tail (mem-update test set is m))
]

-- The row that an updated row came from: the same, or one that moved there.
pub Updates-origin :
    {jobs jobs' : List Job} {j' : Job}
    → (u : Updates jobs jobs') → Memᴰ j' jobs'
    → (j : Job) × Memᴰ j jobs × (j' ≡ (if u.test j then u.set j else j)) × ((j' ≡ j) ⊎ Moves j j')
Updates-origin {jobs} {jobs'} {j'} u m =
    let m' : Memᴰ j' (update_where u.test u.set jobs) = subst (λ l. Memᴰ j' l) u.eq m in
    let (j, k, e) = mem_of_update u.test u.set jobs m' in
    (
      j,
      k,
      e,
      elim (Bool-cases (u.test j)) [
        | inl t ↦
            let f : j' ≡ u.set j = ground (arith, e) in
            inr (subst (λ x. Moves j x) (sym f) (u.moves j k t))
        | inr t ↦ inl (ground (arith, e))
      ],
    )

pub id_of_origin : {j j' : Job} → (j' ≡ j) ⊎ Moves j j' → j'.id ≡ j.id
id_of_origin (inl e) = ap (λ (x : Job). x.id) e
id_of_origin (inr m) = m.id

-- A transaction keeps one row to an id.
pub Updates-IsUnique : {jobs jobs' : List Job} → Updates jobs jobs' → IsUnique jobs → IsUnique jobs'
Updates-IsUnique {jobs} u unique i' j' mi mj e =
    let (i, ki, pi, oi) = Updates-origin u mi in
    let (j, kj, pj, oj) = Updates-origin u mj in
    let same : i ≡ j = unique i j ki kj (sym (id_of_origin oi) ∙ e ∙ id_of_origin oj) in
    pi ∙ ap (λ x. if u.test x then u.set x else x) same ∙ sym pj

-- A row that is done stands as it is.
pub Updates-done :
    {jobs jobs' : List Job} {j : Job}
    → Updates jobs jobs'
    → Memᴰ j jobs
    → is_done j.status ≡ true
    → Memᴰ j jobs'
Updates-done {jobs} {jobs'} {j} u m d =
    let k : Memᴰ (if u.test j then u.set j else j) jobs' =
      subst (λ l. Memᴰ (if u.test j then u.set j else j) l) (sym u.eq)
        (mem-update u.test u.set jobs m) in
    elim (Bool-cases (u.test j)) [ inl t ↦ cc (u.moves j m t).undone | inr t ↦ rw t at k ]
