-- ===== src/Worker/Jobs/Leases.antt =====
-- What apps/worker/src/job-store.ts promises of its leases, whatever transactions follow one another.
use mathlib.Core.List.{Memᴰ}
use mathlib.Core.List.Memᴰ
use arc_db.Base.{
  ℕ, String, true, Option, none, some, List, [], ◌∷◌, ◌++◌, keep, ◌≡◌, ◌≢◌, ◌⊎◌, inl, inr, refl,
  sym, ◌∙◌, ap, subst, ok, >>=-eq-ok, arith,
}
use arc_db.Host.{Host}
use arc_db.Worker.Jobs.{Job, Tables, first_row}
use arc_db.Worker.Jobs.Enqueue.{
  EnqueueInput, enqueue, validate_enqueue, insert_or_replay, new_job, has_key, check_replay,
}
use arc_db.Worker.Jobs.Rows.{Step, IsSound, is_done, Moves, IsUnique}
use arc_db.Worker.Jobs.Updates.{Step-Updates, Updates-origin, Updates-IsUnique, Updates-done}

IsUnique-append :
    (jobs : List Job) (job : Job)
    → IsUnique jobs
    → ((j : Job) → Memᴰ j jobs → j.id ≢ job.id)
    → IsUnique (jobs ++ job ∷ [])
IsUnique-append jobs job unique fresh i j mi mj e = elim (Memᴰ.append_cases jobs mi) [
  | inl ki ↦ elim (Memᴰ.append_cases jobs mj) [
    | inl kj ↦ unique i j ki kj e
    | inr kj ↦ absurd (fresh i ki (e ∙ ap (λ (x : Job). x.id) (Memᴰ.eq_of_singleton kj)))
  ]
  | inr ki ↦ elim (Memᴰ.append_cases jobs mj) [
    | inl kj ↦ absurd (fresh j kj (sym e ∙ ap (λ (x : Job). x.id) (Memᴰ.eq_of_singleton ki)))
    | inr kj ↦ Memᴰ.eq_of_singleton ki ∙ sym (Memᴰ.eq_of_singleton kj)
  ]
]

module _ (host : Host) where
  -- Transactions of the store in any order, by any worker at any time; a new job has a new id.
  pub data Runs (s : Tables) : Tables → Type 0 where
    stop : Runs s s
    after_step : {t u : Tables} → Runs s t → Step t u → Runs s u
    after_enqueue :
        {t u : Tables} (id : String) (now : ℕ) (input : EnqueueInput) {row : Job}
        → Runs s t
        → ((j : Job) → Memᴰ j t.jobs → j.id ≢ id)
        → enqueue host id now input t ≡ ok (row, u)
        → Runs s u

  -- An enqueue leaves the jobs as they are or adds one that has not been tried.
  pub enqueue-cases :
      (id : String) (now : ℕ) (input : EnqueueInput) (s : Tables) {row : Job} {s' : Tables}
      → enqueue host id now input s ≡ ok (row, s')
      → (s' ≡ s)
        ⊎ ((available : Option ℕ) × (s'.jobs ≡ s.jobs ++ new_job host id now available input ∷ []))
  unfolding enqueue
  enqueue-cases id now input s {row} {s'} h =
      let (available, p, h1) = >>=-eq-ok (validate_enqueue host input) _ h in
      go available (first_row (keep (has_key host input) s.jobs)) h1
    where
      go :
          (available : Option ℕ) (o : Option Job)
          → insert_or_replay host id now available input s o ≡ ok (row, s')
          → (s' ≡ s)
            ⊎ ((available : Option ℕ) × (s'.jobs
                  ≡ s.jobs ++ new_job host id now available input ∷ []))
      go available none k = inr (available, cc)
      go available (some stored) k =
          let (replay, q, k1) = >>=-eq-ok (check_replay host input stored) _ k in inl cc

  -- What holds of the rows and of new jobs, and is kept by moves, holds of all rows of a run; each id
  -- keeps one row.
  pub Runs-keep :
      (Inv : Job → Type 0)
      → ((j j' : Job) → Moves j j' → Inv j → Inv j')
      → {s u : Tables} → Runs s u
      → ((id : String) (now : ℕ) (available : Option ℕ) (input : EnqueueInput) (t : Tables)
          → Runs s t
          → ((j : Job) → Memᴰ j t.jobs → j.id ≢ id)
          → Inv (new_job host id now available input))
      → IsUnique s.jobs
      → ((j : Job) → Memᴰ j s.jobs → Inv j)
      → IsUnique u.jobs × ((j : Job) → Memᴰ j u.jobs → Inv j)
  Runs-keep Inv move stop new unique all = (unique, all)
  Runs-keep Inv move (after_step {t} {u} run step) new unique all =
      let (unique', all') = Runs-keep Inv move run new unique all in
      let up = Step-Updates unique' step in
      (
        Updates-IsUnique up unique',
        λ j m.
            let (i, k, e, o) = Updates-origin up m in
            elim o [
              | inl same ↦ subst Inv (sym same) (all' i k)
              | inr moved ↦ move i j moved (all' i k)
            ],
      )
  Runs-keep Inv move (after_enqueue {t} {u} id now input run fresh h) new unique all =
      let (unique', all') = Runs-keep Inv move run new unique all in
      elim (enqueue-cases id now input t h) [
        | inl e ↦ (
          subst (λ (x : Tables). IsUnique x.jobs) (sym e) unique',
          subst (λ (x : Tables). (j : Job) → Memᴰ j x.jobs → Inv j) (sym e) all',
        )
        | inr (available, e) ↦
            let job = new_job host id now available input in
            let added : Inv job = new id now available input t run fresh in
            (
              subst IsUnique (sym e) (IsUnique-append t.jobs job unique' fresh),
              subst (λ js. (j : Job) → Memᴰ j js → Inv j) (sym e)
                  (λ j m. elim (Memᴰ.append_cases t.jobs m) [
                    | inl k ↦ all' j k
                    | inr k ↦ subst Inv (sym (Memᴰ.eq_of_singleton k)) added
                  ]),
            )
      ]

  -- In every run each job has no more attempts than it is allowed, a token for each of them, and a
  -- lease exactly while it is running, if this holds at the start.
  pub Runs-IsSound :
      (s u : Tables) (j : Job)
      → Runs s u
      → IsUnique s.jobs
      → ((i : Job) → Memᴰ i s.jobs → IsSound i)
      → Memᴰ j u.jobs
      → IsSound j
  Runs-IsSound s u j run unique sound m =
      (Runs-keep IsSound (λ i i' moved. moved.sound) run
          (λ id now available input t r fresh. record {
            attempts = omega arith;
            tokens = refl;
            locked = refl;
            leased = refl;
          })
          unique sound).1
        j m

  -- A job that has succeeded or is a dead letter is never changed again.
  pub Runs-done :
      (s u : Tables) (j : Job)
      → Runs s u
      → IsUnique s.jobs
      → Memᴰ j s.jobs
      → is_done j.status ≡ true
      → Memᴰ j u.jobs
  Runs-done s u j stop unique m d = m
  Runs-done s u j (after_step {t} run step) unique m d =
      let (unique', _) =
        Runs-keep (λ i. Unit) (λ i i' k p. tt) run (λ a b c e t' r f. tt) unique (λ i k. tt) in
      Updates-done (Step-Updates unique' step) (Runs-done s t j run unique m d) d
  Runs-done s u j (after_enqueue {t} id now input run fresh h) unique m d =
      let k = Runs-done s t j run unique m d in
      elim (enqueue-cases id now input t h) [
        | inl e ↦ subst (λ (x : Tables). Memᴰ j x.jobs) (sym e) k
        | inr (available, e) ↦ subst (λ js. Memᴰ j js) (sym e) (Memᴰ.append_left _ k)
      ]
