-- ===== src/Worker/Safety.antt =====
-- apps/worker/src/effects.ts: what both jobs guarantee, whatever the connectors, the hooks and the
-- other processes do.
use mathlib.Core.List.{Memᴰ}
use mathlib.Core.List.Memᴰ
use arc_db.Base.{
  min, ℕ, String, true, false, ◌≡◌, refl, ◌∙◌, sym, ap, some, List, [], ◌∷◌, ◌++◌, append-nil,
  append_assoc, ok, All, ◌⊎◌, inl, inr, ◌≤◌, ◌<◌, ◌+◌, ◌*◌, arith,
}
use arc_db.Contracts.Effect.{executing}
use arc_db.Worker.Connector.{Intent, Connector, is_automatic, resolve_for_intent}
use arc_db.Worker.World.{Env, World, Store, Receipt, Call}
use arc_db.Worker.Ensures.{Ensures, Any, ensures_bind, ensures_lift}
use arc_db.Worker.Runtime.{
  Job, parse_payload, require_effect_project, require_intent, found_or_throw, lease_seconds,
}
use arc_db.Worker.Runtime.Begun.{IsBegun}
use arc_db.Worker.Runtime.Steps.{IsKept, IsMove, ensures_read}
use arc_db.Worker.Runtime.Compensate.Keeps.{IsPending}
use arc_db.Worker.Runtime.Execute.{reconcile_intent, reconcile_effect, is_executable}
use arc_db.Worker.Runtime.Execute.Keeps.{MayCall, IsCleared, ensures_reconcile_intent}
use arc_db.Worker.Runtime.Compensate.{compensate_intent, run_compensation}
use arc_db.Worker.Runtime.Compensate.Keeps.{ensures_compensate_intent}
use arc_db.Worker.Store.{select_row, interleave}

-- Every call so far is allowed.
abbrev AllCalls : (Call → Type 0) → World → Type 0
AllCalls May w = All May w.calls

AllCalls-IsKept : (env : Env) (May : Call → Type 0) → IsKept env (AllCalls May) May
AllCalls-IsKept env May = record {
  elsewhere = λ w h. h;
  called = λ w c may h. (may, h);
  written = λ w i j e t h. h;
  logged = λ w r h. h;
}

all_of_mem {ℓ κ} : {A : Type ℓ} (P : A → Type κ) (xs : List A) {x : A} → All P xs → Memᴰ x xs → P x
all_of_mem P [] h m = elim m [ ]
all_of_mem P (y ∷ ys) (p, h) m = elim (Memᴰ.cases_cons m) [
  | inl e ↦ rw e p
  | inr k ↦ all_of_mem P ys h k
]

-- What an `execute` by an automatic connector implies of the intent that was read and of the one
-- that the connector is given.
pub record IsFirstExecution (env : Env) (job : Job) (read given : Intent) : Type 0 where
  pub ready : is_executable read.status ≡ true
  pub cleared : IsCleared env read
  pub begun : IsBegun env job read executing given

abbrev MayExecute : Env → Job → Intent → Call → Type 0
MayExecute env job i (Call.execute j) = IsFirstExecution env job i j
MayExecute env job i _ = Unit

-- Where the connector resolved for the intent is automatic and no call was made before, each `execute`
-- of the run is one of an effect that was read as PREPARED or FAILED, never of one whose outcome may
-- be unknown; if the effect is R3 its approval guard said yes; and the intent given to the connector
-- is one that `begin` returned and left in the store: the row of the same effect, found in the status
-- that was read, now EXECUTING with a newly acquired fencing token and otherwise unchanged.
pub reconcile_intent-IsFirstExecution :
    (env : Env) (job : Job) (i j : Intent) (c : Connector) (w : World)
    → w.calls ≡ []
    → resolve_for_intent env.host env.registry i ≡ ok c
    → is_automatic c ≡ true
    → Memᴰ (Call.execute j) (reconcile_intent env job i w).1.calls
    → IsFirstExecution env job i j
unfolding Ensures
reconcile_intent-IsFirstExecution env job i j c w none_yet resolved automatic m =
    let kept = AllCalls-IsKept env (MayExecute env job i) in
    let may : MayCall env job (AllCalls (MayExecute env job i)) (MayExecute env job i) kept i =
      record {
        query = λ k. tt;
        manual = λ d e manual. absurd (two_modes d e manual);
        automatic = λ d e auto ready cleared k begun. record {
          ready = ready;
          cleared = cleared;
          begun = begun;
        };
      } in
    let (calls, _) =
      ensures_reconcile_intent env job (AllCalls (MayExecute env job i)) (MayExecute env job i) kept
        i may w (rw none_yet tt) in
    all_of_mem (MayExecute env job i) (reconcile_intent env job i w).1.calls calls m
  where
    two_modes :
        (d : Connector)
        → resolve_for_intent env.host env.registry i ≡ ok d
        → is_automatic d ≡ false
        → ⊥
    two_modes d e manual = let same : c ≡ d = cc in cc (rw (← same) at manual)

abbrev MayUndo : Env → Job → Call → Type 0
MayUndo env job (Call.execute j) = ⊥
MayUndo env job (Call.reconcile j) = ⊥
MayUndo env job (Call.compensate j) = IsPending env job j
MayUndo env job (Call.reconcile_compensation j) = Unit

-- Where no call was made before, each call of a compensation job is a query of the compensation, or a
-- `compensate` with an intent that `begin` returned and left in the store: the row of the effect that
-- `begin` was given, found in the status given, now COMPENSATION_PENDING with a newly acquired fencing
-- token and otherwise unchanged. None executes the effect.
pub compensate_intent-MayUndo :
    (env : Env) (job : Job) (i : Intent) (w : World) (c : Call)
    → w.calls ≡ []
    → Memᴰ c (compensate_intent env job i w).1.calls
    → ((j : Intent) × (c ≡ Call.reconcile_compensation j))
      ⊎ ((j : Intent) × (c ≡ Call.compensate j) × IsPending env job j)
unfolding Ensures
compensate_intent-MayUndo env job i w c none_yet m =
    let (calls, _) =
      ensures_compensate_intent env job (AllCalls (MayUndo env job)) (MayUndo env job)
        (AllCalls-IsKept env (MayUndo env job)) (λ j. tt) (λ j begun. begun) i w (rw none_yet tt) in
    split c (all_of_mem (MayUndo env job) (compensate_intent env job i w).1.calls calls m)
  where
    split :
        (c : Call)
        → MayUndo env job c
        → ((j : Intent) × (c ≡ Call.reconcile_compensation j))
          ⊎ ((j : Intent) × (c ≡ Call.compensate j) × IsPending env job j)
    split (Call.execute j) h = absurd h
    split (Call.reconcile j) h = absurd h
    split (Call.compensate j) h = inr (j, refl, h)
    split (Call.reconcile_compensation j) h = inl (j, refl)

-- An invariant that allows every call is kept by both jobs.
module _ (env : Env) (job : Job) (inv : World → Type 0) (kept : IsKept env inv (λ c. Unit)) where
  ensures_require_intent :
      (project id : String) → Ensures inv (require_intent env job project id) Any
  unfolding require_intent
  ensures_require_intent project id =
      ensures_bind inv Any Any _ _
        (ensures_read env job inv (λ c. Unit) kept
          λ w. select_row job.tenant_id project id w.store.intent)
        λ o _. ensures_lift inv Any (found_or_throw id o) λ _ _. tt

  ensures_reconcile_effect : Ensures inv (reconcile_effect env job) Any
  unfolding reconcile_effect
  ensures_reconcile_effect =
      ensures_bind inv Any Any _ _ (ensures_lift inv Any (parse_payload env job.payload) λ _ _. tt)
        λ id _.
          ensures_bind inv Any Any _ _ (ensures_lift inv Any (require_effect_project job) λ _ _. tt)
            λ project _. ensures_bind inv Any Any _ _ (ensures_require_intent project id) λ i _.
              ensures_reconcile_intent env job inv (λ c. Unit) kept i
                (record {
                  query = λ j. tt;
                  manual = λ c e m. tt;
                  automatic = λ c e a ready cleared j begun. tt;
                })

  ensures_run_compensation : Ensures inv (run_compensation env job) Any
  unfolding run_compensation
  ensures_run_compensation =
      ensures_bind inv Any Any _ _ (ensures_lift inv Any (parse_payload env job.payload) λ _ _. tt)
        λ id _.
          ensures_bind inv Any Any _ _ (ensures_lift inv Any (require_effect_project job) λ _ _. tt)
            λ project _. ensures_bind inv Any Any _ _ (ensures_require_intent project id) λ i _.
              ensures_compensate_intent env job inv (λ c. Unit) kept (λ j. tt) (λ j begun. tt) i

-- A log of which another is a prefix.
abbrev pub Extends : List Receipt → List Receipt → Type 0
Extends log log' = (more : List Receipt) × (log' ≡ log ++ more)

Extends-trans : (a b c : List Receipt) → Extends a b → Extends b c → Extends a c
Extends-trans a b c (m, e) (n, f) = (m ++ n, f ∙ ap (λ l. l ++ n) e ∙ append_assoc a m n)

-- If the other processes only append receipts, so do both jobs, whether they return or throw.
pub jobs-Extends :
    (env : Env) (job : Job) (w : World)
    → ((n : ℕ) (s : Store) → Extends s.receipts (env.others n s).receipts)
    → Extends w.store.receipts (reconcile_effect env job w).1.store.receipts
      × Extends w.store.receipts (run_compensation env job w).1.store.receipts
unfolding Ensures
jobs-Extends env job w others =
    let kept : IsKept env (λ v. Extends w.store.receipts v.store.receipts) (λ c. Unit) = record {
      elsewhere = λ v h. Extends-trans _ _ _ h (others v.moment v.store);
      called = λ v c may h. Extends-trans _ _ _ h (others v.moment v.store);
      written = λ v i j e t h. Extends-trans _ _ _ h (others v.moment v.store);
      logged = λ v r h.
          Extends-trans _ _ _ (Extends-trans _ _ _ h (others v.moment v.store)) (r ∷ [], refl);
    } in
    let start : Extends w.store.receipts w.store.receipts =
      ([], sym (append-nil w.store.receipts)) in
    (
      (ensures_reconcile_effect env job _ kept w start).0,
      (ensures_run_compensation env job _ kept w start).0,
    )

-- One moment of a job, as seen in the world: the others have their turn; with it the job may call a
-- connector, move the row of its intent along one edge of the table, or append one receipt.
pub data Step (env : Env) (w : World) : World → Type 0 where
  waited : Step env w (interleave env w)
  called : (c : Call) → Step env w (interleave env (record w { calls = c ∷ w.calls }))
  moved :
      (i j : Intent)
      → (interleave env w).store.intent ≡ some i
      → IsMove i j
      → Step env w (record (interleave env w) {
        store = record (interleave env w).store { intent = some j };
      })
  logged :
      (r : Receipt)
      → Step env w (record (interleave env w) {
        store = record (interleave env w).store {
          receipts = (interleave env w).store.receipts ++ (r ∷ []);
        };
      })

pub data Steps (env : Env) (w : World) : World → Type 0 where
  stop : Steps env w w
  then : {v u : World} → Steps env w v → Step env v u → Steps env w u

-- Whatever the connectors, the hooks and the other processes do, and whether they return or throw,
-- both jobs are a sequence of single moments. In each the other processes have their turn, and with it
-- the job does one thing at most: it calls a connector, moves the row of its intent along one edge of
-- the table of transitions, changing the status and the fencing token alone, or appends one receipt.
pub jobs-Steps :
    (env : Env) (job : Job) (w : World)
    → Steps env w (reconcile_effect env job w).1 × Steps env w (run_compensation env job w).1
unfolding Ensures
jobs-Steps env job w =
    let kept : IsKept env (Steps env w) (λ c. Unit) = record {
      elsewhere = λ v h. then h waited;
      called = λ v c may h. then h (called c);
      written = λ v i j e m h. then h (moved i j e m);
      logged = λ v r h. then h (logged r);
    } in
    (
      (ensures_reconcile_effect env job _ kept w stop).0,
      (ensures_run_compensation env job _ kept w stop).0,
    )

-- The lease of a resource is one that the store accepts, of 30 to 3600 seconds. It lasts for the job's
-- timeout and thirty seconds more, rounded up to a second, or for an hour where that is less.
pub lease_seconds_lem :
    (t : ℕ)
    → (30 ≤ lease_seconds t)
      × (lease_seconds t ≤ 3600)
      × (min (t + 30000) 3600000 ≤ lease_seconds t * 1000)
      × (lease_seconds t * 1000 < t + 31000)
unfolding lease_seconds
lease_seconds_lem t = (omega arith, omega arith, omega arith, omega arith)
