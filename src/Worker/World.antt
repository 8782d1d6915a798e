-- ===== src/Worker/World.antt =====
-- apps/worker/src/effect-store.ts, and how a job runs on it: what an action of the runtime sees and
-- changes. Of the tables only the rows of the job's own intent matter. Every await takes a moment, at
-- which other processes may have changed them.
use arc_db.Base.{ℕ, String, Bool, Option, none, some, List, Result, ok, err}
use arc_db.Host.{Host}
use arc_db.Contracts.Digest.{Fields}
use arc_db.Worker.Errors.{Fault}
use arc_db.Worker.Connector.{Intent, Draft, Registry}

-- `EffectReceiptRecord`
pub record Receipt : Type 0 where
  pub id : String
  pub tenant_id : String
  pub project_id : String
  pub intent_id : String
  pub sequence : ℕ
  pub external_transaction_id : Option String
  pub external_status : String
  pub before_digest : Option String
  pub after_digest : Option String
  pub actual_effects : Fields
  pub raw_response_ref : Option String
  pub compensation_status : Option String
  pub committed_at : Option String
  pub created_at : String

-- The row of the intent, if there is one, and the rows of its receipts by their sequence.
pub record Store : Type 0 where
  pub intent : Option Intent
  pub receipts : List Receipt

-- A call of a connector's method, with the intent it was given.
pub data Call : Type 0 where
  execute reconcile compensate reconcile_compensation : Intent → Call

pub record World : Type 0 where
  pub moment : ℕ
  pub store : Store
  -- the last call first
  pub calls : List Call

pub data Marker : Type 0 where
  executed compensated : Marker

abbrev pub marker_text : Marker → String
marker_text executed = "EXECUTED"
marker_text compensated = "COMPENSATED"

-- What the runtime is given: `EffectRuntimeOptions`, the context of the job, and the world around.
pub record Env : Type 0 where
  pub host : Host
  pub registry : Registry
  -- `context.assertCurrentFence()` at a moment: what it throws, if it does
  pub job_fence : ℕ → Option Fault
  -- whether the row of the job is still the one of this run, at a moment
  pub job_current : ℕ → Bool
  -- whether a resource's fencing token is current, at a moment
  pub resource_current : ℕ → Intent → Bool
  -- the fencing token that the next acquisition of the resource gives
  pub acquired : ℕ → String
  -- what other processes make of the rows before the moment's action
  pub others : ℕ → Store → Store
  -- `now()` of the database and of the runtime
  pub now : ℕ → String
  -- `approvalGuard`, where one is given
  pub approval_guard : Option (ℕ → Intent → Result Fault Bool)
  -- the hooks: what they throw, if they do
  pub after_external_success : ℕ → Option Fault
  pub after_receipt_persisted : ℕ → Option Fault
  pub after_compensation_success : ℕ → Option Fault
  pub receipt_id : Intent → Marker → Draft → String
  -- `z.string().uuid()`
  pub is_uuid : String → Bool

-- A computation of the runtime: what it returns or throws, and the world it leaves.
abbrev pub Action {ℓ} : Type ℓ → Type ℓ
Action A = World → Result Fault A × World

abbrev pub returned {ℓ} : {A : Type ℓ} → A → Action A
returned a w = (ok a, w)

abbrev pub throw {ℓ} : {A : Type ℓ} → Fault → Action A
throw e w = (err e, w)

-- What follows a step.
abbrev pub resume {ℓ κ} :
    {A : Type ℓ} {B : Type κ} → (A → Action B) → Result Fault A × World → Result Fault B × World
resume next (ok a, w) = next a w
resume next (err e, w) = (err e, w)

infixl 5 ◌>>=◌ ◌>>◌
unfoldable pub ◌>>=◌ {ℓ κ} : {A : Type ℓ} {B : Type κ} → Action A → (A → Action B) → Action B
(m >>= next) w = resume next (m w)

abbrev pub ◌>>◌ {κ} : {B : Type κ} → Action (Unit {0}) → Action B → Action B
m >> rest = m >>= λ done. rest

-- A throw behind a step whose value is not used.
abbrev pub throw_after {ℓ κ} : {A : Type ℓ} {B : Type κ} → Action A → Fault → Action B
throw_after m e = m >>= λ done. throw e

abbrev pub handle {ℓ} :
    {A : Type ℓ} → (Fault → Action A) → Result Fault A × World → Result Fault A × World
handle recover (ok a, w) = (ok a, w)
handle recover (err e, w) = recover e w

-- `try { … } catch (error) { … }`
unfoldable pub catch {ℓ} : {A : Type ℓ} → Action A → (Fault → Action A) → Action A
catch m recover w = handle recover (m w)

abbrev pub lift {ℓ} : {A : Type ℓ} → Result Fault A → Action A
lift r w = (r, w)

abbrev pub throw_some : Option Fault → Result Fault (Unit {0})
throw_some none = ok tt
throw_some (some e) = err e
