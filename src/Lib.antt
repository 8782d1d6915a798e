-- ===== src/Lib.antt =====
-- ArcDB keeps the outputs of agents as versions with a lifecycle, evidence that backs them, and
-- effects on the outside world with their receipts.
--
-- Contracts models packages/contracts/src: errors.ts (Errors), primitives.ts (Primitives), digest.ts
-- (Digest), output.ts (Output), evidence.ts (Evidence), effect.ts (Effect, Remediation) and lineage.ts
-- (Lineage). A zod schema is a
-- function `parse_…` from the raw value to a Result: it gives the value that `schema.parse` returns,
-- or the fault `zod`. The unknown keys that a strict schema refuses have no counterpart in a record.
-- Numbers are natural numbers; a confidence is a multiple of the least positive double.
--
-- Lifecycle models packages/lifecycle/src: evidence-policy.ts (Policy, and Policy/Evaluate for the
-- evaluation of a policy), output-machine.ts (Machine) and effects.ts (Effects). Policy calls the
-- fingerprint of Digest; Machine calls Policy; Effects stands alone. A function that throws returns a
-- Result, whose fault keeps the error class and the arguments of its constructor (Contracts/Errors).
-- Machine/Trace composes transitions the way a caller does, each on the output of the last.
--
-- Worker models the effect jobs of apps/worker/src: errors.ts (Errors), connectors/ (Connector),
-- effect-store.ts (World, Store) and effects.ts (Runtime, with Runtime/Execute for `reconcileEffect`
-- and Runtime/Compensate for `runCompensation`), and manual-receipt-service.ts (Manual). Its actions pass the world along: the rows of the
-- job's intent, the calls of connectors, and a moment that every await advances. At each moment other
-- processes may have changed the rows; they, the fences, the connectors, the hooks and the approval
-- guard are given by Env, with no assumption but those that a theorem names. A transaction is one
-- step. Ensures is the logic of invariants that actions keep, Runtime/Begun says what the store holds
-- after a begin, and Safety has the single moments of a job. The runtime uses the table of transitions
-- of Lifecycle/Effects. Jobs models job-store.ts with the SQL of JobsRepository in
-- packages/db/src/repositories/control.ts: a transaction is a function of the rows and of its time
-- (Jobs/Store, Jobs/Enqueue), and a run is any sequence of them (Jobs/Leases). Backoff models
-- backoff.ts in exact rational arithmetic, where the code rounds products to doubles.
--
-- Auth models packages/auth/src/rbac.ts: the permissions of the roles and authorization.
--
-- Lineage models packages/lineage/src: selectors.ts (Selectors), impact.ts (Impact, with
-- Impact/Report for the result) and invalidation.ts (Invalidation, with Plan and Apply). The maps and
-- sets of the analysis are lists; transfer functions and the fingerprint resolver are parameters that
-- may throw. Its loop runs on fuel, and gives none where that is not enough; Impact/Terminates has a
-- bound that is. A plan calls the analysis, and takes its states from Contracts and the table of
-- Lifecycle/Machine.
--
-- Host is the platform: trim, the length of a string in UTF-16 units, the ISO check of zod,
-- Date.parse, the orders of strings, JSON.stringify and SHA-256, a parameter of what uses it.
-- Base holds the helpers. All other recursion is on lists or on the structure of a value.
--
-- Not modelled: the HTTP routes of apps/api, the dashboard of apps/web, the rest of the SQL of packages/db, the
-- clients of packages/sdk-typescript, packages/artifacts, telemetry, API keys, `explainImpact` of
-- packages/lineage, and of apps/worker the processor of jobs, its timers and servers, the loop of
-- recovery over the tenants and the queries on the health of the queue.
pub mod Base
pub mod Host
pub mod Contracts
pub mod Lifecycle
pub mod Worker
pub mod Auth
pub mod Lineage
