-- ===== src/Contracts/Errors.antt =====
-- packages/contracts/src/errors.ts: what the domain code throws. A fault keeps the arguments of its
-- error's constructor; the message texts that the classes put together from them are left out.
use arc_db.Base.{ℕ, String, Bool, true, false, Option, none, some, List}

pub data ErrorCode : Type 0 where
  validation_error invalid_transition immutable_version provenance_incomplete : ErrorCode
  evidence_required evidence_stale policy_denied head_conflict fencing_token_lost : ErrorCode
  duplicate_effect receipt_immutable reconciliation_required invalid_selector : ErrorCode
  lineage_cycle : ErrorCode

pub data Fault : Type 0 where
  -- a ZodError, thrown by `parse`
  zod : Fault
  -- CanonicalizationError: its message and path
  canonicalization : String → String → Fault
  -- new ArcDBDomainError(code, message), with no `retryable` option
  domain : ErrorCode → String → Fault
  -- InvalidTransitionError(entity, from, to)
  transition : String → String → String → Fault
  -- ImmutableVersionError(versionId)
  immutable : String → Fault
  -- ProvenanceIncompleteError(versionId, missingVersionIds)
  provenance : String → List String → Fault
  -- EvidencePolicyError(code, …), with the policy's id and version and the subject of its details
  evidence_policy : ErrorCode → String → String → String → Fault
  -- HeadConflictError(logicalId, expected, actual)
  head : String → Option String → Option String → Fault
  -- FencingTokenLostError(resourceKey, presented, current)
  fence : String → ℕ → ℕ → Fault
  -- DuplicateEffectError(idempotencyKey, existingIntentId)
  duplicate : String → String → Fault
  -- ReceiptImmutableError(receiptId)
  receipt : String → Fault

-- The `code` of an ArcDBDomainError; none for the other errors.
unfoldable pub code : Fault → Option ErrorCode
code zod = none
code (canonicalization m p) = none
code (domain c m) = some c
code (transition e f t) = some ErrorCode.invalid_transition
code (immutable v) = some ErrorCode.immutable_version
code (provenance v m) = some ErrorCode.provenance_incomplete
code (evidence_policy c i v s) = some c
code (head l e a) = some ErrorCode.head_conflict
code (fence r p c) = some ErrorCode.fencing_token_lost
code (duplicate k i) = some ErrorCode.duplicate_effect
code (receipt r) = some ErrorCode.receipt_immutable

-- The `retryable` flag; the other errors carry none.
unfoldable pub retryable : Fault → Bool
retryable (head l e a) = true
retryable (fence r p c) = true
retryable _ = false
