-- ===== src/Lifecycle/Machine.antt =====
-- packages/lifecycle/src/output-machine.ts: the state machine of an output version.
pub mod Graph
pub mod Checks
pub mod Guards
pub mod Trace
pub mod Metadata
use arc_db.Base.{
  ℕ, String, Bool, true, false, not, ◌&&◌, ◌||◌, Option, none, some, List, [], ◌∷◌, eqb, length,
  includes, Result, ok, err, throw_if, or_throw, ◌>>=◌, ◌>>◌, or_else, if◌then◌else◌, ◌==◌,
  eq_option, is_some,
}
use arc_db.Host.{Host}
use arc_db.Contracts.Errors.{
  Fault, zod, domain, immutable, provenance, head, fence, transition, ErrorCode,
}
use arc_db.Contracts.Primitives.{
  concat, parse_identifier, parse_iso_date_time, parse_option, parse_list,
}
use arc_db.Contracts.Output.{Output, OutputState, same_state, state_name, time_lt}
use arc_db.Contracts.Evidence.{Evidence}
use arc_db.Contracts.Digest.{Fields}
use arc_db.Lifecycle.Policy.Evaluate.{
  Policy, Evaluation, evaluate_evidence_policy, assert_evidence_policy,
}

-- `OUTPUT_TRANSITIONS`
abbrev pub output_transitions : OutputState → List OutputState
output_transitions OutputState.created =
    OutputState.staged ∷ OutputState.rejected ∷ OutputState.stale ∷ OutputState.invalidated ∷ []
output_transitions OutputState.staged =
    OutputState.verified ∷ OutputState.rejected ∷ OutputState.stale ∷ OutputState.invalidated ∷ []
output_transitions OutputState.verified =
    OutputState.approved ∷ OutputState.rejected ∷ OutputState.stale ∷ OutputState.invalidated ∷ []
output_transitions OutputState.approved =
    OutputState.committed ∷ OutputState.rejected ∷ OutputState.stale ∷ OutputState.invalidated ∷ []
output_transitions OutputState.committed =
    OutputState.consumed ∷ OutputState.promoted ∷ OutputState.stale ∷ OutputState.invalidated
    ∷ OutputState.superseded ∷ []
output_transitions OutputState.consumed =
    OutputState.promoted ∷ OutputState.stale ∷ OutputState.invalidated ∷ OutputState.superseded ∷ []
output_transitions OutputState.promoted =
    OutputState.stale ∷ OutputState.invalidated ∷ OutputState.superseded ∷ []
output_transitions OutputState.rejected = OutputState.superseded ∷ []
output_transitions OutputState.stale =
    OutputState.verified ∷ OutputState.invalidated ∷ OutputState.superseded ∷ []
output_transitions OutputState.invalidated = OutputState.superseded ∷ []
output_transitions OutputState.superseded = []

pub record ProvenanceClosure : Type 0 where
  pub complete : Bool
  pub missing_version_ids : List String

pub record FencingToken : Type 0 where
  pub resource_key : String
  pub presented_token : ℕ
  pub current_token : ℕ

pub record HeadReservation : Type 0 where
  pub expected_head : Option String
  pub current_head : Option String

pub record LifecycleEvent : Type 0 where
  pub id : String
  pub output_version_id : String
  pub from : OutputState
  pub to : OutputState
  pub reason : Option String
  pub evidence_ids : List String
  pub occurred_at : String

unfoldable pub can_transition_output : OutputState → OutputState → Bool
can_transition_output from to = includes same_state (output_transitions from) to

unfoldable pub assert_output_transition : OutputState → OutputState → Result Fault (Unit {0})
unfolding can_transition_output
assert_output_transition from to =
    throw_if (not (can_transition_output from to))
      (transition "output" (state_name from) (state_name to))

-- `CONSERVATIVELY_IMMUTABLE_STATES.has(state)`
abbrev pub is_immutable : OutputState → Bool
is_immutable OutputState.committed = true
is_immutable OutputState.consumed = true
is_immutable OutputState.promoted = true
is_immutable OutputState.stale = true
is_immutable OutputState.invalidated = true
is_immutable OutputState.superseded = true
is_immutable _ = false

pub record TransitionInput : Type 0 where
  pub event_id : String
  pub output : Output
  pub to : OutputState
  pub occurred_at : String
  pub reason : Option String
  pub evidence : Option (List Evidence)
  pub evidence_policy : Option Policy
  pub provenance : Option ProvenanceClosure
  pub head_reservation : Option HeadReservation
  pub fence : Option FencingToken

pub record TransitionResult : Type 0 where
  pub output : Output
  pub event : LifecycleEvent
  pub policy_evaluation : Option Evaluation

abbrev pub is_to : TransitionInput → OutputState → Bool
is_to input s = same_state input.to s

-- `provenance?.missingVersionIds ?? parentVersionIds`
abbrev pub missing_versions : Option ProvenanceClosure → List String → List String
missing_versions none parents = parents
missing_versions (some p) parents = p.missing_version_ids

abbrev pub is_complete : Option ProvenanceClosure → Bool
is_complete none = false
is_complete (some p) = p.complete

-- `expected !== undefined && actual !== expected`
abbrev pub wrong_version : Option String → String → Bool
wrong_version none actual = false
wrong_version (some expected) actual = not (actual == expected)

abbrev pub when : Bool → Result Fault (Unit {0}) → Result Fault (Unit {0})
when b m = if b then m else ok tt

abbrev pub matched_of : Option Evaluation → List String
matched_of none = []
matched_of (some v) = v.matched_evidence_ids

module _ (host : Host) where
  open host use {date_parse}

  -- `HeadReservationSchema.parse` and the comparison
  unfoldable pub validate_head_reservation : String → HeadReservation → Result Fault (Unit {0})
  validate_head_reservation logical_id unparsed = do
    expected ← parse_option (parse_identifier host) unparsed.expected_head
    current ← parse_option (parse_identifier host) unparsed.current_head
    throw_if (not (eq_option ◌==◌ expected current)) (head logical_id expected current)

  -- `FencingTokenSchema.parse` and the comparison
  unfoldable pub validate_fencing_token : FencingToken → Result Fault (Unit {0})
  validate_fencing_token unparsed = do
    key ← parse_identifier host unparsed.resource_key
    throw_if (not (eqb unparsed.presented_token unparsed.current_token))
        (fence key unparsed.presented_token unparsed.current_token)

  -- `ProvenanceClosureSchema.parse`
  unfoldable pub parse_provenance : ProvenanceClosure → Result Fault ProvenanceClosure
  parse_provenance p = do
    ids ← parse_list (parse_identifier host) p.missing_version_ids
    throw_if (p.complete && not (eqb (length ids) 0)) zod
    ok (record { complete = p.complete; missing_version_ids = ids })

  abbrev pub parse_optional_provenance :
      Option ProvenanceClosure → Result Fault (Option ProvenanceClosure)
  parse_optional_provenance none = ok none
  parse_optional_provenance (some p) = do q ← parse_provenance p; ok (some q)

  unfoldable pub update_output_metadata : Output → Fields → String → Result Fault Output
  update_output_metadata output metadata updated_at = do
    throw_if (is_immutable output.lifecycle_state) (immutable output.version_id)
    updated ← parse_iso_date_time host updated_at
    throw_if (time_lt (date_parse updated) (date_parse output.updated_at))
        (domain ErrorCode.validation_error "updatedAt cannot move backwards")
    ok (record output { metadata = metadata; updated_at = updated })

  unfoldable pub require_evidence_policy : TransitionInput → Result Fault Evaluation
  require_evidence_policy input = do
    policy ← or_throw input.evidence_policy (
        domain ErrorCode.validation_error (
          concat (
            "Transition to " ∷ state_name input.to ∷ " requires an explicit Evidence policy" ∷ [])))
    evaluation ←
        evaluate_evidence_policy host policy (or_else input.evidence []) input.output.version_id
          input.occurred_at
    assert_evidence_policy evaluation
    ok evaluation

  -- The evaluation for VERIFIED, and for APPROVED and PROMOTED if the output or the caller names a
  -- policy.
  unfoldable pub check_policy : TransitionInput → Result Fault (Option Evaluation)
  check_policy input =
      if is_to input OutputState.verified
      then (do v ← require_evidence_policy input; ok (some v))
      else if (is_to input OutputState.approved || is_to input OutputState.promoted)
          && (is_some input.output.policy_version || is_some input.evidence_policy)
      then (do
        v ← require_evidence_policy input
        throw_if (wrong_version input.output.policy_version v.policy_version)
            (domain ErrorCode.policy_denied "Output policy version does not match")
        ok (some v))
      else ok none

  -- What COMMITTED asks for.
  unfoldable pub check_commit : TransitionInput → Result Fault (Unit {0})
  unfolding parse_provenance validate_fencing_token
  check_commit input = do
    closure ← parse_optional_provenance input.provenance
    throw_if (not (is_complete closure)) (
        provenance input.output.version_id
          (missing_versions closure input.output.parent_version_ids))
    token ←
        or_throw input.fence (domain ErrorCode.validation_error "Commit requires a fencing token")
    validate_fencing_token token

  -- What PROMOTED asks for.
  unfoldable pub check_promotion : TransitionInput → Result Fault (Unit {0})
  unfolding validate_head_reservation validate_fencing_token
  check_promotion input = do
    reservation ←
        or_throw input.head_reservation
          (domain ErrorCode.validation_error "Promotion requires a head reservation")
    validate_head_reservation input.output.logical_id reservation
    token ←
        or_throw input.fence
          (domain ErrorCode.validation_error "Promotion requires a fencing token")
    validate_fencing_token token

  unfoldable pub transition_output : TransitionInput → Result Fault TransitionResult
  transition_output input = do
    assert_output_transition input.output.lifecycle_state input.to
    event_id ← parse_identifier host input.event_id
    occurred_at ← parse_iso_date_time host input.occurred_at
    throw_if (time_lt (date_parse occurred_at) (date_parse input.output.updated_at))
        (domain ErrorCode.validation_error "Lifecycle time cannot move backwards")
    evaluation ← check_policy input
    when (is_to input OutputState.committed) (check_commit input)
    when (is_to input OutputState.promoted) (check_promotion input)
    ok (record {
      output = record input.output { lifecycle_state = input.to; updated_at = occurred_at };
      event = record {
        id = event_id;
        output_version_id = input.output.version_id;
        from = input.output.lifecycle_state;
        to = input.to;
        reason = input.reason;
        evidence_ids = matched_of evaluation;
        occurred_at = occurred_at;
      };
      policy_evaluation = evaluation;
    })
