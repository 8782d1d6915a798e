-- ===== src/Lifecycle/Examples/Machine.antt =====
-- The theorems on output-machine.ts, each at one output.
use arc_db.Base.{true, ◌≡◌, refl, ◌⊎◌, List, [], ◌∷◌, ◌++◌, some, ok, or_else}
use arc_db.Base.Sort.{sort}
use arc_db.Contracts.Digest.{
  end, evidence_fingerprint, canonical_digest, canonicalize, canonicalize_value,
}
use arc_db.Contracts.Primitives.{
  parse_identifier, parse_iso_date_time, has_unique_values, parse_digest,
}
use arc_db.Contracts.Evidence.{parse_confidence}
use arc_db.Lifecycle.Policy.{
  assess_evidence_freshness, parse_scope, freshness_tests, equal_string_sets,
}
use arc_db.Contracts.Output.{Output, OutputState}
use arc_db.Lifecycle.Policy.Evaluate.{
  Policy, Evaluation, approved, evaluate_evidence_policy, parse_policy, parse_requirement,
  judge_all, judge, judge_fresh, scope_for_requirement, assert_evidence_policy, denial_code,
  distinct_reasons,
}
use arc_db.Lifecycle.Machine.{
  ProvenanceClosure, HeadReservation, FencingToken, TransitionInput, transition_output,
  update_output_metadata, can_transition_output, assert_output_transition, check_policy,
  check_commit, check_promotion, require_evidence_policy, parse_provenance, validate_fencing_token,
  validate_head_reservation,
}
use arc_db.Lifecycle.Machine.Graph.{
  Reaches, here, next, Reaches-retired, Reaches-mutable, Takes, superseded_reachable,
}
use arc_db.Contracts.Trimmed.{map_option}
use arc_db.Lifecycle.Machine.Trace.{run, Granted, run-verified, run-committed, run-promoted}
use arc_db.Lifecycle.Examples.{sample_host, sample_output, request_to}

abbrev requests : List TransitionInput
requests =
    request_to OutputState.staged
    ∷ request_to OutputState.verified
    ∷ request_to OutputState.approved
    ∷ request_to OutputState.committed
    ∷ []

-- The output as the four requests leave it.
abbrev last_output : Output
last_output = record sample_output {
  lifecycle_state = OutputState.committed;
  updated_at = "2026-01-02";
}

all_granted : run sample_host sample_output requests ≡ ok last_output
unfolding run transition_output assert_output_transition can_transition_output parse_identifier
    parse_iso_date_time check_policy require_evidence_policy evaluate_evidence_policy parse_policy
    parse_requirement parse_confidence has_unique_values judge_all judge judge_fresh
    distinct_reasons assess_evidence_freshness parse_scope parse_digest scope_for_requirement
    evidence_fingerprint canonical_digest canonicalize canonicalize_value sort freshness_tests
    equal_string_sets assert_evidence_policy denial_code check_commit parse_provenance
    validate_fencing_token check_promotion validate_head_reservation
all_granted = refl

run-verified_example :
    (g : Granted sample_host "v1" requests OutputState.verified) × (policy : Policy)
    × (v : Evaluation) × (g.request.evidence_policy ≡ some policy)
    × (evaluate_evidence_policy sample_host policy
          (or_else g.request.evidence [])
          "v1"
          g.request.occurred_at
        ≡ ok v)
    × (v.decision ≡ approved)
run-verified_example = run-verified sample_host sample_output requests all_granted refl refl

run-committed_example :
    (g : Granted sample_host "v1" requests OutputState.committed) × (closure : ProvenanceClosure)
    × (g.request.provenance ≡ some closure)
    × (closure.complete ≡ true)
    × (closure.missing_version_ids ≡ [])
run-committed_example = run-committed sample_host sample_output requests all_granted refl refl

abbrev to_promoted : List TransitionInput
to_promoted = requests ++ request_to OutputState.consumed ∷ request_to OutputState.promoted ∷ []

abbrev promoted_output : Output
promoted_output = record last_output { lifecycle_state = OutputState.promoted }

promotion_granted : run sample_host sample_output to_promoted ≡ ok promoted_output
unfolding run transition_output assert_output_transition can_transition_output parse_identifier
    parse_iso_date_time check_policy require_evidence_policy evaluate_evidence_policy parse_policy
    parse_requirement parse_confidence has_unique_values judge_all judge judge_fresh
    distinct_reasons assess_evidence_freshness parse_scope parse_digest scope_for_requirement
    evidence_fingerprint canonical_digest canonicalize canonicalize_value sort freshness_tests
    equal_string_sets assert_evidence_policy denial_code check_commit parse_provenance
    validate_fencing_token check_promotion validate_head_reservation
promotion_granted = refl

run-promoted_example :
    (g : Granted sample_host "v1" to_promoted OutputState.promoted)
    × (reservation : HeadReservation) × (token : FencingToken) × (g.request.head_reservation
        ≡ some reservation)
    × (map_option sample_host.trim reservation.expected_head
        ≡ map_option sample_host.trim reservation.current_head)
    × (g.request.fence ≡ some token)
    × (token.presented_token ≡ token.current_token)
run-promoted_example =
    run-promoted sample_host sample_output to_promoted promotion_granted refl refl

superseded_reachable_example : Reaches OutputState.staged OutputState.superseded
superseded_reachable_example = superseded_reachable OutputState.staged

Reaches-retired_example :
    (OutputState.superseded ≡ OutputState.rejected)
    ⊎ (OutputState.superseded ≡ OutputState.superseded)
Reaches-retired_example = Reaches-retired (superseded_reachable OutputState.rejected) refl

-- COMMITTED, STALE, VERIFIED
recovery : Reaches OutputState.committed OutputState.verified
unfolding can_transition_output
recovery = next {b = OutputState.stale} refl (next {b = OutputState.verified} refl here)

Reaches-mutable_example : Takes OutputState.stale OutputState.verified recovery
Reaches-mutable_example = Reaches-mutable recovery refl refl

abbrev renewed : Output
renewed = record sample_output { updated_at = "2026-01-03" }

update_granted : update_output_metadata sample_host sample_output end "2026-01-03" ≡ ok renewed
unfolding update_output_metadata parse_iso_date_time
update_granted = refl
