-- ===== src/Lifecycle/Machine/Guards.antt =====
-- packages/lifecycle/src/output-machine.ts: what a transition that returns has checked and changed.
use arc_db.Base.{
  String, true, false, not, ◌&&◌, ◌||◌, Option, none, some, [], ◌≡◌, refl, ap, ◌∙◌, ◌⊎◌, arith, ok,
  throw_if, or_throw, ◌>>=◌, >>=-eq-ok, throw_if-eq-ok, or_throw-eq-ok, or_else, is_some, eq_iff,
}
use arc_db.Host.{Host}
use arc_db.Contracts.Primitives.{parse_identifier, parse_iso_date_time}
use arc_db.Contracts.Output.{OutputState, time_lt}
use arc_db.Lifecycle.Policy.Evaluate.{Policy, Evaluation, approved, evaluate_evidence_policy}
use arc_db.Lifecycle.Machine.{
  TransitionInput, TransitionResult, can_transition_output, assert_output_transition, check_policy,
  check_commit, check_promotion, when, is_to, transition_output, matched_of,
  require_evidence_policy, validate_head_reservation, wrong_version, parse_optional_provenance,
  is_complete, parse_provenance, ProvenanceClosure, FencingToken, HeadReservation,
}
use arc_db.Lifecycle.Machine.Checks.{
  AgreesOnHead, validate_fencing_token-eq-ok, validate_head_reservation-eq-ok,
  parse_provenance-complete, require_evidence_policy-eq-ok,
}

-- What a transition that returned has passed, in the order of the code.
pub record Passed (host : Host) (input : TransitionInput) (r : TransitionResult) : Type 0 where
  pub edge : can_transition_output input.output.lifecycle_state input.to ≡ true
  pub event_id : parse_identifier host input.event_id ≡ ok r.event.id
  pub occurred : parse_iso_date_time host input.occurred_at ≡ ok r.event.occurred_at
  pub forward :
      time_lt (host.date_parse r.event.occurred_at) (host.date_parse input.output.updated_at)
      ≡ false
  pub policy : check_policy host input ≡ ok r.policy_evaluation
  pub commit : when (is_to input OutputState.committed) (check_commit host input) ≡ ok tt
  pub promotion : when (is_to input OutputState.promoted) (check_promotion host input) ≡ ok tt
  pub output :
      r.output
      ≡ record input.output { lifecycle_state = input.to; updated_at = r.event.occurred_at }
  pub event :
      (r.event.output_version_id ≡ input.output.version_id)
      × (r.event.from ≡ input.output.lifecycle_state)
      × (r.event.to ≡ input.to)
      × (r.event.reason ≡ input.reason)
      × (r.event.evidence_ids ≡ matched_of r.policy_evaluation)

assert_output_transition-eq-ok :
    (from to : OutputState) {u : Unit}
    → assert_output_transition from to ≡ ok u
    → can_transition_output from to ≡ true
unfolding assert_output_transition
assert_output_transition-eq-ok from to h = ground arith

-- A transition returns only if its edge is in the table, its time does not go back, and the checks
-- of policy, commit and promotion return; the output differs in its state and time alone, and the
-- event reports the step.
pub transition_output-Passed :
    (host : Host) (input : TransitionInput) (r : TransitionResult)
    → transition_output host input ≡ ok r
    → Passed host input r
unfolding transition_output
transition_output-Passed host input r h =
    let (_, edge, h₁) =
      >>=-eq-ok (assert_output_transition input.output.lifecycle_state input.to) _ h in
    let (event_id, eid, h₂) = >>=-eq-ok (parse_identifier host input.event_id) _ h₁ in
    let (occurred_at, eocc, h₃) = >>=-eq-ok (parse_iso_date_time host input.occurred_at) _ h₂ in
    let (_, efw, h₄) =
      >>=-eq-ok
        (throw_if (time_lt (host.date_parse occurred_at) (host.date_parse input.output.updated_at))
          _)
        _ h₃ in
    let (evaluation, epol, h₅) = >>=-eq-ok (check_policy host input) _ h₄ in
    let (_, ecom, h₆) =
      >>=-eq-ok (when (is_to input OutputState.committed) (check_commit host input)) _ h₅ in
    let (_, epro, last) =
      >>=-eq-ok (when (is_to input OutputState.promoted) (check_promotion host input)) _ h₆ in
    let at : occurred_at ≡ r.event.occurred_at = ground arith in
    record {
      edge = assert_output_transition-eq-ok _ _ edge;
      event_id = ground arith;
      occurred = eocc ∙ ap ok at;
      forward = rw (← at) (throw_if-eq-ok _ _ efw);
      policy = ground arith;
      commit = ecom;
      promotion = epro;
      output = ground arith;
      event = ground arith;
    }

module _ (host : Host) (input : TransitionInput) (r : TransitionResult)
    (h : transition_output host input ≡ ok r) where
  -- The promoted head is the one that the caller expected, and its fencing token is current.
  pub transition_output-promoted :
      input.to ≡ OutputState.promoted
      → (reservation : HeadReservation) × (token : FencingToken) × (input.head_reservation
          ≡ some reservation)
        × AgreesOnHead host reservation
        × (input.fence ≡ some token)
        × (token.presented_token ≡ token.current_token)
  unfolding check_promotion
  transition_output-promoted to =
      let checked : check_promotion host input ≡ ok tt =
        rw to at (transition_output-Passed host input r h).promotion in
      let (reservation, hr, h₁) = >>=-eq-ok (or_throw input.head_reservation _) _ checked in
      let (_, agree, h₂) =
        >>=-eq-ok (validate_head_reservation host input.output.logical_id reservation) _ h₁ in
      let (token, ht, h₃) = >>=-eq-ok (or_throw input.fence _) _ h₂ in
      (
        reservation,
        token,
        or_throw-eq-ok _ _ hr,
        validate_head_reservation-eq-ok host _ reservation agree,
        or_throw-eq-ok _ _ ht,
        validate_fencing_token-eq-ok host token h₃,
      )

  -- A committed output has a provenance closure that is complete and misses nothing, and its
  -- fencing token is current.
  pub transition_output-committed :
      input.to ≡ OutputState.committed
      → (closure : ProvenanceClosure) × (token : FencingToken) × (input.provenance ≡ some closure)
        × (closure.complete ≡ true)
        × (closure.missing_version_ids ≡ [])
        × (input.fence ≡ some token)
        × (token.presented_token ≡ token.current_token)
  unfolding check_commit
  transition_output-committed to =
      let checked : check_commit host input ≡ ok tt =
        rw to at (transition_output-Passed host input r h).commit in
      let (closure, hp, h₁) =
        >>=-eq-ok (parse_optional_provenance host input.provenance) _ checked in
      let (_, complete, h₂) = >>=-eq-ok (throw_if (not (is_complete closure)) _) _ h₁ in
      let (token, ht, h₃) = >>=-eq-ok (or_throw input.fence _) _ h₂ in
      let (p, given, whole, nothing) = closed input.provenance closure hp (ground arith) in
      (
        p,
        token,
        given,
        whole,
        nothing,
        or_throw-eq-ok _ _ ht,
        validate_fencing_token-eq-ok host token h₃,
      )
    where
      closed :
          (o c : Option ProvenanceClosure)
          → parse_optional_provenance host o ≡ ok c
          → is_complete c ≡ true
          → (p : ProvenanceClosure) × (o ≡ some p)
            × (p.complete ≡ true)
            × (p.missing_version_ids ≡ [])
      closed none c e w = let n : none ≡ c = cc in cc (rw (← n) at w)
      closed (some p) c e w =
          let (q, hq, last) = >>=-eq-ok (parse_provenance host p) _ e in
          let n : some q ≡ c = cc in
          let (whole, nothing) = parse_provenance-complete host p q hq (rw (← n) at w) in
          (p, refl, whole, nothing)

  -- An output becomes VERIFIED only by an evaluation of the given policy, on the given evidence about
  -- this version, that approves; the event names the evidence that matched.
  pub transition_output-verified :
      input.to ≡ OutputState.verified
      → (policy : Policy) × (v : Evaluation) × (input.evidence_policy ≡ some policy)
        × (evaluate_evidence_policy host policy
              (or_else input.evidence [])
              input.output.version_id
              input.occurred_at
            ≡ ok v)
        × (v.decision ≡ approved)
        × (r.event.evidence_ids ≡ v.matched_evidence_ids)
  unfolding check_policy
  transition_output-verified to =
      let p = transition_output-Passed host input r h in
      let is_verified : is_to input OutputState.verified ≡ true = rw to in
      let checked : (require_evidence_policy host input >>= λ v. ok (some v))
          ≡ ok r.policy_evaluation =
        rw is_verified at p.policy in
      let (v, hv, last) = >>=-eq-ok (require_evidence_policy host input) _ checked in
      let (policy, given, evaluated, agreed) = require_evidence_policy-eq-ok host input hv in
      let same : r.policy_evaluation ≡ some v = cc in
      (policy, v, given, evaluated, agreed, p.event.4 ∙ ap matched_of same)

  -- An output that names a policy version is approved or promoted only by an approving evaluation
  -- of a policy of that version.
  pub transition_output-policy_version :
      (version : String)
      → (input.to ≡ OutputState.approved) ⊎ (input.to ≡ OutputState.promoted)
      → input.output.policy_version ≡ some version
      → (v : Evaluation) × (r.policy_evaluation ≡ some v)
        × (v.decision ≡ approved)
        × (v.policy_version ≡ version)
  unfolding check_policy
  transition_output-policy_version version to named =
      let p = transition_output-Passed host input r h in
      let not_verified : is_to input OutputState.verified ≡ false = ground arith in
      let asked : ((is_to input OutputState.approved || is_to input OutputState.promoted)
            && (is_some input.output.policy_version || is_some input.evidence_policy))
          ≡ true =
        ground arith in
      let checked = rw asked at (rw not_verified at p.policy) in
      let (v, hv, h₁) = >>=-eq-ok (require_evidence_policy host input) _ checked in
      let (_, same, h₂) =
        >>=-eq-ok (throw_if (wrong_version input.output.policy_version v.policy_version) _) _ h₁ in
      let (_, _, _, agreed) = require_evidence_policy-eq-ok host input hv in
      (
        v,
        cc,
        agreed,
        right input.output.policy_version v.policy_version named (throw_if-eq-ok _ _ same),
      )
    where
      right :
          (o : Option String) (actual : String)
          → o ≡ some version
          → wrong_version o actual ≡ false
          → actual ≡ version
      right o actual e w = ground (arith, eq_iff actual version)
