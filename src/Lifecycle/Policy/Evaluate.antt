-- ===== src/Lifecycle/Policy/Evaluate.antt =====
-- packages/lifecycle/src/evidence-policy.ts: `evaluateEvidencePolicy` and `assertEvidencePolicy`.
pub mod Support
pub mod Laws
use arc_db.Base.{
  ℕ, suc, String, Bool, true, false, not, ◌&&◌, ◌||◌, Option, none, some, List, [], ◌∷◌, ◌++◌, map,
  eqb, leb, ltb, length, any, find, keep, includes, Result, ok, err, throw_if, ◌>>=◌, ◌>>◌, or_else,
  if◌then◌else◌, ◌==◌, is_some,
}
use arc_db.Host.{Host}
use arc_db.Contracts.Errors.{Fault, zod, evidence_policy, ErrorCode}
use arc_db.Contracts.Primitives.{
  parse_identifier, parse_digest, parse_iso_date_time, parse_option, has_unique_values,
}
use arc_db.Contracts.Evidence.{Evidence, Verdict, same_verdict, parse_confidence}
use arc_db.Lifecycle.Policy.{
  Scope, Reason, reason_index, Assessment, Freshness, parse_positive, parse_nullable,
  parse_optional_list, assess_evidence_freshness,
}

pub record Requirement : Type 0 where
  pub id : String
  pub verifier_type : String
  pub verifier_version : Option String
  pub environment_digest : Option (Option String)
  pub dependency_digests : Option (List String)
  pub policy_version : Option (Option String)
  pub max_age_seconds : Option ℕ
  pub minimum_confidence : Option ℕ

pub record Policy : Type 0 where
  pub id : String
  pub version : String
  pub required_evidence : List Requirement

pub data FailureKind : Type 0 where
  missing stale failed unknown low_confidence : FailureKind

pub record Failure : Type 0 where
  pub requirement_id : String
  pub kind : FailureKind
  pub evidence_ids : List String
  pub freshness_reasons : List Reason

pub data Decision : Type 0 where
  approved denied : Decision

pub record Evaluation : Type 0 where
  pub decision : Decision
  pub policy_id : String
  pub policy_version : String
  pub subject_version_id : String
  pub evaluated_at : String
  pub matched_evidence_ids : List String
  pub failures : List Failure

-- What one round of the loop adds: a matched evidence id, or a failure.
pub data Judgement : Type 0 where
  matched : String → Judgement
  unmet : Failure → Judgement

abbrev pub Assessed : Type 0
Assessed = Evidence × Assessment

abbrev pub is_fresh : Assessed → Bool
is_fresh (e, a) = elim a.status [ Freshness.fresh ↦ true | Freshness.stale ↦ false ]

-- `requirement.minimumConfidence === undefined || (candidate.confidence ?? 0) >= minimum`
abbrev pub confident : Option ℕ → Option ℕ → Bool
confident none actual = true
confident (some least) actual = leb least (or_else actual 0)

abbrev pub is_passing : Requirement → Assessed → Bool
is_passing req (e, a) =
    same_verdict e.verdict Verdict.pass && confident req.minimum_confidence e.confidence

abbrev pub lacks_confidence : Requirement → Assessed → Bool
lacks_confidence req (e, a) =
    same_verdict e.verdict Verdict.pass && not (confident req.minimum_confidence e.confidence)

abbrev pub is_failing : Assessed → Bool
is_failing (e, a) = same_verdict e.verdict Verdict.fail

-- `[...new Set(reasons)]`, given the reasons that already stand.
unfoldable pub distinct_reasons : List Reason → List Reason → List Reason
distinct_reasons seen [] = []
distinct_reasons seen (r ∷ rs) =
    let old = distinct_reasons seen rs in
    let new = r ∷ distinct_reasons (r ∷ seen) rs in
    if includes (λ a b. eqb (reason_index a) (reason_index b)) seen r then old else new

abbrev pub all_reasons : List Assessed → List Reason
all_reasons [] = []
all_reasons ((e, a) ∷ rest) = a.reasons ++ all_reasons rest

abbrev pub evidence_ids : List Assessed → List String
evidence_ids = map (λ c. c.0.id)

abbrev pub failure_kind : Requirement → List Assessed → FailureKind
failure_kind req candidates =
    if any (lacks_confidence req) candidates
    then low_confidence
    else if any is_failing candidates
    then failed
    else unknown

-- The branches of the loop's body behind the assessments, on those of them that are fresh.
unfoldable pub judge_fresh : Requirement → List Assessed → List Assessed → Judgement
unfolding distinct_reasons
judge_fresh req assessed fresh = elim (find (is_passing req) fresh) [
  | some (e, a) ↦ matched e.id
  | none ↦ unmet (elim fresh [
    | [] ↦ record {
      requirement_id = req.id;
      kind = stale;
      evidence_ids = evidence_ids assessed;
      freshness_reasons = distinct_reasons [] (all_reasons assessed);
    }
    | c ∷ cs ↦ record {
      requirement_id = req.id;
      kind = failure_kind req (c ∷ cs);
      evidence_ids = evidence_ids (c ∷ cs);
      freshness_reasons = [];
    }
  ])
]

abbrev pub judge_assessed : Requirement → List Assessed → Judgement
judge_assessed req [] =
    unmet (record {
      requirement_id = req.id;
      kind = missing;
      evidence_ids = [];
      freshness_reasons = [];
    })
judge_assessed req (c ∷ cs) = judge_fresh req (c ∷ cs) (keep is_fresh (c ∷ cs))

abbrev pub matched_ids : List Judgement → List String
matched_ids [] = []
matched_ids (matched id ∷ js) = id ∷ matched_ids js
matched_ids (unmet f ∷ js) = matched_ids js

abbrev pub failures_of : List Judgement → List Failure
failures_of [] = []
failures_of (matched id ∷ js) = failures_of js
failures_of (unmet f ∷ js) = f ∷ failures_of js

abbrev pub decide_on : List Failure → Decision
decide_on [] = approved
decide_on (f ∷ fs) = denied

unfoldable pub scope_for_requirement : Requirement → String → Policy → String → Scope
scope_for_requirement req subject policy now = record {
  subject_version_id = subject;
  verifier_version = req.verifier_version;
  environment_digest = req.environment_digest;
  dependency_digests = req.dependency_digests;
  policy_version = some (or_else req.policy_version (some policy.version));
  max_age_seconds = req.max_age_seconds;
  now = now;
}

abbrev pub is_candidate : String → Requirement → Evidence → Bool
is_candidate subject req e = e.subject_version_id == subject && e.verifier_type == req.verifier_type

module _ (host : Host) where
  -- `EvidenceRequirementSchema.parse`
  unfoldable pub parse_requirement : Requirement → Result Fault Requirement
  parse_requirement r = do
    id ← parse_identifier host r.id
    verifier_type ← parse_identifier host r.verifier_type
    verifier_version ← parse_option (parse_identifier host) r.verifier_version
    environment_digest ← parse_nullable (parse_digest host) r.environment_digest
    dependency_digests ← parse_optional_list (parse_digest host) r.dependency_digests
    policy_version ← parse_nullable (parse_identifier host) r.policy_version
    max_age_seconds ← parse_positive r.max_age_seconds
    minimum_confidence ← parse_confidence r.minimum_confidence
    ok (record {
      id = id;
      verifier_type = verifier_type;
      verifier_version = verifier_version;
      environment_digest = environment_digest;
      dependency_digests = dependency_digests;
      policy_version = policy_version;
      max_age_seconds = max_age_seconds;
      minimum_confidence = minimum_confidence;
    })

  abbrev pub parse_requirements : List Requirement → Result Fault (List Requirement)
  parse_requirements [] = ok []
  parse_requirements (r ∷ rs) = do
    r' ← parse_requirement r
    rs' ← parse_requirements rs
    ok (r' ∷ rs')

  -- `EvidencePolicySchema.parse`
  unfoldable pub parse_policy : Policy → Result Fault Policy
  unfolding parse_requirement
  parse_policy p = do
    id ← parse_identifier host p.id
    version ← parse_identifier host p.version
    required ← parse_requirements p.required_evidence
    throw_if (eqb (length required) 0) zod
    throw_if (not (has_unique_values (map (λ r. r.id) required))) zod
    ok (record { id = id; version = version; required_evidence = required })

  module _ (policy : Policy) (subject now : String) where
    -- `candidates.map(...)`, which throws where an assessment does
    abbrev pub assess_all : Requirement → List Evidence → Result Fault (List Assessed)
    assess_all req [] = ok []
    assess_all req (e ∷ es) = do
      a ← assess_evidence_freshness host e (scope_for_requirement req subject policy now)
      rest ← assess_all req es
      ok ((e, a) ∷ rest)

    -- One round of the loop over the requirements.
    unfoldable pub judge : List Evidence → Requirement → Result Fault Judgement
    unfolding judge_fresh
    judge evidence req = do
      assessed ← assess_all req (keep (is_candidate subject req) evidence)
      ok (judge_assessed req assessed)

    unfoldable pub judge_all : List Evidence → List Requirement → Result Fault (List Judgement)
    judge_all evidence [] = ok []
    judge_all evidence (req ∷ reqs) = do
      j ← judge evidence req
      js ← judge_all evidence reqs
      ok (j ∷ js)

  unfoldable pub evaluate_evidence_policy :
      Policy → List Evidence → String → String → Result Fault Evaluation
  evaluate_evidence_policy unparsed evidence subject_id now_text = do
    policy ← parse_policy unparsed
    subject ← parse_identifier host subject_id
    now ← parse_iso_date_time host now_text
    js ← judge_all policy subject now evidence policy.required_evidence
    ok (record {
      decision = decide_on (failures_of js);
      policy_id = policy.id;
      policy_version = policy.version;
      subject_version_id = subject;
      evaluated_at = now;
      matched_evidence_ids = matched_ids js;
      failures = failures_of js;
    })

abbrev pub is_missing : Failure → Bool
is_missing f = elim f.kind [ missing ↦ true | _ ↦ false ]

abbrev pub is_stale : Failure → Bool
is_stale f = elim f.kind [ stale ↦ true | _ ↦ false ]

-- The code of the error, `failureKinds.has("MISSING") ? … : …`.
unfoldable pub denial_code : List Failure → ErrorCode
denial_code failures =
    if any is_missing failures
    then ErrorCode.evidence_required
    else if any is_stale failures
    then ErrorCode.evidence_stale
    else ErrorCode.policy_denied

unfoldable pub assert_evidence_policy : Evaluation → Result Fault (Unit {0})
unfolding denial_code
assert_evidence_policy evaluation = elim evaluation.decision [
  | approved ↦ ok tt
  | denied ↦ err (
      evidence_policy (denial_code evaluation.failures) evaluation.policy_id
        evaluation.policy_version evaluation.subject_version_id)
]
