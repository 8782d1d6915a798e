-- ===== src/Lifecycle/Examples/Policies.antt =====
-- The theorems on evidence-policy.ts, each at one policy and one piece of evidence.
use mathlib.Core.List.{Memᴰ}
use arc_db.Base.{◌≡◌, refl, ◌↔◌, [], ◌∷◌, All, ok}
use arc_db.Base.Sort.{sort}
use arc_db.Contracts.Digest.{
  evidence_fingerprint, canonical_digest, canonicalize, canonicalize_value,
}
use arc_db.Contracts.Primitives.{
  parse_identifier, parse_iso_date_time, has_unique_values, parse_digest,
}
use arc_db.Contracts.Evidence.{parse_confidence}
use arc_db.Lifecycle.Policy.{
  assess_evidence_freshness, parse_scope, freshness_tests, equal_string_sets,
}
use arc_db.Lifecycle.Policy.Evaluate.{
  Requirement, Evaluation, approved, evaluate_evidence_policy, parse_policy, parse_requirement,
  judge_all, judge, judge_fresh, scope_for_requirement, distinct_reasons,
}
use arc_db.Lifecycle.Policy.Evaluate.Support.{IsSupported}
use arc_db.Lifecycle.Policy.Evaluate.Laws.{
  evaluate_evidence_policy-approved, evaluate_evidence_policy-matched,
}
use arc_db.Lifecycle.Examples.{sample_host, sample_policy, sample_requirement, sample_evidence}

abbrev approval : Evaluation
approval = record {
  decision = approved;
  policy_id = "g1";
  policy_version = "7";
  subject_version_id = "v1";
  evaluated_at = "2026-01-02";
  matched_evidence_ids = "e1" ∷ [];
  failures = [];
}

evaluated :
    evaluate_evidence_policy sample_host sample_policy (sample_evidence ∷ []) "v1" "2026-01-02"
    ≡ ok approval
unfolding evaluate_evidence_policy parse_policy parse_requirement parse_confidence has_unique_values
    judge_all judge judge_fresh distinct_reasons assess_evidence_freshness parse_scope parse_digest
    parse_identifier parse_iso_date_time scope_for_requirement evidence_fingerprint canonical_digest
    canonicalize canonicalize_value sort freshness_tests equal_string_sets
evaluated = refl

parsed : parse_policy sample_host sample_policy ≡ ok sample_policy
unfolding parse_policy parse_requirement parse_identifier parse_digest parse_confidence
    has_unique_values
parsed = refl

subject_parsed : parse_identifier sample_host "v1" ≡ ok "v1"
unfolding parse_identifier
subject_parsed = refl

time_parsed : parse_iso_date_time sample_host "2026-01-02" ≡ ok "2026-01-02"
unfolding parse_iso_date_time
time_parsed = refl

evaluate_evidence_policy-approved_example :
    (approved ≡ approved)
    ↔ All
        (IsSupported sample_host sample_policy "v1" "2026-01-02" (sample_evidence ∷ []))
        (sample_requirement ∷ [])
evaluate_evidence_policy-approved_example =
    evaluate_evidence_policy-approved sample_host sample_policy sample_policy (sample_evidence ∷ [])
      "v1" "2026-01-02" "v1" "2026-01-02" evaluated parsed subject_parsed time_parsed

evaluate_evidence_policy-matched_example :
    (req : Requirement) × Memᴰ req (sample_requirement ∷ [])
    × (s : IsSupported sample_host sample_policy "v1" "2026-01-02" (sample_evidence ∷ []) req)
    × (s.witness.id ≡ "e1")
evaluate_evidence_policy-matched_example =
    evaluate_evidence_policy-matched sample_host sample_policy sample_policy (sample_evidence ∷ [])
      "v1" "2026-01-02" "v1" "2026-01-02" evaluated parsed subject_parsed time_parsed
      (Memᴰ.head refl)
