-- ===== src/Contracts/Evidence.antt =====
-- packages/contracts/src/evidence.ts: a piece of evidence about an output version.
use arc_db.Base.{
  ℕ, ◌^◌, String, Bool, false, not, Option, none, some, List, eqb, leb, Result, ok, err, throw_if,
  ◌>>=◌, ◌>>◌, if◌then◌else◌,
}
use arc_db.Host.{Host}
use arc_db.Contracts.Errors.{Fault, zod}
use arc_db.Contracts.Digest.{Fields, FingerprintInput}
use arc_db.Contracts.Primitives.{
  has_unique_values, parse_identifier, parse_digest, parse_iso_date_time, parse_option, parse_list,
}

pub data Verdict : Type 0 where
  pass fail stale unknown : Verdict

abbrev pub verdict_index : Verdict → ℕ
verdict_index Verdict.pass = 0
verdict_index Verdict.fail = 1
verdict_index Verdict.stale = 2
verdict_index Verdict.unknown = 3

abbrev pub same_verdict : Verdict → Verdict → Bool
same_verdict a b = eqb (verdict_index a) (verdict_index b)

-- A finite double in [0, 1] is a whole multiple of 2^-1074: confidences are counted in that unit.
pub full_confidence : ℕ
full_confidence = 2 ^ 1074

pub record Evidence : Type 0 where
  pub id : String
  pub tenant_id : String
  pub subject_version_id : String
  pub verifier_type : String
  pub verifier_version : String
  pub environment_digest : Option String
  pub dependency_digests : List String
  pub policy_version : Option String
  pub verdict : Verdict
  pub confidence : Option ℕ
  pub metrics : Fields
  pub payload_ref : Option String
  pub fingerprint : String
  pub expires_at : Option String
  pub created_at : String

-- The fields that `evidenceFingerprint(evidence)` reads.
abbrev pub fingerprint_input : Evidence → FingerprintInput
fingerprint_input e = record {
  subject_version_id = e.subject_version_id;
  verifier_type = e.verifier_type;
  verifier_version = e.verifier_version;
  environment_digest = e.environment_digest;
  dependency_digests = e.dependency_digests;
  policy_version = e.policy_version;
}

-- `a <= b` of two values of `Date.parse`; a comparison with NaN is false.
abbrev pub time_le : Option ℕ → Option ℕ → Bool
time_le (some a) (some b) = leb a b
time_le _ _ = false

-- `z.number().min(0).max(1).optional()`
unfoldable pub parse_confidence : Option ℕ → Result Fault (Option ℕ)
parse_confidence none = ok none
parse_confidence (some c) = if leb c full_confidence then ok (some c) else err zod

module _ (host : Host) where
  open host use {date_parse}

  -- The expiry is no later than the creation.
  abbrev pub expires_early : Option String → String → Bool
  expires_early none created = false
  expires_early (some expires) created = time_le (date_parse expires) (date_parse created)

  -- `EvidenceObjectSchema.parse`
  unfoldable pub parse_evidence : Evidence → Result Fault Evidence
  unfolding parse_confidence
  parse_evidence e = do
    id ← parse_identifier host e.id
    tenant_id ← parse_identifier host e.tenant_id
    subject_version_id ← parse_identifier host e.subject_version_id
    verifier_type ← parse_identifier host e.verifier_type
    verifier_version ← parse_identifier host e.verifier_version
    environment_digest ← parse_option (parse_digest host) e.environment_digest
    dependency_digests ← parse_list (parse_digest host) e.dependency_digests
    policy_version ← parse_option (parse_identifier host) e.policy_version
    confidence ← parse_confidence e.confidence
    payload_ref ← parse_option (parse_identifier host) e.payload_ref
    fingerprint ← parse_digest host e.fingerprint
    expires_at ← parse_option (parse_iso_date_time host) e.expires_at
    created_at ← parse_iso_date_time host e.created_at
    throw_if (not (has_unique_values dependency_digests)) zod
    throw_if (expires_early expires_at created_at) zod
    ok (record e {
      id = id;
      tenant_id = tenant_id;
      subject_version_id = subject_version_id;
      verifier_type = verifier_type;
      verifier_version = verifier_version;
      environment_digest = environment_digest;
      dependency_digests = dependency_digests;
      policy_version = policy_version;
      confidence = confidence;
      payload_ref = payload_ref;
      fingerprint = fingerprint;
      expires_at = expires_at;
      created_at = created_at;
    })
