-- ===== src/Lifecycle/Policy.antt =====
-- packages/lifecycle/src/evidence-policy.ts: when evidence is fresh, and whether the evidence about
-- an output meets a policy.
pub mod Evaluate
use arc_db.Base.{
  ℕ, suc, ◌+◌, ◌*◌, String, Bool, true, false, not, ◌&&◌, ◌||◌, Option, none, some, List, [], ◌∷◌,
  eqb, leb, ltb, length, Result, ok, err, throw_if, ◌>>=◌, ◌>>◌, if◌then◌else◌, ◌==◌, eq_option,
}
use arc_db.Base.Sort.{sort}
use arc_db.Host.{Host}
use arc_db.Contracts.Errors.{Fault, zod}
use arc_db.Contracts.Primitives.{
  parse_identifier, parse_digest, parse_iso_date_time, parse_option, parse_list,
}
use arc_db.Contracts.Evidence.{Evidence, Verdict, same_verdict, fingerprint_input, time_le}
use arc_db.Contracts.Output.{time_lt}
use arc_db.Contracts.Digest.{evidence_fingerprint}

pub data Reason : Type 0 where
  explicitly_stale fingerprint_mismatch subject_version_changed : Reason
  verifier_version_changed environment_changed dependencies_changed : Reason
  policy_changed expired max_age_exceeded created_in_future : Reason

abbrev pub reason_index : Reason → ℕ
reason_index explicitly_stale = 0
reason_index fingerprint_mismatch = 1
reason_index subject_version_changed = 2
reason_index verifier_version_changed = 3
reason_index environment_changed = 4
reason_index dependencies_changed = 5
reason_index policy_changed = 6
reason_index expired = 7
reason_index max_age_exceeded = 8
reason_index created_in_future = 9

-- A field that is optional and nullable is an `Option (Option String)`: none where it is left out.
pub record Scope : Type 0 where
  pub subject_version_id : String
  pub verifier_version : Option String
  pub environment_digest : Option (Option String)
  pub dependency_digests : Option (List String)
  pub policy_version : Option (Option String)
  pub max_age_seconds : Option ℕ
  pub now : String

pub data Freshness : Type 0 where
  fresh stale : Freshness

pub record Assessment : Type 0 where
  pub status : Freshness
  pub reasons : List Reason

-- `z.number().int().positive().optional()`
abbrev pub parse_positive : Option ℕ → Result Fault (Option ℕ)
parse_positive none = ok none
parse_positive (some n) = if ltb 0 n then ok (some n) else err zod

abbrev pub parse_nullable :
    (String → Result Fault String) → Option (Option String) → Result Fault (Option (Option String))
parse_nullable parse none = ok none
parse_nullable parse (some s) = do t ← parse_option parse s; ok (some t)

abbrev pub parse_optional_list :
    (String → Result Fault String) → Option (List String) → Result Fault (Option (List String))
parse_optional_list parse none = ok none
parse_optional_list parse (some ss) = do ts ← parse_list parse ss; ok (some ts)

-- `xs.every((value, index) => value === ys[index])`
abbrev pub agree : List String → List String → Bool
agree [] ys = true
agree (x ∷ xs) [] = false
agree (x ∷ xs) (y ∷ ys) = x == y && agree xs ys

-- The reasons whose test holds, in the order of the tests.
abbrev pub collect : List (Bool × Reason) → List Reason
collect [] = []
collect ((b, r) ∷ tests) = let rest = collect tests in if b then r ∷ rest else rest

-- `scope.x !== undefined && actual !== scope.x`
abbrev pub differs {ℓ} : {A : Type ℓ} → (A → A → Bool) → A → Option A → Bool
differs same actual none = false
differs same actual (some wanted) = not (same actual wanted)

-- `now - createdAt > seconds * 1_000`; false at NaN
abbrev pub older_than : Option ℕ → Option ℕ → Option ℕ → Bool
older_than (some now) (some created) (some seconds) = ltb (created + seconds * 1000) now
older_than _ _ _ = false

abbrev pub assessment : List Reason → Assessment
assessment [] = record { status = fresh; reasons = [] }
assessment (r ∷ rs) = record { status = stale; reasons = r ∷ rs }

module _ (host : Host) where
  open host use {string_leb, date_parse}

  -- `EvidenceFreshnessScopeSchema.parse`
  unfoldable pub parse_scope : Scope → Result Fault Scope
  parse_scope s = do
    subject_version_id ← parse_identifier host s.subject_version_id
    verifier_version ← parse_option (parse_identifier host) s.verifier_version
    environment_digest ← parse_nullable (parse_digest host) s.environment_digest
    dependency_digests ← parse_optional_list (parse_digest host) s.dependency_digests
    policy_version ← parse_nullable (parse_identifier host) s.policy_version
    max_age_seconds ← parse_positive s.max_age_seconds
    now ← parse_iso_date_time host s.now
    ok (record {
      subject_version_id = subject_version_id;
      verifier_version = verifier_version;
      environment_digest = environment_digest;
      dependency_digests = dependency_digests;
      policy_version = policy_version;
      max_age_seconds = max_age_seconds;
      now = now;
    })

  unfoldable pub equal_string_sets : List String → List String → Bool
  equal_string_sets left right =
      let l = sort string_leb left in
      let r = sort string_leb right in eqb (length l) (length r) && agree l r

  -- Whether the expiry has come.
  abbrev pub is_expired : Option String → Option ℕ → Bool
  is_expired none now = false
  is_expired (some expires) now = time_le (date_parse expires) now

  -- The tests of `assessEvidenceFreshness`, once the scope is parsed and the fingerprint computed.
  unfoldable pub freshness_tests : Evidence → Scope → String → List (Bool × Reason)
  unfolding equal_string_sets
  freshness_tests e s actual =
      let now = date_parse s.now in
      let created = date_parse e.created_at in
      (same_verdict e.verdict Verdict.stale, explicitly_stale)
      ∷ (not (e.fingerprint == actual), fingerprint_mismatch)
      ∷ (not (e.subject_version_id == s.subject_version_id), subject_version_changed)
      ∷ (differs ◌==◌ e.verifier_version s.verifier_version, verifier_version_changed)
      ∷ (differs (eq_option ◌==◌) e.environment_digest s.environment_digest, environment_changed)
      ∷ (differs equal_string_sets e.dependency_digests s.dependency_digests, dependencies_changed)
      ∷ (differs (eq_option ◌==◌) e.policy_version s.policy_version, policy_changed)
      ∷ (time_lt now created, created_in_future)
      ∷ (is_expired e.expires_at now, expired)
      ∷ (older_than now created s.max_age_seconds, max_age_exceeded)
      ∷ []

  unfoldable pub assess_evidence_freshness : Evidence → Scope → Result Fault Assessment
  unfolding freshness_tests
  assess_evidence_freshness e unparsed = do
    scope ← parse_scope unparsed
    actual ← evidence_fingerprint host (fingerprint_input e)
    ok (assessment (collect (freshness_tests e scope actual)))
