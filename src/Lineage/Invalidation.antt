-- ===== src/Lineage/Invalidation.antt =====
-- packages/lineage/src/invalidation.ts: the plan of an invalidation and its parts. The parent has the
-- records, the schemas and the decision on each item; Plan puts a plan together, Apply applies it.
pub mod Plan
pub mod Apply
pub mod Laws
use Prim.Native.String
use arc_db.Base.{
  ℕ, suc, zero, leb, String, Bool, true, false, not, ◌||◌, Option, none, some, List, [], ◌∷◌, ◌==◌,
  if◌then◌else◌, includes, map, Result, ok, err, throw_if, ◌>>=◌, ◌>>◌,
}
use arc_db.Host.{Host}
use arc_db.Contracts.Errors.{Fault, zod}
use arc_db.Contracts.Digest.{
  Value, Items, nil, cons, Fields, field, end, str, arr, obj, canonical_digest,
}
use arc_db.Contracts.Primitives.{concat, parse_identifier, parse_iso_date_time, parse_list}
use arc_db.Contracts.Output.{OutputState, same_state}
use arc_db.Contracts.Evidence.{Verdict}
use arc_db.Contracts.Effect.{
  EffectIntent, EffectStatus, same_status, committed, compensation_pending, compensated,
  remediation_required, irreversible_committed, reconciliation_required, Reversibility, r3,
  same_reversibility, RiskLevel, high, critical, low, medium,
}
use arc_db.Contracts.Remediation.{Obligation, open_status, pending_approval, parse_obligation}
use arc_db.Lineage.Impact.Report.{ImpactResult, parse_impact, parse_each}

pub record OutputTransition : Type 0 where
  pub version_id : String
  pub from : OutputState
  pub to : OutputState
  pub reason : String

-- The target of an evidence transition is always STALE.
pub record EvidenceTransition : Type 0 where
  pub evidence_id : String
  pub subject_version_id : String
  pub from : Verdict
  pub reason : String

pub record RecomputationStep : Type 0 where
  pub version_id : String
  pub generation : ℕ
  pub depends_on_version_ids : List String
  pub reason_edge_ids : List String

pub record InvalidationPlan : Type 0 where
  pub id : String
  pub source_version_id : String
  pub reason : String
  pub created_at : String
  pub impact : ImpactResult
  pub output_transitions : List OutputTransition
  pub evidence_transitions : List EvidenceTransition
  pub recomputation_steps : List RecomputationStep
  pub remediation_obligations : List Obligation
  pub preserved_receipt_ids : List String

-- `EXTERNAL_REALITY_STATUSES`
abbrev pub external_reality_statuses : List EffectStatus
external_reality_statuses =
    committed ∷ compensation_pending ∷ compensated ∷ remediation_required ∷ irreversible_committed
    ∷ reconciliation_required ∷ []

-- `text.slice(n)` and `text.slice(0, n)`, of ASCII texts
abbrev pub drop_text : ℕ → String → String
drop_text zero s = s
drop_text (suc n) String.[] = String.[]
drop_text (suc n) (String.◌∷◌ c s) = drop_text n s

abbrev pub take_text : ℕ → String → String
take_text zero s = String.[]
take_text (suc n) String.[] = String.[]
take_text (suc n) (String.◌∷◌ c s) = String.◌∷◌ c (take_text n s)

-- The 32 digits behind `sha256:`.
abbrev pub short_digest : String → String
short_digest digest = take_text 32 (drop_text 7 digest)

abbrev pub is_high_risk : RiskLevel → Bool
is_high_risk low = false
is_high_risk medium = false
is_high_risk high = true
is_high_risk critical = true

abbrev pub requires_approval : EffectIntent → Bool
requires_approval intent =
    same_reversibility intent.reversibility r3 || is_high_risk intent.risk_level

-- `transitionTargetState`
unfoldable pub transition_target_state : String → String → OutputState → Option OutputState
transition_target_state version source current =
    if same_state current OutputState.superseded
      || (same_state current OutputState.rejected || same_state current OutputState.invalidated)
    then none
    else let target : OutputState =
        if version == source then OutputState.invalidated else OutputState.stale in
      if same_state current target then none else some target

module _ (host : Host) where
  open host use {utf16_length}

  -- `remediationId`
  unfoldable pub remediation_id : EffectIntent → String → String → Result Fault String
  unfolding canonical_digest
  remediation_id intent source reason = do
    let operation : Value = obj (
        field "intentId" (str intent.id)
          (field "sourceVersionId" (str source) (field "reason" (str reason) end)))
    digest ← canonical_digest host operation "remediation-obligation"
    ok (concat ("remediation_" ∷ short_digest digest ∷ []))

  -- `remediationFor`
  unfoldable pub remediation_for : EffectIntent → String → String → String → Result Fault Obligation
  unfolding remediation_id parse_obligation
  remediation_for intent source reason created_at = do
    id ← remediation_id intent source reason
    parse_obligation host (record {
      id = id;
      tenant_id = intent.tenant_id;
      effect_intent_id = intent.id;
      source_output_version_id = intent.source_output_version_id;
      reason = reason;
      risk_level = intent.risk_level;
      reversibility = intent.reversibility;
      requires_human_approval = requires_approval intent;
      status = if requires_approval intent then pending_approval else open_status;
      created_at = created_at;
    })

  abbrev pub parse_transition : OutputTransition → Result Fault OutputTransition
  parse_transition t = do
    version ← parse_identifier host t.version_id
    throw_if (not (same_state t.to OutputState.stale || same_state t.to OutputState.invalidated))
        zod
    throw_if (not (leb 1 (utf16_length t.reason))) zod
    ok (record t { version_id = version })

  abbrev pub parse_evidence_transition : EvidenceTransition → Result Fault EvidenceTransition
  parse_evidence_transition t = do
    evidence ← parse_identifier host t.evidence_id
    subject ← parse_identifier host t.subject_version_id
    throw_if (not (leb 1 (utf16_length t.reason))) zod
    ok (record t { evidence_id = evidence; subject_version_id = subject })

  abbrev pub parse_step : RecomputationStep → Result Fault RecomputationStep
  parse_step s = do
    version ← parse_identifier host s.version_id
    throw_if (not (leb 1 s.generation)) zod
    sources ← parse_list (parse_identifier host) s.depends_on_version_ids
    edges ← parse_list (parse_identifier host) s.reason_edge_ids
    ok (record s {
      version_id = version;
      depends_on_version_ids = sources;
      reason_edge_ids = edges;
    })

  -- `z.string().min(1).max(4096)`
  abbrev pub parse_reason : String → Result Fault String
  parse_reason s =
      if leb 1 (utf16_length s)
      then (if leb (utf16_length s) 4096 then ok s else err zod)
      else err zod

  -- `InvalidationPlanSchema.parse`
  unfoldable pub parse_plan : InvalidationPlan → Result Fault InvalidationPlan
  unfolding parse_impact parse_obligation
  parse_plan p = do
    id ← parse_identifier host p.id
    source ← parse_identifier host p.source_version_id
    reason ← parse_reason p.reason
    created_at ← parse_iso_date_time host p.created_at
    impact ← parse_impact host p.impact
    outputs ← parse_each host parse_transition p.output_transitions
    evidence ← parse_each host parse_evidence_transition p.evidence_transitions
    steps ← parse_each host parse_step p.recomputation_steps
    obligations ← parse_each host (parse_obligation host) p.remediation_obligations
    receipts ← parse_list (parse_identifier host) p.preserved_receipt_ids
    ok (record {
      id = id;
      source_version_id = source;
      reason = reason;
      created_at = created_at;
      impact = impact;
      output_transitions = outputs;
      evidence_transitions = evidence;
      recomputation_steps = steps;
      remediation_obligations = obligations;
      preserved_receipt_ids = receipts;
    })
