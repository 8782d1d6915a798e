-- ===== src/Lineage/Invalidation/Apply.antt =====
-- packages/lineage/src/invalidation.ts: `applyInvalidationPlan`.
use arc_db.Base.{
  String, Option, none, some, List, map, includes, [], ◌==◌, if◌then◌else◌, Result, ok, ◌>>=◌,
}
use arc_db.Host.{Host}
use arc_db.Contracts.Errors.{Fault}
use arc_db.Contracts.Output.{Output, parse_output}
use arc_db.Contracts.Evidence.{Evidence, Verdict, parse_evidence}
use arc_db.Lineage.Impact.{lookup}
use arc_db.Lineage.Impact.Report.{parse_each}
use arc_db.Lineage.Invalidation.{OutputTransition, EvidenceTransition, InvalidationPlan, parse_plan}
use arc_db.Lineage.Invalidation.Plan.{map_by}

module _ (host : Host) where
  abbrev pub move_output : String → Output → Option OutputTransition → Result Fault Output
  move_output created_at output none = ok output
  move_output created_at output (some t) =
      parse_output host (record output { lifecycle_state = t.to; updated_at = created_at })

  abbrev pub apply_to_output : InvalidationPlan → Output → Result Fault Output
  apply_to_output plan unparsed = do
    output ← parse_output host unparsed
    let transitions = map_by (λ (t : OutputTransition). t.version_id) [] plan.output_transitions
    move_output plan.created_at output (lookup output.version_id transitions)

  abbrev pub apply_to_evidence : InvalidationPlan → Evidence → Result Fault Evidence
  apply_to_evidence plan unparsed = do
    e ← parse_evidence host unparsed
    let ids = map (λ (t : EvidenceTransition). t.evidence_id) plan.evidence_transitions
    if includes ◌==◌ ids e.id
        then parse_evidence host (record e { verdict = Verdict.stale })
        else ok e

  -- `applyInvalidationPlan`
  unfoldable pub apply_invalidation_plan :
      InvalidationPlan → List Output → List Evidence → Result Fault (List Output × List Evidence)
  unfolding parse_plan
  apply_invalidation_plan unparsed outputs evidence = do
    plan ← parse_plan host unparsed
    moved ← parse_each host (apply_to_output plan) outputs
    staled ← parse_each host (apply_to_evidence plan) evidence
    ok (moved, staled)
