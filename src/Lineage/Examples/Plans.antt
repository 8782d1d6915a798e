-- ===== src/Lineage/Examples/Plans.antt =====
-- The theorems on invalidation.ts, each at the plan for a change of the symbol `f`.
use mathlib.Core.List.{Memᴰ}
use arc_db.Base.{String, Option, some, List, [], ◌∷◌, refl, false, Result, ok, err}
use arc_db.Base.Sort.{sort, insert}
use arc_db.Contracts.Errors.{Fault}
use arc_db.Contracts.Digest.{canonicalize, canonicalize_value, canonical_digest}
use arc_db.Contracts.Primitives.{
  parse_identifier, parse_iso_date_time, parse_digest, has_unique_values,
}
use arc_db.Contracts.Evidence.{parse_confidence}
use arc_db.Contracts.Output.{OutputState, parse_output}
use arc_db.Contracts.Effect.{EffectIntent, committed, parse_intent}
use arc_db.Contracts.Remediation.{Obligation, open_status, parse_obligation}
use arc_db.Contracts.Lineage.{parse_selector, parse_text, parse_edge}
use arc_db.Lifecycle.Examples.{sample_host, sample_output, sample_intent}
use arc_db.Lineage.Selectors.{
  selectors_intersect, selector_sets_intersect, unique_selectors, parsed_intersect,
  values_intersect,
}
use arc_db.Lineage.Impact.{
  loop, visit, visit_edge, reach, arrive, add_skipped, selector_key, parse_delta,
}
use arc_db.Lineage.Impact.Report.{parse_impact, report, prepare, compute_impact}
use arc_db.Lineage.Invalidation.{
  InvalidationPlan, OutputTransition, transition_target_state, remediation_id, remediation_for,
  parse_plan,
}
use arc_db.Lineage.Invalidation.Plan.{
  PlanInput, output_transitions, evidence_transitions, recomputation_steps, remediation_obligations,
  preserved_receipts, plan_for, create_invalidation_plan,
}
use arc_db.Lineage.Invalidation.Laws.{IsLegal, create_invalidation_plan-IsLegal}
use arc_db.Lineage.Examples.{sample_input}

abbrev committed_intent : EffectIntent
committed_intent = record sample_intent { source_output_version_id = "b"; status = committed }

abbrev hex : String
hex = "00000000000000000000000000000000"

abbrev plan_input : PlanInput
plan_input = record {
  request = sample_input;
  reason = "the source changed";
  created_at = "2026-01-02T00:00:00Z";
  outputs = (record sample_output { version_id = "b"; content_digest = hex }) ∷ [];
  evidence = [];
  effect_intents = committed_intent ∷ [];
  receipts = [];
}

abbrev b_goes_stale : OutputTransition
b_goes_stale = record {
  version_id = "b";
  from = OutputState.created;
  to = OutputState.stale;
  reason = "the source changed";
}

abbrev no_plan : InvalidationPlan
no_plan = record {
  id = "";
  source_version_id = "";
  reason = "";
  created_at = "";
  impact = record {
    source_version_id = "";
    affected_nodes = [];
    skipped_nodes = [];
    reason_graph = [];
    visited_edge_count = 0;
  };
  output_transitions = [];
  evidence_transitions = [];
  recomputation_steps = [];
  remediation_obligations = [];
  preserved_receipt_ids = [];
}

abbrev plan_in : Option (Result Fault InvalidationPlan) → InvalidationPlan
plan_in (some (ok plan)) = plan
plan_in _ = no_plan

create_invalidation_plan-IsLegal_example : IsLegal b_goes_stale
unfolding create_invalidation_plan plan_for output_transitions transition_target_state
    evidence_transitions recomputation_steps remediation_obligations preserved_receipts
    remediation_for remediation_id parse_plan parse_obligation parse_impact compute_impact prepare
    report loop visit visit_edge reach arrive add_skipped selector_key selector_sets_intersect
    unique_selectors selectors_intersect parsed_intersect values_intersect canonicalize
    canonicalize_value canonical_digest sort insert parse_selector parse_text parse_edge
    parse_identifier parse_iso_date_time parse_digest parse_output parse_intent parse_delta
    parse_confidence has_unique_values
create_invalidation_plan-IsLegal_example =
    create_invalidation_plan-IsLegal sample_host plan_input 10
      (plan_in (create_invalidation_plan sample_host plan_input 10)) b_goes_stale refl
      (Memᴰ.head refl)

abbrev obligations_in : Result Fault (List Obligation) → List Obligation
obligations_in (ok os) = os
obligations_in (err e) = []

abbrev the_obligation : Obligation
the_obligation = record {
  id = "remediation_ab";
  tenant_id = committed_intent.tenant_id;
  effect_intent_id = committed_intent.id;
  source_output_version_id = "b";
  reason = "r";
  risk_level = committed_intent.risk_level;
  reversibility = committed_intent.reversibility;
  requires_human_approval = false;
  status = open_status;
  created_at = "now";
}
