-- ===== src/Lineage/Invalidation/Plan.antt =====
-- packages/lineage/src/invalidation.ts: `createInvalidationPlan`.
use Prim.Native.Nat.{max}
use arc_db.Base.{
  ℕ, ltb, eqb, String, Bool, not, ◌&&◌, ◌||◌, Option, none, some, is_some, List, [], ◌∷◌, ◌==◌,
  includes, keep, map, Result, ok, err, ◌>>=◌,
}
use arc_db.Base.Sort.{sort}
use arc_db.Host.{Host}
use arc_db.Contracts.Errors.{Fault}
use arc_db.Contracts.Digest.{
  Value, Items, nil, cons, Fields, field, end, str, arr, obj, canonical_digest,
}
use arc_db.Contracts.Primitives.{concat, parse_identifier, parse_iso_date_time}
use arc_db.Contracts.Output.{Output, parse_output}
use arc_db.Contracts.Evidence.{Evidence, Verdict, same_verdict, parse_evidence}
use arc_db.Contracts.Effect.{EffectIntent, EffectReceipt, same_status, parse_intent, parse_receipt}
use arc_db.Contracts.Remediation.{Obligation}
use arc_db.Contracts.Lineage.{Selector, Edge, parse_text}
use arc_db.Lineage.Selectors.{set_entry, selector_value}
use arc_db.Lineage.Impact.{Input, Delta, AffectedNode, lookup, add_text, parse_delta, parse_edges}
use arc_db.Lineage.Impact.Report.{ImpactResult, parse_each, compute_impact}
use arc_db.Lineage.Invalidation.{
  OutputTransition, EvidenceTransition, RecomputationStep, InvalidationPlan,
  external_reality_statuses, short_digest, transition_target_state, remediation_for, parse_plan,
}

-- `request` holds the source, the delta, the edges and the callbacks.
pub record PlanInput : Type 0 where
  pub request : Input
  pub reason : String
  pub created_at : String
  pub outputs : List Output
  pub evidence : List Evidence
  pub effect_intents : List EffectIntent
  pub receipts : List EffectReceipt

-- `new Map(values.map((value) => [key(value), value]))`
abbrev pub map_by {ℓ} : {A : Type ℓ} → (A → String) → List (String × A) → List A → List (String × A)
map_by key found [] = found
map_by key found (a ∷ as') = map_by key (set_entry (key a) a found) as'

-- `new Set(texts)`
abbrev pub set_of : List String → List String → List String
set_of found [] = found
set_of found (t ∷ ts) = set_of (add_text found t) ts

-- The transitions of the outputs, in the order of the affected versions.
abbrev pub transition_of : String → String → AffectedNode → Option Output → List OutputTransition
transition_of source reason node none = []
transition_of source reason node (some output) =
    elim (transition_target_state node.version_id source output.lifecycle_state) [
      | none ↦ []
      | some to ↦
          (record {
            version_id = output.version_id;
            from = output.lifecycle_state;
            to = to;
            reason = reason;
          })
          ∷ []
    ]

unfoldable pub output_transitions :
    String → String → List (String × Output) → List AffectedNode → List OutputTransition
unfolding transition_target_state
output_transitions source reason outputs [] = []
output_transitions source reason outputs (n ∷ ns) =
    let rest = output_transitions source reason outputs ns in
    elim (transition_of source reason n (lookup n.version_id outputs)) [
      | [] ↦ rest
      | t ∷ ts ↦ t ∷ rest
    ]

abbrev pub is_external : EffectIntent → Bool
is_external intent = includes same_status external_reality_statuses intent.status

abbrev pub items_of : List Selector → Items
items_of [] = nil
items_of (s ∷ ss) = cons (selector_value s) (items_of ss)

abbrev pub optional_field : String → Option String → Fields → Fields
optional_field key none rest = rest
optional_field key (some text) rest = field key (str text) rest

abbrev pub delta_value : Delta → Value
delta_value d = obj (
    field "selectors" (arr (items_of d.selectors)) (
      optional_field "beforeDigest" d.before_digest
        (optional_field "afterDigest" d.after_digest end)))

abbrev pub text_items : List String → Items
text_items [] = nil
text_items (t ∷ ts) = cons (str t) (text_items ts)

module _ (host : Host) where
  open host use {string_leb, locale_leb}

  unfoldable pub evidence_transitions :
      List String → String → List Evidence → List EvidenceTransition
  evidence_transitions ids reason evidence =
      sort (λ a b. locale_leb a.evidence_id b.evidence_id)
        (map
          (λ (r : Evidence). record {
            evidence_id = r.id;
            subject_version_id = r.subject_version_id;
            from = r.verdict;
            reason = reason;
          })
          (keep
            (λ r.
              includes ◌==◌ ids r.subject_version_id && not (same_verdict r.verdict Verdict.stale))
            evidence))

  abbrev pub step_of : List Edge → AffectedNode → RecomputationStep
  step_of affected_edges node =
      let incoming = keep (λ (e : Edge). e.target_version_id == node.version_id) affected_edges in
      record {
        version_id = node.version_id;
        generation = max 1 node.generation;
        depends_on_version_ids =
            sort string_leb (set_of [] (map (λ (e : Edge). e.source_version_id) incoming));
        reason_edge_ids = sort string_leb (set_of [] (map (λ (e : Edge). e.id) incoming));
      }

  abbrev pub step_le : RecomputationStep → RecomputationStep → Bool
  step_le a b =
      ltb a.generation b.generation
      || (eqb a.generation b.generation && locale_leb a.version_id b.version_id)

  unfoldable pub recomputation_steps :
      List String
      → String
      → List (String × Output)
      → List Edge
      → List AffectedNode
      → List RecomputationStep
  recomputation_steps ids source outputs edges nodes =
      let affected_edges =
        keep
          (λ (e : Edge).
            includes ◌==◌ ids e.source_version_id && includes ◌==◌ ids e.target_version_id)
          edges in
      sort step_le (
        map (step_of affected_edges)
          (keep (λ n. not (n.version_id == source) && is_some (lookup n.version_id outputs)) nodes))

  unfoldable pub remediation_obligations :
      String → String → String → List EffectIntent → Result Fault (List Obligation)
  unfolding remediation_for
  remediation_obligations source reason created_at intents = do
    obligations ←
        parse_each host (λ i. remediation_for host i source reason created_at)
          (keep is_external intents)
    ok (sort (λ a b. locale_leb a.id b.id) obligations)

  unfoldable pub preserved_receipts : List EffectIntent → List EffectReceipt → List String
  preserved_receipts affected_intents receipts =
      let ids = map (λ (i : EffectIntent). i.id) affected_intents in
      sort string_leb (
        map (λ (r : EffectReceipt). r.id)
          (keep (λ (r : EffectReceipt). includes ◌==◌ ids r.intent_id) receipts))

  abbrev pub plan_id : String → Delta → String → List String → Result Fault String
  plan_id source delta reason ids = do
    let payload : Value = obj (
        field "sourceVersionId" (str source) (
          field "delta" (delta_value delta) (
            field "reason" (str reason)
              (field "affectedVersionIds" (arr (text_items (sort string_leb ids))) end))))
    digest ← canonical_digest host payload "invalidation-plan"
    ok (concat ("invalidation_" ∷ short_digest digest ∷ []))

  -- What `createInvalidationPlan` has parsed.
  abbrev pub parse_input : PlanInput → Result Fault PlanInput
  parse_input input = do
    source ← parse_identifier host input.request.source_version_id
    delta ← parse_delta host input.request.delta
    created_at ← parse_iso_date_time host input.created_at
    reason ← parse_text host input.reason
    edges ← parse_edges host input.request.edges
    outputs ← parse_each host (parse_output host) input.outputs
    evidence ← parse_each host (parse_evidence host) input.evidence
    intents ← parse_each host (parse_intent host) input.effect_intents
    receipts ← parse_each host (parse_receipt host) input.receipts
    ok (record {
      request = record input.request { source_version_id = source; delta = delta; edges = edges };
      reason = reason;
      created_at = created_at;
      outputs = outputs;
      evidence = evidence;
      effect_intents = intents;
      receipts = receipts;
    })

  -- The plan of a parsed input, from the impact of its delta.
  unfoldable pub plan_for : PlanInput → ImpactResult → Result Fault InvalidationPlan
  unfolding output_transitions evidence_transitions recomputation_steps remediation_obligations
      preserved_receipts parse_plan canonical_digest
  plan_for input impact = do
    let source = input.request.source_version_id
    let ids = map (λ (n : AffectedNode). n.version_id) impact.affected_nodes
    let outputs = map_by (λ (o : Output). o.version_id) [] input.outputs
    let affected_intents =
        keep (λ (i : EffectIntent). includes ◌==◌ ids i.source_output_version_id)
          input.effect_intents
    obligations ← remediation_obligations source input.reason input.created_at affected_intents
    id ← plan_id source input.request.delta input.reason ids
    parse_plan host (record {
      id = id;
      source_version_id = source;
      reason = input.reason;
      created_at = input.created_at;
      impact = impact;
      output_transitions = output_transitions source input.reason outputs impact.affected_nodes;
      evidence_transitions = evidence_transitions ids input.reason input.evidence;
      recomputation_steps =
          recomputation_steps ids source outputs input.request.edges impact.affected_nodes;
      remediation_obligations = obligations;
      preserved_receipt_ids = preserved_receipts affected_intents input.receipts;
    })

  abbrev pub plan_from :
      PlanInput → Option (Result Fault ImpactResult) → Option (Result Fault InvalidationPlan)
  plan_from input none = none
  plan_from input (some outcome) = some (do impact ← outcome; plan_for input impact)

  abbrev pub plan_parsed : ℕ → Result Fault PlanInput → Option (Result Fault InvalidationPlan)
  plan_parsed fuel (err thrown) = some (err thrown)
  plan_parsed fuel (ok input) = plan_from input (compute_impact host input.request fuel)

  -- `createInvalidationPlan`; none is that the fuel of `compute_impact` ran out.
  unfoldable pub create_invalidation_plan : PlanInput → ℕ → Option (Result Fault InvalidationPlan)
  unfolding plan_for compute_impact
  create_invalidation_plan input fuel = plan_parsed fuel (parse_input input)
