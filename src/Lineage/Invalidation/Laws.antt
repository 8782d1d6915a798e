-- ===== src/Lineage/Invalidation/Laws.antt =====
-- packages/lineage/src/invalidation.ts: what a plan contains. Its transitions follow the table of the
-- lifecycle, and its obligations are those of the effects that have reached the outside world.
use mathlib.Core.List.{Memᴰ}
use mathlib.Core.List.Memᴰ
use arc_db.Base.{
  ℕ, String, true, not, ◌||◌, Option, none, some, List, [], ◌∷◌, map, ◌≡◌, ◌⊎◌, inl, inr, refl, sym,
  ◌∙◌, ap, Result, ok, err, >>=-eq-ok, throw_if, includes, leb, Returns, after, after_ok, at_end,
  ◌==◌, arith, false, ◌≢◌, keep,
}
use arc_db.Host.{Host}
use arc_db.Contracts.Errors.{Fault, zod}
use arc_db.Contracts.Primitives.{parse_identifier, parse_iso_date_time, parse_list}
use arc_db.Contracts.Output.{Output, OutputState, same_state}
use arc_db.Contracts.Effect.{
  EffectIntent, EffectStatus, r3, high, critical, committed, compensation_pending, compensated,
  remediation_required, irreversible_committed, reconciliation_required,
}
use arc_db.Contracts.Remediation.{Obligation, open_status, pending_approval, parse_obligation}
use arc_db.Lifecycle.Machine.{can_transition_output}
use arc_db.Lineage.Impact.{AffectedNode, lookup}
use arc_db.Lineage.Impact.Report.{ImpactResult, parse_each, parse_impact, compute_impact}
use arc_db.Lineage.Invalidation.{
  OutputTransition, InvalidationPlan, transition_target_state, parse_transition, parse_plan,
  parse_reason, parse_evidence_transition, parse_step,
}
use arc_db.Lineage.Invalidation.Plan.{
  PlanInput, transition_of, output_transitions, remediation_obligations, plan_for, plan_id,
  plan_from, plan_parsed, parse_input, create_invalidation_plan,
}

-- What an invalidation makes of a state is an edge of the table of the lifecycle.
pub transition_target_state-legal :
    (version source : String) (current to : OutputState)
    → transition_target_state version source current ≡ some to
    → can_transition_output current to ≡ true
unfolding transition_target_state can_transition_output
transition_target_state-legal version source current to h = ground arith

abbrev pub IsLegal : OutputTransition → Type 0
IsLegal t = can_transition_output t.from t.to ≡ true

transition_of-IsLegal :
    (source reason : String) (node : AffectedNode) (o : Option Output) {t : OutputTransition}
    → Memᴰ t (transition_of source reason node o)
    → IsLegal t
transition_of-IsLegal source reason node none m = elim m [ ]
transition_of-IsLegal source reason node (some output) {t} m =
    go (transition_target_state node.version_id source output.lifecycle_state) refl m
  where
    go :
        (o : Option OutputState)
        → transition_target_state node.version_id source output.lifecycle_state ≡ o
        → Memᴰ t (elim o [
          | none ↦ []
          | some to ↦
              (record {
                version_id = output.version_id;
                from = output.lifecycle_state;
                to = to;
                reason = reason;
              })
              ∷ []
        ])
        → IsLegal t
    go none e k = elim k [ ]
    go (some to) e k =
        rw (Memᴰ.eq_of_singleton k)
          (transition_target_state-legal node.version_id source output.lifecycle_state to e)

mem_of_first :
    (ts rest : List OutputTransition) {t : OutputTransition}
    → Memᴰ t (elim ts [ [] ↦ rest | u ∷ us ↦ u ∷ rest ])
    → Memᴰ t ts ⊎ Memᴰ t rest
mem_of_first [] rest m = inr m
mem_of_first (u ∷ us) rest m = elim (Memᴰ.cases_cons m) [
  | inl e ↦ inl (Memᴰ.head e)
  | inr k ↦ inr k
]

output_transitions-IsLegal :
    (source reason : String) (outputs : List (String × Output)) (nodes : List AffectedNode)
    {t : OutputTransition}
    → Memᴰ t (output_transitions source reason outputs nodes)
    → IsLegal t
unfolding output_transitions
output_transitions-IsLegal source reason outputs [] m = elim m [ ]
output_transitions-IsLegal source reason outputs (n ∷ ns) m =
    let o = lookup n.version_id outputs in
    elim (mem_of_first (transition_of source reason n o) _ m) [
      | inl k ↦ transition_of-IsLegal source reason n o k
      | inr k ↦ output_transitions-IsLegal source reason outputs ns k
    ]

module _ (host : Host) where
  -- Each item of a parsed array has been parsed from one of the raw array, and each is there.
  pub mem_of_parse_each {ℓ κ} :
      {A : Type ℓ} {B : Type κ} (parse : A → Result Fault B) (xs : List A) {ys : List B} {y : B}
      → parse_each host parse xs ≡ ok ys
      → Memᴰ y ys
      → (x : A) × Memᴰ x xs × (parse x ≡ ok y)
  mem_of_parse_each parse [] {ys} h m = let e : ys ≡ [] = cc in elim (rw e at m) [ ]
  mem_of_parse_each parse (x ∷ xs) {ys} {y} h m =
      let (z, p, h1) = >>=-eq-ok (parse x) _ h in
      let (zs, q, h2) = >>=-eq-ok (parse_each host parse xs) _ h1 in
      let e : ys ≡ z ∷ zs = cc in
      elim (Memᴰ.cases_cons (rw e at m)) [
        | inl f ↦ (x, Memᴰ.head refl, p ∙ ap ok (sym f))
        | inr k ↦ let (u, l, r) = mem_of_parse_each parse xs q k in (u, Memᴰ.tail l, r)
      ]

  pub parse_each-mem {ℓ κ} :
      {A : Type ℓ} {B : Type κ} (parse : A → Result Fault B) (xs : List A) {ys : List B} {x : A}
      → parse_each host parse xs ≡ ok ys
      → Memᴰ x xs
      → (y : B) × Memᴰ y ys × (parse x ≡ ok y)
  parse_each-mem parse [] h m = elim m [ ]
  parse_each-mem parse (x ∷ xs) {ys} h m =
      let (z, p, h1) = >>=-eq-ok (parse x) _ h in
      let (zs, q, h2) = >>=-eq-ok (parse_each host parse xs) _ h1 in
      let e : ys ≡ z ∷ zs = cc in
      elim (Memᴰ.cases_cons m) [
        | inl f ↦ (z, rw e (Memᴰ.head refl), ap parse f ∙ p)
        | inr k ↦ let (u, l, r) = parse_each-mem parse xs q k in (u, rw e (Memᴰ.tail l), r)
      ]

  parse_transition-IsLegal :
      (t : OutputTransition) → IsLegal t → Returns IsLegal (parse_transition host t)
  parse_transition-IsLegal t legal = after IsLegal (parse_identifier host t.version_id) _ λ version.
      after IsLegal
        (throw_if
          (not (same_state t.to OutputState.stale || same_state t.to OutputState.invalidated)) zod)
        _
        λ done.
          after IsLegal (throw_if (not (leb 1 (host.utf16_length t.reason))) zod) _
            λ done'. at_end IsLegal _ legal

  AreLegal : InvalidationPlan → Type 0
  AreLegal plan = (t : OutputTransition) → Memᴰ t plan.output_transitions → IsLegal t

  parse_plan-AreLegal : (p : InvalidationPlan) → AreLegal p → Returns AreLegal (parse_plan host p)
  unfolding AreLegal parse_plan
  parse_plan-AreLegal p legal = after AreLegal (parse_identifier host p.id) _ λ id.
      after AreLegal (parse_identifier host p.source_version_id) _ λ source.
        after AreLegal (parse_reason host p.reason) _ λ reason.
          after AreLegal (parse_iso_date_time host p.created_at) _ λ created.
            after AreLegal (parse_impact host p.impact) _ λ impact.
              after_ok AreLegal (parse_each host (parse_transition host) p.output_transitions) _
                λ outputs parsed.
                  after AreLegal
                    (parse_each host (parse_evidence_transition host) p.evidence_transitions) _
                    λ evidence.
                      after AreLegal (parse_each host (parse_step host) p.recomputation_steps) _
                        λ steps.
                          after AreLegal
                            (parse_each host (parse_obligation host) p.remediation_obligations) _
                            λ obligations.
                              after AreLegal
                                (parse_list (parse_identifier host) p.preserved_receipt_ids) _
                                λ receipts. at_end AreLegal _ λ t m.
                                  let (u, k, q) =
                                    mem_of_parse_each (parse_transition host) _ parsed m in
                                  parse_transition-IsLegal u (legal u k) t q

  -- The transitions of a plan, from the outputs that it was made for.
  plan_for-IsLegal :
      (input : PlanInput) (impact : ImpactResult) (plan : InvalidationPlan) {t : OutputTransition}
      → plan_for host input impact ≡ ok plan
      → Memᴰ t plan.output_transitions
      → IsLegal t
  unfolding plan_for AreLegal
  plan_for-IsLegal input impact plan h m =
      let source = input.request.source_version_id in
      let ids = map (λ (n : AffectedNode). n.version_id) impact.affected_nodes in
      let intents =
        keep (λ (i : EffectIntent). includes ◌==◌ ids i.source_output_version_id)
          input.effect_intents in
      let (obligations, p1, h1) =
        >>=-eq-ok (remediation_obligations host source input.reason input.created_at intents) _ h in
      let (id, p2, h2) =
        >>=-eq-ok (plan_id host source input.request.delta input.reason ids) _ h1 in
      parse_plan-AreLegal _ (λ u. output_transitions-IsLegal _ _ _ impact.affected_nodes) plan h2 _
        m

  -- A plan takes outputs along the edges of the lifecycle's table alone: each of its output
  -- transitions leads from a state of the table to one that follows it, whatever the graph, the delta,
  -- the callbacks and the fuel.
  pub create_invalidation_plan-IsLegal :
      (input : PlanInput) (fuel : ℕ) (plan : InvalidationPlan) (t : OutputTransition)
      → create_invalidation_plan host input fuel ≡ some (ok plan)
      → Memᴰ t plan.output_transitions
      → IsLegal t
  unfolding create_invalidation_plan
  create_invalidation_plan-IsLegal input fuel plan t h m = parsed (parse_input host input) h
    where
      from :
          (p : PlanInput) (o : Option (Result Fault ImpactResult))
          → plan_from host p o ≡ some (ok plan)
          → IsLegal t
      from p none k = cc
      from p (some (err e)) k = cc
      from p (some (ok impact)) k = plan_for-IsLegal p impact plan (cc) m

      parsed : (r : Result Fault PlanInput) → plan_parsed host fuel r ≡ some (ok plan) → IsLegal t
      parsed (err e) k = cc
      parsed (ok p) k = from p (compute_impact host p.request fuel) k

  -- The effect may have changed the world outside.
  abbrev pub MayHaveActed : EffectStatus → Type 0
  MayHaveActed s =
      (s ≡ committed)
      ⊎ (s ≡ compensation_pending)
      ⊎ (s ≡ compensated)
      ⊎ (s ≡ remediation_required)
      ⊎ (s ≡ irreversible_committed)
      ⊎ (s ≡ reconciliation_required)

  -- What cannot be undone, or is of high risk, waits for an approval; all else is open.
  abbrev pub IsGraded : EffectIntent → Obligation → Type 0
  IsGraded intent o =
      (((intent.reversibility ≡ r3) ⊎ (intent.risk_level ≡ high) ⊎ (intent.risk_level ≡ critical))
        × (o.requires_human_approval ≡ true)
        × (o.status ≡ pending_approval))
      ⊎ ((intent.reversibility ≢ r3)
          × (intent.risk_level ≢ high)
          × (intent.risk_level ≢ critical)
          × (o.requires_human_approval ≡ false)
          × (o.status ≡ open_status))

  -- An obligation for its intent, of which it has the names, the risk and the reversibility.
  abbrev pub Obliges : String → EffectIntent → Obligation → Type 0
  Obliges reason intent o =
      (o.tenant_id ≡ host.trim intent.tenant_id)
      × (o.effect_intent_id ≡ host.trim intent.id)
      × (o.source_output_version_id ≡ host.trim intent.source_output_version_id)
      × (o.reason ≡ host.trim reason)
      × (o.risk_level ≡ intent.risk_level)
      × (o.reversibility ≡ intent.reversibility)
      × IsGraded intent o
