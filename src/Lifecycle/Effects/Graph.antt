-- ===== src/Lifecycle/Effects/Graph.antt =====
-- packages/lifecycle/src/effects.ts: `transitionEffectIntent` and the graph of its table.
use arc_db.Base.{
  ◌≢◌, Bool-cases, Bool, true, false, not, ◌&&◌, ◌≡◌, refl, ◌⊎◌, inl, inr, arith, ok, throw_if,
  >>=-eq-ok, subst, Returns, after, after_ok, map, is_some, at_end,
}
use arc_db.Host.{Host}
use arc_db.Contracts.Primitives.{
  parse_identifier, parse_list, parse_option, parse_iso_date_time, has_unique_values,
}
use arc_db.Contracts.Trimmed.{
  map_option, parse_identifier-trim, parse_list-trim, parse_option-trim, parse_iso_date_time-same,
}
use arc_db.Contracts.Effect.{
  EffectIntent, Reversibility, EffectStatus, committed, compensated, irreversible_committed,
  reconciliation_required, remediation_required, compensation_pending, r0, r3, parse_intent,
  same_reversibility, same_status,
}
use arc_db.Lifecycle.Effects.{can_transition_effect, transition_effect_intent}

-- A path of the table.
pub data Reaches : EffectStatus → EffectStatus → Type 0 where
  here : {a : EffectStatus} → Reaches a a
  next : {a b c : EffectStatus} → can_transition_effect a b ≡ true → Reaches b c → Reaches a c

pub Reaches-trans : {a b c : EffectStatus} → Reaches a b → Reaches b c → Reaches a c
Reaches-trans here q = q
Reaches-trans (next e p) q = next e (Reaches-trans p q)

-- The statuses of an effect that is known to have happened and may still be undone.
abbrev pub is_settled : EffectStatus → Bool
is_settled committed = true
is_settled irreversible_committed = true
is_settled remediation_required = true
is_settled compensated = true
is_settled compensation_pending = true
is_settled _ = false

is_settled-step :
    (a b : EffectStatus)
    → can_transition_effect a b ≡ true
    → is_settled a ≡ true
    → (is_settled b ≡ true) ⊎ (b ≡ reconciliation_required)
unfolding can_transition_effect
is_settled-step a b e h = ground arith

-- The path stands at the status, at its start, on its way or at its end.
abbrev pub Through : EffectStatus → {a b : EffectStatus} → Reaches a b → Type 0
Through s (here {a}) = a ≡ s
Through s (next {a} e p) = (a ≡ s) ⊎ Through s p

Through-start : {a b : EffectStatus} (p : Reaches a b) → Through a p
Through-start here = refl
Through-start (next e p) = inl refl

-- Every path from COMMITTED, IRREVERSIBLE_COMMITTED, COMPENSATION_PENDING, COMPENSATED or
-- REMEDIATION_REQUIRED to any other status stands at RECONCILIATION_REQUIRED.
pub Reaches-executing :
    {a b : EffectStatus} (p : Reaches a b)
    → is_settled a ≡ true
    → is_settled b ≡ false
    → Through reconciliation_required p
Reaches-executing here h n = cc
Reaches-executing (next {a} {b} e p) h n = elim (is_settled-step a b e h) [
  | inl still ↦ inr (Reaches-executing p still n)
  | inr now ↦ inr (subst (λ s. Through s p) now (Through-start p))
]

-- COMPENSATED is final.
pub Reaches-compensated : {a b : EffectStatus} → Reaches a b → a ≡ compensated → b ≡ compensated
unfolding can_transition_effect
Reaches-compensated here h = h
Reaches-compensated (next e p) h = absurd (ground arith)

-- What the schema makes of an intent that it accepts: its identifiers are trimmed, no more.
abbrev pub trimmed : Host → EffectIntent → EffectIntent
trimmed host i = record i {
  id = host.trim i.id;
  tenant_id = host.trim i.tenant_id;
  source_output_version_id = host.trim i.source_output_version_id;
  connector_type = host.trim i.connector_type;
  target = host.trim i.target;
  resource_key = host.trim i.resource_key;
  arguments_ref = host.trim i.arguments_ref;
  read_set = map host.trim i.read_set;
  write_set = map host.trim i.write_set;
  base_resource_version = map_option host.trim i.base_resource_version;
  idempotency_key = host.trim i.idempotency_key;
  compensation_handler = map_option host.trim i.compensation_handler;
}

parse_intent-trimmed :
    (host : Host) (i : EffectIntent) → Returns (λ j. j ≡ trimmed host i) (parse_intent host i)
unfolding parse_intent
parse_intent-trimmed host i =
    let P : EffectIntent → Type 0 = λ j. j ≡ trimmed host i in
    after_ok P (parse_identifier host i.id) _ λ id e1.
      after_ok P (parse_identifier host i.tenant_id) _ λ tenant e2.
        after_ok P (parse_identifier host i.source_output_version_id) _ λ source e3.
          after_ok P (parse_identifier host i.connector_type) _ λ type e4.
            after_ok P (parse_identifier host i.target) _ λ target e5.
              after_ok P (parse_identifier host i.resource_key) _ λ key e6.
                after_ok P (parse_identifier host i.arguments_ref) _ λ arguments e7.
                  after_ok P (parse_list (parse_identifier host) i.read_set) _ λ read e8.
                    after_ok P (parse_list (parse_identifier host) i.write_set) _ λ write e9.
                      after_ok P (parse_option (parse_identifier host) i.base_resource_version) _
                        λ base e10.
                          after_ok P (parse_identifier host i.idempotency_key) _ λ idempotency e11.
                            after_ok P (parse_option (parse_identifier host) i.compensation_handler)
                              _
                              λ handler e12.
                                after_ok P (parse_iso_date_time host i.created_at) _ λ created e13.
                                  after P (throw_if (not (has_unique_values read)) _) _ λ _.
                                    after P (throw_if (not (has_unique_values write)) _) _ λ _.
                                      after P
                                        (throw_if
                                          (same_reversibility i.reversibility r0
                                            && not (is_some handler))
                                          _)
                                        _
                                        λ _.
                                          after P
                                            (throw_if
                                              (same_status i.status irreversible_committed
                                                && not (same_reversibility i.reversibility r3))
                                              _)
                                            _
                                            λ _. at_end P _ (
                                              rw
                                                (
                                                  parse_identifier-trim host i.id e1,
                                                  parse_identifier-trim host i.tenant_id e2,
                                                  parse_identifier-trim host
                                                      i.source_output_version_id e3,
                                                  parse_identifier-trim host i.connector_type e4,
                                                  parse_identifier-trim host i.target e5,
                                                  parse_identifier-trim host i.resource_key e6,
                                                  parse_identifier-trim host i.arguments_ref e7,
                                                  parse_list-trim host i.read_set e8,
                                                  parse_list-trim host i.write_set e9,
                                                  parse_option-trim host i.base_resource_version
                                                      e10,
                                                  parse_identifier-trim host i.idempotency_key e11,
                                                  parse_option-trim host i.compensation_handler e12,
                                                  parse_iso_date_time-same host i.created_at e13,
                                                )
                                                refl)

-- A transition that returns follows the table, reaches IRREVERSIBLE_COMMITTED only for an R3 effect,
-- and gives the intent with the new status, its identifiers trimmed and all else as it was.
pub transition_effect_intent-eq-ok :
    (host : Host) (i j : EffectIntent) (to : EffectStatus)
    → transition_effect_intent host i to ≡ ok j
    → (can_transition_effect i.status to ≡ true)
      × ((to ≢ irreversible_committed) ⊎ (i.reversibility ≡ r3))
      × (j ≡ trimmed host (record i { status = to }))
unfolding transition_effect_intent
transition_effect_intent-eq-ok host i j to h =
    let (_, edge, h₁) = >>=-eq-ok (throw_if (not (can_transition_effect i.status to)) _) _ h in
    let (_, only, h₂) =
      >>=-eq-ok
        (throw_if
          (same_status to irreversible_committed && not (same_reversibility i.reversibility r3)) _)
        _ h₁ in
    (
      ground arith,
      r3_only i.reversibility (ground arith),
      parse_intent-trimmed host (record i { status = to }) j h₂,
    )
  where
    r3_only :
        (v : Reversibility)
        → same_status to irreversible_committed && not (same_reversibility v r3) ≡ false
        → (to ≢ irreversible_committed) ⊎ (v ≡ r3)
    r3_only v e = elim (Bool-cases (same_reversibility v r3)) [
      | inl three ↦ inr (ground arith)
      | inr other ↦ inl λ same. ground arith
    ]
