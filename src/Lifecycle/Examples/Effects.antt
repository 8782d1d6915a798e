-- ===== src/Lifecycle/Examples/Effects.antt =====
-- The theorems on effects.ts, each at one effect.
use arc_db.Base.{◌≢◌, ◌⊎◌, true, ◌≡◌, refl, List, [], ◌∷◌, ◌++◌, ok}
use arc_db.Base.Sort.{sort}
use arc_db.Contracts.Digest.{canonical_digest, canonicalize, canonicalize_value}
use arc_db.Contracts.Primitives.{
  parse_identifier, parse_iso_date_time, parse_digest, has_unique_values,
}
use arc_db.Contracts.Effect.{
  EffectIntent, EffectReceipt, executing, committed, compensation_pending, reconciliation_required,
  irreversible_committed, r1, r3, parse_intent, parse_receipt, parse_status_text,
}
use arc_db.Lifecycle.Effects.{
  can_transition_effect, transition_effect_intent, resolve_idempotent_intent, replay,
  intent_operation_digest, append_effect_receipt, receipt_digest,
}
use arc_db.Lifecycle.Effects.Graph.{
  Reaches, here, next, Reaches-executing, Through, transition_effect_intent-eq-ok, trimmed,
}
use arc_db.Lifecycle.Effects.Receipts.{
  IsLog, append_effect_receipt-prefix, append_effect_receipt-IsLog, append_effect_receipt-again,
}
use arc_db.Lifecycle.Effects.Idempotency.{Justifies, resolve_idempotent_intent-Justifies}
use arc_db.Lifecycle.Examples.{sample_host, sample_intent, sample_receipt}

abbrev running : EffectIntent
running = record sample_intent { status = executing }

started : transition_effect_intent sample_host sample_intent executing ≡ ok running
unfolding transition_effect_intent can_transition_effect parse_intent parse_identifier
    parse_iso_date_time has_unique_values
started = refl

transition_effect_intent-eq-ok_example :
    (can_transition_effect sample_intent.status executing ≡ true)
    × ((executing ≢ irreversible_committed) ⊎ (r1 ≡ r3))
    × (running ≡ trimmed sample_host running)
transition_effect_intent-eq-ok_example =
    transition_effect_intent-eq-ok sample_host sample_intent running executing started

-- COMMITTED, COMPENSATION_PENDING, RECONCILIATION_REQUIRED, EXECUTING
loop : Reaches committed executing
unfolding can_transition_effect
loop =
    next {b = compensation_pending} refl
      (next {b = reconciliation_required} refl (next {b = executing} refl here))

Reaches-executing_example : Through reconciliation_required loop
Reaches-executing_example = Reaches-executing loop refl refl

parsed_intent : parse_intent sample_host sample_intent ≡ ok sample_intent
unfolding parse_intent parse_identifier parse_iso_date_time has_unique_values
parsed_intent = refl

-- The effect is submitted again under another id.
abbrev submitted_before : EffectIntent
submitted_before = record sample_intent { id = "i0" }

resolved :
    resolve_idempotent_intent sample_host sample_intent (submitted_before ∷ [])
    ≡ ok (replay submitted_before)
unfolding resolve_idempotent_intent parse_intent parse_identifier parse_iso_date_time
    has_unique_values intent_operation_digest canonical_digest canonicalize canonicalize_value sort
resolved = refl

resolve_idempotent_intent-Justifies_example :
    Justifies sample_host sample_intent (submitted_before ∷ []) (replay submitted_before)
resolve_idempotent_intent-Justifies_example =
    resolve_idempotent_intent-Justifies sample_host sample_intent sample_intent
      (submitted_before ∷ []) (replay submitted_before) parsed_intent resolved

appended :
    append_effect_receipt sample_host [] sample_receipt sample_intent ≡ ok (sample_receipt ∷ [])
unfolding append_effect_receipt parse_receipt parse_identifier parse_digest parse_status_text
    parse_iso_date_time
appended = refl

append_effect_receipt-prefix_example :
    (more : List EffectReceipt) × ((sample_receipt ∷ []) ≡ [] ++ more)
append_effect_receipt-prefix_example =
    append_effect_receipt-prefix sample_host [] (sample_receipt ∷ []) sample_receipt sample_intent
      appended

append_effect_receipt-IsLog_example : IsLog sample_intent (sample_receipt ∷ [])
append_effect_receipt-IsLog_example =
    append_effect_receipt-IsLog sample_host [] (sample_receipt ∷ []) sample_receipt sample_intent
      (record { own = tt; distinct = tt }) appended

parsed_receipt : parse_receipt sample_host sample_receipt ≡ ok sample_receipt
unfolding parse_receipt parse_identifier parse_digest parse_status_text parse_iso_date_time
parsed_receipt = refl

receipt_digested : receipt_digest sample_host sample_receipt ≡ ok "sha256:ab"
unfolding receipt_digest canonical_digest canonicalize canonicalize_value sort
receipt_digested = refl

append_effect_receipt-again_example :
    append_effect_receipt sample_host (sample_receipt ∷ []) sample_receipt sample_intent
    ≡ ok (sample_receipt ∷ [])
append_effect_receipt-again_example =
    append_effect_receipt-again sample_host [] (sample_receipt ∷ []) sample_receipt sample_receipt
      sample_intent appended parsed_receipt receipt_digested
