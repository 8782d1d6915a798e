-- ===== src/Lifecycle/Effects/Idempotency.antt =====
-- packages/lifecycle/src/effects.ts: `resolveIdempotentIntent`.
use mathlib.Core.List.{Memᴰ}
use arc_db.Base.{
  ◌≡◌, refl, sym, ap, ◌∙◌, arith, List, Option, none, some, find, ok, >>=-eq-ok, eq_iff,
}
use arc_db.Base.Members.{mem_of_find, not_of_find-none}
use arc_db.Host.{Host}
use arc_db.Contracts.Effect.{EffectIntent, parse_intent}
use arc_db.Lifecycle.Effects.{
  Resolution, new, replay, resolve_idempotent_intent, resolve_found, has_key,
  intent_operation_digest,
}

-- What a resolution says of the intents that exist.
abbrev pub Justifies : Host → EffectIntent → List EffectIntent → Resolution → Type 0
Justifies host parsed existing new =
    (e : EffectIntent)
    → Memᴰ e existing
    → ¬ ((e.tenant_id ≡ parsed.tenant_id) × (e.idempotency_key ≡ parsed.idempotency_key))
Justifies host parsed existing (replay e) =
    Memᴰ e existing
    × (e.tenant_id ≡ parsed.tenant_id)
    × (e.idempotency_key ≡ parsed.idempotency_key)
    × (intent_operation_digest host e ≡ intent_operation_digest host parsed)

-- NEW means that no intent of the tenant has the key; REPLAY gives back an existing intent of the
-- tenant with the key, whose operation has the same digest.
pub resolve_idempotent_intent-Justifies :
    (host : Host) (i p : EffectIntent) (existing : List EffectIntent) (r : Resolution)
    → parse_intent host i ≡ ok p
    → resolve_idempotent_intent host i existing ≡ ok r
    → Justifies host p existing r
unfolding resolve_idempotent_intent
resolve_idempotent_intent-Justifies host i p existing r hp h =
    justify (find (has_key host p) existing) refl r (rw hp at h)
  where
    justify :
        (o : Option EffectIntent)
        → find (has_key host p) existing ≡ o
        → (r : Resolution) → resolve_found host p o ≡ ok r
        → Justifies host p existing r
    justify none f (replay e) k = cc
    justify none f new k = λ e m both.
        let misses = not_of_find-none (has_key host p) existing f m in
        ground (arith, eq_iff e.tenant_id p.tenant_id, eq_iff e.idempotency_key p.idempotency_key)
    justify (some e) f r k =
        let (old, ho, k₁) = >>=-eq-ok (intent_operation_digest host e) _ k in
        let (now, hn, k₂) = >>=-eq-ok (intent_operation_digest host p) _ k₁ in
        let (m, fits) = mem_of_find (has_key host p) existing f in
        let same : old ≡ now = ground (arith, eq_iff old now) in
        let is_replay : replay e ≡ r = ground arith in
        rw (← is_replay) (
          m,
          ground (arith, eq_iff e.tenant_id p.tenant_id),
          ground (arith, eq_iff e.idempotency_key p.idempotency_key),
          ho ∙ ap ok same ∙ sym hn,
        )
