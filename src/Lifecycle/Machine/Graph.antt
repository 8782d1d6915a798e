-- ===== src/Lifecycle/Machine/Graph.antt =====
-- packages/lifecycle/src/output-machine.ts: the graph of `OUTPUT_TRANSITIONS`.
use arc_db.Base.{◌≡◌, ◌∙◌, refl, Bool, true, false, ◌⊎◌, inl, inr, arith}
use arc_db.Contracts.Output.{OutputState}
use arc_db.Lifecycle.Machine.{can_transition_output, is_immutable}

-- The states that an output is in only after a verification, with no staleness since.
abbrev pub is_backed : OutputState → Bool
is_backed OutputState.verified = true
is_backed OutputState.approved = true
is_backed OutputState.committed = true
is_backed OutputState.consumed = true
is_backed OutputState.promoted = true
is_backed _ = false

-- The states of an output that has been committed and neither went stale nor was withdrawn.
abbrev pub is_live : OutputState → Bool
is_live OutputState.committed = true
is_live OutputState.consumed = true
is_live OutputState.promoted = true
is_live _ = false

pub is_backed-step :
    (a b : OutputState)
    → can_transition_output a b ≡ true
    → is_backed b ≡ true
    → (b ≡ OutputState.verified) ⊎ (is_backed a ≡ true)
unfolding can_transition_output
is_backed-step a b e h = ground arith

pub is_live-step :
    (a b : OutputState)
    → can_transition_output a b ≡ true
    → is_live b ≡ true
    → (b ≡ OutputState.committed) ⊎ (is_live a ≡ true)
unfolding can_transition_output
is_live-step a b e h = ground arith

abbrev pub is_promoted : OutputState → Bool
is_promoted OutputState.promoted = true
is_promoted _ = false

pub is_promoted-step :
    (a b : OutputState)
    → can_transition_output a b ≡ true
    → is_promoted b ≡ true
    → (b ≡ OutputState.promoted) ⊎ (is_promoted a ≡ true)
is_promoted-step a b e h = ground arith

-- A path of the table.
pub data Reaches : OutputState → OutputState → Type 0 where
  here : {a : OutputState} → Reaches a a
  next : {a b c : OutputState} → can_transition_output a b ≡ true → Reaches b c → Reaches a c

-- The states that an output never leaves for use: only SUPERSEDED follows.
abbrev pub is_retired : OutputState → Bool
is_retired OutputState.rejected = true
is_retired OutputState.invalidated = true
is_retired OutputState.superseded = true
is_retired _ = false

is_retired-step :
    (a b : OutputState)
    → can_transition_output a b ≡ true
    → is_retired a ≡ true
    → b ≡ OutputState.superseded
unfolding can_transition_output
is_retired-step a b e h = ground arith

-- From REJECTED, INVALIDATED or SUPERSEDED no path leads to another state than the same one or
-- SUPERSEDED.
pub Reaches-retired :
    {a b : OutputState} → Reaches a b → is_retired a ≡ true → (b ≡ a) ⊎ (b ≡ OutputState.superseded)
Reaches-retired here h = inl refl
Reaches-retired (next {a} {b} e p) h =
    let s = is_retired-step a b e h in
    elim (Reaches-retired p (rw s)) [ inl q ↦ inr (q ∙ s) | inr q ↦ inr q ]

-- Once an output is immutable it stays so, whatever path it takes, unless it goes stale and is
-- verified again.
is_immutable-step :
    (a b : OutputState)
    → can_transition_output a b ≡ true
    → is_immutable a ≡ true
    → (is_immutable b ≡ true) ⊎ ((a ≡ OutputState.stale) × (b ≡ OutputState.verified))
unfolding can_transition_output
is_immutable-step a b e h = ground arith

-- Every state has a path to SUPERSEDED.
pub superseded_reachable : (a : OutputState) → Reaches a OutputState.superseded
unfolding can_transition_output
superseded_reachable a = to_end a
  where
    last :
        {a : OutputState}
        → can_transition_output a OutputState.superseded ≡ true
        → Reaches a OutputState.superseded
    last e = next e here

    to_end : (a : OutputState) → Reaches a OutputState.superseded
    to_end OutputState.superseded = here
    to_end OutputState.created = next {b = OutputState.invalidated} refl (last refl)
    to_end OutputState.staged = next {b = OutputState.invalidated} refl (last refl)
    to_end OutputState.verified = next {b = OutputState.invalidated} refl (last refl)
    to_end OutputState.approved = next {b = OutputState.invalidated} refl (last refl)
    to_end _ = last refl

-- The path goes from one state to the other in a single step.
abbrev pub Takes : OutputState → OutputState → {a b : OutputState} → Reaches a b → Type 0
Takes s t here = ⊥
Takes s t (next {a} {b} e p) = ((a ≡ s) × (b ≡ t)) ⊎ Takes s t p

-- Every path from an immutable state to one that is not takes the step from STALE to VERIFIED: a
-- version that was committed can be changed again only after it went stale and was verified anew.
pub Reaches-mutable :
    {a b : OutputState} (p : Reaches a b)
    → is_immutable a ≡ true
    → is_immutable b ≡ false
    → Takes OutputState.stale OutputState.verified p
Reaches-mutable here h n = cc
Reaches-mutable (next {a} {b} e p) h n = elim (is_immutable-step a b e h) [
  | inl still ↦ inr (Reaches-mutable p still n)
  | inr step ↦ inl step
]
