-- ===== src/Lifecycle/Machine/Trace.antt =====
-- packages/lifecycle/src/output-machine.ts: the life of one output, as a sequence of transitions.
use mathlib.Core.List.{Memᴰ}
use arc_db.Base.{
  String, Bool, true, List, [], ◌∷◌, ◌≡◌, refl, sym, ap, ◌∙◌, ◌⊎◌, inl, inr, arith, Result, ok,
  ◌>>=◌, >>=-eq-ok, some, or_else,
}
use arc_db.Host.{Host}
use arc_db.Contracts.Errors.{Fault}
use arc_db.Contracts.Output.{Output, OutputState}
use arc_db.Lifecycle.Policy.Evaluate.{Policy, Evaluation, approved, evaluate_evidence_policy}
use arc_db.Lifecycle.Machine.{
  TransitionInput, TransitionResult, transition_output, can_transition_output, ProvenanceClosure,
  HeadReservation, FencingToken,
}
use arc_db.Contracts.Trimmed.{map_option, parse_option-trim}
use arc_db.Lifecycle.Machine.Graph.{
  is_backed, is_live, is_promoted, is_backed-step, is_live-step, is_promoted-step,
}
use arc_db.Lifecycle.Machine.Guards.{
  transition_output-Passed, transition_output-verified, transition_output-committed,
  transition_output-promoted,
}

-- The request `i`, made about the output as it stands.
abbrev pub about : TransitionInput → Output → TransitionInput
about i o = record i { output = o }

module _ (host : Host) where
  -- A caller that applies requests in turn, each to the output that the last one returned.
  unfoldable pub run : Output → List TransitionInput → Result Fault Output
  run o [] = ok o
  run o (i ∷ is) = do r ← transition_output host (about i o); run r.output is

  -- A request of the run that was granted, with the output that it met.
  pub record Granted (version : String) (is : List TransitionInput) (to : OutputState)
      : Type 0 where
    pub request : TransitionInput
    pub output : Output
    pub result : TransitionResult
    pub listed : Memᴰ request is
    pub same_version : output.version_id ≡ version
    pub target : request.to ≡ to
    pub granted : transition_output host (about request output) ≡ ok result

  Granted-later :
      {v w : String} {i : TransitionInput} {is : List TransitionInput} {to : OutputState}
      → w ≡ v
      → Granted w is to
      → Granted v (i ∷ is) to
  Granted-later e g = record {
    request = g.request;
    output = g.output;
    result = g.result;
    listed = Memᴰ.tail g.listed;
    same_version = g.same_version ∙ e;
    target = g.target;
    granted = g.granted;
  }

  -- A class of states that is entered only by a step to `to` is entered only by a granted request.
  module _ (inside : OutputState → Bool) (to : OutputState)
      (enter : (a b : OutputState)
        → can_transition_output a b ≡ true
        → inside b ≡ true
        → (b ≡ to) ⊎ (inside a ≡ true)) where
    run-entered :
        (o : Output) (is : List TransitionInput) {q : Output}
        → run o is ≡ ok q
        → inside q.lifecycle_state ≡ true
        → Granted o.version_id is to ⊎ (inside o.lifecycle_state ≡ true)
    unfolding run
    run-entered o [] {q} h b = let e : o ≡ q = cc in inr (rw e b)
    run-entered o (i ∷ is) {q} h b =
        let (r, hr, h') = >>=-eq-ok (transition_output host (about i o)) _ h in
        let p = transition_output-Passed host (about i o) r hr in
        let state : r.output.lifecycle_state ≡ i.to = ap (λ x. x.lifecycle_state) p.output in
        let version : r.output.version_id ≡ o.version_id = ap (λ x. x.version_id) p.output in
        elim (run-entered r.output is h' b) [
          | inl g ↦ inl (Granted-later version g)
          | inr still ↦ elim (enter o.lifecycle_state i.to p.edge (rw state at still)) [
            | inl arrived ↦ inl (record {
              request = i;
              output = o;
              result = r;
              listed = Memᴰ.head refl;
              same_version = refl;
              target = arrived;
              granted = hr;
            })
            | inr before ↦ inr before
          ]
        ]

  -- A run that takes a CREATED output to a state from VERIFIED to PROMOTED has granted a request to
  -- VERIFIED, on an approving evaluation of its policy for this very version.
  pub run-verified :
      (o : Output) (is : List TransitionInput) {q : Output}
      → run o is ≡ ok q
      → o.lifecycle_state ≡ OutputState.created
      → is_backed q.lifecycle_state ≡ true
      → (g : Granted o.version_id is OutputState.verified) × (policy : Policy) × (v : Evaluation)
        × (g.request.evidence_policy ≡ some policy)
        × (evaluate_evidence_policy host policy
              (or_else g.request.evidence [])
              o.version_id
              g.request.occurred_at
            ≡ ok v)
        × (v.decision ≡ approved)
  run-verified o is h created backed =
      elim (run-entered is_backed OutputState.verified is_backed-step o is h backed) [
        | inl g ↦
            let (policy, v, given, evaluated, agreed, _) =
              transition_output-verified host (about g.request g.output) g.result g.granted
                g.target in
            (g, policy, v, given, rw (← g.same_version) evaluated, agreed)
        | inr at_start ↦ absurd (ground arith)
      ]

  -- A run that takes a CREATED output to COMMITTED, CONSUMED or PROMOTED has granted a request to
  -- COMMITTED for this version, whose provenance closure was complete.
  pub run-committed :
      (o : Output) (is : List TransitionInput) {q : Output}
      → run o is ≡ ok q
      → o.lifecycle_state ≡ OutputState.created
      → is_live q.lifecycle_state ≡ true
      → (g : Granted o.version_id is OutputState.committed) × (closure : ProvenanceClosure)
        × (g.request.provenance ≡ some closure)
        × (closure.complete ≡ true)
        × (closure.missing_version_ids ≡ [])
  run-committed o is h created live =
      elim (run-entered is_live OutputState.committed is_live-step o is h live) [
        | inl g ↦
            let (closure, _, given, whole, nothing, _, _) =
              transition_output-committed host (about g.request g.output) g.result g.granted
                g.target in
            (g, closure, given, whole, nothing)
        | inr at_start ↦ absurd (ground arith)
      ]

  -- A run that takes a CREATED output to PROMOTED has granted a request to PROMOTED for this version,
  -- whose caller had observed the head that is current, their identifiers trimmed, and presented the
  -- fencing token that is current.
  pub run-promoted :
      (o : Output) (is : List TransitionInput) {q : Output}
      → run o is ≡ ok q
      → o.lifecycle_state ≡ OutputState.created
      → q.lifecycle_state ≡ OutputState.promoted
      → (g : Granted o.version_id is OutputState.promoted) × (reservation : HeadReservation)
        × (token : FencingToken) × (g.request.head_reservation ≡ some reservation)
        × (map_option host.trim reservation.expected_head
            ≡ map_option host.trim reservation.current_head)
        × (g.request.fence ≡ some token)
        × (token.presented_token ≡ token.current_token)
  run-promoted o is h created promoted =
      elim (run-entered is_promoted OutputState.promoted is_promoted-step o is h
        (rw promoted refl)) [
          | inl g ↦
              let (reservation, token, given, agrees, fenced, current) =
                transition_output-promoted host (about g.request g.output) g.result g.granted
                  g.target in
              let one = parse_option-trim host reservation.expected_head agrees.expected in
              let other = parse_option-trim host reservation.current_head agrees.current in
              (g, reservation, token, given, sym one ∙ other, fenced, current)
          | inr at_start ↦ absurd (ground arith)
        ]
