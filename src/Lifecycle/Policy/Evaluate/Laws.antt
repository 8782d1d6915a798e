-- ===== src/Lifecycle/Policy/Evaluate/Laws.antt =====
-- packages/lifecycle/src/evidence-policy.ts: what a decision of the policy means.
use mathlib.Core.List.{Memᴰ}
use mathlib.Core.List.Memᴰ
use arc_db.Base.{
  String, List, [], ◌∷◌, ◌≡◌, refl, sym, ap, ◌∙◌, ◌↔◌, inl, inr, arith, All, ok, >>=-eq-ok,
}
use arc_db.Host.{Host}
use arc_db.Contracts.Primitives.{parse_identifier, parse_iso_date_time}
use arc_db.Contracts.Evidence.{Evidence}
use arc_db.Lifecycle.Policy.Evaluate.{
  Requirement, Policy, Failure, Evaluation, approved, Judgement, matched, unmet, judge, judge_all,
  matched_ids, failures_of, decide_on, evaluate_evidence_policy, parse_policy,
  assert_evidence_policy,
}
use arc_db.Lifecycle.Policy.Evaluate.Support.{IsSupported, judge-matched, judge-unmet}

module _ (host : Host) (policy : Policy) (subject now : String) (es : List Evidence) where
  abbrev Supported : Requirement → Type 0
  Supported = IsSupported host policy subject now es

  judge_all-approved :
      (reqs : List Requirement) {js : List Judgement}
      → judge_all host policy subject now es reqs ≡ ok js
      → (failures_of js ≡ []) ↔ All Supported reqs
  unfolding judge_all
  judge_all-approved [] {js} h = let e : [] ≡ js = cc in ((λ _. tt), λ _. rw (← e))
  judge_all-approved (req ∷ reqs) {js} h =
      let (j, hj, h') = >>=-eq-ok (judge host policy subject now es req) _ h in
      let (rest, hr, last) = >>=-eq-ok (judge_all host policy subject now es reqs) _ h' in
      let e : j ∷ rest ≡ js = cc in
      let ih = judge_all-approved reqs hr in rw (← e) (round rest j hj ih)
    where
      round :
          (rest : List Judgement) (j : Judgement)
          → judge host policy subject now es req ≡ ok j
          → (failures_of rest ≡ []) ↔ All Supported reqs
          → (failures_of (j ∷ rest) ≡ []) ↔ (Supported req × All Supported reqs)
      round rest (matched id) hj ih =
          ((λ h. ((judge-matched host policy subject now req es hj).0, ih.0 h)), λ s. ih.1 s.1)
      round rest (unmet f) hj ih =
          ((λ h. cc), λ s. absurd (judge-unmet host policy subject now req es hj s.0))

  matched_ids-Supported :
      (reqs : List Requirement) {js : List Judgement} {id : String}
      → judge_all host policy subject now es reqs ≡ ok js
      → Memᴰ id (matched_ids js)
      → (req : Requirement) × Memᴰ req reqs × (s : Supported req) × (s.witness.id ≡ id)
  unfolding judge_all
  matched_ids-Supported [] {js} h m = let e : [] ≡ js = cc in absurd (Memᴰ.not-nil (rw (← e) at m))
  matched_ids-Supported (req ∷ reqs) {js} {id} h m =
      let (j, hj, h') = >>=-eq-ok (judge host policy subject now es req) _ h in
      let (rest, hr, last) = >>=-eq-ok (judge_all host policy subject now es reqs) _ h' in
      let e : j ∷ rest ≡ js = cc in
      round rest j hj (λ k. matched_ids-Supported reqs hr k) (rw (← e) at m)
    where
      round :
          (rest : List Judgement) (j : Judgement)
          → judge host policy subject now es req ≡ ok j
          → (Memᴰ id (matched_ids rest)
              → (r : Requirement) × Memᴰ r reqs × (s : Supported r) × (s.witness.id ≡ id))
          → Memᴰ id (matched_ids (j ∷ rest))
          → (r : Requirement) × Memᴰ r (req ∷ reqs) × (s : Supported r) × (s.witness.id ≡ id)
      round rest (matched _) hj ih k = elim (Memᴰ.cases_cons k) [
        | inl p ↦
            let (s, q) = judge-matched host policy subject now req es hj in
            (req, Memᴰ.head refl, s, q ∙ sym p)
        | inr k' ↦ let (r, mr, s, q) = ih k' in (r, Memᴰ.tail mr, s, q)
      ]
      round rest (unmet f) hj ih k = let (r, mr, s, q) = ih k in (r, Memᴰ.tail mr, s, q)

-- An evaluation that returns approves exactly when every requirement of the parsed policy is met by
-- some piece of the given evidence: one about the subject, by the verifier, fresh under the
-- requirement's scope, passing, and as confident as the requirement asks.
pub evaluate_evidence_policy-approved :
    (host : Host) (unparsed policy : Policy) (es : List Evidence) (id text subject now : String)
    {r : Evaluation}
    → evaluate_evidence_policy host unparsed es id text ≡ ok r
    → parse_policy host unparsed ≡ ok policy
    → parse_identifier host id ≡ ok subject
    → parse_iso_date_time host text ≡ ok now
    → (r.decision ≡ approved)
      ↔ All (IsSupported host policy subject now es) policy.required_evidence
unfolding evaluate_evidence_policy
evaluate_evidence_policy-approved host unparsed policy es id text subject now {r} h hp hs hn =
    let (js, hj, last) =
      >>=-eq-ok (judge_all host policy subject now es policy.required_evidence) _
        (rw (hp, hs, hn) at h) in
    let (to, from) = judge_all-approved host policy subject now es policy.required_evidence hj in
    let same : r.decision ≡ decide_on (failures_of js) = ground arith in
    rw same ((λ a. to (none_failed (failures_of js) a)), λ s. ap decide_on (from s))
  where
    none_failed : (fs : List Failure) → decide_on fs ≡ approved → fs ≡ []
    none_failed [] a = refl
    none_failed (f ∷ fs) a = cc

-- Every evidence id that a returned evaluation reports as matched is that of a piece of the given
-- evidence that meets one of the policy's requirements.
pub evaluate_evidence_policy-matched :
    (host : Host) (unparsed policy : Policy) (es : List Evidence) (id text subject now : String)
    {r : Evaluation} {e : String}
    → evaluate_evidence_policy host unparsed es id text ≡ ok r
    → parse_policy host unparsed ≡ ok policy
    → parse_identifier host id ≡ ok subject
    → parse_iso_date_time host text ≡ ok now
    → Memᴰ e r.matched_evidence_ids
    → (req : Requirement) × Memᴰ req policy.required_evidence
      × (s : IsSupported host policy subject now es req) × (s.witness.id ≡ e)
unfolding evaluate_evidence_policy
evaluate_evidence_policy-matched host unparsed policy es id text subject now {r} h hp hs hn m =
    let (js, hj, last) =
      >>=-eq-ok (judge_all host policy subject now es policy.required_evidence) _
        (rw (hp, hs, hn) at h) in
    let same : r.matched_evidence_ids ≡ matched_ids js = ground arith in
    matched_ids-Supported host policy subject now es policy.required_evidence hj (rw same at m)

-- `assertEvidencePolicy` returns exactly for an approved evaluation.
pub assert_evidence_policy-eq-ok :
    (v : Evaluation) → (assert_evidence_policy v ≡ ok tt) ↔ (v.decision ≡ approved)
unfolding assert_evidence_policy
assert_evidence_policy-eq-ok v = ground arith
