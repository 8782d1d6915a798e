-- ===== src/Lifecycle/Machine/Checks.antt =====
-- packages/lifecycle/src/output-machine.ts: what each check of a transition asks, where it returns.
use arc_db.Base.{
  String, true, Option, none, some, List, [], ◌∷◌, ◌≡◌, refl, sym, ap, ◌∙◌, arith, eqb, Result, ok,
  or_throw, >>=-eq-ok, or_throw-eq-ok, or_else, eq_iff, eq_option, ◌==◌, length,
}
use arc_db.Host.{Host}
use arc_db.Contracts.Errors.{Fault}
use arc_db.Contracts.Primitives.{parse_identifier, parse_option, parse_list}
use arc_db.Lifecycle.Policy.Evaluate.{
  Policy, Evaluation, approved, evaluate_evidence_policy, assert_evidence_policy,
}
use arc_db.Lifecycle.Policy.Evaluate.Laws.{assert_evidence_policy-eq-ok}
use arc_db.Lifecycle.Machine.{
  TransitionInput, require_evidence_policy, validate_fencing_token, validate_head_reservation,
  parse_provenance, ProvenanceClosure, FencingToken, HeadReservation,
}

pub validate_fencing_token-eq-ok :
    (host : Host) (f : FencingToken) {u : Unit}
    → validate_fencing_token host f ≡ ok u
    → f.presented_token ≡ f.current_token
unfolding validate_fencing_token
validate_fencing_token-eq-ok host f h = ground (arith)

-- The two heads are the same once each is parsed.
pub record AgreesOnHead (host : Host) (r : HeadReservation) : Type 0 where
  pub observed : Option String
  pub expected : parse_option (parse_identifier host) r.expected_head ≡ ok observed
  pub current : parse_option (parse_identifier host) r.current_head ≡ ok observed

eq_option-eq : (a b : Option String) → eq_option ◌==◌ a b ≡ true → a ≡ b
eq_option-eq none none h = refl
eq_option-eq none (some b) h = cc
eq_option-eq (some a) none h = cc
eq_option-eq (some a) (some b) h = ap some ((eq_iff a b).0 h)

pub validate_head_reservation-eq-ok :
    (host : Host) (id : String) (r : HeadReservation) {u : Unit}
    → validate_head_reservation host id r ≡ ok u
    → AgreesOnHead host r
unfolding validate_head_reservation
validate_head_reservation-eq-ok host id r h =
    let (expected, he, h') = >>=-eq-ok (parse_option (parse_identifier host) r.expected_head) _ h in
    let (current, hc, last) =
      >>=-eq-ok (parse_option (parse_identifier host) r.current_head) _ h' in
    let same : eq_option ◌==◌ expected current ≡ true = ground arith in
    record {
      observed = expected;
      expected = he;
      current = hc ∙ ap ok (sym (eq_option-eq expected current same));
    }

nil_of_parse_list :
    (parse : String → Result Fault String) (xs : List String)
    → parse_list parse xs ≡ ok []
    → xs ≡ []
nil_of_parse_list parse [] h = refl
nil_of_parse_list parse (x ∷ xs) h =
    let (y, hy, h') = >>=-eq-ok (parse x) _ h in
    let (ys, hys, last) = >>=-eq-ok (parse_list parse xs) _ h' in cc

pub parse_provenance-complete :
    (host : Host) (p q : ProvenanceClosure)
    → parse_provenance host p ≡ ok q
    → q.complete ≡ true
    → (p.complete ≡ true) × (p.missing_version_ids ≡ [])
unfolding parse_provenance
parse_provenance-complete host p q h c =
    let (ids, hi, h') = >>=-eq-ok (parse_list (parse_identifier host) p.missing_version_ids) _ h in
    let complete : p.complete ≡ true = ground arith in
    let none_missing : ids ≡ [] = no_items ids (ground arith) in
    (complete, nil_of_parse_list _ _ (hi ∙ ap ok none_missing))
  where
    no_items : (l : List String) → eqb (length l) 0 ≡ true → l ≡ []
    no_items [] e = refl
    no_items (x ∷ xs) e = absurd (ground arith)

pub require_evidence_policy-eq-ok :
    (host : Host) (input : TransitionInput) {v : Evaluation}
    → require_evidence_policy host input ≡ ok v
    → (policy : Policy) × (input.evidence_policy ≡ some policy)
      × (evaluate_evidence_policy host policy
            (or_else input.evidence [])
            input.output.version_id
            input.occurred_at
          ≡ ok v)
      × (v.decision ≡ approved)
unfolding require_evidence_policy
require_evidence_policy-eq-ok host input {v} h =
    let (policy, hp, h₁) = >>=-eq-ok (or_throw input.evidence_policy _) _ h in
    let (w, hw, h₂) =
      >>=-eq-ok
        (evaluate_evidence_policy host policy (or_else input.evidence []) input.output.version_id
          input.occurred_at)
        _ h₁ in
    let (_, agreed, last) = >>=-eq-ok (assert_evidence_policy w) _ h₂ in
    let same : w ≡ v = cc in
    (
      policy,
      or_throw-eq-ok _ _ hp,
      hw ∙ ap ok same,
      rw (← same) ((assert_evidence_policy-eq-ok w).0 agreed),
    )
