-- ===== src/Lifecycle/Policy/Evaluate/Support.antt =====
-- packages/lifecycle/src/evidence-policy.ts: when one round of the loop finds its requirement met.
use mathlib.Core.List.{Memᴰ}
use mathlib.Core.List.Memᴰ
use arc_db.Base.{
  String, true, false, List, [], ◌∷◌, ◌≡◌, refl, sym, ap, ◌∙◌, inl, inr, arith, find, keep, Result,
  ok, >>=-eq-ok, eq_iff, Option-cases,
}
use arc_db.Base.Members.{mem_of_find, not_of_find-none, mem_of_keep, mem-keep}
use arc_db.Host.{Host}
use arc_db.Contracts.Errors.{Fault}
use arc_db.Contracts.Evidence.{Evidence, Verdict, fingerprint_input}
use arc_db.Contracts.Digest.{evidence_fingerprint}
use arc_db.Lifecycle.Policy.{
  Assessment, Freshness, Reason, assess_evidence_freshness, assessment, collect, freshness_tests,
  parse_scope,
}
use arc_db.Lifecycle.Policy.Evaluate.{
  Requirement, Policy, Failure, matched, unmet, Assessed, is_fresh, is_passing, is_candidate,
  confident, judge_fresh, judge_assessed, assess_all, judge, scope_for_requirement,
}

module _ (host : Host) (policy : Policy) (subject now : String) where
  -- A piece of evidence that meets a requirement: about the subject, by the verifier, fresh,
  -- passing, and as confident as asked.
  pub record Meets (req : Requirement) (e : Evidence) : Type 0 where
    pub about : e.subject_version_id ≡ subject
    pub verifier : e.verifier_type ≡ req.verifier_type
    pub current :
        assess_evidence_freshness host e (scope_for_requirement req subject policy now)
        ≡ ok (record { status = Freshness.fresh; reasons = [] })
    pub passes : e.verdict ≡ Verdict.pass
    pub sure : confident req.minimum_confidence e.confidence ≡ true

  pub record IsSupported (evidence : List Evidence) (req : Requirement) : Type 0 where
    pub witness : Evidence
    pub listed : Memᴰ witness evidence
    pub meets : Meets req witness

module _ (req : Requirement) where
  judge_fresh-matched :
      (l fr : List Assessed) {id : String}
      → judge_fresh req l fr ≡ matched id
      → (c : Assessed) × Memᴰ c fr × (is_passing req c ≡ true) × (c.0.id ≡ id)
  unfolding judge_fresh
  judge_fresh-matched l fr h = elim (Option-cases (find (is_passing req) fr)) [
    | inl e ↦ cc (rw (e, judge_fresh) at h)
    | inr (d, e) ↦
        let (m, passes) = mem_of_find (is_passing req) fr e in
        (d, m, passes, cc (rw (e, judge_fresh) at h))
  ]

  judge_fresh-unmet :
      (l fr : List Assessed) {f : Failure}
      → judge_fresh req l fr ≡ unmet f
      → (c : Assessed) → Memᴰ c fr
      → is_passing req c ≡ false
  unfolding judge_fresh
  judge_fresh-unmet l fr h c m = elim (Option-cases (find (is_passing req) fr)) [
    | inl e ↦ not_of_find-none (is_passing req) fr e m
    | inr (x, e) ↦ cc (rw (e, judge_fresh) at h)
  ]

  -- A requirement is matched by a candidate that is fresh and passes,
  judge_assessed-matched :
      (l : List Assessed) {id : String}
      → judge_assessed req l ≡ matched id
      → (c : Assessed) × Memᴰ c l × (is_fresh c ≡ true) × (is_passing req c ≡ true) × (c.0.id ≡ id)
  judge_assessed-matched [] h = cc
  judge_assessed-matched (c ∷ cs) h =
      let (d, m, passes, same) = judge_fresh-matched (c ∷ cs) (keep is_fresh (c ∷ cs)) h in
      let (listed, current) = mem_of_keep is_fresh (c ∷ cs) m in (d, listed, current, passes, same)

  -- and is unmet only if no candidate is both.
  judge_assessed-unmet :
      (l : List Assessed) {f : Failure}
      → judge_assessed req l ≡ unmet f
      → (c : Assessed) → Memᴰ c l
      → is_fresh c ≡ true
      → is_passing req c ≡ false
  judge_assessed-unmet [] h c m current = elim m [ ]
  judge_assessed-unmet (d ∷ ds) h c m current =
      judge_fresh-unmet (d ∷ ds) (keep is_fresh (d ∷ ds)) h c (mem-keep is_fresh (d ∷ ds) m current)

fresh_only :
    (a : Assessment) (rs : List Reason)
    → a ≡ assessment rs
    → a.status ≡ Freshness.fresh
    → a ≡ record { status = Freshness.fresh; reasons = [] }
fresh_only a [] h f = ground arith
fresh_only a (r ∷ rs) h f = ground arith

module _ (host : Host) (policy : Policy) (subject now : String) (req : Requirement) where
  -- What one candidate is assessed to be.
  abbrev assess : Evidence → Result Fault Assessment
  assess e = assess_evidence_freshness host e (scope_for_requirement req subject policy now)

  -- Every candidate has its assessment in the list,
  assess_all-mem :
      (es : List Evidence) {l : List Assessed} {e : Evidence}
      → assess_all host policy subject now req es ≡ ok l
      → Memᴰ e es
      → (a : Assessment) × Memᴰ (e, a) l × (assess e ≡ ok a)
  assess_all-mem [] h m = elim m [ ]
  assess_all-mem (x ∷ es) {l} {e} h m =
      let (a, ha, h') = >>=-eq-ok (assess x) _ h in
      let (rest, hr, last) = >>=-eq-ok (assess_all host policy subject now req es) _ h' in
      let same : (x, a) ∷ rest ≡ l = cc in
      elim (Memᴰ.cases_cons m) [
        | inl p ↦ (a, rw (← same, p) (Memᴰ.head refl), rw p ha)
        | inr k ↦ let (b, mb, hb) = assess_all-mem es hr k in (b, rw (← same) (Memᴰ.tail mb), hb)
      ]

  -- and every item of the list is one.
  mem_of_assess_all :
      (es : List Evidence) {l : List Assessed} {e : Evidence} {a : Assessment}
      → assess_all host policy subject now req es ≡ ok l
      → Memᴰ (e, a) l
      → Memᴰ e es × (assess e ≡ ok a)
  mem_of_assess_all [] {l} {e} {a} h m =
      let none_left : [] ≡ l = cc in absurd (Memᴰ.not-nil (rw (← none_left) at m))
  mem_of_assess_all (x ∷ es) {l} {e} {a} h m =
      let (b, hb, h') = >>=-eq-ok (assess x) _ h in
      let (rest, hr, last) = >>=-eq-ok (assess_all host policy subject now req es) _ h' in
      let same : (x, b) ∷ rest ≡ l = cc in
      elim (Memᴰ.cases_cons (rw (← same) at m)) [
        | inl p ↦
            (Memᴰ.head (ap (λ c. c.0) p), rw (ap (λ c. c.0) p) (hb ∙ ap ok (sym (ap (λ c. c.1) p))))
        | inr k ↦ let (mk, hk) = mem_of_assess_all es hr k in (Memᴰ.tail mk, hk)
      ]

  -- An assessment that is fresh has no reasons.
  assess-fresh :
      (e : Evidence) {a : Assessment}
      → assess e ≡ ok a
      → is_fresh (e, a) ≡ true
      → a ≡ record { status = Freshness.fresh; reasons = [] }
  unfolding assess_evidence_freshness
  assess-fresh e {a} h f =
      let (scope, _, h') =
        >>=-eq-ok (parse_scope host (scope_for_requirement req subject policy now)) _ h in
      let (actual, _, last) = >>=-eq-ok (evidence_fingerprint host (fingerprint_input e)) _ h' in
      fresh_only a (collect (freshness_tests host e scope actual)) (cc) (ground arith)

  pub judge-matched :
      (es : List Evidence) {id : String}
      → judge host policy subject now es req ≡ ok (matched id)
      → (s : IsSupported host policy subject now es req) × (s.witness.id ≡ id)
  unfolding judge
  judge-matched es h =
      let (l, hl, last) =
        >>=-eq-ok (assess_all host policy subject now req (keep (is_candidate subject req) es)) _
          h in
      let ((e, a), m, current, passes, same) = judge_assessed-matched req l (cc) in
      let (mk, ha) = mem_of_assess_all (keep (is_candidate subject req) es) hl m in
      let (listed, candidate) = mem_of_keep (is_candidate subject req) es mk in
      (
        record {
          witness = e;
          listed = listed;
          meets = record {
            about = ground (arith, eq_iff e.subject_version_id subject);
            verifier = ground (arith, eq_iff e.verifier_type req.verifier_type);
            current = ha ∙ ap ok (assess-fresh e ha current);
            passes = ground arith;
            sure = ground arith;
          };
        },
        same,
      )

  pub judge-unmet :
      (es : List Evidence) {f : Failure}
      → judge host policy subject now es req ≡ ok (unmet f)
      → ¬ (IsSupported host policy subject now es req)
  unfolding judge
  judge-unmet es {f} h s =
      let (l, hl, last) =
        >>=-eq-ok (assess_all host policy subject now req (keep (is_candidate subject req) es)) _
          h in
      let candidate : is_candidate subject req s.witness ≡ true = ground (
        arith,
        eq_iff s.witness.subject_version_id subject,
        eq_iff s.witness.verifier_type req.verifier_type,
      ) in
      let mk = mem-keep (is_candidate subject req) es s.listed candidate in
      let (a, ma, ha) = assess_all-mem (keep (is_candidate subject req) es) hl mk in
      let same : a ≡ record { status = Freshness.fresh; reasons = [] } =
        ground (arith, s.meets.current) in
      let current : is_fresh (s.witness, a) ≡ true = rw same in
      let fails = judge_assessed-unmet req l {f = f} (cc) (s.witness, a) ma current in ground arith
