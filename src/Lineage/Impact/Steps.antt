-- ===== src/Lineage/Impact/Steps.antt =====
-- What one edge of packages/lineage/src/impact.ts does to the state of the analysis: nothing but a
-- record that it was skipped, or its target gains the selectors that reach it.
use mathlib.Core.List.{Memᴰ}
use mathlib.Core.List.Memᴰ
use arc_db.Base.{
  ℕ, ◌+◌, min, String, true, not, ◌&&◌, ◌||◌, eq_option, Option, none, some, is_some, or_else, List,
  [], ◌∷◌, ◌++◌, any, includes, ◌≡◌, ◌⊎◌, inl, inr, refl, sym, ◌∙◌, ap, Result, ok, ◌>>=◌,
  >>=-eq-ok, Returns, after, at_end, ◌==◌, if◌then◌else◌, Bool-cases,
}
use arc_db.Host.{Host}
use arc_db.Contracts.Errors.{Fault}
use arc_db.Contracts.Lineage.{Selector, Edge, parse_selector}
use arc_db.Lineage.Selectors.{
  unknown_selector, set_entry, unique_selectors, selectors_intersect, selector_sets_intersect,
}
use arc_db.Lineage.Impact.{
  Input, State, AffectedNode, Transfer, Flow, stops, reaches, ReasonCode, lookup, selector_keys,
  skip, dependency, judge, unavailable, consult, check_fingerprint, recomputed, settle, reach,
  visit_edge, selector_disjoint, target_of, arrive, add_text,
}
use arc_db.Lineage.Impact.Maps.{mem_of_unique, sets_intersect-mem}

-- The selectors of a version: none before it is affected.
abbrev pub selectors_at : Option AffectedNode → List Selector
selectors_at none = []
selectors_at (some node) = node.selectors

-- A collection of selectors that an analysis does not leave: the selector of unscoped edges is in it,
-- parsing stays in it, and transfer functions answer within it.
pub record IsVocabulary (host : Host) (input : Input) (P : Selector → Type 0) : Type 0 where
  pub has_unknown : P unknown_selector
  pub parsed : (s t : Selector) → P s → parse_selector host s ≡ ok t → P t
  pub transferred :
      (name : String) (function : Edge → List Selector → Result Fault Transfer) (edge : Edge)
      (changed : List Selector) (result : Transfer) (passed : List Selector)
      → input.transfer_functions name ≡ some function
      → ((s : Selector) → Memᴰ s changed → P s)
      → function edge changed ≡ ok result
      → result.selectors ≡ some passed
      → (s : Selector) → Memᴰ s passed
      → P s

-- The callbacks have no say in what goes along the edge: it names no transfer function, or one that
-- is not there.
abbrev pub IsLive : Input → Edge → Type 0
IsLive input edge =
    (name : String) → edge.transfer_function ≡ some name → input.transfer_functions name ≡ none

module _ (host : Host) (input : Input) where
  -- The target of the edge has been given the selectors `passed`.
  pub record Reached (edge : Edge) (passed : List Selector) (st st' : State) : Type 0 where
    pub existing : List String
    pub keys : List String
    pub node : AffectedNode
    pub existing_lem :
        selector_keys host (selectors_at (lookup edge.target_version_id st.affected)) ≡ ok existing
    pub keys_lem : selector_keys host passed ≡ ok keys
    pub united :
        unique_selectors host (selectors_at (lookup edge.target_version_id st.affected) ++ passed)
        ≡ ok node.selectors
    pub set : st'.affected ≡ set_entry edge.target_version_id node st.affected
    pub queued : st'.queue ≡ (
        if any (λ k. not (includes ◌==◌ existing k)) keys
          || not (is_some (lookup edge.target_version_id st.propagated))
        then st.queue ++ edge.target_version_id ∷ []
        else st.queue)
    pub kept : st'.propagated ≡ st.propagated

  selectors_lem :
      (edge : Edge) (generation : ℕ) (st : State)
      → (target_of edge generation st).selectors
        ≡ selectors_at (lookup edge.target_version_id st.affected)
  selectors_lem edge generation st = go (lookup edge.target_version_id st.affected)
    where
      go :
          (o : Option AffectedNode)
          → (or_else o (record {
            version_id = edge.target_version_id;
            generation = generation;
            selectors = [];
            via_edge_ids = [];
          })).selectors
            ≡ selectors_at o
      go none = refl
      go (some node) = refl

  reach-Reached :
      (edge : Edge) (generation : ℕ) (passed : List Selector) (reason : ReasonCode)
      (detail : String) (st : State) {st' : State}
      → reach host input edge generation passed reason detail st ≡ ok st'
      → Reached edge passed st st'
  unfolding reach
  reach-Reached edge generation passed reason detail st {st'} h =
      let old = (target_of edge generation st).selectors in
      let e = selectors_lem edge generation st in
      let (existing, p, h1) = >>=-eq-ok (selector_keys host old) _ h in
      let (keys, q, h2) = >>=-eq-ok (selector_keys host passed) _ h1 in
      let (selectors, r, h3) = >>=-eq-ok (unique_selectors host (old ++ passed)) _ h2 in
      let f : st' ≡ arrive edge generation reason detail st existing keys selectors = cc in
      record {
        existing = existing;
        keys = keys;
        node = arrived selectors;
        existing_lem = ap (selector_keys host) (sym e) ∙ p;
        keys_lem = q;
        united = ap (λ ss. unique_selectors host (ss ++ passed)) (sym e) ∙ r;
        set = ap (λ (x : State). x.affected) f;
        queued = ap (λ (x : State). x.queue) f;
        kept = ap (λ (x : State). x.propagated) f;
      }
    where
      arrived : List Selector → AffectedNode
      arrived ss =
          let target = target_of edge generation st in
          record target {
            generation = min target.generation generation;
            selectors = ss;
            via_edge_ids = add_text target.via_edge_ids edge.id;
          }

  -- An edge at which the delta stops leaves these as they are.
  pub record Stays (st st' : State) : Type 0 where
    pub affected : st'.affected ≡ st.affected
    pub queue : st'.queue ≡ st.queue
    pub propagated : st'.propagated ≡ st.propagated

  abbrev FlowIn : (Selector → Type 0) → Flow → Type 0
  FlowIn P (stops reason detail) = Unit
  FlowIn P (reaches passed reason detail) = (s : Selector) → Memᴰ s passed → P s

  -- What an edge may do.
  abbrev pub Outcome : (Selector → Type 0) → Edge → State → State → Type 0
  Outcome P edge st st' =
      Stays st st'
      ⊎ ((passed : List Selector) × ((s : Selector) → Memᴰ s passed → P s)
          × Reached edge passed st st')

  skip-Stays :
      (edge : Edge) (reason : ReasonCode) (detail : String) (st : State) (n : ℕ) {st' : State}
      → st' ≡ skip edge reason detail (record st { visited = n })
      → Stays st st'
  skip-Stays edge reason detail st n e = record {
    affected = ap (λ (x : State). x.affected) e;
    queue = ap (λ (x : State). x.queue) e;
    propagated = ap (λ (x : State). x.propagated) e;
  }

  -- The count of visited edges makes no difference.
  rebased :
      (edge : Edge) (passed : List Selector) (st : State) (n : ℕ) {st' : State}
      → Reached edge passed (record st { visited = n }) st'
      → Reached edge passed st st'
  rebased edge passed st n r = record {
    existing = r.existing;
    keys = r.keys;
    node = r.node;
    existing_lem = r.existing_lem;
    keys_lem = r.keys_lem;
    united = r.united;
    set = r.set;
    queued = r.queued;
    kept = r.kept;
  }

  rebase :
      {P : Selector → Type 0} {edge : Edge} (st : State) (n : ℕ) {st' : State}
      → Outcome P edge (record st { visited = n }) st'
      → Outcome P edge st st'
  rebase st n (inl t) =
      inl (record { affected = t.affected; queue = t.queue; propagated = t.propagated })
  rebase {edge} st n (inr (passed, f, r)) = inr (passed, f, rebased edge passed st n r)

  module _ {P : Selector → Type 0} (vocabulary : IsVocabulary host input P) where
    open vocabulary use {has_unknown, parsed, transferred}

    singleton_in : (s : Selector) → Memᴰ s (unknown_selector ∷ []) → P s
    singleton_in s m = rw (Memᴰ.eq_of_singleton m) has_unknown

    pub united_in :
        (ss : List Selector) {ts : List Selector}
        → ((s : Selector) → Memᴰ s ss → P s)
        → unique_selectors host ss ≡ ok ts
        → (t : Selector) → Memᴰ t ts
        → P t
    united_in ss known h t m = let (s, k, p) = mem_of_unique host ss h m in parsed s t (known s k) p

    or_unknown :
        (o : Option (List Selector))
        → ((ss : List Selector) → o ≡ some ss → (s : Selector) → Memᴰ s ss → P s)
        → (s : Selector) → Memᴰ s (or_else o (unknown_selector ∷ []))
        → P s
    or_unknown none known = singleton_in
    or_unknown (some ss) known = known ss refl

    judge-FlowIn :
        (name : String) (result : Transfer)
        → ((ss : List Selector) → result.selectors ≡ some ss → (s : Selector) → Memᴰ s ss → P s)
        → Returns (FlowIn P) (judge host input name result)
    judge-FlowIn name result known = elim (Bool-cases result.affected) [
      | inl goes ↦ rw goes λ flow h.
          let given = or_else result.selectors (unknown_selector ∷ []) in
          let (passed, p, h1) = >>=-eq-ok (unique_selectors host given) _ h in
          at_end (FlowIn P) _ (united_in given (or_unknown result.selectors known) p) flow h1
      | inr stopped ↦ rw stopped (at_end (FlowIn P) _ tt)
    ]

    function-FlowIn :
        (edge : Edge) (changed : List Selector) (name : String)
        (o : Option (Edge → List Selector → Result Fault Transfer))
        → input.transfer_functions name ≡ o
        → ((s : Selector) → Memᴰ s changed → P s)
        → Returns (FlowIn P) (elim o [
          | none ↦ ok (unavailable host input name)
          | some function ↦ function edge changed >>= judge host input name
        ])
    function-FlowIn edge changed name none e known flow h = at_end (FlowIn P) _ singleton_in flow h
    function-FlowIn edge changed name (some function) e known flow h =
        let (result, p, h1) = >>=-eq-ok (function edge changed) _ h in
        judge-FlowIn name result
          (λ ss q. transferred name function edge changed result ss e known p q) flow h1

    consult-FlowIn :
        (edge : Edge) (changed : List Selector) (o : Option String)
        → ((s : Selector) → Memᴰ s changed → P s)
        → Returns (FlowIn P) (consult host input edge changed o)
    consult-FlowIn edge changed none known = at_end (FlowIn P) _ singleton_in
    consult-FlowIn edge changed (some name) known =
        function-FlowIn edge changed name (input.transfer_functions name) refl known

    fingerprint-FlowIn :
        (edge : Edge) (flow : Flow)
        → FlowIn P flow
        → Returns (FlowIn P) (check_fingerprint host input edge flow)
    fingerprint-FlowIn edge (stops reason detail) f = at_end (FlowIn P) _ tt
    fingerprint-FlowIn edge (reaches passed reason detail) f = go input.fingerprint_resolver
      where
        flow : Flow
        flow = reaches passed reason detail

        previous : Option String
        previous = input.current_fingerprints edge.target_version_id

        kept : (next : String) → FlowIn P (recomputed host input flow previous next)
        kept next = elim (Bool-cases (is_some previous && eq_option ◌==◌ previous (some next))) [
          | inl same ↦ rw same tt
          | inr other ↦ rw other f
        ]

        go :
            (o : Option (Edge → List Selector → Option String → Result Fault String))
            → Returns (FlowIn P) (elim o [
              | none ↦ ok flow
              | some resolver ↦ resolver edge passed previous >>= λ next.
                  ok (recomputed host input flow previous next)
            ])
        go none = at_end (FlowIn P) _ f
        go (some resolver) =
            after (FlowIn P) (resolver edge passed previous) _
              (λ next. at_end (FlowIn P) _ (kept next))

    settle-cases :
        (edge : Edge) (generation : ℕ) (st : State) (flow : Flow) {st' : State}
        → FlowIn P flow
        → settle host input edge generation st flow ≡ ok st'
        → Outcome P edge st st'
    settle-cases edge generation st (stops reason detail) f h =
        inl (skip-Stays edge reason detail st st.visited cc)
    settle-cases edge generation st (reaches passed reason detail) f h =
        inr (passed, f, reach-Reached edge generation passed reason detail st h)

    -- What an edge does, whether the delta stops there or goes on within the vocabulary.
    pub visit_edge-Outcome :
        (generation : ℕ) (changed : List Selector) (st : State) (edge : Edge) {st' : State}
        → ((s : Selector) → Memᴰ s changed → P s)
        → visit_edge host input generation changed st edge ≡ ok st'
        → Outcome P edge st st'
    unfolding visit_edge
    visit_edge-Outcome generation changed st edge {st'} known h =
        let before : State = record st { visited = st.visited + 1 } in
        let text : String = "Changed components do not intersect the dependency selector" in
        let (meets, p, h1) =
          >>=-eq-ok (selector_sets_intersect host changed (dependency edge ∷ [])) _ h in
        elim (Bool-cases meets) [
          | inl m ↦
              let (flow, q, h2) =
                >>=-eq-ok (consult host input edge changed edge.transfer_function) _ (rw m at h1) in
              let (checked, r, h3) = >>=-eq-ok (check_fingerprint host input edge flow) _ h2 in
              let f = consult-FlowIn edge changed edge.transfer_function known flow q in
              rebase st (st.visited + 1) (
                settle-cases edge generation before checked
                  (fingerprint-FlowIn edge flow f checked r) h3)
          | inr m ↦
              let e : ok (skip edge selector_disjoint text before) ≡ ok st' = rw m at h1 in
              inl (skip-Stays edge selector_disjoint text st (st.visited + 1) cc)
        ]

  abbrev Goes : Flow → Type 0
  Goes (stops reason detail) = ⊥
  Goes (reaches passed reason detail) = Unit

  consult-Goes :
      (edge : Edge) (changed : List Selector) (o : Option String)
      → ((name : String) → o ≡ some name → input.transfer_functions name ≡ none)
      → Returns Goes (consult host input edge changed o)
  consult-Goes edge changed none live = at_end Goes _ tt
  consult-Goes edge changed (some name) live = rw (consult, live name refl) (at_end Goes _ tt)

  check_fingerprint-silent :
      (edge : Edge) (flow : Flow)
      → input.fingerprint_resolver ≡ none
      → check_fingerprint host input edge flow ≡ ok flow
  check_fingerprint-silent edge (stops reason detail) silent = refl
  check_fingerprint-silent edge (reaches passed reason detail) silent = rw silent refl

  settle-Reached :
      (edge : Edge) (generation : ℕ) (st : State) (flow : Flow) {st' : State}
      → Goes flow
      → settle host input edge generation st flow ≡ ok st'
      → (passed : List Selector) × Reached edge passed st st'
  settle-Reached edge generation st (stops reason detail) goes h = absurd goes
  settle-Reached edge generation st (reaches passed reason detail) goes h =
      (passed, reach-Reached edge generation passed reason detail st h)

  -- Where no callback has a say, a dependency that meets one of the changed selectors has its target
  -- affected.
  pub visit_edge-live :
      (generation : ℕ) (changed : List Selector) (st : State) (edge : Edge) {st' : State}
      {s : Selector}
      → input.fingerprint_resolver ≡ none
      → IsLive input edge
      → visit_edge host input generation changed st edge ≡ ok st'
      → Memᴰ s changed
      → selectors_intersect host s (dependency edge) ≡ ok true
      → (passed : List Selector) × Reached edge passed st st'
  unfolding visit_edge
  visit_edge-live generation changed st edge {st'} {s} silent live h m k =
      let (meets, p, h1) =
        >>=-eq-ok (selector_sets_intersect host changed (dependency edge ∷ [])) _ h in
      let met : meets ≡ true = sets_intersect-mem host changed (dependency edge) p m k in
      let (flow, q, h2) =
        >>=-eq-ok (consult host input edge changed edge.transfer_function) _ (rw met at h1) in
      let goes = consult-Goes edge changed edge.transfer_function live flow q in
      let h3 = rw (check_fingerprint-silent edge flow silent) at h2 in
      let (passed, r) =
        settle-Reached edge generation (record st { visited = st.visited + 1 }) flow goes h3 in
      (passed, rebased edge passed st (st.visited + 1) r)
