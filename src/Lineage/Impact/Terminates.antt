-- ===== src/Lineage/Impact/Terminates.antt =====
-- packages/lineage/src/impact.ts: the loop ends. Every round but the idle ones passes a selector of a
-- version on for the first time, and there are finitely many of both.
use mathlib.Core.List.{Memᴰ}
use mathlib.Core.List.Memᴰ
use arc_db.Base.{
  ℕ, suc, zero, ◌+◌, ◌*◌, ◌≤◌, ◌<◌, String, Bool, true, false, not, some, or_else, List, [], ◌∷◌,
  ◌++◌, map, includes, keep, length, eqb, ◌≡◌, inl, inr, refl, sym, ◌∙◌, ap, Result, ok, err,
  >>=-eq-ok, ◌==◌, eq_iff, eq_refl, arith, Bool-cases,
}
use arc_db.Base.Members.{mem_of_includes, includes-mem}
use arc_db.Base.Counts.{
  length-append, length-keep, length-sort, length-keep-lt, length-map, pairs, length-pairs,
  mem-pairs,
}
use arc_db.Host.{Host}
use arc_db.Contracts.Errors.{Fault}
use arc_db.Contracts.Lineage.{Selector, Edge}
use arc_db.Lineage.Selectors.{set_entry}
use arc_db.Lineage.Impact.{
  Input, State, lookup, outgoing, selector_key, visit_edge, visit_edges, visit, loop, initial,
}
use arc_db.Lineage.Impact.Maps.{lookup-set_entry, mem_of_unseen}
use arc_db.Lineage.Impact.Steps.{IsVocabulary, visit_edge-Outcome}
use arc_db.Lineage.Impact.Rounds.{Round, NodesIn, visit-cases, visit-NodesIn}
use arc_db.Lineage.Impact.Sound.{any_vocabulary, initial-NodesIn}

-- The selector with this key has been passed on from the version.
abbrev pub has_passed : List (String × List String) → String × String → Bool
has_passed propagated (id, key) = includes ◌==◌ (or_else (lookup id propagated) []) key

-- How many of the pairs of a version and a key have still to be passed on.
abbrev pub left : List (String × String) → List (String × List String) → ℕ
left all propagated = length (keep (λ p. not (has_passed propagated p)) all)

has_passed-set :
    (propagated : List (String × List String)) (source : String) (keys : List String)
    (p : String × String)
    → has_passed propagated p ≡ true
    → has_passed (set_entry source (or_else (lookup source propagated) [] ++ keys) propagated) p
      ≡ true
has_passed-set propagated source keys (id, key) h =
    let already = or_else (lookup source propagated) [] in
    let stored = lookup-set_entry source id (already ++ keys) propagated in
    elim (Bool-cases (source == id)) [
      | inl same ↦
          let e : source ≡ id = (eq_iff source id).0 same in
          let m : Memᴰ key already = mem_of_includes already (rw e h) in
          rw (stored, same) (includes-mem (already ++ keys) (Memᴰ.append_left keys m))
      | inr other ↦ rw (stored, other) h
    ]

has_passed-new :
    (propagated : List (String × List String)) (source key : String) (keys : List String)
    → Memᴰ key keys
    → has_passed
        (set_entry source (or_else (lookup source propagated) [] ++ keys) propagated)
        (source, key)
      ≡ true
has_passed-new propagated source key keys m =
    let already = or_else (lookup source propagated) [] in
    let stored = lookup-set_entry source source (already ++ keys) propagated in
    rw (stored, eq_refl source) (includes-mem (already ++ keys) (Memᴰ.append_right already m))

first_of :
    (cs : List (String × Selector))
    → eqb (length cs) 0 ≡ false
    → (c : String × Selector) × Memᴰ c cs
first_of [] h = cc
first_of (c ∷ cs) h = (c, Memᴰ.head refl)

module _ (host : Host) (input : Input) where
  -- An edge adds one version to the queue at most.
  visit_edge-grows :
      (generation : ℕ) (values : List Selector) (st : State) (e : Edge) {st' : State}
      → visit_edge host input generation values st e ≡ ok st'
      → (length st'.queue ≤ length st.queue + 1) × (st'.propagated ≡ st.propagated)
  visit_edge-grows generation values st e {st'} h =
      elim (visit_edge-Outcome host input (any_vocabulary host input) generation values st e
        (λ s m. tt) h) [
          | inl stays ↦ (omega (arith, ap length stays.queue), stays.propagated)
          | inr (passed, known, r) ↦ (
            ground (arith, ap length r.queued, length-append st.queue (e.target_version_id ∷ [])),
            r.kept,
          )
        ]

  visit_edges-grows :
      (generation : ℕ) (values : List Selector) (es : List Edge) (st : State) {st' : State}
      → visit_edges host input generation values es st ≡ ok st'
      → (length st'.queue ≤ length st.queue + length es) × (st'.propagated ≡ st.propagated)
  visit_edges-grows generation values [] st {st'} h =
      let e : st ≡ st' = cc in
      (
        omega (arith, ap (λ (x : State). length x.queue) e),
        ap (λ (x : State). x.propagated) (sym e),
      )
  visit_edges-grows generation values (e ∷ es) st h =
      let (next, p, h1) = >>=-eq-ok (visit_edge host input generation values st e) _ h in
      let (a, b) = visit_edge-grows generation values st e p in
      let (c, d) = visit_edges-grows generation values es next h1 in (omega (arith, a, c), d ∙ b)

  length-outgoing :
      (edges : List Edge) (source : String) → length (outgoing host edges source) ≤ length edges
  length-outgoing edges source = omega (
    arith,
    length-sort _ (keep (λ e. e.source_version_id == source) edges),
    length-keep (λ e. e.source_version_id == source) edges,
  )

  module _ {P : Selector → Type 0} (vocabulary : IsVocabulary host input P) (ids keys : List String)
      (keyed : (s : Selector) (key : String)
        → P s
        → selector_key host s ≡ ok key
        → Memᴰ key keys) where
    abbrev InBounds : State → Type 0
    InBounds = NodesIn host input (λ id. Memᴰ id ids) P

    abbrev measure : List Edge → State → ℕ
    measure edges st = left (pairs ids keys) st.propagated * (length edges + 1) + length st.queue

    -- A round that is not idle passes one more selector on.
    Round-left :
        (edges : List Edge) (source : String) (st st' : State)
        → InBounds st
        → Round host input edges source st st'
        → left (pairs ids keys) st'.propagated < left (pairs ids keys) st.propagated
    Round-left edges source st st' bounds round =
        let added = map (λ (c : String × Selector). c.0) round.changed in
        let (known, known') = bounds source round.node round.found in
        let ((key, s), m) = first_of round.changed round.nonempty in
        let (held, k, unseen) = mem_of_unseen host _ _ round.unseen_lem m in
        let after_round =
          set_entry source (or_else (lookup source st.propagated) [] ++ added) st.propagated in
        let same = (visit_edges-grows _ _ _ _ round.visited).1 in
        let new =
          has_passed-new st.propagated source key added
            (Memᴰ.map (λ (c : String × Selector). c.0) m) in
        let less : left (pairs ids keys) after_round < left (pairs ids keys) st.propagated =
          length-keep-lt (λ p. not (has_passed st.propagated p))
            (λ p. not (has_passed after_round p)) (pairs ids keys) (source, key)
            (λ p h. ground (arith, has_passed-set st.propagated source added p))
            (mem-pairs ids keys known (keyed s key (known' s held) k)) (ground arith)
            (ground (arith, new)) in
        rw same less

    visit-measure :
        (edges : List Edge) (source : String) (rest : List String) (st st' : State)
        → InBounds st
        → visit host input edges source (record st { queue = rest }) ≡ ok st'
        → measure edges st' < measure edges (record st { queue = source ∷ rest })
    visit-measure edges source rest st st' bounds h =
        elim (visit-cases host input edges source (record st { queue = rest }) h) [
          | inl (e, idle) ↦ rw e (omega arith)
          | inr round ↦
              let less = Round-left edges source (record st { queue = rest }) st' bounds round in
              let grown = (visit_edges-grows _ _ _ _ round.visited).0 in
              grind (arith, less, grown, length-outgoing edges source)
        ]

    loop-returns :
        (edges : List Edge) (fuel : ℕ) (queue : List String) (st : State)
        → ((e : Edge) → Memᴰ e edges → Memᴰ e.target_version_id ids)
        → InBounds st
        → measure edges (record st { queue = queue }) < fuel
        → (r : Result Fault State) × (loop host input edges fuel queue st ≡ some r)
    unfolding loop
    loop-returns edges zero queue st targets bounds less = absurd (omega (arith, less))
    loop-returns edges (suc fuel) [] st targets bounds less = (ok st, refl)
    loop-returns edges (suc fuel) (source ∷ rest) st targets bounds less =
        go (visit host input edges source (record st { queue = rest })) refl
          (λ next. loop-returns edges fuel next.queue next targets)
      where
        go :
            (r : Result Fault State)
            → visit host input edges source (record st { queue = rest }) ≡ r
            → ((next : State)
                → InBounds next
                → measure edges next < fuel
                → (s : Result Fault State) × (loop host input edges fuel next.queue next ≡ some s))
            → (s : Result Fault State) × (elim r [
              | err thrown ↦ some (err thrown)
              | ok next ↦ loop host input edges fuel next.queue next
            ]
                ≡ some s)
        go (err thrown) p again = (err thrown, refl)
        go (ok next) p again =
            again next
              (visit-NodesIn host input vocabulary (λ id. Memᴰ id ids) edges source
                (record st { queue = rest }) next (λ e m k. targets e m) bounds p)
              (omega (arith, less, visit-measure edges source rest st next bounds p))

below : (a b n fuel : ℕ) → a ≤ b → b * n + 1 < fuel → a * n + 1 < fuel
below a b n fuel h k = grind arith

target_of_edge : Edge → String
target_of_edge e = e.target_version_id

-- The loop ends, with a result or with what a callback or a schema throws, once the fuel exceeds a
-- bound in the number of edges and of keys: the selectors of the delta are of a vocabulary that the
-- transfer functions keep to and whose keys are among the given ones.
pub loop-ends :
    (host : Host) (input : Input) {P : Selector → Type 0} (vocabulary : IsVocabulary host input P)
    (keys : List String)
    (keyed : (s : Selector) (key : String) → P s → selector_key host s ≡ ok key → Memᴰ key keys)
    (edges : List Edge) (source : String) (selectors : List Selector)
    (known : (s : Selector) → Memᴰ s selectors → P s) (fuel : ℕ)
    → (length edges + 1) * length keys * (length edges + 1) + 1 < fuel
    → (r : Result Fault State) × (loop host input edges fuel
          (source ∷ [])
          (initial host input source selectors)
        ≡ some r)
unfolding target_of_edge
loop-ends host input {P} vocabulary keys keyed edges source selectors known fuel enough =
    let ids = source ∷ map target_of_edge edges in
    let size : length ids ≡ length edges + 1 = omega (arith, length-map target_of_edge edges) in
    let all_pairs : left (pairs ids keys) [] ≤ (length edges + 1) * length keys =
      let counted = length-keep (λ p. not (has_passed [] p)) (pairs ids keys) in
      let product : length (pairs ids keys) ≡ (length edges + 1) * length keys =
        length-pairs ids keys ∙ ap (λ n. n * length keys) size in
      omega (arith, counted, product) in
    loop-returns host input vocabulary ids keys keyed edges fuel (source ∷ [])
      (initial host input source selectors) (λ e m. Memᴰ.tail (Memᴰ.map target_of_edge m))
      (initial-NodesIn host input (λ id. Memᴰ id ids) P source selectors (Memᴰ.head refl) known)
      (below (left (pairs ids keys) []) _ (length edges + 1) fuel all_pairs enough)
