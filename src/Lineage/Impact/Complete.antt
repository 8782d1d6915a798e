-- ===== src/Lineage/Impact/Complete.antt =====
-- packages/lineage/src/impact.ts: the rounds keep the analysis closed, so that at its end no version
-- is missed.
use mathlib.Core.List.{Memᴰ}
use mathlib.Core.List.Memᴰ
use arc_db.Base.{
  ℕ, ◌+◌, String, true, none, some, or_else, List, [], ◌∷◌, ◌++◌, map, ◌≡◌, ◌⊎◌, inl, inr, sym, ◌∙◌,
  ap, ok, >>=-eq-ok, ◌==◌, eq_iff, eq_refl, arith, Bool-cases,
}
use arc_db.Base.Members.{mem_of_map, mem_of_includes, mem-keep, mem-sort}
use arc_db.Host.{Host}
use arc_db.Contracts.Lineage.{Selector, Edge}
use arc_db.Lineage.Selectors.{set_entry, selectors_intersect}
use arc_db.Lineage.Impact.{
  Input, State, AffectedNode, lookup, outgoing, dependency, selector_key, unseen, visit_edge,
  visit_edges, visit, loop, initial,
}
use arc_db.Lineage.Impact.Maps.{lookup-set_entry, unseen-mem, mem_of_unseen}
use arc_db.Lineage.Impact.Steps.{IsVocabulary, IsLive, visit_edge-Outcome, visit_edge-live}
use arc_db.Lineage.Impact.Rounds.{visit-cases, visit_edges-keeps, loop-keeps}
use arc_db.Lineage.Impact.Sound.{initial-NodesIn}
use arc_db.Lineage.Impact.Closed.{
  Hit, IsCanonical, Covered, IsClosed, Outcome-Hit, Reached-Hit, Outcome-IsClosed,
}

module _ (host : Host) (input : Input) (edges : List Edge) {P : Selector → Type 0}
    (vocabulary : IsVocabulary host input P) (canonical : IsCanonical host P)
    (silent : input.fingerprint_resolver ≡ none) where
  open canonical use {injective}

  abbrev Closed : (String → Selector → Type 0) → State → Type 0
  Closed = IsClosed host input edges vocabulary canonical

  -- What a version has still to pass on.
  abbrev Waits : String → List Selector → String → Selector → Type 0
  Waits source values id s = (id ≡ source) × Memᴰ s values

  -- Each live edge of a round has its target affected at the end of the round.
  edges-Hit :
      (generation : ℕ) (values : List Selector) (es : List Edge) (st : State) {st' : State}
      → ((s : Selector) → Memᴰ s values → P s)
      → visit_edges host input generation values es st ≡ ok st'
      → (s : Selector) → Memᴰ s values
      → (e : Edge) → Memᴰ e es
      → IsLive input e
      → selectors_intersect host s (dependency e) ≡ ok true
      → Hit st' e.target_version_id
  edges-Hit generation values [] st known h s m e l live k = elim l [ ]
  edges-Hit generation values (f ∷ es) st {st'} known h s m e l live k =
      let (next, p, h1) = >>=-eq-ok (visit_edge host input generation values st f) _ h in
      elim (Memᴰ.cases_cons l) [
        | inl g ↦
            let (passed, r) =
              visit_edge-live host input generation values st e silent live (rw g p) m k in
            visit_edges-keeps host input (λ x. Hit x e.target_version_id) generation values es next
              (λ d a b n i v.
                Outcome-Hit host input edges vocabulary canonical d a b e.target_version_id i
                  (visit_edge-Outcome host input vocabulary generation values a d known v))
              (Reached-Hit host input edges vocabulary canonical e passed st next r) h1
        | inr l' ↦ edges-Hit generation values es next known h1 s m e l' live k
      ]

  -- A version with nothing new has all its selectors covered.
  idle-Covered :
      (st : State) (id : String) (s : Selector) (ss : List Selector)
      (changed : List (String × Selector))
      → Closed (λ i t. ⊥) st
      → ((t : Selector) → Memᴰ t ss → P t)
      → unseen host (or_else (lookup id st.propagated) []) ss ≡ ok changed
      → Memᴰ s ss
      → Covered host input edges st id s ⊎ Memᴰ s (map (λ (c : String × Selector). c.1) changed)
  idle-Covered st id s ss changed closed known u m =
      let (key, p, o) = unseen-mem host _ ss u m in
      elim o [
        | inl seen ↦ elim (closed.done id key s (known s m) p (mem_of_includes _ seen)) [
          | inl c ↦ inl c
          | inr x ↦ absurd x
        ]
        | inr new ↦ inr (Memᴰ.map (λ (c : String × Selector). c.1) new)
      ]

  -- A key that has been passed on, before this round or in it.
  set_done :
      (st : State) (source id key : String) (s : Selector) (node : AffectedNode)
      (changed : List (String × Selector))
      → Closed (λ i t. ⊥) st
      → lookup source st.affected ≡ some node
      → unseen host (or_else (lookup source st.propagated) []) node.selectors ≡ ok changed
      → P s
      → selector_key host s ≡ ok key
      → Memᴰ key (
          or_else
            (lookup id (
              set_entry source
                (or_else (lookup source st.propagated) []
                  ++ map (λ (c : String × Selector). c.0) changed)
                st.propagated))
            [])
      → Covered host input edges st id s
        ⊎ Waits source (map (λ (c : String × Selector). c.1) changed) id s
  set_done st source id key s node changed closed found u p q m =
      let already = or_else (lookup source st.propagated) [] in
      let added = already ++ map (λ (c : String × Selector). c.0) changed in
      let earlier : (i : String)
          → Memᴰ key (or_else (lookup i st.propagated) [])
          → Covered host input edges st i s
            ⊎ Waits source (map (λ (c : String × Selector). c.1) changed) i s =
        λ i k. elim (closed.done i key s p q k) [ inl c ↦ inl c | inr x ↦ absurd x ] in
      let stored = lookup-set_entry source id added st.propagated in
      elim (Bool-cases (source == id)) [
        | inl same ↦
            let e : source ≡ id = (eq_iff source id).0 same in
            let k : Memᴰ key added = rw (stored, same) at m in
            elim (Memᴰ.append_cases already k) [
              | inl before ↦ rw (← e) (earlier source before)
              | inr now ↦
                  let (c, l, f) = mem_of_map (λ (c : String × Selector). c.0) changed now in
                  let (held, g, _) = mem_of_unseen host already node.selectors u l in
                  let t : s ≡ c.1 =
                    injective s c.1 key p ((closed.nodes source node found).1 c.1 held) q
                      (g ∙ ap ok (sym f)) in
                  inr (sym e, rw t (Memᴰ.map (λ (c : String × Selector). c.1) l))
            ]
        | inr other ↦ earlier id (rw (stored, other) at m)
      ]

  start_round :
      (st : State) (source : String) (rest : List String) (node : AffectedNode)
      (changed : List (String × Selector))
      → Closed (λ i t. ⊥) (record st { queue = source ∷ rest })
      → lookup source st.affected ≡ some node
      → unseen host (or_else (lookup source st.propagated) []) node.selectors ≡ ok changed
      → Closed (Waits source (map (λ (c : String × Selector). c.1) changed)) (record st {
        queue = rest;
        propagated =
            set_entry source
              (or_else (lookup source st.propagated) []
                ++ map (λ (c : String × Selector). c.0) changed)
              st.propagated;
      })
  start_round st source rest node changed closed found u = record {
    nodes = closed.nodes;
    pending = λ id n s h m. elim (closed.pending id n s h m) [
      | inl waits ↦ elim (Memᴰ.cases_cons waits) [
        | inl e ↦
            let g : n ≡ node = cc (ap (λ i. lookup i st.affected) e) in
            let known = (closed.nodes source node found).1 in
            elim (idle-Covered (record st { queue = source ∷ rest }) source s node.selectors changed
              closed known u (rw g at m)) [ inl c ↦ inr (inl (rw e c)) | inr w ↦ inr (inr (e, w)) ]
        | inr later ↦ inl later
      ]
      | inr o ↦ elim o [ inl c ↦ inr (inl c) | inr x ↦ absurd x ]
    ];
    done = λ id key s p q m.
        set_done (record st { queue = source ∷ rest }) source id key s node changed closed found u p
          q m;
  }

  -- The end of a round: what waited has been passed on along every edge.
  end_round :
      (st : State) (source : String) (values : List Selector)
      → Closed (Waits source values) st
      → ((s : Selector) → Memᴰ s values → Covered host input edges st source s)
      → Closed (λ i t. ⊥) st
  end_round st source values closed covered = record {
    nodes = closed.nodes;
    pending = λ id n s h m. elim (closed.pending id n s h m) [
      | inl waits ↦ inl waits
      | inr o ↦ inr (settled id s o)
    ];
    done = λ id key s p q m. settled id s (closed.done id key s p q m);
  }
    where
      settled :
          (id : String) (s : Selector)
          → Covered host input edges st id s ⊎ Waits source values id s
          → Covered host input edges st id s ⊎ ⊥
      settled id s (inl c) = inl c
      settled id s (inr (e, m)) = inl (rw e (covered s m))

  -- A round with nothing new.
  idle_round :
      (st : State) (source : String) (rest : List String)
      → Closed (λ i t. ⊥) (record st { queue = source ∷ rest })
      → ((node : AffectedNode)
          → lookup source st.affected ≡ some node
          → unseen host (or_else (lookup source st.propagated) []) node.selectors ≡ ok [])
      → Closed (λ i t. ⊥) (record st { queue = rest })
  idle_round st source rest closed idle = record {
    nodes = closed.nodes;
    pending = λ id n s h m. elim (closed.pending id n s h m) [
      | inl waits ↦ elim (Memᴰ.cases_cons waits) [
        | inl e ↦ inr (inl (at_source id n s e h m))
        | inr later ↦ inl later
      ]
      | inr o ↦ inr o
    ];
    done = closed.done;
  }
    where
      at_source :
          (id : String) (n : AffectedNode) (s : Selector)
          → id ≡ source
          → lookup id st.affected ≡ some n
          → Memᴰ s n.selectors
          → Covered host input edges st id s
      at_source id n s e h m =
          let found : lookup source st.affected ≡ some n =
            ap (λ i. lookup i st.affected) (sym e) ∙ h in
          elim (idle-Covered (record st { queue = source ∷ rest }) source s n.selectors [] closed
            (closed.nodes source n found).1 (idle n found) m) [
              | inl c ↦ rw e c
              | inr x ↦ elim x [ ]
            ]

  visit-Closed :
      (source : String) (rest : List String) (st st' : State)
      → Closed (λ i t. ⊥) (record st { queue = source ∷ rest })
      → visit host input edges source (record st { queue = rest }) ≡ ok st'
      → Closed (λ i t. ⊥) st'
  visit-Closed source rest st st' closed h =
      elim (visit-cases host input edges source (record st { queue = rest }) h) [
        | inl (e, idle) ↦ rw e (idle_round st source rest closed idle)
        | inr round ↦
            let values = map (λ (c : String × Selector). c.1) round.changed in
            let known : (s : Selector) → Memᴰ s values → P s = λ s m.
              let (c, k, e) = mem_of_map (λ (c : String × Selector). c.1) round.changed m in
              let (k', _, _) = mem_of_unseen host _ _ round.unseen_lem k in
              (closed.nodes source round.node round.found).1 s (rw e k') in
            end_round st' source values
              (visit_edges-keeps host input (Closed (Waits source values))
                (round.node.generation + 1) values (outgoing host edges source) _
                (λ e a b m i v.
                  Outcome-IsClosed host input edges vocabulary canonical e (Waits source values) a b
                    (visit_edge-Outcome host input vocabulary (round.node.generation + 1) values a e
                      known v)
                    i)
                (start_round st source rest round.node round.changed closed round.found
                  round.unseen_lem)
                round.visited)
              (edges-Hit (round.node.generation + 1) values (outgoing host edges source) _ known
                round.visited)
      ]

  initial-Closed :
      (source : String) (selectors : List Selector)
      → ((s : Selector) → Memᴰ s selectors → P s)
      → Closed (λ i t. ⊥) (initial host input source selectors)
  initial-Closed source selectors known = record {
    nodes = initial-NodesIn host input (λ id. Unit) P source selectors tt known;
    pending = λ id n s h m. elim (Bool-cases (source == id)) [
      | inl same ↦ inl (Memᴰ.head (sym ((eq_iff source id).0 same)))
      | inr other ↦ ground arith
    ];
    done = λ id key s p q m. elim m [ ];
  }

  -- No impact is missed: when the analysis has ended and a selector of an affected version meets the
  -- dependency of an edge out of it, the target of the edge is affected. There is no fingerprint
  -- resolver, the edge has no transfer function or one that is unavailable, and the selectors are of a
  -- vocabulary that the transfer functions keep to, trimmed and with distinct canonical texts.
  pub loop-Hit :
      (fuel : ℕ) (source : String) (selectors : List Selector) (final : State) (e : Edge)
      (node : AffectedNode) (s : Selector)
      → ((t : Selector) → Memᴰ t selectors → P t)
      → loop host input edges fuel (source ∷ []) (initial host input source selectors)
        ≡ some (ok final)
      → Memᴰ e edges
      → IsLive input e
      → lookup e.source_version_id final.affected ≡ some node
      → Memᴰ s node.selectors
      → selectors_intersect host s (dependency e) ≡ ok true
      → Hit final e.target_version_id
  loop-Hit fuel source selectors final e node s known h m live found k meets =
      let closed : Closed (λ i t. ⊥) (record final { queue = [] }) =
        loop-keeps host input (Closed (λ i t. ⊥)) edges fuel (source ∷ [])
          (initial host input source selectors) (λ v rest a b i run. visit-Closed v rest a b i run)
          (initial-Closed source selectors known) h in
      let out : Memᴰ e (outgoing host edges e.source_version_id) =
        mem-sort _ _ (mem-keep _ edges m (eq_refl e.source_version_id)) in
      elim (closed.pending e.source_version_id node s found k) [
        | inl waits ↦ elim waits [ ]
        | inr o ↦ elim o [ inl c ↦ c e out live meets | inr x ↦ absurd x ]
      ]
