-- ===== src/Lineage/Impact/Closed.antt =====
-- packages/lineage/src/impact.ts: the analysis misses no version that a changed part reaches. The
-- state is closed but for the versions on the queue and what a round still has to pass on.
use mathlib.Core.List.{Memᴰ}
use mathlib.Core.List.Memᴰ
use arc_db.Base.{
  String, true, false, not, ◌||◌, Option, none, some, is_some, or_else, List, [], ◌++◌, any,
  includes, ◌≡◌, ◌⊎◌, inl, inr, refl, sym, ◌∙◌, ap, ok, ◌==◌, eq_refl, arith, Bool-cases,
}
use arc_db.Base.Members.{mem_of_includes, not_of_any}
use arc_db.Host.{Host}
use arc_db.Contracts.Lineage.{Selector, Edge, parse_selector}
use arc_db.Lineage.Selectors.{selectors_intersect}
use arc_db.Lineage.Impact.{Input, State, AffectedNode, lookup, outgoing, dependency, selector_key}
use arc_db.Lineage.Impact.Maps.{lookup-set_entry, keys-mem, mem_of_keys, mem_of_unique}
use arc_db.Lineage.Impact.Steps.{selectors_at, IsVocabulary, IsLive, Reached, Outcome}
use arc_db.Lineage.Impact.Rounds.{NodesIn, Outcome-NodesIn, lookup_set-cases, whole_in}

-- The version is affected.
abbrev pub Hit : State → String → Type 0
Hit st id = (node : AffectedNode) × (lookup id st.affected ≡ some node)

-- Selectors of a vocabulary are trimmed, and their canonical texts differ.
pub record IsCanonical (host : Host) (P : Selector → Type 0) : Type 0 where
  pub fixed : (s t : Selector) → P s → parse_selector host s ≡ ok t → s ≡ t
  pub injective :
      (s t : Selector) (key : String)
      → P s
      → P t
      → selector_key host s ≡ ok key
      → selector_key host t ≡ ok key
      → s ≡ t

module _ (host : Host) (input : Input) (edges : List Edge) where
  -- Every edge out of the version whose dependency meets the selector has an affected target, if no
  -- callback has a say.
  abbrev pub Covered : State → String → Selector → Type 0
  Covered st id s =
      (e : Edge)
      → Memᴰ e (outgoing host edges id)
      → IsLive input e
      → selectors_intersect host s (dependency e) ≡ ok true
      → Hit st e.target_version_id

  module _ {P : Selector → Type 0} (vocabulary : IsVocabulary host input P)
      (canonical : IsCanonical host P) where
    open canonical use {fixed, injective}

    -- All is covered but what waits on the queue and what `X` holds of.
    pub record IsClosed (X : String → Selector → Type 0) (st : State) : Type 0 where
      pub nodes : NodesIn host input (λ id. Unit) P st
      pub pending :
          (id : String) (node : AffectedNode) (s : Selector)
          → lookup id st.affected ≡ some node
          → Memᴰ s node.selectors
          → Memᴰ id st.queue ⊎ (Covered st id s ⊎ X id s)
      pub done :
          (id key : String) (s : Selector)
          → P s
          → selector_key host s ≡ ok key
          → Memᴰ key (or_else (lookup id st.propagated) [])
          → Covered st id s ⊎ X id s

    pub Outcome-Hit :
        (edge : Edge) (st st' : State) (id : String)
        → Hit st id
        → Outcome host input P edge st st'
        → Hit st' id
    Outcome-Hit edge st st' id (node, h) (inl stays) = (node, ap (lookup id) stays.affected ∙ h)
    Outcome-Hit edge st st' id (node, h) (inr (passed, known, r)) =
        let e = lookup-set_entry edge.target_version_id id r.node st.affected in
        elim (Bool-cases (edge.target_version_id == id)) [
          | inl same ↦ (r.node, ap (lookup id) r.set ∙ ground (arith, e))
          | inr other ↦ (node, ap (lookup id) r.set ∙ ground (arith, e))
        ]

    pub Reached-Hit :
        (edge : Edge) (passed : List Selector) (st st' : State)
        → Reached host input edge passed st st'
        → Hit st' edge.target_version_id
    Reached-Hit edge passed st st' r =
        let id = edge.target_version_id in
        let e = lookup-set_entry id id r.node st.affected in
        (r.node, ap (lookup id) r.set ∙ ground (arith, e, eq_refl id))

    queue_grows :
        (edge : Edge) (passed : List Selector) (st st' : State)
        → Reached host input edge passed st st'
        → (id : String) → Memᴰ id st.queue
        → Memᴰ id st'.queue
    queue_grows edge passed st st' r id m =
        elim (Bool-cases (
          any (λ k. not (includes ◌==◌ r.existing k)) r.keys
          || not (is_some (lookup edge.target_version_id st.propagated)))) [
            | inl longer ↦ rw (r.queued, longer) (Memᴰ.append_left _ m)
            | inr same ↦ rw (r.queued, same) m
          ]

    -- A selector of the target is one that it had, unless the target is queued.
    old_or_queued :
        (edge : Edge) (passed : List Selector) (st st' : State)
        → NodesIn host input (λ id. Unit) P st
        → ((s : Selector) → Memᴰ s passed → P s)
        → (r : Reached host input edge passed st st') → (s : Selector) → Memᴰ s r.node.selectors
        → Memᴰ edge.target_version_id st'.queue
          ⊎ Memᴰ s (selectors_at (lookup edge.target_version_id st.affected))
    old_or_queued edge passed st st' nodes known r s m =
        let id = edge.target_version_id in
        let old = selectors_at (lookup id st.affected) in
        let whole = whole_in host input vocabulary (λ i. Unit) edge passed st st' nodes known in
        let (u, k, p) = mem_of_unique host (old ++ passed) r.united m in
        let e : u ≡ s = fixed u s (whole u k) p in
        elim (Bool-cases (
          any (λ k. not (includes ◌==◌ r.existing k)) r.keys
          || not (is_some (lookup id st.propagated)))) [
            | inl longer ↦ inl (rw (r.queued, longer) (Memᴰ.append_right st.queue (Memᴰ.head refl)))
            | inr same ↦ elim (Memᴰ.append_cases old k) [
              | inl before ↦ inr (rw (← e) before)
              | inr fresh ↦
                  let (key, q, l) = keys-mem host passed r.keys_lem fresh in
                  let none_new : any (λ k. not (includes ◌==◌ r.existing k)) r.keys ≡ false =
                    ground arith in
                  let seen : includes ◌==◌ r.existing key ≡ true =
                    ground (
                      arith,
                      not_of_any (λ k. not (includes ◌==◌ r.existing k)) r.keys none_new l,
                    ) in
                  let (v, k', q') =
                    mem_of_keys host old r.existing_lem (mem_of_includes r.existing seen) in
                  let f : v ≡ u =
                    injective v u key (whole v (Memᴰ.append_left passed k')) (known u fresh) q' q in
                  inr (rw (← e, ← f) k')
            ]
          ]

    Outcome-Covered :
        (edge : Edge) (st st' : State)
        → Outcome host input P edge st st'
        → (X : Type 0) (id : String) (s : Selector) → Covered st id s ⊎ X
        → Covered st' id s ⊎ X
    Outcome-Covered edge st st' o X id s (inl c) =
        inl (λ e m live k. Outcome-Hit edge st st' e.target_version_id (c e m live k) o)
    Outcome-Covered edge st st' o X id s (inr x) = inr x

    -- A selector of a version before an edge is visited is still accounted for behind it.
    Outcome-before :
        (edge : Edge) (X : String → Selector → Type 0) (st st' : State)
        → Outcome host input P edge st st'
        → ((id : String) → Memᴰ id st.queue → Memᴰ id st'.queue)
        → IsClosed X st
        → (id : String) (o : Option AffectedNode) (s : Selector) → lookup id st.affected ≡ o
        → Memᴰ s (selectors_at o)
        → Memᴰ id st'.queue ⊎ (Covered st' id s ⊎ X id s)
    Outcome-before edge X st st' o grows i id none s e m = elim m [ ]
    Outcome-before edge X st st' o grows i id (some node) s e m = elim (i.pending id node s e m) [
      | inl waits ↦ inl (grows id waits)
      | inr rest ↦ inr (Outcome-Covered edge st st' o (X id s) id s rest)
    ]

    pub Outcome-IsClosed :
        (edge : Edge) (X : String → Selector → Type 0) (st st' : State)
        → Outcome host input P edge st st'
        → IsClosed X st
        → IsClosed X st'
    Outcome-IsClosed edge X st st' (inl stays) i = record {
      nodes = Outcome-NodesIn host input vocabulary (λ id. Unit) edge st st' tt i.nodes (inl stays);
      pending = λ id node s h m.
          Outcome-before edge X st st' (inl stays) (λ j k. rw stays.queue k) i id (some node) s
            (ap (lookup id) (sym stays.affected) ∙ h) m;
      done = λ id key s p q m.
          Outcome-Covered edge st st' (inl stays) (X id s) id s
            (i.done id key s p q (rw stays.propagated at m));
    }
    Outcome-IsClosed edge X st st' (inr (passed, known, r)) i =
        let o : Outcome host input P edge st st' = inr (passed, known, r) in
        let grows = queue_grows edge passed st st' r in
        record {
          nodes = Outcome-NodesIn host input vocabulary (λ id. Unit) edge st st' tt i.nodes o;
          pending = λ id node s h m.
              elim (lookup_set-cases host input edge.target_version_id id r.node st.affected
                (ap (lookup id) (sym r.set) ∙ h)) [
                  | inl (e, f) ↦
                      elim (old_or_queued edge passed st st' i.nodes known r s (rw f m)) [
                        | inl queued ↦ inl (rw (← e) queued)
                        | inr before ↦ rw (← e) (
                            Outcome-before edge X st st' o grows i edge.target_version_id _ s refl
                              before)
                      ]
                  | inr k ↦ Outcome-before edge X st st' o grows i id (some node) s k m
                ];
          done = λ id key s p q m.
              Outcome-Covered edge st st' o (X id s) id s (i.done id key s p q (rw r.kept at m));
        }
