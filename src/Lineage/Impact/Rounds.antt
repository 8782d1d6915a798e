-- ===== src/Lineage/Impact/Rounds.antt =====
-- The rounds of the loop in packages/lineage/src/impact.ts: how an invariant of its state is kept
-- from an edge to a version and from there to the whole analysis, and which versions it can affect.
use mathlib.Core.List.{Memᴰ}
use mathlib.Core.List.Memᴰ
use arc_db.Base.{
  ℕ, suc, zero, ◌+◌, String, true, false, Option, none, some, or_else, List, [], ◌∷◌, ◌++◌, map,
  eqb, length, ◌≡◌, ◌⊎◌, inl, inr, refl, sym, ◌∙◌, ap, Result, ok, err, >>=-eq-ok, ◌==◌, eq_iff,
  arith, Bool-cases,
}
use arc_db.Base.Members.{mem_of_keep, mem_of_sort, mem_of_map}
use arc_db.Host.{Host}
use arc_db.Contracts.Errors.{Fault}
use arc_db.Contracts.Lineage.{Selector, Edge}
use arc_db.Lineage.Selectors.{set_entry}
use arc_db.Lineage.Impact.{
  Input, State, AffectedNode, lookup, unseen, outgoing, visit_edge, visit_edges, visit_node, visit,
  loop,
}
use arc_db.Lineage.Impact.Maps.{lookup-set_entry, mem_of_unseen}
use arc_db.Lineage.Impact.Steps.{selectors_at, IsVocabulary, Outcome, united_in, visit_edge-Outcome}

pub mem_of_outgoing :
    (host : Host) (edges : List Edge) (source : String) {e : Edge}
    → Memᴰ e (outgoing host edges source)
    → Memᴰ e edges × (e.source_version_id ≡ source)
mem_of_outgoing host edges source {e} m =
    let (k, p) = mem_of_keep _ edges (mem_of_sort _ _ m) in (k, (eq_iff _ _).0 p)

module _ (host : Host) (input : Input) where
  -- A version whose selectors have all been passed on changes nothing; otherwise its new ones are
  -- recorded and go along its edges.
  pub record Round (edges : List Edge) (source : String) (st st' : State) : Type 0 where
    pub node : AffectedNode
    pub changed : List (String × Selector)
    pub found : lookup source st.affected ≡ some node
    pub unseen_lem :
        unseen host (or_else (lookup source st.propagated) []) node.selectors ≡ ok changed
    pub nonempty : eqb (length changed) 0 ≡ false
    pub visited :
        visit_edges host input
          (node.generation + 1)
          (map (λ c. c.1) changed)
          (outgoing host edges source)
          (record st {
            propagated =
                set_entry source
                  (or_else (lookup source st.propagated) [] ++ map (λ c. c.0) changed)
                  st.propagated;
          })
        ≡ ok st'

  -- A round that changes nothing: the version is not affected or nothing of it is new.
  abbrev pub Idle : String → State → State → Type 0
  Idle source st st' =
      (st' ≡ st)
      × ((node : AffectedNode)
          → lookup source st.affected ≡ some node
          → unseen host (or_else (lookup source st.propagated) []) node.selectors ≡ ok [])

  empty_of_length : (cs : List (String × Selector)) → eqb (length cs) 0 ≡ true → cs ≡ []
  empty_of_length [] h = refl
  empty_of_length (c ∷ cs) h = absurd (ground arith)

  visit_node-cases :
      (edges : List Edge) (source : String) (o : Option AffectedNode) (st : State) {st' : State}
      → lookup source st.affected ≡ o
      → visit_node host input edges source o st ≡ ok st'
      → Idle source st st' ⊎ Round edges source st st'
  visit_node-cases edges source none st e h = inl (cc, λ node f. cc)
  visit_node-cases edges source (some node) st {st'} e h =
      let already = or_else (lookup source st.propagated) [] in
      let (changed, p, h1) = >>=-eq-ok (unseen host already node.selectors) _ h in
      elim (Bool-cases (eqb (length changed) 0)) [
        | inl idle ↦
            let h2 : ok st ≡ ok st' = rw idle at h1 in
            let q = p ∙ ap ok (empty_of_length changed idle) in
            inl (cc, λ other f. let g : other ≡ node = cc in rw g q)
        | inr busy ↦ inr (record {
          node = node;
          changed = changed;
          found = e;
          unseen_lem = p;
          nonempty = busy;
          visited = rw busy at h1;
        })
      ]

  pub visit-cases :
      (edges : List Edge) (source : String) (st : State) {st' : State}
      → visit host input edges source st ≡ ok st'
      → Idle source st st' ⊎ Round edges source st st'
  unfolding visit
  visit-cases edges source st h =
      visit_node-cases edges source (lookup source st.affected) st refl h

  pub visit_edges-keeps :
      (Inv : State → Type 0) (generation : ℕ) (changed : List Selector) (es : List Edge)
      (st : State) {st' : State}
      → ((e : Edge) (a b : State)
          → Memᴰ e es
          → Inv a
          → visit_edge host input generation changed a e ≡ ok b
          → Inv b)
      → Inv st
      → visit_edges host input generation changed es st ≡ ok st'
      → Inv st'
  visit_edges-keeps Inv generation changed [] st {st'} step i h =
      let e : st ≡ st' = cc in rw (← e) i
  visit_edges-keeps Inv generation changed (e ∷ es) st step i h =
      let (next, p, h1) = >>=-eq-ok (visit_edge host input generation changed st e) _ h in
      visit_edges-keeps Inv generation changed es next (λ f a b m. step f a b (Memᴰ.tail m))
        (step e st next (Memᴰ.head refl) i p) h1

  pub loop-keeps :
      (Inv : State → Type 0) (edges : List Edge) (fuel : ℕ) (queue : List String) (st : State)
      {final : State}
      → ((source : String) (rest : List String) (a b : State)
          → Inv (record a { queue = source ∷ rest })
          → visit host input edges source (record a { queue = rest }) ≡ ok b
          → Inv b)
      → Inv (record st { queue = queue })
      → loop host input edges fuel queue st ≡ some (ok final)
      → Inv (record final { queue = [] })
  unfolding loop
  loop-keeps Inv edges zero queue st step i h = cc
  loop-keeps Inv edges (suc fuel) [] st {final} step i h = let e : st ≡ final = cc in rw (← e) i
  loop-keeps Inv edges (suc fuel) (source ∷ rest) st {final} step i h =
      go (visit host input edges source (record st { queue = rest }))
        (λ next. loop-keeps Inv edges fuel next.queue next step) refl h
    where
      go :
          (r : Result Fault State)
          → ((next : State)
              → Inv next
              → loop host input edges fuel next.queue next ≡ some (ok final)
              → Inv (record final { queue = [] }))
          → visit host input edges source (record st { queue = rest }) ≡ r
          → elim r [
            | err thrown ↦ some (err thrown)
            | ok next ↦ loop host input edges fuel next.queue next
          ]
            ≡ some (ok final)
          → Inv (record final { queue = [] })
      go (err thrown) again p k = cc
      go (ok next) again p k = again next (step source rest st next i p) k

  -- Every affected version is in `Q` and its selectors are in `P`.
  abbrev pub NodesIn : (String → Type 0) → (Selector → Type 0) → State → Type 0
  NodesIn Q P st =
      (id : String) (node : AffectedNode)
      → lookup id st.affected ≡ some node
      → Q id × ((s : Selector) → Memᴰ s node.selectors → P s)

  pub lookup_set-cases :
      (k j : String) (node : AffectedNode) (m : List (String × AffectedNode)) {found : AffectedNode}
      → lookup j (set_entry k node m) ≡ some found
      → ((k ≡ j) × (node ≡ found)) ⊎ (lookup j m ≡ some found)
  lookup_set-cases k j node m h =
      let e = lookup-set_entry k j node m in
      elim (Bool-cases (k == j)) [
        | inl same ↦ inl ((eq_iff k j).0 same, ground (arith, e))
        | inr other ↦ inr (ground (arith, e))
      ]

  selectors_at-In :
      (Q : String → Type 0) (P : Selector → Type 0) (st : State) (id : String)
      (o : Option AffectedNode)
      → NodesIn Q P st
      → lookup id st.affected ≡ o
      → (s : Selector) → Memᴰ s (selectors_at o)
      → P s
  selectors_at-In Q P st id none n e s m = elim m [ ]
  selectors_at-In Q P st id (some node) n e s m = (n id node e).1 s m

  module _ {P : Selector → Type 0} (vocabulary : IsVocabulary host input P) where
    pub whole_in :
        (Q : String → Type 0) (edge : Edge) (passed : List Selector) (st st' : State)
        → NodesIn Q P st
        → ((s : Selector) → Memᴰ s passed → P s)
        → (s : Selector)
        → Memᴰ s (selectors_at (lookup edge.target_version_id st.affected) ++ passed)
        → P s
    whole_in Q edge passed st st' n known s m =
        let id = edge.target_version_id in
        elim (Memᴰ.append_cases (selectors_at (lookup id st.affected)) m) [
          | inl k ↦ selectors_at-In Q P st id (lookup id st.affected) n refl s k
          | inr k ↦ known s k
        ]

    pub Outcome-NodesIn :
        (Q : String → Type 0) (edge : Edge) (st st' : State)
        → Q edge.target_version_id
        → NodesIn Q P st
        → Outcome host input P edge st st'
        → NodesIn Q P st'
    Outcome-NodesIn Q edge st st' q n (inl stays) id node h =
        n id node (ap (lookup id) (sym stays.affected) ∙ h)
    Outcome-NodesIn Q edge st st' q n (inr (passed, known, r)) id node h =
        let g = ap (lookup id) (sym r.set) ∙ h in
        elim (lookup_set-cases edge.target_version_id id r.node st.affected g) [
          | inl (e, f) ↦ (
            rw (← e) q,
            λ s m.
                let m' : Memᴰ s r.node.selectors = rw f m in
                united_in host input vocabulary _ (whole_in Q edge passed st st' n known) r.united s
                  m',
          )
          | inr k ↦ n id node k
        ]

    pub visit-NodesIn :
        (Q : String → Type 0) (edges : List Edge) (source : String) (st st' : State)
        → ((e : Edge) → Memᴰ e edges → Q e.source_version_id → Q e.target_version_id)
        → NodesIn Q P st
        → visit host input edges source st ≡ ok st'
        → NodesIn Q P st'
    visit-NodesIn Q edges source st st' along n h = elim (visit-cases edges source st h) [
      | inl (e, idle) ↦ rw e n
      | inr round ↦
          let values = map (λ (c : String × Selector). c.1) round.changed in
          let q : Q source = (n source round.node round.found).0 in
          let known : (s : Selector) → Memᴰ s values → P s = λ s m.
            let (c, k, e) = mem_of_map (λ (c : String × Selector). c.1) round.changed m in
            let (k', _, _) = mem_of_unseen host _ _ round.unseen_lem k in
            (n source round.node round.found).1 s (rw e k') in
          visit_edges-keeps (NodesIn Q P) (round.node.generation + 1) values
            (outgoing host edges source) _
            (λ e a b m i v.
              let (k, from) = mem_of_outgoing host edges source m in
              Outcome-NodesIn Q e a b (along e k (rw from q)) i (
                visit_edge-Outcome host input vocabulary (round.node.generation + 1) values a e
                  known v))
            n round.visited
    ]
