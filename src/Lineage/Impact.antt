-- ===== src/Lineage/Impact.antt =====
-- packages/lineage/src/impact.ts: the versions that a delta of one version reaches along the edges.
-- The maps of `computeImpact` are association lists in the order of insertion, its sets are lists.

pub mod Maps
pub mod Steps
pub mod Rounds
pub mod Sound
pub mod Closed
pub mod Complete
pub mod Terminates
pub mod Report
use arc_db.Base.{
  ℕ, suc, zero, ◌+◌, min, String, Bool, true, false, not, ◌&&◌, ◌||◌, Option, none, some, is_some,
  or_else, List, [], ◌∷◌, ◌++◌, eqb, leb, length, any, keep, includes, map, Result, ok, err,
  throw_if, ◌>>=◌, ◌>>◌, ◌==◌, if◌then◌else◌, eq_option,
}
use arc_db.Base.Sort.{sort}
use arc_db.Host.{Host}
use arc_db.Contracts.Errors.{Fault, zod}
use arc_db.Contracts.Digest.{canonicalize}
use arc_db.Contracts.Primitives.{concat, parse_identifier, parse_digest, parse_option}
use arc_db.Contracts.Lineage.{Selector, unknown, same_kind, Edge, parse_edge, parse_selector}
use arc_db.Lineage.Selectors.{
  unknown_selector, selector_value, set_entry, selector_sets_intersect, unique_selectors,
}

pub record Delta : Type 0 where
  pub selectors : List Selector
  pub before_digest : Option String
  pub after_digest : Option String

pub data ReasonCode : Type 0 where
  source_delta selector_intersection unknown_dependency transfer_function : ReasonCode
  missing_transfer_function selector_disjoint transfer_rejected : ReasonCode
  fingerprint_unchanged : ReasonCode

abbrev pub reason_name : ReasonCode → String
reason_name source_delta = "SOURCE_DELTA"
reason_name selector_intersection = "SELECTOR_INTERSECTION"
reason_name unknown_dependency = "UNKNOWN_SELECTOR"
reason_name transfer_function = "TRANSFER_FUNCTION"
reason_name missing_transfer_function = "MISSING_TRANSFER_FUNCTION"
reason_name selector_disjoint = "SELECTOR_DISJOINT"
reason_name transfer_rejected = "TRANSFER_REJECTED"
reason_name fingerprint_unchanged = "FINGERPRINT_UNCHANGED"

pub data Disposition : Type 0 where
  affected skipped : Disposition

pub record ReasonEdge : Type 0 where
  pub edge_id : String
  pub source_version_id : String
  pub target_version_id : String
  pub disposition : Disposition
  pub reason : ReasonCode
  pub detail : String

pub record AffectedNode : Type 0 where
  pub version_id : String
  pub generation : ℕ
  pub selectors : List Selector
  pub via_edge_ids : List String

pub record SkippedNode : Type 0 where
  pub version_id : String
  pub via_edge_ids : List String
  pub reasons : List ReasonCode

pub record Transfer : Type 0 where
  pub affected : Bool
  pub selectors : Option (List Selector)
  pub detail : Option String

-- The callbacks of the caller, which may throw.
pub record Input : Type 0 where
  pub source_version_id : String
  pub delta : Delta
  pub edges : List Edge
  pub transfer_functions : String → Option (Edge → List Selector → Result Fault Transfer)
  pub current_fingerprints : String → Option String
  pub fingerprint_resolver : Option (Edge → List Selector → Option String → Result Fault String)

pub record State : Type 0 where
  pub affected : List (String × AffectedNode)
  pub skipped : List (String × SkippedNode)
  pub queue : List String
  pub propagated : List (String × List String)
  pub reason_graph : List ReasonEdge
  pub visited : ℕ

-- What is known of an edge that meets the delta: that it stops there, or what goes on to its target.
pub data Flow : Type 0 where
  stops : ReasonCode → String → Flow
  reaches : List Selector → ReasonCode → String → Flow

-- `map.get(key)` and `map.delete(key)`
abbrev pub lookup {ℓ} : {A : Type ℓ} → String → List (String × A) → Option A
lookup k [] = none
lookup k ((l, a) ∷ rest) = if l == k then some a else lookup k rest

abbrev pub delete {ℓ} : {A : Type ℓ} → String → List (String × A) → List (String × A)
delete k = keep (λ e. not (e.0 == k))

-- `set.add(text)`
abbrev pub add_text : List String → String → List String
add_text texts t = if includes ◌==◌ texts t then texts else texts ++ t ∷ []

abbrev pub add_reason : List ReasonCode → ReasonCode → List ReasonCode
add_reason rs r = if includes (λ a b. reason_name a == reason_name b) rs r then rs else rs ++ r ∷ []

-- `addSkipped`
unfoldable pub add_skipped :
    List (String × SkippedNode) → Edge → ReasonCode → List (String × SkippedNode)
add_skipped nodes edge reason =
    let node =
      or_else (lookup edge.target_version_id nodes)
        (record { version_id = edge.target_version_id; via_edge_ids = []; reasons = [] }) in
    set_entry edge.target_version_id
      (record node {
        via_edge_ids = add_text node.via_edge_ids edge.id;
        reasons = add_reason node.reasons reason;
      })
      nodes

abbrev pub reason_edge : Edge → Disposition → ReasonCode → String → ReasonEdge
reason_edge edge disposition reason detail = record {
  edge_id = edge.id;
  source_version_id = edge.source_version_id;
  target_version_id = edge.target_version_id;
  disposition = disposition;
  reason = reason;
  detail = detail;
}

-- `edge.selector ?? UNKNOWN_SELECTOR`
abbrev pub dependency : Edge → Selector
dependency edge = or_else edge.selector unknown_selector

-- The reason and the detail of an edge without a transfer function.
abbrev pub edge_reason : Option Selector → ReasonCode
edge_reason none = unknown_dependency
edge_reason (some s) =
    if same_kind s.kind unknown then unknown_dependency else selector_intersection

abbrev pub edge_detail : Option Selector → String
edge_detail none = "Unscoped dependency conservatively matches every Delta"
edge_detail (some s) = "Delta intersects the dependency selector"

abbrev pub skip : Edge → ReasonCode → String → State → State
skip edge reason detail st = record st {
  skipped = add_skipped st.skipped edge reason;
  reason_graph = st.reason_graph ++ reason_edge edge skipped reason detail ∷ [];
}

-- The target of an edge as it stands, or as it is first affected.
abbrev pub target_of : Edge → ℕ → State → AffectedNode
target_of edge generation st = or_else (lookup edge.target_version_id st.affected) (record {
  version_id = edge.target_version_id;
  generation = generation;
  selectors = [];
  via_edge_ids = [];
})

-- The target gains its selectors; it is queued if one has a key that it did not have.
unfoldable pub arrive :
    Edge → ℕ → ReasonCode → String → State → List String → List String → List Selector → State
arrive edge generation reason detail st existing keys selectors =
    let id = edge.target_version_id in
    let target = target_of edge generation st in
    let node : AffectedNode = record {
      version_id = target.version_id;
      generation = min target.generation generation;
      selectors = selectors;
      via_edge_ids = add_text target.via_edge_ids edge.id;
    } in
    record st {
      affected = set_entry id node st.affected;
      skipped = delete id st.skipped;
      reason_graph = st.reason_graph ++ reason_edge edge affected reason detail ∷ [];
      queue =
          if any (λ k. not (includes ◌==◌ existing k)) keys
            || not (is_some (lookup id st.propagated))
          then st.queue ++ id ∷ []
          else st.queue;
    }

abbrev pub has_digest_change : Delta → Bool
has_digest_change delta =
    not (is_some delta.before_digest && eq_option ◌==◌ delta.before_digest delta.after_digest)

module _ (host : Host) where
  open host use {locale_leb}

  -- `selectorKey`
  unfoldable pub selector_key : Selector → Result Fault String
  selector_key s = canonicalize host (selector_value s)

  abbrev pub selector_keys : List Selector → Result Fault (List String)
  selector_keys [] = ok []
  selector_keys (s ∷ ss) = do key ← selector_key s; keys ← selector_keys ss; ok (key ∷ keys)

  -- Of the selectors with their keys, those whose key is not among the given.
  abbrev pub unseen : List String → List Selector → Result Fault (List (String × Selector))
  unseen seen [] = ok []
  unseen seen (s ∷ ss) = do
    key ← selector_key s
    rest ← unseen seen ss
    ok (if includes ◌==◌ seen key then rest else (key, s) ∷ rest)

  abbrev pub parse_selectors : List Selector → Result Fault (List Selector)
  parse_selectors [] = ok []
  parse_selectors (s ∷ ss) = do t ← parse_selector host s; ts ← parse_selectors ss; ok (t ∷ ts)

  abbrev pub parse_edges : List Edge → Result Fault (List Edge)
  parse_edges [] = ok []
  parse_edges (e ∷ es) = do f ← parse_edge host e; fs ← parse_edges es; ok (f ∷ fs)

  -- `ArtifactDeltaSchema.parse`
  unfoldable pub parse_delta : Delta → Result Fault Delta
  parse_delta d = do
    selectors ← parse_selectors d.selectors
    throw_if (eqb (length selectors) 0) zod
    before ← parse_option (parse_digest host) d.before_digest
    after_change ← parse_option (parse_digest host) d.after_digest
    let delta : Delta = record {
      selectors = selectors;
      before_digest = before;
      after_digest = after_change;
    }
    throw_if (not (has_digest_change delta)) zod
    ok delta

  -- `outgoing.get(source) ?? []`
  abbrev pub outgoing : List Edge → String → List Edge
  outgoing edges source =
      sort (λ a b. locale_leb a.id b.id) (keep (λ e. e.source_version_id == source) edges)

  module _ (input : Input) where
    -- What a transfer function returned.
    abbrev pub judge : String → Transfer → Result Fault Flow
    judge name result =
        if result.affected
        then (do
          passed ← unique_selectors host (or_else result.selectors (unknown_selector ∷ []))
          let said = concat ("Transfer function " ∷ name ∷ " propagated the Delta" ∷ [])
          ok (reaches passed transfer_function (or_else result.detail said)))
        else let said = concat ("Transfer function " ∷ name ∷ " proved no impact" ∷ []) in
          ok (stops transfer_rejected (or_else result.detail said))

    abbrev pub unavailable : String → Flow
    unavailable name =
        reaches (unknown_selector ∷ []) missing_transfer_function (
          concat ("Transfer function " ∷ name ∷ " is unavailable; propagating conservatively" ∷ []))

    abbrev pub consult : Edge → List Selector → Option String → Result Fault Flow
    consult edge changed none =
        ok (reaches (unknown_selector ∷ []) (edge_reason edge.selector) (edge_detail edge.selector))
    consult edge changed (some name) = elim (input.transfer_functions name) [
      | none ↦ ok (unavailable name)
      | some function ↦ function edge changed >>= judge name
    ]

    -- A recomputed fingerprint that is the stored one stops what goes along the edge.
    abbrev pub recomputed : Flow → Option String → String → Flow
    recomputed flow previous next =
        if is_some previous && eq_option ◌==◌ previous (some next)
        then stops fingerprint_unchanged "Recomputed dependency fingerprint is unchanged"
        else flow

    abbrev pub check_fingerprint : Edge → Flow → Result Fault Flow
    check_fingerprint edge (stops reason detail) = ok (stops reason detail)
    check_fingerprint edge (reaches passed reason detail) = elim input.fingerprint_resolver [
      | none ↦ ok (reaches passed reason detail)
      | some resolver ↦ do
        let previous = input.current_fingerprints edge.target_version_id
        next ← resolver edge passed previous
        ok (recomputed (reaches passed reason detail) previous next)
    ]

    -- The target of an edge is affected by the selectors that reach it.
    unfoldable pub reach :
        Edge → ℕ → List Selector → ReasonCode → String → State → Result Fault State
    unfolding arrive
    reach edge generation passed reason detail st = do
      let old = (target_of edge generation st).selectors
      existing ← selector_keys old
      keys ← selector_keys passed
      selectors ← unique_selectors host (old ++ passed)
      ok (arrive edge generation reason detail st existing keys selectors)

    abbrev pub settle : Edge → ℕ → State → Flow → Result Fault State
    settle edge generation st (stops reason detail) = ok (skip edge reason detail st)
    settle edge generation st (reaches passed reason detail) =
        reach edge generation passed reason detail st

    -- One edge out of a version, whose selectors `changed` have not been passed on yet; `generation`
    -- is that of the version plus one.
    unfoldable pub visit_edge : ℕ → List Selector → State → Edge → Result Fault State
    unfolding reach add_skipped
    visit_edge generation changed before edge = do
      let st = record before { visited = before.visited + 1 }
      meets ← selector_sets_intersect host changed (dependency edge ∷ [])
      if not meets
          then ok (
              skip edge selector_disjoint
                "Changed components do not intersect the dependency selector" st)
          else consult edge changed edge.transfer_function >>= λ flow.
              check_fingerprint edge flow >>= λ checked. settle edge generation st checked

    abbrev pub visit_edges : ℕ → List Selector → List Edge → State → Result Fault State
    visit_edges generation changed [] st = ok st
    visit_edges generation changed (e ∷ es) st = do
      next ← visit_edge generation changed st e
      visit_edges generation changed es next

    -- One version off the queue, if it is affected.
    abbrev pub visit_node : List Edge → String → Option AffectedNode → State → Result Fault State
    visit_node edges source none st = ok st
    visit_node edges source (some node) st = do
      let already = or_else (lookup source st.propagated) []
      changed ← unseen already node.selectors
      if eqb (length changed) 0
          then ok st
          else visit_edges (node.generation + 1) (map (λ c. c.1) changed) (outgoing edges source)
              (record st {
                propagated = set_entry source (already ++ map (λ c. c.0) changed) st.propagated;
              })

    unfoldable pub visit : List Edge → String → State → Result Fault State
    unfolding visit_edge
    visit edges source st = visit_node edges source (lookup source st.affected) st

    -- The loop over the queue; none is that the fuel ran out.
    unfoldable pub loop : List Edge → ℕ → List String → State → Option (Result Fault State)
    unfolding visit
    loop edges zero queue st = none
    loop edges (suc fuel) [] st = some (ok st)
    loop edges (suc fuel) (source ∷ rest) st =
        elim (visit edges source (record st { queue = rest })) [
          | err thrown ↦ some (err thrown)
          | ok next ↦ loop edges fuel next.queue next
        ]

    abbrev pub initial : String → List Selector → State
    initial source selectors = record {
      affected =
          (
            source,
            record {
              version_id = source;
              generation = 0;
              selectors = selectors;
              via_edge_ids = [];
            },
          )
          ∷ [];
      skipped = [];
      queue = source ∷ [];
      propagated = [];
      reason_graph = [];
      visited = 0;
    }
