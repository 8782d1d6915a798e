-- ===== src/Lineage/Impact/Report.antt =====
-- packages/lineage/src/impact.ts: what `computeImpact` parses first, the result that it puts together
-- from the state of its loop, and the schema that the result is checked against.
use arc_db.Base.{
  ℕ, ltb, leb, eqb, String, Bool, not, ◌&&◌, ◌||◌, Option, none, some, is_some, List, [], ◌∷◌,
  length, keep, map, Result, ok, err, throw_if, ◌>>=◌, ◌>>◌,
}
use arc_db.Base.Sort.{sort}
use arc_db.Host.{Host}
use arc_db.Contracts.Errors.{Fault, zod}
use arc_db.Contracts.Primitives.{parse_identifier, parse_list}
use arc_db.Contracts.Lineage.{Selector, Edge}
use arc_db.Lineage.Selectors.{unique_selectors}
use arc_db.Lineage.Impact.{
  Input, State, AffectedNode, SkippedNode, ReasonEdge, reason_name, lookup, parse_delta,
  parse_edges, parse_selectors, loop, initial,
}

pub record ImpactResult : Type 0 where
  pub source_version_id : String
  pub affected_nodes : List AffectedNode
  pub skipped_nodes : List SkippedNode
  pub reason_graph : List ReasonEdge
  pub visited_edge_count : ℕ

-- What the loop starts from.
pub record Prepared : Type 0 where
  pub source : String
  pub edges : List Edge
  pub selectors : List Selector

module _ (host : Host) where
  open host use {utf16_length, locale_leb, string_leb}

  abbrev pub parse_each {ℓ κ} :
      {A : Type ℓ} {B : Type κ} → (A → Result Fault B) → List A → Result Fault (List B)
  parse_each parse [] = ok []
  parse_each parse (a ∷ as') = do b ← parse a; bs ← parse_each parse as'; ok (b ∷ bs)

  -- `ImpactReasonEdgeSchema`, `AffectedNodeSchema` and `SkippedNodeSchema`
  abbrev pub parse_reason_edge : ReasonEdge → Result Fault ReasonEdge
  parse_reason_edge r = do
    edge ← parse_identifier host r.edge_id
    source ← parse_identifier host r.source_version_id
    target ← parse_identifier host r.target_version_id
    throw_if (not (leb 1 (utf16_length r.detail))) zod
    ok (record r { edge_id = edge; source_version_id = source; target_version_id = target })

  abbrev pub parse_affected : AffectedNode → Result Fault AffectedNode
  parse_affected n = do
    version ← parse_identifier host n.version_id
    selectors ← parse_selectors host n.selectors
    throw_if (eqb (length selectors) 0) zod
    via ← parse_list (parse_identifier host) n.via_edge_ids
    ok (record n { version_id = version; selectors = selectors; via_edge_ids = via })

  abbrev pub parse_skipped : SkippedNode → Result Fault SkippedNode
  parse_skipped n = do
    version ← parse_identifier host n.version_id
    via ← parse_list (parse_identifier host) n.via_edge_ids
    throw_if (eqb (length n.reasons) 0) zod
    ok (record n { version_id = version; via_edge_ids = via })

  -- `ImpactAnalysisResultSchema.parse`
  unfoldable pub parse_impact : ImpactResult → Result Fault ImpactResult
  parse_impact r = do
    source ← parse_identifier host r.source_version_id
    nodes ← parse_each parse_affected r.affected_nodes
    others ← parse_each parse_skipped r.skipped_nodes
    reasons ← parse_each parse_reason_edge r.reason_graph
    ok (record r {
      source_version_id = source;
      affected_nodes = nodes;
      skipped_nodes = others;
      reason_graph = reasons;
    })

  -- `left.generation - right.generation || left.versionId.localeCompare(right.versionId)`
  abbrev pub node_le : AffectedNode → AffectedNode → Bool
  node_le a b =
      ltb a.generation b.generation
      || (eqb a.generation b.generation && locale_leb a.version_id b.version_id)

  abbrev pub settle_node : AffectedNode → Result Fault AffectedNode
  settle_node n = do
    selectors ← unique_selectors host n.selectors
    ok (record n { selectors = selectors; via_edge_ids = sort string_leb n.via_edge_ids })

  abbrev pub settle_skipped : SkippedNode → SkippedNode
  settle_skipped n = record n {
    via_edge_ids = sort string_leb n.via_edge_ids;
    reasons = sort (λ a b. string_leb (reason_name a) (reason_name b)) n.reasons;
  }

  -- The result, from the state in which the loop ended.
  unfoldable pub report : String → State → Result Fault ImpactResult
  unfolding parse_impact
  report source st = do
    nodes ← parse_each settle_node (sort node_le (map (λ e. e.1) st.affected))
    let others =
        keep (λ n. not (is_some (lookup n.version_id st.affected))) (map (λ e. e.1) st.skipped)
    let sorted = sort (λ a b. locale_leb a.version_id b.version_id) others
    parse_impact (record {
      source_version_id = source;
      affected_nodes = nodes;
      skipped_nodes = map settle_skipped sorted;
      reason_graph = st.reason_graph;
      visited_edge_count = st.visited;
    })

  unfoldable pub prepare : Input → Result Fault Prepared
  unfolding parse_delta unique_selectors
  prepare input = do
    source ← parse_identifier host input.source_version_id
    delta ← parse_delta host input.delta
    edges ← parse_edges host input.edges
    selectors ← unique_selectors host delta.selectors
    ok (record { source = source; edges = edges; selectors = selectors })

  abbrev pub finish : String → Option (Result Fault State) → Option (Result Fault ImpactResult)
  finish source none = none
  finish source (some outcome) = some (do st ← outcome; report source st)

  abbrev pub analyse : Input → ℕ → Result Fault Prepared → Option (Result Fault ImpactResult)
  analyse input fuel (err thrown) = some (err thrown)
  analyse input fuel (ok p) =
      finish p.source
        (loop host input p.edges fuel (p.source ∷ []) (initial host input p.source p.selectors))

  -- `computeImpact`; none is that the fuel ran out.
  unfoldable pub compute_impact : Input → ℕ → Option (Result Fault ImpactResult)
  unfolding prepare report loop
  compute_impact input fuel = analyse input fuel (prepare input)
