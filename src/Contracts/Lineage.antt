-- ===== src/Contracts/Lineage.antt =====
-- packages/contracts/src/lineage.ts: the edges between versions and the selectors of their parts.
use arc_db.Base.{
  ℕ, String, Bool, not, ◌&&◌, Option, none, some, eqb, leb, is_some, Result, ok, err, throw_if,
  ◌>>=◌, ◌>>◌, ◌==◌, if◌then◌else◌,
}
use arc_db.Host.{Host}
use arc_db.Contracts.Errors.{Fault, zod}
use arc_db.Contracts.Evidence.{parse_confidence}
use arc_db.Contracts.Primitives.{parse_identifier, parse_iso_date_time, parse_option}

pub data EdgeType : Type 0 where
  produced_by derived_from read_from verified_by consumed_by caused : EdgeType
  supersedes compensated_by remediated_by : EdgeType

pub data SelectorKind : Type 0 where
  json_path file symbol table_column record_key unknown : SelectorKind

abbrev pub kind_index : SelectorKind → ℕ
kind_index json_path = 0
kind_index file = 1
kind_index symbol = 2
kind_index table_column = 3
kind_index record_key = 4
kind_index unknown = 5

abbrev pub same_kind : SelectorKind → SelectorKind → Bool
same_kind a b = eqb (kind_index a) (kind_index b)

abbrev pub kind_name : SelectorKind → String
kind_name json_path = "json_path"
kind_name file = "file"
kind_name symbol = "symbol"
kind_name table_column = "table_column"
kind_name record_key = "record"
kind_name unknown = "unknown"

pub record Selector : Type 0 where
  pub kind : SelectorKind
  pub value : String

pub record Edge : Type 0 where
  pub id : String
  pub source_version_id : String
  pub target_version_id : String
  pub edge_type : EdgeType
  pub selector : Option Selector
  pub transfer_function : Option String
  pub inferred : Bool
  pub confidence : Option ℕ
  pub created_at : String

module _ (host : Host) where
  open host use {trim, utf16_length}

  -- `z.string().trim().min(1).max(4096)`
  unfoldable pub parse_text : String → Result Fault String
  parse_text s =
      let t = trim s in
      if leb 1 (utf16_length t) && leb (utf16_length t) 4096 then ok t else err zod

  -- `LineageSelectorSchema.parse`
  unfoldable pub parse_selector : Selector → Result Fault Selector
  parse_selector s = do
    value ← parse_text s.value
    throw_if (same_kind s.kind unknown && not (value == "*")) zod
    ok (record { kind = s.kind; value = value })

  abbrev pub parse_optional_selector : Option Selector → Result Fault (Option Selector)
  parse_optional_selector none = ok none
  parse_optional_selector (some s) = do t ← parse_selector s; ok (some t)

  -- `LineageEdgeSchema.parse`
  unfoldable pub parse_edge : Edge → Result Fault Edge
  parse_edge e = do
    id ← parse_identifier host e.id
    source ← parse_identifier host e.source_version_id
    target ← parse_identifier host e.target_version_id
    selector ← parse_optional_selector e.selector
    transfer ← parse_option (parse_identifier host) e.transfer_function
    confidence ← parse_confidence e.confidence
    created_at ← parse_iso_date_time host e.created_at
    throw_if (not e.inferred && is_some confidence) zod
    ok (record e {
      id = id;
      source_version_id = source;
      target_version_id = target;
      selector = selector;
      transfer_function = transfer;
      confidence = confidence;
      created_at = created_at;
    })
