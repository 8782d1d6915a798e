-- ===== src/Contracts/Output.antt =====
-- packages/contracts/src/output.ts: an output version, its lifecycle states and its schema.
use arc_db.Base.{
  ℕ, String, Bool, false, not, Option, some, List, eqb, ltb, Result, ok, throw_if, ◌>>=◌, ◌>>◌,
}
use arc_db.Host.{Host}
use arc_db.Contracts.Errors.{Fault, zod}
use arc_db.Contracts.Digest.{Fields}
use arc_db.Contracts.Primitives.{
  has_unique_values, parse_identifier, parse_digest, parse_iso_date_time, parse_option, parse_list,
}

pub data OutputType : Type 0 where
  text json markdown code_patch file_tree sql tool_plan decision dataset_record : OutputType

pub data OutputState : Type 0 where
  created staged verified approved committed consumed promoted rejected stale : OutputState
  invalidated superseded : OutputState

-- Equality of two states is equality of their positions in the enumeration.
abbrev pub state_index : OutputState → ℕ
state_index OutputState.created = 0
state_index OutputState.staged = 1
state_index OutputState.verified = 2
state_index OutputState.approved = 3
state_index OutputState.committed = 4
state_index OutputState.consumed = 5
state_index OutputState.promoted = 6
state_index OutputState.rejected = 7
state_index OutputState.stale = 8
state_index OutputState.invalidated = 9
state_index OutputState.superseded = 10

abbrev pub same_state : OutputState → OutputState → Bool
same_state a b = eqb (state_index a) (state_index b)

abbrev pub state_name : OutputState → String
state_name OutputState.created = "CREATED"
state_name OutputState.staged = "STAGED"
state_name OutputState.verified = "VERIFIED"
state_name OutputState.approved = "APPROVED"
state_name OutputState.committed = "COMMITTED"
state_name OutputState.consumed = "CONSUMED"
state_name OutputState.promoted = "PROMOTED"
state_name OutputState.rejected = "REJECTED"
state_name OutputState.stale = "STALE"
state_name OutputState.invalidated = "INVALIDATED"
state_name OutputState.superseded = "SUPERSEDED"

pub record Output : Type 0 where
  pub id : String
  pub tenant_id : String
  pub project_id : String
  pub logical_id : String
  pub version_id : String
  pub output_type : OutputType
  pub schema_id : Option String
  pub content_ref : String
  pub content_digest : String
  pub producer_run_id : Option String
  pub producer_agent_id : Option String
  pub parent_version_ids : List String
  pub policy_version : Option String
  pub lifecycle_state : OutputState
  pub metadata : Fields
  pub created_at : String
  pub updated_at : String

-- `a < b` of two values of `Date.parse`; a comparison with NaN is false.
abbrev pub time_lt : Option ℕ → Option ℕ → Bool
time_lt (some a) (some b) = ltb a b
time_lt _ _ = false

module _ (host : Host) where
  open host use {date_parse}

  -- `OutputObjectSchema.parse`
  unfoldable pub parse_output : Output → Result Fault Output
  parse_output o = do
    id ← parse_identifier host o.id
    tenant_id ← parse_identifier host o.tenant_id
    project_id ← parse_identifier host o.project_id
    logical_id ← parse_identifier host o.logical_id
    version_id ← parse_identifier host o.version_id
    schema_id ← parse_option (parse_identifier host) o.schema_id
    content_ref ← parse_identifier host o.content_ref
    content_digest ← parse_digest host o.content_digest
    producer_run_id ← parse_option (parse_identifier host) o.producer_run_id
    producer_agent_id ← parse_option (parse_identifier host) o.producer_agent_id
    parent_version_ids ← parse_list (parse_identifier host) o.parent_version_ids
    policy_version ← parse_option (parse_identifier host) o.policy_version
    created_at ← parse_iso_date_time host o.created_at
    updated_at ← parse_iso_date_time host o.updated_at
    throw_if (not (has_unique_values parent_version_ids)) zod
    throw_if (time_lt (date_parse updated_at) (date_parse created_at)) zod
    ok (record o {
      id = id;
      tenant_id = tenant_id;
      project_id = project_id;
      logical_id = logical_id;
      version_id = version_id;
      schema_id = schema_id;
      content_ref = content_ref;
      content_digest = content_digest;
      producer_run_id = producer_run_id;
      producer_agent_id = producer_agent_id;
      parent_version_ids = parent_version_ids;
      policy_version = policy_version;
      created_at = created_at;
      updated_at = updated_at;
    })
