-- ===== src/Contracts/Remediation.antt =====
-- packages/contracts/src/effect.ts: the obligation to remediate an effect whose cause was invalidated.
use arc_db.Base.{String, Bool, Result, ok, ◌>>=◌}
use arc_db.Host.{Host}
use arc_db.Contracts.Errors.{Fault}
use arc_db.Contracts.Primitives.{parse_identifier, parse_iso_date_time}
use arc_db.Contracts.Effect.{RiskLevel, Reversibility}
use arc_db.Contracts.Lineage.{parse_text}

pub data RemediationStatus : Type 0 where
  open_status pending_approval in_progress resolved waived : RemediationStatus

pub record Obligation : Type 0 where
  pub id : String
  pub tenant_id : String
  pub effect_intent_id : String
  pub source_output_version_id : String
  pub reason : String
  pub risk_level : RiskLevel
  pub reversibility : Reversibility
  pub requires_human_approval : Bool
  pub status : RemediationStatus
  pub created_at : String

module _ (host : Host) where
  -- `RemediationObligationSchema.parse`
  unfoldable pub parse_obligation : Obligation → Result Fault Obligation
  parse_obligation o = do
    id ← parse_identifier host o.id
    tenant ← parse_identifier host o.tenant_id
    intent ← parse_identifier host o.effect_intent_id
    source ← parse_identifier host o.source_output_version_id
    reason ← parse_text host o.reason
    created_at ← parse_iso_date_time host o.created_at
    ok (record o {
      id = id;
      tenant_id = tenant;
      effect_intent_id = intent;
      source_output_version_id = source;
      reason = reason;
      created_at = created_at;
    })
