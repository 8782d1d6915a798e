-- ===== src/Auth.antt =====
-- packages/auth/src/rbac.ts: the permissions of a role, and whether a principal has one in a scope.
pub mod Laws
mod Examples
use arc_db.Base.{
  ℕ, String, Bool, true, false, not, ◌&&◌, ◌||◌, Option, none, some, List, [], ◌∷◌, find, keep,
  includes, map, Result, ok, err, throw_if, ◌==◌,
}

pub data Permission : Type 0 where
  organization_read organization_manage project_read project_manage api_key_manage : Permission
  run_read run_write output_read output_write output_promote evidence_write : Permission
  effect_read effect_prepare effect_commit effect_remediate : Permission
  dataset_read dataset_export audit_read : Permission

abbrev pub permission_name : Permission → String
permission_name organization_read = "organization:read"
permission_name organization_manage = "organization:manage"
permission_name project_read = "project:read"
permission_name project_manage = "project:manage"
permission_name api_key_manage = "api_key:manage"
permission_name run_read = "run:read"
permission_name run_write = "run:write"
permission_name output_read = "output:read"
permission_name output_write = "output:write"
permission_name output_promote = "output:promote"
permission_name evidence_write = "evidence:write"
permission_name effect_read = "effect:read"
permission_name effect_prepare = "effect:prepare"
permission_name effect_commit = "effect:commit"
permission_name effect_remediate = "effect:remediate"
permission_name dataset_read = "dataset:read"
permission_name dataset_export = "dataset:export"
permission_name audit_read = "audit:read"

-- `PERMISSIONS`
abbrev pub permissions : List Permission
permissions =
    organization_read ∷ organization_manage ∷ project_read ∷ project_manage ∷ api_key_manage
    ∷ run_read ∷ run_write ∷ output_read ∷ output_write ∷ output_promote ∷ evidence_write
    ∷ effect_read ∷ effect_prepare ∷ effect_commit ∷ effect_remediate ∷ dataset_read
    ∷ dataset_export ∷ audit_read ∷ []

pub data Role : Type 0 where
  owner admin member viewer : Role

abbrev pub same_permission : Permission → Permission → Bool
same_permission p q = permission_name p == permission_name q

-- `ROLE_PERMISSIONS`
unfoldable pub permissions_for_role : Role → List Permission
permissions_for_role owner = permissions
permissions_for_role admin = keep (λ p. not (same_permission p organization_manage)) permissions
permissions_for_role member =
    organization_read ∷ project_read ∷ run_read ∷ run_write ∷ output_read ∷ output_write
    ∷ evidence_write ∷ effect_read ∷ effect_prepare ∷ dataset_read ∷ []
permissions_for_role viewer =
    organization_read ∷ project_read ∷ run_read ∷ output_read ∷ effect_read ∷ dataset_read ∷ []

pub record Principal : Type 0 where
  pub tenant_id : String
  pub project_id : Option String
  pub permissions : List String

pub record Scope : Type 0 where
  pub tenant_id : String
  pub project_id : Option String

pub data Fault : Type 0 where
  -- AuthorizationError(permission)
  forbidden : Permission → Fault
  -- TypeError(`Unknown permission: ${permission}`)
  unknown_permission : String → Fault

abbrev pub scope_or_own : Principal → Option Scope → Scope
scope_or_own p none = record { tenant_id = p.tenant_id; project_id = none }
scope_or_own p (some scope) = scope

-- A principal of a project is confined to it.
abbrev pub is_within : Option String → Option String → Bool
is_within none scope = true
is_within (some project) none = false
is_within (some project) (some scope) = project == scope

unfoldable pub has_permission : Principal → Permission → Option Scope → Bool
has_permission p permission given =
    let scope = scope_or_own p given in
    p.tenant_id == scope.tenant_id
    && (is_within p.project_id scope.project_id
        && includes ◌==◌ p.permissions (permission_name permission))

unfoldable pub authorize : Principal → Permission → Option Scope → Result Fault (Unit {0})
unfolding has_permission
authorize p permission scope =
    throw_if (not (has_permission p permission scope)) (forbidden permission)

abbrev pub is_known : String → Bool
is_known s = includes ◌==◌ (map permission_name permissions) s

abbrev pub refuse : Option String → Result Fault (Unit {0})
refuse none = ok tt
refuse (some s) = err (unknown_permission s)

unfoldable pub assert_known_permissions : List String → Result Fault (Unit {0})
assert_known_permissions given = refuse (find (λ s. not (is_known s)) given)
