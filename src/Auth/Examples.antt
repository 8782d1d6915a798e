-- ===== src/Auth/Examples.antt =====
-- The theorems on rbac.ts, each at one principal.
use mathlib.Core.List.{Memᴰ}
use arc_db.Base.{true, ◌≡◌, ◌↔◌, some, [], ◌∷◌, ok, refl, arith}
use arc_db.Auth.{
  permission_name, effect_commit, run_write, member, admin, Principal, Scope, authorize,
  permissions_for_role,
}
use arc_db.Auth.Laws.{IsWithin, authorize_iff, grants, permissions_for_role-rank}

abbrev sample_principal : Principal
sample_principal = record {
  tenant_id = "t1";
  project_id = some "p1";
  permissions = "effect:commit" ∷ [];
}

abbrev sample_scope : Scope
sample_scope = record { tenant_id = "t1"; project_id = some "p1" }

authorize_iff_example : (authorize sample_principal effect_commit (some sample_scope) ≡ ok tt) ↔ (
    (sample_principal.tenant_id ≡ sample_scope.tenant_id)
    × IsWithin (some "p1") (some "p1")
    × Memᴰ (permission_name effect_commit) sample_principal.permissions)
authorize_iff_example = authorize_iff sample_principal effect_commit (some sample_scope)

member_writes : grants member run_write ≡ true
unfolding permissions_for_role
member_writes = refl

permissions_for_role-rank_example : grants admin run_write ≡ true
permissions_for_role-rank_example =
    permissions_for_role-rank member admin run_write (omega arith) member_writes
