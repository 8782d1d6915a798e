-- ===== src/Auth/Laws.antt =====
-- packages/auth/src/rbac.ts: when authorization succeeds, and how the roles compare.
use mathlib.Core.List.{Memᴰ}
use mathlib.Core.List.Memᴰ
use arc_db.Base.{
  ℕ, String, Bool, true, ◌≡◌, refl, sym, ◌↔◌, ◌⊎◌, inl, inr, Option, none, some, List, [], ◌∷◌,
  includes, ok, arith, ◌==◌, eq_iff, ◌≤◌, All, all, map, ap, ◌∙◌, ◌||◌, Bool-cases,
}
use arc_db.Auth.{
  Permission, permission_name, permissions, Role, owner, admin, member, viewer,
  permissions_for_role, Principal, Scope, scope_or_own, is_within, has_permission, authorize,
  same_permission, is_known, assert_known_permissions,
}

includes_iff : (xs : List String) (s : String) → (includes ◌==◌ xs s ≡ true) ↔ Memᴰ s xs
includes_iff [] s = ((λ h. cc), λ m. elim m [ ])
includes_iff (x ∷ xs) s =
    let ih = includes_iff xs s in
    (
      (λ h. elim (split h) [ inl e ↦ Memᴰ.head (sym e) | inr k ↦ Memᴰ.tail (ih.0 k) ]),
      λ m. elim (Memᴰ.cases_cons m) [
        | inl e ↦ ground (arith, eq_iff x s)
        | inr k ↦ let later = ih.1 k in ground (arith, later)
      ],
    )
  where
    split : includes ◌==◌ (x ∷ xs) s ≡ true → (x ≡ s) ⊎ (includes ◌==◌ xs s ≡ true)
    split h = ground (arith, eq_iff x s)

-- The project of a scope is the principal's own, if the principal has one.
abbrev pub IsWithin : Option String → Option String → Type 0
IsWithin own scope = (project : String) → own ≡ some project → scope ≡ some project

is_within_iff : (own scope : Option String) → (is_within own scope ≡ true) ↔ IsWithin own scope
is_within_iff none scope = ((λ h p e. cc), λ h. refl)
is_within_iff (some p) none = ((λ h q e. cc), λ h. let e = h p refl in cc)
is_within_iff (some p) (some q) = (
  (λ h r e. let same = (eq_iff p q).0 h in cc),
  λ h. let e : some q ≡ some p = h p refl in let f : p ≡ q = cc in (eq_iff p q).1 f,
)

-- `authorize` returns exactly if the scope is of the principal's tenant and of its project, if it has
-- one, and the permission is one of the principal's; with no scope given, the scope is the
-- principal's tenant and no project.
pub authorize_iff :
    (p : Principal) (permission : Permission) (given : Option Scope)
    → (authorize p permission given ≡ ok tt) ↔ (
        (p.tenant_id ≡ (scope_or_own p given).tenant_id)
        × IsWithin p.project_id (scope_or_own p given).project_id
        × Memᴰ (permission_name permission) p.permissions)
unfolding authorize has_permission
authorize_iff p permission given =
    let scope = scope_or_own p given in
    let same = eq_iff p.tenant_id scope.tenant_id in
    let within = is_within_iff p.project_id scope.project_id in
    let held = includes_iff p.permissions (permission_name permission) in
    (
      (λ h. (same.0 (ground arith), within.0 (ground arith), held.0 (ground arith))),
      λ h.
          let (e, f, m) = h in
          let a = same.1 e in let b = within.1 f in let c = held.1 m in ground arith,
    )

abbrev pub rank : Role → ℕ
rank viewer = 0
rank member = 1
rank admin = 2
rank owner = 3

abbrev pub grants : Role → Permission → Bool
grants role p = includes same_permission (permissions_for_role role) p

-- Whether a role grants a permission depends on the name alone.
includes_names :
    (l : List Permission) (p : Permission)
    → includes same_permission l p ≡ includes ◌==◌ (map permission_name l) (permission_name p)
includes_names [] p = refl
includes_names (q ∷ l) p =
    ap (λ b. permission_name q == permission_name p || b) (includes_names l p)

grants_of_name :
    (role : Role) (p q : Permission)
    → permission_name p ≡ permission_name q
    → grants role p ≡ true
    → grants role q ≡ true
grants_of_name role p q e h =
    let l = permissions_for_role role in
    includes_names l q
    ∙ ap (includes ◌==◌ (map permission_name l)) (sym e)
    ∙ sym (includes_names l p)
    ∙ h

included :
    (s : Role) (l : List Permission) (p : Permission)
    → all (grants s) l ≡ true
    → includes same_permission l p ≡ true
    → grants s p ≡ true
included s [] p h g = cc
included s (q ∷ l) p h g = elim (Bool-cases (same_permission q p)) [
  | inl same ↦
      grants_of_name s q p ((eq_iff (permission_name q) (permission_name p)).0 same) (ground arith)
  | inr differs ↦ included s l p (ground arith) (ground arith)
]

-- The lower role's permissions, each looked up among the higher role's.
role_included : (r s : Role) → rank r ≤ rank s → all (grants s) (permissions_for_role r) ≡ true
unfolding permissions_for_role
role_included viewer viewer h = refl
role_included viewer member h = refl
role_included viewer admin h = refl
role_included viewer owner h = refl
role_included member member h = refl
role_included member admin h = refl
role_included member owner h = refl
role_included admin admin h = refl
role_included admin owner h = refl
role_included owner owner h = refl
role_included member viewer h = absurd (omega arith)
role_included admin viewer h = absurd (omega arith)
role_included admin member h = absurd (omega arith)
role_included owner viewer h = absurd (omega arith)
role_included owner member h = absurd (omega arith)
role_included owner admin h = absurd (omega arith)

-- A higher role grants every permission of a lower one, in the order VIEWER, MEMBER, ADMIN, OWNER.
pub permissions_for_role-rank :
    (r s : Role) (p : Permission) → rank r ≤ rank s → grants r p ≡ true → grants s p ≡ true
permissions_for_role-rank r s p h g = included s (permissions_for_role r) p (role_included r s h) g

-- `assertKnownPermissions` returns exactly if every text given is the name of a permission.
pub assert_known_permissions_iff :
    (given : List String)
    → (assert_known_permissions given ≡ ok tt)
      ↔ All (λ s. Memᴰ s (map permission_name permissions)) given
unfolding assert_known_permissions
assert_known_permissions_iff [] = ((λ h. tt), λ h. refl)
assert_known_permissions_iff (s ∷ rest) =
    let ih = assert_known_permissions_iff rest in
    let known = includes_iff (map permission_name permissions) s in
    elim (Bool-cases (is_known s)) [
      | inl fits ↦ rw fits ((λ h. (known.0 fits, ih.0 h)), λ h. ih.1 h.1)
      | inr misses ↦ rw misses ((λ h. cc), λ h. let fits = known.1 h.0 in cc)
    ]
