-- ===== src/Rbac.antt =====
-- internal/auth/rbac.go: the permissions of a user, and internal/api/middleware/rbac.go: the check before
-- a handler. The rows of the three tables are lists; a query that fails is `none`.
pub mod Patterns
pub mod Agree
pub mod Middleware
use flow_ctl.Prelude.{
  ℕ, String, Bool, true, false, Option, none, some, List, [], ◌∷◌, ◌++◌, ◌==◌, ◌&&◌, ◌||◌, eqb,
  select, is_empty, if◌then◌else◌, Assoc, insert,
}
use flow_ctl.Rbac.Patterns.{matches_resource, matches_action}

pub record Permission : Type 0 where
  pub id : ℕ
  pub role_id : ℕ
  pub resource : String
  pub action : String

-- A role without a tenant is global.
pub record Role : Type 0 where
  pub id : ℕ
  pub name : String
  pub tenant_id : Option ℕ

pub record Membership : Type 0 where
  pub user_id : ℕ
  pub tenant_id : ℕ
  pub role : String

pub record Tables : Type 0 where
  pub permissions : List Permission
  pub roles : List Role
  pub memberships : List Membership

pub record PermissionCheck : Type 0 where
  pub user_id : ℕ
  pub tenant_id : ℕ
  pub resource : String
  pub action : String

abbrev pub any {ℓ} : {A : Type ℓ} → (A → Bool) → List A → Bool
any p [] = false
any p (x ∷ xs) = p x || any p xs

abbrev pub is_global : Role → Bool
is_global ro = elim ro.tenant_id [ none ↦ true | some t ↦ false ]

-- `tm.tenant_id = ro.tenant_id`, which does not hold of NULL.
abbrev pub same_tenant : Membership → Role → Bool
same_tenant m ro = elim ro.tenant_id [ none ↦ false | some t ↦ eqb m.tenant_id t ]

-- The WHERE clause of `Check`, of a role and its joined memberships.
unfoldable pub selects : List Membership → (user tenant : ℕ) → Role → Bool
selects ms user tenant ro =
    any
      (λ m.
        (m.role == ro.name && same_tenant m ro)
        && (eqb m.user_id user && (eqb m.tenant_id tenant || is_global ro)))
      ms
    || is_global ro && any (λ m. eqb m.user_id user && m.role == ro.name) ms

abbrev pub matches : (resource action : String) → Permission → Bool
matches resource action p = matches_resource p.resource resource && matches_action p.action action

unfoldable pub check : Option Tables → PermissionCheck → Option Bool
unfolding selects
check none c = none
check (some db) c = some (
    any
      (λ p.
        any (λ ro. eqb ro.id p.role_id && selects db.memberships c.user_id c.tenant_id ro) db.roles
        && matches c.resource c.action p)
      db.permissions)

-- The join and the WHERE clause of `GetUserPermissions`, of a role and a membership.
unfoldable pub joins : (user tenant : ℕ) → Role → Membership → Bool
joins user tenant ro m =
    (m.role == ro.name && (same_tenant m ro || is_global ro))
    && (eqb m.user_id user && (eqb m.tenant_id tenant || is_global ro))

-- The rows of one permission: one for each role and membership that it joins.
unfoldable pub membership_rows :
    (user tenant : ℕ) → Permission → Role → List Membership → List Permission
unfolding joins
membership_rows user tenant p ro [] = []
membership_rows user tenant p ro (m ∷ ms) =
    let rest = membership_rows user tenant p ro ms in
    if joins user tenant ro m then p ∷ rest else rest

unfoldable pub role_rows :
    (user tenant : ℕ) → List Membership → Permission → List Role → List Permission
unfolding membership_rows
role_rows user tenant ms p [] = []
role_rows user tenant ms p (ro ∷ ros) =
    let rest = role_rows user tenant ms p ros in
    if eqb ro.id p.role_id then membership_rows user tenant p ro ms ++ rest else rest

unfoldable pub permission_rows : (user tenant : ℕ) → Tables → List Permission → List Permission
unfolding role_rows
permission_rows user tenant db [] = []
permission_rows user tenant db (p ∷ ps) =
    role_rows user tenant db.memberships p db.roles ++ permission_rows user tenant db ps

unfoldable pub get_user_permissions : Option Tables → (user tenant : ℕ) → Option (List Permission)
unfolding permission_rows
get_user_permissions none user tenant = none
get_user_permissions (some db) user tenant = some (permission_rows user tenant db db.permissions)
