-- ===== src/Tests/Permissions.antt =====
-- Tests of the permissions, and their theorems at sample tables.
use flow_ctl.Prelude.{◌≡◌, refl, true, false, none, some, [], ◌∷◌}
use flow_ctl.Rbac.{Role, Tables, PermissionCheck, selects, check, get_user_permissions}
use flow_ctl.Rbac.Patterns.{matches_resource, matches_action}
use flow_ctl.Rbac.Agree.{grants, check-get_user_permissions, selects_global}
use flow_ctl.Rbac.Middleware.{
  Claims, Granted, is_member, inject_tenant, require, guarded, guarded-Granted, served,
}

abbrev admin : Role
admin = record { id = 1; name = "admin"; tenant_id = none }

-- User 9 is an admin of tenant 2 and a viewer of tenant 1.
abbrev tables : Tables
tables = record {
  permissions = record { id = 5; role_id = 1; resource = "workflow:*"; action = "*" } ∷ [];
  roles = admin ∷ [];
  memberships =
      record { user_id = 9; tenant_id = 2; role = "admin" }
      ∷ record { user_id = 9; tenant_id = 1; role = "viewer" }
      ∷ [];
}

abbrev deletes_in_1 : PermissionCheck
deletes_in_1 = record { user_id = 9; tenant_id = 1; resource = "workflow:7"; action = "delete" }

-- The viewer of tenant 1 may delete there, being an admin of tenant 2.
viewer_deletes : check (some tables) deletes_in_1 ≡ some true
unfolding check matches_resource matches_action
viewer_deletes = refl

patterns :
    (matches_resource "workflow:*" "workflow:" ≡ true)
    × (matches_resource "workflow:*" "workflow" ≡ false)
    × (matches_resource "audit" "audit" ≡ true)
    × (matches_resource "a*" "ab" ≡ false)
unfolding matches_resource
patterns = (refl, refl, refl, refl)

check-get_user_permissions_example :
    check (some tables) deletes_in_1
    ≡ grants "workflow:7" "delete" (get_user_permissions (some tables) 9 1)
check-get_user_permissions_example = check-get_user_permissions (some tables) deletes_in_1

selects_global_example : selects tables.memberships 9 1 admin ≡ selects tables.memberships 9 2 admin
selects_global_example = selects_global tables.memberships 9 1 2 admin refl

abbrev token : Claims
token = record { user_id = 9; tenant_id = 1 }

-- The header chooses a tenant of the user; another one is ignored.
chosen : guarded (some tables) (some 2) "workflow:7" "read" (some token) ≡ served 2
unfolding guarded inject_tenant is_member require check matches_resource matches_action
chosen = refl

ignored : guarded (some tables) (some 3) "workflow:7" "read" (some token) ≡ served 1
unfolding guarded inject_tenant is_member require check matches_resource matches_action
ignored = refl

guarded-Granted_example :
    Granted
      (some tables)
      "workflow:7"
      "read"
      (some token)
      (guarded (some tables) (some 2) "workflow:7" "read" (some token))
guarded-Granted_example = guarded-Granted (some tables) (some 2) "workflow:7" "read" (some token)
