-- ===== src/Rbac/Middleware.antt =====
-- internal/api/middleware/tenant.go and internal/api/middleware/rbac.go: which tenant a request acts for,
-- and the check before its handler.
use flow_ctl.Prelude.{
  ◌≡◌, refl, ◌⊎◌, inl, inr, ℕ, String, Bool, true, false, Option, none, some, ◌&&◌, eqb,
  if◌then◌else◌, Bool-cases,
}
use flow_ctl.Rbac.{Membership, Tables, PermissionCheck, any, check}

-- Of the token's claims, what the two read.
pub record Claims : Type 0 where
  pub user_id : ℕ
  pub tenant_id : ℕ

pub data Response : Type 0 where
  unauthorized : Response
  forbidden : Response
  served : (tenant : ℕ) → Response

-- The query of `InjectTenant`; an error reads as false.
unfoldable pub is_member : Option Tables → (user tenant : ℕ) → Bool
is_member none user tenant = false
is_member (some db) user tenant =
    any (λ (m : Membership). eqb m.user_id user && eqb m.tenant_id tenant) db.memberships

-- `header` is the parsed X-Tenant-ID; none without one, or if it does not parse.
unfoldable pub inject_tenant : Option Tables → (header : Option ℕ) → Claims → ℕ
unfolding is_member
inject_tenant db none claims = claims.tenant_id
inject_tenant db (some t) claims = if is_member db claims.user_id t then t else claims.tenant_id

unfoldable pub require :
    Option Tables → (resource action : String) → Claims → (tenant : ℕ) → Response
unfolding check
require db resource action claims tenant =
    let c : PermissionCheck = record {
      user_id = claims.user_id;
      tenant_id = tenant;
      resource = resource;
      action = action;
    } in
    elim (check db c) [
      | none ↦ forbidden
      | some allowed ↦ if allowed then served tenant else forbidden
    ]

-- The chain of the two; without claims the first one answers.
unfoldable pub guarded :
    Option Tables → (header : Option ℕ) → (resource action : String) → Option Claims → Response
unfolding inject_tenant require
guarded db header resource action none = unauthorized
guarded db header resource action (some claims) =
    require db resource action claims (inject_tenant db header claims)

-- The tenant is the token's own, or one that the user is a member of.
abbrev pub IsTenantOf : Option Tables → Claims → ℕ → Type 0
IsTenantOf db claims t = (t ≡ claims.tenant_id) ⊎ (is_member db claims.user_id t ≡ true)

inject_tenant-IsTenantOf :
    (db : Option Tables) (header : Option ℕ) (claims : Claims)
    → IsTenantOf db claims (inject_tenant db header claims)
unfolding inject_tenant
inject_tenant-IsTenantOf db none claims = inl refl
inject_tenant-IsTenantOf db (some t) claims = elim (Bool-cases (is_member db claims.user_id t)) [
  | inl e ↦ rw e (inr e)
  | inr e ↦ rw e (inl refl)
]

-- What a response grants: a served request has a tenant of the user and passed Check there.
abbrev pub Granted : Option Tables → (resource action : String) → Option Claims → Response → Type 0
Granted db resource action claims (served t) =
    (cl : Claims) × (claims ≡ some cl)
    × IsTenantOf db cl t
    × (check db
          (record { user_id = cl.user_id; tenant_id = t; resource = resource; action = action })
        ≡ some true)
Granted db resource action claims r = Unit

-- A request that the chain serves has claims, acts for the tenant of the claims or one that the user
-- is a member of, and Check grants the action to the user in that tenant.
pub guarded-Granted :
    (db : Option Tables) (header : Option ℕ) (resource action : String) (claims : Option Claims)
    → Granted db resource action claims (guarded db header resource action claims)
unfolding guarded require
guarded-Granted db header resource action none = tt
guarded-Granted db header resource action (some cl) = by_check (check db asked) refl
  where
    tenant : ℕ
    tenant = inject_tenant db header cl

    asked : PermissionCheck
    asked = record {
      user_id = cl.user_id;
      tenant_id = tenant;
      resource = resource;
      action = action;
    }

    by_check :
        (o : Option Bool)
        → check db asked ≡ o
        → Granted db resource action (some cl) (elim o [
          | none ↦ forbidden
          | some allowed ↦ if allowed then served tenant else forbidden
        ])
    by_check none e = tt
    by_check (some false) e = tt
    by_check (some true) e = (cl, refl, inject_tenant-IsTenantOf db header cl, e)
