-- ===== src/Rbac/Agree.antt =====
-- internal/auth/rbac.go: `Check` and `GetUserPermissions` compared.
use flow_ctl.Prelude.{
  ◌≡◌, refl, sym, ap, ◌∙◌, ℕ, String, Bool, true, false, Option, none, some, List, [], ◌∷◌, ◌++◌,
  ◌==◌, ◌&&◌, ◌||◌, eqb, arith, if◌then◌else◌,
}
use flow_ctl.Rbac.{
  Permission, Role, Membership, Tables, PermissionCheck, any, is_global, same_tenant, selects,
  matches, check, joins, membership_rows, role_rows, permission_rows, get_user_permissions,
}

any-append {ℓ} :
    {A : Type ℓ} (p : A → Bool) (xs ys : List A) → any p (xs ++ ys) ≡ any p xs || any p ys
any-append p [] ys = refl
any-append p (x ∷ xs) ys = rw (any-append p xs ys) (ground arith)

regroup : (x a g y b : Bool) → (x || a) || g && (y || b) ≡ (x || g && y) || (a || g && b)
regroup x a g y b = ground arith

join_or_global :
    (r s g u t : Bool)
    → (r && s) && (u && (t || g)) || g && (u && r) ≡ (r && (s || g)) && (u && (t || g))
join_or_global r s g u t = ground arith

factor : (i s x j : Bool) → i && s && x || j && x ≡ (i && s || j) && x
factor i s x j = ground arith

-- A role is selected exactly when some membership joins it.
selects-any :
    (ms : List Membership) (user tenant : ℕ) (ro : Role)
    → selects ms user tenant ro ≡ any (joins user tenant ro) ms
unfolding selects joins
selects-any [] user tenant ro = ground arith
selects-any (m ∷ ms) user tenant ro =
    regroup _ _ (is_global ro) _ _
    ∙ ap (λ b. b || (selects ms user tenant ro))
        (join_or_global (m.role == ro.name) (same_tenant m ro) (is_global ro) (eqb m.user_id user)
          (eqb m.tenant_id tenant))
    ∙ ap (λ b. joins user tenant ro m || b) (selects-any ms user tenant ro)

any-membership_rows :
    (f : Permission → Bool) (user tenant : ℕ) (p : Permission) (ro : Role) (ms : List Membership)
    → any f (membership_rows user tenant p ro ms) ≡ any (joins user tenant ro) ms && f p
unfolding membership_rows
any-membership_rows f user tenant p ro [] = refl
any-membership_rows f user tenant p ro (m ∷ ms) =
    by_join (joins user tenant ro m) (membership_rows user tenant p ro ms) _
      (any-membership_rows f user tenant p ro ms)
  where
    by_join :
        (b : Bool) (rows : List Permission) (j : Bool)
        → any f rows ≡ j && f p
        → any f (if b then p ∷ rows else rows) ≡ (b || j) && f p
    by_join true rows j h = rw h (ground arith)
    by_join false rows j h = h

any-role_rows :
    (f : Permission → Bool) (user tenant : ℕ) (ms : List Membership) (p : Permission)
    (ros : List Role)
    → any f (role_rows user tenant ms p ros)
      ≡ any (λ ro. eqb ro.id p.role_id && selects ms user tenant ro) ros && f p
unfolding role_rows
any-role_rows f user tenant ms p [] = refl
any-role_rows f user tenant ms p (ro ∷ ros) =
    by_role (eqb ro.id p.role_id) (role_rows user tenant ms p ros) _
      (any-role_rows f user tenant ms p ros)
  where
    by_role :
        (b : Bool) (rows : List Permission) (j : Bool)
        → any f rows ≡ j && f p
        → any f (if b then membership_rows user tenant p ro ms ++ rows else rows)
          ≡ (b && selects ms user tenant ro || j) && f p
    by_role true rows j h = rw (any-append, any-membership_rows, h, selects-any) (ground arith)
    by_role false rows j h = h

any-permission_rows :
    (f : Permission → Bool) (user tenant : ℕ) (db : Tables) (ps : List Permission)
    → any f (permission_rows user tenant db ps)
      ≡ any
          (λ p.
            any (λ ro. eqb ro.id p.role_id && selects db.memberships user tenant ro) db.roles
            && f p)
          ps
unfolding permission_rows
any-permission_rows f user tenant db [] = refl
any-permission_rows f user tenant db (p ∷ ps) =
    rw (any-append, any-role_rows, any-permission_rows f user tenant db ps) refl

abbrev pub grants : (resource action : String) → Option (List Permission) → Option Bool
grants resource action none = none
grants resource action (some ps) = some (any (matches resource action) ps)

-- Check answers whether some permission of GetUserPermissions matches the resource and the action, and
-- fails when it fails.
pub check-get_user_permissions :
    (db : Option Tables) (c : PermissionCheck)
    → check db c ≡ grants c.resource c.action (get_user_permissions db c.user_id c.tenant_id)
unfolding check get_user_permissions
check-get_user_permissions none c = refl
check-get_user_permissions (some db) c = ap some (
    sym (any-permission_rows (matches c.resource c.action) c.user_id c.tenant_id db db.permissions))

-- The membership of a user of any tenant gives the global role of that name in every tenant.
pub selects_global :
    (ms : List Membership) (user tenant other : ℕ) (ro : Role)
    → is_global ro ≡ true
    → selects ms user tenant ro ≡ selects ms user other ro
unfolding joins
selects_global ms user tenant other ro global =
    selects-any ms user tenant ro ∙ same ms ∙ sym (selects-any ms user other ro)
  where
    same : (ms : List Membership) → any (joins user tenant ro) ms ≡ any (joins user other ro) ms
    same [] = refl
    same (m ∷ rest) = rw (same rest, global) (ground arith)
