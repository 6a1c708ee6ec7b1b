-- ===== src/Gates/Portal.antt =====
-- The other checks of a caller: envperm.go, domain_gate.go and ops_rbac.go in
-- server/internal/api/middleware.
use featuresignals_unified.Base.{
  ℕ, ◌≡◌, ◌⊎◌, inl, inr, refl, Bool, true, false, not, ◌||◌, Bool-cases, Option-cases, Option, none,
  some, List, [], ◌∷◌, ◌++◌, ltb, if◌then◌else◌,
}
use featuresignals_unified.Base.Preds.{In}
use featuresignals_unified.Base.Text.{Text, bytes, text_eq, text_eq_iff, has_suffix}
use featuresignals_unified.Base.Strings.{to_lower, one_of}
use featuresignals_unified.Gates.{
  Claims, Context, Gate, pass, refuse, unauthorized, restricted_domain, access_denied,
  insufficient_permissions,
}

pub record EnvPermission : Type 0 where
  pub env_id : Text
  pub can_toggle : Bool
  pub can_edit_rules : Bool

-- The switch on the permission, or the rest of the loop.
abbrev grants : Text → EnvPermission → Bool → Bool
grants permission p rest =
    if text_eq permission (bytes "can_toggle")
    then p.can_toggle
    else (if text_eq permission (bytes "can_edit_rules") then p.can_edit_rules else rest)

unfoldable pub any_grant : Text → Text → List EnvPermission → Bool
any_grant env permission [] = false
any_grant env permission (p ∷ ps) =
    let rest = any_grant env permission ps in
    if text_eq p.env_id env then grants permission p rest else rest

abbrev on_perms : Text → Text → Option (List EnvPermission) → Bool
on_perms env permission none = false
on_perms env permission (some ps) = any_grant env permission ps

abbrev pub on_member : (Text → Option (List EnvPermission)) → Text → Text → Option Text → Bool
on_member list_perms env permission none = false
on_member list_perms env permission (some member) = on_perms env permission (list_perms member)

-- CheckEnvPermission, with the member that GetOrgMember finds and its permissions; `none` is an error.
unfoldable pub check_env_permission :
    Text → Option Text → (Text → Option (List EnvPermission)) → Text → Text → Bool
unfolding any_grant
check_env_permission role member list_perms env permission =
    if text_eq role (bytes "owner") || text_eq role (bytes "admin")
    then true
    else on_member list_perms env permission member

-- The permission that a row gives.
abbrev pub Gives : Text → EnvPermission → Type 0
Gives permission p =
    ((permission ≡ bytes "can_toggle") × (p.can_toggle ≡ true))
    ⊎ ((permission ≡ bytes "can_edit_rules") × (p.can_edit_rules ≡ true))

any_grant-Gives :
    (env permission : Text) (ps : List EnvPermission)
    → any_grant env permission ps ≡ true
    → (p : EnvPermission) × In p ps × (p.env_id ≡ env) × Gives permission p
unfolding any_grant
any_grant-Gives env permission [] h = absurd (cc h)
any_grant-Gives env permission (p ∷ ps) h = elim (Bool-cases (text_eq p.env_id env)) [
  | inr other ↦
      let (q, m, e, g) = any_grant-Gives env permission ps (rw other at h) in (q, inr m, e, g)
  | inl same ↦ elim (Bool-cases (text_eq permission (bytes "can_toggle"))) [
    | inl t ↦ (
      p,
      inl refl,
      (text_eq_iff p.env_id env).0 same,
      inl ((text_eq_iff permission (bytes "can_toggle")).0 t, rw (same, t) at h),
    )
    | inr f ↦ elim (Bool-cases (text_eq permission (bytes "can_edit_rules"))) [
      | inl t ↦ (
        p,
        inl refl,
        (text_eq_iff p.env_id env).0 same,
        inr ((text_eq_iff permission (bytes "can_edit_rules")).0 t, rw (same, f, t) at h),
      )
      | inr g ↦
          let (q, m, e, k) = any_grant-Gives env permission ps (rw (same, f, g) at h) in
          (q, inr m, e, k)
    ]
  ]
]

-- A member with a row for the environment that gives the permission.
abbrev pub HasRow : Option Text → (Text → Option (List EnvPermission)) → Text → Text → Type 0
HasRow member list_perms env permission =
    (id : Text) × (ps : List EnvPermission) × (p : EnvPermission) × (member ≡ some id)
    × (list_perms id ≡ some ps)
    × In p ps
    × (p.env_id ≡ env)
    × Gives permission p

on_member-HasRow :
    (list_perms : Text → Option (List EnvPermission)) (env permission : Text) (member : Option Text)
    → on_member list_perms env permission member ≡ true
    → HasRow member list_perms env permission
on_member-HasRow list_perms env permission none h = absurd (cc h)
on_member-HasRow list_perms env permission (some id) h = elim (Option-cases (list_perms id)) [
  | inl e ↦ absurd (cc (rw e at h))
  | inr (ps, e) ↦
      let (p, m, same, gives) = any_grant-Gives env permission ps (rw e at h) in
      (id, ps, p, refl, e, m, same, gives)
]

-- A caller who may change an environment is an owner or an admin, or is a member with a row for this
-- environment that gives this permission; an error, a missing row and an unknown permission deny.
pub check_env_permission-HasRow :
    (role : Text) (member : Option Text) (list_perms : Text → Option (List EnvPermission))
    (env permission : Text)
    → check_env_permission role member list_perms env permission ≡ true
    → (role ≡ bytes "owner") ⊎ ((role ≡ bytes "admin") ⊎ HasRow member list_perms env permission)
unfolding check_env_permission
check_env_permission-HasRow role member list_perms env permission h =
    elim (Bool-cases (text_eq role (bytes "owner"))) [
      | inl t ↦ inl ((text_eq_iff role (bytes "owner")).0 t)
      | inr f ↦ elim (Bool-cases (text_eq role (bytes "admin"))) [
        | inl t ↦ inr (inl ((text_eq_iff role (bytes "admin")).0 t))
        | inr g ↦ inr (inr (on_member-HasRow list_perms env permission member (rw (f, g) at h)))
      ]
    ]

-- RequireDomain; `override` is the variable OPS_ALLOWED_DOMAIN, and the texts are the domain that the
-- router names and the address in the context.
abbrev or_address : Text → Text → Text
or_address email fallback = if text_eq email [] then fallback else email

abbrev domain_check : Text → Text → Gate Unit
domain_check email allowed =
    if text_eq email []
    then refuse restricted_domain
    else (if has_suffix (to_lower email) (bytes "@" ++ to_lower allowed)
        then pass tt
        else refuse restricted_domain)

abbrev on_claims : Text → Text → Option Claims → Gate Unit
on_claims fallback allowed none = refuse unauthorized
on_claims fallback allowed (some c) = domain_check (or_address c.email fallback) allowed

unfoldable pub require_domain : Text → Text → Text → Context → Gate Unit
require_domain override allowed fallback ctx =
    if text_eq override (bytes "*")
    then pass tt
    else on_claims fallback (if text_eq override [] then allowed else override) ctx.claims

-- `roleLevel[role]`, 0 for a missing key
unfoldable pub role_level : Text → ℕ
role_level role =
    if text_eq role (bytes "finance")
    then 1
    else (if text_eq role (bytes "customer_success")
        then 2
        else (if text_eq role (bytes "demo_team")
            then 3
            else (if text_eq role (bytes "engineer")
                then 4
                else (if text_eq role (bytes "founder") then 5 else 0))))

pub record OpsUser : Type 0 where
  pub ops_role : Text
  pub is_active : Bool

abbrev or_one : ℕ → ℕ
or_one n = if ltb 0 n then n else 1

abbrev on_ops_user : ℕ → Option OpsUser → Gate Unit
on_ops_user min_level none = refuse access_denied
on_ops_user min_level (some u) =
    if not u.is_active
    then refuse access_denied
    else (if ltb (role_level u.ops_role) min_level
        then refuse insufficient_permissions
        else pass tt)

-- RequireOpsRole; `find` is GetOpsUserByUserID, `none` for an error or a missing user.
unfoldable pub require_ops_role : Text → (Text → Option OpsUser) → Context → Gate Unit
unfolding role_level
require_ops_role min_role find ctx =
    if text_eq ctx.user_id []
    then refuse unauthorized
    else on_ops_user (or_one (role_level min_role)) (find ctx.user_id)

unfoldable pub has_ops_role : Text → List Text → Bool
has_ops_role role allowed = one_of allowed role
