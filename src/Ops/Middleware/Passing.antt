-- ===== src/Ops/Middleware/Passing.antt =====
-- Which requests the permission checks let through.
use mathlib.Core.Path.{subst}
use featuresignals_unified.Base.{
  ◌≡◌, ◌≢◌, ◌↔◌, ◌⊎◌, inl, inr, true, false, ◌&&◌, Option, none, some, List, [], ◌∷◌, arith, refl,
  Bool-cases,
}
use featuresignals_unified.Base.Int.{ℤ}
use featuresignals_unified.Base.Preds.{All, In, In-All}
use featuresignals_unified.Base.Text.{Text, bytes}
use featuresignals_unified.Ops.{
  Resource, debug_mode, ssh_access, Action, execute, Role, Permission, PermissionContext, grant,
  role_permissions, resource_eq, action_eq, first_permission, decide, has_permission, is_valid_role,
}
use featuresignals_unified.Ops.Laws.{resource_eq_iff, action_eq_iff, permissions_of}
use featuresignals_unified.Ops.Middleware.{
  Claims, Request, unauthorized, passed, ops_permission, ops_auto_permission, determine_resource,
  determine_action, check_route, with_role, request_context, sub_resource,
}

-- The role has a grant of the action with no condition.
abbrev pub Granted : Role → Resource → Action → Type 0
Granted role r a = In (grant r a) (permissions_of role)

-- The resource of a route, if it has one, has a grant of the action of the method.
abbrev pub RouteGranted : Role → Option Resource → Text → Type 0
RouteGranted role none method = Unit
RouteGranted role (some r) method = Granted role r (determine_action method)

module _ (parse_time : Text → Option ℤ) (now : ℤ) (ctx : PermissionContext) where
  -- No entry is preceded by one for the same action, and the conditions all fail in the context.
  abbrev Plain : List Permission → Type 0
  Plain [] = Unit
  Plain (p ∷ ps) =
      ((p.condition ≡ none) ⊎ (decide parse_time now p.condition (some ctx) ≡ false))
      × All (λ q. resource_eq p.resource q.resource && action_eq p.action q.action ≡ false) ps
      × Plain ps

  first_permission-In :
      (ps : List Permission) (r : Resource) (a : Action)
      → Plain ps
      → (first_permission parse_time now ps r a (some ctx) ≡ true) ↔ In (grant r a) ps
  unfolding first_permission decide
  first_permission-In [] r a plain = ground arith
  first_permission-In (p ∷ ps) r a plain = ground (
    arith,
    resource_eq_iff p.resource r,
    action_eq_iff p.action a,
    first_permission-In ps r a plain.2,
    In-All (λ q. resource_eq p.resource q.resource && action_eq p.action q.action ≡ false)
        {a = grant r a} ps plain.1,
    plain.0,
  )

module _ (parse_time : Text → Option ℤ) (now : ℤ) where
  permissions_of-Plain :
      (claims : Claims) (req : Request) (r : Resource) (role : Role)
      → Plain parse_time now (request_context claims req r) (permissions_of role)
  unfolding role_permissions decide resource_eq action_eq request_context
  permissions_of-Plain claims req r role = ground arith

  has_permission-Granted :
      (claims : Claims) (req : Request) (role : Role) (r r' : Resource) (a : Action)
      → (has_permission parse_time now role r a (some (request_context claims req r')) ≡ true)
        ↔ Granted role r a
  unfolding has_permission
  has_permission-Granted claims req role r r' a = ground (
    arith,
    first_permission-In parse_time now (request_context claims req r') (permissions_of role) r a
        (permissions_of-Plain claims req r' role),
  )

  -- A check of one resource and action passes a request exactly when there are claims whose role
  -- has a grant of the action with no condition; a grant with a condition never passes.
  pub ops_permission_iff :
      (claims : Claims) (req : Request) (r : Resource) (a : Action)
      → ((ops_permission parse_time now (some claims) req r a ≡ passed) ↔ Granted claims.role r a)
        × (ops_permission parse_time now none req r a ≡ unauthorized)
  unfolding ops_permission is_valid_role
  ops_permission_iff claims req r a =
      (ground (arith, has_permission-Granted claims req claims.role r r a), refl)

  with_role-route :
      (claims : Claims) (req : Request) (route : Option Resource)
      → (with_role parse_time now claims (check_route parse_time now claims req route) ≡ passed)
        ↔ ((is_valid_role claims.role ≡ true) × RouteGranted claims.role route req.method)
  unfolding with_role check_route is_valid_role
  with_role-route claims req none = ground arith
  with_role-route claims req (some r) =
      ground
        (arith, has_permission-Granted claims req claims.role r r (determine_action req.method))

  -- The automatic check passes a request exactly when there are claims with a valid role and the
  -- resource that the path stands for, if any, is granted for the action of the method with no
  -- condition: a path that stands for no resource is open to every valid role.
  pub ops_auto_permission_iff :
      (claims : Claims) (req : Request)
      → ((ops_auto_permission parse_time now (some claims) req ≡ passed) ↔ (
          (is_valid_role claims.role ≡ true)
          × RouteGranted claims.role (determine_resource req.path) req.method))
        × (ops_auto_permission parse_time now none req ≡ unauthorized)
  unfolding ops_auto_permission
  ops_auto_permission_iff claims req =
      (with_role-route claims req (determine_resource req.path), refl)

  determine_action-execute : (method : Text) → determine_action method ≢ execute
  unfolding determine_action
  determine_action-execute method = ground arith

  execute-Granted :
      (role : Role) (a : Action)
      → a ≢ execute
      → (Granted role debug_mode a → ⊥) × (Granted role ssh_access a → ⊥)
  unfolding role_permissions
  execute-Granted role a h = ground arith

  determine_resource-debug :
      (path : Text)
      → (sub_resource path (bytes "/debug") ≡ true) ⊎ (sub_resource path (bytes "/restart") ≡ true)
      → (determine_resource path ≡ some debug_mode) ⊎ (determine_resource path ≡ some ssh_access)
  unfolding determine_resource
  determine_resource-debug path h = elim (Bool-cases (sub_resource path (bytes "/debug"))) [
    | inl e ↦ inl (rw e)
    | inr e ↦ elim h [ inl e' ↦ absurd (cc (e, e')) | inr e' ↦ inr (rw (e, e')) ]
  ]

  -- The automatic check refuses every request for the debug mode or the restart of an
  -- environment, the founder's too: no method stands for the action that the roles are granted.
  pub ops_auto_permission-debug :
      (claims : Option Claims) (req : Request)
      → (sub_resource req.path (bytes "/debug") ≡ true)
        ⊎ (sub_resource req.path (bytes "/restart") ≡ true)
      → ops_auto_permission parse_time now claims req ≢ passed
  unfolding ops_auto_permission
  ops_auto_permission-debug none req path passes = absurd (cc passes)
  ops_auto_permission-debug (some claims) req path passes =
      let granted = ((ops_auto_permission_iff claims req).0.0 passes).1 in
      elim (determine_resource-debug req.path path) [
        | inl e ↦
            (execute-Granted claims.role (determine_action req.method)
                (determine_action-execute req.method)).0
              (subst (λ r. RouteGranted claims.role r req.method) e granted)
        | inr e ↦
            (execute-Granted claims.role (determine_action req.method)
                (determine_action-execute req.method)).1
              (subst (λ r. RouteGranted claims.role r req.method) e granted)
      ]
