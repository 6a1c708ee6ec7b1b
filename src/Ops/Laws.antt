-- ===== src/Ops/Laws.antt =====
-- Who may do what.
use mathlib.Core.Path.{subst}
use featuresignals_unified.Base.{
  ◌≡◌, ◌↔◌, inl, inr, true, ◌&&◌, Option, none, some, List, [], ◌∷◌, arith, Bool-cases,
}
use featuresignals_unified.Base.Int.{ℤ}
use featuresignals_unified.Base.Preds.{All}
use featuresignals_unified.Base.Text.{Text, text_eq_iff}
use featuresignals_unified.Ops.{
  Resource, license, ops_user, billing, Action, create, update, delete, Role, founder, Permission,
  PermissionContext, role_permissions, resource_eq, action_eq, first_permission, has_permission,
}

pub resource_eq_iff : (a b : Resource) → (resource_eq a b ≡ true) ↔ (a ≡ b)
unfolding resource_eq
resource_eq_iff (Resource.other s) (Resource.other t) = ground (arith, text_eq_iff s t)
resource_eq_iff a b = ground arith

pub action_eq_iff : (a b : Action) → (action_eq a b ≡ true) ↔ (a ≡ b)
unfolding action_eq
action_eq_iff (Action.other s) (Action.other t) = ground (arith, text_eq_iff s t)
action_eq_iff a b = ground arith

-- The permissions of a role, none for a role that is not valid.
abbrev pub permissions_of : Role → List Permission
permissions_of role = elim (role_permissions role) [ none ↦ [] | some ps ↦ ps ]

module _ (parse_time : Text → Option ℤ) (now : ℤ) where
  -- What holds of each entry holds of what the entries allow.
  first_permission-All :
      (P : Resource → Action → Type 0) (ps : List Permission) (r : Resource) (a : Action)
      (ctx : Option PermissionContext)
      → All (λ p. P p.resource p.action) ps
      → first_permission parse_time now ps r a ctx ≡ true
      → P r a
  unfolding first_permission
  first_permission-All P [] r a ctx all h = absurd (cc h)
  first_permission-All P (p ∷ ps) r a ctx all h =
      elim (Bool-cases (resource_eq p.resource r && action_eq p.action a)) [
        | inl e ↦
            let er : p.resource ≡ r = (resource_eq_iff p.resource r).0 (ground arith) in
            let ea : p.action ≡ a = (action_eq_iff p.action a).0 (ground arith) in
            subst (λ x. P x a) er (subst (λ y. P p.resource y) ea all.0)
        | inr e ↦ first_permission-All P ps r a ctx all.1 (ground arith)
      ]

  role_permissions-founder :
      (role : Role)
      → All
          (λ p. has_permission parse_time now founder p.resource p.action none ≡ true)
          (permissions_of role)
  unfolding has_permission role_permissions
  role_permissions-founder role = ground arith

  -- Whatever a role may do in some context, the founder may do without one.
  pub has_permission-founder :
      (role : Role) (r : Resource) (a : Action) (ctx : Option PermissionContext)
      → has_permission parse_time now role r a ctx ≡ true
      → has_permission parse_time now founder r a none ≡ true
  unfolding has_permission
  has_permission-founder role r a ctx h =
      first_permission-All (λ r a. has_permission parse_time now founder r a none ≡ true)
        (permissions_of role) r a ctx (role_permissions-founder role) (ground arith)

  -- Only the founder may do anything with ops users, change a bill, or create or delete a license.
  pub has_permission-only_founder :
      (role : Role) (ctx : Option PermissionContext)
      → ((a : Action) → has_permission parse_time now role ops_user a ctx ≡ true → role ≡ founder)
        × (has_permission parse_time now role billing update ctx ≡ true → role ≡ founder)
        × (has_permission parse_time now role license create ctx ≡ true → role ≡ founder)
        × (has_permission parse_time now role license delete ctx ≡ true → role ≡ founder)
  unfolding has_permission
  has_permission-only_founder role ctx = ground arith
