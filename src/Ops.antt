-- ===== src/Ops.antt =====
-- Permissions of the operations portal: server/internal/domain/ops_permissions.go. `other` is any
-- string that is no constant, and a condition that is the empty string is `none`.
pub mod Middleware
pub mod Laws
mod Tests
use featuresignals_unified.Base.{
  ℕ, Bool, true, false, not, ◌&&◌, Option, none, some, List, [], ◌∷◌, ◌==◌, if◌then◌else◌,
}
use featuresignals_unified.Base.Int.{ℤ, pos, ltb_ℤ}
use featuresignals_unified.Base.Text.{Text, text_eq}
use featuresignals_unified.Eval.Engine.{is_nil}

pub data Resource : Type 0 where
  environment customer license cost audit_log ops_user sandbox debug_mode : Resource
  ssh_access billing : Resource
  other : Text → Resource

pub data Action : Type 0 where
  create read update delete execute export : Action
  other : Text → Action

pub data PermissionCondition : Type 0 where
  own_sandbox_only temporary_debug perf_env_auto_delete sandbox_auto_expire : PermissionCondition
  cost_view_internal_only : PermissionCondition
  other : Text → PermissionCondition

pub data Role : Type 0 where
  founder engineer customer_success demo_team finance qa perf_tester sales support : Role
  other : Text → Role

pub record Permission : Type 0 where
  pub resource : Resource
  pub action : Action
  pub condition : Option PermissionCondition

abbrev pub resource_tag : Resource → ℕ
resource_tag environment = 0
resource_tag customer = 1
resource_tag license = 2
resource_tag cost = 3
resource_tag audit_log = 4
resource_tag ops_user = 5
resource_tag sandbox = 6
resource_tag debug_mode = 7
resource_tag ssh_access = 8
resource_tag billing = 9
resource_tag (Resource.other _) = 10

-- `a == b` on resources
pub resource_eq : Resource → Resource → Bool
resource_eq (Resource.other s) (Resource.other t) = text_eq s t
resource_eq a b = resource_tag a == resource_tag b

abbrev pub action_tag : Action → ℕ
action_tag create = 0
action_tag read = 1
action_tag update = 2
action_tag delete = 3
action_tag execute = 4
action_tag export = 5
action_tag (Action.other _) = 6

-- `a == b` on actions
pub action_eq : Action → Action → Bool
action_eq (Action.other s) (Action.other t) = text_eq s t
action_eq a b = action_tag a == action_tag b

abbrev pub grant : Resource → Action → Permission
grant r a = record { resource = r; action = a; condition = none }

abbrev pub grant_if : Resource → Action → PermissionCondition → Permission
grant_if r a c = record { resource = r; action = a; condition = some c }

-- `permissions, ok := rolePermissions[role]`
pub role_permissions : Role → Option (List Permission)
role_permissions founder = some (
    grant environment create
    ∷ grant environment read
    ∷ grant environment update
    ∷ grant environment delete
    ∷ grant environment execute
    ∷ grant customer read
    ∷ grant customer update
    ∷ grant customer create
    ∷ grant license create
    ∷ grant license read
    ∷ grant license update
    ∷ grant license delete
    ∷ grant cost read
    ∷ grant cost export
    ∷ grant audit_log read
    ∷ grant audit_log export
    ∷ grant ops_user create
    ∷ grant ops_user read
    ∷ grant ops_user update
    ∷ grant ops_user delete
    ∷ grant sandbox create
    ∷ grant sandbox read
    ∷ grant sandbox delete
    ∷ grant debug_mode execute
    ∷ grant ssh_access execute
    ∷ grant billing read
    ∷ grant billing update
    ∷ [])
role_permissions engineer = some (
    grant environment create
    ∷ grant environment read
    ∷ grant environment update
    ∷ grant environment delete
    ∷ grant environment execute
    ∷ grant customer read
    ∷ grant customer create
    ∷ grant license read
    ∷ grant license update
    ∷ grant cost read
    ∷ grant audit_log read
    ∷ grant sandbox create
    ∷ grant sandbox read
    ∷ grant sandbox delete
    ∷ grant debug_mode execute
    ∷ grant ssh_access execute
    ∷ [])
role_permissions customer_success = some (
    grant environment read
    ∷ grant customer read
    ∷ grant audit_log read
    ∷ grant_if debug_mode execute temporary_debug
    ∷ [])
role_permissions demo_team = some (
    grant sandbox create
    ∷ grant sandbox read
    ∷ grant_if sandbox delete own_sandbox_only
    ∷ grant environment read
    ∷ [])
role_permissions finance =
    some (grant cost read ∷ grant cost export ∷ grant customer read ∷ grant billing read ∷ [])
role_permissions qa = some (
    grant environment read
    ∷ grant sandbox create
    ∷ grant sandbox read
    ∷ grant_if sandbox delete own_sandbox_only
    ∷ grant audit_log read
    ∷ [])
role_permissions perf_tester = some (
    grant environment create
    ∷ grant environment read
    ∷ grant_if environment delete own_sandbox_only
    ∷ grant audit_log read
    ∷ [])
role_permissions sales = some (grant environment read ∷ grant customer read ∷ [])
role_permissions support = some (
    grant environment read
    ∷ grant audit_log read
    ∷ grant_if debug_mode execute temporary_debug
    ∷ [])
role_permissions (Role.other _) = none

pub record PermissionContext : Type 0 where
  pub is_owner : Bool
  pub debug_enabled_until : Text
  pub sandbox_count : ℤ
  pub max_sandboxes : ℤ
  pub user_id : Text
  pub resource_id : Text

abbrev is_zero : ℤ → Bool
is_zero (pos n) = n == 0
is_zero _ = false

-- Instants are nanoseconds since Go's zero time; `parse_time` is `time.Parse(time.RFC3339, …)`,
-- with `none` for its error, and `now` is `time.Now()`.
module _ (parse_time : Text → Option ℤ) (now : ℤ) where
  -- `!enabledUntil.IsZero() && enabledUntil.After(time.Now())`, false after an error
  debug_open : Option ℤ → Bool
  debug_open none = false
  debug_open (some until) = not (is_zero until) && ltb_ℤ now until

  condition_holds : PermissionCondition → PermissionContext → Bool
  unfolding debug_open
  condition_holds own_sandbox_only ctx = ctx.is_owner
  condition_holds temporary_debug ctx =
      if is_nil ctx.debug_enabled_until
      then false
      else debug_open (parse_time ctx.debug_enabled_until)
  condition_holds sandbox_auto_expire ctx = true
  condition_holds _ ctx = false

  pub evaluate_condition : PermissionCondition → Option PermissionContext → Bool
  unfolding condition_holds
  evaluate_condition c none = false
  evaluate_condition c (some ctx) = condition_holds c ctx

  -- The permission that decides: its condition if it has one.
  decide : Option PermissionCondition → Option PermissionContext → Bool
  unfolding evaluate_condition
  decide none ctx = true
  decide (some c) ctx = evaluate_condition c ctx

  -- The loop of HasPermission.
  first_permission : List Permission → Resource → Action → Option PermissionContext → Bool
  unfolding decide resource_eq action_eq
  first_permission [] r a ctx = false
  first_permission (p ∷ ps) r a ctx =
      if resource_eq p.resource r && action_eq p.action a
      then decide p.condition ctx
      else first_permission ps r a ctx

  pub has_permission : Role → Resource → Action → Option PermissionContext → Bool
  unfolding role_permissions first_permission
  has_permission role r a ctx = elim (role_permissions role) [
    | none ↦ false
    | some ps ↦ first_permission ps r a ctx
  ]

  abbrev can_create : Role → Resource → Option PermissionContext → Bool
  can_create role r ctx = has_permission role r create ctx

  abbrev can_read : Role → Resource → Option PermissionContext → Bool
  can_read role r ctx = has_permission role r read ctx

  abbrev can_update : Role → Resource → Option PermissionContext → Bool
  can_update role r ctx = has_permission role r update ctx

  abbrev can_delete : Role → Resource → Option PermissionContext → Bool
  can_delete role r ctx = has_permission role r delete ctx

  abbrev can_execute : Role → Resource → Option PermissionContext → Bool
  can_execute role r ctx = has_permission role r execute ctx

  abbrev can_export : Role → Resource → Option PermissionContext → Bool
  can_export role r ctx = has_permission role r export ctx

pub is_valid_role : Role → Bool
unfolding role_permissions
is_valid_role role = elim (role_permissions role) [ none ↦ false | some _ ↦ true ]
