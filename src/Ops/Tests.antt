-- ===== src/Ops/Tests.antt =====
-- Permissions of concrete users.
use featuresignals_unified.Base.{◌≡◌, ◌≢◌, ◌↔◌, inr, refl, true, false, Option, none, some, [], ◌∷◌}
use featuresignals_unified.Base.Int.{ℤ, pos}
use featuresignals_unified.Base.Text.{Text, bytes, contains, has_prefix, has_suffix, text_eq}
use featuresignals_unified.Ops.{
  sandbox, debug_mode, ops_user, billing, license, Action, update, create, delete, execute, founder,
  engineer, demo_team, support, PermissionContext, has_permission, is_valid_role,
}
use featuresignals_unified.Ops.Laws.{has_permission-founder, has_permission-only_founder}
use featuresignals_unified.Ops.Middleware.{
  Claims, Request, unauthorized, forbidden, passed, ops_permission, ops_auto_permission,
  determine_resource,
}
use featuresignals_unified.Ops.Middleware.Passing.{
  Granted, RouteGranted, ops_permission_iff, ops_auto_permission_iff, ops_auto_permission-debug,
}

-- A time parser that reads the number of the bytes as the instant.
abbrev toy_parse_time : Text → Option ℤ
toy_parse_time [] = none
toy_parse_time (c ∷ s) = some (pos c)

abbrev context : PermissionContext
context = record {
  is_owner = true;
  debug_enabled_until = bytes "Z";
  sandbox_count = pos 1;
  max_sandboxes = pos 2;
  user_id = bytes "u";
  resource_id = [];
}

abbrev demo_user : Claims
demo_user = record { user_id = bytes "u"; role = demo_team }

abbrev delete_sandbox : Request
delete_sandbox = record {
  method = bytes "DELETE";
  path = bytes "/api/v1/ops/sandboxes/s1";
  route = none;
  url_param = λ k. [];
}

-- The owner of a sandbox may delete it, but the check of the request never knows the owner.
conditional :
    (has_permission toy_parse_time (pos 50) demo_team sandbox delete (some context) ≡ true)
    × (has_permission toy_parse_time (pos 50) support debug_mode execute (some context) ≡ true)
    × (has_permission toy_parse_time (pos 99) support debug_mode execute (some context) ≡ false)
    × (determine_resource delete_sandbox.path ≡ some sandbox)
    × (ops_auto_permission toy_parse_time (pos 50) (some demo_user) delete_sandbox
        ≡ forbidden (bytes "insufficient permissions"))
unfolding has_permission determine_resource ops_auto_permission contains has_suffix has_prefix
    text_eq is_valid_role
conditional = (refl, refl, refl, refl, refl)

has_permission-founder_test :
    has_permission toy_parse_time (pos 50) founder sandbox delete none ≡ true
unfolding has_permission
has_permission-founder_test =
    has_permission-founder toy_parse_time (pos 50) demo_team sandbox delete (some context) refl

has_permission-only_founder_test :
    ((a : Action)
      → has_permission toy_parse_time (pos 50) engineer ops_user a none ≡ true
      → engineer ≡ founder)
    × (has_permission toy_parse_time (pos 50) engineer billing update none ≡ true
        → engineer ≡ founder)
    × (has_permission toy_parse_time (pos 50) engineer license create none ≡ true
        → engineer ≡ founder)
    × (has_permission toy_parse_time (pos 50) engineer license delete none ≡ true
        → engineer ≡ founder)
has_permission-only_founder_test = has_permission-only_founder toy_parse_time (pos 50) engineer none

ops_permission_iff_example :
    ((ops_permission toy_parse_time (pos 50) (some demo_user) delete_sandbox sandbox delete
        ≡ passed)
      ↔ Granted demo_team sandbox delete)
    × (ops_permission toy_parse_time (pos 50) none delete_sandbox sandbox delete ≡ unauthorized)
ops_permission_iff_example =
    ops_permission_iff toy_parse_time (pos 50) demo_user delete_sandbox sandbox delete

ops_auto_permission_iff_test :
    ((ops_auto_permission toy_parse_time (pos 50) (some demo_user) delete_sandbox ≡ passed) ↔ (
      (is_valid_role demo_team ≡ true)
      × RouteGranted demo_team (determine_resource delete_sandbox.path) delete_sandbox.method))
    × (ops_auto_permission toy_parse_time (pos 50) none delete_sandbox ≡ unauthorized)
ops_auto_permission_iff_test =
    ops_auto_permission_iff toy_parse_time (pos 50) demo_user delete_sandbox

abbrev restart : Request
restart = record {
  method = bytes "POST";
  path = bytes "/api/v1/ops/environments/e1/restart";
  route = none;
  url_param = λ k. [];
}

ops_auto_permission-debug_test :
    ops_auto_permission toy_parse_time
      (pos 50)
      (some (record { user_id = bytes "f"; role = founder }))
      restart
    ≢ passed
unfolding contains has_suffix text_eq
ops_auto_permission-debug_test =
    ops_auto_permission-debug toy_parse_time (pos 50)
      (some (record { user_id = bytes "f"; role = founder })) restart (inr refl)
