-- ===== src/Ops/Middleware.antt =====
-- The permission checks on requests: server/internal/api/middleware/ops_permissions.go. Claims are
-- what the authentication put in the request's context, and `none` without it.
pub mod Passing
use featuresignals_unified.Base.{
  Bool, true, false, not, ◌&&◌, ◌||◌, Option, none, some, List, [], ◌∷◌, if◌then◌else◌,
}
use featuresignals_unified.Base.Int.{ℤ, pos}
use featuresignals_unified.Base.Text.{Text, bytes, text_eq, contains, has_prefix, has_suffix}
use featuresignals_unified.Eval.Engine.{is_nil}
use featuresignals_unified.Ops.{
  Resource, environment, customer, license, cost, audit_log, ops_user, sandbox, debug_mode,
  ssh_access, billing, Action, create, read, update, delete, execute, export, Role, founder,
  PermissionContext, has_permission, is_valid_role,
}

pub record Claims : Type 0 where
  pub user_id : Text
  pub role : Role

-- The parameters of a matched route, in order; the two lists may differ in length.
pub record UrlParams : Type 0 where
  pub keys : List Text
  pub values : List Text

-- `route` is chi's RouteContext, `url_param` its URLParam, "" for a missing parameter.
pub record Request : Type 0 where
  pub method : Text
  pub path : Text
  pub route : Option UrlParams
  pub url_param : Text → Text

-- What the middleware does: an error response, or a call of the next handler.
pub data Outcome : Type 0 where
  unauthorized : Outcome
  forbidden : Text → Outcome
  passed : Outcome

abbrev is_empty_role : Role → Bool
is_empty_role (Role.other t) = is_nil t
is_empty_role _ = false

-- The loop over the keys, `none` when no parameter is an ID.
first_id : List Text → List Text → Option Text
first_id [] vs = none
first_id (k ∷ ks) [] = none
first_id (k ∷ ks) (v ∷ vs) =
    if text_eq k (bytes "id") || text_eq k (bytes "resource_id") || has_suffix k (bytes "_id")
    then some v
    else first_id ks vs

-- `if id := a; id != "" { return id }`, then the rest
abbrev or_text : Text → Text → Text
or_text [] b = b
or_text (c ∷ s) b = c ∷ s

pattern_id : Resource → (Text → Text) → Text
pattern_id environment param = or_text (param (bytes "id")) (param (bytes "vps_id"))
pattern_id customer param = param (bytes "org_id")
pattern_id license param = or_text (param (bytes "id")) (param (bytes "org_id"))
pattern_id sandbox param = param (bytes "id")
pattern_id ops_user param = param (bytes "id")
pattern_id _ param = []

extract_resource_id : Request → Resource → Text
unfolding first_id pattern_id
extract_resource_id req r = elim req.route [
  | none ↦ []
  | some params ↦ elim (first_id params.keys params.values) [
    | some v ↦ v
    | none ↦ pattern_id r req.url_param
  ]
]

-- `strings.HasSuffix(path, part) || strings.Contains(path, "/environments/") && …`
abbrev pub sub_resource : Text → Text → Bool
sub_resource path part =
    has_suffix path part || contains path (bytes "/environments/") && contains path part

-- The cases of the switch, in order; `none` is the empty resource.
unfoldable pub determine_resource : Text → Option Resource
determine_resource path =
    if sub_resource path (bytes "/debug")
    then some debug_mode
    else (if sub_resource path (bytes "/restart")
        then some ssh_access
        else (if sub_resource path (bytes "/maintenance")
            then some environment
            else (if contains path (bytes "/environments/provision")
                then some environment
                else (if contains path (bytes "/environments/decommission")
                    then some environment
                    else (if contains path (bytes "/environments")
                        then some environment
                        else (if contains path (bytes "/financial/costs")
                              || contains path (bytes "/financial/summary")
                            then some cost
                            else (if has_prefix path (bytes "/api/v1/ops/customers")
                                then some customer
                                else (if contains path (bytes "/licenses")
                                    then some license
                                    else (if contains path (bytes "/audit")
                                        then some audit_log
                                        else (if has_prefix path (bytes "/api/v1/ops/users")
                                            then some ops_user
                                            else (if contains path (bytes "/sandboxes")
                                                then some sandbox
                                                else (if contains path (bytes "/billing")
                                                    then some billing
                                                    else none))))))))))))

pub determine_action : Text → Action
determine_action method =
    if text_eq method (bytes "GET") || text_eq method (bytes "HEAD")
    then read
    else (if text_eq method (bytes "POST")
        then create
        else (if text_eq method (bytes "PUT") || text_eq method (bytes "PATCH")
            then update
            else (if text_eq method (bytes "DELETE") then delete else read)))

-- The context that both checks build: the user and the resource, and no more.
request_context : Claims → Request → Resource → PermissionContext
unfolding extract_resource_id
request_context claims req r = record {
  is_owner = false;
  debug_enabled_until = [];
  sandbox_count = pos 0;
  max_sandboxes = pos 0;
  user_id = claims.user_id;
  resource_id = extract_resource_id req r;
}

module _ (parse_time : Text → Option ℤ) (now : ℤ) where
  -- The last test of both checks.
  check_permission : Claims → Request → Resource → Action → Outcome
  unfolding request_context
  check_permission claims req r a =
      if not (has_permission parse_time now claims.role r a (some (request_context claims req r)))
      then forbidden (bytes "insufficient permissions")
      else passed

  -- The tests of the role, then `next`.
  with_role : Claims → Outcome → Outcome
  with_role claims next =
      if is_empty_role claims.role
      then forbidden (bytes "access denied: no ops role")
      else (if not (is_valid_role claims.role)
          then forbidden (bytes "access denied: invalid role")
          else next)

  pub ops_permission : Option Claims → Request → Resource → Action → Outcome
  unfolding with_role check_permission
  ops_permission none req r a = unauthorized
  ops_permission (some claims) req r a = with_role claims (check_permission claims req r a)

  -- The check of a route whose resource was determined, or not.
  check_route : Claims → Request → Option Resource → Outcome
  unfolding determine_action check_permission
  check_route claims req none = passed
  check_route claims req (some r) = check_permission claims req r (determine_action req.method)

  unfoldable pub ops_auto_permission : Option Claims → Request → Outcome
  unfolding with_role check_route determine_resource
  ops_auto_permission none req = unauthorized
  ops_auto_permission (some claims) req =
      with_role claims (check_route claims req (determine_resource req.path))

  abbrev require_ops_read : Option Claims → Request → Resource → Outcome
  require_ops_read claims req r = ops_permission claims req r read

  abbrev require_ops_create : Option Claims → Request → Resource → Outcome
  require_ops_create claims req r = ops_permission claims req r create

  abbrev require_ops_update : Option Claims → Request → Resource → Outcome
  require_ops_update claims req r = ops_permission claims req r update

  abbrev require_ops_delete : Option Claims → Request → Resource → Outcome
  require_ops_delete claims req r = ops_permission claims req r delete

  abbrev require_ops_execute : Option Claims → Request → Resource → Outcome
  require_ops_execute claims req r = ops_permission claims req r execute

  abbrev require_ops_export : Option Claims → Request → Resource → Outcome
  require_ops_export claims req r = ops_permission claims req r export
