-- ===== src/Gates/Tests.antt =====
-- Concrete runs of the gates of server/internal/api/middleware.
use featuresignals_unified.Base.{
  ℕ, ◌≡◌, ◌⊎◌, refl, inl, inr, Bool, true, false, Option, none, some, List, [], ◌∷◌, if◌then◌else◌,
  ◌*◌,
}
use featuresignals_unified.Base.Int.{pos, negsuc}
use featuresignals_unified.Base.Text.{Text, bytes, text_eq, has_prefix}
use featuresignals_unified.Base.Strings.{one_of}
use featuresignals_unified.Plans.{webhooks}
use featuresignals_unified.Scheduler.Accounts.{Org, Orgs, Limits, day}
use featuresignals_unified.Gates.{
  Claims, Token, valid, invalid, Backend, ApiRequest, Gate, pass, refuse, plan_feature, plan_limit,
  insufficient_permissions, context_of, Context, Reads, management, tier_enforce,
  match_route_pattern, extract_segment,
}
use featuresignals_unified.Gates.Managing.{IsAuthorized, management-IsAuthorized}
use featuresignals_unified.Gates.Portal.{
  EnvPermission, check_env_permission, HasRow, check_env_permission-HasRow, require_domain,
  require_ops_role, has_ops_role,
}

abbrev ann : Claims
ann = record {
  id = bytes "j";
  user_id = bytes "u";
  org_id = bytes "o";
  role = bytes "owner";
  email = bytes "ann@FeatureSignals.com";
}

abbrev backend : Backend
backend = record {
  validate_token = λ t. if text_eq t (bytes "good") then valid ann else invalid;
  revokes = true;
  is_revoked = λ _. some false;
  allowlist = λ _. some (true, bytes "10." ∷ []);
  parses_ip = λ _. true;
  in_network = λ cidr ip. has_prefix ip cidr;
  host_of = λ a. a;
  count_projects = λ _. 1;
  count_environments = λ _. 0;
  count_members = λ _. 3;
}

abbrev call : Text → Text → ApiRequest
call method path = record {
  method = method;
  path = path;
  authorization = bytes "Bearer good";
  remote_addr = bytes "10.1";
}

abbrev org_with : Text → Option ℕ → Org
org_with plan trial_end = record {
  plan = plan;
  trial_expires_at = trial_end;
  deleted_at = none;
  seats_limit = pos 3;
  projects_limit = negsuc 0;
  environments_limit = negsuc 0;
  logins = [];
}

abbrev orgs : Org → Orgs
orgs o id = if text_eq id (bytes "o") then some o else none

abbrev free_limits : Limits
free_limits = record { seats = pos 3; projects = pos 1; environments = pos 3 }

abbrev calm : Reads
calm = record {
  trial_fails = false;
  tier_fails = false;
  feature_fails = false;
  downgrade_fails = false;
}

abbrev owners : List Text
owners = bytes "owner" ∷ bytes "admin" ∷ []

pro_passes :
    management backend free_limits calm 5 owners webhooks
      (call (bytes "GET") (bytes "/v1/x"))
      (orgs (org_with (bytes "pro") none))
    ≡ pass (context_of ann, orgs (org_with (bytes "pro") none))
unfolding management text_eq featuresignals_unified.Base.Strings.split_once has_prefix one_of
    featuresignals_unified.Plans.is_feature_enabled featuresignals_unified.Gates.plan_of
pro_passes = refl

over_refused :
    management backend free_limits calm 5 owners webhooks
      (call (bytes "GET") (bytes "/v1/x"))
      (orgs (org_with (bytes "trial") (some 4)))
    ≡ refuse (plan_feature webhooks)
unfolding management text_eq featuresignals_unified.Base.Strings.split_once has_prefix one_of
    featuresignals_unified.Scheduler.Accounts.to_free
    featuresignals_unified.Plans.is_feature_enabled featuresignals_unified.Gates.plan_of
over_refused = refl

seats_refused :
    management backend free_limits calm 5 owners webhooks
      (call (bytes "POST") (bytes "/v1/members/invite/"))
      (orgs (org_with (bytes "pro") none))
    ≡ refuse (plan_limit (bytes "seats"))
unfolding management text_eq featuresignals_unified.Base.Strings.split_once has_prefix
    featuresignals_unified.Gates.match_route featuresignals_unified.Base.Strings.trim_right
    match_route_pattern featuresignals_unified.Base.Strings.split_on
    featuresignals_unified.Base.Strings.trim featuresignals_unified.Gates.is_full
seats_refused = refl

route_tests :
    (match_route_pattern
        (bytes "/v1/projects/p1/environments")
        (bytes "/v1/projects/*/environments")
      ≡ true)
    × (extract_segment (bytes "/v1/projects/p1/environments") 2 ≡ bytes "p1")
unfolding match_route_pattern featuresignals_unified.Base.Strings.split_on
    featuresignals_unified.Base.Strings.trim text_eq extract_segment
route_tests = (refl, refl)

no_empty_role : one_of owners [] ≡ false
unfolding one_of text_eq
no_empty_role = refl

management-IsAuthorized_example :
    IsAuthorized backend free_limits calm 5 owners webhooks
      (call (bytes "GET") (bytes "/v1/x"))
      (orgs (org_with (bytes "pro") none))
      (context_of ann)
management-IsAuthorized_example =
    management-IsAuthorized backend free_limits calm 5 owners webhooks
      (call (bytes "GET") (bytes "/v1/x")) (orgs (org_with (bytes "pro") none)) (context_of ann)
      (orgs (org_with (bytes "pro") none)) no_empty_role pro_passes

abbrev toggler : EnvPermission
toggler = record { env_id = bytes "e"; can_toggle = true; can_edit_rules = false }

toggles :
    check_env_permission
      (bytes "developer")
      (some (bytes "m"))
      (λ _. some (toggler ∷ []))
      (bytes "e")
      (bytes "can_toggle")
    ≡ true
unfolding check_env_permission text_eq
toggles = refl

check_env_permission-HasRow_test :
    (bytes "developer" ≡ bytes "owner")
    ⊎ ((bytes "developer" ≡ bytes "admin")
        ⊎ HasRow (some (bytes "m")) (λ _. some (toggler ∷ [])) (bytes "e") (bytes "can_toggle"))
check_env_permission-HasRow_test =
    check_env_permission-HasRow (bytes "developer") (some (bytes "m")) (λ _. some (toggler ∷ []))
      (bytes "e") (bytes "can_toggle") toggles

portal_tests :
    (require_domain [] (bytes "featuresignals.com") [] (context_of ann) ≡ pass tt)
    × (require_ops_role
          (bytes "engineer")
          (λ _. some (record { ops_role = bytes "finance"; is_active = true }))
          (context_of ann)
        ≡ refuse insufficient_permissions)
    × (has_ops_role (bytes "admin") owners ≡ true)
unfolding require_domain text_eq featuresignals_unified.Base.Text.has_suffix
    featuresignals_unified.Base.Strings.to_lower require_ops_role has_ops_role one_of
portal_tests = (refl, refl, refl)
