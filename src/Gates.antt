-- ===== src/Gates.antt =====
-- The middleware that guards the management API: auth.go, ipallowlist.go, trial.go, tier.go, rbac.go,
-- featuregate.go, envperm.go, domain_gate.go and ops_rbac.go in server/internal/api/middleware, in
-- the order in which server/internal/api/router.go applies the first six. Tokens and IP networks are
-- parameters.
mod Passing
mod Managing
mod Portal
mod Tests
use featuresignals_unified.Base.{
  ℕ, Bool, true, false, not, ◌&&◌, ◌||◌, Option, none, some, List, [], ◌∷◌, ltb, ◌==◌, get_elem?,
  if◌then◌else◌,
}
use featuresignals_unified.Base.Int.{ℤ, pos, leb_ℤ}
use featuresignals_unified.Base.Text.{Text, bytes, text_eq, has_suffix, has_prefix}
use featuresignals_unified.Base.Strings.{to_lower, split_on, split_once, trim, trim_right, one_of}
use featuresignals_unified.Plans.{Plan, Feature, trial, free, pro, enterprise, is_feature_enabled}
use featuresignals_unified.Scheduler.Accounts.{
  Org, Orgs, Limits, to_free, update_org, on_row, is_trial_over,
}

pub record Claims : Type 0 where
  pub id : Text
  pub user_id : Text
  pub org_id : Text
  pub role : Text
  pub email : Text

-- What ValidateToken answers.
pub data Token : Type 0 where
  valid : Claims → Token
  expired : Token
  invalid : Token

-- What the middleware calls. `is_revoked` is `none` on an error, `allowlist` too; `revokes` is
-- whether there is a checker of revocations.
pub record Backend : Type 0 where
  pub validate_token : Text → Token
  pub revokes : Bool
  pub is_revoked : Text → Option Bool
  pub allowlist : Text → Option (Bool × List Text)
  pub parses_ip : Text → Bool
  pub in_network : Text → Text → Bool
  pub host_of : Text → Text
  pub count_projects : Text → ℕ
  pub count_environments : Text → ℕ
  pub count_members : Text → ℕ

pub record ApiRequest : Type 0 where
  pub method : Text
  pub path : Text
  pub authorization : Text
  pub remote_addr : Text

-- Why a request is refused.
pub data Refusal : Type 0 where
  missing_header invalid_format token_expired invalid_token token_revoked : Refusal
  insufficient_permissions not_in_allowlist deactivated : Refusal
  plan_limit : Text → Refusal
  plan_feature : Feature → Refusal
  unauthorized restricted_domain access_denied : Refusal

-- What JWTAuth puts into the context; a value that is missing reads as the empty text.
pub record Context : Type 0 where
  pub user_id : Text
  pub org_id : Text
  pub role : Text
  pub claims : Option Claims

abbrev pub no_context : Context
no_context = record { user_id = []; org_id = []; role = []; claims = none }

abbrev pub context_of : Claims → Context
context_of c = record { user_id = c.user_id; org_id = c.org_id; role = c.role; claims = some c }

-- The answer of a gate: the request goes on, or is refused.
pub data Gate (A : Type 0) : Type 0 where
  pass : A → Gate A
  refuse : Refusal → Gate A

-- A gate and what is behind it.
abbrev pub and_then : {A B : Type 0} → Gate A → (A → Gate B) → Gate B
and_then (pass a) f = f a
and_then (refuse r) f = refuse r

module _ (b : Backend) where
  -- The check that a revoked token is refused; an error of the checker lets it through.
  abbrev pub on_revoked : Claims → Option Bool → Gate Context
  on_revoked c (some true) = refuse token_revoked
  on_revoked c (some false) = pass (context_of c)
  on_revoked c none = pass (context_of c)

  abbrev pub check_revoked : Claims → Gate Context
  check_revoked c =
      if not (text_eq c.id []) && b.revokes
      then on_revoked c (b.is_revoked c.id)
      else pass (context_of c)

  abbrev pub on_token : Token → Gate Context
  on_token (valid c) = check_revoked c
  on_token expired = refuse token_expired
  on_token invalid = refuse invalid_token

  -- The parts of the header around the first space (32).
  abbrev pub on_parts : Option (Text × Text) → Gate Context
  on_parts none = refuse invalid_format
  on_parts (some (scheme, token)) =
      if not (text_eq scheme (bytes "Bearer"))
      then refuse invalid_format
      else on_token (b.validate_token token)

  -- JWTAuth
  unfoldable pub jwt_auth : ApiRequest → Gate Context
  jwt_auth req =
      if text_eq req.method (bytes "OPTIONS")
      then pass no_context
      else (if text_eq req.authorization []
          then refuse missing_header
          else on_parts (split_once 32 req.authorization))

  any_network : Text → List Text → Bool
  any_network ip [] = false
  any_network ip (cidr ∷ cidrs) = b.in_network cidr ip || any_network ip cidrs

  abbrev on_allowlist : Text → Option (Bool × List Text) → Bool
  on_allowlist ip none = true
  on_allowlist ip (some (false, cidrs)) = true
  on_allowlist ip (some (true, [])) = true
  on_allowlist ip (some (true, cidr ∷ cidrs)) =
      if not (b.parses_ip ip) then true else any_network ip (cidr ∷ cidrs)

  -- IPAllowlist
  unfoldable pub ip_allowlist : ApiRequest → Context → Gate Unit
  unfolding any_network
  ip_allowlist req ctx =
      if text_eq ctx.org_id [] || on_allowlist (b.host_of req.remote_addr) (b.allowlist ctx.org_id)
      then pass tt
      else refuse not_in_allowlist

-- What fails in the gates that read the organization, and in the downgrade.
pub record Reads : Type 0 where
  pub trial_fails : Bool
  pub tier_fails : Bool
  pub feature_fails : Bool
  pub downgrade_fails : Bool

-- GetOrganization
abbrev pub get_org : Bool → Text → Orgs → Option Org
get_org fails id orgs = if fails then none else orgs id

abbrev pub is_deleted : Org → Bool
is_deleted o = elim (o.deleted_at) [ none ↦ false | some _ ↦ true ]

-- The tier of a plan's name.
unfoldable pub plan_of : Text → Plan
plan_of s =
    if text_eq s (bytes "trial")
    then trial
    else (if text_eq s (bytes "free")
        then free
        else (if text_eq s (bytes "pro")
            then pro
            else (if text_eq s (bytes "enterprise") then enterprise else Plan.other s)))

-- TrialExpiry with an organization that is found: the request goes on with the table, in which a
-- trial that is over is made free unless the statement fails.
abbrev pub on_trial : Limits → Bool → ℕ → Text → Orgs → Option Org → Gate Orgs
on_trial defaults downgrade_fails now id orgs none = pass orgs
on_trial defaults downgrade_fails now id orgs (some o) =
    if is_deleted o
    then refuse deactivated
    else pass (
        if text_eq o.plan (bytes "trial") && is_trial_over now o && not downgrade_fails
        then update_org id (on_row (to_free defaults)) orgs
        else orgs)

unfoldable pub trial_expiry : Limits → Reads → ℕ → Context → Orgs → Gate Orgs
trial_expiry defaults reads now ctx orgs =
    if text_eq ctx.org_id []
    then pass orgs
    else on_trial defaults reads.downgrade_fails now ctx.org_id orgs
        (get_org reads.trial_fails ctx.org_id orgs)

-- The byte `/`
abbrev is_slash : ℕ → Bool
is_slash c = c == 47

unfoldable pub match_route : Text → Text → Bool
match_route path route = text_eq (trim_right is_slash path) route

-- The loop of matchRoutePattern with its test of the lengths.
unfoldable pub match_parts : List Text → List Text → Bool
match_parts [] [] = true
match_parts [] (_ ∷ _) = false
match_parts (_ ∷ _) [] = false
match_parts (s ∷ ss) (p ∷ ps) = (text_eq p (bytes "*") || text_eq s p) && match_parts ss ps

unfoldable pub match_route_pattern : Text → Text → Bool
unfolding match_parts
match_route_pattern path pattern =
    match_parts (split_on 47 (trim is_slash path)) (split_on 47 (trim is_slash pattern))

abbrev or_no_text : Option Text → Text
or_no_text none = []
or_no_text (some s) = s

unfoldable pub extract_segment : Text → ℕ → Text
extract_segment path index = or_no_text (get_elem? (split_on 47 (trim is_slash path)) index)

-- `limit >= 0` and `count >= limit`
unfoldable pub is_full : ℤ → ℕ → Bool
is_full limit count = leb_ℤ (pos 0) limit && leb_ℤ limit (pos count)

-- One case of the switch: an organization that cannot be read is let through.
abbrev pub within_limit : Text → (Org → ℤ) → ℕ → Option Org → Gate Unit
within_limit resource limit count none = pass tt
within_limit resource limit count (some o) =
    if is_full (limit o) count then refuse (plan_limit resource) else pass tt

module _ (b : Backend) where
  unfoldable pub tier_case : Bool → ApiRequest → Context → Orgs → Gate Unit
  tier_case fails req ctx orgs =
      let org = get_org fails ctx.org_id orgs in
      if match_route req.path (bytes "/v1/projects")
      then within_limit (bytes "projects") (λ o. o.projects_limit) (b.count_projects ctx.org_id) org
      else (if match_route_pattern req.path (bytes "/v1/projects/*/environments")
          then within_limit (bytes "environments") (λ o. o.environments_limit)
              (b.count_environments (extract_segment req.path 2)) org
          else (if match_route req.path (bytes "/v1/members/invite")
                || match_route_pattern req.path (bytes "/v1/organizations/*/members")
              then within_limit (bytes "seats") (λ o. o.seats_limit) (b.count_members ctx.org_id)
                  org
              else pass tt))

  -- TierEnforce
  unfoldable pub tier_enforce : Bool → ApiRequest → Context → Orgs → Gate Unit
  unfolding tier_case
  tier_enforce fails req ctx orgs =
      if not (text_eq req.method (bytes "POST")) || text_eq ctx.org_id []
      then pass tt
      else tier_case fails req ctx orgs

-- RequireRole
unfoldable pub require_role : List Text → Context → Gate Unit
require_role roles ctx = if one_of roles ctx.role then pass tt else refuse insufficient_permissions

abbrev pub on_feature : Feature → Option Org → Gate Unit
on_feature feature none = pass tt
on_feature feature (some o) =
    if is_feature_enabled (plan_of o.plan) feature then pass tt else refuse (plan_feature feature)

-- FeatureGate
unfoldable pub feature_gate : Feature → Bool → Context → Orgs → Gate Unit
feature_gate feature fails ctx orgs =
    if text_eq ctx.org_id [] then pass tt else on_feature feature (get_org fails ctx.org_id orgs)

-- The chain of a management route with a gate by role and one by feature, as the router builds it;
-- the rate limit between them is left out. The context and the table reach the handler.
unfoldable pub management :
    Backend → Limits → Reads → ℕ → List Text → Feature → ApiRequest → Orgs → Gate (Context × Orgs)
unfolding jwt_auth ip_allowlist trial_expiry tier_enforce require_role feature_gate
management b defaults reads now roles feature req orgs = and_then (jwt_auth b req) (λ ctx.
    and_then (ip_allowlist b req ctx) (λ _.
      and_then (trial_expiry defaults reads now ctx orgs) (λ table.
        and_then (tier_enforce b reads.tier_fails req ctx table) (λ _.
          and_then (require_role roles ctx) (λ _.
            and_then (feature_gate feature reads.feature_fails ctx table)
              (λ _. pass (ctx, table)))))))
