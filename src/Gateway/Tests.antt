-- ===== src/Gateway/Tests.antt =====
-- Concrete runs of the global router of deploy/global-router.
use featuresignals_unified.Base.{
  ℕ, ◌≤◌, ◌≡◌, refl, Bool, true, false, Option, none, some, List, [], ◌∷◌, arith, length,
}
use featuresignals_unified.Base.Int.{pos, negsuc}
use featuresignals_unified.Base.Text.{Text, bytes, text_eq, contains}
use featuresignals_unified.Base.Assoc.{insert}
use featuresignals_unified.Gateway.RateLimiter.{
  RateLimiter, panicked, new_rate_limiter, allow, clean_up,
}
use featuresignals_unified.Gateway.RateLimiter.Sliding.{count_in}
use featuresignals_unified.Gateway.RateLimiter.Windows.{Event, request, clean, passed, Fits}
use featuresignals_unified.Gateway.RateLimiter.Bounds.{passed_limit}
use featuresignals_unified.Gateway.Connections.{
  Moment, arrives, leaves, Door, pass_all, open_door, IsCounted, pass_all-IsCounted, connections,
}
use featuresignals_unified.Gateway.Firewall.{
  Platform, Request, waf, is_static_asset, is_inspectable_content_type, extract_ip, strip_port,
  is_bad_user_agent,
}
use featuresignals_unified.Gateway.Config.{Domain, Config, validate_config, parse_rate_limit}
use featuresignals_unified.Gateway.Routing.{
  Router, new_router, handle, Answer, static_site, unauthorized, wrong_token, not_found, overall,
  services, degraded,
}
use featuresignals_unified.Gateway.Routing.Domains.{Granted}
use featuresignals_unified.Gateway.Routing.Safety.{IsAdmitted}
use featuresignals_unified.Gateway.Routing.Fresh.{
  LimitFits, LimitsFit, written, fresh, Reached-Granted,
}

abbrev events : List Event
events =
    request (bytes "a") 10
    ∷ request (bytes "a") 20
    ∷ request (bytes "b") 30
    ∷ request (bytes "a") 50
    ∷ clean 60
    ∷ request (bytes "a") 111
    ∷ clean 400
    ∷ request (bytes "a") 410
    ∷ []

abbrev limiter : RateLimiter
limiter = new_rate_limiter (pos 2) 100 10

passed_test : passed (bytes "a") events limiter ≡ 10 ∷ 20 ∷ 111 ∷ 410 ∷ []
unfolding passed text_eq allow featuresignals_unified.Base.Assoc.lookup insert clean_up
passed_test = refl

events-Fits : Fits 0 events limiter
unfolding passed text_eq allow featuresignals_unified.Base.Assoc.lookup insert clean_up
events-Fits = (
  omega arith,
  omega arith,
  (
    omega arith,
    omega arith,
    (
      omega arith,
      omega arith,
      (
        omega arith,
        omega arith,
        (omega arith, (omega arith, omega arith, (omega arith, (omega arith, omega arith, tt)))),
      ),
    ),
  ),
)

passed_limit_example : count_in 100 10 (passed (bytes "a") events limiter) ≤ 2
passed_limit_example = passed_limit (pos 2) 100 10 (bytes "a") events 10 events-Fits

abbrev moments : List Moment
moments =
    arrives (bytes "a")
    ∷ arrives (bytes "a")
    ∷ arrives (bytes "a")
    ∷ leaves (bytes "a")
    ∷ arrives (bytes "b")
    ∷ []

pass_all_test :
    (connections (bytes "a") (pass_all moments (open_door 2)).limiter ≡ 1)
    × ((pass_all moments (open_door 2)).inside ≡ bytes "b" ∷ bytes "a" ∷ [])
unfolding connections featuresignals_unified.Base.Assoc.lookup pass_all
    featuresignals_unified.Gateway.Connections.acquire
    featuresignals_unified.Gateway.Connections.take_out insert text_eq
    featuresignals_unified.Gateway.Connections.release
pass_all_test = (refl, refl)

pass_all-IsCounted_example : IsCounted 2 (pass_all moments (open_door 2))
pass_all-IsCounted_example = pass_all-IsCounted 2 moments

abbrev ops_site : Domain
ops_site = record {
  name = bytes "ops.x";
  domain_type = bytes "static";
  root = bytes "/srv";
  target = [];
  rate_limit = bytes "5/sec";
  auth = bytes "ops";
}

abbrev config : Config
config = record {
  domains = ops_site ∷ [];
  cluster_name = bytes "eu";
  default_rate_limit = bytes "60/min";
  tls_port = pos 0;
  cache_dir = [];
  conn_limit = pos 0;
  max_ips = pos 10;
}

-- Reads a comment sign as an attack, and takes a text as its own sum.
abbrev toy_platform : Platform
toy_platform = record {
  sql_injection = λ s. contains s (bytes "--");
  path_traversal = λ s. contains s (bytes "../");
  xss = λ s. contains s (bytes "<script");
  split_host = strip_port;
  sum_hex = λ s. s;
}

abbrev with_token : Text → Request
with_token header = record {
  method = bytes "GET";
  path = bytes "/index";
  uri = bytes "/index";
  host = bytes "ops.x:443";
  remote_addr = bytes "1.2.3.4:5";
  forwarded_for = [];
  real_ip = [];
  user_agent = [];
  content_type = [];
  authorization = header;
  content_length = none;
  body = some [];
}

abbrev router : Router
router = new_router toy_platform (λ _. true) (bytes "key") config

served_test :
    (handle toy_platform 0 (with_token (bytes "Bearer key")) router).0 ≡ static_site ops_site
unfolding handle waf featuresignals_unified.Gateway.Firewall.is_method_allowed
    featuresignals_unified.Base.Strings.one_of text_eq is_inspectable_content_type contains
    featuresignals_unified.Base.Text.has_prefix is_static_asset
    featuresignals_unified.Base.Text.has_suffix featuresignals_unified.Base.Strings.to_lower
    featuresignals_unified.Base.Assoc.lookup new_router insert allow strip_port extract_ip
    featuresignals_unified.Base.Strings.before_byte
    featuresignals_unified.Gateway.Connections.acquire
    featuresignals_unified.Gateway.Routing.ops_auth
    featuresignals_unified.Gateway.Routing.find_domain
    featuresignals_unified.Base.Strings.equal_fold parse_rate_limit
    featuresignals_unified.Base.Strings.split_once
    featuresignals_unified.Gateway.Firewall.inspect_body
served_test = refl

refused_test :
    (handle toy_platform 0 (with_token (bytes "Bearer kex")) router).0 ≡ unauthorized wrong_token
unfolding handle waf featuresignals_unified.Gateway.Firewall.is_method_allowed
    featuresignals_unified.Base.Strings.one_of text_eq is_inspectable_content_type contains
    featuresignals_unified.Base.Text.has_prefix is_static_asset
    featuresignals_unified.Base.Text.has_suffix featuresignals_unified.Base.Strings.to_lower
    featuresignals_unified.Base.Assoc.lookup new_router insert allow strip_port extract_ip
    featuresignals_unified.Base.Strings.before_byte
    featuresignals_unified.Gateway.Connections.acquire
    featuresignals_unified.Gateway.Routing.ops_auth
    featuresignals_unified.Gateway.Routing.find_domain
    featuresignals_unified.Base.Strings.equal_fold parse_rate_limit
    featuresignals_unified.Base.Strings.split_once
    featuresignals_unified.Gateway.Firewall.inspect_body
refused_test = refl

config_tests :
    ((validate_config config).0 ≡ []) × (parse_rate_limit (bytes "5/sec") ≡ (pos 5, 1000000000))
unfolding validate_config text_eq parse_rate_limit featuresignals_unified.Base.Strings.split_once
config_tests = (refl, refl)

firewall_tests :
    (is_static_asset (bytes "/A.CSS") ≡ true)
    × (is_inspectable_content_type (bytes "text/plain ; charset=x") ≡ true)
    × (is_bad_user_agent (bytes "x SQLmap") ≡ true)
unfolding is_static_asset featuresignals_unified.Base.Text.has_suffix
    featuresignals_unified.Base.Strings.to_lower text_eq is_inspectable_content_type
    featuresignals_unified.Base.Strings.one_of contains featuresignals_unified.Base.Text.has_prefix
    featuresignals_unified.Base.Strings.trim_space featuresignals_unified.Base.Strings.before_byte
    is_bad_user_agent
firewall_tests = (refl, refl, refl)

small_60 : LimitFits (bytes "60/min")
unfolding written featuresignals_unified.Base.Strings.split_once
small_60 = omega arith

small_5 : LimitFits (bytes "5/sec")
unfolding written featuresignals_unified.Base.Strings.split_once
small_5 = omega arith

config-LimitsFit : LimitsFit config
config-LimitsFit = record { default = small_60; domains = (small_5, tt) }

-- A number above the greatest int is read as a negative one, and the first request panics.
huge_limit_tests :
    (parse_rate_limit (bytes "9223372036854775808/min") ≡ (negsuc 9223372036854775807, 60000000000))
    × ((allow (bytes "a") 0 (new_rate_limiter (negsuc 9223372036854775807) 60000000000 10)).0
        ≡ panicked)
unfolding parse_rate_limit featuresignals_unified.Base.Strings.split_once text_eq allow
    featuresignals_unified.Base.Assoc.lookup
huge_limit_tests = (refl, refl)

Reached-Granted_example :
    Granted
      (IsAdmitted toy_platform 5 (with_token (bytes "Bearer key")) router)
      (handle toy_platform 5 (with_token (bytes "Bearer key")) router).0
Reached-Granted_example =
    Reached-Granted toy_platform (λ _. true) (bytes "key") config router 5
      (with_token (bytes "Bearer key")) config-LimitsFit fresh
