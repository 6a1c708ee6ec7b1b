-- ===== src/Gateway/Routing.antt =====
-- From a request to its domain: router.go, health.go and the middleware chain of security.go and
-- main.go in deploy/global-router. Serving a file or a proxied response is left out.
pub mod Domains
pub mod Safety
pub mod Fresh
use featuresignals_unified.Base.{
  ℕ, Bool, true, false, not, ◌&&◌, ◌||◌, Option, none, some, List, [], ◌∷◌, drop, ◌==◌,
  if◌then◌else◌,
}
use featuresignals_unified.Base.Int.{ℤ, pos, negsuc, leb_ℤ}
use featuresignals_unified.Base.Text.{Text, bytes, text_eq, has_prefix}
use featuresignals_unified.Base.Strings.{equal_fold}
use featuresignals_unified.Base.Assoc.{lookup, insert}
use featuresignals_unified.Gateway.RateLimiter.{
  RateLimiter, new_rate_limiter, Verdict, allowed, denied, panicked, allow,
}
use featuresignals_unified.Gateway.Connections.{ConnLimiter, acquire}
use featuresignals_unified.Gateway.Firewall.{
  Platform, Request, Blocked, waf, extract_ip, is_static_asset, strip_port,
}
use featuresignals_unified.Gateway.Config.{Domain, Config, is_static, is_proxy, parse_rate_limit}

pub record Router : Type 0 where
  pub config : Config
  pub rate_limiters : List (Text × RateLimiter)
  pub default_rate_limiter : RateLimiter
  pub conn_limiter : ConnLimiter
  pub allowed_domains : List (Text × Bool)
  -- the domains whose target parses
  pub proxies : List (Text × Bool)
  pub ops_token_hash : Text

abbrev to_nat : ℤ → ℕ
to_nat (pos n) = n
to_nat (negsuc _) = 0

-- `if x <= 0 { x = d }`
abbrev pub or_default : ℤ → ℕ → ℕ
or_default x d = if leb_ℤ x (pos 0) then d else to_nat x

abbrev pub limiter_of : ℕ → ℤ × ℕ → RateLimiter
limiter_of max_ips (limit, window) = new_rate_limiter limit window max_ips

-- One round of the loop of NewRouter. `parses` is whether url.Parse takes a target.
unfoldable pub add_domain : (Text → Bool) → ℕ → Domain → Router → Router
add_domain parses max_ips d r = record r {
  allowed_domains = insert d.name true r.allowed_domains;
  rate_limiters =
      if text_eq d.rate_limit []
      then r.rate_limiters
      else insert d.name (limiter_of max_ips (parse_rate_limit d.rate_limit)) r.rate_limiters;
  proxies = if is_proxy d && parses d.target then insert d.name true r.proxies else r.proxies;
}

unfoldable pub add_domains : (Text → Bool) → ℕ → List Domain → Router → Router
unfolding add_domain
add_domains parses max_ips [] r = r
add_domains parses max_ips (d ∷ ds) r =
    add_domains parses max_ips ds (add_domain parses max_ips d r)

-- NewRouter, with the value of OPS_AUTH_TOKEN.
unfoldable pub new_router : Platform → (Text → Bool) → Text → Config → Router
unfolding add_domains
new_router p parses token c =
    let max_ips = or_default c.max_ips 100000 in
    add_domains parses max_ips c.domains (record {
      config = c;
      rate_limiters = [];
      default_rate_limiter = limiter_of max_ips (parse_rate_limit c.default_rate_limit);
      conn_limiter = record { conns = []; max = or_default c.conn_limit 100 };
      allowed_domains = [];
      proxies = [];
      ops_token_hash = if text_eq token [] then [] else p.sum_hex token;
    })

pub data Refusal : Type 0 where
  not_configured no_header no_bearer empty_token wrong_token : Refusal

-- opsAuthMiddleware: why the request is refused, or `none`. "Bearer " has 7 bytes.
unfoldable pub ops_auth : Platform → Text → Text → Option Refusal
ops_auth p token_hash header =
    if text_eq token_hash []
    then some not_configured
    else (if text_eq header []
        then some no_header
        else (if not (has_prefix header (bytes "Bearer "))
            then some no_bearer
            else (if text_eq (drop 7 header) []
                then some empty_token
                else (if not (equal_fold (p.sum_hex (drop 7 header)) token_hash)
                    then some wrong_token
                    else none))))

pub data Answer : Type 0 where
  health metrics bad_gateway not_found : Answer
  static_site proxied : Domain → Answer
  unauthorized : Refusal → Answer
  blocked : Blocked → Answer
  rate_limited : ℕ → Answer
  too_many_connections : Answer
  panic : Answer

unfoldable pub find_domain : Text → List Domain → Option Domain
find_domain host [] = none
find_domain host (d ∷ ds) =
    let rest = find_domain host ds in if text_eq d.name host then some d else rest

-- serveProxy, up to the call of the proxy.
abbrev pub serve_proxy : Domain → Option Bool → Answer
serve_proxy d none = bad_gateway
serve_proxy d (some _) = proxied d

abbrev pub behind_auth : Option Refusal → Answer → Answer
behind_auth (some refusal) answer = unauthorized refusal
behind_auth none answer = answer

abbrev pub if_ops : Domain → Option Refusal → Answer → Answer
if_ops d refusal answer =
    if text_eq d.auth (bytes "ops") then behind_auth refusal answer else answer

module _ (p : Platform) where
  -- The handler of a domain.
  unfoldable pub serve_domain : Router → Request → Option Domain → Answer
  serve_domain r req none = not_found
  serve_domain r req (some d) =
      let refusal = ops_auth p r.ops_token_hash req.authorization in
      if is_static d
      then if_ops d refusal (static_site d)
      else (if is_proxy d
          then if_ops d refusal (serve_proxy d (lookup d.name r.proxies))
          else bad_gateway)

  -- ServeHTTP
  unfoldable pub serve_http : Router → Request → Answer
  unfolding serve_domain
  serve_http r req =
      if text_eq req.path (bytes "/ops/health")
      then health
      else (if text_eq req.path (bytes "/ops/metrics")
          then metrics
          else serve_domain r req (find_domain (strip_port req.host) r.config.domains))

  -- connLimitMiddleware around the router. The connection is open while the request is served.
  abbrev pub admitted : Router → Request → Bool × ConnLimiter → Answer × Router
  admitted r req (false, cl) = (too_many_connections, record r { conn_limiter = cl })
  admitted r req (true, cl) = (serve_http r req, record r { conn_limiter = cl })

  unfoldable pub limit_connections : Request → Router → Answer × Router
  unfolding serve_http
  limit_connections req r = admitted r req (acquire (extract_ip p req) r.conn_limiter)

  unfoldable pub after_verdict : Request → Verdict → Router → Answer × Router
  unfolding limit_connections
  after_verdict req (allowed _) r = limit_connections req r
  after_verdict req (denied wait) r = (rate_limited wait, r)
  after_verdict req panicked r = (panic, r)

  -- The limiter of the host, or the default one; what Allow leaves of it is kept.
  unfoldable pub ask_limiter : ℕ → Request → Router → Option RateLimiter → Answer × Router
  unfolding after_verdict
  ask_limiter now req r (some rl) =
      let answer = allow (extract_ip p req) now rl in
      after_verdict req answer.0
        (record r { rate_limiters = insert (strip_port req.host) answer.1 r.rate_limiters })
  ask_limiter now req r none =
      let answer = allow (extract_ip p req) now r.default_rate_limiter in
      after_verdict req answer.0 (record r { default_rate_limiter = answer.1 })

  -- rateLimitMiddleware
  unfoldable pub limit_rate : ℕ → Request → Router → Answer × Router
  unfolding ask_limiter
  limit_rate now req r =
      if is_static_asset req.path
      then limit_connections req r
      else ask_limiter now req r (lookup (strip_port req.host) r.rate_limiters)

  unfoldable pub behind_waf : ℕ → Request → Router → Option Blocked → Answer × Router
  unfolding limit_rate
  behind_waf now req r (some reason) = (blocked reason, r)
  behind_waf now req r none = limit_rate now req r

  -- The chain that main builds.
  unfoldable pub handle : ℕ → Request → Router → Answer × Router
  unfolding behind_waf
  handle now req r = behind_waf now req r (waf p req)

-- What a service answers to its health check.
pub data ServiceStatus : Type 0 where
  ok down degraded : ServiceStatus

-- checkService, by the status of the response; `none` is an error.
unfoldable pub check_service : Option ℕ → ServiceStatus
check_service none = down
check_service (some status) = if status == 200 then ok else degraded

abbrev is_bad : ServiceStatus → Bool
is_bad ok = false
is_bad _ = true

any_bad : List (Text × ServiceStatus) → Bool
any_bad [] = false
any_bad ((_, s) ∷ ss) = is_bad s || any_bad ss

-- The map that HealthHandler fills; `probe` is what a target answers.
unfoldable pub services :
    (Text → Option ℕ) → List Domain → List (Text × ServiceStatus) → List (Text × ServiceStatus)
services probe [] m = m
services probe (d ∷ ds) m =
    services probe ds (if is_proxy d then insert d.name (check_service (probe d.target)) m else m)

-- The overall status.
unfoldable pub overall : List (Text × ServiceStatus) → ServiceStatus
unfolding any_bad
overall ss = if any_bad ss then degraded else ok
