-- ===== src/Gateway/Routing/Domains.antt =====
-- What the router answers for a domain, in deploy/global-router.
use mathlib.Core.Path.{subst}
use featuresignals_unified.Base.{
  ◌<◌, ◌≡◌, ◌≢◌, refl, sym, inl, inr, Bool, true, false, not, Bool-cases, Option, none, some, List,
  [], ◌∷◌, ◌++◌, drop, length, leb, arith, if◌then◌else◌,
}
use featuresignals_unified.Base.Text.{Text, bytes, text_eq, text_eq_iff, has_prefix}
use featuresignals_unified.Base.Strings.{equal_fold}
use featuresignals_unified.Base.Assoc.{lookup}
use featuresignals_unified.Gateway.Connections.{acquire, connections}
use featuresignals_unified.Gateway.Firewall.{Platform, Request, extract_ip, strip_port}
use featuresignals_unified.Gateway.Config.{Domain, is_static, is_proxy}
use featuresignals_unified.Gateway.Routing.{
  Router, Refusal, not_configured, no_header, no_bearer, empty_token, wrong_token, ops_auth, Answer,
  health, metrics, bad_gateway, not_found, static_site, proxied, unauthorized, blocked,
  rate_limited, too_many_connections, panic, find_domain, serve_proxy, behind_auth, if_ops,
  serve_domain, serve_http, limit_connections,
}

-- A domain that answers fulfils `Q`, and nothing panics.
abbrev pub Granted : (Domain → Type 0) → Answer → Type 0
Granted Q (static_site d) = Q d
Granted Q (proxied d) = Q d
Granted Q panic = ⊥
Granted Q _ = Unit

pub Granted-map :
    (Q R : Domain → Type 0) (a : Answer) → ((d : Domain) → Q d → R d) → Granted Q a → Granted R a
Granted-map Q R (static_site d) f h = f d h
Granted-map Q R (proxied d) f h = f d h
Granted-map Q R panic f h = h
Granted-map Q R health f h = tt
Granted-map Q R metrics f h = tt
Granted-map Q R bad_gateway f h = tt
Granted-map Q R not_found f h = tt
Granted-map Q R (unauthorized _) f h = tt
Granted-map Q R (blocked _) f h = tt
Granted-map Q R (rate_limited _) f h = tt
Granted-map Q R too_many_connections f h = tt

-- The header carries a token with the configured hash.
abbrev pub HasToken : Platform → Text → Text → Type 0
HasToken p token_hash header =
    (token : Text) × (header ≡ bytes "Bearer " ++ token)
    × (equal_fold (p.sum_hex token) token_hash ≡ true)
    × (token_hash ≢ [])

has_prefix-append :
    (s start : Text) → has_prefix s start ≡ true → s ≡ start ++ drop (length start) s
unfolding has_prefix
has_prefix-append s [] h = refl
has_prefix-append [] (c ∷ start) h = absurd (cc h)
has_prefix-append (d ∷ s) (c ∷ start) h = ground (arith, h, has_prefix-append s start)

abbrev first_refusal : Bool → Bool → Bool → Bool → Bool → Option Refusal
first_refusal a b c d e =
    if a
    then some not_configured
    else (if b
        then some no_header
        else (if not c
            then some no_bearer
            else (if d then some empty_token else (if not e then some wrong_token else none))))

first_refusal-none :
    (a b c d e : Bool) → first_refusal a b c d e ≡ none → (a ≡ false) × (c ≡ true) × (e ≡ true)
first_refusal-none a b c d e h = ground (arith, h)

ops_auth-HasToken :
    (p : Platform) (token_hash header : Text)
    → ops_auth p token_hash header ≡ none
    → HasToken p token_hash header
unfolding ops_auth
ops_auth-HasToken p token_hash header h =
    let (configured, prefixed, equal) =
      first_refusal-none (text_eq token_hash []) (text_eq header [])
        (has_prefix header (bytes "Bearer ")) (text_eq (drop 7 header) [])
        (equal_fold (p.sum_hex (drop 7 header)) token_hash) h in
    (
      drop 7 header,
      has_prefix-append header (bytes "Bearer ") prefixed,
      equal,
      λ e. cc (configured, (text_eq_iff token_hash []).1 e),
    )

find_domain-name :
    (host : Text) (ds : List Domain) (d : Domain) → find_domain host ds ≡ some d → d.name ≡ host
unfolding find_domain
find_domain-name host [] d h = absurd (cc h)
find_domain-name host (e ∷ ds) d h = elim (Bool-cases (text_eq e.name host)) [
  | inl t ↦
      let same : e ≡ d = cc (rw t at h) in
      subst (λ x. x.name ≡ host) same ((text_eq_iff e.name host).0 t)
  | inr f ↦ find_domain-name host ds d (rw f at h)
]

module _ (p : Platform) where
  -- The domain has the request's host, and one of the operations team has the token.
  abbrev pub IsServed : Router → Request → Domain → Type 0
  IsServed r req d =
      (d.name ≡ strip_port req.host)
      × (d.auth ≡ bytes "ops" → HasToken p r.ops_token_hash req.authorization)

  if_ops-Granted :
      (r : Router) (req : Request) (d : Domain) (a : Answer)
      → Granted (λ e. e ≡ d) a
      → d.name ≡ strip_port req.host
      → Granted (IsServed r req) (if_ops d (ops_auth p r.ops_token_hash req.authorization) a)
  if_ops-Granted r req d a g n = elim (Bool-cases (text_eq d.auth (bytes "ops"))) [
    | inl t ↦ rw t (checked (ops_auth p r.ops_token_hash req.authorization) refl)
    | inr f ↦ rw f (
        Granted-map (λ e. e ≡ d) (IsServed r req) a
          (λ e same.
            subst (IsServed r req) (sym same)
              (n, λ o. absurd (cc (f, (text_eq_iff d.auth (bytes "ops")).1 o))))
          g)
  ]
    where
      checked :
          (o : Option Refusal)
          → ops_auth p r.ops_token_hash req.authorization ≡ o
          → Granted (IsServed r req) (behind_auth o a)
      checked (some refusal) e = tt
      checked none e =
          Granted-map (λ x. x ≡ d) (IsServed r req) a
            (λ x same.
              subst (IsServed r req) (sym same)
                (n, λ o. ops_auth-HasToken p r.ops_token_hash req.authorization e))
            g

  serve_proxy-Granted : (d : Domain) (o : Option Bool) → Granted (λ e. e ≡ d) (serve_proxy d o)
  serve_proxy-Granted d none = tt
  serve_proxy-Granted d (some b) = refl

  serve_domain-Granted :
      (r : Router) (req : Request) (o : Option Domain)
      → find_domain (strip_port req.host) r.config.domains ≡ o
      → Granted (IsServed r req) (serve_domain p r req o)
  unfolding serve_domain
  serve_domain-Granted r req none e = tt
  serve_domain-Granted r req (some d) e =
      let n = find_domain-name (strip_port req.host) r.config.domains d e in
      elim (Bool-cases (is_static d)) [
        | inl t ↦ rw t (if_ops-Granted r req d (static_site d) refl n)
        | inr f ↦ elim (Bool-cases (is_proxy d)) [
          | inl t ↦
              rw (f, t)
                (if_ops-Granted r req d (serve_proxy d (lookup d.name r.proxies))
                  (serve_proxy-Granted d (lookup d.name r.proxies)) n)
          | inr g ↦ rw (f, g) tt
        ]
      ]

  pub serve_http-Granted :
      (r : Router) (req : Request) → Granted (IsServed r req) (serve_http p r req)
  unfolding serve_http
  serve_http-Granted r req = elim (Bool-cases (text_eq req.path (bytes "/ops/health"))) [
    | inl t ↦ rw t tt
    | inr f ↦ elim (Bool-cases (text_eq req.path (bytes "/ops/metrics"))) [
      | inl t ↦ rw (f, t) tt
      | inr g ↦
          rw (f, g)
            (serve_domain-Granted r req (find_domain (strip_port req.host) r.config.domains) refl)
    ]
  ]

  -- The client has a connection left.
  abbrev pub HasRoom : Request → Router → Type 0
  HasRoom req r = connections (extract_ip p req) r.conn_limiter < r.conn_limiter.max

  pub limit_connections-Granted :
      (req : Request) (r : Router)
      → Granted (λ d. IsServed r req d × HasRoom req r) (limit_connections p req r).0
  unfolding limit_connections acquire
  limit_connections-Granted req r =
      elim (Bool-cases (leb r.conn_limiter.max (connections (extract_ip p req) r.conn_limiter))) [
        | inl full ↦ rw full tt
        | inr free ↦ rw free (
            Granted-map (IsServed r req) (λ d. IsServed r req d × HasRoom req r)
              (serve_http p r req) (λ d served. (served, ground (arith, free)))
              (serve_http-Granted r req))
      ]
