-- ===== src/Gateway/Routing/Fresh.antt =====
-- The router that NewRouter of deploy/global-router/router.go makes.
use mathlib.Core.Path.{subst}
use featuresignals_unified.Base.{
  refl, sym, leb, length, Option-cases, ℕ, ◌+◌, ◌-◌, ◌*◌, ◌%◌, ◌<◌, ◌≤◌, ◌&&◌, if◌then◌else◌, ◌≡◌,
  Bool, true, false, Bool-cases, Option, none, some, inl, inr, List, [], ◌∷◌, arith,
}
use featuresignals_unified.Base.Int.{pos, pos_part, leb_ℤ}
use featuresignals_unified.Base.Preds.{All}
use featuresignals_unified.Base.Text.{Text, text_eq}
use featuresignals_unified.Base.Strings.{split_once}
use featuresignals_unified.Base.Assoc.{lookup, insert, lookup-insert}
use featuresignals_unified.Gateway.RateLimiter.{
  RateLimiter, Verdict, allowed, denied, panicked, or_none_yet, drop_old, allow, allow_client,
}
use featuresignals_unified.Gateway.Connections.{ConnLimiter, acquire, release}
use featuresignals_unified.Gateway.Firewall.{
  Platform, Request, waf, extract_ip, is_static_asset, strip_port,
}
use featuresignals_unified.Gateway.Config.{
  Domain, Config, parse_rate_limit, rate_of, atoi_loop, atoi,
}
use featuresignals_unified.Gateway.Routing.{
  Router, limiter_of, or_default, add_domain, add_domains, new_router, admitted, limit_connections,
  after_verdict, ask_limiter, limit_rate, behind_waf, handle,
}
use featuresignals_unified.Gateway.Routing.Domains.{Granted}
use featuresignals_unified.Gateway.Routing.Safety.{IsPositive, IsAdmitted, handle-Granted}

-- The number that the digits at the front of a text write after those of `n`, of any size.
unfoldable pub written : ℕ → Text → ℕ
written n [] = n
written n (c ∷ s) =
    let rest = written (n * 10 + (c - 48)) s in if leb 48 c && leb c 57 then rest else n

written-le : (n : ℕ) (s : Text) → n ≤ written n s
unfolding written
written-le n [] = omega arith
written-le n (c ∷ s) = ground (arith, written-le (n * 10 + (c - 48)) s)

-- A number of less than 64 bits is read as it is written.
atoi_loop-written :
    (n : ℕ) (s : Text) → written n s < 9223372036854775808 → atoi_loop n s ≡ written n s
unfolding written atoi_loop
atoi_loop-written n [] h = refl
atoi_loop-written n (c ∷ s) h = elim (Bool-cases (leb 48 c && leb c 57)) [
  | inr f ↦ rw f refl
  | inl t ↦
      let m : written (n * 10 + (c - 48)) s < 9223372036854775808 = rw t at h in
      let small : (n * 10 + (c - 48)) % 18446744073709551616 ≡ n * 10 + (c - 48) =
        omega (arith, m, written-le (n * 10 + (c - 48)) s) in
      rw (t, small) (atoi_loop-written (n * 10 + (c - 48)) s m)
]

atoi_positive : (s : Text) → written 0 s < 9223372036854775808 → 0 < pos_part (atoi s)
unfolding atoi
atoi_positive s h = ground (arith, atoi_loop-written 0 s h, h)

-- The number before the slash of a limit, where there is one, fits an int.
abbrev pub Fits : Option (Text × Text) → Type 0
Fits none = Unit
Fits (some (n, unit)) = written 0 n < 9223372036854775808

abbrev pub LimitFits : Text → Type 0
LimitFits s = Fits (split_once 47 s)

-- The limits of a configuration fit an int.
pub record LimitsFit (c : Config) : Type 0 where
  pub default : LimitFits c.default_rate_limit
  pub domains : All (λ d. LimitFits d.rate_limit) c.domains

rate_of_positive : (o : Option (Text × Text)) → Fits o → 0 < pos_part (rate_of o).0
rate_of_positive none h = omega arith
rate_of_positive (some (n, unit)) h = ground (arith, atoi_positive n h)

limiter_of_positive :
    (max_ips : ℕ) (s : Text)
    → LimitFits s
    → 0 < pos_part (limiter_of max_ips (parse_rate_limit s)).limit
unfolding parse_rate_limit
limiter_of_positive max_ips s h = rate_of_positive (split_once 47 s) h

insert_positive :
    {p : Platform} (host : Text) (rl : RateLimiter) (r : Router)
    → 0 < pos_part rl.limit
    → IsPositive p r
    → (k : Text) (x : RateLimiter) → lookup k (insert host rl r.rate_limiters) ≡ some x
    → 0 < pos_part x.limit
insert_positive host rl r positive h k x found = elim (Bool-cases (text_eq host k)) [
  | inl same ↦
      let equal : rl ≡ x = cc (rw same at (lookup-insert host k rl r.rate_limiters), found) in
      subst (λ (y : RateLimiter). 0 < pos_part y.limit) equal positive
  | inr other ↦ h.others k x (rw (lookup-insert host k rl r.rate_limiters, other) at found)
]

module _ (p : Platform) (parses : Text → Bool) (max_ips : ℕ) where
  add_domain-IsPositive :
      (d : Domain) (r : Router)
      → LimitFits d.rate_limit
      → IsPositive p r
      → IsPositive p (add_domain parses max_ips d r)
  unfolding add_domain
  add_domain-IsPositive d r fits h = elim (Bool-cases (text_eq d.rate_limit [])) [
    | inl t ↦ rw t (record { default = h.default; others = h.others })
    | inr f ↦ rw f (record {
      default = h.default;
      others =
          insert_positive d.name (limiter_of max_ips (parse_rate_limit d.rate_limit)) r
            (limiter_of_positive max_ips d.rate_limit fits) h;
    })
  ]

  add_domains-IsPositive :
      (ds : List Domain) (r : Router)
      → All (λ d. LimitFits d.rate_limit) ds
      → IsPositive p r
      → IsPositive p (add_domains parses max_ips ds r)
  unfolding add_domains
  add_domains-IsPositive [] r fits h = h
  add_domains-IsPositive (d ∷ ds) r fits h =
      add_domains-IsPositive ds (add_domain parses max_ips d r) fits.1
        (add_domain-IsPositive d r fits.0 h)

new_router-IsPositive :
    (p : Platform) (parses : Text → Bool) (token : Text) (c : Config)
    → LimitsFit c
    → IsPositive p (new_router p parses token c)
unfolding new_router lookup
new_router-IsPositive p parses token c fits =
    add_domains-IsPositive p parses (or_default c.max_ips 100000) c.domains _ fits.domains (record {
      default = limiter_of_positive (or_default c.max_ips 100000) c.default_rate_limit fits.default;
      others = λ host rl found. absurd (cc found);
    })

allow-limit : (ip : Text) (now : ℕ) (rl : RateLimiter) → (allow ip now rl).1.limit ≡ rl.limit
unfolding allow allow_client
allow-limit ip now rl =
    elim (Bool-cases (
      leb_ℤ rl.limit
        (pos (length (drop_old rl.window now (or_none_yet (lookup ip rl.requests))))))) [
          | inl full ↦ rw full refl
          | inr free ↦ rw free refl
        ]

module _ (p : Platform) where
  admitted-IsPositive :
      (req : Request) (r : Router) (a : Bool × ConnLimiter)
      → IsPositive p r
      → IsPositive p (admitted p r req a).1
  admitted-IsPositive req r (true, cl) h = record { default = h.default; others = h.others }
  admitted-IsPositive req r (false, cl) h = record { default = h.default; others = h.others }

  after_verdict-IsPositive :
      (req : Request) (v : Verdict) (r : Router)
      → IsPositive p r
      → IsPositive p (after_verdict p req v r).1
  unfolding after_verdict limit_connections
  after_verdict-IsPositive req (allowed n) r h =
      admitted-IsPositive req r (acquire (extract_ip p req) r.conn_limiter) h
  after_verdict-IsPositive req (denied wait) r h = h
  after_verdict-IsPositive req panicked r h = h

  ask_limiter-IsPositive :
      (now : ℕ) (req : Request) (r : Router) (o : Option RateLimiter)
      → lookup (strip_port req.host) r.rate_limiters ≡ o
      → IsPositive p r
      → IsPositive p (ask_limiter p now req r o).1
  unfolding ask_limiter
  ask_limiter-IsPositive now req r none e h =
      let answer = allow (extract_ip p req) now r.default_rate_limiter in
      after_verdict-IsPositive req answer.0 (record r { default_rate_limiter = answer.1 })
        (record {
          default =
              subst (λ n. 0 < pos_part n)
                (sym (allow-limit (extract_ip p req) now r.default_rate_limiter)) h.default;
          others = h.others;
        })
  ask_limiter-IsPositive now req r (some rl) e h =
      let answer = allow (extract_ip p req) now rl in
      let positive =
        subst (λ n. 0 < pos_part n) (sym (allow-limit (extract_ip p req) now rl))
          (h.others (strip_port req.host) rl e) in
      after_verdict-IsPositive req answer.0
        (record r { rate_limiters = insert (strip_port req.host) answer.1 r.rate_limiters })
        (record {
          default = h.default;
          others = insert_positive (strip_port req.host) answer.1 r positive h;
        })

  handle-IsPositive :
      (now : ℕ) (req : Request) (r : Router) → IsPositive p r → IsPositive p (handle p now req r).1
  unfolding handle behind_waf limit_rate limit_connections
  handle-IsPositive now req r h = elim (Option-cases (waf p req)) [
    | inr (reason, e) ↦ rw e h
    | inl e ↦ elim (Bool-cases (is_static_asset req.path)) [
      | inl t ↦ rw (e, t) (admitted-IsPositive req r (acquire (extract_ip p req) r.conn_limiter) h)
      | inr f ↦
          rw (e, f)
            (ask_limiter-IsPositive now req r (lookup (strip_port req.host) r.rate_limiters) refl h)
    ]
  ]

  -- The routers that a configuration leads to: requests are handled and connections released.
  pub data Reached (parses : Text → Bool) (token : Text) (c : Config) : Router → Type 0 where
    fresh : Reached parses token c (new_router p parses token c)
    handled :
        {r : Router} (now : ℕ) (req : Request)
        → Reached parses token c r
        → Reached parses token c (handle p now req r).1
    released :
        {r : Router} (ip : Text)
        → Reached parses token c r
        → Reached parses token c (record r { conn_limiter = release ip r.conn_limiter })

  Reached-IsPositive :
      (parses : Text → Bool) (token : Text) (c : Config) {r : Router}
      → LimitsFit c
      → Reached parses token c r
      → IsPositive p r
  Reached-IsPositive parses token c fits fresh = new_router-IsPositive p parses token c fits
  Reached-IsPositive parses token c fits (handled now req h) =
      handle-IsPositive now req _ (Reached-IsPositive parses token c fits h)
  Reached-IsPositive parses token c fits (released ip h) =
      let k = Reached-IsPositive parses token c fits h in
      record { default = k.default; others = k.others }

  -- In every router that a configuration leads to whose limits fit an int, the handling of a request never panics, and a
  -- domain answers only if it has the request's host, the firewall blocks nothing, the limiter lets
  -- the request through or the path is a static asset, the client has a connection left, and, for a
  -- domain of the operations team, the header carries a token with the configured hash.
  pub Reached-Granted :
      (parses : Text → Bool) (token : Text) (c : Config) (r : Router) (now : ℕ) (req : Request)
      → LimitsFit c
      → Reached parses token c r
      → Granted (IsAdmitted p now req r) (handle p now req r).0
  Reached-Granted parses token c r now req fits h =
      handle-Granted p now req r (Reached-IsPositive parses token c fits h)
