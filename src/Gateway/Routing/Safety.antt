-- ===== src/Gateway/Routing/Safety.antt =====
-- Which requests reach a domain, for the middleware chain of deploy/global-router.
use featuresignals_unified.Base.{
  ℕ, ◌<◌, ◌≡◌, ◌≢◌, refl, inl, inr, true, Bool-cases, Option, none, some, List, [], ◌∷◌, length,
  arith,
}
use featuresignals_unified.Base.Int.{pos, pos_part, leb_ℤ}
use featuresignals_unified.Base.Text.{Text}
use featuresignals_unified.Base.Assoc.{lookup, insert}
use featuresignals_unified.Gateway.RateLimiter.{
  RateLimiter, Verdict, allowed, denied, panicked, or_none_yet, drop_old, refuse, allow_client,
  allow,
}
use featuresignals_unified.Gateway.Firewall.{
  Platform, Request, Blocked, waf, extract_ip, is_static_asset, strip_port,
}
use featuresignals_unified.Gateway.Config.{Domain}
use featuresignals_unified.Gateway.Routing.Domains.{
  Granted, Granted-map, IsServed, HasRoom, limit_connections-Granted,
}
use featuresignals_unified.Gateway.Routing.{
  Router, limit_connections, after_verdict, ask_limiter, limit_rate, behind_waf, handle,
}

module _ (p : Platform) where
  abbrev pub limiter_or : RateLimiter → Option RateLimiter → RateLimiter
  limiter_or d none = d
  limiter_or d (some rl) = rl

  -- The limiter of the request's host lets the request through, or it is for a static asset.
  pub data InRate (now : ℕ) (req : Request) (r : Router) : Type 0 where
    static_path : is_static_asset req.path ≡ true → InRate now req r
    under_limit :
        (n : ℕ)
        → (allow
            (extract_ip p req)
            now
            (limiter_or r.default_rate_limiter (lookup (strip_port req.host) r.rate_limiters))).0
          ≡ allowed n
        → InRate now req r

  abbrev pub IsAdmitted : ℕ → Request → Router → Domain → Type 0
  IsAdmitted now req r d =
      IsServed p r req d × HasRoom p req r × InRate now req r × (waf p req ≡ none)

  module _ (now : ℕ) (req : Request) (r : Router) where
    after_verdict-Granted :
        (v : Verdict) (s : Router)
        → v ≢ panicked
        → Granted
            (λ d. IsServed p s req d × HasRoom p req s × ((n : ℕ) × (v ≡ allowed n)))
            (after_verdict p req v s).0
    unfolding after_verdict
    after_verdict-Granted (allowed n) s h =
        Granted-map (λ d. IsServed p s req d × HasRoom p req s)
          (λ d. IsServed p s req d × HasRoom p req s × ((m : ℕ) × (allowed n ≡ allowed m)))
          (limit_connections p req s).0 (λ d q. (q.0, q.1, (n, refl)))
          (limit_connections-Granted p req s)
    after_verdict-Granted (denied wait) s h = tt
    after_verdict-Granted panicked s h = absurd (h refl)

    -- What the limiter does to the router leaves what decides on the domain.
    ask_limiter-Granted :
        (o : Option RateLimiter)
        → (allow (extract_ip p req) now (limiter_or r.default_rate_limiter o)).0 ≢ panicked
        → Granted
            (λ d.
              IsServed p r req d
              × HasRoom p req r
              × ((n : ℕ) × ((allow (extract_ip p req) now (limiter_or r.default_rate_limiter o)).0
                    ≡ allowed n)))
            (ask_limiter p now req r o).0
    unfolding ask_limiter
    ask_limiter-Granted none h =
        let answer = allow (extract_ip p req) now r.default_rate_limiter in
        after_verdict-Granted answer.0 (record r { default_rate_limiter = answer.1 }) h
    ask_limiter-Granted (some rl) h =
        let answer = allow (extract_ip p req) now rl in
        after_verdict-Granted answer.0
          (record r { rate_limiters = insert (strip_port req.host) answer.1 r.rate_limiters }) h

  -- Each limiter lets something through.
  pub record IsPositive (r : Router) : Type 0 where
    pub default : 0 < pos_part r.default_rate_limiter.limit
    pub others :
        (host : Text) (rl : RateLimiter)
        → lookup host r.rate_limiters ≡ some rl
        → 0 < pos_part rl.limit

  refuse_never : (window now : ℕ) (l : List ℕ) → 0 < length l → refuse window now l ≢ panicked
  refuse_never window now [] h e = omega (arith, h)
  refuse_never window now (t ∷ ts) h e = absurd (cc e)

  allow_never :
      (ip : Text) (now : ℕ) (rl : RateLimiter)
      → 0 < pos_part rl.limit
      → (allow ip now rl).0 ≢ panicked
  unfolding allow allow_client
  allow_never ip now rl h =
      let l = drop_old rl.window now (or_none_yet (lookup ip rl.requests)) in
      elim (Bool-cases (leb_ℤ rl.limit (pos (length l)))) [
        | inl full ↦ rw full (refuse_never rl.window now l (ground (arith, full, h)))
        | inr free ↦ rw free (λ e. absurd (cc e))
      ]

  limiter_positive :
      (r : Router) (host : Text) (o : Option RateLimiter)
      → lookup host r.rate_limiters ≡ o
      → IsPositive r
      → 0 < pos_part (limiter_or r.default_rate_limiter o).limit
  limiter_positive r host none e h = h.default
  limiter_positive r host (some rl) e h = h.others host rl e

  limit_rate-Granted :
      (now : ℕ) (req : Request) (r : Router)
      → IsPositive r
      → Granted
          (λ d. IsServed p r req d × HasRoom p req r × InRate now req r)
          (limit_rate p now req r).0
  unfolding limit_rate
  limit_rate-Granted now req r h =
      let found = lookup (strip_port req.host) r.rate_limiters in
      elim (Bool-cases (is_static_asset req.path)) [
        | inl asset ↦ rw asset (
            Granted-map (λ d. IsServed p r req d × HasRoom p req r)
              (λ d. IsServed p r req d × HasRoom p req r × InRate now req r)
              (limit_connections p req r).0 (λ d q. (q.0, q.1, static_path asset))
              (limit_connections-Granted p req r))
        | inr other ↦ rw other (
            Granted-map
              (λ d.
                IsServed p r req d
                × HasRoom p req r
                × ((n : ℕ) × ((allow (extract_ip p req) now
                        (limiter_or r.default_rate_limiter found)).0
                      ≡ allowed n)))
              (λ d. IsServed p r req d × HasRoom p req r × InRate now req r)
              (ask_limiter p now req r found).0 (λ d q. (q.0, q.1, under_limit (q.2).0 (q.2).1))
              (ask_limiter-Granted now req r found (
                allow_never (extract_ip p req) now (limiter_or r.default_rate_limiter found)
                  (limiter_positive r (strip_port req.host) found refl h))))
      ]

  -- In a router whose limiters have positive limits, the handling of a request never panics, and a
  -- domain answers only if it has the request's host, the firewall blocks nothing, the limiter lets
  -- the request through or the path is a static asset, the client has a connection left, and, for a
  -- domain of the operations team, the header carries a token with the configured hash.
  pub handle-Granted :
      (now : ℕ) (req : Request) (r : Router)
      → IsPositive r
      → Granted (IsAdmitted now req r) (handle p now req r).0
  unfolding handle behind_waf
  handle-Granted now req r h = go (waf p req) refl
    where
      go :
          (o : Option Blocked)
          → waf p req ≡ o
          → Granted (IsAdmitted now req r) (behind_waf p now req r o).0
      go (some reason) e = tt
      go none e =
          Granted-map (λ d. IsServed p r req d × HasRoom p req r × InRate now req r)
            (IsAdmitted now req r) (limit_rate p now req r).0 (λ d q. (q.0, q.1, q.2, e))
            (limit_rate-Granted now req r h)
