-- ===== src/Limits.antt =====
-- The request limiters: server/internal/api/middleware/ratelimit.go. The three middlewares are
-- copies of one fixed window that differ in the key, the limit and a header; `admit` is that
-- window, under the limiter's lock. Instants are nanoseconds since 1970.
pub mod Window
pub mod Bursts
mod Tests
use featuresignals_unified.Base.{
  ℕ, suc, ◌+◌, ◌-◌, ◌*◌, ◌/◌, Bool, true, false, not, ◌||◌, Option, none, some, List, [], ◌∷◌, ltb,
  leb, take, if◌then◌else◌,
}
use featuresignals_unified.Base.Int.{ℤ, pos, negsuc, ◌+ℤ◌, ◌-ℤ◌, sub_ℕ}
use featuresignals_unified.Base.Text.{Text, text_eq}
use featuresignals_unified.Plans.{Plan, free, trial, pro, enterprise}

pub record Visitor : Type 0 where
  pub count : ℕ
  pub reset_at : ℕ

-- `rl.visitors`
abbrev pub Visitors : Type 0
Visitors = Text → Option Visitor

-- The X-RateLimit headers; `agent` is X-Agent-Rate-Limited.
pub record Headers : Type 0 where
  pub limit : ℕ
  pub remaining : ℤ
  pub reset : ℕ
  pub agent : Bool

-- The next handler is called, or the response is 429 with Retry-After.
pub data Answer : Type 0 where
  allowed : Headers → Answer
  limited : Headers → ℤ → Answer

abbrev nanoseconds : ℕ
nanoseconds = 1000000000

-- `window: time.Minute`
abbrev pub window : ℕ
window = 60 * nanoseconds

-- `rl.visitors[key] = v`
unfoldable pub put : Text → Visitor → Visitors → Visitors
put key v visitors k = if text_eq key k then some v else visitors k

-- `int(time.Until(resetAt).Seconds()) + 1`, the clock being at `at`
abbrev pub retry_after : ℕ → ℕ → ℤ
retry_after reset at =
    if leb at reset
    then pos ((reset - at) / nanoseconds + 1)
    else sub_ℕ 1 ((at - reset) / nanoseconds)

-- A request that finds no visitor, or one whose window is over.
abbrev pub open_window : Bool → ℕ → Text → ℕ → Visitors → Answer × Visitors
open_window agent limit key now visitors = (
  allowed (record {
    limit = limit;
    remaining = sub_ℕ limit 1;
    reset = (now + window) / nanoseconds;
    agent = agent;
  }),
  put key (record { count = 1; reset_at = now + window }) visitors,
)

-- A request in the window of a visitor; `later` is the clock at the call of time.Until.
abbrev pub count_request : Bool → ℕ → Text → ℕ → Visitor → Visitors → Answer × Visitors
count_request agent limit key later v visitors = (
  (if ltb limit (suc v.count)
      then limited
          (record {
            limit = limit;
            remaining = pos 0;
            reset = v.reset_at / nanoseconds;
            agent = agent;
          })
          (retry_after v.reset_at later)
      else allowed (record {
        limit = limit;
        remaining = pos (limit - suc v.count);
        reset = v.reset_at / nanoseconds;
        agent = agent;
      })),
  put key (record { count = suc v.count; reset_at = v.reset_at }) visitors,
)

-- `!exists || now.After(v.resetAt)`, for the visitor that was looked up
abbrev pub admit_visitor : Bool → ℕ → Text → ℕ → ℕ → Option Visitor → Visitors → Answer × Visitors
admit_visitor agent limit key now later none visitors = open_window agent limit key now visitors
admit_visitor agent limit key now later (some v) visitors =
    if ltb v.reset_at now
    then open_window agent limit key now visitors
    else count_request agent limit key later v visitors

unfoldable pub admit : Bool → ℕ → Text → ℕ → ℕ → Visitors → Answer × Visitors
admit agent limit key now later visitors =
    admit_visitor agent limit key now later (visitors key) visitors

-- One tick of the cleanup.
unfoldable pub sweep : ℕ → Visitors → Visitors
sweep now visitors k = elim (visitors k) [
  | none ↦ none
  | some v ↦ if ltb v.reset_at now then none else some v
]

abbrev or_else : Text → Text → Text
or_else [] b = b
or_else (c ∷ s) b = c ∷ s

-- The key of RateLimit: the start of the API key, or the address.
pub rate_limit_key : Text → Text → Text
rate_limit_key remote api_key = or_else (take 12 api_key) remote

pub rate_limit : ℕ → Text → Text → ℕ → ℕ → Visitors → Answer × Visitors
unfolding admit rate_limit_key
rate_limit per_minute remote api_key now later visitors =
    admit false per_minute (rate_limit_key remote api_key) now later visitors

-- `tierLimits[plan]`
pub tier_limits : Plan → Option ℕ
tier_limits free = some 100
tier_limits trial = some 500
tier_limits pro = some 500
tier_limits enterprise = some 2000
tier_limits (Plan.other _) = none

-- The limit of an organization; `plan` is what the store answered, `none` after an error.
pub tier_limit : Text → Option Plan → ℕ
unfolding tier_limits
tier_limit [] plan = 100
tier_limit (c ∷ s) none = 100
tier_limit (c ∷ s) (some plan) = elim (tier_limits plan) [ none ↦ 100 | some l ↦ l ]

-- `get_plan` is the plan that store.GetOrganization finds, `none` after an error.
pub tier_rate_limit : (Text → Option Plan) → Text → Text → ℕ → ℕ → Visitors → Answer × Visitors
unfolding admit tier_limit
tier_rate_limit get_plan org_id remote now later visitors =
    admit false (tier_limit org_id (get_plan org_id)) (or_else org_id remote) now later visitors

pub agent_rate_limit : ℕ → Text → Text → ℕ → ℕ → Visitors → Answer × Visitors
unfolding admit
agent_rate_limit per_minute agent_key remote now later visitors =
    admit true per_minute (or_else agent_key remote) now later visitors
