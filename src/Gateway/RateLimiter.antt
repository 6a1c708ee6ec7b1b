-- ===== src/Gateway/RateLimiter.antt =====
-- The sliding windows: RateLimiter of deploy/global-router/security.go. The order of the entries
-- of the map is the order in which `range` visits them.
pub mod Sliding
pub mod Windows
pub mod Bounds
use featuresignals_unified.Base.{
  ℕ, ◌+◌, ◌-◌, ◌*◌, Bool, true, false, ◌&&◌, Option, none, some, List, [], ◌∷◌, ◌++◌, ltb, leb,
  length, if◌then◌else◌,
}
use featuresignals_unified.Base.Int.{ℤ, pos, pos_part, leb_ℤ}
use featuresignals_unified.Base.Text.{Text}
use featuresignals_unified.Base.Assoc.{lookup, insert, remove}

-- The times of the requests of each client, the oldest first.
pub record RateLimiter : Type 0 where
  pub requests : List (Text × List ℕ)
  pub limit : ℤ
  pub window : ℕ
  pub max_ips : ℕ

abbrev pub new_rate_limiter : ℤ → ℕ → ℕ → RateLimiter
new_rate_limiter limit window max_ips = record {
  requests = [];
  limit = limit;
  window = window;
  max_ips = max_ips;
}

-- What Allow answers: the requests that remain, or the time to wait. With nothing to read at the
-- front of an empty list it panics.
pub data Verdict : Type 0 where
  allowed : ℕ → Verdict
  denied : ℕ → Verdict
  panicked : Verdict

abbrev pub or_none_yet : Option (List ℕ) → List ℕ
or_none_yet none = []
or_none_yet (some ts) = ts

-- The loop that removes the entries before the window.
unfoldable pub drop_old : ℕ → ℕ → List ℕ → List ℕ
drop_old window now [] = []
drop_old window now (t ∷ ts) =
    let rest = drop_old window now ts in if ltb (t + window) now then rest else t ∷ ts

-- `rl.window - now.Sub(oldest)`
abbrev pub refuse : ℕ → ℕ → List ℕ → Verdict
refuse window now [] = panicked
refuse window now (oldest ∷ _) = denied (oldest + window - now)

abbrev older : Text → ℕ → Option (Text × ℕ) → Option (Text × ℕ)
older ip t none = some (ip, t)
older ip t (some (oldest_ip, oldest)) =
    if ltb t oldest then some (ip, t) else some (oldest_ip, oldest)

-- The loop over the clients: those without entries are deleted, and the oldest front is found.
unfoldable pub scan :
    List (Text × List ℕ) → Option (Text × ℕ) → List (Text × List ℕ) × Option (Text × ℕ)
scan [] found = ([], found)
scan ((ip, []) ∷ m) found = scan m found
scan ((ip, t ∷ ts) ∷ m) found =
    let rest = scan m (older ip t found) in ((ip, t ∷ ts) ∷ rest.0, rest.1)

-- `if oldestIP != ""`
abbrev pub drop_oldest : List (Text × List ℕ) → Option (Text × ℕ) → List (Text × List ℕ)
drop_oldest m none = m
drop_oldest m (some ([], _)) = m
drop_oldest m (some (c ∷ ip, _)) = remove (c ∷ ip) m

unfoldable pub evict : ℕ → List (Text × List ℕ) → List (Text × List ℕ)
unfolding scan
evict max_ips m =
    if ltb 0 max_ips && ltb max_ips (length m)
    then (let found = scan m none in drop_oldest found.0 found.1)
    else m

abbrev pub with_requests : List (Text × List ℕ) → RateLimiter → RateLimiter
with_requests m rl = record rl { requests = m }

-- Allow, once the old entries are removed. What remains is counted where the limit is above the count.
unfoldable pub allow_client : Text → ℕ → List ℕ → RateLimiter → Verdict × RateLimiter
unfolding evict
allow_client ip now l rl =
    if leb_ℤ rl.limit (pos (length l))
    then (refuse rl.window now l, with_requests (insert ip l rl.requests) rl)
    else (
      allowed (pos_part rl.limit - (length l + 1)),
      with_requests (evict rl.max_ips (insert ip (l ++ now ∷ []) rl.requests)) rl,
    )

unfoldable pub allow : Text → ℕ → RateLimiter → Verdict × RateLimiter
unfolding allow_client drop_old
allow ip now rl =
    allow_client ip now (drop_old rl.window now (or_none_yet (lookup ip rl.requests))) rl

-- One round of CleanupLoop.
unfoldable pub sweep_entries : ℕ → ℕ → List (Text × List ℕ) → List (Text × List ℕ)
sweep_entries window now [] = []
sweep_entries window now ((ip, []) ∷ m) = sweep_entries window now m
sweep_entries window now ((ip, t ∷ ts) ∷ m) =
    let rest = sweep_entries window now m in
    if ltb (t + 2 * window) now then rest else (ip, t ∷ ts) ∷ rest

unfoldable pub clean_up : ℕ → RateLimiter → RateLimiter
unfolding sweep_entries
clean_up now rl = with_requests (sweep_entries rl.window now rl.requests) rl
