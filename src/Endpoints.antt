-- ===== src/Endpoints.antt =====
-- The evaluation endpoints of server/internal/api/handlers/eval.go: the lookup of an API key, of its
-- environment and of a ruleset, and the four handlers that use them. The lookups by key are those of
-- server/internal/store/postgres/store.go. The hash of a key is a parameter.
mod Served
mod Streamed
mod Tests
use featuresignals_unified.Base.{
  ℕ, Bool, true, false, not, ◌&&◌, ◌||◌, Option, none, some, List, [], ◌∷◌, ltb, length,
  if◌then◌else◌,
}
use featuresignals_unified.Base.Text.{Text, bytes, text_eq}
use featuresignals_unified.Base.Assoc.{insert}
use featuresignals_unified.Domain.{Ruleset, Json, EvalContext, EvalResult}
use featuresignals_unified.Eval.Std.{Std}
use featuresignals_unified.Eval.Engine.{evaluate, evaluate_all}
use featuresignals_unified.Cache.{Rows, Cache, ruleset_for}

pub record ApiKey : Type 0 where
  pub id : Text
  pub env_id : Text
  pub key_hash : Text
  pub revoked_at : Option ℕ
  pub expires_at : Option ℕ

pub record Environment : Type 0 where
  pub id : Text
  pub slug : Text

-- The tables, and whether a query of them fails. `rows` is what LoadRuleset of the store would answer
-- for an environment.
pub record Store : Type 0 where
  pub keys : List ApiKey
  pub environments : List Environment
  pub keys_fail : Bool
  pub environments_fail : Bool
  pub rows : Text → Option Rows

-- What the handlers change: the cache, and the keys of the calls of UpdateAPIKeyLastUsed.
pub record Host : Type 0 where
  pub cache : Cache
  pub last_used : List Text

pub data Answer (A : Type 0) : Type 0 where
  ok : A → Answer A
  bad_request : Answer A
  unauthorized : Answer A
  forbidden : Answer A

abbrev is_unset : Option ℕ → Bool
is_unset none = true
is_unset (some t) = false

abbrev is_ahead : ℕ → Option ℕ → Bool
is_ahead now none = true
is_ahead now (some t) = ltb now t

-- The WHERE of GetAPIKeyByHash.
abbrev pub is_live : ℕ → Text → ApiKey → Bool
is_live now h k = text_eq k.key_hash h && is_unset k.revoked_at && is_ahead now k.expires_at

unfoldable pub find_key : ℕ → Text → List ApiKey → Option ApiKey
find_key now h [] = none
find_key now h (k ∷ ks) = if is_live now h k then some k else find_key now h ks

unfoldable pub find_environment : Text → List Environment → Option Environment
find_environment id [] = none
find_environment id (e ∷ es) = if text_eq e.id id then some e else find_environment id es

-- GetAPIKeyByHash
unfoldable pub get_api_key_by_hash : ℕ → Text → Store → Option ApiKey
unfolding find_key
get_api_key_by_hash now h s = if s.keys_fail then none else find_key now h s.keys

-- GetEnvironment
unfoldable pub get_environment : Text → Store → Option Environment
unfolding find_environment
get_environment id s = if s.environments_fail then none else find_environment id s.environments

abbrev pair_with : ApiKey → Option Environment → Option (Environment × ApiKey)
pair_with k none = none
pair_with k (some e) = some (e, k)

abbrev of_key : Store → Option ApiKey → Option (Environment × ApiKey)
of_key s none = none
of_key s (some k) = pair_with k (get_environment k.env_id s)

unfoldable pub get_environment_by_api_key_hash : ℕ → Text → Store → Option (Environment × ApiKey)
get_environment_by_api_key_hash now h s = of_key s (get_api_key_by_hash now h s)

-- The end of getRulesetFromAPIKey, once the ruleset is looked up.
abbrev pub with_ruleset :
    Text → Text → Host → Option Ruleset × Cache → Option (Ruleset × Text) × Host
with_ruleset env key h (none, c) = (none, record { cache = c; last_used = key ∷ h.last_used })
with_ruleset env key h (some rs, c) =
    (some (rs, env), record { cache = c; last_used = key ∷ h.last_used })

-- The rest of getRulesetFromAPIKey, once the environment is looked up.
abbrev pub on_environment :
    Store → Host → Option (Environment × ApiKey) → Option (Ruleset × Text) × Host
on_environment s h none = (none, h)
on_environment s h (some (e, k)) = with_ruleset e.id k.id h (ruleset_for (s.rows e.id) e.id h.cache)

module _ (hash : Text → Text) (now : ℕ) (s : Store) where
  unfoldable pub get_ruleset_from_api_key : Text → Host → Option (Ruleset × Text) × Host
  get_ruleset_from_api_key api_key h =
      if text_eq api_key []
      then (none, h)
      else on_environment s h (get_environment_by_api_key_hash now (hash api_key) s)

  -- What a handler answers once the ruleset is there.
  abbrev pub or_unauthorized :
      {A : Type 0} → (Ruleset → Text → Answer A) → Option (Ruleset × Text) × Host → Answer A × Host
  or_unauthorized f (none, h) = (unauthorized, h)
  or_unauthorized f (some (rs, env), h) = (f rs env, h)

  module _ (std : Std) where
    -- Evaluate. The key and the context are those of the request's body, `none` one that is refused.
    pub evaluate_request :
        Text
        → Option (Text × EvalContext std.Float)
        → Host
        → Answer (Option (EvalResult std.Float)) × Host
    evaluate_request api_key none h = (bad_request, h)
    evaluate_request api_key (some (key, ctx)) h =
        if text_eq key [] || text_eq ctx.key []
        then (bad_request, h)
        else or_unauthorized (λ rs env. ok (evaluate std now ctx rs key))
            (get_ruleset_from_api_key api_key h)

    -- The loop of BulkEvaluate.
    pub bulk_results :
        EvalContext std.Float
        → Ruleset
        → List Text
        → List (Text × Option (EvalResult std.Float))
        → List (Text × Option (EvalResult std.Float))
    bulk_results ctx rs [] m = m
    bulk_results ctx rs (key ∷ ks) m =
        bulk_results ctx rs ks (insert key (evaluate std now ctx rs key) m)

    pub bulk_evaluate :
        Text
        → Option (List Text × EvalContext std.Float)
        → Host
        → Answer (List (Text × Option (EvalResult std.Float))) × Host
    bulk_evaluate api_key none h = (bad_request, h)
    bulk_evaluate api_key (some (flag_keys, ctx)) h =
        if text_eq ctx.key [] || ltb 100 (length flag_keys)
        then (bad_request, h)
        else or_unauthorized (λ rs env. ok (bulk_results ctx rs flag_keys []))
            (get_ruleset_from_api_key api_key h)

    -- The values of the results.
    abbrev value_of : Option (EvalResult std.Float) → Option (Json std.Float)
    value_of none = none
    value_of (some r) = some r.value

    pub values_of :
        List (Text × Option (EvalResult std.Float)) → List (Text × Option (Json std.Float))
    values_of [] = []
    values_of ((key, r) ∷ rs) = (key, value_of r) ∷ values_of rs

    -- `envErr == nil && env.Slug != envKey`
    abbrev pub is_mismatch : Text → Option Environment → Bool
    is_mismatch env_key none = false
    is_mismatch env_key (some e) = not (text_eq e.slug env_key)

    abbrev pub client_context : Text → EvalContext std.Float
    client_context key = record {
      key = if text_eq key [] then bytes "anonymous" else key;
      attributes = [];
    }

    pub client_flags :
        Text → Text → Text → Host → Answer (List (Text × Option (Json std.Float))) × Host
    client_flags api_key env_key key h =
        or_unauthorized
          (λ rs env.
            if not (text_eq env_key []) && is_mismatch env_key (get_environment env s)
            then forbidden
            else ok (values_of (evaluate_all std now (client_context key) rs)))
          (get_ruleset_from_api_key api_key h)

  -- The end of Stream, once the environment is looked up; the answer is the environment whose events
  -- are streamed.
  abbrev pub stream_environment : Text → Option (Environment × ApiKey) → Answer Text
  stream_environment env_key none = unauthorized
  stream_environment env_key (some (e, k)) = if text_eq e.slug env_key then ok e.id else forbidden

  -- Stream, with the key of the header or else that of the query.
  unfoldable pub stream : Text → Text → Text → Answer Text
  stream env_key header query =
      let api_key = if text_eq header [] then query else header in
      if text_eq env_key []
      then bad_request
      else if text_eq api_key []
      then unauthorized
      else stream_environment env_key (get_environment_by_api_key_hash now (hash api_key) s)
