-- ===== src/Endpoints/Tests.antt =====
-- Concrete requests to the endpoints of server/internal/api/handlers/eval.go.
use featuresignals_unified.Base.{
  ℕ, ◌≡◌, ◌≢◌, refl, Bool, true, false, Option, none, some, List, [], ◌∷◌, inl, inr,
}
use featuresignals_unified.Base.Text.{Text, bytes}
use featuresignals_unified.Domain.{Flag, EvalContext, EvalResult, boolean, release, active}
use featuresignals_unified.Eval.Engine.{evaluate}
use featuresignals_unified.Eval.Engine.Sample.{toy_std}
use featuresignals_unified.Cache.{Rows, Cache, build_ruleset, new_cache, store_ruleset}
use featuresignals_unified.Cache.World.{here, initial}
use featuresignals_unified.Endpoints.{
  ApiKey, Environment, Store, Host, Answer, ok, unauthorized, forbidden, bad_request, bulk_results,
  bulk_evaluate, evaluate_request, client_flags, stream, get_environment_by_api_key_hash,
}
use featuresignals_unified.Endpoints.Served.{IsBulk, bulk_evaluate-IsBulk, evaluate_request-Current}
use featuresignals_unified.Endpoints.Streamed.{IsOwner, stream-IsOwner}

abbrev flag_b : Flag
flag_b = record {
  id = bytes "1";
  key = bytes "b";
  name = bytes "B";
  description = [];
  flag_type = boolean;
  category = release;
  status = active;
  default_value = none;
  expires_at = none;
  prerequisites = [];
  mutual_exclusion_group = [];
}

abbrev rows_b : Rows
rows_b = record { flags = flag_b ∷ []; states = []; segments = [] }

abbrev db_b : Text → Rows
db_b env = rows_b

abbrev test_hash : Text → Text
test_hash key = 35 ∷ key

abbrev key_row : Text → Option ℕ → ApiKey
key_row key revoked = record {
  id = key;
  env_id = bytes "e";
  key_hash = test_hash key;
  revoked_at = revoked;
  expires_at = some 50;
}

abbrev shop : Environment
shop = record { id = bytes "e"; slug = bytes "prod" }

abbrev store_b : Store
store_b = record {
  keys = key_row (bytes "old") (some 3) ∷ key_row (bytes "k") none ∷ [];
  environments = shop ∷ [];
  keys_fail = false;
  environments_fail = false;
  rows = λ env. some rows_b;
}

abbrev host_b : Host
host_b = record { cache = new_cache; last_used = [] }

abbrev bea : EvalContext ℕ
bea = record { key = bytes "bea"; attributes = [] }

abbrev asked_keys : List Text
asked_keys = bytes "b" ∷ bytes "zz" ∷ bytes "b" ∷ []

abbrev host_after : Host
host_after = record {
  cache = store_ruleset (bytes "e") (build_ruleset rows_b) new_cache;
  last_used = bytes "k" ∷ [];
}

abbrev bulk_b : List (Text × Option (EvalResult ℕ))
bulk_b = bulk_results test_hash 9 store_b toy_std bea (build_ruleset rows_b) asked_keys []

bulk_b-answered :
    bulk_evaluate test_hash 9 store_b toy_std (bytes "k") (some (asked_keys, bea)) host_b
    ≡ (ok bulk_b, host_after)
unfolding bulk_evaluate featuresignals_unified.Base.Text.text_eq
    featuresignals_unified.Endpoints.get_ruleset_from_api_key get_environment_by_api_key_hash
    featuresignals_unified.Endpoints.get_api_key_by_hash
    featuresignals_unified.Endpoints.get_environment featuresignals_unified.Cache.ruleset_for
    featuresignals_unified.Cache.get_ruleset featuresignals_unified.Base.Assoc.lookup
    featuresignals_unified.Cache.load_ruleset
bulk_b-answered = refl

bulk_evaluate-IsBulk_example :
    IsBulk test_hash 9 store_b toy_std (bytes "k") asked_keys bea host_b host_after bulk_b
bulk_evaluate-IsBulk_example =
    bulk_evaluate-IsBulk test_hash 9 store_b toy_std (bytes "k") asked_keys bea host_b host_after
      bulk_b bulk_b-answered

key_b-live :
    get_environment_by_api_key_hash 9 (test_hash (bytes "k")) store_b
    ≡ some (shop, key_row (bytes "k") none)
unfolding get_environment_by_api_key_hash featuresignals_unified.Endpoints.get_api_key_by_hash
    featuresignals_unified.Base.Text.text_eq featuresignals_unified.Endpoints.get_environment
key_b-live = refl

evaluate_request-Current_example :
    (r : EvalResult ℕ) × (evaluate toy_std 9 bea (build_ruleset rows_b) (bytes "b") ≡ some r)
    × ((evaluate_request test_hash 9 store_b toy_std (bytes "k") (some (bytes "b", bea)) host_b).0
        ≡ ok (some r))
evaluate_request-Current_example =
    evaluate_request-Current test_hash 9 store_b toy_std db_b (initial db_b) (bytes "k") (bytes "b")
      bea [] shop (key_row (bytes "k") none) here tt (λ m. m) refl (λ e. cc e) key_b-live
      (λ e. cc e) (λ e. cc e)

stream_b-answered : stream test_hash 9 store_b (bytes "prod") [] (bytes "k") ≡ ok (bytes "e")
unfolding stream featuresignals_unified.Base.Text.text_eq get_environment_by_api_key_hash
    featuresignals_unified.Endpoints.get_api_key_by_hash
    featuresignals_unified.Endpoints.get_environment
stream_b-answered = refl

stream-IsOwner_example : IsOwner test_hash 9 store_b (bytes "prod") [] (bytes "k") (bytes "e")
stream-IsOwner_example =
    stream-IsOwner test_hash 9 store_b (bytes "prod") [] (bytes "k") (bytes "e") stream_b-answered

stream_refused_tests :
    (stream test_hash 9 store_b (bytes "prod") (bytes "old") (bytes "k") ≡ unauthorized)
    × (stream test_hash 9 store_b (bytes "dev") (bytes "k") [] ≡ forbidden)
    × (stream test_hash 90 store_b (bytes "prod") (bytes "k") [] ≡ unauthorized)
    × (stream test_hash 9 store_b [] (bytes "k") [] ≡ bad_request)
unfolding stream featuresignals_unified.Base.Text.text_eq get_environment_by_api_key_hash
    featuresignals_unified.Endpoints.get_api_key_by_hash
    featuresignals_unified.Endpoints.get_environment
stream_refused_tests = (refl, refl, refl, refl)

client_flags_test :
    (client_flags test_hash 9 store_b toy_std (bytes "k") (bytes "dev") [] host_b)
    ≡ (forbidden, host_after)
unfolding client_flags featuresignals_unified.Endpoints.get_ruleset_from_api_key
    featuresignals_unified.Base.Text.text_eq get_environment_by_api_key_hash
    featuresignals_unified.Endpoints.get_api_key_by_hash
    featuresignals_unified.Endpoints.get_environment featuresignals_unified.Cache.ruleset_for
    featuresignals_unified.Cache.get_ruleset featuresignals_unified.Base.Assoc.lookup
    featuresignals_unified.Cache.load_ruleset
client_flags_test = refl
