-- ===== src/Eval/Engine.antt =====
-- The evaluation of a flag: server/internal/eval/engine.go. Time is a parameter, and so is what the
-- engine takes from Go's libraries. The recursion over prerequisites takes fuel.
pub mod Termination
pub mod Mutex
pub mod Serving
pub mod Variants
pub mod Gates
pub mod Rollout
pub mod Sample
mod Tests
use featuresignals_unified.Base.{
  ℕ, zero, suc, Bool, true, false, not, ◌&&◌, ◌||◌, Option, none, some, List, [], ◌∷◌, ltb, ◌==◌,
  length, if◌then◌else◌,
}
use featuresignals_unified.Base.Int.{ℤ, pos, ◌+ℤ◌, ltb_ℤ, leb_ℤ}
use featuresignals_unified.Base.Text.{Text, text_eq, text_lt}
use featuresignals_unified.Base.Assoc.{lookup}
use featuresignals_unified.Domain.{
  Flag, FlagType, ab, FlagState, Segment, TargetingRule, Variant, MatchType, match_all, unset,
  Ruleset, Json, null, bool, EvalContext, EvalResult, Reason, disabled, targeted, rollout,
  fallthrough, not_found, prerequisite_failed, mutually_excluded, variant,
}
use featuresignals_unified.Eval.Hash.{bucket_user}
use featuresignals_unified.Eval.Std.{Std}
use featuresignals_unified.Eval.Rules.{match_conditions}

pub member : Text → List Text → Bool
member k [] = false
member k (v ∷ vs) = text_eq v k || member k vs

abbrev pub is_nil {ℓ} : {A : Type ℓ} → List A → Bool
is_nil [] = true
is_nil (_ ∷ _) = false

abbrev is_ab : FlagType → Bool
is_ab ab = true
is_ab _ = false

-- `matchType == ""` means all
abbrev pub or_all : MatchType → MatchType
or_all unset = match_all
or_all mt = mt

-- `flag.ExpiresAt != nil && !flag.ExpiresAt.IsZero() && flag.ExpiresAt.Before(now)`
abbrev pub is_expired : ℕ → Option ℕ → Bool
is_expired now none = false
is_expired now (some t) = not (t == 0) && ltb t now

abbrev is_enabled : Option FlagState → Bool
is_enabled none = false
is_enabled (some s) = s.enabled

-- One entry in the loop of winsMutexGroup; the state of the loop is the winner so far.
mutex_step : Text → Text → Text → List (Text × FlagState) → Text × Flag → Text × ℕ → Text × ℕ
mutex_step flag_key group user states (key, f) (winner, lowest) =
    let bucket = bucket_user key user in
    if text_eq key flag_key || not (text_eq f.mutual_exclusion_group group)
    then (winner, lowest)
    else (if not (is_enabled (lookup key states))
        then (winner, lowest)
        else (if ltb bucket lowest || (bucket == lowest && text_lt key winner)
            then (key, bucket)
            else (winner, lowest)))

mutex_loop : Text → Text → Text → List (Text × FlagState) → List (Text × Flag) → Text × ℕ → Text × ℕ
unfolding mutex_step
mutex_loop flag_key group user states [] best = best
mutex_loop flag_key group user states (e ∷ es) best =
    mutex_loop flag_key group user states es (mutex_step flag_key group user states e best)

unfoldable pub wins_mutex_group : Text → Text → Text → Ruleset → Bool
unfolding mutex_loop
wins_mutex_group flag_key group user rs =
    text_eq
      (mutex_loop flag_key group user rs.states rs.flags (flag_key, bucket_user flag_key user)).0
      flag_key

-- The loop of evaluateVariant: the first variant whose cumulative weight exceeds the bucket.
pick_variant : ℕ → ℤ → List Variant → Option Variant
pick_variant bucket cumulative [] = none
pick_variant bucket cumulative (v ∷ vs) =
    let total = cumulative +ℤ v.weight in
    let rest = pick_variant bucket total vs in if ltb_ℤ (pos bucket) total then some v else rest

-- `variants[len(variants)-1]`; the call is made on lists that are not empty
last_variant : Variant → List Variant → Variant
last_variant v [] = v
last_variant v (w ∷ ws) = last_variant w ws

abbrev pub or_else {ℓ} : {A : Type ℓ} → Option A → A → A
or_else none d = d
or_else (some a) d = a

pub choose_variant : ℕ → Variant → List Variant → Variant
unfolding pick_variant last_variant
choose_variant bucket v vs = or_else (pick_variant bucket (pos 0) (v ∷ vs)) (last_variant v vs)

module _ (std : Std) where
  open std use {Float, unmarshal, sort_rules}

  pub parse_json_value : Option Text → Json Float
  parse_json_value none = null
  parse_json_value (some raw) = or_else (unmarshal raw) null

  abbrev pub result : Text → Option Text → Reason → EvalResult Float
  result key raw reason = record {
    flag_key = key;
    value = parse_json_value raw;
    reason = reason;
    variant_key = [];
  }

  segment_matches : List (Text × Segment) → EvalContext Float → List Text → Bool
  segment_matches segments ctx [] = false
  segment_matches segments ctx (k ∷ ks) =
      let rest = segment_matches segments ctx ks in
      elim (lookup k segments) [
        | none ↦ rest
        | some seg ↦ if match_conditions std seg.rules ctx seg.match_type then true else rest
      ]

  unfoldable pub match_rule : TargetingRule → EvalContext Float → Ruleset → Bool
  unfolding segment_matches
  match_rule rule ctx rs =
      if not (is_nil rule.segment_keys) && not (segment_matches rs.segments ctx rule.segment_keys)
      then false
      else (if not (is_nil rule.conditions)
            && not (match_conditions std rule.conditions ctx (or_all rule.match_type))
          then false
          else true)

  -- One round of the loop over the rules: the reason for which the rule is served.
  unfoldable pub serve_rule : Text → EvalContext Float → Ruleset → TargetingRule → Option Reason
  serve_rule key ctx rs rule =
      if match_rule rule ctx rs
      then (if leb_ℤ (pos 10000) rule.percentage
          then some targeted
          else (if ltb_ℤ (pos 0) rule.percentage
                && ltb_ℤ (pos (bucket_user key ctx.key)) rule.percentage
              then some rollout
              else none))
      else none

  serve_or :
      Text → TargetingRule → Option (EvalResult Float) → Option Reason → Option (EvalResult Float)
  serve_or key rule rest none = rest
  serve_or key rule rest (some reason) = some (result key rule.value reason)

  -- The loop over the sorted rules.
  walk_rules : Text → EvalContext Float → Ruleset → List TargetingRule → Option (EvalResult Float)
  unfolding serve_or
  walk_rules key ctx rs [] = none
  walk_rules key ctx rs (rule ∷ rules) =
      serve_or key rule (walk_rules key ctx rs rules) (serve_rule key ctx rs rule)

  evaluate_variant : Text → EvalContext Float → Variant → List Variant → EvalResult Float
  evaluate_variant key ctx v vs =
      let chosen = choose_variant (bucket_user key ctx.key) v vs in
      record {
        flag_key = key;
        value = parse_json_value chosen.value;
        reason = variant;
        variant_key = chosen.key;
      }

  -- `defaultVal := state.DefaultValue; if nil, flag.DefaultValue`
  abbrev pub on_value : Flag → FlagState → Option Text
  on_value flag state = elim (state.default_value) [ none ↦ flag.default_value | some v ↦ some v ]

  -- After the rules and the default rollout.
  serve_variants : Text → EvalContext Float → Flag → FlagState → List Variant → EvalResult Float
  serve_variants key ctx flag state [] = result key (on_value flag state) fallthrough
  serve_variants key ctx flag state (v ∷ vs) =
      if is_ab flag.flag_type
      then evaluate_variant key ctx v vs
      else result key (on_value flag state) fallthrough

  pub serve_default : Text → EvalContext Float → Flag → FlagState → EvalResult Float
  serve_default key ctx flag state =
      if ltb_ℤ (pos 0) state.percentage_rollout
      then (if ltb_ℤ (pos (bucket_user key ctx.key)) state.percentage_rollout
          then result key (on_value flag state) rollout
          else result key flag.default_value fallthrough)
      else serve_variants key ctx flag state state.variants

  -- From the copy of the rules to the end of `evaluate`.
  unfoldable pub serve : Text → EvalContext Float → Ruleset → Flag → FlagState → EvalResult Float
  unfolding walk_rules serve_default serve_rule serve_variants evaluate_variant choose_variant
  serve key ctx rs flag state =
      or_else (walk_rules key ctx rs (sort_rules state.rules)) (serve_default key ctx flag state)

  -- The tests on the result of a prerequisite.
  abbrev pub blocks : Reason → Json Float → Bool
  blocks not_found v = true
  blocks disabled v = true
  blocks _ (bool b) = not b
  blocks _ v = false

  abbrev pub Outcome : Type 0
  Outcome = Option (EvalResult Float × List Text)

  abbrev pub outcome_result : Outcome → Option (EvalResult Float)
  outcome_result none = none
  outcome_result (some (r, _)) = some r

  -- The tests on the result of a prerequisite, `false` being the early return; `next` is the rest
  -- of the loop.
  continue_check : (List Text → Option (Bool × List Text)) → Outcome → Option (Bool × List Text)
  continue_check next none = none
  continue_check next (some (r, visited)) =
      if blocks r.reason r.value then some (false, visited) else next visited

  -- The loop over the prerequisites. `visited` is one map that all calls share, so it is passed
  -- through. `rec` is the recursive call.
  check_prerequisites :
      (Text → List Text → Outcome) → List Text → List Text → Option (Bool × List Text)
  unfolding continue_check
  check_prerequisites rec [] visited = some (true, visited)
  check_prerequisites rec (p ∷ ps) visited =
      if member p visited
      then some (false, visited)
      else continue_check (check_prerequisites rec ps) (rec p visited)

  module _ (now : ℕ) (ctx : EvalContext Float) (rs : Ruleset) where
    after_check : Text → Flag → FlagState → Option (Bool × List Text) → Outcome
    after_check key flag state none = none
    after_check key flag state (some (ok, visited)) = some (
      if ok then serve key ctx rs flag state else result key flag.default_value prerequisite_failed,
      visited,
    )

    -- The part of `evaluate` after the test of the exclusion group.
    evaluate_enabled : (Text → List Text → Outcome) → Text → List Text → Flag → FlagState → Outcome
    unfolding after_check
    evaluate_enabled rec key visited flag state =
        if is_nil flag.prerequisites
        then some (serve key ctx rs flag state, visited)
        else after_check key flag state (check_prerequisites rec flag.prerequisites (key ∷ visited))

    -- `evaluate` once the flag and its state are looked up.
    evaluate_found :
        (Text → List Text → Option (EvalResult Float × List Text))
        → Text
        → List Text
        → Flag
        → Option FlagState
        → Option (EvalResult Float × List Text)
    evaluate_found rec key visited flag none =
        some (result key flag.default_value disabled, visited)
    evaluate_found rec key visited flag (some state) =
        if is_expired now flag.expires_at || not state.enabled
        then some (result key flag.default_value disabled, visited)
        else (if not (is_nil flag.mutual_exclusion_group)
              && not (wins_mutex_group key flag.mutual_exclusion_group ctx.key rs)
            then some (result key flag.default_value mutually_excluded, visited)
            else evaluate_enabled rec key visited flag state)

    -- `flag, ok := ruleset.Flags[flagKey]` is looked up.
    evaluate_looked_up : (Text → List Text → Outcome) → Text → List Text → Option Flag → Outcome
    unfolding evaluate_found evaluate_enabled check_prerequisites
    evaluate_looked_up rec key visited none = some (result key none not_found, visited)
    evaluate_looked_up rec key visited (some flag) =
        evaluate_found rec key visited flag (lookup key rs.states)

    -- The internal recursive evaluator; `none` means that the fuel ran out.
    pub eval_fuel : ℕ → Text → List Text → Outcome
    unfolding evaluate_looked_up
    eval_fuel zero key visited = none
    eval_fuel (suc n) key visited =
        evaluate_looked_up (eval_fuel n) key visited (lookup key rs.flags)

    -- Evaluate. A flag more than there are in the ruleset is fuel enough.
    pub evaluate : Text → Option (EvalResult Float)
    unfolding eval_fuel
    evaluate key = outcome_result (eval_fuel (suc (length rs.flags)) key [])

    -- The loop of EvaluateAll over the map's entries.
    evaluate_entries : List (Text × Flag) → List (Text × Option (EvalResult Float))
    evaluate_entries [] = []
    evaluate_entries ((key, _) ∷ fs) = (key, evaluate key) ∷ evaluate_entries fs

    pub evaluate_all : List (Text × Option (EvalResult Float))
    unfolding evaluate_entries
    evaluate_all = evaluate_entries rs.flags
