-- ===== src/Eval/Engine/Tests.antt =====
-- The engine on a small ruleset, over an instance of what it takes from Go's libraries.
use featuresignals_unified.Base.{
  ℕ, suc, ◌≡◌, ◌≢◌, ◌↔◌, refl, ◌⊎◌, inl, inr, true, false, none, some, List, [], ◌∷◌, arith,
}
use featuresignals_unified.Base.Int.{ℤ, pos, negsuc, ◌≤ℤ◌, ◌+ℤ◌}
use featuresignals_unified.Base.Text.{Text, bytes, text_eq}
use featuresignals_unified.Base.Assoc.{lookup}
use featuresignals_unified.Domain.{
  Flag, FlagState, TargetingRule, Ruleset, EvalContext, EvalResult, null, bool, str, boolean,
  Variant, Condition, match_all, match_any, release, active, is_in, targeted, rollout, fallthrough,
  not_found, prerequisite_failed,
}
use featuresignals_unified.Eval.Hash.{bucket_user}
use featuresignals_unified.Eval.Rules.{match_condition, match_conditions}
use featuresignals_unified.Eval.Engine.Sample.{
  insertion_sort, toy_sprint, toy_unmarshal, toy_std, toy_laws,
}
use featuresignals_unified.Eval.Rules.Laws.{AllHold, AnyHolds, match_conditions_iff}
use featuresignals_unified.Eval.Engine.Termination.{evaluate_total}
use featuresignals_unified.Eval.Engine.Mutex.{IsRival, Winner, wins_mutex_group_unique}
use featuresignals_unified.Eval.Engine.Serving.{ServedByRules, serve-by_priority}
use featuresignals_unified.Eval.Engine.Rollout.{serve-rollout_mono, serve_default-rollout_iff}
use featuresignals_unified.Eval.Engine.Variants.{total_weight, PickedAt, choose_variant-share}
use featuresignals_unified.Eval.Engine.Gates.{Verdict, recursive_call, evaluate_gates}
use featuresignals_unified.Eval.Engine.{
  evaluate, result, parse_json_value, member, match_rule, wins_mutex_group, choose_variant, serve,
  serve_default,
}

abbrev plain_flag : Text → List Text → Text → Flag
plain_flag key prerequisites group = record {
  id = key;
  key = key;
  name = key;
  description = [];
  flag_type = boolean;
  category = release;
  status = active;
  default_value = some (bytes "false");
  expires_at = none;
  prerequisites = prerequisites;
  mutual_exclusion_group = group;
}

abbrev plain_state : Text → List TargetingRule → ℤ → FlagState
plain_state key rules percent = record {
  id = key;
  flag_id = key;
  env_id = bytes "prod";
  enabled = true;
  default_value = some (bytes "true");
  rules = rules;
  percentage_rollout = percent;
  variants = [];
  scheduled_enable_at = none;
  scheduled_disable_at = none;
}

abbrev ann : EvalContext ℕ
ann = record { key = bytes "ann"; attributes = (bytes "plan", str (bytes "pro")) ∷ [] }

abbrev is_pro : Condition
is_pro = record { attribute = bytes "plan"; operator = is_in; values = bytes "pro" ∷ [] }

abbrev pro_rule : ℤ → Text → TargetingRule
pro_rule priority value = record {
  id = bytes "r";
  priority = priority;
  conditions = is_pro ∷ [];
  segment_keys = [];
  percentage = pos 10000;
  value = some value;
  match_type = match_all;
}

-- `a` needs `b` and `c`, which both need `d`, which needs `e`; `x` and `y` need each other; `t` has
-- two rules in the wrong order.
abbrev small : Ruleset
small = record {
  flags =
      (bytes "a", plain_flag (bytes "a") (bytes "b" ∷ bytes "c" ∷ []) [])
      ∷ (bytes "b", plain_flag (bytes "b") (bytes "d" ∷ []) [])
      ∷ (bytes "c", plain_flag (bytes "c") (bytes "d" ∷ []) [])
      ∷ (bytes "d", plain_flag (bytes "d") (bytes "e" ∷ []) [])
      ∷ (bytes "e", plain_flag (bytes "e") [] [])
      ∷ (bytes "x", plain_flag (bytes "x") (bytes "y" ∷ []) [])
      ∷ (bytes "y", plain_flag (bytes "y") (bytes "x" ∷ []) [])
      ∷ (bytes "t", plain_flag (bytes "t") [] [])
      ∷ (bytes "m", plain_flag (bytes "m") [] (bytes "g"))
      ∷ (bytes "n", plain_flag (bytes "n") [] (bytes "g"))
      ∷ [];
  states =
      (bytes "a", plain_state (bytes "a") [] (pos 0))
      ∷ (bytes "b", plain_state (bytes "b") [] (pos 0))
      ∷ (bytes "c", plain_state (bytes "c") [] (pos 0))
      ∷ (bytes "d", plain_state (bytes "d") [] (pos 0))
      ∷ (bytes "e", plain_state (bytes "e") [] (pos 0))
      ∷ (bytes "x", plain_state (bytes "x") [] (pos 0))
      ∷ (bytes "y", plain_state (bytes "y") [] (pos 0))
      ∷ (
        bytes "t",
        plain_state (bytes "t")
            (pro_rule (pos 5) (bytes "late") ∷ pro_rule (negsuc 0) (bytes "early") ∷ []) (pos 0),
      )
      ∷ (bytes "m", plain_state (bytes "m") [] (pos 5000))
      ∷ (bytes "n", plain_state (bytes "n") [] (pos 5000))
      ∷ [];
  segments = [];
}

engine : Unit {0}
unfolding evaluate insertion_sort toy_sprint toy_unmarshal lookup text_eq parse_json_value member
    serve match_rule match_conditions match_condition bucket_user wins_mutex_group
engine = tt

-- The values and reasons of a few evaluations. `a` is refused although every flag below it is on:
-- `d` was visited for `b`, so `c` takes it for a cycle.
evaluate_tests :
    (evaluate toy_std 9 ann small (bytes "zz")
      ≡ some (record { flag_key = bytes "zz"; value = null; reason = not_found; variant_key = [] }))
    × (evaluate toy_std 9 ann small (bytes "b")
        ≡ some (record {
          flag_key = bytes "b";
          value = bool true;
          reason = fallthrough;
          variant_key = [];
        }))
    × (evaluate toy_std 9 ann small (bytes "c")
        ≡ some (record {
          flag_key = bytes "c";
          value = bool true;
          reason = fallthrough;
          variant_key = [];
        }))
    × (evaluate toy_std 9 ann small (bytes "a")
        ≡ some (record {
          flag_key = bytes "a";
          value = bool false;
          reason = prerequisite_failed;
          variant_key = [];
        }))
    × (evaluate toy_std 9 ann small (bytes "x")
        ≡ some (record {
          flag_key = bytes "x";
          value = bool false;
          reason = prerequisite_failed;
          variant_key = [];
        }))
    × (evaluate toy_std 9 ann small (bytes "t")
        ≡ some (record {
          flag_key = bytes "t";
          value = str (bytes "early");
          reason = targeted;
          variant_key = [];
        }))
unfolding engine
evaluate_tests = (refl, refl, refl, refl, refl, refl)

evaluate_total_example : (r : EvalResult ℕ) × (evaluate toy_std 9 ann small (bytes "x") ≡ some r)
evaluate_total_example = evaluate_total toy_std 9 ann small (bytes "x")

abbrev flag_t : Flag
flag_t = plain_flag (bytes "t") [] []

abbrev state_t : FlagState
state_t =
    plain_state (bytes "t")
      (pro_rule (pos 5) (bytes "late") ∷ pro_rule (negsuc 0) (bytes "early") ∷ []) (pos 0)

serve-by_priority_example : ServedByRules toy_std (bytes "t") ann small flag_t state_t
serve-by_priority_example = serve-by_priority toy_std (bytes "t") ann small toy_laws flag_t state_t

evaluate_gates_example :
    Verdict toy_std 9 ann small
      (recursive_call toy_std 9 ann small)
      (bytes "b")
      (record { flag_key = bytes "b"; value = bool true; reason = fallthrough; variant_key = [] })
evaluate_gates_example =
    evaluate_gates toy_std 9 ann small (bytes "b")
      (record { flag_key = bytes "b"; value = bool true; reason = fallthrough; variant_key = [] })
      evaluate_tests.1

m-IsRival : IsRival (bytes "g") small.states (bytes "m", plain_flag (bytes "m") [] (bytes "g"))
unfolding engine
m-IsRival = record { grouped = refl; enabled = refl }

wins_mutex_group_unique_example : Winner (bytes "g") (bytes "ann") small
wins_mutex_group_unique_example =
    wins_mutex_group_unique (bytes "m") (bytes "g") (bytes "ann")
      (plain_flag (bytes "m") [] (bytes "g")) small
      (inr (inr (inr (inr (inr (inr (inr (inr (inl refl))))))))) m-IsRival

abbrev arm : Text → ℕ → Variant
arm key weight = record { key = key; value = none; weight = pos weight }

choose_variant-share_example :
    PickedAt
      (bucket_user (bytes "ab") (bytes "ann"))
      (pos 0)
      (arm (bytes "left") 4000 ∷ arm (bytes "right") 6000 ∷ [])
      (choose_variant
        (bucket_user (bytes "ab") (bytes "ann"))
        (arm (bytes "left") 4000)
        (arm (bytes "right") 6000 ∷ []))
choose_variant-share_example =
    choose_variant-share (bytes "ab") (bytes "ann") (arm (bytes "left") 4000)
      (arm (bytes "right") 6000 ∷ []) (unfold total_weight ◌+ℤ◌ in refl)

m_rolled_out :
    (serve toy_std
      (bytes "m")
      ann
      small
      (plain_flag (bytes "m") [] [])
      (plain_state (bytes "m") [] (pos 9999))).reason
    ≡ rollout
unfolding engine
m_rolled_out = refl

serve-rollout_mono_example :
    serve toy_std
      (bytes "m")
      ann
      small
      (plain_flag (bytes "m") [] [])
      (plain_state (bytes "m") [] (pos 10000))
    ≡ serve toy_std
        (bytes "m")
        ann
        small
        (plain_flag (bytes "m") [] [])
        (plain_state (bytes "m") [] (pos 9999))
serve-rollout_mono_example =
    serve-rollout_mono toy_std (bytes "m") ann small (plain_flag (bytes "m") [] [])
      (plain_state (bytes "m") [] (pos 9999)) (pos 10000) (omega arith) m_rolled_out

serve_default-rollout_iff_example :
    (((serve_default toy_std (bytes "m") ann flag_t state_t).reason ≡ rollout)
      ↔ (pos (suc (bucket_user (bytes "m") (bytes "ann"))) ≤ℤ pos 0))
    × (pos 10000 ≤ℤ pos 0
        → serve_default toy_std (bytes "m") ann flag_t state_t
          ≡ result toy_std (bytes "m") (some (bytes "true")) rollout)
    × (pos 0 ≤ℤ pos 0 → (serve_default toy_std (bytes "m") ann flag_t state_t).reason ≢ rollout)
serve_default-rollout_iff_example =
    serve_default-rollout_iff toy_std (bytes "m") ann small flag_t state_t

match_conditions_iff_example :
    ((match_conditions toy_std (is_pro ∷ []) ann match_all ≡ true)
      ↔ AllHold toy_std ann (is_pro ∷ []))
    × ((match_conditions toy_std (is_pro ∷ []) ann match_any ≡ true)
        ↔ (((is_pro ∷ []) ≡ []) ⊎ AnyHolds toy_std ann (is_pro ∷ [])))
match_conditions_iff_example = match_conditions_iff toy_std ann (is_pro ∷ [])
