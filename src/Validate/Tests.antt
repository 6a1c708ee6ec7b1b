-- ===== src/Validate/Tests.antt =====
-- Validated entities and their theorems at concrete inputs.
use featuresignals_unified.Base.{ℕ, ◌≡◌, ◌↔◌, ◌≤◌, ◌<◌, refl, true, none, some, [], ◌∷◌}
use featuresignals_unified.Base.Int.{pos, ◌+ℤ◌}
use featuresignals_unified.Base.Text.{Text, bytes, text_eq}
use featuresignals_unified.Domain.{Flag, FlagState, Variant, boolean, release, active}
use featuresignals_unified.Eval.Hash.{bucket_user}
use featuresignals_unified.Eval.Engine.{choose_variant}
use featuresignals_unified.Eval.Engine.Variants.{PickedAt}
use featuresignals_unified.Eval.Engine.Sample.{toy_std, toy_unmarshal}
use featuresignals_unified.Validate.{validate_flag, validate_state, itoa}
use featuresignals_unified.Validate.Laws.{FlagOk, validate_flag_iff}
use featuresignals_unified.Validate.States.{
  StateOk, validate_state_iff, validate_state-share, read_decimal, itoa_index,
}

abbrev dark_mode : Flag
dark_mode = record {
  id = [];
  key = bytes "dark-mode";
  name = bytes "Dark mode";
  description = [];
  flag_type = boolean;
  category = release;
  status = active;
  default_value = some (bytes "false");
  expires_at = none;
  prerequisites = [];
  mutual_exclusion_group = [];
}

dark_mode_valid : validate_flag toy_std dark_mode ≡ none
unfolding validate_flag toy_unmarshal text_eq
dark_mode_valid = refl

validate_flag_iff_example : (validate_flag toy_std dark_mode ≡ none) ↔ FlagOk toy_std dark_mode
validate_flag_iff_example = validate_flag_iff toy_std dark_mode

abbrev arm : Text → ℕ → Variant
arm key weight = record { key = key; value = none; weight = pos weight }

abbrev split_state : FlagState
split_state = record {
  id = [];
  flag_id = bytes "f";
  env_id = bytes "prod";
  enabled = true;
  default_value = none;
  rules = [];
  percentage_rollout = pos 0;
  variants = arm (bytes "left") 4000 ∷ arm (bytes "right") 6000 ∷ [];
  scheduled_enable_at = none;
  scheduled_disable_at = none;
}

split_state_valid : validate_state split_state ≡ none
unfolding validate_state ◌+ℤ◌
split_state_valid = refl

validate_state_iff_test : (validate_state split_state ≡ none) ↔ StateOk split_state
validate_state_iff_test = validate_state_iff split_state

validate_state-share_test :
    PickedAt
      (bucket_user (bytes "f") (bytes "ann"))
      (pos 0)
      (arm (bytes "left") 4000 ∷ arm (bytes "right") 6000 ∷ [])
      (choose_variant
        (bucket_user (bytes "f") (bytes "ann"))
        (arm (bytes "left") 4000)
        (arm (bytes "right") 6000 ∷ []))
validate_state-share_test =
    validate_state-share split_state (arm (bytes "left") 4000) (arm (bytes "right") 6000 ∷ [])
      (bytes "f") (bytes "ann") split_state_valid refl

itoa_index_test :
    (42 < 100 → read_decimal 0 (itoa 42) ≡ some 42)
    × (100 ≤ 42 → 42 < 800 → read_decimal 0 (itoa 42) ≡ none)
itoa_index_test = itoa_index 42

-- The error of the rule at position 100 is said to be at `rules[:0]`.
itoa_hundred : itoa 100 ≡ bytes ":0"
unfolding itoa
itoa_hundred = refl
