-- ===== src/Validate.antt =====
-- Validation of flags, states and segments: server/internal/domain/validate.go, with the error of
-- domain/errors.go. A returned error is `some`, a nil error `none`.
pub mod Laws
pub mod States
mod Tests
use featuresignals_unified.Base.{
  ℕ, suc, ◌+◌, ◌*◌, ◌/◌, ◌%◌, Bool, true, false, not, ◌&&◌, ◌||◌, Option, none, some, List, [], ◌∷◌,
  ◌++◌, ltb, leb, ◌==◌, length, if◌then◌else◌,
}
use Prim.Native.String.{String}
use featuresignals_unified.Base.Int.{ℤ, pos, ◌+ℤ◌, ltb_ℤ}
use featuresignals_unified.Base.Text.{Text, bytes}
use featuresignals_unified.Domain.{
  Flag, FlagType, boolean, string, number, json, ab, FlagCategory, FlagStatus, FlagState, Variant,
  Segment, Condition, Operator, MatchType, Json, bool, str, num, arr, obj,
}
use featuresignals_unified.Eval.Std.{Std}
use featuresignals_unified.Eval.Engine.{is_nil}

pub record ValidationError : Type 0 where
  pub field : Text
  pub message : Text

infixl 5 ◌>>◌
-- `if err := m; err != nil { return err }`, then the rest
abbrev pub ◌>>◌ : Option ValidationError → Option ValidationError → Option ValidationError
none >> k = k
some e >> k = some e

-- `if test { return NewValidationError(field, message) }`
abbrev pub fail_if : Bool → String → String → Option ValidationError
fail_if true field message = some (record { field = bytes field; message = bytes message })
fail_if false field message = none

abbrev pub key_start : ℕ → Bool
key_start c = leb b'a' c && leb c b'z' || leb b'0' c && leb c b'9'

abbrev pub key_char : ℕ → Bool
key_char c = key_start c || c == b'_' || c == b'-'

pub all_chars : (ℕ → Bool) → Text → Bool
all_chars p [] = true
all_chars p (c ∷ s) = p c && all_chars p s

-- FlagKeyRe, `^[a-z0-9][a-z0-9_-]{0,127}$`
pub match_flag_key : Text → Bool
unfolding all_chars
match_flag_key [] = false
match_flag_key (c ∷ s) = key_start c && all_chars key_char s && leb (length s) 127

-- A string that is neither empty nor one of the named constants: `v != "" && !v.IsValid()`.
abbrev pub bad_type : FlagType → Bool
bad_type (FlagType.other t) = not (is_nil t)
bad_type _ = false

abbrev pub bad_category : FlagCategory → Bool
bad_category (FlagCategory.other t) = not (is_nil t)
bad_category _ = false

abbrev pub bad_status : FlagStatus → Bool
bad_status (FlagStatus.other t) = not (is_nil t)
bad_status _ = false

abbrev pub bad_match_type : MatchType → Bool
bad_match_type (MatchType.other t) = not (is_nil t)
bad_match_type _ = false

-- `!op.IsValid()`; an empty operator is invalid
abbrev pub bad_operator : Operator → Bool
bad_operator (Operator.other t) = true
bad_operator _ = false

abbrev pub operator_text : Operator → Text
operator_text (Operator.other t) = t
operator_text _ = []

abbrev pub empty_type : FlagType → Bool
empty_type (FlagType.other t) = is_nil t
empty_type _ = false

-- `string(rune(r))`: the UTF-8 bytes of a code point
rune_text : ℕ → Text
rune_text r =
    if ltb r 128
    then r ∷ []
    else (if ltb r 2048
        then (192 + r / 64) ∷ (128 + r % 64) ∷ []
        else (if leb 55296 r && ltb r 57344 || leb 1114112 r
            then 239 ∷ 191 ∷ 189 ∷ []
            else (if ltb r 65536
                then (224 + r / 4096) ∷ (128 + r / 64 % 64) ∷ (128 + r % 64) ∷ []
                else (240 + r / 262144)
                  ∷ (128 + r / 4096 % 64)
                  ∷ (128 + r / 64 % 64)
                  ∷ (128 + r % 64)
                  ∷ [])))

pub itoa : ℕ → Text
unfolding rune_text
itoa i =
    if ltb i 10
    then rune_text (b'0' + i)
    else rune_text (b'0' + i / 10) ++ rune_text (b'0' + i % 10)

pub validate_condition : Condition → Option ValidationError
validate_condition c =
    fail_if (is_nil c.attribute) "attribute" "is required"
    >> (if bad_operator c.operator
        then some (record {
          field = bytes "operator";
          message = bytes "unrecognized operator: " ++ operator_text c.operator;
        })
        else none)

-- `NewValidationError("rules["+itoa(i)+"]."+ve.Field, ve.Message)`
at_rule : ℕ → ValidationError → ValidationError
unfolding itoa
at_rule i e = record {
  field = bytes "rules[" ++ itoa i ++ bytes "]." ++ e.field;
  message = e.message;
}

-- The error of rule `i`, or what the rest of the loop returns.
rule_error : ℕ → Option ValidationError → Option ValidationError → Option ValidationError
unfolding at_rule
rule_error i none rest = rest
rule_error i (some e) rest = some (at_rule i e)

validate_rules : ℕ → List Condition → Option ValidationError
unfolding validate_condition rule_error
validate_rules i [] = none
validate_rules i (c ∷ cs) = rule_error i (validate_condition c) (validate_rules (suc i) cs)

pub validate_segment : Segment → Option ValidationError
unfolding match_flag_key validate_rules
validate_segment s = do
  fail_if (is_nil s.key) "key" "is required"
  fail_if (not (match_flag_key s.key)) "key"
      "must match pattern: lowercase alphanumeric, hyphens, underscores (max 128 chars)"
  fail_if (is_nil s.name) "name" "is required"
  fail_if (ltb 255 (length s.name)) "name" "must be at most 255 characters"
  fail_if (bad_match_type s.match_type) "match_type" "must be 'all' or 'any'"
  validate_rules 0 s.rules

pub validate_variant : Variant → Option ValidationError
validate_variant v = do
  fail_if (is_nil v.key) "variant.key" "is required"
  fail_if (ltb_ℤ v.weight (pos 0)) "variant.weight" "must be non-negative"

-- The loop over the variants, then the test of the total; `empty` is `len(fs.Variants) == 0`.
validate_variants : Bool → ℤ → List Variant → Option ValidationError
unfolding validate_variant
validate_variants empty total [] =
    fail_if (not empty && (ltb_ℤ total (pos 10000) || ltb_ℤ (pos 10000) total)) "variants"
      "weights must sum to 10000"
validate_variants empty total (v ∷ vs) =
    validate_variant v >> validate_variants empty (total +ℤ v.weight) vs

pub validate_state : FlagState → Option ValidationError
unfolding validate_variants
validate_state s = do
  fail_if (is_nil s.flag_id) "flag_id" "is required"
  fail_if (is_nil s.env_id) "env_id" "is required"
  fail_if (ltb_ℤ s.percentage_rollout (pos 0) || ltb_ℤ (pos 10000) s.percentage_rollout)
      "percentage_rollout" "must be between 0 and 10000"
  validate_variants (is_nil s.variants) (pos 0) s.variants

module _ (std : Std) where
  open std use {Float, unmarshal, json_valid}

  -- The `switch` on the type, for a value that was parsed.
  pub kind_error : FlagType → Json Float → Option ValidationError
  kind_error boolean (bool _) = none
  kind_error boolean _ = fail_if true "default_value" "must be a boolean for boolean flags"
  kind_error string (str _) = none
  kind_error string _ = fail_if true "default_value" "must be a string for string flags"
  kind_error number (num _) = none
  kind_error number _ = fail_if true "default_value" "must be a number for number flags"
  kind_error json (arr _) = none
  kind_error json (obj _) = none
  kind_error json _ = fail_if true "default_value" "must be an object or array for json flags"
  kind_error ab _ = none
  kind_error (FlagType.other _) _ = none

  parsed_error : FlagType → Option (Json Float) → Option ValidationError
  unfolding kind_error
  parsed_error ft none = fail_if true "default_value" "must be valid JSON"
  parsed_error ft (some v) = kind_error ft v

  validate_default_value_type : FlagType → Text → Option ValidationError
  unfolding parsed_error
  validate_default_value_type ft raw = parsed_error ft (unmarshal raw)

  -- The two tests on a default value that is not nil.
  validate_default_value : FlagType → Option Text → Option ValidationError
  unfolding validate_default_value_type
  validate_default_value ft none = none
  validate_default_value ft (some raw) =
      fail_if (not (json_valid raw)) "default_value" "must be valid JSON"
      >> (if empty_type ft then none else validate_default_value_type ft raw)

  pub validate_flag : Flag → Option ValidationError
  unfolding match_flag_key validate_default_value
  validate_flag f = do
    fail_if (is_nil f.key) "key" "is required"
    fail_if (not (match_flag_key f.key)) "key"
        "must match pattern: lowercase alphanumeric, hyphens, underscores (max 128 chars)"
    fail_if (is_nil f.name) "name" "is required"
    fail_if (ltb 255 (length f.name)) "name" "must be at most 255 characters"
    fail_if (ltb 2000 (length f.description)) "description" "must be at most 2000 characters"
    fail_if (bad_type f.flag_type) "flag_type" "must be boolean, string, number, json, or ab"
    fail_if (bad_category f.category) "category" "must be release, experiment, ops, or permission"
    fail_if (bad_status f.status) "status" "must be active, rolled_out, deprecated, or archived"
    validate_default_value f.flag_type f.default_value
