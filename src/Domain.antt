-- ===== src/Domain.antt =====
-- The entities of the flag system: server/internal/domain/flag.go, segment.go, ruleset.go and
-- eval_context.go. A Go string type with named constants is a data type of those constants, with
-- `other` for every other string. A field that is left out is read by no modelled operation.
use featuresignals_unified.Base.{ℕ, Bool, List, Option}
use featuresignals_unified.Base.Int.{ℤ}
use featuresignals_unified.Base.Text.{Text}

pub data FlagType : Type 0 where
  boolean string number json ab : FlagType
  other : Text → FlagType

pub data FlagCategory : Type 0 where
  release experiment ops permission : FlagCategory
  other : Text → FlagCategory

pub data FlagStatus : Type 0 where
  active rolled_out deprecated archived : FlagStatus
  other : Text → FlagStatus

pub data Operator : Type 0 where
  equals not_equals contains starts_with ends_with is_in not_in gt gte lt lte regex exists :
      Operator
  other : Text → Operator

-- `unset` is the empty string.
pub data MatchType : Type 0 where
  match_all match_any unset : MatchType
  other : Text → MatchType

pub record Variant : Type 0 where
  pub key : Text
  pub value : Option Text
  pub weight : ℤ

-- `expires_at` and the other times are nanoseconds; 0 is Go's zero time. A `json.RawMessage` is
-- `none` when nil.
pub record Flag : Type 0 where
  pub id : Text
  pub key : Text
  pub name : Text
  pub description : Text
  pub flag_type : FlagType
  pub category : FlagCategory
  pub status : FlagStatus
  pub default_value : Option Text
  pub expires_at : Option ℕ
  pub prerequisites : List Text
  pub mutual_exclusion_group : Text

pub record Condition : Type 0 where
  pub attribute : Text
  pub operator : Operator
  pub values : List Text

pub record TargetingRule : Type 0 where
  pub id : Text
  pub priority : ℤ
  pub conditions : List Condition
  pub segment_keys : List Text
  pub percentage : ℤ
  pub value : Option Text
  pub match_type : MatchType

pub record FlagState : Type 0 where
  pub id : Text
  pub flag_id : Text
  pub env_id : Text
  pub enabled : Bool
  pub default_value : Option Text
  pub rules : List TargetingRule
  pub percentage_rollout : ℤ
  pub variants : List Variant
  pub scheduled_enable_at : Option ℕ
  pub scheduled_disable_at : Option ℕ

pub record Segment : Type 0 where
  pub key : Text
  pub name : Text
  pub match_type : MatchType
  pub rules : List Condition

pub record Ruleset : Type 0 where
  pub flags : List (Text × Flag)
  pub states : List (Text × FlagState)
  pub segments : List (Text × Segment)

pub data Reason : Type 0 where
  default disabled targeted rollout fallthrough not_found error prerequisite_failed : Reason
  mutually_excluded variant : Reason

-- A value of `interface{}` that `json.Unmarshal` makes; the numbers are `float64`.
mutual
  pub data Json (Float : Type 0) : Type 0 where
    null : Json Float
    bool : Bool → Json Float
    num : Float → Json Float
    str : Text → Json Float
    arr : Items Float → Json Float
    obj : Fields Float → Json Float

  pub data Items (Float : Type 0) : Type 0 where
    nil : Items Float
    cons : Json Float → Items Float → Items Float

  pub data Fields (Float : Type 0) : Type 0 where
    end : Fields Float
    field : Text → Json Float → Fields Float → Fields Float

pub record EvalContext (Float : Type 0) : Type 0 where
  pub key : Text
  pub attributes : List (Text × Json Float)

pub record EvalResult (Float : Type 0) : Type 0 where
  pub flag_key : Text
  pub value : Json Float
  pub reason : Reason
  pub variant_key : Text
