-- ===== src/Eval/Std.antt =====
-- What the engine takes from Go's floats, fmt, encoding/json, regexp and sort. The engine is
-- generic in these: a theorem that needs a documented law of one of them names it.
use featuresignals_unified.Base.{Bool, Option, List, [], ◌∷◌}
use featuresignals_unified.Base.Int.{◌≤ℤ◌}
use featuresignals_unified.Base.Preds.{In, All}
use featuresignals_unified.Base.Text.{Text}
use featuresignals_unified.Domain.{Json, TargetingRule}

pub record Std : Type 1 where
  pub Float : Type 0
  -- `a < b` and `a <= b` on float64
  pub float_lt : Float → Float → Bool
  pub float_le : Float → Float → Bool
  -- strconv.ParseFloat(s, 64), `none` on an error
  pub parse_float : Text → Option Float
  -- regexp.Compile, `none` on an error, and MatchString of the result
  pub compile : Text → Option (Text → Bool)
  -- fmt.Sprintf("%v", v)
  pub sprint : Json Float → Text
  -- json.Unmarshal into an interface{}, `none` on an error
  pub unmarshal : Text → Option (Json Float)
  -- json.Valid
  pub json_valid : Text → Bool
  -- sort.Slice by rising priority: an order of its own choice on equal ones
  pub sort_rules : List TargetingRule → List TargetingRule

abbrev pub IsSorted : List TargetingRule → Type 0
IsSorted [] = Unit
IsSorted (r ∷ rs) = All (λ s. r.priority ≤ℤ s.priority) rs × IsSorted rs

-- What sort.Slice documents: the same elements, in order.
pub record SortLaws (std : Std) : Type 0 where
  pub sorted : (rs : List TargetingRule) → IsSorted (std.sort_rules rs)
  pub sound : (r : TargetingRule) (rs : List TargetingRule) → In r (std.sort_rules rs) → In r rs
  pub complete : (r : TargetingRule) (rs : List TargetingRule) → In r rs → In r (std.sort_rules rs)
