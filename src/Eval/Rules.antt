-- ===== src/Eval/Rules.antt =====
-- Conditions: server/internal/eval/rules.go and GetAttribute of domain/eval_context.go. The
-- operators are those of the registry as the package sets it up.
pub mod Laws
use featuresignals_unified.Base.{
  Bool, true, false, not, ◌&&◌, ◌||◌, Option, none, some, List, [], ◌∷◌, if◌then◌else◌,
}
use featuresignals_unified.Base.Text.{
  Text, bytes, text_eq, has_prefix, has_suffix, contains as contains_text,
}
use featuresignals_unified.Base.Assoc.{lookup}
use featuresignals_unified.Domain.{
  Json, str, Condition, MatchType, match_all, match_any, Operator, equals, not_equals, contains,
  starts_with, ends_with, is_in, not_in, gt, gte, lt, lte, regex, exists, other, EvalContext,
}
use featuresignals_unified.Eval.Std.{Std}

-- `len(values) > 0 && test(values[0])`
abbrev first_holds : (Text → Bool) → List Text → Bool
first_holds test [] = false
first_holds test (v ∷ _) = test v

pub op_in : Text → List Text → Bool
op_in s [] = false
op_in s (v ∷ vs) = if text_eq s v then true else op_in s vs

pub op_not_in : Text → List Text → Bool
op_not_in s [] = true
op_not_in s (v ∷ vs) = if text_eq s v then false else op_not_in s vs

abbrev pub is_all : MatchType → Bool
is_all match_all = true
is_all _ = false

abbrev pub is_any : MatchType → Bool
is_any match_any = true
is_any _ = false

module _ (std : Std) where
  open std use {Float, float_lt, float_le, parse_float, compile, sprint}

  numeric_op : Text → List Text → (Float → Float → Bool) → Bool
  numeric_op s [] cmp = false
  numeric_op s (v ∷ _) cmp = elim (parse_float s) [
    | none ↦ false
    | some a ↦ elim (parse_float v) [ none ↦ false | some b ↦ cmp a b ]
  ]

  op_regex : Text → List Text → Bool
  op_regex s [] = false
  op_regex s (v ∷ _) = elim (compile v) [ none ↦ false | some match ↦ match s ]

  -- `fn, ok := operatorRegistry[op]`, and the call of `fn`; `exists` is not registered.
  apply_operator : Operator → Text → List Text → Bool
  unfolding op_in op_not_in numeric_op op_regex
  apply_operator equals s vs = first_holds (λ v. text_eq s v) vs
  apply_operator not_equals s vs = first_holds (λ v. not (text_eq s v)) vs
  apply_operator contains s vs = first_holds (λ v. contains_text s v) vs
  apply_operator starts_with s vs = first_holds (λ v. has_prefix s v) vs
  apply_operator ends_with s vs = first_holds (λ v. has_suffix s v) vs
  apply_operator is_in s vs = op_in s vs
  apply_operator not_in s vs = op_not_in s vs
  apply_operator gt s vs = numeric_op s vs (λ a b. float_lt b a)
  apply_operator gte s vs = numeric_op s vs (λ a b. float_le b a)
  apply_operator lt s vs = numeric_op s vs float_lt
  apply_operator lte s vs = numeric_op s vs float_le
  apply_operator regex s vs = op_regex s vs
  apply_operator exists s vs = false
  apply_operator (other _) s vs = false

  get_attribute : EvalContext Float → Text → Option (Json Float)
  get_attribute ctx name =
      if text_eq name (bytes "key") then some (str ctx.key) else lookup name ctx.attributes

  -- The attribute is missing, and the operator is given its values.
  match_missing : Operator → List Text → Bool
  match_missing exists vs = first_holds (λ v. text_eq v (bytes "false")) vs
  match_missing _ vs = false

  match_present : Operator → Json Float → List Text → Bool
  unfolding apply_operator
  match_present exists v [] = true
  match_present exists v (w ∷ _) = not (text_eq w (bytes "false"))
  match_present op v vs = apply_operator op (sprint v) vs

  unfoldable pub match_condition : Condition → EvalContext Float → Bool
  unfolding get_attribute match_missing match_present
  match_condition c ctx = elim (get_attribute ctx c.attribute) [
    | none ↦ match_missing c.operator c.values
    | some v ↦ match_present c.operator v c.values
  ]

  -- The loop of MatchConditions and the test after it.
  match_loop : List Condition → EvalContext Float → MatchType → Bool
  match_loop [] ctx mt = is_all mt
  match_loop (c ∷ cs) ctx mt =
      let matched = match_condition c ctx in
      if is_any mt && matched
      then true
      else (if is_all mt && not matched then false else match_loop cs ctx mt)

  unfoldable pub match_conditions : List Condition → EvalContext Float → MatchType → Bool
  unfolding match_loop
  match_conditions [] ctx mt = true
  match_conditions (c ∷ cs) ctx mt = match_loop (c ∷ cs) ctx mt
