-- ===== src/Eval/Rules/Laws.antt =====
-- What a list of conditions means.
use featuresignals_unified.Base.{
  ◌≡◌, refl, ◌↔◌, ◌⊎◌, inl, inr, true, false, not, List, [], ◌∷◌, arith,
}
use featuresignals_unified.Base.Preds.{All, In}
use featuresignals_unified.Base.Text.{Text, text_eq_iff}
use featuresignals_unified.Domain.{Condition, match_all, match_any, unset, EvalContext}
use featuresignals_unified.Eval.Std.{Std}
use featuresignals_unified.Eval.Rules.{
  match_condition, match_loop, match_conditions, op_in, op_not_in,
}

-- The list membership operators are each other's negation, and `in` is membership.
pub op_in_iff : (s : Text) (vs : List Text) → (op_in s vs ≡ true) ↔ In s vs
unfolding op_in
op_in_iff s [] = ground arith
op_in_iff s (v ∷ vs) = ground (arith, text_eq_iff s v, op_in_iff s vs)

pub op_not_in-op_in : (s : Text) (vs : List Text) → op_not_in s vs ≡ not (op_in s vs)
unfolding op_in op_not_in
op_not_in-op_in s [] = refl
op_not_in-op_in s (v ∷ vs) = ground (arith, op_not_in-op_in s vs)

module _ (std : Std) (ctx : EvalContext std.Float) where
  -- Some condition of the list holds.
  abbrev pub AnyHolds : List Condition → Type 0
  AnyHolds [] = ⊥
  AnyHolds (c ∷ cs) = (match_condition std c ctx ≡ true) ⊎ AnyHolds cs

  abbrev pub AllHold : List Condition → Type 0
  AllHold = All (λ c. match_condition std c ctx ≡ true)

  match_loop-all : (cs : List Condition) → (match_loop std cs ctx match_all ≡ true) ↔ AllHold cs
  unfolding match_loop
  match_loop-all [] = ground arith
  match_loop-all (c ∷ cs) = ground (arith, match_loop-all cs)

  match_loop-any : (cs : List Condition) → (match_loop std cs ctx match_any ≡ true) ↔ AnyHolds cs
  unfolding match_loop
  match_loop-any [] = ground arith
  match_loop-any (c ∷ cs) = ground (arith, match_loop-any cs)

  match_loop-unset : (cs : List Condition) → match_loop std cs ctx unset ≡ false
  unfolding match_loop
  match_loop-unset [] = refl
  match_loop-unset (c ∷ cs) = ground (arith, match_loop-unset cs)

  -- Matching a list of conditions in mode `all` succeeds exactly when every condition holds, the
  -- empty list included; in mode `any`, exactly when the list is empty or some condition holds.
  pub match_conditions_iff :
      (cs : List Condition)
      → ((match_conditions std cs ctx match_all ≡ true) ↔ AllHold cs)
        × ((match_conditions std cs ctx match_any ≡ true) ↔ ((cs ≡ []) ⊎ AnyHolds cs))
  unfolding match_conditions
  match_conditions_iff [] = (ground arith, ((λ h. inl refl), (λ h. refl)))
  match_conditions_iff (c ∷ cs) = (
    match_loop-all (c ∷ cs),
    (
      (λ h. inr ((match_loop-any (c ∷ cs)).0 h)),
      (λ h. elim h [ inl e ↦ absurd (cc e) | inr k ↦ (match_loop-any (c ∷ cs)).1 k ]),
    ),
  )

  -- With no match type, a list of conditions that is not empty never matches.
  pub match_conditions-unset :
      (c : Condition) (cs : List Condition) → match_conditions std (c ∷ cs) ctx unset ≡ false
  unfolding match_conditions
  match_conditions-unset c cs = match_loop-unset (c ∷ cs)
