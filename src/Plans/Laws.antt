-- ===== src/Plans/Laws.antt =====
-- Which features a subscription tier has.
use featuresignals_unified.Base.{◌≤◌, ◌≡◌, ◌↔◌, refl, true, List, [], ◌∷◌, arith}
use featuresignals_unified.Base.Preds.{In}
use featuresignals_unified.Base.Text.{Text, text_lt}
use featuresignals_unified.Plans.{
  Plan, trial, free, Feature, approvals, plan_rank, feature_text, is_feature_enabled,
  feature_min_plan_name, plan_features,
}

-- A feature is enabled for a plan exactly when the plan ranks at least as high as the plan that
-- FeatureMinPlanName gives for it, and so for every plan of a higher rank too.
pub is_feature_enabled_iff :
    (plan : Plan) (feature : Feature)
    → ((is_feature_enabled plan feature ≡ true)
        ↔ (plan_rank (feature_min_plan_name feature) ≤ plan_rank plan))
      × ((higher : Plan)
          → plan_rank plan ≤ plan_rank higher
          → is_feature_enabled plan feature ≡ true
          → is_feature_enabled higher feature ≡ true)
unfolding is_feature_enabled feature_min_plan_name
is_feature_enabled_iff plan approvals = (ground arith, (λ higher le h. ground arith))
is_feature_enabled_iff plan feature = (ground arith, (λ higher le h. ground arith))

-- The names of a list ascend strictly.
abbrev pub Ascending : List Feature → Type 0
Ascending [] = Unit
Ascending (f ∷ []) = Unit
Ascending (f ∷ g ∷ gs) = (text_lt (feature_text f) (feature_text g) ≡ true) × Ascending (g ∷ gs)

-- A known feature is listed for a plan exactly when it is enabled for it, and the names of the
-- list ascend strictly.
pub plan_features_iff :
    (plan : Plan) (feature : Feature)
    → ((t : Text) → feature ≡ Feature.other t → ⊥)
    → (In feature (plan_features plan) ↔ (is_feature_enabled plan feature ≡ true))
      × Ascending (plan_features plan)
unfolding plan_features is_feature_enabled text_lt
plan_features_iff plan (Feature.other t) known = absurd (known t refl)
plan_features_iff trial feature known = (ground arith, ground arith)
plan_features_iff free feature known = (ground arith, ground arith)
plan_features_iff plan feature known = (ground arith, ground arith)
