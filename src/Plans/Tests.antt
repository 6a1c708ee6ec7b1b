-- ===== src/Plans/Tests.antt =====
-- Gating at concrete plans.
use featuresignals_unified.Base.{◌≤◌, ◌≡◌, ◌↔◌, refl, true, false, []}
use featuresignals_unified.Base.Preds.{In}
use featuresignals_unified.Plans.{
  Plan, trial, free, pro, enterprise, mfa, sso, plan_rank, is_feature_enabled,
  feature_min_plan_name, plan_features,
}
use featuresignals_unified.Plans.Laws.{Ascending, is_feature_enabled_iff, plan_features_iff}

gates :
    (is_feature_enabled trial mfa ≡ true)
    × (is_feature_enabled free mfa ≡ false)
    × (is_feature_enabled pro sso ≡ false)
    × (plan_features free ≡ [])
unfolding is_feature_enabled plan_features
gates = (refl, refl, refl, refl)

is_feature_enabled_iff_test :
    ((is_feature_enabled pro mfa ≡ true) ↔ (plan_rank (feature_min_plan_name mfa) ≤ plan_rank pro))
    × ((higher : Plan)
        → plan_rank pro ≤ plan_rank higher
        → is_feature_enabled pro mfa ≡ true
        → is_feature_enabled higher mfa ≡ true)
is_feature_enabled_iff_test = is_feature_enabled_iff pro mfa

plan_features_iff_test :
    (In sso (plan_features enterprise) ↔ (is_feature_enabled enterprise sso ≡ true))
    × Ascending (plan_features enterprise)
plan_features_iff_test = plan_features_iff enterprise sso (λ t e. cc e)
