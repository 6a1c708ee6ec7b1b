-- ===== src/Plans.antt =====
-- Subscription tiers and the features that they gate: server/internal/domain/features.go and the
-- tier constants of domain/subscription.go. `other` is any string that is no constant.
pub mod Laws
mod Tests
use featuresignals_unified.Base.{
  ℕ, Bool, true, false, Option, none, some, List, [], ◌∷◌, leb, if◌then◌else◌,
}
use featuresignals_unified.Base.Text.{Text, bytes, text_lt}

pub data Plan : Type 0 where
  trial free pro enterprise : Plan
  other : Text → Plan

pub data Feature : Type 0 where
  approvals webhooks scheduling audit_export sso scim ip_allowlist custom_roles mfa : Feature
  data_export : Feature
  other : Text → Feature

-- `planRank[plan]`, which is 0 for a missing key
pub plan_rank : Plan → ℕ
plan_rank free = 0
plan_rank trial = 2
plan_rank pro = 2
plan_rank enterprise = 3
plan_rank (Plan.other _) = 0

-- The entries of featureMinPlan, in one of the orders in which `range` may visit them.
pub feature_min_plan : List (Feature × Plan)
feature_min_plan =
    (approvals, pro)
    ∷ (webhooks, pro)
    ∷ (scheduling, pro)
    ∷ (audit_export, pro)
    ∷ (mfa, pro)
    ∷ (data_export, pro)
    ∷ (sso, enterprise)
    ∷ (scim, enterprise)
    ∷ (ip_allowlist, enterprise)
    ∷ (custom_roles, enterprise)
    ∷ []

-- `required, ok := featureMinPlan[feature]`
pub min_plan : Feature → Option Plan
min_plan approvals = some pro
min_plan webhooks = some pro
min_plan scheduling = some pro
min_plan audit_export = some pro
min_plan mfa = some pro
min_plan data_export = some pro
min_plan sso = some enterprise
min_plan scim = some enterprise
min_plan ip_allowlist = some enterprise
min_plan custom_roles = some enterprise
min_plan (Feature.other _) = none

unfoldable pub is_feature_enabled : Plan → Feature → Bool
unfolding min_plan plan_rank
is_feature_enabled plan feature = elim (min_plan feature) [
  | none ↦ true
  | some required ↦ leb (plan_rank required) (plan_rank plan)
]

pub feature_min_plan_name : Feature → Plan
unfolding min_plan
feature_min_plan_name feature = elim (min_plan feature) [ none ↦ free | some p ↦ p ]

-- The loop of PlanFeatures.
collect_features : ℕ → List (Feature × Plan) → List Feature
unfolding plan_rank
collect_features rank [] = []
collect_features rank ((f, p) ∷ rest) =
    let more = collect_features rank rest in if leb (plan_rank p) rank then f ∷ more else more

-- `string(f)`
abbrev pub feature_text : Feature → Text
feature_text approvals = bytes "approvals"
feature_text webhooks = bytes "webhooks"
feature_text scheduling = bytes "scheduling"
feature_text audit_export = bytes "audit_export"
feature_text sso = bytes "sso"
feature_text scim = bytes "scim"
feature_text ip_allowlist = bytes "ip_allowlist"
feature_text custom_roles = bytes "custom_roles"
feature_text mfa = bytes "mfa"
feature_text data_export = bytes "data_export"
feature_text (Feature.other t) = t

-- `sort.Strings`, which orders by bytes
insert_by_name : Feature → List Feature → List Feature
insert_by_name f [] = f ∷ []
insert_by_name f (g ∷ gs) =
    if text_lt (feature_text g) (feature_text f) then g ∷ insert_by_name f gs else f ∷ g ∷ gs

sort_by_name : List Feature → List Feature
unfolding insert_by_name
sort_by_name [] = []
sort_by_name (f ∷ fs) = insert_by_name f (sort_by_name fs)

pub plan_features : Plan → List Feature
unfolding collect_features feature_min_plan sort_by_name
plan_features plan = sort_by_name (collect_features (plan_rank plan) feature_min_plan)

pub all_features : List (Feature × Plan)
unfolding feature_min_plan
all_features = feature_min_plan
