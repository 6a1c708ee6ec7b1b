-- ===== src/Gates/Managing.antt =====
-- Who gets through the gates of a management route: server/internal/api/router.go.
use mathlib.Core.Path.{subst}
use featuresignals_unified.Base.{ℕ, ◌≡◌, ◌≢◌, ◌∙◌, inl, inr, true, false, none, some, List, []}
use featuresignals_unified.Base.Text.{Text}
use featuresignals_unified.Base.Strings.{one_of}
use featuresignals_unified.Plans.{Feature, is_feature_enabled}
use featuresignals_unified.Scheduler.Accounts.{Org, Orgs, Limits}
use featuresignals_unified.Gates.{
  Claims, Backend, ApiRequest, Context, no_context, context_of, pass, jwt_auth, ip_allowlist, Reads,
  trial_expiry, tier_enforce, require_role, plan_of, feature_gate, management,
}
use featuresignals_unified.Gates.Passing.{
  and_then-pass, IsBearer, jwt_auth-pass, require_role-pass, after_trial, trial_expiry-pass,
  feature_gate-pass,
}

module _ (b : Backend) (defaults : Limits) (reads : Reads) (now : ℕ) (roles : List Text)
    (feature : Feature) (req : ApiRequest) (orgs : Orgs) where
  -- The bearer of a valid token, in one of the roles; where the reads succeed, its organization is not
  -- deleted, and its plan has the feature once a trial that is over is made free.
  pub record IsAuthorized (ctx : Context) : Type 0 where
    pub claims : Claims
    pub bearer : IsBearer b req claims
    pub context : ctx ≡ context_of claims
    pub role : one_of roles claims.role ≡ true
    pub alive :
        (o : Org)
        → claims.org_id ≢ []
        → reads.trial_fails ≡ false
        → orgs claims.org_id ≡ some o
        → o.deleted_at ≡ none
    pub featured :
        (o p : Org)
        → claims.org_id ≢ []
        → reads.trial_fails ≡ false
        → reads.feature_fails ≡ false
        → orgs claims.org_id ≡ some o
        → after_trial defaults reads.downgrade_fails now o ≡ some p
        → is_feature_enabled (plan_of p.plan) feature ≡ true

  -- The gates behind the authentication.
  gates-IsAuthorized :
      (ctx : Context) (table : Orgs) (u v : Unit {0})
      → ((c : Claims) × IsBearer b req c × (ctx ≡ context_of c))
      → trial_expiry defaults reads now ctx orgs ≡ pass table
      → require_role roles ctx ≡ pass u
      → feature_gate feature reads.feature_fails ctx table ≡ pass v
      → IsAuthorized ctx
  gates-IsAuthorized ctx table u v (c, bearer, same) trials role features = record {
    claims = c;
    bearer = bearer;
    context = same;
    role =
        subst (λ (x : Context). one_of roles x.role ≡ true) same
          (require_role-pass roles ctx u role);
    alive = λ o named read found.
        (trial_expiry-pass defaults reads now (context_of c) orgs table o
          (subst (λ x. trial_expiry defaults reads now x orgs ≡ pass table) same trials) named read
          found).0;
    featured = λ o p named read readable found after.
        feature_gate-pass feature reads.feature_fails (context_of c) table p v
          (subst (λ x. feature_gate feature reads.feature_fails x table ≡ pass v) same features)
          named readable
          ((trial_expiry-pass defaults reads now (context_of c) orgs table o
              (subst (λ x. trial_expiry defaults reads now x orgs ≡ pass table) same trials) named
              read found).1
            ∙ after);
  }

  authenticated :
      (ctx : Context) (u : Unit {0})
      → one_of roles [] ≡ false
      → jwt_auth b req ≡ pass ctx
      → require_role roles ctx ≡ pass u
      → (c : Claims) × IsBearer b req c × (ctx ≡ context_of c)
  authenticated ctx u named h role = elim (jwt_auth-pass b req ctx h) [
    | inl nobody ↦ absurd (
        cc (
          named,
          require_role-pass roles no_context u
              (subst (λ x. require_role roles x ≡ pass u) nobody role),
        ))
    | inr somebody ↦ somebody
  ]

  -- Where no role is the empty text, a request that reaches the handler of a management route was sent
  -- by the bearer of a valid token that is not known to be revoked, in one of the roles; where the
  -- reads succeed, the organization is not deleted, and its plan, a trial that is over counting as
  -- free if the downgrade succeeds, has the feature.
  pub management-IsAuthorized :
      (ctx : Context) (table : Orgs)
      → one_of roles [] ≡ false
      → management b defaults reads now roles feature req orgs ≡ pass (ctx, table)
      → IsAuthorized ctx
  unfolding management
  management-IsAuthorized ctx table named h =
      let (c1, jwt, h1) = and_then-pass (jwt_auth b req) _ (ctx, table) h in
      let (_, ips, h2) = and_then-pass (ip_allowlist b req c1) _ (ctx, table) h1 in
      let (t1, trials, h3) =
        and_then-pass (trial_expiry defaults reads now c1 orgs) _ (ctx, table) h2 in
      let (_, tiers, h4) =
        and_then-pass (tier_enforce b reads.tier_fails req c1 t1) _ (ctx, table) h3 in
      let (u, role, h5) = and_then-pass (require_role roles c1) _ (ctx, table) h4 in
      let (v, features, h6) =
        and_then-pass (feature_gate feature reads.feature_fails c1 t1) _ (ctx, table) h5 in
      subst IsAuthorized (cc h6)
        (gates-IsAuthorized c1 t1 u v (authenticated c1 u named jwt role) trials role features)
