-- ===== src/Gates/Passing.antt =====
-- What is known of a management request that passes the gates of server/internal/api/router.go.
use featuresignals_unified.Base.{
  ℕ, ◌≡◌, ◌≢◌, refl, sym, ap, ◌∙◌, ◌⊎◌, inl, inr, Bool, true, false, not, ◌&&◌, Bool-cases, Option,
  none, some, List, [], ◌∷◌, ◌++◌, arith, if◌then◌else◌,
}
use featuresignals_unified.Base.Text.{Text, bytes, text_eq, text_eq_iff, text_eq_refl}
use featuresignals_unified.Base.Strings.{split_once, split_once-append, one_of}
use featuresignals_unified.Plans.{Feature, is_feature_enabled}
use featuresignals_unified.Scheduler.Accounts.{
  Org, Orgs, Limits, to_free, update_org, on_row, is_trial_over,
}
use featuresignals_unified.Gates.{
  is_deleted, Refusal, deactivated, Claims, Token, valid, expired, invalid, Backend, ApiRequest,
  Context, no_context, context_of, on_revoked, Gate, pass, refuse, and_then, on_token, on_parts,
  jwt_auth, Reads, on_trial, trial_expiry, require_role, plan_of, feature_gate,
}

pub and_then-pass :
    {A B : Type 0} (g : Gate A) (f : A → Gate B) (x : B)
    → and_then g f ≡ pass x
    → (a : A) × (g ≡ pass a) × (f a ≡ pass x)
and_then-pass (pass a) f x h = (a, refl, h)
and_then-pass (refuse r) f x h = absurd (cc h)

pass-injective : {A : Type 0} {x y : A} → pass x ≡ pass y → x ≡ y
pass-injective h = cc h

module _ (b : Backend) where
  -- The header carries a token of these claims that is not known to be revoked.
  pub record IsBearer (req : ApiRequest) (c : Claims) : Type 0 where
    pub token : Text
    pub header : req.authorization ≡ bytes "Bearer" ++ 32 ∷ token
    pub validated : b.validate_token token ≡ valid c
    pub current : c.id ≢ [] → b.revokes ≡ true → b.is_revoked c.id ≢ some true

  on_revoked-pass :
      (c : Claims) (ctx : Context) (o : Option Bool)
      → on_revoked b c o ≡ pass ctx
      → (ctx ≡ context_of c) × (o ≢ some true)
  on_revoked-pass c ctx none h = (sym (pass-injective h), λ e. absurd (cc e))
  on_revoked-pass c ctx (some false) h = (sym (pass-injective h), λ e. absurd (cc e))
  on_revoked-pass c ctx (some true) h = absurd (cc h)

  on_token-pass :
      (t : Token) (ctx : Context)
      → on_token b t ≡ pass ctx
      → (c : Claims) × (t ≡ valid c)
        × (ctx ≡ context_of c)
        × (c.id ≢ [] → b.revokes ≡ true → b.is_revoked c.id ≢ some true)
  on_token-pass expired ctx h = absurd (cc h)
  on_token-pass invalid ctx h = absurd (cc h)
  on_token-pass (valid c) ctx h = elim (Bool-cases (not (text_eq c.id []) && b.revokes)) [
    | inr unchecked ↦ (
      c,
      refl,
      sym (pass-injective (rw unchecked at h)),
      λ named revokes _. absurd (ground (arith, unchecked, named, revokes, text_eq_iff c.id [])),
    )
    | inl checked ↦
        let (same, current) = on_revoked-pass c ctx (b.is_revoked c.id) (rw checked at h) in
        (c, refl, same, λ _ _. current)
  ]

  on_parts-pass :
      (req : ApiRequest) (ctx : Context) (o : Option (Text × Text))
      → split_once 32 req.authorization ≡ o
      → on_parts b o ≡ pass ctx
      → (c : Claims) × IsBearer req c × (ctx ≡ context_of c)
  on_parts-pass req ctx none e h = absurd (cc h)
  on_parts-pass req ctx (some (scheme, token)) e h =
      elim (Bool-cases (text_eq scheme (bytes "Bearer"))) [
        | inr other ↦ absurd (cc (rw other at h))
        | inl bearer ↦
            let (c, validated, same, current) =
              on_token-pass (b.validate_token token) ctx (rw bearer at h) in
            (
              c,
              record {
                token = token;
                header =
                    split_once-append 32 req.authorization scheme token e
                    ∙ ap (λ x. x ++ 32 ∷ token) ((text_eq_iff scheme (bytes "Bearer")).0 bearer);
                validated = validated;
                current = current;
              },
              same,
            )
      ]

  pub jwt_auth-pass :
      (req : ApiRequest) (ctx : Context)
      → jwt_auth b req ≡ pass ctx
      → (ctx ≡ no_context) ⊎ ((c : Claims) × IsBearer req c × (ctx ≡ context_of c))
  unfolding jwt_auth
  jwt_auth-pass req ctx h = elim (Bool-cases (text_eq req.method (bytes "OPTIONS"))) [
    | inl t ↦ inl (sym (pass-injective (rw t at h)))
    | inr f ↦ elim (Bool-cases (text_eq req.authorization [])) [
      | inl t ↦ absurd (cc (rw (f, t) at h))
      | inr g ↦ inr (on_parts-pass req ctx (split_once 32 req.authorization) refl (rw (f, g) at h))
    ]
  ]

pub require_role-pass :
    (roles : List Text) (ctx : Context) (u : Unit {0})
    → require_role roles ctx ≡ pass u
    → one_of roles ctx.role ≡ true
unfolding require_role
require_role-pass roles ctx u h = elim (Bool-cases (one_of roles ctx.role)) [
  | inl t ↦ t
  | inr f ↦ absurd (cc (rw f at h))
]

-- What TrialExpiry makes of the row of an organization.
abbrev pub after_trial : Limits → Bool → ℕ → Org → Option Org
after_trial defaults downgrade_fails now o =
    if text_eq o.plan (bytes "trial") && is_trial_over now o && not downgrade_fails
    then to_free defaults o
    else some o

refuse_or_pass :
    {A : Type 0} {x y : A} (r : Refusal) (b : Bool)
    → (if b then refuse r else pass x) ≡ pass y
    → (b ≡ false) × (x ≡ y)
refuse_or_pass r true h = absurd (cc h)
refuse_or_pass r false h = (refl, pass-injective h)

not_deleted : (o : Org) → is_deleted o ≡ false → o.deleted_at ≡ none
not_deleted o h = ground (arith, h)

trial_row :
    (defaults : Limits) (downgrade_fails : Bool) (now : ℕ) (id : Text) (orgs : Orgs) (o : Org)
    → orgs id ≡ some o
    → (if text_eq o.plan (bytes "trial") && is_trial_over now o && not downgrade_fails
          then update_org id (on_row (to_free defaults)) orgs
          else orgs)
        id
      ≡ after_trial defaults downgrade_fails now o
trial_row defaults downgrade_fails now id orgs o found =
    elim (Bool-cases
      (text_eq o.plan (bytes "trial") && is_trial_over now o && not downgrade_fails)) [
        | inl t ↦ rw (t, text_eq_refl id, found) refl
        | inr f ↦ rw (f, found) refl
      ]

on_trial-pass :
    (defaults : Limits) (downgrade_fails : Bool) (now : ℕ) (id : Text) (orgs table : Orgs) (o : Org)
    → orgs id ≡ some o
    → on_trial defaults downgrade_fails now id orgs (some o) ≡ pass table
    → (o.deleted_at ≡ none) × (table id ≡ after_trial defaults downgrade_fails now o)
on_trial-pass defaults downgrade_fails now id orgs table o found h =
    let (alive, same) = refuse_or_pass deactivated (is_deleted o) h in
    (
      not_deleted o alive,
      ap (λ (t : Orgs). t id) (sym same) ∙ trial_row defaults downgrade_fails now id orgs o found,
    )

pub trial_expiry-pass :
    (defaults : Limits) (reads : Reads) (now : ℕ) (ctx : Context) (orgs table : Orgs) (o : Org)
    → trial_expiry defaults reads now ctx orgs ≡ pass table
    → ctx.org_id ≢ []
    → reads.trial_fails ≡ false
    → orgs ctx.org_id ≡ some o
    → (o.deleted_at ≡ none) × (table ctx.org_id ≡ after_trial defaults reads.downgrade_fails now o)
unfolding trial_expiry
trial_expiry-pass defaults reads now ctx orgs table o h named read found =
    elim (Bool-cases (text_eq ctx.org_id [])) [
      | inl t ↦ absurd (named ((text_eq_iff ctx.org_id []).0 t))
      | inr f ↦
          on_trial-pass defaults reads.downgrade_fails now ctx.org_id orgs table o found
            (rw (f, read, found) at h)
    ]

pub feature_gate-pass :
    (feature : Feature) (fails : Bool) (ctx : Context) (orgs : Orgs) (o : Org) (u : Unit {0})
    → feature_gate feature fails ctx orgs ≡ pass u
    → ctx.org_id ≢ []
    → fails ≡ false
    → orgs ctx.org_id ≡ some o
    → is_feature_enabled (plan_of o.plan) feature ≡ true
unfolding feature_gate
feature_gate-pass feature fails ctx orgs o u h named read found =
    elim (Bool-cases (text_eq ctx.org_id [])) [
      | inl t ↦ absurd (named ((text_eq_iff ctx.org_id []).0 t))
      | inr f ↦ elim (Bool-cases (is_feature_enabled (plan_of o.plan) feature)) [
        | inl t ↦ t
        | inr g ↦ absurd (cc (rw g at (rw (f, read, found) at h)))
      ]
    ]
