-- ===== src/License/Gate.antt =====
-- The gate of self-hosted deployments: server/internal/api/middleware/license.go. The file of the
-- public key is a parameter.
use featuresignals_unified.Base.{
  ◌≡◌, sym, ap, ◌∙◌, ◌⊎◌, ◌++◌, inl, inr, refl, Bool, true, false, Bool-cases, Option, none, some,
  List, [], ◌∷◌, if◌then◌else◌,
}
use featuresignals_unified.Base.Int.{ℤ, ltb_ℤ}
use featuresignals_unified.Base.Text.{Text, bytes, text_eq, has_prefix}
use featuresignals_unified.License.{
  LicenseClaims, LicenseError, Key, Crypto, decode_key, verify, has_feature,
}
use featuresignals_unified.License.Laws.{IsGenuine, verify-IsGenuine}

-- What the gate reads of the configuration.
pub record LicenseConfig : Type 0 where
  pub on_prem : Bool
  pub license_key : Text
  pub public_key_path : Text

unfoldable pub any_prefix : Text → List Text → Bool
any_prefix path [] = false
any_prefix path (p ∷ ps) = if has_prefix path p then true else any_prefix path ps

abbrev community_paths : List Text
community_paths =
    bytes "/v1/client/"
    ∷ bytes "/v1/evaluate"
    ∷ bytes "/v1/projects/"
    ∷ bytes "/v1/flags/"
    ∷ bytes "/v1/environments/"
    ∷ bytes "/v1/segments/"
    ∷ bytes "/v1/apikeys/"
    ∷ bytes "/health"
    ∷ bytes "/v1/status"
    ∷ []

abbrev auth_paths : List Text
auth_paths =
    bytes "/v1/auth/" ∷ bytes "/v1/signup" ∷ bytes "/v1/members/" ∷ bytes "/v1/onboarding" ∷ []

abbrev enterprise_paths : List Text
enterprise_paths =
    bytes "/v1/webhooks"
    ∷ bytes "/v1/integrations"
    ∷ bytes "/v1/approvals"
    ∷ bytes "/v1/scheduling"
    ∷ bytes "/v1/audit/export"
    ∷ bytes "/v1/data/export"
    ∷ bytes "/v1/sso"
    ∷ bytes "/v1/scim"
    ∷ bytes "/v1/ipallowlist"
    ∷ bytes "/v1/custom-roles"
    ∷ []

-- isCommunityEditionRoute
unfoldable pub is_community_edition_route : Text → Bool
is_community_edition_route path =
    if any_prefix path (community_paths ++ auth_paths)
    then true
    else if any_prefix path enterprise_paths
    then false
    else true

-- loadLicensePublicKey; `read_file` is `none` on an error.
unfoldable pub load_license_public_key : (Text → Option Text) → Text → Option Text
load_license_public_key read_file path = if text_eq path [] then none else read_file path

-- What validateOnPremLicense returns: an error, or claims, which are nil where the public key cannot
-- be loaded.
pub data Validation : Type 0 where
  refused : Validation
  no_claims : Validation
  claimed : LicenseClaims → Validation

module _ (crypto : Crypto) (read_file : Text → Option Text) (now : ℤ) where
  abbrev pub on_verified : LicenseError ⊎ LicenseClaims → Validation
  on_verified (inl e) = refused
  on_verified (inr c) = if ltb_ℤ c.expires_at now then refused else claimed c

  abbrev pub on_key : Text → Option Key → Validation
  on_key pem none = refused
  on_key pem (some k) = on_verified (verify crypto now k pem)

  abbrev pub on_public_key : Text → Option Text → Validation
  on_public_key license_key none = no_claims
  on_public_key license_key (some pem) = on_key pem (decode_key license_key)

  unfoldable pub validate_on_prem_license : LicenseConfig → Validation
  validate_on_prem_license cfg =
      if text_eq cfg.license_key []
      then refused
      else on_public_key cfg.license_key (load_license_public_key read_file cfg.public_key_path)

  -- What LicenseValidation passes on, `none` being a refusal: the claims in the context, if any.
  abbrev pub on_validation : Text → Validation → Option (Option LicenseClaims)
  on_validation path refused = if is_community_edition_route path then some none else none
  on_validation path no_claims = some none
  on_validation path (claimed c) = some (some c)

  unfoldable pub license_validation : LicenseConfig → Text → Option (Option LicenseClaims)
  license_validation cfg path =
      if cfg.on_prem then on_validation path (validate_on_prem_license cfg) else some none

  -- RequireLicenseFeature, behind LicenseValidation.
  unfoldable pub require_license_feature : Text → Option (Option LicenseClaims) → Bool
  require_license_feature feature none = false
  require_license_feature feature (some none) = false
  require_license_feature feature (some (some c)) = has_feature c.features feature

  -- A license key, genuine for the public key that is loaded, with the feature among its claims.
  pub data IsLicensed (cfg : LicenseConfig) (feature : Text) : Type 0 where
    licensed :
        (pem : Text) (k : Key) (c : LicenseClaims)
        → load_license_public_key read_file cfg.public_key_path ≡ some pem
        → decode_key cfg.license_key ≡ some k
        → IsGenuine crypto now k pem c
        → has_feature c.features feature ≡ true
        → IsLicensed cfg feature

  on_validation-claimed :
      (path feature : Text) (v : Validation)
      → require_license_feature feature (on_validation path v) ≡ true
      → (c : LicenseClaims) × (v ≡ claimed c) × (has_feature c.features feature ≡ true)
  unfolding require_license_feature
  on_validation-claimed path feature refused h =
      elim (Bool-cases (is_community_edition_route path)) [
        | inl t ↦ absurd (cc (rw t at h))
        | inr f ↦ absurd (cc (rw f at h))
      ]
  on_validation-claimed path feature no_claims h = absurd (cc h)
  on_validation-claimed path feature (claimed c) h = (c, refl, h)

  on_verified-claimed :
      (o : LicenseError ⊎ LicenseClaims) (c : LicenseClaims) → on_verified o ≡ claimed c → o ≡ inr c
  on_verified-claimed (inl e) c h = absurd (cc h)
  on_verified-claimed (inr d) c h = elim (Bool-cases (ltb_ℤ d.expires_at now)) [
    | inl t ↦ absurd (cc (rw t at h))
    | inr f ↦ cc (rw f at h)
  ]

  on_key-IsLicensed :
      (cfg : LicenseConfig) (pem feature : Text) (c : LicenseClaims) (o : Option Key)
      → load_license_public_key read_file cfg.public_key_path ≡ some pem
      → decode_key cfg.license_key ≡ o
      → on_key pem o ≡ claimed c
      → has_feature c.features feature ≡ true
      → IsLicensed cfg feature
  on_key-IsLicensed cfg pem feature c none loaded decoded h has = absurd (cc h)
  on_key-IsLicensed cfg pem feature c (some k) loaded decoded h has =
      licensed pem k c loaded decoded
        (verify-IsGenuine crypto now k pem c (on_verified-claimed (verify crypto now k pem) c h))
        has

  on_public_key-IsLicensed :
      (cfg : LicenseConfig) (feature : Text) (c : LicenseClaims) (o : Option Text)
      → load_license_public_key read_file cfg.public_key_path ≡ o
      → on_public_key cfg.license_key o ≡ claimed c
      → has_feature c.features feature ≡ true
      → IsLicensed cfg feature
  on_public_key-IsLicensed cfg feature c none loaded h has = absurd (cc h)
  on_public_key-IsLicensed cfg feature c (some pem) loaded h has =
      on_key-IsLicensed cfg pem feature c (decode_key cfg.license_key) loaded refl h has

  validate_on_prem_license-IsLicensed :
      (cfg : LicenseConfig) (feature : Text) (c : LicenseClaims)
      → validate_on_prem_license cfg ≡ claimed c
      → has_feature c.features feature ≡ true
      → IsLicensed cfg feature
  unfolding validate_on_prem_license
  validate_on_prem_license-IsLicensed cfg feature c h has =
      elim (Bool-cases (text_eq cfg.license_key [])) [
        | inl t ↦ absurd (cc (rw t at h))
        | inr f ↦
            on_public_key-IsLicensed cfg feature c
              (load_license_public_key read_file cfg.public_key_path) refl (rw f at h) has
      ]

  -- A request passes both gates of the middleware, for the deployment and for a feature, only in a
  -- self-hosted deployment whose license key decodes, is signed for the public key that is loaded,
  -- is current, and has the feature.
  pub require_license_feature-IsLicensed :
      (cfg : LicenseConfig) (path feature : Text)
      → require_license_feature feature (license_validation cfg path) ≡ true
      → (cfg.on_prem ≡ true) × IsLicensed cfg feature
  unfolding license_validation require_license_feature
  require_license_feature-IsLicensed cfg path feature h = elim (Bool-cases cfg.on_prem) [
    | inl t ↦
        let (c, valid, has) =
          on_validation-claimed path feature (validate_on_prem_license cfg) (h_at t) in
        (t, validate_on_prem_license-IsLicensed cfg feature c valid has)
    | inr f ↦ absurd (cc (h_off f))
  ]
    where
      chosen : Bool → Option (Option LicenseClaims)
      chosen b = if b then on_validation path (validate_on_prem_license cfg) else some none

      h_at : cfg.on_prem ≡ true → require_license_feature feature (chosen true) ≡ true
      h_at t = ap (λ b. require_license_feature feature (chosen b)) (sym t) ∙ h

      h_off : cfg.on_prem ≡ false → require_license_feature feature (chosen false) ≡ true
      h_off f = ap (λ b. require_license_feature feature (chosen b)) (sym f) ∙ h
