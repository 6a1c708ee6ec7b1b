-- ===== src/License/Tests.antt =====
-- A license of a concrete customer, with a toy cryptography.
use featuresignals_unified.Base.{
  ◌+◌, ◌-◌, ◌≡◌, ap, sym, ◌∙◌, inl, inr, refl, true, Option, none, some, [], ◌∷◌, arith,
}
use featuresignals_unified.Base.Int.{pos}
use featuresignals_unified.Base.Text.{Text, bytes, text_eq, text_eq_refl}
use featuresignals_unified.License.{
  LicenseClaims, Key, Crypto, validate_claims, encode_key, decode_key, sign, verify,
  expired_license,
}
use featuresignals_unified.License.Laws.{HasNoDot, IsGenuine, verify-IsGenuine}
use featuresignals_unified.License.Gate.{
  LicenseConfig, IsLicensed, is_community_edition_route, license_validation,
  require_license_feature, require_license_feature-IsLicensed,
}
use featuresignals_unified.License.Issuing.{CryptoLaws, verify-sign}

abbrev acme : LicenseClaims
acme = record {
  license_id = bytes "L1";
  customer_name = bytes "Acme";
  customer_id = bytes "C1";
  plan = bytes "pro";
  max_seats = pos 5;
  max_projects = pos 3;
  features = bytes "sso" ∷ [];
  issued_at = pos 10;
  expires_at = pos 100;
}

-- A code that shifts each byte above the dot.
abbrev toy_encode : Text → Text
toy_encode [] = []
toy_encode (c ∷ s) = (100 + c) ∷ toy_encode s

abbrev toy_decode : Text → Text
toy_decode [] = []
toy_decode (c ∷ s) = (c - 100) ∷ toy_decode s

toy_decode-toy_encode : (t : Text) → toy_decode (toy_encode t) ≡ t
toy_decode-toy_encode [] = refl
toy_decode-toy_encode (c ∷ s) =
    let same : 100 + c - 100 ≡ c = omega arith in
    ap (λ d. d ∷ toy_decode (toy_encode s)) same ∙ ap (λ u. c ∷ u) (toy_decode-toy_encode s)

toy_encode-HasNoDot : (t : Text) → HasNoDot (toy_encode t)
toy_encode-HasNoDot [] = tt
toy_encode-HasNoDot (c ∷ s) = (ground arith, toy_encode-HasNoDot s)

-- One pair of keys, a signature that repeats the text, and JSON for one customer only.
abbrev toy_crypto : Crypto
toy_crypto = record {
  PrivateKey = Unit;
  PublicKey = Unit;
  parse_private = λ pem. some tt;
  parse_public = λ pem. some tt;
  sign_bytes = λ key t. some t;
  check_bytes = λ key t sig. text_eq t sig;
  encode64 = toy_encode;
  decode64 = λ t. some (toy_decode t);
  marshal = λ c. some (bytes "acme");
  unmarshal = λ t. some acme;
}

toy_laws : CryptoLaws toy_crypto (λ a b. Unit)
toy_laws = record {
  decodes = λ t. ap some (toy_decode-toy_encode t);
  no_dot = toy_encode-HasNoDot;
  fits = λ a b t sig pair e.
      let same : t ≡ sig = cc e in ap (λ s. text_eq t s) (sym same) ∙ text_eq_refl t;
}

verify-sign_example :
    (k : Key) × (sign toy_crypto acme [] ≡ inr k)
    × (decode_key (encode_key k) ≡ some k)
    × (verify toy_crypto (pos 50) k [] ≡ inr acme)
unfolding validate_claims text_eq
verify-sign_example =
    verify-sign toy_crypto (λ a b. Unit) toy_laws (pos 50) acme [] [] (bytes "acme") (bytes "acme")
      tt tt refl refl tt refl refl refl refl

abbrev issued : Key
issued = record { payload = toy_encode (bytes "acme"); signature = toy_encode (bytes "acme") }

verify-IsGenuine_test : IsGenuine toy_crypto (pos 50) issued [] acme
unfolding verify validate_claims text_eq
verify-IsGenuine_test = verify-IsGenuine toy_crypto (pos 50) issued [] acme refl

expired : verify toy_crypto (pos 101) issued [] ≡ inl expired_license
unfolding verify validate_claims text_eq
expired = refl

abbrev self_hosted : LicenseConfig
self_hosted = record {
  on_prem = true;
  license_key = encode_key issued;
  public_key_path = bytes "key.pem";
}

abbrev readable : Text → Option Text
readable path = some []

passes_sso :
    require_license_feature toy_crypto readable
      (pos 50)
      (bytes "sso")
      (license_validation toy_crypto readable (pos 50) self_hosted (bytes "/v1/sso"))
    ≡ true
unfolding require_license_feature license_validation
    featuresignals_unified.License.Gate.validate_on_prem_license text_eq encode_key
    featuresignals_unified.License.Gate.load_license_public_key decode_key
    featuresignals_unified.License.split_dot verify validate_claims
    featuresignals_unified.License.has_feature
passes_sso = refl

require_license_feature-IsLicensed_example :
    (true ≡ true) × IsLicensed toy_crypto readable (pos 50) self_hosted (bytes "sso")
require_license_feature-IsLicensed_example =
    require_license_feature-IsLicensed toy_crypto readable (pos 50) self_hosted (bytes "/v1/sso")
      (bytes "sso") passes_sso

-- A key that is too old stops the enterprise routes alone.
license_validation_tests :
    (license_validation toy_crypto readable (pos 101) self_hosted (bytes "/v1/sso") ≡ none)
    × (license_validation toy_crypto readable (pos 101) self_hosted (bytes "/v1/flags/a")
        ≡ some none)
unfolding license_validation featuresignals_unified.License.Gate.validate_on_prem_license text_eq
    encode_key featuresignals_unified.License.Gate.load_license_public_key decode_key
    featuresignals_unified.License.split_dot verify validate_claims is_community_edition_route
    featuresignals_unified.License.Gate.any_prefix featuresignals_unified.Base.Text.has_prefix
license_validation_tests = (refl, refl)
