-- ===== src/License.antt =====
-- License keys: server/internal/license/license.go and loader.go. RSA, SHA-256, PEM, base64 and
-- JSON are the record Crypto; what the theorems need of them is the record CryptoLaws.
pub mod Laws
pub mod Issuing
pub mod Gate
mod Tests
use featuresignals_unified.Base.{
  ℕ, Bool, true, false, not, ◌&&◌, ◌||◌, ◌≡◌, Option, none, some, List, [], ◌∷◌, ◌++◌, ltb, ◌==◌,
  if◌then◌else◌, ◌⊎◌, inl, inr,
}
use featuresignals_unified.Base.Int.{ℤ, ltb_ℤ}
use featuresignals_unified.Base.Text.{Text, bytes, text_eq}
use featuresignals_unified.Eval.Engine.{is_nil}

-- Instants are nanoseconds since the zero time, which may be negative.
pub record LicenseClaims : Type 0 where
  pub license_id : Text
  pub customer_name : Text
  pub customer_id : Text
  pub plan : Text
  pub max_seats : ℤ
  pub max_projects : ℤ
  pub features : List Text
  pub issued_at : ℤ
  pub expires_at : ℤ

-- ErrInvalidLicense and ErrExpiredLicense, without their details, and the errors of Sign.
pub data LicenseError : Type 0 where
  invalid_license expired_license sign_failed : LicenseError

pub record Key : Type 0 where
  pub payload : Text
  pub signature : Text

pub record Crypto : Type 1 where
  pub PrivateKey : Type 0
  pub PublicKey : Type 0
  -- pem.Decode and the x509 parsers, `none` for an error
  pub parse_private : Text → Option PrivateKey
  pub parse_public : Text → Option PublicKey
  -- SHA-256 and RSA together; signing may fail
  pub sign_bytes : PrivateKey → Text → Option Text
  pub check_bytes : PublicKey → Text → Text → Bool
  -- base64.StdEncoding
  pub encode64 : Text → Text
  pub decode64 : Text → Option Text
  -- encoding/json on the claims
  pub marshal : LicenseClaims → Option Text
  pub unmarshal : Text → Option LicenseClaims

-- Claims.Validate at the instant `now`; `none` is nil.
unfoldable pub validate_claims : ℤ → LicenseClaims → Option LicenseError
validate_claims now c =
    if is_nil c.license_id || is_nil c.customer_id
    then some invalid_license
    else (if not (text_eq c.plan (bytes "pro")) && not (text_eq c.plan (bytes "enterprise"))
        then some invalid_license
        else (if ltb_ℤ c.expires_at now then some expired_license else none))

unfoldable pub has_feature : List Text → Text → Bool
has_feature [] feature = false
has_feature (f ∷ fs) feature = if text_eq f feature then true else has_feature fs feature

-- Key.Encode
unfoldable pub encode_key : Key → Text
encode_key k = k.payload ++ bytes "." ++ k.signature

-- The loop of Decode, with the bytes before the first dot.
unfoldable pub split_dot : Text → Option (Text × Text)
split_dot [] = none
split_dot (c ∷ s) =
    let rest = split_dot s in
    if c == b'.' then some ([], s) else elim rest [ none ↦ none | some p ↦ some (c ∷ p.0, p.1) ]

abbrev pub key_of : Option (Text × Text) → Option Key
key_of none = none
key_of (some (payload, signature)) = some (record { payload = payload; signature = signature })

-- Decode.
unfoldable pub decode_key : Text → Option Key
decode_key raw = key_of (split_dot raw)

module _ (crypto : Crypto) where
  open crypto use {
    PrivateKey, PublicKey, parse_private, parse_public, sign_bytes, check_bytes, encode64, decode64,
    marshal, unmarshal,
  }

  abbrev pub signed_key : Text → Option Text → LicenseError ⊎ Key
  signed_key payload none = inl sign_failed
  signed_key payload (some sig) =
      inr (record { payload = encode64 payload; signature = encode64 sig })

  abbrev pub sign_with : Text → Option PrivateKey → LicenseError ⊎ Key
  sign_with payload none = inl sign_failed
  sign_with payload (some key) = signed_key payload (sign_bytes key payload)

  abbrev pub sign_payload : Text → Option Text → LicenseError ⊎ Key
  sign_payload pem none = inl sign_failed
  sign_payload pem (some payload) = sign_with payload (parse_private pem)

  -- Sign.
  unfoldable pub sign : LicenseClaims → Text → LicenseError ⊎ Key
  sign claims pem = sign_payload pem (marshal claims)

  abbrev pub validated : LicenseClaims → Option LicenseError → LicenseError ⊎ LicenseClaims
  validated claims none = inr claims
  validated claims (some e) = inl e

  abbrev pub verify_claims : ℤ → Option LicenseClaims → LicenseError ⊎ LicenseClaims
  verify_claims now none = inl invalid_license
  verify_claims now (some claims) = validated claims (validate_claims now claims)

  abbrev pub verify_with : ℤ → Text → Text → Option PublicKey → LicenseError ⊎ LicenseClaims
  verify_with now payload sig none = inl invalid_license
  verify_with now payload sig (some key) =
      if not (check_bytes key payload sig)
      then inl invalid_license
      else verify_claims now (unmarshal payload)

  abbrev pub verify_signature : ℤ → Text → Text → Option Text → LicenseError ⊎ LicenseClaims
  verify_signature now pem payload none = inl invalid_license
  verify_signature now pem payload (some sig) = verify_with now payload sig (parse_public pem)

  abbrev pub verify_payload : ℤ → Text → Key → Option Text → LicenseError ⊎ LicenseClaims
  verify_payload now pem k none = inl invalid_license
  verify_payload now pem k (some payload) = verify_signature now pem payload (decode64 k.signature)

  -- Verify at the instant `now`.
  unfoldable pub verify : ℤ → Key → Text → LicenseError ⊎ LicenseClaims
  verify now k pem = verify_payload now pem k (decode64 k.payload)
