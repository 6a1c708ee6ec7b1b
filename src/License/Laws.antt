-- ===== src/License/Laws.antt =====
-- What a license key that verifies tells, and that an issued one verifies.
use mathlib.Core.Path.{subst}
use featuresignals_unified.Base.{
  ◌≡◌, ◌≢◌, ◌⊎◌, inl, inr, refl, Bool, true, false, not, Option, none, some, [], ◌∷◌, ◌++◌, ◌==◌,
  if◌then◌else◌, arith, ap,
}
use featuresignals_unified.Base.Int.{ℤ, ◌≤ℤ◌, le_of_ltb_ℤ}
use featuresignals_unified.Base.Preds.{All}
use featuresignals_unified.Base.Text.{Text, bytes, text_eq_iff}
use featuresignals_unified.Eval.Engine.{is_nil}
use featuresignals_unified.License.{
  LicenseClaims, LicenseError, invalid_license, Key, Crypto, validate_claims, encode_key, split_dot,
  decode_key, key_of, validated, verify_claims, verify_with, verify_signature, verify_payload,
  verify,
}

abbrev pub HasNoDot : Text → Type 0
HasNoDot = All (λ c. (c == b'.') ≡ false)

split_dot-append : (p s : Text) → HasNoDot p → split_dot (p ++ bytes "." ++ s) ≡ some (p, s)
unfolding split_dot
split_dot-append [] s h = refl
split_dot-append (c ∷ p) s h = rw (h.0, split_dot-append p s h.1) refl

-- A key whose payload has no dot is decoded as it was encoded.
pub decode_key-encode_key : (k : Key) → HasNoDot k.payload → decode_key (encode_key k) ≡ some k
unfolding decode_key encode_key
decode_key-encode_key k h = ap key_of (split_dot-append k.payload k.signature h)

-- The claims name a license and a customer and one of the two plans, and have not expired.
abbrev pub IsCurrent : ℤ → LicenseClaims → Type 0
IsCurrent now c =
    (c.license_id ≢ [])
    × (c.customer_id ≢ [])
    × ((c.plan ≡ bytes "pro") ⊎ (c.plan ≡ bytes "enterprise"))
    × (now ≤ℤ c.expires_at)

nil_cases : (t : Text) → is_nil t ≡ false → t ≢ []
nil_cases t f e = absurd (cc (f, e))

validate_claims-IsCurrent :
    (now : ℤ) (c : LicenseClaims) → validate_claims now c ≡ none → IsCurrent now c
unfolding validate_claims
validate_claims-IsCurrent now c h = (
  nil_cases c.license_id (ground (arith, h)),
  nil_cases c.customer_id (ground (arith, h)),
  ground (arith, h, text_eq_iff c.plan (bytes "pro"), text_eq_iff c.plan (bytes "enterprise")),
  le_of_ltb_ℤ c.expires_at now (ground (arith, h)),
)

module _ (crypto : Crypto) where
  open crypto use {
    PrivateKey, PublicKey, parse_private, parse_public, sign_bytes, check_bytes, encode64, decode64,
    marshal, unmarshal,
  }

  -- The claims stand in the key's payload, its signature fits them, and they are current.
  abbrev pub IsGenuine : ℤ → Key → Text → LicenseClaims → Type 0
  IsGenuine now k pem c =
      (payload : Text) × (sig : Text) × (key : PublicKey) × (decode64 k.payload ≡ some payload)
      × (decode64 k.signature ≡ some sig)
      × (parse_public pem ≡ some key)
      × (check_bytes key payload sig ≡ true)
      × (unmarshal payload ≡ some c)
      × IsCurrent now c

  module _ (now : ℤ) (c : LicenseClaims) where
    validated_inv :
        (d : LicenseClaims) (o : Option LicenseError)
        → validate_claims now d ≡ o
        → validated crypto d o ≡ inr c
        → (d ≡ c) × IsCurrent now c
    validated_inv d none e h =
        let same : d ≡ c = cc h in
        (same, subst (IsCurrent now) same (validate_claims-IsCurrent now d e))
    validated_inv d (some err) e h = absurd (cc h)

    verify_claims_inv :
        (o : Option LicenseClaims)
        → verify_claims crypto now o ≡ inr c
        → (o ≡ some c) × IsCurrent now c
    verify_claims_inv none h = absurd (cc h)
    verify_claims_inv (some d) h =
        let r = validated_inv d (validate_claims now d) refl h in (ap some r.0, r.1)

    checked_inv :
        (b : Bool) (o : Option LicenseClaims)
        → (if not b then inl invalid_license else verify_claims crypto now o) ≡ inr c
        → (b ≡ true) × (o ≡ some c) × IsCurrent now c
    checked_inv true o h = let r = verify_claims_inv o h in (refl, r.0, r.1)
    checked_inv false o h = absurd (cc h)

    verify_with_inv :
        (payload sig : Text) (o : Option PublicKey)
        → verify_with crypto now payload sig o ≡ inr c
        → (key : PublicKey) × (o ≡ some key)
          × (check_bytes key payload sig ≡ true)
          × (unmarshal payload ≡ some c)
          × IsCurrent now c
    verify_with_inv payload sig none h = absurd (cc h)
    verify_with_inv payload sig (some key) h =
        let (t, u, current) = checked_inv (check_bytes key payload sig) (unmarshal payload) h in
        (key, refl, t, u, current)

    verify_signature_inv :
        (pem payload : Text) (o : Option Text)
        → verify_signature crypto now pem payload o ≡ inr c
        → (sig : Text) × (key : PublicKey) × (o ≡ some sig)
          × (parse_public pem ≡ some key)
          × (check_bytes key payload sig ≡ true)
          × (unmarshal payload ≡ some c)
          × IsCurrent now c
    verify_signature_inv pem payload none h = absurd (cc h)
    verify_signature_inv pem payload (some sig) h =
        let (key, k, t, u, current) = verify_with_inv payload sig (parse_public pem) h in
        (sig, key, refl, k, t, u, current)

    verify_payload_inv :
        (pem : Text) (k : Key) (o : Option Text)
        → decode64 k.payload ≡ o
        → verify_payload crypto now pem k o ≡ inr c
        → IsGenuine now k pem c
    verify_payload_inv pem k none e h = absurd (cc h)
    verify_payload_inv pem k (some payload) e h =
        let (sig, key, s, p, t, u, current) =
          verify_signature_inv pem payload (decode64 k.signature) h in
        (payload, sig, key, e, s, p, t, u, current)

  -- The claims that Verify returns are those of the key's payload, signed for the public key; they
  -- name a license and a customer and one of the two plans, and have not expired.
  pub verify-IsGenuine :
      (now : ℤ) (k : Key) (pem : Text) (c : LicenseClaims)
      → verify crypto now k pem ≡ inr c
      → IsGenuine now k pem c
  unfolding verify
  verify-IsGenuine now k pem c h = verify_payload_inv now c pem k (decode64 k.payload) refl h
