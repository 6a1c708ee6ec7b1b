-- ===== src/License/Issuing.antt =====
-- An issued license key is accepted.
use featuresignals_unified.Base.{◌≡◌, inr, refl, true, none, some}
use featuresignals_unified.Base.Int.{ℤ}
use featuresignals_unified.Base.Text.{Text}
use featuresignals_unified.License.{
  LicenseClaims, Key, Crypto, validate_claims, encode_key, decode_key, sign, verify,
}
use featuresignals_unified.License.Laws.{HasNoDot, decode_key-encode_key}

-- What the packages document: base64 decodes what it encodes and writes no dot, and a
-- signature of a private key fits the public key of its pair.
pub record CryptoLaws (crypto : Crypto) (IsPair : crypto.PrivateKey → crypto.PublicKey → Type 0)
    : Type 0 where
  pub decodes : (t : Text) → crypto.decode64 (crypto.encode64 t) ≡ some t
  pub no_dot : (t : Text) → HasNoDot (crypto.encode64 t)
  pub fits :
      (private_key : crypto.PrivateKey) (public_key : crypto.PublicKey) (t sig : Text)
      → IsPair private_key public_key
      → crypto.sign_bytes private_key t ≡ some sig
      → crypto.check_bytes public_key t sig ≡ true

-- With a pair of keys, and claims that are valid at the time of the check and that JSON reads back
-- as they were written: when they can be signed, Sign makes a key whose text decodes to it again
-- and verifies, giving the same claims.
pub verify-sign :
    (crypto : Crypto) (IsPair : crypto.PrivateKey → crypto.PublicKey → Type 0)
    (laws : CryptoLaws crypto IsPair) (now : ℤ) (claims : LicenseClaims)
    (private_pem public_pem payload sig : Text) (private_key : crypto.PrivateKey)
    (public_key : crypto.PublicKey)
    → crypto.parse_private private_pem ≡ some private_key
    → crypto.parse_public public_pem ≡ some public_key
    → IsPair private_key public_key
    → crypto.marshal claims ≡ some payload
    → crypto.unmarshal payload ≡ some claims
    → crypto.sign_bytes private_key payload ≡ some sig
    → validate_claims now claims ≡ none
    → (k : Key) × (sign crypto claims private_pem ≡ inr k)
      × (decode_key (encode_key k) ≡ some k)
      × (verify crypto now k public_pem ≡ inr claims)
unfolding sign verify
verify-sign crypto IsPair laws now claims private_pem public_pem payload sig private_key public_key
      parsed parsed' pair marshalled read signed valid =
    let k : Key = record { payload = crypto.encode64 payload; signature = crypto.encode64 sig } in
    (
      k,
      rw (marshalled, parsed, signed) refl,
      decode_key-encode_key k (laws.no_dot payload),
      rw
          (
            laws.decodes payload,
            laws.decodes sig,
            parsed',
            laws.fits private_key public_key payload sig pair signed,
            read,
            valid,
          )
          refl,
    )
