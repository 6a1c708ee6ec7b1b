-- ===== src/Endpoints/Streamed.antt =====
-- Whose events the stream endpoint of server/internal/api/handlers/eval.go streams.
use mathlib.Core.Path.{subst}
use featuresignals_unified.Base.{
  ℕ, ◌≡◌, ◌≢◌, refl, sym, ap, ◌∙◌, inl, inr, true, Bool-cases, Option, Option-cases, none, some,
  List, [], ◌∷◌, if◌then◌else◌,
}
use featuresignals_unified.Base.Preds.{In}
use featuresignals_unified.Base.Text.{Text, text_eq, text_eq_iff}
use featuresignals_unified.Endpoints.{
  Store, Environment, ApiKey, ok, is_live, find_key, find_environment, get_api_key_by_hash,
  get_environment, pair_with, get_environment_by_api_key_hash, stream_environment, stream,
}

find_key-In :
    (now : ℕ) (h : Text) (ks : List ApiKey) (k : ApiKey)
    → find_key now h ks ≡ some k
    → In k ks × (is_live now h k ≡ true)
unfolding find_key
find_key-In now h [] k e = absurd (cc e)
find_key-In now h (j ∷ ks) k e = elim (Bool-cases (is_live now h j)) [
  | inl t ↦ let same : j ≡ k = cc (rw t at e) in (inl same, ap (is_live now h) (sym same) ∙ t)
  | inr f ↦ let (m, live) = find_key-In now h ks k (rw f at e) in (inr m, live)
]

find_environment-In :
    (id : Text) (es : List Environment) (e : Environment)
    → find_environment id es ≡ some e
    → In e es × (e.id ≡ id)
unfolding find_environment
find_environment-In id [] e h = absurd (cc h)
find_environment-In id (d ∷ es) e h = elim (Bool-cases (text_eq d.id id)) [
  | inl t ↦
      let same : d ≡ e = cc (rw t at h) in
      (inl same, ap (λ x. x.id) (sym same) ∙ (text_eq_iff d.id id).0 t)
  | inr f ↦ let (m, same) = find_environment-In id es e (rw f at h) in (inr m, same)
]

-- The environment of a key, both in their tables; the key has the hash, is not revoked and not past
-- its expiry.
pub data IsKeyOf (now : ℕ) (s : Store) (h : Text) (e : Environment) : Type 0 where
  key_of :
      (k : ApiKey)
      → In k s.keys
      → is_live now h k ≡ true
      → In e s.environments
      → e.id ≡ k.env_id
      → IsKeyOf now s h e

of_key-IsKeyOf :
    (now : ℕ) (s : Store) (h : Text) (e : Environment) (k j : ApiKey)
    → In j s.keys × (is_live now h j ≡ true)
    → pair_with j (get_environment j.env_id s) ≡ some (e, k)
    → IsKeyOf now s h e
unfolding get_environment
of_key-IsKeyOf now s h e k j (m, live) same = elim (Bool-cases s.environments_fail) [
  | inl t ↦ absurd (cc (rw t at same))
  | inr f ↦ elim (Option-cases (find_environment j.env_id s.environments)) [
    | inl n ↦ absurd (cc (rw (f, n) at same))
    | inr (d, found) ↦
        let known : d ≡ e = cc (rw (f, found) at same) in
        let (there, its) =
          subst (λ x. In x s.environments × (x.id ≡ j.env_id)) known
            (find_environment-In j.env_id s.environments d found) in
        key_of j m live there its
  ]
]

get_environment_by_api_key_hash-IsKeyOf :
    (now : ℕ) (s : Store) (h : Text) (e : Environment) (k : ApiKey)
    → get_environment_by_api_key_hash now h s ≡ some (e, k)
    → IsKeyOf now s h e
unfolding get_environment_by_api_key_hash get_api_key_by_hash get_environment
get_environment_by_api_key_hash-IsKeyOf now s h e k same = elim (Bool-cases s.keys_fail) [
  | inl t ↦ absurd (cc (rw t at same))
  | inr f ↦ elim (Option-cases (find_key now h s.keys)) [
    | inl n ↦ absurd (cc (rw (f, n) at same))
    | inr (j, found) ↦
        of_key-IsKeyOf now s h e k j (find_key-In now h s.keys j found) (rw (f, found) at same)
  ]
]

module _ (hash : Text → Text) (now : ℕ) (s : Store) where
  -- The events of an environment are streamed under its own name, and to the bearer of one of its live
  -- keys, in the header or, where that is empty, in the query.
  pub data IsOwner (env_key header query id : Text) : Type 0 where
    owner :
        (e : Environment)
        → e.id ≡ id
        → e.slug ≡ env_key
        → (if text_eq header [] then query else header) ≢ []
        → IsKeyOf now s (hash (if text_eq header [] then query else header)) e
        → IsOwner env_key header query id

  stream_environment-ok :
      (env_key header query id : Text) (found : Option (Environment × ApiKey))
      → (if text_eq header [] then query else header) ≢ []
      → get_environment_by_api_key_hash now (hash (if text_eq header [] then query else header)) s
        ≡ found
      → stream_environment hash now s env_key found ≡ ok id
      → IsOwner env_key header query id
  stream_environment-ok env_key header query id none given looked e = absurd (cc e)
  stream_environment-ok env_key header query id (some (d, k)) given looked e =
      elim (Bool-cases (text_eq d.slug env_key)) [
        | inl t ↦ owner d (cc (rw t at e)) ((text_eq_iff d.slug env_key).0 t) given (
            get_environment_by_api_key_hash-IsKeyOf now s
              (hash (if text_eq header [] then query else header)) d k looked)
        | inr f ↦ absurd (cc (rw f at e))
      ]

  -- Stream streams the events of an environment only when the URL names that environment and the
  -- request has a key of it that is neither revoked nor expired.
  pub stream-IsOwner :
      (env_key header query id : Text)
      → stream hash now s env_key header query ≡ ok id
      → IsOwner env_key header query id
  unfolding stream
  stream-IsOwner env_key header query id e = elim (Bool-cases (text_eq env_key [])) [
    | inl t ↦ absurd (cc (rw t at e))
    | inr f ↦ elim (Bool-cases (text_eq (if text_eq header [] then query else header) [])) [
      | inl t ↦ absurd (cc (rw (f, t) at e))
      | inr g ↦
          stream_environment-ok env_key header query id
            (get_environment_by_api_key_hash now
              (hash (if text_eq header [] then query else header)) s)
            (λ empty.
              cc (g, (text_eq_iff (if text_eq header [] then query else header) []).1 empty))
            refl (rw (f, g) at e)
    ]
  ]
