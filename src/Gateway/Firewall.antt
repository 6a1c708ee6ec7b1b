-- ===== src/Gateway/Firewall.antt =====
-- The checks on what a request contains: wafMiddleware and its helpers in
-- deploy/global-router/security.go. The regular expressions, net.SplitHostPort and SHA-256 are
-- parameters.
use featuresignals_unified.Base.{
  ℕ, ◌^◌, Bool, true, false, not, ◌&&◌, ◌||◌, Option, none, some, List, [], ◌∷◌, ltb, length,
  if◌then◌else◌,
}
use featuresignals_unified.Base.Text.{Text, bytes, text_eq, has_suffix, contains}
use featuresignals_unified.Base.Strings.{to_lower, split_on, before_byte, trim_space, one_of}

pub record Platform : Type 0 where
  pub sql_injection : Text → Bool
  pub path_traversal : Text → Bool
  pub xss : Text → Bool
  -- the host of net.SplitHostPort, empty on an error
  pub split_host : Text → Text
  -- the lower-case hexadecimal digits of sha256.Sum256
  pub sum_hex : Text → Text

-- A header that is missing is the empty text. `content_length` is `none` where it is not known, and
-- `body` is `none` where reading it fails.
pub record Request : Type 0 where
  pub method : Text
  pub path : Text
  pub uri : Text
  pub host : Text
  pub remote_addr : Text
  pub forwarded_for : Text
  pub real_ip : Text
  pub user_agent : Text
  pub content_type : Text
  pub authorization : Text
  pub content_length : Option ℕ
  pub body : Option Text

abbrev methods : List Text
methods =
    bytes "GET"
    ∷ bytes "HEAD"
    ∷ bytes "POST"
    ∷ bytes "PUT"
    ∷ bytes "PATCH"
    ∷ bytes "DELETE"
    ∷ bytes "OPTIONS"
    ∷ []

unfoldable pub is_method_allowed : Text → Bool
is_method_allowed method = one_of methods method

abbrev bad_user_agents : List Text
bad_user_agents =
    bytes "nikto"
    ∷ bytes "nmap"
    ∷ bytes "gobuster"
    ∷ bytes "dirbuster"
    ∷ bytes "wfuzz"
    ∷ bytes "sqlmap"
    ∷ bytes "acunetix"
    ∷ bytes "nessus"
    ∷ bytes "openvas"
    ∷ bytes "burpsuite"
    ∷ bytes "zap"
    ∷ []

any_contained : List Text → Text → Bool
any_contained [] s = false
any_contained (p ∷ ps) s = contains s p || any_contained ps s

unfoldable pub is_bad_user_agent : Text → Bool
unfolding any_contained
is_bad_user_agent ua = any_contained bad_user_agents (to_lower ua)

abbrev static_asset_extensions : List Text
static_asset_extensions =
    bytes ".js"
    ∷ bytes ".css"
    ∷ bytes ".png"
    ∷ bytes ".jpg"
    ∷ bytes ".jpeg"
    ∷ bytes ".gif"
    ∷ bytes ".ico"
    ∷ bytes ".svg"
    ∷ bytes ".woff"
    ∷ bytes ".woff2"
    ∷ bytes ".ttf"
    ∷ bytes ".eot"
    ∷ bytes ".webp"
    ∷ bytes ".avif"
    ∷ bytes ".json"
    ∷ bytes ".txt"
    ∷ bytes ".xml"
    ∷ bytes ".map"
    ∷ bytes ".pdf"
    ∷ []

any_suffix : List Text → Text → Bool
any_suffix [] s = false
any_suffix (p ∷ ps) s = has_suffix s p || any_suffix ps s

unfoldable pub is_static_asset : Text → Bool
unfolding any_suffix any_contained
is_static_asset path =
    any_suffix static_asset_extensions (to_lower path)
    || any_contained (bytes "/_next/" ∷ bytes "/assets/" ∷ bytes "/static/" ∷ []) (to_lower path)

-- A parameter after `;` (59) is cut off, and then the spaces around the type.
abbrev bare_type : Text → Text
bare_type ct = if contains ct (bytes ";") then trim_space (before_byte 59 ct) else ct

unfoldable pub is_inspectable_content_type : Text → Bool
is_inspectable_content_type ct =
    one_of
      (bytes "application/json"
        ∷ bytes "application/x-www-form-urlencoded"
        ∷ bytes "text/plain"
        ∷ [])
      (bare_type ct)

abbrev is_large : Option ℕ → Bool
is_large none = false
is_large (some n) = ltb 65536 n

-- What wafMiddleware blocks a request for.
pub data Blocked : Type 0 where
  bad_method bad_user_agent bad_body sql traversal script : Blocked

module _ (p : Platform) where
  open p use {sql_injection, path_traversal, xss, split_host}

  -- Any of the three patterns.
  abbrev pub is_attack : Text → Bool
  is_attack s = sql_injection s || xss s || path_traversal s

  -- `io.ReadAll` behind the limit of 1 MB
  abbrev inspect_read : Option Text → Bool
  inspect_read none = false
  inspect_read (some body) = if ltb (2 ^ 20) (length body) then false else not (is_attack body)

  unfoldable pub inspect_body : Request → Bool
  inspect_body req =
      if not (is_inspectable_content_type req.content_type)
      then true
      else (if is_large req.content_length then true else inspect_read req.body)

  -- Why the request is blocked, or `none`.
  unfoldable pub waf : Request → Option Blocked
  unfolding inspect_body
  waf req =
      if not (is_method_allowed req.method)
      then some bad_method
      else (if not (text_eq req.user_agent []) && is_bad_user_agent req.user_agent
          then some bad_user_agent
          else (if not (inspect_body req)
              then some bad_body
              else (if sql_injection req.uri
                  then some sql
                  else (if path_traversal req.uri
                      then some traversal
                      else (if xss req.uri then some script else none)))))

  abbrev first_part : List Text → Text
  first_part [] = []
  first_part (s ∷ _) = s

  unfoldable pub extract_ip : Request → Text
  extract_ip req =
      if not (text_eq req.forwarded_for [])
      then trim_space (first_part (split_on 44 req.forwarded_for))
      else (if not (text_eq req.real_ip []) then req.real_ip else split_host req.remote_addr)

-- Without the port, which a `:` (58) begins.
unfoldable pub strip_port : Text → Text
strip_port host = before_byte 58 host
